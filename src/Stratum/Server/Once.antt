-- ===== src/Stratum/Server/Once.antt =====
-- crates/scytale-stratum/src/server.rs between two submissions of a share: what broadcasts, connections and the
-- messages of workers leave of it.
use mathlib.Core.Option.{some-injective}
use scytale.Base.{
  ℕ, zero, suc, get_elem?, ◌≡◌, ◌⊎◌, inl, inr, true, false, Option, some, List, [], ◌∷◌, All, map,
  length, Bool-cases, ◌==◌, leb, ◌∙◌, ap, subst, arith,
}
use scytale.Base.Bytes.{Bytes}
use scytale.Base.Maps.{bytes_key, lookup}
use scytale.Stratum.{StratumJob}
use scytale.Stratum.Server.{
  Share, WorkerSession, StratumServer, Verified, is_listed, is_recorded, broadcast_job, connect,
  disconnect, submit, on_session, authorize, record_invalid_share, duplicate_share,
  prune_shares_except, max_worker_sessions,
}
use scytale.Stratum.Server.Sessions.{Keeps, on_session-All, without_session-All}
use scytale.Stratum.Server.Shares.{
  is_recorded-retain_active, submit-id, submit-is_recorded, submit-recorded, submit_known,
}

module _ {F : Type 0} (id : ℕ) where
  -- The server from one state on, by its steps: the job of the share is in the order after each broadcast, and
  -- no new connection gets the number of the session.
  pub data Later (share : Share) (v : StratumServer F) : StratumServer F → Type 0 where
    now : Later share v v
    new_job :
        (w : StratumServer F) (job : StratumJob)
        → is_listed share.job_id (broadcast_job job w).job_order ≡ true
        → Later share v w
        → Later share v (broadcast_job job w)
    joined :
        (w : StratumServer F)
        → (w.session_counter == id) ≡ false
        → Later share v w
        → Later share v (connect w).0
    left : (w : StratumServer F) (other : ℕ) → Later share v w → Later share v (disconnect other w)
    named :
        (w : StratumServer F) (other : ℕ) (name : Bytes)
        → Later share v w
        → Later share v (record w { sessions = on_session other (authorize name) w.sessions })
    sent :
        (w : StratumServer F) (verify : StratumJob → WorkerSession F → Bytes → ℕ → Verified)
        (other : ℕ) (job_id : Bytes) (extranonce2 : Option (Bytes × ℕ)) (nonce : Option ℕ)
        → Later share v w
        → Later share v (record w {
          sessions =
              on_session other
                (λ s. (submit verify w.jobs job_id extranonce2 nonce s).0)
                w.sessions;
        })

  -- The session, where it is the one with the number, knows the share.
  abbrev Knows : Share → WorkerSession F → Type 0
  Knows share s = ((s.session_id == id) ≡ false) ⊎ (is_recorded share s.submitted_shares ≡ true)

  prune-Keeps :
      (share : Share) (order : List Bytes) (sessions : List (WorkerSession F))
      → is_listed share.job_id order ≡ true
      → All (Knows share) sessions
      → All (Knows share) (map (λ s. prune_shares_except order s) sessions)
  prune-Keeps share order [] active h = tt
  prune-Keeps share order (s ∷ sessions) active (inl other, hs) =
      (inl other, prune-Keeps share order sessions active hs)
  prune-Keeps share order (s ∷ sessions) active (inr known, hs) = (
    inr (is_recorded-retain_active share order s.submitted_shares active known),
    prune-Keeps share order sessions active hs,
  )

  submit-Knows :
      (share : Share) (verify : StratumJob → WorkerSession F → Bytes → ℕ → Verified)
      (jobs : List (Bytes × StratumJob)) (job_id : Bytes) (extranonce2 : Option (Bytes × ℕ))
      (nonce : Option ℕ)
      → Keeps (Knows share) (λ s. (submit verify jobs job_id extranonce2 nonce s).0)
  submit-Knows share verify jobs job_id extranonce2 nonce s (inl other) =
      inl (ap (λ k. k == id) (submit-id verify jobs job_id extranonce2 nonce s) ∙ other)
  submit-Knows share verify jobs job_id extranonce2 nonce s (inr known) =
      inr (submit-is_recorded verify share jobs job_id extranonce2 nonce s known)

  authorize-Knows : (share : Share) (name : Bytes) → Keeps (Knows share) (authorize name)
  authorize-Knows share name s (inl other) = inl other
  authorize-Knows share name s (inr known) = inr known

  connect-Knows :
      (share : Share) (w : StratumServer F)
      → (w.session_counter == id) ≡ false
      → All (Knows share) w.sessions
      → All (Knows share) (connect w).0.sessions
  unfolding connect
  connect-Knows share w fresh h = elim (Bool-cases (leb max_worker_sessions (length w.sessions))) [
    | inl e ↦ rw (connect, e) h
    | inr e ↦ rw (connect, e) (inl fresh, h)
  ]

  Later-Knows :
      {share : Share} {v w : StratumServer F}
      → Later share v w
      → All (Knows share) v.sessions
      → All (Knows share) w.sessions
  unfolding broadcast_job
  Later-Knows now h = h
  Later-Knows {share} (new_job w job active r) h =
      prune-Keeps share (broadcast_job job w).job_order w.sessions active (Later-Knows r h)
  Later-Knows {share} (joined w fresh r) h = connect-Knows share w fresh (Later-Knows r h)
  Later-Knows {share} (left w other r) h =
      without_session-All (Knows share) other w.sessions (Later-Knows r h)
  Later-Knows {share} (named w other name r) h =
      on_session-All (Knows share) other (authorize name) w.sessions (authorize-Knows share name)
        (Later-Knows r h)
  Later-Knows {share} (sent w verify other job_id extranonce2 nonce r) h =
      on_session-All (Knows share) other _ w.sessions
        (submit-Knows share verify w.jobs job_id extranonce2 nonce) (Later-Knows r h)

  first-Knows :
      (share : Share) (verify : StratumJob → WorkerSession F → Bytes → ℕ → Verified)
      (jobs : List (Bytes × StratumJob)) (en2 : Bytes) (job : StratumJob)
      (sessions : List (WorkerSession F))
      → lookup share.job_id jobs ≡ some job
      → All (Knows share) (
          on_session id
            (λ s.
              (submit verify jobs share.job_id
                (some (en2, share.extranonce2))
                (some share.nonce)
                s).0)
            sessions)
  unfolding on_session
  first-Knows share verify jobs en2 job [] e = tt
  first-Knows share verify jobs en2 job (s ∷ sessions) e =
      let hs = first-Knows share verify jobs en2 job sessions e in
      elim (Bool-cases (s.session_id == id)) [
        | inl same ↦
            rw (on_session, same)
              (
                inr (
                    submit-recorded verify jobs share.job_id en2 share.extranonce2 share.nonce s job
                      e),
                hs,
              )
        | inr other ↦ rw (on_session, other) (inl other, hs)
      ]

  is_recorded_at :
      (share : Share) (sessions : List (WorkerSession F)) (i : ℕ) (s : WorkerSession F)
      → get_elem? sessions i ≡ some s
      → (s.session_id == id) ≡ true
      → All (Knows share) sessions
      → is_recorded share s.submitted_shares ≡ true
  is_recorded_at share [] i s there same h = absurd (ground arith)
  is_recorded_at share (t ∷ sessions) zero s there same (h, hs) =
      let taken : t ≡ s = some-injective t s there in
      elim h [
        | inl other ↦ absurd (ground (arith, ap (λ u. u.session_id == id) taken))
        | inr known ↦ subst (λ u. is_recorded share u.submitted_shares ≡ true) taken known
      ]
  is_recorded_at share (t ∷ sessions) (suc i) s there same (h, hs) =
      is_recorded_at share sessions i s there same hs

  -- A share counts once while its job is active. Once a session has submitted a share for a job that is there,
  -- whatever came of it, then after any broadcasts that leave the job in the order, connections that do not get the
  -- number of the session, disconnections, authorizations and submissions of any shares by any sessions, the
  -- session is answered that the share is a duplicate when it submits it again for the job, whatever the check
  -- of shares would say: it counts one invalid share more and nothing else of it changes.
  pub submit_once :
      (share : Share) (verify verify' : StratumJob → WorkerSession F → Bytes → ℕ → Verified)
      (en2 en2' : Bytes) (job job' : StratumJob) (v w : StratumServer F) (i : ℕ)
      (s : WorkerSession F)
      → lookup share.job_id v.jobs ≡ some job
      → Later share
          (record v {
            sessions =
                on_session id
                  (λ t.
                    (submit verify v.jobs share.job_id
                      (some (en2, share.extranonce2))
                      (some share.nonce)
                      t).0)
                  v.sessions;
          })
          w
      → lookup share.job_id w.jobs ≡ some job'
      → get_elem? w.sessions i ≡ some s
      → (s.session_id == id) ≡ true
      → submit verify' w.jobs share.job_id (some (en2', share.extranonce2)) (some share.nonce) s
        ≡ (record_invalid_share s, duplicate_share)
  submit_once share verify verify' en2 en2' job job' v w i s e later e' there same =
      submit_known verify' w.jobs share.job_id en2' share.extranonce2 share.nonce s job' e' (
        is_recorded_at share w.sessions i s there same
          (Later-Knows later (first-Knows share verify v.jobs en2 job v.sessions e)))
