-- ===== src/Stratum/Server/Sessions.antt =====
-- The sessions of crates/scytale-stratum/src/server.rs: shares for active jobs only.
use scytale.Base.{
  ℕ, ◌≡◌, refl, inl, inr, true, Option, none, some, List, [], ◌∷◌, All, length, Bool-cases,
  Option-cases, ◌==◌, leb, subst, sym, arith,
}
use scytale.Base.Bytes.{Bytes}
use scytale.Base.Maps.{bytes_key, lookup}
use scytale.Stratum.{StratumJob}
use scytale.Stratum.Server.{
  Share, WorkerSession, StratumServer, Verified, is_listed, is_recorded, broadcast_job, connect,
  without_session, disconnect, check_and_record_share, submit, on_session, authorize, after_check,
  valid_share, block_candidate, high_hash, other_error,
}
use scytale.Stratum.Server.Window.{
  IsListed, nothing-IsListed, IsPruned, IsWindowed, broadcast_job-IsWindowed,
}

module _ {F : Type 0} where
  -- A change of a session that keeps what holds of it.
  abbrev pub Keeps : (WorkerSession F → Type 0) → (WorkerSession F → WorkerSession F) → Type 0
  Keeps P change = (s : WorkerSession F) → P s → P (change s)

  pub on_session-All :
      (P : WorkerSession F → Type 0) (id : ℕ) (change : WorkerSession F → WorkerSession F)
      (sessions : List (WorkerSession F))
      → Keeps P change
      → All P sessions
      → All P (on_session id change sessions)
  unfolding on_session
  on_session-All P id change [] keeps h = tt
  on_session-All P id change (s ∷ sessions) keeps (h, hs) = elim (Bool-cases (s.session_id == id)) [
    | inl e ↦ rw (on_session, e) (keeps s h, on_session-All P id change sessions keeps hs)
    | inr e ↦ rw (on_session, e) (h, on_session-All P id change sessions keeps hs)
  ]

  pub without_session-All :
      (P : WorkerSession F → Type 0) (id : ℕ) (sessions : List (WorkerSession F))
      → All P sessions
      → All P (without_session id sessions)
  unfolding without_session
  without_session-All P id [] h = tt
  without_session-All P id (s ∷ sessions) (h, hs) = elim (Bool-cases (s.session_id == id)) [
    | inl e ↦ rw (without_session, e) (without_session-All P id sessions hs)
    | inr e ↦ rw (without_session, e) (h, without_session-All P id sessions hs)
  ]

  checked-IsPruned :
      (order : List Bytes) (share : Share) (s : WorkerSession F)
      → is_listed share.job_id order ≡ true
      → IsPruned order s
      → IsPruned order (check_and_record_share share s).0
  unfolding check_and_record_share
  checked-IsPruned order share s active h =
      elim (Bool-cases (is_recorded share s.submitted_shares)) [
        | inl e ↦ rw (check_and_record_share, e) h
        | inr e ↦ rw (check_and_record_share, e) (active, h)
      ]

  pub after_check-shares :
      (v : Verified) (s : WorkerSession F)
      → (after_check v s).0.submitted_shares ≡ s.submitted_shares
  after_check-shares valid_share s = refl
  after_check-shares block_candidate s = refl
  after_check-shares high_hash s = refl
  after_check-shares other_error s = refl

  module _ (verify : StratumJob → WorkerSession F → Bytes → ℕ → Verified) where
    -- A submission for a job that is there, whose parts decode, leaves the session with the shares that the
    -- check for duplicates made.
    pub submit-shares :
        (jobs : List (Bytes × StratumJob)) (job_id en2 : Bytes) (num n : ℕ) (s : WorkerSession F)
        (job : StratumJob)
        → lookup job_id jobs ≡ some job
        → (submit verify jobs job_id (some (en2, num)) (some n) s).0.submitted_shares
          ≡ (check_and_record_share
              record { job_id = job_id; nonce = n; extranonce2 = num }
              s).0.submitted_shares
    unfolding submit
    submit-shares jobs job_id en2 num n s job e =
        let share : Share = record { job_id = job_id; nonce = n; extranonce2 = num } in
        elim (Bool-cases (check_and_record_share share s).1) [
          | inl new ↦
              rw (submit, e, new)
                (after_check-shares (verify job (check_and_record_share share s).0 en2 n)
                  (check_and_record_share share s).0)
          | inr old ↦ rw (submit, e, old) refl
        ]

    submit-Keeps :
        (order : List Bytes) (jobs : List (Bytes × StratumJob)) (job_id : Bytes)
        (extranonce2 : Option (Bytes × ℕ)) (nonce : Option ℕ)
        → IsListed order jobs
        → Keeps (IsPruned order) (λ s. (submit verify jobs job_id extranonce2 nonce s).0)
    unfolding submit
    submit-Keeps order jobs job_id extranonce2 nonce listed s h =
        elim (Option-cases (lookup job_id jobs)) [
          | inl e ↦ rw (submit, e) h
          | inr (job, e) ↦ elim (Option-cases extranonce2) [
            | inl f ↦ rw (submit, e, f) h
            | inr ((en2, num), f) ↦ elim (Option-cases nonce) [
              | inl g ↦ rw (submit, e, f, g) h
              | inr (n, g) ↦
                  let share : Share = record { job_id = job_id; nonce = n; extranonce2 = num } in
                  rw (f, g)
                    (subst (λ shares. All (λ t. is_listed t.job_id order ≡ true) shares)
                      (sym (submit-shares jobs job_id en2 num n s job e))
                      (checked-IsPruned order share s (listed job_id job e) h))
            ]
          ]
        ]

    -- The server by its steps: jobs come in, workers connect, authorize, submit and leave.
    pub data Served (difficulty : F) : StratumServer F → Type 0 where
      started :
          (counter : ℕ)
          → Served difficulty record {
            sessions = [];
            current_job = none;
            jobs = [];
            job_order = [];
            session_counter = counter;
            default_difficulty = difficulty;
          }
      broadcast :
          (v : StratumServer F) (job : StratumJob)
          → Served difficulty v
          → Served difficulty (broadcast_job job v)
      connected : (v : StratumServer F) → Served difficulty v → Served difficulty (connect v).0
      disconnected :
          (v : StratumServer F) (id : ℕ) → Served difficulty v → Served difficulty (disconnect id v)
      authorized :
          (v : StratumServer F) (id : ℕ) (name : Bytes)
          → Served difficulty v
          → Served difficulty (record v { sessions = on_session id (authorize name) v.sessions })
      submitted :
          (v : StratumServer F) (id : ℕ) (job_id : Bytes) (extranonce2 : Option (Bytes × ℕ))
          (nonce : Option ℕ)
          → Served difficulty v
          → Served difficulty (record v {
            sessions =
                on_session id (λ s. (submit verify v.jobs job_id extranonce2 nonce s).0) v.sessions;
          })

    connect-IsWindowed : (v : StratumServer F) → IsWindowed v → IsWindowed (connect v).0
    unfolding connect
    connect-IsWindowed v w = elim (Bool-cases (leb 2048 (length v.sessions))) [
      | inl e ↦ rw (connect, e) w
      | inr e ↦
          rw (connect, e) (record { window = w.window; listed = w.listed; pruned = (tt, w.pruned) })
    ]

    -- Whatever jobs come in and whatever workers do, the server keeps at most sixteen jobs in order, every job
    -- that a submission can name is one of them, and each session holds shares of those jobs only.
    pub Served-IsWindowed :
        {difficulty : F} {v : StratumServer F} → Served difficulty v → IsWindowed v
    Served-IsWindowed (started counter) = record {
      window = omega arith;
      listed = nothing-IsListed;
      pruned = tt;
    }
    Served-IsWindowed (broadcast v job r) = broadcast_job-IsWindowed job v (Served-IsWindowed r)
    Served-IsWindowed (connected v r) = connect-IsWindowed v (Served-IsWindowed r)
    Served-IsWindowed (disconnected v id r) =
        let w = Served-IsWindowed r in
        record {
          window = w.window;
          listed = w.listed;
          pruned = without_session-All (IsPruned v.job_order) id v.sessions w.pruned;
        }
    Served-IsWindowed (authorized v id name r) =
        let w = Served-IsWindowed r in
        record {
          window = w.window;
          listed = w.listed;
          pruned =
              on_session-All (IsPruned v.job_order) id (authorize name) v.sessions (λ s h. h)
                w.pruned;
        }
    Served-IsWindowed (submitted v id job_id extranonce2 nonce r) =
        let w = Served-IsWindowed r in
        record {
          window = w.window;
          listed = w.listed;
          pruned =
              on_session-All (IsPruned v.job_order) id _ v.sessions
                (submit-Keeps v.job_order v.jobs job_id extranonce2 nonce w.listed) w.pruned;
        }
