-- ===== src/Stratum/Server/Shares.antt =====
-- The shares that the sessions of crates/scytale-stratum/src/server.rs remember: a share counts once.
use scytale.Base.{
  ℕ, ◌≡◌, refl, inl, inr, true, false, Option, some, List, [], ◌∷◌, Bool-cases, Option-cases, subst,
  sym, ap, ◌∙◌, arith,
}
use scytale.Base.Bytes.{Bytes, bytes_eq_refl, bytes_eq→≡}
use scytale.Base.Maps.{bytes_key, lookup}
use scytale.Stratum.{StratumJob}
use scytale.Stratum.Server.{
  Share, WorkerSession, Verified, is_listed, is_recorded, retain_active, check_and_record_share,
  submit, after_check, share_eq, record_invalid_share, duplicate_share, valid_share,
  block_candidate, high_hash, other_error,
}
use scytale.Stratum.Server.Sessions.{submit-shares}

share_eq_refl : (t : Share) → share_eq t t ≡ true
share_eq_refl t = ground (arith, bytes_eq_refl t.job_id)

-- Equal shares are of one job.
share_eq-is_listed :
    (t share : Share) (order : List Bytes)
    → share_eq t share ≡ true
    → is_listed share.job_id order ≡ true
    → is_listed t.job_id order ≡ true
share_eq-is_listed t share order same active =
    subst (λ id. is_listed id order ≡ true) (sym (bytes_eq→≡ t.job_id share.job_id (ground arith)))
      active

-- What is recorded for an active job is retained.
pub is_recorded-retain_active :
    (share : Share) (order : List Bytes) (shares : List Share)
    → is_listed share.job_id order ≡ true
    → is_recorded share shares ≡ true
    → is_recorded share (retain_active order shares) ≡ true
unfolding retain_active
is_recorded-retain_active share order [] active known = known
is_recorded-retain_active share order (t ∷ shares) active known =
    elim (Bool-cases (share_eq t share)) [
      | inl same ↦ rw (retain_active, share_eq-is_listed t share order same active) (ground arith)
      | inr other ↦
          let rest = is_recorded-retain_active share order shares active (ground arith) in
          elim (Bool-cases (is_listed t.job_id order)) [
            | inl e ↦ rw (retain_active, e) (ground arith)
            | inr e ↦ rw (retain_active, e) rest
          ]
    ]

module _ {F : Type 0} where
  -- What has been checked is recorded.
  recorded :
      (share : Share) (s : WorkerSession F)
      → is_recorded share (check_and_record_share share s).0.submitted_shares ≡ true
  unfolding check_and_record_share
  recorded share s = elim (Bool-cases (is_recorded share s.submitted_shares)) [
    | inl e ↦ rw (check_and_record_share, e) e
    | inr e ↦ rw (check_and_record_share, e) (ground (arith, share_eq_refl share))
  ]

  -- And what was recorded before stays so.
  check-is_recorded :
      (share new : Share) (s : WorkerSession F)
      → is_recorded share s.submitted_shares ≡ true
      → is_recorded share (check_and_record_share new s).0.submitted_shares ≡ true
  unfolding check_and_record_share
  check-is_recorded share new s known = elim (Bool-cases (is_recorded new s.submitted_shares)) [
    | inl e ↦ rw (check_and_record_share, e) known
    | inr e ↦ rw (check_and_record_share, e) (ground arith)
  ]

  check_known :
      (share : Share) (s : WorkerSession F)
      → is_recorded share s.submitted_shares ≡ true
      → check_and_record_share share s ≡ (s, false)
  unfolding check_and_record_share
  check_known share s known = rw (check_and_record_share, known) refl

  after_check-id :
      (v : Verified) (s : WorkerSession F) → (after_check v s).0.session_id ≡ s.session_id
  after_check-id valid_share s = refl
  after_check-id block_candidate s = refl
  after_check-id high_hash s = refl
  after_check-id other_error s = refl

  check-id :
      (share : Share) (s : WorkerSession F)
      → (check_and_record_share share s).0.session_id ≡ s.session_id
  unfolding check_and_record_share
  check-id share s = elim (Bool-cases (is_recorded share s.submitted_shares)) [
    | inl e ↦ rw (check_and_record_share, e) refl
    | inr e ↦ rw (check_and_record_share, e) refl
  ]

  module _ (verify : StratumJob → WorkerSession F → Bytes → ℕ → Verified) where
    -- Whatever is submitted, the session keeps its number.
    pub submit-id :
        (jobs : List (Bytes × StratumJob)) (job_id : Bytes) (extranonce2 : Option (Bytes × ℕ))
        (nonce : Option ℕ) (s : WorkerSession F)
        → (submit verify jobs job_id extranonce2 nonce s).0.session_id ≡ s.session_id
    unfolding submit
    submit-id jobs job_id extranonce2 nonce s = elim (Option-cases (lookup job_id jobs)) [
      | inl e ↦ rw (submit, e) refl
      | inr (job, e) ↦ elim (Option-cases extranonce2) [
        | inl f ↦ rw (submit, e, f) refl
        | inr ((en2, num), f) ↦ elim (Option-cases nonce) [
          | inl g ↦ rw (submit, e, f, g) refl
          | inr (n, g) ↦
              let share : Share = record { job_id = job_id; nonce = n; extranonce2 = num } in
              let checked = check_and_record_share share s in
              elim (Bool-cases checked.1) [
                | inl new ↦
                    rw (submit, e, f, g, new)
                      (after_check-id (verify job checked.0 en2 n) checked.0 ∙ check-id share s)
                | inr old ↦ rw (submit, e, f, g, old) (check-id share s)
              ]
        ]
      ]
    ]

    -- And the shares that it knows.
    pub submit-is_recorded :
        (share : Share) (jobs : List (Bytes × StratumJob)) (job_id : Bytes)
        (extranonce2 : Option (Bytes × ℕ)) (nonce : Option ℕ) (s : WorkerSession F)
        → is_recorded share s.submitted_shares ≡ true
        → is_recorded share (submit verify jobs job_id extranonce2 nonce s).0.submitted_shares
          ≡ true
    unfolding submit
    submit-is_recorded share jobs job_id extranonce2 nonce s known =
        elim (Option-cases (lookup job_id jobs)) [
          | inl e ↦ rw (submit, e) known
          | inr (job, e) ↦ elim (Option-cases extranonce2) [
            | inl f ↦ rw (submit, e, f) known
            | inr ((en2, num), f) ↦ elim (Option-cases nonce) [
              | inl g ↦ rw (submit, e, f, g) known
              | inr (n, g) ↦
                  rw (f, g)
                    (subst (λ shares. is_recorded share shares ≡ true)
                      (sym (submit-shares verify jobs job_id en2 num n s job e))
                      (check-is_recorded share
                        record { job_id = job_id; nonce = n; extranonce2 = num } s known))
            ]
          ]
        ]

    -- A submission for a job that is there, whose parts decode, is known from then on.
    pub submit-recorded :
        (jobs : List (Bytes × StratumJob)) (job_id en2 : Bytes) (num n : ℕ) (s : WorkerSession F)
        (job : StratumJob)
        → lookup job_id jobs ≡ some job
        → is_recorded
            record { job_id = job_id; nonce = n; extranonce2 = num }
            (submit verify jobs job_id (some (en2, num)) (some n) s).0.submitted_shares
          ≡ true
    submit-recorded jobs job_id en2 num n s job e =
        let share : Share = record { job_id = job_id; nonce = n; extranonce2 = num } in
        subst (λ shares. is_recorded share shares ≡ true)
          (sym (submit-shares verify jobs job_id en2 num n s job e)) (recorded share s)

    -- A known share is a duplicate.
    pub submit_known :
        (jobs : List (Bytes × StratumJob)) (job_id en2 : Bytes) (num n : ℕ) (s : WorkerSession F)
        (job : StratumJob)
        → lookup job_id jobs ≡ some job
        → is_recorded record { job_id = job_id; nonce = n; extranonce2 = num } s.submitted_shares
          ≡ true
        → submit verify jobs job_id (some (en2, num)) (some n) s
          ≡ (record_invalid_share s, duplicate_share)
    unfolding submit
    submit_known jobs job_id en2 num n s job e known =
        let share : Share = record { job_id = job_id; nonce = n; extranonce2 = num } in
        let same = check_known share s known in
        rw (submit, e, same) (ap (λ c. (record_invalid_share c.0, duplicate_share)) same)
