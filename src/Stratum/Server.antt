-- ===== src/Stratum/Server.antt =====
-- crates/scytale-stratum: src/session.rs and the state of src/server.rs, with the handlers that change it, each as
-- one step. The difficulty is a floating-point number of an abstract type; the check of a share is an argument,
-- as is what the JSON and the hex of a request decode to. Messages to workers are left out.
pub mod Window
pub mod Sessions
pub mod Shares
pub mod Once
use scytale.Base.{
  ℕ, ◌+◌, ◌^◌, ◌%◌, Bool, true, false, ◌&&◌, ◌||◌, Option, none, some, List, [], ◌∷◌, ◌++◌, map,
  length, ltb, leb, ◌==◌, if◌then◌else◌,
}
use scytale.Base.Bytes.{Bytes, bytes_eq}
use scytale.Base.Maps.{Key, bytes_key, lookup, insert, remove}
use scytale.Stratum.{StratumJob}

abbrev pub max_active_jobs : ℕ
max_active_jobs = 16

abbrev pub max_worker_sessions : ℕ
max_worker_sessions = 2048

-- The key of a submitted share.
pub record Share : Type 0 where
  pub job_id : Bytes
  pub nonce : ℕ
  pub extranonce2 : ℕ

abbrev pub share_eq : Share → Share → Bool
share_eq a b =
    bytes_eq a.job_id b.job_id && (a.nonce == b.nonce) && (a.extranonce2 == b.extranonce2)

pub record WorkerSession (F : Type 0) : Type 0 where
  pub session_id : ℕ
  pub extranonce1 : Bytes
  pub authorized_worker : Option Bytes
  pub authorized_address : Option Bytes
  pub difficulty : F
  pub valid_shares : ℕ
  pub invalid_shares : ℕ
  pub submitted_shares : List Share

pub record StratumServer (F : Type 0) : Type 0 where
  pub sessions : List (WorkerSession F)
  pub current_job : Option StratumJob
  pub jobs : List (Bytes × StratumJob)
  pub job_order : List Bytes
  pub session_counter : ℕ
  pub default_difficulty : F

-- `ShareVerificationResult` without what it carries, or the error of a share.
pub data Verified : Type 0 where
  valid_share : Verified
  block_candidate : Verified
  high_hash : Verified
  other_error : Verified

pub data Answer : Type 0 where
  accepted : Answer
  job_not_found : Answer
  invalid_params : Answer
  duplicate_share : Answer
  low_difficulty_share : Answer
  stratum_error : Answer

abbrev pub is_listed : Bytes → List Bytes → Bool
is_listed id [] = false
is_listed id (j ∷ js) = bytes_eq j id || is_listed id js

abbrev pub is_recorded : Share → List Share → Bool
is_recorded s [] = false
is_recorded s (t ∷ ts) = share_eq t s || is_recorded s ts

abbrev pub before_dot : Bytes → Bytes
before_dot [] = []
before_dot (b ∷ bs) = if b == 0x2e then [] else b ∷ before_dot bs

-- `while order.len() > MAX_ACTIVE_JOBS`: the oldest job goes.
unfoldable pub trim_jobs :
    List Bytes → List (Bytes × StratumJob) → List Bytes × List (Bytes × StratumJob)
trim_jobs [] jobs = ([], jobs)
trim_jobs (old ∷ order) jobs = elim (ltb max_active_jobs (length (old ∷ order))) [
  | false ↦ (old ∷ order, jobs)
  | true ↦ trim_jobs order (remove old jobs)
]

unfoldable pub retain_active : List Bytes → List Share → List Share
retain_active valid_job_ids [] = []
retain_active valid_job_ids (s ∷ shares) =
    let rest = retain_active valid_job_ids shares in
    if is_listed s.job_id valid_job_ids then s ∷ rest else rest

module _ {F : Type 0} where
  abbrev pub prune_shares_except : List Bytes → WorkerSession F → WorkerSession F
  prune_shares_except valid_job_ids session = record session {
    submitted_shares = retain_active valid_job_ids session.submitted_shares;
  }

  unfoldable pub broadcast_job : StratumJob → StratumServer F → StratumServer F
  broadcast_job job server =
      let trimmed =
        trim_jobs (server.job_order ++ job.job_id ∷ []) (insert job.job_id job server.jobs) in
      record server {
        current_job = some job;
        job_order = trimmed.0;
        jobs = trimmed.1;
        sessions = map (λ s. prune_shares_except trimmed.0 s) server.sessions;
      }

  abbrev pub new_session : ℕ → F → WorkerSession F
  new_session session_id initial_diff = record {
    session_id = session_id;
    extranonce1 = 0 ∷ 0 ∷ 0 ∷ 0 ∷ [];
    authorized_worker = none;
    authorized_address = none;
    difficulty = initial_diff;
    valid_shares = 0;
    invalid_shares = 0;
    submitted_shares = [];
  }

  -- The start of `handle_connection`.
  unfoldable pub connect : StratumServer F → StratumServer F × Bool
  connect server = elim (leb max_worker_sessions (length server.sessions)) [
    | true ↦ (server, false)
    | false ↦ (
      record server {
        sessions = new_session server.session_counter server.default_difficulty ∷ server.sessions;
        session_counter = (server.session_counter + 1) % 2 ^ 64;
      },
      true,
    )
  ]

  unfoldable pub without_session : ℕ → List (WorkerSession F) → List (WorkerSession F)
  without_session id [] = []
  without_session id (s ∷ sessions) =
      let rest = without_session id sessions in if s.session_id == id then rest else s ∷ rest

  -- Its end.
  abbrev pub disconnect : ℕ → StratumServer F → StratumServer F
  disconnect id server = record server { sessions = without_session id server.sessions }

  -- `mining.authorize`: the address is the name up to its first dot.
  abbrev pub authorize : Bytes → WorkerSession F → WorkerSession F
  authorize worker_name s = record s {
    authorized_worker = some worker_name;
    authorized_address = some (before_dot worker_name);
  }

  abbrev pub record_valid_share : WorkerSession F → WorkerSession F
  record_valid_share s = record s { valid_shares = (s.valid_shares + 1) % 2 ^ 64 }

  abbrev pub record_invalid_share : WorkerSession F → WorkerSession F
  record_invalid_share s = record s { invalid_shares = (s.invalid_shares + 1) % 2 ^ 64 }

  abbrev pub after_check : Verified → WorkerSession F → WorkerSession F × Answer
  after_check valid_share s = (record_valid_share s, accepted)
  after_check block_candidate s = (record_valid_share s, accepted)
  after_check high_hash s = (record_invalid_share s, low_difficulty_share)
  after_check other_error s = (record_invalid_share s, stratum_error)

  -- `check_and_record_share`, with whether the share is new.
  unfoldable pub check_and_record_share : Share → WorkerSession F → WorkerSession F × Bool
  check_and_record_share share s = elim (is_recorded share s.submitted_shares) [
    | true ↦ (s, false)
    | false ↦ (record s { submitted_shares = share ∷ s.submitted_shares }, true)
  ]

  -- `mining.submit`, on the session of the worker: the extranonce in its four bytes and its number, and the nonce,
  -- where they decode.
  unfoldable pub submit :
      (StratumJob → WorkerSession F → Bytes → ℕ → Verified)
      → List (Bytes × StratumJob)
      → Bytes
      → Option (Bytes × ℕ)
      → Option ℕ
      → WorkerSession F
      → WorkerSession F × Answer
  submit verify jobs job_id extranonce2 nonce session = elim (lookup job_id jobs) [
    | none ↦ (record_invalid_share session, job_not_found)
    | some job ↦ elim extranonce2 [
      | none ↦ (record_invalid_share session, invalid_params)
      | some (en2_bytes, en2_num) ↦ elim nonce [
        | none ↦ (record_invalid_share session, invalid_params)
        | some n ↦
            let share : Share = record { job_id = job_id; nonce = n; extranonce2 = en2_num } in
            let checked = check_and_record_share share session in
            elim checked.1 [
              | false ↦ (record_invalid_share checked.0, duplicate_share)
              | true ↦ after_check (verify job checked.0 en2_bytes n) checked.0
            ]
      ]
    ]
  ]

  unfoldable pub on_session :
      ℕ → (WorkerSession F → WorkerSession F) → List (WorkerSession F) → List (WorkerSession F)
  on_session id change [] = []
  on_session id change (s ∷ sessions) =
      let rest = on_session id change sessions in
      if s.session_id == id then change s ∷ rest else s ∷ rest
