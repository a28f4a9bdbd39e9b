-- ===== src/Tests/Server.antt =====
-- The theorems of the server of Stratum, at one that has taken two workers, two jobs and shares.
use scytale.Base.{ℕ, get_elem?, none, some, ◌≡◌, refl, [], ◌∷◌}
use scytale.Base.Bytes.{Bytes}
use scytale.Stratum.{StratumJob}
use scytale.Base.Maps.{bytes_key, lookup}
use scytale.Stratum.Server.{
  Share, WorkerSession, StratumServer, Verified, authorize, valid_share, duplicate_share,
  broadcast_job, connect, submit, on_session, record_invalid_share,
}
use scytale.Stratum.Server.Window.{IsWindowed}
use scytale.Stratum.Server.Once.{Later, now, new_job, joined, named, sent, submit_once}
use scytale.Stratum.Server.Sessions.{started, broadcast, connected, submitted, Served-IsWindowed}
use scytale.Tests.Stratum.{tree_job, large_job}

-- A server that has taken two workers and two jobs, and a share of the first worker.
abbrev accept_all : StratumJob → WorkerSession ℕ → Bytes → ℕ → Verified
accept_all job session extranonce2 nonce = valid_share

abbrev idle : StratumServer ℕ
idle = record {
  sessions = [];
  current_job = none;
  jobs = [];
  job_order = [];
  session_counter = 1;
  default_difficulty = 1;
}

abbrev with_job : StratumServer ℕ
with_job = broadcast_job tree_job (connect idle).0

abbrev with_share : StratumServer ℕ
with_share = record with_job {
  sessions =
      on_session 1
        (λ s.
          (submit accept_all with_job.jobs (1 ∷ []) (some (0 ∷ 0 ∷ 0 ∷ 5 ∷ [], 5)) (some 9) s).0)
        with_job.sessions;
}

Served-IsWindowed_example : IsWindowed (broadcast_job large_job with_share)
Served-IsWindowed_example =
    Served-IsWindowed accept_all {difficulty = 1} {v = broadcast_job large_job with_share} (
      broadcast with_share large_job (
        submitted with_job 1 (1 ∷ []) (some (0 ∷ 0 ∷ 0 ∷ 5 ∷ [], 5)) (some 9)
          (broadcast (connect idle).0 tree_job (connected idle (started 1)))))

-- Then a share of the worker, another one, its authorization, a new job and a new worker.
abbrev first_share : Share
first_share = record { job_id = 1 ∷ []; nonce = 9; extranonce2 = 5 }

abbrev after_other : StratumServer ℕ
after_other = record with_share {
  sessions =
      on_session 1
        (λ s.
          (submit accept_all with_share.jobs (1 ∷ []) (some (0 ∷ 0 ∷ 0 ∷ 5 ∷ [], 5)) (some 10) s).0)
        with_share.sessions;
}

abbrev after_name : StratumServer ℕ
after_name = record after_other {
  sessions = on_session 1 (authorize (0x61 ∷ 0x2e ∷ 0x62 ∷ [])) after_other.sessions;
}

abbrev second_job : StratumJob
second_job = record tree_job { job_id = 2 ∷ [] }

abbrev in_the_end : StratumServer ℕ
in_the_end = (connect (broadcast_job second_job after_name)).0

abbrev worker : WorkerSession ℕ
worker = record {
  session_id = 1;
  extranonce1 = 0 ∷ 0 ∷ 0 ∷ 0 ∷ [];
  authorized_worker = some (0x61 ∷ 0x2e ∷ 0x62 ∷ []);
  authorized_address = some (0x61 ∷ []);
  difficulty = 1;
  valid_shares = 2;
  invalid_shares = 0;
  submitted_shares = record { job_id = 1 ∷ []; nonce = 10; extranonce2 = 5 } ∷ first_share ∷ [];
}

meanwhile : Later 1 first_share with_share in_the_end
unfolding broadcast_job connect scytale.Stratum.Server.trim_jobs
meanwhile = joined (broadcast_job second_job after_name) refl (
    new_job after_name second_job refl (
      named after_other 1 (0x61 ∷ 0x2e ∷ 0x62 ∷ [])
        (sent with_share accept_all 1 (1 ∷ []) (some (0 ∷ 0 ∷ 0 ∷ 5 ∷ [], 5)) (some 10) now)))

found_before : lookup {K = Bytes} (1 ∷ []) with_job.jobs ≡ some tree_job
unfolding broadcast_job connect scytale.Stratum.Server.trim_jobs lookup scytale.Base.Maps.insert
found_before = refl

found_after : lookup {K = Bytes} (1 ∷ []) in_the_end.jobs ≡ some tree_job
unfolding broadcast_job connect scytale.Stratum.Server.trim_jobs lookup on_session submit
    scytale.Base.Maps.insert scytale.Stratum.Server.check_and_record_share
    scytale.Stratum.Server.retain_active scytale.Base.Maps.remove
found_after = refl

worker_there : get_elem? in_the_end.sessions 1 ≡ some worker
unfolding broadcast_job connect scytale.Stratum.Server.trim_jobs lookup on_session submit
    scytale.Stratum.Server.without_session scytale.Stratum.Server.retain_active
    scytale.Stratum.Server.check_and_record_share scytale.Base.Maps.insert
worker_there = refl

submit_once_example :
    submit accept_all in_the_end.jobs (1 ∷ []) (some (0 ∷ 0 ∷ 0 ∷ 5 ∷ [], 5)) (some 9) worker
    ≡ (record_invalid_share worker, duplicate_share)
submit_once_example =
    submit_once 1 first_share accept_all accept_all (0 ∷ 0 ∷ 0 ∷ 5 ∷ []) (0 ∷ 0 ∷ 0 ∷ 5 ∷ [])
      tree_job tree_job with_job in_the_end 1 worker found_before meanwhile found_after worker_there
      refl
