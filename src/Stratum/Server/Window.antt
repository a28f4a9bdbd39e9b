-- ===== src/Stratum/Server/Window.antt =====
-- The window of active jobs of crates/scytale-stratum/src/server.rs, and the shares that are kept for it.
use scytale.Base.{
  ◌≤◌, ◌≡◌, inl, inr, true, some, List, [], ◌∷◌, ◌++◌, All, map, length, ltb, Bool-cases, arith,
}
use scytale.Base.Bytes.{Bytes, bytes_eq, bytes_eq_refl, bytes_eq→≡}
use scytale.Base.Maps.{bytes_key, lookup, insert, remove, lookup-remove, lookup-insert}
use scytale.Stratum.{StratumJob}
use scytale.Stratum.Server.{
  Share, WorkerSession, StratumServer, is_listed, trim_jobs, retain_active, prune_shares_except,
  broadcast_job,
}

-- Every job that can be looked up is in the order.
abbrev pub IsListed : List Bytes → List (Bytes × StratumJob) → Type 0
IsListed order jobs =
    (id : Bytes) (j : StratumJob) → lookup id jobs ≡ some j → is_listed id order ≡ true

trim_jobs_window :
    (order : List Bytes) (jobs : List (Bytes × StratumJob)) → length (trim_jobs order jobs).0 ≤ 16
unfolding trim_jobs
trim_jobs_window [] jobs = omega arith
trim_jobs_window (old ∷ order) jobs = elim (Bool-cases (ltb 16 (length (old ∷ order)))) [
  | inl e ↦ rw (trim_jobs, e) (trim_jobs_window order (remove old jobs))
  | inr e ↦ rw (trim_jobs, e) (ground arith)
]

remove-IsListed :
    (old : Bytes) (order : List Bytes) (jobs : List (Bytes × StratumJob))
    → IsListed (old ∷ order) jobs
    → IsListed order (remove old jobs)
remove-IsListed old order jobs h id j e = ground (arith, lookup-remove old id jobs, h id j)

trim_jobs-IsListed :
    (order : List Bytes) (jobs : List (Bytes × StratumJob))
    → IsListed order jobs
    → IsListed (trim_jobs order jobs).0 (trim_jobs order jobs).1
unfolding trim_jobs
trim_jobs-IsListed [] jobs h = h
trim_jobs-IsListed (old ∷ order) jobs h = elim (Bool-cases (ltb 16 (length (old ∷ order)))) [
  | inl e ↦
      rw (trim_jobs, e)
        (trim_jobs-IsListed order (remove old jobs) (remove-IsListed old order jobs h))
  | inr e ↦ rw (trim_jobs, e) h
]

is_listed-append :
    (id : Bytes) (order : List Bytes) (new : Bytes)
    → (is_listed id order ≡ true)
    → is_listed id (order ++ new ∷ []) ≡ true
is_listed-append id [] new h = absurd (ground arith)
is_listed-append id (j ∷ js) new h = ground (arith, is_listed-append id js new)

is_listed_last : (order : List Bytes) (new : Bytes) → is_listed new (order ++ new ∷ []) ≡ true
is_listed_last [] new = ground (arith, bytes_eq_refl new)
is_listed_last (j ∷ js) new = ground (arith, is_listed_last js new)

insert-IsListed :
    (order : List Bytes) (job : StratumJob) (jobs : List (Bytes × StratumJob))
    → IsListed order jobs
    → IsListed (order ++ job.job_id ∷ []) (insert job.job_id job jobs)
insert-IsListed order job jobs h id j e = elim (Bool-cases (bytes_eq job.job_id id)) [
  | inl same ↦ rw (bytes_eq→≡ job.job_id id same) (is_listed_last order id)
  | inr other ↦
      is_listed-append id order job.job_id
        (h id j (ground (arith, lookup-insert job.job_id id job jobs)))
]

retain_active-All :
    (ids : List Bytes) (shares : List Share)
    → All (λ s. is_listed s.job_id ids ≡ true) (retain_active ids shares)
unfolding retain_active
retain_active-All ids [] = tt
retain_active-All ids (s ∷ shares) = elim (Bool-cases (is_listed s.job_id ids)) [
  | inl e ↦ rw (retain_active, e) (e, retain_active-All ids shares)
  | inr e ↦ rw (retain_active, e) (retain_active-All ids shares)
]

pub nothing-IsListed : IsListed [] []
unfolding lookup
nothing-IsListed id j e = absurd (ground arith)

module _ {F : Type 0} where
  abbrev pub IsPruned : List Bytes → WorkerSession F → Type 0
  IsPruned order s = All (λ t. is_listed t.job_id order ≡ true) s.submitted_shares

  pub record IsWindowed (server : StratumServer F) : Type 0 where
    pub window : length server.job_order ≤ 16
    pub listed : IsListed server.job_order server.jobs
    pub pruned : All (λ s. IsPruned server.job_order s) server.sessions

  IsPruned-map :
      (ids : List Bytes) (sessions : List (WorkerSession F))
      → All (λ s. IsPruned ids s) (map (λ s. prune_shares_except ids s) sessions)
  IsPruned-map ids [] = tt
  IsPruned-map ids (s ∷ sessions) =
      (retain_active-All ids s.submitted_shares, IsPruned-map ids sessions)

  pub broadcast_job-IsWindowed :
      (job : StratumJob) (server : StratumServer F)
      → IsWindowed server
      → IsWindowed (broadcast_job job server)
  unfolding broadcast_job
  broadcast_job-IsWindowed job server w =
      let order = server.job_order ++ job.job_id ∷ [] in
      let jobs = insert job.job_id job server.jobs in
      record {
        window = trim_jobs_window order jobs;
        listed =
            trim_jobs-IsListed order jobs
              (insert-IsListed server.job_order job server.jobs w.listed);
        pruned = IsPruned-map (trim_jobs order jobs).0 server.sessions;
      }
