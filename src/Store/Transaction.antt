-- ===== src/Store/Transaction.antt =====
-- `inTx` of internal/store/store.go and the statements that `ApplyReport` of internal/store/jobs.go runs under it.
-- Each statement works on the tables as the ones before it left them, so a function that fails has written some of its
-- rows, and the rollback takes them back. A transaction that cannot begin or commit is not modelled.
use cprestic.Common.{
  ℕ, ◌≡◌, refl, inl, inr, Bool, not, ◌&&◌, ◌||◌, List, [], ◌∷◌, Text, arith, leb, ◌==◌,
  if◌then◌else◌, any, update, Result, ok, err, Result-cases, Bool-cases,
}
use cprestic.Job.{Status, rollup}
use cprestic.Store.{Store, StoreError, BackupJob, JobTarget, not_found, check_violation}
use cprestic.Store.Reports.{
  TargetReport, int64_limit, is_target, report_target, apply_targets, fail_unfinished,
  target_statuses, held_by, close_job, apply_report,
}

-- What a function of the store answers, and the tables as it has written them.
abbrev pub Written : Type 0 → Type 0
Written A = Result StoreError A × Store

-- `inTx`: commit what was written, or roll back.
unfoldable pub in_tx : {A : Type 0} → Store → Written A → Written A
in_tx s (ok a, t) = (ok a, t)
in_tx s (err e, t) = (err e, s)

-- A statement that is refused ends the function, with what the ones before it wrote.
abbrev and_then : {A : Type 0} {B : Type 0} → Written A → (A → Store → Written B) → Written B
and_then (err e, t) next = (err e, t)
and_then (ok a, t) next = next a t

-- The column check of one update, as in `apply_targets`.
abbrev pub refused : ℕ → TargetReport → List JobTarget → Bool
refused job_id r targets =
    any (is_target job_id r.repository_id) targets
    && (leb int64_limit r.bytes_added || leb int64_limit r.bytes_processed)

abbrev pub updated : ℕ → TargetReport → Store → Store
updated job_id r s = record s {
  job_targets = update (is_target job_id r.repository_id) (report_target r) s.job_targets;
}

-- The loop over the reports.
unfoldable pub update_targets : ℕ → List TargetReport → Store → Written (Unit {0})
update_targets job_id [] s = (ok tt, s)
update_targets job_id (r ∷ rs) s =
    let rest = update_targets job_id rs (updated job_id r s) in
    if refused job_id r s.job_targets then (err check_violation, s) else rest

-- The end of the function: the staging error, and the status of the job from its rows.
abbrev pub close_statements : ℕ → Text → ℕ → Store → Written Status
close_statements job_id staging_error now s =
    let targets = fail_unfinished job_id staging_error s.job_targets in
    let status = rollup (target_statuses job_id targets) in
    (
      ok status,
      record s {
        job_targets = targets;
        backup_jobs =
            update (λ (j : BackupJob). j.id == job_id) (close_job status now) s.backup_jobs;
      },
    )

-- The function that `ApplyReport` hands to `inTx`.
unfoldable pub report_statements : Store → ℕ → ℕ → ℕ → List TargetReport → Text → ℕ → Written Status
unfolding update_targets
report_statements s server_id job_id token reports staging_error now =
    if not (any (held_by s server_id job_id token) s.backup_jobs)
    then (err not_found, s)
    else and_then (update_targets job_id reports s)
        λ u t. close_statements job_id staging_error now t

-- What a call that is all or nothing leaves.
abbrev pub settled : {A : Type 0} → Store → Result StoreError (A × Store) → Written A
settled s (err e) = (err e, s)
settled s (ok (a, t)) = (ok a, t)

update_targets-ok :
    (job_id : ℕ) (rs : List TargetReport) (s : Store) (ts : List JobTarget)
    → apply_targets job_id rs s.job_targets ≡ ok ts
    → update_targets job_id rs s ≡ (ok tt, record s { job_targets = ts })
unfolding update_targets apply_targets
update_targets-ok job_id [] s ts h = ground arith
update_targets-ok job_id (r ∷ rs) s ts h = elim (Bool-cases (refused job_id r s.job_targets)) [
  | inl y ↦ absurd (ground (arith, y))
  | inr n ↦ rw n (update_targets-ok job_id rs (updated job_id r s) ts (rw n at h))
]

update_targets-err :
    (job_id : ℕ) (rs : List TargetReport) (s : Store) (e : StoreError)
    → apply_targets job_id rs s.job_targets ≡ err e
    → (update_targets job_id rs s).0 ≡ err e
unfolding update_targets apply_targets
update_targets-err job_id [] s e h = cc
update_targets-err job_id (r ∷ rs) s e h = elim (Bool-cases (refused job_id r s.job_targets)) [
  | inl y ↦ rw y (ground (arith, y))
  | inr n ↦ rw n (update_targets-err job_id rs (updated job_id r s) e (rw n at h))
]

rolled_back :
    {A : Type 0} {B : Type 0} (s : Store) (w : Written A) (next : A → Store → Written B)
    (e : StoreError)
    → w.0 ≡ err e
    → in_tx s (and_then w next) ≡ (err e, s)
unfolding in_tx
rolled_back s (err x, t) next e h = ground arith
rolled_back s (ok a, t) next e h = cc

-- `ApplyReport`, its statements run one by one under `inTx`, is all or nothing: it answers and leaves what
-- `apply_report` gives where that succeeds, and where it fails, at the first statement or after some of the targets
-- were written, it answers the same error and the tables are as they were.
pub in_tx-report_statements :
    (s : Store) (server_id job_id token : ℕ) (reports : List TargetReport) (staging_error : Text)
    (now : ℕ)
    → in_tx s (report_statements s server_id job_id token reports staging_error now)
      ≡ settled s (apply_report s server_id job_id token reports staging_error now)
unfolding in_tx report_statements apply_report
in_tx-report_statements s server_id job_id token reports staging_error now =
    elim (Bool-cases (any (held_by s server_id job_id token) s.backup_jobs)) [
      | inr f ↦ rw f refl
      | inl h ↦ elim (Result-cases (apply_targets job_id reports s.job_targets)) [
        | inl (ts, e) ↦ rw (h, e, update_targets-ok job_id reports s ts e) refl
        | inr (x, e) ↦
            rw (h, e)
              (rolled_back s (update_targets job_id reports s)
                (λ u t. close_statements job_id staging_error now t) x
                (update_targets-err job_id reports s x e))
      ]
    ]
