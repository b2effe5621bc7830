-- ===== src/Store/Outcome.antt =====
-- What a report may change, and what the job is then said to be (ApplyReport).
use cprestic.Common.{
  ℕ, ◌≡◌, refl, ◌∙◌, subst, inl, inr, Bool, true, false, not, filter, ◌&&◌, List, [], ◌∷◌, ◌==◌,
  arith, ok, none, some, Text, update, In, In-update_cases, Bool-cases, if◌then◌else◌,
}
use cprestic.Job.{Status, terminal}
use cprestic.Job.Rollup.{reference, rollup-eq-reference}
use cprestic.Store.{Store, BackupJob, JobTarget}
use cprestic.Store.Reports.{
  TargetReport, apply_report, apply_targets, fail_unfinished, target_statuses, close_job, is_target,
  report_target, unfinished,
}
use cprestic.Store.Effects.{apply_report-inv}

-- The rows of the tables that are not one job's.
abbrev pub of_other : ℕ → JobTarget → Bool
of_other job_id t = not (t.job_id == job_id)

abbrev pub is_other : ℕ → BackupJob → Bool
is_other job_id j = not (j.id == job_id)

-- An update of rows that fail a test, which they go on failing, leaves the rows that pass it as they are.
filter-update :
    {A : Type 0} (p q : A → Bool) (f : A → A)
    → ((a : A) → q a ≡ true → (p a ≡ false) × (p (f a) ≡ false))
    → (xs : List A) → filter p (update q f xs) ≡ filter p xs
filter-update p q f h [] = refl
filter-update p q f h (x ∷ xs) = elim (Bool-cases (q x)) [
  | inl t ↦ let (a, b) = h x t in ground (arith, t, a, b, filter-update p q f h xs)
  | inr n ↦ rw n (ground (arith, filter-update p q f h xs))
]

others-apply_targets :
    (job_id : ℕ) (reports : List TargetReport) (ts us : List JobTarget)
    → apply_targets job_id reports ts ≡ ok us
    → filter (of_other job_id) us ≡ filter (of_other job_id) ts
unfolding apply_targets
others-apply_targets job_id [] ts us h = ground arith
others-apply_targets job_id (r ∷ rs) ts us h =
    others-apply_targets job_id rs _ us (ground arith)
    ∙ filter-update (of_other job_id) (is_target job_id r.repository_id) (report_target r)
        (λ t q. (ground arith, ground arith)) ts

others-fail_unfinished :
    (job_id : ℕ) (message : Text) (ts : List JobTarget)
    → filter (of_other job_id) (fail_unfinished job_id message ts) ≡ filter (of_other job_id) ts
others-fail_unfinished job_id [] ts = refl
others-fail_unfinished job_id (c ∷ m) ts =
    filter-update (of_other job_id) (λ (r : JobTarget). r.job_id == job_id && unfinished r.status) _
      (λ t q. (ground arith, ground arith)) ts

-- A report on one job changes no table but the jobs and their targets, and there it leaves every row of the other
-- jobs as it was, in its order: their status, lease and token, and what was recorded of their targets.
pub apply_report-other_jobs :
    (s t : Store) (server_id job_id token : ℕ) (reports : List TargetReport) (staging_error : Text)
    (now : ℕ) (status : Status)
    → apply_report s server_id job_id token reports staging_error now ≡ ok (status, t)
    → (t ≡ record s { backup_jobs = t.backup_jobs; job_targets = t.job_targets })
      × (filter (is_other job_id) t.backup_jobs ≡ filter (is_other job_id) s.backup_jobs)
      × (filter (of_other job_id) t.job_targets ≡ filter (of_other job_id) s.job_targets)
apply_report-other_jobs s t server_id job_id token reports staging_error now status h =
    let (reported, _, done, _, e) =
      apply_report-inv s t server_id job_id token reports staging_error now status h in
    rw e (
      refl,
      filter-update (is_other job_id) (λ (j : BackupJob). j.id == job_id) (close_job status now)
          (λ j q. (ground arith, ground arith)) s.backup_jobs,
      others-fail_unfinished job_id staging_error reported
          ∙ others-apply_targets job_id reports s.job_targets reported done,
    )

closed :
    (status : Status) (now job_id : ℕ) (a j : BackupJob)
    → (if a.id == job_id then close_job status now a else a) ≡ j
    → j.id ≡ job_id
    → (j.status ≡ status)
      × (j.lease_expires_at ≡ none)
      × (j.claim_token ≡ none)
      × (terminal status ≡ true → j.finished_at ≡ some now)
closed status now job_id a j e id = elim (Bool-cases (a.id == job_id)) [
  | inl hit ↦ (ground arith, ground arith, ground arith, λ t. ground arith)
  | inr miss ↦ absurd (ground arith)
]

-- The status of a reported job is the one that its recorded targets give, whatever the agent thinks
-- of it: it is returned and stored, with the lease and the token cleared, and with the time of the
-- report if it is final.
pub apply_report-reference :
    (s t : Store) (server_id job_id token : ℕ) (reports : List TargetReport) (staging_error : Text)
    (now : ℕ) (status : Status)
    → apply_report s server_id job_id token reports staging_error now ≡ ok (status, t)
    → (status ≡ reference (target_statuses job_id t.job_targets))
      × ((j : BackupJob)
          → In j t.backup_jobs
          → j.id ≡ job_id
          → (j.status ≡ status)
            × (j.lease_expires_at ≡ none)
            × (j.claim_token ≡ none)
            × (terminal status ≡ true → j.finished_at ≡ some now))
apply_report-reference s t server_id job_id token reports staging_error now status h =
    let (reported, _, _, st, e) =
      apply_report-inv s t server_id job_id token reports staging_error now status h in
    (
      rw e (st ∙ rollup-eq-reference _),
      λ j m id.
          let (a, _, p) =
            In-update_cases (λ (i : BackupJob). i.id == job_id) (close_job status now) j
              s.backup_jobs (subst (λ (w : Store). In j w.backup_jobs) e m) in
          closed status now job_id a j p id,
    )
