-- ===== src/Store/Orphan.antt =====
-- A report that leaves a target unfinished (ApplyReport), and the calls after it.
use cprestic.Common.{
  ℕ, ◌≡◌, refl, subst, inl, inr, true, false, List, none, ◌==◌, arith, ok, any, In, In-any,
  In-update, In-update_skip, In-append_left, unique_row, any_of_In, Bool-cases, Text, eq_of_==,
  ==_refl, &&_left, [], ◌∷◌,
}
use cprestic.Job.{Status}
use cprestic.Store.{Store, BackupJob, RestoreJob, is_running}
use cprestic.Store.Jobs.{claimable, runs_for, lease_job, new_job}
use cprestic.Store.Reports.{
  TargetReport, apply_report, held_by, close_job, is_abandoned, requeue_job, reclaim_expired_leases,
}
use cprestic.Store.Leases.{renew_job}
use cprestic.Store.Restores.{restore_claimable, reclaim_expired_restore_leases}
use cprestic.Store.Effects.{
  set_policy_last_run-inv, create_job-inv, claim_next_job-inv, apply_report-inv,
  renew_backup_lease-inv, create_restore-inv, claim_next_restore-inv, renew_restore_lease-inv,
  apply_restore_report-inv,
}
use cprestic.Store.Exclusive.{IsExclusive}
use cprestic.Store.Exclusive.Backups.{next_pending-claimable, apply_report-IsExclusive}
use cprestic.Store.Exclusive.History.{
  Step, creates, claims, renews, reports, reclaims, creates_restore, claims_restore, renews_restore,
  reports_restore, reclaims_restores, schedules, History, here, next, History-IsExclusive,
}

-- A running job that no attempt holds and that has no lease to run out.
pub record IsOrphan (j : BackupJob) : Type 0 where
  pub runs : is_running j.status ≡ true
  pub no_lease : j.lease_expires_at ≡ none
  pub no_token : j.claim_token ≡ none

claimed_is_other :
    (s : Store) (server_id : ℕ) (j job : BackupJob)
    → IsExclusive s
    → In j s.backup_jobs
    → In job s.backup_jobs
    → IsOrphan j
    → claimable s server_id job ≡ true
    → (j.id == job.id) ≡ false
claimed_is_other s server_id j job v m n o fits = elim (Bool-cases (j.id == job.id)) [
  | inl same ↦
      let e : j ≡ job =
        unique_row (λ (i : BackupJob). i.id == job.id) j job s.backup_jobs (v.job_ids job.id) m n
          same (==_refl job.id) in
      let r : is_running job.status ≡ true =
        subst (λ (i : BackupJob). is_running i.status ≡ true) e o.runs in
      absurd (ground arith)
  | inr other ↦ other
]

reported_is_other :
    (s : Store) (server_id job_id token : ℕ) (j : BackupJob)
    → IsExclusive s
    → In j s.backup_jobs
    → IsOrphan j
    → any (held_by s server_id job_id token) s.backup_jobs ≡ true
    → (j.id == job_id) ≡ false
reported_is_other s server_id job_id token j v m o h = elim (Bool-cases (j.id == job_id)) [
  | inl same ↦
      let (held, n, t) = In-any (held_by s server_id job_id token) s.backup_jobs h in
      let e : held ≡ j =
        unique_row (λ (i : BackupJob). i.id == job_id) held j s.backup_jobs (v.job_ids job_id) n m
          (&&_left _ _ t) same in
      let k : held_by s server_id job_id token j ≡ true =
        subst (λ (i : BackupJob). held_by s server_id job_id token i ≡ true) e t in
      absurd (ground arith)
  | inr other ↦ other
]

-- No call of the queue touches an orphan.
Step-orphan :
    {s t : Store} (j : BackupJob)
    → Step s t
    → IsExclusive s
    → IsOrphan j
    → In j s.backup_jobs
    → In j t.backup_jobs
unfolding reclaim_expired_leases reclaim_expired_restore_leases
Step-orphan {s} {t} j (creates a p x n i f h) v o m =
    let (_, _, _, e) = create_job-inv s t a p x n i h in
    rw e (In-append_left j s.backup_jobs (new_job x a p n ∷ []) m)
Step-orphan {s} {t} j (claims sv l k n c h) v o m =
    let (_, job, _, _, picked, e, _, _, _, _) = claim_next_job-inv s t sv l k n c h in
    let (at, fits) = next_pending-claimable s sv job picked in
    rw e (
      In-update_skip (λ (i : BackupJob). i.id == job.id) (lease_job n l k) j s.backup_jobs
        (claimed_is_other s sv j job v m at o fits) m)
Step-orphan {s} {t} j (renews sv x k l n y h) v o m =
    let (_, _, e) = renew_backup_lease-inv s t sv x k l n y h in
    rw e (
      In-update_skip (held_by s sv x k) (renew_job _) j s.backup_jobs (ground (arith, o.no_token))
        m)
Step-orphan {s} {t} j (reports sv x k os er n st h) v o m =
    let (_, held, _, _, e) = apply_report-inv s t sv x k os er n st h in
    rw e (
      In-update_skip (λ (i : BackupJob). i.id == x) (close_job st n) j s.backup_jobs
        (reported_is_other s sv x k j v m o held) m)
Step-orphan {s} {t} j (reclaims n e) v o m =
    rw e
      (In-update_skip (is_abandoned n) requeue_job j s.backup_jobs (ground (arith, o.no_lease)) m)
Step-orphan {s} {t} j (creates_restore q x n i f h) v o m =
    let (_, _, _, e) = create_restore-inv s t q x n i h in rw e m
Step-orphan {s} {t} j (claims_restore sv l k n c h) v o m =
    let (_, _, e, _, _) = claim_next_restore-inv s t sv l k n c h in rw e m
Step-orphan {s} {t} j (renews_restore sv x k l n y h) v o m =
    let (_, _, e) = renew_restore_lease-inv s t sv x k l n y h in rw e m
Step-orphan {s} {t} j (reports_restore sv x k out n f h) v o m =
    let (_, e) = apply_restore_report-inv s t sv x k out n h in rw e m
Step-orphan {s} {t} j (reclaims_restores n e) v o m = rw e m
Step-orphan {s} {t} j (schedules p at h) v o m =
    let (_, b, _, _) = set_policy_last_run-inv s t p at h in rw b m

pub History-orphan :
    {s t : Store} (j : BackupJob)
    → History s t
    → IsExclusive s
    → IsOrphan j
    → In j s.backup_jobs
    → In j t.backup_jobs
History-orphan j here v o m = m
History-orphan j (next r st) v o m =
    Step-orphan j st (History-IsExclusive r v) o (History-orphan j r v o m)

closed_running :
    (s t : Store) (server_id job_id token : ℕ) (outcomes : List TargetReport) (staging_error : Text)
    (now : ℕ)
    → apply_report s server_id job_id token outcomes staging_error now ≡ ok (Status.running, t)
    → (j : BackupJob) × In j t.backup_jobs × (j.id ≡ job_id) × IsOrphan j
closed_running s t server_id job_id token outcomes staging_error now h =
    let (_, held, _, _, e) =
      apply_report-inv s t server_id job_id token outcomes staging_error now Status.running h in
    let (row, m, f) = In-any (held_by s server_id job_id token) s.backup_jobs held in
    let key : (row.id == job_id) ≡ true = &&_left _ _ f in
    (
      close_job Status.running now row,
      rw e (
          rw key at (
            In-update (λ (i : BackupJob). i.id == job_id) (close_job Status.running now) row
              s.backup_jobs m)),
      eq_of_== row.id job_id key,
      record { runs = refl; no_lease = refl; no_token = refl },
    )

-- If a report on an exclusive queue rolls a job up to `running`, then whatever calls follow, the job is
-- running without lease and token, and no backup and no restore of its account can be claimed.
pub apply_report-orphans :
    (s t u : Store) (server_id job_id token : ℕ) (outcomes : List TargetReport)
    (staging_error : Text) (now : ℕ)
    → IsExclusive s
    → apply_report s server_id job_id token outcomes staging_error now ≡ ok (Status.running, t)
    → History t u
    → (j : BackupJob) × In j u.backup_jobs
      × (j.id ≡ job_id)
      × IsOrphan j
      × ((sv : ℕ) (i : BackupJob) → i.account_id ≡ j.account_id → claimable u sv i ≡ false)
      × ((sv : ℕ) (r : RestoreJob) → r.account_id ≡ j.account_id → restore_claimable u sv r ≡ false)
apply_report-orphans s t u server_id job_id token outcomes staging_error now v h later =
    let (j, m, id, o) = closed_running s t server_id job_id token outcomes staging_error now h in
    let w : IsExclusive t =
      apply_report-IsExclusive s t server_id job_id token outcomes staging_error now Status.running
        h v in
    let n : In j u.backup_jobs = History-orphan j later w o m in
    let busy : any (runs_for j.account_id) u.backup_jobs ≡ true =
      any_of_In (runs_for j.account_id) j u.backup_jobs n
        (ground (arith, o.runs, ==_refl j.account_id)) in
    (j, n, id, o, λ sv i e. rw e (ground (arith, busy)), λ sv r e. rw e (ground (arith, busy)))
