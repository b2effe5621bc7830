-- ===== src/Store/Exclusive/Backups.antt =====
-- The backup table under each operation of jobs.go and leases.go.
use cprestic.Common.{
  ℕ, ◌+◌, ◌≡◌, refl, true, false, List, [], ◌∷◌, ◌==◌, arith, any, In, In-any, In-filter,
  count_of_any, count-append, count-update_eq, count-update_le, count-update_le_In, unique_row,
  first_by-In, &&_left, some, ok, Text,
}
use cprestic.Job.{Status}
use cprestic.Store.{Store, BackupJob, is_running}
use cprestic.Store.Jobs.{
  ClaimedJob, next_pending, claimable, runs_for, lease_job, new_job, create_job, claim_next_job,
}
use cprestic.Store.Reports.{
  TargetReport, apply_report, held_by, close_job, is_abandoned, requeue_job, reclaim_expired_leases,
}
use cprestic.Store.Leases.{renew_backup_lease, renew_job}
use cprestic.Store.Effects.{
  create_job-inv, claim_next_job-inv, apply_report-inv, renew_backup_lease-inv,
}
use cprestic.Store.Exclusive.{IsExclusive}
use cprestic.Store.Exclusive.Rows.{claim-count}

-- What a claim picks is a pending job of the table, of this server, with nothing running for its
-- account.
pub next_pending-claimable :
    (s : Store) (server_id : ℕ) (j : BackupJob)
    → next_pending s server_id ≡ some j
    → In j s.backup_jobs × (claimable s server_id j ≡ true)
unfolding next_pending
next_pending-claimable s server_id j h =
    In-filter (claimable s server_id) j s.backup_jobs
      (first_by-In (λ (o : BackupJob). o.created_at) j _ h)

pub create_job-IsExclusive :
    (s t : Store) (account_id policy_id job_id now i : ℕ)
    → any (λ (j : BackupJob). j.id == job_id) s.backup_jobs ≡ false
    → create_job s account_id policy_id job_id now ≡ ok (i, t)
    → IsExclusive s
    → IsExclusive t
create_job-IsExclusive s t account_id policy_id job_id now i fresh h v =
    let (_, _, _, e) = create_job-inv s t account_id policy_id job_id now i h in
    rw e (record {
      job_ids = λ x. ground (
        arith,
        v.job_ids x,
        count-append (λ (j : BackupJob). j.id == x) s.backup_jobs
            (new_job job_id account_id policy_id now ∷ []),
        count_of_any (λ (j : BackupJob). j.id == job_id) s.backup_jobs fresh,
      );
      one_backup = λ a. ground (
        arith,
        v.one_backup a,
        count-append (runs_for a) s.backup_jobs (new_job job_id account_id policy_id now ∷ []),
      );
      restore_ids = v.restore_ids;
      one_restore = v.one_restore;
    })

pub claim_next_job-IsExclusive :
    (s t : Store) (server_id lease token now : ℕ) (c : ClaimedJob)
    → claim_next_job s server_id lease token now ≡ ok (c, t)
    → IsExclusive s
    → IsExclusive t
claim_next_job-IsExclusive s t server_id lease token now c h v =
    let (_, job, _, _, picked, e, _, _, _, _) =
      claim_next_job-inv s t server_id lease token now c h in
    let (m, ok_job) = next_pending-claimable s server_id job picked in
    rw e (record {
      job_ids = λ x.
          rw
            (count-update_eq (λ (j : BackupJob). j.id == x) (λ (j : BackupJob). j.id == job.id)
              (lease_job now lease token) (λ j. refl) s.backup_jobs)
            (v.job_ids x);
      one_backup = λ a.
          claim-count (λ (j : BackupJob). j.id) (λ j. j.account_id) (λ j. is_running j.status)
            (lease_job now lease token) (λ j. refl) s.backup_jobs job a m (v.job_ids job.id)
            (count_of_any (runs_for job.account_id) s.backup_jobs (ground arith)) (v.one_backup a);
      restore_ids = v.restore_ids;
      one_restore = v.one_restore;
    })

pub renew_backup_lease-IsExclusive :
    (s t : Store) (server_id job_id token lease now expires : ℕ)
    → renew_backup_lease s server_id job_id token lease now ≡ ok (expires, t)
    → IsExclusive s
    → IsExclusive t
renew_backup_lease-IsExclusive s t server_id job_id token lease now expires h v =
    let (_, _, e) = renew_backup_lease-inv s t server_id job_id token lease now expires h in
    rw e (record {
      job_ids = λ x.
          rw
            (count-update_eq (λ (j : BackupJob). j.id == x) (held_by s server_id job_id token)
              (renew_job (now + lease)) (λ j. refl) s.backup_jobs)
            (v.job_ids x);
      one_backup = λ a.
          rw
            (count-update_eq (runs_for a) (held_by s server_id job_id token)
              (renew_job (now + lease)) (λ j. refl) s.backup_jobs)
            (v.one_backup a);
      restore_ids = v.restore_ids;
      one_restore = v.one_restore;
    })

-- The one row with the reported id is running already.
reported-running :
    (s : Store) (server_id job_id token : ℕ) (j : BackupJob)
    → IsExclusive s
    → any (held_by s server_id job_id token) s.backup_jobs ≡ true
    → In j s.backup_jobs
    → (j.id == job_id) ≡ true
    → is_running j.status ≡ true
reported-running s server_id job_id token j v h m key =
    let (held, n, t) = In-any (held_by s server_id job_id token) s.backup_jobs h in
    let same : held ≡ j =
      unique_row (λ (o : BackupJob). o.id == job_id) held j s.backup_jobs (v.job_ids job_id) n m
        (&&_left _ _ t) key in
    rw (← same) (ground arith)

pub apply_report-IsExclusive :
    (s t : Store) (server_id job_id token : ℕ) (reports : List TargetReport) (staging_error : Text)
    (now : ℕ) (status : Status)
    → apply_report s server_id job_id token reports staging_error now ≡ ok (status, t)
    → IsExclusive s
    → IsExclusive t
apply_report-IsExclusive s t server_id job_id token reports staging_error now status h v =
    let (_, held, _, _, e) =
      apply_report-inv s t server_id job_id token reports staging_error now status h in
    rw e (record {
      job_ids = λ x.
          rw
            (count-update_eq (λ (j : BackupJob). j.id == x) (λ (j : BackupJob). j.id == job_id)
              (close_job status now) (λ j. refl) s.backup_jobs)
            (v.job_ids x);
      one_backup = λ a. omega (
        arith,
        v.one_backup a,
        count-update_le_In (runs_for a) (λ (j : BackupJob). j.id == job_id) (close_job status now)
            s.backup_jobs
            (λ j m key p. ground (arith, reported-running s server_id job_id token j v held m key)),
      );
      restore_ids = v.restore_ids;
      one_restore = v.one_restore;
    })

pub reclaim_expired_leases-IsExclusive :
    (s : Store) (now : ℕ) → IsExclusive s → IsExclusive (reclaim_expired_leases s now).1
unfolding reclaim_expired_leases
reclaim_expired_leases-IsExclusive s now v = record {
  job_ids = λ x.
      rw
        (count-update_eq (λ (j : BackupJob). j.id == x) (is_abandoned now) requeue_job (λ j. refl)
          s.backup_jobs)
        (v.job_ids x);
  one_backup = λ a. omega (
    arith,
    v.one_backup a,
    count-update_le (runs_for a) (is_abandoned now) requeue_job (λ j q p. ground arith)
        s.backup_jobs,
  );
  restore_ids = v.restore_ids;
  one_restore = v.one_restore;
}
