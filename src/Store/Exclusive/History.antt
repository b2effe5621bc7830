-- ===== src/Store/Exclusive/History.antt =====
-- Any history of the queue: every call that an agent, the scheduler or an operator makes, in any order.
use cprestic.Common.{ℕ, ◌≡◌, Bool, true, false, ◌==◌, any, List, Text, ok}
use cprestic.Job.{Status}
use cprestic.Store.{Store, BackupJob, RestoreJob}
use cprestic.Store.Jobs.{ClaimedJob, create_job, claim_next_job}
use cprestic.Store.Reports.{TargetReport, apply_report, reclaim_expired_leases}
use cprestic.Store.Leases.{renew_backup_lease, renew_restore_lease}
use cprestic.Store.Restores.{
  RestoreRequest, ClaimedRestore, RestoreOutcome, create_restore, claim_next_restore,
  apply_restore_report, reclaim_expired_restore_leases,
}
use cprestic.Store.Policies.{set_policy_last_run}
use cprestic.Store.Effects.{set_policy_last_run-inv}
use cprestic.Store.Exclusive.{IsExclusive, IsExclusive-same}
use cprestic.Store.Exclusive.Backups.{
  create_job-IsExclusive, claim_next_job-IsExclusive, renew_backup_lease-IsExclusive,
  apply_report-IsExclusive, reclaim_expired_leases-IsExclusive,
}
use cprestic.Store.Exclusive.Restores.{
  create_restore-IsExclusive, claim_next_restore-IsExclusive, renew_restore_lease-IsExclusive,
  apply_restore_report-IsExclusive, reclaim_expired_restore_leases-IsExclusive,
}

-- The statuses that `ReportRestore` of internal/controller/service.go lets through.
abbrev pub is_outcome : Status → Bool
is_outcome Status.success = true
is_outcome Status.failed = true
is_outcome _ = false

-- One successful call. A call that fails is rolled back and changes nothing. The uuids that
-- `gen_random_uuid()` makes for new rows are new.
pub data Step (s t : Store) : Type 0 where
  creates :
      (account_id policy_id job_id now i : ℕ)
      → any (λ (j : BackupJob). j.id == job_id) s.backup_jobs ≡ false
      → create_job s account_id policy_id job_id now ≡ ok (i, t)
      → Step s t
  claims :
      (server_id lease token now : ℕ) (c : ClaimedJob)
      → claim_next_job s server_id lease token now ≡ ok (c, t)
      → Step s t
  renews :
      (server_id job_id token lease now expires : ℕ)
      → renew_backup_lease s server_id job_id token lease now ≡ ok (expires, t)
      → Step s t
  reports :
      (server_id job_id token : ℕ) (outcomes : List TargetReport) (staging_error : Text) (now : ℕ)
      (status : Status)
      → apply_report s server_id job_id token outcomes staging_error now ≡ ok (status, t)
      → Step s t
  reclaims : (now : ℕ) → t ≡ (reclaim_expired_leases s now).1 → Step s t
  creates_restore :
      (req : RestoreRequest) (job_id now i : ℕ)
      → any (λ (r : RestoreJob). r.id == job_id) s.restore_jobs ≡ false
      → create_restore s req job_id now ≡ ok (i, t)
      → Step s t
  claims_restore :
      (server_id lease token now : ℕ) (c : ClaimedRestore)
      → claim_next_restore s server_id lease token now ≡ ok (c, t)
      → Step s t
  renews_restore :
      (server_id job_id token lease now expires : ℕ)
      → renew_restore_lease s server_id job_id token lease now ≡ ok (expires, t)
      → Step s t
  reports_restore :
      (server_id job_id token : ℕ) (outcome : RestoreOutcome) (now : ℕ)
      → is_outcome outcome.status ≡ true
      → apply_restore_report s server_id job_id token outcome now ≡ ok t
      → Step s t
  reclaims_restores : (now : ℕ) → t ≡ (reclaim_expired_restore_leases s now).1 → Step s t
  schedules : (policy_id at : ℕ) → set_policy_last_run s policy_id at ≡ ok t → Step s t

pub data History (s : Store) : Store → Type 0 where
  here : History s s
  next : {t u : Store} → History s t → Step t u → History s u

pub Step-IsExclusive : {s t : Store} → Step s t → IsExclusive s → IsExclusive t
Step-IsExclusive {s} {t} (creates a p j n i f h) v = create_job-IsExclusive s t a p j n i f h v
Step-IsExclusive {s} {t} (claims sv l k n c h) v = claim_next_job-IsExclusive s t sv l k n c h v
Step-IsExclusive {s} {t} (renews sv j k l n x h) v =
    renew_backup_lease-IsExclusive s t sv j k l n x h v
Step-IsExclusive {s} {t} (reports sv j k o e n st h) v =
    apply_report-IsExclusive s t sv j k o e n st h v
Step-IsExclusive {s} {t} (reclaims n e) v = rw e (reclaim_expired_leases-IsExclusive s n v)
Step-IsExclusive {s} {t} (creates_restore q j n i f h) v =
    create_restore-IsExclusive s t q j n i f h v
Step-IsExclusive {s} {t} (claims_restore sv l k n c h) v =
    claim_next_restore-IsExclusive s t sv l k n c h v
Step-IsExclusive {s} {t} (renews_restore sv j k l n x h) v =
    renew_restore_lease-IsExclusive s t sv j k l n x h v
Step-IsExclusive {s} {t} (reports_restore sv j k o n f h) v =
    apply_restore_report-IsExclusive s t sv j k o n h v
Step-IsExclusive {s} {t} (reclaims_restores n e) v =
    rw e (reclaim_expired_restore_leases-IsExclusive s n v)
Step-IsExclusive {s} {t} (schedules p at h) v =
    let (_, b, _, r) = set_policy_last_run-inv s t p at h in IsExclusive-same s t b r v

-- Whatever calls were made, in whatever order, the keys of the two tables stay unique and no account
-- has two running backups or two running restores, if that held at the start.
pub History-IsExclusive : {s t : Store} → History s t → IsExclusive s → IsExclusive t
History-IsExclusive here v = v
History-IsExclusive (next r st) v = Step-IsExclusive st (History-IsExclusive r v)
