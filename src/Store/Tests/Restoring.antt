-- ===== src/Store/Tests/Restoring.antt =====
-- A restore into the live account of a user, queued and claimed.
use cprestic.Common.{
  ℕ, ◌≡◌, refl, ◌≢◌, true, false, [], none, text, text_eq, arith, ok, err, In, any,
}
use cprestic.Job.{Status}
use cprestic.Store.{Store, BackupJob, RestoreJob, not_found}
use cprestic.Store.Jobs.{
  ClaimedTarget, ClaimedJob, runs_for, create_job, claim_next_job, running_on, next_pending,
  claim_targets,
}
use cprestic.Store.Leases.{renew_restore_lease}
use cprestic.Store.Restores.{
  RestoreRequest, create_restore, claim_next_restore, ClaimedRestore, RestoreOutcome,
  apply_restore_report, restores_for, restore_source, next_pending_restore, claim_source,
}
use cprestic.Store.Exclusive.History.{History, here, next, creates_restore, claims_restore}
use cprestic.Store.Claims.{claim_next_restore-idle, claim_next_job-claim_next_restore}
use cprestic.Store.Tokens.{claim_next_restore-refuses_old}
use cprestic.Store.ApplyOnce.{AppliesOnce, History-AppliesOnce}
use cprestic.Store.Tests.{empty_queue, empty_queue-IsExclusive, given, account, no_claim}

abbrev request : RestoreRequest
request = record {
  account_id = 11;
  repository_id = none;
  snapshot_id = text "0123456789abcdef";
  kind = [];
  include_paths = [];
  target_dir = [];
  apply = true;
}

abbrev wanted : Store
unfolding create_restore
wanted = (given (0, empty_queue) (create_restore empty_queue request 200 1500)).1

abbrev no_source : ClaimedTarget
no_source = record {
  repository_id = 0;
  repository_path = [];
  destination_type = [];
  destination_config = [];
  credentials_sealed = [];
  repo_password_sealed = [];
  attempt = 0;
}

abbrev no_restore : ClaimedRestore
no_restore = record {
  job_id = 0;
  claim_token = 0;
  lease_expires_at = 0;
  account = account 0;
  snapshot_id = [];
  kind = [];
  include_paths = [];
  target_dir = none;
  apply = false;
  source = no_source;
}

abbrev handed : ClaimedRestore × Store
unfolding claim_next_restore
handed = given (no_restore, empty_queue) (claim_next_restore wanted 1 600 88 2000)

accepted : create_restore empty_queue request 200 1500 ≡ ok (200, wanted)
unfolding create_restore wanted restore_source text_eq
accepted = refl

handed_out : claim_next_restore wanted 1 600 88 2000 ≡ ok handed
unfolding claim_next_restore handed wanted create_restore restore_source next_pending_restore
    claim_source text_eq
handed_out = refl

until_handed : History empty_queue handed.1
until_handed =
    next (next here (creates_restore request 200 1500 200 refl accepted))
      (claims_restore 1 600 88 2000 handed.0 handed_out)

claim_next_restore-idle_example :
    (r : RestoreJob) × In r wanted.restore_jobs
    × (handed.0.job_id ≡ r.id)
    × (r.status ≡ Status.pending)
    × (any (runs_for r.account_id) wanted.backup_jobs ≡ false)
    × (any (restores_for r.account_id) wanted.restore_jobs ≡ false)
claim_next_restore-idle_example =
    claim_next_restore-idle wanted handed.1 1 600 88 2000 handed.0 handed_out

abbrev done : RestoreOutcome
done = record {
  status = Status.success;
  bytes_restored = 12;
  archive_path = [];
  error = [];
  detail = [];
  applied = true;
}

other_token : ◌≢◌ {A = ℕ} 87 88
other_token e = omega (arith, e)

claim_next_restore-refuses_old_example :
    (apply_restore_report handed.1 1 handed.0.job_id 87 done 2100 ≡ err not_found)
    × (renew_restore_lease handed.1 1 handed.0.job_id 87 600 2100 ≡ err not_found)
claim_next_restore-refuses_old_example =
    claim_next_restore-refuses_old wanted handed.1 1 600 88 2000 handed.0 handed_out 1 87
      other_token done 600 2100

History-AppliesOnce_example : AppliesOnce handed.1.restore_jobs
History-AppliesOnce_example =
    History-AppliesOnce until_handed empty_queue-IsExclusive (λ r m. absurd m)

-- A backup and a restore of the same account, both waiting.
abbrev contended : Store
unfolding create_job
contended = (given (0, empty_queue) (create_job wanted 11 5 100 1600)).1

abbrev restoring : ClaimedRestore × Store
unfolding claim_next_restore
restoring = given (no_restore, empty_queue) (claim_next_restore contended 1 600 88 2000)

restore_claimed : claim_next_restore contended 1 600 88 2000 ≡ ok restoring
unfolding claim_next_restore restoring contended create_job wanted create_restore restore_source
    next_pending_restore claim_source text_eq
restore_claimed = refl

abbrev backing_up : ClaimedJob × Store
unfolding claim_next_job
backing_up = given (no_claim, empty_queue) (claim_next_job contended 1 600 77 2000)

backup_claimed : claim_next_job contended 1 600 77 2000 ≡ ok backing_up
unfolding claim_next_job running_on backing_up contended create_job wanted create_restore
    restore_source text_eq next_pending claim_targets
backup_claimed = refl

claim_next_job-claim_next_restore_example :
    (v : Store) × (claim_next_job restoring.1 1 600 77 2000 ≡ ok (backing_up.0, v))
    × ((r : RestoreJob) × In r contended.restore_jobs
        × (restoring.0.job_id ≡ r.id)
        × (any (restores_for r.account_id) v.restore_jobs ≡ true))
    × ((job : BackupJob) × In job contended.backup_jobs
        × (backing_up.0.job_id ≡ job.id)
        × (any (runs_for job.account_id) v.backup_jobs ≡ true))
claim_next_job-claim_next_restore_example =
    claim_next_job-claim_next_restore contended restoring.1 backing_up.1 1 600 88 77 2000
      restoring.0 backing_up.0 restore_claimed backup_claimed
