-- ===== src/Store/Tests.antt =====
-- Runs of the queue on a small database: one server, two accounts, one policy with one repository.
mod Restoring
use mathlib.Core.Option
use cprestic.Common.{
  ℕ, ◌≡◌, refl, ◌≢◌, ◌⊎◌, inl, inr, Bool, true, false, List, [], ◌∷◌, map, Option, none, some, Text,
  text, arith, Result, ok, err, In, any, filter, find, ◌==◌, ◌≤◌,
}
use cprestic.Job.{Status, TargetStatus, rollup, terminal}
use cprestic.Job.Rollup.{reference}
use cprestic.Store.{
  Store, StoreError, Server, Account, Destination, Repository, Retention, Policy, Secret,
  PolicyRepository, AccountPolicy, BackupJob, JobTarget, RestoreJob, not_found, check_violation,
}
use cprestic.Store.Jobs.{
  create_job, claim_next_job, ClaimedJob, claimable, running_on, next_pending, claim_targets,
  on_server, runs_for,
}
use cprestic.Store.Reports.{int64_limit, TargetReport, apply_report, apply_targets, target_statuses}
use cprestic.Store.Transaction.{in_tx, report_statements, settled, in_tx-report_statements}
use cprestic.Store.Leases.{renew_backup_lease, renew_restore_lease}
use cprestic.Store.Restores.{
  RestoreRequest, create_restore, claim_next_restore, ClaimedRestore, RestoreOutcome,
  apply_restore_report, restore_claimable,
}
use cprestic.Store.Exclusive.{IsExclusive}
use cprestic.Store.Exclusive.History.{
  History, here, next, creates, claims, reports, creates_restore, claims_restore,
  History-IsExclusive,
}
use cprestic.Store.Claims.{
  running_on-claim_next_job, claim_next_job-oldest, claim_next_restore-idle,
}
use cprestic.Store.Tokens.{claim_next_job-refuses_old, claim_next_restore-refuses_old}
use cprestic.Store.Orphan.{IsOrphan, apply_report-orphans}
use cprestic.Store.ApplyOnce.{AppliesOnce, History-AppliesOnce}
use cprestic.Store.Outcome.{is_other, of_other, apply_report-other_jobs, apply_report-reference}

abbrev server : Server
server = record { id = 1; max_concurrency = 2 }

abbrev account : ℕ → Account
account i = record {
  id = i;
  server_id = 1;
  cpanel_user = text "user";
  primary_domain = text "example.org";
  size_estimate = 10;
  active = true;
}

abbrev policy : Policy
policy = record {
  id = 5;
  name = text "nightly";
  schedule_cron = text "0 2 * * *";
  payload_mode = text "full";
  retention = record {
    keep_last = 1;
    keep_daily = 7;
    keep_weekly = 0;
    keep_monthly = 0;
    keep_yearly = 0;
  };
  compression = text "auto";
  limit_upload_kib = 0;
  last_run_at = none;
}

abbrev empty_queue : Store
empty_queue = record {
  servers = server ∷ [];
  accounts = account 10 ∷ account 11 ∷ [];
  destinations =
      record {
        id = 20;
        name = text "nas";
        type = text "sftp";
        config = [];
        credentials_secret_id = none;
      }
      ∷ [];
  repositories =
      record {
        id = 30;
        destination_id = 20;
        server_id = 1;
        path = text "/r";
        password_secret_id = 40;
        initialised_at = some 1;
      }
      ∷ [];
  policies = policy ∷ [];
  secrets = record { id = 40; ciphertext = text "sealed" } ∷ [];
  policy_repositories = record { policy_id = 5; repository_id = 30 } ∷ [];
  account_policies = [];
  backup_jobs = [];
  job_targets = [];
  restore_jobs = [];
  collation = λ a b. false;
}

-- What a call gave, with a value for the case that it failed.
abbrev given : {A : Type 0} → A × Store → Result StoreError (A × Store) → A × Store
given d (ok x) = x
given d (err e) = d

abbrev no_claim : ClaimedJob
no_claim = record {
  job_id = 0;
  claim_token = 0;
  lease_expires_at = 0;
  account = account 0;
  policy = policy;
  targets = [];
}

abbrev queued : Store
unfolding create_job
queued = (given (0, empty_queue) (create_job empty_queue 10 5 100 1000)).1

abbrev claim : ClaimedJob × Store
unfolding claim_next_job
claim = given (no_claim, empty_queue) (claim_next_job queued 1 600 77 2000)

claimed : claim_next_job queued 1 600 77 2000 ≡ ok claim
unfolding claim_next_job running_on queued claim next_pending claim_targets
claimed = refl

-- A report that names no target: the pending one stays so.
abbrev reported : Status × Store
unfolding apply_report
reported = given (Status.pending, empty_queue) (apply_report claim.1 1 100 77 [] [] 2100)

left_open : apply_report claim.1 1 100 77 [] [] 2100 ≡ ok (Status.running, reported.1)
unfolding apply_report target_statuses reported claim queued next_pending claim_targets
    apply_targets rollup running_on claim_next_job
left_open = refl

abbrev good : TargetReport
good = record {
  repository_id = 30;
  status = TargetStatus.success;
  snapshot_id = text "0123456789abcdef";
  bytes_added = 5;
  bytes_processed = 9;
  duration_secs = 3;
  incomplete = false;
  error = [];
}

abbrev finished : Status × Store
unfolding apply_report
finished = given (Status.pending, empty_queue) (apply_report claim.1 1 100 77 (good ∷ []) [] 2100)

succeeded : apply_report claim.1 1 100 77 (good ∷ []) [] 2100 ≡ ok (Status.success, finished.1)
unfolding apply_report target_statuses finished claim queued next_pending claim_targets
    apply_targets rollup running_on claim_next_job
succeeded = refl

empty_queue-IsExclusive : IsExclusive empty_queue
empty_queue-IsExclusive = record {
  job_ids = λ x. omega arith;
  one_backup = λ a. omega arith;
  restore_ids = λ x. omega arith;
  one_restore = λ a. omega arith;
}

queued_up : create_job empty_queue 10 5 100 1000 ≡ ok (100, queued)
unfolding create_job queued
queued_up = refl

until_queued : History empty_queue queued
until_queued = next here (creates 10 5 100 1000 100 refl queued_up)

until_claimed : History empty_queue claim.1
until_claimed = next until_queued (claims 1 600 77 2000 claim.0 claimed)

queued-IsExclusive : IsExclusive queued
queued-IsExclusive = History-IsExclusive until_queued empty_queue-IsExclusive

History-IsExclusive_example : IsExclusive claim.1
History-IsExclusive_example = History-IsExclusive until_claimed empty_queue-IsExclusive

running_on-claim_next_job_example :
    (v : Server) × (find (λ (o : Server). o.id == 1) queued.servers ≡ some v)
    × ((v.max_concurrency ≡ 0) ⊎ (running_on claim.1 1 ≤ v.max_concurrency))
running_on-claim_next_job_example =
    running_on-claim_next_job queued claim.1 1 600 77 2000 claim.0 claimed queued-IsExclusive

claim_next_job-oldest_example :
    (job : BackupJob) × In job queued.backup_jobs
    × (claim.0.job_id ≡ job.id)
    × (job.status ≡ Status.pending)
    × (on_server queued 1 job.account_id ≡ true)
    × (any (runs_for job.account_id) queued.backup_jobs ≡ false)
    × ((j : BackupJob)
        → In j queued.backup_jobs
        → claimable queued 1 j ≡ true
        → job.created_at ≤ j.created_at)
claim_next_job-oldest_example = claim_next_job-oldest queued claim.1 1 600 77 2000 claim.0 claimed

other_token : ◌≢◌ {A = ℕ} 66 77
other_token e = omega (arith, e)

claim_next_job-refuses_old_example :
    (apply_report claim.1 1 claim.0.job_id 66 (good ∷ []) [] 2100 ≡ err not_found)
    × (renew_backup_lease claim.1 1 claim.0.job_id 66 600 2100 ≡ err not_found)
claim_next_job-refuses_old_example =
    claim_next_job-refuses_old queued claim.1 1 600 77 2000 claim.0 claimed 1 66 other_token
      (good ∷ []) [] 600 2100

apply_report-orphans_example :
    (j : BackupJob) × In j reported.1.backup_jobs
    × (j.id ≡ 100)
    × IsOrphan j
    × ((sv : ℕ) (i : BackupJob) → i.account_id ≡ j.account_id → claimable reported.1 sv i ≡ false)
    × ((sv : ℕ) (r : RestoreJob)
        → r.account_id ≡ j.account_id
        → restore_claimable reported.1 sv r ≡ false)
apply_report-orphans_example =
    apply_report-orphans claim.1 reported.1 reported.1 1 100 77 [] [] 2100
      History-IsExclusive_example left_open here

other_job : ◌≢◌ {A = ℕ} 101 100
other_job e = omega (arith, e)

-- The second target of the report is refused by the database, after the first was written.
abbrev too_big : TargetReport
too_big = record good { bytes_added = int64_limit }

abbrev half_way : Result StoreError Status × Store
unfolding report_statements
half_way = report_statements claim.1 1 100 77 (good ∷ too_big ∷ []) [] 2100

half_written :
    (half_way.0 ≡ err check_violation)
    × (map (λ (t : JobTarget). t.status) half_way.1.job_targets ≡ TargetStatus.success ∷ [])
    × (map (λ (t : JobTarget). t.status) claim.1.job_targets ≡ TargetStatus.pending ∷ [])
unfolding half_way report_statements claim queued next_pending claim_targets running_on
    claim_next_job
half_written = (refl, refl, refl)

in_tx-report_statements_example :
    in_tx claim.1 (report_statements claim.1 1 100 77 (good ∷ too_big ∷ []) [] 2100)
    ≡ settled claim.1 (apply_report claim.1 1 100 77 (good ∷ too_big ∷ []) [] 2100)
in_tx-report_statements_example =
    in_tx-report_statements claim.1 1 100 77 (good ∷ too_big ∷ []) [] 2100

-- A job of the other account, queued after the first was claimed, and still there when the first is reported.
abbrev both_queued : Store
unfolding create_job
both_queued = (given (0, empty_queue) (create_job claim.1 11 5 101 2050)).1

abbrev first_done : Status × Store
unfolding apply_report
first_done =
    given (Status.pending, empty_queue) (apply_report both_queued 1 100 77 (good ∷ []) [] 2100)

first_succeeded :
    apply_report both_queued 1 100 77 (good ∷ []) [] 2100 ≡ ok (Status.success, first_done.1)
unfolding apply_report target_statuses first_done both_queued claim queued next_pending
    claim_targets apply_targets rollup running_on claim_next_job create_job
first_succeeded = refl

apply_report-other_jobs_example :
    (first_done.1 ≡ record both_queued {
      backup_jobs = first_done.1.backup_jobs;
      job_targets = first_done.1.job_targets;
    })
    × (filter (is_other 100) first_done.1.backup_jobs
        ≡ filter (is_other 100) both_queued.backup_jobs)
    × (filter (of_other 100) first_done.1.job_targets
        ≡ filter (of_other 100) both_queued.job_targets)
apply_report-other_jobs_example =
    apply_report-other_jobs both_queued first_done.1 1 100 77 (good ∷ []) [] 2100 Status.success
      first_succeeded

apply_report-reference_example :
    (Status.success ≡ reference (target_statuses 100 finished.1.job_targets))
    × ((j : BackupJob)
        → In j finished.1.backup_jobs
        → j.id ≡ 100
        → (j.status ≡ Status.success)
          × (j.lease_expires_at ≡ none)
          × (j.claim_token ≡ none)
          × (terminal Status.success ≡ true → j.finished_at ≡ some 2100))
apply_report-reference_example =
    apply_report-reference claim.1 finished.1 1 100 77 (good ∷ []) [] 2100 Status.success succeeded
