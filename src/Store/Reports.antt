-- ===== src/Store/Reports.antt =====
-- internal/store/jobs.go, second half: an agent's report, and the leases that ran out.
use mathlib.Core.Option
use cprestic.Common.{
  ℕ, ◌+◌, ◌^◌, Bool, true, false, not, ◌&&◌, ◌||◌, List, [], ◌∷◌, map, Option, none, some, Text,
  ltb, leb, ◌==◌, if◌then◌else◌, Result, ok, ◌>>=◌, ◌>>◌, refuse_if, or_fail, filter, any, count,
  find, update,
}
use cprestic.Job.{Status, TargetStatus, TargetResult, rollup, terminal}
use cprestic.Store.{Store, StoreError, BackupJob, JobTarget, not_found, check_violation, is_running}
use cprestic.Store.Jobs.{on_server}

-- `TargetReport`.
pub record TargetReport : Type 0 where
  pub repository_id : ℕ
  pub status : TargetStatus
  pub snapshot_id : Text
  pub bytes_added : ℕ
  pub bytes_processed : ℕ
  pub duration_secs : ℕ
  pub incomplete : Bool
  pub error : Text

-- `nullif($n, '')`.
abbrev pub nullif_empty : Text → Option Text
nullif_empty [] = none
nullif_empty (c ∷ t) = some (c ∷ t)

-- `int64(x)` of a `uint64` is negative from here on, which the column's check refuses.
abbrev pub int64_limit : ℕ
int64_limit = 2 ^ 63

abbrev pub is_target : ℕ → ℕ → JobTarget → Bool
is_target job_id repository_id t = t.job_id == job_id && t.repository_id == repository_id

abbrev pub report_target : TargetReport → JobTarget → JobTarget
report_target r t = record t {
  status = r.status;
  snapshot_id = nullif_empty r.snapshot_id;
  bytes_added = r.bytes_added;
  bytes_processed = r.bytes_processed;
  duration_seconds = r.duration_secs;
  incomplete = r.incomplete;
  error = nullif_empty r.error;
  attempt = t.attempt + 1;
}

-- The loop over the reports.
unfoldable pub apply_targets :
    ℕ → List TargetReport → List JobTarget → Result StoreError (List JobTarget)
apply_targets job_id [] targets = ok targets
apply_targets job_id (r ∷ rs) targets =
    refuse_if
      (any (is_target job_id r.repository_id) targets
        && (leb int64_limit r.bytes_added || leb int64_limit r.bytes_processed))
      check_violation
    >> apply_targets job_id rs (update (is_target job_id r.repository_id) (report_target r) targets)

-- `status IN ('pending', 'running')`.
abbrev pub unfinished : TargetStatus → Bool
unfinished TargetStatus.pending = true
unfinished TargetStatus.running = true
unfinished _ = false

-- The statement after a staging error.
abbrev pub fail_unfinished : ℕ → Text → List JobTarget → List JobTarget
fail_unfinished job_id [] targets = targets
fail_unfinished job_id (c ∷ t) targets =
    update (λ (r : JobTarget). r.job_id == job_id && unfinished r.status)
      (λ r. record r {
        status = TargetStatus.failed;
        error = some (c ∷ t);
        attempt = r.attempt + 1;
      })
      targets

-- What `targetStatuses` reads of one row.
abbrev pub stored_result : JobTarget → TargetResult
stored_result t = record {
  repository_id = 0;
  status = t.status;
  snapshot_id = [];
  bytes_added = 0;
  bytes_processed = 0;
  duration = 0;
  attempt = 0;
  incomplete = t.incomplete;
  err = [];
}

unfoldable pub target_statuses : ℕ → List JobTarget → List TargetResult
target_statuses job_id targets =
    map stored_result (filter (λ (t : JobTarget). t.job_id == job_id) targets)

-- `claim_token = $3::uuid`; null equals nothing.
abbrev pub holds : Option ℕ → ℕ → Bool
holds none token = false
holds (some t) token = t == token

-- `jobIsRunningOn`: the row that its query selects.
abbrev pub held_by : Store → ℕ → ℕ → ℕ → BackupJob → Bool
held_by s server_id job_id token j =
    j.id == job_id
    && (on_server s server_id j.account_id && (is_running j.status && holds j.claim_token token))

abbrev pub close_job : Status → ℕ → BackupJob → BackupJob
close_job status now j = record j {
  status = status;
  lease_expires_at = none;
  claim_token = none;
  finished_at = if terminal status then some now else j.finished_at;
}

unfoldable pub apply_report :
    Store → ℕ → ℕ → ℕ → List TargetReport → Text → ℕ → Result StoreError (Status × Store)
apply_report s server_id job_id token reports staging_error now = do
  refuse_if (not (any (held_by s server_id job_id token) s.backup_jobs)) not_found
  reported ← apply_targets job_id reports s.job_targets
  let targets = fail_unfinished job_id staging_error reported
  let status = rollup (target_statuses job_id targets)
  ok (
    status,
    record s {
      job_targets = targets;
      backup_jobs = update (λ (j : BackupJob). j.id == job_id) (close_job status now) s.backup_jobs;
    },
  )

-- `lease_expires_at IS NOT NULL AND lease_expires_at < now()`.
abbrev pub lease_expired : Option ℕ → ℕ → Bool
lease_expired none now = false
lease_expired (some at) now = ltb at now

abbrev pub is_abandoned : ℕ → BackupJob → Bool
is_abandoned now j = is_running j.status && lease_expired j.lease_expires_at now

abbrev pub requeue_job : BackupJob → BackupJob
requeue_job j = record j { status = Status.pending; lease_expires_at = none; claim_token = none }

-- `ReclaimExpiredLeases`.
unfoldable pub reclaim_expired_leases : Store → ℕ → ℕ × Store
reclaim_expired_leases s now = (
  count (is_abandoned now) s.backup_jobs,
  record s { backup_jobs = update (is_abandoned now) requeue_job s.backup_jobs },
)

-- `JobStatus`.
unfoldable pub job_status : Store → ℕ → Result StoreError Status
job_status s job_id =
    or_fail
      (Option.map (λ (j : BackupJob). j.status)
        (find (λ (j : BackupJob). j.id == job_id) s.backup_jobs))
      not_found
