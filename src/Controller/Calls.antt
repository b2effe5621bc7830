-- ===== src/Controller/Calls.antt =====
-- The methods of `Service`. Each returns its answer and the tables it leaves: what the store changed stays
-- changed when a later step of the method fails.
use cprestic.Common.{
  ℕ, ◌+◌, not, List, [], ◌∷◌, Option, none, some, Text, text, text_eq, if◌then◌else◌, Result, ok,
  err,
}
use cprestic.Job.{Status, TargetStatus}
use cprestic.Store.{Store, StoreError, no_work}
use cprestic.Store.Jobs.{ClaimedTarget, ClaimedJob, claim_next_job}
use cprestic.Store.Reports.{TargetReport, reclaim_expired_leases}
use cprestic.Store.Transaction.{Written, in_tx, report_statements}
use cprestic.Store.Leases.{renew_backup_lease, renew_restore_lease}
use cprestic.Store.Restores.{
  ClaimedRestore, RestoreOutcome, claim_next_restore, apply_restore_report,
  reclaim_expired_restore_leases,
}
use cprestic.Controller.{
  ServiceError, store_error, missing_job_id, missing_token, invalid_status, build_failed,
  JobAssignment, RestoreAssignment, Assignment, ReportedTarget, JobReport, RestoreReport,
  LeaseRenewal,
}
use cprestic.Controller.Token.{valid_claim_token}

abbrev pub Answer : Type 0 → Type 0
Answer A = Result ServiceError A × Store

-- What a call of the store answered, and the tables after it. The call is one statement, which writes all of its rows
-- or fails and writes none.
abbrev pub settle : {A : Type 0} → Store → Result StoreError (A × Store) → Answer A
settle s (err e) = (err (store_error e), s)
settle s (ok (a, t)) = (ok a, t)

-- What a transaction of the store answered, and the tables that it left.
abbrev pub answered : {A : Type 0} → Written A → Answer A
answered (err e, t) = (err (store_error e), t)
answered (ok a, t) = (ok a, t)

module _ {Target : Type 0} (build : ClaimedTarget → Option Target) where
  -- The loop of `NextJob`: the first target that cannot be built ends it.
  unfoldable pub build_targets : List ClaimedTarget → Option (List Target)
  build_targets [] = some []
  build_targets (t ∷ ts) = elim (build t) [
    | none ↦ none
    | some built ↦ elim (build_targets ts) [ none ↦ none | some rest ↦ some (built ∷ rest) ]
  ]

  abbrev pub job_assignment : ClaimedJob → List Target → JobAssignment Target
  job_assignment c targets = record {
    job_id = c.job_id;
    claim_token = c.claim_token;
    account_id = c.account.id;
    cpanel_user = c.account.cpanel_user;
    size_estimate = c.account.size_estimate;
    payload_mode = c.policy.payload_mode;
    compression = c.policy.compression;
    limit_upload_kib = c.policy.limit_upload_kib;
    lease_expires_at = c.lease_expires_at;
    targets = targets;
  }

  abbrev pub assign_job : Option (List Target) → ClaimedJob → Store → Answer (JobAssignment Target)
  assign_job none c t = (err build_failed, t)
  assign_job (some targets) c t = (ok (job_assignment c targets), t)

  abbrev pub after_claim :
      Store → Result StoreError (ClaimedJob × Store) → Answer (JobAssignment Target)
  after_claim s (err e) = (err (store_error e), s)
  after_claim s (ok (c, t)) = assign_job (build_targets c.targets) c t

  -- `NextJob`.
  unfoldable pub next_job : Store → ℕ → ℕ → ℕ → ℕ → Answer (JobAssignment Target)
  unfolding build_targets
  next_job s server_id lease token now = after_claim s (claim_next_job s server_id lease token now)

  abbrev pub restore_assignment : ClaimedRestore → Target → RestoreAssignment Target
  restore_assignment c source = record {
    job_id = c.job_id;
    claim_token = c.claim_token;
    account_id = c.account.id;
    cpanel_user = c.account.cpanel_user;
    snapshot_id = c.snapshot_id;
    kind = c.kind;
    include_paths = c.include_paths;
    target_dir = c.target_dir;
    apply = c.apply;
    source = source;
    size_estimate = c.account.size_estimate;
    lease_expires_at = c.lease_expires_at;
  }

  abbrev pub assign_restore :
      Option Target → ClaimedRestore → Store → Answer (RestoreAssignment Target)
  assign_restore none c t = (err build_failed, t)
  assign_restore (some source) c t = (ok (restore_assignment c source), t)

  abbrev pub after_claim_restore :
      Store → Result StoreError (ClaimedRestore × Store) → Answer (RestoreAssignment Target)
  after_claim_restore s (err e) = (err (store_error e), s)
  after_claim_restore s (ok (c, t)) = assign_restore (build c.source) c t

  -- `NextRestore`.
  unfoldable pub next_restore : Store → ℕ → ℕ → ℕ → ℕ → Answer (RestoreAssignment Target)
  next_restore s server_id lease token now =
      after_claim_restore s (claim_next_restore s server_id lease token now)

  -- `NextWork`: restores before backups. An error but `ErrNoWork` ends it.
  abbrev pub offer_backup : Answer (JobAssignment Target) → Answer (Assignment Target)
  offer_backup (err e, t) = (err e, t)
  offer_backup (ok a, t) = (ok (Assignment.backup_kind a), t)

  abbrev pub offer :
      Answer (RestoreAssignment Target)
      → (Store → Answer (JobAssignment Target))
      → Answer (Assignment Target)
  offer (ok a, t) backup = (ok (Assignment.restore_kind a), t)
  offer (err (store_error no_work), t) backup = offer_backup (backup t)
  offer (err e, t) backup = (err e, t)

  unfoldable pub next_work : Store → ℕ → ℕ → ℕ → ℕ → Answer (Assignment Target)
  unfolding next_restore next_job
  next_work s server_id lease token now =
      offer (next_restore s server_id lease token now) (λ t. next_job t server_id lease token now)

-- The statuses that `Report` lets through, and those of `ReportRestore`.
abbrev pub outcome_of : Text → Option TargetStatus
outcome_of t =
    if text_eq t (text "success")
    then some TargetStatus.success
    else if text_eq t (text "failed")
    then some TargetStatus.failed
    else if text_eq t (text "skipped")
    then some TargetStatus.skipped
    else none

abbrev pub restore_outcome_of : Text → Option Status
restore_outcome_of t =
    if text_eq t (text "success")
    then some Status.success
    else if text_eq t (text "failed")
    then some Status.failed
    else none

abbrev pub accepted_target : ReportedTarget → TargetStatus → TargetReport
accepted_target r status = record {
  repository_id = r.repository_id;
  status = status;
  snapshot_id = r.snapshot_id;
  bytes_added = r.bytes_added;
  bytes_processed = r.bytes_processed;
  duration_secs = r.duration_seconds;
  incomplete = r.incomplete;
  error = r.error;
}

-- The loop of `Report`.
unfoldable pub accepted_targets : List ReportedTarget → Option (List TargetReport)
accepted_targets [] = some []
accepted_targets (r ∷ rs) = elim (outcome_of r.status) [
  | none ↦ none
  | some status ↦ elim (accepted_targets rs) [
    | none ↦ none
    | some rest ↦ some (accepted_target r status ∷ rest)
  ]
]

-- `Report`.
abbrev pub record_report :
    (Text → ℕ) → Store → ℕ → ℕ → JobReport → ℕ → Option (List TargetReport) → Answer Status
record_report uuid s server_id job_id report now none = (err invalid_status, s)
record_report uuid s server_id job_id report now (some targets) = answered (
    in_tx s (
      report_statements s server_id job_id (uuid report.claim_token) targets report.staging_error
        now))

unfoldable pub report : (Text → ℕ) → Store → ℕ → JobReport → ℕ → Answer Status
unfolding accepted_targets in_tx report_statements
report uuid s server_id r now = elim (r.job_id) [
  | none ↦ (err missing_job_id, s)
  | some job_id ↦
      if not (valid_claim_token r.claim_token)
      then (err missing_token, s)
      else record_report uuid s server_id job_id r now (accepted_targets r.targets)
]

-- `ReportRestore`.
abbrev pub restore_outcome : RestoreReport → Status → RestoreOutcome
restore_outcome r status = record {
  status = status;
  bytes_restored = r.bytes_restored;
  archive_path = r.archive_path;
  error = r.error;
  detail = r.detail;
  applied = r.applied;
}

abbrev pub settle_unit : Store → Result StoreError Store → Answer (Unit {0})
settle_unit s (err e) = (err (store_error e), s)
settle_unit s (ok t) = (ok tt, t)

abbrev pub record_restore :
    (Text → ℕ) → Store → ℕ → ℕ → RestoreReport → ℕ → Option Status → Answer (Unit {0})
record_restore uuid s server_id job_id r now none = (err invalid_status, s)
record_restore uuid s server_id job_id r now (some status) =
    settle_unit s
      (apply_restore_report s server_id job_id (uuid r.claim_token) (restore_outcome r status) now)

unfoldable pub report_restore : (Text → ℕ) → Store → ℕ → RestoreReport → ℕ → Answer (Unit {0})
report_restore uuid s server_id r now = elim (r.job_id) [
  | none ↦ (err missing_job_id, s)
  | some job_id ↦
      if not (valid_claim_token r.claim_token)
      then (err missing_token, s)
      else record_restore uuid s server_id job_id r now (restore_outcome_of r.status)
]

-- `RenewLease`.
unfoldable pub renew_lease : (Text → ℕ) → Store → ℕ → LeaseRenewal → ℕ → ℕ → Answer ℕ
renew_lease uuid s server_id r lease now =
    if not (valid_claim_token r.claim_token)
    then (err missing_token, s)
    else if r.restore
    then settle s (renew_restore_lease s server_id r.job_id (uuid r.claim_token) lease now)
    else settle s (renew_backup_lease s server_id r.job_id (uuid r.claim_token) lease now)

-- `ReclaimLeases`.
unfoldable pub reclaim_leases : Store → ℕ → ℕ × Store
reclaim_leases s now =
    let (backups, t) = reclaim_expired_leases s now in
    let (restores, u) = reclaim_expired_restore_leases t now in (backups + restores, u)
