-- ===== src/Store.antt =====
-- internal/store: the controller's tables, as far as the job queue reads and writes them
-- (types.go, jobs.go, leases.go, restores.go; columns as in migrations/).
--
-- A table is the list of its rows and a uuid is a number. A statement reads the whole table and an
-- `UPDATE` rewrites it. An operation is one function that gives the tables after it or an error; Transaction
-- has `inTx` and the statements of `ApplyReport` under it, one by one. Times are numbers, `now()` is an argument, and so are the values that `gen_random_uuid()` returns.
pub mod Jobs
pub mod Reports
pub mod Transaction
pub mod Leases
pub mod Restores
pub mod Policies
pub mod Effects
pub mod Exclusive
pub mod Claims
pub mod Tokens
pub mod Orphan
pub mod ApplyOnce
pub mod Outcome
mod Tests
use cprestic.Common.{ℕ, Bool, true, false, List, Option, Text}
use cprestic.Job.{Status, TargetStatus}

-- `max_concurrency` is not null in the table.
pub record Server : Type 0 where
  pub id : ℕ
  pub max_concurrency : ℕ

pub record Account : Type 0 where
  pub id : ℕ
  pub server_id : ℕ
  pub cpanel_user : Text
  pub primary_domain : Text
  pub size_estimate : ℕ
  pub active : Bool

pub record Destination : Type 0 where
  pub id : ℕ
  pub name : Text
  pub type : Text
  pub config : Text
  pub credentials_secret_id : Option ℕ

pub record Repository : Type 0 where
  pub id : ℕ
  pub destination_id : ℕ
  pub server_id : ℕ
  pub path : Text
  pub password_secret_id : ℕ
  pub initialised_at : Option ℕ

pub record Retention : Type 0 where
  pub keep_last : ℕ
  pub keep_daily : ℕ
  pub keep_weekly : ℕ
  pub keep_monthly : ℕ
  pub keep_yearly : ℕ

pub record Policy : Type 0 where
  pub id : ℕ
  pub name : Text
  pub schedule_cron : Text
  pub payload_mode : Text
  pub retention : Retention
  pub compression : Text
  pub limit_upload_kib : ℕ
  pub last_run_at : Option ℕ

pub record Secret : Type 0 where
  pub id : ℕ
  pub ciphertext : Text

-- A row of `policy_repositories`.
pub record PolicyRepository : Type 0 where
  pub policy_id : ℕ
  pub repository_id : ℕ

-- A row of `account_policies`.
pub record AccountPolicy : Type 0 where
  pub account_id : ℕ
  pub policy_id : ℕ

-- A row of `backup_jobs`.
pub record BackupJob : Type 0 where
  pub id : ℕ
  pub account_id : ℕ
  pub policy_id : ℕ
  pub status : Status
  pub lease_expires_at : Option ℕ
  pub claim_token : Option ℕ
  pub started_at : Option ℕ
  pub finished_at : Option ℕ
  pub created_at : ℕ

-- A row of `backup_job_targets`, less its own uuid, which nothing reads.
pub record JobTarget : Type 0 where
  pub job_id : ℕ
  pub repository_id : ℕ
  pub status : TargetStatus
  pub snapshot_id : Option Text
  pub bytes_added : ℕ
  pub bytes_processed : ℕ
  pub duration_seconds : ℕ
  pub attempt : ℕ
  pub incomplete : Bool
  pub error : Option Text

-- A row of `restore_jobs`.
pub record RestoreJob : Type 0 where
  pub id : ℕ
  pub account_id : ℕ
  pub repository_id : ℕ
  pub snapshot_id : Text
  pub kind : Text
  pub include_paths : List Text
  pub target_dir : Option Text
  pub apply : Bool
  pub status : Status
  pub lease_expires_at : Option ℕ
  pub claim_token : Option ℕ
  pub attempt : ℕ
  pub bytes_restored : ℕ
  pub archive_path : Option Text
  pub error : Option Text
  pub detail : Option Text
  pub applied : Bool
  pub started_at : Option ℕ
  pub finished_at : Option ℕ
  pub created_at : ℕ

pub record Store : Type 0 where
  pub servers : List Server
  pub accounts : List Account
  pub destinations : List Destination
  pub repositories : List Repository
  pub policies : List Policy
  pub secrets : List Secret
  pub policy_repositories : List PolicyRepository
  pub account_policies : List AccountPolicy
  pub backup_jobs : List BackupJob
  pub job_targets : List JobTarget
  pub restore_jobs : List RestoreJob
  -- The database's order on texts, for `ORDER BY d.name, r.path`.
  pub collation : Text → Text → Bool

-- `ErrNoWork`, `ErrNotFound`, the refusals with a text of their own, and the constraints of the
-- tables that a statement can break.
pub data StoreError : Type 0 where
  no_work not_found : StoreError
  no_repositories : ℕ → StoreError
  no_outstanding_targets : ℕ → StoreError
  no_provisioned_repository : ℕ → StoreError
  missing_snapshot : StoreError
  missing_row : StoreError
  check_violation : StoreError

abbrev pub is_pending : Status → Bool
is_pending Status.pending = true
is_pending _ = false

abbrev pub is_running : Status → Bool
is_running Status.running = true
is_running _ = false

-- `status IN ('pending', 'running')`.
abbrev pub is_open : Status → Bool
is_open Status.pending = true
is_open Status.running = true
is_open _ = false
