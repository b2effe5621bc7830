-- ===== src/Controller.antt =====
-- internal/controller/service.go and scheduler.go: what the control plane answers to an agent, over the job queue of Store.
--
-- Identities are numbers, as in Store, and the empty job id is none; an id of another shape, which the
-- database refuses, is not modelled. A claim token is text: `uuid` is the database's reading of one. The
-- time, the lease duration and the new tokens are arguments. `build` is `buildTarget`, which opens the
-- sealed credentials and may fail: the theorems hold for every such function. Logging is left out.
pub mod Token
pub mod Calls
pub mod Schedule
pub mod Refines
pub mod Serves
pub mod Fired
pub mod Answers
mod Tests
use cprestic.Common.{ℕ, Bool, List, Option, Text}
use cprestic.Store.{StoreError}

pub data ServiceError : Type 0 where
  store_error : StoreError → ServiceError
  missing_job_id missing_token invalid_status build_failed : ServiceError

-- `JobAssignment` and `RestoreAssignment` of internal/protocol, for targets of any kind.
pub record JobAssignment (Target : Type 0) : Type 0 where
  pub job_id : ℕ
  pub claim_token : ℕ
  pub account_id : ℕ
  pub cpanel_user : Text
  pub size_estimate : ℕ
  pub payload_mode : Text
  pub compression : Text
  pub limit_upload_kib : ℕ
  pub lease_expires_at : ℕ
  pub targets : List Target

pub record RestoreAssignment (Target : Type 0) : Type 0 where
  pub job_id : ℕ
  pub claim_token : ℕ
  pub account_id : ℕ
  pub cpanel_user : Text
  pub snapshot_id : Text
  pub kind : Text
  pub include_paths : List Text
  pub target_dir : Option Text
  pub apply : Bool
  pub source : Target
  pub size_estimate : ℕ
  pub lease_expires_at : ℕ

pub data Assignment (Target : Type 0) : Type 0 where
  restore_kind : RestoreAssignment Target → Assignment Target
  backup_kind : JobAssignment Target → Assignment Target

-- What an agent sends.
pub record ReportedTarget : Type 0 where
  pub repository_id : ℕ
  pub status : Text
  pub snapshot_id : Text
  pub bytes_added : ℕ
  pub bytes_processed : ℕ
  pub duration_seconds : ℕ
  pub incomplete : Bool
  pub error : Text

pub record JobReport : Type 0 where
  pub job_id : Option ℕ
  pub claim_token : Text
  pub targets : List ReportedTarget
  pub staging_error : Text

pub record RestoreReport : Type 0 where
  pub job_id : Option ℕ
  pub claim_token : Text
  pub status : Text
  pub bytes_restored : ℕ
  pub archive_path : Text
  pub error : Text
  pub detail : Text
  pub applied : Bool

-- `job_id` of a renewal is not checked.
pub record LeaseRenewal : Type 0 where
  pub job_id : ℕ
  pub claim_token : Text
  pub restore : Bool
