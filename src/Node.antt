-- ===== src/Node.antt =====
-- internal/nodestore/types.go: what the engine of a node keeps, as far as retention, the removal of
-- accounts and the queue read it.
--
-- The database is a value. Reading it fails only where a record is missing: its own faults (a page that
-- does not decode, a full disk) are not modelled. A repository is one row of a list in the order in which
-- `Repositories` returns them, oldest first. Times are nanoseconds, the zero time is 0, and a pointer
-- that may be nil is an option.
pub mod Keeps
pub mod Runs
pub mod Sweep
pub mod Merged
pub mod Approval
pub mod Recorded
pub mod Backoff
pub mod Swept
pub mod Agreement
pub mod Planned
pub mod Consent
pub mod Removal
pub mod Pending
pub mod Basket
mod Tests
use cprestic.Common.{ℕ, Bool, List, Option, Text, ℤ}
use cprestic.Job.{Status, TargetStatus}
use cprestic.Restic.{Responder, ForgetError}

pub record Retention : Type 0 where
  pub keep_last : ℤ
  pub keep_daily : ℤ
  pub keep_weekly : ℤ
  pub keep_monthly : ℤ
  pub keep_yearly : ℤ

-- `Policy`: the fields that retention and the removal of accounts read. No accounts: all of them.
pub record Policy : Type 0 where
  pub id : ℕ
  pub schedule_cron : Text
  pub accounts : List Text
  pub skip_homedir : Bool
  pub skip_databases : Bool
  pub skip_email : Bool
  pub alert_no_backup_days : ℤ
  pub retention : Retention
  pub repository_ids : List ℕ
  pub enabled : Bool

pub record RetentionGroup : Type 0 where
  pub protected : Bool
  pub account : Text
  pub host : Text
  pub keep : ℕ
  pub drop : ℕ
  pub oldest : Option ℕ
  pub newest : Option ℕ

-- Why retention did not run, or did not finish.
pub data RetentionError : Type 0 where
  not_found : RetentionError
  nothing_says_keep : RetentionError
  not_opened : RetentionError
  not_approved : RetentionError
  keeps_changed : RetentionError
  nothing_planned : RetentionError
  plan_outdated : RetentionError
  forget_failed : ForgetError → RetentionError
  prune_failed : ForgetError → RetentionError

-- `RetentionState`. `last_error` is none for the empty text.
pub record RetentionState : Type 0 where
  pub planned_at : Option ℕ
  pub plan : List RetentionGroup
  pub planned_keeps : Retention
  pub would_keep : ℕ
  pub would_drop : ℕ
  pub applied_at : Option ℕ
  pub dropped : ℕ
  pub attempted_at : Option ℕ
  pub last_error : Option RetentionError

-- `Repository`: the fields that retention reads or writes.
pub record Repository : Type 0 where
  pub id : ℕ
  pub initialised_at : Option ℕ
  pub retention_approved_at : Option ℕ
  pub retention_approved_keeps : Retention
  pub retention : RetentionState

pub record JobTarget : Type 0 where
  pub repository_id : ℕ
  pub status : TargetStatus
  pub incomplete : Bool
  pub snapshot_id : Text

pub record Job : Type 0 where
  pub id : ℕ
  pub policy_id : ℕ
  pub account : Text
  pub complete_account : Bool
  pub status : Status
  pub targets : List JobTarget
  pub queued_at : ℕ
  pub finished_at : Option ℕ

-- `Restore`: the fields that decide what runs next.
pub record Restore : Type 0 where
  pub id : ℕ
  pub account : Text
  pub status : Status
  pub queued_at : ℕ

-- The node's database. Of the settings, `ProtectAccountRemoval`.
pub record Node : Type 0 where
  pub policies : List Policy
  pub repositories : List Repository
  pub jobs : List Job
  pub restores : List Restore
  pub protect_account_removal : Bool

-- What the engine calls: whether `OpenRepository` succeeds (credentials and destinations are not
-- modelled), and restic.
pub record World : Type 0 where
  pub opens : ℕ → Bool
  pub respond : Responder
