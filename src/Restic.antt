-- ===== src/Restic.antt =====
-- internal/resticrun: retention runs of restic.
--
-- restic is a program that this repository does not hold. A call of `Runner.run` is a command, the list
-- of its arguments; what comes back is given by a parameter of the model, `Responder`, which sees all
-- the commands before. A computation carries the list of the commands issued so far, oldest first.
pub mod Words
pub mod Args
pub mod Accepted
pub mod Plan
pub mod Forget
pub mod Safe
mod Tests
use cprestic.Common.{ℕ, Bool, List, [], ◌∷◌, ◌++◌, Option, none, some, Text, ℤ, Result, ok, err}

-- `Snapshot`, as far as retention reads it. The zero time is 0.
pub record Snapshot : Type 0 where
  pub id : Text
  pub time : ℕ
  pub tags : List Text

-- `retentionGroupJSON`.
pub record Group : Type 0 where
  pub host : Text
  pub tags : List Text
  pub keep : List Snapshot
  pub remove : List Snapshot
  pub protected : Bool

-- `ForgetGroup` and `ForgetPlan`.
pub record ForgetGroup : Type 0 where
  pub host : Text
  pub account : Text
  pub tags : List Text
  pub kept : ℕ
  pub removed : ℕ
  pub protected : Bool
  pub oldest : ℕ
  pub newest : ℕ

pub record ForgetPlan : Type 0 where
  pub groups : List ForgetGroup
  pub kept : ℕ
  pub removed : ℕ

-- `ForgetSpec`. The keys of `ProtectedSnapshotIDs` are those it maps to true.
pub record ForgetSpec : Type 0 where
  pub protected_snapshot_ids : List Text
  pub keep_last : ℤ
  pub keep_daily : ℤ
  pub keep_weekly : ℤ
  pub keep_monthly : ℤ
  pub keep_yearly : ℤ
  pub tags : List Text
  pub group_by : Text
  pub prune : Bool
  pub dry_run : Bool

pub data ForgetError : Type 0 where
  negative_keep : Text → ForgetError
  no_keep_policy : ForgetError
  dry_run_prunes : ForgetError
  run_failed : ForgetError
  exited : ℕ → ForgetError
  restic_said : Text → ForgetError
  unreadable : ForgetError
  truncated : ForgetError
  no_snapshot_named : ForgetError
  bad_snapshot_id : Text → ForgetError

-- What a command wrote to stdout, as `encoding/json` reads it: nothing but white space, an object with
-- its `message`, an array of groups, an array of snapshots, or something that does not decode.
pub data Stdout : Type 0 where
  blank : Stdout
  object : Text → Stdout
  group_array : List Group → Stdout
  snapshot_array : List Snapshot → Stdout
  garbled : Stdout

-- `CommandResult`.
pub record CommandResult : Type 0 where
  pub exit_code : ℕ
  pub stdout : Stdout
  pub truncated : Bool

abbrev pub Command : Type 0
Command = List Text

-- `none`: the command could not be run.
abbrev pub Responder : Type 0
Responder = List Command → Command → Option CommandResult

abbrev pub Run : Type 0 → Type 0
Run A = List Command → Result ForgetError A × List Command

infixl 5 ◌>>=◌ ◌>>◌
unfoldable pub ◌>>=◌ : {A B : Type 0} → Run A → (A → Run B) → Run B
◌>>=◌ m f trace = let (r, after) = m trace in elim r [ ok a ↦ f a after | err e ↦ (err e, after) ]

abbrev pub ◌>>◌ : {B : Type 0} → Run (Unit {0}) → Run B → Run B
m >> k = m >>= λ _. k

unfoldable pub lift : {A : Type 0} → Result ForgetError A → Run A
lift r trace = (r, trace)

-- `Runner.run`.
unfoldable pub run : Responder → Command → Run CommandResult
run respond command trace = elim (respond trace command) [
  | none ↦ (err run_failed, trace ++ command ∷ [])
  | some r ↦ (ok r, trace ++ command ∷ [])
]
