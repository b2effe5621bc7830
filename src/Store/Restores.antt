-- ===== src/Store/Restores.antt =====
-- internal/store/restores.go: creating, claiming, reporting and reclaiming restores.
use mathlib.Core.Option
use cprestic.Common.{
  ℕ, ◌+◌, Bool, true, false, not, ◌&&◌, ◌||◌, List, [], ◌∷◌, ◌++◌, Option, none, some, Text, text,
  text_eq, leb, ◌==◌, Result, ok, ◌>>=◌, ◌>>◌, refuse_if, or_fail, length, filter, any, count, find,
  update, first_by,
}
use cprestic.Job.{Status}
use cprestic.Store.{
  Store, StoreError, Account, Repository, Destination, Secret, RestoreJob, no_work, not_found,
  no_provisioned_repository, missing_snapshot, missing_row, check_violation, is_pending, is_running,
}
use cprestic.Store.Jobs.{ClaimedTarget, on_server, runs_for, coalesce, credentials_of}
use cprestic.Store.Reports.{nullif_empty, int64_limit, lease_expired}
use cprestic.Store.Leases.{restore_held_by}

-- `RestoreRequest`; an empty `RepositoryID` is `none`.
pub record RestoreRequest : Type 0 where
  pub account_id : ℕ
  pub repository_id : Option ℕ
  pub snapshot_id : Text
  pub kind : Text
  pub include_paths : List Text
  pub target_dir : Text
  pub apply : Bool

-- The check of the source chosen by hand, and the choice of one otherwise: the repository of the
-- account's server that was initialised first.
abbrev pub is_initialised : Option ℕ → Bool
is_initialised none = false
is_initialised (some at) = true

abbrev initialised_when : Option ℕ → ℕ
initialised_when none = 0
initialised_when (some at) = at

unfoldable pub restore_source : Store → ℕ → Option ℕ → Result StoreError ℕ
restore_source s account_id (some id) = ok id
restore_source s account_id none =
    or_fail
      (Option.map (λ (r : Repository). r.id)
        (first_by (λ (r : Repository). initialised_when r.initialised_at)
          (filter
            (λ (r : Repository).
              on_server s r.server_id account_id && is_initialised r.initialised_at)
            s.repositories)))
      (no_provisioned_repository account_id)

-- The type `restore_kind` and the table's two checks (0004_restore_jobs.sql).
abbrev pub row_allowed : Text → List Text → Bool → Bool
row_allowed kind include_paths apply =
    (text_eq kind (text "account") || text_eq kind (text "files"))
    && ((not (text_eq kind (text "files")) || not (length include_paths == 0))
        && (not apply || text_eq kind (text "account")))

abbrev pub kind_or_account : Text → Text
kind_or_account [] = text "account"
kind_or_account (c ∷ t) = c ∷ t

-- The inserted row.
abbrev pub new_restore : RestoreRequest → ℕ → ℕ → ℕ → RestoreJob
new_restore req repository_id job_id now = record {
  id = job_id;
  account_id = req.account_id;
  repository_id = repository_id;
  snapshot_id = req.snapshot_id;
  kind = kind_or_account req.kind;
  include_paths = req.include_paths;
  target_dir = nullif_empty req.target_dir;
  apply = req.apply;
  status = Status.pending;
  lease_expires_at = none;
  claim_token = none;
  attempt = 0;
  bytes_restored = 0;
  archive_path = none;
  error = none;
  detail = none;
  applied = false;
  started_at = none;
  finished_at = none;
  created_at = now;
}

-- `CreateRestore`.
unfoldable pub create_restore : Store → RestoreRequest → ℕ → ℕ → Result StoreError (ℕ × Store)
create_restore s req job_id now = do
  refuse_if (length req.snapshot_id == 0) missing_snapshot
  repository_id ← restore_source s req.account_id req.repository_id
  refuse_if (not (any (λ (a : Account). a.id == req.account_id) s.accounts)) missing_row
  refuse_if (not (any (λ (r : Repository). r.id == repository_id) s.repositories)) missing_row
  refuse_if (not (row_allowed (kind_or_account req.kind) req.include_paths req.apply))
      check_violation
  ok (
    job_id,
    record s { restore_jobs = s.restore_jobs ++ new_restore req repository_id job_id now ∷ [] },
  )

-- Whether a restore of the account is running.
abbrev pub restores_for : ℕ → RestoreJob → Bool
restores_for account_id r = r.account_id == account_id && is_running r.status

abbrev pub restore_claimable : Store → ℕ → RestoreJob → Bool
restore_claimable s server_id r =
    on_server s server_id r.account_id
    && (is_pending r.status
        && (not (any (runs_for r.account_id) s.backup_jobs)
            && not (any (restores_for r.account_id) s.restore_jobs)))

unfoldable pub next_pending_restore : Store → ℕ → Option RestoreJob
next_pending_restore s server_id =
    first_by (λ (r : RestoreJob). r.created_at)
      (filter (restore_claimable s server_id) s.restore_jobs)

abbrev pub lease_restore : ℕ → ℕ → ℕ → RestoreJob → RestoreJob
lease_restore now lease token r = record r {
  status = Status.running;
  started_at = coalesce r.started_at now;
  lease_expires_at = some (now + lease);
  attempt = r.attempt + 1;
  claim_token = some token;
}

-- `ClaimedRestore`.
pub record ClaimedRestore : Type 0 where
  pub job_id : ℕ
  pub claim_token : ℕ
  pub lease_expires_at : ℕ
  pub account : Account
  pub snapshot_id : Text
  pub kind : Text
  pub include_paths : List Text
  pub target_dir : Option Text
  pub apply : Bool
  pub source : ClaimedTarget

-- The joined row of the restore's source.
unfoldable pub claim_source : Store → ℕ → Result StoreError ClaimedTarget
claim_source s repository_id = do
  r ← or_fail (find (λ (r : Repository). r.id == repository_id) s.repositories) missing_row
  d ← or_fail (find (λ (d : Destination). d.id == r.destination_id) s.destinations) missing_row
  p ← or_fail (find (λ (p : Secret). p.id == r.password_secret_id) s.secrets) missing_row
  ok (record {
    repository_id = repository_id;
    repository_path = r.path;
    destination_type = d.type;
    destination_config = d.config;
    credentials_sealed = credentials_of s d.credentials_secret_id;
    repo_password_sealed = p.ciphertext;
    attempt = 0;
  })

-- `ClaimNextRestore`.
unfoldable pub claim_next_restore :
    Store → ℕ → ℕ → ℕ → ℕ → Result StoreError (ClaimedRestore × Store)
claim_next_restore s server_id lease token now = do
  r ← or_fail (next_pending_restore s server_id) no_work
  let s' = record s {
    restore_jobs =
        update (λ (o : RestoreJob). o.id == r.id) (lease_restore now lease token) s.restore_jobs;
  }
  account ← or_fail (find (λ (a : Account). a.id == r.account_id) s.accounts) missing_row
  source ← claim_source s r.repository_id
  ok (
    record {
      job_id = r.id;
      claim_token = token;
      lease_expires_at = now + lease;
      account = account;
      snapshot_id = r.snapshot_id;
      kind = r.kind;
      include_paths = r.include_paths;
      target_dir = r.target_dir;
      apply = r.apply;
      source = source;
    },
    s',
  )

-- `RestoreOutcome`.
pub record RestoreOutcome : Type 0 where
  pub status : Status
  pub bytes_restored : ℕ
  pub archive_path : Text
  pub error : Text
  pub detail : Text
  pub applied : Bool

abbrev pub close_restore : RestoreOutcome → ℕ → RestoreJob → RestoreJob
close_restore o now r = record r {
  status = o.status;
  bytes_restored = o.bytes_restored;
  archive_path = nullif_empty o.archive_path;
  error = nullif_empty o.error;
  detail = nullif_empty o.detail;
  applied = o.applied;
  lease_expires_at = none;
  claim_token = none;
  finished_at = some now;
}

-- `ApplyRestoreReport`.
unfoldable pub apply_restore_report :
    Store → ℕ → ℕ → ℕ → RestoreOutcome → ℕ → Result StoreError Store
apply_restore_report s server_id job_id token outcome now = do
  refuse_if (not (any (restore_held_by s server_id job_id token) s.restore_jobs)) not_found
  refuse_if (leb int64_limit outcome.bytes_restored) check_violation
  ok (record s {
    restore_jobs =
        update (restore_held_by s server_id job_id token) (close_restore outcome now)
          s.restore_jobs;
  })

-- `leaseLostWhileApplying`.
abbrev pub lease_lost_while_applying : Text
lease_lost_while_applying =
    text
      "the lease ran out while this restore was writing into the live account, so it was taken back. It may have partly run: check the account before asking for it again."

abbrev pub requeued : ℕ → RestoreJob → Bool
requeued now r = is_running r.status && (not r.apply && lease_expired r.lease_expires_at now)

abbrev pub stopped : ℕ → RestoreJob → Bool
stopped now r = is_running r.status && (r.apply && lease_expired r.lease_expires_at now)

abbrev pub requeue_restore : RestoreJob → RestoreJob
requeue_restore r = record r {
  status = Status.pending;
  lease_expires_at = none;
  claim_token = none;
}

abbrev pub stop_restore : ℕ → RestoreJob → RestoreJob
stop_restore now r = record r {
  status = Status.failed;
  lease_expires_at = none;
  claim_token = none;
  error = some lease_lost_while_applying;
  finished_at = some now;
}

-- `ReclaimExpiredRestoreLeases`: two statements in one transaction.
unfoldable pub reclaim_expired_restore_leases : Store → ℕ → ℕ × Store
reclaim_expired_restore_leases s now =
    let first = update (requeued now) requeue_restore s.restore_jobs in
    (
      count (requeued now) s.restore_jobs + count (stopped now) first,
      record s { restore_jobs = update (stopped now) (stop_restore now) first },
    )
