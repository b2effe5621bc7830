-- ===== src/Store/Leases.antt =====
-- internal/store/leases.go: an agent that is still working asks for more time.
use cprestic.Common.{ℕ, ◌+◌, Bool, not, ◌&&◌, some, ◌==◌, Result, ok, ◌>>◌, refuse_if, any, update}
use cprestic.Store.{Store, StoreError, BackupJob, RestoreJob, not_found, is_running}
use cprestic.Store.Jobs.{on_server}
use cprestic.Store.Reports.{held_by, holds}

abbrev pub renew_job : ℕ → BackupJob → BackupJob
renew_job expires j = record j { lease_expires_at = some expires }

abbrev pub renew_restore : ℕ → RestoreJob → RestoreJob
renew_restore expires r = record r { lease_expires_at = some expires }

-- `RenewBackupLease`: its statement selects the row that `jobIsRunningOn` does.
unfoldable pub renew_backup_lease : Store → ℕ → ℕ → ℕ → ℕ → ℕ → Result StoreError (ℕ × Store)
renew_backup_lease s server_id job_id token lease now = do
  refuse_if (not (any (held_by s server_id job_id token) s.backup_jobs)) not_found
  ok (
    now + lease,
    record s {
      backup_jobs =
          update (held_by s server_id job_id token) (renew_job (now + lease)) s.backup_jobs;
    },
  )

-- The condition of the restore statements: this server's, running, under this attempt's token.
abbrev pub restore_held_by : Store → ℕ → ℕ → ℕ → RestoreJob → Bool
restore_held_by s server_id job_id token r =
    r.id == job_id
    && (on_server s server_id r.account_id && (is_running r.status && holds r.claim_token token))

-- `RenewRestoreLease`.
unfoldable pub renew_restore_lease : Store → ℕ → ℕ → ℕ → ℕ → ℕ → Result StoreError (ℕ × Store)
renew_restore_lease s server_id job_id token lease now = do
  refuse_if (not (any (restore_held_by s server_id job_id token) s.restore_jobs)) not_found
  ok (
    now + lease,
    record s {
      restore_jobs =
          update (restore_held_by s server_id job_id token) (renew_restore (now + lease))
            s.restore_jobs;
    },
  )
