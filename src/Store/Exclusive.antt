-- ===== src/Store/Exclusive.antt =====
-- The queue's invariant: keys are unique, and an account has at most one running backup and at most
-- one running restore.
pub mod Rows
pub mod Backups
pub mod Restores
pub mod History
use cprestic.Common.{ℕ, ◌≡◌, ◌≤◌, ◌==◌, count}
use cprestic.Store.{Store, BackupJob, RestoreJob}
use cprestic.Store.Jobs.{runs_for}
use cprestic.Store.Restores.{restores_for}

pub record IsExclusive (s : Store) : Type 0 where
  pub job_ids : (x : ℕ) → count (λ (j : BackupJob). j.id == x) s.backup_jobs ≤ 1
  pub one_backup : (a : ℕ) → count (runs_for a) s.backup_jobs ≤ 1
  pub restore_ids : (x : ℕ) → count (λ (r : RestoreJob). r.id == x) s.restore_jobs ≤ 1
  pub one_restore : (a : ℕ) → count (restores_for a) s.restore_jobs ≤ 1

-- It reads the two tables of jobs only.
pub IsExclusive-same :
    (s t : Store)
    → t.backup_jobs ≡ s.backup_jobs
    → t.restore_jobs ≡ s.restore_jobs
    → IsExclusive s
    → IsExclusive t
IsExclusive-same s t b r v = record {
  job_ids = λ x. rw b (v.job_ids x);
  one_backup = λ a. rw b (v.one_backup a);
  restore_ids = λ x. rw r (v.restore_ids x);
  one_restore = λ a. rw r (v.one_restore a);
}
