-- ===== src/Node/Pending/Tests.antt =====
-- A node with two backups and two restores waiting.
use cprestic.Common.{ℕ, ◌≡◌, refl, false, [], ◌∷◌, none, text}
use cprestic.Job.{Status}
use cprestic.Node.{Restore, Job, Node}
use cprestic.Node.Pending.{Work, pending_work}
use cprestic.Node.Pending.Oldest.{IsNext, pending_work-IsNext}

abbrev backup : ℕ → ℕ → Job
backup id at = record {
  id = id;
  policy_id = 1;
  account = text "shop";
  complete_account = false;
  status = Status.pending;
  targets = [];
  queued_at = at;
  finished_at = none;
}

abbrev restore : ℕ → ℕ → Status → Restore
restore id at status = record { id = id; account = text "shop"; status = status; queued_at = at }

abbrev waiting : Node
waiting = record {
  policies = [];
  repositories = [];
  jobs = backup 1 20 ∷ backup 2 10 ∷ backup 3 30 ∷ [];
  restores =
      restore 4 5 Status.success ∷ restore 5 50 Status.pending ∷ restore 6 40 Status.pending ∷ [];
  protect_account_removal = false;
}

oldest_restore_runs : pending_work waiting ≡ Work.restore_work (restore 6 40 Status.pending)
unfolding pending_work
oldest_restore_runs = refl

oldest_backup_runs :
    pending_work (record waiting { restores = [] }) ≡ Work.backup_work (backup 2 10)
unfolding pending_work
oldest_backup_runs = refl

pending_work-IsNext_example : IsNext waiting (pending_work waiting)
pending_work-IsNext_example = pending_work-IsNext waiting
