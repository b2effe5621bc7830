-- ===== src/Restic/Tests.antt =====
-- A retention run against a restic that answers the preview with one group, one backup of which may go.
use cprestic.Common.{
  ◌+◌, ◌≡◌, refl, inl, inr, Bool, true, false, [], ◌∷◌, some, text, text_eq, pos, length, In,
}
use cprestic.Restic.{
  Snapshot, Group, ForgetSpec, group_array, blank, Command, Responder, ◌>>=◌, lift, run,
}
use cprestic.Restic.Words.{itoa, has_text, valid_snapshot_id}
use cprestic.Restic.Accepted.{is_ok, acceptable, forget_args-acceptable}
use cprestic.Restic.Args.{forget_args}
use cprestic.Restic.Plan.{plan_of}
use cprestic.Restic.Forget.{forget_planned, safe_groups, removals, check_ids}
use cprestic.Restic.Safe.Groups.{backup_count, plan_of-counts}
use cprestic.Restic.Safe.Trace.{is_deletion}
use cprestic.Restic.Safe.Deletions.{Deletes, forget_planned-Removable, forget_planned-dry_run}

abbrev old : Snapshot
old = record { id = text "0123456789abcdef"; time = 5; tags = [] }

abbrev recent : Snapshot
recent = record { id = text "fedcba9876543210"; time = 9; tags = [] }

abbrev backups : Group
backups = record {
  host = text "web1";
  tags = [];
  keep = recent ∷ [];
  remove = old ∷ [];
  protected = false;
}

-- It lists the group on every forget that names a flag first, and is silent otherwise.
abbrev answer : Responder
answer [] command =
    some (record { exit_code = 0; stdout = group_array (backups ∷ []); truncated = false })
answer (c ∷ trace) command = some (record { exit_code = 0; stdout = blank; truncated = false })

abbrev spec : Bool → ForgetSpec
spec dry_run = record {
  protected_snapshot_ids = [];
  keep_last = pos 1;
  keep_daily = pos 0;
  keep_weekly = pos 0;
  keep_monthly = pos 0;
  keep_yearly = pos 0;
  tags = [];
  group_by = [];
  prune = false;
  dry_run = dry_run;
}

abbrev deletion : Command
deletion = text "forget" ∷ text "0123456789abcdef" ∷ []

deletes : is_deletion deletion ≡ true
unfolding is_deletion text_eq has_text
deletes = refl

issued : In deletion (forget_planned answer (spec false) []).1
unfolding forget_planned ◌>>=◌ lift forget_args run has_text check_ids valid_snapshot_id
issued = inr (inl refl)

forget_planned-Removable_example : Deletes answer (spec false) deletion
forget_planned-Removable_example =
    forget_planned-Removable answer (spec false) deletion issued deletes

abbrev asked : Command
asked =
    text "forget"
    ∷ text "--json"
    ∷ text "--keep-last"
    ∷ text "1"
    ∷ text "--group-by"
    ∷ text "host,tags"
    ∷ text "--dry-run"
    ∷ []

previewed : In asked (forget_planned answer (spec true) []).1
unfolding forget_planned ◌>>=◌ lift forget_args run has_text itoa
previewed = inl refl

forget_planned-dry_run_example : is_deletion asked ≡ false
forget_planned-dry_run_example = forget_planned-dry_run answer (spec true) refl asked previewed

plan_of-counts_example :
    ((plan_of (safe_groups [] [] (backups ∷ []))).kept
        + (plan_of (safe_groups [] [] (backups ∷ []))).removed
      ≡ backup_count (backups ∷ []))
    × ((plan_of (safe_groups [] [] (backups ∷ []))).removed
        ≡ length (removals (safe_groups [] [] (backups ∷ []))))
plan_of-counts_example = plan_of-counts [] [] (backups ∷ [])

forget_args-acceptable_example : is_ok (forget_args (spec true)) ≡ acceptable (spec true)
forget_args-acceptable_example = forget_args-acceptable (spec true)
