-- ===== src/Node/Tests.antt =====
-- A node with one schedule and one repository, whose retention an operator approved at time 50.
use cprestic.Common.{
  ℕ, ◌+◌, ◌≡◌, ◌<◌, refl, inl, inr, true, false, [], ◌∷◌, Option, none, some, List, Result, text,
  text_eq, pos, In, arith, ok, err,
}
use cprestic.Restic.{ForgetPlan, Group, group_array, blank, Command, Responder, ◌>>=◌, lift, run}
use cprestic.Restic.Words.{itoa, has_text, valid_snapshot_id}
use cprestic.Restic.Args.{forget_args}
use cprestic.Restic.Plan.{summarise_all}
use cprestic.Restic.Forget.{check_ids, forget_planned}
use cprestic.Restic.Safe.Trace.{is_deletion}
use cprestic.Node.{not_approved, RetentionError, Retention, Policy, Repository, Node, World}
use cprestic.Node.Keeps.{
  no_retention, merged_retention, retention_for, plan_groups, retention_approval_covers, same_keeps,
}
use cprestic.Node.Runs.{
  repository, approved_keeps, apply_retention, plan_retention, approve_retention,
  withdraw_retention, open_repository, spec_for,
}
use cprestic.Node.Sweep.{retention_every, sweep_retention, any_job_running}
use cprestic.Node.Merged.{AsGenerous, Writes, merged_retention-least_bound}
use cprestic.Node.Approval.{
  Agreed, applied_commands, planned_commands, apply_retention-Approved,
  plan_retention-deletes_nothing,
}
use cprestic.Node.Recorded.{applied_node, planned_node}
use cprestic.Node.Backoff.{PassesOver, retention-PassesOver}
use cprestic.Node.Swept.{Swept, sweep_retention-Swept}
use cprestic.Node.Consent.{withdraw_retention-refuses, approve_retention-permits}
use cprestic.Node.Agreement.{AppliedRecord, applied_result, apply_retention-AppliedRecord}
use cprestic.Node.Planned.{planned_result, approve_retention-planned}

abbrev one : Retention
one = record {
  keep_last = pos 1;
  keep_daily = pos 0;
  keep_weekly = pos 0;
  keep_monthly = pos 0;
  keep_yearly = pos 0;
}

abbrev schedule : Policy
schedule = record {
  id = 5;
  schedule_cron = [];
  accounts = [];
  skip_homedir = false;
  skip_databases = false;
  skip_email = false;
  alert_no_backup_days = pos 0;
  retention = one;
  repository_ids = 7 ∷ [];
  enabled = true;
}

abbrev approved : Repository
approved = record {
  id = 7;
  initialised_at = some 1;
  retention_approved_at = some 50;
  retention_approved_keeps = one;
  retention = record {
    planned_at = some 40;
    plan = [];
    planned_keeps = one;
    would_keep = 1;
    would_drop = 1;
    applied_at = none;
    dropped = 0;
    attempted_at = none;
    last_error = none;
  };
}

abbrev node : Node
node = record {
  policies = schedule ∷ [];
  repositories = approved ∷ [];
  jobs = [];
  restores = [];
  protect_account_removal = true;
}

abbrev backups : Group
backups = record {
  host = text "web1";
  tags = [];
  keep = record { id = text "fedcba9876543210"; time = 9; tags = [] } ∷ [];
  remove = record { id = text "0123456789abcdef"; time = 5; tags = [] } ∷ [];
  protected = false;
}

-- The preview comes first; the commands after it print nothing.
abbrev answer : Responder
answer [] command =
    some (record { exit_code = 0; stdout = group_array (backups ∷ []); truncated = false })
answer (c ∷ trace) command = some (record { exit_code = 0; stdout = blank; truncated = false })

abbrev world : World
world = record { opens = λ id. true; respond = answer }

-- A time at which the sweep is due again.
abbrev tonight : ℕ
tonight = 40 + retention_every

abbrev deletion : Command
deletion = text "forget" ∷ text "0123456789abcdef" ∷ []

deletes : is_deletion deletion ≡ true
unfolding is_deletion text_eq has_text
deletes = refl

merged_retention-least_bound_example :
    ((p : Policy)
      → Writes (schedule ∷ []) 7 p
      → AsGenerous p.retention (merged_retention (schedule ∷ []) 7))
    × AsGenerous no_retention (merged_retention (schedule ∷ []) 7)
    × ((s : Retention)
        → AsGenerous no_retention s
        → ((p : Policy) → Writes (schedule ∷ []) 7 p → AsGenerous p.retention s)
        → AsGenerous (merged_retention (schedule ∷ []) 7) s)
merged_retention-least_bound_example = merged_retention-least_bound (schedule ∷ []) 7

applied : In deletion (applied_commands (apply_retention world tonight 7 node))
unfolding apply_retention ◌>>=◌ lift forget_args run has_text check_ids valid_snapshot_id
    summarise_all
applied = inr (inl refl)

apply_retention-Approved_example : Agreed world node 7 deletion
apply_retention-Approved_example =
    apply_retention-Approved world tonight 7 node deletion applied deletes

abbrev asked : Command
asked =
    text "forget"
    ∷ text "--json"
    ∷ text "--keep-last"
    ∷ text "1"
    ∷ text "--group-by"
    ∷ text "host,tags"
    ∷ text "--dry-run"
    ∷ []

planned : In asked (planned_commands (plan_retention world tonight 7 node))
unfolding plan_retention ◌>>=◌ lift forget_args run has_text itoa
planned = inl refl

plan_retention-deletes_nothing_example : is_deletion asked ≡ false
plan_retention-deletes_nothing_example =
    plan_retention-deletes_nothing world tonight 7 node asked planned

after_now : 0 < tonight
after_now = omega arith

soon : 9 + tonight < tonight + retention_every
soon = omega arith

retention-PassesOver_example :
    (approved_keeps world 7 node ≡ ok one
      → PassesOver world (9 + tonight) 7 (applied_node (apply_retention world tonight 7 node)))
    × (retention_for node 7 ≡ ok one
        → open_repository world node 7 ≡ ok tt
        → PassesOver world (9 + tonight) 7 (planned_node (plan_retention world tonight 7 node)))
retention-PassesOver_example =
    retention-PassesOver world tonight 7 (9 + tonight) node one after_now soon

swept : In deletion (sweep_retention world tonight node).1
unfolding sweep_retention ◌>>=◌ lift forget_args run has_text check_ids valid_snapshot_id
    summarise_all
swept = inr (inl refl)

sweep_retention-Swept_example :
    (any_job_running node ≡ false) × Swept world tonight node.repositories node deletion
sweep_retention-Swept_example = sweep_retention-Swept world tonight node deletion swept deletes

abbrev agreed_node : Node
unfolding approve_retention
agreed_node = (approve_retention 60 7 node).1

agreed_to : approve_retention 60 7 node ≡ (ok tt, agreed_node)
unfolding approve_retention agreed_node
agreed_to = refl

-- A plan, a second schedule that writes elsewhere, and the approval.
abbrev planned_run : Result RetentionError (Unit {0}) × Node × List Command
unfolding plan_retention
planned_run = plan_retention world 50 7 node

abbrev edited_node : Node
edited_node = record (planned_node planned_run) {
  policies = schedule ∷ record schedule { id = 2; repository_ids = 8 ∷ [] } ∷ [];
}

abbrev agreed_after : Node
unfolding approve_retention
agreed_after = (approve_retention 60 7 edited_node).1

plan_succeeds : planned_result (plan_retention world 50 7 node) ≡ ok tt
unfolding plan_retention ◌>>=◌ lift forget_args run has_text check_ids valid_snapshot_id
    summarise_all
plan_succeeds = refl

row_is_planned :
    repository edited_node 7 ≡ repository (planned_node (plan_retention world 50 7 node)) 7
unfolding planned_run
row_is_planned = refl

edited_agreed_to : approve_retention 60 7 edited_node ≡ (ok tt, agreed_after)
unfolding approve_retention agreed_after planned_run plan_retention ◌>>=◌ lift forget_args run
    has_text check_ids valid_snapshot_id summarise_all
edited_agreed_to = refl

approve_retention-planned_example :
    (keeps : Retention) × (plan : ForgetPlan) × (stored : Repository) × (retention_for node 7
      ≡ ok keeps)
    × ((forget_planned answer (spec_for node 7 keeps true) []).0 ≡ ok plan)
    × (retention_for edited_node 7 ≡ ok keeps)
    × (repository agreed_after 7 ≡ some stored)
    × (stored.retention.plan ≡ plan_groups plan)
    × ((k : Retention) → retention_approval_covers stored k ≡ same_keeps keeps k)
approve_retention-planned_example =
    approve_retention-planned world 50 60 7 node edited_node agreed_after plan_succeeds
      row_is_planned edited_agreed_to

succeeds : applied_result (apply_retention world tonight 7 node) ≡ ok tt
unfolding apply_retention ◌>>=◌ lift forget_args run has_text check_ids valid_snapshot_id
    summarise_all
succeeds = refl

abbrev or_else : Repository → Option Repository → Repository
or_else d none = d
or_else d (some r) = r

abbrev cleaned : Repository
cleaned = or_else approved (repository (applied_node (apply_retention world tonight 7 node)) 7)

stays : repository (applied_node (apply_retention world tonight 7 node)) 7 ≡ some cleaned
unfolding apply_retention repository ◌>>=◌ lift forget_args run has_text check_ids valid_snapshot_id
    summarise_all
stays = refl

apply_retention-AppliedRecord_example :
    (keeps : Retention) × (plan : ForgetPlan) × (approved_keeps world 7 node ≡ ok keeps)
    × ((forget_planned answer (spec_for node 7 keeps false) []).0 ≡ ok plan)
    × AppliedRecord tonight 7 node plan cleaned
apply_retention-AppliedRecord_example =
    apply_retention-AppliedRecord world tonight 7 node cleaned succeeds stays

abbrev withdrawn_node : Node
unfolding withdraw_retention
withdrawn_node = (withdraw_retention 7 node).1

taken_back : withdraw_retention 7 node ≡ (ok tt, withdrawn_node)
unfolding withdraw_retention withdrawn_node
taken_back = refl

withdraw_retention-refuses_example :
    apply_retention world tonight 7 withdrawn_node ≡ (0, err not_approved, withdrawn_node, [])
withdraw_retention-refuses_example =
    withdraw_retention-refuses world tonight 7 node withdrawn_node taken_back

approve_retention-permits_example :
    (keeps : Retention) × (retention_for node 7 ≡ ok keeps)
    × (approved_keeps world 7 agreed_node ≡ ok keeps)
approve_retention-permits_example =
    approve_retention-permits world 60 7 node agreed_node agreed_to refl
