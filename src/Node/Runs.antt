-- ===== src/Node/Runs.antt =====
-- internal/node/retention.go: planning, applying, approving and withdrawing. Each operation gives its
-- result, the database after it, and, where it runs restic, the commands that it issued, oldest first.
use cprestic.Common.{
  ℕ, Bool, true, false, not, List, [], Option, none, some, ltb, ◌==◌, if◌then◌else◌, find, update,
  Result, ok, err,
}
use cprestic.Restic.{ForgetError, ForgetSpec, ForgetPlan, Command}
use cprestic.Restic.Forget.{forget_planned, prune}
use cprestic.Node.{
  Retention, RetentionError, not_found, not_opened, not_approved, keeps_changed, nothing_planned,
  plan_outdated, forget_failed, prune_failed, RetentionState, Repository, Node, World,
}
use cprestic.Node.Keeps.{
  no_retention, forget_spec, retention_for, same_keeps, is_set, incomplete_snapshots, plan_groups,
}

-- `Store.Repository` and `Store.PutRepository` of a repository that has an id.
abbrev pub has_id : ℕ → Repository → Bool
has_id id repo = repo.id == id

unfoldable pub repository : Node → ℕ → Option Repository
repository node id = find (has_id id) node.repositories

unfoldable pub put_repository : Repository → Node → Node
put_repository repo node = record node {
  repositories = update (has_id repo.id) (λ old. repo) node.repositories;
}

unfoldable pub record_retention :
    (RetentionState → RetentionState) → ℕ → Node → Result RetentionError (Unit {0}) × Node
unfolding repository put_repository
record_retention change id node = elim (repository node id) [
  | none ↦ (err not_found, node)
  | some stored ↦
      (ok tt, put_repository (record stored { retention = change stored.retention }) node)
]

-- `retentionFailed`: the cause goes back to the caller, whether it could be recorded or not.
unfoldable pub failed_state : RetentionError → ℕ → RetentionState → RetentionState
failed_state cause now state = record state { attempted_at = some now; last_error = some cause }

unfoldable pub retention_failed : RetentionError → ℕ → ℕ → Node → RetentionError × Node
unfolding record_retention failed_state
retention_failed cause now id node = (cause, (record_retention (failed_state cause now) id node).1)

-- The specification of a run: the keeps, and the snapshots that must stay.
unfoldable pub spec_for : Node → ℕ → Retention → Bool → ForgetSpec
unfolding forget_spec incomplete_snapshots
spec_for node id keeps dry_run = record (forget_spec keeps dry_run false) {
  protected_snapshot_ids = incomplete_snapshots node.jobs id;
}

unfoldable pub planned_state : Retention → ForgetPlan → ℕ → RetentionState → RetentionState
unfolding plan_groups
planned_state keeps plan now state = record state {
  planned_at = some now;
  planned_keeps = keeps;
  plan = plan_groups plan;
  would_keep = plan.kept;
  would_drop = plan.removed;
  last_error = none;
}

-- `OpenRepository`.
unfoldable pub open_repository : World → Node → ℕ → Result RetentionError (Unit {0})
unfolding repository
open_repository world node id = elim (repository node id) [
  | none ↦ err not_found
  | some repo ↦ if world.opens id then ok tt else err not_opened
]

-- `PlanRetention` after restic answered.
unfoldable pub record_plan :
    ℕ
    → ℕ
    → Retention
    → Node
    → Result ForgetError ForgetPlan × List Command
    → Result RetentionError (Unit {0}) × Node × List Command
unfolding retention_failed record_retention planned_state
record_plan now id keeps node (err e, commands) =
    let (cause, after) = retention_failed (forget_failed e) now id node in
    (err cause, after, commands)
record_plan now id keeps node (ok plan, commands) =
    let (r, after) = record_retention (planned_state keeps plan now) id node in (r, after, commands)

unfoldable pub plan_retention :
    World → ℕ → ℕ → Node → Result RetentionError (Unit {0}) × Node × List Command
unfolding retention_for open_repository spec_for forget_planned record_plan
plan_retention world now id node = elim (retention_for node id) [
  | err e ↦ (err e, node, [])
  | ok keeps ↦ elim (open_repository world node id) [
    | err e ↦ (err e, node, [])
    | ok u ↦
        record_plan now id keeps node
          (forget_planned world.respond (spec_for node id keeps true) [])
  ]
]

-- The guards of `ApplyRetention`, in order; the keeps it runs under.
unfoldable pub approved_keeps : World → ℕ → Node → Result RetentionError Retention
unfolding repository retention_for same_keeps open_repository
approved_keeps world id node = elim (repository node id) [
  | none ↦ err not_found
  | some stored ↦
      if not (is_set stored.retention_approved_at)
      then err not_approved
      else elim (retention_for node id) [
        | err e ↦ err e
        | ok keeps ↦
            if not (same_keeps keeps stored.retention_approved_keeps)
            then err keeps_changed
            else elim (open_repository world node id) [ err e ↦ err e | ok u ↦ ok keeps ]
      ]
]

unfoldable pub applied_state : ForgetPlan → ℕ → RetentionState → RetentionState
unfolding plan_groups
applied_state plan now state = record state {
  applied_at = some now;
  dropped = plan.removed;
  planned_at = some now;
  plan = plan_groups plan;
  would_keep = plan.kept;
  would_drop = 0;
  last_error = none;
}

-- The end of `ApplyRetention`, after the prune or without one. Go returns the number of snapshots removed
-- beside the error.
unfoldable pub record_applied :
    ℕ
    → ℕ
    → ForgetPlan
    → Node
    → Result ForgetError (Unit {0}) × List Command
    → ℕ × Result RetentionError (Unit {0}) × Node × List Command
unfolding retention_failed record_retention applied_state
record_applied now id plan node (err e, commands) =
    let (cause, after) = retention_failed (prune_failed e) now id node in
    (plan.removed, err cause, after, commands)
record_applied now id plan node (ok u, commands) =
    let (r, after) = record_retention (applied_state plan now) id node in
    (plan.removed, r, after, commands)

-- `ApplyRetention` after its forget: reclaim the space if anything went.
unfoldable pub reclaim :
    World
    → ℕ
    → ℕ
    → Node
    → Result ForgetError ForgetPlan × List Command
    → ℕ × Result RetentionError (Unit {0}) × Node × List Command
unfolding prune retention_failed record_applied
reclaim world now id node (err e, commands) =
    let (cause, after) = retention_failed (forget_failed e) now id node in
    (0, err cause, after, commands)
reclaim world now id node (ok plan, commands) =
    record_applied now id plan node
      (if ltb 0 plan.removed then prune world.respond commands else (ok tt, commands))

unfoldable pub apply_retention :
    World → ℕ → ℕ → Node → ℕ × Result RetentionError (Unit {0}) × Node × List Command
unfolding approved_keeps spec_for forget_planned reclaim
apply_retention world now id node = elim (approved_keeps world id node) [
  | err e ↦ (0, err e, node, [])
  | ok keeps ↦
      reclaim world now id node (forget_planned world.respond (spec_for node id keeps false) [])
]

-- `ApproveRetention`.
unfoldable pub approve_retention : ℕ → ℕ → Node → Result RetentionError (Unit {0}) × Node
unfolding repository retention_for same_keeps put_repository
approve_retention now id node = elim (repository node id) [
  | none ↦ (err not_found, node)
  | some stored ↦
      if not (is_set stored.retention.planned_at)
      then (err nothing_planned, node)
      else elim (retention_for node id) [
        | err e ↦ (err e, node)
        | ok keeps ↦
            if not (same_keeps keeps stored.retention.planned_keeps)
            then (err plan_outdated, node)
            else (
              ok tt,
              put_repository
                  (record stored {
                    retention_approved_at = some now;
                    retention_approved_keeps = keeps;
                  })
                  node,
            )
      ]
]

-- `WithdrawRetention`.
unfoldable pub withdraw_retention : ℕ → Node → Result RetentionError (Unit {0}) × Node
unfolding repository put_repository
withdraw_retention id node = elim (repository node id) [
  | none ↦ (err not_found, node)
  | some stored ↦ (
    ok tt,
    put_repository
        (record stored { retention_approved_at = none; retention_approved_keeps = no_retention })
        node,
  )
]
