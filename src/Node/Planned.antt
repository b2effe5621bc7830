-- ===== src/Node/Planned.antt =====
-- `PlanRetention` and then `ApproveRetention`: what an operator approves when the plan is what was last recorded.
use cprestic.Common.{
  ℕ, ◌≡◌, refl, sym, ap, ◌∙◌, inl, inr, true, List, [], some, arith, Result, ok, err, Result-cases,
}
use cprestic.Restic.{ForgetPlan, ForgetError, Command}
use cprestic.Restic.Forget.{forget_planned}
use cprestic.Node.{Retention, RetentionError, RetentionState, Repository, Node, World}
use cprestic.Node.Keeps.{
  plan_groups, retention_for, same_keeps, plan_approvable, retention_approval_covers,
}
use cprestic.Node.Runs.{
  repository, spec_for, planned_state, record_plan, retention_failed, plan_retention,
  open_repository, approve_retention,
}
use cprestic.Node.Approval.{eq_of_same_keeps, plan_retention-forgets}
use cprestic.Node.Recorded.{planned_node, record_retention-stored}
use cprestic.Node.Agreement.{approve_retention-ApprovedPlan}

abbrev pub planned_result :
    Result RetentionError (Unit {0}) × Node × List Command → Result RetentionError (Unit {0})
planned_result (r, after, commands) = r

-- The plan on record is what restic gave, labelled with these keeps.
abbrev pub IsPlanned : Retention → ForgetPlan → Repository → Type 0
IsPlanned keeps plan stored =
    (stored.retention.planned_keeps ≡ keeps) × (stored.retention.plan ≡ plan_groups plan)

record_plan-IsPlanned :
    (now id : ℕ) (keeps : Retention) (node : Node)
    (x : Result ForgetError ForgetPlan × List Command) (stored : Repository)
    → planned_result (record_plan now id keeps node x) ≡ ok tt
    → repository (planned_node (record_plan now id keeps node x)) id ≡ some stored
    → (plan : ForgetPlan) × (x.0 ≡ ok plan) × IsPlanned keeps plan stored
unfolding record_plan retention_failed
record_plan-IsPlanned now id keeps node (err e, commands) stored h f = cc
record_plan-IsPlanned now id keeps node (ok plan, commands) stored h f =
    let (old, o, c) = record_retention-stored (planned_state keeps plan now) id node stored f in
    (
      plan,
      refl,
      (
        ap (λ (v : RetentionState). v.planned_keeps) (sym c),
        ap (λ (v : RetentionState). v.plan) (sym c),
      ),
    )

plan_retention-opens :
    (world : World) (now id : ℕ) (node : Node)
    → planned_result (plan_retention world now id node) ≡ ok tt
    → (keeps : Retention) × (retention_for node id ≡ ok keeps)
      × (open_repository world node id ≡ ok tt)
unfolding plan_retention
plan_retention-opens world now id node h = elim (Result-cases (retention_for node id)) [
  | inr (x, e) ↦ absurd (ground arith)
  | inl (keeps, e) ↦ elim (Result-cases (open_repository world node id)) [
    | inr (x, o) ↦ absurd (ground arith)
    | inl (u, o) ↦ (keeps, e, o)
  ]
]

-- The plan of a `PlanRetention` that succeeded.
plan_retention-IsPlanned :
    (world : World) (now id : ℕ) (node : Node) (stored : Repository)
    → planned_result (plan_retention world now id node) ≡ ok tt
    → repository (planned_node (plan_retention world now id node)) id ≡ some stored
    → (keeps : Retention) × (plan : ForgetPlan) × (retention_for node id ≡ ok keeps)
      × ((forget_planned world.respond (spec_for node id keeps true) []).0 ≡ ok plan)
      × IsPlanned keeps plan stored
plan_retention-IsPlanned world now id node stored h f =
    let (keeps, e, o) = plan_retention-opens world now id node h in
    let run = plan_retention-forgets world now id node keeps e o in
    let (plan, p, i) =
      record_plan-IsPlanned now id keeps node _ stored (sym (ap planned_result run) ∙ h)
        (ap (λ x. repository (planned_node x) id) (sym run) ∙ f) in
    (keeps, plan, e, p, i)

planned_keeps-eq :
    (old : Repository) (keeps : Retention)
    → plan_approvable old keeps ≡ true
    → old.retention.planned_keeps ≡ keeps
unfolding plan_approvable
planned_keeps-eq old keeps h = eq_of_same_keeps _ _ (ground arith)

-- An approval after a plan. `PlanRetention` succeeded, and its row of the repository is still there when
-- `ApproveRetention` succeeds, whatever became of the schedules, the jobs and the other repositories in between. Then
-- the plan on record is what the dry run gave under the keeps of that time; the schedules ask for the same keeps at the
-- approval; and the approval covers exactly these.
pub approve_retention-planned :
    (world : World) (now later id : ℕ) (node edited after : Node)
    → planned_result (plan_retention world now id node) ≡ ok tt
    → repository edited id ≡ repository (planned_node (plan_retention world now id node)) id
    → approve_retention later id edited ≡ (ok tt, after)
    → (keeps : Retention) × (plan : ForgetPlan) × (stored : Repository) × (retention_for node id
        ≡ ok keeps)
      × ((forget_planned world.respond (spec_for node id keeps true) []).0 ≡ ok plan)
      × (retention_for edited id ≡ ok keeps)
      × (repository after id ≡ some stored)
      × (stored.retention.plan ≡ plan_groups plan)
      × ((k : Retention) → retention_approval_covers stored k ≡ same_keeps keeps k)
approve_retention-planned world now later id node edited after h same a =
    let p = approve_retention-ApprovedPlan later id edited after a in
    let (keeps, plan, e, dry, i) =
      plan_retention-IsPlanned world now id node p.old h (sym same ∙ p.found) in
    let agreed = sym i.0 ∙ planned_keeps-eq p.old p.keeps p.approvable in
    (
      keeps,
      plan,
      p.stored,
      e,
      dry,
      rw agreed p.current,
      p.kept,
      ap (λ (v : RetentionState). v.plan) p.plan_kept ∙ i.1,
      rw agreed p.covers,
    )
