-- ===== src/Node/Agreement.antt =====
-- What an approval is for, and what the plan on record says after a run.
use cprestic.Common.{
  ℕ, ◌≡◌, refl, sym, ap, ◌∙◌, inl, inr, true, false, List, [], ◌∷◌, none, some, arith, find, update,
  Bool-cases, Option-cases, Result, ok, err, Result-cases, ==_refl, eqℤ_refl,
}
use cprestic.Restic.{ForgetPlan, ForgetError, Command}
use cprestic.Restic.Forget.{forget_planned}
use cprestic.Node.{Retention, RetentionError, RetentionState, Repository, Node, World}
use cprestic.Node.Keeps.{
  is_set, plan_groups, retention_for, same_keeps, plan_approvable, retention_approval_covers,
}
use cprestic.Node.Runs.{
  has_id, repository, put_repository, retention_failed, applied_state, record_applied, reclaim,
  approved_keeps, apply_retention, approve_retention, spec_for,
}
use cprestic.Node.Approval.{eq_of_same_keeps, apply_retention-forgets, apply_retention-refused}
use cprestic.Node.Recorded.{applied_node, record_retention-stored, repository-id}

abbrev pub applied_result :
    ℕ × Result RetentionError (Unit {0}) × Node × List Command → Result RetentionError (Unit {0})
applied_result (n, r, after, commands) = r

-- What is on record of a repository after a run at the time `now` removed what `plan` says: the plan is this one, with
-- nothing left to drop, but the keeps that it may be approved for are those of the plan before.
pub record AppliedRecord (now id : ℕ) (node : Node) (plan : ForgetPlan) (stored : Repository)
    : Type 0 where
  pub old : Repository
  pub found : repository node id ≡ some old
  pub planned_at : stored.retention.planned_at ≡ some now
  pub groups : stored.retention.plan ≡ plan_groups plan
  pub would_keep : stored.retention.would_keep ≡ plan.kept
  pub would_drop : stored.retention.would_drop ≡ 0
  pub applied_at : stored.retention.applied_at ≡ some now
  pub dropped : stored.retention.dropped ≡ plan.removed
  pub approvable :
      (k : Retention) → plan_approvable stored k ≡ same_keeps old.retention.planned_keeps k

record_applied-AppliedRecord :
    (now id : ℕ) (plan : ForgetPlan) (node : Node)
    (x : Result ForgetError (Unit {0}) × List Command) (stored : Repository)
    → applied_result (record_applied now id plan node x) ≡ ok tt
    → repository (applied_node (record_applied now id plan node x)) id ≡ some stored
    → AppliedRecord now id node plan stored
unfolding record_applied retention_failed plan_approvable same_keeps
record_applied-AppliedRecord now id plan node (err e, commands) stored h f = cc
record_applied-AppliedRecord now id plan node (ok u, commands) stored h f =
    let (old, o, c) = record_retention-stored (applied_state plan now) id node stored f in
    record {
      old = old;
      found = o;
      planned_at = ap (λ (v : RetentionState). v.planned_at) (sym c);
      groups = ap (λ (v : RetentionState). v.plan) (sym c);
      would_keep = ap (λ (v : RetentionState). v.would_keep) (sym c);
      would_drop = ap (λ (v : RetentionState). v.would_drop) (sym c);
      applied_at = ap (λ (v : RetentionState). v.applied_at) (sym c);
      dropped = ap (λ (v : RetentionState). v.dropped) (sym c);
      approvable = λ k. rw (← c) refl;
    }

reclaim-AppliedRecord :
    (world : World) (now id : ℕ) (node : Node) (x : Result ForgetError ForgetPlan × List Command)
    (stored : Repository)
    → applied_result (reclaim world now id node x) ≡ ok tt
    → repository (applied_node (reclaim world now id node x)) id ≡ some stored
    → (plan : ForgetPlan) × (x.0 ≡ ok plan) × AppliedRecord now id node plan stored
unfolding reclaim retention_failed
reclaim-AppliedRecord world now id node (err e, commands) stored h f = cc
reclaim-AppliedRecord world now id node (ok plan, commands) stored h f =
    (plan, refl, record_applied-AppliedRecord now id plan node _ stored h f)

-- After `ApplyRetention` succeeded, the plan, the counts and the times on record are those of the run: of the plan that
-- restic gave under the approved keeps, at the time `now`. But a keep policy may be approved for it exactly when it is
-- the one that labels the plan before, whatever keeps the run applied.
pub apply_retention-AppliedRecord :
    (world : World) (now id : ℕ) (node : Node) (stored : Repository)
    → applied_result (apply_retention world now id node) ≡ ok tt
    → repository (applied_node (apply_retention world now id node)) id ≡ some stored
    → (keeps : Retention) × (plan : ForgetPlan) × (approved_keeps world id node ≡ ok keeps)
      × ((forget_planned world.respond (spec_for node id keeps false) []).0 ≡ ok plan)
      × AppliedRecord now id node plan stored
apply_retention-AppliedRecord world now id node stored h f =
    elim (Result-cases (approved_keeps world id node)) [
      | inl (keeps, e) ↦
          let run = apply_retention-forgets world now id node keeps e in
          let (plan, p, left) =
            reclaim-AppliedRecord world now id node _ stored (sym (ap applied_result run) ∙ h)
              (ap (λ x. repository (applied_node x) id) (sym run) ∙ f) in
          (keeps, plan, e, p, left)
      | inr (x, e) ↦
          absurd
            (failed x (sym (ap applied_result (apply_retention-refused world now id node x e)) ∙ h))
    ]
  where
    failed : (x : RetentionError) → ◌≡◌ {A = Result RetentionError (Unit {0})} (err x) (ok tt) → ⊥
    failed x e = cc

pub same_keeps_refl : (r : Retention) → same_keeps r r ≡ true
unfolding same_keeps
same_keeps_refl r =
    rw
      (
        eqℤ_refl r.keep_last,
        eqℤ_refl r.keep_daily,
        eqℤ_refl r.keep_weekly,
        eqℤ_refl r.keep_monthly,
        eqℤ_refl r.keep_yearly,
      )
      refl

find-update_hit :
    (id : ℕ) (r old : Repository) (rs : List Repository)
    → has_id id r ≡ true
    → find (has_id id) rs ≡ some old
    → find (has_id id) (update (has_id id) (λ x. r) rs) ≡ some r
find-update_hit id r old [] h e = cc
find-update_hit id r old (s ∷ rs) h e = ground (arith, find-update_hit id r old rs h)

pub repository-put_repository_hit :
    (node : Node) (r old : Repository)
    → repository node r.id ≡ some old
    → repository (put_repository r node) r.id ≡ some r
unfolding repository put_repository
repository-put_repository_hit node r old e =
    find-update_hit r.id r old node.repositories (==_refl r.id) e

-- What an operator approves: a plan was on record, under the label of the keeps that the schedules ask for at that
-- moment, and from then on the approval covers exactly these keeps.
pub record ApprovedPlan (node after : Node) (id : ℕ) : Type 0 where
  pub old : Repository
  pub found : repository node id ≡ some old
  pub keeps : Retention
  pub current : retention_for node id ≡ ok keeps
  pub approvable : plan_approvable old keeps ≡ true
  pub policies_kept : after.policies ≡ node.policies
  pub stored : Repository
  pub kept : repository after id ≡ some stored
  pub plan_kept : stored.retention ≡ old.retention
  pub covers : (k : Retention) → retention_approval_covers stored k ≡ same_keeps keeps k

approve_retention-stored :
    (now id : ℕ) (node after : Node) (old : Repository) (keeps : Retention)
    → repository node id ≡ some old
    → retention_for node id ≡ ok keeps
    → approve_retention now id node ≡ (ok tt, after)
    → (plan_approvable old keeps ≡ true)
      × (put_repository
            (record old { retention_approved_at = some now; retention_approved_keeps = keeps })
            node
          ≡ after)
unfolding approve_retention plan_approvable
approve_retention-stored now id node after old keeps found current h =
    elim (Bool-cases (is_set old.retention.planned_at)) [
      | inr f ↦ absurd (ground arith)
      | inl t ↦ elim (Bool-cases (same_keeps keeps old.retention.planned_keeps)) [
        | inr f ↦ absurd (ground arith)
        | inl s ↦ (
          rw (eq_of_same_keeps keeps old.retention.planned_keeps s, t)
              (same_keeps_refl old.retention.planned_keeps),
          ground arith,
        )
      ]
    ]

approve_retention-none :
    (now id : ℕ) (node after : Node)
    → repository node id ≡ none
    → approve_retention now id node ≡ (ok tt, after)
    → ⊥
unfolding approve_retention
approve_retention-none now id node after n h = ground arith

approve_retention-no_keeps :
    (now id : ℕ) (node after : Node) (old : Repository) (x : RetentionError)
    → repository node id ≡ some old
    → retention_for node id ≡ err x
    → approve_retention now id node ≡ (ok tt, after)
    → ⊥
unfolding approve_retention
approve_retention-no_keeps now id node after old x found e h =
    elim (Bool-cases (is_set old.retention.planned_at)) [
      | inl t ↦ ground arith
      | inr f ↦ ground arith
    ]

-- An approval that succeeds is for the keeps of the moment, which the label of the plan on record names.
pub approve_retention-ApprovedPlan :
    (now id : ℕ) (node after : Node)
    → approve_retention now id node ≡ (ok tt, after)
    → ApprovedPlan node after id
unfolding retention_approval_covers put_repository
approve_retention-ApprovedPlan now id node after h = elim (Option-cases (repository node id)) [
  | inl n ↦ absurd (approve_retention-none now id node after n h)
  | inr (old, found) ↦ elim (Result-cases (retention_for node id)) [
    | inr (x, e) ↦ absurd (approve_retention-no_keeps now id node after old x found e h)
    | inl (keeps, current) ↦
        let (approvable, e) =
          approve_retention-stored now id node after old keeps found current h in
        let stored = record old {
          retention_approved_at = some now;
          retention_approved_keeps = keeps;
        } in
        let same = repository-id node id old found in
        record {
          old = old;
          found = found;
          keeps = keeps;
          current = current;
          approvable = approvable;
          policies_kept = rw (← e) refl;
          stored = stored;
          kept =
              rw (← e, ← same)
                (repository-put_repository_hit node stored old (ap (repository node) same ∙ found));
          plan_kept = refl;
          covers = λ k. refl;
        }
  ]
]
