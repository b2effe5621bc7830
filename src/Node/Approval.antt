-- ===== src/Node/Approval.antt =====
-- What a deletion of `ApplyRetention` rests on, and the commands of a plan.
use cprestic.Common.{
  ℕ, ◌≡◌, refl, sym, ap, ◌∙◌, ◌⊎◌, inl, inr, Bool, true, false, List, [], some, ltb, if◌then◌else◌,
  arith, subst, In, Bool-cases, Option-cases, Result, ok, err, Result-cases, eq_of_eqℤ,
}
use cprestic.Restic.{ForgetPlan, ForgetError, Command}
use cprestic.Restic.Forget.{forget_planned, prune, prune_command}
use cprestic.Restic.Safe.Trace.{is_deletion, prune-Issues}
use cprestic.Restic.Safe.Deletions.{Deletes, forget_planned-Removable, forget_planned-dry_run}
use cprestic.Node.{Retention, RetentionError, Repository, Node, World}
use cprestic.Node.Keeps.{
  is_set, merged_retention, retention_for, same_keeps, empty_retention, forget_spec,
}
use cprestic.Node.Runs.{
  repository, spec_for, open_repository, approved_keeps, record_applied, reclaim, apply_retention,
  record_plan, plan_retention,
}

pub eq_of_same_keeps : (r s : Retention) → same_keeps r s ≡ true → r ≡ s
unfolding same_keeps
eq_of_same_keeps r s h =
    let a : r.keep_last ≡ s.keep_last = eq_of_eqℤ _ _ (ground arith) in
    let b : r.keep_daily ≡ s.keep_daily = eq_of_eqℤ _ _ (ground arith) in
    let c : r.keep_weekly ≡ s.keep_weekly = eq_of_eqℤ _ _ (ground arith) in
    let d : r.keep_monthly ≡ s.keep_monthly = eq_of_eqℤ _ _ (ground arith) in
    let e : r.keep_yearly ≡ s.keep_yearly = eq_of_eqℤ _ _ (ground arith) in cc

-- What an operator agreed to: the repository's approval, for the keeps that its schedules ask for now.
pub record Approved (node : Node) (id : ℕ) (keeps : Retention) : Type 0 where
  pub stored : Repository
  pub found : repository node id ≡ some stored
  pub approved : is_set stored.retention_approved_at ≡ true
  pub agreed : stored.retention_approved_keeps ≡ keeps
  pub current : merged_retention node.policies id ≡ keeps
  pub keeps_some : empty_retention keeps ≡ false

pub retention_for-eq :
    (node : Node) (id : ℕ) (keeps : Retention)
    → retention_for node id ≡ ok keeps
    → (merged_retention node.policies id ≡ keeps) × (empty_retention keeps ≡ false)
unfolding retention_for
retention_for-eq node id keeps h =
    elim (Bool-cases (empty_retention (merged_retention node.policies id))) [
      | inl t ↦ absurd (ground arith)
      | inr f ↦ let e : merged_retention node.policies id ≡ keeps = ground arith in (e, rw (← e) f)
    ]

approved_keeps-Approved :
    (world : World) (id : ℕ) (node : Node) (keeps : Retention)
    → approved_keeps world id node ≡ ok keeps
    → Approved node id keeps
unfolding approved_keeps
approved_keeps-Approved world id node keeps h = elim (Option-cases (repository node id)) [
  | inl e ↦ absurd (ground arith)
  | inr (stored, found) ↦ elim (Result-cases (retention_for node id)) [
    | inr (x, e) ↦ absurd (ground arith)
    | inl (k, e) ↦
        let same : same_keeps k stored.retention_approved_keeps ≡ true = ground arith in
        let here : k ≡ keeps = ground (arith, Result-cases (open_repository world node id)) in
        let (current, some_kept) = retention_for-eq node id k e in
        record {
          stored = stored;
          found = found;
          approved = ground arith;
          agreed = sym (eq_of_same_keeps _ _ same) ∙ here;
          current = current ∙ here;
          keeps_some = rw (← here) some_kept;
        }
  ]
]

-- The commands that a run issued.
abbrev pub applied_commands :
    ℕ × Result RetentionError (Unit {0}) × Node × List Command → List Command
applied_commands (n, r, after, commands) = commands

abbrev pub planned_commands : Result RetentionError (Unit {0}) × Node × List Command → List Command
planned_commands (r, after, commands) = commands

record_applied-commands :
    (now id : ℕ) (plan : ForgetPlan) (node : Node)
    (x : Result ForgetError (Unit {0}) × List Command)
    → applied_commands (record_applied now id plan node x) ≡ x.1
unfolding record_applied
record_applied-commands now id plan node (ok u, commands) = refl
record_applied-commands now id plan node (err e, commands) = refl

reclaim-commands :
    (world : World) (now id : ℕ) (node : Node) (x : Result ForgetError ForgetPlan × List Command)
    (c : Command)
    → In c (applied_commands (reclaim world now id node x))
    → In c x.1 ⊎ (c ≡ prune_command)
unfolding reclaim
reclaim-commands world now id node (err e, commands) c m = inl m
reclaim-commands world now id node (ok plan, commands) c m =
    pruned (ltb 0 plan.removed) (subst (In c) (record_applied-commands now id plan node _) m)
  where
    pruned :
        (b : Bool)
        → In c (if b then prune world.respond commands else (ok tt, commands)).1
        → In c commands ⊎ (c ≡ prune_command)
    pruned true i = (prune-Issues (λ d. d ≡ prune_command) world.respond commands refl).issued c i
    pruned false i = inl i

record_plan-commands :
    (now id : ℕ) (keeps : Retention) (node : Node)
    (x : Result ForgetError ForgetPlan × List Command)
    → planned_commands (record_plan now id keeps node x) ≡ x.1
unfolding record_plan
record_plan-commands now id keeps node (ok plan, commands) = refl
record_plan-commands now id keeps node (err e, commands) = refl

-- What a deletion of `ApplyRetention` rests on.
pub record Agreed (world : World) (node : Node) (id : ℕ) (c : Command) : Type 0 where
  pub keeps : Retention
  pub approval : Approved node id keeps
  pub deletion : Deletes world.respond (spec_for node id keeps false) c ⊎ (c ≡ prune_command)

pub apply_retention-refused :
    (world : World) (now id : ℕ) (node : Node) (x : RetentionError)
    → approved_keeps world id node ≡ err x
    → apply_retention world now id node ≡ (0, err x, node, [])
unfolding apply_retention
apply_retention-refused world now id node x e = rw (e, apply_retention) refl

pub apply_retention-forgets :
    (world : World) (now id : ℕ) (node : Node) (keeps : Retention)
    → approved_keeps world id node ≡ ok keeps
    → apply_retention world now id node
      ≡ reclaim world now id node (forget_planned world.respond (spec_for node id keeps false) [])
unfolding apply_retention
apply_retention-forgets world now id node keeps e = rw (e, apply_retention) refl

-- A command of `ApplyRetention` that deletes: the repository was approved, for exactly the keeps that its
-- schedules ask for at the time of the run, and these keep something; and the command forgets what a
-- preview under these keeps accounts for, or is the prune that reclaims the space.
pub apply_retention-Approved :
    (world : World) (now id : ℕ) (node : Node) (c : Command)
    → In c (applied_commands (apply_retention world now id node))
    → is_deletion c ≡ true
    → Agreed world node id c
apply_retention-Approved world now id node c m d =
    elim (Result-cases (approved_keeps world id node)) [
      | inr (x, e) ↦ absurd (subst (In c) (refused x e) m)
      | inl (keeps, e) ↦ record {
        keeps = keeps;
        approval = approved_keeps-Approved world id node keeps e;
        deletion =
            elim (reclaim-commands world now id node _ c
              (subst (λ x. In c (applied_commands x)) (forgets keeps e) m)) [
                | inl i ↦ inl (forget_planned-Removable world.respond _ c i d)
                | inr p ↦ inr p
              ];
      }
    ]
  where
    refused :
        (x : RetentionError)
        → approved_keeps world id node ≡ err x
        → applied_commands (apply_retention world now id node) ≡ []
    refused x e = ap applied_commands (apply_retention-refused world now id node x e)

    forgets :
        (keeps : Retention)
        → approved_keeps world id node ≡ ok keeps
        → apply_retention world now id node
          ≡ reclaim world now id node
              (forget_planned world.respond (spec_for node id keeps false) [])
    forgets keeps e = apply_retention-forgets world now id node keeps e

pub plan_retention-forgets :
    (world : World) (now id : ℕ) (node : Node) (keeps : Retention)
    → retention_for node id ≡ ok keeps
    → open_repository world node id ≡ ok tt
    → plan_retention world now id node
      ≡ record_plan now id keeps node
          (forget_planned world.respond (spec_for node id keeps true) [])
unfolding plan_retention
plan_retention-forgets world now id node keeps e f = rw (e, f, plan_retention) refl

plan_retention-refused :
    (world : World) (now id : ℕ) (node : Node)
    → ((x : RetentionError) × (retention_for node id ≡ err x))
      ⊎ ((keeps : Retention) × (x : RetentionError) × (retention_for node id ≡ ok keeps)
          × (open_repository world node id ≡ err x))
    → planned_commands (plan_retention world now id node) ≡ []
unfolding plan_retention
plan_retention-refused world now id node (inl (x, e)) = ground arith
plan_retention-refused world now id node (inr (keeps, x, e, f)) = ground arith

-- A plan deletes nothing, whatever restic answers.
pub plan_retention-deletes_nothing :
    (world : World) (now id : ℕ) (node : Node) (c : Command)
    → In c (planned_commands (plan_retention world now id node))
    → is_deletion c ≡ false
unfolding spec_for forget_spec
plan_retention-deletes_nothing world now id node c m = elim (Result-cases (retention_for node id)) [
  | inr (x, e) ↦ absurd (subst (In c) (plan_retention-refused world now id node (inl (x, e))) m)
  | inl (keeps, e) ↦ elim (Result-cases (open_repository world node id)) [
    | inr (x, f) ↦
        absurd (subst (In c) (plan_retention-refused world now id node (inr (keeps, x, e, f))) m)
    | inl (u, f) ↦ forget_planned-dry_run world.respond (spec_for node id keeps true) refl c (
        subst (In c)
          (ap planned_commands (plan_retention-forgets world now id node keeps e f)
            ∙ record_plan-commands now id keeps node _)
          m)
  ]
]
