-- ===== src/Node/Backoff.antt =====
-- What a run notes in the repository, and what the sweep makes of it.
use cprestic.Common.{
  ℕ, ◌+◌, ◌≤◌, ◌<◌, ◌≡◌, sym, ap, ◌∙◌, subst, inl, inr, true, false, List, [], ◌∷◌, none, some,
  arith, find, filter, not, In, In-update_cases, if◌then◌else◌, Bool-cases, refl, Option-cases,
  Result, ok, err, Result-cases,
}
use cprestic.Restic.{ForgetPlan, ForgetError, Command}
use cprestic.Node.{Retention, RetentionError, RetentionState, Repository, Node, World}
use cprestic.Node.Keeps.{retention_for}
use cprestic.Node.Runs.{
  has_id, repository, put_repository, record_retention, retention_failed, failed_state,
  planned_state, applied_state, approved_keeps, record_applied, reclaim, apply_retention,
  record_plan, plan_retention, open_repository,
}
use cprestic.Node.Sweep.{
  retention_every, last_retention_attempt, attempted_recently, any_job_running, sweep_from,
  sweep_retention,
}
use cprestic.Node.Approval.{apply_retention-forgets, plan_retention-forgets}
use cprestic.Node.Recorded.{
  applied_node, planned_node, repository-id, record_retention-found, record_retention-missing,
}

attempted_recently-after :
    (now later : ℕ) (s : RetentionState)
    → now ≤ last_retention_attempt s
    → 0 < now
    → later < now + retention_every
    → attempted_recently later s ≡ true
unfolding attempted_recently
attempted_recently-after now later s h p q = ground arith

-- What a change must do for the sweep to wait: note the time.
abbrev Notes : ℕ → (RetentionState → RetentionState) → Type 0
Notes now change = (s : RetentionState) → now ≤ last_retention_attempt (change s)

-- The rows of a repository were looked at less than the sweep's interval before `later`.
abbrev pub Rests : ℕ → ℕ → Node → Type 0
Rests later id node =
    (r : Repository)
    → In r node.repositories
    → has_id id r ≡ true
    → attempted_recently later r.retention ≡ true

-- A write replaces every row of the repository.
put_repository-rows :
    (r x : Repository) (node : Node)
    → In x (put_repository r node).repositories
    → has_id r.id x ≡ true
    → r ≡ x
unfolding put_repository
put_repository-rows r x node m h =
    let (a, _, e) = In-update_cases (has_id r.id) (λ old. r) x node.repositories m in
    elim (Bool-cases (has_id r.id a)) [
      | inl t ↦ rw t at e
      | inr f ↦ absurd (let same : a ≡ x = rw f at e in ground (arith, f, h, ap (has_id r.id) same))
    ]

find-none-In :
    (id : ℕ) (x : Repository) (rs : List Repository)
    → find (has_id id) rs ≡ none
    → In x rs
    → has_id id x ≡ false
find-none-In id x [] e m = absurd m
find-none-In id x (r ∷ rs) e m = elim (Bool-cases (has_id id r)) [
  | inl t ↦ absurd (let y : some r ≡ none = rw t at e in cc)
  | inr f ↦ elim m [
    | inl s ↦ ap (has_id id) (sym s) ∙ f
    | inr n ↦ find-none-In id x rs (rw f at e) n
  ]
]

record_retention-Rests :
    (change : RetentionState → RetentionState) (now id later : ℕ) (node : Node)
    → Notes now change
    → 0 < now
    → later < now + retention_every
    → Rests later id (record_retention change id node).1
unfolding repository
record_retention-Rests change now id later node notes p q r m h =
    elim (Option-cases (repository node id)) [
      | inl n ↦ absurd (
          let i =
            subst (λ (v : Node). In r v.repositories) (record_retention-missing change id node n)
              m in
          let f = find-none-In id r node.repositories n i in cc)
      | inr (old, o) ↦
          let changed = record old { retention = change old.retention } in
          let i =
            subst (λ (v : Node). In r v.repositories) (record_retention-found change id node old o)
              m in
          let e =
            put_repository-rows changed r node i
              (ap (λ k. has_id k r) (repository-id node id old o) ∙ h) in
          rw (← e)
            (attempted_recently-after now later (change old.retention) (notes old.retention) p q)
    ]

failed-Notes : (cause : RetentionError) (now : ℕ) → Notes now (failed_state cause now)
unfolding failed_state last_retention_attempt
failed-Notes cause now s = ground arith

planned-Notes :
    (keeps : Retention) (plan : ForgetPlan) (now : ℕ) → Notes now (planned_state keeps plan now)
unfolding planned_state last_retention_attempt
planned-Notes keeps plan now s =
    ground (arith, Option-cases s.attempted_at, Option-cases s.applied_at)

applied-Notes : (plan : ForgetPlan) (now : ℕ) → Notes now (applied_state plan now)
unfolding applied_state last_retention_attempt
applied-Notes plan now s = ground (arith, Option-cases s.attempted_at)

module _ (now id later : ℕ) (node : Node) (p : 0 < now) (q : later < now + retention_every) where
  retention_failed-Rests :
      (cause : RetentionError) → Rests later id (retention_failed cause now id node).1
  unfolding retention_failed
  retention_failed-Rests cause =
      record_retention-Rests (failed_state cause now) now id later node (failed-Notes cause now) p q

  record_applied-Rests :
      (plan : ForgetPlan) (x : Result ForgetError (Unit {0}) × List Command)
      → Rests later id (applied_node (record_applied now id plan node x))
  unfolding record_applied
  record_applied-Rests plan (err e, commands) = retention_failed-Rests _
  record_applied-Rests plan (ok u, commands) =
      record_retention-Rests (applied_state plan now) now id later node (applied-Notes plan now) p q

  reclaim-Rests :
      (world : World) (x : Result ForgetError ForgetPlan × List Command)
      → Rests later id (applied_node (reclaim world now id node x))
  unfolding reclaim
  reclaim-Rests world (err e, commands) = retention_failed-Rests _
  reclaim-Rests world (ok plan, commands) = record_applied-Rests plan _

  record_plan-Rests :
      (keeps : Retention) (x : Result ForgetError ForgetPlan × List Command)
      → Rests later id (planned_node (record_plan now id keeps node x))
  unfolding record_plan
  record_plan-Rests keeps (err e, commands) = retention_failed-Rests _
  record_plan-Rests keeps (ok plan, commands) =
      record_retention-Rests (planned_state keeps plan now) now id later node
        (planned-Notes keeps plan now) p q

-- The repositories of a database but one.
abbrev pub others : ℕ → List Repository → List Repository
others id repos = filter (λ r. not (has_id id r)) repos

sweep_from-tails :
    (world : World) (later : ℕ) (r : Repository) (rs ss : List Repository) (node : Node)
    → sweep_from world later rs node ≡ sweep_from world later ss node
    → sweep_from world later (r ∷ rs) node ≡ sweep_from world later (r ∷ ss) node
unfolding sweep_from
sweep_from-tails world later r rs ss node h = elim (Result-cases (retention_for node r.id)) [
  | inl (k, e) ↦ rw e (ground (arith, h))
  | inr (x, e) ↦ rw e (ground (arith, h))
]

sweep_from-others :
    (world : World) (later id : ℕ) (repos : List Repository) (node : Node)
    → ((r : Repository)
        → In r repos
        → has_id id r ≡ true
        → attempted_recently later r.retention ≡ true)
    → sweep_from world later repos node ≡ sweep_from world later (others id repos) node
unfolding sweep_from
sweep_from-others world later id [] node h = refl
sweep_from-others world later id (r ∷ rs) node h =
    let rest = sweep_from-others world later id rs node (λ x m. h x (inr m)) in
    elim (Bool-cases (has_id id r)) [
      | inl t ↦ let a = h r (inl refl) t in rw (t, a) (ground (arith, rest))
      | inr f ↦ rw f (sweep_from-tails world later r rs (others id rs) node rest)
    ]

-- The sweep goes over the database as if the repository were not in it.
abbrev pub PassesOver : World → ℕ → ℕ → Node → Type 0
PassesOver world later id node = sweep_retention world later node ≡ (
    if any_job_running node
    then (node, [])
    else sweep_from world later (others id node.repositories) node)

sweep_retention-PassesOver :
    (world : World) (later id : ℕ) (node : Node)
    → Rests later id node
    → PassesOver world later id node
unfolding sweep_retention
sweep_retention-PassesOver world later id node h =
    rw (sweep_from-others world later id node.repositories node h) refl

-- Once its guards let `ApplyRetention` run restic, or once `PlanRetention` has opened the repository, at a time that
-- is not the zero time, a sweep of the database that the run leaves passes the repository over for the next twenty
-- hours, and only goes through the others: whether the forget failed, the prune failed, or all went well.
pub retention-PassesOver :
    (world : World) (now id later : ℕ) (node : Node) (keeps : Retention)
    → 0 < now
    → later < now + retention_every
    → (approved_keeps world id node ≡ ok keeps
        → PassesOver world later id (applied_node (apply_retention world now id node)))
      × (retention_for node id ≡ ok keeps
          → open_repository world node id ≡ ok tt
          → PassesOver world later id (planned_node (plan_retention world now id node)))
retention-PassesOver world now id later node keeps p q = (
  λ e. sweep_retention-PassesOver world later id _ (
      subst (λ x. Rests later id (applied_node x))
        (sym (apply_retention-forgets world now id node keeps e))
        (reclaim-Rests now id later node p q world _)),
  λ e o. sweep_retention-PassesOver world later id _ (
      subst (λ x. Rests later id (planned_node x))
        (sym (plan_retention-forgets world now id node keeps e o))
        (record_plan-Rests now id later node p q keeps _)),
)
