-- ===== src/Node/Swept.antt =====
-- What the sweep may delete.
use cprestic.Common.{
  ℕ, ◌≡◌, refl, subst, ◌⊎◌, inl, inr, true, false, List, [], ◌∷◌, arith, In, Bool-cases,
  Result-cases,
}
use cprestic.Restic.{Command}
use cprestic.Restic.Safe.Trace.{is_deletion}
use cprestic.Node.{Repository, Node, World}
use cprestic.Node.Keeps.{is_set, retention_for, retention_approval_covers}
use cprestic.Node.Runs.{apply_retention, plan_retention}
use cprestic.Node.Sweep.{attempted_recently, any_job_running, sweep_from, sweep_retention}
use cprestic.Node.Approval.{
  Agreed, applied_commands, planned_commands, apply_retention-Approved,
  plan_retention-deletes_nothing,
}

-- The repository that a deletion of the sweep is about, and why it was its turn.
pub record Swept (world : World) (now : ℕ) (repos : List Repository) (node : Node) (c : Command)
    : Type 0 where
  pub repo : Repository
  pub listed : In repo repos
  pub initialised : is_set repo.initialised_at ≡ true
  pub due : attempted_recently now repo.retention ≡ false
  pub agreed : Agreed world node repo.id c

later_Swept :
    (world : World) (now : ℕ) (r : Repository) (repos : List Repository) (node : Node) (c : Command)
    → Swept world now repos node c
    → Swept world now (r ∷ repos) node c
later_Swept world now r repos node c s = record {
  repo = s.repo;
  listed = inr s.listed;
  initialised = s.initialised;
  due = s.due;
  agreed = s.agreed;
}

-- The three things that one turn of the loop may come to.
turn_cases :
    (world : World) (now : ℕ) (repo : Repository) (repos : List Repository) (node : Node)
    → let commands = (sweep_from world now (repo ∷ repos) node).1 in
      (commands ≡ (sweep_from world now repos node).1)
      ⊎ (commands ≡ planned_commands (plan_retention world now repo.id node))
      ⊎ ((is_set repo.initialised_at ≡ true)
          × (attempted_recently now repo.retention ≡ false)
          × (commands ≡ applied_commands (apply_retention world now repo.id node)))
unfolding sweep_from
turn_cases world now repo repos node = elim (Bool-cases (is_set repo.initialised_at)) [
  | inr f ↦ inl (ground arith)
  | inl i ↦ elim (Bool-cases (attempted_recently now repo.retention)) [
    | inl t ↦ inl (ground arith)
    | inr d ↦ elim (Result-cases (retention_for node repo.id)) [
      | inr (x, e) ↦ inl (ground arith)
      | inl (keeps, e) ↦ elim (Bool-cases (retention_approval_covers repo keeps)) [
        | inr n ↦ inr (inl (ground arith))
        | inl y ↦ inr (inr (i, d, ground arith))
      ]
    ]
  ]
]

sweep_from-Swept :
    (world : World) (now : ℕ) (repos : List Repository) (node : Node) (c : Command)
    → In c (sweep_from world now repos node).1
    → is_deletion c ≡ true
    → Swept world now repos node c
unfolding sweep_from
sweep_from-Swept world now [] node c m d = absurd m
sweep_from-Swept world now (repo ∷ repos) node c m d = elim (turn_cases world now repo repos node) [
  | inl e ↦
      later_Swept world now repo repos node c
        (sweep_from-Swept world now repos node c (subst (In c) e m) d)
  | inr (inl e) ↦
      absurd (deleted (plan_retention-deletes_nothing world now repo.id node c (subst (In c) e m)))
  | inr (inr (i, r, e)) ↦ record {
    repo = repo;
    listed = inl refl;
    initialised = i;
    due = r;
    agreed = apply_retention-Approved world now repo.id node c (subst (In c) e m) d;
  }
]
  where
    deleted : is_deletion c ≡ false → ⊥
    deleted f = cc

-- A command of the sweep that deletes: no backup and no restore was in flight, and the command belongs to
-- a repository of the node that is initialised, was not looked at in the last twenty hours, and is
-- approved for the keeps that its schedules ask for now.
pub sweep_retention-Swept :
    (world : World) (now : ℕ) (node : Node) (c : Command)
    → In c (sweep_retention world now node).1
    → is_deletion c ≡ true
    → (any_job_running node ≡ false) × Swept world now node.repositories node c
unfolding sweep_retention
sweep_retention-Swept world now node c m d = elim (Bool-cases (any_job_running node)) [
  | inl t ↦ absurd (subst (In c) (busy t) m)
  | inr f ↦ (f, sweep_from-Swept world now node.repositories node c (subst (In c) (idle f) m) d)
]
  where
    busy : any_job_running node ≡ true → (sweep_retention world now node).1 ≡ []
    busy t = ground arith

    idle :
        any_job_running node ≡ false
        → (sweep_retention world now node).1 ≡ (sweep_from world now node.repositories node).1
    idle f = ground arith
