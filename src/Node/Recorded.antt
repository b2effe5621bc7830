-- ===== src/Node/Recorded.antt =====
-- `recordRetention` of internal/node/retention.go: what is in the database after a change of a repository's row.
use cprestic.Common.{
  ℕ, ◌≡◌, sym, ap, ◌∙◌, inl, inr, true, List, [], ◌∷◌, Option, none, some, arith, find, update,
  Option-cases, find-In, Result, ==_refl,
}
use cprestic.Restic.{Command}
use cprestic.Node.{RetentionError, RetentionState, Repository, Node}
use cprestic.Node.Runs.{has_id, repository, put_repository, record_retention}

abbrev pub applied_node : ℕ × Result RetentionError (Unit {0}) × Node × List Command → Node
applied_node (n, r, after, commands) = after

abbrev pub planned_node : Result RetentionError (Unit {0}) × Node × List Command → Node
planned_node (r, after, commands) = after

find-update_all :
    (id : ℕ) (r x : Repository) (rs : List Repository)
    → has_id id r ≡ true
    → find (has_id id) (update (has_id id) (λ old. r) rs) ≡ some x
    → r ≡ x
find-update_all id r x [] h e = cc
find-update_all id r x (s ∷ rs) h e = ground (arith, find-update_all id r x rs h)

repository-put_repository :
    (node : Node) (r x : Repository) → repository (put_repository r node) r.id ≡ some x → r ≡ x
unfolding repository put_repository
repository-put_repository node r x e = find-update_all r.id r x node.repositories (==_refl r.id) e

pub repository-id :
    (node : Node) (id : ℕ) (r : Repository) → repository node id ≡ some r → r.id ≡ id
unfolding repository
repository-id node id r e = let (m, h) = find-In (has_id id) r node.repositories e in ground arith

pub record_retention-found :
    (change : RetentionState → RetentionState) (id : ℕ) (node : Node) (old : Repository)
    → repository node id ≡ some old
    → (record_retention change id node).1
      ≡ put_repository (record old { retention = change old.retention }) node
unfolding record_retention
record_retention-found change id node old o = ground arith

pub record_retention-missing :
    (change : RetentionState → RetentionState) (id : ℕ) (node : Node)
    → repository node id ≡ none
    → (record_retention change id node).1 ≡ node
unfolding record_retention
record_retention-missing change id node o = ground arith

pub record_retention-stored :
    (change : RetentionState → RetentionState) (id : ℕ) (node : Node) (stored : Repository)
    → repository (record_retention change id node).1 id ≡ some stored
    → (old : Repository) × (repository node id ≡ some old)
      × (change old.retention ≡ stored.retention)
record_retention-stored change id node stored e = elim (Option-cases (repository node id)) [
  | inl n ↦
      let same = record_retention-missing change id node n in
      absurd (none_some (sym n ∙ ap (λ m. repository m id) (sym same) ∙ e))
  | inr (old, o) ↦
      let changed = record old { retention = change old.retention } in
      let here : repository (put_repository changed node) id ≡ some stored =
        ap (λ m. repository m id) (sym (record_retention-found change id node old o)) ∙ e in
      (
        old,
        o,
        ap (λ (r : Repository). r.retention)
            (repository-put_repository node changed stored
              (ap (repository (put_repository changed node)) (repository-id node id old o) ∙ here)),
      )
]
  where
    none_some : ◌≡◌ {A = Option Repository} none (some stored) → ⊥
    none_some h = cc
