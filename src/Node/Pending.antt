-- ===== src/Node/Pending.antt =====
-- `PendingWork` of internal/nodestore/queries.go: what the worker runs next.
--
-- `sort.Slice` is an insertion sort: the comparison orders rows of different identities totally, so that
-- the sorted list does not depend on the algorithm.
pub mod Oldest
mod Tests
use cprestic.Common.{
  ℕ, ◌≤◌, ◌≡◌, refl, sym, ap, ◌∙◌, ◌⊎◌, inl, inr, Bool, true, false, not, ◌&&◌, ◌||◌, List, [], ◌∷◌,
  Option, none, some, some-injective, subst, Text, text_eq, ltb, leb, ◌==◌, if◌then◌else◌, sort_by,
  arith, any, any-false, In, Bool-cases, Option-cases,
}
use cprestic.Job.{Status}
use cprestic.Store.{is_pending}
use cprestic.Node.{Restore, Job, Node}

-- `a < b` on strings.
unfoldable pub text_lt : Text → Text → Bool
text_lt s [] = false
text_lt [] (b ∷ t) = true
text_lt (a ∷ s) (b ∷ t) = let rest = text_lt s t in if a == b then rest else ltb a b

-- The comparison of `Jobs` and `Restores`: newest first.
abbrev pub comes_before : ℕ → Text → ℕ → ℕ → Text → ℕ → Bool
comes_before at account id at2 account2 id2 =
    if not (at == at2)
    then ltb at2 at
    else if not (text_eq account account2)
    then text_lt account account2
    else ltb id id2

abbrev pub newer_job : Job → Job → Bool
newer_job a b = comes_before a.queued_at a.account a.id b.queued_at b.account b.id

abbrev pub newer_restore : Restore → Restore → Bool
newer_restore a b = comes_before a.queued_at a.account a.id b.queued_at b.account b.id

module _ {A : Type 0} where
  -- The loop that reads a listing from its end.
  abbrev pub or_else : Option A → Option A → Option A
  or_else none o = o
  or_else (some a) o = some a

  abbrev pub find_last : (A → Bool) → List A → Option A
  find_last p [] = none
  find_last p (x ∷ xs) = or_else (find_last p xs) (if p x then some x else none)

pub data Work : Type 0 where
  no_work : Work
  restore_work : Restore → Work
  backup_work : Job → Work

abbrev pub work_of : Option Restore → Option Job → Work
work_of (some r) o = restore_work r
work_of none (some j) = backup_work j
work_of none none = no_work

unfoldable pub pending_work : Node → Work
pending_work node =
    work_of (find_last (λ (r : Restore). is_pending r.status) (sort_by newer_restore node.restores))
      (find_last (λ (j : Job). is_pending j.status) (sort_by newer_job node.jobs))
