-- ===== src/Node/Removal/Written.antt =====
-- What `PutJobs` writes for `QueueRemovalPreparation`.
use cprestic.Common.{
  ℕ, suc, ◌+◌, ◌≤◌, ◌≡◌, refl, sym, ap, ◌∙◌, inl, inr, Bool, true, false, not, ◌||◌, List, [], ◌∷◌,
  ◌++◌, none, Text, ◌==◌, arith, filter, any, Bool-cases,
}
use cprestic.Job.{Status}
use cprestic.Node.{Policy, Job, Node}
use cprestic.Node.Removal.Queue.{put_jobs, put_each, fill_from, filled, new_job, new_jobs}

-- The rows that `PutJobs` adds where its identities are new: one pending job for each policy, in their
-- order, a nanosecond apart.
abbrev pub queued : (ℕ → ℕ) → ℕ → Text → ℕ → Policy → Job
queued new_id clock account i p = record {
  id = new_id i;
  policy_id = p.id;
  account = account;
  complete_account = false;
  status = Status.pending;
  targets = [];
  queued_at = clock + i;
  finished_at = none;
}

unfoldable pub preparation : (ℕ → ℕ) → ℕ → Text → ℕ → List Policy → List Job
preparation new_id clock account i [] = []
preparation new_id clock account i (p ∷ ps) =
    queued new_id clock account i p ∷ preparation new_id clock account (suc i) ps

fill_from-preparation :
    (new_id : ℕ → ℕ) (clock : ℕ) (account : Text) (i : ℕ) (ps : List Policy)
    → fill_from new_id clock i (new_jobs account ps) ≡ preparation new_id clock account i ps
unfolding fill_from new_jobs preparation
fill_from-preparation new_id clock account i [] = refl
fill_from-preparation new_id clock account i (p ∷ ps) =
    ap (λ rest. filled (new_id i) clock i (new_job account p) ∷ rest)
      (fill_from-preparation new_id clock account (suc i) ps)

filter_all :
    (n : ℕ) (js : List Job)
    → any (λ (k : Job). k.id == n) js ≡ false
    → filter (λ (k : Job). not (k.id == n)) js ≡ js
filter_all n [] h = refl
filter_all n (j ∷ js) h = elim (Bool-cases (j.id == n)) [
  | inl t ↦ absurd (ground (arith, t, h))
  | inr f ↦ rw f (ap (λ rest. j ∷ rest) (filter_all n js (ground (arith, f, h))))
]

abbrev pub IsFresh : (ℕ → ℕ) → ℕ → List Job → Type 0
IsFresh new_id i stored = (k : ℕ) → i ≤ k → any (λ (j : Job). j.id == new_id k) stored ≡ false

any-snoc : (p : Job → Bool) (xs : List Job) (y : Job) → any p (xs ++ y ∷ []) ≡ (any p xs || p y)
any-snoc p [] y = ground arith
any-snoc p (x ∷ xs) y = ground (arith, any-snoc p xs y)

append-snoc : (xs ys : List Job) (y : Job) → (xs ++ y ∷ []) ++ ys ≡ xs ++ y ∷ ys
append-snoc [] ys y = refl
append-snoc (x ∷ xs) ys y = ap (λ rest. x ∷ rest) (append-snoc xs ys y)

append_nil : (xs : List Job) → xs ++ [] ≡ xs
append_nil [] = refl
append_nil (x ∷ xs) = ap (λ rest. x ∷ rest) (append_nil xs)

put_each-preparation :
    (new_id : ℕ → ℕ) (clock : ℕ) (account : Text) (i : ℕ) (ps : List Policy) (stored : List Job)
    → ((a b : ℕ) → (new_id a == new_id b) ≡ true → a ≡ b)
    → IsFresh new_id i stored
    → put_each (preparation new_id clock account i ps) stored
      ≡ stored ++ preparation new_id clock account i ps
unfolding put_each preparation
put_each-preparation new_id clock account i [] stored d f = sym (append_nil stored)
put_each-preparation new_id clock account i (p ∷ ps) stored d f =
    let j = queued new_id clock account i p in
    let rest = preparation new_id clock account (suc i) ps in
    ap (put_each rest) (ap (λ js. js ++ j ∷ []) (filter_all (new_id i) stored (f i (omega arith))))
    ∙ put_each-preparation new_id clock account (suc i) ps (stored ++ j ∷ []) d still_fresh
    ∙ append-snoc stored rest j
  where
    still_fresh : IsFresh new_id (suc i) (stored ++ queued new_id clock account i p ∷ [])
    still_fresh k l = elim (Bool-cases (new_id i == new_id k)) [
      | inl t ↦ absurd (omega (arith, d i k t, l))
      | inr n ↦ ground (
        arith,
        any-snoc (λ (j : Job). j.id == new_id k) stored (queued new_id clock account i p),
        f k (omega (arith, l)),
        n,
      )
    ]

pub put_jobs-preparation :
    (new_id : ℕ → ℕ) (clock : ℕ) (account : Text) (ps : List Policy) (node : Node)
    → ((a b : ℕ) → (new_id a == new_id b) ≡ true → a ≡ b)
    → IsFresh new_id 0 node.jobs
    → put_jobs new_id clock (new_jobs account ps) node
      ≡ record node { jobs = node.jobs ++ preparation new_id clock account 0 ps }
unfolding put_jobs
put_jobs-preparation new_id clock account ps node d f =
    ap (λ js. record node { jobs = js })
      (ap (λ js. put_each js node.jobs) (fill_from-preparation new_id clock account 0 ps)
        ∙ put_each-preparation new_id clock account 0 ps node.jobs d f)
