-- ===== src/Node/Removal/Prepared.antt =====
-- What `QueueRemovalPreparation` queues.
use cprestic.Common.{
  ℕ, ◌≤◌, ◌≡◌, ◌↔◌, refl, sym, ap, ◌∙◌, subst, ◌⊎◌, inl, inr, Bool, true, false, not, ◌||◌, List,
  [], ◌∷◌, ◌++◌, Option, Text, text_eq, ℤ, ltb, leb, ◌==◌, if◌then◌else◌, length, filter, first_of,
  not_empty, In-any, any-false, any_of_In, In, In-filter_intro, Bool-cases, ok, err, ok-injective,
}
use cprestic.Node.{Policy, Job, Node}
use cprestic.Node.Removal.Cover.{contains, minimum_policy_cover}
use cprestic.Node.Removal.Cover.Candidates.{writes_to, covers_each, contains_of_In}
use cprestic.Node.Removal.Cover.Greedy.{IsCover}
use cprestic.Node.Removal.Cover.Minimum.{minimum_policy_cover-least}
use cprestic.Node.Removal.Safety.{
  Schedule, Detail, refused, insert, sorted_ids, promise_of, promises_from, take_jobs, never_at,
  stale_at, is_promised, removal_decision, account_removal_safety,
}
use cprestic.Node.Removal.Promised.{PromisedBy, promises_from_sound}
use cprestic.Node.Removal.Queue.{
  running_job_for, put_jobs, new_jobs, candidates_for, QueueError, queue_selected,
  queue_removal_preparation,
}
use cprestic.Node.Removal.Written.{preparation, IsFresh, put_jobs-preparation}

In-insert : (r s : ℕ) (xs : List ℕ) → In s (insert r xs) → (r ≡ s) ⊎ In s xs
In-insert r s [] m = m
In-insert r s (x ∷ xs) m = elim (Bool-cases (leb r x)) [
  | inl t ↦ rw t at m
  | inr f ↦ elim (rw f at m) [
    | inl e ↦ inr (inl e)
    | inr n ↦ elim (In-insert r s xs n) [ inl e ↦ inl e | inr k ↦ inr (inr k) ]
  ]
]

In-sorted_ids :
    (test : ℕ × ℤ → Bool) (es : List (ℕ × ℤ)) (r : ℕ)
    → In r (sorted_ids test es)
    → (d : ℤ) × In (r, d) es
unfolding sorted_ids
In-sorted_ids test [] r m = absurd m
In-sorted_ids test (e ∷ es) r m = elim (Bool-cases (test e)) [
  | inl t ↦ elim (In-insert e.0 r (sorted_ids test es) (rw t at m)) [
    | inl x ↦ (e.1, inl (ap (λ k. (k, e.1)) x))
    | inr n ↦ let (d, k) = In-sorted_ids test es r n in (d, inr k)
  ]
  | inr f ↦ let (d, k) = In-sorted_ids test es r (rw f at m) in (d, inr k)
]

In-missing :
    (a b c : Bool) (never : Detail) (missing : List ℕ) (r : ℕ)
    → In r
        (if a
          then refused Detail.no_account []
          else if b
          then refused Detail.no_policy []
          else if c
          then refused never missing
          else record {
            enforced = false;
            allowed = true;
            detail = Detail.recent;
            missing_repository_ids = [];
          }).missing_repository_ids
    → In r missing
In-missing true b c never missing r m = absurd m
In-missing false true c never missing r m = absurd m
In-missing false false true never missing r m = m
In-missing false false false never missing r m = absurd m

-- A missing copy is one that a policy promises.
missing-PromisedBy :
    (parse : Text → Option Schedule) (account : Text) (now : ℕ) (policies : List Policy)
    (jobs : List Job) (r : ℕ)
    → In r (removal_decision parse account now policies jobs).missing_repository_ids
    → (d : ℤ) × PromisedBy parse account now policies r d
unfolding removal_decision
missing-PromisedBy parse account now policies jobs r m =
    let known = (promises_from parse account now policies ([], [])).0 in
    let latest = take_jobs (promises_from parse account now policies ([], [])) jobs [] in
    let (d, n) =
      In-sorted_ids (λ e. never_at latest e || stale_at now latest e) known r
        (In-missing (length account == 0) (length known == 0)
          (ltb 0 (length (sorted_ids (never_at latest) known))
            || ltb 0 (length (sorted_ids (stale_at now latest) known)))
          _ _ r m) in
    elim (promises_from_sound parse account now policies [] [] r d n) [
      | inl p ↦ (d, p)
      | inr k ↦ absurd k
    ]

module _ (parse : Text → Option Schedule) (account : Text) (now : ℕ) (node : Node) where
  abbrev pub missing_for : List ℕ
  missing_for = (account_removal_safety parse account now node).missing_repository_ids

  missing_promised :
      (r : ℕ) → In r missing_for → (d : ℤ) × PromisedBy parse account now node.policies r d
  unfolding account_removal_safety
  missing_promised r m = elim (Bool-cases node.protect_account_removal) [
    | inl t ↦
        missing-PromisedBy parse account now node.policies
          (filter (λ (j : Job). text_eq j.account account) node.jobs) r (rw t at m)
    | inr f ↦ absurd (rw f at m)
  ]

  candidates_cover : covers_each (candidates_for parse account now node) missing_for ≡ true
  candidates_cover = ap not (any-false _ missing_for (λ r m. ap not (written r m)))
    where
      written :
          (r : ℕ) → In r missing_for → writes_to (candidates_for parse account now node) r ≡ true
      written r m =
          let (d, (p, n, e, i)) = missing_promised r m in
          any_of_In (λ q. contains q.repository_ids r) p (candidates_for parse account now node)
            (In-filter_intro (λ q. is_promised (promise_of parse account now q)) p node.policies n
              (rw e refl))
            (contains_of_In r p.repository_ids i)

  selected_for : List Policy
  selected_for = minimum_policy_cover missing_for (candidates_for parse account now node)

  selected-IsCover : IsCover (candidates_for parse account now node) missing_for selected_for
  unfolding selected_for
  selected-IsCover =
      (minimum_policy_cover-least missing_for (candidates_for parse account now node) _ (λ p m. m)
        candidates_cover).0

  selected_some : (length missing_for == 0) ≡ false → (length selected_for == 0) ≡ false
  selected_some h =
      let (r, m) = first_of missing_for h in
      let (p, n, w) =
        In-any (λ q. contains q.repository_ids r) selected_for (selected-IsCover.1 r m) in
      not_empty p selected_for n

  -- The guards of `QueueRemovalPreparation`, all passed.
  abbrev pub IsPreparable : Type 0
  IsPreparable =
      (node.protect_account_removal ≡ true)
      × ((account_removal_safety parse account now node).allowed ≡ false)
      × ((length missing_for == 0) ≡ false)
      × (running_job_for account node ≡ false)

account_removal_safety-enforced :
    (parse : Text → Option Schedule) (account : Text) (now : ℕ) (node : Node)
    → (account_removal_safety parse account now node).enforced ≡ node.protect_account_removal
unfolding account_removal_safety
account_removal_safety-enforced parse account now node =
    elim (Bool-cases node.protect_account_removal) [ inl t ↦ rw t refl | inr f ↦ rw f refl ]

-- The answer is positive exactly if the guards pass.
queue_removal_preparation-eq :
    (parse : Text → Option Schedule) (new_id : ℕ → ℕ) (clock : ℕ) (account : Text) (now : ℕ)
    (node : Node)
    → IsPreparable parse account now node
    → queue_removal_preparation parse new_id clock account now node
      ≡ ok (
        selected_for parse account now node,
        put_jobs new_id clock (new_jobs account (selected_for parse account now node)) node,
      )
unfolding queue_removal_preparation queue_selected selected_for
queue_removal_preparation-eq parse new_id clock account now node (p, a, m, b) =
    let e : (account_removal_safety parse account now node).enforced ≡ true =
      account_removal_safety-enforced parse account now node ∙ p in
    rw (e, a, m, selected_some parse account now node m, b) refl

preparable_of_ok :
    (parse : Text → Option Schedule) (new_id : ℕ → ℕ) (clock : ℕ) (account : Text) (now : ℕ)
    (node : Node) (answer : List Policy × Node)
    → queue_removal_preparation parse new_id clock account now node ≡ ok answer
    → IsPreparable parse account now node
unfolding queue_removal_preparation queue_selected selected_for
preparable_of_ok parse new_id clock account now node answer h =
    let decision = account_removal_safety parse account now node in
    elim (Bool-cases decision.enforced) [
      | inr f ↦ absurd (let x : err QueueError.not_enforced ≡ ok answer = rw f at h in cc)
      | inl t ↦ elim (Bool-cases decision.allowed) [
        | inl a ↦ absurd (let x : err QueueError.already_allowed ≡ ok answer = rw (t, a) at h in cc)
        | inr a ↦ elim (Bool-cases (length decision.missing_repository_ids == 0)) [
          | inl m ↦ absurd (
              let x : err (QueueError.cannot_prepare decision.detail) ≡ ok answer =
                rw (t, a, m) at h in
              cc)
          | inr m ↦ elim (Bool-cases (running_job_for account node)) [
            | inl b ↦ absurd (
                let x : err QueueError.busy ≡ ok answer =
                  rw (t, a, m, selected_some parse account now node m, b) at h in
                cc)
            | inr b ↦ (sym (account_removal_safety-enforced parse account now node) ∙ t, a, m, b)
          ]
        ]
      ]
    ]

-- The preparation succeeds exactly when protection is on, the account may not be removed yet, some
-- repository misses its copy and nothing of the account is in flight: the schedules that promise the
-- missing copies can always refresh them.
pub queue_removal_preparation-succeeds :
    (parse : Text → Option Schedule) (new_id : ℕ → ℕ) (clock : ℕ) (account : Text) (now : ℕ)
    (node : Node)
    → ((answer : List Policy × Node) × (queue_removal_preparation parse new_id clock account now
            node
          ≡ ok answer))
      ↔ IsPreparable parse account now node
queue_removal_preparation-succeeds parse new_id clock account now node = (
  λ (answer, e). preparable_of_ok parse new_id clock account now node answer e,
  λ g. (_, queue_removal_preparation-eq parse new_id clock account now node g),
)

-- What a successful preparation chose and queued.
abbrev pub Prepared :
    (Text → Option Schedule) → (ℕ → ℕ) → ℕ → Text → ℕ → Node → List Policy → Node → Type 0
Prepared parse new_id clock account now node selected after =
    IsCover (candidates_for parse account now node) (missing_for parse account now node) selected
    × ((chosen : List Policy)
        → ((p : Policy) → In p chosen → In p (candidates_for parse account now node))
        → covers_each chosen (missing_for parse account now node) ≡ true
        → length selected ≤ length chosen)
    × (after ≡ record node { jobs = node.jobs ++ preparation new_id clock account 0 selected })

selected_for-Prepared :
    (parse : Text → Option Schedule) (new_id : ℕ → ℕ) (clock : ℕ) (account : Text) (now : ℕ)
    (node : Node)
    → ((a b : ℕ) → (new_id a == new_id b) ≡ true → a ≡ b)
    → IsFresh new_id 0 node.jobs
    → Prepared parse new_id clock account now node
        (selected_for parse account now node)
        (put_jobs new_id clock (new_jobs account (selected_for parse account now node)) node)
unfolding selected_for
selected_for-Prepared parse new_id clock account now node d f = (
  selected-IsCover parse account now node,
  λ chosen sub c.
      (minimum_policy_cover-least (missing_for parse account now node)
        (candidates_for parse account now node) chosen sub c).1,
  put_jobs-preparation new_id clock account (selected_for parse account now node) node d f,
)

-- When the preparation succeeds, and the identities drawn are distinct and no job has one of them yet: the
-- policies chosen are enabled full-account policies of the node, each missing repository has one of them that
-- writes to it, no other such choice has fewer policies, and the node gains exactly one pending job for the
-- account for each chosen policy, in their order and queued a nanosecond apart.
pub queue_removal_preparation-Prepared :
    (parse : Text → Option Schedule) (new_id : ℕ → ℕ) (clock : ℕ) (account : Text) (now : ℕ)
    (node after : Node) (selected : List Policy)
    → ((a b : ℕ) → (new_id a == new_id b) ≡ true → a ≡ b)
    → IsFresh new_id 0 node.jobs
    → queue_removal_preparation parse new_id clock account now node ≡ ok (selected, after)
    → Prepared parse new_id clock account now node selected after
queue_removal_preparation-Prepared parse new_id clock account now node after selected d f h =
    let g = preparable_of_ok parse new_id clock account now node (selected, after) h in
    let e =
      ok-injective (sym (queue_removal_preparation-eq parse new_id clock account now node g) ∙ h) in
    subst (λ v. Prepared parse new_id clock account now node v.0 v.1) e
      (selected_for-Prepared parse new_id clock account now node d f)
