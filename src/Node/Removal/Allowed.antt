-- ===== src/Node/Removal/Allowed.antt =====
-- What `AccountRemovalSafety` allows.
use cprestic.Common.{
  ℕ, ◌<◌, ◌≡◌, ◌≢◌, ◌↔◌, refl, sym, ap, ◌∙◌, inl, inr, true, false, not, ◌&&◌, ◌||◌, List, [],
  Option, none, some, Text, text_eq, ℤ, ltbℤ, ltbℤ_trans, sub_time, sub_time-le, ltb, ◌==◌, arith,
  length, filter, first_of, not_empty, In, Bool-cases, Option-cases, lookup, lookup-In,
}
use cprestic.Job.{Status, TargetStatus}
use cprestic.Node.{Policy, JobTarget, Job, Node}
use cprestic.Node.Removal.Cover.Candidates.{contains_of_In, In_of_contains}
use cprestic.Node.Removal.Safety.{
  Schedule, promise_of, promises_from, take_jobs, is_complete, is_success, is_stored, is_promised,
  copied_at, never_at, stale_at, sorted_ids, removal_decision, account_removal_safety,
  full_account_policy,
}
use cprestic.Node.Removal.Promised.{
  PromisedBy, FullPolicy, promises_from_sound, promises_from-AtMost, promises_from-full,
  full-promises_from,
}
use cprestic.Node.Removal.Copies.{IsCopy, AtLeast-take_jobs, take_jobs-IsCopy}
use cprestic.Node.Removal.Listed.{
  none_listed, listed_none, length_of_ne, repository_of_full, allowed_of,
}

-- A recent complete copy, as the comment of `AccountRemovalSafety` words it.
module _ (parse : Text → Option Schedule) (account : Text) (now : ℕ) where
  abbrev pub CopyAt : List Policy → List Job → ℕ → ℕ → Type 0
  CopyAt policies jobs r at =
      (j : Job) × In j jobs
      × (j.status ≡ Status.success)
      × (j.complete_account ≡ true)
      × FullPolicy parse account now policies j.policy_id
      × (t : JobTarget) × In t j.targets
      × (t.status ≡ TargetStatus.success)
      × (t.incomplete ≡ false)
      × (t.repository_id ≡ r)
      × (copied_at j ≡ at)
      × (0 < at)

  abbrev pub RecentCopies : List Policy → List Job → Type 0
  RecentCopies policies jobs =
      (r : ℕ) (due : ℤ)
      → PromisedBy parse account now policies r due
      → (at : ℕ) × CopyAt policies jobs r at × (ltbℤ due (sub_time now at) ≡ false)

is_success-eq : (s : Status) → is_success s ≡ true → s ≡ Status.success
is_success-eq Status.success h = refl
is_success-eq Status.pending h = cc
is_success-eq Status.running h = cc
is_success-eq Status.partial_success h = cc
is_success-eq Status.failed h = cc
is_success-eq Status.cancelled h = cc

is_stored-eq : (s : TargetStatus) → is_stored s ≡ true → s ≡ TargetStatus.success
is_stored-eq TargetStatus.success h = refl
is_stored-eq TargetStatus.pending h = cc
is_stored-eq TargetStatus.running h = cc
is_stored-eq TargetStatus.failed h = cc
is_stored-eq TargetStatus.skipped h = cc

module _ (parse : Text → Option Schedule) (account : Text) (now : ℕ) (policies : List Policy)
    (jobs : List Job) where
  abbrev known : List (ℕ × ℤ)
  known = (promises_from parse account now policies ([], [])).0

  abbrev full : List ℕ
  full = (promises_from parse account now policies ([], [])).1

  abbrev latest : List (ℕ × ℕ)
  latest = take_jobs (known, full) jobs []

  CopyAt-IsCopy : (r at : ℕ) → IsCopy full jobs r at → CopyAt parse account now policies jobs r at
  CopyAt-IsCopy r at (j, m, c, (t, n, s, i, e), a, l) = (
    j,
    m,
    is_success-eq j.status (ground (arith, c)),
    ground (arith, c),
    policy,
    t,
    n,
    is_stored-eq t.status s,
    i,
    e,
    a,
    l,
  )
    where
      policy : FullPolicy parse account now policies j.policy_id
      policy =
          elim (promises_from-full parse account now policies [] [] j.policy_id
            (In_of_contains j.policy_id full (ground (arith, c)))) [ inl f ↦ f | inr n ↦ absurd n ]

  IsCopy-CopyAt : (r at : ℕ) → CopyAt parse account now policies jobs r at → IsCopy full jobs r at
  IsCopy-CopyAt r at (j, m, c, d, f, t, n, s, i, e, a, l) =
      (j, m, complete, (t, n, ap is_stored s, i, e), a, l)
    where
      complete : is_complete full j ≡ true
      complete =
          let x : is_success j.status ≡ true = ap is_success c in
          let y =
            contains_of_In j.policy_id full
              (full-promises_from parse account now policies [] [] j.policy_id f) in
          ground (arith, x, d, y)

  abbrev Settled : Type 0
  Settled =
      (r : ℕ) (d : ℤ)
      → In (r, d) known
      → (never_at latest (r, d) ≡ false) × (stale_at now latest (r, d) ≡ false)

  settled-recent : Settled → RecentCopies parse account now policies jobs
  settled-recent h r due p =
      let (d, e, l) = promises_from-AtMost parse account now policies [] [] r due p in
      let (n, s) = h r d (lookup-In r d known e) in
      elim (Option-cases (lookup r latest)) [
        | inl x ↦ absurd (let y : not (is_promised {A = ℕ} none) ≡ false = rw x at n in cc)
        | inr (at, x) ↦ (
          at,
          CopyAt-IsCopy r at (take_jobs-IsCopy known full r at jobs x),
          ltbℤ_trans d due (sub_time now at) l (rw (stale_at, x) at s),
        )
      ]

  recent-settled : RecentCopies parse account now policies jobs → Settled
  recent-settled h r d m = elim (promises_from_sound parse account now policies [] [] r d m) [
    | inr n ↦ absurd n
    | inl p ↦
        let (at, c, f) = h r d p in
        let (e, q, k) = promises_from-AtMost parse account now policies [] [] r d p in
        let (b, x, l) =
          AtLeast-take_jobs known full r at jobs [] (ap is_promised q) (IsCopy-CopyAt r at c) in
        (rw x refl, rw (stale_at, x) (sub_time-le now at b d l f))
  ]

  abbrev Known : Type 0
  Known = (p : Policy) × In p policies × (due : ℤ) × (promise_of parse account now p ≡ some due)

  has_repository :
      (p : Policy) (due : ℤ)
      → promise_of parse account now p ≡ some due
      → (r : ℕ) × In r p.repository_ids
  unfolding promise_of
  has_repository p due h = elim (Bool-cases (full_account_policy p account)) [
    | inl t ↦ first_of p.repository_ids (repository_of_full p account t)
    | inr f ↦ absurd (let x : none ≡ some due = rw f at h in cc)
  ]

  known-Known : (length known == 0) ≡ false → Known
  known-Known h =
      let ((r, d), m) = first_of known h in
      elim (promises_from_sound parse account now policies [] [] r d m) [
        | inl (p, n, e, i) ↦ (p, n, d, e)
        | inr n ↦ absurd n
      ]

  Known-known : Known → (length known == 0) ≡ false
  Known-known (p, m, due, e) =
      let (r, i) = has_repository p due e in
      let (d, q, l) = promises_from-AtMost parse account now policies [] [] r due (p, m, e, i) in
      not_empty (r, d) known (lookup-In r d known q)

  removal_decision-ifs : (removal_decision parse account now policies jobs).allowed ≡ (
      not (length account == 0)
      && not (length known == 0)
      && not (
          ltb 0 (length (sorted_ids (never_at latest) known))
          || ltb 0 (length (sorted_ids (stale_at now latest) known))))
  unfolding removal_decision
  removal_decision-ifs =
      allowed_of (length account == 0) (length known == 0)
        (ltb 0 (length (sorted_ids (never_at latest) known))
          || ltb 0 (length (sorted_ids (stale_at now latest) known)))
        _ _

  pub removal_decision-allowed :
      (removal_decision parse account now policies jobs).allowed ≡ true
      ↔ (account ≢ []) × Known × RecentCopies parse account now policies jobs
  removal_decision-allowed = (forward, backward)
    where
      forward :
          (removal_decision parse account now policies jobs).allowed ≡ true
          → (account ≢ []) × Known × RecentCopies parse account now policies jobs
      forward h =
          let g = sym removal_decision-ifs ∙ h in
          (
            λ e. absurd (ground (arith, ap (λ (v : Text). length v) e, g)),
            known-Known (ground (arith, g)),
            settled-recent (λ r d m. (
              none_listed (never_at latest) known (r, d) (ground (arith, g)) m,
              none_listed (stale_at now latest) known (r, d) (ground (arith, g)) m,
            )),
          )

      backward :
          (account ≢ []) × Known × RecentCopies parse account now policies jobs
          → (removal_decision parse account now policies jobs).allowed ≡ true
      backward (a, k, c) =
          let s = recent-settled c in
          let x = listed_none (never_at latest) known (λ e m. (s e.0 e.1 m).0) in
          let y = listed_none (stale_at now latest) known (λ e m. (s e.0 e.1 m).1) in
          let z = length_of_ne account a in
          removal_decision-ifs ∙ ground (arith, x, y, z, Known-known k)

-- While protection is on, an account may be removed exactly if it has a name, some enabled full-account
-- policy with a running schedule covers it, and each repository that such a policy promises has a complete
-- copy of the account, of a successful job of such a policy, that is no older than the policy promises.
pub account_removal_safety-allowed :
    (parse : Text → Option Schedule) (account : Text) (now : ℕ) (node : Node)
    → node.protect_account_removal ≡ true
    → (account_removal_safety parse account now node).allowed ≡ true
      ↔ (account ≢ [])
        × ((p : Policy) × In p node.policies
            × (due : ℤ) × (promise_of parse account now p ≡ some due))
        × RecentCopies parse account now node.policies
            (filter (λ (j : Job). text_eq j.account account) node.jobs)
unfolding account_removal_safety
account_removal_safety-allowed parse account now node h = rw h (
    removal_decision-allowed parse account now node.policies
      (filter (λ (j : Job). text_eq j.account account) node.jobs))
