-- ===== src/Node/Removal/Copies.antt =====
-- The second loop of `accountRemovalSafety`: the latest complete copy in each repository.
use cprestic.Common.{
  ℕ, ◌≤◌, ◌<◌, ◌≡◌, refl, sym, ap, ◌∙◌, subst, ◌⊎◌, inl, inr, Bool, true, false, not, ◌&&◌, List,
  [], ◌∷◌, some, ltb, ◌==◌, arith, In, Bool-cases, Option-cases, lookup, assign, lookup-In,
  In-assign, lookup-assign_same, lookup-assign_other, eq_of_==, ℤ,
}
use cprestic.Node.{JobTarget, Job}
use cprestic.Node.Removal.Safety.{
  take_targets, take_jobs, is_complete, is_stored, is_promised, copied_at, or_zero,
}

-- A whole target in a repository.
abbrev pub Stored : List JobTarget → ℕ → Type 0
Stored ts r =
    (t : JobTarget) × In t ts
    × (is_stored t.status ≡ true)
    × (t.incomplete ≡ false)
    × (t.repository_id ≡ r)

abbrev pub counts : List (ℕ × ℤ) → ℕ → JobTarget → List (ℕ × ℕ) → Bool
counts expected at t latest =
    is_stored t.status
    && not t.incomplete
    && is_promised (lookup t.repository_id expected)
    && ltb (or_zero (lookup t.repository_id latest)) at

In-take_targets :
    (expected : List (ℕ × ℤ)) (at r a : ℕ) (ts : List JobTarget) (latest : List (ℕ × ℕ))
    → In (r, a) (take_targets expected at ts latest)
    → (Stored ts r × (at ≡ a) × (0 < a)) ⊎ In (r, a) latest
unfolding take_targets
In-take_targets expected at r a [] latest h = inr h
In-take_targets expected at r a (t ∷ ts) latest h =
    elim (Bool-cases (counts expected at t latest)) [
      | inl c ↦
          elim (In-take_targets expected at r a ts (assign t.repository_id at latest) (rw c at h)) [
            | inl ((u, m, x, y, z), e, l) ↦ inl ((u, inr m, x, y, z), e, l)
            | inr m ↦ elim (In-assign t.repository_id r at a latest m) [
              | inl (p, e) ↦
                  inl (
                    (t, inl refl, ground (arith, c), ground (arith, c), p),
                    e,
                    ground (arith, c, e),
                  )
              | inr n ↦ inr n
            ]
          ]
      | inr c ↦ elim (In-take_targets expected at r a ts latest (rw c at h)) [
        | inl ((u, m, x, y, z), e, l) ↦ inl ((u, inr m, x, y, z), e, l)
        | inr m ↦ inr m
      ]
    ]

-- `latest` knows a copy in a repository that is no older.
abbrev pub AtLeast : List (ℕ × ℕ) → ℕ → ℕ → Type 0
AtLeast latest r at = (b : ℕ) × (lookup r latest ≡ some b) × (at ≤ b)

AtLeast-assign :
    (at r s b : ℕ) (latest : List (ℕ × ℕ))
    → ltb (or_zero (lookup r latest)) at ≡ true
    → AtLeast latest s b
    → AtLeast (assign r at latest) s b
AtLeast-assign at r s b latest h (c, e, l) = elim (Bool-cases (r == s)) [
  | inr n ↦ (c, lookup-assign_other r s at latest n ∙ e, l)
  | inl t ↦
      let p = eq_of_== r s t in
      let g : or_zero (lookup r latest) ≡ c =
        ap (λ x. or_zero (lookup x latest)) p ∙ ap or_zero e in
      (
        at,
        ap (λ x. lookup x (assign r at latest)) (sym p) ∙ lookup-assign_same r at latest,
        ground (arith, g, h, l),
      )
]

AtLeast-kept :
    (expected : List (ℕ × ℤ)) (at s b : ℕ) (ts : List JobTarget) (latest : List (ℕ × ℕ))
    → AtLeast latest s b
    → AtLeast (take_targets expected at ts latest) s b
unfolding take_targets
AtLeast-kept expected at s b [] latest h = h
AtLeast-kept expected at s b (t ∷ ts) latest h = elim (Bool-cases (counts expected at t latest)) [
  | inl c ↦ rw c (
      AtLeast-kept expected at s b ts (assign t.repository_id at latest)
        (AtLeast-assign at t.repository_id s b latest (ground (arith, c)) h))
  | inr c ↦ rw c (AtLeast-kept expected at s b ts latest h)
]

AtLeast-known :
    (at r : ℕ) (latest : List (ℕ × ℕ))
    → 0 < at
    → ltb (or_zero (lookup r latest)) at ≡ false
    → AtLeast latest r at
AtLeast-known at r latest l h = elim (Option-cases (lookup r latest)) [
  | inl n ↦ absurd (ground (arith, ap or_zero n, l, h))
  | inr (b, e) ↦ (b, e, ground (arith, ap or_zero e, h))
]

AtLeast-take_targets :
    (expected : List (ℕ × ℤ)) (at r : ℕ) (ts : List JobTarget) (latest : List (ℕ × ℕ))
    → 0 < at
    → is_promised (lookup r expected) ≡ true
    → Stored ts r
    → AtLeast (take_targets expected at ts latest) r at
unfolding take_targets
AtLeast-take_targets expected at r [] latest l q (u, m, x, y, z) = absurd m
AtLeast-take_targets expected at r (t ∷ ts) latest l q (u, inl i, x, y, z) =
    elim (Bool-cases (counts expected at t latest)) [
      | inl c ↦ rw c (AtLeast-kept expected at r at ts (assign t.repository_id at latest) first)
      | inr c ↦ rw c (
          AtLeast-kept expected at r at ts latest
            (AtLeast-known at r latest l (old (Bool-cases (ltb (or_zero (lookup r latest)) at)) c)))
    ]
  where
    p : t.repository_id ≡ r
    p = ap (λ v. v.repository_id) i ∙ z

    first : AtLeast (assign t.repository_id at latest) r at
    first = (
      at,
      ap (λ v. lookup v (assign t.repository_id at latest)) (sym p)
          ∙ lookup-assign_same t.repository_id at latest,
      omega arith,
    )

    old :
        (ltb (or_zero (lookup r latest)) at ≡ true) ⊎ (ltb (or_zero (lookup r latest)) at ≡ false)
        → counts expected at t latest ≡ false
        → ltb (or_zero (lookup r latest)) at ≡ false
    old (inr f) c = f
    old (inl f) c = absurd (
        let x' : is_stored t.status ≡ true = ap (λ v. is_stored v.status) i ∙ x in
        let y' : t.incomplete ≡ false = ap (λ v. v.incomplete) i ∙ y in
        let q' : is_promised (lookup t.repository_id expected) ≡ true = rw p q in
        let f' : ltb (or_zero (lookup t.repository_id latest)) at ≡ true = rw p f in
        ground (arith, x', y', q', f', c))
AtLeast-take_targets expected at r (t ∷ ts) latest l q (u, inr m, x, y, z) =
    elim (Bool-cases (counts expected at t latest)) [
      | inl c ↦ rw c (
          AtLeast-take_targets expected at r ts (assign t.repository_id at latest) l q
            (u, m, x, y, z))
      | inr c ↦ rw c (AtLeast-take_targets expected at r ts latest l q (u, m, x, y, z))
    ]

-- A copy that the loop over the jobs counts.
abbrev pub IsCopy : List ℕ → List Job → ℕ → ℕ → Type 0
IsCopy full jobs r at =
    (j : Job) × In j jobs
    × (is_complete full j ≡ true)
    × Stored j.targets r
    × (copied_at j ≡ at)
    × (0 < at)

module _ (expected : List (ℕ × ℤ)) (full : List ℕ) where
  In-take_jobs :
      (r a : ℕ) (js : List Job) (latest : List (ℕ × ℕ))
      → In (r, a) (take_jobs (expected, full) js latest)
      → IsCopy full js r a ⊎ In (r, a) latest
  unfolding take_jobs
  In-take_jobs r a [] latest h = inr h
  In-take_jobs r a (j ∷ js) latest h = elim (Bool-cases (is_complete full j)) [
    | inl c ↦
        elim (In-take_jobs r a js (take_targets expected (copied_at j) j.targets latest)
          (rw c at h)) [
            | inl (k, m, x, y, z, l) ↦ inl (k, inr m, x, y, z, l)
            | inr m ↦ elim (In-take_targets expected (copied_at j) r a j.targets latest m) [
              | inl (s, e, l) ↦ inl (j, inl refl, c, s, e, l)
              | inr n ↦ inr n
            ]
          ]
    | inr c ↦ elim (In-take_jobs r a js latest (rw c at h)) [
      | inl (k, m, x, y, z, l) ↦ inl (k, inr m, x, y, z, l)
      | inr m ↦ inr m
    ]
  ]

  take_jobs-AtLeast :
      (s b : ℕ) (js : List Job) (latest : List (ℕ × ℕ))
      → AtLeast latest s b
      → AtLeast (take_jobs (expected, full) js latest) s b
  unfolding take_jobs
  take_jobs-AtLeast s b [] latest h = h
  take_jobs-AtLeast s b (j ∷ js) latest h = elim (Bool-cases (is_complete full j)) [
    | inl c ↦ rw c (
        take_jobs-AtLeast s b js (take_targets expected (copied_at j) j.targets latest)
          (AtLeast-kept expected (copied_at j) s b j.targets latest h))
    | inr c ↦ rw c (take_jobs-AtLeast s b js latest h)
  ]

  pub AtLeast-take_jobs :
      (r at : ℕ) (js : List Job) (latest : List (ℕ × ℕ))
      → is_promised (lookup r expected) ≡ true
      → IsCopy full js r at
      → AtLeast (take_jobs (expected, full) js latest) r at
  unfolding take_jobs
  AtLeast-take_jobs r at [] latest q (k, m, c, s, e, l) = absurd m
  AtLeast-take_jobs r at (j ∷ js) latest q (k, inl i, c, s, e, l) =
      let c' : is_complete full j ≡ true = ap (is_complete full) i ∙ c in
      let e' : copied_at j ≡ at = ap copied_at i ∙ e in
      rw (c', e')
        (take_jobs-AtLeast r at js (take_targets expected at j.targets latest) (
          AtLeast-take_targets expected at r j.targets latest l q
            (subst (λ v. Stored v.targets r) (sym i) s)))
  AtLeast-take_jobs r at (j ∷ js) latest q (k, inr m, c, s, e, l) =
      elim (Bool-cases (is_complete full j)) [
        | inl c' ↦ rw c' (
            AtLeast-take_jobs r at js (take_targets expected (copied_at j) j.targets latest) q
              (k, m, c, s, e, l))
        | inr c' ↦ rw c' (AtLeast-take_jobs r at js latest q (k, m, c, s, e, l))
      ]

  pub take_jobs-IsCopy :
      (r a : ℕ) (js : List Job)
      → lookup r (take_jobs (expected, full) js []) ≡ some a
      → IsCopy full js r a
  take_jobs-IsCopy r a js h = elim (In-take_jobs r a js [] (lookup-In r a _ h)) [
    | inl c ↦ c
    | inr m ↦ absurd m
  ]
