-- ===== src/Node/Removal/Promised.antt =====
-- The first loop of `accountRemovalSafety`: what the policies promise.
use cprestic.Common.{
  ℕ, ◌≡◌, refl, sym, ap, ◌∙◌, subst, ◌⊎◌, inl, inr, true, false, List, [], ◌∷◌, Option, none, some,
  Text, ℤ, ltbℤ, ltbℤ_trans, ltbℤ_asym, ltbℤ_irrefl, ◌==◌, In, Bool-cases, Option-cases, lookup,
  assign, In-assign, lookup-assign_same, lookup-assign_other, eq_of_==,
}
use cprestic.Node.{Policy}
use cprestic.Node.Removal.Safety.{
  Schedule, promise_of, is_sooner, expect, expect_each, promises_from,
}

-- The loop over one policy's repositories: a promise is the one that stood, or that of the policy.
In-expect :
    (due d : ℤ) (r s : ℕ) (m : List (ℕ × ℤ))
    → In (s, d) (expect due r m)
    → ((r ≡ s) × (due ≡ d)) ⊎ In (s, d) m
In-expect due d r s m h = elim (Bool-cases (is_sooner due (lookup r m))) [
  | inl t ↦ In-assign r s due d m (rw t at h)
  | inr f ↦ inr (rw f at h)
]

In-expect_each :
    (due d : ℤ) (s : ℕ) (rs : List ℕ) (m : List (ℕ × ℤ))
    → In (s, d) (expect_each due rs m)
    → (In s rs × (due ≡ d)) ⊎ In (s, d) m
unfolding expect_each
In-expect_each due d s [] m h = inr h
In-expect_each due d s (r ∷ rs) m h = elim (In-expect_each due d s rs (expect due r m) h) [
  | inl (n, e) ↦ inl (inr n, e)
  | inr n ↦ elim (In-expect due d r s m n) [ inl (p, e) ↦ inl (inl p, e) | inr q ↦ inr q ]
]

-- `expected` holds, for a repository, a duration that is no longer than another one.
abbrev pub AtMost : List (ℕ × ℤ) → ℕ → ℤ → Type 0
AtMost m r due = (d : ℤ) × (lookup r m ≡ some d) × (ltbℤ due d ≡ false)

not_sooner :
    (due : ℤ) (r : ℕ) (m : List (ℕ × ℤ)) → is_sooner due (lookup r m) ≡ false → AtMost m r due
not_sooner due r m h = elim (Option-cases (lookup r m)) [
  | inl n ↦ absurd (let x : is_sooner due none ≡ false = ap (is_sooner due) (sym n) ∙ h in cc)
  | inr (c, e) ↦ (c, e, ap (is_sooner due) (sym e) ∙ h)
]

expect-AtMost : (due : ℤ) (r : ℕ) (m : List (ℕ × ℤ)) → AtMost (expect due r m) r due
expect-AtMost due r m = elim (Bool-cases (is_sooner due (lookup r m))) [
  | inl t ↦ rw t (due, lookup-assign_same r due m, ltbℤ_irrefl due)
  | inr f ↦ rw f (not_sooner due r m f)
]

expect-AtMost_kept :
    (due d : ℤ) (r s : ℕ) (m : List (ℕ × ℤ)) → AtMost m s d → AtMost (expect due r m) s d
expect-AtMost_kept due d r s m (c, e, f) = elim (Bool-cases (is_sooner due (lookup r m))) [
  | inr n ↦ rw n (c, e, f)
  | inl t ↦ rw t (elim (Bool-cases (r == s)) [
    | inr n ↦ (c, lookup-assign_other r s due m n ∙ e, f)
    | inl u ↦
        let p = eq_of_== r s u in
        let g : lookup r m ≡ some c = ap (λ x. lookup x m) p ∙ e in
        let l : ltbℤ due c ≡ true = ap (is_sooner due) (sym g) ∙ t in
        (
          due,
          ap (λ x. lookup x (assign r due m)) (sym p) ∙ lookup-assign_same r due m,
          ltbℤ_trans c d due f (ltbℤ_asym due c l),
        )
  ])
]

expect_each-AtMost_kept :
    (due d : ℤ) (s : ℕ) (rs : List ℕ) (m : List (ℕ × ℤ))
    → AtMost m s d
    → AtMost (expect_each due rs m) s d
unfolding expect_each
expect_each-AtMost_kept due d s [] m h = h
expect_each-AtMost_kept due d s (r ∷ rs) m h =
    expect_each-AtMost_kept due d s rs (expect due r m) (expect-AtMost_kept due d r s m h)

expect_each-AtMost :
    (due : ℤ) (s : ℕ) (rs : List ℕ) (m : List (ℕ × ℤ))
    → In s rs
    → AtMost (expect_each due rs m) s due
unfolding expect_each
expect_each-AtMost due s [] m h = absurd h
expect_each-AtMost due s (r ∷ rs) m (inl e) =
    expect_each-AtMost_kept due due s rs (expect due r m)
      (subst (λ x. AtMost (expect due r m) x due) e (expect-AtMost due r m))
expect_each-AtMost due s (r ∷ rs) m (inr n) = expect_each-AtMost due s rs (expect due r m) n

-- The loop over the policies.
module _ (parse : Text → Option Schedule) (account : Text) (now : ℕ) where
  abbrev pub PromisedBy : List Policy → ℕ → ℤ → Type 0
  PromisedBy ps r due =
      (p : Policy) × In p ps × (promise_of parse account now p ≡ some due) × In r p.repository_ids

  pub promises_from_sound :
      (ps : List Policy) (m : List (ℕ × ℤ)) (full : List ℕ) (r : ℕ) (d : ℤ)
      → In (r, d) (promises_from parse account now ps (m, full)).0
      → PromisedBy ps r d ⊎ In (r, d) m
  unfolding promises_from
  promises_from_sound [] m full r d h = inr h
  promises_from_sound (p ∷ ps) m full r d h = elim (Option-cases (promise_of parse account now p)) [
    | inl n ↦ elim (promises_from_sound ps m full r d (rw (promises_from, n) at h)) [
      | inl (q, k, e, g) ↦ inl (q, inr k, e, g)
      | inr k ↦ inr k
    ]
    | inr (due, e) ↦
        elim (promises_from_sound ps (expect_each due p.repository_ids m) (p.id ∷ full) r d
          (rw (promises_from, e) at h)) [
            | inl (q, k, e', g) ↦ inl (q, inr k, e', g)
            | inr k ↦ elim (In-expect_each due d r p.repository_ids m k) [
              | inl (i, x) ↦ inl (p, inl refl, e ∙ ap some x, i)
              | inr i ↦ inr i
            ]
          ]
  ]

  -- What was known stays known, or becomes sooner.
  promises_from-AtMost_kept :
      (ps : List Policy) (m : List (ℕ × ℤ)) (full : List ℕ) (r : ℕ) (d : ℤ)
      → AtMost m r d
      → AtMost ((promises_from parse account now ps (m, full)).0) r d
  unfolding promises_from
  promises_from-AtMost_kept [] m full r d h = h
  promises_from-AtMost_kept (p ∷ ps) m full r d h =
      elim (Option-cases (promise_of parse account now p)) [
        | inl n ↦ rw (promises_from, n) (promises_from-AtMost_kept ps m full r d h)
        | inr (due, e) ↦
            rw (promises_from, e)
              (promises_from-AtMost_kept ps (expect_each due p.repository_ids m) (p.id ∷ full) r d
                (expect_each-AtMost_kept due d r p.repository_ids m h))
      ]

  pub promises_from-AtMost :
      (ps : List Policy) (m : List (ℕ × ℤ)) (full : List ℕ) (r : ℕ) (d : ℤ)
      → PromisedBy ps r d
      → AtMost ((promises_from parse account now ps (m, full)).0) r d
  unfolding promises_from
  promises_from-AtMost [] m full r d (q, k, e, i) = absurd k
  promises_from-AtMost (p ∷ ps) m full r d (q, inl x, e, i) =
      let e' : promise_of parse account now p ≡ some d = ap (promise_of parse account now) x ∙ e in
      let i' : In r p.repository_ids = subst (λ o. In r o.repository_ids) (sym x) i in
      rw (promises_from, e')
        (promises_from-AtMost_kept ps (expect_each d p.repository_ids m) (p.id ∷ full) r d
          (expect_each-AtMost d r p.repository_ids m i'))
  promises_from-AtMost (p ∷ ps) m full r d (q, inr k, e, i) =
      elim (Option-cases (promise_of parse account now p)) [
        | inl n ↦ rw (promises_from, n) (promises_from-AtMost ps m full r d (q, k, e, i))
        | inr (due, e') ↦
            rw (promises_from, e')
              (promises_from-AtMost ps (expect_each due p.repository_ids m) (p.id ∷ full) r d
                (q, k, e, i))
      ]

  -- `fullPolicies` are the identities of the policies that promise something.
  abbrev pub FullPolicy : List Policy → ℕ → Type 0
  FullPolicy ps id =
      (p : Policy) × In p ps × (due : ℤ) × (promise_of parse account now p ≡ some due) × (p.id ≡ id)

  pub promises_from-full :
      (ps : List Policy) (m : List (ℕ × ℤ)) (full : List ℕ) (id : ℕ)
      → In id (promises_from parse account now ps (m, full)).1
      → FullPolicy ps id ⊎ In id full
  unfolding promises_from
  promises_from-full [] m full id h = inr h
  promises_from-full (p ∷ ps) m full id h = elim (Option-cases (promise_of parse account now p)) [
    | inl n ↦ elim (promises_from-full ps m full id (rw (promises_from, n) at h)) [
      | inl (q, k, d, f, i) ↦ inl (q, inr k, d, f, i)
      | inr k ↦ inr k
    ]
    | inr (due, e) ↦
        elim (promises_from-full ps (expect_each due p.repository_ids m) (p.id ∷ full) id
          (rw (promises_from, e) at h)) [
            | inl (q, k, d, f, i) ↦ inl (q, inr k, d, f, i)
            | inr (inl x) ↦ inl (p, inl refl, due, e, x)
            | inr (inr k) ↦ inr k
          ]
  ]

  full-kept :
      (ps : List Policy) (m : List (ℕ × ℤ)) (full : List ℕ) (id : ℕ)
      → In id full
      → In id (promises_from parse account now ps (m, full)).1
  unfolding promises_from
  full-kept [] m full id h = h
  full-kept (p ∷ ps) m full id h = elim (Option-cases (promise_of parse account now p)) [
    | inl n ↦ rw (promises_from, n) (full-kept ps m full id h)
    | inr (due, e) ↦
        rw (promises_from, e)
          (full-kept ps (expect_each due p.repository_ids m) (p.id ∷ full) id (inr h))
  ]

  pub full-promises_from :
      (ps : List Policy) (m : List (ℕ × ℤ)) (full : List ℕ) (id : ℕ)
      → FullPolicy ps id
      → In id (promises_from parse account now ps (m, full)).1
  unfolding promises_from
  full-promises_from [] m full id (q, k, due, e, i) = absurd k
  full-promises_from (p ∷ ps) m full id (q, inl x, due, e, i) =
      let e' : promise_of parse account now p ≡ some due =
        ap (promise_of parse account now) x ∙ e in
      rw (promises_from, e')
        (full-kept ps (expect_each due p.repository_ids m) (p.id ∷ full) id
          (inl (ap (λ o. o.id) x ∙ i)))
  full-promises_from (p ∷ ps) m full id (q, inr k, d, f, i) =
      elim (Option-cases (promise_of parse account now p)) [
        | inl n ↦ rw (promises_from, n) (full-promises_from ps m full id (q, k, d, f, i))
        | inr (due, e') ↦
            rw (promises_from, e')
              (full-promises_from ps (expect_each due p.repository_ids m) (p.id ∷ full) id
                (q, k, d, f, i))
      ]
