-- ===== src/Common/Lists.antt =====
-- Lists measured by native numbers, and the list operations that the Go loops and the SQL share:
-- `WHERE` is a Boolean test, `ORDER BY … LIMIT 1` is `first_by`, `UPDATE … WHERE` is `update`.
use Prim.Native.Nat.{ℕ, suc, ◌+◌, ◌≤◌}
use mathlib.Core.Path.{◌≡◌, refl, sym, ap, ◌∙◌}
use mathlib.Core.Logic.{◌⊎◌, inl, inr, ◌≢◌}
use mathlib.Core.Bool.{Bool, true, false, ◌&&◌, ◌||◌}
use mathlib.Core.Option.{Option, none, some}
use mathlib.Core.List.{List, [], ◌∷◌, ◌++◌}
use native.Mathlib.Omega.{arith}
use cprestic.Common.Tests.{◌==◌, leb, leb→le, if◌then◌else◌, Bool-cases}

module _ {ℓ} {A : Type ℓ} where
  abbrev pub length : List A → ℕ
  length [] = 0
  length (x ∷ xs) = suc (length xs)

  abbrev pub filter : (A → Bool) → List A → List A
  filter p [] = []
  filter p (x ∷ xs) = if p x then x ∷ filter p xs else filter p xs

  abbrev pub any : (A → Bool) → List A → Bool
  any p [] = false
  any p (x ∷ xs) = p x || any p xs

  abbrev pub count : (A → Bool) → List A → ℕ
  count p [] = 0
  count p (x ∷ xs) = (if p x then 1 else 0) + count p xs

  abbrev pub find : (A → Bool) → List A → Option A
  find p [] = none
  find p (x ∷ xs) = if p x then some x else find p xs

  abbrev pub update : (A → Bool) → (A → A) → List A → List A
  update p f [] = []
  update p f (x ∷ xs) = (if p x then f x else x) ∷ update p f xs

  -- The earlier of a row and the first of the rest; a tie goes to the row that stands first.
  abbrev pub earlier : (A → ℕ) → A → Option A → A
  earlier key x none = x
  earlier key x (some y) = if leb (key x) (key y) then x else y

  abbrev pub first_by : (A → ℕ) → List A → Option A
  first_by key [] = none
  first_by key (x ∷ xs) = some (earlier key x (first_by key xs))

  -- An insertion sort.
  abbrev pub insert_by : (A → A → Bool) → A → List A → List A
  insert_by before x [] = x ∷ []
  insert_by before x (y ∷ ys) = if before x y then x ∷ y ∷ ys else y ∷ insert_by before x ys

  abbrev pub sort_by : (A → A → Bool) → List A → List A
  sort_by before [] = []
  sort_by before (x ∷ xs) = insert_by before x (sort_by before xs)

  pub length-append : (xs ys : List A) → length (xs ++ ys) ≡ length xs + length ys
  length-append [] ys = omega arith
  length-append (x ∷ xs) ys = omega (arith, length-append xs ys)

-- Membership, with the position kept.
abbrev pub In : {A : Type 0} → A → List A → Type 0
In a [] = ⊥
In a (x ∷ xs) = (x ≡ a) ⊎ In a xs

module _ {ℓ} {A : Type ℓ} where
  pub any-append : (p : A → Bool) (xs ys : List A) → any p (xs ++ ys) ≡ (any p xs || any p ys)
  any-append p [] ys = refl
  any-append p (x ∷ xs) ys = ground (arith, any-append p xs ys)

  pub count-append : (p : A → Bool) (xs ys : List A) → count p (xs ++ ys) ≡ count p xs + count p ys
  count-append p [] ys = omega arith
  count-append p (x ∷ xs) ys = omega (arith, count-append p xs ys)

  pub count_of_any : (p : A → Bool) (xs : List A) → any p xs ≡ false → count p xs ≡ 0
  count_of_any p [] h = refl
  count_of_any p (x ∷ xs) h = ground (arith, count_of_any p xs)

  pub any_of_count : (p : A → Bool) (xs : List A) → count p xs ≡ 0 → any p xs ≡ false
  any_of_count p [] h = refl
  any_of_count p (x ∷ xs) h = ground (arith, any_of_count p xs)

  -- Two tests that no row meets at once.
  pub count_disjoint :
      (p q r : A → Bool)
      → ((a : A) → p a ≡ true → r a ≡ true)
      → ((a : A) → q a ≡ true → r a ≡ true)
      → ((a : A) → p a ≡ true → q a ≡ false)
      → (xs : List A) → count p xs + count q xs ≤ count r xs
  count_disjoint p q r hp hq d [] = omega arith
  count_disjoint p q r hp hq d (x ∷ xs) =
      ground (arith, hp x, hq x, d x, count_disjoint p q r hp hq d xs)

  pub count_mono :
      (p q : A → Bool)
      → ((a : A) → p a ≡ true → q a ≡ true)
      → (xs : List A) → count p xs ≤ count q xs
  count_mono p q h [] = omega arith
  count_mono p q h (x ∷ xs) = ground (arith, h x, count_mono p q h xs)

  -- An update adds to a count at most the updated rows that meet the test afterwards.
  pub count-update :
      (p q : A → Bool) (f : A → A) (xs : List A)
      → count p (update q f xs) ≤ count p xs + count (λ a. q a && p (f a)) xs
  count-update p q f [] = omega arith
  count-update p q f (x ∷ xs) = ground (arith, count-update p q f xs)

  -- An update that makes no row meet the test adds nothing to its count.
  pub count-update_le :
      (p q : A → Bool) (f : A → A)
      → ((a : A) → q a ≡ true → p (f a) ≡ true → p a ≡ true)
      → (xs : List A) → count p (update q f xs) ≤ count p xs
  count-update_le p q f h [] = omega arith
  count-update_le p q f h (x ∷ xs) = ground (arith, h x, count-update_le p q f h xs)

  -- An update that leaves the test alone leaves the count alone.
  pub count-update_eq :
      (p q : A → Bool) (f : A → A)
      → ((a : A) → p (f a) ≡ p a)
      → (xs : List A) → count p (update q f xs) ≡ count p xs
  count-update_eq p q f h [] = refl
  count-update_eq p q f h (x ∷ xs) = ground (arith, h x, count-update_eq p q f h xs)

module _ {A : Type 0} where
  pub any_of_In : (p : A → Bool) (a : A) (xs : List A) → In a xs → p a ≡ true → any p xs ≡ true
  any_of_In p a [] m h = absurd m
  any_of_In p a (x ∷ xs) m h = ground (arith, any_of_In p a xs)

  pub count_of_In : (p : A → Bool) (a : A) (xs : List A) → In a xs → p a ≡ true → 1 ≤ count p xs
  count_of_In p a [] m h = absurd m
  count_of_In p a (x ∷ xs) m h = ground (arith, count_of_In p a xs)

  pub In-update :
      (q : A → Bool) (f : A → A) (a : A) (xs : List A)
      → In a xs
      → In (if q a then f a else a) (update q f xs)
  In-update q f a [] m = absurd m
  In-update q f a (x ∷ xs) (inl e) = inl (ap (λ y. if q y then f y else y) e)
  In-update q f a (x ∷ xs) (inr m) = inr (In-update q f a xs m)

  pub In-update_cases :
      (q : A → Bool) (f : A → A) (b : A) (xs : List A)
      → In b (update q f xs)
      → (a : A) × In a xs × ((if q a then f a else a) ≡ b)
  In-update_cases q f b [] m = absurd m
  In-update_cases q f b (x ∷ xs) (inl e) = (x, inl refl, e)
  In-update_cases q f b (x ∷ xs) (inr m) =
      let (a, i, e) = In-update_cases q f b xs m in (a, inr i, e)

  pub In-filter : (p : A → Bool) (a : A) (xs : List A) → In a (filter p xs) → In a xs × (p a ≡ true)
  In-filter p a [] m = absurd m
  In-filter p a (x ∷ xs) m = elim (Bool-cases (p x)) [
    | inl h ↦ kept (In-filter p a xs) h (rw h at m)
    | inr h ↦ let (i, t) = In-filter p a xs (rw h at m) in (inr i, t)
  ]
    where
      kept :
          (In a (filter p xs) → In a xs × (p a ≡ true))
          → p x ≡ true
          → In a (x ∷ filter p xs)
          → In a (x ∷ xs) × (p a ≡ true)
      kept rest h (inl e) = (inl e, rw (← e) h)
      kept rest h (inr i) = let (j, t) = rest i in (inr j, t)

  pub In-filter_intro :
      (p : A → Bool) (a : A) (xs : List A) → In a xs → p a ≡ true → In a (filter p xs)
  In-filter_intro p a [] m h = absurd m
  In-filter_intro p a (x ∷ xs) (inl e) h = let t : p x ≡ true = ap p e ∙ h in rw t (inl e)
  In-filter_intro p a (x ∷ xs) (inr m) h = elim (Bool-cases (p x)) [
    | inl t ↦ rw t (inr (In-filter_intro p a xs m h))
    | inr t ↦ rw t (In-filter_intro p a xs m h)
  ]

  earlier_cases :
      (key : A → ℕ) (x : A) (o : Option A) (a : A)
      → some (earlier key x o) ≡ some a
      → (x ≡ a) ⊎ (o ≡ some a)
  earlier_cases key x none a h = inl (ground arith)
  earlier_cases key x (some y) a h = ground arith

  pub first_by-In : (key : A → ℕ) (a : A) (xs : List A) → first_by key xs ≡ some a → In a xs
  first_by-In key a [] h = cc
  first_by-In key a (x ∷ xs) h = elim (earlier_cases key x (first_by key xs) a h) [
    | inl e ↦ inl e
    | inr e ↦ inr (first_by-In key a xs e)
  ]

  pub first_by-none : (key : A → ℕ) (xs : List A) → first_by key xs ≡ none → xs ≡ []
  first_by-none key [] h = refl
  first_by-none key (x ∷ xs) h = cc

  earlier-le_head : (key : A → ℕ) (x : A) (o : Option A) → key (earlier key x o) ≤ key x
  earlier-le_head key x none = omega arith
  earlier-le_head key x (some y) = elim (Bool-cases (leb (key x) (key y))) [
    | inl t ↦ rw t (omega arith)
    | inr t ↦ rw t (ground arith)
  ]

  earlier-le_rest : (key : A → ℕ) (x y : A) → key (earlier key x (some y)) ≤ key y
  earlier-le_rest key x y = elim (Bool-cases (leb (key x) (key y))) [
    | inl t ↦ rw t (leb→le _ _ t)
    | inr t ↦ rw t (omega arith)
  ]

  first-le_rest :
      (key : A → ℕ) (x b : A) (o : Option A)
      → ((c : A) → o ≡ some c → key c ≤ key b)
      → o ≢ none
      → key (earlier key x o) ≤ key b
  first-le_rest key x b none h n = absurd (n refl)
  first-le_rest key x b (some c) h n = omega (arith, earlier-le_rest key x c, h c refl)

  first_by_ne : (key : A → ℕ) (b : A) (xs : List A) → In b xs → first_by key xs ≢ none
  first_by_ne key b [] m e = m
  first_by_ne key b (x ∷ xs) m e = cc

  first_by_bound :
      (key : A → ℕ) (b : A) (xs : List A)
      → In b xs
      → (a : A) → first_by key xs ≡ some a
      → key a ≤ key b
  first_by_bound key b [] m a h = absurd m
  first_by_bound key b (x ∷ xs) (inl e) a h =
      let p : earlier key x (first_by key xs) ≡ a = ground arith in
      rw (← p, ← e) (earlier-le_head key x (first_by key xs))
  first_by_bound key b (x ∷ xs) (inr m) a h =
      let p : earlier key x (first_by key xs) ≡ a = ground arith in
      rw (← p) (
        first-le_rest key x b (first_by key xs) (first_by_bound key b xs m)
          (first_by_ne key b xs m))

  -- No row comes before the one that `ORDER BY … LIMIT 1` returns.
  pub first_by-le :
      (key : A → ℕ) (a b : A) (xs : List A) → first_by key xs ≡ some a → In b xs → key a ≤ key b
  first_by-le key a b xs h m = first_by_bound key b xs m a h

  pub find-In : (p : A → Bool) (a : A) (xs : List A) → find p xs ≡ some a → In a xs × (p a ≡ true)
  find-In p a [] h = cc
  find-In p a (x ∷ xs) h = elim (Bool-cases (p x)) [
    | inl t ↦ (inl (ground arith), ground arith)
    | inr t ↦ let (m, u) = find-In p a xs (ground arith) in (inr m, u)
  ]

  pub In-any : (p : A → Bool) (xs : List A) → any p xs ≡ true → (a : A) × In a xs × (p a ≡ true)
  In-any p [] h = cc
  In-any p (x ∷ xs) h = elim (Bool-cases (p x)) [
    | inl t ↦ (x, inl refl, t)
    | inr f ↦ let (a, m, t) = In-any p xs (ground arith) in (a, inr m, t)
  ]

  -- A key that at most one row has.
  pub unique_row :
      (q : A → Bool) (a b : A) (xs : List A)
      → count q xs ≤ 1
      → In a xs
      → In b xs
      → q a ≡ true
      → q b ≡ true
      → a ≡ b
  unique_row q a b [] h m n qa qb = absurd m
  unique_row q a b (x ∷ xs) h (inl e) (inl f) qa qb = sym e ∙ f
  unique_row q a b (x ∷ xs) h (inl e) (inr n) qa qb =
      let t : q x ≡ true = ap q e ∙ qa in absurd (ground (arith, count_of_In q b xs n qb))
  unique_row q a b (x ∷ xs) h (inr m) (inl f) qa qb =
      let t : q x ≡ true = ap q f ∙ qb in absurd (ground (arith, count_of_In q a xs m qa))
  unique_row q a b (x ∷ xs) h (inr m) (inr n) qa qb = unique_row q a b xs (ground arith) m n qa qb

  -- As `count-update_le`, with the condition asked of the table's rows only.
  pub count-update_le_In :
      (p q : A → Bool) (f : A → A) (xs : List A)
      → ((a : A) → In a xs → q a ≡ true → p (f a) ≡ true → p a ≡ true)
      → count p (update q f xs) ≤ count p xs
  count-update_le_In p q f [] h = omega arith
  count-update_le_In p q f (x ∷ xs) h =
      ground (arith, h x (inl refl), count-update_le_In p q f xs (λ a m. h a (inr m)))

  pub any-false :
      (p : A → Bool) (xs : List A) → ((a : A) → In a xs → p a ≡ false) → any p xs ≡ false
  any-false p [] h = refl
  any-false p (x ∷ xs) h = ground (arith, h x (inl refl), any-false p xs (λ a m. h a (inr m)))

  pub In-append_left : (a : A) (xs ys : List A) → In a xs → In a (xs ++ ys)
  In-append_left a [] ys m = absurd m
  In-append_left a (x ∷ xs) ys (inl e) = inl e
  In-append_left a (x ∷ xs) ys (inr m) = inr (In-append_left a xs ys m)

  pub In-append : (a : A) (xs ys : List A) → In a (xs ++ ys) → In a xs ⊎ In a ys
  In-append a [] ys m = inr m
  In-append a (x ∷ xs) ys (inl e) = inl (inl e)
  In-append a (x ∷ xs) ys (inr m) = elim (In-append a xs ys m) [
    | inl n ↦ inl (inr n)
    | inr n ↦ inr n
  ]

  -- A row that an update does not touch stays.
  pub In-update_skip :
      (q : A → Bool) (f : A → A) (a : A) (xs : List A)
      → q a ≡ false
      → In a xs
      → In a (update q f xs)
  In-update_skip q f a xs h m = rw h at (In-update q f a xs m)

module _ {A : Type 0} where
  pub In-insert_by :
      (before : A → A → Bool) (a x : A) (xs : List A)
      → In a (insert_by before x xs)
      → (x ≡ a) ⊎ In a xs
  In-insert_by before a x [] m = m
  In-insert_by before a x (y ∷ ys) m = elim (Bool-cases (before x y)) [
    | inl t ↦ rw t at m
    | inr f ↦ elim (rw f at m) [
      | inl e ↦ inr (inl e)
      | inr n ↦ elim (In-insert_by before a x ys n) [ inl e ↦ inl e | inr k ↦ inr (inr k) ]
    ]
  ]

  pub In-sort_by :
      (before : A → A → Bool) (a : A) (xs : List A) → In a (sort_by before xs) → In a xs
  In-sort_by before a [] m = m
  In-sort_by before a (x ∷ xs) m = elim (In-insert_by before a x (sort_by before xs) m) [
    | inl e ↦ inl e
    | inr n ↦ inr (In-sort_by before a xs n)
  ]

pub first_of : {A : Type 0} (xs : List A) → (length xs == 0) ≡ false → (a : A) × In a xs
first_of [] h = cc
first_of (x ∷ xs) h = (x, inl refl)

pub not_empty : {A : Type 0} (a : A) (xs : List A) → In a xs → (length xs == 0) ≡ false
not_empty a [] m = absurd m
not_empty a (x ∷ xs) m = ground arith
