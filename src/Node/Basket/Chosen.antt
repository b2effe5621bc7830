-- ===== src/Node/Basket/Chosen.antt =====
-- What a basket selects, part by part and name by name.
use cprestic.Common.{
  suc, ◌≡◌, refl, ap, ◌∙◌, subst, inl, inr, Bool, true, false, not, ◌&&◌, ◌||◌, List, [], ◌∷◌, ◌++◌,
  Text, text_eq, ◌==◌, if◌then◌else◌, arith, length, any, any-append, ◌⊎◌, length-append, insert_by,
  Bool-cases,
}
use cprestic.Node.Pending.{text_lt}
use cprestic.Node.Basket.{
  RestoreSelection, has_name, sort_strings, without_kind, with_selection, more_names, joined_names,
  with_more_names,
}

-- A selection takes a name of a part: the whole part, or this name.
abbrev pub takes : List Text → Text → Bool
takes names n = (length names == 0) || has_name names n

abbrev pub selects : Text → Text → RestoreSelection → Bool
selects kind n i = text_eq i.kind kind && takes i.names n

abbrev pub chosen : List RestoreSelection → Text → Text → Bool
chosen items kind n = any (selects kind n) items

eq_of_text_eq : (s t : Text) → text_eq s t ≡ true → s ≡ t
unfolding text_eq
eq_of_text_eq [] [] h = refl
eq_of_text_eq [] (b ∷ t) h = cc
eq_of_text_eq (a ∷ s) [] h = cc
eq_of_text_eq (a ∷ s) (b ∷ t) h =
    let x : a ≡ b = ground (arith, h) in
    let y : s ≡ t = eq_of_text_eq s t (ground (arith, h)) in ap (λ v. v ∷ s) x ∙ ap (λ v. b ∷ v) y

any-insert_by :
    (p : Text → Bool) (x : Text) (xs : List Text)
    → any p (insert_by text_lt x xs) ≡ (p x || any p xs)
any-insert_by p x [] = refl
any-insert_by p x (y ∷ ys) = elim (Bool-cases (text_lt x y)) [
  | inl t ↦ rw t refl
  | inr f ↦ rw f (ground (arith, any-insert_by p x ys))
]

any-sort_strings : (p : Text → Bool) (xs : List Text) → any p (sort_strings xs) ≡ any p xs
any-sort_strings p [] = refl
any-sort_strings p (x ∷ xs) =
    ground (arith, any-insert_by p x (sort_strings xs), any-sort_strings p xs)

length-insert_by : (x : Text) (xs : List Text) → length (insert_by text_lt x xs) ≡ suc (length xs)
length-insert_by x [] = refl
length-insert_by x (y ∷ ys) = elim (Bool-cases (text_lt x y)) [
  | inl t ↦ rw t refl
  | inr f ↦ rw f (omega (arith, length-insert_by x ys))
]

length-sort_strings : (xs : List Text) → length (sort_strings xs) ≡ length xs
length-sort_strings [] = refl
length-sort_strings (x ∷ xs) =
    omega (arith, length-insert_by x (sort_strings xs), length-sort_strings xs)

takes-sort_strings : (xs : List Text) (n : Text) → takes (sort_strings xs) n ≡ takes xs n
takes-sort_strings xs n = rw (length-sort_strings xs, any-sort_strings (λ v. text_eq v n) xs) refl

has_name-more_names :
    (old names new : List Text) (n : Text)
    → (has_name old n ≡ true → has_name names n ≡ true)
    → has_name (more_names old names new) n ≡ (has_name names n || has_name new n)
unfolding more_names
has_name-more_names old names [] n h = ground arith
has_name-more_names old names (x ∷ xs) n h = elim (Bool-cases (has_name old x)) [
  | inr f ↦
      let a = any-append (λ v. text_eq v n) names (x ∷ []) in
      rw f (
        ground
          (arith, has_name-more_names old (names ++ x ∷ []) xs n (λ k. ground (arith, a, h k)), a))
  | inl t ↦ rw t (has_name-more_names old names xs n h ∙ seen t (Bool-cases (text_eq x n)))
]
  where
    seen :
        has_name old x ≡ true
        → (text_eq x n ≡ true) ⊎ (text_eq x n ≡ false)
        → (has_name names n || has_name xs n) ≡ (has_name names n || has_name (x ∷ xs) n)
    seen t (inr f) = ground (arith, f)
    seen t (inl e) =
        let k = h (subst (λ v. has_name old v ≡ true) (eq_of_text_eq x n e) t) in ground (arith, k)

length-more_names :
    (old names new : List Text)
    → (length names == 0) ≡ false
    → (length (more_names old names new) == 0) ≡ false
unfolding more_names
length-more_names old names [] h = h
length-more_names old names (x ∷ xs) h = elim (Bool-cases (has_name old x)) [
  | inr f ↦
      rw f
        (length-more_names old (names ++ x ∷ []) xs (ground (arith, length-append names (x ∷ []))))
  | inl t ↦ rw t (length-more_names old names xs h)
]

takes-joined_names :
    (old new : List Text) (n : Text) → takes (joined_names old new) n ≡ (takes old n || takes new n)
takes-joined_names old new n = elim (Bool-cases (length old == 0)) [
  | inl y ↦ rw y refl
  | inr f ↦ elim (Bool-cases (length new == 0)) [
    | inl y ↦ rw (f, y) (ground arith)
    | inr g ↦
        rw (f, g)
          (takes-sort_strings (more_names old old new) n
            ∙ ground (
              arith,
              length-more_names old old new f,
              has_name-more_names old old new n (λ k. k),
            ))
  ]
]

-- Two parts that are the same, or not.
same_kind : (a b c : Text) → text_eq a b ≡ true → text_eq a c ≡ text_eq b c
same_kind a b c h = ap (λ v. text_eq v c) (eq_of_text_eq a b h)

other_kind : (a b c : Text) → text_eq a b ≡ false → text_eq b c ≡ true → text_eq a c ≡ false
other_kind a b c h e = subst (λ v. text_eq a v ≡ false) (eq_of_text_eq b c e) h

chosen-without_kind :
    (items : List RestoreSelection) (k kind n : Text)
    → chosen (without_kind items k) kind n ≡ (not (text_eq k kind) && chosen items kind n)
unfolding without_kind
chosen-without_kind [] k kind n = ground arith
chosen-without_kind (i ∷ is) k kind n = elim (Bool-cases (text_eq i.kind k)) [
  | inl y ↦ rw y (ground (arith, chosen-without_kind is k kind n, same_kind i.kind k kind y))
  | inr f ↦ rw f (ground (arith, chosen-without_kind is k kind n, other_kind i.kind k kind f))
]

chosen-with_selection :
    (items : List RestoreSelection) (s : RestoreSelection) (kind n : Text)
    → chosen (with_selection items s) kind n
      ≡ (if text_eq s.kind kind then takes s.names n else chosen items kind n)
unfolding with_selection
chosen-with_selection items s kind n =
    any-append (selects kind n) (without_kind items s.kind)
      (record s { names = sort_strings s.names } ∷ [])
    ∙ ground (arith, chosen-without_kind items s.kind kind n, takes-sort_strings s.names n)

chosen-with_more_names :
    (items : List RestoreSelection) (s : RestoreSelection) (kind n : Text)
    → chosen (with_more_names items s) kind n
      ≡ (chosen items kind n || text_eq s.kind kind && takes s.names n)
unfolding with_more_names
chosen-with_more_names [] s kind n = ground (arith, takes-sort_strings s.names n)
chosen-with_more_names (i ∷ is) s kind n = elim (Bool-cases (text_eq i.kind s.kind)) [
  | inl y ↦
      rw y (ground (arith, takes-joined_names i.names s.names n, same_kind i.kind s.kind kind y))
  | inr f ↦ rw f (ground (arith, chosen-with_more_names is s kind n))
]

-- The three changes of a basket, told by what it selects afterwards: a part put in replaces what was chosen of
-- it, names added join what was chosen, where the whole part is all of its names, and a part taken out is gone.
-- Other parts stay as they were.
pub chosen-changes :
    (items : List RestoreSelection) (s : RestoreSelection) (kind n : Text)
    → (chosen (with_selection items s) kind n
        ≡ (if text_eq s.kind kind then takes s.names n else chosen items kind n))
      × (chosen (with_more_names items s) kind n
          ≡ (chosen items kind n || text_eq s.kind kind && takes s.names n))
      × (chosen (without_kind items s.kind) kind n
          ≡ (not (text_eq s.kind kind) && chosen items kind n))
chosen-changes items s kind n = (
  chosen-with_selection items s kind n,
  chosen-with_more_names items s kind n,
  chosen-without_kind items s.kind kind n,
)
