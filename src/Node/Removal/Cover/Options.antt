-- ===== src/Node/Removal/Cover/Options.antt =====
-- The repository that the search branches on, and its options: a selection that goes on to a cover has one
-- of them.
use cprestic.Common.{
  any-append, ℕ, zero, suc, ◌+◌, ◌≤◌, ◌≡◌, ◌≢◌, refl, sym, ap, subst, ◌⊎◌, inl, inr, Bool, true,
  false, not, ◌&&◌, ◌||◌, List, [], ◌∷◌, ◌++◌, Option, none, some, ltb, ◌==◌, arith, length, any,
  In, In-any, any_of_In, Bool-cases,
}
use cprestic.Node.Removal.Cover.Candidates.{In_of_contains}
use cprestic.Node.Removal.Cover.{
  PolicyCover, contains, candidate_at, holds_at, is_covered, all_covered, available, fewer, fewest,
}

-- Lists.
any-cong : (p q : ℕ → Bool) → ((n : ℕ) → p n ≡ q n) → (xs : List ℕ) → any p xs ≡ any q xs
any-cong p q h [] = refl
any-cong p q h (x ∷ xs) = ground (arith, h x, any-cong p q h xs)

pub remove :
    (i : ℕ) (xs : List ℕ)
    → In i xs
    → (ys : List ℕ) × (length xs ≡ suc (length ys))
      × ((p : ℕ → Bool) → any p xs ≡ (p i || any p ys))
remove i [] m = absurd m
remove i (x ∷ xs) (inl e) = (xs, refl, λ p. rw e refl)
remove i (x ∷ xs) (inr m) =
    let (ys, l, h) = remove i xs m in (x ∷ ys, omega (arith, l), λ p. ground (arith, h p))

-- The options of a repository are all the candidates that hold it and are not chosen.
available-In :
    (cs : List PolicyCover) (index : ℕ) (selected : List ℕ) (r i : ℕ)
    → holds_at cs r i ≡ true
    → contains selected (index + i) ≡ false
    → In (index + i) (available index cs selected r)
unfolding available candidate_at
available-In [] index selected r i h f = cc
available-In (c ∷ cs) index selected r zero h f =
    let e : index + 0 ≡ index = omega arith in
    let g : contains selected index ≡ false = rw e at f in rw (e, g, h) (inl refl)
available-In (c ∷ cs) index selected r (suc i) h f =
    let e : index + suc i ≡ suc index + i = omega arith in
    let m = available-In cs (suc index) selected r i h (rw e at f) in
    rw e (elim (Bool-cases (not (contains selected index) && contains c.repositories r)) [
      | inl t ↦ rw t (inr m)
      | inr t ↦ rw t m
    ])

option_In :
    (cs : List PolicyCover) (selected : List ℕ) (r i : ℕ)
    → holds_at cs r i ≡ true
    → is_covered cs selected r ≡ false
    → In i (available 0 cs selected r)
option_In cs selected r i h f =
    let e : 0 + i ≡ i = omega arith in
    subst (λ j. In j (available 0 cs selected r)) e
      (available-In cs 0 selected r i h (rw e (unchosen (Bool-cases (contains selected i)))))
  where
    unchosen :
        (contains selected i ≡ true) ⊎ (contains selected i ≡ false) → contains selected i ≡ false
    unchosen (inr n) = n
    unchosen (inl n) = absurd (
        let a = any_of_In (holds_at cs r) i selected (In_of_contains i selected n) h in
        ground (arith, a, f))

-- What the choice of the repository to branch on says.
abbrev Uncovered : List PolicyCover → List ℕ → List ℕ → ℕ → Type 0
Uncovered cs selected wanted r = In r wanted × (is_covered cs selected r ≡ false)

abbrev pub Branches : List PolicyCover → List ℕ → List ℕ → List ℕ → Type 0
Branches cs selected wanted options =
    (r : ℕ) × Uncovered cs selected wanted r × (options ≡ available 0 cs selected r)

deeper :
    (cs : List PolicyCover) (selected rs options : List ℕ) (q : ℕ)
    → Branches cs selected rs options
    → Branches cs selected (q ∷ rs) options
deeper cs selected rs options q (r, (m, f), e) = (r, (inr m, f), e)

fewer_cases :
    (options least : List ℕ) (best : Option (List ℕ))
    → fewer options best ≡ some least
    → (options ≡ least) ⊎ (best ≡ some least)
fewer_cases options least none h = inl (ground arith)
fewer_cases options least (some b) h = ground arith

pub fewest-some :
    (cs : List PolicyCover) (selected wanted options : List ℕ) (best : Option (List ℕ))
    → fewest cs selected wanted best ≡ some options
    → Branches cs selected wanted options ⊎ (best ≡ some options)
unfolding fewest
fewest-some cs selected [] options best h = inr h
fewest-some cs selected (r ∷ rs) options best h = elim (Bool-cases (is_covered cs selected r)) [
  | inl t ↦ elim (fewest-some cs selected rs options best (rw t at h)) [
    | inl b ↦ inl (deeper cs selected rs options r b)
    | inr e ↦ inr e
  ]
  | inr f ↦ elim (Bool-cases (length (available 0 cs selected r) == 0)) [
    | inl z ↦ absurd (let n : none ≡ some options = rw (f, z) at h in cc)
    | inr z ↦
        elim (fewest-some cs selected rs options (fewer (available 0 cs selected r) best)
          (rw (f, z) at h)) [
            | inl b ↦ inl (deeper cs selected rs options r b)
            | inr e ↦ elim (fewer_cases (available 0 cs selected r) options best e) [
              | inl o ↦ inl (r, (inl refl, f), sym o)
              | inr b ↦ inr b
            ]
          ]
  ]
]

fewer_ne : (options : List ℕ) (best : Option (List ℕ)) → fewer options best ≢ none
fewer_ne options none e = cc
fewer_ne options (some least) e = elim (Bool-cases (ltb (length options) (length least))) [
  | inl t ↦ let n : some options ≡ none = rw t at e in cc
  | inr t ↦ let n : some least ≡ none = rw t at e in cc
]

eq_nil_of_length : (xs : List ℕ) → (length xs == 0) ≡ true → xs ≡ []
eq_nil_of_length [] h = refl
eq_nil_of_length (x ∷ xs) h = absurd (ground arith)

abbrev is_open : List PolicyCover → List ℕ → ℕ → Bool
is_open cs selected r = not (is_covered cs selected r)

fewest-none :
    (cs : List PolicyCover) (selected wanted : List ℕ) (best : Option (List ℕ))
    → fewest cs selected wanted best ≡ none
    → ((best ≡ none) × (any (is_open cs selected) wanted ≡ false)) ⊎ Branches cs selected wanted []
unfolding fewest
fewest-none cs selected [] best h = inl (h, refl)
fewest-none cs selected (r ∷ rs) best h = elim (Bool-cases (is_covered cs selected r)) [
  | inl t ↦ elim (fewest-none cs selected rs best (rw t at h)) [
    | inl (e, n) ↦ inl (e, rw (t, n) refl)
    | inr b ↦ inr (deeper cs selected rs [] r b)
  ]
  | inr f ↦ elim (Bool-cases (length (available 0 cs selected r) == 0)) [
    | inl z ↦ inr (r, (inl refl, f), sym (eq_nil_of_length _ z))
    | inr z ↦
        elim (fewest-none cs selected rs (fewer (available 0 cs selected r) best)
          (rw (f, z) at h)) [
            | inl (e, n) ↦ absurd (fewer_ne (available 0 cs selected r) best e)
            | inr b ↦ inr (deeper cs selected rs [] r b)
          ]
  ]
]

-- A selection that covers, and goes on from one that leaves a repository open, has one of the options of
-- that repository.
pub covers_of_all :
    (cs : List PolicyCover) (wanted selected : List ℕ) (r : ℕ)
    → all_covered cs selected wanted ≡ true
    → In r wanted
    → is_covered cs selected r ≡ true
covers_of_all cs wanted selected r h m = elim (Bool-cases (is_covered cs selected r)) [
  | inl t ↦ t
  | inr n ↦
      absurd
        (let a = any_of_In (is_open cs selected) r wanted m (rw n refl) in ground (arith, a, h))
]

pub option_of_cover :
    (cs : List PolicyCover) (wanted selected more options : List ℕ)
    → all_covered cs (selected ++ more) wanted ≡ true
    → Branches cs selected wanted options
    → (i : ℕ) × In i more × In i options
option_of_cover cs wanted selected more options h (r, (m, f), e) =
    let c = covers_of_all cs wanted (selected ++ more) r h m in
    let a : any (holds_at cs r) more ≡ true =
      ground (arith, any-append (holds_at cs r) selected more, c, f) in
    let (i, n, t) = In-any (holds_at cs r) more a in
    (i, n, subst (In i) (sym e) (option_In cs selected r i t f))

-- To select one of the repositories that are left first.
pub all_covered-remove :
    (cs : List PolicyCover) (wanted selected more rest : List ℕ) (i : ℕ)
    → ((p : ℕ → Bool) → any p more ≡ (p i || any p rest))
    → all_covered cs ((selected ++ i ∷ []) ++ rest) wanted
      ≡ all_covered cs (selected ++ more) wanted
all_covered-remove cs wanted selected more rest i h =
    ap not (any-cong _ _ (λ r. ap not (same r)) wanted)
  where
    same :
        (r : ℕ)
        → is_covered cs ((selected ++ i ∷ []) ++ rest) r ≡ is_covered cs (selected ++ more) r
    same r = ground (
      arith,
      any-append (holds_at cs r) (selected ++ i ∷ []) rest,
      any-append (holds_at cs r) selected (i ∷ []),
      any-append (holds_at cs r) selected more,
      h (holds_at cs r),
    )

all_covered-nil :
    (cs : List PolicyCover) (wanted selected : List ℕ)
    → all_covered cs (selected ++ []) wanted ≡ all_covered cs selected wanted
all_covered-nil cs wanted selected = ap not (any-cong _ _ (λ r. ap not (same r)) wanted)
  where
    same : (r : ℕ) → is_covered cs (selected ++ []) r ≡ is_covered cs selected r
    same r = ground (arith, any-append (holds_at cs r) selected [])

pub one_left :
    (cs : List PolicyCover) (wanted selected more : List ℕ)
    → all_covered cs (selected ++ more) wanted ≡ true
    → all_covered cs selected wanted ≡ false
    → 1 ≤ length more
one_left cs wanted selected [] h f =
    absurd (ground (arith, all_covered-nil cs wanted selected, h, f))
one_left cs wanted selected (i ∷ is) h f = omega arith

pub not_stuck :
    (cs : List PolicyCover) (wanted selected more : List ℕ)
    → all_covered cs (selected ++ more) wanted ≡ true
    → all_covered cs selected wanted ≡ false
    → fewest cs selected wanted none ≢ none
not_stuck cs wanted selected more h f e = elim (fewest-none cs selected wanted none e) [
  | inl (b, n) ↦ let c : not false ≡ false = rw n at f in cc
  | inr b ↦ let (i, m, n) = option_of_cover cs wanted selected more [] h b in n
]
