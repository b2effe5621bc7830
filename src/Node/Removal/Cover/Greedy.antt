-- ===== src/Node/Removal/Cover/Greedy.antt =====
-- `greedyPolicyCover`: it ends, and what it returns covers what is wanted.
use cprestic.Common.{
  ℕ, zero, suc, ◌+◌, ◌≤◌, ◌<◌, ◌≡◌, refl, sym, ap, ◌∙◌, subst, ◌⊎◌, inl, inr, Bool, true, false,
  not, List, [], ◌∷◌, Option, none, some, some-injective, ◌==◌, arith, length, filter, count, In,
  In-any, In-filter, In-filter_intro, Bool-cases, Option-cases, eq_of_==,
}
use cprestic.Node.{Policy}
use cprestic.Node.Removal.Cover.{PolicyCover, contains, best_gain, greedy_from, candidate_at}
use cprestic.Node.Removal.Cover.Candidates.{contains_of_In, IsFrom, writes_to}
use cprestic.Node.Removal.Cover.Gain.{best_gain-some, best_gain-none}

-- A round covers what its pick holds; the others are left.
abbrev outside : PolicyCover → ℕ → Bool
outside c r = not (contains c.repositories r)

filter-length_le : (p : ℕ → Bool) (xs : List ℕ) → length (filter p xs) ≤ length xs
filter-length_le p [] = omega arith
filter-length_le p (x ∷ xs) = ground (arith, filter-length_le p xs)

filter-length_lt :
    (p : ℕ → Bool) (r : ℕ) (xs : List ℕ) → In r xs → p r ≡ false → length (filter p xs) < length xs
filter-length_lt p r [] m h = absurd m
filter-length_lt p r (x ∷ xs) (inl e) h =
    let t : p x ≡ false = rw e h in rw t (omega (arith, filter-length_le p xs))
filter-length_lt p r (x ∷ xs) (inr m) h = ground (arith, filter-length_lt p r xs m h)

In_of_added :
    (left rs : List ℕ) → 0 < count (contains left) rs → (r : ℕ) × In r left × (contains rs r ≡ true)
In_of_added left [] h = absurd (omega (arith, h))
In_of_added left (r ∷ rs) h = elim (Bool-cases (contains left r)) [
  | inl t ↦ let (q, m, e) = In-any (λ v. v == r) left t in (q, m, ground (arith, e))
  | inr f ↦ let (q, m, e) = In_of_added left rs (ground (arith, f, h)) in (q, m, ground (arith, e))
]

-- What greedy returns are policies, and each repository that is left has one of them that writes to it.
abbrev pub IsCover : List Policy → List ℕ → List Policy → Type 0
IsCover policies left ps =
    ((p : Policy) → In p ps → In p policies) × ((r : ℕ) → In r left → writes_to ps r ≡ true)

IsCover-cons :
    (policies : List Policy) (left : List ℕ) (c : PolicyCover) (rest : List Policy)
    → IsFrom policies c
    → IsCover policies (filter (outside c) left) rest
    → IsCover policies left (c.policy ∷ rest)
IsCover-cons policies left c rest (m, f) (g, h) = (member, writes)
  where
    member : (p : Policy) → In p (c.policy ∷ rest) → In p policies
    member p (inl e) = subst (λ q. In q policies) e m
    member p (inr n) = g p n

    writes : (r : ℕ) → In r left → writes_to (c.policy ∷ rest) r ≡ true
    writes r n = elim (Bool-cases (contains c.repositories r)) [
      | inl t ↦ ground (arith, f r t)
      | inr u ↦ ground (arith, h r (In-filter_intro (outside c) r left n (rw u refl)))
    ]

abbrev picking : PolicyCover → Option (List Policy) → Option (List Policy)
picking c none = none
picking c (some rest) = some (c.policy ∷ rest)

greedy_from-round :
    (fuel l : ℕ) (ls used : List ℕ) (cs : List PolicyCover) (i : ℕ) (c : PolicyCover)
    → best_gain (l ∷ ls) used 0 cs none 0 ≡ some (i, c)
    → greedy_from (suc fuel) (l ∷ ls) used cs
      ≡ picking c (greedy_from fuel (filter (outside c) (l ∷ ls)) (i ∷ used) cs)
unfolding greedy_from
greedy_from-round fuel l ls used cs i c e = rw (greedy_from, e) refl

pub greedy_from-IsCover :
    (policies : List Policy) (cs : List PolicyCover)
    → ((i : ℕ) (c : PolicyCover) → candidate_at cs i ≡ some c → IsFrom policies c)
    → (fuel : ℕ) (left used : List ℕ) (ps : List Policy) → greedy_from fuel left used cs ≡ some ps
    → IsCover policies left ps
unfolding greedy_from
greedy_from-IsCover policies cs from fuel [] used ps h =
    let e : [] ≡ ps = some-injective _ _ h in
    subst (IsCover policies []) e (λ p m. absurd m, λ r m. absurd m)
greedy_from-IsCover policies cs from zero (l ∷ ls) used ps h = cc
greedy_from-IsCover policies cs from (suc fuel) (l ∷ ls) used ps h =
    elim (Option-cases (best_gain (l ∷ ls) used 0 cs none 0)) [
      | inl n ↦ absurd (let x : none ≡ some ps = rw (greedy_from, n) at h in cc)
      | inr ((i, c), e) ↦
          elim (Option-cases (greedy_from fuel (filter (outside c) (l ∷ ls)) (i ∷ used) cs)) [
            | inl n ↦ absurd (
                let x : none ≡ some ps = rw (greedy_from-round fuel l ls used cs i c e, n) at h in
                cc)
            | inr (rest, n) ↦
                let x : some (c.policy ∷ rest) ≡ some ps =
                  rw (greedy_from-round fuel l ls used cs i c e, n) at h in
                subst (IsCover policies (l ∷ ls)) (some-injective _ _ x) (
                  IsCover-cons policies (l ∷ ls) c rest (picked i c e) (
                    greedy_from-IsCover policies cs from fuel (filter (outside c) (l ∷ ls))
                      (i ∷ used) rest n))
          ]
    ]
  where
    picked :
        (i : ℕ) (c : PolicyCover)
        → best_gain (l ∷ ls) used 0 cs none 0 ≡ some (i, c)
        → IsFrom policies c
    picked i c e = elim (best_gain-some (l ∷ ls) used 0 cs none 0 i c e) [
      | inl n ↦ absurd (let x : none ≡ some (i, c) = n in cc)
      | inr (k, j, a, g) ↦ from k c a
    ]

-- An unused candidate for each repository that is left: then greedy picks one, and what it leaves has
-- one again.
abbrev pub Held : List PolicyCover → List ℕ → List ℕ → Type 0
Held cs used left =
    (r : ℕ)
    → In r left
    → (k : ℕ) × (c : PolicyCover) × (candidate_at cs k ≡ some c)
      × (contains c.repositories r ≡ true)
      × (contains used k ≡ false)

added_of_In :
    (left rs : List ℕ) (r : ℕ) → In r left → contains rs r ≡ true → 0 < count (contains left) rs
added_of_In left [] r m h = cc
added_of_In left (q ∷ qs) r m h = elim (Bool-cases (q == r)) [
  | inl e ↦
      let p : q ≡ r = eq_of_== q r e in
      ground (arith, ap (contains left) p, contains_of_In r left m)
  | inr f ↦ ground (arith, f, added_of_In left qs r m (ground arith))
]

Held-next :
    (cs : List PolicyCover) (used left : List ℕ) (i : ℕ) (c : PolicyCover)
    → candidate_at cs i ≡ some c
    → Held cs used left
    → Held cs (i ∷ used) (filter (outside c) left)
Held-next cs used left i c e h r m =
    let (n, o) = In-filter (outside c) r left m in
    let (k, d, a, b, u) = h r n in (k, d, a, b, fresh r k d a b u o (Bool-cases (i == k)))
  where
    fresh :
        (r k : ℕ) (d : PolicyCover)
        → candidate_at cs k ≡ some d
        → contains d.repositories r ≡ true
        → contains used k ≡ false
        → outside c r ≡ true
        → ((i == k) ≡ true) ⊎ ((i == k) ≡ false)
        → contains (i ∷ used) k ≡ false
    fresh r k d a b u o (inr f) = ground (arith, f, u)
    fresh r k d a b u o (inl t) =
        let same : c ≡ d = some-injective _ _ (sym e ∙ ap (candidate_at cs) (eq_of_== i k t) ∙ a) in
        absurd (ground (arith, ap (λ x. contains x.repositories r) same, b, o))

pub greedy_from-some :
    (cs : List PolicyCover) (fuel : ℕ) (left used : List ℕ)
    → Held cs used left
    → length left ≤ fuel
    → (ps : List Policy) × (greedy_from fuel left used cs ≡ some ps)
unfolding greedy_from
greedy_from-some cs fuel [] used h l = ([], refl)
greedy_from-some cs zero (x ∷ xs) used h l = absurd (omega (arith, l))
greedy_from-some cs (suc fuel) (x ∷ xs) used h l =
    elim (Option-cases (best_gain (x ∷ xs) used 0 cs none 0)) [
      | inl n ↦ absurd (
          let (k, c, a, b, u) = h x (inl refl) in
          let (m, g) = best_gain-none (x ∷ xs) used 0 cs none 0 n in
          let z : 0 + k ≡ k = omega arith in
          omega (
            arith,
            g k c a (subst (λ j. contains used j ≡ false) (sym z) u),
            added_of_In (x ∷ xs) c.repositories x (inl refl) b,
          ))
      | inr ((i, c), e) ↦ elim (best_gain-some (x ∷ xs) used 0 cs none 0 i c e) [
        | inl n ↦ absurd (let y : none ≡ some (i, c) = n in cc)
        | inr (k, j, a, g) ↦
            let (r, m, t) = In_of_added (x ∷ xs) c.repositories g in
            let z : k ≡ i = omega (arith, j) in
            let (rest, q) =
              greedy_from-some cs fuel (filter (outside c) (x ∷ xs)) (i ∷ used)
                (Held-next cs used (x ∷ xs) i c (subst (λ v. candidate_at cs v ≡ some c) z a) h)
                (omega (arith, l, filter-length_lt (outside c) r (x ∷ xs) m (rw t refl))) in
            (c.policy ∷ rest, greedy_from-round fuel x xs used cs i c e ∙ ap (picking c) q)
      ]
    ]

-- The greedy loop ends with a cover: if every repository that is left is held by some candidate that is not used
-- yet, rounds as many as those repositories are enough for an answer. The answer is some of the policies that the
-- candidates come from, and each repository that was left has one of them that writes to it.
pub greedy_from-covers :
    (policies : List Policy) (cs : List PolicyCover) (fuel : ℕ) (left used : List ℕ)
    → ((i : ℕ) (c : PolicyCover) → candidate_at cs i ≡ some c → IsFrom policies c)
    → Held cs used left
    → length left ≤ fuel
    → (ps : List Policy) × (greedy_from fuel left used cs ≡ some ps) × IsCover policies left ps
greedy_from-covers policies cs fuel left used from h l =
    let (ps, e) = greedy_from-some cs fuel left used h l in
    (ps, e, greedy_from-IsCover policies cs from fuel left used ps e)
