-- ===== src/Node/Removal/Cover/Search.antt =====
-- The search against any other selection: what it returns is never longer.
use cprestic.Common.{
  ℕ, zero, suc, ◌+◌, ◌≤◌, ◌≡◌, ◌∙◌, inl, inr, true, List, [], ◌∷◌, ◌++◌, none, some, ltb, leb,
  arith, length, In, length-append, Bool-cases, Option-cases,
}
use cprestic.Node.{Policy}
use cprestic.Node.Removal.Cover.{
  PolicyCover, all_covered, fewest, policies_at, try_each, search_from,
}
use cprestic.Node.Removal.Cover.Options.{
  Branches, all_covered-remove, fewest-some, not_stuck, one_left, option_of_cover, remove,
}

-- A loop over branches that never lengthen the best cover.
module _ (branch : ℕ → List Policy → List Policy)
    (shorter : (i : ℕ) (b : List Policy) → length (branch i b) ≤ length b) where
  try_each-le : (is : List ℕ) (best : List Policy) → length (try_each branch is best) ≤ length best
  unfolding try_each
  try_each-le [] best = omega arith
  try_each-le (i ∷ is) best = omega (arith, try_each-le is (branch i best), shorter i best)

  try_each-reaches :
      (i k : ℕ) (is : List ℕ) (best : List Policy)
      → In i is
      → ((b : List Policy) → length b ≤ length best → length (branch i b) ≤ k)
      → length (try_each branch is best) ≤ k
  unfolding try_each
  try_each-reaches i k [] best m h = absurd m
  try_each-reaches i k (j ∷ is) best (inl e) h = omega (arith, try_each-le is (branch j best), here)
    where
      here : length (branch j best) ≤ k
      here = rw e (h best (omega arith))
  try_each-reaches i k (j ∷ is) best (inr m) h =
      try_each-reaches i k is (branch j best) m (λ b l. h b (omega (arith, shorter j best)))

length-policies_at : (cs : List PolicyCover) (is : List ℕ) → length (policies_at cs is) ≤ length is
unfolding policies_at
length-policies_at cs [] = omega arith
length-policies_at cs (i ∷ is) = ground (arith, length-policies_at cs is)

-- The search never returns more policies than it was given.
pub search_from-le :
    (fuel : ℕ) (cs : List PolicyCover) (wanted selected : List ℕ) (best : List Policy)
    → length (search_from fuel cs wanted selected best) ≤ length best
unfolding search_from
search_from-le zero cs wanted selected best = omega arith
search_from-le (suc fuel) cs wanted selected best =
    elim (Bool-cases (all_covered cs selected wanted)) [
      | inl t ↦ elim (Bool-cases (ltb (length selected) (length best))) [
        | inl l ↦ rw (t, l) (ground (arith, length-policies_at cs selected))
        | inr l ↦ rw (t, l) (omega arith)
      ]
      | inr f ↦ elim (Bool-cases (leb (length best) (length selected + 1))) [
        | inl l ↦ rw (f, l) (omega arith)
        | inr l ↦ elim (Option-cases (fewest cs selected wanted none)) [
          | inl n ↦ rw (f, l, n) (omega arith)
          | inr (options, e) ↦
              rw (f, l, e)
                (try_each-le (λ i b. search_from fuel cs wanted (selected ++ i ∷ []) b)
                  (λ i b. search_from-le fuel cs wanted (selected ++ i ∷ []) b) options best)
        ]
      ]
    ]

-- No selection that goes on from the one at hand and covers what is wanted is shorter than the result.
pub search_from-minimal :
    (fuel : ℕ) (cs : List PolicyCover) (wanted selected more : List ℕ) (best : List Policy)
    → all_covered cs (selected ++ more) wanted ≡ true
    → length best ≤ length selected + fuel
    → length (search_from fuel cs wanted selected best) ≤ length selected + length more
unfolding search_from
search_from-minimal zero cs wanted selected more best h l = omega arith
search_from-minimal (suc fuel) cs wanted selected more best h l =
    elim (Bool-cases (all_covered cs selected wanted)) [
      | inl t ↦ elim (Bool-cases (ltb (length selected) (length best))) [
        | inl s ↦ rw (t, s) (omega (arith, length-policies_at cs selected))
        | inr s ↦ rw (t, s) (ground arith)
      ]
      | inr f ↦ elim (Bool-cases (leb (length best) (length selected + 1))) [
        | inl s ↦ rw (f, s) (ground (arith, one_left cs wanted selected more h f))
        | inr s ↦ elim (Option-cases (fewest cs selected wanted none)) [
          | inl n ↦ absurd (not_stuck cs wanted selected more h f n)
          | inr (options, e) ↦
              rw (f, s, e)
                (let (i, m, o) =
                    option_of_cover cs wanted selected more options h (some_branches options e) in
                  let (rest, n, p) = remove i more m in
                  let c = all_covered-remove cs wanted selected more rest i p ∙ h in
                  try_each-reaches (λ j b. search_from fuel cs wanted (selected ++ j ∷ []) b)
                    (λ j b. search_from-le fuel cs wanted (selected ++ j ∷ []) b) i
                    (length selected + length more) options best o
                    (λ b k. omega (
                      arith,
                      search_from-minimal fuel cs wanted (selected ++ i ∷ []) rest b c
                          (omega (arith, length-append selected (i ∷ []))),
                      length-append selected (i ∷ []),
                    )))
        ]
      ]
    ]
  where
    some_branches :
        (options : List ℕ)
        → fewest cs selected wanted none ≡ some options
        → Branches cs selected wanted options
    some_branches options e = elim (fewest-some cs selected wanted options none e) [
      | inl b ↦ b
      | inr n ↦ absurd (let x : none ≡ some options = n in cc)
    ]

-- What holds of the best cover known and of the policies at each selection that covers holds of the result.
module _ (cs : List PolicyCover) (wanted : List ℕ) (Good : List Policy → Type 0)
    (found : (selected : List ℕ)
      → all_covered cs selected wanted ≡ true
      → Good (policies_at cs selected)) where
  try_each-keeps :
      (branch : ℕ → List Policy → List Policy)
      → ((i : ℕ) (b : List Policy) → Good b → Good (branch i b))
      → (is : List ℕ) (best : List Policy) → Good best
      → Good (try_each branch is best)
  unfolding try_each
  try_each-keeps branch h [] best g = g
  try_each-keeps branch h (i ∷ is) best g = try_each-keeps branch h is (branch i best) (h i best g)

  pub search_from-keeps :
      (fuel : ℕ) (selected : List ℕ) (best : List Policy)
      → Good best
      → Good (search_from fuel cs wanted selected best)
  unfolding search_from
  search_from-keeps zero selected best g = g
  search_from-keeps (suc fuel) selected best g =
      elim (Bool-cases (all_covered cs selected wanted)) [
        | inl t ↦ elim (Bool-cases (ltb (length selected) (length best))) [
          | inl l ↦ rw (t, l) (found selected t)
          | inr l ↦ rw (t, l) g
        ]
        | inr f ↦ elim (Bool-cases (leb (length best) (length selected + 1))) [
          | inl l ↦ rw (f, l) g
          | inr l ↦ elim (Option-cases (fewest cs selected wanted none)) [
            | inl n ↦ rw (f, l, n) g
            | inr (options, e) ↦
                rw (f, l, e)
                  (try_each-keeps (λ i b. search_from fuel cs wanted (selected ++ i ∷ []) b)
                    (λ i b h. search_from-keeps fuel (selected ++ i ∷ []) b h) options best g)
          ]
        ]
      ]
