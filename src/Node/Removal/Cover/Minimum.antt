-- ===== src/Node/Removal/Cover/Minimum.antt =====
-- `minimumPolicyCover`: what it returns is a cover, and no other cover is shorter.
use cprestic.Common.{
  ℕ, suc, ◌≤◌, ◌≡◌, refl, ap, ◌∙◌, subst, ◌⊎◌, inl, inr, true, false, not, List, [], ◌∷◌, none,
  some, ◌==◌, arith, length, any, In, In-any, any_of_In, any-false, Bool-cases, Option-cases,
}
use cprestic.Node.{Policy}
use cprestic.Node.Removal.Cover.{
  PolicyCover, contains, candidates_of, candidate_at, holds_at, is_covered, all_covered,
  policies_at, greedy_from, greedy_policy_cover, minimum_policy_cover,
}
use cprestic.Node.Removal.Cover.Candidates.{
  IsFrom, writes_to, covers_each, contains_of_In, In_of_contains, candidates_of_sound,
  candidates_of_complete,
}
use cprestic.Node.Removal.Cover.Greedy.{IsCover, Held, greedy_from-IsCover, greedy_from-some}
use cprestic.Node.Removal.Cover.Options.{covers_of_all}
use cprestic.Node.Removal.Cover.Search.{search_from-minimal, search_from-keeps}

-- The policies at a selection that covers are a cover.
policies_at-none :
    (cs : List PolicyCover) (i : ℕ) (is : List ℕ)
    → candidate_at cs i ≡ none
    → policies_at cs (i ∷ is) ≡ policies_at cs is
unfolding policies_at
policies_at-none cs i is e = rw (policies_at, e) refl

policies_at-some :
    (cs : List PolicyCover) (i : ℕ) (is : List ℕ) (c : PolicyCover)
    → candidate_at cs i ≡ some c
    → policies_at cs (i ∷ is) ≡ c.policy ∷ policies_at cs is
unfolding policies_at
policies_at-some cs i is c e = rw (policies_at, e) refl

holds_at-none :
    (cs : List PolicyCover) (i r : ℕ) → candidate_at cs i ≡ none → holds_at cs r i ≡ false
holds_at-none cs i r e = rw (holds_at, e) refl

holds_at-some :
    (cs : List PolicyCover) (i r : ℕ) (c : PolicyCover)
    → candidate_at cs i ≡ some c
    → holds_at cs r i ≡ contains c.repositories r
holds_at-some cs i r c e = rw (holds_at, e) refl

In-cons_cases :
    (p c : Policy) (ps all : List Policy)
    → In c all
    → (In p ps → In p all)
    → In p (c ∷ ps)
    → In p all
In-cons_cases p c ps all m f (inl e) = subst (λ q. In q all) e m
In-cons_cases p c ps all m f (inr n) = f n

module _ (policies : List Policy) (cs : List PolicyCover)
    (from : (i : ℕ) (c : PolicyCover) → candidate_at cs i ≡ some c → IsFrom policies c) where
  policies_at-In : (is : List ℕ) (p : Policy) → In p (policies_at cs is) → In p policies
  unfolding policies_at
  policies_at-In [] p m = absurd m
  policies_at-In (i ∷ is) p m = elim (Option-cases (candidate_at cs i)) [
    | inl n ↦ policies_at-In is p (subst (In p) (policies_at-none cs i is n) m)
    | inr (c, e) ↦
        In-cons_cases p c.policy (policies_at cs is) policies ((from i c e).0) (policies_at-In is p)
          (subst (In p) (policies_at-some cs i is c e) m)
  ]

  writes_to-policies_at :
      (is : List ℕ) (r : ℕ) → is_covered cs is r ≡ true → writes_to (policies_at cs is) r ≡ true
  unfolding policies_at
  writes_to-policies_at [] r h = cc
  writes_to-policies_at (i ∷ is) r h = elim (Option-cases (candidate_at cs i)) [
    | inl n ↦
        rw (policies_at-none cs i is n)
          (writes_to-policies_at is r (ground (arith, holds_at-none cs i r n, h)))
    | inr (c, e) ↦ rw (policies_at-some cs i is c e) (
        let (m, f) = from i c e in
        ground (arith, holds_at-some cs i r c e, h, f r, writes_to-policies_at is r))
  ]

-- A cover is a selection of candidates that is no longer.
Selected : List PolicyCover → List ℕ → List Policy → Type 0
Selected cs missing chosen =
    (is : List ℕ) × (length is ≤ length chosen)
    × ((r : ℕ) → contains missing r ≡ true → writes_to chosen r ≡ true → is_covered cs is r ≡ true)

select :
    (missing : List ℕ) (policies chosen : List Policy)
    → ((p : Policy) → In p chosen → In p policies)
    → Selected (candidates_of missing policies) missing chosen
unfolding Selected
select missing policies [] h = ([], omega arith, λ r m w. cc)
select missing policies (p ∷ ps) h =
    let (is, l, f) = select missing policies ps (λ q m. h q (inr m)) in
    elim (Bool-cases (any (contains p.repository_ids) missing)) [
      | inl t ↦
          let (q, m, w) = In-any (contains p.repository_ids) missing t in
          let (i, c, e, g) =
            candidates_of_complete missing policies p q (h p (inl refl))
              (contains_of_In q missing m) w in
          (
            i ∷ is,
            omega (arith, l),
            λ r n v.
                ground
                  (arith, holds_at-some (candidates_of missing policies) i r c e, g r n, f r n, v),
          )
      | inr u ↦ (
        is,
        omega (arith, l),
        λ r n v. f r n (skipped r (Bool-cases (contains p.repository_ids r)) n u v),
      )
    ]
  where
    skipped :
        (r : ℕ)
        → (contains p.repository_ids r ≡ true) ⊎ (contains p.repository_ids r ≡ false)
        → contains missing r ≡ true
        → any (contains p.repository_ids) missing ≡ false
        → writes_to (p ∷ ps) r ≡ true
        → writes_to ps r ≡ true
    skipped r (inr f) n u v = ground (arith, f, v)
    skipped r (inl t) n u v = absurd (
        let a = any_of_In (contains p.repository_ids) r missing (In_of_contains r missing n) t in
        ground (arith, a, u))

writes_of_covers :
    (ps : List Policy) (missing : List ℕ) (r : ℕ)
    → covers_each ps missing ≡ true
    → In r missing
    → writes_to ps r ≡ true
writes_of_covers ps missing r h m = elim (Bool-cases (writes_to ps r)) [
  | inl t ↦ t
  | inr f ↦ absurd (
      let a = any_of_In (λ q. not (writes_to ps q)) r missing m (rw f refl) in ground (arith, a, h))
]

pub Held-candidates :
    (missing : List ℕ) (policies chosen : List Policy)
    → ((p : Policy) → In p chosen → In p policies)
    → covers_each chosen missing ≡ true
    → Held (candidates_of missing policies) [] missing
Held-candidates missing policies chosen sub h r m =
    let (p, n, w) =
      In-any (λ p. contains p.repository_ids r) chosen (writes_of_covers chosen missing r h m) in
    let c = contains_of_In r missing m in
    let (i, d, e, g) = candidates_of_complete missing policies p r (sub p n) c w in
    (i, d, e, g r c ∙ w, refl)

all_covered-select :
    (missing : List ℕ) (policies chosen : List Policy)
    → ((p : Policy) → In p chosen → In p policies)
    → covers_each chosen missing ≡ true
    → (is : List ℕ) × (length is ≤ length chosen)
      × (all_covered (candidates_of missing policies) is missing ≡ true)
unfolding Selected
all_covered-select missing policies chosen sub h =
    let (is, l, f) = select missing policies chosen sub in
    (
      is,
      l,
      ap not (
          any-false _ missing (λ r m.
            ap not (f r (contains_of_In r missing m) (writes_of_covers chosen missing r h m)))),
    )

greedy_some :
    (missing : List ℕ) (cs : List PolicyCover)
    → Held cs [] missing
    → (ps : List Policy) × (greedy_policy_cover missing cs ≡ ps)
      × (greedy_from (suc (length missing)) missing [] cs ≡ some ps)
unfolding greedy_policy_cover
greedy_some missing cs h =
    let (ps, e) = greedy_from-some cs (suc (length missing)) missing [] h (omega arith) in
    (ps, rw (greedy_policy_cover, e) refl, e)

eq_nil : (ps : List Policy) → (length ps == 0) ≡ true → ps ≡ []
eq_nil [] h = refl
eq_nil (p ∷ ps) h = absurd (ground arith)

-- The smallest cover. Given some of the policies such that each missing repository has one of them that
-- writes to it, the policies that `minimumPolicyCover` returns are also some of the policies, each missing
-- repository has one of them that writes to it, and they are not more than those given.
pub minimum_policy_cover-least :
    (missing : List ℕ) (policies chosen : List Policy)
    → ((p : Policy) → In p chosen → In p policies)
    → covers_each chosen missing ≡ true
    → IsCover policies missing (minimum_policy_cover missing policies)
      × (length (minimum_policy_cover missing policies) ≤ length chosen)
unfolding minimum_policy_cover
minimum_policy_cover-least missing policies chosen sub h =
    let cs = candidates_of missing policies in
    let from = candidates_of_sound missing policies in
    let (ps, e, g) = greedy_some missing cs (Held-candidates missing policies chosen sub h) in
    let cover = greedy_from-IsCover policies cs from (suc (length missing)) missing [] ps g in
    let (is, l, c) = all_covered-select missing policies chosen sub h in
    elim (Bool-cases (length ps == 0)) [
      | inl z ↦ rw (e, z) (subst (IsCover policies missing) (eq_nil ps z) cover, omega arith)
      | inr z ↦
          rw (e, z)
            (
              search_from-keeps cs missing (IsCover policies missing)
                  (λ selected t. (
                    policies_at-In policies cs from selected,
                    λ r m.
                        writes_to-policies_at policies cs from selected r
                          (covers_of_all cs missing selected r t m),
                  ))
                  (length ps) [] ps cover,
              omega (arith, l, search_from-minimal (length ps) cs missing [] is ps c (omega arith)),
            )
    ]
