-- ===== src/Node/Removal/Cover/Candidates.antt =====
-- The candidates of `minimumPolicyCover`: what a policy covers of the repositories that are wanted.
use cprestic.Common.{
  ℕ, zero, suc, ◌≡◌, refl, ap, inl, inr, Bool, true, false, not, ◌&&◌, List, [], ◌∷◌, some,
  some-injective, subst, ◌==◌, arith, length, any, In, any_of_In, Bool-cases, eq_of_==, ==_refl,
}
use cprestic.Node.{Policy}
use cprestic.Node.Removal.Cover.{PolicyCover, contains, wanted_of, candidates_of, candidate_at}

-- Whether one of the policies writes to a repository, and whether each of some repositories has one.
abbrev pub writes_to : List Policy → ℕ → Bool
writes_to ps r = any (λ p. contains p.repository_ids r) ps

abbrev pub covers_each : List Policy → List ℕ → Bool
covers_each ps wanted = not (any (λ r. not (writes_to ps r)) wanted)

pub contains_of_In : (i : ℕ) (xs : List ℕ) → In i xs → contains xs i ≡ true
contains_of_In i xs m = any_of_In (λ v. v == i) i xs m (==_refl i)

pub In_of_contains : (i : ℕ) (xs : List ℕ) → contains xs i ≡ true → In i xs
In_of_contains i [] h = cc
In_of_contains i (x ∷ xs) h = elim (Bool-cases (x == i)) [
  | inl t ↦ inl (ground arith)
  | inr f ↦ inr (In_of_contains i xs (ground arith))
]

contains-wanted_of :
    (wanted seen rs : List ℕ) (r : ℕ)
    → contains (wanted_of wanted seen rs) r
      ≡ (contains wanted r && not (contains seen r) && contains rs r)
unfolding wanted_of
contains-wanted_of wanted seen [] r = ground arith
contains-wanted_of wanted seen (q ∷ qs) r = elim (Bool-cases (q == r)) [
  | inl e ↦
      let e' = eq_of_== q r e in
      ground (
        arith,
        e',
        ap (contains wanted) e',
        ap (contains seen) e',
        contains-wanted_of wanted (q ∷ seen) qs r,
        contains-wanted_of wanted seen qs r,
      )
  | inr f ↦
      ground (arith, contains-wanted_of wanted (q ∷ seen) qs r, contains-wanted_of wanted seen qs r)
]

-- A candidate is a policy, and what it covers is what the policy writes to.
abbrev pub IsFrom : List Policy → PolicyCover → Type 0
IsFrom policies c =
    In c.policy policies
    × ((r : ℕ) → contains c.repositories r ≡ true → contains c.policy.repository_ids r ≡ true)

abbrev cover_of : List ℕ → Policy → PolicyCover
cover_of wanted p = record { policy = p; repositories = wanted_of wanted [] p.repository_ids }

cover_of-IsFrom :
    (wanted : List ℕ) (p : Policy) (ps : List Policy) → IsFrom (p ∷ ps) (cover_of wanted p)
cover_of-IsFrom wanted p ps =
    (inl refl, λ r h. ground (arith, contains-wanted_of wanted [] p.repository_ids r, h))

IsFrom-cons : (p : Policy) (ps : List Policy) (c : PolicyCover) → IsFrom ps c → IsFrom (p ∷ ps) c
IsFrom-cons p ps c (m, f) = (inr m, f)

IsFrom-head :
    (wanted : List ℕ) (p : Policy) (ps : List Policy) (cs : List PolicyCover) (i : ℕ)
    (c : PolicyCover)
    → ((k : ℕ) → candidate_at cs k ≡ some c → IsFrom ps c)
    → candidate_at (cover_of wanted p ∷ cs) i ≡ some c
    → IsFrom (p ∷ ps) c
unfolding candidate_at
IsFrom-head wanted p ps cs zero c f h =
    let e : cover_of wanted p ≡ c = some-injective _ _ h in
    subst (IsFrom (p ∷ ps)) e (cover_of-IsFrom wanted p ps)
IsFrom-head wanted p ps cs (suc i) c f h = IsFrom-cons p ps c (f i h)

pub candidates_of_sound :
    (wanted : List ℕ) (policies : List Policy) (i : ℕ) (c : PolicyCover)
    → candidate_at (candidates_of wanted policies) i ≡ some c
    → IsFrom policies c
unfolding candidates_of candidate_at
candidates_of_sound wanted [] i c h = cc
candidates_of_sound wanted (p ∷ ps) i c h =
    elim (Bool-cases (length (wanted_of wanted [] p.repository_ids) == 0)) [
      | inl z ↦ IsFrom-cons p ps c (candidates_of_sound wanted ps i c (rw z at h))
      | inr z ↦
          IsFrom-head wanted p ps (candidates_of wanted ps) i c
            (λ k. candidates_of_sound wanted ps k c) (rw z at h)
    ]

-- A policy that writes to a wanted repository is a candidate, for all wanted repositories that it writes to.
abbrev pub Offers : List PolicyCover → List ℕ → Policy → Type 0
Offers cs wanted p =
    (i : ℕ) × (c : PolicyCover) × (candidate_at cs i ≡ some c)
    × ((r : ℕ) → contains wanted r ≡ true → contains c.repositories r ≡ contains p.repository_ids r)

Offers-cons :
    (wanted : List ℕ) (c : PolicyCover) (cs : List PolicyCover) (p : Policy)
    → Offers cs wanted p
    → Offers (c ∷ cs) wanted p
unfolding candidate_at
Offers-cons wanted c cs p (i, d, e, f) = (suc i, d, e, f)

none_of_length : (xs : List ℕ) (q : ℕ) → (length xs == 0) ≡ true → contains xs q ≡ false
none_of_length [] q h = refl
none_of_length (x ∷ xs) q h = absurd (ground arith)

contains-cover_of :
    (wanted : List ℕ) (p : Policy) (r : ℕ)
    → contains wanted r ≡ true
    → contains (cover_of wanted p).repositories r ≡ contains p.repository_ids r
contains-cover_of wanted p r w = ground (arith, contains-wanted_of wanted [] p.repository_ids r, w)

pub candidates_of_complete :
    (wanted : List ℕ) (policies : List Policy) (p : Policy) (q : ℕ)
    → In p policies
    → contains wanted q ≡ true
    → contains p.repository_ids q ≡ true
    → Offers (candidates_of wanted policies) wanted p
unfolding candidates_of candidate_at
candidates_of_complete wanted [] p q m w h = absurd m
candidates_of_complete wanted (o ∷ ps) p q (inl e) w h =
    elim (Bool-cases (length (wanted_of wanted [] o.repository_ids) == 0)) [
      | inl z ↦ absurd (
          let n = none_of_length (wanted_of wanted [] o.repository_ids) q z in
          let t : contains o.repository_ids q ≡ true = rw e h in
          ground (arith, contains-cover_of wanted o q w, n, t))
      | inr z ↦
          rw z (zero, cover_of wanted o, refl, λ r v. rw (← e) (contains-cover_of wanted o r v))
    ]
candidates_of_complete wanted (o ∷ ps) p q (inr m) w h =
    elim (Bool-cases (length (wanted_of wanted [] o.repository_ids) == 0)) [
      | inl z ↦ rw z (candidates_of_complete wanted ps p q m w h)
      | inr z ↦ rw z (
          Offers-cons wanted (cover_of wanted o) (candidates_of wanted ps) p
            (candidates_of_complete wanted ps p q m w h))
    ]
