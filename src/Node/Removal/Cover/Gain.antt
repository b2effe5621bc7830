-- ===== src/Node/Removal/Cover/Gain.antt =====
-- The loop of `greedyPolicyCover` that looks for the candidate that adds most.
use cprestic.Common.{
  ℕ, zero, suc, ◌+◌, ◌≤◌, ◌<◌, ◌≡◌, ap, subst, ◌⊎◌, inl, inr, false, not, ◌&&◌, List, [], ◌∷◌,
  Option, none, some, some-injective, ltb, arith, Bool-cases,
}
use cprestic.Node.Removal.Cover.{PolicyCover, contains, added, best_gain, candidate_at}

-- The candidate that adds most is one of the unused ones, and adds something.
abbrev IsPick : List ℕ → List ℕ → ℕ → List PolicyCover → ℕ → PolicyCover → Type 0
IsPick left used index cs i c =
    (k : ℕ) × (i ≡ index + k) × (candidate_at cs k ≡ some c) × (0 < added left c)

IsPick-cons :
    (left used : List ℕ) (index : ℕ) (d : PolicyCover) (cs : List PolicyCover) (i : ℕ)
    (c : PolicyCover)
    → IsPick left used (suc index) cs i c
    → IsPick left used index (d ∷ cs) i c
unfolding candidate_at
IsPick-cons left used index d cs i c (k, e, h, a) = (suc k, omega (arith, e), h, a)

pub best_gain-some :
    (left used : List ℕ) (index : ℕ) (cs : List PolicyCover) (best : Option (ℕ × PolicyCover))
    (gain i : ℕ) (c : PolicyCover)
    → best_gain left used index cs best gain ≡ some (i, c)
    → (best ≡ some (i, c)) ⊎ IsPick left used index cs i c
unfolding best_gain candidate_at
best_gain-some left used index [] best gain i c h = inl h
best_gain-some left used index (d ∷ cs) best gain i c h =
    elim (Bool-cases (not (contains used index) && ltb gain (added left d))) [
      | inl t ↦
          elim (best_gain-some left used (suc index) cs (some (index, d)) (added left d) i c
            (rw t at h)) [
              | inl e ↦
                  let p : (index, d) ≡ (i, c) = some-injective _ _ e in
                  inr (
                    zero,
                    omega (arith, ap (λ x. x.0) p),
                    ap (λ x. some x.1) p,
                    subst (λ x. 0 < added left x) (ap (λ x. x.1) p) (ground (arith, t)),
                  )
              | inr m ↦ inr (IsPick-cons left used index d cs i c m)
            ]
      | inr f ↦ elim (best_gain-some left used (suc index) cs best gain i c (rw f at h)) [
        | inl e ↦ inl e
        | inr m ↦ inr (IsPick-cons left used index d cs i c m)
      ]
    ]

-- Where none is picked, no unused candidate adds anything.
abbrev NoGain : List ℕ → List ℕ → ℕ → List PolicyCover → ℕ → Type 0
NoGain left used index cs gain =
    (k : ℕ) (c : PolicyCover)
    → candidate_at cs k ≡ some c
    → contains used (index + k) ≡ false
    → added left c ≤ gain

NoGain-cons :
    (left used : List ℕ) (index : ℕ) (d : PolicyCover) (cs : List PolicyCover) (gain : ℕ)
    → (not (contains used index) && ltb gain (added left d)) ≡ false
    → NoGain left used (suc index) cs gain
    → NoGain left used index (d ∷ cs) gain
unfolding candidate_at
NoGain-cons left used index d cs gain f rest zero c e u =
    let p : d ≡ c = some-injective _ _ e in
    let i : index + 0 ≡ index = omega arith in
    let v : contains used index ≡ false = subst (λ j. contains used j ≡ false) i u in
    subst (λ x. added left x ≤ gain) p (ground (arith, f, v))
NoGain-cons left used index d cs gain f rest (suc k) c e u =
    let i : index + suc k ≡ suc index + k = omega arith in
    rest k c e (subst (λ j. contains used j ≡ false) i u)

pub best_gain-none :
    (left used : List ℕ) (index : ℕ) (cs : List PolicyCover) (best : Option (ℕ × PolicyCover))
    (gain : ℕ)
    → best_gain left used index cs best gain ≡ none
    → (best ≡ none) × NoGain left used index cs gain
unfolding best_gain candidate_at
best_gain-none left used index [] best gain h = (h, λ k c e. cc)
best_gain-none left used index (d ∷ cs) best gain h =
    elim (Bool-cases (not (contains used index) && ltb gain (added left d))) [
      | inl t ↦
          let (n, rest) =
            best_gain-none left used (suc index) cs (some (index, d)) (added left d) (rw t at h) in
          absurd (let x : some (index, d) ≡ none = n in cc)
      | inr f ↦
          let (n, rest) = best_gain-none left used (suc index) cs best gain (rw f at h) in
          (n, NoGain-cons left used index d cs gain f rest)
    ]
