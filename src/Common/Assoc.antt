-- ===== src/Common/Assoc.antt =====
-- A Go map from identities, as an association list.
use Prim.Native.Nat.{ℕ}
use mathlib.Core.Path.{◌≡◌, refl, ap}
use mathlib.Core.Logic.{◌⊎◌, inl, inr}
use mathlib.Core.Bool.{false}
use mathlib.Core.Option.{Option, none, some, some-injective}
use mathlib.Core.List.{List, [], ◌∷◌}
use native.Mathlib.Omega.{arith}
use cprestic.Common.Tests.{◌==◌, if◌then◌else◌, Bool-cases, eq_of_==, ==_refl}
use cprestic.Common.Lists.{In}

-- `v, ok := m[k]`, and `m[k] = a`.
module _ {A : Type 0} where
  abbrev pub lookup : ℕ → List (ℕ × A) → Option A
  lookup k [] = none
  lookup k (e ∷ es) = if e.0 == k then some e.1 else lookup k es

  abbrev pub assign : ℕ → A → List (ℕ × A) → List (ℕ × A)
  assign k a [] = (k, a) ∷ []
  assign k a (e ∷ es) = if e.0 == k then (k, a) ∷ es else e ∷ assign k a es

  pub lookup-In : (k : ℕ) (a : A) (m : List (ℕ × A)) → lookup k m ≡ some a → In (k, a) m
  lookup-In k a [] h = cc
  lookup-In k a ((l, b) ∷ m) h = elim (Bool-cases (l == k)) [
    | inl t ↦ let e : b ≡ a = some-injective _ _ (rw t at h) in inl (rw (e, eq_of_== l k t) refl)
    | inr f ↦ inr (lookup-In k a m (rw f at h))
  ]

  pub In-assign :
      (k l : ℕ) (a b : A) (m : List (ℕ × A))
      → In (l, b) (assign k a m)
      → ((k ≡ l) × (a ≡ b)) ⊎ In (l, b) m
  In-assign k l a b [] (inl e) = inl (ap (λ x. x.0) e, ap (λ x. x.1) e)
  In-assign k l a b [] (inr n) = absurd n
  In-assign k l a b ((i, c) ∷ m) h = elim (Bool-cases (i == k)) [
    | inl t ↦ here (rw t at h)
    | inr f ↦ there (In-assign k l a b m) (rw f at h)
  ]
    where
      here : In (l, b) ((k, a) ∷ m) → ((k ≡ l) × (a ≡ b)) ⊎ In (l, b) ((i, c) ∷ m)
      here (inl e) = inl (ap (λ x. x.0) e, ap (λ x. x.1) e)
      here (inr n) = inr (inr n)

      there :
          (In (l, b) (assign k a m) → ((k ≡ l) × (a ≡ b)) ⊎ In (l, b) m)
          → In (l, b) ((i, c) ∷ assign k a m)
          → ((k ≡ l) × (a ≡ b)) ⊎ In (l, b) ((i, c) ∷ m)
      there f (inl e) = inr (inl e)
      there f (inr n) = elim (f n) [ inl e ↦ inl e | inr q ↦ inr (inr q) ]

  pub lookup-assign_same : (k : ℕ) (a : A) (m : List (ℕ × A)) → lookup k (assign k a m) ≡ some a
  lookup-assign_same k a [] = rw (==_refl k) refl
  lookup-assign_same k a ((i, c) ∷ m) = elim (Bool-cases (i == k)) [
    | inl t ↦ rw (t, ==_refl k) refl
    | inr f ↦ rw (f, f) (lookup-assign_same k a m)
  ]

  pub lookup-assign_other :
      (k l : ℕ) (a : A) (m : List (ℕ × A)) → (k == l) ≡ false → lookup l (assign k a m) ≡ lookup l m
  lookup-assign_other k l a [] h = rw h refl
  lookup-assign_other k l a ((i, c) ∷ m) h = elim (Bool-cases (i == k)) [
    | inl t ↦ let e : (i == l) ≡ false = ground (arith, t, h) in rw (t, h, e) refl
    | inr f ↦ rw f (ap (λ o. if i == l then some c else o) (lookup-assign_other k l a m h))
  ]
