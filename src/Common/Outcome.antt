-- ===== src/Common/Outcome.antt =====
-- A Go pair of a value and an error: `ok` is a nil error. Each component has its own error type.
use mathlib.Core.Path.{◌≡◌, refl, ap}
use mathlib.Core.Logic.{◌⊎◌, inl, inr}
use mathlib.Core.Bool.{Bool, true, false}
use mathlib.Core.Option.{Option, none, some}

pub data Result {ℓ} (E : Type 0) (A : Type ℓ) : Type ℓ where
  ok : A → Result E A
  err : E → Result E A

-- An early return when a guard holds, and one when a lookup found nothing.
abbrev pub refuse_if : {E : Type 0} → Bool → E → Result E (Unit {0})
refuse_if true e = err e
refuse_if false e = ok tt

abbrev pub or_fail {ℓ} : {E : Type 0} {A : Type ℓ} → Option A → E → Result E A
or_fail none e = err e
or_fail (some a) e = ok a

-- What follows a call, once its error was looked at.
infixl 5 ◌>>=◌ ◌>>◌
abbrev pub ◌>>=◌ {ℓ κ} :
    {E : Type 0} {A : Type ℓ} {B : Type κ} → Result E A → (A → Result E B) → Result E B
err reason >>= next = err reason
ok value >>= next = next value

-- A chain that succeeded, taken apart at its first step.
pub >>=-eq-ok {ℓ κ} :
    {E : Type 0} {A : Type ℓ} {B : Type κ} {answer : B} (r : Result E A) (next : A → Result E B)
    → (r >>= next) ≡ ok answer
    → (value : A) × (r ≡ ok value) × (next value ≡ ok answer)
>>=-eq-ok (err reason) next h = cc
>>=-eq-ok (ok value) next h = (value, refl, h)

abbrev pub ◌>>◌ {ℓ} : {E : Type 0} {B : Type ℓ} → Result E (Unit {0}) → Result E B → Result E B
guard >> rest = guard >>= λ _. rest

pub refuse_if-eq-ok : {E : Type 0} (b : Bool) (e : E) → refuse_if b e ≡ ok tt → b ≡ false
refuse_if-eq-ok true e h = cc
refuse_if-eq-ok false e h = refl

pub or_fail-eq-ok {ℓ} :
    {E : Type 0} {A : Type ℓ} (o : Option A) (e : E) (a : A) → or_fail o e ≡ ok a → o ≡ some a
or_fail-eq-ok none e a h = cc
or_fail-eq-ok (some b) e a h = cc

abbrev value_or {ℓ} : {E : Type 0} {A : Type ℓ} → A → Result E A → A
value_or d (ok a) = a
value_or d (err e) = d

abbrev error_or {ℓ} : {E : Type 0} {A : Type ℓ} → E → Result E A → E
error_or d (ok a) = d
error_or d (err e) = e

pub Result-cases {ℓ} :
    {E : Type 0} {A : Type ℓ} (r : Result E A) → ((a : A) × (r ≡ ok a)) ⊎ ((e : E) × (r ≡ err e))
Result-cases (ok a) = inl (a, refl)
Result-cases (err e) = inr (e, refl)

pub ok-injective {ℓ} :
    {E : Type 0} {A : Type ℓ} {a b : A} → ◌≡◌ {A = Result E A} (ok a) (ok b) → a ≡ b
ok-injective {a = a} h = ap (value_or a) h

pub err-injective {ℓ} :
    {E : Type 0} {A : Type ℓ} {x y : E} → ◌≡◌ {A = Result E A} (err x) (err y) → x ≡ y
err-injective {x = x} h = ap (error_or x) h
