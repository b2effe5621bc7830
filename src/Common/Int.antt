-- ===== src/Common/Int.antt =====
-- Go's signed `int` where a program tests its sign. `negsuc n` is -(n + 1). The values are counts that
-- an operator types in, far from the ends of a machine word.
use Prim.Native.Nat.{ℕ, suc, ◌+◌, ◌-◌, ◌%◌, ◌^◌, ◌≤◌, max, min}
use mathlib.Core.Path.{◌≡◌, refl}
use mathlib.Core.Bool.{Bool, true, false}
use native.Mathlib.Omega.{arith}
use cprestic.Common.Tests.{ltb, ◌==◌, if◌then◌else◌}

pub data ℤ : Type 0 where
  pos : ℕ → ℤ
  negsuc : ℕ → ℤ

abbrev pub pos_part : ℤ → ℕ
pos_part (pos n) = n
pos_part (negsuc n) = 0

abbrev pub neg_part : ℤ → ℕ
neg_part (pos n) = 0
neg_part (negsuc n) = suc n

infix 50 ◌≤ℤ◌
abbrev pub ◌≤ℤ◌ : ℤ → ℤ → Type 0
a ≤ℤ b = pos_part a + neg_part b ≤ pos_part b + neg_part a

-- The built-in `max`.
abbrev pub maxℤ : ℤ → ℤ → ℤ
maxℤ (pos a) (pos b) = pos (max a b)
maxℤ (pos a) (negsuc b) = pos a
maxℤ (negsuc a) (pos b) = pos b
maxℤ (negsuc a) (negsuc b) = negsuc (min a b)

abbrev pub is_negative : ℤ → Bool
is_negative (pos n) = false
is_negative (negsuc n) = true

abbrev pub is_positive : ℤ → Bool
is_positive (pos n) = ltb 0 n
is_positive (negsuc n) = false

abbrev pub eqℤ : ℤ → ℤ → Bool
eqℤ (pos a) (pos b) = a == b
eqℤ (negsuc a) (negsuc b) = a == b
eqℤ _ _ = false

pub eq_of_eqℤ : (a b : ℤ) → eqℤ a b ≡ true → a ≡ b
eq_of_eqℤ (pos a) (pos b) h = ground arith
eq_of_eqℤ (pos a) (negsuc b) h = cc
eq_of_eqℤ (negsuc a) (pos b) h = cc
eq_of_eqℤ (negsuc a) (negsuc b) h = ground arith

pub eqℤ_refl : (a : ℤ) → eqℤ a a ≡ true
eqℤ_refl (pos a) = ground arith
eqℤ_refl (negsuc a) = ground arith

pub maxℤ-le_left : (a b : ℤ) → a ≤ℤ maxℤ a b
maxℤ-le_left (pos a) (pos b) = omega arith
maxℤ-le_left (pos a) (negsuc b) = omega arith
maxℤ-le_left (negsuc a) (pos b) = omega arith
maxℤ-le_left (negsuc a) (negsuc b) = omega arith

pub maxℤ-le_right : (a b : ℤ) → b ≤ℤ maxℤ a b
maxℤ-le_right (pos a) (pos b) = omega arith
maxℤ-le_right (pos a) (negsuc b) = omega arith
maxℤ-le_right (negsuc a) (pos b) = omega arith
maxℤ-le_right (negsuc a) (negsuc b) = omega arith

-- Where a machine word has 64 bits: Go's `time.Duration`.
abbrev pub ltbℤ : ℤ → ℤ → Bool
ltbℤ (pos a) (pos b) = ltb a b
ltbℤ (pos a) (negsuc b) = false
ltbℤ (negsuc a) (pos b) = true
ltbℤ (negsuc a) (negsuc b) = ltb b a

-- A product that wraps around.
unfoldable pub wrap64 : ℕ → ℤ
wrap64 n = if ltb (n % 2 ^ 64) (2 ^ 63) then pos (n % 2 ^ 64) else negsuc (2 ^ 64 - 1 - n % 2 ^ 64)

-- `a.Sub(b)` of two times: the difference, or the nearest duration that there is.
unfoldable pub sub_time : ℕ → ℕ → ℤ
sub_time a b =
    if ltb a b then negsuc (min (b - a - 1) (2 ^ 63 - 1)) else pos (min (a - b) (2 ^ 63 - 1))

-- The later the second time, the smaller the difference.
pub sub_time-le :
    (a b c : ℕ) (d : ℤ) → b ≤ c → ltbℤ d (sub_time a b) ≡ false → ltbℤ d (sub_time a c) ≡ false
unfolding sub_time
sub_time-le a b c (pos d) h l = ground arith
sub_time-le a b c (negsuc d) h l = ground arith

pub ltbℤ_trans : (a b c : ℤ) → ltbℤ b a ≡ false → ltbℤ a c ≡ false → ltbℤ b c ≡ false
ltbℤ_trans (pos a) (pos b) (pos c) h l = ground arith
ltbℤ_trans (pos a) (pos b) (negsuc c) h l = refl
ltbℤ_trans (pos a) (negsuc b) c h l = cc
ltbℤ_trans (negsuc a) b (pos c) h l = cc
ltbℤ_trans (negsuc a) (pos b) (negsuc c) h l = refl
ltbℤ_trans (negsuc a) (negsuc b) (negsuc c) h l = ground arith

pub ltbℤ_irrefl : (a : ℤ) → ltbℤ a a ≡ false
ltbℤ_irrefl (pos a) = ground arith
ltbℤ_irrefl (negsuc a) = ground arith

pub ltbℤ_asym : (a b : ℤ) → ltbℤ a b ≡ true → ltbℤ b a ≡ false
ltbℤ_asym (pos a) (pos b) h = ground arith
ltbℤ_asym (pos a) (negsuc b) h = cc
ltbℤ_asym (negsuc a) (pos b) h = refl
ltbℤ_asym (negsuc a) (negsuc b) h = ground arith
