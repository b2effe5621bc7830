-- ===== src/Restic/Words.antt =====
-- The string functions that resticrun calls: `strconv.Itoa`, `strings.CutPrefix`, equality.
use cprestic.Common.{
  ℕ, zero, suc, ◌+◌, ◌/◌, ◌%◌, ◌≡◌, refl, Bool, true, false, ◌&&◌, ◌||◌, not, List, [], ◌∷◌, Option,
  none, some, Text, text, text_eq, ltb, leb, ◌==◌, if◌then◌else◌, arith, any, length,
}

-- Decimal digits, most significant first; a number has fewer digits than its successor.
itoa_within : ℕ → ℕ → Text → Text
itoa_within zero n rest = rest
itoa_within (suc fuel) n rest =
    let more = itoa_within fuel (n / 10) ((n % 10 + 48) ∷ rest) in
    if ltb n 10 then (n + 48) ∷ rest else more

unfoldable pub itoa : ℕ → Text
unfolding itoa_within
itoa n = itoa_within (suc n) n []

-- The rest of a text after a prefix that it has.
unfoldable pub cut_prefix : Text → Text → Option Text
cut_prefix t [] = some t
cut_prefix [] (p ∷ ps) = none
cut_prefix (c ∷ t) (p ∷ ps) = if c == p then cut_prefix t ps else none

unfoldable pub has_text : List Text → Text → Bool
has_text ts want = any (λ t. text_eq t want) ts

pub text_eq_refl : (t : Text) → text_eq t t ≡ true
unfolding text_eq
text_eq_refl [] = refl
text_eq_refl (c ∷ t) = ground (arith, text_eq_refl t)

pub eq_of_text_eq : (s t : Text) → text_eq s t ≡ true → s ≡ t
unfolding text_eq
eq_of_text_eq [] [] h = refl
eq_of_text_eq [] (c ∷ t) h = cc
eq_of_text_eq (c ∷ s) [] h = cc
eq_of_text_eq (c ∷ s) (d ∷ t) h = ground (arith, eq_of_text_eq s t)

-- `validateSnapshotID` of restore.go.
abbrev pub is_hex : ℕ → Bool
is_hex c = (leb b'0' c && leb c b'9') || (leb b'a' c && leb c b'f')

abbrev pub all_hex : Text → Bool
all_hex [] = true
all_hex (c ∷ t) = is_hex c && all_hex t

abbrev pub latest : Text
latest = text "latest"

unfoldable pub valid_snapshot_id : Text → Bool
unfolding text_eq
valid_snapshot_id id =
    not (length id == 0)
    && (text_eq id latest || (leb 8 (length id) && (leb (length id) 64 && all_hex id)))

-- Go's `<` on strings.
unfoldable pub text_lt : Text → Text → Bool
text_lt s [] = false
text_lt [] (d ∷ t) = true
text_lt (c ∷ s) (d ∷ t) = ltb c d || ((c == d) && text_lt s t)
