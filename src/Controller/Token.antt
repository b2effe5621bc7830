-- ===== src/Controller/Token.antt =====
-- `validClaimToken` of internal/controller/service.go. The Go loop runs over characters with the position of
-- their first byte; a character beyond ASCII is refused wherever it stands, as its first byte is here.
pub mod Shape
use cprestic.Common.{
  ℕ, suc, Bool, true, false, not, ◌&&◌, ◌||◌, List, [], ◌∷◌, Text, leb, ◌==◌, if◌then◌else◌, length,
}

abbrev pub is_hex : ℕ → Bool
is_hex c = (leb 48 c && leb c 57) || ((leb 97 c && leb c 102) || (leb 65 c && leb c 70))

abbrev pub is_dash : ℕ → Bool
is_dash c = c == 45

-- The `switch` on the position.
abbrev pub dash_at : ℕ → Bool
dash_at i = (i == 8) || ((i == 13) || ((i == 18) || (i == 23)))

abbrev pub char_ok : ℕ → ℕ → Bool
char_ok i c = if dash_at i then is_dash c else is_hex c

unfoldable pub chars_ok : ℕ → Text → Bool
chars_ok i [] = true
chars_ok i (c ∷ cs) = char_ok i c && chars_ok (suc i) cs

unfoldable pub valid_claim_token : Text → Bool
unfolding chars_ok
valid_claim_token token = if not (length token == 36) then false else chars_ok 0 token
