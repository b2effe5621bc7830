-- ===== src/Vault/Tests.antt =====
-- A cipher that only adds a tag, and two vaults.
use cprestic.Common.{
  ◌+◌, ◌-◌, ◌≡◌, refl, ap, false, ◌∷◌, ◌++◌, Option, none, some, Text, text, ltb, if◌then◌else◌,
  arith, length, length-append, ok,
}
use cprestic.Vault.{Sealer, Draws, take, seal, open_blob, rewrap}
use cprestic.Vault.Opens.{IsLawful, TakesKeys, IsDrawn, cut_take, open_blob-seal, open_blob-rewrap}

abbrev tag : Text
tag = text "0123456789abcdef"

abbrev plain_open : Text → Option Text
plain_open c = if ltb (length c) 16 then none else some (take (length c - 16) c)

abbrev plain : Sealer
plain = record { seal = λ nonce t. t ++ tag; open_with = λ nonce c. plain_open c }

abbrev plain_cipher : Text → Option Sealer
plain_cipher key = some plain

plain_open-tag : (t : Text) → plain_open (t ++ tag) ≡ some t
plain_open-tag t =
    let l : length (t ++ tag) ≡ length t + 16 = length-append t tag in
    let f : ltb (length t + 16) 16 ≡ false = ground arith in
    let e : length t ≡ length t + 16 - 16 = omega arith in
    rw (l, f) (ap some (cut_take (length t + 16 - 16) t tag e))

plain-IsLawful : IsLawful plain
plain-IsLawful = (λ nonce t. plain_open-tag t, λ nonce t. length-append t tag)

plain_cipher-TakesKeys : TakesKeys plain_cipher
plain_cipher-TakesKeys key h = (plain, refl, plain-IsLawful)

abbrev key : Text
key = text "0123456789abcdef0123456789abcdef"

abbrev nonce : Text
nonce = text "0123456789ab"

abbrev draws : Draws
draws = record { data_key = some key; dek_nonce = some nonce; payload_nonce = some nonce }

draws-IsDrawn : IsDrawn draws
draws-IsDrawn = (key, nonce, nonce, refl, refl, refl, refl, refl, refl)

open_blob-seal_example :
    (blob : Text) × (seal plain_cipher plain draws (text "secret") ≡ ok blob)
    × (length blob ≡ length (text "secret") + 89)
    × (open_blob plain_cipher plain blob ≡ ok (text "secret"))
open_blob-seal_example =
    open_blob-seal plain_cipher plain draws (text "secret") plain_cipher-TakesKeys plain-IsLawful
      draws-IsDrawn

abbrev sealed : Text
sealed = 1 ∷ (nonce ++ ((key ++ tag) ++ (nonce ++ (text "secret" ++ tag))))

sealed_opens : open_blob plain_cipher plain sealed ≡ ok (text "secret")
unfolding open_blob
sealed_opens = refl

open_blob-rewrap_example :
    (out : Text) × (rewrap plain_cipher plain sealed plain draws ≡ ok out)
    × (open_blob plain_cipher plain out ≡ ok (text "secret"))
open_blob-rewrap_example =
    open_blob-rewrap plain_cipher plain plain draws sealed (text "secret") plain_cipher-TakesKeys
      plain-IsLawful draws-IsDrawn sealed_opens
