-- ===== src/Vault.antt =====
-- internal/vault/vault.go: sealing and opening the secrets that the database keeps.
--
-- The cryptographic library is a parameter: `cipher` is `newAEAD`, none where the key has a length that AES
-- refuses, and a `Sealer` has the two operations of `cipher.AEAD` without additional data. The three draws
-- of random bytes are arguments, none where the system has none to give. The master key's id, reading the key file and
-- overwriting key material are not modelled.
pub mod Opens
mod Tests
use cprestic.Common.{
  ℕ, suc, ◌+◌, ◌-◌, zero, Bool, not, List, [], ◌∷◌, ◌++◌, Option, none, some, Text, ltb, ◌==◌,
  if◌then◌else◌, length, Result, ok, err, ◌>>=◌, or_fail,
}

pub data VaultError : Type 0 where
  corrupt_ciphertext no_random bad_key : VaultError
  unsupported_version : ℕ → VaultError

-- `cipher.AEAD`: nonce and text.
pub record Sealer : Type 0 where
  pub seal : Text → Text → Text
  pub open_with : Text → Text → Option Text

abbrev pub blob_version : ℕ
blob_version = 1

abbrev pub master_key_len : ℕ
master_key_len = 32

abbrev pub data_key_len : ℕ
data_key_len = 32

abbrev pub nonce_len : ℕ
nonce_len = 12

abbrev pub tag_len : ℕ
tag_len = 16

abbrev pub wrapped_len : ℕ
wrapped_len = data_key_len + tag_len

abbrev pub min_len : ℕ
min_len = 1 + nonce_len + wrapped_len + nonce_len + tag_len

-- What `rand.Read` fills in, in the order of the calls.
pub record Draws : Type 0 where
  pub data_key : Option Text
  pub dek_nonce : Option Text
  pub payload_nonce : Option Text

-- The slices `b[:n]` and `b[n:]`.
abbrev pub take : ℕ → Text → Text
take zero t = []
take (suc n) [] = []
take (suc n) (c ∷ t) = c ∷ take n t

abbrev pub drop : ℕ → Text → Text
drop zero t = t
drop (suc n) [] = []
drop (suc n) (c ∷ t) = drop n t

-- `blob[0]`, where the blob is not empty.
abbrev pub version_of : Text → ℕ
version_of [] = 0
version_of (c ∷ t) = c

module _ (cipher : Text → Option Sealer) where
  -- `New`: the vault is its master cipher.
  unfoldable pub new : Text → Result VaultError Sealer
  new master_key =
      if not (length master_key == master_key_len)
      then err bad_key
      else or_fail (cipher master_key) bad_key

  -- `Seal`. Layout: version, nonce of the data key, wrapped data key, nonce of the payload, payload.
  abbrev pub layout : Sealer → Sealer → Text → Text → Text → Text → Text
  layout master payload data_key dek_nonce payload_nonce plaintext =
      blob_version
      ∷ (dek_nonce
          ++ (master.seal dek_nonce data_key
              ++ (payload_nonce ++ payload.seal payload_nonce plaintext)))

  unfoldable pub seal : Sealer → Draws → Text → Result VaultError Text
  seal master draws plaintext = do
    data_key ← or_fail draws.data_key no_random
    payload ← or_fail (cipher data_key) bad_key
    dek_nonce ← or_fail draws.dek_nonce no_random
    payload_nonce ← or_fail draws.payload_nonce no_random
    ok (layout master payload data_key dek_nonce payload_nonce plaintext)

  -- `Open`, past its two checks.
  unfoldable pub open_parts : Sealer → Text → Text → Text → Text → Result VaultError Text
  open_parts master dek_nonce wrapped payload_nonce payload = do
    data_key ← or_fail (master.open_with dek_nonce wrapped) corrupt_ciphertext
    aead ← or_fail (cipher data_key) bad_key
    or_fail (aead.open_with payload_nonce payload) corrupt_ciphertext

  unfoldable pub open_blob : Sealer → Text → Result VaultError Text
  unfolding open_parts
  open_blob master blob =
      let rest = drop 1 blob in
      let after_nonce = drop nonce_len rest in
      let after_key = drop wrapped_len after_nonce in
      if ltb (length blob) min_len
      then err corrupt_ciphertext
      else if not (version_of blob == blob_version)
      then err (unsupported_version (version_of blob))
      else open_parts master (take nonce_len rest) (take wrapped_len after_nonce)
          (take nonce_len after_key) (drop nonce_len after_key)

  -- `Rewrap`.
  unfoldable pub rewrap : Sealer → Text → Sealer → Draws → Result VaultError Text
  unfolding open_blob seal
  rewrap master blob next draws = open_blob master blob >>= seal next draws
