-- ===== src/Vault/Opens.antt =====
-- What was sealed opens again.
use cprestic.Common.{
  ℕ, ◌+◌, ◌≡◌, refl, ap, subst, false, [], ◌∷◌, ◌++◌, Option, some, Text, ltb, arith, length,
  length-append, ok,
}
use cprestic.Vault.{Sealer, Draws, take, drop, layout, seal, open_parts, open_blob, rewrap}

take-append : (xs ys : Text) → take (length xs) (xs ++ ys) ≡ xs
take-append [] ys = refl
take-append (x ∷ xs) ys = ap (λ t. x ∷ t) (take-append xs ys)

drop-append : (xs ys : Text) → drop (length xs) (xs ++ ys) ≡ ys
drop-append [] ys = refl
drop-append (x ∷ xs) ys = drop-append xs ys

pub cut_take : (k : ℕ) (xs ys : Text) → length xs ≡ k → take k (xs ++ ys) ≡ xs
cut_take k xs ys h = subst (λ n. take n (xs ++ ys) ≡ xs) h (take-append xs ys)

cut_drop : (k : ℕ) (xs ys : Text) → length xs ≡ k → drop k (xs ++ ys) ≡ ys
cut_drop k xs ys h = subst (λ n. drop n (xs ++ ys) ≡ ys) h (drop-append xs ys)

-- What the package `crypto/cipher` documents of an AEAD with a tag of 16 bytes.
abbrev pub IsLawful : Sealer → Type 0
IsLawful c =
    ((nonce t : Text) → c.open_with nonce (c.seal nonce t) ≡ some t)
    × ((nonce t : Text) → length (c.seal nonce t) ≡ length t + 16)

-- A key of 32 bytes makes a cipher.
abbrev pub TakesKeys : (Text → Option Sealer) → Type 0
TakesKeys cipher =
    (key : Text) → length key ≡ 32 → (c : Sealer) × (cipher key ≡ some c) × IsLawful c

-- Three draws of 32, 12 and 12 bytes.
abbrev pub IsDrawn : Draws → Type 0
IsDrawn d =
    (key : Text) × (n : Text) × (m : Text) × (d.data_key ≡ some key)
    × (d.dek_nonce ≡ some n)
    × (d.payload_nonce ≡ some m)
    × (length key ≡ 32)
    × (length n ≡ 12)
    × (length m ≡ 12)

module _ (cipher : Text → Option Sealer) where
  length-layout :
      (master payload : Sealer) (key n m p : Text)
      → IsLawful master
      → IsLawful payload
      → length key ≡ 32
      → length n ≡ 12
      → length m ≡ 12
      → length (layout cipher master payload key n m p) ≡ length p + 89
  length-layout master payload key n m p (o, l) (o2, l2) lk ln lm = omega (
    arith,
    length-append n (master.seal n key ++ (m ++ payload.seal m p)),
    length-append (master.seal n key) (m ++ payload.seal m p),
    length-append m (payload.seal m p),
    l n key,
    l2 m p,
    lk,
    ln,
    lm,
  )

  open-layout :
      (master payload : Sealer) (key n m p : Text)
      → IsLawful master
      → IsLawful payload
      → cipher key ≡ some payload
      → length key ≡ 32
      → length n ≡ 12
      → length m ≡ 12
      → open_blob cipher master (layout cipher master payload key n m p) ≡ ok p
  unfolding open_blob open_parts
  open-layout master payload key n m p a b c lk ln lm =
      let wrapped = master.seal n key in
      let sealed = payload.seal m p in
      let lw : length wrapped ≡ 48 = omega (arith, a.1 n key, lk) in
      let size : ltb (length (layout cipher master payload key n m p)) 89 ≡ false =
        ground (arith, length-layout master payload key n m p a b lk ln lm) in
      rw
        (
          size,
          cut_take 12 n (wrapped ++ (m ++ sealed)) ln,
          cut_drop 12 n (wrapped ++ (m ++ sealed)) ln,
          cut_take 48 wrapped (m ++ sealed) lw,
          cut_drop 48 wrapped (m ++ sealed) lw,
          cut_take 12 m sealed lm,
          cut_drop 12 m sealed lm,
          a.0 n key,
          c,
          b.0 m p,
        )
        refl

  -- A vault opens what it sealed: with lawful ciphers and three draws of the right lengths, sealing gives a
  -- blob of 89 bytes more than the secret, and opening that blob gives the secret.
  pub open_blob-seal :
      (master : Sealer) (draws : Draws) (plaintext : Text)
      → TakesKeys cipher
      → IsLawful master
      → IsDrawn draws
      → (blob : Text) × (seal cipher master draws plaintext ≡ ok blob)
        × (length blob ≡ length plaintext + 89)
        × (open_blob cipher master blob ≡ ok plaintext)
  unfolding seal
  open_blob-seal master draws p takes a (key, n, m, ek, en, em, lk, ln, lm) =
      let (c, ec, b) = takes key lk in
      (
        layout cipher master c key n m p,
        rw (ek, ec, en, em) refl,
        length-layout master c key n m p a b lk ln lm,
        open-layout master c key n m p a b ec lk ln lm,
      )

  -- Rotation keeps the secret: a blob that opens under the old master key is rewrapped into one that opens
  -- to the same secret under the new key.
  pub open_blob-rewrap :
      (master next : Sealer) (draws : Draws) (blob plaintext : Text)
      → TakesKeys cipher
      → IsLawful next
      → IsDrawn draws
      → open_blob cipher master blob ≡ ok plaintext
      → (out : Text) × (rewrap cipher master blob next draws ≡ ok out)
        × (open_blob cipher next out ≡ ok plaintext)
  unfolding rewrap
  open_blob-rewrap master next draws blob p takes a d h =
      let (out, s, l, o) = open_blob-seal next draws p takes a d in (out, rw h s, o)
