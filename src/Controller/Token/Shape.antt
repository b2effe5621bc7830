-- ===== src/Controller/Token/Shape.antt =====
-- The shape that `validClaimToken` asks for: a uuid's five groups of hexadecimal digits.
use cprestic.Common.{
  ℕ, zero, suc, ◌+◌, ◌≤◌, ◌<◌, ◌≡◌, ◌↔◌, refl, sym, ap, ◌∙◌, inl, inr, Bool, true, false, ◌&&◌, [],
  ◌∷◌, ◌++◌, Text, ◌==◌, arith, length, length-append, eq_of_==, Bool-cases,
}
use cprestic.Controller.Token.{is_hex, is_dash, dash_at, chars_ok, valid_claim_token}

abbrev pub all_hex : Text → Bool
all_hex [] = true
all_hex (c ∷ cs) = is_hex c && all_hex cs

chars_ok-append :
    (i : ℕ) (xs ys : Text) → chars_ok i (xs ++ ys) ≡ (chars_ok i xs && chars_ok (i + length xs) ys)
unfolding chars_ok
chars_ok-append i [] ys = ap (λ j. chars_ok j ys) (omega arith)
chars_ok-append i (x ∷ xs) ys =
    let e : suc i + length xs ≡ i + suc (length xs) = omega arith in
    ground (arith, chars_ok-append (suc i) xs ys, ap (λ j. chars_ok j ys) e)

chars_ok-group :
    (i : ℕ) (xs : Text)
    → ((j : ℕ) → i ≤ j → j < i + length xs → dash_at j ≡ false)
    → chars_ok i xs ≡ all_hex xs
unfolding chars_ok
chars_ok-group i [] h = refl
chars_ok-group i (x ∷ xs) h =
    let d : dash_at i ≡ false = h i (omega arith) (omega arith) in
    let r = chars_ok-group (suc i) xs (λ j a b. h j (omega (arith, a)) (omega (arith, b))) in
    rw (d, r) refl

-- A group, the dash after it, and the rest.
group_then :
    (i n : ℕ) (xs : Text) (p : ℕ) (ys : Text)
    → length xs ≡ n
    → ((j : ℕ) → i ≤ j → j < i + n → dash_at j ≡ false)
    → dash_at (i + n) ≡ true
    → chars_ok i (xs ++ p ∷ ys) ≡ (all_hex xs && (is_dash p && chars_ok (suc (i + n)) ys))
unfolding chars_ok
group_then i n xs p ys l h d =
    let g = chars_ok-group i xs (rw l h) in
    let d' : dash_at (i + length xs) ≡ true = rw l d in
    ap (λ b. b) (chars_ok-append i xs (p ∷ ys)) ∙ rw (g, d', l) refl

split :
    (n : ℕ) (t : Text) → n ≤ length t → (xs : Text) × (ys : Text) × (t ≡ xs ++ ys) × (length xs ≡ n)
split zero t h = ([], t, refl, refl)
split (suc n) [] h = absurd (omega (arith, h))
split (suc n) (c ∷ t) h =
    let (xs, ys, e, l) = split n t (omega (arith, h)) in
    (c ∷ xs, ys, ap (λ r. c ∷ r) e, omega (arith, l))

-- Five groups with a character between each two.
abbrev joined : Text → ℕ → Text → ℕ → Text → ℕ → Text → ℕ → Text → Text
joined a p b q c r d s e = a ++ (p ∷ (b ++ (q ∷ (c ++ (r ∷ (d ++ (s ∷ e)))))))

chars_ok-joined :
    (a b c d e : Text) (p q r s : ℕ)
    → length a ≡ 8
    → length b ≡ 4
    → length c ≡ 4
    → length d ≡ 4
    → length e ≡ 12
    → chars_ok 0 (joined a p b q c r d s e) ≡ (
        all_hex a
        && (is_dash p
            && (all_hex b
                && (is_dash q
                    && (all_hex c && (is_dash r && (all_hex d && (is_dash s && all_hex e))))))))
chars_ok-joined a b c d e p q r s la lb lc ld le =
    let g1 =
      group_then 0 8 a p (b ++ (q ∷ (c ++ (r ∷ (d ++ (s ∷ e)))))) la (λ j x y. ground (arith, x, y))
        refl in
    let g2 =
      group_then 9 4 b q (c ++ (r ∷ (d ++ (s ∷ e)))) lb (λ j x y. ground (arith, x, y)) refl in
    let g3 = group_then 14 4 c r (d ++ (s ∷ e)) lc (λ j x y. ground (arith, x, y)) refl in
    let g4 = group_then 19 4 d s e ld (λ j x y. ground (arith, x, y)) refl in
    let g5 = chars_ok-group 24 e (λ j x y. ground (arith, x, y, le)) in
    g1
    ∙ ap (λ z. all_hex a && (is_dash p && z))
        (g2
          ∙ ap (λ z. all_hex b && (is_dash q && z))
              (g3
                ∙ ap (λ z. all_hex c && (is_dash r && z))
                    (g4 ∙ ap (λ z. all_hex d && (is_dash s && z)) g5)))

-- A uuid in its usual notation: groups of 8, 4, 4, 4 and 12 hexadecimal digits with dashes between them.
abbrev pub IsUuid : Text → Type 0
IsUuid t =
    (a : Text) × (b : Text) × (c : Text) × (d : Text) × (e : Text) × (t
      ≡ joined a 45 b 45 c 45 d 45 e)
    × (length a ≡ 8)
    × (length b ≡ 4)
    × (length c ≡ 4)
    × (length d ≡ 4)
    × (length e ≡ 12)
    × (all_hex a ≡ true)
    × (all_hex b ≡ true)
    × (all_hex c ≡ true)
    × (all_hex d ≡ true)
    × (all_hex e ≡ true)

length-joined :
    (a b c d e : Text) (p q r s : ℕ)
    → length (joined a p b q c r d s e) ≡ length a + length b + length c + length d + length e + 4
length-joined a b c d e p q r s = omega (
  arith,
  length-append a (p ∷ (b ++ (q ∷ (c ++ (r ∷ (d ++ (s ∷ e))))))),
  length-append b (q ∷ (c ++ (r ∷ (d ++ (s ∷ e))))),
  length-append c (r ∷ (d ++ (s ∷ e))),
  length-append d (s ∷ e),
)

cut :
    (n : ℕ) (t : Text)
    → suc n ≤ length t
    → (xs : Text) × (p : ℕ) × (ys : Text) × (t ≡ xs ++ p ∷ ys)
      × (length xs ≡ n)
      × (length t ≡ n + suc (length ys))
cut n t h =
    let (xs, ys, e, l) = split n t (omega (arith, h)) in
    let m : length t ≡ n + length ys =
      omega (arith, ap (λ (v : Text). length v) e, length-append xs ys, l) in
    headed xs ys e l m
  where
    headed :
        (xs ys : Text)
        → t ≡ xs ++ ys
        → length xs ≡ n
        → length t ≡ n + length ys
        → (xs : Text) × (p : ℕ) × (ys : Text) × (t ≡ xs ++ p ∷ ys)
          × (length xs ≡ n)
          × (length t ≡ n + suc (length ys))
    headed xs [] e l m = absurd (omega (arith, h, m))
    headed xs (p ∷ ys) e l m = (xs, p, ys, e, l, m)

shaped :
    {t : Text} (a b c d e : Text) (p q r s : ℕ)
    → t ≡ joined a p b q c r d s e
    → length a ≡ 8
    → length b ≡ 4
    → length c ≡ 4
    → length d ≡ 4
    → length e ≡ 12
    → (all_hex a
        && (is_dash p
            && (all_hex b
                && (is_dash q
                    && (all_hex c && (is_dash r && (all_hex d && (is_dash s && all_hex e))))))))
      ≡ true
    → IsUuid t
shaped a b c d e p q r s x la lb lc ld le h =
    let ep : p ≡ 45 = ground (arith, h) in
    let eq : q ≡ 45 = ground (arith, h) in
    let er : r ≡ 45 = ground (arith, h) in
    let es : s ≡ 45 = ground (arith, h) in
    (
      a,
      b,
      c,
      d,
      e,
      x ∙ rw (ep, eq, er, es) refl,
      la,
      lb,
      lc,
      ld,
      le,
      ground (arith, h),
      ground (arith, h),
      ground (arith, h),
      ground (arith, h),
      ground (arith, h),
    )

-- A token is let through exactly if it is a uuid in its usual notation.
pub valid_claim_token-IsUuid : (t : Text) → valid_claim_token t ≡ true ↔ IsUuid t
unfolding valid_claim_token
valid_claim_token-IsUuid t = (forward, backward)
  where
    forward : valid_claim_token t ≡ true → IsUuid t
    forward h = elim (Bool-cases (length t == 36)) [
      | inr f ↦ absurd (let x : false ≡ true = rw f at h in cc)
      | inl y ↦
          let n = eq_of_== (length t) 36 y in
          let v : chars_ok 0 t ≡ true = rw y at h in
          let (a, p, t1, e1, l1, m1) = cut 8 t (omega (arith, n)) in
          let (b, q, t2, e2, l2, m2) = cut 4 t1 (omega (arith, n, m1)) in
          let (c, r, t3, e3, l3, m3) = cut 4 t2 (omega (arith, n, m1, m2)) in
          let (d, s, e, e4, l4, m4) = cut 4 t3 (omega (arith, n, m1, m2, m3)) in
          let x : t ≡ joined a p b q c r d s e =
            e1
            ∙ ap (λ z. a ++ (p ∷ z))
                (e2 ∙ ap (λ z. b ++ (q ∷ z)) (e3 ∙ ap (λ z. c ++ (r ∷ z)) e4)) in
          let g = ap (chars_ok 0) (sym x) ∙ v in
          shaped a b c d e p q r s x l1 l2 l3 l4 (omega (arith, n, m1, m2, m3, m4)) (
            sym (chars_ok-joined a b c d e p q r s l1 l2 l3 l4 (omega (arith, n, m1, m2, m3, m4)))
            ∙ g)
    ]

    backward : IsUuid t → valid_claim_token t ≡ true
    backward (a, b, c, d, e, x, la, lb, lc, ld, le, ha, hb, hc, hd, he) =
        let n : length t ≡ 36 =
          ap (λ (v : Text). length v) x
          ∙ omega (arith, length-joined a b c d e 45 45 45 45, la, lb, lc, ld, le) in
        let g = ap (chars_ok 0) x ∙ chars_ok-joined a b c d e 45 45 45 45 la lb lc ld le in
        rw (n, g, ha, hb, hc, hd, he) refl
