-- ===== src/Node/Removal/Listed.antt =====
-- The sorted lists of repositories that `accountRemovalSafety` builds, and its guards.
use cprestic.Common.{
  ℕ, suc, ◌≡◌, ◌≢◌, refl, sym, ap, ◌∙◌, inl, inr, Bool, true, false, not, ◌&&◌, List, [], ◌∷◌, Text,
  ℤ, ltb, ◌==◌, if◌then◌else◌, arith, length, In, Bool-cases,
}
use cprestic.Node.{Policy}
use cprestic.Node.Removal.Safety.{Detail, refused, insert, sorted_ids, full_account_policy}

length-insert : (r : ℕ) (xs : List ℕ) → length (insert r xs) ≡ suc (length xs)
length-insert r [] = refl
length-insert r (x ∷ xs) = ground (arith, length-insert r xs)

-- No entry passes the test exactly if nothing is listed.
pub none_listed :
    (test : ℕ × ℤ → Bool) (es : List (ℕ × ℤ)) (e : ℕ × ℤ)
    → ltb 0 (length (sorted_ids test es)) ≡ false
    → In e es
    → test e ≡ false
unfolding sorted_ids
none_listed test [] e h m = absurd m
none_listed test (x ∷ xs) e h m = elim (Bool-cases (test x)) [
  | inl t ↦ absurd (
      let g : ltb 0 (length (insert x.0 (sorted_ids test xs))) ≡ false = rw t at h in
      ground (arith, g, length-insert x.0 (sorted_ids test xs)))
  | inr f ↦ elim m [ inl i ↦ ap test (sym i) ∙ f | inr n ↦ none_listed test xs e (rw f at h) n ]
]

pub listed_none :
    (test : ℕ × ℤ → Bool) (es : List (ℕ × ℤ))
    → ((e : ℕ × ℤ) → In e es → test e ≡ false)
    → ltb 0 (length (sorted_ids test es)) ≡ false
unfolding sorted_ids
listed_none test [] h = refl
listed_none test (x ∷ xs) h = rw (h x (inl refl)) (listed_none test xs (λ e m. h e (inr m)))

pub length_of_ne : (t : Text) → t ≢ [] → (length t == 0) ≡ false
length_of_ne [] h = absurd (h refl)
length_of_ne (c ∷ t) h = ground arith

pub repository_of_full :
    (p : Policy) (account : Text)
    → full_account_policy p account ≡ true
    → (length p.repository_ids == 0) ≡ false
unfolding full_account_policy
repository_of_full p account h = ground arith

pub allowed_of :
    (a b c : Bool) (never : Detail) (missing : List ℕ)
    → (if a
        then refused Detail.no_account []
        else if b
        then refused Detail.no_policy []
        else if c
        then refused never missing
        else record {
          enforced = false;
          allowed = true;
          detail = Detail.recent;
          missing_repository_ids = [];
        }).allowed
      ≡ (not a && not b && not c)
allowed_of true b c never missing = refl
allowed_of false true c never missing = refl
allowed_of false false true never missing = refl
allowed_of false false false never missing = refl
