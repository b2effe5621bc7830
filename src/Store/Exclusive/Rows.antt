-- ===== src/Store/Exclusive/Rows.antt =====
-- One table of jobs, backup or restore: what a claim does to the count of running rows.
use cprestic.Common.{
  ℕ, ◌≤◌, ◌≡◌, Bool, true, false, ◌&&◌, List, ◌==◌, arith, count, update, In, count_of_In,
  count_disjoint, count_mono, count-update, Bool-cases, inl, inr, eq_of_==, ==_refl, &&_left,
  &&_right, &&_intro,
}

module _ {R : Type 0} (id account : R → ℕ) (running : R → Bool) (lease : R → R)
    (same_account : (r : R) → account (lease r) ≡ account r) where
  claimed_other :
      (rows : List R) (x : R) (b : ℕ)
      → In x rows
      → count (λ r. id r == id x) rows ≤ 1
      → (account x == b) ≡ false
      → count (λ r. (id r == id x) && (account (lease r) == b && running (lease r))) rows ≡ 0
  claimed_other rows x b m unique other = omega (
    arith,
    count_of_In (λ r. (id r == id x) && (account r == account x)) x rows m
        (&&_intro _ _ (==_refl (id x)) (==_refl (account x))),
    count_disjoint (λ r. (id r == id x) && (account r == account x))
        (λ r. (id r == id x) && (account (lease r) == b && running (lease r))) (λ r. id r == id x)
        (λ r. &&_left _ _) (λ r. &&_left _ _) apart rows,
    unique,
  )
    where
      apart :
          (r : R)
          → ((id r == id x) && (account r == account x)) ≡ true
          → ((id r == id x) && (account (lease r) == b && running (lease r))) ≡ false
      apart r h = ground (
        arith,
        same_account r,
        eq_of_== (account r) (account x),
        &&_right (id r == id x) (account r == account x) h,
      )

  -- Claiming a row of an account with nothing running leaves at most one row running for any account.
  pub claim-count :
      (rows : List R) (x : R) (b : ℕ)
      → In x rows
      → count (λ r. id r == id x) rows ≤ 1
      → count (λ r. account r == account x && running r) rows ≡ 0
      → count (λ r. account r == b && running r) rows ≤ 1
      → count (λ r. account r == b && running r) (update (λ r. id r == id x) lease rows) ≤ 1
  claim-count rows x b m unique idle old = elim (Bool-cases (account x == b)) [
    | inl same ↦
        let e : account x ≡ b = eq_of_== (account x) b same in
        omega (
          arith,
          count-update (λ r. account r == b && running r) (λ r. id r == id x) lease rows,
          count_mono (λ r. (id r == id x) && (account (lease r) == b && running (lease r)))
              (λ r. id r == id x) (λ r. &&_left _ _) rows,
          rw e at idle,
          unique,
        )
    | inr other ↦ omega (
      arith,
      count-update (λ r. account r == b && running r) (λ r. id r == id x) lease rows,
      claimed_other rows x b m unique other,
      old,
    )
  ]
