-- ===== src/Node/Merged.antt =====
-- The merged keep policy of a repository (MergedRetention), compared with those of its writers.
use cprestic.Common.{
  ℕ, ◌≡◌, refl, ap, ◌∙◌, ◌⊎◌, inl, inr, true, List, [], ◌∷◌, ℤ, pos, negsuc, maxℤ, ◌≤ℤ◌, arith,
  subst, In, Bool-cases, maxℤ-le_left, maxℤ-le_right,
}
use cprestic.Node.{Retention, Policy}
use cprestic.Node.Keeps.{no_retention, writes_here, take_in, merge_from, merged_retention}

-- `s` keeps at least as much as `r`, in each of the five ways.
pub record AsGenerous (r s : Retention) : Type 0 where
  pub last : r.keep_last ≤ℤ s.keep_last
  pub daily : r.keep_daily ≤ℤ s.keep_daily
  pub weekly : r.keep_weekly ≤ℤ s.keep_weekly
  pub monthly : r.keep_monthly ≤ℤ s.keep_monthly
  pub yearly : r.keep_yearly ≤ℤ s.keep_yearly

-- An enabled policy that backs up to the repository.
pub record Writes (policies : List Policy) (repository : ℕ) (p : Policy) : Type 0 where
  pub listed : In p policies
  pub enabled : p.enabled ≡ true
  pub here : writes_here repository p ≡ true

≤ℤ_trans : (a b c : ℤ) → a ≤ℤ b → b ≤ℤ c → a ≤ℤ c
≤ℤ_trans a b c h k = omega arith

≤ℤ_refl : (a : ℤ) → a ≤ℤ a
≤ℤ_refl a = omega arith

maxℤ-least : (a b c : ℤ) → a ≤ℤ c → b ≤ℤ c → maxℤ a b ≤ℤ c
maxℤ-least (pos a) (pos b) c h k = omega arith
maxℤ-least (pos a) (negsuc b) c h k = omega arith
maxℤ-least (negsuc a) (pos b) c h k = omega arith
maxℤ-least (negsuc a) (negsuc b) c h k = omega arith

AsGenerous-trans : (r s t : Retention) → AsGenerous r s → AsGenerous s t → AsGenerous r t
AsGenerous-trans r s t h k = record {
  last = ≤ℤ_trans r.keep_last s.keep_last t.keep_last h.last k.last;
  daily = ≤ℤ_trans r.keep_daily s.keep_daily t.keep_daily h.daily k.daily;
  weekly = ≤ℤ_trans r.keep_weekly s.keep_weekly t.keep_weekly h.weekly k.weekly;
  monthly = ≤ℤ_trans r.keep_monthly s.keep_monthly t.keep_monthly h.monthly k.monthly;
  yearly = ≤ℤ_trans r.keep_yearly s.keep_yearly t.keep_yearly h.yearly k.yearly;
}

AsGenerous-refl : (r : Retention) → AsGenerous r r
AsGenerous-refl r = record {
  last = ≤ℤ_refl r.keep_last;
  daily = ≤ℤ_refl r.keep_daily;
  weekly = ≤ℤ_refl r.keep_weekly;
  monthly = ≤ℤ_refl r.keep_monthly;
  yearly = ≤ℤ_refl r.keep_yearly;
}

take_in-left : (m r : Retention) → AsGenerous m (take_in m r)
unfolding take_in
take_in-left m r = record {
  last = maxℤ-le_left m.keep_last r.keep_last;
  daily = maxℤ-le_left m.keep_daily r.keep_daily;
  weekly = maxℤ-le_left m.keep_weekly r.keep_weekly;
  monthly = maxℤ-le_left m.keep_monthly r.keep_monthly;
  yearly = maxℤ-le_left m.keep_yearly r.keep_yearly;
}

take_in-right : (m r : Retention) → AsGenerous r (take_in m r)
unfolding take_in
take_in-right m r = record {
  last = maxℤ-le_right m.keep_last r.keep_last;
  daily = maxℤ-le_right m.keep_daily r.keep_daily;
  weekly = maxℤ-le_right m.keep_weekly r.keep_weekly;
  monthly = maxℤ-le_right m.keep_monthly r.keep_monthly;
  yearly = maxℤ-le_right m.keep_yearly r.keep_yearly;
}

take_in-least : (m r s : Retention) → AsGenerous m s → AsGenerous r s → AsGenerous (take_in m r) s
unfolding take_in
take_in-least m r s h k = record {
  last = maxℤ-least m.keep_last r.keep_last s.keep_last h.last k.last;
  daily = maxℤ-least m.keep_daily r.keep_daily s.keep_daily h.daily k.daily;
  weekly = maxℤ-least m.keep_weekly r.keep_weekly s.keep_weekly h.weekly k.weekly;
  monthly = maxℤ-least m.keep_monthly r.keep_monthly s.keep_monthly h.monthly k.monthly;
  yearly = maxℤ-least m.keep_yearly r.keep_yearly s.keep_yearly h.yearly k.yearly;
}

-- What one policy does to the loop: taken in, or passed over.
step_cases :
    (m : Retention) (p : Policy) (ps : List Policy) (id : ℕ)
    → ((p.enabled ≡ true)
        × (writes_here id p ≡ true)
        × (merge_from m (p ∷ ps) id ≡ merge_from (take_in m p.retention) ps id))
      ⊎ (merge_from m (p ∷ ps) id ≡ merge_from m ps id)
unfolding merge_from
step_cases m p ps id = elim (Bool-cases p.enabled) [
  | inr f ↦ inr (rw f refl)
  | inl t ↦ elim (Bool-cases (writes_here id p)) [
    | inr f ↦ inr (rw (t, f) refl)
    | inl u ↦ inl (t, u, rw (t, u) refl)
  ]
]

merge_from-grows : (m : Retention) (ps : List Policy) (id : ℕ) → AsGenerous m (merge_from m ps id)
unfolding merge_from
merge_from-grows m [] id = AsGenerous-refl m
merge_from-grows m (p ∷ ps) id = elim (step_cases m p ps id) [
  | inl (t, u, e) ↦ rw e (
      AsGenerous-trans m _ _ (take_in-left m p.retention)
        (merge_from-grows (take_in m p.retention) ps id))
  | inr e ↦ rw e (merge_from-grows m ps id)
]

merge_from-first :
    (m : Retention) (p : Policy) (ps : List Policy) (id : ℕ)
    → p.enabled ≡ true
    → writes_here id p ≡ true
    → AsGenerous p.retention (merge_from m (p ∷ ps) id)
unfolding merge_from
merge_from-first m p ps id t u =
    let e : merge_from m (p ∷ ps) id ≡ merge_from (take_in m p.retention) ps id = rw (t, u) refl in
    rw e (
      AsGenerous-trans p.retention _ _ (take_in-right m p.retention)
        (merge_from-grows (take_in m p.retention) ps id))

merge_from-covers :
    (m : Retention) (ps : List Policy) (id : ℕ) (p : Policy)
    → In p ps
    → p.enabled ≡ true
    → writes_here id p ≡ true
    → AsGenerous p.retention (merge_from m ps id)
merge_from-covers m [] id p i t u = absurd i
merge_from-covers m (q ∷ ps) id p (inl e) t u =
    subst (λ x. AsGenerous x.retention (merge_from m (q ∷ ps) id)) e
      (merge_from-first m q ps id (ap (λ (x : Policy). x.enabled) e ∙ t)
        (ap (writes_here id) e ∙ u))
merge_from-covers m (q ∷ ps) id p (inr i) t u = elim (step_cases m q ps id) [
  | inl (a, b, e) ↦ rw e (merge_from-covers (take_in m q.retention) ps id p i t u)
  | inr e ↦ rw e (merge_from-covers m ps id p i t u)
]

-- A bound on what every writer asks for.
abbrev Bounds : Retention → List Policy → ℕ → Type 0
Bounds s ps id = (p : Policy) → Writes ps id p → AsGenerous p.retention s

later_Bounds :
    (s : Retention) (p : Policy) (ps : List Policy) (id : ℕ) → Bounds s (p ∷ ps) id → Bounds s ps id
later_Bounds s p ps id h q w =
    h q (record { listed = inr w.listed; enabled = w.enabled; here = w.here })

merge_from-least :
    (m s : Retention) (ps : List Policy) (id : ℕ)
    → AsGenerous m s
    → Bounds s ps id
    → AsGenerous (merge_from m ps id) s
unfolding merge_from
merge_from-least m s [] id h b = h
merge_from-least m s (p ∷ ps) id h b = elim (step_cases m p ps id) [
  | inl (t, u, e) ↦ rw e (
      merge_from-least (take_in m p.retention) s ps id
        (take_in-least m p.retention s h
          (b p (record { listed = inl refl; enabled = t; here = u })))
        (later_Bounds s p ps id b))
  | inr e ↦ rw e (merge_from-least m s ps id h (later_Bounds s p ps id b))
]

-- The merged policy of a repository keeps, in each of the five ways, at least what every enabled policy
-- that writes there keeps, and at least nothing; and it keeps no more than any other policy that does.
pub merged_retention-least_bound :
    (policies : List Policy) (id : ℕ)
    → let merged = merged_retention policies id in
      ((p : Policy) → Writes policies id p → AsGenerous p.retention merged)
      × AsGenerous no_retention merged
      × ((s : Retention)
          → AsGenerous no_retention s
          → ((p : Policy) → Writes policies id p → AsGenerous p.retention s)
          → AsGenerous merged s)
unfolding merged_retention
merged_retention-least_bound policies id = (
  λ p w. merge_from-covers no_retention policies id p w.listed w.enabled w.here,
  merge_from-grows no_retention policies id,
  λ s h b. merge_from-least no_retention s policies id h b,
)
