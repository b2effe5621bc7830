-- ===== src/Restic/Accepted.antt =====
-- Which specifications `ForgetArgs` of internal/resticrun/args.go turns into a command.
use cprestic.Common.{
  ◌≡◌, refl, inl, inr, Bool, true, false, not, ◌&&◌, ◌||◌, List, [], ◌∷◌, Text, ℤ, is_negative,
  is_positive, arith, any, length, ◌==◌, Bool-cases, Result, ok, err, Result-cases,
}
use cprestic.Restic.{ForgetSpec, ForgetError}
use cprestic.Restic.Args.{keeps, keep_args, forget_args}

abbrev pub is_ok : {A : Type 0} → Result ForgetError A → Bool
is_ok (ok a) = true
is_ok (err e) = false

-- Some keep is negative, some keep is positive.
abbrev pub some_negative : List (Text × ℤ) → Bool
some_negative ks = any (λ (k : Text × ℤ). is_negative k.1) ks

abbrev pub some_positive : List (Text × ℤ) → Bool
some_positive ks = any (λ (k : Text × ℤ). is_positive k.1) ks

-- What makes five counts a policy that may run: none is negative, some is positive.
abbrev pub acceptable : ForgetSpec → Bool
acceptable spec =
    not (is_negative spec.keep_last)
    && not (is_negative spec.keep_daily)
    && not (is_negative spec.keep_weekly)
    && not (is_negative spec.keep_monthly)
    && not (is_negative spec.keep_yearly)
    && (is_positive spec.keep_last
        || is_positive spec.keep_daily
        || is_positive spec.keep_weekly
        || is_positive spec.keep_monthly
        || is_positive spec.keep_yearly)
    && not (spec.prune && spec.dry_run)

keep_args-negative : (ks : List (Text × ℤ)) → is_ok (keep_args ks) ≡ not (some_negative ks)
unfolding keep_args
keep_args-negative [] = refl
keep_args-negative ((flag, value) ∷ ks) =
    ground (arith, keep_args-negative ks, Result-cases (keep_args ks))

keep_args-positive :
    (ks : List (Text × ℤ)) (flags : List Text)
    → keep_args ks ≡ ok flags
    → (length flags == 0) ≡ not (some_positive ks)
unfolding keep_args
keep_args-positive [] flags h = ground arith
keep_args-positive ((flag, value) ∷ ks) flags h = elim (Result-cases (keep_args ks)) [
  | inr (x, e) ↦ absurd (ground (arith, Bool-cases (is_negative value)))
  | inl (more, e) ↦ ground (
    arith,
    keep_args-positive ks more e,
    Bool-cases (is_negative value),
    Bool-cases (is_positive value),
  )
]

-- `ForgetArgs` gives a command exactly when no keep is negative, some keep is positive, and a dry run is
-- not asked to prune: no specification that keeps nothing reaches restic.
pub forget_args-acceptable : (spec : ForgetSpec) → is_ok (forget_args spec) ≡ acceptable spec
unfolding forget_args
forget_args-acceptable spec = elim (Result-cases (keep_args (keeps spec))) [
  | inr (x, e) ↦ ground (arith, keep_args-negative (keeps spec))
  | inl (flags, e) ↦ ground (
    arith,
    keep_args-negative (keeps spec),
    keep_args-positive (keeps spec) flags e,
    Bool-cases (length flags == 0),
    Bool-cases (spec.prune && spec.dry_run),
  )
]
