-- ===== src/Restic/Args.antt =====
-- internal/resticrun/args.go and restore.go: the arguments of "restic forget" and "restic snapshots".
use cprestic.Common.{
  suc, ◌&&◌, List, [], ◌∷◌, ◌++◌, Text, text, ℤ, pos, negsuc, is_negative, is_positive, ◌==◌,
  if◌then◌else◌, length, Result, ok, ◌>>=◌, ◌>>◌, refuse_if,
}
use cprestic.Restic.{ForgetSpec, ForgetError, negative_keep, no_keep_policy, dry_run_prunes}
use cprestic.Restic.Words.{itoa}

-- A row of the table `keeps`.
abbrev pub keeps : ForgetSpec → List (Text × ℤ)
keeps spec =
    (text "--keep-last", spec.keep_last)
    ∷ (text "--keep-daily", spec.keep_daily)
    ∷ (text "--keep-weekly", spec.keep_weekly)
    ∷ (text "--keep-monthly", spec.keep_monthly)
    ∷ (text "--keep-yearly", spec.keep_yearly)
    ∷ []

abbrev pub itoa_int : ℤ → Text
itoa_int (pos n) = itoa n
itoa_int (negsuc n) = b'-' ∷ itoa (suc n)

-- The loop over the table: the arguments of the keep flags.
unfoldable pub keep_args : List (Text × ℤ) → Result ForgetError (List Text)
keep_args [] = ok []
keep_args ((flag, value) ∷ rest) =
    refuse_if (is_negative value) (negative_keep flag)
    >> (keep_args rest >>= λ more.
        ok (if is_positive value then flag ∷ itoa_int value ∷ more else more))

abbrev pub tag_args : List Text → List Text
tag_args [] = []
tag_args (t ∷ ts) = text "--tag" ∷ t ∷ tag_args ts

abbrev pub group_by_or_default : Text → Text
group_by_or_default [] = text "host,tags"
group_by_or_default (c ∷ t) = c ∷ t

-- `ForgetArgs`. No flag was counted when the loop added no argument.
unfoldable pub forget_args : ForgetSpec → Result ForgetError (List Text)
unfolding keep_args
forget_args spec = do
  flags ← keep_args (keeps spec)
  refuse_if (length flags == 0) no_keep_policy
  refuse_if (spec.prune && spec.dry_run) dry_run_prunes
  ok (
      text "forget"
      ∷ text "--json"
      ∷ (flags
          ++ (tag_args spec.tags
              ++ (text "--group-by"
                  ∷ group_by_or_default spec.group_by
                  ∷ ((if spec.dry_run then text "--dry-run" ∷ [] else [])
                      ++ (if spec.prune then text "--prune" ∷ [] else []))))))
