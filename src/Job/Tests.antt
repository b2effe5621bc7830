-- ===== src/Job/Tests.antt =====
-- Runs of the roll-up.
use mathlib.Core.List.{Perm, Permᴰ}
use cprestic.Common.{ℕ, ◌≡◌, refl, List, [], ◌∷◌, Bool, true, false}
use cprestic.Job.{Status, TargetStatus, TargetResult, rollup}
use cprestic.Job.Rollup.{reference, rollup-eq-reference, rollup-perm}

abbrev target : ℕ → TargetStatus → Bool → TargetResult
target i status incomplete = record {
  repository_id = i;
  status = status;
  snapshot_id = [];
  bytes_added = 0;
  bytes_processed = 0;
  duration = 0;
  attempt = 1;
  incomplete = incomplete;
  err = [];
}

abbrev mixed : List TargetResult
mixed = target 1 TargetStatus.success false ∷ target 2 TargetStatus.success true ∷ []

abbrev swapped : List TargetResult
swapped = target 2 TargetStatus.success true ∷ target 1 TargetStatus.success false ∷ []

mixed_partial : rollup mixed ≡ Status.partial_success
unfolding rollup
mixed_partial = refl

rollup-eq-reference_example : rollup mixed ≡ reference mixed
rollup-eq-reference_example = rollup-eq-reference mixed

swaps : Perm mixed swapped
swaps = ∣ Permᴰ.swap refl refl ∣₁

rollup-perm_example : rollup mixed ≡ rollup swapped
rollup-perm_example = rollup-perm mixed swapped swaps
