-- ===== src/Job/Rollup.antt =====
-- What `Rollup` of internal/job/job.go answers, told without its counters.
use mathlib.Core.List.{Perm, Permᴰ}
use mathlib.Core.Logic.{∥∥₁_elim}
use mathlib.Core.Path.{ap₂}
use cprestic.Common.{
  ◌+◌, ◌≡◌, refl, ap, Bool, true, false, List, [], ◌∷◌, ◌||◌, not, any, arith, ltb, if◌then◌else◌,
  count, ◌∙◌, sym,
}
use cprestic.Job.{Status, TargetStatus, TargetResult, Tally, tally, tally_one, verdict, rollup}

-- A complete copy was made.
abbrev pub good_status : TargetStatus → Bool → Bool
good_status TargetStatus.success incomplete = not incomplete
good_status _ incomplete = false

abbrev pub bad_status : TargetStatus → Bool → Bool
bad_status TargetStatus.success incomplete = incomplete
bad_status TargetStatus.failed incomplete = true
bad_status _ incomplete = false

abbrev pub open_status : TargetStatus → Bool
open_status TargetStatus.pending = true
open_status TargetStatus.running = true
open_status _ = false

abbrev pub is_good : TargetResult → Bool
is_good r = good_status r.status r.incomplete

abbrev pub is_bad : TargetResult → Bool
is_bad r = bad_status r.status r.incomplete

abbrev pub is_open : TargetResult → Bool
is_open r = open_status r.status

tally_one-succeeded :
    (s : TargetStatus) (i : Bool) (t : Tally)
    → ((tally_one s i t).succeeded ≡ t.succeeded + (if good_status s i then 1 else 0))
      × ((tally_one s i t).failed ≡ t.failed + (if bad_status s i then 1 else 0))
      × ((tally_one s i t).unfinished ≡ t.unfinished + (if open_status s then 1 else 0))
unfolding tally_one
tally_one-succeeded TargetStatus.success true t = (omega arith, omega arith, omega arith)
tally_one-succeeded TargetStatus.success false t = (omega arith, omega arith, omega arith)
tally_one-succeeded TargetStatus.failed i t = (omega arith, omega arith, omega arith)
tally_one-succeeded TargetStatus.pending i t = (omega arith, omega arith, omega arith)
tally_one-succeeded TargetStatus.running i t = (omega arith, omega arith, omega arith)
tally_one-succeeded TargetStatus.skipped i t = (omega arith, omega arith, omega arith)

-- The loop counts.
tally-count :
    (rs : List TargetResult) (t : Tally)
    → ((tally rs t).succeeded ≡ t.succeeded + count is_good rs)
      × ((tally rs t).failed ≡ t.failed + count is_bad rs)
      × ((tally rs t).unfinished ≡ t.unfinished + count is_open rs)
unfolding tally
tally-count [] t = (omega arith, omega arith, omega arith)
tally-count (r ∷ rs) t =
    let h = tally_one-succeeded r.status r.incomplete t in
    let k = tally-count rs (tally_one r.status r.incomplete t) in
    (omega (arith, h.0, k.0), omega (arith, h.1, k.1), omega (arith, h.2, k.2))

-- The answer, from the three questions that matter.
abbrev pub reference : List TargetResult → Status
reference rs =
    if any is_open rs
    then Status.running
    else if any is_good rs
    then (if any is_bad rs then Status.partial_success else Status.success)
    else Status.failed

ltb-count {ℓ} : {A : Type ℓ} (p : A → Bool) (xs : List A) → ltb 0 (count p xs) ≡ any p xs
ltb-count p [] = refl
ltb-count p (x ∷ xs) = ground (arith, ltb-count p xs)

verdict-tally :
    (rs : List TargetResult)
    → verdict (tally rs (record { succeeded = 0; failed = 0; unfinished = 0 })) ≡ reference rs
unfolding verdict
verdict-tally rs =
    let k = tally-count rs (record { succeeded = 0; failed = 0; unfinished = 0 }) in
    ground (arith, k.0, k.1, k.2, ltb-count is_good rs, ltb-count is_bad rs, ltb-count is_open rs)

-- A job is running while a target is unfinished; otherwise it is a partial success if a target made
-- a complete copy and another failed or was incomplete, a success if one made a complete copy and
-- none failed, and a failure if none made a complete copy, the empty job included.
pub rollup-eq-reference : (rs : List TargetResult) → rollup rs ≡ reference rs
unfolding rollup
rollup-eq-reference [] = refl
rollup-eq-reference (r ∷ rs) = verdict-tally (r ∷ rs)

or_swap : (a b c : Bool) → (a || (b || c)) ≡ (b || (a || c))
or_swap a b c = ground arith

Status-set : IsSet Status
Status-set = hlevel

any-permᴰ :
    (p : TargetResult → Bool) {xs ys : List TargetResult} → Permᴰ xs ys → any p xs ≡ any p ys
any-permᴰ p Permᴰ.nil = refl
any-permᴰ p (Permᴰ.cons e d) = ap₂ ◌||◌ (ap p e) (any-permᴰ p d)
any-permᴰ p (Permᴰ.swap {a} {b} {a' = a'} {b' = b'} {l} e f) =
    rw (e, f) (or_swap (p b') (p a') (any p l))
any-permᴰ p (Permᴰ.trans d e) = any-permᴰ p d ∙ any-permᴰ p e

reference-permᴰ : {xs ys : List TargetResult} → Permᴰ xs ys → reference xs ≡ reference ys
reference-permᴰ d = rw (any-permᴰ is_open d, any-permᴰ is_good d, any-permᴰ is_bad d)

-- The order in which the targets are read from the database does not change a job's status.
pub rollup-perm : (xs ys : List TargetResult) → Perm xs ys → rollup xs ≡ rollup ys
rollup-perm xs ys h =
    rollup-eq-reference xs
    ∙ ∥∥₁_elim h (Status-set (reference xs) (reference ys)) (λ d. reference-permᴰ d)
    ∙ sym (rollup-eq-reference ys)
