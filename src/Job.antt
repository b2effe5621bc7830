-- ===== src/Job.antt =====
-- internal/job/job.go: the status of a backup job, rolled up from its targets.
pub mod Rollup
mod Tests
use cprestic.Common.{ℕ, ◌+◌, Bool, true, false, List, [], ◌∷◌, Text, ltb, if◌then◌else◌, ◌&&◌}

pub data Status : Type 0 where
  pending running success partial_success failed cancelled : Status

pub data TargetStatus : Type 0 where
  pending running success failed skipped : TargetStatus

pub record TargetResult : Type 0 where
  pub repository_id : ℕ
  pub status : TargetStatus
  pub snapshot_id : Text
  pub bytes_added : ℕ
  pub bytes_processed : ℕ
  pub duration : ℕ
  pub attempt : ℕ
  pub incomplete : Bool
  pub err : Text

-- The three counters of `Rollup`.
pub record Tally : Type 0 where
  pub succeeded : ℕ
  pub failed : ℕ
  pub unfinished : ℕ

-- The body of the loop: the `switch` on one target's status.
unfoldable pub tally_one : TargetStatus → Bool → Tally → Tally
tally_one TargetStatus.success incomplete t =
    if incomplete
    then record t { failed = t.failed + 1 }
    else record t { succeeded = t.succeeded + 1 }
tally_one TargetStatus.failed incomplete t = record t { failed = t.failed + 1 }
tally_one TargetStatus.pending incomplete t = record t { unfinished = t.unfinished + 1 }
tally_one TargetStatus.running incomplete t = record t { unfinished = t.unfinished + 1 }
tally_one TargetStatus.skipped incomplete t = t

unfoldable pub tally : List TargetResult → Tally → Tally
unfolding tally_one
tally [] t = t
tally (r ∷ rs) t = tally rs (tally_one r.status r.incomplete t)

-- The `switch` after the loop.
unfoldable pub verdict : Tally → Status
verdict t =
    if ltb 0 t.unfinished
    then Status.running
    else if ltb 0 t.succeeded && ltb 0 t.failed
    then Status.partial_success
    else if ltb 0 t.succeeded
    then Status.success
    else Status.failed

unfoldable pub rollup : List TargetResult → Status
unfolding tally verdict
rollup [] = Status.failed
rollup (r ∷ rs) = verdict (tally (r ∷ rs) (record { succeeded = 0; failed = 0; unfinished = 0 }))

-- `Status.Terminal`.
abbrev pub terminal : Status → Bool
terminal Status.success = true
terminal Status.partial_success = true
terminal Status.failed = true
terminal Status.cancelled = true
terminal _ = false
