-- ===== src/Node/Sweep.antt =====
-- internal/node/retention.go: the sweep on the scheduler tick.
use cprestic.Common.{
  ℕ, ◌*◌, ◌-◌, Bool, not, ◌||◌, ◌&&◌, List, [], ◌∷◌, Option, none, some, ltb, ◌==◌, if◌then◌else◌,
  any, ok, err,
}
use cprestic.Job.{terminal}
use cprestic.Restic.{Command}
use cprestic.Node.{RetentionState, Repository, Restore, Job, Node, World}
use cprestic.Node.Keeps.{is_set, retention_for, retention_approval_covers}
use cprestic.Node.Runs.{plan_retention, apply_retention}

-- Twenty hours, in nanoseconds.
abbrev pub retention_every : ℕ
retention_every = 20 * 3600 * 1000000000

-- One turn of the loop of `lastRetentionAttempt`.
abbrev pub later_of : ℕ → Option ℕ → ℕ
later_of latest none = latest
later_of latest (some t) = if ltb latest t then t else latest

unfoldable pub last_retention_attempt : RetentionState → ℕ
last_retention_attempt state =
    later_of (later_of (later_of 0 state.planned_at) state.applied_at) state.attempted_at

-- `anyJobRunning`.
unfoldable pub any_job_running : Node → Bool
any_job_running node =
    any (λ (j : Job). not (terminal j.status)) node.jobs
    || any (λ (r : Restore). not (terminal r.status)) node.restores

-- Attempted less than `retentionEvery` ago. `now.Sub(last)` may be negative in Go: a time before the last
-- attempt counts as recent, as it does here.
unfoldable pub attempted_recently : ℕ → RetentionState → Bool
unfolding last_retention_attempt
attempted_recently now state =
    let last = last_retention_attempt state in not (last == 0) && ltb (now - last) retention_every

-- The loop of `sweepRetention`: the first repository that is due ends it. The results of the runs are
-- only logged.
unfoldable pub sweep_from : World → ℕ → List Repository → Node → Node × List Command
unfolding attempted_recently retention_for retention_approval_covers plan_retention apply_retention
sweep_from world now [] node = (node, [])
sweep_from world now (repo ∷ repos) node =
    let rest = sweep_from world now repos node in
    if not (is_set repo.initialised_at)
    then rest
    else if attempted_recently now repo.retention
    then rest
    else elim (retention_for node repo.id) [
      | err e ↦ rest
      | ok keeps ↦
          if not (retention_approval_covers repo keeps)
          then (let (r, after, commands) = plan_retention world now repo.id node in
              (after, commands))
          else (let (n, r, after, commands) = apply_retention world now repo.id node in
              (after, commands))
    ]

unfoldable pub sweep_retention : World → ℕ → Node → Node × List Command
unfolding any_job_running sweep_from
sweep_retention world now node =
    if any_job_running node then (node, []) else sweep_from world now node.repositories node
