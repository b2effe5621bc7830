-- ===== src/Controller/Schedule.antt =====
-- internal/controller/scheduler.go: one pass of the scheduler.
--
-- The cron library is a parameter, as is the database's choice of a new identity. Times are numbers: the
-- catch-up window never reaches before the zero time. What the passes only log is the result of
-- `run_policy`, which the loop drops.
use cprestic.Common.{
  ℕ, ◌+◌, ◌-◌, ◌*◌, ◌||◌, List, [], ◌∷◌, Option, none, some, Text, ltb, ◌==◌, if◌then◌else◌, Result,
  ok, err,
}
use cprestic.Store.{Store, StoreError, Account, Policy, no_work}
use cprestic.Store.Jobs.{create_job}
use cprestic.Store.Policies.{
  list_policies, accounts_for_policy, policy_last_run, set_policy_last_run,
}
use cprestic.Controller.Calls.{reclaim_leases}

pub data ScheduleError : Type 0 where
  bad_schedule : ScheduleError
  failed : StoreError → ScheduleError

-- Queued and skipped, or nothing when the policy was not due.
pub record Fired : Type 0 where
  pub queued : ℕ
  pub skipped : ℕ

-- Two hours, in nanoseconds.
abbrev pub catch_up_window : ℕ
catch_up_window = 2 * 3600 * 1000000000

abbrev pub start_from : ℕ → ℕ → ℕ
start_from now last_run =
    let earliest = now - catch_up_window in
    if (last_run == 0) || ltb last_run earliest then earliest else last_run

module _ (parse : Text → Option (ℕ → ℕ)) (new_id : Store → ℕ) where
  -- One turn of the loop over the accounts. An error but `ErrNoWork` is logged.
  abbrev pub counted : Store → Fired → Result StoreError (ℕ × Store) → Fired × Store
  counted s n (ok (id, t)) = (record n { queued = n.queued + 1 }, t)
  counted s n (err no_work) = (record n { skipped = n.skipped + 1 }, s)
  counted s n (err e) = (n, s)

  unfoldable pub queue_each : ℕ → ℕ → List Account → Fired → Store → Fired × Store
  queue_each policy_id now [] n s = (n, s)
  queue_each policy_id now (a ∷ rest) n s =
      let (m, t) = counted s n (create_job s a.id policy_id (new_id s) now) in
      queue_each policy_id now rest m t

  abbrev pub Pass : Type 0
  Pass = Result ScheduleError (Option Fired) × Store

  abbrev pub answer_of : Fired × Store → Pass
  answer_of (n, t) = (ok (some n), t)

  -- Past the check that the policy is due. The accounts are read before the firing is recorded.
  abbrev pub fire : Store → Policy → ℕ → List Account → Result StoreError Store → Pass
  fire s p now accounts (err e) = (err (failed e), s)
  fire s p now accounts (ok t) =
      answer_of (queue_each p.id now accounts (record { queued = 0; skipped = 0 }) t)

  abbrev pub run_due : Store → Policy → ℕ → (ℕ → ℕ) → Result StoreError ℕ → Pass
  run_due s p now next (err e) = (err (failed e), s)
  run_due s p now next (ok last_run) =
      if ltb now (next (start_from now last_run))
      then (ok none, s)
      else fire s p now (accounts_for_policy s p.id) (set_policy_last_run s p.id now)

  abbrev pub run_parsed : Store → Policy → ℕ → Option (ℕ → ℕ) → Pass
  run_parsed s p now none = (err bad_schedule, s)
  run_parsed s p now (some next) = run_due s p now next (policy_last_run s p.id)

  -- `runPolicy`.
  unfoldable pub run_policy : Store → Policy → ℕ → Pass
  unfolding queue_each
  run_policy s p now = run_parsed s p now (parse p.schedule_cron)

  -- The loop of `RunOnce`, and `RunOnce`.
  unfoldable pub run_each : ℕ → List Policy → Store → Store
  unfolding run_policy
  run_each now [] s = s
  run_each now (p ∷ ps) s = run_each now ps ((run_policy s p now).1)

  unfoldable pub run_once : ℕ → Store → Store
  unfolding run_each
  run_once now s = let t = (reclaim_leases s now).1 in run_each now (list_policies t) t
