-- ===== src/Controller/Serves.antt =====
-- The whole service: requests of agents and passes of the scheduler, one after another.
use cprestic.Common.{
  ℕ, ◌≡◌, refl, inl, inr, false, List, [], ◌∷◌, Option, none, some, Text, ltb, ◌==◌, any, Result,
  ok, err, Bool-cases,
}
use cprestic.Store.{Store, StoreError, BackupJob, Account, Policy, no_work}
use cprestic.Store.Jobs.{ClaimedTarget, create_job}
use cprestic.Store.Policies.{
  list_policies, accounts_for_policy, policy_last_run, set_policy_last_run,
}
use cprestic.Store.Exclusive.History.{Step, History}
use cprestic.Controller.{JobReport, RestoreReport, LeaseRenewal}
use cprestic.Controller.Calls.{next_work, report, report_restore, renew_lease, reclaim_leases}
use cprestic.Controller.Schedule.{
  Fired, counted, queue_each, fire, run_due, run_parsed, start_from, run_policy, run_each, run_once,
}
use cprestic.Controller.Refines.{
  History-trans, single, next_work-History, report-History, report_restore-History,
  renew_lease-History, reclaim_leases-History,
}

-- What a request of an agent, or a tick of the scheduler, asks of the service.
pub data Request : Type 0 where
  asks_work : (server_id lease token now : ℕ) → Request
  sends_report : (server_id : ℕ) → JobReport → (now : ℕ) → Request
  sends_restore_report : (server_id : ℕ) → RestoreReport → (now : ℕ) → Request
  renews_lease : (server_id : ℕ) → LeaseRenewal → (lease now : ℕ) → Request
  ticks : (now : ℕ) → Request

-- The database never makes an identity that a backup has already.
abbrev pub IsNew : (Store → ℕ) → Type 0
IsNew new_id = (s : Store) → any (λ (j : BackupJob). j.id == new_id s) s.backup_jobs ≡ false

module _ (parse : Text → Option (ℕ → ℕ)) (new_id : Store → ℕ) (fresh : IsNew new_id) where
  counted-History :
      (s : Store) (account_id policy_id now : ℕ) (n : Fired) (r : Result StoreError (ℕ × Store))
      → create_job s account_id policy_id (new_id s) now ≡ r
      → History s (counted parse new_id s n r).1
  counted-History s a p now n (ok (id, t)) h =
      single (Step.creates a p (new_id s) now id (fresh s) h)
  counted-History s a p now n (err no_work) h = History.here
  counted-History s a p now n (err e) h = History.here

  queue_each-History :
      (policy_id now : ℕ) (accounts : List Account) (n : Fired) (s : Store)
      → History s (queue_each parse new_id policy_id now accounts n s).1
  unfolding queue_each
  queue_each-History p now [] n s = History.here
  queue_each-History p now (a ∷ rest) n s =
      History-trans (counted-History s a.id p now n _ refl) (queue_each-History p now rest _ _)

  fire-History :
      (s : Store) (p : Policy) (now : ℕ) (accounts : List Account) (r : Result StoreError Store)
      → set_policy_last_run s p.id now ≡ r
      → History s (fire parse new_id s p now accounts r).1
  fire-History s p now accounts (err e) h = History.here
  fire-History s p now accounts (ok t) h =
      History-trans (single (Step.schedules p.id now h)) (queue_each-History p.id now accounts _ t)

  run_due-History :
      (s : Store) (p : Policy) (now : ℕ) (next : ℕ → ℕ) (r : Result StoreError ℕ)
      → History s (run_due parse new_id s p now next r).1
  run_due-History s p now next (err e) = History.here
  run_due-History s p now next (ok last_run) =
      elim (Bool-cases (ltb now (next (start_from now last_run)))) [
        | inl y ↦ rw y History.here
        | inr n ↦ rw n (fire-History s p now (accounts_for_policy s p.id) _ refl)
      ]

  run_policy-History :
      (s : Store) (p : Policy) (now : ℕ) → History s (run_policy parse new_id s p now).1
  unfolding run_policy
  run_policy-History s p now = parsed (parse p.schedule_cron)
    where
      parsed : (o : Option (ℕ → ℕ)) → History s (run_parsed parse new_id s p now o).1
      parsed none = History.here
      parsed (some next) = run_due-History s p now next (policy_last_run s p.id)

  run_each-History :
      (now : ℕ) (ps : List Policy) (s : Store) → History s (run_each parse new_id now ps s)
  unfolding run_each
  run_each-History now [] s = History.here
  run_each-History now (p ∷ ps) s =
      History-trans (run_policy-History s p now) (run_each-History now ps _)

  run_once-History : (now : ℕ) (s : Store) → History s (run_once parse new_id now s)
  unfolding run_once
  run_once-History now s =
      History-trans (reclaim_leases-History s now)
        (run_each-History now (list_policies (reclaim_leases s now).1) _)

module _ {Target : Type 0} (build : ClaimedTarget → Option Target) (uuid : Text → ℕ)
    (parse : Text → Option (ℕ → ℕ)) (new_id : Store → ℕ) where
  -- The tables after a request, and after a sequence of them.
  unfoldable pub serve : Request → Store → Store
  serve (Request.asks_work sv lease token now) s = (next_work build s sv lease token now).1
  serve (Request.sends_report sv r now) s = (report uuid s sv r now).1
  serve (Request.sends_restore_report sv r now) s = (report_restore uuid s sv r now).1
  serve (Request.renews_lease sv r lease now) s = (renew_lease uuid s sv r lease now).1
  serve (Request.ticks now) s = run_once parse new_id now s

  unfoldable pub serve_all : List Request → Store → Store
  unfolding serve
  serve_all [] s = s
  serve_all (q ∷ qs) s = serve_all qs (serve q s)

module _ {Target : Type 0} (build : ClaimedTarget → Option Target) (uuid : Text → ℕ)
    (parse : Text → Option (ℕ → ℕ)) (new_id : Store → ℕ) (fresh : IsNew new_id) where
  serve-History : (q : Request) (s : Store) → History s (serve build uuid parse new_id q s)
  unfolding serve
  serve-History (Request.asks_work sv lease token now) s =
      next_work-History build s sv lease token now
  serve-History (Request.sends_report sv r now) s = report-History uuid s sv r now
  serve-History (Request.sends_restore_report sv r now) s = report_restore-History uuid s sv r now
  serve-History (Request.renews_lease sv r lease now) s = renew_lease-History uuid s sv r lease now
  serve-History (Request.ticks now) s = run_once-History parse new_id fresh now s

  -- If the database never makes an identity that a backup has already: whatever agents ask, report and renew,
  -- and however the passes of the scheduler fall between, with every guard, failure and refusal on the way,
  -- the tables go through a history of the store's own calls.
  pub serve_all-History :
      (qs : List Request) (s : Store) → History s (serve_all build uuid parse new_id qs s)
  unfolding serve_all
  serve_all-History [] s = History.here
  serve_all-History (q ∷ qs) s =
      History-trans (serve-History q s) (serve_all-History qs (serve build uuid parse new_id q s))
