-- ===== src/Store/Effects.antt =====
-- What a call that succeeded found and did, one lemma for each operation of internal/store: the proofs
-- about the queue go through these and keep the operations shut.
use cprestic.Common.{
  ℕ, ◌+◌, ◌≡◌, Option-cases, Result-cases, inl, inr, true, false, ◌&&◌, List, [], ◌∷◌, ◌++◌, map,
  some, Text, ap, sym, ok-injective, Bool-cases, err, ◌==◌, ltb, leb, arith, ok, filter, any, find,
  update, length,
}
use cprestic.Job.{Status, rollup}
use cprestic.Store.{
  Store, Server, BackupJob, JobTarget, RestoreJob, PolicyRepository, Policy, not_found, is_open,
}
use cprestic.Store.Jobs.{
  ClaimedJob, create_job, claim_next_job, next_pending, lease_job, new_job, new_target, running_on,
  claim_targets,
}
use cprestic.Store.Reports.{
  TargetReport, apply_report, apply_targets, fail_unfinished, close_job, held_by, target_statuses,
}
use cprestic.Store.Leases.{
  renew_backup_lease, renew_restore_lease, restore_held_by, renew_job, renew_restore,
}
use cprestic.Store.Policies.{set_policy_last_run}
use cprestic.Store.Restores.{
  ClaimedRestore, RestoreOutcome, RestoreRequest, create_restore, new_restore, restore_source,
  claim_next_restore, next_pending_restore, lease_restore, apply_restore_report, close_restore,
}

abbrev pub after_claim : Store → ℕ → ℕ → ℕ → BackupJob → Store
after_claim s lease token now job = record s {
  backup_jobs =
      update (λ (j : BackupJob). j.id == job.id) (lease_job now lease token) s.backup_jobs;
}

pub claim_next_job-inv :
    (s t : Store) (server_id lease token now : ℕ) (c : ClaimedJob)
    → claim_next_job s server_id lease token now ≡ ok (c, t)
    → (v : Server) × (job : BackupJob) × (find (λ (o : Server). o.id == server_id) s.servers
        ≡ some v)
      × ((ltb 0 v.max_concurrency && leb v.max_concurrency (running_on s server_id)) ≡ false)
      × (next_pending s server_id ≡ some job)
      × (t ≡ after_claim s lease token now job)
      × (c.job_id ≡ job.id)
      × (c.claim_token ≡ token)
      × (c.lease_expires_at ≡ now + lease)
      × (claim_targets t job.id ≡ ok c.targets)
unfolding claim_next_job
claim_next_job-inv s t server_id lease token now c h =
    elim (Option-cases (find (λ (o : Server). o.id == server_id) s.servers)) [
      | inl e ↦ absurd (ground arith)
      | inr (v, ev) ↦ elim (Option-cases (next_pending s server_id)) [
        | inl e ↦ absurd (ground arith)
        | inr (job, ej) ↦ (
          v,
          job,
          ev,
          ground arith,
          ej,
          ground arith,
          ground arith,
          ground arith,
          ground arith,
          ground arith,
        )
      ]
    ]

pub create_job-inv :
    (s t : Store) (account_id policy_id job_id now i : ℕ)
    → create_job s account_id policy_id job_id now ≡ ok (i, t)
    → let repositories =
        filter (λ (pr : PolicyRepository). pr.policy_id == policy_id) s.policy_repositories in
      (any
          (λ (j : BackupJob).
            j.account_id == account_id && j.policy_id == policy_id && is_open j.status)
          s.backup_jobs
        ≡ false)
      × ((length repositories == 0) ≡ false)
      × (i ≡ job_id)
      × (t ≡ record s {
        backup_jobs = s.backup_jobs ++ new_job job_id account_id policy_id now ∷ [];
        job_targets = s.job_targets ++ map (new_target job_id) repositories;
      })
unfolding create_job
create_job-inv s t account_id policy_id job_id now i h =
    (ground arith, ground arith, ground arith, ground arith)

abbrev pub after_report : Store → ℕ → List JobTarget → Status → ℕ → Store
after_report s job_id targets status now = record s {
  job_targets = targets;
  backup_jobs = update (λ (j : BackupJob). j.id == job_id) (close_job status now) s.backup_jobs;
}

pub apply_report-inv :
    (s t : Store) (server_id job_id token : ℕ) (reports : List TargetReport) (staging_error : Text)
    (now : ℕ) (status : Status)
    → apply_report s server_id job_id token reports staging_error now ≡ ok (status, t)
    → (reported : List JobTarget) × (any (held_by s server_id job_id token) s.backup_jobs ≡ true)
      × (apply_targets job_id reports s.job_targets ≡ ok reported)
      × (status ≡ rollup (target_statuses job_id (fail_unfinished job_id staging_error reported)))
      × (t ≡ after_report s job_id (fail_unfinished job_id staging_error reported) status now)
unfolding apply_report
apply_report-inv s t server_id job_id token reports staging_error now status h =
    elim (Result-cases (apply_targets job_id reports s.job_targets)) [
      | inl (reported, e) ↦ (reported, ground arith, e, ground arith, ground arith)
      | inr (e, r) ↦ absurd (ground arith)
    ]

pub renew_backup_lease-inv :
    (s t : Store) (server_id job_id token lease now expires : ℕ)
    → renew_backup_lease s server_id job_id token lease now ≡ ok (expires, t)
    → (any (held_by s server_id job_id token) s.backup_jobs ≡ true)
      × (expires ≡ now + lease)
      × (t ≡ record s {
        backup_jobs =
            update (held_by s server_id job_id token) (renew_job (now + lease)) s.backup_jobs;
      })
unfolding renew_backup_lease
renew_backup_lease-inv s t server_id job_id token lease now expires h =
    (ground arith, ground arith, ground arith)

pub renew_restore_lease-inv :
    (s t : Store) (server_id job_id token lease now expires : ℕ)
    → renew_restore_lease s server_id job_id token lease now ≡ ok (expires, t)
    → (any (restore_held_by s server_id job_id token) s.restore_jobs ≡ true)
      × (expires ≡ now + lease)
      × (t ≡ record s {
        restore_jobs =
            update
              (restore_held_by s server_id job_id token)
              (renew_restore (now + lease))
              s.restore_jobs;
      })
unfolding renew_restore_lease
renew_restore_lease-inv s t server_id job_id token lease now expires h =
    (ground arith, ground arith, ground arith)

abbrev pub after_restore_claim : Store → ℕ → ℕ → ℕ → RestoreJob → Store
after_restore_claim s lease token now r = record s {
  restore_jobs =
      update (λ (o : RestoreJob). o.id == r.id) (lease_restore now lease token) s.restore_jobs;
}

pub claim_next_restore-inv :
    (s t : Store) (server_id lease token now : ℕ) (c : ClaimedRestore)
    → claim_next_restore s server_id lease token now ≡ ok (c, t)
    → (r : RestoreJob) × (next_pending_restore s server_id ≡ some r)
      × (t ≡ after_restore_claim s lease token now r)
      × (c.job_id ≡ r.id)
      × (c.claim_token ≡ token)
unfolding claim_next_restore
claim_next_restore-inv s t server_id lease token now c h =
    elim (Option-cases (next_pending_restore s server_id)) [
      | inl e ↦ absurd (ground arith)
      | inr (r, e) ↦ (r, e, ground arith, ground arith, ground arith)
    ]

pub apply_restore_report-inv :
    (s t : Store) (server_id job_id token : ℕ) (outcome : RestoreOutcome) (now : ℕ)
    → apply_restore_report s server_id job_id token outcome now ≡ ok t
    → (any (restore_held_by s server_id job_id token) s.restore_jobs ≡ true)
      × (t ≡ record s {
        restore_jobs =
            update
              (restore_held_by s server_id job_id token)
              (close_restore outcome now)
              s.restore_jobs;
      })
unfolding apply_restore_report
apply_restore_report-inv s t server_id job_id token outcome now h = (ground arith, ground arith)

pub create_restore-inv :
    (s t : Store) (req : RestoreRequest) (job_id now i : ℕ)
    → create_restore s req job_id now ≡ ok (i, t)
    → (repository_id : ℕ) × (restore_source s req.account_id req.repository_id ≡ ok repository_id)
      × (i ≡ job_id)
      × (t ≡ record s {
        restore_jobs = s.restore_jobs ++ new_restore req repository_id job_id now ∷ [];
      })
unfolding create_restore
create_restore-inv s t req job_id now i h =
    elim (Result-cases (restore_source s req.account_id req.repository_id)) [
      | inl (id, e) ↦ (id, e, ground arith, ground arith)
      | inr (x, e) ↦ absurd (ground arith)
    ]

pub set_policy_last_run-inv :
    (s t : Store) (policy_id at : ℕ)
    → set_policy_last_run s policy_id at ≡ ok t
    → (t.accounts ≡ s.accounts)
      × (t.backup_jobs ≡ s.backup_jobs)
      × (t.job_targets ≡ s.job_targets)
      × (t.restore_jobs ≡ s.restore_jobs)
unfolding set_policy_last_run
set_policy_last_run-inv s t policy_id at h =
    elim (Bool-cases (any (λ (p : Policy). p.id == policy_id) s.policies)) [
      | inr n ↦ absurd (let x : err not_found ≡ ok t = rw n at h in cc)
      | inl y ↦
          let x = ok-injective (rw y at h) in
          (
            ap (λ (v : Store). v.accounts) (sym x),
            ap (λ (v : Store). v.backup_jobs) (sym x),
            ap (λ (v : Store). v.job_targets) (sym x),
            ap (λ (v : Store). v.restore_jobs) (sym x),
          )
    ]
