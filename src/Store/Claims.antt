-- ===== src/Store/Claims.antt =====
-- Which job or restore a claim hands out (ClaimNextJob, ClaimNextRestore).
use cprestic.Common.{
  ℕ, Text, [], ◌∷◌, ◌≤◌, ◌≡◌, refl, ◌⊎◌, inl, inr, true, false, ◌&&◌, List, some, ◌==◌, arith,
  Result, ok, err, Option-cases, Result-cases, any, filter, find, In, In-filter_intro, first_by,
  first_by-le, count-update, ap, ◌∙◌, any_of_In, In-update, ==_refl, if◌then◌else◌, Bool, update,
  count_mono, &&_left,
}
use cprestic.Job.{Status}
use cprestic.Store.{Store, StoreError, Server, BackupJob, RestoreJob, JobTarget, is_running}
use cprestic.Store.Jobs.{
  ClaimedJob, ClaimedTarget, claim_next_job, next_pending, claimable, running_on, lease_job,
  on_server, runs_for, joined_all, insert_row, sort_rows, claim_targets, outstanding,
}
use cprestic.Store.Restores.{ClaimedRestore, claim_next_restore, restores_for, lease_restore}
use cprestic.Store.Effects.{after_claim, claim_next_job-inv, claim_next_restore-inv}
use cprestic.Store.Exclusive.{IsExclusive}
use cprestic.Store.Exclusive.Backups.{next_pending-claimable}
use cprestic.Store.Exclusive.Restores.{next_pending_restore-claimable}

-- In an exclusive queue, a claim never takes a server over its `max_concurrency`, where 0 is no limit.
pub running_on-claim_next_job :
    (s t : Store) (server_id lease token now : ℕ) (c : ClaimedJob)
    → claim_next_job s server_id lease token now ≡ ok (c, t)
    → IsExclusive s
    → (v : Server) × (find (λ (o : Server). o.id == server_id) s.servers ≡ some v)
      × ((v.max_concurrency ≡ 0) ⊎ (running_on t server_id ≤ v.max_concurrency))
unfolding running_on
running_on-claim_next_job s t server_id lease token now c h x =
    let (v, job, found, room, _, e, _, _, _, _) =
      claim_next_job-inv s t server_id lease token now c h in
    let p = λ (j : BackupJob). is_running j.status && on_server s server_id j.account_id in
    let q = λ (j : BackupJob). j.id == job.id in
    (
      v,
      found,
      rw e (
          ground (
            arith,
            count-update p q (lease_job now lease token) s.backup_jobs,
            count_mono (λ j. q j && p (lease_job now lease token j)) q (λ j. &&_left _ _)
                s.backup_jobs,
            x.job_ids job.id,
          )),
    )

-- A claim hands out a job of this server that was pending and whose account had no backup running,
-- and no such job was created before it.
pub claim_next_job-oldest :
    (s t : Store) (server_id lease token now : ℕ) (c : ClaimedJob)
    → claim_next_job s server_id lease token now ≡ ok (c, t)
    → (job : BackupJob) × In job s.backup_jobs
      × (c.job_id ≡ job.id)
      × (job.status ≡ Status.pending)
      × (on_server s server_id job.account_id ≡ true)
      × (any (runs_for job.account_id) s.backup_jobs ≡ false)
      × ((j : BackupJob)
          → In j s.backup_jobs
          → claimable s server_id j ≡ true
          → job.created_at ≤ j.created_at)
unfolding next_pending
claim_next_job-oldest s t server_id lease token now c h =
    let (_, job, _, _, picked, _, id, _, _, _) =
      claim_next_job-inv s t server_id lease token now c h in
    let (m, fits) = next_pending-claimable s server_id job picked in
    (
      job,
      m,
      id,
      ground arith,
      ground arith,
      ground arith,
      λ j n k.
          first_by-le (λ (o : BackupJob). o.created_at) job j _ picked
            (In-filter_intro (claimable s server_id) j s.backup_jobs n k),
    )

-- A restore is handed out only while its account has neither a backup nor a restore running.
pub claim_next_restore-idle :
    (s t : Store) (server_id lease token now : ℕ) (c : ClaimedRestore)
    → claim_next_restore s server_id lease token now ≡ ok (c, t)
    → (r : RestoreJob) × In r s.restore_jobs
      × (c.job_id ≡ r.id)
      × (r.status ≡ Status.pending)
      × (any (runs_for r.account_id) s.backup_jobs ≡ false)
      × (any (restores_for r.account_id) s.restore_jobs ≡ false)
claim_next_restore-idle s t server_id lease token now c h =
    let (r, picked, _, id, _) = claim_next_restore-inv s t server_id lease token now c h in
    let (m, fits) = next_pending_restore-claimable s server_id r picked in
    (r, m, id, ground arith, ground arith, ground arith)

abbrev with_restores :
    List RestoreJob
    → Result StoreError (ClaimedJob × Store)
    → Result StoreError (ClaimedJob × Store)
with_restores rs (ok (c, t)) = ok (c, record t { restore_jobs = rs })
with_restores rs (err e) = err e

module _ (s : Store) (rs : List RestoreJob) where
  joined_all-restores :
      (ts : List JobTarget) → joined_all (record s { restore_jobs = rs }) ts ≡ joined_all s ts
  unfolding joined_all
  joined_all-restores [] = refl
  joined_all-restores (t ∷ ts) = ground (arith, joined_all-restores ts)

  insert_row-restores :
      (a : Text × ClaimedTarget) (rows : List (Text × ClaimedTarget))
      → insert_row (record s { restore_jobs = rs }) a rows ≡ insert_row s a rows
  unfolding insert_row
  insert_row-restores a [] = refl
  insert_row-restores a (b ∷ bs) = rw (insert_row-restores a bs)

  sort_rows-restores :
      (rows : List (Text × ClaimedTarget))
      → sort_rows (record s { restore_jobs = rs }) rows ≡ sort_rows s rows
  unfolding sort_rows
  sort_rows-restores [] = refl
  sort_rows-restores (a ∷ rows) =
      rw (sort_rows-restores rows) (insert_row-restores a (sort_rows s rows))

  claim_targets-restores :
      (job_id : ℕ) → claim_targets (record s { restore_jobs = rs }) job_id ≡ claim_targets s job_id
  unfolding claim_targets
  claim_targets-restores job_id =
      let ts =
        filter (λ (t : JobTarget). t.job_id == job_id && outstanding t.status) s.job_targets in
      rw (joined_all-restores ts, sort_rows-restores (joined_all s ts))

-- The claim of a backup reads no restore.
claim_next_job-restores :
    (s : Store) (rs : List RestoreJob) (server_id lease token now : ℕ)
    → claim_next_job (record s { restore_jobs = rs }) server_id lease token now
      ≡ with_restores rs (claim_next_job s server_id lease token now)
unfolding claim_next_job running_on next_pending
claim_next_job-restores s rs server_id lease token now =
    let picked =
      first_by (λ (j : BackupJob). j.created_at) (filter (claimable s server_id) s.backup_jobs) in
    elim (Option-cases picked) [
      | inl e ↦ ground (arith, e)
      | inr (job, e) ↦ ground (
        arith,
        e,
        claim_targets-restores (after_claim s lease token now job) rs job.id,
        Result-cases (claim_targets (after_claim s lease token now job) job.id),
      )
    ]

-- The updated row of a table answers a query that it meets after the update.
any-update :
    {A : Type 0} (p q : A → Bool) (f : A → A) (a : A) (xs : List A)
    → In a xs
    → q a ≡ true
    → p (f a) ≡ true
    → any p (update q f xs) ≡ true
any-update p q f a xs m h k =
    any_of_In p (if q a then f a else a) (update q f xs) (In-update q f a xs m) (rw h k)

-- A restore does not hold a backup of its account back. If a restore and a backup may each be claimed of the same
-- tables, then once the restore is claimed the backup is still handed out, and afterwards a restore of the
-- account of the one and a backup of the account of the other are running, also where they are one account.
pub claim_next_job-claim_next_restore :
    (s t u : Store) (server_id lease token again now : ℕ) (c : ClaimedRestore) (d : ClaimedJob)
    → claim_next_restore s server_id lease token now ≡ ok (c, t)
    → claim_next_job s server_id lease again now ≡ ok (d, u)
    → (v : Store) × (claim_next_job t server_id lease again now ≡ ok (d, v))
      × ((r : RestoreJob) × In r s.restore_jobs
          × (c.job_id ≡ r.id)
          × (any (restores_for r.account_id) v.restore_jobs ≡ true))
      × ((job : BackupJob) × In job s.backup_jobs
          × (d.job_id ≡ job.id)
          × (any (runs_for job.account_id) v.backup_jobs ≡ true))
claim_next_job-claim_next_restore s t u server_id lease token again now c d h k =
    let (r, picked, e, id, _) = claim_next_restore-inv s t server_id lease token now c h in
    let (m, _) = next_pending_restore-claimable s server_id r picked in
    let (_, job, _, _, chosen, f, number, _, _, _) =
      claim_next_job-inv s u server_id lease again now d k in
    let (n, _) = next_pending-claimable s server_id job chosen in
    let rs =
      update (λ (o : RestoreJob). o.id == r.id) (lease_restore now lease token) s.restore_jobs in
    (
      record u { restore_jobs = rs },
      ap (λ x. claim_next_job x server_id lease again now) e
          ∙ claim_next_job-restores s rs server_id lease again now
          ∙ ap (with_restores rs) k,
      (
        r,
        m,
        id,
        any-update (restores_for r.account_id) _ (lease_restore now lease token) r s.restore_jobs m
            (==_refl r.id) (ground (arith, ==_refl r.account_id)),
      ),
      (
        job,
        n,
        number,
        rw f (
            any-update (runs_for job.account_id) _ (lease_job now lease again) job s.backup_jobs n
              (==_refl job.id) (ground (arith, ==_refl job.account_id))),
      ),
    )
