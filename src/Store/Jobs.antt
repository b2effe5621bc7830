-- ===== src/Store/Jobs.antt =====
-- internal/store/jobs.go, first half: creating and claiming backup jobs.
use mathlib.Core.Option
use cprestic.Common.{
  ℕ, ◌+◌, Bool, true, false, not, ◌&&◌, ◌||◌, List, [], ◌∷◌, ◌++◌, map, Option, none, some, Text,
  ltb, leb, ◌==◌, if◌then◌else◌, Result, ok, ◌>>=◌, ◌>>◌, refuse_if, or_fail, length, filter, any,
  count, find, update, first_by,
}
use cprestic.Job.{Status, TargetStatus}
use cprestic.Store.{
  Store, StoreError, Server, Account, Policy, Repository, Destination, Secret, PolicyRepository,
  BackupJob, JobTarget, no_work, no_repositories, no_outstanding_targets, missing_row, is_pending,
  is_running, is_open,
}

-- `CreateJob`. `job_id` is what `gen_random_uuid()` returns.
abbrev pub new_target : ℕ → PolicyRepository → JobTarget
new_target job_id pr = record {
  job_id = job_id;
  repository_id = pr.repository_id;
  status = TargetStatus.pending;
  snapshot_id = none;
  bytes_added = 0;
  bytes_processed = 0;
  duration_seconds = 0;
  attempt = 0;
  incomplete = false;
  error = none;
}

abbrev pub new_job : ℕ → ℕ → ℕ → ℕ → BackupJob
new_job job_id account_id policy_id now = record {
  id = job_id;
  account_id = account_id;
  policy_id = policy_id;
  status = Status.pending;
  lease_expires_at = none;
  claim_token = none;
  started_at = none;
  finished_at = none;
  created_at = now;
}

unfoldable pub create_job : Store → ℕ → ℕ → ℕ → ℕ → Result StoreError (ℕ × Store)
create_job s account_id policy_id job_id now = do
  refuse_if
      (any
        (λ (j : BackupJob).
          j.account_id == account_id && j.policy_id == policy_id && is_open j.status)
        s.backup_jobs)
      no_work
  refuse_if (not (any (λ (a : Account). a.id == account_id) s.accounts)) missing_row
  refuse_if (not (any (λ (p : Policy). p.id == policy_id) s.policies)) missing_row
  let repositories =
      filter (λ (pr : PolicyRepository). pr.policy_id == policy_id) s.policy_repositories
  refuse_if (length repositories == 0) (no_repositories policy_id)
  ok (
    job_id,
    record s {
      backup_jobs = s.backup_jobs ++ new_job job_id account_id policy_id now ∷ [];
      job_targets = s.job_targets ++ map (new_target job_id) repositories;
    },
  )

-- `JOIN accounts a ON a.id = … WHERE a.server_id = …`.
abbrev pub on_server : Store → ℕ → ℕ → Bool
on_server s server_id account_id =
    any (λ (a : Account). a.id == account_id && a.server_id == server_id) s.accounts

-- The count of running jobs at the top of `ClaimNextJob`.
unfoldable pub running_on : Store → ℕ → ℕ
running_on s server_id =
    count (λ (j : BackupJob). is_running j.status && on_server s server_id j.account_id)
      s.backup_jobs

-- Whether a backup of the account is running.
abbrev pub runs_for : ℕ → BackupJob → Bool
runs_for account_id j = j.account_id == account_id && is_running j.status

-- The inner query of the claim: pending jobs of the server's accounts with no job running.
abbrev pub claimable : Store → ℕ → BackupJob → Bool
claimable s server_id j =
    on_server s server_id j.account_id
    && (is_pending j.status && not (any (runs_for j.account_id) s.backup_jobs))

unfoldable pub next_pending : Store → ℕ → Option BackupJob
next_pending s server_id =
    first_by (λ (j : BackupJob). j.created_at) (filter (claimable s server_id) s.backup_jobs)

abbrev pub coalesce : Option ℕ → ℕ → Option ℕ
coalesce none now = some now
coalesce (some at) now = some at

abbrev pub lease_job : ℕ → ℕ → ℕ → BackupJob → BackupJob
lease_job now lease token j = record j {
  status = Status.running;
  started_at = coalesce j.started_at now;
  lease_expires_at = some (now + lease);
  claim_token = some token;
}

-- `ClaimedTarget`, `ClaimedJob` of types.go.
pub record ClaimedTarget : Type 0 where
  pub repository_id : ℕ
  pub repository_path : Text
  pub destination_type : Text
  pub destination_config : Text
  pub credentials_sealed : Text
  pub repo_password_sealed : Text
  pub attempt : ℕ

pub record ClaimedJob : Type 0 where
  pub job_id : ℕ
  pub claim_token : ℕ
  pub lease_expires_at : ℕ
  pub account : Account
  pub policy : Policy
  pub targets : List ClaimedTarget

-- `coalesce(cs.ciphertext, ''::bytea)` after the left join.
unfoldable pub credentials_of : Store → Option ℕ → Text
credentials_of s none = []
credentials_of s (some id) = elim (find (λ (c : Secret). c.id == id) s.secrets) [
  | none ↦ []
  | some c ↦ c.ciphertext
]

-- The joins of `claimTargets` for one target; an inner join that finds nothing drops the row. The
-- destination's name goes along for the order.
unfoldable pub joined : Store → JobTarget → Option (Text × ClaimedTarget)
unfolding Option.bind credentials_of
joined s t = Option.bind (find (λ (r : Repository). r.id == t.repository_id) s.repositories) λ r.
    Option.bind (find (λ (d : Destination). d.id == r.destination_id) s.destinations) λ d.
      Option.map
        (λ (p : Secret). (
          d.name,
          record {
            repository_id = t.repository_id;
            repository_path = r.path;
            destination_type = d.type;
            destination_config = d.config;
            credentials_sealed = credentials_of s d.credentials_secret_id;
            repo_password_sealed = p.ciphertext;
            attempt = t.attempt;
          },
        ))
        (find (λ (p : Secret). p.id == r.password_secret_id) s.secrets)

unfoldable pub joined_all : Store → List JobTarget → List (Text × ClaimedTarget)
unfolding joined
joined_all s [] = []
joined_all s (t ∷ ts) = elim (joined s t) [
  | none ↦ joined_all s ts
  | some row ↦ row ∷ joined_all s ts
]

-- `ORDER BY d.name, r.path`.
unfoldable pub row_before : Store → Text × ClaimedTarget → Text × ClaimedTarget → Bool
row_before s a b =
    s.collation a.0 b.0
    || (not (s.collation b.0 a.0) && s.collation a.1.repository_path b.1.repository_path)

unfoldable pub insert_row :
    Store → Text × ClaimedTarget → List (Text × ClaimedTarget) → List (Text × ClaimedTarget)
unfolding row_before
insert_row s a [] = a ∷ []
insert_row s a (b ∷ bs) = if row_before s b a then b ∷ insert_row s a bs else a ∷ b ∷ bs

unfoldable pub sort_rows : Store → List (Text × ClaimedTarget) → List (Text × ClaimedTarget)
unfolding insert_row
sort_rows s [] = []
sort_rows s (a ∷ as') = insert_row s a (sort_rows s as')

-- `status IN ('pending', 'failed')`.
abbrev pub outstanding : TargetStatus → Bool
outstanding TargetStatus.pending = true
outstanding TargetStatus.failed = true
outstanding _ = false

unfoldable pub claim_targets : Store → ℕ → Result StoreError (List ClaimedTarget)
unfolding joined_all sort_rows
claim_targets s job_id =
    let rows =
      joined_all s
        (filter (λ (t : JobTarget). t.job_id == job_id && outstanding t.status) s.job_targets) in
    refuse_if (length rows == 0) (no_outstanding_targets job_id)
    >> ok (map (λ (r : Text × ClaimedTarget). r.1) (sort_rows s rows))

-- `ClaimNextJob`, for a lease of `lease`, under the token that `gen_random_uuid()` returns.
unfoldable pub claim_next_job : Store → ℕ → ℕ → ℕ → ℕ → Result StoreError (ClaimedJob × Store)
claim_next_job s server_id lease token now = do
  server ← or_fail (find (λ (v : Server). v.id == server_id) s.servers) missing_row
  refuse_if (ltb 0 server.max_concurrency && leb server.max_concurrency (running_on s server_id))
      no_work
  job ← or_fail (next_pending s server_id) no_work
  let s' = record s {
    backup_jobs =
        update (λ (j : BackupJob). j.id == job.id) (lease_job now lease token) s.backup_jobs;
  }
  account ← or_fail (find (λ (a : Account). a.id == job.account_id) s.accounts) missing_row
  policy ← or_fail (find (λ (p : Policy). p.id == job.policy_id) s.policies) missing_row
  targets ← claim_targets s' job.id
  ok (
    record {
      job_id = job.id;
      claim_token = token;
      lease_expires_at = now + lease;
      account = account;
      policy = policy;
      targets = targets;
    },
    s',
  )
