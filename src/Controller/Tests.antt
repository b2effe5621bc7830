-- ===== src/Controller/Tests.antt =====
-- One server with one pending backup: an agent asks for work and reports it.
use cprestic.Common.{
  In, inl, ◌+◌, ◌<◌, ◌==◌, any, arith, ℕ, ◌≡◌, ◌↔◌, refl, true, false, List, [], ◌∷◌, Option, none,
  some, Text, text, ok, length,
}
use cprestic.Job.{Status, TargetStatus}
use cprestic.Store.{Store, BackupJob, Account, Policy}
use cprestic.Store.Policies.{accounts_for_policy, policy_last_run, set_policy_last_run}
use cprestic.Store.Jobs.{
  ClaimedTarget, claim_next_job, running_on, next_pending, claim_targets, create_job,
}
use cprestic.Store.Restores.{claim_next_restore, next_pending_restore}
use cprestic.Store.Exclusive.History.{History}
use cprestic.Controller.{JobReport, JobAssignment, Assignment}
use cprestic.Controller.Token.{valid_claim_token}
use cprestic.Controller.Token.Shape.{IsUuid, valid_claim_token-IsUuid}
use cprestic.Controller.Calls.{next_work}
use cprestic.Controller.Schedule.{run_policy}
use cprestic.Controller.Fired.{is_open_for, run_policy-AllOpen}
use cprestic.Controller.Serves.{Request, IsNew, serve_all, serve_all-History}
use cprestic.Controller.Answers.{next_work-restores_first}

abbrev waiting : Store
waiting = record {
  servers = record { id = 1; max_concurrency = 2 } ∷ [];
  accounts =
      record {
        id = 10;
        server_id = 1;
        cpanel_user = text "user";
        primary_domain = text "example.org";
        size_estimate = 10;
        active = true;
      }
      ∷ [];
  destinations =
      record {
        id = 20;
        name = text "nas";
        type = text "sftp";
        config = [];
        credentials_secret_id = none;
      }
      ∷ [];
  repositories =
      record {
        id = 30;
        destination_id = 20;
        server_id = 1;
        path = text "/r";
        password_secret_id = 40;
        initialised_at = some 1;
      }
      ∷ [];
  policies =
      record {
        id = 5;
        name = text "nightly";
        schedule_cron = text "0 2 * * *";
        payload_mode = text "full";
        retention = record {
          keep_last = 1;
          keep_daily = 0;
          keep_weekly = 0;
          keep_monthly = 0;
          keep_yearly = 0;
        };
        compression = text "auto";
        limit_upload_kib = 0;
        last_run_at = none;
      }
      ∷ [];
  secrets = record { id = 40; ciphertext = text "sealed" } ∷ [];
  policy_repositories = record { policy_id = 5; repository_id = 30 } ∷ [];
  account_policies = [];
  backup_jobs =
      record {
        id = 50;
        account_id = 10;
        policy_id = 5;
        status = Status.pending;
        lease_expires_at = none;
        claim_token = none;
        started_at = none;
        finished_at = none;
        created_at = 3;
      }
      ∷ [];
  job_targets =
      record {
        job_id = 50;
        repository_id = 30;
        status = TargetStatus.pending;
        snapshot_id = none;
        bytes_added = 0;
        bytes_processed = 0;
        duration_seconds = 0;
        attempt = 0;
        incomplete = false;
        error = none;
      }
      ∷ [];
  restore_jobs = [];
  collation = λ a b. false;
}

-- A target is the id of its repository; a token is read as its length.
abbrev build : ClaimedTarget → Option ℕ
build t = some t.repository_id

abbrev uuid : Text → ℕ
uuid t = length t

abbrev token : Text
token = text "123e4567-e89b-12d3-a456-426614174000"

token_valid : valid_claim_token token ≡ true
unfolding valid_claim_token
token_valid = refl

abbrev assignment : JobAssignment ℕ
assignment = record {
  job_id = 50;
  claim_token = 36;
  account_id = 10;
  cpanel_user = text "user";
  size_estimate = 10;
  payload_mode = text "full";
  compression = text "auto";
  limit_upload_kib = 0;
  lease_expires_at = 110;
  targets = 30 ∷ [];
}

backup_offered : (next_work build waiting 1 100 36 10).0 ≡ ok (Assignment.backup_kind assignment)
unfolding next_work claim_next_restore next_pending_restore claim_next_job running_on next_pending
    claim_targets
backup_offered = refl

next_work-restores_first_example : next_pending_restore waiting 1 ≡ none
next_work-restores_first_example =
    next_work-restores_first build waiting 1 100 36 10 assignment backup_offered

abbrev done : JobReport
done = record {
  job_id = some 50;
  claim_token = token;
  targets =
      record {
        repository_id = 30;
        status = text "success";
        snapshot_id = text "abcd";
        bytes_added = 1;
        bytes_processed = 2;
        duration_seconds = 3;
        incomplete = false;
        error = [];
      }
      ∷ [];
  staging_error = [];
}

abbrev day : List Request
day = Request.asks_work 1 100 36 10 ∷ Request.sends_report 1 done 20 ∷ Request.ticks 30 ∷ []

-- A new identity is more than all that there are.
abbrev id_sum : List BackupJob → ℕ
id_sum [] = 0
id_sum (j ∷ js) = j.id + id_sum js

abbrev next_id : Store → ℕ
next_id s = id_sum s.backup_jobs + 1

above_all :
    (n : ℕ) (js : List BackupJob) → id_sum js < n → any (λ (j : BackupJob). j.id == n) js ≡ false
above_all n [] h = refl
above_all n (j ∷ js) h = ground (arith, h, above_all n js (omega (arith, h)))

next_id-IsNew : IsNew next_id
next_id-IsNew s = above_all (next_id s) s.backup_jobs (omega arith)

-- Every policy is due at once.
abbrev always : Text → Option (ℕ → ℕ)
always cron = some (λ t. t)

serve_all-History_example : History waiting (serve_all build uuid always next_id day waiting)
serve_all-History_example = serve_all-History build uuid always next_id next_id-IsNew day waiting

valid_claim_token-IsUuid_example : valid_claim_token token ≡ true ↔ IsUuid token
valid_claim_token-IsUuid_example = valid_claim_token-IsUuid token

-- The same server with its account assigned to the policy, and nothing queued.
abbrev nightly : Policy
nightly = record {
  id = 5;
  name = text "nightly";
  schedule_cron = text "0 2 * * *";
  payload_mode = text "full";
  retention = record {
    keep_last = 1;
    keep_daily = 0;
    keep_weekly = 0;
    keep_monthly = 0;
    keep_yearly = 0;
  };
  compression = text "auto";
  limit_upload_kib = 0;
  last_run_at = none;
}

abbrev idle : Store
idle = record waiting {
  account_policies = record { account_id = 10; policy_id = 5 } ∷ [];
  backup_jobs = [];
  job_targets = [];
}

abbrev the_account : Account
the_account = record {
  id = 10;
  server_id = 1;
  cpanel_user = text "user";
  primary_domain = text "example.org";
  size_estimate = 10;
  active = true;
}

abbrev fired_store : Store
fired_store = (run_policy always next_id idle nightly 100).1

nightly_fires :
    run_policy always next_id idle nightly 100
    ≡ (ok (some (record { queued = 1; skipped = 0 })), fired_store)
unfolding run_policy policy_last_run set_policy_last_run accounts_for_policy create_job
nightly_fires = refl

assigned : In the_account (accounts_for_policy idle 5)
unfolding accounts_for_policy
assigned = inl refl

run_policy-AllOpen_example : any (is_open_for 10 5) fired_store.backup_jobs ≡ true
run_policy-AllOpen_example =
    run_policy-AllOpen always next_id idle fired_store nightly 100
      (record { queued = 1; skipped = 0 }) refl nightly_fires the_account assigned
