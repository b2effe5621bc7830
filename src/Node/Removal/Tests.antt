-- ===== src/Node/Removal/Tests.antt =====
-- Three schedules where the greedy choice takes one too many, and an account with and without its copies.
use cprestic.Common.{
  ℕ, ◌+◌, ◌≡◌, ◌≢◌, ◌↔◌, ◌≤◌, refl, inr, true, false, List, [], ◌∷◌, Option, none, some, Text, text,
  text_eq, ℤ, pos, sub_time, wrap64, In, length, filter, arith, ok, ◌==◌,
}
use cprestic.Job.{Status, TargetStatus}
use cprestic.Node.{Retention, Policy, Job, Node}
use cprestic.Node.Removal.Cover.{
  candidates_of, greedy_from, greedy_policy_cover, minimum_policy_cover,
}
use cprestic.Node.Removal.Cover.Greedy.{IsCover, greedy_from-covers}
use cprestic.Node.Removal.Cover.Candidates.{candidates_of_sound}
use cprestic.Node.Removal.Cover.Minimum.{minimum_policy_cover-least, Held-candidates}
use cprestic.Node.Removal.Safety.{Schedule, promise_of, account_removal_safety}
use cprestic.Node.Removal.Allowed.{RecentCopies, account_removal_safety-allowed}
use cprestic.Node.Removal.Queue.{queue_removal_preparation}
use cprestic.Node.Removal.Written.{IsFresh}
use cprestic.Node.Removal.Prepared.{
  IsPreparable, Prepared, queue_removal_preparation-succeeds, queue_removal_preparation-Prepared,
}

abbrev nothing : Retention
nothing = record {
  keep_last = pos 0;
  keep_daily = pos 0;
  keep_weekly = pos 0;
  keep_monthly = pos 0;
  keep_yearly = pos 0;
}

abbrev schedule : ℕ → List ℕ → Policy
schedule id rs = record {
  id = id;
  schedule_cron = text "0 2 * * *";
  accounts = [];
  skip_homedir = false;
  skip_databases = false;
  skip_email = false;
  alert_no_backup_days = pos 0;
  retention = nothing;
  repository_ids = rs;
  enabled = true;
}

abbrev wide : Policy
wide = schedule 1 (1 ∷ 2 ∷ 3 ∷ 4 ∷ [])

abbrev left : Policy
left = schedule 2 (1 ∷ 2 ∷ 5 ∷ [])

abbrev right : Policy
right = schedule 3 (3 ∷ 4 ∷ 6 ∷ [])

abbrev all : List Policy
all = wide ∷ left ∷ right ∷ []

abbrev missing : List ℕ
missing = 1 ∷ 2 ∷ 3 ∷ 4 ∷ 5 ∷ 6 ∷ []

greedy_takes_three : length (greedy_policy_cover missing (candidates_of missing all)) ≡ 3
unfolding greedy_policy_cover candidates_of
greedy_takes_three = refl

minimum_takes_two : minimum_policy_cover missing all ≡ left ∷ right ∷ []
unfolding minimum_policy_cover
minimum_takes_two = refl

two_of_all : (p : Policy) → In p (left ∷ right ∷ []) → In p all
two_of_all p m = inr m

minimum_policy_cover-least_example :
    IsCover all missing (minimum_policy_cover missing all)
    × (length (minimum_policy_cover missing all) ≤ 2)
minimum_policy_cover-least_example =
    minimum_policy_cover-least missing all (left ∷ right ∷ []) two_of_all refl

greedy_from-covers_example :
    (ps : List Policy) × (greedy_from 6 missing [] (candidates_of missing all) ≡ some ps)
    × IsCover all missing ps
greedy_from-covers_example =
    greedy_from-covers all (candidates_of missing all) 6 missing []
      (candidates_of_sound missing all)
      (Held-candidates missing all (left ∷ right ∷ []) two_of_all refl) (omega arith)

-- A schedule that runs every 100, so that a copy is recent for 200.
abbrev every_hundred : Text → Option Schedule
every_hundred cron = some (λ t. t + 100)

abbrev shop : Text
shop = text "shop"

abbrev copy : ℕ → ℕ → Job
copy r at = record {
  id = r;
  policy_id = 2;
  account = shop;
  complete_account = true;
  status = Status.success;
  targets =
      record {
        repository_id = r;
        status = TargetStatus.success;
        incomplete = false;
        snapshot_id = text "ab";
      }
      ∷ [];
  queued_at = 1;
  finished_at = some at;
}

abbrev node_with : List Job → Node
node_with jobs = record {
  policies = left ∷ [];
  repositories = [];
  jobs = jobs;
  restores = [];
  protect_account_removal = true;
}

abbrev covered : Node
covered = node_with (copy 1 900 ∷ copy 2 950 ∷ copy 5 990 ∷ [])

abbrev stale : Node
stale = node_with (copy 1 700 ∷ copy 2 950 ∷ [])

covered_allowed : (account_removal_safety every_hundred shop 1000 covered).allowed ≡ true
unfolding account_removal_safety sub_time wrap64 text_eq
covered_allowed = refl

stale_missing :
    (account_removal_safety every_hundred shop 1000 stale).missing_repository_ids ≡ 1 ∷ 5 ∷ []
unfolding account_removal_safety sub_time wrap64 text_eq
stale_missing = refl

account_removal_safety-allowed_example :
    (account_removal_safety every_hundred shop 1000 covered).allowed ≡ true
    ↔ (shop ≢ [])
      × ((p : Policy) × In p covered.policies
          × (due : ℤ) × (promise_of every_hundred shop 1000 p ≡ some due))
      × RecentCopies every_hundred shop 1000 covered.policies
          (filter (λ (j : Job). text_eq j.account shop) covered.jobs)
account_removal_safety-allowed_example =
    account_removal_safety-allowed every_hundred shop 1000 covered refl

abbrev fresh_id : ℕ → ℕ
fresh_id i = i + 100

abbrev prepared : Node
prepared = node_with (
    copy 1 700
    ∷ copy 2 950
    ∷ record {
      id = 100;
      policy_id = 2;
      account = shop;
      complete_account = false;
      status = Status.pending;
      targets = [];
      queued_at = 1000;
      finished_at = none;
    }
    ∷ [])

stale_prepares :
    queue_removal_preparation every_hundred fresh_id 1000 shop 1000 stale ≡ ok (left ∷ [], prepared)
unfolding queue_removal_preparation account_removal_safety minimum_policy_cover promise_of sub_time
    wrap64 text_eq
stale_prepares = refl

fresh_id-distinct : (a b : ℕ) → (fresh_id a == fresh_id b) ≡ true → a ≡ b
fresh_id-distinct a b h = ground (arith, h)

fresh_id-IsFresh : IsFresh fresh_id 0 stale.jobs
fresh_id-IsFresh k l = ground arith

queue_removal_preparation-succeeds_example :
    ((answer : List Policy × Node) × (queue_removal_preparation every_hundred fresh_id 1000 shop
          1000 stale
        ≡ ok answer))
    ↔ IsPreparable every_hundred shop 1000 stale
queue_removal_preparation-succeeds_example =
    queue_removal_preparation-succeeds every_hundred fresh_id 1000 shop 1000 stale

queue_removal_preparation-Prepared_example :
    Prepared every_hundred fresh_id 1000 shop 1000 stale (left ∷ []) prepared
queue_removal_preparation-Prepared_example =
    queue_removal_preparation-Prepared every_hundred fresh_id 1000 shop 1000 stale prepared
      (left ∷ []) fresh_id-distinct fresh_id-IsFresh stale_prepares
