-- ===== src/Node/Removal/Safety.antt =====
-- `AccountRemovalSafety` of internal/node/removal.go: whether the copies of an account are good enough for
-- it to be removed.
--
-- The cron library is a parameter: `parse` is `cron.ParseStandard`, and a schedule is its `Next`. The time
-- zone of `now`, in which a schedule is read, is not modelled. A Go map is an association list. Of the text
-- `Detail` the parts are kept: identities stand for the names of repositories, in the order of the ids.
use cprestic.Common.{
  ℕ, ◌*◌, Bool, true, false, not, ◌&&◌, ◌||◌, List, [], ◌∷◌, map, Option, none, some, Text, text_eq,
  ℤ, ltbℤ, wrap64, sub_time, is_positive, pos_part, ltb, leb, ◌==◌, if◌then◌else◌, length, filter,
  any, lookup, assign,
}
use cprestic.Job.{Status, TargetStatus}
use cprestic.Node.{Policy, JobTarget, Job, Node}
use cprestic.Node.Removal.Cover.{contains}

-- `RemovalSafety`.
pub data Detail : Type 0 where
  no_account no_policy disabled recent : Detail
  not_recent : List ℕ → List ℕ → Detail

pub record RemovalSafety : Type 0 where
  pub enforced : Bool
  pub allowed : Bool
  pub detail : Detail
  pub missing_repository_ids : List ℕ

abbrev pub Schedule : Type 0
Schedule = ℕ → ℕ

-- `fullAccountPolicy`.
unfoldable pub full_account_policy : Policy → Text → Bool
full_account_policy policy account =
    if not policy.enabled
      || length policy.repository_ids == 0
      || policy.skip_homedir
      || policy.skip_databases
      || policy.skip_email
    then false
    else if length policy.accounts == 0
    then true
    else any (λ covered. text_eq covered account) policy.accounts

-- `policyFreshness`: the duration where it is one, as `time.Duration` has it.
abbrev pub day : ℕ
day = 24 * 3600 * 1000000000

abbrev pub freshness_of : ℤ → Schedule → ℕ → Option ℤ
freshness_of alert_days next now =
    let first = next now in
    let interval = sub_time (next first) first in
    let due =
      if is_positive alert_days
      then wrap64 (pos_part alert_days * day)
      else wrap64 (2 * pos_part interval) in
    if is_positive interval && is_positive due then some due else none

unfoldable pub policy_freshness : (Text → Option Schedule) → Policy → ℕ → Option ℤ
policy_freshness parse policy now = elim (parse policy.schedule_cron) [
  | none ↦ none
  | some next ↦ freshness_of policy.alert_no_backup_days next now
]

-- The two guards of the loop over the policies.
unfoldable pub promise_of : (Text → Option Schedule) → Text → ℕ → Policy → Option ℤ
unfolding full_account_policy policy_freshness
promise_of parse account now policy =
    if full_account_policy policy account then policy_freshness parse policy now else none

abbrev pub is_sooner : ℤ → Option ℤ → Bool
is_sooner due none = true
is_sooner due (some current) = ltbℤ due current

abbrev pub expect : ℤ → ℕ → List (ℕ × ℤ) → List (ℕ × ℤ)
expect due r expected =
    if is_sooner due (lookup r expected) then assign r due expected else expected

unfoldable pub expect_each : ℤ → List ℕ → List (ℕ × ℤ) → List (ℕ × ℤ)
expect_each due [] expected = expected
expect_each due (r ∷ rs) expected = expect_each due rs (expect due r expected)

-- The loop: `expected` and `fullPolicies`.
abbrev pub Promises : Type 0
Promises = List (ℕ × ℤ) × List ℕ

unfoldable pub promises_from :
    (Text → Option Schedule) → Text → ℕ → List Policy → Promises → Promises
unfolding promise_of expect_each
promises_from parse account now [] known = known
promises_from parse account now (p ∷ ps) (expected, full) = elim (promise_of parse account now p) [
  | none ↦ promises_from parse account now ps (expected, full)
  | some due ↦
      promises_from parse account now ps (expect_each due p.repository_ids expected, p.id ∷ full)
]

-- The loop over the jobs: `latest`.
abbrev pub is_success : Status → Bool
is_success Status.success = true
is_success _ = false

abbrev pub is_stored : TargetStatus → Bool
is_stored TargetStatus.success = true
is_stored _ = false

abbrev pub or_zero : Option ℕ → ℕ
or_zero none = 0
or_zero (some t) = t

abbrev pub is_promised {ℓ} : {A : Type ℓ} → Option A → Bool
is_promised none = false
is_promised (some a) = true

unfoldable pub take_targets : List (ℕ × ℤ) → ℕ → List JobTarget → List (ℕ × ℕ) → List (ℕ × ℕ)
take_targets expected at [] latest = latest
take_targets expected at (t ∷ ts) latest =
    let counts =
      is_stored t.status
      && not t.incomplete
      && is_promised (lookup t.repository_id expected)
      && ltb (or_zero (lookup t.repository_id latest)) at in
    take_targets expected at ts (if counts then assign t.repository_id at latest else latest)

abbrev pub copied_at : Job → ℕ
copied_at j = elim j.finished_at [ none ↦ j.queued_at | some t ↦ t ]

abbrev pub is_complete : List ℕ → Job → Bool
is_complete full j = is_success j.status && j.complete_account && contains full j.policy_id

unfoldable pub take_jobs : Promises → List Job → List (ℕ × ℕ) → List (ℕ × ℕ)
unfolding take_targets
take_jobs (expected, full) [] latest = latest
take_jobs (expected, full) (j ∷ js) latest =
    take_jobs (expected, full) js
      (if is_complete full j then take_targets expected (copied_at j) j.targets latest else latest)

-- The last loop. `sort.Strings` sorts by the ids.
abbrev pub insert : ℕ → List ℕ → List ℕ
insert r [] = r ∷ []
insert r (x ∷ xs) = if leb r x then r ∷ x ∷ xs else x ∷ insert r xs

abbrev pub is_stale : ℕ → ℕ → ℤ → Bool
is_stale now last due = ltbℤ due (sub_time now last)

abbrev pub never_at : List (ℕ × ℕ) → ℕ × ℤ → Bool
never_at latest (r, due) = not (is_promised (lookup r latest))

abbrev pub stale_at : ℕ → List (ℕ × ℕ) → ℕ × ℤ → Bool
stale_at now latest (r, due) = elim (lookup r latest) [
  | none ↦ false
  | some last ↦ is_stale now last due
]

unfoldable pub sorted_ids : (ℕ × ℤ → Bool) → List (ℕ × ℤ) → List ℕ
sorted_ids test [] = []
sorted_ids test (e ∷ es) = if test e then insert e.0 (sorted_ids test es) else sorted_ids test es

abbrev pub refused : Detail → List ℕ → RemovalSafety
refused detail missing = record {
  enforced = false;
  allowed = false;
  detail = detail;
  missing_repository_ids = missing;
}

-- `accountRemovalSafety`.
unfoldable pub removal_decision :
    (Text → Option Schedule) → Text → ℕ → List Policy → List Job → RemovalSafety
unfolding promises_from take_jobs sorted_ids
removal_decision parse account now policies jobs =
    let (expected, full) = promises_from parse account now policies ([], []) in
    let latest = take_jobs (expected, full) jobs [] in
    let never = sorted_ids (never_at latest) expected in
    let stale = sorted_ids (stale_at now latest) expected in
    let missing = sorted_ids (λ e. never_at latest e || stale_at now latest e) expected in
    if length account == 0
    then refused Detail.no_account []
    else if length expected == 0
    then refused Detail.no_policy []
    else if ltb 0 (length never) || ltb 0 (length stale)
    then refused (Detail.not_recent never stale) missing
    else record {
      enforced = false;
      allowed = true;
      detail = Detail.recent;
      missing_repository_ids = [];
    }

-- `AccountRemovalSafeties`, for one of its accounts: the jobs of an account are those that name it.
unfoldable pub account_removal_safety : (Text → Option Schedule) → Text → ℕ → Node → RemovalSafety
unfolding removal_decision
account_removal_safety parse account now node =
    if not node.protect_account_removal
    then record {
      enforced = false;
      allowed = true;
      detail = Detail.disabled;
      missing_repository_ids = [];
    }
    else record (removal_decision parse account now node.policies
        (filter (λ (j : Job). text_eq j.account account) node.jobs)) { enforced = true }

-- For many accounts.
unfoldable pub account_removal_safeties :
    (Text → Option Schedule) → List Text → ℕ → Node → List (Text × RemovalSafety)
unfolding account_removal_safety
account_removal_safeties parse accounts now node =
    map (λ account. (account, account_removal_safety parse account now node)) accounts
