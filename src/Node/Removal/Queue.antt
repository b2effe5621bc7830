-- ===== src/Node/Removal/Queue.antt =====
-- `QueueRemovalPreparation` of internal/node/removal.go, with `RunningJobFor` and `PutJobs` of
-- internal/nodestore/queries.go.
--
-- The identities that `NewID` returns are an argument, and so is the time that `PutJobs` reads. A job that
-- was not stored yet has the id 0 and was queued at 0. The worker's mutex covers the check and the write,
-- which are one step here.
use cprestic.Common.{
  ℕ, suc, ◌+◌, Bool, false, not, ◌&&◌, ◌||◌, List, [], ◌∷◌, ◌++◌, Option, none, Text, text_eq, ◌==◌,
  if◌then◌else◌, length, filter, any, Result, ok, err,
}
use cprestic.Job.{Status, terminal}
use cprestic.Node.{Policy, Restore, Job, Node}
use cprestic.Node.Removal.Cover.{minimum_policy_cover}
use cprestic.Node.Removal.Safety.{Detail, Schedule, promise_of, is_promised, account_removal_safety}

-- `RunningJobFor`.
abbrev pub is_busy_job : Text → Job → Bool
is_busy_job account j = text_eq j.account account && not (terminal j.status)

abbrev pub is_busy_restore : Text → Restore → Bool
is_busy_restore account r = text_eq r.account account && not (terminal r.status)

unfoldable pub running_job_for : Text → Node → Bool
running_job_for account node =
    any (is_busy_job account) node.jobs || any (is_busy_restore account) node.restores

-- `PutJobs`: what it fills in, and the writes of its transaction.
abbrev pub filled : ℕ → ℕ → ℕ → Job → Job
filled new_id now i j = record j {
  id = if j.id == 0 then new_id else j.id;
  queued_at = if j.queued_at == 0 then now + i else j.queued_at;
}

unfoldable pub fill_from : (ℕ → ℕ) → ℕ → ℕ → List Job → List Job
fill_from new_id now i [] = []
fill_from new_id now i (j ∷ js) = filled (new_id i) now i j ∷ fill_from new_id now (suc i) js

abbrev pub put : Job → List Job → List Job
put j js = filter (λ (k : Job). not (k.id == j.id)) js ++ j ∷ []

unfoldable pub put_each : List Job → List Job → List Job
put_each [] stored = stored
put_each (j ∷ js) stored = put_each js (put j stored)

unfoldable pub put_jobs : (ℕ → ℕ) → ℕ → List Job → Node → Node
unfolding fill_from put_each
put_jobs new_id now js node = record node { jobs = put_each (fill_from new_id now 0 js) node.jobs }

-- `QueueRemovalPreparation`.
pub data QueueError : Type 0 where
  not_enforced already_allowed no_schedule busy : QueueError
  cannot_prepare : Detail → QueueError

abbrev pub new_job : Text → Policy → Job
new_job account policy = record {
  id = 0;
  policy_id = policy.id;
  account = account;
  complete_account = false;
  status = Status.pending;
  targets = [];
  queued_at = 0;
  finished_at = none;
}

unfoldable pub new_jobs : Text → List Policy → List Job
new_jobs account [] = []
new_jobs account (p ∷ ps) = new_job account p ∷ new_jobs account ps

abbrev pub candidates_for : (Text → Option Schedule) → Text → ℕ → Node → List Policy
candidates_for parse account now node =
    filter (λ p. is_promised (promise_of parse account now p)) node.policies

unfoldable pub queue_selected :
    (ℕ → ℕ) → ℕ → Text → List Policy → Node → Result QueueError (List Policy × Node)
unfolding running_job_for put_jobs new_jobs
queue_selected new_id clock account selected node =
    if length selected == 0
    then err QueueError.no_schedule
    else if running_job_for account node
    then err QueueError.busy
    else ok (selected, put_jobs new_id clock (new_jobs account selected) node)

unfoldable pub queue_removal_preparation :
    (Text → Option Schedule)
    → (ℕ → ℕ)
    → ℕ
    → Text
    → ℕ
    → Node
    → Result QueueError (List Policy × Node)
unfolding queue_selected
queue_removal_preparation parse new_id clock account now node =
    let decision = account_removal_safety parse account now node in
    if not decision.enforced
    then err QueueError.not_enforced
    else if decision.allowed
    then err QueueError.already_allowed
    else if length decision.missing_repository_ids == 0
    then err (QueueError.cannot_prepare decision.detail)
    else queue_selected new_id clock account
        (minimum_policy_cover decision.missing_repository_ids
          (candidates_for parse account now node))
        node
