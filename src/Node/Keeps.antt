-- ===== src/Node/Keeps.antt =====
-- internal/node/retention.go: the merged keep policy and the tests on it.
use cprestic.Common.{
  ℕ, Bool, true, false, not, ◌&&◌, List, [], ◌∷◌, ◌++◌, map, Option, none, some, Text, pos, maxℤ,
  eqℤ, ◌==◌, if◌then◌else◌, any, length, Result, ok, err,
}
use cprestic.Restic.{ForgetSpec, ForgetGroup, ForgetPlan}
use cprestic.Node.{
  Retention, Policy, RetentionGroup, RetentionError, nothing_says_keep, Repository, Job, JobTarget,
  Node,
}

-- `nodestore.Retention{}`.
abbrev pub no_retention : Retention
no_retention = record {
  keep_last = pos 0;
  keep_daily = pos 0;
  keep_weekly = pos 0;
  keep_monthly = pos 0;
  keep_yearly = pos 0;
}

abbrev pub writes_here : ℕ → Policy → Bool
writes_here repository policy = any (λ id. id == repository) policy.repository_ids

-- The end of the loop's body: one policy's keeps, taken in.
unfoldable pub take_in : Retention → Retention → Retention
take_in merged r = record {
  keep_last = maxℤ merged.keep_last r.keep_last;
  keep_daily = maxℤ merged.keep_daily r.keep_daily;
  keep_weekly = maxℤ merged.keep_weekly r.keep_weekly;
  keep_monthly = maxℤ merged.keep_monthly r.keep_monthly;
  keep_yearly = maxℤ merged.keep_yearly r.keep_yearly;
}

-- The loop of `MergedRetention`, from what the policies before have merged.
unfoldable pub merge_from : Retention → List Policy → ℕ → Retention
unfolding take_in
merge_from merged [] repository = merged
merge_from merged (p ∷ ps) repository =
    let skipped = merge_from merged ps repository in
    let taken = merge_from (take_in merged p.retention) ps repository in
    if not p.enabled then skipped else if not (writes_here repository p) then skipped else taken

unfoldable pub merged_retention : List Policy → ℕ → Retention
unfolding merge_from
merged_retention policies repository = merge_from no_retention policies repository

unfoldable pub empty_retention : Retention → Bool
empty_retention r =
    eqℤ r.keep_last (pos 0)
    && (eqℤ r.keep_daily (pos 0)
        && (eqℤ r.keep_weekly (pos 0) && (eqℤ r.keep_monthly (pos 0) && eqℤ r.keep_yearly (pos 0))))

-- Go's `==` on the struct.
unfoldable pub same_keeps : Retention → Retention → Bool
same_keeps r s =
    eqℤ r.keep_last s.keep_last
    && (eqℤ r.keep_daily s.keep_daily
        && (eqℤ r.keep_weekly s.keep_weekly
            && (eqℤ r.keep_monthly s.keep_monthly && eqℤ r.keep_yearly s.keep_yearly)))

unfoldable pub forget_spec : Retention → Bool → Bool → ForgetSpec
forget_spec keeps dry_run prune = record {
  protected_snapshot_ids = [];
  keep_last = keeps.keep_last;
  keep_daily = keeps.keep_daily;
  keep_weekly = keeps.keep_weekly;
  keep_monthly = keeps.keep_monthly;
  keep_yearly = keeps.keep_yearly;
  tags = [];
  group_by = [];
  prune = prune;
  dry_run = dry_run;
}

-- `retentionFor`.
unfoldable pub retention_for : Node → ℕ → Result RetentionError Retention
unfolding merged_retention empty_retention
retention_for node repository =
    let keeps = merged_retention node.policies repository in
    if empty_retention keeps then err nothing_says_keep else ok keeps

-- `PlanApprovable` and `RetentionApprovalCovers`.
abbrev pub is_set : Option ℕ → Bool
is_set none = false
is_set (some t) = true

unfoldable pub plan_approvable : Repository → Retention → Bool
unfolding same_keeps
plan_approvable repo keeps =
    is_set repo.retention.planned_at && same_keeps repo.retention.planned_keeps keeps

unfoldable pub retention_approval_covers : Repository → Retention → Bool
unfolding same_keeps
retention_approval_covers repo keeps =
    is_set repo.retention_approved_at && same_keeps repo.retention_approved_keeps keeps

-- `incompleteSnapshots`: the keys of the map.
unfoldable pub incomplete_targets : List JobTarget → ℕ → List Text
incomplete_targets [] repository = []
incomplete_targets (t ∷ ts) repository =
    let more = incomplete_targets ts repository in
    if (t.repository_id == repository) && (t.incomplete && not (length t.snapshot_id == 0))
    then t.snapshot_id ∷ more
    else more

unfoldable pub incomplete_snapshots : List Job → ℕ → List Text
unfolding incomplete_targets
incomplete_snapshots [] repository = []
incomplete_snapshots (j ∷ js) repository =
    incomplete_targets j.targets repository ++ incomplete_snapshots js repository

-- `planGroups`; the zero time becomes nil.
abbrev pub time_or_nil : ℕ → Option ℕ
time_or_nil t = if t == 0 then none else some t

unfoldable pub plan_groups : ForgetPlan → List RetentionGroup
plan_groups plan =
    map
      (λ (g : ForgetGroup). record {
        protected = g.protected;
        account = g.account;
        host = g.host;
        keep = g.kept;
        drop = g.removed;
        oldest = time_or_nil g.oldest;
        newest = time_or_nil g.newest;
      })
      plan.groups
