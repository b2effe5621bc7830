-- ===== src/Store/Policies.antt =====
-- internal/store/catalog.go: what the scheduler reads and writes of the policies.
use cprestic.Common.{
  ℕ, Bool, not, ◌&&◌, List, Option, none, some, ◌==◌, Result, ok, ◌>>=◌, ◌>>◌, refuse_if, or_fail,
  any, find, filter, update, sort_by,
}
use cprestic.Store.{Store, StoreError, Account, Policy, AccountPolicy, not_found}

-- `ListPolicies`: `ORDER BY name`.
unfoldable pub list_policies : Store → List Policy
list_policies s = sort_by (λ (a b : Policy). s.collation a.name b.name) s.policies

-- `AccountsForPolicy`. A pair of an account and a policy stands in `account_policies` once.
abbrev pub has_policy : Store → ℕ → Account → Bool
has_policy s policy_id a =
    any (λ (ap : AccountPolicy). ap.account_id == a.id && ap.policy_id == policy_id)
      s.account_policies

unfoldable pub accounts_for_policy : Store → ℕ → List Account
accounts_for_policy s policy_id =
    sort_by (λ (a b : Account). s.collation a.cpanel_user b.cpanel_user)
      (filter (λ (a : Account). has_policy s policy_id a && a.active) s.accounts)

-- `PolicyLastRun`: the zero time where it is null.
abbrev pub or_zero_time : Option ℕ → ℕ
or_zero_time none = 0
or_zero_time (some at) = at

unfoldable pub policy_last_run : Store → ℕ → Result StoreError ℕ
policy_last_run s policy_id = do
  p ← or_fail (find (λ (p : Policy). p.id == policy_id) s.policies) not_found
  ok (or_zero_time p.last_run_at)

-- `SetPolicyLastRun`.
unfoldable pub set_policy_last_run : Store → ℕ → ℕ → Result StoreError Store
set_policy_last_run s policy_id at =
    refuse_if (not (any (λ (p : Policy). p.id == policy_id) s.policies)) not_found
    >> ok (record s {
      policies =
          update (λ (p : Policy). p.id == policy_id) (λ p. record p { last_run_at = some at })
            s.policies;
    })
