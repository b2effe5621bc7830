-- ===== src/Restic/Plan.antt =====
-- internal/resticrun/forget.go: `ParseForgetPlan`, which turns restic's groups into what an operator
-- reads. Times are numbers and the zero time is 0.
use cprestic.Common.{
  ℕ, ◌+◌, Bool, not, ◌&&◌, ◌||◌, List, [], ◌∷◌, none, some, Text, text, ltb, ◌==◌, if◌then◌else◌,
  length, Result, ok, err,
}
use cprestic.Restic.{
  Snapshot, Group, ForgetGroup, ForgetPlan, ForgetError, restic_said, unreadable, Stdout, blank,
  object, group_array, snapshot_array, garbled,
}
use cprestic.Restic.Words.{cut_prefix, text_lt}

-- The account named by the first tag that names one.
unfoldable pub account_of : List Text → Text
account_of [] = []
account_of (t ∷ ts) = elim (cut_prefix t (text "account:")) [
  | none ↦ account_of ts
  | some account ↦ account
]

-- One step of the loop over the removed snapshots.
abbrev pub older : ℕ → ℕ → ℕ
older oldest at = if (oldest == 0) || ltb at oldest then at else oldest

abbrev pub newer : ℕ → ℕ → ℕ
newer newest at = if ltb newest at then at else newest

unfoldable pub oldest_of : ℕ → List Snapshot → ℕ
oldest_of oldest [] = oldest
oldest_of oldest (s ∷ ss) = oldest_of (older oldest s.time) ss

unfoldable pub newest_of : ℕ → List Snapshot → ℕ
newest_of newest [] = newest
newest_of newest (s ∷ ss) = newest_of (newer newest s.time) ss

abbrev pub summarise : Group → ForgetGroup
summarise g = record {
  host = g.host;
  account = account_of g.tags;
  tags = g.tags;
  kept = length g.keep;
  removed = length g.remove;
  protected = g.protected;
  oldest = oldest_of 0 g.remove;
  newest = newest_of 0 g.remove;
}

-- The loop over the groups, which passes over an empty one.
unfoldable pub summarise_all : List Group → List ForgetGroup
summarise_all [] = []
summarise_all (g ∷ gs) =
    if (length g.remove == 0) && (length g.keep == 0)
    then summarise_all gs
    else summarise g ∷ summarise_all gs

abbrev pub total_kept : List ForgetGroup → ℕ
total_kept [] = 0
total_kept (g ∷ gs) = g.kept + total_kept gs

abbrev pub total_removed : List ForgetGroup → ℕ
total_removed [] = 0
total_removed (g ∷ gs) = g.removed + total_removed gs

-- The order that `sort.Slice` is given; its way of sorting equal groups is left open, and an insertion
-- sort stands for it.
abbrev pub loses_more : ForgetGroup → ForgetGroup → Bool
loses_more a b =
    if not (a.removed == b.removed) then ltb b.removed a.removed else text_lt a.account b.account

unfoldable pub insert_group : ForgetGroup → List ForgetGroup → List ForgetGroup
insert_group a [] = a ∷ []
insert_group a (b ∷ bs) = if loses_more b a then b ∷ insert_group a bs else a ∷ b ∷ bs

unfoldable pub sort_groups : List ForgetGroup → List ForgetGroup
unfolding insert_group
sort_groups [] = []
sort_groups (g ∷ gs) = insert_group g (sort_groups gs)

unfoldable pub plan_of : List Group → ForgetPlan
plan_of gs =
    let all = summarise_all gs in
    record { groups = sort_groups all; kept = total_kept all; removed = total_removed all }

unfoldable pub parse_forget_plan : Stdout → Result ForgetError ForgetPlan
unfolding plan_of
parse_forget_plan blank = ok (record { groups = []; kept = 0; removed = 0 })
parse_forget_plan (object message) =
    if length message == 0 then err unreadable else err (restic_said message)
parse_forget_plan (group_array gs) = ok (plan_of gs)
parse_forget_plan (snapshot_array ss) = err unreadable
parse_forget_plan garbled = err unreadable
