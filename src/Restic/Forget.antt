-- ===== src/Restic/Forget.antt =====
-- internal/resticrun/forget.go, completion.go: `ForgetPlanned`, `ForgetSnapshots`, `Prune` and the
-- completion receipts.
use cprestic.Common.{
  ℕ, Bool, true, false, not, ◌&&◌, ◌||◌, List, [], ◌∷◌, ◌++◌, map, Option, none, some, Text, text,
  text_eq, ◌==◌, if◌then◌else◌, length, any, Result, ok, err, refuse_if,
}
use cprestic.Restic.{
  Snapshot, Group, ForgetPlan, ForgetSpec, ForgetError, exited, unreadable, truncated,
  no_snapshot_named, bad_snapshot_id, Stdout, blank, group_array, snapshot_array, Command,
  Responder, Run, ◌>>=◌, ◌>>◌, lift, run,
}
use cprestic.Restic.Words.{has_text, cut_prefix, valid_snapshot_id, latest}
use cprestic.Restic.Args.{forget_args}
use cprestic.Restic.Plan.{parse_forget_plan, plan_of}

-- `NeedsCompletionTag`, `CompletionReceiptTag`, `completedIDPrefix`.
abbrev pub needs_completion_tag : Text
needs_completion_tag = text "cprest:read-status-v1"

abbrev pub completion_receipt_tag : Text
completion_receipt_tag = text "cprest:completion-v1"

abbrev pub completed_id_prefix : Text
completed_id_prefix = text "completed:"

-- `classifyExit` for a command that is no backup.
abbrev pub classify_exit : ℕ → Result ForgetError (Unit {0})
classify_exit code = if code == 0 then ok tt else err (exited code)

-- The id that one tag of a receipt vouches for.
unfoldable pub vouched : Text → Option Text
vouched tag = elim (cut_prefix tag completed_id_prefix) [
  | none ↦ none
  | some id ↦ if valid_snapshot_id id && not (text_eq id latest) then some id else none
]

unfoldable pub vouched_all : List Text → List Text
unfolding vouched
vouched_all [] = []
vouched_all (t ∷ ts) = elim (vouched t) [ none ↦ vouched_all ts | some id ↦ id ∷ vouched_all ts ]

unfoldable pub completed_ids : List Snapshot → List Text
unfolding vouched_all
completed_ids [] = []
completed_ids (s ∷ ss) =
    let more = completed_ids ss in
    if has_text s.tags completion_receipt_tag then vouched_all s.tags ++ more else more

abbrev pub snapshots_of : Stdout → Result ForgetError (List Snapshot)
snapshots_of (snapshot_array ss) = ok ss
snapshots_of _ = err unreadable

-- `rawSnapshots` with the receipt tag, then `completionReceipts`.
abbrev pub receipts_command : Command
receipts_command = text "snapshots" ∷ text "--json" ∷ text "--tag" ∷ completion_receipt_tag ∷ []

unfoldable pub completion_receipts : Responder → Run (List Text)
completion_receipts respond = do
  result ← run respond receipts_command
  lift (classify_exit result.exit_code)
  lift (refuse_if result.truncated truncated)
  snapshots ← lift (snapshots_of result.stdout)
  lift (ok (completed_ids snapshots))

-- The loop of `ForgetSnapshots`.
unfoldable pub check_ids : List Text → Result ForgetError (Unit {0})
check_ids [] = ok tt
check_ids (id ∷ ids) =
    if not (valid_snapshot_id id) || text_eq id latest
    then err (bad_snapshot_id id)
    else check_ids ids

unfoldable pub forget_snapshots : Responder → List Text → Run (Unit {0})
forget_snapshots respond ids = do
  lift (refuse_if (length ids == 0) no_snapshot_named)
  lift (check_ids ids)
  result ← run respond (text "forget" ∷ ids)
  lift (classify_exit result.exit_code)

abbrev pub prune_command : Command
prune_command = text "prune" ∷ []

unfoldable pub prune : Responder → Run (Unit {0})
prune respond = do result ← run respond prune_command; lift (classify_exit result.exit_code)

-- `append(append(nil, group.Keep...), group.Remove...)`.
abbrev pub all_snapshots : Group → List Snapshot
all_snapshots g = g.keep ++ g.remove

abbrev pub needs_receipts : List Group → Bool
needs_receipts groups =
    any
      (λ (g : Group).
        any (λ (s : Snapshot). has_text s.tags needs_completion_tag) (all_snapshots g))
      groups

-- The condition that protects a snapshot's group.
abbrev pub unverified : List Text → List Text → Snapshot → Bool
unverified protected completed s =
    has_text protected s.id
    || (has_text s.tags needs_completion_tag && not (has_text completed s.id))

-- One group of the second loop, when it holds no receipts.
unfoldable pub protect : List Text → List Text → Group → Group
protect protected completed g =
    let g' =
      if any (unverified protected completed) (all_snapshots g)
      then record g { protected = true }
      else g in
    if g'.protected then record g' { keep = g'.keep ++ g'.remove; remove = [] } else g'

unfoldable pub safe_groups : List Text → List Text → List Group → List Group
unfolding protect
safe_groups protected completed [] = []
safe_groups protected completed (g ∷ gs) =
    if has_text g.tags completion_receipt_tag
    then safe_groups protected completed gs
    else protect protected completed g ∷ safe_groups protected completed gs

unfoldable pub removals : List Group → List Text
removals [] = []
removals (g ∷ gs) = map (λ (s : Snapshot). s.id) g.remove ++ removals gs

abbrev pub groups_of : Stdout → Result ForgetError (List Group)
groups_of (group_array gs) = ok gs
groups_of _ = err unreadable

abbrev pub is_blank : Stdout → Bool
is_blank blank = true
is_blank _ = false

-- The deletion at the end; an error of the prune keeps the plan in Go, and the caller returns it.
unfoldable pub delete_removals : Responder → ForgetSpec → List Text → Run (Unit {0})
unfolding forget_snapshots prune
delete_removals respond spec ids =
    if not spec.dry_run && not (length ids == 0)
    then (forget_snapshots respond ids >> (if spec.prune then prune respond else lift (ok tt)))
    else lift (ok tt)

-- What follows the preview: receipts where a snapshot needs one, the safe groups, the deletion.
unfoldable pub apply_preview : Responder → ForgetSpec → List Group → Run ForgetPlan
unfolding completion_receipts safe_groups removals delete_removals plan_of
apply_preview respond spec groups = do
  completed ← (if needs_receipts groups then completion_receipts respond else lift (ok []))
  let safe = safe_groups spec.protected_snapshot_ids completed groups
  delete_removals respond spec (removals safe)
  lift (ok (plan_of safe))

unfoldable pub preview : ForgetSpec → ForgetSpec
preview spec = record spec { dry_run = true; prune = false }

-- `ForgetPlanned`.
unfoldable pub forget_planned : Responder → ForgetSpec → Run ForgetPlan
unfolding preview parse_forget_plan apply_preview
forget_planned respond spec = do
  checked ← lift (forget_args spec)
  args ← lift (forget_args (preview spec))
  result ← run respond args
  lift (classify_exit result.exit_code)
  lift (refuse_if result.truncated truncated)
  plan ← lift (parse_forget_plan result.stdout)
  (if is_blank result.stdout
      then lift (ok plan)
      else (lift (groups_of result.stdout) >>= λ groups. apply_preview respond spec groups))
