-- ===== src/Node/Consent.antt =====
-- `ApplyRetention` after `ApproveRetention` and after `WithdrawRetention`.
use cprestic.Common.{
  ℕ, ◌≡◌, refl, ap, ◌∙◌, inl, inr, true, false, ◌&&◌, [], none, some, arith, Option-cases, ok, err,
}
use cprestic.Node.{Retention, not_approved, Repository, Node, World}
use cprestic.Node.Keeps.{no_retention, is_set, retention_for, same_keeps, retention_approval_covers}
use cprestic.Node.Runs.{
  repository, put_repository, open_repository, approved_keeps, apply_retention, approve_retention,
  withdraw_retention,
}
use cprestic.Node.Approval.{eq_of_same_keeps, apply_retention-refused}
use cprestic.Node.Recorded.{repository-id}
use cprestic.Node.Agreement.{
  approve_retention-ApprovedPlan, repository-put_repository_hit, same_keeps_refl,
}

abbrev withdrawn : Repository → Repository
withdrawn old = record old { retention_approved_at = none; retention_approved_keeps = no_retention }

withdraw_retention-stored :
    (id : ℕ) (node after : Node)
    → withdraw_retention id node ≡ (ok tt, after)
    → (stored : Repository) × (repository after id ≡ some stored)
      × (is_set stored.retention_approved_at ≡ false)
unfolding withdraw_retention
withdraw_retention-stored id node after h = elim (Option-cases (repository node id)) [
  | inl n ↦ absurd (ground arith)
  | inr (old, found) ↦
      let e : put_repository (withdrawn old) node ≡ after = ground arith in
      let same = repository-id node id old found in
      (
        withdrawn old,
        rw (← e, ← same)
            (repository-put_repository_hit node (withdrawn old) old
              (ap (repository node) same ∙ found)),
        refl,
      )
]

not_set-refused :
    (world : World) (id : ℕ) (node : Node) (stored : Repository)
    → repository node id ≡ some stored
    → is_set stored.retention_approved_at ≡ false
    → approved_keeps world id node ≡ err not_approved
unfolding approved_keeps
not_set-refused world id node stored found f = ground arith

-- After `WithdrawRetention` succeeded, `ApplyRetention` of that repository refuses: it issues no command
-- and leaves the database as it is.
pub withdraw_retention-refuses :
    (world : World) (now id : ℕ) (node after : Node)
    → withdraw_retention id node ≡ (ok tt, after)
    → apply_retention world now id after ≡ (0, err not_approved, after, [])
withdraw_retention-refuses world now id node after h =
    let (stored, found, f) = withdraw_retention-stored id node after h in
    apply_retention-refused world now id after not_approved
      (not_set-refused world id after stored found f)

covered-keeps :
    (world : World) (id : ℕ) (node : Node) (stored : Repository) (keeps : Retention)
    → repository node id ≡ some stored
    → is_set stored.retention_approved_at ≡ true
    → stored.retention_approved_keeps ≡ keeps
    → retention_for node id ≡ ok keeps
    → world.opens id ≡ true
    → approved_keeps world id node ≡ ok keeps
unfolding approved_keeps open_repository
covered-keeps world id node stored keeps found t same current opens =
    let s : same_keeps keeps stored.retention_approved_keeps ≡ true =
      rw same (same_keeps_refl keeps) in
    ground arith

retention_for-policies :
    (node after : Node) (id : ℕ)
    → after.policies ≡ node.policies
    → retention_for after id ≡ retention_for node id
unfolding retention_for
retention_for-policies node after id e = rw e refl

-- After an approval succeeded, and if the repository can be opened, `ApplyRetention` passes its guards,
-- with the keeps that were approved.
pub approve_retention-permits :
    (world : World) (now id : ℕ) (node after : Node)
    → approve_retention now id node ≡ (ok tt, after)
    → world.opens id ≡ true
    → (keeps : Retention) × (retention_for node id ≡ ok keeps)
      × (approved_keeps world id after ≡ ok keeps)
unfolding retention_approval_covers
approve_retention-permits world now id node after h opens =
    let a = approve_retention-ApprovedPlan now id node after h in
    let c : (is_set a.stored.retention_approved_at
          && same_keeps a.stored.retention_approved_keeps a.keeps)
        ≡ true =
      a.covers a.keeps ∙ same_keeps_refl a.keeps in
    (
      a.keeps,
      a.current,
      covered-keeps world id after a.stored a.keeps a.kept (ground arith)
          (eq_of_same_keeps _ _ (ground arith))
          (retention_for-policies node after id a.policies_kept ∙ a.current) opens,
    )
