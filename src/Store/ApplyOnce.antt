-- ===== src/Store/ApplyOnce.antt =====
-- Restores that write into the live account (CreateRestore, ClaimNextRestore, the reclaim of leases).
use cprestic.Common.{
  ℕ, ◌+◌, ◌≤◌, ◌≡◌, refl, subst, inl, inr, Bool, true, List, [], ◌∷◌, ◌++◌, ◌==◌, arith, update, In,
  In-append, In-update_cases, unique_row, Bool-cases, if◌then◌else◌, ==_refl,
}
use cprestic.Store.{Store, RestoreJob, is_pending}
use cprestic.Store.Leases.{restore_held_by, renew_restore}
use cprestic.Store.Reports.{reclaim_expired_leases}
use cprestic.Store.Restores.{
  RestoreOutcome, new_restore, lease_restore, close_restore, requeued, requeue_restore, stopped,
  stop_restore, reclaim_expired_restore_leases,
}
use cprestic.Store.Effects.{
  set_policy_last_run-inv, create_job-inv, claim_next_job-inv, apply_report-inv,
  renew_backup_lease-inv, create_restore-inv, claim_next_restore-inv, renew_restore_lease-inv,
  apply_restore_report-inv,
}
use cprestic.Store.Exclusive.{IsExclusive}
use cprestic.Store.Exclusive.Restores.{next_pending_restore-claimable}
use cprestic.Store.Exclusive.History.{
  Step, creates, claims, renews, reports, reclaims, creates_restore, claims_restore, renews_restore,
  reports_restore, reclaims_restores, schedules, History, here, next, is_outcome,
  History-IsExclusive,
}

-- Of one row: a restore that applies has been leased at most once, and not while it is queued.
abbrev pub LeasedOnce : RestoreJob → Type 0
LeasedOnce r = r.apply ≡ true → (r.attempt ≤ 1) × (is_pending r.status ≡ true → r.attempt ≡ 0)

abbrev pub AppliesOnce : List RestoreJob → Type 0
AppliesOnce rs = (r : RestoreJob) → In r rs → LeasedOnce r

-- An update keeps the invariant if the row function does, on the rows that it reaches.
update-AppliesOnce :
    (q : RestoreJob → Bool) (f : RestoreJob → RestoreJob) (rs : List RestoreJob)
    → ((a : RestoreJob) → In a rs → q a ≡ true → LeasedOnce a → LeasedOnce (f a))
    → AppliesOnce rs
    → AppliesOnce (update q f rs)
update-AppliesOnce q f rs keep v b m =
    let (a, n, e) = In-update_cases q f b rs m in subst LeasedOnce e (chosen a n)
  where
    chosen : (a : RestoreJob) → In a rs → LeasedOnce (if q a then f a else a)
    chosen a n = elim (Bool-cases (q a)) [
      | inl t ↦ rw t (keep a n t (v a n))
      | inr t ↦ rw t (v a n)
    ]

append-AppliesOnce :
    (rs : List RestoreJob) (r : RestoreJob)
    → LeasedOnce r
    → AppliesOnce rs
    → AppliesOnce (rs ++ r ∷ [])
append-AppliesOnce rs r once v b m = elim (In-append b rs (r ∷ []) m) [
  | inl n ↦ v b n
  | inr (inl e) ↦ subst LeasedOnce e once
  | inr (inr n) ↦ absurd n
]

close-LeasedOnce :
    (o : RestoreOutcome) (now : ℕ) (a : RestoreJob)
    → is_outcome o.status ≡ true
    → LeasedOnce a
    → LeasedOnce (close_restore o now a)
close-LeasedOnce o now a f v w = ((v w).0, λ p. ground (arith, f, p))

claimed-LeasedOnce :
    (s : Store) (server_id lease token now : ℕ) (r a : RestoreJob)
    → IsExclusive s
    → In r s.restore_jobs
    → is_pending r.status ≡ true
    → In a s.restore_jobs
    → (a.id == r.id) ≡ true
    → LeasedOnce a
    → LeasedOnce (lease_restore now lease token a)
claimed-LeasedOnce s server_id lease token now r a x m p n key v w =
    let e : r ≡ a =
      unique_row (λ (i : RestoreJob). i.id == r.id) r a s.restore_jobs (x.restore_ids r.id) m n
        (==_refl r.id) key in
    let q : is_pending a.status ≡ true =
      subst (λ (i : RestoreJob). is_pending i.status ≡ true) e p in
    let (_, fresh) = v w in (omega (arith, fresh q), λ h. cc)

Step-AppliesOnce :
    {s t : Store}
    → Step s t
    → IsExclusive s
    → AppliesOnce s.restore_jobs
    → AppliesOnce t.restore_jobs
unfolding reclaim_expired_leases reclaim_expired_restore_leases
Step-AppliesOnce {s} {t} (creates a p x n i f h) u v =
    let (_, _, _, e) = create_job-inv s t a p x n i h in rw e v
Step-AppliesOnce {s} {t} (claims sv l k n c h) u v =
    let (_, _, _, _, _, e, _, _, _, _) = claim_next_job-inv s t sv l k n c h in rw e v
Step-AppliesOnce {s} {t} (renews sv x k l n y h) u v =
    let (_, _, e) = renew_backup_lease-inv s t sv x k l n y h in rw e v
Step-AppliesOnce {s} {t} (reports sv x k os er n st h) u v =
    let (_, _, _, _, e) = apply_report-inv s t sv x k os er n st h in rw e v
Step-AppliesOnce {s} {t} (reclaims n e) u v = rw e v
Step-AppliesOnce {s} {t} (creates_restore q x n i f h) u v =
    let (repo, _, _, e) = create_restore-inv s t q x n i h in
    rw e
      (append-AppliesOnce s.restore_jobs (new_restore q repo x n) (λ w. (omega arith, λ p. refl)) v)
Step-AppliesOnce {s} {t} (claims_restore sv l k n c h) u v =
    let (r, picked, e, _, _) = claim_next_restore-inv s t sv l k n c h in
    let (m, fits) = next_pending_restore-claimable s sv r picked in
    let p : is_pending r.status ≡ true = ground arith in
    rw e (
      update-AppliesOnce (λ (o : RestoreJob). o.id == r.id) (lease_restore n l k) s.restore_jobs
        (λ a i key once. claimed-LeasedOnce s sv l k n r a u m p i key once) v)
Step-AppliesOnce {s} {t} (renews_restore sv x k l n y h) u v =
    let (_, _, e) = renew_restore_lease-inv s t sv x k l n y h in
    rw e (
      update-AppliesOnce (restore_held_by s sv x k) (renew_restore (n + l)) s.restore_jobs
        (λ a i q once. once) v)
Step-AppliesOnce {s} {t} (reports_restore sv x k out n f h) u v =
    let (_, e) = apply_restore_report-inv s t sv x k out n h in
    rw e (
      update-AppliesOnce (restore_held_by s sv x k) (close_restore out n) s.restore_jobs
        (λ a i q once. close-LeasedOnce out n a f once) v)
Step-AppliesOnce {s} {t} (reclaims_restores n e) u v = rw e (
    update-AppliesOnce (stopped n) (stop_restore n)
      (update (requeued n) requeue_restore s.restore_jobs) (λ a i q once w. ((once w).0, λ p. cc))
      (update-AppliesOnce (requeued n) requeue_restore s.restore_jobs
        (λ a i q once w. absurd (ground arith)) v))
Step-AppliesOnce {s} {t} (schedules p at h) u v =
    let (_, _, _, r) = set_policy_last_run-inv s t p at h in rw r v

-- If the queue is exclusive, and each restore that writes into the live account was handed to an agent
-- at most once and is not pending after that, then the latter still holds whatever calls follow and
-- however often a lease runs out.
pub History-AppliesOnce :
    {s t : Store}
    → History s t
    → IsExclusive s
    → AppliesOnce s.restore_jobs
    → AppliesOnce t.restore_jobs
History-AppliesOnce here u v = v
History-AppliesOnce (next r st) u v =
    Step-AppliesOnce st (History-IsExclusive r u) (History-AppliesOnce r u v)
