-- ===== src/Store/Exclusive/Restores.antt =====
-- The restore table under each operation of restores.go and leases.go.
use cprestic.Common.{
  ℕ, ◌+◌, ◌≡◌, refl, true, false, [], ◌∷◌, ◌==◌, arith, any, update, In, In-filter, count_of_any,
  count-append, count-update_eq, count-update_le, first_by-In, some, ok,
}
use cprestic.Store.{Store, RestoreJob, is_running}
use cprestic.Store.Leases.{renew_restore_lease, restore_held_by, renew_restore}
use cprestic.Store.Restores.{
  ClaimedRestore, RestoreRequest, RestoreOutcome, create_restore, new_restore, claim_next_restore,
  next_pending_restore, restore_claimable, restores_for, lease_restore, apply_restore_report,
  close_restore, reclaim_expired_restore_leases, requeued, requeue_restore, stopped, stop_restore,
}
use cprestic.Store.Effects.{
  create_restore-inv, claim_next_restore-inv, apply_restore_report-inv, renew_restore_lease-inv,
}
use cprestic.Store.Exclusive.{IsExclusive}
use cprestic.Store.Exclusive.Rows.{claim-count}

pub next_pending_restore-claimable :
    (s : Store) (server_id : ℕ) (r : RestoreJob)
    → next_pending_restore s server_id ≡ some r
    → In r s.restore_jobs × (restore_claimable s server_id r ≡ true)
unfolding next_pending_restore
next_pending_restore-claimable s server_id r h =
    In-filter (restore_claimable s server_id) r s.restore_jobs
      (first_by-In (λ (o : RestoreJob). o.created_at) r _ h)

pub create_restore-IsExclusive :
    (s t : Store) (req : RestoreRequest) (job_id now i : ℕ)
    → any (λ (r : RestoreJob). r.id == job_id) s.restore_jobs ≡ false
    → create_restore s req job_id now ≡ ok (i, t)
    → IsExclusive s
    → IsExclusive t
create_restore-IsExclusive s t req job_id now i fresh h v =
    let (repo, _, _, e) = create_restore-inv s t req job_id now i h in
    rw e (record {
      job_ids = v.job_ids;
      one_backup = v.one_backup;
      restore_ids = λ x. ground (
        arith,
        v.restore_ids x,
        count-append (λ (r : RestoreJob). r.id == x) s.restore_jobs
            (new_restore req repo job_id now ∷ []),
        count_of_any (λ (r : RestoreJob). r.id == job_id) s.restore_jobs fresh,
      );
      one_restore = λ a. ground (
        arith,
        v.one_restore a,
        count-append (restores_for a) s.restore_jobs (new_restore req repo job_id now ∷ []),
      );
    })

pub claim_next_restore-IsExclusive :
    (s t : Store) (server_id lease token now : ℕ) (c : ClaimedRestore)
    → claim_next_restore s server_id lease token now ≡ ok (c, t)
    → IsExclusive s
    → IsExclusive t
claim_next_restore-IsExclusive s t server_id lease token now c h v =
    let (r, picked, e, _, _) = claim_next_restore-inv s t server_id lease token now c h in
    let (m, ok_row) = next_pending_restore-claimable s server_id r picked in
    rw e (record {
      job_ids = v.job_ids;
      one_backup = v.one_backup;
      restore_ids = λ x.
          rw
            (count-update_eq (λ (o : RestoreJob). o.id == x) (λ (o : RestoreJob). o.id == r.id)
              (lease_restore now lease token) (λ o. refl) s.restore_jobs)
            (v.restore_ids x);
      one_restore = λ a.
          claim-count (λ (o : RestoreJob). o.id) (λ o. o.account_id) (λ o. is_running o.status)
            (lease_restore now lease token) (λ o. refl) s.restore_jobs r a m (v.restore_ids r.id)
            (count_of_any (restores_for r.account_id) s.restore_jobs (ground arith))
            (v.one_restore a);
    })

pub renew_restore_lease-IsExclusive :
    (s t : Store) (server_id job_id token lease now expires : ℕ)
    → renew_restore_lease s server_id job_id token lease now ≡ ok (expires, t)
    → IsExclusive s
    → IsExclusive t
renew_restore_lease-IsExclusive s t server_id job_id token lease now expires h v =
    let (_, _, e) = renew_restore_lease-inv s t server_id job_id token lease now expires h in
    rw e (record {
      job_ids = v.job_ids;
      one_backup = v.one_backup;
      restore_ids = λ x.
          rw
            (count-update_eq (λ (r : RestoreJob). r.id == x)
              (restore_held_by s server_id job_id token) (renew_restore (now + lease)) (λ r. refl)
              s.restore_jobs)
            (v.restore_ids x);
      one_restore = λ a.
          rw
            (count-update_eq (restores_for a) (restore_held_by s server_id job_id token)
              (renew_restore (now + lease)) (λ r. refl) s.restore_jobs)
            (v.one_restore a);
    })

pub apply_restore_report-IsExclusive :
    (s t : Store) (server_id job_id token : ℕ) (outcome : RestoreOutcome) (now : ℕ)
    → apply_restore_report s server_id job_id token outcome now ≡ ok t
    → IsExclusive s
    → IsExclusive t
apply_restore_report-IsExclusive s t server_id job_id token outcome now h v =
    let (_, e) = apply_restore_report-inv s t server_id job_id token outcome now h in
    rw e (record {
      job_ids = v.job_ids;
      one_backup = v.one_backup;
      restore_ids = λ x.
          rw
            (count-update_eq (λ (r : RestoreJob). r.id == x)
              (restore_held_by s server_id job_id token) (close_restore outcome now) (λ r. refl)
              s.restore_jobs)
            (v.restore_ids x);
      one_restore = λ a. omega (
        arith,
        v.one_restore a,
        count-update_le (restores_for a) (restore_held_by s server_id job_id token)
            (close_restore outcome now) (λ r q p. ground arith) s.restore_jobs,
      );
    })

pub reclaim_expired_restore_leases-IsExclusive :
    (s : Store) (now : ℕ) → IsExclusive s → IsExclusive (reclaim_expired_restore_leases s now).1
unfolding reclaim_expired_restore_leases
reclaim_expired_restore_leases-IsExclusive s now v =
    let first = update (requeued now) requeue_restore s.restore_jobs in
    record {
      job_ids = v.job_ids;
      one_backup = v.one_backup;
      restore_ids = λ x.
          rw
            (
              count-update_eq (λ (r : RestoreJob). r.id == x) (stopped now) (stop_restore now)
                  (λ r. refl) first,
              count-update_eq (λ (r : RestoreJob). r.id == x) (requeued now) requeue_restore
                  (λ r. refl) s.restore_jobs,
            )
            (v.restore_ids x);
      one_restore = λ a. omega (
        arith,
        v.one_restore a,
        count-update_le (restores_for a) (stopped now) (stop_restore now) (λ r q p. ground arith)
            first,
        count-update_le (restores_for a) (requeued now) requeue_restore (λ r q p. ground arith)
            s.restore_jobs,
      );
    }
