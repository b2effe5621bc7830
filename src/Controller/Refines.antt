-- ===== src/Controller/Refines.antt =====
-- The service over the queue: whatever it is asked, the queue only sees calls of its interface.
use cprestic.Common.{
  ℕ, ◌≡◌, refl, sym, ap, ◌∙◌, subst, inl, inr, true, List, Option, none, some, Text, text_eq, text,
  Result, ok, err, Bool-cases, Option-cases, some-injective,
}
use cprestic.Job.{Status}
use cprestic.Store.{Store, StoreError, no_work}
use cprestic.Store.Jobs.{ClaimedTarget, ClaimedJob, claim_next_job}
use cprestic.Store.Reports.{TargetReport, apply_report}
use cprestic.Store.Leases.{renew_backup_lease, renew_restore_lease}
use cprestic.Store.Restores.{ClaimedRestore, claim_next_restore, apply_restore_report}
use cprestic.Store.Exclusive.History.{Step, History, is_outcome}
use cprestic.Store.Transaction.{in_tx, report_statements, settled, in_tx-report_statements}
use cprestic.Controller.{
  store_error, JobAssignment, RestoreAssignment, JobReport, RestoreReport, LeaseRenewal,
}
use cprestic.Controller.Token.{valid_claim_token}
use cprestic.Controller.Calls.{
  Answer, answered, settle, settle_unit, build_targets, next_job, next_restore, next_work, offer,
  offer_backup, after_claim, after_claim_restore, assign_job, assign_restore, accepted_targets,
  record_report, report, restore_outcome_of, restore_outcome, record_restore, report_restore,
  renew_lease, reclaim_leases,
}

pub History-trans : {s t u : Store} → History s t → History t u → History s u
History-trans h History.here = h
History-trans h (History.next g step) = History.next (History-trans h g) step

pub single : {s t : Store} → Step s t → History s t
single step = History.next History.here step

module _ {Target : Type 0} (build : ClaimedTarget → Option Target) where
  assigned :
      (o : Option (List Target)) (c : ClaimedJob) (t : Store) → (assign_job build o c t).1 ≡ t
  assigned none c t = refl
  assigned (some ts) c t = refl

  assigned_restore :
      (o : Option Target) (c : ClaimedRestore) (t : Store) → (assign_restore build o c t).1 ≡ t
  assigned_restore none c t = refl
  assigned_restore (some ts) c t = refl

  after_claim-History :
      (s : Store) (sv lease token now : ℕ) (r : Result StoreError (ClaimedJob × Store))
      → claim_next_job s sv lease token now ≡ r
      → History s (after_claim build s r).1
  after_claim-History s sv lease token now (err e) h = History.here
  after_claim-History s sv lease token now (ok (c, t)) h =
      subst (History s) (sym (assigned (build_targets build c.targets) c t))
        (single (Step.claims sv lease token now c h))

  after_claim_restore-History :
      (s : Store) (sv lease token now : ℕ) (r : Result StoreError (ClaimedRestore × Store))
      → claim_next_restore s sv lease token now ≡ r
      → History s (after_claim_restore build s r).1
  after_claim_restore-History s sv lease token now (err e) h = History.here
  after_claim_restore-History s sv lease token now (ok (c, t)) h =
      subst (History s) (sym (assigned_restore (build c.source) c t))
        (single (Step.claims_restore sv lease token now c h))

  next_job-History :
      (s : Store) (sv lease token now : ℕ) → History s (next_job build s sv lease token now).1
  unfolding next_job
  next_job-History s sv lease token now = after_claim-History s sv lease token now _ refl

  offer-History :
      (s : Store) (a : Answer (RestoreAssignment Target))
      (backup : Store → Answer (JobAssignment Target))
      → History s a.1
      → ((t : Store) → History t (backup t).1)
      → History s (offer build a backup).1
  offer-History s (ok a, t) backup h g = h
  offer-History s (err (store_error no_work), t) backup h g =
      History-trans h (kept (backup t) (g t))
    where
      kept :
          (b : Answer (JobAssignment Target)) → History t b.1 → History t (offer_backup build b).1
      kept (err e, u) k = k
      kept (ok a, u) k = k
  offer-History s (err e, t) backup h g = h

  pub next_work-History :
      (s : Store) (sv lease token now : ℕ) → History s (next_work build s sv lease token now).1
  unfolding next_work next_restore
  next_work-History s sv lease token now =
      offer-History s (next_restore build s sv lease token now)
        (λ t. next_job build t sv lease token now)
        (after_claim_restore-History s sv lease token now _ refl)
        (λ t. next_job-History t sv lease token now)

module _ (uuid : Text → ℕ) where
  restore_outcome_of-is_outcome :
      (t : Text) (status : Status) → restore_outcome_of t ≡ some status → is_outcome status ≡ true
  restore_outcome_of-is_outcome t status h = elim (Bool-cases (text_eq t (text "success"))) [
    | inl y ↦ ap is_outcome (sym (some-injective Status.success status (rw y at h)))
    | inr n ↦ elim (Bool-cases (text_eq t (text "failed"))) [
      | inl y ↦ ap is_outcome (sym (some-injective Status.failed status (rw (n, y) at h)))
      | inr m ↦ absurd (let x : none ≡ some status = rw (n, m) at h in cc)
    ]
  ]

  reported-History :
      (s : Store) (sv job_id token : ℕ) (o : List TargetReport) (e : Text) (now : ℕ)
      (r : Result StoreError (Status × Store))
      → apply_report s sv job_id token o e now ≡ r
      → History s (settle s r).1
  reported-History s sv job_id token o e now (err x) h = History.here
  reported-History s sv job_id token o e now (ok (st, t)) h =
      single (Step.reports sv job_id token o e now st h)

  answered-settled :
      {A : Type 0} (s : Store) (r : Result StoreError (A × Store))
      → answered (settled s r) ≡ settle s r
  answered-settled s (err e) = refl
  answered-settled s (ok (a, t)) = refl

  answered-in_tx :
      (s : Store) (sv job_id token : ℕ) (o : List TargetReport) (e : Text) (now : ℕ)
      → answered (in_tx s (report_statements s sv job_id token o e now))
        ≡ settle s (apply_report s sv job_id token o e now)
  answered-in_tx s sv job_id token o e now =
      ap answered (in_tx-report_statements s sv job_id token o e now)
      ∙ answered-settled s (apply_report s sv job_id token o e now)

  pub report-History :
      (s : Store) (sv : ℕ) (r : JobReport) (now : ℕ) → History s (report uuid s sv r now).1
  unfolding report
  report-History s sv r now = elim (Option-cases r.job_id) [
    | inl n ↦ rw n History.here
    | inr (job_id, e) ↦ rw e (elim (Bool-cases (valid_claim_token r.claim_token)) [
      | inr f ↦ rw f History.here
      | inl v ↦ rw v (recorded job_id (accepted_targets r.targets))
    ])
  ]
    where
      recorded :
          (job_id : ℕ) (o : Option (List TargetReport))
          → History s (record_report uuid s sv job_id r now o).1
      recorded job_id none = History.here
      recorded job_id (some ts) =
          subst (λ (a : Answer Status). History s a.1)
            (sym (answered-in_tx s sv job_id (uuid r.claim_token) ts r.staging_error now))
            (reported-History s sv job_id (uuid r.claim_token) ts r.staging_error now _ refl)

  pub report_restore-History :
      (s : Store) (sv : ℕ) (r : RestoreReport) (now : ℕ)
      → History s (report_restore uuid s sv r now).1
  unfolding report_restore
  report_restore-History s sv r now = elim (Option-cases r.job_id) [
    | inl n ↦ rw n History.here
    | inr (job_id, e) ↦ rw e (elim (Bool-cases (valid_claim_token r.claim_token)) [
      | inr f ↦ rw f History.here
      | inl v ↦ rw v (recorded job_id (restore_outcome_of r.status) refl)
    ])
  ]
    where
      settled :
          (job_id : ℕ) (status : Status) (a : Result StoreError Store)
          → is_outcome status ≡ true
          → apply_restore_report s sv job_id (uuid r.claim_token) (restore_outcome r status) now ≡ a
          → History s (settle_unit s a).1
      settled job_id status (err x) g h = History.here
      settled job_id status (ok t) g h =
          single
            (Step.reports_restore sv job_id (uuid r.claim_token) (restore_outcome r status) now g h)

      recorded :
          (job_id : ℕ) (o : Option Status)
          → restore_outcome_of r.status ≡ o
          → History s (record_restore uuid s sv job_id r now o).1
      recorded job_id none h = History.here
      recorded job_id (some status) h =
          settled job_id status _ (restore_outcome_of-is_outcome r.status status h) refl

  pub renew_lease-History :
      (s : Store) (sv : ℕ) (r : LeaseRenewal) (lease now : ℕ)
      → History s (renew_lease uuid s sv r lease now).1
  unfolding renew_lease
  renew_lease-History s sv r lease now = elim (Bool-cases (valid_claim_token r.claim_token)) [
    | inr f ↦ rw f History.here
    | inl v ↦ rw v (elim (Bool-cases r.restore) [
      | inl y ↦ rw y (restores _ refl)
      | inr n ↦ rw n (backups _ refl)
    ])
  ]
    where
      restores :
          (a : Result StoreError (ℕ × Store))
          → renew_restore_lease s sv r.job_id (uuid r.claim_token) lease now ≡ a
          → History s (settle s a).1
      restores (err x) h = History.here
      restores (ok (expires, t)) h =
          single (Step.renews_restore sv r.job_id (uuid r.claim_token) lease now expires h)

      backups :
          (a : Result StoreError (ℕ × Store))
          → renew_backup_lease s sv r.job_id (uuid r.claim_token) lease now ≡ a
          → History s (settle s a).1
      backups (err x) h = History.here
      backups (ok (expires, t)) h =
          single (Step.renews sv r.job_id (uuid r.claim_token) lease now expires h)

pub reclaim_leases-History : (s : Store) (now : ℕ) → History s (reclaim_leases s now).1
unfolding reclaim_leases
reclaim_leases-History s now =
    History.next (single (Step.reclaims now refl)) (Step.reclaims_restores now refl)
