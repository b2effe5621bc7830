-- ===== src/Controller/Answers.antt =====
-- What the service answers: restores before backups.
use cprestic.Common.{
  ℕ, ◌≡◌, refl, ap, ◌∙◌, inl, inr, Option, none, some, Result, ok, err, find, ◌==◌, ok-injective,
  err-injective, ◌≢◌, Option-cases, Result-cases,
}
use cprestic.Store.{
  Store, StoreError, Account, Repository, Destination, Secret, no_work, missing_row,
}
use cprestic.Store.Jobs.{ClaimedTarget}
use cprestic.Store.Restores.{ClaimedRestore, claim_next_restore, next_pending_restore, claim_source}
use cprestic.Controller.{
  ServiceError, store_error, build_failed, JobAssignment, RestoreAssignment, Assignment,
}
use cprestic.Controller.Calls.{
  Answer, after_claim_restore, assign_restore, next_job, next_restore, next_work, offer,
}

-- `ErrNoWork` comes from the first statement of `ClaimNextRestore` only.
abbrev HasWork : {A : Type 0} → Result StoreError A → Type 0
HasWork r = r ≢ err no_work

claim_source-HasWork : (s : Store) (repository_id : ℕ) → HasWork (claim_source s repository_id)
unfolding claim_source
claim_source-HasWork s repository_id e =
    elim (Option-cases (find (λ (r : Repository). r.id == repository_id) s.repositories)) [
      | inl n ↦ let x : err missing_row ≡ err no_work = rw n at e in cc
      | inr (r, n) ↦
          elim (Option-cases
            (find (λ (d : Destination). d.id == r.destination_id) s.destinations)) [
              | inl m ↦ let x : err missing_row ≡ err no_work = rw (n, m) at e in cc
              | inr (d, m) ↦
                  elim (Option-cases
                    (find (λ (p : Secret). p.id == r.password_secret_id) s.secrets)) [
                      | inl k ↦ let x : err missing_row ≡ err no_work = rw (n, m, k) at e in cc
                      | inr (p, k) ↦ let x : ok _ ≡ err no_work = rw (n, m, k) at e in cc
                    ]
            ]
    ]

claim_next_restore-no_work :
    (s : Store) (server_id lease token now : ℕ)
    → claim_next_restore s server_id lease token now ≡ err no_work
    → next_pending_restore s server_id ≡ none
unfolding claim_next_restore
claim_next_restore-no_work s server_id lease token now h =
    elim (Option-cases (next_pending_restore s server_id)) [
      | inl n ↦ n
      | inr (r, n) ↦ elim (Option-cases (find (λ (a : Account). a.id == r.account_id) s.accounts)) [
        | inl m ↦ absurd (let x : err missing_row ≡ err no_work = rw (n, m) at h in cc)
        | inr (a, m) ↦ elim (Result-cases (claim_source s r.repository_id)) [
          | inl (c, k) ↦ absurd (let x : ok _ ≡ err no_work = rw (n, m, k) at h in cc)
          | inr (y, k) ↦ absurd (
              let x : err y ≡ err no_work = rw (n, m, k) at h in
              claim_source-HasWork s r.repository_id (k ∙ ap err (err-injective x)))
        ]
      ]
    ]

store_error-injective : (x y : StoreError) → store_error x ≡ store_error y → x ≡ y
store_error-injective x y h = ap error_of h
  where
    error_of : ServiceError → StoreError
    error_of (store_error e) = e
    error_of e = x

module _ {Target : Type 0} (build : ClaimedTarget → Option Target) where
  built :
      (o : Option Target) (c : ClaimedRestore) (t : Store)
      → (assign_restore build o c t).0 ≢ err (store_error no_work)
  built none c t h = let x : build_failed ≡ store_error no_work = err-injective h in cc
  built (some y) c t h = cc

  after_claim_restore-no_work :
      (s : Store) (r : Result StoreError (ClaimedRestore × Store))
      → (after_claim_restore build s r).0 ≡ err (store_error no_work)
      → r ≡ err no_work
  after_claim_restore-no_work s (err x) h =
      ap err (store_error-injective x no_work (err-injective h))
  after_claim_restore-no_work s (ok (c, t)) h = absurd (built (build c.source) c t h)

  offer-backup :
      (a : Answer (RestoreAssignment Target)) (backup : Store → Answer (JobAssignment Target))
      (b : JobAssignment Target)
      → (offer build a backup).0 ≡ ok (Assignment.backup_kind b)
      → a.0 ≡ err (store_error no_work)
  offer-backup (ok x, t) backup b h =
      absurd (let e : Assignment.restore_kind x ≡ Assignment.backup_kind b = ok-injective h in cc)
  offer-backup (err (store_error no_work), t) backup b h = refl
  offer-backup (err e, t) backup b h = cc

  -- An agent is given a backup only when no restore of its server may be claimed.
  pub next_work-restores_first :
      (s : Store) (server_id lease token now : ℕ) (b : JobAssignment Target)
      → (next_work build s server_id lease token now).0 ≡ ok (Assignment.backup_kind b)
      → next_pending_restore s server_id ≡ none
  unfolding next_work next_restore
  next_work-restores_first s server_id lease token now b h =
      claim_next_restore-no_work s server_id lease token now (
        after_claim_restore-no_work s _
          (offer-backup _ (λ t. next_job build t server_id lease token now) b h))
