-- ===== src/Controller/Fired.antt =====
-- What a pass of the scheduler leaves: an open job for every active account of a policy that fired.
use cprestic.Common.{
  ℕ, ◌≡◌, refl, sym, ap, ◌∙◌, subst, inl, inr, Bool, true, false, not, ◌&&◌, List, [], ◌∷◌, Option,
  none, some, Text, ltb, ◌==◌, ==_refl, arith, length, filter, update, any, any-append, any_of_In,
  In, In-filter, In-sort_by, Result, ok, err, ok-injective, Bool-cases,
}
use cprestic.Store.{
  Store, StoreError, BackupJob, Account, Policy, PolicyRepository, is_open, not_found, no_work,
}
use cprestic.Store.Jobs.{create_job, new_job}
use cprestic.Store.Effects.{create_job-inv}
use cprestic.Store.Policies.{accounts_for_policy, has_policy, policy_last_run, set_policy_last_run}
use cprestic.Controller.Schedule.{
  Fired, counted, queue_each, fire, run_due, run_parsed, start_from, run_policy,
}

-- The tables after some jobs were created.
abbrev Grows : Store → Store → Type 0
Grows s t =
    (t.accounts ≡ s.accounts)
    × (t.policies ≡ s.policies)
    × (t.policy_repositories ≡ s.policy_repositories)
    × ((q : BackupJob → Bool) → any q s.backup_jobs ≡ true → any q t.backup_jobs ≡ true)

Grows-none : (s : Store) → Grows s s
Grows-none s = (refl, refl, refl, λ q h. h)

Grows-both : (s t u : Store) → Grows s t → Grows t u → Grows s u
Grows-both s t u (a, b, c, f) (d, e, g, h) = (d ∙ a, e ∙ b, g ∙ c, λ q m. h q (f q m))

-- A job of the account and the policy that is pending or running.
abbrev pub is_open_for : ℕ → ℕ → BackupJob → Bool
is_open_for account_id policy_id j =
    j.account_id == account_id && j.policy_id == policy_id && is_open j.status

-- What `CreateJob` needs of the tables.
abbrev Able : Store → ℕ → ℕ → Type 0
Able s account_id policy_id =
    (any (λ (a : Account). a.id == account_id) s.accounts ≡ true)
    × (any (λ (p : Policy). p.id == policy_id) s.policies ≡ true)
    × ((length (filter (λ (pr : PolicyRepository). pr.policy_id == policy_id) s.policy_repositories)
          == 0)
        ≡ false)

create_job-Grows :
    (s t : Store) (a p id now i : ℕ)
    → create_job s a p id now ≡ ok (i, t)
    → Grows s t × (any (is_open_for a p) t.backup_jobs ≡ true)
create_job-Grows s t a p id now i h =
    let (_, _, _, e) = create_job-inv s t a p id now i h in
    rw e (
      (
        refl,
        refl,
        refl,
        λ q m. ground (arith, any-append q s.backup_jobs (new_job id a p now ∷ []), m),
      ),
      ground (
        arith,
        any-append (is_open_for a p) s.backup_jobs (new_job id a p now ∷ []),
        ==_refl a,
        ==_refl p,
      ),
    )

-- `CreateJob` for an account that has no open job of the policy succeeds.
create_job-open :
    (s : Store) (a p id now : ℕ) (x : StoreError)
    → Able s a p
    → create_job s a p id now ≡ err x
    → any (is_open_for a p) s.backup_jobs ≡ true
unfolding create_job
create_job-open s a p id now x (f, g, h) e =
    elim (Bool-cases (any (is_open_for a p) s.backup_jobs)) [
      | inl t ↦ t
      | inr n ↦ absurd (let y : ok _ ≡ err x = rw (n, f, g, h) at e in cc)
    ]

-- A policy that writes somewhere.
abbrev pub has_repository : Store → ℕ → Bool
has_repository s p =
    not (length (filter (λ (pr : PolicyRepository). pr.policy_id == p) s.policy_repositories) == 0)

module _ (parse : Text → Option (ℕ → ℕ)) (new_id : Store → ℕ) where
  counted-Grows :
      (s : Store) (a p now : ℕ) (n : Fired) (r : Result StoreError (ℕ × Store))
      → create_job s a p (new_id s) now ≡ r
      → Able s a p
      → Grows s (counted parse new_id s n r).1
        × (any (is_open_for a p) (counted parse new_id s n r).1.backup_jobs ≡ true)
  counted-Grows s a p now n (ok (id, t)) h v = create_job-Grows s t a p (new_id s) now id h
  counted-Grows s a p now n (err no_work) h v =
      (Grows-none s, create_job-open s a p (new_id s) now no_work v h)
  counted-Grows s a p now n (err e) h v = (Grows-none s, create_job-open s a p (new_id s) now e v h)

  Able-Grows : (s t : Store) (a p : ℕ) → Grows s t → Able s a p → Able t a p
  Able-Grows s t a p (x, y, z, f) (g, h, k) = (
    ap (any (λ (v : Account). v.id == a)) x ∙ g,
    ap (any (λ (v : Policy). v.id == p)) y ∙ h,
    ap (λ v. length (filter (λ (pr : PolicyRepository). pr.policy_id == p) v) == 0) z ∙ k,
  )

  queue_each-open :
      (p now : ℕ) (accounts : List Account) (n : Fired) (s : Store)
      → ((a : Account) → In a accounts → Able s a.id p)
      → Grows s (queue_each parse new_id p now accounts n s).1
        × ((a : Account)
            → In a accounts
            → any (is_open_for a.id p) (queue_each parse new_id p now accounts n s).1.backup_jobs
              ≡ true)
  unfolding queue_each
  queue_each-open p now [] n s v = (Grows-none s, λ a m. absurd m)
  queue_each-open p now (b ∷ rest) n s v =
      let (g, o) =
        counted-Grows s b.id p now n (create_job s b.id p (new_id s) now) refl (v b (inl refl)) in
      let m = (counted parse new_id s n (create_job s b.id p (new_id s) now)).0 in
      let t = (counted parse new_id s n (create_job s b.id p (new_id s) now)).1 in
      let (k, w) = queue_each-open p now rest m t (λ a i. Able-Grows s t a.id p g (v a (inr i))) in
      let u = (queue_each parse new_id p now rest m t).1 in
      (Grows-both s t u g k, λ a i. each t a (k.3 (is_open_for a.id p)) (w a) o i)
    where
      each :
          (t : Store) (a : Account)
          → (any (is_open_for a.id p) t.backup_jobs ≡ true
              → any
                  (is_open_for a.id p)
                  (queue_each parse new_id p now (b ∷ rest) n s).1.backup_jobs
                ≡ true)
          → (In a rest
              → any
                  (is_open_for a.id p)
                  (queue_each parse new_id p now (b ∷ rest) n s).1.backup_jobs
                ≡ true)
          → any (is_open_for b.id p) t.backup_jobs ≡ true
          → In a (b ∷ rest)
          → any (is_open_for a.id p) (queue_each parse new_id p now (b ∷ rest) n s).1.backup_jobs
            ≡ true
      each t a kept later o (inl e) =
          kept (ap (λ (v : Account). any (is_open_for v.id p) t.backup_jobs) (sym e) ∙ o)
      each t a kept later o (inr i) = later i

  any-update_policy :
      (p now : ℕ) (ps : List Policy)
      → any
          (λ (v : Policy). v.id == p)
          (update (λ (v : Policy). v.id == p) (λ v. record v { last_run_at = some now }) ps)
        ≡ any (λ (v : Policy). v.id == p) ps
  any-update_policy p now [] = refl
  any-update_policy p now (v ∷ ps) = ground (arith, any-update_policy p now ps)

  -- What `SetPolicyLastRun` leaves to `CreateJob`.
  fire-Able :
      (s t : Store) (p now : ℕ) (a : Account)
      → set_policy_last_run s p now ≡ ok t
      → has_repository s p ≡ true
      → In a (accounts_for_policy s p)
      → Able t a.id p
  unfolding set_policy_last_run accounts_for_policy
  fire-Able s t p now a h r m = elim (Bool-cases (any (λ (v : Policy). v.id == p) s.policies)) [
    | inr n ↦ absurd (let x : err not_found ≡ ok t = rw n at h in cc)
    | inl y ↦
        let e = ok-injective (rw y at h) in
        let (i, f) =
          In-filter (λ (v : Account). has_policy s p v && v.active) a s.accounts
            (In-sort_by _ a _ m) in
        subst (λ v. Able v a.id p) e
          (
            any_of_In (λ (v : Account). v.id == a.id) a s.accounts i (==_refl a.id),
            any-update_policy p now s.policies ∙ y,
            ground (arith, r),
          )
  ]

  abbrev AllOpen : Store → Store → ℕ → Type 0
  AllOpen s t p =
      (a : Account) → In a (accounts_for_policy s p) → any (is_open_for a.id p) t.backup_jobs ≡ true

  fire-AllOpen :
      (s t : Store) (p : Policy) (now : ℕ) (n : Fired) (r : Result StoreError Store)
      → set_policy_last_run s p.id now ≡ r
      → has_repository s p.id ≡ true
      → fire parse new_id s p now (accounts_for_policy s p.id) r ≡ (ok (some n), t)
      → AllOpen s t p.id
  fire-AllOpen s t p now n (err e) h r x =
      absurd (let y : err _ ≡ ok (some n) = ap (λ v. v.0) x in cc)
  fire-AllOpen s t p now n (ok u) h r x =
      let (g, w) =
        queue_each-open p.id now (accounts_for_policy s p.id) (record { queued = 0; skipped = 0 }) u
          (λ a m. fire-Able s u p.id now a h r m) in
      subst (λ v. AllOpen s v p.id) (ap (λ v. v.1) x) w

  run_due-AllOpen :
      (s t : Store) (p : Policy) (now : ℕ) (n : Fired) (next : ℕ → ℕ) (r : Result StoreError ℕ)
      → has_repository s p.id ≡ true
      → run_due parse new_id s p now next r ≡ (ok (some n), t)
      → AllOpen s t p.id
  run_due-AllOpen s t p now n next (err e) r x =
      absurd (let y : err _ ≡ ok (some n) = ap (λ v. v.0) x in cc)
  run_due-AllOpen s t p now n next (ok last_run) r x =
      elim (Bool-cases (ltb now (next (start_from now last_run)))) [
        | inl y ↦ absurd (let z : none ≡ some n = ok-injective (ap (λ v. v.0) (rw y at x)) in cc)
        | inr f ↦ fire-AllOpen s t p now n _ refl r (rw f at x)
      ]

  run_parsed-AllOpen :
      (s t : Store) (p : Policy) (now : ℕ) (n : Fired) (o : Option (ℕ → ℕ))
      → has_repository s p.id ≡ true
      → run_parsed parse new_id s p now o ≡ (ok (some n), t)
      → AllOpen s t p.id
  run_parsed-AllOpen s t p now n none r x =
      absurd (let y : err _ ≡ ok (some n) = ap (λ v. v.0) x in cc)
  run_parsed-AllOpen s t p now n (some next) r x =
      run_due-AllOpen s t p now n next (policy_last_run s p.id) r x

  -- When a policy with a repository fires, every active account that is assigned to it has a job of it that is
  -- pending or running afterwards.
  pub run_policy-AllOpen :
      (s t : Store) (p : Policy) (now : ℕ) (n : Fired)
      → has_repository s p.id ≡ true
      → run_policy parse new_id s p now ≡ (ok (some n), t)
      → (a : Account) → In a (accounts_for_policy s p.id)
      → any (is_open_for a.id p.id) t.backup_jobs ≡ true
  unfolding run_policy
  run_policy-AllOpen s t p now n r x = run_parsed-AllOpen s t p now n (parse p.schedule_cron) r x
