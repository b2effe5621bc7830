-- ===== src/Node/Pending/Oldest.antt =====
-- What `PendingWork` hands out.
use cprestic.Common.{
  In-insert_by, In-sort_by, insert_by, sort_by, ℕ, ◌≤◌, ◌≡◌, refl, sym, ap, ◌∙◌, inl, inr, Bool,
  true, false, List, [], ◌∷◌, Option, none, some, some-injective, subst, if◌then◌else◌, arith, In,
  Bool-cases, Option-cases,
}
use cprestic.Store.{is_pending}
use cprestic.Node.{Restore, Job, Node}
use cprestic.Node.Pending.{newer_job, newer_restore, or_else, find_last, Work, pending_work}

-- A sort by a comparison that agrees with a key, newest first.
module _ {A : Type 0} (before : A → A → Bool) (key : A → ℕ)
    (yes : (a b : A) → before a b ≡ true → key b ≤ key a)
    (no : (a b : A) → before a b ≡ false → key a ≤ key b) where
  Descending : List A → Type 0
  Descending [] = Unit
  Descending (x ∷ xs) = ((a : A) → In a xs → key a ≤ key x) × Descending xs

  insert_by-Descending : (x : A) (xs : List A) → Descending xs → Descending (insert_by before x xs)
  unfolding Descending
  insert_by-Descending x [] d = (λ a m. absurd m, tt)
  insert_by-Descending x (y ∷ ys) (h, d) = elim (Bool-cases (before x y)) [
    | inl t ↦ rw t (front (yes x y t), (h, d))
    | inr f ↦ rw f (back (no x y f), insert_by-Descending x ys d)
  ]
    where
      front : key y ≤ key x → (a : A) → In a (y ∷ ys) → key a ≤ key x
      front l a (inl e) = subst (λ v. key v ≤ key x) e l
      front l a (inr m) = omega (arith, h a m, l)

      back : key x ≤ key y → (a : A) → In a (insert_by before x ys) → key a ≤ key y
      back l a m = elim (In-insert_by before a x ys m) [
        | inl e ↦ subst (λ v. key v ≤ key y) e l
        | inr n ↦ h a n
      ]

  sort_by-Descending : (xs : List A) → Descending (sort_by before xs)
  unfolding Descending
  sort_by-Descending [] = tt
  sort_by-Descending (x ∷ xs) = insert_by-Descending x (sort_by before xs) (sort_by-Descending xs)

  insert_by-In : (a x : A) (xs : List A) → In a (x ∷ xs) → In a (insert_by before x xs)
  insert_by-In a x [] m = m
  insert_by-In a x (y ∷ ys) m = elim (Bool-cases (before x y)) [
    | inl t ↦ rw t m
    | inr f ↦ rw f (moved (insert_by-In a x ys) m)
  ]
    where
      moved :
          (In a (x ∷ ys) → In a (insert_by before x ys))
          → In a (x ∷ y ∷ ys)
          → In a (y ∷ insert_by before x ys)
      moved g (inl e) = inr (g (inl e))
      moved g (inr (inl e)) = inl e
      moved g (inr (inr n)) = inr (g (inr n))

  sort_by-In : (a : A) (xs : List A) → In a xs → In a (sort_by before xs)
  sort_by-In a [] m = m
  sort_by-In a (x ∷ xs) (inl e) = insert_by-In a x (sort_by before xs) (inl e)
  sort_by-In a (x ∷ xs) (inr m) = insert_by-In a x (sort_by before xs) (inr (sort_by-In a xs m))

  -- The last row of a listing that passes a test is the oldest that does.
  abbrev IsOldest : (A → Bool) → List A → A → Type 0
  IsOldest p xs a = In a xs × (p a ≡ true) × ((b : A) → In b xs → p b ≡ true → key a ≤ key b)

  or_else-none : (o : Option A) (q : Option A) → or_else o q ≡ none → (o ≡ none) × (q ≡ none)
  or_else-none none q h = (refl, h)
  or_else-none (some a) q h = cc

  find_last-none :
      (p : A → Bool) (xs : List A) → find_last p xs ≡ none → (b : A) → In b xs → p b ≡ false
  find_last-none p [] h b m = absurd m
  find_last-none p (x ∷ xs) h b (inr m) =
      find_last-none p xs ((or_else-none (find_last p xs) _ h).0) b m
  find_last-none p (x ∷ xs) h b (inl e) = elim (Bool-cases (p x)) [
    | inr f ↦ ap p (sym e) ∙ f
    | inl t ↦ absurd (
        let g : (if p x then some x else none) ≡ none = (or_else-none (find_last p xs) _ h).1 in
        let n : some x ≡ none = rw t at g in cc)
  ]

  here_if :
      (p : A → Bool) (x a : A) → (if p x then some x else none) ≡ some a → (x ≡ a) × (p a ≡ true)
  here_if p x a h = elim (Bool-cases (p x)) [
    | inl t ↦ let e = some-injective x a (rw t at h) in (e, ap p (sym e) ∙ t)
    | inr f ↦ absurd (let n : none ≡ some a = rw f at h in cc)
  ]

  find_last-IsOldest :
      (p : A → Bool) (xs : List A)
      → Descending xs
      → (a : A) → find_last p xs ≡ some a
      → IsOldest p xs a
  unfolding Descending
  find_last-IsOldest p [] d a h = cc
  find_last-IsOldest p (x ∷ xs) (g, d) a h = elim (Option-cases (find_last p xs)) [
    | inl n ↦ let (e, t) = here_if p x a (rw n at h) in (inl e, t, λ b m q. only n e b m q)
    | inr (c, e) ↦
        let i : c ≡ a = some-injective c a (rw e at h) in
        let (m, t, o) = find_last-IsOldest p xs d a (e ∙ ap some i) in
        (
          inr m,
          t,
          λ b k q. elim k [ inl y ↦ subst (λ v. key a ≤ key v) y (g a m) | inr y ↦ o b y q ],
        )
  ]
    where
      only : find_last p xs ≡ none → x ≡ a → (b : A) → In b (x ∷ xs) → p b ≡ true → key a ≤ key b
      only n e b (inl y) q =
          subst (λ v. key v ≤ key b) e (subst (λ v. key x ≤ key v) y (omega arith))
      only n e b (inr y) q = absurd (let f = find_last-none p xs n b y in ground (arith, f, q))

  IsOldest-sort_by :
      (p : A → Bool) (xs : List A) (a : A)
      → find_last p (sort_by before xs) ≡ some a
      → IsOldest p xs a
  IsOldest-sort_by p xs a h =
      let (m, t, o) = find_last-IsOldest p (sort_by before xs) (sort_by-Descending xs) a h in
      (In-sort_by before a xs m, t, λ b k q. o b (sort_by-In b xs k) q)

  none_pending :
      (p : A → Bool) (xs : List A)
      → find_last p (sort_by before xs) ≡ none
      → (b : A) → In b xs
      → p b ≡ false
  none_pending p xs h b m = find_last-none p (sort_by before xs) h b (sort_by-In b xs m)

newer_job-yes : (a b : Job) → newer_job a b ≡ true → b.queued_at ≤ a.queued_at
newer_job-yes a b h = ground arith

newer_job-no : (a b : Job) → newer_job a b ≡ false → a.queued_at ≤ b.queued_at
newer_job-no a b h = ground arith

newer_restore-yes : (a b : Restore) → newer_restore a b ≡ true → b.queued_at ≤ a.queued_at
newer_restore-yes a b h = ground arith

newer_restore-no : (a b : Restore) → newer_restore a b ≡ false → a.queued_at ≤ b.queued_at
newer_restore-no a b h = ground arith

-- What runs next.
abbrev pub NoRestore : Node → Type 0
NoRestore node = (r : Restore) → In r node.restores → is_pending r.status ≡ false

abbrev pub IsNext : Node → Work → Type 0
IsNext node Work.no_work =
    NoRestore node × ((j : Job) → In j node.jobs → is_pending j.status ≡ false)
IsNext node (Work.restore_work r) =
    In r node.restores
    × (is_pending r.status ≡ true)
    × ((q : Restore) → In q node.restores → is_pending q.status ≡ true → r.queued_at ≤ q.queued_at)
IsNext node (Work.backup_work j) =
    NoRestore node
    × In j node.jobs
    × (is_pending j.status ≡ true)
    × ((k : Job) → In k node.jobs → is_pending k.status ≡ true → j.queued_at ≤ k.queued_at)

-- The worker gets a pending restore that was queued no later than any other pending one; a pending backup
-- that was queued no later than any other, only when no restore is pending; and nothing only when neither a
-- restore nor a backup is pending.
pub pending_work-IsNext : (node : Node) → IsNext node (pending_work node)
unfolding pending_work
pending_work-IsNext node =
    let restores = sort_by newer_restore node.restores in
    let jobs = sort_by newer_job node.jobs in
    elim (Option-cases (find_last (λ (r : Restore). is_pending r.status) restores)) [
      | inr (r, e) ↦ rw e (
          IsOldest-sort_by newer_restore (λ (x : Restore). x.queued_at) newer_restore-yes
            newer_restore-no (λ (x : Restore). is_pending x.status) node.restores r e)
      | inl n ↦
          let none_left =
            none_pending newer_restore (λ (x : Restore). x.queued_at) newer_restore-yes
              newer_restore-no (λ (x : Restore). is_pending x.status) node.restores n in
          elim (Option-cases (find_last (λ (j : Job). is_pending j.status) jobs)) [
            | inr (j, e) ↦
                let (m, t, o) =
                  IsOldest-sort_by newer_job (λ (x : Job). x.queued_at) newer_job-yes newer_job-no
                    (λ (x : Job). is_pending x.status) node.jobs j e in
                rw (n, e) (none_left, m, t, o)
            | inl m ↦
                rw (n, m)
                  (
                    none_left,
                    none_pending newer_job (λ (x : Job). x.queued_at) newer_job-yes newer_job-no
                        (λ (x : Job). is_pending x.status) node.jobs m,
                  )
          ]
    ]
