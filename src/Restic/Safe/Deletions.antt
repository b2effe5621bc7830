-- ===== src/Restic/Safe/Deletions.antt =====
-- What `ForgetPlanned` deletes, and what a preview leaves alone.
use cprestic.Common.{
  ◌≡◌, refl, ◌⊎◌, inl, inr, true, false, ◌&&◌, List, [], ◌∷◌, ◌++◌, Text, text, text_eq, ◌==◌,
  if◌then◌else◌, arith, length, In, Result, ok, >>=-eq-ok, refuse_if,
}
use cprestic.Restic.{Group, ForgetSpec, ForgetError, CommandResult, Command, Responder, lift, run}
use cprestic.Restic.Words.{has_text}
use cprestic.Restic.Args.{forget_args, keep_args, keeps, tag_args, group_by_or_default}
use cprestic.Restic.Forget.{
  completion_receipts, receipts_command, prune_command, needs_receipts, apply_preview, preview,
  forget_planned, groups_of, is_blank,
}
use cprestic.Restic.Safe.Groups.{Removable, removals-Removable}
use cprestic.Restic.Safe.Trace.{
  is_deletion, Issues, lift-Issues, run-Issues, bind-Issues, if-Issues, completion_receipts-Issues,
  delete_removals-Issues,
}

has_text-append_right :
    (w : Text) (xs ys : List Text) → has_text ys w ≡ true → has_text (xs ++ ys) w ≡ true
unfolding has_text
has_text-append_right w [] ys h = h
has_text-append_right w (x ∷ xs) ys h = ground (arith, has_text-append_right w xs ys h)

has_text-skip : (w x : Text) (xs : List Text) → has_text xs w ≡ true → has_text (x ∷ xs) w ≡ true
unfolding has_text
has_text-skip w x xs h = ground arith

ok_inj : {A : Type 0} (a b : A) → ◌≡◌ {A = Result ForgetError A} (ok a) (ok b) → a ≡ b
ok_inj a b h = ground arith

forget-is_deletion :
    (args : List Text)
    → has_text args (text "--dry-run") ≡ true
    → is_deletion (text "forget" ∷ args) ≡ false
unfolding is_deletion text_eq
forget-is_deletion args h = rw h refl

switch-has :
    (spec : ForgetSpec)
    → spec.dry_run ≡ true
    → has_text
        ((if spec.dry_run then text "--dry-run" ∷ [] else [])
          ++ (if spec.prune then text "--prune" ∷ [] else []))
        (text "--dry-run")
      ≡ true
unfolding has_text text_eq
switch-has spec d = rw d refl

-- The arguments of a dry run say so.
forget_args-dry_run :
    (spec : ForgetSpec) (args : Command)
    → spec.dry_run ≡ true
    → forget_args spec ≡ ok args
    → is_deletion args ≡ false
unfolding forget_args
forget_args-dry_run spec args d h =
    let (flags, e, h1) = >>=-eq-ok (keep_args (keeps spec)) _ h in
    let (u, e2, h2) = >>=-eq-ok (refuse_if (length flags == 0) _) _ h1 in
    let (v, e3, h3) = >>=-eq-ok (refuse_if (spec.prune && spec.dry_run) _) _ h2 in
    rw (← ok_inj _ args h3) (forget-is_deletion _ (flagged flags))
  where
    flagged :
        (flags : List Text)
        → has_text
            (text "--json"
              ∷ (flags
                  ++ (tag_args spec.tags
                      ++ (text "--group-by"
                          ∷ group_by_or_default spec.group_by
                          ∷ ((if spec.dry_run then text "--dry-run" ∷ [] else [])
                              ++ (if spec.prune then text "--prune" ∷ [] else []))))))
            (text "--dry-run")
          ≡ true
    flagged flags = has_text-skip _ _ _ (
        has_text-append_right _ flags _ (
          has_text-append_right _ (tag_args spec.tags) _
            (has_text-skip _ _ _ (has_text-skip _ _ _ (switch-has spec d)))))

receipts-is_deletion : is_deletion receipts_command ≡ false
unfolding is_deletion text_eq
receipts-is_deletion = refl

-- Where a deletion comes from: the groups that the preview of the same specification listed, and the
-- receipts that were read after it.
pub record Deletes (respond : Responder) (spec : ForgetSpec) (c : Command) : Type 0 where
  pub args : Command
  pub args_eq : forget_args (preview spec) ≡ ok args
  pub result : CommandResult
  pub answer : (run respond args []).0 ≡ ok result
  pub groups : List Group
  pub listing : groups_of result.stdout ≡ ok groups
  pub completed : List Text
  pub receipts :
      ((if needs_receipts groups then completion_receipts respond else lift (ok []))
        (run respond args []).1).0
      ≡ ok completed
  pub not_dry_run : spec.dry_run ≡ false
  pub names :
      ((c ≡ prune_command) × (spec.prune ≡ true))
      ⊎ ((ids : List Text) × (c ≡ text "forget" ∷ ids)
          × ((id : Text) → In id ids → Removable spec.protected_snapshot_ids completed groups id))

-- The commands of a run: those that delete nothing, and those that the preview accounts for.
abbrev pub Accounted : Responder → ForgetSpec → Command → Type 0
Accounted respond spec c = (is_deletion c ≡ false) ⊎ Deletes respond spec c

preview-dry : (spec : ForgetSpec) → (preview spec).dry_run ≡ true
unfolding preview
preview-dry spec = refl

module _ (respond : Responder) (spec : ForgetSpec) (args : Command) (result : CommandResult)
    (groups : List Group) (t : List Command) where
  apply_preview-Issues :
      forget_args (preview spec) ≡ ok args
      → (run respond args []).0 ≡ ok result
      → groups_of result.stdout ≡ ok groups
      → t ≡ (run respond args []).1
      → Issues (Accounted respond spec) (apply_preview respond spec groups) t
  unfolding apply_preview
  apply_preview-Issues ea er eg et =
      bind-Issues (Accounted respond spec) _ _ t
        (if-Issues (Accounted respond spec) (needs_receipts groups) _ (lift (ok [])) _
          (λ _.
            completion_receipts-Issues (Accounted respond spec) respond t
              (inl receipts-is_deletion))
          (λ _. lift-Issues (Accounted respond spec) _ t))
        (λ completed ec.
          bind-Issues (Accounted respond spec) _ _ _
            (delete_removals-Issues (Accounted respond spec) respond spec _ _
              (λ nd. inr (
                deleting completed ec nd
                  (inr (_, refl, removals-Removable spec.protected_snapshot_ids completed groups))))
              (λ nd p. inr (deleting completed ec nd (inl (refl, p)))))
            (λ _ _. lift-Issues (Accounted respond spec) _ _))
    where
      deleting :
          (completed : List Text)
          → ((if needs_receipts groups then completion_receipts respond else lift (ok [])) t).0
            ≡ ok completed
          → spec.dry_run ≡ false
          → {c : Command}
          → ((c ≡ prune_command) × (spec.prune ≡ true))
            ⊎ ((ids : List Text) × (c ≡ text "forget" ∷ ids)
                × ((id : Text)
                    → In id ids
                    → Removable spec.protected_snapshot_ids completed groups id))
          → Deletes respond spec c
      deleting completed ec nd why = record {
        args = args;
        args_eq = ea;
        result = result;
        answer = er;
        groups = groups;
        listing = eg;
        completed = completed;
        receipts = rw et at ec;
        not_dry_run = nd;
        names = why;
      }

module _ (respond : Responder) (spec : ForgetSpec) where
  forget_planned-Issues : Issues (Accounted respond spec) (forget_planned respond spec) []
  unfolding forget_planned lift
  forget_planned-Issues =
      bind-Issues (Accounted respond spec) _ _ [] (lift-Issues (Accounted respond spec) _ [])
        (λ _ _.
          bind-Issues (Accounted respond spec) _ _ _ (lift-Issues (Accounted respond spec) _ _)
            (λ args ea.
              bind-Issues (Accounted respond spec) _ _ _
                (run-Issues (Accounted respond spec) respond args _
                  (inl (forget_args-dry_run (preview spec) args (preview-dry spec) ea)))
                (λ result er.
                  bind-Issues (Accounted respond spec) _ _ _
                    (lift-Issues (Accounted respond spec) _ _)
                    (λ _ _.
                      bind-Issues (Accounted respond spec) _ _ _
                        (lift-Issues (Accounted respond spec) _ _)
                        (λ _ _.
                          bind-Issues (Accounted respond spec) _ _ _
                            (lift-Issues (Accounted respond spec) _ _)
                            (λ plan _.
                              if-Issues (Accounted respond spec) (is_blank result.stdout)
                                (lift (ok plan)) _ _ (λ _. lift-Issues (Accounted respond spec) _ _)
                                (λ _.
                                  bind-Issues (Accounted respond spec)
                                    (lift (groups_of result.stdout)) _ _
                                    (lift-Issues (Accounted respond spec) _ _)
                                    (λ groups eg.
                                      apply_preview-Issues respond spec args result groups _ ea er
                                        eg refl))))))))

  -- Each command of a run that deletes something is accounted for by the preview that the run took: the
  -- run is no dry run, and the command is the prune that the specification asks for, or a forget that
  -- names only removable snapshots.
  pub forget_planned-Removable :
      (c : Command)
      → In c (forget_planned respond spec []).1
      → is_deletion c ≡ true
      → Deletes respond spec c
  forget_planned-Removable c m d = elim (forget_planned-Issues.issued c m) [
    | inl i ↦ absurd i
    | inr (inl f) ↦ absurd (cc)
    | inr (inr p) ↦ p
  ]

  -- A dry run issues no command that deletes, whatever restic answers.
  pub forget_planned-dry_run :
      spec.dry_run ≡ true
      → (c : Command) → In c (forget_planned respond spec []).1
      → is_deletion c ≡ false
  forget_planned-dry_run d c m = elim (forget_planned-Issues.issued c m) [
    | inl i ↦ absurd i
    | inr (inl f) ↦ f
    | inr (inr p) ↦ absurd (contradiction p.not_dry_run)
  ]
    where
      contradiction : spec.dry_run ≡ false → ⊥
      contradiction n = cc
