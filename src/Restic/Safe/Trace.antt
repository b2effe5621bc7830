-- ===== src/Restic/Safe/Trace.antt =====
-- The commands half: what a retention run asks restic to do.
use cprestic.Common.{
  ◌≡◌, refl, ◌⊎◌, inl, inr, Bool, true, false, not, ◌&&◌, ◌||◌, List, [], ◌∷◌, ◌++◌, Option, none,
  some, Text, text, text_eq, ◌==◌, if◌then◌else◌, arith, length, In, In-append, Result, ok, err,
}
use cprestic.Restic.{
  ForgetSpec, ForgetError, CommandResult, Command, Responder, Run, ◌>>=◌, lift, run,
}
use cprestic.Restic.Words.{has_text}
use cprestic.Restic.Forget.{
  completion_receipts, receipts_command, forget_snapshots, prune, prune_command, delete_removals,
}

-- A command after which restic holds less: a prune, or a forget that is not a preview.
unfoldable pub is_deletion : Command → Bool
is_deletion [] = false
is_deletion (name ∷ args) =
    text_eq name (text "prune")
    || (text_eq name (text "forget") && not (has_text args (text "--dry-run")))

-- Every command that `m` adds to the trace `t` is a `P`.
pub record Issues {A : Type 0} (P : Command → Type 0) (m : Run A) (t : List Command) : Type 0 where
  pub issued : (c : Command) → In c (m t).1 → In c t ⊎ P c

module _ (P : Command → Type 0) where
  pub lift-Issues : {A : Type 0} (r : Result ForgetError A) (t : List Command) → Issues P (lift r) t
  unfolding lift
  lift-Issues r t = record { issued = λ c m. inl m }

  pub run-Issues :
      (respond : Responder) (d : Command) (t : List Command) → P d → Issues P (run respond d) t
  unfolding run
  run-Issues respond d t p = record {
    issued = λ c m. elim (In-append c t (d ∷ []) (run_trace c (respond t d) m)) [
      | inl i ↦ inl i
      | inr i ↦ last c i
    ];
  }
    where
      run_trace :
          (c : Command) (o : Option CommandResult)
          → In c (run (λ u e. o) d t).1
          → In c (t ++ d ∷ [])
      run_trace c none m = m
      run_trace c (some r) m = m

      last : (c : Command) → In c (d ∷ []) → In c t ⊎ P c
      last c (inl e) = inr (rw (← e) p)
      last c (inr n) = absurd n

  bind_after :
      {A B : Type 0} (x : Result ForgetError A × List Command) (f : A → Run B) (t : List Command)
      → Issues P (λ u. x) t
      → ((a : A) → x.0 ≡ ok a → Issues P (f a) x.1)
      → Issues P ((λ u. x) >>= f) t
  unfolding ◌>>=◌
  bind_after (ok a, u) f t hm hf = record {
    issued = λ c i. elim ((hf a refl).issued c i) [ inl j ↦ hm.issued c j | inr p ↦ inr p ];
  }
  bind_after (err e, u) f t hm hf = record { issued = λ c i. hm.issued c i }

  pub bind-Issues :
      {A B : Type 0} (m : Run A) (f : A → Run B) (t : List Command)
      → Issues P m t
      → ((a : A) → (m t).0 ≡ ok a → Issues P (f a) (m t).1)
      → Issues P (m >>= f) t
  unfolding ◌>>=◌
  bind-Issues m f t hm hf = record {
    issued = (bind_after (m t) f t (record { issued = hm.issued }) hf).issued;
  }

  pub if-Issues :
      {A : Type 0} (b : Bool) (x y : Run A) (t : List Command)
      → (b ≡ true → Issues P x t)
      → (b ≡ false → Issues P y t)
      → Issues P (if b then x else y) t
  if-Issues true x y t hx hy = hx refl
  if-Issues false x y t hx hy = hy refl

  module _ (respond : Responder) where
    pub completion_receipts-Issues :
        (t : List Command) → P receipts_command → Issues P (completion_receipts respond) t
    unfolding completion_receipts
    completion_receipts-Issues t p =
        bind-Issues _ _ t (run-Issues respond receipts_command t p) (λ r _.
          bind-Issues _ _ _ (lift-Issues _ _) (λ _ _.
            bind-Issues _ _ _ (lift-Issues _ _)
              (λ _ _. bind-Issues _ _ _ (lift-Issues _ _) (λ _ _. lift-Issues _ _))))

    pub prune-Issues : (t : List Command) → P prune_command → Issues P (prune respond) t
    unfolding prune
    prune-Issues t p =
        bind-Issues _ _ t (run-Issues respond prune_command t p) (λ r _. lift-Issues _ _)

    pub delete_removals-Issues :
        (spec : ForgetSpec) (ids : List Text) (t : List Command)
        → (spec.dry_run ≡ false → P (text "forget" ∷ ids))
        → (spec.dry_run ≡ false → spec.prune ≡ true → P prune_command)
        → Issues P (delete_removals respond spec ids) t
    unfolding delete_removals forget_snapshots
    delete_removals-Issues spec ids t pf pp =
        if-Issues _ _ _ t
          (λ h.
            bind-Issues _ _ t (forgetting (dry h)) (λ _ _.
              if-Issues _ _ _ _ (λ q. prune-Issues _ (pp (dry h) q)) (λ _. lift-Issues _ _)))
          (λ _. lift-Issues _ t)
      where
        dry : (not spec.dry_run && not (length ids == 0)) ≡ true → spec.dry_run ≡ false
        dry h = ground arith

        forgetting : spec.dry_run ≡ false → Issues P (forget_snapshots respond ids) t
        forgetting d = bind-Issues _ _ t (lift-Issues _ t) (λ _ _.
            bind-Issues _ _ _ (lift-Issues _ _) (λ _ _.
              bind-Issues _ _ _ (run-Issues respond (text "forget" ∷ ids) _ (pf d))
                (λ r _. lift-Issues _ _)))
