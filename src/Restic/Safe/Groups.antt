-- ===== src/Restic/Safe/Groups.antt =====
-- The pure half: which snapshots of a preview are named for deletion, and how they are counted.
use cprestic.Common.{
  ℕ, ◌+◌, ◌≡◌, refl, ◌⊎◌, inl, inr, false, List, [], ◌∷◌, map, Text, if◌then◌else◌, arith, length,
  length-append, any, In, In-append, Bool-cases,
}
use cprestic.Restic.{Snapshot, Group}
use cprestic.Restic.Words.{has_text}
use cprestic.Restic.Plan.{plan_of, summarise_all, total_kept, total_removed}
use cprestic.Restic.Forget.{
  all_snapshots, unverified, protect, safe_groups, removals, completion_receipt_tag,
}

-- A snapshot of the preview that may be deleted: its group is no receipt group, restic asked for its
-- removal, and nothing in the group is unverified or marked as protected.
pub record Removable (protected completed : List Text) (groups : List Group) (id : Text)
    : Type 0 where
  pub group : Group
  pub snapshot : Snapshot
  pub listed : In group groups
  pub asked : In snapshot group.remove
  pub named : snapshot.id ≡ id
  pub no_receipt : has_text group.tags completion_receipt_tag ≡ false
  pub verified : any (unverified protected completed) (all_snapshots group) ≡ false
  pub unprotected : group.protected ≡ false

In-map_id :
    (id : Text) (ss : List Snapshot)
    → In id (map (λ (s : Snapshot). s.id) ss)
    → (s : Snapshot) × In s ss × (s.id ≡ id)
In-map_id id [] m = absurd m
In-map_id id (s ∷ ss) (inl e) = (s, inl refl, e)
In-map_id id (s ∷ ss) (inr m) = let (t, n, e) = In-map_id id ss m in (t, inr n, e)

-- Either the group loses nothing, or it is untouched and has nothing to protect.
protect_cases :
    (protected completed : List Text) (g : Group)
    → ((protect protected completed g).remove ≡ [])
      ⊎ (((protect protected completed g).remove ≡ g.remove)
          × (any (unverified protected completed) (all_snapshots g) ≡ false)
          × (g.protected ≡ false))
unfolding protect
protect_cases protected completed g =
    elim (Bool-cases (any (unverified protected completed) (all_snapshots g))) [
      | inl t ↦ rw t (inl refl)
      | inr f ↦ elim (Bool-cases g.protected) [
        | inl p ↦ rw (f, p) (inl refl)
        | inr p ↦ rw (f, p) (inr (refl, refl, refl))
      ]
    ]

weaken :
    (protected completed : List Text) (g : Group) (gs : List Group) (id : Text)
    → Removable protected completed gs id
    → Removable protected completed (g ∷ gs) id
weaken protected completed g gs id r = record {
  group = r.group;
  snapshot = r.snapshot;
  listed = inr r.listed;
  asked = r.asked;
  named = r.named;
  no_receipt = r.no_receipt;
  verified = r.verified;
  unprotected = r.unprotected;
}

pub removals-Removable :
    (protected completed : List Text) (groups : List Group) (id : Text)
    → In id (removals (safe_groups protected completed groups))
    → Removable protected completed groups id
unfolding removals safe_groups
removals-Removable protected completed [] id m = absurd m
removals-Removable protected completed (g ∷ gs) id m =
    elim (Bool-cases (has_text g.tags completion_receipt_tag)) [
      | inl t ↦
          weaken protected completed g gs id
            (removals-Removable protected completed gs id (rw t at m))
      | inr f ↦ here f (removals-Removable protected completed gs id) (
          In-append id (map (λ (s : Snapshot). s.id) (protect protected completed g).remove)
            (removals (safe_groups protected completed gs)) (rw f at m))
    ]
  where
    here :
        has_text g.tags completion_receipt_tag ≡ false
        → (In id (removals (safe_groups protected completed gs))
            → Removable protected completed gs id)
        → In id (map (λ (s : Snapshot). s.id) (protect protected completed g).remove)
          ⊎ In id (removals (safe_groups protected completed gs))
        → Removable protected completed (g ∷ gs) id
    here f rest (inr n) = weaken protected completed g gs id (rest n)
    here f rest (inl n) = elim (protect_cases protected completed g) [
      | inl e ↦ absurd (rw e at n)
      | inr (e, v, p) ↦
          let (s, i, q) = In-map_id id g.remove (rw e at n) in
          record {
            group = g;
            snapshot = s;
            listed = inl refl;
            asked = i;
            named = q;
            no_receipt = f;
            verified = v;
            unprotected = p;
          }
    ]

-- The snapshots of the groups that hold backups.
abbrev pub backup_count : List Group → ℕ
backup_count [] = 0
backup_count (g ∷ gs) =
    (if has_text g.tags completion_receipt_tag then 0 else length (all_snapshots g))
    + backup_count gs

length-map_id : (ss : List Snapshot) → length (map (λ (s : Snapshot). s.id) ss) ≡ length ss
length-map_id [] = refl
length-map_id (s ∷ ss) = omega (arith, length-map_id ss)

protect-length :
    (protected completed : List Text) (g : Group)
    → let h = protect protected completed g in
      length h.keep + length h.remove ≡ length (all_snapshots g)
unfolding protect
protect-length protected completed g = ground (arith, length-append g.keep g.remove)

summarise_all-removed : (gs : List Group) → total_removed (summarise_all gs) ≡ length (removals gs)
unfolding summarise_all removals
summarise_all-removed [] = refl
summarise_all-removed (g ∷ gs) = ground (
  arith,
  summarise_all-removed gs,
  length-map_id g.remove,
  length-append (map (λ (s : Snapshot). s.id) g.remove) (removals gs),
)

safe_groups-total :
    (protected completed : List Text) (gs : List Group)
    → let all = summarise_all (safe_groups protected completed gs) in
      total_kept all + total_removed all ≡ backup_count gs
unfolding summarise_all safe_groups
safe_groups-total protected completed [] = refl
safe_groups-total protected completed (g ∷ gs) =
    elim (Bool-cases (has_text g.tags completion_receipt_tag)) [
      | inl t ↦ rw t (omega (arith, safe_groups-total protected completed gs))
      | inr f ↦ rw f (
          ground
            (arith, safe_groups-total protected completed gs, protect-length protected completed g))
    ]

-- The plan that an operator reads counts every backup once, as kept or as removed, and the number
-- removed is the number of snapshots that the run names for deletion.
pub plan_of-counts :
    (protected completed : List Text) (gs : List Group)
    → let plan = plan_of (safe_groups protected completed gs) in
      (plan.kept + plan.removed ≡ backup_count gs)
      × (plan.removed ≡ length (removals (safe_groups protected completed gs)))
unfolding plan_of
plan_of-counts protected completed gs = (
  safe_groups-total protected completed gs,
  summarise_all-removed (safe_groups protected completed gs),
)
