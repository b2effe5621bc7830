-- ===== src/Node/Basket.antt =====
-- internal/nodestore/basket.go: what somebody has chosen out of one restore point, as a list of selections.
-- Where the baskets are kept, and for how long, is not modelled.
pub mod Chosen
mod Tests
use cprestic.Common.{
  ℕ, suc, ◌+◌, Bool, true, false, not, ◌&&◌, ◌||◌, List, [], ◌∷◌, ◌++◌, Text, text_eq, ltb, ◌==◌,
  if◌then◌else◌, length, any, filter, sort_by,
}
use cprestic.Node.Pending.{text_lt}

-- `RestoreSelection`: a part of an account, and names in it. No names: the whole part.
pub record RestoreSelection : Type 0 where
  pub kind : Text
  pub names : List Text

-- `hasName`.
abbrev pub has_name : List Text → Text → Bool
has_name names want = any (λ name. text_eq name want) names

-- `sort.Strings`.
abbrev pub sort_strings : List Text → List Text
sort_strings names = sort_by text_lt names

-- `Count`.
unfoldable pub count_items : List RestoreSelection → ℕ
count_items [] = 0
count_items (i ∷ is) = (if length i.names == 0 then 1 else length i.names) + count_items is

-- `withoutKind`, `withSelection`.
unfoldable pub without_kind : List RestoreSelection → Text → List RestoreSelection
without_kind items kind = filter (λ (i : RestoreSelection). not (text_eq i.kind kind)) items

unfoldable pub with_selection : List RestoreSelection → RestoreSelection → List RestoreSelection
unfolding without_kind
with_selection items s = without_kind items s.kind ++ record s { names = sort_strings s.names } ∷ []

-- The loop over the new names: `old` is the list as it was before it.
unfoldable pub more_names : List Text → List Text → List Text → List Text
more_names old names [] = names
more_names old names (n ∷ ns) =
    more_names old (if not (has_name old n) then names ++ n ∷ [] else names) ns

-- The selection of the same part, once found.
abbrev pub joined_names : List Text → List Text → List Text
joined_names old new =
    if (length old == 0) || (length new == 0) then [] else sort_strings (more_names old old new)

-- `withMoreNames`.
unfoldable pub with_more_names : List RestoreSelection → RestoreSelection → List RestoreSelection
unfolding more_names
with_more_names [] s = record s { names = sort_strings s.names } ∷ []
with_more_names (i ∷ is) s =
    let rest = with_more_names is s in
    if not (text_eq i.kind s.kind)
    then i ∷ rest
    else record i { names = joined_names i.names s.names } ∷ is
