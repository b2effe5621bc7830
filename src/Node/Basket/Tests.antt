-- ===== src/Node/Basket/Tests.antt =====
-- A basket with some mailboxes and every database in it.
use cprestic.Common.{◌≡◌, refl, ◌&&◌, ◌||◌, not, List, [], ◌∷◌, text, text_eq, if◌then◌else◌}
use cprestic.Node.Pending.{text_lt}
use cprestic.Node.Basket.{
  RestoreSelection, count_items, without_kind, with_selection, more_names, with_more_names,
}
use cprestic.Node.Basket.Chosen.{takes, chosen, chosen-changes}

abbrev two_mailboxes : RestoreSelection
two_mailboxes = record { kind = text "mail"; names = text "ann" ∷ text "bob" ∷ [] }

abbrev two_more : RestoreSelection
two_more = record { kind = text "mail"; names = text "zoe" ∷ text "ann" ∷ [] }

abbrev every_database : RestoreSelection
every_database = record { kind = text "db"; names = [] }

abbrev basket : List RestoreSelection
basket = two_mailboxes ∷ every_database ∷ []

basket_counts_three : count_items basket ≡ 3
unfolding count_items
basket_counts_three = refl

names_join :
    with_more_names basket two_more
    ≡ record { kind = text "mail"; names = text "ann" ∷ text "bob" ∷ text "zoe" ∷ [] }
      ∷ every_database
      ∷ []
unfolding with_more_names more_names text_eq text_lt
names_join = refl

replaced_part_goes_last :
    with_selection basket two_more
    ≡ every_database ∷ record { kind = text "mail"; names = text "ann" ∷ text "zoe" ∷ [] } ∷ []
unfolding with_selection without_kind text_eq text_lt
replaced_part_goes_last = refl

-- A name given twice is looked for in the list as it was, so it is added twice.
repeated_name_counts_twice :
    count_items
      (with_more_names basket (record { kind = text "mail"; names = text "zoe" ∷ text "zoe" ∷ [] }))
    ≡ 5
unfolding count_items with_more_names more_names text_eq text_lt
repeated_name_counts_twice = refl

chosen-changes_example :
    (chosen (with_selection basket two_more) (text "mail") (text "bob") ≡ (
      if text_eq (text "mail") (text "mail")
      then takes two_more.names (text "bob")
      else chosen basket (text "mail") (text "bob")))
    × (chosen (with_more_names basket two_more) (text "mail") (text "bob") ≡ (
        chosen basket (text "mail") (text "bob")
        || text_eq (text "mail") (text "mail") && takes two_more.names (text "bob")))
    × (chosen (without_kind basket (text "mail")) (text "mail") (text "bob")
        ≡ (not (text_eq (text "mail") (text "mail")) && chosen basket (text "mail") (text "bob")))
chosen-changes_example = chosen-changes basket two_more (text "mail") (text "bob")
