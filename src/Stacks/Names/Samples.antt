-- ===== src/Stacks/Names/Samples.antt =====
-- Runs of the list helpers.
use idpbuilder.Base.{◌≡◌, refl, [], ◌∷◌}
use idpbuilder.Base.Text.{lit, ◌==◌}
use idpbuilder.Base.Order.{sort_strings, text_lt}
use idpbuilder.Stacks.Names.{append_unique_strings}

append_unique_strings-sample :
    append_unique_strings (lit "b" ∷ lit "" ∷ []) (lit "a" ∷ lit "b" ∷ []) ≡ lit "a" ∷ lit "b" ∷ []
unfolding append_unique_strings sort_strings text_lt ◌==◌
append_unique_strings-sample = refl
