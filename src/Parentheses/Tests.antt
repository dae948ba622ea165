-- ===== src/Parentheses/Tests.antt =====
-- The texts of `main`, and one with other characters.
use zettelkasten_public_subs.Common.{◌≡◌, refl, true, false, [], ◌∷◌, ◌↔◌}
use zettelkasten_public_subs.Parentheses.{is_valid_from, is_valid}
use zettelkasten_public_subs.Parentheses.Grammar.{Balanced, is_valid_lem}

crossed : is_valid (40 ∷ 91 ∷ 41 ∷ 93 ∷ []) ≡ false
unfolding is_valid is_valid_from
crossed = refl

is_valid_lem_example :
    (is_valid (123 ∷ 120 ∷ 40 ∷ 41 ∷ 125 ∷ 91 ∷ 93 ∷ []) ≡ true)
    ↔ Balanced (123 ∷ 120 ∷ 40 ∷ 41 ∷ 125 ∷ 91 ∷ 93 ∷ [])
is_valid_lem_example = is_valid_lem (123 ∷ 120 ∷ 40 ∷ 41 ∷ 125 ∷ 91 ∷ 93 ∷ [])
