-- ===== src/Parser/Tests.antt =====
-- The text of the source, and a text with an error.
use zettelkasten_public_subs.Common.{ℕ, ◌≡◌, refl, List, [], ◌∷◌, arith, length}
use zettelkasten_public_subs.Parser.{
  ok, number_expected, bump, is_digit, peek, match_operator, term, multiplicative, additive_loop,
  additive, print, parser,
}
use zettelkasten_public_subs.Parser.Reads.{Product, product_text, sum_text, written, grouped}
use zettelkasten_public_subs.Parser.Reads.{parser_lem}
use zettelkasten_public_subs.Parser.Sound.{parser-Ensures, IsReading}
use zettelkasten_public_subs.Parser.Sound.Products.{Ensures}

-- 1+2*3+4+5+6*7+9+1*9*9+9*9
abbrev first_product : Product
first_product = (1, [])

abbrev other_products : List Product
other_products =
    (2, 3 ∷ []) ∷ (4, []) ∷ (5, []) ∷ (6, 7 ∷ []) ∷ (9, []) ∷ (1, 9 ∷ 9 ∷ []) ∷ (9, 9 ∷ []) ∷ []

parser_lem_example :
    parser (written first_product other_products)
    ≡ ok
        (print (grouped first_product other_products))
        (length (written first_product other_products))
parser_lem_example =
    parser_lem first_product other_products (omega arith)
      (unfold written in unfold product_text in unfold sum_text in omega arith)

-- 1*+
abbrev no_factor : List ℕ
no_factor = b'1' ∷ b'*' ∷ b'+' ∷ []

parser-Ensures_example : Ensures (IsReading no_factor) (parser no_factor)
parser-Ensures_example = parser-Ensures no_factor (omega arith)

no_factor_lem : parser no_factor ≡ number_expected b'+'
unfolding parser additive multiplicative term peek match_operator bump is_digit
no_factor_lem = refl

-- 1+2*3
small_lem :
    parser (b'1' ∷ b'+' ∷ b'2' ∷ b'*' ∷ b'3' ∷ [])
    ≡ ok
        (b'(' ∷ b'1' ∷ b' ' ∷ b'+' ∷ b' ' ∷ b'(' ∷ b'2' ∷ b' ' ∷ b'*' ∷ b' ' ∷ b'3' ∷ b')' ∷ b')'
          ∷ [])
        5
unfolding parser additive additive_loop multiplicative term peek match_operator bump is_digit print
small_lem = refl
