-- ===== src/Postfix/Tests.antt =====
-- The parser on `9 - 5+2`, and on an expression that ends in an operator.
use zettelkasten_public_subs.Common.{◌++◌, ℕ, ◌≡◌, refl, List, [], ◌∷◌, arith, some}
use zettelkasten_public_subs.Postfix.{
  Parser, Outcome, ok, failed, out_of_fuel, is_space, is_digit, read, next, new_parser, match,
  write, term, expr_loop, expr,
}
use zettelkasten_public_subs.Postfix.Steps.{squeeze, head_or, is_op, tail}
use zettelkasten_public_subs.Postfix.Forms.{
  Rest, infix_text, postfix_text, digit, grouped_left, rebuild,
}
use zettelkasten_public_subs.Postfix.Output.{expr_lem}
use zettelkasten_public_subs.Postfix.Total.{Ensures, IsExpr, expr-Ensures}

abbrev nine_five_two : List ℕ
nine_five_two = b'9' ∷ b' ' ∷ b'-' ∷ b' ' ∷ b'5' ∷ b'+' ∷ b'2' ∷ []

abbrev nine_steps : Rest
nine_steps = (b'-', b'5') ∷ (b'+', b'2') ∷ []

abbrev written : Outcome → List ℕ
written (ok q) = q.output
written (failed q) = q.output
written out_of_fuel = []

nine_five_two_lem :
    written (expr 5 (new_parser 0 nine_five_two)) ≡ b'9' ∷ b'5' ∷ b'-' ∷ b'2' ∷ b'+' ∷ []
unfolding expr expr_loop term match write next read new_parser is_space is_digit
nine_five_two_lem = refl

expr_lem_example :
    (q : Parser) × (expr 5 (new_parser 0 (nine_five_two ++ b' ' ∷ b')' ∷ b'7' ∷ [])) ≡ ok q)
    × (q.output ≡ b'9' ∷ postfix_text nine_steps)
    × (rebuild q.output [] ≡ some (grouped_left (digit b'9') nine_steps ∷ []))
    × (squeeze q.input ≡ b'7' ∷ [])
    × ((c : ℕ) (cs : List ℕ) → b')' ∷ b'7' ∷ [] ≡ c ∷ cs → q.lookahead ≡ c)
unfolding squeeze is_space is_digit is_op infix_text head_or tail
expr_lem_example =
    expr_lem 5 0 b'9' nine_steps (nine_five_two ++ b' ' ∷ b')' ∷ b'7' ∷ []) (b')' ∷ b'7' ∷ []) refl
      refl (refl, refl, (refl, refl, tt)) refl (omega arith)

-- 1+
abbrev no_operand : List ℕ
no_operand = b'1' ∷ b'+' ∷ []

expr-Ensures_example : Ensures (IsExpr no_operand) (expr 3 (new_parser 0 no_operand))
unfolding squeeze is_space is_digit
expr-Ensures_example = expr-Ensures 3 0 no_operand refl (omega arith)
