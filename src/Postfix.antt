-- ===== src/Postfix.antt =====
-- The parser of 2021-11-11-postfix-exprs-parser/parser.cpp, from an expression to its postfix form. A
-- character is its code. `std::cin >> lookahead_` skips white space and, at the end of the input,
-- leaves `lookahead_` as it was.
pub mod Steps
pub mod Forms
pub mod Rounds
pub mod Output
pub mod Total
pub mod Tests
use zettelkasten_public_subs.Common.{
  ℕ, zero, suc, ◌+◌, Bool, true, false, List, [], ◌∷◌, ◌++◌, ◌==◌, leb, if◌then◌else◌, length, ◌&&◌,
  ◌||◌,
}

pub record Parser : Type 0 where
  pub lookahead : ℕ
  -- What `std::cin` still has, and what was written to `std::cout`.
  pub input : List ℕ
  pub output : List ℕ

-- `failed` is the exception, with what was written before it.
pub data Outcome : Type 0 where
  ok failed : Parser → Outcome
  out_of_fuel : Outcome

infixl 5 ◌>>=◌
abbrev pub ◌>>=◌ : Outcome → (Parser → Outcome) → Outcome
◌>>=◌ (ok p) f = f p
◌>>=◌ (failed p) f = failed p
◌>>=◌ out_of_fuel f = out_of_fuel

-- `std::isspace` in the "C" locale.
unfoldable pub is_space : ℕ → Bool
is_space c = c == 32 || (leb 9 c && leb c 13)

unfoldable pub is_digit : ℕ → Bool
is_digit c = leb 48 c && leb c 57

unfoldable pub read : ℕ → List ℕ → ℕ × List ℕ
read old [] = (old, [])
read old (c ∷ cs) = let later = read old cs in if is_space c then later else (c, cs)

-- `std::cin >> lookahead_`
unfoldable pub next : Parser → Parser
next p = let (c, rest) = read p.lookahead p.input in record p { lookahead = c; input = rest }

-- The constructor; `old` is what the field held before.
unfoldable pub new_parser : ℕ → List ℕ → Parser
new_parser old input = next (record { lookahead = old; input = input; output = [] })

unfoldable pub match : ℕ → Parser → Outcome
match t p = if p.lookahead == t then ok (next p) else failed p

unfoldable pub write : ℕ → Parser → Parser
write c p = record p { output = p.output ++ c ∷ [] }

unfoldable pub term : Parser → Outcome
term p = if is_digit p.lookahead then match p.lookahead (write p.lookahead p) else failed p

-- The loop of `expr`; both operators are treated alike.
unfoldable pub expr_loop : ℕ → Parser → Outcome
expr_loop zero p = out_of_fuel
expr_loop (suc f) p =
    let op = p.lookahead in
    let round = match op p >>= λ q. term q >>= λ r. expr_loop f (write op r) in
    if op == b'+' || op == b'-' then round else ok p

unfoldable pub expr : ℕ → Parser → Outcome
expr f p = term p >>= λ q. expr_loop f q
