-- ===== src/Parser.antt =====
-- The parser of 2021-12-25-associative-operators-parser/parser.cpp: sums of products of digits. A
-- character is its code. The calls that throw end in a result of their own; the fuel bounds the
-- depth of the calls and the rounds of the loops, and a theorem says how much is enough.
pub mod Input
pub mod Reads
pub mod Sound
pub mod Tests
use zettelkasten_public_subs.Common.{
  ℕ, zero, suc, ◌+◌, ◌-◌, ◌*◌, ◌%◌, ◌^◌, Bool, true, false, none, some, List, [], ◌∷◌, ◌++◌, ◌==◌,
  ltb, leb, if◌then◌else◌, get_elem?, length, ◌&&◌,
}

pub data Node : Type 0 where
  number : ℕ → Node
  binary : ℕ → Node → Node → Node

-- What a member function of the parser comes to: a value and the new `PeekIndex`, the exception of
-- `Term`, with the token, or that of `at`.
pub data Parsed (A : Type 0) : Type 0 where
  ok : A → ℕ → Parsed A
  number_expected : ℕ → Parsed A
  out_of_range out_of_fuel : Parsed A

infixl 5 ◌>>=◌
abbrev pub ◌>>=◌ : {A B : Type 0} → Parsed A → (A → ℕ → Parsed B) → Parsed B
◌>>=◌ (ok a i) f = f a i
◌>>=◌ (number_expected c) f = number_expected c
◌>>=◌ out_of_range f = out_of_range
◌>>=◌ out_of_fuel f = out_of_fuel

-- `++PeekIndex`, an unsigned of 32 bits.
unfoldable pub bump : ℕ → ℕ
bump i = (i + 1) % 2 ^ 32

unfoldable pub is_digit : ℕ → Bool
is_digit c = leb 48 c && leb c 57

module _ (input : List ℕ) where
  unfoldable pub peek : ℕ → Parsed ℕ
  peek i = elim (get_elem? input i) [ none ↦ out_of_range | some c ↦ ok c (bump i) ]

  -- The answer and the new `PeekIndex`. The test of the length keeps `at` from throwing.
  unfoldable pub match_operator : ℕ → ℕ → Bool × ℕ
  match_operator op i = if leb (length input) i then (false, i) else elim (get_elem? input i) [
    | none ↦ (false, i)
    | some c ↦ if c == op then (true, bump i) else (false, i)
  ]

  unfoldable pub term : ℕ → Parsed Node
  term i = peek i >>= λ token j.
      if is_digit token then ok (number (token - 48)) j else number_expected token

  unfoldable mutual
    pub multiplicative : ℕ → ℕ → Parsed Node
    multiplicative zero i = out_of_fuel
    multiplicative (suc f) i = term i >>= λ e j. multiplicative_loop f e j

    pub multiplicative_loop : ℕ → Node → ℕ → Parsed Node
    multiplicative_loop zero e i = out_of_fuel
    multiplicative_loop (suc f) e i =
        let (matched, j) = match_operator b'*' i in
        elim matched [
          | true ↦ multiplicative f j >>= λ r k. multiplicative_loop f (binary b'*' e r) k
          | false ↦ ok e j
        ]

  unfoldable pub additive_loop : ℕ → Node → ℕ → Parsed Node
  additive_loop zero e i = out_of_fuel
  additive_loop (suc f) e i =
      let (matched, j) = match_operator b'+' i in
      elim matched [
        | true ↦ multiplicative f j >>= λ r k. additive_loop f (binary b'+' e r) k
        | false ↦ ok e j
      ]

  unfoldable pub additive : ℕ → ℕ → Parsed Node
  additive f i = multiplicative f i >>= λ e j. additive_loop f e j

-- `Print`, for the values that a digit has.
unfoldable pub print : Node → List ℕ
print (number n) = (48 + n) ∷ []
print (binary op l r) = b'(' ∷ print l ++ b' ' ∷ op ∷ b' ' ∷ print r ++ b')' ∷ []

-- The constructor: it parses the text and prints the tree. The fuel is more than is needed.
unfoldable pub parser : List ℕ → Parsed (List ℕ)
parser input = additive input (2 * length input + 3) 0 >>= λ e i. ok (print e) i
