-- ===== src/Postfix/Steps.antt =====
-- The steps of the parser on what it has before it.
use zettelkasten_public_subs.Common.{
  ℕ, suc, ◌≡◌, refl, ap, ◌∙◌, Bool, true, false, List, [], ◌∷◌, ◌++◌, ◌==◌, if◌then◌else◌, ◌||◌,
  arith,
}
use zettelkasten_public_subs.Postfix.{
  Parser, ok, failed, is_space, is_digit, read, next, new_parser, match, write, term, expr_loop,
  ◌>>=◌,
}

-- The characters but for white space.
unfoldable pub squeeze : List ℕ → List ℕ
squeeze [] = []
squeeze (c ∷ cs) = let rest = squeeze cs in if is_space c then rest else c ∷ rest

unfoldable pub head_or : ℕ → List ℕ → ℕ
head_or old [] = old
head_or old (c ∷ cs) = c

unfoldable pub tail : List ℕ → List ℕ
tail [] = []
tail (c ∷ cs) = cs

unfoldable pub is_op : ℕ → Bool
is_op c = c == b'+' || c == b'-'

read_lem :
    (old : ℕ) (cs : List ℕ)
    → ((read old cs).0 ≡ head_or old (squeeze cs)) × (squeeze (read old cs).1 ≡ tail (squeeze cs))
unfolding read squeeze head_or tail
read_lem old [] = (refl, refl)
read_lem old (c ∷ cs) = let (a, b) = read_lem old cs in ground (arith, a, b)

-- The parser has the characters `ts` before it, and `old` where there is none.
pub record Sees (old : ℕ) (p : Parser) (ts : List ℕ) : Type 0 where
  pub char : p.lookahead ≡ head_or old ts
  pub rest : squeeze p.input ≡ tail ts

pub next-Sees :
    {old : ℕ} {p : Parser} {ts : List ℕ} → Sees old p ts → Sees p.lookahead (next p) (tail ts)
unfolding next
next-Sees {p} s =
    let (a, b) = read_lem p.lookahead p.input in
    record { char = a ∙ ap (head_or p.lookahead) s.rest; rest = b ∙ ap tail s.rest }

pub new_parser-Sees : (old : ℕ) (input : List ℕ) → Sees old (new_parser old input) (squeeze input)
unfolding new_parser next
new_parser-Sees old input = let (a, b) = read_lem old input in record { char = a; rest = b }

pub next-output : (p : Parser) → (next p).output ≡ p.output
unfolding next
next-output p = refl

match_lem : (p : Parser) → match p.lookahead p ≡ ok (next p)
unfolding match
match_lem p = ground arith

-- The digit is written and the next character read.
pub taken : Parser → Parser
taken p = next (write p.lookahead p)

pub term_digit : (p : Parser) → is_digit p.lookahead ≡ true → term p ≡ ok (taken p)
unfolding term taken write
term_digit p h = rw (h, term) (match_lem (write p.lookahead p) ∙ refl)

pub term_other : (p : Parser) → is_digit p.lookahead ≡ false → term p ≡ failed p
unfolding term
term_other p h = rw (h, term) refl

pub taken-Sees :
    {old : ℕ} {p : Parser} {ts : List ℕ} → Sees old p ts → Sees p.lookahead (taken p) (tail ts)
unfolding taken write
taken-Sees {old} {p} {ts} s =
    next-Sees {old = old} {p = write p.lookahead p} (record { char = s.char; rest = s.rest })

pub taken-output : (p : Parser) → (taken p).output ≡ p.output ++ p.lookahead ∷ []
unfolding taken write
taken-output p = next-output (write p.lookahead p)

pub loop_stop : (f : ℕ) (p : Parser) → is_op p.lookahead ≡ false → expr_loop (suc f) p ≡ ok p
unfolding expr_loop is_op
loop_stop f p h = ground (arith, h)

pub loop_more :
    (f : ℕ) (p : Parser)
    → is_op p.lookahead ≡ true
    → expr_loop (suc f) p ≡ (term (next p) >>= λ r. expr_loop f (write p.lookahead r))
unfolding expr_loop is_op
loop_more f p h = ground (arith, h, match_lem p)
