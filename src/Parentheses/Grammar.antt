-- ===== src/Parentheses/Grammar.antt =====
-- Balanced texts.
use mathlib.Core.List.{append_assoc, append-nil}
use zettelkasten_public_subs.Common.{
  ℕ, ◌≡◌, refl, ap, ◌∙◌, sym, subst, Bool, true, false, ◌||◌, ◌&&◌, List, [], ◌∷◌, ◌++◌, ◌==◌,
  arith, Bool-cases, inl, inr, ◌↔◌,
}
use zettelkasten_public_subs.Parentheses.{is_valid_from, is_valid}

abbrev is_open : ℕ → Bool
is_open c = (c == 40) || (c == 123) || (c == 91)

abbrev is_close : ℕ → Bool
is_close c = (c == 41) || (c == 125) || (c == 93)

abbrev pub matches : ℕ → ℕ → Bool
matches o c = ((o == 40) && (c == 41)) || ((o == 123) && (c == 125)) || ((o == 91) && (c == 93))

-- Every bracket is closed by one of its kind, in the right order.
pub data Balanced : List ℕ → Type 0 where
  nothing : Balanced []
  other :
      (c : ℕ) (cs : List ℕ) → (is_open c || is_close c) ≡ false → Balanced cs → Balanced (c ∷ cs)
  pair :
      (o c : ℕ) (us vs : List ℕ)
      → matches o c ≡ true
      → Balanced us
      → Balanced vs
      → Balanced (o ∷ us ++ c ∷ vs)

-- One step of the loop at an opening bracket, and at one that closes the top of the stack.
open_step :
    (o : ℕ) (parens cs : List ℕ)
    → is_open o ≡ true
    → is_valid_from parens (o ∷ cs) ≡ is_valid_from (o ∷ parens) cs
unfolding is_valid_from
open_step o parens cs e = rw e refl

close_step :
    (o c : ℕ) (parens cs : List ℕ)
    → matches o c ≡ true
    → is_valid_from (o ∷ parens) (c ∷ cs) ≡ is_valid_from parens cs
unfolding is_valid_from
close_step o c parens cs e = ground arith

skip-Balanced :
    (us vs parens : List ℕ)
    → Balanced us
    → is_valid_from parens (us ++ vs) ≡ is_valid_from parens vs
unfolding is_valid_from
skip-Balanced _ vs parens nothing = refl
skip-Balanced _ vs parens (other c cs plain b) = ground (arith, skip-Balanced cs vs parens b)
skip-Balanced _ ws parens (pair o c us vs e a b) =
    let inner = skip-Balanced us (c ∷ (vs ++ ws)) (o ∷ parens) a in
    open_step o parens ((us ++ c ∷ vs) ++ ws) (ground arith)
    ∙ ap (is_valid_from (o ∷ parens)) (append_assoc us (c ∷ vs) ws)
    ∙ inner
    ∙ close_step o c parens (vs ++ ws) e
    ∙ skip-Balanced vs ws parens b

-- A text that closes the brackets of a stack and is balanced besides.
abbrev Closes : List ℕ → List ℕ → Type 0
Closes [] cs = Balanced cs
Closes (o ∷ parens) cs =
    (us : List ℕ) × (c : ℕ) × (vs : List ℕ) × (cs ≡ us ++ c ∷ vs)
    × (matches o c ≡ true)
    × Balanced us
    × Closes parens vs

-- What a step that goes on to `true` did with its character.
data Step (parens : List ℕ) (c : ℕ) (cs : List ℕ) : Type 0 where
  opened : is_open c ≡ true → is_valid_from (c ∷ parens) cs ≡ true → Step parens c cs
  closed :
      (o : ℕ) (rest : List ℕ)
      → parens ≡ o ∷ rest
      → matches o c ≡ true
      → is_valid_from rest cs ≡ true
      → Step parens c cs
  skipped : (is_open c || is_close c) ≡ false → is_valid_from parens cs ≡ true → Step parens c cs

Step-cases :
    (parens : List ℕ) (c : ℕ) (cs : List ℕ)
    → is_valid_from parens (c ∷ cs) ≡ true
    → Step parens c cs
unfolding is_valid_from
Step-cases parens c cs e = elim (Bool-cases (is_open c)) [
  | inl o ↦ opened o (ground arith)
  | inr no_open ↦ elim (Bool-cases (is_close c)) [
    | inr plain ↦ skipped (ground arith) (ground arith)
    | inl close ↦ go parens close e
  ]
]
  where
    go : (ps : List ℕ) → is_close c ≡ true → is_valid_from ps (c ∷ cs) ≡ true → Step ps c cs
    go [] close e = ground arith
    go (o ∷ ps) close e = closed o ps refl (ground arith) (ground arith)

-- What may stand before a text that closes the brackets of a stack.
other-Closes :
    (parens : List ℕ) (c : ℕ) (cs : List ℕ)
    → (is_open c || is_close c) ≡ false
    → Closes parens cs
    → Closes parens (c ∷ cs)
other-Closes [] c cs plain b = other c cs plain b
other-Closes (o ∷ parens) c cs plain (us, d, vs, e, m, b, k) =
    (c ∷ us, d, vs, ap (◌∷◌ c) e, m, other c us plain b, k)

pair-Closes :
    (parens : List ℕ) (o c : ℕ) (us vs : List ℕ)
    → matches o c ≡ true
    → Balanced us
    → Closes parens vs
    → Closes parens (o ∷ us ++ c ∷ vs)
pair-Closes [] o c us vs m b k = pair o c us vs m b k
pair-Closes (p ∷ parens) o c us vs m b (ws, d, rest, e, n, b', k) = (
  o ∷ us ++ c ∷ ws,
  d,
  rest,
  ap (◌∷◌ o) (ap (λ v. us ++ c ∷ v) e ∙ sym (append_assoc us (c ∷ ws) (d ∷ rest))),
  n,
  pair o c us ws m b b',
  k,
)

valid-Closes : (cs parens : List ℕ) → is_valid_from parens cs ≡ true → Closes parens cs
unfolding is_valid_from
valid-Closes [] [] e = nothing
valid-Closes [] (o ∷ parens) e = cc
valid-Closes (c ∷ cs) parens e = elim (Step-cases parens c cs e) [
  | opened o rest ↦
      let (us, d, vs, split, m, b, k) = valid-Closes cs (c ∷ parens) rest in
      subst (λ ds. Closes parens (c ∷ ds)) (sym split) (pair-Closes parens c d us vs m b k)
  | closed o below top m rest ↦
      subst (λ ps. Closes ps (c ∷ cs)) (sym top)
        ([], c, cs, refl, m, nothing, valid-Closes cs below rest)
  | skipped plain rest ↦ other-Closes parens c cs plain (valid-Closes cs parens rest)
]

-- `is_valid` accepts exactly the texts in which every bracket is closed by one of its kind and in
-- the right order; characters that are no brackets do not count.
pub is_valid_lem : (cs : List ℕ) → (is_valid cs ≡ true) ↔ Balanced cs
unfolding is_valid is_valid_from
is_valid_lem cs = (
  valid-Closes cs [],
  λ b. ap (is_valid_from []) (sym (append-nil cs)) ∙ skip-Balanced cs [] [] b,
)
