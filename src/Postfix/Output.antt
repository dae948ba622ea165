-- ===== src/Postfix/Output.antt =====
-- What the parser writes: for digits with `+` and `-` between them, and white space anywhere, the
-- postfix form of the expression.
use zettelkasten_public_subs.Common.{
  ℕ, zero, suc, ◌<◌, ◌≡◌, refl, sym, ap, ◌∙◌, subst, true, false, List, [], ◌∷◌, ◌++◌, length,
  arith, some,
}
use zettelkasten_public_subs.Postfix.{Parser, ok, is_digit, next, new_parser, expr_loop, expr}
use mathlib.Core.List.{append_assoc, append-nil}
use zettelkasten_public_subs.Postfix.Steps.{
  squeeze, head_or, tail, is_op, Sees, new_parser-Sees, taken, term_digit, taken-Sees, taken-output,
  loop_stop,
}
use zettelkasten_public_subs.Postfix.Forms.{
  Rest, infix_text, postfix_text, AreSteps, digit, grouped_left, rebuild, digit-no_op, rebuild_lem,
}
use zettelkasten_public_subs.Postfix.Rounds.{calm_head, behind, IsRound-digit}

-- The loop reads the steps up to where no operator stands.
loop-reads :
    (f old : ℕ) (p : Parser) (ps : Rest) (rest : List ℕ)
    → AreSteps ps
    → Sees old p (infix_text ps ++ rest)
    → is_op old ≡ false
    → is_op (head_or 0 rest) ≡ false
    → length ps < f
    → (q : Parser) × (expr_loop f p ≡ ok q)
      × (q.output ≡ p.output ++ postfix_text ps)
      × (squeeze q.input ≡ tail rest)
      × ((c : ℕ) (cs : List ℕ) → rest ≡ c ∷ cs → q.lookahead ≡ c)
unfolding infix_text postfix_text head_or
loop-reads zero old p ps rest all s calm last enough = absurd (omega arith)
loop-reads (suc f) old p [] rest all s calm last enough = (
  p,
  loop_stop f p (ap is_op s.char ∙ calm_head old rest last calm),
  sym (append-nil p.output),
  s.rest,
  λ c cs e. s.char ∙ ap (head_or old) e,
)
loop-reads (suc f) old p ((o, d) ∷ ps) rest (is_o, is_d, all) s calm last enough =
    let round = IsRound-digit f old o d p (infix_text ps ++ rest) s is_o is_d in
    let (q, e, out, left, char) =
      loop-reads f d (behind p) ps rest all round.sees (digit-no_op d is_d) last (omega arith) in
    (
      q,
      round.goes_on ∙ e,
      out
          ∙ ap (λ l. l ++ postfix_text ps) round.writes
          ∙ append_assoc p.output (d ∷ o ∷ []) (postfix_text ps),
      left,
      char,
    )

pub new_parser-output : (old : ℕ) (input : List ℕ) → (new_parser old input).output ≡ []
unfolding new_parser next
new_parser-output old input = refl

pub expr_eq : (f : ℕ) (p : Parser) → is_digit p.lookahead ≡ true → expr f p ≡ expr_loop f (taken p)
unfolding expr
expr_eq f p h = rw (term_digit p h, expr) refl

-- An expression of digits with `+` and `-` between them and white space anywhere, followed by the end
-- of the input or by anything but an operator, is read up to there: the character behind it, if there
-- is one, is the one that the parser looks at, and what follows that is still to be read. What the
-- parser writes is the postfix form of the expression: a machine with a stack rebuilds from it the
-- expression grouped to the left.
pub expr_lem :
    (f old d : ℕ) (ps : Rest) (input rest : List ℕ)
    → squeeze input ≡ d ∷ (infix_text ps ++ rest)
    → is_digit d ≡ true
    → AreSteps ps
    → is_op (head_or 0 rest) ≡ false
    → length ps < f
    → (q : Parser) × (expr f (new_parser old input) ≡ ok q)
      × (q.output ≡ d ∷ postfix_text ps)
      × (rebuild q.output [] ≡ some (grouped_left (digit d) ps ∷ []))
      × (squeeze q.input ≡ tail rest)
      × ((c : ℕ) (cs : List ℕ) → rest ≡ c ∷ cs → q.lookahead ≡ c)
unfolding head_or tail
expr_lem f old d ps input rest h is_d all last enough =
    let p = new_parser old input in
    let s = subst (λ ts. Sees old p ts) h (new_parser-Sees old input) in
    let char : p.lookahead ≡ d = s.char in
    let after = subst (λ (c : ℕ). Sees c (taken p) (infix_text ps ++ rest)) char (taken-Sees s) in
    let (q, e, out, left, seen) =
      loop-reads f d (taken p) ps rest all after (digit-no_op d is_d) last enough in
    let written : q.output ≡ d ∷ postfix_text ps =
      out
      ∙ ap (λ l. l ++ postfix_text ps) (taken-output p ∙ ap (λ (c : ℕ). p.output ++ c ∷ []) char)
      ∙ ap (λ l. l ++ d ∷ [] ++ postfix_text ps) (new_parser-output old input) in
    (
      q,
      expr_eq f p (ap is_digit char ∙ is_d) ∙ e,
      written,
      ap (λ l. rebuild l []) written ∙ rebuild_lem d ps is_d all,
      left,
      seen,
    )
