-- ===== src/Postfix/Total.antt =====
-- Every input ends the parser, with an expression read or with the exception.
use zettelkasten_public_subs.Common.{
  ℕ, zero, suc, ◌<◌, ◌≡◌, refl, sym, ap, ◌∙◌, subst, true, false, List, [], ◌∷◌, ◌++◌, length,
  arith, Bool-cases, inl, inr,
}
use zettelkasten_public_subs.Postfix.{
  Parser, Outcome, ok, failed, is_digit, new_parser, expr_loop, expr,
}
use mathlib.Core.List.{append_assoc, append-nil}
use zettelkasten_public_subs.Postfix.Steps.{
  squeeze, head_or, tail, is_op, Sees, next-Sees, new_parser-Sees, taken, term_other, taken-Sees,
  taken-output, loop_stop,
}
use zettelkasten_public_subs.Postfix.Forms.{
  Rest, infix_text, postfix_text, AreSteps, digit-no_op, op-no_digit,
}
use zettelkasten_public_subs.Postfix.Rounds.{
  no_digit, has_op, calm_zero, behind, IsRound, IsRound-digit, round_other,
}
use zettelkasten_public_subs.Postfix.Output.{new_parser-output, expr_eq}

-- A run that kept within its fuel, and what holds of its end if it did not throw.
pub data Ensures (P : Parser → Type 0) : Outcome → Type 0 where
  returns : {p : Parser} → P p → Ensures P (ok p)
  throws : {p : Parser} → Ensures P (failed p)

-- The loop has read steps from `ts` and stands where no operator is.
record IsRead (p : Parser) (ts : List ℕ) (q : Parser) : Type 0 where
  steps : Rest
  rest : List ℕ
  valid : AreSteps steps
  reads : ts ≡ infix_text steps ++ rest
  ended : is_op (head_or 0 rest) ≡ false
  writes : q.output ≡ p.output ++ postfix_text steps

stop-IsRead : (p : Parser) (ts : List ℕ) → is_op (head_or 0 ts) ≡ false → IsRead p ts p
unfolding infix_text postfix_text
stop-IsRead p ts h = record {
  steps = [];
  rest = ts;
  valid = tt;
  reads = refl;
  ended = h;
  writes = sym (append-nil p.output);
}

more-IsRead :
    (p : Parser) (f o d : ℕ) (ts : List ℕ) (q : Parser)
    → is_op o ≡ true
    → is_digit d ≡ true
    → IsRound f p o d ts
    → IsRead (behind p) ts q
    → IsRead p (o ∷ d ∷ ts) q
unfolding infix_text postfix_text
more-IsRead p f o d ts q is_o is_d r h = record {
  steps = (o, d) ∷ h.steps;
  rest = h.rest;
  valid = (is_o, is_d, h.valid);
  reads = ap (λ l. o ∷ d ∷ l) h.reads;
  ended = h.ended;
  writes =
      h.writes
      ∙ ap (λ l. l ++ postfix_text h.steps) r.writes
      ∙ append_assoc p.output (d ∷ o ∷ []) (postfix_text h.steps);
}

Ensures-map :
    {P Q : Parser → Type 0} {r : Outcome} → ((p : Parser) → P p → Q p) → Ensures P r → Ensures Q r
Ensures-map k (returns {p} h) = returns (k p h)
Ensures-map k throws = throws

head_cons : (old c : ℕ) (ts : List ℕ) → head_or old (c ∷ ts) ≡ c
unfolding head_or
head_cons old c ts = refl

length-two :
    (f o d : ℕ) (ts ts' : List ℕ)
    → ts ≡ o ∷ ts'
    → ts' ≡ d ∷ tail ts'
    → length ts < suc f
    → length (tail ts') < f
length-two f o d ts ts' e e' h = omega (arith, ap (length {0}) e, ap (length {0}) e')

loop_op :
    (f old : ℕ) (p : Parser) (ts : List ℕ)
    → Sees old p ts
    → is_op old ≡ false
    → length ts < suc f
    → ((d : ℕ) (q : Parser) (us : List ℕ)
        → Sees d q us
        → is_op d ≡ false
        → length us < f
        → Ensures (IsRead q us) (expr_loop f q))
    → is_op (head_or old ts) ≡ true
    → Ensures (IsRead p ts) (expr_loop (suc f) p)
loop_op f old p ts s calm enough ih h =
    let (o, e, is_o) = has_op old ts h calm in
    let s' = subst (λ l. Sees old p l) e s in
    let char : p.lookahead ≡ o = s'.char ∙ head_cons old o (tail ts) in
    elim (Bool-cases (is_digit (head_or o (tail ts)))) [
      | inl y ↦
          let (d, e', is_d) = no_digit o (tail ts) y (op-no_digit o is_o) in
          let whole : ts ≡ o ∷ d ∷ tail (tail ts) = e ∙ ap (λ l. o ∷ l) e' in
          let round =
            IsRound-digit f old o d p (tail (tail ts)) (subst (λ l. Sees old p l) whole s) is_o
              is_d in
          subst (λ l. Ensures (IsRead p l) (expr_loop (suc f) p)) (sym whole)
            (subst (Ensures _) (sym round.goes_on) (
              Ensures-map (λ q r. more-IsRead p f o d (tail (tail ts)) q is_o is_d round r)
                (ih d (behind p) (tail (tail ts)) round.sees (digit-no_op d is_d)
                  (length-two f o d ts (tail ts) e e' enough))))
      | inr n ↦
          let next_char = (next-Sees s).char ∙ ap (λ (c : ℕ). head_or c (tail ts)) char in
          subst (Ensures (IsRead p ts))
            (sym (round_other f p (ap is_op char ∙ is_o) (ap is_digit next_char ∙ n))) throws
    ]

loop-Ensures :
    (f old : ℕ) (p : Parser) (ts : List ℕ)
    → Sees old p ts
    → is_op old ≡ false
    → length ts < f
    → Ensures (IsRead p ts) (expr_loop f p)
loop-Ensures zero old p ts s calm enough = absurd (omega arith)
loop-Ensures (suc f) old p ts s calm enough = elim (Bool-cases (is_op (head_or old ts))) [
  | inr h ↦
      subst (Ensures (IsRead p ts)) (sym (loop_stop f p (ap is_op s.char ∙ h)))
        (returns (stop-IsRead p ts (calm_zero old ts h)))
  | inl h ↦ loop_op f old p ts s calm enough (loop-Ensures f) h
]

-- What a run that did not throw has read and written.
abbrev pub IsExpr : List ℕ → Parser → Type 0
IsExpr input q =
    (d : ℕ) × (ps : Rest) × (rest : List ℕ) × (squeeze input ≡ d ∷ (infix_text ps ++ rest))
    × (is_digit d ≡ true)
    × AreSteps ps
    × (is_op (head_or 0 rest) ≡ false)
    × (q.output ≡ d ∷ postfix_text ps)

first-IsExpr :
    (old : ℕ) (input : List ℕ) (d : ℕ) (q : Parser)
    → squeeze input ≡ d ∷ tail (squeeze input)
    → is_digit d ≡ true
    → (new_parser old input).lookahead ≡ d
    → IsRead (taken (new_parser old input)) (tail (squeeze input)) q
    → IsExpr input q
first-IsExpr old input d q e is_d char r =
    let p = new_parser old input in
    (
      d,
      r.steps,
      r.rest,
      e ∙ ap (λ l. d ∷ l) r.reads,
      is_d,
      r.valid,
      r.ended,
      r.writes
          ∙ ap (λ l. l ++ postfix_text r.steps)
              (taken-output p ∙ ap (λ (c : ℕ). p.output ++ c ∷ []) char)
          ∙ ap (λ l. l ++ d ∷ [] ++ postfix_text r.steps) (new_parser-output old input),
    )

expr_other : (f : ℕ) (p : Parser) → is_digit p.lookahead ≡ false → expr f p ≡ failed p
unfolding expr
expr_other f p h = rw (term_other p h, expr) refl

-- Where the field did not hold a digit before, the parser ends on every input: it throws, or it has
-- read an expression of digits with `+` and `-` between them, white space left out, that no operator
-- follows, and has written its postfix form.
pub expr-Ensures :
    (f old : ℕ) (input : List ℕ)
    → is_digit old ≡ false
    → length (squeeze input) < f
    → Ensures (IsExpr input) (expr f (new_parser old input))
expr-Ensures f old input calm enough =
    let p = new_parser old input in
    let s = new_parser-Sees old input in
    elim (Bool-cases (is_digit (head_or old (squeeze input)))) [
      | inr n ↦
          subst (Ensures (IsExpr input)) (sym (expr_other f p (ap is_digit s.char ∙ n))) throws
      | inl y ↦
          let (d, e, is_d) = no_digit old (squeeze input) y calm in
          let char : p.lookahead ≡ d =
            s.char ∙ ap (head_or old) e ∙ head_cons old d (tail (squeeze input)) in
          let after =
            subst (λ (c : ℕ). Sees c (taken p) (tail (squeeze input))) char (taken-Sees s) in
          subst (Ensures (IsExpr input)) (sym (expr_eq f p (ap is_digit char ∙ is_d))) (
            Ensures-map (λ q r. first-IsExpr old input d q e is_d char r)
              (loop-Ensures f d (taken p) (tail (squeeze input)) after (digit-no_op d is_d)
                (omega (arith, ap (length {0}) e))))
    ]
