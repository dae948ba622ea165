-- ===== src/Postfix/Rounds.antt =====
-- A round of the loop of `expr`.
use zettelkasten_public_subs.Common.{
  ℕ, suc, ◌≡◌, refl, ap, ◌∙◌, subst, true, false, List, [], ◌∷◌, ◌++◌,
}
use zettelkasten_public_subs.Postfix.{Parser, failed, is_digit, next, write, expr_loop, ◌>>=◌}
use mathlib.Core.List.{append_assoc}
use zettelkasten_public_subs.Postfix.Steps.{
  head_or, tail, is_op, Sees, next-Sees, next-output, taken, term_digit, term_other, taken-Sees,
  taken-output, loop_more,
}

pub no_digit :
    (old : ℕ) (ts : List ℕ)
    → is_digit (head_or old ts) ≡ true
    → is_digit old ≡ false
    → (d : ℕ) × (ts ≡ d ∷ tail ts) × (is_digit d ≡ true)
unfolding head_or tail
no_digit old [] h n = cc
no_digit old (d ∷ ts) h n = (d, refl, h)

pub has_op :
    (old : ℕ) (ts : List ℕ)
    → is_op (head_or old ts) ≡ true
    → is_op old ≡ false
    → (o : ℕ) × (ts ≡ o ∷ tail ts) × (is_op o ≡ true)
unfolding head_or tail
has_op old [] h n = cc
has_op old (o ∷ ts) h n = (o, refl, h)

pub calm_head :
    (old : ℕ) (ts : List ℕ)
    → is_op (head_or 0 ts) ≡ false
    → is_op old ≡ false
    → is_op (head_or old ts) ≡ false
unfolding head_or
calm_head old [] h n = n
calm_head old (c ∷ ts) h n = h

zero-no_op : is_op 0 ≡ false
unfolding is_op
zero-no_op = refl

pub calm_zero :
    (old : ℕ) (ts : List ℕ) → is_op (head_or old ts) ≡ false → is_op (head_or 0 ts) ≡ false
unfolding head_or
calm_zero old [] h = zero-no_op
calm_zero old (c ∷ ts) h = h

-- The state behind a round.
pub behind : Parser → Parser
behind p = write p.lookahead (taken (next p))

write-Sees : (c : ℕ) {old : ℕ} {p : Parser} {ts : List ℕ} → Sees old p ts → Sees old (write c p) ts
unfolding write
write-Sees c s = record { char = s.char; rest = s.rest }

write-output : (c : ℕ) (p : Parser) → (write c p).output ≡ p.output ++ c ∷ []
unfolding write
write-output c p = refl

pub record IsRound (f : ℕ) (p : Parser) (o d : ℕ) (ts : List ℕ) : Type 0 where
  pub goes_on : expr_loop (suc f) p ≡ expr_loop f (behind p)
  pub sees : Sees d (behind p) ts
  pub writes : (behind p).output ≡ p.output ++ d ∷ o ∷ []

pub IsRound-digit :
    (f old o d : ℕ) (p : Parser) (ts : List ℕ)
    → Sees old p (o ∷ d ∷ ts)
    → is_op o ≡ true
    → is_digit d ≡ true
    → IsRound f p o d ts
unfolding behind head_or tail
IsRound-digit f old o d p ts s is_o is_d =
    let char : p.lookahead ≡ o = s.char in
    let s' = next-Sees s in
    let digit : (next p).lookahead ≡ d = s'.char in
    let after = taken-Sees s' in
    record {
      goes_on =
          loop_more f p (ap is_op char ∙ is_o)
          ∙ ap (λ r. r >>= λ q. expr_loop f (write p.lookahead q))
              (term_digit (next p) (ap is_digit digit ∙ is_d));
      sees = write-Sees p.lookahead (subst (λ (c : ℕ). Sees c (taken (next p)) ts) digit after);
      writes =
          write-output p.lookahead (taken (next p))
          ∙ ap (λ l. l ++ p.lookahead ∷ [])
              (taken-output (next p) ∙ ap (λ l. l ++ (next p).lookahead ∷ []) (next-output p))
          ∙ append_assoc p.output ((next p).lookahead ∷ []) (p.lookahead ∷ [])
          ∙ ap (λ (c : ℕ). p.output ++ c ∷ p.lookahead ∷ []) digit
          ∙ ap (λ (c : ℕ). p.output ++ d ∷ c ∷ []) char;
    }

pub round_other :
    (f : ℕ) (p : Parser)
    → is_op p.lookahead ≡ true
    → is_digit (next p).lookahead ≡ false
    → expr_loop (suc f) p ≡ failed (next p)
round_other f p is_o not_d =
    loop_more f p is_o
    ∙ ap (λ r. r >>= λ q. expr_loop f (write p.lookahead q)) (term_other (next p) not_d)
