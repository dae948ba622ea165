-- ===== src/Parser/Sound/Products.antt =====
-- What a run of `multiplicative` has read.
use zettelkasten_public_subs.Common.{
  ℕ, zero, suc, ◌+◌, ◌-◌, ◌^◌, ◌<◌, ◌≡◌, refl, sym, ap, ◌∙◌, subst, Bool, true, false, List, [],
  ◌∷◌, ◌++◌, arith, if◌then◌else◌, length, drop,
}
use zettelkasten_public_subs.Parser.{
  Node, number, binary, Parsed, ok, number_expected, out_of_range, is_digit, match_operator, term,
  multiplicative, multiplicative_loop, ◌>>=◌,
}
use zettelkasten_public_subs.Parser.Input.{
  starts, match_operator-true, match_operator-false, term_digit, term_end,
}
use zettelkasten_public_subs.Parser.Reads.{
  multiplicative_loop_stop, starts_nil, product_text, product_tree, AreDigits,
}
use zettelkasten_public_subs.Common.{◌⊎◌, inl, inr, Bool-cases, zero}

-- The products of a loop that has read `ds` behind a factor.
unfoldable pub factors_text : List ℕ → List ℕ
factors_text [] = []
factors_text (x ∷ xs) = b'*' ∷ product_text x xs

factors-product : (d : ℕ) (ds : List ℕ) → product_text d ds ≡ (48 + d) ∷ factors_text ds
unfolding product_text factors_text
factors-product d [] = refl
factors-product d (x ∷ xs) = refl

-- A run that kept within its fuel, and what holds of its value if it has one.
pub data Ensures {A : Type 0} (P : A → ℕ → Type 0) : Parsed A → Type 0 where
  returns : {a : A} {i : ℕ} → P a i → Ensures P (ok a i)
  not_digit : {c : ℕ} → is_digit c ≡ false → Ensures P (number_expected c)
  at_end : Ensures P out_of_range

pub Ensures-bind :
    {A B : Type 0} {P : A → ℕ → Type 0} {Q : B → ℕ → Type 0} {r : Parsed A} {f : A → ℕ → Parsed B}
    → Ensures P r
    → ((a : A) (i : ℕ) → P a i → Ensures Q (f a i))
    → Ensures Q (r >>= f)
Ensures-bind (returns {a} {i} h) k = k a i h
Ensures-bind (not_digit h) k = not_digit h
Ensures-bind at_end k = at_end

pub Ensures-map :
    {A : Type 0} {P Q : A → ℕ → Type 0} {r : Parsed A}
    → ((a : A) (i : ℕ) → P a i → Q a i)
    → Ensures P r
    → Ensures Q r
Ensures-map k (returns {a} {i} h) = returns (k a i h)
Ensures-map k (not_digit h) = not_digit h
Ensures-map k at_end = at_end

-- The first character that is left, and the rest.
drop-cases :
    (xs : List ℕ) (i : ℕ) → (drop i xs ≡ []) ⊎ ((c : ℕ) × (drop i xs ≡ c ∷ drop (suc i) xs))
drop-cases [] zero = inl refl
drop-cases [] (suc i) = inl refl
drop-cases (x ∷ xs) zero = inr (x, refl)
drop-cases (x ∷ xs) (suc i) = drop-cases xs i

starts_true : (op : ℕ) (c : ℕ) (rest : List ℕ) → starts op (c ∷ rest) ≡ true → c ≡ op
unfolding starts
starts_true op c rest h = ground arith

module _ (input : List ℕ) (short : length input < 2 ^ 32) where
  abbrev pub Matches : ℕ → ℕ → Type 0
  Matches op i =
      ((match_operator input op i ≡ (true, suc i)) × (drop i input ≡ op ∷ drop (suc i) input))
      ⊎ ((match_operator input op i ≡ (false, i)) × (starts op (drop i input) ≡ false))

  pub match_cases : (op i : ℕ) → Matches op i
  match_cases op i = elim (Bool-cases (starts op (drop i input))) [
    | inr e ↦ inr (match_operator-false input short op i (drop i input) refl e, e)
    | inl e ↦ elim (drop-cases input i) [
      | inl empty ↦ absurd (cc (e, ap (starts op) empty, starts_nil op))
      | inr (c, h) ↦
          let same = starts_true op c (drop (suc i) input) (ap (starts op) (sym h) ∙ e) in
          let found : drop i input ≡ op ∷ drop (suc i) input =
            h ∙ ap (λ x. x ∷ drop (suc i) input) same in
          inl (match_operator-true input short op i found, found)
    ]
  ]

  -- A digit.
  abbrev IsTerm : ℕ → Node → ℕ → Type 0
  IsTerm i e j =
      (d : ℕ) × (d < 10)
      × (e ≡ number d)
      × (j ≡ suc i)
      × (drop i input ≡ (48 + d) ∷ drop (suc i) input)

  digit_value : (c : ℕ) → is_digit c ≡ true → (c - 48 < 10) × (c ≡ 48 + (c - 48))
  unfolding is_digit
  digit_value c h = ground arith

  digit-Ensures :
      (i c : ℕ) (b : Bool)
      → is_digit c ≡ b
      → drop i input ≡ c ∷ drop (suc i) input
      → Ensures (IsTerm i) (if b then ok (number (c - 48)) (suc i) else number_expected c)
  digit-Ensures i c false e h = not_digit e
  digit-Ensures i c true e h =
      let (small, same) = digit_value c e in
      returns (c - 48, small, refl, refl, h ∙ ap (λ x. x ∷ drop (suc i) input) same)

  term-Ensures : (i : ℕ) → Ensures (IsTerm i) (term input i)
  term-Ensures i = elim (drop-cases input i) [
    | inl e ↦ subst (Ensures (IsTerm i)) (sym (term_end input short i e)) at_end
    | inr (c, e) ↦
        subst (Ensures (IsTerm i)) (sym (term_digit input short i e))
          (digit-Ensures i c (is_digit c) refl e)
  ]

  -- A product was read, and no factor follows.
  pub record IsProduct (i : ℕ) (e : Node) (j : ℕ) : Type 0 where
    pub first : ℕ
    pub others : List ℕ
    pub digit : first < 10
    pub digits : AreDigits others
    pub tree : e ≡ product_tree first others
    pub reads : drop i input ≡ product_text first others ++ drop j input
    pub ended : starts b'*' (drop j input) ≡ false

  record AreFactors (d i : ℕ) (e : Node) (j : ℕ) : Type 0 where
    others : List ℕ
    digits : AreDigits others
    tree : e ≡ product_tree d others
    reads : drop i input ≡ factors_text others ++ drop j input
    ended : starts b'*' (drop j input) ≡ false

  loop_ends :
      (f : ℕ) (e : Node) (i : ℕ)
      → starts b'*' (drop i input) ≡ false
      → multiplicative_loop input (suc f) e i ≡ ok e i
  loop_ends f e i h =
      multiplicative_loop_stop input short f e i
        (match_operator-false input short b'*' i (drop i input) refl h)

  multiplicative_eq :
      (f i : ℕ)
      → multiplicative input (suc f) i ≡ (term input i >>= λ e j. multiplicative_loop input f e j)
  unfolding multiplicative
  multiplicative_eq f i = refl

  loop_true :
      (f : ℕ) (e : Node) (i : ℕ) {j : ℕ}
      → match_operator input b'*' i ≡ (true, j)
      → multiplicative_loop input (suc f) e i
        ≡ (multiplicative input f j >>= λ r k. multiplicative_loop input f (binary b'*' e r) k)
  unfolding multiplicative_loop
  loop_true f e i m = ground (arith, m)

  more_factors :
      (d i : ℕ) (r : Node) (k : ℕ)
      → drop i input ≡ b'*' ∷ drop (suc i) input
      → IsProduct (suc i) r k
      → AreFactors d i (binary b'*' (number d) r) k
  unfolding product_tree factors_text
  more_factors d i r k h p = record {
    others = p.first ∷ p.others;
    digits = (p.digit, p.digits);
    tree = ap (binary b'*' (number d)) p.tree;
    reads = h ∙ ap (λ l. b'*' ∷ l) p.reads;
    ended = p.ended;
  }

  -- The rounds behind a factor, given what the recursive call does.
  loop_more :
      (f d i : ℕ)
      → match_operator input b'*' i ≡ (true, suc i)
      → drop i input ≡ b'*' ∷ drop (suc i) input
      → Ensures (IsProduct (suc i)) (multiplicative input (suc f) (suc i))
      → Ensures (AreFactors d i) (multiplicative_loop input (suc (suc f)) (number d) i)
  loop_more f d i m h q =
      subst (Ensures (AreFactors d i)) (sym (loop_true (suc f) (number d) i m)) (
        Ensures-bind q λ r k p.
          subst (Ensures (AreFactors d i)) (sym (loop_ends f (binary b'*' (number d) r) k p.ended))
            (returns (more_factors d i r k h p)))

  loop_stop :
      (f d i : ℕ)
      → match_operator input b'*' i ≡ (false, i)
      → starts b'*' (drop i input) ≡ false
      → Ensures (AreFactors d i) (multiplicative_loop input (suc f) (number d) i)
  unfolding product_tree factors_text
  loop_stop f d i m h =
      subst (Ensures (AreFactors d i)) (sym (multiplicative_loop_stop input short f (number d) i m))
        (returns (record { others = []; digits = tt; tree = refl; reads = refl; ended = h }))

  -- The first digit before the factors.
  with_digit :
      (d i : ℕ) (e : Node) (j : ℕ)
      → d < 10
      → drop i input ≡ (48 + d) ∷ drop (suc i) input
      → AreFactors d (suc i) e j
      → IsProduct i e j
  with_digit d i e j small h p = record {
    first = d;
    others = p.others;
    digit = small;
    digits = p.digits;
    tree = p.tree;
    reads =
        h
        ∙ ap (λ l. (48 + d) ∷ l) p.reads
        ∙ ap (λ l. l ++ drop j input) (sym (factors-product d p.others));
    ended = p.ended;
  }

  pub length-drop-suc :
      (i : ℕ) {c : ℕ}
      → drop i input ≡ c ∷ drop (suc i) input
      → length (drop i input) ≡ suc (length (drop (suc i) input))
  length-drop-suc i h = ap (length {0}) h

  mutual
    pub multiplicative-Ensures :
        (f i : ℕ) → length (drop i input) + 1 < f → Ensures (IsProduct i) (multiplicative input f i)
    multiplicative-Ensures zero i enough = absurd (omega arith)
    multiplicative-Ensures (suc f) i enough =
        subst (Ensures (IsProduct i)) (sym (multiplicative_eq f i)) (
          Ensures-bind (term-Ensures i) λ e j (d, small, same, next, h).
            subst (λ (n : Node). Ensures (IsProduct i) (multiplicative_loop input f n j)) (sym same)
              (subst (λ (k : ℕ). Ensures (IsProduct i) (multiplicative_loop input f (number d) k))
                (sym next)
                (Ensures-map (λ e' k. with_digit d i e' k small h)
                  (loop-Ensures f d (suc i) (omega (arith, length-drop-suc i h))))))

    loop-Ensures :
        (f d i : ℕ)
        → length (drop i input) + 1 < f
        → Ensures (AreFactors d i) (multiplicative_loop input f (number d) i)
    loop-Ensures zero d i enough = absurd (omega arith)
    loop-Ensures (suc zero) d i enough = absurd (omega arith)
    loop-Ensures (suc (suc f)) d i enough = elim (match_cases b'*' i) [
      | inl (m, h) ↦
          loop_more f d i m h
            (multiplicative-Ensures (suc f) (suc i) (omega (arith, length-drop-suc i h)))
      | inr (m, h) ↦ loop_stop (suc f) d i m h
    ]
