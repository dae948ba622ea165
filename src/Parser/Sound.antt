-- ===== src/Parser/Sound.antt =====
-- Every text ends in a tree of what was read or in an exception, within the fuel.
pub mod Products
use zettelkasten_public_subs.Common.{
  ℕ, zero, suc, ◌+◌, ◌-◌, ◌*◌, ◌%◌, ◌^◌, ◌≤◌, ◌<◌, ◌≡◌, refl, sym, ap, ◌∙◌, subst, Bool, true,
  false, List, [], ◌∷◌, ◌++◌, ◌==◌, arith, if◌then◌else◌, length, drop, leb, ltb, length-append,
}
use zettelkasten_public_subs.Parser.{
  Node, number, binary, Parsed, ok, number_expected, out_of_range, out_of_fuel, bump, is_digit,
  peek, match_operator, term, multiplicative, multiplicative_loop, additive_loop, additive, print,
  parser, ◌>>=◌,
}
use zettelkasten_public_subs.Parser.Input.{
  drop-cons, drop-nil, starts, match_operator-true, match_operator-false, term_digit, term_end,
}
use mathlib.Core.List.{append_assoc, append-nil}
use zettelkasten_public_subs.Parser.Reads.{
  additive_loop_stop, multiplicative_step, multiplicative_loop_stop, multiplicative_loop_more,
  starts_nil, Product, product_text, product_tree, sum_text, sum_tree, AreDigits, AreProducts,
  written, grouped,
}
use zettelkasten_public_subs.Common.{◌⊎◌, inl, inr, Bool-cases, ==_iff, zero, none, get_elem?}
use zettelkasten_public_subs.Parser.Sound.Products.{
  Ensures, returns, not_digit, at_end, Ensures-bind, Ensures-map, match_cases, IsProduct,
  multiplicative-Ensures, length-drop-suc,
}

module _ (input : List ℕ) (short : length input < 2 ^ 32) where
  -- Sums behind a first product, and no operator follows.
  record AreSummands (e : Node) (i : ℕ) (r : Node) (j : ℕ) : Type 0 where
    others : List Product
    products : AreProducts others
    tree : r ≡ sum_tree e others
    reads : drop i input ≡ sum_text others ++ drop j input
    no_plus : starts b'+' (drop j input) ≡ false
    no_times : starts b'*' (drop j input) ≡ false

  summands_stop :
      (f : ℕ) (e : Node) (i : ℕ)
      → match_operator input b'+' i ≡ (false, i)
      → starts b'+' (drop i input) ≡ false
      → starts b'*' (drop i input) ≡ false
      → Ensures (AreSummands e i) (additive_loop input (suc f) e i)
  unfolding sum_tree sum_text
  summands_stop f e i m h g =
      subst (Ensures (AreSummands e i)) (sym (additive_loop_stop input short f e i m)) (
        returns (record {
          others = [];
          products = tt;
          tree = refl;
          reads = refl;
          no_plus = h;
          no_times = g;
        }))

  additive_loop-true :
      (f : ℕ) (e : Node) (i : ℕ) {j : ℕ}
      → match_operator input b'+' i ≡ (true, j)
      → additive_loop input (suc f) e i
        ≡ (multiplicative input f j >>= λ r k. additive_loop input f (binary b'+' e r) k)
  unfolding additive_loop
  additive_loop-true f e i m = ground (arith, m)

  more_summands :
      (e : Node) (i : ℕ) (r : Node) (k : ℕ) (e' : Node) (j : ℕ)
      → drop i input ≡ b'+' ∷ drop (suc i) input
      → IsProduct input short (suc i) r k
      → AreSummands (binary b'+' e r) k e' j
      → AreSummands e i e' j
  unfolding sum_tree sum_text
  more_summands e i r k e' j h p q = record {
    others = (p.first, p.others) ∷ q.others;
    products = (p.digit, p.digits, q.products);
    tree = q.tree ∙ ap (λ (n : Node). sum_tree (binary b'+' e n) q.others) p.tree;
    reads =
        h
        ∙ ap (λ l. b'+' ∷ l)
            (p.reads
              ∙ ap (λ l. product_text p.first p.others ++ l) q.reads
              ∙ sym (
                  append_assoc (product_text p.first p.others) (sum_text q.others) (drop j input)));
    no_plus = q.no_plus;
    no_times = q.no_times;
  }

  product-length :
      (i : ℕ) (r : Node) (k : ℕ)
      → IsProduct input short i r k
      → length (drop k input) ≤ length (drop i input)
  product-length i r k p = omega (
    arith,
    ap (length {0}) p.reads,
    length-append {A = ℕ} (product_text p.first p.others) (drop k input),
  )

  additive_loop-Ensures :
      (f : ℕ) (e : Node) (i : ℕ)
      → length (drop i input) + 1 < f
      → starts b'*' (drop i input) ≡ false
      → Ensures (AreSummands e i) (additive_loop input f e i)
  additive_loop-Ensures zero e i enough g = absurd (omega arith)
  additive_loop-Ensures (suc f) e i enough g = elim (match_cases input short b'+' i) [
    | inr (m, h) ↦ summands_stop f e i m h g
    | inl (m, h) ↦ subst (Ensures (AreSummands e i)) (sym (additive_loop-true f e i m)) (
        Ensures-bind
          (multiplicative-Ensures input short f (suc i)
            (omega (arith, length-drop-suc input short i h)))
          λ r k p.
            Ensures-map (λ e' j. more_summands e i r k e' j h p)
              (additive_loop-Ensures f (binary b'+' e r) k
                (omega (arith, length-drop-suc input short i h, product-length (suc i) r k p))
                p.ended))
  ]

-- What a text that the parser prints begins with.
abbrev pub IsReading : List ℕ → List ℕ → ℕ → Type 0
IsReading input printed j =
    (p : Product) × (ps : List Product) × AreProducts (p ∷ ps)
    × (printed ≡ print (grouped p ps))
    × (input ≡ written p ps ++ drop j input)
    × (starts b'+' (drop j input) ≡ false)
    × (starts b'*' (drop j input) ≡ false)

reading_lem :
    (input : List ℕ) (short : length input < 2 ^ 32) (r : Node) (k : ℕ) (e : Node) (j : ℕ)
    → IsProduct input short 0 r k
    → AreSummands input short r k e j
    → IsReading input (print e) j
unfolding written grouped
reading_lem input short r k e j p q = (
  (p.first, p.others),
  q.others,
  (p.digit, p.digits, q.products),
  ap print (q.tree ∙ ap (λ (n : Node). sum_tree n q.others) p.tree),
  p.reads
      ∙ ap (λ l. product_text p.first p.others ++ l) q.reads
      ∙ sym (append_assoc (product_text p.first p.others) (sum_text q.others) (drop j input)),
  q.no_plus,
  q.no_times,
)

bind_assoc :
    {A B C : Type 0} (r : Parsed A) (f : A → ℕ → Parsed B) (g : B → ℕ → Parsed C)
    → ((r >>= f) >>= g) ≡ (r >>= λ a i. f a i >>= g)
bind_assoc (ok a i) f g = refl
bind_assoc (number_expected c) f g = refl
bind_assoc out_of_range f g = refl
bind_assoc out_of_fuel f g = refl

parser_eq :
    (input : List ℕ)
    → parser input ≡ (
        multiplicative input (2 * length input + 3) 0 >>= λ r k.
        additive_loop input (2 * length input + 3) r k >>= λ e j. ok (print e) j)
unfolding parser additive
parser_eq input = bind_assoc (multiplicative input (2 * length input + 3) 0) _ _

-- On every text of less than 2 ^ 32 characters the parser ends: it prints the brackets of the tree,
-- with `+` grouped to the left and `*` to the right, of a sum of products of digits that the text begins with, up to the index where it stopped and
-- where no operator stands, or it throws at a character that is no digit, or at the end of the text.
pub parser-Ensures :
    (input : List ℕ) → length input < 2 ^ 32 → Ensures (IsReading input) (parser input)
parser-Ensures input short =
    let f = 2 * length input + 3 in
    subst (Ensures (IsReading input)) (sym (parser_eq input)) (
      Ensures-bind (multiplicative-Ensures input short f 0 (omega arith)) λ r k p.
        Ensures-bind
          (additive_loop-Ensures input short f r k
            (omega (arith, product-length input short 0 r k p)) p.ended)
          λ e j q. returns (reading_lem input short r k e j p q))
