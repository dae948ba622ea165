-- ===== src/Parser/Reads.antt =====
-- The texts of sums of products of digits, their trees, and that the parser reads the one as the
-- other: `+` groups to the left, `*` to the right and closer.
use zettelkasten_public_subs.Common.{
  ℕ, zero, suc, ◌+◌, ◌-◌, ◌*◌, ◌^◌, ◌<◌, ◌≡◌, refl, ap, ◌∙◌, true, false, List, [], ◌∷◌, ◌++◌,
  arith, length, drop, length-append,
}
use zettelkasten_public_subs.Parser.{
  Node, number, binary, ok, is_digit, match_operator, term, multiplicative, multiplicative_loop,
  additive_loop, additive, print, parser,
}
use zettelkasten_public_subs.Parser.Input.{
  drop-cons, starts, match_operator-true, match_operator-false, term_digit,
}

-- A product: its first digit and the others.
abbrev pub Product : Type 0
Product = ℕ × List ℕ

unfoldable pub product_text : ℕ → List ℕ → List ℕ
product_text d [] = (48 + d) ∷ []
product_text d (x ∷ xs) = (48 + d) ∷ b'*' ∷ product_text x xs

unfoldable pub product_tree : ℕ → List ℕ → Node
product_tree d [] = number d
product_tree d (x ∷ xs) = binary b'*' (number d) (product_tree x xs)

-- The products behind the first.
unfoldable pub sum_text : List Product → List ℕ
sum_text [] = []
sum_text ((d, ds) ∷ ps) = b'+' ∷ product_text d ds ++ sum_text ps

unfoldable pub sum_tree : Node → List Product → Node
sum_tree e [] = e
sum_tree e ((d, ds) ∷ ps) = sum_tree (binary b'+' e (product_tree d ds)) ps

abbrev pub AreDigits : List ℕ → Type 0
AreDigits [] = Unit
AreDigits (d ∷ ds) = (d < 10) × AreDigits ds

abbrev pub AreProducts : List Product → Type 0
AreProducts [] = Unit
AreProducts ((d, ds) ∷ ps) = (d < 10) × AreDigits ds × AreProducts ps

drop-behind :
    (xs : List ℕ) (i : ℕ) (text rest : List ℕ)
    → drop i xs ≡ text ++ rest
    → drop (i + length text) xs ≡ rest
drop-behind xs i [] rest h = ap (λ n. drop n xs) (omega arith) ∙ h
drop-behind xs i (c ∷ text) rest h =
    ap (λ n. drop n xs) (omega arith) ∙ drop-behind xs (suc i) text rest (drop-cons xs i h).2

pub starts_nil : (op : ℕ) → starts op [] ≡ false
unfolding starts
starts_nil op = refl

pub length-product : (d : ℕ) (ds : List ℕ) → length (product_text d ds) ≡ 2 * length ds + 1
unfolding product_text
length-product d [] = omega arith
length-product d (x ∷ xs) = omega (arith, length-product x xs)

digit_lem : (d : ℕ) → d < 10 → (is_digit (48 + d) ≡ true) × ((48 + d) - 48 ≡ d)
unfolding is_digit
digit_lem d h = (ground arith, omega arith)

module _ (input : List ℕ) (short : length input < 2 ^ 32) where
  pub term_lem :
      (i d : ℕ) {rest : List ℕ}
      → d < 10
      → drop i input ≡ (48 + d) ∷ rest
      → term input i ≡ ok (number d) (suc i)
  term_lem i d h e =
      let (yes_digit, value) = digit_lem d h in
      term_digit input short i e ∙ rw yes_digit (rw value refl)

  pub multiplicative_step :
      (f i : ℕ) {e : Node} {j : ℕ}
      → term input i ≡ ok e j
      → multiplicative input (suc f) i ≡ multiplicative_loop input f e j
  unfolding multiplicative
  multiplicative_step f i h = rw (h, multiplicative) refl

  pub multiplicative_loop_stop :
      (f : ℕ) (e : Node) (i : ℕ) {j : ℕ}
      → match_operator input b'*' i ≡ (false, j)
      → multiplicative_loop input (suc f) e i ≡ ok e j
  unfolding multiplicative_loop
  multiplicative_loop_stop f e i h = ground (arith, h)

  pub multiplicative_loop_more :
      (f : ℕ) (e : Node) (i : ℕ) {j k : ℕ} {r : Node}
      → match_operator input b'*' i ≡ (true, j)
      → multiplicative input f j ≡ ok r k
      → multiplicative_loop input (suc f) e i ≡ multiplicative_loop input f (binary b'*' e r) k
  unfolding multiplicative_loop
  multiplicative_loop_more f e i h g = ground (arith, h, g)

  pub multiplicative-reads :
      (f i d : ℕ) (ds rest : List ℕ)
      → d < 10
      → AreDigits ds
      → drop i input ≡ product_text d ds ++ rest
      → starts b'*' rest ≡ false
      → 2 * length ds + 1 < f
      → multiplicative input f i ≡ ok (product_tree d ds) (i + length (product_text d ds))
  unfolding product_text product_tree
  multiplicative-reads zero i d ds rest hd hds h s enough = absurd (omega arith)
  multiplicative-reads (suc zero) i d ds rest hd hds h s enough = absurd (omega arith)
  multiplicative-reads (suc (suc f)) i d [] rest hd hds h s enough =
      let after = (drop-cons input i h).2 in
      multiplicative_step (suc f) i (term_lem i d hd h)
      ∙ multiplicative_loop_stop f (number d) (suc i)
          (match_operator-false input short b'*' (suc i) rest after s)
      ∙ ap (ok (number d)) (omega arith)
  multiplicative-reads (suc (suc zero)) i d (x ∷ xs) rest hd hds h s enough = absurd (omega arith)
  multiplicative-reads (suc (suc (suc f))) i d (x ∷ xs) rest hd hds h s enough =
      let after = (drop-cons input i h).2 in
      let behind = (drop-cons input (suc i) after).2 in
      let ih =
        multiplicative-reads (suc f) (suc (suc i)) x xs rest hds.0 hds.1 behind s (omega arith) in
      let k = suc (suc i) + length (product_text x xs) in
      multiplicative_step (suc (suc f)) i (term_lem i d hd h)
      ∙ multiplicative_loop_more (suc f) (number d) (suc i)
          (match_operator-true input short b'*' (suc i) after) ih
      ∙ multiplicative_loop_stop f (binary b'*' (number d) (product_tree x xs)) k (
          match_operator-false input short b'*' k rest
            (drop-behind input (suc (suc i)) (product_text x xs) rest behind) s)
      ∙ ap (ok (binary b'*' (number d) (product_tree x xs))) (omega arith)

  pub additive_loop_stop :
      (f : ℕ) (e : Node) (i : ℕ) {j : ℕ}
      → match_operator input b'+' i ≡ (false, j)
      → additive_loop input (suc f) e i ≡ ok e j
  unfolding additive_loop
  additive_loop_stop f e i h = ground (arith, h)

  additive_loop_more :
      (f : ℕ) (e : Node) (i : ℕ) {j k : ℕ} {r : Node}
      → match_operator input b'+' i ≡ (true, j)
      → multiplicative input f j ≡ ok r k
      → additive_loop input (suc f) e i ≡ additive_loop input f (binary b'+' e r) k
  unfolding additive_loop
  additive_loop_more f e i h g = ground (arith, h, g)

  -- A sum ends a product.
  sum-no_product : (ps : List Product) → starts b'*' (sum_text ps) ≡ false
  unfolding sum_text starts
  sum-no_product [] = refl
  sum-no_product ((d, ds) ∷ ps) = refl

  additive_loop-reads :
      (f : ℕ) (e : Node) (i : ℕ) (ps : List Product)
      → AreProducts ps
      → drop i input ≡ sum_text ps
      → 2 * length (sum_text ps) + 1 < f
      → additive_loop input f e i ≡ ok (sum_tree e ps) (i + length (sum_text ps))
  unfolding sum_text sum_tree
  additive_loop-reads zero e i ps all h enough = absurd (omega arith)
  additive_loop-reads (suc f) e i [] all h enough =
      additive_loop_stop f e i (match_operator-false input short b'+' i [] h (starts_nil b'+'))
      ∙ ap (ok e) (omega arith)
  additive_loop-reads (suc f) e i ((d, ds) ∷ ps) all h enough =
      let after = (drop-cons input i h).2 in
      let size = length-product d ds in
      let total = length-append {A = ℕ} (product_text d ds) (sum_text ps) in
      let one =
        multiplicative-reads f (suc i) d ds (sum_text ps) all.0 all.1 after (sum-no_product ps)
          (omega (arith, size, total)) in
      let k = suc i + length (product_text d ds) in
      let behind = drop-behind input (suc i) (product_text d ds) (sum_text ps) after in
      additive_loop_more f e i (match_operator-true input short b'+' i h) one
      ∙ additive_loop-reads f (binary b'+' e (product_tree d ds)) k ps all.2 behind
          (omega (arith, size, total))
      ∙ ap (ok (sum_tree (binary b'+' e (product_tree d ds)) ps)) (omega (arith, total))

additive_lem :
    (input : List ℕ) (f i : ℕ) {e r : Node} {j k : ℕ}
    → multiplicative input f i ≡ ok e j
    → additive_loop input f e j ≡ ok r k
    → additive input f i ≡ ok r k
unfolding additive
additive_lem input f i h g = rw (h, additive) g

-- The text of a sum, and the tree: `+` groups to the left, `*` to the right and closer.
unfoldable pub written : Product → List Product → List ℕ
written (d, ds) ps = product_text d ds ++ sum_text ps

unfoldable pub grouped : Product → List Product → Node
grouped (d, ds) ps = sum_tree (product_tree d ds) ps

-- The parser prints the text of every sum of products of digits, of less than 2 ^ 32 characters,
-- with the brackets of its tree, in which `+` groups to the left and `*` groups to the right and
-- binds closer, and it stops behind the last character. That `*` groups to the right is what the
-- code does; the grammar of the notes groups it to the left.
pub parser_lem :
    (p : Product) (ps : List Product)
    → AreProducts (p ∷ ps)
    → length (written p ps) < 2 ^ 32
    → parser (written p ps) ≡ ok (print (grouped p ps)) (length (written p ps))
unfolding parser written grouped
parser_lem (d, ds) ps all short =
    let input = product_text d ds ++ sum_text ps in
    let size = length-product d ds in
    let total = length-append {A = ℕ} (product_text d ds) (sum_text ps) in
    let f = 2 * length input + 3 in
    let one =
      multiplicative-reads input short f 0 d ds (sum_text ps) all.0 all.1 refl
        (sum-no_product input short ps) (omega (arith, size, total)) in
    let k = 0 + length (product_text d ds) in
    let more =
      additive_loop-reads input short f (product_tree d ds) k ps all.2
        (drop-behind input 0 (product_text d ds) (sum_text ps) refl) (omega (arith, size, total)) in
    rw (additive_lem input f 0 one more)
      (ap (ok (print (sum_tree (product_tree d ds) ps))) (omega (arith, total)))
