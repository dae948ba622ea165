-- ===== src/Parser/Input.antt =====
-- What the parser sees from an index on.
use zettelkasten_public_subs.Common.{
  ℕ, zero, suc, ◌-◌, ◌^◌, ◌≤◌, ◌<◌, ◌≡◌, refl, Bool, true, false, none, some, List, [], ◌∷◌, ◌==◌,
  arith, if◌then◌else◌, get_elem?, length, drop,
}
use zettelkasten_public_subs.Parser.{
  number, ok, number_expected, out_of_range, bump, is_digit, peek, match_operator, term,
}

pub drop-cons :
    (xs : List ℕ) (i : ℕ) {c : ℕ} {rest : List ℕ}
    → drop i xs ≡ c ∷ rest
    → (get_elem? xs i ≡ some c) × (i < length xs) × (drop (suc i) xs ≡ rest)
drop-cons [] zero h = cc
drop-cons [] (suc i) h = cc
drop-cons (x ∷ xs) zero h = (ground arith, omega arith, ground arith)
drop-cons (x ∷ xs) (suc i) h = let (a, b, c) = drop-cons xs i h in (a, omega arith, c)

pub drop-nil : (xs : List ℕ) (i : ℕ) → drop i xs ≡ [] → (get_elem? xs i ≡ none) × (length xs ≤ i)
drop-nil [] i h = (refl, omega arith)
drop-nil (x ∷ xs) zero h = cc
drop-nil (x ∷ xs) (suc i) h = let (a, b) = drop-nil xs i h in (a, omega arith)

-- What is left begins with the character.
unfoldable pub starts : ℕ → List ℕ → Bool
starts op [] = false
starts op (c ∷ rest) = c == op

module _ (input : List ℕ) (short : length input < 2 ^ 32) where
  bump_lem : (i : ℕ) → i < length input → bump i ≡ suc i
  unfolding bump
  bump_lem i h = omega arith

  pub peek-cons :
      (i : ℕ) {c : ℕ} {rest : List ℕ} → drop i input ≡ c ∷ rest → peek input i ≡ ok c (suc i)
  unfolding peek
  peek-cons i h =
      let (at, lt, left) = drop-cons input i h in rw (at, peek) (rw (bump_lem i lt) refl)

  pub match_operator-true :
      (op i : ℕ) {rest : List ℕ}
      → drop i input ≡ op ∷ rest
      → match_operator input op i ≡ (true, suc i)
  unfolding match_operator
  match_operator-true op i h =
      let (at, lt, left) = drop-cons input i h in ground (arith, at, bump_lem i lt)

  pub match_operator-false :
      (op i : ℕ) (rest : List ℕ)
      → drop i input ≡ rest
      → starts op rest ≡ false
      → match_operator input op i ≡ (false, i)
  unfolding match_operator starts
  match_operator-false op i [] h e = let (at, le) = drop-nil input i h in ground (arith, at)
  match_operator-false op i (c ∷ rest) h e =
      let (at, lt, left) = drop-cons input i h in ground (arith, at)

  pub term_digit :
      (i : ℕ) {c : ℕ} {rest : List ℕ}
      → drop i input ≡ c ∷ rest
      → term input i ≡ (if is_digit c then ok (number (c - 48)) (suc i) else number_expected c)
  unfolding term
  term_digit i h = rw (peek-cons i h) refl

  pub term_end : (i : ℕ) → drop i input ≡ [] → term input i ≡ out_of_range
  unfolding term peek
  term_end i h = rw ((drop-nil input i h).0, peek) refl
