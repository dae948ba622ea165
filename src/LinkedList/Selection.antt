-- ===== src/LinkedList/Selection.antt =====
-- What the loops of `sort` do to the values: selection by exchange, with the nodes left in place.
use zettelkasten_public_subs.Common.{
  ℕ, zero, suc, ◌≤◌, ◌≡◌, refl, ◌∙◌, true, false, List, [], ◌∷◌, map, arith, if◌then◌else◌, length,
  ℤ, ◌≤ℤ◌, ltb_ℤ, count, AllAbove, IsSorted,
}
use zettelkasten_public_subs.LinkedList.Chains.{Cells, has, first, last}
use zettelkasten_public_subs.LinkedList.Nodes.{Ptr}

-- One run of the inner loop over the cells behind the watched one: the value that the watched node
-- gets, and the cells after it.
unfoldable pub pass : ℤ → Cells → ℤ × Cells
pass x [] = (x, [])
pass x ((q, y) ∷ xs) =
    let swapped = pass y xs in
    let kept = pass x xs in
    if ltb_ℤ y x then (swapped.0, (q, x) ∷ swapped.1) else (kept.0, (q, y) ∷ kept.1)

unfoldable pub sorted_cells : ℕ → Cells → Cells
sorted_cells zero xs = xs
sorted_cells (suc k) [] = []
sorted_cells (suc k) ((p, x) ∷ xs) = let r = pass x xs in (p, r.0) ∷ sorted_cells k r.1

abbrev pub values : Cells → List ℤ
values = map (λ c. c.1)

pub has-pass : (b : Ptr) (x : ℤ) (xs : Cells) → has b (pass x xs).1 ≡ has b xs
unfolding pass
has-pass b x [] = refl
has-pass b x ((q, y) ∷ xs) = ground (arith, has-pass b x xs, has-pass b y xs)

pub first-pass : (x : ℤ) (xs : Cells) (p : Ptr) → first (pass x xs).1 p ≡ first xs p
unfolding pass
first-pass x [] p = refl
first-pass x ((q, y) ∷ xs) p = ground arith

last-pass : (x : ℤ) (xs : Cells) (p : Ptr) → last p (pass x xs).1 ≡ last p xs
unfolding pass
last-pass x [] p = refl
last-pass x ((q, y) ∷ xs) p = ground (arith, last-pass x xs q, last-pass y xs q)

pub length-pass : (x : ℤ) (xs : Cells) → length (pass x xs).1 ≡ length xs
unfolding pass
length-pass x [] = refl
length-pass x ((q, y) ∷ xs) = ground (arith, length-pass x xs, length-pass y xs)

count-pass :
    (v x : ℤ) (xs : Cells)
    → count v ((pass x xs).0 ∷ values (pass x xs).1) ≡ count v (x ∷ values xs)
unfolding pass count
count-pass v x [] = refl
count-pass v x ((q, y) ∷ xs) = ground (arith, count-pass v x xs, count-pass v y xs)

-- The watched node ends with a least value.
pass-AllAbove :
    (a x : ℤ) (xs : Cells)
    → a ≤ℤ x
    → AllAbove a (values xs)
    → (a ≤ℤ (pass x xs).0) × AllAbove a (values (pass x xs).1)
unfolding pass
pass-AllAbove a x [] h k = (h, tt)
pass-AllAbove a x ((q, y) ∷ xs) h k = ground (arith, pass-AllAbove a x xs, pass-AllAbove a y xs)

pass_least :
    (x : ℤ) (xs : Cells) → ((pass x xs).0 ≤ℤ x) × AllAbove (pass x xs).0 (values (pass x xs).1)
unfolding pass
pass_least x [] = (omega arith, tt)
pass_least x ((q, y) ∷ xs) = ground (arith, pass_least x xs, pass_least y xs)

sorted_cells-AllAbove :
    (k : ℕ) (a : ℤ) (xs : Cells) → AllAbove a (values xs) → AllAbove a (values (sorted_cells k xs))
unfolding sorted_cells
sorted_cells-AllAbove zero a xs h = h
sorted_cells-AllAbove (suc k) a [] h = h
sorted_cells-AllAbove (suc k) a ((p, x) ∷ xs) h =
    let (low, rest) = pass-AllAbove a x xs h.0 h.1 in
    (low, sorted_cells-AllAbove k a (pass x xs).1 rest)

pub sorted_cells-IsSorted :
    (k : ℕ) (xs : Cells) → length xs ≤ k → IsSorted (values (sorted_cells k xs))
unfolding sorted_cells
sorted_cells-IsSorted zero [] h = tt
sorted_cells-IsSorted zero (x ∷ xs) h = absurd (omega arith)
sorted_cells-IsSorted (suc k) [] h = tt
sorted_cells-IsSorted (suc k) ((p, x) ∷ xs) h = (
  sorted_cells-AllAbove k (pass x xs).0 (pass x xs).1 (pass_least x xs).1,
  sorted_cells-IsSorted k (pass x xs).1 (omega (arith, length-pass x xs)),
)

pub count-sorted_cells :
    (v : ℤ) (k : ℕ) (xs : Cells) → count v (values (sorted_cells k xs)) ≡ count v (values xs)
unfolding sorted_cells count
count-sorted_cells v zero xs = refl
count-sorted_cells v (suc k) [] = refl
count-sorted_cells v (suc k) ((p, x) ∷ xs) =
    omega (arith, count-sorted_cells v k (pass x xs).1, count-pass v x xs)

pub has-sorted_cells : (b : Ptr) (k : ℕ) (xs : Cells) → has b (sorted_cells k xs) ≡ has b xs
unfolding sorted_cells
has-sorted_cells b zero xs = refl
has-sorted_cells b (suc k) [] = refl
has-sorted_cells b (suc k) ((p, x) ∷ xs) =
    ground (arith, has-sorted_cells b k (pass x xs).1, has-pass b x xs)

pub first-sorted_cells : (k : ℕ) (xs : Cells) (p : Ptr) → first (sorted_cells k xs) p ≡ first xs p
unfolding sorted_cells
first-sorted_cells zero xs p = refl
first-sorted_cells (suc k) [] p = refl
first-sorted_cells (suc k) ((q, x) ∷ xs) p = refl

pub last-sorted_cells : (k : ℕ) (xs : Cells) (p : Ptr) → last p (sorted_cells k xs) ≡ last p xs
unfolding sorted_cells
last-sorted_cells zero xs p = refl
last-sorted_cells (suc k) [] p = refl
last-sorted_cells (suc k) ((q, x) ∷ xs) p = last-sorted_cells k (pass x xs).1 q ∙ last-pass x xs q

pub length-sorted_cells : (k : ℕ) (xs : Cells) → length (sorted_cells k xs) ≡ length xs
unfolding sorted_cells
length-sorted_cells zero xs = refl
length-sorted_cells (suc k) [] = refl
length-sorted_cells (suc k) ((q, x) ∷ xs) =
    omega (arith, length-sorted_cells k (pass x xs).1, length-pass x xs)

pub pass_less :
    (x : ℤ) (q : Ptr) (y : ℤ) (xs : Cells)
    → ltb_ℤ y x ≡ true
    → pass x ((q, y) ∷ xs) ≡ ((pass y xs).0, (q, x) ∷ (pass y xs).1)
unfolding pass
pass_less x q y xs e = rw e

pub pass_not_less :
    (x : ℤ) (q : Ptr) (y : ℤ) (xs : Cells)
    → ltb_ℤ y x ≡ false
    → pass x ((q, y) ∷ xs) ≡ ((pass x xs).0, (q, y) ∷ (pass x xs).1)
unfolding pass
pass_not_less x q y xs e = rw e
