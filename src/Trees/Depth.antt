-- ===== src/Trees/Depth.antt =====
-- `max_depth` (tree_height.cpp, and again in avl.cpp, second_tree_maximum.cpp and frequency.cpp)
-- and `check_if_avl` (avl.cpp). A depth counts nodes in memory, so its `int` does not overflow.
use mathlib.Core.Option
use native.Mathlib.Numerals.{add-one}
use zettelkasten_public_subs.Common.{
  ℕ, zero, suc, ◌+◌, ◌-◌, ◌≤◌, ◌≡◌, refl, ◌↔◌, inl, inr, Bool, true, false, ◌&&◌, Option, some,
  List, arith, ltb, leb, if◌then◌else◌, Bool-cases, ℤ,
}
use zettelkasten_public_subs.Trees.{Tree, null, node, read_tree}
use zettelkasten_public_subs.Trees.Order.{Subtree, here, left, right}

unfoldable pub max_depth : Tree → ℕ
max_depth null = 0
max_depth (node v l r) =
    let l_depth = max_depth l in
    let r_depth = max_depth r in if ltb r_depth l_depth then l_depth + 1 else r_depth + 1

-- `abs(left - right)` of two depths
unfoldable pub abs_diff : ℕ → ℕ → ℕ
abs_diff a b = if ltb a b then b - a else a - b

unfoldable pub check_if_avl : Tree → Bool
check_if_avl null = true
check_if_avl (node v l r) =
    let below = check_if_avl l && check_if_avl r in
    if leb (abs_diff (max_depth l) (max_depth r)) 1 then below else false

-- `main` of tree_height.cpp prints the depth, that of avl.cpp `YES` for true and `NO` for false.
unfoldable pub tree_height_main : List ℤ → Option ℕ
tree_height_main input = Option.map max_depth (read_tree null input)

unfoldable pub avl_main : List ℤ → Option Bool
avl_main input = Option.map check_if_avl (read_tree null input)

-- A walk down from the root over `n` nodes.
pub data Branch : Tree → ℕ → Type 0 where
  stop : (t : Tree) → Branch t zero
  go_left : {v : ℤ} {l r : Tree} {n : ℕ} → Branch l n → Branch (node v l r) (suc n)
  go_right : {v : ℤ} {l r : Tree} {n : ℕ} → Branch r n → Branch (node v l r) (suc n)

Branch-depth : (t : Tree) → Branch t (max_depth t)
unfolding max_depth
Branch-depth null = stop null
Branch-depth (node v l r) = elim (Bool-cases (ltb (max_depth r) (max_depth l))) [
  | inl deeper ↦ rw (deeper, add-one) (go_left (Branch-depth l))
  | inr not_deeper ↦ rw (not_deeper, add-one) (go_right (Branch-depth r))
]

Branch-le : (t : Tree) {n : ℕ} → Branch t n → n ≤ max_depth t
unfolding max_depth
Branch-le t (stop _) = omega arith
Branch-le (node v l r) (go_left b) = ground (arith, Branch-le l b)
Branch-le (node v l r) (go_right b) = ground (arith, Branch-le r b)

-- tree_height.cpp: the program prints the number of nodes on a longest walk down from the root of
-- the tree `t` that it read.
pub tree_height_main_lem :
    (input : List ℤ) (t : Tree)
    → read_tree null input ≡ some t
    → (depth : ℕ) × (tree_height_main input ≡ some depth)
      × Branch t depth
      × ((n : ℕ) → Branch t n → n ≤ depth)
unfolding tree_height_main
tree_height_main_lem input t got = (max_depth t, rw got, Branch-depth t, λ n b. Branch-le t b)

-- The number of nodes on a longest walk down from the root.
pub record Height (t : Tree) (n : ℕ) : Type 0 where
  pub walk : Branch t n
  pub longest : (m : ℕ) → Branch t m → m ≤ n

max_depth-Height : (t : Tree) → Height t (max_depth t)
max_depth-Height t = record { walk = Branch-depth t; longest = λ m b. Branch-le t b }

Height-max_depth : (t : Tree) (n : ℕ) → Height t n → n ≡ max_depth t
Height-max_depth t n h = omega (arith, Branch-le t h.walk, h.longest (max_depth t) (Branch-depth t))

-- The heights of the two children differ by one at most.
pub record IsBalanced (l r : Tree) : Type 0 where
  pub left_depth : ℕ
  pub right_depth : ℕ
  pub left_height : Height l left_depth
  pub right_height : Height r right_depth
  pub close : (left_depth ≤ right_depth + 1) × (right_depth ≤ left_depth + 1)

balanced :
    (l r : Tree) → max_depth l ≤ max_depth r + 1 → max_depth r ≤ max_depth l + 1 → IsBalanced l r
balanced l r a b = record {
  left_depth = max_depth l;
  right_depth = max_depth r;
  left_height = max_depth-Height l;
  right_height = max_depth-Height r;
  close = (a, b);
}

balanced_depths :
    (l r : Tree)
    → IsBalanced l r
    → (max_depth l ≤ max_depth r + 1) × (max_depth r ≤ max_depth l + 1)
balanced_depths l r b =
    let e = Height-max_depth l b.left_depth b.left_height in
    let e' = Height-max_depth r b.right_depth b.right_height in
    (omega (arith, b.close.0, e, e'), omega (arith, b.close.1, e, e'))

IsBalanced-below :
    (t : Tree) {v : ℤ} {l r : Tree}
    → check_if_avl t ≡ true
    → Subtree (node v l r) t
    → IsBalanced l r
unfolding check_if_avl abs_diff
IsBalanced-below null e s = elim s [ ]
IsBalanced-below (node w a b) e here = balanced a b (ground arith) (ground arith)
IsBalanced-below (node w a b) e (left s) = IsBalanced-below a (ground arith) s
IsBalanced-below (node w a b) e (right s) = IsBalanced-below b (ground arith) s

check_of_balanced :
    (t : Tree)
    → ((v : ℤ) (l r : Tree) → Subtree (node v l r) t → IsBalanced l r)
    → check_if_avl t ≡ true
unfolding check_if_avl abs_diff
check_of_balanced null h = refl
check_of_balanced (node v l r) h = ground (
  arith,
  balanced_depths l r (h v l r here),
  check_of_balanced l (λ w a b s. h w a b (left s)),
  check_of_balanced r (λ w a b s. h w a b (right s)),
)

-- avl.cpp: the program prints `YES` for the tree `t` that it read exactly when at every node of
-- `t` the heights of the two children, the numbers of nodes on longest walks down, differ by at most
-- one.
pub avl_main_lem :
    (input : List ℤ) (t : Tree)
    → read_tree null input ≡ some t
    → (avl_main input ≡ some true)
      ↔ ((v : ℤ) (l r : Tree) → Subtree (node v l r) t → IsBalanced l r)
unfolding avl_main
avl_main_lem input t got =
    (λ e v l r s. IsBalanced-below t (ground arith) s, λ h. rw (got, check_of_balanced t h))
