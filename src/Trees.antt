-- ===== src/Trees.antt =====
-- The binary search trees of 2022-06-25-C++-notes/yandex_tasks/trees: the node type and the class
-- that every program there repeats, its `insert`, and the loop of `main` that reads keys up to 0.
-- A node is owned by one parent, so a pointer to a node is the tree below it and `nullptr` is `null`.
pub mod Order
pub mod Output
pub mod Depth
pub mod Second
pub mod Frequency
mod Tests
use zettelkasten_public_subs.Common.{
  ℕ, Bool, true, false, Option, none, some, List, [], ◌∷◌, ℤ, pos, eqb_ℤ, ltb_ℤ, leb_ℤ,
  if◌then◌else◌,
}

pub data Tree : Type 0 where
  null : Tree
  node : (value : ℤ) (left right : Tree) → Tree

-- `!leaf`
abbrev pub is_null : Tree → Bool
is_null null = true
is_null (node v l r) = false

-- `insert` from the root or from a child: an empty place takes a new node.
unfoldable pub insert : ℤ → Tree → Tree
insert key null = node key null null
insert key (node v l r) =
    let go_left = node v (insert key l) r in
    let go_right = node v l (insert key r) in
    if eqb_ℤ key v
    then node v l r
    else if ltb_ℤ key v
    then go_left
    else if leb_ℤ v key
    then go_right
    else node v l r

-- The loop of `main`, on the numbers that `std::cin` yields; `none` when they end without a 0.
unfoldable pub read_tree : Tree → List ℤ → Option Tree
read_tree t [] = none
read_tree t (digit ∷ rest) =
    let go_on = read_tree (insert digit t) rest in if eqb_ℤ digit (pos 0) then some t else go_on
