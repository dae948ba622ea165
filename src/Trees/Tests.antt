-- ===== src/Trees/Tests.antt =====
-- The tree programs at one input each: `7 3 2 1 9 5 4 6 8 0`, the sequence of the exercises.
use zettelkasten_public_subs.Common.{◌≡◌, refl, ◌↔◌, true, some, List, [], ◌∷◌, ◌++◌, ℤ, pos, mem}
use zettelkasten_public_subs.Trees.{Tree, null, node, insert, read_tree}
use zettelkasten_public_subs.Trees.Depth
use zettelkasten_public_subs.Trees.Depth.{
  Branch, IsBalanced, max_depth, check_if_avl, tree_height_main, avl_main,
}
use zettelkasten_public_subs.Trees.Order.{Subtree}
use zettelkasten_public_subs.Trees.Output
use zettelkasten_public_subs.Trees.Output.{
  IsAscending, Prints, print_all, print_leaves, print_parents, print_one_child, traverse_main,
  leaf_output_main, parents_output_main, one_child_main,
}
use zettelkasten_public_subs.Trees.Second
use zettelkasten_public_subs.Trees.Second.{second_tree_maximum_main}

abbrev keys : List ℤ
keys = pos 7 ∷ pos 3 ∷ pos 2 ∷ pos 1 ∷ pos 9 ∷ pos 5 ∷ pos 4 ∷ pos 6 ∷ pos 8 ∷ []

abbrev input : List ℤ
input = keys ++ pos 0 ∷ []

abbrev leaf : ℤ → Tree
leaf v = node v null null

abbrev tree : Tree
tree =
    node (pos 7)
      (node (pos 3) (node (pos 2) (leaf (pos 1)) null) (node (pos 5) (leaf (pos 4)) (leaf (pos 6))))
      (node (pos 9) (leaf (pos 8)) null)

got : read_tree null input ≡ some tree
unfolding read_tree insert
got = refl

leaves : leaf_output_main input ≡ some (pos 1 ∷ pos 4 ∷ pos 6 ∷ pos 8 ∷ [])
unfolding leaf_output_main print_leaves read_tree insert
leaves = refl

parents : parents_output_main input ≡ some (pos 3 ∷ pos 5 ∷ pos 7 ∷ [])
unfolding parents_output_main print_parents read_tree insert
parents = refl

only_children : one_child_main input ≡ some (pos 2 ∷ pos 9 ∷ [])
unfolding one_child_main print_one_child read_tree insert
only_children = refl

second : second_tree_maximum_main input ≡ some (pos 8)
unfolding second_tree_maximum_main Second.second_largest_element Second.second_from read_tree insert
second = refl

traverse_main_lem_example :
    (out : List ℤ) × (traverse_main (keys ++ pos 0 ∷ []) ≡ some out)
    × IsAscending out
    × ((v : ℤ) → mem v out ≡ mem v keys)
unfolding mem
traverse_main_lem_example = Output.traverse_main_lem keys [] refl

avl_main_lem_example :
    (avl_main input ≡ some true)
    ↔ ((v : ℤ) (l r : Tree) → Subtree (node v l r) tree → IsBalanced l r)
avl_main_lem_example = Depth.avl_main_lem input tree got
