-- ===== src/Trees/Output/Walk.antt =====
-- The in-order walks. What goes to `std::cout` is the list of the values in their order.
use mathlib.Core.Option
use zettelkasten_public_subs.Common.{not, ◌&&◌, ◌||◌, Option, List, [], ◌∷◌, ◌++◌, ℤ, if◌then◌else◌}
use zettelkasten_public_subs.Trees.{Tree, null, node, is_null, read_tree}

unfoldable pub print_all : Tree → List ℤ
print_all null = []
print_all (node v l r) = print_all l ++ v ∷ print_all r

unfoldable pub print_leaves : Tree → List ℤ
print_leaves null = []
print_leaves (node v l r) =
    print_leaves l ++ ((if is_null l && is_null r then v ∷ [] else []) ++ print_leaves r)

unfoldable pub print_parents : Tree → List ℤ
print_parents null = []
print_parents (node v l r) =
    print_parents l
    ++ ((if not (is_null l) && not (is_null r) then v ∷ [] else []) ++ print_parents r)

unfoldable pub print_one_child : Tree → List ℤ
print_one_child null = []
print_one_child (node v l r) =
    print_one_child l
    ++ ((if (is_null l && not (is_null r)) || (not (is_null l) && is_null r) then v ∷ [] else [])
        ++ print_one_child r)

-- `main` of each program: what it prints for the numbers on its input.
unfoldable pub traverse_main : List ℤ → Option (List ℤ)
traverse_main input = Option.map print_all (read_tree null input)

unfoldable pub leaf_output_main : List ℤ → Option (List ℤ)
leaf_output_main input = Option.map print_leaves (read_tree null input)

unfoldable pub parents_output_main : List ℤ → Option (List ℤ)
parents_output_main input = Option.map print_parents (read_tree null input)

unfoldable pub one_child_main : List ℤ → Option (List ℤ)
one_child_main input = Option.map print_one_child (read_tree null input)
