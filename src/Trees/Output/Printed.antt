-- ===== src/Trees/Output/Printed.antt =====
-- Which values the walks print, and the programs from their input to their output.
use zettelkasten_public_subs.Common.{
  ◌≡◌, refl, ◌∙◌, ◌≢◌, ◌↔◌, ◌⊎◌, inl, inr, Bool, true, false, not, ◌&&◌, ◌||◌, some, List, [], ◌∷◌,
  ◌++◌, arith, if◌then◌else◌, Bool-cases, ℤ, pos, eqb_ℤ, eqb_ℤ_iff, mem, mem-append,
}
use zettelkasten_public_subs.Trees.{Tree, null, node, is_null, read_tree}
use zettelkasten_public_subs.Trees.Order.{
  Subtree, here, left, right, IsSearch, occurs, insert_all, read_tree-insert_all,
  insert_all-IsSearch, occurs-insert_all, read_tree-IsSearch,
}
use zettelkasten_public_subs.Trees.Output.Walk.{
  print_all, print_leaves, print_parents, print_one_child, traverse_main, leaf_output_main,
  parents_output_main, one_child_main,
}
use zettelkasten_public_subs.Trees.Output.Ascending.{IsAscending, picked, picked-IsAscending}

-- A node with value `v` and the children `l` and `r` that `show` picks.
abbrev Picks : (Tree → Bool) → ℤ → Tree → Type 0
Picks show v t = (l : Tree) × (r : Tree) × Subtree (node v l r) t × (show (node v l r) ≡ true)

module _ (show : Tree → Bool) where
  mem-middle : (v w : ℤ) (t : Tree) → mem v (if show t then w ∷ [] else []) ≡ (eqb_ℤ v w && show t)
  unfolding mem
  mem-middle v w t = ground arith

  mem-picked :
      (v w : ℤ) (l r : Tree)
      → mem v (picked show (node w l r))
        ≡ (mem v (picked show l) || ((eqb_ℤ v w && show (node w l r)) || mem v (picked show r)))
  unfolding picked
  mem-picked v w l r = rw (mem-append, mem-append, mem-middle)

  Picks-of_mem : (v : ℤ) (t : Tree) → mem v (picked show t) ≡ true → Picks show v t
  unfolding picked mem
  Picks-of_mem v null h = cc
  Picks-of_mem v (node w l r) h = elim (Bool-cases (mem v (picked show l))) [
    | inl there ↦ let (a, b, s, e) = Picks-of_mem v l there in (a, b, left s, e)
    | inr no_left ↦ elim (Bool-cases (mem v (picked show r))) [
      | inl there ↦ let (a, b, s, e) = Picks-of_mem v r there in (a, b, right s, e)
      | inr no_right ↦
          let both : (eqb_ℤ v w && show (node w l r)) ≡ true = ground (arith, mem-picked v w l r) in
          let same : v ≡ w = (eqb_ℤ_iff v w).0 (ground arith) in
          (l, r, rw same here, rw same (ground arith))
    ]
  ]

  mem_of_picks :
      (v : ℤ) {l r : Tree} (t : Tree)
      → Subtree (node v l r) t
      → show (node v l r) ≡ true
      → mem v (picked show t) ≡ true
  mem_of_picks v null s e = elim s [ ]
  mem_of_picks v (node w a b) here e = ground (arith, mem-picked v w a b)
  mem_of_picks v (node w a b) (left s) e = ground (arith, mem-picked v w a b, mem_of_picks v a s e)
  mem_of_picks v (node w a b) (right s) e = ground (arith, mem-picked v w a b, mem_of_picks v b s e)

is_leaf : Tree → Bool
is_leaf null = false
is_leaf (node v l r) = is_null l && is_null r

has_both : Tree → Bool
has_both null = false
has_both (node v l r) = not (is_null l) && not (is_null r)

has_one : Tree → Bool
has_one null = false
has_one (node v l r) = (is_null l && not (is_null r)) || (not (is_null l) && is_null r)

print_leaves-picked : (t : Tree) → print_leaves t ≡ picked is_leaf t
unfolding print_leaves picked is_leaf
print_leaves-picked null = refl
print_leaves-picked (node v l r) = rw (print_leaves-picked l, print_leaves-picked r)

print_parents-picked : (t : Tree) → print_parents t ≡ picked has_both t
unfolding print_parents picked has_both
print_parents-picked null = refl
print_parents-picked (node v l r) = rw (print_parents-picked l, print_parents-picked r)

print_one_child-picked : (t : Tree) → print_one_child t ≡ picked has_one t
unfolding print_one_child picked has_one
print_one_child-picked null = refl
print_one_child-picked (node v l r) = rw (print_one_child-picked l, print_one_child-picked r)

pub print_all-picked : (t : Tree) → print_all t ≡ picked (λ _. true) t
unfolding print_all picked
print_all-picked null = refl
print_all-picked (node v l r) = rw (print_all-picked l, print_all-picked r)

pub mem-print_all : (v : ℤ) (t : Tree) → mem v (print_all t) ≡ occurs v t
unfolding print_all occurs mem
mem-print_all v null = refl
mem-print_all v (node w l r) = rw mem-append (ground (arith, mem-print_all v l, mem-print_all v r))

-- traverse.cpp: for keys that are not 0, followed by a 0, the program prints the distinct keys in
-- strictly ascending order, whatever stands behind the 0.
pub traverse_main_lem :
    (keys rest : List ℤ)
    → mem (pos 0) keys ≡ false
    → (out : List ℤ) × (traverse_main (keys ++ pos 0 ∷ rest) ≡ some out)
      × IsAscending out
      × ((v : ℤ) → mem v out ≡ mem v keys)
unfolding traverse_main occurs
traverse_main_lem keys rest h = (
  print_all (insert_all null keys),
  rw (read_tree-insert_all null keys rest h),
  rw print_all-picked (picked-IsAscending _ _ (insert_all-IsSearch null keys tt)),
  λ v. mem-print_all v _ ∙ occurs-insert_all v null keys,
)

is_null-cases : (t : Tree) → (t ≡ null) ⊎ (is_null t ≡ false)
is_null-cases null = inl refl
is_null-cases (node v l r) = inr refl

-- What a walk prints on a search tree: ascending, and `v` exactly where `Node v` describes a node.
abbrev pub Prints : (ℤ → Type 0) → List ℤ → Type 0
Prints Node out = IsAscending out × ((v : ℤ) → (mem v out ≡ true) ↔ Node v)

Prints-picked :
    (show : Tree → Bool) (Node : ℤ → Type 0) (t : Tree)
    → IsSearch t
    → ((v : ℤ) → Picks show v t → Node v)
    → ((v : ℤ) → Node v → Picks show v t)
    → Prints Node (picked show t)
Prints-picked show Node t search f g = (
  picked-IsAscending show t search,
  λ v. (
    λ h. f v (Picks-of_mem show v t h),
    λ n. let (l, r, s, e) = g v n in mem_of_picks show v t s e,
  ),
)

module _ (input : List ℤ) (t : Tree) (got : read_tree null input ≡ some t) where
  search : IsSearch t
  search = read_tree-IsSearch null input got tt

  both_null :
      (v : ℤ) (l r : Tree)
      → Subtree (node v l r) t
      → (is_null l && is_null r) ≡ true
      → Subtree (node v null null) t
  both_null v null null s e = s
  both_null v null (node _ _ _) s e = cc
  both_null v (node _ _ _) r s e = cc

  -- leaf_output.cpp: on an input from which the tree `t` is read the program prints, in strictly
  -- ascending order, exactly the values of the nodes of `t` that have no child.
  pub leaf_output_main_lem :
      (out : List ℤ) × (leaf_output_main input ≡ some out)
      × Prints (λ v. Subtree (node v null null) t) out
  unfolding leaf_output_main is_leaf
  leaf_output_main_lem = (
    print_leaves t,
    rw got,
    rw print_leaves-picked (
        Prints-picked is_leaf _ t search (λ v (l, r, s, e). both_null v l r s e)
          (λ v s. (null, null, s, refl))),
  )

  -- parents_output.cpp: on an input from which the tree `t` is read the program prints, in strictly
  -- ascending order, exactly the values of the nodes of `t` that have two children.
  pub parents_output_main_lem :
      (out : List ℤ) × (parents_output_main input ≡ some out)
      × Prints (λ v. (l : Tree) × (r : Tree) × Subtree (node v l r) t × (l ≢ null) × (r ≢ null)) out
  unfolding parents_output_main has_both
  parents_output_main_lem = (
    print_parents t,
    rw got,
    rw print_parents-picked (
        Prints-picked has_both _ t search
          (λ v (l, r, s, e). (l, r, s, λ z. ground arith, λ z. ground arith))
          (λ v (l, r, s, a, b). (l, r, s, ground (arith, is_null-cases l, is_null-cases r)))),
  )

  -- one_child_parents_output.cpp: on an input from which the tree `t` is read the program prints, in
  -- strictly ascending order, exactly the values of the nodes of `t` that have one child.
  pub one_child_main_lem :
      (out : List ℤ) × (one_child_main input ≡ some out)
      × Prints
          (λ v. (s : Tree) × (s ≢ null) × (Subtree (node v s null) t ⊎ Subtree (node v null s) t))
          out
  unfolding one_child_main has_one
  one_child_main_lem = (
    print_one_child t,
    rw got,
    rw print_one_child-picked (
        Prints-picked has_one _ t search only_child (λ v (s, full, side). elim side [
          | inl l ↦ (s, null, l, ground (arith, is_null-cases s))
          | inr r ↦ (null, s, r, ground (arith, is_null-cases s))
        ])),
  )
    where
      only_child :
          (v : ℤ)
          → Picks has_one v t
          → (s : Tree) × (s ≢ null) × (Subtree (node v s null) t ⊎ Subtree (node v null s) t)
      only_child v (null, null, s, e) = cc
      only_child v (null, node w a b, s, e) = (node w a b, λ z. cc, inr s)
      only_child v (node w a b, null, s, e) = (node w a b, λ z. cc, inl s)
      only_child v (node w a b, node w' a' b', s, e) = cc
