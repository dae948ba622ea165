-- ===== src/LinkedList/Tests.antt =====
-- The list on small memories, with an allocator that never gives an address a second time.
use zettelkasten_public_subs.Common.{
  suc, ◌≤◌, ◌≡◌, refl, none, some, List, [], ◌∷◌, ◌++◌, arith, leb, if◌then◌else◌, ℤ, pos,
}
use zettelkasten_public_subs.LinkedList.{
  handle, IsList, empty_list, front, back, erase, insert, sort,
}
use zettelkasten_public_subs.LinkedList.Chains.{Cells}
use zettelkasten_public_subs.LinkedList.Nodes.{
  Ptr, null, list_node, Memory, at, Allocator, ok, Returns,
}
use zettelkasten_public_subs.LinkedList.Push.{Becomes}
use zettelkasten_public_subs.LinkedList.Pop.{Drops}
use zettelkasten_public_subs.LinkedList.Clear.{Frees}
use zettelkasten_public_subs.LinkedList.Erase.{erase_lem}
use zettelkasten_public_subs.LinkedList.Insert.{list_insert_lem}
use zettelkasten_public_subs.LinkedList.Sort.{Sorts, sort_lem}
use zettelkasten_public_subs.LinkedList.Assign.{assign}
use zettelkasten_public_subs.LinkedList.Assign.Whole.{Assigned, assign_lem}
use zettelkasten_public_subs.LinkedList.Access.{ends_lem}
use zettelkasten_public_subs.LinkedList.Move.{move_assign, move_assign_lem}

-- An address above all that were written.
abbrev above_all : Memory → Ptr
above_all [] = 1
above_all ((p, c) ∷ h) = let r = above_all h in if leb r p then suc p else r

above_all_positive : (h : Memory) → 1 ≤ above_all h
above_all_positive [] = omega arith
above_all_positive ((p, c) ∷ h) = ground (arith, above_all_positive h)

at-above_all : (h : Memory) (b : Ptr) → above_all h ≤ b → at h b ≡ none
unfolding at
at-above_all [] b m = refl
at-above_all ((p, c) ∷ h) b m = ground (arith, at-above_all h b)

abbrev bump : Allocator
bump = record {
  allocate = above_all;
  not_null = λ h e. omega (arith, above_all_positive h);
  unused = λ h. at-above_all h (above_all h) (omega arith);
}

-- The list 3, 1, 2 in the nodes 5, 6, 7, and a node 9 beside it that holds the list 4.
abbrev memory : Memory
memory =
    (5, some (list_node (pos 3) null 6))
    ∷ (6, some (list_node (pos 1) 5 7))
    ∷ (7, some (list_node (pos 2) 6 null))
    ∷ (9, some (list_node (pos 4) null null))
    ∷ []

abbrev cells : Cells
cells = (5, pos 3) ∷ (6, pos 1) ∷ (7, pos 2) ∷ []

memory-IsList : IsList memory (handle cells) cells
unfolding at
memory-IsList = record {
  chain = (λ e. cc, refl, refl, (λ e. cc, refl, refl, (λ e. cc, refl, refl, tt)));
  object = refl;
}

one-IsList : IsList memory (handle ((9, pos 4) ∷ [])) ((9, pos 4) ∷ [])
unfolding at
one-IsList = record { chain = (λ e. cc, refl, refl, tt); object = refl }

none-IsList : IsList memory empty_list []
none-IsList = record { chain = tt; object = refl }

erase_lem_example :
    Returns (Drops cells ((5, pos 3) ∷ (7, pos 2) ∷ []) 6 memory) (erase (handle cells) 6 memory)
erase_lem_example =
    erase_lem memory (handle cells) ((5, pos 3) ∷ []) 6 (pos 1) ((7, pos 2) ∷ []) memory-IsList

list_insert_lem_example :
    Returns
      (Becomes bump memory (pos 8) ((5, pos 3) ∷ (6, pos 1) ∷ (10, pos 8) ∷ (7, pos 2) ∷ []))
      (insert bump (handle cells) 6 (pos 8) memory)
    × Returns
        (Becomes bump memory (pos 8) (cells ++ (10, pos 8) ∷ []))
        (insert bump (handle cells) null (pos 8) memory)
list_insert_lem_example =
    list_insert_lem bump memory (pos 8) (handle cells) ((5, pos 3) ∷ []) 6 (pos 1) ((7, pos 2) ∷ [])
      memory-IsList

sort_lem_example : Returns (λ _ g. Sorts memory (handle cells) cells g) (sort (handle cells) memory)
sort_lem_example = sort_lem memory (handle cells) cells memory-IsList

assign_lem_example :
    (assign bump (handle cells) [] memory ≡ ok (handle cells) memory)
    × ((y : ℤ) (ys : List ℤ)
        → Returns
            (Assigned bump memory cells (y ∷ ys))
            (assign bump (handle cells) (y ∷ ys) memory))
assign_lem_example = assign_lem bump memory (handle cells) cells memory-IsList

ends_lem_example :
    (front (handle cells) memory ≡ ok (pos 3) memory)
    × (back (handle cells) memory ≡ ok (pos 2) memory)
ends_lem_example =
    ends_lem memory (handle cells) (5, pos 3) ((6, pos 1) ∷ (7, pos 2) ∷ [])
      ((5, pos 3) ∷ (6, pos 1) ∷ []) 7 (pos 2) memory-IsList refl (omega arith)

move_assign_lem_example :
    Returns
      (λ (l, rhs) g. IsList g l ((9, pos 4) ∷ []) × IsList g rhs [] × Frees cells memory g)
      (move_assign (handle cells) (handle ((9, pos 4) ∷ [])) memory)
move_assign_lem_example =
    move_assign_lem memory (handle cells) (handle ((9, pos 4) ∷ [])) cells ((9, pos 4) ∷ [])
      memory-IsList one-IsList (refl, (refl, (refl, tt)))

-- `assign` of an empty range leaves three values where none are expected.
assign_keeps : assign bump (handle cells) [] memory ≡ ok (handle cells) memory
unfolding assign
assign_keeps = refl
