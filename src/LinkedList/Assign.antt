-- ===== src/LinkedList/Assign.antt =====
-- `assign` and the assignments and the constructors that are made of it. A range of iterators is the
-- list of the values that it yields.
pub mod Whole
use zettelkasten_public_subs.Common.{
  ℕ, zero, suc, ◌+◌, ◌-◌, ◌*◌, ◌/◌, ◌%◌, ◌^◌, ◌≤◌, ◌<◌, ◌≡◌, refl, sym, ap, ◌∙◌, subst, fun_ext,
  ◌≢◌, ◌↔◌, ◌⊎◌, inl, inr, Bool, true, false, not, ◌&&◌, ◌||◌, Option, none, some, List, [], ◌∷◌,
  ◌++◌, map, arith, ltb, leb, ◌==◌, if◌then◌else◌, ltb→lt, lt→ltb, leb→le, ==_iff, Bool-cases,
  Option-cases, if_elim, suc-==_zero, ==_false, suc-suc-==_one, zero-ltb-suc, length, get_elem?,
  set, length-append, length-set, get_elem?-set_self, get_elem?-set_ne, get_or, take, drop,
  replicate, length-take, length-drop, length-replicate, length-map, ℤ, pos, negsuc, pos_part,
  neg_part, ◌≤ℤ◌, ◌<ℤ◌, ltb_ℤ, leb_ℤ, eqb_ℤ, eq_of_parts, eqb_ℤ_iff, mem, mem-append, count,
  AllAbove, IsSorted,
}
use zettelkasten_public_subs.LinkedList.{
  Handle, handle, IsList, SameOutside, empty_list, end_of, advance, front, back, size, push_back,
  push_front, create_node, pop_back, pop_front, clear_loop, clear, erase, insert, sort_inner,
  sort_outer, sort, is_empty,
}
use zettelkasten_public_subs.LinkedList.Owned.{
  handle-snoc, SameOutside-write, SameOutside-mono, has-append_left, has-append_right, has_left,
  has_right, Disjoint-has, Disjoint-has_right, end_of_lem, ne_head, out_tail, out_cons, has_head,
}
use zettelkasten_public_subs.LinkedList.Chains.{
  Cells, has, first, last, Chain, Relinked, Focus, focus, unfocus, at-write_ne, at-write_self,
  Chain-frame, Chain-write, not-has_of_unused, Chain-append, Chain-split, Chain-relink_last,
  Chain-relink_first, last-append, first-append, has-append, ne_of_has, has_of_tail, has-last,
  Disjoint, cons-Disjoint, Disjoint-one, length-snoc,
}
use zettelkasten_public_subs.LinkedList.Nodes.{
  Ptr, null, ListNode, list_node, Memory, at, write, Allocator, Run, Cmd, run_then, ◌>>=◌, ◌>>◌,
  pure, ok, fault, out_of_fuel, Returns, Returns-bind, Returns-mono, load, load_lem, set_value,
  set_value_lem, set_next_lem, set_prev_lem, deallocate_lem,
}
use zettelkasten_public_subs.LinkedList.Selection.{
  pass, sorted_cells, values, has-pass, first-pass, length-pass, has-sorted_cells,
  first-sorted_cells, last-sorted_cells, length-sorted_cells, sorted_cells-IsSorted,
  count-sorted_cells, pass_less, pass_not_less,
}

-- The first loop of `assign`: the node that is reached and the values that are left.
unfoldable pub overwrite : Ptr → List ℤ → Cmd (Ptr × List ℤ)
overwrite p [] = pure (p, [])
overwrite p (y ∷ ys) =
    if p == null then pure (p, y ∷ ys) else do set_value p y; n ← load p; overwrite n.next ys

-- The loop that erases the nodes from `p` on.
unfoldable pub erase_from : ℕ → Handle → Ptr → Cmd Handle
erase_from zero l p = if p == null then pure l else (λ _. out_of_fuel)
erase_from (suc k) l p =
    if p == null then pure l else do n ← load p; l' ← erase l p; erase_from k l' n.next

module _ (a : Allocator) where
  -- The loop that pushes the values that are left.
  unfoldable pub push_all : Handle → List ℤ → Cmd Handle
  push_all l [] = pure l
  push_all l (y ∷ ys) = do l' ← push_back a l y; push_all l' ys

  abbrev pub assign_rest : Handle → Ptr × List ℤ → Cmd Handle
  assign_rest l (p, []) = erase_from l.length_ l p
  assign_rest l (p, y ∷ ys) = push_all l (y ∷ ys)

  unfoldable pub assign : Handle → List ℤ → Cmd Handle
  assign l [] = pure l
  assign l (y ∷ ys) = do r ← overwrite l.head (y ∷ ys); assign_rest l r

  -- `list(std::initializer_list)` and `list(const list &)`
  unfoldable pub list_of : List ℤ → Cmd Handle
  list_of ys = assign empty_list ys

abbrev pub assigned : Cells → List ℤ → Cells
assigned [] ys = []
assigned (x ∷ xs) [] = []
assigned ((p, v) ∷ xs) (y ∷ ys) = (p, y) ∷ assigned xs ys

pub has-assigned :
    (b : Ptr) (xs : Cells) (ys : List ℤ) → has b (assigned xs ys ++ drop (length ys) xs) ≡ has b xs
has-assigned b [] [] = refl
has-assigned b [] (y ∷ ys) = refl
has-assigned b (x ∷ xs) [] = refl
has-assigned b ((p, v) ∷ xs) (y ∷ ys) = ground (arith, has-assigned b xs ys)

pub first-assigned :
    (xs : Cells) (ys : List ℤ) → first (assigned xs ys ++ drop (length ys) xs) null ≡ first xs null
first-assigned [] [] = refl
first-assigned [] (y ∷ ys) = refl
first-assigned (x ∷ xs) [] = refl
first-assigned ((p, v) ∷ xs) (y ∷ ys) = refl

pub last-assigned :
    (before : Ptr) (xs : Cells) (ys : List ℤ)
    → last before (assigned xs ys ++ drop (length ys) xs) ≡ last before xs
last-assigned before [] [] = refl
last-assigned before [] (y ∷ ys) = refl
last-assigned before (x ∷ xs) [] = refl
last-assigned before ((p, v) ∷ xs) (y ∷ ys) = last-assigned p xs ys

pub length-assigned :
    (xs : Cells) (ys : List ℤ) → length (assigned xs ys ++ drop (length ys) xs) ≡ length xs
length-assigned [] [] = refl
length-assigned [] (y ∷ ys) = refl
length-assigned (x ∷ xs) [] = refl
length-assigned ((p, v) ∷ xs) (y ∷ ys) = ap suc (length-assigned xs ys)

pub values-assigned :
    (xs : Cells) (ys : List ℤ) → values (assigned xs ys) ++ drop (length xs) ys ≡ ys
values-assigned [] [] = refl
values-assigned [] (y ∷ ys) = refl
values-assigned (x ∷ xs) [] = refl
values-assigned ((p, v) ∷ xs) (y ∷ ys) = ap (◌∷◌ y) (values-assigned xs ys)

-- The loop stops where the nodes or the values end.
pub overwrite_lem :
    (h : Memory) (before : Ptr) (xs : Cells) (ys : List ℤ)
    → Chain h before xs null
    → Returns
        (λ r g.
          Chain g before (assigned xs ys ++ drop (length ys) xs) null
          × (r ≡ (first (drop (length ys) xs) null, drop (length xs) ys))
          × SameOutside xs h g)
        (overwrite (first xs null) ys h)
unfolding overwrite
overwrite_lem h before [] [] c = (tt, refl, λ b o. refl)
overwrite_lem h before [] (y ∷ ys) c = (tt, refl, λ b o. refl)
overwrite_lem h before (x ∷ xs) [] c = (c, refl, λ b o. refl)
overwrite_lem h before ((p, v) ∷ xs) (y ∷ ys) c =
    let node = list_node v before (first xs null) in
    let node' = list_node y before (first xs null) in
    let g = write h p (some node') in
    let all = assigned xs ys ++ drop (length ys) xs in
    rw
      (
        ==_false p null c.0,
        set_value_lem h p node c.0 c.1 y,
        load_lem g p node' c.0 (at-write_self h p (some node')),
      )
      (Returns-mono {A = Ptr × List ℤ}
        (λ r g'.
          Chain g' p all null
          × (r ≡ (first (drop (length ys) xs) null, drop (length xs) ys))
          × SameOutside xs g g')
        _ (overwrite (first xs null) ys g)
        (λ r g' (chain, e, same). (
          (
            c.0,
            same p c.2
                ∙ at-write_self h p (some node')
                ∙ ap some (ap (list_node y before) (sym (first-assigned xs ys))),
            has-assigned p xs ys ∙ c.2,
            chain,
          ),
          e,
          λ b other.
              same b (out_tail b p v xs other)
              ∙ at-write_ne h p (some node') b (λ s. ne_head b p v xs other (sym s)),
        ))
        (overwrite_lem g p xs ys (Chain-write h p (some node') p xs null c.2 c.3)))
