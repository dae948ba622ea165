-- ===== src/LinkedList.antt =====
-- epoll_reactor::list of 2022-02-16-doubly-linked-list/list.cpp, at `T = int` as in its tests. A
-- `list` object is a `Handle` outside the memory of its nodes; a method returns the new one. A list
-- iterator is the pointer that it wraps. A loop runs on fuel, and is given one round for each node
-- and one for the test that ends it. A range of iterators passed to `assign` is the list of the
-- values that it yields.
pub mod Nodes
pub mod Chains
pub mod Owned
pub mod Push
pub mod Pop
pub mod Insert
pub mod Selection
pub mod Sort
pub mod Erase
pub mod Clear
pub mod Assign
pub mod Access
pub mod Move
pub mod Tests
use zettelkasten_public_subs.Common.{
  ℕ, zero, suc, ◌+◌, ◌-◌, ◌*◌, ◌/◌, ◌%◌, ◌^◌, ◌≤◌, ◌<◌, ◌≡◌, refl, sym, ap, ◌∙◌, subst, fun_ext,
  ◌≢◌, ◌↔◌, ◌⊎◌, inl, inr, Bool, true, false, not, ◌&&◌, ◌||◌, Option, none, some, List, [], ◌∷◌,
  ◌++◌, map, arith, ltb, leb, ◌==◌, if◌then◌else◌, ltb→lt, lt→ltb, leb→le, ==_iff, Bool-cases,
  Option-cases, if_elim, suc-==_zero, ==_false, suc-suc-==_one, zero-ltb-suc, length, get_elem?,
  set, length-append, length-set, get_elem?-set_self, get_elem?-set_ne, get_or, take, drop,
  replicate, length-take, length-drop, length-replicate, length-map, ℤ, pos, negsuc, pos_part,
  neg_part, ◌≤ℤ◌, ◌<ℤ◌, ltb_ℤ, leb_ℤ, eqb_ℤ, eq_of_parts, eqb_ℤ_iff, mem, mem-append, count,
  AllAbove, IsSorted,
}
use Nodes.{
  Ptr, null, ListNode, list_node, Memory, at, write, Allocator, Run, ok, fault, out_of_fuel, Cmd,
  pure, ◌>>=◌, ◌>>◌, load, set_value, set_prev, set_next, deallocate,
}
use Chains.{Cells, has, first, last, Chain}

-- `head_`, `tail_`, `length_`. The length counts nodes in memory, so it does not overflow.
pub record Handle : Type 0 where
  pub head : Ptr
  pub tail : Ptr
  pub length_ : ℕ

-- `list()`
abbrev pub empty_list : Handle
empty_list = record { head = null; tail = null; length_ = 0 }

-- `list(list &&rhs)`: the new list, and what is left in `rhs`.
unfoldable pub move_list : Handle → Handle × Handle
move_list rhs = (rhs, empty_list)

unfoldable pub size : Handle → ℕ
size l = l.length_

unfoldable pub is_empty : Handle → Bool
is_empty l = l.length_ == 0

-- `end()`
unfoldable pub end_of : Handle → Cmd Ptr
end_of l = if l.tail == null then pure l.head else do n ← load l.tail; pure n.next

-- `operator+` of the iterator
unfoldable pub advance : ℕ → Ptr → Cmd Ptr
advance zero p = pure p
advance (suc offset) p = if p == null then pure p else do n ← load p; advance offset n.next

unfoldable pub front : Handle → Cmd ℤ
front l = do n ← load l.head; pure n.value

-- The offset is a `size_t`.
unfoldable pub back : Handle → Cmd ℤ
back l = do p ← advance ((size l + 2 ^ 64 - 1) % 2 ^ 64) l.head; n ← load p; pure n.value

unfoldable pub pop_back : Handle → Cmd Handle
pop_back l = do
  old ← load l.tail
  if l.length_ == 1 then pure tt else set_next old.prev null
  deallocate l.tail
  pure (record {
    head = if l.length_ == 1 then null else l.head;
    tail = old.prev;
    length_ = l.length_ - 1;
  })

unfoldable pub pop_front : Handle → Cmd Handle
pop_front l = do
  old ← load l.head
  if l.length_ == 1 then pure tt else set_prev old.next null
  deallocate l.head
  pure (record {
    head = old.next;
    tail = if l.length_ == 1 then null else l.tail;
    length_ = l.length_ - 1;
  })

-- The loop of `clear`.
unfoldable pub clear_loop : ℕ → Handle → Cmd Handle
clear_loop zero l = if ltb 0 l.length_ then (λ _. out_of_fuel) else pure l
clear_loop (suc k) l = if ltb 0 l.length_ then (do l' ← pop_back l; clear_loop k l') else pure l

-- Also what the destructor does.
unfoldable pub clear : Handle → Cmd Handle
clear l = clear_loop l.length_ l

-- `erase`; `p` is the node of the iterator.
unfoldable pub erase : Handle → Ptr → Cmd Handle
erase l p = do
  n ← load p
  if n.prev == null then pop_front l else if n.next == null then pop_back l else do
    set_next n.prev n.next
    n' ← load p
    set_prev n'.next n'.prev
    deallocate p
    pure (record l { length_ = l.length_ - 1 })

-- The inner loop of `sort`: `runner` goes on to the end of the list.
unfoldable pub sort_inner : ℕ → Ptr → Ptr → Cmd (Unit {0})
sort_inner zero watcher runner = if runner == null then pure tt else (λ _. out_of_fuel)
sort_inner (suc k) watcher runner = if runner == null then pure tt else do
  w ← load watcher
  r ← load runner
  if ltb_ℤ r.value w.value then (set_value watcher r.value >> set_value runner w.value) else pure tt
  r' ← load runner
  sort_inner k watcher r'.next

unfoldable pub sort_outer : ℕ → ℕ → Ptr → Cmd (Unit {0})
sort_outer rounds zero watcher = if watcher == null then pure tt else (λ _. out_of_fuel)
sort_outer rounds (suc k) watcher = if watcher == null then pure tt else do
  w ← load watcher
  sort_inner rounds watcher w.next
  w' ← load watcher
  sort_outer rounds k w'.next

unfoldable pub sort : Handle → Cmd (Unit {0})
sort l = if is_empty l then pure tt else sort_outer l.length_ l.length_ l.head

module _ (a : Allocator) where
  unfoldable pub create_node : ℤ → Ptr → Ptr → Cmd Ptr
  create_node value prev next h =
      ok (a.allocate h) (write h (a.allocate h) (some (list_node value prev next)))

  unfoldable pub push_back : Handle → ℤ → Cmd Handle
  push_back l value =
      if l.length_ == 0
      then (do
        p ← create_node value null null
        pure (record { head = p; tail = p; length_ = l.length_ + 1 }))
      else (do
        p ← create_node value l.tail null
        set_next l.tail p
        n ← load l.tail
        pure (record l { tail = n.next; length_ = l.length_ + 1 }))

  unfoldable pub push_front : Handle → ℤ → Cmd Handle
  push_front l value =
      if l.length_ == 0
      then (do
        p ← create_node value null null
        pure (record { head = p; tail = p; length_ = l.length_ + 1 }))
      else (do
        p ← create_node value null l.head
        set_prev l.head p
        n ← load l.head
        pure (record l { head = n.prev; length_ = l.length_ + 1 }))

  -- `insert`; `position` is the node of the iterator.
  unfoldable pub insert : Handle → Ptr → ℤ → Cmd Handle
  insert l position value = do
    e ← end_of l
    if position == e then push_back l value else if position == null then push_front l value else do
      n ← load position
      p ← create_node value position n.next
      n' ← load position
      if n'.next == null then pure tt else set_prev n'.next p
      set_next position p
      pure (record l { tail = if n'.next == null then p else l.tail; length_ = l.length_ + 1 })

-- The list object of the nodes `xs`.
abbrev pub handle : Cells → Handle
handle xs = record { head = first xs null; tail = last null xs; length_ = length xs }

-- In memory `h` the list object `l` owns the nodes `xs`: they form a chain between null pointers,
-- and `head_`, `tail_` and `length_` are those of the chain.
pub record IsList (h : Memory) (l : Handle) (xs : Cells) : Type 0 where
  pub chain : Chain h null xs null
  pub object : l ≡ handle xs

-- The two memories differ at most at the addresses of `xs`.
abbrev pub SameOutside : Cells → Memory → Memory → Type 0
SameOutside xs h g = (p : Ptr) → has p xs ≡ false → at g p ≡ at h p
