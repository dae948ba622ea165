-- ===== src/LinkedList/Push.antt =====
-- `push_back` and `push_front`.
use zettelkasten_public_subs.Common.{
  ◌≡◌, refl, ◌∙◌, ◌≢◌, false, some, [], ◌∷◌, ◌++◌, arith, suc-==_zero, ℤ,
}
use zettelkasten_public_subs.LinkedList.{
  Handle, handle, IsList, SameOutside, push_back, push_front, create_node,
}
use zettelkasten_public_subs.LinkedList.Owned.{
  handle-snoc, SameOutside-write, has-append_right, has_left,
}
use zettelkasten_public_subs.LinkedList.Chains.{
  Cells, has, first, last, Chain, at-write_ne, at-write_self, Chain-write, not-has_of_unused,
  Chain-append, Chain-relink_last, Chain-relink_first, ne_of_has, Disjoint-one,
}
use zettelkasten_public_subs.LinkedList.Nodes.{
  Ptr, null, list_node, Memory, write, Allocator, Returns, load_lem, set_next_lem, set_prev_lem,
}

module _ (a : Allocator) (h : Memory) (w : ℤ) where
  -- The node that `create_node` makes, and the memory after that.
  abbrev pub new : Ptr
  new = a.allocate h

  abbrev made : Ptr → Ptr → Memory
  made p q = write h new (some (list_node w p q))

  new_apart :
      (before : Ptr) (xs : Cells) (after : Ptr) → Chain h before xs after → has new xs ≡ false
  new_apart before xs after c = not-has_of_unused h new before xs after c (a.unused h)

  ne_of_new : (b : Ptr) → has b ((new, w) ∷ []) ≡ false → b ≢ new
  ne_of_new b out = ground arith

  -- The list with the nodes `ys`, in a memory that differs from `h` only there.
  abbrev pub Becomes : Cells → Handle → Memory → Type 0
  Becomes ys l g = IsList g l ys × SameOutside ys h g

  push_back-handle :
      (xs : Cells)
      → Chain h null xs null
      → Returns (Becomes (xs ++ (new, w) ∷ [])) (push_back a (handle xs) w h)
  unfolding push_back create_node
  push_back-handle [] c = (
    record { chain = (a.not_null h, at-write_self h _ _, refl, tt); object = refl },
    λ b out. at-write_ne h new _ b (ground arith),
  )
  push_back-handle ((p, v) ∷ ys) c =
      let xs = (p, v) ∷ ys in
      let t : Ptr = last p ys in
      let out = new_apart null xs null c in
      let r =
        Chain-relink_last (made t null) null p v ys null new
          (Chain-write h new _ null xs null out c) in
      let apart : new ≢ t = ne_of_has xs new t out r.member in
      let linked = record r.last_node { next = new } in
      let h' = made t null in
      let g = write h' t (some linked) in
      rw
        (
          suc-==_zero,
          set_next_lem h' t r.last_node r.not_null r.holds new,
          load_lem g t linked r.not_null (at-write_self h' t (some linked)),
        )
        (
          record {
            chain =
                Chain-append g null xs ((new, w) ∷ []) null r.chain
                  (a.not_null h, at-write_ne h' t _ new apart ∙ at-write_self h new _, refl, tt)
                  (Disjoint-one xs new w out);
            object = handle-snoc xs new w p _ refl (omega arith);
          },
          SameOutside-write (xs ++ (new, w) ∷ []) h h' t (some linked)
              (has_left t xs ((new, w) ∷ []) r.member)
              (λ b other.
                at-write_ne h new _ b (ne_of_new b (has-append_right b xs ((new, w) ∷ []) other))),
        )

  push_front-handle :
      (xs : Cells)
      → Chain h null xs null
      → Returns (Becomes ((new, w) ∷ xs)) (push_front a (handle xs) w h)
  unfolding push_front create_node
  push_front-handle [] c = (
    record { chain = (a.not_null h, at-write_self h _ _, refl, tt); object = refl },
    λ b out. at-write_ne h new _ b (ground arith),
  )
  push_front-handle ((p, v) ∷ ys) c =
      let xs = (p, v) ∷ ys in
      let out = new_apart null xs null c in
      let h' = made null p in
      let linked = list_node v new (first ys null) in
      let c' = Chain-write h new (some (list_node w null p)) null xs null out c in
      let apart : new ≢ p = ground arith in
      let g = write h' p (some linked) in
      rw
        (
          suc-==_zero,
          set_prev_lem h' p (list_node v null (first ys null)) c'.0 c'.1 new,
          load_lem g p linked c'.0 (at-write_self h' p (some linked)),
        )
        (
          record {
            chain = (
              a.not_null h,
              at-write_ne h' p _ new apart ∙ at-write_self h new _,
              out,
              Chain-relink_first h' null p v ys null new c',
            );
            object = ground arith;
          },
          SameOutside-write ((new, w) ∷ xs) h h' p (some linked) (ground arith)
              (λ b other. at-write_ne h new _ b (ground arith)),
        )

  module _ (l : Handle) (xs : Cells) (is : IsList h l xs) where
    -- `push_back` puts the node that the allocator gave behind the nodes of the list, and writes
    -- nowhere else.
    pub push_back_lem : Returns (Becomes (xs ++ (new, w) ∷ [])) (push_back a l w h)
    push_back_lem = rw is.object (push_back-handle xs is.chain)

    -- `push_front` puts it before them, and writes nowhere else.
    pub push_front_lem : Returns (Becomes ((new, w) ∷ xs)) (push_front a l w h)
    push_front_lem = rw is.object (push_front-handle xs is.chain)
