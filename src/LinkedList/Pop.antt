-- ===== src/LinkedList/Pop.antt =====
-- `pop_back`, `pop_front` and `clear`.
use zettelkasten_public_subs.Common.{
  suc, ◌≡◌, refl, sym, ◌∙◌, ◌≢◌, none, some, [], ◌∷◌, ◌++◌, arith, suc-suc-==_one, length, ℤ,
}
use zettelkasten_public_subs.LinkedList.{Handle, handle, IsList, SameOutside, pop_back, pop_front}
use zettelkasten_public_subs.LinkedList.Owned.{handle-snoc, SameOutside-write, has_left, has_right}
use zettelkasten_public_subs.LinkedList.Chains.{
  Cells, first, last, Chain, focus, at-write_ne, at-write_self, Chain-write, Chain-relink_last,
  Chain-relink_first, ne_of_has,
}
use zettelkasten_public_subs.LinkedList.Nodes.{
  Ptr, null, list_node, Memory, at, write, fault, Returns, load, load_lem, set_next_lem,
  set_prev_lem, deallocate_lem,
}

-- The list lost the node at `p`, which was given back, and the memory outside `old` is as it was.
abbrev pub Drops : Cells → Cells → Ptr → Memory → Handle → Memory → Type 0
Drops old xs p h l g = IsList g l xs × (at g p ≡ none) × SameOutside old h g

module _ (h : Memory) where
  pop_back-handle :
      (ys : Cells) (t : Ptr) (v : ℤ)
      → Chain h null (ys ++ (t, v) ∷ []) null
      → Returns
          (Drops (ys ++ (t, v) ∷ []) ys t h)
          (pop_back (record { head = first ys t; tail = t; length_ = suc (length ys) }) h)
  unfolding pop_back
  pop_back-handle [] t v c =
      rw
        (
          load_lem h t (list_node v null null) c.0 c.1,
          deallocate_lem h t (list_node v null null) c.0 c.1,
        )
        (
          record { chain = tt; object = refl },
          at-write_self h t none,
          λ b out. at-write_ne h t none b (ground arith),
        )
  pop_back-handle ((p, w) ∷ zs) t v c =
      let ys = (p, w) ∷ zs in
      let f = focus h null ys t v [] null c in
      let q : Ptr = last p zs in
      let node = list_node v q null in
      let r = Chain-relink_last h null p w zs t null f.front in
      let apart : t ≢ q = ne_of_has ys t q f.not_before r.member in
      let ended = record r.last_node { next = null } in
      let h' = write h q (some ended) in
      rw
        (
          load_lem h t node f.not_null f.holds,
          suc-suc-==_one,
          set_next_lem h q r.last_node r.not_null r.holds null,
          deallocate_lem h' t node f.not_null (at-write_ne h q (some ended) t apart ∙ f.holds),
        )
        (
          record {
            chain = Chain-write h' t none null ys null f.not_before r.chain;
            object = ground arith;
          },
          at-write_self h' t none,
          SameOutside-write (ys ++ (t, v) ∷ []) h h' t none
              (has_right t ys ((t, v) ∷ []) (ground arith))
              (SameOutside-write (ys ++ (t, v) ∷ []) h h q (some ended)
                (has_left q ys ((t, v) ∷ []) r.member) (λ b out. refl)),
        )

  pop_front-handle :
      (p : Ptr) (v : ℤ) (ys : Cells)
      → Chain h null ((p, v) ∷ ys) null
      → Returns (Drops ((p, v) ∷ ys) ys p h) (pop_front (handle ((p, v) ∷ ys)) h)
  unfolding pop_front
  pop_front-handle p v [] c =
      rw
        (
          load_lem h p (list_node v null null) c.0 c.1,
          deallocate_lem h p (list_node v null null) c.0 c.1,
        )
        (
          record { chain = tt; object = refl },
          at-write_self h p none,
          λ b out. at-write_ne h p none b (ground arith),
        )
  pop_front-handle p v ((q, w) ∷ zs) c =
      let ys = (q, w) ∷ zs in
      let node = list_node v null q in
      let start = list_node w null (first zs null) in
      let apart : p ≢ q = ground arith in
      let h' = write h q (some start) in
      rw
        (
          load_lem h p node c.0 c.1,
          suc-suc-==_one,
          set_prev_lem h q (list_node w p (first zs null)) c.3.0 c.3.1 null,
          deallocate_lem h' p node c.0 (at-write_ne h q (some start) p apart ∙ c.1),
        )
        (
          record {
            chain =
                Chain-write h' p none null ys null c.2
                  (Chain-relink_first h p q w zs null null c.3);
            object = ground arith;
          },
          at-write_self h' p none,
          SameOutside-write ((p, v) ∷ ys) h h' p none (ground arith)
              (SameOutside-write ((p, v) ∷ ys) h h q (some start) (ground arith) (λ b out. refl)),
        )

  -- `pop_back` unlinks the last node and gives it back; the other nodes stay, and nothing outside
  -- the list is written.
  pub pop_back_lem :
      (l : Handle) (ys : Cells) (t : Ptr) (v : ℤ)
      → IsList h l (ys ++ (t, v) ∷ [])
      → Returns (Drops (ys ++ (t, v) ∷ []) ys t h) (pop_back l h)
  pop_back_lem l ys t v is =
      rw (is.object ∙ sym (handle-snoc ys t v (first ys t) (suc (length ys)) refl refl))
        (pop_back-handle ys t v is.chain)

  -- `pop_front` does so with the first node.
  pub pop_front_lem :
      (l : Handle) (p : Ptr) (v : ℤ) (ys : Cells)
      → IsList h l ((p, v) ∷ ys)
      → Returns (Drops ((p, v) ∷ ys) ys p h) (pop_front l h)
  pop_front_lem l p v ys is = rw is.object (pop_front-handle p v ys is.chain)

  -- On an empty list both read through a null pointer.
  pub pop_empty : (l : Handle) → IsList h l [] → (pop_back l h ≡ fault) × (pop_front l h ≡ fault)
  unfolding pop_back pop_front load
  pop_empty l is = rw is.object (refl, refl)
