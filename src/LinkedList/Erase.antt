-- ===== src/LinkedList/Erase.antt =====
-- `erase` and `insert` at a node of the list.
use mathlib.Core.List.{append-nil}
use zettelkasten_public_subs.Common.{
  ◌-◌, ◌≡◌, refl, ◌∙◌, ◌≢◌, true, none, some, [], ◌∷◌, ◌++◌, arith, ==_false, length-append, ℤ,
}
use zettelkasten_public_subs.LinkedList.{Handle, handle, IsList, erase}
use zettelkasten_public_subs.LinkedList.Owned.{
  SameOutside-write, has_left, has_right, Disjoint-has, Disjoint-has_right,
}
use zettelkasten_public_subs.LinkedList.Chains.{
  Cells, has, first, last, focus, at-write_ne, at-write_self, Chain-write, Chain-append,
  Chain-relink_last, Chain-relink_first, last-append, ne_of_has, has_of_tail,
}
use zettelkasten_public_subs.LinkedList.Nodes.{
  Ptr, null, list_node, Memory, write, Returns, load_lem, set_next_lem, set_prev_lem,
  deallocate_lem,
}
use zettelkasten_public_subs.LinkedList.Pop.{Drops, pop_back_lem, pop_front_lem}

handle_without :
    (l : Handle) (q : Ptr) (w : ℤ) (ys : Cells) (p : Ptr) (v : ℤ) (r : Ptr) (u : ℤ) (zs : Cells)
    → l ≡ handle ((q, w) ∷ ys ++ (p, v) ∷ (r, u) ∷ zs)
    → record l { length_ = l.length_ - 1 } ≡ handle ((q, w) ∷ ys ++ (r, u) ∷ zs)
handle_without l q w ys p v r u zs e = rw e (
    ground (
      arith,
      last-append q ys ((r, u) ∷ zs),
      last-append q ys ((p, v) ∷ (r, u) ∷ zs),
      length-append ys ((r, u) ∷ zs),
      length-append ys ((p, v) ∷ (r, u) ∷ zs),
    ))

module _ (h : Memory) (l : Handle) where
  erase-inner :
      (q : Ptr) (w : ℤ) (ys : Cells) (p : Ptr) (v : ℤ) (r : Ptr) (u : ℤ) (zs : Cells)
      → IsList h l ((q, w) ∷ ys ++ (p, v) ∷ (r, u) ∷ zs)
      → Returns
          (Drops ((q, w) ∷ ys ++ (p, v) ∷ (r, u) ∷ zs) ((q, w) ∷ ys ++ (r, u) ∷ zs) p h)
          (erase l p h)
  unfolding erase
  erase-inner q w ys p v r u zs is =
      let before = (q, w) ∷ ys in
      let behind = (r, u) ∷ zs in
      let all = before ++ (p, v) ∷ behind in
      let f = focus h null before p v behind null is.chain in
      let t : Ptr = last q ys in
      let node = list_node v t r in
      let k = Chain-relink_last h null q w ys p r f.front in
      let left = record k.last_node { next = r } in
      let right = list_node u t (first zs null) in
      let h1 = write h t (some left) in
      let h2 = write h1 r (some right) in
      let h3 = write h2 p none in
      let p_ne_t : p ≢ t = ne_of_has before p t f.not_before k.member in
      let r_in : has r behind ≡ true = ground arith in
      let p_ne_r : p ≢ r = ne_of_has behind p r f.not_behind r_in in
      let t_out = Disjoint-has before behind t f.apart k.member in
      let r_out = Disjoint-has_right before behind r f.apart r_in in
      let back1 = Chain-write h t (some left) p behind null t_out f.back in
      let at1 = at-write_ne h t (some left) p p_ne_t ∙ f.holds in
      let at2 = at-write_ne h1 r (some right) p p_ne_r ∙ at1 in
      rw
        (
          load_lem h p node f.not_null f.holds,
          ==_false t null k.not_null,
          ==_false r null f.back.0,
          set_next_lem h t k.last_node k.not_null k.holds r,
          load_lem h1 p node f.not_null at1,
          set_prev_lem h1 r (list_node u p (first zs null)) back1.0 back1.1 t,
          deallocate_lem h2 p node f.not_null at2,
        )
        (
          record {
            chain =
                Chain-append h3 null before behind null
                  (Chain-write h2 p none null before r f.not_before
                    (Chain-write h1 r (some right) null before r r_out k.chain))
                  (Chain-write h2 p none t behind null f.not_behind
                    (Chain-relink_first h1 p r u zs null t back1))
                  f.apart;
            object = handle_without l q w ys p v r u zs is.object;
          },
          at-write_self h2 p none,
          SameOutside-write all h h2 p none (has_right p before ((p, v) ∷ behind) (ground arith)) (
              SameOutside-write all h h1 r (some right)
                (has_right r before ((p, v) ∷ behind) (has_of_tail r p v behind r_in))
                (SameOutside-write all h h t (some left)
                  (has_left t before ((p, v) ∷ behind) k.member) (λ b out. refl))),
        )

  -- `erase` at a node of the list unlinks it and gives it back; the other nodes stay in their order,
  -- and nothing outside the list is written.
  pub erase_lem :
      (ys : Cells) (p : Ptr) (v : ℤ) (zs : Cells)
      → IsList h l (ys ++ (p, v) ∷ zs)
      → Returns (Drops (ys ++ (p, v) ∷ zs) (ys ++ zs) p h) (erase l p h)
  unfolding erase
  erase_lem [] p v zs is =
      rw (load_lem h p (list_node v null (first zs null)) is.chain.0 is.chain.1)
        (pop_front_lem h l p v zs is)
  erase_lem ((q, w) ∷ ys) p v [] is =
      let f = focus h null ((q, w) ∷ ys) p v [] null is.chain in
      let k = Chain-relink_last h null q w ys p null f.front in
      rw
        (
          load_lem h p (list_node v (last q ys) null) f.not_null f.holds,
          ==_false (last q ys) null k.not_null,
          append-nil,
        )
        (pop_back_lem h l ((q, w) ∷ ys) p v is)
  erase_lem ((q, w) ∷ ys) p v ((r, u) ∷ zs) is = erase-inner q w ys p v r u zs is
