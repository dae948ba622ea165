-- ===== src/LinkedList/Insert.antt =====
-- `insert` at an iterator: behind the node that it points to, or at the end.
use zettelkasten_public_subs.Common.{
  ◌+◌, ◌≡◌, refl, ap, ◌∙◌, ◌≢◌, false, some, [], ◌∷◌, ◌++◌, arith, ==_false, length-append, ℤ,
}
use zettelkasten_public_subs.LinkedList.{Handle, handle, IsList, front, back, create_node, insert}
use zettelkasten_public_subs.LinkedList.Owned.{
  SameOutside-write, has-append_left, has-append_right, has_right, Disjoint-has_right, end_of_lem,
  ne_head, out_tail, out_cons, has_head,
}
use zettelkasten_public_subs.LinkedList.Chains.{
  Cells, has, first, last, Chain, focus, unfocus, at-write_ne, at-write_self, Chain-write,
  not-has_of_unused, Chain-relink_first, last-append, first-append, ne_of_has, has_of_tail,
  Disjoint, cons-Disjoint, Disjoint-one,
}
use zettelkasten_public_subs.LinkedList.Nodes.{
  Ptr, null, list_node, Memory, write, Allocator, Returns, load_lem, set_next_lem, set_prev_lem,
}
use zettelkasten_public_subs.LinkedList.Push.{Becomes, push_back_lem}

module _ (a : Allocator) (h : Memory) (w : ℤ) (l : Handle) where
  fresh : Ptr
  fresh = a.allocate h

  -- The chain after the three writes, given the memory `g` before the last of them.
  linked :
      (g : Memory) (ys : Cells) (p : Ptr) (v : ℤ) (zs : Cells)
      → Chain g null ys p
      → p ≢ null
      → has p ys ≡ false
      → has p ((fresh, w) ∷ zs) ≡ false
      → Chain g p ((fresh, w) ∷ zs) null
      → Disjoint ys ((fresh, w) ∷ zs)
      → Chain
          (write g p (some (list_node v (last null ys) fresh)))
          null
          (ys ++ (p, v) ∷ (fresh, w) ∷ zs)
          null
  linked g ys p v zs front ne out1 out2 back apart =
      let n = some (list_node v (last null ys) fresh) in
      unfocus (write g p n) null ys p v ((fresh, w) ∷ zs) null (record {
        front = Chain-write g p n null ys p out1 front;
        not_null = ne;
        holds = at-write_self g p n;
        back = Chain-write g p n p ((fresh, w) ∷ zs) null out2 back;
        not_before = out1;
        not_behind = out2;
        apart = apart;
      })

  inserted_object :
      (ys : Cells) (p : Ptr) (v : ℤ) (zs : Cells) (t : Ptr)
      → l ≡ handle (ys ++ (p, v) ∷ zs)
      → t ≡ last fresh zs
      → record l { tail = t; length_ = l.length_ + 1 } ≡ handle (ys ++ (p, v) ∷ (fresh, w) ∷ zs)
  inserted_object ys p v zs t e f = rw e (
      ground (
        arith,
        f,
        first-append ys ((p, v) ∷ zs) null,
        first-append ys ((p, v) ∷ (fresh, w) ∷ zs) null,
        last-append null ys ((p, v) ∷ (fresh, w) ∷ zs),
        length-append ys ((p, v) ∷ zs),
        length-append ys ((p, v) ∷ (fresh, w) ∷ zs),
      ))

  insert-last :
      (ys : Cells) (p : Ptr) (v : ℤ)
      → IsList h l (ys ++ (p, v) ∷ [])
      → Returns (Becomes a h w (ys ++ (p, v) ∷ (fresh, w) ∷ [])) (insert a l p w h)
  unfolding insert create_node fresh
  insert-last ys p v is =
      let f = focus h null ys p v [] null is.chain in
      let all = ys ++ (p, v) ∷ (fresh, w) ∷ [] in
      let node = list_node v (last null ys) null in
      let made = some (list_node w p null) in
      let h1 = write h fresh made in
      let out = not-has_of_unused h fresh null (ys ++ (p, v) ∷ []) null is.chain (a.unused h) in
      let out_ys = has-append_left fresh ys ((p, v) ∷ []) out in
      let p_ne : p ≢ fresh = ne_head fresh p v [] (has-append_right fresh ys ((p, v) ∷ []) out) in
      let at1 = at-write_ne h fresh made p p_ne ∙ f.holds in
      rw
        (
          end_of_lem h l (ys ++ (p, v) ∷ []) is,
          ==_false p null f.not_null,
          load_lem h p node f.not_null f.holds,
          load_lem h1 p node f.not_null at1,
          set_next_lem h1 p node f.not_null at1 fresh,
        )
        (
          record {
            chain =
                linked h1 ys p v [] (Chain-write h fresh made null ys p out_ys f.front) f.not_null
                  f.not_before (out_cons p fresh w [] p_ne refl)
                  (a.not_null h, at-write_self h fresh made, refl, tt)
                  (Disjoint-one ys fresh w out_ys);
            object = inserted_object ys p v [] fresh is.object refl;
          },
          SameOutside-write all h h1 p _
              (has_right p ys ((p, v) ∷ (fresh, w) ∷ []) (has_head p v ((fresh, w) ∷ [])))
              (SameOutside-write all h h fresh made
                (has_right fresh ys ((p, v) ∷ (fresh, w) ∷ [])
                  (has_of_tail fresh p v ((fresh, w) ∷ []) (has_head fresh w [])))
                (λ b other. refl)),
        )

  insert-inner :
      (ys : Cells) (p : Ptr) (v : ℤ) (r : Ptr) (u : ℤ) (zs : Cells)
      → IsList h l (ys ++ (p, v) ∷ (r, u) ∷ zs)
      → Returns (Becomes a h w (ys ++ (p, v) ∷ (fresh, w) ∷ (r, u) ∷ zs)) (insert a l p w h)
  unfolding insert create_node fresh
  insert-inner ys p v r u zs is =
      let behind = (r, u) ∷ zs in
      let f = focus h null ys p v behind null is.chain in
      let rest = (fresh, w) ∷ behind in
      let tail = (p, v) ∷ rest in
      let all = ys ++ tail in
      let node = list_node v (last null ys) r in
      let made = some (list_node w p r) in
      let moved = list_node u fresh (first zs null) in
      let h1 = write h fresh made in
      let h2 = write h1 r (some moved) in
      let out = not-has_of_unused h fresh null (ys ++ (p, v) ∷ behind) null is.chain (a.unused h) in
      let out_ys = has-append_left fresh ys ((p, v) ∷ behind) out in
      let out_r = has-append_right fresh ys ((p, v) ∷ behind) out in
      let p_ne : p ≢ fresh = ne_head fresh p v behind out_r in
      let at1 = at-write_ne h fresh made p p_ne ∙ f.holds in
      let out_b = out_tail fresh p v behind out_r in
      let back1 = Chain-write h fresh made p behind null out_b f.back in
      let p_ne_r : p ≢ r = ne_of_has behind p r f.not_behind (has_head r u zs) in
      let fresh_ne_r : fresh ≢ r = ne_of_has behind fresh r out_b (has_head r u zs) in
      let r_out = Disjoint-has_right ys behind r f.apart (has_head r u zs) in
      let at2 = at-write_ne h1 r (some moved) p p_ne_r ∙ at1 in
      rw
        (
          end_of_lem h l (ys ++ (p, v) ∷ behind) is,
          ==_false p null f.not_null,
          load_lem h p node f.not_null f.holds,
          load_lem h1 p node f.not_null at1,
          ==_false r null f.back.0,
          set_prev_lem h1 r (list_node u p (first zs null)) back1.0 back1.1 fresh,
          set_next_lem h2 p node f.not_null at2 fresh,
        )
        (
          record {
            chain =
                linked h2 ys p v behind
                  (Chain-write h1 r (some moved) null ys p r_out
                    (Chain-write h fresh made null ys p out_ys f.front))
                  f.not_null f.not_before (out_cons p fresh w behind p_ne f.not_behind)
                  (
                    a.not_null h,
                    at-write_ne h1 r (some moved) fresh fresh_ne_r ∙ at-write_self h fresh made,
                    out_b,
                    Chain-relink_first h1 p r u zs null fresh back1,
                  )
                  (cons-Disjoint ys fresh w behind out_ys f.apart);
            object =
                inserted_object ys p v behind l.tail is.object
                  (ap (λ o. o.tail) is.object ∙ last-append null ys ((p, v) ∷ behind));
          },
          SameOutside-write all h h2 p _ (has_right p ys tail (has_head p v rest)) (
              SameOutside-write all h h1 r (some moved)
                (has_right r ys tail
                  (has_of_tail r p v rest (has_of_tail r fresh w behind (has_head r u zs))))
                (SameOutside-write all h h fresh made
                  (has_right fresh ys tail (has_of_tail fresh p v rest (has_head fresh w behind)))
                  (λ b other. refl))),
        )

  -- `insert` at a node of the list puts the new node right behind that node; at the end of the
  -- list (the null pointer) it is `push_back`. It writes only nodes of the list and the new one.
  pub list_insert_lem :
      (ys : Cells) (p : Ptr) (v : ℤ) (zs : Cells)
      → IsList h l (ys ++ (p, v) ∷ zs)
      → Returns (Becomes a h w (ys ++ (p, v) ∷ (a.allocate h, w) ∷ zs)) (insert a l p w h)
        × Returns
            (Becomes a h w ((ys ++ (p, v) ∷ zs) ++ (a.allocate h, w) ∷ []))
            (insert a l null w h)
  unfolding fresh insert
  list_insert_lem ys p v zs is = (
    inside zs is,
    rw (end_of_lem h l (ys ++ (p, v) ∷ zs) is) (push_back_lem a h w l (ys ++ (p, v) ∷ zs) is),
  )
    where
      inside :
          (cs : Cells)
          → IsList h l (ys ++ (p, v) ∷ cs)
          → Returns (Becomes a h w (ys ++ (p, v) ∷ (a.allocate h, w) ∷ cs)) (insert a l p w h)
      inside [] at_end = insert-last ys p v at_end
      inside ((r, u) ∷ cs) at_inner = insert-inner ys p v r u cs at_inner
