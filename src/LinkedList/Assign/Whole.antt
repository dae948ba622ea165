-- ===== src/LinkedList/Assign/Whole.antt =====
-- What the loops of `assign` and `assign` do to a list.
use zettelkasten_public_subs.Common.{
  ℕ, zero, suc, ◌≤◌, ◌≡◌, refl, sym, ap, ◌∙◌, subst, ◌⊎◌, inl, inr, false, List, [], ◌∷◌, ◌++◌,
  arith, ==_false, length, drop, length-drop, ℤ,
}
use zettelkasten_public_subs.LinkedList.{Handle, handle, IsList, SameOutside, push_back, erase}
use zettelkasten_public_subs.LinkedList.Owned.{has-append_left}
use zettelkasten_public_subs.LinkedList.Chains.{Cells, has, first, last, Chain, focus, has-append}
use zettelkasten_public_subs.LinkedList.Nodes.{
  Ptr, null, list_node, Memory, at, Allocator, run_then, ok, Returns, Returns-bind, Returns-mono,
  load_lem,
}
use zettelkasten_public_subs.LinkedList.Selection.{values}
use mathlib.Core.List.{append-nil, append_assoc}
use zettelkasten_public_subs.LinkedList.Push.{Becomes, push_back_lem}
use zettelkasten_public_subs.LinkedList.Erase.{erase_lem}
use zettelkasten_public_subs.LinkedList.Pop.{Drops}
use zettelkasten_public_subs.LinkedList.Assign.{
  overwrite, erase_from, push_all, assign, assign_rest, assigned, has-assigned, first-assigned,
  last-assigned, length-assigned, values-assigned, overwrite_lem,
}

erase_from_lem :
    (k : ℕ) (h : Memory) (l : Handle) (xs cs : Cells)
    → IsList h l (xs ++ cs)
    → length cs ≤ k
    → Returns
        (λ l' g. IsList g l' xs × SameOutside (xs ++ cs) h g)
        (erase_from k l (first cs null) h)
unfolding erase_from
erase_from_lem zero h l xs [] is n = (subst (IsList h l) (append-nil xs) is, λ b o. refl)
erase_from_lem (suc k) h l xs [] is n = (subst (IsList h l) (append-nil xs) is, λ b o. refl)
erase_from_lem zero h l xs (c ∷ cs) is n = absurd (omega arith)
erase_from_lem (suc k) h l xs ((p, v) ∷ cs) is n =
    let f = focus h null xs p v cs null is.chain in
    rw
      (
        ==_false p null f.not_null,
        load_lem h p (list_node v (last null xs) (first cs null)) f.not_null f.holds,
      )
      (Returns-bind (Drops (xs ++ (p, v) ∷ cs) (xs ++ cs) p h) _ (erase l p h) _
        (erase_lem h l xs p v cs is)
        (λ l' g (is', gone, same).
          Returns-mono (λ l'' g'. IsList g' l'' xs × SameOutside (xs ++ cs) g g') _
            (erase_from k l' (first cs null) g)
            (λ l'' g' (done, same'). (done, λ b other. same' b (without b other) ∙ same b other))
            (erase_from_lem k g l' xs cs is' (omega arith))))
  where
    without : (b : Ptr) → has b (xs ++ (p, v) ∷ cs) ≡ false → has b (xs ++ cs) ≡ false
    without b other = ground (arith, has-append b xs cs, has-append b xs ((p, v) ∷ cs))

module _ (a : Allocator) where
  -- The nodes that the pushes made: they hold `ys`, and nothing but them and `xs` was written.
  record Extends (h : Memory) (xs : Cells) (ys : List ℤ) (l : Handle) (g : Memory) : Type 0 where
    nodes : Cells
    is_list : IsList g l (xs ++ nodes)
    contents : values nodes ≡ ys
    same : SameOutside (xs ++ nodes) h g

  push_all_lem :
      (h : Memory) (l : Handle) (xs : Cells) (ys : List ℤ)
      → IsList h l xs
      → Returns (Extends h xs ys) (push_all a l ys h)
  unfolding push_all
  push_all_lem h l xs [] is = record {
    nodes = [];
    is_list = rw (append-nil xs) is;
    contents = refl;
    same = λ b o. refl;
  }
  push_all_lem h l xs (y ∷ ys) is =
      let new = a.allocate h in
      Returns-bind (Becomes a h y (xs ++ (new, y) ∷ [])) _ (push_back a l y h) _
        (push_back_lem a h y l xs is)
        (λ l' g (is', same).
          Returns-mono (Extends g (xs ++ (new, y) ∷ []) ys) (Extends h xs (y ∷ ys))
            (push_all a l' ys g)
            (λ l'' g' r.
              let whole = append_assoc xs ((new, y) ∷ []) r.nodes in
              record {
                nodes = (new, y) ∷ r.nodes;
                is_list = subst (IsList g' l'') whole r.is_list;
                contents = ap (◌∷◌ y) r.contents;
                same = λ b other.
                    let out = ap (has b) whole ∙ other in
                    r.same b out ∙ same b (has-append_left b (xs ++ (new, y) ∷ []) r.nodes out);
              })
            (push_all_lem g l' (xs ++ (new, y) ∷ []) ys is'))

  -- The list after an assignment: it holds `ys`, and only nodes of the old list and of the new one
  -- were written.
  pub record Assigned (h : Memory) (xs : Cells) (ys : List ℤ) (l : Handle) (g : Memory)
      : Type 0 where
    pub nodes : Cells
    pub is_list : IsList g l nodes
    pub contents : values nodes ≡ ys
    pub same : (b : Ptr) → has b xs ≡ false → has b nodes ≡ false → at g b ≡ at h b

  -- Either the nodes or the values run out.
  shorter : (xs : Cells) (ys : List ℤ) → (drop (length ys) xs ≡ []) ⊎ (drop (length xs) ys ≡ [])
  shorter [] [] = inl refl
  shorter [] (y ∷ ys) = inl refl
  shorter (x ∷ xs) [] = inr refl
  shorter (x ∷ xs) (y ∷ ys) = shorter xs ys

  assign_rest_lem :
      (h g : Memory) (l : Handle) (xs bs cs : Cells) (p : Ptr) (rest : List ℤ)
      → p ≡ first cs null
      → IsList g l (bs ++ cs)
      → length cs ≤ l.length_
      → ((b : Ptr) → has b (bs ++ cs) ≡ has b xs)
      → SameOutside xs h g
      → (cs ≡ []) ⊎ (rest ≡ [])
      → Returns (Assigned h xs (values bs ++ rest)) (assign_rest a l (p, rest) g)
  assign_rest_lem h g l xs bs cs p [] e is n members same over = rw e (
      Returns-mono (λ l' g'. IsList g' l' bs × SameOutside (bs ++ cs) g g') _
        (erase_from l.length_ l (first cs null) g)
        (λ l' g' (is', same'). record {
          nodes = bs;
          is_list = is';
          contents = sym (append-nil (values bs));
          same = λ b out o. same' b (members b ∙ out) ∙ same b out;
        })
        (erase_from_lem l.length_ g l bs cs is n))
  assign_rest_lem h g l xs bs cs p (z ∷ rest) e is n members same (inl nil) =
      let is' : IsList g l bs = subst (IsList g l) (ap (◌++◌ bs) nil ∙ append-nil bs) is in
      Returns-mono (Extends g bs (z ∷ rest)) (Assigned h xs (values bs ++ z ∷ rest))
        (push_all a l (z ∷ rest) g)
        (λ l' g' r. record {
          nodes = bs ++ r.nodes;
          is_list = r.is_list;
          contents = values-append bs r.nodes ∙ ap (◌++◌ (values bs)) r.contents;
          same = λ b out other. r.same b other ∙ same b out;
        })
        (push_all_lem g l bs (z ∷ rest) is')
    where
      values-append : (us vs : Cells) → values (us ++ vs) ≡ values us ++ values vs
      values-append [] vs = refl
      values-append ((q, u) ∷ us) vs = ap (◌∷◌ u) (values-append us vs)
  assign_rest_lem h g l xs bs cs p (z ∷ rest) e is n members same (inr nil) = cc nil

  -- `assign` of the empty range returns at once. Of another range it ends, and the list then holds
  -- the values of the range: the nodes there were are reused, and what is missing is pushed or what
  -- is left over is erased.
  pub assign_lem :
      (h : Memory) (l : Handle) (xs : Cells)
      → IsList h l xs
      → (assign a l [] h ≡ ok l h)
        × ((y : ℤ) (ys : List ℤ) → Returns (Assigned h xs (y ∷ ys)) (assign a l (y ∷ ys) h))
  unfolding assign
  assign_lem h l xs is = (refl, λ y ys. some_values (y ∷ ys))
    where
      some_values :
          (ys : List ℤ)
          → Returns (Assigned h xs ys) (run_then (overwrite l.head ys h) (assign_rest a l))
      some_values ys =
          let all = assigned xs ys ++ drop (length ys) xs in
          let start : l.head ≡ first xs null = ap (λ r. r.head) is.object in
          Returns-bind
            (λ r g.
              Chain g null all null
              × (r ≡ (first (drop (length ys) xs) null, drop (length xs) ys))
              × SameOutside xs h g)
            _ (overwrite l.head ys h) (assign_rest a l)
            (rw start (overwrite_lem h null xs ys is.chain))
            (λ r g (chain, e, same).
              subst (λ r'. Returns (Assigned h xs ys) (assign_rest a l r' g)) (sym e)
                (subst
                  (λ vs.
                    Returns (Assigned h xs vs)
                      (assign_rest a l (first (drop (length ys) xs) null, drop (length xs) ys) g))
                  (values-assigned xs ys)
                  (assign_rest_lem h g l xs (assigned xs ys) (drop (length ys) xs) _
                    (drop (length xs) ys) refl
                    (record { chain = chain; object = is.object ∙ same_handle ys }) (few ys)
                    (λ b. has-assigned b xs ys) same (shorter xs ys))))
        where
          same_handle : (vs : List ℤ) → handle xs ≡ handle (assigned xs vs ++ drop (length vs) xs)
          same_handle vs =
              ground (arith, first-assigned xs vs, last-assigned null xs vs, length-assigned xs vs)

          few : (vs : List ℤ) → length (drop (length vs) xs) ≤ l.length_
          few vs = omega (arith, length-drop (length vs) xs, ap (λ r. r.length_) is.object)
