-- ===== src/LinkedList/Sort.antt =====
-- `sort` over the memory of the nodes.
use zettelkasten_public_subs.Common.{
  ℕ, zero, suc, ◌≤◌, ◌≡◌, refl, sym, ap, ◌∙◌, ◌≢◌, inl, inr, false, some, [], ◌∷◌, arith,
  Bool-cases, suc-==_zero, ==_false, length, ℤ, ltb_ℤ, count, IsSorted,
}
use zettelkasten_public_subs.LinkedList.{
  Handle, handle, IsList, SameOutside, sort_inner, sort_outer, sort, is_empty,
}
use zettelkasten_public_subs.LinkedList.Owned.{ne_head, out_tail}
use zettelkasten_public_subs.LinkedList.Chains.{
  Cells, has, first, Chain, at-write_ne, at-write_self, Chain-write,
}
use zettelkasten_public_subs.LinkedList.Nodes.{
  Ptr, null, list_node, Memory, at, write, Returns, Returns-bind, Returns-mono, load_lem,
  set_value_lem,
}
use zettelkasten_public_subs.LinkedList.Selection.{
  pass, sorted_cells, values, has-pass, first-pass, length-pass, has-sorted_cells,
  first-sorted_cells, last-sorted_cells, length-sorted_cells, sorted_cells-IsSorted,
  count-sorted_cells, pass_less, pass_not_less,
}

-- After the inner loop: the watched node and the chain behind it hold the result `r`.
record Passed (h : Memory) (p before next : Ptr) (b : Ptr) (xs : Cells) (r : ℤ × Cells) (g : Memory)
    : Type 0 where
  watched : at g p ≡ some (list_node r.0 before next)
  chain : Chain g b r.1 null
  same : (c : Ptr) → c ≢ p → has c xs ≡ false → at g c ≡ at h c

-- A step of the inner loop left the memory `h'`, with `x'` watched and `y'` in `q`; the rest follows.
step-Passed :
    (h h' g : Memory) (p before next : Ptr) (x' : ℤ) (b q : Ptr) (y y' : ℤ) (xs : Cells)
    → q ≢ null
    → p ≢ q
    → has q xs ≡ false
    → at h' q ≡ some (list_node y' b (first xs null))
    → ((c : Ptr) → c ≢ p → c ≢ q → at h' c ≡ at h c)
    → Passed h' p before next q xs (pass x' xs) g
    → Passed h p before next b ((q, y) ∷ xs) ((pass x' xs).0, (q, y') ∷ (pass x' xs).1) g
step-Passed h h' g p before next x' b q y y' xs ne apart out e same r = record {
  watched = r.watched;
  chain = (
    ne,
    r.same q (λ s. apart (sym s)) out
        ∙ e
        ∙ ap some (ap (list_node y' b) (sym (first-pass x' xs null))),
    has-pass q x' xs ∙ out,
    r.chain,
  );
  same = λ c ne_p other.
      r.same c ne_p (out_tail c q y xs other) ∙ same c ne_p (λ s. ne_head c q y xs other (sym s));
}

nil-Passed :
    (h : Memory) (p before next : Ptr) (x : ℤ) (b : Ptr)
    → at h p ≡ some (list_node x before next)
    → Passed h p before next b [] (pass x []) h
unfolding pass
nil-Passed h p before next x b e = record { watched = e; chain = tt; same = λ c n o. refl }

sort_inner-Passed :
    (k : ℕ) (h : Memory) (p before next : Ptr) (x : ℤ) (b : Ptr) (xs : Cells)
    → p ≢ null
    → at h p ≡ some (list_node x before next)
    → has p xs ≡ false
    → Chain h b xs null
    → length xs ≤ k
    → Returns (λ _ g. Passed h p before next b xs (pass x xs) g) (sort_inner k p (first xs null) h)
unfolding sort_inner
sort_inner-Passed zero h p before next x b [] ne e out c fuel = nil-Passed h p before next x b e
sort_inner-Passed (suc k) h p before next x b [] ne e out c fuel = nil-Passed h p before next x b e
sort_inner-Passed zero h p before next x b ((q, y) ∷ xs) ne e out c fuel = absurd (omega arith)
sort_inner-Passed (suc k) h p before next x b ((q, y) ∷ xs) ne e out c fuel =
    let apart : p ≢ q = λ same. ne_head p q y xs out (sym same) in
    let node = list_node y b (first xs null) in
    let out' = out_tail p q y xs out in
    elim (Bool-cases (ltb_ℤ y x)) [
      | inl less ↦
          let raised = some (list_node y before next) in
          let moved = some (list_node x b (first xs null)) in
          let h1 = write h p raised in
          let h2 = write h1 q moved in
          let watched = at-write_ne h1 q moved p apart ∙ at-write_self h p raised in
          let node1 = at-write_ne h p raised q (λ s. apart (sym s)) ∙ c.1 in
          rw
            (
              ==_false q null c.0,
              load_lem h p (list_node x before next) ne e,
              load_lem h q node c.0 c.1,
              less,
              set_value_lem h p (list_node x before next) ne e y,
              set_value_lem h1 q node c.0 node1 x,
              load_lem h2 q (list_node x b (first xs null)) c.0 (at-write_self h1 q moved),
            )
            (rw (pass_less x q y xs less) (
              Returns-mono (λ _ g. Passed h2 p before next q xs (pass y xs) g) _
                (sort_inner k p (first xs null) h2)
                (λ _ g r.
                  step-Passed h h2 g p before next y b q y x xs c.0 apart c.2
                    (at-write_self h1 q moved)
                    (λ a n m. at-write_ne h1 q moved a m ∙ at-write_ne h p raised a n) r)
                (sort_inner-Passed k h2 p before next y q xs ne watched out'
                  (Chain-write h1 q moved q xs null c.2 (Chain-write h p raised q xs null out' c.3))
                  (omega arith))))
      | inr not_less ↦
          rw
            (
              ==_false q null c.0,
              load_lem h p (list_node x before next) ne e,
              load_lem h q node c.0 c.1,
              not_less,
            )
            (rw (load_lem h q node c.0 c.1, pass_not_less x q y xs not_less)
              (Returns-mono (λ _ g. Passed h p before next q xs (pass x xs) g) _
                (sort_inner k p (first xs null) h)
                (λ _ g r.
                  step-Passed h h g p before next x b q y y xs c.0 apart c.2 c.1 (λ a n m. refl) r)
                (sort_inner-Passed k h p before next x q xs ne e out' c.3 (omega arith))))
    ]

sort_outer_lem :
    (rounds k : ℕ) (h : Memory) (before : Ptr) (xs : Cells)
    → Chain h before xs null
    → length xs ≤ rounds
    → length xs ≤ k
    → Returns
        (λ _ g. Chain g before (sorted_cells k xs) null × SameOutside xs h g)
        (sort_outer rounds k (first xs null) h)
unfolding sort_outer sorted_cells
sort_outer_lem rounds zero h before [] c m n = (tt, λ a o. refl)
sort_outer_lem rounds (suc k) h before [] c m n = (tt, λ a o. refl)
sort_outer_lem rounds zero h before (x ∷ xs) c m n = absurd (omega arith)
sort_outer_lem rounds (suc k) h before ((p, x) ∷ xs) c m n =
    let next = first xs null in
    rw (==_false p null c.0, load_lem h p (list_node x before next) c.0 c.1)
      (Returns-bind (λ _ g. Passed h p before next p xs (pass x xs) g) _
        (sort_inner rounds p next h) _
        (sort_inner-Passed rounds h p before next x p xs c.0 c.1 c.2 c.3 (omega arith))
        (λ _ g r.
          let ys = (pass x xs).1 in
          let top = (pass x xs).0 in
          rw (load_lem g p (list_node top before next) c.0 r.watched) (
            Returns-mono {A = Unit {0}}
              (λ _ g'. Chain g' p (sorted_cells k ys) null × SameOutside ys g g')
              (λ _ g'.
                Chain g' before ((p, top) ∷ sorted_cells k ys) null
                × SameOutside ((p, x) ∷ xs) h g')
              (sort_outer rounds k next g)
              (λ _ g' (chain, same). (
                (
                  c.0,
                  same p (has-pass p x xs ∙ c.2)
                      ∙ r.watched
                      ∙ ap some (
                          ap (list_node top before)
                            (sym (first-sorted_cells k ys null ∙ first-pass x xs null))),
                  has-sorted_cells p k ys ∙ has-pass p x xs ∙ c.2,
                  chain,
                ),
                λ a other.
                    same a (has-pass a x xs ∙ out_tail a p x xs other)
                    ∙ r.same a (λ s. ne_head a p x xs other (sym s)) (out_tail a p x xs other),
              ))
              (rw (sym (first-pass x xs null)) (
                sort_outer_lem rounds k g p ys r.chain (rw (length-pass x xs) (omega arith))
                  (rw (length-pass x xs) (omega arith)))))))

-- The nodes `xs` of the list `l` after `sort`: the same nodes in the same places, with other values.
pub record Sorts (h : Memory) (l : Handle) (xs : Cells) (g : Memory) : Type 0 where
  pub places : IsList g l (sorted_cells (length xs) xs)
  pub ascending : IsSorted (values (sorted_cells (length xs) xs))
  pub permuted : (v : ℤ) → count v (values (sorted_cells (length xs) xs)) ≡ count v (values xs)
  pub outside : SameOutside xs h g

sort-handle :
    (h : Memory) (xs : Cells)
    → Chain h null xs null
    → Returns
        (λ _ g. Chain g null (sorted_cells (length xs) xs) null × SameOutside xs h g)
        (sort (handle xs) h)
unfolding sort is_empty sorted_cells
sort-handle h [] c = (tt, λ a o. refl)
sort-handle h (x ∷ xs) c = rw (suc-==_zero) (
    sort_outer_lem (suc (length xs)) (suc (length xs)) h null (x ∷ xs) c (omega arith)
      (omega arith))

-- `sort` ends, keeps every node in its place and the list object as it is, and leaves the values in
-- ascending order, each as often as before; nothing outside the list is written.
pub sort_lem :
    (h : Memory) (l : Handle) (xs : Cells)
    → IsList h l xs
    → Returns (λ _ g. Sorts h l xs g) (sort l h)
sort_lem h l xs is =
    Returns-mono (λ _ g. Chain g null (sorted_cells (length xs) xs) null × SameOutside xs h g) _
      (sort l h)
      (λ _ g (c, same). record {
        places = record {
          chain = c;
          object =
              is.object
              ∙ ground (
                arith,
                first-sorted_cells (length xs) xs null,
                last-sorted_cells (length xs) xs null,
                length-sorted_cells (length xs) xs,
              );
        };
        ascending = sorted_cells-IsSorted (length xs) xs (omega arith);
        permuted = λ v. count-sorted_cells v (length xs) xs;
        outside = same;
      })
      (rw is.object (sort-handle h xs is.chain))
