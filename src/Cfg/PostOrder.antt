-- ===== src/Cfg/PostOrder.antt =====
-- In the second order a block stands behind the blocks that it dominates.
use zettelkasten_public_subs.Common.{
  ℕ, zero, suc, ◌≤◌, ◌≡◌, refl, sym, ap, ◌∙◌, subst, ◌⊎◌, inl, inr, true, false, List, [], ◌∷◌,
  ◌++◌, ◌==◌, not, arith, Bool-cases, ==_iff, ◌||◌,
}
use zettelkasten_public_subs.Cfg.{
  Block, Visited, has, Cfg, mark, nothing, visit, walk, Order, seen_in, marked, pushed,
  post_order_dfs, front, fuel, no_order, compute_post_order,
}
use zettelkasten_public_subs.Cfg.Paths.{Walkway, here, step, Walkway-weaken}
use zettelkasten_public_subs.Cfg.Marks.{
  unmarked, unmarked_mono, unmarked-mark, unmarked-le, mark_self, mark_grows, has_self, has_tail,
  has_cases,
}
use zettelkasten_public_subs.Cfg.Walks.{IsGraph, skipped, gone}
use zettelkasten_public_subs.Cfg.Dominators.{Dominates}
use zettelkasten_public_subs.Cfg.Links.{has-append_last}
use zettelkasten_public_subs.Cfg.PredOrder.{Walkway-snoc, split-last, no_cons}
use zettelkasten_public_subs.Cfg.Immediate.{Walkway-append, last_part}

abbrev unvisited : Order → Visited
unvisited s x = not (s.visited x)

module _ (g : Cfg) (root : Block) where
  -- At each block of an order: where the blocks up to it lead is up to it too, or a path that does not
  -- lead through that block goes there.
  Splits : List Block → Type 0
  Splits order =
      (us : List Block) (x : Block) (vs : List Block)
      → order ≡ us ++ x ∷ vs
      → (e c : Block) → has e (us ++ x ∷ []) ≡ true
      → has c (g.succs e) ≡ true
      → (has c (us ++ x ∷ []) ≡ true) ⊎ Walkway g (mark x nothing) root c

  record IsPosted (s : Order) : Type 0 where
    rooted : (c : Block) → s.visited c ≡ true → Walkway g (unvisited s) root c
    listed : (e : Block) → has e s.order ≡ true → s.visited e ≡ true
    closed : (e c : Block) → has e s.order ≡ true → has c (g.succs e) ≡ true → s.visited c ≡ true
    behind : Splits s.order

  -- What is visited in between is put into the order.
  record Fills (s t : Order) : Type 0 where
    grows : (x : Block) → s.visited x ≡ true → t.visited x ≡ true
    posts : (x : Block) → t.visited x ≡ true → s.visited x ≡ false → has x t.order ≡ true
    keeps : (x : Block) → has x s.order ≡ true → has x t.order ≡ true

  Fills-same : (s : Order) → Fills s s
  Fills-same s = record { grows = λ x h. h; posts = λ x h n. absurd (cc (h, n)); keeps = λ x h. h }

  Fills-both : {s t u : Order} → Fills s t → Fills t u → Fills s u
  Fills-both {t} h k = record {
    grows = λ x i. k.grows x (h.grows x i);
    posts = λ x i n. elim (Bool-cases (t.visited x)) [
      | inl m ↦ k.keeps x (h.posts x m n)
      | inr m ↦ k.posts x i m
    ];
    keeps = λ x i. k.keeps x (h.keeps x i);
  }

  marked_visited :
      (b : Block) (s : Order) (x : Block) → (marked b s).visited x ≡ (x == b || s.visited x)
  unfolding marked mark
  marked_visited b s x = refl

  weaker :
      (s t : Order) (c : Block)
      → ((x : Block) → s.visited x ≡ true → t.visited x ≡ true)
      → Walkway g (unvisited s) root c
      → Walkway g (unvisited t) root c
  weaker s t c k p = Walkway-weaken (λ x h. ground (arith, h, k x)) p

  marked-IsPosted :
      (b : Block) (s : Order)
      → IsPosted s
      → Walkway g (unvisited (marked b s)) root b
      → IsPosted (marked b s)
  unfolding marked
  marked-IsPosted b s v p = record {
    rooted = λ c h. elim (Bool-cases (c == b)) [
      | inl q ↦
          subst (λ (z : Block). Walkway g (unvisited (marked b s)) root z) (sym ((==_iff c b).0 q))
            p
      | inr q ↦
          weaker s (marked b s) c (λ x i. mark_grows b s.visited x i)
            (v.rooted c (ground (arith, h, q, marked_visited b s c)))
    ];
    listed = λ e h. mark_grows b s.visited e (v.listed e h);
    closed = λ e c h i. mark_grows b s.visited c (v.closed e c h i);
    behind = v.behind;
  }

  -- The block is put behind what the loop has visited.
  pushed-closed :
      (b : Block) (t : Order)
      → IsPosted t
      → ((c : Block) → has c (g.succs b) ≡ true → t.visited c ≡ true)
      → (e c : Block) → has e (t.order ++ b ∷ []) ≡ true
      → has c (g.succs e) ≡ true
      → t.visited c ≡ true
  pushed-closed b t v all e c h i = elim (Bool-cases (e == b)) [
    | inl q ↦ all c (subst (λ (z : Block). has c (g.succs z) ≡ true) ((==_iff e b).0 q) i)
    | inr q ↦ v.closed e c (ground (arith, h, q, has-append_last e b t.order)) i
  ]

  -- A visited block that does not stand in the order was visited before `b` was.
  older :
      (b : Block) (s t : Order)
      → s.visited b ≡ false
      → IsPosted s
      → Fills (marked b s) t
      → (c : Block) → t.visited c ≡ true
      → has c (t.order ++ b ∷ []) ≡ false
      → Walkway g (mark b nothing) root c
  unfolding mark nothing
  older b s t n v fills c h out =
      let split = has-append_last c b t.order in
      let first : (marked b s).visited c ≡ true = elim (Bool-cases ((marked b s).visited c)) [
        | inl m ↦ m
        | inr m ↦ absurd (ground (arith, fills.posts c h m, out, split))
      ] in
      Walkway-weaken
        (λ x i. elim (Bool-cases (x == b)) [
          | inr q ↦ ground (arith, q)
          | inl q ↦ absurd (ground (arith, i, n, ap s.visited ((==_iff x b).0 q)))
        ])
        (v.rooted c (ground (arith, first, out, split, marked_visited b s c)))

  pushed-IsPosted :
      (b : Block) (s t : Order)
      → s.visited b ≡ false
      → IsPosted s
      → IsPosted t
      → Fills (marked b s) t
      → t.visited b ≡ true
      → ((c : Block) → has c (g.succs b) ≡ true → t.visited c ≡ true)
      → IsPosted (pushed b t)
  unfolding pushed Splits
  pushed-IsPosted b s t n u v fills m all = record {
    rooted = v.rooted;
    listed = λ e h. elim (Bool-cases (e == b)) [
      | inl q ↦ ap t.visited ((==_iff e b).0 q) ∙ m
      | inr q ↦ v.listed e (ground (arith, h, q, has-append_last e b t.order))
    ];
    closed = pushed-closed b t v all;
    behind = λ us x vs h e c i k. elim (split-last t.order b us x vs h) [
      | inr (zs, r) ↦ v.behind us x zs r e c i k
      | inl (q, r) ↦
          let whole : us ++ x ∷ [] ≡ t.order ++ b ∷ [] =
            ap (λ l. l ++ x ∷ []) r ∙ ap (λ (z : Block). t.order ++ z ∷ []) q in
          let seen = pushed-closed b t v all e c (ap (has e) (sym whole) ∙ i) k in
          elim (Bool-cases (has c (t.order ++ b ∷ []))) [
            | inl j ↦ inl (ap (has c) whole ∙ j)
            | inr j ↦ inr (
                subst (λ (z : Block). Walkway g (mark z nothing) root c) (sym q)
                  (older b s t n u fills c seen j))
          ]
    ];
  }

  pushed-Fills : (b : Block) (s t : Order) → Fills (marked b s) t → Fills s (pushed b t)
  unfolding pushed
  pushed-Fills b s t fills = record {
    grows = λ x h. fills.grows x (ground (arith, h, marked_visited b s x));
    posts = λ x h n. elim (Bool-cases (x == b)) [
      | inl q ↦ ground (arith, q, has-append_last x b t.order)
      | inr q ↦ ground (
        arith,
        fills.posts x h (ground (arith, n, q, marked_visited b s x)),
        has-append_last x b t.order,
      )
    ];
    keeps = λ x h. ground (arith, fills.keeps x (unfold marked in h), has-append_last x b t.order);
  }

  -- A walk from a block, with a path of visited blocks to it.
  record Went (b : Block) (s t : Order) : Type 0 where
    posted : IsPosted t
    fills : Fills s t
    done : t.visited b ≡ true

  abbrev Goes : (Block → Order → Order) → ℕ → Type 0
  Goes go f =
      (b : Block) (s : Order)
      → s.visited b ≡ false
      → has b g.basic_blocks ≡ true
      → unmarked s.visited g.basic_blocks ≤ f
      → IsPosted s
      → Walkway g (unvisited (marked b s)) root b
      → Went b s (go b s)

  record Visits (xs : List Block) (s t : Order) : Type 0 where
    posted : IsPosted t
    fills : Fills s t
    reached : (x : Block) → has x xs ≡ true → t.visited x ≡ true

  more-Visits :
      (b : Block) (xs : List Block) (s u t : Order)
      → Fills s u
      → u.visited b ≡ true
      → Visits xs u t
      → Visits (b ∷ xs) s t
  more-Visits b xs s u t h m v = record {
    posted = v.posted;
    fills = Fills-both h v.fills;
    reached = λ x i. elim (has_cases x b xs i) [
      | inl e ↦ ap t.visited e ∙ v.fills.grows b m
      | inr e ↦ v.reached x e
    ];
  }

  visit-Visits :
      (p : Block) (go : Block → Order → Order) (f : ℕ)
      → Goes go f
      → (xs : List Block) (s : Order)
      → ((x : Block) → has x xs ≡ true → has x g.basic_blocks ≡ true)
      → ((x : Block) → has x xs ≡ true → has x (g.succs p) ≡ true)
      → s.visited p ≡ true
      → unmarked s.visited g.basic_blocks ≤ f
      → IsPosted s
      → Visits xs s (visit seen_in go xs s)
  unfolding visit has seen_in marked
  visit-Visits p go f goes [] s inside edges m small v = record {
    posted = v;
    fills = Fills-same s;
    reached = λ x h. cc;
  }
  visit-Visits p go f goes (x ∷ xs) s inside edges m small v = elim (Bool-cases (s.visited x)) [
    | inl n ↦
        subst (λ (s' : Order). Visits (x ∷ xs) s (visit seen_in go xs s'))
          (sym (skipped g seen_in go x s n))
          (more-Visits x xs s s (visit seen_in go xs s) (Fills-same s) n (
            visit-Visits p go f goes xs s (λ y h. inside y (has_tail y x xs h))
              (λ y h. edges y (has_tail y x xs h)) m small v))
    | inr n ↦
        let path =
          Walkway-snoc x
            (weaker s (marked x s) p (λ y h. mark_grows x s.visited y h) (v.rooted p m))
            (ground (arith, mark_self x s.visited)) (edges x (has_self x xs)) in
        let w = goes x s n (inside x (has_self x xs)) small v path in
        subst (λ (s' : Order). Visits (x ∷ xs) s (visit seen_in go xs s'))
          (sym (gone g seen_in go x s n))
          (more-Visits x xs s (go x s) (visit seen_in go xs (go x s)) w.fills w.done (
            visit-Visits p go f goes xs (go x s) (λ y h. inside y (has_tail y x xs h))
              (λ y h. edges y (has_tail y x xs h)) (w.fills.grows p m)
              (omega (
                arith,
                small,
                unmarked_mono s.visited (go x s).visited g.basic_blocks w.fills.grows,
              ))
              w.posted))
  ]

  walk-Went : IsGraph g → (f : ℕ) → Goes (walk seen_in marked pushed g f) f
  unfolding walk pushed
  walk-Went graph zero b s n inside small v p = absurd (
      omega (
        arith,
        small,
        unmarked-mark s.visited (mark b s.visited) b g.basic_blocks (mark_grows b s.visited) n
            (mark_self b s.visited) inside,
      ))
  walk-Went graph (suc f) b s n inside small v p =
      let s' = marked b s in
      let room =
        unmarked-mark s.visited s'.visited b g.basic_blocks
          (λ x h. ground (arith, h, marked_visited b s x)) n (ground (arith, marked_visited b s b))
          inside in
      let done : s'.visited b ≡ true = ground (arith, marked_visited b s b) in
      let w =
        visit-Visits b (walk seen_in marked pushed g f) f (walk-Went graph f) (g.succs b) s'
          (λ x e. graph b x inside e) (λ x e. e) done (omega (arith, small, room))
          (marked-IsPosted b s v p) in
      let t = visit seen_in (walk seen_in marked pushed g f) (g.succs b) s' in
      record {
        posted = pushed-IsPosted b s t n v w.posted w.fills (w.fills.grows b done) w.reached;
        fills = pushed-Fills b s t w.fills;
        done = w.fills.grows b done;
      }

  no_order-IsPosted : IsPosted no_order
  unfolding has Splits
  no_order-IsPosted = record {
    rooted = λ c h. absurd (cc h);
    listed = λ e h. absurd (cc h);
    closed = λ e c h i. absurd (cc h);
    behind = λ us x vs h e c i k. absurd (no_cons us x vs h);
  }

  -- A path around `x`, from where a block up to it leads, stays in the blocks up to it, or a path from
  -- the root around `x` leads there.
  stays :
      (us : List Block) (x : Block) (vs : List Block) {order : List Block}
      → Splits order
      → order ≡ us ++ x ∷ vs
      → {c z : Block} → Walkway g (mark x nothing) c z
      → has c (us ++ x ∷ []) ≡ true
      → (has z (us ++ x ∷ []) ≡ true) ⊎ Walkway g (mark x nothing) root z
  unfolding Splits
  stays us x vs sp h (here c n) i = inl i
  stays us x vs sp h (step c d n e p) i = elim (sp us x vs h c d i e) [
    | inl j ↦ stays us x vs sp h p j
    | inr q ↦ inr (Walkway-append q p)
  ]

-- In the second order the blocks that a block dominates stand before it.
pub dominated_first :
    (g : Cfg) (b x z : Block) (us vs : List Block)
    → IsGraph g
    → front g.basic_blocks ≡ b
    → has b g.basic_blocks ≡ true
    → Walkway g nothing b z
    → Dominates g b x z
    → compute_post_order g ≡ us ++ x ∷ vs
    → has z us ≡ true
unfolding compute_post_order post_order_dfs Splits
dominated_first g b x z us vs graph first inside path dom h =
    let f = fuel g in
    let w =
      walk-Went g b graph f b no_order refl inside
        (unfold fuel in unmarked-le no_order.visited g.basic_blocks) (no_order-IsPosted g b)
        (here b (ground (arith, marked_visited g b b no_order b))) in
    let order_eq =
      ap (λ (c : Block). (walk seen_in marked pushed g f c no_order).order) (sym first) ∙ h in
    let sp = w.posted.behind in
    elim (last_part g x path) [
      | inl p ↦ absurd (dom.blocks p)
      | inr (inl e) ↦ absurd (dom.other e)
      | inr (inr (c, i, p)) ↦
          elim (sp us x vs order_eq x c (ground (arith, has-append_last x x us)) i) [
            | inr q ↦ absurd (dom.blocks (Walkway-append q p))
            | inl j ↦ elim (stays g b us x vs sp order_eq p j) [
              | inr q ↦ absurd (dom.blocks q)
              | inl k ↦ elim (Bool-cases (z == x)) [
                | inl e ↦ absurd (dom.other ((==_iff z x).0 e))
                | inr e ↦ ground (arith, k, e, has-append_last z x us)
              ]
            ]
          ]
    ]
