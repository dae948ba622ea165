-- ===== src/Cfg/Dominance.antt =====
-- Dominance as an order on the blocks that a path from the first block leads to, and the field
-- `Dominator` in it.
use zettelkasten_public_subs.Common.{
  ◌≤◌, ◌≡◌, sym, ap, ◌∙◌, subst, ◌≢◌, ◌⊎◌, inl, inr, true, some, List, ◌∷◌, ◌++◌, ◌==◌, arith,
  Bool-cases, ==_iff,
}
use zettelkasten_public_subs.Cfg.{
  Block, has, Cfg, mark, nothing, front, compute_pred_order, compute_dominators,
}
use zettelkasten_public_subs.Cfg.Paths.{Walkway}
use zettelkasten_public_subs.Cfg.Walks.{IsGraph}
use zettelkasten_public_subs.Cfg.Orders.{count, compute_orders_lem}
use zettelkasten_public_subs.Cfg.PredOrder.{has-split, dominator_first, Walkway-snoc}
use zettelkasten_public_subs.Cfg.Dominators.{
  Dominates, not_marked, IsLast, compute_dominators_lem, has-field, first-not_dominated,
  compute_dominators-first,
}
use zettelkasten_public_subs.Cfg.Immediate.{
  Walkway-append, part_to, path_cases, twice, other_way, path-inside, last-path, IsLast-immediate,
}
use mathlib.Core.List.{append_assoc}

module _ (g : Cfg) (graph : IsGraph g) (b : Block) (first : front g.basic_blocks ≡ b)
    (inside : has b g.basic_blocks ≡ true) where
  pub above-reached :
      (x p : Block) → Walkway g nothing b p → Dominates g b x p → Walkway g nothing b x
  above-reached x p path dom = elim (part_to g x nothing path) [
    | inl q ↦ absurd (dom.blocks q)
    | inr q ↦ q
  ]

  -- A dominator stands before the block in the first order.
  pub stands_before :
      (x y : Block) (xs ys : List Block)
      → Dominates g b x y
      → compute_pred_order g ≡ xs ++ y ∷ ys
      → (us : List Block) × (vs : List Block) × (xs ≡ us ++ x ∷ vs)
  stands_before x y xs ys dom whole =
      has-split x xs (dominator_first g b x y xs ys first whole dom.other dom.blocks)

  pub Dominates-asym :
      (x y : Block) → Walkway g nothing b y → Dominates g b x y → ¬ Dominates g b y x
  Dominates-asym x y path dom back =
      let (orders, once) = (compute_orders_lem g b y graph first inside).0 in
      let (xs, ys, whole) = has-split y (compute_pred_order g) (orders.1 path) in
      let (us, vs, split) = stands_before x y xs ys dom whole in
      let all = whole ∙ ap (λ l. l ++ y ∷ ys) split ∙ append_assoc us (x ∷ vs) (y ∷ ys) in
      let earlier = dominator_first g b y x us (vs ++ y ∷ ys) first all back.other back.blocks in
      twice y x us vs ys earlier (subst (λ l. count y l ≤ 1) all once)

  pub Dominates-trans :
      (x y z : Block)
      → Walkway g nothing b z
      → Dominates g b x y
      → Dominates g b y z
      → Dominates g b x z
  Dominates-trans x y z path xy yz = record {
    other = λ e. Dominates-asym y z path yz (subst (λ (w : Block). Dominates g b w y) (sym e) xy);
    blocks =
        λ q. elim (part_to g y (mark x nothing) q) [ inl r ↦ yz.blocks r | inr r ↦ xy.blocks r ];
  }

  -- What dominates a block is a block before it or dominates that one.
  pub edge-Dominates :
      (d p y : Block) → has y (g.succs p) ≡ true → Dominates g b d y → (p ≡ d) ⊎ Dominates g b d p
  edge-Dominates d p y edge dom = elim (Bool-cases (p == d)) [
    | inl e ↦ inl ((==_iff p d).0 e)
    | inr e ↦ inr (record {
      other = λ q. absurd (ground (arith, e, (==_iff p d).1 q));
      blocks = λ q. dom.blocks (Walkway-snoc y q (not_marked d y dom.other) edge);
    })
  ]

  pub comparable :
      (d e p : Block)
      → Walkway g nothing b p
      → Dominates g b d p
      → Dominates g b e p
      → e ≢ d
      → Dominates g b e d ⊎ Dominates g b d e
  comparable d e p path dd de ne =
      let in_graph = path-inside g graph b first inside (above-reached d p path dd) inside in
      elim (path_cases g e d p graph in_graph (λ q. ne (sym q)) de.other) [
        | inl r ↦
            inl (record { other = λ q. ne (sym q); blocks = λ q. de.blocks (Walkway-append q r) })
        | inr none_there ↦ inr (record {
          other = ne;
          blocks = other_way g graph b first inside d e p path dd de ne none_there;
        })
      ]

  -- The field holds the last of the dominators.
  pub record IsImmediate (y d : Block) : Type 0 where
    pub dominates : Dominates g b d y
    pub reached : Walkway g nothing b d
    pub immediate : (e : Block) → Dominates g b e y → e ≢ d → Dominates g b e d

  not_first : (y e : Block) → Dominates g b e y → y ≢ b
  not_first y e dom q = first-not_dominated g b e (subst (λ (z : Block). Dominates g b e z) q dom)

  pub compute_dominators-IsImmediate :
      (y d : Block) → compute_dominators g y ≡ some d → IsImmediate y d
  compute_dominators-IsImmediate y d h =
      let path = has-field g b y d graph first inside h in
      let yb : y ≢ b = λ q.
        absurd
          (cc (h, compute_dominators-first g b graph first inside, ap (compute_dominators g) q)) in
      let (d', h', last') = compute_dominators_lem g b y graph first inside path yb in
      let same : d' ≡ d = ground (arith, h, h') in
      let last = subst (λ (z : Block). IsLast g b (compute_pred_order g) y z) same last' in
      record {
        dominates = last.dominates;
        reached = last-path g graph b first inside d y last;
        immediate = λ e de ne. IsLast-immediate g graph b first inside d e y last path de ne;
      }

  pub Dominates-IsImmediate :
      (y e : Block)
      → Walkway g nothing b y
      → Dominates g b e y
      → (d : Block) × (compute_dominators g y ≡ some d) × IsImmediate y d
  Dominates-IsImmediate y e path dom =
      let (d, h, last) = compute_dominators_lem g b y graph first inside path (not_first y e dom) in
      (d, h, compute_dominators-IsImmediate y d h)
