-- ===== src/Cfg/Base.antt =====
-- The sets of `ComputeBaseDominanceFrontier` are the dominance frontiers.
use zettelkasten_public_subs.Common.{
  ℕ, zero, suc, ◌≤◌, ◌<◌, ◌≡◌, refl, sym, ap, ◌∙◌, subst, ◌↔◌, inl, inr, true, false, List, ◌∷◌,
  ◌++◌, ◌==◌, length, length-append, arith, Bool-cases, ==_iff,
}
use zettelkasten_public_subs.Cfg.{
  Block, has, Cfg, nothing, front, compute_pred_order, compute_post_order, compute_dominators,
}
use zettelkasten_public_subs.Cfg.Paths.{Walkway}
use zettelkasten_public_subs.Cfg.Walks.{IsGraph}
use zettelkasten_public_subs.Cfg.Orders.{count, count-append, has-count, compute_orders_lem}
use zettelkasten_public_subs.Cfg.PredOrder.{has-split, Walkway-snoc}
use zettelkasten_public_subs.Cfg.Immediate.{path-inside}
use zettelkasten_public_subs.Cfg.PostOrder.{dominated_first}
use zettelkasten_public_subs.Cfg.Dominators.{Dominates, has-field}
use zettelkasten_public_subs.Cfg.Dominance.{
  stands_before, Dominates-trans, compute_dominators-IsImmediate, Dominates-IsImmediate,
}
use zettelkasten_public_subs.Cfg.Frontier.{
  Frontier, is_dominated_by, base_frontier_from, compute_base_dominance_frontier,
}
use zettelkasten_public_subs.Cfg.Rows.{
  is_dominated_by_iff, row, row-edge, row-up, rows-keep, rows-other, rows-append, rows_at,
  rows-HaveAll,
}
use mathlib.Core.List.{append_assoc}
use zettelkasten_public_subs.Cfg.DominanceFrontier.{
  Above, InFrontier, edge-InFrontier, up-InFrontier,
}

module _ (g : Cfg) (graph : IsGraph g) (b : Block) (first : front g.basic_blocks ≡ b)
    (inside : has b g.basic_blocks ≡ true) where
  by_order :
      (order : List Block) (u y : Block)
      → compute_post_order g ≡ order
      → compute_base_dominance_frontier g u y
        ≡ base_frontier_from g (compute_dominators g) order (λ v w. false) u y
  unfolding compute_base_dominance_frontier
  by_order order u y h =
      ap (λ l. base_frontier_from g (compute_dominators g) l (λ v w. false) u y) h

  -- The sets at the end, at the round of a block.
  final_at :
      (us : List Block) (x : Block) (vs : List Block) (u y : Block)
      → compute_post_order g ≡ us ++ x ∷ vs
      → compute_base_dominance_frontier g u y
        ≡ base_frontier_from g
            (compute_dominators g)
            vs
            (row g
              (compute_dominators g)
              x
              (base_frontier_from g (compute_dominators g) us (λ v w. false)))
            u
            y
  final_at us x vs u y h =
      by_order (us ++ x ∷ vs) u y h
      ∙ ap (λ (df : Frontier). df u y) (rows_at g (compute_dominators g) us x vs (λ v w. false))

  in_post_order :
      (x : Block)
      → Walkway g nothing b x
      → (us : List Block) × (vs : List Block) × (compute_post_order g ≡ us ++ x ∷ vs)
  in_post_order x path =
      has-split x (compute_post_order g)
        (((compute_orders_lem g b x graph first inside).1.0).1 path)

  edge_found :
      (x y : Block)
      → Walkway g nothing b x
      → has y (g.succs x) ≡ true
      → is_dominated_by (compute_dominators g) x y ≡ false
      → compute_base_dominance_frontier g x y ≡ true
  edge_found x y path edge guard =
      let d = compute_dominators g in
      let (us, vs, h) = in_post_order x path in
      let df = base_frontier_from g d us (λ v w. false) in
      final_at us x vs x y h ∙ rows-keep g d vs (row g d x df) x y (row-edge g d x df y edge guard)

  -- A block that stands in the first part of the order does not stand in the rest.
  not_later :
      (z x : Block) (us vs : List Block)
      → compute_post_order g ≡ us ++ x ∷ vs
      → has z us ≡ true
      → has z (x ∷ vs) ≡ false
  not_later z x us vs h i = elim (Bool-cases (has z (x ∷ vs))) [
    | inr m ↦ m
    | inl m ↦
        let once = subst (λ l. count z l ≤ 1) h (compute_orders_lem g b z graph first inside).1.1 in
        absurd (
          omega (
            arith,
            once,
            count-append z us (x ∷ vs),
            (has-count z us).0 i,
            (has-count z (x ∷ vs)).0 m,
          ))
  ]

  up_found :
      (x z y : Block)
      → is_dominated_by (compute_dominators g) x z ≡ true
      → compute_base_dominance_frontier g z y ≡ true
      → is_dominated_by (compute_dominators g) x y ≡ false
      → compute_base_dominance_frontier g x y ≡ true
  up_found x z y child found guard =
      let d = compute_dominators g in
      let field = (is_dominated_by_iff d x z).0 child in
      let fz = compute_dominators-IsImmediate g graph b first inside z x field in
      let path = has-field g b z x graph first inside field in
      let (us, vs, h) = in_post_order x fz.reached in
      let df = base_frontier_from g d us (λ v w. false) in
      let early = dominated_first g b x z us vs graph first inside path fz.dominates h in
      let later = not_later z x us vs h early in
      let before : df z y ≡ true =
        sym (
          by_order (us ++ x ∷ vs) z y h
          ∙ ap (λ (f : Frontier). f z y) (rows-append g d us (x ∷ vs) (λ v w. false))
          ∙ rows-other g d (x ∷ vs) df z y later)
        ∙ found in
      final_at us x vs x y h
      ∙ rows-keep g d vs (row g d x df) x y
          (row-up g d x df z y (path-inside g graph b first inside path inside) child before guard)

  not_dominated :
      (x y : Block) → ¬ Dominates g b x y → is_dominated_by (compute_dominators g) x y ≡ false
  not_dominated x y no_dom = elim (Bool-cases (is_dominated_by (compute_dominators g) x y)) [
    | inr m ↦ m
    | inl m ↦ absurd (
        no_dom
          (compute_dominators-IsImmediate g graph b first inside y x
            ((is_dominated_by_iff (compute_dominators g) x y).0 m)).dominates)
  ]

  -- Up the fields from a block to one that dominates it; `xs` stands before the block in the first order.
  climb :
      (n : ℕ) (x y w : Block) (xs ys : List Block)
      → compute_pred_order g ≡ xs ++ w ∷ ys
      → length xs < n
      → Walkway g nothing b y
      → Walkway g nothing b w
      → Above g b x w
      → ¬ Dominates g b x y
      → compute_base_dominance_frontier g w y ≡ true
      → compute_base_dominance_frontier g x y ≡ true
  climb zero x y w xs ys h small to_y path above no_dom found = absurd (omega arith)
  climb (suc n) x y w xs ys h small to_y path (inl e) no_dom found =
      ap (λ (v : Block). compute_base_dominance_frontier g v y) e ∙ found
  climb (suc n) x y w xs ys h small to_y path (inr dom) no_dom found =
      let (d, field, f) = Dominates-IsImmediate g graph b first inside w x path dom in
      let above : Above g b x d = elim (Bool-cases (x == d)) [
        | inl e ↦ inl ((==_iff x d).0 e)
        | inr e ↦ inr (f.immediate x dom (λ q. absurd (ground (arith, e, (==_iff x d).1 q))))
      ] in
      let no_dom' : ¬ Dominates g b d y = λ k. elim above [
        | inl e ↦ no_dom (subst (λ (v : Block). Dominates g b v y) (sym e) k)
        | inr q ↦ no_dom (Dominates-trans g graph b first inside x d y to_y q k)
      ] in
      let (us, vs, split) = stands_before g graph b first inside d w xs ys f.dominates h in
      let whole = h ∙ ap (λ l. l ++ w ∷ ys) split ∙ append_assoc us (d ∷ vs) (w ∷ ys) in
      let size = ap (λ (l : List Block). length l) split in
      let child = (is_dominated_by_iff (compute_dominators g) d w).1 field in
      climb n x y d us (vs ++ w ∷ ys) whole (omega (arith, small, size, length-append us (d ∷ vs)))
        to_y f.reached above no_dom (up_found d w y child found (not_dominated d y no_dom'))

pub compute_base_dominance_frontier_lem :
    (g : Cfg) (b x y : Block)
    → IsGraph g
    → front g.basic_blocks ≡ b
    → has b g.basic_blocks ≡ true
    → (compute_base_dominance_frontier g x y ≡ true) ↔ InFrontier g b x y
unfolding compute_base_dominance_frontier nothing
compute_base_dominance_frontier_lem g b x y graph first inside =
    let d = compute_dominators g in
    (
      λ h.
          rows-HaveAll g d (InFrontier g b) (compute_post_order g) (λ v w. false)
            (λ u w k. absurd (cc k))
            (λ u w i.
              edge-InFrontier g graph b first inside u w
                (((compute_orders_lem g b u graph first inside).1.0).0 i))
            (up-InFrontier g graph b first inside) x y h,
      λ i.
          let p = i.before in
          let to_y = Walkway-snoc y i.path refl i.edge in
          let no_dom : ¬ Dominates g b p y = λ k. elim i.above [
            | inl e ↦ i.not_above (subst (λ (v : Block). Dominates g b v y) (sym e) k)
            | inr q ↦ i.not_above (Dominates-trans g graph b first inside x p y to_y q k)
          ] in
          let (xs, ys, h) =
            has-split p (compute_pred_order g)
              (((compute_orders_lem g b p graph first inside).0.0).1 i.path) in
          climb g graph b first inside (suc (length xs)) x y p xs ys h (omega arith) to_y i.path
            i.above i.not_above
            (edge_found g graph b first inside p y i.path i.edge
              (not_dominated g graph b first inside p y no_dom)),
    )
