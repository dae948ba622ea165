-- ===== src/Cfg/Immediate.antt =====
-- The block that the loops of `ComputeDominatorTree` write is the immediate dominator.
use zettelkasten_public_subs.Common.{
  ◌≤◌, ◌≡◌, sym, ap, ◌∙◌, subst, ◌≢◌, ◌⊎◌, inl, inr, true, false, some, List, [], ◌∷◌, ◌++◌, ◌==◌,
  arith, Bool-cases, ==_iff,
}
use zettelkasten_public_subs.Cfg.{
  Block, Visited, has, Cfg, mark, nothing, itself, front, compute_pred_order, compute_dominators,
}
use zettelkasten_public_subs.Cfg.Paths.{Walkway, here, step}
use zettelkasten_public_subs.Cfg.Marks.{has_cases}
use zettelkasten_public_subs.Cfg.Walks.{IsGraph, Walks-reach}
use zettelkasten_public_subs.Cfg.Orders.{count, compute_orders_lem}
use zettelkasten_public_subs.Cfg.Orders.{count-append, has-count}
use zettelkasten_public_subs.Cfg.PredOrder.{has-split, dominator_first}
use zettelkasten_public_subs.Cfg.Dominators.{
  Dominates, not_marked, IsLast, compute_dominators_lem, around, around-Walks,
}
use mathlib.Core.List.{append_assoc}

apart : (b e : Block) → (b == e) ≡ false → mark e nothing b ≡ false
unfolding mark nothing
apart b e q = ground arith

pub Walkway-append :
    {g : Cfg} {v : Visited} {b c d : Block} → Walkway g v b c → Walkway g v c d → Walkway g v b d
Walkway-append (here b h) q = q
Walkway-append (step b x h e p) q = step b x h e (Walkway-append p q)

-- A path leads through `e` or it does not; if it does, its part from the last `e` on is a path too.
abbrev Behind : Cfg → Block → Block → Type 0
Behind g e x = (x ≡ e) ⊎ ((c : Block) × (has c (g.succs e) ≡ true) × Walkway g (mark e nothing) c x)

pub last_part :
    (g : Cfg) (e : Block) {v : Visited} {b x : Block}
    → Walkway g v b x
    → Walkway g (mark e nothing) b x ⊎ Behind g e x
last_part g e (here b h) = elim (Bool-cases (b == e)) [
  | inl q ↦ inr (inl ((==_iff b e).0 q))
  | inr q ↦ inl (here b (apart b e q))
]
last_part g e {x} (step b c h i p) = elim (last_part g e p) [
  | inr k ↦ inr k
  | inl k ↦ elim (Bool-cases (b == e)) [
    | inl q ↦ inr (inr (c, subst (λ (z : Block). has c (g.succs z) ≡ true) ((==_iff b e).0 q) i, k))
    | inr q ↦ inl (step b c (apart b e q) i k)
  ]
]

-- A path that is not around `d` has a part that begins there.
part_from :
    (g : Cfg) (d : Block) (v : Visited) {b x : Block}
    → Walkway g v b x
    → Walkway g (mark d nothing) b x ⊎ Walkway g v d x
part_from g d v (here b h) = elim (Bool-cases (b == d)) [
  | inl q ↦ inr (subst (λ (z : Block). Walkway g v z b) ((==_iff b d).0 q) (here b h))
  | inr q ↦ inl (here b (apart b d q))
]
part_from g d v {x} (step b c h i p) = elim (part_from g d v p) [
  | inr k ↦ inr k
  | inl k ↦ elim (Bool-cases (b == d)) [
    | inl q ↦ inr (subst (λ (z : Block). Walkway g v z x) ((==_iff b d).0 q) (step b c h i p))
    | inr q ↦ inl (step b c (apart b d q) i k)
  ]
]

-- A path leads to `e` or is around it.
pub part_to :
    (g : Cfg) (e : Block) (v : Visited) {b x : Block}
    → Walkway g v b x
    → Walkway g (mark e nothing) b x ⊎ Walkway g v b e
part_to g e v (here b h) = elim (Bool-cases (b == e)) [
  | inl q ↦ inr (subst (λ (z : Block). Walkway g v b z) ((==_iff b e).0 q) (here b h))
  | inr q ↦ inl (here b (apart b e q))
]
part_to g e v (step b c h i p) = elim (part_to g e v p) [
  | inr k ↦ inr (step b c h i k)
  | inl k ↦ elim (Bool-cases (b == e)) [
    | inl q ↦ inr (subst (λ (z : Block). Walkway g v b z) ((==_iff b e).0 q) (here b h))
    | inr q ↦ inl (step b c (apart b e q) i k)
  ]
]

-- Whether a path around `e` leads from `d` to `x` is decided by a walk.
pub path_cases :
    (g : Cfg) (e d x : Block)
    → IsGraph g
    → has d g.basic_blocks ≡ true
    → d ≢ e
    → x ≢ e
    → Walkway g (mark e nothing) d x ⊎ (¬ Walkway g (mark e nothing) d x)
unfolding itself
path_cases g e d x graph inside ne xe =
    let w = around-Walks g d e graph inside (not_marked e d ne) in
    let (to, from) =
      Walks-reach g itself d (mark e nothing) (around g d e) x w (not_marked e x xe) in
    elim (Bool-cases (around g d e x)) [
      | inl m ↦ inl (to m)
      | inr m ↦ inr (λ p. absurd (cc (m, from p)))
    ]

pub has-append_cases :
    (x : Block) (xs ys : List Block)
    → has x (xs ++ ys) ≡ true
    → (has x xs ≡ true) ⊎ (has x ys ≡ true)
unfolding has
has-append_cases x [] ys h = inr h
has-append_cases x (y ∷ xs) ys h = ground (arith, has-append_cases x xs ys)

pub has_middle : (d : Block) (xs ys : List Block) → has d (xs ++ d ∷ ys) ≡ true
unfolding has
has_middle d [] ys = ground arith
has_middle d (x ∷ xs) ys = ground (arith, has_middle d xs ys)

-- A block that stands twice in a list.
pub twice :
    (d e : Block) (xs ys zs : List Block)
    → has d xs ≡ true
    → count d (xs ++ e ∷ (ys ++ d ∷ zs)) ≤ 1
    → ⊥
twice d e xs ys zs h once =
    let first = (has-count d xs).0 h in
    let second = (has-count d (ys ++ d ∷ zs)).0 (has_middle d ys zs) in
    absurd
      (unfold count in omega (arith, first, second, once, count-append d xs (e ∷ (ys ++ d ∷ zs))))

module _ (g : Cfg) (graph : IsGraph g) (b : Block) (first : front g.basic_blocks ≡ b)
    (inside : has b g.basic_blocks ≡ true) where
  -- Of two dominators of a block one dominates the other: `d` does if no path around `e` leads from it.
  pub other_way :
      (d e x : Block)
      → Walkway g nothing b x
      → Dominates g b d x
      → Dominates g b e x
      → e ≢ d
      → ¬ Walkway g (mark e nothing) d x
      → ¬ Walkway g (mark d nothing) b e
  other_way d e x path dd de ne no_path q = elim (last_part g e path) [
    | inl p ↦ de.blocks p
    | inr (inl same) ↦ de.other same
    | inr (inr (c, i, p)) ↦ elim (part_from g d (mark e nothing) p) [
      | inr k ↦ no_path k
      | inl k ↦ dd.blocks (Walkway-append q (step e c (not_marked d e ne) i k))
    ]
  ]

  -- Then `e` would stand before `d` in the order, and `d` before `e`.
  not_before :
      (d e x : Block)
      → IsLast g b (compute_pred_order g) x d
      → Walkway g nothing b e
      → Dominates g b e x
      → e ≢ d
      → ¬ Walkway g (mark d nothing) b e
      → ⊥
  not_before d e x last path de ne blocks =
      let listed = ((compute_orders_lem g b e graph first inside).0.0).1 path in
      elim (has-append_cases e last.earlier (d ∷ last.later)
        (ap (has e) (sym last.splits) ∙ listed)) [
          | inr k ↦ elim (has_cases e d last.later k) [
            | inl q ↦ absurd (ne q)
            | inr q ↦ absurd (last.last e q de)
          ]
          | inl k ↦
              let (xs, ys, split) = has-split e last.earlier k in
              let whole =
                last.splits
                ∙ ap (λ l. l ++ d ∷ last.later) split
                ∙ append_assoc xs (e ∷ ys) (d ∷ last.later) in
              let earlier =
                dominator_first g b d e xs (ys ++ d ∷ last.later) first whole ne blocks in
              let once = (compute_orders_lem g b d graph first inside).0.1 in
              twice d e xs ys last.later earlier (subst (λ l. count d l ≤ 1) whole once)
        ]

  pub path-inside :
      {v : Visited} {x y : Block}
      → Walkway g v x y
      → has x g.basic_blocks ≡ true
      → has y g.basic_blocks ≡ true
  path-inside (here x h) k = k
  path-inside (step x c h e p) k = path-inside p (graph x c k e)

  pub last-path : (d x : Block) → IsLast g b (compute_pred_order g) x d → Walkway g nothing b d
  last-path d x last =
      ((compute_orders_lem g b d graph first inside).0.0).0
        (ap (has d) last.splits ∙ has_middle d last.earlier last.later)

  pub IsLast-immediate :
      (d e x : Block)
      → IsLast g b (compute_pred_order g) x d
      → Walkway g nothing b x
      → Dominates g b e x
      → e ≢ d
      → Dominates g b e d
  IsLast-immediate d e x last path de ne =
      let dd = last.dominates in
      elim (path_cases g e d x graph (path-inside (last-path d x last) inside) (λ q. ne (sym q))
        de.other) [
          | inl p ↦ record {
            other = λ q. ne (sym q);
            blocks = λ q. absurd (de.blocks (Walkway-append q p));
          }
          | inr no_path ↦
              let blocks = other_way d e x path dd de ne no_path in
              let to_e : Walkway g nothing b e = elim (part_to g e nothing path) [
                | inl q ↦ absurd (de.blocks q)
                | inr q ↦ q
              ] in
              absurd (not_before d e x last to_e de ne blocks)
        ]

-- On a graph whose links lead to its blocks, what the loops leave in the field of a block, other than
-- the first and with a path from it, is its immediate dominator: every other block that dominates the
-- block dominates the one in the field.
pub compute_dominators-immediate :
    (g : Cfg) (b x d e : Block)
    → IsGraph g
    → front g.basic_blocks ≡ b
    → has b g.basic_blocks ≡ true
    → Walkway g nothing b x
    → x ≢ b
    → compute_dominators g x ≡ some d
    → Dominates g b e x
    → e ≢ d
    → Dominates g b d x × Dominates g b e d
compute_dominators-immediate g b x d e graph first inside path xb h de ne =
    let (d', h', last') = compute_dominators_lem g b x graph first inside path xb in
    let same : d' ≡ d = ground (arith, h, h') in
    let last = subst (λ (z : Block). IsLast g b (compute_pred_order g) x z) same last' in
    (last.dominates, IsLast-immediate g graph b first inside d e x last path de ne)
