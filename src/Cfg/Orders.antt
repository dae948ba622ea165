-- ===== src/Cfg/Orders.antt =====
-- The two orders that are built: the blocks that a path from the first block leads to, each once.
use zettelkasten_public_subs.Common.{
  ℕ, zero, suc, ◌+◌, ◌≤◌, ◌<◌, ◌≡◌, refl, sym, ap, ◌∙◌, subst, ◌↔◌, Bool, true, false, List, [],
  ◌∷◌, ◌++◌, ◌==◌, if◌then◌else◌, length, arith,
}
use zettelkasten_public_subs.Cfg.{
  Block, Visited, has, Cfg, mark, nothing, visit, walk, Order, seen_in, push_marked, marked, pushed,
  unchanged, pred_order_dfs, post_order_dfs, front, fuel, no_order, compute_pred_order,
  compute_post_order,
}
use zettelkasten_public_subs.Cfg.Paths.{Walkway}
use zettelkasten_public_subs.Cfg.Marks.{unmarked, unmarked-le}
use zettelkasten_public_subs.Cfg.Walks.{IsGraph, Walks, walk-Walks, Walks-reach}
use mathlib.Core.List.{append_assoc, append-nil}

-- What holds between the states before and after a walk, by the rounds that it consists of.
module _ {S : Type 0} (seen : S → Visited) (before behind : Block → S → S) (R : S → S → Type 0)
    (same : (s : S) → R s s) (both : (s t u : S) → R s t → R t u → R s u)
    (round : (b : Block) (s t : S) → seen s b ≡ false → R (before b s) t → R s (behind b t))
    (g : Cfg) where
  pub visit_lem :
      (go : Block → S → S)
      → ((b : Block) (s : S) → seen s b ≡ false → R s (go b s))
      → (xs : List Block) (s : S) → R s (visit seen go xs s)
  unfolding visit
  visit_lem go goes [] s = same s
  visit_lem go goes (x ∷ xs) s = both s _ _ (one (seen s x) refl) (visit_lem go goes xs _)
    where
      one : (m : Bool) → seen s x ≡ m → R s (elim m [ true ↦ s | false ↦ go x s ])
      one true e = same s
      one false e = goes x s e

  pub walk_lem :
      (f : ℕ) (b : Block) (s : S) → seen s b ≡ false → R s (walk seen before behind g f b s)
  unfolding walk
  walk_lem zero b s n = same s
  walk_lem (suc f) b s n =
      round b s (visit seen (walk seen before behind g f) (g.succs b) (before b s)) n
        (visit_lem (walk seen before behind g f) (walk_lem f) (g.succs b) (before b s))

-- How often a block stands in an order.
unfoldable pub count : Block → List Block → ℕ
count b [] = 0
count b (x ∷ xs) = (if b == x then 1 else 0) + count b xs

pub count-append : (b : Block) (xs ys : List Block) → count b (xs ++ ys) ≡ count b xs + count b ys
unfolding count
count-append b [] ys = omega arith
count-append b (x ∷ xs) ys = omega (arith, count-append b xs ys)

count_one : (b x : Block) → count b (x ∷ []) ≡ (if b == x then 1 else 0)
unfolding count
count_one b x = omega arith

pub has-count : (b : Block) (xs : List Block) → (has b xs ≡ true) ↔ (0 < count b xs)
unfolding has count
has-count b [] = ground arith
has-count b (x ∷ xs) = ground (arith, has-count b xs)

abbrev one_if : Bool → ℕ
one_if true = 1
one_if false = 0

-- A walk adds to the order what it marks.
abbrev Adds : Order → Order → Type 0
Adds s t =
    (x : Block) → count x t.order + one_if (s.visited x) ≡ count x s.order + one_if (t.visited x)

pre_round :
    (b : Block) (s t : Order)
    → seen_in s b ≡ false
    → Adds (push_marked b s) t
    → Adds s (unchanged b t)
unfolding seen_in push_marked unchanged mark
pre_round b s t n h x = ground (arith, n, h x, count-append x s.order (b ∷ []), count_one x b)

post_round :
    (b : Block) (s t : Order) → seen_in s b ≡ false → Adds (marked b s) t → Adds s (pushed b t)
unfolding seen_in marked pushed mark
post_round b s t n h x = ground (arith, n, h x, count-append x t.order (b ∷ []), count_one x b)

none_seen : (b : Block) → seen_in no_order b ≡ false
unfolding seen_in
none_seen b = refl

visited_of : (x : Block) (t : Order) → 0 < one_if (t.visited x) → t.visited x ≡ true
visited_of x t h = ground arith

one_if-le : (m : Bool) → one_if m ≤ 1
one_if-le true = omega arith
one_if-le false = omega arith

Adds-same : (s : Order) → Adds s s
Adds-same s x = refl

Adds-both : (s t u : Order) → Adds s t → Adds t u → Adds s u
Adds-both s t u h k x = omega (arith, h x, k x)

-- The walks from the state with nothing visited.
pred_Adds :
    (g : Cfg) (f : ℕ) (b : Block)
    → Adds no_order (walk seen_in push_marked unchanged g f b no_order)
pred_Adds g f b =
    walk_lem seen_in push_marked unchanged Adds Adds-same Adds-both pre_round g f b no_order
      (none_seen b)

post_Adds :
    (g : Cfg) (f : ℕ) (b : Block) → Adds no_order (walk seen_in marked pushed g f b no_order)
post_Adds g f b =
    walk_lem seen_in marked pushed Adds Adds-same Adds-both post_round g f b no_order (none_seen b)

unchanged_keeps : (b : Block) (s : Order) (x : Block) → seen_in (unchanged b s) x ≡ seen_in s x
unfolding unchanged
unchanged_keeps b s x = refl

push_marked_marks :
    (b : Block) (s : Order) (x : Block) → seen_in (push_marked b s) x ≡ mark b (seen_in s) x
unfolding push_marked seen_in
push_marked_marks b s x = refl

marked_marks : (b : Block) (s : Order) (x : Block) → seen_in (marked b s) x ≡ mark b (seen_in s) x
unfolding marked seen_in
marked_marks b s x = refl

pushed_keeps : (b : Block) (s : Order) (x : Block) → seen_in (pushed b s) x ≡ seen_in s x
unfolding pushed seen_in
pushed_keeps b s x = refl

pub enough_fuel : (g : Cfg) (v : Visited) → unmarked v g.basic_blocks ≤ fuel g
unfolding fuel
enough_fuel g v = unmarked-le v g.basic_blocks

pred_Walks :
    (g : Cfg) (b : Block)
    → IsGraph g
    → has b g.basic_blocks ≡ true
    → Walks g seen_in b no_order (walk seen_in push_marked unchanged g (fuel g) b no_order)
pred_Walks g b graph inside =
    walk-Walks g seen_in push_marked unchanged push_marked_marks unchanged_keeps graph (fuel g) b
      no_order (none_seen b) inside (enough_fuel g (seen_in no_order))

post_Walks :
    (g : Cfg) (b : Block)
    → IsGraph g
    → has b g.basic_blocks ≡ true
    → Walks g seen_in b no_order (walk seen_in marked pushed g (fuel g) b no_order)
post_Walks g b graph inside =
    walk-Walks g seen_in marked pushed marked_marks pushed_keeps graph (fuel g) b no_order
      (none_seen b) inside (enough_fuel g (seen_in no_order))

-- Each block that a path from the first one leads to stands in the order, once.
abbrev pub Lists : Cfg → Block → List Block → Block → Type 0
Lists g b order x = ((has x order ≡ true) ↔ Walkway g nothing b x) × (count x order ≤ 1)

Lists_lem :
    (g : Cfg) (b x : Block) (t : Order)
    → Adds no_order t
    → Walks g seen_in b no_order t
    → Lists g b t.order x
unfolding count nothing seen_in
Lists_lem g b x t adds w =
    let (to, from) = Walks-reach g seen_in b no_order t x w refl in
    let (counted, uncounted) = has-count x t.order in
    let total = adds x in
    (
      (
        λ h. to (visited_of x t (omega (arith, counted h, total))),
        λ p. uncounted (omega (arith, total, ap one_if (from p))),
      ),
      omega (arith, total, one_if-le (t.visited x)),
    )

-- On a graph whose links lead to its blocks, both orders hold exactly the blocks that a path from the
-- first block leads to, and each of them once.
pub compute_orders_lem :
    (g : Cfg) (b x : Block)
    → IsGraph g
    → front g.basic_blocks ≡ b
    → has b g.basic_blocks ≡ true
    → Lists g b (compute_pred_order g) x × Lists g b (compute_post_order g) x
unfolding compute_pred_order compute_post_order pred_order_dfs post_order_dfs
compute_orders_lem g b x graph first inside =
    subst
      (λ (c : Block).
        Lists g b (walk seen_in push_marked unchanged g (fuel g) c no_order).order x
        × Lists g b (walk seen_in marked pushed g (fuel g) c no_order).order x)
      (sym first)
      (
        Lists_lem g b x (walk seen_in push_marked unchanged g (fuel g) b no_order)
            (pred_Adds g (fuel g) b) (pred_Walks g b graph inside),
        Lists_lem g b x (walk seen_in marked pushed g (fuel g) b no_order) (post_Adds g (fuel g) b)
            (post_Walks g b graph inside),
      )

-- The first order begins with the first block.
unfoldable pub Extends : Order → Order → Type 0
Extends s t = (ys : List Block) × (t.order ≡ s.order ++ ys)

Extends-round :
    (b : Block) (s t : Order)
    → seen_in s b ≡ false
    → Extends (push_marked b s) t
    → Extends s (unchanged b t)
unfolding Extends push_marked unchanged
Extends-round b s t n (ys, e) = (b ∷ ys, e ∙ append_assoc s.order (b ∷ []) ys)

pub Extends-both : (s t u : Order) → Extends s t → Extends t u → Extends s u
unfolding Extends
Extends-both s t u (ys, e) (zs, k) =
    (ys ++ zs, k ∙ ap (λ l. l ++ zs) e ∙ append_assoc s.order ys zs)

pub Extends-same : (s : Order) → Extends s s
unfolding Extends
Extends-same s = ([], sym (append-nil s.order))

first_walk :
    (g : Cfg) (f : ℕ) (b : Block)
    → 0 < f
    → (ys : List Block) × ((walk seen_in push_marked unchanged g f b no_order).order ≡ b ∷ ys)
unfolding walk push_marked unchanged Extends
first_walk g zero b h = absurd (omega arith)
first_walk g (suc f) b h =
    visit_lem seen_in push_marked unchanged Extends Extends-same Extends-both Extends-round g
      (walk seen_in push_marked unchanged g f)
      (walk_lem seen_in push_marked unchanged Extends Extends-same Extends-both Extends-round g f)
      (g.succs b) (push_marked b no_order)

has-length : (b : Block) (xs : List Block) → has b xs ≡ true → 0 < length xs
unfolding has
has-length b [] h = cc
has-length b (x ∷ xs) h = omega arith

pub front-pred_order :
    (g : Cfg) (b : Block)
    → front g.basic_blocks ≡ b
    → has b g.basic_blocks ≡ true
    → front (compute_pred_order g) ≡ b
unfolding compute_pred_order pred_order_dfs fuel front
front-pred_order g b first inside =
    let (ys, e) =
      first_walk g (length g.basic_blocks) (front g.basic_blocks)
        (has-length b g.basic_blocks inside) in
    ap front e ∙ first
