-- ===== src/Cfg.antt =====
-- The control-flow graph of 2022-03-17-SSA-form-implementation/main.cpp: the links of the blocks, the
-- three walks in depth, the dominators and the dominance frontier. A block is known by a number, which
-- is what a pointer to it holds; a map of visited blocks and a set of blocks are functions to
-- Booleans. A walk gets the number of the blocks as fuel, and a theorem says that it is enough.
pub mod Links
pub mod Paths
pub mod Marks
pub mod Walks
pub mod Orders
pub mod Dominators
pub mod PredOrder
pub mod PostOrder
pub mod Dominance
pub mod Rows
pub mod DominanceFrontier
pub mod Base
pub mod Immediate
pub mod Frontier
pub mod Closure
pub mod Tests
use zettelkasten_public_subs.Common.{
  ℕ, zero, suc, ◌+◌, Bool, true, false, Option, none, some, List, [], ◌∷◌, ◌++◌, ◌==◌,
  if◌then◌else◌, length, ◌||◌, not,
}

abbrev pub Block : Type 0
Block = ℕ

abbrev pub Visited : Type 0
Visited = Block → Bool

unfoldable pub has : Block → List Block → Bool
has b [] = false
has b (x ∷ xs) = b == x || has b xs

pub record Cfg : Type 0 where
  pub basic_blocks : List Block
  pub succs : Block → List Block
  pub preds : Block → List Block

-- `AddBlock`
unfoldable pub add_block : Block → Cfg → Cfg
add_block b g = record g { basic_blocks = g.basic_blocks ++ b ∷ [] }

unfoldable pub push_new : Block → List Block → List Block
push_new b xs = if has b xs then xs else xs ++ b ∷ []

unfoldable pub write_at : Block → List Block → (Block → List Block) → Block → List Block
write_at b xs m c = if c == b then xs else m c

-- `AddLink`
unfoldable pub add_link : Block → Block → Cfg → Cfg
add_link pred succ g = record g {
  preds = write_at succ (push_new pred (g.preds succ)) g.preds;
  succs = write_at pred (push_new succ (g.succs pred)) g.succs;
}

unfoldable pub mark : Block → Visited → Visited
mark b v x = x == b || v x

unfoldable pub nothing : Visited
nothing x = false

-- The loop over the successors that all three walks have: it goes on to those that are not visited.
unfoldable pub visit : {S : Type 0} → (S → Visited) → (Block → S → S) → List Block → S → S
visit seen go [] s = s
visit seen go (x ∷ xs) s = visit seen go xs (elim (seen s x) [ true ↦ s | false ↦ go x s ])

-- A walk, by what it does before the loop and behind it.
unfoldable pub walk :
    {S : Type 0} → (S → Visited) → (Block → S → S) → (Block → S → S) → Cfg → ℕ → Block → S → S
walk seen before behind g zero b s = s
walk seen before behind g (suc f) b s =
    behind b (visit seen (walk seen before behind g f) (g.succs b) (before b s))

-- The map of the visited blocks and the order that is built.
pub record Order : Type 0 where
  pub visited : Visited
  pub order : List Block

unfoldable pub seen_in : Order → Visited
seen_in s = s.visited

unfoldable pub push_marked : Block → Order → Order
push_marked b s = record { visited = mark b s.visited; order = s.order ++ b ∷ [] }

unfoldable pub marked : Block → Order → Order
marked b s = record s { visited = mark b s.visited }

unfoldable pub pushed : Block → Order → Order
pushed b s = record s { order = s.order ++ b ∷ [] }

unfoldable pub unchanged : {S : Type 0} → Block → S → S
unchanged b s = s

unfoldable pub itself : Visited → Visited
itself v = v

unfoldable pub pred_order_dfs : Cfg → ℕ → Block → Order → Order
pred_order_dfs = walk seen_in push_marked unchanged

unfoldable pub post_order_dfs : Cfg → ℕ → Block → Order → Order
post_order_dfs = walk seen_in marked pushed

-- `DomDFS`
unfoldable pub dom_dfs : Cfg → ℕ → Block → Visited → Visited
dom_dfs g f b v = elim (v b) [ true ↦ v | false ↦ walk itself mark unchanged g f b v ]

-- `BasicBlocks.front()`, of a graph with blocks.
unfoldable pub front : List Block → Block
front [] = 0
front (b ∷ bs) = b

unfoldable pub fuel : Cfg → ℕ
fuel g = length g.basic_blocks

abbrev pub no_order : Order
no_order = record { visited = λ x. false; order = [] }

-- `ComputePredOrder` and `ComputePostOrder` on a graph whose orders are empty.
unfoldable pub compute_pred_order : Cfg → List Block
compute_pred_order g = (pred_order_dfs g (fuel g) (front g.basic_blocks) no_order).order

unfoldable pub compute_post_order : Cfg → List Block
compute_post_order g = (post_order_dfs g (fuel g) (front g.basic_blocks) no_order).order

-- The field `Dominator` of each block. It has no value before the first write; `none` stands for that.
abbrev pub Dominator : Type 0
Dominator = Block → Option Block

-- What a round of the first loop of `ComputeDominatorTree` writes to the field of `Jt`.
unfoldable pub dominated : Visited → Block → Option Block → Block → Option Block
dominated v it old jt = if v jt then old else some it

unfoldable pub dominators_from : Cfg → List Block → List Block → Dominator → Dominator
dominators_from g order [] d = d
dominators_from g order (it ∷ its) d =
    let v = dom_dfs g (fuel g) (front order) (mark it nothing) in
    dominators_from g order its (λ jt. if has jt order then dominated v it (d jt) jt else d jt)

-- The first loop of `ComputeDominatorTree`.
unfoldable pub compute_dominators : Cfg → Dominator
compute_dominators g = let order = compute_pred_order g in dominators_from g order order (λ b. none)
