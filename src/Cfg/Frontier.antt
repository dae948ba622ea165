-- ===== src/Cfg/Frontier.antt =====
-- The dominance frontier: the second loop of `ComputeDominatorTree`, `ComputeBaseDominanceFrontier` and
-- `GetDominanceFrontierForSubset`. A set of blocks is a function; its members are blocks of the
-- graph. The loop of the last gets fuel, and a theorem says how much is enough.
use zettelkasten_public_subs.Common.{
  ℕ, zero, suc, Bool, true, false, Option, none, some, List, [], ◌∷◌, ◌==◌, if◌then◌else◌, ◌||◌,
  not,
}
use zettelkasten_public_subs.Cfg.{
  Block, Visited, has, Cfg, nothing, compute_post_order, Dominator, compute_dominators,
}
use zettelkasten_public_subs.Common.{◌&&◌}

unfoldable pub is_dominated_by : Dominator → Block → Block → Bool
is_dominated_by d x y = elim (d y) [ none ↦ false | some z ↦ z == x ]

-- `DominatingBlocks` of a block after the second loop of `ComputeDominatorTree`.
unfoldable pub dominating_blocks : Dominator → List Block → Block → List Block
dominating_blocks d [] x = []
dominating_blocks d (v ∷ vs) x =
    let rest = dominating_blocks d vs x in if is_dominated_by d x v then v ∷ rest else rest

abbrev pub Frontier : Type 0
Frontier = Block → Visited

-- `DominanceFrontier.at(X).insert(Y)` for the blocks `Y` of a set whose dominator is not `X`.
unfoldable pub insert_others : Dominator → Block → Visited → Frontier → Frontier
insert_others d x ys df b y = df b y || (b == x && (ys y && not (is_dominated_by d x y)))

unfoldable pub from_dominated : Dominator → Block → List Block → Frontier → Frontier
from_dominated d x [] df = df
from_dominated d x (z ∷ zs) df = from_dominated d x zs (insert_others d x (df z) df)

unfoldable pub base_frontier_from : Cfg → Dominator → List Block → Frontier → Frontier
base_frontier_from g d [] df = df
base_frontier_from g d (x ∷ xs) df =
    let with_succs = insert_others d x (λ y. has y (g.succs x)) df in
    base_frontier_from g d xs (from_dominated d x (dominating_blocks d g.basic_blocks x) with_succs)

-- `ComputeBaseDominanceFrontier` of a graph whose frontiers are empty.
unfoldable pub compute_base_dominance_frontier : Cfg → Frontier
compute_base_dominance_frontier g =
    base_frontier_from g (compute_dominators g) (compute_post_order g) (λ x y. false)

-- `GetMergedDominanceFrontierFromSubset`
unfoldable pub merged : List Block → Frontier → Visited → Visited
merged [] df subset y = false
merged (v ∷ vs) df subset y = (subset v && df v y) || merged vs df subset y

unfoldable pub joined : Visited → Visited → Visited
joined a b x = a x || b x

unfoldable pub same : Bool → Bool → Bool
same true c = c
same false c = not c

-- `Result != DFP`, the other way round.
unfoldable pub agree : List Block → Visited → Visited → Bool
agree [] a b = true
agree (x ∷ xs) a b = same (a x) (b x) && agree xs a b

-- The loop, on `Result` and `DFP`.
unfoldable pub frontier_loop :
    List Block → Frontier → Visited → ℕ → Visited → Visited → Option Visited
frontier_loop bs df subset zero result dfp = none
frontier_loop bs df subset (suc f) result dfp =
    let next = merged bs df (joined dfp subset) in
    elim (agree bs result next) [
      | true ↦ some result
      | false ↦ frontier_loop bs df subset f next next
    ]

unfoldable pub get_dominance_frontier_for_subset :
    List Block → Frontier → Visited → ℕ → Option Visited
get_dominance_frontier_for_subset bs df subset f =
    frontier_loop bs df subset f nothing (merged bs df subset)
