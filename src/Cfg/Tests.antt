-- ===== src/Cfg/Tests.antt =====
-- A graph of five blocks with a branch, a join and a loop back.
use zettelkasten_public_subs.Common.{
  ◌≡◌, ◌↔◌, refl, true, false, some, [], ◌∷◌, ◌==◌, if◌then◌else◌, ◌||◌, arith, map, ◌&&◌,
}
use zettelkasten_public_subs.Cfg.{
  Block, Visited, has, Cfg, mark, nothing, visit, walk, seen_in, push_marked, marked, pushed,
  unchanged, itself, pred_order_dfs, post_order_dfs, dom_dfs, front, fuel, compute_pred_order,
  compute_post_order, dominated, dominators_from, compute_dominators,
}
use zettelkasten_public_subs.Cfg.Paths.{Walkway, here, step, Walkway-start}
use zettelkasten_public_subs.Cfg.Walks.{IsGraph}
use zettelkasten_public_subs.Cfg.Orders.{Lists, compute_orders_lem}
use zettelkasten_public_subs.Cfg.Links.{IsLinked}
use zettelkasten_public_subs.Cfg.Dominators.{
  Dominates, IsLast, compute_dominators_lem, mark-nothing,
}
use zettelkasten_public_subs.Cfg.Immediate.{compute_dominators-immediate}
use zettelkasten_public_subs.Cfg.Frontier.{
  Frontier, is_dominated_by, dominating_blocks, insert_others, from_dominated, base_frontier_from,
  compute_base_dominance_frontier, get_dominance_frontier_for_subset,
}
use zettelkasten_public_subs.Cfg.Closure.{Iterated, frontier_for_subset_lem}

-- 0 → 1, 1 → 2, 1 → 3, 2 → 4, 3 → 4, 4 → 1.
abbrev branch : Cfg
branch = record {
  basic_blocks = 0 ∷ 1 ∷ 2 ∷ 3 ∷ 4 ∷ [];
  succs = λ b.
      if b == 0
      then 1 ∷ []
      else (if b == 1
          then 2 ∷ 3 ∷ []
          else (if b == 2
              then 4 ∷ []
              else (if b == 3 then 4 ∷ [] else (if b == 4 then 1 ∷ [] else []))));
  preds = λ b.
      if b == 1
      then 0 ∷ 4 ∷ []
      else (if b == 2
          then 1 ∷ []
          else (if b == 3 then 1 ∷ [] else (if b == 4 then 2 ∷ 3 ∷ [] else [])));
}

branch_orders :
    (compute_pred_order branch ≡ 0 ∷ 1 ∷ 2 ∷ 4 ∷ 3 ∷ [])
    × (compute_post_order branch ≡ 4 ∷ 2 ∷ 3 ∷ 1 ∷ 0 ∷ [])
unfolding compute_pred_order compute_post_order pred_order_dfs post_order_dfs walk visit push_marked
    marked pushed unchanged seen_in mark front fuel
branch_orders = (refl, refl)

branch-IsGraph : IsGraph branch
unfolding has
branch-IsGraph b c h k = ground (arith, h, k)

branch_dominators :
    map (compute_dominators branch) (1 ∷ 2 ∷ 3 ∷ 4 ∷ []) ≡ some 0 ∷ some 1 ∷ some 1 ∷ some 1 ∷ []
unfolding compute_dominators dominators_from dominated dom_dfs compute_pred_order pred_order_dfs
    walk visit push_marked unchanged seen_in itself mark nothing front fuel has
branch_dominators = refl

to_four : Walkway branch nothing 0 4
unfolding nothing has
to_four = step 0 1 refl refl (step 1 2 refl refl (step 2 4 refl refl (here 4 refl)))

compute_orders_lem_example :
    Lists branch 0 (compute_pred_order branch) 3 × Lists branch 0 (compute_post_order branch) 3
unfolding front has
compute_orders_lem_example = compute_orders_lem branch 0 3 branch-IsGraph refl refl

compute_dominators_lem_example :
    (d : Block) × (compute_dominators branch 4 ≡ some d)
    × IsLast branch 0 (compute_pred_order branch) 4 d
unfolding front has
compute_dominators_lem_example =
    compute_dominators_lem branch 0 4 branch-IsGraph refl refl to_four (λ e. ground arith)

four_dominator : compute_dominators branch 4 ≡ some 1
unfolding compute_dominators dominators_from dominated dom_dfs compute_pred_order pred_order_dfs
    walk visit push_marked unchanged seen_in itself mark nothing front fuel has
four_dominator = refl

zero-Dominates : Dominates branch 0 0 4
zero-Dominates = record {
  other = λ e. ground arith;
  blocks = λ p. absurd (cc (Walkway-start p, (mark-nothing 0 0).1 refl));
}

compute_dominators-immediate_example : Dominates branch 0 1 4 × Dominates branch 0 0 1
unfolding front has
compute_dominators-immediate_example =
    compute_dominators-immediate branch 0 4 1 0 branch-IsGraph refl refl to_four (λ e. ground arith)
      four_dominator zero-Dominates (λ e. ground arith)

-- The frontiers of 2 and of 4: the join, and the head of the loop.
abbrev table : Frontier
table x y = (x == 2 && y == 4) || ((x == 3 && y == 4) || ((x == 4 && y == 1) || (x == 1 && y == 1)))

branch_frontier :
    map (compute_base_dominance_frontier branch 2) (0 ∷ 1 ∷ 2 ∷ 3 ∷ 4 ∷ [])
    ≡ false ∷ false ∷ false ∷ false ∷ true ∷ []
unfolding compute_base_dominance_frontier base_frontier_from from_dominated insert_others
    dominating_blocks is_dominated_by compute_post_order post_order_dfs marked pushed
    compute_dominators dominators_from dominated dom_dfs compute_pred_order pred_order_dfs walk
    visit push_marked unchanged seen_in itself mark nothing front fuel has
branch_frontier = refl

abbrev just_two : Visited
just_two x = x == 2

abbrev every_block : Visited
every_block x = true

frontier_for_subset_lem_example :
    (r : Visited) × (get_dominance_frontier_for_subset branch.basic_blocks table just_two 6
      ≡ some r)
    × ((y : Block)
        → has y branch.basic_blocks ≡ true
        → (r y ≡ true) ↔ Iterated branch.basic_blocks table just_two y)
frontier_for_subset_lem_example =
    frontier_for_subset_lem branch.basic_blocks table just_two 6 (omega arith)

-- A graph with no links.
abbrev no_links : Cfg
no_links = record { basic_blocks = 0 ∷ 1 ∷ []; succs = λ b. []; preds = λ b. [] }

no_links-IsLinked : IsLinked no_links
unfolding has
no_links-IsLinked = record {
  mirror = λ b c. refl;
  succs_once = λ b c. omega arith;
  preds_once = λ b c. omega arith;
}
