-- ===== src/GraphBuilder/Tests.antt =====
-- Two branches, one in the other.
use zettelkasten_public_subs.Common.{
  ◌≡◌, refl, true, some, [], ◌∷◌, arith, map, ◌≢◌, ◌++◌, ◌>>=◌, List, ℕ,
}
use zettelkasten_public_subs.Cfg.{
  Block, has, mark, nothing, add_block, add_link, push_new, write_at, compute_dominators,
  dominators_from, dominated, dom_dfs, compute_pred_order, pred_order_dfs, walk, visit, push_marked,
  unchanged, seen_in, itself, front, fuel, compute_post_order, post_order_dfs, marked, pushed,
}
use zettelkasten_public_subs.Cfg.Frontier.{
  insert_others, from_dominated, dominating_blocks, is_dominated_by, base_frontier_from,
  compute_base_dominance_frontier, merged, joined, frontier_loop, agree, same,
  get_dominance_frontier_for_subset,
}
use zettelkasten_public_subs.Cfg.Paths.{Walkway}
use zettelkasten_public_subs.Cfg.Dominators.{Dominates}
use zettelkasten_public_subs.GraphBuilder.{
  Ast, number, symbol, assign, if_else, for_loop, binary, next_index, create_block, add_statement,
  create_branch, create_conditional_branch, enter, visit_assign, traverse, new_builder, assignment,
  jump, Builder, phi, insert_phis, frontier_of, insert_phi_nodes,
}
use zettelkasten_public_subs.GraphBuilder.Grows.{blocks_of}
use zettelkasten_public_subs.GraphBuilder.Phi.{Placed, phis, insert_phi_nodes_lem}
use zettelkasten_public_subs.GraphBuilder.Built.{IsBuilt}
use zettelkasten_public_subs.GraphBuilder.Traversal.{traverse-reaches, traverse-dominators}

-- first = second in one branch; in the other, a branch that assigns to second or does nothing.
abbrev nested : Ast
nested =
    if_else (number 2002) (assign 1 (symbol 2))
      (if_else (binary 43 (number 5005) (number 6006)) (assign 2 (symbol 3)) for_loop)

nested_blocks :
    (map
        (λ (b : Block). (traverse nested new_builder).graph.succs b)
        (0 ∷ 1 ∷ 2 ∷ 3 ∷ 4 ∷ 5 ∷ 6 ∷ [])
      ≡ (1 ∷ 2 ∷ []) ∷ (3 ∷ []) ∷ (4 ∷ 5 ∷ []) ∷ [] ∷ (6 ∷ []) ∷ (6 ∷ []) ∷ (3 ∷ []) ∷ [])
    × ((traverse nested new_builder).statements 1 ≡ assignment 1 (symbol 2) ∷ jump 3 ∷ [])
    × ((traverse nested new_builder).blocks_for_variable 2 4 ≡ true)
unfolding traverse new_builder visit_assign create_conditional_branch create_branch create_block
    add_statement next_index enter add_block add_link push_new write_at has
nested_blocks = (refl, refl, refl)

nested_dominators :
    map (compute_dominators (traverse nested new_builder).graph) (3 ∷ 4 ∷ 6 ∷ [])
    ≡ some 0 ∷ some 2 ∷ some 2 ∷ []
unfolding traverse new_builder visit_assign create_conditional_branch create_branch create_block
    add_statement next_index enter add_block add_link push_new write_at has compute_dominators
    dominators_from dominated dom_dfs compute_pred_order pred_order_dfs walk visit push_marked
    unchanged seen_in itself mark nothing front fuel
nested_dominators = refl

traverse-reaches_example :
    IsBuilt (traverse nested new_builder)
    × ((b : Block)
        → has b (blocks_of (traverse nested new_builder)) ≡ true
        → Walkway (traverse nested new_builder).graph nothing 0 b)
traverse-reaches_example = traverse-reaches nested

traverse-dominators_example :
    (d : Block) × (compute_dominators (traverse nested new_builder).graph 3 ≡ some d)
    × Dominates (traverse nested new_builder).graph 0 d 3
    × ((e : Block)
        → Dominates (traverse nested new_builder).graph 0 e 3
        → e ≢ d
        → Dominates (traverse nested new_builder).graph 0 e d)
unfolding traverse new_builder create_conditional_branch create_branch create_block visit_assign
    add_statement next_index enter add_block add_link has
traverse-dominators_example = traverse-dominators nested 3 refl (λ e. ground arith)

-- The join of the inner branch assigns to the second variable, by its phi node.
nested_phis :
    (insert_phi_nodes (1 ∷ 2 ∷ []) (traverse nested new_builder) >>= λ s. some (s.statements 3))
    ≡ some (phi 2 (1 ∷ 6 ∷ []) ∷ phi 1 (1 ∷ 6 ∷ []) ∷ [])
unfolding traverse new_builder visit_assign create_conditional_branch create_branch create_block
    add_statement next_index enter add_block add_link push_new write_at has compute_dominators
    dominators_from dominated dom_dfs compute_pred_order pred_order_dfs walk visit push_marked
    unchanged seen_in itself mark nothing front fuel insert_phi_nodes insert_phis frontier_of
    insert_others from_dominated dominating_blocks is_dominated_by base_frontier_from
    compute_base_dominance_frontier merged joined frontier_loop agree same
    get_dominance_frontier_for_subset compute_post_order post_order_dfs marked pushed
nested_phis = refl

insert_phi_nodes_lem_example :
    (t : Builder) × (insert_phi_nodes (1 ∷ 2 ∷ []) (traverse nested new_builder) ≡ some t)
    × (t.graph ≡ (traverse nested new_builder).graph)
    × ((b : Block)
        → has b (blocks_of (traverse nested new_builder)) ≡ true
        → (its : List ℕ) × Placed
            (traverse nested new_builder).graph
            (traverse nested new_builder).blocks_for_variable
            b
            (1 ∷ 2 ∷ [])
            its
          × (t.statements b
              ≡ phis ((traverse nested new_builder).graph.preds b) its
                ++ (traverse nested new_builder).statements b))
insert_phi_nodes_lem_example =
    insert_phi_nodes_lem (1 ∷ 2 ∷ []) (traverse nested new_builder) (traverse-reaches nested).0
