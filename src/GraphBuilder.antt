-- ===== src/GraphBuilder.antt =====
-- CFGBuilder of 2022-03-17-SSA-form-implementation/main.cpp: the control-flow graph of a syntax tree.
-- A block is known by its index; its label is left out.
pub mod Grows
pub mod Built
pub mod Split
pub mod Traversal
pub mod Phi
pub mod Tests
use zettelkasten_public_subs.Common.{
  ℕ, ◌+◌, Bool, true, false, List, [], ◌∷◌, ◌++◌, ◌==◌, if◌then◌else◌, length, ◌||◌, ◌&&◌, Option,
  none, some, suc, ◌>>=◌,
}
use zettelkasten_public_subs.Cfg.{Block, Visited, Cfg, add_block, add_link}
use zettelkasten_public_subs.Cfg.Frontier.{
  compute_base_dominance_frontier, get_dominance_frontier_for_subset,
}

-- A symbol and the target of an assignment by the number of its name. A `for` has no effect on the
-- graph, so its parts are left out.
pub data Ast : Type 0 where
  number symbol : ℕ → Ast
  assign : ℕ → Ast → Ast
  if_else : Ast → Ast → Ast → Ast
  for_loop : Ast
  binary : ℕ → Ast → Ast → Ast

pub data Stmt : Type 0 where
  assignment : ℕ → Ast → Stmt
  phi : ℕ → List Block → Stmt
  jump : Block → Stmt
  conditional : Ast → Block → Block → Stmt

pub record Builder : Type 0 where
  pub graph : Cfg
  pub current_block : Block
  pub statements : Block → List Stmt
  pub blocks_for_variable : ℕ → Block → Bool

-- The index of the block that `CreateBlock` makes.
unfoldable pub next_index : Builder → Block
next_index s = length s.graph.basic_blocks

unfoldable pub create_block : Builder → Builder
create_block s = record s { graph = add_block (next_index s) s.graph }

unfoldable pub add_statement : Stmt → Builder → Builder
add_statement c s = record s {
  statements = λ b. if b == s.current_block then s.statements b ++ c ∷ [] else s.statements b;
}

unfoldable pub create_branch : Block → Builder → Builder
create_branch target s =
    add_statement (jump target) (record s { graph = add_link s.current_block target s.graph })

unfoldable pub create_conditional_branch : Ast → Block → Block → Builder → Builder
create_conditional_branch condition then_block else_block s =
    add_statement (conditional condition then_block else_block) (record s {
      graph = add_link s.current_block else_block (add_link s.current_block then_block s.graph);
    })

unfoldable pub enter : Block → Builder → Builder
enter b s = record s { current_block = b }

-- `Visit` of an assignment.
unfoldable pub visit_assign : ℕ → Ast → Builder → Builder
visit_assign name rhs s = add_statement (assignment name rhs) (record s {
  blocks_for_variable = λ n b. s.blocks_for_variable n b || (n == name && b == s.current_block);
})

-- `Traverse`, with the members `Visit`.
unfoldable pub traverse : Ast → Builder → Builder
traverse (number n) s = s
traverse (symbol n) s = s
traverse (assign name rhs) s = visit_assign name rhs s
traverse for_loop s = s
traverse (binary op l r) s = traverse r (traverse l s)
traverse (if_else condition then_exp else_exp) s =
    let then_block = next_index s in
    let s₁ = create_block s in
    let else_block = next_index s₁ in
    let s₂ = create_block s₁ in
    let merge_block = next_index s₂ in
    let s₃ = create_block s₂ in
    let s₄ = create_conditional_branch condition then_block else_block s₃ in
    let s₅ = create_branch merge_block (traverse then_exp (enter then_block s₄)) in
    let s₆ = create_branch merge_block (traverse else_exp (enter else_block s₅)) in
    enter merge_block s₆

-- The inner loop of `InsertPhiNodes`: a phi node of a variable comes first in each block of a set, with
-- an argument for each block before it. No two rounds of the loop are about the same block.
unfoldable pub insert_phis : ℕ → Visited → Builder → Builder
insert_phis name frontier s = record s {
  statements =
      λ b. if frontier b then phi name (s.graph.preds b) ∷ s.statements b else s.statements b;
}

unfoldable pub frontier_of : ℕ → Builder → Option Visited
frontier_of name s =
    get_dominance_frontier_for_subset s.graph.basic_blocks (compute_base_dominance_frontier s.graph)
      (s.blocks_for_variable name) (suc (length s.graph.basic_blocks))

-- `InsertPhiNodes`, with the names of `BlocksForVariable` in order.
unfoldable pub insert_phi_nodes : List ℕ → Builder → Option Builder
insert_phi_nodes [] s = some s
insert_phi_nodes (name ∷ names) s =
    frontier_of name s >>= λ frontier. insert_phi_nodes names (insert_phis name frontier s)

-- The constructor.
unfoldable pub new_builder : Builder
new_builder = record {
  graph = add_block 0 (record { basic_blocks = []; succs = λ b. []; preds = λ b. [] });
  current_block = 0;
  statements = λ b. [];
  blocks_for_variable = λ n b. false;
}
