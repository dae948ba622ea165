-- ===== src/Ssa/Tests.antt =====
-- A block that assigns the variable, and two blocks that it dominates: the first has a phi node, the
-- second uses the variable.
use zettelkasten_public_subs.Common.{
  ℕ, ◌+◌, ◌≡◌, refl, Option, none, some, List, [], ◌∷◌, ◌++◌, ◌==◌, if◌then◌else◌, arith, length,
}
use zettelkasten_public_subs.Ssa.{
  Symbol, phi, assign, branch, Program, Builder, Outcome, ok, fault, set_ssa_index, define,
  use_back, is_var, rename_uses, define_var, rename_stmt, rename_stmts, rename_succs, pop_back,
  pop_stmt, pop_stmts, each, traverse_block, rename_var,
}
use zettelkasten_public_subs.Ssa.Rename.{IsTree, tree_phis, tree_definitions, traverse_block_lem}

abbrev siblings : Program
siblings = record {
  name = λ x. 5;
  statements = λ b.
      if b == 0
      then assign 10 [] ∷ []
      else (if b == 1 then phi 11 (λ c. none) ∷ [] else branch (12 ∷ []) ∷ []);
  succs = λ b. [];
  dominating_blocks = λ b. if b == 0 then 1 ∷ 2 ∷ [] else [];
}

abbrev index_of : Symbol → Outcome → Option ℕ
index_of x (ok s) = some (s.ssa_index x)
index_of x _ = none

-- The use in the second block gets the index of the phi node of the first, which does not reach it.
stale_index :
    (index_of 10 (rename_var siblings 5 2 0 (λ x. 0)) ≡ some 0)
    × (index_of 11 (rename_var siblings 5 2 0 (λ x. 0)) ≡ some 1)
    × (index_of 12 (rename_var siblings 5 2 0 (λ x. 0)) ≡ some 1)
unfolding rename_var traverse_block each rename_stmts rename_stmt rename_uses define_var define
    set_ssa_index use_back is_var rename_succs pop_stmts pop_stmt pop_back
stale_index = (refl, refl, refl)

-- The variable has the index 0 before the walk.
abbrev with_index : Builder
with_index = record { counter = 1; stack = 0 ∷ []; ssa_index = λ x. 0 }

traverse_block_lem_example :
    (t : Builder) × (extra : List ℕ) × (traverse_block siblings 5 2 0 with_index ≡ ok t)
    × (t.stack ≡ extra ++ 0 ∷ [])
    × (length extra ≡ tree_phis siblings 5 2 0)
    × (t.counter ≡ 1 + tree_definitions siblings 5 2 0)
unfolding IsTree
traverse_block_lem_example =
    traverse_block_lem siblings 5 2 0 with_index (tt, (tt, tt)) (omega arith)

-- A use before any definition is undefined.
use_before_definition : rename_var siblings 5 1 2 (λ x. 0) ≡ fault
unfolding rename_var traverse_block rename_stmts rename_stmt rename_uses use_back is_var
use_before_definition = refl
