-- ===== src/Ssa.antt =====
-- SSABuilder of 2022-03-17-SSA-form-implementation/main.cpp: the renaming of one variable, walking down
-- the tree of the dominators. A symbol is known by a number, which is what a pointer to it holds; its
-- field `SSAIndex` is a function. A statement holds the symbols that VariableSearchVisitor finds.
-- `fault` is `back` or `pop_back` of an empty vector. The fuel bounds the depth of the calls, and a
-- theorem says that the height of the tree is enough.
pub mod Stacks
pub mod Rename
pub mod Tests
use zettelkasten_public_subs.Common.{
  ℕ, zero, suc, ◌+◌, Bool, true, false, Option, none, some, List, [], ◌∷◌, ◌++◌, ◌==◌,
  if◌then◌else◌,
}

abbrev pub Symbol : Type 0
Symbol = ℕ

abbrev pub Block : Type 0
Block = ℕ

-- A phi node of a symbol, with the symbols of the blocks before it; an assignment to a symbol, with
-- the symbols of its right side; a branch, with the symbols of its condition.
pub data Stmt : Type 0 where
  phi : Symbol → (Block → Option Symbol) → Stmt
  assign : Symbol → List Symbol → Stmt
  branch : List Symbol → Stmt

pub record Program : Type 0 where
  -- The name of a symbol.
  pub name : Symbol → ℕ
  pub statements : Block → List Stmt
  pub succs : Block → List Block
  pub dominating_blocks : Block → List Block

pub record Builder : Type 0 where
  pub counter : ℕ
  -- `Stack`, from its back on.
  pub stack : List ℕ
  pub ssa_index : Symbol → ℕ

pub data Outcome : Type 0 where
  ok : Builder → Outcome
  fault out_of_fuel : Outcome

infixl 5 ◌>>=◌
abbrev pub ◌>>=◌ : Outcome → (Builder → Outcome) → Outcome
◌>>=◌ (ok s) f = f s
◌>>=◌ fault f = fault
◌>>=◌ out_of_fuel f = out_of_fuel

unfoldable pub set_ssa_index : Symbol → ℕ → Builder → Builder
set_ssa_index x n s = record s { ssa_index = λ y. if y == x then n else s.ssa_index y }

-- `SetSSAIndex(Counter); Stack.push_back(Counter++)`
unfoldable pub define : Symbol → Builder → Builder
define x s =
    let s' = set_ssa_index x s.counter s in
    record s' { stack = s.counter ∷ s.stack; counter = s.counter + 1 }

-- `SetSSAIndex(Stack.back())`
unfoldable pub use_back : Symbol → Builder → Outcome
use_back x s = elim s.stack [ [] ↦ fault | n ∷ ns ↦ ok (set_ssa_index x n s) ]

module _ (p : Program) (var : ℕ) where
  unfoldable pub is_var : Symbol → Bool
  is_var x = p.name x == var

  unfoldable pub rename_uses : List Symbol → Builder → Outcome
  rename_uses [] s = ok s
  rename_uses (x ∷ xs) s = (if is_var x then use_back x s else ok s) >>= λ s'. rename_uses xs s'

  unfoldable pub define_var : Symbol → Builder → Builder
  define_var x s = if is_var x then define x s else s

  -- The first loop, one statement: a phi node and the left side of an assignment define.
  unfoldable pub rename_stmt : Stmt → Builder → Outcome
  rename_stmt (phi x args) s = ok (define_var x s)
  rename_stmt (assign x uses) s = rename_uses uses s >>= λ s'. ok (define_var x s')
  rename_stmt (branch uses) s = rename_uses uses s

  unfoldable pub rename_stmts : List Stmt → Builder → Outcome
  rename_stmts [] s = ok s
  rename_stmts (c ∷ cs) s = rename_stmt c s >>= λ s'. rename_stmts cs s'

  -- The second loop: the arguments of the phi nodes of a successor.
  unfoldable pub rename_arg : Block → Stmt → Builder → Outcome
  rename_arg b (phi x args) s = elim (args b) [
    | none ↦ ok s
    | some y ↦ if is_var y then use_back y s else ok s
  ]
  rename_arg b (assign x uses) s = ok s
  rename_arg b (branch uses) s = ok s

  unfoldable pub rename_args : Block → List Stmt → Builder → Outcome
  rename_args b [] s = ok s
  rename_args b (c ∷ cs) s = rename_arg b c s >>= λ s'. rename_args b cs s'

  unfoldable pub rename_succs : Block → List Block → Builder → Outcome
  rename_succs b [] s = ok s
  rename_succs b (c ∷ cs) s = rename_args b (p.statements c) s >>= λ s'. rename_succs b cs s'

  unfoldable pub pop_back : Builder → Outcome
  pop_back s = elim s.stack [ [] ↦ fault | n ∷ ns ↦ ok (record s { stack = ns }) ]

  -- The last loop: it pops for the assignments only.
  unfoldable pub pop_stmt : Stmt → Builder → Outcome
  pop_stmt (phi x args) s = ok s
  pop_stmt (assign x uses) s = if is_var x then pop_back s else ok s
  pop_stmt (branch uses) s = ok s

  unfoldable pub pop_stmts : List Stmt → Builder → Outcome
  pop_stmts [] s = ok s
  pop_stmts (c ∷ cs) s = pop_stmt c s >>= λ s'. pop_stmts cs s'

  unfoldable pub each : (Block → Builder → Outcome) → List Block → Builder → Outcome
  each go [] s = ok s
  each go (b ∷ bs) s = go b s >>= λ s'. each go bs s'

  unfoldable pub traverse_block : ℕ → Block → Builder → Outcome
  traverse_block zero b s = out_of_fuel
  traverse_block (suc f) b s = rename_stmts (p.statements b) s >>= λ s₁.
      rename_succs b (p.succs b) s₁ >>= λ s₂.
      each (traverse_block f) (p.dominating_blocks b) s₂ >>= λ s₃. pop_stmts (p.statements b) s₃

  -- `RenameVarToSSAForm`, from the first block on; `before` is what the indices were.
  unfoldable pub rename_var : ℕ → Block → (Symbol → ℕ) → Outcome
  rename_var f first before =
      traverse_block f first (record { counter = 0; stack = []; ssa_index = before })
