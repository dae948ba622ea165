-- ===== src/Ssa/Rename.antt =====
-- What the walk over the tree of the dominators leaves on the stack.
use zettelkasten_public_subs.Common.{
  ℕ, zero, suc, ◌+◌, ◌<◌, ◌≡◌, refl, sym, ap, ◌∙◌, subst, Bool, true, false, List, [], ◌∷◌, ◌++◌,
  if◌then◌else◌, arith, length,
}
use zettelkasten_public_subs.Ssa.{
  Block, Stmt, phi, assign, branch, Program, Builder, Outcome, ok, fault, out_of_fuel, is_var,
  rename_stmts, rename_succs, pop_back, pop_stmt, pop_stmts, each, traverse_block, ◌>>=◌,
}
use zettelkasten_public_subs.Ssa.Stacks.{
  Pushes, HasBack, Pushes-bind, Pushes-none, Pushes-same, one_if, phis, assigns,
  rename_stmts-Pushes, rename_succs-Pushes,
}

bind_two : (r : Outcome) (g h : Builder → Outcome) → (r >>= λ b. g b >>= h) ≡ (r >>= g >>= h)
bind_two (ok s) g h = refl
bind_two fault g h = refl
bind_two out_of_fuel g h = refl

bind_three :
    (r : Outcome) (f g h : Builder → Outcome)
    → (r >>= λ a. f a >>= λ b. g b >>= h) ≡ (r >>= f >>= g >>= h)
bind_three (ok s) f g h = bind_two (f s) g h
bind_three fault f g h = refl
bind_three out_of_fuel f g h = refl

abbrev pub AllTrees : (Block → Type 0) → List Block → Type 0
AllTrees T [] = Unit
AllTrees T (b ∷ bs) = T b × AllTrees T bs

module _ (p : Program) (var : ℕ) where
  -- The values on top are dropped, one for each assignment.
  record Pops (r : Outcome) (s : Builder) (base : List ℕ) (n : ℕ) : Type 0 where
    last : Builder
    extra : List ℕ
    ends : r ≡ ok last
    above : last.stack ≡ extra ++ base
    many : length extra ≡ n
    counted : last.counter ≡ s.counter

  pop_any :
      (b : Bool) (s : Builder) (extra base : List ℕ) (n : ℕ)
      → s.stack ≡ extra ++ base
      → length extra ≡ one_if b + n
      → Pops (if b then pop_back p var s else ok s) s base n
  unfolding pop_back
  pop_any false s extra base n e h = record {
    last = s;
    extra = extra;
    ends = refl;
    above = e;
    many = omega (arith, h);
    counted = refl;
  }
  pop_any true s [] base n e h = absurd (omega (arith, h))
  pop_any true s (m ∷ extra) base n e h = record {
    last = record s { stack = extra ++ base };
    extra = extra;
    ends = ground (arith, e);
    above = refl;
    many = omega (arith, h);
    counted = refl;
  }

  Pops-bind :
      {r : Outcome} {s : Builder} {base : List ℕ} {n n' : ℕ} (f : Builder → Outcome)
      → Pops r s base n
      → ((t : Builder) (extra : List ℕ)
          → t.stack ≡ extra ++ base
          → length extra ≡ n
          → Pops (f t) t base n')
      → Pops (r >>= f) s base n'
  Pops-bind f h g =
      let next = g h.last h.extra h.above h.many in
      record {
        last = next.last;
        extra = next.extra;
        ends = ap (λ q. q >>= f) h.ends ∙ next.ends;
        above = next.above;
        many = next.many;
        counted = next.counted ∙ h.counted;
      }

  pop_stmts-Pops :
      (cs : List Stmt) (s : Builder) (extra base : List ℕ) (n : ℕ)
      → s.stack ≡ extra ++ base
      → length extra ≡ assigns p var cs + n
      → Pops (pop_stmts p var cs s) s base n
  unfolding pop_stmts pop_stmt assigns
  pop_stmts-Pops [] s extra base n e h = record {
    last = s;
    extra = extra;
    ends = refl;
    above = e;
    many = omega (arith, h);
    counted = refl;
  }
  pop_stmts-Pops (phi x args ∷ cs) s extra base n e h = pop_stmts-Pops cs s extra base n e h
  pop_stmts-Pops (branch uses ∷ cs) s extra base n e h = pop_stmts-Pops cs s extra base n e h
  pop_stmts-Pops (assign x uses ∷ cs) s extra base n e h =
      Pops-bind (pop_stmts p var cs)
        (pop_any (is_var p var x) s extra base (assigns p var cs + n) e (omega (arith, h)))
        (λ t ex above many. pop_stmts-Pops cs t ex base n above many)

  -- The tree below a block ends within so many levels.
  unfoldable pub IsTree : ℕ → Block → Type 0
  IsTree zero b = ⊥
  IsTree (suc f) b = AllTrees (IsTree f) (p.dominating_blocks b)

  -- How many phi nodes of the variable, and how many definitions, the tree below a block has.
  unfoldable pub sum : (Block → ℕ) → List Block → ℕ
  sum w [] = 0
  sum w (b ∷ bs) = w b + sum w bs

  unfoldable pub tree_phis : ℕ → Block → ℕ
  tree_phis zero b = 0
  tree_phis (suc f) b = phis p var (p.statements b) + sum (tree_phis f) (p.dominating_blocks b)

  unfoldable pub tree_definitions : ℕ → Block → ℕ
  tree_definitions zero b = 0
  tree_definitions (suc f) b =
      phis p var (p.statements b)
      + assigns p var (p.statements b)
      + sum (tree_definitions f) (p.dominating_blocks b)

  each-Pushes :
      (go : Block → Builder → Outcome) (T : Block → Type 0) (w d : Block → ℕ)
      → ((b : Block) (s : Builder) → T b → HasBack s → Pushes (go b s) s (w b) (d b))
      → (bs : List Block) (s : Builder) → AllTrees T bs
      → HasBack s
      → Pushes (each p var go bs s) s (sum w bs) (sum d bs)
  unfolding each sum
  each-Pushes go T w d goes [] s all h = Pushes-none s
  each-Pushes go T w d goes (b ∷ bs) s (one, all) h =
      Pushes-bind (each p var go bs) (goes b s one h) (λ t k. each-Pushes go T w d goes bs t all k)
        h

  -- A block: its definitions, its subtree, and then one value dropped for each assignment.
  block_lem :
      (b : Block) (s : Builder) (n k : ℕ) {r : Outcome}
      → Pushes r s (phis p var (p.statements b) + assigns p var (p.statements b) + n) k
      → Pushes (r >>= λ t. pop_stmts p var (p.statements b) t) s (phis p var (p.statements b) + n) k
  block_lem b s n k h =
      let popped =
        pop_stmts-Pops (p.statements b) h.last h.extra s.stack (phis p var (p.statements b) + n)
          h.above (omega (arith, h.many)) in
      record {
        last = popped.last;
        extra = popped.extra;
        ends = ap (λ q. q >>= λ t. pop_stmts p var (p.statements b) t) h.ends ∙ popped.ends;
        above = popped.above;
        many = popped.many;
        counted = popped.counted ∙ h.counted;
      }

  traverse_eq :
      (f : ℕ) (b : Block) (s : Builder)
      → traverse_block p var (suc f) b s ≡ (
          rename_stmts p var (p.statements b) s
          >>= rename_succs p var b (p.succs b)
          >>= each p var (traverse_block p var f) (p.dominating_blocks b)
          >>= λ t. pop_stmts p var (p.statements b) t)
  unfolding traverse_block
  traverse_eq f b s = bind_three (rename_stmts p var (p.statements b) s) _ _ _

  traverse_block-Pushes :
      (f : ℕ) (b : Block) (s : Builder)
      → IsTree f b
      → HasBack s
      → Pushes (traverse_block p var f b s) s (tree_phis f b) (tree_definitions f b)
  unfolding IsTree tree_phis tree_definitions
  traverse_block-Pushes zero b s tree h = elim tree [ ]
  traverse_block-Pushes (suc f) b s tree h =
      let own = rename_stmts-Pushes p var (p.statements b) s h in
      let args =
        Pushes-bind (rename_succs p var b (p.succs b)) own (rename_succs-Pushes p var b (p.succs b))
          h in
      let below =
        Pushes-bind (each p var (traverse_block p var f) (p.dominating_blocks b)) args
          (λ t k.
            each-Pushes (traverse_block p var f) (IsTree f) (tree_phis f) (tree_definitions f)
              (traverse_block-Pushes f) (p.dominating_blocks b) t tree k)
          h in
      subst (λ r. Pushes r s (tree_phis (suc f) b) (tree_definitions (suc f) b))
        (sym (traverse_eq f b s))
        (block_lem b s (sum (tree_phis f) (p.dominating_blocks b)) (tree_definitions (suc f) b)
          (Pushes-same _ _ below (omega arith) (omega arith)))

-- The walk from a block whose tree of dominated blocks has at most as many levels as the fuel, with a
-- definition to refer to, ends without a fault. It counts one for each definition of the variable
-- in the tree, and it leaves the stack as it was but for one value on top for each phi node of the
-- variable in the tree: those are never popped.
pub traverse_block_lem :
    (p : Program) (var f : ℕ) (b : Block) (s : Builder)
    → IsTree p var f b
    → 0 < length s.stack
    → (t : Builder) × (extra : List ℕ) × (traverse_block p var f b s ≡ ok t)
      × (t.stack ≡ extra ++ s.stack)
      × (length extra ≡ tree_phis p var f b)
      × (t.counter ≡ s.counter + tree_definitions p var f b)
traverse_block_lem p var f b s tree h =
    let r = traverse_block-Pushes p var f b s tree h in
    (r.last, r.extra, r.ends, r.above, r.many, r.counted)
