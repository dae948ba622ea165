-- ===== src/GraphBuilder/Traversal.antt =====
-- The walk over a syntax tree.
use zettelkasten_public_subs.Common.{
  ◌≡◌, refl, subst, ◌≢◌, inl, inr, true, ◌==◌, ◌||◌, arith, Bool-cases,
}
use zettelkasten_public_subs.Cfg.{Block, has, nothing, mark, front, add_block, add_link}
use zettelkasten_public_subs.Cfg.Paths.{Walkway, here}
use zettelkasten_public_subs.Cfg.Immediate.{compute_dominators-immediate}
use zettelkasten_public_subs.GraphBuilder.{
  Ast, number, symbol, assign, if_else, for_loop, binary, Builder, add_statement, create_branch,
  create_conditional_branch, enter, traverse, new_builder,
}
use zettelkasten_public_subs.GraphBuilder.Grows.{
  blocks_of, Grows, Walkway-links, Grows-same, Grows-then, not_marked, links-add_link,
  create_branch-Grows,
}
use zettelkasten_public_subs.GraphBuilder.Built.{
  IsBuilt, enter-IsBuilt, branch-IsBuilt, assign-IsBuilt, assign-Grows,
}
use zettelkasten_public_subs.Cfg.{compute_dominators}
use zettelkasten_public_subs.Cfg.Dominators.{Dominates, compute_dominators_lem}
use zettelkasten_public_subs.Common.{some}
use zettelkasten_public_subs.GraphBuilder.Split.{
  three_blocks, then_of, else_of, merge_of, split, split-IsBuilt, split-then, split-else, path_to,
  split-Grows, made_block,
}

-- `u` is what the walk over the first branch left.
then_part :
    (c : Ast) (s u : Builder)
    → IsBuilt u
    → Grows nothing (enter (then_of s) (split c s)) u
    → IsBuilt (create_branch (merge_of s) u)
      × IsBuilt (enter (else_of s) (create_branch (merge_of s) u))
      × Grows nothing s (create_branch (merge_of s) u)
      × Walkway (create_branch (merge_of s) u).graph nothing s.current_block (else_of s)
unfolding create_branch add_statement add_link enter
then_part c s u v g =
    let m = merge_of s in
    let to_then = path_to (split c s).graph s.current_block (then_of s) (split-then c s) in
    let to_else = path_to (split c s).graph s.current_block (else_of s) (split-else c s) in
    let built =
      branch-IsBuilt m u v ((v.numbered m).0 (g.blocks m (made_block c s m (ground arith)))) in
    let other =
      (v.numbered (else_of s)).0
        (g.blocks (else_of s) (made_block c s (else_of s) (ground arith))) in
    let grown = create_branch-Grows u m (Grows-then (then_of s) u (split-Grows c s) to_then g) in
    (
      built,
      enter-IsBuilt (else_of s) (create_branch m u) built other,
      grown.0,
      Walkway-links (create_branch m u).graph
          (λ x y k. links-add_link u.current_block m u.graph x y (g.links x y k)) to_else,
    )

-- `w` is what the walk over the second branch left.
else_part :
    (b m : Block) (s t w : Builder)
    → IsBuilt w
    → Grows nothing s t
    → Walkway t.graph nothing s.current_block b
    → Grows nothing (enter b t) w
    → has m (blocks_of t) ≡ true
    → IsBuilt (enter m (create_branch m w)) × Grows nothing s (enter m (create_branch m w))
unfolding create_branch add_statement add_link enter
else_part b m s t w v g path h k =
    let all = Grows-then b w g path h in
    let inside = (v.numbered m).0 (h.blocks m k) in
    let some_left : Grows (mark m nothing) s w = record {
      blocks = all.blocks;
      links = all.links;
      news = λ x k' n e. all.news x k' n (not_marked x);
      here_too = all.here_too;
    } in
    let (grown, to_merge) = create_branch-Grows {s = s} w m some_left in
    (
      enter-IsBuilt m (create_branch m w) (branch-IsBuilt m w v inside) inside,
      record { blocks = grown.blocks; links = grown.links; news = grown.news; here_too = to_merge },
    )

traverse_lem :
    (t : Ast) (s : Builder) → IsBuilt s → IsBuilt (traverse t s) × Grows nothing s (traverse t s)
unfolding traverse split three_blocks then_of else_of merge_of enter create_branch add_statement
    add_link create_conditional_branch
traverse_lem (number n) s v = (v, Grows-same s)
traverse_lem (symbol n) s v = (v, Grows-same s)
traverse_lem for_loop s v = (v, Grows-same s)
traverse_lem (assign n rhs) s v = (assign-IsBuilt n rhs s v, assign-Grows n rhs s)
traverse_lem (binary op l r) s v =
    let (v', g) = traverse_lem l s v in
    let (v'', g') = traverse_lem r (traverse l s) v' in
    (v'', Grows-then (traverse l s).current_block (traverse r (traverse l s)) g g.here_too g')
traverse_lem (if_else c t e) s v =
    let s₄ = split c s in
    let inside =
      (λ (b : Block) (h : (b == then_of s || (b == else_of s || b == merge_of s)) ≡ true).
        ((split-IsBuilt c s v).numbered b).0 (made_block c s b h)) in
    let (v₁, g₁) =
      traverse_lem t (enter (then_of s) s₄)
        (enter-IsBuilt (then_of s) s₄ (split-IsBuilt c s v) (inside (then_of s) (ground arith))) in
    let u = traverse t (enter (then_of s) s₄) in
    let (v₅, v₅', g₅, to_else) = then_part c s u v₁ g₁ in
    let s₅ = create_branch (merge_of s) u in
    let (v₂, g₂) = traverse_lem e (enter (else_of s) s₅) v₅' in
    else_part (else_of s) (merge_of s) s s₅ (traverse e (enter (else_of s) s₅)) v₂ g₅ to_else g₂
      (g₁.blocks (merge_of s) (made_block c s (merge_of s) (ground arith)))

new_builder-IsBuilt : IsBuilt new_builder
unfolding new_builder add_block has front
new_builder-IsBuilt = record {
  numbered = λ b. ground arith;
  graph = λ b c h k. absurd (cc k);
  bare = λ b h. refl;
  linked = record {
    mirror = λ b c. refl;
    succs_once = λ b c. omega arith;
    preds_once = λ b c. omega arith;
  };
  current = omega arith;
  first = refl;
}

only_first : (b : Block) → has b (blocks_of new_builder) ≡ true → 0 ≡ b
unfolding new_builder add_block has
only_first b h = ground (arith, h)

first_current : new_builder.current_block ≡ 0
unfolding new_builder
first_current = refl

-- The builder of every syntax tree numbers its blocks in order, its links lead to its blocks and are
-- alike in both directions, the first block is block 0, and a path leads from block 0 to every block.
pub traverse-reaches :
    (t : Ast)
    → IsBuilt (traverse t new_builder)
      × ((b : Block)
          → has b (blocks_of (traverse t new_builder)) ≡ true
          → Walkway (traverse t new_builder).graph nothing 0 b)
traverse-reaches t =
    let (v, g) = traverse_lem t new_builder new_builder-IsBuilt in
    (
      v,
      λ b h. elim (Bool-cases (has b (blocks_of new_builder))) [
        | inl old ↦
            subst (Walkway (traverse t new_builder).graph nothing 0) (only_first b old)
              (here 0 (not_marked 0))
        | inr other ↦
            subst (λ (x : Block). Walkway (traverse t new_builder).graph nothing x b) first_current
              (g.news b h other (not_marked b))
      ],
    )

-- In the graph of every syntax tree the loops over the dominators fill in the field of each block but
-- block 0 with its immediate dominator: a block that dominates it and that every other one does
-- that dominates it.
pub traverse-dominators :
    (t : Ast) (x : Block)
    → has x (blocks_of (traverse t new_builder)) ≡ true
    → x ≢ 0
    → (d : Block) × (compute_dominators (traverse t new_builder).graph x ≡ some d)
      × Dominates (traverse t new_builder).graph 0 d x
      × ((e : Block)
          → Dominates (traverse t new_builder).graph 0 e x
          → e ≢ d
          → Dominates (traverse t new_builder).graph 0 e d)
traverse-dominators t x h ne =
    let (v, reached) = traverse-reaches t in
    let g = (traverse t new_builder).graph in
    let zero_in = (v.numbered 0).1 (omega (arith, v.current)) in
    let (d, k, last) = compute_dominators_lem g 0 x v.graph v.first zero_in (reached x h) ne in
    (
      d,
      k,
      last.dominates,
      λ e de ed.
          (compute_dominators-immediate g 0 x d e v.graph v.first zero_in (reached x h) ne k de
            ed).1,
    )
