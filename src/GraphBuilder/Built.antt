-- ===== src/GraphBuilder/Built.antt =====
-- The graph of every syntax tree: what the walks and the dominators ask of a graph holds of it.
use zettelkasten_public_subs.Common.{
  ℕ, ◌≤◌, ◌<◌, ◌≡◌, refl, sym, ap, ◌∙◌, subst, ◌≢◌, ◌↔◌, inl, inr, Bool, true, List, [], ◌∷◌, ◌++◌,
  ◌==◌, if◌then◌else◌, length, ◌||◌, ◌&&◌, arith, Bool-cases, length-append,
}
use zettelkasten_public_subs.Cfg.{Block, has, nothing, front, add_block, add_link, write_at}
use zettelkasten_public_subs.Cfg.Links.{IsLinked, add_link-IsLinked, has-append_last}
use zettelkasten_public_subs.Cfg.Walks.{IsGraph}
use zettelkasten_public_subs.GraphBuilder.{
  Ast, Stmt, assignment, jump, conditional, Builder, next_index, create_block, add_statement,
  create_branch, create_conditional_branch, enter, visit_assign,
}
use zettelkasten_public_subs.GraphBuilder.Grows.{blocks_of, Grows, Grows-same, add_link_cases}

-- The blocks are numbered in order, links lead to them and are alike in both directions.
pub record IsBuilt (s : Builder) : Type 0 where
  pub numbered : (b : Block) → (has b (blocks_of s) ≡ true) ↔ (b < length (blocks_of s))
  pub graph : IsGraph s.graph
  pub bare : (b : Block) → length (blocks_of s) ≤ b → s.graph.succs b ≡ []
  pub linked : IsLinked s.graph
  pub current : s.current_block < length (blocks_of s)
  pub first : front (blocks_of s) ≡ 0

no_links_of :
    (b : Block) (s : Builder)
    → IsBuilt s
    → length (blocks_of s) ≤ b
    → (c : Block) → has c (s.graph.succs b) ≢ true
unfolding has
no_links_of b s v h c k = cc (ap (has c) (v.bare b h))

pub front-append : (bs : List Block) (b : Block) → 0 < length bs → front (bs ++ b ∷ []) ≡ front bs
unfolding front
front-append [] b h = absurd (omega arith)
front-append (x ∷ bs) b h = refl

pub create_block-IsBuilt : (s : Builder) → IsBuilt s → IsBuilt (create_block s)
unfolding create_block next_index add_block
create_block-IsBuilt s v =
    let bs = blocks_of s in
    let size = length-append {A = ℕ} bs (length bs ∷ []) in
    record {
      numbered = λ b. ground (arith, v.numbered b, has-append_last b (length bs) bs, size);
      graph = λ b c h k. elim (Bool-cases (has b bs)) [
        | inl m ↦ ground (arith, has-append_last c (length bs) bs, v.graph b c m k)
        | inr m ↦ absurd (no_links_of b s v (ground (arith, m, v.numbered b)) c k)
      ];
      bare = λ b h. v.bare b (omega (arith, h, size));
      linked = record {
        mirror = v.linked.mirror;
        succs_once = v.linked.succs_once;
        preds_once = v.linked.preds_once;
      };
      current = omega (arith, v.current, size);
      first = front-append bs (length bs) (omega (arith, v.current)) ∙ v.first;
    }

-- A link between two blocks of the graph.
link-IsBuilt :
    (p q : Block) (s : Builder)
    → IsBuilt s
    → p < length (blocks_of s)
    → q < length (blocks_of s)
    → IsBuilt (record s { graph = add_link p q s.graph })
unfolding add_link write_at
link-IsBuilt p q s v hp hq = record {
  numbered = v.numbered;
  graph = λ b c h k. elim (add_link_cases p q s.graph b c k) [
    | inl old ↦ v.graph b c h old
    | inr (e, e') ↦ (v.numbered c).1 (subst (λ (x : Block). x < length (blocks_of s)) (sym e') hq)
  ];
  bare = λ b h. ground (arith, v.bare b h, hp);
  linked = add_link-IsLinked p q s.graph v.linked;
  current = v.current;
  first = v.first;
}

-- The statements of the blocks and the current block may change.
other-IsBuilt :
    (s : Builder) (b : Block) (st : Block → List Stmt) (vars : ℕ → Block → Bool)
    → IsBuilt s
    → b < length (blocks_of s)
    → IsBuilt (record s { current_block = b; statements = st; blocks_for_variable = vars })
other-IsBuilt s b st vars v h = record {
  numbered = v.numbered;
  graph = v.graph;
  bare = v.bare;
  linked = v.linked;
  current = h;
  first = v.first;
}

pub enter-IsBuilt :
    (b : Block) (s : Builder) → IsBuilt s → b < length (blocks_of s) → IsBuilt (enter b s)
unfolding enter
enter-IsBuilt b s v h = other-IsBuilt s b s.statements s.blocks_for_variable v h

statement-IsBuilt : (c : Stmt) (s : Builder) → IsBuilt s → IsBuilt (add_statement c s)
unfolding add_statement
statement-IsBuilt c s v =
    other-IsBuilt s s.current_block
      (λ b. if b == s.current_block then s.statements b ++ c ∷ [] else s.statements b)
      s.blocks_for_variable v v.current

pub branch-IsBuilt :
    (m : Block) (s : Builder) → IsBuilt s → m < length (blocks_of s) → IsBuilt (create_branch m s)
unfolding create_branch
branch-IsBuilt m s v h =
    statement-IsBuilt (jump m) (record s { graph = add_link s.current_block m s.graph })
      (link-IsBuilt s.current_block m s v v.current h)

pub conditional-IsBuilt :
    (c : Ast) (t e : Block) (s : Builder)
    → IsBuilt s
    → t < length (blocks_of s)
    → e < length (blocks_of s)
    → IsBuilt (create_conditional_branch c t e s)
unfolding create_conditional_branch
conditional-IsBuilt c t e s v ht he =
    let s' = record s { graph = add_link s.current_block t s.graph } in
    let v' = link-IsBuilt s.current_block t s v v.current ht in
    statement-IsBuilt (conditional c t e) (record s { graph = add_link s.current_block e s'.graph })
      (link-IsBuilt s.current_block e s' v' v'.current (unfold add_link in he))

pub assign-IsBuilt : (n : ℕ) (rhs : Ast) (s : Builder) → IsBuilt s → IsBuilt (visit_assign n rhs s)
unfolding visit_assign
assign-IsBuilt n rhs s v =
    let vars =
      λ (m : ℕ) (b : Block). s.blocks_for_variable m b || (m == n && b == s.current_block) in
    statement-IsBuilt (assignment n rhs) (record s { blocks_for_variable = vars })
      (other-IsBuilt s s.current_block s.statements vars v v.current)

pub assign-Grows : (n : ℕ) (rhs : Ast) (s : Builder) → Grows nothing s (visit_assign n rhs s)
unfolding visit_assign add_statement
assign-Grows n rhs s =
    let same = Grows-same s in
    record { blocks = same.blocks; links = same.links; news = same.news; here_too = same.here_too }
