-- ===== src/GraphBuilder/Phi.antt =====
-- Where `InsertPhiNodes` of 2022-03-17-SSA-form-implementation/main.cpp puts the phi nodes.
use zettelkasten_public_subs.Common.{
  ℕ, suc, ◌≡◌, ◌↔◌, refl, sym, ap, ◌∙◌, Bool, true, false, List, [], ◌∷◌, ◌++◌, if◌then◌else◌,
  length, arith, Bool-cases, inl, inr, Option, some,
}
use zettelkasten_public_subs.Common.{◌>>=◌}
use zettelkasten_public_subs.Cfg.{Block, Visited, Cfg, has}
use zettelkasten_public_subs.Cfg.Frontier.{compute_base_dominance_frontier}
use zettelkasten_public_subs.Cfg.DominanceFrontier.{InFrontier}
use zettelkasten_public_subs.Cfg.Base.{compute_base_dominance_frontier_lem}
use zettelkasten_public_subs.Cfg.Closure.{Iterated, frontier_for_subset_lem}
use zettelkasten_public_subs.Cfg.Closure
use zettelkasten_public_subs.GraphBuilder.Built.{IsBuilt}
use zettelkasten_public_subs.GraphBuilder.{
  Stmt, phi, Builder, insert_phis, frontier_of, insert_phi_nodes,
}
use zettelkasten_public_subs.GraphBuilder.Grows.{blocks_of}

-- The iterated dominance frontier of a set of blocks: what is in the dominance frontier of one of them,
-- or of a block that is in the iterated one.
pub data InIterated (g : Cfg) (set : Visited) : Block → Type 0 where
  first :
      (x y : Block)
      → has x g.basic_blocks ≡ true
      → set x ≡ true
      → InFrontier g 0 x y
      → InIterated g set y
  again :
      (x y : Block)
      → has x g.basic_blocks ≡ true
      → InIterated g set x
      → InFrontier g 0 x y
      → InIterated g set y

-- Of the names in order, those for which the block is in the iterated dominance frontier of the blocks
-- that assign to the variable, the last of them first.
pub data Placed (g : Cfg) (assigned : ℕ → Visited) (b : Block) : List ℕ → List ℕ → Type 0 where
  no_names : Placed g assigned b [] []
  placed :
      {names its : List ℕ} (name : ℕ)
      → InIterated g (assigned name) b
      → Placed g assigned b names its
      → Placed g assigned b (name ∷ names) (its ++ name ∷ [])
  skipped :
      {names its : List ℕ} (name : ℕ)
      → ¬ InIterated g (assigned name) b
      → Placed g assigned b names its
      → Placed g assigned b (name ∷ names) its

abbrev pub phis : List Block → List ℕ → List Stmt
phis preds [] = []
phis preds (name ∷ names) = phi name preds ∷ phis preds names

phis-append :
    (preds : List Block) (its : List ℕ) (name : ℕ) (xs : List Stmt)
    → phis preds (its ++ name ∷ []) ++ xs ≡ phis preds its ++ phi name preds ∷ xs
phis-append preds [] name xs = refl
phis-append preds (i ∷ its) name xs =
    ap (λ (ys : List Stmt). phi i preds ∷ ys) (phis-append preds its name xs)

zero_inside : (s : Builder) → IsBuilt s → has 0 (blocks_of s) ≡ true
zero_inside s v = (v.numbered 0).1 (omega (arith, v.current))

frontier-InFrontier :
    (s : Builder) (x y : Block)
    → IsBuilt s
    → (compute_base_dominance_frontier s.graph x y ≡ true) ↔ InFrontier s.graph 0 x y
frontier-InFrontier s x y v =
    compute_base_dominance_frontier_lem s.graph 0 x y v.graph v.first (zero_inside s v)

to_iterated :
    (s : Builder) (set : Visited) (y : Block)
    → IsBuilt s
    → Iterated (blocks_of s) (compute_base_dominance_frontier s.graph) set y
    → InIterated s.graph set y
to_iterated s set y v (Closure.first x _ i k h) = first x y i k ((frontier-InFrontier s x y v).0 h)
to_iterated s set y v (Closure.again x _ i k h) =
    again x y i (to_iterated s set x v k) ((frontier-InFrontier s x y v).0 h)

from_iterated :
    (s : Builder) (set : Visited) (y : Block)
    → IsBuilt s
    → InIterated s.graph set y
    → Iterated (blocks_of s) (compute_base_dominance_frontier s.graph) set y
from_iterated s set y v (first x _ i k h) =
    Closure.first x y i k ((frontier-InFrontier s x y v).1 h)
from_iterated s set y v (again x _ i k h) =
    Closure.again x y i (from_iterated s set x v k) ((frontier-InFrontier s x y v).1 h)

frontier_of_lem :
    (name : ℕ) (s : Builder)
    → IsBuilt s
    → (r : Visited) × (frontier_of name s ≡ some r)
      × ((y : Block)
          → has y (blocks_of s) ≡ true
          → (r y ≡ true) ↔ InIterated s.graph (s.blocks_for_variable name) y)
unfolding frontier_of
frontier_of_lem name s v =
    let bs = blocks_of s in
    let set = s.blocks_for_variable name in
    let (r, e, k) =
      frontier_for_subset_lem bs (compute_base_dominance_frontier s.graph) set (suc (length bs))
        (omega arith) in
    (
      r,
      e,
      λ y i.
          (λ h. to_iterated s set y v ((k y i).0 h), λ it. (k y i).1 (from_iterated s set y v it)),
    )

insert_phis-IsBuilt :
    (name : ℕ) (r : Visited) (s : Builder) → IsBuilt s → IsBuilt (insert_phis name r s)
unfolding insert_phis
insert_phis-IsBuilt name r s v = record {
  numbered = v.numbered;
  graph = v.graph;
  bare = v.bare;
  linked = v.linked;
  current = v.current;
  first = v.first;
}

front_phi :
    (s : Builder) (b : Block) (name : ℕ) (r : Visited) (its : List ℕ) (cs : List Stmt)
    → r b ≡ true
    → cs ≡ phis (s.graph.preds b) its ++ (insert_phis name r s).statements b
    → cs ≡ phis (s.graph.preds b) (its ++ name ∷ []) ++ s.statements b
unfolding insert_phis
front_phi s b name r its cs h k =
    k
    ∙ ap
        (λ (c : Bool).
          phis (s.graph.preds b) its
          ++ (if c then phi name (s.graph.preds b) ∷ s.statements b else s.statements b))
        h
    ∙ sym (phis-append (s.graph.preds b) its name (s.statements b))

no_phi :
    (s : Builder) (b : Block) (name : ℕ) (r : Visited) (its : List ℕ) (cs : List Stmt)
    → r b ≡ false
    → cs ≡ phis (s.graph.preds b) its ++ (insert_phis name r s).statements b
    → cs ≡ phis (s.graph.preds b) its ++ s.statements b
unfolding insert_phis
no_phi s b name r its cs h k =
    k
    ∙ ap
        (λ (c : Bool).
          phis (s.graph.preds b) its
          ++ (if c then phi name (s.graph.preds b) ∷ s.statements b else s.statements b))
        h

-- On a well-formed builder the phi nodes are placed for every list of names: the graph stays, and in
-- front of the statements of each block there comes one phi node, with the blocks before it, for each of
-- the names for which the block is in the iterated dominance frontier of the blocks that assign to the
-- variable, those of later names first, and none for the other names.
pub insert_phi_nodes_lem :
    (names : List ℕ) (s : Builder)
    → IsBuilt s
    → (t : Builder) × (insert_phi_nodes names s ≡ some t)
      × (t.graph ≡ s.graph)
      × ((b : Block)
          → has b (blocks_of s) ≡ true
          → (its : List ℕ) × Placed s.graph s.blocks_for_variable b names its
            × (t.statements b ≡ phis (s.graph.preds b) its ++ s.statements b))
unfolding insert_phi_nodes insert_phis
insert_phi_nodes_lem [] s v = (s, refl, refl, λ b i. ([], no_names, refl))
insert_phi_nodes_lem (name ∷ names) s v =
    let (r, e, it) = frontier_of_lem name s v in
    let (t, e', g, each) =
      insert_phi_nodes_lem names (insert_phis name r s) (insert_phis-IsBuilt name r s v) in
    (
      t,
      ap (λ (o : Option Visited). o >>= λ q. insert_phi_nodes names (insert_phis name q s)) e ∙ e',
      g,
      λ b i.
          let (its, p, k) = each b i in
          elim (Bool-cases (r b)) [
            | inl h ↦ (
              its ++ name ∷ [],
              placed name ((it b i).0 h) p,
              front_phi s b name r its (t.statements b) h k,
            )
            | inr h ↦ (
              its,
              skipped name (λ q. absurd (cc (h, (it b i).1 q))) p,
              no_phi s b name r its (t.statements b) h k,
            )
          ],
    )
