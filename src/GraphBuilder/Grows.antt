-- ===== src/GraphBuilder/Grows.antt =====
-- How the graph grows: links stay, and every new block has a path from where the builder stood.
use zettelkasten_public_subs.Common.{
  ◌≡◌, refl, sym, ap, subst, ◌⊎◌, inl, inr, true, false, List, ◌==◌, ◌||◌, ◌&&◌, arith, Bool-cases,
  ==_iff,
}
use zettelkasten_public_subs.Cfg.{Block, Visited, Cfg, has, nothing, mark, add_link, write_at}
use zettelkasten_public_subs.Cfg.Links.{has-push_new}
use zettelkasten_public_subs.Cfg.Paths.{Walkway, here, step}
use zettelkasten_public_subs.Cfg.Immediate.{Walkway-append}
use zettelkasten_public_subs.GraphBuilder.{Builder, add_statement, create_branch, enter}

abbrev pub blocks_of : Builder → List Block
blocks_of s = s.graph.basic_blocks

pub Walkway-links :
    {g : Cfg} (h : Cfg) {b d : Block}
    → ((x y : Block) → has y (g.succs x) ≡ true → has y (h.succs x) ≡ true)
    → Walkway g nothing b d
    → Walkway h nothing b d
Walkway-links h k (here b n) = here b n
Walkway-links h k (step b c n e p) = step b c n (k b c e) (Walkway-links h k p)

-- The new blocks but for those that are left out have a path from the current one before.
pub record Grows (but : Visited) (s t : Builder) : Type 0 where
  pub blocks : (b : Block) → has b (blocks_of s) ≡ true → has b (blocks_of t) ≡ true
  pub links : (b c : Block) → has c (s.graph.succs b) ≡ true → has c (t.graph.succs b) ≡ true
  pub news :
      (b : Block)
      → has b (blocks_of t) ≡ true
      → has b (blocks_of s) ≡ false
      → but b ≡ false
      → Walkway t.graph nothing s.current_block b
  pub here_too : Walkway t.graph nothing s.current_block t.current_block

pub not_marked : (b : Block) → nothing b ≡ false
unfolding nothing
not_marked b = refl

pub Grows-same : (s : Builder) → Grows nothing s s
Grows-same s = record {
  blocks = λ b h. h;
  links = λ b c h. h;
  news = λ b h n e. absurd (cc (h, n));
  here_too = here s.current_block (not_marked s.current_block);
}

-- From a block that a path leads to on.
pub Grows-then :
    {but : Visited} {s t : Builder} (b : Block) (u : Builder)
    → Grows but s t
    → Walkway t.graph nothing s.current_block b
    → Grows nothing (enter b t) u
    → Grows but s u
unfolding enter
Grows-then {t} b u g path h =
    let lifted = Walkway-links u.graph h.links path in
    record {
      blocks = λ x k. h.blocks x (g.blocks x k);
      links = λ x y k. h.links x y (g.links x y k);
      news = λ x k n e. elim (Bool-cases (has x (blocks_of t))) [
        | inl m ↦ Walkway-links u.graph h.links (g.news x m n e)
        | inr m ↦ Walkway-append lifted (h.news x k m (not_marked x))
      ];
      here_too = Walkway-append lifted h.here_too;
    }

succs-add_link :
    (p q : Block) (g : Cfg) (b c : Block)
    → has c ((add_link p q g).succs b) ≡ (has c (g.succs b) || (b == p && c == q))
unfolding add_link write_at
succs-add_link p q g b c = elim (Bool-cases (b == p)) [
  | inl e ↦ ground (arith, e, has-push_new c q (g.succs p), ap g.succs ((==_iff b p).0 e))
  | inr e ↦ ground (arith, e)
]

pub links-add_link :
    (p q : Block) (g : Cfg) (b c : Block)
    → has c (g.succs b) ≡ true
    → has c ((add_link p q g).succs b) ≡ true
links-add_link p q g b c h = ground (arith, h, succs-add_link p q g b c)

pub new_link : (p q : Block) (g : Cfg) → has q ((add_link p q g).succs p) ≡ true
new_link p q g = ground (arith, succs-add_link p q g p q)

pub add_link_cases :
    (p q : Block) (g : Cfg) (b c : Block)
    → has c ((add_link p q g).succs b) ≡ true
    → (has c (g.succs b) ≡ true) ⊎ ((b ≡ p) × (c ≡ q))
add_link_cases p q g b c h = ground (arith, h, succs-add_link p q g b c)

unmarked_other : (m b : Block) → (b == m) ≡ false → mark m nothing b ≡ false
unfolding mark nothing
unmarked_other m b q = ground arith

-- A branch to the block that was left out.
pub create_branch-Grows :
    {s : Builder} (t : Builder) (m : Block)
    → Grows (mark m nothing) s t
    → Grows nothing s (create_branch m t)
      × Walkway (create_branch m t).graph nothing s.current_block m
unfolding create_branch add_statement add_link
create_branch-Grows {s} t m g =
    let grown = add_link t.current_block m t.graph in
    let more = links-add_link t.current_block m t.graph in
    let to_current = Walkway-links grown more g.here_too in
    let to_merge = Walkway-append to_current (
      step t.current_block m (not_marked t.current_block) (new_link t.current_block m t.graph)
        (here m (not_marked m))) in
    (
      record {
        blocks = g.blocks;
        links = λ b c h. more b c (g.links b c h);
        news = λ b h n e. elim (Bool-cases (b == m)) [
          | inl q ↦
              subst (λ (x : Block). Walkway grown nothing s.current_block x)
                (sym ((==_iff b m).0 q)) to_merge
          | inr q ↦ Walkway-links grown more (g.news b h n (unmarked_other m b q))
        ];
        here_too = to_current;
      },
      to_merge,
    )
