-- ===== src/GraphBuilder/Split.antt =====
-- The three blocks that a walk makes for an `if`, and the branch to two of them.
use zettelkasten_public_subs.Common.{
  ℕ, ◌+◌, ◌≡◌, refl, sym, ap, ◌∙◌, subst, inl, inr, true, false, [], ◌∷◌, ◌++◌, ◌==◌, length, ◌||◌,
  arith, Bool-cases, ==_iff, length-append,
}
use zettelkasten_public_subs.Cfg.{Block, Cfg, has, nothing, mark, add_block, add_link}
use zettelkasten_public_subs.Cfg.Links.{has-append_last}
use zettelkasten_public_subs.Cfg.Paths.{Walkway, here, step}
use zettelkasten_public_subs.GraphBuilder.{
  Ast, Builder, next_index, create_block, add_statement, create_conditional_branch,
}
use zettelkasten_public_subs.GraphBuilder.Grows.{
  blocks_of, Grows, not_marked, links-add_link, new_link,
}
use zettelkasten_public_subs.GraphBuilder.Built.{IsBuilt, create_block-IsBuilt, conditional-IsBuilt}

-- The three blocks of an `if` and the branch to two of them.
unfoldable pub three_blocks : Builder → Builder
three_blocks s = create_block (create_block (create_block s))

unfoldable pub then_of : Builder → Block
then_of s = next_index s

unfoldable pub else_of : Builder → Block
else_of s = next_index (create_block s)

unfoldable pub merge_of : Builder → Block
merge_of s = next_index (create_block (create_block s))

unfoldable pub split : Ast → Builder → Builder
split c s = create_conditional_branch c (then_of s) (else_of s) (three_blocks s)

three_sizes :
    (s : Builder)
    → (then_of s ≡ length (blocks_of s))
      × (else_of s ≡ length (blocks_of s) + 1)
      × (merge_of s ≡ length (blocks_of s) + 2)
      × (length (blocks_of (three_blocks s)) ≡ length (blocks_of s) + 3)
unfolding then_of else_of merge_of three_blocks create_block next_index add_block
three_sizes s =
    let bs = blocks_of s in
    let n = length bs in
    let one = length-append {A = ℕ} bs (n ∷ []) in
    let two = length-append {A = ℕ} (bs ++ n ∷ []) (length (bs ++ n ∷ []) ∷ []) in
    let three =
      length-append {A = ℕ} ((bs ++ n ∷ []) ++ length (bs ++ n ∷ []) ∷ [])
        (length ((bs ++ n ∷ []) ++ length (bs ++ n ∷ []) ∷ []) ∷ []) in
    (refl, omega (arith, one), omega (arith, one, two), omega (arith, one, two, three))

has-three :
    (s : Builder) (b : Block)
    → has b (blocks_of (three_blocks s))
      ≡ (((has b (blocks_of s) || b == then_of s) || b == else_of s) || b == merge_of s)
unfolding then_of else_of merge_of three_blocks create_block next_index add_block
has-three s b =
    let bs = blocks_of s in
    let n = length bs in
    ground (
      arith,
      has-append_last b n bs,
      has-append_last b (length (bs ++ n ∷ [])) (bs ++ n ∷ []),
      has-append_last b (length ((bs ++ n ∷ []) ++ length (bs ++ n ∷ []) ∷ []))
          ((bs ++ n ∷ []) ++ length (bs ++ n ∷ []) ∷ []),
    )

three-IsBuilt : (s : Builder) → IsBuilt s → IsBuilt (three_blocks s)
unfolding three_blocks
three-IsBuilt s v =
    create_block-IsBuilt (create_block (create_block s))
      (create_block-IsBuilt (create_block s) (create_block-IsBuilt s v))

pub split-IsBuilt : (c : Ast) (s : Builder) → IsBuilt s → IsBuilt (split c s)
unfolding split
split-IsBuilt c s v =
    let (a, b, m, n) = three_sizes s in
    conditional-IsBuilt c (then_of s) (else_of s) (three_blocks s) (three-IsBuilt s v)
      (omega (arith, a, n)) (omega (arith, b, n))

split_blocks : (c : Ast) (s : Builder) → blocks_of (split c s) ≡ blocks_of (three_blocks s)
unfolding split create_conditional_branch add_statement add_link
split_blocks c s = refl

split_current : (c : Ast) (s : Builder) → (split c s).current_block ≡ s.current_block
unfolding split create_conditional_branch add_statement three_blocks create_block
split_current c s = refl

split_links :
    (c : Ast) (s : Builder) (b d : Block)
    → has d (s.graph.succs b) ≡ true
    → has d ((split c s).graph.succs b) ≡ true
unfolding split create_conditional_branch add_statement three_blocks create_block add_block
split_links c s b d h =
    links-add_link s.current_block (else_of s)
      (add_link s.current_block (then_of s) (three_blocks s).graph) b d
      (links-add_link s.current_block (then_of s) (three_blocks s).graph b d h)

pub split-then :
    (c : Ast) (s : Builder) → has (then_of s) ((split c s).graph.succs s.current_block) ≡ true
unfolding split create_conditional_branch add_statement three_blocks create_block add_block
split-then c s =
    links-add_link s.current_block (else_of s)
      (add_link s.current_block (then_of s) (three_blocks s).graph) s.current_block (then_of s)
      (new_link s.current_block (then_of s) (three_blocks s).graph)

pub split-else :
    (c : Ast) (s : Builder) → has (else_of s) ((split c s).graph.succs s.current_block) ≡ true
unfolding split create_conditional_branch add_statement three_blocks create_block add_block
split-else c s =
    new_link s.current_block (else_of s)
      (add_link s.current_block (then_of s) (three_blocks s).graph)

pub path_to : (g : Cfg) (b d : Block) → has d (g.succs b) ≡ true → Walkway g nothing b d
path_to g b d h = step b d (not_marked b) h (here d (not_marked d))

mark_merge : (m b : Block) → mark m nothing b ≡ false → (b == m) ≡ false
unfolding mark nothing
mark_merge m b h = ground arith

pub split-Grows : (c : Ast) (s : Builder) → Grows (mark (merge_of s) nothing) s (split c s)
unfolding split create_conditional_branch add_statement three_blocks create_block
split-Grows c s = record {
  blocks = λ b h. ap (has b) (split_blocks c s) ∙ ground (arith, has-three s b, h);
  links = split_links c s;
  news = λ b h n e. elim (Bool-cases (b == then_of s)) [
    | inl q ↦ path_to (split c s).graph s.current_block b (
        subst (λ (x : Block). has x ((split c s).graph.succs s.current_block) ≡ true)
          (sym ((==_iff b (then_of s)).0 q)) (split-then c s))
    | inr q ↦
        let is_else : (b == else_of s) ≡ true = ground (
          arith,
          has-three s b,
          ap (has b) (split_blocks c s),
          h,
          n,
          q,
          mark_merge (merge_of s) b e,
        ) in
        path_to (split c s).graph s.current_block b (
          subst (λ (x : Block). has x ((split c s).graph.succs s.current_block) ≡ true)
            (sym ((==_iff b (else_of s)).0 is_else)) (split-else c s))
  ];
  here_too = here s.current_block (not_marked s.current_block);
}

pub made_block :
    (c : Ast) (s : Builder) (b : Block)
    → (b == then_of s || (b == else_of s || b == merge_of s)) ≡ true
    → has b (blocks_of (split c s)) ≡ true
made_block c s b h = ap (has b) (split_blocks c s) ∙ ground (arith, has-three s b, h)
