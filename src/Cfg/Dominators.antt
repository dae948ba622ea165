-- ===== src/Cfg/Dominators.antt =====
-- The field `Dominator` after the first loop of `ComputeDominatorTree`.
use zettelkasten_public_subs.Common.{
  ℕ, ◌≡◌, refl, sym, ap, ◌∙◌, subst, ◌≢◌, ◌↔◌, ◌⊎◌, inl, inr, true, false, Option, none, some, List,
  [], ◌∷◌, ◌++◌, if◌then◌else◌, arith, Bool-cases,
}
use zettelkasten_public_subs.Cfg.{
  Block, Visited, has, Cfg, mark, nothing, walk, unchanged, itself, dom_dfs, front, fuel,
  compute_pred_order, Dominator, dominated, dominators_from, compute_dominators,
}
use zettelkasten_public_subs.Cfg.Paths.{Walkway, here, Walkway-end, Walkway-start}
use zettelkasten_public_subs.Cfg.Marks.{has_cases}
use zettelkasten_public_subs.Cfg.Walks.{IsGraph, Walks, walk-Walks, Walks-reach}
use zettelkasten_public_subs.Cfg.Orders.{compute_orders_lem, enough_fuel, front-pred_order}

-- The block is another one, and every path from the first block to `x` leads through it.
pub record Dominates (g : Cfg) (b d x : Block) : Type 0 where
  pub other : x ≢ d
  pub blocks : ¬ Walkway g (mark d nothing) b x

pub mark-nothing : (d x : Block) → (mark d nothing x ≡ true) ↔ (x ≡ d)
unfolding mark nothing
mark-nothing d x = ground arith

itself_marks : (b : Block) (v : Visited) (x : Block) → itself (mark b v) x ≡ mark b (itself v) x
unfolding itself
itself_marks b v x = refl

itself-unchanged : (b : Block) (v : Visited) (x : Block) → itself (unchanged b v) x ≡ itself v x
unfolding unchanged
itself-unchanged b v x = refl

pub not_marked : (d x : Block) → x ≢ d → mark d nothing x ≡ false
not_marked d x ne = elim (Bool-cases (mark d nothing x)) [
  | inl m ↦ absurd (ne ((mark-nothing d x).0 m))
  | inr m ↦ m
]

-- The walk around a marked block other than the first.
pub around : Cfg → Block → Block → Visited
around g b d = walk itself mark unchanged g (fuel g) b (mark d nothing)

around_eq :
    (g : Cfg) (b d : Block)
    → walk itself mark unchanged g (fuel g) b (mark d nothing) ≡ around g b d
unfolding around
around_eq g b d = refl

around_lem :
    (g : Cfg) (b d x : Block)
    → Walks g itself b (mark d nothing) (around g b d)
    → (around g b d x ≡ false) ↔ Dominates g b d x
unfolding itself
around_lem g b d x w = (
  λ h. record {
    other = λ e. absurd (cc (h, w.grows x ((mark-nothing d x).1 e)));
    blocks = λ p.
        absurd (
          cc (h, (Walks-reach g itself b (mark d nothing) (around g b d) x w (Walkway-end p)).1 p));
  },
  λ k. elim (Bool-cases (around g b d x)) [
    | inr m ↦ m
    | inl m ↦ absurd (
        k.blocks (
          (Walks-reach g itself b (mark d nothing) (around g b d) x w (not_marked d x k.other)).0
            m))
  ],
)

pub around-Walks :
    (g : Cfg) (b d : Block)
    → IsGraph g
    → has b g.basic_blocks ≡ true
    → mark d nothing b ≡ false
    → Walks g itself b (mark d nothing) (around g b d)
unfolding around itself
around-Walks g b d graph inside m =
    walk-Walks g itself mark unchanged itself_marks itself-unchanged graph (fuel g) b
      (mark d nothing) m inside (enough_fuel g (mark d nothing))

dom_dfs_skip : (g : Cfg) (f : ℕ) (b : Block) (v : Visited) → v b ≡ true → dom_dfs g f b v ≡ v
unfolding dom_dfs
dom_dfs_skip g f b v m = ground (arith, m)

dom_dfs_go :
    (g : Cfg) (f : ℕ) (b : Block) (v : Visited)
    → v b ≡ false
    → dom_dfs g f b v ≡ walk itself mark unchanged g f b v
unfolding dom_dfs
dom_dfs_go g f b v m = ground (arith, m)

-- A block that `DomDFS` with `d` marked has not visited is dominated by `d`, and the other way round.
pub unvisited_lem :
    (g : Cfg) (b d x : Block)
    → IsGraph g
    → has b g.basic_blocks ≡ true
    → (dom_dfs g (fuel g) b (mark d nothing) x ≡ false) ↔ Dominates g b d x
unvisited_lem g b d x graph inside = elim (Bool-cases (mark d nothing b)) [
  | inl m ↦
      subst (λ (v : Visited). (v x ≡ false) ↔ Dominates g b d x)
        (sym (dom_dfs_skip g (fuel g) b (mark d nothing) m))
        (
          λ h. record {
            other = λ e. absurd (cc (h, (mark-nothing d x).1 e));
            blocks = λ p. absurd (cc (Walkway-start p, m));
          },
          λ k. not_marked d x k.other,
        )
  | inr m ↦
      subst (λ (v : Visited). (v x ≡ false) ↔ Dominates g b d x)
        (sym (dom_dfs_go g (fuel g) b (mark d nothing) m ∙ around_eq g b d))
        (around_lem g b d x (around-Walks g b d graph inside m))
]

-- What the rounds of the loop leave in the field of a block of the order.
last_unvisited : Cfg → Block → List Block → Block → Option Block → Option Block
last_unvisited g b [] x old = old
last_unvisited g b (it ∷ its) x old =
    last_unvisited g b its x (dominated (dom_dfs g (fuel g) b (mark it nothing)) it old x)

dominators_from_lem :
    (g : Cfg) (order its : List Block) (d : Dominator) (x : Block)
    → has x order ≡ true
    → dominators_from g order its d x ≡ last_unvisited g (front order) its x (d x)
unfolding dominators_from last_unvisited
dominators_from_lem g order [] d x h = refl
dominators_from_lem g order (it ∷ its) d x h =
    let v = dom_dfs g (fuel g) (front order) (mark it nothing) in
    dominators_from_lem g order its (λ jt. if has jt order then dominated v it (d jt) jt else d jt)
      x h
    ∙ ap (last_unvisited g (front order) its x) (rw h refl)

-- Either the field keeps its value and no block of the list dominates, or it holds the last that does.
pub record IsLast (g : Cfg) (b : Block) (its : List Block) (x d : Block) : Type 0 where
  pub earlier : List Block
  pub later : List Block
  pub splits : its ≡ earlier ++ d ∷ later
  pub dominates : Dominates g b d x
  pub last : (e : Block) → has e later ≡ true → ¬ Dominates g b e x

NoneOf : Cfg → Block → List Block → Block → Type 0
NoneOf g b its x = (e : Block) → has e its ≡ true → ¬ Dominates g b e x

no_member : (e : Block) → has e [] ≢ true
unfolding has
no_member e h = cc

last_unvisited_lem :
    (g : Cfg) (b : Block) (its : List Block) (x : Block) (old : Option Block)
    → IsGraph g
    → has b g.basic_blocks ≡ true
    → ((last_unvisited g b its x old ≡ old) × NoneOf g b its x)
      ⊎ ((d : Block) × (last_unvisited g b its x old ≡ some d) × IsLast g b its x d)
unfolding last_unvisited NoneOf dominated
last_unvisited_lem g b [] x old graph inside = inl (refl, λ e h. absurd (no_member e h))
last_unvisited_lem g b (it ∷ its) x old graph inside =
    let v = dom_dfs g (fuel g) b (mark it nothing) in
    elim (Bool-cases (v x)) [
      | inl m ↦ elim (last_unvisited_lem g b its x old graph inside) [
        | inl (e, none_of) ↦ inl (
          rw m e,
          λ c h k. elim (has_cases c it its h) [
            | inl q ↦ absurd (
                cc (
                  m,
                  (unvisited_lem g b it x graph inside).1
                      (subst (λ (y : Block). Dominates g b y x) q k),
                ))
            | inr q ↦ none_of c q k
          ],
        )
        | inr (d, e, k) ↦ inr (
          d,
          rw m e,
          record {
            earlier = it ∷ k.earlier;
            later = k.later;
            splits = ap (λ l. it ∷ l) k.splits;
            dominates = k.dominates;
            last = k.last;
          },
        )
      ]
      | inr m ↦ elim (last_unvisited_lem g b its x (some it) graph inside) [
        | inl (e, none_of) ↦ inr (
          it,
          rw m e,
          record {
            earlier = [];
            later = its;
            splits = refl;
            dominates = (unvisited_lem g b it x graph inside).0 m;
            last = none_of;
          },
        )
        | inr (d, e, k) ↦ inr (
          d,
          rw m e,
          record {
            earlier = it ∷ k.earlier;
            later = k.later;
            splits = ap (λ l. it ∷ l) k.splits;
            dominates = k.dominates;
            last = k.last;
          },
        )
      ]
    ]

some_of :
    (g : Cfg) (b : Block) (its : List Block) (x d : Block)
    → NoneOf g b its x
    → has d its ≡ true
    → ¬ Dominates g b d x
unfolding NoneOf
some_of g b its x d k h = k d h

first-Dominates : (g : Cfg) (b x : Block) → x ≢ b → Dominates g b b x
first-Dominates g b x ne = record {
  other = ne;
  blocks = λ p. absurd (cc (Walkway-start p, (mark-nothing b b).1 refl));
}

-- On a graph whose links lead to its blocks, after the loops the field of each block that a path from
-- the first block leads to, but of that one itself, holds a block that dominates it, and of those the
-- one that is the last in the order of the first walk.
pub compute_dominators_lem :
    (g : Cfg) (b x : Block)
    → IsGraph g
    → front g.basic_blocks ≡ b
    → has b g.basic_blocks ≡ true
    → Walkway g nothing b x
    → x ≢ b
    → (d : Block) × (compute_dominators g x ≡ some d) × IsLast g b (compute_pred_order g) x d
unfolding compute_dominators nothing
compute_dominators_lem g b x graph first inside path ne =
    let order = compute_pred_order g in
    let listed = ((compute_orders_lem g b x graph first inside).0.0).1 path in
    let b_listed = ((compute_orders_lem g b b graph first inside).0.0).1 (here b refl) in
    let e =
      dominators_from_lem g order order (λ y. none) x listed
      ∙ ap (λ (c : Block). last_unvisited g c order x none) (front-pred_order g b first inside) in
    elim (last_unvisited_lem g b order x none graph inside) [
      | inl (k, none_of) ↦
          absurd (some_of g b order x b none_of b_listed (first-Dominates g b x ne))
      | inr (d, k, last) ↦ (d, e ∙ k, last)
    ]

-- The field of a block that is not in the order is not written.
dominators_from-unlisted :
    (g : Cfg) (order its : List Block) (d : Dominator) (x : Block)
    → has x order ≡ false
    → dominators_from g order its d x ≡ d x
unfolding dominators_from
dominators_from-unlisted g order [] d x h = refl
dominators_from-unlisted g order (it ∷ its) d x h =
    let v = dom_dfs g (fuel g) (front order) (mark it nothing) in
    dominators_from-unlisted g order its
      (λ jt. if has jt order then dominated v it (d jt) jt else d jt) x h
    ∙ rw h refl

pub has-field :
    (g : Cfg) (b x d : Block)
    → IsGraph g
    → front g.basic_blocks ≡ b
    → has b g.basic_blocks ≡ true
    → compute_dominators g x ≡ some d
    → Walkway g nothing b x
unfolding compute_dominators
has-field g b x d graph first inside h = elim (Bool-cases (has x (compute_pred_order g))) [
  | inl m ↦ ((compute_orders_lem g b x graph first inside).0.0).0 m
  | inr m ↦
      let order = compute_pred_order g in
      absurd (cc (h, dominators_from-unlisted g order order (λ y. none) x m))
]

pub first-not_dominated : (g : Cfg) (b e : Block) → ¬ Dominates g b e b
first-not_dominated g b e k = k.blocks (here b (not_marked e b k.other))

-- The field of the first block is not written.
pub compute_dominators-first :
    (g : Cfg) (b : Block)
    → IsGraph g
    → front g.basic_blocks ≡ b
    → has b g.basic_blocks ≡ true
    → compute_dominators g b ≡ none
unfolding compute_dominators nothing
compute_dominators-first g b graph first inside =
    let order = compute_pred_order g in
    let listed = ((compute_orders_lem g b b graph first inside).0.0).1 (here b refl) in
    let e =
      dominators_from_lem g order order (λ y. none) b listed
      ∙ ap (λ (c : Block). last_unvisited g c order b none) (front-pred_order g b first inside) in
    elim (last_unvisited_lem g b order b none graph inside) [
      | inl (k, none_of) ↦ e ∙ k
      | inr (d, k, last) ↦ absurd (first-not_dominated g b d last.dominates)
    ]
