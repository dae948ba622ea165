-- ===== src/Cfg/Rows.antt =====
-- What the loops of `ComputeBaseDominanceFrontier` write to the sets of the blocks.
use zettelkasten_public_subs.Common.{
  ◌≡◌, refl, sym, ap, ◌∙◌, subst, ◌≢◌, ◌↔◌, ◌⊎◌, inl, inr, true, false, Option, none, some, List,
  [], ◌∷◌, ◌++◌, ◌==◌, arith, Bool-cases, ==_iff,
}
use zettelkasten_public_subs.Cfg.{Block, Visited, has, Cfg, Dominator}
use zettelkasten_public_subs.Cfg.Marks.{has_self, has_tail}
use zettelkasten_public_subs.Cfg.Frontier.{
  Frontier, is_dominated_by, dominating_blocks, insert_others, from_dominated, base_frontier_from,
}

pub is_dominated_by_iff :
    (d : Dominator) (x y : Block) → (is_dominated_by d x y ≡ true) ↔ (d y ≡ some x)
unfolding is_dominated_by
is_dominated_by_iff d x y = fields (d y)
  where
    fields : (o : Option Block) → (elim o [ none ↦ false | some z ↦ z == x ] ≡ true) ↔ (o ≡ some x)
    fields none = (λ h. absurd (cc h), λ h. absurd (cc h))
    fields (some z) = (λ h. ap some ((==_iff z x).0 h), λ h. ground (arith, h))

pub has-dominating_blocks :
    (d : Dominator) (vs : List Block) (x z : Block)
    → (has z (dominating_blocks d vs x) ≡ true)
      ↔ ((has z vs ≡ true) × (is_dominated_by d x z ≡ true))
unfolding dominating_blocks has
has-dominating_blocks d [] x z = (λ h. absurd (cc h), λ h. absurd (cc h.0))
has-dominating_blocks d (v ∷ vs) x z = elim (Bool-cases (z == v)) [
  | inl q ↦
      let same = (==_iff z v).0 q in
      ground (arith, q, has-dominating_blocks d vs x z, ap (is_dominated_by d x) same)
  | inr q ↦ ground (arith, q, has-dominating_blocks d vs x z)
]

module _ (d : Dominator) (x : Block) where
  pub insert_others-keeps :
      (ys : Visited) (df : Frontier) (u y : Block)
      → df u y ≡ true
      → insert_others d x ys df u y ≡ true
  unfolding insert_others
  insert_others-keeps ys df u y h = ground (arith, h)

  pub insert_others-adds :
      (ys : Visited) (df : Frontier) (y : Block)
      → ys y ≡ true
      → is_dominated_by d x y ≡ false
      → insert_others d x ys df x y ≡ true
  unfolding insert_others
  insert_others-adds ys df y h k = ground (arith, h, k)

  pub insert_others-cases :
      (ys : Visited) (df : Frontier) (u y : Block)
      → insert_others d x ys df u y ≡ true
      → (df u y ≡ true) ⊎ ((u ≡ x) × (ys y ≡ true) × (is_dominated_by d x y ≡ false))
  unfolding insert_others
  insert_others-cases ys df u y h = ground (arith, h)

  pub insert_others-other :
      (ys : Visited) (df : Frontier) (u y : Block) → u ≢ x → insert_others d x ys df u y ≡ df u y
  unfolding insert_others
  insert_others-other ys df u y h = ground (arith, h)

  pub from_dominated-keeps :
      (zs : List Block) (df : Frontier) (u y : Block)
      → df u y ≡ true
      → from_dominated d x zs df u y ≡ true
  unfolding from_dominated
  from_dominated-keeps [] df u y h = h
  from_dominated-keeps (z ∷ zs) df u y h =
      from_dominated-keeps zs (insert_others d x (df z) df) u y
        (insert_others-keeps (df z) df u y h)

  pub from_dominated-adds :
      (zs : List Block) (df : Frontier) (z y : Block)
      → has z zs ≡ true
      → df z y ≡ true
      → is_dominated_by d x y ≡ false
      → from_dominated d x zs df x y ≡ true
  unfolding from_dominated has
  from_dominated-adds [] df z y i h k = cc
  from_dominated-adds (v ∷ zs) df z y i h k =
      let df' = insert_others d x (df v) df in
      elim (Bool-cases (z == v)) [
        | inl q ↦ from_dominated-keeps zs df' x y (
            insert_others-adds (df v) df y (ap (λ (w : Block). df w y) (sym ((==_iff z v).0 q)) ∙ h)
              k)
        | inr q ↦
            from_dominated-adds zs df' z y (ground (arith, i, q))
              (insert_others-keeps (df v) df z y h) k
      ]

  pub from_dominated-other :
      (zs : List Block) (df : Frontier) (u y : Block)
      → u ≢ x
      → from_dominated d x zs df u y ≡ df u y
  unfolding from_dominated
  from_dominated-other [] df u y h = refl
  from_dominated-other (z ∷ zs) df u y h =
      from_dominated-other zs (insert_others d x (df z) df) u y h
      ∙ insert_others-other (df z) df u y h

module _ (g : Cfg) (d : Dominator) where
  -- One round of the loop over the second order.
  pub row : Block → Frontier → Frontier
  row x df =
      from_dominated d x (dominating_blocks d g.basic_blocks x)
        (insert_others d x (λ y. has y (g.succs x)) df)

  pub row-keeps : (x : Block) (df : Frontier) (u y : Block) → df u y ≡ true → row x df u y ≡ true
  unfolding row
  row-keeps x df u y h =
      from_dominated-keeps d x (dominating_blocks d g.basic_blocks x)
        (insert_others d x (λ w. has w (g.succs x)) df) u y
        (insert_others-keeps d x (λ w. has w (g.succs x)) df u y h)

  pub row-edge :
      (x : Block) (df : Frontier) (y : Block)
      → has y (g.succs x) ≡ true
      → is_dominated_by d x y ≡ false
      → row x df x y ≡ true
  unfolding row
  row-edge x df y h k =
      from_dominated-keeps d x (dominating_blocks d g.basic_blocks x)
        (insert_others d x (λ w. has w (g.succs x)) df) x y
        (insert_others-adds d x (λ w. has w (g.succs x)) df y h k)

  pub row-up :
      (x : Block) (df : Frontier) (z y : Block)
      → has z g.basic_blocks ≡ true
      → is_dominated_by d x z ≡ true
      → df z y ≡ true
      → is_dominated_by d x y ≡ false
      → row x df x y ≡ true
  unfolding row
  row-up x df z y i j h k =
      from_dominated-adds d x (dominating_blocks d g.basic_blocks x)
        (insert_others d x (λ w. has w (g.succs x)) df) z y
        ((has-dominating_blocks d g.basic_blocks x z).1 (i, j))
        (insert_others-keeps d x (λ w. has w (g.succs x)) df z y h) k

  pub row-other : (x : Block) (df : Frontier) (u y : Block) → u ≢ x → row x df u y ≡ df u y
  unfolding row
  row-other x df u y h =
      from_dominated-other d x (dominating_blocks d g.basic_blocks x)
        (insert_others d x (λ w. has w (g.succs x)) df) u y h
      ∙ insert_others-other d x (λ w. has w (g.succs x)) df u y h

  pub rows-keep :
      (xs : List Block) (df : Frontier) (u y : Block)
      → df u y ≡ true
      → base_frontier_from g d xs df u y ≡ true
  unfolding base_frontier_from row
  rows-keep [] df u y h = h
  rows-keep (x ∷ xs) df u y h = rows-keep xs (row x df) u y (row-keeps x df u y h)

  pub rows-other :
      (xs : List Block) (df : Frontier) (u y : Block)
      → has u xs ≡ false
      → base_frontier_from g d xs df u y ≡ df u y
  unfolding base_frontier_from row has
  rows-other [] df u y h = refl
  rows-other (x ∷ xs) df u y h =
      rows-other xs (row x df) u y (ground (arith, h))
      ∙ row-other x df u y (λ q. absurd (ground (arith, h, (==_iff u x).1 q)))

  pub rows-append :
      (us xs : List Block) (df : Frontier)
      → base_frontier_from g d (us ++ xs) df
        ≡ base_frontier_from g d xs (base_frontier_from g d us df)
  unfolding base_frontier_from row
  rows-append [] xs df = refl
  rows-append (u ∷ us) xs df = rows-append us xs (row u df)

  pub rows_at :
      (us : List Block) (x : Block) (vs : List Block) (df : Frontier)
      → base_frontier_from g d (us ++ x ∷ vs) df
        ≡ base_frontier_from g d vs (row x (base_frontier_from g d us df))
  unfolding base_frontier_from row
  rows_at us x vs df = rows-append us (x ∷ vs) df

-- What is in the sets has a property that the two tests of a round give.
module _ (g : Cfg) (d : Dominator) (P : Block → Block → Type 0) where
  abbrev pub HaveAll : Frontier → Type 0
  HaveAll df = (u y : Block) → df u y ≡ true → P u y

  inserted :
      (x : Block) (ys : Visited) (df : Frontier)
      → HaveAll df
      → ((y : Block) → ys y ≡ true → is_dominated_by d x y ≡ false → P x y)
      → HaveAll (insert_others d x ys df)
  inserted x ys df all new u y h = elim (insert_others-cases d x ys df u y h) [
    | inl k ↦ all u y k
    | inr (e, k, l) ↦ subst (λ (w : Block). P w y) (sym e) (new y k l)
  ]

  from_all :
      (x : Block) (zs : List Block) (df : Frontier)
      → HaveAll df
      → ((z y : Block) → has z zs ≡ true → P z y → is_dominated_by d x y ≡ false → P x y)
      → HaveAll (from_dominated d x zs df)
  unfolding from_dominated
  from_all x [] df all up = all
  from_all x (z ∷ zs) df all up =
      from_all x zs (insert_others d x (df z) df)
        (inserted x (df z) df all (λ y h k. up z y (has_self z zs) (all z y h) k))
        (λ w y i. up w y (has_tail w z zs i))

  pub rows-HaveAll :
      (xs : List Block) (df : Frontier)
      → HaveAll df
      → ((x y : Block)
          → has x xs ≡ true
          → has y (g.succs x) ≡ true
          → is_dominated_by d x y ≡ false
          → P x y)
      → ((x z y : Block)
          → is_dominated_by d x z ≡ true
          → P z y
          → is_dominated_by d x y ≡ false
          → P x y)
      → HaveAll (base_frontier_from g d xs df)
  unfolding base_frontier_from
  rows-HaveAll [] df all edge up = all
  rows-HaveAll (x ∷ xs) df all edge up =
      let local =
        inserted x (λ y. has y (g.succs x)) df all (λ y h k. edge x y (has_self x xs) h k) in
      rows-HaveAll xs
        (from_dominated d x (dominating_blocks d g.basic_blocks x)
          (insert_others d x (λ y. has y (g.succs x)) df))
        (from_all x (dominating_blocks d g.basic_blocks x)
          (insert_others d x (λ y. has y (g.succs x)) df) local
          (λ z y i. up x z y ((has-dominating_blocks d g.basic_blocks x z).0 i).1))
        (λ w y i. edge w y (has_tail w x xs i)) up
