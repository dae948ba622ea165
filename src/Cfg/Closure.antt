-- ===== src/Cfg/Closure.antt =====
-- What the loop of `GetDominanceFrontierForSubset` ends with.
use zettelkasten_public_subs.Common.{
  ℕ, zero, suc, ◌<◌, ◌≡◌, ◌↔◌, refl, sym, ap, ◌∙◌, ◌≢◌, inl, inr, Bool, true, false, some, List, [],
  ◌∷◌, ◌==◌, length, ◌&&◌, arith, Bool-cases, ==_iff,
}
use zettelkasten_public_subs.Cfg.{Block, Visited, has, nothing}
use zettelkasten_public_subs.Cfg.Marks.{unmarked, unmarked_mono, unmarked-le, has_self, has_tail}
use zettelkasten_public_subs.Cfg.Frontier.{
  Frontier, merged, joined, agree, frontier_loop, get_dominance_frontier_for_subset, same,
}

abbrev pub Within : Visited → Visited → Type 0
Within a b = (x : Block) → a x ≡ true → b x ≡ true

same_lem : (a b : Bool) → same a b ≡ true → a ≡ b
unfolding same
same_lem true b h = sym h
same_lem false b h = ground (arith, h)

agree_lem :
    (bs : List Block) (a b : Visited)
    → agree bs a b ≡ true
    → (x : Block) → has x bs ≡ true
    → a x ≡ b x
unfolding agree has
agree_lem [] a b h x i = cc
agree_lem (y ∷ bs) a b h x i = elim (Bool-cases (x == y)) [
  | inl q ↦
      let e = (==_iff x y).0 q in ap a e ∙ same_lem (a y) (b y) (ground (arith, h)) ∙ ap b (sym e)
  | inr q ↦ agree_lem bs a b (ground (arith, h)) x (ground (arith, i, q))
]

-- Where a set grew, a block less is left out.
grown_lem :
    (bs : List Block) (a b : Visited)
    → Within a b
    → agree bs a b ≡ false
    → unmarked b bs < unmarked a bs
unfolding agree unmarked same
grown_lem [] a b k h = cc
grown_lem (x ∷ bs) a b k h = ground (arith, k x, grown_lem bs a b k, unmarked_mono a b bs k)

merged_mono :
    (bs : List Block) (df : Frontier) (a b : Visited)
    → ((x : Block) → has x bs ≡ true → a x ≡ true → b x ≡ true)
    → Within (merged bs df a) (merged bs df b)
unfolding merged has
merged_mono [] df a b k y h = cc
merged_mono (v ∷ bs) df a b k y h =
    ground (arith, h, k v (has_self v bs), merged_mono bs df a b (λ x i. k x (has_tail x v bs i)) y)

joined_mono : (a b s : Visited) → Within a b → Within (joined a s) (joined b s)
unfolding joined
joined_mono a b s k x h = ground (arith, h, k x)

joined_left : (a s : Visited) (x : Block) → s x ≡ true → joined a s x ≡ true
unfolding joined
joined_left a s x h = ground arith

joined_back :
    (bs : List Block) (r dfp subset : Visited)
    → ((x : Block) → has x bs ≡ true → dfp x ≡ true → r x ≡ true)
    → (x : Block) → has x bs ≡ true
    → joined dfp subset x ≡ true
    → joined r subset x ≡ true
unfolding joined
joined_back bs r dfp subset k x i h = ground (arith, h, k x i)

nothing_lem : (x : Block) → nothing x ≢ true
unfolding nothing
nothing_lem x h = cc

-- On the blocks of the graph the set is the frontier of itself with the subset.
abbrev pub IsFrontier : List Block → Frontier → Visited → Visited → Type 0
IsFrontier bs df subset r = (y : Block) → has y bs ≡ true → r y ≡ merged bs df (joined r subset) y

Bool_eq : (a b : Bool) → (a ≡ true → b ≡ true) → (b ≡ true → a ≡ true) → a ≡ b
Bool_eq true true k l = refl
Bool_eq true false k l = sym (k refl)
Bool_eq false true k l = l refl
Bool_eq false false k l = refl

-- Where the two sets of the loop agree, they are the frontier.
agreed-IsFrontier :
    (bs : List Block) (df : Frontier) (subset r dfp : Visited)
    → Within r dfp
    → Within dfp (merged bs df (joined dfp subset))
    → agree bs r (merged bs df (joined dfp subset)) ≡ true
    → IsFrontier bs df subset r
agreed-IsFrontier bs df subset r dfp k l h y i =
    let next = merged bs df (joined dfp subset) in
    let eq = agree_lem bs r next h in
    let back : (x : Block)
        → has x bs ≡ true
        → joined dfp subset x ≡ true
        → joined r subset x ≡ true =
      joined_back bs r dfp subset (λ x j m. eq x j ∙ l x m) in
    Bool_eq (r y) (merged bs df (joined r subset) y)
      (λ m. merged_mono bs df (joined dfp subset) (joined r subset) back y (sym (eq y i) ∙ m))
      (λ m.
        eq y i
        ∙ merged_mono bs df (joined r subset) (joined dfp subset)
            (λ x j. joined_mono r dfp subset k x) y m)

loop_ends :
    (bs : List Block) (df : Frontier) (subset : Visited) (f : ℕ) (r dfp : Visited)
    → agree bs r (merged bs df (joined dfp subset)) ≡ true
    → frontier_loop bs df subset (suc f) r dfp ≡ some r
unfolding frontier_loop
loop_ends bs df subset f r dfp h = ground (arith, h)

loop_goes :
    (bs : List Block) (df : Frontier) (subset : Visited) (f : ℕ) (r dfp : Visited)
    → let next = merged bs df (joined dfp subset) in
      agree bs r next ≡ false
      → frontier_loop bs df subset (suc f) r dfp ≡ frontier_loop bs df subset f next next
unfolding frontier_loop
loop_goes bs df subset f r dfp h = ground (arith, h)

-- What is in the set has the property.
abbrev Have : Visited → (Block → Type 0) → Type 0
Have a T = (x : Block) → a x ≡ true → T x

loop_lem :
    (bs : List Block) (df : Frontier) (subset : Visited) (T : Block → Type 0) (f : ℕ)
    (r dfp : Visited)
    → ((a : Visited) → Have a T → Have (merged bs df (joined a subset)) T)
    → Within r dfp
    → Have r T
    → Have dfp T
    → Within dfp (merged bs df (joined dfp subset))
    → unmarked r bs < f
    → (s : Visited) × (frontier_loop bs df subset f r dfp ≡ some s)
      × IsFrontier bs df subset s
      × Have s T
loop_lem bs df subset T zero r dfp closed k l m n small = absurd (omega arith)
loop_lem bs df subset T (suc f) r dfp closed k l m n small =
    let next = merged bs df (joined dfp subset) in
    let in_t : Have next T = closed dfp m in
    let wider : Within r next = λ x h. n x (k x h) in
    elim (Bool-cases (agree bs r next)) [
      | inl h ↦ (r, loop_ends bs df subset f r dfp h, agreed-IsFrontier bs df subset r dfp k n h, l)
      | inr h ↦
          let (s, e, fr, w) =
            loop_lem bs df subset T f next next closed (λ x i. i) in_t in_t
              (λ x i.
                merged_mono bs df (joined dfp subset) (joined next subset)
                  (λ y j. joined_mono dfp next subset n y) x i)
              (omega (arith, small, grown_lem bs r next wider h)) in
          (s, loop_goes bs df subset f r dfp h ∙ e, fr, w)
    ]

-- The frontier of the subset, the frontier of the subset and of that one, and so on: the blocks that
-- the frontiers of blocks of the graph lead to from those of the subset.
pub data Iterated (bs : List Block) (df : Frontier) (subset : Visited) : Block → Type 0 where
  first :
      (x y : Block) → has x bs ≡ true → subset x ≡ true → df x y ≡ true → Iterated bs df subset y
  again :
      (x y : Block)
      → has x bs ≡ true
      → Iterated bs df subset x
      → df x y ≡ true
      → Iterated bs df subset y

merged_from :
    (bs : List Block) (df : Frontier) (a : Visited) (y : Block)
    → merged bs df a y ≡ true
    → (x : Block) × (has x bs ≡ true) × (a x ≡ true) × (df x y ≡ true)
unfolding merged
merged_from [] df a y h = cc
merged_from (v ∷ bs) df a y h = elim (Bool-cases (a v && df v y)) [
  | inl q ↦ (v, has_self v bs, ground (arith, q), ground (arith, q))
  | inr q ↦
      let (x, i, j, k) = merged_from bs df a y (ground (arith, h, q)) in
      (x, has_tail x v bs i, j, k)
]

merged_of :
    (bs : List Block) (df : Frontier) (a : Visited) (x y : Block)
    → has x bs ≡ true
    → a x ≡ true
    → df x y ≡ true
    → merged bs df a y ≡ true
unfolding merged has
merged_of [] df a x y i j k = cc
merged_of (v ∷ bs) df a x y i j k = elim (Bool-cases (x == v)) [
  | inl q ↦ let e = (==_iff x v).0 q in ground (arith, ap a e, j, ap (λ (z : Block). df z y) e, k)
  | inr q ↦ ground (arith, merged_of bs df a x y (ground (arith, i, q)) j k)
]

closed-Iterated :
    (bs : List Block) (df : Frontier) (subset a : Visited)
    → Have a (Iterated bs df subset)
    → Have (merged bs df (joined a subset)) (Iterated bs df subset)
unfolding joined
closed-Iterated bs df subset a k y h =
    let (x, i, j, d) = merged_from bs df (joined a subset) y h in
    elim (Bool-cases (subset x)) [
      | inl q ↦ first x y i q d
      | inr q ↦ again x y i (k x (ground (arith, j, q))) d
    ]

Iterated-in :
    (bs : List Block) (df : Frontier) (subset r : Visited)
    → IsFrontier bs df subset r
    → (y : Block) → Iterated bs df subset y
    → has y bs ≡ true
    → r y ≡ true
unfolding joined
Iterated-in bs df subset r fr y (first x _ i s d) in_graph =
    fr y in_graph ∙ merged_of bs df (joined r subset) x y i (ground (arith, s)) d
Iterated-in bs df subset r fr y (again x _ i p d) in_graph =
    let there = Iterated-in bs df subset r fr x p i in
    fr y in_graph ∙ merged_of bs df (joined r subset) x y i (ground (arith, there)) d

-- With one round more than there are blocks the loop ends. What it gives holds a block of the graph
-- exactly when the block is in the frontier of a block of the subset, or in that of a block that is
-- itself reached so, over any number of frontiers.
pub frontier_for_subset_lem :
    (bs : List Block) (df : Frontier) (subset : Visited) (f : ℕ)
    → length bs < f
    → (r : Visited) × (get_dominance_frontier_for_subset bs df subset f ≡ some r)
      × ((y : Block) → has y bs ≡ true → (r y ≡ true) ↔ Iterated bs df subset y)
unfolding get_dominance_frontier_for_subset
frontier_for_subset_lem bs df subset f enough =
    let closed = closed-Iterated bs df subset in
    let start : Have (merged bs df subset) (Iterated bs df subset) =
      λ y h. (let (x, i, j, d) = merged_from bs df subset y h in first x y i j d) in
    let (r, e, fr, inside) =
      loop_lem bs df subset (Iterated bs df subset) f nothing (merged bs df subset) closed
        (λ x h. absurd (nothing_lem x h)) (λ x h. absurd (nothing_lem x h)) start
        (λ x h.
          merged_mono bs df subset (joined (merged bs df subset) subset)
            (λ y j. joined_left (merged bs df subset) subset y) x h)
        (omega (arith, enough, unmarked-le nothing bs)) in
    (r, e, λ y i. (λ h. inside y h, λ it. Iterated-in bs df subset r fr y it i))
