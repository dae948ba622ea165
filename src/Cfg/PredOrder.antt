-- ===== src/Cfg/PredOrder.antt =====
-- In the first order every block stands behind the blocks of a path to it.
use zettelkasten_public_subs.Common.{
  ℕ, zero, suc, ◌≡◌, refl, sym, ap, ◌∙◌, subst, ◌≢◌, ◌⊎◌, inl, inr, Bool, true, false, List, [],
  ◌∷◌, ◌++◌, ◌==◌, not, arith, Bool-cases, ==_iff,
}
use zettelkasten_public_subs.Cfg.{
  Block, Visited, has, Cfg, mark, nothing, visit, walk, Order, seen_in, push_marked, unchanged,
  pred_order_dfs, front, fuel, no_order, compute_pred_order,
}
use zettelkasten_public_subs.Cfg.Paths.{Walkway, here, step, Walkway-weaken}
use zettelkasten_public_subs.Cfg.Marks.{has_self, has_tail}
use zettelkasten_public_subs.Cfg.Orders.{Extends, Extends-both, Extends-same}
use mathlib.Core.List.{append_assoc}

abbrev pub outside : List Block → Visited
outside xs x = not (has x xs)

outside-append :
    (xs ys : List Block) (x : Block) → outside xs x ≡ false → outside (xs ++ ys) x ≡ false
unfolding has
outside-append [] ys x h = cc
outside-append (y ∷ xs) ys x h = ground (arith, outside-append xs ys x)

outside_last : (xs : List Block) (x : Block) → outside (xs ++ x ∷ []) x ≡ false
unfolding has
outside_last [] x = ground arith
outside_last (y ∷ xs) x = ground (arith, outside_last xs x)

pub Walkway-snoc :
    {g : Cfg} {v : Visited} {b d : Block} (c : Block)
    → Walkway g v b d
    → v c ≡ false
    → has c (g.succs d) ≡ true
    → Walkway g v b c
Walkway-snoc c (here b h) k e = step b c h e (here c k)
Walkway-snoc c (step b x h i p) k e = step b x h i (Walkway-snoc c p k e)

-- A block of a list splits it.
pub has-split :
    (x : Block) (l : List Block)
    → has x l ≡ true
    → (xs : List Block) × (ys : List Block) × (l ≡ xs ++ x ∷ ys)
unfolding has
has-split x [] h = cc
has-split x (y ∷ l) h = elim (Bool-cases (x == y)) [
  | inl e ↦ ([], l, ap (λ (z : Block). z ∷ l) (sym ((==_iff x y).0 e)))
  | inr e ↦ let (xs, ys, k) = has-split x l (ground (arith, e)) in (y ∷ xs, ys, ap (λ m. y ∷ m) k)
]

cons_head : (x y : Block) (xs ys : List Block) → x ∷ xs ≡ y ∷ ys → x ≡ y
cons_head x y xs ys h = ground (arith, h)

cons_tail : (x y : Block) (xs ys : List Block) → x ∷ xs ≡ y ∷ ys → xs ≡ ys
cons_tail x y xs ys h = ground (arith, h)

pub no_cons : (xs : List Block) (e : Block) (ys : List Block) → [] ≢ xs ++ e ∷ ys
no_cons [] e ys h = cc
no_cons (x ∷ xs) e ys h = cc

-- A split of a list with one more block at its end.
pub split-last :
    (l : List Block) (b : Block) (xs : List Block) (e : Block) (ys : List Block)
    → l ++ b ∷ [] ≡ xs ++ e ∷ ys
    → ((e ≡ b) × (xs ≡ l)) ⊎ ((zs : List Block) × (l ≡ xs ++ e ∷ zs))
split-last [] b [] e ys h = inl (sym (cons_head b e [] ys h), refl)
split-last [] b (x ∷ xs) e ys h = absurd (no_cons xs e ys (cons_tail b x [] (xs ++ e ∷ ys) h))
split-last (y ∷ l) b [] e ys h =
    inr (l, ap (λ (z : Block). z ∷ l) (cons_head y e (l ++ b ∷ []) ys h))
split-last (y ∷ l) b (x ∷ xs) e ys h =
    let head = cons_head y x (l ++ b ∷ []) (xs ++ e ∷ ys) h in
    elim (split-last l b xs e ys (cons_tail y x (l ++ b ∷ []) (xs ++ e ∷ ys) h)) [
      | inl (p, q) ↦ inl (p, ap (λ m. x ∷ m) q ∙ ap (λ (z : Block). z ∷ l) (sym head))
      | inr (zs, q) ↦ inr (zs, ap (λ (z : Block). z ∷ l) head ∙ ap (λ m. x ∷ m) q)
    ]

has-append : (b : Block) (xs ys : List Block) → has b xs ≡ true → has b (xs ++ ys) ≡ true
unfolding has
has-append b [] ys h = cc
has-append b (x ∷ xs) ys h = ground (arith, has-append b xs ys)

pushed_has : (b : Block) (s : Order) → has b (push_marked b s).order ≡ true
unfolding push_marked
pushed_has b s = ground (arith, outside_last s.order b)

Extends-push : (b : Block) (s t : Order) → Extends (push_marked b s) t → Extends s t
unfolding Extends push_marked
Extends-push b s t (ys, e) = (b ∷ ys, e ∙ append_assoc s.order (b ∷ []) ys)

has_other :
    (d e : Block) (xs : List Block) → e ≢ d → has d xs ≡ false → has d (xs ++ e ∷ []) ≡ false
unfolding has
has_other d e [] ne m = ground arith
has_other d e (y ∷ xs) ne m = ground (arith, has_other d e xs ne)

outside_other :
    (d e : Block) (xs : List Block)
    → e ≢ d
    → has d xs ≡ false
    → (x : Block) → outside (xs ++ e ∷ []) x ≡ false
    → mark d nothing x ≡ false
unfolding mark nothing
outside_other d e xs ne m x h = elim (Bool-cases (x == d)) [
  | inr n ↦ ground (arith, n)
  | inl q ↦
      let same = (==_iff x d).0 q in
      absurd (ground (arith, has_other d e xs ne m, ap (λ (z : Block). has z (xs ++ e ∷ [])) same))
]

module _ (g : Cfg) (root : Block) where
  -- Each block of the order has a path from the root through blocks that stand before it.
  IsRooted : Order → Type 0
  IsRooted s =
      (xs : List Block) (e : Block) (ys : List Block)
      → s.order ≡ xs ++ e ∷ ys
      → Walkway g (outside (xs ++ e ∷ [])) root e

  IsRooted-push :
      (b : Block) (s : Order)
      → IsRooted s
      → Walkway g (outside (s.order ++ b ∷ [])) root b
      → IsRooted (push_marked b s)
  unfolding IsRooted push_marked
  IsRooted-push b s r p xs e ys h = elim (split-last s.order b xs e ys h) [
    | inl (q, k) ↦
        subst (λ (z : Block). Walkway g (outside (xs ++ z ∷ [])) root z) (sym q)
          (subst (λ l. Walkway g (outside (l ++ b ∷ [])) root b) (sym k) p)
    | inr (zs, k) ↦ r xs e zs k
  ]

  -- A successor of a block of the order has such a path too.
  rooted_next :
      (b c : Block) (s : Order)
      → IsRooted s
      → has b s.order ≡ true
      → has c (g.succs b) ≡ true
      → Walkway g (outside (s.order ++ c ∷ [])) root c
  unfolding IsRooted
  rooted_next b c s r h e =
      let (xs, ys, k) = has-split b s.order h in
      Walkway-snoc c
        (Walkway-weaken
          (λ x i. outside-append s.order (c ∷ []) x (
            subst (λ l. outside l x ≡ false) (append_assoc xs (b ∷ []) ys ∙ sym k)
              (outside-append (xs ++ b ∷ []) ys x i)))
          (r xs b ys k))
        (outside_last s.order c) e

  has-Extends :
      (b : Block) (s t : Order) → Extends s t → has b s.order ≡ true → has b t.order ≡ true
  unfolding Extends
  has-Extends b s t (ys, e) h = ap (has b) e ∙ has-append b s.order ys h

  -- What a walk keeps, given how the walk into a successor does.
  abbrev Keeps : (Block → Order → Order) → Type 0
  Keeps go =
      (b : Block) (s : Order)
      → IsRooted s
      → Walkway g (outside (s.order ++ b ∷ [])) root b
      → IsRooted (go b s) × Extends s (go b s)

  visit-Keeps :
      (go : Block → Order → Order)
      → Keeps go
      → (b : Block) (cs : List Block) → ((c : Block) → has c cs ≡ true → has c (g.succs b) ≡ true)
      → (s : Order) → IsRooted s
      → has b s.order ≡ true
      → IsRooted (visit seen_in go cs s) × Extends s (visit seen_in go cs s)
  unfolding visit
  visit-Keeps go keeps b [] inside s r h = (r, Extends-same s)
  visit-Keeps go keeps b (c ∷ cs) inside s r h =
      let (r', e) = one (seen_in s c) in
      let next : Order = elim (seen_in s c) [ true ↦ s | false ↦ go c s ] in
      let (r'', e') =
        visit-Keeps go keeps b cs (λ x k. inside x (has_tail x c cs k)) next r'
          (has-Extends b s next e h) in
      (r'', Extends-both s next (visit seen_in go cs next) e e')
    where
      one :
          (m : Bool)
          → IsRooted (elim m [ true ↦ s | false ↦ go c s ])
            × Extends s (elim m [ true ↦ s | false ↦ go c s ])
      one true = (r, Extends-same s)
      one false = keeps c s r (rooted_next b c s r h (inside c (has_self c cs)))

  walk-Keeps : (f : ℕ) → Keeps (walk seen_in push_marked unchanged g f)
  unfolding walk unchanged
  walk-Keeps zero b s r p = (r, Extends-same s)
  walk-Keeps (suc f) b s r p =
      let s' = push_marked b s in
      let (r', e) =
        visit-Keeps (walk seen_in push_marked unchanged g f) (walk-Keeps f) b (g.succs b) (λ c k. k)
          s' (IsRooted-push b s r p) (pushed_has b s) in
      (r', Extends-push b s _ e)

  -- The blocks before one that `d` dominates hold `d`.
  rooted_before :
      (s : Order) (d e : Block) (xs ys : List Block)
      → IsRooted s
      → s.order ≡ xs ++ e ∷ ys
      → e ≢ d
      → ¬ Walkway g (mark d nothing) root e
      → has d xs ≡ true
  unfolding IsRooted
  rooted_before s d e xs ys r h ne blocks = elim (Bool-cases (has d xs)) [
    | inl m ↦ m
    | inr m ↦ absurd (blocks (Walkway-weaken (outside_other d e xs ne m) (r xs e ys h)))
  ]

-- A dominator stands before what it dominates.
pub dominator_first :
    (g : Cfg) (b d e : Block) (xs ys : List Block)
    → front g.basic_blocks ≡ b
    → compute_pred_order g ≡ xs ++ e ∷ ys
    → e ≢ d
    → ¬ Walkway g (mark d nothing) b e
    → has d xs ≡ true
unfolding compute_pred_order pred_order_dfs IsRooted
dominator_first g b d e xs ys first h ne blocks =
    let s = walk seen_in push_marked unchanged g (fuel g) (front g.basic_blocks) no_order in
    let (r, ext) =
      walk-Keeps g b (fuel g) (front g.basic_blocks) no_order
        (λ us c vs k. absurd (no_cons us c vs k))
        (subst (λ (z : Block). Walkway g (outside (z ∷ [])) b z) (sym first)
          (here b (outside_last [] b))) in
    rooted_before g b s d e xs ys r h ne blocks
