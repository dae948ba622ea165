-- ===== src/Cfg/Links.antt =====
-- `AddLink` keeps the two directions of the links alike.
use zettelkasten_public_subs.Common.{
  ℕ, ◌+◌, ◌≤◌, ◌≡◌, refl, ap, inl, inr, true, false, List, [], ◌∷◌, ◌++◌, ◌==◌, if◌then◌else◌, ◌||◌,
  arith, Bool-cases, ==_iff,
}
use zettelkasten_public_subs.Cfg.{Block, has, Cfg}
use zettelkasten_public_subs.Cfg.{add_link, push_new, write_at}

-- A block is a successor exactly when the other is its predecessor, and no link stands twice.
abbrev occurs : Block → List Block → ℕ
occurs b [] = 0
occurs b (x ∷ xs) = (if b == x then 1 else 0) + occurs b xs

pub record IsLinked (g : Cfg) : Type 0 where
  pub mirror : (b c : Block) → has c (g.succs b) ≡ has b (g.preds c)
  pub succs_once : (b c : Block) → occurs c (g.succs b) ≤ 1
  pub preds_once : (b c : Block) → occurs c (g.preds b) ≤ 1

pub has-append_last : (x b : Block) (xs : List Block) → has x (xs ++ b ∷ []) ≡ (has x xs || x == b)
unfolding has
has-append_last x b [] = ground arith
has-append_last x b (y ∷ xs) = ground (arith, has-append_last x b xs)

kept : (x b : Block) (xs : List Block) → has b xs ≡ true → has x xs ≡ (has x xs || x == b)
kept x b xs h = elim (Bool-cases (x == b)) [
  | inr q ↦ ground (arith, q)
  | inl q ↦ ground (arith, h, ap (λ (z : Block). has z xs) ((==_iff x b).0 q))
]

pub has-push_new : (x b : Block) (xs : List Block) → has x (push_new b xs) ≡ (has x xs || x == b)
unfolding push_new
has-push_new x b xs = elim (Bool-cases (has b xs)) [
  | inr h ↦ rw (h, push_new) (has-append_last x b xs)
  | inl h ↦ rw (h, push_new) (kept x b xs h)
]

occurs-append_last :
    (x b : Block) (xs : List Block)
    → occurs x (xs ++ b ∷ []) ≡ occurs x xs + (if x == b then 1 else 0)
occurs-append_last x b [] = omega arith
occurs-append_last x b (y ∷ xs) = omega (arith, occurs-append_last x b xs)

occurs_none : (b : Block) (xs : List Block) → has b xs ≡ false → occurs b xs ≡ 0
unfolding has
occurs_none b [] h = refl
occurs_none b (x ∷ xs) h = ground (arith, h, occurs_none b xs)

one_more :
    (x b : Block) (xs : List Block)
    → occurs x xs ≤ 1
    → has b xs ≡ false
    → occurs x (xs ++ b ∷ []) ≤ 1
one_more x b xs h k = elim (Bool-cases (x == b)) [
  | inr q ↦ ground (arith, h, q, occurs-append_last x b xs)
  | inl q ↦
      let e = (==_iff x b).0 q in
      ground
        (arith, q, occurs-append_last x b xs, occurs_none b xs k, ap (λ (z : Block). occurs z xs) e)
]

occurs-push_new : (x b : Block) (xs : List Block) → occurs x xs ≤ 1 → occurs x (push_new b xs) ≤ 1
unfolding push_new
occurs-push_new x b xs h = elim (Bool-cases (has b xs)) [
  | inl k ↦ rw (k, push_new) h
  | inr k ↦ rw (k, push_new) (one_more x b xs h k)
]

-- `AddLink` keeps every link one in both directions, and none of them stands twice.
pub add_link-IsLinked : (pred succ : Block) (g : Cfg) → IsLinked g → IsLinked (add_link pred succ g)
unfolding add_link write_at
add_link-IsLinked pred succ g k = record {
  mirror = λ b c.
      ground (
        arith,
        k.mirror b c,
        has-push_new c succ (g.succs pred),
        has-push_new b pred (g.preds succ),
      );
  succs_once = λ b c.
      ground (arith, k.succs_once b c, occurs-push_new c succ (g.succs pred), k.succs_once pred c);
  preds_once = λ b c.
      ground (arith, k.preds_once b c, occurs-push_new c pred (g.preds succ), k.preds_once succ c);
}
