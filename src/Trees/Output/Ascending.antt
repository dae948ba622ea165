-- ===== src/Trees/Output/Ascending.antt =====
-- On a search tree every walk prints in strictly ascending order.
use zettelkasten_public_subs.Common.{
  Bool, true, false, List, [], ◌∷◌, ◌++◌, arith, ℤ, ◌<ℤ◌, if◌then◌else◌, if_elim,
}
use zettelkasten_public_subs.Trees.{Tree, null, node}
use zettelkasten_public_subs.Trees.Order.{AllNodes, IsSearch}

abbrev pub All : (ℤ → Type 0) → List ℤ → Type 0
All P [] = Unit
All P (x ∷ xs) = P x × All P xs

-- Each value is smaller than all that come after it.
abbrev pub IsAscending : List ℤ → Type 0
IsAscending [] = Unit
IsAscending (x ∷ xs) = All (λ y. x <ℤ y) xs × IsAscending xs

All-append : (P : ℤ → Type 0) (xs ys : List ℤ) → All P xs → All P ys → All P (xs ++ ys)
All-append P [] ys hx hy = hy
All-append P (x ∷ xs) ys hx hy = (hx.0, All-append P xs ys hx.1 hy)

All-mono : (P Q : ℤ → Type 0) (xs : List ℤ) → ((x : ℤ) → P x → Q x) → All P xs → All Q xs
All-mono P Q [] f h = tt
All-mono P Q (x ∷ xs) f h = (f x h.0, All-mono P Q xs f h.1)

-- Two ascending lists about a middle value, which is printed or not.
IsAscending-append :
    (v : ℤ) (xs ys : List ℤ)
    → All (λ x. x <ℤ v) xs
    → All (λ y. v <ℤ y) ys
    → IsAscending xs
    → IsAscending ys
    → IsAscending (xs ++ ys)
IsAscending-append v [] ys a b p q = q
IsAscending-append v (x ∷ xs) ys a b p q = (
  All-append _ xs ys p.0 (All-mono _ _ ys (λ y h. omega arith) b),
  IsAscending-append v xs ys a.1 b p.1 q,
)

IsAscending-around :
    (v : ℤ) (shown : Bool) (xs ys : List ℤ)
    → All (λ x. x <ℤ v) xs
    → All (λ y. v <ℤ y) ys
    → IsAscending xs
    → IsAscending ys
    → IsAscending (xs ++ ((if shown then v ∷ [] else []) ++ ys))
IsAscending-around v false xs ys a b p q = IsAscending-append v xs ys a b p q
IsAscending-around v true [] ys a b p q = (b, q)
IsAscending-around v true (x ∷ xs) ys a b p q = (
  All-append _ xs (v ∷ ys) p.0 (a.0, All-mono _ _ ys (λ y h. omega arith) b),
  IsAscending-around v true xs ys a.1 b p.1 q,
)

module _ (show : Tree → Bool) where
  -- A walk that prints the nodes which a test picks.
  unfoldable pub picked : Tree → List ℤ
  picked null = []
  picked (node v l r) = picked l ++ ((if show (node v l r) then v ∷ [] else []) ++ picked r)

  All-picked : (P : ℤ → Type 0) (t : Tree) → AllNodes P t → All P (picked t)
  unfolding picked
  All-picked P null h = tt
  All-picked P (node v l r) (here, left, right) = All-append P (picked l) _ (All-picked P l left) (
      All-append P (if show (node v l r) then v ∷ [] else []) (picked r)
        (if_elim (All P) (show (node v l r)) (here, tt) tt) (All-picked P r right))

  pub picked-IsAscending : (t : Tree) → IsSearch t → IsAscending (picked t)
  unfolding picked
  picked-IsAscending null h = tt
  picked-IsAscending (node v l r) h =
      IsAscending-around v (show (node v l r)) (picked l) (picked r) (All-picked _ l h.0)
        (All-picked _ r h.1) (picked-IsAscending l h.2) (picked-IsAscending r h.3)
