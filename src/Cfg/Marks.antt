-- ===== src/Cfg/Marks.antt =====
-- How many blocks are not marked.
use zettelkasten_public_subs.Common.{
  ℕ, ◌+◌, ◌≤◌, ◌<◌, ◌≡◌, ap, ◌⊎◌, inl, inr, true, false, List, [], ◌∷◌, ◌==◌, if◌then◌else◌, length,
  arith, Bool-cases, ==_iff,
}
use zettelkasten_public_subs.Cfg.{Block, Visited, has, mark}

unfoldable pub unmarked : Visited → List Block → ℕ
unmarked v [] = 0
unmarked v (x ∷ xs) = (if v x then 0 else 1) + unmarked v xs

pub unmarked_mono :
    (v w : Visited) (xs : List Block)
    → ((x : Block) → v x ≡ true → w x ≡ true)
    → unmarked w xs ≤ unmarked v xs
unfolding unmarked
unmarked_mono v w [] k = omega arith
unmarked_mono v w (x ∷ xs) k = ground (arith, unmarked_mono v w xs k, k x)

-- A block of the list is marked that was not.
pub unmarked-mark :
    (v w : Visited) (b : Block) (xs : List Block)
    → ((x : Block) → v x ≡ true → w x ≡ true)
    → v b ≡ false
    → w b ≡ true
    → has b xs ≡ true
    → unmarked w xs < unmarked v xs
unfolding unmarked has
unmarked-mark v w b [] k h e i = cc
unmarked-mark v w b (x ∷ xs) k h e i = elim (Bool-cases (b == x)) [
  | inl q ↦
      let same = (==_iff b x).0 q in ground (arith, unmarked_mono v w xs k, ap v same, ap w same)
  | inr q ↦ ground (arith, unmarked-mark v w b xs k h e, k x)
]

pub unmarked-le : (v : Visited) (xs : List Block) → unmarked v xs ≤ length xs
unfolding unmarked
unmarked-le v [] = omega arith
unmarked-le v (x ∷ xs) = ground (arith, unmarked-le v xs)

pub mark_self : (b : Block) (v : Visited) → mark b v b ≡ true
unfolding mark
mark_self b v = ground arith

pub mark_grows : (b : Block) (v : Visited) (x : Block) → v x ≡ true → mark b v x ≡ true
unfolding mark
mark_grows b v x h = ground arith

pub mark_new : (b : Block) (v : Visited) (x : Block) → mark b v x ≡ true → v x ≡ false → x ≡ b
unfolding mark
mark_new b v x h e = ground arith

pub has_self : (b : Block) (xs : List Block) → has b (b ∷ xs) ≡ true
unfolding has
has_self b xs = ground arith

pub has_tail : (b x : Block) (xs : List Block) → has b xs ≡ true → has b (x ∷ xs) ≡ true
unfolding has
has_tail b x xs h = ground arith

pub has_cases :
    (b x : Block) (xs : List Block) → has b (x ∷ xs) ≡ true → (b ≡ x) ⊎ (has b xs ≡ true)
unfolding has
has_cases b x xs h = ground arith
