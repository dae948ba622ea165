-- ===== src/Trees/Second.antt =====
-- `second_largest_element` of second_tree_maximum.cpp: a walk from the right that counts nodes in
-- `value` and stores the second one in `m_second_max`.
use mathlib.Core.Option
use mathlib.Core.List.{append_assoc}
use zettelkasten_public_subs.Common.{
  ℕ, suc, ◌+◌, ◌≤◌, ◌<◌, ◌≡◌, refl, ap, ◌⊎◌, inl, inr, Option, some, List, [], ◌∷◌, ◌++◌, arith,
  leb, ◌==◌, if◌then◌else◌, length, length-append, ℤ, pos,
}
use zettelkasten_public_subs.Trees.{Tree, null, node, read_tree}
use zettelkasten_public_subs.Trees.Output.{print_all}

-- The counter that the calls share by reference, and the member that they write.
pub record Scan : Type 0 where
  pub value : ℕ
  pub second_max : ℤ

abbrev pub scan : ℕ → ℤ → Scan
scan n m = record { value = n; second_max = m }

unfoldable pub second_from : Tree → Scan → Scan
second_from null s = s
second_from (node v l r) s =
    let s' = second_from r s in
    let go_on = second_from l (scan (s'.value + 1) s'.second_max) in
    if leb 2 s.value then s else if (s'.value + 1) == 2 then scan (s'.value + 1) v else go_on

-- `m_second_max` starts as 0.
unfoldable pub second_largest_element : Tree → ℤ
second_largest_element t = (second_from t (scan 0 (pos 0))).second_max

unfoldable pub second_tree_maximum_main : List ℤ → Option ℤ
second_tree_maximum_main input = Option.map second_largest_element (read_tree null input)

-- The scan is over, with `w` stored.
Stores : ℤ → Scan → Type 0
Stores w s = (k : ℕ) × (s ≡ scan (suc (suc k)) w)

-- After a scan that had counted one node, over a tree that prints `out`.
AfterOne : ℤ → List ℤ → Scan → Type 0
AfterOne m out s =
    ((out ≡ []) × (s ≡ scan 1 m))
    ⊎ ((rest : List ℤ) × (w : ℤ) × (out ≡ rest ++ w ∷ []) × Stores w s)

-- After a scan that had counted none.
AfterNone : ℤ → List ℤ → Scan → Type 0
AfterNone m out s =
    ((out ≡ []) × (s ≡ scan 0 m))
    ⊎ (((x : ℤ) × (out ≡ x ∷ []) × (s ≡ scan 1 m))
        ⊎ ((rest : List ℤ) × (w : ℤ) × (x : ℤ) × (out ≡ rest ++ w ∷ x ∷ []) × Stores w s))

second_from_done :
    (t : Tree) (k : ℕ) (m : ℤ) → second_from t (scan (suc (suc k)) m) ≡ scan (suc (suc k)) m
unfolding second_from
second_from_done null k m = refl
second_from_done (node v l r) k m = ground arith

second_from-AfterOne : (m : ℤ) (t : Tree) → AfterOne m (print_all t) (second_from t (scan 1 m))
unfolding second_from print_all AfterOne Stores
second_from-AfterOne m null = inl (refl, refl)
second_from-AfterOne m (node v l r) = elim (second_from-AfterOne m r) [
  | inl (empty, e) ↦ inr (print_all l, v, rw empty, (0, ground arith))
  | inr (rest, w, e, (k, stored)) ↦ inr (
    print_all l ++ v ∷ rest,
    w,
    rw (e, append_assoc),
    (suc k, ground (arith, second_from_done l (suc k) w)),
  )
]

second_from-AfterNone : (m : ℤ) (t : Tree) → AfterNone m (print_all t) (second_from t (scan 0 m))
unfolding second_from print_all AfterNone AfterOne Stores
second_from-AfterNone m null = inl (refl, refl)
second_from-AfterNone m (node v l r) = elim (second_from-AfterNone m r) [
  | inl (empty, e) ↦ elim (second_from-AfterOne m l) [
    | inl (empty', e') ↦ inr (inl (v, rw (empty, empty'), ground arith))
    | inr (rest, w, e', (k, stored)) ↦
        inr (inr (rest, w, v, rw (empty, e', append_assoc), (k, ground arith)))
  ]
  | inr (inl (x, single, e)) ↦ inr (inr (print_all l, v, x, rw single, (0, ground arith)))
  | inr (inr (rest, w, x, e, (k, stored))) ↦ inr (
      inr (
        print_all l ++ v ∷ rest,
        w,
        x,
        rw (e, append_assoc),
        (suc k, ground (arith, second_from_done l (suc k) w)),
      ))
]

-- second_tree_maximum.cpp: from the tree `t` that it read the program prints the last but one of
-- the values of `t` in ascending order; it prints 0 where `t` has fewer than two nodes.
pub second_tree_maximum_main_lem :
    (input : List ℤ) (t : Tree)
    → read_tree null input ≡ some t
    → (out : ℤ) × (second_tree_maximum_main input ≡ some out)
      × (length (print_all t) < 2 → out ≡ pos 0)
      × (2 ≤ length (print_all t)
          → (rest : List ℤ) × (largest : ℤ) × (print_all t ≡ rest ++ out ∷ largest ∷ []))
unfolding second_tree_maximum_main second_largest_element AfterNone Stores
second_tree_maximum_main_lem input t got = elim (second_from-AfterNone (pos 0) t) [
  | inl (empty, e) ↦
      (pos 0, rw got (ground arith), λ _. refl, λ h. absurd (omega (arith, ap length empty)))
  | inr (inl (x, single, e)) ↦
      (pos 0, rw got (ground arith), λ _. refl, λ h. absurd (omega (arith, ap length single)))
  | inr (inr (rest, w, x, e, (k, stored))) ↦ (
    w,
    rw got (ground arith),
    λ h. absurd (omega (arith, ap length e, length-append rest (w ∷ x ∷ []))),
    λ h. (rest, x, e),
  )
]
