-- ===== src/LinkedList/Clear.antt =====
-- `clear`, which the destructor and the move assignment call too.
use zettelkasten_public_subs.Common.{
  ℕ, zero, suc, ◌≡◌, refl, sym, ap, ◌∙◌, ◌⊎◌, inl, inr, true, false, none, [], ◌∷◌, ◌++◌, arith,
  ltb, lt→ltb, Bool-cases, length, ℤ,
}
use zettelkasten_public_subs.LinkedList.{Handle, IsList, SameOutside, pop_back, clear_loop, clear}
use zettelkasten_public_subs.LinkedList.Owned.{has-append_left}
use zettelkasten_public_subs.LinkedList.Chains.{Cells, has, focus, has-append, length-snoc}
use zettelkasten_public_subs.LinkedList.Nodes.{
  Ptr, null, Memory, at, Returns, Returns-bind, Returns-mono,
}
use zettelkasten_public_subs.LinkedList.Pop.{Drops, pop_back_lem}

-- Every node of `xs` was given back, and the memory outside `xs` is as it was.
pub record Frees (xs : Cells) (h g : Memory) : Type 0 where
  pub freed : (b : Ptr) → has b xs ≡ true → at g b ≡ none
  pub same : SameOutside xs h g

-- A list is empty or has a last node.
pub unsnoc :
    (xs : Cells) → (xs ≡ []) ⊎ ((ys : Cells) × (t : Ptr) × (v : ℤ) × (xs ≡ ys ++ (t, v) ∷ []))
unsnoc [] = inl refl
unsnoc ((p, v) ∷ xs) = elim (unsnoc xs) [
  | inl e ↦ inr ([], p, v, rw e)
  | inr (ys, t, w, e) ↦ inr ((p, v) ∷ ys, t, w, rw e)
]

Frees-snoc :
    (ys : Cells) (t : Ptr) (v : ℤ) (h g k : Memory)
    → has t ys ≡ false
    → at g t ≡ none
    → SameOutside (ys ++ (t, v) ∷ []) h g
    → Frees ys g k
    → Frees (ys ++ (t, v) ∷ []) h k
Frees-snoc ys t v h g k out gone same f = record {
  freed = λ b member. elim (Bool-cases (has b ys)) [
    | inl old ↦ f.freed b old
    | inr new ↦
        let e : b ≡ t = ground (arith, has-append b ys ((t, v) ∷ [])) in
        f.same b new ∙ ap (at g) e ∙ gone
  ];
  same = λ b other. f.same b (has-append_left b ys ((t, v) ∷ []) other) ∙ same b other;
}

clear_loop-Frees :
    (k : ℕ) (h : Memory) (xs : Cells) (l : Handle)
    → IsList h l xs
    → k ≡ length xs
    → Returns (λ l' g. IsList g l' [] × Frees xs h g) (clear_loop k l h)
unfolding clear_loop
clear_loop-Frees zero h [] l is e =
    rw is.object
      (record { chain = tt; object = refl }, record { freed = λ b m. cc; same = λ b o. refl })
clear_loop-Frees zero h (x ∷ xs) l is e = absurd (omega arith)
clear_loop-Frees (suc k) h xs l is e = elim (unsnoc xs) [
  | inl nil ↦ absurd (omega (arith, ap length nil))
  | inr (ys, t, v, snoc) ↦
      let is' : IsList h l (ys ++ (t, v) ∷ []) = rw snoc at is in
      let long : l.length_ ≡ suc k = ap (λ r. r.length_) is.object ∙ sym e in
      let more : ltb 0 l.length_ ≡ true = lt→ltb 0 l.length_ (omega arith) in
      rw (more, snoc)
        (Returns-bind (Drops (ys ++ (t, v) ∷ []) ys t h) _ (pop_back l h) (clear_loop k)
          (pop_back_lem h l ys t v is')
          (λ l' g (popped, gone, same).
            Returns-mono (λ l'' k'. IsList k' l'' [] × Frees ys g k') _ (clear_loop k l' g)
              (λ l'' k' (cleared, f). (
                cleared,
                Frees-snoc ys t v h g k' (focus h null ys t v [] null is'.chain).not_before gone
                    same f,
              ))
              (clear_loop-Frees k g ys l' popped
                (omega (arith, ap length snoc, length-snoc ys (t, v))))))
]

-- `clear` leaves an empty list, gives back every node of the list, once each, and touches no other
-- memory.
pub clear_lem :
    (h : Memory) (l : Handle) (xs : Cells)
    → IsList h l xs
    → Returns (λ l' g. IsList g l' [] × Frees xs h g) (clear l h)
unfolding clear
clear_lem h l xs is = clear_loop-Frees l.length_ h xs l is (ap (λ r. r.length_) is.object)
