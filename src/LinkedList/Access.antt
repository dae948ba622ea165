-- ===== src/LinkedList/Access.antt =====
-- What `compare`, `front` and `back` read of a list.
use zettelkasten_public_subs.Common.{
  ◌+◌, ◌-◌, ◌%◌, ◌^◌, ◌<◌, ◌≡◌, refl, sym, ap, ◌∙◌, subst, ◌↔◌, inl, inr, Bool, true, false, List,
  [], ◌∷◌, ◌++◌, arith, ◌==◌, if◌then◌else◌, Bool-cases, ==_false, length, ℤ, eqb_ℤ, eqb_ℤ_iff,
}
use zettelkasten_public_subs.LinkedList.{Handle, IsList, end_of, advance, front, back, size}
use zettelkasten_public_subs.LinkedList.Owned.{end_of_lem}
use zettelkasten_public_subs.LinkedList.Chains.{
  Cells, first, last, Chain, Focus, focus, length-snoc,
}
use zettelkasten_public_subs.LinkedList.Nodes.{
  Ptr, null, list_node, Memory, Cmd, ◌>>=◌, pure, ok, load, load_lem,
}
use zettelkasten_public_subs.LinkedList.Selection.{values}

-- `compare`; the other range is the list of its values.
unfoldable pub compare_from : Handle → Ptr → List ℤ → Cmd Bool
compare_from l it [] = do e ← end_of l; pure (it == e)
compare_from l it (y ∷ ys) = do
  e ← end_of l
  if it == e
      then pure false
      else do n ← load it; if eqb_ℤ n.value y then compare_from l n.next ys else pure false

-- `operator==`; `operator!=` is its negation.
unfoldable pub compare : Handle → List ℤ → Cmd Bool
compare l ys = compare_from l l.head ys

abbrev pub same_values : List ℤ → List ℤ → Bool
same_values [] [] = true
same_values [] (y ∷ ys) = false
same_values (x ∷ xs) [] = false
same_values (x ∷ xs) (y ∷ ys) = if eqb_ℤ x y then same_values xs ys else false

same_values_iff : (xs ys : List ℤ) → same_values xs ys ≡ true ↔ (xs ≡ ys)
same_values_iff [] [] = (λ e. refl, λ e. refl)
same_values_iff [] (y ∷ ys) = (λ e. cc, λ e. cc)
same_values_iff (x ∷ xs) [] = (λ e. cc, λ e. cc)
same_values_iff (x ∷ xs) (y ∷ ys) = ground (arith, eqb_ℤ_iff x y, same_values_iff xs ys)

module _ (h : Memory) (l : Handle) where
  compare_from_lem :
      (before : Ptr) (xs : Cells) (ys : List ℤ)
      → end_of l h ≡ ok null h
      → Chain h before xs null
      → compare_from l (first xs null) ys h ≡ ok (same_values (values xs) ys) h
  unfolding compare_from
  compare_from_lem before [] [] e c = rw e
  compare_from_lem before [] (y ∷ ys) e c = rw e
  compare_from_lem before ((p, v) ∷ xs) [] e c = rw (e, ==_false p null c.0)
  compare_from_lem before ((p, v) ∷ xs) (y ∷ ys) e c =
      rw (e, ==_false p null c.0, load_lem h p (list_node v before (first xs null)) c.0 c.1)
        (elim (Bool-cases (eqb_ℤ v y)) [
          | inl same ↦ rw same (compare_from_lem p xs ys e c.3)
          | inr other ↦ rw other
        ])

  -- `compare` reads only the list, and answers whether its values are those of the range, in order.
  pub compare_lem :
      (xs : Cells) (ys : List ℤ)
      → IsList h l xs
      → (b : Bool) × (compare l ys h ≡ ok b h) × ((b ≡ true) ↔ (values xs ≡ ys))
  unfolding compare
  compare_lem xs ys is = (
    same_values (values xs) ys,
    subst (λ start. compare_from l start ys h ≡ ok (same_values (values xs) ys) h)
        (sym (ap (λ r. r.head) is.object))
        (compare_from_lem null xs ys (end_of_lem h l xs is) is.chain),
    same_values_iff (values xs) ys,
  )

advance_lem :
    (h : Memory) (before : Ptr) (xs : Cells) (p : Ptr) (v : ℤ) (zs : Cells)
    → Chain h before (xs ++ (p, v) ∷ zs) null
    → advance (length xs) (first (xs ++ (p, v) ∷ zs) null) h ≡ ok p h
unfolding advance
advance_lem h before [] p v zs c = refl
advance_lem h before ((q, w) ∷ xs) p v zs c =
    rw
      (
        ==_false q null c.0,
        load_lem h q (list_node w before (first (xs ++ (p, v) ∷ zs) null)) c.0 c.1,
      )
      (advance_lem h q xs p v zs c.3)

-- On a list of one node or more `front` reads the first value and `back` the last, if the length is
-- less than 2 ^ 64.
pub ends_lem :
    (h : Memory) (l : Handle) (x : Ptr × ℤ) (ws xs : Cells) (p : Ptr) (v : ℤ)
    → IsList h l (x ∷ ws)
    → x ∷ ws ≡ xs ++ (p, v) ∷ []
    → length (x ∷ ws) < 2 ^ 64
    → (front l h ≡ ok x.1 h) × (back l h ≡ ok v h)
unfolding front back size
ends_lem h l x ws xs p v is e short = (
  rw (
    ap (λ r. r.head) is.object,
    load_lem h x.0 (list_node x.1 null (first ws null)) is.chain.0 is.chain.1,
  ),
  rw (
    offset,
    start,
    advance_lem h null xs p v [] c,
    load_lem h p (list_node v (last null xs) null) f.not_null f.holds,
  ),
)
  where
    c : Chain h null (xs ++ (p, v) ∷ []) null
    c = subst (λ cs. Chain h null cs null) e is.chain

    f : Focus h null xs p v [] null
    f = focus h null xs p v [] null c

    offset : (l.length_ + 2 ^ 64 - 1) % 2 ^ 64 ≡ length xs
    offset = omega (arith, ap (λ r. r.length_) is.object, ap length e, length-snoc xs (p, v))

    start : l.head ≡ first (xs ++ (p, v) ∷ []) null
    start = ap (λ r. r.head) is.object ∙ ap (λ cs. first cs null) e
