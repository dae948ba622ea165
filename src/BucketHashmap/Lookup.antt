-- ===== src/BucketHashmap/Lookup.antt =====
-- What a bucket holds for a key, and what the changes to a bucket do to that.
use zettelkasten_public_subs.Common.{
  ℕ, zero, suc, ◌<◌, ◌≡◌, refl, subst, ◌⊎◌, inl, inr, true, false, Option, none, some, List, [],
  ◌∷◌, ◌++◌, arith, ◌==◌, if◌then◌else◌, Bool-cases, Option-cases, suc-==_zero, length, get_elem?,
  set, get_or, ℤ,
}
use zettelkasten_public_subs.BucketHashmap.{Bucket, find_in, remove_at}

abbrev pub lookup_in : ℕ → Bucket → Option ℤ
lookup_in k [] = none
lookup_in k ((j, v) ∷ es) = if j == k then some v else lookup_in k es

-- No key stands twice.
abbrev pub Unique : Bucket → Type 0
Unique [] = Unit
Unique ((j, v) ∷ es) = (lookup_in j es ≡ none) × Unique es

pub get_elem?-get_or :
    {A : Type 0} (xs : List A) (i : ℕ) (d : A)
    → i < length xs
    → get_elem? xs i ≡ some (get_or xs i d)
get_elem?-get_or [] i d h = absurd (omega arith)
get_elem?-get_or (x ∷ xs) zero d h = refl
get_elem?-get_or (x ∷ xs) (suc i) d h = get_elem?-get_or xs i d (omega arith)

pub get_or-set :
    {A : Type 0} (xs : List A) (h i : ℕ) (x d : A)
    → h < length xs
    → get_or (set xs h x) i d ≡ (if i == h then x else get_or xs i d)
get_or-set [] h i x d short = absurd (omega arith)
get_or-set (y ∷ ys) zero zero x d short = refl
get_or-set (y ∷ ys) zero (suc i) x d short = rw suc-==_zero refl
get_or-set (y ∷ ys) (suc h) zero x d short = ground arith
get_or-set (y ∷ ys) (suc h) (suc i) x d short = ground (arith, get_or-set ys h i x d)

pub find_in-none : (k : ℕ) (b : Bucket) → find_in k b ≡ none → lookup_in k b ≡ none
unfolding find_in
find_in-none k [] e = refl
find_in-none k ((j, v) ∷ es) e = elim (Bool-cases (j == k)) [
  | inl same ↦ let f : ◌≡◌ {A = Option ℕ} (some 0) none = rw same at e in cc
  | inr other ↦ elim (Option-cases (find_in k es)) [
    | inl absent ↦ rw other (find_in-none k es absent)
    | inr (i, found) ↦ let f : ◌≡◌ {A = Option ℕ} (some (suc i)) none = rw (other, found) at e in cc
  ]
]

-- The index that was found is that of the first element, or one in the rest.
found_cases :
    (k i j : ℕ) (v : ℤ) (es : Bucket)
    → find_in k ((j, v) ∷ es) ≡ some i
    → ((i ≡ 0) × (j ≡ k)) ⊎ ((n : ℕ) × (i ≡ suc n) × ((j == k) ≡ false) × (find_in k es ≡ some n))
unfolding find_in
found_cases k i j v es e = elim (Bool-cases (j == k)) [
  | inl same ↦ let f : some 0 ≡ some i = rw same at e in inl (ground arith, ground arith)
  | inr other ↦ elim (Option-cases (find_in k es)) [
    | inl absent ↦ let f : none ≡ some i = rw (other, absent) at e in cc
    | inr (n, found) ↦
        let f : some (suc n) ≡ some i = rw (other, found) at e in
        inr (n, ground arith, other, found)
  ]
]

-- Where `find_in` finds an index, the element there is that of the key.
pub find_in-some :
    (k i : ℕ) (b : Bucket)
    → find_in k b ≡ some i
    → (v : ℤ) × (get_elem? b i ≡ some (k, v)) × (lookup_in k b ≡ some v)
unfolding find_in
find_in-some k i [] e = cc
find_in-some k i ((j, v) ∷ es) e = elim (found_cases k i j v es e) [
  | inl (at_front, same) ↦ (v, rw at_front (ground arith), ground arith)
  | inr (n, later, other, found) ↦
      let (w, stands, held) = find_in-some k n es found in (w, rw later stands, rw other held)
]

-- The three changes of a bucket, given what `find_in` answers.
pub lookup_in-set :
    (k i j : ℕ) (b : Bucket) (v : ℤ)
    → find_in k b ≡ some i
    → lookup_in j (set b i (k, v)) ≡ (if k == j then some v else lookup_in j b)
unfolding find_in
lookup_in-set k i j [] v e = cc
lookup_in-set k i j ((l, w) ∷ es) v e = elim (found_cases k i l w es e) [
  | inl (at_front, same) ↦ rw at_front (ground arith)
  | inr (n, later, other, found) ↦ rw later (ground (arith, lookup_in-set k n j es v found))
]

pub lookup_in-append :
    (k j : ℕ) (b : Bucket) (v : ℤ)
    → lookup_in k b ≡ none
    → lookup_in j (b ++ (k, v) ∷ []) ≡ (if k == j then some v else lookup_in j b)
lookup_in-append k j [] v e = ground arith
lookup_in-append k j ((l, w) ∷ es) v e = ground (arith, lookup_in-append k j es v)

absent_at :
    (l k j : ℕ) (es : Bucket)
    → l ≡ k
    → lookup_in l es ≡ none
    → (k == j) ≡ true
    → lookup_in j es ≡ none
absent_at l k j es same absent hit =
    let e : l ≡ j = ground arith in subst (λ c. lookup_in c es ≡ none) e absent

pub lookup_in-remove_at :
    (k i j : ℕ) (b : Bucket)
    → Unique b
    → find_in k b ≡ some i
    → lookup_in j (remove_at b i) ≡ (if k == j then none else lookup_in j b)
unfolding find_in
lookup_in-remove_at k i j [] u e = cc
lookup_in-remove_at k i j ((l, w) ∷ es) u e = elim (found_cases k i l w es e) [
  | inl (at_front, same) ↦ rw at_front (ground (arith, absent_at l k j es same u.0))
  | inr (n, later, other, found) ↦ rw later (ground (arith, lookup_in-remove_at k n j es u.1 found))
]

pub Unique-set :
    (k i : ℕ) (b : Bucket) (v : ℤ) → Unique b → find_in k b ≡ some i → Unique (set b i (k, v))
unfolding find_in
Unique-set k i [] v u e = tt
Unique-set k i ((l, w) ∷ es) v u e = elim (found_cases k i l w es e) [
  | inl (at_front, same) ↦ rw at_front (subst (λ c. lookup_in c es ≡ none) same u.0, u.1)
  | inr (n, later, other, found) ↦
      rw later (ground (arith, lookup_in-set k n l es v found), Unique-set k n es v u.1 found)
]

pub Unique-append :
    (k : ℕ) (b : Bucket) (v : ℤ) → Unique b → lookup_in k b ≡ none → Unique (b ++ (k, v) ∷ [])
Unique-append k [] v u e = (refl, tt)
Unique-append k ((l, w) ∷ es) v u e =
    (ground (arith, lookup_in-append k l es v), Unique-append k es v u.1 (ground arith))

pub Unique-remove_at :
    (k i : ℕ) (b : Bucket) → Unique b → find_in k b ≡ some i → Unique (remove_at b i)
unfolding find_in
Unique-remove_at k i [] u e = tt
Unique-remove_at k i ((l, w) ∷ es) u e = elim (found_cases k i l w es e) [
  | inl (at_front, same) ↦ rw at_front u.1
  | inr (n, later, other, found) ↦ rw later (
    ground (arith, lookup_in-remove_at k n l es u.1 found, u.0),
    Unique-remove_at k n es u.1 found,
  )
]
