-- ===== src/BucketHashmap/Resize.antt =====
-- What a change of the number of buckets does: the elements stay in the bucket where they are.
use zettelkasten_public_subs.Common.{
  ℕ, zero, suc, ◌+◌, ◌-◌, ◌*◌, ◌/◌, ◌%◌, ◌≤◌, ◌<◌, ◌≡◌, refl, sym, ap, ◌∙◌, ◌≢◌, inl, inr, true,
  none, some, List, [], ◌∷◌, ◌++◌, arith, ltb, ◌==◌, if◌then◌else◌, lt→ltb, Bool-cases, if_elim,
  zero-ltb-suc, length, length-append, get_or, take, replicate, length-take, length-replicate, ℤ,
  is_some,
}
use zettelkasten_public_subs.BucketHashmap.{
  Bucket, BucketHashmap, resize, rehash, grow, shrink, make_hash, find, insert, delete,
}
use zettelkasten_public_subs.BucketHashmap.Lookup.{lookup_in, Unique}
use zettelkasten_public_subs.BucketHashmap.Find.{IsMap, map_find_lem, bucket, lookup}
use zettelkasten_public_subs.BucketHashmap.Update.{
  insert-Puts, Removes, delete-Removes, IsPlaced, Removes-IsPlaced,
}
use native.Mathlib.Nat.{mod-lt, mod-eq_of_lt, mod-mod_of_dvd, dvd-mul_left}

length-resize : (n : ℕ) (bs : List Bucket) → length (resize n bs) ≡ n
unfolding resize
length-resize n bs = omega (
  arith,
  length-append (take n bs) (replicate (n - length bs) []),
  length-take n bs,
  length-replicate {A = Bucket} (n - length bs) [],
)

get_or-replicate : (n i : ℕ) → get_or {A = Bucket} (replicate n []) i [] ≡ []
get_or-replicate zero i = refl
get_or-replicate (suc n) zero = refl
get_or-replicate (suc n) (suc i) = get_or-replicate n i

get_or-append-replicate :
    (bs : List Bucket) (n i : ℕ) → get_or (bs ++ replicate n []) i [] ≡ get_or bs i []
get_or-append-replicate [] n i = get_or-replicate n i
get_or-append-replicate (b ∷ bs) n zero = refl
get_or-append-replicate (b ∷ bs) n (suc i) = get_or-append-replicate bs n i

get_or-take :
    (n i : ℕ) (bs : List Bucket)
    → get_or (take n bs) i [] ≡ (if ltb i n then get_or bs i [] else [])
get_or-take zero i bs = ground arith
get_or-take (suc n) i [] = ground arith
get_or-take (suc n) zero (b ∷ bs) = rw zero-ltb-suc refl
get_or-take (suc n) (suc i) (b ∷ bs) =
    get_or-take n i bs ∙ ap (λ t. if t then get_or bs i [] else []) (same n i)
  where
    same : (n i : ℕ) → ltb i n ≡ ltb (suc i) (suc n)
    same n i = ground arith

get_or-resize :
    (n i : ℕ) (bs : List Bucket)
    → get_or (resize n bs) i [] ≡ (if ltb i n then get_or bs i [] else [])
unfolding resize
get_or-resize n i bs = get_or-append-replicate (take n bs) (n - length bs) i ∙ get_or-take n i bs

get_or_beyond : (bs : List Bucket) (i : ℕ) → length bs ≤ i → get_or bs i [] ≡ []
get_or_beyond [] i le = refl
get_or_beyond (b ∷ bs) zero le = absurd (omega arith)
get_or_beyond (b ∷ bs) (suc i) le = get_or_beyond bs i (omega arith)

pub rehash-IsMap : (n : ℕ) (m : BucketHashmap) → 0 < n → IsMap m → IsMap (rehash n m)
unfolding rehash
rehash-IsMap n m positive is = record {
  sized = length-resize n m.buckets;
  positive = positive;
  unique = λ i. rw (get_or-resize n i m.buckets) (if_elim Unique (ltb i n) (is.unique i) tt);
}

halves : (p : BucketHashmap) (half : ℕ) → (rehash half p).buckets_count ≡ half
unfolding rehash
halves p half = refl

shrinks :
    (p : BucketHashmap) (half : ℕ)
    → p.buckets_count ≡ 2 * half
    → p.elements_count < p.buckets_count
    → shrink p ≡ rehash half p
unfolding shrink
shrinks p half even few =
    let e : p.buckets_count / 2 ≡ half = omega (arith, even) in
    let more : ltb 1 p.buckets_count ≡ true = ground arith in
    let sparse : ltb (2 * 2 * p.elements_count) (p.buckets_count * 4) ≡ true = ground arith in
    rw (more, sparse, e) refl

twice :
    (p : BucketHashmap) {n : ℕ}
    → p.buckets_count ≡ n
    → (rehash (2 * p.buckets_count) p).buckets_count ≡ 2 * n
unfolding rehash
twice p e = ap (λ n. 2 * n) e

module _ (hash : ℕ → ℕ) where
  -- After `Rehash` a key is looked for in the old bucket of its new hash.
  lookup-rehash :
      (n j : ℕ) (m : BucketHashmap)
      → 0 < n
      → lookup hash j (rehash n m) ≡ lookup_in j (bucket (hash j % n) m)
  unfolding lookup rehash make_hash
  lookup-rehash n j m positive =
      rw (get_or-resize n (hash j % n) m.buckets, lt→ltb (hash j % n) n (mod-lt (hash j) positive))
        refl

  -- The hash for twice as many buckets is the old one, or that and the old number of buckets.
  double_mod : (x n : ℕ) → x % (2 * n) % n ≡ x % n
  double_mod x n = mod-mod_of_dvd n x (dvd-mul_left n 2)

  lookup-double :
      (j : ℕ) (m : BucketHashmap)
      → IsMap m
      → lookup hash j (rehash (2 * m.buckets_count) m)
        ≡ (if ltb (hash j % (2 * m.buckets_count)) m.buckets_count then lookup hash j m else none)
  unfolding lookup make_hash
  lookup-double j m is =
      let n = m.buckets_count in
      let new = hash j % (2 * n) in
      lookup-rehash (2 * n) j m (omega (arith, is.positive)) ∙ elim (Bool-cases (ltb new n)) [
        | inl low ↦
            let e : new ≡ hash j % n = sym (mod-eq_of_lt (ground arith)) ∙ double_mod (hash j) n in
            rw low (ap (λ i. lookup_in j (bucket i m)) e)
        | inr high ↦
            rw high (ap (lookup_in j) (get_or_beyond m.buckets new (ground (arith, is.sized))))
      ]

  -- On a map with four elements for each bucket, or more, `Insert` of a new key doubles the number
  -- of buckets, and afterwards just those keys are found, the new one included, whose hash falls in
  -- the first half of the larger table; the others are lost.
  pub insert_grow_lem :
      (k : ℕ) (v : ℤ) (m : BucketHashmap)
      → IsMap m
      → m.buckets_count * 4 ≤ m.elements_count
      → lookup hash k m ≡ none
      → (m' : BucketHashmap) × (insert hash k v m ≡ some m')
        × IsMap m'
        × (m'.buckets_count ≡ 2 * m.buckets_count)
        × ((j : ℕ)
            → find hash j m'
              ≡ some (
                  if ltb (hash j % (2 * m.buckets_count)) m.buckets_count
                  then (if k == j then some v else lookup hash j m)
                  else none))
  unfolding grow
  insert_grow_lem k v m is full new =
      let (p, e, puts) = insert-Puts hash k v m is in
      let over : ltb (p.buckets_count * 4) p.elements_count ≡ true =
        lt→ltb (p.buckets_count * 4) p.elements_count (
          omega (
            arith,
            puts.same_buckets,
            puts.count ∙ ap (λ o. if is_some o then m.elements_count else m.elements_count + 1) new,
          )) in
      let is' =
        rehash-IsMap (2 * p.buckets_count) p (omega (arith, puts.is_map.positive)) puts.is_map in
      (
        rehash (2 * p.buckets_count) p,
        e ∙ ap some (rw (new, over) refl),
        is',
        twice p puts.same_buckets,
        λ j.
            map_find_lem hash j (rehash (2 * p.buckets_count) p) is'
            ∙ ap some (
                lookup-double j p puts.is_map
                ∙ ap (λ n. if ltb (hash j % (2 * n)) n then lookup hash j p else none)
                    puts.same_buckets
                ∙ ap (λ o. if ltb (hash j % (2 * m.buckets_count)) m.buckets_count then o else none)
                    (puts.holds j)),
      )

  lookup-halve :
      (half j : ℕ) (m : BucketHashmap)
      → IsPlaced hash m
      → m.buckets_count ≡ 2 * half
      → lookup hash j (rehash half m)
        ≡ (if ltb (hash j % (2 * half)) half then lookup hash j m else none)
  unfolding lookup make_hash
  lookup-halve half j m is even =
      let positive : 0 < half = omega (arith, is.is_map.positive) in
      let old = hash j % (2 * half) in
      let low_half = mod-lt (hash j) positive in
      let same : hash j % m.buckets_count ≡ old = ap (λ n. hash j % n) even in
      lookup-rehash half j m positive ∙ elim (Bool-cases (ltb old half)) [
        | inl low ↦
            let e : hash j % half ≡ old =
              sym (double_mod (hash j) half) ∙ mod-eq_of_lt (ground arith) in
            rw low (ap (λ i. lookup_in j (bucket i m)) (e ∙ sym same))
        | inr high ↦ rw high (is.placed (hash j % half) j (λ e. ground (arith, low_half, same)))
      ]

  -- `Delete` of a key that is there, on a map of an even number of buckets where every key stands
  -- in its bucket and at most as many elements as buckets are counted, halves the number of buckets,
  -- and afterwards just those of the other keys are found whose hash falls in the first half of the
  -- old table.
  pub delete_shrink_lem :
      (k half : ℕ) (m : BucketHashmap)
      → IsPlaced hash m
      → m.buckets_count ≡ 2 * half
      → 0 < m.elements_count
      → m.elements_count ≤ m.buckets_count
      → lookup hash k m ≢ none
      → (m' : BucketHashmap) × (delete hash k m ≡ some m')
        × IsMap m'
        × (m'.buckets_count ≡ half)
        × ((j : ℕ)
            → find hash j m'
              ≡ some (
                  if ltb (hash j % m.buckets_count) half
                  then (if k == j then none else lookup hash j m)
                  else none))
  unfolding shrink
  delete_shrink_lem k half m is even counted few there = elim (delete-Removes hash k m is.is_map) [
    | inl (absent, e) ↦ absurd (there absent)
    | inr (p, e, r) ↦
        let even' : p.buckets_count ≡ 2 * half = r.same_buckets ∙ even in
        let placed = Removes-IsPlaced hash k m p is r in
        let is' = rehash-IsMap half p (omega (arith, r.is_map.positive)) r.is_map in
        let m' = rehash half p in
        (
          m',
          e ∙ ap some (shrinks p half even' (few_left p r)),
          is',
          count p,
          λ j.
              map_find_lem hash j m' is'
              ∙ ap some (
                  lookup-halve half j p placed even'
                  ∙ ap (λ n. if ltb (hash j % n) half then lookup hash j p else none) (sym even)
                  ∙ ap (λ o. if ltb (hash j % m.buckets_count) half then o else none) (r.holds j)),
        )
  ]
    where
      few_left : (p : BucketHashmap) → Removes hash k m p → p.elements_count < p.buckets_count
      few_left p r = ground (arith, r.count, r.same_buckets)

      count : (p : BucketHashmap) → (rehash half p).buckets_count ≡ half
      count p = halves p half
