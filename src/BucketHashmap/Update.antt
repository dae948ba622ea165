-- ===== src/BucketHashmap/Update.antt =====
-- `Insert` and `Delete` while the table keeps its size.
use zettelkasten_public_subs.Common.{
  ℕ, ◌+◌, ◌*◌, ◌%◌, ◌<◌, ◌≡◌, refl, ap, ◌∙◌, ◌≢◌, ◌⊎◌, inl, inr, none, some, [], ◌∷◌, ◌++◌, arith,
  ◌==◌, if◌then◌else◌, Option-cases, set, ℤ, is_some,
}
use zettelkasten_public_subs.BucketHashmap.{
  BucketHashmap, one_less, grow, shrink, find_in, remove_at, make_hash, find_index, insert, delete,
}
use zettelkasten_public_subs.BucketHashmap.Lookup.{
  lookup_in, find_in-none, find_in-some, lookup_in-set, lookup_in-append, lookup_in-remove_at,
  Unique-set, Unique-append, Unique-remove_at,
}
use zettelkasten_public_subs.BucketHashmap.Find.{
  IsMap, bucket, lookup, found_bucket, replaced, replaced-IsMap, replaced-lookup, replaced-inside,
}

module _ (hash : ℕ → ℕ) where
  -- What a map becomes when `k` is set to `v`, before the table grows.
  pub record Puts (k : ℕ) (v : ℤ) (m m' : BucketHashmap) : Type 0 where
    pub is_map : IsMap m'
    pub holds : (j : ℕ) → lookup hash j m' ≡ (if k == j then some v else lookup hash j m)
    pub inside :
        (i j : ℕ)
        → make_hash hash j m ≢ i
        → lookup_in j (bucket i m) ≡ none
        → lookup_in j (bucket i m') ≡ none
    pub same_buckets : m'.buckets_count ≡ m.buckets_count
    pub count :
        m'.elements_count
        ≡ (if is_some (lookup hash k m) then m.elements_count else m.elements_count + 1)

  pub insert-Puts :
      (k : ℕ) (v : ℤ) (m : BucketHashmap)
      → IsMap m
      → (m' : BucketHashmap) × (insert hash k v m
          ≡ some (if is_some (lookup hash k m) then m' else grow m'))
        × Puts k v m m'
  unfolding insert find_index lookup
  insert-Puts k v m is =
      let b = bucket (make_hash hash k m) m in
      elim (Option-cases (find_in k b)) [
        | inl absent ↦
            let gone = find_in-none k b absent in
            (
              replaced hash k m (b ++ (k, v) ∷ []) (m.elements_count + 1),
              rw (found_bucket hash k m is, absent, found_bucket hash k m is, gone) refl,
              record {
                is_map =
                    replaced-IsMap hash k m (b ++ (k, v) ∷ []) (m.elements_count + 1) is
                      (Unique-append k b v (is.unique (make_hash hash k m)) gone);
                holds = λ j.
                    replaced-lookup hash k j m (b ++ (k, v) ∷ []) (m.elements_count + 1) (some v) is
                      (lookup_in-append k j b v gone);
                inside = λ i j.
                    replaced-inside hash k i j m (b ++ (k, v) ∷ []) (m.elements_count + 1) (some v)
                      is (lookup_in-append k j b v gone);
                same_buckets = refl;
                count = rw gone refl;
              },
            )
        | inr (i, found) ↦
            let (w, stands, held) = find_in-some k i b found in
            (
              replaced hash k m (set b i (k, v)) m.elements_count,
              rw (found_bucket hash k m is, found, found_bucket hash k m is, stands, held) refl,
              record {
                is_map =
                    replaced-IsMap hash k m (set b i (k, v)) m.elements_count is
                      (Unique-set k i b v (is.unique (make_hash hash k m)) found);
                holds = λ j.
                    replaced-lookup hash k j m (set b i (k, v)) m.elements_count (some v) is
                      (lookup_in-set k i j b v found);
                inside = λ c j.
                    replaced-inside hash k c j m (set b i (k, v)) m.elements_count (some v) is
                      (lookup_in-set k i j b v found);
                same_buckets = refl;
                count = rw held refl;
              },
            )
      ]

  -- What a map becomes when `k` is removed, before the table shrinks.
  pub record Removes (k : ℕ) (m m' : BucketHashmap) : Type 0 where
    pub is_map : IsMap m'
    pub holds : (j : ℕ) → lookup hash j m' ≡ (if k == j then none else lookup hash j m)
    pub inside :
        (i j : ℕ)
        → make_hash hash j m ≢ i
        → lookup_in j (bucket i m) ≡ none
        → lookup_in j (bucket i m') ≡ none
    pub same_buckets : m'.buckets_count ≡ m.buckets_count
    pub count : m'.elements_count ≡ one_less m.elements_count

  pub delete-Removes :
      (k : ℕ) (m : BucketHashmap)
      → IsMap m
      → ((lookup hash k m ≡ none) × (delete hash k m ≡ some m))
        ⊎ ((m' : BucketHashmap) × (delete hash k m ≡ some (shrink m')) × Removes k m m')
  unfolding delete find_index lookup
  delete-Removes k m is =
      let b = bucket (make_hash hash k m) m in
      elim (Option-cases (find_in k b)) [
        | inl absent ↦ inl (find_in-none k b absent, rw (found_bucket hash k m is, absent) refl)
        | inr (i, found) ↦ inr (
          replaced hash k m (remove_at b i) (one_less m.elements_count),
          rw (found_bucket hash k m is, found, found_bucket hash k m is) refl,
          record {
            is_map =
                replaced-IsMap hash k m (remove_at b i) (one_less m.elements_count) is
                  (Unique-remove_at k i b (is.unique (make_hash hash k m)) found);
            holds = λ j.
                replaced-lookup hash k j m (remove_at b i) (one_less m.elements_count) none is
                  (lookup_in-remove_at k i j b (is.unique (make_hash hash k m)) found);
            inside = λ c j.
                replaced-inside hash k c j m (remove_at b i) (one_less m.elements_count) none is
                  (lookup_in-remove_at k i j b (is.unique (make_hash hash k m)) found);
            same_buckets = refl;
            count = refl;
          },
        )
      ]

  -- On a map with less than four elements for each bucket, `Insert` sets the value of its key, new
  -- or not, leaves the other keys as they are, and counts a new key.
  pub map_insert_lem :
      (k : ℕ) (v : ℤ) (m : BucketHashmap)
      → IsMap m
      → m.elements_count < m.buckets_count * 4
      → (m' : BucketHashmap) × (insert hash k v m ≡ some m') × Puts k v m m'
  unfolding grow
  map_insert_lem k v m is room =
      let (m', e, p) = insert-Puts k v m is in
      (m', e ∙ ap some (ground (arith, p.count, p.same_buckets)), p)

  -- Where the table does not shrink after it, `Delete` removes its key alone, and leaves the map
  -- without the key as it is.
  pub map_delete_lem :
      (k : ℕ) (m : BucketHashmap)
      → IsMap m
      → (m.buckets_count ≡ 1) ⊎ (m.buckets_count < m.elements_count)
      → ((lookup hash k m ≡ none) × (delete hash k m ≡ some m))
        ⊎ ((m' : BucketHashmap) × (delete hash k m ≡ some m') × Removes k m m')
  unfolding shrink
  map_delete_lem k m is full = elim (delete-Removes k m is) [
    | inl absent ↦ inl absent
    | inr (m', e, r) ↦ inr (m', e ∙ ap some (ground (arith, r.count, r.same_buckets)), r)
  ]

  -- Every key stands in the bucket of its hash.
  pub record IsPlaced (m : BucketHashmap) : Type 0 where
    pub is_map : IsMap m
    pub placed : (i j : ℕ) → make_hash hash j m ≢ i → lookup_in j (bucket i m) ≡ none

  IsPlaced-of_inside :
      (m m' : BucketHashmap)
      → IsPlaced m
      → IsMap m'
      → m'.buckets_count ≡ m.buckets_count
      → ((i j : ℕ)
          → make_hash hash j m ≢ i
          → lookup_in j (bucket i m) ≡ none
          → lookup_in j (bucket i m') ≡ none)
      → IsPlaced m'
  unfolding make_hash
  IsPlaced-of_inside m m' is is' e inside = record {
    is_map = is';
    placed = λ i j ne.
        let ne' : hash j % m.buckets_count ≢ i = λ s. ne (ap (λ n. hash j % n) e ∙ s) in
        inside i j ne' (is.placed i j ne');
  }

  pub Puts-IsPlaced :
      (k : ℕ) (v : ℤ) (m m' : BucketHashmap) → IsPlaced m → Puts k v m m' → IsPlaced m'
  Puts-IsPlaced k v m m' is p = IsPlaced-of_inside m m' is p.is_map p.same_buckets p.inside

  pub Removes-IsPlaced : (k : ℕ) (m m' : BucketHashmap) → IsPlaced m → Removes k m m' → IsPlaced m'
  Removes-IsPlaced k m m' is r = IsPlaced-of_inside m m' is r.is_map r.same_buckets r.inside
