-- ===== src/BucketHashmap/Find.antt =====
-- `Find`, and maps that differ in one bucket.
use zettelkasten_public_subs.Common.{
  ℕ, ◌%◌, ◌<◌, ◌≡◌, refl, sym, ap, ◌∙◌, ◌≢◌, inl, inr, false, Option, none, some, [], arith, ◌==◌,
  if◌then◌else◌, Bool-cases, Option-cases, if_elim, length, get_elem?, set, length-set, get_or, ℤ,
}
use zettelkasten_public_subs.BucketHashmap.{
  Bucket, BucketHashmap, find_in, make_hash, find_index, find,
}
use zettelkasten_public_subs.BucketHashmap.Lookup.{
  lookup_in, Unique, get_elem?-get_or, get_or-set, find_in-none, find_in-some,
}
use native.Mathlib.Nat.{mod-lt}

-- There is a bucket for each hash, and no bucket holds a key twice.
pub record IsMap (m : BucketHashmap) : Type 0 where
  pub sized : length m.buckets ≡ m.buckets_count
  pub positive : 0 < m.buckets_count
  pub unique : (i : ℕ) → Unique (get_or m.buckets i [])

abbrev pub bucket : ℕ → BucketHashmap → Bucket
bucket i m = get_or m.buckets i []

module _ (hash : ℕ → ℕ) where
  -- What the map holds for a key: what the bucket of its hash holds.
  unfoldable pub lookup : ℕ → BucketHashmap → Option ℤ
  lookup k m = lookup_in k (bucket (make_hash hash k m) m)

  pub in_range : (k : ℕ) (m : BucketHashmap) → IsMap m → make_hash hash k m < length m.buckets
  unfolding make_hash
  in_range k m is = omega (arith, mod-lt (hash k) is.positive, is.sized)

  pub found_bucket :
      (k : ℕ) (m : BucketHashmap)
      → IsMap m
      → get_elem? m.buckets (make_hash hash k m) ≡ some (bucket (make_hash hash k m) m)
  found_bucket k m is = get_elem?-get_or m.buckets (make_hash hash k m) [] (in_range k m is)

  -- `Find` returns what the map holds for the key, and throws std::runtime_error where it holds
  -- nothing; it never throws std::out_of_range.
  pub map_find_lem : (k : ℕ) (m : BucketHashmap) → IsMap m → find hash k m ≡ some (lookup k m)
  unfolding find find_index lookup
  map_find_lem k m is =
      let b = bucket (make_hash hash k m) m in
      elim (Option-cases (find_in k b)) [
        | inl absent ↦ rw (found_bucket k m is, absent, find_in-none k b absent) refl
        | inr (i, found) ↦
            let (v, stands, held) = find_in-some k i b found in
            rw (found_bucket k m is, found, found_bucket k m is, stands, held) refl
      ]

  -- The map with another bucket for the hash of `k`, and another count.
  abbrev pub replaced : ℕ → BucketHashmap → Bucket → ℕ → BucketHashmap
  replaced k m b n = record m { buckets = set m.buckets (make_hash hash k m) b; elements_count = n }

  pub replaced-IsMap :
      (k : ℕ) (m : BucketHashmap) (b : Bucket) (n : ℕ)
      → IsMap m
      → Unique b
      → IsMap (replaced k m b n)
  replaced-IsMap k m b n is u = record {
    sized = length-set m.buckets (make_hash hash k m) b ∙ is.sized;
    positive = is.positive;
    unique = λ i.
        rw (get_or-set m.buckets (make_hash hash k m) i b [] (in_range k m is))
          (if_elim Unique (i == make_hash hash k m) u (is.unique i));
  }

  same_hash : (k j : ℕ) (m : BucketHashmap) → k ≡ j → make_hash hash j m ≡ make_hash hash k m
  same_hash k j m e = ap (λ i. make_hash hash i m) (sym e)

  -- A bucket that differs at `k` only makes a map that differs at `k` only.
  pub replaced-lookup :
      (k j : ℕ) (m : BucketHashmap) (b : Bucket) (n : ℕ) (found : Option ℤ)
      → IsMap m
      → lookup_in j b ≡ (if k == j then found else lookup_in j (bucket (make_hash hash k m) m))
      → lookup j (replaced k m b n) ≡ (if k == j then found else lookup j m)
  unfolding lookup make_hash
  replaced-lookup k j m b n found is e =
      let h = hash k % m.buckets_count in
      elim (Bool-cases (hash j % m.buckets_count == h)) [
        | inl same ↦
            let f : hash j % m.buckets_count ≡ h = ground arith in
            rw (get_or-set m.buckets h (hash j % m.buckets_count) b [] (in_range k m is), same)
              (e ∙ ap (λ i. if k == j then found else lookup_in j (bucket i m)) (sym f))
        | inr other ↦
            let ne : (k == j) ≡ false = apart other in
            rw (get_or-set m.buckets h (hash j % m.buckets_count) b [] (in_range k m is), other, ne)
              refl
      ]
    where
      apart : (hash j % m.buckets_count == hash k % m.buckets_count) ≡ false → (k == j) ≡ false
      apart other = elim (Bool-cases (k == j)) [
        | inl hit ↦
            let e : k ≡ j = ground arith in
            let f : hash j % m.buckets_count ≡ hash k % m.buckets_count =
              ap (λ i. hash i % m.buckets_count) (sym e) in
            ground arith
        | inr miss ↦ miss
      ]

  -- No key comes to stand in a bucket that is not that of its hash.
  pub replaced-inside :
      (k i j : ℕ) (m : BucketHashmap) (b : Bucket) (n : ℕ) (found : Option ℤ)
      → IsMap m
      → lookup_in j b ≡ (if k == j then found else lookup_in j (bucket (make_hash hash k m) m))
      → make_hash hash j m ≢ i
      → lookup_in j (bucket i m) ≡ none
      → lookup_in j (bucket i (replaced k m b n)) ≡ none
  replaced-inside k i j m b n found is e ne absent =
      let h = make_hash hash k m in
      rw (get_or-set m.buckets h i b [] (in_range k m is)) (elim (Bool-cases (i == h)) [
        | inl same ↦
            let at_h : i ≡ h = ground arith in
            rw same (elim (Bool-cases (k == j)) [
              | inl hit ↦
                  let e' : k ≡ j = ground arith in absurd (ne (same_hash k j m e' ∙ sym at_h))
              | inr miss ↦ e ∙ rw miss (ap (λ c. lookup_in j (bucket c m)) (sym at_h) ∙ absent)
            ])
        | inr other ↦ rw other absent
      ])
