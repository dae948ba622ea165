-- ===== src/BucketHashmap/Tests.antt =====
-- Small tables with the hash of the identity. A key that was put is not found after the table grew.
use zettelkasten_public_subs.Common.{
  ℕ, zero, suc, ◌*◌, ◌%◌, ◌≡◌, refl, ◌≢◌, inl, inr, none, some, [], ◌∷◌, arith, ltb, ◌==◌,
  if◌then◌else◌, Bool-cases, get_or, pos,
}
use zettelkasten_public_subs.BucketHashmap.{BucketHashmap, make_hash, find, insert, delete}
use zettelkasten_public_subs.BucketHashmap.Lookup.{lookup_in, Unique}
use zettelkasten_public_subs.BucketHashmap.Find.{IsMap, bucket, lookup, map_find_lem}
use zettelkasten_public_subs.BucketHashmap.Update.{Puts, IsPlaced, map_insert_lem}
use zettelkasten_public_subs.BucketHashmap.Resize.{insert_grow_lem, delete_shrink_lem}

abbrev id : ℕ → ℕ
id k = k

-- A full table of one bucket, and a table of two.
abbrev full : BucketHashmap
full = record {
  buckets_count = 1;
  elements_count = 4;
  buckets = ((1, pos 1) ∷ (2, pos 2) ∷ (3, pos 3) ∷ (4, pos 4) ∷ []) ∷ [];
}

abbrev two : BucketHashmap
two = record {
  buckets_count = 2;
  elements_count = 2;
  buckets = ((2, pos 2) ∷ []) ∷ ((3, pos 3) ∷ []) ∷ [];
}

full-IsMap : IsMap full
full-IsMap = record { sized = refl; positive = omega arith; unique = buckets_unique }
  where
    buckets_unique : (i : ℕ) → Unique (get_or full.buckets i [])
    buckets_unique zero = (refl, (refl, (refl, (refl, tt))))
    buckets_unique (suc i) = tt

two-IsMap : IsMap two
two-IsMap = record { sized = refl; positive = omega arith; unique = buckets_unique }
  where
    buckets_unique : (i : ℕ) → Unique (get_or two.buckets i [])
    buckets_unique zero = (refl, tt)
    buckets_unique (suc zero) = (refl, tt)
    buckets_unique (suc (suc i)) = tt

two-IsPlaced : IsPlaced id two
unfolding make_hash
two-IsPlaced = record { is_map = two-IsMap; placed = placed_at }
  where
    placed_at : (i j : ℕ) → j % 2 ≢ i → lookup_in j (bucket i two) ≡ none
    placed_at zero j ne = elim (Bool-cases (2 == j)) [
      | inl e ↦ let s : 2 ≡ j = ground arith in absurd (ne (omega arith))
      | inr other ↦ rw other refl
    ]
    placed_at (suc zero) j ne = elim (Bool-cases (3 == j)) [
      | inl e ↦ let s : 3 ≡ j = ground arith in absurd (ne (omega arith))
      | inr other ↦ rw other refl
    ]
    placed_at (suc (suc i)) j ne = refl

map_find_lem_example : find id 3 two ≡ some (lookup id 3 two)
map_find_lem_example = map_find_lem id 3 two two-IsMap

map_insert_lem_example :
    (m : BucketHashmap) × (insert id 5 (pos 5) two ≡ some m) × Puts id 5 (pos 5) two m
map_insert_lem_example = map_insert_lem id 5 (pos 5) two two-IsMap (omega arith)

full-new : lookup id 5 full ≡ none
unfolding lookup make_hash
full-new = refl

insert_grow_lem_example :
    (m : BucketHashmap) × (insert id 5 (pos 5) full ≡ some m)
    × IsMap m
    × (m.buckets_count ≡ 2 * 1)
    × ((j : ℕ)
        → find id j m
          ≡ some (
              if ltb (j % (2 * 1)) 1
              then (if 5 == j then some (pos 5) else lookup id j full)
              else none))
insert_grow_lem_example = insert_grow_lem id 5 (pos 5) full full-IsMap (omega arith) full-new

two-holds : lookup id 2 two ≢ none
unfolding lookup make_hash
two-holds e = cc

delete_shrink_lem_example :
    (m : BucketHashmap) × (delete id 2 two ≡ some m)
    × IsMap m
    × (m.buckets_count ≡ 1)
    × ((j : ℕ)
        → find id j m
          ≡ some (if ltb (j % 2) 1 then (if 2 == j then none else lookup id j two) else none))
delete_shrink_lem_example =
    delete_shrink_lem id 2 1 two two-IsPlaced refl (omega arith) (omega arith) two-holds
