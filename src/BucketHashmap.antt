-- ===== src/BucketHashmap.antt =====
-- BucketHashmap of 2022-04-04-bucket-hashmap/main.cpp, at keys that are numbers and at values that
-- are `int`. `std::hash` is the
-- parameter `hash`. An index of -1 is `none`. The outer option of a result is `none` where
-- `Data.at` throws std::out_of_range. The products with the coefficients are those of numbers, as
-- they are in a `double` too below 2 ^ 53.
pub mod Lookup
pub mod Find
pub mod Update
pub mod Resize
pub mod Tests
use zettelkasten_public_subs.Common.{
  ℕ, suc, zero, ◌+◌, ◌-◌, ◌*◌, ◌/◌, ◌%◌, ◌^◌, Option, none, some, List, [], ◌∷◌, ◌++◌, ltb, ◌==◌,
  ◌&&◌, if◌then◌else◌, get_elem?, set, length, ℤ, take, replicate, ◌>>=◌,
}

-- `DictCoefficient` and `GrowCoefficient`
abbrev pub dict_coefficient : ℕ
dict_coefficient = 4

abbrev pub grow_coefficient : ℕ
grow_coefficient = 2

abbrev pub Bucket : Type 0
Bucket = List (ℕ × ℤ)

pub record BucketHashmap : Type 0 where
  pub buckets_count : ℕ
  pub elements_count : ℕ
  pub buckets : List Bucket

-- `BucketHashmap()`
unfoldable pub new_map : BucketHashmap
new_map = record { buckets_count = 128; elements_count = 0; buckets = replicate 128 [] }

-- `--` on a `size_t`
abbrev pub one_less : ℕ → ℕ
one_less n = if n == 0 then 2 ^ 64 - 1 else n - 1

-- `std::vector::resize`
unfoldable pub resize : ℕ → List Bucket → List Bucket
resize n bs = take n bs ++ replicate (n - length bs) []

unfoldable pub rehash : ℕ → BucketHashmap → BucketHashmap
rehash new_size m = record m { buckets = resize new_size m.buckets; buckets_count = new_size }

-- The last statement of `Insert`.
unfoldable pub grow : BucketHashmap → BucketHashmap
grow m =
    if ltb (m.buckets_count * dict_coefficient) m.elements_count
    then rehash (grow_coefficient * m.buckets_count) m
    else m

-- The last statement of `Delete`.
unfoldable pub shrink : BucketHashmap → BucketHashmap
shrink m =
    if ltb 1 m.buckets_count
      && ltb (grow_coefficient * grow_coefficient * m.elements_count)
          (m.buckets_count * dict_coefficient)
    then rehash (m.buckets_count / grow_coefficient) m
    else m

-- The loop of `FindIndex`.
unfoldable pub find_in : ℕ → Bucket → Option ℕ
find_in k [] = none
find_in k ((j, v) ∷ es) = if j == k then some 0 else (do i ← find_in k es; some (suc i))

-- `erase`
abbrev pub remove_at : Bucket → ℕ → Bucket
remove_at [] i = []
remove_at (e ∷ es) zero = es
remove_at (e ∷ es) (suc i) = e ∷ remove_at es i

module _ (hash : ℕ → ℕ) where
  unfoldable pub make_hash : ℕ → BucketHashmap → ℕ
  make_hash k m = hash k % m.buckets_count

  unfoldable pub find_index : ℕ → BucketHashmap → Option (ℕ × Option ℕ)
  find_index k m = do b ← get_elem? m.buckets (make_hash k m); some (make_hash k m, find_in k b)

  abbrev pub find_at : BucketHashmap → ℕ × Option ℕ → Option (Option ℤ)
  find_at m (h, none) = some none
  find_at m (h, some i) = do b ← get_elem? m.buckets h; e ← get_elem? b i; some (some e.1)

  -- `Find`; it throws std::runtime_error where the inner option is `none`.
  unfoldable pub find : ℕ → BucketHashmap → Option (Option ℤ)
  find k m = do r ← find_index k m; find_at m r

  abbrev pub insert_at : ℕ → ℤ → BucketHashmap → ℕ × Option ℕ → Option BucketHashmap
  insert_at k v m (h, some i) = do
    b ← get_elem? m.buckets h
    e ← get_elem? b i
    some (record m { buckets = set m.buckets h (set b i (e.0, v)) })
  insert_at k v m (h, none) = do
    b ← get_elem? m.buckets h
    some (
        grow (record m {
          buckets = set m.buckets h (b ++ (k, v) ∷ []);
          elements_count = m.elements_count + 1;
        }))

  unfoldable pub insert : ℕ → ℤ → BucketHashmap → Option BucketHashmap
  insert k v m = do r ← find_index k m; insert_at k v m r

  abbrev pub delete_at : BucketHashmap → ℕ × Option ℕ → Option BucketHashmap
  delete_at m (h, none) = some m
  delete_at m (h, some i) = do
    b ← get_elem? m.buckets h
    some (
        shrink (record m {
          buckets = set m.buckets h (remove_at b i);
          elements_count = one_less m.elements_count;
        }))

  unfoldable pub delete : ℕ → BucketHashmap → Option BucketHashmap
  delete k m = do r ← find_index k m; delete_at m r

unfoldable pub size : BucketHashmap → ℕ
size m = m.elements_count
