-- ===== src/SortedList.antt =====
-- List of 2022-05-16-sorted-list-push/list.cpp, at `T = int` as in its `main`. A node is owned by the
-- one pointer to it, so the nodes from a pointer on are the list of their values, and `nullptr` is
-- the empty one. `size_` counts nodes in memory, so it does not overflow.
pub mod Push
pub mod Tests
use zettelkasten_public_subs.Common.{
  ℕ, zero, suc, ◌+◌, Bool, true, false, List, [], ◌∷◌, if◌then◌else◌, ℤ, ltb_ℤ, leb_ℤ,
}

pub record SortedList : Type 0 where
  pub size_ : ℕ
  pub nodes : List ℤ

abbrev pub empty_list : SortedList
empty_list = record { size_ = 0; nodes = [] }

unfoldable pub empty : SortedList → Bool
empty l = is_nil l.nodes
  where
    is_nil : List ℤ → Bool
    is_nil [] = true
    is_nil (x ∷ xs) = false

-- The loop of `non_sorted_push` and the two writes behind it: the nodes behind `current`.
unfoldable pub put_last : ℤ → List ℤ → List ℤ
put_last value [] = value ∷ []
put_last value (x ∷ xs) = x ∷ put_last value xs

unfoldable pub non_sorted_push : ℤ → SortedList → SortedList
non_sorted_push value l = record { size_ = l.size_ + 1; nodes = at_head l.nodes }
  where
    at_head : List ℤ → List ℤ
    at_head [] = value ∷ []
    at_head (x ∷ xs) = x ∷ put_last value xs

-- The loop of `sorted_push` and the two writes behind it: the nodes behind `current`.
unfoldable pub put_sorted : ℤ → List ℤ → List ℤ
put_sorted value [] = value ∷ []
put_sorted value (x ∷ xs) =
    let rest = put_sorted value xs in if ltb_ℤ value x then x ∷ rest else value ∷ x ∷ xs

unfoldable pub sorted_push : ℤ → SortedList → SortedList
sorted_push value l = record { size_ = l.size_ + 1; nodes = at_head l.nodes }
  where
    at_head : List ℤ → List ℤ
    at_head [] = value ∷ []
    at_head (x ∷ xs) = if leb_ℤ x value then value ∷ x ∷ xs else x ∷ put_sorted value xs

-- The loop of `main`.
unfoldable pub push_all : List ℤ → SortedList → SortedList
push_all [] l = l
push_all (i ∷ is) l = push_all is (sorted_push i l)

-- What `print` writes, a value at a time.
unfoldable pub print : SortedList → List ℤ
print l = l.nodes
