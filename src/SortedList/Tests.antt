-- ===== src/SortedList/Tests.antt =====
-- The list of `main`.
use zettelkasten_public_subs.Common.{◌≡◌, refl, List, [], ◌∷◌, ℤ, pos, count}
use zettelkasten_public_subs.SortedList.{empty_list, put_sorted, sorted_push, push_all, print}
use zettelkasten_public_subs.SortedList.Push.{IsDescending, IsCounted, push_all_lem}

abbrev values : List ℤ
values = pos 1 ∷ pos 9 ∷ pos 3 ∷ pos 2 ∷ pos 1 ∷ pos 4 ∷ []

printed : print (push_all values empty_list) ≡ pos 9 ∷ pos 4 ∷ pos 3 ∷ pos 2 ∷ pos 1 ∷ pos 1 ∷ []
unfolding print push_all sorted_push put_sorted
printed = refl

push_all_lem_example :
    IsDescending (print (push_all values empty_list))
    × IsCounted (push_all values empty_list)
    × ((v : ℤ) → count v (print (push_all values empty_list)) ≡ count v values)
push_all_lem_example = push_all_lem values
