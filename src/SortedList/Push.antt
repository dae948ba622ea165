-- ===== src/SortedList/Push.antt =====
-- What the two kinds of push do to the values and their order.
use zettelkasten_public_subs.Common.{
  ℕ, suc, ◌+◌, ◌≡◌, refl, ap, List, [], ◌∷◌, ◌++◌, ℤ, ◌≤ℤ◌, count, length, length-append, arith,
}
use zettelkasten_public_subs.SortedList.{
  SortedList, empty_list, put_last, non_sorted_push, put_sorted, sorted_push, push_all, print,
}

abbrev AllBelow : ℤ → List ℤ → Type 0
AllBelow b [] = Unit
AllBelow b (x ∷ xs) = (x ≤ℤ b) × AllBelow b xs

abbrev pub IsDescending : List ℤ → Type 0
IsDescending [] = Unit
IsDescending (x ∷ xs) = AllBelow x xs × IsDescending xs

-- `size_` counts the nodes.
abbrev pub IsCounted : SortedList → Type 0
IsCounted l = l.size_ ≡ length l.nodes

AllBelow-trans : (a b : ℤ) (xs : List ℤ) → a ≤ℤ b → AllBelow a xs → AllBelow b xs
AllBelow-trans a b [] h k = tt
AllBelow-trans a b (x ∷ xs) h k = ground (arith, AllBelow-trans a b xs)

put_sorted-AllBelow :
    (b value : ℤ) (xs : List ℤ) → value ≤ℤ b → AllBelow b xs → AllBelow b (put_sorted value xs)
unfolding put_sorted
put_sorted-AllBelow b value [] h k = (h, tt)
put_sorted-AllBelow b value (x ∷ xs) h k = ground (arith, put_sorted-AllBelow b value xs)

put_sorted-IsDescending :
    (value : ℤ) (xs : List ℤ) → IsDescending xs → IsDescending (put_sorted value xs)
unfolding put_sorted
put_sorted-IsDescending value [] d = (tt, tt)
put_sorted-IsDescending value (x ∷ xs) d = ground (
  arith,
  put_sorted-IsDescending value xs,
  put_sorted-AllBelow x value xs,
  AllBelow-trans x value xs,
)

count-put_sorted :
    (v value : ℤ) (xs : List ℤ) → count v (put_sorted value xs) ≡ count v (value ∷ xs)
unfolding put_sorted count
count-put_sorted v value [] = refl
count-put_sorted v value (x ∷ xs) = ground (arith, count-put_sorted v value xs)

length-put_sorted : (value : ℤ) (xs : List ℤ) → length (put_sorted value xs) ≡ suc (length xs)
unfolding put_sorted
length-put_sorted value [] = refl
length-put_sorted value (x ∷ xs) = ground (arith, length-put_sorted value xs)

put_last-append : (value : ℤ) (xs : List ℤ) → put_last value xs ≡ xs ++ value ∷ []
unfolding put_last
put_last-append value [] = refl
put_last-append value (x ∷ xs) = ap (◌∷◌ x) (put_last-append value xs)

-- What `sorted_push value` makes of a list.
record Pushes (value : ℤ) (l l' : SortedList) : Type 0 where
  descending : IsDescending l.nodes → IsDescending l'.nodes
  counts : (v : ℤ) → count v l'.nodes ≡ count v (value ∷ l.nodes)
  counted : IsCounted l → IsCounted l'

-- `sorted_push` keeps a descending list descending, adds its value once, loses none, and counts it.
sorted_push_lem : (value : ℤ) (l : SortedList) → Pushes value l (sorted_push value l)
unfolding sorted_push count
sorted_push_lem value l = go l.size_ l.nodes
  where
    go :
        (n : ℕ) (xs : List ℤ)
        → Pushes value
            (record { size_ = n; nodes = xs })
            (sorted_push value (record { size_ = n; nodes = xs }))
    go n [] = record { descending = λ d. (tt, tt); counts = λ v. refl; counted = λ e. omega arith }
    go n (x ∷ xs) = record {
      descending = λ d. ground (
        arith,
        put_sorted-IsDescending value xs,
        put_sorted-AllBelow x value xs,
        AllBelow-trans x value xs,
      );
      counts = λ v. ground (arith, count-put_sorted v value xs);
      counted = λ e. ground (arith, length-put_sorted value xs);
    }

push_all_from :
    (is : List ℤ) (l : SortedList)
    → IsDescending l.nodes
    → IsCounted l
    → IsDescending (push_all is l).nodes
      × IsCounted (push_all is l)
      × ((v : ℤ) → count v (push_all is l).nodes ≡ count v is + count v l.nodes)
unfolding push_all count
push_all_from [] l d c = (d, c, λ v. omega arith)
push_all_from (i ∷ is) l d c =
    let p = sorted_push_lem i l in
    let (d', c', same) = push_all_from is (sorted_push i l) (p.descending d) (p.counted c) in
    (d', c', λ v. omega (arith, same v, p.counts v))

-- What is pushed to an empty list with `sorted_push` is printed in descending order, each value as
-- often as it was pushed; `size_` is the number of the nodes.
pub push_all_lem :
    (is : List ℤ)
    → IsDescending (print (push_all is empty_list))
      × IsCounted (push_all is empty_list)
      × ((v : ℤ) → count v (print (push_all is empty_list)) ≡ count v is)
unfolding print count
push_all_lem is =
    let (d, c, same) = push_all_from is empty_list tt refl in (d, c, λ v. omega (arith, same v))

-- `non_sorted_push` puts its value behind all others, whatever their order, and counts it.
pub non_sorted_push_lem :
    (value : ℤ) (l : SortedList)
    → (print (non_sorted_push value l) ≡ print l ++ value ∷ [])
      × (IsCounted l → IsCounted (non_sorted_push value l))
unfolding non_sorted_push print
non_sorted_push_lem value l = go l.size_ l.nodes
  where
    length-snoc : (xs : List ℤ) → length (xs ++ value ∷ []) ≡ length xs + 1
    length-snoc xs = length-append xs (value ∷ [])

    go :
        (n : ℕ) (xs : List ℤ)
        → (print (non_sorted_push value (record { size_ = n; nodes = xs })) ≡ xs ++ value ∷ [])
          × (IsCounted (record { size_ = n; nodes = xs })
              → IsCounted (non_sorted_push value (record { size_ = n; nodes = xs })))
    go n [] = (refl, λ e. omega arith)
    go n (x ∷ xs) =
        let e = ap (◌∷◌ x) (put_last-append value xs) in
        (e, λ c. omega (arith, ap length e, length-snoc (x ∷ xs)))
