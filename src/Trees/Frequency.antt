-- ===== src/Trees/Frequency.antt =====
-- frequency.cpp: a tree that keeps equal keys, and `m_value_counts` beside it. The `std::map` is a
-- list of its entries in ascending order of the keys. A count is an `int` that grows by one with
-- each key read, so it stays in range for fewer than 2 ^ 31 keys.
use mathlib.Core.Option
use zettelkasten_public_subs.Common.{
  ℕ, ◌+◌, ◌<◌, ◌≡◌, refl, false, Option, none, some, List, [], ◌∷◌, ◌++◌, arith, if◌then◌else◌, ℤ,
  pos, ◌≤ℤ◌, ◌<ℤ◌, ltb_ℤ, leb_ℤ, eqb_ℤ, mem, count,
}
use zettelkasten_public_subs.Trees.{Tree, null, node}

abbrev pub Counts : Type 0
Counts = List (ℤ × ℕ)

-- `m_value_counts[key]++`: an absent key gets the count 0 first.
unfoldable pub increment : ℤ → Counts → Counts
increment key [] = (key, 1) ∷ []
increment key ((k, n) ∷ m) =
    if ltb_ℤ key k
    then (key, 1) ∷ (k, n) ∷ m
    else if eqb_ℤ key k
    then (k, n + 1) ∷ m
    else (k, n) ∷ increment key m

-- `insert(key, leaf)`, with no test for equality.
unfoldable pub insert_equal : ℤ → Tree → Tree
insert_equal key null = node key null null
insert_equal key (node v l r) =
    let go_left = node v (insert_equal key l) r in
    let go_right = node v l (insert_equal key r) in
    if ltb_ℤ key v then go_left else if leb_ℤ v key then go_right else node v l r

pub record Frequency : Type 0 where
  pub root : Tree
  pub value_counts : Counts

-- `insert(key)`: both branches count the key.
unfoldable pub insert_counted : ℤ → Frequency → Frequency
insert_counted key t = record {
  root = insert_equal key t.root;
  value_counts = increment key t.value_counts;
}

-- `main`, up to the `print_with_count` of the map's entries.
unfoldable pub read_counted : Frequency → List ℤ → Option Frequency
read_counted t [] = none
read_counted t (digit ∷ rest) =
    let go_on = read_counted (insert_counted digit t) rest in
    if eqb_ℤ digit (pos 0) then some t else go_on

abbrev pub empty : Frequency
empty = record { root = null; value_counts = [] }

unfoldable pub frequency_main : List ℤ → Option Counts
frequency_main input = Option.map (λ t. t.value_counts) (read_counted empty input)

unfoldable pub lookup_count : ℤ → Counts → ℕ
lookup_count q [] = 0
lookup_count q ((k, n) ∷ m) = if eqb_ℤ q k then n else lookup_count q m

unfoldable pub count_nodes : ℤ → Tree → ℕ
count_nodes q null = 0
count_nodes q (node v l r) = (if eqb_ℤ q v then 1 else 0) + count_nodes q l + count_nodes q r

abbrev AllKeys : (ℤ → Type 0) → Counts → Type 0
AllKeys P [] = Unit
AllKeys P ((k, n) ∷ m) = P k × AllKeys P m

-- The keys ascend strictly, and each has been counted.
abbrev pub IsOrdered : Counts → Type 0
IsOrdered [] = Unit
IsOrdered ((k, n) ∷ m) = (0 < n) × AllKeys (λ j. k <ℤ j) m × IsOrdered m

AllKeys-increment :
    (a key : ℤ) (m : Counts)
    → a <ℤ key
    → AllKeys (λ j. a <ℤ j) m
    → AllKeys (λ j. a <ℤ j) (increment key m)
unfolding increment
AllKeys-increment a key [] p h = (p, tt)
AllKeys-increment a key ((k, n) ∷ m) p h = ground (arith, AllKeys-increment a key m)

AllKeys-trans : (a b : ℤ) (m : Counts) → a <ℤ b → AllKeys (λ j. b <ℤ j) m → AllKeys (λ j. a <ℤ j) m
AllKeys-trans a b [] p h = tt
AllKeys-trans a b ((k, n) ∷ m) p h = (omega arith, AllKeys-trans a b m p h.1)

lookup_count_absent :
    (a q : ℤ) (m : Counts) → q ≤ℤ a → AllKeys (λ j. a <ℤ j) m → lookup_count q m ≡ 0
unfolding lookup_count
lookup_count_absent a q [] p h = refl
lookup_count_absent a q ((k, n) ∷ m) p h = ground (arith, lookup_count_absent a q m)

increment-IsOrdered : (key : ℤ) (m : Counts) → IsOrdered m → IsOrdered (increment key m)
unfolding increment
increment-IsOrdered key [] h = ground arith
increment-IsOrdered key ((k, n) ∷ m) h =
    ground (arith, increment-IsOrdered key m, AllKeys-increment k key m, AllKeys-trans key k m)

lookup_count-increment :
    (q key : ℤ) (m : Counts)
    → IsOrdered m
    → lookup_count q (increment key m) ≡ (if eqb_ℤ q key then 1 else 0) + lookup_count q m
unfolding increment lookup_count
lookup_count-increment q key [] h = ground arith
lookup_count-increment q key ((k, n) ∷ m) h =
    ground (arith, lookup_count-increment q key m, lookup_count_absent k q m)

count_nodes-insert_equal :
    (q key : ℤ) (t : Tree)
    → count_nodes q (insert_equal key t) ≡ (if eqb_ℤ q key then 1 else 0) + count_nodes q t
unfolding insert_equal count_nodes
count_nodes-insert_equal q key null = ground arith
count_nodes-insert_equal q key (node v l r) =
    ground (arith, count_nodes-insert_equal q key l, count_nodes-insert_equal q key r)

-- After reading `keys` the map is in order, and the map and the tree both count them.
record Counted (start : Frequency) (keys : List ℤ) (t : Frequency) : Type 0 where
  ordered : IsOrdered t.value_counts
  in_map :
      (q : ℤ) → lookup_count q t.value_counts ≡ lookup_count q start.value_counts + count q keys
  in_tree : (q : ℤ) → count_nodes q t.root ≡ count_nodes q start.root + count q keys

read_counted-Counted :
    (start : Frequency) (keys rest : List ℤ)
    → IsOrdered start.value_counts
    → mem (pos 0) keys ≡ false
    → (t : Frequency) × (read_counted start (keys ++ pos 0 ∷ rest) ≡ some t) × Counted start keys t
unfolding read_counted insert_counted mem count
read_counted-Counted start [] rest ok h =
    (start, refl, record { ordered = ok; in_map = λ q. omega arith; in_tree = λ q. omega arith })
read_counted-Counted start (key ∷ keys) rest ok h =
    let next : IsOrdered (increment key start.value_counts) =
      increment-IsOrdered key start.value_counts ok in
    let (t, run, c) =
      read_counted-Counted (insert_counted key start) keys rest next (ground arith) in
    (
      t,
      ground arith,
      record {
        ordered = c.ordered;
        in_map = λ q. omega (arith, c.in_map q, lookup_count-increment q key start.value_counts ok);
        in_tree = λ q. omega (arith, c.in_tree q, count_nodes-insert_equal q key start.root);
      },
    )

-- frequency.cpp: for keys that are not 0, followed by a 0, the program prints keys in strictly
-- ascending order, each with a positive count; the count printed beside a key, or 0 where the key is
-- not printed, is how often it was read, and the tree holds the key exactly as often.
pub frequency_main_lem :
    (keys rest : List ℤ)
    → mem (pos 0) keys ≡ false
    → (t : Frequency) × (read_counted empty (keys ++ pos 0 ∷ rest) ≡ some t)
      × (frequency_main (keys ++ pos 0 ∷ rest) ≡ some t.value_counts)
      × IsOrdered t.value_counts
      × ((q : ℤ) → lookup_count q t.value_counts ≡ count q keys)
      × ((q : ℤ) → count_nodes q t.root ≡ count q keys)
unfolding frequency_main lookup_count count_nodes
frequency_main_lem keys rest h =
    let (t, run, c) = read_counted-Counted empty keys rest tt h in
    (t, run, rw run, c.ordered, λ q. omega (arith, c.in_map q), λ q. omega (arith, c.in_tree q))
