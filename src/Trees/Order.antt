-- ===== src/Trees/Order.antt =====
-- `insert` keeps the search order and adds exactly the key.
use zettelkasten_public_subs.Common.{
  ◌≡◌, refl, subst, inl, inr, Bool, false, ◌||◌, some, List, [], ◌∷◌, ◌++◌, arith, Bool-cases,
  if_elim, ℤ, pos, ◌<ℤ◌, ltb_ℤ, leb_ℤ, eqb_ℤ, mem,
}
use zettelkasten_public_subs.Trees.{Tree, null, node, insert, read_tree}

-- Every value of the tree satisfies `P`.
abbrev pub AllNodes : (ℤ → Type 0) → Tree → Type 0
AllNodes P null = Unit
AllNodes P (node v l r) = P v × AllNodes P l × AllNodes P r

-- Smaller values to the left, larger ones to the right, at every node.
abbrev pub IsSearch : Tree → Type 0
IsSearch null = Unit
IsSearch (node v l r) =
    AllNodes (λ x. x <ℤ v) l × AllNodes (λ x. v <ℤ x) r × IsSearch l × IsSearch r

-- `s` is `t`, or stands below it.
pub data Subtree (s : Tree) : Tree → Type 0 where
  here : Subtree s s
  left : {v : ℤ} {l r : Tree} → Subtree s l → Subtree s (node v l r)
  right : {v : ℤ} {l r : Tree} → Subtree s r → Subtree s (node v l r)

unfoldable pub occurs : ℤ → Tree → Bool
occurs q null = false
occurs q (node v l r) = eqb_ℤ q v || occurs q l || occurs q r

AllNodes-insert :
    (P : ℤ → Type 0) (key : ℤ) (t : Tree) → P key → AllNodes P t → AllNodes P (insert key t)
unfolding insert
AllNodes-insert P key null p h = (p, tt, tt)
AllNodes-insert P key (node v l r) p (mid, below, above) =
    if_elim (AllNodes P) (eqb_ℤ key v) (mid, below, above)
      (if_elim (AllNodes P) (ltb_ℤ key v) (mid, AllNodes-insert P key l p below, above)
        (if_elim (AllNodes P) (leb_ℤ v key) (mid, below, AllNodes-insert P key r p above)
          (mid, below, above)))

pub insert-IsSearch : (key : ℤ) (t : Tree) → IsSearch t → IsSearch (insert key t)
unfolding insert
insert-IsSearch key null h = ground arith
insert-IsSearch key (node v l r) h = ground (
  arith,
  insert-IsSearch key l,
  insert-IsSearch key r,
  AllNodes-insert (λ x. x <ℤ v) key l,
  AllNodes-insert (λ x. v <ℤ x) key r,
)

pub occurs-insert : (q key : ℤ) (t : Tree) → occurs q (insert key t) ≡ (eqb_ℤ q key || occurs q t)
unfolding insert occurs
occurs-insert q key null = ground arith
occurs-insert q key (node v l r) = ground (arith, occurs-insert q key l, occurs-insert q key r)

-- The keys of a list, inserted in turn.
unfoldable pub insert_all : Tree → List ℤ → Tree
insert_all t [] = t
insert_all t (key ∷ keys) = insert_all (insert key t) keys

pub read_tree-insert_all :
    (t : Tree) (keys rest : List ℤ)
    → mem (pos 0) keys ≡ false
    → read_tree t (keys ++ pos 0 ∷ rest) ≡ some (insert_all t keys)
unfolding read_tree insert_all mem
read_tree-insert_all t [] rest h = refl
read_tree-insert_all t (key ∷ keys) rest h =
    ground (arith, read_tree-insert_all (insert key t) keys rest)

pub insert_all-IsSearch : (t : Tree) (keys : List ℤ) → IsSearch t → IsSearch (insert_all t keys)
unfolding insert_all
insert_all-IsSearch t [] h = h
insert_all-IsSearch t (key ∷ keys) h =
    insert_all-IsSearch (insert key t) keys (insert-IsSearch key t h)

pub occurs-insert_all :
    (q : ℤ) (t : Tree) (keys : List ℤ) → occurs q (insert_all t keys) ≡ (occurs q t || mem q keys)
unfolding insert_all mem
occurs-insert_all q t [] = ground arith
occurs-insert_all q t (key ∷ keys) =
    ground (arith, occurs-insert_all q (insert key t) keys, occurs-insert q key t)

-- Whatever the input, the tree that was read is a search tree.
pub read_tree-IsSearch :
    (t : Tree) (input : List ℤ) {t' : Tree} → read_tree t input ≡ some t' → IsSearch t → IsSearch t'
unfolding read_tree
read_tree-IsSearch t [] e h = cc
read_tree-IsSearch t (digit ∷ rest) {t'} e h = elim (Bool-cases (eqb_ℤ digit (pos 0))) [
  | inl stop ↦ let same : t ≡ t' = ground arith in subst IsSearch same h
  | inr go_on ↦ read_tree-IsSearch (insert digit t) rest (ground arith) (insert-IsSearch digit t h)
]

-- `insert` keeps a search tree one, and adds its key and nothing else.
pub tree_insert_lem :
    (key : ℤ) (t : Tree)
    → IsSearch t
    → IsSearch (insert key t) × ((q : ℤ) → occurs q (insert key t) ≡ (eqb_ℤ q key || occurs q t))
tree_insert_lem key t h = (insert-IsSearch key t h, λ q. occurs-insert q key t)
