-- ===== src/LruCache/Nodes.antt =====
-- The nodes of the list and the pages that they hold.
use zettelkasten_public_subs.Common.{
  ℕ, suc, ◌<◌, ◌≡◌, refl, ap, Bool, true, false, Option, none, some, List, [], ◌∷◌, ◌||◌, map,
  arith, ◌==◌, if◌then◌else◌, length, Bool-cases, inl, inr,
}
use zettelkasten_public_subs.LruCache.{Page, Nodes, back, pop_back, unlink}
use zettelkasten_public_subs.LruCache.Order.{has_page, remove, drop_last, Distinct}

abbrev pub pages : Nodes → List Page
pages = map (λ n. n.1)

-- The node that holds a page.
abbrev pub find : Page → Nodes → Option ℕ
find p [] = none
find p ((i, q) ∷ ns) = if p == q then some i else find p ns

abbrev pub has_node : ℕ → Nodes → Bool
has_node i [] = false
has_node i ((j, q) ∷ ns) = (i == j) || has_node i ns

-- The nodes have different numbers, all below `next`.
abbrev pub Separate : ℕ → Nodes → Type 0
Separate next [] = Unit
Separate next ((i, q) ∷ ns) = (i < next) × (has_node i ns ≡ false) × Separate next ns

abbrev pub without : Page → Nodes → Nodes
without p [] = []
without p ((j, q) ∷ ns) = if p == q then ns else (j, q) ∷ without p ns

pub pages-without : (p : Page) (ns : Nodes) → pages (without p ns) ≡ remove p (pages ns)
pages-without p [] = refl
pages-without p ((j, q) ∷ ns) = ground (arith, pages-without p ns)

pub find_absent : (p : Page) (ns : Nodes) → has_page p (pages ns) ≡ false → find p ns ≡ none
find_absent p [] h = refl
find_absent p ((j, q) ∷ ns) h = ground (arith, find_absent p ns)

pub find_present :
    (p : Page) (ns : Nodes) → has_page p (pages ns) ≡ true → (i : ℕ) × (find p ns ≡ some i)
find_present p [] h = cc
find_present p ((j, q) ∷ ns) h = elim (Bool-cases (p == q)) [
  | inl same ↦ (j, rw same)
  | inr other ↦ let (i, e) = find_present p ns (ground arith) in (i, rw other e)
]

has_node_of_find : (p : Page) (ns : Nodes) (i : ℕ) → find p ns ≡ some i → has_node i ns ≡ true
has_node_of_find p [] i e = cc
has_node_of_find p ((j, q) ∷ ns) i e = elim (Bool-cases (p == q)) [
  | inl same ↦ let f : some j ≡ some i = rw same at e in ground arith
  | inr other ↦
      let f : find p ns ≡ some i = rw other at e in ground (arith, has_node_of_find p ns i f)
]

has_node-without :
    (i : ℕ) (p : Page) (ns : Nodes) → has_node i ns ≡ false → has_node i (without p ns) ≡ false
has_node-without i p [] h = refl
has_node-without i p ((j, q) ∷ ns) h = ground (arith, has_node-without i p ns)

pub without-Separate :
    (p : Page) (next : ℕ) (ns : Nodes) → Separate next ns → Separate next (without p ns)
without-Separate p next [] s = tt
without-Separate p next ((j, q) ∷ ns) s =
    ground (arith, without-Separate p next ns, has_node-without j p ns)

pub find-without :
    (p q : Page) (ns : Nodes)
    → Distinct (pages ns)
    → find q (without p ns) ≡ (if q == p then none else find q ns)
find-without p q [] d = ground arith
find-without p q ((j, r) ∷ ns) d = ground (arith, find-without p q ns, find_absent r ns)

pub length-without :
    (p : Page) (ns : Nodes) → has_page p (pages ns) ≡ true → suc (length (without p ns)) ≡ length ns
length-without p [] h = cc
length-without p ((j, q) ∷ ns) h = ground (arith, length-without p ns)

-- An iterator to the node of `p` takes out that node.
pub unlink_lem :
    (p : Page) (i next : ℕ) (ns : Nodes)
    → Separate next ns
    → find p ns ≡ some i
    → unlink i ns ≡ some ((i, p), without p ns)
unfolding unlink
unlink_lem p i next [] s e = cc
unlink_lem p i next ((j, q) ∷ ns) s e = elim (Bool-cases (p == q)) [
  | inl same ↦ let f : some j ≡ some i = rw same at e in ground arith
  | inr other ↦
      let f : find p ns ≡ some i = rw other at e in
      let apart : (i == j) ≡ false = ground (arith, has_node_of_find p ns i f) in
      rw (apart, other, unlink_lem p i next ns s.2 f) refl
]

-- The last node holds the page that `back` gives.
pub pop_back_lem :
    (n : ℕ × Page) (ns : Nodes)
    → Distinct (pages (n ∷ ns))
    → (q : Page) × (back (n ∷ ns) ≡ some q)
      × (has_page q (pages (n ∷ ns)) ≡ true)
      × (pop_back (n ∷ ns) ≡ without q (n ∷ ns))
unfolding back pop_back
pop_back_lem (i, p) [] d = (p, refl, ground arith, ground arith)
pop_back_lem (i, p) (m ∷ ns) d =
    let (q, e, member, same) = pop_back_lem m ns d.1 in
    let apart : (q == p) ≡ false = ground arith in (q, e, ground arith, rw (apart, same) refl)

pub pages-pop_back : (ns : Nodes) → pages (pop_back ns) ≡ drop_last (pages ns)
unfolding pop_back
pages-pop_back [] = refl
pages-pop_back (n ∷ []) = refl
pages-pop_back (n ∷ m ∷ ns) = ap (◌∷◌ n.1) (pages-pop_back (m ∷ ns))

-- The node of `p` before the others.
pub front-Separate :
    (p : Page) (i next : ℕ) (ns : Nodes)
    → Separate next ns
    → find p ns ≡ some i
    → Separate next ((i, p) ∷ without p ns)
front-Separate p i next [] s e = cc
front-Separate p i next ((j, q) ∷ ns) s e = elim (Bool-cases (p == q)) [
  | inl same ↦ let f : some j ≡ some i = rw same at e in rw same (ground arith)
  | inr other ↦
      let f : find p ns ≡ some i = rw other at e in
      let tail = front-Separate p i next ns s.2 f in
      let apart : (i == j) ≡ false = ground (arith, has_node_of_find p ns i f) in
      rw other (tail.0, rw (apart, tail.1) refl, (s.0, has_node-without j p ns s.1, tail.2))
]
