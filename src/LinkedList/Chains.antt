-- ===== src/LinkedList/Chains.antt =====
-- Doubly linked chains of nodes in memory, and what writes do to them.
use zettelkasten_public_subs.Common.{
  suc, ◌≡◌, refl, ap, ◌∙◌, ◌≢◌, Bool, true, false, ◌||◌, Option, none, some, List, [], ◌∷◌, ◌++◌,
  arith, ◌==◌, length, ℤ,
}
use zettelkasten_public_subs.LinkedList.Nodes.{Ptr, null, ListNode, list_node, Memory, at, write}

-- What a chain stands for: the address and the value of each node, in order.
abbrev pub Cells : Type 0
Cells = List (Ptr × ℤ)

abbrev pub has : Ptr → Cells → Bool
has a [] = false
has a ((p, v) ∷ xs) = (a == p) || has a xs

-- The first node, or `end` where there is none.
abbrev pub first : Cells → Ptr → Ptr
first [] end_ptr = end_ptr
first ((p, v) ∷ xs) end_ptr = p

-- The last node, or `before` where there is none.
abbrev pub last : Ptr → Cells → Ptr
last before [] = before
last before ((p, v) ∷ xs) = last p xs

abbrev pub Disjoint : Cells → Cells → Type 0
Disjoint [] ys = Unit
Disjoint ((p, v) ∷ xs) ys = (has p ys ≡ false) × Disjoint xs ys

-- The nodes `xs` are distinct, each points to the next and back to the one before; `before` and
-- `after` are what the two ends point to.
abbrev pub Chain : Memory → Ptr → Cells → Ptr → Type 0
Chain h before [] after = Unit
Chain h before ((p, v) ∷ xs) after =
    (p ≢ null)
    × (at h p ≡ some (list_node v before (first xs after)))
    × (has p xs ≡ false)
    × Chain h p xs after

pub at-write_ne :
    (h : Memory) (p : Ptr) (n : Option ListNode) (a : Ptr) → a ≢ p → at (write h p n) a ≡ at h a
unfolding at
at-write_ne h p n a ne = ground arith

pub at-write_self : (h : Memory) (p : Ptr) (n : Option ListNode) → at (write h p n) p ≡ n
unfolding at
at-write_self h p n = ground arith

pub ne_of_has : (xs : Cells) (a b : Ptr) → has a xs ≡ false → has b xs ≡ true → a ≢ b
ne_of_has xs a b out member e = cc (ap (λ t. has t xs) e)

pub has_of_tail : (a p : Ptr) (v : ℤ) (xs : Cells) → has a xs ≡ true → has a ((p, v) ∷ xs) ≡ true
has_of_tail a p v xs h = ground arith

-- A chain survives any change that spares its nodes.
pub Chain-frame :
    (h g : Memory) (before : Ptr) (xs : Cells) (after : Ptr)
    → ((a : Ptr) → has a xs ≡ true → at g a ≡ at h a)
    → Chain h before xs after
    → Chain g before xs after
Chain-frame h g before [] after same c = tt
Chain-frame h g before ((p, v) ∷ xs) after same c = (
  c.0,
  same p (ground arith) ∙ c.1,
  c.2,
  Chain-frame h g p xs after (λ a i. same a (ground arith)) c.3,
)

pub Chain-write :
    (h : Memory) (p : Ptr) (n : Option ListNode) (before : Ptr) (xs : Cells) (after : Ptr)
    → has p xs ≡ false
    → Chain h before xs after
    → Chain (write h p n) before xs after
unfolding at
Chain-write h p n before xs after out c =
    Chain-frame h (write h p n) before xs after (λ a i. ground arith) c

-- An address that holds no node is none of a chain's.
pub not-has_of_unused :
    (h : Memory) (a before : Ptr) (xs : Cells) (after : Ptr)
    → Chain h before xs after
    → at h a ≡ none
    → has a xs ≡ false
not-has_of_unused h a before [] after c e = refl
not-has_of_unused h a before ((p, v) ∷ xs) after c e =
    ground (arith, not-has_of_unused h a p xs after)

pub has-append : (a : Ptr) (xs ys : Cells) → has a (xs ++ ys) ≡ (has a xs || has a ys)
has-append a [] ys = refl
has-append a (x ∷ xs) ys = ground (arith, has-append a xs ys)

pub first-append :
    (xs ys : Cells) (after : Ptr) → first (xs ++ ys) after ≡ first xs (first ys after)
first-append [] ys after = refl
first-append (x ∷ xs) ys after = refl

pub last-append : (before : Ptr) (xs ys : Cells) → last before (xs ++ ys) ≡ last (last before xs) ys
last-append before [] ys = refl
last-append before ((p, v) ∷ xs) ys = last-append p xs ys

pub Chain-append :
    (h : Memory) (before : Ptr) (xs ys : Cells) (after : Ptr)
    → Chain h before xs (first ys after)
    → Chain h (last before xs) ys after
    → Disjoint xs ys
    → Chain h before (xs ++ ys) after
Chain-append h before [] ys after c d apart = d
Chain-append h before ((p, v) ∷ xs) ys after c d apart = (
  c.0,
  rw first-append c.1,
  rw has-append (ground arith),
  Chain-append h p xs ys after c.3 d apart.1,
)

pub Chain-split :
    (h : Memory) (before : Ptr) (xs ys : Cells) (after : Ptr)
    → Chain h before (xs ++ ys) after
    → Chain h before xs (first ys after) × Chain h (last before xs) ys after × Disjoint xs ys
Chain-split h before [] ys after c = (tt, c, tt)
Chain-split h before ((p, v) ∷ xs) ys after c =
    let (a, b, d) = Chain-split h p xs ys after c.3 in
    (
      (
        c.0,
        c.1 ∙ ap some (ap (list_node v before) (first-append xs ys after)),
        ground (arith, has-append p xs ys),
        a,
      ),
      b,
      (ground (arith, has-append p xs ys), d),
    )

pub has-last : (p : Ptr) (v : ℤ) (xs : Cells) → has (last p xs) ((p, v) ∷ xs) ≡ true
has-last p v [] = ground arith
has-last p v ((q, w) ∷ xs) = ground (arith, has-last q w xs)

-- What a write to the `next` of the last node does.
pub record Relinked (h : Memory) (before : Ptr) (xs : Cells) (after q t : Ptr) : Type 0 where
  pub last_node : ListNode
  pub not_null : t ≢ null
  pub holds : at h t ≡ some last_node
  pub next : last_node.next ≡ after
  pub member : has t xs ≡ true
  pub chain : Chain (write h t (some (record last_node { next = q }))) before xs q

pub Chain-relink_last :
    (h : Memory) (before p : Ptr) (v : ℤ) (xs : Cells) (after q : Ptr)
    → Chain h before ((p, v) ∷ xs) after
    → Relinked h before ((p, v) ∷ xs) after q (last p xs)
unfolding at
Chain-relink_last h before p v [] after q c = record {
  last_node = list_node v before after;
  not_null = c.0;
  holds = c.1;
  next = refl;
  member = ground arith;
  chain = (c.0, ground arith, refl, tt);
}
Chain-relink_last h before p v ((p', v') ∷ xs) after q c =
    let r = Chain-relink_last h p p' v' xs after q c.3 in
    let apart : p ≢ last p' xs = ne_of_has ((p', v') ∷ xs) p (last p' xs) c.2 r.member in
    record {
      last_node = r.last_node;
      not_null = r.not_null;
      holds = r.holds;
      next = r.next;
      member = has_of_tail (last p' xs) p v ((p', v') ∷ xs) r.member;
      chain = (c.0, at-write_ne h _ _ p apart ∙ c.1, c.2, r.chain);
    }

pub Chain-relink_first :
    (h : Memory) (before p : Ptr) (v : ℤ) (xs : Cells) (after q : Ptr)
    → Chain h before ((p, v) ∷ xs) after
    → Chain (write h p (some (list_node v q (first xs after)))) q ((p, v) ∷ xs) after
unfolding at
Chain-relink_first h before p v xs after q c =
    (c.0, ground arith, c.2, Chain-write h p _ p xs after c.2 c.3)

-- A node between the nodes `ys` before it and the nodes `zs` behind it.
pub record Focus (h : Memory) (before : Ptr) (ys : Cells) (p : Ptr) (v : ℤ) (zs : Cells)
    (after : Ptr) : Type 0 where
  pub front : Chain h before ys p
  pub not_null : p ≢ null
  pub holds : at h p ≡ some (list_node v (last before ys) (first zs after))
  pub back : Chain h p zs after
  pub not_before : has p ys ≡ false
  pub not_behind : has p zs ≡ false
  pub apart : Disjoint ys zs

Disjoint-cons :
    (ys : Cells) (p : Ptr) (v : ℤ) (zs : Cells)
    → Disjoint ys ((p, v) ∷ zs)
    → (has p ys ≡ false) × Disjoint ys zs
Disjoint-cons [] p v zs d = (refl, tt)
Disjoint-cons ((q, w) ∷ ys) p v zs d =
    let (out, rest) = Disjoint-cons ys p v zs d.1 in
    (ground (arith, d.0), (ground (arith, d.0), rest))

pub cons-Disjoint :
    (ys : Cells) (p : Ptr) (v : ℤ) (zs : Cells)
    → has p ys ≡ false
    → Disjoint ys zs
    → Disjoint ys ((p, v) ∷ zs)
cons-Disjoint [] p v zs out d = tt
cons-Disjoint ((q, w) ∷ ys) p v zs out d =
    (ground (arith, d.0), cons-Disjoint ys p v zs (ground arith) d.1)

pub Disjoint-one : (xs : Cells) (p : Ptr) (v : ℤ) → has p xs ≡ false → Disjoint xs ((p, v) ∷ [])
Disjoint-one [] p v out = tt
Disjoint-one ((q, w) ∷ xs) p v out = (ground arith, Disjoint-one xs p v (ground arith))

pub length-snoc : (xs : Cells) (c : Ptr × ℤ) → length (xs ++ c ∷ []) ≡ suc (length xs)
length-snoc [] c = refl
length-snoc (x ∷ xs) c = ap suc (length-snoc xs c)

pub focus :
    (h : Memory) (before : Ptr) (ys : Cells) (p : Ptr) (v : ℤ) (zs : Cells) (after : Ptr)
    → Chain h before (ys ++ (p, v) ∷ zs) after
    → Focus h before ys p v zs after
focus h before ys p v zs after c =
    let (front, mid, d) = Chain-split h before ys ((p, v) ∷ zs) after c in
    let (out, apart) = Disjoint-cons ys p v zs d in
    record {
      front = front;
      not_null = mid.0;
      holds = mid.1;
      back = mid.3;
      not_before = out;
      not_behind = mid.2;
      apart = apart;
    }

pub unfocus :
    (h : Memory) (before : Ptr) (ys : Cells) (p : Ptr) (v : ℤ) (zs : Cells) (after : Ptr)
    → Focus h before ys p v zs after
    → Chain h before (ys ++ (p, v) ∷ zs) after
unfocus h before ys p v zs after f =
    Chain-append h before ys ((p, v) ∷ zs) after f.front (f.not_null, f.holds, f.not_behind, f.back)
      (cons-Disjoint ys p v zs f.not_before f.apart)
