-- ===== src/LinkedList/Owned.antt =====
-- The list objects of chains, and memories that differ only at some nodes.
use zettelkasten_public_subs.Common.{
  ℕ, suc, ◌≡◌, ◌∙◌, ◌≢◌, inl, inr, true, false, Option, [], ◌∷◌, ◌++◌, arith, ◌==◌, Bool-cases,
  ==_false, length, ℤ,
}
use zettelkasten_public_subs.LinkedList.{Handle, handle, IsList, SameOutside, end_of}
use zettelkasten_public_subs.LinkedList.Chains.{
  Cells, has, first, last, at-write_ne, Chain-relink_last, last-append, first-append, has-append,
  ne_of_has, Disjoint, length-snoc,
}
use zettelkasten_public_subs.LinkedList.Nodes.{Ptr, null, ListNode, Memory, write, ok, load_lem}

pub handle-snoc :
    (xs : Cells) (q : Ptr) (w : ℤ) (p : Ptr) (n : ℕ)
    → p ≡ first xs q
    → n ≡ suc (length xs)
    → ◌≡◌ {A = Handle} (record { head = p; tail = q; length_ = n }) (handle (xs ++ (q, w) ∷ []))
handle-snoc xs q w p n e f = ground (
  arith,
  first-append xs ((q, w) ∷ []) null,
  last-append null xs ((q, w) ∷ []),
  length-snoc xs (q, w),
)

-- A write at a node of `xs`.
pub SameOutside-write :
    (xs : Cells) (h g : Memory) (p : Ptr) (n : Option ListNode)
    → has p xs ≡ true
    → SameOutside xs h g
    → SameOutside xs h (write g p n)
SameOutside-write xs h g p n member same b out =
    at-write_ne g p n b (ne_of_has xs b p out member) ∙ same b out

pub SameOutside-mono :
    (xs ys : Cells) (h g : Memory)
    → ((b : Ptr) → has b ys ≡ false → has b xs ≡ false)
    → SameOutside xs h g
    → SameOutside ys h g
SameOutside-mono xs ys h g sub same b out = same b (sub b out)

pub has-append_left : (b : Ptr) (xs ys : Cells) → has b (xs ++ ys) ≡ false → has b xs ≡ false
has-append_left b xs ys h = ground (arith, has-append b xs ys)

pub has-append_right : (b : Ptr) (xs ys : Cells) → has b (xs ++ ys) ≡ false → has b ys ≡ false
has-append_right b xs ys h = ground (arith, has-append b xs ys)

pub has_left : (b : Ptr) (xs ys : Cells) → has b xs ≡ true → has b (xs ++ ys) ≡ true
has_left b xs ys h = ground (arith, has-append b xs ys)

pub has_right : (b : Ptr) (xs ys : Cells) → has b ys ≡ true → has b (xs ++ ys) ≡ true
has_right b xs ys h = ground (arith, has-append b xs ys)

pub Disjoint-has : (xs ys : Cells) (b : Ptr) → Disjoint xs ys → has b xs ≡ true → has b ys ≡ false
Disjoint-has [] ys b d h = cc
Disjoint-has ((p, v) ∷ xs) ys b d h = elim (Bool-cases (b == p)) [
  | inl same ↦ let e : b ≡ p = ground arith in rw e d.0
  | inr other ↦ Disjoint-has xs ys b d.1 (ground arith)
]

pub Disjoint-has_right :
    (xs ys : Cells) (b : Ptr) → Disjoint xs ys → has b ys ≡ true → has b xs ≡ false
Disjoint-has_right xs ys b d h = elim (Bool-cases (has b xs)) [
  | inl member ↦ cc (Disjoint-has xs ys b d member)
  | inr out ↦ out
]

-- `end()` is the null pointer, of an empty list too.
pub end_of_lem : (h : Memory) (l : Handle) (xs : Cells) → IsList h l xs → end_of l h ≡ ok null h
unfolding end_of
end_of_lem h l [] is = rw is.object
end_of_lem h l ((p, v) ∷ xs) is =
    let r = Chain-relink_last h null p v xs null null is.chain in
    rw (
      is.object,
      ==_false (last p xs) null r.not_null,
      load_lem h (last p xs) r.last_node r.not_null r.holds,
      r.next,
    )

pub ne_head : (b p : Ptr) (v : ℤ) (zs : Cells) → has b ((p, v) ∷ zs) ≡ false → p ≢ b
ne_head b p v zs out = ground arith

pub out_tail : (b p : Ptr) (v : ℤ) (zs : Cells) → has b ((p, v) ∷ zs) ≡ false → has b zs ≡ false
out_tail b p v zs out = ground arith

pub out_cons :
    (b p : Ptr) (v : ℤ) (zs : Cells) → b ≢ p → has b zs ≡ false → has b ((p, v) ∷ zs) ≡ false
out_cons b p v zs ne out = ground arith

pub has_head : (p : Ptr) (v : ℤ) (zs : Cells) → has p ((p, v) ∷ zs) ≡ true
has_head p v zs = ground arith
