-- ===== src/LinkedList/Nodes.antt =====
-- The nodes of list.cpp in memory, and commands that read and write them. A memory is the log of
-- the writes to it, the last one first; an address that was never written or was given back holds
-- no node. `std::allocator` is the parameter `Allocator`.
use zettelkasten_public_subs.Common.{
  ℕ, ◌≡◌, ◌≢◌, Option, none, some, List, [], ◌∷◌, arith, ◌==◌, if◌then◌else◌, ℤ,
}

abbrev pub Ptr : Type 0
Ptr = ℕ

-- `nullptr`
abbrev pub null : Ptr
null = 0

-- `list_node`
pub record ListNode : Type 0 where
  pub value : ℤ
  pub prev : Ptr
  pub next : Ptr

abbrev pub list_node : ℤ → Ptr → Ptr → ListNode
list_node v p n = record { value = v; prev = p; next = n }

abbrev pub Memory : Type 0
Memory = List (Ptr × Option ListNode)

-- The node at an address.
unfoldable pub at : Memory → Ptr → Option ListNode
at [] a = none
at ((p, c) ∷ h) a = if a == p then c else at h a

abbrev pub write : Memory → Ptr → Option ListNode → Memory
write h p c = (p, c) ∷ h

-- What is asked of `allocate`: an address that is not null and holds no node.
pub record Allocator : Type 0 where
  pub allocate : Memory → Ptr
  pub not_null : (h : Memory) → allocate h ≢ null
  pub unused : (h : Memory) → at h (allocate h) ≡ none

-- A fault is a read or a write through a pointer to no node.
pub data Run (A : Type 0) : Type 0 where
  ok : A → Memory → Run A
  fault : Run A
  out_of_fuel : Run A

abbrev pub Cmd : Type 0 → Type 0
Cmd A = Memory → Run A

abbrev pub pure : {A : Type 0} → A → Cmd A
pure a h = ok a h

module _ {A B : Type 0} where
  abbrev pub run_then : Run A → (A → Cmd B) → Run B
  run_then (ok a h) k = k a h
  run_then fault k = fault
  run_then out_of_fuel k = out_of_fuel

  infixl 5 ◌>>=◌ ◌>>◌
  abbrev pub ◌>>=◌ : Cmd A → (A → Cmd B) → Cmd B
  ◌>>=◌ m k h = run_then (m h) k

  abbrev pub ◌>>◌ : Cmd A → Cmd B → Cmd B
  m >> n = m >>= λ _. n

abbrev found : Ptr → Option ListNode → Memory → Run ListNode
found p none h = fault
found p (some n) h = ok n h

-- `*p`
unfoldable pub load : Ptr → Cmd ListNode
load p h = if p == null then fault else found p (at h p) h

unfoldable pub set_value : Ptr → ℤ → Cmd (Unit {0})
set_value p v = do n ← load p; λ h. ok tt (write h p (some (record n { value = v })))

unfoldable pub set_prev : Ptr → Ptr → Cmd (Unit {0})
set_prev p q = do n ← load p; λ h. ok tt (write h p (some (record n { prev = q })))

unfoldable pub set_next : Ptr → Ptr → Cmd (Unit {0})
set_next p q = do n ← load p; λ h. ok tt (write h p (some (record n { next = q })))

-- `deallocate`
unfoldable pub deallocate : Ptr → Cmd (Unit {0})
deallocate p = do n ← load p; λ h. ok tt (write h p none)

-- The run ends without a fault and with fuel left, in a result and a memory that satisfy `P`.
abbrev pub Returns : {A : Type 0} → (A → Memory → Type 0) → Run A → Type 0
Returns P (ok a h) = P a h
Returns P fault = ⊥
Returns P out_of_fuel = ⊥

pub Returns-bind :
    {A B : Type 0} (P : A → Memory → Type 0) (Q : B → Memory → Type 0) (r : Run A) (k : A → Cmd B)
    → Returns P r
    → ((a : A) (h : Memory) → P a h → Returns Q (k a h))
    → Returns Q (run_then r k)
Returns-bind P Q (ok a h) k p next = next a h p
Returns-bind P Q fault k p next = absurd p
Returns-bind P Q out_of_fuel k p next = absurd p

pub Returns-mono :
    {A : Type 0} (P Q : A → Memory → Type 0) (r : Run A)
    → ((a : A) (h : Memory) → P a h → Q a h)
    → Returns P r
    → Returns Q r
Returns-mono P Q (ok a h) weaken p = weaken a h p
Returns-mono P Q fault weaken p = absurd p
Returns-mono P Q out_of_fuel weaken p = absurd p

module _ (h : Memory) (p : Ptr) (n : ListNode) (ne : p ≢ null) (e : at h p ≡ some n) where
  pub load_lem : load p h ≡ ok n h
  unfolding load
  load_lem = ground arith

  pub set_value_lem : (v : ℤ) → set_value p v h ≡ ok tt (write h p (some (record n { value = v })))
  unfolding set_value
  set_value_lem v = rw load_lem

  pub set_prev_lem : (q : Ptr) → set_prev p q h ≡ ok tt (write h p (some (record n { prev = q })))
  unfolding set_prev
  set_prev_lem q = rw load_lem

  pub set_next_lem : (q : Ptr) → set_next p q h ≡ ok tt (write h p (some (record n { next = q })))
  unfolding set_next
  set_next_lem q = rw load_lem

  pub deallocate_lem : deallocate p h ≡ ok tt (write h p none)
  unfolding deallocate
  deallocate_lem = rw load_lem
