-- ===== src/Sha2/Padding.antt =====
-- The padding that `final` writes.
use mathlib.Core.List.{append_assoc}
use zettelkasten_public_subs.Common.{
  ℕ, zero, suc, ◌+◌, ◌-◌, ◌*◌, ◌/◌, ◌%◌, ◌^◌, ◌≡◌, ◌≤◌, ◌<◌, refl, sym, ap, ◌∙◌, subst, true, false,
  List, [], ◌∷◌, ◌++◌, ltb, lt→ltb, ◌==◌, set, replicate, length, length-append, length-set,
  length-replicate, arith, Bool-cases, inl, inr,
}
use zettelkasten_public_subs.Sha2.Rounds.{State, transform}
use zettelkasten_public_subs.Sha2.{Context, write_at, length_bytes, pad_end, final_state}
use zettelkasten_public_subs.Sha2.Stream.{
  absorb, Starts, Starts-all, Starts-set, Starts-write_at, length-write_at, Holds,
}

-- A number in `k` bytes, the lowest of them last.
unfoldable pub big_endian : ℕ → ℕ → List ℕ
big_endian zero n = []
big_endian (suc k) n = big_endian k (n / 256) ++ n % 256 ∷ []

pub length-big_endian : (k n : ℕ) → length (big_endian k n) ≡ k
unfolding big_endian
length-big_endian zero n = refl
length-big_endian (suc k) n =
    omega
      (arith, length-append (big_endian k (n / 256)) (n % 256 ∷ []), length-big_endian k (n / 256))

-- The padding of a text of `n` bytes by the standard: a bit 1, zeros up to 8 bytes before the end of
-- a block, and the length in bits as a number of 8 bytes.
abbrev pub padding : ℕ → List ℕ
padding n = 0x80 ∷ replicate ((119 - n % 64) % 64) 0 ++ big_endian 8 (8 * n)

-- The padding with the bytes that the code writes.
abbrev written : ℕ → List ℕ
written n = 0x80 ∷ replicate ((119 - n % 64) % 64) 0 ++ length_bytes (8 * n % 2 ^ 64)

cons_eq : {x y : ℕ} {xs ys : List ℕ} → x ≡ y → xs ≡ ys → x ∷ xs ≡ y ∷ ys
cons_eq {x} {y} {xs} e k = ap (λ (z : ℕ). z ∷ xs) e ∙ ap (λ l. y ∷ l) k

pub length_bytes-big_endian : (n : ℕ) → length_bytes (n % 2 ^ 64) ≡ big_endian 8 n
unfolding big_endian
length_bytes-big_endian n = cons_eq (omega arith) (
    cons_eq (omega arith) (
      cons_eq (omega arith) (
        cons_eq (omega arith) (
          cons_eq (omega arith)
            (cons_eq (omega arith) (cons_eq (omega arith) (cons_eq (omega arith) refl)))))))

written-padding : (n : ℕ) → written n ≡ padding n
written-padding n =
    ap (λ l. 0x80 ∷ replicate ((119 - n % 64) % 64) 0 ++ l) (length_bytes-big_endian (8 * n))

pub absorb-append :
    (s : State) (buffer bs cs : List ℕ)
    → absorb s buffer (bs ++ cs) ≡ absorb (absorb s buffer bs).0 (absorb s buffer bs).1 cs
unfolding absorb
absorb-append s buffer [] cs = refl
absorb-append s buffer (b ∷ bs) cs = elim (Bool-cases (length buffer + 1 == 64)) [
  | inl full ↦ rw full (absorb-append (transform s (buffer ++ b ∷ [])) [] bs cs)
  | inr more ↦ rw more (absorb-append s (buffer ++ b ∷ []) bs cs)
]

-- Bytes that fill the block.
pub absorb_block :
    (s : State) (buffer : List ℕ) (b : ℕ) (bs : List ℕ)
    → length buffer + length (b ∷ bs) ≡ 64
    → absorb s buffer (b ∷ bs) ≡ (transform s (buffer ++ b ∷ bs), [])
unfolding absorb
absorb_block s buffer b [] e =
    let full : (length buffer + 1 == 64) ≡ true = ground arith in rw full refl
absorb_block s buffer b (c ∷ cs) e =
    let more : (length buffer + 1 == 64) ≡ false = ground arith in
    rw more (
      absorb_block s (buffer ++ b ∷ []) c cs (omega (arith, length-append buffer (b ∷ [])))
      ∙ ap (λ bs. (transform s bs, [])) (append_assoc buffer (b ∷ []) (c ∷ cs)))

pub replicate-add : (m n : ℕ) → replicate {A = ℕ} (m + n) 0 ≡ replicate m 0 ++ replicate n 0
replicate-add zero n = ap (λ k. replicate k 0) (omega arith)
replicate-add (suc m) n = ap (λ k. replicate k 0) shift ∙ ap (◌∷◌ 0) (replicate-add m n)
  where
    shift : suc m + n ≡ suc (m + n)
    shift = omega arith

-- The array with the end bit.
abbrev ended : Context → List ℕ
ended ctx = set ctx.data_ ctx.data_length 0x80

module _ (ctx : Context) (s : State) (buffer : List ℕ) (n : ℕ) (h : Holds ctx s buffer n) where
  -- The array with `k` zeros behind the end bit.
  abbrev zeroed : ℕ → List ℕ
  zeroed k = write_at (ended ctx) (ctx.data_length + 1) (replicate k 0)

  length-zeroed : (k : ℕ) → length buffer + 1 + k ≤ 64 → length (zeroed k) ≡ 64
  length-zeroed k room =
      length-write_at (ended ctx) (ctx.data_length + 1) (replicate k 0) (
        omega (
          arith,
          length-set ctx.data_ ctx.data_length 0x80,
          h.sized,
          h.filled,
          length-replicate {A = ℕ} k 0,
        ))
      ∙ length-set ctx.data_ ctx.data_length 0x80
      ∙ h.sized

  zeroed-Starts : (k : ℕ) → Starts (zeroed k) (buffer ++ 0x80 ∷ replicate k 0)
  zeroed-Starts k = subst (Starts (zeroed k)) (append_assoc buffer (0x80 ∷ []) (replicate k 0)) (
      subst
        (λ i.
          Starts (write_at (ended ctx) i (replicate k 0)) ((buffer ++ 0x80 ∷ []) ++ replicate k 0))
        at_end (Starts-write_at (ended ctx) (buffer ++ 0x80 ∷ []) (replicate k 0) marked))
    where
      at_end : length (buffer ++ 0x80 ∷ []) ≡ ctx.data_length + 1
      at_end = omega (arith, length-append buffer (0x80 ∷ []), h.filled)

      marked : Starts (ended ctx) (buffer ++ 0x80 ∷ [])
      marked =
          subst (λ i. Starts (set ctx.data_ i 0x80) (buffer ++ 0x80 ∷ [])) (sym h.filled)
            (Starts-set ctx.data_ buffer 0x80 h.starts (omega (arith, h.short, h.sized)))

  length-marked : (k : ℕ) → length (buffer ++ 0x80 ∷ replicate k 0) ≡ length buffer + 1 + k
  length-marked k =
      omega (arith, length-append buffer (0x80 ∷ replicate k 0), length-replicate {A = ℕ} k 0)

  -- A block that ends with the length.
  last_block :
      (array front : List ℕ) (bits : ℕ)
      → Starts array front
      → length front ≡ 56
      → length array ≡ 64
      → write_at array 56 (length_bytes bits) ≡ front ++ length_bytes bits
  last_block array front bits starts short sized =
      Starts-all (write_at array 56 (length_bytes bits)) (front ++ length_bytes bits)
        (subst (λ i. Starts (write_at array i (length_bytes bits)) (front ++ length_bytes bits))
          short (Starts-write_at array front (length_bytes bits) starts))
        (omega (
          arith,
          length-append front (length_bytes bits),
          length-write_at array 56 (length_bytes bits) (omega (arith, sized)),
          sized,
          short,
        ))

  same_bits : (ctx.bit_length + ctx.data_length * 8 % 2 ^ 32) % 2 ^ 64 ≡ 8 * n % 2 ^ 64
  same_bits = omega (arith, h.bits, h.filled, h.short)

  final-short : length buffer < 56 → absorb s buffer (written n) ≡ (final_state ctx, [])
  unfolding final_state pad_end
  final-short few =
      let k = 56 - (ctx.data_length + 1) in
      let z : (119 - n % 64) % 64 ≡ k = omega (arith, h.count, h.filled) in
      let test : ltb ctx.data_length 56 ≡ true =
        lt→ltb ctx.data_length 56 (omega (arith, h.filled)) in
      let lb = length_bytes (8 * n % 2 ^ 64) in
      let front = buffer ++ 0x80 ∷ replicate k 0 in
      let block =
        last_block (zeroed k) front (8 * n % 2 ^ 64) (zeroed-Starts k)
          (omega (arith, length-marked k, h.filled)) (length-zeroed k (omega (arith, h.filled))) in
      let last : final_state ctx ≡ transform s (write_at (zeroed k) 56 lb) =
        rw (test, same_bits) (ap (λ st. transform st (write_at (zeroed k) 56 lb)) h.same_state) in
      ap (λ j. absorb s buffer (0x80 ∷ replicate j 0 ++ lb)) z
      ∙ absorb_block s buffer 0x80 (replicate k 0 ++ lb)
          (omega (arith, length-append (replicate k 0) lb, length-replicate {A = ℕ} k 0, h.filled))
      ∙ ap (λ bs. (transform s bs, []))
          (sym (block ∙ append_assoc buffer (0x80 ∷ replicate k 0) lb))
      ∙ ap (λ st. (st, [])) (sym last)

  final-long : 56 ≤ length buffer → absorb s buffer (written n) ≡ (final_state ctx, [])
  unfolding final_state pad_end
  final-long many =
      let k = 64 - (ctx.data_length + 1) in
      let z : (119 - n % 64) % 64 ≡ k + 56 = omega (arith, h.count, h.filled, h.short) in
      let test : ltb ctx.data_length 56 ≡ false = ground (arith, h.filled) in
      let lb = length_bytes (8 * n % 2 ^ 64) in
      let front = buffer ++ 0x80 ∷ replicate k 0 in
      let sized = length-zeroed k (omega (arith, h.filled, h.short)) in
      let long = length-marked k in
      let block : zeroed k ≡ front =
        Starts-all (zeroed k) front (zeroed-Starts k)
          (omega (arith, long, sized, h.filled, h.short)) in
      let cleared = write_at (zeroed k) 0 (replicate 56 0) in
      let block' =
        last_block cleared (replicate 56 0) (8 * n % 2 ^ 64)
          (Starts-write_at (zeroed k) [] (replicate 56 0) refl) refl
          (length-write_at (zeroed k) 0 (replicate 56 0) (omega (arith, sized)) ∙ sized) in
      let last : final_state ctx ≡ transform (transform s (zeroed k)) (write_at cleared 56 lb) =
        rw (test, same_bits)
          (ap (λ st. transform (transform st (zeroed k)) (write_at cleared 56 lb)) h.same_state) in
      ap (λ j. absorb s buffer (0x80 ∷ replicate j 0 ++ lb)) z
      ∙ ap (λ zs. absorb s buffer (0x80 ∷ zs ++ lb)) (replicate-add k 56)
      ∙ ap (λ zs. absorb s buffer (0x80 ∷ zs)) (append_assoc (replicate k 0) (replicate 56 0) lb)
      ∙ absorb-append s buffer (0x80 ∷ replicate k 0) (replicate 56 0 ++ lb)
      ∙ ap (λ r. absorb r.0 r.1 (replicate 56 0 ++ lb))
          (absorb_block s buffer 0x80 (replicate k 0)
            (omega (arith, length-replicate {A = ℕ} k 0, h.filled, h.short)))
      ∙ absorb_block (transform s front) [] 0 (replicate 55 0 ++ lb) refl
      ∙ ap (λ bs. (transform (transform s bs) (replicate 56 0 ++ lb), [])) (sym block)
      ∙ ap (λ bs. (transform (transform s (zeroed k)) bs, [])) (sym block')
      ∙ ap (λ st. (st, [])) (sym last)

  pub final-padding : absorb s buffer (padding n) ≡ (final_state ctx, [])
  final-padding =
      ap (absorb s buffer) (sym (written-padding n)) ∙ elim (Bool-cases (ltb (length buffer) 56)) [
        | inl few ↦ final-short (ground arith)
        | inr many ↦ final-long (ground arith)
      ]
