-- ===== src/Sha512/Blocks.antt =====
-- The digest of a text and the blocks of the text with its padding.
use zettelkasten_public_subs.Common.{
  ℕ, zero, suc, ◌+◌, ◌-◌, ◌*◌, ◌/◌, ◌%◌, ◌^◌, ◌≡◌, ◌≤◌, ◌<◌, refl, sym, ap, ◌∙◌, subst, List, [],
  ◌∷◌, ◌++◌, take, drop, replicate, length, length-append, length-take, length-drop,
  take-append-drop, ◌⊎◌, length-replicate, arith, inl, inr,
}
use zettelkasten_public_subs.Sha512.Rounds.{transform}
use zettelkasten_public_subs.Sha2.Rounds.{State}
use zettelkasten_public_subs.Sha512.{
  Kind, Context, init, update_byte, update, final_state, to_string, final, bytes, initial_state,
}
use zettelkasten_public_subs.Sha2.{length_bytes}
use zettelkasten_public_subs.Sha2.Padding.{
  replicate-add, big_endian, length-big_endian, length_bytes-big_endian,
}
use zettelkasten_public_subs.Sha512.Stream.{absorb, Holds, init-Holds, update-Holds}
use zettelkasten_public_subs.Sha512.Padding.{padding, absorb-append, absorb_block, final-padding}

-- Blocks of 128 bytes compressed one after another.
unfoldable pub compress_blocks : ℕ → State → List ℕ → State
compress_blocks zero s bs = s
compress_blocks (suc k) s bs = compress_blocks k (transform s (take 128 bs)) (drop 128 bs)

absorb-compress_blocks :
    (k : ℕ) (s : State) (bs : List ℕ)
    → length bs ≡ 128 * k
    → absorb s [] bs ≡ (compress_blocks k s bs, [])
unfolding absorb compress_blocks
absorb-compress_blocks zero s [] e = refl
absorb-compress_blocks zero s (b ∷ bs) e = absurd (omega arith)
absorb-compress_blocks (suc k) s [] e = absurd (omega arith)
absorb-compress_blocks (suc k) s (b ∷ bs) e =
    let all = b ∷ bs in
    ap (absorb s []) (sym (take-append-drop 128 all))
    ∙ absorb-append s [] (take 128 all) (drop 128 all)
    ∙ ap (λ r. absorb r.0 r.1 (drop 128 all))
        (absorb_block s [] b (take 127 bs) (omega (arith, length-take 127 bs)))
    ∙ absorb-compress_blocks k (transform s (take 128 all)) (drop 128 all)
        (omega (arith, length-drop 128 all))

pub update-kind : (bs : List ℕ) (ctx : Context) → (update bs ctx).kind ≡ ctx.kind
unfolding update update_byte
update-kind [] ctx = refl
update-kind (b ∷ bs) ctx = update-kind bs (update_byte b ctx) ∙ ground arith

digest_lem :
    (k : Kind) (array text : List ℕ)
    → length array ≡ 128
    → (blocks : ℕ) × (length (text ++ padding (length text)) ≡ 128 * blocks)
      × (bytes k array text
          ≡ to_string k (compress_blocks blocks (initial_state k) (text ++ padding (length text))))
unfolding bytes final init
digest_lem k array text sized = (
  blocks,
  whole,
  ap (λ j. to_string j (final_state ctx)) (update-kind text (init k array) ∙ init_kind)
      ∙ ap (λ r. to_string k r.0) (sym (all ∙ padded))
      ∙ ap (λ r. to_string k r.0)
          (absorb-compress_blocks blocks (initial_state k) (text ++ padding n) whole),
)
  where
    n : ℕ
    n = length text

    ctx : Context
    ctx = update text (init k array)

    blocks : ℕ
    blocks = (n + 9 + (247 - n % 128) % 128) / 128

    whole : length (text ++ padding n) ≡ 128 * blocks
    whole = omega (
      arith,
      length-append text (padding n),
      length-append (replicate ((247 - n % 128) % 128) 0) (length_bytes (8 * n % 2 ^ 64)),
      length-replicate {A = ℕ} ((247 - n % 128) % 128) 0,
    )

    init_kind : (init k array).kind ≡ k
    init_kind = refl

    taken : (r : State × List ℕ) × (absorb (initial_state k) [] text ≡ r) × Holds ctx r.0 r.1 n
    taken =
        let (r, e, h) =
          update-Holds text (init k array) (initial_state k) [] 0 (init-Holds k array sized) in
        (r, e, subst (Holds ctx r.0 r.1) (omega arith) h)

    all : absorb (initial_state k) [] (text ++ padding n) ≡ absorb taken.0.0 taken.0.1 (padding n)
    all =
        absorb-append (initial_state k) [] text (padding n)
        ∙ ap (λ r. absorb r.0 r.1 (padding n)) taken.1

    padded : absorb taken.0.0 taken.0.1 (padding n) ≡ (final_state ctx, [])
    padded = final-padding ctx taken.0.0 taken.0.1 n taken.2

-- The padding of the standard: a bit 1, zeros, and the length in bits as 16 bytes, of which
-- the first 8 are zero for a text of less than 2 ^ 61 bytes.
abbrev pub standard_padding : ℕ → List ℕ
standard_padding n =
    0x80 ∷ replicate ((239 - n % 128) % 128) 0 ++ replicate 8 0 ++ big_endian 8 (8 * n)

same_padding : (n : ℕ) → (n % 128 < 112) ⊎ (120 ≤ n % 128) → padding n ≡ standard_padding n
same_padding n room =
    let zeros : (247 - n % 128) % 128 ≡ (239 - n % 128) % 128 + 8 = count room in
    ap (λ k. 0x80 ∷ replicate k 0 ++ length_bytes (8 * n % 2 ^ 64)) zeros
    ∙ ap (λ zs. 0x80 ∷ zs ++ length_bytes (8 * n % 2 ^ 64))
        (replicate-add ((239 - n % 128) % 128) 8)
    ∙ ap (λ lb. 0x80 ∷ replicate ((239 - n % 128) % 128) 0 ++ replicate 8 0 ++ lb)
        (length_bytes-big_endian (8 * n))
  where
    count : (n % 128 < 112) ⊎ (120 ≤ n % 128) → (247 - n % 128) % 128 ≡ (239 - n % 128) % 128 + 8
    count (inl low) = omega arith
    count (inr high) = omega arith

length-padding : (n : ℕ) → length (padding n) ≡ (247 - n % 128) % 128 + 9
length-padding n = omega (
  arith,
  length-append (replicate ((247 - n % 128) % 128) 0) (length_bytes (8 * n % 2 ^ 64)),
  length-replicate {A = ℕ} ((247 - n % 128) % 128) 0,
)

length-standard_padding : (n : ℕ) → length (standard_padding n) ≡ (239 - n % 128) % 128 + 17
length-standard_padding n = omega (
  arith,
  length-append (replicate ((239 - n % 128) % 128) 0 ++ replicate 8 0) (big_endian 8 (8 * n)),
  length-big_endian 8 (8 * n),
  length-append {A = ℕ} (replicate ((239 - n % 128) % 128) 0) (replicate 8 0),
  length-replicate {A = ℕ} ((239 - n % 128) % 128) 0,
)

-- The digest of a text of `n` bytes, less than 2 ^ 32, is the initial state and the compression of
-- the whole blocks of the text with its padding: a bit 1, zeros, and the length in 8 bytes. Where `n`
-- modulo 128 is less than 112 or at least 120 that is the padding of the standard; in the other cases it is one block shorter than that.
pub final_512_lem :
    (k : Kind) (array text : List ℕ)
    → length array ≡ 128
    → length text < 2 ^ 32
    → (blocks : ℕ) × (length (text ++ padding (length text)) ≡ 128 * blocks)
      × (bytes k array text
          ≡ to_string k (compress_blocks blocks (initial_state k) (text ++ padding (length text))))
      × ((length text % 128 < 112) ⊎ (120 ≤ length text % 128)
          → padding (length text) ≡ standard_padding (length text))
      × (112 ≤ length text % 128
          → length text % 128 < 120
          → length (standard_padding (length text)) ≡ length (padding (length text)) + 128)
final_512_lem k array text sized small =
    let (blocks, whole, digest) = digest_lem k array text sized in
    let n = length text in
    (
      blocks,
      whole,
      digest,
      same_padding n,
      λ low high. omega (arith, length-padding n, length-standard_padding n),
    )
