-- ===== src/Sha2/Blocks.antt =====
-- The digest of a text and the blocks of the text with its padding.
use zettelkasten_public_subs.Common.{
  ℕ, zero, suc, ◌+◌, ◌-◌, ◌*◌, ◌/◌, ◌%◌, ◌^◌, ◌≡◌, ◌<◌, refl, sym, ap, ◌∙◌, subst, List, [], ◌∷◌,
  ◌++◌, take, drop, replicate, length, length-append, length-take, length-drop, take-append-drop,
  length-replicate, arith,
}
use zettelkasten_public_subs.Sha2.Rounds.{State, transform, constants}
use zettelkasten_public_subs.Sha2.Roots.{
  IsInitial, CubeRoots, primes, initial_state-IsInitial, constants-CubeRoots,
}
use zettelkasten_public_subs.Sha2.{
  Kind, Context, init, update_byte, update, final_state, to_string, final, bytes, initial_state,
}
use zettelkasten_public_subs.Sha2.Stream.{absorb, Holds, init-Holds, update-Holds}
use zettelkasten_public_subs.Sha2.Padding.{
  final-padding, padding, big_endian, length-big_endian, absorb-append, absorb_block,
}

-- Blocks of 64 bytes compressed one after another.
unfoldable pub compress_blocks : ℕ → State → List ℕ → State
compress_blocks zero s bs = s
compress_blocks (suc k) s bs = compress_blocks k (transform s (take 64 bs)) (drop 64 bs)

absorb-compress_blocks :
    (k : ℕ) (s : State) (bs : List ℕ)
    → length bs ≡ 64 * k
    → absorb s [] bs ≡ (compress_blocks k s bs, [])
unfolding absorb compress_blocks
absorb-compress_blocks zero s [] e = refl
absorb-compress_blocks zero s (b ∷ bs) e = absurd (omega arith)
absorb-compress_blocks (suc k) s [] e = absurd (omega arith)
absorb-compress_blocks (suc k) s (b ∷ bs) e =
    let all = b ∷ bs in
    ap (absorb s []) (sym (take-append-drop 64 all))
    ∙ absorb-append s [] (take 64 all) (drop 64 all)
    ∙ ap (λ r. absorb r.0 r.1 (drop 64 all))
        (absorb_block s [] b (take 63 bs) (omega (arith, length-take 63 bs)))
    ∙ absorb-compress_blocks k (transform s (take 64 all)) (drop 64 all)
        (omega (arith, length-drop 64 all))

pub update-kind : (bs : List ℕ) (ctx : Context) → (update bs ctx).kind ≡ ctx.kind
unfolding update update_byte
update-kind [] ctx = refl
update-kind (b ∷ bs) ctx = update-kind bs (update_byte b ctx) ∙ ground arith

-- For a text of less than 2 ^ 32 bytes, whatever the array held at first: the padding of the standard
-- makes whole blocks of it, and its digest is the text of the state after the compression of these
-- blocks by `transform`, one after another, from the initial state of the standard. The round constants
-- of `transform` are those of the standard, bits of cube roots.
pub final_lem :
    (k : Kind) (array text : List ℕ)
    → length array ≡ 64
    → length text < 2 ^ 32
    → (start : State) × IsInitial k start
      × CubeRoots (2 ^ 96) primes constants
      × (blocks : ℕ) × (length (text ++ padding (length text)) ≡ 64 * blocks)
      × (bytes k array text
          ≡ to_string k (compress_blocks blocks start (text ++ padding (length text))))
unfolding bytes final init
final_lem k array text sized small = (
  initial_state k,
  initial_state-IsInitial k,
  constants-CubeRoots,
  blocks,
  whole,
  ap (λ j. to_string j (final_state ctx)) (update-kind text (init k array) ∙ init_kind)
      ∙ ap (λ r. to_string k r.0) (sym (all ∙ padded))
      ∙ ap (λ r. to_string k r.0)
          (absorb-compress_blocks blocks (initial_state k) (text ++ padding n) whole),
)
  where
    n : ℕ
    n = length text

    ctx : Context
    ctx = update text (init k array)

    blocks : ℕ
    blocks = (n + 9 + (119 - n % 64) % 64) / 64

    whole : length (text ++ padding n) ≡ 64 * blocks
    whole = omega (
      arith,
      length-append text (padding n),
      length-append (replicate ((119 - n % 64) % 64) 0) (big_endian 8 (8 * n)),
      length-big_endian 8 (8 * n),
      length-replicate {A = ℕ} ((119 - n % 64) % 64) 0,
    )

    init_kind : (init k array).kind ≡ k
    init_kind = refl

    taken : (r : State × List ℕ) × (absorb (initial_state k) [] text ≡ r) × Holds ctx r.0 r.1 n
    taken =
        let (r, e, h) =
          update-Holds text (init k array) (initial_state k) [] 0 (init-Holds k array sized) in
        (r, e, subst (Holds ctx r.0 r.1) (omega arith) h)

    all : absorb (initial_state k) [] (text ++ padding n) ≡ absorb taken.0.0 taken.0.1 (padding n)
    all =
        absorb-append (initial_state k) [] text (padding n)
        ∙ ap (λ r. absorb r.0 r.1 (padding n)) taken.1

    padded : absorb taken.0.0 taken.0.1 (padding n) ≡ (final_state ctx, [])
    padded = final-padding ctx taken.0.0 taken.0.1 n taken.2
