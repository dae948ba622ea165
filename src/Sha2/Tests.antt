-- ===== src/Sha2/Tests.antt =====
-- The digests of small texts.
use zettelkasten_public_subs.Common.{
  ℕ, ◌*◌, ◌^◌, ◌≡◌, arith, refl, List, [], ◌∷◌, ◌++◌, replicate, length,
}
use zettelkasten_public_subs.Sha2.Rounds.{
  transform, words, extend, round, rounds, rotate_right, shift_right, add_vars,
}
use zettelkasten_public_subs.Sha2.Rounds.{State, constants}
use zettelkasten_public_subs.Sha2.Roots.{IsInitial, CubeRoots, primes}
use zettelkasten_public_subs.Sha2.Blocks.{compress_blocks, final_lem}
use zettelkasten_public_subs.Sha2.Padding.{padding}
use zettelkasten_public_subs.Sha2.{
  sha224, sha256, init, update_byte, update, pad_end, final_state, to_string, bytes,
}

-- SHA-256 of `abc`.
abc :
    final_state (update (97 ∷ 98 ∷ 99 ∷ []) (init sha256 (replicate 64 0)))
    ≡ 0xba7816bf ∷ 0x8f01cfea ∷ 0x414140de ∷ 0x5dae2223 ∷ 0xb00361a3 ∷ 0x96177a9c ∷ 0xb410ff61
      ∷ 0xf20015ad ∷ []
unfolding final_state update update_byte init pad_end transform words extend round rounds
    rotate_right shift_right add_vars
abc = refl

abbrev text : List ℕ
text = 97 ∷ 98 ∷ 99 ∷ []

final_lem_example :
    (start : State) × IsInitial sha224 start
    × CubeRoots (2 ^ 96) primes constants
    × (blocks : ℕ) × (length (text ++ padding (length text)) ≡ 64 * blocks)
    × (bytes sha224 (replicate 64 0) text
        ≡ to_string sha224 (compress_blocks blocks start (text ++ padding (length text))))
final_lem_example = final_lem sha224 (replicate 64 0) text refl (omega arith)
