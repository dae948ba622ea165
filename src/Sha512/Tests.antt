-- ===== src/Sha512/Tests.antt =====
-- The digest of a small text.
use zettelkasten_public_subs.Common.{
  ℕ, ◌+◌, ◌*◌, ◌%◌, ◌≡◌, ◌≤◌, ◌<◌, ◌⊎◌, refl, List, [], ◌∷◌, ◌++◌, replicate, length, arith,
}
use zettelkasten_public_subs.Sha512.Rounds.{
  transform, words, extend, round, rounds, rotate_right, shift_right, add_vars,
}
use zettelkasten_public_subs.Sha512.{
  sha384, sha512, init, update_byte, update, pad_end, final_state, to_string, bytes, initial_state,
}
use zettelkasten_public_subs.Sha512.Padding.{padding}
use zettelkasten_public_subs.Sha512.Blocks.{compress_blocks, standard_padding, final_512_lem}

abbrev text : List ℕ
text = 97 ∷ 98 ∷ 99 ∷ []

-- SHA-512 of `abc`.
abc :
    final_state (update text (init sha512 (replicate 128 0)))
    ≡ 0xddaf35a193617aba ∷ 0xcc417349ae204131 ∷ 0x12e6fa4e89a97ea2 ∷ 0x0a9eeee64b55d39a
      ∷ 0x2192992a274fc1a8 ∷ 0x36ba3c23a3feebbd ∷ 0x454d4423643ce80e ∷ 0x2a9ac94fa54ca49f ∷ []
unfolding final_state update update_byte init pad_end transform words extend round rounds
    rotate_right shift_right add_vars
abc = refl

final_512_lem_example :
    (blocks : ℕ) × (length (text ++ padding (length text)) ≡ 128 * blocks)
    × (bytes sha384 (replicate 128 0) text
        ≡ to_string sha384
            (compress_blocks blocks (initial_state sha384) (text ++ padding (length text))))
    × ((length text % 128 < 112) ⊎ (120 ≤ length text % 128)
        → padding (length text) ≡ standard_padding (length text))
    × (112 ≤ length text % 128
        → length text % 128 < 120
        → length (standard_padding (length text)) ≡ length (padding (length text)) + 128)
final_512_lem_example = final_512_lem sha384 (replicate 128 0) text refl (omega arith)
