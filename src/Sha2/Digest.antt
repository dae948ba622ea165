-- ===== src/Sha2/Digest.antt =====
-- The string of a digest.
use zettelkasten_public_subs.Common.{
  ℕ, ◌*◌, ◌/◌, ◌%◌, ◌^◌, ◌≡◌, ◌≤◌, ◌<◌, ◌⊎◌, refl, ap, ◌∙◌, List, [], ◌∷◌, ◌++◌, take, length,
  length-append, length-take, arith,
}
use zettelkasten_public_subs.Sha2.Rounds.{transform, add_vars}
use zettelkasten_public_subs.Sha2.Blocks.{update-kind}
use zettelkasten_public_subs.Sha2.{
  Kind, sha224, sha256, Context, init, update, final_state, to_string, final, bytes, hex_digit,
  hex_byte, hex_word, hex_words, words_of,
}

-- Characters from `0` to `9` and from `a` to `f`.
abbrev pub AllHex : List ℕ → Type 0
AllHex [] = Unit
AllHex (c ∷ cs) = ((48 ≤ c) × (c ≤ 57) ⊎ (97 ≤ c) × (c ≤ 102)) × AllHex cs

AllHex-append : (cs ds : List ℕ) → AllHex cs → AllHex ds → AllHex (cs ++ ds)
AllHex-append [] ds h k = k
AllHex-append (c ∷ cs) ds h k = (h.0, AllHex-append cs ds h.1 k)

digit :
    (n : ℕ)
    → n < 16
    → (48 ≤ hex_digit n) × (hex_digit n ≤ 57) ⊎ (97 ≤ hex_digit n) × (hex_digit n ≤ 102)
digit n small = ground arith

byte-AllHex : (b : ℕ) → b < 256 → AllHex (hex_byte b)
byte-AllHex b small = (digit (b / 16) (omega arith), (digit (b % 16) (omega arith), tt))

word-AllHex : (w : ℕ) → AllHex (hex_word w)
word-AllHex w =
    let a = byte-AllHex (w / 2 ^ 24 % 256) (omega arith) in
    let b = byte-AllHex (w / 2 ^ 16 % 256) (omega arith) in
    let c = byte-AllHex (w / 2 ^ 8 % 256) (omega arith) in
    let d = byte-AllHex (w % 256) (omega arith) in (a.0, (a.1.0, (b.0, (b.1.0, (c.0, (c.1.0, d))))))

hex_words-AllHex : (ws : List ℕ) → AllHex (hex_words ws)
unfolding hex_words
hex_words-AllHex [] = tt
hex_words-AllHex (w ∷ ws) =
    AllHex-append (hex_word w) (hex_words ws) (word-AllHex w) (hex_words-AllHex ws)

length-hex_words : (ws : List ℕ) → length (hex_words ws) ≡ 8 * length ws
unfolding hex_words
length-hex_words [] = refl
length-hex_words (w ∷ ws) =
    omega (arith, length-append (hex_word w) (hex_words ws), length-hex_words ws)

length-final_state : (ctx : Context) → length (final_state ctx) ≡ 8
unfolding final_state transform add_vars
length-final_state ctx = refl

-- The string of a digest has 56 characters for SHA-224 and 64 for SHA-256, all hexadecimal digits.
pub digest_string :
    (k : Kind) (array text : List ℕ)
    → (length (bytes k array text) ≡ 8 * words_of k) × AllHex (bytes k array text)
unfolding bytes final to_string init
digest_string k array text =
    let ctx = update text (init k array) in
    (
      length-hex_words (take (words_of ctx.kind) (final_state ctx))
          ∙ omega (
            arith,
            length-take (words_of ctx.kind) (final_state ctx),
            length-final_state ctx,
            few ctx.kind,
          )
          ∙ ap (λ j. 8 * words_of j) (update-kind text (init k array)),
      hex_words-AllHex (take (words_of ctx.kind) (final_state ctx)),
    )
  where
    few : (j : Kind) → words_of j ≤ 8
    few sha256 = omega arith
    few sha224 = omega arith
