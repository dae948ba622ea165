-- ===== src/Sha512.antt =====
-- SHA-384 and SHA-512 of 2022-03-19-SHA2/sha384_512.hpp, the code of SHA-224 and SHA-256 with words
-- of 64 bits and blocks of 128 bytes. A text that `update` is given has less than 2 ^ 32 bytes, since
-- its counter is a `uint32_t`. Not modelled: the functions on files.
pub mod Rounds
pub mod Stream
pub mod Padding
pub mod Blocks
pub mod Tests
use zettelkasten_public_subs.Common.{
  ℕ, zero, suc, ◌+◌, ◌-◌, ◌*◌, ◌/◌, ◌%◌, ◌^◌, Bool, true, false, List, [], ◌∷◌, ◌++◌, ltb, ◌==◌,
  if◌then◌else◌, set, take, drop, replicate, length,
}
use zettelkasten_public_subs.Sha2.{write_at, length_bytes, hex_byte}
use zettelkasten_public_subs.Sha2.Rounds.{State}
use Rounds.{transform}

pub data Kind : Type 0 where
  sha384 : Kind
  sha512 : Kind

pub record Context : Type 0 where
  pub data_ : List ℕ
  pub data_length : ℕ
  pub bit_length : ℕ
  pub state : State
  pub kind : Kind

abbrev pub initial_state : Kind → State
initial_state sha512 =
    0x6a09e667f3bcc908 ∷ 0xbb67ae8584caa73b ∷ 0x3c6ef372fe94f82b ∷ 0xa54ff53a5f1d36f1
    ∷ 0x510e527fade682d1 ∷ 0x9b05688c2b3e6c1f ∷ 0x1f83d9abfb41bd6b ∷ 0x5be0cd19137e2179 ∷ []
initial_state sha384 =
    0xcbbb9d5dc1059ed8 ∷ 0x629a292a367cd507 ∷ 0x9159015a3070dd17 ∷ 0x152fecd8f70e5939
    ∷ 0x67332667ffc00b31 ∷ 0x8eb44a8768581511 ∷ 0xdb0c2e0d64f98fa7 ∷ 0x47b5481dbefa4fa4 ∷ []

-- `sha384_init` and `sha512_init`
unfoldable pub init : Kind → List ℕ → Context
init k array = record {
  data_ = array;
  data_length = 0;
  bit_length = 0;
  state = initial_state k;
  kind = k;
}

-- One round of the loop of `sha384_512_update`.
unfoldable pub update_byte : ℕ → Context → Context
update_byte b ctx =
    let array = set ctx.data_ ctx.data_length b in
    if ctx.data_length + 1 == 128
    then record ctx {
      data_ = array;
      state = transform ctx.state array;
      bit_length = (ctx.bit_length + 1024) % 2 ^ 64;
      data_length = 0;
    }
    else record ctx { data_ = array; data_length = ctx.data_length + 1 }

unfoldable pub update : List ℕ → Context → Context
update [] ctx = ctx
update (b ∷ bs) ctx = update bs (update_byte b ctx)

-- `sha384_512_final` up to the last `transform`: the state, and the array before it.
unfoldable pub pad_end : Context → State × List ℕ
pad_end ctx =
    let n = ctx.data_length in
    let ended = set ctx.data_ n 0x80 in
    if ltb n 120 then (ctx.state, write_at ended (n + 1) (replicate (120 - (n + 1)) 0)) else (
      transform ctx.state (write_at ended (n + 1) (replicate (128 - (n + 1)) 0)),
      write_at (write_at ended (n + 1) (replicate (128 - (n + 1)) 0)) 0 (replicate 120 0),
    )

unfoldable pub final_state : Context → State
final_state ctx =
    let r = pad_end ctx in
    let bits = (ctx.bit_length + ctx.data_length * 8 % 2 ^ 32) % 2 ^ 64 in
    transform r.0 (write_at r.1 120 (length_bytes bits))

abbrev pub hex_word : ℕ → List ℕ
hex_word w =
    hex_byte (w / 2 ^ 56 % 256)
    ++ hex_byte (w / 2 ^ 48 % 256)
    ++ hex_byte (w / 2 ^ 40 % 256)
    ++ hex_byte (w / 2 ^ 32 % 256)
    ++ hex_byte (w / 2 ^ 24 % 256)
    ++ hex_byte (w / 2 ^ 16 % 256)
    ++ hex_byte (w / 2 ^ 8 % 256)
    ++ hex_byte (w % 256)

unfoldable pub hex_words : List ℕ → List ℕ
hex_words [] = []
hex_words (w ∷ ws) = hex_word w ++ hex_words ws

abbrev pub words_of : Kind → ℕ
words_of sha512 = 8
words_of sha384 = 6

-- `sha384_512_to_string`
unfoldable pub to_string : Kind → State → List ℕ
to_string k s = hex_words (take (words_of k) s)

unfoldable pub final : Context → List ℕ
final ctx = to_string ctx.kind (final_state ctx)

-- `sha384_bytes` and `sha512_bytes`
unfoldable pub bytes : Kind → List ℕ → List ℕ → List ℕ
bytes k array buffer = final (update buffer (init k array))
