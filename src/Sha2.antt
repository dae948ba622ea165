-- ===== src/Sha2.antt =====
-- SHA-224 and SHA-256 of 2022-03-19-SHA2/sha224_256.hpp. A byte is a number below 2 ^ 8, a word one
-- below 2 ^ 32; sums of words wrap around. `data` is the array of 64 bytes; what it holds at first is
-- not specified, so `init` takes it. A text that `update` is given has less than 2 ^ 32 bytes, since its
-- counter is a `uint32_t`. A string of the digest is the list of its characters. Not
-- modelled: the reading of a file, which calls `update` for each part that was read.
pub mod Rounds
pub mod Stream
pub mod Padding
pub mod Roots
pub mod Blocks
pub mod Digest
pub mod Tests
use zettelkasten_public_subs.Common.{
  ℕ, zero, suc, ◌+◌, ◌-◌, ◌*◌, ◌/◌, ◌%◌, ◌^◌, Bool, true, false, List, [], ◌∷◌, ◌++◌, ltb, ◌==◌,
  if◌then◌else◌, set, take, drop, replicate, length,
}
use Rounds.{State, transform}

pub data Kind : Type 0 where
  sha224 : Kind
  sha256 : Kind

pub record Context : Type 0 where
  pub data_ : List ℕ
  pub data_length : ℕ
  pub bit_length : ℕ
  pub state : State
  pub kind : Kind

abbrev pub initial_state : Kind → State
initial_state sha256 =
    0x6a09e667 ∷ 0xbb67ae85 ∷ 0x3c6ef372 ∷ 0xa54ff53a ∷ 0x510e527f ∷ 0x9b05688c ∷ 0x1f83d9ab
    ∷ 0x5be0cd19 ∷ []
initial_state sha224 =
    0xc1059ed8 ∷ 0x367cd507 ∷ 0x3070dd17 ∷ 0xf70e5939 ∷ 0xffc00b31 ∷ 0x68581511 ∷ 0x64f98fa7
    ∷ 0xbefa4fa4 ∷ []

-- `sha224_init` and `sha256_init`
unfoldable pub init : Kind → List ℕ → Context
init k array = record {
  data_ = array;
  data_length = 0;
  bit_length = 0;
  state = initial_state k;
  kind = k;
}

-- One round of the loop of `sha224_256_update`.
unfoldable pub update_byte : ℕ → Context → Context
update_byte b ctx =
    let array = set ctx.data_ ctx.data_length b in
    if ctx.data_length + 1 == 64
    then record ctx {
      data_ = array;
      state = transform ctx.state array;
      bit_length = (ctx.bit_length + 512) % 2 ^ 64;
      data_length = 0;
    }
    else record ctx { data_ = array; data_length = ctx.data_length + 1 }

unfoldable pub update : List ℕ → Context → Context
update [] ctx = ctx
update (b ∷ bs) ctx = update bs (update_byte b ctx)

-- `memset` and other writes of `bs` from position `i` on.
abbrev pub write_at : List ℕ → ℕ → List ℕ → List ℕ
write_at array i bs = take i array ++ bs ++ drop (i + length bs) array

-- The eight bytes of the length, the highest first.
abbrev pub length_bytes : ℕ → List ℕ
length_bytes n =
    n / 2 ^ 56 % 256
    ∷ n / 2 ^ 48 % 256
    ∷ n / 2 ^ 40 % 256
    ∷ n / 2 ^ 32 % 256
    ∷ n / 2 ^ 24 % 256
    ∷ n / 2 ^ 16 % 256
    ∷ n / 2 ^ 8 % 256
    ∷ n % 256
    ∷ []

-- `sha224_256_final` up to the last `transform`: the state, and the array before it.
unfoldable pub pad_end : Context → State × List ℕ
pad_end ctx =
    let n = ctx.data_length in
    let ended = set ctx.data_ n 0x80 in
    if ltb n 56 then (ctx.state, write_at ended (n + 1) (replicate (56 - (n + 1)) 0)) else (
      transform ctx.state (write_at ended (n + 1) (replicate (64 - (n + 1)) 0)),
      write_at (write_at ended (n + 1) (replicate (64 - (n + 1)) 0)) 0 (replicate 56 0),
    )

unfoldable pub final_state : Context → State
final_state ctx =
    let r = pad_end ctx in
    let bits = (ctx.bit_length + ctx.data_length * 8 % 2 ^ 32) % 2 ^ 64 in
    transform r.0 (write_at r.1 56 (length_bytes bits))

-- The alphabet is `0123456789abcdef`.
abbrev pub hex_digit : ℕ → ℕ
hex_digit n = if ltb n 10 then 48 + n else 87 + n

abbrev pub hex_byte : ℕ → List ℕ
hex_byte b = hex_digit (b / 16) ∷ hex_digit (b % 16) ∷ []

abbrev pub hex_word : ℕ → List ℕ
hex_word w =
    hex_byte (w / 2 ^ 24 % 256)
    ++ hex_byte (w / 2 ^ 16 % 256)
    ++ hex_byte (w / 2 ^ 8 % 256)
    ++ hex_byte (w % 256)

unfoldable pub hex_words : List ℕ → List ℕ
hex_words [] = []
hex_words (w ∷ ws) = hex_word w ++ hex_words ws

abbrev pub words_of : Kind → ℕ
words_of sha256 = 8
words_of sha224 = 7

-- `sha224_256_to_string`
unfoldable pub to_string : Kind → State → List ℕ
to_string k s = hex_words (take (words_of k) s)

unfoldable pub final : Context → List ℕ
final ctx = to_string ctx.kind (final_state ctx)

-- `sha224_bytes` and `sha256_bytes`
unfoldable pub bytes : Kind → List ℕ → List ℕ → List ℕ
bytes k array buffer = final (update buffer (init k array))
