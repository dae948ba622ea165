-- ===== src/Sha2/Rounds.antt =====
-- The compression of one block, `sha224_256_transform`.
use zettelkasten_public_subs.Common.{
  ℕ, zero, suc, ◌+◌, ◌-◌, ◌*◌, ◌/◌, ◌%◌, ◌^◌, List, [], ◌∷◌, ◌++◌, get_or,
}
use Prim.Native.Nat.{bit_and, bit_xor}

-- The eight words of `state`.
abbrev pub State : Type 0
State = List ℕ

abbrev pub constants : List ℕ
constants =
    0x428a2f98 ∷ 0x71374491 ∷ 0xb5c0fbcf ∷ 0xe9b5dba5 ∷ 0x3956c25b ∷ 0x59f111f1 ∷ 0x923f82a4
    ∷ 0xab1c5ed5 ∷ 0xd807aa98 ∷ 0x12835b01 ∷ 0x243185be ∷ 0x550c7dc3 ∷ 0x72be5d74 ∷ 0x80deb1fe
    ∷ 0x9bdc06a7 ∷ 0xc19bf174 ∷ 0xe49b69c1 ∷ 0xefbe4786 ∷ 0x0fc19dc6 ∷ 0x240ca1cc ∷ 0x2de92c6f
    ∷ 0x4a7484aa ∷ 0x5cb0a9dc ∷ 0x76f988da ∷ 0x983e5152 ∷ 0xa831c66d ∷ 0xb00327c8 ∷ 0xbf597fc7
    ∷ 0xc6e00bf3 ∷ 0xd5a79147 ∷ 0x06ca6351 ∷ 0x14292967 ∷ 0x27b70a85 ∷ 0x2e1b2138 ∷ 0x4d2c6dfc
    ∷ 0x53380d13 ∷ 0x650a7354 ∷ 0x766a0abb ∷ 0x81c2c92e ∷ 0x92722c85 ∷ 0xa2bfe8a1 ∷ 0xa81a664b
    ∷ 0xc24b8b70 ∷ 0xc76c51a3 ∷ 0xd192e819 ∷ 0xd6990624 ∷ 0xf40e3585 ∷ 0x106aa070 ∷ 0x19a4c116
    ∷ 0x1e376c08 ∷ 0x2748774c ∷ 0x34b0bcb5 ∷ 0x391c0cb3 ∷ 0x4ed8aa4a ∷ 0x5b9cca4f ∷ 0x682e6ff3
    ∷ 0x748f82ee ∷ 0x78a5636f ∷ 0x84c87814 ∷ 0x8cc70208 ∷ 0x90befffa ∷ 0xa4506ceb ∷ 0xbef9a3f7
    ∷ 0xc67178f2 ∷ []

-- The instruction `rorl`, for a count from 1 to 31.
unfoldable pub rotate_right : ℕ → ℕ → ℕ
rotate_right value count = value / 2 ^ count + value % 2 ^ count * 2 ^ (32 - count)

unfoldable pub shift_right : ℕ → ℕ → ℕ
shift_right value count = value / 2 ^ count

-- `~` on a word.
abbrev pub bit_not : ℕ → ℕ
bit_not w = 2 ^ 32 - 1 - w

-- The big-endian words of a block. The bytes do not overlap, so `|` is a sum.
unfoldable pub words : ℕ → List ℕ → List ℕ
words zero bs = []
words (suc i) (a ∷ b ∷ c ∷ d ∷ bs) = (a * 2 ^ 24 + b * 2 ^ 16 + c * 2 ^ 8 + d) ∷ words i bs
words (suc i) _ = []

abbrev sigma0 : ℕ → ℕ
sigma0 w = bit_xor (bit_xor (rotate_right w 7) (rotate_right w 18)) (shift_right w 3)

abbrev sigma1 : ℕ → ℕ
sigma1 w = bit_xor (bit_xor (rotate_right w 17) (rotate_right w 19)) (shift_right w 10)

-- The loop that extends `padded_chunk`; `i` is the length of the list.
unfoldable pub extend : ℕ → ℕ → List ℕ → List ℕ
extend zero i chunk = chunk
extend (suc k) i chunk =
    let w =
      (get_or chunk (i - 16) 0
        + sigma0 (get_or chunk (i - 15) 0)
        + get_or chunk (i - 7) 0
        + sigma1 (get_or chunk (i - 2) 0))
      % 2 ^ 32 in
    extend k (i + 1) (chunk ++ w ∷ [])

-- The variables `vars[0]` to `vars[7]`.
pub record Vars : Type 0 where
  pub v0 : ℕ
  pub v1 : ℕ
  pub v2 : ℕ
  pub v3 : ℕ
  pub v4 : ℕ
  pub v5 : ℕ
  pub v6 : ℕ
  pub v7 : ℕ

unfoldable pub round : ℕ → ℕ → Vars → Vars
round constant word v =
    let big1 =
      bit_xor (bit_xor (rotate_right v.v4 6) (rotate_right v.v4 11)) (rotate_right v.v4 25) in
    let choice = bit_xor (bit_and v.v4 v.v5) (bit_and (bit_not v.v4) v.v6) in
    let sum0 = (v.v7 + big1 + choice + constant + word) % 2 ^ 32 in
    let big0 =
      bit_xor (bit_xor (rotate_right v.v0 2) (rotate_right v.v0 13)) (rotate_right v.v0 22) in
    let majority = bit_xor (bit_xor (bit_and v.v0 v.v1) (bit_and v.v0 v.v2)) (bit_and v.v1 v.v2) in
    let sum1 = (big0 + majority) % 2 ^ 32 in
    record {
      v0 = (sum0 + sum1) % 2 ^ 32;
      v1 = v.v0;
      v2 = v.v1;
      v3 = v.v2;
      v4 = (v.v3 + sum0) % 2 ^ 32;
      v5 = v.v4;
      v6 = v.v5;
      v7 = v.v6;
    }

unfoldable pub rounds : List ℕ → List ℕ → Vars → Vars
rounds [] chunk v = v
rounds (c ∷ cs) [] v = v
rounds (c ∷ cs) (w ∷ ws) v = rounds cs ws (round c w v)

abbrev pub vars_of : State → Vars
vars_of s = record {
  v0 = get_or s 0 0;
  v1 = get_or s 1 0;
  v2 = get_or s 2 0;
  v3 = get_or s 3 0;
  v4 = get_or s 4 0;
  v5 = get_or s 5 0;
  v6 = get_or s 6 0;
  v7 = get_or s 7 0;
}

unfoldable pub add_vars : State → Vars → State
add_vars s v =
    (get_or s 0 0 + v.v0) % 2 ^ 32
    ∷ (get_or s 1 0 + v.v1) % 2 ^ 32
    ∷ (get_or s 2 0 + v.v2) % 2 ^ 32
    ∷ (get_or s 3 0 + v.v3) % 2 ^ 32
    ∷ (get_or s 4 0 + v.v4) % 2 ^ 32
    ∷ (get_or s 5 0 + v.v5) % 2 ^ 32
    ∷ (get_or s 6 0 + v.v6) % 2 ^ 32
    ∷ (get_or s 7 0 + v.v7) % 2 ^ 32
    ∷ []

unfoldable pub transform : State → List ℕ → State
transform s buffer = add_vars s (rounds constants (extend 48 16 (words 16 buffer)) (vars_of s))
