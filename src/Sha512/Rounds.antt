-- ===== src/Sha512/Rounds.antt =====
-- The compression of one block, `sha384_512_transform`.
use zettelkasten_public_subs.Common.{
  ℕ, zero, suc, ◌+◌, ◌-◌, ◌*◌, ◌/◌, ◌%◌, ◌^◌, List, [], ◌∷◌, ◌++◌, get_or,
}
use Prim.Native.Nat.{bit_and, bit_xor}
use zettelkasten_public_subs.Sha2.Rounds.{State, Vars, vars_of}

abbrev pub constants : List ℕ
constants =
    0x428a2f98d728ae22 ∷ 0x7137449123ef65cd ∷ 0xb5c0fbcfec4d3b2f ∷ 0xe9b5dba58189dbbc
    ∷ 0x3956c25bf348b538 ∷ 0x59f111f1b605d019 ∷ 0x923f82a4af194f9b ∷ 0xab1c5ed5da6d8118
    ∷ 0xd807aa98a3030242 ∷ 0x12835b0145706fbe ∷ 0x243185be4ee4b28c ∷ 0x550c7dc3d5ffb4e2
    ∷ 0x72be5d74f27b896f ∷ 0x80deb1fe3b1696b1 ∷ 0x9bdc06a725c71235 ∷ 0xc19bf174cf692694
    ∷ 0xe49b69c19ef14ad2 ∷ 0xefbe4786384f25e3 ∷ 0x0fc19dc68b8cd5b5 ∷ 0x240ca1cc77ac9c65
    ∷ 0x2de92c6f592b0275 ∷ 0x4a7484aa6ea6e483 ∷ 0x5cb0a9dcbd41fbd4 ∷ 0x76f988da831153b5
    ∷ 0x983e5152ee66dfab ∷ 0xa831c66d2db43210 ∷ 0xb00327c898fb213f ∷ 0xbf597fc7beef0ee4
    ∷ 0xc6e00bf33da88fc2 ∷ 0xd5a79147930aa725 ∷ 0x06ca6351e003826f ∷ 0x142929670a0e6e70
    ∷ 0x27b70a8546d22ffc ∷ 0x2e1b21385c26c926 ∷ 0x4d2c6dfc5ac42aed ∷ 0x53380d139d95b3df
    ∷ 0x650a73548baf63de ∷ 0x766a0abb3c77b2a8 ∷ 0x81c2c92e47edaee6 ∷ 0x92722c851482353b
    ∷ 0xa2bfe8a14cf10364 ∷ 0xa81a664bbc423001 ∷ 0xc24b8b70d0f89791 ∷ 0xc76c51a30654be30
    ∷ 0xd192e819d6ef5218 ∷ 0xd69906245565a910 ∷ 0xf40e35855771202a ∷ 0x106aa07032bbd1b8
    ∷ 0x19a4c116b8d2d0c8 ∷ 0x1e376c085141ab53 ∷ 0x2748774cdf8eeb99 ∷ 0x34b0bcb5e19b48a8
    ∷ 0x391c0cb3c5c95a63 ∷ 0x4ed8aa4ae3418acb ∷ 0x5b9cca4f7763e373 ∷ 0x682e6ff3d6b2b8a3
    ∷ 0x748f82ee5defb2fc ∷ 0x78a5636f43172f60 ∷ 0x84c87814a1f0ab72 ∷ 0x8cc702081a6439ec
    ∷ 0x90befffa23631e28 ∷ 0xa4506cebde82bde9 ∷ 0xbef9a3f7b2c67915 ∷ 0xc67178f2e372532b
    ∷ 0xca273eceea26619c ∷ 0xd186b8c721c0c207 ∷ 0xeada7dd6cde0eb1e ∷ 0xf57d4f7fee6ed178
    ∷ 0x06f067aa72176fba ∷ 0x0a637dc5a2c898a6 ∷ 0x113f9804bef90dae ∷ 0x1b710b35131c471b
    ∷ 0x28db77f523047d84 ∷ 0x32caab7b40c72493 ∷ 0x3c9ebe0a15c9bebc ∷ 0x431d67c49c100d4c
    ∷ 0x4cc5d4becb3e42b6 ∷ 0x597f299cfc657e2a ∷ 0x5fcb6fab3ad6faec ∷ 0x6c44198c4a475817 ∷ []

-- The instruction `ror`, for a count from 1 to 63.
unfoldable pub rotate_right : ℕ → ℕ → ℕ
rotate_right value count = value / 2 ^ count + value % 2 ^ count * 2 ^ (64 - count)

unfoldable pub shift_right : ℕ → ℕ → ℕ
shift_right value count = value / 2 ^ count

-- `~` on a word.
abbrev pub bit_not : ℕ → ℕ
bit_not w = 2 ^ 64 - 1 - w

-- The big-endian words of a block. The bytes do not overlap, so `|` is a sum.
unfoldable pub words : ℕ → List ℕ → List ℕ
words zero bs = []
words (suc i) (a ∷ b ∷ c ∷ d ∷ e ∷ f ∷ g ∷ h ∷ bs) =
    (a * 2 ^ 56 + b * 2 ^ 48 + c * 2 ^ 40 + d * 2 ^ 32 + e * 2 ^ 24 + f * 2 ^ 16 + g * 2 ^ 8 + h)
    ∷ words i bs
words (suc i) _ = []

abbrev sigma0 : ℕ → ℕ
sigma0 w = bit_xor (bit_xor (rotate_right w 1) (rotate_right w 8)) (shift_right w 7)

abbrev sigma1 : ℕ → ℕ
sigma1 w = bit_xor (bit_xor (rotate_right w 19) (rotate_right w 61)) (shift_right w 6)

-- The loop that extends `padded_chunk`; `i` is the length of the list.
unfoldable pub extend : ℕ → ℕ → List ℕ → List ℕ
extend zero i chunk = chunk
extend (suc k) i chunk =
    let w =
      (get_or chunk (i - 16) 0
        + sigma0 (get_or chunk (i - 15) 0)
        + get_or chunk (i - 7) 0
        + sigma1 (get_or chunk (i - 2) 0))
      % 2 ^ 64 in
    extend k (i + 1) (chunk ++ w ∷ [])

unfoldable pub round : ℕ → ℕ → Vars → Vars
round constant word v =
    let big1 =
      bit_xor (bit_xor (rotate_right v.v4 14) (rotate_right v.v4 18)) (rotate_right v.v4 41) in
    let choice = bit_xor (bit_and v.v4 v.v5) (bit_and (bit_not v.v4) v.v6) in
    let sum0 = (v.v7 + big1 + choice + constant + word) % 2 ^ 64 in
    let big0 =
      bit_xor (bit_xor (rotate_right v.v0 28) (rotate_right v.v0 34)) (rotate_right v.v0 39) in
    let majority = bit_xor (bit_xor (bit_and v.v0 v.v1) (bit_and v.v0 v.v2)) (bit_and v.v1 v.v2) in
    let sum1 = (big0 + majority) % 2 ^ 64 in
    record {
      v0 = (sum0 + sum1) % 2 ^ 64;
      v1 = v.v0;
      v2 = v.v1;
      v3 = v.v2;
      v4 = (v.v3 + sum0) % 2 ^ 64;
      v5 = v.v4;
      v6 = v.v5;
      v7 = v.v6;
    }

unfoldable pub rounds : List ℕ → List ℕ → Vars → Vars
rounds [] chunk v = v
rounds (c ∷ cs) [] v = v
rounds (c ∷ cs) (w ∷ ws) v = rounds cs ws (round c w v)

unfoldable pub add_vars : State → Vars → State
add_vars s v =
    (get_or s 0 0 + v.v0) % 2 ^ 64
    ∷ (get_or s 1 0 + v.v1) % 2 ^ 64
    ∷ (get_or s 2 0 + v.v2) % 2 ^ 64
    ∷ (get_or s 3 0 + v.v3) % 2 ^ 64
    ∷ (get_or s 4 0 + v.v4) % 2 ^ 64
    ∷ (get_or s 5 0 + v.v5) % 2 ^ 64
    ∷ (get_or s 6 0 + v.v6) % 2 ^ 64
    ∷ (get_or s 7 0 + v.v7) % 2 ^ 64
    ∷ []

unfoldable pub transform : State → List ℕ → State
transform s buffer = add_vars s (rounds constants (extend 64 16 (words 16 buffer)) (vars_of s))
