-- ===== src/Sha2/Roots.antt =====
-- The numbers that SHA-224 and SHA-256 of 2022-03-19-SHA2/sha224_256.hpp start from: bits of the square
-- roots and of the cube roots of the first primes.
use zettelkasten_public_subs.Common.{
  ℕ, ◌+◌, ◌*◌, ◌%◌, ◌^◌, ◌≡◌, refl, true, List, [], ◌∷◌, leb, ltb,
}
use zettelkasten_public_subs.Sha2.Rounds.{State, constants}
use zettelkasten_public_subs.Sha2.{Kind, sha224, sha256, initial_state}

-- Each word is the lowest 32 bits of the square root, rounded down, of its number by `scale`.
unfoldable pub SquareRoots : ℕ → List ℕ → List ℕ → Type 0
SquareRoots scale [] [] = Unit
SquareRoots scale [] (w ∷ ws) = ⊥
SquareRoots scale (p ∷ ps) [] = ⊥
SquareRoots scale (p ∷ ps) (w ∷ ws) =
    (r : ℕ) × (leb (r * r) (p * scale) ≡ true)
    × (ltb (p * scale) ((r + 1) * (r + 1)) ≡ true)
    × (w ≡ r % 2 ^ 32)
    × SquareRoots scale ps ws

-- The same with the cube root.
unfoldable pub CubeRoots : ℕ → List ℕ → List ℕ → Type 0
CubeRoots scale [] [] = Unit
CubeRoots scale [] (w ∷ ws) = ⊥
CubeRoots scale (p ∷ ps) [] = ⊥
CubeRoots scale (p ∷ ps) (w ∷ ws) =
    (r : ℕ) × (leb (r * r * r) (p * scale) ≡ true)
    × (ltb (p * scale) ((r + 1) * (r + 1) * (r + 1)) ≡ true)
    × (w ≡ r % 2 ^ 32)
    × CubeRoots scale ps ws

abbrev pub primes : List ℕ
primes =
    2 ∷ 3 ∷ 5 ∷ 7 ∷ 11 ∷ 13 ∷ 17 ∷ 19 ∷ 23 ∷ 29 ∷ 31 ∷ 37 ∷ 41 ∷ 43 ∷ 47 ∷ 53 ∷ 59 ∷ 61 ∷ 67 ∷ 71
    ∷ 73 ∷ 79 ∷ 83 ∷ 89 ∷ 97 ∷ 101 ∷ 103 ∷ 107 ∷ 109 ∷ 113 ∷ 127 ∷ 131 ∷ 137 ∷ 139 ∷ 149 ∷ 151 ∷ 157
    ∷ 163 ∷ 167 ∷ 173 ∷ 179 ∷ 181 ∷ 191 ∷ 193 ∷ 197 ∷ 199 ∷ 211 ∷ 223 ∷ 227 ∷ 229 ∷ 233 ∷ 239 ∷ 241
    ∷ 251 ∷ 257 ∷ 263 ∷ 269 ∷ 271 ∷ 277 ∷ 281 ∷ 283 ∷ 293 ∷ 307 ∷ 311 ∷ []

-- The start of the standard: the first 32 bits behind the point of the roots of the first eight
-- primes, or the second 32 bits of those of the next eight.
abbrev pub IsInitial : Kind → State → Type 0
IsInitial sha256 s = SquareRoots (2 ^ 64) (2 ∷ 3 ∷ 5 ∷ 7 ∷ 11 ∷ 13 ∷ 17 ∷ 19 ∷ []) s
IsInitial sha224 s = SquareRoots (2 ^ 128) (23 ∷ 29 ∷ 31 ∷ 37 ∷ 41 ∷ 43 ∷ 47 ∷ 53 ∷ []) s

pub initial_state-IsInitial : (k : Kind) → IsInitial k (initial_state k)
unfolding SquareRoots
initial_state-IsInitial sha256 = (
  6074000999,
  refl,
  refl,
  refl,
  (
    7439101573,
    refl,
    refl,
    refl,
    (
      9603838834,
      refl,
      refl,
      refl,
      (
        11363415354,
        refl,
        refl,
        refl,
        (
          14244795007,
          refl,
          refl,
          refl,
          (
            15485724812,
            refl,
            refl,
            refl,
            (17708603819, refl, refl, refl, (18721328409, refl, refl, refl, tt)),
          ),
        ),
      ),
    ),
  ),
)
initial_state-IsInitial sha224 = (
  88467476731178360536,
  refl,
  refl,
  refl,
  (
    99338756991957652743,
    refl,
    refl,
    refl,
    (
      102707124263845944599,
      refl,
      refl,
      refl,
      (
        112207163657561200953,
        refl,
        refl,
        refl,
        (
          118116794080090393393,
          refl,
          refl,
          refl,
          (
            120963390236882638097,
            refl,
            refl,
            refl,
            (
              126464505871347584935,
              refl,
              refl,
              refl,
              (134294323956039700388, refl, refl, refl, tt),
            ),
          ),
        ),
      ),
    ),
  ),
)

-- The first 32 bits behind the point of the cube roots of the first 64 primes.
pub constants-CubeRoots : CubeRoots (2 ^ 96) primes constants
unfolding CubeRoots
constants-CubeRoots = (
  5411319704,
  refl,
  refl,
  refl,
  (
    6194414737,
    refl,
    refl,
    refl,
    (
      7344290767,
      refl,
      refl,
      refl,
      (
        8215976869,
        refl,
        refl,
        refl,
        (
          9551921755,
          refl,
          refl,
          refl,
          (
            10098905585,
            refl,
            refl,
            refl,
            (
              11043570340,
              refl,
              refl,
              refl,
              (
                11460697813,
                refl,
                refl,
                refl,
                (
                  12214315672,
                  refl,
                  refl,
                  refl,
                  (
                    13195500289,
                    refl,
                    refl,
                    refl,
                    (
                      13492127166,
                      refl,
                      refl,
                      refl,
                      (
                        14311783875,
                        refl,
                        refl,
                        refl,
                        (
                          14809980276,
                          refl,
                          refl,
                          refl,
                          (
                            15046980094,
                            refl,
                            refl,
                            refl,
                            (
                              15499789991,
                              refl,
                              refl,
                              refl,
                              (
                                16133124468,
                                refl,
                                refl,
                                refl,
                                (
                                  16720292289,
                                  refl,
                                  refl,
                                  refl,
                                  (
                                    16907126662,
                                    refl,
                                    refl,
                                    refl,
                                    (
                                      17444216262,
                                      refl,
                                      refl,
                                      refl,
                                      (
                                        17784676812,
                                        refl,
                                        refl,
                                        refl,
                                        (
                                          17950125167,
                                          refl,
                                          refl,
                                          refl,
                                          (
                                            18429019306,
                                            refl,
                                            refl,
                                            refl,
                                            (
                                              18734950876,
                                              refl,
                                              refl,
                                              refl,
                                              (
                                                19175934170,
                                                refl,
                                                refl,
                                                refl,
                                                (
                                                  19734090066,
                                                  refl,
                                                  refl,
                                                  refl,
                                                  (
                                                    20001703533,
                                                    refl,
                                                    refl,
                                                    refl,
                                                    (
                                                      20132865992,
                                                      refl,
                                                      refl,
                                                      refl,
                                                      (
                                                        20390182855,
                                                        refl,
                                                        refl,
                                                        refl,
                                                        (
                                                          20516441075,
                                                          refl,
                                                          refl,
                                                          refl,
                                                          (
                                                            20764397895,
                                                            refl,
                                                            refl,
                                                            refl,
                                                            (
                                                            21588763473,
                                                            refl,
                                                            refl,
                                                            refl,
                                                            (
                                                            21813078375,
                                                            refl,
                                                            refl,
                                                            refl,
                                                            (
                                                            22141143685,
                                                            refl,
                                                            refl,
                                                            refl,
                                                            (
                                                            22248366392,
                                                            refl,
                                                            refl,
                                                            refl,
                                                            (
                                                            22769593852,
                                                            refl,
                                                            refl,
                                                            refl,
                                                            (
                                                            22871018771,
                                                            refl,
                                                            refl,
                                                            refl,
                                                            (
                                                            23170020180,
                                                            refl,
                                                            refl,
                                                            refl,
                                                            (
                                                            23461497531,
                                                            refl,
                                                            refl,
                                                            refl,
                                                            (
                                                            23651862830,
                                                            refl,
                                                            refl,
                                                            refl,
                                                            (
                                                            23931792517,
                                                            refl,
                                                            refl,
                                                            refl,
                                                            (
                                                            24205322401,
                                                            refl,
                                                            refl,
                                                            refl,
                                                            (
                                                            24295138891,
                                                            refl,
                                                            refl,
                                                            refl,
                                                            (
                                                            24734567280,
                                                            refl,
                                                            refl,
                                                            refl,
                                                            (
                                                            24820601251,
                                                            refl,
                                                            refl,
                                                            refl,
                                                            (
                                                            24990902297,
                                                            refl,
                                                            refl,
                                                            refl,
                                                            (
                                                            25075189284,
                                                            refl,
                                                            refl,
                                                            refl,
                                                            (
                                                            25569408389,
                                                            refl,
                                                            refl,
                                                            refl,
                                                            (
                                                            26045227120,
                                                            refl,
                                                            refl,
                                                            refl,
                                                            (
                                                            26200031510,
                                                            refl,
                                                            refl,
                                                            refl,
                                                            (
                                                            26276752392,
                                                            refl,
                                                            refl,
                                                            refl,
                                                            (
                                                            26428864332,
                                                            refl,
                                                            refl,
                                                            refl,
                                                            (
                                                            26653801653,
                                                            refl,
                                                            refl,
                                                            refl,
                                                            (
                                                            26727943347,
                                                            refl,
                                                            refl,
                                                            refl,
                                                            (
                                                            27092625994,
                                                            refl,
                                                            refl,
                                                            refl,
                                                            (
                                                            27306805839,
                                                            refl,
                                                            refl,
                                                            refl,
                                                            (
                                                            27517677555,
                                                            refl,
                                                            refl,
                                                            refl,
                                                            (
                                                            27725365998,
                                                            refl,
                                                            refl,
                                                            refl,
                                                            (
                                                            27793908591,
                                                            refl,
                                                            refl,
                                                            refl,
                                                            (
                                                            27997534228,
                                                            refl,
                                                            refl,
                                                            refl,
                                                            (
                                                            28131656200,
                                                            refl,
                                                            refl,
                                                            refl,
                                                            (
                                                            28198240250,
                                                            refl,
                                                            refl,
                                                            refl,
                                                            (
                                                            28526537963,
                                                            refl,
                                                            refl,
                                                            refl,
                                                            (
                                                            28973835255,
                                                            refl,
                                                            refl,
                                                            refl,
                                                            (29099129074, refl, refl, refl, tt),
                                                            ),
                                                            ),
                                                            ),
                                                            ),
                                                            ),
                                                            ),
                                                            ),
                                                            ),
                                                            ),
                                                            ),
                                                            ),
                                                            ),
                                                            ),
                                                            ),
                                                            ),
                                                            ),
                                                            ),
                                                            ),
                                                            ),
                                                            ),
                                                            ),
                                                            ),
                                                            ),
                                                            ),
                                                            ),
                                                            ),
                                                            ),
                                                            ),
                                                            ),
                                                            ),
                                                            ),
                                                            ),
                                                            ),
                                                          ),
                                                        ),
                                                      ),
                                                    ),
                                                  ),
                                                ),
                                              ),
                                            ),
                                          ),
                                        ),
                                      ),
                                    ),
                                  ),
                                ),
                              ),
                            ),
                          ),
                        ),
                      ),
                    ),
                  ),
                ),
              ),
            ),
          ),
        ),
      ),
    ),
  ),
)
