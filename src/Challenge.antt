-- ===== src/Challenge.antt =====
-- src/host/pearl/pearl_challenge.cpp: the proof of work that a pool asks for before a session.
-- The variables v0 … v15 are a list, and g_mix takes the places of its four references in it.
pub mod Blake3
pub mod Hex
mod Runs
use prop_miner.Base.{
  ℕ, zero, suc, ◌+◌, ◌-◌, ◌*◌, ◌/◌, ◌%◌, ◌^◌, Bool, true, false, not, ◌&&◌, ◌||◌, List, [], ◌∷◌,
  ◌++◌, Option, none, some, ltb, leb, ◌==◌, if◌then◌else◌, length, get_or, set, take, drop, shr,
  low_bits, bit_or, bit_xor, le_val, le_bytes,
}

unfoldable pub rotr32 : ℕ → ℕ → ℕ
rotr32 x n = bit_or (shr x n) (x * 2 ^ (32 - n) % 2 ^ 32)

unfoldable pub read_le32 : List ℕ → ℕ
read_le32 p =
    bit_or (bit_or (bit_or (get_or p 0 0) (get_or p 1 0 * 2 ^ 8)) (get_or p 2 0 * 2 ^ 16))
      (get_or p 3 0 * 2 ^ 24)

unfoldable pub bswap32 : ℕ → ℕ
bswap32 x =
    bit_or
      (bit_or (bit_or (low_bits x 8 * 2 ^ 24) (low_bits (shr x 8) 8 * 2 ^ 16))
        (low_bits (shr x 16) 8 * 2 ^ 8))
      (low_bits (shr x 24) 8)

-- The loop over n: at most 32 rounds.
pub clz_loop : ℕ → ℕ → ℕ
clz_loop zero x = 0
clz_loop (suc rounds) x =
    let more = clz_loop rounds (x * 2 % 2 ^ 32) in if leb 0x8000_0000 x then 0 else suc more

unfoldable pub clz32 : ℕ → ℕ
clz32 x = clz_loop 32 x

-- The two halves of `g_mix`, on the values of its references.
pub half_mix : ℕ → ℕ → ℕ → ℕ → ℕ → ℕ → ℕ → ℕ × ℕ × ℕ × ℕ
half_mix rot_d rot_b x a b c d =
    let a' = (a + (b + x) % 2 ^ 32) % 2 ^ 32 in
    let d' = rotr32 (bit_xor d a') rot_d in
    let c' = (c + d') % 2 ^ 32 in let b' = rotr32 (bit_xor b c') rot_b in (a', b', c', d')

unfoldable pub g_mix : ℕ → ℕ → ℕ → ℕ → ℕ → ℕ → List ℕ → List ℕ
g_mix a b c d x y v =
    let (a1, b1, c1, d1) =
      half_mix 16 12 x (get_or v a 0) (get_or v b 0) (get_or v c 0) (get_or v d 0) in
    let (a2, b2, c2, d2) = half_mix 8 7 y a1 b1 c1 d1 in set (set (set (set v a a2) b b2) c c2) d d2

-- s0 … s7.
pub record Seed : Type 0 where
  pub word0 : ℕ
  pub word1 : ℕ
  pub word2 : ℕ
  pub word3 : ℕ
  pub word4 : ℕ
  pub word5 : ℕ
  pub word6 : ℕ
  pub word7 : ℕ

unfoldable pub round_0 : Seed → ℕ → ℕ → List ℕ → List ℕ
round_0 s n0 n1 v =
    let v1 : List ℕ = g_mix 0 4 8 12 s.word0 s.word1 v in
    let v2 : List ℕ = g_mix 1 5 9 13 s.word2 s.word3 v1 in
    let v3 : List ℕ = g_mix 2 6 10 14 s.word4 s.word5 v2 in
    let v4 : List ℕ = g_mix 3 7 11 15 s.word6 s.word7 v3 in
    let v5 : List ℕ = g_mix 0 5 10 15 n0 n1 v4 in
    let v6 : List ℕ = g_mix 1 6 11 12 0 0 v5 in
    let v7 : List ℕ = g_mix 2 7 8 13 0 0 v6 in g_mix 3 4 9 14 0 0 v7

unfoldable pub round_1 : Seed → ℕ → ℕ → List ℕ → List ℕ
round_1 s n0 n1 v =
    let v1 : List ℕ = g_mix 0 4 8 12 s.word2 s.word6 v in
    let v2 : List ℕ = g_mix 1 5 9 13 s.word3 0 v1 in
    let v3 : List ℕ = g_mix 2 6 10 14 s.word7 s.word0 v2 in
    let v4 : List ℕ = g_mix 3 7 11 15 s.word4 0 v3 in
    let v5 : List ℕ = g_mix 0 5 10 15 s.word1 0 v4 in
    let v6 : List ℕ = g_mix 1 6 11 12 0 s.word5 v5 in
    let v7 : List ℕ = g_mix 2 7 8 13 n1 0 v6 in g_mix 3 4 9 14 0 n0 v7

unfoldable pub round_2 : Seed → ℕ → ℕ → List ℕ → List ℕ
round_2 s n0 n1 v =
    let v1 : List ℕ = g_mix 0 4 8 12 s.word3 s.word4 v in
    let v2 : List ℕ = g_mix 1 5 9 13 0 0 v1 in
    let v3 : List ℕ = g_mix 2 6 10 14 0 s.word2 v2 in
    let v4 : List ℕ = g_mix 3 7 11 15 s.word7 0 v3 in
    let v5 : List ℕ = g_mix 0 5 10 15 s.word6 s.word5 v4 in
    let v6 : List ℕ = g_mix 1 6 11 12 n1 s.word0 v5 in
    let v7 : List ℕ = g_mix 2 7 8 13 0 0 v6 in g_mix 3 4 9 14 n0 s.word1 v7

unfoldable pub round_3 : Seed → ℕ → ℕ → List ℕ → List ℕ
round_3 s n0 n1 v =
    let v1 : List ℕ = g_mix 0 4 8 12 0 s.word7 v in
    let v2 : List ℕ = g_mix 1 5 9 13 0 n1 v1 in
    let v3 : List ℕ = g_mix 2 6 10 14 0 s.word3 v2 in
    let v4 : List ℕ = g_mix 3 7 11 15 0 0 v3 in
    let v5 : List ℕ = g_mix 0 5 10 15 s.word4 s.word0 v4 in
    let v6 : List ℕ = g_mix 1 6 11 12 0 s.word2 v5 in
    let v7 : List ℕ = g_mix 2 7 8 13 s.word5 n0 v6 in g_mix 3 4 9 14 s.word1 s.word6 v7

unfoldable pub round_4 : Seed → ℕ → ℕ → List ℕ → List ℕ
round_4 s n0 n1 v =
    let v1 : List ℕ = g_mix 0 4 8 12 0 0 v in
    let v2 : List ℕ = g_mix 1 5 9 13 n1 0 v1 in
    let v3 : List ℕ = g_mix 2 6 10 14 0 0 v2 in
    let v4 : List ℕ = g_mix 3 7 11 15 0 n0 v3 in
    let v5 : List ℕ = g_mix 0 5 10 15 s.word7 s.word2 v4 in
    let v6 : List ℕ = g_mix 1 6 11 12 s.word5 s.word3 v5 in
    let v7 : List ℕ = g_mix 2 7 8 13 s.word0 s.word1 v6 in g_mix 3 4 9 14 s.word6 s.word4 v7

unfoldable pub round_5 : Seed → ℕ → ℕ → List ℕ → List ℕ
round_5 s n0 n1 v =
    let v1 : List ℕ = g_mix 0 4 8 12 n1 0 v in
    let v2 : List ℕ = g_mix 1 5 9 13 0 s.word5 v1 in
    let v3 : List ℕ = g_mix 2 6 10 14 n0 0 v2 in
    let v4 : List ℕ = g_mix 3 7 11 15 0 s.word1 v3 in
    let v5 : List ℕ = g_mix 0 5 10 15 0 s.word3 v4 in
    let v6 : List ℕ = g_mix 1 6 11 12 s.word0 0 v5 in
    let v7 : List ℕ = g_mix 2 7 8 13 s.word2 s.word6 v6 in g_mix 3 4 9 14 s.word4 s.word7 v7

unfoldable pub round_6 : Seed → ℕ → ℕ → List ℕ → List ℕ
round_6 s n0 n1 v =
    let v1 : List ℕ = g_mix 0 4 8 12 0 0 v in
    let v2 : List ℕ = g_mix 1 5 9 13 s.word5 s.word0 v1 in
    let v3 : List ℕ = g_mix 2 6 10 14 s.word1 n1 v2 in
    let v4 : List ℕ = g_mix 3 7 11 15 n0 s.word6 v3 in
    let v5 : List ℕ = g_mix 0 5 10 15 0 0 v4 in
    let v6 : List ℕ = g_mix 1 6 11 12 s.word2 0 v5 in
    let v7 : List ℕ = g_mix 2 7 8 13 s.word3 s.word4 v6 in g_mix 3 4 9 14 s.word7 0 v7

-- v0 … v15 at the start: counter 0, block length 40, and the flags CHUNK_START, CHUNK_END and ROOT.
abbrev pub start_state : List ℕ
start_state =
    0x6A09E667 ∷ 0xBB67AE85 ∷ 0x3C6EF372 ∷ 0xA54FF53A ∷ 0x510E527F ∷ 0x9B05688C ∷ 0x1F83D9AB
    ∷ 0x5BE0CD19 ∷ 0x6A09E667 ∷ 0xBB67AE85 ∷ 0x3C6EF372 ∷ 0xA54FF53A ∷ 0 ∷ 0 ∷ 40 ∷ 11 ∷ []

unfoldable pub mixed_state : Seed → ℕ → List ℕ
mixed_state s nonce =
    let n0 : ℕ = low_bits nonce 32 in
    let n1 : ℕ = low_bits (shr nonce 32) 32 in
    round_6 s n0 n1 (
      round_5 s n0 n1 (
        round_4 s n0 n1
          (round_3 s n0 n1 (round_2 s n0 n1 (round_1 s n0 n1 (round_0 s n0 n1 start_state))))))

-- v_i ^ v_(i + 8).
abbrev pub output_word : List ℕ → ℕ → ℕ
output_word v i = bit_xor (get_or v i 0) (get_or v (8 + i) 0)

-- The loop over the words behind the first.
pub rest_zeros : List ℕ → ℕ → ℕ
rest_zeros [] lz = lz
rest_zeros (w ∷ ws) lz =
    let more = rest_zeros ws (lz + 32) in if bswap32 w == 0 then more else lz + clz32 (bswap32 w)

unfoldable pub try_nonce : Seed → ℕ → ℕ → Bool
try_nonce s nonce difficulty =
    let v = mixed_state s nonce in
    let h0 = bswap32 (output_word v 0) in
    let rest =
      output_word v 1
      ∷ output_word v 2
      ∷ output_word v 3
      ∷ output_word v 4
      ∷ output_word v 5
      ∷ output_word v 6
      ∷ output_word v 7
      ∷ [] in
    if not (h0 == 0) then leb difficulty (clz32 h0) else leb difficulty (rest_zeros rest 32)

-- The loop that shifts a byte up to its highest bit; a byte that is not 0 takes seven rounds at most.
pub byte_zeros : ℕ → ℕ → ℕ
byte_zeros zero b = 0
byte_zeros (suc rounds) b =
    let more = byte_zeros rounds (b * 2 % 2 ^ 8) in if leb 0x80 b then 0 else suc more

pub leading_zeros_from : ℕ → List ℕ → ℕ
leading_zeros_from lz [] = lz
leading_zeros_from lz (b ∷ bs) =
    let more = leading_zeros_from (lz + 8) bs in if b == 0 then more else lz + byte_zeros 7 b

unfoldable pub leading_zero_bits : List ℕ → ℕ
leading_zero_bits h = leading_zeros_from 0 h

unfoldable pub seed_words : List ℕ → Seed
seed_words seed = record {
  word0 = read_le32 (drop 0 seed);
  word1 = read_le32 (drop 4 seed);
  word2 = read_le32 (drop 8 seed);
  word3 = read_le32 (drop 12 seed);
  word4 = read_le32 (drop 16 seed);
  word5 = read_le32 (drop 20 seed);
  word6 = read_le32 (drop 24 seed);
  word7 = read_le32 (drop 28 seed);
}

-- `PearlChallenge::verify`, over the hash of the Rust library.
unfoldable pub verify : (List ℕ → List ℕ) → List ℕ → ℕ → ℕ → Bool
verify hash seed nonce difficulty =
    leb difficulty (leading_zero_bits (hash (seed ++ le_bytes 8 nonce)))

pub nibble_char : ℕ → ℕ
nibble_char n = if ltb n 10 then b'0' + n else b'a' + (n - 10)

-- snprintf("%0nllx"), highest digit first.
pub hex_text : ℕ → ℕ → List ℕ
hex_text zero v = []
hex_text (suc digits) v = hex_text digits (shr v 4) ++ nibble_char (low_bits v 4) ∷ []

unfoldable pub nonce_to_wire_hex : ℕ → List ℕ
nonce_to_wire_hex nonce = hex_text 16 nonce

-- `none` is -1.
pub nibble : ℕ → Option ℕ
nibble c =
    if leb b'0' c && leb c b'9'
    then some (c - b'0')
    else if leb b'a' c && leb c b'f'
    then some (c - b'a' + 10)
    else if leb b'A' c && leb c b'F'
    then some (c - b'A' + 10)
    else none

-- The loop over the pairs of digits.
pub seed_bytes : List ℕ → Option (List ℕ)
seed_bytes [] = some []
seed_bytes (c ∷ []) = none
seed_bytes (c ∷ d ∷ h) =
    let rest = seed_bytes h in
    elim (nibble c) [
      | none ↦ none
      | some hi ↦ elim (nibble d) [
        | none ↦ none
        | some lo ↦ elim rest [
          | none ↦ none
          | some bytes ↦ some (low_bits (bit_or (hi * 2 ^ 4) lo) 8 ∷ bytes)
        ]
      ]
    ]

pub strip_prefix : List ℕ → List ℕ
strip_prefix (z ∷ x ∷ rest) = if z == b'0' && (x == b'x' || x == b'X') then rest else z ∷ x ∷ rest
strip_prefix h = h

unfoldable pub hex_to_seed : List ℕ → Option (List ℕ)
hex_to_seed hex = let h = strip_prefix hex in if length h == 64 then seed_bytes h else none
