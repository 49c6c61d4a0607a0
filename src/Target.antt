-- ===== src/Target.antt =====
-- src/host/pearl/pow_target_utils.h and .cpp: compact difficulty ("nbits") and 256-bit targets.
-- A std::array<uint8_t, N> is a list of N bytes, a text is the list of its bytes, and a word is a
-- number with its wrap written out.
pub mod Compact
pub mod Scale
pub mod Order
pub mod Divide
pub mod Pack
pub mod Encode
pub mod Hex
mod Runs
use prop_miner.Base.{
  ℕ, zero, suc, ◌+◌, ◌-◌, ◌*◌, ◌/◌, ◌%◌, ◌^◌, Bool, true, false, ◌&&◌, ◌||◌, not, List, [], ◌∷◌,
  ◌++◌, Option, none, some, ltb, leb, ◌==◌, if◌then◌else◌, length, get_or, set, take, drop,
  replicate, shr, low_bits, le_bytes, le_val, bit_or,
}

abbrev pub target_bytes : ℕ
target_bytes = 32

-- One round of the loop over the three mantissa bytes: `t[idx] = (mant >> (8 * i)) & 0xFF`,
-- where idx = exp - 3 + i. It runs for exp > 3, so that idx is not negative.
pub place_byte : ℕ → ℕ → ℕ → List ℕ → List ℕ
place_byte exp mant i t =
    let idx = exp - 3 + i in
    if ltb idx target_bytes then set t idx (low_bits (shr mant (8 * i)) 8) else t

unfoldable pub nbits_to_target_le : ℕ → List ℕ
nbits_to_target_le nbits =
    let exp = shr nbits 24 in
    let mant = low_bits nbits 24 in
    if leb exp 3
    then le_bytes 8 (shr mant (8 * (3 - exp))) ++ replicate 24 0
    else place_byte exp mant 2
        (place_byte exp mant 1 (place_byte exp mant 0 (replicate target_bytes 0)))

-- The loop over the bytes, lowest first, with its carry in an unsigned __int128.
pub mul_loop : ℕ → ℕ → List ℕ → List ℕ × ℕ
mul_loop factor carry [] = ([], carry)
mul_loop factor carry (b ∷ bs) =
    let prod = (b * factor + carry) % 2 ^ 128 in
    let (out, last) = mul_loop factor (shr prod 8) bs in (low_bits prod 8 ∷ out, last)

unfoldable pub multiply_target_le_by_u64 : List ℕ → ℕ → List ℕ
multiply_target_le_by_u64 target factor =
    let (out, carry) = mul_loop factor 0 target in
    if leb factor 1 then target else if carry == 0 then out else replicate target_bytes 0xFF

unfoldable pub adjusted_pow_target_le : ℕ → ℕ → List ℕ
adjusted_pow_target_le nbits daf = multiply_target_le_by_u64 (nbits_to_target_le nbits) daf

-- The loop from index i - 1 down to 0: the highest byte that differs decides.
pub below_loop : ℕ → List ℕ → List ℕ → Bool
below_loop zero hash target = true
below_loop (suc i) hash target =
    let h = get_or hash i 0 in
    let t = get_or target i 0 in
    let rest = below_loop i hash target in if ltb h t then true else if ltb t h then false else rest

unfoldable pub hash_le_below_target : List ℕ → List ℕ → Bool
hash_le_below_target hash target = below_loop target_bytes hash target

unfoldable pub claimed_hash_clears_target : List ℕ → ℕ → ℕ → Bool
claimed_hash_clears_target claimed_hash nbits daf =
    hash_le_below_target claimed_hash (adjusted_pow_target_le nbits daf)

unfoldable pub claimed_hash_clears_nbits_target : List ℕ → ℕ → Bool
claimed_hash_clears_nbits_target claimed_hash nbits =
    hash_le_below_target claimed_hash (nbits_to_target_le nbits)

-- The loop of `tighter_target_nbits` over the two targets, from index i - 1 down to 0.
pub tighter_loop : ℕ → List ℕ → List ℕ → ℕ → ℕ → ℕ
tighter_loop zero ta tb a b = a
tighter_loop (suc i) ta tb a b =
    let x = get_or ta i 0 in
    let y = get_or tb i 0 in
    let rest = tighter_loop i ta tb a b in if not (x == y) then (if ltb x y then a else b) else rest

unfoldable pub tighter_target_nbits : ℕ → ℕ → ℕ
tighter_target_nbits a b =
    if a == 0
    then b
    else if b == 0
    then a
    else tighter_loop target_bytes (nbits_to_target_le a) (nbits_to_target_le b) a b

-- 0xFFFF at the bytes 4 and 5, highest byte first.
abbrev pub diff1_target_be : List ℕ
diff1_target_be = set (set (replicate target_bytes 0) 4 0xFF) 5 0xFF

-- The loop from the last byte to the first, with the carry that leaves the first.
pub be_mul_loop : ℕ → List ℕ → List ℕ × ℕ
be_mul_loop m [] = ([], 0)
be_mul_loop m (b ∷ bs) =
    let (out, carry) = be_mul_loop m bs in
    let v = (b * m + carry) % 2 ^ 64 in (low_bits v 8 ∷ out, shr v 8)

unfoldable pub be_mul_u32_inplace : List ℕ → ℕ → List ℕ
be_mul_u32_inplace be m =
    let (out, carry) = be_mul_loop m be in if carry == 0 then out else replicate target_bytes 0xFF

-- Long division, highest byte first, with its remainder in a uint64_t.
pub be_div_loop : ℕ → ℕ → List ℕ → List ℕ
be_div_loop d rem [] = []
be_div_loop d rem (b ∷ bs) =
    let step = bit_or (rem * 2 ^ 8 % 2 ^ 64) b in
    low_bits (step / d) 8 ∷ be_div_loop d (step % d) bs

unfoldable pub be_div_u64 : List ℕ → ℕ → List ℕ
be_div_u64 be d = if d == 0 then be else be_div_loop d 0 be

-- The index of the first byte that is not 0, counted on from i.
pub first_non_zero : ℕ → List ℕ → Option ℕ
first_non_zero i [] = none
first_non_zero i (b ∷ bs) = if not (b == 0) then some i else first_non_zero (i + 1) bs

-- The three highest bytes of a number of `len` bytes, missing ones as 0.
pub mantissa_at : List ℕ → ℕ → ℕ → ℕ
mantissa_at target first len =
    let b0 = get_or target first 0 * 2 ^ 16 in
    let b1 = get_or target (first + 1) 0 * 2 ^ 8 in
    let b2 = get_or target (first + 2) 0 in
    if leb 3 len then bit_or (bit_or b0 b1) b2 else if len == 2 then bit_or b0 b1 else b0

-- (out_len << 24) | (mantissa & 0xFFFFFF), after the shift that keeps bit 23 of the mantissa clear.
pub pack_nbits : ℕ → ℕ → ℕ
pack_nbits mantissa len =
    if not (shr mantissa 23 % 2 == 0)
    then bit_or ((len + 1) * 2 ^ 24 % 2 ^ 32) (low_bits (shr mantissa 8) 24)
    else bit_or (len * 2 ^ 24 % 2 ^ 32) (low_bits mantissa 24)

unfoldable pub target_be_to_nbits : List ℕ → ℕ
target_be_to_nbits target = elim (first_non_zero 0 target) [
  | none ↦ 0
  | some first ↦ pack_nbits (mantissa_at target first (32 - first)) (32 - first)
]

-- `difficulty_to_nbits_pdif` behind its conversion: the argument is (uint64_t)(difficulty * 1e6).
unfoldable pub difficulty_to_nbits_pdif : ℕ → ℕ
difficulty_to_nbits_pdif scaled =
    let scaled_diff = if ltb scaled 1 then 1 else scaled in
    target_be_to_nbits (be_div_u64 (be_mul_u32_inplace diff1_target_be 1000000) scaled_diff)

-- snprintf("%02x") of one byte.
unfoldable pub hex_digit : ℕ → ℕ
hex_digit n = if ltb n 10 then b'0' + n else b'a' + (n - 10)

unfoldable pub bytes_to_hex : List ℕ → List ℕ
unfolding hex_digit
bytes_to_hex [] = []
bytes_to_hex (b ∷ bs) = hex_digit (shr b 4) ∷ hex_digit (low_bits b 4) ∷ bytes_to_hex bs

-- The loop from index i - 1 down to 0.
pub hex_be_loop : ℕ → List ℕ → List ℕ
hex_be_loop zero target = []
hex_be_loop (suc i) target = bytes_to_hex (get_or target i 0 ∷ []) ++ hex_be_loop i target

unfoldable pub nbits_to_target_hex_be : ℕ → List ℕ
nbits_to_target_hex_be nbits = hex_be_loop target_bytes (nbits_to_target_le nbits)

-- isspace in the C locale.
pub is_space : ℕ → Bool
is_space c = c == b' ' || (leb 9 c && leb c 13)

pub hex_value : ℕ → Option ℕ
hex_value c =
    if leb b'0' c && leb c b'9'
    then some (c - b'0')
    else if leb b'a' c && leb c b'f'
    then some (c - b'a' + 10)
    else if leb b'A' c && leb c b'F'
    then some (c - b'A' + 10)
    else none

pub hex_digits : ℕ → List ℕ → ℕ
hex_digits acc [] = acc
hex_digits acc (c ∷ cs) = elim (hex_value c) [ none ↦ acc | some d ↦ hex_digits (acc * 16 + d) cs ]

pub skip_spaces : List ℕ → List ℕ
skip_spaces [] = []
skip_spaces (c ∷ cs) = if is_space c then skip_spaces cs else c ∷ cs

pub signed_hex : List ℕ → ℕ
signed_hex [] = 0
signed_hex (c ∷ cs) =
    if c == b'-'
    then (2 ^ 64 - hex_digits 0 cs) % 2 ^ 64
    else if c == b'+'
    then hex_digits 0 cs
    else hex_digits 0 (c ∷ cs)

-- strtoul(s, nullptr, 16) of a text of at most two characters, of which a "0x" leaves no digit.
pub strtoul_16 : List ℕ → ℕ
strtoul_16 s = signed_hex (skip_spaces s)

unfoldable pub strip_0x : List ℕ → List ℕ
strip_0x (z ∷ x ∷ rest) = if z == b'0' && (x == b'x' || x == b'X') then rest else z ∷ x ∷ rest
strip_0x h = h

-- The bytes of the first `n` pairs of digits.
pub hex_pairs : ℕ → List ℕ → List ℕ
hex_pairs zero h = []
hex_pairs (suc n) h = low_bits (strtoul_16 (take 2 h)) 8 ∷ hex_pairs n (drop 2 h)

unfoldable pub hex_target_to_nbits : List ℕ → ℕ
hex_target_to_nbits target_hex =
    let h = strip_0x target_hex in
    let h' = if length h % 2 == 0 then h else b'0' ∷ h in
    let copy_len = if ltb 32 (length h' / 2) then 32 else length h' / 2 in
    target_be_to_nbits (replicate (32 - copy_len) 0 ++ hex_pairs copy_len h')

-- The four bytes from offset 72 of the block header, lowest first.
unfoldable pub network_nbits_from_sigma : List ℕ → ℕ
network_nbits_from_sigma sigma = le_val (take 4 (drop 72 sigma))

pub words_from : ℕ → List ℕ → List ℕ
words_from zero bytes = []
words_from (suc n) bytes = le_val (take 4 bytes) ∷ words_from n (drop 4 bytes)

unfoldable pub target_le_to_pow_u32 : List ℕ → List ℕ
target_le_to_pow_u32 target = words_from 8 target

pub record ShareTargetDiag : Type 0 where
  pub clears_with_daf : Bool
  pub clears_without_daf : Bool
  pub daf : ℕ
  pub claimed_hex : List ℕ
  pub target_adj_hex : List ℕ
  pub target_raw_hex : List ℕ

unfoldable pub diagnose_share_target : List ℕ → ℕ → ℕ → ShareTargetDiag
diagnose_share_target claimed_hash nbits daf =
    let raw = nbits_to_target_le nbits in
    let adj = adjusted_pow_target_le nbits daf in
    record {
      clears_with_daf = hash_le_below_target claimed_hash adj;
      clears_without_daf = hash_le_below_target claimed_hash raw;
      daf = daf;
      claimed_hex = bytes_to_hex claimed_hash;
      target_adj_hex = bytes_to_hex adj;
      target_raw_hex = bytes_to_hex raw;
    }
