-- ===== src/Target/Runs.antt =====
-- Runs of pow_target_utils.cpp, and the theorems of Target at concrete inputs.
use prop_miner.Base.{
  ℕ, ◌^◌, ◌*◌, ◌%◌, ◌/◌, ◌≡◌, refl, List, arith, true, ◌==◌, leb, if◌then◌else◌, le_val, be_val,
  le_bytes, IsByte, All, le_bytes-IsByte,
}
use prop_miner.Target.{
  nbits_to_target_le, multiply_target_le_by_u64, adjusted_pow_target_le, claimed_hash_clears_target,
  hash_le_below_target, be_div_u64, be_mul_u32_inplace, diff1_target_be, target_be_to_nbits,
  difficulty_to_nbits_pdif, nbits_to_target_hex_be, hex_target_to_nbits, first_non_zero,
  be_div_loop, be_mul_loop, pack_nbits, mantissa_at, below_loop, mul_loop, place_byte,
}
use prop_miner.Target.Compact.{compact_value}
use prop_miner.Target.Scale.{scaled_value}
use prop_miner.Target.Order.{claimed_hash_clears_target_lem}
use prop_miner.Target.Pack.{IsCompactOf}
use prop_miner.Target.Encode.{target_be_to_nbits-IsCompactOf, difficulty_to_nbits_pdif-IsCompactOf}
use prop_miner.Target.Hex.{hex_target_to_nbits-nbits_to_target_hex_be}

-- A share target of a pool, and a hash far below it.
abbrev share_nbits : ℕ
share_nbits = 0x1B00_FFFF

abbrev low_hash : List ℕ
low_hash = le_bytes 32 123456789

low_hash-IsByte : All IsByte low_hash
low_hash-IsByte = le_bytes-IsByte 32 123456789

diff1-IsByte : All IsByte diff1_target_be
diff1-IsByte = omega arith

difficulty_1_test : difficulty_to_nbits_pdif 1000000 ≡ 0x1D00_FFFF
unfolding difficulty_to_nbits_pdif be_mul_u32_inplace be_div_u64 target_be_to_nbits first_non_zero
    be_div_loop be_mul_loop pack_nbits mantissa_at
difficulty_1_test = refl

clears_test : claimed_hash_clears_target low_hash share_nbits 16 ≡ true
unfolding claimed_hash_clears_target hash_le_below_target adjusted_pow_target_le
    multiply_target_le_by_u64 nbits_to_target_le below_loop mul_loop place_byte
clears_test = refl

claimed_hash_clears_target_example :
    claimed_hash_clears_target low_hash share_nbits 16
    ≡ leb (le_val low_hash) (scaled_value (compact_value share_nbits % 2 ^ 256) 16)
claimed_hash_clears_target_example =
    claimed_hash_clears_target_lem low_hash share_nbits 16 low_hash-IsByte refl (omega arith)
      (omega arith)

target_be_to_nbits_example :
    IsCompactOf (be_val diff1_target_be) (target_be_to_nbits diff1_target_be)
target_be_to_nbits_example = target_be_to_nbits-IsCompactOf diff1_target_be diff1-IsByte refl

hex_round_trip_example :
    IsCompactOf
      (compact_value share_nbits % 2 ^ 256)
      (hex_target_to_nbits (nbits_to_target_hex_be share_nbits))
hex_round_trip_example = hex_target_to_nbits-nbits_to_target_hex_be share_nbits

difficulty_to_nbits_pdif_example :
    IsCompactOf
      (0xFFFF * 2 ^ 208 * 1000000 / (if 32768000000 == 0 then 1 else 32768000000))
      (difficulty_to_nbits_pdif 32768000000)
difficulty_to_nbits_pdif_example = difficulty_to_nbits_pdif-IsCompactOf 32768000000 (omega arith)
