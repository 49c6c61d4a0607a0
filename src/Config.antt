-- ===== src/Config.antt =====
-- src/host/pearl/pearl_types.h and .cpp: the periodic pattern of a hash tile and the mining
-- configuration. An int32_t of the configuration is never negative here, and stands as a number.
pub mod Shape
pub mod Pattern
mod Runs
use prop_miner.Base.{
  ℕ, zero, suc, ◌+◌, ◌-◌, ◌*◌, ◌/◌, ◌%◌, ◌^◌, Bool, true, false, ◌&&◌, ◌||◌, not, List, [], ◌∷◌,
  ◌++◌, Option, none, some, ltb, leb, ◌==◌, if◌then◌else◌, length, get_or, take, drop, replicate,
  low_bits, le_bytes,
}

pub record PeriodicPattern : Type 0 where
  pub stride0 : ℕ
  pub length0 : ℕ
  pub stride1 : ℕ
  pub length1 : ℕ
  pub stride2 : ℕ
  pub length2 : ℕ

-- The loop that refuses an index that is not above the one before it.
pub increasing : List ℕ → Bool
increasing [] = true
increasing (x ∷ []) = true
increasing (x ∷ y ∷ xs) = ltb x y && increasing (y ∷ xs)

-- `p[i] + s == p[i + period]` over the two lists.
pub shifted_by : ℕ → List ℕ → List ℕ → Bool
shifted_by s xs [] = true
shifted_by s [] (y ∷ ys) = true
shifted_by s (x ∷ xs) (y ∷ ys) = (x + s) % 2 ^ 32 == y && shifted_by s xs ys

-- The loop over the periods below the size; the rounds are one more than the periods left.
pub find_period : ℕ → ℕ → List ℕ → Option ℕ
find_period zero period p = none
find_period (suc rounds) period p =
    let more = find_period rounds (period + 1) p in
    if leb (length p) period
    then none
    else if length p % period == 0 && shifted_by (get_or p period 0) p (drop period p)
    then some period
    else more

-- The loop that takes one factor off at a time; `shape` grows at its front, as it is reversed later.
-- A round makes the list shorter, so that its length is enough rounds.
pub factor_loop : ℕ → List ℕ → List (ℕ × ℕ) → Option (List (ℕ × ℕ))
factor_loop zero p shape = some shape
factor_loop (suc rounds) p shape =
    if leb (length p) 1 then some shape else elim (find_period (length p) 1 p) [
      | none ↦ none
      | some period ↦
          factor_loop rounds (take period p)
            ((get_or p period 0, low_bits (length p / period) 32) ∷ shape)
    ]

-- `shape.back()`.
pub last_end : List (ℕ × ℕ) → ℕ
last_end [] = 1
last_end ((stride, count) ∷ []) = stride * count % 2 ^ 32
last_end (x ∷ y ∷ shape) = last_end (y ∷ shape)

pub pair_at : List (ℕ × ℕ) → ℕ → ℕ → ℕ × ℕ
pair_at [] i trailing = (trailing, 1)
pair_at (x ∷ shape) zero trailing = x
pair_at (x ∷ shape) (suc i) trailing = pair_at shape i trailing

-- `none` is a std::invalid_argument.
unfoldable pub from_indices : List ℕ → Option PeriodicPattern
from_indices pattern =
    if length pattern == 0 || (not (increasing pattern) || not (get_or pattern 0 0 == 0))
    then none
    else elim (factor_loop (length pattern) pattern []) [
      | none ↦ none
      | some shape ↦
          let trailing = last_end shape in
          some (record {
            stride0 = (pair_at shape 0 trailing).0;
            length0 = (pair_at shape 0 trailing).1;
            stride1 = (pair_at shape 1 trailing).0;
            length1 = (pair_at shape 1 trailing).1;
            stride2 = (pair_at shape 2 trailing).0;
            length2 = (pair_at shape 2 trailing).1;
          })
    ]

unfoldable pub default_rows : Option PeriodicPattern
default_rows = from_indices (0 ∷ 8 ∷ [])

pub default_col_list : ℕ → ℕ → List ℕ
default_col_list zero r = []
default_col_list (suc n) r = (8 * r) ∷ (8 * r + 1) ∷ default_col_list n (r + 1)

unfoldable pub default_cols : Option PeriodicPattern
default_cols = from_indices (default_col_list 32 0)

-- `factor - 1` and `length - 1` as bytes.
pub dimension_bytes : ℕ → ℕ → ℕ → List ℕ
dimension_bytes min_stride stride count =
    low_bits (stride / min_stride + (2 ^ 32 - 1)) 8 ∷ low_bits (count + (2 ^ 32 - 1)) 8 ∷ []

unfoldable pub pattern_bytes : PeriodicPattern → List ℕ
pattern_bytes p =
    dimension_bytes 1 p.stride0 p.length0
    ++ (dimension_bytes (p.stride0 * p.length0 % 2 ^ 32) p.stride1 p.length1
        ++ dimension_bytes (p.stride1 * p.length1 % 2 ^ 32) p.stride2 p.length2)

unfoldable pub pattern_size : PeriodicPattern → ℕ
pattern_size p = p.length0 * p.length1 * p.length2 % 2 ^ 32

-- The fields of MiningConfig that its functions read.
pub record MiningConfig : Type 0 where
  pub m : ℕ
  pub n : ℕ
  pub k : ℕ
  pub r : ℕ
  pub rows_pattern : PeriodicPattern
  pub cols_pattern : PeriodicPattern
  pub b_m : ℕ
  pub b_n : ℕ
  pub b_k : ℕ
  pub tensor_hash_threads : ℕ

-- `MiningConfig::to_bytes`.
unfoldable pub config_bytes : MiningConfig → List ℕ
config_bytes cfg =
    le_bytes 4 cfg.k
    ++ (le_bytes 2 cfg.r
        ++ (le_bytes 2 0
            ++ (pattern_bytes cfg.rows_pattern
                ++ (pattern_bytes cfg.cols_pattern ++ replicate 32 0))))

unfoldable pub dot_product_length : MiningConfig → ℕ
dot_product_length cfg = cfg.k / 128 * 128

unfoldable pub difficulty_adjustment_factor : MiningConfig → ℕ
difficulty_adjustment_factor cfg =
    pattern_size cfg.rows_pattern * pattern_size cfg.cols_pattern * dot_product_length cfg % 2 ^ 64

-- `conservative` from a default configuration.
unfoldable pub conservative : MiningConfig → MiningConfig
conservative cfg = record cfg {
  m = 2048;
  n = 2048;
  k = 2048;
  r = 64;
  b_m = 128;
  b_n = 128;
  b_k = 128;
}

-- The lambda `fits`.
unfoldable pub fits : ℕ → ℕ → ℕ → ℕ → Bool
fits free m n k = let bytes = m * k + k * n + 4 * (m * n) in ltb (bytes + bytes / 4) free

-- The loop over the candidates, which breaks at the first that fits.
unfoldable pub pick_shape : ℕ → List (ℕ × ℕ × ℕ) → MiningConfig → MiningConfig
pick_shape free [] cfg = cfg
pick_shape free ((m, n, k) ∷ shapes) cfg =
    let more = pick_shape free shapes cfg in
    if fits free m n k then record cfg { m = m; n = n; k = k } else more

unfoldable pub candidate_shapes : Bool → Bool → List (ℕ × ℕ × ℕ)
candidate_shapes is_ada_plus is_ampere =
    if is_ada_plus
    then (8192, 262144, 128)
      ∷ (8192, 131072, 128)
      ∷ (8192, 65536, 128)
      ∷ (8192, 32768, 128)
      ∷ (8192, 16384, 128)
      ∷ (4096, 32768, 128)
      ∷ (4096, 16384, 128)
      ∷ (4096, 8192, 128)
      ∷ []
    else if is_ampere
    then (4096, 16384, 128) ∷ (4096, 8192, 128) ∷ (2048, 16384, 128) ∷ (2048, 8192, 128) ∷ []
    else (2048, 8192, 128) ∷ (2048, 4096, 128) ∷ (1024, 4096, 128) ∷ []

-- `auto_shape_for_gpu` on a default configuration; `queried` is what cudaMemGetInfo reports as free.
unfoldable pub auto_shape_for_gpu : MiningConfig → ℕ → ℕ → ℕ → ℕ → MiningConfig
auto_shape_for_gpu default major minor budget_bytes queried =
    let free =
      if budget_bytes == 0
      then (if ltb (512 * 2 ^ 20) queried then queried - 512 * 2 ^ 20 else queried)
      else budget_bytes in
    let is_ada_plus = ltb 8 major || (major == 8 && leb 9 minor) in
    let is_ampere = major == 8 in
    let picked = pick_shape free (candidate_shapes is_ada_plus is_ampere) default in
    let cfg = if fits free picked.m picked.n picked.k then picked else conservative default in
    if is_ada_plus
    then record cfg { b_m = 128; b_n = 256; b_k = 128; r = 128 }
    else if is_ampere
    then record cfg { b_m = 128; b_n = 128; b_k = 64 }
    else record cfg { b_m = 128; b_n = 128; b_k = 128 }

-- The quotient of `int64_t`, cast to 32 bits.
unfoldable pub tensor_hash_num_blocks : MiningConfig → ℕ → ℕ
tensor_hash_num_blocks cfg matrix_bytes =
    let bytes_per_block = cfg.tensor_hash_threads * 1024 % 2 ^ 32 in
    low_bits ((matrix_bytes + bytes_per_block - 1) / bytes_per_block) 32
