-- ===== src/Config/Runs.antt =====
-- Runs of pearl_types.cpp, and the theorems of Config at concrete inputs.
use prop_miner.Base.{◌≡◌, refl, [], ◌∷◌, some}
use prop_miner.Config.{
  MiningConfig, from_indices, default_rows, default_cols, default_col_list, increasing, factor_loop,
  find_period, shifted_by, last_end, pair_at,
}
use prop_miner.Config.Pattern.{pattern_of}

default_rows_test : default_rows ≡ some (pattern_of 8 2 1 1 1 1)
unfolding default_rows from_indices increasing factor_loop find_period shifted_by last_end pair_at
default_rows_test = refl

default_cols_test : default_cols ≡ some (pattern_of 1 2 4 32 1 1)
unfolding default_cols default_col_list from_indices increasing factor_loop find_period shifted_by
    last_end pair_at
default_cols_test = refl

abbrev a_config : MiningConfig
a_config = record {
  m = 8192;
  n = 32768;
  k = 128;
  r = 128;
  rows_pattern = pattern_of 8 2 1 1 1 1;
  cols_pattern = pattern_of 1 2 4 32 1 1;
  b_m = 128;
  b_n = 256;
  b_k = 128;
  tensor_hash_threads = 128;
}

-- Four factors, of which `from_indices` keeps three.
four_factors_test :
    from_indices (0 ∷ 1 ∷ 4 ∷ 5 ∷ 16 ∷ 17 ∷ 20 ∷ 21 ∷ 64 ∷ 65 ∷ 68 ∷ 69 ∷ 80 ∷ 81 ∷ 84 ∷ 85 ∷ [])
    ≡ some (pattern_of 1 2 2 2 2 2)
unfolding from_indices increasing factor_loop find_period shifted_by last_end pair_at
four_factors_test = refl
