-- ===== src/Proof/Runs.antt =====
-- The theorems of Proof at concrete inputs.
use prop_miner.Base.{[], ◌∷◌, replicate}
use prop_miner.Config.{MiningConfig}
use prop_miner.Config.Pattern.{pattern_of}
use prop_miner.Proof.{OwnedProof}

abbrev a_config : MiningConfig
a_config = record {
  m = 8192;
  n = 32768;
  k = 128;
  r = 128;
  rows_pattern = pattern_of 8 2 1 1 1 1;
  cols_pattern = pattern_of 1 2 4 32 1 1;
  b_m = 128;
  b_n = 256;
  b_k = 128;
  tensor_hash_threads = 128;
}

abbrev a_proof : OwnedProof
a_proof = record {
  root = replicate 32 1;
  leaf_data = replicate 1024 2;
  leaf_indices = 7 ∷ [];
  siblings = replicate 64 3;
  total_leaves = 4;
}
