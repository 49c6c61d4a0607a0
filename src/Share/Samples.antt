-- ===== src/Share/Samples.antt =====
-- Inputs for the runs of share_builder.cpp and of the share sender: a library whose functions are
-- constant, a configuration and a share.
use prop_miner.Base.{ℕ, ◌≤◌, refl, true, List, [], ◌∷◌, arith, replicate, All-replicate, IsByte}
use prop_miner.Config.{MiningConfig, difficulty_adjustment_factor, dot_product_length, pattern_size}
use prop_miner.Config.Pattern.{pattern_of}
use prop_miner.Proof.{OwnedProof}
use prop_miner.Share.{Blake3}
use prop_miner.Share.Build.{Merkle, Found}
use prop_miner.Share.Target.{IsDigest}

abbrev pub lib_of : List ℕ → Blake3
lib_of digest = record {
  hash = λ message. digest;
  keyed = λ message key. digest;
  xof = λ message n. replicate n 7;
  expand = λ seed offset n. replicate n 1;
}

abbrev pub constant_lib : Blake3
constant_lib = lib_of (replicate 32 0)

abbrev pub a_proof : OwnedProof
a_proof = record {
  root = replicate 32 1;
  leaf_data = [];
  leaf_indices = 0 ∷ [];
  siblings = [];
  total_leaves = 1;
}

abbrev pub constant_merkle : Merkle
constant_merkle = record {
  a_proof_from_leaf_cvs = λ cvs leaves key m k rows. a_proof;
  proof_for_handle = λ cols. a_proof;
  tree_root = replicate 32 1;
  verify_proof = λ proof key root. true;
  audit_paths = λ is. [];
}

abbrev pub a_config : MiningConfig
a_config = record {
  m = 8192;
  n = 32768;
  k = 128;
  r = 128;
  rows_pattern = pattern_of 8 2 1 1 1 1;
  cols_pattern = pattern_of 1 2 4 32 1 1;
  b_m = 128;
  b_n = 256;
  b_k = 128;
  tensor_hash_threads = 128;
}

abbrev pub share_of : List ℕ → Found
share_of claimed_hash = record {
  encoded = record {
    sigma = replicate 76 0;
    b_seed = replicate 32 0;
    target_nbits = 0x1D00_FFFF;
    tile_row = 0;
    tile_col = 0;
    b_col_indices = [];
    hash_b = replicate 32 1;
    a_slice = [];
    claimed_hash = claimed_hash;
  };
  job_key = replicate 32 2;
  audit_k = 0;
  installed_target_nbits = 0;
  a_row_indices = [];
  hash_a = replicate 32 1;
  a_opened_leaf_data = 0 ∷ [];
  a_leaf_cvs = [];
}

abbrev pub a_share : Found
a_share = share_of (replicate 32 0)

abbrev pub zero_hash : List ℕ
zero_hash = replicate 32 0

pub zero_hash-IsDigest : IsDigest zero_hash
zero_hash-IsDigest = (All-replicate IsByte 32 0 (omega arith), refl)

pub daf_pos : 1 ≤ difficulty_adjustment_factor a_config
daf_pos = unfold difficulty_adjustment_factor pattern_size dot_product_length in omega arith
