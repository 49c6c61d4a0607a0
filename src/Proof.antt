-- ===== src/Proof.antt =====
-- src/host/pearl/bincode_encoder.cpp and protobuf_encoder.cpp: the proof of a share on the wire.
pub mod Bincode
pub mod Protobuf
pub mod Size
mod Runs
use prop_miner.Base.{ℕ, zero, suc, ◌+◌, ◌*◌, ◌/◌, ◌%◌, ◌^◌, List, [], ◌∷◌, ◌++◌, length, take, drop}

-- pearl_mining_wrapper.h. A std::vector is a list.
pub record OwnedProof : Type 0 where
  pub root : List ℕ
  pub leaf_data : List ℕ
  pub leaf_indices : List ℕ
  pub siblings : List ℕ
  pub total_leaves : ℕ

unfoldable pub leaf_count : OwnedProof → ℕ
leaf_count p = length p.leaf_data / 1024

unfoldable pub sibling_count : OwnedProof → ℕ
sibling_count p = length p.siblings / 32
