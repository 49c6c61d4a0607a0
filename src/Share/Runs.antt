-- ===== src/Share/Runs.antt =====
-- Runs of share_builder.cpp, and the theorems of Share at concrete inputs. The library's functions are
-- constant here.
use prop_miner.Base.{
  ℕ, ◌^◌, ◌≡◌, ◌<◌, refl, inr, true, List, [], ◌∷◌, arith, length, replicate, All, IsU64,
  le_val-replicate, ◌∙◌, ◌↔◌, bit_and, ◌-◌, ◌==◌, if◌then◌else◌,
}
use prop_miner.Config.{difficulty_adjustment_factor}
use prop_miner.Json.Value.{same_text}
use prop_miner.Target.{diagnose_share_target, claimed_hash_clears_target}
use prop_miner.Target.Order.{claimed_hash_clears_target_lem}
use prop_miner.Share.{jackpot_hash, generate_permutation_matrix, mul_hi_u32, permutation_pair}
use prop_miner.Share.Build.{
  Found, built, indices, invalid_argument, derive_audit_indices, build_stratum_plain_proof,
  plain_proof, verify_share, claimed_of, hash_bytes_set, proof_roots_for_share, clears_target,
  live_nbits, compute_claimed_hash, a_proof_of, b_proof_of,
}
use prop_miner.Share.Noise.{IsPair, generate_permutation_matrix-IsPair}
use prop_miner.Share.Leaves.{
  insert, insert_leaves, insert_rows, compute_leaf_indices_from_rows, Has, IsIncreasing, HasRow,
  compute_leaf_indices_from_rows_lem,
}
use prop_miner.Share.Samples.{
  constant_lib, constant_merkle, a_config, a_share, zero_hash, zero_hash-IsDigest, daf_pos,
}
use prop_miner.Share.Audit.{derive_audit_indices_lem}
use prop_miner.Share.Target.{IsBelowTarget, build-IsBelowTarget, verify_share-stratum}

pair_test : permutation_pair 128 0x8000_0005 ≡ (5, 69)
unfolding permutation_pair mul_hi_u32
pair_test = refl

zero_clears :
    (share : Found)
    → clears_target constant_lib constant_merkle a_config true share zero_hash ≡ true
unfolding clears_target diagnose_share_target claimed_hash_clears_target
zero_clears share =
    let daf : ℕ = difficulty_adjustment_factor a_config in
    let size : IsU64 daf = unfold difficulty_adjustment_factor in omega arith in
    claimed_hash_clears_target_lem zero_hash (live_nbits share) daf zero_hash-IsDigest.0 refl
      daf_pos size
    ∙ ground (arith, le_val-replicate 32)

verified : verify_share constant_lib constant_merkle a_config true a_share ≡ true
unfolding verify_share hash_bytes_set proof_roots_for_share a_proof_of b_proof_of claimed_of
    same_text compute_claimed_hash jackpot_hash
verified = zero_clears a_share

verify_share_example :
    build_stratum_plain_proof constant_lib constant_merkle a_config true a_share a_share.job_key 2
    ≡ built (plain_proof constant_lib constant_merkle a_config true a_share a_share.job_key 2)
verify_share_example =
    verify_share-stratum constant_lib constant_merkle a_config true a_share 2 verified

build-IsBelowTarget_example :
    IsBelowTarget constant_lib constant_merkle a_config true a_share
      (claimed_of constant_lib constant_merkle a_config true a_share a_share.job_key)
build-IsBelowTarget_example =
    build-IsBelowTarget constant_lib constant_merkle a_config true a_share a_share.job_key
      (plain_proof constant_lib constant_merkle a_config true a_share a_share.job_key 2) 2
      (λ message key. zero_hash-IsDigest) daf_pos (inr verify_share_example)

generate_permutation_matrix_example :
    (length (generate_permutation_matrix constant_lib (replicate 32 3) (replicate 32 4) 20 (2 ^ 7))
      ≡ 20)
    × All
        (IsPair (2 ^ 7))
        (generate_permutation_matrix constant_lib (replicate 32 3) (replicate 32 4) 20 (2 ^ 7))
generate_permutation_matrix_example =
    generate_permutation_matrix-IsPair constant_lib (λ message key. zero_hash-IsDigest.0)
      (replicate 32 3) (replicate 32 4) 7 20 (omega arith) (omega arith)

derive_audit_indices_example :
    (is : List ℕ) × (length is ≡ 2)
    × All (λ i. i < 8) is
    × (derive_audit_indices constant_lib zero_hash zero_hash 2 8
        ≡ (if bit_and 8 (8 - 1) == 0 then indices is else invalid_argument))
derive_audit_indices_example =
    derive_audit_indices_lem constant_lib zero_hash zero_hash 2 8 (omega arith) (omega arith)
      (omega arith)

leaves_test : compute_leaf_indices_from_rows (9 ∷ 0 ∷ 8 ∷ []) 600 ≡ 0 ∷ 4 ∷ 5 ∷ []
unfolding compute_leaf_indices_from_rows insert_rows insert_leaves insert
leaves_test = refl

compute_leaf_indices_from_rows_example :
    IsIncreasing (compute_leaf_indices_from_rows (9 ∷ 0 ∷ []) 600)
    × (Has 5 (compute_leaf_indices_from_rows (9 ∷ 0 ∷ []) 600) ↔ HasRow 600 (9 ∷ 0 ∷ []) 5)
compute_leaf_indices_from_rows_example =
    compute_leaf_indices_from_rows_lem (9 ∷ 0 ∷ []) 600 5 (omega arith)
      (omega arith, (omega arith, tt))
