-- ===== src/Proof/Bincode.antt =====
-- src/host/pearl/bincode_encoder.cpp: PlainProof for the stratum submission.
use prop_miner.Base.{
  ℕ, zero, suc, List, [], ◌∷◌, ◌++◌, leb, if◌then◌else◌, length, take, drop, le_bytes,
}
use prop_miner.Config.{MiningConfig}
use prop_miner.Proof.{OwnedProof, leaf_count, sibling_count}

unfoldable pub write_u64 : ℕ → List ℕ
write_u64 v = le_bytes 8 v

-- The loop over the leaves, on the bytes from the next leaf on.
unfoldable pub write_leaves : ℕ → List ℕ → List ℕ
write_leaves zero leaf_data = []
write_leaves (suc n) leaf_data =
    write_u64 1024 ++ (take 1024 leaf_data ++ write_leaves n (drop 1024 leaf_data))

unfoldable pub write_indices : List ℕ → List ℕ
write_indices [] = []
write_indices (idx ∷ indices) = write_u64 idx ++ write_indices indices

unfoldable pub write_siblings : ℕ → List ℕ → List ℕ
write_siblings zero siblings = []
write_siblings (suc n) siblings = take 32 siblings ++ write_siblings n (drop 32 siblings)

unfoldable pub write_merkle_proof : OwnedProof → List ℕ → List ℕ
write_merkle_proof proof root =
    write_u64 (leaf_count proof)
    ++ (write_leaves (leaf_count proof) proof.leaf_data
        ++ (write_u64 (length proof.leaf_indices)
            ++ (write_indices proof.leaf_indices
                ++ (write_u64 proof.total_leaves
                    ++ (root
                        ++ (write_u64 (sibling_count proof)
                            ++ write_siblings (sibling_count proof) proof.siblings))))))

unfoldable pub write_matrix_merkle_proof : OwnedProof → List ℕ → List ℕ → List ℕ
write_matrix_merkle_proof proof root indices =
    write_merkle_proof proof root ++ (write_u64 (length indices) ++ write_indices indices)

unfoldable pub encode_plain_proof :
    MiningConfig → OwnedProof → OwnedProof → List ℕ → List ℕ → List ℕ → List ℕ → ℕ → List ℕ
encode_plain_proof cfg a_proof b_proof a_row_indices b_col_indices hash_a hash_b cert_version =
    write_u64 cfg.m
    ++ (write_u64 cfg.n
        ++ (write_u64 cfg.k
            ++ (write_u64 cfg.r
                ++ (write_matrix_merkle_proof a_proof hash_a a_row_indices
                    ++ (write_matrix_merkle_proof b_proof hash_b b_col_indices
                        ++ (if leb 2 cert_version then 0 ∷ [] else []))))))
