-- ===== src/Proof/Protobuf.antt =====
-- src/host/pearl/protobuf_encoder.cpp: the ShareSubmission message. Its varints and tags are those of
-- mining_v2.cpp, line by line.
use prop_miner.Base.{
  ℕ, zero, suc, ◌*◌, List, [], ◌∷◌, ◌++◌, ◌==◌, if◌then◌else◌, length, take, drop, low_bits,
  le_bytes,
}
use prop_miner.Wire.{write_tag, write_varint}
use prop_miner.Config.{MiningConfig, config_bytes}
use prop_miner.Proof.{OwnedProof, leaf_count, sibling_count}

unfoldable pub write_bytes_field : ℕ → List ℕ → List ℕ
write_bytes_field field bytes = write_tag field 2 ++ (write_varint (length bytes) ++ bytes)

unfoldable pub write_embedded_field : ℕ → List ℕ → List ℕ
write_embedded_field field message = write_tag field 2 ++ (write_varint (length message) ++ message)

-- A uint32_t goes out as a fixed32.
unfoldable pub write_uint32_field : ℕ → ℕ → List ℕ
write_uint32_field field v = write_tag field 5 ++ le_bytes 4 v

unfoldable pub write_int32_field : ℕ → ℕ → List ℕ
write_int32_field field v = write_tag field 0 ++ write_varint (low_bits v 32)

-- The loop over chunks of `size` bytes.
unfoldable pub write_chunks : ℕ → ℕ → ℕ → List ℕ → List ℕ
write_chunks field size zero bytes = []
write_chunks field size (suc n) bytes =
    write_bytes_field field (take size bytes) ++ write_chunks field size n (drop size bytes)

unfoldable pub write_leaf_indices : List ℕ → List ℕ
write_leaf_indices [] = []
write_leaf_indices (idx ∷ indices) = write_uint32_field 2 idx ++ write_leaf_indices indices

unfoldable pub encode_merkle_proof : OwnedProof → List ℕ
encode_merkle_proof proof =
    write_chunks 1 1024 (leaf_count proof) proof.leaf_data
    ++ (write_leaf_indices proof.leaf_indices
        ++ (write_uint32_field 3 proof.total_leaves
            ++ write_chunks 4 32 (sibling_count proof) proof.siblings))

unfoldable pub encode_audit_proof : List ℕ → List ℕ
encode_audit_proof siblings = write_bytes_field 1 siblings

-- The fields of ShareFound and of its Job that the encoder reads.
pub record ShareFound : Type 0 where
  pub sigma : List ℕ
  pub b_seed : List ℕ
  pub target_nbits : ℕ
  pub tile_row : ℕ
  pub tile_col : ℕ
  pub b_col_indices : List ℕ
  pub hash_b : List ℕ
  pub a_slice : List ℕ
  pub claimed_hash : List ℕ

-- The columns of B, each expanded from the seed by the Rust library: `expand seed offset count`.
unfoldable pub b_slice : (List ℕ → ℕ → ℕ → List ℕ) → List ℕ → ℕ → List ℕ → List ℕ
b_slice expand b_seed k [] = []
b_slice expand b_seed k (col ∷ cols) =
    take k (expand b_seed (col * k) k) ++ b_slice expand b_seed k cols

unfoldable pub encode_share_submission :
    (List ℕ → ℕ → ℕ → List ℕ)
    → ShareFound
    → MiningConfig
    → OwnedProof
    → OwnedProof
    → List ℕ
    → List ℕ
encode_share_submission expand share cfg a_proof b_proof audit_siblings =
    write_bytes_field 2 share.sigma
    ++ (write_bytes_field 3 (config_bytes cfg)
        ++ (write_bytes_field 4 (take 32 a_proof.root)
            ++ (write_bytes_field 5 share.hash_b
                ++ (write_bytes_field 6 share.a_slice
                    ++ (write_bytes_field 7 (b_slice expand share.b_seed cfg.k share.b_col_indices)
                        ++ (write_embedded_field 8 (encode_merkle_proof a_proof)
                            ++ (write_embedded_field 9 (encode_merkle_proof b_proof)
                                ++ (write_bytes_field 10 share.claimed_hash
                                    ++ (write_uint32_field 11 share.target_nbits
                                        ++ (write_int32_field 12 share.tile_row
                                            ++ (write_int32_field 13 share.tile_col
                                                ++ (write_uint32_field 14 cfg.m
                                                    ++ (write_uint32_field 15 cfg.n
                                                        ++ (write_bytes_field 16 share.b_seed
                                                            ++ (if length audit_siblings == 0
                                                            then []
                                                            else write_embedded_field 17 (
                                                            encode_audit_proof
                                                            audit_siblings))))))))))))))))
