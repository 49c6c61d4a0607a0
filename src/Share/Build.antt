-- ===== src/Share/Build.antt =====
-- src/host/pearl/share_builder.cpp, class ShareBuilder: the claimed hash of a share, and the proofs
-- that are built of it. The Merkle trees and their proofs are in a Rust library.
use prop_miner.Base.{
  ℕ, zero, suc, ◌-◌, ◌*◌, ◌/◌, ◌%◌, Bool, true, false, ◌&&◌, ◌||◌, not, List, [], ◌∷◌, ◌++◌, ltb,
  ◌==◌, if◌then◌else◌, text, length, take, drop, replicate, le_bytes, le_val, bit_and,
}
use prop_miner.Config.{MiningConfig, difficulty_adjustment_factor}
use prop_miner.Json.Value.{same_text}
use prop_miner.Proof.{OwnedProof}
use prop_miner.Proof.Bincode.{encode_plain_proof}
use prop_miner.Proof.Protobuf.{ShareFound, encode_share_submission}
use prop_miner.Share.{
  Blake3, seed_label_a, seed_label_b, uniform_row, generate_permutation_matrix,
  apply_sparse_permutation, derive_noise_seeds, noised, jackpot_loop, jackpot_hash,
}
use prop_miner.Target.{diagnose_share_target}

-- The Merkle functions of the Rust library: the proof of A's rows from the leaves and their hashes,
-- that of B's columns from the tree of the job, its root, the test of a proof against a key and a
-- root, and the siblings that an audit asks for. These calls succeed, too.
pub record Merkle : Type 0 where
  pub a_proof_from_leaf_cvs : List ℕ → List ℕ → List ℕ → ℕ → ℕ → List ℕ → OwnedProof
  pub proof_for_handle : List ℕ → OwnedProof
  pub tree_root : List ℕ
  pub verify_proof : OwnedProof → List ℕ → List ℕ → Bool
  pub audit_paths : List ℕ → List ℕ

-- The fields of ShareFound and its Job that the builder reads, besides those of the encoder. That
-- of gpu_commit is only logged.
pub record Found : Type 0 where
  pub encoded : ShareFound
  pub job_key : List ℕ
  pub audit_k : ℕ
  pub installed_target_nbits : ℕ
  pub a_row_indices : List ℕ
  pub hash_a : List ℕ
  pub a_opened_leaf_data : List ℕ
  pub a_leaf_cvs : List ℕ

-- What a builder gives: its proof, the empty vector, or an exception.
pub data Built : Type 0 where
  built : List ℕ → Built
  refused : Built
  threw : Built

unfoldable pub hash_bytes_set : List ℕ → Bool
hash_bytes_set [] = false
hash_bytes_set (b ∷ bs) = not (b == 0) || hash_bytes_set bs

-- `proof_roots_for_share`; the roots are the hashes that it returns.
unfoldable pub proof_roots_for_share : OwnedProof → OwnedProof → Found → Bool
proof_roots_for_share a_proof b_proof share =
    if ltb (length a_proof.root) 32 || ltb (length b_proof.root) 32
    then false
    else if hash_bytes_set share.hash_a && not (same_text (take 32 a_proof.root) share.hash_a)
    then false
    else not (hash_bytes_set share.encoded.hash_b)
      || same_text (take 32 b_proof.root) share.encoded.hash_b

unfoldable pub chunks_of : ℕ → ℕ → List ℕ → List (List ℕ)
chunks_of zero k bytes = []
chunks_of (suc n) k bytes = take k bytes ∷ chunks_of n k (drop k bytes)

-- The opened columns of B, each expanded by itself, or cut out of the whole of B.
unfoldable pub targeted_columns : Blake3 → List ℕ → ℕ → List ℕ → List (List ℕ)
targeted_columns lib b_seed k [] = []
targeted_columns lib b_seed k (col ∷ cols) =
    take k (lib.expand b_seed (col * k) k) ∷ targeted_columns lib b_seed k cols

unfoldable pub cached_columns : List ℕ → ℕ → List ℕ → List (List ℕ)
cached_columns b_slice k [] = []
cached_columns b_slice k (col ∷ cols) =
    take k (drop (col * k) b_slice) ∷ cached_columns b_slice k cols

unfoldable pub secret_b : Blake3 → MiningConfig → Bool → List ℕ → List ℕ → List (List ℕ)
secret_b lib cfg targeted b_seed cols =
    if targeted
    then targeted_columns lib b_seed cfg.k cols
    else cached_columns (lib.expand b_seed 0 (cfg.n * cfg.k)) cfg.k cols

-- The rows with the noise of a permutation of their uniform rows.
unfoldable pub noised_rows :
    Blake3 → MiningConfig → List ℕ → List ℕ → List (ℕ × ℕ) → List (List ℕ) → List ℕ → List (List ℕ)
noised_rows lib cfg label seed perm [] indices = []
noised_rows lib cfg label seed perm (row ∷ rows) [] = []
noised_rows lib cfg label seed perm (row ∷ rows) (index ∷ indices) =
    noised row (apply_sparse_permutation perm (uniform_row lib label seed cfg.r index))
    ∷ noised_rows lib cfg label seed perm rows indices

-- `compute_claimed_hash`; `targeted` is bcol_targeted_expand_enabled().
unfoldable pub compute_claimed_hash :
    Blake3 → MiningConfig → Bool → Found → List ℕ → List ℕ → List ℕ → List ℕ
compute_claimed_hash lib cfg targeted share job_key hash_a hash_b =
    let seeds = derive_noise_seeds lib job_key hash_a hash_b in
    let h = length share.a_row_indices in
    let w = length share.encoded.b_col_indices in
    let secret_a = chunks_of h cfg.k share.encoded.a_slice in
    let columns = secret_b lib cfg targeted share.encoded.b_seed share.encoded.b_col_indices in
    let perm_a = generate_permutation_matrix lib seed_label_a seeds.1 cfg.k cfg.r in
    let perm_b = generate_permutation_matrix lib seed_label_b seeds.0 cfg.k cfg.r in
    let noised_a = noised_rows lib cfg seed_label_a seeds.1 perm_a secret_a share.a_row_indices in
    let noised_b =
      noised_rows lib cfg seed_label_b seeds.0 perm_b columns share.encoded.b_col_indices in
    let tile = replicate h (replicate w 0) in
    let msg = jackpot_loop (cfg.k / cfg.r) 0 cfg.r noised_a noised_b tile (replicate 16 0) in
    jackpot_hash lib msg seeds.1

-- The indices, or the std::invalid_argument of `derive_audit_indices`.
pub data AuditIndices : Type 0 where
  indices : List ℕ → AuditIndices
  invalid_argument : AuditIndices

unfoldable pub audit_words : ℕ → ℕ → List ℕ → List ℕ
audit_words zero total_leaves xof = []
audit_words (suc n) total_leaves xof =
    le_val (take 4 xof) % total_leaves ∷ audit_words n total_leaves (drop 4 xof)

unfoldable pub derive_audit_indices : Blake3 → List ℕ → List ℕ → ℕ → ℕ → AuditIndices
derive_audit_indices lib claimed_hash b_seed audit_k total_leaves =
    let xof_input = text "akoya-audit-v1" ++ (claimed_hash ++ (b_seed ++ le_bytes 4 audit_k)) in
    let words = audit_words audit_k total_leaves (lib.xof xof_input (audit_k * 4)) in
    if audit_k == 0
    then indices []
    else if ltb 64 audit_k
    then invalid_argument
    else if total_leaves == 0 || not (bit_and total_leaves (total_leaves - 1) == 0)
    then invalid_argument
    else indices words

unfoldable pub live_nbits : Found → ℕ
live_nbits share =
    if share.installed_target_nbits == 0
    then share.encoded.target_nbits
    else share.installed_target_nbits

module _ (lib : Blake3) (merkle : Merkle) (cfg : MiningConfig) (targeted : Bool) where
  unfoldable pub a_proof_of : Found → List ℕ → OwnedProof
  a_proof_of share job_key =
      merkle.a_proof_from_leaf_cvs share.a_leaf_cvs share.a_opened_leaf_data job_key cfg.m cfg.k
        share.a_row_indices

  unfoldable pub b_proof_of : Found → OwnedProof
  b_proof_of share = merkle.proof_for_handle share.encoded.b_col_indices

  -- The claimed hash over the roots of the two proofs.
  unfoldable pub claimed_of : Found → List ℕ → List ℕ
  claimed_of share job_key =
      compute_claimed_hash lib cfg targeted share job_key (take 32 (a_proof_of share job_key).root)
        (take 32 (b_proof_of share).root)

  unfoldable pub clears_target : Found → List ℕ → Bool
  clears_target share claimed =
      (diagnose_share_target claimed (live_nbits share)
        (difficulty_adjustment_factor cfg)).clears_with_daf

  -- The siblings of the audit, empty where none is asked for.
  unfoldable pub audit_siblings_of : Found → List ℕ → AuditIndices
  audit_siblings_of share claimed =
      let total_leaves = (b_proof_of share).total_leaves in
      if share.audit_k == 0 || total_leaves == 0
      then indices []
      else elim (derive_audit_indices lib claimed share.encoded.b_seed share.audit_k total_leaves) [
        | indices is ↦ indices (merkle.audit_paths is)
        | invalid_argument ↦ invalid_argument
      ]

  unfoldable pub submission : Found → List ℕ → List ℕ → List ℕ → List ℕ
  submission share job_key claimed siblings =
      let hash_b = take 32 (b_proof_of share).root in
      encode_share_submission lib.expand
        (record share.encoded { claimed_hash = claimed; hash_b = hash_b }) cfg
        (a_proof_of share job_key) (b_proof_of share) siblings

  -- `build`; `job_key` is that of the job of the SigmaContext.
  unfoldable pub build : Found → List ℕ → Built
  build share job_key =
      let claimed = claimed_of share job_key in
      elim (length share.a_opened_leaf_data == 0) [
        | true ↦ threw
        | false ↦ elim (proof_roots_for_share (a_proof_of share job_key) (b_proof_of share) share) [
          | false ↦ refused
          | true ↦ elim (audit_siblings_of share claimed) [
            | invalid_argument ↦ threw
            | indices siblings ↦ elim (clears_target share claimed) [
              | false ↦ refused
              | true ↦ built (submission share job_key claimed siblings)
            ]
          ]
        ]
      ]

  unfoldable pub plain_proof : Found → List ℕ → ℕ → List ℕ
  plain_proof share job_key cert_version =
      encode_plain_proof cfg (a_proof_of share job_key) (b_proof_of share) share.a_row_indices
        share.encoded.b_col_indices (take 32 (a_proof_of share job_key).root)
        (take 32 (b_proof_of share).root) cert_version

  unfoldable pub build_stratum_plain_proof : Found → List ℕ → ℕ → Built
  build_stratum_plain_proof share job_key cert_version =
      let claimed = claimed_of share job_key in
      elim (length share.a_opened_leaf_data == 0) [
        | true ↦ threw
        | false ↦ elim (proof_roots_for_share (a_proof_of share job_key) (b_proof_of share) share) [
          | false ↦ refused
          | true ↦ elim (clears_target share claimed) [
            | false ↦ refused
            | true ↦ built (plain_proof share job_key cert_version)
          ]
        ]
      ]

  -- `VerifyShare`, where cfg is the configuration of the share's job.
  unfoldable pub verify_share : Found → Bool
  verify_share share =
      let a_proof = a_proof_of share share.job_key in
      let b_proof = b_proof_of share in
      let claimed = claimed_of share share.job_key in
      let gpu_hash = share.encoded.claimed_hash in
      not (length share.a_opened_leaf_data == 0)
      && (merkle.verify_proof a_proof share.job_key a_proof.root
          && (same_text merkle.tree_root share.encoded.hash_b
              && (merkle.verify_proof b_proof share.job_key share.encoded.hash_b
                  && (proof_roots_for_share a_proof b_proof share
                      && ((not (hash_bytes_set gpu_hash) || same_text claimed gpu_hash)
                          && clears_target share claimed)))))
