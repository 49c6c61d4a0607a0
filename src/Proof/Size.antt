-- ===== src/Proof/Size.antt =====
-- The size of an encoded PlainProof.
use prop_miner.Base.{
  ℕ, zero, suc, ◌+◌, ◌*◌, ◌/◌, ◌≤◌, ◌≡◌, refl, List, [], ◌∷◌, ◌++◌, arith, leb, if◌then◌else◌,
  length, take, drop, length-append, length-drop, length-le_bytes,
}
use prop_miner.Config.{MiningConfig}
use prop_miner.Proof.{OwnedProof, leaf_count, sibling_count}
use prop_miner.Proof.Bincode.{
  write_u64, write_leaves, write_indices, write_siblings, write_merkle_proof,
  write_matrix_merkle_proof, encode_plain_proof,
}

length-take_le : (n : ℕ) (xs : List ℕ) → n ≤ length xs → length (take n xs) ≡ n
length-take_le zero xs h = refl
length-take_le (suc n) [] h = absurd (omega arith)
length-take_le (suc n) (x ∷ xs) h = omega (arith, length-take_le n xs (omega arith))

length-write_u64 : (v : ℕ) → length (write_u64 v) ≡ 8
unfolding write_u64
length-write_u64 v = length-le_bytes 8 v

length-write_leaves :
    (n : ℕ) (bytes : List ℕ) → 1024 * n ≤ length bytes → length (write_leaves n bytes) ≡ 1032 * n
unfolding write_leaves
length-write_leaves zero bytes h = refl
length-write_leaves (suc n) bytes h =
    let rest = write_leaves n (drop 1024 bytes) in
    omega (
      arith,
      length-append (write_u64 1024) (take 1024 bytes ++ rest),
      length-append (take 1024 bytes) rest,
      length-take_le 1024 bytes (omega arith),
      length-write_u64 1024,
      length-write_leaves n (drop 1024 bytes) (omega (arith, length-drop 1024 bytes)),
    )

length-write_indices : (indices : List ℕ) → length (write_indices indices) ≡ 8 * length indices
unfolding write_indices
length-write_indices [] = refl
length-write_indices (idx ∷ indices) = omega (
  arith,
  length-append (write_u64 idx) (write_indices indices),
  length-write_u64 idx,
  length-write_indices indices,
)

length-write_siblings :
    (n : ℕ) (bytes : List ℕ) → 32 * n ≤ length bytes → length (write_siblings n bytes) ≡ 32 * n
unfolding write_siblings
length-write_siblings zero bytes h = refl
length-write_siblings (suc n) bytes h = omega (
  arith,
  length-append (take 32 bytes) (write_siblings n (drop 32 bytes)),
  length-take_le 32 bytes (omega arith),
  length-write_siblings n (drop 32 bytes) (omega (arith, length-drop 32 bytes)),
)

-- The bytes of one matrix: its proof, and the indices that it opens.
abbrev pub matrix_size : OwnedProof → List ℕ → ℕ
matrix_size p indices =
    72
    + 1032 * (length p.leaf_data / 1024)
    + 8 * length p.leaf_indices
    + 32 * (length p.siblings / 32)
    + 8 * length indices

length-write_matrix_merkle_proof :
    (p : OwnedProof) (root indices : List ℕ)
    → length root ≡ 32
    → length (write_matrix_merkle_proof p root indices) ≡ matrix_size p indices
unfolding write_matrix_merkle_proof write_merkle_proof leaf_count sibling_count
length-write_matrix_merkle_proof p root indices h =
    let leaves : ℕ = length p.leaf_data / 1024 in
    let sibs : ℕ = length p.siblings / 32 in
    let t1 = write_siblings sibs p.siblings in
    let t2 = write_u64 sibs ++ t1 in
    let t3 = root ++ t2 in
    let t4 = write_u64 p.total_leaves ++ t3 in
    let t5 = write_indices p.leaf_indices ++ t4 in
    let t6 = write_u64 (length p.leaf_indices) ++ t5 in
    let t7 = write_leaves leaves p.leaf_data ++ t6 in
    omega (
      arith,
      length-append (write_u64 leaves ++ t7) (write_u64 (length indices) ++ write_indices indices),
      length-append (write_u64 (length indices)) (write_indices indices),
      length-append (write_u64 leaves) t7,
      length-append (write_leaves leaves p.leaf_data) t6,
      length-append (write_u64 (length p.leaf_indices)) t5,
      length-append (write_indices p.leaf_indices) t4,
      length-append (write_u64 p.total_leaves) t3,
      length-append root t2,
      length-append (write_u64 sibs) t1,
      length-write_u64 leaves,
      length-write_u64 (length indices),
      length-write_u64 (length p.leaf_indices),
      length-write_u64 p.total_leaves,
      length-write_u64 sibs,
      length-write_leaves leaves p.leaf_data (omega arith),
      length-write_indices p.leaf_indices,
      length-write_indices indices,
      length-write_siblings sibs p.siblings (omega arith),
    )

-- A PlainProof takes 32 bytes for its shape, the two matrices, and one byte more from certificate
-- version 2 on, whatever the proofs hold, where the two roots have 32 bytes.
pub length-encode_plain_proof :
    (cfg : MiningConfig) (a b : OwnedProof) (rows cols hash_a hash_b : List ℕ) (version : ℕ)
    → length hash_a ≡ 32
    → length hash_b ≡ 32
    → length (encode_plain_proof cfg a b rows cols hash_a hash_b version)
      ≡ 32 + matrix_size a rows + matrix_size b cols + (if leb 2 version then 1 else 0)
unfolding encode_plain_proof
length-encode_plain_proof cfg a b rows cols hash_a hash_b version ha hb =
    let moe : List ℕ = if leb 2 version then 0 ∷ [] else [] in
    let s1 = write_matrix_merkle_proof b hash_b cols ++ moe in
    let s2 = write_matrix_merkle_proof a hash_a rows ++ s1 in
    let s3 = write_u64 cfg.r ++ s2 in
    let s4 = write_u64 cfg.k ++ s3 in
    let s5 = write_u64 cfg.n ++ s4 in
    let last : length moe ≡ (if leb 2 version then 1 else 0) = ground arith in
    omega (
      arith,
      last,
      length-append (write_u64 cfg.m) s5,
      length-append (write_u64 cfg.n) s4,
      length-append (write_u64 cfg.k) s3,
      length-append (write_u64 cfg.r) s2,
      length-append (write_matrix_merkle_proof a hash_a rows) s1,
      length-append (write_matrix_merkle_proof b hash_b cols) moe,
      length-write_u64 cfg.m,
      length-write_u64 cfg.n,
      length-write_u64 cfg.k,
      length-write_u64 cfg.r,
      length-write_matrix_merkle_proof a hash_a rows ha,
      length-write_matrix_merkle_proof b hash_b cols hb,
    )
