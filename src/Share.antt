-- ===== src/Share.antt =====
-- src/host/pearl/share_builder.cpp, the hash of a share. An int8_t is the number of its 8 bits, an int
-- and a uint32_t that of their 32, so that the arithmetic of both wraps alike. The BLAKE3 functions and
-- the expansion of B are in a Rust library.
pub mod Noise
pub mod Build
pub mod Target
pub mod Verified
pub mod Audit
pub mod Leaves
pub mod Samples
mod Runs
use prop_miner.Base.{
  ℕ, zero, suc, ◌+◌, ◌-◌, ◌*◌, ◌/◌, ◌%◌, ◌^◌, Bool, true, false, List, [], ◌∷◌, ◌++◌, ltb, ◌==◌,
  if◌then◌else◌, text, length, get_or, set, take, drop, replicate, shr, low_bits, le_bytes, le_val,
  bit_and, bit_or, bit_xor,
}
use prop_miner.Config.{MiningConfig}
use prop_miner.Proof.Protobuf.{ShareFound}

-- What the library gives: BLAKE3 of a message, under a key (the message first), with a long output of
-- a given length, and the bytes of B from an offset on: `expand seed offset count`. The calls succeed: the
-- exception that pearl_mining_wrapper.cpp makes of an error code is not modelled.
pub record Blake3 : Type 0 where
  pub hash : List ℕ → List ℕ
  pub keyed : List ℕ → List ℕ → List ℕ
  pub xof : List ℕ → ℕ → List ℕ
  pub expand : List ℕ → ℕ → ℕ → List ℕ

abbrev digest_size : ℕ
digest_size = 32

abbrev seed_label_a : List ℕ
seed_label_a = text "A_tensor" ++ replicate 24 0

abbrev seed_label_b : List ℕ
seed_label_b = text "B_tensor" ++ replicate 24 0

unfoldable pub mul_hi_u32 : ℕ → ℕ → ℕ
mul_hi_u32 a b = shr (a * b) 32

-- `prepend_index` is 0 or 1.
unfoldable pub get_random_hash : Blake3 → ℕ → List ℕ → List ℕ → ℕ → List ℕ
get_random_hash lib index seed key prepend_index =
    let before = replicate (prepend_index * 4) 0 in
    let behind = replicate (28 - prepend_index * 4) 0 in
    lib.keyed (before ++ (le_bytes 4 (index + 1) ++ (behind ++ seed))) key

-- The entries of one block that lie in the row, from the index of its first byte on.
unfoldable pub block_entries : ℕ → ℕ → ℕ → List ℕ → List ℕ
block_entries start_index end_index abs_idx [] = []
block_entries start_index end_index abs_idx (b ∷ bs) =
    let rest = block_entries start_index end_index (suc abs_idx) bs in
    if ltb abs_idx start_index
    then rest
    else if ltb abs_idx end_index
    then (low_bits b 6 + 256 - 32) % 256 ∷ rest
    else rest

unfoldable pub row_blocks : Blake3 → List ℕ → List ℕ → ℕ → ℕ → ℕ → ℕ → List ℕ
row_blocks lib seed key start_index end_index block zero = []
row_blocks lib seed key start_index end_index block (suc n) =
    block_entries start_index end_index (block * digest_size)
      (take digest_size (get_random_hash lib block seed key 0))
    ++ row_blocks lib seed key start_index end_index (suc block) n

-- One row of `generate_uniform_random_matrix`; the numbers of blocks fit an int.
unfoldable pub uniform_row : Blake3 → List ℕ → List ℕ → ℕ → ℕ → List ℕ
uniform_row lib seed key num_cols row_index =
    let start_index = row_index * num_cols in
    let end_index = start_index + num_cols in
    let start_block = start_index / digest_size in
    let end_block = (end_index + digest_size - 1) / digest_size in
    row_blocks lib seed key start_index end_index start_block (end_block - start_block)

-- A line of `generate_permutation_matrix` by its random word.
unfoldable pub permutation_pair : ℕ → ℕ → ℕ × ℕ
permutation_pair noise_rank rand =
    let first = bit_and rand (noise_rank - 1) in
    (first, bit_xor first ((1 + mul_hi_u32 (noise_rank - 1) rand) % 2 ^ 32))

-- The first `len` lines of a hash.
unfoldable pub chunk_pairs : ℕ → ℕ → List ℕ → List (ℕ × ℕ)
chunk_pairs noise_rank zero hash = []
chunk_pairs noise_rank (suc len) hash =
    permutation_pair noise_rank (le_val (take 4 hash)) ∷ chunk_pairs noise_rank len (drop 4 hash)

-- The loop over the chunks of eight lines, with the `k` lines that are left.
unfoldable pub permutation_loop : Blake3 → List ℕ → List ℕ → ℕ → ℕ → ℕ → ℕ → List (ℕ × ℕ)
permutation_loop lib seed key noise_rank zero chunk k = []
permutation_loop lib seed key noise_rank (suc rounds) chunk k =
    chunk_pairs noise_rank (if ltb k 8 then k else 8) (get_random_hash lib chunk seed key 1)
    ++ permutation_loop lib seed key noise_rank rounds (suc chunk) (k - 8)

unfoldable pub generate_permutation_matrix : Blake3 → List ℕ → List ℕ → ℕ → ℕ → List (ℕ × ℕ)
generate_permutation_matrix lib seed key k noise_rank =
    permutation_loop lib seed key noise_rank ((k + 7) / 8) 0 k

unfoldable pub apply_sparse_permutation : List (ℕ × ℕ) → List ℕ → List ℕ
apply_sparse_permutation [] entries = []
apply_sparse_permutation ((first, second) ∷ perm) entries =
    (get_or entries first 0 + 256 - get_or entries second 0) % 256
    ∷ apply_sparse_permutation perm entries

unfoldable pub derive_noise_seeds : Blake3 → List ℕ → List ℕ → List ℕ → List ℕ × List ℕ
derive_noise_seeds lib job_key hash_a hash_b =
    let b_noise_seed = lib.hash (job_key ++ hash_b) in
    (b_noise_seed, lib.hash (b_noise_seed ++ hash_a))

-- An int8_t as an int.
unfoldable pub sign_extend : ℕ → ℕ
sign_extend v = if ltb v 128 then v else v + (2 ^ 32 - 256)

-- A row with its noise.
unfoldable pub noised : List ℕ → List ℕ → List ℕ
noised [] ns = []
noised (x ∷ xs) [] = []
noised (x ∷ xs) (n ∷ ns) = (sign_extend x + sign_extend n) % 2 ^ 32 ∷ noised xs ns

unfoldable pub dot : ℕ → List ℕ → List ℕ → ℕ
dot acc [] ys = acc
dot acc (x ∷ xs) [] = acc
dot acc (x ∷ xs) (y ∷ ys) = dot ((acc + x * y) % 2 ^ 32) xs ys

-- The slice of a row between ll - r and ll.
unfoldable pub panel : ℕ → ℕ → List ℕ → List ℕ
panel r lo row = take r (drop lo row)

unfoldable pub tile_row : ℕ → ℕ → List ℕ → List (List ℕ) → List ℕ → List ℕ
tile_row r lo a_row [] tile = []
tile_row r lo a_row (b ∷ bs) [] = []
tile_row r lo a_row (b ∷ bs) (acc ∷ tile) =
    dot acc (panel r lo a_row) (panel r lo b) ∷ tile_row r lo a_row bs tile

unfoldable pub tile_rows : ℕ → ℕ → List (List ℕ) → List (List ℕ) → List (List ℕ) → List (List ℕ)
tile_rows r lo [] bs tile = []
tile_rows r lo (a ∷ rows) bs [] = []
tile_rows r lo (a ∷ rows) bs (t ∷ tile) = tile_row r lo a bs t ∷ tile_rows r lo rows bs tile

unfoldable pub xor_row : ℕ → List ℕ → ℕ
xor_row acc [] = acc
xor_row acc (x ∷ xs) = xor_row (bit_xor acc x) xs

unfoldable pub xor_tile : ℕ → List (List ℕ) → ℕ
xor_tile acc [] = acc
xor_tile acc (row ∷ rows) = xor_tile (xor_row acc row) rows

unfoldable pub rotate_13 : ℕ → ℕ
rotate_13 x = bit_or (x * 2 ^ 13 % 2 ^ 32) (shr x 19)

-- The loop over ll = r, 2 r, … up to k, where `i` counts its rounds; r is not 0.
unfoldable pub jackpot_loop :
    ℕ → ℕ → ℕ → List (List ℕ) → List (List ℕ) → List (List ℕ) → List ℕ → List ℕ
jackpot_loop zero i r rows bs tile msg = msg
jackpot_loop (suc rounds) i r rows bs tile msg =
    let tile' = tile_rows r (i * r) rows bs tile in
    let tid = i % 16 in
    let word = bit_xor (rotate_13 (get_or msg tid 0)) (xor_tile 0 tile') in
    jackpot_loop rounds (suc i) r rows bs tile' (set msg tid word)

unfoldable pub word_bytes : List ℕ → List ℕ
word_bytes [] = []
word_bytes (w ∷ ws) = le_bytes 4 w ++ word_bytes ws

unfoldable pub jackpot_hash : Blake3 → List ℕ → List ℕ → List ℕ
jackpot_hash lib words a_noise_seed = lib.keyed (word_bytes words) a_noise_seed
