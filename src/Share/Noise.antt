-- ===== src/Share/Noise.antt =====
-- The lines of the permutation matrix of share_builder.cpp.
use prop_miner.Base.{
  ℕ, zero, suc, ◌+◌, ◌-◌, ◌*◌, ◌/◌, ◌%◌, ◌^◌, ◌≤◌, ◌<◌, ◌≡◌, ◌≢◌, refl, List, [], ◌∷◌, arith, ltb,
  if◌then◌else◌, length, take, drop, length-append, All, All-append, IsU32, IsByte, le_val,
  le_val-lt, All-take, All-drop, bit_and, bit_and_lt, bit_xor_lt, bit_xor-fixed,
}
use prop_miner.Share.{
  Blake3, mul_hi_u32, get_random_hash, permutation_pair, chunk_pairs, permutation_loop,
  generate_permutation_matrix,
}
use native.Mathlib.Nat.{pow-le-pow_right, mul-lt-mul_of_pos_left}

-- Two places of a row of `rank` entries that are not the same.
abbrev pub IsPair : ℕ → ℕ × ℕ → Type 0
IsPair rank p = (p.0 < rank) × (p.1 < rank) × (p.1 ≢ p.0)

mul_hi_u32_lt : (a b : ℕ) → 1 ≤ a → IsU32 b → mul_hi_u32 a b < a
unfolding mul_hi_u32
mul_hi_u32_lt a b h k = omega (arith, mul-lt-mul_of_pos_left {m = b} {n = 2 ^ 32} {k = a} k h)

-- For a rank of 2 ^ s the two places are in the row and differ.
pub permutation_pair-IsPair :
    (s rand : ℕ) → 1 ≤ s → s ≤ 31 → IsU32 rand → IsPair (2 ^ s) (permutation_pair (2 ^ s) rand)
unfolding permutation_pair
permutation_pair-IsPair s rand h k r =
    let two : 2 ^ 1 ≤ 2 ^ s = pow-le-pow_right (omega arith) h in
    let half : 2 ^ s ≤ 2 ^ 31 = pow-le-pow_right (omega arith) k in
    let first : ℕ = bit_and rand (2 ^ s - 1) in
    let word : ℕ = (1 + mul_hi_u32 (2 ^ s - 1) rand) % 2 ^ 32 in
    let hi = mul_hi_u32_lt (2 ^ s - 1) rand (omega (arith, two)) r in
    let first_lt : first < 2 ^ s = bit_and_lt s rand (2 ^ s - 1) (omega (arith, two)) in
    let word_lt : word < 2 ^ s = omega (arith, hi, half) in
    let word_pos : 1 ≤ word = omega (arith, hi, half) in
    (
      first_lt,
      bit_xor_lt s first word first_lt word_lt,
      λ same. omega (
        arith,
        word_pos,
        bit_xor-fixed (first + word) first word (omega arith) (omega arith) same,
      ),
    )

length-take : (n : ℕ) (xs : List ℕ) → length (take n xs) ≤ n
length-take zero xs = omega arith
length-take (suc n) [] = omega arith
length-take (suc n) (x ∷ xs) = omega (arith, length-take n xs)

word_IsU32 : (bs : List ℕ) → All IsByte bs → IsU32 (le_val (take 4 bs))
word_IsU32 bs h =
    let size : length (take 4 bs) ≤ 4 = length-take 4 bs in
    let power : 256 ^ length (take 4 bs) ≤ 256 ^ 4 = pow-le-pow_right (omega arith) size in
    omega (arith, le_val-lt (take 4 bs) (All-take IsByte 4 bs h), power)

chunk_pairs-IsPair :
    (s len : ℕ) (hash : List ℕ)
    → 1 ≤ s
    → s ≤ 31
    → All IsByte hash
    → (length (chunk_pairs (2 ^ s) len hash) ≡ len)
      × All (IsPair (2 ^ s)) (chunk_pairs (2 ^ s) len hash)
unfolding chunk_pairs
chunk_pairs-IsPair s zero hash h k b = (refl, tt)
chunk_pairs-IsPair s (suc len) hash h k b =
    let ih = chunk_pairs-IsPair s len (drop 4 hash) h k (All-drop IsByte 4 hash b) in
    (
      omega (arith, ih.0),
      (permutation_pair-IsPair s (le_val (take 4 hash)) h k (word_IsU32 hash b), ih.1),
    )

module _ (lib : Blake3) (digest : (message key : List ℕ) → All IsByte (lib.keyed message key)) where
  permutation_loop-IsPair :
      (seed key : List ℕ) (s rounds chunk k : ℕ)
      → 1 ≤ s
      → s ≤ 31
      → k ≤ rounds * 8
      → (length (permutation_loop lib seed key (2 ^ s) rounds chunk k) ≡ k)
        × All (IsPair (2 ^ s)) (permutation_loop lib seed key (2 ^ s) rounds chunk k)
  unfolding permutation_loop get_random_hash
  permutation_loop-IsPair seed key s zero chunk k h t enough = (omega arith, tt)
  permutation_loop-IsPair seed key s (suc rounds) chunk k h t enough =
      let len : ℕ = if ltb k 8 then k else 8 in
      let hash = get_random_hash lib chunk seed key 1 in
      let line = chunk_pairs-IsPair s len hash h t (digest _ _) in
      let ih = permutation_loop-IsPair seed key s rounds (suc chunk) (k - 8) h t (omega arith) in
      (
        grind (
          arith,
          length-append (chunk_pairs (2 ^ s) len hash)
              (permutation_loop lib seed key (2 ^ s) rounds (suc chunk) (k - 8)),
          line.0,
          ih.0,
        ),
        All-append _ _ _ line.1 ih.1,
      )

  -- The matrix for a rank of 2 ^ s, BLAKE3 giving bytes, has one line for each of its k columns, and
  -- each line names two different places of a row with as many entries as the rank is.
  pub generate_permutation_matrix-IsPair :
      (seed key : List ℕ) (s k : ℕ)
      → 1 ≤ s
      → s ≤ 31
      → (length (generate_permutation_matrix lib seed key k (2 ^ s)) ≡ k)
        × All (IsPair (2 ^ s)) (generate_permutation_matrix lib seed key k (2 ^ s))
  unfolding generate_permutation_matrix
  generate_permutation_matrix-IsPair seed key s k h t =
      permutation_loop-IsPair seed key s ((k + 7) / 8) 0 k h t (omega arith)
