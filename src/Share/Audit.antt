-- ===== src/Share/Audit.antt =====
-- The audit indices of share_builder.cpp are as many as are asked for, and each is a leaf's.
use prop_miner.Base.{
  ℕ, zero, suc, ◌-◌, ◌*◌, ◌≤◌, ◌<◌, ◌≡◌, refl, inl, inr, Bool-cases, List, ◌++◌, arith, ◌==◌,
  if◌then◌else◌, length, drop, bit_and, All, text, le_bytes,
}
use prop_miner.Share.{Blake3}
use prop_miner.Share.Build.{indices, invalid_argument, audit_words, derive_audit_indices}

length-audit_words : (n t : ℕ) (xof : List ℕ) → length (audit_words n t xof) ≡ n
unfolding audit_words
length-audit_words zero t xof = refl
length-audit_words (suc n) t xof = omega (arith, length-audit_words n t (drop 4 xof))

audit_words_lt : (n t : ℕ) (xof : List ℕ) → 1 ≤ t → All (λ i. i < t) (audit_words n t xof)
unfolding audit_words
audit_words_lt zero t xof h = tt
audit_words_lt (suc n) t xof h = (grind arith, audit_words_lt n t (drop 4 xof) h)

-- For at most 64 indices of a number of leaves that is a power of two (the test of the source), there
-- are as many indices as asked for, and each is below the number of leaves; no other number of leaves
-- gets an index.
pub derive_audit_indices_lem :
    (lib : Blake3) (claimed_hash b_seed : List ℕ) (audit_k total_leaves : ℕ)
    → 1 ≤ audit_k
    → audit_k ≤ 64
    → 1 ≤ total_leaves
    → (is : List ℕ) × (length is ≡ audit_k)
      × All (λ i. i < total_leaves) is
      × (derive_audit_indices lib claimed_hash b_seed audit_k total_leaves
          ≡ (if bit_and total_leaves (total_leaves - 1) == 0 then indices is else invalid_argument))
unfolding derive_audit_indices
derive_audit_indices_lem lib claimed_hash b_seed audit_k total_leaves some_asked few some_leaves =
    let xof_input = text "akoya-audit-v1" ++ (claimed_hash ++ (b_seed ++ le_bytes 4 audit_k)) in
    let xof = lib.xof xof_input (audit_k * 4) in
    (
      audit_words audit_k total_leaves xof,
      length-audit_words audit_k total_leaves xof,
      audit_words_lt audit_k total_leaves xof some_leaves,
      elim (Bool-cases (bit_and total_leaves (total_leaves - 1) == 0)) [
        | inl e ↦ rw e (ground arith)
        | inr e ↦ rw e (ground arith)
      ],
    )
