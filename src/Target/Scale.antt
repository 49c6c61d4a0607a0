-- ===== src/Target/Scale.antt =====
-- The difficulty adjustment: `multiply_target_le_by_u64` of pow_target_utils.cpp.
use native.Mathlib.Nat.{pow-suc, mod-eq_of_lt}
use prop_miner.Base.{
  ℕ, suc, ◌+◌, ◌-◌, ◌*◌, ◌/◌, ◌%◌, ◌^◌, ◌≤◌, ◌<◌, ◌≡◌, refl, sym, ap, ◌∙◌, inl, inr, List, [], ◌∷◌,
  arith, true, false, ltb, leb, ◌==◌, if◌then◌else◌, Bool-cases, length, replicate, le_val,
  le_val-lt, IsByte, IsU64, All, All-replicate,
}
use prop_miner.Target.{
  mul_loop, multiply_target_le_by_u64, adjusted_pow_target_le, nbits_to_target_le,
}
use prop_miner.Target.Compact.{compact_value, nbits_to_target_le_lem, nbits_to_target_le-IsByte}

-- A byte times a uint64_t, with a carry that fits 64 bits, does not reach the end of __int128.
step_fits :
    (b factor carry : ℕ)
    → IsByte b
    → IsU64 factor
    → IsU64 carry
    → ((b * factor + carry) % 2 ^ 128 ≡ b * factor + carry) × IsU64 ((b * factor + carry) / 256)
step_fits b factor carry hb hf hc =
    let product : b * factor ≤ 255 * factor = grind arith in
    (mod-eq_of_lt {m = 2 ^ 128} (omega arith), omega arith)

mul_loop_val :
    (factor carry : ℕ) (bs : List ℕ)
    → IsU64 factor
    → IsU64 carry
    → All IsByte bs
    → (le_val (mul_loop factor carry bs).0 + 256 ^ length bs * (mul_loop factor carry bs).1
        ≡ le_val bs * factor + carry)
      × (length (mul_loop factor carry bs).0 ≡ length bs)
      × All IsByte (mul_loop factor carry bs).0
unfolding mul_loop
mul_loop_val factor carry [] hf hc h = (omega arith, refl, tt)
mul_loop_val factor carry (b ∷ bs) hf hc h =
    let (exact, next) = step_fits b factor carry h.0 hf hc in
    let prod : ℕ = b * factor + carry in
    let last : ℕ = (mul_loop factor (prod / 256) bs).1 in
    let (sum, len, bytes) = mul_loop_val factor (prod / 256) bs hf next h.1 in
    rw exact (
      omega (arith, sum, ap (λ (t : ℕ). t * last) (pow-suc 256 (length bs))),
      ap suc len,
      (omega arith, bytes),
    )

-- The exact product where it fits, else the largest target.
abbrev pub scaled_value : ℕ → ℕ → ℕ
scaled_value target factor =
    if ltb (target * factor) (2 ^ 256) then target * factor else 2 ^ 256 - 1

le_val_full : le_val (replicate 32 0xFF) ≡ 2 ^ 256 - 1
le_val_full = refl

le_val-lt_32 : (bs : List ℕ) → All IsByte bs → length bs ≡ 32 → le_val bs < 2 ^ 256
le_val-lt_32 bs h len =
    let bound : 256 ^ length bs ≡ 256 ^ 32 = ap (λ (n : ℕ). 256 ^ n) len in
    omega (arith, le_val-lt bs h, bound)

pub scaled_fits : (t f : ℕ) → t * f < 2 ^ 256 → scaled_value t f ≡ t * f
scaled_fits t f h = let fits : ltb (t * f) (2 ^ 256) ≡ true = ground arith in rw fits

pub scaled_clamps : (t f : ℕ) → 2 ^ 256 ≤ t * f → scaled_value t f ≡ 2 ^ 256 - 1
scaled_clamps t f h = let over : ltb (t * f) (2 ^ 256) ≡ false = ground arith in rw over

-- `multiply_target_le_by_u64` is multiplication that stops at 2 ^ 256 - 1, for a 32-byte target and
-- a factor from 1 up to 2 ^ 64 - 1.
pub multiply_target_le_by_u64_lem :
    (target : List ℕ) (factor : ℕ)
    → All IsByte target
    → length target ≡ 32
    → 1 ≤ factor
    → IsU64 factor
    → le_val (multiply_target_le_by_u64 target factor) ≡ scaled_value (le_val target) factor
unfolding multiply_target_le_by_u64
multiply_target_le_by_u64_lem target factor h len pos hf =
    let (sum, len', bytes) = mul_loop_val factor 0 target hf (omega arith) h in
    let out : List ℕ = (mul_loop factor 0 target).0 in
    let carry : ℕ = (mul_loop factor 0 target).1 in
    let small = le_val-lt_32 target h len in
    let room = le_val-lt_32 out bytes (len' ∙ len) in
    let total : le_val out + 2 ^ 256 * carry ≡ le_val target * factor =
      omega (arith, sum, ap (λ (n : ℕ). 256 ^ n * carry) len) in
    elim (Bool-cases (leb factor 1)) [
      | inl one ↦
          let unit : factor ≡ 1 = ground arith in
          let same : le_val target * factor ≡ le_val target =
            ap (λ (f : ℕ). le_val target * f) unit ∙ omega arith in
          rw one (sym (scaled_fits (le_val target) factor (omega (arith, same)) ∙ same))
      | inr many ↦ elim (Bool-cases (carry == 0)) [
        | inl none_left ↦
            let none : carry ≡ 0 = ground arith in
            let exact : le_val out ≡ le_val target * factor = omega (arith, total, none) in
            rw (many, none_left) (exact ∙ sym (scaled_fits (le_val target) factor (omega arith)))
        | inr spilled ↦
            let some_left : 1 ≤ carry = ground arith in
            rw (many, spilled)
              (le_val_full
                ∙ sym (scaled_clamps (le_val target) factor (omega (arith, total, some_left))))
      ]
    ]

-- The 32 bytes that `adjusted_pow_target_le` returns hold nbits' target times the adjustment factor,
-- or 2 ^ 256 - 1 where that is larger, for a factor from 1 up to 2 ^ 64 - 1.
pub adjusted_pow_target_le_lem :
    (nbits daf : ℕ)
    → 1 ≤ daf
    → IsU64 daf
    → le_val (adjusted_pow_target_le nbits daf) ≡ scaled_value (compact_value nbits % 2 ^ 256) daf
unfolding adjusted_pow_target_le
adjusted_pow_target_le_lem nbits daf pos hd =
    let (value, len) = nbits_to_target_le_lem nbits in
    multiply_target_le_by_u64_lem (nbits_to_target_le nbits) daf (nbits_to_target_le-IsByte nbits)
      len pos hd
    ∙ ap (λ (t : ℕ). scaled_value t daf) value

-- A factor of 0 leaves the target as it is.
pub multiply_target_le_by_u64-zero : (target : List ℕ) → multiply_target_le_by_u64 target 0 ≡ target
unfolding multiply_target_le_by_u64
multiply_target_le_by_u64-zero target = refl

module _ (target : List ℕ) (factor : ℕ) (h : All IsByte target) (hf : IsU64 factor) where
  multiply-IsByte : All IsByte (multiply_target_le_by_u64 target factor)
  unfolding multiply_target_le_by_u64
  multiply-IsByte = ground (
    arith,
    mul_loop_val factor 0 target hf (omega arith) h,
    All-replicate IsByte 32 0xFF (omega arith),
  )

  length-multiply : length target ≡ 32 → length (multiply_target_le_by_u64 target factor) ≡ 32
  unfolding multiply_target_le_by_u64
  length-multiply len = ground (arith, mul_loop_val factor 0 target hf (omega arith) h)

pub adjusted_pow_target_le-IsByte :
    (nbits daf : ℕ) → IsU64 daf → All IsByte (adjusted_pow_target_le nbits daf)
unfolding adjusted_pow_target_le
adjusted_pow_target_le-IsByte nbits daf h =
    multiply-IsByte (nbits_to_target_le nbits) daf (nbits_to_target_le-IsByte nbits) h

pub length-adjusted_pow_target_le :
    (nbits daf : ℕ) → IsU64 daf → length (adjusted_pow_target_le nbits daf) ≡ 32
unfolding adjusted_pow_target_le
length-adjusted_pow_target_le nbits daf h =
    length-multiply (nbits_to_target_le nbits) daf (nbits_to_target_le-IsByte nbits) h
      (nbits_to_target_le_lem nbits).1
