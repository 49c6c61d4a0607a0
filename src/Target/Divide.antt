-- ===== src/Target/Divide.antt =====
-- Big-endian multiplication and long division of pow_target_utils.cpp, behind the pool's difficulty.
use native.Mathlib.Nat.{
  pow-suc, mod-eq_of_lt, add-mul-div_left, div-lt_iff_lt-mul, div-eq_of_lt, mod-lt, div-add-mod,
}
use prop_miner.Base.{
  ℕ, suc, ◌+◌, ◌-◌, ◌*◌, ◌/◌, ◌%◌, ◌^◌, ◌≤◌, ◌<◌, ◌≡◌, refl, sym, ap, ◌∙◌, inl, inr, List, [], ◌∷◌,
  arith, false, ◌==◌, Bool-cases, length, replicate, be_val, be_val-lt, IsByte, IsU32, All,
  All-replicate, bit_or, bit_or-disjoint_left,
}
use prop_miner.Target.Scale.{scaled_value, scaled_fits, scaled_clamps}
use prop_miner.Target.{be_mul_loop, be_mul_u32_inplace, be_div_loop, be_div_u64}

be_step_fits :
    (b m carry : ℕ)
    → IsByte b
    → IsU32 m
    → IsU32 carry
    → ((b * m + carry) % 2 ^ 64 ≡ b * m + carry) × IsU32 ((b * m + carry) / 256)
be_step_fits b m carry hb hm hc =
    let product : b * m ≤ 255 * m = grind arith in
    (mod-eq_of_lt {m = 2 ^ 64} (omega arith), omega arith)

be_mul_loop_val :
    (m : ℕ) (bs : List ℕ)
    → IsU32 m
    → All IsByte bs
    → (be_val (be_mul_loop m bs).0 + 256 ^ length bs * (be_mul_loop m bs).1 ≡ be_val bs * m)
      × IsU32 (be_mul_loop m bs).1
      × (length (be_mul_loop m bs).0 ≡ length bs)
      × All IsByte (be_mul_loop m bs).0
unfolding be_mul_loop
be_mul_loop_val m [] hm h = (omega arith, omega arith, refl, tt)
be_mul_loop_val m (b ∷ bs) hm h =
    let (sum, fits, len, bytes) = be_mul_loop_val m bs hm h.1 in
    let carry : ℕ = (be_mul_loop m bs).1 in
    let (exact, next) = be_step_fits b m carry h.0 hm fits in
    let v : ℕ = b * m + carry in
    let p : ℕ = 256 ^ length bs in
    let split : v ≡ v % 256 + 256 * (v / 256) = omega arith in
    rw exact (
      omega (
        arith,
        sum,
        ap (λ (n : ℕ). v % 256 * 256 ^ n) len,
        ap (λ (t : ℕ). v / 256 * t) (pow-suc 256 (length bs)),
        ap (λ (t : ℕ). t * p) split,
      ),
      next,
      ap suc len,
      (omega arith, bytes),
    )

-- One digit of long division: its quotient is a byte, since the remainder is below the divisor.
div_step :
    (d rem b : ℕ)
    → rem < d
    → d ≤ 2 ^ 56
    → IsByte b
    → (bit_or (rem * 2 ^ 8 % 2 ^ 64) b ≡ rem * 256 + b) × ((rem * 256 + b) / d < 256)
div_step d rem b hr hd hb =
    let exact : rem * 256 % 2 ^ 64 ≡ rem * 256 = omega arith in
    (
      ap (λ (t : ℕ). bit_or t b) exact ∙ bit_or-disjoint_left 8 b rem hb,
      (div-lt_iff_lt-mul (omega arith)).1 (omega arith),
    )

be_div_loop_val :
    (d rem : ℕ) (bs : List ℕ)
    → rem < d
    → d ≤ 2 ^ 56
    → All IsByte bs
    → (be_val (be_div_loop d rem bs) ≡ (rem * 256 ^ length bs + be_val bs) / d)
      × (length (be_div_loop d rem bs) ≡ length bs)
      × All IsByte (be_div_loop d rem bs)
unfolding be_div_loop
be_div_loop_val d rem [] hr hd h =
    (let none : rem * 256 ^ 0 + 0 ≡ rem = omega arith in rw none (sym (div-eq_of_lt hr)), refl, tt)
be_div_loop_val d rem (b ∷ bs) hr hd h =
    let (shifted, digit) = div_step d rem b hr hd h.0 in
    let step : ℕ = rem * 256 + b in
    let p : ℕ = 256 ^ length bs in
    let pos : 0 < d = omega arith in
    let below : step % d < d = mod-lt step pos in
    let (quotient, len, bytes) = be_div_loop_val d (step % d) bs below hd h.1 in
    let byte : step / d % 256 ≡ step / d = mod-eq_of_lt digit in
    let split : (rem * 256 ^ suc (length bs) + (b * p + be_val bs))
        ≡ (step % d * p + be_val bs) + d * (step / d * p) =
      omega (
        arith,
        ap (λ (t : ℕ). rem * t) (pow-suc 256 (length bs)),
        ap (λ (t : ℕ). t * p) (div-add-mod step d),
      ) in
    rw (shifted, byte)
      (
        ap (λ (n : ℕ). step / d * 256 ^ n + be_val (be_div_loop d (step % d) bs)) len
            ∙ omega
                (arith, quotient, add-mul-div_left (step % d * p + be_val bs) (step / d * p) pos)
            ∙ ap (λ (t : ℕ). t / d) (sym split),
        ap suc len,
        (digit, bytes),
      )

-- `be_div_u64` divides a big-endian number by a divisor from 1 up to 2 ^ 56, rounding down, and
-- keeps its length in bytes.
pub be_div_u64_lem :
    (be : List ℕ) (d : ℕ)
    → All IsByte be
    → 1 ≤ d
    → d ≤ 2 ^ 56
    → (be_val (be_div_u64 be d) ≡ be_val be / d)
      × (length (be_div_u64 be d) ≡ length be)
      × All IsByte (be_div_u64 be d)
unfolding be_div_u64
be_div_u64_lem be d h pos hd =
    let set : (d == 0) ≡ false = ground arith in
    let (quotient, len, bytes) = be_div_loop_val d 0 be pos hd h in
    let plain : 0 * 256 ^ length be + be_val be ≡ be_val be = omega arith in
    rw set (quotient ∙ ap (λ (t : ℕ). t / d) plain, len, bytes)

be_val-lt_32 : (bs : List ℕ) → All IsByte bs → length bs ≡ 32 → be_val bs < 2 ^ 256
be_val-lt_32 bs h len =
    let bound : 256 ^ length bs ≡ 256 ^ 32 = ap (λ (n : ℕ). 256 ^ n) len in
    omega (arith, be_val-lt bs h, bound)

be_val_full : be_val (replicate 32 0xFF) ≡ 2 ^ 256 - 1
be_val_full = refl

-- `be_mul_u32_inplace` multiplies a 32-byte big-endian number by a uint32_t and stops at 2 ^ 256 - 1;
-- the result has 32 bytes.
pub be_mul_u32_inplace_lem :
    (be : List ℕ) (m : ℕ)
    → All IsByte be
    → length be ≡ 32
    → IsU32 m
    → (be_val (be_mul_u32_inplace be m) ≡ scaled_value (be_val be) m)
      × (length (be_mul_u32_inplace be m) ≡ 32)
      × All IsByte (be_mul_u32_inplace be m)
unfolding be_mul_u32_inplace
be_mul_u32_inplace_lem be m h len hm =
    let (sum, fits, len', bytes) = be_mul_loop_val m be hm h in
    let out : List ℕ = (be_mul_loop m be).0 in
    let carry : ℕ = (be_mul_loop m be).1 in
    let room = be_val-lt_32 out bytes (len' ∙ len) in
    let total : be_val out + 2 ^ 256 * carry ≡ be_val be * m =
      omega (arith, sum, ap (λ (n : ℕ). 256 ^ n * carry) len) in
    elim (Bool-cases (carry == 0)) [
      | inl none_left ↦
          let none : carry ≡ 0 = ground arith in
          let exact : be_val out ≡ be_val be * m = omega (arith, total, none) in
          rw none_left (exact ∙ sym (scaled_fits (be_val be) m (omega arith)), len' ∙ len, bytes)
      | inr spilled ↦
          let some_left : 1 ≤ carry = ground arith in
          rw spilled (
            be_val_full ∙ sym (scaled_clamps (be_val be) m (omega (arith, total, some_left))),
            refl,
            All-replicate IsByte 32 0xFF (omega arith),
          )
    ]
