-- ===== src/Config/Pattern.antt =====
-- The six bytes of a periodic pattern.
use native.Mathlib.Nat.{mod-eq_of_lt, mul-div_cancel}
use prop_miner.Base.{ℕ, ◌-◌, ◌*◌, ◌/◌, ◌^◌, ◌≤◌, ◌≡◌, ap, ap₂, ◌∙◌, [], ◌∷◌, arith, IsU32}
use prop_miner.Config.{PeriodicPattern, pattern_bytes, dimension_bytes}

-- A factor or a length that fits a byte once 1 is taken off.
abbrev pub IsExtent : ℕ → Type 0
IsExtent n = (1 ≤ n) × (n ≤ 256)

dimension_bytes_lem :
    (unit factor count : ℕ)
    → 1 ≤ unit
    → IsExtent factor
    → IsExtent count
    → dimension_bytes unit (factor * unit) count ≡ (factor - 1) ∷ (count - 1) ∷ []
unfolding dimension_bytes
dimension_bytes_lem unit factor count h hf hc =
    let exact : factor * unit / unit ≡ factor = mul-div_cancel factor (omega arith) in
    rw exact (ap₂ (λ (x y : ℕ). x ∷ y ∷ []) (omega arith) (omega arith))

-- A pattern that is built from three factors and three lengths, each from 1 up to 256.
abbrev pub pattern_of : ℕ → ℕ → ℕ → ℕ → ℕ → ℕ → PeriodicPattern
pattern_of f0 l0 f1 l1 f2 l2 = record {
  stride0 = f0;
  length0 = l0;
  stride1 = f1 * (f0 * l0);
  length1 = l1;
  stride2 = f2 * (f1 * (f0 * l0) * l1);
  length2 = l2;
}

positive_mul : (a b : ℕ) → 1 ≤ a → 1 ≤ b → 1 ≤ a * b
positive_mul a b ha hb = grind arith

-- `PeriodicPattern::to_bytes` writes the three factors and the three lengths, each less 1, where a
-- stride is its factor times the extent below it, the factors and lengths are from 1 up to 256, and
-- the extents fit 32 bits.
pub pattern_bytes-pattern_of :
    (f0 l0 f1 l1 f2 l2 : ℕ)
    → IsExtent f0
    → IsExtent l0
    → IsExtent f1
    → IsExtent l1
    → IsExtent f2
    → IsExtent l2
    → IsU32 (f1 * (f0 * l0) * l1)
    → IsU32 (f0 * l0)
    → pattern_bytes (pattern_of f0 l0 f1 l1 f2 l2)
      ≡ (f0 - 1) ∷ (l0 - 1) ∷ (f1 - 1) ∷ (l1 - 1) ∷ (f2 - 1) ∷ (l2 - 1) ∷ []
unfolding pattern_bytes
pattern_bytes-pattern_of f0 l0 f1 l1 f2 l2 hf0 hl0 hf1 hl1 hf2 hl2 h1 h0 =
    let u1 : ℕ = f0 * l0 in
    let u2 : ℕ = f1 * u1 * l1 in
    let pos1 = positive_mul f0 l0 hf0.0 hl0.0 in
    let pos2 = positive_mul (f1 * u1) l1 (positive_mul f1 u1 hf1.0 pos1) hl1.0 in
    let first : dimension_bytes 1 f0 l0 ≡ (f0 - 1) ∷ (l0 - 1) ∷ [] =
      ap (λ (s : ℕ). dimension_bytes 1 s l0) (omega arith)
      ∙ dimension_bytes_lem 1 f0 l0 (omega arith) hf0 hl0 in
    rw (
      mod-eq_of_lt {m = 2 ^ 32} h0,
      mod-eq_of_lt {m = 2 ^ 32} h1,
      first,
      dimension_bytes_lem u1 f1 l1 pos1 hf1 hl1,
      dimension_bytes_lem u2 f2 l2 pos2 hf2 hl2,
    )
