-- ===== src/Base/Digits.antt =====
-- Numbers as strings of bytes, lowest or highest byte first.
use Prim.Native.Nat.{ℕ, zero, suc, ◌+◌, ◌*◌, ◌/◌, ◌^◌, ◌<◌}
use mathlib.Core.Path.{◌≡◌, refl, ap}
use mathlib.Core.List.{List, [], ◌∷◌, ◌++◌}
use native.Mathlib.Nat.{pow-suc}
use native.Mathlib.Omega.{arith}
use prop_miner.Base.Lists.{length, get_or, set, replicate, All}
use prop_miner.Base.Bits.{IsByte, shr, low_bits}

-- The number that a little-endian byte string stands for.
abbrev pub le_val : List ℕ → ℕ
le_val [] = 0
le_val (b ∷ bs) = b + 256 * le_val bs

-- The number that a big-endian byte string stands for.
abbrev pub be_val : List ℕ → ℕ
be_val [] = 0
be_val (b ∷ bs) = b * 256 ^ length bs + be_val bs

-- The `n` bytes of `v`, lowest first: `(uint8_t)(v >> (8 * i))` for i = 0 … n - 1.
abbrev pub le_bytes : ℕ → ℕ → List ℕ
le_bytes zero v = []
le_bytes (suc n) v = low_bits v 8 ∷ le_bytes n (shr v 8)

pub length-le_bytes : (n v : ℕ) → length (le_bytes n v) ≡ n
length-le_bytes zero v = refl
length-le_bytes (suc n) v = ap suc (length-le_bytes n (shr v 8))

pub le_bytes-IsByte : (n v : ℕ) → All IsByte (le_bytes n v)
le_bytes-IsByte zero v = tt
le_bytes-IsByte (suc n) v = (omega arith, le_bytes-IsByte n (shr v 8))

pub le_val-le_bytes : (n v : ℕ) → v < 256 ^ n → le_val (le_bytes n v) ≡ v
le_val-le_bytes zero v h = omega arith
le_val-le_bytes (suc n) v h =
    omega (arith, le_val-le_bytes n (v / 256) (omega (arith, pow-suc 256 n)))

pub le_bytes-le_val : (bs : List ℕ) → All IsByte bs → le_bytes (length bs) (le_val bs) ≡ bs
le_bytes-le_val [] h = refl
le_bytes-le_val (b ∷ bs) h =
    let low : low_bits (b + 256 * le_val bs) 8 ≡ b = omega arith in
    let high : shr (b + 256 * le_val bs) 8 ≡ le_val bs = omega arith in
    rw (low, high, le_bytes-le_val bs h.1)

pub le_val-lt : (bs : List ℕ) → All IsByte bs → le_val bs < 256 ^ length bs
le_val-lt [] h = omega arith
le_val-lt (b ∷ bs) h = omega (arith, le_val-lt bs h.1, h.0, pow-suc 256 (length bs))

pub be_val-lt : (bs : List ℕ) → All IsByte bs → be_val bs < 256 ^ length bs
be_val-lt [] h = omega arith
be_val-lt (b ∷ bs) h = grind (arith, be_val-lt bs h.1, h.0, pow-suc 256 (length bs))

pub le_val-replicate : (n : ℕ) → le_val (replicate n 0) ≡ 0
le_val-replicate zero = refl
le_val-replicate (suc n) = omega (arith, le_val-replicate n)

pub le_val-append : (xs ys : List ℕ) → le_val (xs ++ ys) ≡ le_val xs + 256 ^ length xs * le_val ys
le_val-append [] ys = omega arith
le_val-append (x ∷ xs) ys =
    omega (arith, le_val-append xs ys, ap (λ (t : ℕ). t * le_val ys) (pow-suc 256 (length xs)))

-- Writing one byte changes the value by the difference at that place.
pub le_val-set :
    (xs : List ℕ) (i v : ℕ)
    → i < length xs
    → le_val (set xs i v) + get_or xs i 0 * 256 ^ i ≡ le_val xs + v * 256 ^ i
le_val-set [] i v h = absurd (omega arith)
le_val-set (x ∷ xs) zero v h = omega arith
le_val-set (x ∷ xs) (suc i) v h =
    let old : ℕ = get_or xs i 0 in
    omega (
      arith,
      le_val-set xs i v (omega arith),
      ap (λ (t : ℕ). old * t) (pow-suc 256 i),
      ap (λ (t : ℕ). v * t) (pow-suc 256 i),
    )
