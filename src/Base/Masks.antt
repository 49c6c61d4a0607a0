-- ===== src/Base/Masks.antt =====
-- The laws of `bit_and` with a mask of low bits, and of `bit_xor`.
use Prim.Native.Nat.{
  ℕ, zero, suc, ◌+◌, ◌*◌, ◌/◌, ◌%◌, ◌^◌, ◌≤◌, ◌<◌, min, bit_and, bit_xor, digits, differ,
  bit_and-bitwise, bit_xor-bitwise,
}
use mathlib.Core.Path.{◌≡◌, refl, ap}
use native.Mathlib.Nat.{pow-suc}
use native.Mathlib.Omega.{arith}

-- More digits to go than the first number has are as good as any other such count.
digits_fuel :
    (z : ℕ → ℕ) (f : ℕ → ℕ → ℕ) (n m x y : ℕ) → x ≤ n → x ≤ m → digits z f n x y ≡ digits z f m x y
digits_fuel z f zero zero x y p q = refl
digits_fuel z f zero (suc m) zero y p q = refl
digits_fuel z f (suc n) zero zero y p q = refl
digits_fuel z f zero (suc m) (suc x) y p q = absurd (omega arith)
digits_fuel z f (suc n) zero (suc x) y p q = absurd (omega arith)
digits_fuel z f (suc n) (suc m) zero y p q = refl
digits_fuel z f (suc n) (suc m) (suc x) y p q =
    let half : ℕ = suc x / 2 in
    ap (λ (t : ℕ). t * 2 + f (suc x % 2) (y % 2))
      (digits_fuel z f n m half (y / 2) (omega arith) (omega arith))

differ_bits : (x y : ℕ) → x < 2 → y < 2 → differ x y ≡ (x + y) % 2
differ_bits zero y h k = omega arith
differ_bits (suc zero) zero h k = omega arith
differ_bits (suc zero) (suc zero) h k = omega arith
differ_bits (suc zero) (suc (suc y)) h k = absurd (omega arith)
differ_bits (suc (suc x)) y h k = absurd (omega arith)

bit_xor_step : (a b : ℕ) → bit_xor a b ≡ bit_xor (a / 2) (b / 2) * 2 + (a + b) % 2
bit_xor_step zero b = omega (arith, bit_xor-bitwise 0 b, bit_xor-bitwise 0 (b / 2))
bit_xor_step (suc a) b = omega (
  arith,
  bit_xor-bitwise (suc a) b,
  bit_xor-bitwise (suc a / 2) (b / 2),
  digits_fuel (λ x. x) differ a (suc a / 2) (suc a / 2) (b / 2) (omega arith) (omega arith),
  differ_bits (suc a % 2) (b % 2) (omega arith) (omega arith),
)

and_halves : (x y : ℕ) → bit_and x y ≡ 2 * bit_and (x / 2) (y / 2) + min (x % 2) (y % 2)
and_halves zero y = omega (arith, bit_and-bitwise 0 y, bit_and-bitwise 0 (y / 2))
and_halves (suc x) y =
    let half : ℕ = suc x / 2 in
    let fewer = digits_fuel (λ d. zero) min x half half (y / 2) (omega arith) (omega arith) in
    omega (arith, fewer, bit_and-bitwise half (y / 2), bit_and-bitwise (suc x) y)

no_bits : (n x : ℕ) → x ≤ n → bit_and x 0 ≡ 0
no_bits zero x h = let e : x ≡ 0 = omega arith in rw e (bit_and-bitwise 0 0)
no_bits (suc n) x h = omega (arith, no_bits n (x / 2) (omega arith), and_halves x 0)

-- A conjunction has no more bits than its second number.
pub bit_and_lt : (s a b : ℕ) → b < 2 ^ s → bit_and a b < 2 ^ s
bit_and_lt zero a zero k = omega (arith, no_bits a a (omega arith))
bit_and_lt zero a (suc b) k = absurd (omega arith)
bit_and_lt (suc s) a b k =
    omega (
      arith,
      and_halves a b,
      pow-suc 2 s,
      bit_and_lt s (a / 2) (b / 2) (omega (arith, pow-suc 2 s)),
    )

pub bit_xor_lt : (s a b : ℕ) → a < 2 ^ s → b < 2 ^ s → bit_xor a b < 2 ^ s
bit_xor_lt zero zero zero h k = omega (arith, bit_xor-bitwise 0 0)
bit_xor_lt zero zero (suc b) h k = absurd (omega arith)
bit_xor_lt zero (suc a) b h k = absurd (omega arith)
bit_xor_lt (suc s) a b h k = omega (
  arith,
  bit_xor_step a b,
  pow-suc 2 s,
  bit_xor_lt s (a / 2) (b / 2) (omega (arith, pow-suc 2 s)) (omega (arith, pow-suc 2 s)),
)

-- Only 0 leaves a number as it is.
pub bit_xor-fixed : (n a b : ℕ) → a ≤ n → b ≤ n → bit_xor a b ≡ a → b ≡ 0
bit_xor-fixed zero a b h k e = omega arith
bit_xor-fixed (suc n) a b h k e =
    let step = bit_xor_step a b in
    let halves : bit_xor (a / 2) (b / 2) ≡ a / 2 = omega (arith, step, e) in
    omega (arith, step, e, bit_xor-fixed n (a / 2) (b / 2) (omega arith) (omega arith) halves)
