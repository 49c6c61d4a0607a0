-- ===== src/Base/Bits.antt =====
-- Bytes and words: bounds, shifts and masks in the form that `omega` reads, and the laws of `bit_or`.
use Prim.Native.Nat.{
  ℕ, zero, suc, ◌+◌, ◌*◌, ◌/◌, ◌%◌, ◌^◌, ◌≤◌, ◌<◌, max, bit_or, digits, bit_or-bitwise,
}
use mathlib.Core.Bool.{Bool, true, ◌&&◌}
use mathlib.Core.Path.{◌≡◌, refl, ap}
use native.Mathlib.Nat.{pow-suc}
use native.Mathlib.Omega.{arith}

abbrev pub IsByte : ℕ → Type 0
IsByte b = b < 256

abbrev pub IsU32 : ℕ → Type 0
IsU32 v = v < 2 ^ 32

abbrev pub IsU64 : ℕ → Type 0
IsU64 v = v < 2 ^ 64

abbrev pub shr : ℕ → ℕ → ℕ
shr x k = x / 2 ^ k

-- x & (2^k - 1), and a cast to k bits.
abbrev pub low_bits : ℕ → ℕ → ℕ
low_bits x k = x % 2 ^ k

abbrev or_digits : ℕ → ℕ → ℕ → ℕ
or_digits n a b = digits (λ b. b) max n a b

or_digits_fuel : (n m a b : ℕ) → a ≤ n → a ≤ m → or_digits n a b ≡ or_digits m a b
or_digits_fuel zero zero a b p q = refl
or_digits_fuel zero (suc m) zero b p q = refl
or_digits_fuel zero (suc m) (suc a) b p q = absurd (omega arith)
or_digits_fuel (suc n) zero zero b p q = refl
or_digits_fuel (suc n) zero (suc a) b p q = absurd (omega arith)
or_digits_fuel (suc n) (suc m) zero b p q = refl
or_digits_fuel (suc n) (suc m) (suc a) b p q =
    omega (arith, or_digits_fuel n m (suc a / 2) (b / 2) (omega arith) (omega arith))

pub zero-bit_or : (b : ℕ) → bit_or 0 b ≡ b
zero-bit_or b = bit_or-bitwise 0 b

pub bit_or_step : (a b : ℕ) → bit_or a b ≡ bit_or (a / 2) (b / 2) * 2 + max (a % 2) (b % 2)
bit_or_step zero b = omega (arith, zero-bit_or b, zero-bit_or (b / 2))
bit_or_step (suc a) b = omega (
  arith,
  bit_or-bitwise (suc a) b,
  bit_or-bitwise (suc a / 2) (b / 2),
  or_digits_fuel a (suc a / 2) (suc a / 2) (b / 2) (omega arith) (omega arith),
)

bit_or-zero_fuel : (n a : ℕ) → a ≤ n → bit_or a 0 ≡ a
bit_or-zero_fuel n zero h = refl
bit_or-zero_fuel zero (suc a) h = absurd (omega arith)
bit_or-zero_fuel (suc n) (suc a) h =
    omega (arith, bit_or_step (suc a) 0, bit_or-zero_fuel n (suc a / 2) (omega arith))

pub bit_or-zero : (a : ℕ) → bit_or a 0 ≡ a
bit_or-zero a = bit_or-zero_fuel a a (omega arith)

pub bit_or_even : (a m : ℕ) → bit_or a (m * 2) ≡ bit_or (a / 2) m * 2 + a % 2
bit_or_even a m =
    let e : m * 2 / 2 ≡ m = omega arith in
    omega (arith, bit_or_step a (m * 2), ap (λ (t : ℕ). bit_or (a / 2) t * 2) e)

-- Bits that do not overlap are added.
pub bit_or-disjoint : (s a x : ℕ) → a < 2 ^ s → bit_or a (x * 2 ^ s) ≡ a + x * 2 ^ s
bit_or-disjoint zero zero x h = omega (arith, zero-bit_or (x * 2 ^ 0))
bit_or-disjoint zero (suc a) x h = absurd (omega arith)
bit_or-disjoint (suc s) a x h =
    let shifted : x * 2 ^ suc s ≡ x * 2 ^ s * 2 =
      omega (arith, ap (λ (t : ℕ). x * t) (pow-suc 2 s)) in
    rw shifted (
      omega (
        arith,
        bit_or_even a (x * 2 ^ s),
        bit_or-disjoint s (a / 2) x (omega (arith, pow-suc 2 s)),
      ))

bit_or-one : (a : ℕ) → bit_or a 1 ≡ a / 2 * 2 + 1
bit_or-one a = omega (arith, bit_or_step a 1, bit_or-zero (a / 2))

-- (uint8_t)(v | 0x80): the low seven bits with the top bit set.
pub bit_or-top : (v : ℕ) → bit_or v 0x80 % 256 ≡ v % 128 + 128
bit_or-top v = omega (
  arith,
  bit_or_even v 64,
  bit_or_even (v / 2) 32,
  bit_or_even (v / 2 / 2) 16,
  bit_or_even (v / 2 / 2 / 2) 8,
  bit_or_even (v / 2 / 2 / 2 / 2) 4,
  bit_or_even (v / 2 / 2 / 2 / 2 / 2) 2,
  bit_or_even (v / 2 / 2 / 2 / 2 / 2 / 2) 1,
  bit_or-one (v / 2 / 2 / 2 / 2 / 2 / 2 / 2),
)

bit_or_comm_fuel : (n a b : ℕ) → a ≤ n → bit_or a b ≡ bit_or b a
bit_or_comm_fuel n zero b h = omega (arith, zero-bit_or b, bit_or-zero b)
bit_or_comm_fuel zero (suc a) b h = absurd (omega arith)
bit_or_comm_fuel (suc n) (suc a) b h = omega (
  arith,
  bit_or_step (suc a) b,
  bit_or_step b (suc a),
  bit_or_comm_fuel n (suc a / 2) (b / 2) (omega arith),
)

pub bit_or_comm : (a b : ℕ) → bit_or a b ≡ bit_or b a
bit_or_comm a b = bit_or_comm_fuel a a b (omega arith)

-- The same with the shifted number on the left.
pub bit_or-disjoint_left : (s a x : ℕ) → a < 2 ^ s → bit_or (x * 2 ^ s) a ≡ x * 2 ^ s + a
bit_or-disjoint_left s a x h = omega (arith, bit_or_comm (x * 2 ^ s) a, bit_or-disjoint s a x h)

-- A test of every number below a bound, by evaluation.
unfoldable pub holds_below : (ℕ → Bool) → ℕ → Bool
holds_below p zero = true
holds_below p (suc n) = holds_below p n && p n

pub holds_below-elim : (p : ℕ → Bool) (n x : ℕ) → holds_below p n ≡ true → x < n → p x ≡ true
unfolding holds_below
holds_below-elim p zero x h lt = absurd (omega arith)
holds_below-elim p (suc n) x h lt = ground (arith, holds_below-elim p n x)
