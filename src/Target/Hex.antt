-- ===== src/Target/Hex.antt =====
-- Targets as hexadecimal text: printing (`bytes_to_hex`, `nbits_to_target_hex_be`) and parsing
-- (`hex_target_to_nbits`).
use prop_miner.Base.{
  ℕ, zero, suc, ◌+◌, ◌*◌, ◌%◌, ◌^◌, ◌≡◌, refl, sym, ap, ap₂, ◌∙◌, List, [], ◌∷◌, ◌++◌, arith, true,
  not, ◌||◌, ◌==◌, ==_iff, length, get_or, take, shr, low_bits, le_val, be_val, length-append,
  IsByte, All, holds_below, holds_below-elim,
}
use prop_miner.Target.{
  hex_digit, bytes_to_hex, hex_be_loop, nbits_to_target_hex_be, is_space, hex_value, hex_digits,
  skip_spaces, signed_hex, strtoul_16, strip_0x, hex_pairs, hex_target_to_nbits, target_be_to_nbits,
  nbits_to_target_le,
}
use prop_miner.Target.Compact.{compact_value, nbits_to_target_le_lem, nbits_to_target_le-IsByte}
use native.Mathlib.Nat.{pow-suc}
use prop_miner.Target.Order.{le_val-take-suc, take_32}
use prop_miner.Target.Pack.{IsCompactOf}
use prop_miner.Target.Encode.{get_or-IsByte, target_be_to_nbits-IsCompactOf}

abbrev printed : ℕ → List ℕ
printed b = hex_digit (shr b 4) ∷ hex_digit (low_bits b 4) ∷ []

byte_table : holds_below (λ b. strtoul_16 (printed b) == b) 256 ≡ true
unfolding holds_below hex_digit strtoul_16 signed_hex skip_spaces hex_digits hex_value is_space
byte_table = refl

strtoul_16-printed : (b : ℕ) → IsByte b → strtoul_16 (printed b) ≡ b
strtoul_16-printed b h = (==_iff _ b).0 (holds_below-elim _ 256 b byte_table h)

-- The hexadecimal text of bytes, two digits each, reads back as those bytes.
pub hex_pairs-bytes_to_hex :
    (bs : List ℕ) → All IsByte bs → hex_pairs (length bs) (bytes_to_hex bs) ≡ bs
unfolding hex_pairs bytes_to_hex
hex_pairs-bytes_to_hex [] h = refl
hex_pairs-bytes_to_hex (b ∷ bs) h =
    let byte : low_bits (strtoul_16 (printed b)) 8 ≡ b =
      omega (arith, strtoul_16-printed b h.0, h.0) in
    ap₂ (λ (x : ℕ) (xs : List ℕ). x ∷ xs) byte (hex_pairs-bytes_to_hex bs h.1)

pub length-bytes_to_hex : (bs : List ℕ) → length (bytes_to_hex bs) ≡ 2 * length bs
unfolding bytes_to_hex
length-bytes_to_hex [] = refl
length-bytes_to_hex (b ∷ bs) = omega (arith, length-bytes_to_hex bs)

bytes_to_hex-append :
    (xs ys : List ℕ) → bytes_to_hex (xs ++ ys) ≡ bytes_to_hex xs ++ bytes_to_hex ys
unfolding bytes_to_hex
bytes_to_hex-append [] ys = refl
bytes_to_hex-append (x ∷ xs) ys =
    ap (λ (t : List ℕ). hex_digit (shr x 4) ∷ hex_digit (low_bits x 4) ∷ t)
      (bytes_to_hex-append xs ys)

-- The number of a byte string read from the other end.
be_val-append_last : (xs : List ℕ) (b : ℕ) → be_val (xs ++ b ∷ []) ≡ 256 * be_val xs + b
be_val-append_last [] b = omega arith
be_val-append_last (x ∷ xs) b =
    let more : length (xs ++ b ∷ []) ≡ suc (length xs) = omega (arith, length-append xs (b ∷ [])) in
    omega (
      arith,
      be_val-append_last xs b,
      ap (λ (n : ℕ). x * 256 ^ n) more,
      ap (λ (t : ℕ). x * t) (pow-suc 256 (length xs)),
    )

-- The lowest `i` bytes, highest first.
abbrev from_top : ℕ → List ℕ → List ℕ
from_top zero xs = []
from_top (suc i) xs = get_or xs i 0 ∷ from_top i xs

length-from_top : (i : ℕ) (xs : List ℕ) → length (from_top i xs) ≡ i
length-from_top zero xs = refl
length-from_top (suc i) xs = ap suc (length-from_top i xs)

from_top-IsByte : (i : ℕ) (xs : List ℕ) → All IsByte xs → All IsByte (from_top i xs)
from_top-IsByte zero xs h = tt
from_top-IsByte (suc i) xs h = (get_or-IsByte xs i h, from_top-IsByte i xs h)

be_val-from_top : (i : ℕ) (xs : List ℕ) → be_val (from_top i xs) ≡ le_val (take i xs)
be_val-from_top zero xs = refl
be_val-from_top (suc i) xs =
    let b : ℕ = get_or xs i 0 in
    omega (
      arith,
      be_val-from_top i xs,
      le_val-take-suc i xs,
      ap (λ (n : ℕ). b * 256 ^ n) (length-from_top i xs),
    )

hex_be_loop-from_top : (i : ℕ) (xs : List ℕ) → hex_be_loop i xs ≡ bytes_to_hex (from_top i xs)
unfolding hex_be_loop bytes_to_hex
hex_be_loop-from_top zero xs = refl
hex_be_loop-from_top (suc i) xs =
    ap
      (λ (t : List ℕ).
        hex_digit (shr (get_or xs i 0) 4) ∷ hex_digit (low_bits (get_or xs i 0) 4) ∷ t)
      (hex_be_loop-from_top i xs)

digit-ne-x : holds_below (λ n. not (hex_digit n == b'x' || hex_digit n == b'X')) 16 ≡ true
unfolding holds_below hex_digit
digit-ne-x = refl

strip_0x-printed :
    (b : ℕ) (rest : List ℕ) → IsByte b → strip_0x (printed b ++ rest) ≡ printed b ++ rest
unfolding strip_0x
strip_0x-printed b rest h =
    ground (arith, holds_below-elim _ 16 (low_bits b 4) digit-ne-x (omega arith))

pub strip_0x-bytes_to_hex :
    (bs : List ℕ) → All IsByte bs → strip_0x (bytes_to_hex bs) ≡ bytes_to_hex bs
unfolding bytes_to_hex
strip_0x-bytes_to_hex [] h = unfold strip_0x in refl
strip_0x-bytes_to_hex (b ∷ bs) h = strip_0x-printed b (bytes_to_hex bs) h.0

-- The text of a 32-byte target, highest byte first, is read as that target.
hex_target_to_nbits-bytes_to_hex :
    (bs : List ℕ)
    → All IsByte bs
    → length bs ≡ 32
    → hex_target_to_nbits (bytes_to_hex bs) ≡ target_be_to_nbits bs
unfolding hex_target_to_nbits
hex_target_to_nbits-bytes_to_hex bs h len =
    let size : length (bytes_to_hex bs) ≡ 64 = omega (arith, length-bytes_to_hex bs) in
    let read : hex_pairs 32 (bytes_to_hex bs) ≡ bs =
      ap (λ (n : ℕ). hex_pairs n (bytes_to_hex bs)) (sym len) ∙ hex_pairs-bytes_to_hex bs h in
    rw (strip_0x-bytes_to_hex bs h, size, size, read)

-- `hex_target_to_nbits` reads back what `nbits_to_target_hex_be` prints: the word that it returns is
-- the compact form of the target of nbits.
pub hex_target_to_nbits-nbits_to_target_hex_be :
    (nbits : ℕ)
    → IsCompactOf
        (compact_value nbits % 2 ^ 256)
        (hex_target_to_nbits (nbits_to_target_hex_be nbits))
unfolding nbits_to_target_hex_be
hex_target_to_nbits-nbits_to_target_hex_be nbits =
    let t = nbits_to_target_le nbits in
    let be = from_top 32 t in
    let (value, len) = nbits_to_target_le_lem nbits in
    let bytes = from_top-IsByte 32 t (nbits_to_target_le-IsByte nbits) in
    let target : be_val be ≡ compact_value nbits % 2 ^ 256 =
      be_val-from_top 32 t ∙ ap le_val (take_32 t len) ∙ value in
    rw (hex_be_loop-from_top 32 t, hex_target_to_nbits-bytes_to_hex be bytes refl, ← target)
      (target_be_to_nbits-IsCompactOf be bytes refl)
