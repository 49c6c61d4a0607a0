-- ===== src/Challenge/Hex.antt =====
-- Seeds and nonces as hexadecimal text.
use prop_miner.Base.{
  ℕ, ◌*◌, ◌%◌, ◌/◌, ◌^◌, ◌<◌, ◌≡◌, refl, ◌∙◌, List, [], ◌∷◌, arith, some, length, IsByte, All,
  bit_or, bit_or-disjoint_left,
}
use prop_miner.Challenge.{nibble, seed_bytes, strip_prefix, hex_to_seed}
use prop_miner.Target.{bytes_to_hex, hex_digit, strip_0x}
use prop_miner.Target.Hex.{strip_0x-bytes_to_hex, length-bytes_to_hex}

nibble-hex_digit : (n : ℕ) → n < 16 → nibble (hex_digit n) ≡ some n
unfolding nibble hex_digit
nibble-hex_digit n h = ground arith

seed_bytes-bytes_to_hex : (bs : List ℕ) → All IsByte bs → seed_bytes (bytes_to_hex bs) ≡ some bs
unfolding seed_bytes bytes_to_hex
seed_bytes-bytes_to_hex [] h = refl
seed_bytes-bytes_to_hex (b ∷ bs) h =
    let whole : bit_or (b / 2 ^ 4 * 2 ^ 4) (b % 2 ^ 4) ≡ b =
      bit_or-disjoint_left 4 (b % 2 ^ 4) (b / 2 ^ 4) (omega arith) ∙ omega arith in
    let byte : b % 2 ^ 8 ≡ b = omega (arith, h.0) in
    rw (
      nibble-hex_digit (b / 2 ^ 4) (omega (arith, h.0)),
      seed_bytes,
      nibble-hex_digit (b % 2 ^ 4) (omega arith),
      seed_bytes-bytes_to_hex bs h.1,
      whole,
      byte,
    )

strip_prefix-strip_0x : (h : List ℕ) → strip_prefix h ≡ strip_0x h
unfolding strip_prefix strip_0x
strip_prefix-strip_0x [] = refl
strip_prefix-strip_0x (z ∷ []) = refl
strip_prefix-strip_0x (z ∷ x ∷ h) = refl

-- A seed of 32 bytes is read back from its hexadecimal text, with or without 0x before it.
pub hex_to_seed-bytes_to_hex :
    (seed : List ℕ)
    → All IsByte seed
    → length seed ≡ 32
    → (hex_to_seed (bytes_to_hex seed) ≡ some seed)
      × (hex_to_seed (b'0' ∷ b'x' ∷ bytes_to_hex seed) ≡ some seed)
unfolding hex_to_seed strip_prefix
hex_to_seed-bytes_to_hex seed h len =
    let size : length (bytes_to_hex seed) ≡ 64 = omega (arith, length-bytes_to_hex seed) in
    let bare = strip_prefix-strip_0x (bytes_to_hex seed) ∙ strip_0x-bytes_to_hex seed h in
    rw (bare, size, seed_bytes-bytes_to_hex seed h) (refl, refl)
