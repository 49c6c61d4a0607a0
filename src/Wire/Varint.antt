-- ===== src/Wire/Varint.antt =====
-- Variable-length integers: `write_varint` and `decode_varint` of mining_v2.cpp.
use native.Mathlib.Nat.{pow-suc, pow-le-pow_right, div-add-mod, mod-eq_of_lt}
use native.Mathlib.Numerals.{towards_suc}
use prop_miner.Base.{
  ℕ, zero, suc, ◌+◌, ◌*◌, ◌/◌, ◌%◌, ◌^◌, ◌≤◌, ◌<◌, ◌≡◌, ap, ap₂, ◌∙◌, inl, inr, List, [], ◌∷◌, ◌++◌,
  arith, true, false, leb, ◌==◌, Bool-cases, length, shr, low_bits, IsByte, IsU64, All, bit_or,
  bit_or-disjoint, bit_or-top,
}
use prop_miner.Wire.{ok, ProtoReader, varint_loop, decode_varint, varint_rounds, write_varint}

abbrev pub reader : ℕ → List ℕ → ProtoReader
reader addr rest = record { addr = addr; rest = rest }

pow-add_seven : (s : ℕ) → 2 ^ (s + 7) ≡ 128 * 2 ^ s
pow-add_seven s = simp towards_suc (
    omega (
      arith,
      pow-suc 2 s,
      pow-suc 2 (suc s),
      pow-suc 2 (suc (suc s)),
      pow-suc 2 (suc (suc (suc s))),
      pow-suc 2 (suc (suc (suc (suc s)))),
      pow-suc 2 (suc (suc (suc (suc (suc s))))),
      pow-suc 2 (suc (suc (suc (suc (suc (suc s)))))),
    ))

-- One round adds seven bits above those that it has.
add_group :
    (acc b shift : ℕ)
    → acc < 2 ^ shift
    → acc + low_bits b 7 * 2 ^ shift < 2 ^ 64
    → bit_or acc (low_bits b 7 * 2 ^ shift % 2 ^ 64) ≡ acc + low_bits b 7 * 2 ^ shift
add_group acc b shift h fits =
    ap (bit_or acc) (mod-eq_of_lt {m = 2 ^ 64} (omega arith))
    ∙ bit_or-disjoint shift acc (low_bits b 7) h

mul_mono : (a b c : ℕ) → a ≤ b → a * c ≤ b * c
mul_mono a b c h = grind arith

-- A value that still has eight bits above `shift` leaves room for the next group.
room_above : (v shift : ℕ) → 128 ≤ v → v * 2 ^ shift < 2 ^ 64 → leb 64 (shift + 7) ≡ false
room_above v shift h fits = elim (Bool-cases (leb 64 (shift + 7))) [
  | inl full ↦
      let large : 2 ^ 64 ≤ 2 ^ (shift + 7) =
        pow-le-pow_right (omega arith) {i = 64} (ground arith) in
      let scaled : 128 * 2 ^ shift ≤ v * 2 ^ shift = mul_mono 128 v (2 ^ shift) h in
      absurd (omega (arith, large, scaled, pow-add_seven shift))
  | inr room ↦ room
]

-- The lowest group of `v` and what is above it, both from bit `shift` on.
split_group : (v shift : ℕ) → v * 2 ^ shift ≡ v % 128 * 2 ^ shift + v / 128 * 2 ^ (shift + 7)
split_group v shift = omega (
  arith,
  ap (λ (t : ℕ). t * 2 ^ shift) (div-add-mod v 128),
  ap (λ (t : ℕ). v / 128 * t) (pow-add_seven shift),
)

-- The last byte of a number, and one before it.
last_byte :
    (b acc shift addr : ℕ) (rest : List ℕ)
    → b < 128
    → acc < 2 ^ shift
    → acc + b * 2 ^ shift < 2 ^ 64
    → varint_loop acc shift addr (b ∷ rest) ≡ ok (acc + b * 2 ^ shift, reader (addr + 1) rest)
unfolding varint_loop
last_byte b acc shift addr rest hb ha fits =
    let low : low_bits b 7 ≡ b = omega arith in
    let top : (shr b 7 % 2 == 0) ≡ true = ground arith in
    let sum : bit_or acc (low_bits b 7 * 2 ^ shift % 2 ^ 64) ≡ acc + b * 2 ^ shift =
      add_group acc b shift ha (rw low fits) ∙ rw low in
    rw (top, sum)

inner_byte :
    (g acc shift addr : ℕ) (rest : List ℕ)
    → g < 128
    → acc < 2 ^ shift
    → acc + g * 2 ^ shift < 2 ^ 64
    → leb 64 (shift + 7) ≡ false
    → varint_loop acc shift addr ((g + 128) ∷ rest)
      ≡ varint_loop (acc + g * 2 ^ shift) (shift + 7) (addr + 1) rest
unfolding varint_loop
inner_byte g acc shift addr rest hg ha fits room =
    let low : low_bits (g + 128) 7 ≡ g = omega arith in
    let top : (shr (g + 128) 7 % 2 == 0) ≡ false = ground arith in
    let sum : bit_or acc (low_bits (g + 128) 7 * 2 ^ shift % 2 ^ 64) ≡ acc + g * 2 ^ shift =
      add_group acc (g + 128) shift ha (rw low fits) ∙ rw low in
    rw (top, sum, room)

rounds_last : (k v : ℕ) → v < 128 → varint_rounds (suc k) v ≡ v ∷ []
unfolding varint_rounds
rounds_last k v h =
    let last : leb 0x80 v ≡ false = ground arith in
    let byte : low_bits v 8 ≡ v = omega arith in rw (last, byte)

rounds_more :
    (k v : ℕ) → 128 ≤ v → varint_rounds (suc k) v ≡ (v % 128 + 128) ∷ varint_rounds k (v / 128)
unfolding varint_rounds
rounds_more k v h = let more : leb 0x80 v ≡ true = ground arith in rw (more, bit_or-top v)

varint_loop-rounds :
    (k v acc shift addr : ℕ) (rest : List ℕ)
    → v < 128 ^ suc k
    → acc < 2 ^ shift
    → acc + v * 2 ^ shift < 2 ^ 64
    → varint_loop acc shift addr (varint_rounds (suc k) v ++ rest)
      ≡ ok (acc + v * 2 ^ shift, reader (addr + length (varint_rounds (suc k) v)) rest)
varint_loop-rounds zero v acc shift addr rest hv ha fits =
    rw (rounds_last 0 v (omega arith)) (last_byte v acc shift addr rest (omega arith) ha fits)
varint_loop-rounds (suc k) v acc shift addr rest hv ha fits = elim (Bool-cases (leb 0x80 v)) [
  | inl more ↦
      let large : 128 ≤ v = ground arith in
      let split = split_group v shift in
      let acc' : ℕ = acc + v % 128 * 2 ^ shift in
      let low : v % 128 * 2 ^ shift ≤ 127 * 2 ^ shift =
        mul_mono (v % 128) 127 (2 ^ shift) (omega arith) in
      let sum : acc' + v / 128 * 2 ^ (shift + 7) ≡ acc + v * 2 ^ shift = omega (arith, split) in
      let tail = varint_rounds (suc k) (v / 128) in
      let size : addr + 1 + length tail ≡ addr + suc (length tail) = omega arith in
      let first =
        inner_byte (v % 128) acc shift addr (tail ++ rest) (omega arith) ha (omega (arith, split))
          (room_above v shift large (omega arith)) in
      let others =
        varint_loop-rounds k (v / 128) acc' (shift + 7) (addr + 1) rest
          (omega (arith, pow-suc 128 (suc k))) (omega (arith, low, pow-add_seven shift))
          (omega (arith, sum)) in
      rw (rounds_more (suc k) v large)
        (first ∙ others ∙ ap₂ (λ (x a : ℕ). ok (x, reader a rest)) sum size)
  | inr last ↦
      rw (rounds_last (suc k) v (ground arith))
        (last_byte v acc shift addr rest (ground arith) ha fits)
]

-- `decode_varint` reads back the uint64_t that `write_varint` wrote, and stops behind it.
pub decode_varint-write_varint :
    (v addr : ℕ) (rest : List ℕ)
    → IsU64 v
    → decode_varint (reader addr (write_varint v ++ rest))
      ≡ ok (v, reader (addr + length (write_varint v)) rest)
unfolding decode_varint write_varint
decode_varint-write_varint v addr rest h =
    let whole : 0 + v * 2 ^ 0 ≡ v = omega arith in
    varint_loop-rounds 9 v 0 0 addr rest (omega arith) (omega arith) (omega arith)
    ∙ ap (λ (x : ℕ). ok (x, reader (addr + length (varint_rounds 10 v)) rest)) whole

-- A uint64_t takes 1 to 10 bytes.
length-varint_rounds :
    (k v : ℕ)
    → All IsByte (varint_rounds (suc k) v)
      × (1 ≤ length (varint_rounds (suc k) v))
      × (length (varint_rounds (suc k) v) ≤ k + 1)
unfolding varint_rounds
length-varint_rounds zero v = ground arith
length-varint_rounds (suc k) v = ground (arith, length-varint_rounds k (v / 128))

-- What `write_varint` appends is 1 to 10 bytes.
pub write_varint_shape :
    (v : ℕ)
    → All IsByte (write_varint v) × (1 ≤ length (write_varint v)) × (length (write_varint v) ≤ 10)
unfolding write_varint
write_varint_shape v = length-varint_rounds 9 v
