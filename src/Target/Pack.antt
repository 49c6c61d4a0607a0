-- ===== src/Target/Pack.antt =====
-- Packing a mantissa and a length into a compact word: the end of `target_be_to_nbits`.
use native.Mathlib.Nat.{pow-suc}
use prop_miner.Base.{
  ℕ, zero, suc, ◌+◌, ◌-◌, ◌*◌, ◌/◌, ◌%◌, ◌^◌, ◌≤◌, ◌<◌, ◌≡◌, ◌≢◌, ap, ◌∙◌, inl, inr, List, [], ◌∷◌,
  arith, true, false, leb, if◌then◌else◌, Bool-cases, length, get_or, be_val, be_val-lt, IsByte,
  IsU32, All, bit_or-disjoint_left,
}
use prop_miner.Target.{pack_nbits}
use prop_miner.Target.Compact.{compact_value}

-- What is asked of a compact form of `value`: it is a word with a clear sign bit, and `value` less
-- what it stands for is below one unit of its last place.
pub record IsCompactOf (value nbits : ℕ) : Type 0 where
  pub word : IsU32 nbits
  pub positive : nbits / 2 ^ 23 % 2 ≡ 0
  pub below : compact_value nbits ≤ value
  pub near : value < compact_value nbits + 256 ^ (nbits / 2 ^ 24 - 3)

-- The packed word, with the shift that keeps bit 23 clear.
unfoldable pub packed : ℕ → ℕ → ℕ
packed mantissa len =
    if leb (2 ^ 23) mantissa then (len + 1) * 2 ^ 24 + mantissa / 256 else len * 2 ^ 24 + mantissa

pub pack_nbits_lem :
    (mantissa len : ℕ)
    → mantissa < 2 ^ 24
    → len ≤ 32
    → pack_nbits mantissa len ≡ packed mantissa len
unfolding pack_nbits packed
pack_nbits_lem mantissa len hm hl =
    let exp : len * 2 ^ 24 % 2 ^ 32 ≡ len * 2 ^ 24 = omega arith in
    let exp' : (len + 1) * 2 ^ 24 % 2 ^ 32 ≡ (len + 1) * 2 ^ 24 = omega arith in
    let low : mantissa % 2 ^ 24 ≡ mantissa = omega arith in
    let low' : mantissa / 256 % 2 ^ 24 ≡ mantissa / 256 = omega arith in
    rw
      (
        exp,
        exp',
        low,
        low',
        bit_or-disjoint_left 24 mantissa len hm,
        bit_or-disjoint_left 24 (mantissa / 256) (len + 1) (omega arith),
      )
      (ground arith)

-- The three highest bytes of a byte string, missing ones as 0.
unfoldable pub top_three : List ℕ → ℕ
top_three u = get_or u 0 0 * 65536 + get_or u 1 0 * 256 + get_or u 2 0

-- A compact word by its two fields.
compact_fields :
    (exp m : ℕ)
    → m < 2 ^ 24
    → compact_value (exp * 2 ^ 24 + m)
      ≡ (if leb exp 3 then m / 256 ^ (3 - exp) else m * 256 ^ (exp - 3))
unfolding compact_value
compact_fields exp m h =
    let high : (exp * 2 ^ 24 + m) / 2 ^ 24 ≡ exp = omega arith in
    let low : (exp * 2 ^ 24 + m) % 2 ^ 24 ≡ m = omega arith in rw (high, low)

compact_above : (l m : ℕ) → m < 2 ^ 24 → compact_value ((l + 3) * 2 ^ 24 + m) ≡ m * 256 ^ l
compact_above zero m h = compact_fields (0 + 3) m h ∙ omega arith
compact_above (suc l) m h =
    let up : leb (suc l + 3) 3 ≡ false = ground arith in
    let less : suc l + 3 - 3 ≡ suc l = omega arith in compact_fields (suc l + 3) m h ∙ rw (up, less)

-- One unit of the last place of a word with exponent l + 3.
unit_above : (l m : ℕ) → m < 2 ^ 24 → 256 ^ (((l + 3) * 2 ^ 24 + m) / 2 ^ 24 - 3) ≡ 256 ^ l
unit_above l m h = ap (λ (n : ℕ). 256 ^ n) (omega arith)

module _ (l m value w : ℕ) (bound : m < 2 ^ 23) (short : l ≤ 30) (sum : value ≡ m * 256 ^ l + w)
    (part : w < 256 ^ l) where
  IsCompactOf-above : IsCompactOf value ((l + 3) * 2 ^ 24 + m)
  IsCompactOf-above =
      let read = compact_above l m (omega arith) in
      record {
        word = omega arith;
        positive = omega arith;
        below = omega (arith, read);
        near = omega (arith, read, unit_above l m (omega arith));
      }

module _ (e m : ℕ) (bound : m < 2 ^ 23) (low : e ≤ 3) where
  -- Up to exponent 3 a word stands for its value exactly.
  pub IsCompactOf-exact : IsCompactOf (m / 256 ^ (3 - e)) (e * 2 ^ 24 + m)
  IsCompactOf-exact =
      let small : leb e 3 ≡ true = ground arith in
      let branches : compact_value (e * 2 ^ 24 + m)
          ≡ (if leb e 3 then m / 256 ^ (3 - e) else m * 256 ^ (e - 3)) =
        compact_fields e m (omega arith) in
      let read : compact_value (e * 2 ^ 24 + m) ≡ m / 256 ^ (3 - e) = rw small at branches in
      let low_place : (e * 2 ^ 24 + m) / 2 ^ 24 - 3 ≡ 0 = omega arith in
      let unit = ap (λ (n : ℕ). 256 ^ n) low_place in
      record {
        word = omega arith;
        positive = omega arith;
        below = omega (arith, read);
        near = omega (arith, read, unit);
      }

-- The word packed from a byte string whose first byte is not 0 is the compact form of its number.
pub packed-IsCompactOf :
    (b : ℕ) (u : List ℕ)
    → b ≢ 0
    → All IsByte (b ∷ u)
    → length (b ∷ u) ≤ 32
    → IsCompactOf (be_val (b ∷ u)) (packed (top_three (b ∷ u)) (length (b ∷ u)))
unfolding packed top_three
packed-IsCompactOf b [] nz h len =
    let m : ℕ = b * 65536 + 0 * 256 + 0 in
    elim (Bool-cases (leb (2 ^ 23) m)) [
      | inl signed ↦
          let same : b * 1 + 0 ≡ m / 256 / 256 ^ (3 - 2) = omega arith in
          rw (signed, same) (IsCompactOf-exact 2 (m / 256) (omega arith) (omega arith))
      | inr plain ↦
          let same : b * 1 + 0 ≡ m / 256 ^ (3 - 1) = omega arith in
          rw (plain, same) (IsCompactOf-exact 1 m (ground arith) (omega arith))
    ]
packed-IsCompactOf b (c ∷ []) nz h len =
    let m : ℕ = b * 65536 + c * 256 + 0 in
    elim (Bool-cases (leb (2 ^ 23) m)) [
      | inl signed ↦
          let same : b * 256 + (c * 1 + 0) ≡ m / 256 / 256 ^ (3 - 3) = omega arith in
          rw (signed, same) (IsCompactOf-exact 3 (m / 256) (omega arith) (omega arith))
      | inr plain ↦
          let same : b * 256 + (c * 1 + 0) ≡ m / 256 ^ (3 - 2) = omega arith in
          rw (plain, same) (IsCompactOf-exact 2 m (ground arith) (omega arith))
    ]
packed-IsCompactOf b (c ∷ d ∷ w) nz h len =
    let m : ℕ = b * 65536 + c * 256 + d in
    let l : ℕ = length w in
    let p : ℕ = 256 ^ l in
    let value : ℕ = be_val (b ∷ c ∷ d ∷ w) in
    let sum : value ≡ m * p + be_val w = omega (
      arith,
      ap (λ (t : ℕ). b * t) (pow-suc 256 (suc l)),
      ap (λ (t : ℕ). b * 256 * t) (pow-suc 256 l),
      ap (λ (t : ℕ). c * t) (pow-suc 256 l),
    ) in
    let rest = be_val-lt w h.1.1.1 in
    elim (Bool-cases (leb (2 ^ 23) m)) [
      | inl signed ↦
          let word : (suc (suc (suc l)) + 1) * 2 ^ 24 + m / 256 ≡ (suc l + 3) * 2 ^ 24 + m / 256 =
            omega arith in
          let split : m ≡ m / 256 * 256 + d = omega arith in
          let sum' : value ≡ m / 256 * 256 ^ suc l + (d * p + be_val w) = omega (
            arith,
            sum,
            ap (λ (t : ℕ). m / 256 * t) (pow-suc 256 l),
            ap (λ (t : ℕ). t * p) split,
          ) in
          let bits : d * p ≤ 255 * p = grind arith in
          let rest' : d * p + be_val w < 256 ^ suc l = omega (arith, rest, bits, pow-suc 256 l) in
          rw (signed, word)
            (IsCompactOf-above (suc l) (m / 256) value (d * p + be_val w) (omega arith)
              (omega arith) sum' rest')
      | inr plain ↦
          let word : suc (suc (suc l)) * 2 ^ 24 + m ≡ (l + 3) * 2 ^ 24 + m = omega arith in
          rw (plain, word)
            (IsCompactOf-above l m value (be_val w) (ground arith) (omega arith) sum rest)
    ]
