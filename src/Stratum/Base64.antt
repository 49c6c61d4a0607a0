-- ===== src/Stratum/Base64.antt =====
-- base64_encode of pearl_stratum_client.cpp against a decoder.
use prop_miner.Base.{
  ℕ, suc, ◌+◌, ◌*◌, ◌/◌, ◌%◌, ◌^◌, ◌≡◌, ◌<◌, refl, ap₂, true, false, not, ◌&&◌, List, [], ◌∷◌, ◌==◌,
  if◌then◌else◌, arith, length, get_or, shr, low_bits, bit_or, bit_or-disjoint_left, IsByte, All,
  holds_below, holds_below-elim,
}
use prop_miner.Stratum.{base64_table, base64_char, base64_encode}

-- The place of a character in a table, or the table's length.
unfoldable pub index_in : List ℕ → ℕ → ℕ
index_in [] c = 0
index_in (x ∷ xs) c = let rest = index_in xs c in if x == c then 0 else suc rest

-- The decoder of RFC 4648: four characters are three bytes, or fewer where the padding begins.
unfoldable pub base64_decode : List ℕ → List ℕ
base64_decode (p ∷ q ∷ r ∷ s ∷ rest) =
    let v = λ (c : ℕ). index_in base64_table c in
    let first = v p * 4 + v q / 16 in
    let second = v q % 16 * 16 + v r / 4 in
    let third = v r % 4 * 64 + v s in
    let more = base64_decode rest in
    if r == b'='
    then first ∷ []
    else if s == b'='
    then first ∷ second ∷ []
    else first ∷ second ∷ third ∷ more
base64_decode _ = []

table_lem :
    holds_below
      (λ i.
        (index_in base64_table (get_or base64_table i 0) == i)
        && not (get_or base64_table i 0 == b'='))
      64
    ≡ true
unfolding holds_below index_in
table_lem = refl

-- The value of a character, and that it is no padding.
IsDigit : ℕ → ℕ → Type 0
IsDigit i c = (index_in base64_table c ≡ i) × ((c == b'=') ≡ false)

entry-IsDigit : (i : ℕ) → i < 64 → IsDigit i (get_or base64_table i 0)
unfolding IsDigit
entry-IsDigit i h = ground (arith, holds_below-elim _ 64 i table_lem h)

base64_char-IsDigit : (n s : ℕ) → IsDigit (low_bits (shr n s) 6) (base64_char n s)
unfolding base64_char
base64_char-IsDigit n s = entry-IsDigit (low_bits (shr n s) 6) (omega arith)

packed_two : (a b : ℕ) → b < 256 → bit_or (a * 2 ^ 16) (b * 2 ^ 8) ≡ a * 2 ^ 16 + b * 2 ^ 8
packed_two a b h = bit_or-disjoint_left 16 (b * 2 ^ 8) a (omega arith)

packed_three :
    (a b c : ℕ)
    → b < 256
    → c < 256
    → bit_or (bit_or (a * 2 ^ 16) (b * 2 ^ 8)) c ≡ a * 2 ^ 16 + b * 2 ^ 8 + c
packed_three a b c h k =
    let e : a * 2 ^ 16 + b * 2 ^ 8 ≡ (a * 2 ^ 8 + b) * 2 ^ 8 = omega arith in
    rw (packed_two a b h, e) (omega (arith, bit_or-disjoint_left 8 c (a * 2 ^ 8 + b) (omega arith)))

sextets :
    (n a b c : ℕ)
    → n ≡ a * 2 ^ 16 + b * 2 ^ 8 + c
    → a < 256
    → b < 256
    → c < 256
    → (low_bits (shr n 18) 6 * 4 + low_bits (shr n 12) 6 / 16 ≡ a)
      × (low_bits (shr n 12) 6 % 16 * 16 + low_bits (shr n 6) 6 / 4 ≡ b)
      × (low_bits (shr n 6) 6 % 4 * 64 + low_bits (shr n 0) 6 ≡ c)
sextets n a b c e p q r = (omega (arith, e), omega (arith, e), omega (arith, e))

-- The text is four characters for each three bytes that have begun.
pub length-base64_encode : (bs : List ℕ) → length (base64_encode bs) ≡ (length bs + 2) / 3 * 4
unfolding base64_encode
length-base64_encode [] = refl
length-base64_encode (a ∷ []) = refl
length-base64_encode (a ∷ b ∷ []) = refl
length-base64_encode (a ∷ b ∷ c ∷ rest) = omega (arith, length-base64_encode rest)

-- The decoder gives back the bytes that are encoded.
pub base64_decode-base64_encode :
    (bs : List ℕ) → All IsByte bs → base64_decode (base64_encode bs) ≡ bs
unfolding base64_decode base64_encode IsDigit
base64_decode-base64_encode [] h = refl
base64_decode-base64_encode (a ∷ []) h =
    let n = a * 2 ^ 16 in
    let p = base64_char-IsDigit n 18 in
    let q = base64_char-IsDigit n 12 in
    rw (p.0, q.0) (ap₂ (λ (x : ℕ) (xs : List ℕ). x ∷ xs) (omega (arith, h.0)) refl)
base64_decode-base64_encode (a ∷ b ∷ []) h =
    let n = bit_or (a * 2 ^ 16) (b * 2 ^ 8) in
    let p = base64_char-IsDigit n 18 in
    let q = base64_char-IsDigit n 12 in
    let r = base64_char-IsDigit n 6 in
    let e = packed_two a b h.1.0 in
    let t = sextets n a b 0 (omega (arith, e)) h.0 h.1.0 (omega arith) in
    rw (p.0, q.0, r.0, r.1) (ap₂ (λ (x y : ℕ). x ∷ y ∷ []) t.0 t.1)
base64_decode-base64_encode (a ∷ b ∷ c ∷ rest) h =
    let n = bit_or (bit_or (a * 2 ^ 16) (b * 2 ^ 8)) c in
    let p = base64_char-IsDigit n 18 in
    let q = base64_char-IsDigit n 12 in
    let r = base64_char-IsDigit n 6 in
    let s = base64_char-IsDigit n 0 in
    let e = packed_three a b c h.1.0 h.1.1.0 in
    let t = sextets n a b c e h.0 h.1.0 h.1.1.0 in
    let ih = base64_decode-base64_encode rest h.1.1.1 in
    rw (p.0, q.0, r.0, s.0, r.1, s.1, ih)
      (ap₂ (λ (x : ℕ) (xs : List ℕ). x ∷ xs) t.0 (ap₂ (λ (x y : ℕ). x ∷ y ∷ rest) t.1 t.2))
