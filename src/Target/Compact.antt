-- ===== src/Target/Compact.antt =====
-- What a compact difficulty expands to: `nbits_to_target_le` of pow_target_utils.cpp.
use native.Mathlib.Nat.{pow-suc, pow-le-pow_right, mod-eq_of_lt}
use prop_miner.Base.{
  ℕ, zero, suc, ◌+◌, ◌-◌, ◌*◌, ◌/◌, ◌%◌, ◌^◌, ◌≤◌, ◌<◌, ◌≡◌, ◌≢◌, refl, sym, ap, ◌∙◌, inl, inr,
  List, [], ◌∷◌, ◌++◌, arith, true, ltb, leb, if◌then◌else◌, Bool-cases, ◌==◌, length, get_or, set,
  replicate, length-set, shr, low_bits, le_bytes, le_val, le_val-set, le_val-replicate,
  le_val-append, le_val-le_bytes, All, All-set, All-append, All-replicate, IsByte, le_bytes-IsByte,
}
use prop_miner.Target.{place_byte, nbits_to_target_le}

get_or-set_ne : (xs : List ℕ) (i j v : ℕ) → i ≢ j → get_or (set xs i v) j 0 ≡ get_or xs j 0
get_or-set_ne [] i j v h = refl
get_or-set_ne (x ∷ xs) zero zero v h = absurd (h refl)
get_or-set_ne (x ∷ xs) zero (suc j) v h = refl
get_or-set_ne (x ∷ xs) (suc i) zero v h = refl
get_or-set_ne (x ∷ xs) (suc i) (suc j) v h = get_or-set_ne xs i j v (λ e. h (ap suc e))

get_or-replicate : (n j : ℕ) → get_or {A = ℕ} (replicate n 0) j 0 ≡ 0
get_or-replicate zero j = refl
get_or-replicate (suc n) zero = refl
get_or-replicate (suc n) (suc j) = get_or-replicate n j

length-place_byte : (exp mant i : ℕ) (t : List ℕ) → length (place_byte exp mant i t) ≡ length t
unfolding place_byte
length-place_byte exp mant i t =
    ground (arith, length-set t (exp - 3 + i) (low_bits (shr mant (8 * i)) 8))

-- What one round adds, while its place still holds 0.
place_byte_val :
    (exp mant i : ℕ) (t : List ℕ)
    → length t ≡ 32
    → get_or t (exp - 3 + i) 0 ≡ 0
    → le_val (place_byte exp mant i t)
      ≡ le_val t
        + (if ltb (exp - 3 + i) 32 then low_bits (shr mant (8 * i)) 8 * 256 ^ (exp - 3 + i) else 0)
unfolding place_byte
place_byte_val exp mant i t len old = elim (Bool-cases (ltb (exp - 3 + i) 32)) [
  | inl inside ↦ rw inside (
      omega (
        arith,
        le_val-set t (exp - 3 + i) (low_bits (shr mant (8 * i)) 8) (ground arith),
        ap (λ (x : ℕ). x * 256 ^ (exp - 3 + i)) old,
      ))
  | inr outside ↦ rw outside (omega arith)
]

-- The other places stay as they are.
get_or-place_byte :
    (exp mant i j : ℕ) (t : List ℕ)
    → exp - 3 + i ≢ j
    → get_or (place_byte exp mant i t) j 0 ≡ get_or t j 0
unfolding place_byte
get_or-place_byte exp mant i j t ne =
    ground (arith, get_or-set_ne t (exp - 3 + i) j (low_bits (shr mant (8 * i)) 8) ne)

abbrev part : ℕ → ℕ → ℕ → ℕ
part e mant i = if ltb (e + i) 32 then low_bits (shr mant (8 * i)) 8 * 256 ^ (e + i) else 0

abbrev zeros : List ℕ
zeros = replicate 32 0

three_places :
    (exp mant : ℕ)
    → le_val (place_byte exp mant 2 (place_byte exp mant 1 (place_byte exp mant 0 zeros)))
      ≡ part (exp - 3) mant 0 + part (exp - 3) mant 1 + part (exp - 3) mant 2
three_places exp mant =
    let t1 = place_byte exp mant 0 zeros in
    let t2 = place_byte exp mant 1 t1 in
    let e = exp - 3 in
    let v0 = place_byte_val exp mant 0 zeros refl (get_or-replicate 32 (e + 0)) in
    let l1 = length-place_byte exp mant 0 zeros in
    let g1 =
      get_or-place_byte exp mant 0 (e + 1) zeros (omega arith) ∙ get_or-replicate 32 (e + 1) in
    let v1 = place_byte_val exp mant 1 t1 l1 g1 in
    let l2 = length-place_byte exp mant 1 t1 ∙ l1 in
    let g2 =
      get_or-place_byte exp mant 1 (e + 2) t1 (omega arith)
      ∙ get_or-place_byte exp mant 0 (e + 2) zeros (omega arith)
      ∙ get_or-replicate 32 (e + 2) in
    let v2 = place_byte_val exp mant 2 t2 l2 g2 in omega (arith, v0, v1, v2, le_val-replicate 32)

pow_above : (e x : ℕ) → 32 ≤ e → x * 256 ^ e % 2 ^ 256 ≡ 0
pow_above zero x h = absurd (omega arith)
pow_above (suc e) x h = elim (Bool-cases (leb 32 e)) [
  | inl more ↦
      let shifted : x * 256 ^ suc e ≡ x * 256 * 256 ^ e =
        omega (arith, ap (λ (t : ℕ). x * t) (pow-suc 256 e)) in
      rw shifted (pow_above e (x * 256) (ground arith))
  | inr last ↦ let e31 : e ≡ 31 = ground arith in rw e31 (omega arith)
]

pow-add_one : (e : ℕ) → 256 ^ (e + 1) ≡ 256 * 256 ^ e
pow-add_one e = let next : e + 1 ≡ suc e = omega arith in rw next (omega (arith, pow-suc 256 e))

pow-add_two : (e : ℕ) → 256 ^ (e + 2) ≡ 65536 * 256 ^ e
pow-add_two e =
    let next : e + 2 ≡ e + 1 + 1 = omega arith in
    rw next (omega (arith, pow-add_one e, pow-add_one (e + 1)))

part_inside :
    (e mant i b : ℕ) → e + i < 32 → shr mant (8 * i) % 256 ≡ b → part e mant i ≡ b * 256 ^ (e + i)
part_inside e mant i b h q = let inside : ltb (e + i) 32 ≡ true = ground arith in rw (inside, q)

parts_inside :
    (e mant : ℕ)
    → mant < 2 ^ 24
    → e ≤ 29
    → part e mant 0 + part e mant 1 + part e mant 2 ≡ mant * 256 ^ e
parts_inside e mant h le =
    let p : ℕ = 256 ^ e in
    let z : e + 0 ≡ e = omega arith in
    let digits : mant % 256 + 256 * (mant / 256 % 256) + 65536 * (mant / 65536 % 256) ≡ mant =
      omega arith in
    let b1 : ℕ = mant / 256 % 256 in
    let b2 : ℕ = mant / 65536 % 256 in
    omega (
      arith,
      part_inside e mant 0 (mant % 256) (omega arith) (omega arith),
      part_inside e mant 1 b1 (omega arith) (omega arith),
      part_inside e mant 2 b2 (omega arith) (omega arith),
      ap (λ (t : ℕ). mant % 256 * 256 ^ t) z,
      ap (λ (t : ℕ). t * p) digits,
      ap (λ (t : ℕ). b1 * t) (pow-add_one e),
      ap (λ (t : ℕ). b2 * t) (pow-add_two e),
    )

scaled-lt : (e mant : ℕ) → mant < 2 ^ 24 → e ≤ 29 → mant * 256 ^ e < 2 ^ 256
scaled-lt e mant h le =
    let mono : 256 ^ e ≤ 256 ^ 29 = pow-le-pow_right (omega arith) le in grind (arith, mono)

parts-eq_mod :
    (e mant : ℕ)
    → mant < 2 ^ 24
    → part e mant 0 + part e mant 1 + part e mant 2 ≡ mant * 256 ^ e % 2 ^ 256
parts-eq_mod e mant h = elim (Bool-cases (leb e 29)) [
  | inl inside ↦
      parts_inside e mant h (ground arith) ∙ sym (mod-eq_of_lt (scaled-lt e mant h (ground arith)))
  | inr above ↦ elim (Bool-cases (leb 32 e)) [
    | inl out ↦ rw (pow_above e mant (ground arith)) (ground arith)
    | inr edge ↦ elim (Bool-cases (e == 30)) [
      | inl e30 ↦ let q : e ≡ 30 = ground arith in rw q (omega arith)
      | inr e31 ↦ let q : e ≡ 31 = ground arith in rw q (omega arith)
    ]
  ]
]

-- The branch for exponents up to 3: eight bytes of a number that fits three.
low_val : (v : ℕ) → v < 2 ^ 24 → le_val (le_bytes 8 v ++ replicate 24 0) ≡ v
low_val v h = omega (
  arith,
  le_val-append (le_bytes 8 v) (replicate 24 0),
  le_val-replicate 24,
  le_val-le_bytes 8 v (omega arith),
)

shift_small : (e mant : ℕ) → e ≤ 3 → shr mant (8 * (3 - e)) ≡ mant / 256 ^ (3 - e)
shift_small zero mant h = refl
shift_small (suc zero) mant h = refl
shift_small (suc (suc zero)) mant h = refl
shift_small (suc (suc (suc zero))) mant h = refl
shift_small (suc (suc (suc (suc e)))) mant h = absurd (omega arith)

div-le : (a b : ℕ) → a / b ≤ a
div-le a b = grind arith

-- The number that a compact difficulty stands for: mantissa * 256 ^ (exponent - 3).
unfoldable pub compact_value : ℕ → ℕ
compact_value nbits =
    let exp = nbits / 2 ^ 24 in
    let mant = nbits % 2 ^ 24 in
    if leb exp 3 then mant / 256 ^ (3 - exp) else mant * 256 ^ (exp - 3)

-- `nbits_to_target_le` writes the number that its argument stands for, modulo 2 ^ 256, in 32 bytes.
pub nbits_to_target_le_lem :
    (nbits : ℕ)
    → (le_val (nbits_to_target_le nbits) ≡ compact_value nbits % 2 ^ 256)
      × (length (nbits_to_target_le nbits) ≡ 32)
unfolding nbits_to_target_le compact_value
nbits_to_target_le_lem nbits = elim (Bool-cases (leb (nbits / 2 ^ 24) 3)) [
  | inl small ↦
      let exp : ℕ = nbits / 2 ^ 24 in
      let mant : ℕ = nbits % 2 ^ 24 in
      let shifted : ℕ = shr mant (8 * (3 - exp)) in
      let fits : shifted < 2 ^ 24 = omega (arith, div-le mant (2 ^ (8 * (3 - exp)))) in
      let read = low_val shifted fits ∙ sym (mod-eq_of_lt {m = 2 ^ 256} (omega arith)) in
      rw small (read ∙ ap (λ (t : ℕ). t % 2 ^ 256) (shift_small exp mant (ground arith)), refl)
  | inr large ↦
      let exp : ℕ = nbits / 2 ^ 24 in
      let mant : ℕ = nbits % 2 ^ 24 in
      let t1 = place_byte exp mant 0 zeros in
      let t2 = place_byte exp mant 1 t1 in
      rw large (
        three_places exp mant ∙ parts-eq_mod (exp - 3) mant (omega arith),
        length-place_byte exp mant 2 t2
            ∙ length-place_byte exp mant 1 t1
            ∙ length-place_byte exp mant 0 zeros,
      )
]

place_byte-IsByte :
    (exp mant i : ℕ) (t : List ℕ) → All IsByte t → All IsByte (place_byte exp mant i t)
unfolding place_byte
place_byte-IsByte exp mant i t h = elim (Bool-cases (ltb (exp - 3 + i) 32)) [
  | inl inside ↦ rw inside (All-set IsByte t (exp - 3 + i) _ (omega arith) h)
  | inr outside ↦ rw outside h
]

pub nbits_to_target_le-IsByte : (nbits : ℕ) → All IsByte (nbits_to_target_le nbits)
unfolding nbits_to_target_le
nbits_to_target_le-IsByte nbits = elim (Bool-cases (leb (nbits / 2 ^ 24) 3)) [
  | inl small ↦ rw small (
      All-append IsByte (le_bytes 8 _) (replicate 24 0) (le_bytes-IsByte 8 _)
        (All-replicate IsByte 24 0 (omega arith)))
  | inr large ↦
      let exp : ℕ = nbits / 2 ^ 24 in
      let mant : ℕ = nbits % 2 ^ 24 in
      let t1 = place_byte exp mant 0 zeros in
      let t2 = place_byte exp mant 1 t1 in
      let h0 = place_byte-IsByte exp mant 0 zeros (All-replicate IsByte 32 0 (omega arith)) in
      let h1 = place_byte-IsByte exp mant 1 t1 h0 in rw large (place_byte-IsByte exp mant 2 t2 h1)
]
