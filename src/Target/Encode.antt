-- ===== src/Target/Encode.antt =====
-- From a 32-byte target back to compact difficulty: `target_be_to_nbits`, and the share difficulty of
-- the pool, `difficulty_to_nbits_pdif`.
use prop_miner.Base.{
  ℕ, zero, suc, ◌+◌, ◌-◌, ◌*◌, ◌/◌, ◌^◌, ◌≤◌, ◌<◌, ◌≡◌, ◌≢◌, refl, ap, subst, ◌∙◌, inl, inr, List,
  [], ◌∷◌, none, some, arith, ltb, ◌==◌, if◌then◌else◌, Bool-cases, Option-cases, length, get_or,
  drop, length-drop, be_val, IsByte, All, All-drop, bit_or, bit_or-disjoint_left,
}
use prop_miner.Target.{
  first_non_zero, mantissa_at, pack_nbits, target_be_to_nbits, difficulty_to_nbits_pdif,
  be_mul_u32_inplace, be_div_u64, diff1_target_be,
}
use prop_miner.Target.Pack.{
  IsCompactOf, IsCompactOf-exact, pack_nbits_lem, top_three, packed-IsCompactOf,
}
use prop_miner.Target.Divide.{be_mul_u32_inplace_lem, be_div_u64_lem}

-- The bytes at `first` and behind it.
get_or-drop : (f k : ℕ) (t : List ℕ) → get_or {A = ℕ} t (f + k) 0 ≡ get_or (drop f t) k 0
get_or-drop zero k t = ground arith
get_or-drop (suc f) k [] = ground arith
get_or-drop (suc f) k (x ∷ t) =
    let next : suc f + k ≡ suc (f + k) = omega arith in rw next (get_or-drop f k t)

-- What the search for the first byte that is not 0 finds.
record Found (i : ℕ) (t : List ℕ) (first : ℕ) : Type 0 where
  offset : ℕ
  at : first ≡ i + offset
  head : ℕ
  rest : List ℕ
  shape : drop offset t ≡ head ∷ rest
  head-ne-zero : head ≢ 0
  same_value : be_val t ≡ be_val (head ∷ rest)

first_non_zero-Found :
    (i : ℕ) (t : List ℕ) (first : ℕ) → first_non_zero i t ≡ some first → Found i t first
unfolding first_non_zero
first_non_zero-Found i [] first e = cc
first_non_zero-Found i (b ∷ t) first e = elim (Bool-cases (b == 0)) [
  | inl zero_byte ↦
      let f = first_non_zero-Found (i + 1) t first (rw zero_byte at e) in
      record {
        offset = suc f.offset;
        at = omega (arith, f.at);
        head = f.head;
        rest = f.rest;
        shape = f.shape;
        head-ne-zero = f.head-ne-zero;
        same_value = let none : b ≡ 0 = ground arith in rw none (omega (arith, f.same_value));
      }
  | inr found ↦
      let same : some i ≡ some first = rw found at e in
      record {
        offset = 0;
        at = ground arith;
        head = b;
        rest = t;
        shape = refl;
        head-ne-zero = ground arith;
        same_value = refl;
      }
]

first_non_zero-none : (i : ℕ) (t : List ℕ) → first_non_zero i t ≡ none → be_val t ≡ 0
unfolding first_non_zero
first_non_zero-none i [] e = refl
first_non_zero-none i (b ∷ t) e = ground (arith, first_non_zero-none (i + 1) t)

pub get_or-IsByte : (t : List ℕ) (i : ℕ) → All IsByte t → IsByte (get_or t i 0)
get_or-IsByte [] i h = omega arith
get_or-IsByte (x ∷ t) zero h = h.0
get_or-IsByte (x ∷ t) (suc i) h = get_or-IsByte t i h.1

get_or_beyond : (t : List ℕ) (i : ℕ) → length t ≤ i → get_or {A = ℕ} t i 0 ≡ 0
get_or_beyond [] i h = refl
get_or_beyond (x ∷ t) zero h = absurd (omega arith)
get_or_beyond (x ∷ t) (suc i) h = get_or_beyond t i (omega arith)

-- The mantissa in plain arithmetic.
mantissa_at-top_three :
    (t : List ℕ) (first len : ℕ)
    → All IsByte t
    → 1 ≤ len
    → length (drop first t) ≡ len
    → mantissa_at t first len ≡ top_three (drop first t)
unfolding mantissa_at top_three
mantissa_at-top_three t first len h pos e =
    let u = drop first t in
    let same_place : first ≡ first + 0 = omega arith in
    let g0 = ap (λ (n : ℕ). get_or t n 0) same_place ∙ get_or-drop first 0 t in
    let g1 = get_or-drop first 1 t in
    let g2 = get_or-drop first 2 t in
    let hu = All-drop IsByte first t h in
    let b0 : ℕ = get_or u 0 0 in
    let b1 : ℕ = get_or u 1 0 in
    let b2 : ℕ = get_or u 2 0 in
    let two : bit_or (b0 * 2 ^ 16) (b1 * 2 ^ 8) ≡ b0 * 2 ^ 16 + b1 * 2 ^ 8 =
      bit_or-disjoint_left 16 (b1 * 2 ^ 8) b0 (omega (arith, get_or-IsByte u 1 hu)) in
    let three : bit_or (bit_or (b0 * 2 ^ 16) (b1 * 2 ^ 8)) b2 ≡ b0 * 65536 + b1 * 256 + b2 =
      let joined : b0 * 2 ^ 16 + b1 * 2 ^ 8 ≡ (b0 * 256 + b1) * 2 ^ 8 = omega arith in
      rw (two, joined)
        (bit_or-disjoint_left 8 b2 (b0 * 256 + b1) (get_or-IsByte u 2 hu) ∙ omega arith) in
    rw (g0, g1, g2) (ground (arith, two, three, get_or_beyond u 1, get_or_beyond u 2))

top_three-lt : (u : List ℕ) → All IsByte u → top_three u < 2 ^ 24
unfolding top_three
top_three-lt u h = omega (arith, get_or-IsByte u 0 h, get_or-IsByte u 1 h, get_or-IsByte u 2 h)

Found-IsCompactOf :
    (target : List ℕ) (first : ℕ)
    → All IsByte target
    → length target ≡ 32
    → Found 0 target first
    → IsCompactOf (be_val target) (pack_nbits (mantissa_at target first (32 - first)) (32 - first))
Found-IsCompactOf target first h len f =
    let u = f.head ∷ f.rest in
    let at : first ≡ f.offset = omega (arith, f.at) in
    let shape : drop first target ≡ u = ap (λ (n : ℕ). drop n target) at ∙ f.shape in
    let size : length (drop first target) ≡ length u = ap length shape in
    let left : length u ≡ 32 - first = omega (arith, size, length-drop first target) in
    let hu : All IsByte u = subst (All IsByte) shape (All-drop IsByte first target h) in
    let mantissa =
      mantissa_at-top_three target first (32 - first) h (omega (arith, left)) (size ∙ left)
      ∙ ap top_three shape in
    let word = pack_nbits_lem (top_three u) (32 - first) (top_three-lt u hu) (omega arith) in
    let whole = packed-IsCompactOf f.head f.rest f.head-ne-zero hu (omega (arith, left)) in
    rw (f.same_value, mantissa, word, ← left) whole

-- `target_be_to_nbits` rounds a 32-byte big-endian target down to a compact word: the word has a clear
-- sign bit, stands for at most the target, and the difference is below one unit of its last place.
pub target_be_to_nbits-IsCompactOf :
    (target : List ℕ)
    → All IsByte target
    → length target ≡ 32
    → IsCompactOf (be_val target) (target_be_to_nbits target)
unfolding target_be_to_nbits
target_be_to_nbits-IsCompactOf target h len = elim (Option-cases (first_non_zero 0 target)) [
  | inl empty ↦
      rw (empty, target_be_to_nbits, first_non_zero-none 0 target empty)
        (IsCompactOf-exact 0 0 (omega arith) (omega arith))
  | inr (first, found) ↦
      rw (found, target_be_to_nbits)
        (Found-IsCompactOf target first h len (first_non_zero-Found 0 target first found))
]

diff1_value : be_val diff1_target_be ≡ 0xFFFF * 2 ^ 208
diff1_value = refl

diff1-IsByte : All IsByte diff1_target_be
diff1-IsByte = omega arith

quotient-IsCompactOf :
    (d : ℕ)
    → 1 ≤ d
    → d ≤ 2 ^ 56
    → IsCompactOf
        (0xFFFF * 2 ^ 208 * 1000000 / d)
        (target_be_to_nbits (be_div_u64 (be_mul_u32_inplace diff1_target_be 1000000) d))
quotient-IsCompactOf d pos h =
    let be = be_mul_u32_inplace diff1_target_be 1000000 in
    let (product, len, bytes) =
      be_mul_u32_inplace_lem diff1_target_be 1000000 diff1-IsByte refl (omega arith) in
    let (quotient, len', bytes') = be_div_u64_lem be d bytes pos h in
    let value : be_val (be_div_u64 be d) ≡ 0xFFFF * 2 ^ 208 * 1000000 / d =
      quotient ∙ ap (λ (t : ℕ). t / d) product in
    rw (← value) (target_be_to_nbits-IsCompactOf (be_div_u64 be d) bytes' (len' ∙ len))

-- For a scaled difficulty up to 2 ^ 56, `difficulty_to_nbits_pdif` returns the compact form of
-- diff1 * 10 ^ 6 / scaled, where 0 counts as 1 and diff1 is 0xFFFF * 2 ^ 208.
pub difficulty_to_nbits_pdif-IsCompactOf :
    (scaled : ℕ)
    → scaled ≤ 2 ^ 56
    → IsCompactOf
        (0xFFFF * 2 ^ 208 * 1000000 / (if scaled == 0 then 1 else scaled))
        (difficulty_to_nbits_pdif scaled)
unfolding difficulty_to_nbits_pdif
difficulty_to_nbits_pdif-IsCompactOf scaled h =
    let d : ℕ = if scaled == 0 then 1 else scaled in
    let same : (if ltb scaled 1 then 1 else scaled) ≡ d = ground arith in
    rw same (quotient-IsCompactOf d (ground arith) (ground arith))
