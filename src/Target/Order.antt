-- ===== src/Target/Order.antt =====
-- Comparisons of targets: `hash_le_below_target` and its callers, and `tighter_target_nbits`.
use native.Mathlib.Nat.{pow-suc}
use prop_miner.Base.{
  ℕ, zero, suc, ◌+◌, ◌*◌, ◌%◌, ◌^◌, ◌≤◌, ◌<◌, ◌≡◌, refl, sym, ap, ap₂, ◌∙◌, inl, inr, List, [], ◌∷◌,
  arith, true, false, not, ltb, leb, ◌==◌, leb_iff, if◌then◌else◌, Bool-cases, length, get_or, take,
  le_val, IsByte, IsU64, All,
}
use prop_miner.Target.{
  below_loop, hash_le_below_target, claimed_hash_clears_target, claimed_hash_clears_nbits_target,
  tighter_loop, tighter_target_nbits, adjusted_pow_target_le, nbits_to_target_le,
}
use prop_miner.Target.Compact.{compact_value, nbits_to_target_le_lem, nbits_to_target_le-IsByte}
use prop_miner.Target.Scale.{
  scaled_value, adjusted_pow_target_le_lem, adjusted_pow_target_le-IsByte,
  length-adjusted_pow_target_le,
}

-- The value of the lowest bytes, one byte more at a time; bytes behind the end count as 0.
pub le_val-take-suc :
    (i : ℕ) (xs : List ℕ) → le_val (take (suc i) xs) ≡ le_val (take i xs) + get_or xs i 0 * 256 ^ i
le_val-take-suc zero [] = refl
le_val-take-suc zero (x ∷ xs) = omega arith
le_val-take-suc (suc i) [] = omega arith
le_val-take-suc (suc i) (x ∷ xs) =
    let b : ℕ = get_or xs i 0 in
    omega (arith, le_val-take-suc i xs, ap (λ (t : ℕ). b * t) (pow-suc 256 i))

take-lt : (i : ℕ) (xs : List ℕ) → All IsByte xs → le_val (take i xs) < 256 ^ i
take-lt zero xs h = omega arith
take-lt (suc i) [] h = omega (arith, take-lt i [] tt, pow-suc 256 i)
take-lt (suc i) (x ∷ xs) h = omega (arith, take-lt i xs h.1, h.0, pow-suc 256 i)

take_all : (xs : List ℕ) → take (length xs) xs ≡ xs
take_all [] = refl
take_all (x ∷ xs) = ap (◌∷◌ x) (take_all xs)

pub take_32 : (xs : List ℕ) → length xs ≡ 32 → take 32 xs ≡ xs
take_32 xs e = ap (λ (n : ℕ). take n xs) (sym e) ∙ take_all xs

-- The higher byte decides, whatever the lower ones are.
higher_decides : (p a b x y : ℕ) → a < p → b < p → x < y → a + x * p < b + y * p
higher_decides p a b x y ha hb h = let gap : x * p + p ≤ y * p = grind arith in omega (arith, gap)

-- Where the lower parts are below `p`, the higher digits are compared first.
module _ (p a b x y : ℕ) (ha : a < p) (hb : b < p) where
  leb_higher_lt : x < y → leb (a + x * p) (b + y * p) ≡ true
  leb_higher_lt h = (leb_iff _ _).1 (omega (arith, higher_decides p a b x y ha hb h))

  leb_higher_gt : y < x → leb (a + x * p) (b + y * p) ≡ false
  leb_higher_gt h = ground (arith, higher_decides p b a y x hb ha h)

  leb_higher_eq : x ≡ y → leb (a + x * p) (b + y * p) ≡ leb a b
  leb_higher_eq h = ground (arith, ap (λ (t : ℕ). t * p) h)

  digit_leb :
      (if ltb x y then true else if ltb y x then false else leb a b) ≡ leb (a + x * p) (b + y * p)
  digit_leb = ground (arith, leb_higher_lt, leb_higher_gt, leb_higher_eq)

  digit_choice {ℓ} :
      {A : Type ℓ} (u v : A)
      → (if not (x == y) then (if ltb x y then u else v) else if leb a b then u else v)
        ≡ (if leb (a + x * p) (b + y * p) then u else v)
  digit_choice u v = elim (Bool-cases (ltb x y)) [
    | inl lt ↦ rw (leb_higher_lt (ground arith)) (ground arith)
    | inr ge ↦ elim (Bool-cases (ltb y x)) [
      | inl gt ↦ rw (leb_higher_gt (ground arith)) (ground arith)
      | inr le ↦ rw (leb_higher_eq (ground arith)) (ground arith)
    ]
  ]

module _ (hash target : List ℕ) (h : All IsByte hash) (t : All IsByte target) where
  below_loop-leb :
      (i : ℕ) → below_loop i hash target ≡ leb (le_val (take i hash)) (le_val (take i target))
  unfolding below_loop
  below_loop-leb zero = refl
  below_loop-leb (suc i) =
      rw (below_loop-leb i, le_val-take-suc i hash, le_val-take-suc i target)
        (digit_leb (256 ^ i) (le_val (take i hash)) (le_val (take i target)) (get_or hash i 0)
          (get_or target i 0) (take-lt i hash h) (take-lt i target t))

  tighter_loop-leb :
      (i a b : ℕ)
      → tighter_loop i hash target a b
        ≡ (if leb (le_val (take i hash)) (le_val (take i target)) then a else b)
  unfolding tighter_loop
  tighter_loop-leb zero a b = refl
  tighter_loop-leb (suc i) a b =
      rw (tighter_loop-leb i a b, le_val-take-suc i hash, le_val-take-suc i target)
        (digit_choice (256 ^ i) (le_val (take i hash)) (le_val (take i target)) (get_or hash i 0)
          (get_or target i 0) (take-lt i hash h) (take-lt i target t) a b)

-- Over 32 bytes each, the byte-wise test is the order of the numbers.
pub hash_le_below_target_lem :
    (hash target : List ℕ)
    → All IsByte hash
    → All IsByte target
    → length hash ≡ 32
    → length target ≡ 32
    → hash_le_below_target hash target ≡ leb (le_val hash) (le_val target)
unfolding hash_le_below_target
hash_le_below_target_lem hash target h t lh lt =
    below_loop-leb hash target h t 32
    ∙ ap₂ (λ (x y : List ℕ). leb (le_val x) (le_val y)) (take_32 hash lh) (take_32 target lt)

-- The pool's test of a 32-byte hash without the adjustment factor: at most the target of nbits.
claimed_hash_clears_nbits_target_lem :
    (hash : List ℕ) (nbits : ℕ)
    → All IsByte hash
    → length hash ≡ 32
    → claimed_hash_clears_nbits_target hash nbits
      ≡ leb (le_val hash) (compact_value nbits % 2 ^ 256)
unfolding claimed_hash_clears_nbits_target
claimed_hash_clears_nbits_target_lem hash nbits h len =
    let (value, len') = nbits_to_target_le_lem nbits in
    hash_le_below_target_lem hash (nbits_to_target_le nbits) h (nbits_to_target_le-IsByte nbits) len
      len'
    ∙ ap (leb (le_val hash)) value

-- The share test of a 32-byte hash, for an adjustment factor from 1 up to 2 ^ 64 - 1: at most the
-- target of nbits times the factor, stopped at 2 ^ 256 - 1.
pub claimed_hash_clears_target_lem :
    (hash : List ℕ) (nbits daf : ℕ)
    → All IsByte hash
    → length hash ≡ 32
    → 1 ≤ daf
    → IsU64 daf
    → claimed_hash_clears_target hash nbits daf
      ≡ leb (le_val hash) (scaled_value (compact_value nbits % 2 ^ 256) daf)
unfolding claimed_hash_clears_target
claimed_hash_clears_target_lem hash nbits daf h len pos hd =
    hash_le_below_target_lem hash (adjusted_pow_target_le nbits daf) h
      (adjusted_pow_target_le-IsByte nbits daf hd) len (length-adjusted_pow_target_le nbits daf hd)
    ∙ ap (leb (le_val hash)) (adjusted_pow_target_le_lem nbits daf pos hd)

-- `tighter_target_nbits` takes 0 for unset and returns the other argument; of two that are set it
-- returns the one with the smaller target, and the first where the targets are equal.
pub tighter_target_nbits_lem :
    (a b : ℕ)
    → tighter_target_nbits a b ≡ (
        if a == 0
        then b
        else if b == 0
        then a
        else if leb (compact_value a % 2 ^ 256) (compact_value b % 2 ^ 256)
        then a
        else b)
unfolding tighter_target_nbits
tighter_target_nbits_lem a b =
    let ta = nbits_to_target_le a in
    let tb = nbits_to_target_le b in
    let (va, la) = nbits_to_target_le_lem a in
    let (vb, lb) = nbits_to_target_le_lem b in
    let loop =
      tighter_loop-leb ta tb (nbits_to_target_le-IsByte a) (nbits_to_target_le-IsByte b) 32 a b in
    ap (λ (c : ℕ). if a == 0 then b else if b == 0 then a else c)
      (loop
        ∙ ap₂ (λ (x y : List ℕ). if leb (le_val x) (le_val y) then a else b) (take_32 ta la)
            (take_32 tb lb)
        ∙ ap₂ (λ (x y : ℕ). if leb x y then a else b) va vb)
