-- ===== src/Wire/Bounds.antt =====
-- Reading a given number of bytes: what the check of the pointer lets through.
use native.Mathlib.Nat.{mod-eq_of_lt}
use prop_miner.Base.{
  ℕ, ◌+◌, ◌-◌, ◌%◌, ◌^◌, ◌≤◌, ◌<◌, ◌≡◌, inl, inr, List, ◌++◌, arith, true, false, ltb, leb,
  if◌then◌else◌, Bool-cases, length, take, drop, length-append, take-append, drop-append, IsU64,
}
use prop_miner.Wire.{ok, throws, wild, WireError, ProtoReader, read_bytes}
use prop_miner.Wire.Varint.{reader}

-- For a buffer that ends below 2 ^ 64 and a length below 2 ^ 64: a length that is there is read; a
-- longer one is refused, unless the pointer that the check computes wraps around the address space.
pub read_bytes_lem :
    (n : ℕ) (e : WireError) (r : ProtoReader)
    → IsU64 n
    → r.addr + length r.rest < 2 ^ 64
    → read_bytes n e r ≡ (
        if leb n (length r.rest)
        then ok (take n r.rest, reader (r.addr + n) (drop n r.rest))
        else if ltb (r.addr + n) (2 ^ 64)
        then throws e
        else wild)
unfolding read_bytes
read_bytes_lem n e r hn hr = elim (Bool-cases (leb n (length r.rest))) [
  | inl inside ↦
      let whole : (r.addr + n) % 2 ^ 64 ≡ r.addr + n = mod-eq_of_lt {m = 2 ^ 64} (ground arith) in
      let passed : ltb (r.addr + length r.rest) (r.addr + n) ≡ false = ground arith in
      rw (whole, inside, passed)
  | inr outside ↦ elim (Bool-cases (ltb (r.addr + n) (2 ^ 64))) [
    | inl plain ↦
        let whole : (r.addr + n) % 2 ^ 64 ≡ r.addr + n = mod-eq_of_lt {m = 2 ^ 64} (ground arith) in
        let caught : ltb (r.addr + length r.rest) (r.addr + n) ≡ true = ground arith in
        rw (whole, outside, plain, caught)
    | inr around ↦
        let past : 2 ^ 64 ≤ r.addr + n = ground arith in
        let wrapped : (r.addr + n) % 2 ^ 64 ≡ r.addr + n - 2 ^ 64 = omega arith in
        let missed : ltb (r.addr + length r.rest) (r.addr + n - 2 ^ 64) ≡ false = ground arith in
        rw (wrapped, outside, around, missed)
  ]
]

-- The bytes of `xs` at the front of a buffer.
pub read_bytes-append :
    (xs rest : List ℕ) (e : WireError) (addr n : ℕ)
    → n ≡ length xs
    → addr + length (xs ++ rest) < 2 ^ 64
    → read_bytes n e (reader addr (xs ++ rest)) ≡ ok (xs, reader (addr + length xs) rest)
read_bytes-append xs rest e addr n same h =
    let total = length-append xs rest in
    let inside : leb (length xs) (length (xs ++ rest)) ≡ true = ground (arith, total) in
    rw (
      same,
      read_bytes_lem (length xs) e (reader addr (xs ++ rest)) (omega (arith, total)) h,
      inside,
      take-append xs rest,
      drop-append xs rest,
    )
