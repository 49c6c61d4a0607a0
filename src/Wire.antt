-- ===== src/Wire.antt =====
-- src/host/pearl/proto/mining_v2.h and .cpp, the wire format: ProtoReader and ProtoWriter.
-- A reader keeps the address of its next byte, since its checks are comparisons of pointers.
pub mod Varint
pub mod Fields
pub mod Progress
pub mod Step
pub mod Bounds
pub mod Messages
pub mod Register
pub mod Request
pub mod RoundTrip
pub mod Events
pub mod Pool
mod Runs
use prop_miner.Base.{
  ℕ, zero, suc, ◌+◌, ◌*◌, ◌/◌, ◌%◌, ◌^◌, Bool, true, false, List, [], ◌∷◌, ◌++◌, Option, none, some,
  ltb, leb, ◌==◌, if◌then◌else◌, length, take, drop, shr, low_bits, le_bytes, le_val, bit_or,
}

-- The std::runtime_error that a decoder throws.
pub data WireError : Type 0 where
  varint_overflow truncated_varint truncated_fixed64 truncated_bytes truncated_fixed32 : WireError

-- A decoder returns or throws. It is `wild` from where it forms a pointer outside of its buffer, which
-- C++ leaves undefined: a length whose sum with the pointer wraps passes the check. What a machine does
-- then is not modelled; the pointer may be in the buffer again, and the loop go round for ever. It is
-- `stuck` when the model of a loop has used up its rounds.
pub data Outcome {ℓ} (A : Type ℓ) : Type ℓ where
  ok : A → Outcome A
  throws : WireError → Outcome A
  wild : Outcome A
  stuck : Outcome A

infixl 5 ◌>>=◌
abbrev pub ◌>>=◌ {ℓ κ} : {A : Type ℓ} {B : Type κ} → Outcome A → (A → Outcome B) → Outcome B
ok a >>= f = f a
throws e >>= f = throws e
wild >>= f = wild
stuck >>= f = stuck

-- `p_` and the bytes from there to `end_`.
pub record ProtoReader : Type 0 where
  pub addr : ℕ
  pub rest : List ℕ

pub record WireField : Type 0 where
  pub field : ℕ
  pub wire : ℕ
  pub value : ℕ
  pub addr : ℕ
  pub payload : List ℕ

-- `p_ + n > end_`, where the sum of pointers wraps at 2 ^ 64.
abbrev pub past_end : ProtoReader → ℕ → Bool
past_end r n = ltb (r.addr + length r.rest) ((r.addr + n) % 2 ^ 64)

-- The loop of `decode_varint`.
unfoldable pub varint_loop : ℕ → ℕ → ℕ → List ℕ → Outcome (ℕ × ProtoReader)
varint_loop v shift addr [] = throws truncated_varint
varint_loop v shift addr (b ∷ bs) =
    let v' = bit_or v (low_bits b 7 * 2 ^ shift % 2 ^ 64) in
    let more = varint_loop v' (shift + 7) (addr + 1) bs in
    if shr b 7 % 2 == 0
    then ok (v', record { addr = addr + 1; rest = bs })
    else if leb 64 (shift + 7)
    then throws varint_overflow
    else more

unfoldable pub decode_varint : ProtoReader → Outcome (ℕ × ProtoReader)
decode_varint r = varint_loop 0 0 r.addr r.rest

-- The `n` bytes at `p_`, behind the check of the pointer; `e` is what is thrown when it fails. A sum that
-- wraps is undefined behaviour from here on.
unfoldable pub read_bytes : ℕ → WireError → ProtoReader → Outcome (List ℕ × ProtoReader)
read_bytes n e r =
    if past_end r n
    then throws e
    else if leb n (length r.rest)
    then ok (take n r.rest, record { addr = (r.addr + n) % 2 ^ 64; rest = drop n r.rest })
    else wild

-- `p_ += n` behind the check, as above; `none` is the return of false.
skip_bytes : ℕ → ProtoReader → Outcome (Option ProtoReader)
skip_bytes n r =
    if past_end r n
    then ok none
    else if leb n (length r.rest)
    then ok (some (record { addr = (r.addr + n) % 2 ^ 64; rest = drop n r.rest }))
    else wild

unfoldable pub skip_field : ℕ → ProtoReader → Outcome (Option ProtoReader)
unfolding skip_bytes
skip_field wire r =
    if wire == 0
    then decode_varint r >>= (λ (v, r'). ok (some r'))
    else if wire == 1
    then skip_bytes 8 r
    else if wire == 2
    then decode_varint r >>= (λ (n, r'). skip_bytes n r')
    else if wire == 5
    then skip_bytes 4 r
    else ok none

-- What `next` reads behind the tag.
unfoldable pub read_value : ℕ → ℕ → ProtoReader → Outcome (Option (WireField × ProtoReader))
read_value field wire r =
    if wire == 0
    then decode_varint r >>= (λ (v, r').
      ok (some (record { field = field; wire = wire; value = v; addr = 0; payload = [] }, r')))
    else if wire == 1
    then read_bytes 8 truncated_fixed64 r >>= (λ (bs, r').
      ok (
        some
          (record { field = field; wire = wire; value = le_val bs; addr = 0; payload = [] }, r')))
    else if wire == 2
    then decode_varint r >>= (λ (n, s). read_bytes n truncated_bytes s >>= (λ (bs, r').
      ok
        (some (record { field = field; wire = wire; value = 0; addr = s.addr; payload = bs }, r'))))
    else if wire == 5
    then read_bytes 4 truncated_fixed32 r >>= (λ (bs, r').
      ok (
        some
          (record { field = field; wire = wire; value = le_val bs; addr = 0; payload = [] }, r')))
    else skip_field wire r >>= (λ skipped. elim skipped [
      | none ↦ ok none
      | some r' ↦
          ok (some (record { field = field; wire = wire; value = 0; addr = 0; payload = [] }, r'))
    ])

-- `none` is the return of false: at the end of the buffer, or at a field that cannot be skipped.
unfoldable pub next : ProtoReader → Outcome (Option (WireField × ProtoReader))
next r =
    if length r.rest == 0
    then ok none
    else decode_varint r >>= (λ (tag, r'). read_value (low_bits (shr tag 3) 32) (low_bits tag 3) r')

-- `while (r.next(f)) switch (f.field) …`, on rounds: every round takes a byte at least.
unfoldable pub each_field {ℓ} :
    {S : Type ℓ} → ℕ → (WireField → S → Outcome S) → S → ProtoReader → Outcome S
each_field zero body s r = stuck
each_field (suc rounds) body s r = next r >>= (λ found. elim found [
  | none ↦ ok s
  | some (f, r') ↦ body f s >>= (λ s'. each_field rounds body s' r')
])

-- A decoder over a buffer at an address: the rounds are one more than its bytes.
unfoldable pub decode_fields {ℓ} :
    {S : Type ℓ} → (WireField → S → Outcome S) → S → ℕ → List ℕ → Outcome S
unfolding each_field
decode_fields body s addr buffer =
    each_field (suc (length buffer)) body s (record { addr = addr; rest = buffer })

-- ProtoWriter. What a method appends to `buf_`; ten rounds are enough for a uint64_t.
pub varint_rounds : ℕ → ℕ → List ℕ
varint_rounds zero v = []
varint_rounds (suc rounds) v =
    let more = varint_rounds rounds (shr v 7) in
    if leb 0x80 v then low_bits (bit_or v 0x80) 8 ∷ more else low_bits v 8 ∷ []

unfoldable pub write_varint : ℕ → List ℕ
write_varint v = varint_rounds 10 v

unfoldable pub write_tag : ℕ → ℕ → List ℕ
write_tag field wire = write_varint (bit_or (field * 2 ^ 3 % 2 ^ 64) wire)

unfoldable pub write_uint64 : ℕ → ℕ → List ℕ
write_uint64 field v = write_tag field 0 ++ write_varint v

unfoldable pub write_uint32 : ℕ → ℕ → List ℕ
write_uint32 field v = write_uint64 field v

-- An int64_t is its 64-bit pattern, and so is a double.
unfoldable pub write_int64 : ℕ → ℕ → List ℕ
write_int64 field v = write_uint64 field v

unfoldable pub write_int32 : ℕ → ℕ → List ℕ
write_int32 field v = write_uint64 field (low_bits v 32)

unfoldable pub write_bool : ℕ → Bool → List ℕ
write_bool field v = write_uint64 field (if v then 1 else 0)

unfoldable pub write_bytes : ℕ → List ℕ → List ℕ
write_bytes field bytes = write_tag field 2 ++ (write_varint (length bytes) ++ bytes)

unfoldable pub write_string : ℕ → List ℕ → List ℕ
write_string field s = write_bytes field s

unfoldable pub write_double : ℕ → ℕ → List ℕ
write_double field v = write_tag field 1 ++ le_bytes 8 v

unfoldable pub write_embedded : ℕ → List ℕ → List ℕ
write_embedded field message = write_tag field 2 ++ (write_varint (length message) ++ message)
