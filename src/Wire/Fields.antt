-- ===== src/Wire/Fields.antt =====
-- One field: what `next` reads of what a ProtoWriter method wrote.
use prop_miner.Base.{
  ℕ, ◌+◌, ◌*◌, ◌%◌, ◌^◌, ◌<◌, ◌≡◌, refl, sym, ap, ◌∙◌, inl, inr, List, [], ◌++◌, append_assoc,
  arith, false, some, ltb, leb, ◌==◌, if◌then◌else◌, Bool-cases, length, take, drop, length-append,
  IsU32, IsU64, shr, low_bits, bit_or, bit_or-disjoint_left, le_bytes, le_val, length-le_bytes,
  le_val-le_bytes,
}
use prop_miner.Wire.{
  ok, throws, wild, truncated_bytes, truncated_fixed64, read_value, next, write_varint, write_tag,
  write_uint64, write_bytes, write_double,
}
use prop_miner.Wire.Varint.{reader, decode_varint-write_varint, write_varint_shape}
use prop_miner.Wire.Bounds.{read_bytes_lem, read_bytes-append}

write_tag-write_varint :
    (field wire : ℕ)
    → IsU32 field
    → wire < 8
    → write_tag field wire ≡ write_varint (field * 8 + wire)
unfolding write_tag
write_tag-write_varint field wire hf hw =
    let whole : field * 2 ^ 3 % 2 ^ 64 ≡ field * 2 ^ 3 = omega arith in
    ap write_varint (ap (λ (t : ℕ). bit_or t wire) whole ∙ bit_or-disjoint_left 3 wire field hw)

-- `next` takes the tag off and goes on with the value.
next-write_tag :
    (field wire addr : ℕ) (rest : List ℕ)
    → IsU32 field
    → wire < 8
    → next (reader addr (write_tag field wire ++ rest))
      ≡ read_value field wire (reader (addr + length (write_tag field wire)) rest)
unfolding next
next-write_tag field wire addr rest hf hw =
    let tag : ℕ = field * 8 + wire in
    let shape = write_varint_shape tag in
    let some_left : (length (write_varint tag ++ rest) == 0) ≡ false =
      ground (arith, shape, length-append (write_varint tag) rest) in
    let number : low_bits (shr tag 3) 32 ≡ field = omega arith in
    let kind : low_bits tag 3 ≡ wire = omega arith in
    rw (
      write_tag-write_varint field wire hf hw,
      some_left,
      decode_varint-write_varint tag addr rest (omega arith),
      number,
      kind,
    )

-- A number is read back.
pub next-write_uint64 :
    (field v addr : ℕ) (rest : List ℕ)
    → IsU32 field
    → IsU64 v
    → next (reader addr (write_uint64 field v ++ rest))
      ≡ ok (
          some (
            record { field = field; wire = 0; value = v; addr = 0; payload = [] },
            reader (addr + length (write_uint64 field v)) rest,
          ))
unfolding write_uint64 read_value
next-write_uint64 field v addr rest hf hv =
    let tag = write_tag field 0 in
    let size : addr + length tag + length (write_varint v) ≡ addr + length (tag ++ write_varint v) =
      omega (arith, length-append tag (write_varint v)) in
    rw (
      append_assoc tag (write_varint v) rest,
      next-write_tag field 0 addr (write_varint v ++ rest) hf (omega arith),
      decode_varint-write_varint v (addr + length tag) rest hv,
      size,
    )

-- The address of the bytes of a length-delimited field that stands at `addr`.
abbrev pub payload_addr : ℕ → ℕ → List ℕ → ℕ
payload_addr field addr bytes =
    addr + length (write_tag field 2) + length (write_varint (length bytes))

-- The bytes of a length-delimited field are read back, where the buffer ends below 2 ^ 64.
pub next-write_bytes :
    (field addr : ℕ) (bytes rest : List ℕ)
    → IsU32 field
    → addr + length (write_bytes field bytes ++ rest) < 2 ^ 64
    → next (reader addr (write_bytes field bytes ++ rest))
      ≡ ok (
          some (
            record {
              field = field;
              wire = 2;
              value = 0;
              addr = payload_addr field addr bytes;
              payload = bytes;
            },
            reader (addr + length (write_bytes field bytes)) rest,
          ))
unfolding write_bytes read_value
next-write_bytes field addr bytes rest hf room =
    let tag = write_tag field 2 in
    let size = write_varint (length bytes) in
    let whole = length-append tag (size ++ bytes) in
    let inner = length-append size bytes in
    let outer = length-append (tag ++ (size ++ bytes)) rest in
    let end = length-append bytes rest in
    let last : addr + length tag + length size + length bytes
        ≡ addr + length (tag ++ (size ++ bytes)) =
      omega (arith, whole, inner) in
    rw (
      append_assoc tag (size ++ bytes) rest,
      append_assoc size bytes rest,
      next-write_tag field 2 addr (size ++ (bytes ++ rest)) hf (omega arith),
      decode_varint-write_varint (length bytes) (addr + length tag) (bytes ++ rest)
          (omega (arith, whole, inner, outer)),
      read_bytes-append bytes rest truncated_bytes (addr + length tag + length size) (length bytes)
          refl (omega (arith, whole, inner, outer, end)),
      last,
    )

-- Eight bytes behind a tag of wire type 1.
next_fixed64 :
    (field addr : ℕ) (bytes rest : List ℕ)
    → IsU32 field
    → length bytes ≡ 8
    → addr + length ((write_tag field 1 ++ bytes) ++ rest) < 2 ^ 64
    → next (reader addr ((write_tag field 1 ++ bytes) ++ rest))
      ≡ ok (
          some (
            record { field = field; wire = 1; value = le_val bytes; addr = 0; payload = [] },
            reader (addr + length (write_tag field 1 ++ bytes)) rest,
          ))
unfolding read_value
next_fixed64 field addr bytes rest hf eight room =
    let tag = write_tag field 1 in
    let whole = length-append tag bytes in
    let outer = length-append (tag ++ bytes) rest in
    let end = length-append bytes rest in
    let last : addr + length tag + length bytes ≡ addr + length (tag ++ bytes) =
      omega (arith, whole) in
    rw (
      append_assoc tag bytes rest,
      next-write_tag field 1 addr (bytes ++ rest) hf (omega arith),
      read_bytes-append bytes rest truncated_fixed64 (addr + length tag) 8 (sym eight)
          (omega (arith, whole, outer, end)),
      last,
    )

-- A double is read back as its pattern in `value`, with no payload.
pub next-write_double :
    (field v addr : ℕ) (rest : List ℕ)
    → IsU32 field
    → IsU64 v
    → addr + length (write_double field v ++ rest) < 2 ^ 64
    → next (reader addr (write_double field v ++ rest))
      ≡ ok (
          some (
            record { field = field; wire = 1; value = v; addr = 0; payload = [] },
            reader (addr + length (write_double field v)) rest,
          ))
unfolding write_double
next-write_double field v addr rest hf hv room =
    next_fixed64 field addr (le_bytes 8 v) rest hf (length-le_bytes 8 v) room
    ∙ ap
        (λ (x : ℕ). ok (
          some (
            record { field = field; wire = 1; value = x; addr = 0; payload = [] },
            reader (addr + length (write_double field v)) rest,
          )))
        (le_val-le_bytes 8 v hv)

-- A length-delimited field of declared length `n` before the bytes `tail`: it is read where `tail` is
-- long enough and refused where it is not, but a length that leads the pointer around the address
-- space passes the check, and the behaviour is undefined from there on.
pub next_delimited :
    (field n addr : ℕ) (tail : List ℕ)
    → IsU32 field
    → IsU64 n
    → addr + length (write_tag field 2 ++ (write_varint n ++ tail)) < 2 ^ 64
    → let start = addr + length (write_tag field 2) + length (write_varint n) in
      next (reader addr (write_tag field 2 ++ (write_varint n ++ tail))) ≡ (
        if leb n (length tail)
        then ok (
            some (
              record { field = field; wire = 2; value = 0; addr = start; payload = take n tail },
              reader (start + n) (drop n tail),
            ))
        else if ltb (start + n) (2 ^ 64)
        then throws truncated_bytes
        else wild)
unfolding read_value
next_delimited field n addr tail hf hn room =
    let tag = write_tag field 2 in
    let size = write_varint n in
    let whole = length-append tag (size ++ tail) in
    let inner = length-append size tail in
    let start : ℕ = addr + length tag + length size in
    let step =
      read_bytes_lem n truncated_bytes (reader start tail) hn (omega (arith, whole, inner)) in
    rw
      (
        next-write_tag field 2 addr (size ++ tail) hf (omega arith),
        decode_varint-write_varint n (addr + length tag) tail hn,
        step,
      )
      (elim (Bool-cases (leb n (length tail))) [
        | inl inside ↦ rw inside
        | inr outside ↦ elim (Bool-cases (ltb (start + n) (2 ^ 64))) [
          | inl plain ↦ rw (outside, plain)
          | inr around ↦ rw (outside, around)
        ]
      ])
