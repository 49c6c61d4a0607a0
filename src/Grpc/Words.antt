-- ===== src/Grpc/Words.antt =====
-- The big-endian words of HTTP/2 frames and gRPC messages.
use prop_miner.Base.{
  ℕ, suc, ◌+◌, ◌*◌, ◌%◌, ◌^◌, ◌<◌, ◌≡◌, refl, ap, ◌∙◌, List, ◌++◌, arith, length, drop, shr,
  low_bits, bit_or, bit_or-disjoint_left, IsByte, IsU32, length-append, drop-append, append_assoc,
}
use prop_miner.Grpc.{read_u24_be, write_u24_be, read_u32_be, write_u32_be, grpc_frame}

-- Bytes joined from the highest one down.
join_bytes : (high low : ℕ) → IsByte low → bit_or (high * 2 ^ 8) low ≡ high * 2 ^ 8 + low
join_bytes high low h = bit_or-disjoint_left 8 low high h

-- Three bytes of which the lowest is still to come are a multiple of 2 ^ 8.
four_bytes :
    (a b c d : ℕ)
    → IsByte b
    → IsByte c
    → IsByte d
    → bit_or (bit_or (bit_or (a * 2 ^ 24) (b * 2 ^ 16)) (c * 2 ^ 8)) d
      ≡ a * 2 ^ 24 + b * 2 ^ 16 + c * 2 ^ 8 + d
four_bytes a b c d hb hc hd =
    let one : bit_or (a * 2 ^ 24) (b * 2 ^ 16) ≡ a * 2 ^ 24 + b * 2 ^ 16 =
      bit_or-disjoint_left 24 (b * 2 ^ 16) a (omega arith) in
    let up : a * 2 ^ 24 + b * 2 ^ 16 ≡ (a * 256 + b) * 2 ^ 16 = omega arith in
    let two : bit_or ((a * 256 + b) * 2 ^ 16) (c * 2 ^ 8) ≡ (a * 256 + b) * 2 ^ 16 + c * 2 ^ 8 =
      bit_or-disjoint_left 16 (c * 2 ^ 8) (a * 256 + b) (omega arith) in
    let up' : (a * 256 + b) * 2 ^ 16 + c * 2 ^ 8 ≡ (a * 65536 + b * 256 + c) * 2 ^ 8 =
      omega arith in
    rw (one, up, two, up') (join_bytes (a * 65536 + b * 256 + c) d hd ∙ omega arith)

three_bytes :
    (a b c : ℕ)
    → IsByte b
    → IsByte c
    → bit_or (bit_or (a * 2 ^ 16) (b * 2 ^ 8)) c ≡ a * 2 ^ 16 + b * 2 ^ 8 + c
three_bytes a b c hb hc =
    let one : bit_or (a * 2 ^ 16) (b * 2 ^ 8) ≡ a * 2 ^ 16 + b * 2 ^ 8 =
      bit_or-disjoint_left 16 (b * 2 ^ 8) a (omega arith) in
    let up : a * 2 ^ 16 + b * 2 ^ 8 ≡ (a * 256 + b) * 2 ^ 8 = omega arith in
    rw (one, up) (join_bytes (a * 256 + b) c hc ∙ omega arith)

-- A 32-bit word is read back from the bytes that `write_u32_be` writes, whatever stands behind them.
pub read_u32_be-write_u32_be :
    (v : ℕ) (rest : List ℕ) → IsU32 v → read_u32_be (write_u32_be v ++ rest) ≡ v
unfolding read_u32_be write_u32_be
read_u32_be-write_u32_be v rest h =
    four_bytes (low_bits (shr v 24) 8) (low_bits (shr v 16) 8) (low_bits (shr v 8) 8) (low_bits v 8)
      (omega arith) (omega arith) (omega arith)
    ∙ omega arith

-- So is a word of 24 bits from the bytes of `write_u24_be`.
pub read_u24_be-write_u24_be :
    (v : ℕ) (rest : List ℕ) → v < 2 ^ 24 → read_u24_be (write_u24_be v ++ rest) ≡ v
unfolding read_u24_be write_u24_be
read_u24_be-write_u24_be v rest h =
    three_bytes (low_bits (shr v 16) 8) (low_bits (shr v 8) 8) (low_bits v 8) (omega arith)
      (omega arith)
    ∙ omega arith

-- The length that stands before a gRPC message.
pub grpc_frame_len :
    (message rest : List ℕ)
    → IsU32 (length message)
    → read_u32_be (drop 1 (grpc_frame message ++ rest)) ≡ length message
unfolding grpc_frame
grpc_frame_len message rest h =
    let whole : length message % 2 ^ 32 ≡ length message = omega arith in
    rw whole (
      ap read_u32_be (append_assoc (write_u32_be (length message)) message rest)
      ∙ read_u32_be-write_u32_be (length message) (message ++ rest) h)

-- A gRPC message stands behind five bytes.
pub drop-grpc_frame :
    (message rest : List ℕ) → drop 5 (grpc_frame message ++ rest) ≡ message ++ rest
unfolding grpc_frame write_u32_be
drop-grpc_frame message rest = refl

pub length-grpc_frame :
    (message rest : List ℕ) → length (grpc_frame message ++ rest) ≡ 5 + length message + length rest
unfolding grpc_frame write_u32_be
length-grpc_frame message rest = omega (arith, length-append message rest)

-- And what stands behind the message.
pub drop-grpc_frame_all :
    (message rest : List ℕ) → drop (5 + length message) (grpc_frame message ++ rest) ≡ rest
unfolding grpc_frame write_u32_be
drop-grpc_frame_all message rest =
    let five : 5 + length message ≡ suc (suc (suc (suc (suc (length message))))) = omega arith in
    ap (λ (n : ℕ). drop n (grpc_frame message ++ rest)) five ∙ drop-append message rest
