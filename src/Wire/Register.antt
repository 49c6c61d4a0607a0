-- ===== src/Wire/Register.antt =====
-- GpuCard and RegisterRequest of mining_v2.cpp: what the decoder makes of an encoded message.
use prop_miner.Base.{
  ℕ, ◌+◌, ◌^◌, ◌<◌, ◌≡◌, sym, ap, ◌∙◌, [], ◌++◌, arith, length, length-append, IsU32, IsU64,
  append-nil, low_bits,
}
use prop_miner.Wire.{
  ok, decode_fields, write_uint64, write_uint32, write_string, write_bytes, write_double,
}
use prop_miner.Wire.Step.{
  decode_fields_end, decode_fields-write_uint64, decode_fields-write_bytes,
  decode_fields-write_double,
}
use prop_miner.Wire.Messages.{GpuCard, GpuCard_encode, GpuCard_decode, gpu_card_field, no_gpu_card}

low_32 : (v : ℕ) → IsU32 v → low_bits v 32 ≡ v
low_32 v h = omega arith

-- A GpuCard comes back from its encoding without its hashrate, which the decoder looks for in the
-- bytes of the field: a double comes as a number. The buffer ends below 2 ^ 64.
pub GpuCard_decode-GpuCard_encode :
    (g : GpuCard) (addr : ℕ)
    → IsU32 g.index
    → IsU64 g.hashrate
    → addr + length (GpuCard_encode g) < 2 ^ 64
    → GpuCard_decode no_gpu_card addr (GpuCard_encode g) ≡ ok (record g { hashrate = 0 })
unfolding GpuCard_encode GpuCard_decode gpu_card_field write_string write_uint32
GpuCard_decode-GpuCard_encode g addr hi hh room =
    let b = gpu_card_field in
    let last = write_double 4 g.hashrate in
    let third = write_uint64 3 g.index ++ last in
    let second = write_bytes 2 g.model ++ third in
    let a2 : ℕ = addr + length (write_bytes 1 g.uuid) in
    let a3 : ℕ = a2 + length (write_bytes 2 g.model) in
    let a4 : ℕ = a3 + length (write_uint64 3 g.index) in
    let l1 = length-append (write_bytes 1 g.uuid) second in
    let l2 = length-append (write_bytes 2 g.model) third in
    let l3 = length-append (write_uint64 3 g.index) last in
    let l4 = length-append last [] in
    let s1 = record no_gpu_card { uuid = g.uuid } in
    let s2 = record s1 { model = g.model } in
    let s3 = record g { hashrate = 0 } in
    let index =
      ap (λ (i : ℕ). decode_fields b (record s2 { index = i }) a4 last) (low_32 g.index hi) in
    decode_fields-write_bytes b no_gpu_card 1 addr g.uuid second (omega arith) room
    ∙ decode_fields-write_bytes b s1 2 a2 g.model third (omega arith) (omega (arith, l1))
    ∙ decode_fields-write_uint64 b s2 3 g.index a3 last (omega arith) (omega arith)
    ∙ index
    ∙ ap (decode_fields b s3 a4) (sym (append-nil last))
    ∙ decode_fields-write_double b s3 4 g.hashrate a4 [] (omega arith) hh
        (omega (arith, l1, l2, l3, l4))
    ∙ decode_fields_end b s3 (a4 + length last)
