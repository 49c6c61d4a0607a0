-- ===== src/Wire/Runs.antt =====
-- Runs of mining_v2.cpp, and the theorems of Wire at concrete inputs.
use prop_miner.Base.{
  ℕ, ◌+◌, ◌-◌, ◌^◌, ◌≡◌, ◌≢◌, ◌<◌, refl, List, [], ◌∷◌, ◌++◌, arith, leb, ltb, some, if◌then◌else◌,
  length, take, drop,
}
use prop_miner.Wire.{
  ok, write_embedded, stuck, write_string, write_uint32, throws, wild, truncated_bytes,
  decode_varint, write_varint, next, write_tag, write_uint64, write_bytes, write_double, write_tag,
  write_bytes, write_double, varint_rounds,
}
use prop_miner.Wire.Fields.{next_delimited}
use prop_miner.Wire.RoundTrip.{
  IsRequest, received_request, RegisterRequest_decode-RegisterRequest_encode,
}
use prop_miner.Wire.Messages.{
  RegisterRequest, RegisterRequest_encode, has_byte_set, write_gpu_cards, double_positive, GpuCard,
  GpuCard_encode, RegisterRequest_decode, no_register_request,
}
use prop_miner.Wire.Events.{PoolEvent_decode, no_pool_event}
use prop_miner.Wire.Pool.{PoolEvent_decode-ne-stuck}
use prop_miner.Wire.Varint.{reader, decode_varint-write_varint}
use prop_miner.Wire.Fields.{next_delimited}

-- "id" at address 4096.
abbrev name_bytes : List ℕ
name_bytes = b'i' ∷ b'd' ∷ []

abbrev buffer_addr : ℕ
buffer_addr = 4096

varint_test : write_varint 300 ≡ 0xAC ∷ 2 ∷ []
unfolding write_varint varint_rounds
varint_test = refl

decode_varint_example :
    decode_varint (reader buffer_addr (write_varint (2 ^ 64 - 1) ++ name_bytes))
    ≡ ok (2 ^ 64 - 1, reader (buffer_addr + length (write_varint (2 ^ 64 - 1))) name_bytes)
decode_varint_example = decode_varint-write_varint (2 ^ 64 - 1) buffer_addr name_bytes (omega arith)

room : buffer_addr + length (write_bytes 2 name_bytes ++ []) < 2 ^ 64
unfolding write_bytes write_tag write_varint varint_rounds
room = omega arith

room_double : buffer_addr + length (write_double 4 0x3FF0_0000_0000_0000 ++ []) < 2 ^ 64
unfolding write_double write_tag write_varint varint_rounds
room_double = omega arith

room_delimited :
    buffer_addr + length (write_tag 2 2 ++ (write_varint (2 ^ 64 - 1) ++ name_bytes)) < 2 ^ 64
unfolding write_tag write_varint varint_rounds
room_delimited = omega arith

next_delimited_example :
    let start = buffer_addr + length (write_tag 2 2) + length (write_varint (2 ^ 64 - 1)) in
    next (reader buffer_addr (write_tag 2 2 ++ (write_varint (2 ^ 64 - 1) ++ name_bytes))) ≡ (
      if leb (2 ^ 64 - 1) (length name_bytes)
      then ok (
          some (
            record {
              field = 2;
              wire = 2;
              value = 0;
              addr = start;
              payload = take (2 ^ 64 - 1) name_bytes;
            },
            reader (start + (2 ^ 64 - 1)) (drop (2 ^ 64 - 1) name_bytes),
          ))
      else if ltb (start + (2 ^ 64 - 1)) (2 ^ 64)
      then throws truncated_bytes
      else wild)
next_delimited_example =
    next_delimited 2 (2 ^ 64 - 1) buffer_addr name_bytes (omega arith) (omega arith) room_delimited

PoolEvent_decode_example : PoolEvent_decode no_pool_event buffer_addr name_bytes ≢ stuck
PoolEvent_decode_example = PoolEvent_decode-ne-stuck no_pool_event buffer_addr name_bytes

abbrev a_card : GpuCard
a_card = record { uuid = name_bytes; model = []; index = 3; hashrate = 0x3FF0_0000_0000_0000 }

room_card : buffer_addr + length (GpuCard_encode a_card) < 2 ^ 64
unfolding GpuCard_encode write_string write_bytes write_uint32 write_uint64 write_double write_tag
    write_varint varint_rounds
room_card = omega arith

abbrev a_request : RegisterRequest
a_request = record no_register_request {
  wallet_address = name_bytes;
  gpu_cards = a_card ∷ [];
  claimed_total_hashrate = 0x3FF0_0000_0000_0000;
}

a_request-IsRequest : IsRequest a_request
a_request-IsRequest = record {
  k_fits = omega arith;
  version_fits = omega arith;
  hashrate_fits = omega arith;
  cards_fit = ((omega arith, omega arith), tt);
  id_length = refl;
}

room_request : buffer_addr + length (RegisterRequest_encode a_request) < 2 ^ 64
unfolding RegisterRequest_encode has_byte_set write_gpu_cards double_positive write_embedded
    GpuCard_encode write_string write_bytes write_uint32 write_uint64 write_double write_tag
    write_varint varint_rounds
room_request = omega arith

RegisterRequest_round_trip_example :
    RegisterRequest_decode no_register_request buffer_addr (RegisterRequest_encode a_request)
    ≡ ok (received_request a_request)
RegisterRequest_round_trip_example =
    RegisterRequest_decode-RegisterRequest_encode a_request buffer_addr a_request-IsRequest
      room_request
