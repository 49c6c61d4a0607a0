-- ===== src/Wire/Messages.antt =====
-- mining_v2.h and .cpp, the messages of the miner: their encoders, and the decoders of GpuCard and
-- RegisterRequest. A double is its 64-bit pattern and an int64_t its two's complement.
use prop_miner.Base.{
  ℕ, Bool, false, not, ◌&&◌, ◌||◌, List, [], ◌∷◌, ◌++◌, Option, none, some, ltb, leb, ◌==◌,
  if◌then◌else◌, length, replicate, low_bits, le_val,
}
use prop_miner.Wire.{
  Outcome, ok, ◌>>=◌, WireField, decode_fields, write_uint64, write_uint32, write_int64,
  write_bytes, write_string, write_double, write_embedded,
}

pub record GpuCard : Type 0 where
  pub uuid : List ℕ
  pub model : List ℕ
  pub index : ℕ
  pub hashrate : ℕ

abbrev pub no_gpu_card : GpuCard
no_gpu_card = record { uuid = []; model = []; index = 0; hashrate = 0 }

unfoldable pub GpuCard_encode : GpuCard → List ℕ
GpuCard_encode g =
    write_string 1 g.uuid
    ++ (write_string 2 g.model ++ (write_uint32 3 g.index ++ write_double 4 g.hashrate))

-- The switch of `GpuCard::decode`.
unfoldable pub gpu_card_field : WireField → GpuCard → Outcome GpuCard
gpu_card_field f g =
    if f.field == 1
    then ok (record g { uuid = f.payload })
    else if f.field == 2
    then ok (record g { model = f.payload })
    else if f.field == 3
    then ok (record g { index = low_bits f.value 32 })
    else if f.field == 4
    then (if length f.payload == 8 then ok (record g { hashrate = le_val f.payload }) else ok g)
    else ok g

unfoldable pub GpuCard_decode : GpuCard → ℕ → List ℕ → Outcome GpuCard
GpuCard_decode = decode_fields gpu_card_field

pub record RegisterRequest : Type 0 where
  pub miner_id : List ℕ
  pub identity_key : List ℕ
  pub wallet_address : List ℕ
  pub worker_name : List ℕ
  pub gpu_cards : List GpuCard
  pub claimed_total_hashrate : ℕ
  pub miner_version : List ℕ
  pub git_sha : List ℕ
  pub protocol_version : ℕ
  pub k : ℕ

abbrev pub no_register_request : RegisterRequest
no_register_request = record {
  miner_id = replicate 16 0;
  identity_key = [];
  wallet_address = [];
  worker_name = [];
  gpu_cards = [];
  claimed_total_hashrate = 0;
  miner_version = [];
  git_sha = [];
  protocol_version = 2;
  k = 128;
}

-- The loop that sets `has_miner_id`.
unfoldable pub has_byte_set : List ℕ → Bool
has_byte_set [] = false
has_byte_set (b ∷ bs) = not (b == 0) || has_byte_set bs

-- `d > 0.0` on the pattern of a double: the sign is clear, and it is neither zero nor a NaN.
unfoldable pub double_positive : ℕ → Bool
double_positive d = ltb 0 d && leb d 0x7FF0_0000_0000_0000

unfoldable pub write_gpu_cards : List GpuCard → List ℕ
write_gpu_cards [] = []
write_gpu_cards (g ∷ gs) = write_embedded 5 (GpuCard_encode g) ++ write_gpu_cards gs

unfoldable pub RegisterRequest_encode : RegisterRequest → List ℕ
RegisterRequest_encode r =
    (if has_byte_set r.miner_id then write_bytes 1 r.miner_id else [])
    ++ ((if length r.identity_key == 0 then [] else write_string 2 r.identity_key)
        ++ (write_string 3 r.wallet_address
            ++ (write_string 4 r.worker_name
                ++ (write_gpu_cards r.gpu_cards
                    ++ ((if double_positive r.claimed_total_hashrate
                          then write_double 6 r.claimed_total_hashrate
                          else [])
                        ++ (write_string 7 r.miner_version
                            ++ ((if length r.git_sha == 0 then [] else write_string 8 r.git_sha)
                                ++ (write_uint32 9 r.protocol_version ++ write_uint32 10 r.k))))))))

-- The switch of `RegisterRequest::decode`.
unfoldable pub register_field : WireField → RegisterRequest → Outcome RegisterRequest
register_field f r =
    if f.field == 1
    then (if length f.payload == 16 then ok (record r { miner_id = f.payload }) else ok r)
    else if f.field == 2
    then ok (record r { identity_key = f.payload })
    else if f.field == 3
    then ok (record r { wallet_address = f.payload })
    else if f.field == 4
    then ok (record r { worker_name = f.payload })
    else if f.field == 5
    then GpuCard_decode no_gpu_card f.addr f.payload
      >>= (λ g. ok (record r { gpu_cards = r.gpu_cards ++ g ∷ [] }))
    else if f.field == 6
    then (if length f.payload == 8
        then ok (record r { claimed_total_hashrate = le_val f.payload })
        else ok r)
    else if f.field == 7
    then ok (record r { miner_version = f.payload })
    else if f.field == 8
    then ok (record r { git_sha = f.payload })
    else if f.field == 9
    then ok (record r { protocol_version = low_bits f.value 32 })
    else if f.field == 10
    then ok (record r { k = low_bits f.value 32 })
    else ok r

unfoldable pub RegisterRequest_decode : RegisterRequest → ℕ → List ℕ → Outcome RegisterRequest
RegisterRequest_decode = decode_fields register_field

pub record AuthEvent : Type 0 where
  pub miner_id : List ℕ
  pub session_token : List ℕ
  pub register_req : Option RegisterRequest

unfoldable pub AuthEvent_encode : AuthEvent → List ℕ
AuthEvent_encode a =
    write_bytes 1 a.miner_id
    ++ (write_string 2 a.session_token
        ++ elim a.register_req [ none ↦ [] | some r ↦ write_embedded 3 (RegisterRequest_encode r) ])

pub record PerGpuHashrate : Type 0 where
  pub gpu_uuid : List ℕ
  pub hashrate_5m : ℕ
  pub shares_5m : ℕ

pub record Heartbeat : Type 0 where
  pub timestamp : ℕ
  pub gpu_hashrates : List PerGpuHashrate
  pub sequence_number : ℕ
  pub current_hashrate : ℕ
  pub latency : ℕ

unfoldable pub write_gpu_hashrates : List PerGpuHashrate → List ℕ
write_gpu_hashrates [] = []
write_gpu_hashrates (g ∷ gs) =
    write_embedded 2
      (write_string 1 g.gpu_uuid ++ (write_double 2 g.hashrate_5m ++ write_uint32 3 g.shares_5m))
    ++ write_gpu_hashrates gs

unfoldable pub Heartbeat_encode : Heartbeat → List ℕ
Heartbeat_encode h =
    write_int64 1 h.timestamp
    ++ (write_gpu_hashrates h.gpu_hashrates
        ++ (write_uint64 3 h.sequence_number
            ++ (write_double 4 h.current_hashrate ++ write_double 5 h.latency)))

pub record PingEvent : Type 0 where
  pub timestamp : ℕ

unfoldable pub PingEvent_encode : PingEvent → List ℕ
PingEvent_encode p = write_int64 1 p.timestamp

pub data MinerEventType : Type 0 where
  none_event auth share heartbeat ping : MinerEventType

unfoldable pub miner_event_number : MinerEventType → ℕ
miner_event_number none_event = 0
miner_event_number auth = 2
miner_event_number share = 3
miner_event_number heartbeat = 4
miner_event_number ping = 5

pub record MinerEvent : Type 0 where
  pub seq : ℕ
  pub event_type : MinerEventType
  pub payload : List ℕ

unfoldable pub MinerEvent_encode : MinerEvent → List ℕ
MinerEvent_encode m =
    write_uint64 1 m.seq
    ++ (if length m.payload == 0
        then []
        else write_embedded (miner_event_number m.event_type) m.payload)
