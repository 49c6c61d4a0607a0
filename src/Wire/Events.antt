-- ===== src/Wire/Events.antt =====
-- mining_v2.h and .cpp, the messages of the pool: their decoders. An int64_t is its two's complement.
use prop_miner.Base.{
  ℕ, ◌-◌, Bool, false, not, List, [], ◌++◌, ◌==◌, if◌then◌else◌, length, replicate, low_bits,
}
use prop_miner.Wire.{Outcome, ok, ◌>>=◌, WireField, decode_fields}

pub record RegisterResponse : Type 0 where
  pub success : Bool
  pub miner_id : List ℕ
  pub session_token : List ℕ
  pub identity_key : List ℕ
  pub initial_difficulty_nbits : ℕ
  pub pool_id : List ℕ
  pub error_message : List ℕ

unfoldable pub register_response_field : WireField → RegisterResponse → Outcome RegisterResponse
register_response_field f r =
    if f.field == 1
    then ok (record r { success = not (f.value == 0) })
    else if f.field == 2
    then (if length f.payload == 16 then ok (record r { miner_id = f.payload }) else ok r)
    else if f.field == 3
    then ok (record r { session_token = f.payload })
    else if f.field == 4
    then ok (record r { identity_key = f.payload })
    else if f.field == 5
    then ok (record r { initial_difficulty_nbits = low_bits f.value 32 })
    else if f.field == 6
    then (if length f.payload == 32 then ok (record r { pool_id = f.payload }) else ok r)
    else if f.field == 7
    then ok (record r { error_message = f.payload })
    else ok r

unfoldable pub RegisterResponse_decode : RegisterResponse → ℕ → List ℕ → Outcome RegisterResponse
RegisterResponse_decode = decode_fields register_response_field

abbrev pub sigma_header_bytes : ℕ
sigma_header_bytes = 76

pub record JobAssignment : Type 0 where
  pub job_id : List ℕ
  pub sigma : List ℕ
  pub target_nbits : ℕ
  pub network_target_nbits : ℕ
  pub block_height : ℕ
  pub protocol_version : ℕ
  pub b_seed : List ℕ
  pub audit_k : ℕ

abbrev pub no_job : JobAssignment
no_job = record {
  job_id = replicate 16 0;
  sigma = replicate sigma_header_bytes 0;
  target_nbits = 0;
  network_target_nbits = 0;
  block_height = 0;
  protocol_version = 2;
  b_seed = replicate 32 0;
  audit_k = 0;
}

-- The switch of `JobAssignment::decode`; a sigma of 32 bytes is padded with zeros.
unfoldable pub job_field : WireField → JobAssignment → Outcome JobAssignment
job_field f j =
    if f.field == 1
    then (if length f.payload == 16 then ok (record j { job_id = f.payload }) else ok j)
    else if f.field == 2
    then (if length f.payload == sigma_header_bytes
        then ok (record j { sigma = f.payload })
        else if length f.payload == 32
        then ok (record j { sigma = f.payload ++ replicate (sigma_header_bytes - 32) 0 })
        else ok j)
    else if f.field == 3
    then ok (record j { target_nbits = low_bits f.value 32 })
    else if f.field == 4
    then ok (record j { network_target_nbits = low_bits f.value 32 })
    else if f.field == 5
    then ok (record j { block_height = f.value })
    else if f.field == 6
    then ok (record j { protocol_version = low_bits f.value 32 })
    else if f.field == 7
    then (if length f.payload == 32 then ok (record j { b_seed = f.payload }) else ok j)
    else if f.field == 8
    then ok (record j { audit_k = low_bits f.value 32 })
    else ok j

unfoldable pub JobAssignment_decode : JobAssignment → ℕ → List ℕ → Outcome JobAssignment
JobAssignment_decode = decode_fields job_field

pub record ShareResult : Type 0 where
  pub computed_hash : List ℕ
  pub accepted : Bool
  pub outcome : List ℕ
  pub message : List ℕ
  pub is_block_find : Bool

unfoldable pub share_result_field : WireField → ShareResult → Outcome ShareResult
share_result_field f s =
    if f.field == 1
    then (if length f.payload == 32 then ok (record s { computed_hash = f.payload }) else ok s)
    else if f.field == 2
    then ok (record s { accepted = not (f.value == 0) })
    else if f.field == 3
    then ok (record s { outcome = f.payload })
    else if f.field == 4
    then ok (record s { message = f.payload })
    else if f.field == 5
    then ok (record s { is_block_find = not (f.value == 0) })
    else ok s

unfoldable pub ShareResult_decode : ShareResult → ℕ → List ℕ → Outcome ShareResult
ShareResult_decode = decode_fields share_result_field

pub record DifficultyAdjust : Type 0 where
  pub new_target_nbits : ℕ
  pub reason : List ℕ
  pub measured_hashrate : ℕ

unfoldable pub difficulty_field : WireField → DifficultyAdjust → Outcome DifficultyAdjust
difficulty_field f d =
    if f.field == 1
    then ok (record d { new_target_nbits = low_bits f.value 32 })
    else if f.field == 2
    then ok (record d { reason = f.payload })
    else if f.field == 3
    then ok (record d { measured_hashrate = f.value })
    else ok d

unfoldable pub DifficultyAdjust_decode : DifficultyAdjust → ℕ → List ℕ → Outcome DifficultyAdjust
DifficultyAdjust_decode = decode_fields difficulty_field

pub record PongEvent : Type 0 where
  pub timestamp : ℕ

unfoldable pub pong_field : WireField → PongEvent → Outcome PongEvent
pong_field f p = if f.field == 1 then ok (record p { timestamp = f.value }) else ok p

unfoldable pub PongEvent_decode : PongEvent → ℕ → List ℕ → Outcome PongEvent
PongEvent_decode = decode_fields pong_field

pub record PoolError : Type 0 where
  pub code : List ℕ
  pub message : List ℕ
  pub fatal : Bool

unfoldable pub pool_error_field : WireField → PoolError → Outcome PoolError
pool_error_field f e =
    if f.field == 1
    then ok (record e { code = f.payload })
    else if f.field == 2
    then ok (record e { message = f.payload })
    else if f.field == 3
    then ok (record e { fatal = not (f.value == 0) })
    else ok e

unfoldable pub PoolError_decode : PoolError → ℕ → List ℕ → Outcome PoolError
PoolError_decode = decode_fields pool_error_field

pub record ReconnectHint : Type 0 where
  pub wait_seconds : ℕ
  pub reason : List ℕ

unfoldable pub reconnect_field : WireField → ReconnectHint → Outcome ReconnectHint
reconnect_field f h =
    if f.field == 1
    then ok (record h { wait_seconds = low_bits f.value 32 })
    else if f.field == 2
    then ok (record h { reason = f.payload })
    else ok h

unfoldable pub ReconnectHint_decode : ReconnectHint → ℕ → List ℕ → Outcome ReconnectHint
ReconnectHint_decode = decode_fields reconnect_field

pub data PoolEventType : Type 0 where
  none_event job_event share_event vardiff_event pong_event error_event reconnect_event :
      PoolEventType

pub record PoolEvent : Type 0 where
  pub seq : ℕ
  pub event_type : PoolEventType
  pub job : JobAssignment
  pub share_result : ShareResult
  pub vardiff : DifficultyAdjust
  pub pong : PongEvent
  pub error : PoolError
  pub reconnect : ReconnectHint

abbrev pub no_pool_event : PoolEvent
no_pool_event = record {
  seq = 0;
  event_type = none_event;
  job = no_job;
  share_result = record {
    computed_hash = replicate 32 0;
    accepted = false;
    outcome = [];
    message = [];
    is_block_find = false;
  };
  vardiff = record { new_target_nbits = 0; reason = []; measured_hashrate = 0 };
  pong = record { timestamp = 0 };
  error = record { code = []; message = []; fatal = false };
  reconnect = record { wait_seconds = 0; reason = [] };
}

-- The switch of `PoolEvent::decode`; what a nested decoder throws goes through.
unfoldable pub pool_event_field : WireField → PoolEvent → Outcome PoolEvent
pool_event_field f e =
    if f.field == 1
    then ok (record e { seq = f.value })
    else if f.field == 2
    then JobAssignment_decode e.job f.addr f.payload
      >>= (λ v. ok (record e { event_type = job_event; job = v }))
    else if f.field == 3
    then ShareResult_decode e.share_result f.addr f.payload
      >>= (λ v. ok (record e { event_type = share_event; share_result = v }))
    else if f.field == 4
    then DifficultyAdjust_decode e.vardiff f.addr f.payload
      >>= (λ v. ok (record e { event_type = vardiff_event; vardiff = v }))
    else if f.field == 5
    then PongEvent_decode e.pong f.addr f.payload
      >>= (λ v. ok (record e { event_type = pong_event; pong = v }))
    else if f.field == 6
    then PoolError_decode e.error f.addr f.payload
      >>= (λ v. ok (record e { event_type = error_event; error = v }))
    else if f.field == 7
    then ReconnectHint_decode e.reconnect f.addr f.payload
      >>= (λ v. ok (record e { event_type = reconnect_event; reconnect = v }))
    else ok e

unfoldable pub PoolEvent_decode : PoolEvent → ℕ → List ℕ → Outcome PoolEvent
PoolEvent_decode = decode_fields pool_event_field
