-- ===== src/Wire/Pool.antt =====
-- The decoders of the pool's messages, and the nested one of PoolEvent: they end on every buffer.
use prop_miner.Base.{ℕ, ◌≢◌, refl, List, arith, Bool, true, false, length, ◌==◌, if◌then◌else◌}
use prop_miner.Wire.{Outcome, ok, throws, wild, stuck, ◌>>=◌, WireField}
use prop_miner.Wire.Progress.{decode_fields-ne-stuck}
use prop_miner.Wire.Messages.{
  GpuCard, gpu_card_field, GpuCard_decode, no_gpu_card, RegisterRequest, register_field,
  RegisterRequest_decode,
}
use prop_miner.Wire.Events.{
  RegisterResponse, register_response_field, RegisterResponse_decode, JobAssignment, job_field,
  JobAssignment_decode, ShareResult, share_result_field, ShareResult_decode, DifficultyAdjust,
  difficulty_field, DifficultyAdjust_decode, PongEvent, pong_field, PongEvent_decode, PoolError,
  pool_error_field, PoolError_decode, ReconnectHint, reconnect_field, ReconnectHint_decode,
  PoolEvent, pool_event_field, PoolEvent_decode,
}

module _ (f : WireField) where
  job_field-ne-stuck : (j : JobAssignment) → job_field f j ≢ stuck
  unfolding job_field
  job_field-ne-stuck j h = ground arith

  share_result_field-ne-stuck : (s : ShareResult) → share_result_field f s ≢ stuck
  unfolding share_result_field
  share_result_field-ne-stuck s h = ground arith

  difficulty_field-ne-stuck : (d : DifficultyAdjust) → difficulty_field f d ≢ stuck
  unfolding difficulty_field
  difficulty_field-ne-stuck d h = ground arith

  pong_field-ne-stuck : (p : PongEvent) → pong_field f p ≢ stuck
  unfolding pong_field
  pong_field-ne-stuck p h = ground arith

  pool_error_field-ne-stuck : (e : PoolError) → pool_error_field f e ≢ stuck
  unfolding pool_error_field
  pool_error_field-ne-stuck e h = ground arith

  reconnect_field-ne-stuck : (r : ReconnectHint) → reconnect_field f r ≢ stuck
  unfolding reconnect_field
  reconnect_field-ne-stuck r h = ground arith

  gpu_card_field-ne-stuck : (g : GpuCard) → gpu_card_field f g ≢ stuck
  unfolding gpu_card_field
  gpu_card_field-ne-stuck g h = ground arith

  register_response_field-ne-stuck : (r : RegisterResponse) → register_response_field f r ≢ stuck
  unfolding register_response_field
  register_response_field-ne-stuck r h = ground arith

-- A nested decoder that is not stuck, with what is stored of its result.
stored-ne-stuck {ℓ κ} :
    {A : Type ℓ} {B : Type κ} (m : Outcome A) (store : A → B)
    → m ≢ stuck
    → (m >>= (λ a. ok (store a))) ≢ stuck
stored-ne-stuck (ok a) store h p = cc
stored-ne-stuck (throws e) store h p = cc
stored-ne-stuck wild store h p = cc
stored-ne-stuck stuck store h p = h refl

if-ne-stuck {ℓ} :
    {A : Type ℓ} (test : Bool) {m n : Outcome A}
    → m ≢ stuck
    → n ≢ stuck
    → (if test then m else n) ≢ stuck
if-ne-stuck true h k = h
if-ne-stuck false h k = k

ok-ne-stuck {ℓ} : {A : Type ℓ} (a : A) → ok a ≢ stuck
ok-ne-stuck a p = cc

-- The decoders of one level, over every buffer at every address.
module _ (addr : ℕ) (buffer : List ℕ) where
  JobAssignment_decode-ne-stuck : (s : JobAssignment) → JobAssignment_decode s addr buffer ≢ stuck
  unfolding JobAssignment_decode
  JobAssignment_decode-ne-stuck s =
      decode_fields-ne-stuck job_field job_field-ne-stuck s addr buffer

  ShareResult_decode-ne-stuck : (s : ShareResult) → ShareResult_decode s addr buffer ≢ stuck
  unfolding ShareResult_decode
  ShareResult_decode-ne-stuck s =
      decode_fields-ne-stuck share_result_field share_result_field-ne-stuck s addr buffer

  DifficultyAdjust_decode-ne-stuck :
      (s : DifficultyAdjust) → DifficultyAdjust_decode s addr buffer ≢ stuck
  unfolding DifficultyAdjust_decode
  DifficultyAdjust_decode-ne-stuck s =
      decode_fields-ne-stuck difficulty_field difficulty_field-ne-stuck s addr buffer

  PongEvent_decode-ne-stuck : (s : PongEvent) → PongEvent_decode s addr buffer ≢ stuck
  unfolding PongEvent_decode
  PongEvent_decode-ne-stuck s = decode_fields-ne-stuck pong_field pong_field-ne-stuck s addr buffer

  PoolError_decode-ne-stuck : (s : PoolError) → PoolError_decode s addr buffer ≢ stuck
  unfolding PoolError_decode
  PoolError_decode-ne-stuck s =
      decode_fields-ne-stuck pool_error_field pool_error_field-ne-stuck s addr buffer

  ReconnectHint_decode-ne-stuck : (s : ReconnectHint) → ReconnectHint_decode s addr buffer ≢ stuck
  unfolding ReconnectHint_decode
  ReconnectHint_decode-ne-stuck s =
      decode_fields-ne-stuck reconnect_field reconnect_field-ne-stuck s addr buffer

  GpuCard_decode-ne-stuck : (s : GpuCard) → GpuCard_decode s addr buffer ≢ stuck
  unfolding GpuCard_decode
  GpuCard_decode-ne-stuck s =
      decode_fields-ne-stuck gpu_card_field gpu_card_field-ne-stuck s addr buffer

  RegisterResponse_decode-ne-stuck :
      (s : RegisterResponse) → RegisterResponse_decode s addr buffer ≢ stuck
  unfolding RegisterResponse_decode
  RegisterResponse_decode-ne-stuck s =
      decode_fields-ne-stuck register_response_field register_response_field-ne-stuck s addr buffer

pool_event_field-ne-stuck : (f : WireField) (e : PoolEvent) → pool_event_field f e ≢ stuck
unfolding pool_event_field
pool_event_field-ne-stuck f e = if-ne-stuck (f.field == 1) (ok-ne-stuck _) (
    if-ne-stuck (f.field == 2)
      (stored-ne-stuck (JobAssignment_decode e.job f.addr f.payload) _
        (JobAssignment_decode-ne-stuck f.addr f.payload e.job))
      (if-ne-stuck (f.field == 3)
        (stored-ne-stuck (ShareResult_decode e.share_result f.addr f.payload) _
          (ShareResult_decode-ne-stuck f.addr f.payload e.share_result))
        (if-ne-stuck (f.field == 4)
          (stored-ne-stuck (DifficultyAdjust_decode e.vardiff f.addr f.payload) _
            (DifficultyAdjust_decode-ne-stuck f.addr f.payload e.vardiff))
          (if-ne-stuck (f.field == 5)
            (stored-ne-stuck (PongEvent_decode e.pong f.addr f.payload) _
              (PongEvent_decode-ne-stuck f.addr f.payload e.pong))
            (if-ne-stuck (f.field == 6)
              (stored-ne-stuck (PoolError_decode e.error f.addr f.payload) _
                (PoolError_decode-ne-stuck f.addr f.payload e.error))
              (if-ne-stuck (f.field == 7)
                (stored-ne-stuck (ReconnectHint_decode e.reconnect f.addr f.payload) _
                  (ReconnectHint_decode-ne-stuck f.addr f.payload e.reconnect))
                (ok-ne-stuck e)))))))

-- On every buffer, whatever its bytes are and however deep its messages are nested, the rounds of
-- `PoolEvent::decode` are enough: it returns or throws, as long as no length leads the pointer around
-- the address space, where its behaviour is undefined and nothing is claimed.
pub PoolEvent_decode-ne-stuck :
    (e : PoolEvent) (addr : ℕ) (buffer : List ℕ) → PoolEvent_decode e addr buffer ≢ stuck
unfolding PoolEvent_decode
PoolEvent_decode-ne-stuck e addr buffer =
    decode_fields-ne-stuck pool_event_field pool_event_field-ne-stuck e addr buffer

register_field-ne-stuck : (f : WireField) (r : RegisterRequest) → register_field f r ≢ stuck
unfolding register_field
register_field-ne-stuck f r =
    if-ne-stuck (f.field == 1)
      (if-ne-stuck (length f.payload == 16) (ok-ne-stuck _) (ok-ne-stuck r))
      (if-ne-stuck (f.field == 2) (ok-ne-stuck _) (
        if-ne-stuck (f.field == 3) (ok-ne-stuck _) (
          if-ne-stuck (f.field == 4) (ok-ne-stuck _) (
            if-ne-stuck (f.field == 5)
              (stored-ne-stuck (GpuCard_decode no_gpu_card f.addr f.payload) _
                (GpuCard_decode-ne-stuck f.addr f.payload no_gpu_card))
              (if-ne-stuck (f.field == 6)
                (if-ne-stuck (length f.payload == 8) (ok-ne-stuck _) (ok-ne-stuck r))
                (if-ne-stuck (f.field == 7) (ok-ne-stuck _) (
                  if-ne-stuck (f.field == 8) (ok-ne-stuck _) (
                    if-ne-stuck (f.field == 9) (ok-ne-stuck _)
                      (if-ne-stuck (f.field == 10) (ok-ne-stuck _) (ok-ne-stuck r))))))))))

-- `RegisterRequest::decode` ends on every buffer too, with the GPU cards inside.
RegisterRequest_decode-ne-stuck :
    (r : RegisterRequest) (addr : ℕ) (buffer : List ℕ)
    → RegisterRequest_decode r addr buffer ≢ stuck
unfolding RegisterRequest_decode
RegisterRequest_decode-ne-stuck r addr buffer =
    decode_fields-ne-stuck register_field register_field-ne-stuck r addr buffer
