-- ===== src/Grpc/Answer.antt =====
-- The payload of the pool's answer to a registration.
use prop_miner.Base.{
  ℕ, ◌+◌, ◌%◌, ◌^◌, ◌≤◌, ◌<◌, ◌≡◌, refl, false, List, ◌++◌, arith, length, get_or, ltb, ◌==◌,
  if◌then◌else◌, take-append,
}
use prop_miner.Grpc.{payload, html_in_frame, extract_grpc_payload, looks_like_html, grpc_frame}
use prop_miner.Grpc.Words.{grpc_frame_len, drop-grpc_frame, length-grpc_frame}

-- A whole gRPC message that is not empty, and small enough for its length to be added in 32 bits, is
-- extracted from its frame, whatever stands behind it, unless it looks like HTML.
pub extract_grpc_payload-grpc_frame :
    (message rest : List ℕ)
    → 1 ≤ length message
    → 5 + length message < 2 ^ 32
    → extract_grpc_payload (grpc_frame message ++ rest)
      ≡ (if looks_like_html message then html_in_frame else payload message)
unfolding extract_grpc_payload
extract_grpc_payload-grpc_frame message rest some_bytes h =
    let framed : List ℕ = grpc_frame message ++ rest in
    let size = length-grpc_frame message rest in
    let there : (length framed == 0) ≡ false = ground (arith, size) in
    let plain : get_or framed 0 0 ≡ 0 = unfold grpc_frame in refl in
    let enough : ltb (length framed) 5 ≡ false = ground (arith, size) in
    let full : (length message == 0) ≡ false = ground arith in
    let whole : (5 + length message) % 2 ^ 32 ≡ 5 + length message = omega arith in
    let all : ltb (length framed) (5 + length message) ≡ false = ground (arith, size) in
    rw
      (
        grpc_frame_len message rest (omega arith),
        there,
        plain,
        enough,
        full,
        whole,
        all,
        drop-grpc_frame message rest,
        take-append message rest,
      )
      refl
