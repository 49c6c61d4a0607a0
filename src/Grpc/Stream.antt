-- ===== src/Grpc/Stream.antt =====
-- The stream of gRPC messages: what `parse_grpc_messages` makes of the bytes that have come.
use prop_miner.Base.{
  ℕ, zero, suc, ◌+◌, ◌%◌, ◌^◌, ◌<◌, ◌≤◌, ◌≡◌, ◌≢◌, refl, Bool, true, false, ◌||◌, List, [], ◌∷◌,
  ◌++◌, arith, none, length, take, drop, get_or, ltb, take-append, length-append, length-drop,
  append_assoc, append-nil, All,
}
use prop_miner.Wire.{ok, stuck}
use prop_miner.Wire.Events.{PoolEvent, PoolEvent_decode, no_pool_event}
use prop_miner.Wire.Pool.{PoolEvent_decode-ne-stuck}
use prop_miner.Grpc.{read_u32_be, grpc_frame}
use prop_miner.Grpc.Words.{grpc_frame_len, drop-grpc_frame, drop-grpc_frame_all, length-grpc_frame}
use prop_miner.Grpc.Client.{parse_loop, parse_grpc_messages}

first-grpc_frame : (message rest : List ℕ) → get_or (grpc_frame message ++ rest) 0 0 ≡ 0
unfolding grpc_frame
first-grpc_frame message rest = refl

-- The message at the front, where it decodes.
parse_loop-grpc_frame :
    (rounds addr : ℕ) (message rest : List ℕ) (queue : List PoolEvent) (event : PoolEvent)
    → 5 + length message < 2 ^ 32
    → PoolEvent_decode no_pool_event (addr + 5) message ≡ ok event
    → parse_loop (suc rounds) addr (grpc_frame message ++ rest) queue
      ≡ parse_loop rounds addr rest (queue ++ event ∷ [])
unfolding parse_loop
parse_loop-grpc_frame rounds addr message rest queue event h e =
    let size = length-grpc_frame message rest in
    let enough : ltb (length (grpc_frame message ++ rest)) 5 ≡ false = ground (arith, size) in
    let whole : (5 + length message) % 2 ^ 32 ≡ 5 + length message = omega arith in
    let all : ltb (length (grpc_frame message ++ rest)) (5 + length message) ≡ false =
      ground (arith, size) in
    let plain : get_or (grpc_frame message ++ rest) 0 0 ≡ 0 = first-grpc_frame message rest in
    rw (
      grpc_frame_len message rest (omega arith),
      whole,
      enough,
      all,
      plain,
      drop-grpc_frame message rest,
      take-append message rest,
      e,
      grpc_frame_len message rest (omega arith),
      drop-grpc_frame_all message rest,
    )

-- The messages of a stream, each with what it decodes to, and the bytes that carry them.
abbrev pub message_bytes : List (List ℕ × PoolEvent) → List ℕ
message_bytes [] = []
message_bytes ((message, event) ∷ ms) = grpc_frame message ++ message_bytes ms

abbrev pub message_events : List (List ℕ × PoolEvent) → List PoolEvent
message_events [] = []
message_events ((message, event) ∷ ms) = event ∷ message_events ms

-- A message that is small enough for its length to be added in 32 bits, and decodes.
abbrev pub IsMessage : ℕ → List ℕ × PoolEvent → Type 0
IsMessage addr (message, event) =
    (5 + length message < 2 ^ 32) × (PoolEvent_decode no_pool_event (addr + 5) message ≡ ok event)

-- The start of a message whose bytes have not all come.
abbrev pub incomplete : List ℕ → Bool
incomplete tail =
    ltb (length tail) 5 || ltb (length tail) ((5 + read_u32_be (drop 1 tail)) % 2 ^ 32)

parse_loop-incomplete :
    (rounds addr : ℕ) (tail : List ℕ) (queue : List PoolEvent)
    → incomplete tail ≡ true
    → parse_loop (suc rounds) addr tail queue
      ≡ ok (record { left = tail; queue = queue; thrown = none })
unfolding parse_loop
parse_loop-incomplete rounds addr tail queue h = rw h

parse_loop-message_bytes :
    (rounds addr : ℕ) (ms : List (List ℕ × PoolEvent)) (tail : List ℕ) (queue : List PoolEvent)
    → length ms < rounds
    → All (IsMessage addr) ms
    → incomplete tail ≡ true
    → parse_loop rounds addr (message_bytes ms ++ tail) queue
      ≡ ok (record { left = tail; queue = queue ++ message_events ms; thrown = none })
parse_loop-message_bytes zero addr ms tail queue h ok_ms ends = absurd (omega arith)
parse_loop-message_bytes (suc rounds) addr [] tail queue h ok_ms ends =
    rw (append-nil queue) (parse_loop-incomplete rounds addr tail queue ends)
parse_loop-message_bytes (suc rounds) addr ((message, event) ∷ ms) tail queue h ok_ms ends =
    rw
      (
        append_assoc (grpc_frame message) (message_bytes ms) tail,
        parse_loop-grpc_frame rounds addr message (message_bytes ms ++ tail) queue event ok_ms.0.0
            ok_ms.0.1,
        ← append_assoc queue (event ∷ []) (message_events ms),
      )
      (parse_loop-message_bytes rounds addr ms tail (queue ++ event ∷ []) (omega arith) ok_ms.1
        ends)

length-message_bytes : (ms : List (List ℕ × PoolEvent)) → length ms ≤ length (message_bytes ms)
length-message_bytes [] = omega arith
length-message_bytes ((message, event) ∷ ms) =
    omega (arith, length-message_bytes ms, length-grpc_frame message (message_bytes ms))

-- Whole messages that decode are queued in their order, and the start of a further message is kept
-- for the bytes to come, where 5 and each length add up below 2 ^ 32.
pub parse_grpc_messages-message_bytes :
    (addr : ℕ) (ms : List (List ℕ × PoolEvent)) (tail : List ℕ) (queue : List PoolEvent)
    → All (IsMessage addr) ms
    → incomplete tail ≡ true
    → parse_grpc_messages addr (message_bytes ms ++ tail) queue
      ≡ ok (record { left = tail; queue = queue ++ message_events ms; thrown = none })
unfolding parse_grpc_messages
parse_grpc_messages-message_bytes addr ms tail queue h ends =
    parse_loop-message_bytes (suc (length (message_bytes ms ++ tail))) addr ms tail queue
      (omega (arith, length-message_bytes ms, length-append (message_bytes ms) tail)) h ends

parse_loop-ne-stuck :
    (rounds addr : ℕ) (buf : List ℕ) (queue : List PoolEvent)
    → length buf < rounds
    → parse_loop rounds addr buf queue ≢ stuck
unfolding parse_loop
parse_loop-ne-stuck zero addr buf queue h e = absurd (omega arith)
parse_loop-ne-stuck (suc rounds) addr buf queue h e =
    let msg_len : ℕ = read_u32_be (drop 1 buf) in
    let shorter = length-drop (5 + msg_len) buf in
    grind (
      arith,
      shorter,
      parse_loop-ne-stuck rounds addr (drop (5 + msg_len) buf),
      PoolEvent_decode-ne-stuck no_pool_event (addr + 5) (take msg_len (drop 5 buf)),
    )

-- `parse_grpc_messages` ends on every buffer.
pub parse_grpc_messages-ne-stuck :
    (addr : ℕ) (buf : List ℕ) (queue : List PoolEvent) → parse_grpc_messages addr buf queue ≢ stuck
unfolding parse_grpc_messages
parse_grpc_messages-ne-stuck addr buf queue =
    parse_loop-ne-stuck (suc (length buf)) addr buf queue (omega arith)
