-- ===== src/Grpc/Client.antt =====
-- src/host/pearl/grpc_client.cpp, PearlGrpcClient and its Impl: the frames that it sends and reads.
-- `inbox` holds the bytes that arrive before a deadline, and `sent` those that the socket has taken;
-- `write_budget` is what it takes before it fails. An error text is a constructor.
use prop_miner.Base.{
  ℕ, zero, suc, ◌+◌, ◌-◌, ◌%◌, ◌^◌, Bool, true, false, not, ◌&&◌, ◌||◌, List, [], ◌∷◌, ◌++◌, Option,
  none, some, ltb, leb, ◌==◌, if◌then◌else◌, length, get_or, take, drop, text, bit_or,
}
use prop_miner.Wire.{Outcome, ok, throws, wild, stuck, WireError}
use prop_miner.Wire.Messages.{
  MinerEvent, MinerEvent_encode, AuthEvent, AuthEvent_encode, Heartbeat, Heartbeat_encode, auth,
  heartbeat,
}
use prop_miner.Wire.Events.{PoolEvent, PoolEvent_decode, no_pool_event}
use prop_miner.Grpc.{read_u24_be, read_u32_be, frame_bytes, grpc_frame, encode_request_headers}

pub data GrpcError : Type 0 where
  no_error read_failed write_failed not_connected message_too_large stream_not_started : GrpcError

-- `port_text` is std::to_string of the port, and `default_port` says that it is 443.
pub record Options : Type 0 where
  pub host : List ℕ
  pub port_text : List ℕ
  pub default_port : Bool
  pub use_tls : Bool
  pub user_agent : List ℕ

pub record GrpcClient : Type 0 where
  pub opts : Options
  pub connected : Bool
  pub next_stream_id : ℕ
  pub stream_id : ℕ
  pub last_error : GrpcError
  pub read_buf : List ℕ
  pub event_queue : List PoolEvent
  pub headers_received : Bool
  pub stream_closed : Bool
  pub inbox : List ℕ
  pub sent : List ℕ
  pub write_budget : ℕ

abbrev pub frame_data : ℕ
frame_data = 0

abbrev pub frame_headers : ℕ
frame_headers = 1

abbrev pub frame_settings : ℕ
frame_settings = 4

abbrev pub frame_ping : ℕ
frame_ping = 6

abbrev pub frame_goaway : ℕ
frame_goaway = 7

abbrev pub flag_end_headers : ℕ
flag_end_headers = 4

-- END_STREAM and ACK are the same bit, the lowest.
unfoldable pub flag_one : ℕ → Bool
flag_one flags = not (flags % 2 == 0)

-- The bytes that have come are gone when there are too few of them.
unfoldable pub read_exact : ℕ → GrpcClient → Option (List ℕ) × GrpcClient
read_exact n c =
    if leb n (length c.inbox)
    then (some (take n c.inbox), record c { inbox = drop n c.inbox })
    else (none, record c { inbox = []; last_error = read_failed })

-- A write that fails may have sent a part.
unfoldable pub write_exact : List ℕ → GrpcClient → Bool × GrpcClient
write_exact bytes c =
    if leb (length bytes) c.write_budget
    then (true, record c { sent = c.sent ++ bytes; write_budget = c.write_budget - length bytes })
    else (
      false,
      record c {
        sent = c.sent ++ take c.write_budget bytes;
        write_budget = 0;
        last_error = write_failed;
      },
    )

-- The nine bytes of the header and the payload are two writes, of which the second may fail.
unfoldable pub send_frame : ℕ → ℕ → ℕ → List ℕ → GrpcClient → Bool × GrpcClient
send_frame type flags stream payload c =
    let (header_sent, c') = write_exact (take 9 (frame_bytes type flags stream payload)) c in
    if header_sent
    then (if length payload == 0 then (true, c') else write_exact payload c')
    else (false, c')

unfoldable pub send_settings_ack : GrpcClient → Bool × GrpcClient
send_settings_ack c = send_frame frame_settings 1 0 [] c

unfoldable pub handle_connection_control_frame : ℕ → ℕ → List ℕ → GrpcClient → Bool × GrpcClient
handle_connection_control_frame type flags payload c =
    if type == frame_settings
    then (if flag_one flags then (true, c) else send_settings_ack c)
    else if type == frame_ping && length payload == 8
    then send_frame frame_ping 1 0 payload c
    else (true, c)

unfoldable pub send_headers : ℕ → List ℕ → Bool → GrpcClient → Bool × GrpcClient
send_headers stream path end_stream c =
    let authority =
      if c.opts.default_port then c.opts.host else c.opts.host ++ (text ":" ++ c.opts.port_text) in
    let headers =
      encode_request_headers (text "POST") (if c.opts.use_tls then text "https" else text "http")
        authority path c.opts.user_agent (text "application/grpc+proto") in
    send_frame frame_headers (bit_or flag_end_headers (if end_stream then 1 else 0)) stream headers
      c

unfoldable pub send_data_message : ℕ → List ℕ → Bool → GrpcClient → Bool × GrpcClient
send_data_message stream message end_stream c =
    if ltb 0xFFFFFF (length message)
    then (false, record c { last_error = message_too_large })
    else send_frame frame_data (if end_stream then 1 else 0) stream (grpc_frame message) c

-- What `parse_grpc_messages` leaves: the rest of `read_buf_`, the queue, and what it throws.
pub record Parsed : Type 0 where
  pub left : List ℕ
  pub queue : List PoolEvent
  pub thrown : Option WireError

-- The loop, over a buffer at `addr`; a message that throws stays at the front of the buffer.
unfoldable pub parse_loop : ℕ → ℕ → List ℕ → List PoolEvent → Outcome Parsed
parse_loop zero addr buf queue = stuck
parse_loop (suc rounds) addr buf queue =
    let msg_len = read_u32_be (drop 1 buf) in
    let rest = drop (5 + msg_len) buf in
    let skipped = parse_loop rounds addr rest queue in
    if ltb (length buf) 5 || ltb (length buf) ((5 + msg_len) % 2 ^ 32)
    then ok (record { left = buf; queue = queue; thrown = none })
    else if ltb (length buf) (5 + msg_len)
    then wild
    else if get_or buf 0 0 == 0
    then elim (PoolEvent_decode no_pool_event (addr + 5) (take msg_len (drop 5 buf))) [
      | ok event ↦ parse_loop rounds addr rest (queue ++ event ∷ [])
      | throws e ↦ ok (record { left = buf; queue = queue; thrown = some e })
      | wild ↦ wild
      | stuck ↦ stuck
    ]
    else skipped

-- Each round takes five bytes at least, so that one round more than there are bytes is enough.
unfoldable pub parse_grpc_messages : ℕ → List ℕ → List PoolEvent → Outcome Parsed
parse_grpc_messages addr buf queue = parse_loop (suc (length buf)) addr buf queue

-- `drain_frames` on the frame that it has read, with the address of `read_buf_`.
unfoldable pub handle_frame :
    ℕ → ℕ → ℕ → ℕ → List ℕ → GrpcClient → Outcome (Option WireError × GrpcClient)
handle_frame addr type flags sid payload c =
    let c_closed = if flag_one flags then record c { stream_closed = true } else c in
    if type == frame_headers && sid == c.stream_id
    then ok (none, record c_closed { headers_received = true })
    else if type == frame_data && sid == c.stream_id
    then elim (parse_grpc_messages addr (c.read_buf ++ payload) c.event_queue) [
      | ok p ↦ ok (p.thrown, record c_closed { read_buf = p.left; event_queue = p.queue })
      | throws e ↦ throws e
      | wild ↦ wild
      | stuck ↦ stuck
    ]
    else if type == frame_settings
    then ok (none, if flag_one flags then c else (send_settings_ack c).1)
    else if type == frame_goaway
    then ok (none, record c { stream_closed = true })
    else if type == frame_ping && length payload == 8
    then ok (none, (send_frame frame_ping 1 0 payload c).1)
    else ok (none, c)

-- A header or a payload that does not come whole ends it.
unfoldable pub drain_frames : ℕ → GrpcClient → Outcome (Option WireError × GrpcClient)
drain_frames addr c =
    let (header, c1) = read_exact 9 c in
    elim header [
      | none ↦ ok (none, c1)
      | some hdr ↦
          let (body, c2) = read_exact (read_u24_be hdr) c1 in
          elim body [
            | none ↦ ok (none, c2)
            | some payload ↦
                handle_frame addr (get_or hdr 3 0) (get_or hdr 4 0)
                  (read_u32_be (drop 5 hdr) % 2 ^ 31) payload c2
          ]
    ]

-- `front` and `pop` of the queue.
unfoldable pub try_receive_event : GrpcClient → Option PoolEvent × GrpcClient
try_receive_event c = elim c.event_queue [
  | [] ↦ (none, c)
  | e ∷ queue ↦ (some e, record c { event_queue = queue })
]

unfoldable pub send_event : MinerEvent → GrpcClient → Bool × GrpcClient
send_event evt c =
    if not c.connected || c.stream_id == 0
    then (false, record c { last_error = stream_not_started })
    else send_data_message c.stream_id (MinerEvent_encode evt) false c

unfoldable pub send_heartbeat : Heartbeat → GrpcClient → Bool × GrpcClient
send_heartbeat hb c =
    send_event (record { seq = 0; event_type = heartbeat; payload = Heartbeat_encode hb }) c

unfoldable pub start_mining_stream : AuthEvent → GrpcClient → Bool × GrpcClient
start_mining_stream a c =
    let sid = c.next_stream_id in
    let c1 = record c {
      next_stream_id = (c.next_stream_id + 2) % 2 ^ 32;
      stream_id = sid;
      headers_received = false;
      stream_closed = false;
    } in
    let (opened, c2) =
      send_headers sid (text "/pearlpool.mining.v2.MinerService/MiningStream") false c1 in
    if not c.connected
    then (false, record c { last_error = not_connected })
    else if opened
    then send_event (record { seq = 1; event_type = auth; payload = AuthEvent_encode a }) c2
    else (false, c2)
