-- ===== src/Grpc/Runs.antt =====
-- The theorems of Grpc at concrete inputs.
use prop_miner.Base.{
  ℕ, ◌%◌, ◌^◌, ◌≡◌, refl, true, false, List, [], ◌∷◌, ◌++◌, arith, none, text, All,
}
use prop_miner.Wire.{ok, decode_fields, each_field, next, decode_varint, varint_loop, read_value}
use prop_miner.Wire.Events.{PoolEvent, no_pool_event, PoolEvent_decode, pool_event_field}
use prop_miner.Grpc.{frame_bytes}
use prop_miner.Grpc.Stream.{
  message_bytes, message_events, IsMessage, parse_grpc_messages-message_bytes,
}
use prop_miner.Grpc.Headers.{drain_frames-frame_bytes}
use prop_miner.Grpc.Client.{GrpcClient, no_error, parse_grpc_messages, drain_frames, handle_frame}

-- An event with sequence number 5.
abbrev fifth : PoolEvent
fifth = record no_pool_event { seq = 5 }

abbrev two_messages : List (List ℕ × PoolEvent)
two_messages = (8 ∷ 5 ∷ [], fifth) ∷ ([], no_pool_event) ∷ []

two_messages-IsMessage : All (IsMessage 4096) two_messages
unfolding PoolEvent_decode decode_fields each_field next decode_varint varint_loop read_value
    pool_event_field
two_messages-IsMessage = ((omega arith, refl), ((omega arith, refl), tt))

parse_grpc_messages_example :
    parse_grpc_messages 4096 (message_bytes two_messages ++ (0 ∷ 0 ∷ [])) []
    ≡ ok (record { left = 0 ∷ 0 ∷ []; queue = [] ++ message_events two_messages; thrown = none })
parse_grpc_messages_example =
    parse_grpc_messages-message_bytes 4096 two_messages (0 ∷ 0 ∷ []) [] two_messages-IsMessage refl

-- A client that a ping frame waits for.
abbrev a_client : GrpcClient
a_client = record {
  opts = record {
    host = text "pool";
    port_text = text "443";
    default_port = true;
    use_tls = true;
    user_agent = [];
  };
  connected = true;
  next_stream_id = 3;
  stream_id = 1;
  last_error = no_error;
  read_buf = [];
  event_queue = [];
  headers_received = false;
  stream_closed = false;
  inbox = frame_bytes 6 0 0 (text "12345678") ++ (9 ∷ []);
  sent = [];
  write_budget = 100;
}

drain_frames_example :
    drain_frames 4096 a_client
    ≡ handle_frame 4096 6 0 (0 % 2 ^ 31) (text "12345678") (record a_client { inbox = 9 ∷ [] })
drain_frames_example =
    drain_frames-frame_bytes 4096 6 0 0 (text "12345678") (9 ∷ []) a_client (omega arith)
      (omega arith) refl
