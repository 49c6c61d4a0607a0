-- ===== src/Stratum/Handshake.antt =====
-- subscribe, authorize and pearl_v1_finish_handshake of pearl_stratum_client.cpp. The texts of
-- last_error_ are not modelled.
use prop_miner.Base.{
  ℕ, zero, suc, Bool, true, false, not, ◌||◌, none, some, List, [], ◌∷◌, ◌++◌, ◌==◌, if◌then◌else◌,
  text,
}
use prop_miner.Json.Value.{JsonValue, field_of, is_null, to_bool, to_number, to_text, same_text}
use prop_miner.Json.Parser.{parsed, throws, stuck, parse}
use prop_miner.Stratum.{json_escape}
use prop_miner.Stratum.Lines.{Received, line_read, timeout, closed, ReadResult, read_line_status}
use prop_miner.Stratum.Session.{Options, Session, Effect, send_line}
use prop_miner.Stratum.Messages.{
  Env, Handled, handled, uncaught, looping, has_id, erase_id, parse_request_id, handle_message,
}

pub data HandshakeResult : Type 0 where
  ok not_challenge failed : HandshakeResult

-- `recv_buf_`, and what poll and recv will give.
pub record Socket : Type 0 where
  pub recv_buf : List ℕ
  pub coming : List Received

-- What the outside gives a handshake: whether the connection opens, the wait for the first line in
-- milliseconds, whether the socket takes the line with an id, and, for each round of a loop, whether
-- it takes a challenge response, the time, and `stop_solving_`.
pub record Net : Type 0 where
  pub opened : Bool
  pub challenge_wait_ms : ℕ
  pub takes : ℕ → Bool
  pub responds : ℕ → Bool
  pub clock : ℕ → ℕ
  pub stopped : ℕ → Bool

-- How a handshake ends: with a result, by an exception, or with the parser out of fuel.
pub data Login (F : Type 0) : Type 0 where
  ended : HandshakeResult → Session F → List Effect → Socket → Login F
  aborted : Login F
  endless : Login F

-- What one line does in a handshake: it answers, or the session goes on behind it.
pub data Reply (F : Type 0) : Type 0 where
  answered : HandshakeResult → Session F → Reply F
  passed : Handled F → Reply F

unfoldable pub read_from : Socket → ReadResult
read_from sock = read_line_status sock.recv_buf sock.coming

unfoldable pub socket_after : ReadResult → Socket
socket_after r = record { recv_buf = r.recv_buf; coming = r.coming }

unfoldable pub after : {F : Type 0} → List Effect → Login F → Login F
after es (ended result s es' sock) = ended result s (es ++ es') sock
after es aborted = aborted
after es endless = endless

abbrev pub user_of : Options → List ℕ
user_of opts = opts.wallet ++ (b'.' ∷ opts.worker)

unfoldable pub subscribe_line : ℕ → Options → List ℕ
subscribe_line digit opts =
    text "{\"id\":"
    ++ (digit
        ∷ (text ",\"method\":\"mining.subscribe\",\"params\":[\""
            ++ (json_escape opts.user_agent ++ text "\"]}")))

unfoldable pub authorize_line : ℕ → Options → List ℕ
authorize_line digit opts =
    text "{\"id\":"
    ++ (digit
        ∷ (text ",\"method\":\"mining.authorize\",\"params\":[\""
            ++ (json_escape (user_of opts)
                ++ (text "\",\"" ++ (json_escape opts.password ++ text "\"]}")))))

abbrev pub configure_line : List ℕ
configure_line = text "{\"id\":2,\"method\":\"mining.configure\",\"params\":[[\"pearl/v1\"],{}]}"

-- `is_bool() && !to_bool()`.
unfoldable pub is_false : {F : Type 0} → JsonValue F → Bool
is_false j = elim (to_bool j) [ some b ↦ not b | none ↦ false ]

module _ {F : Type 0} (env : Env F) (net : Net) (opts : Options) where
  -- An answer is a refusal if it has an error or the result false.
  unfoldable pub verdict : JsonValue F → HandshakeResult
  verdict message =
      if not (is_null (field_of message (text "error")))
        || is_false (field_of message (text "result"))
      then failed
      else ok

  unfoldable pub subscribe : Session F → Socket → Login F
  subscribe s sock =
      let s' = record s { request_id = 1 } in
      let r = read_from sock in
      let sock' = socket_after r in
      let es = send_line (subscribe_line b'1' opts) ∷ [] in
      elim (net.takes 1) [
        | false ↦ ended failed s' es sock
        | true ↦ elim r.status [
          | timeout ↦ ended failed s' es sock'
          | closed ↦ ended failed s' es sock'
          | line_read ↦ elim (parse env.stod r.out) [
            | throws ↦ aborted
            | stuck ↦ endless
            | parsed message rest ↦
                if is_null (field_of message (text "error"))
                then ended ok s' es sock'
                else ended failed s' es sock'
          ]
        ]
      ]

  -- The line of one attempt of authorize: a message with a method, the answer to id 2, or neither.
  unfoldable pub authorize_parsed : ℕ → Session F → List ℕ → JsonValue F → Reply F
  authorize_parsed round s line message = elim (to_text (field_of message (text "method"))) [
    | some method ↦ passed (handle_message env (net.clock round) s (net.responds round) line)
    | none ↦ elim (to_number (field_of message (text "id"))) [
      | none ↦ passed (handled s [])
      | some v ↦ elim (env.numbers.to_int64 v == 2) [
        | true ↦ answered (verdict message) s
        | false ↦ passed (handled s [])
      ]
    ]
  ]

  -- The line of one round of pearl_v1_finish_handshake. The answer to the challenge response ends the
  -- handshake where it is false.
  unfoldable pub finish_other : Session F → JsonValue F → ℕ → Reply F
  finish_other s message id =
      let s' = record s { challenge_resp_ids = erase_id s.challenge_resp_ids id } in
      elim (has_id s.challenge_resp_ids id) [
        | false ↦ passed (handled s [])
        | true ↦ elim (is_false (field_of message (text "result"))) [
          | true ↦ answered failed s'
          | false ↦ passed (handled s' [])
        ]
      ]

  unfoldable pub finish_parsed : ℕ → ℕ → Session F → List ℕ → JsonValue F → Reply F
  finish_parsed authorize_id round s line message =
      elim (to_text (field_of message (text "method"))) [
        | some method ↦ passed (handle_message env (net.clock round) s (net.responds round) line)
        | none ↦ elim (parse_request_id env (field_of message (text "id"))) [
          | none ↦ passed (handled s [])
          | some id ↦ elim (id == authorize_id) [
            | true ↦ answered (verdict message) s
            | false ↦ finish_other s message id
          ]
        ]
      ]

  unfoldable pub reply_to :
      (Session F → List ℕ → JsonValue F → Reply F) → Session F → List ℕ → Reply F
  reply_to take s line = elim (parse env.stod line) [
    | parsed message rest ↦ take s line message
    | throws ↦ passed uncaught
    | stuck ↦ passed looping
  ]

  -- The loop of authorize. A line that does not come in time ends it.
  unfoldable pub authorize_loop : ℕ → ℕ → Session F → Socket → Login F
  authorize_loop zero round s sock = ended failed s [] sock
  authorize_loop (suc n) round s sock =
      let r = read_from sock in
      let sock' = socket_after r in
      elim r.status [
        | timeout ↦ ended failed s [] sock'
        | closed ↦ ended failed s [] sock'
        | line_read ↦ elim (reply_to (authorize_parsed round) s r.out) [
          | answered result s' ↦ ended result s' [] sock'
          | passed h ↦ elim h [
            | handled s' es ↦ after es (authorize_loop n (suc round) s' sock')
            | uncaught ↦ aborted
            | looping ↦ endless
          ]
        ]
      ]

  unfoldable pub authorize : Session F → Socket → Login F
  authorize s sock =
      let s' = record s { request_id = 2 } in
      let login = authorize_loop 30 0 s' sock in
      after (send_line (authorize_line b'2' opts) ∷ [])
        (if net.takes 2 then login else ended failed s' [] sock)

  -- The loop of pearl_v1_finish_handshake; it skips an empty line.
  unfoldable pub finish_loop : ℕ → ℕ → ℕ → Session F → Socket → Login F
  finish_loop authorize_id zero round s sock = ended failed s [] sock
  finish_loop authorize_id (suc n) round s sock =
      let r = read_from sock in
      let sock' = socket_after r in
      elim (net.stopped round) [
        | true ↦ ended failed s [] sock
        | false ↦ elim r.status [
          | timeout ↦ ended failed s [] sock'
          | closed ↦ ended failed s [] sock'
          | line_read ↦ elim (same_text r.out []) [
            | true ↦ finish_loop authorize_id n (suc round) s sock'
            | false ↦ elim (reply_to (finish_parsed authorize_id round) s r.out) [
              | answered result s' ↦ ended result s' [] sock'
              | passed h ↦ elim h [
                | handled s' es ↦ after es (finish_loop authorize_id n (suc round) s' sock')
                | uncaught ↦ aborted
                | looping ↦ endless
              ]
            ]
          ]
        ]
      ]
