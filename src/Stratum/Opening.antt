-- ===== src/Stratum/Opening.antt =====
-- try_challenge_handshake and connect of pearl_stratum_client.cpp: what goes on before the receive
-- loop. The address and the options of the socket are not modelled.
use prop_miner.Base.{Bool, true, false, none, some, [], ◌∷◌, ◌++◌, ◌==◌, if◌then◌else◌, text}
use prop_miner.Json.Value.{JsonValue, field_of, to_text, same_text}
use prop_miner.Json.Parser.{parsed, throws, stuck, parse}
use prop_miner.Stratum.Lines.{line_read, timeout, closed}
use prop_miner.Stratum.Session.{Options, Session, send_line, disconnect}
use prop_miner.Stratum.Messages.{Env, solve_and_respond_challenge}
use prop_miner.Stratum.Handshake.{
  ok, not_challenge, failed, Socket, Net, Login, ended, aborted, endless, read_from, socket_after,
  after, configure_line, subscribe_line, authorize_line, authorize, finish_loop,
}

module _ {F : Type 0} (env : Env F) (net : Net) (opts : Options) where
  -- configure, subscribe and authorize, each as soon as the one before it is taken.
  unfoldable pub log_in : Session F → Socket → Login F
  log_in s sock =
      let configure = send_line configure_line in
      let subscribing = send_line (subscribe_line b'3' opts) in
      let authorizing = send_line (authorize_line b'4' opts) in
      elim (net.takes 2) [
        | false ↦ ended failed s (configure ∷ []) sock
        | true ↦ elim (net.takes 3) [
          | false ↦ ended failed s (configure ∷ subscribing ∷ []) sock
          | true ↦
              let login = finish_loop env net opts 4 200 0 s sock in
              after (configure ∷ subscribing ∷ authorizing ∷ [])
                (if net.takes 4 then login else ended failed s [] sock)
        ]
      ]

  -- The answer to a challenge, and then the three requests with the ids 2 to 4.
  unfoldable pub answer_challenge : Session F → Socket → JsonValue F → Login F
  answer_challenge s sock message =
      let s' = record s { pearl_v1 = true; use_object_submit = false; request_id = 1 } in
      let (solved, s'', es) =
        solve_and_respond_challenge env s' (net.takes 1) (field_of message (text "params")) 1 in
      elim solved [
        | false ↦ ended failed s'' es sock
        | true ↦ after es (log_in (record s'' { request_id = 4 }) sock)
      ]

  unfoldable pub is_challenge : JsonValue F → Bool
  is_challenge message = elim (to_text (field_of message (text "method"))) [
    | some method ↦ same_text method (text "pearl.challenge")
    | none ↦ false
  ]

  -- A first line that is no challenge goes back in front of the buffer.
  unfoldable pub try_challenge_handshake : Session F → Socket → Login F
  try_challenge_handshake s sock =
      let r = read_from sock in
      let sock' = socket_after r in
      elim (net.challenge_wait_ms == 0) [
        | true ↦ ended not_challenge s [] sock
        | false ↦ elim r.status [
          | closed ↦ ended failed s [] sock'
          | timeout ↦ ended not_challenge s [] sock'
          | line_read ↦ elim (same_text r.out []) [
            | true ↦ ended not_challenge s [] sock'
            | false ↦ elim (parse env.stod r.out) [
              | throws ↦ aborted
              | stuck ↦ endless
              | parsed message rest ↦ elim (is_challenge message) [
                | true ↦ answer_challenge s sock' message
                | false ↦
                    ended not_challenge s []
                      (record sock' { recv_buf = r.out ++ (10 ∷ r.recv_buf) })
              ]
            ]
          ]
        ]
      ]

  -- The end of connect: a failure disconnects.
  unfoldable pub settle_login : Login F → Login F
  settle_login (ended ok s es sock) = ended ok (record s { connected = true }) es sock
  settle_login (ended not_challenge s es sock) =
      let (s', es') = disconnect s in ended failed s' (es ++ es') sock
  settle_login (ended failed s es sock) =
      let (s', es') = disconnect s in ended failed s' (es ++ es') sock
  settle_login aborted = aborted
  settle_login endless = endless

  -- A pool that does not begin with a challenge is asked for authorization.
  unfoldable pub authorize_after : Login F → Login F
  authorize_after (ended not_challenge s es sock) = after es (authorize env net opts s sock)
  authorize_after (ended ok s es sock) = ended ok s es sock
  authorize_after (ended failed s es sock) = ended failed s es sock
  authorize_after aborted = aborted
  authorize_after endless = endless

  -- `connect`, the thread of the receive loop apart. The buffer is that of the connection before.
  unfoldable pub connect : Session F → Socket → Login F
  connect s sock =
      let (s', es) = disconnect s in
      let login = settle_login (authorize_after (try_challenge_handshake s' sock)) in
      after es (if net.opened then login else ended failed s' [] sock)
