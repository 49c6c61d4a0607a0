-- ===== src/Stratum/Login.antt =====
-- What a successful connect of pearl_stratum_client.cpp promises.
use prop_miner.Base.{
  ◌⊎◌, ℕ, ◌≡◌, ◌≤◌, refl, sym, subst, ap, ◌∙◌, inl, inr, not, ◌||◌, Bool-cases, ==_iff, none, some,
  Option-cases, List, [], ◌∷◌, ◌++◌, ◌==◌, All, text,
}
use prop_miner.Json.Value.{JsonValue, field_of, is_null, to_number, to_text}
use prop_miner.Json.Parser.{parsed, parse}
use prop_miner.Stratum.Lines.{line_read}
use prop_miner.Stratum.Session.{Options, PendingSubmit, Session, Effect, erase, find}
use prop_miner.Stratum.Messages.{
  Env, Handled, handled, uncaught, looping, has_id, erase_id, parse_request_id, handle_message,
}
use prop_miner.Stratum.Handshake.{
  HandshakeResult, ok, not_challenge, failed, Socket, Net, Reply, answered, passed, read_from,
  socket_after, verdict, is_false, authorize_parsed, finish_other, finish_parsed,
}
use prop_miner.Stratum.Moves.{
  Moves, kept, challenged, response_answered, share_answered, IsBadLine, Outcome,
  handle_line-Outcome,
}
use prop_miner.Stratum.Valid.{IsValid, Moves-IsValid, All-map, All-erase_id}

-- The sockets that a sequence of reads leads to, and the one that gets its first line back.
pub data Reads (start : Socket) : Socket → Type 0 where
  none_yet : Reads start start
  one_more : {sock : Socket} → Reads start sock → Reads start (socket_after (read_from sock))
  put_back :
      {sock : Socket}
      → Reads start sock
      → Reads start (record (socket_after (read_from sock)) {
        recv_buf = (read_from sock).out ++ (10 ∷ (read_from sock).recv_buf);
      })

module _ {F : Type 0} where
  -- Nothing waits yet, and the ids are in order.
  abbrev pub IsReady : Session F → Type 0
  IsReady s = IsValid s × (s.pending ≡ [])

  -- A client that has not been connected: no challenge response is awaited.
  abbrev pub IsFresh : Session F → Type 0
  IsFresh s = (s.challenge_resp_ids ≡ []) × (s.pending ≡ [])

  pub ready :
      (s : Session F)
      → All (λ id. id ≤ s.request_id) s.challenge_resp_ids
      → s.pending ≡ []
      → IsReady s
  ready s le e =
      let gone =
        All-map _ (λ id. find {V = PendingSubmit} ◌==◌ [] id ≡ none) _ (λ id h. unfold find in refl)
          le in
      (rw e (tt, tt, tt, le, gone), e)

  -- What a handler gives is ready, where it returns; where it throws, there was `B`.
  unfoldable pub IsReadyAfter : Type 0 → Handled F → Type 0
  IsReadyAfter B (handled s es) = IsReady s
  IsReadyAfter B uncaught = B
  IsReadyAfter B looping = ⊥

  Moves-IsReady : (s s' : Session F) (es : List Effect) → Moves s s' es → IsReady s → IsReady s'
  unfolding erase
  Moves-IsReady s s' es moves h = (Moves-IsValid s s' es moves h.0, still moves)
    where
      still : Moves s s' es → s'.pending ≡ []
      still (kept p r c q) = p ∙ h.1
      still (challenged p r c q) = p ∙ h.1
      still (response_answered id p r c q) = p ∙ h.1
      still (share_answered id accepted err p r c e) =
          p ∙ ap (λ m. erase ◌==◌ m id) h.1 ∙ unfold erase in refl

  Outcome-IsReady :
      (T : Type 0) (s : Session F) (h : Handled F) → Outcome T s h → IsReady s → IsReadyAfter T h
  unfolding Outcome IsReadyAfter
  Outcome-IsReady T s (handled s' es) o h = Moves-IsReady s s' es o h
  Outcome-IsReady T s uncaught o h = o
  Outcome-IsReady T s looping o h = o

module _ {F : Type 0} (env : Env F) (net : Net) (opts : Options) where
  -- An answer to the request for authorization that accepts it. It has no method; its id is `id`, as a
  -- number or, in the answer to a challenge, as a text.
  abbrev pub IsAccepting : JsonValue F → Type 0
  IsAccepting message =
      (to_text (field_of message (text "method")) ≡ none)
      × (verdict env net opts message ≡ ok)
      × ((parse_request_id env (field_of message (text "id")) ≡ some 4)
          ⊎ ((v : F) × (to_number (field_of message (text "id")) ≡ some v)
              × (env.numbers.to_int64 v ≡ 2)))

  abbrev pub IsAcceptingLine : List ℕ → Type 0
  IsAcceptingLine line =
      (message : JsonValue F) × (rest : List ℕ) × (parse env.stod line ≡ parsed message rest)
      × IsAccepting message

  -- The last line that was read accepts.
  abbrev pub IsAccepted : Socket → Socket → Type 0
  IsAccepted start sock =
      (mid : Socket) × Reads start mid
      × ((read_from mid).status ≡ line_read)
      × IsAcceptingLine (read_from mid).out
      × (socket_after (read_from mid) ≡ sock)

  verdict-cases :
      (message : JsonValue F)
      → (verdict env net opts message ≡ ok) ⊎ (verdict env net opts message ≡ failed)
  unfolding verdict
  verdict-cases message =
      elim (Bool-cases (
        not (is_null (field_of message (text "error")))
        || is_false (field_of message (text "result")))) [
          | inl e ↦ rw (e, verdict) (inr refl)
          | inr e ↦ rw (e, verdict) (inl refl)
        ]

  -- A reply that accepts comes from a message that does.
  unfoldable pub IsReply : (HandshakeResult → Type 0) → Type 0 → Reply F → Type 0
  IsReply P B (answered result s) = IsReady s × P result
  IsReply P B (passed h) = IsReadyAfter B h

  -- What a result says of a message.
  abbrev pub Tells : Type 0 → HandshakeResult → Type 0
  Tells A ok = A
  Tells A not_challenge = ⊥
  Tells A failed = Unit

  by_verdict :
      (A : Type 0) (message : JsonValue F)
      → (verdict env net opts message ≡ ok → A)
      → Tells A (verdict env net opts message)
  by_verdict A message f = elim (verdict-cases message) [
    | inl e ↦ subst (Tells A) (sym e) (f e)
    | inr e ↦ subst (Tells A) (sym e) tt
  ]

  messaged :
      (B : Type 0) (round : ℕ) (s : Session F) (line : List ℕ)
      → (IsBadLine env line → B)
      → IsReady s
      → IsReadyAfter B (handle_message env (net.clock round) s (net.responds round) line)
  messaged B round s line bad h =
      Outcome-IsReady B s _
        (handle_line-Outcome env (net.clock round) s (net.responds round) line bad) h

  pub authorize_parsed-IsReply :
      (A B : Type 0) (round : ℕ) (s : Session F) (line : List ℕ) (message : JsonValue F)
      → (IsAccepting message → A)
      → (IsBadLine env line → B)
      → IsReady s
      → IsReply (Tells A) B (authorize_parsed env net opts round s line message)
  unfolding authorize_parsed IsReply
  authorize_parsed-IsReply A B round s line message win bad h =
      elim (Option-cases (to_text (field_of message (text "method")))) [
        | inr (method, e) ↦ rw (e, authorize_parsed) (messaged B round s line bad h)
        | inl e ↦ elim (Option-cases (to_number (field_of message (text "id")))) [
          | inl e1 ↦ rw (e, authorize_parsed, e1) (unfold IsReadyAfter in h)
          | inr (v, e1) ↦ elim (Bool-cases (env.numbers.to_int64 v == 2)) [
            | inr e2 ↦ rw (e, authorize_parsed, e1, e2) (unfold IsReadyAfter in h)
            | inl e2 ↦
                let told =
                  by_verdict A message (λ won. win (e, won, inr (v, e1, (==_iff _ 2).0 e2))) in
                rw (e, authorize_parsed, e1, e2) (h, told)
          ]
        ]
      ]

  response-IsReady :
      (s : Session F) (id : ℕ)
      → IsReady s
      → IsReady (record s { challenge_resp_ids = erase_id s.challenge_resp_ids id })
  response-IsReady s id h =
      ready (record s { challenge_resp_ids = erase_id s.challenge_resp_ids id })
        (All-erase_id _ s.challenge_resp_ids id h.0.3) h.1

  pub finish_parsed-IsReply :
      (A B : Type 0) (round : ℕ) (s : Session F) (line : List ℕ) (message : JsonValue F)
      → (IsAccepting message → A)
      → (IsBadLine env line → B)
      → IsReady s
      → IsReply (Tells A) B (finish_parsed env net opts 4 round s line message)
  unfolding finish_parsed finish_other IsReply
  finish_parsed-IsReply A B round s line message win bad h =
      elim (Option-cases (to_text (field_of message (text "method")))) [
        | inr (method, e) ↦ rw (e, finish_parsed) (messaged B round s line bad h)
        | inl e ↦ elim (Option-cases (parse_request_id env (field_of message (text "id")))) [
          | inl e1 ↦ rw (e, finish_parsed, e1) (unfold IsReadyAfter in h)
          | inr (id, e1) ↦ elim (Bool-cases (id == 4)) [
            | inl e2 ↦
                let is_4 : some id ≡ some 4 = ap some ((==_iff id 4).0 e2) in
                let told = by_verdict A message (λ won. win (e, won, inl (e1 ∙ is_4))) in
                rw (e, finish_parsed, e1, e2) (h, told)
            | inr e2 ↦ elim (Bool-cases (has_id s.challenge_resp_ids id)) [
              | inr e3 ↦ rw (e, finish_parsed, e1, e2, finish_other, e3) (unfold IsReadyAfter in h)
              | inl e3 ↦ elim (Bool-cases (is_false (field_of message (text "result")))) [
                | inl e4 ↦
                    rw (e, finish_parsed, e1, e2, finish_other, e3, e4)
                      (response-IsReady s id h, tt)
                | inr e4 ↦
                    rw (e, finish_parsed, e1, e2, finish_other, e3, e4)
                      (unfold IsReadyAfter in response-IsReady s id h)
              ]
            ]
          ]
        ]
      ]
