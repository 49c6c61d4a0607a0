-- ===== src/Stratum/Connect.antt =====
-- How the handshakes of pearl_stratum_client.cpp end.
use prop_miner.Base.{
  ◌⊎◌, ℕ, zero, suc, ◌≡◌, ◌≤◌, refl, sym, subst, inl, inr, Bool, true, false, Bool-cases, List, [],
  ◌∷◌, ◌==◌, arith, if◌then◌else◌, text, All,
}
use prop_miner.Json.Value.{JsonValue, field_of, same_text}
use prop_miner.Json.Parser.{parse, throws}
use prop_miner.Json.Ends.{parse-cases}
use prop_miner.Stratum.Lines.{ReadStatus, line_read, timeout, closed}
use prop_miner.Stratum.Session.{Options, Session, Effect}
use prop_miner.Stratum.Messages.{
  Env, handled, uncaught, looping, erase_id, solve_and_respond_challenge,
}
use prop_miner.Stratum.Handshake.{
  ok, not_challenge, failed, Socket, Net, Login, ended, aborted, endless, Reply, answered, passed,
  read_from, socket_after, after, authorize_parsed, finish_parsed, reply_to, authorize_loop,
  authorize, finish_loop,
}
use prop_miner.Stratum.Opening.{
  log_in, answer_challenge, is_challenge, try_challenge_handshake, authorize_after,
}
use prop_miner.Stratum.Moves.{IsBadLine, solve_and_respond_challenge_lem}
use prop_miner.Stratum.Login.{
  Reads, one_more, put_back, IsReady, IsFresh, ready, IsReadyAfter, IsAccepting, IsAcceptingLine,
  IsAccepted, IsReply, Tells, authorize_parsed-IsReply, finish_parsed-IsReply,
}

ReadStatus-cases : (r : ReadStatus) → (r ≡ line_read) ⊎ ((r ≡ timeout) ⊎ (r ≡ closed))
ReadStatus-cases line_read = inl refl
ReadStatus-cases timeout = inr (inl refl)
ReadStatus-cases closed = inr (inr refl)

module _ {F : Type 0} (env : Env F) (net : Net) (opts : Options) (start : Socket) where
  -- A line that was read throws.
  abbrev pub IsBroken : Type 0
  IsBroken =
      (mid : Socket) × Reads start mid
      × ((read_from mid).status ≡ line_read)
      × IsBadLine env (read_from mid).out

  -- What the end of a handshake promises.
  unfoldable pub IsEnd : Login F → Type 0
  IsEnd (ended ok s es sock) = IsReady s × IsAccepted env net opts start sock
  IsEnd (ended not_challenge s es sock) = IsFresh s × Reads start sock
  IsEnd (ended failed s es sock) = Unit
  IsEnd aborted = IsBroken
  IsEnd endless = ⊥

  after-IsEnd : (es : List Effect) (login : Login F) → IsEnd login → IsEnd (after es login)
  unfolding after IsEnd
  after-IsEnd es (ended ok s es' sock) h = h
  after-IsEnd es (ended not_challenge s es' sock) h = h
  after-IsEnd es (ended failed s es' sock) h = h
  after-IsEnd es aborted h = h
  after-IsEnd es endless h = h

  if-IsEnd : (b : Bool) (x y : Login F) → IsEnd x → IsEnd y → IsEnd (if b then x else y)
  if-IsEnd true x y h k = h
  if-IsEnd false x y h k = k

  reply_to-IsReply :
      (A B : Type 0) (take : Session F → List ℕ → JsonValue F → Reply F) (s : Session F)
      (line : List ℕ)
      → ((message : JsonValue F)
          → (IsAccepting env net opts message → A)
          → IsReply env net opts (Tells env net opts A) B (take s line message))
      → (IsAcceptingLine env net opts line → A)
      → (parse env.stod line ≡ throws → B)
      → IsReply env net opts (Tells env net opts A) B (reply_to env net opts take s line)
  unfolding reply_to IsReply IsReadyAfter
  reply_to-IsReply A B take s line h win bad = elim (parse-cases env.stod line) [
    | inl (message, rest, e) ↦
        rw (e, reply_to) (h message (λ accepting. win (message, rest, e, accepting)))
    | inr e ↦ rw (e, reply_to) (bad e)
  ]

  -- The end of a round.
  round-IsEnd :
      (sock : Socket) (rest : Session F → Login F) (reply : Reply F)
      → Reads start sock
      → (read_from sock).status ≡ line_read
      → ((s : Session F) → IsReady s → IsEnd (rest s))
      → IsReply env net opts
          (Tells env net opts (IsAcceptingLine env net opts (read_from sock).out))
          (IsBadLine env (read_from sock).out)
          reply
      → IsEnd (elim reply [
        | answered result s ↦ ended result s [] (socket_after (read_from sock))
        | passed h ↦ elim h [
          | handled s es ↦ after es (rest s)
          | uncaught ↦ aborted
          | looping ↦ endless
        ]
      ])
  unfolding IsEnd IsReply IsReadyAfter
  round-IsEnd sock rest (answered ok s) r e k h = (h.0, (sock, r, e, h.1, refl))
  round-IsEnd sock rest (answered not_challenge s) r e k h = absurd h.1
  round-IsEnd sock rest (answered failed s) r e k h = tt
  round-IsEnd sock rest (passed (handled s es)) r e k h = after-IsEnd es (rest s) (k s h)
  round-IsEnd sock rest (passed uncaught) r e k h = (sock, r, e, h)
  round-IsEnd sock rest (passed looping) r e k h = absurd h

  authorize_loop-IsEnd :
      (n round : ℕ) (s : Session F) (sock : Socket)
      → Reads start sock
      → IsReady s
      → IsEnd (authorize_loop env net opts n round s sock)
  unfolding authorize_loop IsEnd
  authorize_loop-IsEnd zero round s sock r h = tt
  authorize_loop-IsEnd (suc n) round s sock r h = elim (ReadStatus-cases (read_from sock).status) [
    | inr (inl e) ↦ rw (e, authorize_loop) tt
    | inr (inr e) ↦ rw (e, authorize_loop) tt
    | inl e ↦
        let replied =
          reply_to-IsReply (IsAcceptingLine env net opts (read_from sock).out)
            (IsBadLine env (read_from sock).out) (authorize_parsed env net opts round) s
            (read_from sock).out
            (λ message win.
              authorize_parsed-IsReply env net opts _ _ round s _ message win (λ b. b) h)
            (λ it. it) inl in
        let rest : Session F → Login F = λ s'. authorize_loop env net opts n (suc round) s' _ in
        rw (e, authorize_loop)
          (round-IsEnd sock rest _ r e
            (λ s' h'. authorize_loop-IsEnd n (suc round) s' _ (one_more r) h') replied)
  ]

  finish_loop-IsEnd :
      (n round : ℕ) (s : Session F) (sock : Socket)
      → Reads start sock
      → IsReady s
      → IsEnd (finish_loop env net opts 4 n round s sock)
  unfolding finish_loop IsEnd
  finish_loop-IsEnd zero round s sock r h = tt
  finish_loop-IsEnd (suc n) round s sock r h = elim (Bool-cases (net.stopped round)) [
    | inl stop ↦ rw (stop, finish_loop) tt
    | inr go ↦ elim (ReadStatus-cases (read_from sock).status) [
      | inr (inl e) ↦ rw (go, finish_loop, e) tt
      | inr (inr e) ↦ rw (go, finish_loop, e) tt
      | inl e ↦
          let ih = λ (s' : Session F) (h' : IsReady s').
            finish_loop-IsEnd n (suc round) s' _ (one_more r) h' in
          elim (Bool-cases (same_text (read_from sock).out [])) [
            | inl blank ↦ rw (go, finish_loop, e, blank) (ih s h)
            | inr full ↦
                let replied =
                  reply_to-IsReply (IsAcceptingLine env net opts (read_from sock).out)
                    (IsBadLine env (read_from sock).out) (finish_parsed env net opts 4 round) s
                    (read_from sock).out
                    (λ message win.
                      finish_parsed-IsReply env net opts _ _ round s _ message win (λ b. b) h)
                    (λ it. it) inl in
                let rest : Session F → Login F =
                  λ s'. finish_loop env net opts 4 n (suc round) s' _ in
                rw (go, finish_loop, e, full) (round-IsEnd sock rest _ r e ih replied)
          ]
    ]
  ]

  authorize-IsEnd :
      (s : Session F) (sock : Socket)
      → Reads start sock
      → IsFresh s
      → IsEnd (authorize env net opts s sock)
  unfolding authorize IsEnd
  authorize-IsEnd s sock r h =
      let s' = record s { request_id = 2 } in
      let fine : All (λ id. id ≤ 2) s.challenge_resp_ids = subst (All _) (sym h.0) tt in
      after-IsEnd _ _
        (if-IsEnd (net.takes 2) _ _ (authorize_loop-IsEnd 30 0 s' sock r (ready s' fine h.1)) tt)

  log_in-IsEnd :
      (s : Session F) (sock : Socket)
      → Reads start sock
      → IsReady s
      → IsEnd (log_in env net opts s sock)
  unfolding log_in IsEnd
  log_in-IsEnd s sock r h = elim (Bool-cases (net.takes 2)) [
    | inr e ↦ rw (e, log_in) tt
    | inl e ↦ elim (Bool-cases (net.takes 3)) [
      | inr e1 ↦ rw (e, log_in, e1) tt
      | inl e1 ↦
          rw (e, log_in, e1)
            (after-IsEnd _ _ (if-IsEnd (net.takes 4) _ _ (finish_loop-IsEnd 200 0 s sock r h) tt))
    ]
  ]

  -- The request for authorization comes with the id 4; the challenge response has the id 1.
  solved-IsReady :
      (s t : Session F)
      → IsFresh s
      → (t ≡ s) ⊎ (t ≡ record s { challenge_resp_ids = 1 ∷ erase_id s.challenge_resp_ids 1 })
      → IsReady (record t { request_id = 4 })
  unfolding erase_id
  solved-IsReady s t h (inl e) =
      let fine : All (λ id. id ≤ 4) s.challenge_resp_ids = subst (All _) (sym h.0) tt in
      subst (λ (u : Session F). IsReady (record u { request_id = 4 })) (sym e)
        (ready (record s { request_id = 4 }) fine h.1)
  solved-IsReady s t h (inr e) =
      let fine : All (λ id. id ≤ 4) (erase_id s.challenge_resp_ids 1) =
        subst (λ (ids : List ℕ). All (λ id. id ≤ 4) (erase_id ids 1)) (sym h.0) tt in
      subst (λ (u : Session F). IsReady (record u { request_id = 4 })) (sym e)
        (ready
          (record s { challenge_resp_ids = 1 ∷ erase_id s.challenge_resp_ids 1; request_id = 4 })
          (omega arith, fine) h.1)

  answer_challenge-IsEnd :
      (s : Session F) (sock : Socket) (message : JsonValue F)
      → Reads start sock
      → IsFresh s
      → IsEnd (answer_challenge env net opts s sock message)
  unfolding answer_challenge IsEnd
  answer_challenge-IsEnd s sock message r h =
      let s' = record s { pearl_v1 = true; use_object_submit = false; request_id = 1 } in
      let params = field_of message (text "params") in
      let end = (solve_and_respond_challenge_lem env s' (net.takes 1) params 1).0 in
      elim (Bool-cases (solve_and_respond_challenge env s' (net.takes 1) params 1).0) [
        | inr e ↦ rw (e, answer_challenge) tt
        | inl e ↦
            rw (e, answer_challenge)
              (after-IsEnd _ _ (log_in-IsEnd _ sock r (solved-IsReady s' _ h end)))
      ]

  pub try_challenge_handshake-IsEnd :
      (s : Session F) (sock : Socket)
      → Reads start sock
      → IsFresh s
      → IsEnd (try_challenge_handshake env net opts s sock)
  unfolding try_challenge_handshake IsEnd
  try_challenge_handshake-IsEnd s sock r h = elim (Bool-cases (net.challenge_wait_ms == 0)) [
    | inl no_wait ↦ rw (no_wait, try_challenge_handshake) (h, r)
    | inr some_wait ↦ elim (ReadStatus-cases (read_from sock).status) [
      | inr (inl e) ↦ rw (some_wait, try_challenge_handshake, e) (h, one_more r)
      | inr (inr e) ↦ rw (some_wait, try_challenge_handshake, e) tt
      | inl e ↦ elim (Bool-cases (same_text (read_from sock).out [])) [
        | inl e1 ↦ rw (some_wait, try_challenge_handshake, e, e1) (h, one_more r)
        | inr e1 ↦ elim (parse-cases env.stod (read_from sock).out) [
          | inr e2 ↦ rw (some_wait, try_challenge_handshake, e, e1, e2) (sock, r, e, inl e2)
          | inl (message, rest, e2) ↦ elim (Bool-cases (is_challenge env net opts message)) [
            | inl e3 ↦
                rw (some_wait, try_challenge_handshake, e, e1, e2, e3)
                  (answer_challenge-IsEnd s _ message (one_more r) h)
            | inr e3 ↦ rw (some_wait, try_challenge_handshake, e, e1, e2, e3) (h, put_back r)
          ]
        ]
      ]
    ]
  ]

  pub authorize_after-IsEnd :
      (login : Login F) → IsEnd login → IsEnd (authorize_after env net opts login)
  unfolding authorize_after IsEnd
  authorize_after-IsEnd (ended not_challenge s es sock) h =
      after-IsEnd es _ (authorize-IsEnd s sock h.1 h.0)
  authorize_after-IsEnd (ended ok s es sock) h = h
  authorize_after-IsEnd (ended failed s es sock) h = h
  authorize_after-IsEnd aborted h = h
  authorize_after-IsEnd endless h = h
