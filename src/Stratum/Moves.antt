-- ===== src/Stratum/Moves.antt =====
-- What a message of the pool does to the submissions that wait in pearl_stratum_client.cpp.
use prop_miner.Base.{
  ◌⊎◌, ℕ, suc, ◌≡◌, refl, ap, inl, inr, Bool, true, false, not, ◌||◌, ltb, Bool-cases, none, some,
  Option-cases, List, [], ◌∷◌, ◌==◌, if◌then◌else◌, text,
}
use prop_miner.Json.Value.{
  JsonValue, field_of, item_of, json_size, is_null, is_array, to_text, same_text, serialize,
}
use prop_miner.Json.Parser.{parse, parsed, throws}
use prop_miner.Json.Ends.{parse-cases}
use prop_miner.Challenge.{hex_to_seed, verify}
use prop_miner.Stratum.Session.{Session, find, erase, Effect, share_callback, pool_response}
use prop_miner.Stratum.Jobs.{make_job}
use prop_miner.Stratum.Messages.{
  Handled, handled, uncaught, looping, Env, has_id, erase_id, int_above, is_none, give_job,
  notify_job, parse_notify_object, parse_notify_array, handle_set_difficulty,
  handle_challenge_async, solve_and_respond_challenge, guarded_solve, challenge_difficulty,
  handle_method, handle_share_ack, handle_answer, tell_answer, tell_reject, share_result_accepted,
  handle_parsed, handle_message, parse_request_id, read_difficulty_param,
}
use prop_miner.Stratum.Rejects.{
  PoolRejectInfo, parse_pool_reject, reject-cases, reject_text, raw_of,
}
use prop_miner.Stratum.Pending.{submits, settles, callbacks, responses, total}

-- The effects tell of no submission and of no answer.
abbrev pub IsQuiet : List Effect → Type 0
IsQuiet es =
    (id : ℕ)
    → (total (submits id) es ≡ 0)
      × (total (settles id) es ≡ 0)
      × (total callbacks es ≡ 0)
      × (total responses es ≡ 0)

pub IsQuiet-list : IsQuiet []
unfolding total
IsQuiet-list id = (refl, refl, refl, refl)

module _ {F : Type 0} where
  -- What a message of the pool does to the waiting submissions: nothing, nothing but a request id for
  -- the response to a challenge, the answer to one, or the answer to a share, which no longer waits.
  pub data Moves (s : Session F) (s' : Session F) (es : List Effect) : Type 0 where
    kept :
        s'.pending ≡ s.pending
        → s'.request_id ≡ s.request_id
        → s'.challenge_resp_ids ≡ s.challenge_resp_ids
        → IsQuiet es
        → Moves s s' es
    challenged :
        s'.pending ≡ s.pending
        → s'.request_id ≡ suc s.request_id
        → (s'.challenge_resp_ids ≡ s.challenge_resp_ids)
          ⊎ (s'.challenge_resp_ids
              ≡ suc s.request_id ∷ erase_id s.challenge_resp_ids (suc s.request_id))
        → IsQuiet es
        → Moves s s' es
    response_answered :
        (id : ℕ)
        → s'.pending ≡ s.pending
        → s'.request_id ≡ s.request_id
        → s'.challenge_resp_ids ≡ erase_id s.challenge_resp_ids id
        → IsQuiet es
        → Moves s s' es
    share_answered :
        (id : ℕ) (accepted : Bool) (err : List ℕ)
        → s'.pending ≡ erase ◌==◌ s.pending id
        → s'.request_id ≡ s.request_id
        → s'.challenge_resp_ids ≡ s.challenge_resp_ids
        → es
          ≡ share_callback accepted err
            ∷ pool_response accepted
                (elim (find ◌==◌ s.pending id) [ some p ↦ p.nonce | none ↦ 0 ])
                id
            ∷ []
        → Moves s s' es

  -- A handler that returns moves the session so; one that throws had `T`.
  unfoldable pub Outcome : Type 0 → Session F → Handled F → Type 0
  Outcome T s (handled s' es) = Moves s s' es
  Outcome T s uncaught = T
  Outcome T s looping = ⊥

  -- The parameters of a notification that throw: in the positional form an id or a header that is no
  -- text, and in the other a text that does not parse again.
  abbrev pub IsBadNotify : Env F → JsonValue F → Type 0
  IsBadNotify env params =
      ((is_array params ≡ true)
        × ((to_text (item_of params 0) ≡ none) ⊎ (to_text (item_of params 2) ≡ none)))
      ⊎ ((is_array params ≡ false) × (parse env.stod (serialize env.show params) ≡ throws))

  abbrev pub IsBadMethod : Env F → List ℕ → JsonValue F → Type 0
  IsBadMethod env method params =
      (same_text method (text "mining.notify") ≡ true) × IsBadNotify env params

  -- The answer to a share with an error that does not parse, or does not parse again once the callback
  -- has taken it from the text that it is given.
  abbrev pub IsBadAnswer : Env F → JsonValue F → Type 0
  IsBadAnswer env message =
      (to_text (field_of message (text "method")) ≡ none)
      × ((share_result_accepted env message).0 ≡ false)
      × ((parse env.stod (share_result_accepted env message).1 ≡ throws)
          ⊎ ((info : PoolRejectInfo) × (parse_pool_reject env.stod
                  (share_result_accepted env message).1
                ≡ some info)
              × (parse env.stod (raw_of (reject_text info)) ≡ throws)))

  abbrev pub IsBadNotification : Env F → JsonValue F → Type 0
  IsBadNotification env message =
      (method : List ℕ) × (to_text (field_of message (text "method")) ≡ some method)
      × IsBadMethod env method (field_of message (text "params"))

  abbrev pub IsBadMessage : Env F → JsonValue F → Type 0
  IsBadMessage env message = IsBadNotification env message ⊎ IsBadAnswer env message

  -- A line that throws: it does not parse, or it is such a notification or such an answer.
  abbrev pub IsBadLine : Env F → List ℕ → Type 0
  IsBadLine env line =
      (parse env.stod line ≡ throws)
      ⊎ ((message : JsonValue F) × (rest : List ℕ) × (parse env.stod line ≡ parsed message rest)
          × IsBadMessage env message)

module _ {F : Type 0} (env : Env F) where
  quiet_state : (s : Session F) → Moves s s []
  quiet_state s = kept refl refl refl IsQuiet-list

  abbrev IsSameCore : Session F → Session F → Type 0
  IsSameCore s t =
      (t.pending ≡ s.pending)
      × (t.request_id ≡ s.request_id)
      × (t.challenge_resp_ids ≡ s.challenge_resp_ids)

  if-IsSameCore :
      (b : Bool) (s t u : Session F)
      → IsSameCore s t
      → IsSameCore s u
      → IsSameCore s (if b then t else u)
  if-IsSameCore true s t u h k = h
  if-IsSameCore false s t u h k = k

  give_job-Moves :
      (now : ℕ) (s t : Session F) (job_id header target : List ℕ) (height version : ℕ)
      → IsSameCore s t
      → Moves s
          (give_job env now t job_id header target height version).0
          (give_job env now t job_id header target height version).1
  unfolding give_job make_job
  give_job-Moves now s t job_id header target height version core =
      kept core.0 core.1 core.2
        (λ id. unfold total submits settles callbacks responses in (refl, refl, refl, refl))

  notify_job-Moves :
      (now : ℕ) (s : Session F) (obj : JsonValue F)
      → Moves s (notify_job env now s obj).0 (notify_job env now s obj).1
  unfolding notify_job
  notify_job-Moves now s obj =
      let t = if s.pearl_v1 then s else record s { use_object_submit = true } in
      let core : IsSameCore s t =
        if-IsSameCore s.pearl_v1 s s _ (refl, refl, refl) (refl, refl, refl) in
      elim (Option-cases (to_text (field_of obj (text "job_id")))) [
        | inl e ↦ rw (e, notify_job) (quiet_state s)
        | inr (job_id, e) ↦ elim (Option-cases (to_text (field_of obj (text "header")))) [
          | inl e1 ↦ rw (e, notify_job, e1) (quiet_state s)
          | inr (header, e1) ↦
              rw (e, notify_job, e1) (give_job-Moves now s t job_id header _ _ _ core)
        ]
      ]

  parse_notify_object-Outcome :
      {T : Type 0} (now : ℕ) (s : Session F) (params_json : List ℕ)
      → (parse env.stod params_json ≡ throws → T)
      → Outcome T s (parse_notify_object env now s params_json)
  unfolding parse_notify_object Outcome
  parse_notify_object-Outcome now s params_json bad = elim (parse-cases env.stod params_json) [
    | inl (obj, rest, e) ↦ rw (e, parse_notify_object) (notify_job-Moves now s obj)
    | inr e ↦ rw (e, parse_notify_object) (bad e)
  ]

  parse_notify_array-Outcome :
      {T : Type 0} (now : ℕ) (s : Session F) (params : JsonValue F)
      → ((to_text (item_of params 0) ≡ none) ⊎ (to_text (item_of params 2) ≡ none) → T)
      → Outcome T s (parse_notify_array env now s params)
  unfolding parse_notify_array Outcome
  parse_notify_array-Outcome now s params bad =
      let t = if s.pearl_v1 then record s { use_object_submit = false } else s in
      let core : IsSameCore s t =
        if-IsSameCore s.pearl_v1 s _ s (refl, refl, refl) (refl, refl, refl) in
      elim (Bool-cases (ltb (json_size params) 4)) [
        | inl short ↦ rw (short, parse_notify_array) (quiet_state s)
        | inr long ↦ elim (Option-cases (to_text (item_of params 0))) [
          | inl e ↦ rw (long, parse_notify_array, e) (bad (inl e))
          | inr (job_id, e) ↦ elim (Option-cases (to_text (item_of params 2))) [
            | inl e1 ↦ rw (long, parse_notify_array, e, e1) (bad (inr e1))
            | inr (header, e1) ↦
                rw (long, parse_notify_array, e, e1)
                  (give_job-Moves now s t job_id header _ _ _ core)
          ]
        ]
      ]

  handle_set_difficulty-Moves :
      (s : Session F) (params : JsonValue F)
      → Moves s (handle_set_difficulty env s params).0 (handle_set_difficulty env s params).1
  unfolding handle_set_difficulty
  handle_set_difficulty-Moves s params = elim (Option-cases (read_difficulty_param env params)) [
    | inl e ↦ rw (e, handle_set_difficulty) (quiet_state s)
    | inr (diff, e) ↦ elim (Bool-cases (env.numbers.is_positive diff)) [
      | inl above ↦
          rw (e, handle_set_difficulty, above)
            (kept refl refl refl
              (λ id. unfold total submits settles callbacks responses in (refl, refl, refl, refl)))
      | inr none_set ↦ rw (e, handle_set_difficulty, none_set) (quiet_state s)
    ]
  ]

  pub solve_and_respond_challenge_lem :
      (t : Session F) (sent : Bool) (params : JsonValue F) (resp_id : ℕ)
      → ((solve_and_respond_challenge env t sent params resp_id).1 ≡ t
          ⊎ (solve_and_respond_challenge env t sent params resp_id).1
            ≡ record t { challenge_resp_ids = resp_id ∷ erase_id t.challenge_resp_ids resp_id })
        × IsQuiet (solve_and_respond_challenge env t sent params resp_id).2
  unfolding solve_and_respond_challenge
  solve_and_respond_challenge_lem t sent params resp_id =
      let difficulty = challenge_difficulty env params in
      elim (Option-cases (to_text (field_of params (text "seed")))) [
        | inl e ↦ rw (solve_and_respond_challenge, e) (inl refl, IsQuiet-list)
        | inr (seed_hex, e) ↦ elim (Option-cases (hex_to_seed seed_hex)) [
          | inl e1 ↦ rw (solve_and_respond_challenge, e, e1) (inl refl, IsQuiet-list)
          | inr (seed, e1) ↦ elim (Bool-cases (int_above difficulty env.max_diff)) [
            | inl e2 ↦ rw (solve_and_respond_challenge, e, e1, e2) (inl refl, IsQuiet-list)
            | inr e2 ↦ elim (Option-cases (guarded_solve env seed difficulty)) [
              | inl e3 ↦ rw (solve_and_respond_challenge, e, e1, e2, e3) (inr refl, IsQuiet-list)
              | inr (nonce, e3) ↦ elim (Bool-cases (verify env.hash seed nonce difficulty)) [
                | inl e4 ↦
                    rw (solve_and_respond_challenge, e, e1, e2, e3, e4)
                      (
                        inr refl,
                        λ id.
                            unfold total submits settles callbacks responses in
                            (refl, refl, refl, refl),
                      )
                | inr e4 ↦
                    rw (solve_and_respond_challenge, e, e1, e2, e3, e4) (inr refl, IsQuiet-list)
              ]
            ]
          ]
        ]
      ]

  handle_challenge_async-Moves :
      (s : Session F) (sent : Bool) (params : JsonValue F)
      → Moves s
          (handle_challenge_async env s sent params).0
          (handle_challenge_async env s sent params).1
  unfolding handle_challenge_async
  handle_challenge_async-Moves s sent params =
      let resp_id = suc s.request_id in
      let t = record s { request_id = resp_id } in
      let (end, quiet) = solve_and_respond_challenge_lem t sent params resp_id in
      elim end [
        | inl e ↦
            challenged (ap (λ u. u.pending) e) (ap (λ u. u.request_id) e)
              (inl (ap (λ u. u.challenge_resp_ids) e)) quiet
        | inr e ↦
            challenged (ap (λ u. u.pending) e) (ap (λ u. u.request_id) e)
              (inr (ap (λ u. u.challenge_resp_ids) e)) quiet
      ]

  handle_method-Outcome :
      {T : Type 0} (now : ℕ) (s : Session F) (sent : Bool) (method : List ℕ) (params : JsonValue F)
      → (IsBadMethod env method params → T)
      → Outcome T s (handle_method env now s sent method params)
  unfolding handle_method Outcome
  handle_method-Outcome now s sent method params bad =
      elim (Bool-cases (same_text method (text "mining.notify"))) [
        | inl e ↦ elim (Bool-cases (is_array params)) [
          | inl e1 ↦
              rw (handle_method, e, e1)
                (parse_notify_array-Outcome now s params (λ b. bad (e, inl (e1, b))))
          | inr e1 ↦
              rw (handle_method, e, e1)
                (parse_notify_object-Outcome now s (serialize env.show params)
                  (λ b. bad (e, inr (e1, b))))
        ]
        | inr e ↦ elim (Bool-cases (same_text method (text "mining.set_difficulty"))) [
          | inl e1 ↦ rw (handle_method, e, e1) (handle_set_difficulty-Moves s params)
          | inr e1 ↦ elim (Bool-cases (same_text method (text "pearl.challenge"))) [
            | inl e2 ↦ rw (handle_method, e, e1, e2) (handle_challenge_async-Moves s sent params)
            | inr e2 ↦ rw (handle_method, e, e1, e2) (quiet_state s)
          ]
        ]
      ]

  tell_answer-Outcome :
      (T : Type 0) (s : Session F) (msg_id : ℕ) (accepted : Bool) (msg : List ℕ)
      → Outcome T s (tell_answer env s msg_id accepted msg)
  unfolding tell_answer Outcome
  tell_answer-Outcome T s msg_id accepted msg =
      share_answered msg_id accepted msg refl refl refl refl

  tell_reject-Outcome :
      {T : Type 0} (s : Session F) (msg_id : ℕ) (err : List ℕ)
      → ((parse env.stod err ≡ throws)
            ⊎ ((info : PoolRejectInfo) × (parse_pool_reject env.stod err ≡ some info)
                × (parse env.stod (raw_of (reject_text info)) ≡ throws))
          → T)
      → Outcome T s (tell_reject env s msg_id err)
  unfolding tell_reject
  tell_reject-Outcome s msg_id err bad = elim (reject-cases env.stod err) [
    | inr (e, unread) ↦ rw (tell_reject, e) (unfold Outcome in bad (inl unread))
    | inl (info, e) ↦ elim (reject-cases env.stod (raw_of (reject_text info))) [
      | inr (e1, unread) ↦ rw (tell_reject, e, e1) (unfold Outcome in bad (inr (info, e, unread)))
      | inl (again, e1) ↦
          rw (tell_reject, e, e1) (tell_answer-Outcome _ s msg_id false (reject_text info))
    ]
  ]

  handle_share_ack-Outcome :
      {T : Type 0} (s : Session F) (message : JsonValue F) (msg_id : ℕ)
      → ((share_result_accepted env message).0 ≡ false
          → (parse env.stod (share_result_accepted env message).1 ≡ throws)
            ⊎ ((info : PoolRejectInfo) × (parse_pool_reject env.stod
                    (share_result_accepted env message).1
                  ≡ some info)
                × (parse env.stod (raw_of (reject_text info)) ≡ throws))
          → T)
      → Outcome T s (handle_share_ack env s message msg_id)
  unfolding handle_share_ack
  handle_share_ack-Outcome s message msg_id bad =
      elim (Bool-cases (share_result_accepted env message).0) [
        | inl e ↦ rw (handle_share_ack, e) (tell_answer-Outcome _ s msg_id true _)
        | inr e ↦ rw (handle_share_ack, e) (tell_reject-Outcome s msg_id _ (bad e))
      ]

  handle_answer-Outcome :
      {T : Type 0} (s : Session F) (message : JsonValue F) (msg_id : ℕ)
      → ((share_result_accepted env message).0 ≡ false
          → (parse env.stod (share_result_accepted env message).1 ≡ throws)
            ⊎ ((info : PoolRejectInfo) × (parse_pool_reject env.stod
                    (share_result_accepted env message).1
                  ≡ some info)
                × (parse env.stod (raw_of (reject_text info)) ≡ throws))
          → T)
      → Outcome T s (handle_answer env s message msg_id)
  unfolding handle_answer
  handle_answer-Outcome s message msg_id bad =
      elim (Bool-cases (has_id s.challenge_resp_ids msg_id)) [
        | inl e ↦
            rw (handle_answer, e)
              (unfold Outcome in response_answered msg_id refl refl refl IsQuiet-list)
        | inr e ↦
            elim (Bool-cases (int_above msg_id 2 || not (is_none (find ◌==◌ s.pending msg_id)))) [
              | inr e1 ↦ rw (handle_answer, e, e1) (unfold Outcome in quiet_state s)
              | inl e1 ↦ rw (handle_answer, e, e1) (handle_share_ack-Outcome s message msg_id bad)
            ]
      ]

  handle_parsed-Outcome :
      {T : Type 0} (now : ℕ) (s : Session F) (sent : Bool) (message : JsonValue F)
      → (IsBadMessage env message → T)
      → Outcome T s (handle_parsed env now s sent message)
  unfolding handle_parsed Outcome
  handle_parsed-Outcome now s sent message bad = elim (Bool-cases (is_null message)) [
    | inl e ↦ rw (handle_parsed, e) (quiet_state s)
    | inr e ↦ elim (Option-cases (to_text (field_of message (text "method")))) [
      | inr (method, e1) ↦
          rw (handle_parsed, e, e1)
            (handle_method-Outcome now s sent method (field_of message (text "params"))
              (λ b. bad (inl (method, e1, b))))
      | inl e1 ↦ elim (Option-cases (parse_request_id env (field_of message (text "id")))) [
        | inl e2 ↦ rw (handle_parsed, e, e1, e2) (quiet_state s)
        | inr (msg_id, e2) ↦
            rw (handle_parsed, e, e1, e2)
              (handle_answer-Outcome s message msg_id
                (λ refused unread. bad (inr (e1, refused, unread))))
      ]
    ]
  ]

  pub handle_line-Outcome :
      {T : Type 0} (now : ℕ) (s : Session F) (sent : Bool) (line : List ℕ)
      → (IsBadLine env line → T)
      → Outcome T s (handle_message env now s sent line)
  unfolding handle_message Outcome
  handle_line-Outcome now s sent line bad = elim (parse-cases env.stod line) [
    | inl (message, rest, e) ↦
        rw (e, handle_message)
          (handle_parsed-Outcome now s sent message (λ b. bad (inr (message, rest, e, b))))
    | inr e ↦ rw (e, handle_message) (bad (inl e))
  ]

  -- Whatever line the pool sends, the handler returns, and leaves the waiting submissions as they are, or
  -- answers one share, which is reported with its nonce and waits no longer; or it throws, and then
  -- the line does not parse, or it is a notification whose id or header is no text, or whose
  -- parameters do not parse again, or it refuses a share with an error that does not parse, or not any
  -- more as the share callback reads it.
  pub handle_message-Outcome :
      (now : ℕ) (s : Session F) (sent : Bool) (line : List ℕ)
      → Outcome (IsBadLine env line) s (handle_message env now s sent line)
  handle_message-Outcome now s sent line = handle_line-Outcome now s sent line (λ b. b)
