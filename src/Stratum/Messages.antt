-- ===== src/Stratum/Messages.antt =====
-- The messages of the pool in pearl_stratum_client.cpp: notifications, challenges and answers.
use prop_miner.Base.{
  ℕ, zero, suc, ◌^◌, Bool, true, false, ◌&&◌, ◌||◌, not, Option, none, some, List, [], ◌∷◌, ◌++◌,
  ltb, ◌==◌, if◌then◌else◌, text,
}
use prop_miner.Challenge.{hex_to_seed, nonce_to_wire_hex, verify}
use prop_miner.Json.Value.{
  JsonValue, field_of, item_of, json_size, is_null, is_array, to_bool, to_number, to_text,
  serialize, same_text,
}
use prop_miner.Json.Parser.{parsed, throws, stuck, parse}
use prop_miner.Stratum.{json_escape, decimal}
use prop_miner.Stratum.Session.{
  Session, find, erase, Effect, send_line, share_callback, pool_response, job_callback,
  vardiff_callback,
}
use prop_miner.Stratum.Rejects.{parse_pool_reject, reject_text, raw_of}
use prop_miner.Stratum.Jobs.{Numbers, make_job}
use prop_miner.Target.{difficulty_to_nbits_pdif}

-- What a handler gives: the new state and the effects, or an exception: std::bad_variant_access, or
-- the one of std::stod, from the client or from the share callback. No caller in the file catches it. `looping` is the parser's out of fuel.
pub data Handled (F : Type 0) : Type 0 where
  handled : Session F → List Effect → Handled F
  uncaught : Handled F
  looping : Handled F

-- What the rest of the program and its environment give a handler: the C library and double, the Rust
-- library's hash, the bound on a challenge, the nonce that the search threads of
-- PearlChallenge::solve hand in, the printer and the reader of numbers.
pub record Env (F : Type 0) : Type 0 where
  pub numbers : Numbers F
  pub hash : List ℕ → List ℕ
  pub max_diff : ℕ
  pub solve : List ℕ → ℕ → Option ℕ
  pub show : F → List ℕ
  pub stod : List ℕ → Option F

-- `std::unordered_set<int>`: membership and erase.
unfoldable pub has_id : List ℕ → ℕ → Bool
has_id [] id = false
has_id (x ∷ xs) id = x == id || has_id xs id

unfoldable pub erase_id : List ℕ → ℕ → List ℕ
erase_id [] id = []
erase_id (x ∷ xs) id = if x == id then erase_id xs id else x ∷ erase_id xs id

-- `a > b` of two ints, where b is not negative.
unfoldable pub int_above : ℕ → ℕ → Bool
int_above a b = ltb a (2 ^ 31) && ltb b a

unfoldable pub is_none {ℓ} : {A : Type ℓ} → Option A → Bool
is_none none = true
is_none (some a) = false

module _ {F : Type 0} (env : Env F) where
  unfoldable pub parse_request_id : JsonValue F → Option ℕ
  parse_request_id id_field = elim (to_number id_field) [
    | some v ↦ some (env.numbers.to_int32 v)
    | none ↦ elim (to_text id_field) [ some t ↦ env.numbers.strtol t | none ↦ none ]
  ]

  -- Whether the pool accepts the share, and its error.
  unfoldable pub share_result_accepted : JsonValue F → Bool × List ℕ
  share_result_accepted message =
      let error = field_of message (text "error") in
      let result = field_of message (text "result") in
      if not (is_null error) then (false, serialize env.show error) else elim (to_bool result) [
        | some b ↦ (b, [])
        | none ↦ if is_null result then (false, text "null result") else elim (to_text result) [
          | some r ↦
              if same_text r (text "false") || same_text r (text "0")
              then (false, text "rejected")
              else (true, [])
          | none ↦ (true, [])
        ]
      ]

  -- The first number or text of a list; `std::atof` of a text.
  unfoldable pub number_or_text : JsonValue F → Option F
  number_or_text j = elim (to_number j) [
    | some v ↦ some v
    | none ↦ elim (to_text j) [ some t ↦ some (env.numbers.atof t) | none ↦ none ]
  ]

  unfoldable pub first_number : ℕ → ℕ → JsonValue F → Option F
  first_number zero i params = none
  first_number (suc n) i params =
      let rest = first_number n (suc i) params in
      elim (number_or_text (item_of params i)) [ some v ↦ some v | none ↦ rest ]

  -- `read_difficulty_param`; its 0.0 is no value, since only a positive difficulty is used.
  unfoldable pub read_difficulty_param : JsonValue F → Option F
  read_difficulty_param params =
      if is_array params then first_number (json_size params) 0 params else number_or_text params

  unfoldable pub handle_set_difficulty : Session F → JsonValue F → Session F × List Effect
  handle_set_difficulty s params = elim (read_difficulty_param params) [
    | none ↦ (s, [])
    | some diff ↦
        if env.numbers.is_positive diff
        then (
          record s { last_difficulty = diff },
          vardiff_callback (difficulty_to_nbits_pdif (env.numbers.scaled diff)) ∷ [],
        )
        else (s, [])
  ]

  -- The job's height, 0 where it is no number.
  unfoldable pub height_of : JsonValue F → ℕ
  height_of j = elim (to_number j) [ some v ↦ env.numbers.to_int64 v | none ↦ 0 ]

  unfoldable pub cert_version_of : JsonValue F → ℕ
  cert_version_of j = elim (to_number j) [ some v ↦ env.numbers.to_int32 v | none ↦ 1 ]

  unfoldable pub give_job :
      ℕ → Session F → List ℕ → List ℕ → List ℕ → ℕ → ℕ → Session F × List Effect
  give_job now s job_id header target_hex height cert_version =
      let (job, s') = make_job env.numbers now s job_id header target_hex height cert_version in
      (s', job_callback job job_id ∷ [])

  unfoldable pub notify_job : ℕ → Session F → JsonValue F → Session F × List Effect
  notify_job now s obj = elim (to_text (field_of obj (text "job_id"))) [
    | none ↦ (s, [])
    | some job_id ↦ elim (to_text (field_of obj (text "header"))) [
      | none ↦ (s, [])
      | some header ↦
          let s' = if s.pearl_v1 then s else record s { use_object_submit = true } in
          let target_hex : List ℕ = elim (to_text (field_of obj (text "target"))) [
            | some t ↦ t
            | none ↦ []
          ] in
          give_job now s' job_id header target_hex (height_of (field_of obj (text "height")))
            (cert_version_of (field_of obj (text "cert_version")))
    ]
  ]

  unfoldable pub parse_notify_object : ℕ → Session F → List ℕ → Handled F
  parse_notify_object now s params_json = elim (parse env.stod params_json) [
    | parsed obj rest ↦ let (s', effects) = notify_job now s obj in handled s' effects
    | throws ↦ uncaught
    | stuck ↦ looping
  ]

  -- The positional form: an id or a header that is no text throws.
  unfoldable pub parse_notify_array : ℕ → Session F → JsonValue F → Handled F
  parse_notify_array now s params =
      let s' = if s.pearl_v1 then record s { use_object_submit = false } else s in
      if ltb (json_size params) 4 then handled s [] else elim (to_text (item_of params 0)) [
        | none ↦ uncaught
        | some job_id ↦ elim (to_text (item_of params 2)) [
          | none ↦ uncaught
          | some header ↦
              let (s'', effects) =
                give_job now s' job_id header [] (height_of (item_of params 3)) 1 in
              handled s'' effects
        ]
      ]

  unfoldable pub challenge_difficulty : JsonValue F → ℕ
  challenge_difficulty params = elim (to_number (field_of params (text "difficulty"))) [
    | some v ↦ env.numbers.to_int32 v
    | none ↦ 32
  ]

  -- The guards of PearlChallenge::solve before its search; a negative difficulty is above 255 here.
  unfoldable pub guarded_solve : List ℕ → ℕ → Option ℕ
  guarded_solve seed difficulty =
      if ltb 255 difficulty || ltb env.max_diff difficulty then none else env.solve seed difficulty

  unfoldable pub challenge_response : ℕ → ℕ → List ℕ → List ℕ
  challenge_response resp_id nonce seed_hex =
      text "{\"id\":"
      ++ (decimal resp_id
          ++ (text ",\"method\":\"pearl.challenge_response\",\"params\":{\"nonce\":\""
              ++ (nonce_to_wire_hex nonce
                  ++ (text "\",\"seed\":\"" ++ (json_escape seed_hex ++ text "\"}}")))))

  -- The id waits for its answer from before the search on, whether the search succeeds or not.
  unfoldable pub solve_and_respond_challenge :
      Session F → Bool → JsonValue F → ℕ → Bool × Session F × List Effect
  solve_and_respond_challenge s sent params resp_id =
      let difficulty = challenge_difficulty params in
      let s' = record s { challenge_resp_ids = resp_id ∷ erase_id s.challenge_resp_ids resp_id } in
      elim (to_text (field_of params (text "seed"))) [
        | none ↦ (false, s, [])
        | some seed_hex ↦ elim (hex_to_seed seed_hex) [
          | none ↦ (false, s, [])
          | some seed ↦ elim (int_above difficulty env.max_diff) [
            | true ↦ (false, s, [])
            | false ↦ elim (guarded_solve seed difficulty) [
              | none ↦ (false, s', [])
              | some nonce ↦ elim (verify env.hash seed nonce difficulty) [
                | false ↦ (false, s', [])
                | true ↦ (sent, s', send_line (challenge_response resp_id nonce seed_hex) ∷ [])
              ]
            ]
          ]
        ]
      ]

  unfoldable pub handle_challenge_async : Session F → Bool → JsonValue F → Session F × List Effect
  handle_challenge_async s sent params =
      let resp_id = suc s.request_id in
      let (ok, s', effects) =
        solve_and_respond_challenge (record s { request_id = resp_id }) sent params resp_id in
      (s', effects)

  -- A message with a method.
  unfoldable pub handle_method : ℕ → Session F → Bool → List ℕ → JsonValue F → Handled F
  handle_method now s sent method params = elim (same_text method (text "mining.notify")) [
    | true ↦
        if is_array params
        then parse_notify_array now s params
        else parse_notify_object now s (serialize env.show params)
    | false ↦ elim (same_text method (text "mining.set_difficulty")) [
      | true ↦ let (s', effects) = handle_set_difficulty s params in handled s' effects
      | false ↦ elim (same_text method (text "pearl.challenge")) [
        | true ↦ let (s', effects) = handle_challenge_async s sent params in handled s' effects
        | false ↦ handled s []
      ]
    ]
  ]

  -- The callback of the share and the line of the log: the nonce is 0 where nothing waits under the id.
  unfoldable pub tell_answer : Session F → ℕ → Bool → List ℕ → Handled F
  tell_answer s msg_id accepted msg =
      let nonce : ℕ = elim (find ◌==◌ s.pending msg_id) [ some p ↦ p.nonce | none ↦ 0 ] in
      handled (record s { pending = erase ◌==◌ s.pending msg_id })
        (share_callback accepted msg ∷ pool_response accepted nonce msg_id ∷ [])

  -- A refusal: the client reads the error, and the callback of the orchestrator reads it once more from
  -- the text that it gets; both throw where the parser does.
  unfoldable pub tell_reject : Session F → ℕ → List ℕ → Handled F
  tell_reject s msg_id err = elim (parse_pool_reject env.stod err) [
    | none ↦ uncaught
    | some info ↦ elim (parse_pool_reject env.stod (raw_of (reject_text info))) [
      | none ↦ uncaught
      | some again ↦ tell_answer s msg_id false (reject_text info)
    ]
  ]

  -- The answer to a share.
  unfoldable pub handle_share_ack : Session F → JsonValue F → ℕ → Handled F
  handle_share_ack s message msg_id = elim (share_result_accepted message).0 [
    | true ↦ tell_answer s msg_id true (text "Accepted")
    | false ↦ tell_reject s msg_id (share_result_accepted message).1
  ]

  -- A message without a method: the answer to a challenge, to a share, or to something else.
  unfoldable pub handle_answer : Session F → JsonValue F → ℕ → Handled F
  handle_answer s message msg_id =
      if has_id s.challenge_resp_ids msg_id
      then handled (record s { challenge_resp_ids = erase_id s.challenge_resp_ids msg_id }) []
      else if int_above msg_id 2 || not (is_none (find ◌==◌ s.pending msg_id))
      then handle_share_ack s message msg_id
      else handled s []

  unfoldable pub handle_parsed : ℕ → Session F → Bool → JsonValue F → Handled F
  handle_parsed now s sent message = elim (is_null message) [
    | true ↦ handled s []
    | false ↦ elim (to_text (field_of message (text "method"))) [
      | some method ↦ handle_method now s sent method (field_of message (text "params"))
      | none ↦ elim (parse_request_id (field_of message (text "id"))) [
        | none ↦ handled s []
        | some msg_id ↦ handle_answer s message msg_id
      ]
    ]
  ]

  unfoldable pub handle_message : ℕ → Session F → Bool → List ℕ → Handled F
  handle_message now s sent line = elim (parse env.stod line) [
    | parsed message rest ↦ handle_parsed now s sent message
    | throws ↦ uncaught
    | stuck ↦ looping
  ]
