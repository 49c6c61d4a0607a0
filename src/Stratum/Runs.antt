-- ===== src/Stratum/Runs.antt =====
-- Runs of pearl_stratum_client.cpp, and the theorems of Stratum at concrete inputs. The numbers of
-- JSON stand in for double here.
use prop_miner.Base.{
  ℕ, ◌+◌, ◌-◌, ◌*◌, ◌≡◌, ◌<◌, refl, true, false, ◌&&◌, Option, none, some, List, [], ◌∷◌, ◌++◌, ltb,
  leb, if◌then◌else◌, text, replicate, arith, All, All-replicate, IsByte, map,
}
use prop_miner.Target.{bytes_to_hex}
use prop_miner.Json.{
  escape_json_string, escape_chars, escape_char, skip_ws, parse_string, string_loop, unescape_char,
}
use prop_miner.Json.Value.{
  is_null, is_array, to_text, to_number, to_bool, field_of, find_pair, item_of, nth_item, json_size,
  items_size, same_text, serialize,
}
use prop_miner.Json.Parser.{
  parse, parse_value, value_at, parse_object, parse_array, object_loop, array_loop, parse_number,
  parse_bool, parse_null, ◌>>=◌, peek, skip_if, skip_digits, skip_fraction, skip_exponent,
  number_end, is_digit,
}
use prop_miner.Stratum.{base64_encode, base64_char, decimal, lower_text, lower_char}
use prop_miner.Stratum.Base64.{base64_decode, base64_decode-base64_encode}
use prop_miner.Stratum.Lines.{
  bytes, no_more_time, line_read, pop_return, read_line_status, joined, read_line_status-pieces,
}
use prop_miner.Stratum.Session.{
  Options, Session, Effect, send_line, pool_response, share_callback, submit_plain_proof,
  flush_stale_pending_submits, ack_timeout, is_superseded, put, find, erase, submit_sent,
}
use prop_miner.Stratum.Rejects.{
  parse_pool_reject, classify_pool_message, human_reject_summary, is_message, message_in,
  reject_info, plain_reject, reject_text, raw_of, has_text, behind, behind_prefix,
}
use prop_miner.Stratum.Jobs.{Numbers, make_job, job_id_for_sigma, cert_version_for_job}
use prop_miner.Stratum.Messages.{
  Env, handled, uncaught, handle_message, handle_parsed, handle_method, handle_answer,
  handle_share_ack, tell_answer, tell_reject, parse_request_id, share_result_accepted, has_id,
  int_above, is_none, parse_notify_array,
}
use prop_miner.Stratum.Moves.{IsBadLine, Outcome, handle_message-Outcome}
use prop_miner.Stratum.Submit.{IsOpen, submit_plain_proof_sent}
use prop_miner.Stratum.Loop.{Reach, begin, submit}
use prop_miner.Stratum.Valid.{IsValid}
use prop_miner.Stratum.Pending.{settles, times_out, total, waits}
use prop_miner.Stratum.Accounting.{Reach-IsValid}
use prop_miner.Stratum.Once.{flush_stale_pending_submits_lem}
use prop_miner.Stratum.Headers.{make_job_lem}
use prop_miner.Stratum.Client.{new_client, parse_password_difficulty, difficulty_text, after_key}
use prop_miner.Stratum.Handshake.{Socket, Net, authorize_line}
use prop_miner.Stratum.Opening.{connect}
use prop_miner.Stratum.Connected.{IsConnected, connect-IsConnected}

base64_test : base64_encode (text "Many") ≡ text "TWFueQ=="
unfolding base64_encode base64_char
base64_test = refl

-- The number of a run of digits.
abbrev digits_value : ℕ → List ℕ → Option ℕ
digits_value acc [] = some acc
digits_value acc (c ∷ cs) =
    let rest = digits_value (acc * 10 + (c - 48)) cs in if leb 48 c && leb c 57 then rest else none

abbrev whole_number : List ℕ → Option ℕ
whole_number [] = none
whole_number (c ∷ cs) = digits_value 0 (c ∷ cs)

abbrev whole_numbers : Numbers ℕ
whole_numbers = record {
  is_positive = λ d. ltb 0 d;
  scaled = λ d. d * 1000000;
  to_int32 = λ d. d;
  to_int64 = λ d. d;
  atof = λ t. 0;
  strtol = λ t. digits_value 0 t;
  default_difficulty = 32768;
}

abbrev an_env : Env ℕ
an_env = record {
  numbers = whole_numbers;
  hash = λ input. replicate 32 255;
  max_diff = 44;
  solve = λ seed difficulty. some 7;
  show = decimal;
  stod = whole_number;
}

abbrev some_opts : Options
some_opts = record {
  wallet = text "wallet";
  worker = text "rig";
  password = text "x";
  user_agent = text "propminer/2.1";
}

-- A session behind the answer to mining.authorize.
abbrev authorized : Session ℕ
authorized = record {
  connected = true;
  use_object_submit = true;
  pearl_v1 = false;
  request_id = 2;
  last_difficulty = 0;
  challenge_resp_ids = [];
  pending = [];
  sigma_jobs = [];
  job_received_at = [];
  job_cert_version = [];
  current_job_id = text "job";
}

-- One submission, at the time 5, of the proof 1, 2, 3 with the nonce 9.
abbrev submitted : Session ℕ
submitted = record authorized {
  request_id = 3;
  pending = (3, record { nonce = 9; sent_at = 5 }) ∷ [];
}

abbrev a_proof : List ℕ
a_proof = 1 ∷ 2 ∷ 3 ∷ []

submit_test : (submit_plain_proof some_opts authorized 5 true (text "job") a_proof 9).1 ≡ submitted
unfolding submit_plain_proof is_superseded same_text put erase
submit_test = refl

ack_test :
    handle_message an_env 6 submitted true (text "{\"id\":3,\"result\":true,\"error\":null}")
    ≡ handled
        (record submitted { pending = [] })
        (share_callback true (text "Accepted") ∷ pool_response true 9 3 ∷ [])
unfolding handle_message handle_parsed handle_method handle_answer handle_share_ack tell_answer
    tell_reject parse_request_id share_result_accepted has_id int_above is_none parse_notify_array
    find erase is_null is_array to_text to_number to_bool field_of find_pair item_of nth_item
    json_size items_size same_text parse parse_value value_at parse_object parse_array object_loop
    array_loop parse_number parse_bool parse_null ◌>>=◌ peek skip_ws skip_if skip_digits
    skip_fraction skip_exponent number_end is_digit parse_string string_loop unescape_char
ack_test = refl

-- A line that is no JSON ends in the exception of std::stod.
garbage_test : handle_message an_env 6 submitted true (text "hello") ≡ uncaught
unfolding handle_message handle_parsed handle_method handle_answer handle_share_ack tell_answer
    tell_reject parse_request_id share_result_accepted has_id int_above is_none parse_notify_array
    find erase is_null is_array to_text to_number to_bool field_of find_pair item_of nth_item
    json_size items_size same_text parse parse_value value_at parse_object parse_array object_loop
    array_loop parse_number parse_bool parse_null ◌>>=◌ peek skip_ws skip_if skip_digits
    skip_fraction skip_exponent number_end is_digit parse_string string_loop unescape_char
garbage_test = refl

-- A refusal that parses, and not any more as the share callback reads it.
mark_in_error_test :
    handle_message an_env 6 submitted true (text "{\"id\":3,\"error\":\"x raw=y\"}") ≡ uncaught
unfolding handle_message handle_parsed handle_method handle_answer handle_share_ack tell_answer
    tell_reject parse_request_id share_result_accepted has_id int_above is_none parse_notify_array
    find erase is_null is_array to_text to_number to_bool field_of find_pair item_of nth_item
    json_size items_size same_text parse parse_value value_at parse_object parse_array object_loop
    array_loop parse_number parse_bool parse_null ◌>>=◌ peek skip_ws skip_if skip_digits
    skip_fraction skip_exponent number_end is_digit parse_string string_loop unescape_char
    parse_pool_reject classify_pool_message human_reject_summary is_message message_in reject_info
    plain_reject reject_text raw_of has_text behind behind_prefix lower_text lower_char serialize
    escape_json_string escape_chars escape_char
mark_in_error_test = refl

-- A positional notification with a number as its id ends in std::bad_variant_access.
number_as_id_test :
    handle_message an_env 6 submitted true
      (text "{\"method\":\"mining.notify\",\"params\":[1,\"\",\"00\",5]}")
    ≡ uncaught
unfolding handle_message handle_parsed handle_method handle_answer handle_share_ack tell_answer
    tell_reject parse_request_id share_result_accepted has_id int_above is_none parse_notify_array
    find erase is_null is_array to_text to_number to_bool field_of find_pair item_of nth_item
    json_size items_size same_text parse parse_value value_at parse_object parse_array object_loop
    array_loop parse_number parse_bool parse_null ◌>>=◌ peek skip_ws skip_if skip_digits
    skip_fraction skip_exponent number_end is_digit parse_string string_loop unescape_char
number_as_id_test = refl

base64_decode_example : base64_decode (base64_encode a_proof) ≡ a_proof
base64_decode_example =
    base64_decode-base64_encode a_proof (omega arith, (omega arith, (omega arith, tt)))

-- A line in two pieces, and the beginning of the next.
read_line_status_example :
    (qs : List (List ℕ)) × (kept : List ℕ) × (kept ++ joined qs ≡ text "x")
    × (read_line_status []
          (map bytes (text "ab" ∷ (b'c' ∷ 13 ∷ 10 ∷ text "x") ∷ []) ++ (no_more_time ∷ []))
        ≡ record {
          status = line_read;
          out = pop_return (text "abc" ++ (13 ∷ []));
          recv_buf = kept;
          coming = map bytes qs ++ (no_more_time ∷ []);
        })
read_line_status_example =
    read_line_status-pieces [] (text "ab" ∷ (b'c' ∷ 13 ∷ 10 ∷ text "x") ∷ []) (no_more_time ∷ [])
      (text "abc" ++ (13 ∷ [])) (text "x") (refl, (refl, (refl, (refl, tt))))
      (unfold joined in refl)

authorized-IsValid : IsValid authorized
authorized-IsValid = (tt, tt, tt, tt, tt)

abbrev after_submit : Session ℕ
after_submit = (submit_plain_proof some_opts authorized 5 true (text "job") a_proof 9).1

abbrev submit_effects : List Effect
submit_effects = [] ++ (submit_plain_proof some_opts authorized 5 true (text "job") a_proof 9).2

submitted-Reach : Reach an_env some_opts authorized after_submit submit_effects
submitted-Reach = submit begin 5 true (text "job") a_proof 9

Reach-IsValid_example : IsValid after_submit
Reach-IsValid_example =
    Reach-IsValid an_env some_opts authorized after_submit submit_effects authorized-IsValid
      submitted-Reach

submitted-IsValid : IsValid submitted
submitted-IsValid = ((omega arith, tt), (refl, tt), (unfold find in refl, tt), tt, tt)

flush_stale_pending_submits_example :
    All
      (λ e. 45_000_000_005 < e.1.sent_at + ack_timeout)
      (flush_stale_pending_submits 45_000_000_005 submitted).0.pending
    × ((id : ℕ)
        → total (settles id) (flush_stale_pending_submits 45_000_000_005 submitted).1
              + waits id (flush_stale_pending_submits 45_000_000_005 submitted).0.pending
            ≡ waits id submitted.pending
          × total (times_out id) (flush_stale_pending_submits 45_000_000_005 submitted).1
            ≡ total (settles id) (flush_stale_pending_submits 45_000_000_005 submitted).1)
flush_stale_pending_submits_example =
    flush_stale_pending_submits_lem 45_000_000_005 submitted submitted-IsValid

handle_message_example :
    Outcome
      (IsBadLine an_env (text "{\"id\":3,\"result\":true,\"error\":null}"))
      submitted
      (handle_message an_env 6 submitted true (text "{\"id\":3,\"result\":true,\"error\":null}"))
handle_message_example =
    handle_message-Outcome an_env 6 submitted true
      (text "{\"id\":3,\"result\":true,\"error\":null}")

submit_plain_proof_sent_example :
    ((submit_plain_proof some_opts authorized 5 true (text "job") a_proof 9).0 ≡ submit_sent
      → IsOpen some_opts authorized 5 true (text "job") a_proof 9)
    × (IsOpen some_opts authorized 5 true (text "job") a_proof 9
        → (submit_plain_proof some_opts authorized 5 true (text "job") a_proof 9).0 ≡ submit_sent)
submit_plain_proof_sent_example =
    submit_plain_proof_sent some_opts authorized 5 true (text "job") a_proof 9

abbrev a_header : List ℕ
a_header = replicate 76 171

make_job_example :
    ((make_job whole_numbers 5 authorized (text "j1") (bytes_to_hex a_header) [] 1 2).0.sigma
      ≡ a_header)
    × (job_id_for_sigma
          (make_job whole_numbers 5 authorized (text "j1") (bytes_to_hex a_header) [] 1 2).1
          a_header
        ≡ text "j1")
    × (cert_version_for_job
          (make_job whole_numbers 5 authorized (text "j1") (bytes_to_hex a_header) [] 1 2).1
          (text "j1")
        ≡ 2)
make_job_example =
    make_job_lem whole_numbers 5 authorized (text "j1") a_header [] 1 2
      (All-replicate IsByte 76 171 (omega arith)) refl

password_test :
    parse_password_difficulty (record whole_numbers { atof = λ t. 5 }) (text "x;d=500") ≡ some 5
unfolding parse_password_difficulty difficulty_text after_key
password_test = refl

-- A pool that waits for the client, and then takes its request for authorization.
abbrev quiet_pool : Net
quiet_pool = record {
  opened = true;
  challenge_wait_ms = 2000;
  takes = λ id. true;
  responds = λ round. true;
  clock = λ round. round;
  stopped = λ round. false;
}

abbrev answered_authorize : Socket
answered_authorize = record {
  recv_buf = [];
  coming = no_more_time ∷ bytes (text "{\"id\":2,\"result\":true,\"error\":null}\n") ∷ [];
}

abbrev fresh_client : Session ℕ
fresh_client = new_client whole_numbers 0 none none some_opts

abbrev logged_in : Session ℕ
logged_in = record fresh_client { connected = true; request_id = 2 }

abbrev sent_lines : List Effect
sent_lines = send_line (authorize_line b'2' some_opts) ∷ []

abbrev drained : Socket
drained = record { recv_buf = []; coming = [] }

connect-IsConnected_example :
    IsConnected an_env quiet_pool some_opts answered_authorize
      (connect an_env quiet_pool some_opts fresh_client answered_authorize)
unfolding new_client
connect-IsConnected_example =
    connect-IsConnected an_env quiet_pool some_opts fresh_client answered_authorize refl
