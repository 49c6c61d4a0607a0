-- ===== src/Orchestrator/Runs.antt =====
-- The theorems of Orchestrator at concrete inputs, and runs.
use prop_miner.Base.{
  ◌⊎◌, ℕ, ◌+◌, ◌/◌, ◌%◌, ◌^◌, ◌≤◌, ◌≡◌, refl, inl, inr, ◌∙◌, true, false, none, some, List, [], ◌∷◌,
  text, replicate, IsU64, arith, leb,
}
use prop_miner.Config.{difficulty_adjustment_factor, dot_product_length, pattern_size}
use prop_miner.Json.Value.{same_text}
use prop_miner.Target.{diagnose_share_target, claimed_hash_clears_target, tighter_target_nbits}
use prop_miner.Target.{bytes_to_hex}
use prop_miner.Target.Compact.{compact_value}
use prop_miner.Target.Scale.{scaled_value}
use prop_miner.Target.Order.{claimed_hash_clears_target_lem, tighter_target_nbits_lem}
use prop_miner.Share.{Blake3, jackpot_hash}
use prop_miner.Share.Build.{
  verify_share, hash_bytes_set, proof_roots_for_share, a_proof_of, b_proof_of, claimed_of,
  clears_target, compute_claimed_hash, live_nbits, plain_proof,
}
use prop_miner.Share.Target.{IsDigest}
use prop_miner.Share.Samples.{lib_of, constant_merkle, a_config, share_of, daf_pos}
use prop_miner.Orchestrator.Health.{
  GpuProgressHealth, no_action, soft_recovery, batch_abort, backoff_base, backoff_ms,
  backoff_ms_lem, min, max, check_gpu, check_samples, count_of, is_abort, is_soft,
  check_samples_found,
}
use prop_miner.Orchestrator.Jobs.{
  Orchestrator, Event, new_job, new_target, recovery, IsInStep, republish, after_events,
  after_events-IsInStep,
}
use prop_miner.Orchestrator.Sender.{Queued, Sender, stratum_effect, dealt, is_tightened, send_share}
use prop_miner.Orchestrator.Delivery.{GoesOut, reports_of, IsBelow, send_share-IsBelow}
use prop_miner.Orchestrator.Told.{is_up, IsCrash, IsTold, send_share-IsTold}
use prop_miner.Orchestrator.Arrival.{send_share-submits}
use prop_miner.Stratum.Jobs.{job_id_for_sigma}
use prop_miner.Stratum.Session.{
  Options, Session, find, submit_wire, send_line, is_superseded, submit_line,
}

backoff_ms_example :
    (5000 ≤ backoff_ms 120000 3 9000)
    × (backoff_ms 120000 3 9000 ≤ 120000 + 120000 / 4)
    × (backoff_base 120000 3 ≤ backoff_base 120000 4)
backoff_ms_example =
    backoff_ms_lem 120000 3 9000 (omega arith) (unfold max min backoff_base in omega arith)

abbrev a_health : GpuProgressHealth
a_health = record {
  last_iters = 7;
  last_change_ms = 1000;
  soft_recovery_count = 0;
  abort_requested = false;
}

-- Still from 1000 on: a recovery at 31000, and an abort at 61000.
abbrev some_samples : List (ℕ × ℕ)
some_samples = (11000, 7) ∷ (31000, 7) ∷ (41000, 7) ∷ (61000, 7) ∷ (71000, 7) ∷ []

health_test :
    check_samples 20000 60000 some_samples a_health
    ≡ no_action ∷ soft_recovery ∷ no_action ∷ batch_abort ∷ no_action ∷ []
unfolding check_samples check_gpu
health_test = refl

check_samples_example :
    (count_of is_abort (check_samples 20000 60000 some_samples a_health) ≡ 1)
    × (count_of is_soft (check_samples 20000 60000 some_samples a_health) ≤ 1)
check_samples_example =
    check_samples_found 20000 60000 some_samples a_health (omega arith) refl
      (refl, (refl, (refl, (refl, (refl, tt))))) (inr (inr (inr (inl (omega arith)))))

abbrev an_orchestrator : Orchestrator
an_orchestrator = record {
  bus = record { ctx = none; version = 0 };
  workers =
      record { sigma = none; target_nbits = 5; target_dirty = false }
      ∷ record { sigma = none; target_nbits = 5; target_dirty = false }
      ∷ [];
  targets = λ c. 0;
  contexts = 0;
  live_share_target_nbits = 5;
}

abbrev some_events : List Event
some_events = new_job 6 ∷ new_target 7 ∷ recovery ∷ []

after_events_example :
    IsInStep (after_events an_orchestrator some_events)
    × (republish (after_events an_orchestrator some_events)
        ≡ after_events an_orchestrator some_events)
after_events_example =
    after_events-IsInStep an_orchestrator some_events
      (((refl, refl), ((refl, refl), tt)), λ ctx e. absurd (cc e))

abbrev one_hash : List ℕ
one_hash = 1 ∷ replicate 31 0

abbrev one_lib : Blake3
one_lib = lib_of one_hash

one_hash-IsDigest : IsDigest one_hash
one_hash-IsDigest = (omega arith, refl)

abbrev queued : Queued
queued = record {
  found = share_of one_hash;
  nonce = 9;
  config = a_config;
  has_context = true;
  trees = constant_merkle;
  context_job_key = replicate 32 2;
}

abbrev an_options : Options
an_options = record {
  wallet = text "wallet";
  worker = text "rig";
  password = text "x";
  user_agent = text "propminer/2.1";
}

abbrev a_session : Session ℕ
a_session = record {
  connected = true;
  use_object_submit = true;
  pearl_v1 = false;
  request_id = 2;
  last_difficulty = 0;
  challenge_resp_ids = [];
  pending = [];
  sigma_jobs = (replicate 152 b'0', text "job") ∷ [];
  job_received_at = [];
  job_cert_version = [];
  current_job_id = text "job";
}

-- The live target is tighter than that of the share.
abbrev a_sender : Sender ℕ
a_sender = record {
  use_stratum = true;
  stratum_client = some a_session;
  client_connected = false;
  live_share_target_nbits = 0x1C00_FFFF;
  miner_event_seq = 1;
  shares_submitted = 0;
}

one_clears :
    (nbits : ℕ)
    → leb 1 (scaled_value (compact_value nbits % 2 ^ 256) (difficulty_adjustment_factor a_config))
      ≡ true
    → (diagnose_share_target one_hash nbits (difficulty_adjustment_factor a_config)).clears_with_daf
      ≡ true
unfolding diagnose_share_target claimed_hash_clears_target
one_clears nbits h =
    let daf : ℕ = difficulty_adjustment_factor a_config in
    let size : IsU64 daf = unfold difficulty_adjustment_factor in omega arith in
    claimed_hash_clears_target_lem one_hash nbits daf one_hash-IsDigest.0 refl daf_pos size ∙ h

queued_verified : verify_share one_lib constant_merkle a_config true (share_of one_hash) ≡ true
unfolding verify_share hash_bytes_set proof_roots_for_share a_proof_of b_proof_of claimed_of
    same_text compute_claimed_hash jackpot_hash clears_target live_nbits
queued_verified =
    one_clears 0x1D00_FFFF
      (unfold difficulty_adjustment_factor dot_product_length pattern_size compact_value in refl)

live_is_tighter : tighter_target_nbits 0x1C00_FFFF 0x1D00_FFFF ≡ 0x1C00_FFFF
unfolding compact_value
live_is_tighter = tighter_target_nbits_lem 0x1C00_FFFF 0x1D00_FFFF

queued_passes : is_tightened 0x1C00_FFFF queued ≡ false
unfolding is_tightened live_nbits
queued_passes =
    let clears =
      one_clears 0x1C00_FFFF (
        unfold difficulty_adjustment_factor dot_product_length pattern_size compact_value in
        refl) in
    rw (live_is_tighter, clears) refl

job_named : job_id_for_sigma a_session (replicate 76 0) ≡ text "job"
unfolding job_id_for_sigma find same_text bytes_to_hex
job_named = refl

send_share-submits_example :
    (s' : Session ℕ) × (send_share one_lib true an_options 5 true a_sender queued
      ≡ dealt
          (record a_sender { stratum_client = some s'; shares_submitted = 1 })
          (stratum_effect (submit_wire 9 3)
            ∷ stratum_effect (
                send_line (
                  submit_line an_options a_session 3 (job_id_for_sigma a_session (replicate 76 0)) (
                    plain_proof one_lib constant_merkle a_config true
                      (share_of one_hash)
                      (replicate 32 2)
                      1)))
            ∷ []))
unfolding is_superseded
send_share-submits_example =
    send_share-submits one_lib true an_options 5 a_sender queued a_session refl refl queued_verified
      queued_passes refl refl refl (rw job_named (unfold same_text in refl))
      (rw job_named (unfold same_text in refl))

queued-GoesOut : GoesOut (reports_of (send_share one_lib true an_options 5 true a_sender queued))
unfolding reports_of
queued-GoesOut = rw send_share-submits_example.1 (inl tt)

send_share-IsBelow_example :
    IsBelow queued (live_nbits (share_of one_hash))
    × (◌≡◌ {A = ℕ} 0x1C00_FFFF 0 ⊎ IsBelow queued 0x1C00_FFFF)
send_share-IsBelow_example =
    send_share-IsBelow one_lib true an_options 5 true a_sender queued
      (λ message key. one_hash-IsDigest) daf_pos (unfold hash_bytes_set in refl) queued-GoesOut

send_share-IsTold_example :
    IsTold
      (IsCrash one_lib true a_sender queued)
      (is_up true (some a_session))
      false
      (send_share one_lib true an_options 5 true a_sender queued)
send_share-IsTold_example = send_share-IsTold one_lib true an_options 5 true a_sender queued
