-- ===== src/Orchestrator/Sender.antt =====
-- share_sender_thread_func of worker_orchestrator.cpp: a share on its way from the GPU to a pool. One
-- share is one step: that another thread changes the client, the target or use_stratum_ meanwhile is
-- not modelled, nor is what is only logged.
use prop_miner.Base.{
  ℕ, suc, ◌%◌, ◌^◌, Bool, true, false, not, ◌&&◌, Option, none, some, List, [], ◌∷◌, ◌++◌, ◌==◌,
  if◌then◌else◌, map,
}
use prop_miner.Config.{MiningConfig, difficulty_adjustment_factor}
use prop_miner.Json.Value.{same_text}
use prop_miner.Target.{diagnose_share_target, tighter_target_nbits}
use prop_miner.Share.{Blake3}
use prop_miner.Share.Build.{
  Merkle, Found, Built, built, refused, threw, live_nbits, build, build_stratum_plain_proof,
  verify_share,
}
use prop_miner.Stratum.Jobs.{job_id_for_sigma}
use prop_miner.Stratum.Session.{
  Options, Session, Effect, SubmitResult, ShareDropKind, missing_sigma_context, verify_failed,
  vardiff_tightened, no_job_id, build_failed, send_failed, connection_lost, submit_sent,
  submit_superseded, submit_not_connected, submit_failed, submit_plain_proof,
}

-- A ShareFound, with its job's configuration, and its SigmaContext: the trees and the job key.
pub record Queued : Type 0 where
  pub found : Found
  pub nonce : ℕ
  pub config : MiningConfig
  pub has_context : Bool
  pub trees : Merkle
  pub context_job_key : List ℕ

-- `stratum_client` is `none` for the null pointer; `client_connected` is that of the gRPC client.
pub record Sender (F : Type 0) : Type 0 where
  pub use_stratum : Bool
  pub stratum_client : Option (Session F)
  pub client_connected : Bool
  pub live_share_target_nbits : ℕ
  pub miner_event_seq : ℕ
  pub shares_submitted : ℕ

-- What the thread does: effects of the stratum client, a drop with the nonce, and an event of the
-- gRPC client with its number and its payload.
pub data Report : Type 0 where
  stratum_effect : Effect → Report
  dropped : ShareDropKind → ℕ → Report
  share_event : ℕ → List ℕ → Report

-- A share is dealt with, or the process ends: by a null pointer, or by an exception of the builder. An
-- error that the Rust library reports ends it too, and is not modelled: its calls succeed here.
pub data Dealt (F : Type 0) : Type 0 where
  dealt : Sender F → List Report → Dealt F
  crashed : Dealt F

-- The guard against a target that has tightened while the share waited.
unfoldable pub is_tightened : ℕ → Queued → Bool
is_tightened live raw =
    let mined = live_nbits raw.found in
    let guard = tighter_target_nbits live mined in
    let diag =
      diagnose_share_target raw.found.encoded.claimed_hash guard
        (difficulty_adjustment_factor raw.config) in
    not (guard == 0) && (not (guard == mined) && not diag.clears_with_daf)

module _ {F : Type 0} where
  unfoldable pub drop_share : Sender F → ShareDropKind → Queued → Dealt F
  drop_share o kind raw = dealt o (dropped kind raw.nonce ∷ [])

  -- `taken` says whether send_event succeeds; what is printed where it does not is not modelled.
  unfoldable pub send_grpc : Bool → Sender F → List ℕ → Dealt F
  send_grpc taken o proof =
      let seq = suc o.miner_event_seq % 2 ^ 64 in
      dealt (record o { miner_event_seq = seq })
        (if o.client_connected && taken then share_event seq proof ∷ [] else [])

  -- What follows a submission of the stratum client.
  unfoldable pub settle_submit :
      Sender F → Queued → SubmitResult × Session F × List Effect → Dealt F
  settle_submit o raw (submit_sent, s, es) =
      dealt (record o { stratum_client = some s; shares_submitted = suc o.shares_submitted })
        (map stratum_effect es)
  settle_submit o raw (submit_failed, s, es) =
      dealt (record o { stratum_client = some s })
        (map stratum_effect es ++ dropped send_failed raw.nonce ∷ [])
  settle_submit o raw (submit_not_connected, s, es) =
      dealt (record o { stratum_client = some s })
        (map stratum_effect es ++ dropped connection_lost raw.nonce ∷ [])
  settle_submit o raw (submit_superseded, s, es) =
      dealt (record o { stratum_client = some s }) (map stratum_effect es)

  -- `now` is the time, and `taken` says whether the socket of the client takes what it is given.
  unfoldable pub send_proof : Options → ℕ → Bool → Sender F → Queued → List ℕ → Dealt F
  send_proof opts now taken o raw proof = elim o.use_stratum [
    | false ↦ send_grpc taken o proof
    | true ↦ elim o.stratum_client [
      | none ↦ send_grpc taken o proof
      | some s ↦
          let job_id = job_id_for_sigma s raw.found.encoded.sigma in
          elim s.connected [
            | false ↦ send_grpc taken o proof
            | true ↦ elim (same_text job_id []) [
              | true ↦ drop_share o no_job_id raw
              | false ↦
                  settle_submit o raw (submit_plain_proof opts s now taken job_id proof raw.nonce)
            ]
          ]
    ]
  ]

  -- An empty proof is one that was refused.
  unfoldable pub take_built : Options → ℕ → Bool → Sender F → Queued → Built → Dealt F
  take_built opts now taken o raw threw = crashed
  take_built opts now taken o raw refused = drop_share o build_failed raw
  take_built opts now taken o raw (built proof) = elim (same_text proof []) [
    | true ↦ drop_share o build_failed raw
    | false ↦ send_proof opts now taken o raw proof
  ]

module _ {F : Type 0} (lib : Blake3) (targeted : Bool) (opts : Options) where
  unfoldable pub build_share : ℕ → Bool → Sender F → Queued → Dealt F
  build_share now taken o raw = elim o.use_stratum [
    | false ↦
        take_built opts now taken o raw
          (build lib raw.trees raw.config targeted raw.found raw.context_job_key)
    | true ↦ elim o.stratum_client [
      | none ↦ crashed
      | some s ↦ elim (same_text (job_id_for_sigma s raw.found.encoded.sigma) []) [
        | true ↦ drop_share o no_job_id raw
        | false ↦ take_built opts now taken o raw (
            build_stratum_plain_proof lib raw.trees raw.config targeted raw.found
              raw.context_job_key 1)
      ]
    ]
  ]

  -- One round of the loop over a batch.
  unfoldable pub send_share : ℕ → Bool → Sender F → Queued → Dealt F
  send_share now taken o raw = elim raw.has_context [
    | false ↦ drop_share o missing_sigma_context raw
    | true ↦ elim (verify_share lib raw.trees raw.config targeted raw.found) [
      | false ↦ drop_share o verify_failed raw
      | true ↦ elim (is_tightened o.live_share_target_nbits raw) [
        | true ↦ drop_share o vardiff_tightened raw
        | false ↦ build_share now taken o raw
      ]
    ]
  ]

  unfoldable pub after_batch : List Report → Dealt F → Dealt F
  after_batch rs (dealt o rs') = dealt o (rs ++ rs')
  after_batch rs crashed = crashed

  -- A batch: each share with the time, and whether the socket takes its line.
  unfoldable pub send_batch : Sender F → List (ℕ × Bool × Queued) → Dealt F
  send_batch o [] = dealt o []
  send_batch o ((now, taken, raw) ∷ batch) = elim (send_share now taken o raw) [
    | crashed ↦ crashed
    | dealt o' rs ↦ after_batch rs (send_batch o' batch)
  ]
