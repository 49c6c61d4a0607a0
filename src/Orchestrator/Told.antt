-- ===== src/Orchestrator/Told.antt =====
-- Which shares leave no trace in the share sender of worker_orchestrator.cpp.
use prop_miner.Base.{
  ℕ, ◌≡◌, refl, sym, ap₂, ◌∙◌, ◌⊎◌, inl, inr, Bool, true, false, ◌&&◌, Bool-cases, Option, none,
  some, Option-cases, List, [], ◌∷◌,
}
use prop_miner.Json.Value.{same_text}
use prop_miner.Share.{Blake3}
use prop_miner.Share.Build.{
  Built, built, refused, threw, build, build_stratum_plain_proof, verify_share,
}
use prop_miner.Stratum.Jobs.{job_id_for_sigma}
use prop_miner.Stratum.Session.{
  Options, Session, Effect, ShareDropKind, SubmitResult, is_superseded, submit_plain_proof,
}
use prop_miner.Stratum.Submit.{by_branches}
use prop_miner.Orchestrator.Sender.{
  Queued, Sender, Dealt, dealt, crashed, is_tightened, drop_share, send_grpc, settle_submit,
  send_proof, take_built, build_share, send_share,
}

-- The stratum client is there and connected.
unfoldable pub is_up : {F : Type 0} → Bool → Option (Session F) → Bool
is_up false client = false
is_up true none = false
is_up true (some s) = s.connected

-- A share leaves a report, unless the stratum client is not connected and the gRPC client does not send
-- either; where the process ends, there was `C`.
unfoldable pub IsTold : {F : Type 0} → Type 0 → Bool → Bool → Dealt F → Type 0
IsTold C up sends (dealt o []) = (up ≡ false) × (sends ≡ false)
IsTold C up sends (dealt o (r ∷ rs)) = Unit
IsTold C up sends crashed = C

-- The builder that the mode of the sender calls throws at the share.
abbrev pub IsThrowing : {F : Type 0} → Blake3 → Bool → Sender F → Queued → Type 0
IsThrowing lib targeted o raw =
    ((o.use_stratum ≡ true)
      × (build_stratum_plain_proof lib raw.trees raw.config targeted raw.found raw.context_job_key 1
          ≡ threw))
    ⊎ ((o.use_stratum ≡ false)
        × (build lib raw.trees raw.config targeted raw.found raw.context_job_key ≡ threw))

-- A share that ends the process: it passes the checks, and the stratum client in use is the null pointer
-- or the builder throws.
abbrev pub IsCrash : {F : Type 0} → Blake3 → Bool → Sender F → Queued → Type 0
IsCrash lib targeted o raw =
    (verify_share lib raw.trees raw.config targeted raw.found ≡ true)
    × (is_tightened o.live_share_target_nbits raw ≡ false)
    × (((o.use_stratum ≡ true) × (o.stratum_client ≡ none)) ⊎ IsThrowing lib targeted o raw)

module _ {F : Type 0} (o : Sender F) (raw : Queued) (C : Type 0) (taken up sends : Bool)
    (up_is : is_up o.use_stratum o.stratum_client ≡ up)
    (sends_is : (o.client_connected && taken) ≡ sends) where
  drop-IsTold : (kind : ShareDropKind) → IsTold C up sends (drop_share o kind raw)
  unfolding drop_share IsTold
  drop-IsTold kind = tt

  grpc-IsTold : (proof : List ℕ) → up ≡ false → IsTold C up sends (send_grpc taken o proof)
  unfolding send_grpc IsTold
  grpc-IsTold proof down = elim (Bool-cases (o.client_connected && taken)) [
    | inl e ↦ rw (e, send_grpc) tt
    | inr e ↦ rw (e, send_grpc) (down, sym sends_is ∙ e)
  ]

  submit-IsTold :
      (opts : Options) (now : ℕ) (s : Session F) (job_id proof : List ℕ)
      → s.connected ≡ true
      → IsTold C up sends
          (settle_submit o raw (submit_plain_proof opts s now taken job_id proof raw.nonce))
  unfolding submit_plain_proof settle_submit IsTold
  submit-IsTold opts now s job_id proof connected =
      by_branches
        (λ (r : SubmitResult × Session F × List Effect). IsTold C up sends (settle_submit o raw r))
        s.connected (is_superseded s job_id) taken _ _ _ _
        (λ down. absurd (let e : true ≡ false = sym connected ∙ down in cc)) (λ up' old. tt)
        (λ up' current lost. tt) (λ up' current gone. tt)

  proof-IsTold :
      (opts : Options) (now : ℕ) (proof : List ℕ)
      → IsTold C up sends (send_proof opts now taken o raw proof)
  unfolding send_proof is_up
  proof-IsTold opts now proof = elim (Bool-cases o.use_stratum) [
    | inr e ↦
        let down : up ≡ false = sym up_is ∙ rw (e, is_up) refl in
        rw (e, send_proof) (grpc-IsTold proof down)
    | inl e ↦ elim (Option-cases o.stratum_client) [
      | inl e1 ↦
          let down : up ≡ false = sym up_is ∙ rw (e, e1) refl in
          rw (e, send_proof, e1) (grpc-IsTold proof down)
      | inr (s, e1) ↦ elim (Bool-cases s.connected) [
        | inr e2 ↦
            let down : up ≡ false = sym up_is ∙ ap₂ is_up e e1 ∙ e2 in
            rw (e, send_proof, e1, e2) (grpc-IsTold proof down)
        | inl e2 ↦ elim (Bool-cases (same_text (job_id_for_sigma s raw.found.encoded.sigma) [])) [
          | inl e3 ↦ rw (e, send_proof, e1, e2, e3) (drop-IsTold _)
          | inr e3 ↦ rw (e, send_proof, e1, e2, e3) (submit-IsTold opts now s _ proof e2)
        ]
      ]
    ]
  ]

  built-IsTold :
      (opts : Options) (now : ℕ) (b : Built)
      → (b ≡ threw → C)
      → IsTold C up sends (take_built opts now taken o raw b)
  unfolding take_built IsTold
  built-IsTold opts now threw bad = bad refl
  built-IsTold opts now refused bad = drop-IsTold _
  built-IsTold opts now (built proof) bad = elim (Bool-cases (same_text proof [])) [
    | inl e ↦ rw (e, take_built) (drop-IsTold _)
    | inr e ↦ rw (e, take_built) (proof-IsTold opts now proof)
  ]

  build-IsTold :
      (lib : Blake3) (targeted : Bool) (opts : Options) (now : ℕ)
      → ((o.use_stratum ≡ true) × (o.stratum_client ≡ none) ⊎ IsThrowing lib targeted o raw → C)
      → IsTold C up sends (build_share lib targeted opts now taken o raw)
  unfolding build_share
  build-IsTold lib targeted opts now bad = elim (Bool-cases o.use_stratum) [
    | inr e ↦ rw (e, build_share) (built-IsTold opts now _ (λ t. bad (inr (inr (e, t)))))
    | inl e ↦ elim (Option-cases o.stratum_client) [
      | inl e1 ↦ rw (e, build_share, e1) (unfold IsTold in bad (inl (e, e1)))
      | inr (s, e1) ↦
          elim (Bool-cases (same_text (job_id_for_sigma s raw.found.encoded.sigma) [])) [
            | inl e2 ↦ rw (e, build_share, e1, e2) (drop-IsTold _)
            | inr e2 ↦
                rw (e, build_share, e1, e2) (built-IsTold opts now _ (λ t. bad (inr (inl (e, t)))))
          ]
    ]
  ]

  share-IsTold :
      (lib : Blake3) (targeted : Bool) (opts : Options) (now : ℕ)
      → (IsCrash lib targeted o raw → C)
      → IsTold C up sends (send_share lib targeted opts now taken o raw)
  unfolding send_share
  share-IsTold lib targeted opts now bad = elim (Bool-cases raw.has_context) [
    | inr e ↦ rw (e, send_share) (drop-IsTold _)
    | inl e ↦ elim (Bool-cases (verify_share lib raw.trees raw.config targeted raw.found)) [
      | inr e1 ↦ rw (e, send_share, e1) (drop-IsTold _)
      | inl e1 ↦ elim (Bool-cases (is_tightened o.live_share_target_nbits raw)) [
        | inl e2 ↦ rw (e, send_share, e1, e2) (drop-IsTold _)
        | inr e2 ↦
            rw (e, send_share, e1, e2) (build-IsTold lib targeted opts now (λ b. bad (e1, e2, b)))
      ]
    ]
  ]

-- A share that the sender deals with leaves a submission, an event or the report of a drop, unless the
-- stratum client is not in use or not connected, and the gRPC client is not connected or fails to send.
-- Where the calls of the Rust library succeed, the process ends only where the share passes the checks,
-- and the stratum client in use is the null pointer or the builder throws.
pub send_share-IsTold :
    {F : Type 0} (lib : Blake3) (targeted : Bool) (opts : Options) (now : ℕ) (taken : Bool)
    (o : Sender F) (raw : Queued)
    → IsTold
        (IsCrash lib targeted o raw)
        (is_up o.use_stratum o.stratum_client)
        (o.client_connected && taken)
        (send_share lib targeted opts now taken o raw)
send_share-IsTold lib targeted opts now taken o raw =
    share-IsTold o raw _ taken _ _ refl refl lib targeted opts now (λ b. b)
