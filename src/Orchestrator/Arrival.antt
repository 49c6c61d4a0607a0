-- ===== src/Orchestrator/Arrival.antt =====
-- What the share sender of worker_orchestrator.cpp does with a share that has passed its tests.
use prop_miner.Base.{
  ℕ, suc, ◌≡◌, refl, ap, ◌∙◌, Bool, true, false, not, Option, none, some, List, [], ◌∷◌, ◌==◌,
  if◌then◌else◌,
}
use prop_miner.Json.Value.{same_text}
use prop_miner.Proof.Bincode.{encode_plain_proof, write_u64}
use prop_miner.Share.{Blake3}
use prop_miner.Share.Build.{build_stratum_plain_proof, plain_proof, verify_share}
use prop_miner.Share.Target.{verify_share-stratum}
use prop_miner.Stratum.Jobs.{job_id_for_sigma}
use prop_miner.Stratum.Session.{
  Options, Session, submit_wire, send_line, is_superseded, submit_line, submit_plain_proof,
  submit_sent, put,
}
use prop_miner.Orchestrator.Sender.{
  Queued, Sender, stratum_effect, dealt, is_tightened, settle_submit, send_proof, take_built,
  build_share, send_share,
}

-- A proof is not empty: it begins with the shape.
same_text-plain_proof :
    (lib : Blake3) (targeted : Bool) (raw : Queued) (job_key : List ℕ) (version : ℕ)
    → same_text (plain_proof lib raw.trees raw.config targeted raw.found job_key version) [] ≡ false
unfolding plain_proof encode_plain_proof write_u64 same_text
same_text-plain_proof lib targeted raw job_key version = refl

-- The way of a share through the tests of the sender, to the last one.
tests_passed {ℓ} :
    {A : Type ℓ} (a b c : Bool) (x y z w : A)
    → a ≡ true
    → b ≡ true
    → c ≡ false
    → (elim a [ false ↦ x | true ↦ elim b [ false ↦ y | true ↦ elim c [ true ↦ z | false ↦ w ] ] ])
      ≡ w
tests_passed true true false x y z w ha hb hc = refl
tests_passed false b c x y z w ha hb hc = absurd (cc ha)
tests_passed true false c x y z w ha hb hc = absurd (cc hb)
tests_passed true true true x y z w ha hb hc = absurd (cc hc)

in_use {ℓ} :
    {F : Type 0} {A : Type ℓ} (mode : Bool) (client : Option (Session F)) (s : Session F) (x y : A)
    (f : Session F → A)
    → mode ≡ true
    → client ≡ some s
    → (elim mode [ false ↦ x | true ↦ elim client [ none ↦ y | some t ↦ f t ] ]) ≡ f s
in_use false client s x y f hm hc = absurd (cc hm)
in_use true none s x y f hm hc = absurd (cc hc)
in_use true (some t) s x y f hm hc = ap f (cc hc)

gate_open {ℓ} :
    {A : Type ℓ} (up unnamed : Bool) (x y z : A)
    → up ≡ true
    → unnamed ≡ false
    → (elim up [ false ↦ x | true ↦ elim unnamed [ true ↦ y | false ↦ z ] ]) ≡ z
gate_open true false x y z hu hn = refl
gate_open false unnamed x y z hu hn = absurd (cc hu)
gate_open true true x y z hu hn = absurd (cc hn)

module _ {F : Type 0} (opts : Options) (now : ℕ) (o : Sender F) (raw : Queued) (s : Session F)
    (mode : o.use_stratum ≡ true) (client : o.stratum_client ≡ some s)
    (named : same_text (job_id_for_sigma s raw.found.encoded.sigma) [] ≡ false) where
  send_proof_submits :
      (taken : Bool) (proof : List ℕ)
      → s.connected ≡ true
      → send_proof opts now taken o raw proof
        ≡ settle_submit o raw (
            submit_plain_proof opts s now taken
              (job_id_for_sigma s raw.found.encoded.sigma)
              proof
              raw.nonce)
  unfolding send_proof
  send_proof_submits taken proof up =
      in_use o.use_stratum o.stratum_client s _ _ _ mode client
      ∙ gate_open s.connected (same_text (job_id_for_sigma s raw.found.encoded.sigma) []) _ _ _ up
          named

  build_share_takes :
      (lib : Blake3) (targeted taken : Bool)
      → build_share lib targeted opts now taken o raw
        ≡ take_built opts now taken o raw (
            build_stratum_plain_proof lib raw.trees raw.config targeted raw.found
              raw.context_job_key 1)
  unfolding build_share
  build_share_takes lib targeted taken =
      in_use o.use_stratum o.stratum_client s _ _ _ mode client ∙ rw named refl

-- The client behind a submission.
abbrev after_submit : {F : Type 0} → ℕ → Session F → ℕ → Session F
after_submit now s nonce = record s {
  request_id = suc s.request_id;
  pending =
      if nonce == 0
      then s.pending
      else put ◌==◌ s.pending (suc s.request_id) (record { nonce = nonce; sent_at = now });
}

proof_goes {ℓ} :
    {A : Type ℓ} (b : Bool) (x y : A) → b ≡ false → (elim b [ true ↦ x | false ↦ y ]) ≡ y
proof_goes false x y h = refl
proof_goes true x y h = absurd (cc h)

submitted {ℓ} :
    {A : Type ℓ} (up old : Bool) (x y w : A)
    → up ≡ true
    → old ≡ false
    → (if not up then x else if old then y else w) ≡ w
submitted true false x y w hu ho = refl
submitted false old x y w hu ho = absurd (cc hu)
submitted true true x y w hu ho = absurd (cc ho)

-- A share that has passed its tests is submitted, where the stratum client is in use and connected, its
-- SigmaContext has the job key of its job, the job has an id, which is the current one, and the
-- socket takes the line: the line with its plain proof goes out under the next request id, and is
-- counted.
pub send_share-submits :
    {F : Type 0} (lib : Blake3) (targeted : Bool) (opts : Options) (now : ℕ) (o : Sender F)
    (raw : Queued) (s : Session F)
    → raw.has_context ≡ true
    → raw.context_job_key ≡ raw.found.job_key
    → verify_share lib raw.trees raw.config targeted raw.found ≡ true
    → is_tightened o.live_share_target_nbits raw ≡ false
    → o.use_stratum ≡ true
    → o.stratum_client ≡ some s
    → s.connected ≡ true
    → same_text (job_id_for_sigma s raw.found.encoded.sigma) [] ≡ false
    → is_superseded s (job_id_for_sigma s raw.found.encoded.sigma) ≡ false
    → (s' : Session F) × (send_share lib targeted opts now true o raw
        ≡ dealt
            (record o { stratum_client = some s'; shares_submitted = suc o.shares_submitted })
            (stratum_effect (submit_wire raw.nonce (suc s.request_id))
              ∷ stratum_effect (
                  send_line (
                    submit_line opts s
                      (suc s.request_id)
                      (job_id_for_sigma s raw.found.encoded.sigma)
                      (plain_proof lib raw.trees raw.config targeted raw.found raw.found.job_key
                        1)))
              ∷ []))
unfolding send_share take_built submit_plain_proof settle_submit
send_share-submits lib targeted opts now o raw s ctx key verified passed mode client up named
      current =
    let proof = plain_proof lib raw.trees raw.config targeted raw.found raw.found.job_key 1 in
    let job_id = job_id_for_sigma s raw.found.encoded.sigma in
    let proved = verify_share-stratum lib raw.trees raw.config targeted raw.found 1 verified in
    let built_is =
      ap (λ k. build_stratum_plain_proof lib raw.trees raw.config targeted raw.found k 1) key
      ∙ proved in
    let full = same_text-plain_proof lib targeted raw raw.found.job_key 1 in
    let s' = after_submit now s raw.nonce in
    let wire =
      submit_wire raw.nonce (suc s.request_id)
      ∷ send_line (submit_line opts s (suc s.request_id) job_id proof)
      ∷ [] in
    (
      s',
      tests_passed raw.has_context (verify_share lib raw.trees raw.config targeted raw.found)
            (is_tightened o.live_share_target_nbits raw) _ _ _ _ ctx verified passed
          ∙ build_share_takes opts now o raw s mode client named lib targeted true
          ∙ ap (take_built opts now true o raw) built_is
          ∙ proof_goes (same_text proof []) _ _ full
          ∙ send_proof_submits opts now o raw s mode client named true proof up
          ∙ ap (settle_submit o raw) (
              submitted s.connected (is_superseded s job_id) _ _ (submit_sent, s', wire) up
                current),
    )
