-- ===== src/Share/Target.antt =====
-- What share_builder.cpp builds clears the target of the share, and what it verifies it can build.
use prop_miner.Base.{
  ℕ, ◌%◌, ◌^◌, ◌≤◌, ◌≡◌, refl, sym, ◌∙◌, ◌⊎◌, inl, inr, Bool, true, false, not, ◌&&◌, ◌||◌, List,
  arith, ◌==◌, leb_iff, length, IsByte, IsU64, All, le_val,
}
use prop_miner.Config.{MiningConfig, difficulty_adjustment_factor}
use prop_miner.Json.Value.{same_text}
use prop_miner.Share.{Blake3, jackpot_hash}
use prop_miner.Share.Build.{
  Merkle, Found, Built, built, refused, threw, AuditIndices, indices, invalid_argument,
  proof_roots_for_share, compute_claimed_hash, live_nbits, a_proof_of, b_proof_of, claimed_of,
  clears_target, plain_proof, hash_bytes_set, build, build_stratum_plain_proof, verify_share,
}
use prop_miner.Target.{diagnose_share_target, claimed_hash_clears_target}
use prop_miner.Target.Compact.{compact_value}
use prop_miner.Target.Order.{claimed_hash_clears_target_lem}
use prop_miner.Target.Scale.{scaled_value}

-- BLAKE3 under a key gives 32 bytes.
abbrev pub IsDigest : List ℕ → Type 0
IsDigest h = All IsByte h × (length h ≡ 32)

module _ (lib : Blake3) (merkle : Merkle) (cfg : MiningConfig) (targeted : Bool) where
  -- The hash of a share is at most its target times the adjustment factor, stopped at 2 ^ 256 - 1.
  abbrev pub IsBelowTarget : Found → List ℕ → Type 0
  IsBelowTarget share hash =
      le_val hash
      ≤ scaled_value (compact_value (live_nbits share) % 2 ^ 256) (difficulty_adjustment_factor cfg)

  pub clears_target-IsBelowTarget :
      (share : Found) (hash : List ℕ)
      → IsDigest hash
      → 1 ≤ difficulty_adjustment_factor cfg
      → clears_target lib merkle cfg targeted share hash ≡ true
      → IsBelowTarget share hash
  unfolding clears_target diagnose_share_target claimed_hash_clears_target
  clears_target-IsBelowTarget share hash h pos clears =
      let daf_u64 : IsU64 (difficulty_adjustment_factor cfg) =
        unfold difficulty_adjustment_factor in omega arith in
      (leb_iff _ _).0 (
        sym (
          claimed_hash_clears_target_lem hash (live_nbits share) (difficulty_adjustment_factor cfg)
            h.0 h.1 pos daf_u64)
        ∙ clears)

  pub claimed_of-IsDigest :
      ((message key : List ℕ) → IsDigest (lib.keyed message key))
      → (share : Found) (job_key : List ℕ)
      → IsDigest (claimed_of lib merkle cfg targeted share job_key)
  unfolding claimed_of compute_claimed_hash jackpot_hash
  claimed_of-IsDigest digest share job_key = digest _ _

-- The two shapes of a builder.
stratum_parts :
    (empty roots clears : Bool) (x bytes : List ℕ)
    → ◌≡◌ {A = Built}
        (elim empty [
          | true ↦ threw
          | false ↦ elim roots [
            | false ↦ refused
            | true ↦ elim clears [ false ↦ refused | true ↦ built x ]
          ]
        ])
        (built bytes)
    → (empty ≡ false) × (roots ≡ true) × (clears ≡ true)
stratum_parts true roots clears x bytes h = absurd (cc h)
stratum_parts false false clears x bytes h = absurd (cc h)
stratum_parts false true false x bytes h = absurd (cc h)
stratum_parts false true true x bytes h = (refl, refl, refl)

build_parts :
    (empty roots clears : Bool) (audit : AuditIndices) (x : List ℕ → List ℕ) (bytes : List ℕ)
    → ◌≡◌ {A = Built}
        (elim empty [
          | true ↦ threw
          | false ↦ elim roots [
            | false ↦ refused
            | true ↦ elim audit [
              | invalid_argument ↦ threw
              | indices siblings ↦ elim clears [ false ↦ refused | true ↦ built (x siblings) ]
            ]
          ]
        ])
        (built bytes)
    → (empty ≡ false) × (roots ≡ true) × (clears ≡ true)
build_parts true roots clears audit x bytes h = absurd (cc h)
build_parts false false clears audit x bytes h = absurd (cc h)
build_parts false true clears invalid_argument x bytes h = absurd (cc h)
build_parts false true false (indices is) x bytes h = absurd (cc h)
build_parts false true true (indices is) x bytes h = (refl, refl, refl)

verify_parts :
    (a b c d e f g : Bool)
    → (a && (b && (c && (d && (e && (f && g)))))) ≡ true
    → (a ≡ true) × (e ≡ true) × (g ≡ true)
verify_parts a b c d e f g h = ground arith

not-true : (a : Bool) → not a ≡ true → a ≡ false
not-true true h = absurd (cc h)
not-true false h = refl

module _ (lib : Blake3) (merkle : Merkle) (cfg : MiningConfig) (targeted : Bool) where
  -- A share that is built has opened leaves, its proofs have the roots that the GPU found, where it
  -- gave them, and its hash clears its target; both builders have this in common.
  abbrev pub IsBuildable : Found → List ℕ → Type 0
  IsBuildable share job_key =
      ((length share.a_opened_leaf_data == 0) ≡ false)
      × (proof_roots_for_share (a_proof_of lib merkle cfg targeted share job_key)
            (b_proof_of lib merkle cfg targeted share) share
          ≡ true)
      × (clears_target lib merkle cfg targeted share
            (claimed_of lib merkle cfg targeted share job_key)
          ≡ true)

  pub build-IsBuildable :
      (share : Found) (job_key bytes : List ℕ)
      → build lib merkle cfg targeted share job_key ≡ built bytes
      → IsBuildable share job_key
  unfolding build
  build-IsBuildable share job_key bytes h = build_parts _ _ _ _ _ bytes h

  pub stratum-IsBuildable :
      (share : Found) (job_key : List ℕ) (version : ℕ) (bytes : List ℕ)
      → build_stratum_plain_proof lib merkle cfg targeted share job_key version ≡ built bytes
      → IsBuildable share job_key
  unfolding build_stratum_plain_proof
  stratum-IsBuildable share job_key version bytes h = stratum_parts _ _ _ _ bytes h

  -- The other direction, for the plain proof of the stratum pools.
  pub IsBuildable-stratum :
      (share : Found) (job_key : List ℕ) (version : ℕ)
      → IsBuildable share job_key
      → build_stratum_plain_proof lib merkle cfg targeted share job_key version
        ≡ built (plain_proof lib merkle cfg targeted share job_key version)
  unfolding build_stratum_plain_proof
  IsBuildable-stratum share job_key version h = rw (build_stratum_plain_proof, h.0, h.1, h.2) refl

  -- Whatever either builder gives to a pool, BLAKE3 giving 32 bytes and the adjustment factor being
  -- 1 at least: the claimed hash is at most the target of the share times the factor.
  pub build-IsBelowTarget :
      (share : Found) (job_key bytes : List ℕ) (version : ℕ)
      → ((message key : List ℕ) → IsDigest (lib.keyed message key))
      → 1 ≤ difficulty_adjustment_factor cfg
      → (build lib merkle cfg targeted share job_key ≡ built bytes)
        ⊎ (build_stratum_plain_proof lib merkle cfg targeted share job_key version ≡ built bytes)
      → IsBelowTarget lib merkle cfg targeted share
          (claimed_of lib merkle cfg targeted share job_key)
  build-IsBelowTarget share job_key bytes version digest pos h =
      let buildable : IsBuildable share job_key = elim h [
        | inl by_build ↦ build-IsBuildable share job_key bytes by_build
        | inr by_stratum ↦ stratum-IsBuildable share job_key version bytes by_stratum
      ] in
      clears_target-IsBelowTarget lib merkle cfg targeted share _
        (claimed_of-IsDigest lib merkle cfg targeted digest share job_key) pos buildable.2

  -- What VerifyShare accepts, under the job key that it has checked, gives a plain proof.
  pub verify_share-stratum :
      (share : Found) (version : ℕ)
      → verify_share lib merkle cfg targeted share ≡ true
      → build_stratum_plain_proof lib merkle cfg targeted share share.job_key version
        ≡ built (plain_proof lib merkle cfg targeted share share.job_key version)
  unfolding verify_share
  verify_share-stratum share version h =
      let parts =
        verify_parts (not (length share.a_opened_leaf_data == 0))
          (merkle.verify_proof (a_proof_of lib merkle cfg targeted share share.job_key)
            share.job_key (a_proof_of lib merkle cfg targeted share share.job_key).root)
          (same_text merkle.tree_root share.encoded.hash_b)
          (merkle.verify_proof (b_proof_of lib merkle cfg targeted share) share.job_key
            share.encoded.hash_b)
          (proof_roots_for_share (a_proof_of lib merkle cfg targeted share share.job_key)
            (b_proof_of lib merkle cfg targeted share) share)
          (not (hash_bytes_set share.encoded.claimed_hash)
            || same_text (claimed_of lib merkle cfg targeted share share.job_key)
                share.encoded.claimed_hash)
          (clears_target lib merkle cfg targeted share
            (claimed_of lib merkle cfg targeted share share.job_key))
          h in
      IsBuildable-stratum share share.job_key version (not-true _ parts.0, parts.1, parts.2)

  -- Both builders accept the same shares, where no audit is asked for: what one gives a proof for, the
  -- other does too.
  pub build-stratum :
      (share : Found) (job_key bytes : List ℕ) (version : ℕ)
      → build lib merkle cfg targeted share job_key ≡ built bytes
      → build_stratum_plain_proof lib merkle cfg targeted share job_key version
        ≡ built (plain_proof lib merkle cfg targeted share job_key version)
  build-stratum share job_key bytes version h =
      IsBuildable-stratum share job_key version (build-IsBuildable share job_key bytes h)
