-- ===== src/Share/Verified.antt =====
-- The hash that the GPU gives to a share, behind VerifyShare of share_builder.cpp.
use prop_miner.Base.{◌≤◌, ◌≡◌, subst, Bool, true, not, ◌&&◌, ◌||◌, List, arith, ◌==◌, ℕ, length}
use prop_miner.Config.{MiningConfig, difficulty_adjustment_factor}
use prop_miner.Json.Value.{same_text, same_text-eq}
use prop_miner.Share.{Blake3}
use prop_miner.Share.Build.{
  Merkle, Found, proof_roots_for_share, a_proof_of, b_proof_of, claimed_of, clears_target,
  hash_bytes_set, verify_share,
}
use prop_miner.Share.Target.{
  IsDigest, IsBelowTarget, clears_target-IsBelowTarget, claimed_of-IsDigest,
}

compared_parts :
    (a b c d e f g : Bool)
    → (a && (b && (c && (d && (e && (f && g)))))) ≡ true
    → (f ≡ true) × (g ≡ true)
compared_parts a b c d e f g h = ground arith

given_part : (set same : Bool) → (not set || same) ≡ true → set ≡ true → same ≡ true
given_part set same h e = ground arith

module _ (lib : Blake3) (merkle : Merkle) (cfg : MiningConfig) (targeted : Bool)
    (share : Found) where
  verify_share-parts :
      verify_share lib merkle cfg targeted share ≡ true
      → ((not (hash_bytes_set share.encoded.claimed_hash)
            || same_text
                (claimed_of lib merkle cfg targeted share share.job_key)
                share.encoded.claimed_hash)
          ≡ true)
        × (clears_target lib merkle cfg targeted share
              (claimed_of lib merkle cfg targeted share share.job_key)
            ≡ true)
  unfolding verify_share
  verify_share-parts h =
      let a_proof = a_proof_of lib merkle cfg targeted share share.job_key in
      let b_proof = b_proof_of lib merkle cfg targeted share in
      compared_parts (not (length share.a_opened_leaf_data == 0))
        (merkle.verify_proof a_proof share.job_key a_proof.root)
        (same_text merkle.tree_root share.encoded.hash_b)
        (merkle.verify_proof b_proof share.job_key share.encoded.hash_b)
        (proof_roots_for_share a_proof b_proof share) _ _ h

  -- A hash that the GPU has given is the one that is computed again, and at most the target of the
  -- share times the adjustment factor.
  pub verify_share-IsBelowTarget :
      ((message key : List ℕ) → IsDigest (lib.keyed message key))
      → 1 ≤ difficulty_adjustment_factor cfg
      → verify_share lib merkle cfg targeted share ≡ true
      → hash_bytes_set share.encoded.claimed_hash ≡ true
      → IsDigest share.encoded.claimed_hash
        × IsBelowTarget lib merkle cfg targeted share share.encoded.claimed_hash
  verify_share-IsBelowTarget digest pos h given =
      let claimed = claimed_of lib merkle cfg targeted share share.job_key in
      let (compared, clears) = verify_share-parts h in
      let same : claimed ≡ share.encoded.claimed_hash =
        same_text-eq _ _ (given_part _ _ compared given) in
      let is_digest = claimed_of-IsDigest lib merkle cfg targeted digest share share.job_key in
      let below =
        clears_target-IsBelowTarget lib merkle cfg targeted share claimed is_digest pos clears in
      (
        subst IsDigest same is_digest,
        subst (IsBelowTarget lib merkle cfg targeted share) same below,
      )
