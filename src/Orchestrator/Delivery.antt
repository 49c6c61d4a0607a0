-- ===== src/Orchestrator/Delivery.antt =====
-- What the share sender of worker_orchestrator.cpp lets out to a pool, and what becomes of the rest.
use native.Mathlib.Nat.{mul-le-mul_right, le_trans}
use prop_miner.Base.{
  ◌⊎◌, ℕ, ◌%◌, ◌^◌, ◌≤◌, ◌≡◌, ◌≢◌, refl, sym, subst, ◌∙◌, inl, inr, Bool, true, false, not, ◌&&◌,
  Bool-cases, List, [], ◌∷◌, ◌==◌, leb, leb_iff, if◌then◌else◌, arith, le_val, IsU64,
}
use prop_miner.Config.{difficulty_adjustment_factor}
use prop_miner.Target.{diagnose_share_target, tighter_target_nbits, claimed_hash_clears_target}
use prop_miner.Target.Compact.{compact_value}
use prop_miner.Target.Order.{claimed_hash_clears_target_lem, tighter_target_nbits_lem}
use prop_miner.Target.Scale.{scaled_value}
use prop_miner.Share.{Blake3}
use prop_miner.Share.Build.{hash_bytes_set, live_nbits, verify_share}
use prop_miner.Share.Target.{IsDigest}
use prop_miner.Share.Verified.{verify_share-IsBelowTarget}
use prop_miner.Stratum.Session.{
  Options, submit_wire, send_line, share_drop, share_callback, pool_response, job_callback,
  vardiff_callback,
}
use prop_miner.Orchestrator.Sender.{
  Queued, Sender, Report, stratum_effect, dropped, share_event, Dealt, dealt, crashed, is_tightened,
  drop_share, send_share,
}

-- A share goes out as a submission of the stratum client or as an event of the gRPC client.
abbrev pub IsOut : Report → Type 0
IsOut (stratum_effect (submit_wire nonce id)) = Unit
IsOut (stratum_effect (send_line line)) = ⊥
IsOut (stratum_effect (share_drop kind nonce id)) = ⊥
IsOut (stratum_effect (share_callback accepted err)) = ⊥
IsOut (stratum_effect (pool_response accepted nonce id)) = ⊥
IsOut (stratum_effect (job_callback job id)) = ⊥
IsOut (stratum_effect (vardiff_callback nbits)) = ⊥
IsOut (dropped kind nonce) = ⊥
IsOut (share_event seq proof) = Unit

abbrev pub GoesOut : List Report → Type 0
GoesOut [] = ⊥
GoesOut (r ∷ rs) = IsOut r ⊎ GoesOut rs

unfoldable pub reports_of : {F : Type 0} → Dealt F → List Report
reports_of (dealt o rs) = rs
reports_of crashed = []

no_way_out : {A : Type 0} → ⊥ ⊎ ⊥ → A
no_way_out (inl h) = absurd h
no_way_out (inr h) = absurd h

module _ {F : Type 0} (lib : Blake3) (targeted : Bool) (opts : Options) where
  out_checked :
      (now : ℕ) (taken : Bool) (o : Sender F) (raw : Queued)
      → GoesOut (reports_of (send_share lib targeted opts now taken o raw))
      → (verify_share lib raw.trees raw.config targeted raw.found ≡ true)
        × (is_tightened o.live_share_target_nbits raw ≡ false)
  unfolding send_share drop_share reports_of
  out_checked now taken o raw = elim (Bool-cases raw.has_context) [
    | inr e ↦ rw (e, send_share) no_way_out
    | inl e ↦ elim (Bool-cases (verify_share lib raw.trees raw.config targeted raw.found)) [
      | inr e1 ↦ rw (e, send_share, e1) no_way_out
      | inl e1 ↦ elim (Bool-cases (is_tightened o.live_share_target_nbits raw)) [
        | inl e2 ↦ rw (e, send_share, e1, e2) no_way_out
        | inr e2 ↦ λ out. (e1, e2)
      ]
    ]
  ]

abbrev target_of : ℕ → ℕ
target_of nbits = compact_value nbits % 2 ^ 256

-- The hash of a share is at most the target of `nbits` times the factor, stopped at 2 ^ 256 - 1.
abbrev pub IsBelow : Queued → ℕ → Type 0
IsBelow raw nbits =
    le_val raw.found.encoded.claimed_hash
    ≤ scaled_value (compact_value nbits % 2 ^ 256) (difficulty_adjustment_factor raw.config)

scaled_value_mono : (t u f : ℕ) → t ≤ u → scaled_value t f ≤ scaled_value u f
scaled_value_mono t u f h = let le = mul-le-mul_right {m = t} {n = u} f h in ground arith

tighter-cases :
    (live mined : ℕ)
    → live ≢ 0
    → (tighter_target_nbits live mined ≡ live)
      ⊎ ((tighter_target_nbits live mined ≡ mined) × (target_of mined ≤ target_of live))
tighter-cases live mined h =
    by_value (target_of live) (target_of mined) (tighter_target_nbits live mined)
      (tighter_target_nbits_lem live mined)
  where
    by_value :
        (tl tm guard : ℕ)
        → guard ≡ (
            if live == 0
            then mined
            else if mined == 0
            then live
            else if leb tl tm
            then live
            else mined)
        → (guard ≡ live) ⊎ ((guard ≡ mined) × (tm ≤ tl))
    by_value tl tm guard e = elim (Bool-cases (mined == 0)) [
      | inl unset ↦ inl (ground arith)
      | inr set ↦ elim (Bool-cases (leb tl tm)) [
        | inl low ↦ inl (ground arith)
        | inr high ↦ inr (ground arith, ground arith)
      ]
    ]

-- What the guard lets pass, over its test of the target of `guard`.
guard_passed :
    (guard mined : ℕ) (clears : Bool)
    → (not (guard == 0) && (not (guard == mined) && not clears)) ≡ false
    → guard ≢ 0
    → (guard ≡ mined) ⊎ (clears ≡ true)
guard_passed guard mined true h set = inr refl
guard_passed guard mined false h set = inl (ground arith)

module _ (raw : Queued) (digest : IsDigest raw.found.encoded.claimed_hash)
    (pos : 1 ≤ difficulty_adjustment_factor raw.config) where
  clears-IsBelow :
      (nbits : ℕ)
      → (diagnose_share_target raw.found.encoded.claimed_hash nbits
          (difficulty_adjustment_factor raw.config)).clears_with_daf
        ≡ true
      → IsBelow raw nbits
  unfolding diagnose_share_target claimed_hash_clears_target
  clears-IsBelow nbits clears =
      let daf : ℕ = difficulty_adjustment_factor raw.config in
      let size : IsU64 daf = unfold difficulty_adjustment_factor in omega arith in
      (leb_iff _ _).0 (
        sym (
          claimed_hash_clears_target_lem raw.found.encoded.claimed_hash nbits daf digest.0 digest.1
            pos size)
        ∙ clears)

  live-IsBelow :
      (live : ℕ)
      → is_tightened live raw ≡ false
      → IsBelow raw (live_nbits raw.found)
      → live ≢ 0
      → IsBelow raw live
  unfolding is_tightened
  live-IsBelow live passed below set =
      let mined : ℕ = live_nbits raw.found in
      let daf : ℕ = difficulty_adjustment_factor raw.config in
      elim (tighter-cases live mined set) [
        | inr (e, le) ↦ le_trans below (scaled_value_mono (target_of mined) (target_of live) daf le)
        | inl e ↦
            let at_guard : (tighter_target_nbits live mined ≡ mined)
                ⊎ IsBelow raw (tighter_target_nbits live mined) =
              elim (guard_passed (tighter_target_nbits live mined) mined _ passed (rw e set)) [
                | inl same ↦ inl same
                | inr clears ↦ inr (clears-IsBelow _ clears)
              ] in
            elim at_guard [
              | inl same ↦ subst (IsBelow raw) (sym same ∙ e) below
              | inr clears ↦ subst (IsBelow raw) e clears
            ]
      ]

-- What goes out to a pool, as a submission or as an event, where the GPU has given a hash, BLAKE3
-- gives 32 bytes and the adjustment factor is 1 at least: the hash is at most the target under
-- which the share was mined, and at most the live target, where it is not 0, each times the
-- factor and stopped at 2 ^ 256 - 1.
pub send_share-IsBelow :
    {F : Type 0} (lib : Blake3) (targeted : Bool) (opts : Options) (now : ℕ) (taken : Bool)
    (o : Sender F) (raw : Queued)
    → ((message key : List ℕ) → IsDigest (lib.keyed message key))
    → 1 ≤ difficulty_adjustment_factor raw.config
    → hash_bytes_set raw.found.encoded.claimed_hash ≡ true
    → GoesOut (reports_of (send_share lib targeted opts now taken o raw))
    → IsBelow raw (live_nbits raw.found)
      × ((o.live_share_target_nbits ≡ 0) ⊎ IsBelow raw o.live_share_target_nbits)
send_share-IsBelow lib targeted opts now taken o raw digest pos given out =
    let (verified, passed) = out_checked lib targeted opts now taken o raw out in
    let (is_digest, below) =
      verify_share-IsBelowTarget lib raw.trees raw.config targeted raw.found digest pos verified
        given in
    let live = o.live_share_target_nbits in
    elim (Bool-cases (live == 0)) [
      | inl unset ↦ (below, inl (ground arith))
      | inr set ↦ (below, inr (live-IsBelow raw is_digest pos live passed below (ground arith)))
    ]
