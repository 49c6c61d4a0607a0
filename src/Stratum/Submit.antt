-- ===== src/Stratum/Submit.antt =====
-- submit_plain_proof of pearl_stratum_client.cpp: its branches, and what it leaves waiting.
use prop_miner.Base.{
  ◌⊎◌, ℕ, suc, ◌≡◌, refl, subst, inl, inr, Bool, true, false, not, Bool-cases, List, [], ◌∷◌, ◌==◌,
  if◌then◌else◌, arith,
}
use prop_miner.Json.Value.{same_text, same_text-eq, same_text_self}
use prop_miner.Stratum.Session.{
  Options, Session, put, Effect, superseded_job, send_failed, submit_wire, send_line, share_drop,
  is_superseded, submit_plain_proof, SubmitResult, submit_sent,
}
use prop_miner.Stratum.Moves.{IsQuiet, IsQuiet-list}
use prop_miner.Stratum.Pending.{about, submits, settles, callbacks, responses, total}

module _ {F : Type 0} where
  -- A submission at `now` is refused, or takes the next id, and then waits for its answer unless its
  -- nonce is 0.
  pub data Attempt (now nonce : ℕ) (s s' : Session F) (es : List Effect) : Type 0 where
    refused : s' ≡ s → IsQuiet es → Attempt now nonce s s' es
    untracked :
        s'.pending ≡ s.pending
        → s'.request_id ≡ suc s.request_id
        → s'.challenge_resp_ids ≡ s.challenge_resp_ids
        → IsQuiet es
        → Attempt now nonce s s' es
    tracked :
        (nonce == 0) ≡ false
        → s'.pending
          ≡ put ◌==◌ s.pending (suc s.request_id) (record { nonce = nonce; sent_at = now })
        → s'.request_id ≡ suc s.request_id
        → s'.challenge_resp_ids ≡ s.challenge_resp_ids
        → ((id : ℕ)
            → (total (submits id) es ≡ about id nonce (suc s.request_id))
              × (total (settles id) es ≡ 0)
              × (total callbacks es ≡ 0)
              × (total responses es ≡ 0))
        → Attempt now nonce s s' es

IsQuiet-superseded : (nonce id : ℕ) → IsQuiet (share_drop superseded_job nonce id ∷ [])
unfolding total submits settles callbacks responses
IsQuiet-superseded nonce id k = (refl, refl, refl, refl)

IsQuiet-failed : (nonce id : ℕ) → IsQuiet (share_drop send_failed nonce id ∷ [])
unfolding total submits settles callbacks responses
IsQuiet-failed nonce id k = (refl, refl, refl, refl)

-- The four ends of submit_plain_proof.
pub by_branches {ℓ κ} :
    {A : Type ℓ} (P : A → Type κ) (up old sent : Bool) (x y z w : A)
    → (up ≡ false → P x)
    → (up ≡ true → old ≡ true → P y)
    → (up ≡ true → old ≡ false → sent ≡ false → P z)
    → (up ≡ true → old ≡ false → sent ≡ true → P w)
    → P (if not up then x else if old then y else if not sent then z else w)
by_branches P false old sent x y z w f g h k = f refl
by_branches P true true sent x y z w f g h k = g refl refl
by_branches P true false false x y z w f g h k = h refl refl refl
by_branches P true false true x y z w f g h k = k refl refl refl

apart : (b : Bool) → b ≡ false → b ≡ true → ⊥
apart b e e' = cc

module _ {F : Type 0} (s : Session F) (job_id : List ℕ) where
  superseded-current :
      is_superseded s job_id ≡ false → (s.current_job_id ≡ []) ⊎ (job_id ≡ s.current_job_id)
  unfolding is_superseded
  superseded-current e = elim (Bool-cases (same_text s.current_job_id [])) [
    | inl none_yet ↦ inl (same_text-eq _ _ none_yet)
    | inr some_job ↦ elim (Bool-cases (same_text job_id s.current_job_id)) [
      | inl same ↦ inr (same_text-eq _ _ same)
      | inr other ↦ absurd (apart _ e (rw (is_superseded, some_job, other) refl))
    ]
  ]

  current-superseded :
      (s.current_job_id ≡ []) ⊎ (job_id ≡ s.current_job_id) → is_superseded s job_id ≡ false
  unfolding is_superseded same_text
  current-superseded (inl e) = rw (e, is_superseded) refl
  current-superseded (inr e) =
      let same : same_text job_id s.current_job_id ≡ true =
        subst (λ (t : List ℕ). same_text job_id t ≡ true) e (same_text_self job_id) in
      elim (Bool-cases (same_text s.current_job_id [])) [
        | inl none_yet ↦ rw (is_superseded, none_yet) refl
        | inr some_job ↦ rw (is_superseded, some_job, same) refl
      ]

module _ {F : Type 0} (opts : Options) (s : Session F) (now : ℕ) (sent : Bool)
    (job_id proof_bytes : List ℕ) (nonce : ℕ) where
  taken-Attempt :
      (line : List ℕ) (es : List Effect)
      → IsQuiet es
      → Attempt now nonce s
          (record s {
            request_id = suc s.request_id;
            pending =
                if nonce == 0
                then s.pending
                else put ◌==◌ s.pending
                    (suc s.request_id)
                    (record { nonce = nonce; sent_at = now });
          })
          (submit_wire nonce (suc s.request_id) ∷ send_line line ∷ es)
  unfolding total submits settles callbacks responses
  taken-Attempt line es quiet = elim (Bool-cases (nonce == 0)) [
    | inl e ↦ untracked (rw e refl) refl refl (λ id.
        unfold about in
        rw (e, (quiet id).0, (quiet id).1, (quiet id).2, (quiet id).3) (refl, refl, refl, refl))
    | inr e ↦ tracked e (rw e refl) refl refl (λ id. (
      omega (arith, (quiet id).0),
      omega (arith, (quiet id).1),
      omega (arith, (quiet id).2),
      omega (arith, (quiet id).3),
    ))
  ]

  -- A submission is refused and changes nothing, where the session is not connected or the job is not
  -- the current one, or it takes the next request id; with a nonce it then waits for its answer.
  pub submit_plain_proof-Attempt :
      Attempt now nonce s
        (submit_plain_proof opts s now sent job_id proof_bytes nonce).1
        (submit_plain_proof opts s now sent job_id proof_bytes nonce).2
  unfolding submit_plain_proof
  submit_plain_proof-Attempt =
      by_branches (λ (r : SubmitResult × Session F × List Effect). Attempt now nonce s r.1 r.2)
        s.connected (is_superseded s job_id) sent _ _ _ _ (λ down. refused refl IsQuiet-list)
        (λ up old. refused refl (IsQuiet-superseded nonce 0))
        (λ up current lost. taken-Attempt _ _ (IsQuiet-failed nonce (suc s.request_id)))
        (λ up current gone. taken-Attempt _ _ IsQuiet-list)

  -- The session is connected, no job has come yet or the share is for the current one, and the socket
  -- takes the line.
  abbrev pub IsOpen : Type 0
  IsOpen =
      (s.connected ≡ true) × ((s.current_job_id ≡ []) ⊎ (job_id ≡ s.current_job_id)) × (sent ≡ true)

  -- A submission is sent exactly where the session is connected, the share is for the current job or no
  -- job has come yet, and the socket takes the line.
  pub submit_plain_proof_sent :
      ((submit_plain_proof opts s now sent job_id proof_bytes nonce).0 ≡ submit_sent → IsOpen)
      × (IsOpen → (submit_plain_proof opts s now sent job_id proof_bytes nonce).0 ≡ submit_sent)
  unfolding submit_plain_proof
  submit_plain_proof_sent =
      by_branches
        (λ (r : SubmitResult × Session F × List Effect).
          (r.0 ≡ submit_sent → IsOpen) × (IsOpen → r.0 ≡ submit_sent))
        s.connected (is_superseded s job_id) sent _ _ _ _
        (λ down. (λ e. absurd cc, λ it. absurd (apart s.connected down it.0)))
        (λ up old. (λ e. absurd cc, λ it. absurd (apart _ (current-superseded s job_id it.1) old)))
        (λ up current lost. (λ e. absurd cc, λ it. absurd (apart sent lost it.2)))
        (λ up current gone. (λ e. (up, superseded-current s job_id current, gone), λ it. refl))
