-- ===== src/Stratum/Accounting.antt =====
-- Each submission of pearl_stratum_client.cpp is settled once: what it reports and what waits balance,
-- over every run of a session.
use prop_miner.Base.{
  subst, ℕ, suc, ◌+◌, ◌≡◌, refl, sym, ◌∙◌, inl, inr, Bool, true, false, Bool-cases, Option-cases,
  none, some, List, [], ◌∷◌, ◌++◌, ◌==◌, ==_iff, arith, All,
}
use prop_miner.Stratum.Lines.{ReadStatus, line_read, timeout, closed}
use prop_miner.Stratum.Session.{
  Options, PendingSubmit, Session, find, erase, put, Effect, connection_lost, pool_ack_timeout,
  split_stale, flush_stale_pending_submits, flush_all_pending_submits, disconnect,
}
use prop_miner.Stratum.Messages.{Env, Handled, handled, uncaught, looping}
use prop_miner.Stratum.Loop.{receive_line, receive_round, Reach, begin, submit, receive, hang_up}
use prop_miner.Stratum.Moves.{
  Moves, kept, challenged, response_answered, share_answered, Outcome, handle_message-Outcome,
}
use prop_miner.Stratum.Submit.{Attempt, refused, untracked, tracked, submit_plain_proof-Attempt}
use prop_miner.Stratum.Valid.{
  IsValid, fresh_id, Moves-IsValid, Attempt-IsValid, flush_stale-IsValid, flush_all-IsValid,
  disconnect-IsValid,
}
use prop_miner.Stratum.Pending.{
  Waiting, HasNonce, waits, about, submits, settles, total, total-append, find-erase_self,
  find-erase_other, waits-cons, total-drops_of_lost, submits-drops_of, total-split_stale,
}

waits-find : (m k : Waiting) (id : ℕ) → find ◌==◌ m id ≡ find ◌==◌ k id → waits id m ≡ waits id k
unfolding waits
waits-find m k id e = rw (e, waits) refl

waits-none : (m : Waiting) (id : ℕ) → find ◌==◌ m id ≡ none → waits id m ≡ 0
unfolding waits
waits-none m id e = rw (e, waits) refl

waits-some : (m : Waiting) (id : ℕ) (p : PendingSubmit) → find ◌==◌ m id ≡ some p → waits id m ≡ 1
unfolding waits
waits-some m id p e = rw (e, waits) refl

find-HasNonce :
    (m : Waiting) (id : ℕ) (p : PendingSubmit)
    → All HasNonce m
    → find ◌==◌ m id ≡ some p
    → (p.nonce == 0) ≡ false
unfolding find
find-HasNonce [] id p h e = cc
find-HasNonce (x ∷ m) id p h e = elim (Bool-cases (x.0 == id)) [
  | inl same ↦
      let found : some x.1 ≡ some p = sym (rw (same, find) refl) ∙ e in
      let at : x.1 ≡ p = cc in subst (λ (q : PendingSubmit). (q.nonce == 0) ≡ false) at h.0
  | inr other ↦
      let found : find ◌==◌ m id ≡ some p = sym (rw (other, find) refl) ∙ e in
      find-HasNonce m id p h.1 found
]

-- The nonce that an answer to `id` is reported with.
abbrev nonce_of : Waiting → ℕ → ℕ
nonce_of m id = elim (find ◌==◌ m id) [ some p ↦ p.nonce | none ↦ 0 ]

about_other : (k nonce id : ℕ) → (id == k) ≡ false → about k nonce id ≡ 0
unfolding about
about_other k nonce id e = elim (Bool-cases (nonce == 0)) [
  | inl e1 ↦ rw (about, e, e1) refl
  | inr e1 ↦ rw (about, e, e1) refl
]

about_self : (k nonce : ℕ) → (nonce == 0) ≡ false → about k nonce k ≡ 1
unfolding about
about_self k nonce e = let same : (k == k) ≡ true = (==_iff k k).1 refl in rw (about, e, same) refl

-- The answer to a share settles what waited under its id, and nothing else.
waits-erase :
    (m : Waiting) (id k : ℕ)
    → All HasNonce m
    → about k (nonce_of m id) id + waits k (erase ◌==◌ m id) ≡ waits k m
waits-erase m id k h = elim (Bool-cases (id == k)) [
  | inr other ↦ omega (
    arith,
    about_other k (nonce_of m id) id other,
    waits-find (erase ◌==◌ m id) m k (find-erase_other m id k other),
  )
  | inl same ↦
      let e : id ≡ k = (==_iff id k).0 same in
      let gone = waits-none (erase ◌==◌ m k) k (find-erase_self m k) in
      rw e (elim (Option-cases (find ◌==◌ m k)) [
        | inl none_there ↦
            let no_nonce : nonce_of m k ≡ 0 = rw (none_there, nonce_of) refl in
            let zero_about : about k (nonce_of m k) k ≡ 0 = rw no_nonce (unfold about in refl) in
            omega (arith, gone, zero_about, waits-none m k none_there)
        | inr (p, there) ↦
            let its : nonce_of m k ≡ p.nonce = rw (there, nonce_of) refl in
            let one_about : about k (nonce_of m k) k ≡ 1 =
              rw its (about_self k p.nonce (find-HasNonce m k p h there)) in
            omega (arith, gone, one_about, waits-some m k p there)
      ])
]

-- A change from `m` to `m'` with the effects `es` settles what it takes from the waiting.
IsBalanced : Waiting → List Effect → Waiting → Type 0
IsBalanced m es m' =
    (id : ℕ) → total (submits id) es + waits id m ≡ total (settles id) es + waits id m'

IsBalanced-append :
    (m m' m'' : Waiting) (es es' : List Effect)
    → IsBalanced m es m'
    → IsBalanced m' es' m''
    → IsBalanced m (es ++ es') m''
unfolding IsBalanced
IsBalanced-append m m' m'' es es' h k id =
    omega (arith, h id, k id, total-append (submits id) es es', total-append (settles id) es es')

module _ {F : Type 0} where
  Moves-IsBalanced :
      (s s' : Session F) (es : List Effect)
      → Moves s s' es
      → IsValid s
      → IsBalanced s.pending es s'.pending
  unfolding IsBalanced
  Moves-IsBalanced s s' es (kept p r c quiet) h id =
      rw p (omega (arith, (quiet id).0, (quiet id).1))
  Moves-IsBalanced s s' es (challenged p r c quiet) h id =
      rw p (omega (arith, (quiet id).0, (quiet id).1))
  Moves-IsBalanced s s' es (response_answered k p r c quiet) h id =
      rw p (omega (arith, (quiet id).0, (quiet id).1))
  Moves-IsBalanced s s' es (share_answered k accepted err p r c e) h id =
      rw (p, e) (unfold total submits settles in omega (arith, waits-erase s.pending k id h.1))

  Attempt-IsBalanced :
      (s s' : Session F) (es : List Effect) (now nonce : ℕ)
      → Attempt now nonce s s' es
      → IsValid s
      → IsBalanced s.pending es s'.pending
  unfolding IsBalanced
  Attempt-IsBalanced s s' es now nonce (refused e quiet) h id =
      rw e (omega (arith, (quiet id).0, (quiet id).1))
  Attempt-IsBalanced s s' es now nonce (untracked p r c quiet) h id =
      rw p (omega (arith, (quiet id).0, (quiet id).1))
  Attempt-IsBalanced s s' es now nonce (tracked has p r c counts) h id =
      let next = suc s.request_id in
      let added =
        waits-cons id (next, record { nonce = nonce; sent_at = now }) (erase ◌==◌ s.pending next)
          has (find-erase_self s.pending next) in
      let fresh = fresh_id s.request_id s.challenge_resp_ids s.pending h in
      let same = waits-erase s.pending next id h.1 in
      let no_nonce : nonce_of s.pending next ≡ 0 = rw (fresh, nonce_of) refl in
      let zero_about : about id (nonce_of s.pending next) next ≡ 0 =
        rw no_nonce (unfold about in refl) in
      rw p (unfold put in omega (arith, (counts id).0, (counts id).1, added, same, zero_about))

  flush_stale-IsBalanced :
      (now : ℕ) (s : Session F)
      → IsValid s
      → IsBalanced s.pending
          (flush_stale_pending_submits now s).1
          (flush_stale_pending_submits now s).0.pending
  unfolding IsBalanced flush_stale_pending_submits
  flush_stale-IsBalanced now s h id = omega (
    arith,
    submits-drops_of id pool_ack_timeout (split_stale now s.pending).0,
    total-split_stale now id s.pending h.1 h.2,
  )

  flush_all-IsBalanced :
      (s : Session F)
      → IsValid s
      → IsBalanced s.pending (flush_all_pending_submits s).1 (flush_all_pending_submits s).0.pending
  unfolding IsBalanced flush_all_pending_submits
  flush_all-IsBalanced s h id = omega (
    arith,
    submits-drops_of id connection_lost s.pending,
    total-drops_of_lost id s.pending h.1 h.2,
    waits-none [] id (unfold find in refl),
  )

  disconnect-IsBalanced :
      (s : Session F) → IsValid s → IsBalanced s.pending (disconnect s).1 (disconnect s).0.pending
  unfolding disconnect
  disconnect-IsBalanced s h = flush_all-IsBalanced s h

  -- The invariant and the balance of a handler's outcome.
  Keeps : Session F → Handled F → Type 0
  Keeps s (handled s' es) = IsValid s' × IsBalanced s.pending es s'.pending
  Keeps s uncaught = Unit
  Keeps s looping = Unit

  flush_stale-Keeps :
      (now : ℕ) (s : Session F)
      → IsValid s
      → IsValid (flush_stale_pending_submits now s).0
        × IsBalanced s.pending
            (flush_stale_pending_submits now s).1
            (flush_stale_pending_submits now s).0.pending
  flush_stale-Keeps now s h = (flush_stale-IsValid now s h, flush_stale-IsBalanced now s h)

  -- The flush behind a message.
  after_message-Keeps :
      (T : Type 0) (now : ℕ) (s : Session F) (m : Handled F)
      → Outcome T s m
      → IsValid s
      → Keeps s (elim m [
        | handled s' es ↦
            handled
              (flush_stale_pending_submits now s').0
              (es ++ (flush_stale_pending_submits now s').1)
        | uncaught ↦ uncaught
        | looping ↦ looping
      ])
  unfolding Keeps Outcome
  after_message-Keeps T now s (handled s' es) moves h =
      let valid = Moves-IsValid s s' es moves h in
      let (later_valid, later) = flush_stale-Keeps now s' valid in
      (later_valid, IsBalanced-append _ _ _ es _ (Moves-IsBalanced s s' es moves h) later)
  after_message-Keeps T now s uncaught moves h = tt
  after_message-Keeps T now s looping moves h = tt

  receive_round-Keeps :
      (env : Env F) (at now : ℕ) (s : Session F) (sent : Bool) (status : ReadStatus) (line : List ℕ)
      → IsValid s
      → Keeps s (receive_round env at now s sent status line)
  unfolding receive_round receive_line Keeps
  receive_round-Keeps env at now s sent line_read [] h = flush_stale-Keeps now s h
  receive_round-Keeps env at now s sent line_read (c ∷ cs) h =
      after_message-Keeps _ now s _ (handle_message-Outcome env at s sent (c ∷ cs)) h
  receive_round-Keeps env at now s sent timeout line h = flush_stale-Keeps now s h
  receive_round-Keeps env at now s sent closed line h =
      (flush_all-IsValid s h, flush_all-IsBalanced s h)

  module _ (env : Env F) (opts : Options) (start : Session F) where
    -- Every state that a session comes to is valid, in any order of submissions, rounds of the receive
    -- loop and disconnections, where its first state is.
    pub Reach-IsValid :
        (s : Session F) (es : List Effect) → IsValid start → Reach env opts start s es → IsValid s
    unfolding Keeps
    Reach-IsValid s es h begin = h
    Reach-IsValid s es h (submit {s = t} r now sent job_id proof_bytes nonce) =
        Attempt-IsValid t _ _ now nonce
          (submit_plain_proof-Attempt opts t now sent job_id proof_bytes nonce)
          (Reach-IsValid t _ h r)
    Reach-IsValid s es h (receive {s = t} r at now sent status line e) =
        (subst (Keeps t) e
          (receive_round-Keeps env at now t sent status line (Reach-IsValid t _ h r))).0
    Reach-IsValid s es h (hang_up {s = t} r) = disconnect-IsValid t (Reach-IsValid t _ h r)

    -- From a valid state, where nothing waits yet, the reports of a session balance with what waits:
    -- each submission with a nonce is still waiting, or it is reported once, as answered, as not
    -- answered in time, or as lost with the connection. The report of a failed send settles nothing.
    pub Reach-balance :
        (s : Session F) (es : List Effect)
        → IsValid start
        → start.pending ≡ []
        → Reach env opts start s es
        → (id : ℕ) → total (submits id) es ≡ total (settles id) es + waits id s.pending
    unfolding Keeps IsBalanced
    Reach-balance s es h none_yet begin id = rw none_yet (unfold total waits find in omega arith)
    Reach-balance s es h none_yet (submit {s = t} {es = old} r now sent job_id proof_bytes nonce)
          id =
        let attempt = submit_plain_proof-Attempt opts t now sent job_id proof_bytes nonce in
        let step = Attempt-IsBalanced t _ _ now nonce attempt (Reach-IsValid t _ h r) id in
        omega (
          arith,
          step,
          Reach-balance t old h none_yet r id,
          total-append (submits id) old _,
          total-append (settles id) old _,
        )
    Reach-balance s es h none_yet
          (receive {s = t} {es = old} {es' = new} r at now sent status line e) id =
        let kept_both =
          subst (Keeps t) e
            (receive_round-Keeps env at now t sent status line (Reach-IsValid t _ h r)) in
        omega (
          arith,
          kept_both.1 id,
          Reach-balance t old h none_yet r id,
          total-append (submits id) old new,
          total-append (settles id) old new,
        )
    Reach-balance s es h none_yet (hang_up {s = t} {es = old} r) id = omega (
      arith,
      disconnect-IsBalanced t (Reach-IsValid t _ h r) id,
      Reach-balance t old h none_yet r id,
      total-append (submits id) old (disconnect t).1,
      total-append (settles id) old (disconnect t).1,
    )
