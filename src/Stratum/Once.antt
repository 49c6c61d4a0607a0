-- ===== src/Stratum/Once.antt =====
-- No request of pearl_stratum_client.cpp is settled twice, and none waits for long.
use prop_miner.Base.{
  ℕ, suc, ◌+◌, ◌≤◌, ◌<◌, ◌≡◌, refl, inl, inr, ◌⊎◌, subst, Bool, false, Bool-cases, List, [], ◌∷◌,
  ◌++◌, ◌==◌, ==_iff, arith, All,
}
use prop_miner.Stratum.Lines.{ReadStatus, line_read, timeout, closed}
use prop_miner.Stratum.Session.{
  Options, PendingSubmit, Session, Effect, connection_lost, pool_ack_timeout, ack_timeout, is_stale,
  split_stale, flush_stale_pending_submits, flush_all_pending_submits, disconnect,
}
use prop_miner.Stratum.Messages.{Env, Handled, handled, uncaught, looping}
use prop_miner.Stratum.Loop.{receive_line, receive_round, Reach, begin, submit, receive, hang_up}
use prop_miner.Stratum.Moves.{
  Moves, kept, challenged, response_answered, share_answered, Outcome, handle_message-Outcome,
}
use prop_miner.Stratum.Submit.{Attempt, refused, untracked, tracked, submit_plain_proof-Attempt}
use prop_miner.Stratum.Valid.{IsValid, All-map}
use prop_miner.Stratum.Pending.{
  waits, about, submits, settles, total, total-append, submits-drops_of, split_stale_young,
  times_out, times_out-drops_of, total-split_stale,
}
use prop_miner.Stratum.Accounting.{Reach-balance}

-- The submissions that are reported between two request ids: each has its own id among those between.
abbrev IsNumbered : ℕ → List Effect → ℕ → Type 0
IsNumbered r es r' =
    (r ≤ r')
    × ((id : ℕ) → (total (submits id) es ≤ 1) × (total (submits id) es ≡ 0 ⊎ (r < id) × (id ≤ r')))

IsNumbered-none :
    (r r' : ℕ) (es : List Effect)
    → r ≤ r'
    → ((id : ℕ) → total (submits id) es ≡ 0)
    → IsNumbered r es r'
IsNumbered-none r r' es le none_there =
    (le, λ id. (omega (arith, none_there id), inl (none_there id)))

IsNumbered-append :
    (r r' r'' : ℕ) (es es' : List Effect)
    → IsNumbered r es r'
    → IsNumbered r' es' r''
    → IsNumbered r (es ++ es') r''
IsNumbered-append r r' r'' es es' h k = (
  omega (arith, h.0, k.0),
  λ id.
      let whole = total-append (submits id) es es' in
      let (h_le, h_or) = h.1 id in
      let (k_le, k_or) = k.1 id in
      elim h_or [
        | inl none_first ↦ elim k_or [
          | inl none_then ↦ (
            omega (arith, whole, none_first, none_then),
            inl (omega (arith, whole, none_first, none_then)),
          )
          | inr range ↦
              (omega (arith, whole, none_first, k_le), inr (omega (arith, h.0, range.0), range.1))
        ]
        | inr range ↦ elim k_or [
          | inl none_then ↦
              (omega (arith, whole, none_then, h_le), inr (range.0, omega (arith, k.0, range.1)))
          | inr later ↦ absurd (omega (arith, range.1, later.0))
        ]
      ],
)

about_le : (id nonce k : ℕ) → (about id nonce k ≤ 1) × (about id nonce k ≡ 0 ⊎ k ≡ id)
unfolding about
about_le id nonce k = elim (Bool-cases (nonce == 0)) [
  | inl e ↦ rw e (omega arith, inl refl)
  | inr e ↦ elim (Bool-cases (k == id)) [
    | inl e1 ↦ rw (e, e1) (omega arith, inr ((==_iff k id).0 e1))
    | inr e1 ↦ rw (e, e1) (omega arith, inl refl)
  ]
]

module _ {F : Type 0} where
  Moves-IsNumbered :
      (s s' : Session F) (es : List Effect)
      → Moves s s' es
      → IsNumbered s.request_id es s'.request_id
  Moves-IsNumbered s s' es (kept p r c quiet) =
      IsNumbered-none _ _ es (omega (arith, r)) (λ id. (quiet id).0)
  Moves-IsNumbered s s' es (challenged p r c quiet) =
      IsNumbered-none _ _ es (omega (arith, r)) (λ id. (quiet id).0)
  Moves-IsNumbered s s' es (response_answered k p r c quiet) =
      IsNumbered-none _ _ es (omega (arith, r)) (λ id. (quiet id).0)
  Moves-IsNumbered s s' es (share_answered k accepted err p r c e) =
      IsNumbered-none _ _ es (omega (arith, r)) (λ id. rw e (unfold total submits in refl))

  Attempt-IsNumbered :
      (s s' : Session F) (es : List Effect) (now nonce : ℕ)
      → Attempt now nonce s s' es
      → IsNumbered s.request_id es s'.request_id
  Attempt-IsNumbered s s' es now nonce (refused e quiet) =
      rw e (IsNumbered-none _ _ es (omega arith) (λ id. (quiet id).0))
  Attempt-IsNumbered s s' es now nonce (untracked p r c quiet) =
      IsNumbered-none _ _ es (omega (arith, r)) (λ id. (quiet id).0)
  Attempt-IsNumbered s s' es now nonce (tracked has p r c counts) = (
    omega (arith, r),
    λ id.
        let (le, or) = about_le id nonce (suc s.request_id) in
        let count = (counts id).0 in
        (
          omega (arith, count, le),
          elim or [
            | inl none_there ↦ inl (omega (arith, count, none_there))
            | inr next ↦ inr (omega (arith, next), omega (arith, next, r))
          ],
        ),
  )

  KeepsNumbers : Session F → Handled F → Type 0
  KeepsNumbers s (handled s' es) = IsNumbered s.request_id es s'.request_id
  KeepsNumbers s uncaught = Unit
  KeepsNumbers s looping = Unit

  flush_stale-IsNumbered :
      (now : ℕ) (s : Session F)
      → IsNumbered s.request_id
          (flush_stale_pending_submits now s).1
          (flush_stale_pending_submits now s).0.request_id
  unfolding flush_stale_pending_submits
  flush_stale-IsNumbered now s =
      IsNumbered-none _ _ _ (omega arith)
        (λ id. submits-drops_of id pool_ack_timeout (split_stale now s.pending).0)

  flush_all-IsNumbered :
      (s : Session F)
      → IsNumbered s.request_id
          (flush_all_pending_submits s).1
          (flush_all_pending_submits s).0.request_id
  unfolding flush_all_pending_submits
  flush_all-IsNumbered s =
      IsNumbered-none _ _ _ (omega arith) (λ id. submits-drops_of id connection_lost s.pending)

  disconnect-IsNumbered :
      (s : Session F) → IsNumbered s.request_id (disconnect s).1 (disconnect s).0.request_id
  unfolding disconnect
  disconnect-IsNumbered s = flush_all-IsNumbered s

  after_message-KeepsNumbers :
      (T : Type 0) (now : ℕ) (s : Session F) (m : Handled F)
      → Outcome T s m
      → KeepsNumbers s (elim m [
        | handled s' es ↦
            handled
              (flush_stale_pending_submits now s').0
              (es ++ (flush_stale_pending_submits now s').1)
        | uncaught ↦ uncaught
        | looping ↦ looping
      ])
  unfolding KeepsNumbers Outcome
  after_message-KeepsNumbers T now s (handled s' es) moves =
      IsNumbered-append _ _ _ es _ (Moves-IsNumbered s s' es moves) (flush_stale-IsNumbered now s')
  after_message-KeepsNumbers T now s uncaught moves = tt
  after_message-KeepsNumbers T now s looping moves = tt

  receive_round-KeepsNumbers :
      (env : Env F) (at now : ℕ) (s : Session F) (sent : Bool) (status : ReadStatus) (line : List ℕ)
      → KeepsNumbers s (receive_round env at now s sent status line)
  unfolding receive_round receive_line KeepsNumbers
  receive_round-KeepsNumbers env at now s sent line_read [] = flush_stale-IsNumbered now s
  receive_round-KeepsNumbers env at now s sent line_read (c ∷ cs) =
      after_message-KeepsNumbers _ now s _ (handle_message-Outcome env at s sent (c ∷ cs))
  receive_round-KeepsNumbers env at now s sent timeout line = flush_stale-IsNumbered now s
  receive_round-KeepsNumbers env at now s sent closed line = flush_all-IsNumbered s

  module _ (env : Env F) (opts : Options) (start : Session F) where
    Reach-IsNumbered :
        (s : Session F) (es : List Effect)
        → Reach env opts start s es
        → IsNumbered start.request_id es s.request_id
    unfolding KeepsNumbers
    Reach-IsNumbered s es begin = IsNumbered-none _ _ [] (omega arith) (λ id. unfold total in refl)
    Reach-IsNumbered s es (submit {s = t} r now sent job_id proof_bytes nonce) =
        IsNumbered-append _ _ _ _ _ (Reach-IsNumbered t _ r) (
          Attempt-IsNumbered t _ _ now nonce
            (submit_plain_proof-Attempt opts t now sent job_id proof_bytes nonce))
    Reach-IsNumbered s es (receive {s = t} r at now sent status line e) =
        IsNumbered-append _ _ _ _ _ (Reach-IsNumbered t _ r)
          (subst (KeepsNumbers t) e (receive_round-KeepsNumbers env at now t sent status line))
    Reach-IsNumbered s es (hang_up {s = t} r) =
        IsNumbered-append _ _ _ _ _ (Reach-IsNumbered t _ r) (disconnect-IsNumbered t)

    -- From a valid state, where nothing waits yet, no request is reported as settled more than once,
    -- and one that still waits has not been reported as settled.
    pub Reach-once :
        (s : Session F) (es : List Effect)
        → IsValid start
        → start.pending ≡ []
        → Reach env opts start s es
        → (id : ℕ) → total (settles id) es + waits id s.pending ≤ 1
    Reach-once s es h none_yet r id = omega (
      arith,
      Reach-balance env opts start s es h none_yet r id,
      ((Reach-IsNumbered s es r).1 id).0,
    )

young_since : (now : ℕ) (p : PendingSubmit) → is_stale now p ≡ false → now < p.sent_at + ack_timeout
unfolding is_stale
young_since now p h = ground arith

-- After a flush at `now`, all that waits was sent less than 45 seconds before; what waited and does
-- not any more has been reported, once, as not answered in time.
pub flush_stale_pending_submits_lem :
    {F : Type 0} (now : ℕ) (s : Session F)
    → IsValid s
    → All (λ e. now < e.1.sent_at + ack_timeout) (flush_stale_pending_submits now s).0.pending
      × ((id : ℕ)
          → total (settles id) (flush_stale_pending_submits now s).1
                + waits id (flush_stale_pending_submits now s).0.pending
              ≡ waits id s.pending
            × total (times_out id) (flush_stale_pending_submits now s).1
              ≡ total (settles id) (flush_stale_pending_submits now s).1)
unfolding flush_stale_pending_submits
flush_stale_pending_submits_lem now s h = (
  All-map _ _ _ (λ e young. young_since now e.1 young) (split_stale_young now s.pending),
  λ id. (
    total-split_stale now id s.pending h.1 h.2,
    times_out-drops_of id (split_stale now s.pending).0,
  ),
)
