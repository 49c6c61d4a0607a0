-- ===== src/Stratum/Loop.antt =====
-- The receive loop of pearl_stratum_client.cpp, one round of it, and the runs of a session: any order
-- of submissions, rounds of the loop and disconnections. Each of them counts as one step, since each
-- change of the waiting submissions holds pending_submit_mtx_.
use prop_miner.Base.{ℕ, Bool, false, List, [], ◌∷◌, ◌++◌, ◌≡◌}
use prop_miner.Stratum.Lines.{ReadStatus, line_read, timeout, closed}
use prop_miner.Stratum.Session.{
  Options, Session, Effect, submit_plain_proof, flush_stale_pending_submits,
  flush_all_pending_submits, disconnect,
}
use prop_miner.Stratum.Messages.{Env, Handled, handled, uncaught, looping, handle_message}

module _ {F : Type 0} (env : Env F) where
  -- The line, if it is not empty, and then what waits for too long. `handled_at` is the time at which
  -- the message is handled, `now` that of the flush behind it.
  unfoldable pub receive_line : ℕ → ℕ → Session F → Bool → List ℕ → Handled F
  receive_line handled_at now s sent [] =
      let (s', effects) = flush_stale_pending_submits now s in handled s' effects
  receive_line handled_at now s sent (c ∷ cs) =
      elim (handle_message env handled_at s sent (c ∷ cs)) [
        | handled s' effects ↦
            let (s'', late) = flush_stale_pending_submits now s' in handled s'' (effects ++ late)
        | uncaught ↦ uncaught
        | looping ↦ looping
      ]

  -- A round by what read_line_status gives, while the client runs. A closed socket ends the loop; the
  -- submissions are lost.
  unfoldable pub receive_round : ℕ → ℕ → Session F → Bool → ReadStatus → List ℕ → Handled F
  receive_round handled_at now s sent line_read line = receive_line handled_at now s sent line
  receive_round handled_at now s sent timeout line =
      let (s', effects) = flush_stale_pending_submits now s in handled s' effects
  receive_round handled_at now s sent closed line =
      let (s', effects) = flush_all_pending_submits s in
      handled (record s' { connected = false }) effects

  -- The states that a session comes to from `start`, with the effects on the way.
  pub data Reach (opts : Options) (start : Session F) : Session F → List Effect → Type 0 where
    begin : Reach opts start start []
    submit :
        {s : Session F} {es : List Effect}
        → Reach opts start s es
        → (now : ℕ) (sent : Bool) (job_id proof_bytes : List ℕ) (nonce : ℕ)
        → Reach opts start
            (submit_plain_proof opts s now sent job_id proof_bytes nonce).1
            (es ++ (submit_plain_proof opts s now sent job_id proof_bytes nonce).2)
    receive :
        {s s' : Session F} {es es' : List Effect}
        → Reach opts start s es
        → (handled_at now : ℕ) (sent : Bool) (status : ReadStatus) (line : List ℕ)
        → receive_round handled_at now s sent status line ≡ handled s' es'
        → Reach opts start s' (es ++ es')
    hang_up :
        {s : Session F} {es : List Effect}
        → Reach opts start s es
        → Reach opts start (disconnect s).0 (es ++ (disconnect s).1)
