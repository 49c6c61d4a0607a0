-- ===== src/Stratum/Answers.antt =====
-- What a session of pearl_stratum_client.cpp reports over its whole run: the submissions that are
-- settled, and the answers that it hands on.
use prop_miner.Base.{ℕ, ◌+◌, ◌≤◌, ◌≡◌, List}
use prop_miner.Stratum.Lines.{ReadStatus, line_read, timeout, closed}
use prop_miner.Stratum.Session.{Options, Session, Effect}
use prop_miner.Stratum.Messages.{Env, Handled, handled, uncaught, looping}
use prop_miner.Stratum.Loop.{Reach, begin, submit, receive, hang_up}
use prop_miner.Stratum.Moves.{Moves}
use prop_miner.Stratum.Pending.{callbacks, responses, total}

-- The callback is called as often as the log tells of an answer, and at most `n` times.
abbrev pub IsAnswered : ℕ → List Effect → Type 0
IsAnswered n es = (total callbacks es ≡ total responses es) × (total responses es ≤ n)

-- 1 for a line of the pool.
unfoldable pub lines_of : ReadStatus → ℕ
lines_of line_read = 1
lines_of timeout = 0
lines_of closed = 0

module _ {F : Type 0} where
  KeepsAnswers : ℕ → Handled F → Type 0
  KeepsAnswers n (handled s es) = IsAnswered n es
  KeepsAnswers n uncaught = Unit
  KeepsAnswers n looping = Unit

  module _ (env : Env F) (opts : Options) (start : Session F) where
    -- The number of the pool's lines in a run.
    unfoldable pub lines_read : {s : Session F} {es : List Effect} → Reach env opts start s es → ℕ
    lines_read begin = 0
    lines_read (submit r now sent job_id proof_bytes nonce) = lines_read r
    lines_read (receive r at now sent status line e) = lines_of status + lines_read r
    lines_read (hang_up r) = lines_read r
