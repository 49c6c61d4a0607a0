-- ===== src/Stratum/Connected.antt =====
-- connect of pearl_stratum_client.cpp as a whole, and the session behind it.
use prop_miner.Base.{◌≡◌, refl, Bool, true, false, List, [], if◌then◌else◌}
use prop_miner.Stratum.Session.{Options, Session, Effect, flush_all_pending_submits, disconnect}
use prop_miner.Stratum.Messages.{Env}
use prop_miner.Stratum.Handshake.{
  ok, not_challenge, failed, Socket, Net, Login, ended, aborted, endless, after,
}
use prop_miner.Stratum.Opening.{settle_login, connect}
use prop_miner.Stratum.Login.{none_yet, IsReady, IsFresh, IsAccepted}
use prop_miner.Stratum.Connect.{
  IsBroken, IsEnd, try_challenge_handshake-IsEnd, authorize_after-IsEnd,
}

module _ {F : Type 0} (env : Env F) (net : Net) (opts : Options) (start : Socket) where
  -- A successful end of connect.
  unfoldable pub IsConnected : Login F → Type 0
  IsConnected (ended ok s es sock) =
      (s.connected ≡ true) × IsReady s × IsAccepted env net opts start sock
  IsConnected (ended not_challenge s es sock) = ⊥
  IsConnected (ended failed s es sock) = (s.connected ≡ false) × (s.pending ≡ [])
  IsConnected aborted = IsBroken env net opts start
  IsConnected endless = ⊥

  settle_login-IsConnected :
      (login : Login F)
      → IsEnd env net opts start login
      → IsConnected (settle_login env net opts login)
  unfolding settle_login IsEnd IsConnected disconnect flush_all_pending_submits
  settle_login-IsConnected (ended ok s es sock) h = (refl, h.0, h.1)
  settle_login-IsConnected (ended not_challenge s es sock) h = (refl, refl)
  settle_login-IsConnected (ended failed s es sock) h = (refl, refl)
  settle_login-IsConnected aborted h = h
  settle_login-IsConnected endless h = h

  after-IsConnected :
      (es : List Effect) (login : Login F) → IsConnected login → IsConnected (after es login)
  unfolding after IsConnected
  after-IsConnected es (ended ok s es' sock) h = h
  after-IsConnected es (ended not_challenge s es' sock) h = h
  after-IsConnected es (ended failed s es' sock) h = h
  after-IsConnected es aborted h = h
  after-IsConnected es endless h = h

-- However a pool speaks, connect ends in one of three ways: it fails, and the client is not connected
-- and waits for no share; or it succeeds, the last line that it read has the id of a request for
-- authorization, 2 or 4, no error, and a result that is not false, and nothing waits; or it ends by an
-- exception, and then a line that it read is one that throws: it does not parse, or it is such a
-- notification or refusal as handle_message throws at. The client is one that no challenge response is
-- awaited by.
pub connect-IsConnected :
    {F : Type 0} (env : Env F) (net : Net) (opts : Options) (s : Session F) (sock : Socket)
    → s.challenge_resp_ids ≡ []
    → IsConnected env net opts sock (connect env net opts s sock)
unfolding connect IsConnected disconnect flush_all_pending_submits
connect-IsConnected env net opts s sock h =
    let s' = (disconnect s).0 in
    let fresh : IsFresh s' = (h, refl) in
    let handshake = try_challenge_handshake-IsEnd env net opts sock s' sock none_yet fresh in
    let login = authorize_after-IsEnd env net opts sock _ handshake in
    after-IsConnected env net opts sock _ _
      (by_opening net.opened _ _ (settle_login-IsConnected env net opts sock _ login) (refl, refl))
  where
    by_opening :
        (b : Bool) (x y : Login _)
        → IsConnected env net opts sock x
        → IsConnected env net opts sock y
        → IsConnected env net opts sock (if b then x else y)
    by_opening true x y hx hy = hx
    by_opening false x y hx hy = hy
