-- ===== src/Stratum/Session.antt =====
-- The state of PearlStratumClient, where the `int` of its request ids stays below 2 ^ 31, and the submissions that wait for the pool's answer. A clock counts
-- nanoseconds. An unordered_map is an association list with the newest key first; what a loop over it
-- reports comes in that order.
use prop_miner.Base.{
  ℕ, suc, ◌-◌, Bool, false, ◌&&◌, not, Option, none, some, List, [], ◌∷◌, ◌++◌, leb, ◌==◌,
  if◌then◌else◌, text,
}
use prop_miner.Json.Value.{same_text}
use prop_miner.Stratum.{json_escape, base64_encode, decimal}
use prop_miner.Wire.Events.{JobAssignment}

-- The maps over a test of equality of the keys.
module _ {K V : Type 0} (same : K → K → Bool) where
  unfoldable pub find : List (K × V) → K → Option V
  find [] key = none
  find ((k, v) ∷ m) key = if same k key then some v else find m key

  unfoldable pub erase : List (K × V) → K → List (K × V)
  erase [] key = []
  erase ((k, v) ∷ m) key = if same k key then erase m key else (k, v) ∷ erase m key

  unfoldable pub put : List (K × V) → K → V → List (K × V)
  put m key v = (key, v) ∷ erase m key

pub record Options : Type 0 where
  pub wallet : List ℕ
  pub worker : List ℕ
  pub password : List ℕ
  pub user_agent : List ℕ

pub record PendingSubmit : Type 0 where
  pub nonce : ℕ
  pub sent_at : ℕ

pub record Session (F : Type 0) : Type 0 where
  pub connected : Bool
  pub use_object_submit : Bool
  pub pearl_v1 : Bool
  pub request_id : ℕ
  pub last_difficulty : F
  pub challenge_resp_ids : List ℕ
  pub pending : List (ℕ × PendingSubmit)
  pub sigma_jobs : List (List ℕ × List ℕ)
  pub job_received_at : List (List ℕ × ℕ)
  pub job_cert_version : List (List ℕ × ℕ)
  pub current_job_id : List ℕ

pub data SubmitResult : Type 0 where
  submit_sent submit_superseded submit_not_connected submit_failed : SubmitResult

pub data ShareDropKind : Type 0 where
  missing_sigma_context verify_failed vardiff_tightened no_job_id build_failed send_failed :
      ShareDropKind
  superseded_job pool_ack_timeout connection_lost : ShareDropKind

-- What the client does besides changing its state: the lines that it hands to the socket, the calls of
-- its callbacks, and the reports on shares, with the nonce and the id of their request.
pub data Effect : Type 0 where
  submit_wire : ℕ → ℕ → Effect
  send_line : List ℕ → Effect
  share_drop : ShareDropKind → ℕ → ℕ → Effect
  share_callback : Bool → List ℕ → Effect
  pool_response : Bool → ℕ → ℕ → Effect
  job_callback : JobAssignment → List ℕ → Effect
  vardiff_callback : ℕ → Effect

unfoldable pub drops_of : ShareDropKind → List (ℕ × PendingSubmit) → List Effect
drops_of kind [] = []
drops_of kind ((id, p) ∷ ps) = share_drop kind p.nonce id ∷ drops_of kind ps

abbrev pub ack_timeout : ℕ
ack_timeout = 45_000_000_000

unfoldable pub is_stale : ℕ → PendingSubmit → Bool
is_stale now p = leb ack_timeout (now - p.sent_at)

-- The loop of flush_stale_pending_submits: what is stale, and what is kept.
unfoldable pub split_stale :
    ℕ → List (ℕ × PendingSubmit) → List (ℕ × PendingSubmit) × List (ℕ × PendingSubmit)
split_stale now [] = ([], [])
split_stale now ((id, p) ∷ ps) =
    let (stale, kept) = split_stale now ps in
    if is_stale now p then ((id, p) ∷ stale, kept) else (stale, (id, p) ∷ kept)

module _ {F : Type 0} where
  -- The line of mining.submit, in its two forms.
  unfoldable pub submit_line : Options → Session F → ℕ → List ℕ → List ℕ → List ℕ
  submit_line opts s id job_id proof_bytes =
      let b64 = base64_encode proof_bytes in
      let user = opts.wallet ++ (b'.' ∷ opts.worker) in
      let head =
        text "{\"id\":" ++ (decimal id ++ text ",\"method\":\"mining.submit\",\"params\":") in
      if s.use_object_submit
      then head
        ++ (text "{\"job_id\":\""
            ++ (json_escape job_id ++ (text "\",\"plain_proof\":\"" ++ (b64 ++ text "\"}}"))))
      else head
        ++ (text "[\""
            ++ (json_escape user
                ++ (text "\",\""
                    ++ (json_escape job_id ++ (text "\",\"" ++ (b64 ++ text "\"]}"))))))

  -- `superseded` of submit_plain_proof.
  unfoldable pub is_superseded : Session F → List ℕ → Bool
  is_superseded s job_id =
      not (same_text s.current_job_id []) && not (same_text job_id s.current_job_id)

  -- `sent` says whether the socket takes the line. A nonce of 0 is not waited for.
  unfoldable pub submit_plain_proof :
      Options → Session F → ℕ → Bool → List ℕ → List ℕ → ℕ → SubmitResult × Session F × List Effect
  submit_plain_proof opts s now sent job_id proof_bytes nonce =
      let id = suc s.request_id in
      let waiting = put ◌==◌ s.pending id (record { nonce = nonce; sent_at = now }) in
      let s' = record s { request_id = id; pending = if nonce == 0 then s.pending else waiting } in
      let wire = submit_wire nonce id ∷ send_line (submit_line opts s id job_id proof_bytes) ∷ [] in
      if not s.connected
      then (submit_not_connected, s, [])
      else if is_superseded s job_id
      then (submit_superseded, s, share_drop superseded_job nonce 0 ∷ [])
      else if not sent
      then (submit_failed, s', wire ++ (share_drop send_failed nonce id ∷ []))
      else (submit_sent, s', wire)

  unfoldable pub flush_all_pending_submits : Session F → Session F × List Effect
  flush_all_pending_submits s = (record s { pending = [] }, drops_of connection_lost s.pending)

  unfoldable pub flush_stale_pending_submits : ℕ → Session F → Session F × List Effect
  flush_stale_pending_submits now s =
      let (stale, kept) = split_stale now s.pending in
      (record s { pending = kept }, drops_of pool_ack_timeout stale)

  -- disconnect; the thread that it joins and the socket that it closes are not modelled.
  unfoldable pub disconnect : Session F → Session F × List Effect
  disconnect s =
      let (s', effects) = flush_all_pending_submits s in (record s' { connected = false }, effects)
