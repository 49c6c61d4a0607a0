-- ===== src/Stratum/Jobs.antt =====
-- The jobs of pearl_stratum_client.cpp: make_job, and the look-ups of a job by its header and its id.
use prop_miner.Base.{
  ℕ, Bool, Option, none, some, List, [], leb, ◌==◌, if◌then◌else◌, length, take, replicate,
}
use prop_miner.Target.{
  bytes_to_hex, difficulty_to_nbits_pdif, hex_target_to_nbits, network_nbits_from_sigma,
}
use prop_miner.Json.Value.{same_text}
use prop_miner.Stratum.{hex_to_bytes, job_id_bytes, lower_text}
use prop_miner.Stratum.Session.{Session, find, put}
use prop_miner.Wire.Events.{JobAssignment, sigma_header_bytes}

-- What the client asks of double and of the C library, and the difficulty that the environment sets.
-- `scaled d` is (uint64_t)(d * 1e6), and `to_int32 d` is (int)(int64_t)d.
pub record Numbers (F : Type 0) : Type 0 where
  pub is_positive : F → Bool
  pub scaled : F → ℕ
  pub to_int32 : F → ℕ
  pub to_int64 : F → ℕ
  pub atof : List ℕ → F
  pub strtol : List ℕ → Option ℕ
  pub default_difficulty : F

module _ {F : Type 0} (numbers : Numbers F) where
  unfoldable pub effective_share_difficulty : Session F → F
  effective_share_difficulty s =
      if numbers.is_positive s.last_difficulty
      then s.last_difficulty
      else numbers.default_difficulty

  unfoldable pub share_target_nbits : Session F → ℕ
  share_target_nbits s = difficulty_to_nbits_pdif (numbers.scaled (effective_share_difficulty s))

  -- The share target of a job: the pool's target, where it gives one that is not 0.
  unfoldable pub job_target_nbits : Session F → List ℕ → ℕ
  job_target_nbits s target_hex =
      let wire_nbits = hex_target_to_nbits target_hex in
      if same_text target_hex []
      then share_target_nbits s
      else if wire_nbits == 0
      then share_target_nbits s
      else wire_nbits

  unfoldable pub job_sigma : List ℕ → List ℕ
  job_sigma header_hex =
      let sigma = hex_to_bytes header_hex in
      if leb sigma_header_bytes (length sigma)
      then take sigma_header_bytes sigma
      else replicate sigma_header_bytes 0

  -- `make_job` at the time `now`.
  unfoldable pub make_job :
      ℕ → Session F → List ℕ → List ℕ → List ℕ → ℕ → ℕ → JobAssignment × Session F
  make_job now s job_id header_hex target_hex height cert_version =
      let sigma = job_sigma header_hex in
      let network = network_nbits_from_sigma sigma in
      (
        record {
          job_id = job_id_bytes job_id;
          sigma = sigma;
          target_nbits = job_target_nbits s target_hex;
          network_target_nbits = if network == 0 then share_target_nbits s else network;
          block_height = height;
          protocol_version = 2;
          b_seed = replicate 32 0;
          audit_k = 0;
        },
        record s {
          sigma_jobs = put same_text s.sigma_jobs (lower_text header_hex) job_id;
          job_received_at = put same_text s.job_received_at job_id now;
          job_cert_version = put same_text s.job_cert_version job_id cert_version;
          current_job_id = job_id;
        },
      )

module _ {F : Type 0} where
  -- The id of a job by its header, or the first 32 digits of the header.
  unfoldable pub job_id_for_sigma : Session F → List ℕ → List ℕ
  job_id_for_sigma s sigma =
      let hex = bytes_to_hex sigma in
      elim (find same_text s.sigma_jobs hex) [ some job_id ↦ job_id | none ↦ take 32 hex ]

  unfoldable pub cert_version_for_job : Session F → List ℕ → ℕ
  cert_version_for_job s job_id = elim (find same_text s.job_cert_version job_id) [
    | some version ↦ version
    | none ↦ 1
  ]
