-- ===== src/Stratum/Client.antt =====
-- The constructor of PearlStratumClient and parse_password_difficulty, in pearl_stratum_client.cpp.
-- The line that it logs, with the build, is not modelled.
use prop_miner.Base.{
  ℕ, Bool, true, false, ◌||◌, ◌&&◌, Option, none, some, List, [], ◌∷◌, ◌==◌, if◌then◌else◌,
}
use prop_miner.Stratum.Jobs.{Numbers}
use prop_miner.Stratum.Session.{Options, Session}

-- What stands behind the first `;d=`.
unfoldable pub after_key : List ℕ → Option (List ℕ)
after_key (a ∷ b ∷ c ∷ cs) =
    let rest = after_key (b ∷ c ∷ cs) in
    if a == b';' && b == b'd' && c == b'=' then some cs else rest
after_key _ = none

-- What stands behind `d=` at the beginning.
unfoldable pub after_d : List ℕ → Option (List ℕ)
after_d (a ∷ b ∷ cs) = if a == b'd' && b == b'=' then some cs else none
after_d _ = none

-- The first of the two that is there.
unfoldable pub difficulty_text : List ℕ → Option (List ℕ)
difficulty_text password = elim (after_key password) [ some t ↦ some t | none ↦ after_d password ]

-- `PROPMINER_STRATUM_OBJECT_SUBMIT`: a yes, and then a no.
unfoldable pub object_submit : Option (List ℕ) → Bool
object_submit none = true
object_submit (some []) = true
object_submit (some (c ∷ cs)) =
    if c == b'0' || c == b'n' || c == b'N' then false else c == b'1' || c == b'y' || c == b'Y'

module _ {F : Type 0} (numbers : Numbers F) where
  -- Its 0.0 is no value, since only a positive difficulty is used.
  unfoldable pub parse_password_difficulty : List ℕ → Option F
  parse_password_difficulty password = elim (difficulty_text password) [
    | none ↦ none
    | some t ↦ if numbers.is_positive (numbers.atof t) then some (numbers.atof t) else none
  ]

  -- `zero_difficulty` is 0.0, and `env_difficulty` the value of PROPMINER_STRATUM_DIFF, where it is set.
  unfoldable pub initial_difficulty : F → Option F → List ℕ → F
  initial_difficulty zero_difficulty (some d) password = d
  initial_difficulty zero_difficulty none password = elim (parse_password_difficulty password) [
    | some d ↦ d
    | none ↦ zero_difficulty
  ]

  unfoldable pub new_client : F → Option F → Option (List ℕ) → Options → Session F
  new_client zero_difficulty env_difficulty env_submit opts = record {
    connected = false;
    use_object_submit = object_submit env_submit;
    pearl_v1 = false;
    request_id = 1;
    last_difficulty = initial_difficulty zero_difficulty env_difficulty opts.password;
    challenge_resp_ids = [];
    pending = [];
    sigma_jobs = [];
    job_received_at = [];
    job_cert_version = [];
    current_job_id = [];
  }
