-- ===== src/Stratum/Rejects.antt =====
-- parse_pool_reject of share_diagnostics.cpp, and what the share callback of worker_orchestrator.cpp
-- reads again from the text that the client gives it.
use prop_miner.Base.{
  ℕ, suc, zero, ◌⊎◌, ◌≡◌, refl, inl, inr, Bool, true, false, ◌||◌, not, Option, none, some, List,
  [], ◌∷◌, ◌++◌, Bool-cases, ◌==◌, if◌then◌else◌, text,
}
use prop_miner.Json.Value.{JsonValue, field_of, item_of, json_size, is_array, to_text, same_text}
use prop_miner.Json.Parser.{is_digit, parsed, throws, stuck, parse}
use prop_miner.Json.Ends.{parse-cases}
use prop_miner.Stratum.{lower_text}

pub data ShareRejectKind : Type 0 where
  invalid_share duplicate_share job_not_found low_difficulty unauthorized other : ShareRejectKind

pub record PoolRejectInfo : Type 0 where
  pub kind : ShareRejectKind
  pub pool_message : List ℕ
  pub raw_error : List ℕ
  pub human_summary : List ℕ

-- What stands behind a prefix.
unfoldable pub behind_prefix : List ℕ → List ℕ → Option (List ℕ)
behind_prefix [] t = some t
behind_prefix (x ∷ xs) [] = none
behind_prefix (x ∷ xs) (y ∷ ys) = if x == y then behind_prefix xs ys else none

-- What stands behind the first place of a text, by `std::string::find`.
unfoldable pub behind : List ℕ → List ℕ → Option (List ℕ)
behind key [] = behind_prefix key []
behind key (y ∷ ys) =
    let later = behind key ys in
    elim (behind_prefix key (y ∷ ys)) [ some t ↦ some t | none ↦ later ]

unfoldable pub has_text : List ℕ → List ℕ → Bool
has_text t key = elim (behind key t) [ some rest ↦ true | none ↦ false ]

unfoldable pub classify_pool_message : List ℕ → ShareRejectKind
classify_pool_message msg =
    let m = lower_text msg in
    if has_text m (text "duplicate")
    then duplicate_share
    else if has_text m (text "job not found")
        || (has_text m (text "unknown job")
            || (has_text m (text "job expired") || has_text m (text "stale")))
    then job_not_found
    else if has_text m (text "low difficulty")
        || (has_text m (text "not good enough") || has_text m (text "below target"))
    then low_difficulty
    else if has_text m (text "unauthorized") || has_text m (text "not authorized")
    then unauthorized
    else if has_text m (text "invalid share")
        || (has_text m (text "invalid proof") || has_text m (text "invalid"))
    then invalid_share
    else other

-- A long dash between spaces, in UTF-8.
abbrev dash : List ℕ
dash = 32 ∷ 226 ∷ 128 ∷ 148 ∷ 32 ∷ []

unfoldable pub human_reject_summary : ShareRejectKind → List ℕ → List ℕ
human_reject_summary invalid_share msg =
    text "REJECTED: invalid share"
    ++ (dash
        ++ text "proof failed pool verification (check GPU stability / overclock, or stale work)")
human_reject_summary duplicate_share msg =
    text "REJECTED: duplicate share" ++ (dash ++ text "pool already credited this work")
human_reject_summary job_not_found msg =
    text "REJECTED: job not found" ++ (dash ++ text "share arrived too late (stale job)")
human_reject_summary low_difficulty msg =
    text "REJECTED: below pool difficulty" ++ (dash ++ text "share did not meet target")
human_reject_summary unauthorized msg =
    text "REJECTED: unauthorized" ++ (dash ++ text "check wallet.worker and pool password")
human_reject_summary other msg =
    if not (same_text msg [])
    then text "REJECTED: " ++ msg
    else text "REJECTED: pool declined share"

-- A text of a list that is not empty and does not begin with a digit.
unfoldable pub is_message : List ℕ → Bool
is_message [] = false
is_message (c ∷ cs) = not (is_digit c)

module _ {F : Type 0} where
  -- The first such text from the place `i` on; nothing otherwise.
  unfoldable pub first_message : ℕ → ℕ → JsonValue F → List ℕ
  first_message zero i j = []
  first_message (suc n) i j =
      let later = first_message n (suc i) j in
      elim (to_text (item_of j i)) [ none ↦ later | some s ↦ if is_message s then s else later ]

  -- The message in the error of a pool; nothing where it has none.
  unfoldable pub message_in : JsonValue F → List ℕ
  message_in j = if is_array j then first_message (json_size j) 0 j else elim (to_text j) [
    | some s ↦ s
    | none ↦ elim (to_text (field_of j (text "message"))) [ some s ↦ s | none ↦ [] ]
  ]

unfoldable pub reject_info : List ℕ → List ℕ → PoolRejectInfo
reject_info err msg =
    let shown = if same_text msg [] then err else msg in
    let kind = classify_pool_message shown in
    record {
      kind = kind;
      pool_message = shown;
      raw_error = err;
      human_summary = human_reject_summary kind shown;
    }

unfoldable pub plain_reject : List ℕ → PoolRejectInfo
plain_reject err = record {
  kind = other;
  pool_message = text "rejected";
  raw_error = err;
  human_summary = human_reject_summary other (text "rejected");
}

module _ {F : Type 0} (stod : List ℕ → Option F) where
  -- `none` is the exception of the parser, which always ends.
  unfoldable pub parse_pool_reject : List ℕ → Option PoolRejectInfo
  parse_pool_reject err =
      if same_text err [] || same_text err (text "rejected")
      then some (plain_reject err)
      else elim (parse stod err) [
        | parsed j rest ↦ some (reject_info err (message_in j))
        | throws ↦ none
        | stuck ↦ none
      ]

  pub reject-cases :
      (err : List ℕ)
      → ((info : PoolRejectInfo) × (parse_pool_reject err ≡ some info))
        ⊎ ((parse_pool_reject err ≡ none) × (parse stod err ≡ throws))
  unfolding parse_pool_reject
  reject-cases err = elim (Bool-cases (same_text err [] || same_text err (text "rejected"))) [
    | inl e ↦ rw (e, parse_pool_reject) (inl (plain_reject err, refl))
    | inr e ↦ elim (parse-cases stod err) [
      | inl (j, rest, e1) ↦ inl (reject_info err (message_in j), rw (parse_pool_reject, e, e1) refl)
      | inr e1 ↦ inr (rw (parse_pool_reject, e, e1) refl, e1)
    ]
  ]

-- The text that the client gives to the share callback.
unfoldable pub reject_text : PoolRejectInfo → List ℕ
reject_text info = info.human_summary ++ (text " raw=" ++ info.raw_error)

-- The error that the callback takes from it: what stands behind the first mark.
unfoldable pub raw_of : List ℕ → List ℕ
raw_of msg = elim (behind (text " raw=") msg) [ some raw ↦ raw | none ↦ msg ]
