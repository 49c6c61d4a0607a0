-- ===== src/Json/Parser.antt =====
-- src/host/stratum/simple_json.cpp, class JsonParser. std::stod is a parameter that has no value where
-- it throws. A value nests at most as deep as the input is long, which is the fuel of `parse`.
use prop_miner.Base.{
  ℕ, zero, suc, ◌-◌, Bool, true, false, ◌&&◌, ◌||◌, Option, none, some, List, [], ◌∷◌, leb, ◌==◌,
  if◌then◌else◌, length, take, drop,
}
use prop_miner.Json.{skip_ws, parse_string}
use prop_miner.Json.Value.{
  JsonValue, json_null, json_bool, json_number, json_string, json_array, json_object, JsonItems,
  no_items, item, JsonPairs, no_pairs, pair,
}

-- What a parsing function gives: a value and the input behind it, the exception of std::stod, or
-- `stuck` when the model has used up its fuel.
pub data Parsed (A : Type 0) : Type 0 where
  parsed : A → List ℕ → Parsed A
  throws : Parsed A
  stuck : Parsed A

infixl 5 ◌>>=◌
unfoldable pub ◌>>=◌ : {A B : Type 0} → Parsed A → (A → List ℕ → Parsed B) → Parsed B
parsed a rest >>= f = f a rest
throws >>= f = throws
stuck >>= f = stuck

unfoldable pub peek : List ℕ → ℕ
peek [] = 0
peek (c ∷ cs) = c

unfoldable pub is_digit : ℕ → Bool
is_digit c = leb 48 c && leb c 57

unfoldable pub skip_digits : List ℕ → List ℕ
skip_digits [] = []
skip_digits (c ∷ cs) = if is_digit c then skip_digits cs else c ∷ cs

unfoldable pub skip_if : (ℕ → Bool) → List ℕ → List ℕ
skip_if p [] = []
skip_if p (c ∷ cs) = if p c then cs else c ∷ cs

-- The fraction and the exponent of a number, each where it is there.
unfoldable pub skip_fraction : List ℕ → List ℕ
skip_fraction [] = []
skip_fraction (c ∷ cs) = if c == b'.' then skip_digits cs else c ∷ cs

unfoldable pub skip_exponent : List ℕ → List ℕ
skip_exponent [] = []
skip_exponent (c ∷ cs) =
    if c == b'e' || c == b'E'
    then skip_digits (skip_if (λ x. x == b'+' || x == b'-') cs)
    else c ∷ cs

unfoldable pub number_end : List ℕ → List ℕ
number_end cs = skip_exponent (skip_fraction (skip_digits (skip_if (λ x. x == b'-') cs)))

module _ {F : Type 0} where
  -- The position may pass the end of the input.
  unfoldable pub parse_bool : List ℕ → Parsed (JsonValue F)
  parse_bool cs =
      if peek cs == b't'
      then parsed (json_bool true) (drop 4 cs)
      else parsed (json_bool false) (drop 5 cs)

  unfoldable pub parse_null : List ℕ → Parsed (JsonValue F)
  parse_null cs = parsed json_null (drop 4 cs)

-- The loops of `parse_array` and `parse_object` over their parser of values.
module _ {F : Type 0} (value : List ℕ → Parsed (JsonValue F)) where
  unfoldable pub array_loop : ℕ → List ℕ → Parsed (JsonItems F)
  array_loop zero cs = stuck
  array_loop (suc rounds) cs = value cs >>= (λ v rest. elim (peek (skip_ws rest) == b',') [
    | true ↦
        array_loop rounds (skip_ws (drop 1 (skip_ws rest)))
        >>= (λ vs behind. parsed (item v vs) behind)
    | false ↦ parsed (item v no_items) (drop 1 (skip_ws rest))
  ])

  unfoldable pub parse_array : List ℕ → Parsed (JsonValue F)
  parse_array cs =
      let inside = skip_ws (drop 1 cs) in
      elim (peek inside == b']') [
        | true ↦ parsed (json_array no_items) (drop 1 inside)
        | false ↦
            array_loop (suc (length inside)) inside >>= (λ vs rest. parsed (json_array vs) rest)
      ]

  unfoldable pub object_loop : ℕ → List ℕ → Parsed (JsonPairs F)
  object_loop zero cs = stuck
  object_loop (suc rounds) cs =
      let key = parse_string (skip_ws cs) in
      value (skip_if (λ c. c == b':') (skip_ws key.1)) >>= (λ v rest.
        elim (peek (skip_ws rest) == b',') [
          | true ↦
              object_loop rounds (skip_ws (drop 1 (skip_ws rest)))
              >>= (λ ps behind. parsed (pair key.0 v ps) behind)
          | false ↦ parsed (pair key.0 v no_pairs) (drop 1 (skip_ws rest))
        ])

  unfoldable pub parse_object : List ℕ → Parsed (JsonValue F)
  parse_object cs =
      let inside = skip_ws (drop 1 cs) in
      elim (peek inside == b'}') [
        | true ↦ parsed (json_object no_pairs) (drop 1 inside)
        | false ↦
            object_loop (suc (length inside)) inside >>= (λ ps rest. parsed (json_object ps) rest)
      ]

module _ {F : Type 0} (stod : List ℕ → Option F) where
  unfoldable pub parse_number : List ℕ → Parsed (JsonValue F)
  parse_number cs =
      let rest = number_end cs in
      elim (stod (take (length cs - length rest) cs)) [
        | none ↦ throws
        | some v ↦ parsed (json_number v) rest
      ]

  -- The dispatch of `parse_value` on the first character.
  unfoldable pub value_at : (List ℕ → Parsed (JsonValue F)) → List ℕ → Parsed (JsonValue F)
  value_at value [] = parsed json_null []
  value_at value (c ∷ cs) = elim (c == 34) [
    | true ↦ let s = parse_string (c ∷ cs) in parsed (json_string s.0) s.1
    | false ↦ elim (c == b'{') [
      | true ↦ parse_object value (c ∷ cs)
      | false ↦ elim (c == b'[') [
        | true ↦ parse_array value (c ∷ cs)
        | false ↦ elim (c == b't' || c == b'f') [
          | true ↦ parse_bool (c ∷ cs)
          | false ↦ elim (c == b'n') [ true ↦ parse_null (c ∷ cs) | false ↦ parse_number (c ∷ cs) ]
        ]
      ]
    ]
  ]

  unfoldable pub parse_value : ℕ → List ℕ → Parsed (JsonValue F)
  parse_value zero cs = stuck
  parse_value (suc fuel) cs = value_at (parse_value fuel) (skip_ws cs)

  -- `JsonValue::parse`, of the whole input.
  unfoldable pub parse : List ℕ → Parsed (JsonValue F)
  parse input = parse_value (suc (length input)) (skip_ws input)
