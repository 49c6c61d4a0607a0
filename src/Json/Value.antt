-- ===== src/Json/Value.antt =====
-- src/include/simple_json.h and src/host/stratum/simple_json.cpp: the JSON values, their accessors and
-- the serializer. The type of the numbers (double) and their printer are parameters.
use prop_miner.Base.{
  ℕ, zero, suc, Bool, true, false, ◌&&◌, Option, none, some, List, [], ◌∷◌, ◌++◌, ◌==◌, ==_iff, ◌≡◌,
  refl, ap₂, arith, if◌then◌else◌, text,
}
use prop_miner.Json.{escape_json_string}

mutual
  pub data JsonValue (F : Type 0) : Type 0 where
    json_null : JsonValue F
    json_bool : Bool → JsonValue F
    json_number : F → JsonValue F
    json_string : List ℕ → JsonValue F
    json_array : JsonItems F → JsonValue F
    json_object : JsonPairs F → JsonValue F

  pub data JsonItems (F : Type 0) : Type 0 where
    no_items : JsonItems F
    item : JsonValue F → JsonItems F → JsonItems F

  pub data JsonPairs (F : Type 0) : Type 0 where
    no_pairs : JsonPairs F
    pair : List ℕ → JsonValue F → JsonPairs F → JsonPairs F

-- `==` of std::string.
unfoldable pub same_text : List ℕ → List ℕ → Bool
same_text [] [] = true
same_text [] (y ∷ ys) = false
same_text (x ∷ xs) [] = false
same_text (x ∷ xs) (y ∷ ys) = (x == y) && same_text xs ys

pub same_text-eq : (xs ys : List ℕ) → same_text xs ys ≡ true → xs ≡ ys
unfolding same_text
same_text-eq [] [] h = refl
same_text-eq [] (y ∷ ys) h = absurd (cc h)
same_text-eq (x ∷ xs) [] h = absurd (cc h)
same_text-eq (x ∷ xs) (y ∷ ys) h =
    let head : x ≡ y = ground arith in
    let tail : same_text xs ys ≡ true = ground arith in ap₂ ◌∷◌ head (same_text-eq xs ys tail)

pub same_text_self : (xs : List ℕ) → same_text xs xs ≡ true
unfolding same_text
same_text_self [] = refl
same_text_self (x ∷ xs) = rw ((==_iff x x).1 refl) (same_text_self xs)

module _ {F : Type 0} where
  unfoldable pub is_null : JsonValue F → Bool
  is_null json_null = true
  is_null _ = false

  unfoldable pub is_array : JsonValue F → Bool
  is_array (json_array vs) = true
  is_array _ = false

  -- `is_bool` with `to_bool`, and so on: to_bool of another value throws std::bad_variant_access.
  unfoldable pub to_bool : JsonValue F → Option Bool
  to_bool (json_bool b) = some b
  to_bool _ = none

  unfoldable pub to_number : JsonValue F → Option F
  to_number (json_number v) = some v
  to_number _ = none

  unfoldable pub to_text : JsonValue F → Option (List ℕ)
  to_text (json_string t) = some t
  to_text _ = none

  -- The first pair with the key, or null.
  unfoldable pub find_pair : JsonPairs F → List ℕ → JsonValue F
  find_pair no_pairs key = json_null
  find_pair (pair k v ps) key = if same_text k key then v else find_pair ps key

  -- `operator[](const std::string&)`.
  unfoldable pub field_of : JsonValue F → List ℕ → JsonValue F
  field_of (json_object ps) key = find_pair ps key
  field_of _ key = json_null

  unfoldable pub nth_item : JsonItems F → ℕ → JsonValue F
  nth_item no_items index = json_null
  nth_item (item v vs) zero = v
  nth_item (item v vs) (suc index) = nth_item vs index

  -- `operator[](size_t)`.
  unfoldable pub item_of : JsonValue F → ℕ → JsonValue F
  item_of (json_array vs) index = nth_item vs index
  item_of _ index = json_null

  unfoldable pub items_size : JsonItems F → ℕ
  items_size no_items = 0
  items_size (item v vs) = suc (items_size vs)

  unfoldable pub pairs_size : JsonPairs F → ℕ
  pairs_size no_pairs = 0
  pairs_size (pair k v ps) = suc (pairs_size ps)

  -- `JsonValue::size`.
  unfoldable pub json_size : JsonValue F → ℕ
  json_size (json_array vs) = items_size vs
  json_size (json_object ps) = pairs_size ps
  json_size _ = 0

  -- `JsonValue::push_back`.
  unfoldable pub append_item : JsonItems F → JsonValue F → JsonItems F
  append_item no_items v = item v no_items
  append_item (item w vs) v = item w (append_item vs v)

  unfoldable pub push_back : JsonValue F → JsonValue F → JsonValue F
  push_back (json_array vs) v = json_array (append_item vs v)
  push_back j v = j

  -- `JsonValue::set`: a key that is there already keeps its first value.
  unfoldable pub append_pair : JsonPairs F → List ℕ → JsonValue F → JsonPairs F
  append_pair no_pairs key v = pair key v no_pairs
  append_pair (pair k w ps) key v = pair k w (append_pair ps key v)

  unfoldable pub set_key : JsonValue F → List ℕ → JsonValue F → JsonValue F
  set_key (json_object ps) key v = json_object (append_pair ps key v)
  set_key j key v = j

-- `JsonValue::serialize`; the commas stand before all but the first.
unfoldable mutual
  pub serialize : {F : Type 0} → (F → List ℕ) → JsonValue F → List ℕ
  serialize show json_null = text "null"
  serialize show (json_bool b) = if b then text "true" else text "false"
  serialize show (json_number v) = show v
  serialize show (json_string s) = escape_json_string s
  serialize show (json_array vs) = b'[' ∷ (serialize_items show true vs ++ (b']' ∷ []))
  serialize show (json_object ps) = b'{' ∷ (serialize_pairs show true ps ++ (b'}' ∷ []))

  pub serialize_items : {F : Type 0} → (F → List ℕ) → Bool → JsonItems F → List ℕ
  serialize_items show first no_items = []
  serialize_items show first (item v vs) =
      (if first then [] else b',' ∷ []) ++ (serialize show v ++ serialize_items show false vs)

  pub serialize_pairs : {F : Type 0} → (F → List ℕ) → Bool → JsonPairs F → List ℕ
  serialize_pairs show first no_pairs = []
  serialize_pairs show first (pair k v ps) =
      (if first then [] else b',' ∷ [])
      ++ (escape_json_string k ++ (b':' ∷ (serialize show v ++ serialize_pairs show false ps)))
