-- ===== src/Json/Ends.antt =====
-- The parser of simple_json.cpp ends: it gives a value or throws, and never goes back in its input.
use prop_miner.Base.{
  ℕ, zero, suc, ◌-◌, ◌≤◌, ◌<◌, ◌≡◌, ◌⊎◌, refl, inl, inr, Bool, true, Bool-cases, Option,
  Option-cases, List, [], ◌∷◌, arith, length, take, drop, length-drop, ◌==◌, ◌||◌,
}
use prop_miner.Json.{skip_ws, string_loop, parse_string}
use prop_miner.Json.Value.{JsonValue}
use prop_miner.Json.Parser.{
  Parsed, parsed, throws, stuck, ◌>>=◌, peek, skip_digits, skip_if, skip_fraction, skip_exponent,
  number_end, parse_number, parse_bool, parse_null, array_loop, parse_array, object_loop,
  parse_object, value_at, parse_value, parse,
}

-- Not stuck, with at most `n` characters left.
unfoldable pub Ends : {A : Type 0} → ℕ → Parsed A → Type 0
Ends n (parsed a rest) = length rest ≤ n
Ends n throws = Unit
Ends n stuck = ⊥

Ends->>= :
    {A B : Type 0} (n m : ℕ) (p : Parsed A) (f : A → List ℕ → Parsed B)
    → Ends n p
    → ((a : A) (rest : List ℕ) → length rest ≤ n → Ends m (f a rest))
    → Ends m (p >>= f)
unfolding Ends ◌>>=◌
Ends->>= n m (parsed a rest) f h k = k a rest h
Ends->>= n m throws f h k = tt
Ends->>= n m stuck f h k = absurd h

skip_ws_le : (cs : List ℕ) → length (skip_ws cs) ≤ length cs
unfolding skip_ws
skip_ws_le [] = omega arith
skip_ws_le (c ∷ cs) = ground (arith, skip_ws_le cs)

skip_if_le : (p : ℕ → Bool) (cs : List ℕ) → length (skip_if p cs) ≤ length cs
unfolding skip_if
skip_if_le p [] = omega arith
skip_if_le p (c ∷ cs) = ground arith

skip_digits_le : (cs : List ℕ) → length (skip_digits cs) ≤ length cs
unfolding skip_digits
skip_digits_le [] = omega arith
skip_digits_le (c ∷ cs) = ground (arith, skip_digits_le cs)

skip_fraction_le : (cs : List ℕ) → length (skip_fraction cs) ≤ length cs
unfolding skip_fraction
skip_fraction_le [] = omega arith
skip_fraction_le (c ∷ cs) = ground (arith, skip_digits_le cs)

skip_exponent_le : (cs : List ℕ) → length (skip_exponent cs) ≤ length cs
unfolding skip_exponent
skip_exponent_le [] = omega arith
skip_exponent_le (c ∷ cs) = ground (
  arith,
  skip_digits_le (skip_if (λ x. x == b'+' || x == b'-') cs),
  skip_if_le (λ x. x == b'+' || x == b'-') cs,
)

number_end_le : (cs : List ℕ) → length (number_end cs) ≤ length cs
unfolding number_end
number_end_le cs =
    let a = skip_if (λ x. x == b'-') cs in
    omega (
      arith,
      skip_if_le (λ x. x == b'-') cs,
      skip_digits_le a,
      skip_fraction_le (skip_digits a),
      skip_exponent_le (skip_fraction (skip_digits a)),
    )

string_loop_le : (rounds : ℕ) (cs : List ℕ) → length (string_loop rounds cs).1 ≤ length cs
unfolding string_loop
string_loop_le zero cs = omega arith
string_loop_le (suc rounds) [] = omega arith
string_loop_le (suc rounds) (c ∷ []) = ground arith
string_loop_le (suc rounds) (c ∷ e ∷ cs) = ground (
  arith,
  string_loop_le rounds (e ∷ cs),
  string_loop_le rounds cs,
  string_loop_le rounds (drop 4 cs),
  length-drop 4 cs,
)

parse_string_le : (cs : List ℕ) → length (parse_string cs).1 ≤ length cs - 1
unfolding parse_string
parse_string_le cs =
    let opened = drop 1 cs in
    let loop = string_loop (length opened) opened in
    omega (arith, length-drop 1 cs, string_loop_le (length opened) opened, length-drop 1 loop.1)

peek_le : (cs : List ℕ) (c : ℕ) → (peek cs == suc c) ≡ true → 1 ≤ length cs
unfolding peek
peek_le [] c h = ground arith
peek_le (x ∷ cs) c h = omega arith

-- Behind a comma the input is shorter.
comma_le :
    (rest : List ℕ)
    → (peek (skip_ws rest) == b',') ≡ true
    → suc (length (skip_ws (drop 1 (skip_ws rest)))) ≤ length rest
comma_le rest h = omega (
  arith,
  peek_le (skip_ws rest) 43 h,
  skip_ws_le rest,
  length-drop 1 (skip_ws rest),
  skip_ws_le (drop 1 (skip_ws rest)),
)

closed_le : (rest : List ℕ) → length (drop 1 (skip_ws rest)) ≤ length rest
closed_le rest = omega (arith, skip_ws_le rest, length-drop 1 (skip_ws rest))

Ends-weaken : {A : Type 0} (n m : ℕ) (p : Parsed A) → n ≤ m → Ends n p → Ends m p
unfolding Ends
Ends-weaken n m (parsed a rest) le h = omega arith
Ends-weaken n m throws le h = tt
Ends-weaken n m stuck le h = h

module _ {F : Type 0} (value : List ℕ → Parsed (JsonValue F)) (n : ℕ)
    (value_ends : (cs : List ℕ) → length cs ≤ n → Ends (length cs) (value cs)) where
  array_loop-Ends :
      (rounds : ℕ) (cs : List ℕ)
      → length cs ≤ n
      → length cs < rounds
      → Ends (length cs) (array_loop value rounds cs)
  unfolding array_loop
  array_loop-Ends zero cs h k = absurd (omega arith)
  array_loop-Ends (suc rounds) cs h k =
      Ends->>= (length cs) (length cs) (value cs) _ (value_ends cs h) (λ v rest le.
        elim (Bool-cases (peek (skip_ws rest) == b',')) [
          | inl e ↦
              let short = comma_le rest e in
              let inner =
                array_loop-Ends rounds (skip_ws (drop 1 (skip_ws rest))) (omega (arith, short))
                  (omega (arith, short)) in
              rw e (
                Ends->>= _ (length cs) _ _ inner
                  (λ vs behind le'. unfold Ends in omega (arith, short)))
          | inr e ↦ rw e (unfold Ends in omega (arith, closed_le rest))
        ])

  object_loop-Ends :
      (rounds : ℕ) (cs : List ℕ)
      → length cs ≤ n
      → length cs < rounds
      → Ends (length cs) (object_loop value rounds cs)
  unfolding object_loop
  object_loop-Ends zero cs h k = absurd (omega arith)
  object_loop-Ends (suc rounds) cs h k =
      let key = parse_string (skip_ws cs) in
      let at = skip_if (λ c. c == b':') (skip_ws key.1) in
      let less : length at ≤ length cs = omega (
        arith,
        skip_ws_le cs,
        parse_string_le (skip_ws cs),
        skip_ws_le key.1,
        skip_if_le (λ c. c == b':') (skip_ws key.1),
      ) in
      Ends->>= (length at) (length cs) (value at) _ (value_ends at (omega (arith, less)))
        (λ v rest le. elim (Bool-cases (peek (skip_ws rest) == b',')) [
          | inl e ↦
              let short = comma_le rest e in
              let inner =
                object_loop-Ends rounds (skip_ws (drop 1 (skip_ws rest)))
                  (omega (arith, short, less)) (omega (arith, short, less)) in
              rw e (
                Ends->>= _ (length cs) _ _ inner
                  (λ ps behind le'. unfold Ends in omega (arith, short, less)))
          | inr e ↦ rw e (unfold Ends in omega (arith, closed_le rest, less))
        ])

  parse_array-Ends : (cs : List ℕ) → length cs ≤ suc n → Ends (length cs) (parse_array value cs)
  unfolding parse_array
  parse_array-Ends cs h =
      let inside = skip_ws (drop 1 cs) in
      let less : length inside ≤ length cs - 1 =
        omega (arith, length-drop 1 cs, skip_ws_le (drop 1 cs)) in
      elim (Bool-cases (peek inside == b']')) [
        | inl e ↦ rw (e, parse_array) (unfold Ends in omega (arith, less, length-drop 1 inside))
        | inr e ↦
            rw (e, parse_array)
              (Ends->>= (length inside) (length cs) _ _
                (array_loop-Ends (suc (length inside)) inside (omega (arith, less)) (omega arith))
                (λ vs rest le. unfold Ends in omega (arith, less)))
      ]

  parse_object-Ends : (cs : List ℕ) → length cs ≤ suc n → Ends (length cs) (parse_object value cs)
  unfolding parse_object
  parse_object-Ends cs h =
      let inside = skip_ws (drop 1 cs) in
      let less : length inside ≤ length cs - 1 =
        omega (arith, length-drop 1 cs, skip_ws_le (drop 1 cs)) in
      elim (Bool-cases (peek inside == b'}')) [
        | inl e ↦ rw (e, parse_object) (unfold Ends in omega (arith, less, length-drop 1 inside))
        | inr e ↦
            rw (e, parse_object)
              (Ends->>= (length inside) (length cs) _ _
                (object_loop-Ends (suc (length inside)) inside (omega (arith, less)) (omega arith))
                (λ ps rest le. unfold Ends in omega (arith, less)))
      ]

module _ {F : Type 0} (stod : List ℕ → Option F) where
  parse_number-Ends : (cs : List ℕ) → Ends (length cs) (parse_number stod cs)
  unfolding parse_number Ends
  parse_number-Ends cs = elim (Option-cases (stod (take (length cs - length (number_end cs)) cs))) [
    | inl e ↦ rw (e, parse_number) tt
    | inr (v, e) ↦ rw (e, parse_number) (number_end_le cs)
  ]

  parse_bool-Ends : (cs : List ℕ) → Ends (length cs) (parse_bool {F = F} cs)
  unfolding parse_bool Ends
  parse_bool-Ends cs = ground (arith, length-drop 4 cs, length-drop 5 cs)

  parse_null-Ends : (cs : List ℕ) → Ends (length cs) (parse_null {F = F} cs)
  unfolding parse_null Ends
  parse_null-Ends cs = omega (arith, length-drop 4 cs)

  value_at-Ends :
      (value : List ℕ → Parsed (JsonValue F)) (n : ℕ)
      → ((cs : List ℕ) → length cs ≤ n → Ends (length cs) (value cs))
      → (cs : List ℕ) → length cs ≤ suc n
      → Ends (length cs) (value_at stod value cs)
  unfolding value_at
  value_at-Ends value n h [] le = unfold Ends in omega arith
  value_at-Ends value n h (c ∷ cs) le = elim (Bool-cases (c == 34)) [
    | inl e ↦ rw (e, value_at) (unfold Ends in omega (arith, parse_string_le (c ∷ cs)))
    | inr e ↦ elim (Bool-cases (c == b'{')) [
      | inl e1 ↦ rw (e, e1, value_at) (parse_object-Ends value n h (c ∷ cs) le)
      | inr e1 ↦ elim (Bool-cases (c == b'[')) [
        | inl e2 ↦ rw (e, e1, e2, value_at) (parse_array-Ends value n h (c ∷ cs) le)
        | inr e2 ↦ elim (Bool-cases (c == b't' || c == b'f')) [
          | inl e3 ↦ rw (e, e1, e2, e3, value_at) (parse_bool-Ends (c ∷ cs))
          | inr e3 ↦ elim (Bool-cases (c == b'n')) [
            | inl e4 ↦ rw (e, e1, e2, e3, e4, value_at) (parse_null-Ends (c ∷ cs))
            | inr e4 ↦ rw (e, e1, e2, e3, e4, value_at) (parse_number-Ends (c ∷ cs))
          ]
        ]
      ]
    ]
  ]

  parse_value-Ends :
      (fuel : ℕ) (cs : List ℕ) → length cs < fuel → Ends (length cs) (parse_value stod fuel cs)
  unfolding parse_value
  parse_value-Ends zero cs h = absurd (omega arith)
  parse_value-Ends (suc zero) [] h = unfold Ends skip_ws value_at in omega arith
  parse_value-Ends (suc zero) (c ∷ cs) h = absurd (omega arith)
  parse_value-Ends (suc (suc fuel)) cs h =
      Ends-weaken (length (skip_ws cs)) (length cs)
        (value_at stod (parse_value stod (suc fuel)) (skip_ws cs)) (skip_ws_le cs)
        (value_at-Ends (parse_value stod (suc fuel)) fuel
          (λ cs' le. parse_value-Ends (suc fuel) cs' (omega arith)) (skip_ws cs)
          (omega (arith, skip_ws_le cs)))

  -- Whatever the input is, and whatever std::stod accepts, the parser comes back: with a value, and
  -- then no more input than it was given is left, or with the exception of std::stod.
  pub parse-Ends : (input : List ℕ) → Ends (length input) (parse stod input)
  unfolding parse
  parse-Ends input =
      Ends-weaken _ (length input) _ (skip_ws_le input)
        (parse_value-Ends (suc (length input)) (skip_ws input) (omega (arith, skip_ws_le input)))

  end-cases :
      (n : ℕ) (p : Parsed (JsonValue F))
      → Ends n p
      → ((j : JsonValue F) × (rest : List ℕ) × (p ≡ parsed j rest)) ⊎ (p ≡ throws)
  unfolding Ends
  end-cases n (parsed j rest) h = inl (j, rest, refl)
  end-cases n throws h = inr refl
  end-cases n stuck h = absurd h

  pub parse-cases :
      (input : List ℕ)
      → ((j : JsonValue F) × (rest : List ℕ) × (parse stod input ≡ parsed j rest))
        ⊎ (parse stod input ≡ throws)
  parse-cases input = end-cases (length input) (parse stod input) (parse-Ends input)
