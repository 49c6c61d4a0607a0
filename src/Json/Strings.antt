-- ===== src/Json/Strings.antt =====
-- The parser reads back the strings of the serializer.
use prop_miner.Base.{
  ℕ, zero, suc, ◌≤◌, ◌≡◌, refl, ap, ◌∙◌, inl, inr, Bool-cases, List, [], ◌∷◌, ◌++◌, append_assoc,
  arith, ◌==◌, length, length-append,
}
use prop_miner.Json.{
  escape_char, escape_chars, escape_json_string, unescape_char, string_loop, parse_string,
}

-- One character, escaped or not, takes one round, where something stands behind it.
escape_char_step :
    (rounds c : ℕ) (t : List ℕ)
    → 1 ≤ length t
    → string_loop (suc rounds) (escape_char c ++ t)
      ≡ (c ∷ (string_loop rounds t).0, (string_loop rounds t).1)
unfolding escape_char string_loop unescape_char
escape_char_step rounds c [] h = absurd (omega arith)
escape_char_step rounds c (x ∷ xs) h = elim (Bool-cases (c == 34)) [
  | inl quote ↦ let e : c ≡ 34 = ground arith in rw e refl
  | inr _ ↦ elim (Bool-cases (c == 92)) [
    | inl slash ↦ let e : c ≡ 92 = ground arith in rw e refl
    | inr _ ↦ elim (Bool-cases (c == 10)) [
      | inl line ↦ let e : c ≡ 10 = ground arith in rw e refl
      | inr _ ↦ elim (Bool-cases (c == 13)) [
        | inl return ↦ let e : c ≡ 13 = ground arith in rw e refl
        | inr _ ↦ elim (Bool-cases (c == 9)) [
          | inl tab ↦ let e : c ≡ 9 = ground arith in rw e refl
          | inr _ ↦ ground arith
        ]
      ]
    ]
  ]
]

escape_char_len : (c : ℕ) → 1 ≤ length (escape_char c)
unfolding escape_char
escape_char_len c = ground arith

-- The text behind a string, from its closing quote on.
string_loop-escape_chars :
    (s rest : List ℕ) (rounds : ℕ)
    → length (escape_chars s ++ (34 ∷ rest)) ≤ rounds
    → string_loop rounds (escape_chars s ++ (34 ∷ rest)) ≡ (s, 34 ∷ rest)
unfolding escape_chars string_loop
string_loop-escape_chars [] rest zero h = refl
string_loop-escape_chars [] [] (suc rounds) h = refl
string_loop-escape_chars [] (r ∷ rest) (suc rounds) h = refl
string_loop-escape_chars (c ∷ s) rest zero h = absurd (
    omega (
      arith,
      escape_char_len c,
      length-append (escape_char c) (escape_chars s),
      length-append (escape_char c ++ escape_chars s) (34 ∷ rest),
    ))
string_loop-escape_chars (c ∷ s) rest (suc rounds) h =
    let tail = escape_chars s ++ (34 ∷ rest) in
    let joined = append_assoc (escape_char c) (escape_chars s) (34 ∷ rest) in
    let size = length-append (escape_char c) tail in
    let behind = length-append (escape_chars s) (34 ∷ rest) in
    let whole : length ((escape_char c ++ escape_chars s) ++ (34 ∷ rest))
        ≡ length (escape_char c ++ tail) =
      ap length joined in
    let ih =
      string_loop-escape_chars s rest rounds (omega (arith, size, whole, escape_char_len c)) in
    ap (string_loop (suc rounds)) joined
    ∙ escape_char_step rounds c tail (omega (arith, behind))
    ∙ ap (λ (p : List ℕ × List ℕ). (c ∷ p.0, p.1)) ih

-- A string is read back from what `escape_json_string` writes, whatever its characters are, and the
-- parser stops behind the closing quote.
pub parse_string-escape_json_string :
    (s rest : List ℕ) → parse_string (escape_json_string s ++ rest) ≡ (s, rest)
unfolding parse_string escape_json_string
parse_string-escape_json_string s rest =
    let joined = append_assoc (escape_chars s) (34 ∷ []) rest in
    let read =
      string_loop-escape_chars s rest (length (escape_chars s ++ (34 ∷ rest))) (omega arith) in
    rw (joined, read) refl
