-- ===== src/Json.antt =====
-- src/host/stratum/simple_json.cpp: the strings of the serializer and the parser. The parser stands at
-- the characters from its position to the end of the input.
pub mod Strings
pub mod Value
pub mod Parser
pub mod Ends
mod Runs
use prop_miner.Base.{
  ℕ, zero, suc, Bool, true, false, ◌||◌, List, [], ◌∷◌, ◌++◌, ◌==◌, if◌then◌else◌, length, drop,
}

-- The switch of `escape_json_string`: 34 is the quote, 92 the backslash.
unfoldable pub escape_char : ℕ → List ℕ
escape_char c =
    if c == 34
    then 92 ∷ 34 ∷ []
    else if c == 92
    then 92 ∷ 92 ∷ []
    else if c == 10
    then 92 ∷ b'n' ∷ []
    else if c == 13
    then 92 ∷ b'r' ∷ []
    else if c == 9
    then 92 ∷ b't' ∷ []
    else c ∷ []

unfoldable pub escape_chars : List ℕ → List ℕ
escape_chars [] = []
escape_chars (c ∷ s) = escape_char c ++ escape_chars s

unfoldable pub escape_json_string : List ℕ → List ℕ
escape_json_string s = 34 ∷ (escape_chars s ++ (34 ∷ []))

-- `JsonParser::skip_ws`.
unfoldable pub skip_ws : List ℕ → List ℕ
skip_ws [] = []
skip_ws (c ∷ cs) = if c == 32 || (c == 9 || (c == 10 || c == 13)) then skip_ws cs else c ∷ cs

-- The switch over the character behind a backslash, without its case for u.
unfoldable pub unescape_char : ℕ → ℕ
unescape_char esc =
    if esc == b'n'
    then 10
    else if esc == b'r'
    then 13
    else if esc == b't'
    then 9
    else if esc == b'b'
    then 8
    else if esc == b'f'
    then 12
    else esc

-- The loop of `parse_string`, on one round for each character: what it has read, and what is left. A
-- backslash at the end of the input reads a 0, and the four digits behind \u are skipped.
unfoldable pub string_loop : ℕ → List ℕ → List ℕ × List ℕ
string_loop zero cs = ([], cs)
string_loop (suc rounds) [] = ([], [])
string_loop (suc rounds) (c ∷ []) =
    if c == 34 then ([], c ∷ []) else if c == 92 then (0 ∷ [], []) else (c ∷ [], [])
string_loop (suc rounds) (c ∷ e ∷ cs) =
    let plain = string_loop rounds (e ∷ cs) in
    let escaped = string_loop rounds cs in
    let unicode = string_loop rounds (drop 4 cs) in
    if c == 34
    then ([], c ∷ e ∷ cs)
    else if c == 92
    then (if e == b'u'
        then (b'?' ∷ unicode.0, unicode.1)
        else (unescape_char e ∷ escaped.0, escaped.1))
    else (c ∷ plain.0, plain.1)

-- The opening quote goes before the loop, and one character behind it, if there is one.
unfoldable pub parse_string : List ℕ → List ℕ × List ℕ
parse_string input =
    let opened = drop 1 input in
    let (s, rest) = string_loop (length opened) opened in (s, drop 1 rest)
