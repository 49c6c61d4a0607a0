-- ===== src/Json/Runs.antt =====
-- Runs of simple_json.cpp, and the theorems of Json at concrete inputs.
use prop_miner.Base.{ℕ, ◌-◌, ◌≡◌, refl, true, Option, none, some, List, [], ◌∷◌, ◌++◌, text}
use prop_miner.Json.{skip_ws, escape_json_string, parse_string, string_loop}
use prop_miner.Json.Value.{json_array, json_number, json_bool, item, no_items}
use prop_miner.Json.Parser.{
  parsed, parse, parse_value, value_at, parse_array, array_loop, parse_number, parse_bool, ◌>>=◌,
  peek, skip_if, skip_digits, skip_fraction, skip_exponent, number_end, is_digit,
}
use prop_miner.Json.Ends.{Ends, parse-Ends}
use prop_miner.Json.Strings.{parse_string-escape_json_string}

-- A quote, a line end and a letter.
abbrev odd_text : List ℕ
odd_text = 34 ∷ 10 ∷ b'a' ∷ []

unicode_test : parse_string (34 ∷ 92 ∷ text "u00e9x" ++ (34 ∷ [])) ≡ (text "?x", [])
unfolding parse_string string_loop
unicode_test = refl

parse_string_example :
    parse_string (escape_json_string odd_text ++ text ",1]") ≡ (odd_text, text ",1]")
parse_string_example = parse_string-escape_json_string odd_text (text ",1]")

-- The digit of a text of one character.
abbrev one_digit : List ℕ → Option ℕ
one_digit (c ∷ []) = some (c - 48)
one_digit _ = none

parse-Ends_example : Ends 9 (parse one_digit (text "{\"a\":[1]}"))
parse-Ends_example = parse-Ends one_digit (text "{\"a\":[1]}")

parse_test :
    parse one_digit (text "[1,true]")
    ≡ parsed (json_array (item (json_number 1) (item (json_bool true) no_items))) []
unfolding parse parse_value value_at parse_array array_loop parse_number parse_bool ◌>>=◌ peek
    skip_ws skip_if skip_digits skip_fraction skip_exponent number_end is_digit
parse_test = refl
