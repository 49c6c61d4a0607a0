-- ===== src/Stratum.antt =====
-- src/host/pearl/pearl_stratum_client.cpp, the session with a JSON-RPC pool. A text is the list of its
-- bytes, and an `int` of C++ is the number of its 32 bits.
pub mod Base64
pub mod Lines
pub mod Session
pub mod Jobs
pub mod Rejects
pub mod Messages
pub mod Loop
pub mod Client
pub mod Handshake
pub mod Opening
pub mod Login
pub mod Connect
pub mod Connected
pub mod Pending
pub mod Moves
pub mod Submit
pub mod Valid
pub mod Accounting
pub mod Once
pub mod Answers
pub mod Headers
mod Runs
use prop_miner.Base.{
  ℕ, zero, suc, ◌+◌, ◌-◌, ◌*◌, ◌/◌, ◌%◌, ◌^◌, Bool, true, false, ◌&&◌, ◌||◌, Option, none, some,
  List, [], ◌∷◌, ◌++◌, ltb, leb, ◌==◌, if◌then◌else◌, text, length, get_or, take, drop, replicate,
  shr, low_bits, le_bytes, bit_or,
}
use prop_miner.Target.{hex_pairs}

-- The escapes of this file: only the quote and the backslash.
unfoldable pub json_escape : List ℕ → List ℕ
json_escape [] = []
json_escape (c ∷ s) = (if c == 92 || c == 34 then 92 ∷ c ∷ [] else c ∷ []) ++ json_escape s

abbrev base64_table : List ℕ
base64_table = text "ABCDEFGHIJKLMNOPQRSTUVWXYZabcdefghijklmnopqrstuvwxyz0123456789+/"

-- `tbl[(n >> s) & 0x3F]`.
unfoldable pub base64_char : ℕ → ℕ → ℕ
base64_char n s = get_or base64_table (low_bits (shr n s) 6) 0

unfoldable pub base64_encode : List ℕ → List ℕ
base64_encode [] = []
base64_encode (a ∷ []) =
    let n = a * 2 ^ 16 in base64_char n 18 ∷ base64_char n 12 ∷ b'=' ∷ b'=' ∷ []
base64_encode (a ∷ b ∷ []) =
    let n = bit_or (a * 2 ^ 16) (b * 2 ^ 8) in
    base64_char n 18 ∷ base64_char n 12 ∷ base64_char n 6 ∷ b'=' ∷ []
base64_encode (a ∷ b ∷ c ∷ rest) =
    let n = bit_or (bit_or (a * 2 ^ 16) (b * 2 ^ 8)) c in
    base64_char n 18 ∷ base64_char n 12 ∷ base64_char n 6 ∷ base64_char n 0 ∷ base64_encode rest

-- `std::to_string` of a number of at most `fuel` digits.
unfoldable pub decimal_digits : ℕ → ℕ → List ℕ
decimal_digits zero n = []
decimal_digits (suc fuel) n = elim (ltb n 10) [
  | true ↦ (48 + n) ∷ []
  | false ↦ decimal_digits fuel (n / 10) ++ ((48 + n % 10) ∷ [])
]

unfoldable pub decimal : ℕ → List ℕ
decimal n = decimal_digits 20 n

-- `hex_to_bytes` takes off a prefix 0x, and puts a 0 before an odd number of digits.
unfoldable pub strip_0x : List ℕ → List ℕ
strip_0x (z ∷ x ∷ rest) = if z == b'0' && x == b'x' then rest else z ∷ x ∷ rest
strip_0x h = h

unfoldable pub hex_to_bytes : List ℕ → List ℕ
hex_to_bytes hex =
    let h = strip_0x hex in
    let h' = if length h % 2 == 0 then h else b'0' ∷ h in hex_pairs (length h' / 2) h'

unfoldable pub id_hash : ℕ → List ℕ → ℕ
id_hash h [] = h
id_hash h (c ∷ cs) = id_hash ((h * 131 + c) % 2 ^ 64) cs

-- The 16 bytes of a job's id: those it spells out, or a hash of its text, twice.
unfoldable pub job_id_bytes : List ℕ → List ℕ
job_id_bytes job_id =
    let raw = hex_to_bytes job_id in
    let h = id_hash 0 job_id in
    if length job_id == 32
    then (if length raw == 16 then raw else replicate 16 0)
    else le_bytes 8 h ++ le_bytes 8 h

-- `std::tolower` of each character, in the C locale.
unfoldable pub lower_char : ℕ → ℕ
lower_char c = if leb b'A' c && leb c b'Z' then c + 32 else c

unfoldable pub lower_text : List ℕ → List ℕ
lower_text [] = []
lower_text (c ∷ cs) = lower_char c ∷ lower_text cs
