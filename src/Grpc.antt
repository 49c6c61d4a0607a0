-- ===== src/Grpc.antt =====
-- src/host/pearl/grpc_client.cpp: HTTP/2 frames, HPACK literals and gRPC messages.
pub mod Client
pub mod Words
pub mod Stream
pub mod Headers
pub mod Answer
mod Runs
use prop_miner.Base.{
  ℕ, zero, suc, ◌+◌, ◌*◌, ◌/◌, ◌%◌, ◌^◌, ◌-◌, Bool, true, false, not, ◌&&◌, ◌||◌, List, [], ◌∷◌,
  ◌++◌, Option, none, some, ltb, leb, ◌==◌, if◌then◌else◌, length, get_or, take, drop, shr,
  low_bits, bit_or, be_val, text,
}

unfoldable pub write_u24_be : ℕ → List ℕ
write_u24_be v = low_bits (shr v 16) 8 ∷ low_bits (shr v 8) 8 ∷ low_bits v 8 ∷ []

unfoldable pub read_u24_be : List ℕ → ℕ
read_u24_be p = bit_or (bit_or (get_or p 0 0 * 2 ^ 16) (get_or p 1 0 * 2 ^ 8)) (get_or p 2 0)

unfoldable pub read_u32_be : List ℕ → ℕ
read_u32_be p =
    bit_or (bit_or (bit_or (get_or p 0 0 * 2 ^ 24) (get_or p 1 0 * 2 ^ 16)) (get_or p 2 0 * 2 ^ 8))
      (get_or p 3 0)

unfoldable pub write_u32_be : ℕ → List ℕ
write_u32_be v =
    low_bits (shr v 24) 8 ∷ low_bits (shr v 16) 8 ∷ low_bits (shr v 8) 8 ∷ low_bits v 8 ∷ []

-- The loop over the rest of a length, with the bit of its last byte cleared; ten rounds are enough
-- for 64 bits.
pub length_rounds : ℕ → ℕ → List ℕ
length_rounds zero v = []
length_rounds (suc rounds) v =
    let rest = shr v 7 in
    let more = length_rounds rounds rest in
    if rest == 0 then low_bits v 7 ∷ [] else bit_or (low_bits v 7) 0x80 ∷ more

-- `HpackEncoder::encode_string`.
unfoldable pub encode_string : List ℕ → List ℕ
encode_string s = if ltb (length s) 128 then length s ∷ s else length_rounds 10 (length s) ++ s

unfoldable pub encode_literal : List ℕ → List ℕ → List ℕ
encode_literal name value = 0x40 ∷ (encode_string name ++ encode_string value)

unfoldable pub encode_request_headers : List ℕ → List ℕ → List ℕ → List ℕ → List ℕ → List ℕ → List ℕ
encode_request_headers method scheme authority path user_agent content_type =
    encode_literal (text ":method") method
    ++ (encode_literal (text ":scheme") scheme
        ++ (encode_literal (text ":authority") authority
            ++ (encode_literal (text ":path") path
                ++ (encode_literal (text "content-type") content_type
                    ++ (encode_literal (text "user-agent") user_agent
                        ++ encode_literal (text "te") (text "trailers"))))))

pub same_bytes : List ℕ → List ℕ → Bool
same_bytes [] [] = true
same_bytes (x ∷ xs) (y ∷ ys) = x == y && same_bytes xs ys
same_bytes [] (y ∷ ys) = false
same_bytes (x ∷ xs) [] = false

unfoldable pub looks_like_html : List ℕ → Bool
looks_like_html bytes =
    if ltb (length bytes) 1
    then false
    else if get_or bytes 0 0 == b'<'
    then true
    else leb 5 (length bytes) && same_bytes (take 5 bytes) (text "HTTP/")

pub snippet_char : ℕ → ℕ
snippet_char c =
    if leb 32 c && ltb c 127 then c else if c == 10 || (c == 13 || c == 9) then b' ' else b'.'

pub snippet_chars : List ℕ → List ℕ
snippet_chars [] = []
snippet_chars (c ∷ cs) = snippet_char c ∷ snippet_chars cs

unfoldable pub format_response_snippet : List ℕ → ℕ → List ℕ
format_response_snippet body max_len =
    let n = if ltb max_len (length body) then max_len else length body in
    if length body == 0
    then []
    else snippet_chars (take n body) ++ (if ltb n (length body) then text "..." else [])

-- What `extract_grpc_payload` reports; the errors in the order of its checks. It is `wild` when it
-- reads past the end of `framed`.
pub data Payload : Type 0 where
  payload : List ℕ → Payload
  empty_response html_response compressed truncated_header empty_message truncated_body : Payload
  html_in_frame wild_read : Payload

-- `5 + msg_len` is a sum of 32 bits.
unfoldable pub extract_grpc_payload : List ℕ → Payload
extract_grpc_payload framed =
    let msg_len = read_u32_be (drop 1 framed) in
    let proto = take msg_len (drop 5 framed) in
    if length framed == 0
    then empty_response
    else if not (get_or framed 0 0 == 0)
    then (if looks_like_html framed then html_response else compressed)
    else if ltb (length framed) 5
    then truncated_header
    else if msg_len == 0
    then empty_message
    else if ltb (length framed) ((5 + msg_len) % 2 ^ 32)
    then truncated_body
    else if ltb (length framed) (5 + msg_len)
    then wild_read
    else if looks_like_html proto
    then html_in_frame
    else payload proto

-- The header of nine bytes, and the payload.
unfoldable pub frame_bytes : ℕ → ℕ → ℕ → List ℕ → List ℕ
frame_bytes type flags stream_id bytes =
    write_u24_be (length bytes) ++ (type ∷ flags ∷ (write_u32_be stream_id ++ bytes))

-- A gRPC message in a DATA frame: the compression flag and the length stand before it.
unfoldable pub grpc_frame : List ℕ → List ℕ
grpc_frame message = 0 ∷ (write_u32_be (length message % 2 ^ 32) ++ message)
