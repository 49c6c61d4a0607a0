-- ===== src/Grpc/Headers.antt =====
-- Frames on the wire and HPACK strings: what is sent is what is read.
use prop_miner.Base.{
  ℕ, zero, suc, ◌+◌, ◌-◌, ◌/◌, ◌%◌, ◌^◌, ◌<◌, ◌≤◌, ◌≡◌, refl, sym, ap, ap₂, ◌∙◌, inl, inr, true,
  List, [], ◌∷◌, ◌++◌, arith, some, length, take, drop, get_or, ltb, leb, ◌==◌, if◌then◌else◌,
  Bool-cases, take-append, drop-append, length-append, append_assoc, append-nil, IsU32,
}
use prop_miner.Grpc.{
  write_u24_be, write_u32_be, read_u24_be, read_u32_be, frame_bytes, encode_string,
}
use prop_miner.Grpc.Words.{read_u32_be-write_u32_be, read_u24_be-write_u24_be}
use prop_miner.Grpc.Client.{
  GrpcClient, drain_frames, handle_frame, read_exact, send_frame, write_exact,
}

read_exact-append :
    (n : ℕ) (xs rest : List ℕ) (c : GrpcClient)
    → n ≡ length xs
    → c.inbox ≡ xs ++ rest
    → read_exact n c ≡ (some xs, record c { inbox = rest })
unfolding read_exact
read_exact-append n xs rest c same come =
    let size = length-append xs rest in
    let inside : leb (length xs) (length (xs ++ rest)) ≡ true = ground (arith, size) in
    rw (same, come, inside, take-append xs rest, drop-append xs rest)

-- The nine bytes before a payload.
frame_header : ℕ → ℕ → ℕ → List ℕ → List ℕ
frame_header type flags stream bytes =
    write_u24_be (length bytes) ++ (type ∷ flags ∷ write_u32_be stream)

frame_bytes-frame_header :
    (type flags stream : ℕ) (bytes rest : List ℕ)
    → frame_bytes type flags stream bytes ++ rest
      ≡ frame_header type flags stream bytes ++ (bytes ++ rest)
unfolding frame_bytes frame_header write_u24_be write_u32_be
frame_bytes-frame_header type flags stream bytes rest = refl

frame_bytes-header :
    (type flags stream : ℕ) (bytes : List ℕ)
    → frame_bytes type flags stream bytes ≡ frame_header type flags stream bytes ++ bytes
unfolding frame_bytes frame_header write_u24_be write_u32_be
frame_bytes-header type flags stream bytes = refl

length-frame_header :
    (type flags stream : ℕ) (bytes : List ℕ) → length (frame_header type flags stream bytes) ≡ 9
unfolding frame_header write_u24_be write_u32_be
length-frame_header type flags stream bytes = refl

module _ (type flags stream : ℕ) (bytes : List ℕ) where
  frame_header-type : get_or {A = ℕ} (frame_header type flags stream bytes) 3 0 ≡ type
  unfolding frame_header write_u24_be
  frame_header-type = refl

  frame_header-flags : get_or {A = ℕ} (frame_header type flags stream bytes) 4 0 ≡ flags
  unfolding frame_header write_u24_be
  frame_header-flags = refl

  frame_header_len :
      length bytes < 2 ^ 24 → read_u24_be (frame_header type flags stream bytes) ≡ length bytes
  unfolding frame_header
  frame_header_len h = read_u24_be-write_u24_be (length bytes) _ h

  frame_header_stream :
      IsU32 stream → read_u32_be (drop 5 (frame_header type flags stream bytes)) ≡ stream
  unfolding frame_header write_u24_be
  frame_header_stream h =
      ap read_u32_be (sym (append-nil (write_u32_be stream))) ∙ read_u32_be-write_u32_be stream [] h

-- `drain_frames` hands on the type, the flags, the stream and the payload of a frame that has come
-- whole, and leaves the bytes behind it, for a payload below 2 ^ 24 bytes.
pub drain_frames-frame_bytes :
    (addr type flags stream : ℕ) (bytes rest : List ℕ) (c : GrpcClient)
    → length bytes < 2 ^ 24
    → IsU32 stream
    → c.inbox ≡ frame_bytes type flags stream bytes ++ rest
    → drain_frames addr c
      ≡ handle_frame addr type flags (stream % 2 ^ 31) bytes (record c { inbox = rest })
unfolding drain_frames
drain_frames-frame_bytes addr type flags stream bytes rest c h hs come =
    let header = frame_header type flags stream bytes in
    let c1 = record c { inbox = bytes ++ rest } in
    let first =
      read_exact-append 9 header (bytes ++ rest) c
        (sym (length-frame_header type flags stream bytes))
        (come ∙ frame_bytes-frame_header type flags stream bytes rest) in
    let second = read_exact-append (length bytes) bytes rest c1 refl refl in
    rw (
      first,
      drain_frames,
      frame_header_len type flags stream bytes h,
      first,
      second,
      frame_header_len type flags stream bytes h,
      first,
      second,
      frame_header-type type flags stream bytes,
      frame_header-flags type flags stream bytes,
      frame_header_stream type flags stream bytes hs,
    )

no_length : (xs : List ℕ) → (length xs == 0) ≡ true → xs ≡ []
no_length [] e = refl
no_length (x ∷ xs) e = ground arith

-- `send_frame` puts the frame on the wire whole, where the socket takes that many bytes.
pub send_frame_lem :
    (type flags stream : ℕ) (bytes : List ℕ) (c : GrpcClient)
    → 9 + length bytes ≤ c.write_budget
    → send_frame type flags stream bytes c ≡ (
      true,
      record c {
        sent = c.sent ++ frame_bytes type flags stream bytes;
        write_budget = c.write_budget - (9 + length bytes);
      },
    )
unfolding send_frame write_exact
send_frame_lem type flags stream bytes c h =
    let header = frame_header type flags stream bytes in
    let nine = length-frame_header type flags stream bytes in
    let whole : frame_bytes type flags stream bytes ≡ header ++ bytes =
      frame_bytes-header type flags stream bytes in
    let front : take 9 (header ++ bytes) ≡ header =
      ap (λ (n : ℕ). take n (header ++ bytes)) (sym nine) ∙ take-append header bytes in
    let room : leb 9 c.write_budget ≡ true = ground arith in
    let room' : leb (length bytes) (c.write_budget - 9) ≡ true = ground arith in
    let less : c.write_budget - 9 - length bytes ≡ c.write_budget - (9 + length bytes) =
      omega arith in
    rw (whole, front, nine, room)
      (elim (Bool-cases (length bytes == 0)) [
        | inl none_left ↦ rw none_left (
            ap₂ (λ (x : List ℕ) (n : ℕ). (true, record c { sent = c.sent ++ x; write_budget = n }))
              (sym (append-nil header)
                ∙ ap (λ (x : List ℕ). header ++ x) (sym (no_length bytes none_left)))
              (ground arith))
        | inr some_left ↦ rw (some_left, room', less, append_assoc c.sent header bytes) refl
      ])

-- A string of RFC 7541, section 5.2, without Huffman coding: its length is an integer with a prefix of
-- seven bits, where 127 says that more bytes follow.
abbrev more_length : ℕ → ℕ → List ℕ
more_length zero n = []
more_length (suc rounds) n =
    if ltb n 128 then n ∷ [] else (n % 128 + 128) ∷ more_length rounds (n / 128)

abbrev pub hpack_string : List ℕ → List ℕ
hpack_string s =
    if ltb (length s) 127 then length s ∷ s else (127 ∷ more_length 10 (length s - 127)) ++ s

-- `encode_string` writes a string of up to 126 bytes as RFC 7541 has it.
pub encode_string-hpack_string : (s : List ℕ) → length s < 127 → encode_string s ≡ hpack_string s
unfolding encode_string
encode_string-hpack_string s h = ground arith
