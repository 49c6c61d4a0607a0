-- ===== src/Wire/Request.antt =====
-- RegisterRequest of mining_v2.cpp: what the decoder makes of an encoded request, from its last field
-- to its first.
use prop_miner.Base.{
  ℕ, ◌+◌, ◌^◌, ◌<◌, ◌≡◌, refl, sym, ap, ◌∙◌, inl, inr, true, Bool-cases, List, [], ◌∷◌, ◌++◌, arith,
  length, length-append, IsU32, IsU64, append_assoc, append-nil, low_bits, All, map, if◌then◌else◌,
  ◌==◌,
}
use prop_miner.Wire.{
  Outcome, ok, decode_fields, write_uint64, write_uint32, write_string, write_bytes, write_double,
  write_embedded, write_tag, write_varint,
}
use prop_miner.Wire.Fields.{payload_addr}
use prop_miner.Wire.Step.{
  decode_fields_end, decode_fields-write_uint64, decode_fields-write_bytes,
  decode_fields-write_double,
}
use prop_miner.Wire.Register.{GpuCard_decode-GpuCard_encode}
use prop_miner.Wire.Messages.{
  GpuCard, GpuCard_encode, RegisterRequest, register_field, write_gpu_cards, double_positive,
}

abbrev pub decode : RegisterRequest → ℕ → List ℕ → Outcome RegisterRequest
decode = decode_fields register_field

-- A field of bytes that the switch stores, with what follows it.
pub put_bytes :
    (s s' : RegisterRequest) (field addr : ℕ) (bytes rest : List ℕ) (out : Outcome RegisterRequest)
    → IsU32 field
    → addr + length (write_bytes field bytes ++ rest) < 2 ^ 64
    → register_field
        (record {
          field = field;
          wire = 2;
          value = 0;
          addr = payload_addr field addr bytes;
          payload = bytes;
        })
        s
      ≡ ok s'
    → (addr + length (write_bytes field bytes) + length rest < 2 ^ 64
        → decode s' (addr + length (write_bytes field bytes)) rest ≡ out)
    → decode s addr (write_bytes field bytes ++ rest) ≡ out
put_bytes s s' field addr bytes rest out hf room stored later =
    decode_fields-write_bytes register_field s field addr bytes rest hf room
    ∙ rw stored (later (omega (arith, length-append (write_bytes field bytes) rest)))

pub no_length : (xs : List ℕ) → (length xs == 0) ≡ true → xs ≡ []
no_length [] e = refl
no_length (x ∷ xs) e = ground arith

-- The ends of an encoded request, from its last field on.
module _ (r : RegisterRequest) where
  abbrev pub last_field : List ℕ
  last_field = write_uint32 10 r.k

  abbrev pub version_fields : List ℕ
  version_fields = write_uint32 9 r.protocol_version ++ last_field

  abbrev pub sha_fields : List ℕ
  sha_fields = (if length r.git_sha == 0 then [] else write_string 8 r.git_sha) ++ version_fields

  abbrev pub miner_version_fields : List ℕ
  miner_version_fields = write_string 7 r.miner_version ++ sha_fields

  abbrev pub hashrate_fields : List ℕ
  hashrate_fields =
      (if double_positive r.claimed_total_hashrate
        then write_double 6 r.claimed_total_hashrate
        else [])
      ++ miner_version_fields

module _ (r : RegisterRequest) (hk : IsU32 r.k) (hp : IsU32 r.protocol_version)
    (hh : IsU64 r.claimed_total_hashrate) where
  from_k :
      (s : RegisterRequest) (addr : ℕ) → decode s addr (last_field r) ≡ ok (record s { k = r.k })
  unfolding write_uint32 register_field
  from_k s addr =
      let low : low_bits r.k 32 ≡ r.k = omega arith in
      ap (decode s addr) (sym (append-nil (write_uint64 10 r.k)))
      ∙ decode_fields-write_uint64 register_field s 10 r.k addr [] (omega arith) (omega arith)
      ∙ decode_fields_end register_field _ _
      ∙ ap (λ (v : ℕ). ok (record s { k = v })) low

  from_version :
      (s : RegisterRequest) (addr : ℕ)
      → decode s addr (version_fields r)
        ≡ ok (record s { protocol_version = r.protocol_version; k = r.k })
  unfolding write_uint32 register_field
  from_version s addr =
      let low : low_bits r.protocol_version 32 ≡ r.protocol_version = omega arith in
      decode_fields-write_uint64 register_field s 9 r.protocol_version addr (last_field r)
        (omega arith) (omega arith)
      ∙ from_k _ _
      ∙ ap (λ (v : ℕ). ok (record s { protocol_version = v; k = r.k })) low

  from_sha :
      (s : RegisterRequest) (addr : ℕ)
      → s.git_sha ≡ []
      → addr + length (sha_fields r) < 2 ^ 64
      → decode s addr (sha_fields r)
        ≡ ok (record s { git_sha = r.git_sha; protocol_version = r.protocol_version; k = r.k })
  unfolding write_string
  from_sha s addr unset room = elim (Bool-cases (length r.git_sha == 0)) [
    | inl empty ↦ rw empty (
        from_version s addr
        ∙ ap
            (λ (g : List ℕ).
              ok (record s { git_sha = g; protocol_version = r.protocol_version; k = r.k }))
            (unset ∙ sym (no_length r.git_sha empty)))
    | inr there ↦ rw there (
        put_bytes s (record s { git_sha = r.git_sha }) 8 addr r.git_sha (version_fields r) _
          (omega arith) (rw there at room) (unfold register_field in refl) (λ h. from_version _ _))
  ]

  from_miner_version :
      (s : RegisterRequest) (addr : ℕ)
      → s.git_sha ≡ []
      → addr + length (miner_version_fields r) < 2 ^ 64
      → decode s addr (miner_version_fields r)
        ≡ ok (record s {
          miner_version = r.miner_version;
          git_sha = r.git_sha;
          protocol_version = r.protocol_version;
          k = r.k;
        })
  unfolding write_string
  from_miner_version s addr unset room =
      let s' = record s { miner_version = r.miner_version } in
      put_bytes s s' 7 addr r.miner_version (sha_fields r) _ (omega arith) room
        (unfold register_field in refl) (λ h. from_sha s' _ unset h)

  -- The hashrate is read, and dropped by the switch.
  pub from_hashrate :
      (s : RegisterRequest) (addr : ℕ)
      → s.git_sha ≡ []
      → addr + length (hashrate_fields r) < 2 ^ 64
      → decode s addr (hashrate_fields r)
        ≡ ok (record s {
          miner_version = r.miner_version;
          git_sha = r.git_sha;
          protocol_version = r.protocol_version;
          k = r.k;
        })
  unfolding register_field
  from_hashrate s addr unset room = elim (Bool-cases (double_positive r.claimed_total_hashrate)) [
    | inl there ↦ rw there (
        decode_fields-write_double register_field s 6 r.claimed_total_hashrate addr
          (miner_version_fields r) (omega arith) hh (rw there at room)
        ∙ from_miner_version s _ unset (
            omega (
              arith,
              rw there at room,
              length-append (write_double 6 r.claimed_total_hashrate) (miner_version_fields r),
            )))
    | inr absent ↦ rw absent (from_miner_version s addr unset (rw absent at room))
  ]

-- A card that fits its wire types, and the card that the decoder makes of it.
abbrev pub IsCard : GpuCard → Type 0
IsCard g = IsU32 g.index × IsU64 g.hashrate

abbrev pub received_card : GpuCard → GpuCard
received_card g = record g { hashrate = 0 }

-- The cards are added in their order.
pub from_cards :
    (cards : List GpuCard) (s : RegisterRequest) (addr : ℕ) (rest : List ℕ)
    (out : Outcome RegisterRequest)
    → All IsCard cards
    → addr + length (write_gpu_cards cards ++ rest) < 2 ^ 64
    → ((addr' : ℕ)
        → addr' + length rest < 2 ^ 64
        → decode (record s { gpu_cards = s.gpu_cards ++ map received_card cards }) addr' rest ≡ out)
    → decode s addr (write_gpu_cards cards ++ rest) ≡ out
unfolding write_gpu_cards write_embedded write_bytes register_field
from_cards [] s addr rest out fits room later =
    ap (λ (gs : List GpuCard). decode (record s { gpu_cards = gs }) addr rest)
      (sym (append-nil s.gpu_cards))
    ∙ later addr room
from_cards (g ∷ cards) s addr rest out fits room later =
    let enc = GpuCard_encode g in
    let more = write_gpu_cards cards ++ rest in
    let one = s.gpu_cards ++ received_card g ∷ [] in
    let s' = record s { gpu_cards = one } in
    let joined : write_gpu_cards (g ∷ cards) ++ rest ≡ write_bytes 5 enc ++ more =
      append_assoc (write_bytes 5 enc) (write_gpu_cards cards) rest in
    let room' = rw joined at room in
    let sizes = length-append (write_bytes 5 enc) more in
    let inner : payload_addr 5 addr enc + length enc ≡ addr + length (write_bytes 5 enc) = omega (
      arith,
      length-append (write_tag 5 2) (write_varint (length enc) ++ enc),
      length-append (write_varint (length enc)) enc,
    ) in
    let card =
      GpuCard_decode-GpuCard_encode g (payload_addr 5 addr enc) fits.0.0 fits.0.1
        (omega (arith, inner, room', sizes)) in
    ap (decode s addr) joined
    ∙ put_bytes s s' 5 addr enc more out (omega arith) room' (rw card refl) (λ h.
      from_cards cards s' _ rest out fits.1 (omega (arith, h)) (λ addr' h'.
        rw (append_assoc s.gpu_cards (received_card g ∷ []) (map received_card cards))
          (later addr' h')))
