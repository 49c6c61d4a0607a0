-- ===== src/Wire/RoundTrip.antt =====
-- RegisterRequest of mining_v2.cpp, encoded and decoded: its first fields, and the whole message.
use prop_miner.Base.{
  ℕ, ◌+◌, ◌^◌, ◌<◌, ◌≡◌, refl, sym, ap, ap₂, ◌∙◌, inl, inr, false, Bool-cases, List, [], ◌∷◌, ◌++◌,
  arith, length, IsU32, IsU64, All, map, if◌then◌else◌, ◌==◌, replicate,
}
use prop_miner.Wire.{ok, write_string}
use prop_miner.Wire.Request.{
  decode, put_bytes, from_cards, hashrate_fields, from_hashrate, no_length, IsCard, received_card,
}
use prop_miner.Wire.Messages.{
  GpuCard, RegisterRequest, RegisterRequest_encode, RegisterRequest_decode, register_field,
  no_register_request, write_gpu_cards, has_byte_set,
}

-- Bytes of which none is set are zeros.
has_byte_set-zeros : (bs : List ℕ) → has_byte_set bs ≡ false → bs ≡ replicate (length bs) 0
unfolding has_byte_set
has_byte_set-zeros [] h = refl
has_byte_set-zeros (b ∷ bs) h = elim (Bool-cases (b == 0)) [
  | inl clear ↦
      let zero_byte : b ≡ 0 = ground arith in
      ap₂ (λ (x : ℕ) (xs : List ℕ). x ∷ xs) zero_byte (has_byte_set-zeros bs (rw clear at h))
  | inr set ↦ cc (rw set at h)
]

-- A request that fits the types of its fields.
pub record IsRequest (r : RegisterRequest) : Type 0 where
  pub k_fits : IsU32 r.k
  pub version_fits : IsU32 r.protocol_version
  pub hashrate_fits : IsU64 r.claimed_total_hashrate
  pub cards_fit : All IsCard r.gpu_cards
  pub id_length : length r.miner_id ≡ 16

-- What the decoder makes of a request: it loses the hashrates.
abbrev pub received_request : RegisterRequest → RegisterRequest
received_request r = record r {
  claimed_total_hashrate = 0;
  gpu_cards = map received_card r.gpu_cards;
}

-- What stands behind each of the first fields.
module _ (r : RegisterRequest) where
  abbrev card_fields : List ℕ
  card_fields = write_gpu_cards r.gpu_cards ++ hashrate_fields r

  abbrev worker_fields : List ℕ
  worker_fields = write_string 4 r.worker_name ++ card_fields

  abbrev wallet_fields : List ℕ
  wallet_fields = write_string 3 r.wallet_address ++ worker_fields

  abbrev identity_fields : List ℕ
  identity_fields =
      (if length r.identity_key == 0 then [] else write_string 2 r.identity_key) ++ wallet_fields

module _ (r : RegisterRequest) (fits : IsRequest r) where
  -- The state behind the miner's name, and what is read from there on.
  from_wallet :
      (s : RegisterRequest) (addr : ℕ)
      → s.git_sha ≡ []
      → s.gpu_cards ≡ []
      → s.claimed_total_hashrate ≡ 0
      → addr + length (wallet_fields r) < 2 ^ 64
      → decode s addr (wallet_fields r)
        ≡ ok (record (received_request r) { miner_id = s.miner_id; identity_key = s.identity_key })
  unfolding write_string
  from_wallet s addr no_sha no_cards no_rate room =
      let s3 = record s { wallet_address = r.wallet_address } in
      let s4 = record s3 { worker_name = r.worker_name } in
      put_bytes s s3 3 addr r.wallet_address (worker_fields r) _ (omega arith) room
        (unfold register_field in refl)
        (λ h3.
          put_bytes s3 s4 4 _ r.worker_name (card_fields r) _ (omega arith) (omega (arith, h3))
            (unfold register_field in refl)
            (λ h4.
              from_cards r.gpu_cards s4 _ (hashrate_fields r) _ fits.cards_fit (omega (arith, h4))
                (λ addr' h.
                  from_hashrate r fits.k_fits fits.version_fits fits.hashrate_fits _ addr' no_sha h
                  ∙ ap₂
                      (λ (gs : List GpuCard) (rate : ℕ). ok (record r {
                        miner_id = s.miner_id;
                        identity_key = s.identity_key;
                        gpu_cards = gs ++ map received_card r.gpu_cards;
                        claimed_total_hashrate = rate;
                      }))
                      no_cards no_rate)))

  from_identity :
      (s : RegisterRequest) (addr : ℕ)
      → s.git_sha ≡ []
      → s.gpu_cards ≡ []
      → s.claimed_total_hashrate ≡ 0
      → s.identity_key ≡ []
      → addr + length (identity_fields r) < 2 ^ 64
      → decode s addr (identity_fields r)
        ≡ ok (record (received_request r) { miner_id = s.miner_id })
  unfolding write_string
  from_identity s addr no_sha no_cards no_rate no_key room =
      elim (Bool-cases (length r.identity_key == 0)) [
        | inl empty ↦ rw empty (
            from_wallet s addr no_sha no_cards no_rate (rw empty at room)
            ∙ ap
                (λ (key : List ℕ).
                  ok (record (received_request r) { miner_id = s.miner_id; identity_key = key }))
                (no_key ∙ sym (no_length r.identity_key empty)))
        | inr there ↦ rw there (
            put_bytes s (record s { identity_key = r.identity_key }) 2 addr r.identity_key
              (wallet_fields r) _ (omega arith) (rw there at room) (unfold register_field in refl)
              (λ h. from_wallet _ _ no_sha no_cards no_rate (omega (arith, h))))
      ]

  whole_request :
      (addr : ℕ)
      → addr + length (RegisterRequest_encode r) < 2 ^ 64
      → decode no_register_request addr (RegisterRequest_encode r) ≡ ok (received_request r)
  unfolding RegisterRequest_encode write_string
  whole_request addr room = elim (Bool-cases (has_byte_set r.miner_id)) [
    | inl there ↦ rw there (
        put_bytes no_register_request (record no_register_request { miner_id = r.miner_id }) 1 addr
          r.miner_id (identity_fields r) _ (omega arith) (rw there at room)
          (unfold register_field in rw fits.id_length refl)
          (λ h. from_identity _ _ refl refl refl refl (omega (arith, h))))
    | inr unset ↦ rw unset (
        from_identity no_register_request addr refl refl refl refl (rw unset at room)
        ∙ ap (λ (id : List ℕ). ok (record (received_request r) { miner_id = id }))
            (sym
              (has_byte_set-zeros r.miner_id unset ∙ ap (λ (n : ℕ). replicate n 0) fits.id_length)))
  ]

-- A request comes back from its encoding with all its fields, and with its cards in their order, but
-- for the hashrates, which are 0; the miner's id has 16 bytes, the numbers fit their fields, and the
-- buffer ends below 2 ^ 64.
pub RegisterRequest_decode-RegisterRequest_encode :
    (r : RegisterRequest) (addr : ℕ)
    → IsRequest r
    → addr + length (RegisterRequest_encode r) < 2 ^ 64
    → RegisterRequest_decode no_register_request addr (RegisterRequest_encode r)
      ≡ ok (received_request r)
unfolding RegisterRequest_decode
RegisterRequest_decode-RegisterRequest_encode r addr fits room = whole_request r fits addr room
