-- ===== src/Wire/Step.antt =====
-- The loop over the fields of a message, one field at a time, without its count of rounds.
use prop_miner.Base.{
  ℕ, zero, suc, ◌+◌, ◌^◌, ◌<◌, ◌≡◌, refl, sym, ◌∙◌, List, [], ◌++◌, arith, Option, none, some,
  length, IsU32, IsU64,
}
use prop_miner.Wire.{
  Outcome, ok, throws, wild, stuck, ◌>>=◌, ProtoReader, WireField, next, each_field, decode_fields,
  write_uint64, write_bytes, write_double,
}
use prop_miner.Wire.Varint.{reader}
use prop_miner.Wire.Progress.{next_takes}
use prop_miner.Wire.Fields.{next-write_uint64, next-write_bytes, next-write_double, payload_addr}

module _ {ℓ} {S : Type ℓ} (body : WireField → S → Outcome S) where
  after : ℕ → S → Option (WireField × ProtoReader) → Outcome S
  after rounds s none = ok s
  after rounds s (some (f, r')) = body f s >>= (λ s'. each_field rounds body s' r')

  each_field-suc :
      (rounds : ℕ) (s : S) (r : ProtoReader)
      → each_field (suc rounds) body s r ≡ (
          next r >>= (λ found. elim found [
            | none ↦ ok s
            | some (f, r') ↦ body f s >>= (λ s'. each_field rounds body s' r')
          ]))
  unfolding each_field
  each_field-suc rounds s r = refl

  >>=-ext : (m : Outcome S) (f g : S → Outcome S) → ((s : S) → f s ≡ g s) → (m >>= f) ≡ (m >>= g)
  >>=-ext (ok a) f g h = h a
  >>=-ext (throws e) f g h = refl
  >>=-ext wild f g h = refl
  >>=-ext stuck f g h = refl

  round_enough :
      (n m : ℕ) (s : S) (r : ProtoReader) (found : Outcome (Option (WireField × ProtoReader)))
      → next r ≡ found
      → ((s' : S) (r' : ProtoReader)
          → length r'.rest < length r.rest
          → each_field n body s' r' ≡ each_field m body s' r')
      → (found >>= (λ x. elim x [
        | none ↦ ok s
        | some (f, r') ↦ body f s >>= (λ s'. each_field n body s' r')
      ]))
        ≡ (found >>= (λ x. elim x [
          | none ↦ ok s
          | some (f, r') ↦ body f s >>= (λ s'. each_field m body s' r')
        ]))
  round_enough n m s r (ok none) e later = refl
  round_enough n m s r (ok (some (f, r'))) e later =
      >>=-ext (body f s) _ _ (λ s'. later s' r' (next_takes r f r' e))
  round_enough n m s r (throws x) e later = refl
  round_enough n m s r wild e later = refl
  round_enough n m s r stuck e later = refl

  -- More rounds than bytes are as good as any other such count.
  each_field_enough :
      (n m : ℕ) (s : S) (r : ProtoReader)
      → length r.rest < n
      → length r.rest < m
      → each_field n body s r ≡ each_field m body s r
  each_field_enough zero m s r hn hm = absurd (omega arith)
  each_field_enough (suc n) zero s r hn hm = absurd (omega arith)
  each_field_enough (suc n) (suc m) s r hn hm =
      each_field-suc n s r
      ∙ round_enough n m s r (next r) refl
          (λ s' r' h. each_field_enough n m s' r' (omega arith) (omega arith))
      ∙ sym (each_field-suc m s r)

  field_step :
      (s : S) (addr addr' : ℕ) (bytes rest : List ℕ) (f : WireField)
      → next (reader addr bytes) ≡ ok (some (f, reader addr' rest))
      → decode_fields body s addr bytes ≡ (body f s >>= (λ s'. decode_fields body s' addr' rest))
  unfolding decode_fields
  field_step s addr addr' bytes rest f e =
      each_field-suc (length bytes) s (reader addr bytes)
      ∙ rw e (
          >>=-ext (body f s) _ _ (λ s'.
            each_field_enough (length bytes) (suc (length rest)) s' (reader addr' rest)
              (next_takes (reader addr bytes) f (reader addr' rest) e) (omega arith)))

  -- An empty buffer has no field.
  pub decode_fields_end : (s : S) (addr : ℕ) → decode_fields body s addr [] ≡ ok s
  unfolding decode_fields each_field next
  decode_fields_end s addr = refl

  -- A number is handed to the body of the loop, which goes on behind it.
  pub decode_fields-write_uint64 :
      (s : S) (field v addr : ℕ) (rest : List ℕ)
      → IsU32 field
      → IsU64 v
      → decode_fields body s addr (write_uint64 field v ++ rest) ≡ (
          body (record { field = field; wire = 0; value = v; addr = 0; payload = [] }) s
          >>= (λ s'. decode_fields body s' (addr + length (write_uint64 field v)) rest))
  decode_fields-write_uint64 s field v addr rest hf hv =
      field_step s addr _ _ rest _ (next-write_uint64 field v addr rest hf hv)

  -- So are bytes, where the buffer ends below 2 ^ 64.
  pub decode_fields-write_bytes :
      (s : S) (field addr : ℕ) (bytes rest : List ℕ)
      → IsU32 field
      → addr + length (write_bytes field bytes ++ rest) < 2 ^ 64
      → decode_fields body s addr (write_bytes field bytes ++ rest) ≡ (
          body
            (record {
              field = field;
              wire = 2;
              value = 0;
              addr = payload_addr field addr bytes;
              payload = bytes;
            })
            s
          >>= (λ s'. decode_fields body s' (addr + length (write_bytes field bytes)) rest))
  decode_fields-write_bytes s field addr bytes rest hf room =
      field_step s addr _ _ rest _ (next-write_bytes field addr bytes rest hf room)

  -- And a double, as its pattern.
  pub decode_fields-write_double :
      (s : S) (field v addr : ℕ) (rest : List ℕ)
      → IsU32 field
      → IsU64 v
      → addr + length (write_double field v ++ rest) < 2 ^ 64
      → decode_fields body s addr (write_double field v ++ rest) ≡ (
          body (record { field = field; wire = 1; value = v; addr = 0; payload = [] }) s
          >>= (λ s'. decode_fields body s' (addr + length (write_double field v)) rest))
  decode_fields-write_double s field v addr rest hf hv room =
      field_step s addr _ _ rest _ (next-write_double field v addr rest hf hv room)
