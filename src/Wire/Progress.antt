-- ===== src/Wire/Progress.antt =====
-- The loop over the fields of a message ends: each call of `next` takes at least one byte.
use prop_miner.Base.{
  ℕ, zero, suc, ◌+◌, ◌*◌, ◌%◌, ◌^◌, ◌≤◌, ◌<◌, ◌≡◌, ◌≢◌, refl, sym, ap, ◌∙◌, inl, inr, List, [], ◌∷◌,
  arith, Option, none, some, ◌==◌, Bool-cases, length, length-drop, low_bits, bit_or,
}
use prop_miner.Wire.{
  Outcome, ok, throws, wild, stuck, ◌>>=◌, WireError, truncated_bytes, ProtoReader, WireField,
  varint_loop, decode_varint, read_bytes, skip_field, read_value, next, each_field, decode_fields,
}

varint_loop_takes :
    (v shift addr : ℕ) (bs : List ℕ) (x : ℕ) (r : ProtoReader)
    → varint_loop v shift addr bs ≡ ok (x, r)
    → length r.rest < length bs
unfolding varint_loop
varint_loop_takes v shift addr [] x r e = cc
varint_loop_takes v shift addr (b ∷ bs) x r e = ground (
  arith,
  varint_loop_takes (bit_or v (low_bits b 7 * 2 ^ shift % 2 ^ 64)) (shift + 7) (addr + 1) bs x r,
)

varint_loop-ne-stuck : (v shift addr : ℕ) (bs : List ℕ) → varint_loop v shift addr bs ≢ stuck
unfolding varint_loop
varint_loop-ne-stuck v shift addr [] e = cc
varint_loop-ne-stuck v shift addr (b ∷ bs) e = ground (
  arith,
  varint_loop-ne-stuck (bit_or v (low_bits b 7 * 2 ^ shift % 2 ^ 64)) (shift + 7) (addr + 1) bs,
)

decode_varint_takes :
    (r : ProtoReader) (p : ℕ × ProtoReader)
    → decode_varint r ≡ ok p
    → length p.1.rest < length r.rest
unfolding decode_varint
decode_varint_takes r (x, r') e = varint_loop_takes 0 0 r.addr r.rest x r' e

decode_varint-ne-stuck : (r : ProtoReader) → decode_varint r ≢ stuck
unfolding decode_varint
decode_varint-ne-stuck r = varint_loop-ne-stuck 0 0 r.addr r.rest

read_bytes_takes :
    (n : ℕ) (e : WireError) (r : ProtoReader) (p : List ℕ × ProtoReader)
    → read_bytes n e r ≡ ok p
    → length p.1.rest ≤ length r.rest
unfolding read_bytes
read_bytes_takes n e r (bs, r') h = ground (arith, length-drop n r.rest)

read_bytes-ne-stuck : (n : ℕ) (e : WireError) (r : ProtoReader) → read_bytes n e r ≢ stuck
unfolding read_bytes
read_bytes-ne-stuck n e r h = ground arith

-- A result of `decode_varint`, and what follows it, split by cases.
>>=-cases {ℓ κ} :
    {A : Type ℓ} {B : Type κ} (m : Outcome A) (f : A → Outcome B) {b : B}
    → (m >>= f) ≡ ok b
    → (a : A) × (m ≡ ok a) × (f a ≡ ok b)
>>=-cases (ok a) f h = (a, refl, h)
>>=-cases (throws e) f h = cc
>>=-cases wild f h = cc
>>=-cases stuck f h = cc

pub >>=-ne-stuck {ℓ κ} :
    {A : Type ℓ} {B : Type κ} (m : Outcome A) (f : A → Outcome B)
    → m ≢ stuck
    → ((a : A) → f a ≢ stuck)
    → (m >>= f) ≢ stuck
>>=-ne-stuck (ok a) f h k p = k a p
>>=-ne-stuck (throws e) f h k p = cc
>>=-ne-stuck wild f h k p = cc
>>=-ne-stuck stuck f h k p = h refl

-- A wire type that is none of 0, 1, 2 and 5 ends the reading.
pub read_value_unknown :
    (field wire : ℕ) (r : ProtoReader)
    → wire ≢ 0
    → wire ≢ 1
    → wire ≢ 2
    → wire ≢ 5
    → read_value field wire r ≡ ok none
unfolding read_value skip_field
read_value_unknown field wire r h0 h1 h2 h5 = ground arith

delimited_takes :
    (field : ℕ) (r : ProtoReader) (f : WireField) (r' : ProtoReader)
    → read_value field 2 r ≡ ok (some (f, r'))
    → length r'.rest ≤ length r.rest
unfolding read_value
delimited_takes field r f r' e =
    let (p, counted, e1) = >>=-cases (decode_varint r) _ e in
    let (q, read, e2) = >>=-cases (read_bytes p.0 truncated_bytes p.1) _ e1 in
    ground (arith, decode_varint_takes r p counted, read_bytes_takes p.0 truncated_bytes p.1 q read)

read_value_takes :
    (field wire : ℕ) (r : ProtoReader) (f : WireField) (r' : ProtoReader)
    → read_value field wire r ≡ ok (some (f, r'))
    → length r'.rest ≤ length r.rest
unfolding read_value
read_value_takes field wire r f r' e = elim (Bool-cases (wire == 2)) [
  | inl two ↦
      let w : wire ≡ 2 = ground arith in
      delimited_takes field r f r' (ap (λ (x : ℕ). read_value field x r) (sym w) ∙ e)
  | inr other ↦
      grind (arith, decode_varint_takes, read_bytes_takes, read_value_unknown field wire r)
]

read_value-ne-stuck : (field wire : ℕ) (r : ProtoReader) → read_value field wire r ≢ stuck
unfolding read_value
read_value-ne-stuck field wire r e =
    grind (arith, decode_varint-ne-stuck, read_bytes-ne-stuck, read_value_unknown field wire r)

pub next_takes :
    (r : ProtoReader) (f : WireField) (r' : ProtoReader)
    → next r ≡ ok (some (f, r'))
    → length r'.rest < length r.rest
unfolding next
next_takes r f r' e = elim (Bool-cases (length r.rest == 0)) [
  | inl ended ↦ cc (rw ended at e)
  | inr more ↦
      let (p, tag, value) = >>=-cases (decode_varint r) _ (rw more at e) in
      ground (arith, decode_varint_takes r p tag, read_value_takes _ _ p.1 f r' value)
]

next-ne-stuck : (r : ProtoReader) → next r ≢ stuck
unfolding next
next-ne-stuck r e = grind (arith, decode_varint-ne-stuck, read_value-ne-stuck)

module _ {ℓ} {S : Type ℓ} (body : WireField → S → Outcome S)
    (ends : (f : WireField) (s : S) → body f s ≢ stuck) where
  round-ne-stuck :
      (rounds : ℕ) (s : S) (r : ProtoReader) (m : Outcome (Option (WireField × ProtoReader)))
      → next r ≡ m
      → length r.rest < suc rounds
      → ((s' : S) (r' : ProtoReader)
          → length r'.rest < rounds
          → each_field rounds body s' r' ≢ stuck)
      → (m >>= (λ found. elim found [
        | none ↦ ok s
        | some (f, r') ↦ body f s >>= (λ s'. each_field rounds body s' r')
      ]))
        ≢ stuck
  round-ne-stuck rounds s r (ok none) e h later p = cc
  round-ne-stuck rounds s r (ok (some (f, r'))) e h later p =
      >>=-ne-stuck (body f s) _ (ends f s) (λ s'. later s' r' (omega (arith, next_takes r f r' e)))
        p
  round-ne-stuck rounds s r (throws x) e h later p = cc
  round-ne-stuck rounds s r wild e h later p = cc
  round-ne-stuck rounds s r stuck e h later p = next-ne-stuck r e

  each_field-ne-stuck :
      (rounds : ℕ) (s : S) (r : ProtoReader)
      → length r.rest < rounds
      → each_field rounds body s r ≢ stuck
  unfolding each_field
  each_field-ne-stuck zero s r h = absurd (omega arith)
  each_field-ne-stuck (suc rounds) s r h =
      round-ne-stuck rounds s r (next r) refl h (each_field-ne-stuck rounds)

-- Decoding a message ends on every buffer, whatever the bytes are, when the handling of a field does.
pub decode_fields-ne-stuck {ℓ} :
    {S : Type ℓ} (body : WireField → S → Outcome S)
    → ((f : WireField) (s : S) → body f s ≢ stuck)
    → (s : S) (addr : ℕ) (buffer : List ℕ) → decode_fields body s addr buffer ≢ stuck
unfolding decode_fields
decode_fields-ne-stuck body ends s addr buffer =
    each_field-ne-stuck body ends (suc (length buffer)) s _ (omega arith)
