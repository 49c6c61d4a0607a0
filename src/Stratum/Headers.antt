-- ===== src/Stratum/Headers.antt =====
-- The jobs of pearl_stratum_client.cpp are found again by their headers and their ids.
use prop_miner.Base.{
  ℕ, zero, suc, ◌/◌, ◌%◌, ◌≡◌, ◌<◌, refl, ap, inl, inr, true, false, not, ◌&&◌, Bool-cases, some,
  List, [], ◌∷◌, ◌==◌, ==_iff, leb, arith, length, take, shr, low_bits, IsByte, All, holds_below,
  holds_below-elim,
}
use prop_miner.Target.{hex_digit, bytes_to_hex}
use prop_miner.Target.Hex.{hex_pairs-bytes_to_hex, length-bytes_to_hex}
use prop_miner.Json.Value.{same_text}
use prop_miner.Stratum.{strip_0x, hex_to_bytes, lower_char, lower_text}
use prop_miner.Stratum.Session.{Session, find, put}
use prop_miner.Stratum.Jobs.{Numbers, job_sigma, make_job, job_id_for_sigma, cert_version_for_job}

pub same_text_refl : (t : List ℕ) → same_text t t ≡ true
unfolding same_text
same_text_refl [] = refl
same_text_refl (c ∷ t) =
    let same : (c == c) ≡ true = (==_iff c c).1 refl in rw (same, same_text_refl t) refl

digit_table :
    holds_below (λ d. (lower_char (hex_digit d) == hex_digit d) && not (hex_digit d == b'x')) 16
    ≡ true
unfolding holds_below hex_digit lower_char
digit_table = refl

lower_digit : (d : ℕ) → d < 16 → lower_char (hex_digit d) ≡ hex_digit d
lower_digit d h = ground (arith, holds_below-elim _ 16 d digit_table h)

digit_not_x : (d : ℕ) → d < 16 → (hex_digit d == b'x') ≡ false
digit_not_x d h = ground (arith, holds_below-elim _ 16 d digit_table h)

lower_text-bytes_to_hex :
    (bs : List ℕ) → All IsByte bs → lower_text (bytes_to_hex bs) ≡ bytes_to_hex bs
unfolding lower_text bytes_to_hex
lower_text-bytes_to_hex [] h = refl
lower_text-bytes_to_hex (b ∷ bs) h =
    let high = lower_digit (shr b 4) (omega (arith, h.0)) in
    let low = lower_digit (low_bits b 4) (omega arith) in
    rw (high, low, lower_text-bytes_to_hex bs h.1) refl

strip_0x-bytes_to_hex : (bs : List ℕ) → strip_0x (bytes_to_hex bs) ≡ bytes_to_hex bs
unfolding strip_0x bytes_to_hex
strip_0x-bytes_to_hex [] = refl
strip_0x-bytes_to_hex (b ∷ bs) =
    let other = digit_not_x (low_bits b 4) (omega arith) in
    elim (Bool-cases (hex_digit (shr b 4) == b'0')) [
      | inl e ↦ rw (other, e) refl
      | inr e ↦ rw e refl
    ]

pub hex_to_bytes-bytes_to_hex : (bs : List ℕ) → All IsByte bs → hex_to_bytes (bytes_to_hex bs) ≡ bs
unfolding hex_to_bytes
hex_to_bytes-bytes_to_hex bs h =
    let size = length-bytes_to_hex bs in
    let even : (length (bytes_to_hex bs) % 2 == 0) ≡ true = ground (arith, size) in
    let half : length (bytes_to_hex bs) / 2 ≡ length bs = omega (arith, size) in
    rw (strip_0x-bytes_to_hex bs, even, half) (hex_pairs-bytes_to_hex bs h)

take_all : {A : Type 0} (xs : List A) (n : ℕ) → length xs ≡ n → take n xs ≡ xs
take_all [] zero h = refl
take_all [] (suc n) h = absurd (omega arith)
take_all (x ∷ xs) zero h = absurd (omega arith)
take_all (x ∷ xs) (suc n) h = ap (◌∷◌ x) (take_all xs n (omega arith))

module _ {V : Type 0} where
  find-put :
      (m : List (List ℕ × V)) (key : List ℕ) (v : V)
      → find same_text (put same_text m key v) key ≡ some v
  unfolding find put
  find-put m key v = rw (same_text_refl key) refl

-- A job whose header comes as the 152 lower-case digits of its 76 bytes has these bytes as its header,
-- and is then found by them, and its certificate's version by its id.
pub make_job_lem :
    {F : Type 0} (numbers : Numbers F) (now : ℕ) (s : Session F) (job_id sigma target_hex : List ℕ)
    (height cert_version : ℕ)
    → All IsByte sigma
    → length sigma ≡ 76
    → ((make_job numbers now s job_id (bytes_to_hex sigma) target_hex height cert_version).0.sigma
        ≡ sigma)
      × (job_id_for_sigma
            (make_job numbers now s job_id (bytes_to_hex sigma) target_hex height cert_version).1
            sigma
          ≡ job_id)
      × (cert_version_for_job
            (make_job numbers now s job_id (bytes_to_hex sigma) target_hex height cert_version).1
            job_id
          ≡ cert_version)
unfolding make_job job_id_for_sigma cert_version_for_job job_sigma
make_job_lem numbers now s job_id sigma target_hex height cert_version h size =
    let enough : leb 76 (length sigma) ≡ true = ground (arith, size) in
    (
      rw (hex_to_bytes-bytes_to_hex sigma h, enough) (take_all sigma 76 size),
      rw
          (
            lower_text-bytes_to_hex sigma h,
            find-put s.sigma_jobs (bytes_to_hex sigma) job_id,
            job_id_for_sigma,
          )
          refl,
      rw (find-put s.job_cert_version job_id cert_version, cert_version_for_job) refl,
    )
