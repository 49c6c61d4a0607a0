-- ===== src/Stratum/Pending.antt =====
-- The submissions that wait for an answer in pearl_stratum_client.cpp: the map's laws, and what each
-- operation does to the map and reports of it.
use prop_miner.Base.{
  ℕ, ◌+◌, ◌≤◌, ◌<◌, ◌≡◌, refl, sym, ap, ◌∙◌, inl, inr, false, Bool-cases, none, some, List, [], ◌∷◌,
  ◌++◌, ◌==◌, ==_iff, if◌then◌else◌, arith, All,
}
use prop_miner.Stratum.Session.{
  PendingSubmit, find, erase, ShareDropKind, pool_ack_timeout, connection_lost, Effect, submit_wire,
  share_drop, share_callback, pool_response, drops_of, is_stale, split_stale,
}

abbrev pub Waiting : Type 0
Waiting = List (ℕ × PendingSubmit)

-- No id is listed twice.
abbrev pub IsDistinct : Waiting → Type 0
IsDistinct [] = Unit
IsDistinct (e ∷ m) = (find ◌==◌ m e.0 ≡ none) × IsDistinct m

-- 1 where a submission waits under the id.
unfoldable pub waits : ℕ → Waiting → ℕ
waits id m = elim (find ◌==◌ m id) [ some p ↦ 1 | none ↦ 0 ]

-- 1 where a report is about the request `id`, with a nonce that is waited for.
unfoldable pub about : ℕ → ℕ → ℕ → ℕ
about id nonce other = if nonce == 0 then 0 else if other == id then 1 else 0

unfoldable pub submits : ℕ → Effect → ℕ
submits id (submit_wire nonce other) = about id nonce other
submits id _ = 0

-- An answer of the pool, its absence in time, and the loss of the connection settle a submission: the
-- reports that carry its nonce. A later answer to the same id is reported without a nonce, and is
-- counted by `responses` below.
unfoldable pub settles : ℕ → Effect → ℕ
settles id (pool_response accepted nonce other) = about id nonce other
settles id (share_drop pool_ack_timeout nonce other) = about id nonce other
settles id (share_drop connection_lost nonce other) = about id nonce other
settles id _ = 0

-- 1 for a call of the share callback, and for a line of the log about an answer, with any nonce.
unfoldable pub callbacks : Effect → ℕ
callbacks (share_callback accepted msg) = 1
callbacks _ = 0

unfoldable pub responses : Effect → ℕ
responses (pool_response accepted nonce id) = 1
responses _ = 0

-- A report that an answer has not come in time.
unfoldable pub times_out : ℕ → Effect → ℕ
times_out id (share_drop pool_ack_timeout nonce other) = about id nonce other
times_out id _ = 0

unfoldable pub total : (Effect → ℕ) → List Effect → ℕ
total f [] = 0
total f (e ∷ es) = f e + total f es

pub total-append :
    (f : Effect → ℕ) (xs ys : List Effect) → total f (xs ++ ys) ≡ total f xs + total f ys
unfolding total
total-append f [] ys = omega arith
total-append f (x ∷ xs) ys = omega (arith, total-append f xs ys)

pub All-erase {κ} :
    (P : ℕ × PendingSubmit → Type κ) (m : Waiting) (id : ℕ) → All P m → All P (erase ◌==◌ m id)
unfolding erase
All-erase P [] id h = tt
All-erase P (e ∷ m) id h = elim (Bool-cases (e.0 == id)) [
  | inl same ↦ rw (same, erase) (All-erase P m id h.1)
  | inr other ↦ rw (other, erase) (h.0, All-erase P m id h.1)
]

pub find-erase_self : (m : Waiting) (id : ℕ) → find ◌==◌ (erase ◌==◌ m id) id ≡ none
unfolding find erase
find-erase_self [] id = refl
find-erase_self (e ∷ m) id = elim (Bool-cases (e.0 == id)) [
  | inl same ↦ rw (same, erase) (find-erase_self m id)
  | inr other ↦ rw (other, erase, other, find) (find-erase_self m id)
]

pub find-erase_other :
    (m : Waiting) (id k : ℕ) → (id == k) ≡ false → find ◌==◌ (erase ◌==◌ m id) k ≡ find ◌==◌ m k
unfolding find erase
find-erase_other [] id k h = refl
find-erase_other (e ∷ m) id k h = ground (arith, find-erase_other m id k h)

pub find-erase-none :
    (m : Waiting) (id k : ℕ) → find ◌==◌ m k ≡ none → find ◌==◌ (erase ◌==◌ m id) k ≡ none
find-erase-none m id k h = elim (Bool-cases (id == k)) [
  | inl same ↦ let e : id ≡ k = (==_iff id k).0 same in rw e (find-erase_self m k)
  | inr other ↦ find-erase_other m id k other ∙ h
]

pub erase-IsDistinct : (m : Waiting) (id : ℕ) → IsDistinct m → IsDistinct (erase ◌==◌ m id)
unfolding erase
erase-IsDistinct [] id h = tt
erase-IsDistinct (e ∷ m) id h = elim (Bool-cases (e.0 == id)) [
  | inl same ↦ rw (same, erase) (erase-IsDistinct m id h.1)
  | inr other ↦ rw (other, erase) (find-erase-none m id e.0 h.0, erase-IsDistinct m id h.1)
]

-- An id above all that are listed is not among them.
pub find_above : (m : Waiting) (r id : ℕ) → All (λ e. e.0 ≤ r) m → r < id → find ◌==◌ m id ≡ none
unfolding find
find_above [] r id h lt = refl
find_above (e ∷ m) r id h lt = ground (arith, find_above m r id h.1 lt)

-- Every nonce that is waited for is one that a submission has.
abbrev pub HasNonce : ℕ × PendingSubmit → Type 0
HasNonce e = (e.1.nonce == 0) ≡ false

pub waits-cons :
    (id : ℕ) (e : ℕ × PendingSubmit) (m : Waiting)
    → HasNonce e
    → find ◌==◌ m e.0 ≡ none
    → waits id (e ∷ m) ≡ about id e.1.nonce e.0 + waits id m
unfolding waits about find
waits-cons id e m h fresh = elim (Bool-cases (e.0 == id)) [
  | inl same ↦
      let at : e.0 ≡ id = (==_iff e.0 id).0 same in
      let none_here : find ◌==◌ m id ≡ none = ap (find ◌==◌ m) (sym at) ∙ fresh in
      let waits-none : waits id m ≡ 0 = rw (none_here, waits) refl in
      rw (waits-none, h, waits, find, same) refl
  | inr other ↦ rw (h, waits, find, other) (omega arith)
]

-- A loss of the connection settles what waits.
pub total-drops_of_lost :
    (id : ℕ) (m : Waiting)
    → All HasNonce m
    → IsDistinct m
    → total (settles id) (drops_of connection_lost m) ≡ waits id m
unfolding total settles drops_of
total-drops_of_lost id [] h d = unfold waits find in refl
total-drops_of_lost id (e ∷ m) h d =
    omega (arith, total-drops_of_lost id m h.1 d.1, waits-cons id e m h.0 d.0)

pub submits-drops_of :
    (id : ℕ) (kind : ShareDropKind) (m : Waiting) → total (submits id) (drops_of kind m) ≡ 0
unfolding total submits drops_of
submits-drops_of id kind [] = refl
submits-drops_of id kind (e ∷ m) = omega (arith, submits-drops_of id kind m)

pub answers-drops_of :
    (kind : ShareDropKind) (m : Waiting)
    → (total callbacks (drops_of kind m) ≡ 0) × (total responses (drops_of kind m) ≡ 0)
unfolding total callbacks responses drops_of
answers-drops_of kind [] = (refl, refl)
answers-drops_of kind (e ∷ m) =
    let (calls, lines) = answers-drops_of kind m in (omega (arith, calls), omega (arith, lines))

pub times_out-drops_of :
    (id : ℕ) (m : Waiting)
    → total (times_out id) (drops_of pool_ack_timeout m)
      ≡ total (settles id) (drops_of pool_ack_timeout m)
unfolding total times_out settles drops_of
times_out-drops_of id [] = refl
times_out-drops_of id (e ∷ m) = omega (arith, times_out-drops_of id m)

pub All-split_stale {κ} :
    (P : ℕ × PendingSubmit → Type κ) (now : ℕ) (m : Waiting)
    → All P m
    → All P (split_stale now m).0 × All P (split_stale now m).1
unfolding split_stale
All-split_stale P now [] h = (tt, tt)
All-split_stale P now (e ∷ m) h =
    let ih = All-split_stale P now m h.1 in
    elim (Bool-cases (is_stale now e.1)) [
      | inl stale ↦ rw (stale, split_stale) ((h.0, ih.0), ih.1)
      | inr kept ↦ rw (kept, split_stale) (ih.0, (h.0, ih.1))
    ]

pub find-split_stale :
    (now : ℕ) (m : Waiting) (k : ℕ)
    → find ◌==◌ m k ≡ none
    → find ◌==◌ (split_stale now m).1 k ≡ none
unfolding split_stale find
find-split_stale now [] k h = refl
find-split_stale now (e ∷ m) k h = ground (arith, find-split_stale now m k)

pub split_stale-IsDistinct :
    (now : ℕ) (m : Waiting) → IsDistinct m → IsDistinct (split_stale now m).1
unfolding split_stale
split_stale-IsDistinct now [] h = tt
split_stale-IsDistinct now (e ∷ m) h =
    let ih = split_stale-IsDistinct now m h.1 in
    elim (Bool-cases (is_stale now e.1)) [
      | inl stale ↦ rw (stale, split_stale) ih
      | inr kept ↦ rw (kept, split_stale) (find-split_stale now m e.0 h.0, ih)
    ]

-- What is kept is not stale.
pub split_stale_young :
    (now : ℕ) (m : Waiting) → All (λ e. is_stale now e.1 ≡ false) (split_stale now m).1
unfolding split_stale
split_stale_young now [] = tt
split_stale_young now (e ∷ m) =
    let ih = split_stale_young now m in
    elim (Bool-cases (is_stale now e.1)) [
      | inl stale ↦ rw (stale, split_stale) ih
      | inr kept ↦ rw (kept, split_stale) (kept, ih)
    ]

-- What waits is either reported as too late or kept.
pub total-split_stale :
    (now id : ℕ) (m : Waiting)
    → All HasNonce m
    → IsDistinct m
    → total (settles id) (drops_of pool_ack_timeout (split_stale now m).0)
        + waits id (split_stale now m).1
      ≡ waits id m
unfolding split_stale total settles drops_of
total-split_stale now id [] h d = omega arith
total-split_stale now id (e ∷ m) h d =
    let ih = total-split_stale now id m h.1 d.1 in
    let whole = waits-cons id e m h.0 d.0 in
    elim (Bool-cases (is_stale now e.1)) [
      | inl stale ↦ rw (stale, split_stale) (omega (arith, ih, whole))
      | inr kept ↦
          rw (kept, split_stale)
            (omega (
              arith,
              ih,
              whole,
              waits-cons id e (split_stale now m).1 h.0 (find-split_stale now m e.0 d.0),
            ))
    ]
