-- ===== src/Stratum/Valid.antt =====
-- The invariant of a session of pearl_stratum_client.cpp: the ids that wait are distinct, none is
-- above the last request, each has a nonce, and none is that of a challenge response.
use prop_miner.Base.{
  ℕ, suc, ◌≤◌, ◌≡◌, refl, inl, inr, false, Bool-cases, List, [], ◌∷◌, ◌==◌, arith, All, none,
}
use prop_miner.Stratum.Session.{
  PendingSubmit, Session, find, erase, put, Effect, split_stale, flush_stale_pending_submits,
  flush_all_pending_submits, disconnect,
}
use prop_miner.Stratum.Messages.{erase_id}
use prop_miner.Stratum.Moves.{Moves, kept, challenged, response_answered, share_answered}
use prop_miner.Stratum.Submit.{Attempt, refused, untracked, tracked}
use prop_miner.Stratum.Pending.{
  Waiting, IsDistinct, HasNonce, All-erase, find-erase_self, find-erase-none, erase-IsDistinct,
  find_above, All-split_stale, find-split_stale, split_stale-IsDistinct,
}

-- The last request's id, the ids of the challenge responses, and what waits.
abbrev pub IsOrdered : ℕ → List ℕ → Waiting → Type 0
IsOrdered r ids m =
    All (λ e. e.0 ≤ r) m
    × All HasNonce m
    × IsDistinct m
    × All (λ id. id ≤ r) ids
    × All (λ id. find ◌==◌ m id ≡ none) ids

abbrev pub IsValid : {F : Type 0} → Session F → Type 0
IsValid s = IsOrdered s.request_id s.challenge_resp_ids s.pending

pub All-map {ℓ κ μ} :
    {A : Type ℓ} (P : A → Type κ) (Q : A → Type μ) (xs : List A)
    → ((x : A) → P x → Q x)
    → All P xs
    → All Q xs
All-map P Q [] f h = tt
All-map P Q (x ∷ xs) f h = (f x h.0, All-map P Q xs f h.1)

pub All-erase_id {κ} :
    (P : ℕ → Type κ) (ids : List ℕ) (id : ℕ) → All P ids → All P (erase_id ids id)
unfolding erase_id
All-erase_id P [] id h = tt
All-erase_id P (x ∷ ids) id h = elim (Bool-cases (x == id)) [
  | inl same ↦ rw (same, erase_id) (All-erase_id P ids id h.1)
  | inr other ↦ rw (other, erase_id) (h.0, All-erase_id P ids id h.1)
]

raise-IsOrdered : (r : ℕ) (ids : List ℕ) (m : Waiting) → IsOrdered r ids m → IsOrdered (suc r) ids m
raise-IsOrdered r ids m h = (
  All-map _ _ m (λ e le. omega arith) h.0,
  h.1,
  h.2,
  All-map _ _ ids (λ id le. omega arith) h.3,
  h.4,
)

pub fresh_id : (r : ℕ) (ids : List ℕ) (m : Waiting) → IsOrdered r ids m → find ◌==◌ m (suc r) ≡ none
fresh_id r ids m h = find_above m r (suc r) h.0 (omega arith)

-- A challenge response takes the next id.
respond-IsOrdered :
    (r : ℕ) (ids : List ℕ) (m : Waiting)
    → IsOrdered r ids m
    → IsOrdered (suc r) (suc r ∷ erase_id ids (suc r)) m
respond-IsOrdered r ids m h =
    let up = raise-IsOrdered r ids m h in
    (
      up.0,
      up.1,
      up.2,
      (omega arith, All-erase_id _ ids (suc r) up.3),
      (fresh_id r ids m h, All-erase_id _ ids (suc r) up.4),
    )

answered-IsOrdered :
    (r : ℕ) (ids : List ℕ) (m : Waiting) (id : ℕ)
    → IsOrdered r ids m
    → IsOrdered r ids (erase ◌==◌ m id)
answered-IsOrdered r ids m id h = (
  All-erase _ m id h.0,
  All-erase _ m id h.1,
  erase-IsDistinct m id h.2,
  h.3,
  All-map _ _ ids (λ k gone. find-erase-none m id k gone) h.4,
)

-- A new id is not one of the responses'.
new_id_apart :
    (r : ℕ) (p : PendingSubmit) (m : Waiting) (ids : List ℕ)
    → All (λ id. id ≤ r) ids
    → All (λ id. find ◌==◌ m id ≡ none) ids
    → All (λ id. find ◌==◌ ((suc r, p) ∷ m) id ≡ none) ids
unfolding find
new_id_apart r p m [] le h = tt
new_id_apart r p m (id ∷ ids) le h =
    let other : (suc r == id) ≡ false = ground (arith, le.0) in
    (rw other h.0, new_id_apart r p m ids le.1 h.1)

-- A submission takes the next id.
put-IsOrdered :
    (r : ℕ) (ids : List ℕ) (m : Waiting) (p : PendingSubmit)
    → (p.nonce == 0) ≡ false
    → IsOrdered r ids m
    → IsOrdered (suc r) ids (put ◌==◌ m (suc r) p)
unfolding put find
put-IsOrdered r ids m p nonce h =
    let up = raise-IsOrdered r ids (erase ◌==◌ m (suc r)) (answered-IsOrdered r ids m (suc r) h) in
    (
      (omega arith, up.0),
      (nonce, up.1),
      (find-erase_self m (suc r), up.2),
      up.3,
      new_id_apart r p (erase ◌==◌ m (suc r)) ids h.3 up.4,
    )

stale-IsOrdered :
    (r : ℕ) (ids : List ℕ) (m : Waiting) (now : ℕ)
    → IsOrdered r ids m
    → IsOrdered r ids (split_stale now m).1
stale-IsOrdered r ids m now h = (
  (All-split_stale _ now m h.0).1,
  (All-split_stale _ now m h.1).1,
  split_stale-IsDistinct now m h.2,
  h.3,
  All-map _ _ ids (λ k gone. find-split_stale now m k gone) h.4,
)

module _ {F : Type 0} where
  pub Moves-IsValid : (s s' : Session F) (es : List Effect) → Moves s s' es → IsValid s → IsValid s'
  Moves-IsValid s s' es (kept p r c quiet) h = rw (p, r, c) h
  Moves-IsValid s s' es (challenged p r (inl c) quiet) h = rw (p, r, c) (raise-IsOrdered _ _ _ h)
  Moves-IsValid s s' es (challenged p r (inr c) quiet) h = rw (p, r, c) (respond-IsOrdered _ _ _ h)
  Moves-IsValid s s' es (response_answered id p r c quiet) h =
      rw (p, r, c) (h.0, h.1, h.2, All-erase_id _ _ id h.3, All-erase_id _ _ id h.4)
  Moves-IsValid s s' es (share_answered id accepted err p r c e) h =
      rw (p, r, c) (answered-IsOrdered _ _ _ id h)

  pub Attempt-IsValid :
      (s s' : Session F) (es : List Effect) (now nonce : ℕ)
      → Attempt now nonce s s' es
      → IsValid s
      → IsValid s'
  Attempt-IsValid s s' es now nonce (refused e quiet) h = rw e h
  Attempt-IsValid s s' es now nonce (untracked p r c quiet) h =
      rw (p, r, c) (raise-IsOrdered _ _ _ h)
  Attempt-IsValid s s' es now nonce (tracked has p r c counts) h =
      rw (p, r, c) (put-IsOrdered _ _ _ _ has h)

  pub flush_stale-IsValid :
      (now : ℕ) (s : Session F) → IsValid s → IsValid (flush_stale_pending_submits now s).0
  unfolding flush_stale_pending_submits
  flush_stale-IsValid now s h = stale-IsOrdered _ _ _ now h

  pub flush_all-IsValid : (s : Session F) → IsValid s → IsValid (flush_all_pending_submits s).0
  unfolding flush_all_pending_submits
  flush_all-IsValid s h = (tt, tt, tt, h.3, All-map _ _ _ (λ id gone. unfold find in refl) h.4)

  pub disconnect-IsValid : (s : Session F) → IsValid s → IsValid (disconnect s).0
  unfolding disconnect
  disconnect-IsValid s h = flush_all-IsValid s h
