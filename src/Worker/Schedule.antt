-- ===== src/Worker/Schedule.antt =====
-- From every state of the installation of jobs in gpu_worker.cpp the worker can come to mine the latest
-- job.
use prop_miner.Base.{
  ◌⊎◌, ℕ, ◌≡◌, ◌≢◌, refl, sym, subst, ◌∙◌, inl, inr, Bool-cases, ◌==◌, ==_iff, ◌∷◌, arith,
}
use prop_miner.Worker.Install.{
  Round, mining, taking, chosen, installing_sync, deciding, Worker, Step, see_new, first_job,
  fall_back, requested_before, submit_async_install, install_sync, take_none, take_ready, swap,
  drop_stale, ready_again, take_pending, installed, installed_over, installed_again, Reach, next,
}
use prop_miner.Worker.Invariant.{IsFine}
use prop_miner.Worker.Safety.{Reach-IsFine}
use prop_miner.Worker.Progress.{InHand, IsKept, Reach-IsKept}

-- Steps of the worker's two threads, without a new job from the pool.
pub data Quiet : Worker → Worker → Type 0 where
  still : {w : Worker} → Quiet w w
  then : {w v u : Worker} → Step w v → v.published ≡ w.published → Quiet v u → Quiet w u

-- Such steps lead to a state in which the job `s` is mined.
abbrev pub Mines : ℕ → Worker → Type 0
Mines s w = (v : Worker) × Quiet w v × (v.current ≡ s)

by_step : (s : ℕ) (w v : Worker) → Step w v → v.published ≡ w.published → Mines s v → Mines s w
by_step s w v step e (u, q, mined) = (u, then step e q, mined)

same_or_not : (a b : ℕ) → (a ≡ b) ⊎ (a ≢ b)
same_or_not a b = elim (Bool-cases (a == b)) [
  | inl e ↦ inl ((==_iff a b).0 e)
  | inr e ↦ inr (ground arith)
]

-- The synchronous installation, of a first job and of one that failed.
first-Mines : (w : Worker) → w.round ≡ mining → w.sigma ≢ 0 → w.current ≡ 0 → Mines w.sigma w
first-Mines w e s k = by_step w.sigma w _ (see_new e s (ground arith)) refl (
    by_step w.sigma _ _ (first_job w.sigma refl k) refl
      (by_step w.sigma _ _ (install_sync w.sigma refl) refl (_, still, refl)))

failed-Mines :
    (w : Worker)
    → w.round ≡ mining
    → w.sigma ≢ 0
    → w.sigma ≢ w.current
    → w.current ≢ 0
    → w.async_failed ≡ w.sigma
    → Mines w.sigma w
failed-Mines w e s k k0 f = by_step w.sigma w _ (see_new e s k) refl (
    by_step w.sigma _ _ (fall_back w.sigma refl k0 f) refl
      (by_step w.sigma _ _ (install_sync w.sigma refl) refl (_, still, refl)))

ready-Mines :
    (w : Worker)
    → w.round ≡ mining
    → w.sigma ≢ 0
    → w.sigma ≢ w.current
    → w.current ≢ 0
    → w.async_requested ≡ w.sigma
    → w.async_ready ≡ w.sigma
    → Mines w.sigma w
ready-Mines w e s k k0 r y = elim (same_or_not w.async_failed w.sigma) [
  | inl f ↦ failed-Mines w e s k k0 f
  | inr f ↦
      let there : w.async_ready ≢ 0 = ground arith in
      let other : w.async_ready ≢ w.current = ground arith in
      by_step w.sigma w _ (see_new e s k) refl (
        by_step w.sigma _ _ (requested_before w.sigma refl k0 f r) refl (
          by_step w.sigma _ _ (take_ready refl there) refl
            (by_step w.sigma _ _ (swap w.async_ready refl y other) refl (_, still, y))))
]

install-Mines :
    (w : Worker)
    → w.round ≡ mining
    → w.sigma ≢ 0
    → w.sigma ≢ w.current
    → w.current ≢ 0
    → w.async_requested ≡ w.sigma
    → w.to_install ≡ w.sigma
    → Mines w.sigma w
install-Mines w e s k k0 r t =
    let there : w.to_install ≢ 0 = ground arith in
    elim (same_or_not w.async_ready 0) [
      | inl y ↦
          by_step w.sigma w _ (installed there y) refl
            (ready-Mines (record w { async_ready = w.to_install; to_install = 0 }) e s k k0 r t)
      | inr y ↦ elim (same_or_not w.async_ready w.to_install) [
        | inl d ↦ ready-Mines w e s k k0 r (d ∙ t)
        | inr d ↦ by_step w.sigma w _ (installed_over there y d) refl (
            ready-Mines
              (record w {
                async_ready = w.to_install;
                to_install = 0;
                freed = w.async_ready ∷ w.freed;
              })
              e s k k0 r t)
      ]
    ]

taken-Mines :
    (w : Worker)
    → w.round ≡ mining
    → w.sigma ≢ 0
    → w.sigma ≢ w.current
    → w.current ≢ 0
    → w.async_requested ≡ w.sigma
    → w.async_pending ≡ w.sigma
    → w.to_install ≡ 0
    → Mines w.sigma w
taken-Mines w e s k k0 r p t =
    let there : w.async_pending ≢ 0 = ground arith in
    by_step w.sigma w _ (take_pending t there) refl
      (install-Mines (record w { to_install = w.async_pending; async_pending = 0 }) e s k k0 r p)

pending-Mines :
    (w : Worker)
    → w.round ≡ mining
    → w.sigma ≢ 0
    → w.sigma ≢ w.current
    → w.current ≢ 0
    → w.async_requested ≡ w.sigma
    → w.async_pending ≡ w.sigma
    → Mines w.sigma w
pending-Mines w e s k k0 r p = elim (same_or_not w.to_install 0) [
  | inl t ↦ taken-Mines w e s k k0 r p t
  | inr t ↦ elim (same_or_not w.async_ready 0) [
    | inl y ↦
        by_step w.sigma w _ (installed t y) refl
          (taken-Mines (record w { async_ready = w.to_install; to_install = 0 }) e s k k0 r p refl)
    | inr y ↦ elim (same_or_not w.async_ready w.to_install) [
      | inl d ↦
          by_step w.sigma w _ (installed_again t d) refl
            (taken-Mines (record w { to_install = 0 }) e s k k0 r p refl)
      | inr d ↦ by_step w.sigma w _ (installed_over t y d) refl (
          taken-Mines
            (record w {
              async_ready = w.to_install;
              to_install = 0;
              freed = w.async_ready ∷ w.freed;
            })
            e s k k0 r p refl)
    ]
  ]
]

request-Mines :
    (w : Worker)
    → w.round ≡ mining
    → w.sigma ≢ 0
    → w.sigma ≢ w.current
    → w.current ≢ 0
    → w.async_failed ≢ w.sigma
    → w.async_requested ≢ w.sigma
    → IsFine w mining
    → Mines w.sigma w
request-Mines w e s k k0 f r h =
    let requested = record w {
      async_requested = w.sigma;
      async_pending = w.sigma;
      round = taking;
    } in
    by_step w.sigma w _ (see_new e s k) refl (
      by_step w.sigma _ requested (submit_async_install w.sigma refl k0 f r) refl
        (elim (same_or_not w.async_ready 0) [
          | inl y ↦
              by_step w.sigma requested _ (take_none refl y) refl
                (pending-Mines (record requested { round = mining }) refl s k k0 refl refl)
          | inr y ↦
              let stale : w.async_ready ≢ w.sigma = ground (arith, h.0) in
              let other : w.async_ready ≢ w.current = ground (arith, h.2) in
              by_step w.sigma requested _ (take_ready refl y) refl (
                by_step w.sigma _ _ (drop_stale w.async_ready refl stale other) refl (
                  pending-Mines
                    (record requested {
                      async_ready = 0;
                      freed = w.async_ready ∷ w.freed;
                      round = mining;
                    })
                    refl s k k0 refl refl))
        ]))

mining-Mines : (w : Worker) → Reach w → w.round ≡ mining → w.sigma ≢ 0 → Mines w.sigma w
unfolding InHand
mining-Mines w reach e s = elim (same_or_not w.sigma w.current) [
  | inl done ↦ (w, still, sym done)
  | inr k ↦ elim (same_or_not w.current 0) [
    | inl k0 ↦ first-Mines w e s k0
    | inr k0 ↦ elim (same_or_not w.async_failed w.sigma) [
      | inl f ↦ failed-Mines w e s k k0 f
      | inr f ↦ elim (same_or_not w.async_requested w.sigma) [
        | inr r ↦ request-Mines w e s k k0 f r (subst (IsFine w) e (Reach-IsFine w reach))
        | inl r ↦ by_way (subst (IsKept w) e (Reach-IsKept w reach)) k k0 f r
      ]
    ]
  ]
]
  where
    by_way :
        IsKept w mining
        → w.sigma ≢ w.current
        → w.current ≢ 0
        → w.async_failed ≢ w.sigma
        → w.async_requested ≡ w.sigma
        → Mines w.sigma w
    by_way (inl none_yet) k k0 f r = absurd (k0 none_yet)
    by_way (inr (inl done)) k k0 f r = absurd (k (sym done))
    by_way (inr (inr (inl other))) k k0 f r = absurd (other r)
    by_way (inr (inr (inr (inl p)))) k k0 f r = pending-Mines w e s k k0 r p
    by_way (inr (inr (inr (inr (inl t))))) k k0 f r = install-Mines w e s k k0 r t
    by_way (inr (inr (inr (inr (inr (inl y)))))) k k0 f r = ready-Mines w e s k k0 r y
    by_way (inr (inr (inr (inr (inr (inr (inl failed))))))) k k0 f r = absurd (f failed)
    by_way (inr (inr (inr (inr (inr (inr (inr in_hand))))))) k k0 f r = absurd in_hand

deciding-Mines :
    (w : Worker) (c : ℕ) → Reach w → w.round ≡ deciding c → w.sigma ≢ 0 → Mines w.sigma w
deciding-Mines w c reach e s = elim (same_or_not c w.current) [
  | inl again ↦
      let step = ready_again c e again in
      by_step w.sigma w _ step refl
        (mining-Mines (record w { round = mining }) (next reach step) refl s)
  | inr k ↦ elim (same_or_not c w.sigma) [
    | inl wanted ↦ by_step w.sigma w _ (swap c e wanted k) refl (_, still, wanted)
    | inr stale ↦
        let step = drop_stale c e stale k in
        by_step w.sigma w _ step refl
          (mining-Mines (record w { freed = c ∷ w.freed; round = mining }) (next reach step) refl s)
  ]
]

taking-Mines : (w : Worker) → Reach w → w.round ≡ taking → w.sigma ≢ 0 → Mines w.sigma w
taking-Mines w reach e s = elim (same_or_not w.async_ready 0) [
  | inl y ↦
      let step = take_none e y in
      by_step w.sigma w _ step refl
        (mining-Mines (record w { round = mining }) (next reach step) refl s)
  | inr y ↦
      let step = take_ready e y in
      by_step w.sigma w _ step refl (
        deciding-Mines (record w { async_ready = 0; round = deciding w.async_ready }) w.async_ready
          (next reach step) refl s)
]

sync-Mines :
    (w : Worker) (c : ℕ) → Reach w → w.round ≡ installing_sync c → w.sigma ≢ 0 → Mines w.sigma w
sync-Mines w c reach e s =
    let step = install_sync c e in
    by_step w.sigma w _ step refl
      (mining-Mines (record w { current = c; round = mining }) (next reach step) refl s)

chosen-Mines : (w : Worker) (c : ℕ) → Reach w → w.round ≡ chosen c → w.sigma ≢ 0 → Mines w.sigma w
chosen-Mines w c reach e s = elim (same_or_not w.current 0) [
  | inl k0 ↦
      let step = first_job c e k0 in
      by_step w.sigma w _ step refl
        (sync-Mines (record w { round = installing_sync c }) c (next reach step) refl s)
  | inr k0 ↦ elim (same_or_not w.async_failed c) [
    | inl f ↦
        let step = fall_back c e k0 f in
        by_step w.sigma w _ step refl (
          sync-Mines (record w { async_failed = 0; round = installing_sync c }) c (next reach step)
            refl s)
    | inr f ↦ elim (same_or_not w.async_requested c) [
      | inl r ↦
          let step = requested_before c e k0 f r in
          by_step w.sigma w _ step refl
            (taking-Mines (record w { round = taking }) (next reach step) refl s)
      | inr r ↦
          let step = submit_async_install c e k0 f r in
          by_step w.sigma w _ step refl (
            taking-Mines (record w { async_requested = c; async_pending = c; round = taking })
              (next reach step) refl s)
    ]
  ]
]

-- The worker is never wedged on an old job: from every state that the threads come to, once the pool
-- has published a job, steps of the mining and the installing thread alone lead to a state in which
-- the latest one is mined.
pub Reach-Mines : (w : Worker) → Reach w → w.sigma ≢ 0 → Mines w.sigma w
Reach-Mines w reach s = by_round w.round refl
  where
    by_round : (r : Round) → w.round ≡ r → Mines w.sigma w
    by_round mining e = mining-Mines w reach e s
    by_round taking e = taking-Mines w reach e s
    by_round (chosen c) e = chosen-Mines w c reach e s
    by_round (installing_sync c) e = sync-Mines w c reach e s
    by_round (deciding c) e = deciding-Mines w c reach e s
