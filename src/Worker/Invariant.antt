-- ===== src/Worker/Invariant.antt =====
-- The invariant of the installation of jobs in gpu_worker.cpp, and the steps of the mining thread.
use prop_miner.Base.{◌⊎◌, ℕ, suc, ◌≤◌, ◌<◌, ◌≡◌, ◌≢◌, List, [], ◌∷◌, All, arith}
use prop_miner.Worker.Install.{Round, mining, taking, chosen, installing_sync, deciding, Worker}

-- `x` is older than `y`, if `y` is there.
abbrev pub Below : ℕ → ℕ → Type 0
Below x y = (y ≡ 0) ⊎ (x < y)

abbrev pub Apart : ℕ → ℕ → Type 0
Apart x y = (y ≡ 0) ⊎ (x ≢ y)

-- What is ready is older than what is being installed, and that than what is to be installed.
abbrev pub IsOrdered : Worker → Type 0
IsOrdered w =
    (w.sigma ≡ w.published)
    × (w.async_requested ≤ w.sigma)
    × (w.async_pending ≤ w.async_requested)
    × (w.to_install ≤ w.async_requested)
    × (w.async_ready ≤ w.async_requested)
    × (w.async_failed ≤ w.async_requested)
    × Below w.to_install w.async_pending
    × Below w.async_ready w.to_install
    × Below w.async_ready w.async_pending
    × Below w.async_failed w.to_install
    × Below w.async_failed w.async_pending
    × Apart w.async_failed w.async_ready

-- A job that is nowhere on its way.
abbrev pub IsAhead : Worker → ℕ → Type 0
IsAhead w c = (w.async_pending < c) × (w.to_install < c) × (w.async_ready < c)

unfoldable pub IsRound : Worker → Round → Type 0
IsRound w mining = Unit
IsRound w taking = Unit
IsRound w (chosen c) =
    (0 < c)
    × (c ≤ w.sigma)
    × (w.async_requested ≤ c)
    × (c ≢ w.current)
    × ((0 < w.current) ⊎ IsAhead w c)
IsRound w (installing_sync c) = (0 < c) × (c ≤ w.sigma) × (w.async_requested ≤ c) × IsAhead w c
IsRound w (deciding c) =
    (0 < c)
    × (c ≤ w.async_requested)
    × Below c w.async_ready
    × Below c w.to_install
    × Below c w.async_pending

-- What is mined is not on its way; without a job, the latest one is not on its way either.
abbrev pub IsCurrent : Worker → Type 0
IsCurrent w =
    (w.current ≤ w.sigma)
    × ((w.current ≡ 0)
        ⊎ ((w.current ≢ w.async_pending)
            × (w.current ≢ w.to_install)
            × (w.current ≢ w.async_ready)))
    × ((0 < w.current) ⊎ ((w.sigma ≡ 0) ⊎ IsAhead w w.sigma))

unfoldable pub Past : ℕ → Round → Type 0
Past x mining = Unit
Past x taking = Unit
Past x (chosen c) = x < c
Past x (installing_sync c) = x < c
Past x (deciding c) = x ≢ c

-- A job that has been freed.
abbrev pub IsGone : Worker → Round → ℕ → Type 0
IsGone w r x =
    (0 < x)
    × (x < w.sigma)
    × (x ≢ w.async_pending)
    × (x ≢ w.to_install)
    × (x ≢ w.async_ready)
    × (x ≢ w.current)
    × Past x r

abbrev pub IsFine : Worker → Round → Type 0
IsFine w r = IsOrdered w × IsRound w r × IsCurrent w × All (IsGone w r) w.freed

pub keep :
    (w v : Worker) (r r' : Round) (xs : List ℕ)
    → All (IsGone w r) xs
    → ((x : ℕ) → IsGone w r x → IsGone v r' x)
    → All (IsGone v r') xs
keep w v r r' [] h f = tt
keep w v r r' (x ∷ xs) h f = (f x h.0, keep w v r r' xs h.1 f)

pub set_sigma-IsFine :
    (w : Worker) (r : Round)
    → IsFine w r
    → IsFine (record w { published = suc w.published; sigma = suc w.published }) r
unfolding IsRound Past
set_sigma-IsFine w r h =
    let v = record w { published = suc w.published; sigma = suc w.published } in
    (
      ground (arith, h.0),
      at r h.0 h.1,
      ground (arith, h.0, h.2),
      keep w v r r w.freed h.3 (λ x g. (g.0, omega (arith, g.1, h.0.0), g.2, g.3, g.4, g.5, g.6)),
    )
  where
    at :
        (r : Round)
        → IsOrdered w
        → IsRound w r
        → IsRound (record w { published = suc w.published; sigma = suc w.published }) r
    at mining o p = tt
    at taking o p = tt
    at (chosen c) o p = (p.0, omega (arith, p.1, o.0), p.2, p.3, p.4)
    at (installing_sync c) o p = (p.0, omega (arith, p.1, o.0), p.2, p.3)
    at (deciding c) o p = p

pub see_new-IsFine :
    (w : Worker)
    → w.sigma ≢ 0
    → w.sigma ≢ w.current
    → IsFine w mining
    → IsFine (record w { round = chosen w.sigma }) (chosen w.sigma)
unfolding IsRound Past
see_new-IsFine w s k h =
    let v = record w { round = chosen w.sigma } in
    (
      h.0,
      (omega arith, omega arith, omega (arith, h.0.1), k, ground (arith, h.2)),
      h.2,
      keep w v mining (chosen w.sigma) w.freed h.3 (λ x g. (g.0, g.1, g.2, g.3, g.4, g.5, g.1)),
    )

-- A round that goes on without a job in hand.
pub calm-IsFine :
    (w : Worker) (r : Round) → IsFine w r → IsFine (record w { round = taking }) taking
unfolding IsRound Past
calm-IsFine w r h = (
  h.0,
  tt,
  h.2,
  keep w (record w { round = taking }) r taking w.freed h.3
      (λ x g. (g.0, g.1, g.2, g.3, g.4, g.5, tt)),
)

pub rest-IsFine :
    (w : Worker) (r : Round) → IsFine w r → IsFine (record w { round = mining }) mining
unfolding IsRound Past
rest-IsFine w r h = (
  h.0,
  tt,
  h.2,
  keep w (record w { round = mining }) r mining w.freed h.3
      (λ x g. (g.0, g.1, g.2, g.3, g.4, g.5, tt)),
)

pub first_job-IsFine :
    (w : Worker) (c : ℕ)
    → w.current ≡ 0
    → IsFine w (chosen c)
    → IsFine (record w { round = installing_sync c }) (installing_sync c)
unfolding IsRound Past
first_job-IsFine w c k h =
    let v = record w { round = installing_sync c } in
    (h.0, ground (arith, h.1), h.2, keep w v (chosen c) (installing_sync c) w.freed h.3 (λ x g. g))

pub fall_back-IsFine :
    (w : Worker) (c : ℕ)
    → w.async_failed ≡ c
    → IsFine w (chosen c)
    → IsFine (record w { async_failed = 0; round = installing_sync c }) (installing_sync c)
unfolding IsRound Past
fall_back-IsFine w c f h =
    let v = record w { async_failed = 0; round = installing_sync c } in
    (
      ground (arith, h.0),
      ground (arith, h.0, h.1),
      h.2,
      keep w v (chosen c) (installing_sync c) w.freed h.3 (λ x g. g),
    )

pub submit_async_install-IsFine :
    (w : Worker) (c : ℕ)
    → w.current ≢ 0
    → w.async_failed ≢ c
    → w.async_requested ≢ c
    → IsFine w (chosen c)
    → IsFine (record w { async_requested = c; async_pending = c; round = taking }) taking
unfolding IsRound Past
submit_async_install-IsFine w c k f r h =
    let v = record w { async_requested = c; async_pending = c; round = taking } in
    (
      ground (arith, h.0, h.1),
      tt,
      ground (arith, h.1, h.2),
      keep w v (chosen c) taking w.freed h.3
          (λ x g. (g.0, g.1, ground (arith, g.6), g.3, g.4, g.5, tt)),
    )

pub install_sync-IsFine :
    (w : Worker) (c : ℕ)
    → IsFine w (installing_sync c)
    → IsFine (record w { current = c; round = mining }) mining
unfolding IsRound Past
install_sync-IsFine w c h =
    let v = record w { current = c; round = mining } in
    (
      h.0,
      tt,
      ground (arith, h.1),
      keep w v (installing_sync c) mining w.freed h.3
          (λ x g. (g.0, g.1, g.2, g.3, g.4, ground (arith, g.6), tt)),
    )

pub install_throws-IsFine :
    (w : Worker) (c : ℕ)
    → IsFine w (installing_sync c)
    → IsFine (record w { current = 0; round = mining }) mining
unfolding IsRound Past
install_throws-IsFine w c h =
    let v = record w { current = 0; round = mining } in
    (
      h.0,
      tt,
      ground (arith, h.1),
      keep w v (installing_sync c) mining w.freed h.3
          (λ x g. (g.0, g.1, g.2, g.3, g.4, ground (arith, g.0), tt)),
    )

pub take_ready-IsFine :
    (w : Worker)
    → w.async_ready ≢ 0
    → IsFine w taking
    → IsFine (record w { async_ready = 0; round = deciding w.async_ready }) (deciding w.async_ready)
unfolding IsRound Past
take_ready-IsFine w y h =
    let v = record w { async_ready = 0; round = deciding w.async_ready } in
    (
      ground (arith, h.0),
      ground (arith, h.0),
      ground (arith, h.2),
      keep w v taking (deciding w.async_ready) w.freed h.3
          (λ x g. (g.0, g.1, g.2, g.3, ground (arith, g.0), g.5, g.4)),
    )

pub swap-IsFine :
    (w : Worker) (c : ℕ)
    → c ≡ w.sigma
    → IsFine w (deciding c)
    → IsFine (record w { current = c; round = mining }) mining
unfolding IsRound Past
swap-IsFine w c e h =
    let v = record w { current = c; round = mining } in
    (
      h.0,
      tt,
      ground (arith, h.0, h.1),
      keep w v (deciding c) mining w.freed h.3 (λ x g. (g.0, g.1, g.2, g.3, g.4, g.6, tt)),
    )

pub drop_stale-IsFine :
    (w : Worker) (c : ℕ)
    → c ≢ w.sigma
    → c ≢ w.current
    → IsFine w (deciding c)
    → IsFine (record w { freed = c ∷ w.freed; round = mining }) mining
unfolding IsRound Past
drop_stale-IsFine w c s k h =
    let v = record w { freed = c ∷ w.freed; round = mining } in
    (
      h.0,
      tt,
      h.2,
      (
        ground (arith, h.0, h.1),
        keep w v (deciding c) mining w.freed h.3 (λ x g. (g.0, g.1, g.2, g.3, g.4, g.5, tt)),
      ),
    )
