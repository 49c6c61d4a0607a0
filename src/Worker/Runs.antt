-- ===== src/Worker/Runs.antt =====
-- The theorems of Worker at concrete inputs, and runs.
use prop_miner.Base.{
  ℕ, suc, ◌+◌, ◌/◌, ◌%◌, ◌^◌, ◌≡◌, ◌≤◌, ◌<◌, All, refl, false, not, ◌*◌, ◌++◌, inl, inr, true,
  false, List, [], ◌∷◌, ◌==◌, drop, replicate, if◌then◌else◌, arith,
}
use prop_miner.Worker.Watchdog.{Watchdog, calls, looks, calls_silent}
use prop_miner.Worker.Batch.{
  Half, Gpu, can_graph, scan_from, Replays, winners_of, queue_batch, scan_winners,
  queue_batch-winners_of,
}
use prop_miner.Worker.Late.{queue_batch_late}
use prop_miner.Worker.Install.{
  Worker, mining, set_sigma, see_new, first_job, submit_async_install, install_sync, take_ready,
  drop_stale, take_pending, installed, Reach, begin, next,
}
use prop_miner.Worker.Safety.{IsUnused, freed-IsUnused}
use prop_miner.Worker.Schedule.{Mines, Reach-Mines}

-- A GPU whose headers are only a status, 1 for every third nonce.
abbrev every_third : ℕ → ℕ
every_third n = if n % 3 == 0 then 1 else 0

-- What a launch over two nonces finds: one of them at most, as the kernel is not triggered again.
abbrev found : ℕ → List ℕ
found s = every_third s ∷ (if s % 3 == 0 then 0 else every_third ((s + 1) % 2 ^ 64)) ∷ []

abbrev first_hit : ℕ → List ℕ → List ℕ
first_hit s [] = []
first_hit s (h ∷ hs) = let rest = first_hit (suc s) hs in if s % 3 == 0 then 1 ∷ hs else 0 ∷ rest

abbrev small_gpu : Gpu ℕ
small_gpu = record {
  blank = 0;
  launch = λ triggered s hs. if triggered then hs else found s ++ drop 2 hs;
  iter_batch = λ triggered s hs. if triggered then hs else first_hit s hs;
  wait = λ off. true;
}

small_gpu-Replays : Replays small_gpu found 2
small_gpu-Replays s = (refl, λ rest. refl)

abbrev a_half : Half ℕ
a_half = record {
  batch_seed_start = 0;
  pow_target_nbits = 7;
  batch_mined_target_nbits = 0;
  host_headers = [];
  graph_ready = true;
}

batch_test :
    scan_winners small_gpu (λ h. h) (queue_batch small_gpu a_half 2 5 6) ≡ (6, 1) ∷ (9, 1) ∷ []
unfolding winners_of scan_from
batch_test =
    (queue_batch-winners_of small_gpu found (λ h. h) a_half 2 5 6 small_gpu-Replays
      (unfold can_graph in refl) (λ off. refl)).1

queue_batch_example :
    ((queue_batch small_gpu a_half 2 5 6).graph_ready ≡ true)
    × (scan_winners small_gpu (λ h. h) (queue_batch small_gpu a_half 2 5 6)
        ≡ winners_of small_gpu (λ h. h) found 2 5 (6 / 2))
queue_batch_example =
    queue_batch-winners_of small_gpu found (λ h. h) a_half 2 5 6 small_gpu-Replays
      (unfold can_graph in refl) (λ off. refl)

-- The same GPU, whose replay for the last two of six nonces is late: the winner 9 is reported as 5.
abbrev late_gpu : Gpu ℕ
late_gpu = record small_gpu { wait = λ off. not (off == 4) }

late_gpu-Replays : Replays late_gpu found 2
late_gpu-Replays s = (refl, λ rest. refl)

late_test : scan_winners late_gpu (λ h. h) (queue_batch late_gpu a_half 2 5 (3 * 2)) ≡ (5, 1) ∷ []
unfolding scan_from
late_test =
    (queue_batch_late late_gpu found (λ h. h) a_half 2 5 2 late_gpu-Replays (omega arith) refl
      refl).1

queue_batch_late_example :
    ((queue_batch late_gpu a_half 2 5 (3 * 2)).graph_ready ≡ false)
    × (scan_winners late_gpu (λ h. h) (queue_batch late_gpu a_half 2 5 (3 * 2))
        ≡ scan_from late_gpu
            (λ h. h)
            5
            (found ((5 + 2 * 2) % 2 ^ 64) ++ drop 2 (replicate (3 * 2) 0)))
queue_batch_late_example =
    queue_batch_late late_gpu found (λ h. h) a_half 2 5 2 late_gpu-Replays (omega arith) refl refl

-- The second job is installed beside the mining of the first, and the third comes before it is mined.
abbrev third_published : Worker
third_published = record {
  published = 3;
  sigma = 3;
  async_requested = 2;
  async_pending = 0;
  to_install = 0;
  async_ready = 0;
  async_failed = 0;
  current = 1;
  round = mining;
  freed = 2 ∷ [];
}

third_published-Reach : Reach third_published
third_published-Reach =
    let one = next begin set_sigma in
    let seen = next one (see_new refl (ground arith) (ground arith)) in
    let first = next (next seen (first_job 1 refl refl)) (install_sync 1 refl) in
    let two = next (next first set_sigma) (see_new refl (ground arith) (ground arith)) in
    let asked =
      next two (submit_async_install 2 refl (ground arith) (ground arith) (ground arith)) in
    let ready =
      next (next asked (take_pending refl (ground arith))) (installed (ground arith) refl) in
    let three = next (next ready (take_ready refl (ground arith))) set_sigma in
    next three (drop_stale 2 refl (ground arith) (ground arith))

freed-IsUnused_example : All (IsUnused third_published) (2 ∷ [])
freed-IsUnused_example = freed-IsUnused third_published third_published-Reach

Reach-Mines_example : Mines 3 third_published
Reach-Mines_example = Reach-Mines third_published third_published-Reach (ground arith)

-- A watchdog that looks every three seconds.
abbrev a_watchdog : Watchdog
a_watchdog = record { running = true; triggered = false; last_heartbeat_ms = 0; period_ms = 3000 }

calls_silent_example :
    (t : ℕ) × (rest : List ℕ) × (calls a_watchdog (looks (3000 ∷ 6000 ∷ 9000 ∷ 12000 ∷ []))
      ≡ t ∷ rest)
    × (9000 < t)
    × (t ≤ 12000)
calls_silent_example =
    calls_silent a_watchdog 3000 (3000 ∷ 6000 ∷ 9000 ∷ 12000 ∷ []) refl
      (omega arith, (omega arith, (omega arith, (omega arith, tt))))
      (inr (inr (inr (inl (omega arith)))))
