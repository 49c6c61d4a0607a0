-- ===== src/Worker/Install.antt =====
-- The installation of a new job beside the mining: set_sigma, the part of GpuWorker::run that chooses
-- the job, submit_async_install, take_async_ready, async_install_failed and async_install_loop of
-- gpu_worker.cpp, as the steps of three threads, where the installation beside the mining is switched
-- on. There is one worker: the orchestrator gives the same SigmaContext to the workers of all GPUs, and
-- what another worker does to it is not modelled. A SigmaContext is a number, given out in the order
-- in which they are published, and 0 is the null pointer. A step is what a thread does while it
-- holds a mutex, or what only that thread sees.
use prop_miner.Base.{ℕ, suc, ◌≡◌, ◌≢◌, List, [], ◌∷◌}

-- Where the mining thread stands in a round: before it, with the new job that it saw (0 for none),
-- before the installation of a job, before it looks for what is ready, and with what was ready.
pub data Round : Type 0 where
  mining taking : Round
  chosen : ℕ → Round
  installing_sync : ℕ → Round
  deciding : ℕ → Round

pub record Worker : Type 0 where
  pub published : ℕ
  pub sigma : ℕ
  pub async_requested : ℕ
  pub async_pending : ℕ
  pub to_install : ℕ
  pub async_ready : ℕ
  pub async_failed : ℕ
  pub current : ℕ
  pub round : Round
  pub freed : List ℕ

pub data Step (w : Worker) : Worker → Type 0 where
  -- publish_job_from_assignment: a new context, and set_sigma.
  set_sigma : Step w (record w { published = suc w.published; sigma = suc w.published })
  -- The choice of `new_sigma`.
  see_new :
      w.round ≡ mining
      → w.sigma ≢ 0
      → w.sigma ≢ w.current
      → Step w (record w { round = chosen w.sigma })
  see_none : w.round ≡ mining → w.sigma ≡ w.current → Step w (record w { round = taking })
  -- No job is mined yet: the synchronous installation.
  first_job :
      (c : ℕ) → w.round ≡ chosen c → w.current ≡ 0 → Step w (record w { round = installing_sync c })
  -- `async_install_failed`, and the way back to the synchronous installation.
  fall_back :
      (c : ℕ)
      → w.round ≡ chosen c
      → w.current ≢ 0
      → w.async_failed ≡ c
      → Step w (record w { async_failed = 0; round = installing_sync c })
  -- `submit_async_install`, of a job that has been requested and of another one.
  requested_before :
      (c : ℕ)
      → w.round ≡ chosen c
      → w.current ≢ 0
      → w.async_failed ≢ c
      → w.async_requested ≡ c
      → Step w (record w { round = taking })
  submit_async_install :
      (c : ℕ)
      → w.round ≡ chosen c
      → w.current ≢ 0
      → w.async_failed ≢ c
      → w.async_requested ≢ c
      → Step w (record w { async_requested = c; async_pending = c; round = taking })
  -- The synchronous installation, and one that throws.
  install_sync :
      (c : ℕ) → w.round ≡ installing_sync c → Step w (record w { current = c; round = mining })
  install_throws :
      (c : ℕ) → w.round ≡ installing_sync c → Step w (record w { current = 0; round = mining })
  -- `take_async_ready`.
  take_none : w.round ≡ taking → w.async_ready ≡ 0 → Step w (record w { round = mining })
  take_ready :
      w.round ≡ taking
      → w.async_ready ≢ 0
      → Step w (record w { async_ready = 0; round = deciding w.async_ready })
  -- What is ready is mined if it is still wanted, and freed if not.
  swap :
      (c : ℕ)
      → w.round ≡ deciding c
      → c ≡ w.sigma
      → c ≢ w.current
      → Step w (record w { current = c; round = mining })
  drop_stale :
      (c : ℕ)
      → w.round ≡ deciding c
      → c ≢ w.sigma
      → c ≢ w.current
      → Step w (record w { freed = c ∷ w.freed; round = mining })
  ready_again :
      (c : ℕ) → w.round ≡ deciding c → c ≡ w.current → Step w (record w { round = mining })
  -- The installing thread takes a job, and installs it or fails.
  take_pending :
      w.to_install ≡ 0
      → w.async_pending ≢ 0
      → Step w (record w { to_install = w.async_pending; async_pending = 0 })
  installed :
      w.to_install ≢ 0
      → w.async_ready ≡ 0
      → Step w (record w { async_ready = w.to_install; to_install = 0 })
  installed_over :
      w.to_install ≢ 0
      → w.async_ready ≢ 0
      → w.async_ready ≢ w.to_install
      → Step w
          (record w { async_ready = w.to_install; to_install = 0; freed = w.async_ready ∷ w.freed })
  installed_again :
      w.to_install ≢ 0 → w.async_ready ≡ w.to_install → Step w (record w { to_install = 0 })
  mark_failed : w.to_install ≢ 0 → Step w (record w { async_failed = w.to_install; to_install = 0 })

-- The worker before its first job.
abbrev pub started : Worker
started = record {
  published = 0;
  sigma = 0;
  async_requested = 0;
  async_pending = 0;
  to_install = 0;
  async_ready = 0;
  async_failed = 0;
  current = 0;
  round = mining;
  freed = [];
}

pub data Reach : Worker → Type 0 where
  begin : Reach started
  next : {w v : Worker} → Reach w → Step w v → Reach v
