-- ===== src/Orchestrator/Jobs.antt =====
-- src/host/pearl/job_bus.cpp, derive_job_key of job_key.cpp, and the jobs and targets that
-- worker_orchestrator.cpp hands to its workers. A SigmaContext is named by a number; its job's target
-- stands in a store, since vardiff changes it.
use prop_miner.Base.{
  ℕ, suc, ◌%◌, ◌^◌, ◌≡◌, Bool, true, Option, none, some, List, [], ◌∷◌, ◌++◌, ◌==◌, if◌then◌else◌,
  map, All, arith, refl, sym, ap, ap₂, subst,
}
use prop_miner.Config.{MiningConfig, config_bytes}

-- `hash` is that of the Rust library.
unfoldable pub derive_job_key : (List ℕ → List ℕ) → List ℕ → MiningConfig → List ℕ
derive_job_key hash sigma cfg = hash (sigma ++ config_bytes cfg)

pub record JobBus : Type 0 where
  pub ctx : Option ℕ
  pub version : ℕ

unfoldable pub publish : JobBus → ℕ → JobBus
publish bus ctx = record { ctx = some ctx; version = suc bus.version % 2 ^ 64 }

unfoldable pub drain_latest : JobBus → Option ℕ × ℕ
drain_latest bus = (bus.ctx, bus.version)

-- What a worker is told: its job and its target.
pub record Slot : Type 0 where
  pub sigma : Option ℕ
  pub target_nbits : ℕ
  pub target_dirty : Bool

pub record Orchestrator : Type 0 where
  pub bus : JobBus
  pub workers : List Slot
  pub targets : ℕ → ℕ
  pub contexts : ℕ
  pub live_share_target_nbits : ℕ

unfoldable pub set_target : (ℕ → ℕ) → ℕ → ℕ → ℕ → ℕ
set_target targets ctx nbits c = if c == ctx then nbits else targets c

unfoldable pub set_target_nbits : ℕ → Slot → Slot
set_target_nbits nbits slot = record slot { target_nbits = nbits; target_dirty = true }

unfoldable pub install : ℕ → ℕ → Slot → Slot
install nbits ctx slot = record (set_target_nbits nbits slot) { sigma = some ctx }

-- publish_job_from_assignment; the context is a new one. What the first job starts is not modelled.
unfoldable pub publish_job_from_assignment : Orchestrator → ℕ → Orchestrator
publish_job_from_assignment o nbits = record {
  bus = publish o.bus o.contexts;
  workers = map (install nbits o.contexts) o.workers;
  targets = set_target o.targets o.contexts nbits;
  contexts = suc o.contexts;
  live_share_target_nbits = nbits;
}

-- The Vardiff case of handle_pool_event, and the callback of a stratum session.
unfoldable pub vardiff : Orchestrator → ℕ → Orchestrator
vardiff o nbits = record o {
  live_share_target_nbits = nbits;
  workers = map (set_target_nbits nbits) o.workers;
  targets = elim o.bus.ctx [ some ctx ↦ set_target o.targets ctx nbits | none ↦ o.targets ];
}

unfoldable pub set_sigma : ℕ → Slot → Slot
set_sigma ctx slot = record slot { sigma = some ctx }

-- The callback of the watchdog, and the republishing of a soft recovery, where no other thread
-- publishes between the two halves.
unfoldable pub republish_latest : Orchestrator → Option ℕ → Orchestrator
republish_latest o none = o
republish_latest o (some ctx) = record o { workers = map (set_sigma ctx) o.workers }

unfoldable pub republish : Orchestrator → Orchestrator
republish o = republish_latest o (drain_latest o.bus).0

-- What the pool, the watchdog and the watch over the GPUs do to the jobs, one at a time.
pub data Event : Type 0 where
  new_job : ℕ → Event
  new_target : ℕ → Event
  recovery : Event

unfoldable pub after_events : Orchestrator → List Event → Orchestrator
after_events o [] = o
after_events o (new_job nbits ∷ es) = after_events (publish_job_from_assignment o nbits) es
after_events o (new_target nbits ∷ es) = after_events (vardiff o nbits) es
after_events o (recovery ∷ es) = after_events (republish o) es

-- Every worker has the job of the bus, and the target is the same everywhere.
abbrev pub IsInStep : Orchestrator → Type 0
IsInStep o =
    All (λ slot. (slot.sigma ≡ o.bus.ctx) × (slot.target_nbits ≡ o.live_share_target_nbits))
      o.workers
    × ((ctx : ℕ) → o.bus.ctx ≡ some ctx → o.targets ctx ≡ o.live_share_target_nbits)

All-install :
    (nbits ctx : ℕ) (slots : List Slot)
    → All
        (λ slot. (slot.sigma ≡ some ctx) × (slot.target_nbits ≡ nbits))
        (map (install nbits ctx) slots)
unfolding install set_target_nbits
All-install nbits ctx [] = tt
All-install nbits ctx (slot ∷ slots) = ((refl, refl), All-install nbits ctx slots)

All-set_target_nbits :
    (nbits old : ℕ) (ctx : Option ℕ) (slots : List Slot)
    → All (λ slot. (slot.sigma ≡ ctx) × (slot.target_nbits ≡ old)) slots
    → All
        (λ slot. (slot.sigma ≡ ctx) × (slot.target_nbits ≡ nbits))
        (map (set_target_nbits nbits) slots)
unfolding set_target_nbits
All-set_target_nbits nbits old ctx [] h = tt
All-set_target_nbits nbits old ctx (slot ∷ slots) h =
    ((h.0.0, refl), All-set_target_nbits nbits old ctx slots h.1)

set_target_self : (targets : ℕ → ℕ) (ctx nbits : ℕ) → set_target targets ctx nbits ctx ≡ nbits
unfolding set_target
set_target_self targets ctx nbits = ground arith

publish-IsInStep : (o : Orchestrator) (nbits : ℕ) → IsInStep (publish_job_from_assignment o nbits)
unfolding publish_job_from_assignment publish
publish-IsInStep o nbits = (
  All-install nbits o.contexts o.workers,
  λ ctx e.
      let same : o.contexts ≡ ctx = cc e in
      subst (λ c. set_target o.targets o.contexts nbits c ≡ nbits) same
        (set_target_self o.targets o.contexts nbits),
)

vardiff-IsInStep : (o : Orchestrator) (nbits : ℕ) → IsInStep o → IsInStep (vardiff o nbits)
unfolding vardiff
vardiff-IsInStep o nbits h = (
  All-set_target_nbits nbits o.live_share_target_nbits o.bus.ctx o.workers h.0,
  λ ctx e. rw (e, vardiff) (set_target_self o.targets ctx nbits),
)

set_sigma_same :
    (ctx nbits : ℕ) (slots : List Slot)
    → All (λ slot. (slot.sigma ≡ some ctx) × (slot.target_nbits ≡ nbits)) slots
    → map (set_sigma ctx) slots ≡ slots
unfolding set_sigma
set_sigma_same ctx nbits [] h = refl
set_sigma_same ctx nbits (slot ∷ slots) h =
    ap₂ ◌∷◌ (ap (λ c. record slot { sigma = c }) (sym h.0.0)) (set_sigma_same ctx nbits slots h.1)

republish_latest_idle :
    (o : Orchestrator) (c : Option ℕ)
    → All (λ slot. (slot.sigma ≡ c) × (slot.target_nbits ≡ o.live_share_target_nbits)) o.workers
    → republish_latest o c ≡ o
unfolding republish_latest
republish_latest_idle o none h = refl
republish_latest_idle o (some ctx) h =
    ap (λ slots. record o { workers = slots })
      (set_sigma_same ctx o.live_share_target_nbits o.workers h)

-- A recovery hands each worker the job that it has.
republish_idle : (o : Orchestrator) → IsInStep o → republish o ≡ o
unfolding republish drain_latest
republish_idle o h = republish_latest_idle o o.bus.ctx h.0

-- From a state in step, over any sequence of jobs, of new targets and of recoveries, every worker has
-- the latest job of the bus and the latest target, which is also that of the job and of the test
-- before a share is sent; and so a recovery, of the watchdog or of the watch over the GPUs, changes
-- nothing.
pub after_events-IsInStep :
    (o : Orchestrator) (es : List Event)
    → IsInStep o
    → IsInStep (after_events o es) × (republish (after_events o es) ≡ after_events o es)
unfolding after_events
after_events-IsInStep o [] h = (h, republish_idle o h)
after_events-IsInStep o (new_job nbits ∷ es) h =
    after_events-IsInStep (publish_job_from_assignment o nbits) es (publish-IsInStep o nbits)
after_events-IsInStep o (new_target nbits ∷ es) h =
    after_events-IsInStep (vardiff o nbits) es (vardiff-IsInStep o nbits h)
after_events-IsInStep o (recovery ∷ es) h =
    after_events-IsInStep (republish o) es (subst IsInStep (sym (republish_idle o h)) h)
