-- ===== src/Orchestrator/Health.antt =====
-- backoff_ms and monitor_gpu_progress of worker_orchestrator.cpp. A time is a number of milliseconds.
use prop_miner.Base.{
  ◌⊎◌, ℕ, zero, suc, ◌+◌, ◌-◌, ◌*◌, ◌/◌, ◌^◌, ◌≤◌, ◌≡◌, sym, subst, inl, inr, Bool, true, false,
  not, Bool-cases, List, [], ◌∷◌, ltb, leb, ◌==◌, if◌then◌else◌, arith, All,
}

unfoldable pub min : ℕ → ℕ → ℕ
min a b = if ltb a b then a else b

unfoldable pub max : ℕ → ℕ → ℕ
max a b = if ltb a b then b else a

-- `PROPMINER_POOL_BACKOFF_MAX_MS`, raised to 5000; 120000 where it is not set.
unfoldable pub backoff_base : ℕ → ℕ → ℕ
backoff_base max_ms attempt = min (5000 * 2 ^ min attempt 5) max_ms

-- `jitter` is what the distribution gives, between 0 and `max(1, ms / 4)`.
unfoldable pub backoff_ms : ℕ → ℕ → ℕ → ℕ
backoff_ms max_ms attempt jitter = backoff_base max_ms attempt + jitter

pub record GpuProgressHealth : Type 0 where
  pub last_iters : ℕ
  pub last_change_ms : ℕ
  pub soft_recovery_count : ℕ
  pub abort_requested : Bool

pub data Action : Type 0 where
  no_action soft_recovery batch_abort : Action

-- One GPU of the loop of monitor_gpu_progress, behind its first sample, at the time `now` and with the count `iters`. `warn_ms` and
-- `abort_ms` are progress_stall_warn_ms and progress_stall_abort_ms.
unfoldable pub check_gpu : ℕ → ℕ → ℕ → ℕ → GpuProgressHealth → GpuProgressHealth × Action
check_gpu warn_ms abort_ms now iters h =
    let stalled_ms = now - h.last_change_ms in
    if not (iters == h.last_iters)
    then (
      record {
        last_iters = iters;
        last_change_ms = now;
        soft_recovery_count = 0;
        abort_requested = false;
      },
      no_action,
    )
    else if ltb stalled_ms warn_ms
    then (h, no_action)
    else if leb abort_ms stalled_ms
    then if h.abort_requested
      then (h, no_action)
      else (record h { abort_requested = true }, batch_abort)
    else if h.soft_recovery_count == 0
    then (record h { soft_recovery_count = 1 }, soft_recovery)
    else (h, no_action)

-- A sample: the time, and the count of iterations.
abbrev pub Sample : Type 0
Sample = ℕ × ℕ

-- What the samples of one GPU lead to.
unfoldable pub check_samples : ℕ → ℕ → List Sample → GpuProgressHealth → List Action
check_samples warn_ms abort_ms [] h = []
check_samples warn_ms abort_ms ((now, iters) ∷ samples) h =
    let (h', action) = check_gpu warn_ms abort_ms now iters h in
    action ∷ check_samples warn_ms abort_ms samples h'

unfoldable pub count_of : (Action → ℕ) → List Action → ℕ
count_of weight [] = 0
count_of weight (a ∷ rest) = weight a + count_of weight rest

abbrev pub is_soft : Action → ℕ
is_soft no_action = 0
is_soft soft_recovery = 1
is_soft batch_abort = 0

abbrev pub is_abort : Action → ℕ
is_abort no_action = 0
is_abort soft_recovery = 0
is_abort batch_abort = 1

-- How much of a budget of one is left.
abbrev left_soft : GpuProgressHealth → ℕ
left_soft h = if h.soft_recovery_count == 0 then 1 else 0

abbrev left_abort : GpuProgressHealth → ℕ
left_abort h = if h.abort_requested then 0 else 1

-- While the count stands still.
abbrev pub IsStill : ℕ → List Sample → Type 0
IsStill iters = All (λ s. s.1 ≡ iters)

check_gpu_still :
    (warn_ms abort_ms now iters : ℕ) (h : GpuProgressHealth)
    → iters ≡ h.last_iters
    → ((check_gpu warn_ms abort_ms now iters h).0.last_iters ≡ h.last_iters)
      × ((check_gpu warn_ms abort_ms now iters h).0.last_change_ms ≡ h.last_change_ms)
      × (is_soft (check_gpu warn_ms abort_ms now iters h).1
            + left_soft (check_gpu warn_ms abort_ms now iters h).0
          ≡ left_soft h)
      × (is_abort (check_gpu warn_ms abort_ms now iters h).1
            + left_abort (check_gpu warn_ms abort_ms now iters h).0
          ≡ left_abort h)
unfolding check_gpu
check_gpu_still warn_ms abort_ms now iters h e = ground arith

min_above : (a : ℕ) → 5 ≤ a → min a 5 ≡ 5
unfolding min
min_above a h = ground arith

doubles : (a : ℕ) → (1 ≤ 2 ^ min a 5) × (2 ^ min a 5 ≤ 2 ^ min (suc a) 5)
unfolding min
doubles zero = (omega arith, omega arith)
doubles (suc zero) = (omega arith, omega arith)
doubles (suc (suc zero)) = (omega arith, omega arith)
doubles (suc (suc (suc zero))) = (omega arith, omega arith)
doubles (suc (suc (suc (suc zero)))) = (omega arith, omega arith)
doubles (suc (suc (suc (suc (suc a))))) =
    rw
      (
        min_above (suc (suc (suc (suc (suc a))))) (omega arith),
        min_above (suc (suc (suc (suc (suc (suc a)))))) (omega arith),
      )
      (omega arith, omega arith)

-- Over the doubling `p`, and that of the next attempt.
backoff_bounds :
    (max_ms p q jitter : ℕ)
    → 5000 ≤ max_ms
    → 1 ≤ p
    → p ≤ q
    → jitter ≤ max 1 (min (5000 * p) max_ms / 4)
    → (5000 ≤ min (5000 * p) max_ms + jitter)
      × (min (5000 * p) max_ms + jitter ≤ max_ms + max_ms / 4)
      × (min (5000 * p) max_ms ≤ min (5000 * q) max_ms)
unfolding min max
backoff_bounds max_ms p q jitter h one le j = ground arith

-- A pause is at least five seconds and at most a quarter above its maximum, and its base does not
-- fall from one attempt to the next; the maximum is five seconds at least, and the jitter is what
-- the distribution allows.
pub backoff_ms_lem :
    (max_ms attempt jitter : ℕ)
    → 5000 ≤ max_ms
    → jitter ≤ max 1 (backoff_base max_ms attempt / 4)
    → (5000 ≤ backoff_ms max_ms attempt jitter)
      × (backoff_ms max_ms attempt jitter ≤ max_ms + max_ms / 4)
      × (backoff_base max_ms attempt ≤ backoff_base max_ms (suc attempt))
unfolding backoff_ms backoff_base
backoff_ms_lem max_ms attempt jitter h j =
    let (one, more) = doubles attempt in
    backoff_bounds max_ms (2 ^ min attempt 5) (2 ^ min (suc attempt) 5) jitter h one more j

stall_once :
    (warn_ms abort_ms : ℕ) (samples : List Sample) (h : GpuProgressHealth)
    → IsStill h.last_iters samples
    → (count_of is_soft (check_samples warn_ms abort_ms samples h) ≤ left_soft h)
      × (count_of is_abort (check_samples warn_ms abort_ms samples h) ≤ left_abort h)
unfolding check_samples count_of
stall_once warn_ms abort_ms [] h still = (omega arith, omega arith)
stall_once warn_ms abort_ms ((now, iters) ∷ samples) h still =
    let h' = (check_gpu warn_ms abort_ms now iters h).0 in
    let (same, at, soft, aborts) = check_gpu_still warn_ms abort_ms now iters h still.0 in
    let still' : IsStill h'.last_iters samples =
      subst (λ n. IsStill n samples) (sym same) still.1 in
    let rest = stall_once warn_ms abort_ms samples h' still' in
    (omega (arith, rest.0, soft), omega (arith, rest.1, aborts))

check_samples_once :
    (warn_ms abort_ms : ℕ) (samples : List Sample) (h : GpuProgressHealth)
    → IsStill h.last_iters samples
    → (count_of is_soft (check_samples warn_ms abort_ms samples h) ≤ 1)
      × (count_of is_abort (check_samples warn_ms abort_ms samples h) ≤ 1)
check_samples_once warn_ms abort_ms samples h still =
    let (soft, aborts) = stall_once warn_ms abort_ms samples h still in
    (ground (arith, soft), ground (arith, aborts))

-- A sample comes `abort_ms` or more after the last change.
abbrev pub IsLate : ℕ → List Sample → Type 0
IsLate limit [] = ⊥
IsLate limit ((now, iters) ∷ samples) = (limit ≤ now) ⊎ IsLate limit samples

check_gpu_late :
    (warn_ms abort_ms now iters : ℕ) (h : GpuProgressHealth)
    → warn_ms ≤ abort_ms
    → iters ≡ h.last_iters
    → h.abort_requested ≡ false
    → h.last_change_ms + abort_ms ≤ now
    → is_abort (check_gpu warn_ms abort_ms now iters h).1 ≡ 1
unfolding check_gpu
check_gpu_late warn_ms abort_ms now iters h le e none_yet late = ground arith

stall_found :
    (warn_ms abort_ms : ℕ) (samples : List Sample) (h : GpuProgressHealth)
    → warn_ms ≤ abort_ms
    → h.abort_requested ≡ false
    → IsStill h.last_iters samples
    → IsLate (h.last_change_ms + abort_ms) samples
    → 1 ≤ count_of is_abort (check_samples warn_ms abort_ms samples h)
unfolding check_samples count_of
stall_found warn_ms abort_ms [] h le none_yet still late = absurd late
stall_found warn_ms abort_ms ((now, iters) ∷ samples) h le none_yet still late =
    let h' = (check_gpu warn_ms abort_ms now iters h).0 in
    let (same, at, soft, aborts) = check_gpu_still warn_ms abort_ms now iters h still.0 in
    let still' : IsStill h'.last_iters samples =
      subst (λ n. IsStill n samples) (sym same) still.1 in
    elim late [
      | inl now_late ↦
          let now_asked =
            check_gpu_late warn_ms abort_ms now iters h le still.0 none_yet now_late in
          omega (arith, now_asked)
      | inr later ↦ elim (Bool-cases h'.abort_requested) [
        | inl asked ↦ ground (arith, aborts)
        | inr not_asked ↦
            let later' : IsLate (h'.last_change_ms + abort_ms) samples =
              subst (λ t. IsLate (t + abort_ms) samples) (sym at) later in
            omega (arith, stall_found warn_ms abort_ms samples h' le not_asked still' later')
      ]
    ]

-- A stall is found and dealt with once: if the count of iterations stands still, no abort has been
-- requested, and some sample comes as late as the abort limit, exactly one abort is requested, and
-- one soft recovery at most; the limit of the warning is not above that of the abort.
pub check_samples_found :
    (warn_ms abort_ms : ℕ) (samples : List Sample) (h : GpuProgressHealth)
    → warn_ms ≤ abort_ms
    → h.abort_requested ≡ false
    → IsStill h.last_iters samples
    → IsLate (h.last_change_ms + abort_ms) samples
    → (count_of is_abort (check_samples warn_ms abort_ms samples h) ≡ 1)
      × (count_of is_soft (check_samples warn_ms abort_ms samples h) ≤ 1)
check_samples_found warn_ms abort_ms samples h le none_yet still late =
    let found = stall_found warn_ms abort_ms samples h le none_yet still late in
    let (soft, aborts) = check_samples_once warn_ms abort_ms samples h still in (omega arith, soft)
