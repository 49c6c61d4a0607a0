-- ===== src/Worker/Watchdog.antt =====
-- src/host/pearl/watchdog.cpp: one worker that beats, and the thread that looks at it. A time is a
-- number of milliseconds of the steady clock. The text that it writes is not modelled.
use prop_miner.Base.{
  ◌⊎◌, ℕ, ◌+◌, ◌-◌, ◌*◌, ◌≤◌, ◌<◌, ◌≡◌, refl, inl, inr, ap, ◌∙◌, Bool, true, false, ◌&&◌, ◌||◌,
  Bool-cases, List, [], ◌∷◌, ltb, if◌then◌else◌, arith,
}

pub record Watchdog : Type 0 where
  pub running : Bool
  pub triggered : Bool
  pub last_heartbeat_ms : ℕ
  pub period_ms : ℕ

unfoldable pub start : Watchdog → ℕ → ℕ → Watchdog
start w period_ms now = record w { period_ms = period_ms; last_heartbeat_ms = now; running = true }

unfoldable pub stop : Watchdog → Watchdog
stop w = record w { running = false }

unfoldable pub heartbeat : Watchdog → ℕ → Watchdog
heartbeat w now = record w { last_heartbeat_ms = now }

-- Whether a round of thread_func calls for a recovery.
unfoldable pub is_stalled : Watchdog → ℕ → Bool → Bool
is_stalled w now cuda_stuck =
    w.running && (ltb (w.period_ms * 3) (now - w.last_heartbeat_ms) || cuda_stuck)

-- A round of thread_func after its sleep: at `now` it looks, and at `later` the callback has
-- returned or thrown. The second part says whether the callback is called.
unfoldable pub poll : Watchdog → ℕ → Bool → ℕ → Watchdog × Bool
poll w now cuda_stuck later =
    if is_stalled w now cuda_stuck
    then (record w { triggered = true; last_heartbeat_ms = later }, true)
    else (w, false)

-- What happens to a watchdog: a beat at a time, or a round at a time.
pub data Event : Type 0 where
  beat : ℕ → Event
  look : ℕ → Bool → ℕ → Event

-- The times at which the callback is called.
unfoldable pub calls : Watchdog → List Event → List ℕ
calls w [] = []
calls w (beat t ∷ es) = calls (heartbeat w t) es
calls w (look now stuck later ∷ es) =
    let (w', called) = poll w now stuck later in if called then now ∷ calls w' es else calls w' es

-- Each look comes at most three periods after the last beat, and finds no error of the driver.
unfoldable pub IsLively : ℕ → ℕ → List Event → Type 0
IsLively period last [] = Unit
IsLively period last (beat t ∷ es) = IsLively period t es
IsLively period last (look now stuck later ∷ es) =
    (now ≤ last + period * 3) × (stuck ≡ false) × IsLively period last es

-- Looks alone, each at most `gap` after the one before it.
unfoldable pub looks : List ℕ → List Event
looks [] = []
looks (t ∷ ts) = look t false t ∷ looks ts

abbrev pub IsSpaced : ℕ → ℕ → List ℕ → Type 0
IsSpaced gap last [] = Unit
IsSpaced gap last (t ∷ ts) = (t ≤ last + gap) × IsSpaced gap t ts

abbrev pub IsPassed : ℕ → List ℕ → Type 0
IsPassed limit [] = ⊥
IsPassed limit (t ∷ ts) = (limit < t) ⊎ IsPassed limit ts

in_time :
    (w : Watchdog) (now : ℕ)
    → now ≤ w.last_heartbeat_ms + w.period_ms * 3
    → is_stalled w now false ≡ false
unfolding is_stalled
in_time w now h = ground arith

too_late :
    (w : Watchdog) (now : ℕ)
    → w.running ≡ true
    → w.last_heartbeat_ms + w.period_ms * 3 < now
    → is_stalled w now false ≡ true
unfolding is_stalled
too_late w now r h = ground arith

-- While a worker beats so that no look finds its last beat more than three periods back, the
-- watchdog never calls for a recovery.
pub calls_lively :
    (w : Watchdog) (es : List Event) → IsLively w.period_ms w.last_heartbeat_ms es → calls w es ≡ []
unfolding calls IsLively heartbeat poll
calls_lively w [] h = refl
calls_lively w (beat t ∷ es) h = calls_lively (record w { last_heartbeat_ms = t }) es h
calls_lively w (look now stuck later ∷ es) h =
    let calm : is_stalled w now stuck ≡ false = ap (is_stalled w now) h.1 ∙ in_time w now h.0 in
    rw (calm, calls) (calls_lively w es h.2)

calls_silent_from :
    (w : Watchdog) (gap last : ℕ) (ts : List ℕ)
    → w.running ≡ true
    → last ≤ w.last_heartbeat_ms + w.period_ms * 3
    → IsSpaced gap last ts
    → IsPassed (w.last_heartbeat_ms + w.period_ms * 3) ts
    → (t : ℕ) × (rest : List ℕ) × (calls w (looks ts) ≡ t ∷ rest)
      × (w.last_heartbeat_ms + w.period_ms * 3 < t)
      × (t ≤ w.last_heartbeat_ms + w.period_ms * 3 + gap)
unfolding calls looks poll
calls_silent_from w gap last [] r l s p = absurd p
calls_silent_from w gap last (t ∷ ts) r l s p =
    elim (Bool-cases (ltb (w.last_heartbeat_ms + w.period_ms * 3) t)) [
      | inl late ↦
          let stalled = too_late w t r (ground arith) in
          (
            t,
            calls (record w { triggered = true; last_heartbeat_ms = t }) (looks ts),
            rw (stalled, calls) refl,
            ground arith,
            omega (arith, l, s.0),
          )
      | inr early ↦
          let calm = in_time w t (ground arith) in
          let (t', rest, e, after, before) =
            calls_silent_from w gap t ts r (ground arith) s.1 (ground (arith, p)) in
          (t', rest, rw (calm, calls) e, after, before)
    ]

-- A worker that has stopped beating is found: if the watchdog runs, looks at least every `gap`
-- milliseconds, and goes on for more than three periods, its first call for a recovery comes
-- after the three periods and at most `gap` behind them.
pub calls_silent :
    (w : Watchdog) (gap : ℕ) (ts : List ℕ)
    → w.running ≡ true
    → IsSpaced gap w.last_heartbeat_ms ts
    → IsPassed (w.last_heartbeat_ms + w.period_ms * 3) ts
    → (t : ℕ) × (rest : List ℕ) × (calls w (looks ts) ≡ t ∷ rest)
      × (w.last_heartbeat_ms + w.period_ms * 3 < t)
      × (t ≤ w.last_heartbeat_ms + w.period_ms * 3 + gap)
calls_silent w gap ts r s p = calls_silent_from w gap w.last_heartbeat_ms ts r (omega arith) s p
