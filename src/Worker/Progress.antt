-- ===== src/Worker/Progress.antt =====
-- The latest job is never lost in gpu_worker.cpp: it is on its way, and it can be reached.
use prop_miner.Base.{◌⊎◌, ℕ, ◌≡◌, ◌≢◌, refl, subst, inl, inr, arith}
use prop_miner.Worker.Install.{
  Round, mining, taking, chosen, installing_sync, deciding, Worker, Step, set_sigma, see_new,
  see_none, first_job, fall_back, requested_before, submit_async_install, install_sync,
  install_throws, take_none, take_ready, swap, drop_stale, ready_again, take_pending, installed,
  installed_over, installed_again, mark_failed, Reach, begin, next,
}
use prop_miner.Worker.Invariant.{IsRound, IsFine}
use prop_miner.Worker.Safety.{Reach-IsFine}

-- The job `s` is in hand in a round.
unfoldable pub InHand : ℕ → Round → Type 0
InHand s mining = ⊥
InHand s taking = ⊥
InHand s (chosen c) = ⊥
InHand s (installing_sync c) = c ≡ s
InHand s (deciding c) = c ≡ s

abbrev pub IsOnWay : Worker → Round → Type 0
IsOnWay w r =
    (w.async_pending ≡ w.sigma)
    ⊎ ((w.to_install ≡ w.sigma)
        ⊎ ((w.async_ready ≡ w.sigma) ⊎ ((w.async_failed ≡ w.sigma) ⊎ InHand w.sigma r)))

-- A job that has been requested is on its way until it is mined.
abbrev pub IsKept : Worker → Round → Type 0
IsKept w r =
    (w.current ≡ 0) ⊎ ((w.current ≡ w.sigma) ⊎ ((w.async_requested ≢ w.sigma) ⊎ IsOnWay w r))

Step-IsKept : (w v : Worker) → Step w v → IsFine w w.round → IsKept w w.round → IsKept v v.round
unfolding InHand IsRound
Step-IsKept w v set_sigma f h = ground (arith, f.0)
Step-IsKept w v (see_new e s k) f h =
    let h' : IsKept w mining = subst (IsKept w) e h in ground (arith, h')
Step-IsKept w v (see_none e k) f h = ground (arith, k)
Step-IsKept w v (first_job c e k) f h = inl k
Step-IsKept w v (fall_back c e k failed) f h =
    let h' : IsKept w (chosen c) = subst (IsKept w) e h in ground (arith, h')
Step-IsKept w v (requested_before c e k failed r) f h =
    let h' : IsKept w (chosen c) = subst (IsKept w) e h in ground (arith, h')
Step-IsKept w v (submit_async_install c e k failed r) f h =
    let h' : IsKept w (chosen c) = subst (IsKept w) e h in ground (arith, h')
Step-IsKept w v (install_sync c e) f h =
    let h' : IsKept w (installing_sync c) = subst (IsKept w) e h in
    let g : IsFine w (installing_sync c) = subst (IsFine w) e f in ground (arith, h', g.0, g.1)
Step-IsKept w v (install_throws c e) f h = inl refl
Step-IsKept w v (take_none e y) f h =
    let h' : IsKept w taking = subst (IsKept w) e h in ground (arith, h')
Step-IsKept w v (take_ready e y) f h =
    let h' : IsKept w taking = subst (IsKept w) e h in ground (arith, h')
Step-IsKept w v (swap c e s k) f h = inr (inl s)
Step-IsKept w v (drop_stale c e s k) f h =
    let h' : IsKept w (deciding c) = subst (IsKept w) e h in ground (arith, h')
Step-IsKept w v (ready_again c e k) f h =
    let h' : IsKept w (deciding c) = subst (IsKept w) e h in ground (arith, h')
Step-IsKept w v (take_pending t p) f h = ground (arith, h, f.0)
Step-IsKept w v (installed t y) f h = ground (arith, h, f.0)
Step-IsKept w v (installed_over t y d) f h = ground (arith, h, f.0)
Step-IsKept w v (installed_again t y) f h = ground (arith, h, f.0)
Step-IsKept w v (mark_failed t) f h = ground (arith, h, f.0)

pub Reach-IsKept : (w : Worker) → Reach w → IsKept w w.round
Reach-IsKept w begin = inl refl
Reach-IsKept w (next {w = u} r s) = Step-IsKept u w s (Reach-IsFine u r) (Reach-IsKept u r)
