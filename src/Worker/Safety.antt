-- ===== src/Worker/Safety.antt =====
-- A job that gpu_worker.cpp mines, or is about to mine, is never freed.
use prop_miner.Base.{ℕ, ◌<◌, ◌≡◌, ◌≢◌, subst, List, [], ◌∷◌, All, arith}
use prop_miner.Worker.Install.{
  mining, installing_sync, deciding, Worker, Step, set_sigma, see_new, see_none, first_job,
  fall_back, requested_before, submit_async_install, install_sync, install_throws, take_none,
  take_ready, swap, drop_stale, ready_again, take_pending, installed, installed_over,
  installed_again, mark_failed, started, Reach, begin, next,
}
use prop_miner.Worker.Invariant.{
  IsRound, Past, IsGone, IsFine, set_sigma-IsFine, see_new-IsFine, calm-IsFine, rest-IsFine,
  first_job-IsFine, fall_back-IsFine, submit_async_install-IsFine, install_sync-IsFine,
  install_throws-IsFine, take_ready-IsFine, swap-IsFine, drop_stale-IsFine,
}
use prop_miner.Worker.Installer.{
  take_pending-IsFine, mark_failed-IsFine, installed-IsFine, installed_over-IsFine,
  installed_again-IsFine,
}

Step-IsFine : (w v : Worker) → Step w v → IsFine w w.round → IsFine v v.round
Step-IsFine w v set_sigma h = set_sigma-IsFine w w.round h
Step-IsFine w v (see_new e s k) h = see_new-IsFine w s k (subst (IsFine w) e h)
Step-IsFine w v (see_none e k) h = calm-IsFine w w.round h
Step-IsFine w v (first_job c e k) h = first_job-IsFine w c k (subst (IsFine w) e h)
Step-IsFine w v (fall_back c e k f) h = fall_back-IsFine w c f (subst (IsFine w) e h)
Step-IsFine w v (requested_before c e k f r) h = calm-IsFine w w.round h
Step-IsFine w v (submit_async_install c e k f r) h =
    submit_async_install-IsFine w c k f r (subst (IsFine w) e h)
Step-IsFine w v (install_sync c e) h = install_sync-IsFine w c (subst (IsFine w) e h)
Step-IsFine w v (install_throws c e) h = install_throws-IsFine w c (subst (IsFine w) e h)
Step-IsFine w v (take_none e y) h = rest-IsFine w w.round h
Step-IsFine w v (take_ready e y) h = take_ready-IsFine w y (subst (IsFine w) e h)
Step-IsFine w v (swap c e s k) h = swap-IsFine w c s (subst (IsFine w) e h)
Step-IsFine w v (drop_stale c e s k) h = drop_stale-IsFine w c s k (subst (IsFine w) e h)
Step-IsFine w v (ready_again c e k) h = rest-IsFine w w.round h
Step-IsFine w v (take_pending t p) h = take_pending-IsFine w w.round t p h
Step-IsFine w v (installed t y) h = installed-IsFine w w.round t h
Step-IsFine w v (installed_over t y d) h = installed_over-IsFine w w.round t y h
Step-IsFine w v (installed_again t y) h = installed_again-IsFine w w.round t y h
Step-IsFine w v (mark_failed t) h = mark_failed-IsFine w w.round t h

started-IsFine : IsFine started mining
unfolding IsRound
started-IsFine = (ground arith, tt, ground arith, tt)

pub Reach-IsFine : (w : Worker) → Reach w → IsFine w w.round
Reach-IsFine w begin = started-IsFine
Reach-IsFine w (next {w = u} r s) = Step-IsFine u w s (Reach-IsFine u r)

-- What has been freed is not mined, not ready, not being installed and not to be installed.
abbrev pub IsUnused : Worker → ℕ → Type 0
IsUnused w c =
    (c ≢ w.current)
    × (c ≢ w.async_ready)
    × (c ≢ w.to_install)
    × (c ≢ w.async_pending)
    × ((d : ℕ) → w.round ≡ deciding d → c ≢ d)
    × ((d : ℕ) → w.round ≡ installing_sync d → c ≢ d)

gone-IsUnused : (w : Worker) (c : ℕ) → IsGone w w.round c → IsUnused w c
unfolding Past
gone-IsUnused w c g = (
  g.5,
  g.4,
  g.3,
  g.2,
  λ d e. subst (Past c) e g.6,
  λ d e. let p : c < d = subst (Past c) e g.6 in ground arith,
)

unused : (w : Worker) (xs : List ℕ) → All (IsGone w w.round) xs → All (IsUnused w) xs
unused w [] h = tt
unused w (x ∷ xs) h = (gone-IsUnused w x h.0, unused w xs h.1)

-- With one worker, as on a rig with one GPU, however its threads and that of the pool interleave, while
-- the jobs that the pool publishes are new ones: the resident matrices that the worker frees belong to
-- no job that it mines or is on its way to mine. Several workers share the matrices of a job, and
-- nothing is claimed of them.
pub freed-IsUnused : (w : Worker) → Reach w → All (IsUnused w) w.freed
freed-IsUnused w r = unused w w.freed (Reach-IsFine w r).3
