-- ===== src/Worker/Installer.antt =====
-- The invariant of the installation of jobs in gpu_worker.cpp, and the steps of the installing thread.
use prop_miner.Base.{ℕ, ◌≡◌, ◌≢◌, List, ◌∷◌, arith}
use prop_miner.Worker.Install.{Round, mining, taking, chosen, installing_sync, deciding, Worker}
use prop_miner.Worker.Invariant.{IsOrdered, IsRound, Past, IsFine, keep}

-- The steps of the installing thread leave the round as it is.
pub take_pending-IsFine :
    (w : Worker) (r : Round)
    → w.to_install ≡ 0
    → w.async_pending ≢ 0
    → IsFine w r
    → IsFine (record w { to_install = w.async_pending; async_pending = 0 }) r
unfolding IsRound Past
take_pending-IsFine w r t p h =
    let v = record w { to_install = w.async_pending; async_pending = 0 } in
    (
      ground (arith, h.0),
      at r h.1,
      ground (arith, h.2),
      keep w v r r w.freed h.3 (λ x g. (g.0, g.1, ground (arith, g.0), g.2, g.4, g.5, g.6)),
    )
  where
    at :
        (r : Round)
        → IsRound w r
        → IsRound (record w { to_install = w.async_pending; async_pending = 0 }) r
    at mining q = tt
    at taking q = tt
    at (chosen c) q = ground (arith, q)
    at (installing_sync c) q = ground (arith, q)
    at (deciding c) q = ground (arith, q)

pub mark_failed-IsFine :
    (w : Worker) (r : Round)
    → w.to_install ≢ 0
    → IsFine w r
    → IsFine (record w { async_failed = w.to_install; to_install = 0 }) r
unfolding IsRound Past
mark_failed-IsFine w r t h =
    let v = record w { async_failed = w.to_install; to_install = 0 } in
    (
      ground (arith, h.0),
      at r h.1,
      ground (arith, h.2),
      keep w v r r w.freed h.3 (λ x g. (g.0, g.1, g.2, ground (arith, g.0), g.4, g.5, g.6)),
    )
  where
    at :
        (r : Round)
        → IsRound w r
        → IsRound (record w { async_failed = w.to_install; to_install = 0 }) r
    at mining q = tt
    at taking q = tt
    at (chosen c) q = ground (arith, q)
    at (installing_sync c) q = ground (arith, q)
    at (deciding c) q = ground (arith, q)

-- What is ready becomes the job that has been installed.
publish_ready-IsRound :
    (w : Worker) (r : Round)
    → w.to_install ≢ 0
    → IsOrdered w
    → IsRound w r
    → IsRound (record w { async_ready = w.to_install; to_install = 0 }) r
unfolding IsRound
publish_ready-IsRound w mining t o q = tt
publish_ready-IsRound w taking t o q = tt
publish_ready-IsRound w (chosen c) t o q = ground (arith, q)
publish_ready-IsRound w (installing_sync c) t o q = ground (arith, q)
publish_ready-IsRound w (deciding c) t o q = ground (arith, q)

pub installed-IsFine :
    (w : Worker) (r : Round)
    → w.to_install ≢ 0
    → IsFine w r
    → IsFine (record w { async_ready = w.to_install; to_install = 0 }) r
unfolding Past
installed-IsFine w r t h =
    let v = record w { async_ready = w.to_install; to_install = 0 } in
    (
      ground (arith, h.0),
      publish_ready-IsRound w r t h.0 h.1,
      ground (arith, h.2),
      keep w v r r w.freed h.3 (λ x g. (g.0, g.1, g.2, ground (arith, g.0), g.3, g.5, g.6)),
    )

-- What was ready before is older than everything that is still on its way.
superseded-Past :
    (w : Worker) (r : Round)
    → w.to_install ≢ 0
    → w.async_ready ≢ 0
    → IsOrdered w
    → IsRound w r
    → Past w.async_ready r
unfolding IsRound Past
superseded-Past w mining t y o q = tt
superseded-Past w taking t y o q = tt
superseded-Past w (chosen c) t y o q = ground (arith, q, o.3, o.7)
superseded-Past w (installing_sync c) t y o q = ground (arith, q)
superseded-Past w (deciding c) t y o q = ground (arith, q.2)

freed-IsRound :
    (w : Worker) (xs : List ℕ) (r : Round) → IsRound w r → IsRound (record w { freed = xs }) r
unfolding IsRound
freed-IsRound w xs mining q = tt
freed-IsRound w xs taking q = tt
freed-IsRound w xs (chosen c) q = q
freed-IsRound w xs (installing_sync c) q = q
freed-IsRound w xs (deciding c) q = q

pub installed_over-IsFine :
    (w : Worker) (r : Round)
    → w.to_install ≢ 0
    → w.async_ready ≢ 0
    → IsFine w r
    → IsFine
        (record w { async_ready = w.to_install; to_install = 0; freed = w.async_ready ∷ w.freed })
        r
installed_over-IsFine w r t y h =
    let (o, q, c, gone) = installed-IsFine w r t h in
    let v = record w { async_ready = w.to_install; to_install = 0 } in
    let past = superseded-Past w r t y h.0 h.1 in
    (
      o,
      freed-IsRound v (w.async_ready ∷ w.freed) r q,
      c,
      (
        (
          omega arith,
          ground (arith, h.0),
          ground (arith, h.0),
          omega arith,
          ground (arith, h.0),
          ground (arith, h.2),
          past,
        ),
        gone,
      ),
    )

pub installed_again-IsFine :
    (w : Worker) (r : Round)
    → w.to_install ≢ 0
    → w.async_ready ≡ w.to_install
    → IsFine w r
    → IsFine (record w { to_install = 0 }) r
installed_again-IsFine w r t y h = absurd (ground (arith, h.0))
