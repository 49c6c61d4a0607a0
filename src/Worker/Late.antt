-- ===== src/Worker/Late.antt =====
-- What GpuWorker::queue_batch of gpu_worker.cpp leaves behind when a replay of the graph is late.
use native.Mathlib.Nat.{mul-div_left, mul-mod_left}
use prop_miner.Base.{
  ℕ, suc, ◌+◌, ◌*◌, ◌/◌, ◌%◌, ◌^◌, ◌<◌, ◌≡◌, ap, ◌∙◌, Bool, true, false, ◌&&◌, List, ◌++◌, ltb,
  ◌==◌, ==_iff, drop, replicate, arith,
}
use prop_miner.Worker.Batch.{
  Half, Gpu, Replays, sub_batches, can_graph, queue_batch, scan_from, scan_winners,
}

late_part :
    {H : Type 0} (gpu : Gpu H) (fill : ℕ → List H) (gb seed n : ℕ) (headers : List H)
    → Replays gpu fill gb
    → gpu.wait (n * gb) ≡ false
    → sub_batches gpu gb seed (suc n) headers
      ≡ (fill ((seed + n * gb) % 2 ^ 64) ++ drop gb headers, false)
unfolding sub_batches
late_part gpu fill gb seed n headers replays late =
    rw (late, sub_batches)
      (ap (λ hs. (hs, false)) ((replays ((seed + n * gb) % 2 ^ 64)).1 (drop gb headers)))

all_true : (a b c : Bool) → a ≡ true → b ≡ true → c ≡ true → (a && b && c) ≡ true
all_true a b c ha hb hc = ground arith

-- A part of a batch that is late ends the loop, and the batch is not run again without the graph. Where
-- the graph is ready, a part is not empty, and the last of the n + 1 parts is late, what is
-- reported at the first nonces of the batch is the headers of that part, which belong to other
-- nonces where n is not 0.
pub queue_batch_late :
    {H : Type 0} (gpu : Gpu H) (fill : ℕ → List H) (status : H → ℕ) (half : Half H)
    (graph_batch seed n : ℕ)
    → Replays gpu fill graph_batch
    → 0 < graph_batch
    → half.graph_ready ≡ true
    → gpu.wait (n * graph_batch) ≡ false
    → ((queue_batch gpu half graph_batch seed (suc n * graph_batch)).graph_ready ≡ false)
      × (scan_winners gpu status (queue_batch gpu half graph_batch seed (suc n * graph_batch))
          ≡ scan_from gpu status seed (
              fill ((seed + n * graph_batch) % 2 ^ 64)
              ++ drop graph_batch (replicate (suc n * graph_batch) gpu.blank)))
unfolding queue_batch scan_winners can_graph
queue_batch_late gpu fill status half graph_batch seed n replays pos ready late =
    let count = suc n * graph_batch in
    let headers = replicate count gpu.blank in
    let whole : (count % graph_batch == 0) ≡ true =
      (==_iff _ 0).1 (mul-mod_left (suc n) graph_batch) in
    let graph : can_graph gpu half graph_batch count ≡ true =
      all_true half.graph_ready (ltb 0 graph_batch) (count % graph_batch == 0) ready (ground arith)
        whole in
    let ran : sub_batches gpu graph_batch seed (count / graph_batch) headers
        ≡ (fill ((seed + n * graph_batch) % 2 ^ 64) ++ drop graph_batch headers, false) =
      ap (λ (k : ℕ). sub_batches gpu graph_batch seed k headers) (mul-div_left (suc n) pos)
      ∙ late_part gpu fill graph_batch seed n headers replays late in
    rw (graph, queue_batch)
      (
        ap (λ (r : List _ × Bool). r.1) ran,
        ap (λ (r : List _ × Bool). scan_from gpu status seed r.0) ran,
      )
