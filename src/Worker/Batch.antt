-- ===== src/Worker/Batch.antt =====
-- GpuWorker::queue_batch and GpuWorker::scan_winners of gpu_worker.cpp, with the headers that the GPU
-- writes. The order of the streams, the seed that is copied ahead, and the events are not modelled.
use prop_miner.Base.{
  ℕ, zero, suc, ◌+◌, ◌*◌, ◌/◌, ◌%◌, ◌^◌, ◌<◌, ◌≤◌, ◌≡◌, refl, sym, ap, ap₂, ◌∙◌, Bool, true, false,
  ◌&&◌, Bool-cases, inl, inr, List, [], ◌∷◌, ◌++◌, append_assoc, append-nil, ltb, ◌==◌,
  if◌then◌else◌, length, take, drop, replicate, take-append, drop-append, length-append,
  length-replicate, length-drop, arith,
}

-- What queue_batch keeps with a half: the first nonce, and the headers.
pub record Half (H : Type 0) : Type 0 where
  pub batch_seed_start : ℕ
  pub pow_target_nbits : ℕ
  pub batch_mined_target_nbits : ℕ
  pub host_headers : List H
  pub graph_ready : Bool

-- The GPU: `launch` replays the captured graph from a seed and writes the first headers, `iter_batch`
-- runs a whole batch, and `wait` says whether the part of the batch at an offset is done in time.
-- The first argument of both is whether half.sync is still triggered by an earlier launch.
pub record Gpu (H : Type 0) : Type 0 where
  pub blank : H
  pub launch : Bool → ℕ → List H → List H
  pub iter_batch : Bool → ℕ → List H → List H
  pub wait : ℕ → Bool

module _ {H : Type 0} (gpu : Gpu H) where
  -- The parts of a batch that are left, the last one first; half.sync is cleared for each. The headers of a part are copied to their
  -- place once it is done; a part that is not done in time ends the loop.
  unfoldable pub sub_batches : ℕ → ℕ → ℕ → List H → List H × Bool
  sub_batches graph_batch seed zero headers = (headers, true)
  sub_batches graph_batch seed (suc n) headers =
      let off = n * graph_batch in
      let cleared = replicate graph_batch gpu.blank ++ drop graph_batch headers in
      let launched = gpu.launch false ((seed + off) % 2 ^ 64) cleared in
      let copied =
        take off launched ++ (take graph_batch launched ++ drop (off + graph_batch) launched) in
      let rest = sub_batches graph_batch seed n copied in
      elim (gpu.wait off) [ true ↦ rest | false ↦ (launched, false) ]

  unfoldable pub can_graph : Half H → ℕ → ℕ → Bool
  can_graph half graph_batch count =
      half.graph_ready && ltb 0 graph_batch && count % graph_batch == 0

  -- A launch that throws is not modelled: it goes on as `iter_batch` does.
  unfoldable pub queue_batch : Half H → ℕ → ℕ → ℕ → Half H
  queue_batch half graph_batch seed_lo_start count =
      let headers = replicate count gpu.blank in
      let (parts, done) = sub_batches graph_batch seed_lo_start (count / graph_batch) headers in
      let direct = gpu.iter_batch false seed_lo_start headers in
      if can_graph half graph_batch count
      then record half {
        batch_seed_start = seed_lo_start;
        batch_mined_target_nbits = half.pow_target_nbits;
        host_headers = parts;
        graph_ready = done;
      }
      else record half {
        batch_seed_start = seed_lo_start;
        batch_mined_target_nbits = half.pow_target_nbits;
        host_headers = direct;
      }

  -- The places of the headers with the status 1, as nonces, and those headers.
  unfoldable pub scan_from : (H → ℕ) → ℕ → List H → List (ℕ × H)
  scan_from status nonce [] = []
  scan_from status nonce (h ∷ hs) =
      let rest = scan_from status (suc nonce) hs in
      if status h == 1 then (nonce % 2 ^ 64, h) ∷ rest else rest

  unfoldable pub scan_winners : (H → ℕ) → Half H → List (ℕ × H)
  scan_winners status half = scan_from status half.batch_seed_start half.host_headers

  -- The headers of `n` parts of a batch, each by a replay of its own.
  unfoldable pub parts_of : (ℕ → List H) → ℕ → ℕ → ℕ → List H
  parts_of fill gb seed zero = []
  parts_of fill gb seed (suc n) = fill (seed % 2 ^ 64) ++ parts_of fill gb (seed + gb) n

  -- What those parts find, each under the nonces of its own.
  unfoldable pub winners_of : (H → ℕ) → (ℕ → List H) → ℕ → ℕ → ℕ → List (ℕ × H)
  winners_of status fill gb seed zero = []
  winners_of status fill gb seed (suc n) =
      scan_from status seed (fill (seed % 2 ^ 64)) ++ winners_of status fill gb (seed + gb) n

  scan_from-append :
      (status : H → ℕ) (nonce next : ℕ) (xs ys : List H)
      → nonce + length xs ≡ next
      → scan_from status nonce (xs ++ ys) ≡ scan_from status nonce xs ++ scan_from status next ys
  unfolding scan_from
  scan_from-append status nonce next [] ys e =
      let start : next ≡ nonce = omega (arith, e) in rw start refl
  scan_from-append status nonce next (x ∷ xs) ys e =
      let ih = scan_from-append status (suc nonce) next xs ys (omega (arith, e)) in
      elim (Bool-cases (status x == 1)) [
        | inl hit ↦ rw (hit, scan_from) (ap (λ r. (nonce % 2 ^ 64, x) ∷ r) ih)
        | inr miss ↦ rw (miss, scan_from) ih
      ]

take_front {ℓ} : {A : Type ℓ} (n : ℕ) (xs : List A) → n ≤ length xs → length (take n xs) ≡ n
take_front zero xs h = refl
take_front (suc n) [] h = absurd (omega arith)
take_front (suc n) (x ∷ xs) h = ap suc (take_front n xs (omega arith))

drop_front {ℓ} :
    {A : Type ℓ} (n : ℕ) (xs ys : List A) → n ≤ length xs → drop n (xs ++ ys) ≡ drop n xs ++ ys
drop_front zero xs ys h = refl
drop_front (suc n) [] ys h = absurd (omega arith)
drop_front (suc n) (x ∷ xs) ys h = drop_front n xs ys (omega arith)

-- What the program relies on in its kernels, over cleared headers and a cleared half.sync: a replay of
-- the graph from a seed leaves in the first headers what it finds from there, and nothing else changed.
-- It may set no more than one of them.
abbrev pub Replays : {H : Type 0} → Gpu H → (ℕ → List H) → ℕ → Type 0
Replays gpu fill graph_batch =
    (s : ℕ)
    → (length (fill s) ≡ graph_batch)
      × ((rest : List _)
          → gpu.launch false s (replicate graph_batch gpu.blank ++ rest) ≡ fill s ++ rest)

copied_part {ℓ} :
    {A : Type ℓ} (n k : ℕ) (s f tail : List A)
    → length s ≡ n
    → length (s ++ f) ≡ k
    → take n (s ++ (f ++ tail)) ++ drop k (s ++ (f ++ tail)) ≡ s ++ tail
copied_part n k s f tail e e' =
    let front : take n (s ++ (f ++ tail)) ≡ s =
      ap (λ m. take m (s ++ (f ++ tail))) (sym e) ∙ take-append s (f ++ tail) in
    let back : drop k (s ++ (f ++ tail)) ≡ tail =
      ap₂ drop (sym e') (sym (append_assoc s f tail)) ∙ drop-append (s ++ f) tail in
    rw (front, back) refl

module _ {H : Type 0} (gpu : Gpu H) (fill : ℕ → List H) (gb : ℕ)
    (replays : Replays gpu fill gb) where
  parts_of-snoc :
      (seed n : ℕ)
      → parts_of gpu fill gb seed (suc n)
        ≡ parts_of gpu fill gb seed n ++ fill ((seed + n * gb) % 2 ^ 64)
  unfolding parts_of
  parts_of-snoc seed zero =
      let at : (seed + 0 * gb) ≡ seed = omega arith in
      append-nil (fill (seed % 2 ^ 64)) ∙ ap (λ (s : ℕ). fill (s % 2 ^ 64)) (sym at)
  parts_of-snoc seed (suc n) =
      let at : seed + gb + n * gb ≡ seed + suc n * gb = omega arith in
      ap (λ r. fill (seed % 2 ^ 64) ++ r)
        (parts_of-snoc (seed + gb) n
          ∙ ap (λ (s : ℕ). parts_of gpu fill gb (seed + gb) n ++ fill (s % 2 ^ 64)) at)
      ∙ sym (append_assoc (fill (seed % 2 ^ 64)) (parts_of gpu fill gb (seed + gb) n) _)

  scan_from-parts_of :
      (status : H → ℕ) (seed n : ℕ)
      → scan_from gpu status seed (parts_of gpu fill gb seed n)
        ≡ winners_of gpu status fill gb seed n
  unfolding parts_of winners_of
  scan_from-parts_of status seed zero = unfold scan_from in refl
  scan_from-parts_of status seed (suc n) =
      scan_from-append gpu status seed (seed + gb) (fill (seed % 2 ^ 64)) _
        (ap (λ (k : ℕ). seed + k) (replays (seed % 2 ^ 64)).0)
      ∙ ap (λ r. scan_from gpu status seed (fill (seed % 2 ^ 64)) ++ r)
          (scan_from-parts_of status (seed + gb) n)

  sub_batches_lem :
      (seed n : ℕ) (front tail : List H)
      → ((off : ℕ) → gpu.wait off ≡ true)
      → length front ≡ n * gb
      → sub_batches gpu gb seed n (front ++ tail) ≡ (parts_of gpu fill gb seed n ++ tail, true)
  unfolding sub_batches
  sub_batches_lem seed zero [] tail in_time h = unfold parts_of in refl
  sub_batches_lem seed zero (x ∷ front) tail in_time h = absurd (omega arith)
  sub_batches_lem seed (suc n) front tail in_time h =
      let off = n * gb in
      let (size, replay) = replays ((seed + off) % 2 ^ 64) in
      let s = fill ((seed + off) % 2 ^ 64) in
      let f = drop gb front in
      let kept : drop gb (front ++ tail) ≡ f ++ tail = drop_front gb front tail (omega arith) in
      let long : length (s ++ f) ≡ off + gb =
        omega (arith, length-append s f, size, length-drop gb front) in
      let launched : gpu.launch false ((seed + off) % 2 ^ 64)
            (replicate gb gpu.blank ++ drop gb (front ++ tail))
          ≡ s ++ (f ++ tail) =
        ap (λ r. gpu.launch false ((seed + off) % 2 ^ 64) (replicate gb gpu.blank ++ r)) kept
        ∙ replay (f ++ tail) in
      let left = take off (s ++ (f ++ tail)) in
      let whole : length (s ++ (f ++ tail)) ≡ off + gb + length tail =
        omega (arith, ap length (append_assoc s f tail), length-append (s ++ f) tail, long) in
      let copied : left ++ (take gb (s ++ (f ++ tail)) ++ drop (off + gb) (s ++ (f ++ tail)))
          ≡ left ++ (s ++ tail) =
        ap (λ r. left ++ r) (copied_part gb (off + gb) s f tail size long) in
      let ih =
        sub_batches_lem seed n left (s ++ tail) in_time
          (take_front off (s ++ (f ++ tail)) (omega arith)) in
      let joined : parts_of gpu fill gb seed n ++ (s ++ tail)
          ≡ parts_of gpu fill gb seed (suc n) ++ tail =
        sym (append_assoc (parts_of gpu fill gb seed n) s tail)
        ∙ ap (λ r. r ++ tail) (sym (parts_of-snoc seed n)) in
      rw (in_time off, sub_batches, launched, copied, ih, joined) refl

can_graph_parts :
    (ready : Bool) (gb count : ℕ)
    → (ready && ltb 0 gb && count % gb == 0) ≡ true
    → count / gb * gb ≡ count
can_graph_parts ready gb count e = omega (arith, positive, whole)
  where
    positive : 0 < gb
    positive = ground arith

    whole : count % gb ≡ 0
    whole = ground arith

-- A batch by replays of the graph, where no part is late and a replay behaves as above, stays with the
-- graph and reports what each part finds, in the order of the nonces and under the nonces of its own
-- part, and nothing twice: a header of one part is not seen again in another one.
pub queue_batch-winners_of :
    {H : Type 0} (gpu : Gpu H) (fill : ℕ → List H) (status : H → ℕ) (half : Half H)
    (graph_batch seed count : ℕ)
    → Replays gpu fill graph_batch
    → can_graph gpu half graph_batch count ≡ true
    → ((off : ℕ) → gpu.wait off ≡ true)
    → ((queue_batch gpu half graph_batch seed count).graph_ready ≡ true)
      × (scan_winners gpu status (queue_batch gpu half graph_batch seed count)
          ≡ winners_of gpu status fill graph_batch seed (count / graph_batch))
unfolding queue_batch scan_winners
queue_batch-winners_of gpu fill status half graph_batch seed count replays graph in_time =
    let parts = can_graph_parts half.graph_ready graph_batch count (unfold can_graph in graph) in
    let front = replicate count gpu.blank in
    let all : length front ≡ count / graph_batch * graph_batch =
      length-replicate count gpu.blank ∙ sym parts in
    let ran =
      ap (λ hs. sub_batches gpu graph_batch seed (count / graph_batch) hs) (sym (append-nil front))
      ∙ sub_batches_lem gpu fill graph_batch replays seed (count / graph_batch) front [] in_time
          all in
    rw (graph, queue_batch)
      (
        ap (λ (r : List _ × Bool). r.1) ran,
        ap (λ (r : List _ × Bool). scan_from gpu status seed r.0) ran
            ∙ ap (scan_from gpu status seed) (append-nil _)
            ∙ scan_from-parts_of gpu fill graph_batch replays status seed (count / graph_batch),
      )
