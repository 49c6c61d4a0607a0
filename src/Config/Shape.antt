-- ===== src/Config/Shape.antt =====
-- The matrix shape that `auto_shape_for_gpu` picks.
use prop_miner.Base.{
  ℕ, ◌-◌, ◌*◌, ◌^◌, ◌≡◌, refl, ◌⊎◌, inl, inr, true, Bool, ◌&&◌, ◌||◌, ltb, leb, ◌==◌, if◌then◌else◌,
  Bool-cases,
}
use prop_miner.Config.{
  MiningConfig, fits, pick_shape, candidate_shapes, conservative, auto_shape_for_gpu,
}

-- The memory that a shape may take: the budget, or what is free less 512 MiB where that is left.
abbrev pub usable : ℕ → ℕ → ℕ
usable budget_bytes queried =
    if budget_bytes == 0
    then (if ltb (512 * 2 ^ 20) queried then queried - 512 * 2 ^ 20 else queried)
    else budget_bytes

-- A tile change keeps the shape.
chosen :
    (free : ℕ) (picked default : MiningConfig)
    → let cfg = if fits free picked.m picked.n picked.k then picked else conservative default in
      (fits free cfg.m cfg.n cfg.k ≡ true) ⊎ ((cfg.m ≡ 2048) × (cfg.n ≡ 2048) × (cfg.k ≡ 2048))
unfolding conservative
chosen free picked default = elim (Bool-cases (fits free picked.m picked.n picked.k)) [
  | inl good ↦ rw good (inl good)
  | inr bad ↦ rw bad (inr (refl, refl, refl))
]

-- `auto_shape_for_gpu` returns a shape whose estimate is below the memory that it may use, or the
-- conservative shape of 2048 by 2048 by 2048.
pub auto_shape_for_gpu_lem :
    (default : MiningConfig) (major minor budget_bytes queried : ℕ)
    → let cfg = auto_shape_for_gpu default major minor budget_bytes queried in
      (fits (usable budget_bytes queried) cfg.m cfg.n cfg.k ≡ true)
      ⊎ ((cfg.m ≡ 2048) × (cfg.n ≡ 2048) × (cfg.k ≡ 2048))
unfolding auto_shape_for_gpu
auto_shape_for_gpu_lem default major minor budget_bytes queried =
    let ada : Bool = ltb 8 major || (major == 8 && leb 9 minor) in
    let free = usable budget_bytes queried in
    let base = chosen free (pick_shape free (candidate_shapes ada (major == 8)) default) default in
    elim (Bool-cases ada) [
      | inl newer ↦ rw newer (rw newer at base)
      | inr earlier ↦ elim (Bool-cases (major == 8)) [
        | inl ampere ↦ rw (earlier, ampere) (rw (earlier, ampere) at base)
        | inr older ↦ rw (earlier, older) (rw (earlier, older) at base)
      ]
    ]
