-- ===== src/Challenge/Runs.antt =====
-- The theorems of Challenge at concrete inputs.
use prop_miner.Base.{ℕ, ◌+◌, ◌≡◌, List, replicate}
use prop_miner.Challenge.{seed_words, mixed_state}
use prop_miner.Challenge.Blake3.{
  blake3_rounds, blake3_start, challenge_block, mixed_state-blake3_rounds,
}

abbrev a_seed : List ℕ
a_seed = replicate 32 0xA5

mixed_state_example :
    mixed_state (seed_words a_seed) 77
    ≡ blake3_rounds 7 (challenge_block (seed_words a_seed) 77) (blake3_start (32 + 8))
mixed_state_example = mixed_state-blake3_rounds (seed_words a_seed) 77
