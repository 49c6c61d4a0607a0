-- ===== src/Challenge/Blake3.antt =====
-- The unrolled rounds of `try_nonce` against BLAKE3 as it is published: its mixing function, its
-- initial words, its message permutation and its flags are written out here again.
use prop_miner.Base.{
  ℕ, zero, suc, ◌+◌, ◌-◌, ◌*◌, ◌/◌, ◌%◌, ◌^◌, ◌≡◌, ap, fun_ext, List, [], ◌∷◌, ◌++◌, take, get_or,
  set, map, low_bits, shr, bit_or, bit_xor, arith,
}
use prop_miner.Challenge.{
  Seed, half_mix, g_mix, round_0, round_1, round_2, round_3, round_4, round_5, round_6, mixed_state,
  start_state, rotr32,
}

-- A word of 32 bits, turned right by `n` places.
abbrev pub rotated : ℕ → ℕ → ℕ
rotated x n = bit_or (x / 2 ^ n) (x * 2 ^ (32 - n) % 2 ^ 32)

-- BLAKE3's G on four words, with the words `x` and `y` of the message.
abbrev pub blake3_g : ℕ → ℕ → ℕ → ℕ → ℕ → ℕ → ℕ × ℕ × ℕ × ℕ
blake3_g a b c d x y =
    let a1 : ℕ = (a + b + x) % 2 ^ 32 in
    let d1 : ℕ = rotated (bit_xor d a1) 16 in
    let c1 : ℕ = (c + d1) % 2 ^ 32 in
    let b1 : ℕ = rotated (bit_xor b c1) 12 in
    let a2 : ℕ = (a1 + b1 + y) % 2 ^ 32 in
    let d2 : ℕ = rotated (bit_xor d1 a2) 8 in
    let c2 : ℕ = (c1 + d2) % 2 ^ 32 in let b2 : ℕ = rotated (bit_xor b1 c2) 7 in (a2, b2, c2, d2)

-- G at four places of the state.
abbrev pub blake3_mix : ℕ → ℕ → ℕ → ℕ → ℕ → ℕ → List ℕ → List ℕ
blake3_mix a b c d x y v =
    let (a', b', c', d') =
      blake3_g (get_or v a 0) (get_or v b 0) (get_or v c 0) (get_or v d 0) x y in
    set (set (set (set v a a') b b') c c') d d'

abbrev pub Mix : Type 0
Mix = ℕ → ℕ → ℕ → ℕ → ℕ → ℕ → List ℕ → List ℕ

-- One round on a block of sixteen words: the columns, then the diagonals.
abbrev pub round_with : Mix → List ℕ → List ℕ → List ℕ
round_with g m v =
    let w : ℕ → ℕ = λ i. get_or m i 0 in
    let columns : List ℕ =
      g 3 7 11 15 (w 6) (w 7)
        (g 2 6 10 14 (w 4) (w 5) (g 1 5 9 13 (w 2) (w 3) (g 0 4 8 12 (w 0) (w 1) v))) in
    g 3 4 9 14 (w 14) (w 15)
      (g 2 7 8 13 (w 12) (w 13) (g 1 6 11 12 (w 10) (w 11) (g 0 5 10 15 (w 8) (w 9) columns)))

-- BLAKE3's message permutation.
abbrev pub permuted : List ℕ → List ℕ
permuted m =
    map (λ (i : ℕ). get_or m i 0)
      (2 ∷ 6 ∷ 3 ∷ 10 ∷ 7 ∷ 0 ∷ 4 ∷ 13 ∷ 1 ∷ 11 ∷ 12 ∷ 5 ∷ 9 ∷ 14 ∷ 15 ∷ 8 ∷ [])

abbrev pub rounds_with : Mix → ℕ → List ℕ → List ℕ → List ℕ
rounds_with g zero m v = v
rounds_with g (suc n) m v = rounds_with g n (permuted m) (round_with g m v)

abbrev pub blake3_rounds : ℕ → List ℕ → List ℕ → List ℕ
blake3_rounds n m v = rounds_with blake3_mix n m v

-- BLAKE3's initial words.
abbrev pub blake3_iv : List ℕ
blake3_iv =
    0x6A09E667 ∷ 0xBB67AE85 ∷ 0x3C6EF372 ∷ 0xA54FF53A ∷ 0x510E527F ∷ 0x9B05688C ∷ 0x1F83D9AB
    ∷ 0x5BE0CD19 ∷ []

-- The state before the only block of an input of `size` bytes: the counter is 0, and the flags are
-- CHUNK_START, CHUNK_END and ROOT.
abbrev pub blake3_start : ℕ → List ℕ
blake3_start size = blake3_iv ++ (take 4 blake3_iv ++ (0 ∷ 0 ∷ size ∷ (2 ^ 0 + 2 ^ 1 + 2 ^ 3) ∷ []))

-- The block of a 32-byte seed and a nonce of eight bytes, padded with zeros.
abbrev pub challenge_block : Seed → ℕ → List ℕ
challenge_block s nonce =
    s.word0
    ∷ s.word1
    ∷ s.word2
    ∷ s.word3
    ∷ s.word4
    ∷ s.word5
    ∷ s.word6
    ∷ s.word7
    ∷ low_bits nonce 32
    ∷ low_bits (shr nonce 32) 32
    ∷ 0
    ∷ 0
    ∷ 0
    ∷ 0
    ∷ 0
    ∷ 0
    ∷ []

abbrev Half : Type 0
Half = ℕ → ℕ → ℕ → ℕ → ℕ → ℕ → ℕ → ℕ × ℕ × ℕ × ℕ

-- Half of G, and the state's change by two halves.
abbrev half_g : Half
half_g rot_d rot_b x a b c d =
    let a' : ℕ = (a + b + x) % 2 ^ 32 in
    let d' : ℕ = rotated (bit_xor d a') rot_d in
    let c' : ℕ = (c + d') % 2 ^ 32 in let b' : ℕ = rotated (bit_xor b c') rot_b in (a', b', c', d')

abbrev mix_with : Half → Mix
mix_with h a b c d x y v =
    let (a1, b1, c1, d1) = h 16 12 x (get_or v a 0) (get_or v b 0) (get_or v c 0) (get_or v d 0) in
    let (a2, b2, c2, d2) = h 8 7 y a1 b1 c1 d1 in set (set (set (set v a a2) b b2) c c2) d d2

sum_wraps : (a b x : ℕ) → (a + (b + x) % 2 ^ 32) % 2 ^ 32 ≡ (a + b + x) % 2 ^ 32
sum_wraps a b x = omega arith

half_mix-half_g :
    (rot_d rot_b x a b c d : ℕ) → half_mix rot_d rot_b x a b c d ≡ half_g rot_d rot_b x a b c d
unfolding half_mix rotr32
half_mix-half_g rot_d rot_b x a b c d =
    ap
      (λ (a' : ℕ).
        let d' : ℕ = rotated (bit_xor d a') rot_d in
        let c' : ℕ = (c + d') % 2 ^ 32 in
        let b' : ℕ = rotated (bit_xor b c') rot_b in (a', b', c', d'))
      (sum_wraps a b x)

half_path : half_mix ≡ half_g
half_path = fun_ext (λ r. fun_ext (λ r'. fun_ext (λ x.
    fun_ext (λ a. fun_ext (λ b. fun_ext (λ c. fun_ext (λ d. half_mix-half_g r r' x a b c d)))))))

-- The unrolled state of `try_nonce` is the state of BLAKE3 after its seven rounds over the block of the
-- seed and the nonce, an input of 32 and 8 bytes.
pub mixed_state-blake3_rounds :
    (s : Seed) (nonce : ℕ)
    → mixed_state s nonce ≡ blake3_rounds 7 (challenge_block s nonce) (blake3_start (32 + 8))
unfolding mixed_state g_mix round_0 round_1 round_2 round_3 round_4 round_5 round_6
mixed_state-blake3_rounds s nonce =
    ap (λ (h : Half). rounds_with (mix_with h) 7 (challenge_block s nonce) start_state) half_path
