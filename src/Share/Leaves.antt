-- ===== src/Share/Leaves.antt =====
-- src/host/pearl/merkle_utils.h: the leaves of 1024 bytes that the opened rows of A lie in. A
-- std::set is an increasing list.
use prop_miner.Base.{
  ℕ, zero, suc, ◌+◌, ◌-◌, ◌*◌, ◌/◌, ◌%◌, ◌^◌, ◌≤◌, ◌<◌, ◌≡◌, ◌⊎◌, ◌↔◌, inl, inr, Bool-cases, List,
  [], ◌∷◌, arith, ltb, ◌==◌, ==_iff, if◌then◌else◌, All, low_bits,
}

-- std::set::insert.
unfoldable pub insert : ℕ → List ℕ → List ℕ
insert x [] = x ∷ []
insert x (y ∷ ys) =
    let rest = insert x ys in if ltb x y then x ∷ y ∷ ys else if x == y then y ∷ ys else y ∷ rest

-- The loop from leaf `li` on, with the number of leaves to go.
unfoldable pub insert_leaves : ℕ → ℕ → List ℕ → List ℕ
insert_leaves zero li uniq = uniq
insert_leaves (suc n) li uniq = insert_leaves n (suc li) (insert (low_bits li 32) uniq)

unfoldable pub insert_rows : ℕ → List ℕ → List ℕ → List ℕ
insert_rows row_width [] uniq = uniq
insert_rows row_width (r ∷ rs) uniq =
    let first = r * row_width % 2 ^ 64 / 1024 in
    let last = ((r + 1) * row_width + (2 ^ 64 - 1)) % 2 ^ 64 / 1024 in
    insert_rows row_width rs (insert_leaves (suc last - first) first uniq)

unfoldable pub compute_leaf_indices_from_rows : List ℕ → ℕ → List ℕ
compute_leaf_indices_from_rows row_indices row_width = insert_rows row_width row_indices []

abbrev pub Has : ℕ → List ℕ → Type 0
Has x [] = ⊥
Has x (y ∷ ys) = (x ≡ y) ⊎ Has x ys

-- Strictly increasing.
abbrev pub IsIncreasing : List ℕ → Type 0
IsIncreasing [] = Unit
IsIncreasing (x ∷ xs) = All (λ y. x < y) xs × IsIncreasing xs

-- A row that has bytes in the leaf.
abbrev pub HasRow : ℕ → List ℕ → ℕ → Type 0
HasRow row_width [] x = ⊥
HasRow row_width (r ∷ rs) x =
    ((r * row_width < (x + 1) * 1024) × (x * 1024 < (r + 1) * row_width)) ⊎ HasRow row_width rs x

All-insert : (P : ℕ → Type 0) (x : ℕ) (xs : List ℕ) → P x → All P xs → All P (insert x xs)
unfolding insert
All-insert P x [] h k = (h, tt)
All-insert P x (y ∷ ys) h k = elim (Bool-cases (ltb x y)) [
  | inl e ↦ rw (e, insert) (h, k)
  | inr e ↦ elim (Bool-cases (x == y)) [
    | inl e1 ↦ rw (e, insert, e1) k
    | inr e1 ↦ rw (e, insert, e1) (k.0, All-insert P x ys h k.1)
  ]
]

lt_weaken : (x y : ℕ) (ys : List ℕ) → x < y → All (λ z. y < z) ys → All (λ z. x < z) ys
lt_weaken x y [] h k = tt
lt_weaken x y (z ∷ ys) h k = (omega (arith, k.0), lt_weaken x y ys h k.1)

insert-IsIncreasing : (x : ℕ) (xs : List ℕ) → IsIncreasing xs → IsIncreasing (insert x xs)
unfolding insert
insert-IsIncreasing x [] h = (tt, tt)
insert-IsIncreasing x (y ∷ ys) h = elim (Bool-cases (ltb x y)) [
  | inl e ↦ let lt : x < y = ground arith in rw (e, insert) ((lt, lt_weaken x y ys lt h.0), h)
  | inr e ↦ elim (Bool-cases (x == y)) [
    | inl e1 ↦ rw (e, insert, e1) h
    | inr e1 ↦
        let gt : y < x = ground arith in
        rw (e, insert, e1) (All-insert _ x ys gt h.0, insert-IsIncreasing x ys h.1)
  ]
]

Has-insert : (x y : ℕ) (ys : List ℕ) → Has x (insert y ys) ↔ ((x ≡ y) ⊎ Has x ys)
unfolding insert
Has-insert x y [] = (λ h. h, λ h. h)
Has-insert x y (z ∷ ys) = elim (Bool-cases (ltb y z)) [
  | inl e ↦ rw (e, insert) (λ h. h, λ h. h)
  | inr e ↦ elim (Bool-cases (y == z)) [
    | inl e1 ↦
        let same : y ≡ z = (==_iff y z).0 e1 in
        rw (e, insert, e1, same) (λ h. inr h, λ h. elim h [ inl a ↦ inl a | inr b ↦ b ])
    | inr e1 ↦
        rw (e, insert, e1)
          (
            λ h. elim h [
              | inl a ↦ inr (inl a)
              | inr b ↦ elim ((Has-insert x y ys).0 b) [ inl a ↦ inl a | inr c ↦ inr (inr c) ]
            ],
            λ h. elim h [
              | inl a ↦ inr ((Has-insert x y ys).1 (inl a))
              | inr b ↦ elim b [ inl a ↦ inl a | inr c ↦ inr ((Has-insert x y ys).1 (inr c)) ]
            ],
          )
  ]
]

Has-leaves :
    (n li x : ℕ) (uniq : List ℕ)
    → li + n ≤ 2 ^ 32
    → Has x (insert_leaves n li uniq) ↔ (((li ≤ x) × (x < li + n)) ⊎ Has x uniq)
unfolding insert_leaves
Has-leaves zero li x uniq h =
    (λ k. inr k, λ k. elim k [ inl range ↦ absurd (omega arith) | inr b ↦ b ])
Has-leaves (suc n) li x uniq h =
    let small : low_bits li 32 ≡ li = omega arith in
    let ih = Has-leaves n (suc li) x (insert li uniq) (omega arith) in
    rw small (
      λ k. elim (ih.0 k) [
        | inl range ↦ inl (omega arith, omega arith)
        | inr b ↦ elim ((Has-insert x li uniq).0 b) [
          | inl a ↦ inl (omega arith, omega arith)
          | inr c ↦ inr c
        ]
      ],
      λ k. elim k [
        | inl range ↦ elim (Bool-cases (x == li)) [
          | inl e ↦ ih.1 (inr ((Has-insert x li uniq).1 (inl ((==_iff x li).0 e))))
          | inr e ↦ let above : li < x = ground arith in ih.1 (inl (above, omega arith))
        ]
        | inr b ↦ ih.1 (inr ((Has-insert x li uniq).1 (inr b)))
      ],
    )

-- A row whose bytes lie below 2 ^ 42 has its leaves below 2 ^ 32.
abbrev pub IsSmallRow : ℕ → ℕ → Type 0
IsSmallRow row_width r = (r + 1) * row_width < 2 ^ 42

leaf_range :
    (a b x : ℕ)
    → a < b
    → b < 2 ^ 42
    → let first = a % 2 ^ 64 / 1024 in
      let last = (b + (2 ^ 64 - 1)) % 2 ^ 64 / 1024 in
      (first + (suc last - first) ≤ 2 ^ 32)
      × (((first ≤ x) × (x < first + (suc last - first))) ↔ ((a < (x + 1) * 1024) × (x * 1024 < b)))
leaf_range a b x h k =
    (omega arith, (λ r. (omega arith, omega arith), λ r. (omega arith, omega arith)))

Has-rows :
    (row_width x : ℕ) (rows uniq : List ℕ)
    → 1 ≤ row_width
    → All (IsSmallRow row_width) rows
    → Has x (insert_rows row_width rows uniq) ↔ (HasRow row_width rows x ⊎ Has x uniq)
unfolding insert_rows
Has-rows row_width x [] uniq h k = (λ m. inr m, λ m. elim m [ inl a ↦ absurd a | inr b ↦ b ])
Has-rows row_width x (r ∷ rs) uniq h k =
    let a : ℕ = r * row_width in
    let b : ℕ = (r + 1) * row_width in
    let first : ℕ = a % 2 ^ 64 / 1024 in
    let last : ℕ = (b + (2 ^ 64 - 1)) % 2 ^ 64 / 1024 in
    let below : a < b = grind arith in
    let range = leaf_range a b x below k.0 in
    let ih = Has-rows row_width x rs (insert_leaves (suc last - first) first uniq) h k.1 in
    let leaves = Has-leaves (suc last - first) first x uniq range.0 in
    (
      λ m. elim (ih.0 m) [
        | inl row ↦ inl (inr row)
        | inr l ↦ elim (leaves.0 l) [ inl q ↦ inl (inl (range.1.0 q)) | inr u ↦ inr u ]
      ],
      λ m. elim m [
        | inl row ↦ elim row [
          | inl here ↦ ih.1 (inr (leaves.1 (inl (range.1.1 here))))
          | inr there ↦ ih.1 (inl there)
        ]
        | inr u ↦ ih.1 (inr (leaves.1 (inr u)))
      ],
    )

leaves-IsIncreasing :
    (n li : ℕ) (uniq : List ℕ) → IsIncreasing uniq → IsIncreasing (insert_leaves n li uniq)
unfolding insert_leaves
leaves-IsIncreasing zero li uniq h = h
leaves-IsIncreasing (suc n) li uniq h =
    leaves-IsIncreasing n (suc li) _ (insert-IsIncreasing (low_bits li 32) uniq h)

rows-IsIncreasing :
    (row_width : ℕ) (rows uniq : List ℕ)
    → IsIncreasing uniq
    → IsIncreasing (insert_rows row_width rows uniq)
unfolding insert_rows
rows-IsIncreasing row_width [] uniq h = h
rows-IsIncreasing row_width (r ∷ rs) uniq h =
    rows-IsIncreasing row_width rs _ (leaves-IsIncreasing _ _ uniq h)

-- For rows that have bytes, all below 2 ^ 42, the indices are increasing without a repetition, and
-- they are those of the leaves in which at least one of the rows has a byte.
pub compute_leaf_indices_from_rows_lem :
    (row_indices : List ℕ) (row_width x : ℕ)
    → 1 ≤ row_width
    → All (IsSmallRow row_width) row_indices
    → IsIncreasing (compute_leaf_indices_from_rows row_indices row_width)
      × (Has x (compute_leaf_indices_from_rows row_indices row_width)
          ↔ HasRow row_width row_indices x)
unfolding compute_leaf_indices_from_rows
compute_leaf_indices_from_rows_lem row_indices row_width x h k =
    let same = Has-rows row_width x row_indices [] h k in
    (
      rows-IsIncreasing row_width row_indices [] tt,
      (λ m. elim (same.0 m) [ inl a ↦ a | inr b ↦ absurd b ], λ m. same.1 (inl m)),
    )
