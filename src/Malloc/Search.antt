-- ===== src/Malloc/Search.antt =====
-- The searches of malloc(): for the descriptor, for a free block, and for the size of that block.
use tweaking_pintos.Prelude.{
  ℕ, zero, suc, ◌+◌, ◌≤◌, ◌<◌, ◌≡◌, ◌⊎◌, refl, List, [], ◌∷◌, arith, inl, inr, true, false, leb,
  Bool-cases,
}
use tweaking_pintos.Malloc.{Heap, find_desc, find_free, lower, block_size}
use tweaking_pintos.Malloc.Sizes.{table, bytes, block_size-bytes, block_size-lt}

-- The smallest descriptor that is large enough, or 7.
pub record IsBestFit (size d : ℕ) : Type 0 where
  pub range : d ≤ 7
  pub enough : d < 7 → size ≤ bytes d
  pub least : (j : ℕ) → j < d → bytes j < size

find_desc_from :
    (n i size : ℕ)
    → i + n ≡ 7
    → ((j : ℕ) → j < i → bytes j < size)
    → IsBestFit size (find_desc table n i size)
unfolding find_desc
find_desc_from zero i size e low = record {
  range = omega arith;
  enough = λ l. absurd (omega arith);
  least = low;
}
find_desc_from (suc n) i size e low =
    let same = block_size-bytes i (omega arith) in
    elim (Bool-cases (leb size (bytes i))) [
      | inl t ↦
          rw (same, t)
            (record { range = omega arith; enough = λ l. ground (arith, t); least = low })
      | inr f ↦
          rw (same, f)
            (find_desc_from n (i + 1) size (omega arith) (λ j l. elim (Bool-cases (leb i j)) [
              | inl u ↦ let at_i : j ≡ i = ground (arith, u, l) in rw at_i (ground (arith, f))
              | inr u ↦ low j (ground (arith, u))
            ]))
    ]

pub find_desc_lem : (size : ℕ) → IsBestFit size (find_desc table 7 0 size)
find_desc_lem size = find_desc_from 7 0 size refl (λ j l. absurd (omega arith))

-- The first descriptor from `d` on that has a free block, or 7.
pub record IsFirstFree (h : Heap) (d c : ℕ) : Type 0 where
  pub low : d ≤ c
  pub range : c ≤ 7
  pub gap : (j : ℕ) → d ≤ j → j < c → h.free_list j ≡ []
  pub block : c < 7 → (x : ℕ) × (xs : List ℕ) × (h.free_list c ≡ (x ∷ xs))

list_cases : (l : List ℕ) → (l ≡ []) ⊎ ((x : ℕ) × (xs : List ℕ) × (l ≡ (x ∷ xs)))
list_cases [] = inl refl
list_cases (x ∷ xs) = inr (x, xs, refl)

pub find_free_lem :
    (n i d : ℕ) (h : Heap)
    → i + n ≡ 7
    → d ≤ i
    → ((j : ℕ) → d ≤ j → j < i → h.free_list j ≡ [])
    → IsFirstFree h d (find_free table n i h)
unfolding find_free
find_free_lem zero i d h e le gap = record {
  low = le;
  range = omega arith;
  gap = gap;
  block = λ l. absurd (omega arith);
}
find_free_lem (suc n) i d h e le gap = elim (list_cases (h.free_list i)) [
  | inr (x, xs, some_i) ↦
      rw (find_free, some_i)
        (record { low = le; range = omega arith; gap = gap; block = λ l. (x, xs, some_i) })
  | inl none_i ↦
      rw (find_free, none_i)
        (find_free_lem n (i + 1) d h (omega arith) (omega arith) (λ j u v.
          elim (Bool-cases (leb i j)) [
            | inl t ↦ let at_i : j ≡ i = ground (arith, t, v) in rw at_i none_i
            | inr f ↦ gap j u (ground (arith, f))
          ]))
]

-- The loop on `idx` finds the descriptor itself.
pub lower_lem : (i c : ℕ) → i < 7 → c ≤ i → lower table i c ≡ c
unfolding lower
lower_lem zero c l le = omega arith
lower_lem (suc i) c l le =
    let sizes = block_size-lt c (omega arith) (suc i) l in
    elim (Bool-cases (leb c i)) [
      | inl t ↦
          let more : leb (block_size table (suc i)) (block_size table c) ≡ false =
            ground (arith, sizes, t) in
          rw more (lower_lem i c (omega arith) (ground (arith, t)))
      | inr f ↦
          let done : leb (block_size table (suc i)) (block_size table c) ≡ true =
            ground (arith, sizes, f) in
          rw done (ground (arith, f, le))
    ]
