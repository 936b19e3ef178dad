-- ===== src/Malloc/Sizes.antt =====
-- The block sizes that malloc_init() sets up, and blocks at their places in a page.
use tweaking_pintos.Prelude.{
  ℕ, zero, suc, ◌+◌, ◌-◌, ◌*◌, ◌/◌, ◌%◌, ◌≤◌, ◌<◌, ◌≡◌, refl, List, [], ◌∷◌, arith, get_or, ◌⊎◌,
  true, elem, ltb, leb, Bool-cases, inl, inr,
}
use tweaking_pintos.Palloc.{pgsize}
use tweaking_pintos.Malloc.{pg_round_down, block_size}

abbrev pub table : List ℕ
table = 16 ∷ 32 ∷ 64 ∷ 128 ∷ 256 ∷ 512 ∷ 1024 ∷ []

-- The size with index `i`; the last one is that of both halves of a page.
unfoldable pub bytes : ℕ → ℕ
bytes i = get_or (16 ∷ 32 ∷ 64 ∷ 128 ∷ 256 ∷ 512 ∷ 1024 ∷ 2048 ∷ []) i 0

-- A property of the indices below 8 holds if it holds of each.
pub below_8 :
    (P : ℕ → Type 0) → P 0 → P 1 → P 2 → P 3 → P 4 → P 5 → P 6 → P 7 → (i : ℕ) → i < 8 → P i
below_8 P a b c d e f g h zero l = a
below_8 P a b c d e f g h (suc zero) l = b
below_8 P a b c d e f g h (suc (suc zero)) l = c
below_8 P a b c d e f g h (suc (suc (suc zero))) l = d
below_8 P a b c d e f g h (suc (suc (suc (suc zero)))) l = e
below_8 P a b c d e f g h (suc (suc (suc (suc (suc zero))))) l = f
below_8 P a b c d e f g h (suc (suc (suc (suc (suc (suc zero)))))) l = g
below_8 P a b c d e f g h (suc (suc (suc (suc (suc (suc (suc zero))))))) l = h
below_8 P a b c d e f g h (suc (suc (suc (suc (suc (suc (suc (suc i)))))))) l = absurd (omega arith)

-- A property of the indices below 7 holds if it holds of each.
pub below_7 : (P : ℕ → Type 0) → P 0 → P 1 → P 2 → P 3 → P 4 → P 5 → P 6 → (i : ℕ) → i < 7 → P i
below_7 P a b c d e f g zero l = a
below_7 P a b c d e f g (suc zero) l = b
below_7 P a b c d e f g (suc (suc zero)) l = c
below_7 P a b c d e f g (suc (suc (suc zero))) l = d
below_7 P a b c d e f g (suc (suc (suc (suc zero)))) l = e
below_7 P a b c d e f g (suc (suc (suc (suc (suc zero))))) l = f
below_7 P a b c d e f g (suc (suc (suc (suc (suc (suc zero)))))) l = g
below_7 P a b c d e f g (suc (suc (suc (suc (suc (suc (suc i))))))) l = absurd (omega arith)

pub bytes_range : (i : ℕ) → i < 8 → (16 ≤ bytes i) × (bytes i ≤ 2048)
unfolding bytes
bytes_range =
    below_8 (λ i. (16 ≤ bytes i) × (bytes i ≤ 2048)) (omega arith, omega arith)
      (omega arith, omega arith) (omega arith, omega arith) (omega arith, omega arith)
      (omega arith, omega arith) (omega arith, omega arith) (omega arith, omega arith)
      (omega arith, omega arith)

pub bytes_7 : bytes 7 ≡ 2048
unfolding bytes
bytes_7 = refl

pub bytes_6 : bytes 6 ≡ 1024
unfolding bytes
bytes_6 = refl

pub bytes-suc : (i : ℕ) → i < 7 → bytes (suc i) ≡ bytes i + bytes i
unfolding bytes
bytes-suc = below_7 (λ i. bytes (suc i) ≡ bytes i + bytes i) refl refl refl refl refl refl refl

pub bytes-le : (i j : ℕ) → i ≤ j → j < 8 → bytes i ≤ bytes j
bytes-le i zero l h = let same : i ≡ 0 = omega arith in rw same (omega arith)
bytes-le i (suc j) l h = elim (Bool-cases (leb i j)) [
  | inl t ↦ omega (arith, bytes-le i j (ground (arith, t)) (omega arith), bytes-suc j (omega arith))
  | inr f ↦ let same : i ≡ suc j = ground (arith, f, l) in rw same (omega arith)
]

pub block_size-bytes : (i : ℕ) → i < 7 → block_size table i ≡ bytes i
unfolding bytes
block_size-bytes = below_7 (λ i. block_size table i ≡ bytes i) refl refl refl refl refl refl refl

-- Sizes compare as their indices.
pub block_size-lt :
    (d : ℕ) → d < 7 → (i : ℕ) → i < 7 → ltb (block_size table d) (block_size table i) ≡ ltb d i
block_size-lt =
    below_7 (λ d. (i : ℕ) → i < 7 → ltb (block_size table d) (block_size table i) ≡ ltb d i)
      (below_7 (λ i. ltb (block_size table 0) (block_size table i) ≡ ltb 0 i) refl refl refl refl
        refl refl refl)
      (below_7 (λ i. ltb (block_size table 1) (block_size table i) ≡ ltb 1 i) refl refl refl refl
        refl refl refl)
      (below_7 (λ i. ltb (block_size table 2) (block_size table i) ≡ ltb 2 i) refl refl refl refl
        refl refl refl)
      (below_7 (λ i. ltb (block_size table 3) (block_size table i) ≡ ltb 3 i) refl refl refl refl
        refl refl refl)
      (below_7 (λ i. ltb (block_size table 4) (block_size table i) ≡ ltb 4 i) refl refl refl refl
        refl refl refl)
      (below_7 (λ i. ltb (block_size table 5) (block_size table i) ≡ ltb 5 i) refl refl refl refl
        refl refl refl)
      (below_7 (λ i. ltb (block_size table 6) (block_size table i) ≡ ltb 6 i) refl refl refl refl
        refl refl refl)

-- The halves of a block at offset `o` stand at multiples of their size.
pub halves :
    (i : ℕ)
    → i < 7
    → (o : ℕ) → o % bytes (suc i) ≡ 0
    → (o % bytes i ≡ 0)
      × ((o + bytes i) % bytes i ≡ 0)
      × (2 * (o / bytes (suc i)) * bytes i ≡ o)
      × ((2 * (o / bytes (suc i)) + 1) * bytes i ≡ o + bytes i)
unfolding bytes
halves =
    below_7
      (λ i.
        (o : ℕ)
        → o % bytes (suc i) ≡ 0
        → (o % bytes i ≡ 0)
          × ((o + bytes i) % bytes i ≡ 0)
          × (2 * (o / bytes (suc i)) * bytes i ≡ o)
          × ((2 * (o / bytes (suc i)) + 1) * bytes i ≡ o + bytes i))
      (λ o h. (omega arith, omega arith, omega arith, omega arith))
      (λ o h. (omega arith, omega arith, omega arith, omega arith))
      (λ o h. (omega arith, omega arith, omega arith, omega arith))
      (λ o h. (omega arith, omega arith, omega arith, omega arith))
      (λ o h. (omega arith, omega arith, omega arith, omega arith))
      (λ o h. (omega arith, omega arith, omega arith, omega arith))
      (λ o h. (omega arith, omega arith, omega arith, omega arith))

-- The offset of an address behind the header of its page.
abbrev pub offset : ℕ → ℕ
offset b = b % pgsize - 24

-- A block with this size, in the lower 2048 bytes behind the header of one of the arenas.
pub record IsBlock (arenas : List ℕ) (b : ℕ × ℕ) : Type 0 where
  pub index : b.1 < 8
  pub header : 24 ≤ b.0 % pgsize
  pub aligned : offset b.0 % bytes b.1 ≡ 0
  pub inside : offset b.0 + bytes b.1 ≤ 2048
  pub arena : elem (pg_round_down b.0) arenas ≡ true

-- Two blocks have no byte in common.
abbrev pub Apart : ℕ × ℕ → ℕ × ℕ → Type 0
Apart b c = (b.0 + bytes b.1 ≤ c.0) ⊎ (c.0 + bytes c.1 ≤ b.0)

pub Apart-sym : (b c : ℕ × ℕ) → Apart b c → Apart c b
Apart-sym b c h = ground (arith, h)
