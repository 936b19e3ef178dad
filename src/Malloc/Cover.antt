-- ===== src/Malloc/Cover.antt =====
-- The bytes that blocks and free lists cover, counted at each address.
use tweaking_pintos.Prelude.{
  ℕ, zero, suc, ◌+◌, ◌≤◌, ◌<◌, ◌≡◌, refl, List, [], ◌∷◌, ◌++◌, arith, ◌==◌, if◌then◌else◌,
  Bool-cases, inl, inr, All, ◌⊎◌, false,
}
use tweaking_pintos.Memory.{inside}
use tweaking_pintos.Malloc.Sizes.{bytes, bytes-suc, bytes-le}

-- Whether `a` is in the block, as a number.
unfoldable pub hits : (block i a : ℕ) → ℕ
hits block i a = if inside block (bytes i) a then 1 else 0

-- How many blocks of a free list hold the address.
unfoldable pub count : (i : ℕ) → List ℕ → (a : ℕ) → ℕ
count i [] a = 0
count i (x ∷ xs) a = hits x i a + count i xs a

-- How many blocks of the first `n` free lists hold the address.
unfoldable pub free_cover : (n : ℕ) → (ℕ → List ℕ) → (a : ℕ) → ℕ
free_cover zero f a = 0
free_cover (suc n) f a = free_cover n f a + count n (f n) a

-- How many blocks of a list of blocks with their sizes hold the address.
unfoldable pub cover : List (ℕ × ℕ) → (a : ℕ) → ℕ
cover [] a = 0
cover (b ∷ bs) a = hits b.0 b.1 a + cover bs a

-- The free lists with the one at `i` replaced.
abbrev pub replace : (i : ℕ) → List ℕ → (ℕ → List ℕ) → ℕ → List ℕ
replace i l f j = if j == i then l else f j

pub hits-inside : (b i a : ℕ) → b ≤ a → a < b + bytes i → hits b i a ≡ 1
unfolding hits
hits-inside b i a h l = ground (arith, h, l)

pub hits_bound : (b i a : ℕ) → hits b i a ≤ 1
unfolding hits
hits_bound b i a = ground arith

pub hits-apart : (b i a : ℕ) → hits b i a ≡ 0 → (a < b) ⊎ (b + bytes i ≤ a)
unfolding hits
hits-apart b i a h = ground (arith, h)

pub hits-outside : (b i a : ℕ) → (a < b) ⊎ (b + bytes i ≤ a) → hits b i a ≡ 0
unfolding hits
hits-outside b i a h = ground (arith, h)

-- A block is its two halves.
pub hits-suc : (b i a : ℕ) → i < 7 → hits b (suc i) a ≡ hits b i a + hits (b + bytes i) i a
unfolding hits
hits-suc b i a l = ground (arith, bytes-suc i l)

pub hits-le : (b i j a : ℕ) → i ≤ j → j < 8 → hits b i a ≤ hits b j a
unfolding hits
hits-le b i j a l h = ground (arith, bytes-le i j l h)

pub count-cons : (i x : ℕ) (xs : List ℕ) (a : ℕ) → count i (x ∷ xs) a ≡ hits x i a + count i xs a
unfolding count
count-cons i x xs a = refl

pub count-append :
    (i : ℕ) (xs : List ℕ) (x a : ℕ) → count i (xs ++ (x ∷ [])) a ≡ count i xs a + hits x i a
unfolding count
count-append i [] x a = omega arith
count-append i (y ∷ ys) x a = omega (arith, count-append i ys x a)

-- Free lists from `n` on play no part.
free_cover-above :
    (n i : ℕ) (l : List ℕ) (f : ℕ → List ℕ) (a : ℕ)
    → n ≤ i
    → free_cover n (replace i l f) a ≡ free_cover n f a
unfolding free_cover
free_cover-above zero i l f a h = refl
free_cover-above (suc n) i l f a h =
    let other : (n == i) ≡ false = ground (arith, h) in
    rw (other, free_cover-above n i l f a (omega arith))

-- What a change of one list changes.
pub free_cover-replace :
    (n i : ℕ) (l : List ℕ) (f : ℕ → List ℕ) (a : ℕ)
    → i < n
    → free_cover n (replace i l f) a + count i (f i) a ≡ free_cover n f a + count i l a
unfolding free_cover
free_cover-replace zero i l f a h = elim h [ ]
free_cover-replace (suc n) i l f a h = elim (Bool-cases (n == i)) [
  | inl e ↦
      let same : n ≡ i = ground (arith, e) in
      rw (e, free_cover-above n i l f a (omega arith), same) (omega arith)
  | inr e ↦
      let below : i < n = ground (arith, e, h) in
      rw e (omega (arith, free_cover-replace n i l f a below))
]

-- A property of the blocks of one list, after a change.
pub replace-All :
    (P : ℕ → ℕ → Type 0) (i : ℕ) (l : List ℕ) (f : ℕ → List ℕ)
    → ((j : ℕ) → j < 7 → All (P j) (f j))
    → All (P i) l
    → (j : ℕ) → j < 7
    → All (P j) (replace i l f j)
replace-All P i l f h hl j lt = elim (Bool-cases (j == i)) [
  | inl e ↦ let same : j ≡ i = ground (arith, e) in rw (e, same) hl
  | inr e ↦ rw e (h j lt)
]

pub free_cover-count :
    (n i : ℕ) (f : ℕ → List ℕ) (a : ℕ) → i < n → count i (f i) a ≤ free_cover n f a
unfolding free_cover
free_cover-count zero i f a h = elim h [ ]
free_cover-count (suc n) i f a h = elim (Bool-cases (n == i)) [
  | inl e ↦ let same : n ≡ i = ground (arith, e) in rw same (omega arith)
  | inr e ↦
      let below : i < n = ground (arith, e, h) in omega (arith, free_cover-count n i f a below)
]
