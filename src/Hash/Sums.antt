-- ===== src/Hash/Sums.antt =====
-- A hash table as a multiset: the sum of any weight over its elements.
use tweaking_pintos.Prelude.{
  ℕ, zero, suc, ◌+◌, ◌≤◌, ◌<◌, ◌≡◌, refl, List, [], ◌∷◌, arith, ◌==◌, Bool-cases, inl, inr, true,
  false, elem, erase, All,
}
use tweaking_pintos.Hash.{push_front}

-- The sum of a weight over a list.
unfoldable pub sum : (w : ℕ → ℕ) → List ℕ → ℕ
sum w [] = 0
sum w (x ∷ xs) = w x + sum w xs

-- The sum of a weight over the first `n` buckets.
unfoldable pub total : (w : ℕ → ℕ) (n : ℕ) → (ℕ → List ℕ) → ℕ
total w zero f = 0
total w (suc n) f = total w n f + sum w (f n)

-- Buckets that agree below `n`.
pub total-cong :
    (w : ℕ → ℕ) (n : ℕ) (f g : ℕ → List ℕ)
    → ((j : ℕ) → j < n → sum w (f j) ≡ sum w (g j))
    → total w n f ≡ total w n g
unfolding total
total-cong w zero f g same = refl
total-cong w (suc n) f g same =
    omega (arith, total-cong w n f g (λ j l. same j (omega arith)), same n (omega arith))

-- A change of one bucket.
pub total-change :
    (w : ℕ → ℕ) (n i : ℕ) (f g : ℕ → List ℕ)
    → i < n
    → ((j : ℕ) → j < n → (j == i) ≡ false → sum w (f j) ≡ sum w (g j))
    → total w n g + sum w (f i) ≡ total w n f + sum w (g i)
unfolding total
total-change w zero i f g l same = elim l [ ]
total-change w (suc n) i f g l same = elim (Bool-cases (n == i)) [
  | inl e ↦
      let at_n : n ≡ i = ground (arith, e) in
      let below : total w n f ≡ total w n g =
        total-cong w n f g (λ j lt. same j (omega arith) (ground (arith, lt, at_n))) in
      rw at_n (omega (arith, rw at_n at below))
  | inr e ↦
      let lt : i < n = ground (arith, e, l) in
      omega (
        arith,
        total-change w n i f g lt (λ j b ne. same j (omega arith) ne),
        same n (omega arith) e,
      )
]

pub total-empty : (w : ℕ → ℕ) (n : ℕ) → total w n (λ j. []) ≡ 0
unfolding total sum
total-empty w zero = refl
total-empty w (suc n) = omega (arith, total-empty w n)

pub total-push_front :
    (w : ℕ → ℕ) (n i e : ℕ) (f : ℕ → List ℕ)
    → i < n
    → total w n (push_front i e f) ≡ w e + total w n f
unfolding sum
total-push_front w n i e f l =
    let change = total-change w n i f (push_front i e f) l (λ j b ne. rw ne refl) in
    let self : (i == i) ≡ true = ground arith in
    let here : sum w (push_front i e f i) ≡ w e + sum w (f i) = rw self refl in
    omega (arith, change, here)

sum-le : (w v : ℕ → ℕ) (l : List ℕ) → ((y : ℕ) → w y ≤ v y) → sum w l ≤ sum v l
unfolding sum
sum-le w v [] le = omega arith
sum-le w v (x ∷ xs) le = omega (arith, le x, sum-le w v xs le)

pub total-le :
    (w v : ℕ → ℕ) (n : ℕ) (f : ℕ → List ℕ) → ((y : ℕ) → w y ≤ v y) → total w n f ≤ total v n f
unfolding total
total-le w v zero f le = omega arith
total-le w v (suc n) f le = omega (arith, total-le w v n f le, sum-le w v (f n) le)

-- One bucket counts.
pub total-bucket : (w : ℕ → ℕ) (n i : ℕ) (f : ℕ → List ℕ) → i < n → sum w (f i) ≤ total w n f
unfolding total
total-bucket w zero i f l = elim l [ ]
total-bucket w (suc n) i f l = elim (Bool-cases (n == i)) [
  | inl e ↦ let at_n : n ≡ i = ground (arith, e) in rw at_n (omega arith)
  | inr e ↦ let lt : i < n = ground (arith, e, l) in omega (arith, total-bucket w n i f lt)
]

total-nothing :
    (w : ℕ → ℕ) (n : ℕ) (f : ℕ → List ℕ) → ((j : ℕ) → j < n → sum w (f j) ≡ 0) → total w n f ≡ 0
unfolding total
total-nothing w zero f miss = refl
total-nothing w (suc n) f miss =
    omega (arith, total-nothing w n f (λ j l. miss j (omega arith)), miss n (omega arith))

-- Only one bucket counts.
pub total-only :
    (w : ℕ → ℕ) (n i : ℕ) (f : ℕ → List ℕ)
    → i < n
    → ((j : ℕ) → j < n → (j == i) ≡ false → sum w (f j) ≡ 0)
    → total w n f ≡ sum w (f i)
unfolding total
total-only w zero i f l miss = elim l [ ]
total-only w (suc n) i f l miss = elim (Bool-cases (n == i)) [
  | inl e ↦
      let at_n : n ≡ i = ground (arith, e) in
      let none_below : total w n f ≡ 0 =
        total-nothing w n f (λ j lt. miss j (omega arith) (ground (arith, lt, at_n))) in
      rw at_n (omega (arith, rw at_n at none_below))
  | inr e ↦
      let lt : i < n = ground (arith, e, l) in
      omega (
        arith,
        total-only w n i f lt (λ j b ne. miss j (omega (arith, b)) ne),
        miss n (omega arith) e,
      )
]

pub sum-erase :
    (w : ℕ → ℕ) (x : ℕ) (l : List ℕ) → elem x l ≡ true → sum w (erase x l) + w x ≡ sum w l
unfolding sum
sum-erase w x [] e = absurd (cc e)
sum-erase w x (z ∷ zs) e = elim (Bool-cases (x == z)) [
  | inl t ↦ let same : x ≡ z = ground (arith, t) in rw (t, same) (omega arith)
  | inr f ↦ let rest : elem x zs ≡ true = rw f at e in rw f (omega (arith, sum-erase w x zs rest))
]

pub erase_absent : (x : ℕ) (l : List ℕ) → elem x l ≡ false → erase x l ≡ l
erase_absent x [] e = refl
erase_absent x (z ∷ zs) e = elim (Bool-cases (x == z)) [
  | inl t ↦ absurd (cc (t, e))
  | inr f ↦ let rest : elem x zs ≡ false = rw f at e in rw (f, erase_absent x zs rest) refl
]

pub erase-All : (P : ℕ → Type 0) (x : ℕ) (l : List ℕ) → All P l → All P (erase x l)
erase-All P x [] h = tt
erase-All P x (z ∷ zs) (h, hs) = elim (Bool-cases (x == z)) [
  | inl t ↦ rw t hs
  | inr f ↦ rw f (h, erase-All P x zs hs)
]
