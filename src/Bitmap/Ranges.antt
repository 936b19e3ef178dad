-- ===== src/Bitmap/Ranges.antt =====
-- The operations on several bits, against the view of a bitmap as a function.
use tweaking_pintos.Prelude.{
  ℕ, zero, suc, ◌+◌, ◌%◌, ◌^◌, ◌≤◌, ◌<◌, ◌≡◌, ◌≢◌, refl, sym, ◌∙◌, subst, ==_iff, Bool, true, false,
  ◌&&◌, none, some, arith, ltb, leb, beq, ◌==◌, if◌then◌else◌, Bool-cases, inl, inr, ◌↔◌,
}
use tweaking_pintos.Bitmap.{
  Bitmap, bitmap_test, next, in_range, set_from, bitmap_set_multiple, contains_from,
  bitmap_contains,
}
use tweaking_pintos.Bitmap.View.{at, IsWf, bitmap_set-Changed, bitmap_test_lem, bitmap_set-none}

-- Whether bit `j` is one of the `n` bits from `i`.
abbrev pub within : (i n j : ℕ) → Bool
within i n j = leb i j && ltb j (i + n)

-- `b'` is `b` with the `n` bits from `i` set to `value`.
pub record Wrote (b : Bitmap) (i n : ℕ) (value : Bool) (b' : Bitmap) : Type 0 where
  pub size : b'.bit_cnt ≡ b.bit_cnt
  pub wf : IsWf b'
  pub bits : (j : ℕ) → at b' j ≡ (if within i n j then value else at b j)

pub next_lem : (b : Bitmap) (i : ℕ) → IsWf b → i < b.bit_cnt → next i ≡ suc i
unfolding next
next_lem b i wf h = omega (arith, wf.fits)

set_from-Wrote :
    (i n : ℕ) (value : Bool) {b : Bitmap}
    → IsWf b
    → i + n ≤ b.bit_cnt
    → (b' : Bitmap) × (set_from b i n value ≡ some b') × Wrote b i n value b'
unfolding set_from
set_from-Wrote i zero value {b} wf h =
    (b, refl, record { size = refl; wf = wf; bits = λ j. ground arith })
set_from-Wrote i (suc n) value {b} wf h =
    let (b1, e1, c) = bitmap_set-Changed wf i (omega arith) value in
    let (b2, e2, w) = set_from-Wrote (suc i) n value c.wf (omega (arith, c.size)) in
    (
      b2,
      rw (e1, next_lem b i wf (omega arith), e2),
      record { size = w.size ∙ c.size; wf = w.wf; bits = λ j. w.bits j ∙ ground (arith, c.bits j) },
    )

-- A run that leaves the bitmap fails at its end.
set_from-none :
    (i n : ℕ) (value : Bool) {b : Bitmap}
    → IsWf b
    → i ≤ b.bit_cnt
    → b.bit_cnt < i + n
    → set_from b i n value ≡ none
unfolding set_from
set_from-none i zero value {b} wf h out = absurd (omega arith)
set_from-none i (suc n) value {b} wf h out = elim (Bool-cases (ltb i b.bit_cnt)) [
  | inl inside ↦
      let lt : i < b.bit_cnt = ground (arith, inside) in
      let (b1, e1, c) = bitmap_set-Changed wf i lt value in
      rw (e1, next_lem b i wf lt)
        (set_from-none (suc i) n value c.wf (omega (arith, c.size)) (omega (arith, c.size)))
  | inr outside ↦
      let le : b.bit_cnt ≤ i = ground (arith, outside) in rw ((bitmap_set-none b i value le).0)
]

pub in_range_lem :
    (b : Bitmap) (start cnt : ℕ) → IsWf b → start + cnt ≤ b.bit_cnt → in_range b start cnt ≡ some tt
unfolding in_range
in_range_lem b start cnt wf h =
    let first : leb start b.bit_cnt ≡ true = ground arith in
    let last : leb ((start + cnt) % 2 ^ 32) b.bit_cnt ≡ true = ground (arith, wf.fits) in
    rw (first, last)

-- In a well-formed bitmap, setting a range of existing bits succeeds, gives each of them the value,
-- keeps every other bit, and leaves the bitmap well-formed.
pub bitmap_set_multiple-Wrote :
    (start cnt : ℕ) (value : Bool) {b : Bitmap}
    → IsWf b
    → start + cnt ≤ b.bit_cnt
    → (b' : Bitmap) × (bitmap_set_multiple b start cnt value ≡ some b') × Wrote b start cnt value b'
unfolding bitmap_set_multiple
bitmap_set_multiple-Wrote start cnt value {b} wf h =
    rw (in_range_lem b start cnt wf h) (set_from-Wrote start cnt value wf h)

-- Setting a range that does not lie inside the bitmap fails, also when the sum of start and count
-- wraps around.
pub bitmap_set_multiple-none :
    (start cnt : ℕ) (value : Bool) {b : Bitmap}
    → IsWf b
    → b.bit_cnt < start + cnt
    → bitmap_set_multiple b start cnt value ≡ none
unfolding bitmap_set_multiple in_range
bitmap_set_multiple-none start cnt value {b} wf out = elim (Bool-cases (leb start b.bit_cnt)) [
  | inr beyond ↦ rw beyond
  | inl first ↦ elim (Bool-cases (leb ((start + cnt) % 2 ^ 32) b.bit_cnt)) [
    | inr beyond ↦ rw (first, beyond)
    | inl wraps ↦ rw (first, wraps) (set_from-none start cnt value wf (ground (arith, first)) out)
  ]
]

-- Some bit of the `n` from `i` has the value.
abbrev pub Has : (b : Bitmap) (i n : ℕ) (value : Bool) → Type 0
Has b i n value = (j : ℕ) × (i ≤ j) × (j < i + n) × (at b j ≡ value)

same_bool : (x y : Bool) → beq x y ≡ true → x ≡ y
same_bool true true e = refl
same_bool true false e = ground arith
same_bool false true e = ground arith
same_bool false false e = refl

other_bool : (x y : Bool) → beq x y ≡ false → x ≢ y
other_bool true true e = ground arith
other_bool true false e = ground arith
other_bool false true e = ground arith
other_bool false false e = ground arith

-- A bit with the value that is not the first one stands in the rest.
later :
    (b : Bitmap) (i n j : ℕ) (value : Bool)
    → i ≤ j
    → j < i + suc n
    → at b j ≡ value
    → at b i ≢ value
    → Has b (suc i) n value
later b i n j value p q v ne = elim (Bool-cases (i == j)) [
  | inl same ↦ absurd (ne (subst (λ x. at b x ≡ value) (sym ((==_iff i j).0 same)) v))
  | inr apart ↦ let lt : suc i ≤ j = ground (arith, apart, p) in (j, lt, omega arith, v)
]

contains_step :
    (b : Bitmap) (i n : ℕ) (value : Bool) {x : Bool}
    → bitmap_test b i ≡ some x
    → contains_from b i (suc n) value
      ≡ (if beq x value then some true else contains_from b (next i) n value)
unfolding contains_from
contains_step b i n value e = rw e

contains_from_lem :
    (i n : ℕ) (value : Bool) {b : Bitmap}
    → IsWf b
    → i + n ≤ b.bit_cnt
    → (c : Bool) × (contains_from b i n value ≡ some c) × ((c ≡ true) ↔ Has b i n value)
unfolding contains_from
contains_from_lem i zero value {b} wf h =
    (false, refl, (λ e. ground arith, λ (j, p, q, e). absurd (omega arith)))
contains_from_lem i (suc n) value {b} wf h = elim (Bool-cases (beq (at b i) value)) [
  | inl hit ↦ (
    true,
    contains_step b i n value (bitmap_test_lem wf i (omega arith)) ∙ rw hit,
    (λ _. (i, omega arith, omega arith, same_bool _ _ hit), λ _. refl),
  )
  | inr miss ↦
      let (c, e, (there, back)) = contains_from_lem (suc i) n value wf (omega arith) in
      (
        c,
        contains_step b i n value (bitmap_test_lem wf i (omega arith))
            ∙ rw (miss, next_lem b i wf (omega arith), e),
        (
          λ t. let (j, p, q, v) = there t in (j, omega arith, omega arith, v),
          λ (j, p, q, v). back (later b i n j value p q v (other_bool _ _ miss)),
        ),
      )
]

-- Asking a range of existing bits for a value succeeds, and answers whether one of them has it.
pub bitmap_contains-Has :
    (start cnt : ℕ) (value : Bool) {b : Bitmap}
    → IsWf b
    → start + cnt ≤ b.bit_cnt
    → (c : Bool) × (bitmap_contains b start cnt value ≡ some c)
      × ((c ≡ true) ↔ Has b start cnt value)
unfolding bitmap_contains
bitmap_contains-Has start cnt value {b} wf h =
    rw (in_range_lem b start cnt wf h) (contains_from_lem start cnt value wf h)
