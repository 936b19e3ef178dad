-- ===== src/Bitmap/Count.antt =====
-- How bitmap_count() counts.
use tweaking_pintos.Prelude.{
  ℕ, zero, suc, ◌+◌, ◌≤◌, ◌≡◌, refl, Bool, true, false, some, arith, beq, if◌then◌else◌, Bool-cases,
  inl, inr,
}
use tweaking_pintos.Bitmap.{Bitmap, count_from, bitmap_count}
use tweaking_pintos.Bitmap.View.{at, IsWf, bitmap_test_lem}
use tweaking_pintos.Bitmap.Ranges.{next_lem, in_range_lem}

-- How many of the `n` values of `f` from `i` are `value`.
abbrev pub tally : (ℕ → Bool) → (i n : ℕ) → (value : Bool) → ℕ
tally f i zero value = 0
tally f i (suc n) value =
    if beq (f i) value then suc (tally f (suc i) n value) else tally f (suc i) n value

count_from_lem :
    (i n : ℕ) (value : Bool) {b : Bitmap}
    → IsWf b
    → i + n ≤ b.bit_cnt
    → count_from b i n value ≡ some (tally (at b) i n value)
unfolding count_from
count_from_lem i zero value wf h = refl
count_from_lem i (suc n) value {b} wf h =
    rw
      (
        bitmap_test_lem wf i (omega arith),
        next_lem b i wf (omega arith),
        count_from_lem (suc i) n value wf (omega arith),
      )
      (elim (Bool-cases (beq (at b i) value)) [ inl e ↦ rw e | inr e ↦ rw e ])

tally_both : (f : ℕ → Bool) (i n : ℕ) → tally f i n true + tally f i n false ≡ n
tally_both f i zero = refl
tally_both f i (suc n) = elim (Bool-cases (f i)) [
  | inl e ↦ rw e (omega (arith, tally_both f (suc i) n))
  | inr e ↦ rw e (omega (arith, tally_both f (suc i) n))
]

-- Counting a range of existing bits succeeds and counts the bits with the value; the counts for true
-- and for false add up to the length of the range.
pub bitmap_count_lem :
    (start cnt : ℕ) {b : Bitmap}
    → IsWf b
    → start + cnt ≤ b.bit_cnt
    → ((value : Bool) → bitmap_count b start cnt value ≡ some (tally (at b) start cnt value))
      × (tally (at b) start cnt true + tally (at b) start cnt false ≡ cnt)
unfolding bitmap_count
bitmap_count_lem start cnt {b} wf h = (
  λ value. rw (in_range_lem b start cnt wf h) (count_from_lem start cnt value wf h),
  tally_both (at b) start cnt,
)
