-- ===== src/Bitmap/Search.antt =====
-- Finding a group of bits, and flipping the group found.
use tweaking_pintos.Prelude.{
  ℕ, zero, suc, ◌+◌, ◌-◌, ◌≤◌, ◌<◌, ◌≡◌, ◌≢◌, refl, sym, ◌∙◌, subst, ==_iff, Bool, true, false, not,
  some, arith, leb, ◌==◌, ◌!=◌, if◌then◌else◌, Bool-cases, inl, inr, ◌⊎◌, ◌↔◌,
}
use tweaking_pintos.Bitmap.{
  Bitmap, bitmap_error, bitmap_contains, scan_from, bitmap_scan, flip_found, negate,
  bitmap_scan_and_flip, bitmap_all, bitmap_none,
}
use tweaking_pintos.Bitmap.View.{at, IsWf}
use tweaking_pintos.Bitmap.Ranges.{Wrote, bitmap_contains-Has, bitmap_set_multiple-Wrote}

-- All of the `cnt` bits from `i` have the value.
abbrev pub Group : (b : Bitmap) (i cnt : ℕ) (value : Bool) → Type 0
Group b i cnt value = (j : ℕ) → i ≤ j → j < i + cnt → at b j ≡ value

-- `r` starts the first group at or after `start` that lies in the bitmap.
pub record IsFirst (b : Bitmap) (start cnt : ℕ) (value : Bool) (r : ℕ) : Type 0 where
  pub after : start ≤ r
  pub inside : r + cnt ≤ b.bit_cnt
  pub group : Group b r cnt value
  pub least : (i : ℕ) → start ≤ i → i < r → ¬ Group b i cnt value

-- No group at or after `start` lies in the bitmap.
abbrev pub HasNoGroup : (b : Bitmap) (start cnt : ℕ) (value : Bool) → Type 0
HasNoGroup b start cnt value = (i : ℕ) → start ≤ i → i + cnt ≤ b.bit_cnt → ¬ Group b i cnt value

abbrev pub Found : (b : Bitmap) (start cnt : ℕ) (value : Bool) (r : ℕ) → Type 0
Found b start cnt value r =
    ((r ≡ bitmap_error) × HasNoGroup b start cnt value) ⊎ IsFirst b start cnt value r

-- A group has no bit of the other value, and a range without such a bit is a group.
not_both : (x v : Bool) → x ≡ v → x ≢ not v
not_both true true e = ground arith
not_both true false e = ground arith
not_both false true e = ground arith
not_both false false e = ground arith

one_of : (x v : Bool) → x ≢ not v → x ≡ v
one_of true true h = refl
one_of true false h = absurd (h refl)
one_of false true h = absurd (h refl)
one_of false false h = refl

-- Where no group starts at `i`, the search may start at the next bit.
unless_here :
    (b : Bitmap) (i cnt : ℕ) (value : Bool) (j : ℕ)
    → ¬ Group b i cnt value
    → i ≤ j
    → (suc i ≤ j → ¬ Group b j cnt value)
    → ¬ Group b j cnt value
unless_here b i cnt value j here p h g = elim (Bool-cases (i == j)) [
  | inl same ↦ here (subst (λ x. Group b x cnt value) (sym ((==_iff i j).0 same)) g)
  | inr apart ↦ let lt : suc i ≤ j = ground (arith, apart, p) in h lt g
]

skip :
    (b : Bitmap) (i cnt : ℕ) (value : Bool) (r : ℕ)
    → ¬ Group b i cnt value
    → Found b (suc i) cnt value r
    → Found b i cnt value r
skip b i cnt value r here (inl (e, h)) =
    inl (e, λ j p q. unless_here b i cnt value j here p (λ lt. h j lt q))
skip b i cnt value r here (inr first) = inr (record {
  after = omega (arith, first.after);
  inside = first.inside;
  group = first.group;
  least = λ j p q. unless_here b i cnt value j here p (λ lt. first.least j lt q);
})

scan_step :
    (b : Bitmap) (i n cnt : ℕ) (value : Bool) {bad : Bool}
    → bitmap_contains b i cnt (not value) ≡ some bad
    → scan_from b i (suc n) cnt value ≡ (if bad then scan_from b (suc i) n cnt value else some i)
unfolding scan_from
scan_step b i n cnt value e = rw e

scan_from-Found :
    (n i cnt : ℕ) (value : Bool) {b : Bitmap}
    → IsWf b
    → cnt ≤ b.bit_cnt
    → n ≡ b.bit_cnt - cnt + 1 - i
    → (r : ℕ) × (scan_from b i n cnt value ≡ some r) × Found b i cnt value r
unfolding scan_from
scan_from-Found zero i cnt value {b} wf le h =
    (bitmap_error, refl, inl (refl, λ j p q g. omega arith))
scan_from-Found (suc n) i cnt value {b} wf le h =
    let (c, e, (there, back)) = bitmap_contains-Has i cnt (not value) wf (omega arith) in
    elim (Bool-cases c) [
      | inl bad ↦
          let (r, e', found) = scan_from-Found n (suc i) cnt value wf le (omega arith) in
          let (j, p, q, v) = there bad in
          let here : ¬ Group b i cnt value = λ g. not_both _ _ (g j p q) v in
          (r, scan_step b i n cnt value e ∙ rw (bad, e'), skip b i cnt value r here found)
      | inr good ↦ (
        i,
        scan_step b i n cnt value e ∙ rw good,
        inr (record {
          after = omega arith;
          inside = omega arith;
          group = λ j p q. one_of _ _ λ v. ground (arith, back (j, p, q, v), good);
          least = λ j p q g. omega arith;
        }),
      )
    ]

-- In a well-formed bitmap, scanning from an existing position, or from the end, succeeds: it returns
-- the first index from there at which a group of the wanted length starts, or BITMAP_ERROR exactly if
-- there is none, also when the group is longer than the bitmap.
pub bitmap_scan-Found :
    (start cnt : ℕ) (value : Bool) {b : Bitmap}
    → IsWf b
    → start ≤ b.bit_cnt
    → (r : ℕ) × (bitmap_scan b start cnt value ≡ some r) × Found b start cnt value r
unfolding bitmap_scan
bitmap_scan-Found start cnt value {b} wf h =
    let from : leb start b.bit_cnt ≡ true = ground (arith, h) in
    elim (Bool-cases (leb cnt b.bit_cnt)) [
      | inr long ↦
          let far : b.bit_cnt < cnt = ground (arith, long) in
          (bitmap_error, rw (from, long), inl (refl, λ i p q g. omega arith))
      | inl short ↦
          let le : cnt ≤ b.bit_cnt = ground (arith, short) in
          rw (from, short)
            (scan_from-Found (b.bit_cnt - cnt + 1 - start) start cnt value wf le refl)
    ]

-- What scanning and flipping leaves: the same bitmap if no group was found, and otherwise the bitmap
-- with the bits of the first group turned.
abbrev pub Flipped : (b : Bitmap) (start cnt : ℕ) (value : Bool) (r : ℕ) (b' : Bitmap) → Type 0
Flipped b start cnt value r b' =
    ((r ≡ bitmap_error) × HasNoGroup b start cnt value × (b' ≡ b))
    ⊎ (IsFirst b start cnt value r × Wrote b r cnt (not value) b')

flip_found_lem :
    (start cnt : ℕ) (value : Bool) (r : ℕ) {b : Bitmap}
    → IsWf b
    → Found b start cnt value r
    → (b' : Bitmap) × (flip_found b r cnt value ≡ some b') × Flipped b start cnt value r b'
unfolding flip_found
flip_found_lem start cnt value r {b} wf (inl (e, h)) =
    let same : (r != bitmap_error) ≡ false = ground (arith, e) in (b, rw same, inl (e, h, refl))
flip_found_lem start cnt value r {b} wf (inr first) =
    let found : (r != bitmap_error) ≡ true = ground (arith, first.inside, wf.fits) in
    let (b', e, wrote) = bitmap_set_multiple-Wrote r cnt (not value) wf first.inside in
    (b', rw (found, e), inr (first, wrote))

-- In a well-formed bitmap, scanning and flipping from an existing position succeeds: either it
-- returns BITMAP_ERROR, there is no group and the bitmap is unchanged, or it returns the start of
-- the first group and exactly the bits of that group are turned, leaving the bitmap well-formed.
pub bitmap_scan_and_flip-Flipped :
    (start cnt : ℕ) (value : Bool) {b : Bitmap}
    → IsWf b
    → start ≤ b.bit_cnt
    → (r : ℕ) × (b' : Bitmap) × (bitmap_scan_and_flip b start cnt value ≡ some (r, b'))
      × Flipped b start cnt value r b'
unfolding bitmap_scan_and_flip
bitmap_scan_and_flip-Flipped start cnt value {b} wf h =
    let (r, e, found) = bitmap_scan-Found start cnt value wf h in
    let (b', e', flipped) = flip_found_lem start cnt value r wf found in
    (r, b', rw (e, e'), flipped)

-- Asking a range of existing bits whether all are set, or whether none is, succeeds, and the answer
-- is yes exactly if all are, or if none is.
pub bitmap_all-Group :
    (start cnt : ℕ) {b : Bitmap}
    → IsWf b
    → start + cnt ≤ b.bit_cnt
    → ((c : Bool) × (bitmap_all b start cnt ≡ some c) × ((c ≡ true) ↔ Group b start cnt true))
      × ((c : Bool) × (bitmap_none b start cnt ≡ some c) × ((c ≡ true) ↔ Group b start cnt false))
unfolding bitmap_all bitmap_none
bitmap_all-Group start cnt {b} wf h = (lacks true, lacks false)
  where
    lacks :
        (value : Bool)
        → (c : Bool) × (negate (bitmap_contains b start cnt (not value)) ≡ some c)
          × ((c ≡ true) ↔ Group b start cnt value)
    lacks value =
        let (c, e, (there, back)) = bitmap_contains-Has start cnt (not value) wf h in
        elim (Bool-cases c) [
          | inl bad ↦
              let (j, p, q, v) = there bad in
              (false, rw (e, bad), (λ t. ground arith, λ g. absurd (not_both _ _ (g j p q) v)))
          | inr good ↦ (
            true,
            rw (e, good),
            (λ _ j p q. one_of _ _ λ v. ground (arith, back (j, p, q, v), good), λ _. refl),
          )
        ]
