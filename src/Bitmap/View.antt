-- ===== src/Bitmap/View.antt =====
-- A bitmap as a function from bit numbers to Booleans, and the operations on one bit.
use tweaking_pintos.Prelude.{
  ℕ, ◌+◌, ◌-◌, ◌/◌, ◌%◌, ◌^◌, ◌≤◌, ◌<◌, ◌≡◌, ◌≢◌, refl, ◌∙◌, Bool, true, false, not, none, some,
  arith, All, All-get_or, All-set, ltb, ◌==◌, if◌then◌else◌, bit_and, bit_or, bit_xor, Bool-cases,
  inl, inr, set, get_or, length, get_elem?-get_or, length-set, get_or-set_self, get_or-set_ne,
  ==_iff,
}
use tweaking_pintos.Prelude.Bits.{
  bit, bit-lt, bit-and, bit-or, bit-xor, bit-pow, bit-complement, or-lt, and-lt, xor-lt,
  masked_test, pow-lt,
}
use tweaking_pintos.Bitmap.{
  Bitmap, change, bitmap_mark, bitmap_reset, bitmap_flip, bitmap_set, bitmap_test,
}

-- Bit `i` of the storage.
abbrev pub at : Bitmap → ℕ → Bool
at b i = bit (get_or b.bits (i / 32) 0) (i % 32) == 1

-- The storage has the elements that the bits need, each of 32 bits, and `elem_cnt` does not wrap.
pub record IsWf (b : Bitmap) : Type 0 where
  pub storage : length b.bits ≡ (b.bit_cnt + 31) / 32
  pub fits : b.bit_cnt + 31 < 2 ^ 32
  pub words : All (λ w. w < 2 ^ 32) b.bits

-- `b'` is `b` with bit `i` changed by `g`.
pub record Changed (b : Bitmap) (i : ℕ) (g : Bool → Bool) (b' : Bitmap) : Type 0 where
  pub size : b'.bit_cnt ≡ b.bit_cnt
  pub wf : IsWf b'
  pub bits : (j : ℕ) → at b' j ≡ (if j == i then g (at b j) else at b j)

-- `f` changes bit `k` of a word, by `g`, and no other.
record OnBit (k : ℕ) (f : ℕ → ℕ) (g : Bool → Bool) : Type 0 where
  word : (w : ℕ) → w < 2 ^ 32 → f w < 2 ^ 32
  digit :
      (w j : ℕ)
      → w < 2 ^ 32
      → j < 32
      → (bit (f w) j == 1) ≡ (if j == k then g (bit w j == 1) else bit w j == 1)

mark-OnBit : (k : ℕ) → k < 32 → OnBit k (λ w. bit_or w (2 ^ k)) (λ _. true)
mark-OnBit k h = record {
  word = λ w l. or-lt 32 w (2 ^ k) l (pow-lt k 32 h);
  digit = λ w j l m. ground (arith, bit-or j w (2 ^ k), bit-pow k j, bit-lt w j);
}

reset-OnBit : (k : ℕ) → k < 32 → OnBit k (λ w. bit_and w (2 ^ 32 - 1 - 2 ^ k)) (λ _. false)
reset-OnBit k h = record {
  word = λ w l. and-lt 32 w (2 ^ 32 - 1 - 2 ^ k) l;
  digit = λ w j l m. ground (
    arith,
    bit-and j w (2 ^ 32 - 1 - 2 ^ k),
    bit-complement 32 (2 ^ k) j (pow-lt k 32 h),
    bit-pow k j,
    bit-lt w j,
  );
}

flip-OnBit : (k : ℕ) → k < 32 → OnBit k (λ w. bit_xor w (2 ^ k)) not
flip-OnBit k h = record {
  word = λ w l. xor-lt 32 w (2 ^ k) l (pow-lt k 32 h);
  digit = λ w j l m. ground (arith, bit-xor j w (2 ^ k), bit-pow k j, bit-lt w j);
}

module _ {b : Bitmap} (wf : IsWf b) (i : ℕ) (inside : i < b.bit_cnt) where
  there : i / 32 < length b.bits
  there = omega (arith, wf.storage, inside)

  low : i % 32 < 32
  low = omega arith

  abbrev old : ℕ
  old = get_or b.bits (i / 32) 0

  word-old : old < 2 ^ 32
  word-old = All-get_or (λ w. w < 2 ^ 32) b.bits (i / 32) 0 wf.words there

  places :
      (f : ℕ → ℕ) (g : Bool → Bool)
      → OnBit (i % 32) f g
      → (j : ℕ)
      → at (record b { bits = set b.bits (i / 32) (f old) }) j
        ≡ (if j == i then g (at b j) else at b j)
  places f g on j = elim (Bool-cases (i / 32 == j / 32)) [
    | inl same ↦
        let e : i / 32 ≡ j / 32 = (==_iff _ _).0 same in
        let same_bit : (j % 32 == i % 32) ≡ (j == i) = ground (arith, e) in
        rw (← e, get_or-set_self b.bits (i / 32) (f old) 0 there)
          (on.digit old (j % 32) word-old (omega arith) ∙ rw same_bit)
    | inr other ↦
        let apart : i / 32 ≢ j / 32 = ground (arith, other) in
        let other_bit : (j == i) ≡ false = ground (arith, apart) in
        rw (get_or-set_ne b.bits (i / 32) (j / 32) (f old) 0 apart, other_bit)
  ]

  change_lem :
      (f : ℕ → ℕ) (g : Bool → Bool)
      → OnBit (i % 32) f g
      → (b' : Bitmap) × (change b (i / 32) f ≡ some b') × Changed b i g b'
  change_lem f g on = (
    record b { bits = set b.bits (i / 32) (f (get_or b.bits (i / 32) 0)) },
    rw (get_elem?-get_or b.bits (i / 32) 0 there),
    record {
      size = refl;
      wf = record {
        storage = length-set b.bits _ _ ∙ wf.storage;
        fits = wf.fits;
        words =
            All-set (λ w. w < 2 ^ 32) b.bits _ _ wf.words
              (on.word _ (All-get_or (λ w. w < 2 ^ 32) b.bits _ 0 wf.words there));
      };
      bits = places f g on;
    },
  )

  pub bitmap_mark-Changed : (b' : Bitmap) × (bitmap_mark b i ≡ some b') × Changed b i (λ _. true) b'
  unfolding bitmap_mark
  bitmap_mark-Changed = change_lem _ (λ _. true) (mark-OnBit (i % 32) low)

  pub bitmap_reset-Changed :
      (b' : Bitmap) × (bitmap_reset b i ≡ some b') × Changed b i (λ _. false) b'
  unfolding bitmap_reset
  bitmap_reset-Changed = change_lem _ (λ _. false) (reset-OnBit (i % 32) low)

  -- In a well-formed bitmap, flipping an existing bit succeeds, turns that bit, keeps every other
  -- bit, and leaves the bitmap well-formed.
  pub bitmap_flip-Changed : (b' : Bitmap) × (bitmap_flip b i ≡ some b') × Changed b i not b'
  unfolding bitmap_flip
  bitmap_flip-Changed = change_lem _ not (flip-OnBit (i % 32) low)

  -- Setting an existing bit succeeds, gives it the value, keeps every other bit, and leaves the
  -- bitmap well-formed.
  pub bitmap_set-Changed :
      (value : Bool)
      → (b' : Bitmap) × (bitmap_set b i value ≡ some b') × Changed b i (λ _. value) b'
  unfolding bitmap_set
  bitmap_set-Changed value =
      let test : ltb i b.bit_cnt ≡ true = ground (arith, inside) in rw test (choose value)
    where
      choose :
          (value : Bool)
          → (b' : Bitmap) × ((if value then bitmap_mark b i else bitmap_reset b i) ≡ some b')
            × Changed b i (λ _. value) b'
      choose true = bitmap_mark-Changed
      choose false = bitmap_reset-Changed

  -- Testing an existing bit reports it.
  pub bitmap_test_lem : bitmap_test b i ≡ some (at b i)
  unfolding bitmap_test
  bitmap_test_lem =
      let test : ltb i b.bit_cnt ≡ true = ground (arith, inside) in
      rw (test, get_elem?-get_or b.bits (i / 32) 0 there, masked_test)

-- Setting or testing a bit that does not exist fails.
pub bitmap_set-none :
    (b : Bitmap) (i : ℕ) (value : Bool)
    → b.bit_cnt ≤ i
    → (bitmap_set b i value ≡ none) × (bitmap_test b i ≡ none)
unfolding bitmap_set bitmap_test
bitmap_set-none b i value h =
    let test : ltb i b.bit_cnt ≡ false = ground (arith, h) in (rw test, rw test)
