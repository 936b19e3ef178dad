-- ===== src/Hash/Resize.antt =====
-- rehash(): how many buckets, and that no element is lost.
use tweaking_pintos.Prelude.{
  ℕ, zero, suc, ◌+◌, ◌-◌, ◌/◌, ◌%◌, ◌^◌, ◌≤◌, ◌<◌, ◌≡◌, refl, sym, ◌∙◌, List, [], ◌∷◌, arith, ◌==◌,
  ◌!=◌, ltb, Bool, true, false, Bool-cases, inl, inr, All, some,
}
use tweaking_pintos.Prelude.Bits.{and-le}
use tweaking_pintos.Hash.{
  Supply, Hash, turn_off_least_1bit, is_power_of_2, clear_bits, best_bucket_cnt, push_front,
  find_bucket, move_bucket, move_all, rehash,
}
use tweaking_pintos.Hash.Sums.{sum, total, total-push_front, total-empty}
use tweaking_pintos.Hash.Finds.{IsOrder, IsTable, total_of, matches, find_bucket-lt}

-- The loop goes down.
turn_off-lt : (n : ℕ) → 0 < n → n < 2 ^ 32 → turn_off_least_1bit n < n
unfolding turn_off_least_1bit
turn_off-lt n pos l =
    let wrap : (n + 2 ^ 32 - 1) % 2 ^ 32 ≡ n - 1 = omega (arith, pos, l) in
    rw wrap (omega (arith, and-le 32 n (n - 1) l, pos))

clear_bits_lem :
    (fuel n : ℕ)
    → 0 < n
    → n ≤ fuel
    → n < 2 ^ 32
    → (c : ℕ) × (clear_bits fuel n ≡ some c) × (is_power_of_2 c ≡ true) × (0 < c) × (c ≤ n)
unfolding clear_bits
clear_bits_lem zero n pos le l = absurd (omega (arith, pos, le))
clear_bits_lem (suc fuel) n pos le l = elim (Bool-cases (is_power_of_2 n)) [
  | inl t ↦ (n, rw t refl, t, pos, omega arith)
  | inr f ↦
      let less = turn_off-lt n pos l in
      let some_n : (n != 0) ≡ true = ground (arith, pos) in
      let more : (turn_off_least_1bit n == 0) ≡ false = rw some_n at f in
      let (c, e, p, low, high) =
        clear_bits_lem fuel (turn_off_least_1bit n) (ground (arith, more)) (omega (arith, less, le))
          (omega (arith, less, l)) in
      (c, rw f e, p, low, omega (arith, high, less))
]

-- The loop ends, with a power of 2 that is not above half the elements, or above 4.
pub best_bucket_cnt_lem :
    (n : ℕ)
    → n < 2 ^ 32
    → (c : ℕ) × (best_bucket_cnt n ≡ some c) × (is_power_of_2 c ≡ true) × (0 < c) × (c < 2 ^ 32)
unfolding best_bucket_cnt
best_bucket_cnt_lem n l = elim (Bool-cases (ltb (n / 2) 4)) [
  | inl t ↦
      let (c, e, p, low, high) = clear_bits_lem 4 4 (omega arith) (omega arith) (omega arith) in
      (c, rw t e, p, low, omega (arith, high))
  | inr f ↦
      let pos : 0 < n / 2 = ground (arith, f) in
      let (c, e, p, low, high) =
        clear_bits_lem (n / 2) (n / 2) pos (omega arith) (omega (arith, l)) in
      (c, rw f e, p, low, omega (arith, high, l))
]

module _ (hash : ℕ → ℕ) (less : ℕ → ℕ → Bool) where
  abbrev AllPlaced : (n : ℕ) → (ℕ → List ℕ) → Type 0
  AllPlaced n f = (j : ℕ) → j < n → All (λ y. find_bucket hash less n y ≡ j) (f j)

  pub push_front-placed :
      (n e : ℕ) (f : ℕ → List ℕ)
      → AllPlaced n f
      → AllPlaced n (push_front (find_bucket hash less n e) e f)
  push_front-placed n e f h j l = elim (Bool-cases (j == find_bucket hash less n e)) [
    | inl t ↦ let same : j ≡ find_bucket hash less n e = ground (arith, t) in rw t (sym same, h j l)
    | inr t ↦ rw t (h j l)
  ]

  move_bucket-placed :
      (n : ℕ) (old : List ℕ) (f : ℕ → List ℕ)
      → AllPlaced n f
      → AllPlaced n (move_bucket hash less n old f)
  unfolding move_bucket
  move_bucket-placed n [] f h = h
  move_bucket-placed n (e ∷ old) f h =
      move_bucket-placed n old (push_front (find_bucket hash less n e) e f)
        (push_front-placed n e f h)

  total-move_bucket :
      (w : ℕ → ℕ) (n : ℕ) (old : List ℕ) (f : ℕ → List ℕ)
      → IsOrder hash less
      → 0 < n
      → n < 2 ^ 32
      → total w n (move_bucket hash less n old f) ≡ total w n f + sum w old
  unfolding move_bucket sum
  total-move_bucket w n [] f o pos l = omega arith
  total-move_bucket w n (e ∷ old) f o pos l =
      let i = find_bucket hash less n e in
      omega (
        arith,
        total-move_bucket w n old (push_front i e f) o pos l,
        total-push_front w n i e f (find_bucket-lt hash less n e o pos l),
      )

  move_all-placed :
      (n m : ℕ) (old f : ℕ → List ℕ) → AllPlaced n f → AllPlaced n (move_all hash less n m old f)
  unfolding move_all
  move_all-placed n zero old f h = h
  move_all-placed n (suc m) old f h =
      move_bucket-placed n (old m) (move_all hash less n m old f) (move_all-placed n m old f h)

  total-move_all :
      (w : ℕ → ℕ) (n m : ℕ) (old f : ℕ → List ℕ)
      → IsOrder hash less
      → 0 < n
      → n < 2 ^ 32
      → total w n (move_all hash less n m old f) ≡ total w n f + total w m old
  unfolding move_all total
  total-move_all w n zero old f o pos l = omega arith
  total-move_all w n (suc m) old f o pos l = omega (
    arith,
    total-move_bucket w n (old m) (move_all hash less n m old f) o pos l,
    total-move_all w n m old f o pos l,
  )

  -- The same elements, in tables of possibly different size.
  pub record IsResized (h h' : Hash) : Type 0 where
    pub table : IsTable hash less h'
    pub elem_cnt : h'.elem_cnt ≡ h.elem_cnt
    pub same : (w : ℕ → ℕ) → total_of hash less w h' ≡ total_of hash less w h

  -- For a well-formed table, whether or not there is memory for new buckets, where free() of the old ones
  -- returns: the loop that computes the number of
  -- buckets ends, rehash() loses no element and doubles none, and the table stays well-formed.
  pub rehash-IsResized :
      (supply : Supply) (h : Hash)
      → supply.freed ≡ true
      → IsOrder hash less
      → h.elem_cnt < 2 ^ 32
      → IsTable hash less h
      → (h' : Hash) × (rehash hash less supply h ≡ some h') × IsResized h h'
  unfolding rehash
  rehash-IsResized supply h freed o l t =
      let (c, e, p, low, high) = best_bucket_cnt_lem h.elem_cnt l in
      let stay : IsResized h h = record { table = t; elem_cnt = refl; same = λ w. refl } in
      elim (Bool-cases (c == h.bucket_cnt)) [
        | inl same ↦ (h, rw (e, same) refl, stay)
        | inr other ↦ elim (Bool-cases supply.granted) [
          | inr none_left ↦ (h, rw (e, other, none_left) refl, stay)
          | inl given ↦
              let f = move_all hash less c h.bucket_cnt h.buckets (λ j. []) in
              let kept : (w : ℕ → ℕ) → total w c f ≡ total w h.bucket_cnt h.buckets = λ w. omega (
                arith,
                total-move_all w c h.bucket_cnt h.buckets (λ j. []) o low high,
                total-empty w c,
              ) in
              (
                record h { bucket_cnt = c; buckets = f },
                rw (e, other, given, freed) refl,
                record {
                  table = record {
                    some_bucket = low;
                    range = high;
                    counted = t.counted ∙ sym (kept (λ y. 1));
                    placed = move_all-placed c h.bucket_cnt h.buckets (λ j. []) (λ j b. tt);
                    single = λ x. omega (arith, kept (matches hash less x), t.single x);
                  };
                  elem_cnt = refl;
                  same = kept;
                },
              )
        ]
      ]
