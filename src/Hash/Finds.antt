-- ===== src/Hash/Finds.antt =====
-- What a hash table holds, and what hash_find() finds of it.
use tweaking_pintos.Prelude.{
  ℕ, zero, suc, ◌+◌, ◌-◌, ◌%◌, ◌^◌, ◌≤◌, ◌<◌, ◌≡◌, ◌≢◌, subst, refl, sym, ap, ◌∙◌, List, [], ◌∷◌,
  arith, ◌==◌, if◌then◌else◌, Bool, true, false, Bool-cases, inl, inr, elem, All, Option, none,
  some, not, ◌&&◌, bit_and,
}
use tweaking_pintos.Prelude.Bits.{and-le}
use tweaking_pintos.Prelude.Partial.{or_else}
use tweaking_pintos.Hash.{Hash, find_bucket, equal, find_elem, hash_find}
use tweaking_pintos.Hash.Sums.{sum, total, total-only, total-bucket}

-- What the code relies on: `less` is irreflexive, elements of which neither is less are alike to it and
-- have the same hash value, an `unsigned`.
pub record IsOrder (hash : ℕ → ℕ) (less : ℕ → ℕ → Bool) : Type 0 where
  pub range : (e : ℕ) → hash e < 2 ^ 32
  pub irreflexive : (e : ℕ) → less e e ≡ false
  pub alike :
      (a b c : ℕ)
      → equal hash less a b ≡ true
      → equal hash less b c ≡ true
      → equal hash less a c ≡ true
  pub same : (a b : ℕ) → equal hash less a b ≡ true → hash a ≡ hash b

module _ (hash : ℕ → ℕ) (less : ℕ → ℕ → Bool) where
  -- Whether an element is equal to `x`.
  abbrev pub matches : (x : ℕ) → ℕ → ℕ
  matches x y = if equal hash less y x then 1 else 0

  -- One more than an element equal to `x`.
  abbrev pub value : (x : ℕ) → ℕ → ℕ
  value x y = if equal hash less y x then y + 1 else 0

  abbrev pub total_of : (w : ℕ → ℕ) → Hash → ℕ
  total_of w h = total w h.bucket_cnt h.buckets

  -- Every element stands in its bucket, no two elements are equal, and they are counted.
  pub record IsTable (h : Hash) : Type 0 where
    pub some_bucket : 0 < h.bucket_cnt
    pub range : h.bucket_cnt < 2 ^ 32
    pub counted : h.elem_cnt ≡ total_of (λ y. 1) h
    pub placed :
        (j : ℕ)
        → j < h.bucket_cnt
        → All (λ y. find_bucket hash less h.bucket_cnt y ≡ j) (h.buckets j)
    pub single : (x : ℕ) → total_of (matches x) h ≤ 1

  abbrev pub decode : ℕ → Option ℕ
  decode zero = none
  decode (suc n) = some n

  pub equal-sym : (a b : ℕ) → equal hash less a b ≡ true → equal hash less b a ≡ true
  equal-sym a b e = swap (less a b) (less b a) e
    where
      swap : (p q : Bool) → (not p && not q) ≡ true → (not q && not p) ≡ true
      swap true q e = absurd (cc e)
      swap false true e = absurd (cc e)
      swap false false e = refl

  pub find_bucket-lt :
      (n e : ℕ) → IsOrder hash less → 0 < n → n < 2 ^ 32 → find_bucket hash less n e < n
  unfolding find_bucket
  find_bucket-lt n e o pos l =
      let wrap : (n + 2 ^ 32 - 1) % 2 ^ 32 ≡ n - 1 = omega (arith, pos, l) in
      rw wrap (omega (arith, and-le 32 (hash e) (n - 1) (o.range e), pos))

  pub find_bucket-cong :
      (n a b : ℕ)
      → IsOrder hash less
      → equal hash less a b ≡ true
      → find_bucket hash less n a ≡ find_bucket hash less n b
  unfolding find_bucket
  find_bucket-cong n a b o e = ap (λ v. bit_and v ((n + 2 ^ 32 - 1) % 2 ^ 32)) (o.same a b e)

  -- Where nothing matches there is no value.
  sum-nothing : (x : ℕ) (l : List ℕ) → sum (matches x) l ≡ 0 → sum (value x) l ≡ 0
  unfolding sum
  sum-nothing x [] e = refl
  sum-nothing x (y ∷ ys) e = elim (Bool-cases (equal hash less y x)) [
    | inl t ↦ absurd (omega (arith, rw t at e))
    | inr f ↦
        let rest : sum (matches x) ys ≡ 0 = omega (arith, rw f at e) in
        rw f (omega (arith, sum-nothing x ys rest))
  ]

  find_elem_lem :
      (x : ℕ) (l : List ℕ)
      → sum (matches x) l ≤ 1
      → find_elem hash less l x ≡ decode (sum (value x) l)
  unfolding sum find_elem
  find_elem_lem x [] h = refl
  find_elem_lem x (y ∷ ys) h = elim (Bool-cases (equal hash less y x)) [
    | inl t ↦
        let rest : sum (matches x) ys ≡ 0 = omega (arith, rw t at h) in
        let here : y + 1 + sum (value x) ys ≡ suc y = omega (arith, sum-nothing x ys rest) in
        rw t (rw here refl)
    | inr f ↦
        let rest : sum (matches x) ys ≤ 1 = omega (arith, rw f at h) in
        let same : 0 + sum (value x) ys ≡ sum (value x) ys = omega arith in
        rw f (rw same (find_elem_lem x ys rest))
  ]

  -- Elements of other buckets are not equal to `x`.
  other_bucket :
      (n j x : ℕ) (l : List ℕ)
      → IsOrder hash less
      → (j == find_bucket hash less n x) ≡ false
      → All (λ y. find_bucket hash less n y ≡ j) l
      → sum (value x) l ≡ 0
  unfolding sum
  other_bucket n j x [] o ne h = refl
  other_bucket n j x (y ∷ ys) o ne (h, hs) = elim (Bool-cases (equal hash less y x)) [
    | inl t ↦ absurd (omega (arith, differ, sym h ∙ find_bucket-cong n y x o t))
    | inr f ↦ rw f (omega (arith, other_bucket n j x ys o ne hs))
  ]
    where
      differ : j ≢ find_bucket hash less n x
      differ = ground (arith, ne)

  -- What hash_find() finds is the one element that is equal, whatever its bucket.
  pub hash_find_lem :
      (x : ℕ) (h : Hash)
      → IsOrder hash less
      → IsTable h
      → hash_find hash less x h ≡ decode (total_of (value x) h)
  unfolding hash_find
  hash_find_lem x h o t =
      let i = find_bucket hash less h.bucket_cnt x in
      let l = find_bucket-lt h.bucket_cnt x o t.some_bucket t.range in
      let one : sum (matches x) (h.buckets i) ≤ 1 =
        omega (arith, t.single x, total-bucket (matches x) h.bucket_cnt i h.buckets l) in
      find_elem_lem x (h.buckets i) one
      ∙ ap decode (
          sym (
            total-only (value x) h.bucket_cnt i h.buckets l
              (λ j lt ne. other_bucket h.bucket_cnt j x (h.buckets j) o ne (t.placed j lt))))

  here_elem : (y : ℕ) (l : List ℕ) → elem y (y ∷ l) ≡ true
  here_elem y l = let self : (y == y) ≡ true = ground arith in rw self refl

  later : (y z : ℕ) (l : List ℕ) → elem y l ≡ true → elem y (z ∷ l) ≡ true
  later y z l e = elim (Bool-cases (y == z)) [ inl t ↦ rw t refl | inr f ↦ rw (f, e) refl ]

  find_elem-some :
      (x y : ℕ) (l : List ℕ)
      → find_elem hash less l x ≡ some y
      → (elem y l ≡ true) × (equal hash less y x ≡ true)
  unfolding find_elem
  find_elem-some x y [] e = absurd (cc e)
  find_elem-some x y (z ∷ zs) e = elim (Bool-cases (equal hash less z x)) [
    | inl t ↦
        let here : some z ≡ some y = rw t at e in
        let same : z ≡ y = ap (or_else 0) here in
        (rw same (here_elem y zs), subst (λ z. equal hash less z x ≡ true) same t)
    | inr f ↦
        let there : find_elem hash less zs x ≡ some y = rw f at e in
        let (m, t) = find_elem-some x y zs there in (later y z zs m, t)
  ]

  -- An element that is found stands in its bucket and is equal.
  pub hash_find-some :
      (x y : ℕ) (h : Hash)
      → hash_find hash less x h ≡ some y
      → (elem y (h.buckets (find_bucket hash less h.bucket_cnt x)) ≡ true)
        × (equal hash less y x ≡ true)
  unfolding hash_find
  hash_find-some x y h e = find_elem-some x y (h.buckets (find_bucket hash less h.bucket_cnt x)) e
