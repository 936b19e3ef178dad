-- ===== src/Hash/Order.antt =====
-- Iteration over a hash table: the iterator against hash_apply().
use tweaking_pintos.Prelude.{
  ℕ, zero, suc, ◌+◌, ◌-◌, ◌≤◌, ◌<◌, ◌≡◌, refl, ap, ◌∙◌, sym, List, [], ◌∷◌, ◌++◌, Option, none,
  some, arith, length, subst,
}
use tweaking_pintos.Hash.{
  Hash, HashIterator, elements, hash_apply, hash_first, hash_next, hash_cur, next_bucket,
}

-- What the loop sees: the current element, if there is one, and what follows.
abbrev seen : (cur : Option ℕ) (rest : Option (List ℕ)) → Option (List ℕ)
seen none rest = some []
seen (some x) none = none
seen (some x) (some xs) = some (x ∷ xs)

-- The elements that the loop `while (hash_next (&i)) ... hash_cur (&i) ...` sees, in at most `fuel` rounds.
unfoldable pub iterate : (fuel : ℕ) → Hash → HashIterator → Option (List ℕ)
iterate zero h i = none
iterate (suc fuel) h i = let next = hash_next h i in seen (hash_cur next) (iterate fuel h next)

-- What an iterator has before it.
abbrev remaining : Hash → HashIterator → List ℕ
remaining h i = i.following ++ elements (h.bucket_cnt - (i.bucket + 1)) (i.bucket + 1) h.buckets

-- The loop of hash_next() finds the first element of the buckets that are left.
data IsNext (h : Hash) : HashIterator → List ℕ → Type 0 where
  at_end : (i : HashIterator) → i.elem ≡ none → IsNext h i []
  at_elem :
      (i : HashIterator) (x : ℕ) (xs : List ℕ)
      → i.elem ≡ some x
      → i.bucket < h.bucket_cnt
      → xs ≡ remaining h i
      → IsNext h i (x ∷ xs)

next_bucket-IsNext :
    (h : Hash) (n i : ℕ)
    → i + n ≡ h.bucket_cnt
    → IsNext h (next_bucket n i h) (elements n i h.buckets)
unfolding next_bucket elements
next_bucket-IsNext h zero i e = at_end (record { bucket = i; elem = none; following = [] }) refl
next_bucket-IsNext h (suc n) i e =
    from (h.buckets i) refl (next_bucket-IsNext h n (i + 1) (omega (arith, e)))
  where
    from :
        (l : List ℕ)
        → h.buckets i ≡ l
        → IsNext h (next_bucket n (i + 1) h) (elements n (i + 1) h.buckets)
        → IsNext h (next_bucket (suc n) i h) (h.buckets i ++ elements n (i + 1) h.buckets)
    from [] same rest = rw (next_bucket, same) rest
    from (x ∷ xs) same rest =
        let left : h.bucket_cnt - (i + 1) ≡ n = omega (arith, e) in
        rw (next_bucket, same)
          (at_elem (record { bucket = i; elem = some x; following = xs }) x
            (xs ++ elements n (i + 1) h.buckets) refl (omega (arith, e))
            (ap (λ k. xs ++ elements k (i + 1) h.buckets) (sym left)))

hash_next-IsNext :
    (h : Hash) (i : HashIterator)
    → i.bucket < h.bucket_cnt
    → IsNext h (hash_next h i) (remaining h i)
unfolding hash_next
hash_next-IsNext h i l = from i.following refl
  where
    from : (rest : List ℕ) → i.following ≡ rest → IsNext h (hash_next h i) (remaining h i)
    from [] same =
        rw (hash_next, same)
          (next_bucket-IsNext h (h.bucket_cnt - (i.bucket + 1)) (i.bucket + 1) (omega (arith, l)))
    from (x ∷ xs) same =
        rw (hash_next, same)
          (at_elem (record { bucket = i.bucket; elem = some x; following = xs }) x
            (xs ++ elements (h.bucket_cnt - (i.bucket + 1)) (i.bucket + 1) h.buckets) refl l refl)

-- One round sees what IsNext says.
seen_lem :
    (h : Hash) (fuel : ℕ) (next : HashIterator) (l : List ℕ)
    → IsNext h next l
    → length l ≤ fuel
    → ((j : HashIterator) (xs : List ℕ)
        → j.bucket < h.bucket_cnt
        → xs ≡ remaining h j
        → length xs < fuel
        → iterate fuel h j ≡ some xs)
    → seen (hash_cur next) (iterate fuel h next) ≡ some l
seen_lem h fuel next l (at_end i e) enough go = ap (λ c. seen c (iterate fuel h next)) e
seen_lem h fuel next l (at_elem i x xs e b r) enough go =
    ap (λ c. seen c (iterate fuel h next)) e
    ∙ ap (seen (some x)) (go i xs b r (omega (arith, enough)))

iterate_lem :
    (h : Hash) (fuel : ℕ) (i : HashIterator) (l : List ℕ)
    → i.bucket < h.bucket_cnt
    → l ≡ remaining h i
    → length l < fuel
    → iterate fuel h i ≡ some l
unfolding iterate
iterate_lem h zero i l b e enough = absurd (omega (arith, enough))
iterate_lem h (suc fuel) i l b e enough =
    seen_lem h fuel (hash_next h i) l
      (subst (IsNext h (hash_next h i)) (sym e) (hash_next-IsNext h i b)) (omega (arith, enough))
      (λ j xs bj ej lt. iterate_lem h fuel j xs bj ej lt)

-- For a table with buckets, the loop with hash_first(), hash_next() and hash_cur() ends, within one
-- round more than there are elements, and sees exactly the elements that hash_apply() calls its action
-- with, in the same order.
pub iterate-hash_apply :
    (h : Hash) (fuel : ℕ)
    → 0 < h.bucket_cnt
    → length (hash_apply h) < fuel
    → iterate fuel h (hash_first h) ≡ some (hash_apply h)
unfolding hash_apply hash_first elements
iterate-hash_apply h fuel pos enough =
    let left : suc (h.bucket_cnt - 1) ≡ h.bucket_cnt = omega (arith, pos) in
    iterate_lem h fuel (hash_first h) (hash_apply h) pos
      (ap (λ n. elements n 0 h.buckets) (sym left)) enough
