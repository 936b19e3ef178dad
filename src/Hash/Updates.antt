-- ===== src/Hash/Updates.antt =====
-- hash_insert(), hash_replace() and hash_delete(): what hash_find() finds afterwards.
use tweaking_pintos.Prelude.{
  ℕ, ◌+◌, ◌^◌, ◌≤◌, ◌<◌, ◌≡◌, ◌≢◌, sym, ap, arith, ◌==◌, Bool, true, false, Bool-cases, inl, inr,
  All-elem, elem, erase,
}
use tweaking_pintos.Hash.{Hash, find_bucket, equal, push_front, insert_elem, remove_elem}
use tweaking_pintos.Hash.Sums.{
  sum, total, total-change, total-push_front, total-le, sum-erase, erase_absent, erase-All,
}
use tweaking_pintos.Hash.Finds.{IsOrder, IsTable, total_of, matches, equal-sym, find_bucket-lt}
use tweaking_pintos.Hash.Resize.{push_front-placed}

module _ (hash : ℕ → ℕ) (less : ℕ → ℕ → Bool) where
  -- A table with one element more.
  pub inserted :
      (new : ℕ) (h : Hash)
      → IsOrder hash less
      → h.elem_cnt + 1 < 2 ^ 32
      → IsTable hash less h
      → total_of hash less (matches hash less new) h ≡ 0
      → IsTable hash less (insert_elem (find_bucket hash less h.bucket_cnt new) new h)
        × ((w : ℕ → ℕ)
            → total_of hash less w (insert_elem (find_bucket hash less h.bucket_cnt new) new h)
              ≡ w new + total_of hash less w h)
        × ((insert_elem (find_bucket hash less h.bucket_cnt new) new h).elem_cnt < 2 ^ 32)
  unfolding insert_elem
  inserted new h o fits t absent =
      let i = find_bucket hash less h.bucket_cnt new in
      let more : (w : ℕ → ℕ)
          → total w h.bucket_cnt (push_front i new h.buckets)
            ≡ w new + total w h.bucket_cnt h.buckets =
        λ w.
          total-push_front w h.bucket_cnt i new h.buckets
            (find_bucket-lt hash less h.bucket_cnt new o t.some_bucket t.range) in
      (
        record {
          some_bucket = t.some_bucket;
          range = t.range;
          counted = omega (arith, more (λ y. 1), t.counted, fits);
          placed = push_front-placed hash less h.bucket_cnt new h.buckets t.placed;
          single = λ x. elim (Bool-cases (equal hash less new x)) [
            | inl e ↦
                let le : total_of hash less (matches hash less x) h
                    ≤ total_of hash less (matches hash less new) h =
                  total-le (matches hash less x) (matches hash less new) h.bucket_cnt h.buckets
                    (alike x e) in
                let m = more (matches hash less x) in omega (arith, rw e at m, le, absent)
            | inr e ↦ let m = more (matches hash less x) in omega (arith, rw e at m, t.single x)
          ];
        },
        more,
        omega arith,
      )
    where
      alike :
          (x : ℕ)
          → equal hash less new x ≡ true
          → (y : ℕ) → matches hash less x y ≤ matches hash less new y
      alike x e y = elim (Bool-cases (equal hash less y x)) [
        | inl u ↦ let v = o.alike y x new u (equal-sym hash less new x e) in rw (u, v) (omega arith)
        | inr u ↦ rw u (omega arith)
      ]

  -- A table with one element less.
  pub removed :
      (y : ℕ) (h : Hash)
      → IsOrder hash less
      → h.elem_cnt < 2 ^ 32
      → IsTable hash less h
      → elem y (h.buckets (find_bucket hash less h.bucket_cnt y)) ≡ true
      → IsTable hash less (remove_elem y h)
        × ((w : ℕ → ℕ) → total_of hash less w (remove_elem y h) + w y ≡ total_of hash less w h)
        × ((remove_elem y h).elem_cnt + 1 ≡ h.elem_cnt)
  unfolding remove_elem
  removed y h o fits t e =
      let i = find_bucket hash less h.bucket_cnt y in
      let f = h.buckets in
      let away : (j : ℕ) → j < h.bucket_cnt → (j == i) ≡ false → erase y (f j) ≡ f j = λ j l ne.
        erase_absent y (f j) (elim (Bool-cases (elem y (f j))) [
          | inl m ↦
              let here =
                All-elem (λ z. find_bucket hash less h.bucket_cnt z ≡ j) y (f j) (t.placed j l) m in
              absurd (omega (arith, here, apart j ne))
          | inr m ↦ m
        ]) in
      let less_one : (w : ℕ → ℕ)
          → total w h.bucket_cnt (λ j. erase y (f j)) + w y ≡ total w h.bucket_cnt f =
        λ w. omega (
          arith,
          total-change w h.bucket_cnt i f (λ j. erase y (f j))
              (find_bucket-lt hash less h.bucket_cnt y o t.some_bucket t.range)
              (λ j l ne. ap (sum w) (sym (away j l ne))),
          sum-erase w y (f i) e,
        ) in
      (
        record {
          some_bucket = t.some_bucket;
          range = t.range;
          counted = omega (arith, less_one (λ z. 1), t.counted, fits);
          placed = λ j l.
              erase-All (λ z. find_bucket hash less h.bucket_cnt z ≡ j) y (f j) (t.placed j l);
          single = λ x. omega (arith, less_one (matches hash less x), t.single x);
        },
        less_one,
        omega (arith, less_one (λ z. 1), t.counted, fits),
      )
    where
      apart :
          (j : ℕ)
          → (j == find_bucket hash less h.bucket_cnt y) ≡ false
          → find_bucket hash less h.bucket_cnt y ≢ j
      apart j ne = ground (arith, ne)
