-- ===== src/Hash/Maps.antt =====
-- Hash tables as finite maps: hash_insert(), hash_replace() and hash_delete() by what hash_find() finds.
use tweaking_pintos.Prelude.{
  ℕ, ◌+◌, ◌<◌, ◌≡◌, refl, sym, ap, ◌∙◌, ◌^◌, arith, Bool, true, Bool-cases, Option-cases, inl, inr,
  some,
}
use tweaking_pintos.Hash.{
  Supply, Hash, find_bucket, equal, insert_elem, remove_elem, hash_find, hash_insert, hash_replace,
  hash_delete,
}
use tweaking_pintos.Hash.Finds.{IsOrder, IsTable, total_of, value, decode, hash_find_lem}
use tweaking_pintos.Hash.Updates.{inserted}
use tweaking_pintos.Hash.Changes.{
  decode-none, nothing_alike, nothing_matches, IsMap, resized, put, take_out, finds_of, put_new,
  put_lem, taken_out,
}

module _ (hash : ℕ → ℕ) (less : ℕ → ℕ → Bool) where
  -- For a hash() below 2^32 and a less() that is irreflexive, where being equal (neither is less) is
  -- transitive and equal elements have the same hash; for a well-formed table with room in its counter; and
  -- with or without memory for new buckets, if free() of the old ones returns:
  -- hash_insert() ends and returns what hash_find() found before. If that was nothing, the new element
  -- is found from then on for everything equal to it, and all else as before; otherwise hash_find()
  -- finds what it found. The table stays well-formed, and its number of elements correct.
  pub hash_insert-IsMap :
      (new : ℕ) (supply : Supply) (h : Hash)
      → supply.freed ≡ true
      → IsOrder hash less
      → h.elem_cnt + 1 < 2 ^ 32
      → IsTable hash less h
      → (h' : Hash) × (hash_insert hash less new supply h ≡ some (hash_find hash less new h, h'))
        × IsMap hash less
            (put_new hash less (hash_find hash less new h) new (finds_of hash less h))
            h'
  unfolding hash_insert
  hash_insert-IsMap new supply h freed o fits t = elim (Option-cases (hash_find hash less new h)) [
    | inl e ↦
        let zero_new =
          decode-none hash less (total_of hash less (value hash less new) h)
            (sym (hash_find_lem hash less new h o t) ∙ e) in
        let (t1, more, lt) =
          inserted hash less new h o fits t (nothing_matches hash less new h zero_new) in
        let h1 = insert_elem (find_bucket hash less h.bucket_cnt new) new h in
        let (h', e', _, m) =
          resized hash less supply h1 (put hash less new (finds_of hash less h)) freed o lt t1 (λ x.
            put_lem hash less new x h h1 (finds_of hash less h x) o zero_new more
              (λ u. sym (hash_find_lem hash less x h o t))) in
        (h', rw (e, e') refl, rw e m)
    | inr (y, e) ↦
        let (h', e', _, m) =
          resized hash less supply h (finds_of hash less h) freed o (omega (arith, fits)) t
            (λ x. sym (hash_find_lem hash less x h o t)) in
        (h', rw (e, e') refl, rw e m)
  ]

  -- For a hash() below 2^32 and a less() that is irreflexive, where being equal (neither is less) is
  -- transitive and equal elements have the same hash; for a well-formed table with room in its counter; and
  -- with or without memory for new buckets, if free() of the old ones returns:
  -- hash_replace() ends and returns what hash_find() found before; the new element is found from then
  -- on for everything equal to it, and all else as before. The table stays well-formed.
  pub hash_replace-IsMap :
      (new : ℕ) (supply : Supply) (h : Hash)
      → supply.freed ≡ true
      → IsOrder hash less
      → h.elem_cnt + 1 < 2 ^ 32
      → IsTable hash less h
      → (h' : Hash) × (hash_replace hash less new supply h ≡ some (hash_find hash less new h, h'))
        × IsMap hash less (put hash less new (finds_of hash less h)) h'
  unfolding hash_replace remove_elem
  hash_replace-IsMap new supply h freed o fits t = elim (Option-cases (hash_find hash less new h)) [
    | inl e ↦
        let zero_new =
          decode-none hash less (total_of hash less (value hash less new) h)
            (sym (hash_find_lem hash less new h o t) ∙ e) in
        let (t1, more, lt) =
          inserted hash less new h o fits t (nothing_matches hash less new h zero_new) in
        let h1 = insert_elem (find_bucket hash less h.bucket_cnt new) new h in
        let (h', e', _, m) =
          resized hash less supply h1 (put hash less new (finds_of hash less h)) freed o lt t1 (λ x.
            put_lem hash less new x h h1 (finds_of hash less h x) o zero_new more
              (λ u. sym (hash_find_lem hash less x h o t))) in
        (h', rw (e, e') refl, m)
    | inr (y, e) ↦
        let (t1, gone, cnt, absent, others) =
          taken_out hash less new y h o (omega (arith, fits)) t e in
        let h1 = remove_elem y h in
        let (t2, more, lt) =
          inserted hash less new h1 o (omega (arith, cnt, fits)) t1
            (nothing_matches hash less new h1 absent) in
        let h2 = insert_elem (find_bucket hash less h1.bucket_cnt new) new h1 in
        let (h', e', _, m) =
          resized hash less supply h2 (put hash less new (finds_of hash less h)) freed o lt t2 (λ x.
            put_lem hash less new x h1 h2 (finds_of hash less h x) o absent more (others x)) in
        (h', rw (e, e') refl, m)
  ]

  -- For a hash() below 2^32 and a less() that is irreflexive, where being equal (neither is less) is
  -- transitive and equal elements have the same hash; for a well-formed table; and
  -- with or without memory for new buckets, if free() of the old ones returns:
  -- hash_delete() ends and returns what hash_find() found before; from then on nothing equal to the
  -- element is found, and all else as before. The table stays well-formed.
  pub hash_delete-IsMap :
      (e : ℕ) (supply : Supply) (h : Hash)
      → supply.freed ≡ true
      → IsOrder hash less
      → h.elem_cnt < 2 ^ 32
      → IsTable hash less h
      → (h' : Hash) × (hash_delete hash less e supply h ≡ some (hash_find hash less e h, h'))
        × IsMap hash less (take_out hash less e (finds_of hash less h)) h'
  unfolding hash_delete
  hash_delete-IsMap a supply h freed o fits t = elim (Option-cases (hash_find hash less a h)) [
    | inl e ↦
        let zero_a =
          decode-none hash less (total_of hash less (value hash less a) h)
            (sym (hash_find_lem hash less a h o t) ∙ e) in
        (
          h,
          rw (hash_delete, e) refl,
          record {
            table = t;
            finds = λ x. elim (Bool-cases (equal hash less a x)) [
              | inl u ↦ rw u (
                  hash_find_lem hash less x h o t
                  ∙ ap (decode hash less) (nothing_alike hash less a x h o u zero_a))
              | inr u ↦ rw u refl
            ];
          },
        )
    | inr (y, e) ↦
        let (t1, gone, cnt, absent, others) = taken_out hash less a y h o fits t e in
        let (h', e', _, m) =
          resized hash less supply (remove_elem y h) (take_out hash less a (finds_of hash less h))
            freed o (omega (arith, cnt, fits)) t1
            (λ x. elim (Bool-cases (equal hash less a x)) [
              | inl u ↦
                  rw u (
                    ap (decode hash less)
                      (nothing_alike hash less a x (remove_elem y h) o u absent))
              | inr u ↦ rw u (others x u)
            ]) in
        (h', rw (hash_delete, e) (rw e' refl), m)
  ]
