-- ===== src/Hash/Changes.antt =====
-- Changes of a hash table, by the sums over its elements and by what hash_find() finds.
use tweaking_pintos.Prelude.{
  ℕ, zero, suc, ◌+◌, ◌≤◌, ◌<◌, ◌≡◌, refl, sym, ap, ◌∙◌, subst, ◌^◌, arith, if◌then◌else◌, Bool,
  true, false, Bool-cases, inl, inr, elem, Option, none, some,
}
use tweaking_pintos.Prelude.Partial.{or_else}
use tweaking_pintos.Hash.{Supply, Hash, find_bucket, equal, remove_elem, rehash, hash_find}
use tweaking_pintos.Hash.Sums.{total-le}
use tweaking_pintos.Hash.Finds.{
  IsOrder, IsTable, total_of, matches, value, decode, equal-sym, find_bucket-cong, hash_find_lem,
  hash_find-some,
}
use tweaking_pintos.Hash.Resize.{rehash-IsResized}
use tweaking_pintos.Hash.Updates.{removed}

module _ (hash : ℕ → ℕ) (less : ℕ → ℕ → Bool) where
  value-le :
      (a x y : ℕ)
      → IsOrder hash less
      → equal hash less a x ≡ true
      → value hash less x y ≤ value hash less a y
  value-le a x y o e = elim (Bool-cases (equal hash less y x)) [
    | inl u ↦ let v = o.alike y x a u (equal-sym hash less a x e) in rw (u, v) (omega arith)
    | inr u ↦ rw u (omega arith)
  ]

  matches-le : (x y : ℕ) → matches hash less x y ≤ value hash less x y
  matches-le x y = elim (Bool-cases (equal hash less y x)) [
    | inl u ↦ rw u (omega arith)
    | inr u ↦ rw u (omega arith)
  ]

  pub decode-none : (n : ℕ) → decode hash less n ≡ none → n ≡ 0
  decode-none zero e = refl
  decode-none (suc n) e = absurd (cc e)

  decode-some : (n y : ℕ) → decode hash less n ≡ some y → n ≡ suc y
  decode-some zero y e = absurd (cc e)
  decode-some (suc n) y e = ap (λ o. suc (or_else 0 o)) e

  -- Nothing equal to `a` is nothing equal to what is equal to `a`.
  pub nothing_alike :
      (a x : ℕ) (h : Hash)
      → IsOrder hash less
      → equal hash less a x ≡ true
      → total_of hash less (value hash less a) h ≡ 0
      → total_of hash less (value hash less x) h ≡ 0
  nothing_alike a x h o e none_a = omega (
    arith,
    none_a,
    total-le (value hash less x) (value hash less a) h.bucket_cnt h.buckets
        (λ y. value-le a x y o e),
  )

  pub nothing_matches :
      (a : ℕ) (h : Hash)
      → total_of hash less (value hash less a) h ≡ 0
      → total_of hash less (matches hash less a) h ≡ 0
  nothing_matches a h none_a = omega (
    arith,
    none_a,
    total-le (matches hash less a) (value hash less a) h.bucket_cnt h.buckets (matches-le a),
  )

  -- A well-formed table in which hash_find() finds what `map` says.
  pub record IsMap (map : ℕ → Option ℕ) (h : Hash) : Type 0 where
    pub table : IsTable hash less h
    pub finds : (x : ℕ) → hash_find hash less x h ≡ map x

  -- Whatever the sums say of the table before rehash(), holds of it afterwards.
  pub resized :
      (supply : Supply) (h : Hash) (finds : ℕ → Option ℕ)
      → supply.freed ≡ true
      → IsOrder hash less
      → h.elem_cnt < 2 ^ 32
      → IsTable hash less h
      → ((x : ℕ) → decode hash less (total_of hash less (value hash less x) h) ≡ finds x)
      → (h' : Hash) × (rehash hash less supply h ≡ some h')
        × (h'.elem_cnt ≡ h.elem_cnt)
        × IsMap finds h'
  resized supply h finds freed o l t says =
      let (h', e, r) = rehash-IsResized hash less supply h freed o l t in
      (
        h',
        e,
        r.elem_cnt,
        record {
          table = r.table;
          finds = λ x.
              hash_find_lem hash less x h' o r.table
              ∙ ap (decode hash less) (r.same (value hash less x))
              ∙ says x;
        },
      )

  -- The map with `new` put in.
  abbrev pub put : (new : ℕ) → (ℕ → Option ℕ) → ℕ → Option ℕ
  put new finds x = if equal hash less new x then some new else finds x

  -- The map without what is equal to `e`.
  abbrev pub take_out : (e : ℕ) → (ℕ → Option ℕ) → ℕ → Option ℕ
  take_out e finds x = if equal hash less e x then none else finds x

  abbrev pub finds_of : Hash → ℕ → Option ℕ
  finds_of h x = hash_find hash less x h

  -- hash_insert() changes nothing when it finds an equal element.
  abbrev pub put_new : (old : Option ℕ) (new : ℕ) → (ℕ → Option ℕ) → ℕ → Option ℕ
  put_new none new finds = put new finds
  put_new (some e) new finds = finds

  -- `new` has been put into a table without an equal element, that otherwise finds what `h` finds.
  pub put_lem :
      (new x : ℕ) (h h1 : Hash) (f : Option ℕ)
      → IsOrder hash less
      → total_of hash less (value hash less new) h ≡ 0
      → ((w : ℕ → ℕ) → total_of hash less w h1 ≡ w new + total_of hash less w h)
      → (equal hash less new x ≡ false
          → decode hash less (total_of hash less (value hash less x) h) ≡ f)
      → decode hash less (total_of hash less (value hash less x) h1)
        ≡ (if equal hash less new x then some new else f)
  put_lem new x h h1 f o absent more other =
      let m = more (value hash less x) in
      elim (Bool-cases (equal hash less new x)) [
        | inl t ↦
            let one : total_of hash less (value hash less x) h1 ≡ suc new =
              omega (arith, rw t at m, nothing_alike new x h o t absent) in
            rw (t, one) refl
        | inr u ↦
            let same : total_of hash less (value hash less x) h1
                ≡ total_of hash less (value hash less x) h =
              omega (arith, rw u at m) in
            rw (u, same) (other u)
      ]

  -- The element that is found for `a` is taken off the table.
  pub taken_out :
      (a y : ℕ) (h : Hash)
      → IsOrder hash less
      → h.elem_cnt < 2 ^ 32
      → IsTable hash less h
      → hash_find hash less a h ≡ some y
      → IsTable hash less (remove_elem y h)
        × ((w : ℕ → ℕ) → total_of hash less w (remove_elem y h) + w y ≡ total_of hash less w h)
        × ((remove_elem y h).elem_cnt + 1 ≡ h.elem_cnt)
        × (total_of hash less (value hash less a) (remove_elem y h) ≡ 0)
        × ((x : ℕ)
            → equal hash less a x ≡ false
            → decode hash less (total_of hash less (value hash less x) (remove_elem y h))
              ≡ hash_find hash less x h)
  taken_out a y h o fits t e =
      let (here, alike) = hash_find-some hash less a y h e in
      let place : find_bucket hash less h.bucket_cnt a ≡ find_bucket hash less h.bucket_cnt y =
        sym (find_bucket-cong hash less h.bucket_cnt y a o alike) in
      let (t1, gone, cnt) =
        removed hash less y h o fits t (subst (λ i. elem y (h.buckets i) ≡ true) place here) in
      let whole =
        decode-some (total_of hash less (value hash less a) h) y
          (sym (hash_find_lem hash less a h o t) ∙ e) in
      let g = gone (value hash less a) in
      (
        t1,
        gone,
        cnt,
        omega (arith, rw alike at g, whole),
        λ x u. elim (Bool-cases (equal hash less y x)) [
          | inl v ↦ absurd (differ (sym u ∙ o.alike a y x (equal-sym hash less y a alike) v))
          | inr v ↦
              let g' = gone (value hash less x) in
              let same : total_of hash less (value hash less x) (remove_elem y h)
                  ≡ total_of hash less (value hash less x) h =
                omega (arith, rw v at g') in
              ap (decode hash less) same ∙ sym (hash_find_lem hash less x h o t)
        ],
      )
    where
      differ : false ≡ true → ⊥
      differ e = cc e
