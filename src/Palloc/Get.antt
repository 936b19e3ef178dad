-- ===== src/Palloc/Get.antt =====
-- What palloc_get_multiple() gives out.
use tweaking_pintos.Prelude.{
  ℕ, ◌*◌, ◌%◌, ◌^◌, ◌<◌, ◌≡◌, ◌≢◌, refl, ap, ◌∙◌, Bool, true, false, ◌&&◌, none, some, arith,
  if◌then◌else◌, ◌⊎◌, inl, inr, ◌==◌, ◌!=◌, Bool-cases,
}
use tweaking_pintos.Memory.{Memory, null, inside}
use tweaking_pintos.Bitmap.{Bitmap, bitmap_error}
use tweaking_pintos.Bitmap.Search.{HasNoGroup, IsFirst, bitmap_scan_and_flip-Flipped}
use tweaking_pintos.Bitmap.Ranges.{Wrote}
use tweaking_pintos.Text.Block.{fill, memset}
use tweaking_pintos.Text.Block.Laws.{fill_lem}
use tweaking_pintos.Palloc.{
  Pools, pool_of, set_map, set_memory, pgsize, take_pages, palloc_get_multiple, has_flag, pal_user,
  pal_zero, pal_assert,
}
use tweaking_pintos.Palloc.Given.{IsPools, pool_of-IsPool, set_map-IsPools, page, IsGiven}

set_map-same : (u : Bool) (s : Pools) → set_map u (pool_of u s).used_map s ≡ s
set_map-same true s = refl
set_map-same false s = refl

set_map-memory : (u : Bool) (s : Pools) (b : Bitmap) → (set_map u b s).memory ≡ s.memory
set_map-memory true s b = refl
set_map-memory false s b = refl

-- The memory plays no part in what is given out.
pub IsGiven-memory :
    (u : Bool) (cnt : ℕ) (s : Pools) (p : ℕ) (s' : Pools) (m : Memory)
    → IsGiven u cnt s p s'
    → IsPools s'
    → IsGiven u cnt s p (set_memory m s') × IsPools (set_memory m s')
IsGiven-memory true cnt s p s' m g h = (
  record {
    index = g.index;
    place = g.place;
    fits = g.fits;
    free = g.free;
    used = g.used;
    base = g.base;
    other = g.other;
  },
  record { kernel = h.kernel; user = h.user; apart = h.apart },
)
IsGiven-memory false cnt s p s' m g h = (
  record {
    index = g.index;
    place = g.place;
    fits = g.fits;
    free = g.free;
    used = g.used;
    base = g.base;
    other = g.other;
  },
  record { kernel = h.kernel; user = h.user; apart = h.apart },
)

-- The first group found is given out.
given :
    (u : Bool) (cnt : ℕ) (s : Pools) (r : ℕ) (b : Bitmap)
    → IsFirst (pool_of u s).used_map 0 cnt false r
    → Wrote (pool_of u s).used_map r cnt true b
    → IsGiven u cnt s (page (pool_of u s) r) (set_map u b s)
given true cnt s r b first w = record {
  index = r;
  place = refl;
  fits = first.inside;
  free = first.group;
  used = w;
  base = refl;
  other = refl;
}
given false cnt s r b first w = record {
  index = r;
  place = refl;
  fits = first.inside;
  free = first.group;
  used = w;
  base = refl;
  other = refl;
}

take_pages-IsGiven :
    (u : Bool) (cnt : ℕ) (s : Pools)
    → IsPools s
    → (HasNoGroup (pool_of u s).used_map 0 cnt false × (take_pages u cnt s ≡ some (null, s)))
      ⊎ ((p : ℕ) × (s' : Pools) × (take_pages u cnt s ≡ some (p, s'))
          × (p ≢ null)
          × IsGiven u cnt s p s'
          × IsPools s'
          × (s'.memory ≡ s.memory))
unfolding take_pages
take_pages-IsGiven u cnt s h =
    let pool = pool_of-IsPool u s h in
    let (r, b, e, flipped) = bitmap_scan_and_flip-Flipped 0 cnt false pool.map (omega arith) in
    elim flipped [
      | inl (z, full, same) ↦
          let miss : (r != bitmap_error) ≡ false = ground (arith, z) in
          inl (full, rw e (rw (miss, same) (ap (λ t. some (null, t)) (set_map-same u s))))
      | inr (first, w) ↦
          let found : (r != bitmap_error) ≡ true = ground (arith, first.inside, pool.map.fits) in
          let fit : (page (pool_of u s) r) % 2 ^ 32 ≡ page (pool_of u s) r =
            omega (arith, first.inside, pool.inside) in
          inr (
            page (pool_of u s) r,
            set_map u b s,
            rw e (rw (found, fit)),
            (λ z. omega (arith, z, pool.positive)),
            given u cnt s r b first w,
            set_map-IsPools u s b h w.wf w.size,
            set_map-memory u s b,
          )
    ]

-- For well-formed pools and a number of pages that is not 0: where the pool that the flags name has
-- no group of so many free pages, palloc_get_multiple() panics with PAL_ASSERT, and otherwise returns
-- NULL and changes nothing. Where it has one, the result is the address of such a group, whose
-- pages are now used and no others; with PAL_ZERO their bytes are 0, and no other byte has changed.
pub palloc_get_multiple-IsGiven :
    (flags cnt : ℕ) (s : Pools)
    → IsPools s
    → 0 < cnt
    → let user = has_flag flags pal_user in
      (HasNoGroup (pool_of user s).used_map 0 cnt false
        × (palloc_get_multiple flags cnt s
            ≡ (if has_flag flags pal_assert then none else some (null, s))))
      ⊎ ((p : ℕ) × (s' : Pools) × (palloc_get_multiple flags cnt s ≡ some (p, s'))
          × IsGiven user cnt s p s'
          × IsPools s'
          × ((a : ℕ)
              → s'.memory a
                ≡ (if has_flag flags pal_zero && inside p (pgsize * cnt) a then 0 else s.memory a)))
unfolding palloc_get_multiple memset
palloc_get_multiple-IsGiven flags cnt s h pos =
    let u : Bool = has_flag flags pal_user in
    let ask : (cnt == 0) ≡ false = ground (arith, pos) in
    elim (take_pages-IsGiven u cnt s h) [
      | inl (full, e) ↦ inl (full, rw ask (rw e))
      | inr (p, s', e, ne, g, h', m) ↦
          let some_p : (p != null) ≡ true = ground (arith, ne) in
          let size : pgsize * cnt % 2 ^ 32 ≡ pgsize * cnt =
            omega (arith, g.fits, (pool_of-IsPool u s h).inside) in
          elim (Bool-cases (has_flag flags pal_zero)) [
            | inr keep ↦
                inr
                  (p, s', rw ask (rw e (rw (some_p, keep))), g, h', λ a. rw keep (ap (λ f. f a) m))
            | inl zeroed ↦
                let f : Memory = fill p 0 (pgsize * cnt) s'.memory in
                let (g', h'') = IsGiven-memory u cnt s p s' f g h' in
                inr (
                  p,
                  set_memory f s',
                  rw ask (rw e (rw (some_p, zeroed, size))),
                  g',
                  h'',
                  λ a.
                      rw zeroed
                        (fill_lem (pgsize * cnt) p 0 s'.memory a ∙ ground (arith, ap (λ f. f a) m)),
                )
          ]
    ]
