-- ===== src/Palloc/Free.antt =====
-- What palloc_free_multiple() takes back.
use tweaking_pintos.Prelude.{
  ℕ, ◌+◌, ◌-◌, ◌*◌, ◌%◌, ◌^◌, ◌≤◌, ◌<◌, ◌≡◌, refl, Bool, true, false, not, none, some, arith,
  if◌then◌else◌, inl, inr, ◌==◌, ◌!=◌, Bool-cases,
}
use tweaking_pintos.Memory.{null, inside}
use tweaking_pintos.Bitmap.{Bitmap}
use tweaking_pintos.Bitmap.Ranges.{Wrote, bitmap_set_multiple-Wrote}
use tweaking_pintos.Bitmap.Search.{Group, bitmap_all-Group}
use tweaking_pintos.Text.Block.{fill, memset}
use tweaking_pintos.Text.Block.Laws.{fill_lem}
use tweaking_pintos.Palloc.{
  Pool, Pools, pool_of, set_map, set_memory, pgsize, pg_ofs, pg_no, page_from_pool, give_back,
  palloc_free_multiple,
}
use tweaking_pintos.Palloc.Given.{IsPool, IsPools, pool_of-IsPool, set_map-IsPools, page}

in_pool :
    (p : Pool) (i : ℕ) → IsPool p → i < p.used_map.bit_cnt → page_from_pool p (page p i) ≡ true
in_pool p i h l = ground (arith, h.aligned, h.inside)

beyond :
    (p : Pool) (a : ℕ)
    → IsPool p
    → p.base + pgsize * p.used_map.bit_cnt ≤ a
    → page_from_pool p a ≡ false
beyond p a h l = ground (arith, h.aligned, h.inside)

page_idx : (p : Pool) (i : ℕ) → IsPool p → pg_no (page p i) - pg_no p.base ≡ i
page_idx p i h = omega (arith, h.aligned)

page_aligned : (p : Pool) (i : ℕ) → IsPool p → (pg_ofs (page p i) == 0) ≡ true
page_aligned p i h = ground (arith, h.aligned)

page-ne_null : (p : Pool) (i : ℕ) → IsPool p → (page p i == null) ≡ false
page-ne_null p i h = ground (arith, h.positive)

-- The pool is found.
choose :
    (u : Bool) (i cnt : ℕ) (s : Pools)
    → IsPools s
    → 0 < cnt
    → i < (pool_of u s).used_map.bit_cnt
    → palloc_free_multiple (page (pool_of u s) i) cnt s ≡ give_back u (page (pool_of u s) i) cnt s
unfolding palloc_free_multiple
choose true i cnt s h pos l =
    let some_cnt : (cnt == 0) ≡ false = ground (arith, pos) in
    rw (
      page_aligned s.user_pool i h.user,
      page-ne_null s.user_pool i h.user,
      some_cnt,
      beyond s.kernel_pool (page s.user_pool i) h.kernel (omega (arith, h.apart)),
      in_pool s.user_pool i h.user l,
    )
choose false i cnt s h pos l =
    let some_cnt : (cnt == 0) ≡ false = ground (arith, pos) in
    rw (
      page_aligned s.kernel_pool i h.kernel,
      page-ne_null s.kernel_pool i h.kernel,
      some_cnt,
      in_pool s.kernel_pool i h.kernel l,
    )

-- The pages have gone back: exactly they are now free, and their bytes are 0xcc.
pub record IsTaken (user : Bool) (i cnt : ℕ) (s s' : Pools) : Type 0 where
  pub pools : IsPools s'
  pub free : Wrote (pool_of user s).used_map i cnt false (pool_of user s').used_map
  pub base : (pool_of user s').base ≡ (pool_of user s).base
  pub other : pool_of (not user) s' ≡ pool_of (not user) s
  pub bytes :
      (a : ℕ)
      → s'.memory a
        ≡ (if inside (page (pool_of user s) i) (pgsize * cnt) a then 204 else s.memory a)

taken :
    (u : Bool) (i cnt : ℕ) (s : Pools) (b : Bitmap)
    → IsPools s
    → Wrote (pool_of u s).used_map i cnt false b
    → IsTaken u i cnt s
        (set_memory (fill (page (pool_of u s) i) 204 (pgsize * cnt) s.memory) (set_map u b s))
taken true i cnt s b h w =
    let h' = set_map-IsPools true s b h w.wf w.size in
    record {
      pools = record { kernel = h'.kernel; user = h'.user; apart = h'.apart };
      free = w;
      base = refl;
      other = refl;
      bytes = λ a. fill_lem (pgsize * cnt) (page s.user_pool i) 204 s.memory a;
    }
taken false i cnt s b h w =
    let h' = set_map-IsPools false s b h w.wf w.size in
    record {
      pools = record { kernel = h'.kernel; user = h'.user; apart = h'.apart };
      free = w;
      base = refl;
      other = refl;
      bytes = λ a. fill_lem (pgsize * cnt) (page s.kernel_pool i) 204 s.memory a;
    }

-- For well-formed pools and at least one page of one of them: palloc_free_multiple() takes the pages
-- back if all of them are in use, into the pool that they belong to, marks exactly them as free and
-- fills them with 0xcc; if one of them is free already, it panics.
pub palloc_free_multiple-IsTaken :
    (u : Bool) (i cnt : ℕ) (s : Pools)
    → IsPools s
    → 0 < cnt
    → i + cnt ≤ (pool_of u s).used_map.bit_cnt
    → (Group (pool_of u s).used_map i cnt true
        → (s' : Pools) × (palloc_free_multiple (page (pool_of u s) i) cnt s ≡ some s')
          × IsTaken u i cnt s s')
      × (¬ Group (pool_of u s).used_map i cnt true
          → palloc_free_multiple (page (pool_of u s) i) cnt s ≡ none)
unfolding give_back memset
palloc_free_multiple-IsTaken u i cnt s h pos l =
    let pool = pool_of-IsPool u s h in
    let ((c, e, (there, back)), _) = bitmap_all-Group i cnt pool.map l in
    let (b, e', w) = bitmap_set_multiple-Wrote i cnt false pool.map l in
    let whole = choose u i cnt s h pos (omega arith) in
    let idx = page_idx (pool_of u s) i pool in
    let size : pgsize * cnt % 2 ^ 32 ≡ pgsize * cnt = omega (arith, l, pool.inside) in
    let valid : (page (pool_of u s) i == null) ≡ false = page-ne_null (pool_of u s) i pool in
    let valid' : (page (pool_of u s) i != null) ≡ true = ground (arith, valid) in
    (
      λ g. (
        set_memory (fill (page (pool_of u s) i) 204 (pgsize * cnt) s.memory) (set_map u b s),
        rw whole (rw (valid', idx, size, e) (rw (back g, e'))),
        taken u i cnt s b h w,
      ),
      λ n. rw whole (
          rw (valid', idx, size, e)
            (elim (Bool-cases c) [ inl t ↦ absurd (n (there t)) | inr f ↦ rw f ])),
    )
