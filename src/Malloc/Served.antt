-- ===== src/Malloc/Served.antt =====
-- malloc() as a whole, whatever the size.
use tweaking_pintos.Prelude.{
  ℕ, ◌+◌, ◌-◌, ◌/◌, ◌%◌, ◌^◌, ◌≤◌, ◌<◌, ◌≡◌, refl, subst, List, [], ◌∷◌, arith, ◌==◌, inl, inr,
  false, Bool-cases, some, if◌then◌else◌, leb,
}
use tweaking_pintos.Memory.{null}
use tweaking_pintos.Memory.Words.{write_word, read_word-write_word}
use tweaking_pintos.Bitmap.Search.{HasNoGroup}
use tweaking_pintos.Palloc.{pgsize}
use tweaking_pintos.Malloc.{
  Heap, memory_of, num_pages_of, pg_round_down, malloc_fresh, malloc_pages, malloc, find_desc,
  find_free, malloc_block,
}
use tweaking_pintos.Malloc.Sizes.{table, bytes, bytes-le, bytes_6}
use tweaking_pintos.Malloc.Cover.{hits, cover}
use tweaking_pintos.Malloc.Search.{IsBestFit, find_desc_lem, IsFirstFree, find_free_lem}
use tweaking_pintos.Malloc.Arenas.{Has-more, cover_elsewhere}
use tweaking_pintos.Malloc.Given.{IsSound, IsCut, malloc_block_lem}
use tweaking_pintos.Malloc.Fresh.{with_arena}
use tweaking_pintos.Malloc.Requests.{kernel_pages, malloc_fresh_lem}

-- The pages that a request takes when no descriptor serves it, with the header.
abbrev pub page_cnt : (size : ℕ) → ℕ
page_cnt size = (size + 24 + 4095) / 4096

-- What malloc() has done with a request: no memory, a block of the best size from the free blocks,
-- one from a new page, or the space behind the header of a group of pages of its own.
pub data IsServed (size : ℕ) (h : Heap) (held groups : List (ℕ × ℕ)) (p : ℕ) (h' : Heap)
    : Type 0 where
  refused :
      p ≡ null
      → h' ≡ h
      → ((j : ℕ) → j < 7 → size ≤ bytes j → h.free_list j ≡ [])
      → HasNoGroup h.pools.kernel_pool.used_map 0 (page_cnt size) false
      → IsServed size h held groups p h'
  from_free :
      (d : ℕ)
      → IsBestFit size d
      → IsCut h held (λ a. 0) (p, d) h'
      → IsSound h' ((p, d) ∷ held) groups
      → IsServed size h held groups p h'
  from_page :
      (d a : ℕ)
      → IsBestFit size d
      → IsCut h held (hits (a + 24) 7) (p, d) h'
      → IsSound h' ((p, d) ∷ held) ((a, 1) ∷ groups)
      → IsServed size h held groups p h'
  from_pages :
      (a : ℕ)
      → 1024 < size
      → p ≡ a + 24
      → num_pages_of a (memory_of h') ≡ page_cnt size
      → ((y : ℕ) → cover held y ≡ 1 → memory_of h' y ≡ memory_of h y)
      → IsSound h' held ((a, page_cnt size) ∷ groups)
      → IsServed size h held groups p h'

-- A large request.
malloc_pages_lem :
    (held groups : List (ℕ × ℕ)) (size : ℕ) (h : Heap)
    → size + 4119 < 2 ^ 32
    → 1024 < size
    → ((j : ℕ) → j < 7 → size ≤ bytes j → h.free_list j ≡ [])
    → IsSound h held groups
    → (p : ℕ) × (h' : Heap) × (malloc_pages table size h ≡ some (p, h'))
      × IsServed size h held groups p h'
unfolding malloc_pages with_arena
malloc_pages_lem held groups size h fits large none_free s =
    let cnt : ((size + 24) % 2 ^ 32 + pgsize - 1) % 2 ^ 32 / pgsize ≡ page_cnt size =
      omega (arith, fits) in
    let pos : 0 < page_cnt size = omega arith in
    elim (kernel_pages (page_cnt size) h held groups pos s) [
      | inl (full, e) ↦ (null, h, rw (cnt, e) refl, refused refl refl none_free full)
      | inr (a, t, e, ne, news) ↦
          let new = news (page_cnt size) in
          let h' = with_arena a (page_cnt size) t h in
          (
            a + 24,
            h',
            rw (cnt, e, ne) refl,
            from_pages a large refl
                (read_word-write_word (write_word t.memory a 2589232877) (a + 20) (page_cnt size)
                  (omega (arith, fits)))
                (λ y once. new.kept y (elim (Bool-cases (pg_round_down y == a)) [
                  | inl e ↦
                      let here : pg_round_down y ≡ a = ground (arith, e) in
                      let none_here =
                        cover_elsewhere h.arena_list held y s.heap.out (rw here new.new) in
                      absurd (omega (arith, once, none_here))
                  | inr e ↦ e
                ]))
                (record {
                  heap = new.heap;
                  pools = new.safe;
                  pages = Has-more (a, page_cnt size) groups h.arena_list s.pages;
                  distinct = s.distinct;
                }),
          )
    ]

-- A request that a descriptor serves.
malloc_small_lem :
    (held groups : List (ℕ × ℕ)) (size d c : ℕ) (h : Heap)
    → 0 < size
    → d < 7
    → IsBestFit size d
    → IsFirstFree h d c
    → IsSound h held groups
    → (p : ℕ) × (h' : Heap) × ((if c == 7 then malloc_fresh table d h else malloc_block table d c h)
        ≡ some (p, h'))
      × IsServed size h held groups p h'
malloc_small_lem held groups size d c h pos l fit free s =
    let one : 1 ≡ page_cnt size =
      omega (arith, pos, fit.enough l, bytes-le d 6 (omega arith) (omega arith), bytes_6) in
    elim (Bool-cases (c == 7)) [
      | inl t ↦
          let last : c ≡ 7 = ground (arith, t) in
          elim (malloc_fresh_lem held groups d h l s) [
            | inl (full, e) ↦ (
              null,
              h,
              rw (t, e) refl,
              refused refl refl (none_free last)
                  (subst (λ n. HasNoGroup h.pools.kernel_pool.used_map 0 n false) one full),
            )
            | inr (a, h', e, cut, sound) ↦ (a + 24, h', rw (t, e) refl, from_page d a fit cut sound)
          ]
      | inr f ↦
          let below : c < 7 = ground (arith, f, free.range) in
          let (x, xs, front) = free.block below in
          let (h', e, cut, sound) =
            malloc_block_lem held groups d c x xs h below free.low front free.gap s in
          (x, h', rw (f, e) refl, from_free d fit cut sound)
    ]
  where
    none_free : c ≡ 7 → (j : ℕ) → j < 7 → size ≤ bytes j → h.free_list j ≡ []
    none_free last j lt enough = elim (Bool-cases (leb d j)) [
      | inl u ↦ free.gap j (ground (arith, u)) (omega (arith, last))
      | inr u ↦ absurd (omega (arith, fit.least j (ground (arith, u)), enough))
    ]

-- For a heap whose blocks are sound, and a size from 1 on that leaves room for the header in 32 bits:
-- malloc() does not panic. It returns NULL only if no free block is large enough and the kernel pool
-- has not the pages, and then the heap is as before. Otherwise it returns a block of the smallest
-- sufficient size, taken out of the free blocks or out of those and a new page, or for a size above
-- 1024 the space behind the header of pages of its own that hold the number of pages and have room for
-- the size. The block has no byte in common with another block, the free blocks have lost exactly its
-- bytes (and gained those of the new page), the bytes of all blocks that clients hold are unchanged,
-- and the heap is sound with the block held.
pub malloc-IsServed :
    (held groups : List (ℕ × ℕ)) (size : ℕ) (h : Heap)
    → 0 < size
    → size + 4119 < 2 ^ 32
    → IsSound h held groups
    → (p : ℕ) × (h' : Heap) × (malloc table size h ≡ some (p, h'))
      × IsServed size h held groups p h'
unfolding malloc
malloc-IsServed held groups size h pos fits s =
    let fit = find_desc_lem size in
    let d = find_desc table 7 0 size in
    let some_size : (size == 0) ≡ false = ground (arith, pos) in
    elim (Bool-cases (d == 7)) [
      | inl t ↦
          let last : d ≡ 7 = ground (arith, t) in
          let (p, h', e, r) =
            malloc_pages_lem held groups size h fits
              (omega (arith, last, fit.least 6 (omega (arith, last)), bytes_6))
              (λ j lt enough. absurd (omega (arith, fit.least j (omega (arith, last)), enough)))
              s in
          (p, h', rw (some_size, t) e, r)
      | inr f ↦
          let l : d < 7 = ground (arith, f, fit.range) in
          let (p, h', e, r) =
            malloc_small_lem held groups size d (find_free table (7 - d) d h) h pos l fit
              (find_free_lem (7 - d) d d h (omega (arith, fit.range)) (omega arith)
                (λ j u v. absurd (omega arith)))
              s in
          (p, h', rw (some_size, f) e, r)
    ]
