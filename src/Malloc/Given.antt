-- ===== src/Malloc/Given.antt =====
-- What malloc() gives out for a request that a descriptor serves.
use tweaking_pintos.Prelude.{
  ℕ, ◌+◌, ◌-◌, ◌%◌, ◌^◌, ◌≤◌, ◌<◌, ◌≡◌, ◌≢◌, refl, sym, ap, subst, List, [], ◌∷◌, arith, ◌==◌, ◌!=◌,
  inl, inr, All, Distinct, true, false, Bool-cases, some,
}
use tweaking_pintos.Memory.{Memory, null}
use tweaking_pintos.Palloc.{pgsize}
use tweaking_pintos.Palloc.Held.{IsSafe, IsSafe-memory}
use tweaking_pintos.Malloc.{
  Heap, memory_of, set_list, size_of, pg_round_down, block_to_arena, malloc_block, split,
}
use tweaking_pintos.Malloc.Sizes.{table, bytes, bytes_range, offset, IsBlock}
use tweaking_pintos.Malloc.Cover.{
  hits, count, free_cover, cover, count-cons, free_cover-replace, free_cover-count,
}
use tweaking_pintos.Malloc.Sound.{IsArena, Sound, AllBlocks, AllSized, Sound-take}
use tweaking_pintos.Malloc.Carve.{IsHeap, Change, Change-refl, IsArena-test, Sound-IsArena}
use tweaking_pintos.Malloc.Split.{pop_front_lem, split_lem}
use tweaking_pintos.Malloc.Search.{lower_lem}
use tweaking_pintos.Malloc.Arenas.{Has}

-- The blocks are sound, and every arena is a page that the page allocator has given out.
pub record IsSound (h : Heap) (held groups : List (ℕ × ℕ)) : Type 0 where
  pub heap : IsHeap h.arena_list h held
  pub pools : IsSafe h.pools groups
  pub pages : All (λ a. Has a groups) h.arena_list
  pub distinct : Distinct h.arena_list

-- The block `b` has come out of the free blocks, and of `more` bytes.
pub record IsCut (h : Heap) (held : List (ℕ × ℕ)) (more : ℕ → ℕ) (b : ℕ × ℕ) (h' : Heap)
    : Type 0 where
  pub valid : b.0 ≢ null
  pub heap : IsHeap h'.arena_list h' (b ∷ held)
  pub kept : (a : ℕ) → cover held a ≡ 1 → memory_of h' a ≡ memory_of h a
  pub conserved :
      (a : ℕ) → free_cover 7 h'.free_list a + hits b.0 b.1 a ≡ free_cover 7 h.free_list a + more a

pub Sound-ne_null :
    (arenas : List ℕ) (f : ℕ → List ℕ) (m : Memory) (held : List (ℕ × ℕ)) (b : ℕ × ℕ)
    → Sound arenas f m (b ∷ held)
    → b.0 ≢ null
Sound-ne_null arenas f m held b s e = absurd (omega (arith, s.out.0.header, e))

-- A block with its size passes the tests of block_to_arena().
pub block_to_arena_lem :
    (arenas : List ℕ) (i x : ℕ) (h : Heap)
    → i < 7
    → All (IsArena (memory_of h)) arenas
    → IsBlock arenas (x, i)
    → size_of x (memory_of h) ≡ bytes i
    → block_to_arena x (size_of x (memory_of h)) h ≡ some (pg_round_down x)
unfolding block_to_arena
block_to_arena_lem arenas i x h l headers b size =
    let arena = Sound-IsArena arenas h.free_list (memory_of h) (x, i) headers b in
    let range = bytes_range i (omega arith) in
    let some_size : (bytes i != 0) ≡ true = ground (arith, range) in
    let wrap : (x % pgsize + 2 ^ 32 - 24) % 2 ^ 32 ≡ offset x = omega (arith, b.header) in
    let ok : (offset x % bytes i == 0) ≡ true = ground (arith, b.aligned) in
    rw (IsArena-test (memory_of h) (pg_round_down x) arena, size, some_size, wrap, ok) refl

-- So does the first free block.
front_arena :
    (arenas : List ℕ) (held : List (ℕ × ℕ)) (i x : ℕ) (xs : List ℕ) (h : Heap)
    → i < 7
    → h.free_list i ≡ (x ∷ xs)
    → IsHeap arenas h held
    → block_to_arena x (size_of x (memory_of h)) h ≡ some (pg_round_down x)
front_arena arenas held i x xs h l e s =
    let b : AllBlocks arenas i (x ∷ xs) = subst (AllBlocks arenas i) e (s.blocks i l) in
    let z : AllSized (memory_of h) i (x ∷ xs) = subst (AllSized (memory_of h) i) e (s.sizes i l) in
    block_to_arena_lem arenas i x h l s.headers b.0 z.0

-- The front of a free list is given out, when only the block that was at the front of list `c` has
-- changed before.
popped :
    (held groups : List (ℕ × ℕ)) (d c x : ℕ) (xs ys : List ℕ) (h h1 : Heap)
    → c < 7
    → d ≤ c
    → h.free_list c ≡ (x ∷ xs)
    → IsSound h held groups
    → h1.free_list d ≡ (x ∷ ys)
    → IsHeap h.arena_list h1 held
    → Change (x, c) h h1
    → ((y : ℕ) → free_cover 7 h1.free_list y ≡ free_cover 7 h.free_list y)
    → IsCut h held (λ a. 0) (x, d) (set_list d ys h1)
      × IsSound (set_list d ys h1) ((x, d) ∷ held) groups
popped held groups d c x xs ys h h1 l le e s front s1 ch cov =
    let s2 =
      Sound-take h1.arena_list h1.free_list (memory_of h1) held d x ys (omega arith) front
        (subst (λ l. IsHeap l h1 held) (sym ch.list) s1) in
    (
      record {
        valid =
            Sound-ne_null h1.arena_list (set_list d ys h1).free_list (memory_of h1) held (x, d) s2;
        heap = s2;
        kept = λ a once.
            let front_c : count c (h.free_list c) a ≡ count c (x ∷ xs) a =
              ap (λ l. count c l a) e in
            ch.kept a (
              omega (
                arith,
                once,
                s.heap.single a,
                free_cover-count 7 c h.free_list a l,
                front_c,
                count-cons c x xs a,
              ));
        conserved = λ a.
            let front_d : count d (h1.free_list d) a ≡ count d (x ∷ ys) a =
              ap (λ l. count d l a) front in
            omega (
              arith,
              cov a,
              free_cover-replace 7 d ys h1.free_list a (omega arith),
              front_d,
              count-cons d x ys a,
            );
      },
      record {
        heap = s2;
        pools =
            subst (λ p. IsSafe p groups) (sym ch.pools)
              (IsSafe-memory h.pools (memory_of h1) groups s.pools);
        pages = subst (λ l. All (λ a. Has a groups) l) (sym ch.list) s.pages;
        distinct = subst Distinct (sym ch.list) s.distinct;
      },
    )

malloc_block_same :
    (d x : ℕ) (xs : List ℕ) (h : Heap)
    → h.free_list d ≡ (x ∷ xs)
    → block_to_arena x (size_of x (memory_of h)) h ≡ some (pg_round_down x)
    → malloc_block table d d h ≡ some (x, set_list d xs h)
unfolding malloc_block
malloc_block_same d x xs h e arena =
    let same : (d == d) ≡ true = ground arith in
    rw (malloc_block, e) (rw (arena, same) (pop_front_lem d x xs h e))

malloc_block_more :
    (d c x : ℕ) (xs ys : List ℕ) (h h1 : Heap)
    → c < 7
    → (c == d) ≡ false
    → h.free_list c ≡ (x ∷ xs)
    → block_to_arena x (size_of x (memory_of h)) h ≡ some (pg_round_down x)
    → split table c c (pg_round_down x) d h ≡ some (d, h1)
    → h1.free_list d ≡ (x ∷ ys)
    → malloc_block table d c h ≡ some (x, set_list d ys h1)
unfolding malloc_block
malloc_block_more d c x xs ys h h1 l other e arena halved front =
    rw (malloc_block, e)
      (rw (arena, other, lower_lem 6 c (omega arith) (omega arith), halved)
        (pop_front_lem d x ys h1 front))

-- malloc() from a free list.
pub malloc_block_lem :
    (held groups : List (ℕ × ℕ)) (d c x : ℕ) (xs : List ℕ) (h : Heap)
    → c < 7
    → d ≤ c
    → h.free_list c ≡ (x ∷ xs)
    → ((j : ℕ) → d ≤ j → j < c → h.free_list j ≡ [])
    → IsSound h held groups
    → (h' : Heap) × (malloc_block table d c h ≡ some (x, h'))
      × IsCut h held (λ a. 0) (x, d) h'
      × IsSound h' ((x, d) ∷ held) groups
malloc_block_lem held groups d c x xs h l le e gap s =
    let arena = front_arena h.arena_list held c x xs h l e s.heap in
    elim (Bool-cases (c == d)) [
      | inl t ↦
          let same : c ≡ d = ground (arith, t) in
          let front : h.free_list d ≡ (x ∷ xs) = subst (λ j. h.free_list j ≡ (x ∷ xs)) same e in
          let (cut, sound) =
            popped held groups d c x xs xs h h l le e s front s.heap (Change-refl (x, c) h)
              (λ y. refl) in
          (
            set_list d xs h,
            subst (λ j. malloc_block table d j h ≡ some (x, set_list d xs h)) (sym same)
                (malloc_block_same d x xs h front arena),
            cut,
            sound,
          )
      | inr f ↦
          let (ys, h1, e1, front, s1, ch, cov) =
            split_lem h.arena_list held d c x xs h l le e gap s.heap in
          let (cut, sound) = popped held groups d c x xs ys h h1 l le e s front s1 ch cov in
          (set_list d ys h1, malloc_block_more d c x xs ys h h1 l f e arena e1 front, cut, sound)
    ]
