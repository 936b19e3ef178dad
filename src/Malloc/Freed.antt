-- ===== src/Malloc/Freed.antt =====
-- free() as a whole.
use tweaking_pintos.Prelude.{
  ℕ, ◌+◌, ◌-◌, ◌%◌, ◌^◌, ◌<◌, ◌≡◌, refl, sym, ap, ◌∙◌, subst, List, ◌∷◌, ◌++◌, arith, ◌==◌, All,
  Distinct, elem, true, false, none, some, Option, ltb,
}
use tweaking_pintos.Memory.{Memory, null}
use tweaking_pintos.Palloc.{pgsize, palloc_free_multiple}
use tweaking_pintos.Palloc.Held.{IsSafe, IsSafe-memory}
use tweaking_pintos.Malloc.{Heap, memory_of, num_pages_of, size_of, pg_round_down, sizeof_arena}
use tweaking_pintos.Malloc.Free.{free_pages, find_size, merge, free_block, free}
use tweaking_pintos.Malloc.Sizes.{table, bytes, bytes_7, below_7, IsBlock}
use tweaking_pintos.Malloc.Cover.{hits, free_cover, cover}
use tweaking_pintos.Malloc.Carve.{IsHeap}
use tweaking_pintos.Malloc.Arenas.{Has}
use tweaking_pintos.Malloc.Given.{IsSound, block_to_arena_lem}
use tweaking_pintos.Malloc.Joined.{IsQuiet}
use tweaking_pintos.Malloc.Merge.{IsPlaced, IsMerged, settled, emptied, merge-IsMerged}
use tweaking_pintos.Malloc.Emptied.{free_pages-IsEmptied}

find_size-bytes : (i : ℕ) → i < 7 → find_size table 7 0 (bytes i) ≡ some i
unfolding find_size bytes
find_size-bytes =
    below_7 (λ i. find_size table 7 0 (bytes i) ≡ some i) refl refl refl refl refl refl refl

-- The word that free() takes as the number of pages.
abbrev pub word_before : (p : ℕ) → Memory → ℕ
word_before p m = num_pages_of ((p + 2 ^ 32 - sizeof_arena) % 2 ^ 32) m

-- What free() has done with the block `b`: it is in the free lists, joined with its buddies until one
-- is not free, or its whole arena has gone back to the page allocator.
pub data IsFreed (b : ℕ × ℕ) (held groups : List (ℕ × ℕ)) (h h' : Heap) : Type 0 where
  kept :
      IsSound h' held groups
      → ((a : ℕ) → cover held a ≡ 1 → memory_of h' a ≡ memory_of h a)
      → ((a : ℕ) → free_cover 7 h'.free_list a ≡ free_cover 7 h.free_list a + hits b.0 b.1 a)
      → IsPlaced b.0 b.1 h'.free_list
      → IsFreed b held groups h h'
  given_back :
      (arena : ℕ) (before behind : List (ℕ × ℕ))
      → groups ≡ (before ++ ((arena, 1) ∷ behind))
      → IsSound h' held (before ++ behind)
      → ((a : ℕ) → cover held a ≡ 1 → memory_of h' a ≡ memory_of h a)
      → ((a : ℕ)
          → free_cover 7 h'.free_list a + hits (arena + 24) 7 a
            ≡ free_cover 7 h.free_list a + hits b.0 b.1 a)
      → IsFreed b held groups h h'

-- The rest of the state after a part that leaves it alone.
quiet-IsSound :
    (held bs groups : List (ℕ × ℕ)) (h h' : Heap)
    → IsHeap h.arena_list h' bs
    → IsQuiet held h h'
    → IsSafe h.pools groups
    → All (λ a. Has a groups) h.arena_list
    → Distinct h.arena_list
    → IsSound h' bs groups
quiet-IsSound held bs groups h h' s q safe pages distinct = record {
  heap = subst (λ l. IsHeap l h' bs) (sym q.list) s;
  pools =
      subst (λ p. IsSafe p groups) (sym q.pools) (IsSafe-memory h.pools (memory_of h') groups safe);
  pages = subst (λ l. All (λ a. Has a groups) l) (sym q.list) pages;
  distinct = subst Distinct (sym q.list) distinct;
}

-- The end of free().
freed :
    (held groups : List (ℕ × ℕ)) (x i : ℕ) (h : Heap) (o : Option Heap)
    → IsSound h ((x, i) ∷ held) groups
    → IsMerged held x i (pg_round_down x) h o
    → (h' : Heap) × (o ≡ some h') × IsFreed (x, i) held groups h h'
freed held groups x i h o s r = elim r [
  | settled h' e heap q cov place ↦ (
    h',
    e,
    kept (quiet-IsSound held held groups h h' heap q s.pools s.pages s.distinct) q.kept cov place,
  )
  | emptied y h1 e heap ea q cov ↦
      let a = pg_round_down x in
      let block = heap.out.0 in
      let place : y ≡ a + 24 = omega (arith, ea, block.header, block.inside, bytes_7) in
      let sound : IsSound h1 ((y, 7) ∷ held) groups =
        quiet-IsSound held ((y, 7) ∷ held) groups h h1 heap q s.pools s.pages s.distinct in
      let member : elem a h1.arena_list ≡ true = ap (λ l. elem a l) q.list ∙ s.heap.out.0.arena in
      let (h', e', gone) =
        free_pages-IsEmptied held groups a h1 (omega arith) member
          (subst (λ y. IsSound h1 ((y, 7) ∷ held) groups) place sound) in
      (
        h',
        e ∙ e',
        given_back a gone.before gone.behind gone.group gone.sound
            (λ y once. gone.kept y once ∙ q.kept y once)
            (λ z.
              let same : free_cover 7 h'.free_list z ≡ free_cover 7 h1.free_list z =
                ap (λ f. free_cover 7 f z) gone.lists in
              let at_y : hits y 7 z ≡ hits (a + 24) 7 z = ap (λ y. hits y 7 z) place in
              omega (arith, cov z, same, at_y)),
      )
]

-- For a heap whose blocks are sound and a block that a client holds, when the block still says its
-- size and the word in front of it is 0: free() does not panic. Either a free block contains the block
-- afterwards, namely the block itself or what joining has made of it, and the buddy of that free block
-- is not free; or the joining has come to the size of the arena, and the arena's page is given back and
-- no longer counted among the groups. The free blocks gain exactly the bytes of the block (and lose those of an arena that
-- goes back), the bytes of all other held blocks are unchanged, and the heap is sound without the block.
pub free-IsFreed :
    (held groups : List (ℕ × ℕ)) (p i : ℕ) (h : Heap)
    → i < 7
    → IsSound h ((p, i) ∷ held) groups
    → size_of p (memory_of h) ≡ bytes i
    → word_before p (memory_of h) ≡ 0
    → (h' : Heap) × (free table p h ≡ some h') × IsFreed (p, i) held groups h h'
unfolding free free_block
free-IsFreed held groups p i h l s size zero_word =
    let block = s.heap.out.0 in
    let valid : (p == null) ≡ false = ground (arith, block.header) in
    let small : ltb 0 (word_before p (memory_of h)) ≡ false = ground (arith, zero_word) in
    let arena = block_to_arena_lem h.arena_list i p h l s.heap.headers block size in
    let r = merge-IsMerged held (7 - i) i (pg_round_down p) p h (omega arith) refl s.heap size in
    let (h', e, done) = freed held groups p i h (merge table (7 - i) i (pg_round_down p) p h) s r in
    (h', rw (valid, small, arena, size, find_size-bytes i l) e, done)

-- free() of the address right behind a block of 16 bytes that says its size panics, whatever stands
-- there: the size of that block is taken as the number of pages of a group.
pub free-none :
    (arenas : List ℕ) (b : ℕ) (h : Heap)
    → IsBlock arenas (b, 0)
    → b + 16 < 2 ^ 32
    → size_of b (memory_of h) ≡ 16
    → free table (b + 16) h ≡ none
unfolding free free_pages palloc_free_multiple bytes
free-none arenas b h block high size =
    let wrap : (b + 16 + 2 ^ 32 - 24) % 2 ^ 32 ≡ b - 8 = omega (arith, block.header, high) in
    let valid : (b + 16 == null) ≡ false = ground (arith, high) in
    let at_size : b - 8 + 20 ≡ b + 12 = omega (arith, block.header) in
    let other : ((b - 8) % pgsize == 0) ≡ false = ground (arith, block.header, block.aligned) in
    rw (valid, wrap) (rw (at_size, size) (rw other refl))
