-- ===== src/Tests/Blocks.antt =====
-- The block allocator on three kernel pages.
use tweaking_pintos.Prelude.{ℕ, ◌≡◌, refl, List, [], ◌∷◌, none, some, Option, arith, ◌⊎◌, inl, inr}
use tweaking_pintos.Prelude.Partial.{◌>>=◌}
use tweaking_pintos.Memory.{Memory}
use tweaking_pintos.Bitmap.{
  bitmap_scan_and_flip, flip_found, bitmap_scan, scan_from, bitmap_contains, contains_from,
  bitmap_test, in_range, next, bitmap_set_multiple, set_from, bitmap_set, bitmap_mark,
}
use tweaking_pintos.Memory.Words.{read_word, write_word}
use tweaking_pintos.Palloc.{
  Pools, take_pages, palloc_get_multiple, palloc_free_multiple, set_memory,
}
use tweaking_pintos.Palloc.Held.{IsSafe, start, get, held-IsSafe, IsSafe-memory}
use tweaking_pintos.Malloc.{
  Heap, memory_of, size_of, block_to_arena, arena_to_block, find_desc, find_free, push_back,
  pop_front, cut_block, carve, malloc_fresh, malloc_block, malloc,
}
use tweaking_pintos.Malloc.Free.{free_pages, free}
use tweaking_pintos.Malloc.Sizes.{table, bytes, IsBlock}
use tweaking_pintos.Malloc.Cover.{hits, count, free_cover, cover, replace, replace-All}
use tweaking_pintos.Malloc.Given.{IsSound}
use tweaking_pintos.Malloc.Init.{empty, empty-IsSound}
use tweaking_pintos.Malloc.Served.{IsServed, malloc-IsServed}
use tweaking_pintos.Malloc.Freed.{word_before, IsFreed, free-IsFreed, free-none}
use tweaking_pintos.Tests.Pages.{pools, pools-IsPools}

-- The first address, and the free lists, after a request.
abbrev seen : Option (ℕ × Heap) → Option (ℕ × List (List ℕ))
seen o = o >>= λ r. some (
  r.0,
  r.1.free_list 0
      ∷ r.1.free_list 1
      ∷ r.1.free_list 2
      ∷ r.1.free_list 3
      ∷ r.1.free_list 4
      ∷ r.1.free_list 5
      ∷ r.1.free_list 6
      ∷ [],
)

malloc_run :
    seen (malloc table 100 (empty pools))
    ≡ some (4120, [] ∷ [] ∷ [] ∷ (4248 ∷ []) ∷ (4376 ∷ []) ∷ (4632 ∷ []) ∷ (5144 ∷ []) ∷ [])
unfolding malloc find_desc find_free malloc_fresh carve cut_block arena_to_block push_back
    palloc_get_multiple take_pages bitmap_scan_and_flip flip_found bitmap_scan scan_from
    bitmap_contains contains_from bitmap_test in_range next bitmap_set_multiple set_from bitmap_set
    bitmap_mark read_word write_word
malloc_run = refl

-- Two blocks of 16 bytes, and the second one given back.
free_run :
    (do a ← malloc table 16 (empty pools); b ← malloc table 16 a.1; free table b.0 b.1) ≡ none
unfolding malloc find_desc find_free malloc_fresh malloc_block carve cut_block arena_to_block
    push_back pop_front palloc_get_multiple take_pages bitmap_scan_and_flip flip_found bitmap_scan
    scan_from bitmap_contains contains_from bitmap_test in_range next bitmap_set_multiple set_from
    bitmap_set bitmap_mark read_word write_word block_to_arena free free_pages palloc_free_multiple
free_run = refl

no_pages : IsSafe pools []
no_pages = held-IsSafe pools [] (start pools-IsPools)

malloc_example :
    (p : ℕ) × (h' : Heap) × (malloc table 100 (empty pools) ≡ some (p, h'))
    × IsServed 100 (empty pools) [] [] p h'
malloc_example =
    malloc-IsServed [] [] 100 (empty pools) (omega arith) (omega arith)
      (empty-IsSound pools [] no_pages)

-- An arena of two blocks of 1024 bytes, the first one held.
abbrev memory : Memory
memory =
    write_word (write_word (write_word (write_word (λ a. 0) 4096 2589232877) 4116 0) 5156 1024) 4132
      1024

abbrev page_out : Pools
page_out = record pools {
  kernel_pool = record { used_map = record { bit_cnt = 3; bits = 1 ∷ [] }; base = 4096 };
}

page_got : palloc_get_multiple 0 1 pools ≡ some (4096, page_out)
unfolding palloc_get_multiple take_pages bitmap_scan_and_flip flip_found bitmap_scan scan_from
    bitmap_contains contains_from bitmap_test in_range next bitmap_set_multiple set_from bitmap_set
    bitmap_mark
page_got = refl

abbrev two_blocks : Heap
two_blocks = record {
  free_list = replace 6 (5144 ∷ []) (λ i. []);
  arena_list = 4096 ∷ [];
  pools = set_memory memory page_out;
}

block : (b : ℕ) → (b ≡ 4120) ⊎ (b ≡ 5144) → IsBlock (4096 ∷ []) (b, 6)
unfolding bytes
block b (inl e) = rw e (record {
  index = omega arith;
  header = omega arith;
  aligned = refl;
  inside = omega arith;
  arena = refl;
})
block b (inr e) = rw e (record {
  index = omega arith;
  header = omega arith;
  aligned = refl;
  inside = omega arith;
  arena = refl;
})

two_blocks-IsSound : IsSound two_blocks ((4120, 6) ∷ []) ((4096, 1) ∷ [])
unfolding bytes hits count free_cover cover read_word write_word
two_blocks-IsSound = record {
  heap = record {
    headers = (record { valid = omega arith; aligned = refl; magic = refl }, tt);
    blocks =
        replace-All (λ j y. IsBlock (4096 ∷ []) (y, j)) 6 (5144 ∷ []) (λ i. []) (λ i l. tt)
          (block 5144 (inr refl), tt);
    sizes =
        replace-All (λ j y. size_of y memory ≡ bytes j) 6 (5144 ∷ []) (λ i. []) (λ i l. tt)
          (refl, tt);
    out = (block 4120 (inl refl), tt);
    single = λ a. ground arith;
  };
  pools = IsSafe-memory page_out memory ((4096, 1) ∷ []) (
      held-IsSafe page_out ((4096, 1) ∷ [])
        (get 0 1 4096 (start pools-IsPools) (omega arith) (omega arith) page_got));
  pages = (inl refl, tt);
  distinct = (refl, tt);
}

size_known : size_of 4120 (memory_of two_blocks) ≡ bytes 6
unfolding bytes read_word write_word
size_known = refl

word_known : word_before 4120 (memory_of two_blocks) ≡ 0
unfolding read_word write_word
word_known = refl

free_example :
    (h' : Heap) × (free table 4120 two_blocks ≡ some h')
    × IsFreed (4120, 6) [] ((4096, 1) ∷ []) two_blocks h'
free_example =
    free-IsFreed [] ((4096, 1) ∷ []) 4120 6 two_blocks (omega arith) two_blocks-IsSound size_known
      word_known

-- A block of 16 bytes behind the header.
abbrev small : Heap
small = record {
  free_list = λ i. [];
  arena_list = 4096 ∷ [];
  pools = set_memory (write_word (λ a. 0) 4132 16) page_out;
}

small_block : IsBlock (4096 ∷ []) (4120, 0)
unfolding bytes
small_block = record {
  index = omega arith;
  header = omega arith;
  aligned = refl;
  inside = omega arith;
  arena = refl;
}

small_size : size_of 4120 (memory_of small) ≡ 16
unfolding read_word write_word
small_size = refl

free-none_example : free table 4136 small ≡ none
free-none_example = free-none (4096 ∷ []) 4120 small small_block (omega arith) small_size
