-- ===== src/Malloc/Free.antt =====
-- The other functions of pintos/src/threads/malloc.c: free(), calloc() and realloc().
use tweaking_pintos.Prelude.{
  ℕ, zero, suc, ◌+◌, ◌-◌, ◌*◌, ◌/◌, ◌%◌, ◌^◌, ◌||◌, List, Option, none, some, ltb, ◌==◌, ◌!=◌,
  if◌then◌else◌, elem, erase,
}
use tweaking_pintos.Prelude.Partial.{◌>>=◌, ◌>>◌, assert}
use tweaking_pintos.Memory.{null}
use tweaking_pintos.Text.Block.{memset, memcpy}
use tweaking_pintos.Palloc.{pg_ofs, palloc_free_multiple}
use tweaking_pintos.Malloc.{
  Heap, memory_of, set_list, set_bytes, sizeof_arena, num_pages_of, size_of, set_size,
  block_to_arena, block_size, desc_cnt, arena_to_block, push_back, malloc,
}

-- Give pages back to the page allocator.
unfoldable pub free_pages : (arena num_pages : ℕ) → Heap → Option Heap
free_pages arena num_pages h = do
  pools ← palloc_free_multiple arena num_pages h.pools
  some (record h { pools = pools })

module _ (sizes : List ℕ) where
  -- The first descriptor from `i` on, of `n` that are left, whose blocks are not smaller.
  unfoldable pub find_size : (n i size : ℕ) → Option ℕ
  find_size zero i size = none
  find_size (suc n) i size =
      let rest = find_size n (i + 1) size in if ltb (block_size sizes i) size then rest else some i

  -- The index of the other half.
  abbrev pub buddy_index : (arena_index : ℕ) → ℕ
  buddy_index arena_index = if arena_index % 2 == 0 then arena_index + 1 else arena_index - 1

  -- The block that a block and its buddy make, with twice the size.
  unfoldable pub join : (arena_index block buddy : ℕ) → Heap → ℕ × Heap
  join arena_index block buddy h =
      if arena_index % 2 == 0
      then (block, set_size block (size_of block (memory_of h) * 2 % 2 ^ 32) h)
      else (buddy, set_size buddy (size_of buddy (memory_of h) * 2 % 2 ^ 32) h)

  -- The loop from descriptor `i` on, of `n` that are left.
  unfoldable pub merge : (n i arena block : ℕ) → Heap → Option Heap
  merge zero i arena block h =
      free_pages arena 1 (record h { arena_list = erase arena h.arena_list })
  merge (suc n) i arena block h = do
    assert (size_of block (memory_of h) != 0)
    let arena_index = (pg_ofs block + 2 ^ 32 - sizeof_arena) % 2 ^ 32 / size_of block (memory_of h)
    buddy ← arena_to_block sizes arena (buddy_index arena_index) i h
    let joined = join arena_index block buddy (set_list i (erase buddy (h.free_list i)) h)
    let rest = merge n (i + 1) arena joined.0 joined.1
    if elem buddy (h.free_list i) then rest else some (push_back sizes i block h)

  unfoldable pub free_block : (block : ℕ) → Heap → Option Heap
  free_block block h = do
    arena ← block_to_arena block (size_of block (memory_of h)) h
    i ← find_size (desc_cnt sizes) 0 (size_of block (memory_of h))
    merge (desc_cnt sizes - i) i arena block h

  -- The word `num_pages` of a header that would stand right in front of `p`.
  unfoldable pub free : (p : ℕ) → Heap → Option Heap
  free p h = if p == null then some h else (do
    let free_arena = (p + 2 ^ 32 - sizeof_arena) % 2 ^ 32
    let num_pages = num_pages_of free_arena (memory_of h)
    if ltb 0 num_pages then free_pages free_arena num_pages h else free_block p h)

  unfoldable pub calloc : (a b : ℕ) → Heap → Option (ℕ × Heap)
  calloc a b h =
      let size = a * b % 2 ^ 32 in
      if ltb size a || ltb size b then some (null, h) else (do
        got ← malloc sizes size h
        if got.0 == null then some got else (do
          filled ← memset got.0 0 size (memory_of got.1)
          some (got.0, set_bytes filled.1 got.1)))

  unfoldable pub realloc : (old_block new_size : ℕ) → Heap → Option (ℕ × Heap)
  realloc old_block new_size h =
      if new_size == 0 then (do h' ← free old_block h; some (null, h')) else (do
        got ← malloc sizes new_size h
        if old_block == null || got.0 == null then some got else (do
          let old_size = size_of old_block (memory_of got.1)
          let min_size = if ltb new_size old_size then new_size else old_size
          copied ← memcpy got.0 old_block min_size (memory_of got.1)
          h' ← free old_block (set_bytes copied.1 got.1)
          some (got.0, h')))
