-- ===== src/Malloc.antt =====
-- The block allocator: pintos/src/threads/malloc.c, a buddy system on pages of the page allocator. A
-- block is its address. A free list is the sequence of its blocks; the links in the blocks, and those
-- of the list of arenas, are kept apart from the memory. The locks of the descriptors are left out. A
-- failed ASSERT, a PANIC or an access outside the descriptors is `none`.
pub mod Free
pub mod Sizes
pub mod Cover
pub mod Sound
pub mod Carve
pub mod Split
pub mod Search
pub mod Arenas
pub mod Given
pub mod Fresh
pub mod Requests
pub mod Served
pub mod Buddies
pub mod Joined
pub mod Merge
pub mod Emptied
pub mod Freed
pub mod Init
use tweaking_pintos.Prelude.{
  ℕ, zero, suc, ◌+◌, ◌-◌, ◌*◌, ◌/◌, ◌%◌, ◌^◌, Bool, true, false, not, ◌&&◌, List, [], ◌∷◌, ◌++◌,
  Option, none, some, ltb, leb, ◌==◌, ◌!=◌, if◌then◌else◌, elem, erase, get_or, length,
}
use tweaking_pintos.Prelude.Partial.{◌>>=◌, ◌>>◌, assert}
use tweaking_pintos.Memory.{Memory, null}
use tweaking_pintos.Memory.Words.{read_word, write_word}
use tweaking_pintos.Text.Block.{memset, memcpy}
use tweaking_pintos.Palloc.{
  Pools, set_memory, pgsize, pg_ofs, palloc_get_multiple, palloc_free_multiple,
}

-- The free list of each descriptor by its index, the arenas, and the pages.
pub record Heap : Type 0 where
  pub free_list : ℕ → List ℕ
  pub arena_list : List ℕ
  pub pools : Pools

abbrev pub memory_of : Heap → Memory
memory_of h = h.pools.memory

abbrev pub set_list : (i : ℕ) → List ℕ → Heap → Heap
set_list i l h = record h { free_list = λ j. if j == i then l else h.free_list j }

abbrev pub set_bytes : Memory → Heap → Heap
set_bytes m h = record h { pools = set_memory m h.pools }

-- Where the fields of a `struct arena` and of a `struct block` stand.
abbrev pub arena_magic : ℕ
arena_magic = 2589232877

abbrev pub sizeof_arena : ℕ
sizeof_arena = 24

abbrev pub magic_of : (arena : ℕ) → Memory → ℕ
magic_of arena m = read_word m arena

abbrev pub num_pages_of : (arena : ℕ) → Memory → ℕ
num_pages_of arena m = read_word m (arena + 20)

abbrev pub size_of : (block : ℕ) → Memory → ℕ
size_of block m = read_word m (block + 12)

abbrev pub set_size : (block size : ℕ) → Heap → Heap
set_size block size h = set_bytes (write_word (memory_of h) (block + 12) size) h

abbrev pub set_arena : (arena num_pages : ℕ) → Heap → Heap
set_arena arena num_pages h =
    set_bytes (write_word (write_word (memory_of h) arena arena_magic) (arena + 20) num_pages) h

-- The block sizes of the descriptors that malloc_init() sets up; there is room for ten.
unfoldable pub init_from : (fuel block_size desc_cnt : ℕ) → Option (List ℕ)
init_from zero block_size desc_cnt = none
init_from (suc fuel) block_size desc_cnt =
    let rest = (do
      assert (leb (desc_cnt + 1) 10)
      sizes ← init_from fuel (block_size * 2) (desc_cnt + 1)
      some (block_size ∷ sizes)) in
    if ltb block_size (pgsize / 2) then rest else some []

-- `fuel` bounds the number of descriptors.
unfoldable pub malloc_init : (fuel : ℕ) → Pools → Option (List ℕ × Heap)
malloc_init fuel pools = do
  sizes ← init_from fuel 16 0
  some (sizes, record { free_list = λ i. []; arena_list = []; pools = pools })

abbrev pub pg_round_down : (va : ℕ) → ℕ
pg_round_down va = va - va % pgsize

abbrev pub check_arena : (arena : ℕ) → Heap → Option (Unit {0})
check_arena arena h = assert (arena != null && magic_of arena (memory_of h) == arena_magic)

unfoldable pub block_to_arena : (b size : ℕ) → Heap → Option ℕ
block_to_arena b size h = do
  let a = pg_round_down b
  check_arena a h
  assert (size != 0)
  assert ((pg_ofs b + 2 ^ 32 - sizeof_arena) % 2 ^ 32 % size == 0)
  some a

-- `sizes` are the block sizes of the descriptors; there are none beyond its end.
module _ (sizes : List ℕ) where
  abbrev pub block_size : (i : ℕ) → ℕ
  block_size i = get_or sizes i 0

  abbrev pub desc_cnt : ℕ
  desc_cnt = length sizes

  unfoldable pub arena_to_block : (a idx d : ℕ) → Heap → Option ℕ
  arena_to_block a idx d h = do check_arena a h; some (a + sizeof_arena + idx * block_size d)

  -- The first descriptor from `i` on, of `n` that are left, whose blocks are large enough.
  unfoldable pub find_desc : (n i size : ℕ) → ℕ
  find_desc zero i size = i
  find_desc (suc n) i size =
      let rest = find_desc n (i + 1) size in if leb size (block_size i) then i else rest

  -- The first descriptor from `i` on, of `n` that are left, with a free block.
  unfoldable pub find_free : (n i : ℕ) → Heap → ℕ
  find_free zero i h = i
  find_free (suc n) i h =
      let rest = find_free n (i + 1) h in elim (h.free_list i) [ [] ↦ rest | x ∷ xs ↦ i ]

  unfoldable pub push_back : (i block : ℕ) → Heap → Heap
  push_back i block h = set_list i (h.free_list i ++ (block ∷ [])) h

  unfoldable pub pop_front : (i : ℕ) → Heap → Option (ℕ × Heap)
  pop_front i h = elim (h.free_list i) [ [] ↦ none | x ∷ xs ↦ some (x, set_list i xs h) ]

  -- The block with this index in the arena, with its size written.
  unfoldable pub cut_block : (a idx i : ℕ) → Heap → Option (ℕ × Heap)
  cut_block a idx i h = do b ← arena_to_block a idx i h; some (b, set_size b (block_size i) h)

  unfoldable pub malloc_pages : (size : ℕ) → Heap → Option (ℕ × Heap)
  malloc_pages size h = do
    let page_cnt = ((size + sizeof_arena) % 2 ^ 32 + pgsize - 1) % 2 ^ 32 / pgsize
    got ← palloc_get_multiple 0 page_cnt h.pools
    let h1 = record h { pools = got.1 }
    some (if got.0 == null then (null, h1) else (got.0 + sizeof_arena, set_arena got.0 page_cnt h1))

  -- The loop that halves a new page, from descriptor `i` down to `d`: the last index.
  unfoldable pub carve : (i a d : ℕ) → Heap → Option (ℕ × Heap)
  carve zero a d h = some (0, h)
  carve (suc i) a d h =
      let rest = (do cut ← cut_block a 1 (suc i) h; carve i a d (push_back (suc i) cut.0 cut.1)) in
      if ltb (block_size d) (block_size (suc i)) then rest else some (suc i, h)

  unfoldable pub malloc_fresh : (d : ℕ) → Heap → Option (ℕ × Heap)
  malloc_fresh d h = do
    got ← palloc_get_multiple 0 1 h.pools
    let a = got.0
    let h1 = record h { pools = got.1 }
    if a == null then some (null, h1) else (do
      carved ← carve (desc_cnt - 1) a d (set_arena a 0 h1)
      buddy ← cut_block a 1 carved.0 carved.1
      block ← cut_block a 0 carved.0 (push_back d buddy.0 buddy.1)
      let h2 = block.1
      some (block.0, record h2 { arena_list = h2.arena_list ++ (a ∷ []) }))

  -- The index `desc_cnt - idx` that the loop on `idx` ends with, from `i` down.
  unfoldable pub lower : (i c : ℕ) → ℕ
  lower zero c = 0
  lower (suc i) c =
      let rest = lower i c in if leb (block_size (suc i)) (block_size c) then suc i else rest

  -- The loop that halves a free block. `i` is `desc_cnt - idx`, `c` is `block_count`; the latter at
  -- the end.
  unfoldable pub split : (i c a d : ℕ) → Heap → Option (ℕ × Heap)
  split zero c a d h = some (c, h)
  split (suc i) c a d h =
      let rest = (do
        popped ← pop_front c h
        let block_index = (pg_ofs popped.0 + 2 ^ 32 - sizeof_arena) % 2 ^ 32 / block_size (suc i)
        two ← cut_block a (2 * block_index + 1) i popped.1
        one ← cut_block a (2 * block_index) i two.1
        split i (c - 1) a d (push_back (c - 1) two.0 (push_back (c - 1) one.0 one.1))) in
      if ltb (block_size d) (block_size (suc i)) then rest else some (c, h)

  -- From the free list of descriptor `c`.
  unfoldable pub malloc_block : (d c : ℕ) → Heap → Option (ℕ × Heap)
  malloc_block d c h = elim (h.free_list c) [
    | [] ↦ none
    | b ∷ bs ↦ do
      a ← block_to_arena b (size_of b (memory_of h)) h
      if c == d
          then pop_front c h
          else (do done ← split (lower (desc_cnt - 1) c) c a d h; pop_front done.0 done.1)
  ]

  unfoldable pub malloc : (size : ℕ) → Heap → Option (ℕ × Heap)
  malloc size h =
      let d = find_desc desc_cnt 0 size in
      let c = find_free (desc_cnt - d) d h in
      if size == 0
      then some (null, h)
      else if d == desc_cnt
      then malloc_pages size h
      else if c == desc_cnt
      then malloc_fresh d h
      else malloc_block d c h
