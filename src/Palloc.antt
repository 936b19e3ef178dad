-- ===== src/Palloc.antt =====
-- The page allocator: pintos/src/threads/palloc.c, on the bitmaps and on a memory of bytes. A PANIC or
-- a failed ASSERT is `none`. A critical section between lock_acquire() and lock_release() is one step.
-- The bitmap of a pool stands in the pages below its base, and is kept apart from the memory here.
pub mod Given
pub mod Init
pub mod Get
pub mod Free
pub mod Used
pub mod Held
use tweaking_pintos.Prelude.{
  ℕ, ◌+◌, ◌-◌, ◌*◌, ◌/◌, ◌%◌, ◌^◌, Bool, true, false, ◌&&◌, ◌||◌, List, Option, none, some, ltb,
  leb, ◌==◌, ◌!=◌, if◌then◌else◌, bit_and,
}
use tweaking_pintos.Prelude.Partial.{◌>>=◌, ◌>>◌, assert}
use tweaking_pintos.Memory.{Memory, null}
use tweaking_pintos.Bitmap.{
  Bitmap, bitmap_error, bitmap_size, bitmap_buf_size, bitmap_create_in_buf, bitmap_scan_and_flip,
  bitmap_all, bitmap_set_multiple,
}
use tweaking_pintos.Text.Block.{memset}

abbrev pub pgsize : ℕ
pgsize = 4096

abbrev pub pg_ofs : (va : ℕ) → ℕ
pg_ofs va = va % pgsize

abbrev pub pg_no : (va : ℕ) → ℕ
pg_no va = va / pgsize

abbrev pub pal_assert : ℕ
pal_assert = 1

abbrev pub pal_zero : ℕ
pal_zero = 2

abbrev pub pal_user : ℕ
pal_user = 4

abbrev pub has_flag : (flags flag : ℕ) → Bool
has_flag flags flag = bit_and flags flag != 0

pub record Pool : Type 0 where
  pub used_map : Bitmap
  pub base : ℕ

-- The two pools, and the contents of the pages.
pub record Pools : Type 0 where
  pub kernel_pool : Pool
  pub user_pool : Pool
  pub memory : Memory

abbrev pub pool_of : (user : Bool) → Pools → Pool
pool_of true s = s.user_pool
pool_of false s = s.kernel_pool

abbrev pub set_map : (user : Bool) → Bitmap → Pools → Pools
set_map true b s = record s { user_pool = record (s.user_pool) { used_map = b } }
set_map false b s = record s { kernel_pool = record (s.kernel_pool) { used_map = b } }

-- `words` is what stands in the storage of the bitmap, behind its header.
unfoldable pub init_pool : (base page_cnt : ℕ) (words : List ℕ) → Option Pool
init_pool base page_cnt words = do
  let bm_pages = (bitmap_buf_size page_cnt + pgsize - 1) % 2 ^ 32 / pgsize
  assert (leb bm_pages page_cnt)
  b ← bitmap_create_in_buf (page_cnt - bm_pages) words (bm_pages * pgsize % 2 ^ 32)
  some (record { used_map = b; base = (base + bm_pages * pgsize) % 2 ^ 32 })

-- LOADER_PHYS_BASE
abbrev pub phys_base : ℕ
phys_base = 3221225472

unfoldable pub ptov : (paddr : ℕ) → Option ℕ
ptov paddr = do assert (ltb paddr phys_base); some ((paddr + phys_base) % 2 ^ 32)

-- The pages between two addresses: the quotient of a signed difference, as a `size_t`.
abbrev pub pages_between : (start end : ℕ) → ℕ
pages_between start end =
    let bytes = (end + 2 ^ 32 - start) % 2 ^ 32 in
    if ltb bytes (2 ^ 31) then bytes / pgsize else 2 ^ 32 - (2 ^ 32 - bytes) / pgsize

unfoldable pub palloc_init :
    (init_ram_pages user_page_limit : ℕ) (kernel_words user_words : List ℕ) (m : Memory)
    → Option Pools
palloc_init init_ram_pages user_page_limit kernel_words user_words m = do
  free_start ← ptov (1024 * 1024)
  free_end ← ptov (init_ram_pages * pgsize % 2 ^ 32)
  let free_pages = pages_between free_start free_end
  let half = free_pages / 2
  let user_pages = if ltb user_page_limit half then user_page_limit else half
  let kernel_pages = free_pages - user_pages
  k ← init_pool free_start kernel_pages kernel_words
  u ← init_pool ((free_start + kernel_pages * pgsize) % 2 ^ 32) user_pages user_words
  some (record { kernel_pool = k; user_pool = u; memory = m })

-- Find a group of free pages and mark it used; the result is its address, or NULL.
unfoldable pub take_pages : (user : Bool) (page_cnt : ℕ) → Pools → Option (ℕ × Pools)
take_pages user page_cnt s = do
  done ← bitmap_scan_and_flip (pool_of user s).used_map 0 page_cnt false
  some (
    if done.0 != bitmap_error then ((pool_of user s).base + pgsize * done.0) % 2 ^ 32 else null,
    set_map user done.1 s,
  )

abbrev pub set_memory : Memory → Pools → Pools
set_memory m s = record s { memory = m }

unfoldable pub palloc_get_multiple : (flags page_cnt : ℕ) → Pools → Option (ℕ × Pools)
palloc_get_multiple flags page_cnt s = if page_cnt == 0 then some (null, s) else (do
  done ← take_pages (has_flag flags pal_user) page_cnt s
  if done.0 != null
      then (if has_flag flags pal_zero
          then (do
            filled ← memset done.0 0 (pgsize * page_cnt % 2 ^ 32) done.1.memory
            some (done.0, set_memory filled.1 done.1))
          else some done)
      else if has_flag flags pal_assert
      then none
      else some (null, done.1))

unfoldable pub palloc_get_page : (flags : ℕ) → Pools → Option (ℕ × Pools)
palloc_get_page flags s = palloc_get_multiple flags 1 s

abbrev pub page_from_pool : Pool → (page : ℕ) → Bool
page_from_pool p page =
    let start_page = pg_no p.base in
    leb start_page (pg_no page) && ltb (pg_no page) ((start_page + bitmap_size p.used_map) % 2 ^ 32)

-- The part of palloc_free_multiple() behind the choice of the pool.
unfoldable pub give_back : (user : Bool) (pages page_cnt : ℕ) → Pools → Option Pools
give_back user pages page_cnt s = do
  let page_idx = pg_no pages - pg_no (pool_of user s).base
  filled ← memset pages 204 (pgsize * page_cnt % 2 ^ 32) s.memory
  used ← bitmap_all (pool_of user s).used_map page_idx page_cnt
  assert used
  b ← bitmap_set_multiple (pool_of user s).used_map page_idx page_cnt false
  some (set_memory filled.1 (set_map user b s))

unfoldable pub palloc_free_multiple : (pages page_cnt : ℕ) → Pools → Option Pools
palloc_free_multiple pages page_cnt s = do
  assert (pg_ofs pages == 0)
  if pages == null || page_cnt == 0
      then some s
      else if page_from_pool s.kernel_pool pages
      then give_back false pages page_cnt s
      else if page_from_pool s.user_pool pages
      then give_back true pages page_cnt s
      else none

unfoldable pub palloc_free_page : (page : ℕ) → Pools → Option Pools
palloc_free_page page s = palloc_free_multiple page 1 s
