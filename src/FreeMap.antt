-- ===== src/FreeMap.antt =====
-- The free map of the file system: pintos/src/filesys/free-map.c, on the bitmaps. Whether a write of
-- the bitmap to its file succeeds is an argument. A PANIC or a failed ASSERT is `none`.
pub mod Sectors
pub mod Release
use tweaking_pintos.Prelude.{
  ℕ, Bool, true, false, not, ◌&&◌, List, Option, none, some, ◌!=◌, if◌then◌else◌,
}
use tweaking_pintos.Prelude.Partial.{◌>>=◌, ◌>>◌, assert}
use tweaking_pintos.Bitmap.{
  Bitmap, bitmap_error, bitmap_create, bitmap_mark, bitmap_scan_and_flip, bitmap_set_multiple,
  bitmap_all,
}

abbrev pub free_map_sector : ℕ
free_map_sector = 0

abbrev pub root_dir_sector : ℕ
root_dir_sector = 1

-- The bitmap, and whether `free_map_file` is not NULL.
pub record FreeMap : Type 0 where
  pub free_map : Bitmap
  pub free_map_file : Bool

-- `header` and `block` are what malloc() returns for the bitmap of a device of `size` sectors.
unfoldable pub free_map_init :
    (size : ℕ) (header : Bool) (block : Option (List ℕ)) → (free_map_file : Bool) → Option FreeMap
free_map_init size header block free_map_file = do
  created ← bitmap_create size header block
  b ← created
  b' ← bitmap_mark b free_map_sector
  b'' ← bitmap_mark b' root_dir_sector
  some (record { free_map = b''; free_map_file = free_map_file })

-- The first sector found, or BITMAP_ERROR, and the bitmap.
unfoldable pub keep_or_undo : (written : Bool) (sector cnt : ℕ) → FreeMap → Option (ℕ × FreeMap)
keep_or_undo written sector cnt s =
    if sector != bitmap_error && s.free_map_file && not written
    then (do
      b ← bitmap_set_multiple s.free_map sector cnt false
      some (bitmap_error, record s { free_map = b }))
    else some (sector, s)

-- The sector stored in `*sectorp`, if the result is true.
unfoldable pub free_map_allocate :
    (written : Bool) (cnt : ℕ) → FreeMap → Option (Option ℕ × FreeMap)
free_map_allocate written cnt s = do
  found ← bitmap_scan_and_flip s.free_map 0 cnt false
  done ← keep_or_undo written found.0 cnt (record s { free_map = found.1 })
  some (if done.0 != bitmap_error then some done.0 else none, done.1)

-- The result of the write is not looked at, but the file must not be NULL: bitmap_write() follows it.
unfoldable pub free_map_release : (sector cnt : ℕ) → FreeMap → Option FreeMap
free_map_release sector cnt s = do
  all ← bitmap_all s.free_map sector cnt
  assert all
  b ← bitmap_set_multiple s.free_map sector cnt false
  assert s.free_map_file
  some (record s { free_map = b })
