-- ===== src/Text/Block.antt =====
-- memcpy(), memmove(), memcmp(), memchr() and memset(). A failed ASSERT is `none`.
pub mod Laws
use tweaking_pintos.Prelude.{
  ℕ, zero, suc, ◌+◌, ◌-◌, ◌%◌, Bool, true, false, ◌||◌, Option, none, some, ltb, ◌==◌, ◌!=◌,
  if◌then◌else◌,
}
use tweaking_pintos.Prelude.Words.{minus_one}
use tweaking_pintos.Prelude.Partial.{◌>>=◌, ◌>>◌, assert}
use tweaking_pintos.Memory.{Memory, null, write}

-- The loop `*dst++ = *src++`.
unfoldable pub copy_up : (dst src size : ℕ) → Memory → Memory
copy_up dst src zero m = m
copy_up dst src (suc size) m = copy_up (suc dst) (suc src) size (write m dst (m src))

-- The loop `*--dst = *--src`, which starts behind the blocks at `dst` and `src`.
unfoldable pub copy_down : (dst src size : ℕ) → Memory → Memory
copy_down dst src zero m = m
copy_down dst src (suc size) m = copy_down dst src size (write m (dst + size) (m (src + size)))

abbrev pub valid : (p size : ℕ) → Option (Unit {0})
valid p size = assert (p != null || size == 0)

unfoldable pub memcpy : (dst src size : ℕ) → Memory → Option (ℕ × Memory)
unfolding copy_up
memcpy dst src size m = do valid dst size; valid src size; some (dst, copy_up dst src size m)

-- The result is the local `dst` at the end.
unfoldable pub memmove : (dst src size : ℕ) → Memory → Option (ℕ × Memory)
unfolding copy_up copy_down
memmove dst src size m = do
  valid dst size
  valid src size
  if ltb dst src
      then some (dst + size, copy_up dst src size m)
      else some (dst, copy_down dst src size m)

-- An `int` result as a 32-bit pattern.
unfoldable pub compare_blocks : (a b size : ℕ) → Memory → ℕ
compare_blocks a b zero m = 0
compare_blocks a b (suc size) m =
    if m a != m b
    then (if ltb (m b) (m a) then 1 else minus_one)
    else compare_blocks (suc a) (suc b) size m

unfoldable pub memcmp : (a b size : ℕ) → Memory → Option ℕ
unfolding compare_blocks
memcmp a b size m = do valid a size; valid b size; some (compare_blocks a b size m)

unfoldable pub find_byte : (block ch size : ℕ) → Memory → ℕ
find_byte block ch zero m = null
find_byte block ch (suc size) m = if m block == ch then block else find_byte (suc block) ch size m

unfoldable pub memchr : (block ch size : ℕ) → Memory → Option ℕ
unfolding find_byte
memchr block ch size m = do valid block size; some (find_byte block (ch % 256) size m)

unfoldable pub fill : (dst value size : ℕ) → Memory → Memory
fill dst value zero m = m
fill dst value (suc size) m = fill (suc dst) value size (write m dst (value % 256))

unfoldable pub memset : (dst value size : ℕ) → Memory → Option (ℕ × Memory)
unfolding fill
memset dst value size m = do valid dst size; some (dst, fill dst value size m)
