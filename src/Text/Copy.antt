-- ===== src/Text/Copy.antt =====
-- strlcpy() and strlcat(). The fuel is for strlen().
pub mod Laws
use tweaking_pintos.Prelude.{ℕ, ◌+◌, ◌-◌, min, Option, some, ltb, ◌==◌, ◌!=◌, ◌&&◌, if◌then◌else◌}
use tweaking_pintos.Prelude.Partial.{◌>>=◌, ◌>>◌, assert}
use tweaking_pintos.Memory.{Memory, null, write}
use tweaking_pintos.Text.Block.{memcpy}
use tweaking_pintos.Text.Scan.{strlen}

-- memcpy() of the first bytes of `src`, and a terminator behind them.
unfoldable pub copy_part : (dst src src_len room : ℕ) → Memory → Option Memory
unfolding memcpy
copy_part dst src src_len room m = do
  let copy_cnt = if ltb src_len room then src_len else room
  done ← memcpy dst src copy_cnt m
  some (write done.1 (dst + copy_cnt) 0)

unfoldable pub strlcpy : (fuel dst src size : ℕ) → Memory → Option (ℕ × Memory)
strlcpy fuel dst src size m = do
  assert (dst != null)
  assert (src != null)
  src_len ← strlen fuel src m
  m' ← if ltb 0 size then copy_part dst src src_len (size - 1) m else some m
  some (src_len, m')

unfoldable pub strlcat : (fuel dst src size : ℕ) → Memory → Option (ℕ × Memory)
strlcat fuel dst src size m = do
  assert (dst != null)
  assert (src != null)
  src_len ← strlen fuel src m
  dst_len ← strlen fuel dst m
  m' ←
      if ltb 0 size && ltb dst_len size
      then copy_part (dst + dst_len) src src_len (size - dst_len - 1) m
      else some m
  some (src_len + dst_len, m')
