-- ===== src/Memory/Words.antt =====
-- Words of 32 bits in a memory of bytes, the lowest byte first.
use tweaking_pintos.Prelude.{ℕ, ◌+◌, ◌*◌, ◌/◌, ◌%◌, ◌^◌, ◌≤◌, ◌<◌, ◌≡◌, ◌⊎◌, arith}
use tweaking_pintos.Memory.{Memory, write}

unfoldable pub read_word : Memory → (a : ℕ) → ℕ
read_word m a = m a + 256 * m (a + 1) + 65536 * m (a + 2) + 16777216 * m (a + 3)

unfoldable pub write_word : Memory → (a v : ℕ) → Memory
write_word m a v =
    write (write (write (write m a (v % 256)) (a + 1) (v / 256 % 256)) (a + 2) (v / 65536 % 256))
      (a + 3) (v / 16777216 % 256)

pub read_word-write_word : (m : Memory) (a v : ℕ) → v < 2 ^ 32 → read_word (write_word m a v) a ≡ v
unfolding read_word write_word
read_word-write_word m a v h = ground arith

-- A word written elsewhere.
pub read_word-frame :
    (m : Memory) (a b v : ℕ)
    → (a + 4 ≤ b) ⊎ (b + 4 ≤ a)
    → read_word (write_word m a v) b ≡ read_word m b
unfolding read_word write_word
read_word-frame m a b v h = ground (arith, h)

pub read_word-cong :
    (m m' : Memory) (a : ℕ)
    → ((b : ℕ) → a ≤ b → b < a + 4 → m' b ≡ m b)
    → read_word m' a ≡ read_word m a
unfolding read_word
read_word-cong m m' a same = ground (arith, same a, same (a + 1), same (a + 2), same (a + 3))
