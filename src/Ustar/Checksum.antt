-- ===== src/Ustar/Checksum.antt =====
-- The checksum of a tar header, as a sum without a loop variable: calculate_chksum() of ustar.c.
use tweaking_pintos.Prelude.{
  ℕ, zero, suc, ◌+◌, ◌%◌, ◌^◌, ◌<◌, ◌≡◌, ◌&&◌, arith, ltb, leb, if◌then◌else◌,
}
use tweaking_pintos.Memory.{Memory}
use tweaking_pintos.Ustar.{chksum_from, calculate_chksum}

-- The byte at `i`, or a space in the place of the bytes 148 to 155.
abbrev pub counted : (header i : ℕ) → Memory → ℕ
counted header i m = if leb 148 i && ltb i 156 then 32 else m (header + i)

-- The sum of `n` of them, from `i` on.
unfoldable pub sum_of : (n i header : ℕ) → Memory → ℕ
sum_of zero i header m = 0
sum_of (suc n) i header m = counted header i m + sum_of n (i + 1) header m

abbrev pub checksum : (header : ℕ) → Memory → ℕ
checksum header m = sum_of 512 0 header m % 2 ^ 32

chksum_from_lem :
    (n i c header : ℕ) (m : Memory)
    → c < 2 ^ 32
    → chksum_from n i c header m ≡ (c + sum_of n i header m) % 2 ^ 32
unfolding chksum_from sum_of
chksum_from_lem zero i c header m l = omega (arith, l)
chksum_from_lem (suc n) i c header m l =
    rw (chksum_from_lem n (i + 1) ((c + counted header i m) % 2 ^ 32) header m (omega arith))
      (omega arith)

whole : (n header : ℕ) (m : Memory) → chksum_from n 0 0 header m ≡ sum_of n 0 header m % 2 ^ 32
whole n header m = rw (chksum_from_lem n 0 0 header m (omega arith)) (omega arith)

pub calculate_chksum_lem : (header : ℕ) (m : Memory) → calculate_chksum header m ≡ checksum header m
unfolding calculate_chksum
calculate_chksum_lem header m = whole 512 header m
