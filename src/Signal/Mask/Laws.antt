-- ===== src/Signal/Mask/Laws.antt =====
-- What the mask operations of Signal/Mask.antt do to each bit.
use tweaking_pintos.Prelude.{
  ℕ, zero, suc, ◌-◌, ◌^◌, ◌<◌, ◌≤◌, ◌≡◌, refl, ◌||◌, bit_and, bit_or, arith, ltb, leb, ◌==◌,
  if◌then◌else◌,
}
use tweaking_pintos.Prelude.Bits.{
  bit, bit-and, bit-or, bit-lt, bit-pow, bit-complement, bit_beyond, bit_ext, or-lt, and-lt,
}
use tweaking_pintos.Prelude.Words.{minus_one}
use tweaking_pintos.Signal.Mask.{
  dispose, sig_ign, sig_dfl, sigaddset, sigdelset, change_mask, sig_block, sig_unblock, sig_setmask,
}

-- Bit `j` of a mask that keeps the low `n` bits but bit `s`.
abbrev keeps : ℕ → ℕ → ℕ → ℕ
keeps n s j = if j == s then 0 else if ltb j n then 1 else 0

keep_bit : (n s j : ℕ) → 2 ^ s < 2 ^ n → bit (2 ^ n - 1 - 2 ^ s) j ≡ keeps n s j
keep_bit n s j h = ground (arith, bit-complement n (2 ^ s) j h, bit-pow s j)

set_bit : (m s j : ℕ) → bit (bit_or m (2 ^ s)) j ≡ (if j == s then 1 else bit m j)
set_bit m s j = ground (arith, bit-or j m (2 ^ s), bit-pow s j, bit-lt m j)

clear_bit :
    (m n s j : ℕ)
    → 2 ^ s < 2 ^ n
    → bit (bit_and m (2 ^ n - 1 - 2 ^ s)) j ≡ (if j == s then 0 else if ltb j n then bit m j else 0)
clear_bit m n s j h = ground (arith, bit-and j m (2 ^ n - 1 - 2 ^ s), keep_bit n s j h, bit-lt m j)

-- What signal_() makes of bit `j`.
abbrev pub disposed : (signum handler mask j : ℕ) → ℕ
disposed signum handler mask j =
    if leb 4 signum
    then bit mask j
    else if handler == sig_ign
    then (if j == signum then 1 else bit mask j)
    else if handler == sig_dfl
    then (if j == signum || leb 4 j then 0 else bit mask j)
    else bit mask j

-- For every signal number, disposition and mask, and every bit of the mask: ignoring a maskable
-- signal sets its bit and no other, restoring its default clears its bit and all bits from 4 up,
-- and any other call leaves the mask alone.
pub bit-dispose :
    (signum handler mask j : ℕ)
    → bit (dispose signum handler mask) j ≡ disposed signum handler mask j
unfolding dispose
bit-dispose signum handler mask j = ground (
  arith,
  set_bit mask 0 j,
  set_bit mask 1 j,
  set_bit mask 2 j,
  set_bit mask 3 j,
  clear_bit mask 4 0 j (omega arith),
  clear_bit mask 4 1 j (omega arith),
  clear_bit mask 4 2 j (omega arith),
  clear_bit mask 4 3 j (omega arith),
)

module _ (set j : ℕ) where
  add_member : (s : ℕ) → s ≤ 4 → sigaddset set s ≡ (0, bit_or set (2 ^ s))
  unfolding sigaddset
  add_member zero h = refl
  add_member (suc zero) h = refl
  add_member (suc (suc zero)) h = refl
  add_member (suc (suc (suc zero))) h = refl
  add_member (suc (suc (suc (suc zero)))) h = refl
  add_member (suc (suc (suc (suc (suc s))))) h = absurd (omega arith)

  delete_member : (s : ℕ) → s ≤ 4 → sigdelset set s ≡ (0, bit_and set (2 ^ 5 - 1 - 2 ^ s))
  unfolding sigdelset
  delete_member zero h = refl
  delete_member (suc zero) h = refl
  delete_member (suc (suc zero)) h = refl
  delete_member (suc (suc (suc zero))) h = refl
  delete_member (suc (suc (suc (suc zero)))) h = refl
  delete_member (suc (suc (suc (suc (suc s))))) h = absurd (omega arith)

pow-lt : (s : ℕ) → s ≤ 4 → 2 ^ s < 2 ^ 5
pow-lt zero h = omega arith
pow-lt (suc zero) h = omega arith
pow-lt (suc (suc zero)) h = omega arith
pow-lt (suc (suc (suc zero))) h = omega arith
pow-lt (suc (suc (suc (suc zero)))) h = omega arith
pow-lt (suc (suc (suc (suc (suc s))))) h = absurd (omega arith)

-- sigaddset() and sigdelset() refuse exactly the numbers, as `int` patterns, that name no signal,
-- and then leave the set alone.
pub sigset_range :
    (set s : ℕ)
    → s < 2 ^ 32
    → 4 < s
    → (sigaddset set s ≡ (minus_one, set)) × (sigdelset set s ≡ (minus_one, set))
unfolding sigaddset sigdelset
sigset_range set s h out = ground arith

-- Adding signal `s` sets bit `s` and keeps every other bit; deleting it clears bit `s`, keeps every
-- other bit below 5, and clears the rest.
pub bit-sigset :
    (set s j : ℕ)
    → s ≤ 4
    → (bit (sigaddset set s).1 j ≡ (if j == s then 1 else bit set j))
      × (bit (sigdelset set s).1 j ≡ (if j == s then 0 else if ltb j 5 then bit set j else 0))
bit-sigset set s j h =
    rw (add_member set j s h, delete_member set j s h)
      (set_bit set s j, clear_bit set 5 s j (pow-lt s h))

-- Deleting a signal just added to a set of signals without it gives the set back, and adding a
-- signal just deleted from a set that has it does too.
pub sigset_roundtrip :
    (set s : ℕ)
    → s ≤ 4
    → set < 2 ^ 5
    → (bit set s ≡ 0 → (sigdelset (sigaddset set s).1 s).1 ≡ set)
      × (bit set s ≡ 1 → (sigaddset (sigdelset set s).1 s).1 ≡ set)
sigset_roundtrip set s h small = (added, deleted)
  where
    small_add : (sigaddset set s).1 < 2 ^ 5
    small_add = rw (add_member set 0 s h) (or-lt 5 set (2 ^ s) small (pow-lt s h))

    small_delete : (w : ℕ) → w < 2 ^ 5 → (sigdelset w s).1 < 2 ^ 5
    small_delete w q = rw (delete_member w 0 s h) (and-lt 5 w (2 ^ 5 - 1 - 2 ^ s) q)

    small_back : (w : ℕ) → w < 2 ^ 5 → (sigaddset w s).1 < 2 ^ 5
    small_back w q = rw (add_member w 0 s h) (or-lt 5 w (2 ^ s) q (pow-lt s h))

    added : bit set s ≡ 0 → (sigdelset (sigaddset set s).1 s).1 ≡ set
    added absent = bit_ext 5 _ set (small_delete _ small_add) small λ j. ground (
      arith,
      bit-sigset (sigaddset set s).1 s j h,
      bit-sigset set s j h,
      bit_beyond 5 set j small,
    )

    deleted : bit set s ≡ 1 → (sigaddset (sigdelset set s).1 s).1 ≡ set
    deleted present = bit_ext 5 _ set (small_back _ (small_delete set small)) small λ j. ground (
      arith,
      bit-sigset (sigdelset set s).1 s j h,
      bit-sigset set s j h,
      bit_beyond 5 set j small,
    )

-- What sigprocmask() makes of bit `j`.
abbrev pub masked : (how set mask j : ℕ) → ℕ
masked how set mask j =
    if how == sig_block
    then (if bit set j == 1 then 1 else bit mask j)
    else if how == sig_unblock
    then (if bit set j == 1 then 0 else bit mask j)
    else if how == sig_setmask
    then bit set j
    else bit mask j

-- On 16-bit words: blocking is union, unblocking is difference, setting is replacement, bit by
-- bit, and any other `how` changes nothing; the mask stays a 16-bit word.
pub bit-change_mask :
    (how set mask j : ℕ)
    → set < 2 ^ 16
    → mask < 2 ^ 16
    → (bit (change_mask how set mask) j ≡ masked how set mask j)
      × (change_mask how set mask < 2 ^ 16)
unfolding change_mask
bit-change_mask how set mask j hs hm = ground (
  arith,
  bit-or j mask set,
  bit-and j mask (2 ^ 16 - 1 - set),
  bit-complement 16 set j hs,
  bit-lt set j,
  bit-lt mask j,
  bit_beyond 16 mask j hm,
  or-lt 16 mask set hm hs,
  and-lt 16 mask (2 ^ 16 - 1 - set) hm,
)
