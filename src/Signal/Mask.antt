-- ===== src/Signal/Mask.antt =====
-- Signal sets and the signal mask of a thread: signal_(), the sigset functions and sigprocmask()
-- of pintos/src/threads/signal.c. A `sigset_t` and a mask are words of 16 bits.
pub mod Laws
use tweaking_pintos.Prelude.{
  ℕ, zero, suc, ◌-◌, ◌^◌, Bool, ◌&&◌, ◌||◌, List, [], ◌∷◌, Option, none, some, bit_and, bit_or,
  ◌==◌, if◌then◌else◌, get_or,
}
use tweaking_pintos.Prelude.Words.{int_lt, minus_one}
use tweaking_pintos.Kernel.{Kernel, sig_chld, sig_cpu, sig_ublock, sig_usr}
use tweaking_pintos.Kernel.Exec.{M, pure, ◌>>=◌, ◌>>◌, get, load, store, thread_current}

-- enum sig_handler
abbrev pub sig_ign : ℕ
sig_ign = 0

abbrev pub sig_dfl : ℕ
sig_dfl = 1

-- enum how
abbrev pub sig_block : ℕ
sig_block = 0

abbrev pub sig_unblock : ℕ
sig_unblock = 1

abbrev pub sig_setmask : ℕ
sig_setmask = 2

-- The chain of tests in signal_(), on the mask.
unfoldable pub dispose : (signum handler mask : ℕ) → ℕ
dispose signum handler mask =
    if signum == 0 && handler == sig_ign
    then bit_or mask 1
    else if signum == 0 && handler == sig_dfl
    then bit_and mask 14
    else if signum == 1 && handler == sig_ign
    then bit_or mask 2
    else if signum == 1 && handler == sig_dfl
    then bit_and mask 13
    else if signum == 2 && handler == sig_ign
    then bit_or mask 4
    else if signum == 2 && handler == sig_dfl
    then bit_and mask 11
    else if signum == 3 && handler == sig_ign
    then bit_or mask 8
    else if signum == 3 && handler == sig_dfl
    then bit_and mask 7
    else mask

unfoldable pub signal_ : (signum handler : ℕ) → M ℕ
unfolding dispose
signal_ signum handler = do
  t ← thread_current
  k ← get
  store k.current (record t { sigmask = dispose signum handler t.sigmask })
  pure 0

-- The functions on sets return the result and the new `*set`.
unfoldable pub sigemptyset : ℕ → ℕ × ℕ
sigemptyset set = (0, 0)

unfoldable pub sigfillset : ℕ → ℕ × ℕ
sigfillset set = (0, 31)

unfoldable pub sigdelset : (set signum : ℕ) → ℕ × ℕ
sigdelset set signum =
    if int_lt signum 0 || int_lt 4 signum
    then (minus_one, set)
    else (0, bit_and set (get_or (30 ∷ 29 ∷ 27 ∷ 23 ∷ 15 ∷ []) signum 0))

unfoldable pub sigaddset : (set signum : ℕ) → ℕ × ℕ
sigaddset set signum =
    if int_lt signum 0 || int_lt 4 signum
    then (minus_one, set)
    else (0, bit_or set (get_or (1 ∷ 2 ∷ 4 ∷ 8 ∷ 16 ∷ []) signum 0))

-- The tests on `how`. `2 ^ 16 - 1 - set` is what `~set` leaves of 16 bits.
unfoldable pub change_mask : (how set mask : ℕ) → ℕ
change_mask how set mask =
    if how == sig_block
    then bit_or mask set
    else if how == sig_unblock
    then bit_and mask (2 ^ 16 - 1 - set)
    else if how == sig_setmask
    then set
    else mask

-- With `want` false `oldset` is NULL. The option is what is written to `*oldset`.
unfoldable pub sigprocmask : (how set : ℕ) (want : Bool) → M (ℕ × Option ℕ)
unfolding change_mask
sigprocmask how set want = do
  t ← thread_current
  k ← get
  store k.current (record t { sigmask = change_mask how set t.sigmask })
  pure (0, if want then some t.sigmask else none)
