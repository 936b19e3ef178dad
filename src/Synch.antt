-- ===== src/Synch.antt =====
-- Semaphores and locks: pintos/src/threads/synch.c. A thread is known by its address, the list of
-- waiters is a list of threads. What interrupts cannot divide is one step; a lock operation is the
-- steps between which another thread may run. A failed ASSERT is `none`; no lock is used inside an
-- interrupt handler.
pub mod Exclusion
pub mod Progress
use tweaking_pintos.Prelude.{
  ℕ, ◌+◌, ◌-◌, ◌%◌, ◌^◌, Bool, true, false, not, List, [], ◌∷◌, ◌++◌, Option, none, some, ltb, ◌==◌,
  if◌then◌else◌,
}
use tweaking_pintos.Prelude.Partial.{◌>>=◌, ◌>>◌, assert}

pub record Semaphore : Type 0 where
  pub value : ℕ
  pub waiters : List ℕ

abbrev pub sema_init : (value : ℕ) → Semaphore
sema_init value = record { value = value; waiters = [] }

-- One round of the loop of sema_down(): whether the thread has passed, or sleeps.
unfoldable pub sema_down : (thread : ℕ) → Semaphore → Bool × Semaphore
sema_down thread s =
    if s.value == 0
    then (false, record s { waiters = s.waiters ++ (thread ∷ []) })
    else (true, record s { value = s.value - 1 })

unfoldable pub sema_try_down : Semaphore → Bool × Semaphore
sema_try_down s = if ltb 0 s.value then (true, record s { value = s.value - 1 }) else (false, s)

-- The thread that is woken, or 0.
abbrev pub front : List ℕ → ℕ
front [] = 0
front (x ∷ xs) = x

abbrev pub rest : List ℕ → List ℕ
rest [] = []
rest (x ∷ xs) = xs

unfoldable pub sema_up : Semaphore → ℕ × Semaphore
sema_up s = (front s.waiters, record { value = (s.value + 1) % 2 ^ 32; waiters = rest s.waiters })

pub record Lock : Type 0 where
  pub holder : ℕ
  pub semaphore : Semaphore

abbrev pub lock_init : Lock
lock_init = record { holder = 0; semaphore = sema_init 1 }

abbrev pub lock_held_by_current_thread : (thread : ℕ) → Lock → Bool
lock_held_by_current_thread thread l = l.holder == thread

-- Where a thread stands: outside; asleep among the waiters; woken, in the loop of sema_down(); behind
-- sema_down() but not yet the holder; the holder; in lock_release() and no longer the holder.
pub data Point : Type 0 where
  outside asleep woken passed inside leaving : Point

-- The lock, and where each thread stands.
pub record System : Type 0 where
  pub lock : Lock
  pub point : ℕ → Point

abbrev pub go_to : (thread : ℕ) → Point → (ℕ → Point) → ℕ → Point
go_to thread p f u = if u == thread then p else f u

abbrev pub down : (thread : ℕ) → System → System
down thread y =
    let done = sema_down thread y.lock.semaphore in
    record {
      lock = record (y.lock) { semaphore = done.1 };
      point = go_to thread (if done.0 then passed else asleep) y.point;
    }

-- Wakes the thread, if there is one.
abbrev pub wake : (thread : ℕ) → (ℕ → Point) → ℕ → Point
wake thread f u = if thread == 0 then f u else go_to thread woken f u

-- The next step of a thread that stands at this point: from outside it calls lock_acquire(), as the
-- holder lock_release(). A thread that is asleep takes none.
unfoldable pub step_at : Point → (thread : ℕ) → System → Option System
step_at outside thread y = do
  assert (not (lock_held_by_current_thread thread y.lock))
  some (down thread y)
step_at asleep thread y = none
step_at woken thread y = some (down thread y)
step_at passed thread y =
    some
      (record { lock = record (y.lock) { holder = thread }; point = go_to thread inside y.point })
step_at inside thread y = do
  assert (lock_held_by_current_thread thread y.lock)
  some (record { lock = record (y.lock) { holder = 0 }; point = go_to thread leaving y.point })
step_at leaving thread y =
    let done = sema_up y.lock.semaphore in
    some (record {
      lock = record (y.lock) { semaphore = done.1 };
      point = wake done.0 (go_to thread outside y.point);
    })
