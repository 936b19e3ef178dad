-- ===== src/Intq.antt =====
-- Interrupt queues: pintos/src/devices/intq.c, a ring of 64 bytes between threads and interrupt
-- handlers. A failed ASSERT is `none`. A call is followed up to where its thread sleeps; the lock,
-- which lets one thread wait at a time, is left out.
pub mod Contents
pub mod Traffic
use tweaking_pintos.Prelude.{
  ℕ, ◌+◌, ◌%◌, Bool, true, false, not, Option, none, some, ◌==◌, ◌!=◌, if◌then◌else◌,
}
use tweaking_pintos.Prelude.Partial.{◌>>=◌, ◌>>◌, assert}

abbrev pub intq_bufsize : ℕ
intq_bufsize = 64

-- `not_full` and `not_empty` are the threads that wait, by address, or 0 for NULL.
pub record Intq : Type 0 where
  pub not_full : ℕ
  pub not_empty : ℕ
  pub buf : ℕ → ℕ
  pub head : ℕ
  pub tail : ℕ

-- What the functions read of the processor: whether interrupts are off, whether an external
-- interrupt is being handled, and the running thread.
pub record Cpu : Type 0 where
  pub intr_off : Bool
  pub intr_context : Bool
  pub current : ℕ

-- The end of a call, with its result, 0 for intq_putc(), and the thread that it woke or 0; or the sleep inside it, after which the call
-- starts again with its loop.
pub data Outcome : Type 0 where
  returns : (result : ℕ) → Intq → (woken : ℕ) → Outcome
  sleeps : Intq → Outcome

-- The two conditions that threads wait for.
pub data Waiter : Type 0 where
  for_not_full for_not_empty : Waiter

unfoldable pub intq_init : Intq → Intq
intq_init q = record q { not_full = 0; not_empty = 0; head = 0; tail = 0 }

abbrev pub next : (pos : ℕ) → ℕ
next pos = (pos + 1) % intq_bufsize

unfoldable pub intq_empty : Cpu → Intq → Option Bool
intq_empty c q = do assert c.intr_off; some (q.head == q.tail)

unfoldable pub intq_full : Cpu → Intq → Option Bool
intq_full c q = do assert c.intr_off; some (next q.head == q.tail)

-- Whether the queue is in the state that excludes the condition.
unfoldable pub lacks : Cpu → Waiter → Intq → Option Bool
lacks c for_not_full q = intq_full c q
lacks c for_not_empty q = intq_empty c q

abbrev pub waiting : Waiter → Intq → ℕ
waiting for_not_full q = q.not_full
waiting for_not_empty q = q.not_empty

abbrev pub set_waiting : Waiter → ℕ → Intq → Intq
set_waiting for_not_full t q = record q { not_full = t }
set_waiting for_not_empty t q = record q { not_empty = t }

-- Up to its call of thread_block().
unfoldable pub wait : Cpu → Waiter → Intq → Option Intq
wait c waiter q = do
  assert (not c.intr_context)
  assert c.intr_off
  missing ← lacks c waiter q
  assert missing
  some (set_waiting waiter c.current q)

-- The queue, and the thread that is woken or 0.
unfoldable pub signal : Cpu → Waiter → Intq → Option (Intq × ℕ)
signal c waiter q = do
  assert c.intr_off
  missing ← lacks c waiter q
  assert (not missing)
  some (if waiting waiter q != 0 then (set_waiting waiter 0 q, waiting waiter q) else (q, 0))

-- A round of a loop that finds the condition missing.
unfoldable pub fall_asleep : Cpu → Waiter → Intq → Option Outcome
fall_asleep c waiter q = do assert (not c.intr_context); q' ← wait c waiter q; some (sleeps q')

unfoldable pub intq_getc : Cpu → Intq → Option Outcome
intq_getc c q = do
  assert c.intr_off
  empty ← intq_empty c q
  if empty then fall_asleep c for_not_empty q else (do
    done ← signal c for_not_full (record q { tail = next q.tail })
    some (returns (q.buf q.tail) done.0 done.1))

unfoldable pub intq_putc : Cpu → (byte : ℕ) → Intq → Option Outcome
intq_putc c byte q = do
  assert c.intr_off
  full ← intq_full c q
  if full then fall_asleep c for_not_full q else (do
    done ←
        signal c for_not_empty
          (record q { buf = λ i. if i == q.head then byte else q.buf i; head = next q.head })
    some (returns 0 done.0 done.1))
