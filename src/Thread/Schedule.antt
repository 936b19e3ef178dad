-- ===== src/Thread/Schedule.antt =====
-- The switch between threads and what the thread switched to does first: next_thread_to_run(),
-- thread_schedule_tail(), schedule(), thread_block(), thread_yield() and thread_exit() of
-- pintos/src/threads/thread.c, with the signal handlers of pintos/src/threads/signal.c.
pub mod Deliver
pub mod Switch
pub mod Invariant
pub mod Callers
pub mod Run
pub mod Last
use tweaking_pintos.Prelude.{
  ℕ, zero, suc, ◌+◌, ◌-◌, ◌%◌, ◌^◌, Bool, true, false, not, ◌&&◌, List, [], ◌∷◌, none, ◌==◌, ◌!=◌,
}
use tweaking_pintos.Kernel.{
  Status, running, ready, blocked, dying, Frame, entry, in_block, in_yield, in_exit, Thread, Kernel,
  null, update,
}
use tweaking_pintos.Kernel.Exec.{
  M, ok, pure, stop, assertion, out_of_fuel, ◌>>=◌, ◌>>◌, get, put, assert, branch, is_running,
  load, store, push_back, thread_current,
}
use tweaking_pintos.Thread.Exit.{leave}
use Deliver.{Flow, goes_on, exits, after_switch}

pick : List ℕ → M ℕ
pick [] k = ok k.idle_thread k
pick (p ∷ ps) k = ok p (record k { ready_list = ps })

unfoldable pub next_thread_to_run : M ℕ
unfolding pick
next_thread_to_run k = pick k.ready_list k

abbrev pub is_dying : Status → Bool
is_dying dying = true
is_dying _ = false

-- Frees the page of a thread that died, but not the page that the boot code ran in.
bury : (prev : ℕ) → M (Unit {0})
bury prev = do
  p ← load prev
  k ← get
  branch (is_dying p.status && prev != k.initial_thread)
      (do assert (prev != k.current); put (record k { mem = update k.mem prev none })) (pure tt)

unfoldable pub thread_schedule_tail : (prev : ℕ) → M (Unit {0})
unfolding bury
thread_schedule_tail prev = do
  k ← get
  assert (not k.intr_on)
  c ← load k.current
  store k.current (record c { status = running })
  k' ← get
  put (record k' { thread_ticks = 0 })
  branch (prev == null) (pure tt) (bury prev)

-- schedule() up to the call of thread_schedule_tail(), in the thread that gives way and resumes
-- later at `how`. The result is where the thread that runs now resumes.
unfoldable pub switch : (how : Frame) → M Frame
unfolding next_thread_to_run thread_schedule_tail
switch how = do
  next ← next_thread_to_run
  k ← get
  assert (not k.intr_on)
  c ← load k.current
  assert (not (is_running c.status))
  n ← load next
  branch (k.current == next) (do thread_schedule_tail null; pure how)
      (do
        store k.current (record c { frame = how })
        k' ← get
        put (record k' { current = next })
        thread_schedule_tail k.current
        pure n.frame)

abbrev set_level : Bool → M (Unit {0})
set_level b = do k ← get; put (record k { intr_on = b })

-- The rest of the function that had called schedule(); after thread_exit() nothing may follow.
pub return_to : Frame → M (Unit {0})
return_to in_block = pure tt
return_to (in_yield old) = set_level old
return_to in_exit = stop assertion
return_to entry = set_level true

-- A new thread starts in kernel_thread(); any other goes on in schedule().
abbrev pub is_entry : Frame → Bool
is_entry entry = true
is_entry _ = false

-- From a call of schedule() until the thread that then runs goes on with its own code. Each round
-- of fuel is one switch: a thread that is killed by a signal leaves and switches in its turn.
unfoldable pub schedule : (fuel : ℕ) (how : Frame) → M (Unit {0})
unfolding switch return_to
schedule zero how = stop out_of_fuel
schedule (suc fuel) how = do
  to ← switch how
  branch (is_entry to) (return_to to) do
    flow ← after_switch
    elim flow [ goes_on ↦ return_to to | exits ↦ do leave; schedule fuel in_exit ]

module _ (fuel : ℕ) where
  unfoldable pub thread_block : M (Unit {0})
  thread_block = do
    k ← get
    assert (not k.intr_context)
    assert (not k.intr_on)
    t ← thread_current
    store k.current (record t { status = blocked })
    schedule fuel in_block

  unfoldable pub thread_yield : M (Unit {0})
  thread_yield = do
    cur ← thread_current
    k ← get
    assert (not k.intr_context)
    l ← branch (k.current != k.idle_thread) (push_back k.current k.ready_list) (pure k.ready_list)
    put (record k { intr_on = false; ready_list = l })
    store k.current (record cur { status = ready })
    schedule fuel (in_yield k.intr_on)

  unfoldable pub thread_exit : M (Unit {0})
  thread_exit = do leave; schedule fuel in_exit
