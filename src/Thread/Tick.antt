-- ===== src/Thread/Tick.antt =====
-- The timer's view of threads: thread_tick() and setlifetime() of pintos/src/threads/thread.c.
pub mod Lifetime
pub mod Laws
use tweaking_pintos.Prelude.{
  ℕ, ◌+◌, ◌-◌, ◌%◌, ◌^◌, true, ◌&&◌, List, [], ◌∷◌, bit_and, leb, ◌==◌, ◌!=◌, if◌then◌else◌,
}
use tweaking_pintos.Prelude.Words.{long_le}
use tweaking_pintos.Kernel.{Thread, Kernel}
use tweaking_pintos.Kernel.Exec.{
  M, pure, ◌>>=◌, ◌>>◌, get, put, assert, branch, load, store, thread_current,
}

abbrev pub time_slice : ℕ
time_slice = 4

-- The pattern of the `long long` -1, a lifetime without end.
abbrev pub no_limit : ℕ
no_limit = 2 ^ 64 - 1

-- The body of the loop over `all_list`.
unfoldable pub tick_thread : Thread → Thread
tick_thread t =
    let total = (t.thread_total_time + 1) % 2 ^ 64 in
    let over =
      t.thread_life_time != no_limit
      && long_le t.thread_life_time total
      && bit_and t.sigmask 2 == 0 in
    record t { thread_total_time = total; is_life_over = if over then true else t.is_life_over }

unfoldable pub tick_all : List ℕ → M (Unit {0})
tick_all [] = pure tt
tick_all (p ∷ ps) = do t ← load p; store p (tick_thread t); tick_all ps

-- Statistics.
unfoldable pub count_tick : Kernel → Kernel
count_tick k =
    if k.current == k.idle_thread
    then record k { idle_ticks = (k.idle_ticks + 1) % 2 ^ 64 }
    else record k { kernel_ticks = (k.kernel_ticks + 1) % 2 ^ 64 }

-- Preemption: ++thread_ticks, and intr_yield_on_return() at the end of the time slice.
unfoldable pub slice_tick : M (Unit {0})
slice_tick = do
  k ← get
  put (record k { thread_ticks = (k.thread_ticks + 1) % 2 ^ 32 })
  k' ← get
  branch (leb time_slice k'.thread_ticks)
      (do assert k'.intr_context; put (record k' { yield_on_return = true })) (pure tt)

pub thread_tick : M (Unit {0})
unfolding tick_all count_tick slice_tick
thread_tick = do t ← thread_current; k ← get; put (count_tick k); tick_all k.all_list; slice_tick

unfoldable pub setlifetime : (lifetime : ℕ) → M (Unit {0})
setlifetime lifetime = do
  t ← thread_current
  k ← get
  store k.current (record t { thread_life_time = lifetime })
