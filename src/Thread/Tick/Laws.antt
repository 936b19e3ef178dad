-- ===== src/Thread/Tick/Laws.antt =====
-- What one timer tick does to the kernel state.
use tweaking_pintos.Prelude.{
  ℕ, ◌+◌, ◌%◌, ◌^◌, ◌≡◌, refl, true, ◌||◌, ◌⊎◌, List, [], ◌∷◌, Option, none, some, arith, All, ◌≢◌,
  ◌∙◌, All-elem, false, Distinct, elem, leb, ◌==◌, if◌then◌else◌, Bool-cases, inl, inr,
}
use tweaking_pintos.Prelude.Bits.{bit, masked_test}
use tweaking_pintos.Prelude.Words.{long_le}
use tweaking_pintos.Kernel.{Thread, Kernel, update}
use tweaking_pintos.Kernel.Exec.{ok, branch, store}
use tweaking_pintos.Kernel.Facts.{
  IsThread, All-IsThread-mem, keep_live, Runs, load-Live, current-Runs,
}
use tweaking_pintos.Thread.Tick.{
  time_slice, no_limit, tick_thread, tick_all, count_tick, slice_tick, thread_tick,
}

abbrev tick_page : Option Thread → Option Thread
tick_page none = none
tick_page (some t) = some (tick_thread t)

-- Every thread on the list ticks, in turn.
abbrev ticked : List ℕ → (ℕ → Option Thread) → ℕ → Option Thread
ticked [] m = m
ticked (p ∷ ps) m = ticked ps (update m p (tick_page (m p)))

ticked-lookup :
    (l : List ℕ) (m : ℕ → Option Thread) (q : ℕ)
    → Distinct l
    → ticked l m q ≡ (if elem q l then tick_page (m q) else m q)
ticked-lookup [] m q d = refl
ticked-lookup (p ∷ ps) m q d =
    ground (arith, d, ticked-lookup ps (update m p (tick_page (m p))) q d.1)

tick_all_lem :
    (l : List ℕ) (k : Kernel)
    → All (IsThread k) l
    → tick_all l k ≡ ok tt (record k { mem = ticked l k.mem })
unfolding tick_all store
tick_all_lem [] k h = refl
tick_all_lem (p ∷ ps) k ((t, live), h) =
    rw (load-Live live, live.holds)
      (tick_all_lem ps (record k { mem = update k.mem p (some (tick_thread t)) })
        (keep_live ps k p (tick_thread t) h))

-- What a tick does to a thread: its clock goes on, and the end of its lifetime is marked if it has a
-- limit that the clock has reached (as a `long long`) and does not ignore SIG_CPU.
pub record IsTicked (t t' : Thread) : Type 0 where
  pub clock : t'.thread_total_time ≡ (t.thread_total_time + 1) % 2 ^ 64
  pub marked :
      t.thread_life_time ≢ no_limit
      → long_le t.thread_life_time t'.thread_total_time ≡ true
      → bit t.sigmask 1 ≡ 0
      → t'.is_life_over ≡ true
  pub spared :
      (t.thread_life_time ≡ no_limit)
        ⊎ ((long_le t.thread_life_time t'.thread_total_time ≡ false) ⊎ (bit t.sigmask 1 ≡ 1))
      → t'.is_life_over ≡ t.is_life_over
  pub frame :
      t' ≡ record t { thread_total_time = t'.thread_total_time; is_life_over = t'.is_life_over }

tick_thread-IsTicked : (t : Thread) → IsTicked t (tick_thread t)
unfolding tick_thread
tick_thread-IsTicked t =
    let mask = masked_test t.sigmask 1 in
    record {
      clock = refl;
      marked = λ limit reached heeds. ground (arith, limit, reached, heeds, mask);
      spared = λ why. elim why [
        | inl e ↦ ground (arith, e)
        | inr (inl e) ↦ ground (arith, e)
        | inr (inr e) ↦ ground (arith, e, mask)
      ];
      frame = refl;
    }

-- The state after a tick: every thread on `all_list` has ticked once and no other page has changed,
-- one of the two counters has gone up, and the time slice has.
pub record AfterTick (k k' : Kernel) : Type 0 where
  pub ticked :
      (q : ℕ)
      → elem q k.all_list ≡ true
      → (t t' : Thread) × (k.mem q ≡ some t) × (k'.mem q ≡ some t') × IsTicked t t'
  pub others : (q : ℕ) → elem q k.all_list ≡ false → k'.mem q ≡ k.mem q
  pub idle :
      k.current ≡ k.idle_thread
      → (k'.idle_ticks ≡ (k.idle_ticks + 1) % 2 ^ 64) × (k'.kernel_ticks ≡ k.kernel_ticks)
  pub busy :
      k.current ≢ k.idle_thread
      → (k'.idle_ticks ≡ k.idle_ticks) × (k'.kernel_ticks ≡ (k.kernel_ticks + 1) % 2 ^ 64)
  pub slice : k'.thread_ticks ≡ (k.thread_ticks + 1) % 2 ^ 32
  pub preempt : k'.yield_on_return ≡ (leb time_slice k'.thread_ticks || k.yield_on_return)
  pub frame : k' ≡ record k {
    mem = k'.mem;
    idle_ticks = k'.idle_ticks;
    kernel_ticks = k'.kernel_ticks;
    thread_ticks = k'.thread_ticks;
    yield_on_return = k'.yield_on_return;
  }

-- The state after the tick.
abbrev after_tick : Kernel → Kernel
after_tick k = record k {
  mem = ticked k.all_list k.mem;
  idle_ticks = if k.current == k.idle_thread then (k.idle_ticks + 1) % 2 ^ 64 else k.idle_ticks;
  kernel_ticks =
      if k.current == k.idle_thread then k.kernel_ticks else (k.kernel_ticks + 1) % 2 ^ 64;
  thread_ticks = (k.thread_ticks + 1) % 2 ^ 32;
  yield_on_return = leb time_slice ((k.thread_ticks + 1) % 2 ^ 32) || k.yield_on_return;
}

after_tick-AfterTick :
    (k : Kernel) → All (IsThread k) k.all_list → Distinct k.all_list → AfterTick k (after_tick k)
after_tick-AfterTick k live distinct = record {
  ticked = λ q on.
      let (t, l) = All-elem (IsThread k) q k.all_list live on in
      (
        t,
        tick_thread t,
        l.holds,
        ticked-lookup k.all_list k.mem q distinct ∙ rw (on, l.holds) refl,
        tick_thread-IsTicked t,
      );
  others = λ q off. ticked-lookup k.all_list k.mem q distinct ∙ rw off refl;
  idle = λ e. (ground (arith, e), ground (arith, e));
  busy = λ n. (ground (arith, n), ground (arith, n));
  slice = refl;
  preempt = refl;
  frame = refl;
}

-- In a timer interrupt, with live and distinct threads on `all_list` and a live RUNNING current
-- thread, thread_tick() returns. The clock of each thread on the list has gone on by one, and the end
-- of its lifetime is marked exactly if it has a limit, which its clock has reached, and does not ignore
-- SIG_CPU (a mark that was there stays); no other field or page has changed. The tick is counted as idle if
-- the idle thread runs and as the kernel's otherwise, and a yield on return is asked for if the time
-- slice is used up, or was before. Nothing else changes.
pub thread_tick_lem :
    {k : Kernel} {c : Thread}
    → Runs k c
    → All (IsThread k) k.all_list
    → Distinct k.all_list
    → k.intr_context ≡ true
    → (k' : Kernel) × (thread_tick k ≡ ok tt k') × AfterTick k k'
unfolding thread_tick slice_tick count_tick branch
thread_tick_lem {k} runs live distinct context = (
  after_tick k,
  elim (Bool-cases (k.current == k.idle_thread)) [
    | inl same ↦
        rw (current-Runs runs, same)
          (rw
            (tick_all_lem k.all_list (record k { idle_ticks = (k.idle_ticks + 1) % 2 ^ 64 })
              (All-IsThread-mem k.all_list k _ refl live))
            (ground (arith, context)))
    | inr other ↦
        rw (current-Runs runs, other)
          (rw
            (tick_all_lem k.all_list (record k { kernel_ticks = (k.kernel_ticks + 1) % 2 ^ 64 })
              (All-IsThread-mem k.all_list k _ refl live))
            (ground (arith, context)))
  ],
  after_tick-AfterTick k live distinct,
)
