-- ===== src/Thread/Schedule/Switch.antt =====
-- The switch itself: who runs next, and that exactly one thread runs and the queue holds only
-- ready threads.
use tweaking_pintos.Prelude.{
  ℕ, ◌≡◌, refl, ap, true, false, List, [], ◌∷◌, Option, some, none, arith, elem, Distinct, ◌==◌,
  ◌!=◌, ◌&&◌, if◌then◌else◌, eqb_ne, eqb_refl, Bool-cases, inl, inr,
}
use tweaking_pintos.Kernel.{running, ready, Frame, Thread, Kernel, null, update}
use tweaking_pintos.Kernel.Exec.{ok, pure, branch, store, is_running}
use tweaking_pintos.Kernel.Facts.{assert_off, Live, Live-mem, load-Live}
use tweaking_pintos.Thread.Schedule.{
  next_thread_to_run, pick, is_dying, bury, thread_schedule_tail, switch,
}

-- The queue holds distinct threads, all READY.
pub record QueueIsReady (k : Kernel) : Type 0 where
  pub distinct : Distinct k.ready_list
  pub ready : (p : ℕ) → elem p k.ready_list ≡ true → (t : Thread) × Live k p t × (t.status ≡ ready)

-- The state in which schedule() is called: interrupts off, the caller no longer RUNNING.
pub record IsLeaving (k : Kernel) (c : Thread) : Type 0 where
  pub quiet : k.intr_on ≡ false
  pub here : Live k k.current c
  pub stopped : is_running c.status ≡ false
  pub alone : (p : ℕ) (t : Thread) → Live k p t → is_running t.status ≡ false
  pub queue : QueueIsReady k
  pub idle : (t : Thread) × Live k k.idle_thread t × (is_dying t.status ≡ false)

-- Exactly one thread is RUNNING, the current one.
pub record OneRuns (k : Kernel) : Type 0 where
  pub runs : (t : Thread) × Live k k.current t × (t.status ≡ running)
  pub only : (p : ℕ) (t : Thread) → Live k p t → t.status ≡ running → p ≡ k.current

-- The thread that schedule() chooses.
abbrev pub chosen : List ℕ → ℕ → ℕ
chosen [] idle = idle
chosen (p ∷ ps) idle = p

abbrev pub rest : List ℕ → List ℕ
rest [] = []
rest (p ∷ ps) = ps

next_lem :
    (k : Kernel)
    → next_thread_to_run k
      ≡ ok (chosen k.ready_list k.idle_thread) (record k { ready_list = rest k.ready_list })
unfolding next_thread_to_run pick
next_lem k = go k.ready_list refl
  where
    go :
        (l : List ℕ)
        → k.ready_list ≡ l
        → pick l k ≡ ok (chosen l k.idle_thread) (record k { ready_list = rest l })
    go [] e = ap (λ (l : List ℕ). ok k.idle_thread (record k { ready_list = l })) e
    go (p ∷ ps) e = refl

-- The memory after the switch from `c` to `n`, at `next`.
abbrev pub buried : Kernel → Thread → (ℕ → Option Thread) → ℕ → Option Thread
buried k c m =
    if is_dying c.status && k.current != k.initial_thread then update m k.current none else m

abbrev pub switched : Kernel → (c n : Thread) (next : ℕ) → Frame → ℕ → Option Thread
switched k c n next how =
    if k.current == next
    then update k.mem k.current (some (record c { status = running }))
    else buried k c (
        update (update k.mem k.current (some (record c { frame = how }))) next
          (some (record n { status = running })))

abbrev pub after : Kernel → (c n : Thread) (next : ℕ) → Frame → Kernel
after k c n next how = record k {
  mem = switched k c n next how;
  current = next;
  ready_list = rest k.ready_list;
  thread_ticks = 0;
}

-- Two writes, at different addresses, and what stands where.
other_page :
    (m : ℕ → Option Thread) (p q : ℕ) (v : Option Thread) → (p == q) ≡ false → update m p v q ≡ m q
other_page m p q v e = rw e

this_page : (m : ℕ → Option Thread) (p : ℕ) (v : Option Thread) → update m p v p ≡ v
this_page m p v = rw (eqb_refl p)

bury_lem :
    (prev : ℕ) (k : Kernel) (c : Thread)
    → Live k prev c
    → (prev == k.current) ≡ false
    → bury prev k
      ≡ ok tt (record k {
        mem =
            if is_dying c.status && prev != k.initial_thread then update k.mem prev none else k.mem;
      })
unfolding bury branch
bury_lem prev k c live other =
    rw (load-Live live) (elim (Bool-cases (is_dying c.status && prev != k.initial_thread)) [
      | inl buries ↦ rw buries (ground (arith, other))
      | inr stays ↦ rw stays
    ])

tail_lem :
    (prev : ℕ) (k : Kernel) (n : Thread)
    → k.intr_on ≡ false
    → Live k k.current n
    → thread_schedule_tail prev k
      ≡ branch (prev == null) (pure tt) (bury prev) (record k {
        mem = update k.mem k.current (some (record n { status = running }));
        thread_ticks = 0;
      })
unfolding thread_schedule_tail store
tail_lem prev k n quiet live = rw (assert_off k.intr_on k quiet, load-Live live)

module _ {k : Kernel} {c : Thread} (l : IsLeaving k c) (how : Frame) where
  abbrev s0 : Kernel
  s0 = record k { ready_list = rest k.ready_list }

  pub switch_self :
      k.current ≡ chosen k.ready_list k.idle_thread
      → switch how k ≡ ok how (after k c c (chosen k.ready_list k.idle_thread) how)
  unfolding switch branch
  switch_self same = rw (
    next_lem,
    assert_off k.intr_on s0 l.quiet,
    load-Live {k = s0} (Live-mem refl l.here),
    assert_off (is_running c.status) s0 l.stopped,
    ← same,
    load-Live {k = s0} (Live-mem refl l.here),
    eqb_refl k.current,
    tail_lem null s0 c l.quiet (Live-mem refl l.here),
  )

-- The state in which thread_schedule_tail() is called, and the one in which it buries `c`.
abbrev entering : Kernel → Thread → Frame → ℕ → Kernel
entering k c how next = record k {
  mem = update k.mem k.current (some (record c { frame = how }));
  current = next;
  ready_list = rest k.ready_list;
}

abbrev entered : Kernel → (c n : Thread) → Frame → ℕ → Kernel
entered k c n how next = record k {
  mem =
      update (update k.mem k.current (some (record c { frame = how }))) next
        (some (record n { status = running }));
  current = next;
  ready_list = rest k.ready_list;
  thread_ticks = 0;
}

module _ {k : Kernel} {c n : Thread} (l : IsLeaving k c) (how : Frame) (next : ℕ)
    (live : Live k next n) where
  pub switch_other :
      next ≡ chosen k.ready_list k.idle_thread
      → (k.current == next) ≡ false
      → switch how k ≡ ok n.frame (after k c n next how)
  unfolding switch branch store
  switch_other pick other = rw (
    next_lem,
    assert_off k.intr_on (record k { ready_list = rest k.ready_list }) l.quiet,
    load-Live {k = record k { ready_list = rest k.ready_list }} (Live-mem refl l.here),
    assert_off (is_running c.status) (record k { ready_list = rest k.ready_list }) l.stopped,
    ← pick,
    load-Live {k = record k { ready_list = rest k.ready_list }} (Live-mem refl live),
    other,
    tail_lem k.current (entering k c how next) n l.quiet kept,
    eqb_ne k.current null l.here.ne_null,
    bury_lem k.current (entered k c n how next) (record c { frame = how }) left other,
  )
    where
      kept : Live (entering k c how next) next n
      kept = record { ne_null = live.ne_null; holds = rw other live.holds }

      swapped : (next == k.current) ≡ false
      swapped = ground (arith, other)

      left : Live (entered k c n how next) k.current (record c { frame = how })
      left = record { ne_null = l.here.ne_null; holds = rw (swapped, eqb_refl k.current) }
