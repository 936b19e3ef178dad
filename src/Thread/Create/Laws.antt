-- ===== src/Thread/Create/Laws.antt =====
-- What thread_create() makes of the kernel state.
use tweaking_pintos.Prelude.{
  ℕ, ◌+◌, ◌%◌, ◌^◌, ◌<◌, ◌≤◌, ◌≡◌, ◌≢◌, sym, true, false, List, [], ◌∷◌, ◌++◌, some, arith, elem,
  ltb, take, ◌-◌, ◌==◌, eqb_ne, eqb_refl,
}
use tweaking_pintos.Prelude.Words.{int_lt}
use tweaking_pintos.Kernel.{ready, entry, Thread, Kernel, null, update}
use tweaking_pintos.Kernel.Exec.{ok, branch, load, store, thread_current}
use tweaking_pintos.Kernel.Facts.{Runs, update-update, update_again}
use tweaking_pintos.Thread.Create.{
  pri_min, pri_max, blank, init_thread, allocate_tid, enlist, thread_unblock, create_at,
  thread_create,
}

-- The page for a new thread is not NULL and on no list.
pub record IsFresh (k : Kernel) (c : Thread) (p : ℕ) : Type 0 where
  pub ne_null : p ≢ null
  pub ne_current : p ≢ k.current
  pub off_all : elem p k.all_list ≡ false
  pub off_queue : elem p k.ready_list ≡ false
  pub off_children : elem p c.children_list ≡ false

-- The new thread, and its parent.
abbrev pub newborn : Kernel → (name : List ℕ) (priority : ℕ) → Thread
newborn k name priority = record {
  tid = k.next_tid;
  status = ready;
  name = take 15 name;
  frame = entry;
  priority = priority;
  parent_thread = k.current;
  children_list = [];
  is_parent = true;
  thread_life_time = 2 ^ 64 - 1;
  thread_total_time = 0;
  is_life_over = false;
  total_children = 0;
  alive_children = 0;
  pending_signals = [];
  sigmask = 0;
}

abbrev pub grown : Thread → ℕ → Thread
grown c p = record c {
  total_children = (c.total_children + 1) % 2 ^ 32;
  alive_children = (c.alive_children + 1) % 2 ^ 32;
  children_list = c.children_list ++ (p ∷ []);
}

-- With a running caller, a fresh page, a valid priority and a positive next tid, thread_create()
-- returns that tid: the page holds a READY thread with that tid, the first 15 characters of the name,
-- the priority, the caller as its parent, no children, is_parent set, no lifetime limit (-1), no time
-- used, no pending signals and an empty mask, at the end of the queue and of the list of all threads;
-- the caller has one more child, in its counts and at the end of its list; nothing else changes.
pub thread_create_lem :
    (p : ℕ) (name : List ℕ) (priority : ℕ) {k : Kernel} {c : Thread}
    → Runs k c
    → IsFresh k c p
    → priority ≤ pri_max
    → 0 < k.next_tid
    → thread_create (some p) name priority k
      ≡ ok k.next_tid (record k {
        mem = update (update k.mem k.current (some (grown c p))) p (some (newborn k name priority));
        all_list = k.all_list ++ (p ∷ []);
        ready_list = k.ready_list ++ (p ∷ []);
        next_tid = k.next_tid + 1;
      })
unfolding thread_create create_at init_thread allocate_tid enlist thread_unblock blank branch load
    store thread_current
thread_create_lem p name priority {k} {c} runs fresh pri tid =
    let a : (p == null) ≡ false = eqb_ne p null fresh.ne_null in
    let b : (p == k.current) ≡ false = eqb_ne _ _ fresh.ne_current in
    let b' : (k.current == p) ≡ false = eqb_ne _ _ (λ e. fresh.ne_current (sym e)) in
    let d : (k.current == null) ≡ false = eqb_ne _ _ runs.live.ne_null in
    let t : ltb 0 k.next_tid ≡ true = ground (arith, tid) in
    let lo : int_lt priority pri_min ≡ false = ground (arith, pri) in
    let hi : int_lt pri_max priority ≡ false = ground (arith, pri) in
    simp
      (
        a,
        b,
        b',
        d,
        t,
        lo,
        hi,
        eqb_refl p,
        runs.live.holds,
        runs.status,
        fresh.off_all,
        fresh.off_queue,
        fresh.off_children,
      )
      (simp (update-update, update_again))
