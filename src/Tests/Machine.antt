-- ===== src/Tests/Machine.antt =====
-- A kernel with four threads: main (tid 1), idle (2), shell (3), a child of main that runs, and
-- job (4), a blocked child of shell.
use tweaking_pintos.Prelude.{
  ℕ, ◌^◌, ◌-◌, true, false, List, [], ◌∷◌, Option, none, some, ◌==◌, if◌then◌else◌,
}
use tweaking_pintos.Kernel.{Status, running, ready, blocked, in_block, Thread, Kernel}

abbrev pub thread : (tid : ℕ) → Status → (parent : ℕ) → List ℕ → Thread
thread tid status parent children = record {
  tid = tid;
  status = status;
  name = [];
  frame = in_block;
  priority = 31;
  parent_thread = parent;
  children_list = children;
  is_parent = true;
  thread_life_time = 2 ^ 64 - 1;
  thread_total_time = 0;
  is_life_over = false;
  total_children = 0;
  alive_children = 0;
  pending_signals = [];
  sigmask = 0;
}

abbrev pub main_thread : Thread
main_thread = thread 1 ready 0 (20 ∷ 30 ∷ [])

abbrev pub idle_thread : Thread
idle_thread = thread 2 blocked 10 []

abbrev pub shell : Thread
shell = record (thread 3 running 10 (40 ∷ [])) { total_children = 1; alive_children = 1 }

abbrev pub job : Thread
job = thread 4 blocked 30 []

abbrev pub memory : ℕ → Option Thread
memory p =
    if p == 10
    then some main_thread
    else if p == 20
    then some idle_thread
    else if p == 30
    then some shell
    else if p == 40
    then some job
    else none

abbrev pub machine : Kernel
machine = record {
  mem = memory;
  current = 30;
  ready_list = 10 ∷ [];
  all_list = 10 ∷ 20 ∷ 30 ∷ 40 ∷ [];
  unblock_list = [];
  idle_thread = 20;
  initial_thread = 10;
  next_tid = 5;
  thread_ticks = 0;
  idle_ticks = 0;
  kernel_ticks = 0;
  yield_on_return = false;
  intr_on = false;
  intr_context = false;
  mallocs = 5;
  console = [];
  console_holder = 0;
}
