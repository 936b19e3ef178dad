-- ===== src/Kernel.antt =====
-- The kernel state that pintos/src/threads/thread.c and signal.c share, and commands over it.
--
-- A pointer to a `struct thread` is the address of its page, a number; 0 is NULL. `mem` says which
-- pages hold a live `struct thread`. The intrusive lists are lists of such addresses.
pub mod Exec
pub mod Facts
pub mod Ensures
use tweaking_pintos.Prelude.{ℕ, Bool, true, false, List, Option, none, some, ◌==◌, if◌then◌else◌}

-- enum thread_status
pub data Status : Type 0 where
  running ready blocked dying : Status

abbrev pub is_blocked : Status → Bool
is_blocked blocked = true
is_blocked _ = false

-- enum sig_value, as the numbers that `signum` holds.
abbrev pub sig_chld : ℕ
sig_chld = 0

abbrev pub sig_cpu : ℕ
sig_cpu = 1

abbrev pub sig_ublock : ℕ
sig_ublock = 2

abbrev pub sig_usr : ℕ
sig_usr = 3

abbrev pub sig_kill : ℕ
sig_kill = 4

-- struct signal
pub record Signal : Type 0 where
  pub signum : ℕ
  pub sender : ℕ

-- Where a thread that is not running resumes: at the frame built by thread_create(), or behind the
-- call of switch_threads() in a schedule() that was called by thread_block(), by thread_yield()
-- with the saved interrupt level, or by thread_exit().
pub data Frame : Type 0 where
  entry : Frame
  in_block : Frame
  in_yield : Bool → Frame
  in_exit : Frame

-- struct thread
pub record Thread : Type 0 where
  pub tid : ℕ
  pub status : Status
  pub name : List ℕ
  pub frame : Frame
  pub priority : ℕ
  pub parent_thread : ℕ
  pub children_list : List ℕ
  pub is_parent : Bool
  pub thread_life_time : ℕ
  pub thread_total_time : ℕ
  pub is_life_over : Bool
  pub total_children : ℕ
  pub alive_children : ℕ
  pub pending_signals : List Signal
  pub sigmask : ℕ

-- What the signal handlers print.
pub data Line : Type 0 where
  chld_line : (sender receiver total alive : ℕ) → Line
  kill_line : (sender receiver : ℕ) → Line
  cpu_line : (receiver : ℕ) → Line
  usr_line : (sender receiver : ℕ) → Line

-- `current` is the page that the stack pointer points into. `mallocs` is how many more calls of
-- malloc() find memory: the code never tests a result for NULL, so the first failure ends a run. `console_holder` is the thread that holds
-- the console lock, or 0.
pub record Kernel : Type 0 where
  pub mem : ℕ → Option Thread
  pub current : ℕ
  pub ready_list : List ℕ
  pub all_list : List ℕ
  pub unblock_list : List ℕ
  pub idle_thread : ℕ
  pub initial_thread : ℕ
  pub next_tid : ℕ
  pub thread_ticks : ℕ
  pub idle_ticks : ℕ
  pub kernel_ticks : ℕ
  pub yield_on_return : Bool
  pub intr_on : Bool
  pub intr_context : Bool
  pub mallocs : ℕ
  pub console : List Line
  pub console_holder : ℕ

abbrev pub null : ℕ
null = 0

abbrev pub update : (ℕ → Option Thread) → ℕ → Option Thread → ℕ → Option Thread
update f p v q = if p == q then v else f q
