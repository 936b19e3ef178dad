-- ===== src/Thread/Schedule/Run.antt =====
-- A whole call of schedule() when no signal kills the thread that runs next.
use tweaking_pintos.Prelude.{◌≡◌, ◌≢◌, true, false, [], ◌++◌, All, Distinct}
use tweaking_pintos.Kernel.{Signal, Thread, Kernel, sig_kill}
use tweaking_pintos.Kernel.Exec.{can_print}
use tweaking_pintos.Thread.Schedule.Deliver.Unblock.{Waits, woken}

-- Nothing stops the thread `c` that runs: the threads to unblock wait, no SIG_KILL is pending, its
-- life is not over, and printf() need not wait for the console lock.
pub record IsCalm (k : Kernel) (c : Thread) : Type 0 where
  pub distinct : Distinct k.unblock_list
  pub waits : All (Waits k) k.unblock_list
  pub mild : All (λ (s : Signal). s.signum ≢ sig_kill) c.pending_signals
  pub alive : c.is_life_over ≡ false
  pub free : can_print k ≡ true

-- The kernel when the unblocked threads are in the queue.
abbrev pub roused : Kernel → Kernel
roused k = record k {
  mem = woken k.unblock_list k.mem;
  ready_list = k.ready_list ++ k.unblock_list;
  unblock_list = [];
}
