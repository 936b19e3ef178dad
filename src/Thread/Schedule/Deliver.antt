-- ===== src/Thread/Schedule/Deliver.antt =====
-- What a thread does in schedule() when it runs again: it unblocks the threads on `unblock_list`,
-- handles its pending signals in order, and looks at its lifetime (pintos/src/threads/thread.c,
-- with the handlers of pintos/src/threads/signal.c).
pub mod Pending
pub mod Unblock
use tweaking_pintos.Prelude.{ℕ, ◌+◌, ◌-◌, ◌%◌, ◌^◌, List, [], ◌∷◌, ◌==◌}
use tweaking_pintos.Kernel.{
  Signal, chld_line, kill_line, cpu_line, usr_line, sig_chld, sig_usr, sig_kill,
}
use tweaking_pintos.Kernel.Exec.{
  M, pure, ◌>>=◌, ◌>>◌, get, put, branch, load, store, print, thread_current,
}
use tweaking_pintos.Thread.Create.{thread_unblock}

-- Whether the thread goes on, or has been told to call thread_exit().
pub data Flow : Type 0 where
  goes_on exits : Flow

-- `alive_children--` is on an unsigned int.
unfoldable pub chld_handler : (sender : ℕ) → M (Unit {0})
chld_handler sender = do
  cur ← thread_current
  k ← get
  let alive = (cur.alive_children + 2 ^ 32 - 1) % 2 ^ 32
  store k.current (record cur { alive_children = alive })
  print (chld_line sender cur.tid cur.total_children alive)

unfoldable pub kill_handler : (sender : ℕ) → M Flow
kill_handler sender = do cur ← thread_current; print (kill_line sender cur.tid); pure exits

unfoldable pub cpu_handler : M Flow
cpu_handler = do cur ← thread_current; print (cpu_line cur.tid); pure exits

unfoldable pub usr_handler : (sender : ℕ) → M (Unit {0})
usr_handler sender = do cur ← thread_current; print (usr_line sender cur.tid)

unfoldable pub handle : Signal → M Flow
unfolding chld_handler kill_handler usr_handler
handle s =
    branch (s.signum == sig_chld) (do chld_handler s.sender; pure goes_on)
      (branch (s.signum == sig_usr) (do usr_handler s.sender; pure goes_on)
        (branch (s.signum == sig_kill) (kill_handler s.sender) (pure goes_on)))

-- list_remove() of the signal just handled: `rest` stays.
unfoldable pub keep_pending : (rest : List Signal) → M (Unit {0})
keep_pending rest = do
  k ← get
  t ← load k.current
  store k.current (record t { pending_signals = rest })

unfoldable pub run_pending : List Signal → M Flow
unfolding handle keep_pending
run_pending [] = pure goes_on
run_pending (s ∷ ss) = do
  flow ← handle s
  elim flow [ goes_on ↦ do keep_pending ss; run_pending ss | exits ↦ pure exits ]

unfoldable pub unblock_all : List ℕ → M (Unit {0})
unblock_all [] = pure tt
unblock_all (p ∷ ps) = do
  thread_unblock p
  k ← get
  put (record k { unblock_list = ps })
  unblock_all ps

-- The test of `is_life_over`.
unfoldable pub check_life : M Flow
unfolding cpu_handler
check_life = do k ← get; t ← load k.current; branch t.is_life_over cpu_handler (pure goes_on)

unfoldable pub after_switch : M Flow
unfolding unblock_all run_pending check_life
after_switch = do
  k ← get
  unblock_all k.unblock_list
  t ← load k.current
  flow ← run_pending t.pending_signals
  elim flow [ goes_on ↦ check_life | exits ↦ pure exits ]
