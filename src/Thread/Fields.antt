-- ===== src/Thread/Fields.antt =====
-- What a thread reads and writes of itself: thread_tid(), thread_name(), thread_get_priority() and
-- thread_set_priority() of pintos/src/threads/thread.c.
use tweaking_pintos.Prelude.{ℕ, List}
use tweaking_pintos.Kernel.Exec.{M, pure, ◌>>=◌, get, store, thread_current}

unfoldable pub thread_tid : M ℕ
thread_tid = do t ← thread_current; pure t.tid

unfoldable pub thread_name : M (List ℕ)
thread_name = do t ← thread_current; pure t.name

unfoldable pub thread_get_priority : M ℕ
thread_get_priority = do t ← thread_current; pure t.priority

unfoldable pub thread_set_priority : (new_priority : ℕ) → M (Unit {0})
thread_set_priority new_priority = do
  t ← thread_current
  k ← get
  store k.current (record t { priority = new_priority })
