-- ===== src/Thread/Exit.antt =====
-- thread_exit() of pintos/src/threads/thread.c up to its call of schedule().
pub mod Laws
use tweaking_pintos.Prelude.{ℕ, false, not, ◌&&◌, List, [], ◌∷◌, erase, bit_and, ltb, ◌==◌, ◌!=◌}
use tweaking_pintos.Kernel.{dying, sig_chld}
use tweaking_pintos.Kernel.Exec.{
  M, pure, ◌>>=◌, ◌>>◌, get, put, assert, branch, load, store, thread_current,
}
use tweaking_pintos.Signal.Pending.{post}

-- The loop over the children of the thread that exits.
unfoldable pub adopt : (parent : ℕ) → List ℕ → M (Unit {0})
adopt parent [] = pure tt
adopt parent (p ∷ ps) = do
  t ← load p
  store p (record t { parent_thread = parent; is_parent = false })
  adopt parent ps

-- list_remove (&thread_current()->child_elem), on the list of the parent.
unfoldable pub remove_child : (parent p : ℕ) → M (Unit {0})
remove_child parent p = do
  t ← load parent
  store parent (record t { children_list = erase p t.children_list })

-- The block under `if (tid > 0 && tid != 1)`.
unfoldable pub leave_family : (parent : ℕ) → M (Unit {0})
unfolding adopt remove_child
leave_family parent = do
  cur ← thread_current
  adopt parent cur.children_list
  cur' ← thread_current
  k ← get
  branch cur'.is_parent (remove_child parent k.current) (pure tt)
  t ← load parent
  branch (cur'.is_parent && bit_and t.sigmask 1 == 0)
      (do remove_child parent k.current; post parent sig_chld) (pure tt)

-- Off the list of all threads, and dying.
unfoldable pub withdraw : M (Unit {0})
withdraw = do
  k ← get
  assert (not k.intr_context)
  cur ← thread_current
  put (record k { intr_on = false; all_list = erase k.current k.all_list })
  store k.current (record cur { status = dying })

unfoldable pub leave : M (Unit {0})
unfolding leave_family withdraw
leave = do
  cur ← thread_current
  branch (ltb 0 cur.tid && cur.tid != 1) (leave_family cur.parent_thread) (pure tt)
  withdraw
