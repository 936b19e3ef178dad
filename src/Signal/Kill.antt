-- ===== src/Signal/Kill.antt =====
-- kill() of pintos/src/threads/signal.c, and validated_tid() of pintos/src/threads/thread.c.
pub mod Ancestor
pub mod Errors
pub mod Effects
use tweaking_pintos.Prelude.{
  ℕ, zero, suc, Bool, true, false, List, [], ◌∷◌, bit_and, ◌==◌, ◌!=◌, not,
}
use tweaking_pintos.Prelude.Words.{minus_one}
use tweaking_pintos.Kernel.{is_blocked, Thread, Kernel, null, sig_ublock, sig_usr, sig_kill}
use tweaking_pintos.Kernel.Exec.{
  M, pure, stop, out_of_fuel, branch, ◌>>=◌, ◌>>◌, get, put, load, push_back, thread_current,
}
use tweaking_pintos.Signal.Pending.{post}

-- The loop of validated_tid() over `all_list`.
unfoldable pub find_tid : (tid : ℕ) → List ℕ → M ℕ
find_tid tid [] = pure null
find_tid tid (p ∷ ps) = do t ← load p; branch (tid == t.tid) (pure p) (find_tid tid ps)

unfoldable pub validated_tid : (tid : ℕ) → M ℕ
unfolding find_tid
validated_tid tid = do k ← get; find_tid tid k.all_list

-- The for (;;) of SIG_KILL: is the caller, whose tid is `cur`, on the parent chain of the thread at
-- `p`? The walk stops at the thread whose tid is 1.
unfoldable pub parent_found : (fuel cur p : ℕ) → M Bool
parent_found zero cur p = stop out_of_fuel
parent_found (suc fuel) cur p = do
  t ← load p
  parent ← load t.parent_thread
  branch (cur == parent.tid) (pure true)
      (branch (parent.tid == 1) (pure false) (parent_found fuel cur t.parent_thread))

-- list_push_back (&unblock_list, &t->unblock_elem). For a thread that is on the list already, which
-- the code does not test, the list would be corrupted from here on: the model stops.
append_unblock : ℕ → M (Unit {0})
append_unblock p = do k ← get; l ← push_back p k.unblock_list; put (record k { unblock_list = l })

send_ublock : ℕ → Thread → M ℕ
unfolding append_unblock
send_ublock p t =
    branch (bit_and t.sigmask 4 != 0) (pure minus_one)
      (branch (not (is_blocked t.status)) (pure 0) do append_unblock p; pure 0)

send_usr : ℕ → Thread → M ℕ
unfolding post
send_usr p t = branch (bit_and t.sigmask 8 != 0) (pure minus_one) do post p sig_usr; pure 0

-- On each step to a parent the tid falls, so the target's tid is fuel enough.
send_kill : ℕ → Thread → M ℕ
unfolding post parent_found
send_kill p t = do
  cur ← thread_current
  allowed ← parent_found (suc t.tid) cur.tid p
  branch allowed (do post p sig_kill; pure 0) (pure minus_one)

deliver : (p signum : ℕ) → M ℕ
unfolding send_ublock send_usr send_kill
deliver p signum = branch (p == null) (pure minus_one) do
  t ← load p
  branch (signum == sig_ublock) (send_ublock p t) (
      branch (signum == sig_usr) (send_usr p t)
        (branch (signum == sig_kill) (send_kill p t) (pure minus_one)))

pub kill : (tid signum : ℕ) → M ℕ
unfolding validated_tid deliver
kill tid signum = do p ← validated_tid tid; deliver p signum
