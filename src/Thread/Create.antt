-- ===== src/Thread/Create.antt =====
-- Making threads ready to run: init_thread(), allocate_tid(), thread_init(), thread_unblock() and
-- thread_create() of pintos/src/threads/thread.c.
pub mod Laws
use tweaking_pintos.Prelude.{
  ℕ, ◌+◌, ◌-◌, ◌%◌, ◌^◌, true, false, not, ◌&&◌, List, [], ◌∷◌, Option, none, some, ltb, take,
}
use tweaking_pintos.Prelude.Words.{int_lt, minus_one}
use tweaking_pintos.Kernel.{running, ready, blocked, entry, Thread, null, update, is_blocked}
use tweaking_pintos.Kernel.Exec.{
  M, pure, ◌>>=◌, ◌>>◌, get, put, assert, branch, load, store, push_back, thread_current,
}

abbrev pub pri_min : ℕ
pri_min = 0

abbrev pub pri_default : ℕ
pri_default = 31

abbrev pub pri_max : ℕ
pri_max = 63

abbrev pub tid_error : ℕ
tid_error = minus_one

-- The fields as memset() and the assignments leave them; strlcpy() keeps 15 characters of the name.
unfoldable pub blank : (name : List ℕ) (priority : ℕ) → Thread
blank name priority = record {
  tid = 0;
  status = blocked;
  name = take 15 name;
  frame = entry;
  priority = priority;
  parent_thread = null;
  children_list = [];
  is_parent = true;
  thread_life_time = 2 ^ 64 - 1;
  thread_total_time = 0;
  is_life_over = false;
  total_children = 0;
  alive_children = 0;
  pending_signals = [];
  sigmask = 0;
}

unfoldable pub init_thread : (p : ℕ) (name : List ℕ) (priority : ℕ) → M (Unit {0})
unfolding blank
init_thread p name priority = do
  assert (not (int_lt priority pri_min) && not (int_lt pri_max priority))
  store p (blank name priority)
  k ← get
  l ← push_back p k.all_list
  put (record k { all_list = l })

-- `next_tid++` under the tid lock.
unfoldable pub allocate_tid : M ℕ
allocate_tid = do k ← get; put (record k { next_tid = k.next_tid + 1 }); pure k.next_tid

-- The page that the boot code runs in becomes the first thread.
pub thread_init : M (Unit {0})
unfolding init_thread allocate_tid
thread_init = do
  k ← get
  assert (not k.intr_on)
  put (record k { ready_list = []; all_list = []; unblock_list = []; initial_thread = k.current })
  init_thread k.current (109 ∷ 97 ∷ 105 ∷ 110 ∷ []) pri_default
  t ← load k.current
  store k.current (record t { status = running })
  tid ← allocate_tid
  t' ← load k.current
  store k.current (record t' { tid = tid })

unfoldable pub thread_unblock : ℕ → M (Unit {0})
thread_unblock p = do
  t ← load p
  assert (is_blocked t.status)
  k ← get
  l ← push_back p k.ready_list
  put (record k { ready_list = l; mem = update k.mem p (some (record t { status = ready })) })

-- The block under `if (tid > 0)`: the caller becomes the parent.
enlist : (p : ℕ) → M (Unit {0})
enlist p = do
  cur ← thread_current
  k ← get
  l ← push_back p cur.children_list
  store k.current (record cur {
    total_children = (cur.total_children + 1) % 2 ^ 32;
    alive_children = (cur.alive_children + 1) % 2 ^ 32;
    children_list = l;
  })
  t ← load p
  store p (record t { parent_thread = k.current })

-- With a page: palloc_get_page() gave `p`. The three stack frames are the resumption `entry`.
create_at : (p : ℕ) (name : List ℕ) (priority : ℕ) → M ℕ
unfolding init_thread allocate_tid thread_unblock enlist
create_at p name priority = do
  init_thread p name priority
  tid ← allocate_tid
  t ← load p
  store p (record t { tid = tid })
  branch (ltb 0 tid) (enlist p) (pure tt)
  t' ← load p
  store p (record t' { frame = entry })
  thread_unblock p
  pure tid

-- `page` is the result of palloc_get_page().
pub thread_create : (page : Option ℕ) (name : List ℕ) (priority : ℕ) → M ℕ
unfolding create_at
thread_create page name priority = elim page [
  | none ↦ pure tid_error
  | some p ↦ create_at p name priority
]
