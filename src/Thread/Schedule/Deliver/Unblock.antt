-- ===== src/Thread/Schedule/Deliver/Unblock.antt =====
-- The threads on `unblock_list` become READY, in order.
use tweaking_pintos.Prelude.{
  ℕ, ◌≡◌, refl, ◌∙◌, false, List, [], ◌∷◌, ◌++◌, Option, none, some, arith, All, elem, Distinct,
  elem-append, append_assoc, append-nil,
}
use tweaking_pintos.Kernel.{blocked, ready, Thread, Kernel, update}
use tweaking_pintos.Kernel.Exec.{ok}
use tweaking_pintos.Kernel.Facts.{Live, load-Live}
use tweaking_pintos.Thread.Create.{thread_unblock}
use tweaking_pintos.Thread.Schedule.Deliver.{unblock_all}

-- A live BLOCKED thread that is not in the queue goes to the end of the queue, READY.
pub thread_unblock_lem :
    (p : ℕ) {k : Kernel} {t : Thread}
    → Live k p t
    → t.status ≡ blocked
    → elem p k.ready_list ≡ false
    → thread_unblock p k
      ≡ ok tt (record k {
        ready_list = k.ready_list ++ (p ∷ []);
        mem = update k.mem p (some (record t { status = ready }));
      })
unfolding thread_unblock
thread_unblock_lem p live b new = rw (load-Live live, b, new)

-- The thread at `p` may be unblocked.
abbrev pub Waits : Kernel → ℕ → Type 0
Waits k p = (t : Thread) × Live k p t × (t.status ≡ blocked) × (elem p k.ready_list ≡ false)

abbrev wake : Option Thread → Option Thread
wake none = none
wake (some t) = some (record t { status = ready })

abbrev pub woken : List ℕ → (ℕ → Option Thread) → ℕ → Option Thread
woken [] m = m
woken (p ∷ ps) m = woken ps (update m p (wake (m p)))

-- Unblocking `p` leaves the others waiting.
All-Waits :
    (l : List ℕ) (k : Kernel) (p : ℕ) (v : Option Thread) (rest : List ℕ)
    → elem p l ≡ false
    → All (Waits k) l
    → All
        (Waits (record k {
          ready_list = k.ready_list ++ (p ∷ []);
          mem = update k.mem p v;
          unblock_list = rest;
        }))
        l
All-Waits [] k p v rest out h = tt
All-Waits (q ∷ qs) k p v rest out ((t, live, b, new), h) = (
  (
    t,
    record { ne_null = live.ne_null; holds = ground (arith, out, live.holds) },
    b,
    elem-append q k.ready_list (p ∷ []) ∙ ground (arith, out, new),
  ),
  All-Waits qs k p v rest (ground (arith, out)) h,
)

-- Where the threads on the list are distinct, live, BLOCKED and not queued, all of them are
-- appended to the queue in order, READY, and the list is empty afterwards.
pub unblock_all_lem :
    (l : List ℕ) (k : Kernel)
    → Distinct l
    → All (Waits k) l
    → k.unblock_list ≡ l
    → unblock_all l k
      ≡ ok tt (record k { mem = woken l k.mem; ready_list = k.ready_list ++ l; unblock_list = [] })
unfolding unblock_all
unblock_all_lem [] k d h e = rw (append-nil, ← e)
unblock_all_lem (p ∷ ps) k d ((t, live, b, new), h) e =
    rw (thread_unblock_lem p live b new, live.holds)
      (unblock_all_lem ps _ d.1 (All-Waits ps k p _ ps d.0 h) refl ∙ rw append_assoc)
