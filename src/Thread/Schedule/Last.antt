-- ===== src/Thread/Schedule/Last.antt =====
-- thread_exit() calls schedule() for the last time in the state that it wants.
use tweaking_pintos.Prelude.{
  ℕ, ◌<◌, ◌≡◌, ◌≢◌, refl, sym, ap, ◌∙◌, subst, true, false, List, [], ◌∷◌, Option, none, some,
  arith, elem, ◌==◌, eqb_ne, eqb_refl, Bool-cases, ==_iff, inl, inr,
}
use tweaking_pintos.Kernel.{Status, ready, dying, in_exit, Thread, Kernel, update}
use tweaking_pintos.Kernel.Exec.{is_running}
use tweaking_pintos.Kernel.Facts.{Live, Runs}
use tweaking_pintos.Thread.Exit.Laws.{
  orphan, orphaned, bereaved, adopted-parent, Family, gone, leave_lem,
}
use tweaking_pintos.Thread.Schedule.{is_dying, schedule, thread_exit}
use tweaking_pintos.Thread.Schedule.Switch.{IsLeaving}
use tweaking_pintos.Thread.Schedule.Callers.{IsSound, elem-current, stays_false, not_running}

abbrev status_of : Option Thread → Option Status
status_of none = none
status_of (some t) = some t.status

orphan-status : (parent : ℕ) (v : Option Thread) → status_of (orphan parent v) ≡ status_of v
orphan-status parent none = refl
orphan-status parent (some t) = refl

-- A write that keeps the state of the thread.
write_status :
    (m : ℕ → Option Thread) (p : ℕ) (v : Option Thread) (q : ℕ)
    → status_of v ≡ status_of (m p)
    → status_of (update m p v q) ≡ status_of (m q)
write_status m p v q e = elim (Bool-cases (p == q)) [
  | inl same ↦ rw same (e ∙ ap (λ (a : ℕ). status_of (m a)) ((==_iff p q).0 same))
  | inr other ↦ rw other
]

orphaned-status :
    (parent : ℕ) (l : List ℕ) (m : ℕ → Option Thread) (q : ℕ)
    → status_of (orphaned parent l m q) ≡ status_of (m q)
orphaned-status parent [] m q = refl
orphaned-status parent (p ∷ ps) m q =
    orphaned-status parent ps _ q ∙ write_status m p _ q (orphan-status parent (m p))

status_some :
    (v : Option Thread) (s : Status)
    → status_of v ≡ some s
    → (t : Thread) × (v ≡ some t) × (t.status ≡ s)
status_some none s e = absurd (cc e)
status_some (some t) s e = (t, refl, cc e)

module _ {k : Kernel} {c u : Thread} (sound : IsSound k) (runs : Runs k c)
    (family : Family k c u) where
  -- Every other thread keeps its state.
  gone-status :
      (q : ℕ)
      → (k.current == q) ≡ false
      → status_of ((gone runs family).mem q) ≡ status_of (k.mem q)
  gone-status q other = rw other (
      write_status (orphaned c.parent_thread c.children_list k.mem) c.parent_thread
        (some (bereaved k c u)) q (ap status_of (sym (adopted-parent runs family).holds))
      ∙ orphaned-status c.parent_thread c.children_list k.mem q)

  -- A thread of the old state is there, in the same state.
  stays :
      (q : ℕ) (t : Thread)
      → Live k q t
      → (k.current == q) ≡ false
      → (t' : Thread) × Live (gone runs family) q t' × (t'.status ≡ t.status)
  stays q t live other =
      let (t', e, s) =
        status_some ((gone runs family).mem q) t.status
          (gone-status q other ∙ ap status_of live.holds) in
      (t', record { ne_null = live.ne_null; holds = e }, s)

  gone-alone : (p : ℕ) (t : Thread) → Live (gone runs family) p t → is_running t.status ≡ false
  gone-alone p t live = elim (Bool-cases (k.current == p)) [
    | inl here ↦
        let e : t ≡ record c { status = dying } = cc (rw here at live.holds) in
        subst (λ (x : Thread). is_running x.status ≡ false) (sym e) refl
    | inr there ↦
        let (t0, e, s) =
          status_some (k.mem p) t.status (sym (gone-status p there) ∙ ap status_of live.holds) in
        not_running t.status λ r.
          let at_current : p ≡ k.current =
            sound.one.only p t0 (record { ne_null = live.ne_null; holds = e }) (s ∙ r) in
          ground (arith, at_current, there)
  ]

  gone-ready :
      (p : ℕ)
      → elem p k.ready_list ≡ true
      → (t : Thread) × Live (gone runs family) p t × (t.status ≡ ready)
  gone-ready p h =
      let (t, live, e) = sound.queue.ready p h in
      let apart : (k.current == p) ≡ false = stays_false (k.current == p) λ same.
        let queued : elem k.current k.ready_list ≡ true =
          subst (λ a. elem a k.ready_list ≡ true) (sym ((==_iff k.current p).0 same)) h in
        cc (queued, elem-current sound) in
      let (t', live', s) = stays p t live apart in (t', live', s ∙ e)

  gone-IsLeaving :
      k.current ≢ k.idle_thread → IsLeaving (gone runs family) (record c { status = dying })
  gone-IsLeaving works =
      let (t, live, alive) = sound.idle in
      let (t', live', s) = stays k.idle_thread t live (eqb_ne _ _ works) in
      record {
        quiet = refl;
        here = record { ne_null = runs.live.ne_null; holds = rw (eqb_refl k.current) };
        stopped = refl;
        alone = gone-alone;
        queue = record { distinct = sound.queue.distinct; ready = gone-ready };
        idle = (t', live', ap is_dying s ∙ alive);
      }

  -- In a sound state outside an interrupt, let a thread other than the first and the idle one, with
  -- a live parent that is another thread and live children, call thread_exit(), and let there be
  -- memory for a signal. It hands its children to its parent, is off the parent's list and makes
  -- SIG_CHLD pending for the parent unless the parent ignores it (neither of these if the thread was
  -- itself handed over), leaves the list of all threads, DYING, and calls schedule() in a state in
  -- which the switch succeeds.
  pub thread_exit-IsLeaving :
      (fuel : ℕ)
      → 0 < c.tid
      → c.tid ≢ 1
      → k.current ≢ k.idle_thread
      → 0 < k.mallocs
      → k.intr_context ≡ false
      → (thread_exit fuel k ≡ schedule fuel in_exit (gone runs family))
        × IsLeaving (gone runs family) (record c { status = dying })
  unfolding thread_exit
  thread_exit-IsLeaving fuel positive other works memory outside =
      (rw (leave_lem runs family positive other memory outside), gone-IsLeaving works)
