-- ===== src/Thread/Schedule/Callers.antt =====
-- thread_yield() and thread_block() call schedule() in the state that it wants.
use tweaking_pintos.Prelude.{
  ℕ, ◌≡◌, refl, sym, ◌∙◌, subst, Bool, true, false, List, [], ◌∷◌, ◌++◌, some, arith, elem,
  Distinct, elem-append, ◌==◌, ◌!=◌, if◌then◌else◌, eqb_refl, Bool-cases, ==_iff, inl, inr,
}
use tweaking_pintos.Kernel.{
  Status, running, ready, blocked, in_block, in_yield, Thread, Kernel, update,
}
use tweaking_pintos.Kernel.Exec.{branch, store, is_running}
use tweaking_pintos.Kernel.Facts.{Live, Runs, assert_off, current-Runs}
use tweaking_pintos.Thread.Schedule.{is_dying, schedule, thread_yield, thread_block}
use tweaking_pintos.Thread.Schedule.Switch.{QueueIsReady, IsLeaving, OneRuns}

-- The state of the scheduler between its calls.
pub record IsSound (k : Kernel) : Type 0 where
  pub one : OneRuns k
  pub queue : QueueIsReady k
  pub idle : (t : Thread) × Live k k.idle_thread t × (is_dying t.status ≡ false)

pub stays_false : (b : Bool) → (b ≡ true → ⊥) → b ≡ false
stays_false true h = absurd (h refl)
stays_false false h = refl

pub not_running : (s : Status) → (s ≡ running → ⊥) → is_running s ≡ false
not_running running h = absurd (h refl)
not_running ready h = refl
not_running blocked h = refl
not_running Status.dying h = refl

Distinct-append : (p : ℕ) (l : List ℕ) → Distinct l → elem p l ≡ false → Distinct (l ++ (p ∷ []))
Distinct-append p [] d h = (refl, tt)
Distinct-append p (x ∷ xs) d h =
    (elem-append x xs (p ∷ []) ∙ ground (arith, d, h), Distinct-append p xs d.1 (ground (arith, h)))

module _ {k : Kernel} (sound : IsSound k) where
  abbrev cur : Thread
  cur = sound.one.runs.0

  cur-Runs : Runs k cur
  cur-Runs = record { live = sound.one.runs.1; status = sound.one.runs.2 }

  -- The running thread is not in the queue.
  pub elem-current : elem k.current k.ready_list ≡ false
  elem-current = stays_false (elem k.current k.ready_list) λ h.
      let (t, live, e) = sound.queue.ready k.current h in
      let same : t ≡ cur = cc (live.holds, sound.one.runs.1.holds) in
      let e' : cur.status ≡ ready = subst (λ (u : Thread). u.status ≡ ready) same e in
      cc (e', sound.one.runs.2)

  -- The kernel with the running thread in another state, and perhaps at the end of the queue.
  abbrev parked : Status → List ℕ → Kernel
  parked s l = record k {
    intr_on = false;
    ready_list = l;
    mem = update k.mem k.current (some (record cur { status = s }));
  }

  parked-alone :
      (s : Status) (l : List ℕ)
      → is_running s ≡ false
      → (p : ℕ) (t : Thread) → Live (parked s l) p t
      → is_running t.status ≡ false
  parked-alone s l off p t live = elim (Bool-cases (k.current == p)) [
    | inl here ↦
        let e : t ≡ record cur { status = s } = cc (rw here at live.holds) in
        subst (λ (u : Thread). is_running u.status ≡ false) (sym e) off
    | inr there ↦
        let old : k.mem p ≡ some t = rw there at live.holds in
        not_running t.status λ r.
          let e : p ≡ k.current =
            sound.one.only p t (record { ne_null = live.ne_null; holds = old }) r in
          ground (arith, e, there)
  ]

  parked-idle :
      (s : Status) (l : List ℕ)
      → is_dying s ≡ false
      → (t : Thread) × Live (parked s l) k.idle_thread t × (is_dying t.status ≡ false)
  parked-idle s l off =
      let (t, live, alive) = sound.idle in
      elim (Bool-cases (k.current == k.idle_thread)) [
        | inl here ↦
            (record cur { status = s }, record { ne_null = live.ne_null; holds = rw here }, off)
        | inr there ↦ (t, record { ne_null = live.ne_null; holds = rw there live.holds }, alive)
      ]

  -- A thread of the old queue is still READY.
  parked-old :
      (s : Status) (l : List ℕ) (p : ℕ)
      → elem p k.ready_list ≡ true
      → (t : Thread) × Live (parked s l) p t × (t.status ≡ ready)
  parked-old s l p h =
      let (t, live, e) = sound.queue.ready p h in
      elim (Bool-cases (k.current == p)) [
        | inl here ↦
            let same : elem k.current k.ready_list ≡ true =
              subst (λ a. elem a k.ready_list ≡ true) (sym ((==_iff k.current p).0 here)) h in
            cc (same, elem-current)
        | inr there ↦ (t, record { ne_null = live.ne_null; holds = rw there live.holds }, e)
      ]

  -- A thread that blocks leaves the queue as it is.
  pub parked-IsLeaving :
      (s : Status)
      → is_running s ≡ false
      → is_dying s ≡ false
      → IsLeaving (parked s k.ready_list) (record cur { status = s })
  parked-IsLeaving s off alive = record {
    quiet = refl;
    here = record { ne_null = sound.one.runs.1.ne_null; holds = rw (eqb_refl k.current) };
    stopped = off;
    alone = parked-alone s k.ready_list off;
    queue = record { distinct = sound.queue.distinct; ready = parked-old s k.ready_list };
    idle = parked-idle s k.ready_list alive;
  }

  appended-ready :
      (p : ℕ)
      → elem p (k.ready_list ++ (k.current ∷ [])) ≡ true
      → (t : Thread) × Live (parked ready (k.ready_list ++ (k.current ∷ []))) p t
        × (t.status ≡ ready)
  appended-ready p h = elim (Bool-cases (elem p k.ready_list)) [
    | inl old ↦ parked-old ready (k.ready_list ++ (k.current ∷ [])) p old
    | inr new ↦
        let me : (k.current == p) ≡ true =
          ground (arith, new, sym (elem-append p k.ready_list (k.current ∷ [])) ∙ h) in
        (
          record cur { status = ready },
          record {
            ne_null = λ z. sound.one.runs.1.ne_null ((==_iff k.current p).0 me ∙ z);
            holds = rw me;
          },
          refl,
        )
  ]

  pub appended-IsLeaving :
      IsLeaving (parked ready (k.ready_list ++ (k.current ∷ []))) (record cur { status = ready })
  appended-IsLeaving = record {
    quiet = refl;
    here = record { ne_null = sound.one.runs.1.ne_null; holds = rw (eqb_refl k.current) };
    stopped = refl;
    alone = parked-alone ready (k.ready_list ++ (k.current ∷ [])) refl;
    queue = record {
      distinct = Distinct-append k.current k.ready_list sound.queue.distinct elem-current;
      ready = appended-ready;
    };
    idle = parked-idle ready (k.ready_list ++ (k.current ∷ [])) refl;
  }

  -- Outside an interrupt, in a sound state, thread_yield() goes to the end of the queue, unless it
  -- is the idle thread, and calls schedule() in a state in which the switch succeeds.
  pub thread_yield-IsLeaving :
      (fuel : ℕ)
      → k.intr_context ≡ false
      → let queue =
          if k.current != k.idle_thread then k.ready_list ++ (k.current ∷ []) else k.ready_list in
        (thread_yield fuel k ≡ schedule fuel (in_yield k.intr_on) (parked ready queue))
        × IsLeaving (parked ready queue) (record cur { status = ready })
  unfolding thread_yield branch store
  thread_yield-IsLeaving fuel context = elim (Bool-cases (k.current == k.idle_thread)) [
    | inl idles ↦
        let e : (k.current != k.idle_thread) ≡ false = ground (arith, idles) in
        (
          rw (current-Runs cur-Runs, assert_off k.intr_context k context, e),
          rw e (parked-IsLeaving ready refl refl),
        )
    | inr works ↦
        let e : (k.current != k.idle_thread) ≡ true = ground (arith, works) in
        (
          rw (current-Runs cur-Runs, assert_off k.intr_context k context, e, elem-current),
          rw e appended-IsLeaving,
        )
  ]

  -- Outside an interrupt, with interrupts off and in a sound state, thread_block() leaves the queue
  -- alone and calls schedule() in a state in which the switch succeeds.
  pub thread_block-IsLeaving :
      (fuel : ℕ)
      → k.intr_context ≡ false
      → k.intr_on ≡ false
      → (thread_block fuel k ≡ schedule fuel in_block (parked blocked k.ready_list))
        × IsLeaving (parked blocked k.ready_list) (record cur { status = blocked })
  unfolding thread_block store
  thread_block-IsLeaving fuel context off = (
    rw (assert_off k.intr_context k context, assert_off k.intr_on k off, current-Runs cur-Runs)
        (ground (arith, off)),
    parked-IsLeaving blocked refl refl,
  )
