-- ===== src/Thread/Schedule/Invariant.antt =====
-- After every switch exactly one thread is RUNNING, and the queue holds distinct READY threads.
use tweaking_pintos.Prelude.{
  ℕ, ◌≡◌, ◌≢◌, refl, sym, subst, ◌∙◌, true, false, List, [], ◌∷◌, some, none, arith, elem, Distinct,
  ◌==◌, ◌!=◌, ◌&&◌, if◌then◌else◌, eqb_ne, eqb_refl, Bool-cases, ==_iff, ◌⊎◌, inl, inr,
}
use tweaking_pintos.Kernel.{Status, running, ready, Frame, Thread, Kernel}
use tweaking_pintos.Kernel.Exec.{ok}
use tweaking_pintos.Kernel.Facts.{Live}
use tweaking_pintos.Thread.Schedule.{is_dying, switch}
use tweaking_pintos.Thread.Schedule.Switch.{
  QueueIsReady, IsLeaving, OneRuns, chosen, rest, after, switch_self, switch_other,
}

not_dying : (s : Status) → s ≡ ready → is_dying s ≡ false
not_dying s e = rw e

-- The thread that is chosen is live and not dying.
chosen-Live :
    {k : Kernel} {c : Thread}
    → IsLeaving k c
    → (n : Thread) × Live k (chosen k.ready_list k.idle_thread) n × (is_dying n.status ≡ false)
chosen-Live {k} l = go k.ready_list l.queue.ready
  where
    go :
        (r : List ℕ)
        → ((p : ℕ) → elem p r ≡ true → (t : Thread) × Live k p t × (t.status ≡ ready))
        → (n : Thread) × Live k (chosen r k.idle_thread) n × (is_dying n.status ≡ false)
    go [] h = l.idle
    go (p ∷ ps) h = let (t, live, e) = h p (rw eqb_refl) in (t, live, not_dying t.status e)

-- What is left of the queue stood in it, and the chosen thread is not left.
elem-rest :
    (r : List ℕ) (idle p : ℕ)
    → Distinct r
    → elem p (rest r) ≡ true
    → (elem p r ≡ true) × ((chosen r idle == p) ≡ false)
elem-rest [] idle p d h = ground arith
elem-rest (x ∷ xs) idle p d h = elim (Bool-cases (p == x)) [
  | inl same ↦
      let here : elem x xs ≡ true = subst (λ a. elem a xs ≡ true) ((==_iff p x).0 same) h in
      cc (here, d.0)
  | inr other ↦ ground (arith, other, h)
]

Distinct-rest : (r : List ℕ) → Distinct r → Distinct (rest r)
Distinct-rest [] d = tt
Distinct-rest (x ∷ xs) d = d.1

-- What schedule() has done when thread_schedule_tail() returns, `c` being the thread that left.
pub record AfterSwitch (how : Frame) (k : Kernel) (c : Thread) (k' : Kernel) : Type 0 where
  pub one : OneRuns k'
  pub queue : QueueIsReady k'
  pub turn : k'.current ≡ chosen k.ready_list k.idle_thread
  pub waiting : k'.ready_list ≡ rest k.ready_list
  pub slice : k'.thread_ticks ≡ 0
  pub freed : is_dying c.status ≡ true → k.current ≢ k.initial_thread → k'.mem k.current ≡ none
  pub stays :
      k.current ≢ k'.current
      → is_dying c.status ≡ false ⊎ k.current ≡ k.initial_thread
      → k'.mem k.current ≡ some (record c { frame = how })
  pub kept : (q : ℕ) → q ≢ k.current → q ≢ k'.current → k'.mem q ≡ k.mem q

-- The page at `q` after the switch; if the caller is chosen itself, `n` is `c`.
page :
    (k : Kernel) (c n : Thread) (next : ℕ) (how : Frame) (q : ℕ)
    → (k.current ≡ next → n ≡ c)
    → (after k c n next how).mem q ≡ (
        if next == q
        then some (record n { status = running })
        else if k.current == q
        then (if is_dying c.status && k.current != k.initial_thread
            then none
            else some (record c { frame = how }))
        else k.mem q)
page k c n next how q h = elim (Bool-cases (k.current == next)) [
  | inl same ↦ let e : n ≡ c = h ((==_iff k.current next).0 same) in ground (arith, same, e)
  | inr other ↦ ground (arith, other)
]

module _ {k : Kernel} {c n : Thread} (l : IsLeaving k c) (how : Frame) (next : ℕ)
    (pick : next ≡ chosen k.ready_list k.idle_thread) (live : Live k next n)
    (alive : is_dying n.status ≡ false) (self : k.current ≡ next → n ≡ c) where
  abbrev k' : Kernel
  k' = after k c n next how

  runs-next : Live k' next (record n { status = running })
  runs-next = record {
    ne_null = live.ne_null;
    holds = page k c n next how next self ∙ ground arith;
  }

  only_next : (p : ℕ) (t : Thread) → Live k' p t → t.status ≡ running → p ≡ next
  only_next p t lt e = ground (arith, lt.holds, page k c n next how p self, l.stopped, l.alone p t)

  waits :
      (p : ℕ) → elem p (rest k.ready_list) ≡ true → (t : Thread) × Live k' p t × (t.status ≡ ready)
  waits p h =
      let (old, apart) = elem-rest k.ready_list k.idle_thread p l.queue.distinct h in
      let (t, lt, e) = l.queue.ready p old in
      let away : (next == p) ≡ false = rw pick apart in
      let same_page = page k c n next how p self in
      elim (Bool-cases (k.current == p)) [
        | inl here ↦
            let spot : k.current ≡ p = (==_iff k.current p).0 here in
            let cp : k.mem p ≡ some c = subst (λ a. k.mem a ≡ some c) spot l.here.holds in
            let tc : t ≡ c = cc (cp, lt.holds) in
            let ready_c : c.status ≡ ready = subst (λ (u : Thread). u.status ≡ ready) tc e in
            let lives : is_dying c.status ≡ false = not_dying c.status ready_c in
            (
              record c { frame = how },
              record { ne_null = lt.ne_null; holds = same_page ∙ rw (away, here, lives) },
              ready_c,
            )
        | inr there ↦
            (t, record { ne_null = lt.ne_null; holds = same_page ∙ rw (away, there) lt.holds }, e)
      ]

  freed : is_dying c.status ≡ true → k.current ≢ k.initial_thread → k'.mem k.current ≡ none
  freed d ne =
      let off : (next == k.current) ≡ false = eqb_ne next k.current λ e.
        let same : n ≡ c = self (sym e) in
        let live_c : is_dying c.status ≡ false =
          subst (λ (u : Thread). is_dying u.status ≡ false) same alive in
        cc (d, live_c) in
      page k c n next how k.current self
      ∙ rw (off, eqb_refl k.current, d) (ground (arith, eqb_ne k.current k.initial_thread ne))

  stays :
      k.current ≢ next
      → is_dying c.status ≡ false ⊎ k.current ≡ k.initial_thread
      → k'.mem k.current ≡ some (record c { frame = how })
  stays ne why =
      let off : (next == k.current) ≡ false = eqb_ne next k.current λ e. ne (sym e) in
      let spared : is_dying c.status && k.current != k.initial_thread ≡ false = elim why [
        | inl d ↦ rw d refl
        | inr e ↦ ground (arith, e)
      ] in
      page k c n next how k.current self ∙ rw (off, eqb_refl k.current, spared) refl

  kept : (q : ℕ) → q ≢ k.current → q ≢ next → k'.mem q ≡ k.mem q
  kept q a b = page k c n next how q self ∙ ground (arith, a, b)

  after-AfterSwitch : AfterSwitch how k c k'
  after-AfterSwitch = record {
    one = record { runs = (record n { status = running }, runs-next, refl); only = only_next };
    queue = record { distinct = Distinct-rest k.ready_list l.queue.distinct; ready = waits };
    turn = pick;
    waiting = refl;
    slice = refl;
    freed = freed;
    stays = stays;
    kept = kept;
  }

-- From every state in which the caller is a live thread that is no longer RUNNING, no other thread
-- is, the queue holds distinct READY threads, and the idle thread is live and not DYING (so from
-- thread_start() on, not while the idle thread is created), the switch happens: the front of the queue
-- runs, or the idle thread if the queue is empty; afterwards exactly one thread is RUNNING, the queue
-- holds distinct READY threads and has lost its front, and the time slice starts at 0. The page of a
-- DYING caller is freed unless it is the initial thread's; the page of any other caller that gives way,
-- BLOCKED or READY or the initial thread, stays with its frame saved; no third thread has changed.
pub switch-AfterSwitch :
    (how : Frame) {k : Kernel} {c : Thread}
    → IsLeaving k c
    → (to : Frame) × (k' : Kernel) × (switch how k ≡ ok to k') × AfterSwitch how k c k'
switch-AfterSwitch how {k} {c} l =
    elim (Bool-cases (k.current == chosen k.ready_list k.idle_thread)) [
      | inl same ↦
          let e : k.current ≡ chosen k.ready_list k.idle_thread = (==_iff _ _).0 same in
          let (n, live, alive) = chosen-Live l in
          let here : Live k (chosen k.ready_list k.idle_thread) c =
            subst (λ p. Live k p c) e l.here in
          let nc : n ≡ c = cc (live.holds, here.holds) in
          let alive_c : is_dying c.status ≡ false =
            subst (λ (u : Thread). is_dying u.status ≡ false) nc alive in
          (
            how,
            after k c c (chosen k.ready_list k.idle_thread) how,
            switch_self l how e,
            after-AfterSwitch l how (chosen k.ready_list k.idle_thread) refl here alive_c
                (λ _. refl),
          )
      | inr other ↦
          let (n, live, alive) = chosen-Live l in
          (
            n.frame,
            after k c n (chosen k.ready_list k.idle_thread) how,
            switch_other l how (chosen k.ready_list k.idle_thread) live refl other,
            after-AfterSwitch l how (chosen k.ready_list k.idle_thread) refl live alive
                (λ e. absurd (ground (arith, e, other))),
          )
    ]
