-- ===== src/Signal/Kill/Effects.antt =====
-- What kill() does for each signal, on every branch.
use tweaking_pintos.Prelude.{
  ℕ, suc, ◌<◌, ◌≡◌, ◌≢◌, ◌⊎◌, refl, inl, inr, Bool, true, false, List, [], ◌∷◌, some, arith, All,
  elem, ◌==◌, if◌then◌else◌, eqb_ne, Bool-cases,
}
use tweaking_pintos.Prelude.Bits.{bit, masked_test}
use tweaking_pintos.Prelude.Words.{minus_one}
use tweaking_pintos.Kernel.{Thread, Kernel, null, update, sig_ublock, sig_usr, sig_kill}
use tweaking_pintos.Kernel.Exec.{ok, panic, bad_pointer, branch}
use tweaking_pintos.Kernel.Facts.{IsThread, Live, Runs, load-Live, load-null, current-Runs}
use tweaking_pintos.Signal.Pending.Laws.{posted, mallocs_left, post_lem}
use tweaking_pintos.Signal.Kill.{
  find_tid, validated_tid, parent_found, send_usr, send_kill, deliver, kill,
}
use tweaking_pintos.Signal.Kill.Ancestor.{Lineage, Ancestor, parent_found-Ancestor}

-- The thread at `p` is live and has another tid.
abbrev pub HasOther : Kernel → ℕ → ℕ → Type 0
HasOther k tid p = (t : Thread) × Live k p t × (t.tid ≢ tid)

-- `t`, at `p`, is the thread on the list with this tid.
pub record Target (k : Kernel) (tid : ℕ) (l : List ℕ) (p : ℕ) (t : Thread) : Type 0 where
  pub live : Live k p t
  pub named : t.tid ≡ tid
  pub listed : elem p l ≡ true
  pub search : find_tid tid l k ≡ ok p k

-- Over a list of live threads the search returns a thread of the list with the tid that is sought,
-- or NULL, and then every thread of the list has another tid.
pub find_tid_lem :
    (tid : ℕ) (l : List ℕ) (k : Kernel)
    → All (IsThread k) l
    → ((p : ℕ) × (t : Thread) × Target k tid l p t)
      ⊎ ((find_tid tid l k ≡ ok null k) × All (HasOther k tid) l)
unfolding find_tid branch
find_tid_lem tid [] k h = inr (refl, tt)
find_tid_lem tid (q ∷ qs) k ((t, live), h) = elim (Bool-cases (tid == t.tid)) [
  | inl same ↦ inl (
    q,
    t,
    record {
      live = live;
      named = ground arith;
      listed = ground arith;
      search = rw (load-Live live, same);
    },
  )
  | inr other ↦ elim (find_tid_lem tid qs k h) [
    | inl (p, u, target) ↦ inl (
      p,
      u,
      record {
        live = target.live;
        named = target.named;
        listed = ground (arith, target.listed);
        search = rw (load-Live live, other) target.search;
      },
    )
    | inr (missing, others) ↦
        inr (rw (load-Live live, other) missing, ((t, live, ground arith), others))
  ]
]

-- The state after a post of `signum` by the thread `c` to the thread `t` at `p`.
abbrev pub posted_to : Kernel → ℕ → Thread → Thread → ℕ → Kernel
posted_to k p t c signum = record k {
  mem =
      update k.mem p (some (record t { pending_signals = posted signum c.tid t.pending_signals }));
  mallocs = mallocs_left signum t.pending_signals k.mallocs;
}

true_or_false : {b : Bool} → b ≡ false → b ≡ true → ⊥
true_or_false f t = cc

-- If no thread on `all_list` has the tid, kill() returns -1, whatever the signal.
pub kill-unknown :
    (tid signum : ℕ) (k : Kernel)
    → find_tid tid k.all_list k ≡ ok null k
    → kill tid signum k ≡ ok minus_one k
unfolding kill validated_tid deliver branch
kill-unknown tid signum k h = rw h

module _ {tid p : ℕ} {k : Kernel} {t : Thread} (target : Target k tid k.all_list p t) where
  open target use {live, search}

  reach : (signum : ℕ) → kill tid signum k ≡ deliver p signum k
  unfolding kill validated_tid
  reach signum = rw search

  -- A number that is none of SIG_UBLOCK, SIG_USR and SIG_KILL is refused.
  pub kill-other :
      (signum : ℕ)
      → signum ≢ sig_ublock
      → signum ≢ sig_usr
      → signum ≢ sig_kill
      → kill tid signum k ≡ ok minus_one k
  unfolding deliver branch
  kill-other signum a b c = rw (
    reach,
    eqb_ne p null live.ne_null,
    load-Live live,
    eqb_ne signum sig_ublock a,
    eqb_ne signum sig_usr b,
    eqb_ne signum sig_kill c,
  )

  module _ {c : Thread} (runs : Runs k c) (memory : 0 < k.mallocs) where
    -- SIG_USR is refused if the target ignores it, and otherwise is made pending for the target.
    pub kill-usr :
        kill tid sig_usr k
        ≡ (if bit t.sigmask 3 == 1 then ok minus_one k else ok 0 (posted_to k p t c sig_usr))
    unfolding deliver branch send_usr
    kill-usr =
        rw
          (
            reach,
            eqb_ne p null live.ne_null,
            load-Live live,
            masked_test t.sigmask 3,
            post_lem p sig_usr runs live memory,
          )
          (ground arith)

    answered :
        (b : Bool)
        → parent_found (suc t.tid) c.tid p k ≡ ok b k
        → kill tid sig_kill k ≡ (if b then ok 0 (posted_to k p t c sig_kill) else ok minus_one k)
    unfolding deliver branch send_kill
    answered b walk =
        rw
          (
            reach,
            eqb_ne p null live.ne_null,
            load-Live live,
            current-Runs runs,
            walk,
            post_lem p sig_kill runs live memory,
          )
          (ground arith)

    -- Where the caller is the live, RUNNING current thread, the target is the live thread on all_list
    -- that the search for the tid finds, malloc() has memory for a signal (its result is used
    -- unchecked), and live parents with falling tids lead from the target to the thread with tid 1:
    -- the walk of SIG_KILL ends. If the caller is an ancestor of the target, the signal is made
    -- pending, that is, the first pending SIG_KILL names the caller as its sender, or a new one stands
    -- at the end of the list, and no other signal changes. If the caller is no ancestor, kill()
    -- returns -1 and changes nothing.
    pub kill-kill :
        Lineage k p
        → (Ancestor k c.tid p × (kill tid sig_kill k ≡ ok 0 (posted_to k p t c sig_kill)))
          ⊎ (¬ Ancestor k c.tid p × (kill tid sig_kill k ≡ ok minus_one k))
    kill-kill line =
        let (b, walk, answers) = parent_found-Ancestor (suc t.tid) c.tid line live (omega arith) in
        elim (Bool-cases b) [
          | inl granted ↦ inl (answers.0 granted, rw (answered b walk, granted))
          | inr refused ↦
              inr (λ a. true_or_false refused (answers.1 a), rw (answered b walk, refused))
        ]

  -- The thread with tid 1 has no parent, and SIG_KILL to it follows the NULL.
  pub kill-initial :
      {c : Thread} → Runs k c → t.parent_thread ≡ null → kill tid sig_kill k ≡ panic bad_pointer
  unfolding deliver branch send_kill parent_found
  kill-initial runs orphan = rw (
    reach,
    eqb_ne p null live.ne_null,
    load-Live live,
    current-Runs runs,
    load-Live live,
    load-null t.parent_thread k orphan,
  )
