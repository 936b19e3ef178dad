-- ===== src/Thread/Schedule/Deliver/Pending.antt =====
-- What the pending signals of a thread do to it when it runs again.
use tweaking_pintos.Prelude.{
  ℕ, ◌+◌, ◌-◌, ◌%◌, ◌^◌, ◌≡◌, ◌≢◌, ◌∙◌, true, false, List, [], ◌∷◌, ◌++◌, some, All, append-nil,
  append_assoc, ◌==◌, if◌then◌else◌, eqb_ne, eqb_refl, Bool-cases, inl, inr,
}
use tweaking_pintos.Kernel.{
  Signal, Thread, Kernel, Line, chld_line, kill_line, usr_line, sig_chld, sig_usr, sig_kill, update,
}
use tweaking_pintos.Kernel.Exec.{ok, branch, store, print, can_print}
use tweaking_pintos.Kernel.Facts.{Live, Runs, load-Live, current-Runs, update-update, update_same}
use tweaking_pintos.Thread.Schedule.Deliver.{
  goes_on, exits, chld_handler, kill_handler, usr_handler, handle, keep_pending, run_pending,
}

abbrev pub fewer : ℕ → ℕ
fewer n = (n + 2 ^ 32 - 1) % 2 ^ 32

-- The thread after a signal that is not SIG_KILL, of which `ss` are left, and what is printed.
abbrev pub absorb : Signal → List Signal → Thread → Thread
absorb s ss t = record t {
  alive_children = if s.signum == sig_chld then fewer t.alive_children else t.alive_children;
  pending_signals = ss;
}

abbrev says : Signal → Thread → List Line
says s t =
    if s.signum == sig_chld
    then chld_line s.sender t.tid t.total_children (fewer t.alive_children) ∷ []
    else if s.signum == sig_usr
    then usr_line s.sender t.tid ∷ []
    else []

-- The same for a list of signals, in order.
abbrev pub settle : List Signal → Thread → Thread
settle [] t = t
settle (s ∷ ss) t = settle ss (absorb s ss t)

abbrev pub transcript : List Signal → Thread → List Line
transcript [] t = []
transcript (s ∷ ss) t = says s t ++ transcript ss (absorb s ss t)

abbrev pub settled : Kernel → List Signal → Thread → Kernel
settled k ss t = record k {
  mem = update k.mem k.current (some (settle ss t));
  console = k.console ++ transcript ss t;
}

module _ {k : Kernel} {c : Thread} (runs : Runs k c) (free : can_print k ≡ true) (s : Signal)
    (ss : List Signal) where
  abbrev one : Kernel
  one = record k {
    mem = update k.mem k.current (some (absorb s ss c));
    console = k.console ++ says s c;
  }

  one-Runs : Runs one (absorb s ss c)
  one-Runs = record {
    live = record { ne_null = runs.live.ne_null; holds = rw (eqb_refl k.current) };
    status = runs.status;
  }

  -- The thread and the state between the handler and the removal of the signal.
  abbrev half : Thread
  half = record c {
    alive_children = if s.signum == sig_chld then fewer c.alive_children else c.alive_children;
  }

  abbrev handled : Kernel
  handled = record k { mem = update k.mem k.current (some half); console = k.console ++ says s c }

  handle_chld : (s.signum == sig_chld) ≡ true → handle s k ≡ ok goes_on handled
  unfolding handle branch chld_handler store print
  handle_chld e = rw (e, current-Runs runs) (rw free)

  handle_usr :
      (s.signum == sig_chld) ≡ false
      → (s.signum == sig_usr) ≡ true
      → handle s k ≡ ok goes_on handled
  unfolding handle branch usr_handler store print
  handle_usr e e' =
      rw (e, e', current-Runs runs)
        (rw (free, update_same k.mem k.current (some c) runs.live.holds))

  handle_none :
      (s.signum == sig_chld) ≡ false
      → (s.signum == sig_usr) ≡ false
      → (s.signum == sig_kill) ≡ false
      → handle s k ≡ ok goes_on handled
  unfolding handle branch store
  handle_none e e' e'' =
      rw (e, e', e'', update_same k.mem k.current (some c) runs.live.holds, append-nil)

  handle_mild : s.signum ≢ sig_kill → handle s k ≡ ok goes_on handled
  handle_mild mild = elim (Bool-cases (s.signum == sig_chld)) [
    | inl chld ↦ handle_chld chld
    | inr e ↦ elim (Bool-cases (s.signum == sig_usr)) [
      | inl usr ↦ handle_usr e usr
      | inr e' ↦ handle_none e e' (eqb_ne s.signum sig_kill mild)
    ]
  ]

  keep_lem : keep_pending ss handled ≡ ok tt one
  unfolding keep_pending store
  keep_lem = rw (load-Live {k = handled} {t = half} there, update-update)
    where
      there : Live handled k.current half
      there = record { ne_null = runs.live.ne_null; holds = rw (eqb_refl k.current) }

  step : s.signum ≢ sig_kill → run_pending (s ∷ ss) k ≡ run_pending ss one
  unfolding run_pending
  step mild = rw (handle_mild mild, keep_lem)

  stop :
      s.signum ≡ sig_kill
      → run_pending (s ∷ ss) k
        ≡ ok exits (record k { console = k.console ++ (kill_line s.sender c.tid ∷ []) })
  unfolding run_pending handle branch kill_handler print
  stop e = rw (e, current-Runs runs) (rw free)

-- Where printf() in the handlers need not wait, the console lock being free or the thread's own (if it
-- waits, schedule() is entered again with the signal still pending, which the model does not follow):
-- without a SIG_KILL among them the pending signals are all handled, in order, each is taken off the
-- list, each SIG_CHLD takes one from alive_children, what the handlers print is printed, and the
-- thread goes on.
pub run_pending_lem :
    (ss : List Signal) {k : Kernel} {c : Thread}
    → Runs k c
    → can_print k ≡ true
    → All (λ (s : Signal). s.signum ≢ sig_kill) ss
    → run_pending ss k ≡ ok goes_on (settled k ss c)
unfolding run_pending
run_pending_lem [] {k} {c} runs free mild =
    rw (update_same k.mem k.current (some c) runs.live.holds, append-nil)
run_pending_lem (s ∷ ss) {k} {c} runs free (m, mild) =
    step runs free s ss m
    ∙ run_pending_lem ss (one-Runs runs free s ss) free mild
    ∙ rw (update-update, append_assoc)
