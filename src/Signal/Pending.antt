-- ===== src/Signal/Pending.antt =====
-- The list of signals that wait for a thread, with the loop that kill() and thread_exit() both run
-- over it: a signal that is pending already gets a new sender, any other is allocated and appended.
pub mod Laws
use tweaking_pintos.Prelude.{
  ℕ, Bool, true, false, List, [], ◌∷◌, ◌++◌, Option, none, some, ◌==◌, if◌then◌else◌,
}
use tweaking_pintos.Kernel.{Signal, Thread, Kernel}
use tweaking_pintos.Kernel.Exec.{
  M, stop, bad_pointer, ◌>>=◌, ◌>>◌, load, store, malloc, thread_current,
}

abbrev pub signal : ℕ → ℕ → Signal
signal signum sender = record { signum = signum; sender = sender }

-- The loop. `none`: it ran to the end of the list and found no signal with this number.
unfoldable pub resend : (signum sender : ℕ) → List Signal → Option (List Signal)
resend signum sender [] = none
resend signum sender (s ∷ ss) =
    if s.signum == signum
    then some (signal s.signum sender ∷ ss)
    else elim (resend signum sender ss) [ none ↦ none | some ss' ↦ some (s ∷ ss') ]

-- malloc() of a signal, whose result is used unchecked, and list_push_back().
append_signal : (target signum sender : ℕ) → Thread → Bool → M (Unit {0})
append_signal target signum sender t true =
    store target (record t { pending_signals = t.pending_signals ++ (signal signum sender ∷ []) })
append_signal target signum sender t false = stop bad_pointer

post_after : (target signum sender : ℕ) → Thread → Option (List Signal) → M (Unit {0})
post_after target signum sender t (some ss) = store target (record t { pending_signals = ss })
post_after target signum sender t none = malloc >>= append_signal target signum sender t

unfoldable pub post : (target signum : ℕ) → M (Unit {0})
unfolding append_signal post_after
post target signum = do
  cur ← thread_current
  t ← load target
  post_after target signum cur.tid t (resend signum cur.tid t.pending_signals)
