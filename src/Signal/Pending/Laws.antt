-- ===== src/Signal/Pending/Laws.antt =====
-- A post leaves at most one signal of each kind, and replaces only the sender of its own kind.
use tweaking_pintos.Prelude.{
  ℕ, ◌+◌, ◌-◌, ◌<◌, ◌≡◌, refl, Bool, true, false, List, [], ◌∷◌, ◌++◌, Option, none, some, arith,
  ◌==◌, if◌then◌else◌, Option-cases, max, inl, inr,
}
use tweaking_pintos.Kernel.{Signal, Thread, Kernel, update}
use tweaking_pintos.Kernel.Exec.{ok, store}
use tweaking_pintos.Kernel.Facts.{Live, Runs, load-Live, current-Runs, malloc_some}
use tweaking_pintos.Signal.Pending.{signal, resend, append_signal, post_after, post}

-- How many signals of a kind are pending.
abbrev pub pending_count : ℕ → List Signal → ℕ
pending_count signum [] = 0
pending_count signum (s ∷ ss) = (if s.signum == signum then 1 else 0) + pending_count signum ss

-- The sender of the first pending signal of a kind.
abbrev pub sender_of : ℕ → List Signal → Option ℕ
sender_of signum [] = none
sender_of signum (s ∷ ss) = if s.signum == signum then some s.sender else sender_of signum ss

-- The list after a post: the first pending signal of the kind gets the new sender and all others stay
-- as they are, in their order; if there is none of the kind, a new one stands at the end.
abbrev pub posted : (signum sender : ℕ) → List Signal → List Signal
posted signum sender [] = signal signum sender ∷ []
posted signum sender (s ∷ ss) =
    let later = posted signum sender ss in
    if s.signum == signum then record s { sender = sender } ∷ ss else s ∷ later

abbrev finish : (signum sender : ℕ) → List Signal → Option (List Signal) → List Signal
finish signum sender l (some l') = l'
finish signum sender l none = l ++ (signal signum sender ∷ [])

-- The code's loop, with what follows it, does this.
finish-resend :
    (signum sender : ℕ) (l : List Signal)
    → finish signum sender l (resend signum sender l) ≡ posted signum sender l
unfolding resend
finish-resend signum sender [] = refl
finish-resend signum sender (s ∷ ss) = ground (arith, finish-resend signum sender ss)

-- After a post exactly one signal of the posted kind is pending if there was none, and as many as
-- before otherwise; the other kinds keep their number.
pub pending_count-posted :
    (signum sender : ℕ) (l : List Signal) (kind : ℕ)
    → pending_count kind (posted signum sender l)
      ≡ (if kind == signum then max 1 (pending_count kind l) else pending_count kind l)
pending_count-posted signum sender [] kind = ground arith
pending_count-posted signum sender (s ∷ ss) kind =
    ground (arith, pending_count-posted signum sender ss kind)

-- After a post the first pending signal of the posted kind names the new sender; the first of every
-- other kind keeps its sender.
pub sender_of-posted :
    (signum sender : ℕ) (l : List Signal) (kind : ℕ)
    → sender_of kind (posted signum sender l)
      ≡ (if kind == signum then some sender else sender_of kind l)
sender_of-posted signum sender [] kind = ground arith
sender_of-posted signum sender (s ∷ ss) kind =
    ground (arith, sender_of-posted signum sender ss kind)

-- malloc() calls that are left after a post.
abbrev pub mallocs_left : (signum : ℕ) → List Signal → ℕ → ℕ
mallocs_left signum l n = if pending_count signum l == 0 then n - 1 else n

abbrev missing {ℓ} : {A : Type ℓ} → Option A → Bool
missing none = true
missing (some _) = false

missing-resend :
    (signum sender : ℕ) (l : List Signal)
    → missing (resend signum sender l) ≡ (pending_count signum l == 0)
unfolding resend
missing-resend signum sender [] = refl
missing-resend signum sender (s ∷ ss) = ground (arith, missing-resend signum sender ss)

-- In a state where the caller runs and the target is live, and with memory for one more signal, a
-- post succeeds, and changes only the target's pending list and the memory that is left.
pub post_lem :
    (p signum : ℕ) {k : Kernel} {c t : Thread}
    → Runs k c
    → Live k p t
    → 0 < k.mallocs
    → post p signum k
      ≡ ok tt (record k {
        mem =
            update k.mem p
              (some (record t { pending_signals = posted signum c.tid t.pending_signals }));
        mallocs = mallocs_left signum t.pending_signals k.mallocs;
      })
unfolding post append_signal post_after store
post_lem p signum {k} {c} {t} r l m =
    rw (current-Runs r, load-Live l)
      (elim (Option-cases (resend signum c.tid t.pending_signals)) [
        | inl absent ↦
            rw (absent, malloc_some k m)
              (ground (
                arith,
                absent,
                missing-resend signum c.tid t.pending_signals,
                finish-resend signum c.tid t.pending_signals,
              ))
        | inr (l', present) ↦ rw present (
            ground (
              arith,
              present,
              missing-resend signum c.tid t.pending_signals,
              finish-resend signum c.tid t.pending_signals,
            ))
      ])
