-- ===== src/Kernel/Ensures.antt =====
-- Partial correctness of commands: what holds of the value and the state if a run returns.
use tweaking_pintos.Prelude.{
  ℕ, Bool, true, false, ◌≡◌, refl, some, none, ◌==◌, Bool-cases, inl, inr, Option, ◌∙◌,
}
use tweaking_pintos.Kernel.{Thread, Kernel, null}
use tweaking_pintos.Kernel.Exec.{
  Fault, Result, ok, panic, M, and_then, branch, found, assert, is_running, load, thread_current,
}

pub data Ensures {ℓ} {A : Type ℓ} (P : A → Kernel → Type ℓ) : Result A → Type ℓ where
  returns : {a : A} {k : Kernel} → P a k → Ensures P (ok a k)
  stops : {e : Fault} → Ensures P (panic e)

module _ {A : Type 0} {P : A → Kernel → Type 0} where
  pub ensured : {a : A} {k : Kernel} → Ensures P (ok a k) → P a k
  ensured (returns h) = h

  pub bind :
      {B : Type 0} {Q : B → Kernel → Type 0} {r : Result A} (f : A → M B)
      → Ensures P r
      → ((a : A) (k : Kernel) → P a k → Ensures Q (f a k))
      → Ensures Q (and_then r f)
  bind f (returns h) next = next _ _ h
  bind f stops next = stops

  pub both :
      (b : Bool) (m n : M A) (k : Kernel)
      → (b ≡ true → Ensures P (m k))
      → (b ≡ false → Ensures P (n k))
      → Ensures P (branch b m n k)
  unfolding branch
  both true m n k hm hn = hm refl
  both false m n k hm hn = hn refl

-- The command left the state alone.
abbrev pub Same : {A : Type 0} → Kernel → A → Kernel → Type 0
Same k a k' = k' ≡ k

found-Same : (o : Option Thread) (k : Kernel) → Ensures (Same k) (found o k)
found-Same none k = stops
found-Same (some t) k = returns refl

pub load-Same : (p : ℕ) (k : Kernel) → Ensures (Same k) (load p k)
unfolding load
load-Same p k = elim (Bool-cases (p == null)) [
  | inl e ↦ rw e stops
  | inr e ↦ rw e (found-Same (k.mem p) k)
]

assert-Same : (b : Bool) (k : Kernel) → Ensures (Same k) (assert b k)
assert-Same true k = returns refl
assert-Same false k = stops

pub thread_current-Same : (k : Kernel) → Ensures (Same k) (thread_current k)
unfolding thread_current
thread_current-Same k =
    bind _ (load-Same k.current k)
      λ t k' e. bind _ (assert-Same (is_running t.status) k') λ _ k'' e'. returns (e' ∙ e)
