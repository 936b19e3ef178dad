-- ===== src/Kernel/Facts.antt =====
-- What loads and thread_current() do in a state where the pointers are live.
use mathlib.Core.Path.{fun_ext}
use tweaking_pintos.Prelude.{
  Bool, false, not, Option, ==_iff, sym, ap, ◌∙◌, ℕ, ◌-◌, ◌<◌, ◌≡◌, ◌≢◌, true, some, List, [], ◌∷◌,
  All, Bool-cases, inl, inr, ◌==◌, arith, eqb_ne,
}
use tweaking_pintos.Kernel.{Thread, Kernel, running, null, update}
use tweaking_pintos.Kernel.Exec.{assert, ok, panic, bad_pointer, load, malloc, thread_current}

-- `p` points to the live thread `t`.
pub record Live (k : Kernel) (p : ℕ) (t : Thread) : Type 0 where
  pub ne_null : p ≢ null
  pub holds : k.mem p ≡ some t

-- `c` is the thread that runs.
pub record Runs (k : Kernel) (c : Thread) : Type 0 where
  pub live : Live k k.current c
  pub status : c.status ≡ running

pub load-Live : {k : Kernel} {p : ℕ} {t : Thread} → Live k p t → load p k ≡ ok t k
unfolding load
load-Live {k} {p} l = rw (eqb_ne p null l.ne_null, l.holds)

pub current-Runs : {k : Kernel} {c : Thread} → Runs k c → thread_current k ≡ ok c k
unfolding thread_current
current-Runs r = rw (load-Live r.live, r.status)

pub malloc_some :
    (k : Kernel) → 0 < k.mallocs → malloc k ≡ ok true (record k { mallocs = k.mallocs - 1 })
unfolding malloc
malloc_some k h = ground arith

pub load-null : (p : ℕ) (k : Kernel) → p ≡ null → load p k ≡ panic bad_pointer
unfolding load
load-null p k e = rw e

abbrev pub IsThread : Kernel → ℕ → Type 0
IsThread k p = (t : Thread) × Live k p t

-- A write of a thread keeps the others live.
pub keep_live :
    (l : List ℕ) (k : Kernel) (p : ℕ) (u : Thread)
    → All (IsThread k) l
    → All (IsThread (record k { mem = update k.mem p (some u) })) l
keep_live [] k p u h = tt
keep_live (q ∷ qs) k p u ((t, live), h) = elim (Bool-cases (p == q)) [
  | inl same ↦ ((u, record { ne_null = live.ne_null; holds = rw same }), keep_live qs k p u h)
  | inr other ↦
      ((t, record { ne_null = live.ne_null; holds = rw other live.holds }), keep_live qs k p u h)
]

-- Being live depends on the memory alone.
pub Live-mem : {k k' : Kernel} {p : ℕ} {t : Thread} → k'.mem ≡ k.mem → Live k p t → Live k' p t
Live-mem e live = record { ne_null = live.ne_null; holds = rw e live.holds }

pub All-IsThread-mem :
    (l : List ℕ) (k k' : Kernel) → k'.mem ≡ k.mem → All (IsThread k) l → All (IsThread k') l
All-IsThread-mem [] k k' e h = tt
All-IsThread-mem (q ∷ qs) k k' e ((t, live), h) =
    ((t, Live-mem e live), All-IsThread-mem qs k k' e h)

-- Two writes of one page are the second; a write of what stands there is none.
pub update-update :
    (m : ℕ → Option Thread) (p : ℕ) (v w : Option Thread) → update (update m p v) p w ≡ update m p w
update-update m p v w = fun_ext λ q. ground arith

pub update_same : (m : ℕ → Option Thread) (p : ℕ) (v : Option Thread) → m p ≡ v → update m p v ≡ m
update_same m p v e = fun_ext λ q. elim (Bool-cases (p == q)) [
  | inl same ↦ rw same (sym e ∙ ap m ((==_iff p q).0 same))
  | inr other ↦ rw other
]

pub assert_off : (b : Bool) (k : Kernel) → b ≡ false → assert (not b) k ≡ ok tt k
assert_off b k e = rw e

-- The last write at an address counts, also with another write between.
pub update_again :
    (m : ℕ → Option Thread) (p q : ℕ) (v w u : Option Thread)
    → update (update (update m p v) q w) p u ≡ update (update m q w) p u
update_again m p q v w u = fun_ext λ a. ground arith
