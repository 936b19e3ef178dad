-- ===== src/Synch/Progress.antt =====
-- The progress of threads that use one lock: the steps they can take, and waking.
use tweaking_pintos.Prelude.{
  ℕ, ◌+◌, ◌%◌, ◌^◌, ◌≡◌, ◌≢◌, ◌<◌, refl, subst, Bool, true, false, List, [], ◌∷◌, some, arith, ◌==◌,
  Bool-cases, inl, inr, ◌⊎◌, All, All-append,
}
use tweaking_pintos.Prelude.Partial.{some_injective}
use tweaking_pintos.Synch.{
  Point, outside, asleep, woken, passed, inside, leaving, System, step_at, down, go_to, wake, front,
  rest, sema_down, sema_up,
}
use tweaking_pintos.Synch.Exclusion.{
  critical, is_inside, Run, start, step, IsExclusive, Run-IsExclusive, zero_value,
}

abbrev pub is_asleep : Point → Bool
is_asleep asleep = true
is_asleep _ = false

abbrev pub is_woken : Point → Bool
is_woken woken = true
is_woken _ = false

step_at-some :
    (p : Point) (t : ℕ) (y : System)
    → y.point t ≡ p
    → t ≢ 0
    → is_asleep p ≡ false
    → IsExclusive y
    → (y' : System) × (step_at p t y ≡ some y')
unfolding step_at
step_at-some outside t y e ne a x =
    let i : is_inside (y.point t) ≡ false = rw e in
    let free : (y.lock.holder == t) ≡ false = ground (arith, i, ne, x.holds) in (down t y, rw free)
step_at-some asleep t y e ne a x = absurd (cc a)
step_at-some woken t y e ne a x = (down t y, refl)
step_at-some passed t y e ne a x = (_, refl)
step_at-some inside t y e ne a x =
    let i : is_inside (y.point t) ≡ true = rw e in
    let mine : (y.lock.holder == t) ≡ true = ground (arith, x.held t i) in
    (record { lock = record (y.lock) { holder = 0 }; point = go_to t leaving y.point }, rw mine)
step_at-some leaving t y e ne a x = (_, refl)

-- In any interleaving of threads that acquire and release a lock, every thread that is not asleep
-- can take its next step: the ASSERTs of lock_acquire() and of lock_release() hold.
pub Run-step :
    (y : System) (t : ℕ)
    → Run y
    → t ≢ 0
    → is_asleep (y.point t) ≡ false
    → (y' : System) × (step_at (y.point t) t y ≡ some y') × Run y'
Run-step y t run ne a =
    let (y', e) = step_at-some (y.point t) t y refl ne a (Run-IsExclusive y run) in
    (y', e, step t run ne e)

-- A thread is between its sema_down() and its sema_up(), or the semaphore is above 0 and threads wait
-- only if one that was woken is about to try again.
pub record IsAwake (y : System) : Type 0 where
  pub threads : All (λ w. w ≢ 0) y.lock.semaphore.waiters
  pub awake :
      ((u : ℕ) × (critical (y.point u) ≡ true))
      ⊎ (0 < y.lock.semaphore.value
          × ((y.lock.semaphore.waiters ≡ []) ⊎ ((u : ℕ) × (is_woken (y.point u) ≡ true))))

-- A thread in the critical part stays there while another goes elsewhere.
stays_critical :
    (t : ℕ) (p : Point) (y : System)
    → critical (y.point t) ≡ false
    → (u : ℕ) × (critical (y.point u) ≡ true)
    → (u : ℕ) × (critical (go_to t p y.point u) ≡ true)
stays_critical t p y c (u, cu) = (u, ground (arith, c, cu))

down-IsAwake :
    (t : ℕ) (y : System) → t ≢ 0 → critical (y.point t) ≡ false → IsAwake y → IsAwake (down t y)
unfolding sema_down
down-IsAwake t y ne c a = elim (Bool-cases (y.lock.semaphore.value == 0)) [
  | inl z ↦ rw z (record {
    threads = All-append (λ w. w ≢ 0) y.lock.semaphore.waiters (t ∷ []) a.threads (ne, tt);
    awake = elim a.awake [
      | inl busy ↦ inl (stays_critical t asleep y c busy)
      | inr (free, _) ↦ absurd (ground (arith, z, free))
    ];
  })
  | inr one ↦ rw one (record { threads = a.threads; awake = inl (t, ground arith) })
]

up-IsAwake :
    (t : ℕ) (l : List ℕ) (v : ℕ) (y : System)
    → All (λ w. w ≢ 0) l
    → 0 < v
    → IsAwake (record {
      lock = record (y.lock) { semaphore = record { value = v; waiters = rest l } };
      point = wake (front l) (go_to t outside y.point);
    })
up-IsAwake t [] v y h pos = record { threads = tt; awake = inr (pos, inl refl) }
up-IsAwake t (w ∷ ws) v y (ne, h) pos = record {
  threads = h;
  awake = inr (pos, inr (w, ground (arith, ne)));
}

step-IsAwake :
    (p : Point) (t : ℕ) (y y' : System)
    → y.point t ≡ p
    → t ≢ 0
    → IsExclusive y
    → IsAwake y
    → step_at p t y ≡ some y'
    → IsAwake y'
unfolding step_at sema_up
step-IsAwake outside t y y' e ne x a r = elim (Bool-cases (y.lock.holder == t)) [
  | inl h ↦ absurd (cc (rw h at r))
  | inr h ↦ subst IsAwake (some_injective (down t y) y' (rw h at r)) (down-IsAwake t y ne (rw e) a)
]
step-IsAwake asleep t y y' e ne x a r = absurd (cc r)
step-IsAwake woken t y y' e ne x a r =
    subst IsAwake (some_injective (down t y) y' r) (down-IsAwake t y ne (rw e) a)
step-IsAwake passed t y y' e ne x a r =
    subst IsAwake (some_injective _ y' r)
      (record { threads = a.threads; awake = inl (t, ground arith) })
step-IsAwake inside t y y' e ne x a r = elim (Bool-cases (y.lock.holder == t)) [
  | inl h ↦
      subst IsAwake (some_injective _ y' (rw h at r))
        (record { threads = a.threads; awake = inl (t, ground arith) })
  | inr h ↦ absurd (cc (rw h at r))
]
step-IsAwake leaving t y y' e ne x a r = subst IsAwake (some_injective _ y' r) (
    up-IsAwake t y.lock.semaphore.waiters ((y.lock.semaphore.value + 1) % 2 ^ 32) y a.threads
      (omega (arith, zero_value t y (rw e) x)))

-- In any interleaving of threads that acquire and release a lock, from lock_init() on, no wake-up is
-- lost and no release: if no thread is between its sema_down() and its sema_up(), the semaphore is
-- above 0, so that the next sema_down() passes, and if threads wait then, one has been woken and is
-- about to try again.
pub Run-IsAwake : (y : System) → Run y → IsAwake y
Run-IsAwake y start = record { threads = tt; awake = inr (omega arith, inl refl) }
Run-IsAwake y (step {y = y0} t run ne r) =
    step-IsAwake (y0.point t) t y0 y refl ne (Run-IsExclusive y0 run) (Run-IsAwake y0 run) r
