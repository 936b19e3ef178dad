-- ===== src/Synch/Exclusion.antt =====
-- Any interleaving of threads that acquire and release one lock.
use tweaking_pintos.Prelude.{
  ℕ, ◌+◌, ◌%◌, ◌^◌, ◌≤◌, ◌<◌, ◌≡◌, ◌≢◌, refl, subst, Bool, true, false, List, some, arith, ◌==◌,
  Bool-cases, inl, inr,
}
use tweaking_pintos.Prelude.Partial.{some_injective}
use tweaking_pintos.Synch.{
  lock_init, Point, outside, asleep, woken, passed, inside, leaving, System, step_at, down, go_to,
  wake, front, rest, sema_down, sema_up,
}

-- The threads between sema_down() and sema_up().
abbrev pub critical : Point → Bool
critical passed = true
critical inside = true
critical leaving = true
critical _ = false

abbrev pub is_inside : Point → Bool
is_inside inside = true
is_inside _ = false

pub data Run : System → Type 0 where
  start : Run (record { lock = lock_init; point = λ _. outside })
  step :
      {y y' : System} (thread : ℕ)
      → Run y
      → thread ≢ 0
      → step_at (y.point thread) thread y ≡ some y'
      → Run y'

-- The semaphore of the lock is 1 or 0; at 1 no thread is between sema_down() and sema_up(), and there
-- is never more than one; the holder is that thread, between setting and clearing the field.
pub record IsExclusive (y : System) : Type 0 where
  pub binary : y.lock.semaphore.value ≤ 1
  pub free : (t : ℕ) → 0 < y.lock.semaphore.value → critical (y.point t) ≡ false
  pub only : (t u : ℕ) → critical (y.point t) ≡ true → critical (y.point u) ≡ true → t ≡ u
  pub held : (t : ℕ) → is_inside (y.point t) ≡ true → y.lock.holder ≡ t
  pub holds : y.lock.holder ≢ 0 → is_inside (y.point y.lock.holder) ≡ true

-- sema_down() outside of the critical part.
down-IsExclusive :
    (t : ℕ) (y : System)
    → critical (y.point t) ≡ false
    → is_inside (y.point t) ≡ false
    → IsExclusive y
    → IsExclusive (down t y)
unfolding sema_down
down-IsExclusive t y c i x = elim (Bool-cases (y.lock.semaphore.value == 0)) [
  | inl z ↦ rw z (record {
    binary = x.binary;
    free = λ u p. absurd (ground (arith, z, p));
    only = λ u v cu cv. ground (arith, cu, cv, x.only u v);
    held = λ u iu. ground (arith, iu, x.held u);
    holds = λ h. ground (arith, h, x.holds h, i);
  })
  | inr one ↦ rw one (record {
    binary = omega (arith, x.binary);
    free = λ u p. absurd (ground (arith, p, one, x.binary));
    only = λ u v cu cv. ground (arith, cu, cv, one, x.free u, x.free v);
    held = λ u iu. ground (arith, iu, x.held u);
    holds = λ h. ground (arith, h, x.holds h, i);
  })
]

-- The other steps, of the one thread in the critical part: the semaphore is 0.
pub zero_value :
    (t : ℕ) (y : System) → critical (y.point t) ≡ true → IsExclusive y → y.lock.semaphore.value ≡ 0
zero_value t y c x = ground (arith, c, x.free t)

inside-critical : (p : Point) → is_inside p ≡ true → critical p ≡ true
inside-critical outside e = cc e
inside-critical asleep e = cc e
inside-critical woken e = cc e
inside-critical passed e = refl
inside-critical inside e = refl
inside-critical leaving e = refl

-- No other thread is inside.
not_inside :
    (t u : ℕ) (y : System)
    → critical (y.point t) ≡ true
    → IsExclusive y
    → is_inside (y.point u) ≡ true
    → u ≡ t
not_inside t u y c x i = x.only u t (inside-critical (y.point u) i) c

passed-IsExclusive :
    (t : ℕ) (y : System)
    → t ≢ 0
    → y.point t ≡ passed
    → IsExclusive y
    → IsExclusive (record { lock = record (y.lock) { holder = t }; point = go_to t inside y.point })
passed-IsExclusive t y ne e x =
    let c : critical (y.point t) ≡ true = rw e in
    let z = zero_value t y c x in
    record {
      binary = x.binary;
      free = λ u p. absurd (omega (arith, z, p));
      only = λ u v cu cv. ground (arith, cu, cv, c, x.only u v, x.only t u, x.only t v);
      held = λ u iu. ground (arith, iu, not_inside t u y c x);
      holds = λ h. ground arith;
    }

inside-IsExclusive :
    (t : ℕ) (y : System)
    → y.point t ≡ inside
    → IsExclusive y
    → IsExclusive
        (record { lock = record (y.lock) { holder = 0 }; point = go_to t leaving y.point })
inside-IsExclusive t y e x =
    let c : critical (y.point t) ≡ true = rw e in
    let z = zero_value t y c x in
    record {
      binary = x.binary;
      free = λ u p. absurd (omega (arith, z, p));
      only = λ u v cu cv. ground (arith, cu, cv, c, x.only u v, x.only t u, x.only t v);
      held = λ u iu. absurd (ground (arith, iu, not_inside t u y c x));
      holds = λ h. absurd (h refl);
    }

leaving-IsExclusive :
    (t w : ℕ) (l : List ℕ) (y : System)
    → y.point t ≡ leaving
    → IsExclusive y
    → IsExclusive (record {
      lock = record (y.lock) {
        semaphore = record { value = (y.lock.semaphore.value + 1) % 2 ^ 32; waiters = l };
      };
      point = wake w (go_to t outside y.point);
    })
leaving-IsExclusive t w l y e x =
    let c : critical (y.point t) ≡ true = rw e in
    let i : is_inside (y.point t) ≡ false = rw e in
    let z = zero_value t y c x in
    let nobody : (u : ℕ) → critical (wake w (go_to t outside y.point) u) ≡ false =
      λ u. ground (arith, c, x.only u t) in
    record {
      binary = omega (arith, z);
      free = λ u p. nobody u;
      only = λ u v cu cv. ground (arith, cu, nobody u);
      held = λ u iu.
          absurd
            (ground (arith, nobody u, inside-critical (wake w (go_to t outside y.point) u) iu));
      holds =
          λ h. absurd (ground (arith, x.holds h, i, not_inside t y.lock.holder y c x (x.holds h)));
    }

step-IsExclusive :
    (p : Point) (t : ℕ) (y y' : System)
    → y.point t ≡ p
    → t ≢ 0
    → IsExclusive y
    → step_at p t y ≡ some y'
    → IsExclusive y'
unfolding step_at sema_up
step-IsExclusive outside t y y' e ne x r = elim (Bool-cases (y.lock.holder == t)) [
  | inl h ↦ absurd (cc (rw h at r))
  | inr h ↦
      subst IsExclusive (some_injective (down t y) y' (rw h at r))
        (down-IsExclusive t y (rw e) (rw e) x)
]
step-IsExclusive asleep t y y' e ne x r = absurd (cc r)
step-IsExclusive woken t y y' e ne x r =
    subst IsExclusive (some_injective (down t y) y' r) (down-IsExclusive t y (rw e) (rw e) x)
step-IsExclusive passed t y y' e ne x r =
    subst IsExclusive (some_injective _ y' r) (passed-IsExclusive t y ne e x)
step-IsExclusive inside t y y' e ne x r = elim (Bool-cases (y.lock.holder == t)) [
  | inl h ↦ subst IsExclusive (some_injective _ y' (rw h at r)) (inside-IsExclusive t y e x)
  | inr h ↦ absurd (cc (rw h at r))
]
step-IsExclusive leaving t y y' e ne x r =
    let l : List ℕ = y.lock.semaphore.waiters in
    subst IsExclusive (some_injective _ y' r) (leaving-IsExclusive t (front l) (rest l) y e x)

-- Let any number of threads acquire and release a lock, in any interleaving of their steps from
-- lock_init() on: the value of its semaphore is 0 or 1; at most one thread is between its sema_down()
-- and its sema_up(), and none if the value is 1; and the holder is the thread that has set itself as
-- holder and has not yet called lock_release(), if there is one, and NULL otherwise.
pub Run-IsExclusive : (y : System) → Run y → IsExclusive y
Run-IsExclusive y start = record {
  binary = omega arith;
  free = λ t p. refl;
  only = λ t u ct cu. cc ct;
  held = λ t i. cc i;
  holds = λ h. absurd (h refl);
}
Run-IsExclusive y (step {y = y0} t run ne r) =
    step-IsExclusive (y0.point t) t y0 y refl ne (Run-IsExclusive y0 run) r
