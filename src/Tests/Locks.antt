-- ===== src/Tests/Locks.antt =====
-- Two threads, at 10 and 20, and one lock.
use tweaking_pintos.Prelude.{◌≡◌, refl, [], ◌∷◌, some, arith}
use tweaking_pintos.Synch.{System, lock_init, outside, asleep, passed, step_at, sema_down, go_to}
use tweaking_pintos.Synch.Exclusion.{Run, start, step, IsExclusive, Run-IsExclusive}
use tweaking_pintos.Synch.Progress.{IsAwake, Run-step, Run-IsAwake}

-- Thread 10 has passed sema_down().
abbrev one_passed : System
one_passed = record {
  lock = record { holder = 0; semaphore = record { value = 0; waiters = [] } };
  point = go_to 10 passed (λ _. outside);
}

-- Thread 20 sleeps.
abbrev one_asleep : System
one_asleep = record {
  lock = record { holder = 0; semaphore = record { value = 0; waiters = 20 ∷ [] } };
  point = go_to 20 asleep (go_to 10 passed (λ _. outside));
}

first_step :
    step_at outside 10 (record { lock = lock_init; point = λ _. outside }) ≡ some one_passed
unfolding step_at sema_down
first_step = refl

second_step : step_at outside 20 one_passed ≡ some one_asleep
unfolding step_at sema_down
second_step = refl

two_steps : Run one_asleep
two_steps = step 20 (step 10 start (omega arith) first_step) (omega arith) second_step

Run-IsExclusive_example : IsExclusive one_asleep
Run-IsExclusive_example = Run-IsExclusive one_asleep two_steps

Run-step_example : (y' : System) × (step_at (one_asleep.point 10) 10 one_asleep ≡ some y') × Run y'
Run-step_example = Run-step one_asleep 10 two_steps (omega arith) refl

Run-IsAwake_example : IsAwake one_asleep
Run-IsAwake_example = Run-IsAwake one_asleep two_steps
