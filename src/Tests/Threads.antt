-- ===== src/Tests/Threads.antt =====
-- The thread functions on concrete states.
use tweaking_pintos.Prelude.{ℕ, ◌≡◌, refl, true, false, All, [], ◌∷◌, some, arith}
use tweaking_pintos.Kernel.{
  running, ready, blocked, dying, in_exit, in_block, in_yield, Thread, Kernel, sig_chld, sig_usr,
  update,
}
use tweaking_pintos.Kernel.Exec.{ok, ◌>>=◌, load, store, thread_current}
use tweaking_pintos.Thread.Fields.{
  thread_tid, thread_name, thread_get_priority, thread_set_priority,
}
use tweaking_pintos.Kernel.Facts.{Live, Runs, IsThread}
use tweaking_pintos.Signal.Pending.{signal}
use tweaking_pintos.Thread.Create.{thread_create}
use tweaking_pintos.Thread.Exit.Laws.{Family, gone}
use tweaking_pintos.Thread.Schedule.Last.{thread_exit-IsLeaving}
use tweaking_pintos.Thread.Create.Laws.{IsFresh, newborn, grown, thread_create_lem}
use tweaking_pintos.Thread.Tick.{thread_tick, setlifetime}
use tweaking_pintos.Thread.Tick.Laws.{AfterTick, thread_tick_lem}
use tweaking_pintos.Thread.Schedule.{switch, schedule, thread_yield, thread_block, thread_exit}
use tweaking_pintos.Thread.Schedule.Deliver.{goes_on, run_pending}
use tweaking_pintos.Thread.Schedule.Deliver.Pending.{settled, run_pending_lem}
use tweaking_pintos.Thread.Schedule.Switch.{QueueIsReady, IsLeaving, after}
use tweaking_pintos.Thread.Schedule.Invariant.{AfterSwitch, switch-AfterSwitch}
use tweaking_pintos.Thread.Schedule.Callers.{
  IsSound, thread_yield-IsLeaving, thread_block-IsLeaving,
}
use tweaking_pintos.Tests.Machine.{main_thread, idle_thread, shell, job, memory, machine}

main-Live : Live machine 10 main_thread
main-Live = record { ne_null = λ e. omega arith; holds = refl }

idle-Live : Live machine 20 idle_thread
idle-Live = record { ne_null = λ e. omega arith; holds = refl }

shell-Runs : Runs machine shell
shell-Runs = record { live = record { ne_null = λ e. omega arith; holds = refl }; status = refl }

job-Live : Live machine 40 job
job-Live = record { ne_null = λ e. omega arith; holds = refl }

-- In an interrupt, at the end of a time slice.
abbrev ticking : Kernel
ticking = record machine { intr_context = true; thread_ticks = 3; all_list = 10 ∷ 40 ∷ [] }

ticking-Runs : Runs ticking shell
ticking-Runs = record { live = record { ne_null = λ e. omega arith; holds = refl }; status = refl }

ticking_threads : All (IsThread ticking) ticking.all_list
ticking_threads = (
  (main_thread, record { ne_null = λ e. omega arith; holds = refl }),
  ((job, record { ne_null = λ e. omega arith; holds = refl }), tt),
)

thread_tick_example : (k' : Kernel) × (thread_tick ticking ≡ ok tt k') × AfterTick ticking k'
thread_tick_example = thread_tick_lem ticking-Runs ticking_threads (refl, (refl, tt)) refl

abbrev waking : Kernel
waking = record machine { unblock_list = 40 ∷ [] }

run_pending_example :
    run_pending (signal sig_chld 4 ∷ signal sig_usr 1 ∷ []) machine
    ≡ ok goes_on (settled machine (signal sig_chld 4 ∷ signal sig_usr 1 ∷ []) shell)
run_pending_example =
    run_pending_lem (signal sig_chld 4 ∷ signal sig_usr 1 ∷ []) shell-Runs refl
      (λ e. omega arith, (λ e. omega arith, tt))

only_shell : (p : ℕ) (t : Thread) → Live machine p t → t.status ≡ running → p ≡ 30
only_shell p t live r = ground (arith, live.holds, r)

main_at : (p : ℕ) → p ≡ 10 → Live machine p main_thread
main_at p e = rw e main-Live

machine_queue : QueueIsReady machine
machine_queue = record {
  distinct = (refl, tt);
  ready = λ p e. (main_thread, main_at p (ground (arith, e)), refl);
}

machine_sound : IsSound machine
machine_sound = record {
  one = record { runs = (shell, shell-Runs.live, refl); only = only_shell };
  queue = machine_queue;
  idle = (idle_thread, idle-Live, refl);
}

abbrev blocked_shell : Thread
blocked_shell = record shell { status = blocked }

abbrev yielding_shell : Thread
yielding_shell = record shell { status = ready }

-- The shell has called thread_block(), or thread_yield(), and calls schedule().
abbrev leaving : Kernel
leaving = record machine { intr_on = false; mem = update memory 30 (some blocked_shell) }

abbrev yielding : Kernel
yielding = record machine {
  intr_on = false;
  ready_list = 10 ∷ 30 ∷ [];
  mem = update memory 30 (some yielding_shell);
}

block_run : (thread_block 1 machine ≡ schedule 1 in_block leaving) × IsLeaving leaving blocked_shell
unfolding machine_sound
block_run = thread_block-IsLeaving machine_sound 1 refl refl

thread_block_example :
    (thread_block 1 machine ≡ schedule 1 in_block leaving) × IsLeaving leaving blocked_shell
unfolding machine_sound
thread_block_example = thread_block-IsLeaving machine_sound 1 refl refl

thread_yield_example :
    (thread_yield 1 machine ≡ schedule 1 (in_yield false) yielding)
    × IsLeaving yielding yielding_shell
unfolding machine_sound
thread_yield_example = thread_yield-IsLeaving machine_sound 1 refl

switch_example :
    (to : _) × (k' : Kernel) × (switch in_block leaving ≡ ok to k')
    × AfterSwitch in_block leaving blocked_shell k'
switch_example = switch-AfterSwitch in_block block_run.1

-- A child of main has died and the job is to be unblocked when main runs again.
abbrev called_main : Thread
called_main = record main_thread { pending_signals = signal sig_chld 3 ∷ []; alive_children = 1 }

abbrev calling : Kernel
calling = record leaving {
  mem = update (update memory 10 (some called_main)) 30 (some blocked_shell);
  unblock_list = 40 ∷ [];
}

abbrev resumed_main : Thread
resumed_main = record called_main { status = running }

abbrev resumed : Kernel
resumed = after calling blocked_shell called_main 10 in_block

shell-IsFresh : IsFresh machine shell 50
shell-IsFresh = record {
  ne_null = λ e. omega arith;
  ne_current = λ e. omega arith;
  off_all = refl;
  off_queue = refl;
  off_children = refl;
}

thread_create_example :
    thread_create (some 50) [] 31 machine
    ≡ ok 5 (record machine {
      mem = update (update memory 30 (some (grown shell 50))) 50 (some (newborn machine [] 31));
      all_list = 10 ∷ 20 ∷ 30 ∷ 40 ∷ 50 ∷ [];
      ready_list = 10 ∷ 50 ∷ [];
      next_tid = 6;
    })
thread_create_example =
    thread_create_lem 50 [] 31 shell-Runs shell-IsFresh (omega arith) (omega arith)

shell-Family : Family machine shell main_thread
shell-Family = record {
  parent = main-Live;
  apart = λ e. omega arith;
  children = ((job, job-Live), tt);
  off_parent = refl;
  off_self = refl;
  siblings = (refl, (refl, tt));
}

thread_exit_example :
    (thread_exit 1 machine ≡ schedule 1 in_exit (gone shell-Runs shell-Family))
    × IsLeaving (gone shell-Runs shell-Family) (record shell { status = dying })
thread_exit_example =
    thread_exit-IsLeaving machine_sound shell-Runs shell-Family 1 (omega arith) (λ e. omega arith)
      (λ e. omega arith) (omega arith) refl

-- What the shell reads of itself, and what it reads back after it has set its priority.
thread_tid_run : thread_tid machine ≡ ok 3 machine
unfolding thread_tid thread_current load
thread_tid_run = refl

thread_name_run : thread_name machine ≡ ok [] machine
unfolding thread_name thread_current load
thread_name_run = refl

priority_run :
    (thread_set_priority 7 >>= λ _. thread_get_priority) machine
    ≡ ok 7 (record machine { mem = update memory 30 (some (record shell { priority = 7 })) })
unfolding thread_set_priority thread_get_priority thread_current load store
priority_run = refl

-- A lifetime that the shell sets is in force.
setlifetime_run :
    setlifetime 9 machine
    ≡ ok tt
        (record machine { mem = update memory 30 (some (record shell { thread_life_time = 9 })) })
unfolding setlifetime thread_current load store
setlifetime_run = refl
