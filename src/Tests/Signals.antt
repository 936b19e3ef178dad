-- ===== src/Tests/Signals.antt =====
-- The signal functions on concrete states.
use tweaking_pintos.Prelude.{◌≡◌, ◌↔◌, refl, Bool, true, ◌⊎◌, arith}
use tweaking_pintos.Prelude.Words.{minus_one}
use tweaking_pintos.Kernel.{sig_usr, sig_kill}
use tweaking_pintos.Kernel.Exec.{ok, branch, load}
use tweaking_pintos.Kernel.Facts.{Live, Runs}
use tweaking_pintos.Signal.Kill.{find_tid, parent_found, kill}
use tweaking_pintos.Signal.Kill.Ancestor.{Lineage, last, link, Ancestor, parent_found-Ancestor}
use tweaking_pintos.Signal.Kill.Effects.{Target, posted_to, kill-unknown, kill-kill}
use tweaking_pintos.Signal.Kill.Errors.{kill-Atomic}
use tweaking_pintos.Tests.Machine.{main_thread, shell, job, machine}

shell-Runs : Runs machine shell
shell-Runs = record { live = record { ne_null = λ e. omega arith; holds = refl }; status = refl }

main-Live : Live machine 10 main_thread
main-Live = record { ne_null = λ e. omega arith; holds = refl }

shell-Live : Live machine 30 shell
shell-Live = record { ne_null = λ e. omega arith; holds = refl }

job-Live : Live machine 40 job
job-Live = record { ne_null = λ e. omega arith; holds = refl }

job-Target : Target machine 4 machine.all_list 40 job
unfolding find_tid branch load
job-Target = record { live = job-Live; named = refl; listed = refl; search = refl }

main-Target : Target machine 1 machine.all_list 10 main_thread
unfolding find_tid branch load
main-Target = record { live = main-Live; named = refl; listed = refl; search = refl }

job-Lineage : Lineage machine 40
job-Lineage =
    link job-Live shell-Live (λ e. omega arith) (omega arith) (last shell-Live main-Live refl)

kill-kill_example :
    (Ancestor machine 3 40
      × (kill 4 sig_kill machine ≡ ok 0 (posted_to machine 40 job shell sig_kill)))
    ⊎ (¬ Ancestor machine 3 40 × (kill 4 sig_kill machine ≡ ok minus_one machine))
kill-kill_example = kill-kill job-Target shell-Runs (omega arith) job-Lineage

kill-Atomic_example : machine ≡ machine
unfolding find_tid branch load
kill-Atomic_example = kill-Atomic 9 sig_usr machine machine (kill-unknown 9 sig_usr machine refl)

parent_found-Ancestor_example :
    (b : Bool) × (parent_found 9 1 40 machine ≡ ok b machine) × ((b ≡ true) ↔ Ancestor machine 1 40)
parent_found-Ancestor_example = parent_found-Ancestor 9 1 job-Lineage job-Live (omega arith)
