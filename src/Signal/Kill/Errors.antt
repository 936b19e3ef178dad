-- ===== src/Signal/Kill/Errors.antt =====
-- A call of kill() that reports an error has changed nothing.
use tweaking_pintos.Prelude.{ℕ, zero, suc, ◌≡◌, refl, ◌∙◌, List, [], ◌∷◌, arith}
use tweaking_pintos.Prelude.Words.{minus_one}
use tweaking_pintos.Kernel.{Thread, Kernel, sig_usr, sig_kill}
use tweaking_pintos.Kernel.Exec.{Result, ok, panic, M, pure, and_then}
use tweaking_pintos.Kernel.Ensures.{
  Ensures, returns, stops, ensured, bind, both, Same, load-Same, thread_current-Same,
}
use tweaking_pintos.Signal.Pending.{post}
use tweaking_pintos.Signal.Kill.{
  find_tid, validated_tid, parent_found, append_unblock, send_ublock, send_usr, send_kill, deliver,
  kill,
}

find_tid-Same : (tid : ℕ) (l : List ℕ) (k : Kernel) → Ensures (Same k) (find_tid tid l k)
unfolding find_tid
find_tid-Same tid [] k = returns refl
find_tid-Same tid (q ∷ qs) k =
    bind _ (load-Same q k)
      λ t k' e. both _ _ _ k' (λ _. returns e) (λ _. rw e (find_tid-Same tid qs k))

parent_found-Same : (fuel cur p : ℕ) (k : Kernel) → Ensures (Same k) (parent_found fuel cur p k)
unfolding parent_found
parent_found-Same zero cur p k = stops
parent_found-Same (suc fuel) cur p k = bind _ (load-Same p k) λ t k' e.
    bind _ (load-Same t.parent_thread k') λ q k'' e'.
      both _ _ _ k'' (λ _. returns (e' ∙ e))
        (λ _.
          both _ _ _ k'' (λ _. returns (e' ∙ e))
            (λ _. rw (e' ∙ e) (parent_found-Same fuel cur t.parent_thread k)))

-- An error leaves the state as it was.
abbrev Atomic : Kernel → ℕ → Kernel → Type 0
Atomic k r k' = r ≡ minus_one → k' ≡ k

-- A command followed by `return 0` reports no error.
return_zero :
    (m : M (Unit {0})) (k k' : Kernel) → Ensures (Atomic k) (and_then (m k') (λ _. pure 0))
return_zero m k k' = go (m k')
  where
    go : (r : Result (Unit {0})) → Ensures (Atomic k) (and_then r (λ _. pure 0))
    go (ok a k'') = returns (λ h. absurd (omega arith))
    go (panic e) = stops

send_ublock-Atomic : (p : ℕ) (t : Thread) (k : Kernel) → Ensures (Atomic k) (send_ublock p t k)
unfolding send_ublock
send_ublock-Atomic p t k =
    both _ _ _ k (λ _. returns (λ _. refl))
      (λ _. both _ _ _ k (λ _. returns (λ _. refl)) (λ _. return_zero (append_unblock p) k k))

send_usr-Atomic : (p : ℕ) (t : Thread) (k : Kernel) → Ensures (Atomic k) (send_usr p t k)
unfolding send_usr
send_usr-Atomic p t k =
    both _ _ _ k (λ _. returns (λ _. refl)) (λ _. return_zero (post p sig_usr) k k)

send_kill-Atomic : (p : ℕ) (t : Thread) (k : Kernel) → Ensures (Atomic k) (send_kill p t k)
unfolding send_kill
send_kill-Atomic p t k = bind _ (thread_current-Same k) λ cur k' e.
    bind _ (parent_found-Same (suc t.tid) cur.tid p k') λ allowed k'' e'.
      both allowed _ _ k'' (λ _. return_zero (post p sig_kill) k k'') (λ _. returns (λ _. e' ∙ e))

deliver-Atomic : (p signum : ℕ) (k : Kernel) → Ensures (Atomic k) (deliver p signum k)
unfolding deliver
deliver-Atomic p signum k =
    both _ _ _ k (λ _. returns (λ _. refl))
      λ _. bind _ (load-Same p k) λ t k' e. rw e (
        both _ _ _ k (λ _. send_ublock-Atomic p t k)
          λ _.
            both _ _ _ k (λ _. send_usr-Atomic p t k)
              λ _. both _ _ _ k (λ _. send_kill-Atomic p t k) λ _. returns (λ _. refl))

-- Whatever the state, if kill() returns -1 then the state is the one before the call.
pub kill-Atomic : (tid signum : ℕ) (k k' : Kernel) → kill tid signum k ≡ ok minus_one k' → k' ≡ k
unfolding kill validated_tid
kill-Atomic tid signum k k' h = ensured (rw h at run) refl
  where
    run : Ensures (Atomic k) (kill tid signum k)
    run = bind _ (find_tid-Same tid k.all_list k) λ p k'' e. rw e (deliver-Atomic p signum k)
