-- ===== src/Thread/Tick/Lifetime.antt =====
-- When the lifetime of a thread is over, tick by tick.
use tweaking_pintos.Prelude.{
  ℕ, zero, suc, ◌^◌, ◌<◌, ◌≡◌, ◌≢◌, ◌⊎◌, inl, inr, false, ◌&&◌, ap, sym, ◌∙◌, arith, bit_and, leb,
  eqb_ne,
}
use tweaking_pintos.Kernel.{Thread}
use tweaking_pintos.Thread.Tick.{no_limit, tick_thread}

-- A thread after a number of timer ticks.
pub ticks : ℕ → Thread → Thread
ticks zero t = t
ticks (suc n) t = tick_thread (ticks n t)

-- What ticks leave alone, and the count.
record Ticked (n : ℕ) (t u : Thread) : Type 0 where
  total : u.thread_total_time ≡ n
  life : u.thread_life_time ≡ t.thread_life_time
  mask : u.sigmask ≡ t.sigmask

ticks-Ticked : (n : ℕ) (t : Thread) → t.thread_total_time ≡ 0 → n < 2 ^ 63 → Ticked n t (ticks n t)
unfolding ticks tick_thread
ticks-Ticked zero t z h = ground arith
ticks-Ticked (suc n) t z h = ground (arith, ticks-Ticked n t z (omega arith))

-- A thread whose clock starts at 0, with a lifetime of `life` ticks that a `long long` holds, is
-- marked after n ticks exactly if n is positive and at least `life`, while it does not ignore
-- SIG_CPU; the clock then shows n.
pub ticks-life :
    (n life : ℕ) (t : Thread)
    → t.thread_total_time ≡ 0
    → t.is_life_over ≡ false
    → t.thread_life_time ≡ life
    → life < 2 ^ 63
    → bit_and t.sigmask 2 ≡ 0
    → n < 2 ^ 63
    → ((ticks n t).is_life_over ≡ (leb 1 n && leb life n)) × ((ticks n t).thread_total_time ≡ n)
unfolding ticks tick_thread
ticks-life zero life t z fresh e fits heed h = ground arith
ticks-life (suc n) life t z fresh e fits heed h =
    let mask : bit_and (ticks n t).sigmask 2 ≡ 0 =
      ap (λ (m : ℕ). bit_and m 2) (ticks-Ticked n t z (omega arith)).mask ∙ heed in
    ground (
      arith,
      ticks-Ticked n t z (omega arith),
      mask,
      ticks-life n life t z fresh e fits heed (omega arith),
    )

-- A thread without a limit, or one that ignores SIG_CPU, is never marked.
pub ticks-endless :
    (n : ℕ) (t : Thread)
    → t.is_life_over ≡ false
    → (t.thread_life_time ≡ no_limit) ⊎ (bit_and t.sigmask 2 ≢ 0)
    → ((ticks n t).is_life_over ≡ false)
      × ((ticks n t).thread_life_time ≡ t.thread_life_time)
      × ((ticks n t).sigmask ≡ t.sigmask)
unfolding ticks tick_thread
ticks-endless zero t fresh why = ground arith
ticks-endless (suc n) t fresh (inl e) = ground (arith, ticks-endless n t fresh (inl e))
ticks-endless (suc n) t fresh (inr ne) =
    let before = ticks-endless n t fresh (inr ne) in
    let mask : bit_and (ticks n t).sigmask 2 ≢ 0 =
      λ z. ne (ap (λ (m : ℕ). bit_and m 2) (sym before.2) ∙ z) in
    ground (arith, before, mask, eqb_ne (bit_and (ticks n t).sigmask 2) 0 mask)
