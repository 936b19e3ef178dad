-- ===== src/Intq/Contents.antt =====
-- An interrupt queue as the sequence of its bytes: putting appends, getting takes the first.
use tweaking_pintos.Prelude.{
  ℕ, zero, suc, ◌+◌, ◌-◌, ◌%◌, ◌<◌, ◌≡◌, refl, ap, sym, ◌∙◌, Bool, true, false, none, some, arith,
  ◌==◌, ◌!=◌, if◌then◌else◌, List, [], ◌∷◌, ◌++◌, length, Bool-cases, inl, inr, ◌⊎◌,
}
use tweaking_pintos.Intq.{
  Intq, Cpu, returns, sleeps, Waiter, for_not_full, for_not_empty, next, intq_empty, intq_full,
  lacks, wait, signal, fall_asleep, intq_getc, intq_putc, waiting, set_waiting,
}

-- `n` bytes of the ring from `pos` on; behind position 63 follows position 0.
abbrev pub ring : (ℕ → ℕ) → (pos n : ℕ) → List ℕ
ring buf pos zero = []
ring buf pos (suc n) = buf pos ∷ ring buf ((pos + 1) % 64) n

abbrev pub size : Intq → ℕ
size q = (q.head + 64 - q.tail) % 64

abbrev pub contents : Intq → List ℕ
contents q = ring q.buf q.tail (size q)

pub record IsQueue (q : Intq) : Type 0 where
  pub head : q.head < 64
  pub tail : q.tail < 64

pub length-ring : (buf : ℕ → ℕ) (pos n : ℕ) → length (ring buf pos n) ≡ n
length-ring buf pos zero = refl
length-ring buf pos (suc n) = ap suc (length-ring buf (next pos) n)

-- One more byte, at the end.
ring-append :
    (buf : ℕ → ℕ) (v a n pos : ℕ)
    → pos < 64
    → n < 64
    → a ≡ (pos + n) % 64
    → ring (λ i. if i == a then v else buf i) pos (suc n) ≡ ring buf pos n ++ (v ∷ [])
ring-append buf v a zero pos p l e = ground (arith, e)
ring-append buf v a (suc n) pos p l e =
    let other : (pos == a) ≡ false = ground (arith, e) in
    rw other (
      ap (λ r. buf pos ∷ r)
        (ring-append buf v a n (next pos) (omega arith) (omega arith) (omega (arith, e))))

-- A processor with interrupts off, in an interrupt handler or not, and with this running thread.
abbrev pub quiet : (inside : Bool) (thread : ℕ) → Cpu
quiet inside thread = record { intr_off = true; intr_context = inside; current = thread }

-- signal() resets the waiting thread and wakes it, if there is one.
signal_lem :
    (inside : Bool) (t : ℕ) (w : Waiter) (q : Intq)
    → lacks (quiet inside t) w q ≡ some false
    → signal (quiet inside t) w q ≡ some (set_waiting w 0 q, waiting w q)
unfolding signal
signal_lem inside t w q there = elim (Bool-cases (waiting w q != 0)) [
  | inl some_thread ↦ rw there (rw some_thread)
  | inr nobody ↦ rw there (rw nobody (ap some (same w (ground (arith, nobody)))))
]
  where
    same :
        (w : Waiter)
        → waiting w q ≡ 0
        → let new : Intq × ℕ = (set_waiting w 0 q, waiting w q) in
          let old : Intq × ℕ = (q, 0) in old ≡ new
    same for_not_full z =
        ap (λ v. (set_waiting for_not_full v q, 0)) z
        ∙ ap (λ v. (set_waiting for_not_full 0 q, v)) (sym z)
    same for_not_empty z =
        ap (λ v. (set_waiting for_not_empty v q, 0)) z
        ∙ ap (λ v. (set_waiting for_not_empty 0 q, v)) (sym z)

fall_asleep_lem :
    (inside : Bool) (t : ℕ) (w : Waiter) (q : Intq)
    → lacks (quiet inside t) w q ≡ some true
    → fall_asleep (quiet inside t) w q
      ≡ (if inside then none else some (sleeps (set_waiting w t q)))
unfolding fall_asleep wait
fall_asleep_lem inside t w q missing = elim (Bool-cases inside) [
  | inl yes_in ↦ rw (missing, yes_in)
  | inr outside ↦ rw (missing, outside)
]

pub intq_getc_lem :
    (inside : Bool) (t : ℕ) (q : Intq)
    → IsQueue q
    → ((contents q ≡ [])
        × (intq_getc (quiet inside t) q
            ≡ (if inside then none else some (sleeps (record q { not_empty = t })))))
      ⊎ ((x : ℕ) × (q' : Intq) × (intq_getc (quiet inside t) q ≡ some (returns x q' q.not_full))
          × IsQueue q'
          × (contents q ≡ x ∷ contents q')
          × (q'.not_full ≡ 0)
          × (q'.not_empty ≡ q.not_empty))
unfolding intq_getc lacks intq_empty intq_full
intq_getc_lem inside t q h = elim (Bool-cases (q.head == q.tail)) [
  | inl none_left ↦
      let zero_size : size q ≡ 0 = ground (arith, none_left, h.head, h.tail) in
      inl (
        ap (λ n. ring q.buf q.tail n) zero_size,
        rw none_left (fall_asleep_lem inside t for_not_empty q (empty_lem none_left)),
      )
  | inr some_left ↦
      let q1 : Intq = record q { tail = next q.tail } in
      let smaller : size q ≡ suc (size q1) = ground (arith, some_left, h.head, h.tail) in
      inr (
        q.buf q.tail,
        record q1 { not_full = 0 },
        rw some_left (rw (signal_lem inside t for_not_full q1 (room some_left))),
        record { head = h.head; tail = omega arith },
        ap (λ n. ring q.buf q.tail n) smaller,
        refl,
        refl,
      )
]
  where
    empty_lem : (q.head == q.tail) ≡ true → lacks (quiet inside t) for_not_empty q ≡ some true
    empty_lem e = rw e

    room :
        (q.head == q.tail) ≡ false
        → lacks (quiet inside t) for_not_full (record q { tail = next q.tail }) ≡ some false
    room e =
        let left : (next q.head == next q.tail) ≡ false = ground (arith, e, h.head, h.tail) in
        rw left

pub intq_putc_lem :
    (inside : Bool) (t : ℕ) (byte : ℕ) (q : Intq)
    → IsQueue q
    → ((length (contents q) ≡ 63)
        × (intq_putc (quiet inside t) byte q
            ≡ (if inside then none else some (sleeps (record q { not_full = t })))))
      ⊎ ((length (contents q) < 63)
          × ((q' : Intq) × (intq_putc (quiet inside t) byte q ≡ some (returns 0 q' q.not_empty))
              × IsQueue q'
              × (contents q' ≡ contents q ++ (byte ∷ []))
              × (q'.not_empty ≡ 0)
              × (q'.not_full ≡ q.not_full)))
unfolding intq_putc lacks intq_full intq_empty
intq_putc_lem inside t byte q h =
    let len : length (contents q) ≡ size q = length-ring q.buf q.tail (size q) in
    elim (Bool-cases (next q.head == q.tail)) [
      | inl full ↦ inl (
        ground (arith, len, full, h.head, h.tail),
        rw full (fall_asleep_lem inside t for_not_full q (full_lem full)),
      )
      | inr free ↦
          let buf' : ℕ → ℕ = λ i. if i == q.head then byte else q.buf i in
          let q1 : Intq = record q { buf = buf'; head = next q.head } in
          let larger : size q1 ≡ suc (size q) = ground (arith, free, h.head, h.tail) in
          inr (
            ground (arith, len, free, h.head, h.tail),
            (
              record q1 { not_empty = 0 },
              rw free (rw (signal_lem inside t for_not_empty q1 (there free))),
              record { head = omega arith; tail = h.tail },
              ap (λ n. ring buf' q.tail n) larger
                  ∙ ring-append q.buf byte q.head (size q) q.tail h.tail (omega arith)
                      (omega (arith, h.head, h.tail)),
              refl,
              refl,
            ),
          )
    ]
  where
    full_lem : (next q.head == q.tail) ≡ true → lacks (quiet inside t) for_not_full q ≡ some true
    full_lem e = rw e

    there :
        (next q.head == q.tail) ≡ false
        → lacks
            (quiet inside t)
            for_not_empty
            (record q { buf = λ i. if i == q.head then byte else q.buf i; head = next q.head })
          ≡ some false
    there e = rw e
