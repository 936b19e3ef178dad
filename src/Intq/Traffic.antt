-- ===== src/Intq/Traffic.antt =====
-- Calls of the interrupt queue one after another.
use tweaking_pintos.Prelude.{
  ℕ, zero, suc, ◌+◌, ◌≤◌, ◌≡◌, refl, ap, sym, ◌∙◌, Bool, some, none, Option, arith, List, [], ◌∷◌,
  ◌++◌, length, inl, inr, append_assoc, append-nil,
}
use tweaking_pintos.Prelude.Partial.{◌>>=◌}
use tweaking_pintos.Intq.{Intq, Outcome, returns, sleeps, intq_getc, intq_putc}
use tweaking_pintos.Intq.Contents.{quiet, contents, IsQueue, intq_getc_lem, intq_putc_lem}

-- A call that does not sleep.
abbrev pub finished : Outcome → Option (ℕ × Intq)
finished (returns result q woken) = some (result, q)
finished (sleeps q) = none

module _ (inside : Bool) (t : ℕ) where
  unfoldable pub put_all : List ℕ → Intq → Option Intq
  put_all [] q = some q
  put_all (b ∷ bs) q = do o ← intq_putc (quiet inside t) b q; done ← finished o; put_all bs done.1

  unfoldable pub get_all : (n : ℕ) → Intq → Option (List ℕ × Intq)
  get_all zero q = some ([], q)
  get_all (suc n) q = do
    o ← intq_getc (quiet inside t) q
    done ← finished o
    rest ← get_all n done.1
    some (done.0 ∷ rest.0, rest.1)

length-append : (xs ys : List ℕ) → length (xs ++ ys) ≡ length xs + length ys
length-append [] ys = omega arith
length-append (x ∷ xs) ys = omega (arith, length-append xs ys)

put_all_lem :
    (inside : Bool) (t : ℕ) (bs : List ℕ) (q : Intq)
    → IsQueue q
    → length (contents q) + length bs ≤ 63
    → (q' : Intq) × (put_all inside t bs q ≡ some q')
      × IsQueue q'
      × (contents q' ≡ contents q ++ bs)
unfolding put_all
put_all_lem inside t [] q h l = (q, refl, h, sym (append-nil (contents q)))
put_all_lem inside t (b ∷ bs) q h l = elim (intq_putc_lem inside t b q h) [
  | inl (full, e) ↦ absurd (omega (arith, full))
  | inr (room, (q1, e, h1, c, w, o)) ↦
      let longer : length (contents q1) ≡ length (contents q) + 1 =
        ap length c ∙ length-append (contents q) (b ∷ []) in
      let (q', e', h', c') = put_all_lem inside t bs q1 h1 (omega (arith, longer)) in
      (q', rw e e', h', c' ∙ ap (λ l. l ++ bs) c ∙ append_assoc (contents q) (b ∷ []) bs)
]

get_all_lem :
    (inside : Bool) (t : ℕ) (bs : List ℕ) (q : Intq)
    → IsQueue q
    → contents q ≡ bs
    → (q' : Intq) × (get_all inside t (length bs) q ≡ some (bs, q'))
      × IsQueue q'
      × (contents q' ≡ [])
unfolding get_all
get_all_lem inside t [] q h e = (q, refl, h, e)
get_all_lem inside t (b ∷ bs) q h e = elim (intq_getc_lem inside t q h) [
  | inl (empty, r) ↦ absurd (not_nil (sym empty ∙ e))
  | inr (x, q1, r, h1, c, w, o) ↦
      let (q', r', h', c') = get_all_lem inside t bs q1 h1 (ap (rest []) (sym c ∙ e)) in
      let same : x ≡ b = ap (top b) (sym c ∙ e) in (q', rw r (rw (r', same)), h', c')
]
  where
    not_nil : [] ≡ b ∷ bs → ⊥
    not_nil p = cc p

    rest : List ℕ → List ℕ → List ℕ
    rest d [] = d
    rest d (x ∷ xs) = xs

    top : ℕ → List ℕ → ℕ
    top d [] = d
    top d (x ∷ xs) = x

-- With interrupts off, and from any state of the ring, wherever its positions stand: bytes for which
-- there is room, put one after another by intq_putc(), are returned by intq_getc() in the same order
-- behind those that were in the queue, no call sleeps or panics, and after as many calls of
-- intq_getc() as there are bytes the queue is empty.
pub intq_roundtrip :
    (inside : Bool) (t : ℕ) (bs : List ℕ) (q : Intq)
    → IsQueue q
    → length (contents q) + length bs ≤ 63
    → (q1 q2 : Intq) × (put_all inside t bs q ≡ some q1)
      × (get_all inside t (length (contents q ++ bs)) q1 ≡ some (contents q ++ bs, q2))
      × (contents q2 ≡ [])
intq_roundtrip inside t bs q h l =
    let (q1, e1, h1, c1) = put_all_lem inside t bs q h l in
    let (q2, e2, h2, c2) = get_all_lem inside t (contents q ++ bs) q1 h1 c1 in (q1, q2, e1, e2, c2)
