-- ===== src/Signal/Kill/Ancestor.antt =====
-- The walk up the parent chain that decides whether SIG_KILL may be sent.
use tweaking_pintos.Prelude.{
  ℕ, zero, suc, ◌<◌, ◌≡◌, ◌≢◌, ◌↔◌, ◌⊎◌, refl, inl, inr, Bool, true, false, arith, ◌==◌,
  if◌then◌else◌, eqb_ne, Bool-cases,
}
use tweaking_pintos.Kernel.{Thread, Kernel}
use tweaking_pintos.Kernel.Exec.{ok, branch}
use tweaking_pintos.Kernel.Facts.{Live, load-Live}
use tweaking_pintos.Signal.Kill.{parent_found}

-- From the thread at `p` live parents, each with a smaller tid, lead up to the thread with tid 1.
pub data Lineage (k : Kernel) : ℕ → Type 0 where
  last : {p : ℕ} {t q : Thread} → Live k p t → Live k t.parent_thread q → q.tid ≡ 1 → Lineage k p
  link :
      {p : ℕ} {t q : Thread}
      → Live k p t
      → Live k t.parent_thread q
      → q.tid ≢ 1
      → q.tid < t.tid
      → Lineage k t.parent_thread
      → Lineage k p

-- The thread with tid `c` stands above the thread at `p` on its chain of parents, not beyond the
-- first thread with tid 1.
pub data Ancestor (k : Kernel) (c : ℕ) : ℕ → Type 0 where
  parent :
      {p : ℕ} {t q : Thread} → Live k p t → Live k t.parent_thread q → q.tid ≡ c → Ancestor k c p
  above :
      {p : ℕ} {t q : Thread}
      → Live k p t
      → Live k t.parent_thread q
      → q.tid ≢ 1
      → Ancestor k c t.parent_thread
      → Ancestor k c p

-- One round of the walk, at a live thread with a live parent.
module _ {k : Kernel} {p : ℕ} {t q : Thread} (lp : Live k p t) (lq : Live k t.parent_thread q) where
  round :
      (f c : ℕ)
      → parent_found (suc f) c p k ≡ (
          if c == q.tid
          then ok true k
          else if q.tid == 1
          then ok false k
          else parent_found f c t.parent_thread k)
  unfolding parent_found branch
  round f c = rw (load-Live lp, load-Live lq) (ground arith)

  -- What an ancestor of `p` is, in terms of its parent.
  Ancestor-cases :
      (c : ℕ) → Ancestor k c p → (q.tid ≡ c) ⊎ ((q.tid ≢ 1) × Ancestor k c t.parent_thread)
  Ancestor-cases c (parent {t = t'} lp' lq' e) =
      let same : t' ≡ t = cc (lp'.holds, lp.holds) in inl (ground (arith, same))
  Ancestor-cases c (above {t = t'} lp' lq' ne up) =
      let same : t' ≡ t = cc (lp'.holds, lp.holds) in inr (ground (arith, same), rw same at up)

-- Where live parents with falling tids lead from the target to the thread with tid 1, the walk of
-- SIG_KILL ends, with fuel above the target's tid, changes nothing, and answers whether the caller
-- is an ancestor of the target.
pub parent_found-Ancestor :
    (fuel c : ℕ) {k : Kernel} {p : ℕ} {t : Thread}
    → Lineage k p
    → Live k p t
    → t.tid < fuel
    → (b : Bool) × (parent_found fuel c p k ≡ ok b k) × ((b ≡ true) ↔ Ancestor k c p)
parent_found-Ancestor zero c ln l h = absurd (omega arith)
parent_found-Ancestor (suc f) c {p} (last {q = q} lp lq e) l h = elim (Bool-cases (c == q.tid)) [
  | inl same ↦ (true, rw (round lp lq f c, same), (λ _. parent lp lq (ground arith), λ _. refl))
  | inr other ↦ (
    false,
    rw (round lp lq f c, other, e),
    (
      λ x. cc,
      λ a. elim (Ancestor-cases lp lq c a) [
        | inl here ↦ ground arith
        | inr further ↦ absurd (further.0 e)
      ],
    ),
  )
]
parent_found-Ancestor (suc f) c {k} {p} {t} (link {t = t'} {q = q} lp lq ne lt up) l h =
    elim (Bool-cases (c == q.tid)) [
      | inl same ↦ (true, rw (round lp lq f c, same), (λ _. parent lp lq (ground arith), λ _. refl))
      | inr other ↦
          let same : t' ≡ t = cc (lp.holds, l.holds) in
          let room : q.tid < f = ground arith in
          let (b, runs, answers) = parent_found-Ancestor f c up lq room in
          (
            b,
            rw (round lp lq f c, other, eqb_ne q.tid 1 ne) runs,
            (
              λ x. above lp lq ne (answers.0 x),
              λ a. elim (Ancestor-cases lp lq c a) [
                | inl here ↦ ground arith
                | inr further ↦ answers.1 further.1
              ],
            ),
          )
    ]
