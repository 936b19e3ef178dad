-- ===== src/Text/Scan/Search.antt =====
-- Where strstr() finds a string in another.
use tweaking_pintos.Prelude.{
  ℕ, zero, suc, ◌+◌, ◌-◌, ◌<◌, ◌≡◌, ◌≢◌, refl, ap, ◌∙◌, ◌⊎◌, inl, inr, true, false, some, leb, ◌==◌,
  ◌!=◌, arith, Bool-cases, List, length,
}
use tweaking_pintos.Memory.{Memory, null, IsString}
use tweaking_pintos.Text.Block.{compare_blocks, memcmp}
use tweaking_pintos.Text.Block.Laws.{compare_blocks_lem}
use tweaking_pintos.Text.Scan.{search_from, strstr}
use tweaking_pintos.Text.Scan.Laws.{strlen_lem}

-- The same `n` bytes stand at `p` and at `q`.
abbrev pub Same : (m : Memory) (p q n : ℕ) → Type 0
Same m p q n = (j : ℕ) → j < n → m (p + j) ≡ m (q + j)

-- The first of the `n` places from `p` at which the needle stands, or NULL.
abbrev pub FirstPlace : (m : Memory) (n p q len r : ℕ) → Type 0
FirstPlace m n p q len r =
    ((r ≡ null) × ((i : ℕ) → i < n → ¬ Same m (p + i) q len))
    ⊎ ((i : ℕ) × (r ≡ p + i)
        × (i < n)
        × Same m (p + i) q len
        × ((j : ℕ) → j < i → ¬ Same m (p + j) q len))

-- The comparison is 0 exactly for the same bytes.
memcmp-Same :
    (p q len : ℕ) (m : Memory)
    → p ≢ null
    → q ≢ null
    → (c : ℕ) × (memcmp p q len m ≡ some c)
      × (((c == 0) ≡ true) × Same m p q len ⊎ ((c == 0) ≡ false) × ¬ Same m p q len)
unfolding memcmp
memcmp-Same p q len m np nq =
    let vp : (p != null) ≡ true = ground (arith, np) in
    let vq : (q != null) ≡ true = ground (arith, nq) in
    (
      compare_blocks p q len m,
      rw (vp, vq),
      elim (compare_blocks_lem len p q m) [
        | inl (z, same) ↦ inl (ground (arith, z), same)
        | inr (i, (l, ne, before), r) ↦ inr (ground (arith, r), λ same. ne (same i l))
      ],
    )

-- Places are counted from the next address.
shifted : (m : Memory) (p q len i : ℕ) → Same m (p + suc i) q len → Same m (suc p + i) q len
shifted m p q len i h j l = ap m (omega arith) ∙ h j l

unshifted : (m : Memory) (p q len i : ℕ) → Same m (suc p + i) q len → Same m (p + suc i) q len
unshifted m p q len i h j l = ap m (omega arith) ∙ h j l

at_zero : (m : Memory) (p q len : ℕ) → Same m (p + 0) q len → Same m p q len
at_zero m p q len h j l = ap m (omega arith) ∙ h j l

from_zero : (m : Memory) (p q len : ℕ) → Same m p q len → Same m (p + 0) q len
from_zero m p q len h j l = ap m (omega arith) ∙ h j l

-- No place so far, and none from the next on.
none_so_far :
    (m : Memory) (p q len n : ℕ)
    → ¬ Same m p q len
    → ((i : ℕ) → i < n → ¬ Same m (suc p + i) q len)
    → (i : ℕ) → i < suc n
    → ¬ Same m (p + i) q len
none_so_far m p q len n first later zero l = λ s. first (at_zero m p q len s)
none_so_far m p q len n first later (suc i) l = λ s. later i (omega arith) (shifted m p q len i s)

search_from-FirstPlace :
    (n p q len : ℕ) (m : Memory)
    → p ≢ null
    → q ≢ null
    → (r : ℕ) × (search_from n p q len m ≡ some r) × FirstPlace m n p q len r
unfolding search_from
search_from-FirstPlace zero p q len m np nq = (null, refl, inl (refl, λ i h. absurd (omega arith)))
search_from-FirstPlace (suc n) p q len m np nq =
    let (c, e, which) = memcmp-Same p q len m np nq in
    elim which [
      | inl (z, same) ↦ (
        p,
        rw e (rw z),
        inr (0, omega arith, omega arith, from_zero m p q len same, λ j h. absurd (omega arith)),
      )
      | inr (nz, other) ↦
          let (r, e', found) = search_from-FirstPlace n (suc p) q len m (λ z. omega arith) nq in
          (
            r,
            rw e (rw nz e'),
            elim found [
              | inl (z, never) ↦ inl (z, none_so_far m p q len n other never)
              | inr (i, at, l, same, before) ↦ inr (
                suc i,
                omega (arith, at),
                omega arith,
                unshifted m p q len i same,
                none_so_far m p q len i other before,
              )
            ],
          )
    ]

-- With more fuel than either string has bytes, and neither at NULL, strstr() returns the first place
-- in the one string at which the bytes of the other stand, or NULL if there is no such place.
pub strstr-FirstPlace :
    (fuel p q : ℕ) (m : Memory) (l r : List ℕ)
    → IsString m p l
    → IsString m q r
    → p ≢ null
    → q ≢ null
    → length l < fuel
    → length r < fuel
    → (a : ℕ) × (strstr fuel p q m ≡ some a)
      × FirstPlace m (length l + 1 - length r) p q (length r) a
unfolding strstr
strstr-FirstPlace fuel p q m l r hl hr np nq fl fr = elim (Bool-cases (leb (length r) (length l))) [
  | inl fits ↦
      let n : length l - length r + 1 ≡ length l + 1 - length r = ground (arith, fits) in
      rw (strlen_lem fuel p m l hl np fl, strlen_lem fuel q m r hr nq fr, fits, n)
        (search_from-FirstPlace (length l + 1 - length r) p q (length r) m np nq)
  | inr long ↦
      let n : length l + 1 - length r ≡ 0 = ground (arith, long) in
      (
        null,
        rw (strlen_lem fuel p m l hl np fl, strlen_lem fuel q m r hr nq fr, long),
        inl (refl, λ i h. absurd (omega (arith, n))),
      )
]
