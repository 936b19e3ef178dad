-- ===== src/Text/Block/Laws.antt =====
-- What the block functions leave in memory.
use tweaking_pintos.Prelude.{
  ℕ, zero, suc, ◌+◌, ◌-◌, ◌%◌, ◌<◌, ◌≤◌, ◌≡◌, ◌≢◌, refl, ap, sym, ◌∙◌, ◌⊎◌, inl, inr, true, false,
  some, ltb, ◌==◌, ◌!=◌, if◌then◌else◌, arith, Bool-cases,
}
use tweaking_pintos.Prelude.Words.{minus_one}
use tweaking_pintos.Memory.{Memory, null, write, inside}
use tweaking_pintos.Text.Block.{copy_up, copy_down, memcpy, memmove, compare_blocks, fill}

-- The memory `m` after the `size` bytes from `src` have been copied to `dst`, all at once.
abbrev pub copied : (dst src size : ℕ) → Memory → Memory
copied dst src size m a = if inside dst size a then m (src + (a - dst)) else m a

pub copy_up_lem :
    (size dst src : ℕ) (m : Memory) (a : ℕ)
    → (dst ≤ src) ⊎ (src + size ≤ dst)
    → copy_up dst src size m a ≡ copied dst src size m a
unfolding copy_up
copy_up_lem zero dst src m a h = ground arith
copy_up_lem (suc size) dst src m a h =
    copy_up_lem size (suc dst) (suc src) (write m dst (m src)) a (ground (arith, h))
    ∙ ground (arith, h)

copy_down_lem :
    (size dst src : ℕ) (m : Memory) (a : ℕ)
    → src ≤ dst
    → copy_down dst src size m a ≡ copied dst src size m a
unfolding copy_down
copy_down_lem zero dst src m a h = ground arith
copy_down_lem (suc size) dst src m a h =
    copy_down_lem size dst src (write m (dst + size) (m (src + size))) a h ∙ ground (arith, h)

-- Where neither block is at NULL, memmove() copies the block whether or not the two overlap, and
-- writes nowhere else. It returns the end of the destination if that is the lower block, and the
-- destination otherwise.
pub memmove-copied :
    (dst src size : ℕ) (m : Memory)
    → dst ≢ null
    → src ≢ null
    → (p : ℕ) × (m' : Memory) × (memmove dst src size m ≡ some (p, m'))
      × (p ≡ (if ltb dst src then dst + size else dst))
      × ((a : ℕ) → m' a ≡ copied dst src size m a)
unfolding memmove
memmove-copied dst src size m nd ns =
    let vd : (dst != null) ≡ true = ground (arith, nd) in
    let vs : (src != null) ≡ true = ground (arith, ns) in
    elim (Bool-cases (ltb dst src)) [
      | inl below ↦ (
        dst + size,
        copy_up dst src size m,
        rw (vd, vs, below),
        rw below,
        λ a. copy_up_lem size dst src m a (inl (ground (arith, below))),
      )
      | inr above ↦ (
        dst,
        copy_down dst src size m,
        rw (vd, vs, above),
        rw above,
        λ a. copy_down_lem size dst src m a (ground (arith, above)),
      )
    ]

-- Where the blocks do not overlap, memcpy() does the same, and returns the destination.
pub memcpy-copied :
    (dst src size : ℕ) (m : Memory)
    → dst ≢ null
    → src ≢ null
    → (dst + size ≤ src) ⊎ (src + size ≤ dst)
    → (m' : Memory) × (memcpy dst src size m ≡ some (dst, m'))
      × ((a : ℕ) → m' a ≡ copied dst src size m a)
unfolding memcpy
memcpy-copied dst src size m nd ns apart =
    let vd : (dst != null) ≡ true = ground (arith, nd) in
    let vs : (src != null) ≡ true = ground (arith, ns) in
    (copy_up dst src size m, rw (vd, vs), λ a. copy_up_lem size dst src m a (ground (arith, apart)))

pub fill_lem :
    (size dst value : ℕ) (m : Memory) (a : ℕ)
    → fill dst value size m a ≡ (if inside dst size a then value % 256 else m a)
unfolding fill
fill_lem zero dst value m a = ground arith
fill_lem (suc size) dst value m a =
    fill_lem size (suc dst) value (write m dst (value % 256)) a ∙ ground arith

-- The first index at which the blocks differ decides; none is 0.
abbrev pub FirstDifference : (m : Memory) (a b size : ℕ) (i : ℕ) → Type 0
FirstDifference m a b size i =
    (i < size) × (m (a + i) ≢ m (b + i)) × ((j : ℕ) → j < i → m (a + j) ≡ m (b + j))

-- Equal first bytes, and equal rests.
same_up_to :
    (m : Memory) (a b n : ℕ)
    → m a ≡ m b
    → ((j : ℕ) → j < n → m (suc a + j) ≡ m (suc b + j))
    → (j : ℕ) → j < suc n
    → m (a + j) ≡ m (b + j)
same_up_to m a b n e h zero l = ap m (omega arith) ∙ e ∙ ap m (omega arith)
same_up_to m a b n e h (suc j) l = ap m (omega arith) ∙ h j (omega arith) ∙ ap m (omega arith)

-- memcmp() is 0 if the blocks are equal, and otherwise the sign, as an `int`, of the comparison of
-- the first two bytes that differ.
pub compare_blocks_lem :
    (size a b : ℕ) (m : Memory)
    → ((compare_blocks a b size m ≡ 0) × ((j : ℕ) → j < size → m (a + j) ≡ m (b + j)))
      ⊎ ((i : ℕ) × FirstDifference m a b size i
          × (compare_blocks a b size m ≡ (if ltb (m (b + i)) (m (a + i)) then 1 else minus_one)))
unfolding compare_blocks
compare_blocks_lem zero a b m = inl (refl, λ j h. absurd (omega arith))
compare_blocks_lem (suc size) a b m = elim (Bool-cases (m a == m b)) [
  | inr differ ↦
      let e : (m a != m b) ≡ true = ground (arith, differ) in
      let ea : m (a + 0) ≡ m a = ap m (omega arith) in
      let eb : m (b + 0) ≡ m b = ap m (omega arith) in
      inr (
        0,
        (omega arith, ground (arith, differ, ea, eb), λ j h. absurd (omega arith)),
        rw (e, ea, eb),
      )
  | inl same ↦
      let e : (m a != m b) ≡ false = ground (arith, same) in
      let e' : m a ≡ m b = ground (arith, same) in
      elim (compare_blocks_lem size (suc a) (suc b) m) [
        | inl (z, all) ↦ inl (rw e z, same_up_to m a b size e' all)
        | inr (i, (l, ne, before), r) ↦
            let ea : m (a + suc i) ≡ m (suc a + i) = ap m (omega arith) in
            let eb : m (b + suc i) ≡ m (suc b + i) = ap m (omega arith) in
            inr (
              suc i,
              (omega arith, λ z. ne (sym ea ∙ z ∙ eb), same_up_to m a b i e' before),
              rw (e, ea, eb) r,
            )
      ]
]
