-- ===== src/Palloc/Used.antt =====
-- Groups of pages in use, and what giving out and taking back leaves of them.
use tweaking_pintos.Prelude.{
  ℕ, ◌+◌, ◌*◌, ◌≤◌, ◌<◌, ◌≡◌, refl, ap, sym, ◌∙◌, subst, Bool, true, false, arith, ◌⊎◌, inl, inr,
  leb, Bool-cases,
}
use tweaking_pintos.Bitmap.View.{at}
use tweaking_pintos.Bitmap.Ranges.{Wrote}
use tweaking_pintos.Bitmap.Search.{Group}
use tweaking_pintos.Palloc.{Pool, Pools, pool_of, pgsize}
use tweaking_pintos.Palloc.Given.{IsPools, page, IsGiven}
use tweaking_pintos.Palloc.Free.{IsTaken}

-- The group `b` of pages of a pool, from the index `i` on, is in use.
pub record UsedAt (s : Pools) (user : Bool) (i : ℕ) (b : ℕ × ℕ) : Type 0 where
  pub some_page : 0 < b.1
  pub place : b.0 ≡ page (pool_of user s) i
  pub fits : i + b.1 ≤ (pool_of user s).used_map.bit_cnt
  pub used : Group (pool_of user s).used_map i b.1 true

abbrev pub IsUsed : Pools → ℕ × ℕ → Type 0
IsUsed s b = (user : Bool) × (i : ℕ) × UsedAt s user i b

-- Two groups have no byte in common.
abbrev pub Apart : ℕ × ℕ → ℕ × ℕ → Type 0
Apart b c = (b.0 + pgsize * b.1 ≤ c.0) ⊎ (c.0 + pgsize * c.1 ≤ b.0)

-- Bits that are false and bits that are true.
ranges_apart :
    (f : ℕ → Bool) (i n j m : ℕ)
    → 0 < n
    → 0 < m
    → ((k : ℕ) → i ≤ k → k < i + n → f k ≡ false)
    → ((k : ℕ) → j ≤ k → k < j + m → f k ≡ true)
    → (i + n ≤ j) ⊎ (j + m ≤ i)
ranges_apart f i n j m pn pm no_k yes_k = elim (Bool-cases (leb (i + n) j)) [
  | inl h ↦ inl (ground (arith, h))
  | inr h ↦ elim (Bool-cases (leb (j + m) i)) [
    | inl h' ↦ inr (ground (arith, h'))
    | inr h' ↦ elim (Bool-cases (leb i j)) [
      | inl l ↦ absurd (
          differ (
            sym (no_k j (ground (arith, l)) (ground (arith, h)))
            ∙ yes_k j (omega arith) (omega arith)))
      | inr l ↦ absurd (
          differ (
            sym (no_k i (omega arith) (omega arith))
            ∙ yes_k i (ground (arith, l)) (ground (arith, h'))))
    ]
  ]
]
  where
    differ : false ≡ true → ⊥
    differ e = cc e

-- A used group and one that is given out lie apart.
pub Apart-given :
    (u : Bool) (n : ℕ) (s s' : Pools) (p : ℕ) (v : Bool) (j : ℕ) (b : ℕ × ℕ)
    → IsPools s
    → 0 < n
    → IsGiven u n s p s'
    → UsedAt s v j b
    → Apart (p, n) b
Apart-given true n s s' p true j b h pos g x =
    elim (ranges_apart (at s.user_pool.used_map) g.index n j b.1 pos x.some_page g.free x.used) [
      | inl l ↦ inl (omega (arith, g.place, x.place, l))
      | inr l ↦ inr (omega (arith, g.place, x.place, l))
    ]
Apart-given false n s s' p false j b h pos g x =
    elim (ranges_apart (at s.kernel_pool.used_map) g.index n j b.1 pos x.some_page g.free x.used) [
      | inl l ↦ inl (omega (arith, g.place, x.place, l))
      | inr l ↦ inr (omega (arith, g.place, x.place, l))
    ]
Apart-given true n s s' p false j b h pos g x =
    inr (omega (arith, g.place, x.place, x.fits, h.apart))
Apart-given false n s s' p true j b h pos g x =
    inl (omega (arith, g.place, x.place, g.fits, h.apart))

-- A group stays in use when its pool is unchanged.
kept :
    (s s' : Pools) (v : Bool) (j : ℕ) (b : ℕ × ℕ)
    → pool_of v s' ≡ pool_of v s
    → UsedAt s v j b
    → UsedAt s' v j b
kept s s' v j b e x = record {
  some_page = x.some_page;
  place = x.place ∙ ap (λ q. page q j) (sym e);
  fits = subst (λ q. j + b.1 ≤ q.used_map.bit_cnt) (sym e) x.fits;
  used = subst (λ q. Group q.used_map j b.1 true) (sym e) x.used;
}

-- A group stays in use when its bits are written as used, or others are written.
kept_bits :
    (s s' : Pools) (v : Bool) (j : ℕ) (b : ℕ × ℕ) (i n : ℕ) (value : Bool)
    → Wrote (pool_of v s).used_map i n value (pool_of v s').used_map
    → (pool_of v s').base ≡ (pool_of v s).base
    → (value ≡ true) ⊎ ((i + n ≤ j) ⊎ (j + b.1 ≤ i))
    → UsedAt s v j b
    → UsedAt s' v j b
kept_bits s s' v j b i n value w e safe x = record {
  some_page = x.some_page;
  place = x.place ∙ ap (λ a. a + pgsize * j) (sym e);
  fits = omega (arith, x.fits, w.size);
  used = λ k l r. w.bits k ∙ ground (arith, safe, l, r, x.used k l r);
}

pub IsUsed-get :
    (u : Bool) (n : ℕ) (s s' : Pools) (p : ℕ) (b : ℕ × ℕ)
    → IsGiven u n s p s'
    → IsUsed s b
    → IsUsed s' b
IsUsed-get true n s s' p b g (true, j, x) =
    (true, j, kept_bits s s' true j b g.index n true g.used g.base (inl refl) x)
IsUsed-get false n s s' p b g (false, j, x) =
    (false, j, kept_bits s s' false j b g.index n true g.used g.base (inl refl) x)
IsUsed-get true n s s' p b g (false, j, x) = (false, j, kept s s' false j b g.other x)
IsUsed-get false n s s' p b g (true, j, x) = (true, j, kept s s' true j b g.other x)

-- Pages with addresses apart have indices apart.
indices : (q : Pool) (i n j m : ℕ) → Apart (page q i, n) (page q j, m) → (i + n ≤ j) ⊎ (j + m ≤ i)
indices q i n j m (inl l) = inl (omega (arith, l))
indices q i n j m (inr l) = inr (omega (arith, l))

pub IsUsed-free :
    (u : Bool) (i n : ℕ) (s s' : Pools) (b : ℕ × ℕ)
    → IsTaken u i n s s'
    → Apart (page (pool_of u s) i, n) b
    → IsUsed s b
    → IsUsed s' b
IsUsed-free true i n s s' b t a (true, j, x) =
    let parts =
      indices s.user_pool i n j b.1
        (subst (λ q. Apart (page s.user_pool i, n) (q, b.1)) x.place a) in
    (true, j, kept_bits s s' true j b i n false t.free t.base (inr parts) x)
IsUsed-free false i n s s' b t a (false, j, x) =
    let parts =
      indices s.kernel_pool i n j b.1
        (subst (λ q. Apart (page s.kernel_pool i, n) (q, b.1)) x.place a) in
    (false, j, kept_bits s s' false j b i n false t.free t.base (inr parts) x)
IsUsed-free true i n s s' b t a (false, j, x) = (false, j, kept s s' false j b t.other x)
IsUsed-free false i n s s' b t a (true, j, x) = (true, j, kept s s' true j b t.other x)

-- The group that is given out is in use.
pub given-IsUsed :
    (u : Bool) (n : ℕ) (s s' : Pools) (p : ℕ) → 0 < n → IsGiven u n s p s' → IsUsed s' (p, n)
given-IsUsed u n s s' p pos g = (
  u,
  g.index,
  record {
    some_page = pos;
    place = g.place ∙ ap (λ a. a + pgsize * g.index) (sym g.base);
    fits = omega (arith, g.fits, g.used.size);
    used = λ k l r. g.used.bits k ∙ ground (arith, l, r);
  },
)
