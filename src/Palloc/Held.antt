-- ===== src/Palloc/Held.antt =====
-- Sequences of calls of the page allocator, and the groups of pages that are out.
use tweaking_pintos.Prelude.{
  ℕ, ◌*◌, Option, Bool, true, false, ◌<◌, ◌≡◌, ◌≢◌, refl, ap, sym, ◌∙◌, subst, some, inl, inr,
  Bool-cases, List, [], ◌∷◌, ◌++◌, All,
}
use tweaking_pintos.Prelude.Partial.{or_else, some_injective}
use tweaking_pintos.Memory.{Memory, null, inside}
use tweaking_pintos.Palloc.{
  Pools, pool_of, set_memory, pgsize, palloc_get_multiple, palloc_free_multiple, has_flag, pal_user,
  pal_assert,
}
use tweaking_pintos.Palloc.Given.{IsPools, page, IsGiven}
use tweaking_pintos.Palloc.Used.{IsUsed, Apart, Apart-given, IsUsed-get, IsUsed-free, given-IsUsed}
use tweaking_pintos.Palloc.Get.{palloc_get_multiple-IsGiven}
use tweaking_pintos.Palloc.Free.{palloc_free_multiple-IsTaken}

-- The groups that callers hold, as address and number of pages, after a sequence of calls.
pub data Held : Pools → List (ℕ × ℕ) → Type 0 where
  start : {s : Pools} → IsPools s → Held s []
  get :
      {s s' : Pools} {bs : List (ℕ × ℕ)} (flags n p : ℕ)
      → Held s bs
      → 0 < n
      → p ≢ null
      → palloc_get_multiple flags n s ≡ some (p, s')
      → Held s' ((p, n) ∷ bs)
  free :
      {s s' : Pools} (xs ys : List (ℕ × ℕ)) (p n : ℕ)
      → Held s (xs ++ ((p, n) ∷ ys))
      → palloc_free_multiple p n s ≡ some s'
      → Held s' (xs ++ ys)

Apart-sym : (b c : ℕ × ℕ) → Apart b c → Apart c b
Apart-sym b c (inl h) = inr h
Apart-sym b c (inr h) = inl h

abbrev pub AllApart : List (ℕ × ℕ) → Type 0
AllApart [] = Unit
AllApart (b ∷ bs) = All (Apart b) bs × AllApart bs

pub All-middle :
    (P : ℕ × ℕ → Type 0) (xs : List (ℕ × ℕ)) (b : ℕ × ℕ) (ys : List (ℕ × ℕ))
    → All P (xs ++ (b ∷ ys))
    → P b × All P (xs ++ ys)
All-middle P [] b ys h = h
All-middle P (x ∷ xs) b ys (hx, h) = let (hb, rest) = All-middle P xs b ys h in (hb, (hx, rest))

AllApart-middle :
    (xs : List (ℕ × ℕ)) (b : ℕ × ℕ) (ys : List (ℕ × ℕ))
    → AllApart (xs ++ (b ∷ ys))
    → All (Apart b) (xs ++ ys) × AllApart (xs ++ ys)
AllApart-middle [] b ys h = h
AllApart-middle (x ∷ xs) b ys (hx, h) =
    let (xb, xrest) = All-middle (Apart x) xs b ys hx in
    let (hb, rest) = AllApart-middle xs b ys h in ((Apart-sym x b xb, hb), (xrest, rest))

All-both :
    (P Q R : ℕ × ℕ → Type 0)
    → ((b : ℕ × ℕ) → P b → Q b → R b)
    → (bs : List (ℕ × ℕ)) → All P bs
    → All Q bs
    → All R bs
All-both P Q R f [] hp hq = tt
All-both P Q R f (b ∷ bs) (pb, hp) (qb, hq) = (f b pb qb, All-both P Q R f bs hp hq)

All-map :
    (P R : ℕ × ℕ → Type 0) → ((b : ℕ × ℕ) → P b → R b) → (bs : List (ℕ × ℕ)) → All P bs → All R bs
All-map P R f [] hp = tt
All-map P R f (b ∷ bs) (pb, hp) = (f b pb, All-map P R f bs hp)

-- A result that is not NULL is a group that was free.
get-IsGiven :
    (flags n : ℕ) (s : Pools) (p : ℕ) (s' : Pools)
    → IsPools s
    → 0 < n
    → p ≢ null
    → palloc_get_multiple flags n s ≡ some (p, s')
    → IsGiven (has_flag flags pal_user) n s p s' × IsPools s'
get-IsGiven flags n s p s' h pos ne e = elim (palloc_get_multiple-IsGiven flags n s h pos) [
  | inl (full, e') ↦ absurd (elim (Bool-cases (has_flag flags pal_assert)) [
    | inl f ↦ ne (ap address (sym e ∙ (rw f at e')))
    | inr f ↦ ne (ap address (sym e ∙ (rw f at e')))
  ])
  | inr (q, t, e', g, h', m) ↦
      subst (λ (r : ℕ × Pools). IsGiven (has_flag flags pal_user) n s r.0 r.1 × IsPools r.1)
        (some_injective (q, t) (p, s') (sym e' ∙ e)) (g, h')
]
  where
    address : Option (ℕ × Pools) → ℕ
    address o = (or_else {A = ℕ × Pools} (null, s) o).0

-- Well-formed pools in which the groups are in use and lie apart.
pub record IsSafe (s : Pools) (bs : List (ℕ × ℕ)) : Type 0 where
  pub pools : IsPools s
  pub used : All (IsUsed s) bs
  pub apart : AllApart bs

-- A group given out is one more; the memory plays no part.
pub get-IsSafe :
    (u : Bool) (n : ℕ) (s : Pools) (p : ℕ) (s' : Pools) (bs : List (ℕ × ℕ))
    → IsSafe s bs
    → 0 < n
    → IsGiven u n s p s'
    → IsPools s'
    → IsSafe s' ((p, n) ∷ bs)
get-IsSafe u n s p s' bs safe pos g h = record {
  pools = h;
  used = (
    given-IsUsed u n s s' p pos g,
    All-map (IsUsed s) (IsUsed s') (λ b. IsUsed-get u n s s' p b g) bs safe.used,
  );
  apart = (
    All-map (IsUsed s) (Apart (p, n)) (λ b x. Apart-given u n s s' p x.0 x.1 b safe.pools pos g x.2)
        bs safe.used,
    safe.apart,
  );
}

IsUsed-memory : (s : Pools) (m : Memory) (b : ℕ × ℕ) → IsUsed s b → IsUsed (set_memory m s) b
IsUsed-memory s m b (true, i, x) =
    (true, i, record { some_page = x.some_page; place = x.place; fits = x.fits; used = x.used })
IsUsed-memory s m b (false, i, x) =
    (false, i, record { some_page = x.some_page; place = x.place; fits = x.fits; used = x.used })

pub IsSafe-memory :
    (s : Pools) (m : Memory) (bs : List (ℕ × ℕ)) → IsSafe s bs → IsSafe (set_memory m s) bs
IsSafe-memory s m bs h = record {
  pools = record { kernel = h.pools.kernel; user = h.pools.user; apart = h.pools.apart };
  used = All-map (IsUsed s) (IsUsed (set_memory m s)) (IsUsed-memory s m) bs h.used;
  apart = h.apart;
}

-- A group that is in use can be given back; the others stay in use, and the bytes elsewhere as they are.
pub give-IsSafe :
    (s : Pools) (xs ys : List (ℕ × ℕ)) (p n : ℕ)
    → IsSafe s (xs ++ ((p, n) ∷ ys))
    → (s' : Pools) × (palloc_free_multiple p n s ≡ some s')
      × IsSafe s' (xs ++ ys)
      × ((a : ℕ) → inside p (pgsize * n) a ≡ false → s'.memory a ≡ s.memory a)
give-IsSafe s xs ys p n h =
    let ((u, i, x), rest) = All-middle (IsUsed s) xs (p, n) ys h.used in
    let (apart_p, apart) = AllApart-middle xs (p, n) ys h.apart in
    let (s', e, t) = (palloc_free_multiple-IsTaken u i n s h.pools x.some_page x.fits).0 x.used in
    let away : All (Apart (page (pool_of u s) i, n)) (xs ++ ys) =
      subst (λ q. All (Apart (q, n)) (xs ++ ys)) x.place apart_p in
    (
      s',
      ap (λ q. palloc_free_multiple q n s) x.place ∙ e,
      record {
        pools = t.pools;
        used =
            All-both (Apart (page (pool_of u s) i, n)) (IsUsed s) (IsUsed s')
              (λ b. IsUsed-free u i n s s' b t) (xs ++ ys) away rest;
        apart = apart;
      },
      λ a out. t.bytes a ∙ (rw (subst (λ q. inside q (pgsize * n) a ≡ false) x.place out) refl),
    )

-- After any sequence of calls of palloc_get_multiple() and palloc_free_multiple() that starts with
-- well-formed pools, asks for at least one page at a time and gives back only groups that were given
-- out and are still held: the pools are well-formed, the pages of every held group are in use, and no
-- two held groups overlap.
pub held-IsSafe : (s : Pools) (bs : List (ℕ × ℕ)) → Held s bs → IsSafe s bs
held-IsSafe s bs (start h) = record { pools = h; used = tt; apart = tt }
held-IsSafe s bs (get {s = s0} {s' = s1} {bs = cs} flags n p held pos ne e) =
    let safe = held-IsSafe s0 cs held in
    let u = has_flag flags pal_user in
    let (g, h) = get-IsGiven flags n s0 p s1 safe.pools pos ne e in
    get-IsSafe u n s0 p s1 cs safe pos g h
held-IsSafe s bs (free {s = s0} {s' = s1} xs ys p n held e) =
    let (t, e', safe, _) = give-IsSafe s0 xs ys p n (held-IsSafe s0 (xs ++ ((p, n) ∷ ys)) held) in
    subst (λ q. IsSafe q (xs ++ ys)) (some_injective t s1 (sym e' ∙ e)) safe

-- After any sequence of calls of the page allocator that gives back only groups that are held, every group that is held can be given back:
-- palloc_free_multiple() of it succeeds, and the sequence goes on without the group.
pub held-free :
    (s : Pools) (xs ys : List (ℕ × ℕ)) (p n : ℕ)
    → Held s (xs ++ ((p, n) ∷ ys))
    → (s' : Pools) × (palloc_free_multiple p n s ≡ some s') × Held s' (xs ++ ys)
held-free s xs ys p n held =
    let (s', e, safe, _) = give-IsSafe s xs ys p n (held-IsSafe s (xs ++ ((p, n) ∷ ys)) held) in
    (s', e, free xs ys p n held e)
