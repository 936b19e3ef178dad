-- ===== src/Malloc/Emptied.antt =====
-- An arena without held blocks goes back to the page allocator.
use tweaking_pintos.Prelude.{
  ℕ, ◌+◌, ◌*◌, ◌%◌, ◌≤◌, ◌≡◌, ◌≢◌, refl, sym, ap, ◌∙◌, subst, List, [], ◌∷◌, ◌++◌, arith, ◌==◌, inl,
  inr, All, Distinct, elem, erase, true, false, Bool-cases, some,
}
use tweaking_pintos.Memory.{Memory, inside}
use tweaking_pintos.Palloc.{pgsize}
use tweaking_pintos.Palloc.Held.{IsSafe, give-IsSafe}
use tweaking_pintos.Malloc.{Heap, memory_of, pg_round_down}
use tweaking_pintos.Malloc.Free.{free_pages}
use tweaking_pintos.Malloc.Sizes.{bytes_range, bytes_7, IsBlock}
use tweaking_pintos.Malloc.Cover.{hits, count, cover, hits-inside, free_cover-count}
use tweaking_pintos.Malloc.Sound.{IsArena, Sound, AllBlocks}
use tweaking_pintos.Malloc.Arenas.{Has, Elsewhere, Sound-Elsewhere, cover_elsewhere}
use tweaking_pintos.Malloc.Buddies.{All-erase}
use tweaking_pintos.Malloc.Given.{IsSound}

elem-erase_ne :
    (a x : ℕ) (l : List ℕ) → (x == a) ≡ false → elem x l ≡ true → elem x (erase a l) ≡ true
elem-erase_ne a x [] ne e = absurd (cc e)
elem-erase_ne a x (z ∷ zs) ne e = elim (Bool-cases (a == z)) [
  | inl t ↦
      let same : z ≡ a = ground (arith, t) in
      let other : (x == z) ≡ false = rw same ne in
      let rest : elem x zs ≡ true = rw other at e in rw t rest
  | inr f ↦ elim (Bool-cases (x == z)) [
    | inl u ↦ rw (f, u) refl
    | inr u ↦ let rest : elem x zs ≡ true = rw u at e in rw (f, u) (elem-erase_ne a x zs ne rest)
  ]
]

elem-erase_miss : (a x : ℕ) (l : List ℕ) → elem x l ≡ false → elem x (erase a l) ≡ false
elem-erase_miss a x [] e = refl
elem-erase_miss a x (z ∷ zs) e = elim (Bool-cases (x == z)) [
  | inl u ↦ absurd (cc (u, e))
  | inr u ↦
      let rest : elem x zs ≡ false = rw u at e in
      elim (Bool-cases (a == z)) [
        | inl t ↦ rw t rest
        | inr t ↦ rw (t, u) (elem-erase_miss a x zs rest)
      ]
]

elem-erase_self : (a : ℕ) (l : List ℕ) → Distinct l → elem a (erase a l) ≡ false
elem-erase_self a [] h = refl
elem-erase_self a (z ∷ zs) (h, hs) = elim (Bool-cases (a == z)) [
  | inl t ↦ let same : z ≡ a = ground (arith, t) in rw t (subst (λ z. elem z zs ≡ false) same h)
  | inr t ↦ rw t (rw (t, elem-erase_self a zs hs) refl)
]

Distinct-erase : (a : ℕ) (l : List ℕ) → Distinct l → Distinct (erase a l)
Distinct-erase a [] h = tt
Distinct-erase a (z ∷ zs) (h, hs) = elim (Bool-cases (a == z)) [
  | inl t ↦ rw t hs
  | inr t ↦ rw t (elem-erase_miss a z zs h, Distinct-erase a zs hs)
]

-- A block that shares no byte with the block of a whole arena lies in another arena.
block_other :
    (arenas : List ℕ) (a : ℕ) (b : ℕ × ℕ)
    → a % pgsize ≡ 0
    → IsBlock arenas b
    → (hits b.0 b.1 b.0 + hits (a + 24) 7 b.0 ≤ 1)
    → IsBlock (erase a arenas) b
block_other arenas a b al h apart =
    let range = bytes_range b.1 h.index in
    let self = hits-inside b.0 b.1 b.0 (omega arith) (omega (arith, range)) in
    let other : (pg_round_down b.0 == a) ≡ false = elim (Bool-cases (pg_round_down b.0 == a)) [
      | inl t ↦
          let page : pg_round_down b.0 ≡ a = ground (arith, t) in
          let both =
            hits-inside (a + 24) 7 b.0 (omega (arith, page, h.header))
              (omega (arith, page, h.header, h.inside, range, bytes_7)) in
          absurd (omega (arith, self, both, apart))
      | inr f ↦ f
    ] in
    record {
      index = h.index;
      header = h.header;
      aligned = h.aligned;
      inside = h.inside;
      arena = elem-erase_ne a (pg_round_down b.0) arenas other h.arena;
    }

free_other :
    (arenas : List ℕ) (a i : ℕ) (xs : List ℕ)
    → a % pgsize ≡ 0
    → ((y : ℕ) → count i xs y + hits (a + 24) 7 y ≤ 1)
    → AllBlocks arenas i xs
    → AllBlocks (erase a arenas) i xs
unfolding count
free_other arenas a i [] al apart h = tt
free_other arenas a i (x ∷ xs) al apart (h, hs) = (
  block_other arenas a (x, i) al h (omega (arith, apart x)),
  free_other arenas a i xs al (λ y. omega (arith, apart y)) hs,
)

held_other :
    (arenas : List ℕ) (a : ℕ) (bs : List (ℕ × ℕ))
    → a % pgsize ≡ 0
    → ((y : ℕ) → cover bs y + hits (a + 24) 7 y ≤ 1)
    → All (IsBlock arenas) bs
    → All (IsBlock (erase a arenas)) bs
unfolding cover
held_other arenas a [] al apart h = tt
held_other arenas a (b ∷ bs) al apart (h, hs) = (
  block_other arenas a b al h (omega (arith, apart b.0)),
  held_other arenas a bs al (λ y. omega (arith, apart y)) hs,
)

-- The arena is taken off the list.
Sound-drop :
    (arenas : List ℕ) (f : ℕ → List ℕ) (m : Memory) (held : List (ℕ × ℕ)) (a : ℕ)
    → a % pgsize ≡ 0
    → elem a arenas ≡ true
    → Sound arenas f m ((a + 24, 7) ∷ held)
    → Sound (erase a arenas) f m held
unfolding cover
Sound-drop arenas f m held a al e s = record {
  headers = (All-erase (IsArena m) a arenas e s.headers).1;
  blocks = λ i l.
      free_other arenas a i (f i) al (λ y. omega (arith, s.single y, free_cover-count 7 i f y l))
        (s.blocks i l);
  sizes = s.sizes;
  out = held_other arenas a held al (λ y. omega (arith, s.single y)) s.out.1;
  single = λ y. omega (arith, s.single y);
}

Has-split :
    (a : ℕ) (gs : List (ℕ × ℕ))
    → Has a gs
    → (xs : List (ℕ × ℕ)) × (ys : List (ℕ × ℕ)) × (gs ≡ (xs ++ ((a, 1) ∷ ys)))
Has-split a [] m = elim m [ ]
Has-split a (g ∷ gs) (inl e) = ([], gs, ap (λ g. g ∷ gs) e)
Has-split a (g ∷ gs) (inr m) = let (xs, ys, e) = Has-split a gs m in (g ∷ xs, ys, ap (λ l. g ∷ l) e)

Has-rest :
    (a b : ℕ) (xs ys : List (ℕ × ℕ))
    → (b == a) ≡ false
    → Has b (xs ++ ((a, 1) ∷ ys))
    → Has b (xs ++ ys)
Has-rest a b [] ys ne (inl e) = absurd (omega (arith, ne', ap (λ (g : ℕ × ℕ). g.0) e))
  where
    ne' : a ≢ b
    ne' = ground (arith, ne)
Has-rest a b [] ys ne (inr m) = m
Has-rest a b (x ∷ xs) ys ne (inl e) = inl e
Has-rest a b (x ∷ xs) ys ne (inr m) = inr (Has-rest a b xs ys ne m)

pages_rest :
    (a : ℕ) (xs ys : List (ℕ × ℕ)) (l : List ℕ)
    → elem a l ≡ false
    → All (λ b. Has b (xs ++ ((a, 1) ∷ ys))) l
    → All (λ b. Has b (xs ++ ys)) l
pages_rest a xs ys [] e h = tt
pages_rest a xs ys (b ∷ l) e (h, hs) = elim (Bool-cases (a == b)) [
  | inl t ↦ absurd (cc (t, e))
  | inr t ↦
      let rest : elem a l ≡ false = rw t at e in
      (Has-rest a b xs ys (ground (arith, t)) h, pages_rest a xs ys l rest hs)
]

-- What a heap is after the arena has gone.
pub record IsEmptied (held groups : List (ℕ × ℕ)) (a : ℕ) (h h' : Heap) : Type 0 where
  pub before : List (ℕ × ℕ)
  pub behind : List (ℕ × ℕ)
  pub group : groups ≡ (before ++ ((a, 1) ∷ behind))
  pub sound : IsSound h' held (before ++ behind)
  pub lists : h'.free_list ≡ h.free_list
  pub arenas : h'.arena_list ≡ erase a h.arena_list
  pub kept : (y : ℕ) → cover held y ≡ 1 → memory_of h' y ≡ memory_of h y

pub free_pages-IsEmptied :
    (held groups : List (ℕ × ℕ)) (a : ℕ) (h : Heap)
    → a % pgsize ≡ 0
    → elem a h.arena_list ≡ true
    → IsSound h ((a + 24, 7) ∷ held) groups
    → (h' : Heap) × (free_pages a 1 (record h { arena_list = erase a h.arena_list }) ≡ some h')
      × IsEmptied held groups a h h'
unfolding free_pages
free_pages-IsEmptied held groups a h al e s =
    let has = (All-erase (λ b. Has b groups) a h.arena_list e s.pages).0 in
    let (xs, ys, eg) = Has-split a groups has in
    let (s', e', safe, same) = give-IsSafe h.pools xs ys a 1 (subst (IsSafe h.pools) eg s.pools) in
    let l = erase a h.arena_list in
    let away : Elsewhere l (memory_of h) s'.memory =
      λ y t. same y (far l y (elem-erase_self a h.arena_list s.distinct) t) in
    let dropped = Sound-drop h.arena_list h.free_list (memory_of h) held a al e s.heap in
    let h' = record h { arena_list = l; pools = s' } in
    (
      h',
      rw e' refl,
      record {
        before = xs;
        behind = ys;
        group = eg;
        sound = record {
          heap = Sound-Elsewhere l h.free_list (memory_of h) s'.memory held away dropped;
          pools = safe;
          pages = pages_rest a xs ys l (elem-erase_self a h.arena_list s.distinct) (
              subst (λ gs. All (λ b. Has b gs) l) eg
                (All-erase (λ b. Has b groups) a h.arena_list e s.pages).1);
          distinct = Distinct-erase a h.arena_list s.distinct;
        };
        lists = refl;
        arenas = refl;
        kept = λ y once. elim (Bool-cases (elem (pg_round_down y) l)) [
          | inl t ↦ away y t
          | inr f ↦
              let none_here = cover_elsewhere l held y dropped.out f in
              absurd (omega (arith, once, none_here))
        ];
      },
    )
  where
    far :
        (l : List ℕ) (y : ℕ)
        → elem a l ≡ false
        → elem (pg_round_down y) l ≡ true
        → inside a (pgsize * 1) y ≡ false
    far l y miss t = elim (Bool-cases (pg_round_down y == a)) [
      | inl u ↦
          let page : pg_round_down y ≡ a = ground (arith, u) in
          absurd (differ (sym miss ∙ ap (λ p. elem p l) (sym page) ∙ t))
      | inr u ↦ ground (arith, u, al)
    ]
      where
        differ : false ≡ true → ⊥
        differ e = cc e
