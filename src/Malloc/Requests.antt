-- ===== src/Malloc/Requests.antt =====
-- Requests of malloc() that need a new page.
use tweaking_pintos.Prelude.{
  ℕ, suc, ◌+◌, ◌≤◌, ◌<◌, ◌≡◌, refl, sym, ap, ◌∙◌, subst, List, [], ◌∷◌, ◌++◌, arith, ◌==◌, ◌⊎◌, inl,
  inr, All, Distinct, elem, elem-append, false, Bool-cases, some, All-append,
}
use tweaking_pintos.Memory.{null}
use tweaking_pintos.Bitmap.Search.{HasNoGroup}
use tweaking_pintos.Palloc.{Pools, palloc_get_multiple}
use tweaking_pintos.Palloc.Get.{palloc_get_multiple-IsGiven}
use tweaking_pintos.Palloc.Held.{IsSafe, IsSafe-memory}
use tweaking_pintos.Malloc.{
  Heap, memory_of, pg_round_down, malloc_fresh, cut_block, push_back, set_size, carve,
}
use tweaking_pintos.Malloc.Sizes.{table, bytes, bytes_7}
use tweaking_pintos.Malloc.Cover.{hits, free_cover, hits-outside, hits-le}
use tweaking_pintos.Malloc.Sound.{IsArena}
use tweaking_pintos.Malloc.Carve.{IsHeap, Change, Change-trans, carve_lem}
use tweaking_pintos.Malloc.Arenas.{Has, Has-more, Sound-page, cover_elsewhere}
use tweaking_pintos.Malloc.Given.{IsSound, IsCut, Sound-ne_null}
use tweaking_pintos.Malloc.Fresh.{
  last_two, last_two_lem, with_arena, with_arena-magic, IsNewPages, with_arena-IsNewPages,
}

-- One kernel page or more: none is left, or pages from `a` on are given out.
pub kernel_pages :
    (n : ℕ) (h : Heap) (held groups : List (ℕ × ℕ))
    → 0 < n
    → IsSound h held groups
    → (HasNoGroup h.pools.kernel_pool.used_map 0 n false
        × (palloc_get_multiple 0 n h.pools ≡ some (null, h.pools)))
      ⊎ ((a : ℕ) × (t : Pools) × (palloc_get_multiple 0 n h.pools ≡ some (a, t))
          × ((a == null) ≡ false)
          × ((num : ℕ) → IsNewPages n num a t h held groups))
kernel_pages n h held groups pos s =
    elim (palloc_get_multiple-IsGiven 0 n h.pools s.pools.pools pos) [
      | inl (full, e) ↦ inl (full, e)
      | inr (a, t, e, g, hp, m) ↦ inr (
        a,
        t,
        e,
        ground (arith, g.place, s.pools.pools.kernel.positive),
        λ num. with_arena-IsNewPages n num a t h held groups pos s g hp m,
      )
    ]

-- The new arena at the end of the list.
unfoldable add_arena : (a : ℕ) → Heap → Heap
add_arena a h = record h { arena_list = h.arena_list ++ (a ∷ []) }

fresh_run :
    (d a : ℕ) (t : Pools) (h h2 : Heap)
    → palloc_get_multiple 0 1 h.pools ≡ some (a, t)
    → (a == null) ≡ false
    → carve table 6 a d (with_arena a 0 t h) ≡ some (d, h2)
    → (cut_block table a 1 d h2 ≡ some (a + 24 + bytes d, set_size (a + 24 + bytes d) (bytes d) h2))
    → (cut_block table a 0 d
          (push_back table d (a + 24 + bytes d) (set_size (a + 24 + bytes d) (bytes d) h2))
        ≡ some (a + 24, last_two a d h2))
    → malloc_fresh table d h ≡ some (a + 24, add_arena a (last_two a d h2))
unfolding malloc_fresh with_arena add_arena
fresh_run d a t h h2 e ne carved one two = rw (e, ne) (rw carved (rw one (rw two refl)))

elem-append_ne :
    (x a : ℕ) (l : List ℕ) → (a == x) ≡ false → elem x l ≡ false → elem x (l ++ (a ∷ [])) ≡ false
elem-append_ne x a l ne miss =
    let ne' : (x == a) ≡ false = ground (arith, ne) in rw (elem-append x l (a ∷ []), miss, ne') refl

Distinct-append : (a : ℕ) (l : List ℕ) → elem a l ≡ false → Distinct l → Distinct (l ++ (a ∷ []))
Distinct-append a [] new h = (refl, tt)
Distinct-append a (x ∷ xs) new (h, hs) = elim (Bool-cases (a == x)) [
  | inl t ↦ absurd (cc (t, new))
  | inr f ↦
      let rest : elem a xs ≡ false = rw f at new in
      (elem-append_ne x a xs f h, Distinct-append a xs rest hs)
]

-- A new arena with its first block given out.
fresh_sound :
    (held groups : List (ℕ × ℕ)) (d a : ℕ) (t : Pools) (h h3 : Heap)
    → IsSound h held groups
    → IsNewPages 1 0 a t h held groups
    → IsHeap (h.arena_list ++ (a ∷ [])) h3 ((a + 24, d) ∷ held)
    → Change (a + 24, 7) (with_arena a 0 t h) h3
    → ((y : ℕ)
        → free_cover 7 h3.free_list y + hits (a + 24) d y
          ≡ free_cover 7 h.free_list y + hits (a + 24) 7 y)
    → IsCut h held (hits (a + 24) 7) (a + 24, d) (add_arena a h3)
      × IsSound (add_arena a h3) ((a + 24, d) ∷ held) ((a, 1) ∷ groups)
unfolding add_arena with_arena
fresh_sound held groups d a t h h3 s new s3 ch cov =
    let list : h3.arena_list ++ (a ∷ []) ≡ h.arena_list ++ (a ∷ []) =
      ap (λ l. l ++ (a ∷ [])) ch.list in
    let s4 = subst (λ l. IsHeap l h3 ((a + 24, d) ∷ held)) (sym list) s3 in
    (
      record {
        valid =
            Sound-ne_null (h3.arena_list ++ (a ∷ [])) h3.free_list (memory_of h3) held (a + 24, d)
              s4;
        heap = s4;
        kept = λ y once. elim (Bool-cases (pg_round_down y == a)) [
          | inl e ↦
              let here : pg_round_down y ≡ a = ground (arith, e) in
              let none_here = cover_elsewhere h.arena_list held y s.heap.out (rw here new.new) in
              absurd (omega (arith, once, none_here))
          | inr e ↦ ch.kept y (hits-outside (a + 24) 7 y (far y e)) ∙ new.kept y e
        ];
        conserved = cov;
      },
      record {
        heap = s4;
        pools =
            subst (λ p. IsSafe p ((a, 1) ∷ groups)) (sym ch.pools)
              (IsSafe-memory (with_arena a 0 t h).pools (memory_of h3) ((a, 1) ∷ groups) new.safe);
        pages =
            subst (λ l. All (λ x. Has x ((a, 1) ∷ groups)) l) (sym list)
              (All-append (λ x. Has x ((a, 1) ∷ groups)) h.arena_list (a ∷ [])
                (Has-more (a, 1) groups h.arena_list s.pages) (inl refl, tt));
        distinct = subst Distinct (sym list) (Distinct-append a h.arena_list new.new s.distinct);
      },
    )
  where
    far : (y : ℕ) → (pg_round_down y == a) ≡ false → (y < a + 24) ⊎ (a + 24 + bytes 7 ≤ y)
    far y e = let size = bytes_7 in ground (arith, e, size, new.aligned)

-- malloc() from a new page.
pub malloc_fresh_lem :
    (held groups : List (ℕ × ℕ)) (d : ℕ) (h : Heap)
    → d < 7
    → IsSound h held groups
    → (HasNoGroup h.pools.kernel_pool.used_map 0 1 false
        × (malloc_fresh table d h ≡ some (null, h)))
      ⊎ ((a : ℕ) × (h' : Heap) × (malloc_fresh table d h ≡ some (a + 24, h'))
          × IsCut h held (hits (a + 24) 7) (a + 24, d) h'
          × IsSound h' ((a + 24, d) ∷ held) ((a, 1) ∷ groups))
unfolding malloc_fresh with_arena
malloc_fresh_lem held groups d h l s = elim (kernel_pages 1 h held groups (omega arith) s) [
  | inl (full, e) ↦ inl (full, rw e refl)
  | inr (a, t, e, ne, news) ↦
      let new = news 0 in
      let ea : a ≡ pg_round_down (a + 24) = omega (arith, new.aligned) in
      let h1 = with_arena a 0 t h in
      let arena : IsArena (memory_of h1) a = record {
        valid = ground (arith, ne);
        aligned = new.aligned;
        magic = with_arena-magic a 0 t h;
      } in
      let s1 = Sound-page h.arena_list h.free_list (memory_of h1) held a arena new.new new.heap in
      let (h2, e2, s2, c2, cov2) =
        carve_lem (h.arena_list ++ (a ∷ [])) held a d 6 h1 (omega arith) (omega arith) ea s1 in
      let (e3, e4, s3, c3, cov3) = last_two_lem (h.arena_list ++ (a ∷ [])) held a d h2 l ea s2 in
      let (cut, sound) =
        fresh_sound held groups d a t h (last_two a d h2) s new s3
          (Change-trans (a + 24, 7) (a + 24, suc d) h1 h2 (last_two a d h2)
            (λ y. hits-le (a + 24) (suc d) 7 y (omega arith) (omega arith)) c2 c3)
          (λ y. cov3 y ∙ cov2 y) in
      inr (a, add_arena a (last_two a d h2), fresh_run d a t h h2 e ne e2 e3 e4, cut, sound)
]
