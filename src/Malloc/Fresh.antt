-- ===== src/Malloc/Fresh.antt =====
-- Pages for malloc(): a new arena, and a group of pages for a large request.
use tweaking_pintos.Prelude.{
  ℕ, suc, ◌+◌, ◌%◌, ◌<◌, ◌≡◌, refl, sym, ap, ◌∙◌, List, [], ◌∷◌, ◌++◌, arith, ◌==◌, inl, inr, elem,
  true, false, Bool-cases, some,
}
use tweaking_pintos.Memory.Words.{write_word, read_word-write_word, read_word-frame}
use tweaking_pintos.Palloc.{Pools, pgsize}
use tweaking_pintos.Palloc.Given.{IsPools, IsGiven}
use tweaking_pintos.Palloc.Held.{IsSafe, get-IsSafe, IsSafe-memory}
use tweaking_pintos.Malloc.{
  Heap, memory_of, set_size, set_arena, arena_magic, magic_of, pg_round_down, push_back, cut_block,
}
use tweaking_pintos.Malloc.Sizes.{table, bytes, bytes-suc}
use tweaking_pintos.Malloc.Cover.{hits, free_cover, count-append, free_cover-replace, hits-suc}
use tweaking_pintos.Malloc.Sound.{Sound-give, Sound-halve}
use tweaking_pintos.Malloc.Carve.{IsHeap, Change, cut_block_lem}
use tweaking_pintos.Malloc.Arenas.{Has-new, Sound-Elsewhere}
use tweaking_pintos.Malloc.Given.{IsSound}

-- The end of malloc_fresh(): the buddy goes to the free list, the block to the caller.
unfoldable pub last_two : (a d : ℕ) → Heap → Heap
last_two a d h =
    set_size (a + 24) (bytes d)
      (push_back table d (a + 24 + bytes d) (set_size (a + 24 + bytes d) (bytes d) h))

pub last_two_lem :
    (arenas : List ℕ) (held : List (ℕ × ℕ)) (a d : ℕ) (h : Heap)
    → d < 7
    → a ≡ pg_round_down (a + 24)
    → IsHeap arenas h ((a + 24, suc d) ∷ held)
    → (cut_block table a 1 d h ≡ some (a + 24 + bytes d, set_size (a + 24 + bytes d) (bytes d) h))
      × (cut_block table a 0 d
            (push_back table d (a + 24 + bytes d) (set_size (a + 24 + bytes d) (bytes d) h))
          ≡ some (a + 24, last_two a d h))
      × IsHeap arenas (last_two a d h) ((a + 24, d) ∷ held)
      × Change (a + 24, suc d) h (last_two a d h)
      × ((y : ℕ)
          → free_cover 7 (last_two a d h).free_list y + hits (a + 24) d y
            ≡ free_cover 7 h.free_list y + hits (a + 24) (suc d) y)
unfolding push_back last_two
last_two_lem arenas held a d h l ea s =
    let two = bytes-suc d l in
    let x = a + 24 + bytes d in
    let (e1, s1, size1, w1) =
      cut_block_lem arenas held (a + 24, suc d) a 1 d x h l s ea (omega arith) (omega arith)
        (omega (arith, two)) in
    let h1 = set_size x (bytes d) h in
    let s2 = Sound-halve arenas h.free_list (memory_of h1) held d (a + 24) l s1 in
    let s3 = Sound-give arenas h.free_list (memory_of h1) ((a + 24, d) ∷ held) d x l size1 s2 in
    let h2 = push_back table d x h1 in
    let (e2, s4, size2, w2) =
      cut_block_lem arenas held (a + 24, d) a 0 d (a + 24) h2 l s3 ea (omega arith) (omega arith)
        (omega arith) in
    (
      e1,
      e2,
      s4,
      record {
        kept = λ y miss. w2 y (omega (arith, miss, hits-suc (a + 24) d y l)) ∙ w1 y miss;
        list = refl;
        pools = refl;
      },
      λ y. omega (
        arith,
        hits-suc (a + 24) d y l,
        free_cover-replace 7 d (h.free_list d ++ (x ∷ [])) h.free_list y l,
        count-append d (h.free_list d) x y,
      ),
    )

-- The heap with a page more that has been given a header.
unfoldable pub with_arena : (a num_pages : ℕ) → Pools → Heap → Heap
with_arena a num_pages pools h = set_arena a num_pages (record h { pools = pools })

-- The header is written to the new pages only.
with_arena-same :
    (a n : ℕ) (pools : Pools) (h : Heap) (y : ℕ)
    → a % pgsize ≡ 0
    → (pg_round_down y == a) ≡ false
    → memory_of (with_arena a n pools h) y ≡ pools.memory y
unfolding with_arena write_word
with_arena-same a n pools h y al other = ground (arith, al, other)

pub with_arena-magic :
    (a n : ℕ) (pools : Pools) (h : Heap)
    → magic_of a (memory_of (with_arena a n pools h)) ≡ arena_magic
unfolding with_arena
with_arena-magic a n pools h =
    read_word-frame (write_word pools.memory a arena_magic) (a + 20) a n (inr (omega arith))
    ∙ read_word-write_word pools.memory a arena_magic (omega arith)

-- Pages that palloc_get_multiple() gives out to a heap.
pub record IsNewPages (n num a : ℕ) (pools : Pools) (h : Heap) (held groups : List (ℕ × ℕ))
    : Type 0 where
  pub aligned : a % pgsize ≡ 0
  pub new : elem a h.arena_list ≡ false
  pub heap : IsHeap h.arena_list (with_arena a num pools h) held
  pub safe : IsSafe (with_arena a num pools h).pools ((a, n) ∷ groups)
  pub kept :
      (y : ℕ)
      → (pg_round_down y == a) ≡ false
      → memory_of (with_arena a num pools h) y ≡ memory_of h y

pub with_arena-IsNewPages :
    (n num a : ℕ) (pools : Pools) (h : Heap) (held groups : List (ℕ × ℕ))
    → 0 < n
    → IsSound h held groups
    → IsGiven false n h.pools a pools
    → IsPools pools
    → ((y : ℕ) → pools.memory y ≡ memory_of h y)
    → IsNewPages n num a pools h held groups
unfolding with_arena
with_arena-IsNewPages n num a pools h held groups pos s g hp same =
    let al : a % pgsize ≡ 0 = omega (arith, g.place, s.pools.pools.kernel.aligned) in
    let safe0 = get-IsSafe false n h.pools a pools groups s.pools pos g hp in
    let new = Has-new a n groups h.arena_list pos safe0.apart.0 s.pages in
    let kept : (y : ℕ)
        → (pg_round_down y == a) ≡ false
        → memory_of (with_arena a num pools h) y ≡ memory_of h y =
      λ y other. with_arena-same a num pools h y al other ∙ same y in
    record {
      aligned = al;
      new = new;
      heap =
          Sound-Elsewhere h.arena_list h.free_list (memory_of h)
            (memory_of (with_arena a num pools h)) held
            (λ y e. elim (Bool-cases (pg_round_down y == a)) [
              | inl t ↦
                  let here : pg_round_down y ≡ a = ground (arith, t) in
                  absurd (differ (sym new ∙ ap (λ p. elem p h.arena_list) (sym here) ∙ e))
              | inr f ↦ kept y f
            ])
            s.heap;
      safe = IsSafe-memory pools (memory_of (with_arena a num pools h)) ((a, n) ∷ groups) safe0;
      kept = kept;
    }
  where
    differ : false ≡ true → ⊥
    differ e = cc e
