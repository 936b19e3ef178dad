-- ===== src/Malloc/Carve.antt =====
-- Blocks cut from a page: arena_to_block() with the size written, and the first loop of malloc().
use tweaking_pintos.Prelude.{
  ℕ, zero, suc, ◌+◌, ◌*◌, ◌≤◌, ◌<◌, ◌≡◌, refl, sym, ap, ◌∙◌, subst, List, [], ◌∷◌, ◌++◌, arith,
  ◌==◌, ◌!=◌, inl, inr, All, All-elem, true, some, ltb, Bool-cases, ◌&&◌,
}
use tweaking_pintos.Memory.{Memory, null}
use tweaking_pintos.Memory.Words.{write_word, read_word-write_word}
use tweaking_pintos.Palloc.{set_memory}
use tweaking_pintos.Malloc.{
  Heap, memory_of, set_size, arena_magic, magic_of, size_of, pg_round_down, arena_to_block,
  push_back, cut_block, carve,
}
use tweaking_pintos.Malloc.Sizes.{
  table, bytes, bytes_range, bytes-suc, IsBlock, block_size-bytes, block_size-lt,
}
use tweaking_pintos.Malloc.Cover.{
  hits, free_cover, hits-apart, hits-suc, count-append, free_cover-replace,
}
use tweaking_pintos.Malloc.Sound.{IsArena, Sound, Within, Sound-give, Sound-halve, Sound-Within}

-- A heap whose blocks are sound, with the blocks `held` by clients.
abbrev pub IsHeap : (arenas : List ℕ) → Heap → (held : List (ℕ × ℕ)) → Type 0
IsHeap arenas h held = Sound arenas h.free_list (memory_of h) held

-- Two heaps that differ in the free lists and in the bytes of one block only.
pub record Change (b : ℕ × ℕ) (h h' : Heap) : Type 0 where
  pub kept : Within b (memory_of h) (memory_of h')
  pub list : h'.arena_list ≡ h.arena_list
  pub pools : h'.pools ≡ set_memory (memory_of h') h.pools

-- The page of a block is an arena.
pub Sound-IsArena :
    (arenas : List ℕ) (f : ℕ → List ℕ) (m : Memory) (b : ℕ × ℕ)
    → All (IsArena m) arenas
    → IsBlock arenas b
    → IsArena m (pg_round_down b.0)
Sound-IsArena arenas f m b hs h = All-elem (IsArena m) (pg_round_down b.0) arenas hs h.arena

-- The header of an arena passes the test.
pub IsArena-test :
    (m : Memory) (a : ℕ) → IsArena m a → (a != null && magic_of a m == arena_magic) ≡ true
IsArena-test m a h = ground (arith, h.valid, h.magic)

pub set_size-Within :
    (b : ℕ × ℕ) (m : Memory) (x i v : ℕ)
    → i < 8
    → b.0 ≤ x
    → x + bytes i ≤ b.0 + bytes b.1
    → Within b m (write_word m (x + 12) v)
unfolding write_word
set_size-Within b m x i v l low high a miss =
    let range = bytes_range i l in ground (arith, hits-apart b.0 b.1 a miss, range)

-- A block cut from a block that is held.
pub cut_block_lem :
    (arenas : List ℕ) (held : List (ℕ × ℕ)) (b : ℕ × ℕ) (a idx i x : ℕ) (h : Heap)
    → i < 7
    → IsHeap arenas h (b ∷ held)
    → a ≡ pg_round_down b.0
    → a + 24 + idx * bytes i ≡ x
    → b.0 ≤ x
    → x + bytes i ≤ b.0 + bytes b.1
    → (cut_block table a idx i h ≡ some (x, set_size x (bytes i) h))
      × IsHeap arenas (set_size x (bytes i) h) (b ∷ held)
      × (size_of x (memory_of (set_size x (bytes i) h)) ≡ bytes i)
      × Within b (memory_of h) (memory_of (set_size x (bytes i) h))
unfolding cut_block arena_to_block
cut_block_lem arenas held b a idx i x h l s ea ex low high =
    let arena : IsArena (memory_of h) a =
      subst (IsArena (memory_of h)) (sym ea)
        (Sound-IsArena arenas h.free_list (memory_of h) b s.headers s.out.0) in
    let test = IsArena-test (memory_of h) a arena in
    let range = bytes_range i (omega arith) in
    let w = set_size-Within b (memory_of h) x i (bytes i) (omega arith) low high in
    (
      rw (test, block_size-bytes i l, ex) refl,
      Sound-Within arenas h.free_list (memory_of h) (memory_of (set_size x (bytes i) h)) b held w s,
      read_word-write_word (memory_of h) (x + 12) (bytes i) (omega (arith, range)),
      w,
    )

pub Change-refl : (b : ℕ × ℕ) (h : Heap) → Change b h h
Change-refl b h = record { kept = λ a miss. refl; list = refl; pools = refl }

-- A change of a part after a change of the whole.
pub Change-trans :
    (b c : ℕ × ℕ) (h h1 h2 : Heap)
    → ((a : ℕ) → hits c.0 c.1 a ≤ hits b.0 b.1 a)
    → Change b h h1
    → Change c h1 h2
    → Change b h h2
Change-trans b c h h1 h2 part x y = record {
  kept = λ a miss. y.kept a (omega (arith, part a, miss)) ∙ x.kept a miss;
  list = y.list ∙ x.list;
  pools = y.pools ∙ ap (set_memory (memory_of h2)) x.pools;
}

-- The first loop of malloc() halves the block behind the header until the first piece has twice the
-- size asked for.
pub carve_lem :
    (arenas : List ℕ) (held : List (ℕ × ℕ)) (a d i : ℕ) (h : Heap)
    → i < 7
    → d ≤ i
    → a ≡ pg_round_down (a + 24)
    → IsHeap arenas h ((a + 24, suc i) ∷ held)
    → (h' : Heap) × (carve table i a d h ≡ some (d, h'))
      × IsHeap arenas h' ((a + 24, suc d) ∷ held)
      × Change (a + 24, suc i) h h'
      × ((x : ℕ)
          → free_cover 7 h'.free_list x + hits (a + 24) (suc d) x
            ≡ free_cover 7 h.free_list x + hits (a + 24) (suc i) x)
unfolding carve push_back
carve_lem arenas held a d zero h l le ea s =
    let zero_d : d ≡ 0 = omega arith in
    (
      h,
      rw zero_d refl,
      subst (λ d. IsHeap arenas h ((a + 24, suc d) ∷ held)) (sym zero_d) s,
      Change-refl (a + 24, 1) h,
      λ x. rw zero_d refl,
    )
carve_lem arenas held a d (suc i) h l le ea s = elim (Bool-cases (ltb d (suc i))) [
  | inl more ↦
      let two = bytes-suc (suc i) l in
      let x = a + 24 + bytes (suc i) in
      let (e, s1, size, w) =
        cut_block_lem arenas held (a + 24, suc (suc i)) a 1 (suc i) x h l s ea (omega arith)
          (omega arith) (omega (arith, two)) in
      let h1 = set_size x (bytes (suc i)) h in
      let s2 = Sound-halve arenas h.free_list (memory_of h1) held (suc i) (a + 24) l s1 in
      let s3 =
        Sound-give arenas h.free_list (memory_of h1) ((a + 24, suc i) ∷ held) (suc i) x l size s2 in
      let h2 = push_back table (suc i) x h1 in
      let (h', e', s', c, cov) =
        carve_lem arenas held a d i h2 (omega arith) (ground (arith, more)) ea s3 in
      (
        h',
        rw (block_size-lt d (omega arith) (suc i) l, more, e) e',
        s',
        Change-trans (a + 24, suc (suc i)) (a + 24, suc i) h h2 h'
            (λ y. omega (arith, hits-suc (a + 24) (suc i) y l))
            (record { kept = w; list = refl; pools = refl }) c,
        λ y. omega (
          arith,
          cov y,
          hits-suc (a + 24) (suc i) y l,
          free_cover-replace 7 (suc i) (h.free_list (suc i) ++ (x ∷ [])) h.free_list y l,
          count-append (suc i) (h.free_list (suc i)) x y,
        ),
      )
  | inr done ↦
      let same : d ≡ suc i = ground (arith, done, le) in
      (
        h,
        rw (block_size-lt d (omega arith) (suc i) l, done) (rw same refl),
        subst (λ d. IsHeap arenas h ((a + 24, suc d) ∷ held)) (sym same) s,
        Change-refl (a + 24, suc (suc i)) h,
        λ x. rw same refl,
      )
]
