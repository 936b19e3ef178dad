-- ===== src/Malloc/Joined.antt =====
-- What joining a block with its buddy leaves of a heap: a part of free().
use tweaking_pintos.Prelude.{
  ℕ, suc, ◌+◌, ◌*◌, ◌/◌, ◌%◌, ◌^◌, ◌≤◌, ◌<◌, ◌≡◌, refl, ap, ◌∙◌, subst, List, ◌∷◌, arith, elem,
  erase, true,
}
use tweaking_pintos.Memory.Words.{write_word, read_word-write_word}
use tweaking_pintos.Palloc.{set_memory}
use tweaking_pintos.Malloc.{Heap, memory_of, set_list, set_size, size_of, pg_round_down}
use tweaking_pintos.Malloc.Free.{join}
use tweaking_pintos.Malloc.Sizes.{table, bytes, bytes_range, bytes-suc, offset}
use tweaking_pintos.Malloc.Cover.{hits, free_cover, cover, replace, hits-suc, free_cover-replace}
use tweaking_pintos.Malloc.Sound.{Sound, Sound-swap, Sound-Within}
use tweaking_pintos.Malloc.Carve.{IsHeap, set_size-Within}
use tweaking_pintos.Malloc.Buddies.{IsPair, first, second, count-erase, Sound-erase, Sound-join}

-- What a part of free() leaves of the bytes of held blocks, of the arenas and of the pages.
pub record IsQuiet (held : List (ℕ × ℕ)) (h h' : Heap) : Type 0 where
  pub kept : (a : ℕ) → cover held a ≡ 1 → memory_of h' a ≡ memory_of h a
  pub list : h'.arena_list ≡ h.arena_list
  pub pools : h'.pools ≡ set_memory (memory_of h') h.pools

pub IsQuiet-trans :
    (held : List (ℕ × ℕ)) (h h1 h2 : Heap)
    → IsQuiet held h h1
    → IsQuiet held h1 h2
    → IsQuiet held h h2
IsQuiet-trans held h h1 h2 x y = record {
  kept = λ a once. y.kept a once ∙ x.kept a once;
  list = y.list ∙ x.list;
  pools = y.pools ∙ ap (set_memory (memory_of h2)) x.pools;
}

-- The block `x` of index `i` has come to be the block `y` of the next index, with its buddy.
pub record IsJoined (arenas : List ℕ) (held : List (ℕ × ℕ)) (x i : ℕ) (h : Heap) (y : ℕ) (h' : Heap)
    : Type 0 where
  pub heap : IsHeap arenas h' ((y, suc i) ∷ held)
  pub size : size_of y (memory_of h') ≡ bytes (suc i)
  pub page : pg_round_down y ≡ pg_round_down x
  pub low : y ≤ x
  pub high : x + bytes i ≤ y + bytes (suc i)
  pub quiet : IsQuiet held h h'
  pub cov :
      (a : ℕ)
      → free_cover 7 h'.free_list a + hits y (suc i) a ≡ free_cover 7 h.free_list a + hits x i a

-- The size is doubled in the lower half of a block that is held.
doubled :
    (arenas : List ℕ) (held : List (ℕ × ℕ)) (x i : ℕ) (h : Heap)
    → i < 7
    → size_of x (memory_of h) ≡ bytes i
    → IsHeap arenas h ((x, suc i) ∷ held)
    → IsHeap arenas (set_size x (size_of x (memory_of h) * 2 % 2 ^ 32) h) ((x, suc i) ∷ held)
      × (size_of x (memory_of (set_size x (size_of x (memory_of h) * 2 % 2 ^ 32) h))
          ≡ bytes (suc i))
      × IsQuiet held h (set_size x (size_of x (memory_of h) * 2 % 2 ^ 32) h)
unfolding cover
doubled arenas held x i h l size s =
    let two = bytes-suc i l in
    let range = bytes_range i (omega arith) in
    let twice : size_of x (memory_of h) * 2 % 2 ^ 32 ≡ bytes (suc i) =
      omega (arith, size, two, range) in
    let w =
      set_size-Within (x, suc i) (memory_of h) x (suc i) (size_of x (memory_of h) * 2 % 2 ^ 32)
        (omega arith) (omega arith) (omega arith) in
    let m' = write_word (memory_of h) (x + 12) (size_of x (memory_of h) * 2 % 2 ^ 32) in
    (
      Sound-Within arenas h.free_list (memory_of h) m' (x, suc i) held w s,
      read_word-write_word (memory_of h) (x + 12) (size_of x (memory_of h) * 2 % 2 ^ 32)
            (omega (arith, twice, two, range))
          ∙ twice,
      record { kept = λ a once. w a (omega (arith, once, s.single a)); list = refl; pools = refl },
    )

-- The first address and the heap that join() gives.
pub joined_lem :
    (arenas : List ℕ) (held : List (ℕ × ℕ)) (x i b : ℕ) (h : Heap)
    → i < 7
    → IsHeap arenas h ((x, i) ∷ held)
    → size_of x (memory_of h) ≡ bytes i
    → elem b (h.free_list i) ≡ true
    → IsPair arenas x i b
    → IsJoined arenas held x i h
        (join table (offset x / bytes i) x b (set_list i (erase b (h.free_list i)) h)).0
        (join table (offset x / bytes i) x b (set_list i (erase b (h.free_list i)) h)).1
unfolding join
joined_lem arenas held x i b h l s size free pair =
    let f1 = replace i (erase b (h.free_list i)) h.free_list in
    let h1 = set_list i (erase b (h.free_list i)) h in
    let (s1, size_b) = Sound-erase arenas h.free_list (memory_of h) ((x, i) ∷ held) i b l free s in
    let gone : (a : ℕ) → free_cover 7 f1 a + hits b i a ≡ free_cover 7 h.free_list a = λ a. omega (
      arith,
      free_cover-replace 7 i (erase b (h.free_list i)) h.free_list a l,
      count-erase i b (h.free_list i) a free,
    ) in
    elim pair [
      | first t place block ↦
          let s2 = Sound-swap arenas f1 (memory_of h) held (b, i) (x, i) s1 in
          let s3 =
            Sound-join arenas f1 (memory_of h) held i x l block
              (subst (λ b. Sound arenas f1 (memory_of h) ((x, i) ∷ (b, i) ∷ held)) place s2) in
          let (s4, size', quiet) = doubled arenas held x i h1 l size s3 in
          rw t (record {
            heap = s4;
            size = size';
            page = refl;
            low = omega arith;
            high = omega (arith, bytes-suc i l);
            quiet = record { kept = quiet.kept; list = quiet.list; pools = quiet.pools };
            cov = λ a.
                let same : hits b i a ≡ hits (x + bytes i) i a = ap (λ b. hits b i a) place in
                omega (arith, gone a, hits-suc x i a l, same);
          })
      | second t place page block ↦
          let s3 =
            Sound-join arenas f1 (memory_of h) held i b l block
              (subst (λ x. Sound arenas f1 (memory_of h) ((b, i) ∷ (x, i) ∷ held)) place s1) in
          let (s4, size', quiet) = doubled arenas held b i h1 l size_b s3 in
          rw t (record {
            heap = s4;
            size = size';
            page = page;
            low = omega (arith, place);
            high = omega (arith, place, bytes-suc i l);
            quiet = record { kept = quiet.kept; list = quiet.list; pools = quiet.pools };
            cov = λ a.
                let same : hits x i a ≡ hits (b + bytes i) i a = ap (λ x. hits x i a) place in
                omega (arith, gone a, hits-suc b i a l, same);
          })
    ]
