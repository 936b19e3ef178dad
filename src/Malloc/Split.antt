-- ===== src/Malloc/Split.antt =====
-- The loop of malloc() that halves a free block until it has the size asked for.
use tweaking_pintos.Prelude.{
  ℕ, zero, suc, ◌+◌, ◌-◌, ◌*◌, ◌/◌, ◌%◌, ◌^◌, ◌≤◌, ◌<◌, ◌≡◌, refl, ap, ◌∙◌, List, [], ◌∷◌, ◌++◌,
  arith, ◌==◌, inl, inr, true, false, some, ltb, Bool-cases,
}
use tweaking_pintos.Memory.Words.{read_word-frame}
use tweaking_pintos.Palloc.{pgsize}
use tweaking_pintos.Malloc.{
  Heap, memory_of, set_list, set_size, size_of, pg_round_down, push_back, pop_front, cut_block,
  split,
}
use tweaking_pintos.Malloc.Sizes.{
  table, bytes, bytes_range, bytes-suc, offset, IsBlock, block_size-bytes, block_size-lt, halves,
}
use tweaking_pintos.Malloc.Cover.{
  count, free_cover, replace, hits-suc, count-append, count-cons, free_cover-replace,
}
use tweaking_pintos.Malloc.Sound.{Sound, Within, Sound-take, Sound-give, Sound-halve, Sound-swap}
use tweaking_pintos.Malloc.Carve.{IsHeap, Change, Change-refl, Change-trans, cut_block_lem}

-- Where the halves of a block stand.
half_places :
    (arenas : List ℕ) (x i : ℕ)
    → i < 7
    → IsBlock arenas (x, suc i)
    → (pg_round_down x + 24 + (2 * (offset x / bytes (suc i)) + 1) * bytes i ≡ x + bytes i)
      × (pg_round_down x + 24 + 2 * (offset x / bytes (suc i)) * bytes i ≡ x)
half_places arenas x i l h =
    let (_, _, one, two) = halves i l (offset x) h.aligned in
    (omega (arith, two, h.header), omega (arith, one, h.header))

-- Both halves of a held block with their sizes written.
unfoldable pub halved : (x i : ℕ) → Heap → Heap
halved x i h = set_size x (bytes i) (set_size (x + bytes i) (bytes i) h)

halved_lem :
    (arenas : List ℕ) (held : List (ℕ × ℕ)) (x i : ℕ) (h : Heap)
    → i < 7
    → IsHeap arenas h ((x, suc i) ∷ held)
    → (cut_block table (pg_round_down x) (2 * (offset x / bytes (suc i)) + 1) i h
        ≡ some (x + bytes i, set_size (x + bytes i) (bytes i) h))
      × (cut_block table
            (pg_round_down x)
            (2 * (offset x / bytes (suc i)))
            i
            (set_size (x + bytes i) (bytes i) h)
          ≡ some (x, halved x i h))
      × Sound arenas h.free_list (memory_of (halved x i h)) ((x + bytes i, i) ∷ (x, i) ∷ held)
      × (size_of x (memory_of (halved x i h)) ≡ bytes i)
      × (size_of (x + bytes i) (memory_of (halved x i h)) ≡ bytes i)
      × Within (x, suc i) (memory_of h) (memory_of (halved x i h))
unfolding halved
halved_lem arenas held x i h l s =
    let two = bytes-suc i l in
    let range = bytes_range i (omega arith) in
    let (p2, p1) = half_places arenas x i l s.out.0 in
    let (e2, s2, size2, w2) =
      cut_block_lem arenas held (x, suc i) (pg_round_down x) (2 * (offset x / bytes (suc i)) + 1) i
        (x + bytes i) h l s refl p2 (omega arith) (omega (arith, two)) in
    let h2 = set_size (x + bytes i) (bytes i) h in
    let (e1, s1, size1, w1) =
      cut_block_lem arenas held (x, suc i) (pg_round_down x) (2 * (offset x / bytes (suc i))) i x h2
        l s2 refl p1 (omega arith) (omega (arith, two)) in
    (
      e2,
      e1,
      Sound-halve arenas h.free_list (memory_of (set_size x (bytes i) h2)) held i x l s1,
      size1,
      read_word-frame (memory_of h2) (x + 12) (x + bytes i + 12) (bytes i)
            (inl (omega (arith, range)))
          ∙ size2,
      λ a miss. w1 a miss ∙ w2 a miss,
    )

-- The state after one round: both halves at the end of their free list.
unfoldable pub round : (x i : ℕ) → List ℕ → Heap → Heap
round x i xs h =
    push_back table i (x + bytes i) (push_back table i x (halved x i (set_list (suc i) xs h)))

-- One round of the loop.
round_lem :
    (arenas : List ℕ) (held : List (ℕ × ℕ)) (x i : ℕ) (xs : List ℕ) (h : Heap)
    → suc i < 7
    → h.free_list (suc i) ≡ (x ∷ xs)
    → h.free_list i ≡ []
    → IsHeap arenas h held
    → IsHeap arenas (round x i xs h) held
      × Change (x, suc i) h (round x i xs h)
      × ((round x i xs h).free_list i ≡ (x ∷ (x + bytes i) ∷ []))
      × ((y : ℕ) → free_cover 7 (round x i xs h).free_list y ≡ free_cover 7 h.free_list y)
unfolding round push_back halved
round_lem arenas held x i xs h l e none_i s =
    let h1 = set_list (suc i) xs h in
    let s1 = Sound-take arenas h.free_list (memory_of h) held (suc i) x xs l e s in
    let (_, _, s2, size1, size2, w) = halved_lem arenas held x i h1 (omega arith) s1 in
    let h2 = halved x i h1 in
    let m = memory_of h2 in
    let f1 = h1.free_list in
    let f2 = replace i (f1 i ++ (x ∷ [])) f1 in
    let s3 = Sound-swap arenas f1 m held (x + bytes i, i) (x, i) s2 in
    let s4 = Sound-give arenas f1 m ((x + bytes i, i) ∷ held) i x (omega arith) size1 s3 in
    let s5 = Sound-give arenas f2 m held i (x + bytes i) (omega arith) size2 s4 in
    let ne : (i == suc i) ≡ false = ground arith in
    let eq : (i == i) ≡ true = ground arith in
    (
      s5,
      record { kept = w; list = refl; pools = refl },
      rw (eq, ne, none_i) refl,
      λ y.
          let c : count (suc i) (h.free_list (suc i)) y ≡ count (suc i) (x ∷ xs) y =
            ap (λ l. count (suc i) l y) e in
          omega (
            arith,
            c,
            count-cons (suc i) x xs y,
            hits-suc x i y (omega arith),
            free_cover-replace 7 (suc i) xs h.free_list y l,
            free_cover-replace 7 i (f1 i ++ (x ∷ [])) f1 y (omega arith),
            count-append i (f1 i) x y,
            free_cover-replace 7 i (f2 i ++ ((x + bytes i) ∷ [])) f2 y (omega arith),
            count-append i (f2 i) (x + bytes i) y,
          ),
    )

pub pop_front_lem :
    (i x : ℕ) (xs : List ℕ) (h : Heap)
    → h.free_list i ≡ (x ∷ xs)
    → pop_front table i h ≡ some (x, set_list i xs h)
unfolding pop_front
pop_front_lem i x xs h e = rw (pop_front, e) refl

split-round :
    (arenas : List ℕ) (held : List (ℕ × ℕ)) (d i x : ℕ) (xs : List ℕ) (h : Heap)
    → suc i < 7
    → d ≤ i
    → h.free_list (suc i) ≡ (x ∷ xs)
    → IsHeap arenas h held
    → split table (suc i) (suc i) (pg_round_down x) d h
      ≡ split table i i (pg_round_down x) d (round x i xs h)
unfolding split round
split-round arenas held d i x xs h l le e s =
    let more : ltb d (suc i) ≡ true = ground (arith, le) in
    let back : suc i - 1 ≡ i = omega arith in
    let s1 = Sound-take arenas h.free_list (memory_of h) held (suc i) x xs l e s in
    let wrap : (x % pgsize + 2 ^ 32 - 24) % 2 ^ 32 ≡ offset x = omega (arith, s1.out.0.header) in
    let (e2, e1, _, _, _, _) =
      halved_lem arenas held x i (set_list (suc i) xs h) (omega arith) s1 in
    rw
      (
        block_size-lt d (omega arith) (suc i) l,
        more,
        pop_front_lem (suc i) x xs h e,
        block_size-bytes (suc i) l,
        wrap,
        e2,
        e1,
        back,
      )
      refl

-- The lists below are as before.
gap_round :
    (j x i : ℕ) (xs : List ℕ) (h : Heap) → j < i → (round x i xs h).free_list j ≡ h.free_list j
unfolding round push_back halved
gap_round j x i xs h lt =
    let ne : (j == i) ≡ false = ground (arith, lt) in
    let ne' : (j == suc i) ≡ false = ground (arith, lt) in rw (ne, ne') refl

-- The loop ends with a block of the size asked for at the front of its free list: the first part of
-- the block that was halved.
pub split_lem :
    (arenas : List ℕ) (held : List (ℕ × ℕ)) (d i x : ℕ) (xs : List ℕ) (h : Heap)
    → i < 7
    → d ≤ i
    → h.free_list i ≡ (x ∷ xs)
    → ((j : ℕ) → d ≤ j → j < i → h.free_list j ≡ [])
    → IsHeap arenas h held
    → (ys : List ℕ) × (h' : Heap) × (split table i i (pg_round_down x) d h ≡ some (d, h'))
      × (h'.free_list d ≡ (x ∷ ys))
      × IsHeap arenas h' held
      × Change (x, i) h h'
      × ((y : ℕ) → free_cover 7 h'.free_list y ≡ free_cover 7 h.free_list y)
unfolding split
split_lem arenas held d zero x xs h l le e gap s =
    let zero_d : d ≡ 0 = omega arith in
    (xs, h, rw zero_d refl, ap h.free_list zero_d ∙ e, s, Change-refl (x, 0) h, λ y. refl)
split_lem arenas held d (suc i) x xs h l le e gap s = elim (Bool-cases (ltb d (suc i))) [
  | inl more ↦
      let below : d ≤ i = ground (arith, more) in
      let (s', c, front, cov) = round_lem arenas held x i xs h l e (gap i below (omega arith)) s in
      let h1 = round x i xs h in
      let (ys, h', e', front', s2, c', cov') =
        split_lem arenas held d i x ((x + bytes i) ∷ []) h1 (omega arith) below front
          (λ j u v. gap_round j x i xs h (omega arith) ∙ gap j u (omega arith)) s' in
      (
        ys,
        h',
        split-round arenas held d i x xs h l below e s ∙ e',
        front',
        s2,
        Change-trans (x, suc i) (x, i) h h1 h' (λ y. omega (arith, hits-suc x i y (omega arith))) c
            c',
        λ y. cov' y ∙ cov y,
      )
  | inr done ↦
      let same : d ≡ suc i = ground (arith, done, le) in
      (
        xs,
        h,
        rw (block_size-lt d (omega arith) (suc i) l, done) (rw same refl),
        ap h.free_list same ∙ e,
        s,
        Change-refl (x, suc i) h,
        λ y. refl,
      )
]
