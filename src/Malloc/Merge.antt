-- ===== src/Malloc/Merge.antt =====
-- The loop of free() that joins a block with its buddies.
use tweaking_pintos.Prelude.{
  ℕ, zero, suc, ◌+◌, ◌-◌, ◌*◌, ◌/◌, ◌%◌, ◌^◌, ◌≤◌, ◌<◌, ◌≡◌, refl, sym, ◌∙◌, subst, List, [], ◌∷◌,
  ◌++◌, arith, ◌==◌, eqb_refl, false, elem-append, ◌!=◌, inl, inr, elem, erase, true, Bool-cases,
  if◌then◌else◌, some, Option,
}
use tweaking_pintos.Palloc.{pgsize}
use tweaking_pintos.Malloc.{
  Heap, memory_of, set_list, size_of, pg_round_down, arena_to_block, push_back,
}
use tweaking_pintos.Malloc.Free.{buddy_index, join, merge, free_pages}
use tweaking_pintos.Malloc.Sizes.{table, bytes, bytes_range, offset, block_size-bytes}
use tweaking_pintos.Malloc.Cover.{hits, free_cover, free_cover-replace, count-append}
use tweaking_pintos.Malloc.Sound.{IsArena, Sound-give}
use tweaking_pintos.Malloc.Carve.{IsHeap, IsArena-test, Sound-IsArena}
use tweaking_pintos.Malloc.Buddies.{IsPair, first, second, buddy-IsPair}
use tweaking_pintos.Malloc.Joined.{IsQuiet, IsQuiet-trans, IsJoined, joined_lem}

-- The buddy that one round looks for.
abbrev buddy_of : (x i : ℕ) → ℕ
buddy_of x i = pg_round_down x + 24 + buddy_index table (offset x / bytes i) * bytes i

-- One round of the loop on a held block.
merge-round :
    (arenas : List ℕ) (held : List (ℕ × ℕ)) (n i arena x : ℕ) (h : Heap)
    → i < 7
    → arena ≡ pg_round_down x
    → IsHeap arenas h ((x, i) ∷ held)
    → size_of x (memory_of h) ≡ bytes i
    → merge table (suc n) i arena x h ≡ (
        let b = buddy_of x i in
        let joined = join table (offset x / bytes i) x b (set_list i (erase b (h.free_list i)) h) in
        if elem b (h.free_list i)
        then merge table n (i + 1) arena joined.0 joined.1
        else some (push_back table i x h))
unfolding merge arena_to_block
merge-round arenas held n i arena x h l ea s size =
    let head : IsArena (memory_of h) (pg_round_down x) =
      Sound-IsArena arenas h.free_list (memory_of h) (x, i) s.headers s.out.0 in
    let test = IsArena-test (memory_of h) (pg_round_down x) head in
    let range = bytes_range i (omega arith) in
    let some_size : (bytes i != 0) ≡ true = ground (arith, range) in
    let wrap : (x % pgsize + 2 ^ 32 - 24) % 2 ^ 32 ≡ offset x = omega (arith, s.out.0.header) in
    rw (ea, size, some_size, wrap, test, block_size-bytes i l) refl

-- A free block that contains the block `x` of index `i`, and whose buddy is not free: the half above it
-- if its own number in the arena is even, the half below it if that is odd.
pub record IsPlaced (x i : ℕ) (free_list : ℕ → List ℕ) : Type 0 where
  pub block : ℕ
  pub index : ℕ
  pub small : index < 7
  pub free : elem block (free_list index) ≡ true
  pub low : block ≤ x
  pub high : x + bytes i ≤ block + bytes index
  pub above :
      offset block / bytes index % 2 ≡ 0 → elem (block + bytes index) (free_list index) ≡ false
  pub below :
      offset block / bytes index % 2 ≡ 1 → elem (block - bytes index) (free_list index) ≡ false

-- How the loop ends: the block stands in a free list, or its whole arena is free.
pub data IsMerged (held : List (ℕ × ℕ)) (x i arena : ℕ) (h : Heap) (o : Option Heap) : Type 0 where
  settled :
      (h' : Heap)
      → o ≡ some h'
      → IsHeap h.arena_list h' held
      → IsQuiet held h h'
      → ((a : ℕ) → free_cover 7 h'.free_list a ≡ free_cover 7 h.free_list a + hits x i a)
      → IsPlaced x i h'.free_list
      → IsMerged held x i arena h o
  emptied :
      (y : ℕ) (h1 : Heap)
      → o ≡ free_pages arena 1 (record h1 { arena_list = erase arena h1.arena_list })
      → IsHeap h.arena_list h1 ((y, 7) ∷ held)
      → arena ≡ pg_round_down y
      → IsQuiet held h h1
      → ((a : ℕ)
          → free_cover 7 h1.free_list a + hits y 7 a ≡ free_cover 7 h.free_list a + hits x i a)
      → IsMerged held x i arena h o

-- What holds after the block has been joined holds of the block.
merged_joined :
    (held : List (ℕ × ℕ)) (x i arena y : ℕ) (h h1 : Heap) (o : Option Heap)
    → IsJoined h.arena_list held x i h y h1
    → IsMerged held y (suc i) arena h1 o
    → IsMerged held x i arena h o
merged_joined held x i arena y h h1 o j r = elim r [
  | settled h' e s q cov p ↦
      settled h' e (subst (λ l. IsHeap l h' held) j.quiet.list s)
        (IsQuiet-trans held h h1 h' j.quiet q) (λ a. omega (arith, cov a, j.cov a))
        (record {
          block = p.block;
          index = p.index;
          small = p.small;
          free = p.free;
          low = omega (arith, p.low, j.low);
          high = omega (arith, p.high, j.high);
          above = p.above;
          below = p.below;
        })
  | emptied z h2 e s ea q cov ↦
      emptied z h2 e (subst (λ l. IsHeap l h2 ((z, 7) ∷ held)) j.quiet.list s) ea
        (IsQuiet-trans held h h1 h2 j.quiet q) (λ a. cov a ∙ j.cov a)
]

put_back :
    (held : List (ℕ × ℕ)) (i x : ℕ) (h : Heap)
    → i < 7
    → IsHeap h.arena_list h ((x, i) ∷ held)
    → size_of x (memory_of h) ≡ bytes i
    → IsHeap h.arena_list (push_back table i x h) held
      × IsQuiet held h (push_back table i x h)
      × ((a : ℕ)
          → free_cover 7 (push_back table i x h).free_list a
            ≡ free_cover 7 h.free_list a + hits x i a)
unfolding push_back
put_back held i x h l s size = (
  Sound-give h.arena_list h.free_list (memory_of h) held i x l size s,
  record { kept = λ a once. refl; list = refl; pools = refl },
  λ a. omega (
    arith,
    free_cover-replace 7 i (h.free_list i ++ (x ∷ [])) h.free_list a l,
    count-append i (h.free_list i) x a,
  ),
)

put_back-IsPlaced :
    (arenas : List ℕ) (i x b : ℕ) (h : Heap)
    → i < 7
    → IsPair arenas x i b
    → elem b (h.free_list i) ≡ false
    → IsPlaced x i (push_back table i x h).free_list
unfolding push_back
put_back-IsPlaced arenas i x b h l pair off =
    let range = bytes_range i (omega arith) in
    let later : (c : ℕ)
        → elem c (h.free_list i) ≡ false
        → (c == x) ≡ false
        → elem c (h.free_list i ++ (x ∷ [])) ≡ false =
      λ c u v. elem-append c (h.free_list i) (x ∷ []) ∙ ground (arith, u, v) in
    record {
      block = x;
      index = i;
      small = l;
      free = ground (arith, elem-append x (h.free_list i) (x ∷ []));
      low = omega arith;
      high = omega arith;
      above = λ e. elim pair [
        | first t place blk ↦
            let free_b : elem (x + bytes i) (h.free_list i) ≡ false =
              subst (λ b. elem b (h.free_list i) ≡ false) place off in
            rw eqb_refl (later (x + bytes i) free_b (ground (arith, range)))
        | second t place page blk ↦ absurd (ground (arith, e, t))
      ];
      below = λ e. elim pair [
        | first t place blk ↦ absurd (ground (arith, e, t))
        | second t place page blk ↦
            let at : b ≡ x - bytes i = omega (arith, place) in
            let free_b : elem (x - bytes i) (h.free_list i) ≡ false =
              subst (λ b. elem b (h.free_list i) ≡ false) at off in
            rw eqb_refl (later (x - bytes i) free_b (ground (arith, place, range)))
      ];
    }

merge_end :
    (i arena x : ℕ) (h : Heap)
    → merge table zero i arena x h
      ≡ free_pages arena 1 (record h { arena_list = erase arena h.arena_list })
unfolding merge
merge_end i arena x h = refl

pub merge-IsMerged :
    (held : List (ℕ × ℕ)) (n i arena x : ℕ) (h : Heap)
    → i + n ≡ 7
    → arena ≡ pg_round_down x
    → IsHeap h.arena_list h ((x, i) ∷ held)
    → size_of x (memory_of h) ≡ bytes i
    → IsMerged held x i arena h (merge table n i arena x h)
merge-IsMerged held zero i arena x h e ea s size =
    let last : i ≡ 7 = omega arith in
    emptied x h (merge_end i arena x h) (subst (λ i. IsHeap h.arena_list h ((x, i) ∷ held)) last s)
      ea (record { kept = λ a once. refl; list = refl; pools = refl }) (λ a. rw last refl)
merge-IsMerged held (suc n) i arena x h e ea s size =
    let l : i < 7 = omega arith in
    let round = merge-round h.arena_list held n i arena x h l ea s size in
    elim (Bool-cases (elem (buddy_of x i) (h.free_list i))) [
      | inl t ↦
          let b = buddy_of x i in
          let h' = set_list i (erase b (h.free_list i)) h in
          let joined = join table (offset x / bytes i) x b h' in
          let j =
            joined_lem h.arena_list held x i b h l s size t
              (buddy-IsPair h.arena_list x i l s.out.0) in
          let next : i + 1 ≡ suc i = omega arith in
          let r =
            merge-IsMerged held n (suc i) arena joined.0 joined.1 (omega arith) (ea ∙ sym j.page)
              (subst (λ a. IsHeap a joined.1 ((joined.0, suc i) ∷ held)) (sym j.quiet.list) j.heap)
              j.size in
          subst (IsMerged held x i arena h) (sym (round ∙ (rw (t, next) refl))) (
            merged_joined held x i arena joined.0 h joined.1
              (merge table n (suc i) arena joined.0 joined.1) j r)
      | inr f ↦
          let (s', quiet, cov) = put_back held i x h l s size in
          settled (push_back table i x h) (round ∙ (rw f refl)) s' quiet cov (
            put_back-IsPlaced h.arena_list i x (buddy_of x i) h l
              (buddy-IsPair h.arena_list x i l s.out.0) f)
    ]
