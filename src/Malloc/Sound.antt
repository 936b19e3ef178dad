-- ===== src/Malloc/Sound.antt =====
-- The blocks of the block allocator: what is free and what is held, and how it is divided.
use tweaking_pintos.Prelude.{
  ℕ, suc, ◌+◌, ◌%◌, ◌≤◌, ◌<◌, ◌≡◌, ◌≢◌, ap, ◌∙◌, subst, List, [], ◌∷◌, ◌++◌, arith, All, All-append,
  elem,
}
use tweaking_pintos.Memory.{Memory, null}
use tweaking_pintos.Memory.Words.{read_word-cong}
use tweaking_pintos.Palloc.{pgsize}
use tweaking_pintos.Malloc.{arena_magic, magic_of, size_of, pg_round_down}
use tweaking_pintos.Malloc.Sizes.{bytes, bytes_range, bytes-suc, halves, offset, IsBlock}
use tweaking_pintos.Malloc.Cover.{
  hits, count, free_cover, cover, replace, hits-inside, hits-outside, hits-suc, count-append,
  free_cover-replace, replace-All, free_cover-count,
}

-- An arena: a page with the header.
pub record IsArena (m : Memory) (a : ℕ) : Type 0 where
  pub valid : a ≢ null
  pub aligned : a % pgsize ≡ 0
  pub magic : magic_of a m ≡ arena_magic

abbrev pub AllBlocks : (arenas : List ℕ) (i : ℕ) → List ℕ → Type 0
AllBlocks arenas i xs = All (λ x. IsBlock arenas (x, i)) xs

abbrev pub AllSized : Memory → (i : ℕ) → List ℕ → Type 0
AllSized m i xs = All (λ x. size_of x m ≡ bytes i) xs

-- The arenas, the free lists, the memory and the blocks that are held: every block lies in an arena at
-- a multiple of its size, every free block says its size, and no byte is in two blocks.
pub record Sound (arenas : List ℕ) (f : ℕ → List ℕ) (m : Memory) (held : List (ℕ × ℕ))
    : Type 0 where
  pub headers : All (IsArena m) arenas
  pub blocks : (i : ℕ) → i < 7 → AllBlocks arenas i (f i)
  pub sizes : (i : ℕ) → i < 7 → AllSized m i (f i)
  pub out : All (IsBlock arenas) held
  pub single : (a : ℕ) → free_cover 7 f a + cover held a ≤ 1

-- Two memories that differ in the block only.
abbrev pub Within : (b : ℕ × ℕ) → Memory → Memory → Type 0
Within b m m' = (a : ℕ) → hits b.0 b.1 a ≡ 0 → m' a ≡ m a

module _ (arenas : List ℕ) (f : ℕ → List ℕ) (m : Memory) where
  -- The first block of a free list is taken.
  pub Sound-take :
      (held : List (ℕ × ℕ)) (i x : ℕ) (xs : List ℕ)
      → i < 7
      → f i ≡ (x ∷ xs)
      → Sound arenas f m held
      → Sound arenas (replace i xs f) m ((x, i) ∷ held)
  unfolding cover count
  Sound-take held i x xs l e s =
      let bs : AllBlocks arenas i (x ∷ xs) = subst (AllBlocks arenas i) e (s.blocks i l) in
      let ss : AllSized m i (x ∷ xs) = subst (AllSized m i) e (s.sizes i l) in
      record {
        headers = s.headers;
        blocks = replace-All (λ j y. IsBlock arenas (y, j)) i xs f s.blocks bs.1;
        sizes = replace-All (λ j y. size_of y m ≡ bytes j) i xs f s.sizes ss.1;
        out = (bs.0, s.out);
        single = λ a.
            let c : count i (f i) a ≡ count i (x ∷ xs) a = ap (λ l. count i l a) e in
            omega (arith, s.single a, free_cover-replace 7 i xs f a l, c);
      }

  -- A held block is put at the end of its free list.
  pub Sound-give :
      (held : List (ℕ × ℕ)) (i x : ℕ)
      → i < 7
      → size_of x m ≡ bytes i
      → Sound arenas f m ((x, i) ∷ held)
      → Sound arenas (replace i (f i ++ (x ∷ [])) f) m held
  unfolding cover
  Sound-give held i x l e s = record {
    headers = s.headers;
    blocks =
        replace-All (λ j y. IsBlock arenas (y, j)) i (f i ++ (x ∷ [])) f s.blocks
          (All-append (λ y. IsBlock arenas (y, i)) (f i) (x ∷ []) (s.blocks i l) (s.out.0, tt));
    sizes =
        replace-All (λ j y. size_of y m ≡ bytes j) i (f i ++ (x ∷ [])) f s.sizes
          (All-append (λ y. size_of y m ≡ bytes i) (f i) (x ∷ []) (s.sizes i l) (e, tt));
    out = s.out.1;
    single = λ a. omega (
      arith,
      s.single a,
      free_cover-replace 7 i (f i ++ (x ∷ [])) f a l,
      count-append i (f i) x a,
    );
  }

  -- A held block is divided.
  pub Sound-halve :
      (held : List (ℕ × ℕ)) (i x : ℕ)
      → i < 7
      → Sound arenas f m ((x, suc i) ∷ held)
      → Sound arenas f m ((x + bytes i, i) ∷ (x, i) ∷ held)
  unfolding cover
  Sound-halve held i x l s =
      let h = s.out.0 in
      let two = bytes-suc i l in
      let range = bytes_range i (omega arith) in
      let shift : offset (x + bytes i) ≡ offset x + bytes i =
        omega (arith, h.header, h.inside, two) in
      let page : pg_round_down (x + bytes i) ≡ pg_round_down x =
        omega (arith, h.header, h.inside, two) in
      let (low, high, _, _) = halves i l (offset x) h.aligned in
      record {
        headers = s.headers;
        blocks = s.blocks;
        sizes = s.sizes;
        out = (
          record {
            index = omega arith;
            header = omega (arith, h.header, h.inside, two);
            aligned = ap (λ o. o % bytes i) shift ∙ high;
            inside = omega (arith, h.header, h.inside, two);
            arena = ap (λ a. elem a arenas) page ∙ h.arena;
          },
          (
            record {
              index = omega arith;
              header = h.header;
              aligned = low;
              inside = omega (arith, h.inside, two);
              arena = h.arena;
            },
            s.out.1,
          ),
        );
        single = λ a. omega (arith, s.single a, hits-suc x i a l);
      }

  -- The first two held blocks in the other order.
  pub Sound-swap :
      (held : List (ℕ × ℕ)) (b c : ℕ × ℕ)
      → Sound arenas f m (b ∷ c ∷ held)
      → Sound arenas f m (c ∷ b ∷ held)
  unfolding cover
  Sound-swap held b c s = record {
    headers = s.headers;
    blocks = s.blocks;
    sizes = s.sizes;
    out = (s.out.1.0, (s.out.0, s.out.1.1));
    single = λ a. omega (arith, s.single a);
  }

-- The sizes of free blocks survive a change of bytes that none of them holds.
sized-Within :
    (arenas : List ℕ) (b : ℕ × ℕ) (m m' : Memory) (i : ℕ) (xs : List ℕ)
    → i < 8
    → Within b m m'
    → ((a : ℕ) → count i xs a + hits b.0 b.1 a ≤ 1)
    → AllSized m i xs
    → AllSized m' i xs
unfolding count
sized-Within arenas b m m' i [] l w apart h = tt
sized-Within arenas b m m' i (x ∷ xs) l w apart (e, h) =
    let range = bytes_range i l in
    let same : (a : ℕ) → x + 12 ≤ a → a < x + 12 + 4 → m' a ≡ m a = λ a low high.
      w a (omega (arith, apart a, hits-inside x i a (omega arith) (omega (arith, range)))) in
    (
      read_word-cong m m' (x + 12) same ∙ e,
      sized-Within arenas b m m' i xs l w (λ a. omega (arith, apart a)) h,
    )

-- The headers survive a change inside a block.
headers-Within :
    (arenas : List ℕ) (b : ℕ × ℕ) (m m' : Memory) (l : List ℕ)
    → Within b m m'
    → 24 ≤ b.0 % pgsize
    → offset b.0 + bytes b.1 ≤ 2048
    → All (IsArena m) l
    → All (IsArena m') l
headers-Within arenas b m m' [] w low high h = tt
headers-Within arenas b m m' (a ∷ l) w low high (h, hs) =
    let same : (c : ℕ) → a ≤ c → c < a + 4 → m' c ≡ m c =
      λ c u v. w c (hits-outside b.0 b.1 c (ground (arith, h.aligned))) in
    (
      record { valid = h.valid; aligned = h.aligned; magic = read_word-cong m m' a same ∙ h.magic },
      headers-Within arenas b m m' l w low high hs,
    )

-- The bytes of a held block may change.
pub Sound-Within :
    (arenas : List ℕ) (f : ℕ → List ℕ) (m m' : Memory) (b : ℕ × ℕ) (held : List (ℕ × ℕ))
    → Within b m m'
    → Sound arenas f m (b ∷ held)
    → Sound arenas f m' (b ∷ held)
unfolding cover
Sound-Within arenas f m m' b held w s =
    let h = s.out.0 in
    record {
      headers = headers-Within arenas b m m' arenas w h.header h.inside s.headers;
      blocks = s.blocks;
      sizes = λ i l.
          sized-Within arenas b m m' i (f i) (omega arith) w
            (λ a. omega (arith, s.single a, free_cover-count 7 i f a l)) (s.sizes i l);
      out = s.out;
      single = s.single;
    }
