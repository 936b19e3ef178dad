-- ===== src/Malloc/Arenas.antt =====
-- Blocks and the pages of the page allocator.
use tweaking_pintos.Prelude.{
  ℕ, zero, suc, ◌+◌, ◌≤◌, ◌<◌, ◌≡◌, refl, sym, ap, ◌∙◌, subst, List, [], ◌∷◌, ◌++◌, arith, ◌==◌,
  ◌⊎◌, inl, inr, All, All-append, elem, elem-append, true, false, Bool-cases,
}
use tweaking_pintos.Memory.{Memory}
use tweaking_pintos.Memory.Words.{read_word-cong}
use tweaking_pintos.Palloc.Used.{Apart}
use tweaking_pintos.Malloc.{pg_round_down}
use tweaking_pintos.Malloc.Sizes.{bytes, bytes_range, IsBlock}
use tweaking_pintos.Malloc.Cover.{hits, count, free_cover, cover, hits-outside, hits_bound}
use tweaking_pintos.Malloc.Sound.{IsArena, Sound, AllBlocks, AllSized}

-- The page `a` is one of the groups of pages that are out.
abbrev pub Has : (a : ℕ) → List (ℕ × ℕ) → Type 0
Has a [] = ⊥
Has a (g ∷ gs) = (g ≡ (a, 1)) ⊎ Has a gs

Has-Apart :
    (p n a : ℕ) (gs : List (ℕ × ℕ)) → 0 < n → All (Apart (p, n)) gs → Has a gs → (a == p) ≡ false
Has-Apart p n a [] pos _ m = elim m [ ]
Has-Apart p n a (g ∷ gs) pos (h, hs) (inl e) =
    let away : Apart (p, n) (a, 1) = subst (Apart (p, n)) e h in ground (arith, away, pos)
Has-Apart p n a (g ∷ gs) pos (h, hs) (inr m) = Has-Apart p n a gs pos hs m

-- A page given out newly is no arena.
pub Has-new :
    (p n : ℕ) (gs : List (ℕ × ℕ)) (l : List ℕ)
    → 0 < n
    → All (Apart (p, n)) gs
    → All (λ a. Has a gs) l
    → elem p l ≡ false
Has-new p n gs [] pos away h = refl
Has-new p n gs (a ∷ l) pos away (h, hs) =
    let ne = Has-Apart p n a gs pos away h in
    let ne' : (p == a) ≡ false = ground (arith, ne) in rw (ne', Has-new p n gs l pos away hs) refl

pub Has-more :
    (g : ℕ × ℕ) (gs : List (ℕ × ℕ)) (l : List ℕ)
    → All (λ a. Has a gs) l
    → All (λ a. Has a (g ∷ gs)) l
Has-more g gs [] h = tt
Has-more g gs (a ∷ l) (h, hs) = (inr h, Has-more g gs l hs)

-- Blocks of other arenas hold no byte of a page.
block_elsewhere :
    (arenas : List ℕ) (b : ℕ × ℕ) (y : ℕ)
    → IsBlock arenas b
    → elem (pg_round_down y) arenas ≡ false
    → hits b.0 b.1 y ≡ 0
block_elsewhere arenas b y h miss = elim (Bool-cases (pg_round_down b.0 == pg_round_down y)) [
  | inl e ↦
      let same : pg_round_down b.0 ≡ pg_round_down y = ground (arith, e) in
      absurd (differ (sym h.arena ∙ ap (λ a. elem a arenas) same ∙ miss))
  | inr e ↦ hits-outside b.0 b.1 y (ground (arith, e, h.header, h.inside))
]
  where
    differ : true ≡ false → ⊥
    differ e = cc e

count_elsewhere :
    (arenas : List ℕ) (i : ℕ) (xs : List ℕ) (y : ℕ)
    → AllBlocks arenas i xs
    → elem (pg_round_down y) arenas ≡ false
    → count i xs y ≡ 0
unfolding count
count_elsewhere arenas i [] y h miss = refl
count_elsewhere arenas i (x ∷ xs) y (h, hs) miss =
    omega (arith, block_elsewhere arenas (x, i) y h miss, count_elsewhere arenas i xs y hs miss)

free_elsewhere :
    (arenas : List ℕ) (n : ℕ) (f : ℕ → List ℕ) (y : ℕ)
    → n ≤ 7
    → ((i : ℕ) → i < 7 → AllBlocks arenas i (f i))
    → elem (pg_round_down y) arenas ≡ false
    → free_cover n f y ≡ 0
unfolding free_cover
free_elsewhere arenas zero f y l h miss = refl
free_elsewhere arenas (suc n) f y l h miss = omega (
  arith,
  free_elsewhere arenas n f y (omega arith) h miss,
  count_elsewhere arenas n (f n) y (h n (omega arith)) miss,
)

pub cover_elsewhere :
    (arenas : List ℕ) (bs : List (ℕ × ℕ)) (y : ℕ)
    → All (IsBlock arenas) bs
    → elem (pg_round_down y) arenas ≡ false
    → cover bs y ≡ 0
unfolding cover
cover_elsewhere arenas [] y h miss = refl
cover_elsewhere arenas (b ∷ bs) y (h, hs) miss =
    omega (arith, block_elsewhere arenas b y h miss, cover_elsewhere arenas bs y hs miss)

-- Two memories that differ in pages that are no arenas only.
abbrev pub Elsewhere : (arenas : List ℕ) → Memory → Memory → Type 0
Elsewhere arenas m m' = (y : ℕ) → elem (pg_round_down y) arenas ≡ true → m' y ≡ m y

sized-Elsewhere :
    (arenas : List ℕ) (m m' : Memory) (i : ℕ) (xs : List ℕ)
    → i < 8
    → Elsewhere arenas m m'
    → AllBlocks arenas i xs
    → AllSized m i xs
    → AllSized m' i xs
sized-Elsewhere arenas m m' i [] l same hs h = tt
sized-Elsewhere arenas m m' i (x ∷ xs) l same (b, bs) (e, h) =
    let range = bytes_range i l in
    let near : (y : ℕ) → x + 12 ≤ y → y < x + 12 + 4 → m' y ≡ m y = λ y low high.
      let page : pg_round_down y ≡ pg_round_down x = omega (arith, b.header, b.inside, range) in
      same y (ap (λ a. elem a arenas) page ∙ b.arena) in
    (read_word-cong m m' (x + 12) near ∙ e, sized-Elsewhere arenas m m' i xs l same bs h)

headers-Elsewhere :
    (arenas : List ℕ) (m m' : Memory) (l : List ℕ)
    → ((y : ℕ) → elem (pg_round_down y) l ≡ true → m' y ≡ m y)
    → All (IsArena m) l
    → All (IsArena m') l
headers-Elsewhere arenas m m' [] same h = tt
headers-Elsewhere arenas m m' (a ∷ l) same (h, hs) =
    let near : (y : ℕ) → a ≤ y → y < a + 4 → m' y ≡ m y =
      λ y low high. same y (ground (arith, h.aligned)) in
    (
      record { valid = h.valid; aligned = h.aligned; magic = read_word-cong m m' a near ∙ h.magic },
      headers-Elsewhere arenas m m' l (λ y e. same y (ground (arith, e))) hs,
    )

-- Changes outside the arenas leave the blocks sound.
pub Sound-Elsewhere :
    (arenas : List ℕ) (f : ℕ → List ℕ) (m m' : Memory) (held : List (ℕ × ℕ))
    → Elsewhere arenas m m'
    → Sound arenas f m held
    → Sound arenas f m' held
Sound-Elsewhere arenas f m m' held same s = record {
  headers = headers-Elsewhere arenas m m' arenas same s.headers;
  blocks = s.blocks;
  sizes =
      λ i l. sized-Elsewhere arenas m m' i (f i) (omega arith) same (s.blocks i l) (s.sizes i l);
  out = s.out;
  single = s.single;
}

more_arenas :
    (arenas : List ℕ) (a : ℕ) (b : ℕ × ℕ) → IsBlock arenas b → IsBlock (arenas ++ (a ∷ [])) b
more_arenas arenas a b h = record {
  index = h.index;
  header = h.header;
  aligned = h.aligned;
  inside = h.inside;
  arena = rw (elem-append (pg_round_down b.0) arenas (a ∷ []), h.arena) refl;
}

pub All-imp :
    {A : Type 0} (P Q : A → Type 0) → ((x : A) → P x → Q x) → (xs : List A) → All P xs → All Q xs
All-imp P Q f [] h = tt
All-imp P Q f (x ∷ xs) (h, hs) = (f x h, All-imp P Q f xs hs)

-- A page with a header is a new arena; its block of 2048 bytes is held.
pub Sound-page :
    (arenas : List ℕ) (f : ℕ → List ℕ) (m : Memory) (held : List (ℕ × ℕ)) (a : ℕ)
    → IsArena m a
    → elem a arenas ≡ false
    → Sound arenas f m held
    → Sound (arenas ++ (a ∷ [])) f m ((a + 24, 7) ∷ held)
unfolding cover bytes
Sound-page arenas f m held a h new s = record {
  headers = All-append (IsArena m) arenas (a ∷ []) s.headers (h, tt);
  blocks = λ i l.
      All-imp (λ x. IsBlock arenas (x, i)) (λ x. IsBlock (arenas ++ (a ∷ [])) (x, i))
        (λ x. more_arenas arenas a (x, i)) (f i) (s.blocks i l);
  sizes = s.sizes;
  out = (
    record {
      index = omega arith;
      header = omega (arith, h.aligned);
      aligned = omega (arith, h.aligned);
      inside = omega (arith, h.aligned);
      arena = in_page (a + 24) (omega (arith, h.aligned));
    },
    All-imp (IsBlock arenas) (IsBlock (arenas ++ (a ∷ []))) (more_arenas arenas a) held s.out,
  );
  single = λ y. elim (Bool-cases (pg_round_down y == a)) [
    | inl e ↦
        let page : pg_round_down y ≡ a = ground (arith, e) in
        let miss : elem (pg_round_down y) arenas ≡ false = rw page new in
        omega (
          arith,
          hits_bound (a + 24) 7 y,
          free_elsewhere arenas 7 f y (omega arith) s.blocks miss,
          cover_elsewhere arenas held y s.out miss,
        )
    | inr e ↦ omega (arith, s.single y, hits-outside (a + 24) 7 y (ground (arith, e, h.aligned)))
  ];
}
  where
    in_page : (y : ℕ) → pg_round_down y ≡ a → elem (pg_round_down y) (arenas ++ (a ∷ [])) ≡ true
    in_page y e =
        let self : (pg_round_down y == a) ≡ true = ground (arith, e) in
        elim (Bool-cases (elem (pg_round_down y) arenas)) [
          | inl t ↦ rw (elem-append (pg_round_down y) arenas (a ∷ []), t) refl
          | inr t ↦ rw (elem-append (pg_round_down y) arenas (a ∷ []), t, self) refl
        ]
