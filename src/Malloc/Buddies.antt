-- ===== src/Malloc/Buddies.antt =====
-- A block and its buddy: where the buddy stands, and how the two become one block.
use tweaking_pintos.Prelude.{
  ℕ, suc, ◌+◌, ◌-◌, ◌*◌, ◌/◌, ◌%◌, ◌≤◌, ◌<◌, ◌≡◌, ap, ◌∙◌, subst, List, [], ◌∷◌, arith, ◌==◌, inl,
  inr, All, elem, erase, true, false, Bool-cases,
}
use tweaking_pintos.Memory.{Memory}
use tweaking_pintos.Malloc.{size_of, pg_round_down}
use tweaking_pintos.Malloc.Free.{buddy_index}
use tweaking_pintos.Malloc.Sizes.{table, bytes, below_7, offset, IsBlock}
use tweaking_pintos.Malloc.Cover.{
  hits, count, cover, replace, hits-suc, free_cover-replace, replace-All,
}
use tweaking_pintos.Malloc.Sound.{Sound}

-- The offset of the buddy of the block at offset `o`.
pub buddy_offset :
    (i : ℕ)
    → i < 7
    → (o : ℕ) → o % bytes i ≡ 0
    → o + bytes i ≤ 2048
    → ((o / bytes i % 2 == 0) ≡ true
        → ((o / bytes i + 1) * bytes i ≡ o + bytes i)
          × (o % bytes (suc i) ≡ 0)
          × (o + bytes (suc i) ≤ 2048))
      × ((o / bytes i % 2 == 0) ≡ false
          → (o ≡ (o / bytes i - 1) * bytes i + bytes i)
            × ((o / bytes i - 1) * bytes i % bytes (suc i) ≡ 0)
            × ((o / bytes i - 1) * bytes i + bytes (suc i) ≤ 2048))
unfolding bytes
buddy_offset =
    below_7
      (λ i.
        (o : ℕ)
        → o % bytes i ≡ 0
        → o + bytes i ≤ 2048
        → ((o / bytes i % 2 == 0) ≡ true
            → ((o / bytes i + 1) * bytes i ≡ o + bytes i)
              × (o % bytes (suc i) ≡ 0)
              × (o + bytes (suc i) ≤ 2048))
          × ((o / bytes i % 2 == 0) ≡ false
              → (o ≡ (o / bytes i - 1) * bytes i + bytes i)
                × ((o / bytes i - 1) * bytes i % bytes (suc i) ≡ 0)
                × ((o / bytes i - 1) * bytes i + bytes (suc i) ≤ 2048)))
      (λ o h l. (
        λ t. (ground (arith, h, t), ground (arith, h, t), ground (arith, h, l, t)),
        λ t. (ground (arith, h, t), ground (arith, h, t), ground (arith, h, l, t)),
      ))
      (λ o h l. (
        λ t. (ground (arith, h, t), ground (arith, h, t), ground (arith, h, l, t)),
        λ t. (ground (arith, h, t), ground (arith, h, t), ground (arith, h, l, t)),
      ))
      (λ o h l. (
        λ t. (ground (arith, h, t), ground (arith, h, t), ground (arith, h, l, t)),
        λ t. (ground (arith, h, t), ground (arith, h, t), ground (arith, h, l, t)),
      ))
      (λ o h l. (
        λ t. (ground (arith, h, t), ground (arith, h, t), ground (arith, h, l, t)),
        λ t. (ground (arith, h, t), ground (arith, h, t), ground (arith, h, l, t)),
      ))
      (λ o h l. (
        λ t. (ground (arith, h, t), ground (arith, h, t), ground (arith, h, l, t)),
        λ t. (ground (arith, h, t), ground (arith, h, t), ground (arith, h, l, t)),
      ))
      (λ o h l. (
        λ t. (ground (arith, h, t), ground (arith, h, t), ground (arith, h, l, t)),
        λ t. (ground (arith, h, t), ground (arith, h, t), ground (arith, h, l, t)),
      ))
      (λ o h l. (
        λ t. (ground (arith, h, t), ground (arith, h, t), ground (arith, h, l, t)),
        λ t. (ground (arith, h, t), ground (arith, h, t), ground (arith, h, l, t)),
      ))

-- The block whose two halves are a block and its buddy.
pub data IsPair (arenas : List ℕ) (x i b : ℕ) : Type 0 where
  first :
      (offset x / bytes i % 2 == 0) ≡ true
      → b ≡ x + bytes i
      → IsBlock arenas (x, suc i)
      → IsPair arenas x i b
  second :
      (offset x / bytes i % 2 == 0) ≡ false
      → x ≡ b + bytes i
      → pg_round_down b ≡ pg_round_down x
      → IsBlock arenas (b, suc i)
      → IsPair arenas x i b

pub buddy-IsPair :
    (arenas : List ℕ) (x i : ℕ)
    → i < 7
    → IsBlock arenas (x, i)
    → IsPair arenas x i (pg_round_down x + 24 + buddy_index table (offset x / bytes i) * bytes i)
buddy-IsPair arenas x i l h =
    let (even, odd) = buddy_offset i l (offset x) h.aligned h.inside in
    elim (Bool-cases (offset x / bytes i % 2 == 0)) [
      | inl t ↦
          let (place, al, fits) = even t in
          first t (rw t (omega (arith, place, h.header))) (record {
            index = omega arith;
            header = h.header;
            aligned = al;
            inside = fits;
            arena = h.arena;
          })
      | inr f ↦
          let (place, al, fits) = odd f in
          let b = pg_round_down x + 24 + (offset x / bytes i - 1) * bytes i in
          let page : pg_round_down b ≡ pg_round_down x = omega (arith, fits) in
          let off : offset b ≡ (offset x / bytes i - 1) * bytes i = omega (arith, fits) in
          rw f (
            second f (omega (arith, place, h.header)) page (record {
              index = omega arith;
              header = omega (arith, fits);
              aligned = ap (λ o. o % bytes (suc i)) off ∙ al;
              inside = omega (arith, off, fits);
              arena = ap (λ a. elem a arenas) page ∙ h.arena;
            }))
    ]

pub count-erase :
    (i x : ℕ) (xs : List ℕ) (y : ℕ)
    → elem x xs ≡ true
    → count i (erase x xs) y + hits x i y ≡ count i xs y
unfolding count
count-erase i x [] y e = absurd (cc e)
count-erase i x (z ∷ zs) y e = elim (Bool-cases (x == z)) [
  | inl t ↦ let same : x ≡ z = ground (arith, t) in rw (t, same) (omega arith)
  | inr f ↦
      let rest : elem x zs ≡ true = rw f at e in rw f (omega (arith, count-erase i x zs y rest))
]

pub All-erase :
    (P : ℕ → Type 0) (x : ℕ) (xs : List ℕ) → elem x xs ≡ true → All P xs → P x × All P (erase x xs)
All-erase P x [] e h = absurd (cc e)
All-erase P x (z ∷ zs) e (h, hs) = elim (Bool-cases (x == z)) [
  | inl t ↦ let same : z ≡ x = ground (arith, t) in rw t (subst P same h, hs)
  | inr f ↦
      let rest : elem x zs ≡ true = rw f at e in
      let (px, ps) = All-erase P x zs rest hs in rw f (px, (h, ps))
]

module _ (arenas : List ℕ) (f : ℕ → List ℕ) (m : Memory) (held : List (ℕ × ℕ)) where
  -- A block is taken from the midst of its free list.
  pub Sound-erase :
      (i x : ℕ)
      → i < 7
      → elem x (f i) ≡ true
      → Sound arenas f m held
      → Sound arenas (replace i (erase x (f i)) f) m ((x, i) ∷ held) × (size_of x m ≡ bytes i)
  unfolding cover
  Sound-erase i x l e s =
      let (b, bs) = All-erase (λ y. IsBlock arenas (y, i)) x (f i) e (s.blocks i l) in
      let (z, zs) = All-erase (λ y. size_of y m ≡ bytes i) x (f i) e (s.sizes i l) in
      (
        record {
          headers = s.headers;
          blocks = replace-All (λ j y. IsBlock arenas (y, j)) i (erase x (f i)) f s.blocks bs;
          sizes = replace-All (λ j y. size_of y m ≡ bytes j) i (erase x (f i)) f s.sizes zs;
          out = (b, s.out);
          single = λ a. omega (
            arith,
            s.single a,
            free_cover-replace 7 i (erase x (f i)) f a l,
            count-erase i x (f i) a e,
          );
        },
        z,
      )

  -- Two held halves become one held block.
  pub Sound-join :
      (i x : ℕ)
      → i < 7
      → IsBlock arenas (x, suc i)
      → Sound arenas f m ((x, i) ∷ (x + bytes i, i) ∷ held)
      → Sound arenas f m ((x, suc i) ∷ held)
  unfolding cover
  Sound-join i x l b s = record {
    headers = s.headers;
    blocks = s.blocks;
    sizes = s.sizes;
    out = (b, s.out.1.1);
    single = λ a. omega (arith, s.single a, hits-suc x i a l);
  }
