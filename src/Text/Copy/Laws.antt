-- ===== src/Text/Copy/Laws.antt =====
-- What strlcpy() and strlcat() leave in the destination.
use tweaking_pintos.Prelude.{
  ℕ, zero, suc, ◌+◌, ◌-◌, ◌<◌, ◌≤◌, ◌≡◌, ◌≢◌, refl, ap, sym, ◌∙◌, subst, ◌⊎◌, inl, inr, true, false,
  ◌&&◌, some, ltb, ◌!=◌, arith, Bool-cases, List, [], ◌∷◌, ◌++◌, length, take,
}
use tweaking_pintos.Memory.{Memory, null, write, inside, IsString}
use tweaking_pintos.Text.Block.{memcpy}
use tweaking_pintos.Text.Block.Laws.{memcpy-copied}
use tweaking_pintos.Text.Scan.Laws.{strlen_lem}
use tweaking_pintos.Text.Copy.{copy_part, strlcpy, strlcat}

-- A prefix of a string, copied and terminated.
IsString-take :
    (n p q : ℕ) (m m' : Memory) (l : List ℕ)
    → IsString m q l
    → n ≤ length l
    → ((i : ℕ) → i < n → m' (p + i) ≡ m (q + i))
    → m' (p + n) ≡ 0
    → IsString m' p (take n l)
IsString-take zero p q m m' l h le same z = ap m' (omega arith) ∙ z
IsString-take (suc n) p q m m' [] h le same z = absurd (omega arith)
IsString-take (suc n) p q m m' (x ∷ xs) (e, ne, h) le same z = (
  ap m' (omega arith) ∙ same 0 (omega arith) ∙ ap m (omega arith) ∙ e,
  ne,
  IsString-take n (suc p) (suc q) m m' xs h (omega arith)
      (λ i l. ap m' (omega arith) ∙ same (suc i) (omega arith) ∙ ap m (omega arith))
      (ap m' (omega arith) ∙ z),
)

take_long : (n : ℕ) (l : List ℕ) → length l ≤ n → take n l ≡ l
take_long zero [] h = refl
take_long zero (x ∷ xs) h = absurd (omega arith)
take_long (suc n) [] h = refl
take_long (suc n) (x ∷ xs) h = ap (λ (r : List ℕ). x ∷ r) (take_long n xs (omega arith))

-- At most `room` bytes of the string stand at `p`, with a terminator, and nothing else has changed.
pub record Pasted (m : Memory) (p room : ℕ) (l : List ℕ) (m' : Memory) : Type 0 where
  pub string : IsString m' p (take room l)
  pub kept : (a : ℕ) → inside p (suc room) a ≡ false → m' a ≡ m a

-- The copy of `n` bytes, the number that copy_part() chooses.
copy_n :
    (p q n room : ℕ) (m : Memory) (l : List ℕ)
    → IsString m q l
    → p ≢ null
    → q ≢ null
    → (p + n ≤ q) ⊎ (q + n ≤ p)
    → n ≤ length l
    → n ≤ room
    → take n l ≡ take room l
    → (m' : Memory) × (memcpy p q n m ≡ some (p, m')) × Pasted m p room l (write m' (p + n) 0)
copy_n p q n room m l h np nq apart le fits e =
    let (m', done, same) = memcpy-copied p q n m np nq apart in
    (
      m',
      done,
      record {
        string = subst (IsString (write m' (p + n) 0) p) e (
            IsString-take n p q m (write m' (p + n) 0) l h le
              (λ i l. ground (arith, same (p + i), ap m (back i))) (ground arith));
        kept = λ a out. ground (arith, same a, out, fits);
      },
    )
  where
    back : (i : ℕ) → q + (p + i - p) ≡ q + i
    back i = omega arith

pub copy_part-Pasted :
    (p q room : ℕ) (m : Memory) (l : List ℕ)
    → IsString m q l
    → p ≢ null
    → q ≢ null
    → (p + room ≤ q) ⊎ (q + length l ≤ p)
    → (m' : Memory) × (copy_part p q (length l) room m ≡ some m') × Pasted m p room l m'
unfolding copy_part
copy_part-Pasted p q room m l h np nq apart = elim (Bool-cases (ltb (length l) room)) [
  | inl short ↦
      let lt : length l < room = ground (arith, short) in
      let (m', done, pasted) =
        copy_n p q (length l) room m l h np nq (ground (arith, apart, lt)) (omega arith)
          (omega (arith, lt))
          (take_long (length l) l (omega arith) ∙ sym (take_long room l (omega (arith, lt)))) in
      (write m' (p + length l) 0, rw (short, done), pasted)
  | inr long ↦
      let le : room ≤ length l = ground (arith, long) in
      let (m', done, pasted) =
        copy_n p q room room m l h np nq (ground (arith, apart, le)) le (omega arith) refl in
      (write m' (p + room) 0, rw (long, done), pasted)
]

-- With fuel for the length of the source, room for at least the terminator, and a source that does not overlap the `size` bytes of the
-- destination, strlcpy() returns the length of the source, leaves at most its first `size - 1` bytes
-- in the destination as a string, and writes nowhere else.
pub strlcpy-Pasted :
    (fuel p q size : ℕ) (m : Memory) (l : List ℕ)
    → IsString m q l
    → p ≢ null
    → q ≢ null
    → length l < fuel
    → 0 < size
    → (p + size ≤ q) ⊎ (q + length l < p)
    → (m' : Memory) × (strlcpy fuel p q size m ≡ some (length l, m')) × Pasted m p (size - 1) l m'
unfolding strlcpy
strlcpy-Pasted fuel p q size m l h np nq f pos apart =
    let vp : (p != null) ≡ true = ground (arith, np) in
    let vq : (q != null) ≡ true = ground (arith, nq) in
    let some_room : ltb 0 size ≡ true = ground (arith, pos) in
    let (m', e, pasted) = copy_part-Pasted p q (size - 1) m l h np nq (ground (arith, apart)) in
    (m', rw (strlen_lem fuel q m l h nq f, vp, vq) (rw (some_room, e)), pasted)

-- A string, and another pasted over its terminator, are one string.
IsString-append :
    (p : ℕ) (m : Memory) (d l : List ℕ)
    → IsString m (p + length d) l
    → (n : Memory) → IsString n p d
    → ((b : ℕ) → b < p + length d → m b ≡ n b)
    → IsString m p (d ++ l)
IsString-append p m [] l h n old same = subst (λ a. IsString m a l) (omega arith) h
IsString-append p m (x ∷ xs) l h n (e, ne, rest) same = (
  same p (omega arith) ∙ e,
  ne,
  IsString-append (suc p) m xs l (subst (λ a. IsString m a l) (omega arith) h) n rest
      (λ b lt. same b (omega arith)),
)

-- With fuel for both lengths, and where the destination holds a string that ends within its `size` bytes, and the source does not
-- overlap those bytes, strlcat() returns the sum of the lengths, leaves the destination's string
-- followed by as much of the source's as fits, and writes nowhere else.
pub strlcat_lem :
    (fuel p q size : ℕ) (m : Memory) (d l : List ℕ)
    → IsString m p d
    → IsString m q l
    → p ≢ null
    → q ≢ null
    → length d < fuel
    → length l < fuel
    → length d < size
    → (p + size ≤ q) ⊎ (q + length l < p)
    → (m' : Memory) × (strlcat fuel p q size m ≡ some (length l + length d, m'))
      × IsString m' p (d ++ take (size - length d - 1) l)
      × ((a : ℕ) → inside p size a ≡ false → m' a ≡ m a)
unfolding strlcat
strlcat_lem fuel p q size m d l hd hl np nq fd fl fits apart =
    let vp : (p != null) ≡ true = ground (arith, np) in
    let vq : (q != null) ≡ true = ground (arith, nq) in
    let room : (ltb 0 size && ltb (length d) size) ≡ true = ground (arith, fits) in
    let (m', e, pasted) =
      copy_part-Pasted (p + length d) q (size - length d - 1) m l hl (λ z. np (omega (arith, z))) nq
        (ground (arith, apart, fits)) in
    (
      m',
      rw (strlen_lem fuel q m l hl nq fl, strlen_lem fuel p m d hd np fd, vp, vq) (rw (room, e)),
      IsString-append p m' d (take (size - length d - 1) l) pasted.string m hd
          (λ b lt. pasted.kept b (ground (arith, lt))),
      λ a out. pasted.kept a (ground (arith, out, fits)),
    )
