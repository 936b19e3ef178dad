-- ===== src/Ustar/Names.antt =====
-- File names in tar headers: the prefixes that are stripped.
use tweaking_pintos.Prelude.{
  ℕ, zero, suc, ◌+◌, ◌-◌, ◌≤◌, ◌<◌, ◌≡◌, ◌≢◌, refl, subst, true, false, ◌||◌, List, [], ◌∷◌, some,
  ◌==◌, ◌!=◌, arith, length, Bool-cases, inl, inr,
}
use tweaking_pintos.Memory.{Memory, null, IsString}
use tweaking_pintos.Text.Scan.{strchr, find_char}
use tweaking_pintos.Ustar.{
  begins, is_antisocial, FileName, name_at, dot, strip_from, strip_antisocial_prefixes,
}

-- A name that does not begin with "/", "./" or "../", is not empty, and is not "..".
abbrev pub IsHarmless : Memory → FileName → Type 0
IsHarmless m (name_at p) =
    (m p ≢ 47)
    × ¬ ((m p ≡ 46) × (m (suc p) ≡ 47))
    × ¬ ((m p ≡ 46) × (m (suc p) ≡ 46) × (m (suc (suc p)) ≡ 47))
    × (m p ≢ 0)
    × ¬ ((m p ≡ 46) × (m (suc p) ≡ 46) × (m (suc (suc p)) ≡ 0))
IsHarmless m dot = Unit

-- The three prefixes.
data Prefix (m : Memory) (p : ℕ) : Type 0 where
  slash : m p ≡ 47 → Prefix m p
  dot_slash : m p ≡ 46 → m (suc p) ≡ 47 → Prefix m p
  dots_slash : m p ≡ 46 → m (suc p) ≡ 46 → m (suc (suc p)) ≡ 47 → Prefix m p

prefix_cases : (p : ℕ) (m : Memory) → is_antisocial p m ≡ true → Prefix m p
prefix_cases p m e = elim (Bool-cases (m p == 47)) [
  | inl t ↦ slash (ground (arith, t))
  | inr f ↦ elim (Bool-cases (m (suc p) == 47)) [
    | inl t ↦ dot_slash (ground (arith, e, f)) (ground (arith, t))
    | inr g ↦ dots_slash (ground (arith, e, f)) (ground (arith, e, f, g)) (ground (arith, e, f, g))
  ]
]

-- What follows a byte of a string.
tail_of :
    (p : ℕ) (m : Memory) (l : List ℕ)
    → IsString m p l
    → m p ≢ 0
    → (rest : List ℕ) × IsString m (suc p) rest × (suc (length rest) ≡ length l)
tail_of p m [] h ne = absurd (ne h)
tail_of p m (x ∷ xs) (e, nx, h) ne = (xs, h, refl)

strchr-slash : (k p : ℕ) (m : Memory) → 0 < p → m p ≡ 47 → strchr (suc k) p 47 m ≡ some p
unfolding strchr find_char
strchr-slash k p m pos e = let ok : (p != null) ≡ true = ground (arith, pos) in rw (ok, e) refl

strchr-later :
    (k p q : ℕ) (m : Memory)
    → 0 < p
    → m p ≡ 46
    → strchr k (suc p) 47 m ≡ some q
    → strchr (suc k) p 47 m ≡ some q
unfolding strchr find_char
strchr-later k p q m pos e next =
    let ok : (p != null) ≡ true = ground (arith, pos) in
    let ok' : (suc p != null) ≡ true = ground arith in rw (ok, e) (rw ok' at next)

-- strchr() finds the slash of a prefix.
find_slash :
    (k p : ℕ) (m : Memory) (l : List ℕ)
    → 0 < p
    → IsString m p l
    → is_antisocial p m ≡ true
    → (q : ℕ) × (rest : List ℕ) × (strchr (suc (suc (suc k))) p 47 m ≡ some q)
      × IsString m (suc q) rest
      × (length rest < length l)
find_slash k p m l pos h e = elim (prefix_cases p m e) [
  | slash a ↦
      let (r, h1, e1) = tail_of p m l h (omega (arith, a)) in
      (p, r, strchr-slash (suc (suc k)) p m pos a, h1, omega (arith, e1))
  | dot_slash a b ↦
      let (r, h1, e1) = tail_of p m l h (omega (arith, a)) in
      let (r', h2, e2) = tail_of (suc p) m r h1 (omega (arith, b)) in
      (
        suc p,
        r',
        strchr-later (suc (suc k)) p (suc p) m pos a
            (strchr-slash (suc k) (suc p) m (omega arith) b),
        h2,
        omega (arith, e1, e2),
      )
  | dots_slash a b c ↦
      let (r, h1, e1) = tail_of p m l h (omega (arith, a)) in
      let (r', h2, e2) = tail_of (suc p) m r h1 (omega (arith, b)) in
      let (r'', h3, e3) = tail_of (suc (suc p)) m r' h2 (omega (arith, c)) in
      (
        suc (suc p),
        r'',
        strchr-later (suc (suc k)) p (suc (suc p)) m pos a (
            strchr-later (suc k) (suc p) (suc (suc p)) m (omega arith) b
              (strchr-slash k (suc (suc p)) m (omega arith) c)),
        h3,
        omega (arith, e1, e2, e3),
      )
]

-- The tests of the code decide this.
name_at-IsHarmless :
    (p : ℕ) (m : Memory)
    → is_antisocial p m ≡ false
    → (m p == 0 || begins (46 ∷ 46 ∷ 0 ∷ []) p m) ≡ false
    → IsHarmless m (name_at p)
name_at-IsHarmless p m f u = (
  ground (arith, f),
  λ h. absurd (ground (arith, f, h.0, h.1)),
  λ h. absurd (ground (arith, f, h.0, h.1, h.2)),
  ground (arith, u),
  λ h. absurd (ground (arith, u, h.0, h.1, h.2)),
)

-- The loop ends when its fuel is more than the length of the name.
strip_from_lem :
    (fuel k p : ℕ) (m : Memory) (l : List ℕ)
    → 0 < p
    → IsString m p l
    → length l < fuel
    → (r : FileName) × (strip_from fuel (suc (suc (suc k))) p m ≡ some r) × IsHarmless m r
unfolding strip_from
strip_from_lem zero k p m l pos h lt = absurd (omega (arith, lt))
strip_from_lem (suc fuel) k p m l pos h lt = elim (Bool-cases (is_antisocial p m)) [
  | inl t ↦
      let (q, rest, e, h', shorter) = find_slash k p m l pos h t in
      let next : suc q ≡ q + 1 = omega arith in
      let (r, e', safe) =
        strip_from_lem fuel k (q + 1) m rest (omega arith) (subst (λ p. IsString m p rest) next h')
          (omega (arith, shorter, lt)) in
      (r, rw (t, e) e', safe)
  | inr f ↦ elim (Bool-cases (m p == 0 || begins (46 ∷ 46 ∷ 0 ∷ []) p m)) [
    | inl u ↦ (dot, rw (f, u) refl, tt)
    | inr u ↦ (name_at p, rw (f, u) refl, name_at-IsHarmless p m f u)
  ]
]

-- For a name that is a string of C, with more rounds than it has bytes and at least three for strchr():
-- strip_antisocial_prefixes() ends, and its result is a harmless name: not empty, not "..", and with
-- none of the prefixes "/", "./" and "../".
pub strip-IsHarmless :
    (fuel limit p : ℕ) (m : Memory) (l : List ℕ)
    → 3 ≤ limit
    → 0 < p
    → IsString m p l
    → length l < fuel
    → (r : FileName) × (strip_antisocial_prefixes fuel limit p m ≡ some r) × IsHarmless m r
unfolding strip_antisocial_prefixes
strip-IsHarmless fuel limit p m l three pos h lt =
    let (r, e, safe) = strip_from_lem fuel (limit - 3) p m l pos h lt in
    let k : suc (suc (suc (limit - 3))) ≡ limit = omega (arith, three) in
    (r, subst (λ n. strip_from fuel n p m ≡ some r) k e, safe)
