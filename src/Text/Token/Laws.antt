-- ===== src/Text/Token/Laws.antt =====
-- The tokens of a string.
use tweaking_pintos.Prelude.{
  ℕ, zero, suc, ◌+◌, ◌<◌, ◌≤◌, ◌≡◌, ◌≢◌, refl, ap, sym, ◌∙◌, subst, ◌⊎◌, inl, inr, Bool, true,
  false, some, ◌==◌, ◌!=◌, if◌then◌else◌, arith, Bool-cases, List, [], ◌∷◌, length, elem,
}
use tweaking_pintos.Memory.{Memory, null, write, IsString, IsString-frame}
use tweaking_pintos.Text.Scan.{in_set}
use tweaking_pintos.Text.Scan.Laws.{in_set_lem}
use tweaking_pintos.Text.Scan.Sets.{spanned, HoldsSet, in_set-elem}
use tweaking_pintos.Text.Token.{Tokenized, skip, token_end, cut, strtok_from, strtok_r}

-- A string behind its leading delimiters, its first token, and what follows that token's delimiter.
abbrev pub unskipped : List ℕ → List ℕ → List ℕ
unskipped set [] = []
unskipped set (x ∷ xs) = if elem x set then unskipped set xs else x ∷ xs

abbrev pub first_token : List ℕ → List ℕ → List ℕ
first_token set [] = []
first_token set (x ∷ xs) = if elem x set then [] else x ∷ first_token set xs

abbrev pub after_token : List ℕ → List ℕ → List ℕ
after_token set [] = []
after_token set (x ∷ xs) = if elem x set then xs else after_token set xs

abbrev pub is_empty : List ℕ → Bool
is_empty [] = true
is_empty (_ ∷ _) = false

module _ (limit q : ℕ) (m : Memory) (set : List ℕ) (s : HoldsSet limit q m set) where
  -- The terminator is in every set.
  at_end : (p : ℕ) → m p ≡ 0 → in_set limit q (m p) m ≡ some true
  at_end p h =
      in_set_lem limit q (m p) m set s.string s.ne_null (s.bytes p) s.fuel ∙ ground (arith, h)

  skip_lem :
      (fuel p : ℕ) (l : List ℕ)
      → IsString m p l
      → length l < fuel
      → (skip limit fuel p q m ≡ some (is_empty (unskipped set l), p + spanned false set l))
        × IsString m (p + spanned false set l) (unskipped set l)
        × (length (unskipped set l) ≤ length l)
  unfolding skip
  skip_lem zero p l h f = absurd (omega arith)
  skip_lem (suc fuel) p [] h f =
      (rw (at_end p h) (ground (arith, h)), ap m (omega arith) ∙ h, omega arith)
  skip_lem (suc fuel) p (x ∷ xs) (e, ne, h) f =
      let on : (m p == 0) ≡ false = ground (arith, e, ne) in
      let (r, str, le) = skip_lem fuel (suc p) xs h (omega arith) in
      elim (Bool-cases (elem x set)) [
        | inl hit ↦
            let move : suc p + spanned false set xs ≡ p + suc (spanned false set xs) =
              omega arith in
            (
              rw (in_set-elem limit q m set p x s e ne) (rw (hit, on, r) (rw move)),
              rw hit (subst (λ a. IsString m a (unskipped set xs)) move str),
              rw hit (omega (arith, le)),
            )
        | inr miss ↦
            let stay : p + 0 ≡ p = omega arith in
            (
              rw (in_set-elem limit q m set p x s e ne) (rw miss (rw stay)),
              rw (miss, stay) (e, ne, h),
              rw miss (omega arith),
            )
      ]

  token_end_lem :
      (fuel p : ℕ) (l : List ℕ)
      → IsString m p l
      → length l < fuel
      → token_end limit fuel p q m ≡ some (p + length (first_token set l))
  unfolding token_end
  token_end_lem zero p l h f = absurd (omega arith)
  token_end_lem (suc fuel) p [] h f = rw (at_end p h) (ground (arith, h))
  token_end_lem (suc fuel) p (x ∷ xs) (e, ne, h) f = elim (Bool-cases (elem x set)) [
    | inl hit ↦ rw (in_set-elem limit q m set p x s e ne) (rw hit (ground arith))
    | inr miss ↦
        rw (in_set-elem limit q m set p x s e ne)
          (rw (miss, token_end_lem fuel (suc p) xs h (omega arith)) (ground arith))
  ]

-- A token, terminated: the bytes before its end are unchanged, and at the end there is a 0.
IsString-first_token :
    (m m' : Memory) (set : List ℕ) (p : ℕ) (l : List ℕ)
    → IsString m p l
    → ((a : ℕ) → a < p + length (first_token set l) → m' a ≡ m a)
    → m' (p + length (first_token set l)) ≡ 0
    → IsString m' p (first_token set l)
IsString-first_token m m' set p [] h same z = ap m' (omega arith) ∙ z
IsString-first_token m m' set p (x ∷ xs) (e, ne, h) same z = elim (Bool-cases (elem x set)) [
  | inl hit ↦ rw hit (ap m' (omega arith) ∙ (rw hit at z))
  | inr miss ↦
      let n : length (first_token set (x ∷ xs)) ≡ suc (length (first_token set xs)) = rw miss in
      rw miss (
        same p (omega (arith, n)) ∙ e,
        ne,
        IsString-first_token m m' set (suc p) xs h (λ a l. same a (omega (arith, n)))
            (ap m' (omega (arith, n)) ∙ z),
      )
]

-- Where the first token ends there is the terminator, or a delimiter with the rest behind it.
token_rest :
    (m : Memory) (set : List ℕ) (p : ℕ) (l : List ℕ)
    → IsString m p l
    → let e = p + length (first_token set l) in
      ((m e ≡ 0) × (after_token set l ≡ [])) ⊎ ((m e ≢ 0) × IsString m (suc e) (after_token set l))
token_rest m set p [] h = inl (ap m (omega arith) ∙ h, refl)
token_rest m set p (x ∷ xs) (e, ne, h) = elim (Bool-cases (elem x set)) [
  | inl hit ↦ let stay : p + 0 ≡ p = omega arith in rw (hit, stay) (inr (λ z. ne (sym e ∙ z), h))
  | inr miss ↦
      let move : suc p + length (first_token set xs) ≡ p + suc (length (first_token set xs)) =
        omega arith in
      rw (miss, ← move) (token_rest m set (suc p) xs h)
]

unskipped-cases :
    (set l : List ℕ)
    → ((unskipped set l ≡ []) × (is_empty (unskipped set l) ≡ true))
      ⊎ ((first_token set (unskipped set l) ≢ []) × (is_empty (unskipped set l) ≡ false))
unskipped-cases set [] = inl (refl, refl)
unskipped-cases set (x ∷ xs) = elim (Bool-cases (elem x set)) [
  | inl hit ↦ rw hit (unskipped-cases set xs)
  | inr miss ↦ rw (miss, miss) (inr (λ e. cc e, refl))
]

-- The result where there is a token, behind `n` delimiters.
pub record IsToken (m : Memory) (p n : ℕ) (set u : List ℕ) (t : Tokenized) : Type 0 where
  pub place : t.token ≡ p + n
  pub nonempty : first_token set u ≢ []
  pub string : IsString t.memory t.token (first_token set u)
  pub rest : IsString t.memory t.save_ptr (after_token set u)
  pub kept : (a : ℕ) → a ≢ t.token + length (first_token set u) → t.memory a ≡ m a

cut-IsToken :
    (m : Memory) (p n : ℕ) (set u : List ℕ)
    → IsString m (p + n) u
    → first_token set u ≢ []
    → IsToken m p n set u (cut (p + n) (p + n + length (first_token set u)) m)
unfolding cut
cut-IsToken m p n set u h ne = elim (token_rest m set (p + n) u h) [
  | inl (z, last) ↦
      let ends : (m (p + n + length (first_token set u)) != 0) ≡ false = ground (arith, z) in
      rw ends (record {
        place = refl;
        nonempty = ne;
        string = IsString-first_token m m set (p + n) u h (λ a l. refl) z;
        rest = rw last z;
        kept = λ a l. refl;
      })
  | inr (nz, after) ↦
      let e : ℕ = p + n + length (first_token set u) in
      let more : (m (p + n + length (first_token set u)) != 0) ≡ true = ground (arith, nz) in
      rw more (record {
        place = refl;
        nonempty = ne;
        string =
            IsString-first_token m (write m e 0) set (p + n) u h (λ a l. ground arith)
              (ground arith);
        rest =
            IsString-frame m (write m e 0) (suc e) (after_token set u) (λ a l r. ground arith)
              after;
        kept = λ a l. ground (arith, l);
      })
]

-- Let strtok_r() start at a string, passed to it or saved before, with a set of delimiters, and fuel
-- for both. If the string is all delimiters, the result is NULL, the saved position is the end and
-- the memory is unchanged. Otherwise the result is the first token, not empty and now terminated,
-- the saved position is the string behind the token's delimiter, or the end, and no byte but the
-- one behind the token has changed.
pub strtok_r-IsToken :
    (limit s q saved p : ℕ) (m : Memory) (l set : List ℕ)
    → (if s == null then saved else s) ≡ p
    → p ≢ null
    → IsString m p l
    → length l < limit
    → HoldsSet limit q m set
    → (t : Tokenized) × (strtok_r limit s q saved m ≡ some t)
      × (((unskipped set l ≡ [])
            × (t ≡ record { token = null; save_ptr = p + spanned false set l; memory = m })
            × (m t.save_ptr ≡ 0))
          ⊎ IsToken m p (spanned false set l) set (unskipped set l) t)
unfolding strtok_r strtok_from
strtok_r-IsToken limit s q saved p m l set from np h f is =
    let vq : (q != null) ≡ true = ground (arith, is.ne_null) in
    let vp : (p != null) ≡ true = ground (arith, np) in
    let (r, str, le) = skip_lem limit q m set is limit p l h f in
    let n : ℕ = spanned false set l in
    elim (unskipped-cases set l) [
      | inl (blank, empty) ↦ (
        record { token = null; save_ptr = p + n; memory = m },
        rw (vq, from, vp, r) (rw empty),
        inl (blank, refl, subst (IsString m (p + n)) blank str),
      )
      | inr (ne, more) ↦
          let e =
            token_end_lem limit q m set is limit (p + n) (unskipped set l) str
              (omega (arith, le, f)) in
          (
            cut (p + n) (p + n + length (first_token set (unskipped set l))) m,
            rw (vq, from, vp, r) (rw (more, e)),
            inr (cut-IsToken m p n set (unskipped set l) str ne),
          )
    ]
