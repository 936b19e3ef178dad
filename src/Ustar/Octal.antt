-- ===== src/Ustar/Octal.antt =====
-- Octal fields and checksums of tar headers.
use tweaking_pintos.Prelude.{
  ℕ, zero, suc, ◌+◌, ◌-◌, ◌*◌, ◌/◌, ◌%◌, ◌^◌, ◌≤◌, ◌<◌, ◌≡◌, refl, subst, true, false, ◌&&◌, ◌||◌,
  List, [], ◌∷◌, All, none, some, ltb, leb, ◌==◌, if◌then◌else◌, arith, length, Bool-cases, inl,
  inr, ◌⊎◌,
}
use tweaking_pintos.Memory.{Memory, Holds}
use tweaking_pintos.Ustar.{
  chksum_from, calculate_chksum, chksum_start, octal_from, parse_octal_field,
}

-- The value of octal digits behind `v`.
unfoldable pub octal_value : (v : ℕ) → List ℕ → ℕ
octal_value v [] = v
octal_value v (d ∷ ds) = octal_value (v * 8 + d) ds

octal_value-le : (v : ℕ) (ds : List ℕ) → v ≤ octal_value v ds
unfolding octal_value
octal_value-le v [] = omega arith
octal_value-le v (d ∷ ds) = omega (arith, octal_value-le (v * 8 + d) ds)

-- The bytes of the digits.
abbrev pub digits : List ℕ → List ℕ
digits [] = []
digits (d ∷ ds) = (d + 48) ∷ digits ds

octal_from_lem :
    (n ofs v s : ℕ) (m : Memory) (ds : List ℕ)
    → All (λ d. d < 8) ds
    → Holds m (s + ofs) (digits ds)
    → (m (s + ofs + length ds) ≡ 0) ⊎ (m (s + ofs + length ds) ≡ 32)
    → 0 < ofs + length ds
    → length ds < n
    → v < 2 ^ 32
    → octal_from n ofs v s m
      ≡ (if ltb (octal_value v ds) (2 ^ 32) then some (octal_value v ds) else none)
unfolding octal_from octal_value
octal_from_lem zero ofs v s m ds small h end pos lt fits = absurd (omega (arith, lt))
octal_from_lem (suc n) ofs v s m [] small h end pos lt fits =
    let stop : (leb 48 (m (s + ofs)) && leb (m (s + ofs)) 55) ≡ false = ground (arith, end) in
    let is_end : (m (s + ofs) == 32 || m (s + ofs) == 0) ≡ true = ground (arith, end) in
    let some_ofs : ltb 0 ofs ≡ true = ground (arith, pos) in
    let in_range : ltb v (2 ^ 32) ≡ true = ground (arith, fits) in
    rw (stop, is_end, some_ofs, in_range) refl
octal_from_lem (suc n) ofs v s m (d ∷ ds) (sd, sds) (e, h) end pos lt fits =
    let digit : (leb 48 (d + 48) && leb (d + 48) 55) ≡ true = ground (arith, sd) in
    elim (Bool-cases (ltb ((2 ^ 32 - 1) / 8) v)) [
      | inl t ↦
          let le = octal_value-le (v * 8 + d) ds in
          let over : ltb (octal_value (v * 8 + d) ds) (2 ^ 32) ≡ false = ground (arith, le, t) in
          rw (e, digit, t, over) refl
      | inr f ↦
          let next : (d + 48 - 48 + v * 8) % 2 ^ 32 ≡ v * 8 + d = ground (arith, f, sd) in
          let fits' : v * 8 + d < 2 ^ 32 = ground (arith, f, sd) in
          let place : suc (s + ofs) ≡ s + (ofs + 1) = omega arith in
          let last : s + ofs + suc (length ds) ≡ s + (ofs + 1) + length ds = omega arith in
          rw (e, digit, f, next)
            (octal_from_lem n (ofs + 1) (v * 8 + d) s m ds sds
              (subst (λ p. Holds m p (digits ds)) place h)
              (subst (λ p. (m p ≡ 0) ⊎ (m p ≡ 32)) last end) (omega arith) (omega (arith, lt))
              fits')
    ]

-- A field of octal digits, at least one and fewer than the size of the field, with a space or a 0
-- behind them: parse_octal_field() gives their value if it fits in 32 bits, and fails otherwise.
pub parse_octal_field_lem :
    (s size : ℕ) (m : Memory) (ds : List ℕ)
    → All (λ d. d < 8) ds
    → Holds m s (digits ds)
    → (m (s + length ds) ≡ 0) ⊎ (m (s + length ds) ≡ 32)
    → 0 < length ds
    → length ds < size
    → parse_octal_field s size m
      ≡ (if ltb (octal_value 0 ds) (2 ^ 32) then some (octal_value 0 ds) else none)
unfolding parse_octal_field
parse_octal_field_lem s size m ds small h end pos lt =
    let place : s ≡ s + 0 = omega arith in
    octal_from_lem size 0 0 s m ds small (subst (λ p. Holds m p (digits ds)) place h)
      (subst (λ p. (m (p + length ds) ≡ 0) ⊎ (m (p + length ds) ≡ 32)) place end)
      (omega (arith, pos)) lt (omega arith)

chksum_from-frame :
    (n i chksum header : ℕ) (m m' : Memory)
    → ((j : ℕ) → (j < chksum_start) ⊎ (chksum_start + 8 ≤ j) → m' (header + j) ≡ m (header + j))
    → chksum_from n i chksum header m' ≡ chksum_from n i chksum header m
unfolding chksum_from
chksum_from-frame zero i chksum header m m' same = refl
chksum_from-frame (suc n) i chksum header m m' same =
    elim (Bool-cases (leb chksum_start i && ltb i (chksum_start + 8))) [
      | inl t ↦ rw t (chksum_from-frame n (i + 1) ((chksum + 32) % 2 ^ 32) header m m' same)
      | inr f ↦
          let e = same i (ground (arith, f)) in
          rw (f, e)
            (chksum_from-frame n (i + 1) ((chksum + m (header + i)) % 2 ^ 32) header m m' same)
    ]

-- The checksum depends on no byte of its own field: what is stored there does not change it.
pub calculate_chksum-frame :
    (header : ℕ) (m m' : Memory)
    → ((j : ℕ) → (j < chksum_start) ⊎ (chksum_start + 8 ≤ j) → m' (header + j) ≡ m (header + j))
    → calculate_chksum header m' ≡ calculate_chksum header m
unfolding calculate_chksum
calculate_chksum-frame header m m' same = chksum_from-frame 512 0 0 header m m' same
