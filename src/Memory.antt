-- ===== src/Memory.antt =====
-- Memory as bytes, for the code that works on raw blocks. An address is a number, 0 is NULL.
pub mod Words
use tweaking_pintos.Prelude.{
  ℕ, suc, ◌+◌, ◌≤◌, ◌≡◌, ◌≢◌, ap, ◌∙◌, List, [], ◌∷◌, ◌&&◌, Bool, arith, ltb, leb, ◌==◌,
  if◌then◌else◌, length,
}

abbrev pub Memory : Type 0
Memory = ℕ → ℕ

abbrev pub null : ℕ
null = 0

abbrev pub write : Memory → ℕ → ℕ → Memory
write m a v b = if a == b then v else m b

-- Whether `a` is one of the `n` addresses from `p`.
abbrev pub inside : (p n a : ℕ) → Bool
inside p n a = leb p a && ltb a (p + n)

-- The bytes of the list stand from `p` on.
abbrev pub Holds : Memory → ℕ → List ℕ → Type 0
Holds m p [] = Unit
Holds m p (x ∷ xs) = (m p ≡ x) × Holds m (suc p) xs

-- A string of C: the bytes of the list, none of them 0, and then a 0.
abbrev pub IsString : Memory → ℕ → List ℕ → Type 0
IsString m p [] = m p ≡ 0
IsString m p (x ∷ xs) = (m p ≡ x) × (x ≢ 0) × IsString m (suc p) xs

-- A string depends on its own bytes alone.
pub IsString-frame :
    (m m' : Memory) (p : ℕ) (l : List ℕ)
    → ((a : ℕ) → p ≤ a → a ≤ p + length l → m' a ≡ m a)
    → IsString m p l
    → IsString m' p l
IsString-frame m m' p [] same h = same p (omega arith) (omega arith) ∙ h
IsString-frame m m' p (x ∷ xs) same (e, ne, h) = (
  same p (omega arith) (omega arith) ∙ e,
  ne,
  IsString-frame m m' (suc p) xs (λ a u v. same a (omega arith) (omega arith)) h,
)

pub IsString-end : (m : Memory) (p : ℕ) (l : List ℕ) → IsString m p l → m (p + length l) ≡ 0
IsString-end m p [] h = ap m (omega arith) ∙ h
IsString-end m p (x ∷ xs) (e, ne, h) = ap m (omega arith) ∙ IsString-end m (suc p) xs h
