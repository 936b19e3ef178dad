-- ===== src/Tests/Texts.antt =====
-- The string functions on a small memory.
use tweaking_pintos.Prelude.{
  ℕ, ◌+◌, ◌≡◌, ◌⊎◌, inr, refl, List, [], ◌∷◌, some, arith, ltb, ◌||◌, ◌==◌, if◌then◌else◌,
}
use tweaking_pintos.Memory.{Memory, null, IsString}
use tweaking_pintos.Text.Block.{memmove}
use tweaking_pintos.Text.Block.Laws.{copied, memmove-copied}
use tweaking_pintos.Text.Scan.{strstr}
use tweaking_pintos.Text.Scan.Sets.{HoldsSet}
use tweaking_pintos.Text.Scan.Search.{FirstPlace, strstr-FirstPlace}
use tweaking_pintos.Text.Copy.{strlcpy}
use tweaking_pintos.Text.Copy.Laws.{Pasted, strlcpy-Pasted}
use tweaking_pintos.Text.Token.{Tokenized, strtok_r}
use tweaking_pintos.Text.Token.Laws.{unskipped, IsToken, strtok_r-IsToken}

-- "ab" at 16, "," at 32 and ",ab,c" at 48; 0 elsewhere.
abbrev text : Memory
text a =
    if a == 16 || a == 49
    then 97
    else if a == 17 || a == 50
    then 98
    else if a == 32 || a == 48 || a == 51
    then 44
    else if a == 52
    then 99
    else 0

abbrev ab : List ℕ
ab = 97 ∷ 98 ∷ []

abbrev line : List ℕ
line = 44 ∷ 97 ∷ 98 ∷ 44 ∷ 99 ∷ []

ab-IsString : IsString text 16 ab
ab-IsString = (refl, omega arith, (refl, omega arith, refl))

line-IsString : IsString text 48 line
line-IsString = (
  refl,
  omega arith,
  (refl, omega arith, (refl, omega arith, (refl, omega arith, (refl, omega arith, refl)))),
)

comma-HoldsSet : HoldsSet 9 32 text (44 ∷ [])
comma-HoldsSet = record {
  ne_null = omega arith;
  string = (refl, omega arith, refl);
  fuel = omega arith;
  bytes = λ a. ground arith;
}

memmove_example :
    (p : ℕ) × (m' : Memory) × (memmove 47 48 5 text ≡ some (p, m'))
    × (p ≡ (if ltb 47 48 then 47 + 5 else 47))
    × ((a : ℕ) → m' a ≡ copied 47 48 5 text a)
memmove_example = memmove-copied 47 48 5 text (omega arith) (omega arith)

strstr_example : (a : ℕ) × (strstr 9 48 16 text ≡ some a) × FirstPlace text 4 48 16 2 a
strstr_example =
    strstr-FirstPlace 9 48 16 text line ab line-IsString ab-IsString (omega arith) (omega arith)
      (omega arith) (omega arith)

strlcpy_example : (m' : Memory) × (strlcpy 9 64 48 4 text ≡ some (5, m')) × Pasted text 64 3 line m'
strlcpy_example =
    strlcpy-Pasted 9 64 48 4 text line line-IsString (omega arith) (omega arith) (omega arith)
      (omega arith) (inr (omega arith))

strtok_r_example :
    (t : Tokenized) × (strtok_r 9 48 32 0 text ≡ some t)
    × (((unskipped (44 ∷ []) line ≡ [])
          × (t ≡ record { token = null; save_ptr = 49; memory = text })
          × (text t.save_ptr ≡ 0))
        ⊎ IsToken text 48 1 (44 ∷ []) (unskipped (44 ∷ []) line) t)
strtok_r_example =
    strtok_r-IsToken 9 48 32 0 48 text line (44 ∷ []) refl (omega arith) line-IsString (omega arith)
      comma-HoldsSet
