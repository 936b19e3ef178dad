-- ===== src/Text/Scan/Laws.antt =====
-- The scans of strings against functions on lists of bytes.
use tweaking_pintos.Prelude.{
  ℕ, zero, suc, ◌+◌, ◌%◌, ◌<◌, ◌≡◌, ◌≢◌, true, ◌||◌, some, ltb, ◌==◌, ◌!=◌, if◌then◌else◌, arith,
  List, [], ◌∷◌, length, elem,
}
use tweaking_pintos.Prelude.Words.{minus_one}
use tweaking_pintos.Memory.{Memory, null, IsString}
use tweaking_pintos.Text.Scan.{find_end, strlen, compare_strings, strcmp, find_char, strchr, in_set}

find_end_lem :
    (fuel p : ℕ) (m : Memory) (l : List ℕ)
    → IsString m p l
    → length l < fuel
    → find_end fuel p m ≡ some (p + length l)
unfolding find_end
find_end_lem zero p m l h f = absurd (omega arith)
find_end_lem (suc fuel) p m [] h f = ground (arith, h)
find_end_lem (suc fuel) p m (x ∷ xs) (e, ne, h) f =
    ground (arith, e, ne, find_end_lem fuel (suc p) m xs h (omega arith))

-- With more fuel than the string has bytes, strlen() returns their number.
pub strlen_lem :
    (fuel p : ℕ) (m : Memory) (l : List ℕ)
    → IsString m p l
    → p ≢ null
    → length l < fuel
    → strlen fuel p m ≡ some (length l)
unfolding strlen
strlen_lem fuel p m l h np f =
    let valid : (p != null) ≡ true = ground (arith, np) in
    rw (valid, find_end_lem fuel p m l h f) (ground arith)

-- The order of strings as lists of bytes, as the sign that strcmp() returns.
abbrev pub compare_lists : List ℕ → List ℕ → ℕ
compare_lists [] [] = 0
compare_lists [] (y ∷ ys) = minus_one
compare_lists (x ∷ xs) [] = 1
compare_lists (x ∷ xs) (y ∷ ys) =
    if x == y then compare_lists xs ys else if ltb x y then minus_one else 1

compare_strings_lem :
    (fuel a b : ℕ) (m : Memory) (l r : List ℕ)
    → IsString m a l
    → IsString m b r
    → length l < fuel
    → compare_strings fuel a b m ≡ some (compare_lists l r)
unfolding compare_strings
compare_strings_lem zero a b m l r hl hr f = absurd (omega arith)
compare_strings_lem (suc fuel) a b m [] [] hl hr f = ground (arith, hl, hr)
compare_strings_lem (suc fuel) a b m [] (y ∷ ys) hl (er, nr, hr) f = ground (arith, hl, er, nr)
compare_strings_lem (suc fuel) a b m (x ∷ xs) [] (el, nl, hl) hr f = ground (arith, el, nl, hr)
compare_strings_lem (suc fuel) a b m (x ∷ xs) (y ∷ ys) (el, nl, hl) (er, nr, hr) f =
    ground
      (arith, el, nl, er, nr, compare_strings_lem fuel (suc a) (suc b) m xs ys hl hr (omega arith))

-- strcmp() returns the order of the two strings as lists of bytes.
pub strcmp_lem :
    (fuel a b : ℕ) (m : Memory) (l r : List ℕ)
    → IsString m a l
    → IsString m b r
    → a ≢ null
    → b ≢ null
    → length l < fuel
    → strcmp fuel a b m ≡ some (compare_lists l r)
unfolding strcmp
strcmp_lem fuel a b m l r hl hr na nb f =
    let va : (a != null) ≡ true = ground (arith, na) in
    let vb : (b != null) ≡ true = ground (arith, nb) in
    rw (va, vb) (compare_strings_lem fuel a b m l r hl hr f)

-- The index of the first occurrence of a byte, or the length.
abbrev pub index : ℕ → List ℕ → ℕ
index c [] = 0
index c (x ∷ xs) = if x == c then 0 else suc (index c xs)

find_char_lem :
    (fuel p c : ℕ) (m : Memory) (l : List ℕ)
    → IsString m p l
    → length l < fuel
    → find_char fuel p c m ≡ some (if elem c l || c == 0 then p + index c l else null)
unfolding find_char
find_char_lem zero p c m l h f = absurd (omega arith)
find_char_lem (suc fuel) p c m [] h f = ground (arith, h)
find_char_lem (suc fuel) p c m (x ∷ xs) (e, ne, h) f =
    ground (arith, e, ne, find_char_lem fuel (suc p) c m xs h (omega arith))

-- strchr() returns the address of the first occurrence of a byte, of the terminator for 0, and NULL
-- if there is none.
pub strchr_lem :
    (fuel p c : ℕ) (m : Memory) (l : List ℕ)
    → IsString m p l
    → p ≢ null
    → c < 256
    → length l < fuel
    → strchr fuel p c m ≡ some (if elem c l || c == 0 then p + index c l else null)
unfolding strchr
strchr_lem fuel p c m l h np b f =
    let valid : (p != null) ≡ true = ground (arith, np) in
    let byte : c % 256 ≡ c = omega arith in rw (valid, byte) (find_char_lem fuel p c m l h f)

pub in_set_lem :
    (fuel p c : ℕ) (m : Memory) (l : List ℕ)
    → IsString m p l
    → p ≢ null
    → c < 256
    → length l < fuel
    → in_set fuel p c m ≡ some (elem c l || c == 0)
unfolding in_set
in_set_lem fuel p c m l h np b f = rw (strchr_lem fuel p c m l h np b f) (ground (arith, np))
