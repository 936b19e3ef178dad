-- ===== src/Tests/Archives.antt =====
-- Tar headers: an octal field, names, and the header of a directory.
use tweaking_pintos.Prelude.{
  ℕ, ◌+◌, ◌≡◌, refl, ◌&&◌, [], ◌∷◌, List, none, some, arith, inr, if◌then◌else◌, ltb, leb, ◌^◌,
}
use tweaking_pintos.Memory.{Memory}
use tweaking_pintos.Text.Scan.{strchr, find_char}
use tweaking_pintos.Ustar.{
  chksum_from, calculate_chksum, strip_from, strip_antisocial_prefixes, octal_from,
  parse_octal_field, is_all_zeros, name_at, entry, file_size, check_rest, check_header,
  ustar_parse_header,
}
use tweaking_pintos.Ustar.Octal.{octal_value, parse_octal_field_lem}

-- The bytes of a list from an address on, and 0 elsewhere.
abbrev store : (p : ℕ) → List ℕ → Memory → Memory
store p [] m = m
store p (x ∷ xs) m = store (p + 1) xs (λ a. if (leb p a && leb a p) then x else m a)

-- "1234" and a space.
abbrev field : Memory
field = store 8 (49 ∷ 50 ∷ 51 ∷ 52 ∷ 32 ∷ []) (λ a. 0)

parse_octal_field_example : parse_octal_field 8 8 field ≡ (
    if ltb (octal_value 0 (1 ∷ 2 ∷ 3 ∷ 4 ∷ [])) (2 ^ 32)
    then some (octal_value 0 (1 ∷ 2 ∷ 3 ∷ 4 ∷ []))
    else none)
parse_octal_field_example =
    parse_octal_field_lem 8 8 field (1 ∷ 2 ∷ 3 ∷ 4 ∷ [])
      (omega arith, (omega arith, (omega arith, (omega arith, tt))))
      (refl, (refl, (refl, (refl, tt)))) (inr refl) (omega arith) (omega arith)

octal_run : parse_octal_field 8 8 field ≡ some 668
unfolding parse_octal_field octal_from
octal_run = refl

-- ".././a"
abbrev name : Memory
name = store 8 (46 ∷ 46 ∷ 47 ∷ 46 ∷ 47 ∷ 97 ∷ []) (λ a. 0)

strip_run : strip_antisocial_prefixes 9 9 8 name ≡ some (name_at 13)
unfolding strip_antisocial_prefixes strip_from strchr find_char
strip_run = refl

-- A directory "a"; the sum of the bytes is 1061 = 02045.
abbrev directory : Memory
directory = store 512 (97 ∷ []) (
    store 660 (48 ∷ 48 ∷ 48 ∷ 50 ∷ 48 ∷ 52 ∷ 53 ∷ [])
      (store 668 (53 ∷ []) (store 769 (117 ∷ 115 ∷ 116 ∷ 97 ∷ 114 ∷ 0 ∷ 48 ∷ 48 ∷ []) (λ a. 0))))

directory_run : ustar_parse_header 101 3 512 directory ≡ some (entry (name_at 512) 53 0)
unfolding ustar_parse_header check_header check_rest file_size parse_octal_field octal_from
    calculate_chksum chksum_from is_all_zeros strip_antisocial_prefixes strip_from strchr find_char
directory_run = refl
