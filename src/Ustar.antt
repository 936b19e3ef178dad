-- ===== src/Ustar.antt =====
-- Headers of tar archives: pintos/src/lib/ustar.c, but for the function that writes one with snprintf().
-- A header is 512 bytes of the memory, at an address.
pub mod Octal
pub mod Checksum
pub mod Names
pub mod Headers
use tweaking_pintos.Prelude.{
  ℕ, zero, suc, ◌+◌, ◌-◌, ◌*◌, ◌/◌, ◌%◌, ◌^◌, Bool, true, false, ◌&&◌, ◌||◌, ◌⊎◌, inl, inr, not,
  List, [], ◌∷◌, Option, none, some, ltb, leb, ◌==◌, ◌!=◌, if◌then◌else◌,
}
use tweaking_pintos.Prelude.Partial.{◌>>=◌}
use tweaking_pintos.Memory.{Memory}
use tweaking_pintos.Text.Scan.{strchr}

abbrev pub ustar_regular : ℕ
ustar_regular = 48

abbrev pub ustar_directory : ℕ
ustar_directory = 53

-- Where the fields stand that the code reads.
abbrev pub name_size : ℕ
name_size = 100

abbrev pub size_field : ℕ
size_field = 124

abbrev pub chksum_start : ℕ
chksum_start = 148

abbrev pub typeflag_field : ℕ
typeflag_field = 156

abbrev pub magic_field : ℕ
magic_field = 257

abbrev pub version_field : ℕ
version_field = 263

abbrev pub prefix_field : ℕ
prefix_field = 345

-- The loop of calculate_chksum() from `i` on, over the `n` bytes that are left.
unfoldable pub chksum_from : (n i chksum header : ℕ) → Memory → ℕ
chksum_from zero i chksum header m = chksum
chksum_from (suc n) i chksum header m =
    let in_chksum_field = leb chksum_start i && ltb i (chksum_start + 8) in
    chksum_from n (i + 1) ((chksum + (if in_chksum_field then 32 else m (header + i))) % 2 ^ 32)
      header m

unfoldable pub calculate_chksum : (header : ℕ) → Memory → ℕ
calculate_chksum header m = chksum_from 512 0 0 header m

-- Whether the bytes at `p` are these: memcmp() with a literal is 0.
abbrev pub begins : List ℕ → (p : ℕ) → Memory → Bool
begins [] p m = true
begins (c ∷ cs) p m = m p == c && begins cs (suc p) m

-- "/", "./" or "../" at the front.
abbrev pub is_antisocial : (p : ℕ) → Memory → Bool
is_antisocial p m = m p == 47 || begins (46 ∷ 47 ∷ []) p m || begins (46 ∷ 46 ∷ 47 ∷ []) p m

-- A name in the memory, or the literal ".".
pub data FileName : Type 0 where
  name_at : ℕ → FileName
  dot : FileName

-- `limit` is the fuel of strchr().
unfoldable pub strip_from : (fuel limit file_name : ℕ) → Memory → Option FileName
strip_from zero limit file_name m = none
strip_from (suc fuel) limit file_name m =
    let rest = (do slash ← strchr limit file_name 47 m; strip_from fuel limit (slash + 1) m) in
    if is_antisocial file_name m
    then rest
    else if m file_name == 0 || begins (46 ∷ 46 ∷ 0 ∷ []) file_name m
    then some dot
    else some (name_at file_name)

unfoldable pub strip_antisocial_prefixes : (fuel limit file_name : ℕ) → Memory → Option FileName
strip_antisocial_prefixes fuel limit file_name m = strip_from fuel limit file_name m

-- The loop of parse_octal_field() from `ofs` on, over the `n` bytes that are left.
unfoldable pub octal_from : (n ofs value s : ℕ) → Memory → Option ℕ
octal_from zero ofs value s m = none
octal_from (suc n) ofs value s m =
    let c = m (s + ofs) in
    let rest = octal_from n (ofs + 1) ((c - 48 + value * 8) % 2 ^ 32) s m in
    if leb 48 c && leb c 55
    then (if ltb ((2 ^ 32 - 1) / 8) value then none else rest)
    else if c == 32 || c == 0
    then (if ltb 0 ofs then some value else none)
    else none

-- The value, if there is one.
unfoldable pub parse_octal_field : (s size : ℕ) → Memory → Option ℕ
parse_octal_field s size m = octal_from size 0 0 s m

unfoldable pub is_all_zeros : (block cnt : ℕ) → Memory → Bool
is_all_zeros block zero m = true
is_all_zeros block (suc cnt) m =
    let rest = is_all_zeros (block + 1) cnt m in if m block != 0 then false else rest

-- The messages of ustar_parse_header(), in the order of the code.
pub data Message : Type 0 where
  not_ustar bad_version corrupt_chksum wrong_chksum long_name bad_type corrupt_size large : Message

pub data Parsed : Type 0 where
  end_of_archive : Parsed
  entry : (file_name : FileName) (type size : ℕ) → Parsed
  failed : Message → Parsed

-- The size of the file, or a message.
unfoldable pub file_size : (header : ℕ) → Memory → ℕ ⊎ Message
file_size header m =
    if m (header + typeflag_field) == ustar_regular
    then elim (parse_octal_field (header + size_field) 12 m) [
      | none ↦ inr corrupt_size
      | some size_ul ↦ if ltb (2 ^ 31 - 1) size_ul then inr large else inl size_ul
    ]
    else inl 0

-- The checks behind that of the checksum's own field.
unfoldable pub check_rest : (chksum header : ℕ) → Memory → Option Message
check_rest chksum header m =
    if chksum != calculate_chksum header m
    then some wrong_chksum
    else if m (header + (name_size - 1)) != 0 || m (header + prefix_field) != 0
    then some long_name
    else if m (header + typeflag_field) != ustar_regular
        && m (header + typeflag_field) != ustar_directory
    then some bad_type
    else none

-- The first check that fails.
unfoldable pub check_header : (header : ℕ) → Memory → Option Message
check_header header m =
    if not (begins (117 ∷ 115 ∷ 116 ∷ 97 ∷ 114 ∷ 0 ∷ []) (header + magic_field) m)
    then some not_ustar
    else if not (begins (48 ∷ 48 ∷ []) (header + version_field) m)
    then some bad_version
    else elim (parse_octal_field (header + chksum_start) 8 m) [
      | none ↦ some corrupt_chksum
      | some chksum ↦ check_rest chksum header m
    ]

unfoldable pub ustar_parse_header : (fuel limit header : ℕ) → Memory → Option Parsed
ustar_parse_header fuel limit header m =
    if is_all_zeros header 512 m then some end_of_archive else elim (check_header header m) [
      | some message ↦ some (failed message)
      | none ↦ elim (file_size header m) [
        | inr message ↦ some (failed message)
        | inl size ↦ do
          file_name ← strip_antisocial_prefixes fuel limit header m
          some (entry file_name (m (header + typeflag_field)) size)
      ]
    ]
