-- ===== src/Ustar/Headers.antt =====
-- What ustar_parse_header() accepts.
use tweaking_pintos.Prelude.{
  ℕ, suc, ◌+◌, ◌≤◌, ◌<◌, ◌≡◌, ◌^◌, ◌⊎◌, inl, inr, true, false, ◌≢◌, List, [], ◌∷◌, Option, none,
  some,
}
use tweaking_pintos.Prelude.Partial.{◌>>=◌}
use tweaking_pintos.Memory.{Memory}
use tweaking_pintos.Ustar.{
  chksum_start, magic_field, version_field, prefix_field, typeflag_field, ustar_regular,
  ustar_directory, size_field, parse_octal_field, is_all_zeros, FileName, Message, Parsed,
  end_of_archive, entry, failed, not_ustar, bad_version, corrupt_chksum, wrong_chksum, long_name,
  bad_type, corrupt_size, large,
}
use tweaking_pintos.Ustar.Checksum.{checksum}
use tweaking_pintos.Ustar.Names.{IsHarmless}

abbrev magic : List ℕ
magic = 117 ∷ 115 ∷ 116 ∷ 97 ∷ 114 ∷ 0 ∷ []

abbrev version : List ℕ
version = 48 ∷ 48 ∷ []

-- The bytes from `p` on are these.
abbrev pub Bytes : List ℕ → (p : ℕ) → Memory → Type 0
Bytes [] p m = Unit
Bytes (c ∷ cs) p m = (m p ≡ c) × Bytes cs (suc p) m

-- A header of the format: its magic bytes and version, a right checksum, a name that ends in its
-- field, no prefix for the name, and a known type.
pub record IsHeader (header : ℕ) (m : Memory) : Type 0 where
  pub magic : Bytes magic (header + magic_field) m
  pub numbered : Bytes version (header + version_field) m
  pub chksum : parse_octal_field (header + chksum_start) 8 m ≡ some (checksum header m)
  pub name_end : m (header + 99) ≡ 0
  pub no_prefix : m (header + prefix_field) ≡ 0
  pub known :
      (m (header + typeflag_field) ≡ ustar_regular)
      ⊎ (m (header + typeflag_field) ≡ ustar_directory)

-- What is wrong with a header that is refused with a message.
abbrev pub IsWrong : (header : ℕ) → Memory → Message → Type 0
IsWrong header m not_ustar = ¬ Bytes magic (header + magic_field) m
IsWrong header m bad_version = ¬ Bytes version (header + version_field) m
IsWrong header m corrupt_chksum = parse_octal_field (header + chksum_start) 8 m ≡ none
IsWrong header m wrong_chksum =
    (c : ℕ) × (parse_octal_field (header + chksum_start) 8 m ≡ some c) × (c ≢ checksum header m)
IsWrong header m long_name = (m (header + 99) ≢ 0) ⊎ (m (header + prefix_field) ≢ 0)
IsWrong header m bad_type =
    (m (header + typeflag_field) ≢ ustar_regular) × (m (header + typeflag_field) ≢ ustar_directory)
IsWrong header m corrupt_size =
    (m (header + typeflag_field) ≡ ustar_regular)
    × (parse_octal_field (header + size_field) 12 m ≡ none)
IsWrong header m large =
    (m (header + typeflag_field) ≡ ustar_regular)
    × ((v : ℕ) × (parse_octal_field (header + size_field) 12 m ≡ some v) × 2 ^ 31 ≤ v)

-- The outcome of the checks.
data IsChecked (header : ℕ) (m : Memory) : Option Message → Type 0 where
  passes : IsHeader header m → IsChecked header m none
  fails : (message : Message) → IsWrong header m message → IsChecked header m (some message)

-- The size that goes with the type: that of the size field for a file, 0 for a directory.
abbrev pub SizeOf : (header : ℕ) → Memory → ℕ → Type 0
SizeOf header m size =
    ((m (header + typeflag_field) ≡ ustar_regular)
      × (parse_octal_field (header + size_field) 12 m ≡ some size)
      × size < 2 ^ 31)
    ⊎ ((m (header + typeflag_field) ≢ ustar_regular) × (size ≡ 0))

-- What a result of ustar_parse_header() says of the header.
pub data IsParsed (header : ℕ) (m : Memory) : Parsed → Type 0 where
  at_end : is_all_zeros header 512 m ≡ true → IsParsed header m end_of_archive
  refused :
      (message : Message)
      → is_all_zeros header 512 m ≡ false
      → IsWrong header m message
      → IsParsed header m (failed message)
  accepted :
      (name : FileName) (size : ℕ)
      → is_all_zeros header 512 m ≡ false
      → IsHeader header m
      → IsHarmless m name
      → SizeOf header m size
      → IsParsed header m (entry name (m (header + typeflag_field)) size)

-- The size of a file or directory.
data IsSize (header : ℕ) (m : Memory) : ℕ ⊎ Message → Type 0 where
  no_size : (message : Message) → IsWrong header m message → IsSize header m (inr message)
  a_size : (size : ℕ) → SizeOf header m size → IsSize header m (inl size)
