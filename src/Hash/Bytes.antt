-- ===== src/Hash/Bytes.antt =====
-- The sample hash functions of pintos/src/lib/kernel/hash.c.
use tweaking_pintos.Prelude.{
  ℕ, zero, suc, ◌+◌, ◌*◌, ◌%◌, ◌^◌, ◌<◌, ◌≡◌, subst, refl, List, [], ◌∷◌, Option, none, some, ◌==◌,
  ◌!=◌, if◌then◌else◌, bit_xor, length, arith, false,
}
use tweaking_pintos.Prelude.Partial.{◌>>◌, assert}
use tweaking_pintos.Memory.{Memory, null, IsString}
use tweaking_pintos.Memory.Words.{write_word}

abbrev pub fnv_32_prime : ℕ
fnv_32_prime = 16777619

abbrev pub fnv_32_basis : ℕ
fnv_32_basis = 2166136261

abbrev pub hash_byte : (hash byte : ℕ) → ℕ
hash_byte hash byte = bit_xor (hash * fnv_32_prime % 2 ^ 32) byte

-- The loop of hash_bytes().
unfoldable pub bytes_from : (size buf hash : ℕ) → Memory → ℕ
bytes_from zero buf hash m = hash
bytes_from (suc size) buf hash m = bytes_from size (buf + 1) (hash_byte hash (m buf)) m

unfoldable pub hash_bytes : (buf size : ℕ) → Memory → Option ℕ
hash_bytes buf size m = do assert (buf != null); some (bytes_from size buf fnv_32_basis m)

-- The loop of hash_string(), for at most `fuel` rounds.
unfoldable pub string_from : (fuel s hash : ℕ) → Memory → Option ℕ
string_from zero s hash m = none
string_from (suc fuel) s hash m =
    let rest = string_from fuel (s + 1) (hash_byte hash (m s)) m in
    if m s == 0 then some hash else rest

unfoldable pub hash_string : (fuel s : ℕ) → Memory → Option ℕ
hash_string fuel s m = do assert (s != null); string_from fuel s fnv_32_basis m

-- `place` is where the argument `i` stands.
unfoldable pub hash_int : (place i : ℕ) → Memory → Option ℕ
hash_int place i m = hash_bytes place 4 (write_word m place i)

string_from_lem :
    (fuel s hash : ℕ) (m : Memory) (l : List ℕ)
    → IsString m s l
    → length l < fuel
    → string_from fuel s hash m ≡ some (bytes_from (length l) s hash m)
unfolding string_from bytes_from
string_from_lem zero s hash m l h lt = absurd (omega (arith, lt))
string_from_lem (suc fuel) s hash m [] h lt = rw h refl
string_from_lem (suc fuel) s hash m (x ∷ xs) (e, ne, h) lt =
    let more : (m s == 0) ≡ false = ground (arith, e, ne) in
    let next : suc s ≡ s + 1 = omega arith in
    rw more (
      string_from_lem fuel (s + 1) (hash_byte hash (m s)) m xs (subst (λ p. IsString m p xs) next h)
        (omega (arith, lt)))

-- For a string of C and more rounds than it has bytes: hash_string() ends, and its value is that of
-- hash_bytes() on the bytes of the string without the 0 at its end.
pub hash_string-hash_bytes :
    (fuel s : ℕ) (m : Memory) (l : List ℕ)
    → IsString m s l
    → length l < fuel
    → hash_string fuel s m ≡ hash_bytes s (length l) m
unfolding hash_string hash_bytes
hash_string-hash_bytes fuel s m l h lt = rw (string_from_lem fuel s fnv_32_basis m l h lt) refl
