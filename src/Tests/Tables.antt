-- ===== src/Tests/Tables.antt =====
-- A small hash table.
use tweaking_pintos.Prelude.{
  ℕ, ◌/◌, ◌%◌, ◌≡◌, refl, List, [], ◌∷◌, none, some, Option, arith, ltb, Bool, true, ◌==◌,
  if◌then◌else◌, Bool-cases, inl, inr, length, ◌<◌,
}
use tweaking_pintos.Prelude.Partial.{◌>>=◌}
use tweaking_pintos.Memory.{Memory, write}
use tweaking_pintos.Hash.{
  Supply, Hash, elements, hash_apply, hash_first, turn_off_least_1bit, clear_bits, best_bucket_cnt,
  insert_elem, remove_elem, find_bucket, equal, find_elem, move_bucket, move_all, rehash, hash_find,
  hash_insert, hash_replace, hash_delete,
}
use tweaking_pintos.Hash.Bytes.{hash_bytes, string_from, hash_string, hash_string-hash_bytes}
use tweaking_pintos.Hash.Sums.{sum, total}
use tweaking_pintos.Hash.Finds.{IsOrder, IsTable}
use tweaking_pintos.Hash.Changes.{IsMap, put, put_new, take_out, finds_of}
use tweaking_pintos.Hash.Maps.{hash_insert-IsMap, hash_replace-IsMap, hash_delete-IsMap}
use tweaking_pintos.Hash.Order.{iterate, iterate-hash_apply}

-- Elements that are equal when they agree in their tens.
abbrev hash : ℕ → ℕ
hash e = e / 10 % 16

abbrev less : ℕ → ℕ → Bool
less a b = ltb (a / 10) (b / 10)

tens : IsOrder hash less
tens = record {
  range = λ e. omega arith;
  irreflexive = λ e. ground arith;
  alike = λ a b c u v. ground (arith, u, v);
  same = λ a b u. same_tens a b (ground (arith, u));
}
  where
    same_tens : (a b : ℕ) → a / 10 ≡ b / 10 → hash a ≡ hash b
    same_tens a b e = rw e refl

-- There is memory for new buckets, and free() takes the old ones.
abbrev grants : Supply
grants = record { granted = true; freed = true }

abbrev one : Hash
one = record { elem_cnt = 1; bucket_cnt = 4; buckets = λ j. if j == 2 then 21 ∷ [] else [] }

one-IsTable : IsTable hash less one
unfolding sum total find_bucket
one-IsTable = record {
  some_bucket = omega arith;
  range = omega arith;
  counted = refl;
  placed = λ j l. elim (Bool-cases (j == 2)) [
    | inl t ↦ let two : j ≡ 2 = ground (arith, t) in rw (t, two) (refl, tt)
    | inr f ↦ rw f tt
  ];
  single = λ x. elim (Bool-cases (equal hash less 21 x)) [
    | inl t ↦ rw t (omega arith)
    | inr f ↦ rw f (omega arith)
  ];
}

hash_insert_example :
    (h' : Hash) × (hash_insert hash less 45 grants one ≡ some (hash_find hash less 45 one, h'))
    × IsMap hash less
        (put_new hash less (hash_find hash less 45 one) 45 (finds_of hash less one))
        h'
hash_insert_example = hash_insert-IsMap hash less 45 grants one refl tens (omega arith) one-IsTable

hash_replace_example :
    (h' : Hash) × (hash_replace hash less 25 grants one ≡ some (hash_find hash less 25 one, h'))
    × IsMap hash less (put hash less 25 (finds_of hash less one)) h'
hash_replace_example =
    hash_replace-IsMap hash less 25 grants one refl tens (omega arith) one-IsTable

hash_delete_example :
    (h' : Hash) × (hash_delete hash less 29 grants one ≡ some (hash_find hash less 29 one, h'))
    × IsMap hash less (take_out hash less 29 (finds_of hash less one)) h'
hash_delete_example = hash_delete-IsMap hash less 29 grants one refl tens (omega arith) one-IsTable

-- What was found, and one bucket.
abbrev look : ℕ → Option (Option ℕ × Hash) → Option (Option ℕ × List ℕ)
look j none = none
look j (some r) = some (r.0, r.1.buckets j)

replace_run : look 2 (hash_replace hash less 25 grants one) ≡ some (some 21, 25 ∷ [])
unfolding hash_replace hash_find find_elem find_bucket insert_elem remove_elem rehash
    best_bucket_cnt clear_bits turn_off_least_1bit
replace_run = refl

-- Seventeen elements, for which there are eight buckets.
abbrev add : ℕ → Option Hash → Option Hash
add e o = do h ← o; r ← hash_insert hash less e grants h; some (r.1)

abbrev size_and : ℕ → Option Hash → Option (ℕ × List ℕ)
size_and j none = none
size_and j (some h) = some (h.bucket_cnt, h.buckets j)

eight_buckets :
    size_and 1 (
      add 191 (
        add 181 (
          add 171 (
            add 161 (
              add 151 (
                add 141 (
                  add 131 (
                    add 121 (
                      add 111 (
                        add 101
                          (add 91 (add 81 (add 71 (add 61 (add 51 (add 41 (some one)))))))))))))))))
    ≡ some (8, 91 ∷ 171 ∷ [])
unfolding hash_insert hash_find find_elem find_bucket insert_elem rehash best_bucket_cnt clear_bits
    turn_off_least_1bit move_all move_bucket
eight_buckets = refl

two_rounds : length (hash_apply one) < 2
unfolding hash_apply elements
two_rounds = omega arith

iterate_example : iterate 2 one (hash_first one) ≡ some (hash_apply one)
iterate_example = iterate-hash_apply one 2 (omega arith) two_rounds

-- The string "a" at the address 8.
abbrev memory : Memory
memory = write (λ a. 0) 8 97

hash_string_example : hash_string 5 8 memory ≡ hash_bytes 8 1 memory
hash_string_example =
    hash_string-hash_bytes 5 8 memory (97 ∷ []) (refl, omega arith, refl) (omega arith)

hash_string_run : hash_string 5 8 memory ≡ some 84696446
unfolding hash_string string_from
hash_string_run = refl
