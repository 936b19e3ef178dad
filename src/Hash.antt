-- ===== src/Hash.antt =====
-- Hash tables: pintos/src/lib/kernel/hash.c. An element is its address, a bucket the sequence of its
-- elements, the buckets a function of their index. The functions `hash` and `less` of the user, with
-- the auxiliary data, are arguments. Whether malloc() gives memory for buckets, and whether free() of
-- old ones returns, are arguments too; the arrays are kept apart from the block allocator. A null
-- pointer, and a free() that does not return, is `none`.
pub mod Bytes
pub mod Sums
pub mod Finds
pub mod Resize
pub mod Updates
pub mod Changes
pub mod Maps
pub mod Order
use tweaking_pintos.Prelude.{
  ℕ, zero, suc, ◌+◌, ◌-◌, ◌/◌, ◌%◌, ◌^◌, Bool, true, false, not, ◌&&◌, ◌||◌, List, [], ◌∷◌, ◌++◌,
  Option, none, some, ltb, ◌==◌, ◌!=◌, if◌then◌else◌, elem, erase, bit_and,
}
use tweaking_pintos.Prelude.Partial.{◌>>=◌}

pub record Hash : Type 0 where
  pub elem_cnt : ℕ
  pub bucket_cnt : ℕ
  pub buckets : ℕ → List ℕ

-- The elements of `n` buckets from `i` on, in the order in which hash_apply() visits them.
unfoldable pub elements : (n i : ℕ) → (ℕ → List ℕ) → List ℕ
elements zero i buckets = []
elements (suc n) i buckets = buckets i ++ elements n (i + 1) buckets

-- The elements that the destructor is called with, in order.
unfoldable pub hash_clear : Hash → List ℕ × Hash
hash_clear h = (
  elements h.bucket_cnt 0 h.buckets,
  record { elem_cnt = 0; bucket_cnt = h.bucket_cnt; buckets = λ j. [] },
)

unfoldable pub hash_init : (granted : Bool) → Option Hash
hash_init granted =
    let h : Hash = record { elem_cnt = 0; bucket_cnt = 4; buckets = λ j. [] } in
    if granted then some (hash_clear h).1 else none

unfoldable pub turn_off_least_1bit : (x : ℕ) → ℕ
turn_off_least_1bit x = bit_and x ((x + 2 ^ 32 - 1) % 2 ^ 32)

abbrev pub is_power_of_2 : (x : ℕ) → Bool
is_power_of_2 x = x != 0 && turn_off_least_1bit x == 0

-- The loop that makes the number of buckets a power of 2, for at most `fuel` rounds.
unfoldable pub clear_bits : (fuel new_bucket_cnt : ℕ) → Option ℕ
clear_bits zero new_bucket_cnt = none
clear_bits (suc fuel) new_bucket_cnt =
    let rest = clear_bits fuel (turn_off_least_1bit new_bucket_cnt) in
    if is_power_of_2 new_bucket_cnt then some new_bucket_cnt else rest

-- How many buckets are best for this number of elements.
unfoldable pub best_bucket_cnt : (elem_cnt : ℕ) → Option ℕ
best_bucket_cnt elem_cnt =
    let least = if ltb (elem_cnt / 2) 4 then 4 else elem_cnt / 2 in clear_bits least least

abbrev pub hash_size : Hash → ℕ
hash_size h = h.elem_cnt

abbrev pub hash_empty : Hash → Bool
hash_empty h = h.elem_cnt == 0

abbrev pub push_front : (bucket elem : ℕ) → (ℕ → List ℕ) → ℕ → List ℕ
push_front bucket elem buckets j = if j == bucket then elem ∷ buckets j else buckets j

unfoldable pub insert_elem : (bucket e : ℕ) → Hash → Hash
insert_elem bucket e h = record h {
  elem_cnt = (h.elem_cnt + 1) % 2 ^ 32;
  buckets = push_front bucket e h.buckets;
}

-- list_remove() unlinks the element wherever it stands.
unfoldable pub remove_elem : (e : ℕ) → Hash → Hash
remove_elem e h = record h {
  elem_cnt = (h.elem_cnt + 2 ^ 32 - 1) % 2 ^ 32;
  buckets = λ j. erase e (h.buckets j);
}

-- What the heap does in a rehash(): whether malloc() grants the new buckets, and whether free() of the
-- old ones returns.
pub record Supply : Type 0 where
  pub granted : Bool
  pub freed : Bool

module _ (hash : ℕ → ℕ) (less : ℕ → ℕ → Bool) where
  -- The index of the bucket of an element.
  unfoldable pub find_bucket : (bucket_cnt e : ℕ) → ℕ
  find_bucket bucket_cnt e = bit_and (hash e) ((bucket_cnt + 2 ^ 32 - 1) % 2 ^ 32)

  abbrev pub equal : ℕ → ℕ → Bool
  equal a b = not (less a b) && not (less b a)

  unfoldable pub find_elem : (bucket : List ℕ) (e : ℕ) → Option ℕ
  find_elem [] e = none
  find_elem (hi ∷ bucket) e = let rest = find_elem bucket e in if equal hi e then some hi else rest

  -- The elements of an old bucket go to the new ones.
  unfoldable pub move_bucket : (bucket_cnt : ℕ) → List ℕ → (ℕ → List ℕ) → ℕ → List ℕ
  move_bucket bucket_cnt [] buckets = buckets
  move_bucket bucket_cnt (e ∷ old) buckets =
      move_bucket bucket_cnt old (push_front (find_bucket bucket_cnt e) e buckets)

  -- The first `n` old buckets.
  unfoldable pub move_all : (bucket_cnt n : ℕ) (old buckets : ℕ → List ℕ) → ℕ → List ℕ
  move_all bucket_cnt zero old buckets = buckets
  move_all bucket_cnt (suc n) old buckets =
      move_bucket bucket_cnt (old n) (move_all bucket_cnt n old buckets)

  -- A free() that does not return is `none`.
  unfoldable pub rehash : Supply → Hash → Option Hash
  rehash supply h = do
    cnt ← best_bucket_cnt h.elem_cnt
    (if cnt == h.bucket_cnt || not supply.granted
        then some h
        else if supply.freed
        then some
            (record h { bucket_cnt = cnt; buckets = move_all cnt h.bucket_cnt h.buckets (λ j. []) })
        else none)

  unfoldable pub hash_find : (e : ℕ) → Hash → Option ℕ
  hash_find e h = find_elem (h.buckets (find_bucket h.bucket_cnt e)) e

  unfoldable pub hash_insert : (new : ℕ) (supply : Supply) → Hash → Option (Option ℕ × Hash)
  hash_insert new supply h = do
    let old = hash_find new h
    let bucket = find_bucket h.bucket_cnt new
    h' ← rehash supply (elim old [ none ↦ insert_elem bucket new h | some e ↦ h ])
    some (old, h')

  unfoldable pub hash_replace : (new : ℕ) (supply : Supply) → Hash → Option (Option ℕ × Hash)
  hash_replace new supply h = do
    let old = hash_find new h
    let bucket = find_bucket h.bucket_cnt new
    h' ← rehash supply (insert_elem bucket new (elim old [ none ↦ h | some e ↦ remove_elem e h ]))
    some (old, h')

  unfoldable pub hash_delete : (e : ℕ) (supply : Supply) → Hash → Option (Option ℕ × Hash)
  hash_delete e supply h = elim (hash_find e h) [
    | none ↦ some (none, h)
    | some found ↦ do h' ← rehash supply (remove_elem found h); some (some found, h')
  ]

-- The elements that the action is called with, in order.
unfoldable pub hash_apply : Hash → List ℕ
hash_apply h = elements h.bucket_cnt 0 h.buckets

-- The current bucket and element, and what follows the element in the bucket. There is no current
-- element before the first call of hash_next() and after the last.
pub record HashIterator : Type 0 where
  pub bucket : ℕ
  pub elem : Option ℕ
  pub following : List ℕ

unfoldable pub hash_first : Hash → HashIterator
hash_first h = record { bucket = 0; elem = none; following = h.buckets 0 }

-- The loop of hash_next() from bucket `i` on, of `n` that are left.
unfoldable pub next_bucket : (n i : ℕ) → Hash → HashIterator
next_bucket zero i h = record { bucket = i; elem = none; following = [] }
next_bucket (suc n) i h =
    let rest = next_bucket n (i + 1) h in
    elim (h.buckets i) [ [] ↦ rest | x ∷ xs ↦ record { bucket = i; elem = some x; following = xs } ]

unfoldable pub hash_next : Hash → HashIterator → HashIterator
hash_next h i = elim (i.following) [
  | [] ↦ next_bucket (h.bucket_cnt - (i.bucket + 1)) (i.bucket + 1) h
  | x ∷ xs ↦ record { bucket = i.bucket; elem = some x; following = xs }
]

abbrev pub hash_cur : HashIterator → Option ℕ
hash_cur i = i.elem
