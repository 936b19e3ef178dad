-- ===== src/Bitmap.antt =====
-- Bitmaps: pintos/src/lib/kernel/bitmap.c, on a machine where `size_t` and an element have 32 bits.
pub mod View
pub mod Ranges
pub mod Count
pub mod Create
pub mod Search
use tweaking_pintos.Prelude.{
  ℕ, zero, suc, ◌+◌, ◌-◌, ◌*◌, ◌/◌, ◌%◌, ◌^◌, Bool, true, false, not, List, [], ◌∷◌, Option, none,
  some, ltb, leb, beq, ◌==◌, ◌!=◌, if◌then◌else◌, bit_and, bit_or, bit_xor, get_elem?, set,
  replicate, length,
}
use tweaking_pintos.Prelude.Partial.{◌>>=◌, ◌>>◌, assert}

-- `bits` holds the elements of the storage.
pub record Bitmap : Type 0 where
  pub bit_cnt : ℕ
  pub bits : List ℕ

abbrev pub elem_bits : ℕ
elem_bits = 32

abbrev pub bitmap_error : ℕ
bitmap_error = 2 ^ 32 - 1

abbrev pub elem_idx : ℕ → ℕ
elem_idx bit_idx = bit_idx / elem_bits

abbrev pub bit_mask : ℕ → ℕ
bit_mask bit_idx = 2 ^ (bit_idx % elem_bits)

-- DIV_ROUND_UP
abbrev pub elem_cnt : ℕ → ℕ
elem_cnt bit_cnt = (bit_cnt + elem_bits - 1) % 2 ^ 32 / elem_bits

abbrev pub bitmap_size : Bitmap → ℕ
bitmap_size b = b.bit_cnt

-- Read, change and write back the element with this index.
abbrev pub change : Bitmap → (idx : ℕ) → (ℕ → ℕ) → Option Bitmap
change b idx f = do w ← get_elem? b.bits idx; some (record b { bits = set b.bits idx (f w) })

unfoldable pub bitmap_mark : Bitmap → (bit_idx : ℕ) → Option Bitmap
bitmap_mark b bit_idx = change b (elem_idx bit_idx) λ w. bit_or w (bit_mask bit_idx)

unfoldable pub bitmap_reset : Bitmap → (bit_idx : ℕ) → Option Bitmap
bitmap_reset b bit_idx = change b (elem_idx bit_idx) λ w. bit_and w (2 ^ 32 - 1 - bit_mask bit_idx)

unfoldable pub bitmap_flip : Bitmap → (bit_idx : ℕ) → Option Bitmap
bitmap_flip b bit_idx = change b (elem_idx bit_idx) λ w. bit_xor w (bit_mask bit_idx)

unfoldable pub bitmap_set : Bitmap → (idx : ℕ) → (value : Bool) → Option Bitmap
unfolding bitmap_mark bitmap_reset
bitmap_set b idx value = do
  assert (ltb idx b.bit_cnt)
  if value then bitmap_mark b idx else bitmap_reset b idx

unfoldable pub bitmap_test : Bitmap → (idx : ℕ) → Option Bool
bitmap_test b idx = do
  assert (ltb idx b.bit_cnt)
  w ← get_elem? b.bits (elem_idx idx)
  some (bit_and w (bit_mask idx) != 0)

-- The loops run over the `n` bits from `i`; `start + i` wraps like any sum of a `size_t`.
unfoldable pub next : ℕ → ℕ
next i = (i + 1) % 2 ^ 32

unfoldable pub in_range : Bitmap → (start cnt : ℕ) → Option (Unit {0})
in_range b start cnt = do
  assert (leb start b.bit_cnt)
  assert (leb ((start + cnt) % 2 ^ 32) b.bit_cnt)

unfoldable pub set_from : Bitmap → (i n : ℕ) → (value : Bool) → Option Bitmap
unfolding bitmap_set next
set_from b i zero value = some b
set_from b i (suc n) value = do b' ← bitmap_set b i value; set_from b' (next i) n value

unfoldable pub bitmap_set_multiple : Bitmap → (start cnt : ℕ) → (value : Bool) → Option Bitmap
unfolding in_range set_from
bitmap_set_multiple b start cnt value = do in_range b start cnt; set_from b start cnt value

unfoldable pub bitmap_set_all : Bitmap → (value : Bool) → Option Bitmap
unfolding bitmap_set_multiple
bitmap_set_all b value = bitmap_set_multiple b 0 (bitmap_size b) value

-- `header` and `block` are what malloc() returned for the structure and for the elements.
-- The outer option is for a failure, the inner one is the pointer that is returned.
unfoldable pub bitmap_create :
    (bit_cnt : ℕ) (header : Bool) (block : Option (List ℕ)) → Option (Option Bitmap)
unfolding bitmap_set_all
bitmap_create bit_cnt false block = some none
bitmap_create bit_cnt true none =
    if bit_cnt == 0
    then (do b ← bitmap_set_all (record { bit_cnt = bit_cnt; bits = [] }) false; some (some b))
    else some none
bitmap_create bit_cnt true (some words) = do
  b ← bitmap_set_all (record { bit_cnt = bit_cnt; bits = words }) false
  some (some b)

abbrev pub byte_cnt : ℕ → ℕ
byte_cnt bit_cnt = 4 * elem_cnt bit_cnt % 2 ^ 32

-- A `struct bitmap` has 8 bytes.
abbrev pub bitmap_buf_size : (bit_cnt : ℕ) → ℕ
bitmap_buf_size bit_cnt = (8 + byte_cnt bit_cnt) % 2 ^ 32

-- `words` is the storage behind the header in the block.
unfoldable pub bitmap_create_in_buf :
    (bit_cnt : ℕ) (words : List ℕ) (block_size : ℕ) → Option Bitmap
unfolding bitmap_set_all
bitmap_create_in_buf bit_cnt words block_size = do
  assert (leb (bitmap_buf_size bit_cnt) block_size)
  bitmap_set_all (record { bit_cnt = bit_cnt; bits = words }) false

count_from : Bitmap → (i n : ℕ) → (value : Bool) → Option ℕ
unfolding bitmap_test next
count_from b i zero value = some 0
count_from b i (suc n) value = do
  x ← bitmap_test b i
  rest ← count_from b (next i) n value
  some (if beq x value then suc rest else rest)

unfoldable pub bitmap_count : Bitmap → (start cnt : ℕ) → (value : Bool) → Option ℕ
unfolding in_range count_from
bitmap_count b start cnt value = do in_range b start cnt; count_from b start cnt value

unfoldable pub contains_from : Bitmap → (i n : ℕ) → (value : Bool) → Option Bool
unfolding bitmap_test next
contains_from b i zero value = some false
contains_from b i (suc n) value = do
  x ← bitmap_test b i
  if beq x value then some true else contains_from b (next i) n value

unfoldable pub bitmap_contains : Bitmap → (start cnt : ℕ) → (value : Bool) → Option Bool
unfolding in_range contains_from
bitmap_contains b start cnt value = do in_range b start cnt; contains_from b start cnt value

abbrev pub negate : Option Bool → Option Bool
negate none = none
negate (some b) = some (not b)

pub bitmap_any : Bitmap → (start cnt : ℕ) → Option Bool
unfolding bitmap_contains
bitmap_any b start cnt = bitmap_contains b start cnt true

pub bitmap_none : Bitmap → (start cnt : ℕ) → Option Bool
unfolding bitmap_contains
bitmap_none b start cnt = negate (bitmap_contains b start cnt true)

pub bitmap_all : Bitmap → (start cnt : ℕ) → Option Bool
unfolding bitmap_contains
bitmap_all b start cnt = negate (bitmap_contains b start cnt false)

-- `n` rounds of the search are left. The last index fits a `size_t`, so `i++` does not wrap.
unfoldable pub scan_from : Bitmap → (i n cnt : ℕ) → (value : Bool) → Option ℕ
unfolding bitmap_contains
scan_from b i zero cnt value = some bitmap_error
scan_from b i (suc n) cnt value = do
  bad ← bitmap_contains b i cnt (not value)
  if bad then scan_from b (suc i) n cnt value else some i

unfoldable pub bitmap_scan : Bitmap → (start cnt : ℕ) → (value : Bool) → Option ℕ
unfolding scan_from
bitmap_scan b start cnt value = do
  assert (leb start b.bit_cnt)
  if leb cnt b.bit_cnt
      then scan_from b start (b.bit_cnt - cnt + 1 - start) cnt value
      else some bitmap_error

unfoldable pub flip_found : Bitmap → (idx cnt : ℕ) → (value : Bool) → Option Bitmap
unfolding bitmap_set_multiple
flip_found b idx cnt value =
    if idx != bitmap_error then bitmap_set_multiple b idx cnt (not value) else some b

unfoldable pub bitmap_scan_and_flip :
    Bitmap → (start cnt : ℕ) → (value : Bool) → Option (ℕ × Bitmap)
unfolding bitmap_scan flip_found
bitmap_scan_and_flip b start cnt value = do
  idx ← bitmap_scan b start cnt value
  b' ← flip_found b idx cnt value
  some (idx, b')
