-- ===== src/Bitmap/Create.antt =====
-- What new bitmaps hold.
use tweaking_pintos.Prelude.{
  ℕ, ◌+◌, ◌/◌, ◌^◌, ◌≤◌, ◌<◌, ◌≡◌, ◌≢◌, refl, ◌∙◌, true, false, List, [], none, some, arith, leb,
  length, All,
}
use tweaking_pintos.Bitmap.{
  Bitmap, bitmap_set_all, bitmap_create, bitmap_create_in_buf, bitmap_buf_size,
}
use tweaking_pintos.Bitmap.View.{at, IsWf}
use tweaking_pintos.Bitmap.Ranges.{bitmap_set_multiple-Wrote}

-- A well-formed bitmap of this size in which every bit is false.
pub record IsClear (bit_cnt : ℕ) (b : Bitmap) : Type 0 where
  pub size : b.bit_cnt ≡ bit_cnt
  pub wf : IsWf b
  pub clear : (j : ℕ) → j < bit_cnt → at b j ≡ false

-- Storage of the size that bitmap_create() asks for, whatever stands in it.
pub record IsStorage (bit_cnt : ℕ) (words : List ℕ) : Type 0 where
  pub size : length words ≡ (bit_cnt + 31) / 32
  pub fits : bit_cnt + 31 < 2 ^ 32
  pub small : All (λ w. w < 2 ^ 32) words

set_all_lem :
    (bit_cnt : ℕ) (words : List ℕ)
    → IsStorage bit_cnt words
    → (b : Bitmap) × (bitmap_set_all (record { bit_cnt = bit_cnt; bits = words }) false ≡ some b)
      × IsClear bit_cnt b
unfolding bitmap_set_all
set_all_lem bit_cnt words s =
    let block : Bitmap = record { bit_cnt = bit_cnt; bits = words } in
    let wf : IsWf block = record { storage = s.size; fits = s.fits; words = s.small } in
    let (b, e, w) = bitmap_set_multiple-Wrote 0 bit_cnt false wf (omega arith) in
    (b, e, record { size = w.size; wf = w.wf; clear = λ j h. w.bits j ∙ ground (arith, h) })

-- With memory for the header and the elements, bitmap_create() returns a well-formed bitmap of the
-- wanted size in which every bit is false; without memory for one of them it returns NULL, except
-- that no elements are needed for a bitmap of size 0.
pub bitmap_create-IsClear :
    (bit_cnt : ℕ) (words : List ℕ)
    → IsStorage bit_cnt words
    → ((b : Bitmap) × (bitmap_create bit_cnt true (some words) ≡ some (some b)) × IsClear bit_cnt b)
      × (bitmap_create bit_cnt false (some words) ≡ some none)
      × (bit_cnt ≢ 0 → bitmap_create bit_cnt true none ≡ some none)
      × ((b : Bitmap) × (bitmap_create 0 true none ≡ some (some b)) × IsClear 0 b)
unfolding bitmap_create
bitmap_create-IsClear bit_cnt words s =
    let (b, e, c) = set_all_lem bit_cnt words s in
    let (b0, e0, c0) = set_all_lem 0 [] (record { size = refl; fits = omega arith; small = tt }) in
    ((b, rw e, c), refl, λ ne. ground (arith, ne), (b0, rw e0, c0))

-- In a block that is large enough, bitmap_create_in_buf() makes a well-formed bitmap of the wanted
-- size in which every bit is false; in a smaller one it fails.
pub bitmap_create_in_buf-IsClear :
    (bit_cnt : ℕ) (words : List ℕ) (block_size : ℕ)
    → IsStorage bit_cnt words
    → (bitmap_buf_size bit_cnt ≤ block_size
        → (b : Bitmap) × (bitmap_create_in_buf bit_cnt words block_size ≡ some b)
          × IsClear bit_cnt b)
      × (block_size < bitmap_buf_size bit_cnt
          → bitmap_create_in_buf bit_cnt words block_size ≡ none)
unfolding bitmap_create_in_buf
bitmap_create_in_buf-IsClear bit_cnt words block_size s = (
  λ h.
      let large : leb (bitmap_buf_size bit_cnt) block_size ≡ true = ground (arith, h) in
      rw large (set_all_lem bit_cnt words s),
  λ h. let small : leb (bitmap_buf_size bit_cnt) block_size ≡ false = ground (arith, h) in rw small,
)
