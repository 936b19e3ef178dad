-- ===== src/Tests/Bitmaps.antt =====
-- The bitmap functions on a bitmap of 40 bits.
use tweaking_pintos.Prelude.{ℕ, ◌+◌, ◌^◌, ◌≡◌, refl, false, [], ◌∷◌, some, arith}
use tweaking_pintos.Bitmap.{Bitmap, bitmap_scan, bitmap_scan_and_flip}
use tweaking_pintos.Bitmap.View.{IsWf}
use tweaking_pintos.Bitmap.Create.{IsStorage}
use tweaking_pintos.Bitmap.Search.{Flipped, bitmap_scan_and_flip-Flipped}

-- Bits 0, 2, 31 and 33 are set.
abbrev pages : Bitmap
pages = record { bit_cnt = 40; bits = (5 + 2 ^ 31) ∷ 2 ∷ [] }

pages-IsWf : IsWf pages
pages-IsWf = record { storage = refl; fits = omega arith; words = (omega arith, (omega arith, tt)) }

pages-IsStorage : IsStorage 40 pages.bits
pages-IsStorage = record {
  size = refl;
  fits = omega arith;
  small = (omega arith, (omega arith, tt));
}

bitmap_scan_and_flip_example :
    (r : ℕ) × (b' : Bitmap) × (bitmap_scan_and_flip pages 1 4 false ≡ some (r, b'))
    × Flipped pages 1 4 false r b'
bitmap_scan_and_flip_example = bitmap_scan_and_flip-Flipped 1 4 false pages-IsWf (omega arith)

-- The first four clear bits from bit 1 on are 3 to 6.
scan_run : bitmap_scan pages 1 4 false ≡ some 3
unfolding bitmap_scan
scan_run = refl
