-- ===== src/Tests/Sectors.antt =====
-- The free map of a device of 40 sectors.
use tweaking_pintos.Prelude.{
  ℕ, ◌≡◌, refl, true, false, not, ◌&&◌, [], ◌∷◌, none, some, arith, ◌⊎◌, if◌then◌else◌,
}
use tweaking_pintos.Bitmap.{
  bitmap_scan_and_flip, flip_found, bitmap_scan, scan_from, bitmap_contains, contains_from,
  bitmap_test, in_range, next, bitmap_set_multiple, set_from, bitmap_set, bitmap_mark,
}
use tweaking_pintos.Bitmap.View.{IsWf}
use tweaking_pintos.Bitmap.Ranges.{Wrote}
use tweaking_pintos.Bitmap.Search.{HasNoGroup, IsFirst}
use tweaking_pintos.FreeMap.{FreeMap, free_map_allocate, free_map_release, keep_or_undo}
use tweaking_pintos.FreeMap.Sectors.{SameSectors, free_map_allocate_lem}
use tweaking_pintos.FreeMap.Release.{free_map_roundtrip}

-- Sectors 0, 1 and 2 are in use, and the free map has a file.
abbrev device : FreeMap
device = record { free_map = record { bit_cnt = 40; bits = 7 ∷ 0 ∷ [] }; free_map_file = true }

device-IsWf : IsWf device.free_map
device-IsWf = record {
  storage = refl;
  fits = omega arith;
  words = (omega arith, (omega arith, tt));
}

free_map_allocate_example :
    (HasNoGroup device.free_map 0 4 false
      × (free_map_allocate false 4 device ≡ some (none, device)))
    ⊎ ((r : ℕ) × (s' : FreeMap) × IsFirst device.free_map 0 4 false r
        × (s'.free_map_file ≡ true)
        × (if device.free_map_file && not false
            then (free_map_allocate false 4 device ≡ some (none, s'))
              × SameSectors device.free_map s'.free_map
            else (free_map_allocate false 4 device ≡ some (some r, s'))
              × Wrote device.free_map r 4 true s'.free_map))
free_map_allocate_example = free_map_allocate_lem false 4 device device-IsWf

-- Two sectors are taken, and written.
abbrev allocated : FreeMap
allocated = record { free_map = record { bit_cnt = 40; bits = 31 ∷ 0 ∷ [] }; free_map_file = true }

free_map_allocate_run : free_map_allocate true 2 device ≡ some (some 3, allocated)
unfolding free_map_allocate keep_or_undo bitmap_scan_and_flip flip_found bitmap_scan scan_from
    bitmap_contains contains_from bitmap_test in_range next bitmap_set_multiple set_from bitmap_set
    bitmap_mark
free_map_allocate_run = refl

free_map_roundtrip_example :
    (s : FreeMap) × (free_map_release 3 2 allocated ≡ some s)
    × SameSectors device.free_map s.free_map
free_map_roundtrip_example =
    free_map_roundtrip true 2 3 device allocated device-IsWf refl free_map_allocate_run
