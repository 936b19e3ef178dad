-- ===== src/FreeMap/Sectors.antt =====
-- What the free map gives out and takes back.
use tweaking_pintos.Prelude.{
  ℕ, ◌≡◌, refl, sym, ◌∙◌, Bool, true, false, not, ◌&&◌, none, some, arith, ◌!=◌, if◌then◌else◌, ◌⊎◌,
  inl, inr, Bool-cases,
}
use tweaking_pintos.Bitmap.{Bitmap, bitmap_error}
use tweaking_pintos.Bitmap.View.{at, IsWf}
use tweaking_pintos.Bitmap.Ranges.{Wrote, within, bitmap_set_multiple-Wrote}
use tweaking_pintos.Bitmap.Search.{Group, HasNoGroup, IsFirst, bitmap_scan_and_flip-Flipped}
use tweaking_pintos.FreeMap.{FreeMap, keep_or_undo, free_map_allocate}

-- The same sectors are in use.
pub record SameSectors (b b' : Bitmap) : Type 0 where
  pub size : b'.bit_cnt ≡ b.bit_cnt
  pub wf : IsWf b'
  pub bits : (j : ℕ) → at b' j ≡ at b j

-- A free group, marked and freed again.
pub undone :
    (b b' b'' : Bitmap) (r cnt : ℕ)
    → Group b r cnt false
    → Wrote b r cnt true b'
    → Wrote b' r cnt false b''
    → SameSectors b b''
undone b b' b'' r cnt g w w' = record {
  size = w'.size ∙ w.size;
  wf = w'.wf;
  bits = λ j. elim (Bool-cases (within r cnt j)) [
    | inl yes_in ↦
        w'.bits j ∙ rw yes_in (sym (g j (ground (arith, yes_in)) (ground (arith, yes_in))))
    | inr out ↦ w'.bits j ∙ rw out (w.bits j ∙ rw out refl)
  ];
}

-- In a well-formed free map: where no `cnt` consecutive sectors are free, free_map_allocate() returns
-- false and changes nothing. Where some are, it takes the first such group: if the free map has a
-- file and the write to it fails, it returns false and the same sectors are in use as before;
-- otherwise it returns the first sector of the group, and exactly that group is newly in use.
pub free_map_allocate_lem :
    (written : Bool) (cnt : ℕ) (s : FreeMap)
    → IsWf s.free_map
    → (HasNoGroup s.free_map 0 cnt false × (free_map_allocate written cnt s ≡ some (none, s)))
      ⊎ ((r : ℕ) × (s' : FreeMap) × IsFirst s.free_map 0 cnt false r
          × (s'.free_map_file ≡ s.free_map_file)
          × (if s.free_map_file && not written
              then (free_map_allocate written cnt s ≡ some (none, s'))
                × SameSectors s.free_map s'.free_map
              else (free_map_allocate written cnt s ≡ some (some r, s'))
                × Wrote s.free_map r cnt true s'.free_map))
unfolding free_map_allocate keep_or_undo
free_map_allocate_lem written cnt s wf =
    let (r, b, e, flipped) = bitmap_scan_and_flip-Flipped 0 cnt false wf (omega arith) in
    elim flipped [
      | inl (z, full, same) ↦
          let miss : (r != bitmap_error) ≡ false = ground (arith, z) in
          inl (full, rw e (rw (miss, same) (rw miss refl)))
      | inr (first, w) ↦
          let found : (r != bitmap_error) ≡ true = ground (arith, first.inside, wf.fits) in
          elim (Bool-cases (s.free_map_file && not written)) [
            | inl fails ↦
                let (b', e', w') =
                  bitmap_set_multiple-Wrote r cnt false w.wf
                    (omega (arith, first.inside, w.size)) in
                inr (
                  r,
                  record s { free_map = b' },
                  first,
                  refl,
                  rw fails (
                    rw e (rw (found, fails) (rw e')),
                    undone s.free_map b b' r cnt first.group w w',
                  ),
                )
            | inr fine ↦ inr (
              r,
              record s { free_map = b },
              first,
              refl,
              rw fine (rw e (rw (found, fine) (rw found refl)), w),
            )
          ]
    ]
