-- ===== src/FreeMap/Release.antt =====
-- Releasing sectors of the free map, and the map at start-up.
use tweaking_pintos.Prelude.{
  ℕ, ◌+◌, ◌≤◌, ◌<◌, ◌≡◌, ap, sym, ◌∙◌, subst, Bool, true, false, not, ◌&&◌, List, Option, none,
  some, arith, ltb, ◌==◌, if◌then◌else◌, inl, inr, Bool-cases,
}
use tweaking_pintos.Prelude.Partial.{or_else, some_injective}
use tweaking_pintos.Bitmap.{Bitmap, bitmap_set, bitmap_mark}
use tweaking_pintos.Bitmap.View.{at, IsWf, Changed, bitmap_set-Changed}
use tweaking_pintos.Bitmap.Ranges.{Wrote, bitmap_set_multiple-Wrote}
use tweaking_pintos.Bitmap.Search.{Group, bitmap_all-Group}
use tweaking_pintos.Bitmap.Create.{IsStorage, bitmap_create-IsClear}
use tweaking_pintos.FreeMap.{FreeMap, free_map_init, free_map_allocate, free_map_release}
use tweaking_pintos.FreeMap.Sectors.{SameSectors, undone, free_map_allocate_lem}

-- With the file of the free map open, releasing sectors of the device makes exactly them free if all of them are in use, and panics if
-- one of them is free already.
pub free_map_release-Wrote :
    (sector cnt : ℕ) (s : FreeMap)
    → IsWf s.free_map
    → s.free_map_file ≡ true
    → sector + cnt ≤ s.free_map.bit_cnt
    → (Group s.free_map sector cnt true
        → (s' : FreeMap) × (free_map_release sector cnt s ≡ some s')
          × Wrote s.free_map sector cnt false s'.free_map)
      × (¬ Group s.free_map sector cnt true → free_map_release sector cnt s ≡ none)
unfolding free_map_release
free_map_release-Wrote sector cnt s wf file l =
    let ((c, e, (there, back)), _) = bitmap_all-Group sector cnt wf l in
    let (b, e', w) = bitmap_set_multiple-Wrote sector cnt false wf l in
    (
      λ g. (record s { free_map = b }, rw e (rw (back g) (rw e' (rw file))), w),
      λ n. rw e (elim (Bool-cases c) [ inl t ↦ absurd (n (there t)) | inr f ↦ rw f ]),
    )

-- With a well-formed free map whose file is open (free_map_release() follows the pointer), the sectors
-- that free_map_allocate() gives out can be released, and then the same sectors are in use as before.
pub free_map_roundtrip :
    (written : Bool) (cnt r : ℕ) (s s' : FreeMap)
    → IsWf s.free_map
    → s.free_map_file ≡ true
    → free_map_allocate written cnt s ≡ some (some r, s')
    → (s'' : FreeMap) × (free_map_release r cnt s' ≡ some s'') × SameSectors s.free_map s''.free_map
free_map_roundtrip written cnt r s s' wf file e = elim (free_map_allocate_lem written cnt s wf) [
  | inl (full, e') ↦ absurd (no_sector s (sym e' ∙ e))
  | inr (q, t, first, f, which) ↦ elim (Bool-cases (s.free_map_file && not written)) [
    | inl fails ↦ let (e', same) = (rw fails at which) in absurd (no_sector t (sym e' ∙ e))
    | inr fine ↦
        let (e', w) = (rw fine at which) in
        let pair : Option ℕ × FreeMap = (some q, t) in
        let equal = some_injective {A = Option ℕ × FreeMap} pair (some r, s') (sym e' ∙ e) in
        let used : Group t.free_map q cnt true = λ j l u. w.bits j ∙ ground (arith, l, u) in
        let (s'', e'', w') =
          (free_map_release-Wrote q cnt t w.wf (f ∙ file) (omega (arith, first.inside, w.size))).0
            used in
        let there : (s'' : FreeMap) × (free_map_release q cnt t ≡ some s'')
            × SameSectors s.free_map s''.free_map =
          (s'', e'', undone s.free_map t.free_map s''.free_map q cnt first.group w w') in
        subst
          (λ (p : Option ℕ × FreeMap).
            (s'' : FreeMap) × (free_map_release (or_else q p.0) cnt p.1 ≡ some s'')
            × SameSectors s.free_map s''.free_map)
          equal there
  ]
]
  where
    no_sector :
        (t : FreeMap)
        → let left : Option (Option ℕ × FreeMap) = some (none, t) in
          let right : Option (Option ℕ × FreeMap) = some (some r, s') in ¬ (left ≡ right)
    no_sector t p = cc (ap (λ o. (or_else {A = Option ℕ × FreeMap} (none, t) o).0) p)

-- Marking is setting.
mark_lem :
    (b : Bitmap) (idx : ℕ)
    → IsWf b
    → idx < b.bit_cnt
    → (b' : Bitmap) × (bitmap_mark b idx ≡ some b') × Changed b idx (λ _. true) b'
unfolding bitmap_set
mark_lem b idx wf l =
    let (b', e, c) = bitmap_set-Changed wf idx l true in
    let inside : ltb idx b.bit_cnt ≡ true = ground (arith, l) in (b', sym (rw inside) ∙ e, c)

-- On a device of at least two sectors, with memory for the bitmap, free_map_init() makes a
-- well-formed free map in which sectors 0 and 1, those of the free map and of the root directory,
-- are in use and all others are free.
pub free_map_init_lem :
    (size : ℕ) (words : List ℕ) (f : Bool)
    → IsStorage size words
    → 2 ≤ size
    → (s : FreeMap) × (free_map_init size true (some words) f ≡ some s)
      × IsWf s.free_map
      × (s.free_map.bit_cnt ≡ size)
      × ((j : ℕ) → j < size → at s.free_map j ≡ ltb j 2)
unfolding free_map_init
free_map_init_lem size words f st l =
    let (b, e, c) = (bitmap_create-IsClear size words st).0 in
    let (b1, e1, c1) = mark_lem b 0 c.wf (omega (arith, c.size)) in
    let (b2, e2, c2) = mark_lem b1 1 c1.wf (omega (arith, c.size, c1.size)) in
    (
      record { free_map = b2; free_map_file = f },
      rw e (rw e1 (rw e2)),
      c2.wf,
      c2.size ∙ c1.size ∙ c.size,
      λ j h. c2.bits j ∙ both (at b j) (at b1 j) j (c1.bits j) (c.clear j h),
    )
  where
    both :
        (x y : Bool) (j : ℕ)
        → y ≡ (if j == 0 then true else x)
        → x ≡ false
        → (if j == 1 then true else y) ≡ ltb j 2
    both x y j ey ex = ground (arith, ey, ex)
