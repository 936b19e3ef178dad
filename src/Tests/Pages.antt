-- ===== src/Tests/Pages.antt =====
-- The page allocator on two small pools, and at start-up with 2 MB of memory.
use tweaking_pintos.Prelude.{
  ℕ, ◌*◌, ◌≡◌, refl, true, false, ◌&&◌, [], ◌∷◌, none, some, arith, ◌⊎◌, if◌then◌else◌,
}
use tweaking_pintos.Memory.{Memory, null, inside}
use tweaking_pintos.Bitmap.{
  bitmap_scan_and_flip, flip_found, bitmap_scan, scan_from, bitmap_contains, contains_from,
  bitmap_test, in_range, next, bitmap_set_multiple, set_from, bitmap_set, bitmap_mark,
}
use tweaking_pintos.Bitmap.Search.{Group, HasNoGroup}
use tweaking_pintos.Palloc.{
  Pools, pgsize, palloc_init, take_pages, palloc_get_multiple, palloc_free_multiple, has_flag,
  pal_assert, pal_zero,
}
use tweaking_pintos.Palloc.Given.{IsPools, page, IsGiven}
use tweaking_pintos.Palloc.Init.{IsDivided, palloc_init-IsDivided}
use tweaking_pintos.Palloc.Get.{palloc_get_multiple-IsGiven}
use tweaking_pintos.Palloc.Free.{IsTaken, palloc_free_multiple-IsTaken}
use tweaking_pintos.Palloc.Held.{Held, start, get, IsSafe, held-IsSafe}

abbrev bytes : Memory
bytes a = 7

-- Three free kernel pages, and two user pages of which the first is in use.
abbrev pub pools : Pools
pools = record {
  kernel_pool = record { used_map = record { bit_cnt = 3; bits = 0 ∷ [] }; base = 4096 };
  user_pool = record { used_map = record { bit_cnt = 2; bits = 1 ∷ [] }; base = 32768 };
  memory = bytes;
}

-- The same with both user pages in use.
abbrev after : Pools
after = record pools {
  user_pool = record { used_map = record { bit_cnt = 2; bits = 3 ∷ [] }; base = 32768 };
}

pub pools-IsPools : IsPools pools
pools-IsPools = record {
  kernel = record {
    map = record { storage = refl; fits = omega arith; words = (omega arith, tt) };
    aligned = refl;
    positive = omega arith;
    inside = omega arith;
  };
  user = record {
    map = record { storage = refl; fits = omega arith; words = (omega arith, tt) };
    aligned = refl;
    positive = omega arith;
    inside = omega arith;
  };
  apart = omega arith;
}

palloc_init_example :
    (s : Pools) × (palloc_init 512 1000 (9 ∷ 9 ∷ 9 ∷ 9 ∷ []) (9 ∷ 9 ∷ 9 ∷ 9 ∷ []) bytes ≡ some s)
    × IsDivided 512 1000 s
palloc_init_example =
    palloc_init-IsDivided 512 1000 (9 ∷ 9 ∷ 9 ∷ 9 ∷ []) (9 ∷ 9 ∷ 9 ∷ 9 ∷ []) bytes (omega arith)
      (omega arith) (omega arith)
      (record {
        size = refl;
        fits = omega arith;
        small = (omega arith, (omega arith, (omega arith, (omega arith, tt))));
      })
      (record {
        size = refl;
        fits = omega arith;
        small = (omega arith, (omega arith, (omega arith, (omega arith, tt))));
      })

palloc_get_multiple_example :
    (HasNoGroup pools.user_pool.used_map 0 1 false
      × (palloc_get_multiple 6 1 pools
          ≡ (if has_flag 6 pal_assert then none else some (null, pools))))
    ⊎ ((p : ℕ) × (s' : Pools) × (palloc_get_multiple 6 1 pools ≡ some (p, s'))
        × IsGiven true 1 pools p s'
        × IsPools s'
        × ((a : ℕ)
            → s'.memory a ≡ (if has_flag 6 pal_zero && inside p (pgsize * 1) a then 0 else 7)))
palloc_get_multiple_example = palloc_get_multiple-IsGiven 6 1 pools pools-IsPools (omega arith)

palloc_free_multiple_example :
    (Group pools.user_pool.used_map 0 1 true
      → (s' : Pools) × (palloc_free_multiple (page pools.user_pool 0) 1 pools ≡ some s')
        × IsTaken true 0 1 pools s')
    × (¬ Group pools.user_pool.used_map 0 1 true
        → palloc_free_multiple (page pools.user_pool 0) 1 pools ≡ none)
palloc_free_multiple_example =
    palloc_free_multiple-IsTaken true 0 1 pools pools-IsPools (omega arith) (omega arith)

-- One user page is asked for.
one_page : palloc_get_multiple 4 1 pools ≡ some (36864, after)
unfolding palloc_get_multiple take_pages bitmap_scan_and_flip flip_found bitmap_scan scan_from
    bitmap_contains contains_from bitmap_test in_range next bitmap_set_multiple set_from bitmap_set
    bitmap_mark
one_page = refl

one_held : Held after ((36864, 1) ∷ [])
one_held = get 4 1 36864 (start pools-IsPools) (omega arith) (omega arith) one_page

held-IsSafe_example : IsSafe after ((36864, 1) ∷ [])
held-IsSafe_example = held-IsSafe after ((36864, 1) ∷ []) one_held
