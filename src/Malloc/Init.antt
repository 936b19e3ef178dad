-- ===== src/Malloc/Init.antt =====
-- The state that malloc_init() leaves.
use tweaking_pintos.Prelude.{ℕ, suc, ◌-◌, ◌≤◌, ◌≡◌, refl, subst, List, [], arith, some}
use tweaking_pintos.Palloc.{Pools}
use tweaking_pintos.Palloc.Held.{IsSafe}
use tweaking_pintos.Malloc.{Heap, init_from, malloc_init}
use tweaking_pintos.Malloc.Sizes.{table}
use tweaking_pintos.Malloc.Cover.{free_cover, count, cover}
use tweaking_pintos.Malloc.Given.{IsSound}

-- Nothing is free, and nothing is held.
abbrev pub empty : Pools → Heap
empty pools = record { free_list = λ i. []; arena_list = []; pools = pools }

pub empty-IsSound :
    (pools : Pools) (groups : List (ℕ × ℕ)) → IsSafe pools groups → IsSound (empty pools) [] groups
unfolding free_cover count cover
empty-IsSound pools groups safe = record {
  heap = record {
    headers = tt;
    blocks = λ i l. tt;
    sizes = λ i l. tt;
    out = tt;
    single = λ a. omega arith;
  };
  pools = safe;
  pages = tt;
  distinct = tt;
}

malloc_init_run :
    (n : ℕ) (pools : Pools)
    → malloc_init (suc (suc (suc (suc (suc (suc (suc (suc n)))))))) pools
      ≡ some (table, empty pools)
unfolding malloc_init init_from
malloc_init_run n pools = refl

-- On well-formed pools, whatever groups of pages are out: with at least 8 steps malloc_init() ends, does
-- not fail its assertion, sets up the seven sizes from 16 to 1024, and leaves a sound heap in which
-- nothing is free and nothing is held.
pub malloc_init-IsSound :
    (fuel : ℕ) (pools : Pools) (groups : List (ℕ × ℕ))
    → 8 ≤ fuel
    → IsSafe pools groups
    → (h : Heap) × (malloc_init fuel pools ≡ some (table, h))
      × ((a : ℕ) → free_cover 7 h.free_list a ≡ 0)
      × IsSound h [] groups
unfolding free_cover count
malloc_init-IsSound fuel pools groups enough safe =
    let eight : suc (suc (suc (suc (suc (suc (suc (suc (fuel - 8)))))))) ≡ fuel =
      omega (arith, enough) in
    (
      empty pools,
      subst (λ n. malloc_init n pools ≡ some (table, empty pools)) eight
          (malloc_init_run (fuel - 8) pools),
      λ a. refl,
      empty-IsSound pools groups safe,
    )
