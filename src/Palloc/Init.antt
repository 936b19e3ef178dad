-- ===== src/Palloc/Init.antt =====
-- How palloc_init() divides the memory.
use tweaking_pintos.Prelude.{
  ℕ, ◌+◌, ◌-◌, ◌*◌, ◌/◌, ◌%◌, ◌^◌, ◌≤◌, ◌<◌, ◌≡◌, refl, true, some, arith, if◌then◌else◌, ltb, leb,
  List,
}
use tweaking_pintos.Memory.{Memory}
use tweaking_pintos.Bitmap.{bitmap_buf_size}
use tweaking_pintos.Bitmap.Create.{IsStorage, IsClear, bitmap_create_in_buf-IsClear}
use tweaking_pintos.Palloc.{
  Pool, Pools, pgsize, init_pool, ptov, phys_base, pages_between, palloc_init,
}
use tweaking_pintos.Palloc.Given.{IsPool, IsPools}

-- The pages that the bitmap of a pool of `n` pages takes.
abbrev pub map_pages : ℕ → ℕ
map_pages n = (bitmap_buf_size n + pgsize - 1) % 2 ^ 32 / pgsize

-- A pool in the `n` pages from `start`, behind the pages of its bitmap, with no page in use.
pub record IsNew (start n : ℕ) (p : Pool) : Type 0 where
  pub pool : IsPool p
  pub base : p.base ≡ start + pgsize * map_pages n
  pub clear : IsClear (n - map_pages n) p.used_map
  pub fits : map_pages n ≤ n

init_pool-IsNew :
    (start n : ℕ) (words : List ℕ)
    → start % pgsize ≡ 0
    → 0 < start
    → 0 < n
    → start + pgsize * n < 2 ^ 32
    → IsStorage (n - map_pages n) words
    → (p : Pool) × (init_pool start n words ≡ some p) × IsNew start n p
unfolding init_pool
init_pool-IsNew start n words al ps pos l st =
    let size : bitmap_buf_size n ≡ 8 + 4 * ((n + 31) / 32) = omega arith in
    let fits : map_pages n ≤ n = omega (arith, size) in
    let enough : leb (map_pages n) n ≡ true = ground (arith, fits) in
    let room : bitmap_buf_size (n - map_pages n) ≤ map_pages n * pgsize % 2 ^ 32 =
      omega (arith, size) in
    let (b, e, c) =
      (bitmap_create_in_buf-IsClear (n - map_pages n) words (map_pages n * pgsize % 2 ^ 32) st).0
        room in
    let place : (start + map_pages n * pgsize) % 2 ^ 32 ≡ start + pgsize * map_pages n =
      omega (arith, fits) in
    (
      record { used_map = b; base = start + pgsize * map_pages n },
      rw enough (rw e (rw place)),
      record {
        pool = record {
          map = c.wf;
          aligned = omega (arith, al);
          positive = omega (arith, ps);
          inside = omega (arith, c.size, fits, l);
        };
        base = refl;
        clear = c;
        fits = fits;
      },
    )

-- The page that follows the 1 MB at which the free memory starts, as a kernel address.
abbrev pub free_start : ℕ
free_start = 3222274048

-- The pages of the user pool, with their bitmap: half of those above 1 MB, or the limit.
abbrev pub user_share : (ram limit : ℕ) → ℕ
user_share ram limit = if ltb limit ((ram - 256) / 2) then limit else (ram - 256) / 2

abbrev pub kernel_share : (ram limit : ℕ) → ℕ
kernel_share ram limit = ram - 256 - user_share ram limit

-- What palloc_init() leaves, for `ram` pages of memory.
pub record IsDivided (ram limit : ℕ) (s : Pools) : Type 0 where
  pub pools : IsPools s
  pub kernel : IsNew free_start (kernel_share ram limit) s.kernel_pool
  pub user : IsNew (free_start + pgsize * kernel_share ram limit) (user_share ram limit) s.user_pool

-- The two pools as init_pool() makes them.
palloc_init-pools :
    (ram limit : ℕ) (kw uw : List ℕ) (m : Memory) (k u : Pool)
    → 258 ≤ ram
    → ram < 2 ^ 18
    → init_pool free_start (kernel_share ram limit) kw ≡ some k
    → init_pool (free_start + pgsize * kernel_share ram limit) (user_share ram limit) uw ≡ some u
    → palloc_init ram limit kw uw m ≡ some (record { kernel_pool = k; user_pool = u; memory = m })
unfolding palloc_init ptov
palloc_init-pools ram limit kw uw m k u lo hi ek eu =
    let paddr : ram * pgsize % 2 ^ 32 ≡ ram * pgsize = omega arith in
    let low : ltb (ram * pgsize) phys_base ≡ true = ground arith in
    let top : (ram * pgsize + phys_base) % 2 ^ 32 ≡ ram * pgsize + phys_base = omega arith in
    let pages : pages_between free_start (ram * pgsize + phys_base) ≡ ram - 256 = ground arith in
    let us : user_share ram limit ≤ (ram - 256) / 2 = ground arith in
    let place : (free_start + kernel_share ram limit * pgsize) % 2 ^ 32
        ≡ free_start + pgsize * kernel_share ram limit =
      omega (arith, us) in
    rw (paddr, low, top) (rw pages (rw (ek, place) (rw eu)))

-- With at least two pages above 1 MB, less than 1 GB of memory and a limit for the user pool that is
-- not 0, palloc_init() makes two well-formed pools, the user pool above the kernel pool, in which no
-- page is in use. Each lies in its share of the pages, behind its own bitmap; the user's share is
-- half of the pages, or the limit if that is less.
pub palloc_init-IsDivided :
    (ram limit : ℕ) (kernel_words user_words : List ℕ) (m : Memory)
    → 258 ≤ ram
    → ram < 2 ^ 18
    → 0 < limit
    → IsStorage (kernel_share ram limit - map_pages (kernel_share ram limit)) kernel_words
    → IsStorage (user_share ram limit - map_pages (user_share ram limit)) user_words
    → (s : Pools) × (palloc_init ram limit kernel_words user_words m ≡ some s)
      × IsDivided ram limit s
palloc_init-IsDivided ram limit kw uw m lo hi pos stk stu =
    let us : user_share ram limit ≤ (ram - 256) / 2 = ground arith in
    let us' : 0 < user_share ram limit = ground (arith, pos) in
    let (k, ek, nk) =
      init_pool-IsNew free_start (kernel_share ram limit) kw refl (omega arith) (omega (arith, us))
        (omega (arith, us)) stk in
    let (u, eu, nu) =
      init_pool-IsNew (free_start + pgsize * kernel_share ram limit) (user_share ram limit) uw
        (omega arith) (omega arith) us' (omega (arith, us)) stu in
    (
      record { kernel_pool = k; user_pool = u; memory = m },
      palloc_init-pools ram limit kw uw m k u lo hi ek eu,
      record {
        pools = record {
          kernel = nk.pool;
          user = nu.pool;
          apart = omega (arith, nk.base, nu.base, nk.clear.size, nk.fits);
        };
        kernel = nk;
        user = nu;
      },
    )
