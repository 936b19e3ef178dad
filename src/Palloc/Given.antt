-- ===== src/Palloc/Given.antt =====
-- Well-formed pools, and what it means that pages have been given out.
use tweaking_pintos.Prelude.{ℕ, ◌+◌, ◌*◌, ◌%◌, ◌^◌, ◌≤◌, ◌<◌, ◌≡◌, Bool, true, false, not, arith}
use tweaking_pintos.Bitmap.{Bitmap}
use tweaking_pintos.Bitmap.View.{IsWf}
use tweaking_pintos.Bitmap.Ranges.{Wrote}
use tweaking_pintos.Bitmap.Search.{Group}
use tweaking_pintos.Palloc.{Pool, Pools, pool_of, set_map, pgsize}

-- The pages of a pool start at a page boundary, above address 0, and end within the address space.
pub record IsPool (p : Pool) : Type 0 where
  pub map : IsWf p.used_map
  pub aligned : p.base % pgsize ≡ 0
  pub positive : 0 < p.base
  pub inside : p.base + pgsize * p.used_map.bit_cnt < 2 ^ 32

-- Both pools are well-formed, and the user pool lies above the kernel pool.
pub record IsPools (s : Pools) : Type 0 where
  pub kernel : IsPool s.kernel_pool
  pub user : IsPool s.user_pool
  pub apart : s.kernel_pool.base + pgsize * s.kernel_pool.used_map.bit_cnt ≤ s.user_pool.base

pub pool_of-IsPool : (u : Bool) (s : Pools) → IsPools s → IsPool (pool_of u s)
pool_of-IsPool true s h = h.user
pool_of-IsPool false s h = h.kernel

-- A bitmap of the same size keeps the pools well-formed.
pub set_map-IsPools :
    (u : Bool) (s : Pools) (b : Bitmap)
    → IsPools s
    → IsWf b
    → b.bit_cnt ≡ (pool_of u s).used_map.bit_cnt
    → IsPools (set_map u b s)
set_map-IsPools true s b h wf e = record {
  kernel = h.kernel;
  user = record {
    map = wf;
    aligned = h.user.aligned;
    positive = h.user.positive;
    inside = omega (arith, h.user.inside, e);
  };
  apart = h.apart;
}
set_map-IsPools false s b h wf e = record {
  kernel = record {
    map = wf;
    aligned = h.kernel.aligned;
    positive = h.kernel.positive;
    inside = omega (arith, h.kernel.inside, e);
  };
  user = h.user;
  apart = omega (arith, h.apart, e);
}

-- The page with index `i` of a pool.
abbrev pub page : Pool → (i : ℕ) → ℕ
page p i = p.base + pgsize * i

-- The `cnt` pages at `p`, free in `s`, are used in `s'`, and nothing else has changed of the pools.
pub record IsGiven (user : Bool) (cnt : ℕ) (s : Pools) (p : ℕ) (s' : Pools) : Type 0 where
  pub index : ℕ
  pub place : p ≡ page (pool_of user s) index
  pub fits : index + cnt ≤ (pool_of user s).used_map.bit_cnt
  pub free : Group (pool_of user s).used_map index cnt false
  pub used : Wrote (pool_of user s).used_map index cnt true (pool_of user s').used_map
  pub base : (pool_of user s').base ≡ (pool_of user s).base
  pub other : pool_of (not user) s' ≡ pool_of (not user) s
