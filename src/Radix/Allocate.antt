-- ===== src/Radix/Allocate.antt =====
-- `KvMemoryPool.allocate` with the prefix cache attached, and `num_evictable`.
pub mod Exact
pub mod Locks
use cs349d_miniengine_sk_nc.Common.{ℕ, ◌-◌, List, [], Option, none, some, ltb, ◌==◌, if◌then◌else◌}
use cs349d_miniengine_sk_nc.Pool.{KvMemoryPool, num_free, take_free}
use cs349d_miniengine_sk_nc.Radix.Cache.{RadixCache, Result, ok, err, runtime_error}
use cs349d_miniengine_sk_nc.Radix.Evict.{evict, num_evictable_pages}

-- The pool and the cache that is attached to it, if there is one. The tiered cache, which the engine
-- attaches when it is given CPU memory, is not among the cases here.
pub record Memory : Type 0 where
  pub pool : KvMemoryPool
  pub cache : Option RadixCache

unfoldable pub num_evictable : Memory → ℕ
num_evictable m = elim (m.cache) [ none ↦ 0 | some cache ↦ num_evictable_pages cache ]

-- `if num_pages > len(self._free) and self._radix_cache is not None: … evict(need)`.
pub make_room : (ℕ → ℕ) → Memory → ℕ → Memory
make_room addr m n = elim (m.cache) [
  | none ↦ m
  | some cache ↦
      let r = evict addr cache m.pool (n - num_free m.pool) in
      if ltb (num_free m.pool) n then record { pool = r.1; cache = some r.0 } else m
]

-- The rest of `allocate`: what was evicted stays evicted when the pool is still too small.
pub reserve : Memory → ℕ → Result (List ℕ) × Memory
reserve m n = elim (take_free m.pool n) [
  | none ↦ (err runtime_error, m)
  | some (pages, pool) ↦ (ok pages, record m { pool = pool })
]

unfoldable pub allocate : (ℕ → ℕ) → Memory → ℕ → Result (List ℕ) × Memory
unfolding make_room reserve
allocate addr m n = if n == 0 then (ok [], m) else reserve (make_room addr m n) n
