-- ===== src/HiCache.antt =====
-- miniengine/hicache.py: the CPU page pool, the pages of each tier and `reset`. The CPU pool keeps the
-- same free list as the GPU pool and has its type. Eviction into the CPU tier is in Evict.antt.
pub mod Resets
pub mod Demote
pub mod Evict
pub mod Promote
pub mod Match
mod Tests
mod LookupTests
use cs349d_miniengine_sk_nc.Common.{
  ℕ, ◌+◌, List, [], ◌++◌, Option, none, some, Bool, true, false, ◌==◌, ltb, if◌then◌else◌, is_empty,
  is_zero, length,
}
use cs349d_miniengine_sk_nc.Pool.{KvMemoryPool, num_free, free, pop_pages}
use cs349d_miniengine_sk_nc.Radix.Node.{RadixNode, Children, CacheTier, empty, entry}
use cs349d_miniengine_sk_nc.Radix.Cache.{RadixCache}

-- `CPUKVPool.allocate`: all of the pages or none.
unfoldable pub cpu_allocate : KvMemoryPool → ℕ → List ℕ × KvMemoryPool
cpu_allocate pool n =
    if n == 0
    then ([], pool)
    else if ltb (num_free pool) n
    then ([], pool)
    else (let (taken, left) = pop_pages n pool.free_list in
        (taken, record pool { free_list = left }))

-- `CPUKVPool.free`.
unfoldable pub cpu_free : KvMemoryPool → List ℕ → KvMemoryPool
cpu_free = free

-- The cache with its pools; without a CPU pool the second tier is off.
pub record HiRadixCache : Type 0 where
  pub base : RadixCache
  pub pool : KvMemoryPool
  pub cpu_pool : Option KvMemoryPool

-- A node with pages on this tier.
unfoldable pub stands_on : CacheTier → RadixNode → Bool
stands_on CacheTier.gpu node = elim (node.tier) [ CacheTier.gpu ↦ true | CacheTier.cpu ↦ false ]
stands_on CacheTier.cpu node = elim (node.tier) [ CacheTier.gpu ↦ false | CacheTier.cpu ↦ true ]

-- The walk of `reset`, for the pages of one tier.
unfoldable pub tier_pages : CacheTier → Children → List ℕ
unfolding stands_on
tier_pages tier empty = []
tier_pages tier (entry slot node below rest) =
    (if stands_on tier node then node.pages else [])
    ++ (tier_pages tier below ++ tier_pages tier rest)

-- `_count_pages(self.root, locked=False, tier=tier)`.
unfoldable pub count_unlocked : CacheTier → Children → ℕ
unfolding stands_on
count_unlocked tier empty = 0
count_unlocked tier (entry slot node below rest) =
    (if stands_on tier node then (if is_zero node.ref_count then length node.pages else 0) else 0)
    + (count_unlocked tier below + count_unlocked tier rest)

unfoldable pub hi_num_evictable_pages : HiRadixCache → ℕ
unfolding count_unlocked
hi_num_evictable_pages cache = count_unlocked CacheTier.gpu cache.base.children

abbrev pub freed_unless_empty : KvMemoryPool → List ℕ → KvMemoryPool
freed_unless_empty pool pages = if is_empty pages then pool else free pool pages

-- `reset`, with the clock's reading in the new root.
unfoldable pub hi_reset : HiRadixCache → ℕ → HiRadixCache
unfolding tier_pages cpu_free
hi_reset cache now = record {
  base = record (cache.base) { root_access = now; children = empty; cached_page_count = 0 };
  pool = freed_unless_empty cache.pool (tier_pages CacheTier.gpu cache.base.children);
  cpu_pool = elim (cache.cpu_pool) [
    | none ↦ none
    | some cpu_pool ↦
        some (freed_unless_empty cpu_pool (tier_pages CacheTier.cpu cache.base.children))
  ];
}
