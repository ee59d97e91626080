-- ===== src/Radix/Cache.antt =====
-- The cache object, its counters and the errors that its callers see.
use cs349d_miniengine_sk_nc.Common.{ℕ}
use cs349d_miniengine_sk_nc.Pool.{KvMemoryPool, free}
use cs349d_miniengine_sk_nc.Radix.Node.{Children, empty, pages_of}

pub data Error : Type 0 where
  value_error runtime_error index_error assertion_error : Error

pub data Result {ℓ} (A : Type ℓ) : Type ℓ where
  ok : A → Result A
  err : Error → Result A

pub record CacheMetrics : Type 0 where
  pub total_lookups : ℕ
  pub total_query_tokens : ℕ
  pub total_hit_tokens : ℕ
  pub total_inserted_pages : ℕ
  pub total_evicted_pages : ℕ

-- The root holds no key and no pages and is never locked: of its node only the time of the last
-- access and the children are kept. Its identity is `root_id`; `next_id` names the next node.
pub record RadixCache : Type 0 where
  pub page_size : ℕ
  pub root_access : ℕ
  pub children : Children
  pub metrics : CacheMetrics
  pub cached_page_count : ℕ
  pub next_id : ℕ

abbrev pub root_id : ℕ
root_id = 0

unfoldable pub new_cache : ℕ → ℕ → RadixCache
new_cache page_size now = record {
  page_size = page_size;
  root_access = now;
  children = empty;
  metrics = record {
    total_lookups = 0;
    total_query_tokens = 0;
    total_hit_tokens = 0;
    total_inserted_pages = 0;
    total_evicted_pages = 0;
  };
  cached_page_count = 0;
  next_id = 1;
}

-- `reset`: every page goes back to the pool and the tree starts anew.
pub reset : RadixCache → KvMemoryPool → ℕ → RadixCache × KvMemoryPool
reset cache pool now = (
  record cache { root_access = now; children = empty; cached_page_count = 0 },
  free pool (pages_of cache.children),
)
