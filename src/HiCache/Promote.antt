-- ===== src/HiCache/Promote.antt =====
-- `_promote_node`: a node's pages come back from the CPU tier. The allocation is `KVMemoryPool.allocate`
-- of miniengine/kv_memory_pool.py with the tiered cache attached.
pub mod Kept
pub mod Assigned
pub mod Refs
pub mod Fetches
pub mod Contract
use cs349d_miniengine_sk_nc.Common.{
  Bool, List, Option, [], decr, false, if◌then◌else◌, incr, is_empty, length, ltb, none, some, true,
  ℕ, ℤ, ◌-◌, ◌==◌, ◌||◌,
}
use cs349d_miniengine_sk_nc.Engine.State.{page_size}
use cs349d_miniengine_sk_nc.HiCache.{cpu_free, stands_on}
use cs349d_miniengine_sk_nc.HiCache.Demote.{Tiers, copy_kv, map_nodes, set_pages}
use cs349d_miniengine_sk_nc.HiCache.Evict.{HiSweep, evict_tiers}
use cs349d_miniengine_sk_nc.Pool.{KvMemoryPool, num_free, take_free}
use cs349d_miniengine_sk_nc.Radix.Node.{CacheTier, Children, RadixNode}

abbrev pub recounted : (ℤ → ℤ) → ℕ → RadixNode → RadixNode
recounted change i node =
    if node.id == i then record node { ref_count = change node.ref_count } else node

-- `node.ref_count += 1` and `-= 1`, for the node `i` of the tree.
unfoldable pub set_ref : (ℤ → ℤ) → ℕ → Children → Children
unfolding map_nodes
set_ref change i = map_nodes (recounted change i)

-- Whether it succeeded or the allocation raised the RuntimeError, what the eviction in it returned,
-- by how much `_cached_page_count` fell, and both tiers.
pub record Promotion {ℓ} (V : Type ℓ) : Type ℓ where
  pub done : Bool
  pub freed : ℕ
  pub lost : ℕ
  pub tiers : Tiers V

module _ {ℓ} {V : Type ℓ} where
  -- `if num_pages > len(self._free) …: self._radix_cache.evict(need)`.
  pub hi_make_room : (ℕ → ℕ) → ℕ → Tiers V → ℕ → HiSweep V
  hi_make_room addr page_size t n =
      if ltb (num_free t.pool) n
      then evict_tiers addr page_size t (n - num_free t.pool)
      else record { tiers = t; freed = 0; lost = 0; heap = [] }

  pub with_ref : (ℤ → ℤ) → ℕ → Tiers V → Tiers V
  unfolding set_ref
  with_ref change i t = record t { children = set_ref change i t.children }

  -- The end of `_promote_node`, with the GPU pages at hand.
  pub to_gpu : RadixNode → List ℕ → KvMemoryPool → Tiers V → Tiers V
  to_gpu node gpu_pages pool t = record t {
    pool = pool;
    cpu_pool = cpu_free t.cpu_pool node.pages;
    children = set_pages node.id gpu_pages CacheTier.gpu t.children;
    gpu_kv = copy_kv node.pages gpu_pages t.cpu_kv t.gpu_kv;
  }

  pub promoted : RadixNode → HiSweep V → Option (List ℕ × KvMemoryPool) → Promotion V
  promoted node s none = record {
    done = false;
    freed = s.freed;
    lost = s.lost;
    tiers = with_ref decr node.id s.tiers;
  }
  promoted node s (some (gpu_pages, pool)) = record {
    done = true;
    freed = s.freed;
    lost = s.lost;
    tiers = to_gpu node gpu_pages pool (with_ref decr node.id s.tiers);
  }

  -- The node is locked while its pages are allocated.
  unfoldable pub promote_node : (ℕ → ℕ) → ℕ → RadixNode → Tiers V → Promotion V
  unfolding hi_make_room with_ref to_gpu promoted
  promote_node addr page_size node t =
      let s = hi_make_room addr page_size (with_ref incr node.id t) (length node.pages) in
      promoted node s (take_free s.tiers.pool (length node.pages))

  -- `_ensure_gpu_pages`.
  unfoldable pub ensure_gpu_pages : (ℕ → ℕ) → ℕ → RadixNode → Tiers V → Promotion V
  ensure_gpu_pages addr page_size node t =
      if is_empty node.pages || stands_on CacheTier.gpu node
      then record { done = true; freed = 0; lost = 0; tiers = t }
      else promote_node addr page_size node t
