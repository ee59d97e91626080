-- ===== src/HiCache/Evict.antt =====
-- `HiRadixCache.evict`: unlocked nodes move to the CPU tier, least recently used first, and leave the
-- tree where that tier has no room.
pub mod Sweeps
pub mod Room
pub mod Roomy
pub mod Contract
use cs349d_miniengine_sk_nc.Common.{
  Bool, List, [], false, if◌then◌else◌, is_empty, is_pos, is_zero, length, ltb, none, not, some,
  suc, true, zero, ℕ, ◌&&◌, ◌++◌, ◌+◌, ◌-◌, ◌==◌, ◌=ₗ◌, ◌||◌, ◌∷◌,
}
use cs349d_miniengine_sk_nc.Engine.State.{page_size}
use cs349d_miniengine_sk_nc.HiCache.{HiRadixCache, stands_on}
use cs349d_miniengine_sk_nc.HiCache.Demote.{Demotion, Tiers, demote_node}
use cs349d_miniengine_sk_nc.Pool.{KvMemoryPool, free}
use cs349d_miniengine_sk_nc.Radix.Evict.{HeapItem, detach, evict, items, locate, pop_min}
use cs349d_miniengine_sk_nc.Radix.Keys.{child_key}
use cs349d_miniengine_sk_nc.Radix.Node.{CacheTier, Children, RadixNode, empty, entry, has_none}

-- `_collect_evictable_gpu_nodes`.
unfoldable pub gpu_nodes : Children → List RadixNode
unfolding stands_on
gpu_nodes empty = []
gpu_nodes (entry slot node below rest) =
    let more = gpu_nodes below ++ gpu_nodes rest in
    if is_zero node.ref_count && (not (is_empty node.pages) && stands_on CacheTier.gpu node)
    then node ∷ more
    else more

pub record HiSweep {ℓ} (V : Type ℓ) : Type ℓ where
  pub tiers : Tiers V
  pub freed : ℕ
  pub lost : ℕ
  pub heap : List HeapItem

module _ {ℓ} {V : Type ℓ} (addr : ℕ → ℕ) (page_size : ℕ) where
  -- The end of a round whose demotion failed: a leaf leaves the tree. `n` is the number of its pages.
  pub drop_gpu : ℕ → ℕ → HiSweep V → HiSweep V
  drop_gpu i n s = elim (locate i none s.tiers.children) [
    | none ↦ s
    | some place ↦
        if not (has_none place.children) || not (place.slot =ₗ child_key place.node.key page_size)
        then s
        else record s {
          tiers = record (s.tiers) {
            pool = free s.tiers.pool place.node.pages;
            children = detach i s.tiers.children;
          };
          freed = s.freed + n;
          lost = s.lost + n;
        }
  ]

  pub after_demotion : ℕ → ℕ → HiSweep V → Demotion V → HiSweep V
  after_demotion i n s d =
      if d.done
      then record s { tiers = d.tiers; freed = s.freed + n; lost = s.lost + d.lost }
      else drop_gpu i n (record s { tiers = d.tiers; lost = s.lost + d.lost })

  -- One popped node. It is still in the tree: of the nodes on the GPU tier, only a popped one leaves.
  pub visit_gpu : ℕ → HiSweep V → HiSweep V
  visit_gpu i s = elim (locate i none s.tiers.children) [
    | none ↦ s
    | some place ↦
        if is_pos place.node.ref_count
          || is_empty place.node.pages
          || not (stands_on CacheTier.gpu place.node)
        then s
        else after_demotion i (length place.node.pages) s
            (demote_node addr page_size place.node s.tiers)
  ]

  -- `while freed < n_pages_needed and heap`. A round takes an item off the heap and adds none.
  pub sweep_gpu : ℕ → ℕ → HiSweep V → HiSweep V
  sweep_gpu zero needed s = s
  sweep_gpu (suc fuel) needed s = elim (ltb s.freed needed) [
    | Bool.false ↦ s
    | Bool.true ↦ elim (pop_min s.heap) [
      | none ↦ s
      | some (it, others) ↦ sweep_gpu fuel needed (visit_gpu it.node (record s { heap = others }))
    ]
  ]

  abbrev pub start_gpu : Tiers V → HiSweep V
  start_gpu t = record {
    tiers = t;
    freed = 0;
    lost = 0;
    heap = items addr page_size (gpu_nodes t.children);
  }

  -- The loop on both tiers.
  unfoldable pub evict_tiers : Tiers V → ℕ → HiSweep V
  unfolding items drop_gpu after_demotion visit_gpu sweep_gpu
  evict_tiers t n =
      if n == 0 then start_gpu t else sweep_gpu (length (start_gpu t).heap) n (start_gpu t)

-- What the pages of both tiers hold.
pub record Planes {ℓ} (V : Type ℓ) : Type ℓ where
  pub gpu_kv : ℕ → V
  pub cpu_kv : ℕ → V

module _ {ℓ} {V : Type ℓ} where
  abbrev pub tiers_of : HiRadixCache → Planes V → KvMemoryPool → Tiers V
  tiers_of cache kv cpu_pool = record {
    pool = cache.pool;
    cpu_pool = cpu_pool;
    children = cache.base.children;
    gpu_kv = kv.gpu_kv;
    cpu_kv = kv.cpu_kv;
  }

  -- What the caller sees. The counters are kept for the whole sweep at once.
  abbrev pub hi_swept : HiRadixCache → HiSweep V → HiRadixCache × Planes V × ℕ
  hi_swept cache s = (
    record {
      base = record (cache.base) {
        children = s.tiers.children;
        cached_page_count = cache.base.cached_page_count - s.lost;
        metrics = record (cache.base.metrics) {
          total_evicted_pages = cache.base.metrics.total_evicted_pages + s.freed;
        };
      };
      pool = s.tiers.pool;
      cpu_pool = some s.tiers.cpu_pool;
    },
    record { gpu_kv = s.tiers.gpu_kv; cpu_kv = s.tiers.cpu_kv },
    s.freed,
  )

  -- `super().evict`, for a cache without the CPU tier.
  abbrev pub plain_evict : (ℕ → ℕ) → HiRadixCache → Planes V → ℕ → HiRadixCache × Planes V × ℕ
  plain_evict addr cache kv n =
      let r = evict addr cache.base cache.pool n in
      (record cache { base = r.0; pool = r.1 }, kv, r.2)

  unfoldable pub hi_evict : (ℕ → ℕ) → HiRadixCache → Planes V → ℕ → HiRadixCache × Planes V × ℕ
  hi_evict addr cache kv n = if n == 0 then (cache, kv, 0) else elim (cache.cpu_pool) [
    | none ↦ plain_evict addr cache kv n
    | some cpu_pool ↦
        hi_swept cache (evict_tiers addr cache.base.page_size (tiers_of cache kv cpu_pool) n)
  ]
