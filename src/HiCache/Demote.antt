-- ===== src/HiCache/Demote.antt =====
-- `_demote_node`: a node's pages move to the CPU tier, for which `_evict_cpu_lru` makes room.
pub mod Nodes
pub mod Moves
pub mod Measures
pub mod CpuHeap
pub mod CpuSweeps
pub mod CpuEvicts
pub mod Contents
pub mod Tiered
pub mod Settles
pub mod Demotes
use cs349d_miniengine_sk_nc.Common.{
  Bool, List, Option, [], false, if◌then◌else◌, is_empty, is_pos, is_zero, length, ltb, none, not,
  some, suc, true, zero, ℕ, ◌&&◌, ◌++◌, ◌+◌, ◌==◌, ◌=ₗ◌, ◌||◌, ◌∷◌,
}
use cs349d_miniengine_sk_nc.Engine.State.{page_size}
use cs349d_miniengine_sk_nc.HiCache.{cpu_allocate, cpu_free, stands_on}
use cs349d_miniengine_sk_nc.Pool.{KvMemoryPool, free}
use cs349d_miniengine_sk_nc.Radix.Evict.{
  HeapItem, Place, Sweep, detach, item, items, locate, pop_min, rounds,
}
use cs349d_miniengine_sk_nc.Radix.Keys.{child_key}
use cs349d_miniengine_sk_nc.Radix.Node.{CacheTier, Children, RadixNode, cpu, empty, entry, has_none}

-- Both tiers, with what the pages hold: `V` stands for the planes of one page in all layers.
pub record Tiers {ℓ} (V : Type ℓ) : Type ℓ where
  pub pool : KvMemoryPool
  pub cpu_pool : KvMemoryPool
  pub children : Children
  pub gpu_kv : ℕ → V
  pub cpu_kv : ℕ → V

-- What `_demote_node` answers, by how much `_cached_page_count` fell, and both tiers.
pub record Demotion {ℓ} (V : Type ℓ) : Type ℓ where
  pub done : Bool
  pub lost : ℕ
  pub tiers : Tiers V

-- `_copy_kv`, from one pool's pages into another's.
unfoldable pub copy_kv {ℓ} : {V : Type ℓ} → List ℕ → List ℕ → (ℕ → V) → (ℕ → V) → ℕ → V
copy_kv [] dst_pages src dst = dst
copy_kv (s ∷ src_pages) [] src dst = dst
copy_kv (s ∷ src_pages) (d ∷ dst_pages) src dst =
    copy_kv src_pages dst_pages src (λ q. if q == d then src s else dst q)

abbrev pub repaged : ℕ → List ℕ → CacheTier → RadixNode → RadixNode
repaged i pages tier node =
    if node.id == i then record node { pages = pages; tier = tier } else node

-- Assignments to the attributes of node objects of the tree.
unfoldable pub map_nodes : (RadixNode → RadixNode) → Children → Children
map_nodes f empty = empty
map_nodes f (entry slot node below rest) =
    entry slot (f node) (map_nodes f below) (map_nodes f rest)

-- `node.pages = pages` and `node.tier = tier`, for the node `i` of the tree.
unfoldable pub set_pages : ℕ → List ℕ → CacheTier → Children → Children
unfolding map_nodes
set_pages i pages tier = map_nodes (repaged i pages tier)

-- `_collect_evictable_leaves_for_tier`.
unfoldable pub leaves_for_tier : CacheTier → Children → List RadixNode
unfolding stands_on
leaves_for_tier tier empty = []
leaves_for_tier tier (entry slot node below rest) =
    let more = leaves_for_tier tier below ++ leaves_for_tier tier rest in
    if has_none below
      && (is_zero node.ref_count && (not (is_empty node.pages) && stands_on tier node))
    then node ∷ more
    else more

module _ (addr : ℕ → ℕ) (page_size : ℕ) where
  -- The end of a round of `_evict_cpu_lru`: the parent, when it is now a CPU leaf that may go.
  pub push_cpu_parent : Option RadixNode → Children → List HeapItem → List HeapItem
  push_cpu_parent none cs heap = heap
  push_cpu_parent (some parent) cs heap = elim (locate parent.id none cs) [
    | none ↦ heap
    | some place ↦
        if has_none place.children
          && (is_zero place.node.ref_count
              && (not (is_empty place.node.pages) && stands_on CacheTier.cpu place.node))
        then item addr page_size place.node ∷ heap
        else heap
  ]

  pub drop_cpu : Place → Sweep → Sweep
  drop_cpu place s =
      let children = detach place.node.id s.children in
      record {
        pool = cpu_free s.pool place.node.pages;
        children = children;
        freed = s.freed + length place.node.pages;
        heap = push_cpu_parent place.parent children s.heap;
      }

  pub visit_cpu : ℕ → Sweep → Sweep
  visit_cpu i s = elim (locate i none s.children) [
    | none ↦ s
    | some place ↦
        if is_pos place.node.ref_count
          || is_empty place.node.pages
          || not (stands_on CacheTier.cpu place.node)
          || not (place.slot =ₗ child_key place.node.key page_size)
        then s
        else drop_cpu place s
  ]

  -- `_evict_cpu_lru`, on the CPU pool and the tree.
  pub sweep_cpu : ℕ → ℕ → Sweep → Sweep
  sweep_cpu zero needed s = s
  sweep_cpu (suc fuel) needed s = elim (ltb s.freed needed) [
    | Bool.false ↦ s
    | Bool.true ↦ elim (pop_min s.heap) [
      | none ↦ s
      | some (it, others) ↦ sweep_cpu fuel needed (visit_cpu it.node (record s { heap = others }))
    ]
  ]

  abbrev pub start_cpu : Children → KvMemoryPool → Sweep
  start_cpu cs cpu_pool = record {
    pool = cpu_pool;
    children = cs;
    freed = 0;
    heap = items addr page_size (leaves_for_tier CacheTier.cpu cs);
  }

  unfoldable pub evict_cpu_lru : Children → KvMemoryPool → ℕ → Sweep
  unfolding items push_cpu_parent drop_cpu visit_cpu sweep_cpu
  evict_cpu_lru cs cpu_pool n =
      let begin = start_cpu cs cpu_pool in
      if n == 0 then begin else sweep_cpu (rounds addr page_size begin) n begin

module _ {ℓ} {V : Type ℓ} where
  -- The rest of `_demote_node`, when CPU pages are at hand.
  unfoldable pub to_cpu : RadixNode → List ℕ → KvMemoryPool → Tiers V → Tiers V
  to_cpu node cpu_pages cpu_pool t = record t {
    pool = free t.pool node.pages;
    cpu_pool = cpu_pool;
    children = set_pages node.id cpu_pages CacheTier.cpu t.children;
    cpu_kv = copy_kv node.pages cpu_pages t.gpu_kv t.cpu_kv;
  }

  pub attempt : RadixNode → ℕ → Tiers V → List ℕ × KvMemoryPool → Demotion V
  attempt node lost t (cpu_pages, cpu_pool) =
      if is_empty cpu_pages
      then record { done = false; lost = lost; tiers = t }
      else record { done = true; lost = lost; tiers = to_cpu node cpu_pages cpu_pool t }

  -- The second attempt, behind an eviction from the CPU tier.
  pub retry : RadixNode → Tiers V → Sweep → Demotion V
  retry node t s =
      attempt node s.freed (record t { cpu_pool = s.pool; children = s.children })
        (cpu_allocate s.pool (length node.pages))

  unfoldable pub demote_node : (ℕ → ℕ) → ℕ → RadixNode → Tiers V → Demotion V
  unfolding to_cpu attempt retry stands_on
  demote_node addr page_size node t =
      let first = cpu_allocate t.cpu_pool (length node.pages) in
      if stands_on CacheTier.cpu node
      then record { done = false; lost = 0; tiers = t }
      else if is_empty first.0
      then retry node t (evict_cpu_lru addr page_size t.children t.cpu_pool (length node.pages))
      else attempt node 0 t first
