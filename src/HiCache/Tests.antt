-- ===== src/HiCache/Tests.antt =====
-- A cache with a node on the CPU tier, on which the theorems are applied.
use cs349d_miniengine_sk_nc.Common.{
  ◌+◌, ◌≡◌, refl, [], ◌∷◌, some, count, pos, arith, is_pos, is_zero, min, none, ℕ, ◌≤◌, List, ◌=ₗ◌,
}
use cs349d_miniengine_sk_nc.Pool.{KvMemoryPool, num_free, free}
use cs349d_miniengine_sk_nc.Radix.Node.{CacheTier, empty, entry, get_child, ids_of, RadixNode}
use cs349d_miniengine_sk_nc.Radix.Cache.{new_cache}
use cs349d_miniengine_sk_nc.HiCache.{
  HiRadixCache, tier_pages, hi_reset, hi_num_evictable_pages, cpu_allocate, stands_on,
}
use cs349d_miniengine_sk_nc.HiCache.Resets.{hi_reset_keeps, listed_on, nodes_of}
use cs349d_miniengine_sk_nc.HiCache.Demote.Contents.{reading}
use cs349d_miniengine_sk_nc.HiCache.Demote.Tiered.{IsExclusive, Stands}
use cs349d_miniengine_sk_nc.HiCache.Evict.{Planes, hi_evict, tiers_of, evict_tiers, gpu_nodes}
use cs349d_miniengine_sk_nc.HiCache.Evict.Contract.{hi_evict_enough, hi_evict_keeps, hi_evict_reads}
use cs349d_miniengine_sk_nc.Radix.Evict.{Place, locate, detach, pop_min}
use cs349d_miniengine_sk_nc.Radix.Evict.Guarded.{IsGuarded}
use cs349d_miniengine_sk_nc.Radix.Evict.Sweeps.{locked_nodes}
use cs349d_miniengine_sk_nc.HiCache.Demote.{demote_node, evict_cpu_lru, leaves_for_tier}
use cs349d_miniengine_sk_nc.Radix.Keys.{child_key}

abbrev pub cpu_pages : KvMemoryPool
cpu_pages = record { num_pages = 4; page_size = 2; free_list = 1 ∷ [] }

abbrev pub demoted : HiRadixCache
demoted = record {
  base = record (new_cache 2 0) {
    children =
        entry (1 ∷ 2 ∷ [])
          (record {
            id = 1;
            key = 1 ∷ 2 ∷ 3 ∷ 4 ∷ [];
            pages = 3 ∷ 2 ∷ [];
            ref_count = pos 0;
            last_access = 4;
            tier = CacheTier.cpu;
          })
          empty empty;
    next_id = 2;
  };
  pool = record { num_pages = 4; page_size = 2; free_list = 0 ∷ [] };
  cpu_pool = some cpu_pages;
}

hi_reset_keeps_example :
    let r = hi_reset demoted 9 in
    let nodes = nodes_of demoted.base.children in
    (cpu_pool' : KvMemoryPool) × (r.cpu_pool ≡ some cpu_pool')
    × (count 3 r.pool.free_list ≡ listed_on CacheTier.gpu 3 nodes + count 3 (0 ∷ []))
    × (count 3 cpu_pool'.free_list ≡ listed_on CacheTier.cpu 3 nodes + count 3 (1 ∷ []))
    × (nodes_of r.base.children ≡ [])
    × (r.base.cached_page_count ≡ 0)
    × (hi_num_evictable_pages r ≡ 0)
hi_reset_keeps_example = hi_reset_keeps demoted 9 3 cpu_pages refl

-- A locked node with an unlocked one below it, both on the GPU tier, and room for one more CPU page.
abbrev two_nodes : HiRadixCache
two_nodes = record {
  base = record (new_cache 2 0) {
    children =
        entry (1 ∷ 2 ∷ [])
          (record {
            id = 1;
            key = 1 ∷ 2 ∷ 3 ∷ 4 ∷ [];
            pages = 3 ∷ 2 ∷ [];
            ref_count = pos 1;
            last_access = 4;
            tier = CacheTier.gpu;
          })
          (entry (5 ∷ 6 ∷ [])
            (record {
              id = 2;
              key = 5 ∷ 6 ∷ [];
              pages = 1 ∷ [];
              ref_count = pos 0;
              last_access = 3;
              tier = CacheTier.gpu;
            })
            empty empty)
          empty;
    next_id = 3;
  };
  pool = record { num_pages = 4; page_size = 2; free_list = 0 ∷ [] };
  cpu_pool = some cpu_pages;
}

abbrev pub some_planes : Planes ℕ
some_planes = record { gpu_kv = λ q. q + 10; cpu_kv = λ q. q + 100 }

two_nodes-Stands : Stands 2 two_nodes.base.children
unfolding ids_of count get_child is_pos is_zero new_cache
two_nodes-Stands = record {
  wf = (
    record { aligned = refl; some_pages = omega arith; slotted = refl },
    refl,
    (record { aligned = refl; some_pages = omega arith; slotted = refl }, refl, tt, tt),
    tt,
  );
  distinct = λ i. ground arith;
  settled = ((λ h. cc), ((λ h. refl), tt, tt), tt);
}

abbrev evicted : HiRadixCache × Planes ℕ × ℕ
evicted = hi_evict (λ i. i) two_nodes some_planes 1

hi_evict_keeps_example :
    (cpu_pool' : KvMemoryPool) × (evicted.0.cpu_pool ≡ some cpu_pool')
    × ((a : ℕ)
        → (count a evicted.0.pool.free_list
              + count a (tier_pages CacheTier.gpu evicted.0.base.children)
            ≡ count a two_nodes.pool.free_list
              + count a (tier_pages CacheTier.gpu two_nodes.base.children))
          × (count a cpu_pool'.free_list
                + count a (tier_pages CacheTier.cpu evicted.0.base.children)
              ≡ count a cpu_pages.free_list
                + count a (tier_pages CacheTier.cpu two_nodes.base.children)))
    × (num_free evicted.0.pool ≡ num_free two_nodes.pool + evicted.2)
    × (evicted.2 + hi_num_evictable_pages evicted.0 ≡ hi_num_evictable_pages two_nodes)
    × (locked_nodes evicted.0.base.children ≡ locked_nodes two_nodes.base.children)
    × Stands 2 evicted.0.base.children
    × (IsGuarded two_nodes.base.children → IsGuarded evicted.0.base.children)
unfolding new_cache
hi_evict_keeps_example =
    hi_evict_keeps (λ i. i) two_nodes some_planes 1 cpu_pages refl two_nodes-Stands

no_page_twice : IsExclusive (tiers_of two_nodes some_planes cpu_pages)
unfolding count tier_pages new_cache
no_page_twice a = ground arith

hi_evict_reads_example :
    (cpu_pool' : KvMemoryPool) × (evicted.0.cpu_pool ≡ some cpu_pool')
    × ((j : ℕ) (new : Place)
        → locate j none evicted.0.base.children ≡ some new
        → (old : Place) × (locate j none two_nodes.base.children ≡ some old)
          × (new.node.key ≡ old.node.key)
          × (reading (tiers_of evicted.0 evicted.1 cpu_pool') new.node
              ≡ reading (tiers_of two_nodes some_planes cpu_pages) old.node))
unfolding new_cache
hi_evict_reads_example =
    hi_evict_reads (λ i. i) two_nodes some_planes 1 cpu_pages refl two_nodes-Stands no_page_twice

room_for_one : hi_num_evictable_pages two_nodes ≤ num_free cpu_pages
unfolding hi_num_evictable_pages new_cache is_zero
room_for_one = omega arith

hi_evict_enough_example : min 1 (hi_num_evictable_pages two_nodes) ≤ evicted.2
unfolding new_cache
hi_evict_enough_example =
    hi_evict_enough (λ i. i) two_nodes some_planes 1 cpu_pages refl two_nodes-Stands room_for_one

-- A parent and its child of the same age, for which the CPU pool is too small: the parent is popped
-- first and skipped, and only the child goes.
abbrev node_of_two : ℕ → List ℕ → List ℕ → RadixNode
node_of_two i key pages = record {
  id = i;
  key = key;
  pages = pages;
  ref_count = pos 0;
  last_access = 4;
  tier = CacheTier.gpu;
}

abbrev same_age : HiRadixCache
same_age = record two_nodes {
  base = record (new_cache 2 0) {
    children =
        entry (1 ∷ 2 ∷ []) (node_of_two 1 (1 ∷ 2 ∷ 3 ∷ 4 ∷ []) (3 ∷ 2 ∷ []))
          (entry (5 ∷ 6 ∷ []) (node_of_two 2 (5 ∷ 6 ∷ 7 ∷ 8 ∷ []) (1 ∷ 4 ∷ [])) empty empty) empty;
    next_id = 3;
  };
}

frees_two_of_four :
    ((hi_evict (λ i. i) same_age some_planes 4).2 ≡ 2) × (hi_num_evictable_pages same_age ≡ 4)
unfolding hi_evict hi_num_evictable_pages new_cache evict_tiers gpu_nodes pop_min locate demote_node
    cpu_allocate evict_cpu_lru leaves_for_tier is_zero is_pos stands_on child_key ◌=ₗ◌ free detach
    ids_of
frees_two_of_four = (refl, refl)
