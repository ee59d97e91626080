-- ===== src/HiCache/LookupTests.antt =====
-- A lookup that brings a node back from the CPU tier, on which the theorems are applied.
use cs349d_miniengine_sk_nc.HiCache.Tests.{cpu_pages, demoted, some_planes}
use cs349d_miniengine_sk_nc.Common.{
  [], arith, count, is_pos, is_zero, none, pos, refl, some, true, ℕ, ◌∷◌, ◌≡◌, ◌≤◌, ◌=ₗ◌, ◌*◌, ◌+◌,
}
use cs349d_miniengine_sk_nc.HiCache.{HiRadixCache, stands_on}
use cs349d_miniengine_sk_nc.HiCache.Demote.{Tiers, map_nodes, set_pages}
use cs349d_miniengine_sk_nc.HiCache.Demote.Tiered.{Stands}
use cs349d_miniengine_sk_nc.HiCache.Evict.{Planes, tiers_of}
use cs349d_miniengine_sk_nc.HiCache.Match.{hi_match_prefix, match_tiers}
use cs349d_miniengine_sk_nc.HiCache.Match.Contract.{hi_match_prefix_keeps}
use cs349d_miniengine_sk_nc.HiCache.Promote.{Promotion, promote_node, ensure_gpu_pages}
use cs349d_miniengine_sk_nc.HiCache.Promote.Contract.{promote_node_lem, Ends}
use cs349d_miniengine_sk_nc.HiCache.Promote.Kept.{Kept}
use cs349d_miniengine_sk_nc.Pool.{KvMemoryPool, take_free}
use cs349d_miniengine_sk_nc.Radix.Cache.{Result, new_cache, ok}
use cs349d_miniengine_sk_nc.Radix.Evict.{Place, locate}
use cs349d_miniengine_sk_nc.Radix.Match.{MatchResult}
use cs349d_miniengine_sk_nc.Radix.Node.{CacheTier, empty, get_child, ids_of}
use cs349d_miniengine_sk_nc.Radix.Keys.{child_key, match_keys, page_align_len}
use cs349d_miniengine_sk_nc.HiCache.Match.Counts.{hi_match_prefix_counts}

-- The cache with a free GPU page for each page of its node.
abbrev roomy_cache : HiRadixCache
roomy_cache = record demoted {
  pool = record { num_pages = 4; page_size = 2; free_list = 0 ∷ 1 ∷ [] };
}

abbrev both_tiers : Tiers ℕ
both_tiers = tiers_of roomy_cache some_planes cpu_pages

abbrev demoted_place : Place
demoted_place = record {
  node = record {
    id = 1;
    key = 1 ∷ 2 ∷ 3 ∷ 4 ∷ [];
    pages = 3 ∷ 2 ∷ [];
    ref_count = pos 0;
    last_access = 4;
    tier = CacheTier.cpu;
  };
  children = empty;
  slot = 1 ∷ 2 ∷ [];
  parent = none;
}

roomy_cache-Stands : Stands 2 roomy_cache.base.children
unfolding ids_of count get_child is_pos is_zero new_cache
roomy_cache-Stands = record {
  wf = (record { aligned = refl; some_pages = omega arith; slotted = refl }, refl, tt, tt);
  distinct = λ i. ground arith;
  settled = ((λ h. refl), tt, tt);
}

demoted_there : locate 1 none both_tiers.children ≡ some demoted_place
unfolding locate new_cache
demoted_there = refl

demoted_on : stands_on CacheTier.cpu demoted_place.node ≡ true
unfolding stands_on
demoted_on = refl

abbrev promotion : Promotion ℕ
promotion = promote_node (λ i. i) 2 demoted_place.node both_tiers

promote_node_example :
    Kept 2 both_tiers promotion.tiers
    × Ends demoted_place.node promotion
    × (2 ≤ 2 → promotion.done ≡ true)
unfolding new_cache
promote_node_example =
    promote_node_lem (λ i. i) 2 both_tiers demoted_place roomy_cache-Stands demoted_there demoted_on

abbrev lookup : Result MatchResult × HiRadixCache × Planes ℕ
lookup = hi_match_prefix (λ i. i) roomy_cache some_planes 9 (1 ∷ 2 ∷ 3 ∷ 4 ∷ 9 ∷ [])

hi_match_prefix_keeps_example :
    (cpu_pool' : KvMemoryPool) × (lookup.1.cpu_pool ≡ some cpu_pool')
    × Kept 2 both_tiers (tiers_of lookup.1 lookup.2 cpu_pool')
    × (lookup.1.base.metrics.total_lookups ≡ 1)
    × (lookup.1.base.metrics.total_query_tokens ≡ 5)
unfolding new_cache
hi_match_prefix_keeps_example =
    hi_match_prefix_keeps (λ i. i) 9 roomy_cache some_planes (1 ∷ 2 ∷ 3 ∷ 4 ∷ 9 ∷ []) cpu_pages refl
      roomy_cache-Stands

abbrev both_pages : MatchResult
both_pages = record { matched_pages = 0 ∷ 1 ∷ []; matched_tokens = 4; last_node = some 1 }

-- The lookup borrows the two GPU pages to which the node came back.
borrows_both : lookup.0 ≡ ok both_pages
unfolding hi_match_prefix page_align_len new_cache match_tiers get_child ◌=ₗ◌ child_key match_keys
    locate map_nodes ensure_gpu_pages stands_on promote_node take_free set_pages
borrows_both = refl

hi_match_prefix_counts_example :
    (2 * 2 ≡ 4) × (4 ≤ 5) × (lookup.1.base.metrics.total_hit_tokens ≡ 0 + 4)
unfolding new_cache
hi_match_prefix_counts_example =
    hi_match_prefix_counts (λ i. i) 9 roomy_cache some_planes (1 ∷ 2 ∷ 3 ∷ 4 ∷ 9 ∷ []) cpu_pages
      both_pages refl (omega arith) roomy_cache-Stands borrows_both
