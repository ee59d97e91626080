-- ===== src/HiCache/Demote/CpuEvicts.antt =====
-- `_evict_cpu_lru` as a whole.
use cs349d_miniengine_sk_nc.Common.{
  ==_iff, Bool, Bool-cases, List, [], ap, arith, count, count-append, if◌then◌else◌, inl, inr, none,
  refl, true, ℕ, ◌++◌, ◌+◌, ◌==◌, ◌∙◌, ◌∷◌, ◌≡◌, ◌≤◌, ◌⊎◌,
}
use cs349d_miniengine_sk_nc.HiCache.Demote.{evict_cpu_lru, leaves_for_tier, start_cpu}
use cs349d_miniengine_sk_nc.HiCache.Demote.CpuHeap.{CpuSweeps, IsLeafy}
use cs349d_miniengine_sk_nc.HiCache.Demote.CpuSweeps.{sweep_cpu-CpuSweeps}
use cs349d_miniengine_sk_nc.Pool.{KvMemoryPool}
use cs349d_miniengine_sk_nc.Radix.Evict.{evictable_leaves, items, rounds}
use cs349d_miniengine_sk_nc.Radix.Evict.Guarded.{IsSettled}
use cs349d_miniengine_sk_nc.Radix.Evict.Heap.{heap_ids-items}
use cs349d_miniengine_sk_nc.Radix.Evict.Leaves.{goes, leaves-located, node_ids}
use cs349d_miniengine_sk_nc.Radix.Evict.Places.{AreDistinct}
use cs349d_miniengine_sk_nc.Radix.Node.{CacheTier, Children, RadixNode, empty, entry, has_none}
use cs349d_miniengine_sk_nc.Radix.WellFormed.{IsWf}

node_ids_join : (xs ys : List RadixNode) → node_ids (xs ++ ys) ≡ node_ids xs ++ node_ids ys
node_ids_join [] ys = refl
node_ids_join (x ∷ xs) ys = ap (◌∷◌ x.id) (node_ids_join xs ys)

pub count_join :
    (i : ℕ) (xs ys : List RadixNode)
    → count i (node_ids (xs ++ ys)) ≡ count i (node_ids xs) + count i (node_ids ys)
count_join i xs ys = ap (count i) (node_ids_join xs ys) ∙ count-append i (node_ids xs) (node_ids ys)

-- The leaves of a tier are among the leaves.
leaves_for_tier-le :
    (tier : CacheTier) (i : ℕ) (cs : Children)
    → count i (node_ids (leaves_for_tier tier cs)) ≤ count i (node_ids (evictable_leaves cs))
unfolding leaves_for_tier evictable_leaves count
leaves_for_tier-le tier i empty = omega arith
leaves_for_tier-le tier i (entry slot node below rest) = ground (
  arith,
  count_join i (leaves_for_tier tier below) (leaves_for_tier tier rest),
  count_join i (evictable_leaves below) (evictable_leaves rest),
  leaves_for_tier-le tier i below,
  leaves_for_tier-le tier i rest,
)

module _ (addr : ℕ → ℕ) (p : ℕ) (cs : Children) (cpu_pool : KvMemoryPool) (w : IsWf p cs)
    (d : AreDistinct cs) (settled : IsSettled cs) where
  start-IsLeafy : IsLeafy cs (items addr p (leaves_for_tier CacheTier.cpu cs))
  start-IsLeafy j place e h =
      went (goes place) (has_none place.children)
        (omega (
          arith,
          h,
          ap (count j) (heap_ids-items addr p (leaves_for_tier CacheTier.cpu cs)),
          leaves_for_tier-le CacheTier.cpu j cs,
          leaves-located j none cs place d e,
        ))
        (λ q. ground (arith, q))
    where
      went : (b c : Bool) → 1 ≤ (if b then 1 else 0) → (b ≡ true → c ≡ true) → c ≡ true
      went b c h k = k (ground (arith, h))

  start-CpuSweeps : CpuSweeps p cpu_pool cs (start_cpu addr p cs cpu_pool)
  start-CpuSweeps = record {
    wf = w;
    distinct = d;
    guarded = λ g. g;
    settled = settled;
    leafy = start-IsLeafy;
    gpu_pages = λ a. refl;
    cpu_pages = λ a. refl;
    free_pages = omega arith;
    evictable = refl;
    locked = refl;
    left = λ j new e. (new, e, refl);
    stays = λ j old e is_safe. (old, e, refl);
  }

  pub evict_cpu_lru-CpuSweeps :
      (n : ℕ)
      → CpuSweeps p cpu_pool cs (evict_cpu_lru addr p cs cpu_pool n)
        × ((n ≤ (evict_cpu_lru addr p cs cpu_pool n).freed)
            ⊎ ((evict_cpu_lru addr p cs cpu_pool n).heap ≡ []))
  unfolding evict_cpu_lru
  evict_cpu_lru-CpuSweeps n = elim (Bool-cases (n == 0)) [
    | inl e ↦ rw e (start-CpuSweeps, inl (omega (arith, (==_iff n 0).0 e)))
    | inr e ↦ rw e (
        sweep_cpu-CpuSweeps addr p cpu_pool cs (rounds addr p (start_cpu addr p cs cpu_pool)) n
          (start_cpu addr p cs cpu_pool) start-CpuSweeps (omega arith))
  ]
