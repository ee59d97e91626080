-- ===== src/HiCache/Evict/Contract.antt =====
-- What `evict` of the tiered cache promises.
use cs349d_miniengine_sk_nc.Common.{
  ==_iff, Bool-cases, Option, [], ap, arith, count, false, inl, inr, is_empty, is_zero, length, min,
  none, refl, some, subst, sym, true, ℕ, ◌+◌, ◌==◌, ◌≡◌, ◌≤◌, ◌⊎◌,
}
use cs349d_miniengine_sk_nc.HiCache.{
  HiRadixCache, count_unlocked, hi_num_evictable_pages, stands_on, tier_pages,
}
use cs349d_miniengine_sk_nc.HiCache.Demote.{Tiers}
use cs349d_miniengine_sk_nc.HiCache.Demote.Contents.{reading}
use cs349d_miniengine_sk_nc.HiCache.Demote.CpuEvicts.{count_join}
use cs349d_miniengine_sk_nc.HiCache.Demote.Tiered.{IsExclusive, Stands, Tiered, none-Tiered}
use cs349d_miniengine_sk_nc.HiCache.Evict.{
  HiSweep, Planes, evict_tiers, gpu_nodes, hi_evict, hi_swept, plain_evict, start_gpu, tiers_of,
}
use cs349d_miniengine_sk_nc.HiCache.Evict.Room.{IsComplete, no_heap_no_page}
use cs349d_miniengine_sk_nc.HiCache.Evict.Roomy.{sweep_gpu-HasRoom}
use cs349d_miniengine_sk_nc.HiCache.Evict.Sweeps.{sweep_gpu-Keeps}
use cs349d_miniengine_sk_nc.Pool.{KvMemoryPool, num_free}
use cs349d_miniengine_sk_nc.Radix.Evict.{Place, locate}
use cs349d_miniengine_sk_nc.Radix.Evict.Heap.{heap_ids-items}
use cs349d_miniengine_sk_nc.Radix.Evict.Leaves.{node_ids}
use cs349d_miniengine_sk_nc.Radix.Evict.Places.{locate-IsFit}
use cs349d_miniengine_sk_nc.Radix.Evict.Sweeps.{has_pages, locked_nodes}
use cs349d_miniengine_sk_nc.Radix.Node.{CacheTier, Children, RadixNode, empty, entry}
use cs349d_miniengine_sk_nc.Radix.Evict.Guarded.{IsGuarded}

gpu_nodes-located :
    (i : ℕ) (up : Option RadixNode) (cs : Children) (place : Place)
    → locate i up cs ≡ some place
    → is_zero place.node.ref_count ≡ true
    → stands_on CacheTier.gpu place.node ≡ true
    → is_empty place.node.pages ≡ false
    → 1 ≤ count i (node_ids (gpu_nodes cs))
unfolding locate gpu_nodes count
gpu_nodes-located i up empty place h z on paged = cc
gpu_nodes-located i up (entry slot node below rest) place h z on paged = ground (
  arith,
  count_join i (gpu_nodes below) (gpu_nodes rest),
  gpu_nodes-located i (some node) below place,
  gpu_nodes-located i up rest place,
)

module _ {ℓ} {V : Type ℓ} (addr : ℕ → ℕ) (p : ℕ) (t : Tiers V) (v : Stands p t.children) where
  abbrev start : HiSweep V
  start = start_gpu addr p t

  start-IsComplete : IsComplete t.children start.heap
  start-IsComplete j place at z on = omega (
    arith,
    gpu_nodes-located j none t.children place at z on
        (has_pages place.node.pages (locate-IsFit p j none t.children place v.wf at).some_pages),
    ap (count j) (heap_ids-items addr p (gpu_nodes t.children)),
  )

  pub evict_tiers-Tiered :
      (n : ℕ)
      → Tiered p t (evict_tiers addr p t n).tiers (evict_tiers addr p t n).freed
        × ((n ≤ (evict_tiers addr p t n).freed) ⊎ ((evict_tiers addr p t n).heap ≡ []))
  unfolding evict_tiers
  evict_tiers-Tiered n = elim (Bool-cases (n == 0)) [
    | inl e ↦ rw e (none-Tiered p t v, inl (omega (arith, (==_iff n 0).0 e)))
    | inr e ↦
        rw e
          (sweep_gpu-Keeps addr p t (length start.heap) n start (none-Tiered p t v) (omega arith))
  ]

  evict_tiers-roomy :
      (n : ℕ)
      → count_unlocked CacheTier.gpu t.children ≤ num_free t.cpu_pool
      → min n (count_unlocked CacheTier.gpu t.children) ≤ (evict_tiers addr p t n).freed
  unfolding evict_tiers
  evict_tiers-roomy n room = elim (Bool-cases (n == 0)) [
    | inl e ↦ omega (arith, (==_iff n 0).0 e)
    | inr e ↦
        let k =
          sweep_gpu-HasRoom addr p (length start.heap) n start
            (record { stands = v; room = room; complete = start-IsComplete }) in
        let (l, done) =
          sweep_gpu-Keeps addr p t (length start.heap) n start (none-Tiered p t v) (omega arith) in
        rw e (elim done [
          | inl freed ↦ omega (arith, freed)
          | inr spent ↦
              omega (arith, l.evictable, no_heap_no_page _ _ k.stands.distinct k.complete spent)
        ])
  ]

module _ {ℓ} {V : Type ℓ} (addr : ℕ → ℕ) (cache : HiRadixCache) (kv : Planes V) (n : ℕ)
    (cpu_pool : KvMemoryPool) (tiered : cache.cpu_pool ≡ some cpu_pool)
    (v : Stands cache.base.page_size cache.base.children) where
  abbrev result : HiRadixCache × Planes V × ℕ
  result = hi_evict addr cache kv n

  abbrev begin : Tiers V
  begin = tiers_of cache kv cpu_pool

  abbrev HiEvicts : HiRadixCache × Planes V × ℕ → Type ℓ
  HiEvicts r =
      (cpu_pool' : KvMemoryPool) × (r.0.cpu_pool ≡ some cpu_pool')
      × Tiered cache.base.page_size begin (tiers_of r.0 r.1 cpu_pool') r.2

  swept_lem :
      (n == 0) ≡ false → result ≡ hi_swept cache (evict_tiers addr cache.base.page_size begin n)
  unfolding hi_evict
  swept_lem e = rw e (
      ap
        (λ o. elim o [
          | none ↦ plain_evict addr cache kv n
          | some c ↦ hi_swept cache (evict_tiers addr cache.base.page_size (tiers_of cache kv c) n)
        ])
        tiered)

  idle_lem : (n == 0) ≡ true → result ≡ (cache, kv, 0)
  unfolding hi_evict
  idle_lem e = rw e refl

  hi_evict-HiEvicts : HiEvicts result
  hi_evict-HiEvicts = elim (Bool-cases (n == 0)) [
    | inl e ↦
        subst HiEvicts (sym (idle_lem e))
          (cpu_pool, tiered, none-Tiered cache.base.page_size begin v)
    | inr e ↦
        let s = evict_tiers addr cache.base.page_size begin n in
        subst HiEvicts (sym (swept_lem e))
          (s.tiers.cpu_pool, refl, (evict_tiers-Tiered addr cache.base.page_size begin v n).0)
  ]

  -- In a tiered cache whose tree is well-formed, with distinct nodes and no negative reference count, an eviction loses no page and makes up none, on the GPU tier and on the
  -- CPU tier: each page is free in its pool or held by a node of that tier as often as before. The
  -- GPU pool gains what `evict` returns, and `num_evictable_pages` falls by as much. The locked nodes
  -- stay as they are, the tree stays as assumed, and locks still stand on whole paths if they did.
  pub hi_evict_keeps :
      (cpu_pool' : KvMemoryPool) × (result.0.cpu_pool ≡ some cpu_pool')
      × ((a : ℕ)
          → (count a result.0.pool.free_list
                + count a (tier_pages CacheTier.gpu result.0.base.children)
              ≡ count a cache.pool.free_list
                + count a (tier_pages CacheTier.gpu cache.base.children))
            × (count a cpu_pool'.free_list
                  + count a (tier_pages CacheTier.cpu result.0.base.children)
                ≡ count a cpu_pool.free_list
                  + count a (tier_pages CacheTier.cpu cache.base.children)))
      × (num_free result.0.pool ≡ num_free cache.pool + result.2)
      × (result.2 + hi_num_evictable_pages result.0 ≡ hi_num_evictable_pages cache)
      × (locked_nodes result.0.base.children ≡ locked_nodes cache.base.children)
      × Stands cache.base.page_size result.0.base.children
      × (IsGuarded cache.base.children → IsGuarded result.0.base.children)
  unfolding hi_num_evictable_pages
  hi_evict_keeps =
      let (cpu_pool', e, k) = hi_evict-HiEvicts in
      (
        cpu_pool',
        e,
        λ a. (k.gpu_pages a, k.cpu_pages a),
        k.free_pages,
        k.evictable,
        k.locked,
        k.stands,
        k.guarded,
      )

  -- Under the same conditions, and when no CPU page is both free and in use or in use twice, every
  -- node that an eviction leaves in the tree stood there before under the same key, and its pages
  -- hold what its pages held then, on whichever tier they were and are.
  pub hi_evict_reads :
      IsExclusive begin
      → (cpu_pool' : KvMemoryPool) × (result.0.cpu_pool ≡ some cpu_pool')
        × ((j : ℕ) (new : Place)
            → locate j none result.0.base.children ≡ some new
            → (old : Place) × (locate j none cache.base.children ≡ some old)
              × (new.node.key ≡ old.node.key)
              × (reading (tiers_of result.0 result.1 cpu_pool') new.node ≡ reading begin old.node))
  hi_evict_reads x =
      let (cpu_pool', e, k) = hi_evict-HiEvicts in
      (
        cpu_pool',
        e,
        λ j new at. let (old, q, same, holds) = k.left j new at in (old, q, same, holds x),
      )

  -- Under the same conditions, when the CPU pool has room for all evictable pages, an eviction frees
  -- as many pages as it is asked for, or else every page that `num_evictable_pages` counted.
  pub hi_evict_enough :
      hi_num_evictable_pages cache ≤ num_free cpu_pool
      → min n (hi_num_evictable_pages cache) ≤ result.2
  unfolding hi_num_evictable_pages
  hi_evict_enough room = elim (Bool-cases (n == 0)) [
    | inl e ↦ omega (arith, (==_iff n 0).0 e)
    | inr e ↦
        subst (λ r. min n (count_unlocked CacheTier.gpu cache.base.children) ≤ r.2)
          (sym (swept_lem e)) (evict_tiers-roomy addr cache.base.page_size begin v n room)
  ]
