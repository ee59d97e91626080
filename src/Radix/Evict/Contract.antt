-- ===== src/Radix/Evict/Contract.antt =====
-- What `evict` promises.
use cs349d_miniengine_sk_nc.Common.{
  ℕ, ◌+◌, ◌≤◌, ◌<◌, ◌≡◌, refl, sym, ap, subst, List, [], ◌∷◌, none, Bool, true, ◌==◌, ==_iff,
  ==_self, if◌then◌else◌, count, arith, Bool-cases, Option-cases, inl, inr, ◌⊎◌, min,
}
use cs349d_miniengine_sk_nc.Pool.{KvMemoryPool, num_free}
use cs349d_miniengine_sk_nc.Radix.Node.{RadixNode, Children, pages_of, ids_of}
use cs349d_miniengine_sk_nc.Radix.WellFormed.{IsWf}
use cs349d_miniengine_sk_nc.Radix.Evict.{
  Sweep, HeapItem, locate, evictable_leaves, rounds, evict, start, swept, num_evictable_pages,
}
use cs349d_miniengine_sk_nc.Radix.Evict.Places.{AreDistinct, locate-eq-none}
use cs349d_miniengine_sk_nc.Radix.Evict.Leaves.{goes, node_ids, leaves-located, leaves_absent}
use cs349d_miniengine_sk_nc.Radix.Evict.Heap.{heap_ids, heap_ids-items}
use cs349d_miniengine_sk_nc.Radix.Lock.Counts.{LockedBy}
use cs349d_miniengine_sk_nc.Radix.Cache.{RadixCache}
use cs349d_miniengine_sk_nc.Radix.Evict.Drop.{Heaped, nobody}
use cs349d_miniengine_sk_nc.Radix.Evict.Guarded.{IsGuarded, no_leaf_no_page}
use cs349d_miniengine_sk_nc.Radix.Evict.Sweeps.{Sweeps, sweep-Sweeps, locked_nodes}

-- A cache as the engine keeps it: paged, in shape, its nodes distinct objects, locks on whole paths.
pub record IsLive (cache : RadixCache) : Type 0 where
  pub paged : 0 < cache.page_size
  pub wf : IsWf cache.page_size cache.children
  pub distinct : AreDistinct cache.children
  pub guarded : IsGuarded cache.children

-- What an eviction leaves, and what it has freed.
pub record Evicts (cache : RadixCache) (pool : KvMemoryPool) (n : ℕ)
    (r : RadixCache × KvMemoryPool × ℕ) : Type 0 where
  pub size : r.0.page_size ≡ cache.page_size
  pub wf : IsWf cache.page_size r.0.children
  pub distinct : AreDistinct r.0.children
  pub guarded : IsGuarded r.0.children
  pub pages :
      (a : ℕ)
      → count a r.1.free_list + count a (pages_of r.0.children)
        ≡ count a pool.free_list + count a (pages_of cache.children)
  pub free_pages : num_free r.1 ≡ num_free pool + r.2
  pub evictable : r.2 + num_evictable_pages r.0 ≡ num_evictable_pages cache
  pub locked : locked_nodes r.0.children ≡ locked_nodes cache.children
  pub counted : (locks : List ℕ) → LockedBy locks cache.children → LockedBy locks r.0.children
  pub fewer : (i : ℕ) → count i (ids_of r.0.children) ≤ count i (ids_of cache.children)
  pub enough : (n ≤ r.2) ⊎ (num_evictable_pages r.0 ≡ 0)

module _ (addr : ℕ → ℕ) (p : ℕ) where
  start-Heaped :
      (cs : Children) (pool : KvMemoryPool)
      → AreDistinct cs
      → Heaped nobody cs (start addr p cs pool).heap
  start-Heaped cs pool d = record {
    sound = λ j place e h. counted_goes (goes place) (
        omega (
          arith,
          h,
          ap (count j) (heap_ids-items addr p (evictable_leaves cs)),
          leaves-located j none cs place d e,
        ));
    complete = λ j place _ e go. omega (
      arith,
      ap (count j) (heap_ids-items addr p (evictable_leaves cs)),
      leaves-located j none cs place d e,
      went (goes place) go,
    );
  }
    where
      counted_goes : (b : Bool) → 1 ≤ (if b then 1 else 0) → b ≡ true
      counted_goes b h = ground arith

      went : (b : Bool) → b ≡ true → ◌≡◌ {A = ℕ} (if b then 1 else 0) 1
      went b h = ground arith

  -- An empty heap means that no evictable leaf is left.
  no_heap_no_leaf :
      (cs : Children) (heap : List HeapItem)
      → AreDistinct cs
      → Heaped nobody cs heap
      → heap ≡ []
      → (leaves : List RadixNode) → evictable_leaves cs ≡ leaves
      → leaves ≡ []
  no_heap_no_leaf cs heap d h e [] q = refl
  no_heap_no_leaf cs heap d h e (n ∷ ns) q = elim (Option-cases (locate n.id none cs)) [
    | inl gone ↦
        absurd (omega (arith, counted, leaves_absent n.id cs (locate-eq-none n.id none cs gone)))
    | inr (place, at) ↦
        let go : goes place ≡ true =
          counted_goes (goes place)
            (omega (arith, counted, leaves-located n.id none cs place d at)) in
        absurd (
          omega (
            arith,
            h.complete n.id place refl at go,
            ap (λ z. count n.id (heap_ids z)) e,
            nothing n.id,
          ))
  ]
    where
      counted_goes : (b : Bool) → 1 ≤ (if b then 1 else 0) → b ≡ true
      counted_goes b h = ground arith

      counted : 1 ≤ count n.id (node_ids (evictable_leaves cs))
      counted = rw q (unfold count in ground (arith, ==_self n.id))

      nothing : (i : ℕ) → count i [] ≡ 0
      nothing i = unfold count in refl

module _ (addr : ℕ → ℕ) (cache : RadixCache) (pool : KvMemoryPool) (v : IsLive cache) where
  none-Evicts : Evicts cache pool 0 (cache, pool, 0)
  none-Evicts = record {
    size = refl;
    wf = v.wf;
    distinct = v.distinct;
    guarded = v.guarded;
    pages = λ a. refl;
    free_pages = omega arith;
    evictable = omega arith;
    locked = refl;
    counted = λ locks h. h;
    fewer = λ i. omega arith;
    enough = inl (omega arith);
  }

  swept-Evicts :
      (n : ℕ) (s : Sweep)
      → Sweeps cache.page_size pool cache.children s
      → (n ≤ s.freed) ⊎ (s.heap ≡ [])
      → Evicts cache pool n (swept cache s)
  swept-Evicts n s k done = record {
    size = refl;
    wf = k.wf;
    distinct = k.distinct;
    guarded = k.guarded;
    pages = k.pages;
    free_pages = k.free_pages;
    evictable = unfold num_evictable_pages in k.evictable;
    locked = k.locked;
    counted = k.counted;
    fewer = k.fewer;
    enough = elim done [
      | inl freed ↦ inl freed
      | inr spent ↦ inr (
          unfold num_evictable_pages in
          no_leaf_no_page s.children k.guarded (
            no_heap_no_leaf addr cache.page_size s.children s.heap k.distinct k.heaped spent
              (evictable_leaves s.children) refl))
    ];
  }

  pub evict-Evicts : (n : ℕ) → Evicts cache pool n (evict addr cache pool n)
  unfolding evict
  evict-Evicts n = elim (Bool-cases (n == 0)) [
    | inl e ↦
        rw e
          (subst (λ z. Evicts cache pool z (cache, pool, 0)) (sym ((==_iff n 0).0 e)) none-Evicts)
    | inr e ↦
        let (k, done) =
          sweep-Sweeps addr cache.page_size pool cache.children
            (rounds addr cache.page_size (start addr cache.page_size cache.children pool)) n
            (start addr cache.page_size cache.children pool)
            (record {
              wf = v.wf;
              distinct = v.distinct;
              guarded = v.guarded;
              heaped = start-Heaped addr cache.page_size cache.children pool v.distinct;
              pages = λ a. refl;
              free_pages = omega arith;
              evictable = omega arith;
              locked = refl;
              counted = λ locks h. h;
              fewer = λ i. omega arith;
            })
            (omega arith) in
        rw e (swept-Evicts n _ k done)
  ]

-- In a live cache (well-formed, nodes distinct, locks on whole paths) an eviction frees at least what
-- is asked for, or else every page that `num_evictable_pages` counted; the count falls and the pool's
-- free pages grow by just what it freed.
pub evict_enough :
    (addr : ℕ → ℕ) (cache : RadixCache) (pool : KvMemoryPool) (n : ℕ)
    → IsLive cache
    → let r = evict addr cache pool n in
      (min n (num_evictable_pages cache) ≤ r.2)
      × (r.2 + num_evictable_pages r.0 ≡ num_evictable_pages cache)
      × (num_free r.1 ≡ num_free pool + r.2)
evict_enough addr cache pool n v =
    let k = evict-Evicts addr cache pool v n in
    (omega (arith, k.enough, k.evictable), k.evictable, k.free_pages)

-- In a live cache an eviction moves pages from the tree to the pool and loses or makes up none,
-- leaves the locked nodes as they are, and leaves the cache live.
pub evict_keeps :
    (addr : ℕ → ℕ) (cache : RadixCache) (pool : KvMemoryPool) (n : ℕ)
    → IsLive cache
    → let r = evict addr cache pool n in
      ((a : ℕ)
        → count a r.1.free_list + count a (pages_of r.0.children)
          ≡ count a pool.free_list + count a (pages_of cache.children))
      × (locked_nodes r.0.children ≡ locked_nodes cache.children)
      × IsLive r.0
evict_keeps addr cache pool n v =
    let k = evict-Evicts addr cache pool v n in
    (
      k.pages,
      k.locked,
      record {
        paged = omega (arith, k.size, v.paged);
        wf = subst (λ z. IsWf z (evict addr cache pool n).0.children) (sym k.size) k.wf;
        distinct = k.distinct;
        guarded = k.guarded;
      },
    )
