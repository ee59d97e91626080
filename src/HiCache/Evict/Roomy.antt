-- ===== src/HiCache/Evict/Roomy.antt =====
-- The sweep over the GPU tier while the CPU pool has room: no demotion fails.
use cs349d_miniengine_sk_nc.Common.{
  ==_iff, Bool, Bool-cases, List, Option-cases, ap, arith, count, false, inl, inr, is_empty, is_pos,
  is_zero, length, ltb, none, not, refl, some, subst, suc, sym, true, zero, ℕ, ◌+◌, ◌<◌, ◌==◌, ◌||◌,
  ◌∙◌, ◌≡◌, ◌≤◌,
}
use cs349d_miniengine_sk_nc.HiCache.{count_unlocked, stands_on}
use cs349d_miniengine_sk_nc.HiCache.Demote.{Tiers, demote_node, repaged, to_cpu, Demotion}
use cs349d_miniengine_sk_nc.HiCache.Demote.Demotes.{demote_node-Demotes, demote_node-roomy, Demotes}
use cs349d_miniengine_sk_nc.HiCache.Demote.Moves.{set_pages-survivor}
use cs349d_miniengine_sk_nc.HiCache.Demote.Tiered.{Stands, Tiered}
use cs349d_miniengine_sk_nc.HiCache.Evict.{HiSweep, after_demotion, sweep_gpu, visit_gpu}
use cs349d_miniengine_sk_nc.HiCache.Evict.Room.{IsComplete, locate-count_unlocked}
use cs349d_miniengine_sk_nc.Pool.{KvMemoryPool, num_free}
use cs349d_miniengine_sk_nc.Radix.Evict.{HeapItem, Place, locate, pop_min}
use cs349d_miniengine_sk_nc.Radix.Evict.Guarded.{locate-IsSettled}
use cs349d_miniengine_sk_nc.Radix.Evict.Heap.{count-pop_min, heap_ids}
use cs349d_miniengine_sk_nc.Radix.Evict.Leaves.{goes}
use cs349d_miniengine_sk_nc.Radix.Evict.Places.{locate-IsFit, locate_counts}
use cs349d_miniengine_sk_nc.Radix.Node.{CacheTier, RadixNode}
use cs349d_miniengine_sk_nc.Radix.Evict.Sweeps.{has_pages, zero_not_pos}

abbrev stays : Place → Bool
stays place =
    is_pos place.node.ref_count
    || is_empty place.node.pages
    || not (stands_on CacheTier.gpu place.node)

goes_if :
    (place : Place)
    → 0 < length place.node.pages
    → is_zero place.node.ref_count ≡ true
    → stands_on CacheTier.gpu place.node ≡ true
    → stays place ≡ false
goes_if place h z on = rw (zero_not_pos place.node z, has_pages place.node.pages h, on) refl

module _ {ℓ} {V : Type ℓ} (addr : ℕ → ℕ) (p : ℕ) where
  pub record HasRoom (s : HiSweep V) : Type ℓ where
    pub stands : Stands p s.tiers.children
    pub room : count_unlocked CacheTier.gpu s.tiers.children ≤ num_free s.tiers.cpu_pool
    pub complete : IsComplete s.tiers.children s.heap

  moved_only :
      (t : Tiers V) (node : RadixNode) (d : Demotion V)
      → Demotes p t node d
      → d.done ≡ true
      → Tiered p t d.tiers (length node.pages)
  moved_only t node d (inl (e, k)) h = k
  moved_only t node d (inr (e, k, there)) h = cc

  module _ (s : HiSweep V) (it : HeapItem) (others : List HeapItem) (k : HasRoom s)
      (popped : pop_min s.heap ≡ some (it, others)) where
    abbrev rest : HiSweep V
    rest = record s { heap = others }

    -- Another node's item is still on the heap.
    other_item :
        (j : ℕ) (place : Place)
        → (j == it.node) ≡ false
        → locate j none s.tiers.children ≡ some place
        → is_zero place.node.ref_count ≡ true
        → stands_on CacheTier.gpu place.node ≡ true
        → 1 ≤ count j (heap_ids others)
    other_item j place other at z on =
        ground (arith, k.complete j place at z on, count-pop_min j s.heap others it popped, other)

    -- When the popped node is not one to move, the heap is complete without it.
    rest-HasRoom :
        ((place : Place)
          → locate it.node none s.tiers.children ≡ some place
          → is_zero place.node.ref_count ≡ true
          → stands_on CacheTier.gpu place.node ≡ true
          → ⊥)
        → HasRoom rest
    rest-HasRoom h = record {
      stands = k.stands;
      room = k.room;
      complete = λ j place at z on. elim (Bool-cases (j == it.node)) [
        | inr other ↦ other_item j place other at z on
        | inl same ↦ absurd (
            h place
              (subst (λ i. locate i none s.tiers.children ≡ some place) ((==_iff j it.node).0 same)
                at)
              z on)
      ];
    }

    module _ (place : Place) (at : locate place.node.id none s.tiers.children ≡ some place)
        (named : place.node.id ≡ it.node) (unlocked : is_pos place.node.ref_count ≡ false)
        (on : stands_on CacheTier.gpu place.node ≡ true) where
      abbrev n : ℕ
      n = length place.node.pages

      z : is_zero place.node.ref_count ≡ true
      z = locate-IsSettled place.node.id none s.tiers.children place k.stands.settled at unlocked

      some_pages : 0 < n
      some_pages =
          (locate-IsFit p place.node.id none s.tiers.children place k.stands.wf at).some_pages

      fits : n ≤ num_free s.tiers.cpu_pool
      fits = omega (
        arith,
        k.room,
        locate-count_unlocked CacheTier.gpu place.node.id none s.tiers.children place at on z,
      )

      moves-HasRoom :
          (pages : List ℕ) (cpu_pool : KvMemoryPool) (t : Tiers V)
          → t ≡ to_cpu place.node pages cpu_pool s.tiers
          → num_free cpu_pool + n ≡ num_free s.tiers.cpu_pool
          → Tiered p s.tiers t n
          → HasRoom (record rest { tiers = t; freed = s.freed + n; lost = s.lost + 0 })
      unfolding to_cpu
      moves-HasRoom pages cpu_pool t e left k' = record {
        stands = k'.stands;
        room =
            omega (arith, k.room, k'.evictable, left, ap (λ (t : Tiers V). num_free t.cpu_pool) e);
        complete = λ j new found_at zero_refs on_gpu.
            let (old, q, there) =
              set_pages-survivor place.node.id pages CacheTier.cpu j s.tiers.children new
                (ap (λ (t : Tiers V). locate j none t.children) (sym e) ∙ found_at) in
            let node_there : new.node ≡ repaged place.node.id pages CacheTier.cpu old.node =
              ap (λ (z : Place). z.node) there in
            let counts = locate_counts j none s.tiers.children old q in
            elim (Bool-cases (old.node.id == place.node.id)) [
              | inl hit ↦
                  let off : stands_on CacheTier.gpu new.node ≡ false =
                    ap (stands_on CacheTier.gpu) node_there ∙ (rw hit (unfold stands_on in refl)) in
                  cc
              | inr other ↦
                  let same : new.node ≡ old.node = node_there ∙ (rw other refl) in
                  other_item j old (ground (arith, other, counts.1, named)) q
                    (ap (λ (m : RadixNode). is_zero m.ref_count) (sym same) ∙ zero_refs)
                    (ap (stands_on CacheTier.gpu) (sym same) ∙ on_gpu)
            ];
      }

      demoted-HasRoom :
          HasRoom (after_demotion addr p it.node n rest (demote_node addr p place.node s.tiers))
      unfolding after_demotion
      demoted-HasRoom =
          let (pages, cpu_pool, e, left) =
            demote_node-roomy addr p s.tiers place k.stands at unlocked on some_pages fits in
          let outcome =
            subst (Demotes p s.tiers place.node) e
              (demote_node-Demotes addr p s.tiers place k.stands at unlocked on some_pages) in
          subst (λ d. HasRoom (after_demotion addr p it.node n rest d)) (sym e)
            (moves-HasRoom pages cpu_pool (to_cpu place.node pages cpu_pool s.tiers) refl left (
              moved_only s.tiers place.node
                (record { done = true; lost = 0; tiers = to_cpu place.node pages cpu_pool s.tiers })
                outcome refl))

    pub visit_gpu-HasRoom : HasRoom (visit_gpu addr p it.node rest)
    unfolding visit_gpu
    visit_gpu-HasRoom = elim (Option-cases (locate it.node none s.tiers.children)) [
      | inl gone ↦ rw (gone, visit_gpu) (rest-HasRoom (λ place at z on. cc))
      | inr (place, at) ↦
          rw (at, visit_gpu)
            (elim (Bool-cases (stays place)) [
              | inl kept ↦ rw kept (
                  rest-HasRoom (λ other at' z on.
                    let same : other ≡ place = ground (arith, at, at') in
                    let goes =
                      goes_if place
                        (locate-IsFit p it.node none s.tiers.children place k.stands.wf
                          at).some_pages
                        (ap (λ (y : Place). is_zero y.node.ref_count) (sym same) ∙ z)
                        (ap (λ (y : Place). stands_on CacheTier.gpu y.node) (sym same) ∙ on) in
                    cc))
              | inr goes ↦
                  let named = (locate_counts it.node none s.tiers.children place at).1 in
                  let at_id : locate place.node.id none s.tiers.children ≡ some place =
                    subst (λ z. locate z none s.tiers.children ≡ some place) (sym named) at in
                  rw goes (
                    demoted-HasRoom place at_id named (ground (arith, goes)) (ground (arith, goes)))
            ])
    ]

  pub sweep_gpu-HasRoom :
      (fuel needed : ℕ) (s : HiSweep V) → HasRoom s → HasRoom (sweep_gpu addr p fuel needed s)
  unfolding sweep_gpu
  sweep_gpu-HasRoom zero needed s k = k
  sweep_gpu-HasRoom (suc fuel) needed s k = elim (Bool-cases (ltb s.freed needed)) [
    | inr enough ↦ rw (enough, sweep_gpu) k
    | inl more ↦ elim (Option-cases (pop_min s.heap)) [
      | inl e ↦ rw (more, sweep_gpu) (rw (e, sweep_gpu) k)
      | inr ((it, others), e) ↦
          rw (more, sweep_gpu)
            (rw (e, sweep_gpu)
              (sweep_gpu-HasRoom fuel needed (visit_gpu addr p it.node (record s { heap = others }))
                (visit_gpu-HasRoom s it others k e)))
    ]
  ]
