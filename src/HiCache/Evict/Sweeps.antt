-- ===== src/HiCache/Evict/Sweeps.antt =====
-- The sweep over the GPU tier: what every round keeps, and how the sweep ends.
use cs349d_miniengine_sk_nc.Common.{
  Bool, Bool-cases, List, Option-cases, [], ap, arith, false, if◌then◌else◌, inl, inr, is_empty,
  is_pos, length, ltb, ltb→le, none, not, refl, some, subst, suc, sym, true, zero, ℕ, ◌+◌, ◌=ₗ◌,
  ◌||◌, ◌∙◌, ◌≡◌, ◌≤◌, ◌⊎◌,
}
use cs349d_miniengine_sk_nc.HiCache.{stands_on}
use cs349d_miniengine_sk_nc.HiCache.Demote.{Demotion, Tiers, demote_node}
use cs349d_miniengine_sk_nc.HiCache.Demote.Demotes.{Demotes, demote_node-Demotes}
use cs349d_miniengine_sk_nc.HiCache.Demote.Tiered.{Tiered, then-Tiered, dropped-Tiered}
use cs349d_miniengine_sk_nc.HiCache.Evict.{HiSweep, after_demotion, drop_gpu, sweep_gpu, visit_gpu}
use cs349d_miniengine_sk_nc.Radix.Evict.{HeapItem, Place, locate, pop_min, detach}
use cs349d_miniengine_sk_nc.Radix.Evict.Heap.{length-pop_min, pop_min-none}
use cs349d_miniengine_sk_nc.Radix.Evict.Leaves.{goes}
use cs349d_miniengine_sk_nc.Radix.Evict.Places.{locate-IsFit, locate_counts}
use cs349d_miniengine_sk_nc.Radix.Evict.Sweeps.{no_items}
use cs349d_miniengine_sk_nc.Radix.Keys.{child_key}
use cs349d_miniengine_sk_nc.Radix.Node.{CacheTier, RadixNode, has_none}
use cs349d_miniengine_sk_nc.Pool.{free}

module _ {ℓ} {V : Type ℓ} (addr : ℕ → ℕ) (p : ℕ) where
  heap-drop_gpu : (i n : ℕ) (s : HiSweep V) → (drop_gpu addr p i n s).heap ≡ s.heap
  unfolding drop_gpu
  heap-drop_gpu i n s = elim (Option-cases (locate i none s.tiers.children)) [
    | inl gone ↦ rw (gone, drop_gpu) refl
    | inr (place, at) ↦ rw (at, drop_gpu) (ground arith)
  ]

  heap-after_demotion :
      (i n : ℕ) (s : HiSweep V) (d : Demotion V) → (after_demotion addr p i n s d).heap ≡ s.heap
  unfolding after_demotion
  heap-after_demotion i n s d = elim (Bool-cases d.done) [
    | inl e ↦ rw (e, after_demotion) refl
    | inr e ↦ rw (e, after_demotion) (heap-drop_gpu i n _)
  ]

  -- A round adds nothing to the heap.
  pub heap-visit_gpu : (i : ℕ) (s : HiSweep V) → (visit_gpu addr p i s).heap ≡ s.heap
  unfolding visit_gpu
  heap-visit_gpu i s = elim (Option-cases (locate i none s.tiers.children)) [
    | inl gone ↦ rw (gone, visit_gpu) refl
    | inr (place, at) ↦
        rw (at, visit_gpu)
          (either
            (is_pos place.node.ref_count
              || is_empty place.node.pages
              || not (stands_on CacheTier.gpu place.node))
            (demote_node addr p place.node s.tiers) (length place.node.pages))
  ]
    where
      either :
          (b : Bool) (d : Demotion V) (n : ℕ)
          → (if b then s else after_demotion addr p i n s d).heap ≡ s.heap
      either true d n = refl
      either false d n = heap-after_demotion i n s d

  module _ (t₀ : Tiers V) where
    abbrev pub Keeps : HiSweep V → Type ℓ
    Keeps s = Tiered p t₀ s.tiers s.freed

    abbrev dropped : HiSweep V → ℕ → Place → Tiers V
    dropped s i place = record (s.tiers) {
      pool = free s.tiers.pool place.node.pages;
      children = detach i s.tiers.children;
    }

    -- The node is still there when its demotion has failed.
    drop_gpu-Keeps :
        (i n : ℕ) (s : HiSweep V) (place : Place)
        → Keeps s
        → locate i none s.tiers.children ≡ some place
        → is_pos place.node.ref_count ≡ false
        → stands_on CacheTier.gpu place.node ≡ true
        → length place.node.pages ≡ n
        → Keeps (drop_gpu addr p i n s)
    unfolding drop_gpu
    drop_gpu-Keeps i n s place k at unlocked on e =
        rw (at, drop_gpu)
          (elim (Bool-cases
            (not (has_none place.children) || not (place.slot =ₗ child_key place.node.key p))) [
              | inl stays ↦ rw stays k
              | inr goes ↦
                  let named = (locate_counts i none s.tiers.children place at).1 in
                  let at_id : locate place.node.id none s.tiers.children ≡ some place =
                    subst (λ z. locate z none s.tiers.children ≡ some place) (sym named) at in
                  rw goes (
                    subst (λ z. Tiered p t₀ (dropped s z place) (s.freed + n)) named
                      (subst (λ m. Tiered p t₀ (dropped s place.node.id place) (s.freed + m)) e
                        (then-Tiered k (
                          dropped-Tiered p s.tiers place k.stands at_id (ground (arith, goes))
                            unlocked on))))
            ])

    after_demotion-Keeps :
        (i : ℕ) (s : HiSweep V) (node : RadixNode) (d : Demotion V)
        → Keeps s
        → node.id ≡ i
        → is_pos node.ref_count ≡ false
        → stands_on CacheTier.gpu node ≡ true
        → Demotes p s.tiers node d
        → Keeps (after_demotion addr p i (length node.pages) s d)
    unfolding after_demotion
    after_demotion-Keeps i s node d k named unlocked on (inl (done, l)) =
        rw (done, after_demotion) (then-Tiered k l)
    after_demotion-Keeps i s node d k named unlocked on (inr (failed, l, (new, at, same))) =
        rw (failed, after_demotion)
          (drop_gpu-Keeps i (length node.pages)
            (record s { tiers = d.tiers; lost = s.lost + d.lost }) new
            (subst (Tiered p t₀ d.tiers) (omega arith) (then-Tiered k l))
            (subst (λ z. locate z none d.tiers.children ≡ some new) named at)
            (ap (λ (m : RadixNode). is_pos m.ref_count) same ∙ unlocked)
            (ap (stands_on CacheTier.gpu) same ∙ on) (ap (λ (m : RadixNode). length m.pages) same))

    pub visit_gpu-Keeps : (i : ℕ) (s : HiSweep V) → Keeps s → Keeps (visit_gpu addr p i s)
    unfolding visit_gpu
    visit_gpu-Keeps i s k = elim (Option-cases (locate i none s.tiers.children)) [
      | inl gone ↦ rw (gone, visit_gpu) k
      | inr (place, at) ↦
          rw (at, visit_gpu)
            (elim (Bool-cases (
              is_pos place.node.ref_count
              || is_empty place.node.pages
              || not (stands_on CacheTier.gpu place.node))) [
                | inl kept ↦ rw kept k
                | inr goes ↦
                    let named = (locate_counts i none s.tiers.children place at).1 in
                    let at_id : locate place.node.id none s.tiers.children ≡ some place =
                      subst (λ z. locate z none s.tiers.children ≡ some place) (sym named) at in
                    let unlocked : is_pos place.node.ref_count ≡ false = ground (arith, goes) in
                    let on : stands_on CacheTier.gpu place.node ≡ true = ground (arith, goes) in
                    rw goes (
                      after_demotion-Keeps i s place.node _ k named unlocked on (
                        demote_node-Demotes addr p s.tiers place k.stands at_id unlocked on
                          (locate-IsFit p i none s.tiers.children place k.stands.wf at).some_pages))
              ])
    ]

    -- With fuel for the heap the sweep ends because enough is freed or no item is left.
    pub sweep_gpu-Keeps :
        (fuel needed : ℕ) (s : HiSweep V)
        → Keeps s
        → length s.heap ≤ fuel
        → Keeps (sweep_gpu addr p fuel needed s)
          × ((needed ≤ (sweep_gpu addr p fuel needed s).freed)
              ⊎ ((sweep_gpu addr p fuel needed s).heap ≡ []))
    unfolding sweep_gpu
    sweep_gpu-Keeps zero needed s k h = (k, inr (no_items s.heap h))
    sweep_gpu-Keeps (suc fuel) needed s k h = elim (Bool-cases (ltb s.freed needed)) [
      | inr enough ↦ rw (enough, sweep_gpu) (k, inl (ltb→le _ _ enough))
      | inl more ↦ elim (Option-cases (pop_min s.heap)) [
        | inl e ↦ rw (more, sweep_gpu) (rw (e, sweep_gpu) (k, inr (pop_min-none s.heap e)))
        | inr ((it, others), e) ↦
            let rest : HiSweep V = record s { heap = others } in
            rw (more, sweep_gpu)
              (rw (e, sweep_gpu)
                (sweep_gpu-Keeps fuel needed (visit_gpu addr p it.node rest)
                  (visit_gpu-Keeps it.node rest k)
                  (omega (
                    arith,
                    ap (λ (l : List HeapItem). length l) (heap-visit_gpu it.node rest),
                    length-pop_min s.heap others it e,
                    h,
                  ))))
      ]
    ]
