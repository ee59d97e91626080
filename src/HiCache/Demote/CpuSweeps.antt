-- ===== src/HiCache/Demote/CpuSweeps.antt =====
-- `_evict_cpu_lru`: what it keeps, and that it ends.
use cs349d_miniengine_sk_nc.Common.{
  Bool-cases, List, Option-cases, arith, count, inl, inr, length, none, some, suc, true, ℕ, ◌+◌,
  ◌≡◌, ◌≤◌, ==_self, [], ap, false, if◌then◌else◌, is_pos, ltb, ltb→le, refl, subst, sym, zero, ◌<◌,
  ◌==◌, ◌∙◌, ◌⊎◌, is_empty, not, ◌=ₗ◌, ◌||◌,
}
use cs349d_miniengine_sk_nc.HiCache.{count_unlocked, stands_on, tier_pages, cpu_free}
use cs349d_miniengine_sk_nc.HiCache.Demote.{drop_cpu, sweep_cpu, visit_cpu}
use cs349d_miniengine_sk_nc.Pool.{KvMemoryPool}
use cs349d_miniengine_sk_nc.Radix.Evict.{HeapItem, Place, Sweep, locate, detach, pop_min, rounds}
use cs349d_miniengine_sk_nc.Radix.Evict.Guarded.{IsGuarded-detach, IsSettled-detach}
use cs349d_miniengine_sk_nc.Radix.Evict.Heap.{count-pop_min, length-pop_min, pop_min-none}
use cs349d_miniengine_sk_nc.Radix.Evict.Places.{
  detach-AreDistinct, detach-IsWf, locate_counts, measure-detach,
}
use cs349d_miniengine_sk_nc.Radix.Evict.Sweeps.{id_sums, locked_nodes-detach, no_items}
use cs349d_miniengine_sk_nc.Radix.Node.{
  CacheTier, Children, RadixNode, has_none, empty, entry, ids_of,
}
use mathlib.Core.Bool.{Bool}
use cs349d_miniengine_sk_nc.HiCache.Demote.Measures.{
  cpu_not_gpu, own_pages, own_unlocked, tier_none, tier_sums, unlocked_none, unlocked_sums,
}
use cs349d_miniengine_sk_nc.Pool.Laws.{count-free, num_free-free}
use cs349d_miniengine_sk_nc.Radix.Evict.Drop.{detach-has_none, survivor, detach-stays}
use cs349d_miniengine_sk_nc.Radix.Keys.{child_key}
use cs349d_miniengine_sk_nc.HiCache.Demote.CpuHeap.{
  CpuSweeps, IsLeafy, length-push, push-IsLeafy, safe,
}

module _ (addr : ℕ → ℕ) (p : ℕ) where
  module _ (pool₀ : KvMemoryPool) (cs₀ : Children) where
    abbrev Keeps : Sweep → Type 0
    Keeps = CpuSweeps p pool₀ cs₀

    module _ (s : Sweep) (it : HeapItem) (others : List HeapItem) (k : Keeps s)
        (popped : pop_min s.heap ≡ some (it, others)) where
      abbrev rest : Sweep
      rest = record s { heap = others }

      rest-Keeps : Keeps rest
      rest-Keeps = record {
        wf = k.wf;
        distinct = k.distinct;
        guarded = k.guarded;
        settled = k.settled;
        leafy = λ j place e h.
            k.leafy j place e (omega (arith, count-pop_min j s.heap others it popped, h));
        gpu_pages = k.gpu_pages;
        cpu_pages = k.cpu_pages;
        free_pages = k.free_pages;
        evictable = k.evictable;
        locked = k.locked;
        left = k.left;
        stays = k.stays;
      }

      module _ (place : Place) (at : locate it.node none s.children ≡ some place)
          (unlocked : is_pos place.node.ref_count ≡ false)
          (on_cpu : stands_on CacheTier.cpu place.node ≡ true) where
        named : it.node ≡ place.node.id
        named = sym (locate_counts it.node none s.children place at).1

        at_id : locate place.node.id none s.children ≡ some place
        at_id = subst (λ z. locate z none s.children ≡ some place) named at

        is_leaf : has_none place.children ≡ true
        is_leaf =
            k.leafy it.node place at
              (omega (arith, count-pop_min it.node s.heap others it popped, hit))
          where
            hit : ◌≡◌ {A = ℕ} (if it.node == it.node then 1 else 0) 1
            hit = rw (==_self it.node) refl

        off_gpu : stands_on CacheTier.gpu place.node ≡ false
        off_gpu = cpu_not_gpu place.node on_cpu

        -- What an additive measure loses with the node.
        loses :
            (measure : Children → ℕ) (own : RadixNode → ℕ)
            → measure empty ≡ 0
            → ((slot : List ℕ) (node : RadixNode) (below rest' : Children)
                → measure (entry slot node below rest')
                  ≡ own node + (measure below + measure rest'))
            → measure (detach place.node.id s.children) + own place.node ≡ measure s.children
        loses measure own nothing sums =
            measure-detach measure own nothing sums place.node.id none s.children place k.distinct
              at_id is_leaf

        left_over :
            (j : ℕ) (new : Place)
            → locate j none (detach place.node.id s.children) ≡ some new
            → (old : Place) × ((j == place.node.id) ≡ false)
              × (locate j none s.children ≡ some old)
              × (new ≡ record old { children = detach place.node.id old.children })
        left_over j new e = survivor place.node.id j s.children place k.distinct at_id is_leaf new e

        detach-IsLeafy : IsLeafy (detach place.node.id s.children) others
        detach-IsLeafy j new e h =
            let (old, other, q, r) = left_over j new e in
            ap (λ (z : Place). has_none z.children) r
            ∙ detach-has_none place.node.id old.children
                (k.leafy j old q (omega (arith, count-pop_min j s.heap others it popped, h)))

        drop-Keeps : Keeps (drop_cpu addr p place rest)
        unfolding drop_cpu cpu_free
        drop-Keeps = record {
          wf = detach-IsWf p place.node.id s.children k.wf;
          distinct = detach-AreDistinct place.node.id s.children k.distinct;
          guarded = λ g. IsGuarded-detach place.node.id s.children (k.guarded g);
          settled = IsSettled-detach place.node.id s.children k.settled;
          leafy =
              push-IsLeafy addr p place.parent (detach place.node.id s.children) others
                detach-IsLeafy;
          gpu_pages = λ a. omega (
            arith,
            k.gpu_pages a,
            loses (λ cs. count a (tier_pages CacheTier.gpu cs))
                (λ n. count a (own_pages CacheTier.gpu n)) (tier_none CacheTier.gpu a)
                (tier_sums CacheTier.gpu a),
            none_here a,
          );
          cpu_pages = λ a. omega (
            arith,
            k.cpu_pages a,
            loses (λ cs. count a (tier_pages CacheTier.cpu cs))
                (λ n. count a (own_pages CacheTier.cpu n)) (tier_none CacheTier.cpu a)
                (tier_sums CacheTier.cpu a),
            all_here a,
            count-free a s.pool place.node.pages,
          );
          free_pages = omega (arith, k.free_pages, num_free-free s.pool place.node.pages);
          evictable = omega (
            arith,
            k.evictable,
            loses (count_unlocked CacheTier.gpu) (own_unlocked CacheTier.gpu)
                (unlocked_none CacheTier.gpu) (unlocked_sums CacheTier.gpu),
            nothing_here,
          );
          locked =
              locked_nodes-detach place.node.id none s.children place k.distinct at_id is_leaf
                unlocked
              ∙ k.locked;
          left = λ j new e.
              let (old, other, q, r) = left_over j new e in
              let (oldest, q', r') = k.left j old q in
              (oldest, q', ap (λ (z : Place). z.node) r ∙ r');
          stays = λ j old e is_safe.
              let (new, q, r) = k.stays j old e is_safe in
              (
                record new { children = detach place.node.id new.children },
                detach-stays safe j s.children place new k.distinct at_id is_leaf unsafe q
                    (ap safe r ∙ is_safe),
                r,
              );
        }
          where
            unsafe : safe place.node ≡ false
            unsafe = rw (unlocked, off_gpu) refl

            none_here : (a : ℕ) → count a (own_pages CacheTier.gpu place.node) ≡ 0
            none_here a = rw off_gpu (unfold count in refl)

            all_here :
                (a : ℕ) → count a (own_pages CacheTier.cpu place.node) ≡ count a place.node.pages
            all_here a = rw on_cpu refl

            nothing_here : own_unlocked CacheTier.gpu place.node ≡ 0
            nothing_here = rw off_gpu refl

        drop_shrinks : rounds addr p (drop_cpu addr p place rest) < rounds addr p s
        unfolding drop_cpu
        drop_shrinks = omega (
          arith,
          length-pop_min s.heap others it popped,
          length-push addr p place.parent (detach place.node.id s.children) others,
          loses (λ cs. length (ids_of cs)) (λ n. 1) (unfold ids_of in refl) id_sums,
        )

      abbrev guards : Place → Bool
      guards place =
          is_pos place.node.ref_count
          || is_empty place.node.pages
          || not (stands_on CacheTier.cpu place.node)
          || not (place.slot =ₗ child_key place.node.key p)

      -- A popped node is dropped only when it is an unlocked one of the CPU tier.
      visit_cases :
          (visit_cpu addr p it.node rest ≡ rest)
          ⊎ ((place : Place) × (locate it.node none s.children ≡ some place)
              × (is_pos place.node.ref_count ≡ false)
              × (stands_on CacheTier.cpu place.node ≡ true)
              × (visit_cpu addr p it.node rest ≡ drop_cpu addr p place rest))
      unfolding visit_cpu
      visit_cases = elim (Option-cases (locate it.node none s.children)) [
        | inl gone ↦ inl (rw (gone, visit_cpu) refl)
        | inr (place, at) ↦ elim (Bool-cases (guards place)) [
          | inl kept ↦ inl (rw (at, visit_cpu) (rw kept refl))
          | inr dropped ↦ inr (
            place,
            at,
            ground (arith, dropped),
            ground (arith, dropped),
            rw (at, visit_cpu) (rw dropped refl),
          )
        ]
      ]

      round :
          Keeps (visit_cpu addr p it.node rest)
          × (rounds addr p (visit_cpu addr p it.node rest) < rounds addr p s)
      round = elim visit_cases [
        | inl same ↦ (
          subst Keeps (sym same) rest-Keeps,
          subst (λ z. rounds addr p z < rounds addr p s) (sym same)
              (omega (arith, length-pop_min s.heap others it popped)),
        )
        | inr (place, at, unlocked, on_cpu, same) ↦ (
          subst Keeps (sym same) (drop-Keeps place at unlocked on_cpu),
          subst (λ z. rounds addr p z < rounds addr p s) (sym same)
              (drop_shrinks place at unlocked on_cpu),
        )
      ]

    -- With fuel for the rounds the sweep ends because enough is freed or no item is left.
    pub sweep_cpu-CpuSweeps :
        (fuel needed : ℕ) (s : Sweep)
        → Keeps s
        → rounds addr p s ≤ fuel
        → Keeps (sweep_cpu addr p fuel needed s)
          × ((needed ≤ (sweep_cpu addr p fuel needed s).freed)
              ⊎ ((sweep_cpu addr p fuel needed s).heap ≡ []))
    unfolding sweep_cpu
    sweep_cpu-CpuSweeps zero needed s k h = (k, inr (no_items s.heap (omega arith)))
    sweep_cpu-CpuSweeps (suc fuel) needed s k h = elim (Bool-cases (ltb s.freed needed)) [
      | inr enough ↦ rw (enough, sweep_cpu) (k, inl (ltb→le _ _ enough))
      | inl more ↦ elim (Option-cases (pop_min s.heap)) [
        | inl e ↦ rw (more, sweep_cpu) (rw (e, sweep_cpu) (k, inr (pop_min-none s.heap e)))
        | inr ((it, others), e) ↦
            let (k', shrinks) = round s it others k e in
            rw (more, sweep_cpu)
              (rw (e, sweep_cpu) (sweep_cpu-CpuSweeps fuel needed _ k' (omega (arith, shrinks, h))))
      ]
    ]
