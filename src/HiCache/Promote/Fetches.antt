-- ===== src/HiCache/Promote/Fetches.antt =====
-- A node of the CPU tier comes back to the GPU tier: what that keeps.
use mathlib.Core.Option
use cs349d_miniengine_sk_nc.Common.{
  ==_iff, ==_self, Bool-cases, List, [], ap, arith, count, false, if◌then◌else◌, inl, inr, length,
  none, refl, some, subst, sym, true, ℕ, ◌+◌, ◌==◌, ◌∙◌, ◌≡◌,
}
use cs349d_miniengine_sk_nc.HiCache.{cpu_free, stands_on, tier_pages}
use cs349d_miniengine_sk_nc.HiCache.Demote.{Tiers, repaged, set_pages}
use cs349d_miniengine_sk_nc.HiCache.Demote.Contents.{
  copy_kv-apart, copy_kv-hit, locate-tier_pages, reading,
}
use cs349d_miniengine_sk_nc.HiCache.Demote.Measures.{cpu_not_gpu, own_pages, tier_cases, tier_sums}
use cs349d_miniengine_sk_nc.HiCache.Demote.Moves.{
  IsSettled-set_pages, ids_of-set_pages, locate-set_pages, measure-set_pages, place_repaged,
  repaged_keeps, set_pages-IsWf, set_pages-survivor,
}
use cs349d_miniengine_sk_nc.HiCache.Demote.Tiered.{Stands}
use cs349d_miniengine_sk_nc.HiCache.Promote.{to_gpu}
use cs349d_miniengine_sk_nc.HiCache.Promote.Kept.{IsExact, Kept}
use cs349d_miniengine_sk_nc.Pool.{KvMemoryPool}
use cs349d_miniengine_sk_nc.Pool.Laws.{Pops, count-free}
use cs349d_miniengine_sk_nc.Radix.Evict.{Place, locate}
use cs349d_miniengine_sk_nc.Radix.Evict.Places.{locate_counts}
use cs349d_miniengine_sk_nc.Radix.Node.{CacheTier, Children, RadixNode}

module _ {ℓ} {V : Type ℓ} (p : ℕ) (t : Tiers V) (place : Place) (gpu_pages : List ℕ)
    (pool : KvMemoryPool) (v : Stands p t.children)
    (at : locate place.node.id none t.children ≡ some place)
    (on : stands_on CacheTier.cpu place.node ≡ true)
    (taken : Pops (length place.node.pages) t.pool.free_list gpu_pages pool.free_list) where
  abbrev i : ℕ
  i = place.node.id

  abbrev moved : RadixNode
  moved = record (place.node) { pages = gpu_pages; tier = CacheTier.gpu }

  abbrev after : Children
  after = set_pages i gpu_pages CacheTier.gpu t.children

  abbrev fetched : Tiers V
  fetched = to_gpu place.node gpu_pages pool t

  off_gpu : stands_on CacheTier.gpu place.node ≡ false
  off_gpu = cpu_not_gpu place.node on

  moved_gpu : stands_on CacheTier.gpu moved ≡ true
  moved_gpu = unfold stands_on in refl

  moved_cpu : stands_on CacheTier.cpu moved ≡ false
  moved_cpu = unfold stands_on in refl

  gains :
      (tier : CacheTier) (a : ℕ)
      → count a (tier_pages tier after) + count a (own_pages tier place.node)
        ≡ count a (tier_pages tier t.children) + count a (own_pages tier moved)
  gains tier a =
      measure-set_pages i gpu_pages CacheTier.gpu (λ cs. count a (tier_pages tier cs))
        (λ n. count a (own_pages tier n)) (tier_sums tier a) none t.children place v.distinct at

  given : repaged i gpu_pages CacheTier.gpu place.node ≡ moved
  given = rw (==_self i) refl

  reading-moved : IsExact t → reading fetched moved ≡ reading t place.node
  unfolding to_gpu
  reading-moved x =
      rw (moved_cpu, on)
        (copy_kv-hit place.node.pages gpu_pages t.cpu_kv t.gpu_kv (sym taken.amount)
          (λ a. omega (arith, taken.same a, x.1 a)))

  reading_others :
      (j : ℕ) (old : Place)
      → locate j none t.children ≡ some old
      → IsExact t
      → reading fetched old.node ≡ reading t old.node
  unfolding to_gpu
  reading_others j old e x = elim (tier_cases old.node) [
    | inr (off, on_cpu) ↦ rw on_cpu refl
    | inl (on_gpu, off_cpu) ↦ rw off_cpu (
        copy_kv-apart place.node.pages gpu_pages t.cpu_kv t.gpu_kv old.node.pages (λ a. omega (
          arith,
          taken.same a,
          x.1 a,
          locate-tier_pages CacheTier.gpu j none t.children old e on_gpu a,
        )))
  ]

  same_place :
      (old : Place) (j : ℕ)
      → locate j none t.children ≡ some old
      → (old.node.id == i) ≡ true
      → old ≡ place
  same_place old j q hit =
      let named : j ≡ i =
        sym (locate_counts j none t.children old q).1 ∙ (==_iff old.node.id i).0 hit in
      let again : locate j none t.children ≡ some place =
        subst (λ z. locate z none t.children ≡ some place) (sym named) at in
      ground (arith, q, again)

  to_gpu_left :
      (j : ℕ) (new : Place)
      → locate j none after ≡ some new
      → (old : Place) × (locate j none t.children ≡ some old)
        × (new.node.key ≡ old.node.key)
        × (IsExact t → reading fetched new.node ≡ reading t old.node)
  to_gpu_left j new e =
      let (old, q, there) = set_pages-survivor i gpu_pages CacheTier.gpu j t.children new e in
      let node_there : new.node ≡ repaged i gpu_pages CacheTier.gpu old.node =
        ap (λ (z : Place). z.node) there in
      (
        old,
        q,
        ap (λ (n : RadixNode). n.key) node_there
            ∙ (repaged_keeps i gpu_pages CacheTier.gpu old.node).1,
        λ x. ap (reading fetched) node_there ∙ elim (Bool-cases (old.node.id == i)) [
          | inr other ↦
              let untouched : repaged i gpu_pages CacheTier.gpu old.node ≡ old.node =
                rw other refl in
              ap (reading fetched) untouched ∙ reading_others j old q x
          | inl hit ↦
              let twice : old ≡ place = same_place old j q hit in
              ap (λ (z : Place). reading fetched (repaged i gpu_pages CacheTier.gpu z.node)) twice
              ∙ (ap (reading fetched) given
                  ∙ (reading-moved x ∙ ap (λ (z : Place). reading t z.node) (sym twice)))
        ],
      )

  -- Where the node stands afterwards.
  pub to_gpu_there : locate i none after ≡ some (place_repaged i gpu_pages CacheTier.gpu place)
  to_gpu_there =
      locate-set_pages i gpu_pages CacheTier.gpu i t.children
      ∙ ap (Option.map (place_repaged i gpu_pages CacheTier.gpu)) at

  pub to_gpu-Kept : Kept p t fetched
  unfolding to_gpu cpu_free
  to_gpu-Kept = record {
    stands = record {
      wf =
          set_pages-IsWf i gpu_pages CacheTier.gpu p none t.children place v.distinct at
            taken.amount v.wf;
      distinct = λ j. omega (
        arith,
        v.distinct j,
        ap (count j) (ids_of-set_pages i gpu_pages CacheTier.gpu t.children),
      );
      settled = IsSettled-set_pages i gpu_pages CacheTier.gpu t.children v.settled;
    };
    gpu_pages = λ a. omega (
      arith,
      gains CacheTier.gpu a,
      none_before a,
      ap (λ b. count a (if b then gpu_pages else [])) moved_gpu,
      taken.same a,
    );
    cpu_pages = λ a. omega (
      arith,
      gains CacheTier.cpu a,
      none_now a,
      ap (λ b. count a (if b then place.node.pages else [])) on,
      count-free a t.cpu_pool place.node.pages,
    );
    left = to_gpu_left;
  }
    where
      none_before : (a : ℕ) → count a (own_pages CacheTier.gpu place.node) ≡ 0
      none_before a = rw off_gpu (unfold count in refl)

      none_now : (a : ℕ) → count a (own_pages CacheTier.cpu moved) ≡ 0
      none_now a = rw moved_cpu (unfold count in refl)
