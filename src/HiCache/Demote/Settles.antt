-- ===== src/HiCache/Demote/Settles.antt =====
-- A node of the GPU tier moves to the CPU tier: what that keeps.
use mathlib.Core.Option
use cs349d_miniengine_sk_nc.Common.{
  ==_iff, ==_self, Bool-cases, List, [], ap, arith, count, false, if◌then◌else◌, inl, inr, is_pos,
  is_zero, length, none, refl, some, subst, sym, true, ℕ, ◌+◌, ◌==◌, ◌∙◌, ◌≡◌,
}
use cs349d_miniengine_sk_nc.HiCache.{count_unlocked, stands_on, tier_pages}
use cs349d_miniengine_sk_nc.HiCache.Demote.{Tiers, repaged, set_pages, to_cpu}
use cs349d_miniengine_sk_nc.HiCache.Demote.Contents.{
  copy_kv-apart, copy_kv-hit, locate-tier_pages, reading,
}
use cs349d_miniengine_sk_nc.HiCache.Demote.Measures.{
  gpu_not_cpu, own_pages, own_unlocked, tier_cases, tier_sums, unlocked_sums,
}
use cs349d_miniengine_sk_nc.HiCache.Demote.Moves.{
  IsGuarded-set_pages, IsSettled-set_pages, ids_of-set_pages, locked_nodes-set_pages,
  measure-set_pages, repaged_keeps, set_pages-IsWf, set_pages-survivor, locate-set_pages,
  place_repaged,
}
use cs349d_miniengine_sk_nc.HiCache.Demote.Tiered.{IsExclusive, Stands, Tiered}
use cs349d_miniengine_sk_nc.Pool.{KvMemoryPool}
use cs349d_miniengine_sk_nc.Pool.Laws.{Pops, count-free, num_free-free}
use cs349d_miniengine_sk_nc.Radix.Evict.{Place, locate}
use cs349d_miniengine_sk_nc.Radix.Evict.Guarded.{locate-IsSettled}
use cs349d_miniengine_sk_nc.Radix.Evict.Places.{locate_counts}
use cs349d_miniengine_sk_nc.Radix.Node.{CacheTier, Children, RadixNode, entry}

module _ {ℓ} {V : Type ℓ} (p : ℕ) (t : Tiers V) (place : Place) (cpu_pages : List ℕ)
    (cpu_pool : KvMemoryPool) (v : Stands p t.children)
    (at : locate place.node.id none t.children ≡ some place)
    (unlocked : is_pos place.node.ref_count ≡ false)
    (on : stands_on CacheTier.gpu place.node ≡ true)
    (taken : Pops (length place.node.pages) t.cpu_pool.free_list cpu_pages cpu_pool.free_list) where
  abbrev i : ℕ
  i = place.node.id

  abbrev moved : RadixNode
  moved = record (place.node) { pages = cpu_pages; tier = CacheTier.cpu }

  abbrev after : Children
  after = set_pages i cpu_pages CacheTier.cpu t.children

  zero_refs : is_zero place.node.ref_count ≡ true
  zero_refs = locate-IsSettled i none t.children place v.settled at unlocked

  gains :
      (measure : Children → ℕ) (own : RadixNode → ℕ)
      → ((slot : List ℕ) (node : RadixNode) (below rest : Children)
          → measure (entry slot node below rest) ≡ own node + (measure below + measure rest))
      → measure after + own place.node ≡ measure t.children + own moved
  gains measure own sums =
      measure-set_pages i cpu_pages CacheTier.cpu measure own sums none t.children place v.distinct
        at

  before_gpu : (a : ℕ) → count a (own_pages CacheTier.gpu place.node) ≡ count a place.node.pages
  before_gpu a = rw on refl

  before_cpu : (a : ℕ) → count a (own_pages CacheTier.cpu place.node) ≡ 0
  before_cpu a = rw (gpu_not_cpu place.node on) (unfold count in refl)

  before_unlocked : own_unlocked CacheTier.gpu place.node ≡ length place.node.pages
  before_unlocked = rw (on, zero_refs) refl

  moved_gpu : stands_on CacheTier.gpu moved ≡ false
  moved_gpu = unfold stands_on in refl

  moved_cpu : stands_on CacheTier.cpu moved ≡ true
  moved_cpu = unfold stands_on in refl

  abbrev settled : Tiers V
  settled = to_cpu place.node cpu_pages cpu_pool t

  reading-moved : IsExclusive t → reading settled moved ≡ reading t place.node
  unfolding to_cpu
  reading-moved x =
      rw (moved_cpu, gpu_not_cpu place.node on)
        (copy_kv-hit place.node.pages cpu_pages t.gpu_kv t.cpu_kv (sym taken.amount)
          (λ a. omega (arith, taken.same a, x a)))

  reading_others :
      (j : ℕ) (old : Place)
      → locate j none t.children ≡ some old
      → IsExclusive t
      → reading settled old.node ≡ reading t old.node
  unfolding to_cpu
  reading_others j old e x = elim (tier_cases old.node) [
    | inl (on_gpu, off_cpu) ↦ rw off_cpu refl
    | inr (off_gpu, on_cpu) ↦ rw on_cpu (
        copy_kv-apart place.node.pages cpu_pages t.gpu_kv t.cpu_kv old.node.pages (λ a. omega (
          arith,
          taken.same a,
          x a,
          locate-tier_pages CacheTier.cpu j none t.children old e on_cpu a,
        )))
  ]

  same_place :
      (old : Place) (j : ℕ)
      → locate j none t.children ≡ some old
      → (old.node.id == i) ≡ true
      → old ≡ place
  same_place old j q hit =
      let named : j ≡ i =
        sym (locate_counts j none t.children old q).1 ∙ (==_iff old.node.id i).0 hit in
      let again : locate j none t.children ≡ some place =
        subst (λ z. locate z none t.children ≡ some place) (sym named) at in
      ground (arith, q, again)

  -- Where a node stood before, and what its pages held.
  to_cpu_left :
      (j : ℕ) (new : Place)
      → locate j none after ≡ some new
      → (old : Place) × (locate j none t.children ≡ some old)
        × (new.node.key ≡ old.node.key)
        × (IsExclusive t → reading settled new.node ≡ reading t old.node)
  to_cpu_left j new e =
      let (old, q, there) = set_pages-survivor i cpu_pages CacheTier.cpu j t.children new e in
      let node_there : repaged i cpu_pages CacheTier.cpu old.node ≡ new.node =
        ap (λ (z : Place). z.node) (sym there) in
      (
        old,
        q,
        ap (λ (n : RadixNode). n.key) (sym node_there)
            ∙ (repaged_keeps i cpu_pages CacheTier.cpu old.node).1,
        λ x. ap (reading settled) (sym node_there) ∙ elim (Bool-cases (old.node.id == i)) [
          | inr other ↦
              let untouched : repaged i cpu_pages CacheTier.cpu old.node ≡ old.node =
                rw other refl in
              ap (reading settled) untouched ∙ reading_others j old q x
          | inl hit ↦
              let twice : old ≡ place = same_place old j q hit in
              let given : repaged i cpu_pages CacheTier.cpu old.node ≡ moved =
                ap (λ (z : Place). repaged i cpu_pages CacheTier.cpu z.node) twice
                ∙ rw (==_self i) refl in
              ap (reading settled) given
              ∙ (reading-moved x ∙ ap (λ (z : Place). reading t z.node) (sym twice))
        ],
      )

  pub to_cpu-Tiered : Tiered p t (to_cpu place.node cpu_pages cpu_pool t) (length place.node.pages)
  unfolding to_cpu
  to_cpu-Tiered = record {
    stands = record {
      wf =
          set_pages-IsWf i cpu_pages CacheTier.cpu p none t.children place v.distinct at
            taken.amount v.wf;
      distinct = λ j. omega (
        arith,
        v.distinct j,
        ap (count j) (ids_of-set_pages i cpu_pages CacheTier.cpu t.children),
      );
      settled = IsSettled-set_pages i cpu_pages CacheTier.cpu t.children v.settled;
    };
    guarded = IsGuarded-set_pages i cpu_pages CacheTier.cpu t.children;
    gpu_pages = λ a. omega (
      arith,
      gains (λ cs. count a (tier_pages CacheTier.gpu cs)) (λ n. count a (own_pages CacheTier.gpu n))
          (tier_sums CacheTier.gpu a),
      before_gpu a,
      empty_now a,
      count-free a t.pool place.node.pages,
    );
    cpu_pages = λ a. omega (
      arith,
      gains (λ cs. count a (tier_pages CacheTier.cpu cs)) (λ n. count a (own_pages CacheTier.cpu n))
          (tier_sums CacheTier.cpu a),
      before_cpu a,
      ap (λ b. count a (if b then cpu_pages else [])) moved_cpu,
      taken.same a,
    );
    free_pages = omega (arith, num_free-free t.pool place.node.pages);
    evictable = omega (
      arith,
      gains (count_unlocked CacheTier.gpu) (own_unlocked CacheTier.gpu)
          (unlocked_sums CacheTier.gpu),
      before_unlocked,
      gone,
    );
    locked =
        locked_nodes-set_pages i cpu_pages CacheTier.cpu none t.children place v.distinct at
          unlocked;
    stays = λ j old e u. (
      place_repaged i cpu_pages CacheTier.cpu old,
      locate-set_pages i cpu_pages CacheTier.cpu j t.children
          ∙ ap (Option.map (place_repaged i cpu_pages CacheTier.cpu)) e,
      untouched j old e u,
    );
    left = to_cpu_left;
  }
    where
      untouched :
          (j : ℕ) (old : Place)
          → locate j none t.children ≡ some old
          → is_pos old.node.ref_count ≡ true
          → repaged i cpu_pages CacheTier.cpu old.node ≡ old.node
      untouched j old e u = elim (Bool-cases (old.node.id == i)) [
        | inr other ↦ rw other refl
        | inl hit ↦
            let locked : is_pos place.node.ref_count ≡ true =
              ap (λ (z : Place). is_pos z.node.ref_count) (sym (same_place old j e hit)) ∙ u in
            cc unlocked
      ]

      empty_now : (a : ℕ) → count a (own_pages CacheTier.gpu moved) ≡ 0
      empty_now a = rw moved_gpu (unfold count in refl)

      gone : own_unlocked CacheTier.gpu moved ≡ 0
      gone = rw moved_gpu refl
