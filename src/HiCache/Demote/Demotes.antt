-- ===== src/HiCache/Demote/Demotes.antt =====
-- `_demote_node`: both of its outcomes.
use cs349d_miniengine_sk_nc.Common.{
  Bool-cases, List, [], arith, false, inl, inr, is_empty, is_pos, length, ltb, ltb→le, ltb→lt, none,
  refl, some, true, ℕ, ◌<◌, ◌==◌, ◌∷◌, ◌≡◌, ◌≤◌, ◌⊎◌, ap, subst, ◌+◌, ◌∙◌, sym,
}
use cs349d_miniengine_sk_nc.HiCache.{cpu_allocate, stands_on}
use cs349d_miniengine_sk_nc.HiCache.Demote.{
  Demotion, Tiers, demote_node, evict_cpu_lru, retry, attempt, to_cpu,
}
use cs349d_miniengine_sk_nc.HiCache.Demote.Tiered.{
  Stands, Tiered, evicted-Tiered, none-Tiered, then-Tiered,
}
use cs349d_miniengine_sk_nc.Pool.{KvMemoryPool, num_free, pop_pages}
use cs349d_miniengine_sk_nc.Pool.Laws.{Pops, pop_pages-Pops}
use cs349d_miniengine_sk_nc.Radix.Evict.{Place, Sweep, locate}
use cs349d_miniengine_sk_nc.Radix.Node.{CacheTier, RadixNode}
use cs349d_miniengine_sk_nc.HiCache.Demote.CpuEvicts.{evict_cpu_lru-CpuSweeps}
use cs349d_miniengine_sk_nc.HiCache.Demote.Measures.{gpu_not_cpu}
use cs349d_miniengine_sk_nc.HiCache.Demote.Settles.{to_cpu-Tiered}
use cs349d_miniengine_sk_nc.HiCache.Demote.CpuHeap.{safe}

pub cpu_allocate-cases :
    (pool : KvMemoryPool) (n : ℕ)
    → 0 < n
    → ((n ≤ num_free pool)
        × (is_empty (cpu_allocate pool n).0 ≡ false)
        × Pops n pool.free_list (cpu_allocate pool n).0 (cpu_allocate pool n).1.free_list)
      ⊎ ((num_free pool < n) × (is_empty (cpu_allocate pool n).0 ≡ true))
unfolding cpu_allocate
cpu_allocate-cases pool n h =
    let some_asked : (n == 0) ≡ false = ground (arith, h) in
    elim (Bool-cases (ltb (num_free pool) n)) [
      | inl short ↦ inr (ltb→lt _ _ short, rw (some_asked, short) refl)
      | inr fits ↦
          let k = pop_pages-Pops n pool.free_list (ltb→le _ _ fits) in
          inl (
            ltb→le _ _ fits,
            rw (some_asked, fits) (taken_some (pop_pages n pool.free_list).0 n h k.amount),
            rw (some_asked, fits) k,
          )
    ]
  where
    taken_some : (xs : List ℕ) (n : ℕ) → 0 < n → length xs ≡ n → is_empty xs ≡ false
    taken_some [] n h e = absurd (omega (arith, h, e))
    taken_some (x ∷ xs) n h e = refl

module _ {ℓ} {V : Type ℓ} (p : ℕ) where
  -- A demotion moves the node's pages, or leaves the node where and as it is.
  abbrev pub Demotes : Tiers V → RadixNode → Demotion V → Type ℓ
  Demotes t node d =
      ((d.done ≡ true) × Tiered p t d.tiers (length node.pages))
      ⊎ ((d.done ≡ false)
          × Tiered p t d.tiers 0
          × ((new : Place) × (locate node.id none d.tiers.children ≡ some new) × (new.node ≡ node)))

  -- Pages for the node are taken from the CPU pool, or there are too few.
  attempt-Demotes :
      (t : Tiers V) (place : Place) (lost : ℕ)
      → Stands p t.children
      → locate place.node.id none t.children ≡ some place
      → is_pos place.node.ref_count ≡ false
      → stands_on CacheTier.gpu place.node ≡ true
      → 0 < length place.node.pages
      → Demotes t place.node
          (attempt place.node lost t (cpu_allocate t.cpu_pool (length place.node.pages)))
  unfolding attempt
  attempt-Demotes t place lost v at unlocked on h =
      elim (cpu_allocate-cases t.cpu_pool (length place.node.pages) h) [
        | inl (fits, got, taken) ↦
            rw got (inl (refl, to_cpu-Tiered p t place _ _ v at unlocked on taken))
        | inr (short, none_got) ↦ rw none_got (inr (refl, none-Tiered p t v, (place, at, refl)))
      ]

  -- A change that frees nothing comes first.
  after-Demotes :
      (t t' : Tiers V) (node : RadixNode) (d : Demotion V)
      → Tiered p t t' 0
      → Demotes t' node d
      → Demotes t node d
  after-Demotes t t' node d k (inl (e, l)) =
      inl (e, subst (Tiered p t d.tiers) (omega arith) (then-Tiered k l))
  after-Demotes t t' node d k (inr (e, l, there)) =
      inr (e, subst (Tiered p t d.tiers) (omega arith) (then-Tiered k l), there)

module _ {ℓ} {V : Type ℓ} (addr : ℕ → ℕ) (p : ℕ) (t : Tiers V) (place : Place)
    (v : Stands p t.children) (at : locate place.node.id none t.children ≡ some place)
    (unlocked : is_pos place.node.ref_count ≡ false)
    (on : stands_on CacheTier.gpu place.node ≡ true)
    (some_pages : 0 < length place.node.pages) where
  abbrev n : ℕ
  n = length place.node.pages

  abbrev reclaimed : Sweep
  reclaimed = evict_cpu_lru addr p t.children t.cpu_pool n

  abbrev cleared : Tiers V
  cleared = record t { cpu_pool = reclaimed.pool; children = reclaimed.children }

  is_safe : safe place.node ≡ true
  is_safe = rw (on, unlocked) refl

  retry-Demotes : Demotes p t place.node (retry place.node t reclaimed)
  unfolding retry
  retry-Demotes =
      let k =
        (evict_cpu_lru-CpuSweeps addr p t.children t.cpu_pool v.wf v.distinct v.settled n).0 in
      let (new, found_at, same) = k.stays place.node.id place at is_safe in
      let kept = evicted-Tiered p t reclaimed k in
      after-Demotes p t cleared place.node (retry place.node t reclaimed) kept (
        subst
          (λ m.
            Demotes p cleared m
              (attempt m reclaimed.freed cleared (cpu_allocate reclaimed.pool (length m.pages))))
          same
          (attempt-Demotes p cleared new reclaimed.freed kept.stands
            (ap (λ (m : RadixNode). locate m.id none reclaimed.children) same ∙ found_at)
            (ap (λ (m : RadixNode). is_pos m.ref_count) same ∙ unlocked)
            (ap (stands_on CacheTier.gpu) same ∙ on)
            (omega (arith, ap (λ (m : RadixNode). length m.pages) same, some_pages))))

  abbrev first : List ℕ × KvMemoryPool
  first = cpu_allocate t.cpu_pool n

  at_once :
      is_empty first.0 ≡ false → demote_node addr p place.node t ≡ attempt place.node 0 t first
  unfolding demote_node
  at_once got = rw (gpu_not_cpu place.node on) (rw got refl)

  second_try :
      is_empty first.0 ≡ true → demote_node addr p place.node t ≡ retry place.node t reclaimed
  unfolding demote_node
  second_try short = rw (gpu_not_cpu place.node on) (rw short refl)

  pub demote_node-Demotes : Demotes p t place.node (demote_node addr p place.node t)
  demote_node-Demotes = elim (Bool-cases (is_empty first.0)) [
    | inl short ↦ subst (Demotes p t place.node) (sym (second_try short)) retry-Demotes
    | inr got ↦
        subst (Demotes p t place.node) (sym (at_once got))
          (attempt-Demotes p t place 0 v at unlocked on some_pages)
  ]

  -- With room in the CPU pool the node moves at once.
  pub demote_node-roomy :
      n ≤ num_free t.cpu_pool
      → (pages : List ℕ) × (cpu_pool : KvMemoryPool) × (demote_node addr p place.node t
          ≡ record { done = true; lost = 0; tiers = to_cpu place.node pages cpu_pool t })
        × (num_free cpu_pool + n ≡ num_free t.cpu_pool)
  unfolding demote_node
  demote_node-roomy room = elim (cpu_allocate-cases t.cpu_pool n some_pages) [
    | inl (fits, got, taken) ↦ (
      (cpu_allocate t.cpu_pool n).0,
      (cpu_allocate t.cpu_pool n).1,
      rw (gpu_not_cpu place.node on) (rw got refl),
      taken.remaining,
    )
    | inr (short, none_got) ↦ absurd (omega (arith, short, room))
  ]
