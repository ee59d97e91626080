-- ===== src/HiCache/Demote/CpuHeap.antt =====
-- The heap of a sweep over the CPU tier, and what the sweep keeps.
use cs349d_miniengine_sk_nc.Common.{
  Bool-cases, List, Option, Option-cases, arith, count, inl, inr, length, none, some, suc, true, ℕ,
  ◌+◌, ◌≡◌, ◌≤◌, ==_iff, ap, is_pos, subst, sym, ◌==◌, ◌∙◌, ◌⊎◌, ◌||◌,
}
use cs349d_miniengine_sk_nc.HiCache.{count_unlocked, stands_on, tier_pages}
use cs349d_miniengine_sk_nc.HiCache.Demote.{push_cpu_parent}
use cs349d_miniengine_sk_nc.Pool.{KvMemoryPool, num_free}
use cs349d_miniengine_sk_nc.Radix.Evict.{HeapItem, Place, Sweep, locate, before}
use cs349d_miniengine_sk_nc.Radix.Evict.Guarded.{IsGuarded, IsSettled}
use cs349d_miniengine_sk_nc.Radix.Evict.Heap.{heap_ids}
use cs349d_miniengine_sk_nc.Radix.Evict.Places.{AreDistinct, locate_counts}
use cs349d_miniengine_sk_nc.Radix.Evict.Sweeps.{locked_nodes}
use cs349d_miniengine_sk_nc.Radix.Node.{CacheTier, Children, RadixNode, has_none}
use cs349d_miniengine_sk_nc.Radix.WellFormed.{IsWf}
use mathlib.Core.Bool.{Bool}

-- The nodes on the heap are leaves.
abbrev pub IsLeafy : Children → List HeapItem → Type 0
IsLeafy cs heap =
    (j : ℕ) (place : Place)
    → locate j none cs ≡ some place
    → 1 ≤ count j (heap_ids heap)
    → has_none place.children ≡ true

-- No sweep over the CPU tier drops such a node.
abbrev pub safe : RadixNode → Bool
safe node = is_pos node.ref_count || stands_on CacheTier.gpu node

-- What is so at every point of a sweep over the CPU tier that began with this CPU pool and tree.
pub record CpuSweeps (p : ℕ) (pool₀ : KvMemoryPool) (cs₀ : Children) (s : Sweep) : Type 0 where
  pub wf : IsWf p s.children
  pub distinct : AreDistinct s.children
  pub guarded : IsGuarded cs₀ → IsGuarded s.children
  pub settled : IsSettled s.children
  pub leafy : IsLeafy s.children s.heap
  pub gpu_pages :
      (a : ℕ)
      → count a (tier_pages CacheTier.gpu s.children) ≡ count a (tier_pages CacheTier.gpu cs₀)
  pub cpu_pages :
      (a : ℕ)
      → count a s.pool.free_list + count a (tier_pages CacheTier.cpu s.children)
        ≡ count a pool₀.free_list + count a (tier_pages CacheTier.cpu cs₀)
  pub free_pages : num_free s.pool ≡ num_free pool₀ + s.freed
  pub evictable : count_unlocked CacheTier.gpu s.children ≡ count_unlocked CacheTier.gpu cs₀
  pub locked : locked_nodes s.children ≡ locked_nodes cs₀
  -- The nodes that are left are as they were, and those that are locked or on the GPU tier are all
  -- left.
  pub left :
      (j : ℕ) (new : Place)
      → locate j none s.children ≡ some new
      → (old : Place) × (locate j none cs₀ ≡ some old) × (new.node ≡ old.node)
  pub stays :
      (j : ℕ) (old : Place)
      → locate j none cs₀ ≡ some old
      → safe old.node ≡ true
      → (new : Place) × (locate j none s.children ≡ some new) × (new.node ≡ old.node)

module _ (addr : ℕ → ℕ) (p : ℕ) where
  abbrev push : Option RadixNode → Children → List HeapItem → List HeapItem
  push = push_cpu_parent addr p

  pub length-push :
      (par : Option RadixNode) (cs : Children) (heap : List HeapItem)
      → length (push par cs heap) ≤ suc (length heap)
  unfolding push_cpu_parent
  length-push none cs heap = omega arith
  length-push (some n) cs heap = ground arith

  -- What is on the heap was there before or is the parent, a leaf now.
  push_origin :
      (j : ℕ) (par : Option RadixNode) (cs : Children) (heap : List HeapItem)
      → 1 ≤ count j (heap_ids (push par cs heap))
      → (1 ≤ count j (heap_ids heap))
        ⊎ ((place : Place) × (locate j none cs ≡ some place) × (has_none place.children ≡ true))
  unfolding push_cpu_parent count
  push_origin j none cs heap h = inl h
  push_origin j (some n) cs heap h = elim (Option-cases (locate n.id none cs)) [
    | inl q ↦ inl (ground (arith, h, q))
    | inr (place, q) ↦ elim (Bool-cases (place.node.id == j)) [
      | inr other ↦ inl (ground (arith, h, q))
      | inl same ↦ elim (Bool-cases (has_none place.children)) [
        | inl leaf ↦ inr (
          place,
          subst (λ z. locate z none cs ≡ some place)
              (sym (locate_counts n.id none cs place q).1 ∙ (==_iff _ j).0 same) q,
          leaf,
        )
        | inr more ↦ inl (ground (arith, h, q))
      ]
    ]
  ]

  pub push-IsLeafy :
      (par : Option RadixNode) (cs : Children) (heap : List HeapItem)
      → IsLeafy cs heap
      → IsLeafy cs (push par cs heap)
  push-IsLeafy par cs heap l j place e h = elim (push_origin j par cs heap h) [
    | inl before ↦ l j place e before
    | inr (pl, q, leaf) ↦
        let same : pl ≡ place = ground (arith, q, e) in
        ap (λ (z : Place). has_none z.children) (sym same) ∙ leaf
  ]
