-- ===== src/Radix/Evict/Push.antt =====
-- What pushing the parent of a removed leaf does to the heap.
use cs349d_miniengine_sk_nc.Common.{
  ℕ, suc, ◌≤◌, ◌≡◌, sym, ◌∙◌, subst, List, Option, none, some, true, false, ◌==◌, ==_iff, count,
  length, arith, Bool-cases, Option-cases, inl, inr, ◌⊎◌, is_empty,
}
use cs349d_miniengine_sk_nc.Radix.Node.{RadixNode, Children}
use cs349d_miniengine_sk_nc.Radix.Evict.{Place, HeapItem, locate, push_parent}
use cs349d_miniengine_sk_nc.Radix.Evict.Places.{locate_counts}
use cs349d_miniengine_sk_nc.Radix.Evict.Leaves.{goes}
use cs349d_miniengine_sk_nc.Radix.Evict.Heap.{heap_ids}

module _ (addr : ℕ → ℕ) (p : ℕ) where
  abbrev pub pushed : Option RadixNode → Children → List HeapItem → List HeapItem
  pushed = push_parent addr p

  pub pushed_more :
      (j : ℕ) (par : Option RadixNode) (cs : Children) (heap : List HeapItem)
      → count j (heap_ids heap) ≤ count j (heap_ids (pushed par cs heap))
  unfolding push_parent count
  pushed_more j none cs heap = omega arith
  pushed_more j (some n) cs heap = ground arith

  pub length-pushed :
      (par : Option RadixNode) (cs : Children) (heap : List HeapItem)
      → length (pushed par cs heap) ≤ suc (length heap)
  unfolding push_parent
  length-pushed none cs heap = omega arith
  length-pushed (some n) cs heap = ground arith

  -- What is on the heap was there before or is the parent, which may go.
  pub pushed_origin :
      (j : ℕ) (par : Option RadixNode) (cs : Children) (heap : List HeapItem)
      → 1 ≤ count j (heap_ids (pushed par cs heap))
      → (1 ≤ count j (heap_ids heap))
        ⊎ ((place : Place) × (locate j none cs ≡ some place) × (goes place ≡ true))
  unfolding push_parent count
  pushed_origin j none cs heap h = inl h
  pushed_origin j (some n) cs heap h = elim (Option-cases (locate n.id none cs)) [
    | inl q ↦ inl (ground (arith, h, q))
    | inr (place, q) ↦ elim (Bool-cases (place.node.id == j)) [
      | inr other ↦ inl (ground (arith, h, q))
      | inl same ↦ elim (Bool-cases (goes place)) [
        | inl go ↦ inr (
          place,
          subst (λ z. locate z none cs ≡ some place)
              (sym (locate_counts n.id none cs place q).1 ∙ (==_iff _ j).0 same) q,
          go,
        )
        | inr stay ↦ inl (ground (arith, h, q))
      ]
    ]
  ]

  pub pushed_parent :
      (j : ℕ) (n : RadixNode) (cs : Children) (heap : List HeapItem) (place : Place)
      → locate j none cs ≡ some place
      → goes place ≡ true
      → is_empty place.node.pages ≡ false
      → n.id ≡ j
      → 1 ≤ count j (heap_ids (pushed (some n) cs heap))
  pushed_parent j n cs heap place q go paged e =
      let at : locate n.id none cs ≡ some place =
        subst (λ z. locate z none cs ≡ some place) (sym e) q in
      let named : place.node.id ≡ j = (locate_counts j none cs place q).1 in
      unfold push_parent count in ground (arith, at, go, paged, named)
