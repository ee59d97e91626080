-- ===== src/Radix/Evict/Heap.antt =====
-- `pop_min` takes one item and keeps the others.
use cs349d_miniengine_sk_nc.Common.{
  ℕ, suc, ◌+◌, ◌≡◌, refl, List, [], ◌∷◌, none, some, ◌==◌, if◌then◌else◌, count, length, arith,
  Option-cases, inl, inr, ap,
}
use cs349d_miniengine_sk_nc.Radix.Node.{RadixNode}
use cs349d_miniengine_sk_nc.Radix.Evict.{HeapItem, pop_min, items}
use cs349d_miniengine_sk_nc.Radix.Evict.Leaves.{node_ids}

abbrev pub heap_ids : List HeapItem → List ℕ
heap_ids [] = []
heap_ids (a ∷ as') = a.node ∷ heap_ids as'

pub pop_min-none : (heap : List HeapItem) → pop_min heap ≡ none → heap ≡ []
unfolding pop_min
pop_min-none [] h = refl
pop_min-none (a ∷ heap) h = ground arith

pub count-pop_min :
    (i : ℕ) (heap others : List HeapItem) (a : HeapItem)
    → pop_min heap ≡ some (a, others)
    → count i (heap_ids heap) ≡ (if a.node == i then 1 else 0) + count i (heap_ids others)
unfolding pop_min count
count-pop_min i [] others a h = cc
count-pop_min i (b ∷ heap) others a h = elim (Option-cases (pop_min heap)) [
  | inl q ↦ ground (arith, h, q, pop_min-none heap q)
  | inr ((c, left), q) ↦ ground (arith, h, q, count-pop_min i heap left c q)
]

pub length-pop_min :
    (heap others : List HeapItem) (a : HeapItem)
    → pop_min heap ≡ some (a, others)
    → length heap ≡ suc (length others)
unfolding pop_min
length-pop_min [] others a h = cc
length-pop_min (b ∷ heap) others a h = elim (Option-cases (pop_min heap)) [
  | inl q ↦ ground (arith, h, q, pop_min-none heap q)
  | inr ((c, left), q) ↦ ground (arith, h, q, length-pop_min heap left c q)
]

pub heap_ids-items :
    (addr : ℕ → ℕ) (p : ℕ) (nodes : List RadixNode) → heap_ids (items addr p nodes) ≡ node_ids nodes
unfolding items
heap_ids-items addr p [] = refl
heap_ids-items addr p (n ∷ nodes) = ap (◌∷◌ n.id) (heap_ids-items addr p nodes)
