-- ===== src/HiCache/Evict/Room.antt =====
-- With room for them in the CPU pool, every unlocked node of the GPU tier moves.
use cs349d_miniengine_sk_nc.Common.{
  ==_self, Bool-cases, List, Option, [], ap, arith, count, inl, inr, is_zero, length, none, refl,
  some, true, ℕ, ◌≡◌, ◌≤◌,
}
use cs349d_miniengine_sk_nc.HiCache.{count_unlocked, stands_on}
use cs349d_miniengine_sk_nc.HiCache.Demote.Measures.{own_unlocked, unlocked_none, unlocked_sums}
use cs349d_miniengine_sk_nc.Radix.Evict.{HeapItem, Place, locate}
use cs349d_miniengine_sk_nc.Radix.Evict.Heap.{heap_ids}
use cs349d_miniengine_sk_nc.Radix.Evict.Places.{
  AreDistinct, AreDistinct-below, count_ids, locate-none, locate_counts,
}
use cs349d_miniengine_sk_nc.Radix.Node.{CacheTier, Children, RadixNode, empty, entry}

pub locate-count_unlocked :
    (tier : CacheTier) (i : ℕ) (up : Option RadixNode) (cs : Children) (place : Place)
    → locate i up cs ≡ some place
    → stands_on tier place.node ≡ true
    → is_zero place.node.ref_count ≡ true
    → length place.node.pages ≤ count_unlocked tier cs
unfolding locate
locate-count_unlocked tier i up empty place h on z = cc
locate-count_unlocked tier i up (entry slot node below rest) place h on z = ground (
  arith,
  unlocked_sums tier slot node below rest,
  locate-count_unlocked tier i (some node) below place,
  locate-count_unlocked tier i up rest place,
)

-- A tree in which no unlocked node of the tier is found has no unlocked pages there.
nothing_found :
    (tier : CacheTier) (up : Option RadixNode) (cs : Children)
    → AreDistinct cs
    → ((j : ℕ) (place : Place)
        → locate j up cs ≡ some place
        → is_zero place.node.ref_count ≡ true
        → stands_on tier place.node ≡ true
        → ⊥)
    → count_unlocked tier cs ≡ 0
unfolding locate
nothing_found tier up empty d h = unlocked_none tier
nothing_found tier up (entry slot node below rest) d h =
    let parts = AreDistinct-below slot node below rest d in
    let none_below =
      nothing_found tier (some node) below parts.0 (λ j place e. h j place (under_lem j place e)) in
    let none_beside =
      nothing_found tier up rest parts.1 (λ j place e. h j place (beside_lem j place e)) in
    omega (arith, unlocked_sums tier slot node below rest, none_below, none_beside, own_none)
  where
    under_lem :
        (j : ℕ) (place : Place)
        → locate j (some node) below ≡ some place
        → locate j up (entry slot node below rest) ≡ some place
    under_lem j place e =
        ground (
          arith,
          e,
          d j,
          count_ids j slot node below rest,
          locate_counts j (some node) below place e,
        )

    beside_lem :
        (j : ℕ) (place : Place)
        → locate j up rest ≡ some place
        → locate j up (entry slot node below rest) ≡ some place
    beside_lem j place e = ground (
      arith,
      e,
      d j,
      count_ids j slot node below rest,
      locate_counts j up rest place e,
      locate-none j (some node) below,
    )

    own_none : own_unlocked tier node ≡ 0
    own_none = elim (Bool-cases (stands_on tier node)) [
      | inr off ↦ rw off refl
      | inl on ↦ elim (Bool-cases (is_zero node.ref_count)) [
        | inr locked ↦ rw (on, locked) refl
        | inl z ↦ absurd (
            h node.id (record { node = node; children = below; slot = slot; parent = up })
              (rw (==_self node.id) refl) z on)
      ]
    ]

-- Every unlocked node of the GPU tier has a heap item.
abbrev pub IsComplete : Children → List HeapItem → Type 0
IsComplete cs heap =
    (j : ℕ) (place : Place)
    → locate j none cs ≡ some place
    → is_zero place.node.ref_count ≡ true
    → stands_on CacheTier.gpu place.node ≡ true
    → 1 ≤ count j (heap_ids heap)

pub no_heap_no_page :
    (cs : Children) (heap : List HeapItem)
    → AreDistinct cs
    → IsComplete cs heap
    → heap ≡ []
    → count_unlocked CacheTier.gpu cs ≡ 0
no_heap_no_page cs heap d complete e = nothing_found CacheTier.gpu none cs d (λ j place at z on.
    omega (arith, complete j place at z on, ap (λ h. count j (heap_ids h)) e, nothing j))
  where
    nothing : (j : ℕ) → count j [] ≡ 0
    nothing j = unfold count in refl
