-- ===== src/Radix/Evict/Unlocked.antt =====
-- Taking out an unlocked leaf leaves every reference count right.
use cs349d_miniengine_sk_nc.Common.{
  ℤ, ℕ, ◌+◌, ◌≡◌, refl, sym, ap, ◌∙◌, List, ◌∷◌, Option, some, pos, true, count, arith, is_zero,
  subst,
}
use cs349d_miniengine_sk_nc.Radix.Node.{RadixNode, Children, empty, entry, has_none, ids_of}
use cs349d_miniengine_sk_nc.Radix.Evict.{Place, locate, detach}
use cs349d_miniengine_sk_nc.Radix.Evict.Places.{
  AreDistinct, here, under, beside, found, AreDistinct-below, detach_absent, measure-detach,
}
use cs349d_miniengine_sk_nc.Radix.Evict.Leaves.{goes}
use cs349d_miniengine_sk_nc.Radix.Lock.Counts.{LockedBy, locks_on, locks_on-append}

zero_count : (z : ℤ) (n : ℕ) → z ≡ pos n → is_zero z ≡ true → n ≡ 0
unfolding is_zero
zero_count z n e h = ground arith

-- The leaf that may go bears no lock.
free_leaf :
    (i : ℕ) (locks : List ℕ) (up : Option RadixNode) (cs : Children) (place : Place)
    → AreDistinct cs
    → locate i up cs ≡ some place
    → goes place ≡ true
    → LockedBy locks cs
    → count place.node.id locks ≡ 0
unfolding locks_on
free_leaf i locks up empty place d h e k = unfold locate in cc
free_leaf i locks up (entry slot node below rest) place d h e k =
    let parts = AreDistinct-below slot node below rest d in
    elim (found i up slot node below rest place d h) [
      | here hit q zb zr ↦
          let same : place.node ≡ node = ap (λ (z : Place). z.node) q in
          let none_left =
            zero_count node.ref_count _ k.0
              (ap (λ (n : RadixNode). is_zero n.ref_count) (sym same) ∙ ground (arith, e)) in
          omega (arith, none_left, ap (λ (n : RadixNode). count n.id locks) same)
      | under miss q zr ↦ free_leaf i locks (some node) below place parts.0 q e k.1
      | beside miss zb q ↦ free_leaf i locks up rest place parts.1 q e k.2
    ]

pub LockedBy-detach :
    (i : ℕ) (locks : List ℕ) (up : Option RadixNode) (cs : Children) (place : Place)
    → AreDistinct cs
    → locate i up cs ≡ some place
    → goes place ≡ true
    → LockedBy locks cs
    → LockedBy locks (detach i cs)
unfolding detach
LockedBy-detach i locks up empty place d h e k = tt
LockedBy-detach i locks up (entry slot node below rest) place d h e k =
    let parts = AreDistinct-below slot node below rest d in
    elim (found i up slot node below rest place d h) [
      | here hit q zb zr ↦ rw hit (subst (LockedBy locks) (sym (detach_absent i rest zr)) k.2)
      | under miss q zr ↦
          let leaf : has_none place.children ≡ true = ground (arith, e) in
          let free = free_leaf i locks (some node) below place parts.0 q e k.1 in
          let same =
            measure-detach (λ cs. locks_on locks (ids_of cs)) (λ n. count n.id locks)
              (unfold ids_of locks_on in refl) sums i (some node) below place parts.0 q leaf in
          rw (miss, detach_absent i rest zr)
            (
              k.0
                  ∙ ap pos (
                      total node (ids_of below) (ids_of (detach i below))
                        (omega (arith, same, free))),
              LockedBy-detach i locks (some node) below place parts.0 q e k.1,
              k.2,
            )
      | beside miss zb q ↦
          rw (miss, detach_absent i below zb)
            (k.0, k.1, LockedBy-detach i locks up rest place parts.1 q e k.2)
    ]
  where
    sums :
        (s : List ℕ) (n : RadixNode) (b r : Children)
        → locks_on locks (ids_of (entry s n b r))
          ≡ count n.id locks + (locks_on locks (ids_of b) + locks_on locks (ids_of r))
    sums s n b r =
        unfold ids_of locks_on in omega (arith, locks_on-append locks (ids_of b) (ids_of r))

    total :
        (n : RadixNode) (is js : List ℕ)
        → locks_on locks is ≡ locks_on locks js
        → locks_on locks (n.id ∷ is) ≡ locks_on locks (n.id ∷ js)
    total n is js q = unfold locks_on in omega (arith, q)
