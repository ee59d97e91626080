-- ===== src/HiCache/Promote/Refs.antt =====
-- Changing the reference count of a node.
use mathlib.Core.Option
use cs349d_miniengine_sk_nc.Common.{
  Bool-cases, false, inl, inr, is_pos, is_zero, refl, true, ℕ, ℤ, ◌==◌, ◌≡◌, Option, arith, count,
  decr, incr, negsuc, none, pos, some, subst, suc, zero,
}
use cs349d_miniengine_sk_nc.HiCache.Promote.{recounted, set_ref, with_ref}
use cs349d_miniengine_sk_nc.Radix.Evict.Guarded.{IsSettled}
use cs349d_miniengine_sk_nc.Radix.Node.{Children, RadixNode, empty, entry, ids_of}
use cs349d_miniengine_sk_nc.HiCache.Demote.{Tiers}
use cs349d_miniengine_sk_nc.HiCache.Demote.Nodes.{locate-map_nodes, mapped}
use cs349d_miniengine_sk_nc.HiCache.Demote.Tiered.{Stands}
use cs349d_miniengine_sk_nc.HiCache.Promote.Kept.{Kept}
use cs349d_miniengine_sk_nc.Radix.Evict.{Place, locate}
use cs349d_miniengine_sk_nc.Radix.Evict.Places.{
  AreDistinct, AreDistinct-below, beside, count_ids, found, here, under,
}
use cs349d_miniengine_sk_nc.HiCache.Promote.Assigned.{map_nodes-Kept}

module _ (change : ℤ → ℤ) (i : ℕ) where
  abbrev set : Children → Children
  set = set_ref change i

  pub recounted_keeps :
      (node : RadixNode)
      → ((recounted change i node).id ≡ node.id)
        × ((recounted change i node).key ≡ node.key)
        × ((recounted change i node).pages ≡ node.pages)
        × ((recounted change i node).tier ≡ node.tier)
  recounted_keeps node = elim (Bool-cases (node.id == i)) [
    | inl e ↦ rw e (refl, refl, refl, refl)
    | inr e ↦ rw e (refl, refl, refl, refl)
  ]

  set_ref_absent : (cs : Children) → count i (ids_of cs) ≡ 0 → set cs ≡ cs
  unfolding set_ref
  set_ref_absent empty h = refl
  set_ref_absent (entry slot node below rest) h =
      ground (arith, count_ids i slot node below rest, set_ref_absent below, set_ref_absent rest)

  IsSettled-set_ref :
      (up : Option RadixNode) (cs : Children) (place : Place)
      → AreDistinct cs
      → locate i up cs ≡ some place
      → (is_pos (change place.node.ref_count) ≡ false
          → is_zero (change place.node.ref_count) ≡ true)
      → IsSettled cs
      → IsSettled (set cs)
  unfolding set_ref
  IsSettled-set_ref up empty place d h e s = tt
  IsSettled-set_ref up (entry slot node below rest) place d h e s =
      let parts = AreDistinct-below slot node below rest d in
      elim (found i up slot node below rest place d h) [
        | here hit q zb zr ↦
            rw (hit, set_ref_absent below zb, set_ref_absent rest zr)
              (
                subst
                    (λ (z : Place).
                      is_pos (change z.node.ref_count) ≡ false
                      → is_zero (change z.node.ref_count) ≡ true)
                    q e,
                s.1,
                s.2,
              )
        | under miss q zr ↦
            rw (miss, set_ref_absent rest zr)
              (s.0, IsSettled-set_ref (some node) below place parts.0 q e s.1, s.2)
        | beside miss zb q ↦
            rw (miss, set_ref_absent below zb)
              (s.0, s.1, IsSettled-set_ref up rest place parts.1 q e s.2)
      ]

  abbrev pub recounted_place : Place → Place
  recounted_place = mapped (recounted change i) (λ n. (recounted_keeps n).0)

  pub locate-set_ref :
      (j : ℕ) (cs : Children)
      → locate j none (set cs) ≡ Option.map recounted_place (locate j none cs)
  unfolding set_ref
  locate-set_ref j cs = locate-map_nodes (recounted change i) (λ n. (recounted_keeps n).0) j none cs

  -- The count of the one node may change as long as it stays in order.
  pub with_ref-Kept {ℓ} :
      {V : Type ℓ} (p : ℕ) (t : Tiers V) (place : Place)
      → Stands p t.children
      → locate i none t.children ≡ some place
      → (is_pos (change place.node.ref_count) ≡ false
          → is_zero (change place.node.ref_count) ≡ true)
      → Kept p t (with_ref change i t)
  unfolding with_ref
  with_ref-Kept p t place v at fine =
      map_nodes-Kept (recounted change i) recounted_keeps p t v
        (unfold set_ref in IsSettled-set_ref none t.children place v.distinct at fine v.settled)

-- Adding one to a count that is not below zero makes it positive.
pub incr_pos : (z : ℤ) → (is_pos z ≡ false → is_zero z ≡ true) → is_pos (incr z) ≡ true
unfolding incr is_pos is_zero
incr_pos (pos n) h = refl
incr_pos (negsuc n) h = cc (h refl)

-- Taking one from a positive count leaves none below zero.
pub decr_fine : (z : ℤ) → is_pos z ≡ true → is_pos (decr z) ≡ false → is_zero (decr z) ≡ true
unfolding decr is_pos is_zero
decr_fine (pos zero) h e = cc
decr_fine (pos (suc zero)) h e = refl
decr_fine (pos (suc (suc n))) h e = cc
decr_fine (negsuc n) h e = cc
