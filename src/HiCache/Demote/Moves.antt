-- ===== src/HiCache/Demote/Moves.antt =====
-- What giving a node other pages does to the tree: only that node changes.
use mathlib.Core.Option
use cs349d_miniengine_sk_nc.Common.{
  Bool-cases, List, Option, ap, arith, count, false, inl, inr, is_pos, is_zero, length, none, refl,
  some, sym, ℕ, ◌*◌, ◌+◌, ◌==◌, ◌∙◌, ◌≡◌,
}
use cs349d_miniengine_sk_nc.HiCache.Demote.{repaged, set_pages}
use cs349d_miniengine_sk_nc.Radix.Evict.{Place, locate}
use cs349d_miniengine_sk_nc.Radix.Evict.Guarded.{AllUnlocked, IsGuarded, IsSettled}
use cs349d_miniengine_sk_nc.Radix.Evict.Places.{
  AreDistinct, AreDistinct-below, count_ids, found, beside, here, under,
}
use cs349d_miniengine_sk_nc.Radix.Evict.Sweeps.{locked_nodes}
use cs349d_miniengine_sk_nc.Radix.Node.{
  CacheTier, Children, RadixNode, empty, entry, get_child, ids_of,
}
use cs349d_miniengine_sk_nc.Radix.WellFormed.{IsWf}
use cs349d_miniengine_sk_nc.HiCache.Demote.Nodes.{
  get_child-map_nodes, ids_of-map_nodes, locate-map_nodes, map_nodes-survivor, mapped,
}

module _ (i : ℕ) (pages : List ℕ) (tier : CacheTier) where
  abbrev set : Children → Children
  set = set_pages i pages tier

  pub repaged_keeps :
      (node : RadixNode)
      → ((repaged i pages tier node).id ≡ node.id)
        × ((repaged i pages tier node).key ≡ node.key)
        × ((repaged i pages tier node).ref_count ≡ node.ref_count)
  repaged_keeps node = elim (Bool-cases (node.id == i)) [
    | inl e ↦ rw e (refl, refl, refl)
    | inr e ↦ rw e (refl, refl, refl)
  ]

  pub ids_of-set_pages : (cs : Children) → ids_of (set cs) ≡ ids_of cs
  unfolding set_pages
  ids_of-set_pages = ids_of-map_nodes (repaged i pages tier) (λ n. (repaged_keeps n).0)

  pub set_pages_absent : (cs : Children) → count i (ids_of cs) ≡ 0 → set cs ≡ cs
  unfolding set_pages
  set_pages_absent empty h = refl
  set_pages_absent (entry slot node below rest) h =
      ground
        (arith, count_ids i slot node below rest, set_pages_absent below, set_pages_absent rest)

  get_child-set_pages :
      (s : List ℕ) (cs : Children) → get_child s cs ≡ none → get_child s (set cs) ≡ none
  unfolding set_pages
  get_child-set_pages = get_child-map_nodes (repaged i pages tier)

  AllUnlocked-set_pages : (cs : Children) → AllUnlocked cs → AllUnlocked (set cs)
  unfolding set_pages
  AllUnlocked-set_pages empty h = tt
  AllUnlocked-set_pages (entry slot node below rest) h = (
    ap is_zero (repaged_keeps node).2 ∙ h.0,
    AllUnlocked-set_pages below h.1,
    AllUnlocked-set_pages rest h.2,
  )

  pub IsGuarded-set_pages : (cs : Children) → IsGuarded cs → IsGuarded (set cs)
  unfolding set_pages
  IsGuarded-set_pages empty h = tt
  IsGuarded-set_pages (entry slot node below rest) h = (
    (λ z. AllUnlocked-set_pages below (h.0 (ap is_zero (sym (repaged_keeps node).2) ∙ z))),
    IsGuarded-set_pages below h.1,
    IsGuarded-set_pages rest h.2,
  )

  pub IsSettled-set_pages : (cs : Children) → IsSettled cs → IsSettled (set cs)
  unfolding set_pages
  IsSettled-set_pages empty h = tt
  IsSettled-set_pages (entry slot node below rest) h = (
    (λ z. ap is_zero (repaged_keeps node).2 ∙ h.0 (ap is_pos (sym (repaged_keeps node).2) ∙ z)),
    IsSettled-set_pages below h.1,
    IsSettled-set_pages rest h.2,
  )

  -- The tree is in shape when the node has as many pages as before.
  pub set_pages-IsWf :
      (p : ℕ) (up : Option RadixNode) (cs : Children) (place : Place)
      → AreDistinct cs
      → locate i up cs ≡ some place
      → length pages ≡ length place.node.pages
      → IsWf p cs
      → IsWf p (set cs)
  unfolding set_pages
  set_pages-IsWf p up empty place d h e w = tt
  set_pages-IsWf p up (entry slot node below rest) place d h e w =
      let parts = AreDistinct-below slot node below rest d in
      let free = get_child-set_pages slot rest w.1 in
      elim (found i up slot node below rest place d h) [
        | here hit q zb zr ↦
            let same : length pages ≡ length node.pages =
              e ∙ ap (λ (z : Place). length z.node.pages) q in
            rw (hit, set_pages_absent below zb, set_pages_absent rest zr)
              (
                record {
                  aligned = w.0.aligned ∙ ap (λ k. k * p) (sym same);
                  some_pages = omega (arith, same, w.0.some_pages);
                  slotted = w.0.slotted;
                },
                w.1,
                w.2,
                w.3,
              )
        | under miss q zr ↦
            rw (miss, set_pages_absent rest zr)
              (w.0, w.1, set_pages-IsWf p (some node) below place parts.0 q e w.2, w.3)
        | beside miss zb q ↦
            rw (miss, set_pages_absent below zb)
              (w.0, free, w.2, set_pages-IsWf p up rest place parts.1 q e w.3)
      ]

  -- What an additive measure of trees becomes.
  pub measure-set_pages :
      (measure : Children → ℕ) (own : RadixNode → ℕ)
      → ((slot : List ℕ) (node : RadixNode) (below rest : Children)
          → measure (entry slot node below rest) ≡ own node + (measure below + measure rest))
      → (up : Option RadixNode) (cs : Children) (place : Place) → AreDistinct cs
      → locate i up cs ≡ some place
      → measure (set cs) + own place.node
        ≡ measure cs + own (record (place.node) { pages = pages; tier = tier })
  unfolding set_pages
  measure-set_pages measure own sums up empty place d h = unfold locate in cc
  measure-set_pages measure own sums up (entry slot node below rest) place d h =
      let parts = AreDistinct-below slot node below rest d in
      let sum_before = sums slot node below rest in
      let sum_after = sums slot (repaged i pages tier node) (set below) (set rest) in
      elim (found i up slot node below rest place d h) [
        | here hit q zb zr ↦
            let same : place.node ≡ node = ap (λ (z : Place). z.node) q in
            let given : repaged i pages tier node ≡ record node { pages = pages; tier = tier } =
              rw hit refl in
            omega (
              arith,
              sum_before,
              sum_after,
              ap own given,
              ap own same,
              ap (λ (n : RadixNode). own (record n { pages = pages; tier = tier })) same,
              ap measure (set_pages_absent below zb),
              ap measure (set_pages_absent rest zr),
            )
        | under miss q zr ↦
            let given : repaged i pages tier node ≡ node = rw miss refl in
            omega (
              arith,
              sum_before,
              sum_after,
              ap own given,
              measure-set_pages measure own sums (some node) below place parts.0 q,
              ap measure (set_pages_absent rest zr),
            )
        | beside miss zb q ↦
            let given : repaged i pages tier node ≡ node = rw miss refl in
            omega (
              arith,
              sum_before,
              sum_after,
              ap own given,
              measure-set_pages measure own sums up rest place parts.1 q,
              ap measure (set_pages_absent below zb),
            )
      ]

  -- An unlocked node is none of the locked ones.
  pub locked_nodes-set_pages :
      (up : Option RadixNode) (cs : Children) (place : Place)
      → AreDistinct cs
      → locate i up cs ≡ some place
      → is_pos place.node.ref_count ≡ false
      → locked_nodes (set cs) ≡ locked_nodes cs
  unfolding locked_nodes set_pages
  locked_nodes-set_pages up empty place d h e = refl
  locked_nodes-set_pages up (entry slot node below rest) place d h e =
      let parts = AreDistinct-below slot node below rest d in
      elim (found i up slot node below rest place d h) [
        | here hit q zb zr ↦
            let unlocked : is_pos node.ref_count ≡ false =
              ap (λ (z : Place). is_pos z.node.ref_count) (sym q) ∙ e in
            rw (hit, unlocked, set_pages_absent below zb, set_pages_absent rest zr) refl
        | under miss q zr ↦
            rw
              (
                miss,
                set_pages_absent rest zr,
                locked_nodes-set_pages (some node) below place parts.0 q e,
              )
              refl
        | beside miss zb q ↦
            rw (miss, set_pages_absent below zb, locked_nodes-set_pages up rest place parts.1 q e)
              refl
      ]

  abbrev pub place_repaged : Place → Place
  place_repaged = mapped (repaged i pages tier) (λ n. (repaged_keeps n).0)

  pub locate-set_pages :
      (j : ℕ) (cs : Children) → locate j none (set cs) ≡ Option.map place_repaged (locate j none cs)
  unfolding set_pages
  locate-set_pages j cs =
      locate-map_nodes (repaged i pages tier) (λ n. (repaged_keeps n).0) j none cs

  -- A node of the changed tree was there before.
  pub set_pages-survivor :
      (j : ℕ) (cs : Children) (new : Place)
      → locate j none (set cs) ≡ some new
      → (old : Place) × (locate j none cs ≡ some old) × (new ≡ place_repaged old)
  unfolding set_pages
  set_pages-survivor = map_nodes-survivor (repaged i pages tier) (λ n. (repaged_keeps n).0)
