-- ===== src/HiCache/Match/Sizes.antt =====
-- How many pages a round of the lookup borrows.
use mathlib.Core.Option
use cs349d_miniengine_sk_nc.Radix.Evict.{Place, locate}
use cs349d_miniengine_sk_nc.Common.{
  Bool-cases, arith, inl, inr, is_empty, length, min, none, refl, some, true, ℕ, ◌||◌, ◌≡◌, List,
  ap, length-take, sym, ◌∙◌,
}
use cs349d_miniengine_sk_nc.HiCache.{stands_on}
use cs349d_miniengine_sk_nc.HiCache.Demote.{Tiers}
use cs349d_miniengine_sk_nc.HiCache.Demote.Measures.{tier_cases}
use cs349d_miniengine_sk_nc.HiCache.Demote.Tiered.{Stands}
use cs349d_miniengine_sk_nc.HiCache.Match.{ensure_node, pages_at, touch, accessed}
use cs349d_miniengine_sk_nc.HiCache.Promote.{ensure_gpu_pages, Promotion}
use cs349d_miniengine_sk_nc.HiCache.Promote.Contract.{promote_node_lem}
use cs349d_miniengine_sk_nc.Radix.Node.{CacheTier, Children, RadixNode}
use cs349d_miniengine_sk_nc.HiCache.Demote.Nodes.{locate-map_nodes, mapped}
use cs349d_miniengine_sk_nc.HiCache.Match.Contract.{accessed_keeps, touch-Kept}
use cs349d_miniengine_sk_nc.Radix.Evict.Places.{locate_counts}

length-pages_at :
    (n i : ℕ) (cs : Children) (place : Place)
    → locate i none cs ≡ some place
    → length (pages_at n i cs) ≡ min n (length place.node.pages)
unfolding pages_at
length-pages_at n i cs place e = rw (e, pages_at) (length-take n place.node.pages)

module _ {ℓ} {V : Type ℓ} (addr : ℕ → ℕ) (p now : ℕ) where
  -- A promotion that does not raise leaves the node with as many pages.
  ensure_gpu_pages_size :
      (t : Tiers V) (place : Place)
      → Stands p t.children
      → locate place.node.id none t.children ≡ some place
      → (ensure_gpu_pages addr p place.node t).done ≡ true
      → (new : Place) × (locate place.node.id none
            (ensure_gpu_pages addr p place.node t).tiers.children
          ≡ some new)
        × (length new.node.pages ≡ length place.node.pages)
  unfolding ensure_gpu_pages
  ensure_gpu_pages_size t place v at d =
      elim (Bool-cases (is_empty place.node.pages || stands_on CacheTier.gpu place.node)) [
        | inl skip ↦ rw (skip, ensure_gpu_pages) (place, at, refl)
        | inr go ↦
            let (new, e, how) =
              (promote_node_lem addr p t place v at
                (ground (arith, tier_cases place.node, go))).1 in
            rw (go, ensure_gpu_pages)
              (
                new,
                e,
                elim how [
                  | inl (done, on, amount, same) ↦ amount
                  | inr (raised, short, same) ↦ absurd (ground (arith, d, go, raised))
                ],
              )
      ]

  ensure_node_at :
      (i : ℕ) (t : Tiers V) (place : Place)
      → locate i none t.children ≡ some place
      → ensure_node addr p i t ≡ ensure_gpu_pages addr p place.node t
  unfolding ensure_node
  ensure_node_at i t place e = rw (e, ensure_node) refl

  ensure_node_size :
      (i n : ℕ) (t : Tiers V) (place : Place)
      → Stands p t.children
      → locate i none t.children ≡ some place
      → (ensure_node addr p i t).done ≡ true
      → length (pages_at n i (ensure_node addr p i t).tiers.children)
        ≡ min n (length place.node.pages)
  ensure_node_size i n t place v at d =
      let same = ensure_node_at i t place at in
      let named : place.node.id ≡ i = (locate_counts i none t.children place at).1 in
      let (new, e, amount) =
        ensure_gpu_pages_size t place v (ap (λ j. locate j none t.children) named ∙ at)
          (ap (λ (r : Promotion V). r.done) (sym same) ∙ d) in
      let there : locate i none (ensure_node addr p i t).tiers.children ≡ some new =
        ap (λ (r : Promotion V). locate i none r.tiers.children) same
        ∙ (ap (λ j. locate j none (ensure_gpu_pages addr p place.node t).tiers.children) (sym named)
            ∙ e) in
      length-pages_at n i (ensure_node addr p i t).tiers.children new there ∙ ap (min n) amount

  pub round_size :
      (i n : ℕ) (t : Tiers V) (place : Place)
      → Stands p t.children
      → locate i none t.children ≡ some place
      → (ensure_node addr p i (touch now i t)).done ≡ true
      → length (pages_at n i (ensure_node addr p i (touch now i t)).tiers.children)
        ≡ min n (length place.node.pages)
  unfolding touch
  round_size i n t place v at d =
      let change = accessed now i in
      let same_id = λ (node : RadixNode). (accessed_keeps now i node).0 in
      let at' : locate i none (touch now i t).children ≡ some (mapped change same_id place) =
        locate-map_nodes change same_id i none t.children
        ∙ ap (Option.map (mapped change same_id)) at in
      ensure_node_size i n (touch now i t) (mapped change same_id place)
        (touch-Kept addr p now i t v).stands at' d
      ∙ ap (λ (l : List ℕ). min n (length l)) (accessed_keeps now i place.node).2
