-- ===== src/HiCache/Promote/Assigned.antt =====
-- Assignments to reference counts and access times keep the pages and what they hold.
use cs349d_miniengine_sk_nc.Common.{
  List, ap, arith, count, false, length, refl, sym, take, true, ℕ, ◌*◌, ◌∙◌, ◌≡◌,
}
use cs349d_miniengine_sk_nc.HiCache.{stands_on, tier_pages}
use cs349d_miniengine_sk_nc.HiCache.Demote.{Tiers, map_nodes}
use cs349d_miniengine_sk_nc.HiCache.Demote.Contents.{reading}
use cs349d_miniengine_sk_nc.HiCache.Demote.Nodes.{
  get_child-map_nodes, ids_of-map_nodes, map_nodes-survivor,
}
use cs349d_miniengine_sk_nc.HiCache.Demote.Tiered.{Stands}
use cs349d_miniengine_sk_nc.HiCache.Promote.Kept.{Kept}
use cs349d_miniengine_sk_nc.Radix.Evict.{Place}
use cs349d_miniengine_sk_nc.Radix.Evict.Guarded.{IsSettled}
use cs349d_miniengine_sk_nc.Radix.Node.{CacheTier, Children, RadixNode, empty, entry}
use cs349d_miniengine_sk_nc.Radix.WellFormed.{IsFit, IsWf}

pub same_tier :
    (tier : CacheTier) (n m : RadixNode) → n.tier ≡ m.tier → stands_on tier n ≡ stands_on tier m
unfolding stands_on
same_tier CacheTier.gpu n m e = ap (λ t. elim t [ CacheTier.gpu ↦ true | CacheTier.cpu ↦ false ]) e
same_tier CacheTier.cpu n m e = ap (λ t. elim t [ CacheTier.gpu ↦ false | CacheTier.cpu ↦ true ]) e

module _ (f : RadixNode → RadixNode)
    (keeps : (node : RadixNode)
      → ((f node).id ≡ node.id)
        × ((f node).key ≡ node.key)
        × ((f node).pages ≡ node.pages)
        × ((f node).tier ≡ node.tier)) where
  abbrev same_id : (node : RadixNode) → (f node).id ≡ node.id
  same_id node = (keeps node).0

  IsFit-assigned :
      (p : ℕ) (slot : List ℕ) (node : RadixNode) → IsFit p slot node → IsFit p slot (f node)
  IsFit-assigned p slot node w = record {
    aligned =
        ap (λ (k : List ℕ). length k) (keeps node).1
        ∙ (w.aligned ∙ ap (λ (l : List ℕ). length l * p) (sym (keeps node).2));
    some_pages = omega (arith, w.some_pages, ap (λ (l : List ℕ). length l) (keeps node).2);
    slotted = w.slotted ∙ ap (take p) (sym (keeps node).1);
  }

  map_nodes-IsWf : (p : ℕ) (cs : Children) → IsWf p cs → IsWf p (map_nodes f cs)
  unfolding map_nodes
  map_nodes-IsWf p empty w = tt
  map_nodes-IsWf p (entry slot node below rest) w = (
    IsFit-assigned p slot node w.0,
    get_child-map_nodes f slot rest w.1,
    map_nodes-IsWf p below w.2,
    map_nodes-IsWf p rest w.3,
  )

  tier_pages-map_nodes :
      (tier : CacheTier) (cs : Children) → tier_pages tier (map_nodes f cs) ≡ tier_pages tier cs
  unfolding map_nodes tier_pages
  tier_pages-map_nodes tier empty = refl
  tier_pages-map_nodes tier (entry slot node below rest) =
      rw
        (
          same_tier tier (f node) node (keeps node).3,
          (keeps node).2,
          tier_pages-map_nodes tier below,
          tier_pages-map_nodes tier rest,
        )
        refl

  module _ {ℓ} {V : Type ℓ} where
    assigned : Tiers V → Tiers V
    assigned t = record t { children = map_nodes f t.children }

    reading-assigned :
        (t : Tiers V) (node : RadixNode) → reading (assigned t) (f node) ≡ reading t node
    unfolding assigned
    reading-assigned t node =
        rw (same_tier CacheTier.cpu (f node) node (keeps node).3, (keeps node).2) refl

    pub map_nodes-Kept :
        (p : ℕ) (t : Tiers V)
        → Stands p t.children
        → IsSettled (map_nodes f t.children)
        → Kept p t (record t { children = map_nodes f t.children })
    unfolding assigned
    map_nodes-Kept p t v settled = record {
      stands = record {
        wf = map_nodes-IsWf p t.children v.wf;
        distinct =
            λ j. omega (arith, v.distinct j, ap (count j) (ids_of-map_nodes f same_id t.children));
        settled = settled;
      };
      gpu_pages = λ a. omega (arith, ap (count a) (tier_pages-map_nodes CacheTier.gpu t.children));
      cpu_pages = λ a. omega (arith, ap (count a) (tier_pages-map_nodes CacheTier.cpu t.children));
      left = λ j new e.
          let (old, q, there) = map_nodes-survivor f same_id j t.children new e in
          let node_there : new.node ≡ f old.node = ap (λ (z : Place). z.node) there in
          (
            old,
            q,
            ap (λ (n : RadixNode). n.key) node_there ∙ (keeps old.node).1,
            λ x. ap (reading (assigned t)) node_there ∙ reading-assigned t old.node,
          );
    }
