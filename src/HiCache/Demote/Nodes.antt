-- ===== src/HiCache/Demote/Nodes.antt =====
-- Assignments to the attributes of nodes: the tree has the same nodes in the same places.
use mathlib.Core.Option
use cs349d_miniengine_sk_nc.Common.{
  Bool-cases, List, Option, Option-cases, ap, arith, inl, inr, none, refl, some, sym, ℕ, ◌==◌, ◌∙◌,
  ◌≡◌,
}
use cs349d_miniengine_sk_nc.HiCache.Demote.{map_nodes}
use cs349d_miniengine_sk_nc.Radix.Evict.{Place, locate}
use cs349d_miniengine_sk_nc.Radix.Node.{Children, RadixNode, empty, entry, get_child, ids_of}

module _ (f : RadixNode → RadixNode) (same_id : (node : RadixNode) → (f node).id ≡ node.id) where
  pub ids_of-map_nodes : (cs : Children) → ids_of (map_nodes f cs) ≡ ids_of cs
  unfolding ids_of map_nodes
  ids_of-map_nodes empty = refl
  ids_of-map_nodes (entry slot node below rest) =
      rw (same_id node, ids_of-map_nodes below, ids_of-map_nodes rest) refl

  abbrev pub mapped : Place → Place
  mapped place = record {
    node = f place.node;
    children = map_nodes f place.children;
    slot = place.slot;
    parent = Option.map f place.parent;
  }

  first_map :
      (l r r' : Option Place)
      → r' ≡ Option.map mapped r
      → ◌≡◌ {A = Option Place}
          (elim (Option.map mapped l) [ some place ↦ some place | none ↦ r' ])
          (Option.map mapped (elim l [ some place ↦ some place | none ↦ r ]))
  first_map none r r' e = e
  first_map (some place) r r' e = refl

  pub locate-map_nodes :
      (j : ℕ) (up : Option RadixNode) (cs : Children)
      → locate j (Option.map f up) (map_nodes f cs) ≡ Option.map mapped (locate j up cs)
  unfolding locate map_nodes
  locate-map_nodes j up empty = refl
  locate-map_nodes j up (entry slot node below rest) = elim (Bool-cases (node.id == j)) [
    | inl hit ↦ rw (ap (λ k. k == j) (same_id node) ∙ hit) (rw hit refl)
    | inr miss ↦
        rw (ap (λ k. k == j) (same_id node) ∙ miss, miss, locate-map_nodes j (some node) below)
          (first_map (locate j (some node) below) (locate j up rest) _ (locate-map_nodes j up rest))
  ]

  -- A node of the changed tree was there before.
  pub map_nodes-survivor :
      (j : ℕ) (cs : Children) (new : Place)
      → locate j none (map_nodes f cs) ≡ some new
      → (old : Place) × (locate j none cs ≡ some old) × (new ≡ mapped old)
  map_nodes-survivor j cs new e = elim (Option-cases (locate j none cs)) [
    | inl none_there ↦
        let gone : none ≡ some new =
          ap (Option.map mapped) (sym none_there) ∙ (sym (locate-map_nodes j none cs) ∙ e) in
        cc
    | inr (old, q) ↦
        let same : some (mapped old) ≡ some new =
          ap (Option.map mapped) (sym q) ∙ (sym (locate-map_nodes j none cs) ∙ e) in
        (old, q, cc)
  ]

pub get_child-map_nodes :
    (f : RadixNode → RadixNode) (s : List ℕ) (cs : Children)
    → get_child s cs ≡ none
    → get_child s (map_nodes f cs) ≡ none
unfolding get_child map_nodes
get_child-map_nodes f s empty h = refl
get_child-map_nodes f s (entry slot node below rest) h =
    ground (arith, get_child-map_nodes f s rest)
