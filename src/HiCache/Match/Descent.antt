-- ===== src/HiCache/Match/Descent.antt =====
-- A child that the lookup comes to is found in the tree under its identity.
use cs349d_miniengine_sk_nc.Radix.Evict.Places.{
  AreDistinct, AreDistinct-below, count_ids, locate-none, locate_counts, under, beside, found, here,
}
use cs349d_miniengine_sk_nc.Common.{
  Bool-cases, List, Option, arith, count, inl, inr, some, ℕ, ◌=ₗ◌, ◌≡◌, ==_self, Option-cases, ap,
  none, refl, sym, true, ◌==◌, ◌∙◌,
}
use cs349d_miniengine_sk_nc.Radix.Evict.{Place, locate}
use cs349d_miniengine_sk_nc.Radix.Node.{Children, RadixNode, empty, entry, get_child, ids_of}
use cs349d_miniengine_sk_nc.HiCache.Match.{children_at}
use cs349d_miniengine_sk_nc.Radix.Cache.{root_id}

-- A node of the entries below or beside a node is found from the top.
from_below :
    (i : ℕ) (up : Option RadixNode) (slot : List ℕ) (node : RadixNode) (below rest : Children)
    (place : Place)
    → AreDistinct (entry slot node below rest)
    → locate i (some node) below ≡ some place
    → locate i up (entry slot node below rest) ≡ some place
unfolding locate
from_below i up slot node below rest place d h =
    ground (
      arith,
      h,
      count_ids i slot node below rest,
      d i,
      (locate_counts i (some node) below place h).0,
    )

from_rest :
    (i : ℕ) (up : Option RadixNode) (slot : List ℕ) (node : RadixNode) (below rest : Children)
    (place : Place)
    → AreDistinct (entry slot node below rest)
    → locate i up rest ≡ some place
    → locate i up (entry slot node below rest) ≡ some place
unfolding locate
from_rest i up slot node below rest place d h =
    let once = (locate_counts i up rest place h).0 in
    let none_below : count i (ids_of below) ≡ 0 =
      omega (arith, count_ids i slot node below rest, d i, once) in
    ground (
      arith,
      h,
      count_ids i slot node below rest,
      d i,
      once,
      locate-none i (some node) below none_below,
    )

located_here :
    (i : ℕ) (up : Option RadixNode) (slot : List ℕ) (node : RadixNode) (below rest : Children)
    → (node.id == i) ≡ true
    → locate i up (entry slot node below rest)
      ≡ some (record { node = node; children = below; slot = slot; parent = up })
unfolding locate
located_here i up slot node below rest e = rw e refl

get_child-locate :
    (slot : List ℕ) (up : Option RadixNode) (cs : Children) (child : RadixNode) (below : Children)
    → AreDistinct cs
    → get_child slot cs ≡ some (child, below)
    → (place : Place) × (locate child.id up cs ≡ some place) × (place.node ≡ child)
unfolding get_child
get_child-locate slot up empty child below d h = cc
get_child-locate slot up (entry s node deeper rest) child below d h =
    elim (Bool-cases (s =ₗ slot)) [
      | inl hit ↦
          let same : node ≡ child = ground (arith, h, hit) in
          (
            record { node = node; children = deeper; slot = s; parent = up },
            located_here child.id up s node deeper rest
                (ap (λ (n : RadixNode). n.id == child.id) same ∙ ==_self child.id),
            same,
          )
      | inr miss ↦
          let q : get_child slot rest ≡ some (child, below) = ground (arith, h, miss) in
          let (place, e, same) =
            get_child-locate slot up rest child below (AreDistinct-below s node deeper rest d).1
              q in
          (place, from_rest child.id up s node deeper rest place d e, same)
    ]

-- A child of a node that is in the tree.
grandchild-locate :
    (i : ℕ) (slot : List ℕ) (up : Option RadixNode) (cs : Children) (at : Place) (child : RadixNode)
    (below : Children)
    → AreDistinct cs
    → locate i up cs ≡ some at
    → get_child slot at.children ≡ some (child, below)
    → (place : Place) × (locate child.id up cs ≡ some place) × (place.node ≡ child)
unfolding locate
grandchild-locate i slot up empty at child below d h q = cc
grandchild-locate i slot up (entry s node deeper rest) at child below d h q =
    let (d_below, d_rest) = AreDistinct-below s node deeper rest d in
    elim (found i up s node deeper rest at d h) [
      | here hit same zb zr ↦
          let (place, e, same_node) =
            get_child-locate slot (some node) deeper child below d_below
              (ap (λ (z : Place). get_child slot z.children) (sym same) ∙ q) in
          (place, from_below child.id up s node deeper rest place d e, same_node)
      | under miss e zr ↦
          let (place, e', same_node) =
            grandchild-locate i slot (some node) deeper at child below d_below e q in
          (place, from_below child.id up s node deeper rest place d e', same_node)
      | beside miss zb e ↦
          let (place, e', same_node) = grandchild-locate i slot up rest at child below d_rest e q in
          (place, from_rest child.id up s node deeper rest place d e', same_node)
    ]

pub child-locate :
    (last : ℕ) (slot : List ℕ) (cs : Children) (child : RadixNode) (below : Children)
    → AreDistinct cs
    → get_child slot (children_at last cs) ≡ some (child, below)
    → (place : Place) × (locate child.id none cs ≡ some place) × (place.node ≡ child)
unfolding children_at get_child
child-locate last slot cs child below d h = elim (Bool-cases (last == root_id)) [
  | inl e ↦ get_child-locate slot none cs child below d (ground (arith, h, e))
  | inr e ↦ elim (Option-cases (locate last none cs)) [
    | inl missing ↦ ground (arith, h, e, missing)
    | inr (at, q) ↦ grandchild-locate last slot none cs at child below d q (ground (arith, h, e, q))
  ]
]
