-- ===== src/Radix/Evict/Leaves.antt =====
-- Which nodes are evictable leaves, before and after a leaf is taken out.
use cs349d_miniengine_sk_nc.Common.{
  ℕ, ◌+◌, ◌≡◌, refl, sym, ap, ◌∙◌, List, [], ◌∷◌, ◌++◌, Option, none, some, Bool, true, false, ◌==◌,
  if◌then◌else◌, count, count-append, arith, Bool-cases, inl, inr, is_zero, ◌&&◌,
}
use cs349d_miniengine_sk_nc.Radix.Node.{RadixNode, Children, empty, entry, has_none, ids_of}
use cs349d_miniengine_sk_nc.Radix.Evict.{Place, locate, detach, evictable_leaves}
use cs349d_miniengine_sk_nc.Radix.Evict.Places.{
  AreDistinct, here, under, beside, found, AreDistinct-below, count_ids, locate-none, locate_counts,
}

abbrev pub node_ids : List RadixNode → List ℕ
node_ids [] = []
node_ids (n ∷ ns) = n.id ∷ node_ids ns

abbrev pub goes : Place → Bool
goes place = has_none place.children && is_zero place.node.ref_count

node_ids-append : (xs ys : List RadixNode) → node_ids (xs ++ ys) ≡ node_ids xs ++ node_ids ys
node_ids-append [] ys = refl
node_ids-append (x ∷ xs) ys = ap (◌∷◌ x.id) (node_ids-append xs ys)

count_leaves :
    (i : ℕ) (slot : List ℕ) (node : RadixNode) (below rest : Children)
    → count i (node_ids (evictable_leaves (entry slot node below rest)))
      ≡ (if has_none below && is_zero node.ref_count then (if node.id == i then 1 else 0) else 0)
        + (count i (node_ids (evictable_leaves below)) + count i (node_ids (evictable_leaves rest)))
unfolding evictable_leaves count
count_leaves i slot node below rest = ground (
  arith,
  ap (count i) (node_ids-append (evictable_leaves below) (evictable_leaves rest)),
  count-append i (node_ids (evictable_leaves below)) (node_ids (evictable_leaves rest)),
)

pub leaves_absent :
    (i : ℕ) (cs : Children) → count i (ids_of cs) ≡ 0 → count i (node_ids (evictable_leaves cs)) ≡ 0
leaves_absent i empty h = unfold evictable_leaves count in refl
leaves_absent i (entry slot node below rest) h = ground (
  arith,
  count_leaves i slot node below rest,
  count_ids i slot node below rest,
  leaves_absent i below,
  leaves_absent i rest,
)

-- With distinct identities, a node that is found is among the leaves exactly if it may go.
pub leaves-located :
    (i : ℕ) (up : Option RadixNode) (cs : Children) (place : Place)
    → AreDistinct cs
    → locate i up cs ≡ some place
    → count i (node_ids (evictable_leaves cs)) ≡ (if goes place then 1 else 0)
leaves-located i up empty place d h = unfold locate in cc
leaves-located i up (entry slot node below rest) place d h =
    let parts = AreDistinct-below slot node below rest d in
    elim (found i up slot node below rest place d h) [
      | here hit q zb zr ↦ ground (
        arith,
        hit,
        q,
        count_leaves i slot node below rest,
        leaves_absent i below zb,
        leaves_absent i rest zr,
      )
      | under miss q zr ↦ ground (
        arith,
        count_leaves i slot node below rest,
        leaves_absent i rest zr,
        leaves-located i (some node) below place parts.0 q,
      )
      | beside miss zb q ↦ ground (
        arith,
        count_leaves i slot node below rest,
        leaves_absent i below zb,
        leaves-located i up rest place parts.1 q,
      )
    ]

-- A node that becomes a leaf when `i` is taken out is the parent of `i`.
pub record Orphaned (i : ℕ) (up : Option RadixNode) (cs : Children) (parent : RadixNode)
    : Type 0 where
  pub place : Place
  pub found_at : locate i up cs ≡ some place
  pub under_parent : place.parent ≡ some parent

first_child :
    (i : ℕ) (up : RadixNode) (cs : Children)
    → has_none cs ≡ false
    → has_none (detach i cs) ≡ true
    → Orphaned i (some up) cs up
unfolding detach locate
first_child i up empty h e = cc
first_child i up (entry slot node below rest) h e = elim (Bool-cases (node.id == i)) [
  | inl hit ↦ record {
    place = record { node = node; children = below; slot = slot; parent = some up };
    found_at = rw hit refl;
    under_parent = refl;
  }
  | inr miss ↦ ground arith
]

module _ (i : ℕ) (up : Option RadixNode) (slot : List ℕ) (node : RadixNode) (below rest : Children)
    (d : AreDistinct (entry slot node below rest)) where
  locate_under :
      (place : Place)
      → locate i (some node) below ≡ some place
      → locate i up (entry slot node below rest) ≡ some place
  locate_under place e =
      unfold locate in
      ground
        (arith, count_ids i slot node below rest, d i, locate_counts i (some node) below place e)

  locate_beside :
      (place : Place)
      → locate i up rest ≡ some place
      → locate i up (entry slot node below rest) ≡ some place
  locate_beside place e =
      let counted = locate_counts i up rest place e in
      let absent : locate i (some node) below ≡ none =
        locate-none i (some node) below
          (omega (arith, count_ids i slot node below rest, d i, counted.0)) in
      unfold locate in ground (arith, count_ids i slot node below rest, d i, counted, absent)

pub becomes_leaf :
    (i j : ℕ) (up : Option RadixNode) (cs : Children) (place : Place)
    → AreDistinct cs
    → (j == i) ≡ false
    → locate j up cs ≡ some place
    → has_none place.children ≡ false
    → has_none (detach i place.children) ≡ true
    → Orphaned i up cs place.node
becomes_leaf i j up empty place d ne h old new = unfold locate in cc
becomes_leaf i j up (entry slot node below rest) place d ne h old new =
    let parts = AreDistinct-below slot node below rest d in
    elim (found j up slot node below rest place d h) [
      | here hit q zb zr ↦
          let o =
            first_child i node below (ap (λ (z : Place). has_none z.children) (sym q) ∙ old)
              (ap (λ (z : Place). has_none (detach i z.children)) (sym q) ∙ new) in
          record {
            place = o.place;
            found_at = locate_under i up slot node below rest d o.place o.found_at;
            under_parent = o.under_parent ∙ ap (λ (z : Place). some z.node) (sym q);
          }
      | under miss q zr ↦
          let o = becomes_leaf i j (some node) below place parts.0 ne q old new in
          record {
            place = o.place;
            found_at = locate_under i up slot node below rest d o.place o.found_at;
            under_parent = o.under_parent;
          }
      | beside miss zb q ↦
          let o = becomes_leaf i j up rest place parts.1 ne q old new in
          record {
            place = o.place;
            found_at = locate_beside i up slot node below rest d o.place o.found_at;
            under_parent = o.under_parent;
          }
    ]
