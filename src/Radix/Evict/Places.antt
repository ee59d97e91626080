-- ===== src/Radix/Evict/Places.antt =====
-- Finding a node of the tree and taking a leaf out of it.
use cs349d_miniengine_sk_nc.Common.{
  ℕ, ◌+◌, ◌≤◌, ◌≡◌, refl, sym, ap, ◌∙◌, List, Option, none, some, true, false, ◌==◌, ==_iff,
  if◌then◌else◌, count, count-append, arith, Bool-cases, Option-cases, inl, inr,
}
use cs349d_miniengine_sk_nc.Radix.Node.{
  RadixNode, Children, empty, entry, has_none, ids_of, get_child,
}
use cs349d_miniengine_sk_nc.Radix.WellFormed.{IsFit, IsWf}
use cs349d_miniengine_sk_nc.Radix.Evict.{Place, locate, detach}

abbrev pub AreDistinct : Children → Type 0
AreDistinct cs = (i : ℕ) → count i (ids_of cs) ≤ 1

-- Nodes named `i` have no children.
abbrev pub LeafAt : ℕ → Children → Type 0
LeafAt i empty = Unit {0}
LeafAt i (entry slot node below rest) =
    ((node.id == i) ≡ true → below ≡ empty) × LeafAt i below × LeafAt i rest

abbrev pub on_children : (Children → Children) → Option Place → Option Place
on_children f none = none
on_children f (some place) = some (record place { children = f place.children })

-- The identities of an entry: its own, those below it and those of the later siblings.
pub count_ids :
    (i : ℕ) (slot : List ℕ) (node : RadixNode) (below rest : Children)
    → count i (ids_of (entry slot node below rest))
      ≡ (if node.id == i then 1 else 0) + (count i (ids_of below) + count i (ids_of rest))
unfolding ids_of count
count_ids i slot node below rest = omega (arith, count-append i (ids_of below) (ids_of rest))

pub locate-none :
    (i : ℕ) (up : Option RadixNode) (cs : Children)
    → count i (ids_of cs) ≡ 0
    → locate i up cs ≡ none
unfolding locate
locate-none i up empty h = refl
locate-none i up (entry slot node below rest) h = ground (
  arith,
  count_ids i slot node below rest,
  locate-none i (some node) below,
  locate-none i up rest,
)

pub locate_counts :
    (i : ℕ) (up : Option RadixNode) (cs : Children) (place : Place)
    → locate i up cs ≡ some place
    → (1 ≤ count i (ids_of cs)) × (place.node.id ≡ i)
unfolding locate
locate_counts i up empty place h = cc
locate_counts i up (entry slot node below rest) place h = ground (
  arith,
  count_ids i slot node below rest,
  locate_counts i (some node) below place,
  locate_counts i up rest place,
  ==_iff node.id i,
)

pub locate-IsFit :
    (p i : ℕ) (up : Option RadixNode) (cs : Children) (place : Place)
    → IsWf p cs
    → locate i up cs ≡ some place
    → IsFit p place.slot place.node
unfolding locate
locate-IsFit p i up empty place w h = cc
locate-IsFit p i up (entry slot node below rest) place w h =
    ground
      (arith, w.0, locate-IsFit p i (some node) below place w.2, locate-IsFit p i up rest place w.3)

pub count-detach : (i j : ℕ) (cs : Children) → count j (ids_of (detach i cs)) ≤ count j (ids_of cs)
unfolding detach
count-detach i j empty = omega arith
count-detach i j (entry slot node below rest) = ground (
  arith,
  count_ids j slot node below rest,
  count_ids j slot node (detach i below) (detach i rest),
  count-detach i j below,
  count-detach i j rest,
)

pub detach-AreDistinct : (i : ℕ) (cs : Children) → AreDistinct cs → AreDistinct (detach i cs)
detach-AreDistinct i cs d j = omega (arith, count-detach i j cs, d j)

pub locate-detach_self :
    (i : ℕ) (up : Option RadixNode) (cs : Children) → locate i up (detach i cs) ≡ none
unfolding locate detach
locate-detach_self i up empty = refl
locate-detach_self i up (entry slot node below rest) =
    ground (arith, locate-detach_self i (some node) below, locate-detach_self i up rest)

pub locate-detach :
    (i j : ℕ) (up : Option RadixNode) (cs : Children)
    → LeafAt i cs
    → (j == i) ≡ false
    → locate j up (detach i cs) ≡ on_children (detach i) (locate j up cs)
unfolding locate detach
locate-detach i j up empty l h = refl
locate-detach i j up (entry slot node below rest) l h = elim (Bool-cases (node.id == i)) [
  | inl hit ↦ ground (arith, l.0 hit, locate-detach i j up rest l.2 h)
  | inr miss ↦
      ground (arith, locate-detach i j (some node) below l.1 h, locate-detach i j up rest l.2 h)
]

get_child-detach :
    (s : List ℕ) (i : ℕ) (cs : Children) → get_child s cs ≡ none → get_child s (detach i cs) ≡ none
unfolding get_child detach
get_child-detach s i empty h = refl
get_child-detach s i (entry slot node below rest) h = ground (arith, get_child-detach s i rest)

pub detach-IsWf : (p i : ℕ) (cs : Children) → IsWf p cs → IsWf p (detach i cs)
unfolding detach
detach-IsWf p i empty w = tt
detach-IsWf p i (entry slot node below rest) w = elim (Bool-cases (node.id == i)) [
  | inl hit ↦ rw hit (detach-IsWf p i rest w.3)
  | inr miss ↦
      rw miss
        (w.0, get_child-detach slot i rest w.1, detach-IsWf p i below w.2, detach-IsWf p i rest w.3)
]

LeafAt-absent : (i : ℕ) (cs : Children) → count i (ids_of cs) ≡ 0 → LeafAt i cs
LeafAt-absent i empty h = tt
LeafAt-absent i (entry slot node below rest) h = (
  ground (arith, count_ids i slot node below rest),
  LeafAt-absent i below (ground (arith, count_ids i slot node below rest)),
  LeafAt-absent i rest (ground (arith, count_ids i slot node below rest)),
)

pub has_none→empty : (cs : Children) → has_none cs ≡ true → cs ≡ empty
has_none→empty empty h = refl
has_none→empty (entry slot node below rest) h = cc

pub locate-eq-none :
    (i : ℕ) (up : Option RadixNode) (cs : Children)
    → locate i up cs ≡ none
    → count i (ids_of cs) ≡ 0
unfolding locate count ids_of
locate-eq-none i up empty h = refl
locate-eq-none i up (entry slot node below rest) h = ground (
  arith,
  count-append i (ids_of below) (ids_of rest),
  locate-eq-none i (some node) below,
  locate-eq-none i up rest,
)

-- Where in an entry a node is found, when identities are distinct.
pub data Found (i : ℕ) (up : Option RadixNode) (slot : List ℕ) (node : RadixNode)
    (below rest : Children) (place : Place) : Type 0 where
  here :
      (node.id == i) ≡ true
      → place ≡ record { node = node; children = below; slot = slot; parent = up }
      → count i (ids_of below) ≡ 0
      → count i (ids_of rest) ≡ 0
      → Found i up slot node below rest place
  under :
      (node.id == i) ≡ false
      → locate i (some node) below ≡ some place
      → count i (ids_of rest) ≡ 0
      → Found i up slot node below rest place
  beside :
      (node.id == i) ≡ false
      → count i (ids_of below) ≡ 0
      → locate i up rest ≡ some place
      → Found i up slot node below rest place

module _ (i : ℕ) (up : Option RadixNode) (slot : List ℕ) (node : RadixNode) (below rest : Children)
    (place : Place) (d : AreDistinct (entry slot node below rest))
    (h : locate i up (entry slot node below rest) ≡ some place) where
  here_lem : (node.id == i) ≡ true → Found i up slot node below rest place
  unfolding locate
  here_lem e =
      here e (ground (arith, h)) (ground (arith, count_ids i slot node below rest, d i))
        (ground (arith, count_ids i slot node below rest, d i))

  pub found : Found i up slot node below rest place
  unfolding locate
  found = elim (Bool-cases (node.id == i)) [
    | inl e ↦ here_lem e
    | inr e ↦ elim (Option-cases (locate i (some node) below)) [
      | inl q ↦ beside e (locate-eq-none i (some node) below q) (ground (arith, h))
      | inr (pl, q) ↦ under e (ground (arith, h)) (
          omega (
            arith,
            count_ids i slot node below rest,
            d i,
            (locate_counts i (some node) below pl q).0,
          ))
    ]
  ]

pub AreDistinct-below :
    (slot : List ℕ) (node : RadixNode) (below rest : Children)
    → AreDistinct (entry slot node below rest)
    → AreDistinct below × AreDistinct rest
AreDistinct-below slot node below rest d = (
  λ i. omega (arith, count_ids i slot node below rest, d i),
  λ i. omega (arith, count_ids i slot node below rest, d i),
)

-- With distinct identities the place that is found is the only one.
pub locate-LeafAt :
    (i : ℕ) (up : Option RadixNode) (cs : Children) (place : Place)
    → AreDistinct cs
    → locate i up cs ≡ some place
    → has_none place.children ≡ true
    → LeafAt i cs
locate-LeafAt i up empty place d h e = tt
locate-LeafAt i up (entry slot node below rest) place d h e =
    let parts = AreDistinct-below slot node below rest d in
    elim (found i up slot node below rest place d h) [
      | here hit q zb zr ↦ (
        λ _. has_none→empty below (ap (λ (z : Place). has_none z.children) (sym q) ∙ e),
        LeafAt-absent i below zb,
        LeafAt-absent i rest zr,
      )
      | under miss q zr ↦
          (λ hit. cc, locate-LeafAt i (some node) below place parts.0 q e, LeafAt-absent i rest zr)
      | beside miss zb q ↦
          (λ hit. cc, LeafAt-absent i below zb, locate-LeafAt i up rest place parts.1 q e)
    ]

pub detach_absent : (i : ℕ) (cs : Children) → count i (ids_of cs) ≡ 0 → detach i cs ≡ cs
unfolding detach
detach_absent i empty h = refl
detach_absent i (entry slot node below rest) h =
    ground (arith, count_ids i slot node below rest, detach_absent i below, detach_absent i rest)

-- What an additive measure of trees, such as the pages or the identities, loses with a leaf.
module _ (measure : Children → ℕ) (own : RadixNode → ℕ) (nothing : measure empty ≡ 0)
    (sums : (slot : List ℕ) (node : RadixNode) (below rest : Children)
      → measure (entry slot node below rest) ≡ own node + (measure below + measure rest)) where
  pub measure-detach :
      (i : ℕ) (up : Option RadixNode) (cs : Children) (place : Place)
      → AreDistinct cs
      → locate i up cs ≡ some place
      → has_none place.children ≡ true
      → measure (detach i cs) + own place.node ≡ measure cs
  unfolding detach
  measure-detach i up empty place d h e = unfold locate in cc
  measure-detach i up (entry slot node below rest) place d h e =
      let parts = AreDistinct-below slot node below rest d in
      elim (found i up slot node below rest place d h) [
        | here hit q zb zr ↦
            let none_below : below ≡ empty =
              has_none→empty below (ap (λ (z : Place). has_none z.children) (sym q) ∙ e) in
            rw hit (
              omega (
                arith,
                ap measure (detach_absent i rest zr),
                sums slot node below rest,
                ap measure none_below,
                nothing,
                ap (λ (z : Place). own z.node) q,
              ))
        | under miss q zr ↦ rw miss (
            omega (
              arith,
              ap measure (detach_absent i rest zr),
              sums slot node below rest,
              sums slot node (detach i below) (detach i rest),
              measure-detach i (some node) below place parts.0 q e,
            ))
        | beside miss zb q ↦ rw miss (
            omega (
              arith,
              ap measure (detach_absent i below zb),
              sums slot node below rest,
              sums slot node (detach i below) (detach i rest),
              measure-detach i up rest place parts.1 q e,
            ))
      ]
