-- ===== src/Radix/Evict/Guarded.antt =====
-- Locks are taken on whole paths, so an unlocked node has no locked node below it; then a tree
-- without an evictable leaf has no evictable page.
use cs349d_miniengine_sk_nc.Common.{
  ℕ, ◌≡◌, refl, List, [], ◌∷◌, ◌++◌, Bool, true, ◌==◌, arith, Bool-cases, inl, inr, is_zero, Option,
  false, is_pos, some,
}
use cs349d_miniengine_sk_nc.Radix.Node.{Children, empty, entry, has_none, RadixNode}
use cs349d_miniengine_sk_nc.Radix.Evict.{detach, evictable_leaves, count_pages, Place, locate}

abbrev pub AllUnlocked : Children → Type 0
AllUnlocked empty = Unit {0}
AllUnlocked (entry slot node below rest) =
    (is_zero node.ref_count ≡ true) × AllUnlocked below × AllUnlocked rest

abbrev pub IsGuarded : Children → Type 0
IsGuarded empty = Unit {0}
IsGuarded (entry slot node below rest) =
    (is_zero node.ref_count ≡ true → AllUnlocked below) × IsGuarded below × IsGuarded rest

-- No reference count is below zero: a node that is not locked may go.
abbrev pub IsSettled : Children → Type 0
IsSettled empty = Unit {0}
IsSettled (entry slot node below rest) =
    (is_pos node.ref_count ≡ false → is_zero node.ref_count ≡ true)
    × IsSettled below
    × IsSettled rest

pub IsSettled-detach : (i : ℕ) (cs : Children) → IsSettled cs → IsSettled (detach i cs)
unfolding detach
IsSettled-detach i empty h = tt
IsSettled-detach i (entry slot node below rest) h = elim (Bool-cases (node.id == i)) [
  | inl hit ↦ rw hit (IsSettled-detach i rest h.2)
  | inr miss ↦ rw miss (h.0, IsSettled-detach i below h.1, IsSettled-detach i rest h.2)
]

pub locate-IsSettled :
    (i : ℕ) (up : Option RadixNode) (cs : Children) (place : Place)
    → IsSettled cs
    → locate i up cs ≡ some place
    → is_pos place.node.ref_count ≡ false
    → is_zero place.node.ref_count ≡ true
unfolding locate
locate-IsSettled i up empty place s h e = cc
locate-IsSettled i up (entry slot node below rest) place s h e = ground (
  arith,
  s.0,
  locate-IsSettled i (some node) below place s.1,
  locate-IsSettled i up rest place s.2,
)

AllUnlocked-detach : (i : ℕ) (cs : Children) → AllUnlocked cs → AllUnlocked (detach i cs)
unfolding detach
AllUnlocked-detach i empty h = tt
AllUnlocked-detach i (entry slot node below rest) h = elim (Bool-cases (node.id == i)) [
  | inl hit ↦ rw hit (AllUnlocked-detach i rest h.2)
  | inr miss ↦ rw miss (h.0, AllUnlocked-detach i below h.1, AllUnlocked-detach i rest h.2)
]

pub IsGuarded-detach : (i : ℕ) (cs : Children) → IsGuarded cs → IsGuarded (detach i cs)
unfolding detach
IsGuarded-detach i empty h = tt
IsGuarded-detach i (entry slot node below rest) h = elim (Bool-cases (node.id == i)) [
  | inl hit ↦ rw hit (IsGuarded-detach i rest h.2)
  | inr miss ↦ rw miss (
    (λ z. AllUnlocked-detach i below (h.0 z)),
    IsGuarded-detach i below h.1,
    IsGuarded-detach i rest h.2,
  )
]

append_nil_parts : {A : Type 0} (xs ys : List A) → xs ++ ys ≡ [] → (xs ≡ []) × (ys ≡ [])
append_nil_parts [] ys h = (refl, h)
append_nil_parts (x ∷ xs) ys h = cc

-- An unlocked tree that is not empty has an evictable leaf.
unlocked_leaf : (cs : Children) → AllUnlocked cs → evictable_leaves cs ≡ [] → has_none cs ≡ true
unfolding evictable_leaves
unlocked_leaf empty h e = refl
unlocked_leaf (entry slot node below rest) h e = elim (Bool-cases (has_none below)) [
  | inl leaf ↦ ground (arith, h.0, leaf, e)
  | inr more ↦
      let (nb, nr) =
        append_nil_parts (evictable_leaves below) (evictable_leaves rest)
          (ground (arith, e, more)) in
      let bare = unlocked_leaf below h.1 nb in cc
]

pub no_leaf_no_page :
    (cs : Children) → IsGuarded cs → evictable_leaves cs ≡ [] → count_pages Bool.false cs ≡ 0
unfolding evictable_leaves count_pages
no_leaf_no_page empty h e = refl
no_leaf_no_page (entry slot node below rest) h e = elim (Bool-cases (is_zero node.ref_count)) [
  | inl unlocked ↦ elim (Bool-cases (has_none below)) [
    | inl leaf ↦ ground (arith, unlocked, leaf, e)
    | inr more ↦
        let (nb, nr) =
          append_nil_parts (evictable_leaves below) (evictable_leaves rest)
            (ground (arith, e, more)) in
        let bare = unlocked_leaf below (h.0 unlocked) nb in cc
  ]
  | inr locked ↦
      let (nb, nr) =
        append_nil_parts (evictable_leaves below) (evictable_leaves rest)
          (ground (arith, e, locked)) in
      ground (arith, locked, no_leaf_no_page below h.1 nb, no_leaf_no_page rest h.2 nr)
]
