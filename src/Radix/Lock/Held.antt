-- ===== src/Radix/Lock/Held.antt =====
-- What taking or releasing a lock does to the counts along one path.
use cs349d_miniengine_sk_nc.Common.{
  ℕ, suc, ◌+◌, ◌≤◌, ◌≡◌, refl, sym, ap, ◌∙◌, List, ◌∷◌, ◌++◌, Option, none, some, pos, ℤ, true,
  false, ◌==◌, if◌then◌else◌, count, arith, Bool-cases, Option-cases, inl, inr, subst,
}
use cs349d_miniengine_sk_nc.Radix.Node.{
  RadixNode, Children, empty, entry, ids_of, pages_of, get_child,
}
use cs349d_miniengine_sk_nc.Radix.WellFormed.{IsFit, IsWf}
use cs349d_miniengine_sk_nc.Radix.Lock.{on_path}
use cs349d_miniengine_sk_nc.Radix.Lock.Counts.{locks_on, LockedBy, locks_on-cons}
use cs349d_miniengine_sk_nc.Radix.Evict.Places.{AreDistinct, count_ids}

-- What both walks do to a node: another count, another time.
abbrev pub retouch : (ℤ → ℤ) → (ℕ → ℕ) → RadixNode → RadixNode
retouch f g node = record node { ref_count = f node.ref_count; last_access = g node.last_access }

-- A lock on a node that is not in the tree counts nowhere in it.
pub LockedBy_absent :
    (j : ℕ) (locks : List ℕ) (cs : Children)
    → count j (ids_of cs) ≡ 0
    → (LockedBy locks cs → LockedBy (j ∷ locks) cs) × (LockedBy (j ∷ locks) cs → LockedBy locks cs)
LockedBy_absent j locks empty z = (λ h. tt, λ h. tt)
LockedBy_absent j locks (entry slot node below rest) z =
    let b = LockedBy_absent j locks below (omega (arith, z, count_ids j slot node below rest)) in
    let r = LockedBy_absent j locks rest (omega (arith, z, count_ids j slot node below rest)) in
    let same : locks_on (j ∷ locks) (node.id ∷ ids_of below)
        ≡ locks_on locks (node.id ∷ ids_of below) =
      omega (
        arith,
        own,
        z,
        count_ids j slot node below rest,
        locks_on-cons j locks (node.id ∷ ids_of below),
      ) in
    (λ h. (h.0 ∙ ap pos (sym same), b.0 h.1, r.0 h.2), λ h. (h.0 ∙ ap pos same, b.1 h.1, r.1 h.2))
  where
    own :
        count j (node.id ∷ ids_of below) ≡ (if node.id == j then 1 else 0) + count j (ids_of below)
    own = unfold count in refl

module _ (f : ℤ → ℤ) (g : ℕ → ℕ) (i : ℕ) where
  abbrev step : Children → Option Children
  step = on_path (retouch f g) i

  -- The tree before and after a walk that found its node.
  pub data Stepped (slot : List ℕ) (node : RadixNode) (below rest after : Children) : Type 0 where
    here :
        (node.id == i) ≡ true
        → after ≡ entry slot (retouch f g node) below rest
        → Stepped slot node below rest after
    under :
        (below' : Children)
        → step below ≡ some below'
        → after ≡ entry slot (retouch f g node) below' rest
        → Stepped slot node below rest after
    beside :
        (rest' : Children)
        → (node.id == i) ≡ false
        → step below ≡ none
        → step rest ≡ some rest'
        → after ≡ entry slot node below rest'
        → Stepped slot node below rest after

  pub stepped :
      (slot : List ℕ) (node : RadixNode) (below rest after : Children)
      → step (entry slot node below rest) ≡ some after
      → Stepped slot node below rest after
  unfolding on_path
  stepped slot node below rest after h = elim (Bool-cases (node.id == i)) [
    | inl hit ↦ here hit (ground (arith, h))
    | inr miss ↦ elim (Option-cases (step below)) [
      | inr (below', q) ↦ under below' q (ground (arith, h))
      | inl q ↦ elim (Option-cases (step rest)) [
        | inr (rest', r) ↦ beside rest' miss q r (ground (arith, h))
        | inl r ↦ unfold on_path in ground (arith, h)
      ]
    ]
  ]

  pub step-ids : (cs after : Children) → step cs ≡ some after → ids_of after ≡ ids_of cs
  unfolding ids_of
  step-ids empty after h = unfold on_path in cc
  step-ids (entry slot node below rest) after h = elim (stepped slot node below rest after h) [
    | here hit e ↦ ap ids_of e
    | under below' q e ↦
        ap ids_of e ∙ ap (λ z. node.id ∷ (z ++ ids_of rest)) (step-ids below below' q)
    | beside rest' miss q r e ↦
        ap ids_of e ∙ ap (λ z. node.id ∷ (ids_of below ++ z)) (step-ids rest rest' r)
  ]

  pub step-pages : (cs after : Children) → step cs ≡ some after → pages_of after ≡ pages_of cs
  unfolding pages_of
  step-pages empty after h = unfold on_path in cc
  step-pages (entry slot node below rest) after h = elim (stepped slot node below rest after h) [
    | here hit e ↦ ap pages_of e
    | under below' q e ↦
        ap pages_of e ∙ ap (λ z. node.pages ++ (z ++ pages_of rest)) (step-pages below below' q)
    | beside rest' miss q r e ↦
        ap pages_of e ∙ ap (λ z. node.pages ++ (pages_of below ++ z)) (step-pages rest rest' r)
  ]

  pub step-some : (cs after : Children) → step cs ≡ some after → 1 ≤ count i (ids_of cs)
  step-some empty after h = unfold on_path in cc
  step-some (entry slot node below rest) after h = elim (stepped slot node below rest after h) [
    | here hit e ↦ ground (arith, hit, count_ids i slot node below rest)
    | under below' q e ↦ omega (arith, step-some below below' q, count_ids i slot node below rest)
    | beside rest' miss q r e ↦
        omega (arith, step-some rest rest' r, count_ids i slot node below rest)
  ]

  pub step-none : (cs : Children) → step cs ≡ none → count i (ids_of cs) ≡ 0
  unfolding on_path
  step-none empty h = unfold ids_of count in refl
  step-none (entry slot node below rest) h =
      ground (arith, count_ids i slot node below rest, step-none below, step-none rest)

  step-get_child :
      (s : List ℕ) (cs after : Children)
      → step cs ≡ some after
      → get_child s cs ≡ none
      → get_child s after ≡ none
  unfolding get_child
  step-get_child s empty after h e = unfold on_path in cc
  step-get_child s (entry slot node below rest) after h e =
      elim (stepped slot node below rest after h) [
        | here hit q ↦ ground (arith, e, q)
        | under below' r q ↦ ground (arith, e, q)
        | beside rest' miss r t q ↦ ground (arith, e, q, step-get_child s rest rest' t)
      ]

  retouch-IsFit :
      (p : ℕ) (slot : List ℕ) (node : RadixNode)
      → IsFit p slot node
      → IsFit p slot (retouch f g node)
  retouch-IsFit p slot node w = record {
    aligned = w.aligned;
    some_pages = w.some_pages;
    slotted = w.slotted;
  }

  pub step-IsWf : (p : ℕ) (cs after : Children) → step cs ≡ some after → IsWf p cs → IsWf p after
  step-IsWf p empty after h w = unfold on_path in cc
  step-IsWf p (entry slot node below rest) after h w = elim (stepped slot node below rest after h) [
    | here hit q ↦ subst (IsWf p) (sym q) (retouch-IsFit p slot node w.0, w.1, w.2, w.3)
    | under below' r q ↦
        subst (IsWf p) (sym q)
          (retouch-IsFit p slot node w.0, w.1, step-IsWf p below below' r w.2, w.3)
    | beside rest' miss r t q ↦
        subst (IsWf p) (sym q)
          (w.0, step-get_child slot rest rest' t w.1, w.2, step-IsWf p rest rest' t w.3)
  ]

-- What holding a node means for the locks on an entry.
module _ (i : ℕ) (locks : List ℕ) (slot : List ℕ) (node : RadixNode) (below rest : Children)
    (d : AreDistinct (entry slot node below rest)) where
  pub own :
      count i (node.id ∷ ids_of below) ≡ (if node.id == i then 1 else 0) + count i (ids_of below)
  own = unfold count in refl

  pub held_once :
      1 ≤ count i (node.id ∷ ids_of below)
      → locks_on (i ∷ locks) (node.id ∷ ids_of below)
        ≡ suc (locks_on locks (node.id ∷ ids_of below))
  held_once h = omega (
    arith,
    own,
    d i,
    count_ids i slot node below rest,
    locks_on-cons i locks (node.id ∷ ids_of below),
  )

  pub held_never :
      count i (node.id ∷ ids_of below) ≡ 0
      → locks_on (i ∷ locks) (node.id ∷ ids_of below) ≡ locks_on locks (node.id ∷ ids_of below)
  held_never h = omega (arith, h, locks_on-cons i locks (node.id ∷ ids_of below))

  pub counted_in : (node.id == i) ≡ true → count i (ids_of below) ≡ 0 × (count i (ids_of rest) ≡ 0)
  counted_in hit = (
    ground (arith, hit, d i, count_ids i slot node below rest),
    ground (arith, hit, d i, count_ids i slot node below rest),
  )
