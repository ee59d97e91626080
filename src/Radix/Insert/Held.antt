-- ===== src/Radix/Insert/Held.antt =====
-- What an insertion does to the identities in the tree, to the locks and to the assertions.
use cs349d_miniengine_sk_nc.Common.{
  ℕ, suc, ◌+◌, ◌<◌, ◌≤◌, ◌≡◌, refl, sym, ap, ◌∙◌, List, subst, [], none, some, pos, true, count,
  arith, Bool-cases, inl, inr, ◌==◌, ==_iff, if◌then◌else◌,
}
use cs349d_miniengine_sk_nc.Radix.Node.{RadixNode, Children, empty, ids_of, get_child}
use cs349d_miniengine_sk_nc.Radix.Insert.{
  Grown, make_child, below_node, split_upper, split_children, split_lower, asserted, splits_at,
  new_node,
}
use cs349d_miniengine_sk_nc.Radix.Insert.Steps.{touched}
use cs349d_miniengine_sk_nc.Radix.Lock.Counts.{LockedBy, locks_on}
use cs349d_miniengine_sk_nc.Radix.Lock.Held.{own}
use cs349d_miniengine_sk_nc.Radix.Keys.{child_key}
use cs349d_miniengine_sk_nc.Radix.Insert.Placed.{
  inside, locks_on_ids, count_inside, get_child-LockedBy, count-put_child, put_child-LockedBy,
  new_child-LockedBy, count-new_child,
}

-- The locks are on nodes made before the identity `fresh` was free.
abbrev pub IsOlder : ℕ → List ℕ → Type 0
IsOlder fresh locks = (j : ℕ) → fresh ≤ j → count j locks ≡ 0

-- New nodes get identities from `fresh` on, each once; locks go on counting where they did.
pub record Held (fresh : ℕ) (cs : Children) (g : Grown) : Type 0 where
  pub sound : g.sound ≡ true
  pub later : fresh ≤ g.next_id
  pub kept : (j : ℕ) → count j (ids_of cs) ≤ count j (ids_of g.children)
  pub once : (j : ℕ) → count j (ids_of g.children) ≤ suc (count j (ids_of cs))
  pub before : (j : ℕ) → j < fresh → count j (ids_of g.children) ≡ count j (ids_of cs)
  pub after : (j : ℕ) → g.next_id ≤ j → count j (ids_of g.children) ≡ count j (ids_of cs)
  pub locked :
      (locks : List ℕ)
      → IsOlder fresh locks
      → LockedBy locks cs
      → LockedBy locks g.children
        × (locks_on locks (ids_of g.children) ≡ locks_on locks (ids_of cs))

pub same-Held :
    (fresh : ℕ) (cs : Children) (g : Grown)
    → g.sound ≡ true
    → g.next_id ≡ fresh
    → g.children ≡ cs
    → Held fresh cs g
same-Held fresh cs g sound next same =
    let ids : (j : ℕ) → count j (ids_of g.children) ≡ count j (ids_of cs) =
      λ j. ap (λ z. count j (ids_of z)) same in
    record {
      sound = sound;
      later = omega (arith, next);
      kept = λ j. omega (arith, ids j);
      once = λ j. omega (arith, ids j);
      before = λ j h. ids j;
      after = λ j h. ids j;
      locked = λ locks o k.
          (subst (LockedBy locks) (sym same) k, ap (λ z. locks_on locks (ids_of z)) same);
    }

pub leaf-Held :
    (made fresh : ℕ) (slot key pages : List ℕ) (cs : Children)
    → get_child slot cs ≡ none
    → Held fresh cs (make_child made fresh slot key pages cs)
unfolding make_child
leaf-Held made fresh slot key pages cs e =
    let ids = λ (j : ℕ). count-new_child j slot cs (new_node fresh made key pages) e in
    record {
      sound = refl;
      later = omega arith;
      kept = λ j. omega (arith, ids j);
      once = λ j. ground (arith, ids j);
      before = λ j h. ground (arith, ids j, h, ==_iff fresh j);
      after = λ j h. ground (arith, ids j, h, ==_iff fresh j);
      locked = λ locks o k.
          new_child-LockedBy locks slot cs (new_node fresh made key pages) e k refl
            (o fresh (omega arith));
    }

pub whole-Held :
    (now fresh : ℕ) (slot : List ℕ) (node : RadixNode) (below cs : Children) (redundant : List ℕ)
    (g : Grown)
    → get_child slot cs ≡ some (node, below)
    → Held fresh below g
    → Held fresh cs (below_node slot (touched now node) cs redundant g)
unfolding below_node
whole-Held now fresh slot node below cs redundant g e h =
    let ids = λ (j : ℕ). count-put_child j slot cs (touched now node) g.children node below e in
    record {
      sound = h.sound;
      later = h.later;
      kept = λ j. unfold count in omega (arith, ids j, h.kept j);
      once = λ j. unfold count in omega (arith, ids j, h.once j);
      before = λ j q. unfold count in omega (arith, ids j, h.before j q);
      after = λ j q. unfold count in omega (arith, ids j, h.after j q);
      locked = λ locks o k.
          let (own, k') = get_child-LockedBy locks slot cs node below e k in
          let (deep, sums) = h.locked locks o k' in
          let same : locks_on locks (inside (touched now node) g.children)
              ≡ locks_on locks (inside node below) =
            unfold locks_on in omega (arith, sums) in
          put_child-LockedBy locks slot cs (touched now node) g.children node below e k
            (own ∙ ap pos (sym same)) deep same;
    }

pub split-Held :
    (p now fresh split_at : ℕ) (slot : List ℕ) (node : RadixNode) (below cs : Children) (g : Grown)
    → get_child slot cs ≡ some (node, below)
    → splits_at p split_at (touched now node) ≡ true
    → Held (suc fresh) (split_children p split_at (touched now node) below) g
    → Held fresh cs (
        asserted
          (splits_at p split_at (touched now node))
          (below_node slot (split_upper p fresh split_at (touched now node)) cs [] g))
unfolding below_node asserted
split-Held p now fresh split_at slot node below cs g e holds h =
    let upper = split_upper p fresh split_at (touched now node) in
    let ids = λ (j : ℕ). count-put_child j slot cs upper g.children node below e in
    let mine : (j : ℕ)
        → count j (inside upper g.children)
          ≡ (if fresh == j then 1 else 0) + count j (ids_of g.children) =
      count_upper in
    let inner : (j : ℕ)
        → count j (ids_of (split_children p split_at (touched now node) below))
          ≡ count j (inside node below) =
      count_lower in
    record {
      sound = rw holds h.sound;
      later = omega (arith, h.later);
      kept = λ j. ground (arith, ids j, mine j, inner j, h.kept j);
      once = λ j. elim (Bool-cases (fresh == j)) [
        | inl new ↦
            ground
              (arith, ids j, mine j, inner j, new, h.before j (ground (arith, new, ==_iff fresh j)))
        | inr old ↦ ground (arith, ids j, mine j, inner j, old, h.once j)
      ];
      before = λ j q.
          ground (arith, ids j, mine j, inner j, h.before j (omega (arith, q)), ==_iff fresh j);
      after = λ j q. ground (arith, ids j, mine j, inner j, h.after j q, h.later, ==_iff fresh j);
      locked = λ locks o k.
          let (own, k') = get_child-LockedBy locks slot cs node below e k in
          let (deep, sums) =
            h.locked locks (λ j q. o j (omega (arith, q))) (lower-LockedBy locks own k') in
          let same : locks_on locks (inside upper g.children) ≡ locks_on locks (inside node below) =
            locks_upper locks (o fresh (omega arith)) sums in
          put_child-LockedBy locks slot cs upper g.children node below e k
            (own_upper ∙ own ∙ ap pos (sym same)) deep same;
    }
  where
    count_upper :
        (j : ℕ)
        → count j (inside (split_upper p fresh split_at (touched now node)) g.children)
          ≡ (if fresh == j then 1 else 0) + count j (ids_of g.children)
    count_upper j = unfold count split_upper in refl

    count_lower :
        (j : ℕ)
        → count j (ids_of (split_children p split_at (touched now node) below))
          ≡ count j (inside node below)
    count_lower j =
        unfold split_children split_lower ids_of count in
        omega (
          arith,
          count_inside j (child_key (split_lower p split_at (touched now node)).key p)
              (split_lower p split_at (touched now node)) below empty,
        )

    own_upper : (split_upper p fresh split_at (touched now node)).ref_count ≡ node.ref_count
    own_upper = unfold split_upper in refl

    lower-LockedBy :
        (locks : List ℕ)
        → node.ref_count ≡ pos (locks_on locks (inside node below))
        → LockedBy locks below
        → LockedBy locks (split_children p split_at (touched now node) below)
    lower-LockedBy locks own k = unfold split_children split_lower in (own, k, tt)

    locks_upper :
        (locks : List ℕ)
        → count fresh locks ≡ 0
        → locks_on locks (ids_of g.children)
          ≡ locks_on locks (ids_of (split_children p split_at (touched now node) below))
        → locks_on locks (inside (split_upper p fresh split_at (touched now node)) g.children)
          ≡ locks_on locks (inside node below)
    locks_upper locks z sums =
        unfold split_upper split_children split_lower ids_of locks_on in
        omega (
          arith,
          z,
          sums,
          locks_on_ids locks (child_key (split_lower p split_at (touched now node)).key p)
              (split_lower p split_at (touched now node)) below empty,
        )
