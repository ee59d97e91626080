-- ===== src/Radix/Insert/Placed.antt =====
-- A child put among others: the identities and the locks that count there.
use cs349d_miniengine_sk_nc.Common.{
  ℕ, ◌+◌, ◌≡◌, ap, ◌∙◌, List, Option, subst, ◌∷◌, none, some, pos, true, count, arith, Bool-cases,
  inl, inr, ◌=ₗ◌, ◌==◌, if◌then◌else◌,
}
use cs349d_miniengine_sk_nc.Radix.Node.{
  RadixNode, Children, empty, entry, ids_of, get_child, put_child,
}
use cs349d_miniengine_sk_nc.Radix.Lock.Counts.{LockedBy, locks_on, locks_on-append}
use cs349d_miniengine_sk_nc.Radix.Evict.Places.{count_ids}
use cs349d_miniengine_sk_nc.Radix.Lock.Held.{own}

-- The identities below an entry and in it.
abbrev pub inside : RadixNode → Children → List ℕ
inside node below = node.id ∷ ids_of below

pub locks_on_ids :
    (locks : List ℕ) (slot : List ℕ) (node : RadixNode) (below rest : Children)
    → locks_on locks (ids_of (entry slot node below rest))
      ≡ locks_on locks (inside node below) + locks_on locks (ids_of rest)
unfolding ids_of locks_on
locks_on_ids locks slot node below rest =
    omega (arith, locks_on-append locks (ids_of below) (ids_of rest))

pub count_inside :
    (j : ℕ) (slot : List ℕ) (node : RadixNode) (below rest : Children)
    → count j (ids_of (entry slot node below rest))
      ≡ count j (inside node below) + count j (ids_of rest)
unfolding count
count_inside j slot node below rest = omega (arith, count_ids j slot node below rest)

hit_child :
    (s slot : List ℕ) (n : RadixNode) (deeper rest : Children) (node : RadixNode) (below : Children)
    → (slot =ₗ s) ≡ true
    → get_child s (entry slot n deeper rest) ≡ some (node, below)
    → ◌≡◌ {A = RadixNode × Children} (n, deeper) (node, below)
unfolding get_child
hit_child s slot n deeper rest node below hit e =
    let q : ◌≡◌ {A = Option (RadixNode × Children)} (some (n, deeper)) (some (node, below)) =
      ground (arith, e, hit) in
    cc

pub get_child-LockedBy :
    (locks s : List ℕ) (cs : Children) (node : RadixNode) (below : Children)
    → get_child s cs ≡ some (node, below)
    → LockedBy locks cs
    → (node.ref_count ≡ pos (locks_on locks (inside node below))) × LockedBy locks below
unfolding get_child
get_child-LockedBy locks s empty node below e k = cc
get_child-LockedBy locks s (entry slot n deeper rest) node below e k =
    elim (Bool-cases (slot =ₗ s)) [
      | inl hit ↦
          subst
            (λ (x : RadixNode × Children).
              (x.0.ref_count ≡ pos (locks_on locks (inside x.0 x.1))) × LockedBy locks x.1)
            (hit_child s slot n deeper rest node below hit e) (k.0, k.1)
      | inr miss ↦ get_child-LockedBy locks s rest node below (ground (arith, e, miss)) k.2
    ]

-- A child put in the place of another.
pub count-put_child :
    (j : ℕ) (s : List ℕ) (cs : Children) (n : RadixNode) (sub : Children) (node : RadixNode)
    (below : Children)
    → get_child s cs ≡ some (node, below)
    → count j (ids_of (put_child s n sub cs)) + count j (inside node below)
      ≡ count j (ids_of cs) + count j (inside n sub)
unfolding get_child put_child
count-put_child j s empty n sub node below e = cc
count-put_child j s (entry slot m deeper rest) n sub node below e = elim (Bool-cases (slot =ₗ s)) [
  | inl hit ↦ rw hit (
      omega (
        arith,
        count_inside j slot n sub rest,
        count_inside j slot m deeper rest,
        ap (λ (x : RadixNode × Children). count j (inside x.0 x.1))
            (hit_child s slot m deeper rest node below hit e),
      ))
  | inr miss ↦ rw miss (
      omega (
        arith,
        count_inside j slot m deeper (put_child s n sub rest),
        count_inside j slot m deeper rest,
        count-put_child j s rest n sub node below (ground (arith, e, miss)),
      ))
]

-- As many locks count at the child as counted at the one that it replaces.
pub put_child-LockedBy :
    (locks s : List ℕ) (cs : Children) (n : RadixNode) (sub : Children) (node : RadixNode)
    (below : Children)
    → get_child s cs ≡ some (node, below)
    → LockedBy locks cs
    → n.ref_count ≡ pos (locks_on locks (inside n sub))
    → LockedBy locks sub
    → locks_on locks (inside n sub) ≡ locks_on locks (inside node below)
    → LockedBy locks (put_child s n sub cs)
      × (locks_on locks (ids_of (put_child s n sub cs)) ≡ locks_on locks (ids_of cs))
unfolding get_child put_child
put_child-LockedBy locks s empty n sub node below e k own k' same = cc
put_child-LockedBy locks s (entry slot m deeper rest) n sub node below e k own k' same =
    elim (Bool-cases (slot =ₗ s)) [
      | inl hit ↦ rw hit (
        (own, k', k.2),
        omega (
          arith,
          locks_on_ids locks slot n sub rest,
          locks_on_ids locks slot m deeper rest,
          same,
          ap (λ (x : RadixNode × Children). locks_on locks (inside x.0 x.1))
              (hit_child s slot m deeper rest node below hit e),
        ),
      )
      | inr miss ↦
          let (kept, sums) =
            put_child-LockedBy locks s rest n sub node below (ground (arith, e, miss)) k.2 own k'
              same in
          rw miss (
            (k.0, k.1, kept),
            omega (
              arith,
              locks_on_ids locks slot m deeper (put_child s n sub rest),
              locks_on_ids locks slot m deeper rest,
              sums,
            ),
          )
    ]

-- A new child on which no lock is.
pub new_child-LockedBy :
    (locks s : List ℕ) (cs : Children) (n : RadixNode)
    → get_child s cs ≡ none
    → LockedBy locks cs
    → n.ref_count ≡ pos 0
    → count n.id locks ≡ 0
    → LockedBy locks (put_child s n empty cs)
      × (locks_on locks (ids_of (put_child s n empty cs)) ≡ locks_on locks (ids_of cs))
unfolding get_child put_child ids_of locks_on
new_child-LockedBy locks s empty n e k zero_refs unheld =
    ((zero_refs ∙ ap pos (omega (arith, unheld)), tt, tt), omega (arith, unheld))
new_child-LockedBy locks s (entry slot m deeper rest) n e k zero_refs unheld =
    elim (Bool-cases (slot =ₗ s)) [
      | inl hit ↦ absurd (ground (arith, e, hit))
      | inr miss ↦
          let (kept, sums) =
            new_child-LockedBy locks s rest n (ground (arith, e, miss)) k.2 zero_refs unheld in
          rw miss (
            (k.0, k.1, kept),
            omega (
              arith,
              locks_on_ids locks slot m deeper (put_child s n empty rest),
              locks_on_ids locks slot m deeper rest,
              sums,
            ),
          )
    ]

pub count-new_child :
    (j : ℕ) (s : List ℕ) (cs : Children) (n : RadixNode)
    → get_child s cs ≡ none
    → count j (ids_of (put_child s n empty cs)) ≡ count j (ids_of cs) + (if n.id == j then 1 else 0)
unfolding get_child put_child ids_of count
count-new_child j s empty n e = ground arith
count-new_child j s (entry slot m deeper rest) n e = elim (Bool-cases (slot =ₗ s)) [
  | inl hit ↦ absurd (ground (arith, e, hit))
  | inr miss ↦ rw miss (
      omega (
        arith,
        count_inside j slot m deeper (put_child s n empty rest),
        count_inside j slot m deeper rest,
        count-new_child j s rest n (ground (arith, e, miss)),
      ))
]
