-- ===== src/Radix/Match/Locks.antt =====
-- A lookup changes no identity, no page and no reference count.
use cs349d_miniengine_sk_nc.Common.{
  ℕ, zero, suc, ◌≡◌, refl, sym, ap, ◌∙◌, List, ◌∷◌, ◌++◌, Option, some, ◌=ₗ◌, ◌==◌, ltb, is_empty,
  length, arith, Bool-cases, Option-cases, inl, inr, pos, take, subst,
}
use mathlib.Core.Path.{ap₂}
use cs349d_miniengine_sk_nc.Radix.Node.{
  RadixNode, Children, empty, entry, get_child, put_child, ids_of, pages_of,
}
use cs349d_miniengine_sk_nc.Radix.Keys.{child_key, match_keys, page_align_len}
use cs349d_miniengine_sk_nc.Radix.Cache.{RadixCache, root_id}
use cs349d_miniengine_sk_nc.Radix.Match.{Walk, walk, partial, whole, match_prefix}
use cs349d_miniengine_sk_nc.Radix.Lock.Counts.{LockedBy, locks_on}

pub record Touched (cs cs' : Children) : Type 0 where
  pub ids : ids_of cs' ≡ ids_of cs
  pub pages : pages_of cs' ≡ pages_of cs
  pub counts : (locks : List ℕ) → LockedBy locks cs → LockedBy locks cs'

pub Touched-refl : (cs : Children) → Touched cs cs
Touched-refl cs = record { ids = refl; pages = refl; counts = λ locks h. h }

-- The same node with its subtrees touched.
pub Touched-entry :
    (slot : List ℕ) (n n' : RadixNode) (below below' rest rest' : Children)
    → n'.id ≡ n.id
    → n'.pages ≡ n.pages
    → n'.ref_count ≡ n.ref_count
    → Touched below below'
    → Touched rest rest'
    → Touched (entry slot n below rest) (entry slot n' below' rest')
unfolding ids_of pages_of
Touched-entry slot n n' below below' rest rest' i p r t u = record {
  ids = ap₂ ◌∷◌ i (ap₂ ◌++◌ t.ids u.ids);
  pages = ap₂ ◌++◌ p (ap₂ ◌++◌ t.pages u.pages);
  counts = λ locks k. (
    r ∙ k.0 ∙ ap₂ (λ a b. pos (locks_on locks (a ∷ b))) (sym i) (sym t.ids),
    t.counts locks k.1,
    u.counts locks k.2,
  );
}

-- A node that is put back with the same identity, pages and count.
pub put_child-Touched :
    (s : List ℕ) (n n' : RadixNode) (below below' cs : Children)
    → get_child s cs ≡ some (n, below)
    → n'.id ≡ n.id
    → n'.pages ≡ n.pages
    → n'.ref_count ≡ n.ref_count
    → Touched below below'
    → Touched cs (put_child s n' below' cs)
unfolding get_child put_child
put_child-Touched s n n' below below' empty h i p r t = absurd (ground (arith, h))
put_child-Touched s n n' below below' (entry slot node sub rest) h i p r t =
    elim (Bool-cases (slot =ₗ s)) [
      | inl hit ↦
          let both : ◌≡◌ {A = Option (RadixNode × Children)} (some (node, sub)) (some (n, below)) =
            ground (arith, hit, h) in
          let same_node : node ≡ n = cc in
          let same_below : sub ≡ below = cc in
          rw hit (
            Touched-entry slot node n' sub below' rest rest
              (i ∙ ap (λ (z : RadixNode). z.id) (sym same_node))
              (p ∙ ap (λ (z : RadixNode). z.pages) (sym same_node))
              (r ∙ ap (λ (z : RadixNode). z.ref_count) (sym same_node))
              (subst (λ z. Touched z below') (sym same_below) t) (Touched-refl rest))
      | inr miss ↦ rw miss (
          Touched-entry slot node node sub sub rest _ refl refl refl (Touched-refl sub)
            (put_child-Touched s n n' below below' rest (ground (arith, miss, h)) i p r t))
    ]

module _ (p now : ℕ) (slot : List ℕ) (node : RadixNode) (below cs : Children)
    (at_slot : get_child slot cs ≡ some (node, below)) where
  abbrev child : RadixNode
  child = record node { last_access = now }

  partial-Touched :
      (at aligned : ℕ) → Touched cs (partial p at slot child below cs aligned).children
  unfolding partial
  partial-Touched at aligned = elim (Bool-cases (aligned == 0)) [
    | inl z ↦ rw z (
        put_child-Touched slot node child below below cs at_slot refl refl refl
          (Touched-refl below))
    | inr z ↦ rw z (
        put_child-Touched slot node child below below cs at_slot refl refl refl
          (Touched-refl below))
  ]

  whole-Touched :
      (match_len : ℕ) (rest : Walk)
      → Touched below rest.children
      → Touched cs (whole slot child cs match_len rest).children
  unfolding whole
  whole-Touched match_len rest t =
      put_child-Touched slot node child below rest.children cs at_slot refl refl refl t

module _ (p now : ℕ) where
  walk-Touched :
      (fuel at : ℕ) (cs : Children) (tokens : List ℕ)
      → Touched cs (walk p now fuel at cs tokens).children
  unfolding walk
  walk-Touched zero at cs tokens = Touched-refl cs
  walk-Touched (suc fuel) at cs tokens = elim (Bool-cases (is_empty tokens)) [
    | inl nothing ↦ rw (nothing, walk) (Touched-refl cs)
    | inr more ↦ elim (Option-cases (get_child (child_key tokens p) cs)) [
      | inl gone ↦ rw (more, walk) (rw (gone, walk) (Touched-refl cs))
      | inr ((node, below), at_slot) ↦
          elim (Bool-cases (ltb (match_keys node.key tokens p) (length node.key))) [
            | inl short ↦
                rw (more, walk)
                  (rw (at_slot, walk)
                    (rw (short, walk)
                      (partial-Touched p now (child_key tokens p) node below cs at_slot at _)))
            | inr all ↦
                rw (more, walk)
                  (rw (at_slot, walk)
                    (rw (all, walk)
                      (whole-Touched p now (child_key tokens p) node below cs at_slot _ _
                        (walk-Touched fuel node.id below _))))
          ]
    ]
  ]

pub match_prefix-Touched :
    (cache : RadixCache) (now : ℕ) (tokens : List ℕ)
    → Touched cache.children (match_prefix cache now tokens).0.children
unfolding match_prefix
match_prefix-Touched cache now tokens =
    elim (Bool-cases (page_align_len (length tokens) cache.page_size == 0)) [
      | inl z ↦ rw z (Touched-refl cache.children)
      | inr z ↦ rw z (
          walk-Touched cache.page_size now (suc (page_align_len (length tokens) cache.page_size))
            root_id cache.children (take (page_align_len (length tokens) cache.page_size) tokens))
    ]
