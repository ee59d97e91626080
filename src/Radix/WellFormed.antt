-- ===== src/Radix/WellFormed.antt =====
-- The shape of a tree: every node has a page for each page of its key, at least one, and stands
-- under the first page of its key, which no later sibling shares.
use cs349d_miniengine_sk_nc.Common.{
  ℕ, ◌*◌, ◌<◌, ◌≡◌, refl, List, none, some, length, take, ◌=ₗ◌, =ₗ→eq, =ₗ-self, arith, Bool-cases,
  inl, inr, sym,
}
use mathlib.Core.Path.{subst}
use cs349d_miniengine_sk_nc.Radix.Node.{RadixNode, Children, empty, entry, get_child, put_child}
use cs349d_miniengine_sk_nc.Radix.Node.Dict.{get_child-put_child}

pub record IsFit (p : ℕ) (slot : List ℕ) (node : RadixNode) : Type 0 where
  pub aligned : length node.key ≡ length node.pages * p
  pub some_pages : 0 < length node.pages
  pub slotted : slot ≡ take p node.key

abbrev pub IsWf : ℕ → Children → Type 0
IsWf p empty = Unit {0}
IsWf p (entry slot node below rest) =
    IsFit p slot node × (get_child slot rest ≡ none) × IsWf p below × IsWf p rest

pub get_child-IsWf :
    (p : ℕ) (s : List ℕ) (cs : Children) (n : RadixNode) (sub : Children)
    → IsWf p cs
    → get_child s cs ≡ some (n, sub)
    → IsFit p s n × IsWf p sub
unfolding get_child
get_child-IsWf p s empty n sub w e = cc
get_child-IsWf p s (entry slot node below rest) n sub w e = elim (Bool-cases (slot =ₗ s)) [
  | inl hit ↦
      let same : ◌≡◌ {A = RadixNode × Children} (node, below) (n, sub) = ground arith in
      subst (λ (x : RadixNode × Children). IsFit p s x.0 × IsWf p x.1) same
        (subst (λ x. IsFit p x node) (=ₗ→eq slot s hit) w.0, w.2)
  | inr miss ↦ get_child-IsWf p s rest n sub w.3 (rw (miss, get_child) at e)
]

pub put_child-IsWf :
    (p : ℕ) (s : List ℕ) (n : RadixNode) (sub cs : Children)
    → IsFit p s n
    → IsWf p sub
    → IsWf p cs
    → IsWf p (put_child s n sub cs)
unfolding get_child put_child
put_child-IsWf p s n sub empty f v w = (f, refl, v, tt)
put_child-IsWf p s n sub (entry slot node below rest) f v w = elim (Bool-cases (slot =ₗ s)) [
  | inl hit ↦ rw hit (subst (λ x. IsFit p x n) (sym (=ₗ→eq slot s hit)) f, w.1, v, w.3)
  | inr miss ↦ rw (miss) (
    w.0,
    ground (arith, w.1, get_child-put_child s slot n sub rest, =ₗ→eq s slot, =ₗ-self slot),
    w.2,
    put_child-IsWf p s n sub rest f v w.3,
  )
]
