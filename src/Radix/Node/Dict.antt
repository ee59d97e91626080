-- ===== src/Radix/Node/Dict.antt =====
-- The laws of the `children` dict.
use cs349d_miniengine_sk_nc.Common.{
  List, ℕ, ◌≡◌, refl, some, ◌=ₗ◌, =ₗ→eq, =ₗ-self, if◌then◌else◌, arith,
}
use cs349d_miniengine_sk_nc.Radix.Node.{RadixNode, Children, empty, entry, get_child, put_child}

pub get_child-put_child :
    (s t : List ℕ) (n : RadixNode) (sub cs : Children)
    → get_child t (put_child s n sub cs) ≡ (if s =ₗ t then some (n, sub) else get_child t cs)
unfolding get_child put_child
get_child-put_child s t n sub empty = refl
get_child-put_child s t n sub (entry slot node below rest) =
    ground (
      arith,
      get_child-put_child s t n sub rest,
      =ₗ→eq slot s,
      =ₗ→eq slot t,
      =ₗ→eq s t,
      =ₗ-self slot,
    )
