-- ===== src/HiCache/Demote/Measures.antt =====
-- The pages of a tier and the unlocked pages of a tier, as sums over the nodes.
use cs349d_miniengine_sk_nc.Common.{
  List, [], arith, count, count-append, false, if◌then◌else◌, is_zero, length, refl, true, ℕ, ◌++◌,
  ◌+◌, ◌≡◌, ◌⊎◌,
}
use cs349d_miniengine_sk_nc.HiCache.{count_unlocked, stands_on, tier_pages}
use cs349d_miniengine_sk_nc.Radix.Node.{CacheTier, Children, RadixNode, empty, entry}

abbrev pub own_pages : CacheTier → RadixNode → List ℕ
own_pages tier node = if stands_on tier node then node.pages else []

abbrev pub own_unlocked : CacheTier → RadixNode → ℕ
own_unlocked tier node =
    if stands_on tier node then (if is_zero node.ref_count then length node.pages else 0) else 0

pub tier_sums :
    (tier : CacheTier) (a : ℕ) (slot : List ℕ) (node : RadixNode) (below rest : Children)
    → count a (tier_pages tier (entry slot node below rest))
      ≡ count a (own_pages tier node)
        + (count a (tier_pages tier below) + count a (tier_pages tier rest))
unfolding tier_pages
tier_sums tier a slot node below rest = omega (
  arith,
  count-append a (own_pages tier node) (tier_pages tier below ++ tier_pages tier rest),
  count-append a (tier_pages tier below) (tier_pages tier rest),
)

pub tier_none : (tier : CacheTier) (a : ℕ) → count a (tier_pages tier empty) ≡ 0
unfolding tier_pages count
tier_none tier a = refl

pub unlocked_sums :
    (tier : CacheTier) (slot : List ℕ) (node : RadixNode) (below rest : Children)
    → count_unlocked tier (entry slot node below rest)
      ≡ own_unlocked tier node + (count_unlocked tier below + count_unlocked tier rest)
unfolding count_unlocked
unlocked_sums tier slot node below rest = refl

pub unlocked_none : (tier : CacheTier) → count_unlocked tier empty ≡ 0
unfolding count_unlocked
unlocked_none tier = refl

-- A node stands on one tier.
pub tier_cases :
    (node : RadixNode)
    → ((stands_on CacheTier.gpu node ≡ true) × (stands_on CacheTier.cpu node ≡ false))
      ⊎ ((stands_on CacheTier.gpu node ≡ false) × (stands_on CacheTier.cpu node ≡ true))
unfolding stands_on
tier_cases node = ground arith

pub cpu_not_gpu :
    (node : RadixNode) → stands_on CacheTier.cpu node ≡ true → stands_on CacheTier.gpu node ≡ false
cpu_not_gpu node h = ground (arith, tier_cases node)

pub gpu_not_cpu :
    (node : RadixNode) → stands_on CacheTier.gpu node ≡ true → stands_on CacheTier.cpu node ≡ false
gpu_not_cpu node h = ground (arith, tier_cases node)
