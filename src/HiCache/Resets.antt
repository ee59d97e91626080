-- ===== src/HiCache/Resets.antt =====
-- A reset gives the pages of the tree back, each to the pool of its tier.
use cs349d_miniengine_sk_nc.Common.{
  ℕ, ◌+◌, ◌≡◌, refl, ap, List, [], ◌∷◌, ◌++◌, none, some, count, count-append, arith, if◌then◌else◌,
}
use cs349d_miniengine_sk_nc.Pool.{KvMemoryPool}
use cs349d_miniengine_sk_nc.Pool.Laws.{count-free}
use cs349d_miniengine_sk_nc.Radix.Node.{RadixNode, Children, CacheTier, empty, entry}
use cs349d_miniengine_sk_nc.HiCache.{
  HiRadixCache, stands_on, tier_pages, freed_unless_empty, hi_reset, hi_num_evictable_pages,
}

count-freed :
    (a : ℕ) (pool : KvMemoryPool) (pages : List ℕ)
    → count a (freed_unless_empty pool pages).free_list ≡ count a pages + count a pool.free_list
count-freed a pool [] = unfold count in omega arith
count-freed a pool (x ∷ xs) = count-free a pool (x ∷ xs)

-- The nodes of a tree, a parent before its children.
abbrev pub nodes_of : Children → List RadixNode
nodes_of empty = []
nodes_of (entry slot node below rest) = node ∷ (nodes_of below ++ nodes_of rest)

-- How often the page `a` is listed by a node of the first tier, whose own tier is the second.
abbrev listed : CacheTier → CacheTier → ℕ → List ℕ → ℕ
listed CacheTier.gpu CacheTier.gpu a pages = count a pages
listed CacheTier.gpu CacheTier.cpu a pages = 0
listed CacheTier.cpu CacheTier.gpu a pages = 0
listed CacheTier.cpu CacheTier.cpu a pages = count a pages

-- How often the page `a` is listed by those of the nodes whose tier it is.
abbrev pub listed_on : CacheTier → ℕ → List RadixNode → ℕ
listed_on tier a [] = 0
listed_on tier a (node ∷ nodes) = listed tier node.tier a node.pages + listed_on tier a nodes

listed_on-append :
    (tier : CacheTier) (a : ℕ) (ns ms : List RadixNode)
    → listed_on tier a (ns ++ ms) ≡ listed_on tier a ns + listed_on tier a ms
listed_on-append tier a [] ms = omega arith
listed_on-append tier a (n ∷ ns) ms = omega (arith, listed_on-append tier a ns ms)

own_listed :
    (tier own : CacheTier) (a : ℕ) (node : RadixNode)
    → node.tier ≡ own
    → count a (if stands_on tier node then node.pages else []) ≡ listed tier own a node.pages
unfolding stands_on count
own_listed CacheTier.gpu CacheTier.gpu a node e = rw e refl
own_listed CacheTier.gpu CacheTier.cpu a node e = rw e refl
own_listed CacheTier.cpu CacheTier.gpu a node e = rw e refl
own_listed CacheTier.cpu CacheTier.cpu a node e = rw e refl

-- The walk of a reset collects the pages of the tier's nodes.
count-tier_pages :
    (tier : CacheTier) (a : ℕ) (cs : Children)
    → count a (tier_pages tier cs) ≡ listed_on tier a (nodes_of cs)
unfolding tier_pages
count-tier_pages tier a empty = unfold count in refl
count-tier_pages tier a (entry slot node below rest) =
    let own = if stands_on tier node then node.pages else [] in
    omega (
      arith,
      count-append a own (tier_pages tier below ++ tier_pages tier rest),
      count-append a (tier_pages tier below) (tier_pages tier rest),
      own_listed tier node.tier a node refl,
      count-tier_pages tier a below,
      count-tier_pages tier a rest,
      listed_on-append tier a (nodes_of below) (nodes_of rest),
    )

-- A reset of a tiered cache gives each page that a node of the tree lists back to the pool of that
-- node's tier, as often as nodes of the tier list it, and to no other pool. It leaves an empty tree,
-- with no page that counts as cached or could be evicted.
pub hi_reset_keeps :
    (cache : HiRadixCache) (now a : ℕ) (cpu_pool : KvMemoryPool)
    → cache.cpu_pool ≡ some cpu_pool
    → let r = hi_reset cache now in
      let nodes = nodes_of cache.base.children in
      (cpu_pool' : KvMemoryPool) × (r.cpu_pool ≡ some cpu_pool')
      × (count a r.pool.free_list ≡ listed_on CacheTier.gpu a nodes + count a cache.pool.free_list)
      × (count a cpu_pool'.free_list ≡ listed_on CacheTier.cpu a nodes + count a cpu_pool.free_list)
      × (nodes_of r.base.children ≡ [])
      × (r.base.cached_page_count ≡ 0)
      × (hi_num_evictable_pages r ≡ 0)
unfolding hi_reset hi_num_evictable_pages
hi_reset_keeps cache now a cpu_pool h = (
  freed_unless_empty cpu_pool (tier_pages CacheTier.cpu cache.base.children),
  ap
      (λ c. elim c [
        | none ↦ none
        | some q ↦ some (freed_unless_empty q (tier_pages CacheTier.cpu cache.base.children))
      ])
      h,
  omega (
    arith,
    count-freed a cache.pool (tier_pages CacheTier.gpu cache.base.children),
    count-tier_pages CacheTier.gpu a cache.base.children,
  ),
  omega (
    arith,
    count-freed a cpu_pool (tier_pages CacheTier.cpu cache.base.children),
    count-tier_pages CacheTier.cpu a cache.base.children,
  ),
  refl,
  refl,
  refl,
)
