-- ===== src/HiCache/Match/Contract.antt =====
-- What the lookup keeps while it moves pages between the tiers.
use cs349d_miniengine_sk_nc.Common.{
  Bool, Bool-cases, List, Option-cases, ap, arith, drop, false, inl, inr, is_empty, is_pos, is_zero,
  length, ltb, none, refl, some, subst, suc, sym, true, zero, ℕ, ◌==◌, ◌||◌, ◌∙◌, ◌≡◌, ◌+◌, take,
}
use cs349d_miniengine_sk_nc.Radix.Evict.Places.{locate_counts}
use cs349d_miniengine_sk_nc.HiCache.{stands_on, HiRadixCache}
use cs349d_miniengine_sk_nc.HiCache.Demote.{Tiers, map_nodes}
use cs349d_miniengine_sk_nc.HiCache.Demote.Measures.{tier_cases}
use cs349d_miniengine_sk_nc.HiCache.Demote.Tiered.{Stands, none-Tiered}
use cs349d_miniengine_sk_nc.HiCache.Match.{
  HiWalk, accessed, borrow, children_at, ensure_node, hi_partial, hi_walk, hi_whole, match_tiers,
  start_walk, touch, hi_match_prefix,
}
use cs349d_miniengine_sk_nc.HiCache.Promote.{ensure_gpu_pages}
use cs349d_miniengine_sk_nc.HiCache.Promote.Assigned.{map_nodes-Kept}
use cs349d_miniengine_sk_nc.HiCache.Promote.Contract.{promote_node_lem}
use cs349d_miniengine_sk_nc.HiCache.Promote.Kept.{Kept, Tiered-Kept, then-Kept}
use cs349d_miniengine_sk_nc.Radix.Evict.{Place, locate}
use cs349d_miniengine_sk_nc.Radix.Evict.Guarded.{IsSettled}
use cs349d_miniengine_sk_nc.Radix.Keys.{child_key, match_keys, page_align_len}
use cs349d_miniengine_sk_nc.Radix.Node.{CacheTier, Children, RadixNode, empty, entry, get_child}
use cs349d_miniengine_sk_nc.HiCache.Evict.{Planes, tiers_of}
use cs349d_miniengine_sk_nc.Pool.{KvMemoryPool}

pub accessed_keeps :
    (now i : ℕ) (node : RadixNode)
    → ((accessed now i node).id ≡ node.id)
      × ((accessed now i node).key ≡ node.key)
      × ((accessed now i node).pages ≡ node.pages)
      × ((accessed now i node).tier ≡ node.tier)
accessed_keeps now i node = elim (Bool-cases (node.id == i)) [
  | inl e ↦ rw e (refl, refl, refl, refl)
  | inr e ↦ rw e (refl, refl, refl, refl)
]

accessed_count : (now i : ℕ) (node : RadixNode) → (accessed now i node).ref_count ≡ node.ref_count
accessed_count now i node = elim (Bool-cases (node.id == i)) [
  | inl e ↦ rw e refl
  | inr e ↦ rw e refl
]

IsSettled-accessed :
    (now i : ℕ) (cs : Children) → IsSettled cs → IsSettled (map_nodes (accessed now i) cs)
unfolding map_nodes
IsSettled-accessed now i empty s = tt
IsSettled-accessed now i (entry slot node below rest) s = (
  subst (λ z. is_pos z ≡ false → is_zero z ≡ true) (sym (accessed_count now i node)) s.0,
  IsSettled-accessed now i below s.1,
  IsSettled-accessed now i rest s.2,
)

module _ {ℓ} {V : Type ℓ} (addr : ℕ → ℕ) (p now : ℕ) where
  pub touch-Kept : (i : ℕ) (t : Tiers V) → Stands p t.children → Kept p t (touch now i t)
  unfolding touch
  touch-Kept i t v =
      map_nodes-Kept (accessed now i) (accessed_keeps now i) p t v
        (IsSettled-accessed now i t.children v.settled)

  ensure_gpu_pages-Kept :
      (t : Tiers V) (place : Place)
      → Stands p t.children
      → locate place.node.id none t.children ≡ some place
      → Kept p t (ensure_gpu_pages addr p place.node t).tiers
  unfolding ensure_gpu_pages
  ensure_gpu_pages-Kept t place v at =
      elim (Bool-cases (is_empty place.node.pages || stands_on CacheTier.gpu place.node)) [
        | inl skip ↦ rw skip (Tiered-Kept (none-Tiered p t v))
        | inr go ↦ rw go (promote_node_lem addr p t place v at (on_cpu go)).0
      ]
    where
      on_cpu :
          (is_empty place.node.pages || stands_on CacheTier.gpu place.node) ≡ false
          → stands_on CacheTier.cpu place.node ≡ true
      on_cpu go = ground (arith, tier_cases place.node, go)

  ensure_node-Kept :
      (i : ℕ) (t : Tiers V) → Stands p t.children → Kept p t (ensure_node addr p i t).tiers
  unfolding ensure_node
  ensure_node-Kept i t v = elim (Option-cases (locate i none t.children)) [
    | inl missing ↦ rw (missing, ensure_node) (Tiered-Kept (none-Tiered p t v))
    | inr (place, e) ↦
        rw (e, ensure_node)
          (ensure_gpu_pages-Kept t place v
            (ap (λ j. locate j none t.children) (locate_counts i none t.children place e).1 ∙ e))
  ]

  pub round-Kept :
      (i : ℕ) (t : Tiers V)
      → Stands p t.children
      → Kept p t (ensure_node addr p i (touch now i t)).tiers
  round-Kept i t v =
      let k = touch-Kept i t v in then-Kept k (ensure_node-Kept i (touch now i t) k.stands)

  hi_partial-Kept :
      (s : HiWalk V) (child : RadixNode) (aligned : ℕ)
      → Stands p s.tiers.children
      → Kept p s.tiers (hi_partial addr p now s child aligned).tiers
  unfolding hi_partial borrow
  hi_partial-Kept s child aligned v = elim (Bool-cases (aligned == 0)) [
    | inl e ↦ rw e (touch-Kept child.id s.tiers v)
    | inr e ↦ rw e (round-Kept child.id s.tiers v)
  ]

  pub hi_whole-Kept :
      (s : HiWalk V) (child : RadixNode) (match_len : ℕ)
      → Stands p s.tiers.children
      → Kept p s.tiers (hi_whole addr p now s child match_len).tiers
  unfolding hi_whole borrow
  hi_whole-Kept s child match_len v = round-Kept child.id s.tiers v

  hi_round-Kept :
      (fuel : ℕ) (s : HiWalk V) (tokens : List ℕ) (child : RadixNode)
      → Stands p s.tiers.children
      → ((next : HiWalk V) (left : List ℕ)
          → Stands p next.tiers.children
          → Kept p next.tiers (hi_walk addr p now fuel next left).tiers)
      → let match_len = match_keys child.key tokens p in
        Kept p s.tiers (
          HiWalk.tiers {V = V} (elim (ltb match_len (length child.key)) [
            | Bool.true ↦ hi_partial addr p now s child (page_align_len match_len p)
            | Bool.false ↦
                hi_walk addr p now fuel
                  (hi_whole addr p now s child match_len)
                  (drop match_len tokens)
          ]))
  hi_round-Kept fuel s tokens child v keeps =
      let match_len = match_keys child.key tokens p in
      elim (Bool-cases (ltb match_len (length child.key))) [
        | inl e ↦ rw e (hi_partial-Kept s child (page_align_len match_len p) v)
        | inr e ↦
            let k = hi_whole-Kept s child match_len v in
            rw e (then-Kept k (keeps _ (drop match_len tokens) k.stands))
      ]

  hi_walk-Kept :
      (fuel : ℕ) (s : HiWalk V) (tokens : List ℕ)
      → Stands p s.tiers.children
      → Kept p s.tiers (hi_walk addr p now fuel s tokens).tiers
  unfolding hi_walk
  hi_walk-Kept zero s tokens v = Tiered-Kept (none-Tiered p s.tiers v)
  hi_walk-Kept (suc fuel) s tokens v =
      let slot = child_key tokens p in
      elim (Bool-cases (is_empty tokens || s.raised)) [
        | inl e ↦ rw (e, hi_walk) (Tiered-Kept (none-Tiered p s.tiers v))
        | inr e ↦ elim (Option-cases (get_child slot (children_at s.last s.tiers.children))) [
          | inl missing ↦ rw (e, hi_walk) (rw missing (Tiered-Kept (none-Tiered p s.tiers v)))
          | inr ((child, below), q) ↦
              rw (e, hi_walk) (rw q (hi_round-Kept fuel s tokens child v (hi_walk-Kept fuel)))
        ]
      ]

  -- In two tiers whose tree is well-formed, with distinct nodes and no negative reference count, the
  -- loop of a lookup loses no page of either tier and makes up none, also when a promotion raises.
  -- Every node left in the tree stood there before under the same key, and holds what it held then,
  -- when no page was both free and in use or in use twice; and the tree is again in that order.
  pub match_tiers_keeps :
      (t : Tiers V) (tokens : List ℕ)
      → Stands p t.children
      → Kept p t (match_tiers addr p now t tokens).tiers
  unfolding match_tiers
  match_tiers_keeps t tokens v =
      hi_walk-Kept (suc (length tokens)) (start_walk addr p now t) tokens v

module _ {ℓ} {V : Type ℓ} (addr : ℕ → ℕ) (now : ℕ) where
  -- With a CPU pool, on a tree that is well-formed, with distinct nodes and no negative reference
  -- count, a lookup loses no page of either tier and makes up none, also when a promotion raises.
  -- Every node left in the tree stood there before under the same key, and holds what it held then,
  -- when no page was both free and in use or in use twice; and the tree is again in that order. The
  -- lookup and its tokens are counted whether it raises or not.
  pub hi_match_prefix_keeps :
      (cache : HiRadixCache) (kv : Planes V) (tokens : List ℕ) (cpu_pool : KvMemoryPool)
      → cache.cpu_pool ≡ some cpu_pool
      → Stands cache.base.page_size cache.base.children
      → let (r, cache', kv') = hi_match_prefix addr cache kv now tokens in
        (cpu_pool' : KvMemoryPool) × (cache'.cpu_pool ≡ some cpu_pool')
        × Kept cache.base.page_size (tiers_of cache kv cpu_pool) (tiers_of cache' kv' cpu_pool')
        × (cache'.base.metrics.total_lookups ≡ cache.base.metrics.total_lookups + 1)
        × (cache'.base.metrics.total_query_tokens
            ≡ cache.base.metrics.total_query_tokens + length tokens)
  unfolding hi_match_prefix
  hi_match_prefix_keeps cache kv tokens cpu_pool e v =
      let page_size = cache.base.page_size in
      let aligned_len = page_align_len (length tokens) page_size in
      let t = tiers_of cache kv cpu_pool in
      elim (Bool-cases (aligned_len == 0)) [
        | inl z ↦
            rw (e, hi_match_prefix)
              (rw z (cpu_pool, e, Tiered-Kept (none-Tiered page_size t v), refl, refl))
        | inr z ↦
            let whole_pages = take aligned_len tokens in
            rw (e, hi_match_prefix)
              (rw z (
                (match_tiers addr page_size now t whole_pages).tiers.cpu_pool,
                refl,
                match_tiers_keeps addr page_size now t whole_pages v,
                refl,
                refl,
              ))
      ]
