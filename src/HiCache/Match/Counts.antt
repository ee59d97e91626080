-- ===== src/HiCache/Match/Counts.antt =====
-- A lookup counts the tokens of the pages that it returns.
use cs349d_miniengine_sk_nc.Common.{
  Bool-cases, List, arith, inl, inr, length, ltb, some, subst, ℕ, ◌*◌, ◌+◌, ◌<◌, ◌≡◌, ◌≤◌, ◌==◌,
  Bool, Option-cases, drop, is_empty, length-drop, refl, suc, zero, ◌||◌, length-take, take,
}
use cs349d_miniengine_sk_nc.HiCache.Demote.Tiered.{Stands}
use cs349d_miniengine_sk_nc.HiCache.Match.{
  HiWalk, children_at, hi_partial, hi_whole, hi_match_prefix, hi_walk, match_tiers, start_walk,
  hi_walked,
}
use cs349d_miniengine_sk_nc.Radix.Keys.{child_key, match_keys, page_align_len}
use cs349d_miniengine_sk_nc.Radix.Node.{Children, RadixNode, get_child}
use cs349d_miniengine_sk_nc.HiCache.{HiRadixCache}
use cs349d_miniengine_sk_nc.HiCache.Demote.{Tiers}
use cs349d_miniengine_sk_nc.HiCache.Evict.{Planes, tiers_of}
use cs349d_miniengine_sk_nc.HiCache.Match.Contract.{hi_whole-Kept}
use cs349d_miniengine_sk_nc.Pool.{KvMemoryPool}
use cs349d_miniengine_sk_nc.Radix.Cache.{ok, Result}
use cs349d_miniengine_sk_nc.Radix.Match.{MatchResult, too_short}
use cs349d_miniengine_sk_nc.HiCache.Match.Rounds.{Counted, hi_partial-Counted, hi_whole-Counted}

module _ {ℓ} {V : Type ℓ} (addr : ℕ → ℕ) (p now : ℕ) (hp : 0 < p) where
  hi_round-Counted :
      (fuel : ℕ) (s : HiWalk V) (tokens : List ℕ) (child : RadixNode) (below : Children)
      → Stands p s.tiers.children
      → length s.pages * p ≡ s.tokens
      → get_child (child_key tokens p) (children_at s.last s.tiers.children) ≡ some (child, below)
      → ((next : HiWalk V) (left : List ℕ)
          → Stands p next.tiers.children
          → length next.pages * p ≡ next.tokens
          → Counted p next (length left) (hi_walk addr p now fuel next left))
      → let match_len = match_keys child.key tokens p in
        Counted p s (length tokens) (elim (ltb match_len (length child.key)) [
          | Bool.true ↦ hi_partial addr p now s child (page_align_len match_len p)
          | Bool.false ↦
              hi_walk addr p now fuel
                (hi_whole addr p now s child match_len)
                (drop match_len tokens)
        ])
  hi_round-Counted fuel s tokens child below v exact h counts =
      let match_len = match_keys child.key tokens p in
      elim (Bool-cases (ltb match_len (length child.key))) [
        | inl e ↦ rw e (hi_partial-Counted addr p now hp s tokens child below v exact h e)
        | inr e ↦
            let (within, (sized, bounded)) =
              hi_whole-Counted addr p now hp s tokens child below v exact h e in
            let next = hi_whole addr p now s child match_len in
            let (sized', bounded') =
              counts next (drop match_len tokens)
                (hi_whole-Kept addr p now s child match_len v).stands sized in
            rw e (sized', omega (arith, bounded, bounded', within, length-drop match_len tokens))
      ]

  hi_walk-Counted :
      (fuel : ℕ) (s : HiWalk V) (tokens : List ℕ)
      → Stands p s.tiers.children
      → length s.pages * p ≡ s.tokens
      → Counted p s (length tokens) (hi_walk addr p now fuel s tokens)
  unfolding hi_walk
  hi_walk-Counted zero s tokens v exact = (exact, omega arith)
  hi_walk-Counted (suc fuel) s tokens v exact =
      let slot = child_key tokens p in
      elim (Bool-cases (is_empty tokens || s.raised)) [
        | inl e ↦ rw (e, hi_walk) (exact, omega arith)
        | inr e ↦ elim (Option-cases (get_child slot (children_at s.last s.tiers.children))) [
          | inl missing ↦ rw (e, hi_walk) (rw missing (exact, omega arith))
          | inr ((child, below), q) ↦
              rw (e, hi_walk)
                (rw q (hi_round-Counted fuel s tokens child below v exact q (hi_walk-Counted fuel)))
        ]
      ]

  pub match_tiers-Counted :
      (t : Tiers V) (tokens : List ℕ)
      → Stands p t.children
      → let w = match_tiers addr p now t tokens in
        (length w.pages * p ≡ w.tokens) × (w.tokens ≤ length tokens)
  unfolding match_tiers
  match_tiers-Counted t tokens v =
      let (sized, bounded) =
        hi_walk-Counted (suc (length tokens)) (start_walk addr p now t) tokens v (omega arith) in
      (sized, omega (arith, bounded))

-- What a lookup that returned `mr` and left `hits` in the metrics has counted.
abbrev Reported : HiRadixCache → List ℕ → ℕ → MatchResult → Type 0
Reported cache tokens hits mr =
    (length mr.matched_pages * cache.base.page_size ≡ mr.matched_tokens)
    × (mr.matched_tokens ≤ length tokens)
    × (hits ≡ cache.base.metrics.total_hit_tokens + mr.matched_tokens)

returned_one :
    (cache : HiRadixCache) (tokens : List ℕ) (hits : ℕ) (m mr : MatchResult)
    → Reported cache tokens hits m
    → ◌≡◌ {A = Result MatchResult} (ok m) (ok mr)
    → Reported cache tokens hits mr
returned_one cache tokens hits m mr known q =
    let same : m ≡ mr = cc in subst (Reported cache tokens hits) same known

module _ {ℓ} {V : Type ℓ} where
  abbrev result_of : HiWalk V → MatchResult
  result_of w = record {
    matched_pages = w.pages;
    matched_tokens = w.tokens;
    last_node = some w.last;
  }

  walked-Reported :
      (cache : HiRadixCache) (now : ℕ) (tokens : List ℕ) (mr : MatchResult) (w : HiWalk V)
      → length w.pages * cache.base.page_size ≡ w.tokens
      → w.tokens ≤ length tokens
      → (hi_walked cache now tokens w).0 ≡ ok mr
      → Reported cache tokens (hi_walked cache now tokens w).1.base.metrics.total_hit_tokens mr
  walked-Reported cache now tokens mr w sized bounded = elim (Bool-cases (w.raised)) [
    | inl e ↦ rw e (λ q. cc)
    | inr e ↦ rw e (returned_one cache tokens _ (result_of w) mr (sized, bounded, refl))
  ]

module _ {ℓ} {V : Type ℓ} (addr : ℕ → ℕ) (now : ℕ) where
  -- With a CPU pool and a positive page size, on a tree that is well-formed, with distinct nodes and no
  -- negative reference count: when a lookup returns, the tokens that it reports as matched are those
  -- of the pages that it lists, a page's worth for each, no more than were asked for, and they are
  -- counted as hits.
  pub hi_match_prefix_counts :
      (cache : HiRadixCache) (kv : Planes V) (tokens : List ℕ) (cpu_pool : KvMemoryPool)
      (mr : MatchResult)
      → cache.cpu_pool ≡ some cpu_pool
      → 0 < cache.base.page_size
      → Stands cache.base.page_size cache.base.children
      → (hi_match_prefix addr cache kv now tokens).0 ≡ ok mr
      → (length mr.matched_pages * cache.base.page_size ≡ mr.matched_tokens)
        × (mr.matched_tokens ≤ length tokens)
        × ((hi_match_prefix addr cache kv now tokens).1.base.metrics.total_hit_tokens
            ≡ cache.base.metrics.total_hit_tokens + mr.matched_tokens)
  unfolding hi_match_prefix
  hi_match_prefix_counts cache kv tokens cpu_pool mr e hp v h = reported h
    where
      reported :
          (hi_match_prefix addr cache kv now tokens).0 ≡ ok mr
          → Reported cache tokens
              (hi_match_prefix addr cache kv now tokens).1.base.metrics.total_hit_tokens
              mr
      reported =
          let page_size = cache.base.page_size in
          let aligned_len = page_align_len (length tokens) page_size in
          let w =
            match_tiers addr page_size now (tiers_of cache kv cpu_pool) (take aligned_len tokens) in
          elim (Bool-cases (aligned_len == 0)) [
            | inl z ↦
                rw (e, hi_match_prefix)
                  (rw z (
                    returned_one cache tokens _ (too_short cache.base tokens).1 mr
                      (omega arith, omega arith, omega arith)))
            | inr z ↦
                let (sized, bounded) =
                  match_tiers-Counted addr page_size now hp (tiers_of cache kv cpu_pool)
                    (take aligned_len tokens) v in
                rw (e, hi_match_prefix)
                  (rw z (
                    walked-Reported cache now tokens mr w sized
                      (omega (arith, bounded, length-take aligned_len tokens))))
          ]
