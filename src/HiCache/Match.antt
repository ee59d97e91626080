-- ===== src/HiCache/Match.antt =====
-- `HiRadixCache.match_prefix`: the lookup, which brings the pages of the nodes that it matches back to
-- the GPU tier. The promotion of one node may demote or drop others, so a node is found anew, by its
-- identity, each time its attributes are read.
pub mod Contract
pub mod Descent
pub mod Sizes
pub mod Rounds
pub mod Counts
use cs349d_miniengine_sk_nc.Common.{
  Bool, List, [], drop, false, if◌then◌else◌, is_empty, length, ltb, none, not, some, suc, take,
  true, zero, ℕ, ◌++◌, ◌+◌, ◌-◌, ◌/◌, ◌==◌, ◌||◌,
}
use cs349d_miniengine_sk_nc.Engine.Release.{aligned_len}
use cs349d_miniengine_sk_nc.Engine.State.{page_size}
use cs349d_miniengine_sk_nc.HiCache.{HiRadixCache}
use cs349d_miniengine_sk_nc.HiCache.Demote.{Tiers, map_nodes}
use cs349d_miniengine_sk_nc.HiCache.Evict.{Planes, tiers_of}
use cs349d_miniengine_sk_nc.HiCache.Promote.{Promotion, ensure_gpu_pages}
use cs349d_miniengine_sk_nc.Radix.Cache.{Result, err, ok, root_id, runtime_error}
use cs349d_miniengine_sk_nc.Radix.Evict.{locate}
use cs349d_miniengine_sk_nc.Radix.Evict.Places.{found}
use cs349d_miniengine_sk_nc.Radix.Keys.{child_key, match_keys, page_align_len}
use cs349d_miniengine_sk_nc.Radix.Match.{MatchResult, counted, match_prefix, too_short}
use cs349d_miniengine_sk_nc.Radix.Node.{Children, RadixNode, empty, get_child}

-- `node.last_access = now`, for the node `i`.
abbrev pub accessed : ℕ → ℕ → RadixNode → RadixNode
accessed now i node = if node.id == i then record node { last_access = now } else node

-- `node.children`, for the root or another node.
pub children_at : ℕ → Children → Children
children_at i cs =
    if i == root_id
    then cs
    else elim (locate i none cs) [ none ↦ empty | some place ↦ place.children ]

-- `child.pages[:n_pages]`.
pub pages_at : ℕ → ℕ → Children → List ℕ
pages_at n i cs = elim (locate i none cs) [ none ↦ [] | some place ↦ take n place.node.pages ]

-- Where the loop stands: both tiers, what was matched so far and at which node, what the promotions
-- evicted, and whether one of them raised.
pub record HiWalk {ℓ} (V : Type ℓ) : Type ℓ where
  pub tiers : Tiers V
  pub pages : List ℕ
  pub tokens : ℕ
  pub last : ℕ
  pub freed : ℕ
  pub lost : ℕ
  pub raised : Bool

module _ {ℓ} {V : Type ℓ} where
  -- `child.last_access = now`.
  pub touch : ℕ → ℕ → Tiers V → Tiers V
  touch now i t = record t { children = map_nodes (accessed now i) t.children }

  -- `_ensure_gpu_pages(child)`.
  pub ensure_node : (ℕ → ℕ) → ℕ → ℕ → Tiers V → Promotion V
  ensure_node addr page_size i t = elim (locate i none t.children) [
    | none ↦ record { done = true; freed = 0; lost = 0; tiers = t }
    | some place ↦ ensure_gpu_pages addr page_size place.node t
  ]

  -- The rest of a round: `n` pages of the child `i`, which stand for `matched` tokens.
  pub borrow : ℕ → ℕ → ℕ → HiWalk V → Promotion V → HiWalk V
  borrow n i matched s r = record {
    tiers = r.tiers;
    pages = if r.done then s.pages ++ pages_at n i r.tiers.children else s.pages;
    tokens = if r.done then s.tokens + matched else s.tokens;
    last = if r.done then i else s.last;
    freed = s.freed + r.freed;
    lost = s.lost + r.lost;
    raised = not r.done;
  }

  module _ (addr : ℕ → ℕ) (page_size now : ℕ) where
    -- The match ends within the child's key.
    pub hi_partial : HiWalk V → RadixNode → ℕ → HiWalk V
    hi_partial s child aligned =
        if aligned == 0
        then record s { tiers = touch now child.id s.tiers }
        else borrow (aligned / page_size) child.id aligned s
            (ensure_node addr page_size child.id (touch now child.id s.tiers))

    pub hi_whole : HiWalk V → RadixNode → ℕ → HiWalk V
    hi_whole s child match_len =
        borrow (length child.pages) child.id match_len s
          (ensure_node addr page_size child.id (touch now child.id s.tiers))

    -- The `while` loop. Each round but the last takes at least a page of the tokens.
    pub hi_walk : ℕ → HiWalk V → List ℕ → HiWalk V
    hi_walk zero s tokens = s
    hi_walk (suc fuel) s tokens = elim (is_empty tokens || s.raised) [
      | Bool.true ↦ s
      | Bool.false ↦
          elim (get_child (child_key tokens page_size) (children_at s.last s.tiers.children)) [
            | none ↦ s
            | some (child, below) ↦
                let match_len = match_keys child.key tokens page_size in
                elim (ltb match_len (length child.key)) [
                  | Bool.true ↦ hi_partial s child (page_align_len match_len page_size)
                  | Bool.false ↦ hi_walk fuel (hi_whole s child match_len) (drop match_len tokens)
                ]
          ]
    ]

    abbrev pub start_walk : Tiers V → HiWalk V
    start_walk t = record {
      tiers = t;
      pages = [];
      tokens = 0;
      last = root_id;
      freed = 0;
      lost = 0;
      raised = false;
    }

    -- The loop on the tiers, over the tokens in whole pages.
    unfoldable pub match_tiers : Tiers V → List ℕ → HiWalk V
    unfolding children_at touch ensure_node pages_at borrow hi_partial hi_whole hi_walk
    match_tiers t tokens = hi_walk (suc (length tokens)) (start_walk t) tokens

  -- What the caller sees: when a promotion raised, the RuntimeError.
  abbrev pub hi_walked :
      HiRadixCache → ℕ → List ℕ → HiWalk V → Result MatchResult × HiRadixCache × Planes V
  hi_walked cache now tokens w =
      let hits = if w.raised then 0 else w.tokens in
      (
        if w.raised
            then err runtime_error
            else ok (record {
              matched_pages = w.pages;
              matched_tokens = w.tokens;
              last_node = some w.last;
            }),
        record {
          base = record (cache.base) {
            root_access = now;
            children = w.tiers.children;
            cached_page_count = cache.base.cached_page_count - w.lost;
            metrics = record (counted cache.base tokens) {
              total_hit_tokens = cache.base.metrics.total_hit_tokens + hits;
              total_evicted_pages = cache.base.metrics.total_evicted_pages + w.freed;
            };
          };
          pool = w.tiers.pool;
          cpu_pool = some w.tiers.cpu_pool;
        },
        record { gpu_kv = w.tiers.gpu_kv; cpu_kv = w.tiers.cpu_kv },
      )

  -- Without a CPU pool no node is on the CPU tier, and the loop is that of the radix cache.
  abbrev pub plain_match :
      HiRadixCache → Planes V → ℕ → List ℕ → Result MatchResult × HiRadixCache × Planes V
  plain_match cache kv now tokens =
      let (base, found) = match_prefix cache.base now tokens in
      (ok found, record cache { base = base }, kv)

  unfoldable pub hi_match_prefix :
      (ℕ → ℕ) → HiRadixCache → Planes V → ℕ → List ℕ → Result MatchResult × HiRadixCache × Planes V
  hi_match_prefix addr cache kv now tokens =
      let aligned_len = page_align_len (length tokens) cache.base.page_size in
      elim (cache.cpu_pool) [
        | none ↦ plain_match cache kv now tokens
        | some cpu_pool ↦
            if aligned_len == 0
            then (let (base, found) = too_short cache.base tokens in
                (ok found, record cache { base = base }, kv))
            else hi_walked cache now tokens (
                match_tiers addr cache.base.page_size now (tiers_of cache kv cpu_pool)
                  (take aligned_len tokens))
      ]
