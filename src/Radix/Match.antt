-- ===== src/Radix/Match.antt =====
-- `match_prefix`: the longest cached prefix of a prompt, in whole pages.
pub mod Walks
pub mod Locks
use cs349d_miniengine_sk_nc.Common.{
  ℕ, zero, suc, ◌+◌, ◌/◌, List, [], ◌++◌, Option, none, some, Bool, ltb, ◌==◌, is_empty, length,
  take, drop, if◌then◌else◌,
}
use cs349d_miniengine_sk_nc.Radix.Node.{RadixNode, Children, get_child, put_child}
use cs349d_miniengine_sk_nc.Radix.Keys.{page_align_len, child_key, match_keys}
use cs349d_miniengine_sk_nc.Radix.Cache.{RadixCache, CacheMetrics, root_id}

pub record MatchResult : Type 0 where
  pub matched_pages : List ℕ
  pub matched_tokens : ℕ
  pub last_node : Option ℕ

-- What the loop has from some node on: the children as it leaves them, the pages and the number of
-- tokens that it still matches, and the deepest node reached.
pub record Walk : Type 0 where
  pub children : Children
  pub pages : List ℕ
  pub tokens : ℕ
  pub last : ℕ

abbrev pub stop : ℕ → Children → Walk
stop at cs = record { children = cs; pages = []; tokens = 0; last = at }

-- A child whose key goes on behind the match: borrow its first pages, if any.
partial : (page_size at : ℕ) (slot : List ℕ) (child : RadixNode) (below cs : Children) → ℕ → Walk
partial page_size at slot child below cs aligned =
    if aligned == 0 then stop at (put_child slot child below cs) else record {
      children = put_child slot child below cs;
      pages = take (aligned / page_size) child.pages;
      tokens = aligned;
      last = child.id;
    }

-- A child that is matched whole: its pages, and what the walk finds below it.
whole : (slot : List ℕ) (child : RadixNode) (cs : Children) → ℕ → Walk → Walk
whole slot child cs match_len rest = record {
  children = put_child slot child rest.children cs;
  pages = child.pages ++ rest.pages;
  tokens = match_len + rest.tokens;
  last = rest.last;
}

module _ (page_size now : ℕ) where
  -- The `while` loop from the node `at`, whose children are `cs`, over the tokens from `idx` on.
  -- Each round but the last takes at least a page of them.
  pub walk : ℕ → ℕ → Children → List ℕ → Walk
  walk zero at cs tokens = stop at cs
  walk (suc fuel) at cs tokens =
      let slot = child_key tokens page_size in
      elim (is_empty tokens) [
        | Bool.true ↦ stop at cs
        | Bool.false ↦ elim (get_child slot cs) [
          | none ↦ stop at cs
          | some (node, below) ↦
              let child : RadixNode = record node { last_access = now } in
              let match_len = match_keys child.key tokens page_size in
              elim (ltb match_len (length child.key)) [
                | Bool.true ↦
                    partial page_size at slot child below cs (page_align_len match_len page_size)
                | Bool.false ↦
                    whole slot child cs match_len (walk fuel child.id below (drop match_len tokens))
              ]
        ]
      ]

abbrev pub counted : RadixCache → List ℕ → CacheMetrics
counted cache tokens = record (cache.metrics) {
  total_lookups = cache.metrics.total_lookups + 1;
  total_query_tokens = cache.metrics.total_query_tokens + length tokens;
}

-- A prompt shorter than a page is counted and touches nothing else.
abbrev pub too_short : RadixCache → List ℕ → RadixCache × MatchResult
too_short cache tokens = (
  record cache { metrics = counted cache tokens },
  record { matched_pages = []; matched_tokens = 0; last_node = some root_id },
)

abbrev pub walked : RadixCache → ℕ → List ℕ → Walk → RadixCache × MatchResult
walked cache now tokens w = (
  record cache {
    root_access = now;
    children = w.children;
    metrics = record (counted cache tokens) {
      total_hit_tokens = cache.metrics.total_hit_tokens + w.tokens;
    };
  },
  record { matched_pages = w.pages; matched_tokens = w.tokens; last_node = some w.last },
)

unfoldable pub match_prefix : RadixCache → ℕ → List ℕ → RadixCache × MatchResult
unfolding walk partial whole page_align_len
match_prefix cache now tokens =
    let aligned_len = page_align_len (length tokens) cache.page_size in
    if aligned_len == 0
    then too_short cache tokens
    else walked cache now tokens (
        walk cache.page_size now (suc aligned_len) root_id cache.children (take aligned_len tokens))
