-- ===== src/Radix/Contract.antt =====
-- What the cache promises to its callers, as equations between its operations.
pub mod Outcomes
pub mod Lookups
use cs349d_miniengine_sk_nc.Common.{ℕ, ◌<◌, List, ◌++◌, length, take, drop}
use cs349d_miniengine_sk_nc.Radix.Cache.{RadixCache}
use cs349d_miniengine_sk_nc.Radix.WellFormed.{IsWf}
use cs349d_miniengine_sk_nc.Radix.Match.{match_prefix}

pub record IsCache (cache : RadixCache) : Type 0 where
  pub paged : 0 < cache.page_size
  pub wf : IsWf cache.page_size cache.children

-- The pages that `match_prefix` reports.
abbrev pub cached : RadixCache → ℕ → List ℕ → List ℕ
cached cache now tokens = (match_prefix cache now tokens).1.matched_pages

-- The old pages, continued by those of the first `n` new ones that lie behind them.
abbrev pub continued : List ℕ → List ℕ → ℕ → List ℕ
continued old new n = old ++ drop (length old) (take n new)
