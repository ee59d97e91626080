-- ===== src/Engine/Admission/Admits.antt =====
-- What an admission guarantees.
use cs349d_miniengine_sk_nc.Common.{ℕ, ◌+◌, ◌≤◌, ◌≡◌, List, true, arith, inl, inr}
use cs349d_miniengine_sk_nc.Core.{Request}
use cs349d_miniengine_sk_nc.Pool.{num_free}
use cs349d_miniengine_sk_nc.Radix.Cache.{ok}
use cs349d_miniengine_sk_nc.Radix.Allocate.{Memory, allocate, num_evictable}
use cs349d_miniengine_sk_nc.Radix.Allocate.Exact.{IsLiveMemory, Hands, allocate_exact}
use cs349d_miniengine_sk_nc.Engine.State.{Engine}
use cs349d_miniengine_sk_nc.Engine.Admission.{peak_pages, total_peak, kv_can_admit}

module _ {V : Type 0} where
  admitted :
      (e : Engine V) (active : List Request) (candidate : Request)
      → kv_can_admit e active candidate ≡ true
      → (total_peak e active + peak_pages e candidate ≤ e.memory.pool.num_pages)
        × (peak_pages e candidate ≤ num_free e.memory.pool + num_evictable e.memory)
  unfolding kv_can_admit
  admitted e active candidate h = (ground (arith, h), ground (arith, h))

  -- With a cache as the engine keeps it, a candidate that is admitted fits: the worst cases of the
  -- active requests and its own fit into the pool together, and the pages of its worst case can be
  -- had at once, from the free and the evictable ones.
  pub kv_can_admit_lem :
      (addr : ℕ → ℕ) (e : Engine V) (active : List Request) (candidate : Request)
      → IsLiveMemory e.memory.cache
      → kv_can_admit e active candidate ≡ true
      → (total_peak e active + peak_pages e candidate ≤ e.memory.pool.num_pages)
        × (pages : List ℕ) × (after : Memory) × (allocate addr e.memory (peak_pages e candidate)
            ≡ (ok pages, after))
        × Hands e.memory (peak_pages e candidate) pages after
  kv_can_admit_lem addr e active candidate v h =
      let (fits, available) = admitted e active candidate h in
      elim (allocate_exact addr e.memory (peak_pages e candidate) v) [
        | inl (pages, after, _, q, k) ↦ (fits, pages, after, q, k)
        | inr (after, short, _, _) ↦ absurd (omega (arith, available, short))
      ]
