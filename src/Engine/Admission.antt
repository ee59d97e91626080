-- ===== src/Engine/Admission.antt =====
-- Admission: a candidate is let in when worst-case pages for everyone fit and its own can be had.
pub mod Admits
use cs349d_miniengine_sk_nc.Common.{
  ℕ, ◌+◌, List, [], ◌∷◌, Bool, false, ltb, leb, if◌then◌else◌, length,
}
use cs349d_miniengine_sk_nc.Core.{Request}
use cs349d_miniengine_sk_nc.Pool.{num_free, pages_needed}
use cs349d_miniengine_sk_nc.Radix.Allocate.{num_evictable}
use cs349d_miniengine_sk_nc.Engine.State.{Engine, page_size}

module _ {V : Type 0} where
  unfoldable pub peak_pages : Engine V → Request → ℕ
  peak_pages e req = pages_needed (page_size e) (length req.input_ids + req.max_new_tokens)

  unfoldable pub total_peak : Engine V → List Request → ℕ
  total_peak e [] = 0
  total_peak e (r ∷ rs) = peak_pages e r + total_peak e rs

  unfoldable pub kv_can_admit : Engine V → List Request → Request → Bool
  unfolding total_peak
  kv_can_admit e active candidate =
      let total = total_peak e active + peak_pages e candidate in
      let available = num_free e.memory.pool + num_evictable e.memory in
      if ltb e.memory.pool.num_pages total then false else leb (peak_pages e candidate) available
