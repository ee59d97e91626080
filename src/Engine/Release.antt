-- ===== src/Engine/Release.antt =====
-- `free_request_kv`: a finished sequence goes into the prefix cache, and what the cache does not take
-- goes back to the pool.
pub mod Outcomes
use cs349d_miniengine_sk_nc.Common.{
  ℕ, suc, ◌*◌, ◌/◌, List, ◌++◌, none, some, ltb, if◌then◌else◌, is_empty, length, take, drop,
}
use cs349d_miniengine_sk_nc.Core.{Request, PagedRequestState}
use cs349d_miniengine_sk_nc.Pool.{pages_needed}
use cs349d_miniengine_sk_nc.Radix.Cache.{RadixCache, Result, ok, err}
use cs349d_miniengine_sk_nc.Radix.Insert.{insert_and_return}
use cs349d_miniengine_sk_nc.Engine.State.{Engine, page_size, ticked, give_back}
use cs349d_miniengine_sk_nc.Engine.Init.{with_cache, unlock_prefix}

abbrev pub give_back_some : {V : Type 0} → Engine V → List ℕ → Engine V
give_back_some e pages = if is_empty pages then e else give_back e pages

-- The whole pages of a sequence.
unfoldable pub aligned_len : ℕ → List ℕ → ℕ
aligned_len page_size tokens = length tokens / page_size * page_size

module _ {V : Type 0} (clock addr : ℕ → ℕ) where
  -- `if aligned_len > 0: …`. The readings are those of `insert_and_return` and of a new node.
  unfoldable pub commit_aligned : Engine V → RadixCache → List ℕ → List ℕ → Result (Engine V)
  commit_aligned e cache tokens page_indices =
      let aligned = aligned_len (page_size e) tokens in
      let page_slice = take (pages_needed (page_size e) aligned) page_indices in
      let e' : Engine V = ticked (ticked e) in
      if ltb 0 aligned
      then elim (insert_and_return cache (clock e.readings) (clock (suc e.readings))
          (take aligned tokens) page_slice) [
            | ok (cache', node, redundant) ↦ ok (give_back_some (with_cache e' cache') redundant)
            | err raised ↦ err raised
          ]
      else ok e

  -- The rest of `_radix_cache_commit_request`: the pages behind, and the lock.
  abbrev pub commit_rest : Request → PagedRequestState → List ℕ → Engine V → Engine V
  commit_rest req state tokens e =
      unlock_prefix clock addr
        (give_back_some e
          (drop (pages_needed (page_size e) (aligned_len (page_size e) tokens)) state.page_indices))
        req.radix_lock_node

  unfoldable pub commit_request :
      Engine V → RadixCache → Request → PagedRequestState → Result (Engine V)
  unfolding commit_aligned aligned_len
  commit_request e cache req state =
      let tokens = req.input_ids ++ req.output_ids in
      elim (commit_aligned e cache tokens state.page_indices) [
        | ok e' ↦ ok (commit_rest req state tokens e')
        | err raised ↦ err raised
      ]

  unfoldable pub free_request_kv : Engine V → Request → Result (Engine V × Request)
  unfolding commit_request
  free_request_kv e req =
      let released : Request = record req { kv_cache = none; radix_lock_node = none } in
      elim (req.kv_cache) [
        | none ↦ ok (e, req)
        | some state ↦ elim (e.memory.cache) [
          | none ↦ ok (give_back e state.page_indices, released)
          | some cache ↦ elim (commit_request e cache req state) [
            | ok e' ↦ ok (e', released)
            | err raised ↦ err raised
          ]
        ]
      ]
