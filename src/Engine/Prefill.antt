-- ===== src/Engine/Prefill.antt =====
-- Prefill: prompts go through the model whole or in chunks, and their KV into their pages. Each
-- function returns the engine, the requests as it leaves them, and a result that may be an exception.
pub mod Chunks
pub mod Progress
use cs349d_miniengine_sk_nc.Common.{
  ℕ, zero, suc, ◌+◌, ◌-◌, min, List, [], ◌∷◌, Option, none, some, ◌==◌, if◌then◌else◌, take, drop,
}
use cs349d_miniengine_sk_nc.Core.{Request, PagedRequestState, num_input_tokens, prefill_done}
use cs349d_miniengine_sk_nc.Radix.Cache.{Result, ok, err, index_error}
use cs349d_miniengine_sk_nc.Engine.State.{Engine, ModelOps, page_size, paged_state}
use cs349d_miniengine_sk_nc.Engine.Store.{gather_kv, store_prefill_slice}

-- `range(start, start + n)`.
unfoldable pub range_from : ℕ → ℕ → List ℕ
range_from start zero = []
range_from start (suc n) = start ∷ range_from (suc start) n

abbrev pub remaining : Request → ℕ
remaining req = num_input_tokens req - req.prefill_offset

-- `input_ids[-1]`.
unfoldable pub last_id : List ℕ → Option ℕ
last_id [] = none
last_id (x ∷ []) = some x
last_id (x ∷ y ∷ xs) = last_id (y ∷ xs)

abbrev pub Outcome : Type 0 → Type 0 → Type 0
Outcome V A = Engine V × Request × Result A

module _ {V L : Type 0} (model : ModelOps V L) where
  -- `_sample_first_token_cached_prompt`, the state at hand: the last prompt token goes through the
  -- model once more, over the KV of the whole prompt.
  unfoldable pub sample_cached : Engine V → Request → PagedRequestState → Outcome V ℕ
  sample_cached e req state =
      let n = num_input_tokens req in
      let state' : PagedRequestState = record state { kv_len = n } in
      let req' : Request = record req { kv_cache = some state'; prefill_offset = n } in
      elim (last_id req.input_ids) [
        | none ↦ (e, req', err index_error)
        | some id ↦ elim (gather_kv (page_size e) e.store state.page_indices n) [
          | none ↦ (e, req', err index_error)
          | some past ↦
              (e, req', ok (model.sample (model.cached past (id ∷ []) ((n - 1) ∷ [])).1 req'))
        ]
      ]

  unfoldable pub sample_first_token_cached_prompt : Engine V → Request → Outcome V ℕ
  unfolding sample_cached paged_state
  sample_first_token_cached_prompt e req = elim (paged_state req) [
    | err raised ↦ (e, req, err raised)
    | ok state ↦ sample_cached e req state
  ]

  abbrev pub as_some : Outcome V ℕ → Outcome V (Option ℕ)
  as_some (e, req, ok t) = (e, req, ok (some t))
  as_some (e, req, err raised) = (e, req, err raised)

  -- The next `clen` tokens of the prompt over the `kv_len` tokens that are in the pages.
  unfoldable pub continue_chunk : Engine V → Request → PagedRequestState → ℕ → Outcome V (Option ℕ)
  continue_chunk e req state clen =
      let chunk_ids = take clen (drop req.prefill_offset req.input_ids) in
      elim (gather_kv (page_size e) e.store state.page_indices state.kv_len) [
        | none ↦ (e, req, err index_error)
        | some past ↦
            let (new, logits) = model.cached past chunk_ids (range_from state.kv_len clen) in
            let (store, raised) =
              store_prefill_slice (page_size e) e.store state.page_indices new 0 clen in
            let e' : Engine V = record e { store = store } in
            let state' : PagedRequestState = record state { kv_len = state.kv_len + clen } in
            let req' : Request = record req {
              kv_cache = some state';
              prefill_offset = req.prefill_offset + clen;
            } in
            if raised then (e', req, err index_error) else (
              e',
              req',
              ok (if prefill_done req' then some (model.sample logits req') else none),
            )
      ]

  -- `_prefill_continuation_chunk`.
  unfoldable pub prefill_continuation_chunk : Engine V → Request → Outcome V (Option ℕ)
  unfolding sample_first_token_cached_prompt continue_chunk paged_state
  prefill_continuation_chunk e req =
      let chunk_size = if e.prefill_chunk_size == 0 then remaining req else e.prefill_chunk_size in
      let clen = min (remaining req) chunk_size in
      let cached_prompt = as_some (sample_first_token_cached_prompt e req) in
      if prefill_done req
      then cached_prompt
      else if clen == 0
      then cached_prompt
      else elim (paged_state req) [
        | err raised ↦ (e, req, err raised)
        | ok state ↦ continue_chunk e req state clen
      ]
