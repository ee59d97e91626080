-- ===== src/Engine/Decode.antt =====
-- Decoding: the last token of each request goes through the model over its cached KV, and its own KV
-- is appended to its pages.
pub mod Appends
use cs349d_miniengine_sk_nc.Common.{
  ℕ, suc, ◌+◌, ◌-◌, ◌/◌, ◌%◌, List, [], ◌∷◌, ◌++◌, Option, none, some, ltb, if◌then◌else◌, length,
  get_elem?,
}
use cs349d_miniengine_sk_nc.Core.{Request, PagedRequestState, num_input_tokens}
use cs349d_miniengine_sk_nc.Pool.{pages_needed}
use cs349d_miniengine_sk_nc.Radix.Cache.{Result, ok, err, index_error}
use cs349d_miniengine_sk_nc.Radix.Allocate.{allocate}
use cs349d_miniengine_sk_nc.Engine.State.{Engine, ModelOps, page_size, paged_state}
use cs349d_miniengine_sk_nc.Engine.Admission.{peak_pages}
use cs349d_miniengine_sk_nc.Engine.Store.{gather_kv, write, store_prefill_slice}
use cs349d_miniengine_sk_nc.Engine.Prefill.{Outcome, last_id, range_from}

module _ {V L : Type 0} (model : ModelOps V L) (addr : ℕ → ℕ) where
  -- Pages for one more token: `if needed_pages > len(state.page_indices): …`.
  unfoldable pub ensure_page : Engine V → PagedRequestState → Engine V × Result PagedRequestState
  ensure_page e state =
      let needed_pages = pages_needed (page_size e) (state.kv_len + 1) in
      let have = length state.page_indices in
      let (got, memory) = allocate addr e.memory (needed_pages - have) in
      let e' : Engine V = record e { memory = memory } in
      if ltb have needed_pages
      then elim got [
        | ok new_pages ↦ (e', ok (record state { page_indices = state.page_indices ++ new_pages }))
        | err raised ↦ (e', err raised)
      ]
      else (e, ok state)

  -- The page and the slot of the next token.
  unfoldable pub next_slot : ℕ → PagedRequestState → Option (ℕ × ℕ)
  next_slot page_size state = elim (get_elem? state.page_indices (state.kv_len / page_size)) [
    | none ↦ none
    | some page_id ↦ some (page_id, state.kv_len % page_size)
  ]

  abbrev pub with_state : Request → PagedRequestState → Request
  with_state req state = record req { kv_cache = some state }

  abbrev pub longer : PagedRequestState → PagedRequestState
  longer state = record state { kv_len = suc state.kv_len }

  -- `_append_last_token_kv_to_pool`.
  unfoldable pub append_last_token :
      Engine V → Request → PagedRequestState → V → Outcome V (Unit {0})
  unfolding ensure_page next_slot
  append_last_token e req state v =
      let (e', ensured) = ensure_page e state in
      elim ensured [
        | err raised ↦ (e', req, err raised)
        | ok state' ↦ elim (next_slot (page_size e) state') [
          | none ↦ (e', with_state req state', err index_error)
          | some (page_id, slot) ↦ (
            record e' { store = write e'.store page_id slot v },
            with_state req (longer state'),
            ok tt,
          )
        ]
      ]

  abbrev pub first_kv : V → List V → V
  first_kv d [] = d
  first_kv d (v ∷ vs) = v

  abbrev pub then_sample : L → Outcome V (Unit {0}) → Outcome V ℕ
  then_sample logits (e, req, ok _) = (e, req, ok (model.sample logits req))
  then_sample logits (e, req, err raised) = (e, req, err raised)

  -- `decode_step`.
  unfoldable pub decode_step : Engine V → Request → Outcome V ℕ
  unfolding append_last_token paged_state
  decode_step e req = elim (last_id req.output_ids) [
    | none ↦ (e, req, err index_error)
    | some id ↦ elim (paged_state req) [
      | err raised ↦ (e, req, err raised)
      | ok state ↦ elim (gather_kv (page_size e) e.store state.page_indices state.kv_len) [
        | none ↦ (e, req, err index_error)
        | some past ↦
            let (new, logits) = model.cached past (id ∷ []) (state.kv_len ∷ []) in
            then_sample logits (append_last_token e req state (first_kv model.blank new))
      ]
    ]
  ]

  -- `prefill` of a whole prompt, and `_store_prefill_kv_to_pool`.
  unfoldable pub prefill : Engine V → Request → Outcome V (Option ℕ)
  prefill e req =
      let n = num_input_tokens req in
      let (kv, logits) = model.packed req.input_ids (range_from 0 n) (n ∷ []) in
      let (got, memory) = allocate addr e.memory (peak_pages e req) in
      let e' : Engine V = record e { memory = memory } in
      elim got [
        | err raised ↦ (e', req, err raised)
        | ok pages ↦
            let (store, raised) = store_prefill_slice (page_size e) e.store pages kv 0 n in
            let req' : Request = with_state req (record { page_indices = pages; kv_len = n }) in
            let e'' : Engine V = record e' { store = store } in
            if raised
            then (e'', req, err index_error)
            else (e'', req', ok (first_token req' logits))
      ]
    where
      first_token : Request → List L → Option ℕ
      first_token r [] = none
      first_token r (l ∷ ls) = some (model.sample l r)
