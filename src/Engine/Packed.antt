-- ===== src/Engine/Packed.antt =====
-- `_prefill_packed_chunk_step`: the next slices of several prompts in one forward pass.
use cs349d_miniengine_sk_nc.Common.{
  ℕ, ◌+◌, min, max, List, [], ◌∷◌, ◌++◌, Option, none, some, Bool, true, false, ◌==◌, if◌then◌else◌,
  is_empty, take, drop,
}
use cs349d_miniengine_sk_nc.Core.{Request, PagedRequestState, prefill_done}
use cs349d_miniengine_sk_nc.Radix.Cache.{Result, ok, err, index_error}
use cs349d_miniengine_sk_nc.Engine.State.{Engine, ModelOps, page_size, paged_state}
use cs349d_miniengine_sk_nc.Engine.Store.{store_prefill_slice}
use cs349d_miniengine_sk_nc.Engine.Prefill.{range_from, remaining, sample_first_token_cached_prompt}

-- A request of the step, the length of its slice and its result.
pub record Slice : Type 0 where
  pub req : Request
  pub clen : ℕ
  pub result : Option ℕ

-- `max(len(r.input_ids) - r.prefill_offset for r in requests)`.
unfoldable pub longest : List Request → ℕ
longest [] = 0
longest (r ∷ rs) = max (remaining r) (longest rs)

-- `self.prefill_chunk_size or max(…)`.
abbrev pub step_size : ℕ → List Request → ℕ
step_size prefill_chunk_size requests =
    if prefill_chunk_size == 0 then longest requests else prefill_chunk_size

unfoldable pub slices : ℕ → List Request → List Slice
slices chunk_size [] = []
slices chunk_size (r ∷ rs) =
    record { req = r; clen = min (remaining r) chunk_size; result = none } ∷ slices chunk_size rs

-- `packed_ids`, `packed_pos` and `input_lens`.
unfoldable pub packed_ids : List Slice → List ℕ
packed_ids [] = []
packed_ids (s ∷ ss) = take s.clen (drop s.req.prefill_offset s.req.input_ids) ++ packed_ids ss

unfoldable pub packed_pos : List Slice → List ℕ
packed_pos [] = []
packed_pos (s ∷ ss) = range_from s.req.prefill_offset s.clen ++ packed_pos ss

unfoldable pub input_lens : List Slice → List ℕ
input_lens [] = []
input_lens (s ∷ ss) = if s.clen == 0 then input_lens ss else s.clen ∷ input_lens ss

module _ {V L : Type 0} (model : ModelOps V L) where
  -- The requests with nothing left: their first token is sampled from the cached prompt.
  unfoldable pub sample_empty : Engine V → List Slice → Engine V × List Slice × Result (Unit {0})
  sample_empty e [] = (e, [], ok tt)
  sample_empty e (s ∷ ss) =
      let (e', req, out) = sample_first_token_cached_prompt model e s.req in
      let (e₁, done, r) = sample_empty e' ss in
      let (e₂, later, q) = sample_empty e ss in
      if s.clen == 0
      then elim out [
        | err raised ↦ (e', record s { req = req } ∷ ss, err raised)
        | ok t ↦ (e₁, record s { req = req; result = some t } ∷ done, r)
      ]
      else (e₂, s ∷ later, q)

  -- One active request: its slice of the KV, which begins at `start`, goes into its pages.
  unfoldable pub store_active :
      Engine V → Slice → PagedRequestState → List V → ℕ → Engine V × Request × Bool
  store_active e s state kv start =
      let (store, raised) =
        store_prefill_slice (page_size e) e.store state.page_indices kv start s.clen in
      let state' : PagedRequestState = record state { kv_len = state.kv_len + s.clen } in
      (
        record e { store = store },
        (if raised then s.req else record (s.req) {
          kv_cache = some state';
          prefill_offset = s.req.prefill_offset + s.clen;
        }),
        raised,
      )

  -- The sampled token: only for a slice that ends its prompt.
  abbrev pub sampled : Slice → Request → Option L → Option ℕ
  sampled s req none = none
  sampled s req (some logits) =
      if prefill_done req
      then (if s.clen == remaining s.req then some (model.sample logits req) else none)
      else none

  abbrev pub first_row : List L → Option L
  first_row [] = none
  first_row (l ∷ ls) = some l

  abbrev pub rows_behind : List L → List L
  rows_behind [] = []
  rows_behind (l ∷ ls) = ls

  -- The loop over the active requests, with the rows of logits that are left.
  unfoldable pub store_slices :
      Engine V → List Slice → List V → List L → ℕ → Engine V × List Slice × Result (Unit {0})
  store_slices e [] kv logits start = (e, [], ok tt)
  store_slices e (s ∷ ss) kv logits start = elim (s.clen == 0) [
    | true ↦ let (e', later, r) = store_slices e ss kv logits start in (e', s ∷ later, r)
    | false ↦ elim (paged_state s.req) [
      | err raised ↦ (e, s ∷ ss, err raised)
      | ok state ↦
          let (e', req, raised) = store_active e s state kv start in
          elim raised [
            | true ↦ (e', s ∷ ss, err index_error)
            | false ↦
                let (e₁, later, r) = store_slices e' ss kv (rows_behind logits) (start + s.clen) in
                (e₁, record s { req = req; result = sampled s req (first_row logits) } ∷ later, r)
          ]
    ]
  ]

  abbrev pub forward_slices :
      Engine V × List Slice × Result (Unit {0}) → Engine V × List Slice × Result (Unit {0})
  forward_slices (e, ss, err raised) = (e, ss, err raised)
  forward_slices (e, ss, ok _) =
      let (kv, logits) = model.packed (packed_ids ss) (packed_pos ss) (input_lens ss) in
      let stored = store_slices e ss kv logits 0 in
      if is_empty (input_lens ss) then (e, ss, ok tt) else stored

  unfoldable pub prefill_packed_chunk_step :
      Engine V → List Request → Engine V × List Slice × Result (Unit {0})
  unfolding slices packed_ids packed_pos input_lens sample_empty store_active store_slices longest
  prefill_packed_chunk_step e requests =
      forward_slices (sample_empty e (slices (step_size e.prefill_chunk_size requests) requests))
