-- ===== src/Engine/DecodeBatch.antt =====
-- `_paged_batched_decode`: one token for every request, through the block table or over gathered KV.
pub mod Unwritten
pub mod Answers
use cs349d_miniengine_sk_nc.Common.{
  ℕ, max, List, [], ◌∷◌, Option, none, some, if◌then◌else◌, is_empty,
}
use cs349d_miniengine_sk_nc.Core.{Request, PagedRequestState}
use cs349d_miniengine_sk_nc.Radix.Cache.{Result, ok, err, index_error}
use cs349d_miniengine_sk_nc.Engine.State.{Engine, ModelOps, page_size, paged_state}
use cs349d_miniengine_sk_nc.Engine.Store.{padded_kv}
use cs349d_miniengine_sk_nc.Engine.Prefill.{last_id}
use cs349d_miniengine_sk_nc.Engine.Decode.{ensure_page, next_slot, with_state, longer}

-- `[self._paged_state(req) for req in requests]`, and the last tokens.
unfoldable pub states_of : List Request → Result (List PagedRequestState)
states_of [] = ok []
states_of (r ∷ rs) =
    let later = states_of rs in
    elim (paged_state r) [
      | err raised ↦ err raised
      | ok state ↦ elim later [ ok states ↦ ok (state ∷ states) | err raised ↦ err raised ]
    ]

unfoldable pub last_ids : List Request → Option (List ℕ)
last_ids [] = some []
last_ids (r ∷ rs) =
    let later = last_ids rs in
    elim (last_id r.output_ids) [
      | none ↦ none
      | some id ↦ elim later [ none ↦ none | some ids ↦ some (id ∷ ids) ]
    ]

abbrev pub cache_lens : List PagedRequestState → List ℕ
cache_lens [] = []
cache_lens (s ∷ ss) = s.kv_len ∷ cache_lens ss

abbrev pub max_len : List ℕ → ℕ
max_len [] = 0
max_len (n ∷ ns) = max n (max_len ns)

abbrev pub page_tables : List PagedRequestState → List (List ℕ)
page_tables [] = []
page_tables (s ∷ ss) = s.page_indices ∷ page_tables ss

-- A batch's outcome: the engine, the requests as far as they got, and the tokens.
abbrev pub Decoded : Type 0 → Type 0
Decoded V = Engine V × List Request × Result (List ℕ)

module _ {V L : Type 0} (model : ModelOps V L) (addr : ℕ → ℕ) where
  -- `_build_batched_kv_from_pool`.
  unfoldable pub batched_kv : Engine V → ℕ → List PagedRequestState → List (List V)
  batched_kv e longest [] = []
  batched_kv e longest (s ∷ ss) =
      padded_kv model.blank e.memory.pool.num_pages (page_size e) e.store s.page_indices s.kv_len
        longest
      ∷ batched_kv e longest ss

  -- The first loop of `_append_batched_last_token_kv_to_pool`: room for each token and its slot. A
  -- request that was passed counts its token before it is written.
  unfoldable pub claim_slots :
      Engine V → List Request → Engine V × List Request × Result (List (ℕ × ℕ))
  claim_slots e [] = (e, [], ok [])
  claim_slots e (r ∷ rs) = elim (paged_state r) [
    | err raised ↦ (e, r ∷ rs, err raised)
    | ok state ↦
        let (e', ensured) = ensure_page model addr e state in
        elim ensured [
          | err raised ↦ (e', r ∷ rs, err raised)
          | ok state' ↦ elim (next_slot model addr (page_size e) state') [
            | none ↦ (e', with_state model addr r state' ∷ rs, err index_error)
            | some place ↦
                let (e₁, later, out) = claim_slots e' rs in
                let r' = with_state model addr r (longer model addr state') in
                elim out [
                  | ok places ↦ (e₁, r' ∷ later, ok (place ∷ places))
                  | err raised ↦ (e₁, r' ∷ later, err raised)
                ]
          ]
        ]
  ]

  -- `sample_token` for each request and its row of logits.
  unfoldable pub sample_all : List Request → List L → List ℕ
  sample_all [] ls = []
  sample_all (r ∷ rs) [] = []
  sample_all (r ∷ rs) (l ∷ ls) = model.sample l r ∷ sample_all rs ls

  -- The rest of `_append_batched_last_token_kv_to_pool` is `pages[page_ids_t, slots_t].copy_(…)`. Tensors
  -- as indices make PyTorch copy, so it is the copy that is written, and the pages stay as they are.
  unfoldable pub decode_gathered :
      Engine V → List Request → List PagedRequestState → List ℕ → Decoded V
  unfolding claim_slots sample_all batched_kv
  decode_gathered e requests states ids =
      let lens = cache_lens states in
      let logits = (model.batched (batched_kv e (max_len lens) states) ids lens).1 in
      let (e', requests', claimed) = claim_slots e requests in
      elim claimed [
        | err raised ↦ (e', requests', err raised)
        | ok places ↦ (e', requests', ok (sample_all requests' logits))
      ]

  -- The capacity loop before a direct decode.
  unfoldable pub ensure_all :
      Engine V → List Request → Engine V × List Request × Result (List PagedRequestState)
  ensure_all e [] = (e, [], ok [])
  ensure_all e (r ∷ rs) = elim (paged_state r) [
    | err raised ↦ (e, r ∷ rs, err raised)
    | ok state ↦
        let (e', ensured) = ensure_page model addr e state in
        elim ensured [
          | err raised ↦ (e', r ∷ rs, err raised)
          | ok state' ↦
              let (e₁, later, out) = ensure_all e' rs in
              let r' = with_state model addr r state' in
              elim out [
                | ok states ↦ (e₁, r' ∷ later, ok (state' ∷ states))
                | err raised ↦ (e₁, r' ∷ later, err raised)
              ]
        ]
  ]

  -- `for st in states: st.kv_len += 1`.
  unfoldable pub lengthen : List Request → List PagedRequestState → List Request
  lengthen [] states = []
  lengthen (r ∷ rs) [] = r ∷ rs
  lengthen (r ∷ rs) (s ∷ ss) = with_state model addr r (longer model addr s) ∷ lengthen rs ss

  unfoldable pub decode_direct : Engine V → List Request → List ℕ → Decoded V
  unfolding ensure_all lengthen sample_all
  decode_direct e requests ids =
      let (e', requests', ensured) = ensure_all e requests in
      elim ensured [
        | err raised ↦ (e', requests', err raised)
        | ok states ↦
            let (store, logits) =
              model.direct e'.store (page_tables states) ids (cache_lens states) in
            let requests'' = lengthen requests' states in
            (record e' { store = store }, requests'', ok (sample_all requests'' logits))
      ]

  unfoldable pub paged_batched_decode : Engine V → List Request → Decoded V
  unfolding decode_gathered decode_direct states_of last_ids
  paged_batched_decode e requests = elim (states_of requests) [
    | err raised ↦ (e, requests, err raised)
    | ok states ↦ elim (last_ids requests) [
      | none ↦ (e, requests, err index_error)
      | some ids ↦
          if e.direct_paged_flash
          then decode_direct e requests ids
          else decode_gathered e requests states ids
    ]
  ]

  -- `batched_decode` in paged mode.
  unfoldable pub batched_decode : Engine V → List Request → Decoded V
  unfolding paged_batched_decode
  batched_decode e requests =
      if is_empty requests then (e, [], ok []) else paged_batched_decode e requests
