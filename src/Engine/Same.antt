-- ===== src/Engine/Same.antt =====
-- Requests that the engine's calls on one request leave alone, but for the fields it owns.
pub mod Packed
pub mod Batches
use cs349d_miniengine_sk_nc.Common.{
  ℕ, suc, ◌-◌, min, ◌≡◌, refl, sym, ap, ◌∙◌, inl, inr, List, [], ◌∷◌, Option, none, Bool, ◌==◌,
  length, Bool-cases, Option-cases, if◌then◌else◌, take, drop, subst,
}
use cs349d_miniengine_sk_nc.Core.{Request, PagedRequestState, num_input_tokens, prefill_done}
use cs349d_miniengine_sk_nc.Radix.Cache.{ok, err}
use cs349d_miniengine_sk_nc.Radix.Allocate.{allocate}
use cs349d_miniengine_sk_nc.Scheduler.Interface.{SameRequest, SameRequests}
use cs349d_miniengine_sk_nc.Engine.State.{Result-cases, Engine, ModelOps, page_size, paged_state}
use cs349d_miniengine_sk_nc.Engine.Admission.{peak_pages}
use cs349d_miniengine_sk_nc.Engine.Store.{gather_kv, store_prefill_slice}
use cs349d_miniengine_sk_nc.Engine.Init.{
  lookup_prefix, reserve_pages, paged_prefill_init, rollback_prefill_init,
}
use cs349d_miniengine_sk_nc.Engine.Prefill.{
  Outcome, as_some, last_id, range_from, remaining, sample_cached, sample_first_token_cached_prompt,
  continue_chunk, prefill_continuation_chunk,
}

pub SameRequest-refl : (r : Request) → SameRequest r r
SameRequest-refl r = record {
  request_id = refl;
  output_ids = refl;
  max_new_tokens = refl;
  token_queue = refl;
}

pub SameRequest-trans : (a b c : Request) → SameRequest a b → SameRequest b c → SameRequest a c
SameRequest-trans a b c h k = record {
  request_id = k.request_id ∙ h.request_id;
  output_ids = k.output_ids ∙ h.output_ids;
  max_new_tokens = k.max_new_tokens ∙ h.max_new_tokens;
  token_queue = k.token_queue ∙ h.token_queue;
}

pub SameRequests-refl : (rs : List Request) → SameRequests rs rs
SameRequests-refl [] = tt
SameRequests-refl (r ∷ rs) = (SameRequest-refl r, SameRequests-refl rs)

pub SameRequests-trans :
    (xs ys zs : List Request) → SameRequests xs ys → SameRequests ys zs → SameRequests xs zs
SameRequests-trans [] [] zs h k = k
SameRequests-trans [] (y ∷ ys) zs h k = absurd h
SameRequests-trans (x ∷ xs) [] zs h k = absurd h
SameRequests-trans (x ∷ xs) (y ∷ ys) [] h k = absurd k
SameRequests-trans (x ∷ xs) (y ∷ ys) (z ∷ zs) h k =
    (SameRequest-trans x y z h.0 k.0, SameRequests-trans xs ys zs h.1 k.1)

pub SameRequests-length : (rs rs' : List Request) → SameRequests rs rs' → length rs' ≡ length rs
SameRequests-length [] [] h = refl
SameRequests-length [] (r ∷ rs) h = absurd h
SameRequests-length (q ∷ qs) [] h = absurd h
SameRequests-length (q ∷ qs) (r ∷ rs) h = ap suc (SameRequests-length qs rs h.1)

-- The fields that the engine owns.
pub owned :
    (r : Request) (k : Option PagedRequestState) (hits offset : ℕ) (lock : Option ℕ)
    (retract : Bool)
    → SameRequest r (record r {
      kv_cache = k;
      cache_hit_tokens = hits;
      prefill_offset = offset;
      radix_lock_node = lock;
      needs_retract = retract;
    })
owned r k hits offset lock retract = record {
  request_id = refl;
  output_ids = refl;
  max_new_tokens = refl;
  token_queue = refl;
}

module _ {V : Type 0} (clock addr : ℕ → ℕ) where
  lookup_prefix-SameRequest :
      (e : Engine V) (r : Request) → SameRequest r (lookup_prefix clock addr e r).1
  unfolding lookup_prefix
  lookup_prefix-SameRequest e r = elim (Option-cases (e.memory.cache)) [
    | inl q ↦ rw q (owned r _ _ _ _ _)
    | inr (cache, q) ↦ rw q (owned r _ _ _ _ _)
  ]

  reserve_pages-SameRequest :
      (e : Engine V) (r : Request) (matched : List ℕ)
      → SameRequest r (reserve_pages clock addr e r matched).1
  unfolding reserve_pages
  reserve_pages-SameRequest e r matched =
      elim (Result-cases (allocate addr e.memory (peak_pages e r - length matched)).0) [
        | inl (new, q) ↦ rw (q, reserve_pages) (owned r _ _ _ _ _)
        | inr (raised, q) ↦
            rw (q, reserve_pages)
              (unfold rollback_prefill_init in owned r none 0 0 none r.needs_retract)
      ]

  pub paged_prefill_init-SameRequest :
      (e : Engine V) (r : Request) → SameRequest r (paged_prefill_init clock addr e r).1
  unfolding paged_prefill_init
  paged_prefill_init-SameRequest e r =
      let out = lookup_prefix clock addr e r in
      SameRequest-trans r out.1 _ (lookup_prefix-SameRequest e r)
        (reserve_pages-SameRequest out.0 out.1 out.2)

module _ {V L : Type 0} (model : ModelOps V L) where
  sample_cached-SameRequest :
      (e : Engine V) (r : Request) (state : PagedRequestState)
      → SameRequest r (sample_cached model e r state).1
  unfolding sample_cached
  sample_cached-SameRequest e r state = elim (Option-cases (last_id r.input_ids)) [
    | inl q ↦ rw (q, sample_cached) (owned r _ _ _ _ _)
    | inr (id, q) ↦
        elim (Option-cases
          (gather_kv (page_size e) e.store state.page_indices (num_input_tokens r))) [
            | inl f ↦ rw (q, sample_cached) (rw (f, sample_cached) (owned r _ _ _ _ _))
            | inr (past, f) ↦ rw (q, sample_cached) (rw (f, sample_cached) (owned r _ _ _ _ _))
          ]
  ]

  pub sample_first_token_cached_prompt-SameRequest :
      (e : Engine V) (r : Request) → SameRequest r (sample_first_token_cached_prompt model e r).1
  unfolding sample_first_token_cached_prompt
  sample_first_token_cached_prompt-SameRequest e r = elim (Result-cases (paged_state r)) [
    | inr (raised, q) ↦ rw (q, sample_first_token_cached_prompt) (SameRequest-refl r)
    | inl (state, q) ↦
        rw (q, sample_first_token_cached_prompt) (sample_cached-SameRequest e r state)
  ]

  continue_chunk-SameRequest :
      (e : Engine V) (r : Request) (state : PagedRequestState) (clen : ℕ)
      → SameRequest r (continue_chunk model e r state clen).1
  unfolding continue_chunk
  continue_chunk-SameRequest e r state clen =
      elim (Option-cases (gather_kv (page_size e) e.store state.page_indices state.kv_len)) [
        | inl q ↦ rw (q, continue_chunk) (SameRequest-refl r)
        | inr (past, q) ↦
            let new : List V =
              (model.cached past (take clen (drop r.prefill_offset r.input_ids))
                (range_from state.kv_len clen)).0 in
            elim (Bool-cases
              (store_prefill_slice (page_size e) e.store state.page_indices new 0 clen).1) [
                | inl f ↦ rw (q, continue_chunk) (rw f (SameRequest-refl r))
                | inr f ↦ rw (q, continue_chunk) (rw f (owned r _ _ _ _ _))
              ]
      ]

  as_some_request : (out : Outcome V ℕ) → (as_some model out).1 ≡ out.1
  as_some_request (e, r, ok t) = refl
  as_some_request (e, r, err raised) = refl

  pub prefill_continuation_chunk-SameRequest :
      (e : Engine V) (r : Request) → SameRequest r (prefill_continuation_chunk model e r).1
  unfolding prefill_continuation_chunk
  prefill_continuation_chunk-SameRequest e r =
      let cached_prompt : SameRequest r
          (as_some model (sample_first_token_cached_prompt model e r)).1 =
        subst (SameRequest r) (sym (as_some_request (sample_first_token_cached_prompt model e r)))
          (sample_first_token_cached_prompt-SameRequest e r) in
      let chunk_size : ℕ =
        if e.prefill_chunk_size == 0 then remaining r else e.prefill_chunk_size in
      elim (Bool-cases (prefill_done r)) [
        | inl done ↦ rw (done, prefill_continuation_chunk) cached_prompt
        | inr more ↦ elim (Bool-cases (min (remaining r) chunk_size == 0)) [
          | inl nothing ↦
              rw (more, prefill_continuation_chunk)
                (rw (nothing, prefill_continuation_chunk) cached_prompt)
          | inr some_ ↦ elim (Result-cases (paged_state r)) [
            | inr (raised, q) ↦
                rw (more, prefill_continuation_chunk)
                  (rw (some_, prefill_continuation_chunk)
                    (rw (q, prefill_continuation_chunk) (SameRequest-refl r)))
            | inl (state, q) ↦
                rw (more, prefill_continuation_chunk)
                  (rw (some_, prefill_continuation_chunk)
                    (rw (q, prefill_continuation_chunk) (continue_chunk-SameRequest e r state _)))
          ]
        ]
      ]
