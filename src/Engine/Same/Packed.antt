-- ===== src/Engine/Same/Packed.antt =====
-- The packed step leaves its requests alone, but for the fields that the engine owns.
use cs349d_miniengine_sk_nc.Common.{
  ℕ, ◌+◌, ◌≡◌, refl, ap, inl, inr, List, [], ◌∷◌, ◌==◌, is_empty, Bool-cases, subst,
}
use cs349d_miniengine_sk_nc.Core.{Request, PagedRequestState}
use cs349d_miniengine_sk_nc.Radix.Cache.{Result, ok, err}
use cs349d_miniengine_sk_nc.Scheduler.Interface.{SameRequest, SameRequests}
use cs349d_miniengine_sk_nc.Engine.State.{Engine, ModelOps, Result-cases, page_size, paged_state}
use cs349d_miniengine_sk_nc.Engine.Store.{store_prefill_slice}
use cs349d_miniengine_sk_nc.Engine.Prefill.{sample_first_token_cached_prompt}
use cs349d_miniengine_sk_nc.Engine.Packed.{
  Slice, slices, sample_empty, store_active, store_slices, forward_slices, input_lens, step_size,
  rows_behind, prefill_packed_chunk_step,
}
use cs349d_miniengine_sk_nc.Engine.Same.{
  SameRequest-refl, SameRequests-refl, SameRequests-trans, owned,
  sample_first_token_cached_prompt-SameRequest,
}

unfoldable pub slice_requests : List Slice → List Request
slice_requests [] = []
slice_requests (s ∷ ss) = s.req ∷ slice_requests ss

slices_requests : (n : ℕ) (rs : List Request) → slice_requests (slices n rs) ≡ rs
unfolding slice_requests slices
slices_requests n [] = refl
slices_requests n (r ∷ rs) = ap (λ z. r ∷ z) (slices_requests n rs)

module _ {V L : Type 0} (model : ModelOps V L) where
  sample_empty-SameRequests :
      (e : Engine V) (ss : List Slice)
      → SameRequests (slice_requests ss) (slice_requests (sample_empty model e ss).1)
  unfolding sample_empty slice_requests
  sample_empty-SameRequests e [] = tt
  sample_empty-SameRequests e (s ∷ ss) = elim (Bool-cases (s.clen == 0)) [
    | inr active ↦
        rw (active, sample_empty) (SameRequest-refl s.req, sample_empty-SameRequests e ss)
    | inl nothing ↦
        let same = sample_first_token_cached_prompt-SameRequest model e s.req in
        elim (Result-cases (sample_first_token_cached_prompt model e s.req).2) [
          | inr (raised, q) ↦
              rw (nothing, sample_empty)
                (rw (q, sample_empty) (same, SameRequests-refl (slice_requests ss)))
          | inl (t, q) ↦
              rw (nothing, sample_empty)
                (rw (q, sample_empty)
                  (
                    same,
                    sample_empty-SameRequests (sample_first_token_cached_prompt model e s.req).0 ss,
                  ))
        ]
  ]

  store_active-SameRequest :
      (e : Engine V) (s : Slice) (state : PagedRequestState) (kv : List V) (start : ℕ)
      → SameRequest s.req (store_active model e s state kv start).1
  unfolding store_active
  store_active-SameRequest e s state kv start =
      elim (Bool-cases
        (store_prefill_slice (page_size e) e.store state.page_indices kv start s.clen).1) [
          | inl f ↦ rw f (SameRequest-refl s.req)
          | inr f ↦ rw f (owned s.req _ _ _ _ _)
        ]

  store_slices-SameRequests :
      (e : Engine V) (ss : List Slice) (kv : List V) (logits : List L) (start : ℕ)
      → SameRequests
          (slice_requests ss)
          (slice_requests (store_slices model e ss kv logits start).1)
  unfolding store_slices slice_requests
  store_slices-SameRequests e [] kv logits start = tt
  store_slices-SameRequests e (s ∷ ss) kv logits start = elim (Bool-cases (s.clen == 0)) [
    | inl nothing ↦
        rw (nothing, store_slices)
          (SameRequest-refl s.req, store_slices-SameRequests e ss kv logits start)
    | inr active ↦ elim (Result-cases (paged_state s.req)) [
      | inr (raised, q) ↦
          rw (active, store_slices)
            (rw (q, store_slices) (SameRequest-refl s.req, SameRequests-refl (slice_requests ss)))
      | inl (state, q) ↦
          let out = store_active model e s state kv start in
          elim (Bool-cases out.2) [
            | inl f ↦
                rw (active, store_slices)
                  (rw (q, store_slices)
                    (rw (f, store_slices)
                      (SameRequest-refl s.req, SameRequests-refl (slice_requests ss))))
            | inr f ↦
                rw (active, store_slices)
                  (rw (q, store_slices)
                    (rw (f, store_slices)
                      (
                        store_active-SameRequest e s state kv start,
                        store_slices-SameRequests out.0 ss kv (rows_behind model logits)
                            (start + s.clen),
                      )))
          ]
    ]
  ]

  forward-SameRequests :
      (out : Engine V × List Slice × Result (Unit {0}))
      → SameRequests (slice_requests out.1) (slice_requests (forward_slices model out).1)
  forward-SameRequests (e, ss, err raised) = SameRequests-refl (slice_requests ss)
  forward-SameRequests (e, ss, ok _) = elim (Bool-cases (is_empty (input_lens ss))) [
    | inl nothing ↦ rw (nothing, forward_slices) (SameRequests-refl (slice_requests ss))
    | inr active ↦ rw (active, forward_slices) (store_slices-SameRequests e ss _ _ 0)
  ]

  pub prefill_packed_chunk_step-SameRequests :
      (e : Engine V) (rs : List Request)
      → SameRequests rs (slice_requests (prefill_packed_chunk_step model e rs).1)
  unfolding prefill_packed_chunk_step
  prefill_packed_chunk_step-SameRequests e rs =
      let ss : List Slice = slices (step_size e.prefill_chunk_size rs) rs in
      subst (λ z. SameRequests z (slice_requests (prefill_packed_chunk_step model e rs).1))
        (slices_requests (step_size e.prefill_chunk_size rs) rs)
        (SameRequests-trans (slice_requests ss) _ _ (sample_empty-SameRequests e ss)
          (forward-SameRequests (sample_empty model e ss)))
