-- ===== src/Engine/Same/Batches.antt =====
-- `prefill_batch` as the scheduler relies on it: the same requests, and an answer for each.
use cs349d_miniengine_sk_nc.Common.{
  ℕ, suc, ◌≡◌, refl, sym, ap, ◌∙◌, inl, inr, List, [], ◌∷◌, Option, Bool, true, false, ◌==◌, ltb,
  is_empty, length, Bool-cases, Option-cases, ◌⊎◌, subst,
}
use cs349d_miniengine_sk_nc.Core.{Request, prefill_done}
use cs349d_miniengine_sk_nc.Radix.Cache.{Result, ok, err}
use cs349d_miniengine_sk_nc.Scheduler.Interface.{SameRequest, SameRequests}
use cs349d_miniengine_sk_nc.Engine.State.{Engine, ModelOps, Result-cases, paged_state}
use cs349d_miniengine_sk_nc.Engine.Prefill.{
  sample_first_token_cached_prompt, prefill_continuation_chunk,
}
use cs349d_miniengine_sk_nc.Engine.Packed.{Slice, prefill_packed_chunk_step}
use cs349d_miniengine_sk_nc.Engine.Batch.{
  Plan, settled, packs, continues, Slot, Batch, packing, weave, slot_requests, slot_results, set_up,
  settle_at, dispatch, plan_one, untouched, continued_at, at_once, plan_all, pack_step,
  continue_all, continue_step, prefill_batch_oneshot, prefill_batch_chunked, prefill_batch,
}
use cs349d_miniengine_sk_nc.Engine.Same.{
  SameRequest-refl, SameRequest-trans, SameRequests-refl, SameRequests-trans, SameRequests-length,
  owned, paged_prefill_init-SameRequest, sample_first_token_cached_prompt-SameRequest,
  prefill_continuation_chunk-SameRequest,
}
use cs349d_miniengine_sk_nc.Engine.Same.Packed.{
  slice_requests, prefill_packed_chunk_step-SameRequests,
}

Plan-cases : (p : Plan) → (p ≡ packs) ⊎ ((p ≡ continues) ⊎ ((x : Option ℕ) × (p ≡ settled x)))
Plan-cases packs = inl refl
Plan-cases continues = inr (inl refl)
Plan-cases (settled x) = inr (inr (x, refl))

packing-packs : (s : Slot) (ss : List Slot) → s.plan ≡ packs → packing (s ∷ ss) ≡ s.req ∷ packing ss
unfolding packing
packing-packs s ss q = rw (q, packing) refl

packing_passes :
    (s : Slot) (ss : List Slot)
    → (s.plan ≡ continues) ⊎ ((x : Option ℕ) × (s.plan ≡ settled x))
    → packing (s ∷ ss) ≡ packing ss
unfolding packing
packing_passes s ss (inl q) = rw (q, packing) refl
packing_passes s ss (inr (x, q)) = rw (q, packing) refl

weave-SameRequests :
    (ss : List Slot) (done : List Slice)
    → SameRequests (packing ss) (slice_requests done)
    → SameRequests (slot_requests ss) (slot_requests (weave ss done))
unfolding weave slot_requests
weave-SameRequests [] done h = tt
weave-SameRequests (s ∷ ss) [] h = SameRequests-refl (s.req ∷ slot_requests ss)
weave-SameRequests (s ∷ ss) (d ∷ done) h = elim (Plan-cases s.plan) [
  | inl q ↦
      let both : SameRequests (s.req ∷ packing ss) (d.req ∷ slice_requests done) =
        unfold slice_requests in
        subst (λ z. SameRequests z (d.req ∷ slice_requests done)) (packing-packs s ss q) h in
      rw (q, weave) (both.0, weave-SameRequests ss done both.1)
  | inr pass ↦
      let rest =
        subst (λ z. SameRequests z (slice_requests (d ∷ done))) (packing_passes s ss pass) h in
      elim pass [
        | inl q ↦ rw (q, weave) (SameRequest-refl s.req, weave-SameRequests ss (d ∷ done) rest)
        | inr (x, q) ↦ rw (q, weave) (SameRequest-refl s.req, weave-SameRequests ss (d ∷ done) rest)
      ]
]

slot_requests-untouched :
    {V L : Type 0} (model : ModelOps V L) (clock addr : ℕ → ℕ) (rs : List Request)
    → slot_requests (untouched model clock addr rs) ≡ rs
unfolding slot_requests untouched
slot_requests-untouched model clock addr [] = refl
slot_requests-untouched model clock addr (r ∷ rs) =
    ap (λ z. r ∷ z) (slot_requests-untouched model clock addr rs)

length-slot_results : (ss : List Slot) → length (slot_results ss) ≡ length (slot_requests ss)
unfolding slot_results slot_requests
length-slot_results [] = refl
length-slot_results (s ∷ ss) = ap suc (length-slot_results ss)

module _ {V L : Type 0} (model : ModelOps V L) (clock addr : ℕ → ℕ) where
  settle_request :
      (out : Engine V × Request × Result ℕ) → (settle_at model clock addr out).1.req ≡ out.1
  settle_request (e, r, ok t) = refl
  settle_request (e, r, err raised) = refl

  continued_request :
      (out : Engine V × Request × Result (Option ℕ))
      → (continued_at model clock addr out).1.req ≡ out.1
  continued_request (e, r, ok t) = refl
  continued_request (e, r, err raised) = refl

  dispatch-SameRequest :
      (e : Engine V) (r : Request) → SameRequest r (dispatch model clock addr e r).1.req
  unfolding dispatch
  dispatch-SameRequest e r = elim (Bool-cases (prefill_done r)) [
    | inl done ↦
        rw (done, dispatch)
          (subst (SameRequest r) (sym (settle_request (sample_first_token_cached_prompt model e r)))
            (sample_first_token_cached_prompt-SameRequest model e r))
    | inr more ↦ elim (Result-cases (paged_state r)) [
      | inr (raised, q) ↦ rw (more, dispatch) (rw (q, dispatch) (SameRequest-refl r))
      | inl (state, q) ↦ elim (Bool-cases (ltb 0 state.kv_len)) [
        | inl f ↦ rw (more, dispatch) (rw (q, dispatch) (rw (f, dispatch) (SameRequest-refl r)))
        | inr f ↦ rw (more, dispatch) (rw (q, dispatch) (rw (f, dispatch) (SameRequest-refl r)))
      ]
    ]
  ]

  set_up-SameRequest : (e : Engine V) (r : Request) → SameRequest r (set_up model clock addr e r).1
  unfolding set_up
  set_up-SameRequest e r = elim (Option-cases (r.kv_cache)) [
    | inl q ↦ simp (q, set_up) (paged_prefill_init-SameRequest clock addr e r)
    | inr (state, q) ↦ simp (q, set_up) (SameRequest-refl r)
  ]

  plan_one-SameRequest :
      (e : Engine V) (r : Request) → SameRequest r (plan_one model clock addr e r).1.req
  unfolding plan_one
  plan_one-SameRequest e r =
      let out = set_up model clock addr e r in
      let same = set_up-SameRequest e r in
      elim (Bool-cases out.2) [
        | inl raised ↦
            rw (raised, plan_one) (SameRequest-trans r out.1 _ same (owned out.1 _ _ _ _ true))
        | inr fine ↦
            rw (fine, plan_one)
              (SameRequest-trans r out.1 _ same (dispatch-SameRequest out.0 out.1))
      ]

  at_once-SameRequest :
      (oneshot : Bool) (out : Engine V × Slot × Result (Unit {0}))
      → SameRequest out.1.req (at_once model clock addr oneshot out).1.req
  at_once-SameRequest false out = SameRequest-refl out.1.req
  at_once-SameRequest true (e, s, err raised) = SameRequest-refl s.req
  at_once-SameRequest true (e, s, ok _) = elim (Plan-cases s.plan) [
    | inl q ↦ rw (q, at_once) (SameRequest-refl s.req)
    | inr (inr (x, q)) ↦ rw (q, at_once) (SameRequest-refl s.req)
    | inr (inl q) ↦
        rw (q, at_once)
          (subst (SameRequest s.req)
            (sym (continued_request (prefill_continuation_chunk model e s.req)))
            (prefill_continuation_chunk-SameRequest model e s.req))
  ]

  plan_all-SameRequests :
      (oneshot : Bool) (e : Engine V) (rs : List Request)
      → SameRequests rs (slot_requests (plan_all model clock addr oneshot e rs).1)
  unfolding plan_all slot_requests
  plan_all-SameRequests oneshot e [] = tt
  plan_all-SameRequests oneshot e (r ∷ rs) =
      let out = at_once model clock addr oneshot (plan_one model clock addr e r) in
      let same : SameRequest r out.1.req =
        SameRequest-trans r _ out.1.req (plan_one-SameRequest e r)
          (at_once-SameRequest oneshot (plan_one model clock addr e r)) in
      elim (Result-cases out.2) [
        | inr (raised, q) ↦
            rw (q, plan_all)
              (
                same,
                subst (SameRequests rs) (sym (slot_requests-untouched model clock addr rs))
                    (SameRequests-refl rs),
              )
        | inl (done, q) ↦ rw (q, plan_all) (same, plan_all-SameRequests oneshot out.0 rs)
      ]

  pack_step-SameRequests :
      (b : Batch V)
      → SameRequests (slot_requests b.1) (slot_requests (pack_step model clock addr b).1)
  pack_step-SameRequests (e, ss, err raised) = SameRequests-refl (slot_requests ss)
  pack_step-SameRequests (e, ss, ok _) = elim (Bool-cases (is_empty (packing ss))) [
    | inl nothing ↦ rw (nothing, pack_step) (SameRequests-refl (slot_requests ss))
    | inr some_ ↦
        rw (some_, pack_step)
          (weave-SameRequests ss (prefill_packed_chunk_step model e (packing ss)).1
            (prefill_packed_chunk_step-SameRequests model e (packing ss)))
  ]

  continue_all-SameRequests :
      (e : Engine V) (ss : List Slot)
      → SameRequests (slot_requests ss) (slot_requests (continue_all model clock addr e ss).1)
  unfolding continue_all slot_requests
  continue_all-SameRequests e [] = tt
  continue_all-SameRequests e (s ∷ ss) =
      let out = at_once model clock addr true (e, s, ok tt) in
      let same = at_once-SameRequest true (e, s, ok tt) in
      elim (Result-cases out.2) [
        | inr (raised, q) ↦ rw (q, continue_all) (same, SameRequests-refl (slot_requests ss))
        | inl (done, q) ↦ rw (q, continue_all) (same, continue_all-SameRequests out.0 ss)
      ]

  continue_step-SameRequests :
      (b : Batch V)
      → SameRequests (slot_requests b.1) (slot_requests (continue_step model clock addr b).1)
  continue_step-SameRequests (e, ss, err raised) = SameRequests-refl (slot_requests ss)
  continue_step-SameRequests (e, ss, ok _) = continue_all-SameRequests e ss

  -- On every path, exceptions included, a batched prefill leaves the requests in their order with their
  -- identities, output tokens, limits and queues, and has a result for each of them.
  pub prefill_batch-SameRequests :
      (e : Engine V) (rs : List Request)
      → SameRequests rs (slot_requests (prefill_batch model clock addr e rs).1)
        × (length (slot_results (prefill_batch model clock addr e rs).1) ≡ length rs)
  prefill_batch-SameRequests e rs =
      let same = kept e rs in
      (
        same,
        length-slot_results (prefill_batch model clock addr e rs).1 ∙ SameRequests-length rs _ same,
      )
    where
      planned :
          (oneshot : Bool) (e : Engine V) (rs : List Request)
          → SameRequests rs (
              slot_requests (pack_step model clock addr (plan_all model clock addr oneshot e rs)).1)
      planned oneshot e rs =
          SameRequests-trans rs (slot_requests (plan_all model clock addr oneshot e rs).1) _
            (plan_all-SameRequests oneshot e rs)
            (pack_step-SameRequests (plan_all model clock addr oneshot e rs))

      kept :
          (e : Engine V) (rs : List Request)
          → SameRequests rs (slot_requests (prefill_batch model clock addr e rs).1)
      kept e [] = unfold prefill_batch slot_requests in tt
      kept e (r ∷ rs) = elim (Bool-cases (e.prefill_chunk_size == 0)) [
        | inl oneshot ↦
            unfold prefill_batch prefill_batch_oneshot in
            rw (oneshot, prefill_batch) (planned true e (r ∷ rs))
        | inr chunked ↦
            unfold prefill_batch prefill_batch_chunked in
            rw (chunked, prefill_batch)
              (SameRequests-trans (r ∷ rs) _ _ (planned false e (r ∷ rs)) (
                continue_step-SameRequests
                  (pack_step model clock addr (plan_all model clock addr false e (r ∷ rs)))))
      ]
