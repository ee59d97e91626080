-- ===== src/Scheduler/Steps/Conserved/Dropped.antt =====
-- Which requests a step leaves in no queue: none, unless a prefill of the batched mode raises.
use cs349d_miniengine_sk_nc.Common.{
  ℕ, ◌≤◌, ◌≡◌, refl, ◌∙◌, List, [], ◌∷◌, ◌++◌, Bool, true, false, Option, is_empty, arith,
  Bool-cases, Option-cases, inl, inr, ap,
}
use cs349d_miniengine_sk_nc.Core.{Request}
use cs349d_miniengine_sk_nc.Scheduler.Interface.{EngineOps, EngineLaws}
use cs349d_miniengine_sk_nc.Scheduler.State.{
  Scheduler, stream_token, check_finished, finish_request,
}
use cs349d_miniengine_sk_nc.Scheduler.Steps.{
  started, deliver, to_running, prefill_each, settle, decode_phase, sort_prefilled, prefill_phase,
  and_then,
}
use cs349d_miniengine_sk_nc.Scheduler.Steps.Conserved.{bears, copies}

module _ {E : Type 0} (ops : EngineOps E) where
  deliver-dropped :
      (s : Scheduler E) (req : Request) (token_id : ℕ)
      → (deliver ops s req token_id (to_running ops)).dropped ≡ s.dropped
  unfolding deliver finish_request
  deliver-dropped s req token_id =
      elim (Bool-cases (check_finished ops (stream_token ops req token_id) token_id)) [
        | inl done ↦ rw done refl
        | inr more ↦ rw more refl
      ]

  settle-dropped :
      (s : Scheduler E) (reqs : List Request) (token_ids : List ℕ) (still_running : List Request)
      → (settle ops s reqs token_ids still_running).dropped ≡ s.dropped
  unfolding settle finish_request
  settle-dropped s [] token_ids still_running = refl
  settle-dropped s (req ∷ reqs) [] still_running = refl
  settle-dropped s (req ∷ reqs) (token_id ∷ token_ids) still_running =
      let req' = stream_token ops req token_id in
      elim (Bool-cases (check_finished ops req' token_id)) [
        | inl done ↦
            rw (done, settle)
              (settle-dropped (finish_request ops s req') reqs token_ids still_running)
        | inr more ↦
            rw (more, settle) (settle-dropped s reqs token_ids (still_running ++ req' ∷ []))
      ]

  decode_phase-dropped : (s : Scheduler E) → (decode_phase ops s).0.dropped ≡ s.dropped
  unfolding decode_phase
  decode_phase-dropped s =
      let out = ops.batched_decode s.engine s.running in
      elim (Bool-cases (is_empty s.running)) [
        | inl idle ↦ rw idle refl
        | inr busy ↦ elim (Option-cases (out.2)) [
          | inl raised ↦ rw (busy, raised, decode_phase) refl
          | inr (token_ids, e) ↦
              rw (busy, e, decode_phase)
                (settle-dropped (record s { engine = out.0; running = out.1 }) out.1 token_ids [])
        ]
      ]

  sort_prefilled-dropped :
      (s : Scheduler E) (reqs : List Request) (tokens : List (Option ℕ))
      (still_prefilling retracted : List Request)
      → (sort_prefilled ops s reqs tokens still_prefilling retracted).0.dropped ≡ s.dropped
  unfolding sort_prefilled
  sort_prefilled-dropped s [] tokens still_prefilling retracted = refl
  sort_prefilled-dropped s (req ∷ reqs) [] still_prefilling retracted = refl
  sort_prefilled-dropped s (req ∷ reqs) (token ∷ tokens) still_prefilling retracted =
      elim (Bool-cases req.needs_retract) [
        | inl back ↦
            rw (back, sort_prefilled) (sort_prefilled-dropped s reqs tokens still_prefilling _)
        | inr on ↦ elim (Option-cases token) [
          | inl e ↦ rw (on, e, sort_prefilled) (sort_prefilled-dropped s reqs tokens _ retracted)
          | inr (token_id, e) ↦
              rw (on, e, sort_prefilled)
                (sort_prefilled-dropped (deliver ops s req token_id (to_running ops)) reqs tokens
                    still_prefilling retracted
                  ∙ deliver-dropped s req token_id)
        ]
      ]

  prefill_phase-dropped : (s : Scheduler E) → (prefill_phase ops s).0.dropped ≡ s.dropped
  unfolding prefill_phase
  prefill_phase-dropped s =
      let out = ops.prefill_batch s.engine s.prefilling in
      elim (Bool-cases (is_empty s.prefilling)) [
        | inl idle ↦ rw idle refl
        | inr busy ↦ elim (Option-cases (out.2)) [
          | inl raised ↦ rw (busy, raised, prefill_phase) refl
          | inr (tokens, e) ↦
              rw (busy, e, prefill_phase)
                (sort_prefilled-dropped (record s { engine = out.0; prefilling = out.1 }) out.1
                  tokens [] [])
        ]
      ]

  pub and_then-dropped :
      (r : Scheduler E × Bool) → (and_then ops r (decode_phase ops)).0.dropped ≡ r.0.dropped
  and_then-dropped (s, true) = refl
  and_then-dropped (s, false) = decode_phase-dropped s

  -- The paged phases drop nothing.
  pub paged-dropped :
      (s : Scheduler E)
      → (and_then ops (prefill_phase ops s) (decode_phase ops)).0.dropped ≡ s.dropped
  paged-dropped s = and_then-dropped (prefill_phase ops s) ∙ prefill_phase-dropped s

  -- A prefill loop that does not raise drops nothing; one that raises, only requests it was given.
  pub prefill_each-dropped :
      (laws : EngineLaws ops) (s : Scheduler E) (reqs : List Request)
      → let r = prefill_each ops s reqs in
        (lost : List Request) × (r.0.dropped ≡ lost ++ s.dropped)
        × (r.1 ≡ false → lost ≡ [])
        × ((i : ℕ) → copies i lost ≤ copies i reqs)
  unfolding prefill_each
  prefill_each-dropped laws s [] = ([], refl, (λ h. refl), λ i. omega arith)
  prefill_each-dropped laws s (req ∷ reqs) =
      let out = ops.prefill s.engine (started req) in
      let s' : Scheduler E = record s { engine = out.0 } in
      let same = (laws.prefill_same s.engine (started req)).request_id in
      elim (Option-cases (out.2)) [
        | inl raised ↦
            rw (raised, prefill_each)
              (out.1 ∷ reqs, refl, (λ h. cc), λ i. omega (arith, ap (λ z. bears i z) same))
        | inr (token_id, e) ↦
            let (lost, all, none_lost, given) =
              prefill_each-dropped laws (deliver ops s' out.1 token_id (to_running ops)) reqs in
            rw (e, prefill_each)
              (
                lost,
                all ∙ ap (◌++◌ lost) (deliver-dropped s' out.1 token_id),
                none_lost,
                λ i. omega (arith, given i),
              )
      ]
