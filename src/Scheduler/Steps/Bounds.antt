-- ===== src/Scheduler/Steps/Bounds.antt =====
-- How many requests a step of the batching modes holds.
use cs349d_miniengine_sk_nc.Common.{
  ℕ, suc, ◌+◌, ◌≤◌, ◌≡◌, refl, List, [], ◌∷◌, ◌++◌, Option, Bool, true, false, is_empty, length,
  length-append, arith, Bool-cases, Option-cases, inl, inr, max,
}
use cs349d_miniengine_sk_nc.Core.{Request}
use cs349d_miniengine_sk_nc.Scheduler.Interface.{EngineOps, EngineLaws, SameRequests}
use cs349d_miniengine_sk_nc.Scheduler.State.{
  Scheduler, remove, stream_token, check_finished, finish_request,
}
use cs349d_miniengine_sk_nc.Scheduler.Steps.{
  admit, started, start_all, deliver, to_running, prefill_each, settle, decode_phase, and_then,
  step_batched, admit_paged, sort_prefilled, prefill_phase, step_paged, back_to_waiting,
}

pub length-remove : (i : ℕ) (rs : List Request) → length (remove i rs) ≤ length rs
unfolding remove
length-remove i [] = omega arith
length-remove i (r ∷ rs) = ground (arith, length-remove i rs)

pub length-SameRequests : (qs rs : List Request) → SameRequests qs rs → length rs ≡ length qs
length-SameRequests [] [] h = refl
length-SameRequests [] (r ∷ rs) h = absurd h
length-SameRequests (q ∷ qs) [] h = absurd h
length-SameRequests (q ∷ qs) (r ∷ rs) h = omega (arith, length-SameRequests qs rs h.1)

length-start_all : (rs : List Request) → length (start_all rs) ≡ length rs
length-start_all [] = refl
length-start_all (r ∷ rs) = omega (arith, length-start_all rs)

length-admit :
    (max_running n : ℕ) (reqs : List Request)
    → length (admit max_running n reqs).0 + n ≤ max n max_running
unfolding admit
length-admit max_running n [] = omega arith
length-admit max_running n (req ∷ reqs) = ground (arith, length-admit max_running (suc n) reqs)

-- `t` holds at most `a` running requests and no more prefilling ones than `s`.
record Holds {E : Type 0} (s t : Scheduler E) (a : ℕ) : Type 0 where
  pub run : length t.running ≤ a
  pub pre : length t.prefilling ≤ length s.prefilling

module _ {E : Type 0} (ops : EngineOps E) where
  length-admit_paged :
      (e : E) (max_running : ℕ) (active reqs : List Request)
      → length (admit_paged ops e max_running active reqs).0 + length active
        ≤ max (length active) max_running
  unfolding admit_paged
  length-admit_paged e max_running active [] = omega arith
  length-admit_paged e max_running active (req ∷ reqs) = ground (
    arith,
    length-admit_paged e max_running (active ++ req ∷ []) reqs,
    length-append active (req ∷ []),
  )

  finish-Holds :
      (s : Scheduler E) (req : Request) → Holds s (finish_request ops s req) (length s.running)
  unfolding finish_request
  finish-Holds s req = record {
    run = length-remove req.request_id s.running;
    pre = length-remove req.request_id s.prefilling;
  }

  deliver-Holds :
      (s : Scheduler E) (req : Request) (token_id : ℕ)
      → Holds s (deliver ops s req token_id (to_running ops)) (suc (length s.running))
  unfolding deliver
  deliver-Holds s req token_id =
      let req' = stream_token ops req token_id in
      let f = finish-Holds s req' in
      elim (Bool-cases (check_finished ops req' token_id)) [
        | inl done ↦ rw done (record { run = omega (arith, f.run); pre = f.pre })
        | inr more ↦
            rw more (record {
              run = omega (arith, length-append s.running (req' ∷ []));
              pre = omega arith;
            })
      ]

  prefill_each-Holds :
      (s : Scheduler E) (reqs : List Request)
      → Holds s (prefill_each ops s reqs).0 (length s.running + length reqs)
  unfolding prefill_each
  prefill_each-Holds s [] = record { run = omega arith; pre = omega arith }
  prefill_each-Holds s (req ∷ reqs) =
      let out = ops.prefill s.engine (started req) in
      let s' : Scheduler E = record s { engine = out.0 } in
      elim (Option-cases (out.2)) [
        | inl raised ↦ rw (raised, prefill_each) (record { run = omega arith; pre = omega arith })
        | inr (token_id, e) ↦
            let d = deliver-Holds s' out.1 token_id in
            let rest = prefill_each-Holds (deliver ops s' out.1 token_id (to_running ops)) reqs in
            rw (e, prefill_each)
              (record {
                run = omega (arith, rest.run, d.run);
                pre = omega (arith, rest.pre, d.pre);
              })
      ]

  settle-Holds :
      (s : Scheduler E) (reqs : List Request) (token_ids : List ℕ) (still_running : List Request)
      → Holds s (settle ops s reqs token_ids still_running) (length still_running + length reqs)
  unfolding settle
  settle-Holds s [] token_ids still_running = record { run = omega arith; pre = omega arith }
  settle-Holds s (req ∷ reqs) [] still_running = record { run = omega arith; pre = omega arith }
  settle-Holds s (req ∷ reqs) (token_id ∷ token_ids) still_running =
      let req' = stream_token ops req token_id in
      elim (Bool-cases (check_finished ops req' token_id)) [
        | inl done ↦
            let f = finish-Holds s req' in
            let rest = settle-Holds (finish_request ops s req') reqs token_ids still_running in
            rw done (record { run = omega (arith, rest.run); pre = omega (arith, rest.pre, f.pre) })
        | inr more ↦
            let rest = settle-Holds s reqs token_ids (still_running ++ req' ∷ []) in
            rw more (record {
              run = omega (arith, rest.run, length-append still_running (req' ∷ []));
              pre = omega (arith, rest.pre);
            })
      ]

  decode_phase-Holds :
      (s : Scheduler E) → EngineLaws ops → Holds s (decode_phase ops s).0 (length s.running)
  unfolding decode_phase
  decode_phase-Holds s laws =
      let out = ops.batched_decode s.engine s.running in
      let s' : Scheduler E = record s { engine = out.0; running = out.1 } in
      let same =
        length-SameRequests s.running out.1 (laws.batched_decode_same s.engine s.running) in
      elim (Bool-cases (is_empty s.running)) [
        | inl idle ↦ rw idle (record { run = omega arith; pre = omega arith })
        | inr busy ↦ elim (Option-cases (out.2)) [
          | inl raised ↦
              rw (busy, raised, decode_phase)
                (record { run = omega (arith, same); pre = omega arith })
          | inr (token_ids, e) ↦
              let f = settle-Holds s' out.1 token_ids [] in
              rw (busy, e, decode_phase)
                (record { run = omega (arith, f.run, same); pre = omega (arith, f.pre) })
        ]
      ]

  and_then-decode :
      (r : Scheduler E × Bool)
      → EngineLaws ops
      → Holds r.0 (and_then ops r (decode_phase ops)).0 (length r.0.running)
  and_then-decode (s, true) laws = record { run = omega arith; pre = omega arith }
  and_then-decode (s, false) laws = decode_phase-Holds s laws

  sort_prefilled-bound :
      (s : Scheduler E) (reqs : List Request) (tokens : List (Option ℕ))
      (still_prefilling retracted : List Request)
      → let r = sort_prefilled ops s reqs tokens still_prefilling retracted in
        length r.0.running + length r.1 ≤ length s.running + length still_prefilling + length reqs
  unfolding sort_prefilled
  sort_prefilled-bound s [] tokens still_prefilling retracted = omega arith
  sort_prefilled-bound s (req ∷ reqs) [] still_prefilling retracted = omega arith
  sort_prefilled-bound s (req ∷ reqs) (token ∷ tokens) still_prefilling retracted =
      elim (Bool-cases req.needs_retract) [
        | inl back ↦
            rw (back, sort_prefilled)
              (omega (
                arith,
                sort_prefilled-bound s reqs tokens still_prefilling
                    (retracted ++ back_to_waiting ops req ∷ []),
              ))
        | inr on ↦ elim (Option-cases token) [
          | inl e ↦
              rw (on, e, sort_prefilled)
                (omega (
                  arith,
                  sort_prefilled-bound s reqs tokens (still_prefilling ++ req ∷ []) retracted,
                  length-append still_prefilling (req ∷ []),
                ))
          | inr (token_id, e) ↦
              rw (on, e, sort_prefilled)
                (omega (
                  arith,
                  sort_prefilled-bound (deliver ops s req token_id (to_running ops)) reqs tokens
                      still_prefilling retracted,
                  (deliver-Holds s req token_id).run,
                ))
        ]
      ]

  prefill_phase-bound :
      (s : Scheduler E)
      → EngineLaws ops
      → let t = (prefill_phase ops s).0 in
        length t.running + length t.prefilling ≤ length s.running + length s.prefilling
  unfolding prefill_phase
  prefill_phase-bound s laws =
      let out = ops.prefill_batch s.engine s.prefilling in
      let s' : Scheduler E = record s { engine = out.0; prefilling = out.1 } in
      let same =
        length-SameRequests s.prefilling out.1 (laws.prefill_batch_same s.engine s.prefilling) in
      elim (Bool-cases (is_empty s.prefilling)) [
        | inl idle ↦ rw idle (omega arith)
        | inr busy ↦ elim (Option-cases (out.2)) [
          | inl raised ↦ rw (busy, raised, prefill_phase) (omega (arith, same))
          | inr (tokens, e) ↦
              rw (busy, e, prefill_phase)
                (omega (arith, same, sort_prefilled-bound s' out.1 tokens [] []))
        ]
      ]

pub step_batched-prefilling :
    {E : Type 0} (ops : EngineOps E) (s : Scheduler E)
    → EngineLaws ops
    → length (step_batched ops s).0.prefilling ≤ length s.prefilling
unfolding step_batched
step_batched-prefilling ops s laws =
    let taken = admit s.max_running (length s.running) s.waiting in
    let first = prefill_each ops (record s { waiting = taken.1 }) taken.0 in
    omega (
      arith,
      (prefill_each-Holds ops (record s { waiting = taken.1 }) taken.0).pre,
      (and_then-decode ops first laws).pre,
    )

-- A batched step, whether it raises or not, leaves at most `max_running` requests running, if that
-- many ran before it and the engine keeps its contract.
pub step_batched_bound :
    {E : Type 0} (ops : EngineOps E) (s : Scheduler E)
    → EngineLaws ops
    → length s.running ≤ s.max_running
    → length (step_batched ops s).0.running ≤ s.max_running
unfolding step_batched
step_batched_bound ops s laws h =
    let taken = admit s.max_running (length s.running) s.waiting in
    let first = prefill_each ops (record s { waiting = taken.1 }) taken.0 in
    omega (
      arith,
      h,
      length-admit s.max_running (length s.running) s.waiting,
      (prefill_each-Holds ops (record s { waiting = taken.1 }) taken.0).run,
      (and_then-decode ops first laws).run,
    )

-- A paged step, whether it raises or not, leaves at most `max_running` requests that run or
-- prefill, if that many did before it and the engine keeps its contract.
pub step_paged_bound :
    {E : Type 0} (ops : EngineOps E) (s : Scheduler E)
    → EngineLaws ops
    → length s.running + length s.prefilling ≤ s.max_running
    → let t = (step_paged ops s).0 in length t.running + length t.prefilling ≤ s.max_running
unfolding step_paged
step_paged_bound ops s laws h =
    let taken = admit_paged ops s.engine s.max_running (s.running ++ s.prefilling) s.waiting in
    let s' = record s { waiting = taken.1; prefilling = s.prefilling ++ start_all taken.0 } in
    let decoded = and_then-decode ops (prefill_phase ops s') laws in
    omega (
      arith,
      h,
      length-admit_paged ops s.engine s.max_running (s.running ++ s.prefilling) s.waiting,
      length-append s.running s.prefilling,
      length-append s.prefilling (start_all taken.0),
      length-start_all taken.0,
      prefill_phase-bound ops s' laws,
      decoded.run,
      decoded.pre,
    )
