-- ===== src/Scheduler/Steps/Conserved/Batched.antt =====
-- The steps of the batching modes keep every request in exactly one place.
use cs349d_miniengine_sk_nc.Common.{
  ℕ, ◌+◌, ◌≤◌, ◌≡◌, refl, sym, ap, ◌∙◌, List, [], ◌∷◌, ◌++◌, Bool, true, false, is_empty, length,
  arith, Bool-cases, Option-cases, inl, inr,
}
use cs349d_miniengine_sk_nc.Core.{Request}
use cs349d_miniengine_sk_nc.Scheduler.Interface.{EngineOps, EngineLaws}
use cs349d_miniengine_sk_nc.Scheduler.State.{
  Scheduler, stream_token, check_finished, finish_request,
}
use cs349d_miniengine_sk_nc.Scheduler.Steps.{
  admit, started, deliver, to_running, prefill_each, settle, decode_phase, and_then, step_batched,
}
use cs349d_miniengine_sk_nc.Scheduler.Steps.Bounds.{length-SameRequests}
use cs349d_miniengine_sk_nc.Scheduler.Steps.Conserved.{
  bears, bears_self, copies, copies_waiting_or_left, copies_held, copies-append,
  copies-SameRequests, copies-admit, finish-left, finish-prefilling, stream_id, deliver-running,
  deliver-prefilling, copies_kept,
}
use cs349d_miniengine_sk_nc.Scheduler.Steps.Conserved.Dropped.{
  and_then-dropped, prefill_each-dropped,
}

module _ {E : Type 0} (ops : EngineOps E) (laws : EngineLaws ops) where
  -- A pending request that is the only one of its name stands in no queue.
  prefill_each-keeps :
      (s : Scheduler E) (reqs : List Request)
      → ((i : ℕ) → copies_held i s + copies i reqs ≤ 1)
      → (i : ℕ) → copies_held i (prefill_each ops s reqs).0 ≡ copies_held i s + copies i reqs
  unfolding prefill_each
  prefill_each-keeps s [] h i = omega arith
  prefill_each-keeps s (req ∷ reqs) h i =
      let out = ops.prefill s.engine (started req) in
      let s' : Scheduler E = record s { engine = out.0 } in
      let same = (laws.prefill_same s.engine (started req)).request_id in
      elim (Option-cases (out.2)) [
        | inl raised ↦
            rw (raised, prefill_each)
              (omega (arith, copies-append i reqs s.dropped, ap (λ z. bears i z) same))
        | inr (token_id, e) ↦
            let once = h out.1.request_id in
            let own = bears_self out.1.request_id in
            let mine : bears out.1.request_id req.request_id ≡ 1 =
              ap (λ z. bears out.1.request_id z) (sym same) ∙ own in
            let kept : (j : ℕ)
                → copies_held j (deliver ops s' out.1 token_id (to_running ops))
                  ≡ bears j req.request_id + copies_held j s =
              λ j. omega (
                arith,
                deliver-running ops laws j s' out.1 token_id (omega (arith, once, mine)),
                deliver-prefilling ops laws j s' out.1 token_id (omega (arith, once, mine)),
                ap (λ z. bears j z) same,
              ) in
            rw (e, prefill_each)
              (omega (
                arith,
                prefill_each-keeps (deliver ops s' out.1 token_id (to_running ops)) reqs
                    (λ j. omega (arith, kept j, h j)) i,
                kept i,
              ))
      ]

  -- While the decode loop runs, the requests stand in what is left of the snapshot and in
  -- `still_running`, not in `running`.
  settle-keeps :
      (s : Scheduler E) (reqs : List Request) (token_ids : List ℕ) (still_running : List Request)
      → length token_ids ≡ length reqs
      → ((i : ℕ)
          → copies_waiting_or_left i s
              + copies i s.prefilling
              + copies i reqs
              + copies i still_running
            ≤ 1)
      → (i : ℕ)
      → copies_held i (settle ops s reqs token_ids still_running)
        ≡ copies_waiting_or_left i s
          + copies i s.prefilling
          + copies i reqs
          + copies i still_running
  unfolding settle
  settle-keeps s [] token_ids still_running len h i = omega arith
  settle-keeps s (req ∷ reqs) [] still_running len h i = absurd (omega arith)
  settle-keeps s (req ∷ reqs) (token_id ∷ token_ids) still_running len h i =
      let req' = stream_token ops req token_id in
      let same = stream_id ops laws req token_id in
      let absent : copies req'.request_id s.prefilling ≡ 0 = omega (
        arith,
        h req'.request_id,
        bears_self req'.request_id,
        ap (λ z. bears req'.request_id z) same,
      ) in
      let own : (j : ℕ) → bears j req'.request_id ≡ bears j req.request_id =
        λ j. ap (λ z. bears j z) same in
      elim (Bool-cases (check_finished ops req' token_id)) [
        | inl done ↦
            let kept : (j : ℕ)
                → copies_waiting_or_left j (finish_request ops s req')
                    + copies j (finish_request ops s req').prefilling
                  ≡ bears j req.request_id + copies_waiting_or_left j s + copies j s.prefilling =
              λ j. omega (
                arith,
                finish-left ops laws j s req',
                finish-prefilling ops laws j s req' absent,
                own j,
              ) in
            rw (done, settle)
              (omega (
                arith,
                kept i,
                settle-keeps (finish_request ops s req') reqs token_ids still_running (omega arith)
                    (λ j. omega (arith, h j, kept j)) i,
              ))
        | inr more ↦
            rw (more, settle)
              (omega (
                arith,
                own i,
                copies-append i still_running (req' ∷ []),
                settle-keeps s reqs token_ids (still_running ++ req' ∷ []) (omega arith)
                    (λ j. omega (arith, h j, own j, copies-append j still_running (req' ∷ []))) i,
              ))
      ]

  decode_phase-keeps :
      (s : Scheduler E)
      → ((i : ℕ) → copies_held i s ≤ 1)
      → (i : ℕ) → copies_held i (decode_phase ops s).0 ≡ copies_held i s
  unfolding decode_phase
  decode_phase-keeps s h i =
      let out = ops.batched_decode s.engine s.running in
      let s' : Scheduler E = record s { engine = out.0; running = out.1 } in
      let same = λ (j : ℕ).
        copies-SameRequests j s.running out.1 (laws.batched_decode_same s.engine s.running) in
      elim (Bool-cases (is_empty s.running)) [
        | inl idle ↦ rw idle refl
        | inr busy ↦ elim (Option-cases (out.2)) [
          | inl raised ↦ rw (busy, raised, decode_phase) (omega (arith, same i))
          | inr (token_ids, e) ↦
              rw (busy, e, decode_phase)
                (omega (
                  arith,
                  same i,
                  settle-keeps s' out.1 token_ids []
                      (laws.batched_decode_length s.engine s.running token_ids e
                        ∙ sym (length-same s.engine s.running))
                      (λ j. omega (arith, h j, same j)) i,
                ))
        ]
      ]
    where
      length-same : (e : E) (rs : List Request) → length (ops.batched_decode e rs).1 ≡ length rs
      length-same e rs = length-SameRequests rs _ (laws.batched_decode_same e rs)

  pub and_then-keeps :
      (r : Scheduler E × Bool)
      → ((i : ℕ) → copies_held i r.0 ≤ 1)
      → (i : ℕ) → copies_held i (and_then ops r (decode_phase ops)).0 ≡ copies_held i r.0
  and_then-keeps (s, true) h i = refl
  and_then-keeps (s, false) h i = decode_phase-keeps s h i

-- A step that did not raise did not raise in its first phase.
quiet_first :
    {E : Type 0} (ops : EngineOps E) (r : Scheduler E × Bool)
    → (and_then ops r (decode_phase ops)).1 ≡ false
    → r.1 ≡ false
quiet_first ops (s, true) h = h
quiet_first ops (s, false) h = refl

-- The step keeps what is held, counting what it holds itself when it raises.
pub step_batched-copies :
    {E : Type 0} (ops : EngineOps E) (s : Scheduler E)
    → EngineLaws ops
    → ((i : ℕ) → copies_held i s ≤ 1)
    → (i : ℕ) → copies_held i (step_batched ops s).0 ≡ copies_held i s
unfolding step_batched
step_batched-copies {E} ops s laws h i =
    let taken = admit s.max_running (length s.running) s.waiting in
    let s' : Scheduler E = record s { waiting = taken.1 } in
    let split = λ (j : ℕ). copies-admit j s.max_running (length s.running) s.waiting in
    let first = prefill_each-keeps ops laws s' taken.0 (λ j. omega (arith, h j, split j)) in
    and_then-keeps ops laws (prefill_each ops s' taken.0)
      (λ j. omega (arith, first j, h j, split j)) i
    ∙ omega (arith, first i, split i)

-- If no two requests that the scheduler has or had bear one name and the engine keeps its contract,
-- then after a batched step each request waits, prefills, runs or has been finished, together as
-- often as before, but for the requests `lost`. A step that does not raise loses none; one that
-- raises loses only requests that waited.
pub step_batched_keeps :
    {E : Type 0} (ops : EngineOps E) (s : Scheduler E)
    → EngineLaws ops
    → ((i : ℕ) → copies_held i s ≤ 1)
    → let r = step_batched ops s in
      (lost : List Request) × (r.1 ≡ false → lost ≡ [])
      × ((i : ℕ)
          → (copies_kept i r.0 + copies i lost ≡ copies_kept i s)
            × (copies i lost ≤ copies i s.waiting))
unfolding step_batched
step_batched_keeps ops s laws h =
    let taken = admit s.max_running (length s.running) s.waiting in
    let s' = record s { waiting = taken.1 } in
    let first = prefill_each ops s' taken.0 in
    let (lost, all, none_lost, given) = prefill_each-dropped ops laws s' taken.0 in
    (
      lost,
      λ quiet. none_lost (quiet_first ops first quiet),
      λ i.
          let dropped = and_then-dropped ops first ∙ all in
          (
            omega (
              arith,
              step_batched-copies ops s laws h i,
              ap (copies i) dropped,
              copies-append i lost s.dropped,
            ),
            omega (arith, given i, copies-admit i s.max_running (length s.running) s.waiting),
          ),
    )
