-- ===== src/Scheduler/Steps.antt =====
-- `_step_baseline`, `_step_batched` and `_step_paged`. A step returns the state and whether it
-- raised; the loop then aborts what is in flight.
pub mod Bounds
pub mod Conserved
pub mod Drains
use cs349d_miniengine_sk_nc.Common.{
  ℕ, zero, suc, List, [], ◌∷◌, ◌++◌, Option, none, some, Bool, true, false, ◌&&◌, ltb,
  if◌then◌else◌, is_empty, length, not, ◌||◌,
}
use cs349d_miniengine_sk_nc.Core.{Request, RequestStatus, running, waiting}
use cs349d_miniengine_sk_nc.Scheduler.Interface.{EngineOps}
use cs349d_miniengine_sk_nc.Scheduler.State.{
  Scheduler, stream_token, check_finished, finish_request, abort_inflight_requests,
}
use cs349d_miniengine_sk_nc.Engine.Batch.{prefill_batch}
use cs349d_miniengine_sk_nc.Engine.Decode.{decode_step, prefill}
use cs349d_miniengine_sk_nc.Engine.DecodeBatch.{batched_decode}

abbrev pub started : Request → Request
started req = record req { status = RequestStatus.running }

abbrev pub start_all : List Request → List Request
start_all [] = []
start_all (r ∷ rs) = started r ∷ start_all rs

-- The admission loop of `_step_batched`: `n` requests run or were taken.
unfoldable pub admit : ℕ → ℕ → List Request → List Request × List Request
admit max_running n [] = ([], [])
admit max_running n (req ∷ reqs) =
    let more = admit max_running (suc n) reqs in
    if ltb n max_running then (req ∷ more.0, more.1) else ([], req ∷ reqs)

module _ {E : Type 0} (ops : EngineOps E) where
  -- What becomes of a request that has just got a token: it is finished, or it goes on to `keep`.
  pub deliver : Scheduler E → Request → ℕ → (Scheduler E → Request → Scheduler E) → Scheduler E
  unfolding stream_token check_finished finish_request
  deliver s req token_id keep =
      let req' = stream_token ops req token_id in
      if check_finished ops req' token_id then finish_request ops s req' else keep s req'

  abbrev pub to_running : Scheduler E → Request → Scheduler E
  to_running s req = record s { running = s.running ++ req ∷ [] }

  -- The `while` loop of `_step_baseline`; without fuel the request is still being decoded.
  baseline_loop : ℕ → Scheduler E → Request → ℕ → Scheduler E × Bool
  baseline_loop zero s req token_id = (record s { dropped = req ∷ s.dropped }, true)
  baseline_loop (suc fuel) s req token_id = elim (check_finished ops req token_id) [
    | Bool.true ↦ (finish_request ops s req, false)
    | Bool.false ↦
        let out = ops.decode_step s.engine req in
        let s' : Scheduler E = record s { engine = out.0 } in
        elim (out.2) [
          | none ↦ (record s' { dropped = out.1 ∷ s.dropped }, true)
          | some next ↦ baseline_loop fuel s' (stream_token ops out.1 next) next
        ]
  ]

  -- After the first token at most `max_new_tokens` rounds are made.
  pub step_baseline : Scheduler E → Scheduler E × Bool
  unfolding baseline_loop check_finished stream_token finish_request
  step_baseline s = elim (s.waiting) [
    | [] ↦ (s, false)
    | req ∷ reqs ↦
        let out = ops.prefill s.engine (started req) in
        let s' : Scheduler E = record s { engine = out.0; waiting = reqs } in
        elim (out.2) [
          | none ↦ (record s' { dropped = out.1 ∷ s.dropped }, true)
          | some token_id ↦
              baseline_loop (suc req.max_new_tokens) s' (stream_token ops out.1 token_id) token_id
        ]
  ]

  -- Phase 1 of `_step_batched`. When a prefill raises, the requests that were taken from the queue
  -- and not yet prefilled are held by the step alone.
  pub prefill_each : Scheduler E → List Request → Scheduler E × Bool
  prefill_each s [] = (s, false)
  prefill_each s (req ∷ reqs) =
      let out = ops.prefill s.engine (started req) in
      let s' : Scheduler E = record s { engine = out.0 } in
      elim (out.2) [
        | none ↦ (record s' { dropped = out.1 ∷ (reqs ++ s.dropped) }, true)
        | some token_id ↦ prefill_each (deliver s' out.1 token_id to_running) reqs
      ]

  -- The loop over `zip(list(self.running), token_ids)`; what it keeps is the new `running`.
  settle : Scheduler E → List Request → List ℕ → List Request → Scheduler E
  settle s (req ∷ reqs) (token_id ∷ token_ids) still_running =
      let req' = stream_token ops req token_id in
      let done = check_finished ops req' token_id in
      settle (if done then finish_request ops s req' else s) reqs token_ids
        (if done then still_running else still_running ++ req' ∷ [])
  settle s (req ∷ reqs) [] still_running = record s { running = still_running }
  settle s [] token_ids still_running = record s { running = still_running }

  -- Phase 2: one token for every running request.
  pub decode_phase : Scheduler E → Scheduler E × Bool
  unfolding settle stream_token check_finished finish_request
  decode_phase s =
      let out = ops.batched_decode s.engine s.running in
      let s' : Scheduler E = record s { engine = out.0; running = out.1 } in
      if is_empty s.running then (s, false) else elim (out.2) [
        | none ↦ (s', true)
        | some token_ids ↦ (settle s' out.1 token_ids [], false)
      ]

  -- The second phase runs unless the first raised.
  abbrev pub and_then : Scheduler E × Bool → (Scheduler E → Scheduler E × Bool) → Scheduler E × Bool
  and_then (s, raised) next = elim raised [ Bool.true ↦ (s, true) | Bool.false ↦ next s ]

  pub step_batched : Scheduler E → Scheduler E × Bool
  unfolding admit prefill_each deliver decode_phase
  step_batched s =
      let taken = admit s.max_running (length s.running) s.waiting in
      and_then (prefill_each (record s { waiting = taken.1 }) taken.0) decode_phase

  -- The admission loop of `_step_paged`; `active` holds those that run, prefill or were taken.
  admit_paged : E → ℕ → List Request → List Request → List Request × List Request
  admit_paged e max_running active [] = ([], [])
  admit_paged e max_running active (cand ∷ reqs) =
      let more = admit_paged e max_running (active ++ cand ∷ []) reqs in
      if ltb (length active) max_running && ops.paged_kv_can_admit e active cand
      then (cand ∷ more.0, more.1)
      else ([], cand ∷ reqs)

  abbrev pub back_to_waiting : Request → Request
  back_to_waiting req = record req { needs_retract = false; status = RequestStatus.waiting }

  -- The loop over `zip(list(self.prefilling), token_ids)`: the state, what is still prefilling and
  -- what goes back to the queue.
  sort_prefilled :
      Scheduler E
      → List Request
      → List (Option ℕ)
      → List Request
      → List Request
      → Scheduler E × List Request × List Request
  sort_prefilled s (req ∷ reqs) (token ∷ tokens) still_prefilling retracted =
      elim req.needs_retract [
        | Bool.true ↦
            sort_prefilled s reqs tokens still_prefilling (retracted ++ back_to_waiting req ∷ [])
        | Bool.false ↦ elim token [
          | none ↦ sort_prefilled s reqs tokens (still_prefilling ++ req ∷ []) retracted
          | some token_id ↦
              sort_prefilled (deliver s req token_id to_running) reqs tokens still_prefilling
                retracted
        ]
      ]
  sort_prefilled s (req ∷ reqs) [] still_prefilling retracted = (s, still_prefilling, retracted)
  sort_prefilled s [] tokens still_prefilling retracted = (s, still_prefilling, retracted)

  pub prefill_phase : Scheduler E → Scheduler E × Bool
  unfolding sort_prefilled deliver
  prefill_phase s =
      let out = ops.prefill_batch s.engine s.prefilling in
      let s' : Scheduler E = record s { engine = out.0; prefilling = out.1 } in
      if is_empty s.prefilling then (s, false) else elim (out.2) [
        | none ↦ (s', true)
        | some tokens ↦
            let (t, still_prefilling, retracted) = sort_prefilled s' out.1 tokens [] [] in
            (record t { prefilling = still_prefilling; waiting = retracted ++ t.waiting }, false)
      ]

  pub step_paged : Scheduler E → Scheduler E × Bool
  unfolding admit_paged prefill_phase decode_phase
  step_paged s =
      let taken = admit_paged s.engine s.max_running (s.running ++ s.prefilling) s.waiting in
      and_then
        (prefill_phase
          (record s { waiting = taken.1; prefilling = s.prefilling ++ start_all taken.0 }))
        decode_phase

  -- The body of the loop when there is work: a step, and the abort when it raised.
  pub loop_round : (Scheduler E → Scheduler E × Bool) → Scheduler E → Scheduler E
  loop_round step s =
      let (after, raised) = step s in
      elim raised [ Bool.true ↦ abort_inflight_requests ops after | Bool.false ↦ after ]

abbrev pub has_work : {E : Type 0} → Scheduler E → Bool
has_work s = not (is_empty s.waiting) || not (is_empty s.running) || not (is_empty s.prefilling)

module _ {E : Type 0} (ops : EngineOps E) where
  -- `n` rounds of `_loop` in which no request arrives; a round without work sleeps.
  pub serve : ℕ → (Scheduler E → Scheduler E × Bool) → Scheduler E → Scheduler E
  serve zero step s = s
  serve (suc n) step s = serve n step (if has_work s then loop_round ops step s else s)
