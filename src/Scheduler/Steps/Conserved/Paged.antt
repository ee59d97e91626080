-- ===== src/Scheduler/Steps/Conserved/Paged.antt =====
-- The paged step keeps every request in exactly one place.
use cs349d_miniengine_sk_nc.Common.{
  ℕ, ◌+◌, ◌≤◌, ◌≡◌, refl, sym, ◌∙◌, List, [], ◌∷◌, ◌++◌, Option, is_empty, length, arith,
  Bool-cases, Option-cases, inl, inr, ap,
}
use cs349d_miniengine_sk_nc.Core.{Request}
use cs349d_miniengine_sk_nc.Scheduler.Interface.{EngineOps, EngineLaws}
use cs349d_miniengine_sk_nc.Scheduler.State.{Scheduler}
use cs349d_miniengine_sk_nc.Scheduler.Steps.{
  start_all, deliver, to_running, sort_prefilled, prefill_phase, admit_paged, step_paged,
  back_to_waiting,
}
use cs349d_miniengine_sk_nc.Scheduler.Steps.Bounds.{length-SameRequests}
use cs349d_miniengine_sk_nc.Scheduler.Steps.Conserved.{
  bears_self, copies, copies_waiting_or_left, copies_held, copies-append, copies-SameRequests,
  copies-start_all, copies-admit_paged, deliver-running, copies_kept,
}
use cs349d_miniengine_sk_nc.Scheduler.Steps.Conserved.Batched.{and_then-keeps}
use cs349d_miniengine_sk_nc.Scheduler.Steps.Conserved.Dropped.{paged-dropped}

module _ {E : Type 0} (ops : EngineOps E) (laws : EngineLaws ops) where
  -- The requests of the prefill loop: those that run or have left, and those that it still holds.
  abbrev sorting : ℕ → Scheduler E → List Request → List Request → List Request → ℕ
  sorting i s reqs still_prefilling retracted =
      copies_waiting_or_left i s
      + copies i s.running
      + copies i reqs
      + copies i still_prefilling
      + copies i retracted

  sort_prefilled-keeps :
      (s : Scheduler E) (reqs : List Request) (tokens : List (Option ℕ))
      (still_prefilling retracted : List Request)
      → length tokens ≡ length reqs
      → ((i : ℕ) → sorting i s reqs still_prefilling retracted ≤ 1)
      → (i : ℕ)
      → let r = sort_prefilled ops s reqs tokens still_prefilling retracted in
        sorting i r.0 [] r.1 r.2 ≡ sorting i s reqs still_prefilling retracted
  unfolding sort_prefilled
  sort_prefilled-keeps s [] tokens still_prefilling retracted len h i = refl
  sort_prefilled-keeps s (req ∷ reqs) [] still_prefilling retracted len h i = absurd (omega arith)
  sort_prefilled-keeps s (req ∷ reqs) (token ∷ tokens) still_prefilling retracted len h i =
      elim (Bool-cases req.needs_retract) [
        | inl back ↦
            let kept = λ (j : ℕ). copies-append j retracted (back_to_waiting ops req ∷ []) in
            rw (back, sort_prefilled)
              (omega (
                arith,
                kept i,
                sort_prefilled-keeps s reqs tokens still_prefilling
                    (retracted ++ back_to_waiting ops req ∷ []) (omega arith)
                    (λ j. omega (arith, h j, kept j)) i,
              ))
        | inr on ↦ elim (Option-cases token) [
          | inl e ↦
              let kept = λ (j : ℕ). copies-append j still_prefilling (req ∷ []) in
              rw (on, e, sort_prefilled)
                (omega (
                  arith,
                  kept i,
                  sort_prefilled-keeps s reqs tokens (still_prefilling ++ req ∷ []) retracted
                      (omega arith) (λ j. omega (arith, h j, kept j)) i,
                ))
          | inr (token_id, e) ↦
              let absent : copies req.request_id s.running ≡ 0 =
                omega (arith, h req.request_id, bears_self req.request_id) in
              let kept = λ (j : ℕ). deliver-running ops laws j s req token_id absent in
              rw (on, e, sort_prefilled)
                (omega (
                  arith,
                  kept i,
                  sort_prefilled-keeps (deliver ops s req token_id (to_running ops)) reqs tokens
                      still_prefilling retracted (omega arith) (λ j. omega (arith, h j, kept j)) i,
                ))
        ]
      ]

  prefill_phase-keeps :
      (s : Scheduler E)
      → ((i : ℕ) → copies_held i s ≤ 1)
      → (i : ℕ) → copies_held i (prefill_phase ops s).0 ≡ copies_held i s
  unfolding prefill_phase
  prefill_phase-keeps s h i =
      let out = ops.prefill_batch s.engine s.prefilling in
      let s' : Scheduler E = record s { engine = out.0; prefilling = out.1 } in
      let laws_same = laws.prefill_batch_same s.engine s.prefilling in
      let same = λ (j : ℕ). copies-SameRequests j s.prefilling out.1 laws_same in
      elim (Bool-cases (is_empty s.prefilling)) [
        | inl idle ↦ rw idle refl
        | inr busy ↦ elim (Option-cases (out.2)) [
          | inl raised ↦ rw (busy, raised, prefill_phase) (omega (arith, same i))
          | inr (tokens, e) ↦
              let r = sort_prefilled ops s' out.1 tokens [] [] in
              rw (busy, e, prefill_phase)
                (omega (
                  arith,
                  same i,
                  copies-append i r.2 r.0.waiting,
                  sort_prefilled-keeps s' out.1 tokens [] []
                      (laws.prefill_batch_length s.engine s.prefilling tokens e
                        ∙ sym (length-SameRequests s.prefilling out.1 laws_same))
                      (λ j. omega (arith, h j, same j)) i,
                ))
        ]
      ]

step_paged-dropped :
    {E : Type 0} (ops : EngineOps E) (s : Scheduler E) → (step_paged ops s).0.dropped ≡ s.dropped
unfolding step_paged
step_paged-dropped ops s =
    let taken = admit_paged ops s.engine s.max_running (s.running ++ s.prefilling) s.waiting in
    paged-dropped ops
      (record s { waiting = taken.1; prefilling = s.prefilling ++ start_all taken.0 })

step_paged-copies :
    {E : Type 0} (ops : EngineOps E) (s : Scheduler E)
    → EngineLaws ops
    → ((i : ℕ) → copies_held i s ≤ 1)
    → (i : ℕ) → copies_held i (step_paged ops s).0 ≡ copies_held i s
unfolding step_paged
step_paged-copies {E} ops s laws h i =
    let active = s.running ++ s.prefilling in
    let taken = admit_paged ops s.engine s.max_running active s.waiting in
    let s' : Scheduler E = record s {
      waiting = taken.1;
      prefilling = s.prefilling ++ start_all taken.0;
    } in
    let split : (j : ℕ) → copies_held j s' ≡ copies_held j s = λ j. omega (
      arith,
      copies-admit_paged ops laws j s.engine s.max_running active s.waiting,
      copies-append j s.prefilling (start_all taken.0),
      copies-start_all j taken.0,
    ) in
    let first = prefill_phase-keeps ops laws s' (λ j. omega (arith, h j, split j)) in
    and_then-keeps ops laws (prefill_phase ops s') (λ j. omega (arith, first j, h j, split j)) i
    ∙ omega (arith, first i, split i)

-- If no two requests that the scheduler has or had bear one name and the engine keeps its contract,
-- then a paged step loses no request and makes up none, also when it raises: each waits (as one that
-- was retracted does), prefills, runs or has been finished, together as often as before.
pub step_paged_keeps :
    {E : Type 0} (ops : EngineOps E) (s : Scheduler E)
    → EngineLaws ops
    → ((i : ℕ) → copies_held i s ≤ 1)
    → (i : ℕ) → copies_kept i (step_paged ops s).0 ≡ copies_kept i s
step_paged_keeps ops s laws h i =
    omega (arith, step_paged-copies ops s laws h i, ap (copies i) (step_paged-dropped ops s))
