-- ===== src/Scheduler/Steps/Drains/Aborts.antt =====
-- `_abort_inflight_requests` leaves nothing that runs or prefills.
use cs349d_miniengine_sk_nc.Common.{List, [], arith, refl, ℕ, ◌++◌, ◌∙◌, ◌∷◌, ◌≡◌, ◌≤◌, sym, ◌+◌}
use cs349d_miniengine_sk_nc.Core.{Request}
use cs349d_miniengine_sk_nc.Scheduler.Interface.{EngineOps, EngineLaws}
use cs349d_miniengine_sk_nc.Scheduler.State.{
  Scheduler, abort_all, abort_inflight_requests, finish_request,
}
use cs349d_miniengine_sk_nc.Scheduler.Steps.Conserved.{
  copies, copies-append, copies-remove, bears_self, copies_held, finish-left,
}

abbrev pub Idle : {E : Type 0} → Scheduler E → Type 0
Idle s = (s.running ≡ []) × (s.prefilling ≡ [])

no_copies : (rs : List Request) → ((i : ℕ) → copies i rs ≤ 0) → rs ≡ []
no_copies [] h = refl
no_copies (r ∷ rs) h = absurd (omega (arith, h r.request_id, bears_self r.request_id))

module _ {E : Type 0} (ops : EngineOps E) where
  -- What runs or prefills and is named in the list goes.
  abort_all-empties :
      (s : Scheduler E) (reqs : List Request)
      → ((i : ℕ) → copies i s.running ≤ copies i reqs)
      → ((i : ℕ) → copies i s.prefilling ≤ copies i reqs)
      → Idle (abort_all ops s reqs)
        × ((abort_all ops s reqs).waiting ≡ s.waiting)
        × ((abort_all ops s reqs).max_running ≡ s.max_running)
  unfolding abort_all
  abort_all-empties s [] h k = ((no_copies s.running h, no_copies s.prefilling k), refl, refl)
  abort_all-empties s (req ∷ reqs) h k =
      let rest =
        abort_all-empties (finish_request ops s req) reqs
          (λ i.
            unfold finish_request in ground (arith, copies-remove i req.request_id s.running, h i))
          (λ i.
            unfold finish_request in
            ground (arith, copies-remove i req.request_id s.prefilling, k i)) in
      (rest.0, rest.1 ∙ (unfold finish_request in refl), rest.2 ∙ (unfold finish_request in refl))

  pub abort_inflight-Idle :
      (s : Scheduler E)
      → Idle (abort_inflight_requests ops s)
        × ((abort_inflight_requests ops s).waiting ≡ s.waiting)
        × ((abort_inflight_requests ops s).max_running ≡ s.max_running)
  unfolding abort_inflight_requests
  abort_inflight-Idle s =
      abort_all-empties s (s.prefilling ++ s.running)
        (λ i. omega (arith, copies-append i s.prefilling s.running))
        (λ i. omega (arith, copies-append i s.prefilling s.running))

  -- Aborting what runs and prefills, each request once, keeps every request: it has left.
  abort_all-keeps :
      EngineLaws ops
      → (s : Scheduler E) (reqs : List Request)
      → ((i : ℕ) → copies i s.prefilling + copies i s.running ≡ copies i reqs)
      → ((i : ℕ) → copies i reqs ≤ 1)
      → (i : ℕ) → copies_held i (abort_all ops s reqs) ≡ copies_held i s
  unfolding abort_all
  abort_all-keeps laws s [] h once i = refl
  abort_all-keeps laws s (req ∷ reqs) h once i =
      abort_all-keeps laws (finish_request ops s req) reqs (λ j. (both j).0)
        (λ j. omega (arith, once j)) i
      ∙ (both i).1
    where
      removed :
          (j : ℕ)
          → copies j (finish_request ops s req).prefilling
              + copies j (finish_request ops s req).running
            ≡ copies j reqs
      removed j =
          unfold finish_request in
          ground (
            arith,
            copies-remove j req.request_id s.prefilling,
            copies-remove j req.request_id s.running,
            h j,
            h req.request_id,
            once req.request_id,
            bears_self req.request_id,
          )

      both :
          (j : ℕ)
          → (copies j (finish_request ops s req).prefilling
                + copies j (finish_request ops s req).running
              ≡ copies j reqs)
            × (copies_held j (finish_request ops s req) ≡ copies_held j s)
      both j =
          let gone = removed j in (gone, omega (arith, finish-left ops laws j s req, gone, h j))

  pub abort_inflight-keeps :
      EngineLaws ops
      → (s : Scheduler E) → ((i : ℕ) → copies_held i s ≤ 1)
      → (i : ℕ) → copies_held i (abort_inflight_requests ops s) ≡ copies_held i s
  unfolding abort_inflight_requests
  abort_inflight-keeps laws s once =
      abort_all-keeps laws s (s.prefilling ++ s.running)
        (λ i. sym (copies-append i s.prefilling s.running))
        (λ i. omega (arith, once i, copies-append i s.prefilling s.running))
