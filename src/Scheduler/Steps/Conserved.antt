-- ===== src/Scheduler/Steps/Conserved.antt =====
-- No request is lost: each is in one place of the scheduler after a step, as before it.
pub mod Dropped
pub mod Batched
pub mod Paged
use cs349d_miniengine_sk_nc.Common.{
  ℕ, suc, ◌+◌, ◌≡◌, refl, ap, ◌∙◌, List, [], ◌∷◌, ◌++◌, ◌==◌, ==_self, ltb, if◌then◌else◌, arith,
  Bool-cases, inl, inr,
}
use cs349d_miniengine_sk_nc.Core.{Request, RequestStatus, finished, running, waiting}
use cs349d_miniengine_sk_nc.Scheduler.Interface.{EngineOps, EngineLaws, SameRequests}
use cs349d_miniengine_sk_nc.Scheduler.State.{
  Scheduler, remove, stream_token, check_finished, finish_request,
}
use cs349d_miniengine_sk_nc.Scheduler.Steps.{admit, start_all, deliver, to_running, admit_paged}

abbrev pub bears : ℕ → ℕ → ℕ
bears i j = if j == i then 1 else 0

pub bears_self : (j : ℕ) → bears j j ≡ 1
bears_self j = ground (arith, ==_self j)

-- How many of the requests bear the identifier `i`.
abbrev pub copies : ℕ → List Request → ℕ
copies i [] = 0
copies i (r ∷ rs) = bears i r.request_id + copies i rs

-- How often the scheduler has a request: as one that waits, prefills or runs, or has left.
abbrev pub copies_waiting_or_left : {E : Type 0} → ℕ → Scheduler E → ℕ
copies_waiting_or_left i s = copies i s.waiting + copies i s.retired + copies i s.dropped

abbrev pub copies_held : {E : Type 0} → ℕ → Scheduler E → ℕ
copies_held i s = copies_waiting_or_left i s + copies i s.prefilling + copies i s.running

-- How often it has one in a queue or has finished it.
abbrev pub copies_kept : {E : Type 0} → ℕ → Scheduler E → ℕ
copies_kept i s =
    copies i s.waiting + copies i s.prefilling + copies i s.running + copies i s.retired

pub copies-append : (i : ℕ) (qs rs : List Request) → copies i (qs ++ rs) ≡ copies i qs + copies i rs
copies-append i [] rs = omega arith
copies-append i (q ∷ qs) rs = omega (arith, copies-append i qs rs)

copies-SameRequests :
    (i : ℕ) (qs rs : List Request) → SameRequests qs rs → copies i rs ≡ copies i qs
copies-SameRequests i [] [] h = refl
copies-SameRequests i [] (r ∷ rs) h = absurd h
copies-SameRequests i (q ∷ qs) [] h = absurd h
copies-SameRequests i (q ∷ qs) (r ∷ rs) h =
    omega (arith, copies-SameRequests i qs rs h.1, ap (λ z. bears i z) h.0.request_id)

copies-start_all : (i : ℕ) (rs : List Request) → copies i (start_all rs) ≡ copies i rs
copies-start_all i [] = refl
copies-start_all i (r ∷ rs) = omega (arith, copies-start_all i rs)

pub copies-remove :
    (i j : ℕ) (rs : List Request)
    → copies i (remove j rs) + (if j == i then (if ltb 0 (copies j rs) then 1 else 0) else 0)
      ≡ copies i rs
unfolding remove
copies-remove i j [] = grind arith
copies-remove i j (r ∷ rs) = grind (arith, copies-remove i j rs)

pub copies-admit :
    (i max_running n : ℕ) (reqs : List Request)
    → copies i (admit max_running n reqs).0 + copies i (admit max_running n reqs).1 ≡ copies i reqs
unfolding admit
copies-admit i max_running n [] = omega arith
copies-admit i max_running n (req ∷ reqs) = ground (arith, copies-admit i max_running (suc n) reqs)

copies-remove_absent :
    (i j : ℕ) (rs : List Request) → copies j rs ≡ 0 → copies i (remove j rs) ≡ copies i rs
copies-remove_absent i j rs h = grind (arith, copies-remove i j rs, h)

module _ {E : Type 0} (ops : EngineOps E) (laws : EngineLaws ops) where
  copies-admit_paged :
      (i : ℕ) (e : E) (max_running : ℕ) (active reqs : List Request)
      → copies i (admit_paged ops e max_running active reqs).0
          + copies i (admit_paged ops e max_running active reqs).1
        ≡ copies i reqs
  unfolding admit_paged
  copies-admit_paged i e max_running active [] = omega arith
  copies-admit_paged i e max_running active (req ∷ reqs) =
      ground (arith, copies-admit_paged i e max_running (active ++ req ∷ []) reqs)

  -- Finishing puts the request among those that have left.
  pub finish-left :
      (i : ℕ) (s : Scheduler E) (req : Request)
      → copies_waiting_or_left i (finish_request ops s req)
        ≡ bears i req.request_id + copies_waiting_or_left i s
  unfolding finish_request
  finish-left i s req = omega (
    arith,
    ap (λ z. bears i z)
        (laws.free_same s.engine (record req { status = RequestStatus.finished })).request_id,
  )

  finish-running :
      (i : ℕ) (s : Scheduler E) (req : Request)
      → copies req.request_id s.running ≡ 0
      → copies i (finish_request ops s req).running ≡ copies i s.running
  unfolding finish_request
  finish-running i s req h = copies-remove_absent i req.request_id s.running h

  finish-prefilling :
      (i : ℕ) (s : Scheduler E) (req : Request)
      → copies req.request_id s.prefilling ≡ 0
      → copies i (finish_request ops s req).prefilling ≡ copies i s.prefilling
  unfolding finish_request
  finish-prefilling i s req h = copies-remove_absent i req.request_id s.prefilling h

  stream_id :
      (req : Request) (token_id : ℕ) → (stream_token ops req token_id).request_id ≡ req.request_id
  unfolding stream_token
  stream_id req token_id = refl

  -- What runs or has left; a request that gets a token is in neither before, and in one after.
  deliver-running :
      (i : ℕ) (s : Scheduler E) (req : Request) (token_id : ℕ)
      → copies req.request_id s.running ≡ 0
      → let t = deliver ops s req token_id (to_running ops) in
        copies_waiting_or_left i t + copies i t.running
        ≡ bears i req.request_id + copies_waiting_or_left i s + copies i s.running
  unfolding deliver
  deliver-running i s req token_id h =
      let req' = stream_token ops req token_id in
      let same = stream_id req token_id in
      elim (Bool-cases (check_finished ops req' token_id)) [
        | inl done ↦ rw done (
            omega (
              arith,
              finish-left i s req',
              ap (λ z. bears i z) same,
              finish-running i s req' (ap (λ z. copies z s.running) same ∙ h),
            ))
        | inr more ↦
            rw more (omega (arith, copies-append i s.running (req' ∷ []), ap (λ z. bears i z) same))
      ]

  deliver-prefilling :
      (i : ℕ) (s : Scheduler E) (req : Request) (token_id : ℕ)
      → copies req.request_id s.prefilling ≡ 0
      → copies i (deliver ops s req token_id (to_running ops)).prefilling ≡ copies i s.prefilling
  unfolding deliver
  deliver-prefilling i s req token_id h =
      let req' = stream_token ops req token_id in
      let same = stream_id req token_id in
      elim (Bool-cases (check_finished ops req' token_id)) [
        | inl done ↦ rw done (finish-prefilling i s req' (ap (λ z. copies z s.prefilling) same ∙ h))
        | inr more ↦ rw more refl
      ]
