-- ===== src/Scheduler/Steps/Drains.antt =====
-- The batched mode works its queues off: every round lowers the work that is left.
pub mod Aborts
pub mod Progress
pub mod Served
use cs349d_miniengine_sk_nc.Common.{
  Bool, Bool-cases, List, Option-cases, [], ap, arith, false, inl, inr, is_empty, length,
  length-append, refl, suc, true, ℕ, ◌++◌, ◌+◌, ◌-◌, ◌<◌, ◌∙◌, ◌∷◌, ◌≡◌, ◌≤◌,
}
use cs349d_miniengine_sk_nc.Core.{Request, num_output_tokens}
use cs349d_miniengine_sk_nc.Engine.Decode.{prefill}
use cs349d_miniengine_sk_nc.Scheduler.Interface.{EngineLaws, EngineOps, SameRequest, SameRequests}
use cs349d_miniengine_sk_nc.Scheduler.State.{
  Scheduler, check_finished, finish_request, remove, stream_token,
}
use cs349d_miniengine_sk_nc.Scheduler.Steps.{
  admit, deliver, started, to_running, prefill_each, settle,
}

-- The tokens that a request may still get, and one for leaving.
abbrev pub weight : Request → ℕ
weight r = suc (r.max_new_tokens - num_output_tokens r)

abbrev pub weigh : List Request → ℕ
weigh [] = 0
weigh (r ∷ rs) = weight r + weigh rs

abbrev pub work : {E : Type 0} → Scheduler E → ℕ
work s = weigh s.waiting + weigh s.running

weigh-append : (qs rs : List Request) → weigh (qs ++ rs) ≡ weigh qs + weigh rs
weigh-append [] rs = omega arith
weigh-append (q ∷ qs) rs = omega (arith, weigh-append qs rs)

length-le-weigh : (rs : List Request) → length rs ≤ weigh rs
length-le-weigh [] = omega arith
length-le-weigh (r ∷ rs) = omega (arith, length-le-weigh rs)

weigh-remove : (i : ℕ) (rs : List Request) → weigh (remove i rs) ≤ weigh rs
unfolding remove
weigh-remove i [] = omega arith
weigh-remove i (r ∷ rs) = ground (arith, weigh-remove i rs)

weight-SameRequest : (q r : Request) → SameRequest q r → weight r ≡ weight q
weight-SameRequest q r h =
    omega (arith, h.max_new_tokens, ap (λ (l : List ℕ). length l) h.output_ids)

weigh-SameRequests : (qs rs : List Request) → SameRequests qs rs → weigh rs ≡ weigh qs
weigh-SameRequests [] [] h = refl
weigh-SameRequests [] (r ∷ rs) h = absurd h
weigh-SameRequests (q ∷ qs) [] h = absurd h
weigh-SameRequests (q ∷ qs) (r ∷ rs) h =
    omega (arith, weigh-SameRequests qs rs h.1, weight-SameRequest q r h.0)

weigh-admit :
    (max_running n : ℕ) (reqs : List Request)
    → weigh (admit max_running n reqs).0 + weigh (admit max_running n reqs).1 ≡ weigh reqs
unfolding admit
weigh-admit max_running n [] = omega arith
weigh-admit max_running n (req ∷ reqs) = ground (arith, weigh-admit max_running (suc n) reqs)

-- With room, a queue that is not empty gives something.
admit-some :
    (max_running : ℕ) (reqs : List Request)
    → 0 < max_running
    → is_empty reqs ≡ false
    → is_empty (admit max_running 0 reqs).0 ≡ false
unfolding admit
admit-some max_running [] h e = cc
admit-some max_running (req ∷ reqs) h e = ground (arith, h)

-- What a part of a step does: it takes nothing from the queue, and the running requests weigh less
-- by `n` than what was running and what was taken before, `a`.
record Lightens {E : Type 0} (s t : Scheduler E) (a n : ℕ) : Type 0 where
  waiting : t.waiting ≡ s.waiting
  room : t.max_running ≡ s.max_running
  running : weigh t.running + n ≤ a

module _ {E : Type 0} (ops : EngineOps E) where
  -- A token lowers the weight of a request that goes on.
  weight-stream_token :
      (req : Request) (token_id : ℕ)
      → check_finished ops (stream_token ops req token_id) token_id ≡ false
      → weight (stream_token ops req token_id) + 1 ≡ weight req
  unfolding stream_token check_finished
  weight-stream_token req token_id h =
      ground (arith, h, length-append req.output_ids (token_id ∷ []))

  finish-Lightens :
      (s : Scheduler E) (req : Request) → Lightens s (finish_request ops s req) (weigh s.running) 0
  unfolding finish_request
  finish-Lightens s req = record {
    waiting = refl;
    room = refl;
    running = omega (arith, weigh-remove req.request_id s.running);
  }

  deliver-Lightens :
      (s : Scheduler E) (req : Request) (token_id : ℕ)
      → Lightens s (deliver ops s req token_id (to_running ops)) (weigh s.running + weight req) 1
  unfolding deliver
  deliver-Lightens s req token_id =
      let req' = stream_token ops req token_id in
      elim (Bool-cases (check_finished ops req' token_id)) [
        | inl done ↦
            let f = finish-Lightens s req' in
            rw done
              (record { waiting = f.waiting; room = f.room; running = omega (arith, f.running) })
        | inr more ↦ rw more (record {
          waiting = refl;
          room = refl;
          running =
              omega
                (arith, weight-stream_token req token_id more, weigh-append s.running (req' ∷ []));
        })
      ]

  -- The first phase, when it does not raise; when it does, it had something to prefill.
  Prefilled : Scheduler E → List Request → Scheduler E × Bool → Type 0
  Prefilled s reqs (t, true) =
      (t.waiting ≡ s.waiting) × (t.max_running ≡ s.max_running) × (0 < length reqs)
  Prefilled s reqs (t, false) = Lightens s t (weigh s.running + weigh reqs) (length reqs)

  Prefilled-after :
      (s s' : Scheduler E) (req req' : Request) (reqs : List Request) (r : Scheduler E × Bool)
      → Lightens s s' (weigh s.running + weight req') 1
      → weight req' ≡ weight req
      → Prefilled s' reqs r
      → Prefilled s (req ∷ reqs) r
  unfolding Prefilled
  Prefilled-after s s' req req' reqs (t, true) l e (w, m, some_left) =
      (w ∙ l.waiting, m ∙ l.room, omega arith)
  Prefilled-after s s' req req' reqs (t, false) l e k = record {
    waiting = k.waiting ∙ l.waiting;
    room = k.room ∙ l.room;
    running = omega (arith, k.running, l.running, e);
  }

  module _ (laws : EngineLaws ops) where
    prefill_each-Prefilled :
        (s : Scheduler E) (reqs : List Request) → Prefilled s reqs (prefill_each ops s reqs)
    unfolding prefill_each
    prefill_each-Prefilled s [] =
        unfold Prefilled in record { waiting = refl; room = refl; running = omega arith }
    prefill_each-Prefilled s (req ∷ reqs) =
        let out = ops.prefill s.engine (started req) in
        let s' : Scheduler E = record s { engine = out.0 } in
        elim (Option-cases (out.2)) [
          | inl raised ↦ rw (raised, prefill_each) (unfold Prefilled in (refl, refl, omega arith))
          | inr (token_id, e) ↦
              let t = deliver ops s' out.1 token_id (to_running ops) in
              rw (e, prefill_each)
                (Prefilled-after s t req out.1 reqs (prefill_each ops t reqs)
                  (let l = deliver-Lightens s' out.1 token_id in
                    record { waiting = l.waiting; room = l.room; running = l.running })
                  (weight-SameRequest (started req) out.1
                    (laws.prefill_same s.engine (started req)))
                  (prefill_each-Prefilled t reqs))
        ]

    settle-Lightens :
        (s : Scheduler E) (reqs : List Request) (token_ids : List ℕ) (still_running : List Request)
        → length token_ids ≡ length reqs
        → Lightens s
            (settle ops s reqs token_ids still_running)
            (weigh still_running + weigh reqs)
            (length reqs)
    unfolding settle
    settle-Lightens s [] token_ids still_running len = record {
      waiting = refl;
      room = refl;
      running = omega arith;
    }
    settle-Lightens s (req ∷ reqs) [] still_running len = absurd (omega arith)
    settle-Lightens s (req ∷ reqs) (token_id ∷ token_ids) still_running len =
        let req' = stream_token ops req token_id in
        elim (Bool-cases (check_finished ops req' token_id)) [
          | inl done ↦
              let f = finish-Lightens s req' in
              let k =
                settle-Lightens (finish_request ops s req') reqs token_ids still_running
                  (omega arith) in
              rw (done, settle)
                (record {
                  waiting = k.waiting ∙ f.waiting;
                  room = k.room ∙ f.room;
                  running = omega (arith, k.running);
                })
          | inr more ↦
              let k = settle-Lightens s reqs token_ids (still_running ++ req' ∷ []) (omega arith) in
              rw (more, settle)
                (record {
                  waiting = k.waiting;
                  room = k.room;
                  running = omega (
                    arith,
                    k.running,
                    weight-stream_token req token_id more,
                    weigh-append still_running (req' ∷ []),
                  );
                })
        ]
