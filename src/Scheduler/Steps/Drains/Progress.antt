-- ===== src/Scheduler/Steps/Drains/Progress.antt =====
-- A step of the batched mode raises or takes work off the queues.
use cs349d_miniengine_sk_nc.Common.{
  Bool, Option-cases, [], false, inl, inr, is_empty, refl, sym, true, ◌<◌, ◌∙◌, ◌≡◌, Bool-cases,
  List, ap, arith, length, subst, ◌+◌, ◌∷◌,
}
use cs349d_miniengine_sk_nc.Scheduler.Interface.{EngineLaws, EngineOps}
use cs349d_miniengine_sk_nc.Scheduler.State.{Scheduler}
use cs349d_miniengine_sk_nc.Scheduler.Steps.{
  decode_phase, admit, and_then, step_batched, prefill_each,
}
use cs349d_miniengine_sk_nc.Scheduler.Steps.Bounds.{length-SameRequests}
use cs349d_miniengine_sk_nc.Scheduler.Steps.Drains.{
  weigh, work, settle-Lightens, length-le-weigh, Prefilled, weigh-admit, weigh-SameRequests,
  prefill_each-Prefilled, admit-some,
}
use cs349d_miniengine_sk_nc.Core.{Request}

-- The outcome of a step: it raised, with what waits as it is, or the running requests weigh less.
unfoldable pub Stepped : {E : Type 0} → Scheduler E → Scheduler E × Bool → Type 0
Stepped s (t, true) = (t.max_running ≡ s.max_running) × (weigh t.waiting < work s)
Stepped s (t, false) = (t.max_running ≡ s.max_running) × (work t < work s)

some_length : (rs : List Request) → is_empty rs ≡ false → 0 < length rs
some_length [] h = cc
some_length (r ∷ rs) h = omega arith

module _ {E : Type 0} (ops : EngineOps E) (laws : EngineLaws ops) where
  -- One token for everything that runs.
  decode_phase-Stepped :
      (s : Scheduler E) → is_empty s.running ≡ false → Stepped s (decode_phase ops s)
  unfolding decode_phase Stepped
  decode_phase-Stepped s busy =
      let out = ops.batched_decode s.engine s.running in
      let s' : Scheduler E = record s { engine = out.0; running = out.1 } in
      let same = laws.batched_decode_same s.engine s.running in
      elim (Option-cases (out.2)) [
        | inl raised ↦
            rw (busy, raised, decode_phase)
              (refl, omega (arith, length-le-weigh s.running, some_length s.running busy))
        | inr (token_ids, e) ↦
            let k = settle-Lightens ops laws s' out.1 token_ids [] (
              laws.batched_decode_length s.engine s.running token_ids e
              ∙ sym (length-SameRequests s.running out.1 same)) in
            rw (busy, e, decode_phase)
              (
                k.room,
                omega (
                  arith,
                  k.running,
                  ap weigh k.waiting,
                  weigh-SameRequests s.running out.1 same,
                  length-SameRequests s.running out.1 same,
                  some_length s.running busy,
                ),
              )
      ]

  -- The second phase behind a first one that has worked something off already.
  behind-Stepped :
      (s t : Scheduler E)
      → t.max_running ≡ s.max_running
      → work t < work s
      → Stepped s (decode_phase ops t)
  behind-Stepped s t room less = elim (Bool-cases (is_empty t.running)) [
    | inl calm ↦ subst (Stepped s) (sym (idle_phase t calm)) (unfold Stepped in (room, less))
    | inr busy ↦ lower s t (decode_phase ops t) room less (decode_phase-Stepped t busy)
  ]
    where
      idle_phase : (t : Scheduler E) → is_empty t.running ≡ true → decode_phase ops t ≡ (t, false)
      idle_phase t calm = unfold decode_phase in rw calm refl

      lower :
          (s t : Scheduler E) (r : Scheduler E × Bool)
          → t.max_running ≡ s.max_running
          → work t < work s
          → Stepped t r
          → Stepped s r
      lower s t (u, true) room less h = unfold Stepped in (h.0 ∙ room, omega (arith, h.1, less))
      lower s t (u, false) room less h = unfold Stepped in (h.0 ∙ room, omega (arith, h.1, less))

  -- The two phases, when something was taken from the queue.
  taken-Stepped :
      (s : Scheduler E) (reqs left : List Request) (r : Scheduler E × Bool)
      → weigh reqs + weigh left ≡ weigh s.waiting
      → 0 < length reqs
      → Prefilled ops (record s { waiting = left }) reqs r
      → Stepped s (and_then ops r (decode_phase ops))
  taken-Stepped s reqs left (t, true) e some_left k =
      unfold Stepped Prefilled in
      (k.1, omega (arith, ap weigh k.0, e, length-le-weigh reqs, some_left))
  taken-Stepped s reqs left (t, false) e some_left k =
      unfold Prefilled in
      behind-Stepped s t k.room (omega (arith, k.running, ap weigh k.waiting, e, some_left))

  same-Stepped :
      (s s' : Scheduler E) (r : Scheduler E × Bool)
      → s'.max_running ≡ s.max_running
      → work s' ≡ work s
      → Stepped s' r
      → Stepped s r
  unfolding Stepped
  same-Stepped s s' (t, true) m e h = (h.0 ∙ m, omega (arith, h.1, e))
  same-Stepped s s' (t, false) m e h = (h.0 ∙ m, omega (arith, h.1, e))

  -- The two phases, when nothing was taken.
  running-Stepped :
      (s : Scheduler E) (reqs left : List Request)
      → weigh reqs + weigh left ≡ weigh s.waiting
      → is_empty reqs ≡ true
      → is_empty s.running ≡ false
      → Stepped s
          (and_then ops (prefill_each ops (record s { waiting = left }) reqs) (decode_phase ops))
  unfolding prefill_each
  running-Stepped s [] left e nothing busy =
      same-Stepped s (record s { waiting = left }) _ refl (omega (arith, e))
        (decode_phase-Stepped (record s { waiting = left }) busy)
  running-Stepped s (req ∷ reqs) left e nothing busy = cc

  pub step_batched-Stepped :
      (s : Scheduler E)
      → 0 < s.max_running
      → (is_empty s.waiting ≡ true → is_empty s.running ≡ false)
      → Stepped s (step_batched ops s)
  unfolding step_batched
  step_batched-Stepped s room busy =
      let taken = admit s.max_running (length s.running) s.waiting in
      elim (Bool-cases (is_empty taken.0)) [
        | inr more ↦
            taken-Stepped s taken.0 taken.1
              (prefill_each ops (record s { waiting = taken.1 }) taken.0)
              (weigh-admit s.max_running (length s.running) s.waiting) (some_length taken.0 more)
              (prefill_each-Prefilled ops laws (record s { waiting = taken.1 }) taken.0)
        | inl nothing ↦
            running-Stepped s taken.0 taken.1
              (weigh-admit s.max_running (length s.running) s.waiting) nothing
              (runs s.running nothing busy)
      ]
    where
      runs :
          (rs : List Request)
          → is_empty (admit s.max_running (length rs) s.waiting).0 ≡ true
          → (is_empty s.waiting ≡ true → is_empty rs ≡ false)
          → is_empty rs ≡ false
      runs [] nothing h = elim (Bool-cases (is_empty s.waiting)) [
        | inl none_waits ↦ h none_waits
        | inr some_wait ↦ let taken = admit-some s.max_running s.waiting room some_wait in cc
      ]
      runs (r ∷ rs) nothing h = refl
