-- ===== src/Scheduler/Steps/Drains/Served.antt =====
-- Every request is served: without new arrivals the batched mode comes to rest.
use cs349d_miniengine_sk_nc.Common.{
  Bool, [], false, inl, inr, is_empty, refl, sym, true, ◌<◌, ◌∙◌, ◌≡◌, Bool-cases, List, ap, arith,
  length, subst, ◌+◌, ◌∷◌, not, ◌||◌, ◌≤◌, suc, zero, if◌then◌else◌,
}
use cs349d_miniengine_sk_nc.Scheduler.Interface.{EngineLaws, EngineOps}
use cs349d_miniengine_sk_nc.Scheduler.State.{Scheduler, abort_inflight_requests}
use cs349d_miniengine_sk_nc.Scheduler.Steps.{step_batched, has_work, loop_round, serve}
use cs349d_miniengine_sk_nc.Scheduler.Steps.Bounds.{step_batched-prefilling}
use cs349d_miniengine_sk_nc.Scheduler.Steps.Drains.{weigh, work}
use cs349d_miniengine_sk_nc.Core.{Request}
use Prim.Native.Nat.{ℕ}
use cs349d_miniengine_sk_nc.Scheduler.Steps.Conserved.{copies_held, copies}
use cs349d_miniengine_sk_nc.Scheduler.Steps.Conserved.Batched.{step_batched-copies}
use cs349d_miniengine_sk_nc.Scheduler.Steps.Drains.Aborts.{
  abort_inflight-Idle, abort_inflight-keeps,
}
use cs349d_miniengine_sk_nc.Scheduler.Steps.Drains.Progress.{Stepped, step_batched-Stepped}

-- What is so of the scheduler from round to round.
record Serves {E : Type 0} (s t : Scheduler E) : Type 0 where
  room : t.max_running ≡ s.max_running
  none_prefills : t.prefilling ≡ []
  kept : (i : ℕ) → copies_held i t ≡ copies_held i s
  less : work t < work s

no_length : (rs : List Request) → length rs ≤ 0 → rs ≡ []
no_length [] h = refl
no_length (r ∷ rs) h = absurd (omega (arith, h))

module _ {E : Type 0} (ops : EngineOps E) (laws : EngineLaws ops) where
  -- The abort behind a step that raised.
  handled-Serves :
      (s : Scheduler E) (r : Scheduler E × Bool)
      → length r.0.prefilling ≤ 0
      → ((i : ℕ) → copies_held i s ≤ 1)
      → ((i : ℕ) → copies_held i r.0 ≡ copies_held i s)
      → Stepped s r
      → Serves s (elim (r.1) [ true ↦ abort_inflight_requests ops r.0 | false ↦ r.0 ])
  unfolding Stepped
  handled-Serves s (t, true) pre once kept h =
      let (idle, waits, room) = abort_inflight-Idle ops t in
      record {
        room = room ∙ h.0;
        none_prefills = idle.1;
        kept = λ i. abort_inflight-keeps ops laws t (λ j. omega (arith, kept j, once j)) i ∙ kept i;
        less = omega (arith, h.1, ap weigh waits, ap weigh idle.0);
      }
  handled-Serves s (t, false) pre once kept h = record {
    room = h.0;
    none_prefills = no_length t.prefilling pre;
    kept = kept;
    less = h.1;
  }

  loop_round-Serves :
      (s : Scheduler E)
      → 0 < s.max_running
      → s.prefilling ≡ []
      → ((i : ℕ) → copies_held i s ≤ 1)
      → has_work s ≡ true
      → Serves s (loop_round ops (step_batched ops) s)
  unfolding loop_round
  loop_round-Serves s room none_prefills once busy =
      handled-Serves s (step_batched ops s)
        (omega (
          arith,
          step_batched-prefilling ops s laws,
          ap (λ (l : List Request). length l) none_prefills,
        ))
        once (step_batched-copies ops s laws once)
        (step_batched-Stepped ops laws s room (λ e. runs (rw (e, none_prefills) at busy)))
    where
      runs : (not (is_empty s.running) || false) ≡ true → is_empty s.running ≡ false
      runs h = ground (arith, h)

no_weight : (rs : List Request) → weigh rs ≤ 0 → rs ≡ []
no_weight [] h = refl
no_weight (r ∷ rs) h = absurd (omega (arith, h))

-- Without work each request has left.
at_rest :
    {E : Type 0} (s : Scheduler E)
    → has_work s ≡ false
    → (i : ℕ) → copies i s.retired + copies i s.dropped ≡ copies_held i s
at_rest s h i = omega (
  arith,
  ap (copies i) (empty_list s.waiting (ground (arith, h))),
  ap (copies i) (empty_list s.running (ground (arith, h))),
  ap (copies i) (empty_list s.prefilling (ground (arith, h))),
)
  where
    empty_list : (rs : List Request) → is_empty rs ≡ true → rs ≡ []
    empty_list [] e = refl
    empty_list (r ∷ rs) e = cc

abbrev AtRest : {E : Type 0} → Scheduler E → Scheduler E → Type 0
AtRest s t =
    (has_work t ≡ false) × ((i : ℕ) → copies i t.retired + copies i t.dropped ≡ copies_held i s)

serve_round :
    {E : Type 0} (ops : EngineOps E) (s : Scheduler E) (n : ℕ) (b : Bool)
    → has_work s ≡ b
    → serve ops (suc n) (step_batched ops) s
      ≡ serve ops n (step_batched ops) (if b then loop_round ops (step_batched ops) s else s)
unfolding serve
serve_round ops s n b e =
    ap (λ c. serve ops n (step_batched ops) (if c then loop_round ops (step_batched ops) s else s))
      e

-- In the batched mode, when no request arrives, nothing prefills, no two requests bear one name, there
-- is room for at least one running request and the engine keeps its contract, the loop comes to rest,
-- whether the engine raises on the way or not: after as many rounds as the waiting and running
-- requests may get tokens, and one more for each of them, nothing waits, runs or prefills, and each
-- request has left, as one that is finished or one that a raising step held in no queue.
pub serve_batched_drains :
    {E : Type 0} (ops : EngineOps E) (s : Scheduler E) (n : ℕ)
    → EngineLaws ops
    → 0 < s.max_running
    → s.prefilling ≡ []
    → ((i : ℕ) → copies_held i s ≤ 1)
    → work s ≤ n
    → let t = serve ops n (step_batched ops) s in
      (has_work t ≡ false) × ((i : ℕ) → copies i t.retired + copies i t.dropped ≡ copies_held i s)
unfolding serve
serve_batched_drains ops s zero laws room none_prefills once h =
    let rest : has_work s ≡ false =
      rw (no_weight s.waiting (omega arith), no_weight s.running (omega arith), none_prefills)
        refl in
    (rest, at_rest s rest)
serve_batched_drains ops s (suc n) laws room none_prefills once h = elim (Bool-cases (has_work s)) [
  | inl busy ↦
      let k = loop_round-Serves ops laws s room none_prefills once busy in
      let (rest, left) =
        serve_batched_drains ops (loop_round ops (step_batched ops) s) n laws
          (omega (arith, k.room, room)) k.none_prefills (λ i. omega (arith, k.kept i, once i))
          (omega (arith, k.less, h)) in
      subst (AtRest s) (sym (serve_round ops s n true busy)) (rest, λ i. left i ∙ k.kept i)
  | inr idle ↦
      subst (AtRest s) (sym (serve_round ops s n false idle))
        (serve_batched_drains ops s n laws room none_prefills once (no_work idle))
]
  where
    light : (rs : List Request) → is_empty rs ≡ true → weigh rs ≡ 0
    light [] e = refl
    light (r ∷ rs) e = cc

    no_work : has_work s ≡ false → work s ≤ n
    no_work idle =
        omega
          (arith, light s.waiting (ground (arith, idle)), light s.running (ground (arith, idle)))
