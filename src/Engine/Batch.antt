-- ===== src/Engine/Batch.antt =====
-- `prefill_batch`: every request of a batch is set up, then sampled, continued or packed.
use cs349d_miniengine_sk_nc.Common.{
  ℕ, List, [], ◌∷◌, Option, none, some, Bool, true, false, ◌==◌, ltb, if◌then◌else◌, is_empty,
}
use cs349d_miniengine_sk_nc.Core.{Request, prefill_done}
use cs349d_miniengine_sk_nc.Radix.Cache.{Result, ok, err}
use cs349d_miniengine_sk_nc.Engine.State.{Engine, ModelOps, paged_state}
use cs349d_miniengine_sk_nc.Engine.Init.{paged_prefill_init}
use cs349d_miniengine_sk_nc.Engine.Prefill.{
  sample_first_token_cached_prompt, prefill_continuation_chunk,
}
use cs349d_miniengine_sk_nc.Engine.Packed.{Slice, prefill_packed_chunk_step}

-- What is to be done with a request: nothing more, or a packed or a continuation step.
pub data Plan : Type 0 where
  settled : Option ℕ → Plan
  packs continues : Plan

pub record Slot : Type 0 where
  pub req : Request
  pub plan : Plan

-- The requests that wait for the packed step, and its results in their places.
unfoldable pub packing : List Slot → List Request
packing [] = []
packing (s ∷ ss) = elim (s.plan) [
  | packs ↦ s.req ∷ packing ss
  | settled r ↦ packing ss
  | continues ↦ packing ss
]

unfoldable pub weave : List Slot → List Slice → List Slot
weave [] done = []
weave (s ∷ ss) [] = s ∷ ss
weave (s ∷ ss) (d ∷ done) = elim (s.plan) [
  | packs ↦ record { req = d.req; plan = settled d.result } ∷ weave ss done
  | settled r ↦ s ∷ weave ss (d ∷ done)
  | continues ↦ s ∷ weave ss (d ∷ done)
]

abbrev pub slot_result : Plan → Option ℕ
slot_result (settled r) = r
slot_result packs = none
slot_result continues = none

unfoldable pub slot_requests : List Slot → List Request
slot_requests [] = []
slot_requests (s ∷ ss) = s.req ∷ slot_requests ss

unfoldable pub slot_results : List Slot → List (Option ℕ)
slot_results [] = []
slot_results (s ∷ ss) = slot_result s.plan ∷ slot_results ss

-- A batch's outcome: the slots as far as they got.
abbrev pub Batch : Type 0 → Type 0
Batch V = Engine V × List Slot × Result (Unit {0})

module _ {V L : Type 0} (model : ModelOps V L) (clock addr : ℕ → ℕ) where
  -- `if req.kv_cache is None: …`; the flag says whether the request is to be retracted.
  unfoldable pub set_up : Engine V → Request → Engine V × Request × Bool
  set_up e req = elim (req.kv_cache) [
    | some state ↦ (e, req, false)
    | none ↦ paged_prefill_init clock addr e req
  ]

  abbrev pub settle_at : Engine V × Request × Result ℕ → Engine V × Slot × Result (Unit {0})
  settle_at (e, req, ok t) = (e, record { req = req; plan = settled (some t) }, ok tt)
  settle_at (e, req, err raised) = (e, record { req = req; plan = settled none }, err raised)

  -- The rest of the loop's body, for a request that has its pages.
  unfoldable pub dispatch : Engine V → Request → Engine V × Slot × Result (Unit {0})
  dispatch e req =
      let sampled = settle_at (sample_first_token_cached_prompt model e req) in
      if prefill_done req then sampled else elim (paged_state req) [
        | err raised ↦ (e, record { req = req; plan = settled none }, err raised)
        | ok state ↦
            if ltb 0 state.kv_len
            then (e, record { req = req; plan = continues }, ok tt)
            else (e, record { req = req; plan = packs }, ok tt)
      ]

  unfoldable pub plan_one : Engine V → Request → Engine V × Slot × Result (Unit {0})
  unfolding set_up dispatch
  plan_one e req =
      let (e', req', raised) = set_up e req in
      let next = dispatch e' req' in
      if raised
      then (e', record { req = record req' { needs_retract = true }; plan = settled none }, ok tt)
      else next

  unfoldable pub untouched : List Request → List Slot
  untouched [] = []
  untouched (r ∷ rs) = record { req = r; plan = settled none } ∷ untouched rs

  -- The step of a continuation, as a slot.
  abbrev pub continued_at :
      Engine V × Request × Result (Option ℕ) → Engine V × Slot × Result (Unit {0})
  continued_at (e, req, ok t) = (e, record { req = req; plan = settled t }, ok tt)
  continued_at (e, req, err raised) = (e, record { req = req; plan = settled none }, err raised)

  -- One-shot prefill makes the continuation at once; chunked prefill after the packed step.
  abbrev pub at_once :
      Bool → Engine V × Slot × Result (Unit {0}) → Engine V × Slot × Result (Unit {0})
  at_once false out = out
  at_once true (e, slot, err raised) = (e, slot, err raised)
  at_once true (e, slot, ok _) = elim (slot.plan) [
    | continues ↦ continued_at (prefill_continuation_chunk model e slot.req)
    | packs ↦ (e, slot, ok tt)
    | settled r ↦ (e, slot, ok tt)
  ]

  -- The first loop over the requests.
  unfoldable pub plan_all : Bool → Engine V → List Request → Batch V
  plan_all oneshot e [] = (e, [], ok tt)
  plan_all oneshot e (r ∷ rs) =
      let (e', slot, out) = at_once oneshot (plan_one e r) in
      elim out [
        | err raised ↦ (e', slot ∷ untouched rs, err raised)
        | ok _ ↦ let (e₁, slots, rest) = plan_all oneshot e' rs in (e₁, slot ∷ slots, rest)
      ]

  -- `if packed_reqs: …`.
  abbrev pub pack_step : Batch V → Batch V
  pack_step (e, slots, err raised) = (e, slots, err raised)
  pack_step (e, slots, ok _) =
      let (e', done, out) = prefill_packed_chunk_step model e (packing slots) in
      let woven : Batch V = (e', weave slots done, out) in
      if is_empty (packing slots) then (e, slots, ok tt) else woven

  -- `for i, req in cont_reqs: …`.
  unfoldable pub continue_all : Engine V → List Slot → Batch V
  continue_all e [] = (e, [], ok tt)
  continue_all e (s ∷ ss) =
      let (e', slot, out) = at_once true (e, s, ok tt) in
      elim out [
        | err raised ↦ (e', slot ∷ ss, err raised)
        | ok _ ↦ let (e₁, slots, rest) = continue_all e' ss in (e₁, slot ∷ slots, rest)
      ]

  abbrev pub continue_step : Batch V → Batch V
  continue_step (e, slots, err raised) = (e, slots, err raised)
  continue_step (e, slots, ok _) = continue_all e slots

  unfoldable pub prefill_batch_oneshot : Engine V → List Request → Batch V
  unfolding plan_all plan_one packing weave
  prefill_batch_oneshot e requests = pack_step (plan_all true e requests)

  unfoldable pub prefill_batch_chunked : Engine V → List Request → Batch V
  unfolding plan_all plan_one packing weave continue_all
  prefill_batch_chunked e requests = continue_step (pack_step (plan_all false e requests))

  unfoldable pub prefill_batch : Engine V → List Request → Batch V
  unfolding prefill_batch_oneshot prefill_batch_chunked
  prefill_batch e requests =
      if is_empty requests
      then (e, [], ok tt)
      else if e.prefill_chunk_size == 0
      then prefill_batch_oneshot e requests
      else prefill_batch_chunked e requests
