-- ===== src/Scheduler/Interface.antt =====
-- What the scheduler calls of the engine. A call returns the engine, the requests as it leaves them
-- and its result; `none` means that it raised. `free_request_kv` and `decode_token` are taken not to
-- raise; for the paged engine `Engine/Release/Outcomes` shows when the first does not.
use cs349d_miniengine_sk_nc.Common.{ℕ, List, Option, Bool, ◌≡◌, some, length}
use cs349d_miniengine_sk_nc.Core.{Request}

pub record EngineOps (E : Type 0) : Type 0 where
  pub prefill : E → Request → E × Request × Option ℕ
  pub decode_step : E → Request → E × Request × Option ℕ
  pub prefill_batch : E → List Request → E × List Request × Option (List (Option ℕ))
  pub batched_decode : E → List Request → E × List Request × Option (List ℕ)
  pub free_request_kv : E → Request → E × Request
  pub paged_kv_can_admit : E → List Request → Request → Bool
  pub is_stop_token : ℕ → Bool
  pub decode_token : ℕ → List ℕ

-- What the engine leaves alone in a request: it owns the cache fields only.
pub record SameRequest (old new : Request) : Type 0 where
  pub request_id : new.request_id ≡ old.request_id
  pub output_ids : new.output_ids ≡ old.output_ids
  pub max_new_tokens : new.max_new_tokens ≡ old.max_new_tokens
  pub token_queue : new.token_queue ≡ old.token_queue

abbrev pub SameRequests : List Request → List Request → Type 0
SameRequests List.[] List.[] = Unit {0}
SameRequests List.[] (List.◌∷◌ r rs) = ⊥
SameRequests (List.◌∷◌ q qs) List.[] = ⊥
SameRequests (List.◌∷◌ q qs) (List.◌∷◌ r rs) = SameRequest q r × SameRequests qs rs

-- The engine's part of the contract; a batch has one result for each request.
pub record EngineLaws {E : Type 0} (ops : EngineOps E) : Type 0 where
  pub prefill_same : (e : E) (r : Request) → SameRequest r (ops.prefill e r).1
  pub decode_same : (e : E) (r : Request) → SameRequest r (ops.decode_step e r).1
  pub free_same : (e : E) (r : Request) → SameRequest r (ops.free_request_kv e r).1
  pub prefill_batch_same : (e : E) (rs : List Request) → SameRequests rs (ops.prefill_batch e rs).1
  pub prefill_batch_length :
      (e : E) (rs : List Request) (out : List (Option ℕ))
      → (ops.prefill_batch e rs).2 ≡ some out
      → length out ≡ length rs
  pub batched_decode_same :
      (e : E) (rs : List Request) → SameRequests rs (ops.batched_decode e rs).1
  pub batched_decode_length :
      (e : E) (rs : List Request) (out : List ℕ)
      → (ops.batched_decode e rs).2 ≡ some out
      → length out ≡ length rs
