-- ===== src/Scheduler/State.antt =====
-- The scheduler's state and its helpers: streaming a token, finishing a request.
use cs349d_miniengine_sk_nc.Common.{
  ℕ, pos, negsuc, ◌+◌, List, [], ◌∷◌, ◌++◌, none, Bool, true, false, ◌||◌, ◌==◌, if◌then◌else◌,
}
use cs349d_miniengine_sk_nc.Core.{Request, RequestStatus, num_output_tokens, is_finished}
use cs349d_miniengine_sk_nc.Scheduler.Interface.{EngineOps}

-- `retired` and `dropped` are no fields of the program, and no method reads them: the one lists the
-- requests that were finished, the latest first, the other those that a raising step held in none of
-- the scheduler's queues.
pub record Scheduler (E : Type 0) : Type 0 where
  pub engine : E
  pub max_running : ℕ
  pub prefill_chunk_size : ℕ
  pub waiting : List Request
  pub running : List Request
  pub prefilling : List Request
  pub total_finished : ℕ
  pub total_generated_tokens : ℕ
  pub retired : List Request
  pub dropped : List Request

-- `list.remove` of an object: requests are compared by their unique identifiers.
unfoldable pub remove : ℕ → List Request → List Request
remove i [] = []
remove i (r ∷ rs) = if r.request_id == i then rs else r ∷ remove i rs

module _ {E : Type 0} (ops : EngineOps E) where
  pub add_request : Scheduler E → Request → Scheduler E
  add_request s req = record s { waiting = s.waiting ++ req ∷ [] }

  -- `req.output_ids.append(token_id)` and `_stream_token`.
  unfoldable pub stream_token : Request → ℕ → Request
  stream_token req token_id = record req {
    output_ids = req.output_ids ++ token_id ∷ [];
    token_queue =
        req.token_queue
        ++ record {
          token_id = pos token_id;
          token_text = ops.decode_token token_id;
          finished = false;
        }
          ∷ [];
  }

  unfoldable pub check_finished : Request → ℕ → Bool
  check_finished req token_id = is_finished req || ops.is_stop_token token_id

  -- The object as `_finish_request` leaves it.
  abbrev pub closed : Request → Request
  closed req = record req {
    kv_cache = none;
    token_queue =
        req.token_queue ++ record { token_id = negsuc 0; token_text = []; finished = true } ∷ [];
  }

  unfoldable pub finish_request : Scheduler E → Request → Scheduler E
  unfolding remove
  finish_request s req =
      let marked : Request = record req { status = RequestStatus.finished } in
      let freed = ops.free_request_kv s.engine marked in
      record s {
        engine = freed.0;
        prefilling = remove req.request_id s.prefilling;
        running = remove req.request_id s.running;
        total_finished = s.total_finished + 1;
        total_generated_tokens = s.total_generated_tokens + num_output_tokens req;
        retired = closed freed.1 ∷ s.retired;
      }

  -- `_abort_inflight_requests`.
  unfoldable pub abort_all : Scheduler E → List Request → Scheduler E
  abort_all s [] = s
  abort_all s (req ∷ reqs) = abort_all (finish_request s req) reqs

  unfoldable pub abort_inflight_requests : Scheduler E → Scheduler E
  unfolding abort_all
  abort_inflight_requests s = abort_all s (s.prefilling ++ s.running)
