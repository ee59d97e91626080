-- ===== src/Core.antt =====
-- miniengine/core.py: requests and what is streamed to their clients. The floating-point sampling
-- parameters and the arrival time, which only the sampler and the log read, are left out; a text is
-- the list of its code points. `token_queue` lists what was put into the queue, oldest first.
use cs349d_miniengine_sk_nc.Common.{ℕ, ℤ, List, Option, Bool, length, leb}

pub data RequestStatus : Type 0 where
  waiting running finished : RequestStatus

pub record TokenOutput : Type 0 where
  pub token_id : ℤ
  pub token_text : List ℕ
  pub finished : Bool

-- engine.py's `PagedRequestState`.
pub record PagedRequestState : Type 0 where
  pub page_indices : List ℕ
  pub kv_len : ℕ

-- `max_new_tokens` is a field of `sampling_params`.
pub record Request : Type 0 where
  pub request_id : ℕ
  pub input_ids : List ℕ
  pub output_ids : List ℕ
  pub max_new_tokens : ℕ
  pub status : RequestStatus
  pub kv_cache : Option PagedRequestState
  pub token_queue : List TokenOutput
  pub cache_hit_tokens : ℕ
  pub prefill_offset : ℕ
  pub radix_lock_node : Option ℕ
  pub needs_retract : Bool

abbrev pub num_input_tokens : Request → ℕ
num_input_tokens req = length req.input_ids

abbrev pub num_output_tokens : Request → ℕ
num_output_tokens req = length req.output_ids

abbrev pub is_finished : Request → Bool
is_finished req = leb req.max_new_tokens (num_output_tokens req)

abbrev pub prefill_done : Request → Bool
prefill_done req = leb (num_input_tokens req) req.prefill_offset
