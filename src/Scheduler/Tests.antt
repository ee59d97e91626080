-- ===== src/Scheduler/Tests.antt =====
-- A small engine and scheduler, on which the theorems are applied.
use cs349d_miniengine_sk_nc.Common.{
  ℕ, ◌+◌, ◌≤◌, ◌≡◌, refl, List, [], ◌∷◌, Option, none, some, true, false, ◌==◌, length, arith,
}
use cs349d_miniengine_sk_nc.Core.{Request, RequestStatus}
use cs349d_miniengine_sk_nc.Scheduler.Interface.{EngineOps, EngineLaws, SameRequests}
use cs349d_miniengine_sk_nc.Scheduler.State.{Scheduler}
use cs349d_miniengine_sk_nc.Scheduler.Steps.{step_batched, step_paged, has_work, serve}
use cs349d_miniengine_sk_nc.Scheduler.Steps.Bounds.{step_batched_bound, step_paged_bound}
use cs349d_miniengine_sk_nc.Scheduler.Steps.Conserved.{copies_held, copies, copies_kept}
use cs349d_miniengine_sk_nc.Scheduler.Steps.Conserved.Batched.{step_batched_keeps}
use cs349d_miniengine_sk_nc.Scheduler.Steps.Conserved.Paged.{step_paged_keeps}
use cs349d_miniengine_sk_nc.Scheduler.Steps.Drains.Served.{serve_batched_drains}

sevens : List Request → List ℕ
sevens [] = []
sevens (r ∷ rs) = 7 ∷ sevens rs

some_sevens : List Request → List (Option ℕ)
some_sevens [] = []
some_sevens (r ∷ rs) = some 7 ∷ some_sevens rs

-- An engine that always says 7.
abbrev says_seven : EngineOps ℕ
unfolding sevens some_sevens
says_seven = record {
  prefill = λ e r. (e + 1, r, some 7);
  decode_step = λ e r. (e + 1, r, some 7);
  prefill_batch = λ e rs. (e + 1, rs, some (some_sevens rs));
  batched_decode = λ e rs. (e + 1, rs, some (sevens rs));
  free_request_kv = λ e r. (e, r);
  paged_kv_can_admit = λ e active cand. true;
  is_stop_token = λ t. t == 9;
  decode_token = λ t. t ∷ [];
}

same_requests : (rs : List Request) → SameRequests rs rs
same_requests [] = tt
same_requests (r ∷ rs) = (
  record { request_id = refl; output_ids = refl; max_new_tokens = refl; token_queue = refl },
  same_requests rs,
)

length-sevens : (rs : List Request) → length (sevens rs) ≡ length rs
unfolding sevens
length-sevens [] = refl
length-sevens (r ∷ rs) = omega (arith, length-sevens rs)

length-some_sevens : (rs : List Request) → length (some_sevens rs) ≡ length rs
unfolding some_sevens
length-some_sevens [] = refl
length-some_sevens (r ∷ rs) = omega (arith, length-some_sevens rs)

says_seven_laws : EngineLaws says_seven
unfolding sevens some_sevens
says_seven_laws = record {
  prefill_same = λ e r. record {
    request_id = refl;
    output_ids = refl;
    max_new_tokens = refl;
    token_queue = refl;
  };
  decode_same = λ e r. record {
    request_id = refl;
    output_ids = refl;
    max_new_tokens = refl;
    token_queue = refl;
  };
  free_same = λ e r. record {
    request_id = refl;
    output_ids = refl;
    max_new_tokens = refl;
    token_queue = refl;
  };
  prefill_batch_same = λ e rs. same_requests rs;
  prefill_batch_length = λ e rs out h. ground (arith, h, length-some_sevens rs);
  batched_decode_same = λ e rs. same_requests rs;
  batched_decode_length = λ e rs out h. ground (arith, h, length-sevens rs);
}

abbrev asks : ℕ → ℕ → Request
asks i n = record {
  request_id = i;
  input_ids = 1 ∷ 2 ∷ 3 ∷ [];
  output_ids = [];
  max_new_tokens = n;
  status = RequestStatus.waiting;
  kv_cache = none;
  token_queue = [];
  cache_hit_tokens = 0;
  prefill_offset = 0;
  radix_lock_node = none;
  needs_retract = false;
}

-- One request runs and three wait, with room for two of them.
abbrev busy : Scheduler ℕ
busy = record {
  engine = 0;
  max_running = 3;
  prefill_chunk_size = 0;
  waiting = asks 2 1 ∷ asks 3 4 ∷ asks 4 4 ∷ [];
  running = asks 1 2 ∷ [];
  prefilling = [];
  total_finished = 0;
  total_generated_tokens = 0;
  retired = [];
  dropped = [];
}

busy_distinct : (i : ℕ) → copies_held i busy ≤ 1
busy_distinct i = ground arith

step_batched_bound_example : length (step_batched says_seven busy).0.running ≤ 3
unfolding sevens some_sevens
step_batched_bound_example = step_batched_bound says_seven busy says_seven_laws (omega arith)

step_paged_bound_example :
    let t = (step_paged says_seven busy).0 in length t.running + length t.prefilling ≤ 3
unfolding sevens some_sevens
step_paged_bound_example = step_paged_bound says_seven busy says_seven_laws (omega arith)

step_batched_keeps_example :
    let r = step_batched says_seven busy in
    (lost : List Request) × (r.1 ≡ false → lost ≡ [])
    × ((i : ℕ)
        → (copies_kept i r.0 + copies i lost ≡ copies_kept i busy)
          × (copies i lost ≤ copies i busy.waiting))
unfolding sevens some_sevens
step_batched_keeps_example = step_batched_keeps says_seven busy says_seven_laws busy_distinct

step_paged_keeps_example : copies_kept 4 (step_paged says_seven busy).0 ≡ copies_kept 4 busy
unfolding sevens some_sevens
step_paged_keeps_example = step_paged_keeps says_seven busy says_seven_laws busy_distinct 4

serve_batched_drains_example :
    let t = serve says_seven 15 (step_batched says_seven) busy in
    (has_work t ≡ false) × ((i : ℕ) → copies i t.retired + copies i t.dropped ≡ copies_held i busy)
unfolding sevens some_sevens
serve_batched_drains_example =
    serve_batched_drains says_seven busy 15 says_seven_laws (omega arith) refl busy_distinct
      (omega arith)
