-- ===== src/Engine/Tests.antt =====
-- Two pages of two tokens, on which the theorems of the engine are applied.
mod Cached
use cs349d_miniengine_sk_nc.Scheduler.Interface.{SameRequests}
use cs349d_miniengine_sk_nc.Engine.DecodeBatch.Answers.{
  batched_decode-SameRequests, length-batched_decode,
}
use cs349d_miniengine_sk_nc.Common.{
  leb, ◌&&◌, ℕ, zero, suc, ◌≡◌, ◌-◌, ◌++◌, refl, [], ◌∷◌, some, false, replicate, get_elem?, arith,
  take, drop, length, ◌<◌, ◌+◌, ◌⊎◌, ◌/◌, ◌%◌, ◌≢◌, List, none, ◌≤◌, true,
}
use cs349d_miniengine_sk_nc.Engine.Masks.{packed_mask, continuation_mask}
use cs349d_miniengine_sk_nc.Engine.Masks.Entries.{
  entry_at, seq_start, total_of, packed_mask_entry, continuation_mask_entry,
}
use cs349d_miniengine_sk_nc.Engine.Admission.{kv_can_admit, peak_pages, total_peak}
use cs349d_miniengine_sk_nc.Engine.Admission.Admits.{kv_can_admit_lem}
use cs349d_miniengine_sk_nc.Radix.Allocate.{Memory, allocate, num_evictable}
use cs349d_miniengine_sk_nc.Radix.Allocate.Exact.{Hands}
use cs349d_miniengine_sk_nc.Engine.Decode.{decode_step, ensure_page, next_slot}
use cs349d_miniengine_sk_nc.Pool.{pages_needed}
use cs349d_miniengine_sk_nc.Engine.State.{
  paged_state, KvStore, Engine, ModelOps, ModelLaws, page_size,
}
use cs349d_miniengine_sk_nc.Engine.Prefill.{last_id, prefill_continuation_chunk}
use cs349d_miniengine_sk_nc.Engine.Decode.Appends.{HasRoom, decode_step_lem}
use cs349d_miniengine_sk_nc.Engine.DecodeBatch.{batched_decode}
use cs349d_miniengine_sk_nc.Engine.DecodeBatch.Unwritten.{OneLonger, batched_decode_unwritten}
use cs349d_miniengine_sk_nc.Core.{Request, PagedRequestState}
use cs349d_miniengine_sk_nc.Core.RequestStatus.{running}
use cs349d_miniengine_sk_nc.Radix.Cache.{ok}
use cs349d_miniengine_sk_nc.Engine.Prefill.Chunks.{
  IsPrefilling, chunk_of, prefill_continuation_chunk_advances,
  prefill_continuation_chunk_overwrites,
}
use cs349d_miniengine_sk_nc.Engine.Prefill.Progress.{GoesBy, run_chunks, run_chunks_lem}
use cs349d_miniengine_sk_nc.Engine.Store.{store_prefill_slice, gather_kv, padded_kv}
use cs349d_miniengine_sk_nc.Engine.Store.Writes.{AreApart}
use cs349d_miniengine_sk_nc.Engine.Store.Reads.{
  gather_kv-store_prefill_slice, store_prefill_slice_others, padded_kv-gather_kv,
}

abbrev blank_store : KvStore ℕ
blank_store = λ page slot. 0

two_apart : AreApart (3 ∷ 5 ∷ [])
two_apart zero zero q h k = refl
two_apart zero (suc zero) q h k = absurd (ground arith)
two_apart zero (suc (suc j)) q h k = absurd (ground arith)
two_apart (suc zero) zero q h k = absurd (ground arith)
two_apart (suc zero) (suc zero) q h k = refl
two_apart (suc zero) (suc (suc j)) q h k = absurd (ground arith)
two_apart (suc (suc i)) j q h k = absurd (ground arith)

abbrev stored : KvStore ℕ
stored = (store_prefill_slice 2 blank_store (3 ∷ 5 ∷ []) (20 ∷ 21 ∷ 22 ∷ 23 ∷ []) 1 3).0

gather_kv-store_prefill_slice_example :
    ((store_prefill_slice 2 blank_store (3 ∷ 5 ∷ []) (20 ∷ 21 ∷ 22 ∷ 23 ∷ []) 1 3).1 ≡ false)
    × (gather_kv 2 stored (3 ∷ 5 ∷ []) 3 ≡ some (take 3 (drop 1 (20 ∷ 21 ∷ 22 ∷ 23 ∷ []))))
gather_kv-store_prefill_slice_example =
    gather_kv-store_prefill_slice 2 blank_store (3 ∷ 5 ∷ []) (20 ∷ 21 ∷ 22 ∷ 23 ∷ []) 1 3
      (omega arith) two_apart (omega arith) (omega arith)

not_there : (t : ℕ) → t < 3 → get_elem? {A = ℕ} (3 ∷ 5 ∷ []) (t / 2) ≡ some 4 → t % 2 ≢ 0
not_there zero h k = absurd (ground arith)
not_there (suc zero) h k = absurd (ground arith)
not_there (suc (suc zero)) h k = absurd (ground arith)
not_there (suc (suc (suc t))) h k = absurd (omega arith)

store_prefill_slice_others_example : stored 4 0 ≡ blank_store 4 0
store_prefill_slice_others_example =
    store_prefill_slice_others 2 blank_store (3 ∷ 5 ∷ []) (20 ∷ 21 ∷ 22 ∷ 23 ∷ []) 1 3 4 0
      (omega arith) two_apart (omega arith) (omega arith) not_there

gathered : gather_kv 2 stored (3 ∷ 5 ∷ []) 3 ≡ some (21 ∷ 22 ∷ 23 ∷ [])
unfolding gather_kv store_prefill_slice
gathered = refl

padded_kv-gather_kv_example :
    padded_kv 0 8 2 stored (3 ∷ 5 ∷ []) 3 4 ≡ (21 ∷ 22 ∷ 23 ∷ []) ++ replicate (4 - 3) 0
padded_kv-gather_kv_example =
    padded_kv-gather_kv 0 8 2 stored (3 ∷ 5 ∷ []) 3 4 (21 ∷ 22 ∷ 23 ∷ []) gathered (omega arith)

-- A model whose KV is the tokens themselves.
abbrev pub echo : ModelOps ℕ ℕ
echo = record {
  packed = λ ids positions lens. (ids, lens);
  cached = λ past ids positions. (ids, length past);
  batched = λ pasts ids lens. (ids, ids);
  direct = λ store tables ids lens. (store, ids);
  sample = λ logits req. logits;
  blank = 0;
}

echo_laws : ModelLaws echo
echo_laws = record {
  packed_length = λ ids positions lens h. refl;
  packed_rows = λ ids positions lens. refl;
  cached_length = λ past ids positions h. refl;
  batched_length = λ pasts ids lens h. refl;
  batched_rows = λ pasts ids lens h. refl;
  direct_rows = λ store tables ids lens. refl;
}

-- Pages of two tokens, and chunks of one.
abbrev pub small_engine : Engine ℕ
small_engine = record {
  memory = record {
    pool = record { num_pages = 8; page_size = 2; free_list = 0 ∷ 1 ∷ [] };
    cache = none;
  };
  store = stored;
  prefill_chunk_size = 1;
  direct_paged_flash = false;
  stop_token_ids = [];
  readings = 0;
}

abbrev two_pages : PagedRequestState
two_pages = record { page_indices = 3 ∷ 5 ∷ []; kv_len = 1 }

-- One token of three is through.
abbrev pub in_prefill : Request
in_prefill = record {
  request_id = 1;
  input_ids = 21 ∷ 22 ∷ 23 ∷ [];
  output_ids = [];
  max_new_tokens = 1;
  status = running;
  kv_cache = some two_pages;
  token_queue = [];
  cache_hit_tokens = 0;
  prefill_offset = 1;
  radix_lock_node = none;
  needs_retract = false;
}

in_prefill-IsPrefilling : IsPrefilling 2 in_prefill two_pages
in_prefill-IsPrefilling = record {
  stored = refl;
  apart = two_apart;
  room = omega arith;
  offset = refl;
  inside = omega arith;
}

prefill_continuation_chunk_advances_example :
    let (e', req', out) = prefill_continuation_chunk echo small_engine in_prefill in
    (0 < chunk_of echo echo_laws small_engine in_prefill)
    × (req'.prefill_offset ≡ 1 + chunk_of echo echo_laws small_engine in_prefill)
    × IsPrefilling
        (page_size e')
        req'
        (record two_pages { kv_len = 1 + chunk_of echo echo_laws small_engine in_prefill })
    × (((req'.prefill_offset < 3) × (out ≡ ok none))
        ⊎ ((req'.prefill_offset ≡ 3) × (t : ℕ) × (out ≡ ok (some t))))
prefill_continuation_chunk_advances_example =
    prefill_continuation_chunk_advances echo echo_laws small_engine in_prefill two_pages
      (omega arith) in_prefill-IsPrefilling (omega arith)

prefill_continuation_chunk_overwrites_example :
    (past : List ℕ) × (gather_kv 2 stored (3 ∷ 5 ∷ []) 1 ≡ some past)
    × (gather_kv 2 (prefill_continuation_chunk echo small_engine in_prefill).0.store (3 ∷ 5 ∷ []) 1
        ≡ some (22 ∷ []))
prefill_continuation_chunk_overwrites_example =
    prefill_continuation_chunk_overwrites echo echo_laws small_engine in_prefill two_pages
      (omega arith) in_prefill-IsPrefilling (omega arith)

run_chunks_lem_example :
    GoesBy echo echo_laws 2 small_engine in_prefill (run_chunks echo 2 small_engine in_prefill)
run_chunks_lem_example =
    run_chunks_lem echo echo_laws 2 small_engine in_prefill two_pages (omega arith) (omega arith)
      in_prefill-IsPrefilling (omega arith)

-- It has generated one token, whose KV has its place.
abbrev in_decode : Request
in_decode = record in_prefill {
  output_ids = 24 ∷ [];
  kv_cache = some (record two_pages { kv_len = 3 });
}

in_decode-HasRoom : HasRoom echo (λ i. i) 2 (record two_pages { kv_len = 3 })
in_decode-HasRoom = record { paged = omega arith; apart = two_apart; room = omega arith }

decode_step_lem_example :
    let (e', req', out) = decode_step echo (λ i. i) small_engine in_decode in
    (past : List ℕ) × (gather_kv 2 stored (3 ∷ 5 ∷ []) 3 ≡ some past)
    × (gather_kv 2 e'.store (3 ∷ 5 ∷ []) 4 ≡ some (past ++ 24 ∷ []))
    × (req' ≡ record in_decode { kv_cache = some (record two_pages { kv_len = 4 }) })
    × (t : ℕ) × (out ≡ ok t)
unfolding last_id
decode_step_lem_example =
    decode_step_lem echo (λ i. i) small_engine in_decode (record two_pages { kv_len = 3 }) 24 refl
      refl in_decode-HasRoom

decoded : (batched_decode echo (λ i. i) small_engine (in_decode ∷ [])).2 ≡ ok (24 ∷ [])
unfolding batched_decode paged_state last_id ensure_page pages_needed next_slot
decoded = refl

batched_decode_unwritten_example :
    ((batched_decode echo (λ i. i) small_engine (in_decode ∷ [])).0.store ≡ stored)
    × OneLonger (in_decode ∷ []) (batched_decode echo (λ i. i) small_engine (in_decode ∷ [])).1
batched_decode_unwritten_example =
    batched_decode_unwritten echo (λ i. i) small_engine (in_decode ∷ []) (24 ∷ []) refl decoded

admitted : kv_can_admit small_engine [] in_prefill ≡ true
unfolding kv_can_admit pages_needed peak_pages num_evictable
admitted = refl

kv_can_admit_lem_example :
    (total_peak small_engine [] + peak_pages small_engine in_prefill ≤ 8)
    × (pages : List ℕ) × (after : Memory) × (allocate
          (λ i. i)
          small_engine.memory
          (peak_pages small_engine in_prefill)
        ≡ (ok pages, after))
    × Hands small_engine.memory (peak_pages small_engine in_prefill) pages after
kv_can_admit_lem_example = kv_can_admit_lem (λ i. i) small_engine [] in_prefill tt admitted

batched_decode-SameRequests_example :
    SameRequests (in_decode ∷ []) (batched_decode echo (λ i. i) small_engine (in_decode ∷ [])).1
batched_decode-SameRequests_example =
    batched_decode-SameRequests echo echo_laws (λ i. i) small_engine (in_decode ∷ [])

length-batched_decode_example : length {A = ℕ} (24 ∷ []) ≡ length (in_decode ∷ [])
length-batched_decode_example =
    length-batched_decode echo echo_laws (λ i. i) small_engine (in_decode ∷ []) (24 ∷ []) decoded

-- The second of two sequences begins at token 2.
packed_mask_entry_example :
    entry_at (packed_mask (2 ∷ 3 ∷ []) (total_of (2 ∷ 3 ∷ []))) 4 1
    ≡ some (leb (seq_start 0 (2 ∷ 3 ∷ []) 4) 1 && leb 1 4)
unfolding total_of
packed_mask_entry_example = packed_mask_entry (2 ∷ 3 ∷ []) 4 1 (omega arith) (omega arith)

continuation_mask_entry_example : entry_at (continuation_mask 3 2) 1 4 ≡ some (leb 4 (3 + 1))
continuation_mask_entry_example = continuation_mask_entry 3 2 1 4 (omega arith) (omega arith)
