-- ===== src/Engine/Tests/Cached.antt =====
-- A cache of one node, on which the set-up and the release of a request are applied.
use cs349d_miniengine_sk_nc.Scheduler.Interface.{SameRequests}
use cs349d_miniengine_sk_nc.Common.{
  length, count, pos, ℕ, ◌≡◌, refl, [], ◌∷◌, some, arith, none, ==_iff,
}
use cs349d_miniengine_sk_nc.Engine.Batch.{prefill_batch, slot_requests, slot_results}
use cs349d_miniengine_sk_nc.Engine.Same.Batches.{prefill_batch-SameRequests}
use cs349d_miniengine_sk_nc.Engine.Tests.{echo, small_engine, in_prefill}
use cs349d_miniengine_sk_nc.Engine.Release.{free_request_kv}
use cs349d_miniengine_sk_nc.Engine.Release.Outcomes.{Committed, free_request_kv_lem}
use cs349d_miniengine_sk_nc.Radix.Node.{CacheTier, empty, entry, get_child, ids_of}
use cs349d_miniengine_sk_nc.Radix.Cache.{RadixCache, new_cache, ok}
use cs349d_miniengine_sk_nc.Radix.Lock.Counts.{locks_on}
use cs349d_miniengine_sk_nc.Radix.Lock.Serving.{IsServing}
use cs349d_miniengine_sk_nc.Engine.Init.{paged_prefill_init}
use cs349d_miniengine_sk_nc.Engine.Init.Outcomes.{Inits, paged_prefill_init-Inits}
use cs349d_miniengine_sk_nc.Engine.State.{Engine}
use cs349d_miniengine_sk_nc.Core.{Request}
use cs349d_miniengine_sk_nc.Radix.Lock.Inserted.{IsIssued}
use cs349d_miniengine_sk_nc.Radix.Lock.Paths.{IsLocked}

-- A cache of the tokens 1, 2, 3, 4 in the pages 7 and 5.
abbrev small_cache : RadixCache
small_cache = record (new_cache 2 0) {
  children =
      entry (1 ∷ 2 ∷ [])
        (record {
          id = 1;
          key = 1 ∷ 2 ∷ 3 ∷ 4 ∷ [];
          pages = 7 ∷ 5 ∷ [];
          ref_count = pos 0;
          last_access = 4;
          tier = CacheTier.gpu;
        })
        empty empty;
  next_id = 2;
}

small_cache-IsServing : IsServing 2 [] small_cache
unfolding new_cache ids_of count locks_on get_child
small_cache-IsServing = record {
  size = refl;
  locked = record {
    paged = omega arith;
    wf = (record { aligned = refl; some_pages = omega arith; slotted = refl }, refl, tt, tt);
    distinct = λ i. ground arith;
    rooted = refl;
    counts = (refl, tt, tt);
  };
}

abbrev cached_engine : Engine ℕ
cached_engine = record small_engine {
  memory = record {
    pool = record { num_pages = 8; page_size = 2; free_list = 0 ∷ 1 ∷ [] };
    cache = some small_cache;
  };
}

-- Its first page is cached.
abbrev newcomer : Request
newcomer = record in_prefill { input_ids = 1 ∷ 2 ∷ 9 ∷ []; kv_cache = none; prefill_offset = 0 }

paged_prefill_init-Inits_example :
    Inits cached_engine newcomer [] (paged_prefill_init (λ i. i) (λ i. i) cached_engine newcomer)
paged_prefill_init-Inits_example =
    paged_prefill_init-Inits (λ i. i) (λ i. i) cached_engine newcomer [] (omega arith)
      small_cache-IsServing

-- It borrowed the cached first page, and has one of its own.
abbrev finished_request : Request
finished_request = record in_prefill {
  input_ids = 1 ∷ 2 ∷ 9 ∷ [];
  output_ids = 8 ∷ [];
  kv_cache = some (record { page_indices = 7 ∷ 3 ∷ []; kv_len = 3 });
  radix_lock_node = some 1;
}

-- The cache while that request holds its lock.
abbrev held_cache : RadixCache
held_cache = record small_cache {
  children =
      entry (1 ∷ 2 ∷ [])
        (record {
          id = 1;
          key = 1 ∷ 2 ∷ 3 ∷ 4 ∷ [];
          pages = 7 ∷ 5 ∷ [];
          ref_count = pos 1;
          last_access = 4;
          tier = CacheTier.gpu;
        })
        empty empty;
}

abbrev held_engine : Engine ℕ
held_engine = record cached_engine {
  memory = record (cached_engine.memory) { cache = some held_cache };
}

held_cache-IsLocked : IsLocked (1 ∷ []) held_cache
unfolding new_cache ids_of count locks_on get_child
held_cache-IsLocked = record {
  paged = omega arith;
  wf = (record { aligned = refl; some_pages = omega arith; slotted = refl }, refl, tt, tt);
  distinct = λ i. ground arith;
  rooted = refl;
  counts = (refl, tt, tt);
}

held_cache-IsIssued : IsIssued (1 ∷ []) held_cache
unfolding new_cache ids_of count
held_cache-IsIssued = record {
  started = omega arith;
  nodes = λ j h. ground (arith, h, ==_iff 1 j);
  holds = λ j h. ground (arith, h, ==_iff 1 j);
}

free_request_kv_lem_example :
    (e' : Engine ℕ) × (free_request_kv (λ i. i) (λ i. i) held_engine finished_request
      ≡ ok (e', record finished_request { kv_cache = none; radix_lock_node = none }))
    × Committed (λ i. i) (λ i. i) (1 ∷ 2 ∷ 9 ∷ 8 ∷ []) 2 [] e'
unfolding new_cache
free_request_kv_lem_example =
    free_request_kv_lem (λ i. i) (λ i. i) held_engine finished_request
      (record { page_indices = 7 ∷ 3 ∷ []; kv_len = 3 }) held_cache [] refl refl held_cache-IsLocked
      held_cache-IsIssued refl (omega arith)

prefill_batch-SameRequests_example :
    SameRequests (newcomer ∷ in_prefill ∷ []) (
      slot_requests
        (prefill_batch echo (λ i. i) (λ i. i) cached_engine (newcomer ∷ in_prefill ∷ [])).1)
    × (length (
          slot_results
            (prefill_batch echo (λ i. i) (λ i. i) cached_engine (newcomer ∷ in_prefill ∷ [])).1)
        ≡ 2)
prefill_batch-SameRequests_example =
    prefill_batch-SameRequests echo (λ i. i) (λ i. i) cached_engine (newcomer ∷ in_prefill ∷ [])
