-- ===== src/Lib.antt =====
-- MiniEngine, a small LLM serving engine: its KV page pool, its radix prefix cache with a CPU tier,
-- its request scheduler and the paged mode of its engine.
--
-- How the parts interact: the scheduler asks the engine whether a request can be admitted, lets it
-- prefill and decode batches and frees what finished; the engine looks up and locks a cached prefix,
-- takes pages from the pool (which may evict from the cache), reads and writes KV through a request's
-- page table, and commits a finished sequence to the cache.
--
-- Parts, and the files that model them:
--
--   miniengine/core.py: `Core`, the requests and the tokens that are streamed to clients.
--   miniengine/kv_memory_pool.py: `Pool`, the free list and the page arithmetic; `Pool/Laws`. The
--   method `allocate`, which may evict from the prefix cache, is in `Radix/Allocate`.
--   miniengine/radix_cache.py: `Radix`. `Radix/Node` has the tree (a `children` dict is a list of
--   entries in insertion order, a parent is a place in the tree, an object's identity a number);
--   `Radix/Keys` the page-aligned keys, `Radix/Match`, `Radix/Insert`, `Radix/Lock` and `Radix/Evict`
--   the methods. `Radix/WellFormed` is the shape of a tree, `Radix/Look` a reference definition of the
--   lookup by recursion on the tree, `Radix/Contract` what the cache promises to its callers,
--   `Radix/Evict/Contract` what an eviction promises, `Radix/Allocate/Exact` when an allocation succeeds,
--   `Radix/Lock/Paths`, `Radix/Lock/Serving` and `Radix/Lock/Inserted` the reference counts as the locks
--   that requests hold. An assertion of `_split_node` that fails is an error of the insertion.
--   miniengine/engine.py, paged mode: `Engine`. `Engine/State` is what the engine keeps and what it calls
--   of the model, `Engine/Admission` paged_kv_can_admit, `Engine/Store` the methods that read and write
--   the pages, `Engine/Masks` the attention masks, `Engine/Init` _paged_prefill_init and its rollback,
--   `Engine/Prefill` _prefill_continuation_chunk and _sample_first_token_cached_prompt, `Engine/Packed`
--   _prefill_packed_chunk_step, `Engine/Batch` prefill_batch, `Engine/Decode` decode_step and prefill,
--   `Engine/DecodeBatch` batched_decode, `Engine/Release` free_request_kv; their laws are in the modules
--   below them. `Engine/Same` relates the engine's calls to what the scheduler relies on.
--   miniengine/hicache.py: `HiCache`, the CPU page pool, the tiers of the tree's nodes and `reset`;
--   `HiCache/Demote` _demote_node and _evict_cpu_lru, `HiCache/Evict` evict, `HiCache/Promote`
--   _promote_node and _ensure_gpu_pages, `HiCache/Match` match_prefix, with their laws below.
--   miniengine/scheduler.py: `Scheduler`. `Scheduler/Interface` is what it calls of the engine and what
--   it relies on there, `Scheduler/State` its queues and helpers, `Scheduler/Steps` the three step
--   functions, with their laws in the modules below.
--
-- State is passed explicitly: a method returns the new state and its result, an exception among them.
-- A clock reading is an argument, CPython's `id` a function; the engine counts its readings of the
-- clock. The tensors of the pool are a function from a page and a slot to the KV of one token over all
-- layers, of an abstract type; the transformer and the sampler are functions that the engine's methods
-- take as arguments (`ModelOps`), of which only the lengths of their outputs are used (`ModelLaws`).
--
-- Loops run on fuel: a walk down the tree takes at least a page of tokens each round, so one more than
-- the number of tokens is enough; a sweep of `evict` takes an item off its heap each round and adds one
-- only when a node leaves the tree; storing a slice writes at least a token each round; the baseline
-- decode loop makes at most `max_new_tokens` rounds.
--
-- Limits: the engine's files are for no prefix cache or the plain one; the tiered cache, which the
-- engine attaches when it is given CPU memory, is modelled on its own in `HiCache`. `pages_needed`
-- divides floats; the model's ceiling is the same up to 2 ** 53 tokens. A lock is on a node of the
-- tree: `reset` while requests hold locks, after which a release would leave the tree, is outside the
-- model. In the scheduler's interface releasing a request and decoding a token do not raise.
--
-- Not modelled: the transformer (miniengine/model.py) and the sampler (miniengine/sampler.py), whose
-- work is floating-point tensors; the engine's mode without pages and its CUDA graphs; the sizing of
-- the CPU pool (`from_budget` of miniengine/hicache.py); the HTTP server and the command line; locks
-- and threads, of which one runs the scheduler; CUDA streams; logging and the benchmark scripts.
pub mod Common
pub mod Pool
pub mod Radix
pub mod Core
pub mod Scheduler
pub mod Engine
pub mod HiCache
