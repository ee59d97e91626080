-- ===== src/Radix/Tests.antt =====
-- One small cache, on which the theorems are applied.
use cs349d_miniengine_sk_nc.Common.{
  ℕ, ◌+◌, ◌*◌, ◌/◌, ◌<◌, ◌≤◌, ◌≡◌, ◌⊎◌, ◌=ₗ◌, refl, pos, List, [], ◌∷◌, some, length, count, min,
  arith,
}
use cs349d_miniengine_sk_nc.Pool.{KvMemoryPool, num_free}
use cs349d_miniengine_sk_nc.Radix.Node.{
  put_child, CacheTier, empty, entry, get_child, ids_of, pages_of,
}
use cs349d_miniengine_sk_nc.Radix.Keys.{child_key, match_keys, page_align_len}
use cs349d_miniengine_sk_nc.Radix.Cache.{
  RadixCache, ok, err, new_cache, value_error, runtime_error, Result,
}
use cs349d_miniengine_sk_nc.Radix.Match.{match_prefix}
use cs349d_miniengine_sk_nc.Radix.Insert.{insert_and_return}
use cs349d_miniengine_sk_nc.Radix.Contract.{IsCache, cached, continued}
use cs349d_miniengine_sk_nc.Radix.Contract.Outcomes.{whole_pages}
use cs349d_miniengine_sk_nc.Radix.Contract.Lookups.{
  cached-insert_and_return, match_prefix_lem, insert_and_return_lem, insert-IsCache,
  matched_tokens-insert,
}
use cs349d_miniengine_sk_nc.Radix.Evict.{evict, num_evictable_pages}
use cs349d_miniengine_sk_nc.Radix.Evict.Contract.{IsLive, evict_enough, evict_keeps}
use cs349d_miniengine_sk_nc.Radix.Evict.Sweeps.{locked_nodes}
use cs349d_miniengine_sk_nc.Radix.Allocate.{Memory, num_evictable, allocate}
use cs349d_miniengine_sk_nc.Radix.Allocate.Exact.{Hands, Refuses, allocate_exact}
use cs349d_miniengine_sk_nc.Radix.Lock.{inc_lock_ref, dec_lock_ref}
use cs349d_miniengine_sk_nc.Radix.Lock.Counts.{locks_on}
use cs349d_miniengine_sk_nc.Radix.Lock.Paths.{
  IsLocked, inc_lock_ref-IsLocked, dec_lock_ref-IsLocked,
}

-- It holds the tokens 1, 2, 3, 4 in the pages 7 and 5.
abbrev one_node : RadixCache
one_node = record (new_cache 2 0) {
  children =
      entry (1 ∷ 2 ∷ [])
        (record {
          id = 1;
          key = 1 ∷ 2 ∷ 3 ∷ 4 ∷ [];
          pages = 7 ∷ 5 ∷ [];
          ref_count = pos 0;
          last_access = 4;
          tier = CacheTier.gpu;
        })
        empty empty;
  next_id = 2;
}

abbrev two_free : KvMemoryPool
two_free = record { num_pages = 8; page_size = 2; free_list = 3 ∷ 6 ∷ [] }

-- Shares its first page with what is stored, and ends within a page.
abbrev forked : List ℕ
forked = 1 ∷ 2 ∷ 8 ∷ 9 ∷ 3 ∷ []

one_node-IsCache : IsCache one_node
unfolding new_cache get_child
one_node-IsCache = record {
  paged = omega arith;
  wf = (record { aligned = refl; some_pages = omega arith; slotted = refl }, refl, tt, tt);
}

one_node-IsLive : IsLive one_node
unfolding new_cache ids_of count
one_node-IsLive = record {
  paged = one_node-IsCache.paged;
  wf = one_node-IsCache.wf;
  distinct = λ i. ground arith;
  guarded = ((λ z. tt), tt, tt);
}

-- The insertion of `forked`, as it comes out.
abbrev or_else :
    RadixCache × ℕ × List ℕ → Result (RadixCache × ℕ × List ℕ) → RadixCache × ℕ × List ℕ
or_else d (ok r) = r
or_else d (err e) = d

forked_inserted :
    (r : RadixCache × ℕ × List ℕ) × (insert_and_return one_node 6 2 forked (7 ∷ 2 ∷ []) ≡ ok r)
unfolding new_cache insert_and_return get_child ◌=ₗ◌ match_keys page_align_len child_key put_child
forked_inserted =
    (or_else (one_node, 0, []) (insert_and_return one_node 6 2 forked (7 ∷ 2 ∷ [])), refl)

cached-insert_and_return_example :
    cached forked_inserted.0.0 9 (1 ∷ 2 ∷ 8 ∷ 9 ∷ [])
    ≡ continued
        (cached one_node 9 (1 ∷ 2 ∷ 8 ∷ 9 ∷ []))
        (7 ∷ 2 ∷ [])
        (match_keys (whole_pages one_node forked) (whole_pages one_node (1 ∷ 2 ∷ 8 ∷ 9 ∷ [])) 2 / 2)
unfolding new_cache
cached-insert_and_return_example =
    cached-insert_and_return one_node 6 2 9 forked (7 ∷ 2 ∷ []) (1 ∷ 2 ∷ 8 ∷ 9 ∷ [])
      forked_inserted.0 one_node-IsCache forked_inserted.1

matched_tokens-insert_example :
    (match_prefix forked_inserted.0.0 9 forked).1.matched_tokens ≡ page_align_len (length forked) 2
unfolding new_cache
matched_tokens-insert_example =
    matched_tokens-insert one_node 6 2 9 forked (7 ∷ 2 ∷ []) forked_inserted.0 one_node-IsCache
      forked_inserted.1

insert-IsCache_example : IsCache forked_inserted.0.0
insert-IsCache_example =
    insert-IsCache one_node 6 2 forked (7 ∷ 2 ∷ []) forked_inserted.0 one_node-IsCache
      forked_inserted.1

insert_and_return_lem_example :
    ((r : RadixCache × ℕ × List ℕ) × (length forked / 2 ≤ 2)
      × (insert_and_return one_node 6 2 forked (7 ∷ 6 ∷ []) ≡ ok r)
      × IsCache r.0
      × ((later : ℕ)
          → (match_prefix r.0 later forked).1.matched_tokens ≡ page_align_len (length forked) 2))
    ⊎ ((2 < length forked / 2)
        × (insert_and_return one_node 6 2 forked (7 ∷ 6 ∷ []) ≡ err value_error))
unfolding new_cache
insert_and_return_lem_example =
    insert_and_return_lem one_node 6 2 forked (7 ∷ 6 ∷ []) one_node-IsCache

match_prefix_lem_example :
    let r = match_prefix one_node 6 forked in
    (cached r.0 9 forked ≡ cached one_node 9 forked)
    × (r.1.matched_tokens ≡ length r.1.matched_pages * 2)
    × (r.1.matched_tokens ≤ length forked)
    × IsCache r.0
unfolding new_cache
match_prefix_lem_example = match_prefix_lem one_node 6 9 forked forked one_node-IsCache

evict_enough_example :
    let r = evict (λ i. i) one_node two_free 1 in
    (min 1 (num_evictable_pages one_node) ≤ r.2)
    × (r.2 + num_evictable_pages r.0 ≡ num_evictable_pages one_node)
    × (num_free r.1 ≡ num_free two_free + r.2)
evict_enough_example = evict_enough (λ i. i) one_node two_free 1 one_node-IsLive

evict_keeps_example :
    let r = evict (λ i. i) one_node two_free 1 in
    ((a : ℕ)
      → count a r.1.free_list + count a (pages_of r.0.children)
        ≡ count a two_free.free_list + count a (pages_of one_node.children))
    × (locked_nodes r.0.children ≡ locked_nodes one_node.children)
    × IsLive r.0
evict_keeps_example = evict_keeps (λ i. i) one_node two_free 1 one_node-IsLive

abbrev memory : Memory
memory = record { pool = two_free; cache = some one_node }

allocate_exact_example :
    ((pages : List ℕ) × (after : Memory) × (3 ≤ num_free two_free + num_evictable memory)
      × (allocate (λ i. i) memory 3 ≡ (ok pages, after))
      × Hands memory 3 pages after)
    ⊎ ((after : Memory) × (num_free two_free + num_evictable memory < 3)
        × (allocate (λ i. i) memory 3 ≡ (err runtime_error, after))
        × Refuses memory after)
allocate_exact_example = allocate_exact (λ i. i) memory 3 one_node-IsLive

one_node-IsLocked : IsLocked [] one_node
unfolding new_cache ids_of count locks_on
one_node-IsLocked = record {
  paged = one_node-IsCache.paged;
  wf = one_node-IsCache.wf;
  distinct = one_node-IsLive.distinct;
  rooted = refl;
  counts = (refl, tt, tt);
}

inc_lock_ref-IsLocked_example : IsLocked (1 ∷ []) (inc_lock_ref one_node (some 1))
inc_lock_ref-IsLocked_example = inc_lock_ref-IsLocked 1 [] one_node one_node-IsLocked

dec_lock_ref-IsLocked_example :
    IsLocked [] (dec_lock_ref 9 (inc_lock_ref one_node (some 1)) (some 1))
dec_lock_ref-IsLocked_example =
    dec_lock_ref-IsLocked 9 1 [] (inc_lock_ref one_node (some 1))
      (inc_lock_ref-IsLocked 1 [] one_node one_node-IsLocked)
