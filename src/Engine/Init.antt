-- ===== src/Engine/Init.antt =====
-- `_paged_prefill_init` and its rollback: the prefix lookup, its lock and the pages of a request.
pub mod Outcomes
use cs349d_miniengine_sk_nc.Common.{
  ℕ, ◌-◌, List, [], ◌++◌, Option, none, some, Bool, true, false, ◌==◌, if◌then◌else◌, is_empty,
  length,
}
use cs349d_miniengine_sk_nc.Core.{Request}
use cs349d_miniengine_sk_nc.Radix.Cache.{RadixCache, ok, err, root_id}
use cs349d_miniengine_sk_nc.Radix.Match.{match_prefix}
use cs349d_miniengine_sk_nc.Radix.Lock.{inc_lock_ref, dec_lock_ref}
use cs349d_miniengine_sk_nc.Radix.Allocate.{allocate}
use cs349d_miniengine_sk_nc.Engine.State.{Engine, ticked, give_back}
use cs349d_miniengine_sk_nc.Engine.Admission.{peak_pages}

abbrev pub with_cache : {V : Type 0} → Engine V → RadixCache → Engine V
with_cache e cache = record e { memory = record (e.memory) { cache = some cache } }

-- `if last_node is not None and last_node is not self.radix_cache.root`.
abbrev pub lock_of : Option ℕ → Option ℕ
lock_of none = none
lock_of (some i) = if i == root_id then none else some i

abbrev pub cleared : Request → Request
cleared req = record req { cache_hit_tokens = 0; prefill_offset = 0; radix_lock_node = none }

module _ {V : Type 0} (clock addr : ℕ → ℕ) where
  -- `dec_lock_ref`, where there are a cache and a lock.
  unfoldable pub unlock_prefix : Engine V → Option ℕ → Engine V
  unlock_prefix e none = e
  unlock_prefix e (some i) = elim (e.memory.cache) [
    | none ↦ e
    | some cache ↦ with_cache (ticked e) (dec_lock_ref (clock e.readings) cache (some i))
  ]

  unfoldable pub rollback_prefill_init : Engine V → Request → List ℕ → Engine V × Request
  unfolding unlock_prefix
  rollback_prefill_init e req new_pages = (
    unlock_prefix (if is_empty new_pages then e else give_back e new_pages) req.radix_lock_node,
    record req {
      radix_lock_node = none;
      kv_cache = none;
      prefill_offset = 0;
      cache_hit_tokens = 0;
    },
  )

  -- The prefix of the prompt that is cached, locked: the engine, the request and the pages.
  unfoldable pub lookup_prefix : Engine V → Request → Engine V × Request × List ℕ
  lookup_prefix e req = elim (e.memory.cache) [
    | none ↦ (e, cleared req, [])
    | some cache ↦
        let (looked, mr) = match_prefix cache (clock e.readings) req.input_ids in
        (
          with_cache (ticked e) (inc_lock_ref looked (lock_of mr.last_node)),
          record req {
            cache_hit_tokens = mr.matched_tokens;
            prefill_offset = mr.matched_tokens;
            radix_lock_node = lock_of mr.last_node;
          },
          mr.matched_pages,
        )
  ]

  -- The pages that the request still needs; on the RuntimeError everything is undone.
  unfoldable pub reserve_pages : Engine V → Request → List ℕ → Engine V × Request × Bool
  reserve_pages e req matched_pages =
      let extra_pages = peak_pages e req - length matched_pages in
      let (got, memory) = allocate addr e.memory extra_pages in
      let e' : Engine V = record e { memory = memory } in
      let undone = rollback_prefill_init e' req [] in
      elim got [
        | ok new_pages ↦ (
          e',
          record req {
            kv_cache =
                some (record {
                  page_indices = matched_pages ++ new_pages;
                  kv_len = req.prefill_offset;
                });
          },
          false,
        )
        | err raised ↦ (undone.0, undone.1, true)
      ]

  -- The result says whether the RuntimeError was raised.
  unfoldable pub paged_prefill_init : Engine V → Request → Engine V × Request × Bool
  unfolding lookup_prefix reserve_pages rollback_prefill_init
  paged_prefill_init e req =
      let (e', req', matched_pages) = lookup_prefix e req in reserve_pages e' req' matched_pages
