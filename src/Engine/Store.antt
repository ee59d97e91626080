-- ===== src/Engine/Store.antt =====
-- Reading and writing KV through a request's page table.
pub mod Writes
pub mod Reads
use cs349d_miniengine_sk_nc.Common.{
  ℕ, zero, suc, ◌+◌, ◌-◌, ◌/◌, ◌%◌, min, List, [], ◌∷◌, Option, none, some, Bool, true, false, ◌&&◌,
  ◌==◌, ltb, if◌then◌else◌, take, drop, get_elem?,
}
use cs349d_miniengine_sk_nc.Engine.State.{KvStore}

module _ {V : Type 0} where
  unfoldable pub write : KvStore V → ℕ → ℕ → V → KvStore V
  write store page slot v q r = if page == q && slot == r then v else store q r

  -- `pages[page_id, slot : slot + n].copy_(src)`.
  unfoldable pub write_slice : KvStore V → ℕ → ℕ → List V → KvStore V
  write_slice store page slot [] = store
  write_slice store page slot (v ∷ vs) = write_slice (write store page slot v) page (suc slot) vs

  -- The loop of `_store_prefill_slice_to_pool`: what it leaves, and whether it raised. A round writes
  -- the rest of a page. The tokens go to the slots from the first page's first on.
  unfoldable pub store_loop :
      ℕ → ℕ → KvStore V → List ℕ → List V → (src_start src_len written : ℕ) → KvStore V × Bool
  store_loop zero page_size store page_indices kv src_start src_len written = (store, false)
  store_loop (suc fuel) page_size store page_indices kv src_start src_len written =
      let slot = written % page_size in
      let to_copy = min (src_len - written) (page_size - slot) in
      elim (ltb written src_len) [
        | false ↦ (store, false)
        | true ↦ elim (get_elem? page_indices (written / page_size)) [
          | none ↦ (store, true)
          | some page_id ↦
              store_loop fuel page_size
                (write_slice store page_id slot (take to_copy (drop (src_start + written) kv)))
                page_indices kv src_start src_len (written + to_copy)
        ]
      ]

  -- Each round writes at least a token.
  unfoldable pub store_prefill_slice :
      ℕ → KvStore V → List ℕ → List V → (src_start src_len : ℕ) → KvStore V × Bool
  unfolding store_loop write_slice write
  store_prefill_slice page_size store page_indices kv src_start src_len =
      store_loop (suc src_len) page_size store page_indices kv src_start src_len 0

  -- The KV of token `t`; `none` is the IndexError.
  unfoldable pub read_token : ℕ → KvStore V → List ℕ → ℕ → Option V
  read_token page_size store page_indices t = elim (get_elem? page_indices (t / page_size)) [
    | none ↦ none
    | some page_id ↦ some (store page_id (t % page_size))
  ]

  -- `_gather_kv_from_pool`: the KV of `n` tokens from token `t` on.
  unfoldable pub gather_from : ℕ → KvStore V → List ℕ → ℕ → ℕ → Option (List V)
  gather_from page_size store page_indices t zero = some []
  gather_from page_size store page_indices t (suc n) =
      let rest = gather_from page_size store page_indices (suc t) n in
      elim (read_token page_size store page_indices t) [
        | none ↦ none
        | some v ↦ elim rest [ none ↦ none | some vs ↦ some (v ∷ vs) ]
      ]

  unfoldable pub gather_kv : ℕ → KvStore V → List ℕ → ℕ → Option (List V)
  unfolding gather_from read_token
  gather_kv page_size store page_indices kv_len = gather_from page_size store page_indices 0 kv_len

  -- An entry of `_build_batched_kv_from_pool`: behind the request's own length it is masked to zero;
  -- a token without a page has the table's -1, which indexes the pool's last page from its end.
  unfoldable pub padded_token :
      V → (num_pages page_size : ℕ) → KvStore V → List ℕ → (cache_len t : ℕ) → V
  padded_token blank num_pages page_size store page_indices cache_len t =
      let page_id : ℕ = elim (get_elem? page_indices (t / page_size)) [
        | none ↦ num_pages - 1
        | some page_id ↦ page_id
      ] in
      if ltb t cache_len then store page_id (t % page_size) else blank

  unfoldable pub padded_from :
      V → (num_pages page_size : ℕ) → KvStore V → List ℕ → (cache_len t n : ℕ) → List V
  padded_from blank num_pages page_size store page_indices cache_len t zero = []
  padded_from blank num_pages page_size store page_indices cache_len t (suc n) =
      padded_token blank num_pages page_size store page_indices cache_len t
      ∷ padded_from blank num_pages page_size store page_indices cache_len (suc t) n

  -- A request's row, as long as the longest request of the batch.
  unfoldable pub padded_kv :
      V → (num_pages page_size : ℕ) → KvStore V → List ℕ → (cache_len max_cache_len : ℕ) → List V
  unfolding padded_from padded_token
  padded_kv blank num_pages page_size store page_indices cache_len max_cache_len =
      padded_from blank num_pages page_size store page_indices cache_len 0 max_cache_len
