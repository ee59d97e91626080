-- ===== src/Engine/Release/Outcomes.antt =====
-- What `free_request_kv` leaves of a finished request in the prefix cache.
use cs349d_miniengine_sk_nc.Common.{
  ℕ, ◌*◌, ◌/◌, ◌≤◌, ◌<◌, ◌≡◌, refl, ap, ◌∙◌, inl, inr, List, ◌++◌, Option, none, some, ltb, ltb→le,
  length, length-take, take, arith, Bool-cases, suc, ◌∷◌,
}
use mathlib.Core.Path.{ap₂}
use native.Mathlib.Nat.{div-add-mod}
use cs349d_miniengine_sk_nc.Core.{Request, PagedRequestState}
use cs349d_miniengine_sk_nc.Pool.{pages_needed}
use cs349d_miniengine_sk_nc.Pool.Laws.{pages_needed-ceil}
use cs349d_miniengine_sk_nc.Radix.Keys.{page_align_len}
use cs349d_miniengine_sk_nc.Radix.Cache.{RadixCache, ok}
use cs349d_miniengine_sk_nc.Radix.Look.Merge.{div_mul}
use cs349d_miniengine_sk_nc.Radix.Match.{match_prefix}
use cs349d_miniengine_sk_nc.Radix.Contract.{IsCache}
use cs349d_miniengine_sk_nc.Radix.Contract.Outcomes.{match_prefix-Matches}
use cs349d_miniengine_sk_nc.Radix.Contract.Lookups.{
  matched_tokens-insert, insert-IsCache, insert_and_return_total, insert_and_return-Inserts,
}
use cs349d_miniengine_sk_nc.Radix.Lock.{dec_lock_ref}
use cs349d_miniengine_sk_nc.Radix.Lock.Looks.{dec_lock_ref-Answers, Answers-matched}
use cs349d_miniengine_sk_nc.Engine.State.{Engine, page_size, ticked}
use cs349d_miniengine_sk_nc.Engine.Init.{with_cache, unlock_prefix}
use cs349d_miniengine_sk_nc.Engine.Release.{
  aligned_len, commit_aligned, commit_rest, commit_request, free_request_kv, give_back_some,
}
use cs349d_miniengine_sk_nc.Radix.Allocate.Exact.{held}
use cs349d_miniengine_sk_nc.Radix.Insert.{inserted}
use cs349d_miniengine_sk_nc.Radix.Lock.Inserted.{
  IsIssued, insert-IsLocked, dec_lock_ref-IsIssued, insert-IsIssued,
}
use cs349d_miniengine_sk_nc.Radix.Lock.Paths.{IsLocked, dec_lock_ref-IsLocked}

-- A sequence of whole pages needs just those.
whole_pages_needed : (p k : ℕ) → 0 < p → pages_needed p (k * p) ≡ k
whole_pages_needed p k hp = grind (arith, pages_needed-ceil p (k * p) hp)

aligned_tokens :
    (p : ℕ) (tokens : List ℕ)
    → 0 < p
    → (aligned_len p tokens ≡ length tokens / p * p)
      × (length (take (aligned_len p tokens) tokens) ≡ aligned_len p tokens)
      × (pages_needed p (aligned_len p tokens) ≡ length tokens / p)
      × (aligned_len p tokens / p ≡ length tokens / p)
unfolding aligned_len
aligned_tokens p tokens hp = (
  refl,
  omega (arith, length-take (length tokens / p * p) tokens, div-add-mod (length tokens) p),
  whole_pages_needed p (length tokens / p) hp,
  div_mul (length tokens / p) p hp,
)

-- The locks with that of a request, if it has one.
abbrev pub with_lock : Option ℕ → List ℕ → List ℕ
with_lock none locks = locks
with_lock (some i) locks = i ∷ locks

module _ {V : Type 0} (clock addr : ℕ → ℕ) where
  -- The engine after a commit: its cache matches the committed tokens whole, and its nodes count
  -- these locks.
  pub record Committed (tokens : List ℕ) (p : ℕ) (locks : List ℕ) (e : Engine V) : Type 0 where
    pub cache : RadixCache
    pub stands : e.memory.cache ≡ some cache
    pub valid : IsCache cache
    pub size : cache.page_size ≡ p
    pub matched :
        (later : ℕ)
        → (match_prefix cache later (take (aligned_len p tokens) tokens)).1.matched_tokens
          ≡ aligned_len p tokens
    pub counts : IsLocked locks cache
    pub issued : IsIssued locks cache

  give_back_some_cache :
      (e : Engine V) (pages : List ℕ) → (give_back_some e pages).memory.cache ≡ e.memory.cache
  give_back_some_cache e pages = ground arith

  commit_aligned_lem :
      (e : Engine V) (cache : RadixCache) (tokens pages locks : List ℕ)
      → IsLocked locks cache
      → IsIssued locks cache
      → e.memory.cache ≡ some cache
      → cache.page_size ≡ page_size e
      → length tokens / page_size e ≤ length pages
      → (e' : Engine V) × (commit_aligned clock addr e cache tokens pages ≡ ok e')
        × Committed tokens (page_size e) locks e'
  unfolding commit_aligned
  commit_aligned_lem e cache tokens pages locks held issued stands size enough =
      let v : IsCache cache = record { paged = held.paged; wf = held.wf } in
      let p : ℕ = page_size e in
      let aligned : ℕ = aligned_len p tokens in
      let (_, whole, pages_of_it, count_of_it) =
        aligned_tokens p tokens (omega (arith, v.paged, size)) in
      let same_align : page_align_len aligned p ≡ aligned =
        unfold page_align_len aligned_len in
        ap (λ z. z * p) (div_mul (length tokens / p) p (omega (arith, v.paged, size))) in
      elim (Bool-cases (ltb 0 aligned)) [
        | inr nothing ↦ (
          e,
          rw nothing refl,
          record {
            cache = cache;
            stands = stands;
            valid = v;
            size = size;
            matched = λ later. omega (
              arith,
              whole,
              ltb→le _ _ nothing,
              (match_prefix-Matches cache later (take aligned tokens) v).within,
            );
            counts = held;
            issued = issued;
          },
        )
        | inl some_ ↦
            elim (insert_and_return_total cache (clock e.readings) (clock (suc e.readings))
              (take aligned tokens) (take (pages_needed p aligned) pages) v) [
                | inr (few, _) ↦ absurd (
                    omega (
                      arith,
                      few,
                      length-take (pages_needed p aligned) pages,
                      pages_of_it,
                      enough,
                      ap₂ ◌/◌ whole size,
                      count_of_it,
                    ))
                | inl (r, _, inserted) ↦ (
                  give_back_some (with_cache (ticked (ticked e)) r.0) r.2,
                  rw some_ (rw (inserted, commit_aligned) refl),
                  record {
                    cache = r.0;
                    stands = give_back_some_cache (with_cache (ticked (ticked e)) r.0) r.2;
                    valid =
                        insert-IsCache cache (clock e.readings) (clock (suc e.readings))
                          (take aligned tokens) (take (pages_needed p aligned) pages) r v inserted;
                    size =
                        (insert_and_return-Inserts cache (clock e.readings) (clock (suc e.readings))
                          (take aligned tokens) (take (pages_needed p aligned) pages) r v
                          inserted).size
                        ∙ size;
                    matched = λ later.
                        matched_tokens-insert cache (clock e.readings) (clock (suc e.readings))
                          later (take aligned tokens) (take (pages_needed p aligned) pages) r v
                          inserted
                        ∙ ap₂ page_align_len whole size
                        ∙ same_align;
                    counts =
                        insert-IsLocked locks cache (clock e.readings) (clock (suc e.readings))
                          (take aligned tokens) (take (pages_needed p aligned) pages) r held issued
                          inserted;
                    issued =
                        insert-IsIssued locks cache (clock e.readings) (clock (suc e.readings))
                          (take aligned tokens) (take (pages_needed p aligned) pages) r v issued
                          inserted;
                  },
                )
              ]
      ]

  unlock-Committed :
      (tokens : List ℕ) (p : ℕ) (locks : List ℕ) (e : Engine V) (lock : Option ℕ)
      → Committed tokens p (with_lock lock locks) e
      → Committed tokens p locks (unlock_prefix clock addr e lock)
  unfolding unlock_prefix
  unlock-Committed tokens p locks e none k = k
  unlock-Committed tokens p locks e (some i) k =
      let a = dec_lock_ref-Answers (clock e.readings) (some i) k.cache k.valid in
      record {
        cache = dec_lock_ref (clock e.readings) k.cache (some i);
        stands = rw (k.stands, unlock_prefix) refl;
        valid = a.valid;
        size = a.size ∙ k.size;
        matched = λ later.
            Answers-matched k.cache (dec_lock_ref (clock e.readings) k.cache (some i)) later
              (take (aligned_len p tokens) tokens) k.valid a
            ∙ k.matched later;
        counts = dec_lock_ref-IsLocked (clock e.readings) i locks k.cache k.counts;
        issued = dec_lock_ref-IsIssued (clock e.readings) i locks k.cache k.issued;
      }

  give_back-Committed :
      (tokens : List ℕ) (p : ℕ) (locks : List ℕ) (e : Engine V) (pages : List ℕ)
      → Committed tokens p locks e
      → Committed tokens p locks (give_back_some e pages)
  give_back-Committed tokens p locks e pages k = record {
    cache = k.cache;
    stands = give_back_some_cache e pages ∙ k.stands;
    valid = k.valid;
    size = k.size;
    matched = k.matched;
    counts = k.counts;
    issued = k.issued;
  }

  -- Let the locks `locks` be held beside the request's own lock, if it has one, in a well-formed cache
  -- with the engine's page size, whose nodes count these locks and whose next identity is later than
  -- those of its nodes and locks. Then releasing a request that has a page for each whole page of its
  -- sequence never raises, also where the commit splits nodes. The request object has no KV and no
  -- lock any more. In the cache as the call leaves it every node counts just `locks`, the request's
  -- own lock being released, the next identity is again later, and a lookup of the whole pages of the
  -- sequence, prompt and output, matches all of them.
  pub free_request_kv_lem :
      (e : Engine V) (req : Request) (state : PagedRequestState) (cache : RadixCache)
      (locks : List ℕ)
      → req.kv_cache ≡ some state
      → e.memory.cache ≡ some cache
      → IsLocked (with_lock req.radix_lock_node locks) cache
      → IsIssued (with_lock req.radix_lock_node locks) cache
      → cache.page_size ≡ page_size e
      → length (req.input_ids ++ req.output_ids) / page_size e ≤ length state.page_indices
      → (e' : Engine V) × (free_request_kv clock addr e req
          ≡ ok (e', record req { kv_cache = none; radix_lock_node = none }))
        × Committed (req.input_ids ++ req.output_ids) (page_size e) locks e'
  free_request_kv_lem e req state cache locks stored stands held issued size enough =
      let tokens : List ℕ = req.input_ids ++ req.output_ids in
      let own = with_lock req.radix_lock_node locks in
      let (e', committed, k) =
        commit_aligned_lem e cache tokens state.page_indices own held issued stands size enough in
      let whole : commit_request clock addr e cache req state
          ≡ ok (commit_rest clock addr req state tokens e') =
        unfold commit_request in rw (committed, commit_request) refl in
      (
        commit_rest clock addr req state tokens e',
        unfold free_request_kv in
            simp (stored, free_request_kv)
              (simp (stands, free_request_kv) (rw (whole, free_request_kv) refl)),
        unlock-Committed tokens (page_size e) locks _ req.radix_lock_node
            (give_back-Committed tokens (page_size e) own e' _ k),
      )
