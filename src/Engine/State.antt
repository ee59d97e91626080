-- ===== src/Engine/State.antt =====
-- What the engine keeps, and what it calls of the model.
use cs349d_miniengine_sk_nc.Common.{
  ◌≡◌, ℕ, suc, List, [], ◌∷◌, none, some, Bool, false, ◌||◌, ◌==◌, length, ◌⊎◌, inl, inr, refl, ap,
  arith,
}
use cs349d_miniengine_sk_nc.Core.{Request, PagedRequestState}
use cs349d_miniengine_sk_nc.Pool.{free}
use cs349d_miniengine_sk_nc.Radix.Cache.{Result, ok, err, runtime_error}
use cs349d_miniengine_sk_nc.Radix.Allocate.{Memory}

pub Result-cases : {A : Type 0} (x : Result A) → ((a : A) × (x ≡ ok a)) ⊎ ((e : _) × (x ≡ err e))
Result-cases (ok a) = inl (a, refl)
Result-cases (err e) = inr (e, refl)

-- The tensors of the pool: what stands at a slot of a page, the keys and values of all layers as one
-- value of type `V`.
abbrev pub KvStore : Type 0 → Type 0
KvStore V = ℕ → ℕ → V

-- `self.model(…)` and `sample_token` as the engine uses them: `V` is the KV of one token over all
-- layers, `L` a row of logits.
pub record ModelOps (V L : Type 0) : Type 0 where
  -- tokens and positions of packed sequences, and their lengths: the KV of each token, and the logits
  -- at the last token of each sequence
  pub packed : List ℕ → List ℕ → List ℕ → List V × List L
  -- the KV that is cached, new tokens and their positions: the KV of the new tokens, and the logits at
  -- the last of them
  pub cached : List V → List ℕ → List ℕ → List V × L
  -- for each request its padded KV, its last token and its length: the new KV and the logits
  pub batched : List (List V) → List ℕ → List ℕ → List V × List L
  -- the same through the block table: the kernel writes the new KV into the pages itself
  pub direct : KvStore V → List (List ℕ) → List ℕ → List ℕ → KvStore V × List L
  pub sample : L → Request → ℕ
  -- the zero that pads
  pub blank : V

-- The shapes of the model's outputs: KV for each token, logits for each sequence.
pub record ModelLaws {V L : Type 0} (model : ModelOps V L) : Type 0 where
  pub packed_length :
      (ids positions lens : List ℕ)
      → length positions ≡ length ids
      → length (model.packed ids positions lens).0 ≡ length ids
  pub packed_rows :
      (ids positions lens : List ℕ) → length (model.packed ids positions lens).1 ≡ length lens
  pub cached_length :
      (past : List V) (ids positions : List ℕ)
      → length positions ≡ length ids
      → length (model.cached past ids positions).0 ≡ length ids
  pub batched_length :
      (pasts : List (List V)) (ids lens : List ℕ)
      → length lens ≡ length ids
      → length (model.batched pasts ids lens).0 ≡ length ids
  pub batched_rows :
      (pasts : List (List V)) (ids lens : List ℕ)
      → length lens ≡ length ids
      → length (model.batched pasts ids lens).1 ≡ length ids
  pub direct_rows :
      (store : KvStore V) (tables : List (List ℕ)) (ids lens : List ℕ)
      → length (model.direct store tables ids lens).1 ≡ length ids

-- `readings` counts the readings of the clock.
pub record Engine (V : Type 0) : Type 0 where
  pub memory : Memory
  pub store : KvStore V
  pub prefill_chunk_size : ℕ
  pub direct_paged_flash : Bool
  pub stop_token_ids : List ℕ
  pub readings : ℕ

abbrev pub page_size : {V : Type 0} → Engine V → ℕ
page_size e = e.memory.pool.page_size

abbrev pub ticked : {V : Type 0} → Engine V → Engine V
ticked e = record e { readings = suc e.readings }

-- `self.kv_pool.free(pages)`.
abbrev pub give_back : {V : Type 0} → Engine V → List ℕ → Engine V
give_back e pages = record e { memory = record (e.memory) { pool = free e.memory.pool pages } }

-- `_paged_state`: the RuntimeError is for a request without pages.
unfoldable pub paged_state : Request → Result PagedRequestState
paged_state req = elim (req.kv_cache) [ none ↦ err runtime_error | some state ↦ ok state ]

pub paged_state_stored :
    (req : Request) (state : PagedRequestState)
    → req.kv_cache ≡ some state
    → paged_state req ≡ ok state
unfolding paged_state
paged_state_stored req state h = ap (λ k. elim k [ none ↦ err runtime_error | some st ↦ ok st ]) h

pub paged_state_ok :
    (req : Request) (state : PagedRequestState)
    → paged_state req ≡ ok state
    → req.kv_cache ≡ some state
unfolding paged_state
paged_state_ok req state h = ground (arith, h)

pub is_stop_token : {V : Type 0} → Engine V → ℕ → Bool
is_stop_token e token_id = contains e.stop_token_ids
  where
    contains : List ℕ → Bool
    contains [] = false
    contains (t ∷ ts) = t == token_id || contains ts
