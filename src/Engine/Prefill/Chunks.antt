-- ===== src/Engine/Prefill/Chunks.antt =====
-- Chunked prefill: each continuation makes progress and the last one samples the first token; and
-- where its KV goes.
use cs349d_miniengine_sk_nc.Common.{
  ℕ, zero, suc, ◌+◌, ◌*◌, ◌/◌, ◌%◌, ◌≤◌, ◌<◌, min, ◌≡◌, refl, sym, ◌∙◌, List, [], ◌∷◌, Option, none,
  some, false, ◌==◌, length, take, drop, length-take, length-drop, arith, if◌then◌else◌, Bool-cases,
  inl, inr, get_elem?, some_elem, ◌⊎◌, ap, subst, take_all,
}
use native.Mathlib.Nat.{div-add-mod}
use cs349d_miniengine_sk_nc.Core.{Request, PagedRequestState, num_input_tokens, prefill_done}
use cs349d_miniengine_sk_nc.Radix.Cache.{ok}
use cs349d_miniengine_sk_nc.Engine.State.{
  Engine, ModelOps, paged_state_stored, ModelLaws, KvStore, page_size,
}
use cs349d_miniengine_sk_nc.Engine.Store.{gather_kv, gather_from, read_token, store_prefill_slice}
use cs349d_miniengine_sk_nc.Engine.Store.Writes.{AreApart}
use cs349d_miniengine_sk_nc.Engine.Store.Reads.{gather_kv-store_prefill_slice}
use cs349d_miniengine_sk_nc.Engine.Prefill.{
  range_from, remaining, continue_chunk, prefill_continuation_chunk, Outcome,
}

pub length-range_from : (start n : ℕ) → length (range_from start n) ≡ n
unfolding range_from
length-range_from start zero = refl
length-range_from start (suc n) = omega (arith, length-range_from (suc start) n)

pub div_lt : (p a b : ℕ) → a < b * p → a / p < b
div_lt p a b q = grind (arith, div-add-mod a p)

gather_from_step :
    {V : Type 0} (p : ℕ) (s : KvStore V) (pages : List ℕ) (t m q : ℕ) (vs : List V)
    → gather_from p s pages (suc t) m ≡ some vs
    → get_elem? pages (t / p) ≡ some q
    → gather_from p s pages t (suc m) ≡ some (s q (t % p) ∷ vs)
unfolding gather_from read_token
gather_from_step p s pages t m q vs e at =
    let first : read_token p s pages t ≡ some (s q (t % p)) = rw (at, read_token) refl in
    rw (first, gather_from) (rw (e, gather_from) refl)

gathered_from :
    {V : Type 0} (p : ℕ) (s : KvStore V) (pages : List ℕ) (t m : ℕ)
    → t + m ≤ length pages * p
    → (vs : List V) × (gather_from p s pages t m ≡ some vs) × (length vs ≡ m)
gathered_from p s pages t zero h = unfold gather_from in ([], refl, refl)
gathered_from p s pages t (suc m) h =
    let (vs, e, len) = gathered_from p s pages (suc t) m (omega arith) in
    let (q, at) = some_elem (t / p) pages (div_lt p t (length pages) (omega arith)) in
    (s q (t % p) ∷ vs, gather_from_step p s pages t m q vs e at, omega (arith, len))

-- Tokens that have pages can be gathered.
pub gathered_kv :
    {V : Type 0} (p : ℕ) (s : KvStore V) (pages : List ℕ) (n : ℕ)
    → n ≤ length pages * p
    → (vs : List V) × (gather_kv p s pages n ≡ some vs) × (length vs ≡ n)
unfolding gather_kv
gathered_kv p s pages n room = gathered_from p s pages 0 n (omega (arith, room))

-- A request in the middle of its prefill: its pages are its own, hold the prompt, and `kv_len` is how
-- far the prompt has gone through the model.
pub record IsPrefilling (p : ℕ) (req : Request) (state : PagedRequestState) : Type 0 where
  pub stored : req.kv_cache ≡ some state
  pub apart : AreApart state.page_indices
  pub room : num_input_tokens req ≤ length state.page_indices * p
  pub offset : state.kv_len ≡ req.prefill_offset
  pub inside : req.prefill_offset ≤ num_input_tokens req

module _ {V L : Type 0} (model : ModelOps V L) (laws : ModelLaws model) where
  -- What a continuation leaves: the engine's store, the request, and its result.
  pub record Continued (e : Engine V) (req : Request) (state : PagedRequestState) (clen : ℕ)
      (out : Outcome V (Option ℕ)) : Type 0 where
    pub past : List V
    pub new : List V
    pub logits : L
    pub gathered : gather_kv (page_size e) e.store state.page_indices state.kv_len ≡ some past
    pub forward :
        model.cached past
          (take clen (drop req.prefill_offset req.input_ids))
          (range_from state.kv_len clen)
        ≡ (new, logits)
    pub new_length : length new ≡ clen
    pub engine : out.0 ≡ record e {
      store = (store_prefill_slice (page_size e) e.store state.page_indices new 0 clen).0;
    }
    pub request : out.1 ≡ record req {
      kv_cache = some (record state { kv_len = state.kv_len + clen });
      prefill_offset = req.prefill_offset + clen;
    }
    pub result : out.2 ≡ ok (if prefill_done out.1 then some (model.sample logits out.1) else none)

  continue_chunk-Continued :
      (e : Engine V) (req : Request) (state : PagedRequestState) (clen : ℕ)
      → 0 < page_size e
      → IsPrefilling (page_size e) req state
      → clen ≤ remaining req
      → Continued e req state clen (continue_chunk model e req state clen)
  unfolding continue_chunk
  continue_chunk-Continued e req state clen hp w h =
      let (past, gathered, len) =
        gathered_kv (page_size e) e.store state.page_indices state.kv_len
          (omega (arith, w.inside, w.room, w.offset)) in
      let ids : List ℕ = take clen (drop req.prefill_offset req.input_ids) in
      let positions : List ℕ = range_from state.kv_len clen in
      let new : List V = (model.cached past ids positions).0 in
      let ids_length : length ids ≡ clen = omega (
        arith,
        h,
        w.inside,
        length-take clen (drop req.prefill_offset req.input_ids),
        length-drop req.prefill_offset req.input_ids,
      ) in
      let new_length : length new ≡ clen =
        laws.cached_length past ids positions (length-range_from state.kv_len clen ∙ sym ids_length)
        ∙ ids_length in
      let fine =
        (gather_kv-store_prefill_slice (page_size e) e.store state.page_indices new 0 clen hp
          w.apart (omega (arith, new_length)) (omega (arith, h, w.room))).0 in
      rw (gathered, continue_chunk)
        (rw fine (record {
          past = past;
          new = new;
          logits = (model.cached past ids positions).1;
          gathered = gathered;
          forward = refl;
          new_length = new_length;
          engine = refl;
          request = refl;
          result = refl;
        }))

  -- The tokens of the next chunk.
  abbrev pub chunk_of : Engine V → Request → ℕ
  chunk_of e req =
      min (remaining req)
        (if e.prefill_chunk_size == 0 then remaining req else e.prefill_chunk_size)

  -- With tokens left, a call is the continuation by the next chunk, and that is not empty.
  continuation_lem :
      (e : Engine V) (req : Request) (state : PagedRequestState)
      → req.kv_cache ≡ some state
      → req.prefill_offset < num_input_tokens req
      → (prefill_continuation_chunk model e req ≡ continue_chunk model e req state (chunk_of e req))
        × (0 < chunk_of e req)
  unfolding prefill_continuation_chunk
  continuation_lem e req state h low =
      let open_ : prefill_done req ≡ false = ground (arith, low) in
      let some_left : 0 < chunk_of e req = elim (Bool-cases (e.prefill_chunk_size == 0)) [
        | inl z ↦ rw z (omega (arith, low))
        | inr nz ↦ rw nz (ground (arith, low, nz))
      ] in
      let not_zero : (chunk_of e req == 0) ≡ false = ground (arith, some_left) in
      (
        rw (open_, prefill_continuation_chunk)
            (rw (not_zero, prefill_continuation_chunk)
              (rw (paged_state_stored req state h, prefill_continuation_chunk) refl)),
        some_left,
      )

  pub continued :
      (e : Engine V) (req : Request) (state : PagedRequestState)
      → 0 < page_size e
      → IsPrefilling (page_size e) req state
      → req.prefill_offset < num_input_tokens req
      → Continued e req state (chunk_of e req) (prefill_continuation_chunk model e req)
  continued e req state hp w low =
      subst (Continued e req state (chunk_of e req))
        (sym (continuation_lem e req state w.stored low).0)
        (continue_chunk-Continued e req state (chunk_of e req) hp w (omega arith))

  -- A request in the middle of its prefill goes on by the next chunk: it keeps its pages, it is again
  -- one in prefill, of a longer prefix, and the call returns a token just when the prompt is through.
  pub prefill_continuation_chunk_advances :
      (e : Engine V) (req : Request) (state : PagedRequestState)
      → 0 < page_size e
      → IsPrefilling (page_size e) req state
      → req.prefill_offset < num_input_tokens req
      → let (e', req', out) = prefill_continuation_chunk model e req in
        (0 < chunk_of e req)
        × (req'.prefill_offset ≡ req.prefill_offset + chunk_of e req)
        × IsPrefilling (page_size e') req' (record state { kv_len = state.kv_len + chunk_of e req })
        × (((req'.prefill_offset < num_input_tokens req) × (out ≡ ok none))
            ⊎ ((req'.prefill_offset ≡ num_input_tokens req) × (t : ℕ) × (out ≡ ok (some t))))
  prefill_continuation_chunk_advances e req state hp w low =
      let c = continued e req state hp w low in
      let offset : req'.prefill_offset ≡ req.prefill_offset + chunk_of e req =
        ap (λ r. r.prefill_offset) c.request in
      let inputs : req'.input_ids ≡ req.input_ids = ap (λ r. r.input_ids) c.request in
      (
        (continuation_lem e req state w.stored low).1,
        offset,
        subst (λ r. IsPrefilling (page_size out.0) r longer_state) (sym c.request)
            (subst (λ z. IsPrefilling z advanced longer_state) (sym (ap page_size c.engine))
              (record {
                stored = refl;
                apart = w.apart;
                room = w.room;
                offset = ap (λ z. z + chunk_of e req) w.offset;
                inside = omega (arith, w.inside);
              })),
        elim (Bool-cases (prefill_done req')) [
          | inl done ↦ inr (
            ground (arith, offset, w.inside, ap length inputs, done),
            model.sample c.logits req',
            c.result ∙ rw done refl,
          )
          | inr more ↦ inl (ground (arith, more, ap length inputs), c.result ∙ rw more refl)
        ],
      )
    where
      out : Outcome V (Option ℕ)
      out = prefill_continuation_chunk model e req

      req' : Request
      req' = out.1

      longer_state : PagedRequestState
      longer_state = record state { kv_len = state.kv_len + chunk_of e req }

      advanced : Request
      advanced = record req {
        kv_cache = some longer_state;
        prefill_offset = req.prefill_offset + chunk_of e req;
      }

  -- The KV of the chunk goes to the slots of the request's first tokens, whatever is there: gathering
  -- as many tokens as the chunk has returns the KV of the chunk, which the model computed for the
  -- tokens behind `kv_len`.
  pub prefill_continuation_chunk_overwrites :
      (e : Engine V) (req : Request) (state : PagedRequestState)
      → 0 < page_size e
      → IsPrefilling (page_size e) req state
      → req.prefill_offset < num_input_tokens req
      → let c = chunk_of e req in
        (past : List V) × (gather_kv (page_size e) e.store state.page_indices state.kv_len
          ≡ some past)
        × (gather_kv
              (page_size e)
              (prefill_continuation_chunk model e req).0.store
              state.page_indices
              c
            ≡ some
                (model.cached past
                  (take c (drop req.prefill_offset req.input_ids))
                  (range_from state.kv_len c)).0)
  prefill_continuation_chunk_overwrites e req state hp w low =
      let k = continued e req state hp w low in
      let c : ℕ = chunk_of e req in
      let back =
        (gather_kv-store_prefill_slice (page_size e) e.store state.page_indices k.new 0 c hp w.apart
          (omega (arith, k.new_length)) (omega (arith, low, w.room))).1 in
      (
        k.past,
        k.gathered,
        ap (λ z. gather_kv (page_size e) z.store state.page_indices c) k.engine
            ∙ back
            ∙ ap some
                (take_all c k.new (omega (arith, k.new_length)) ∙ sym (ap (λ z. z.0) k.forward)),
      )
