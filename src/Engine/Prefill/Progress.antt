-- ===== src/Engine/Prefill/Progress.antt =====
-- How many calls of `_prefill_continuation_chunk` a prompt takes.
use cs349d_miniengine_sk_nc.Common.{
  ℕ, zero, suc, ◌+◌, ◌*◌, ◌≤◌, ◌<◌, min, ◌≡◌, refl, ap, ◌∙◌, ◌⊎◌, inl, inr, Option, none, some,
  arith,
}
use cs349d_miniengine_sk_nc.Core.{Request, PagedRequestState, num_input_tokens}
use cs349d_miniengine_sk_nc.Radix.Cache.{Result, ok, err}
use cs349d_miniengine_sk_nc.Engine.State.{Engine, ModelOps, ModelLaws, page_size}
use cs349d_miniengine_sk_nc.Engine.Prefill.{Outcome, remaining, prefill_continuation_chunk}
use cs349d_miniengine_sk_nc.Engine.Prefill.Chunks.{
  IsPrefilling, chunk_of, continued, prefill_continuation_chunk_advances,
}

module _ {V L : Type 0} (model : ModelOps V L) where
  abbrev unless_done : Outcome V (Option ℕ) → Outcome V (Option ℕ) → Outcome V (Option ℕ)
  unless_done first later = choose first.2
    where
      choose : Result (Option ℕ) → Outcome V (Option ℕ)
      choose (ok none) = later
      choose (ok (some t)) = first
      choose (err raised) = first

  -- At most `n` calls, until one returns a token or raises.
  unfoldable pub run_chunks : ℕ → Engine V → Request → Outcome V (Option ℕ)
  run_chunks zero e req = (e, req, ok none)
  run_chunks (suc n) e req =
      let first = prefill_continuation_chunk model e req in
      unless_done first (run_chunks n first.0 first.1)

module _ {V L : Type 0} (model : ModelOps V L) (laws : ModelLaws model) where
  chunk_size_of :
      (e : Engine V) (req : Request)
      → 0 < e.prefill_chunk_size
      → chunk_of model laws e req ≡ min (remaining req) e.prefill_chunk_size
  chunk_size_of e req h = ground (arith, h)

  -- Where `n` chunks take a request: further, or to the end of its prompt and a token.
  abbrev pub GoesBy : ℕ → Engine V → Request → Outcome V (Option ℕ) → Type 0
  GoesBy n e req out =
      ((n * e.prefill_chunk_size < remaining req)
        × (out.1.prefill_offset ≡ req.prefill_offset + n * e.prefill_chunk_size)
        × (out.2 ≡ ok none))
      ⊎ ((remaining req ≤ n * e.prefill_chunk_size)
          × (out.1.prefill_offset ≡ num_input_tokens req)
          × (t : ℕ) × (out.2 ≡ ok (some t)))

  one_more :
      (n : ℕ) (e e' : Engine V) (req req' : Request) (out : Outcome V (Option ℕ))
      → GoesBy n e' req' out
      → e'.prefill_chunk_size ≡ e.prefill_chunk_size
      → num_input_tokens req' ≡ num_input_tokens req
      → req'.prefill_offset ≡ req.prefill_offset + min (remaining req) e.prefill_chunk_size
      → req'.prefill_offset < num_input_tokens req
      → GoesBy (suc n) e req out
  one_more n e e' req req' out (inl (less, offset, q)) size inputs step more =
      let same : n * e'.prefill_chunk_size ≡ n * e.prefill_chunk_size = ap (λ z. n * z) size in
      inl
        (omega (arith, less, same, inputs, step, more), omega (arith, offset, same, step, more), q)
  one_more n e e' req req' out (inr (enough, offset, t, q)) size inputs step more =
      let same : n * e'.prefill_chunk_size ≡ n * e.prefill_chunk_size = ap (λ z. n * z) size in
      inr (omega (arith, enough, same, inputs, step, more), offset ∙ inputs, t, q)

  -- With a chunk size, `n` calls take a request `n` chunks further and return no token while that is
  -- less than what is left of its prompt; otherwise one of them ends the prompt and returns a token.
  pub run_chunks_lem :
      (n : ℕ) (e : Engine V) (req : Request) (state : PagedRequestState)
      → 0 < page_size e
      → 0 < e.prefill_chunk_size
      → IsPrefilling (page_size e) req state
      → req.prefill_offset < num_input_tokens req
      → GoesBy n e req (run_chunks model n e req)
  unfolding run_chunks
  run_chunks_lem zero e req state hp hc w low = inl (omega arith, omega arith, refl)
  run_chunks_lem (suc n) e req state hp hc w low =
      let (some_left, offset, w', either) =
        prefill_continuation_chunk_advances model laws e req state hp w low in
      let c = continued model laws e req state hp w low in
      let size = chunk_size_of e req hc in
      let chunk_kept : e'.prefill_chunk_size ≡ e.prefill_chunk_size =
        ap (λ z. z.prefill_chunk_size) c.engine in
      let pages_kept : page_size e' ≡ page_size e = ap page_size c.engine in
      let inputs : num_input_tokens req' ≡ num_input_tokens req = ap num_input_tokens c.request in
      elim either [
        | inr (done, t, q) ↦ inr (
          omega (arith, offset, done, size),
          rw (q, unless_done) done,
          t,
          rw (q, unless_done) refl,
        )
        | inl (more, q) ↦
            rw (q, unless_done)
              (one_more n e e' req req' (run_chunks model n e' req')
                (run_chunks_lem n e' req'
                  (record state { kv_len = state.kv_len + chunk_of model laws e req })
                  (omega (arith, pages_kept, hp)) (omega (arith, chunk_kept, hc)) w'
                  (omega (arith, more, inputs)))
                chunk_kept inputs (omega (arith, offset, size)) more)
      ]
    where
      e' : Engine V
      e' = (prefill_continuation_chunk model e req).0

      req' : Request
      req' = (prefill_continuation_chunk model e req).1
