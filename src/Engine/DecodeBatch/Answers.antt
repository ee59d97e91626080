-- ===== src/Engine/DecodeBatch/Answers.antt =====
-- A batched decode as the scheduler relies on it: the same requests, and a token for each.
use cs349d_miniengine_sk_nc.Common.{
  ℕ, suc, ◌≡◌, refl, sym, ap, ◌∙◌, inl, inr, List, [], ◌∷◌, some, length, arith, Bool-cases,
  Option-cases, if◌then◌else◌, subst,
}
use cs349d_miniengine_sk_nc.Core.{Request, PagedRequestState}
use cs349d_miniengine_sk_nc.Radix.Cache.{Result, ok}
use cs349d_miniengine_sk_nc.Scheduler.Interface.{SameRequest, SameRequests}
use cs349d_miniengine_sk_nc.Engine.Same.{SameRequests-refl, SameRequests-length}
use cs349d_miniengine_sk_nc.Engine.State.{
  Engine, ModelOps, ModelLaws, page_size, paged_state, Result-cases,
}
use cs349d_miniengine_sk_nc.Engine.Decode.{ensure_page, next_slot, with_state, longer}
use cs349d_miniengine_sk_nc.Engine.DecodeBatch.{
  batched_decode, paged_batched_decode, decode_gathered, decode_direct, claim_slots, ensure_all,
  lengthen, sample_all, states_of, last_ids, cache_lens,
}
use cs349d_miniengine_sk_nc.Engine.Prefill.{last_id}

length-last_ids :
    (rs : List Request) (ids : List ℕ) → last_ids rs ≡ some ids → length ids ≡ length rs
unfolding last_ids
length-last_ids [] ids h = ground (arith, h)
length-last_ids (r ∷ rs) ids h = elim (Option-cases (last_id r.output_ids)) [
  | inl q ↦ absurd (ground (arith, h, q))
  | inr (id, q) ↦ elim (Option-cases (last_ids rs)) [
    | inl f ↦ absurd (ground (arith, h, q, f))
    | inr (later, f) ↦
        let whole : ids ≡ id ∷ later = ground (arith, h, q, f) in
        ap length whole ∙ ap suc (length-last_ids rs later f)
  ]
]

length-states_of :
    (rs : List Request) (states : List PagedRequestState)
    → states_of rs ≡ ok states
    → length (cache_lens states) ≡ length rs
unfolding states_of
length-states_of [] states h = ground (arith, h)
length-states_of (r ∷ rs) states h = elim (Result-cases (paged_state r)) [
  | inr (raised, q) ↦ absurd (ground (arith, h, q))
  | inl (state, q) ↦ elim (Result-cases (states_of rs)) [
    | inr (raised, f) ↦ absurd (ground (arith, h, q, f))
    | inl (later, f) ↦
        let whole : states ≡ state ∷ later = ground (arith, h, q, f) in
        ap (λ z. length (cache_lens z)) whole ∙ ap suc (length-states_of rs later f)
  ]
]

module _ {V L : Type 0} (model : ModelOps V L) (laws : ModelLaws model) (addr : ℕ → ℕ) where
  stated : (r : Request) (state : PagedRequestState) → SameRequest r (with_state model addr r state)
  stated r state = record {
    request_id = refl;
    output_ids = refl;
    max_new_tokens = refl;
    token_queue = refl;
  }

  claim_slots-SameRequests :
      (e : Engine V) (rs : List Request) → SameRequests rs (claim_slots model addr e rs).1
  unfolding claim_slots
  claim_slots-SameRequests e [] = tt
  claim_slots-SameRequests e (r ∷ rs) = elim (Result-cases (paged_state r)) [
    | inr (raised, q) ↦ rw (q, claim_slots) (SameRequests-refl (r ∷ rs))
    | inl (state, q) ↦ elim (Result-cases (ensure_page model addr e state).1) [
      | inr (raised, f) ↦ rw (q, claim_slots) (rw (f, claim_slots) (SameRequests-refl (r ∷ rs)))
      | inl (state', f) ↦ elim (Option-cases (next_slot model addr (page_size e) state')) [
        | inl g ↦
            rw (q, claim_slots)
              (rw (f, claim_slots) (rw (g, claim_slots) (stated r state', SameRequests-refl rs)))
        | inr (place, g) ↦
            let later = claim_slots-SameRequests (ensure_page model addr e state).0 rs in
            elim (Result-cases (claim_slots model addr (ensure_page model addr e state).0 rs).2) [
              | inr (raised, k) ↦
                  rw (q, claim_slots)
                    (rw (f, claim_slots)
                      (rw (g, claim_slots)
                        (rw (k, claim_slots) (stated r (longer model addr state'), later))))
              | inl (places, k) ↦
                  rw (q, claim_slots)
                    (rw (f, claim_slots)
                      (rw (g, claim_slots)
                        (rw (k, claim_slots) (stated r (longer model addr state'), later))))
            ]
      ]
    ]
  ]

  length-sample_all :
      (rs : List Request) (ls : List L)
      → length ls ≡ length rs
      → length (sample_all model addr rs ls) ≡ length rs
  unfolding sample_all
  length-sample_all [] ls h = refl
  length-sample_all (r ∷ rs) [] h = absurd (omega arith)
  length-sample_all (r ∷ rs) (l ∷ ls) h = ap suc (length-sample_all rs ls (omega arith))

  ensure_all-SameRequests :
      (e : Engine V) (rs : List Request) → SameRequests rs (ensure_all model addr e rs).1
  unfolding ensure_all
  ensure_all-SameRequests e [] = tt
  ensure_all-SameRequests e (r ∷ rs) = elim (Result-cases (paged_state r)) [
    | inr (raised, q) ↦ rw (q, ensure_all) (SameRequests-refl (r ∷ rs))
    | inl (state, q) ↦ elim (Result-cases (ensure_page model addr e state).1) [
      | inr (raised, f) ↦ rw (q, ensure_all) (rw (f, ensure_all) (SameRequests-refl (r ∷ rs)))
      | inl (state', f) ↦
          let later = ensure_all-SameRequests (ensure_page model addr e state).0 rs in
          elim (Result-cases (ensure_all model addr (ensure_page model addr e state).0 rs).2) [
            | inr (raised, k) ↦
                rw (q, ensure_all)
                  (rw (f, ensure_all) (rw (k, ensure_all) (stated r state', later)))
            | inl (states, k) ↦
                rw (q, ensure_all)
                  (rw (f, ensure_all) (rw (k, ensure_all) (stated r state', later)))
          ]
    ]
  ]

  lengthen-SameRequests :
      (rs rs' : List Request) (states : List PagedRequestState)
      → SameRequests rs rs'
      → SameRequests rs (lengthen model addr rs' states)
  unfolding lengthen
  lengthen-SameRequests [] [] states h = tt
  lengthen-SameRequests [] (r ∷ rs) states h = absurd h
  lengthen-SameRequests (q ∷ qs) [] states h = absurd h
  lengthen-SameRequests (q ∷ qs) (r ∷ rs) [] h = h
  lengthen-SameRequests (q ∷ qs) (r ∷ rs) (s ∷ ss) h = (
    record {
      request_id = h.0.request_id;
      output_ids = h.0.output_ids;
      max_new_tokens = h.0.max_new_tokens;
      token_queue = h.0.token_queue;
    },
    lengthen-SameRequests qs rs ss h.1,
  )

  -- What the scheduler relies on: the requests of before, and if there are tokens one for each.
  abbrev AnswersAll : List Request → Engine V × List Request × Result (List ℕ) → Type 0
  AnswersAll rs out =
      SameRequests rs out.1 × ((ts : List ℕ) → out.2 ≡ ok ts → length ts ≡ length rs)

  ok_length :
      (rs : List Request) (ts us : List ℕ)
      → length us ≡ length rs
      → ◌≡◌ {A = Result (List ℕ)} (ok us) (ok ts)
      → length ts ≡ length rs
  ok_length rs ts us h e = ground (arith, h, e)

  decode_gathered-AnswersAll :
      (e : Engine V) (rs : List Request) (states : List PagedRequestState) (ids : List ℕ)
      → length (cache_lens states) ≡ length ids
      → length ids ≡ length rs
      → AnswersAll rs (decode_gathered model addr e rs states ids)
  unfolding decode_gathered
  decode_gathered-AnswersAll e rs states ids same n =
      let kept = claim_slots-SameRequests e rs in
      let rows = laws.batched_rows _ ids (cache_lens states) same in
      elim (Result-cases (claim_slots model addr e rs).2) [
        | inr (raised, k) ↦ rw (k, decode_gathered) (kept, λ ts h. absurd (ground (arith, h)))
        | inl (places, k) ↦
            rw (k, decode_gathered)
              (
                kept,
                λ ts h.
                    ok_length rs ts _
                      (length-sample_all (claim_slots model addr e rs).1 _
                          (rows ∙ n ∙ sym (SameRequests-length rs _ kept))
                        ∙ SameRequests-length rs _ kept)
                      h,
              )
      ]

  decode_direct-AnswersAll :
      (e : Engine V) (rs : List Request) (ids : List ℕ)
      → length ids ≡ length rs
      → AnswersAll rs (decode_direct model addr e rs ids)
  unfolding decode_direct
  decode_direct-AnswersAll e rs ids n =
      let kept = ensure_all-SameRequests e rs in
      elim (Result-cases (ensure_all model addr e rs).2) [
        | inr (raised, k) ↦ rw (k, decode_direct) (kept, λ ts h. absurd (ground (arith, h)))
        | inl (states, k) ↦
            let longer_kept = lengthen-SameRequests rs (ensure_all model addr e rs).1 states kept in
            rw (k, decode_direct)
              (
                longer_kept,
                λ ts h.
                    ok_length rs ts _
                      (length-sample_all (lengthen model addr (ensure_all model addr e rs).1 states)
                          _
                          (laws.direct_rows _ _ ids _
                            ∙ n
                            ∙ sym (SameRequests-length rs _ longer_kept))
                        ∙ SameRequests-length rs _ longer_kept)
                      h,
              )
      ]

  paged-AnswersAll :
      (e : Engine V) (rs : List Request) → AnswersAll rs (paged_batched_decode model addr e rs)
  unfolding paged_batched_decode
  paged-AnswersAll e rs = elim (Result-cases (states_of rs)) [
    | inr (raised, q) ↦
        rw (q, paged_batched_decode) (SameRequests-refl rs, λ ts h. absurd (ground (arith, h)))
    | inl (states, q) ↦ elim (Option-cases (last_ids rs)) [
      | inl f ↦
          rw (q, paged_batched_decode)
            (rw (f, paged_batched_decode)
              (SameRequests-refl rs, λ ts h. absurd (ground (arith, h))))
      | inr (ids, f) ↦
          let n = length-last_ids rs ids f in
          let m = length-states_of rs states q in
          elim (Bool-cases (e.direct_paged_flash)) [
            | inl direct ↦
                let whole : paged_batched_decode model addr e rs
                    ≡ decode_direct model addr e rs ids =
                  rw (q, paged_batched_decode)
                    (rw (f, paged_batched_decode)
                      (ap
                        (λ b.
                          if b
                          then decode_direct model addr e rs ids
                          else decode_gathered model addr e rs states ids)
                        direct)) in
                subst (AnswersAll rs) (sym whole) (decode_direct-AnswersAll e rs ids n)
            | inr gathered ↦
                let whole : paged_batched_decode model addr e rs
                    ≡ decode_gathered model addr e rs states ids =
                  rw (q, paged_batched_decode)
                    (rw (f, paged_batched_decode)
                      (ap
                        (λ b.
                          if b
                          then decode_direct model addr e rs ids
                          else decode_gathered model addr e rs states ids)
                        gathered)) in
                subst (AnswersAll rs) (sym whole)
                  (decode_gathered-AnswersAll e rs states ids (m ∙ sym n) n)
          ]
    ]
  ]

  answered : (e : Engine V) (rs : List Request) → AnswersAll rs (batched_decode model addr e rs)
  unfolding batched_decode
  answered e [] = (tt, λ ts h. ok_length [] ts [] refl h)
  answered e (r ∷ rs) = paged-AnswersAll e (r ∷ rs)

  -- On every path, exceptions included, a batched decode leaves the requests in their order with their
  -- identities, output tokens, limits and queues.
  pub batched_decode-SameRequests :
      (e : Engine V) (rs : List Request) → SameRequests rs (batched_decode model addr e rs).1
  batched_decode-SameRequests e rs = (answered e rs).0

  -- A batched decode that returns tokens returns one for each request.
  pub length-batched_decode :
      (e : Engine V) (rs : List Request) (ts : List ℕ)
      → (batched_decode model addr e rs).2 ≡ ok ts
      → length ts ≡ length rs
  length-batched_decode e rs ts h = (answered e rs).1 ts h
