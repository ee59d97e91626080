-- ===== src/Engine/DecodeBatch/Unwritten.antt =====
-- What the batched decode over gathered KV leaves in the pages.
use cs349d_miniengine_sk_nc.Common.{
  ℕ, suc, ◌≡◌, refl, sym, ap, ◌∙◌, inl, inr, List, [], ◌∷◌, some, false, Option-cases, arith, subst,
}
use cs349d_miniengine_sk_nc.Core.{Request, PagedRequestState}
use cs349d_miniengine_sk_nc.Radix.Cache.{ok}
use cs349d_miniengine_sk_nc.Engine.State.{
  Result-cases, Engine, ModelOps, page_size, paged_state, paged_state_ok,
}
use cs349d_miniengine_sk_nc.Engine.Decode.{ensure_page, next_slot, longer}
use cs349d_miniengine_sk_nc.Engine.DecodeBatch.{
  batched_decode, paged_batched_decode, decode_gathered, claim_slots, states_of, last_ids,
}

-- The requests before and after: each counts one token more.
abbrev pub OneLonger : List Request → List Request → Type 0
OneLonger [] [] = Unit {0}
OneLonger [] (r ∷ rs) = ⊥
OneLonger (q ∷ qs) [] = ⊥
OneLonger (q ∷ qs) (r ∷ rs) =
    ((before : PagedRequestState) × (after : PagedRequestState) × (q.kv_cache ≡ some before)
      × (r.kv_cache ≡ some after)
      × (after.kv_len ≡ suc before.kv_len))
    × OneLonger qs rs

module _ {V L : Type 0} (model : ModelOps V L) (addr : ℕ → ℕ) where
  ensure_page_store :
      (e : Engine V) (state : PagedRequestState)
      → (ensure_page model addr e state).0.store ≡ e.store
  unfolding ensure_page
  ensure_page_store e state = ground arith

  ensure_page_len :
      (e : Engine V) (state state' : PagedRequestState)
      → (ensure_page model addr e state).1 ≡ ok state'
      → state'.kv_len ≡ state.kv_len
  unfolding ensure_page
  ensure_page_len e state state' h = ground (arith, h)

  claim_slots_store :
      (e : Engine V) (rs : List Request) → (claim_slots model addr e rs).0.store ≡ e.store
  unfolding claim_slots
  claim_slots_store e [] = refl
  claim_slots_store e (r ∷ rs) = elim (Result-cases (paged_state r)) [
    | inr (raised, h) ↦ rw (h, claim_slots) refl
    | inl (state, h) ↦
        let kept = ensure_page_store e state in
        let later = claim_slots_store (ensure_page model addr e state).0 rs in
        ground (arith, h, kept, later)
  ]

  claim_slots_longer :
      (e : Engine V) (rs : List Request) (places : List (ℕ × ℕ))
      → (claim_slots model addr e rs).2 ≡ ok places
      → OneLonger rs (claim_slots model addr e rs).1
  unfolding claim_slots
  claim_slots_longer e [] places h = tt
  claim_slots_longer e (r ∷ rs) places h = elim (Result-cases (paged_state r)) [
    | inr (raised, q) ↦ absurd (ground (arith, h, q))
    | inl (state, q) ↦ elim (Result-cases (ensure_page model addr e state).1) [
      | inr (raised, f) ↦ absurd (ground (arith, h, q, f))
      | inl (state', f) ↦ elim (Option-cases (next_slot model addr (page_size e) state')) [
        | inl g ↦ absurd (ground (arith, h, q, f, g))
        | inr (place, g) ↦
            elim (Result-cases (claim_slots model addr (ensure_page model addr e state).0 rs).2) [
              | inr (raised, k) ↦ absurd (ground (arith, h, q, f, g, k))
              | inl (later, k) ↦
                  rw (q, claim_slots)
                    (rw (f, claim_slots)
                      (rw (g, claim_slots)
                        (rw (k, claim_slots)
                          (
                            (
                              state,
                              longer model addr state',
                              paged_state_ok r state q,
                              refl,
                              ap suc (ensure_page_len e state state' f),
                            ),
                            claim_slots_longer (ensure_page model addr e state).0 rs later k,
                          ))))
            ]
      ]
    ]
  ]

  -- Without the kernel that reads the block table, a batched decode that returns tokens has counted one
  -- token more in every request and has changed no slot of the pages: the new KV is in none of them.
  pub batched_decode_unwritten :
      (e : Engine V) (rs : List Request) (ts : List ℕ)
      → e.direct_paged_flash ≡ false
      → (batched_decode model addr e rs).2 ≡ ok ts
      → ((batched_decode model addr e rs).0.store ≡ e.store)
        × OneLonger rs (batched_decode model addr e rs).1
  unfolding batched_decode
  batched_decode_unwritten e [] ts direct h = (refl, tt)
  batched_decode_unwritten e (r ∷ rs) ts direct h = elim (Result-cases (states_of (r ∷ rs))) [
    | inr (raised, q) ↦ absurd (unfold paged_batched_decode in ground (arith, h, q))
    | inl (states, q) ↦ elim (Option-cases (last_ids (r ∷ rs))) [
      | inl f ↦ absurd (unfold paged_batched_decode in ground (arith, h, q, f))
      | inr (ids, f) ↦
          let whole : batched_decode model addr e (r ∷ rs)
              ≡ decode_gathered model addr e (r ∷ rs) states ids =
            unfold paged_batched_decode in
            rw (q, paged_batched_decode)
              (rw (f, paged_batched_decode) (rw (direct, paged_batched_decode) refl)) in
          elim (Result-cases (claim_slots model addr e (r ∷ rs)).2) [
            | inr (raised, g) ↦ absurd (unfold decode_gathered in ground (arith, h, whole, g))
            | inl (places, g) ↦
                let rest : (decode_gathered model addr e (r ∷ rs) states ids).0
                    ≡ (claim_slots model addr e (r ∷ rs)).0 =
                  unfold decode_gathered in rw (g, decode_gathered) refl in
                let held : (decode_gathered model addr e (r ∷ rs) states ids).1
                    ≡ (claim_slots model addr e (r ∷ rs)).1 =
                  unfold decode_gathered in rw (g, decode_gathered) refl in
                (
                  ap (λ z. z.0.store) whole ∙ ap (λ z. z.store) rest ∙ claim_slots_store e (r ∷ rs),
                  subst (OneLonger (r ∷ rs)) (sym (ap (λ z. z.1) whole ∙ held))
                      (claim_slots_longer e (r ∷ rs) places g),
                )
          ]
    ]
  ]
