-- ===== src/Engine/Decode/Appends.antt =====
-- What a decoded token leaves in the pages.
use cs349d_miniengine_sk_nc.Common.{
  ℕ, zero, suc, ◌+◌, ◌*◌, ◌/◌, ◌%◌, ◌≤◌, ◌<◌, ◌≡◌, refl, sym, ap, ◌∙◌, List, [], ◌∷◌, ◌++◌, Option,
  none, some, false, ◌==◌, ==_iff, ltb, le→ltb, length, get_elem?, some_elem, arith, Bool-cases,
  Option-cases, inl, inr, ==_self,
}
use native.Mathlib.Nat.{div-add-mod}
use mathlib.Core.Path.{ap₂}
use cs349d_miniengine_sk_nc.Core.{Request, PagedRequestState}
use cs349d_miniengine_sk_nc.Pool.{pages_needed}
use cs349d_miniengine_sk_nc.Pool.Laws.{pages_needed-ceil}
use cs349d_miniengine_sk_nc.Radix.Cache.{ok}
use cs349d_miniengine_sk_nc.Engine.State.{Engine, KvStore, ModelOps, page_size, paged_state_stored}
use cs349d_miniengine_sk_nc.Engine.Store.{gather_kv, gather_from, read_token, write}
use cs349d_miniengine_sk_nc.Engine.Store.Writes.{AreApart, write_other}
use cs349d_miniengine_sk_nc.Engine.Prefill.{last_id}
use cs349d_miniengine_sk_nc.Engine.Prefill.Chunks.{gathered_kv, div_lt}
use cs349d_miniengine_sk_nc.Engine.Decode.{
  ensure_page, next_slot, with_state, longer, append_last_token, first_kv, decode_step, then_sample,
}

module _ {V : Type 0} (p : ℕ) (pages : List ℕ) where
  abbrev in_front : Option V → Option (List V) → Option (List V)
  in_front none rest = none
  in_front (some v) none = none
  in_front (some v) (some vs) = some (v ∷ vs)

  gather_suc :
      (s : KvStore V) (t n : ℕ)
      → gather_from p s pages t (suc n)
        ≡ in_front (read_token p s pages t) (gather_from p s pages (suc t) n)
  unfolding gather_from
  gather_suc s t n = elim (Option-cases (read_token p s pages t)) [
    | inl e ↦ rw (e, gather_from) refl
    | inr (v, e) ↦ elim (Option-cases (gather_from p s pages (suc t) n)) [
      | inl f ↦ rw (e, gather_from) (rw (f, gather_from) refl)
      | inr (vs, f) ↦ rw (e, gather_from) (rw (f, gather_from) refl)
    ]
  ]

  -- Stores that agree on the tokens gather the same.
  gather_agree :
      (s s' : KvStore V) (t n : ℕ)
      → ((i : ℕ) → t ≤ i → i < t + n → read_token p s' pages i ≡ read_token p s pages i)
      → gather_from p s' pages t n ≡ gather_from p s pages t n
  gather_agree s s' t zero h = unfold gather_from in refl
  gather_agree s s' t (suc n) h =
      gather_suc s' t n
      ∙ ap₂ in_front (h t (omega arith) (omega arith)) (
          gather_agree s s' (suc t) n
            (λ i low high. h i (omega (arith, low)) (omega (arith, high))))
      ∙ sym (gather_suc s t n)

  gather_snoc :
      (s : KvStore V) (t n : ℕ) (vs : List V) (v : V)
      → gather_from p s pages t n ≡ some vs
      → read_token p s pages (t + n) ≡ some v
      → gather_from p s pages t (suc n) ≡ some (vs ++ v ∷ [])
  gather_snoc s t zero vs v h e =
      let none_yet : vs ≡ [] = unfold gather_from in ground (arith, h) in
      let none_left : gather_from p s pages (suc t) 0 ≡ some [] = unfold gather_from in refl in
      let plain : t + 0 ≡ t = omega arith in
      gather_suc s t 0
      ∙ ap₂ in_front (sym (ap (read_token p s pages) plain) ∙ e) none_left
      ∙ sym (ap (λ z. some (z ++ v ∷ [])) none_yet)
  gather_snoc s t (suc n) vs v h e = elim (Option-cases (read_token p s pages t)) [
    | inl f ↦ absurd (ground (arith, h, gather_suc s t n, f))
    | inr (x, f) ↦ elim (Option-cases (gather_from p s pages (suc t) n)) [
      | inl g ↦ absurd (ground (arith, h, gather_suc s t n, f, g))
      | inr (xs, g) ↦
          let whole : vs ≡ x ∷ xs = ground (arith, h, gather_suc s t n, f, g) in
          gather_suc s t (suc n)
          ∙ ap₂ in_front f
              (gather_snoc s (suc t) n xs v g (ap (read_token p s pages) (omega arith) ∙ e))
          ∙ sym (ap (λ z. some (z ++ v ∷ [])) whole)
    ]
  ]

module _ (p : ℕ) (hp : 0 < p) where
  -- A token within the pages needs no further page.
  pages_needed_le : (n m : ℕ) → n ≤ m * p → pages_needed p n ≤ m
  pages_needed_le n m h = grind (arith, pages_needed-ceil p n hp, h)

module _ {V : Type 0} (p : ℕ) (s : KvStore V) (pages : List ℕ) (n q : ℕ) (v : V)
    (apart : AreApart pages) (at : get_elem? pages (n / p) ≡ some q) where
  abbrev written : KvStore V
  written = write s q (n % p) v

  read_new : read_token p written pages n ≡ some v
  unfolding read_token write
  read_new = rw (at, read_token) (rw (==_self q, write) (rw (==_self (n % p), write) refl))

  read_old : (i : ℕ) → i < n → read_token p written pages i ≡ read_token p s pages i
  unfolding read_token
  read_old i low = elim (Option-cases (get_elem? pages (i / p))) [
    | inl e ↦ rw (e, read_token) refl
    | inr (r, e) ↦
        rw (e, read_token)
          (ap some (
            write_other s q (n % p) r (i % p) v (elim (Bool-cases (q == r)) [
              | inr other ↦ inl other
              | inl same ↦ inr (other_slot r e ((==_iff q r).0 same))
            ])))
  ]
    where
      other_slot : (r : ℕ) → get_elem? pages (i / p) ≡ some r → q ≡ r → ((n % p) == (i % p)) ≡ false
      other_slot r e same =
          let quot : n / p ≡ i / p = apart (n / p) (i / p) r (at ∙ ap some same) e in
          ground (arith, quot, low, ap (λ z. z * p) quot, div-add-mod n p, div-add-mod i p)

module _ {V L : Type 0} (model : ModelOps V L) (addr : ℕ → ℕ) where
  -- A request whose next token has its page.
  pub record HasRoom (p : ℕ) (state : PagedRequestState) : Type 0 where
    pub paged : 0 < p
    pub apart : AreApart state.page_indices
    pub room : state.kv_len < length state.page_indices * p

  no_page_needed :
      (e : Engine V) (state : PagedRequestState)
      → HasRoom (page_size e) state
      → ensure_page model addr e state ≡ (e, ok state)
  unfolding ensure_page
  no_page_needed e state w =
      let enough : ltb (length state.page_indices) (pages_needed (page_size e) (state.kv_len + 1))
          ≡ false =
        le→ltb _ _ (
          pages_needed_le (page_size e) w.paged (state.kv_len + 1) (length state.page_indices)
            (omega (arith, w.room))) in
      rw (enough, ensure_page) refl

  append_at :
      (e : Engine V) (req : Request) (state : PagedRequestState) (v : V) (q : ℕ)
      → HasRoom (page_size e) state
      → get_elem? state.page_indices (state.kv_len / page_size e) ≡ some q
      → append_last_token model addr e req state v ≡ (
        record e { store = write e.store q (state.kv_len % page_size e) v },
        with_state model addr req (longer model addr state),
        ok tt,
      )
  unfolding append_last_token
  append_at e req state v q w at =
      let place : next_slot model addr (page_size e) state ≡ some (q, state.kv_len % page_size e) =
        unfold next_slot in rw (at, next_slot) refl in
      rw (no_page_needed e state w, append_last_token)
        (rw (place, append_last_token)
          (ap
            (λ z. (
              record z { store = write z.store q (state.kv_len % page_size e) v },
              with_state model addr req (longer model addr state),
              ok tt,
            ))
            (ap (λ z. z.0) (no_page_needed e state w))))

  -- `_append_last_token_kv_to_pool` of a request with room takes no page, writes the KV behind the
  -- request's tokens and counts it; the tokens before it stay.
  pub append_last_token_lem :
      (e : Engine V) (req : Request) (state : PagedRequestState) (vs : List V) (v : V)
      → HasRoom (page_size e) state
      → gather_kv (page_size e) e.store state.page_indices state.kv_len ≡ some vs
      → (store : KvStore V) × (append_last_token model addr e req state v ≡ (
        record e { store = store },
        with_state model addr req (longer model addr state),
        ok tt,
      ))
        × (gather_kv (page_size e) store state.page_indices (suc state.kv_len)
            ≡ some (vs ++ v ∷ []))
  unfolding gather_kv
  append_last_token_lem e req state vs v w h =
      let p : ℕ = page_size e in
      let pages : List ℕ = state.page_indices in
      let n : ℕ = state.kv_len in
      let (q, at) = some_elem (n / p) pages (div_lt p n (length pages) w.room) in
      let plain : 0 + n ≡ n = omega arith in
      (
        written p e.store pages n q v w.apart at,
        append_at e req state v q w at,
        gather_snoc p pages (written p e.store pages n q v w.apart at) 0 n vs v
            (gather_agree p pages e.store (written p e.store pages n q v w.apart at) 0 n
                (λ i low high. read_old p e.store pages n q v w.apart at i (omega (arith, high)))
              ∙ h)
            (ap (read_token p (written p e.store pages n q v w.apart at) pages) plain
              ∙ read_new p e.store pages n q v w.apart at),
      )

  -- A decode step of a request whose last token has its page ends with a token; the KV that the model
  -- computed from the cached KV, the last token and its position stands behind the cached KV, which
  -- is unchanged, and the request counts it.
  pub decode_step_lem :
      (e : Engine V) (req : Request) (state : PagedRequestState) (id : ℕ)
      → req.kv_cache ≡ some state
      → last_id req.output_ids ≡ some id
      → HasRoom (page_size e) state
      → let (e', req', out) = decode_step model addr e req in
        (past : List V) × (gather_kv (page_size e) e.store state.page_indices state.kv_len
          ≡ some past)
        × (gather_kv (page_size e) e'.store state.page_indices (suc state.kv_len)
            ≡ some (
                past
                ++ first_kv model addr model.blank
                    (model.cached past (id ∷ []) (state.kv_len ∷ [])).0
                  ∷ []))
        × (req' ≡ with_state model addr req (longer model addr state))
        × (t : ℕ) × (out ≡ ok t)
  unfolding decode_step
  decode_step_lem e req state id stored last w =
      let (past, gathered, len) =
        gathered_kv (page_size e) e.store state.page_indices state.kv_len (omega (arith, w.room)) in
      let logits : L = (model.cached past (id ∷ []) (state.kv_len ∷ [])).1 in
      let (store, appended, later) =
        append_last_token_lem e req state past
          (first_kv model addr model.blank (model.cached past (id ∷ []) (state.kv_len ∷ [])).0) w
          gathered in
      let whole : decode_step model addr e req ≡ (
        record e { store = store },
        with_state model addr req (longer model addr state),
        ok (model.sample logits (with_state model addr req (longer model addr state))),
      ) =
        rw (last, decode_step)
          (rw (paged_state_stored req state stored, decode_step)
            (rw (gathered, decode_step) (ap (then_sample model addr logits) appended))) in
      (
        past,
        gathered,
        ap (λ z. gather_kv (page_size e) z.0.store state.page_indices (suc state.kv_len)) whole
            ∙ later,
        ap (λ z. z.1) whole,
        model.sample logits (with_state model addr req (longer model addr state)),
        ap (λ z. z.2) whole,
      )
