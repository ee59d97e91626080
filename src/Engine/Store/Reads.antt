-- ===== src/Engine/Store/Reads.antt =====
-- What is read back from the pages.
use cs349d_miniengine_sk_nc.Common.{
  ℕ, zero, suc, ◌+◌, ◌-◌, ◌*◌, ◌/◌, ◌%◌, ◌≤◌, ◌<◌, ◌≡◌, ◌≢◌, refl, sym, ap, ◌∙◌, List, [], ◌∷◌,
  ◌++◌, some, false, lt→ltb, le→ltb, length, take, drop, get_elem?, get_elem?-take, get_elem?-drop,
  some_elem, length-take, length-drop, replicate, arith, Option-cases, inl, inr,
}
use mathlib.Core.Path.{ap₂}
use cs349d_miniengine_sk_nc.Engine.State.{KvStore}
use cs349d_miniengine_sk_nc.Engine.Store.{
  store_prefill_slice, read_token, gather_from, gather_kv, padded_token, padded_from, padded_kv,
}
use cs349d_miniengine_sk_nc.Engine.Store.Writes.{
  AreApart, Stored, store_prefill_slice-Stored, page_there,
}

module _ {V : Type 0} where
  -- Tokens that are read one by one are gathered.
  pub gather_from-reads :
      (p : ℕ) (s : KvStore V) (pages : List ℕ) (t n : ℕ) (vs : List V)
      → length vs ≡ n
      → ((i : ℕ) → i < n → read_token p s pages (t + i) ≡ get_elem? vs i)
      → gather_from p s pages t n ≡ some vs
  unfolding gather_from
  gather_from-reads p s pages t zero [] len h = refl
  gather_from-reads p s pages t zero (v ∷ vs) len h = absurd (omega arith)
  gather_from-reads p s pages t (suc n) [] len h = absurd (omega arith)
  gather_from-reads p s pages t (suc n) (v ∷ vs) len h =
      let first : read_token p s pages t ≡ some v =
        ap (read_token p s pages) (omega arith) ∙ h 0 (omega arith) in
      let rest : gather_from p s pages (suc t) n ≡ some vs =
        gather_from-reads p s pages (suc t) n vs (omega arith)
          (λ i low. ap (read_token p s pages) (omega arith) ∙ h (suc i) (omega arith)) in
      rw (first, gather_from) (rw (rest, gather_from) refl)

-- For a request with enough distinct pages, storing `src_len` tokens of the model's KV, from token
-- `src_start` of it on, raises nothing, and gathering the first `src_len` tokens of the request
-- returns just those.
pub gather_kv-store_prefill_slice :
    {V : Type 0} (p : ℕ) (s : KvStore V) (pages : List ℕ) (kv : List V) (src_start src_len : ℕ)
    → 0 < p
    → AreApart pages
    → src_start + src_len ≤ length kv
    → src_len ≤ length pages * p
    → let r = store_prefill_slice p s pages kv src_start src_len in
      (r.1 ≡ false) × (gather_kv p r.0 pages src_len ≡ some (take src_len (drop src_start kv)))
unfolding gather_kv read_token
gather_kv-store_prefill_slice {V} p s pages kv src_start src_len hp apart enough room =
    let (fine, k) =
      store_prefill_slice-Stored p s pages kv src_start src_len hp apart enough room in
    (
      fine,
      gather_from-reads p s' pages 0 src_len (take src_len (drop src_start kv))
          (omega (arith, length-take src_len (drop src_start kv), length-drop src_start kv))
          (λ i low. one k i low),
    )
  where
    s' : KvStore V
    s' = (store_prefill_slice p s pages kv src_start src_len).0

    one :
        Stored p pages kv src_start 0 src_len s s'
        → (i : ℕ) → i < src_len
        → read_token p s' pages (0 + i) ≡ get_elem? (take src_len (drop src_start kv)) i
    one k i low =
        let (q, at) =
          page_there p hp pages apart kv src_start src_len enough i (omega (arith, low, room)) in
        let (v, e) = some_elem (src_start + i) kv (omega (arith, low, enough)) in
        let plain : 0 + i ≡ i = omega arith in
        ap (read_token p s' pages) plain
        ∙ rw (at, read_token) (ap some (k.written i q v (omega arith) low at e))
        ∙ sym (get_elem?-take src_len i (drop src_start kv) low ∙ get_elem?-drop src_start i kv ∙ e)

-- It changes no slot but those of the request's first `src_len` tokens.
pub store_prefill_slice_others :
    {V : Type 0} (p : ℕ) (s : KvStore V) (pages : List ℕ) (kv : List V)
    (src_start src_len page slot : ℕ)
    → 0 < p
    → AreApart pages
    → src_start + src_len ≤ length kv
    → src_len ≤ length pages * p
    → ((t : ℕ) → t < src_len → get_elem? pages (t / p) ≡ some page → t % p ≢ slot)
    → (store_prefill_slice p s pages kv src_start src_len).0 page slot ≡ s page slot
store_prefill_slice_others p s pages kv src_start src_len page slot hp apart enough room h =
    (store_prefill_slice-Stored p s pages kv src_start src_len hp apart enough room).1.others page
      slot (λ t low high. h t high)

module _ {V : Type 0} (blank : V) (num_pages p : ℕ) (s : KvStore V) (pages : List ℕ)
    (cache_len : ℕ) where
  abbrev row : ℕ → ℕ → List V
  row = padded_from blank num_pages p s pages cache_len

  row_behind : (t n : ℕ) → cache_len ≤ t → row t n ≡ replicate n blank
  unfolding padded_from padded_token
  row_behind t zero h = refl
  row_behind t (suc n) h =
      rw (le→ltb t cache_len h) (ap (◌∷◌ blank) (row_behind (suc t) n (omega arith)))

  one_token :
      (t : ℕ) (v : V)
      → t < cache_len
      → read_token p s pages t ≡ some v
      → padded_token blank num_pages p s pages cache_len t ≡ v
  unfolding padded_token read_token
  one_token t v h e = rw (lt→ltb t cache_len h) (ground (arith, e))

  row-gather_from :
      (t n m : ℕ) (vs : List V)
      → t + n ≡ cache_len
      → gather_from p s pages t n ≡ some vs
      → row t (n + m) ≡ vs ++ replicate m blank
  unfolding padded_from gather_from
  row-gather_from t zero m vs h e =
      let nothing : vs ≡ [] = ground (arith, e) in
      ap (row t) (omega arith)
      ∙ row_behind t m (omega arith)
      ∙ sym (ap (λ z. z ++ replicate m blank) nothing)
  row-gather_from t (suc n) m vs h e = elim (Option-cases (read_token p s pages t)) [
    | inl q ↦ ground (arith, e, q)
    | inr (v, q) ↦ elim (Option-cases (gather_from p s pages (suc t) n)) [
      | inl r ↦ ground (arith, e, q, r)
      | inr (rest, r) ↦
          let whole : vs ≡ v ∷ rest = ground (arith, e, q, r) in
          let step : suc n + m ≡ suc (n + m) = omega arith in
          ap (row t) step
          ∙ ap₂ ◌∷◌ (one_token t v (omega arith) q)
              (row-gather_from (suc t) n m rest (omega arith) r)
          ∙ sym (ap (λ z. z ++ replicate m blank) whole)
    ]
  ]

-- If the tokens of a request can be gathered one by one, its row of the batched gather is that KV,
-- padded with zeros up to the longest request.
pub padded_kv-gather_kv :
    {V : Type 0} (blank : V) (num_pages p : ℕ) (s : KvStore V) (pages : List ℕ)
    (cache_len max_cache_len : ℕ) (vs : List V)
    → gather_kv p s pages cache_len ≡ some vs
    → cache_len ≤ max_cache_len
    → padded_kv blank num_pages p s pages cache_len max_cache_len
      ≡ vs ++ replicate (max_cache_len - cache_len) blank
unfolding padded_kv gather_kv
padded_kv-gather_kv blank num_pages p s pages cache_len max_cache_len vs h le =
    let whole : max_cache_len ≡ cache_len + (max_cache_len - cache_len) = omega (arith, le) in
    ap (padded_from blank num_pages p s pages cache_len 0) whole
    ∙ row-gather_from blank num_pages p s pages cache_len 0 cache_len (max_cache_len - cache_len) vs
        (omega arith) h
