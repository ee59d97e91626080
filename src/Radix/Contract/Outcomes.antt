-- ===== src/Radix/Contract/Outcomes.antt =====
-- What a lookup and an insertion return and leave.
use cs349d_miniengine_sk_nc.Radix.Insert.{Grown, insert_and_return, inserted, grow}
use cs349d_miniengine_sk_nc.Radix.Insert.Held.{Held, same-Held}
use cs349d_miniengine_sk_nc.Common.{
  ℕ, suc, ◌*◌, ◌/◌, ◌<◌, ◌≤◌, ◌≡◌, refl, sym, ap, ◌∙◌, List, [], true, inl, inr, length, take, ltb,
  ◌==◌, Bool-cases, ==_iff, ltb→le, le→ltb, lt→ltb, length-take, arith,
}
use cs349d_miniengine_sk_nc.Radix.Keys.{match_keys, page_align_len, pages_agree}
use cs349d_miniengine_sk_nc.Radix.Keys.Laws.{match_keys-append}
use native.Mathlib.Nat.{div-mul-le_self}
use cs349d_miniengine_sk_nc.Radix.Cache.{RadixCache, Result, ok, err, value_error, root_id}
use cs349d_miniengine_sk_nc.Radix.WellFormed.{IsWf}
use cs349d_miniengine_sk_nc.Radix.Look.{look, look_nil}
use cs349d_miniengine_sk_nc.Radix.Look.Merge.{div_mul, merge_short}
use cs349d_miniengine_sk_nc.Radix.Match.{match_prefix, Walk, MatchResult, too_short, walked}
use cs349d_miniengine_sk_nc.Radix.Match.Walks.{Walks, walk-Walks}
use cs349d_miniengine_sk_nc.Radix.Insert.Grew.{grow-Grows}
use cs349d_miniengine_sk_nc.Radix.Contract.{IsCache, continued}
use cs349d_miniengine_sk_nc.Radix.Insert.Lookup.{Grew}

-- The tokens of a prompt that fill whole pages.
abbrev pub whole_pages : RadixCache → List ℕ → List ℕ
whole_pages cache tokens = take (page_align_len (length tokens) cache.page_size) tokens

-- What a lookup returns and leaves.
pub record Matches (cache : RadixCache) (tokens : List ℕ) (r : RadixCache × MatchResult)
    : Type 0 where
  pub wf : IsWf cache.page_size r.0.children
  pub size : r.0.page_size ≡ cache.page_size
  pub found : r.1.matched_pages ≡ look cache.page_size cache.children (whole_pages cache tokens)
  pub same :
      (t : List ℕ) → look cache.page_size r.0.children t ≡ look cache.page_size cache.children t
  pub aligned : r.1.matched_tokens ≡ length r.1.matched_pages * cache.page_size
  pub within : r.1.matched_tokens ≤ length tokens

module _ (cache : RadixCache) (now : ℕ) (tokens : List ℕ) (v : IsCache cache) where
  aligned_len : ℕ
  aligned_len = page_align_len (length tokens) cache.page_size

  short-Matches : (aligned_len == 0) ≡ true → Matches cache tokens (too_short cache tokens)
  unfolding aligned_len
  short-Matches e = record {
    wf = v.wf;
    size = refl;
    found = sym (
        ap (λ z. look cache.page_size cache.children (take z tokens)) ((==_iff _ 0).0 e)
        ∙ look_nil cache.page_size cache.children);
    same = λ t. refl;
    aligned = omega arith;
    within = omega arith;
  }

  walked-Matches :
      (w : Walk)
      → Walks cache.page_size cache.children (take aligned_len tokens) w
      → Matches cache tokens (walked cache now tokens w)
  unfolding aligned_len
  walked-Matches w g = record {
    wf = g.wf;
    size = refl;
    found = g.found;
    same = g.same;
    aligned = g.aligned;
    within = omega (arith, g.within, length-take aligned_len tokens);
  }

  pub match_prefix-Matches : Matches cache tokens (match_prefix cache now tokens)
  unfolding match_prefix aligned_len
  match_prefix-Matches = elim (Bool-cases (aligned_len == 0)) [
    | inl e ↦ rw e (short-Matches e)
    | inr e ↦ rw e (
        walked-Matches _ (
          walk-Walks cache.page_size now v.paged (suc aligned_len) root_id cache.children _
            (omega (arith, length-take aligned_len tokens)) v.wf))
  ]

-- What an insertion leaves: every lookup finds what it found before, continued by new pages.
pub record Inserts (cache : RadixCache) (tokens pages : List ℕ) (r : RadixCache × ℕ × List ℕ)
    : Type 0 where
  pub wf : IsWf cache.page_size r.0.children
  pub size : r.0.page_size ≡ cache.page_size
  pub looks :
      (t : List ℕ)
      → look cache.page_size r.0.children t
        ≡ continued
            (look cache.page_size cache.children t)
            pages
            (match_keys (whole_pages cache tokens) t cache.page_size / cache.page_size)
  pub grown :
      (g : Grown) × (r.0.children ≡ g.children)
      × (r.0.next_id ≡ g.next_id)
      × Held cache.next_id cache.children g

-- `P` of the value, if there is one.
abbrev pub Holds {ℓ κ} : {A : Type ℓ} → (A → Type κ) → Result A → Type κ
Holds P (ok a) = P a
Holds P (err e) = Unit

module _ (cache : RadixCache) (now made : ℕ) (tokens pages : List ℕ) (v : IsCache cache) where
  unfoldable pub num_pages : ℕ
  num_pages = page_align_len (length tokens) cache.page_size / cache.page_size

  pub whole_len : length (whole_pages cache tokens) ≡ num_pages * cache.page_size
  unfolding page_align_len num_pages
  whole_len = omega (
    arith,
    length-take (page_align_len (length tokens) cache.page_size) tokens,
    div-mul-le_self (length tokens) cache.page_size,
    ap (λ z. z * cache.page_size)
        (div_mul (length tokens / cache.page_size) cache.page_size v.paged),
  )

  short-Inserts :
      (page_align_len (length tokens) cache.page_size == 0) ≡ true
      → Inserts cache tokens pages (cache, root_id, pages)
  short-Inserts e = record {
    wf = v.wf;
    size = refl;
    looks = λ t. sym (
        ap
          (λ z.
            continued (look cache.page_size cache.children t) pages
              (match_keys (take z tokens) t cache.page_size / cache.page_size))
          ((==_iff _ 0).0 e)
        ∙ ap (λ z. continued (look cache.page_size cache.children t) pages (z / cache.page_size))
            (match_keys-append cache.page_size v.paged [] [] t (0, omega arith)
              (unfold pages_agree in refl))
        ∙ merge_short (look cache.page_size cache.children t) pages (0 / cache.page_size)
            (omega arith));
    grown =
        let g : Grown = record {
          children = cache.children;
          redundant = [];
          inserted = 0;
          last = root_id;
          next_id = cache.next_id;
          sound = true;
        } in
        (g, refl, refl, same-Held cache.next_id cache.children g refl refl refl);
  }

  abbrev growth : Grown
  growth =
      grow cache.page_size now made (suc (page_align_len (length tokens) cache.page_size)) root_id
        cache.next_id cache.children (whole_pages cache tokens) pages num_pages

  grows :
      num_pages ≤ length pages
      → Grew cache.page_size cache.children growth.children (whole_pages cache tokens) pages
        × Held cache.next_id cache.children growth
  grows enough =
      grow-Grows cache.page_size now made v.paged
        (suc (page_align_len (length tokens) cache.page_size)) root_id cache.next_id cache.children
        (whole_pages cache tokens) pages num_pages
        (omega (arith, length-take (page_align_len (length tokens) cache.page_size) tokens)) v.wf
        whole_len enough

  pub insert-Inserts :
      Holds (Inserts cache tokens pages) (insert_and_return cache now made tokens pages)
  unfolding insert_and_return num_pages
  insert-Inserts = elim (Bool-cases (page_align_len (length tokens) cache.page_size == 0)) [
    | inl e ↦ rw e (short-Inserts e)
    | inr e ↦ rw e (elim (Bool-cases (ltb (length pages) num_pages)) [
      | inl few ↦ rw few tt
      | inr enough ↦
          let g = grows (ltb→le _ _ enough) in
          rw enough (
            rw g.1.sound (record {
              wf = g.0.wf;
              size = refl;
              looks = g.0.looks;
              grown = (_, refl, refl, g.1);
            }))
    ])
  ]

  pub insert_ok :
      num_pages ≤ length pages
      → (r : RadixCache × ℕ × List ℕ) × (insert_and_return cache now made tokens pages ≡ ok r)
  unfolding insert_and_return num_pages
  insert_ok h = elim (Bool-cases (page_align_len (length tokens) cache.page_size == 0)) [
    | inl e ↦ ((cache, root_id, pages), rw e refl)
    | inr e ↦ (
      inserted cache now growth,
      rw e (rw (le→ltb (length pages) num_pages h) (rw (grows h).1.sound refl)),
    )
  ]

  pub insert_err :
      length pages < num_pages → insert_and_return cache now made tokens pages ≡ err value_error
  unfolding insert_and_return num_pages
  insert_err h = elim (Bool-cases (page_align_len (length tokens) cache.page_size == 0)) [
    | inl e ↦ absurd (omega (arith, h, ap (λ z. z / cache.page_size) ((==_iff _ 0).0 e)))
    | inr e ↦ rw e (rw (lt→ltb (length pages) num_pages h) refl)
  ]
