-- ===== src/Radix/Contract/Lookups.antt =====
-- Lookups after lookups and insertions.
use cs349d_miniengine_sk_nc.Common.{
  ℕ, ◌*◌, ◌/◌, ◌<◌, ◌≤◌, ◌≡◌, refl, sym, ap, ◌∙◌, List, [], inl, inr, ◌⊎◌, length, take, drop, ltb,
  Bool-cases, ltb→le, ltb→lt, length-append, length-drop, length-take, arith, subst,
}
use cs349d_miniengine_sk_nc.Radix.Keys.{match_keys, page_align_len, pages_agree}
use cs349d_miniengine_sk_nc.Radix.Keys.Laws.{match_keys-append}
use native.Mathlib.Nat.{le-div_iff_mul-le}
use mathlib.Core.List.{append-nil}
use cs349d_miniengine_sk_nc.Radix.Cache.{RadixCache, ok, err, value_error}
use cs349d_miniengine_sk_nc.Radix.WellFormed.{IsWf}
use cs349d_miniengine_sk_nc.Radix.Look.{look}
use cs349d_miniengine_sk_nc.Radix.Look.Merge.{div_mul}
use cs349d_miniengine_sk_nc.Radix.Match.{match_prefix}
use cs349d_miniengine_sk_nc.Radix.Insert.{insert_and_return}
use cs349d_miniengine_sk_nc.Radix.Contract.{IsCache, cached, continued}
use cs349d_miniengine_sk_nc.Radix.Contract.Outcomes.{
  Holds, Inserts, insert-Inserts, insert_err, insert_ok, match_prefix-Matches, num_pages, whole_len,
  whole_pages,
}

-- With a page for each whole page of tokens an insertion succeeds; else it is the ValueError.
pub insert_and_return_total :
    (cache : RadixCache) (now made : ℕ) (tokens pages : List ℕ)
    → IsCache cache
    → ((r : RadixCache × ℕ × List ℕ) × (length tokens / cache.page_size ≤ length pages)
        × (insert_and_return cache now made tokens pages ≡ ok r))
      ⊎ ((length pages < length tokens / cache.page_size)
          × (insert_and_return cache now made tokens pages ≡ err value_error))
unfolding num_pages page_align_len
insert_and_return_total cache now made tokens pages v =
    let same : length tokens / cache.page_size * cache.page_size / cache.page_size
        ≡ length tokens / cache.page_size =
      div_mul (length tokens / cache.page_size) cache.page_size v.paged in
    elim (Bool-cases (ltb (length pages) (length tokens / cache.page_size))) [
      | inr fits ↦
          let h = ltb→le _ _ fits in
          let (r, e) = insert_ok cache now made tokens pages v (omega (arith, same, h)) in
          inl (r, h, e)
      | inl few ↦
          let h = ltb→lt _ _ few in
          inr (h, insert_err cache now made tokens pages v (omega (arith, same, h)))
    ]

-- A successful insertion, for the states before and after it.
pub insert_and_return-Inserts :
    (cache : RadixCache) (now made : ℕ) (tokens pages : List ℕ) (r : RadixCache × ℕ × List ℕ)
    → IsCache cache
    → insert_and_return cache now made tokens pages ≡ ok r
    → Inserts cache tokens pages r
insert_and_return-Inserts cache now made tokens pages r v e =
    subst (Holds (Inserts cache tokens pages)) e (insert-Inserts cache now made tokens pages v)

-- A successful insertion into a paged, well-formed cache leaves a paged, well-formed cache: each
-- node has a page for each page of its key, and stands in the slot of its key's first page alone.
pub insert-IsCache :
    (cache : RadixCache) (now made : ℕ) (tokens pages : List ℕ) (r : RadixCache × ℕ × List ℕ)
    → IsCache cache
    → insert_and_return cache now made tokens pages ≡ ok r
    → IsCache r.0
insert-IsCache cache now made tokens pages r v e =
    let g = insert_and_return-Inserts cache now made tokens pages r v e in
    record {
      paged = omega (arith, v.paged, g.size);
      wf = subst (λ z. IsWf z r.0.children) (sym g.size) g.wf;
    }

-- After a successful insertion into a paged, well-formed cache every query, at any time, is answered
-- by the pages of before, continued by the new pages as far as the query and the inserted tokens share
-- whole pages.
pub cached-insert_and_return :
    (cache : RadixCache) (now made later : ℕ) (tokens pages query : List ℕ)
    (r : RadixCache × ℕ × List ℕ)
    → IsCache cache
    → insert_and_return cache now made tokens pages ≡ ok r
    → cached r.0 later query
      ≡ continued (cached cache later query) pages (
          match_keys (whole_pages cache tokens) (whole_pages cache query) cache.page_size
          / cache.page_size)
cached-insert_and_return cache now made later tokens pages query r v e =
    let g = insert_and_return-Inserts cache now made tokens pages r v e in
    let after =
      match_prefix-Matches r.0 later query (insert-IsCache cache now made tokens pages r v e) in
    let before = match_prefix-Matches cache later query v in
    after.found
    ∙ ap (λ z. look z r.0.children (take (page_align_len (length query) z) query)) g.size
    ∙ g.looks (whole_pages cache query)
    ∙ ap
        (λ z. continued z pages (
          match_keys (whole_pages cache tokens) (whole_pages cache query) cache.page_size
          / cache.page_size))
        (sym before.found)

-- A lookup in a paged, well-formed cache changes no later answer, reports as many tokens as fill the
-- pages that it returns and no more than the prompt has, and leaves the cache well-formed.
pub match_prefix_lem :
    (cache : RadixCache) (now later : ℕ) (tokens query : List ℕ)
    → IsCache cache
    → let r = match_prefix cache now tokens in
      (cached r.0 later query ≡ cached cache later query)
      × (r.1.matched_tokens ≡ length r.1.matched_pages * cache.page_size)
      × (r.1.matched_tokens ≤ length tokens)
      × IsCache r.0
match_prefix_lem cache now later tokens query v =
    let m = match_prefix-Matches cache now tokens v in
    let before = match_prefix-Matches cache later query v in
    let valid : IsCache (match_prefix cache now tokens).0 = record {
      paged = omega (arith, v.paged, m.size);
      wf = subst (λ z. IsWf z (match_prefix cache now tokens).0.children) (sym m.size) m.wf;
    } in
    let after = match_prefix-Matches (match_prefix cache now tokens).0 later query valid in
    (
      after.found
          ∙ ap
              (λ z.
                look z (match_prefix cache now tokens).0.children
                  (take (page_align_len (length query) z) query))
              m.size
          ∙ m.same (whole_pages cache query)
          ∙ sym before.found,
      m.aligned,
      m.within,
      valid,
    )

module _ (cache : RadixCache) (now made later : ℕ) (tokens pages : List ℕ)
    (r : RadixCache × ℕ × List ℕ) (v : IsCache cache)
    (e : insert_and_return cache now made tokens pages ≡ ok r) where
  enough_pages : num_pages cache now made tokens pages v ≤ length pages
  enough_pages = elim (Bool-cases (ltb (length pages) (num_pages cache now made tokens pages v))) [
    | inl few ↦
        let failed : insert_and_return cache now made tokens pages ≡ err value_error =
          insert_err cache now made tokens pages v (ltb→lt _ _ few) in
        cc
    | inr enough ↦ ltb→le _ _ enough
  ]

  self_match :
      match_keys (whole_pages cache tokens) (whole_pages cache tokens) cache.page_size
        / cache.page_size
      ≡ num_pages cache now made tokens pages v
  self_match =
      ap (λ z. z / cache.page_size)
        (ap (λ z. match_keys z z cache.page_size) (sym (append-nil (whole_pages cache tokens)))
          ∙ match_keys-append cache.page_size v.paged (whole_pages cache tokens) [] []
              (num_pages cache now made tokens pages v, whole_len cache now made tokens pages v)
              (unfold pages_agree in refl)
          ∙ whole_len cache now made tokens pages v)
      ∙ div_mul (num_pages cache now made tokens pages v) cache.page_size v.paged

  old_fits : length (cached cache later tokens) ≤ num_pages cache now made tokens pages v
  unfolding num_pages page_align_len
  old_fits =
      let before = match_prefix-Matches cache later tokens v in
      let held : length (cached cache later tokens) * cache.page_size ≤ length tokens =
        omega (arith, before.aligned, before.within) in
      omega (
        arith,
        (le-div_iff_mul-le v.paged).1 held,
        div_mul (length tokens / cache.page_size) cache.page_size v.paged,
      )

  -- After a successful insertion into a paged, well-formed cache, a lookup of the inserted tokens
  -- matches all of their whole pages.
  pub matched_tokens-insert :
      (match_prefix r.0 later tokens).1.matched_tokens
      ≡ page_align_len (length tokens) cache.page_size
  unfolding num_pages page_align_len
  matched_tokens-insert =
      let valid = insert-IsCache cache now made tokens pages r v e in
      let after = match_prefix-Matches r.0 later tokens valid in
      let g = insert_and_return-Inserts cache now made tokens pages r v e in
      let same : (length tokens / cache.page_size) * cache.page_size / cache.page_size
          ≡ length tokens / cache.page_size =
        div_mul (length tokens / cache.page_size) cache.page_size v.paged in
      let found : length (cached r.0 later tokens) ≡ length tokens / cache.page_size =
        ap length (
          cached-insert_and_return cache now made later tokens pages tokens r v e
          ∙ ap (continued (cached cache later tokens) pages) self_match)
        ∙ omega (
          arith,
          same,
          old_fits,
          enough_pages,
          length-append (cached cache later tokens) (
              drop (length (cached cache later tokens))
                (take (length tokens / cache.page_size * cache.page_size / cache.page_size) pages)),
          length-drop (length (cached cache later tokens))
              (take (length tokens / cache.page_size * cache.page_size / cache.page_size) pages),
          length-take (length tokens / cache.page_size * cache.page_size / cache.page_size) pages,
        ) in
      after.aligned
      ∙ ap (λ z. z * r.0.page_size) found
      ∙ ap (λ z. (length tokens / cache.page_size) * z) g.size

-- An insertion into a paged, well-formed cache has one of two outcomes. If there is a page for each
-- whole page of tokens it succeeds: no assertion of a split fails, the cache is again paged and
-- well-formed, and a lookup of the tokens matches all of their whole pages. If there is not, it is
-- the ValueError.
pub insert_and_return_lem :
    (cache : RadixCache) (now made : ℕ) (tokens pages : List ℕ)
    → IsCache cache
    → ((r : RadixCache × ℕ × List ℕ) × (length tokens / cache.page_size ≤ length pages)
        × (insert_and_return cache now made tokens pages ≡ ok r)
        × IsCache r.0
        × ((later : ℕ)
            → (match_prefix r.0 later tokens).1.matched_tokens
              ≡ page_align_len (length tokens) cache.page_size))
      ⊎ ((length pages < length tokens / cache.page_size)
          × (insert_and_return cache now made tokens pages ≡ err value_error))
insert_and_return_lem cache now made tokens pages v =
    elim (insert_and_return_total cache now made tokens pages v) [
      | inr few ↦ inr few
      | inl (r, enough, e) ↦ inl (
        r,
        enough,
        e,
        insert-IsCache cache now made tokens pages r v e,
        λ later. matched_tokens-insert cache now made later tokens pages r v e,
      )
    ]
