-- ===== src/HiCache/Match/Rounds.antt =====
-- A round of the lookup counts the tokens of the pages that it borrows.
use cs349d_miniengine_sk_nc.Radix.Look.Merge.{parts, covers, meets, mul_room, div_mul}
use cs349d_miniengine_sk_nc.Common.{
  Bool-cases, List, ap, arith, false, inl, inr, length, length-append, ltb, ltb→le, ltb→lt, none,
  some, subst, true, ℕ, ◌*◌, ◌+◌, ◌<◌, ◌≡◌, ◌≤◌, sym, ◌/◌, ◌==◌, ◌∙◌,
}
use cs349d_miniengine_sk_nc.HiCache.Demote.Tiered.{Stands}
use cs349d_miniengine_sk_nc.HiCache.Match.{
  HiWalk, borrow, children_at, ensure_node, hi_partial, hi_whole, pages_at, touch,
}
use cs349d_miniengine_sk_nc.HiCache.Match.Descent.{child-locate}
use cs349d_miniengine_sk_nc.HiCache.Match.Sizes.{round_size}
use cs349d_miniengine_sk_nc.HiCache.Promote.{Promotion}
use cs349d_miniengine_sk_nc.Radix.Evict.Places.{locate-IsFit}
use cs349d_miniengine_sk_nc.Radix.Keys.{child_key, match_keys, page_align_len}
use cs349d_miniengine_sk_nc.Radix.Node.{Children, RadixNode, get_child}
use cs349d_miniengine_sk_nc.Radix.WellFormed.{IsFit}

module _ {ℓ} {V : Type ℓ} (p : ℕ) where
  -- The pages stand for the tokens, and the step from `s` to `s'` has matched at most `n` more of them.
  abbrev pub Counted : HiWalk V → ℕ → HiWalk V → Type 0
  Counted s n s' = (length s'.pages * p ≡ s'.tokens) × (s'.tokens ≤ s.tokens + n)

  borrow-Counted :
      (n i matched : ℕ) (s : HiWalk V) (r : Promotion V)
      → length s.pages * p ≡ s.tokens
      → (r.done ≡ true → length (pages_at n i r.tiers.children) * p ≡ matched)
      → Counted s matched (borrow n i matched s r)
  unfolding borrow
  borrow-Counted n i matched s r exact borrowed = elim (Bool-cases (r.done)) [
    | inl e ↦
        let more = pages_at n i r.tiers.children in
        rw e (grind (arith, length-append s.pages more, exact, borrowed e), omega arith)
    | inr e ↦ rw e (exact, omega arith)
  ]

module _ {ℓ} {V : Type ℓ} (addr : ℕ → ℕ) (p now : ℕ) (hp : 0 < p) where
  module _ (s : HiWalk V) (tokens : List ℕ) (child : RadixNode) (below : Children)
      (v : Stands p s.tiers.children) (exact : length s.pages * p ≡ s.tokens)
      (h : get_child (child_key tokens p) (children_at s.last s.tiers.children)
        ≡ some (child, below)) where
    abbrev match_len : ℕ
    match_len = match_keys child.key tokens p

    abbrev round : Promotion V
    round = ensure_node addr p child.id (touch now child.id s.tiers)

    borrows :
        (n : ℕ)
        → n ≤ length child.pages
        → round.done ≡ true
        → length (pages_at n child.id round.tiers.children) ≡ n
    borrows n fits d =
        let (place, e, same) =
          child-locate s.last (child_key tokens p) s.tiers.children child below v.distinct h in
        omega (
          arith,
          round_size addr p now child.id n s.tiers place v e d,
          fits,
          ap (λ (m : RadixNode). length m.pages) same,
        )

    fit : (slot : List ℕ) × IsFit p slot child
    fit =
        let (place, e, same) =
          child-locate s.last (child_key tokens p) s.tiers.children child below v.distinct h in
        (
          place.slot,
          subst (IsFit p place.slot) same
              (locate-IsFit p child.id none s.tiers.children place v.wf e),
        )

    borrow_pages :
        (k : ℕ)
        → k ≤ length child.pages
        → k * p ≤ length tokens
        → Counted p s (length tokens) (hi_partial addr p now s child (k * p))
    unfolding hi_partial
    borrow_pages k fits within = elim (Bool-cases (k * p == 0)) [
      | inl e ↦ rw (e, hi_partial) (exact, omega arith)
      | inr e ↦
          let n_pages = k * p / p in
          let same : n_pages ≡ k = div_mul k p hp in
          let (sized, bounded) =
            borrow-Counted p n_pages child.id (k * p) s round exact
              (λ d. ap (λ z. z * p) (borrows n_pages (omega (arith, fits, same)) d ∙ same)) in
          rw (e, hi_partial) (sized, omega (arith, bounded, within))
    ]

    pub hi_partial-Counted :
        ltb match_len (length child.key) ≡ true
        → Counted p s (length tokens) (hi_partial addr p now s child (page_align_len match_len p))
    unfolding hi_partial page_align_len
    hi_partial-Counted shorter = elim (meets p fit.0 child tokens hp fit.1) [
      | covers y e m ↦ absurd (omega (arith, ltb→lt _ _ shorter, m))
      | parts u x y k key_eq tokens_eq u_len fewer more apart m ↦
          let aligned : page_align_len match_len p ≡ k * p =
            ap (λ z. (z / p) * p) m ∙ ap (λ z. z * p) (div_mul k p hp) in
          subst (λ z. Counted p s (length tokens) (hi_partial addr p now s child z)) (sym aligned)
            (borrow_pages k (omega (arith, fewer))
              (omega (arith, ap (λ (l : List ℕ). length l) tokens_eq, length-append u y, u_len)))
    ]

    pub hi_whole-Counted :
        ltb match_len (length child.key) ≡ false
        → (match_len ≤ length tokens)
          × Counted p s match_len (hi_whole addr p now s child match_len)
    unfolding hi_whole
    hi_whole-Counted full = elim (meets p fit.0 child tokens hp fit.1) [
      | covers y e m ↦ (
        omega (arith, ap (λ (l : List ℕ). length l) e, length-append child.key y, m),
        borrow-Counted p (length child.pages) child.id match_len s round exact (λ d.
            ap (λ z. z * p) (borrows (length child.pages) (omega arith) d)
            ∙ (sym fit.1.aligned ∙ sym m)),
      )
      | parts u x y k key_eq tokens_eq u_len fewer more apart m ↦ absurd (
          omega
            (arith, ltb→le _ _ full, m, mul_room k (length child.pages) p fewer, fit.1.aligned, hp))
    ]
