-- ===== src/Radix/Look/Split.antt =====
-- Splitting a node into two does not change what the lookup finds.
use mathlib.Core.List.{append_assoc}
use cs349d_miniengine_sk_nc.Common.{
  ℕ, suc, ◌+◌, ◌*◌, ◌<◌, ◌≡◌, List, [], ◌∷◌, ◌++◌, length, take, drop, arith, Bool-cases, inl, inr,
  sym, ap, ◌∙◌, false, length-append, take_all, take-append,
}
use cs349d_miniengine_sk_nc.Radix.Node.{RadixNode, Children, empty, entry}
use cs349d_miniengine_sk_nc.Radix.Keys.{match_keys, pages_agree}
use cs349d_miniengine_sk_nc.Radix.Keys.Laws.{match_keys-append}
use cs349d_miniengine_sk_nc.Radix.WellFormed.{IsFit}
use cs349d_miniengine_sk_nc.Radix.Look.{edge, look, shares}
use cs349d_miniengine_sk_nc.Radix.Look.Merge.{parts, covers, meets, edge-parts, edge-covers}
use cs349d_miniengine_sk_nc.Radix.Look.Grow.{drop_key, match_keys-shift, match_keys-inside}

pub take_left : (xs ys : List ℕ) (k : ℕ) → k ≡ length xs → take k (xs ++ ys) ≡ xs
take_left xs ys k e = take-append k xs ys (omega (arith, e)) ∙ take_all k xs (omega (arith, e))

take_past : (xs ys : List ℕ) (k : ℕ) → take (length xs + k) (xs ++ ys) ≡ xs ++ take k ys
take_past [] ys k = ap (λ z. take z ys) (omega arith)
take_past (x ∷ xs) ys k =
    let e : suc (length xs) + k ≡ suc (length xs + k) = omega arith in
    rw e (ap (◌∷◌ x) (take_past xs ys k))

pub differ :
    (p : ℕ) (slot key y : List ℕ)
    → slot ≡ take p key
    → shares p slot y ≡ false
    → pages_agree key y p ≡ false
unfolding shares pages_agree
differ p slot key y e h = ground arith

module _ (p : ℕ) (hp : 0 < p) (top bottom slot : List ℕ) (n upper lower : RadixNode)
    (below : Children) (whole_fit : IsFit p slot n) (upper_fit : IsFit p top upper)
    (lower_fit : IsFit p bottom lower) (key_eq : n.key ≡ upper.key ++ lower.key)
    (pages_eq : n.pages ≡ upper.pages ++ lower.pages) where
  amount : length n.pages ≡ length upper.pages + length lower.pages
  amount = ap length pages_eq ∙ length-append upper.pages lower.pages

  shifted :
      (t y : List ℕ)
      → t ≡ upper.key ++ y
      → match_keys n.key t p ≡ length upper.key + match_keys lower.key y p
  shifted t y e =
      ap (λ z. match_keys z t p) key_eq
      ∙ ap (λ z. match_keys (upper.key ++ lower.key) z p) e
      ∙ match_keys-shift p hp upper.key lower.key y (length upper.pages, upper_fit.aligned)
          (length lower.pages, lower_fit.aligned)

  -- The query leaves the node `k` pages behind the split.
  past :
      (t y rest : List ℕ) (k : ℕ)
      → t ≡ upper.key ++ y
      → match_keys lower.key y p ≡ k * p
      → k < length lower.pages
      → edge p n t rest ≡ upper.pages ++ take k lower.pages
  past t y rest k e m h =
      edge-parts p (length upper.pages + k) slot n t rest hp whole_fit (omega (arith, amount))
        (omega (arith, shifted t y e, m, upper_fit.aligned))
      ∙ ap (take (length upper.pages + k)) pages_eq
      ∙ take_past upper.pages lower.pages k

  below_split :
      (t y : List ℕ)
      → t ≡ upper.key ++ y
      → upper.pages ++ look p (entry bottom lower below empty) y
        ≡ edge p n t (look p below (drop (match_keys n.key t p) t))
  unfolding look
  below_split t y e = elim (Bool-cases (shares p bottom y)) [
    | inl hit ↦ rw hit (elim (meets p bottom lower y hp lower_fit) [
      | parts u x z k key q len fewer room ends m ↦
          ap (◌++◌ upper.pages) (edge-parts p k bottom lower y _ hp lower_fit fewer m)
          ∙ sym (past t y _ k e m fewer)
      | covers z q m ↦
          let all : match_keys n.key t p ≡ length n.key =
            omega (arith, shifted t y e, m, ap length key_eq, length-append upper.key lower.key) in
          let t_eq : t ≡ n.key ++ z =
            e
            ∙ ap (◌++◌ upper.key) q
            ∙ sym (append_assoc upper.key lower.key z)
            ∙ ap (λ w. w ++ z) (sym key_eq) in
          ap (◌++◌ upper.pages) (edge-covers p lower y _ m)
          ∙ sym (append_assoc upper.pages lower.pages _)
          ∙ ap (λ w. w ++ look p below (drop (match_keys lower.key y p) y)) (sym pages_eq)
          ∙ ap (λ w. n.pages ++ look p below w)
              (ap (drop (match_keys lower.key y p)) q
                ∙ drop_key lower.key z _ m
                ∙ sym (ap (drop (match_keys n.key t p)) t_eq ∙ drop_key n.key z _ all))
          ∙ sym (edge-covers p n t _ all)
    ])
    | inr miss ↦
        let m : match_keys lower.key y p ≡ 0 * p =
          match_keys-append p hp [] lower.key y (0, omega arith)
            (differ p bottom lower.key y lower_fit.slotted miss)
          ∙ omega arith in
        rw miss (sym (past t y _ 0 e m lower_fit.some_pages))
  ]

  pub edge-split :
      (t : List ℕ)
      → edge p upper t (look p (entry bottom lower below empty) (drop (match_keys upper.key t p) t))
        ≡ edge p n t (look p below (drop (match_keys n.key t p) t))
  edge-split t = elim (meets p top upper t hp upper_fit) [
    | parts u x y k key q len fewer room ends m ↦
        edge-parts p k top upper t _ hp upper_fit fewer m
        ∙ sym (
            edge-parts p k slot n t _ hp whole_fit (omega (arith, amount)) (
              ap (λ z. match_keys z t p) key_eq
              ∙ match_keys-inside p hp upper.key lower.key t u x y k key q len room ends)
            ∙ ap (take k) pages_eq
            ∙ take-append k upper.pages lower.pages (omega arith))
    | covers y q m ↦
        edge-covers p upper t _ m
        ∙ ap (λ z. upper.pages ++ look p (entry bottom lower below empty) z)
            (ap (drop (match_keys upper.key t p)) q ∙ drop_key upper.key y _ m)
        ∙ below_split t y q
  ]
