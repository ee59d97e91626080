-- ===== src/Radix/Look/Grow.antt =====
-- How the lookup sees an edge below which something was inserted, and an edge that was split.
use native.Mathlib.Nat.{mul-add-div_right}
use mathlib.Core.List.{append_assoc}
use cs349d_miniengine_sk_nc.Common.{
  ℕ, ◌+◌, ◌*◌, ◌/◌, ◌<◌, ◌≤◌, ◌≡◌, List, ◌++◌, length, take, drop, arith, sym, ap, ◌∙◌, false,
  length-append, length-take, drop_all, drop-append,
}
use cs349d_miniengine_sk_nc.Radix.Node.{RadixNode, Children}
use cs349d_miniengine_sk_nc.Radix.Keys.{match_keys, pages_agree}
use cs349d_miniengine_sk_nc.Radix.Keys.Laws.{
  IsWhole, Agrees, match_keys-Agrees, match_keys-append, disagree-append,
}
use cs349d_miniengine_sk_nc.Radix.WellFormed.{IsFit}
use cs349d_miniengine_sk_nc.Radix.Look.{edge, look}
use cs349d_miniengine_sk_nc.Radix.Look.Merge.{
  merge, merge_short, merge-append, parts, covers, meets, edge-parts, edge-covers, div_mul,
}

pub drop_key : (u y : List ℕ) (m : ℕ) → m ≡ length u → drop m (u ++ y) ≡ y
drop_key u y m e =
    drop-append m u y (omega (arith, e)) ∙ ap (λ r. r ++ y) (drop_all m u (omega (arith, e)))

module _ (p : ℕ) (hp : 0 < p) where
  -- A common prefix of whole pages adds its length.
  pub match_keys-shift :
      (u x y : List ℕ)
      → IsWhole p u
      → IsWhole p x
      → match_keys (u ++ x) (u ++ y) p ≡ length u + match_keys x y p
  match_keys-shift u x y (k, e) w =
      let a : Agrees p x y (match_keys x y p) = match_keys-Agrees p hp x y w in
      let long : length (u ++ a.common) ≡ (k + a.pages) * p =
        omega (arith, length-append u a.common, e, a.common_len, a.whole) in
      ap (λ z. match_keys (u ++ z) (u ++ y) p) a.stored_eq
      ∙ ap (λ z. match_keys (u ++ (a.common ++ a.more)) (u ++ z) p) a.query_eq
      ∙ ap (λ z. match_keys z (u ++ (a.common ++ a.other)) p) (sym (append_assoc u a.common a.more))
      ∙ ap (λ z. match_keys ((u ++ a.common) ++ a.more) z p) (sym (append_assoc u a.common a.other))
      ∙ match_keys-append p hp (u ++ a.common) a.more a.other (k + a.pages, long) a.ends
      ∙ omega (arith, length-append u a.common, a.common_len)

  -- A query that leaves a longer key inside its first part leaves it at the same page.
  pub match_keys-inside :
      (key toks t u x y : List ℕ) (k : ℕ)
      → key ≡ u ++ x
      → t ≡ u ++ y
      → length u ≡ k * p
      → p ≤ length x
      → pages_agree x y p ≡ false
      → match_keys (key ++ toks) t p ≡ k * p
  match_keys-inside key toks t u x y k key_eq t_eq len room ends =
      ap (λ z. match_keys (z ++ toks) t p) key_eq
      ∙ ap (λ z. match_keys ((u ++ x) ++ toks) z p) t_eq
      ∙ ap (λ z. match_keys z (u ++ y) p) (append_assoc u x toks)
      ∙ match_keys-append p hp u (x ++ toks) y (k, len) (disagree-append p hp x y toks room ends)
      ∙ len

  -- What was inserted below a node is seen through the node's edge.
  pub edge-merge :
      (slot : List ℕ) (n : RadixNode) (old new : Children) (toks pages t : List ℕ)
      → IsFit p slot n
      → IsWhole p toks
      → ((y : List ℕ)
          → look p new y
            ≡ merge (look p old y) (drop (length n.pages) pages) (match_keys toks y p / p))
      → edge p n t (look p new (drop (match_keys n.key t p) t))
        ≡ merge
            (edge p n t (look p old (drop (match_keys n.key t p) t)))
            pages
            (match_keys (n.key ++ toks) t p / p)
  edge-merge slot n old new toks pages t f w ih = elim (meets p slot n t hp f) [
    | parts u x y k key q len fewer room ends m ↦
        let c : match_keys (n.key ++ toks) t p / p ≡ k =
          ap (λ z. z / p) (match_keys-inside n.key toks t u x y k key q len room ends)
          ∙ div_mul k p hp in
        let here : (rest : List ℕ) → edge p n t rest ≡ take k n.pages =
          λ rest. edge-parts p k slot n t rest hp f fewer m in
        here _
        ∙ sym (merge_short (take k n.pages) pages k (omega (arith, length-take k n.pages)))
        ∙ ap (λ z. merge (take k n.pages) pages z) (sym c)
        ∙ ap (λ z. merge z pages (match_keys (n.key ++ toks) t p / p)) (sym (here _))
    | covers y q m ↦
        let left : drop (match_keys n.key t p) t ≡ y =
          ap (drop (match_keys n.key t p)) q ∙ drop_key n.key y _ m in
        let c : match_keys (n.key ++ toks) t p / p ≡ length n.pages + match_keys toks y p / p =
          ap (λ z. match_keys (n.key ++ toks) z p / p) q
          ∙ ap (λ z. z / p)
              (match_keys-shift n.key toks y (length n.pages, f.aligned) w
                ∙ ap (λ z. z + match_keys toks y p) f.aligned)
          ∙ mul-add-div_right hp (length n.pages) (match_keys toks y p) in
        edge-covers p n t _ m
        ∙ ap (λ z. n.pages ++ look p new z) left
        ∙ ap (◌++◌ n.pages) (ih y)
        ∙ sym (merge-append n.pages (look p old y) pages (match_keys toks y p / p))
        ∙ ap (λ z. merge (n.pages ++ look p old y) pages z) (sym c)
        ∙ ap (λ z. merge (n.pages ++ look p old z) pages (match_keys (n.key ++ toks) t p / p))
            (sym left)
        ∙ ap (λ z. merge z pages (match_keys (n.key ++ toks) t p / p)) (sym (edge-covers p n t _ m))
  ]
