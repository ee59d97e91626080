-- ===== src/Radix/Insert/Lookup.antt =====
-- What an insertion does to later lookups, and that it keeps the shape of the tree.
use mathlib.Core.List.{append-nil}
use cs349d_miniengine_sk_nc.Common.{
  ℕ, ◌*◌, ◌/◌, ◌<◌, ◌≤◌, ◌≡◌, refl, List, [], ◌++◌, none, length, take, drop, arith, Bool-cases,
  inl, inr, sym, ap, ◌∙◌, true, false, length-append, length-take, take_all,
}
use cs349d_miniengine_sk_nc.Radix.Node.{RadixNode, Children, empty, get_child, put_child}
use cs349d_miniengine_sk_nc.Radix.Keys.{match_keys}
use cs349d_miniengine_sk_nc.Radix.Keys.Laws.{IsWhole, Agrees, match_keys-Agrees, match_keys-append}
use cs349d_miniengine_sk_nc.Radix.WellFormed.{IsFit, IsWf, put_child-IsWf}
use cs349d_miniengine_sk_nc.Radix.Look.{edge, look, shares, look_miss, look-put_child, shares→eq}
use cs349d_miniengine_sk_nc.Radix.Look.Merge.{
  merge, merge_short, parts, covers, meets, edge-parts, edge-covers, div_mul, take-take,
}
use cs349d_miniengine_sk_nc.Radix.Look.Grow.{edge-merge}
use cs349d_miniengine_sk_nc.Radix.Look.Split.{differ}
use cs349d_miniengine_sk_nc.Radix.Insert.{make_child, new_node}

-- The tree after an insertion of `tokens` with `pages`, against the tree before.
pub record Grew (p : ℕ) (before after : Children) (tokens pages : List ℕ) : Type 0 where
  pub wf : IsWf p after
  pub looks :
      (t : List ℕ) → look p after t ≡ merge (look p before t) pages (match_keys tokens t p / p)

pub le_of_mul : (a b p : ℕ) → 0 < p → a * p ≤ b * p → a ≤ b
le_of_mul a b p hp h = grind arith

-- A query that does not share the first page of the inserted tokens.
pub no_match :
    (p : ℕ)
    → 0 < p
    → (tokens t : List ℕ) → shares p (take p tokens) t ≡ false
    → match_keys tokens t p / p ≡ 0
no_match p hp tokens t h =
    ap (λ z. z / p)
      (match_keys-append p hp [] tokens t (0, omega arith)
        (differ p (take p tokens) tokens t refl h))
    ∙ omega arith

-- An edge below which nothing stands gives its own pages only.
edge-leaf :
    (p : ℕ) (slot : List ℕ) (n : RadixNode) (t : List ℕ)
    → 0 < p
    → IsFit p slot n
    → edge p n t [] ≡ take (match_keys n.key t p / p) n.pages
edge-leaf p slot n t hp f = elim (meets p slot n t hp f) [
  | parts u x y k key q len fewer room ends m ↦
      edge-parts p k slot n t [] hp f fewer m
      ∙ ap (λ z. take z n.pages) (sym (ap (λ z. z / p) m ∙ div_mul k p hp))
  | covers y q m ↦
      let c : match_keys n.key t p / p ≡ length n.pages =
        ap (λ z. z / p) (m ∙ f.aligned) ∙ div_mul (length n.pages) p hp in
      edge-covers p n t [] m
      ∙ append-nil n.pages
      ∙ sym (ap (λ z. take z n.pages) c ∙ take_all (length n.pages) n.pages (omega arith))
]

module _ (p now made : ℕ) (hp : 0 < p) where
  pub leaf-Grew :
      (fresh room : ℕ) (tokens pages : List ℕ) (cs : Children)
      → IsWf p cs
      → 0 < room
      → length tokens ≡ room * p
      → room ≤ length pages
      → get_child (take p tokens) cs ≡ none
      → Grew p cs
          (make_child made fresh (take p tokens) tokens (take room pages) cs).children
          tokens
          pages
  unfolding make_child look
  leaf-Grew fresh room tokens pages cs w pos len enough e = record {
    wf = put_child-IsWf p _ _ empty cs fit tt w;
    looks = λ t.
        look-put_child p (take p tokens) leaf empty cs t
        ∙ elim (Bool-cases (shares p (take p tokens) t)) [
          | inl hit ↦ rw hit (
              edge-leaf p (take p tokens) leaf t hp fit
              ∙ take-take (match_keys tokens t p / p) room pages (within t)
              ∙ ap (λ z. merge z pages (match_keys tokens t p / p))
                  (sym (look_miss p (take p tokens) cs t e (shares→eq p (take p tokens) t hit))))
          | inr miss ↦ rw miss (
              sym (
                ap (merge (look p cs t) pages) (no_match p hp tokens t miss)
                ∙ merge_short (look p cs t) pages 0 (omega arith)))
        ];
  }
    where
      leaf : RadixNode
      leaf = new_node fresh made tokens (take room pages)

      stored : length (take room pages) ≡ room
      stored = omega (arith, length-take room pages)

      fit : IsFit p (take p tokens) leaf
      fit = record {
        aligned = len ∙ ap (λ z. z * p) (sym stored);
        some_pages = omega (arith, stored);
        slotted = refl;
      }

      within : (t : List ℕ) → match_keys tokens t p / p ≤ room
      within t =
          let a : Agrees p tokens t (match_keys tokens t p) =
            match_keys-Agrees p hp tokens t (room, len) in
          omega (
            arith,
            ap (λ z. z / p) a.whole ∙ div_mul a.pages p hp,
            le_of_mul a.pages room p hp (
                omega (
                  arith,
                  a.whole,
                  a.common_len,
                  len,
                  ap length a.stored_eq,
                  length-append a.common a.more,
                )),
          )

-- An insertion below the node of a slot, seen from the dict that holds the slot.
pub through-Grew :
    (p : ℕ) (hp : 0 < p) (slot : List ℕ) (n : RadixNode) (below after cs : Children)
    (tokens rest pages : List ℕ)
    → IsFit p slot n
    → IsWf p cs
    → slot ≡ take p tokens
    → tokens ≡ n.key ++ rest
    → IsWhole p rest
    → Grew p below after rest (drop (length n.pages) pages)
    → ((t : List ℕ)
        → shares p slot t ≡ true
        → look p cs t ≡ edge p n t (look p below (drop (match_keys n.key t p) t)))
    → Grew p cs (put_child slot n after cs) tokens pages
through-Grew p hp slot n below after cs tokens rest pages f w slot_eq tokens_eq whole g old =
    record {
      wf = put_child-IsWf p slot n after cs f g.wf w;
      looks = λ t. look-put_child p slot n after cs t ∙ elim (Bool-cases (shares p slot t)) [
        | inl hit ↦ rw hit (
            edge-merge p hp slot n below after rest pages t f whole g.looks
            ∙ ap
                (λ z.
                  merge (edge p n t (look p below (drop (match_keys n.key t p) t))) pages
                    (match_keys z t p / p))
                (sym tokens_eq)
            ∙ ap (λ z. merge z pages (match_keys tokens t p / p)) (sym (old t hit)))
        | inr miss ↦ rw miss (
            sym (
              ap (merge (look p cs t) pages)
                (no_match p hp tokens t (ap (λ z. shares p z t) (sym slot_eq) ∙ miss))
              ∙ merge_short (look p cs t) pages 0 (omega arith)))
      ];
    }
