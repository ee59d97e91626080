-- ===== src/Radix/Look/Merge.antt =====
-- Old pages continued by new ones from where the old ones end, and how an edge of the tree
-- carries that on.
use mathlib.Core.Path.{◌≡⟨◌⟩◌, ◌∎}
use native.Mathlib.Nat.{mul-div_cancel}
use mathlib.Core.List.{append-nil, append_assoc}
use cs349d_miniengine_sk_nc.Common.{
  ℕ, zero, suc, ◌+◌, ◌*◌, ◌/◌, ◌<◌, ◌≤◌, ◌≡◌, refl, List, [], ◌∷◌, ◌++◌, length, take, drop, arith,
  sym, ap, ◌∙◌, false, lt→ltb, le→ltb, length-append, length-take, drop_all, drop-drop,
}
use cs349d_miniengine_sk_nc.Radix.Node.{RadixNode}
use cs349d_miniengine_sk_nc.Radix.Keys.{match_keys, pages_agree}
use cs349d_miniengine_sk_nc.Radix.Keys.Laws.{Agrees, match_keys-Agrees}
use cs349d_miniengine_sk_nc.Radix.WellFormed.{IsFit}
use cs349d_miniengine_sk_nc.Radix.Look.{edge}

abbrev pub merge : List ℕ → List ℕ → ℕ → List ℕ
merge old new c = old ++ drop (length old) (take c new)

pub merge_short : (old new : List ℕ) (c : ℕ) → c ≤ length old → merge old new c ≡ old
merge_short old new c h =
    ap (◌++◌ old) (drop_all (length old) (take c new) (omega (arith, length-take c new)))
    ∙ append-nil old

pub take_nil : (n : ℕ) → ◌≡◌ {A = List ℕ} (take n []) []
take_nil zero = refl
take_nil (suc n) = refl

pub drop-take : (m n : ℕ) (xs : List ℕ) → drop m (take (m + n) xs) ≡ take n (drop m xs)
drop-take zero n xs = ap (λ k. take k xs) (omega arith)
drop-take (suc m) n [] = rw (take_nil (suc m + n), take_nil n) refl
drop-take (suc m) n (x ∷ xs) =
    let e : suc m + n ≡ suc (m + n) = omega arith in rw e (drop-take m n xs)

pub take_add : (m n : ℕ) (xs : List ℕ) → take m xs ++ take n (drop m xs) ≡ take (m + n) xs
take_add zero n xs = ap (λ k. take k xs) (omega arith)
take_add (suc m) n [] = rw (take_nil (suc m + n), take_nil n) refl
take_add (suc m) n (x ∷ xs) =
    let e : suc m + n ≡ suc (m + n) = omega arith in rw e (ap (◌∷◌ x) (take_add m n xs))

pub take-take : (m n : ℕ) (xs : List ℕ) → m ≤ n → take m (take n xs) ≡ take m xs
take-take zero n xs h = refl
take-take (suc m) zero xs h = absurd (omega arith)
take-take (suc m) (suc n) [] h = refl
take-take (suc m) (suc n) (x ∷ xs) h = ap (◌∷◌ x) (take-take m n xs (omega arith))

pub merge-append :
    (a old new : List ℕ) (c : ℕ)
    → merge (a ++ old) new (length a + c) ≡ a ++ merge old (drop (length a) new) c
merge-append a old new c =
    (a ++ old) ++ drop (length (a ++ old)) (take (length a + c) new)
    ≡⟨ ap (λ k. (a ++ old) ++ drop k (take (length a + c) new)) (length-append a old) ⟩
      (a ++ old) ++ drop (length a + length old) (take (length a + c) new)
    ≡⟨ ap (◌++◌ (a ++ old)) (sym (drop-drop (length a) (length old) (take (length a + c) new))) ⟩
      (a ++ old) ++ drop (length old) (drop (length a) (take (length a + c) new))
    ≡⟨ ap (λ t. (a ++ old) ++ drop (length old) t) (drop-take (length a) c new) ⟩
      (a ++ old) ++ drop (length old) (take c (drop (length a) new))
    ≡⟨ append_assoc a old _ ⟩ a ++ merge old (drop (length a) new) c ∎

pub div_mul : (k p : ℕ) → 0 < p → (k * p) / p ≡ k
div_mul k p h = mul-div_cancel k h

-- How a query stands to the key of a node that fits it.
pub data Meets (p : ℕ) (n : RadixNode) (t : List ℕ) : Type 0 where
  parts :
      (u x y : List ℕ) (k : ℕ)
      → n.key ≡ u ++ x
      → t ≡ u ++ y
      → length u ≡ k * p
      → k < length n.pages
      → p ≤ length x
      → pages_agree x y p ≡ false
      → match_keys n.key t p ≡ k * p
      → Meets p n t
  covers : (y : List ℕ) → t ≡ n.key ++ y → match_keys n.key t p ≡ length n.key → Meets p n t

lt_of_mul : (k q p : ℕ) → k * p < q * p → k < q
lt_of_mul k q p h = grind arith

pub mul_room : (k q p : ℕ) → k < q → k * p + p ≤ q * p
mul_room k q p h = grind arith

module _ (p : ℕ) (slot : List ℕ) (n : RadixNode) (t : List ℕ) (hp : 0 < p) (f : IsFit p slot n)
    (a : Agrees p n.key t (match_keys n.key t p)) where
  key_length : length a.common + length a.more ≡ length n.pages * p
  key_length = omega (arith, length-append a.common a.more, ap length a.stored_eq, f.aligned)

  met : (more : List ℕ) → a.more ≡ more → Meets p n t
  met [] e =
      let key : n.key ≡ a.common = a.stored_eq ∙ ap (◌++◌ a.common) e ∙ append-nil a.common in
      covers a.other (a.query_eq ∙ ap (λ c. c ++ a.other) (sym key))
        (omega (arith, a.common_len, ap length key))
  met (z ∷ more) e =
      let common : length a.common ≡ a.pages * p = omega (arith, a.common_len, a.whole) in
      let fewer : a.pages < length n.pages =
        lt_of_mul a.pages (length n.pages) p (omega (arith, common, key_length, ap length e)) in
      parts a.common a.more a.other a.pages a.stored_eq a.query_eq common fewer
        (omega (arith, mul_room a.pages (length n.pages) p fewer, key_length, common)) a.ends
        a.whole

pub meets :
    (p : ℕ) (slot : List ℕ) (n : RadixNode) (t : List ℕ) → 0 < p → IsFit p slot n → Meets p n t
meets p slot n t hp f =
    let a : Agrees p n.key t (match_keys n.key t p) =
      match_keys-Agrees p hp n.key t (length n.pages, f.aligned) in
    met p slot n t hp f a a.more refl

-- An edge at a query that leaves it after `k` pages, and at one that runs through it.
pub edge-parts :
    (p k : ℕ) (slot : List ℕ) (n : RadixNode) (t rest : List ℕ)
    → 0 < p
    → IsFit p slot n
    → k < length n.pages
    → match_keys n.key t p ≡ k * p
    → edge p n t rest ≡ take k n.pages
unfolding edge
edge-parts p k slot n t rest hp f h e =
    rw
      (
        e,
        lt→ltb (k * p) (length n.key) (omega (arith, mul_room k (length n.pages) p h, f.aligned)),
        div_mul k p hp,
      )
      refl

pub edge-covers :
    (p : ℕ) (n : RadixNode) (t rest : List ℕ)
    → match_keys n.key t p ≡ length n.key
    → edge p n t rest ≡ n.pages ++ rest
unfolding edge
edge-covers p n t rest e = rw (e, le→ltb (length n.key) (length n.key) (omega arith)) refl
