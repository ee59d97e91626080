-- ===== src/Radix/Keys/Laws.antt =====
-- What `match_keys` computes: the longest common prefix of two keys in whole pages.
use cs349d_miniengine_sk_nc.Common.{
  ℕ, zero, suc, ◌+◌, ◌*◌, ◌≤◌, ◌<◌, ◌≡◌, refl, sym, ap, ◌∙◌, List, [], ◌∷◌, ◌++◌, true, false,
  arith, length, take, drop, is_empty, length-append, length-take, length-drop, take-append-drop,
  drop-append, take-append, =ₗ→eq, =ₗ-self, Bool-cases, inl, inr,
}
use mathlib.Core.List.{append_assoc}
use cs349d_miniengine_sk_nc.Radix.Keys.{pages_agree, match_loop, match_keys}

-- A key of whole pages.
abbrev pub IsWhole : ℕ → List ℕ → Type 0
IsWhole p xs = (k : ℕ) × (length xs ≡ k * p)

-- `m` tokens are common to both keys, and the next page differs or one of the keys ends there.
pub record Agrees (p : ℕ) (stored query : List ℕ) (m : ℕ) : Type 0 where
  pub common : List ℕ
  pub more : List ℕ
  pub other : List ℕ
  pub stored_eq : stored ≡ common ++ more
  pub query_eq : query ≡ common ++ other
  pub common_len : length common ≡ m
  pub pages : ℕ
  pub whole : m ≡ pages * p
  pub ends : pages_agree more other p ≡ false

module _ (p : ℕ) (hp : 0 < p) where
  pub whole_head : (xs : List ℕ) → IsWhole p xs → is_empty xs ≡ false → p ≤ length xs
  whole_head [] w h = cc
  whole_head (x ∷ xs) (zero, e) h = absurd (omega (arith, e))
  whole_head (x ∷ xs) (suc k, e) h = omega (arith, e)

  pub IsWhole-drop : (xs : List ℕ) → IsWhole p xs → IsWhole p (drop p xs)
  IsWhole-drop xs (zero, e) = (0, omega (arith, length-drop p xs, e))
  IsWhole-drop xs (suc k, e) = (k, omega (arith, length-drop p xs, e))

  -- When the first pages agree, the two keys share them.
  shared_page :
      (stored query : List ℕ)
      → IsWhole p stored
      → pages_agree stored query p ≡ true
      → (stored ≡ take p stored ++ drop p stored)
        × (query ≡ take p stored ++ drop p query)
        × (length (take p stored) ≡ p)
  unfolding pages_agree
  shared_page [] query w e = cc
  shared_page (x ∷ xs) [] w e = cc
  shared_page (x ∷ xs) (y ∷ ys) w e =
      let same : take p (x ∷ xs) ≡ take p (y ∷ ys) = =ₗ→eq _ _ e in
      (
        sym (take-append-drop p (x ∷ xs)),
        sym (take-append-drop p (y ∷ ys)) ∙ ap (λ t. t ++ drop p (y ∷ ys)) (sym same),
        omega (arith, length-take p (x ∷ xs), whole_head (x ∷ xs) w refl),
      )

  extend :
      (stored query : List ℕ) (m : ℕ)
      → IsWhole p stored
      → pages_agree stored query p ≡ true
      → Agrees p (drop p stored) (drop p query) m
      → Agrees p stored query (p + m)
  extend stored query m w e a =
      let page = shared_page stored query w e in
      record {
        common = take p stored ++ a.common;
        more = a.more;
        other = a.other;
        stored_eq =
            page.0
            ∙ ap (◌++◌ (take p stored)) a.stored_eq
            ∙ sym (append_assoc (take p stored) a.common a.more);
        query_eq =
            page.1
            ∙ ap (◌++◌ (take p stored)) a.query_eq
            ∙ sym (append_assoc (take p stored) a.common a.other);
        common_len = omega (arith, length-append (take p stored) a.common, page.2, a.common_len);
        pages = suc a.pages;
        whole = omega (arith, a.whole);
        ends = a.ends;
      }

  match_loop-Agrees :
      (fuel : ℕ) (stored query : List ℕ)
      → length stored ≤ fuel
      → IsWhole p stored
      → Agrees p stored query (match_loop fuel stored query p)
  unfolding match_loop
  match_loop-Agrees zero [] query h w = record {
    common = [];
    more = [];
    other = query;
    stored_eq = refl;
    query_eq = refl;
    common_len = refl;
    pages = 0;
    whole = omega arith;
    ends = unfold pages_agree in refl;
  }
  match_loop-Agrees zero (x ∷ xs) query h w = absurd (omega arith)
  match_loop-Agrees (suc fuel) stored query h w = elim (Bool-cases (pages_agree stored query p)) [
    | inl e ↦ rw (e) (
        extend stored query _ w e (
          match_loop-Agrees fuel (drop p stored) (drop p query) (shorter e)
            (IsWhole-drop stored w)))
    | inr e ↦ rw (e) (record {
      common = [];
      more = stored;
      other = query;
      stored_eq = refl;
      query_eq = refl;
      common_len = refl;
      pages = 0;
      whole = omega arith;
      ends = e;
    })
  ]
    where
      shorter : pages_agree stored query p ≡ true → length (drop p stored) ≤ fuel
      shorter e = omega (arith, length-drop p stored)

  -- `match_keys` stops at the first page in which the keys differ.
  pub match_keys-Agrees :
      (stored query : List ℕ) → IsWhole p stored → Agrees p stored query (match_keys stored query p)
  unfolding match_keys
  match_keys-Agrees stored query w = match_loop-Agrees (length stored) stored query (omega arith) w

  head_append :
      (k : ℕ) (u x : List ℕ)
      → length u ≡ suc k * p
      → (take p (u ++ x) ≡ take p u) × (drop p (u ++ x) ≡ drop p u ++ x)
  head_append k u x e = (take-append p u x (omega (arith, e)), drop-append p u x (omega (arith, e)))

  agree_append :
      (k : ℕ) (u x y : List ℕ) → length u ≡ suc k * p → pages_agree (u ++ x) (u ++ y) p ≡ true
  unfolding pages_agree
  agree_append k [] x y e = absurd (omega (arith, e))
  agree_append k (a ∷ u) x y e =
      rw ((head_append k (a ∷ u) x e).0)
        (rw ((head_append k (a ∷ u) y e).0) (=ₗ-self (take p (a ∷ u))))

  match_loop-append :
      (k fuel : ℕ) (u x y : List ℕ)
      → length u ≡ k * p
      → length (u ++ x) ≤ fuel
      → pages_agree x y p ≡ false
      → match_loop fuel (u ++ x) (u ++ y) p ≡ length u
  unfolding match_loop
  match_loop-append zero zero [] x y e h d = refl
  match_loop-append zero (suc fuel) [] x y e h d = rw d
  match_loop-append zero fuel (a ∷ u) x y e h d = absurd (omega (arith, e))
  match_loop-append (suc k) zero u x y e h d = absurd (omega (arith, e, length-append u x))
  match_loop-append (suc k) (suc fuel) u x y e h d =
      rw (agree_append k u x y e, (head_append k u x e).1, (head_append k u y e).1)
        (omega (
          arith,
          length-drop p u,
          match_loop-append k fuel (drop p u) x y (omega (arith, length-drop p u, e))
              (omega (arith, length-drop p u, length-append (drop p u) x, length-append u x, e)) d,
        ))

  -- The converse: a common prefix of whole pages behind which the keys differ is what it finds.
  pub match_keys-append :
      (u x y : List ℕ)
      → IsWhole p u
      → pages_agree x y p ≡ false
      → match_keys (u ++ x) (u ++ y) p ≡ length u
  unfolding match_keys
  match_keys-append u x y (k, e) d = match_loop-append k _ u x y e (omega arith) d

  pub disagree-append :
      (x y z : List ℕ) → p ≤ length x → pages_agree x y p ≡ false → pages_agree (x ++ z) y p ≡ false
  unfolding pages_agree
  disagree-append [] y z h d = absurd (omega (arith, h))
  disagree-append (a ∷ x) y z h d = rw (take-append p (a ∷ x) z h) d
