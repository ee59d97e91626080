-- ===== src/Radix/Insert/Fits.antt =====
-- The nodes of an insertion fit their places: both halves of a split, and new leaves.
use cs349d_miniengine_sk_nc.Common.{
  ℕ, zero, suc, ◌+◌, ◌*◌, ◌-◌, ◌/◌, ◌<◌, ◌≤◌, ◌≡◌, refl, List, [], ◌∷◌, ◌++◌, length, take, drop,
  arith, sym, ap, ◌∙◌, true, false, is_empty, length-take, length-drop, ◌=ₗ◌, ◌==◌, =ₗ-self,
}
use cs349d_miniengine_sk_nc.Radix.Node.{RadixNode}
use cs349d_miniengine_sk_nc.Radix.Keys.{pages_agree, child_key}
use cs349d_miniengine_sk_nc.Radix.WellFormed.{IsFit}
use cs349d_miniengine_sk_nc.Radix.Look.Merge.{div_mul, take-take, mul_room}
use cs349d_miniengine_sk_nc.Radix.Insert.{split_upper, split_lower}
use cs349d_miniengine_sk_nc.Radix.Insert.Steps.{touched}

pub sub_mul : (a b p : ℕ) → b ≤ a → (a - b) * p + b * p ≡ a * p
sub_mul a b p h = grind arith

pub pos_of_mul : (r p n : ℕ) → suc n ≡ r * p → 0 < r
pos_of_mul zero p n h = absurd (omega (arith, h))
pos_of_mul (suc r) p n h = omega arith

pub mul_pos : (k p : ℕ) → 0 < k → p ≤ k * p
mul_pos k p h = grind arith

-- Two keys that stand under one slot share their first page.
pub first_page :
    (p : ℕ) (slot key tokens : List ℕ)
    → slot ≡ take p key
    → slot ≡ take p tokens
    → is_empty key ≡ false
    → is_empty tokens ≡ false
    → pages_agree key tokens p ≡ true
unfolding pages_agree
first_page p slot key tokens a b c d =
    rw (c, d) (ap (λ z. take p key =ₗ z) (sym b ∙ a) ∙ =ₗ-self (take p key))

pub positive :
    (p k : ℕ) (u x y key tokens : List ℕ)
    → key ≡ u ++ x
    → tokens ≡ u ++ y
    → length u ≡ k * p
    → pages_agree x y p ≡ false
    → pages_agree key tokens p ≡ true
    → 0 < k
positive p zero [] x y key tokens a b len apart shared =
    let same : pages_agree key tokens p ≡ pages_agree x y p =
      ap (λ z. pages_agree z tokens p) a ∙ ap (λ z. pages_agree x z p) b in
    cc
positive p zero (c ∷ u) x y key tokens a b len apart shared = absurd (omega (arith, len))
positive p (suc k) u x y key tokens a b len apart shared = omega arith

pub touched-IsFit :
    (p now : ℕ) (slot : List ℕ) (n : RadixNode) → IsFit p slot n → IsFit p slot (touched now n)
touched-IsFit p now slot n f = record {
  aligned = f.aligned;
  some_pages = f.some_pages;
  slotted = f.slotted;
}

pub has_key : (key : List ℕ) → 0 < length key → is_empty key ≡ false
has_key [] h = absurd (omega (arith, h))
has_key (a ∷ key) h = refl

pub nonzero : (n : ℕ) → 0 < n → (n == 0) ≡ false
nonzero n h = ground arith

-- The two halves of a split fit their places.
module _ (p fresh k : ℕ) (hp : 0 < p) (slot : List ℕ) (n : RadixNode) (f : IsFit p slot n)
    (pos : 0 < k) (fewer : k < length n.pages) where
  room_left : k * p ≤ length n.key
  room_left = omega (arith, f.aligned, mul_room k (length n.pages) p fewer)

  pub upper-IsFit : IsFit p slot (split_upper p fresh (k * p) n)
  unfolding split_upper
  upper-IsFit =
      let pages_len : length (take ((k * p) / p) n.pages) ≡ k =
        ap (λ z. length (take z n.pages)) (div_mul k p hp) ∙ omega (arith, length-take k n.pages) in
      record {
        aligned =
            omega (arith, length-take (k * p) n.key, room_left) ∙ ap (λ z. z * p) (sym pages_len);
        some_pages = omega (arith, pages_len);
        slotted = f.slotted ∙ sym (take-take p (k * p) n.key (mul_pos k p pos));
      }

  pub lower-IsFit : IsFit p (child_key (split_lower p (k * p) n).key p) (split_lower p (k * p) n)
  unfolding split_lower child_key
  lower-IsFit =
      let pages_len : length (drop ((k * p) / p) n.pages) ≡ length n.pages - k =
        ap (λ z. length (drop z n.pages)) (div_mul k p hp) ∙ length-drop k n.pages in
      record {
        aligned =
            omega (
              arith,
              length-drop (k * p) n.key,
              f.aligned,
              sub_mul (length n.pages) k p (omega arith),
            )
            ∙ ap (λ z. z * p) (sym pages_len);
        some_pages = omega (arith, pages_len);
        slotted = refl;
      }
