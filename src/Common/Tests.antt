-- ===== src/Common/Tests.antt =====
-- Boolean tests on the native numbers and on token lists, and the conditional.
use Prim.Native.Nat.{ℕ, ◌≤◌, ◌<◌, compare, Ordering}
use mathlib.Core.Path.{◌≡◌, refl}
use mathlib.Core.Logic.{◌↔◌, ◌⊎◌, inl, inr}
use mathlib.Core.Bool.{Bool, true, false, ◌&&◌}
use mathlib.Core.Option.{Option, none, some}
use mathlib.Core.List.{List, [], ◌∷◌}
use native.Mathlib.Omega.{arith}

abbrev pub ltb : ℕ → ℕ → Bool
ltb a b = elim (compare a b) [ Ordering.lt ↦ true | _ ↦ false ]

abbrev pub leb : ℕ → ℕ → Bool
leb a b = elim (compare a b) [ Ordering.gt ↦ false | _ ↦ true ]

infix 50 ◌==◌
abbrev pub ◌==◌ : ℕ → ℕ → Bool
a == b = elim (compare a b) [ Ordering.eq ↦ true | _ ↦ false ]

infix 1 if◌then◌else◌
abbrev pub if◌then◌else◌ {ℓ} : {A : Type ℓ} → Bool → A → A → A
if true then x else y = x
if false then x else y = y

pub ltb→lt : (a b : ℕ) → ltb a b ≡ true → a < b
ltb→lt a b h = ground arith

pub ltb→le : (a b : ℕ) → ltb a b ≡ false → b ≤ a
ltb→le a b h = ground arith

pub lt→ltb : (a b : ℕ) → a < b → ltb a b ≡ true
lt→ltb a b h = ground arith

pub le→ltb : (a b : ℕ) → b ≤ a → ltb a b ≡ false
le→ltb a b h = ground arith

pub ==_iff : (a b : ℕ) → ((a == b) ≡ true) ↔ (a ≡ b)
==_iff a b = ground arith

pub ==_self : (a : ℕ) → (a == a) ≡ true
==_self a = ground arith

pub ruleset tests = (arith, ltb→lt, ltb→le, lt→ltb, le→ltb)

-- Equality of two token lists, `==` on Python lists and tuples of integers.
infix 50 ◌=ₗ◌
unfoldable pub ◌=ₗ◌ : List ℕ → List ℕ → Bool
[] =ₗ [] = true
[] =ₗ (b ∷ bs) = false
(a ∷ as') =ₗ [] = false
(a ∷ as') =ₗ (b ∷ bs) = a == b && as' =ₗ bs

pub =ₗ→eq : (a b : List ℕ) → (a =ₗ b) ≡ true → a ≡ b
unfolding ◌=ₗ◌
=ₗ→eq [] [] h = refl
=ₗ→eq [] (b ∷ bs) h = cc
=ₗ→eq (a ∷ as') [] h = cc
=ₗ→eq (a ∷ as') (b ∷ bs) h = ground (arith, =ₗ→eq as' bs)

pub =ₗ-self : (a : List ℕ) → (a =ₗ a) ≡ true
unfolding ◌=ₗ◌
=ₗ-self [] = refl
=ₗ-self (a ∷ as') = ground (arith, =ₗ-self as', ==_self a)

-- To split on a computed value and keep the equation.
pub Bool-cases : (b : Bool) → (b ≡ true) ⊎ (b ≡ false)
Bool-cases true = inl refl
Bool-cases false = inr refl

pub Option-cases {ℓ} : {A : Type ℓ} (o : Option A) → (o ≡ none) ⊎ ((a : A) × (o ≡ some a))
Option-cases none = inl refl
Option-cases (some a) = inr (a, refl)
