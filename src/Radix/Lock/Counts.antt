-- ===== src/Radix/Lock/Counts.antt =====
-- The locks that requests hold, and the reference counts that stand for them.
use cs349d_miniengine_sk_nc.Common.{
  ℤ, ℕ, ◌+◌, ◌≡◌, sym, ap, ◌∙◌, List, [], ◌∷◌, ◌++◌, pos, true, is_zero, count, arith,
}
use cs349d_miniengine_sk_nc.Radix.Node.{Children, empty, entry, ids_of}
use cs349d_miniengine_sk_nc.Radix.Evict.Guarded.{AllUnlocked, IsGuarded}

-- How many of the locks are on one of the nodes.
unfoldable pub locks_on : List ℕ → List ℕ → ℕ
locks_on locks [] = 0
locks_on locks (i ∷ ids) = count i locks + locks_on locks ids

-- Every node counts the locks on itself and on the nodes below it.
abbrev pub LockedBy : List ℕ → Children → Type 0
LockedBy locks empty = Unit {0}
LockedBy locks (entry slot node below rest) =
    (node.ref_count ≡ pos (locks_on locks (node.id ∷ ids_of below)))
    × LockedBy locks below
    × LockedBy locks rest

pub locks_on-append :
    (locks is js : List ℕ) → locks_on locks (is ++ js) ≡ locks_on locks is + locks_on locks js
unfolding locks_on
locks_on-append locks [] js = omega arith
locks_on-append locks (i ∷ is) js = omega (arith, locks_on-append locks is js)

-- One lock more counts at each node that it is on.
pub locks_on-cons :
    (j : ℕ) (locks ids : List ℕ) → locks_on (j ∷ locks) ids ≡ count j ids + locks_on locks ids
unfolding locks_on count
locks_on-cons j locks [] = omega arith
locks_on-cons j locks (i ∷ ids) = ground (arith, locks_on-cons j locks ids)

no_count : (z : ℤ) (n : ℕ) → z ≡ pos n → n ≡ 0 → is_zero z ≡ true
unfolding is_zero
no_count z n e q = ground arith

none_unlocked :
    (locks : List ℕ) (cs : Children)
    → LockedBy locks cs
    → locks_on locks (ids_of cs) ≡ 0
    → AllUnlocked cs
unfolding locks_on ids_of is_zero
none_unlocked locks empty h e = tt
none_unlocked locks (entry slot node below rest) h e =
    let sums = locks_on-append locks (ids_of below) (ids_of rest) in
    (
      no_count node.ref_count _ h.0 (omega (arith, e, sums)),
      none_unlocked locks below h.1 (omega (arith, e, sums)),
      none_unlocked locks rest h.2 (omega (arith, e, sums)),
    )

zero_locks : (n : ℕ) → is_zero (pos n) ≡ true → n ≡ 0
unfolding is_zero
zero_locks n h = ground arith

-- So an unlocked node has no locked node below it.
pub LockedBy-IsGuarded : (locks : List ℕ) (cs : Children) → LockedBy locks cs → IsGuarded cs
unfolding locks_on
LockedBy-IsGuarded locks empty h = tt
LockedBy-IsGuarded locks (entry slot node below rest) h = (
  (λ z. none_unlocked locks below h.1 (
      omega
        (arith, zero_locks (locks_on locks (node.id ∷ ids_of below)) (ap is_zero (sym h.0) ∙ z)))),
  LockedBy-IsGuarded locks below h.1,
  LockedBy-IsGuarded locks rest h.2,
)
