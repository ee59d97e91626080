-- ===== src/Radix/Look.antt =====
-- A reference definition of the lookup, by recursion on the tree, and how it sees a changed dict.
pub mod Merge
pub mod Grow
pub mod Split
use cs349d_miniengine_sk_nc.Common.{
  ℕ, ◌/◌, ◌≡◌, refl, List, [], ◌++◌, none, some, length, take, drop, ◌=ₗ◌, =ₗ→eq, =ₗ-self, arith,
  if◌then◌else◌, true, Bool, is_empty, ltb, ◌&&◌, not,
}
use cs349d_miniengine_sk_nc.Radix.Node.{RadixNode, Children, empty, entry, get_child, put_child}
use cs349d_miniengine_sk_nc.Radix.Keys.{match_keys}

-- The pages that an edge gives to a query that shares its first page.
unfoldable pub edge : ℕ → RadixNode → List ℕ → List ℕ → List ℕ
edge p n t rest =
    if ltb (match_keys n.key t p) (length n.key)
    then take (match_keys n.key t p / p) n.pages
    else n.pages ++ rest

unfoldable pub shares : ℕ → List ℕ → List ℕ → Bool
shares p s t = not (is_empty t) && s =ₗ take p t

unfoldable pub look : ℕ → Children → List ℕ → List ℕ
look p empty t = []
look p (entry slot n below rest) t =
    let hit = edge p n t (look p below (drop (match_keys n.key t p) t)) in
    if shares p slot t then hit else look p rest t

pub look_hit :
    (p : ℕ) (s : List ℕ) (cs : Children) (n : RadixNode) (sub : Children) (t : List ℕ)
    → get_child s cs ≡ some (n, sub)
    → shares p s t ≡ true
    → look p cs t ≡ edge p n t (look p sub (drop (match_keys n.key t p) t))
unfolding get_child look shares
look_hit p s empty n sub t e h = cc
look_hit p s (entry slot node below rest) n sub t e h = ground (
  arith,
  look_hit p s rest n sub t,
  =ₗ→eq slot s,
  =ₗ→eq s (take p t),
  =ₗ→eq slot (take p t),
  =ₗ-self slot,
)

pub look_miss :
    (p : ℕ) (s : List ℕ) (cs : Children) (t : List ℕ)
    → get_child s cs ≡ none
    → s ≡ take p t
    → look p cs t ≡ []
unfolding get_child look shares
look_miss p s empty t e h = refl
look_miss p s (entry slot node below rest) t e h =
    ground (arith, look_miss p s rest t, =ₗ→eq slot s, =ₗ→eq slot (take p t), =ₗ-self slot)

pub look_nil : (p : ℕ) (cs : Children) → look p cs [] ≡ []
unfolding look shares
look_nil p empty = refl
look_nil p (entry slot node below rest) = look_nil p rest

pub look-put_child :
    (p : ℕ) (s : List ℕ) (n : RadixNode) (sub cs : Children) (t : List ℕ)
    → look p (put_child s n sub cs) t ≡ (
        if shares p s t
        then edge p n t (look p sub (drop (match_keys n.key t p) t))
        else look p cs t)
unfolding put_child look shares
look-put_child p s n sub empty t = refl
look-put_child p s n sub (entry slot node below rest) t = ground (
  arith,
  look-put_child p s n sub rest t,
  =ₗ→eq slot s,
  =ₗ→eq slot (take p t),
  =ₗ→eq s (take p t),
  =ₗ-self slot,
)

pub shares→eq : (p : ℕ) (s t : List ℕ) → shares p s t ≡ true → s ≡ take p t
unfolding shares
shares→eq p s t h = ground (arith, =ₗ→eq s (take p t))
