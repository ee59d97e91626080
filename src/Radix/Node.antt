-- ===== src/Radix/Node.antt =====
-- The nodes of the tree. A node's `children` dict is the list of its entries in insertion order;
-- a node's `parent` is its place in the tree, and `id` stands for the identity of the object.
pub mod Dict
use cs349d_miniengine_sk_nc.Common.{
  ℕ, ℤ, List, [], ◌∷◌, ◌++◌, Bool, true, false, Option, none, some, ◌=ₗ◌, if◌then◌else◌,
}

-- hicache.py's storage tier of a node; a node of the plain tree has none and reads as `gpu`.
pub data CacheTier : Type 0 where
  gpu cpu : CacheTier

pub record RadixNode : Type 0 where
  pub id : ℕ
  pub key : List ℕ
  pub pages : List ℕ
  pub ref_count : ℤ
  pub last_access : ℕ
  pub tier : CacheTier

pub data Children : Type 0 where
  empty : Children
  entry : (slot : List ℕ) (node : RadixNode) (below rest : Children) → Children

-- `not node.children`.
abbrev pub has_none : Children → Bool
has_none empty = true
has_none (entry slot node below rest) = false

-- `children.get(slot)`.
unfoldable pub get_child : List ℕ → Children → Option (RadixNode × Children)
get_child s empty = none
get_child s (entry slot node below rest) =
    if slot =ₗ s then some (node, below) else get_child s rest

-- `children[slot] = node`: in place, or at the end.
unfoldable pub put_child : List ℕ → RadixNode → Children → Children → Children
put_child s n sub empty = entry s n sub empty
put_child s n sub (entry slot node below rest) =
    if slot =ₗ s then entry slot n sub rest else entry slot node below (put_child s n sub rest)

-- All the pages that the nodes hold, and all the identities.
unfoldable pub pages_of : Children → List ℕ
pages_of empty = []
pages_of (entry slot node below rest) = node.pages ++ (pages_of below ++ pages_of rest)

unfoldable pub ids_of : Children → List ℕ
ids_of empty = []
ids_of (entry slot node below rest) = node.id ∷ (ids_of below ++ ids_of rest)
