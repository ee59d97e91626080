-- ===== src/Radix/Lock.antt =====
-- `inc_lock_ref` and `dec_lock_ref`: walks from a node up to the root.
pub mod Counts
pub mod Held
pub mod Paths
pub mod Inserted
pub mod Serving
pub mod Looks
use cs349d_miniengine_sk_nc.Common.{ℕ, Option, none, some, ◌==◌, if◌then◌else◌, incr, decr}
use cs349d_miniengine_sk_nc.Radix.Node.{RadixNode, Children, empty, entry}
use cs349d_miniengine_sk_nc.Radix.Cache.{RadixCache, root_id}

-- Changes the node `i` and all nodes above it; `none` if it is not in the tree.
unfoldable pub on_path : (RadixNode → RadixNode) → ℕ → Children → Option Children
on_path change i empty = none
on_path change i (entry slot node below rest) =
    let in_below = on_path change i below in
    let in_rest = on_path change i rest in
    if node.id == i then some (entry slot (change node) below rest) else elim in_below [
      | some below' ↦ some (entry slot (change node) below' rest)
      | none ↦ elim in_rest [ some rest' ↦ some (entry slot node below rest') | none ↦ none ]
    ]

abbrev pub lock : RadixNode → RadixNode
lock node = record node { ref_count = incr node.ref_count }

abbrev pub unlock : ℕ → RadixNode → RadixNode
unlock now node = record node { ref_count = decr node.ref_count; last_access = now }

abbrev pub or_same : Children → Option Children → Children
or_same cs none = cs
or_same cs (some cs') = cs'

-- The walk from a node of the tree or from the root. From a node outside of it, where the model does
-- nothing, the program follows the pointers that the node still has; a locked node is in the tree,
-- as only unlocked ones are evicted, unless `reset` is called while requests hold locks.
pub walk_up : (RadixNode → RadixNode) → RadixCache → Option ℕ → RadixCache
walk_up change cache none = cache
walk_up change cache (some i) =
    if i == root_id
    then cache
    else record cache { children = or_same cache.children (on_path change i cache.children) }

pub inc_lock_ref : RadixCache → Option ℕ → RadixCache
unfolding walk_up
inc_lock_ref = walk_up lock

pub dec_lock_ref : ℕ → RadixCache → Option ℕ → RadixCache
unfolding walk_up
dec_lock_ref now = walk_up (unlock now)
