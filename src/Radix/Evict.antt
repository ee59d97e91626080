-- ===== src/Radix/Evict.antt =====
-- `evict`, the LRU sweep over unlocked leaves, and `num_evictable_pages`.
pub mod Places
pub mod Leaves
pub mod Heap
pub mod Push
pub mod Drop
pub mod Sweeps
pub mod Guarded
pub mod Contract
pub mod Unlocked
use cs349d_miniengine_sk_nc.Common.{
  ℕ, zero, suc, ◌+◌, ◌-◌, List, [], ◌∷◌, ◌++◌, Option, none, some, Bool, not, ◌&&◌, ◌||◌, ltb, ◌==◌,
  ◌=ₗ◌, is_empty, length, if◌then◌else◌, is_pos, is_zero,
}
use cs349d_miniengine_sk_nc.Pool.{KvMemoryPool, free}
use cs349d_miniengine_sk_nc.Radix.Node.{RadixNode, Children, empty, entry, has_none, ids_of}
use cs349d_miniengine_sk_nc.Radix.Keys.{child_key}
use cs349d_miniengine_sk_nc.Radix.Cache.{RadixCache}

-- `_count_pages`: the pages of the nodes that are locked, or of those that are not.
unfoldable pub count_pages : Bool → Children → ℕ
count_pages locked empty = 0
count_pages locked (entry slot node below rest) =
    (if (if locked then is_pos node.ref_count else is_zero node.ref_count)
      then length node.pages
      else 0)
    + (count_pages locked below + count_pages locked rest)

unfoldable pub num_evictable_pages : RadixCache → ℕ
unfolding count_pages
num_evictable_pages cache = count_pages Bool.false cache.children

-- `_collect_evictable_leaves`.
unfoldable pub evictable_leaves : Children → List RadixNode
evictable_leaves empty = []
evictable_leaves (entry slot node below rest) =
    let more = evictable_leaves below ++ evictable_leaves rest in
    if has_none below && is_zero node.ref_count then node ∷ more else more

-- A heap item `(last_access, id(node), node)`; `addr` is CPython's `id`.
pub record HeapItem : Type 0 where
  pub access : ℕ
  pub address : ℕ
  pub node : ℕ

abbrev pub before : HeapItem → HeapItem → Bool
before a b = ltb a.access b.access || a.access == b.access && ltb a.address b.address

-- `heapq.heappop`: the least item, and the others.
unfoldable pub pop_min : List HeapItem → Option (HeapItem × List HeapItem)
pop_min [] = none
pop_min (a ∷ items) = elim (pop_min items) [
  | none ↦ some (a, [])
  | some (b, others) ↦ if before b a then some (b, a ∷ others) else some (a, items)
]

-- Where a node stands: itself, its children, the slot that holds it, and its parent (`none` is the
-- root).
pub record Place : Type 0 where
  pub node : RadixNode
  pub children : Children
  pub slot : List ℕ
  pub parent : Option RadixNode

unfoldable pub locate : ℕ → Option RadixNode → Children → Option Place
locate i up empty = none
locate i up (entry slot node below rest) =
    let in_below = locate i (some node) below in
    let in_rest = locate i up rest in
    if node.id == i
    then some (record { node = node; children = below; slot = slot; parent = up })
    else elim in_below [ some place ↦ some place | none ↦ in_rest ]

-- `del parent.children[child_key]`, for the node `i` that the slot was seen to hold.
unfoldable pub detach : ℕ → Children → Children
detach i empty = empty
detach i (entry slot node below rest) =
    if node.id == i then detach i rest else entry slot node (detach i below) (detach i rest)

pub record Sweep : Type 0 where
  pub pool : KvMemoryPool
  pub children : Children
  pub freed : ℕ
  pub heap : List HeapItem

module _ (addr : ℕ → ℕ) (page_size : ℕ) where
  abbrev pub item : RadixNode → HeapItem
  item node = record { access = node.last_access; address = addr node.id; node = node.id }

  -- The heap at the start, one item for each leaf.
  unfoldable pub items : List RadixNode → List HeapItem
  items [] = []
  items (node ∷ nodes) = item node ∷ items nodes

  -- The parent goes onto the heap when the removal left it a leaf that may go.
  pub push_parent : Option RadixNode → Children → List HeapItem → List HeapItem
  push_parent none cs heap = heap
  push_parent (some parent) cs heap = elim (locate parent.id none cs) [
    | none ↦ heap
    | some place ↦
        if has_none place.children
          && (is_zero place.node.ref_count && not (is_empty place.node.pages))
        then item place.node ∷ heap
        else heap
  ]

  pub drop_leaf : Place → Sweep → Sweep
  drop_leaf place s =
      let children = detach place.node.id s.children in
      record {
        pool = free s.pool place.node.pages;
        children = children;
        freed = s.freed + length place.node.pages;
        heap = push_parent place.parent children s.heap;
      }

  -- One popped node. One that has left the tree is not what its parent's slot holds.
  pub visit : ℕ → Sweep → Sweep
  visit i s = elim (locate i none s.children) [
    | none ↦ s
    | some place ↦
        if is_pos place.node.ref_count
          || is_empty place.node.pages
          || not (place.slot =ₗ child_key place.node.key page_size)
        then s
        else drop_leaf place s
  ]

  -- `while freed < n_pages_needed and heap`.
  pub sweep : ℕ → ℕ → Sweep → Sweep
  sweep zero needed s = s
  sweep (suc fuel) needed s = elim (ltb s.freed needed) [
    | Bool.false ↦ s
    | Bool.true ↦ elim (pop_min s.heap) [
      | none ↦ s
      | some (it, others) ↦ sweep fuel needed (visit it.node (record s { heap = others }))
    ]
  ]

  -- Every round takes an item off the heap and adds one only for a node that leaves the tree.
  abbrev pub rounds : Sweep → ℕ
  rounds s = length s.heap + length (ids_of s.children)

  abbrev pub start : Children → KvMemoryPool → Sweep
  start cs pool = record {
    pool = pool;
    children = cs;
    freed = 0;
    heap = items (evictable_leaves cs);
  }

-- What the caller sees of a sweep. The counters are kept for the whole sweep at once.
abbrev pub swept : RadixCache → Sweep → RadixCache × KvMemoryPool × ℕ
swept cache s = (
  record cache {
    children = s.children;
    cached_page_count = cache.cached_page_count - s.freed;
    metrics = record (cache.metrics) {
      total_evicted_pages = cache.metrics.total_evicted_pages + s.freed;
    };
  },
  s.pool,
  s.freed,
)

unfoldable pub evict : (ℕ → ℕ) → RadixCache → KvMemoryPool → ℕ → RadixCache × KvMemoryPool × ℕ
unfolding items push_parent drop_leaf visit sweep
evict addr cache pool n_pages_needed =
    let begin = start addr cache.page_size cache.children pool in
    if n_pages_needed == 0
    then (cache, pool, 0)
    else swept cache
        (sweep addr cache.page_size (rounds addr cache.page_size begin) n_pages_needed begin)
