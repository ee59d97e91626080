-- ===== src/Radix/Insert.antt =====
-- `insert_and_return`, `_make_child` and `_split_node`.
pub mod Steps
pub mod Lookup
pub mod Fits
pub mod Placed
pub mod Held
pub mod Grew
use cs349d_miniengine_sk_nc.Common.{
  ℕ, zero, suc, ◌+◌, ◌-◌, ◌/◌, ◌%◌, ◌&&◌, true, List, [], ◌++◌, none, some, Bool, ltb, ◌==◌, ◌=ₗ◌,
  is_empty, length, take, drop, if◌then◌else◌, pos,
}
use cs349d_miniengine_sk_nc.Radix.Node.{
  RadixNode, CacheTier, Children, empty, entry, get_child, put_child,
}
use cs349d_miniengine_sk_nc.Radix.Keys.{page_align_len, child_key, match_keys}
use cs349d_miniengine_sk_nc.Radix.Cache.{
  RadixCache, root_id, Result, ok, err, value_error, assertion_error,
}

-- What the loop leaves from some node on: the children, the redundant pages, the number of pages
-- in a new leaf, the node that is returned, the next identity, and whether no assertion failed.
pub record Grown : Type 0 where
  pub children : Children
  pub redundant : List ℕ
  pub inserted : ℕ
  pub last : ℕ
  pub next_id : ℕ
  pub sound : Bool

abbrev pub new_node : ℕ → ℕ → List ℕ → List ℕ → RadixNode
new_node id made key pages = record {
  id = id;
  key = key;
  pages = pages;
  ref_count = pos 0;
  last_access = made;
  tier = CacheTier.gpu;
}

-- `_make_child`, and the return with the new leaf.
pub make_child : (made fresh : ℕ) → List ℕ → List ℕ → List ℕ → Children → Grown
make_child made fresh slot key pages cs = record {
  children = put_child slot (new_node fresh made key pages) empty cs;
  redundant = [];
  inserted = length pages;
  last = fresh;
  next_id = suc fresh;
  sound = true;
}

-- The two halves of `_split_node`: the new parent, and the node with what is left of its key.
pub split_upper : ℕ → ℕ → ℕ → RadixNode → RadixNode
split_upper page_size fresh split_at node = record node {
  id = fresh;
  key = take split_at node.key;
  pages = take (split_at / page_size) node.pages;
}

pub split_lower : ℕ → ℕ → RadixNode → RadixNode
split_lower page_size split_at node = record node {
  key = drop split_at node.key;
  pages = drop (split_at / page_size) node.pages;
}

-- `new_node.children` after the split.
pub split_children : ℕ → ℕ → RadixNode → Children → Children
split_children page_size split_at node below =
    let lower = split_lower page_size split_at node in
    entry (child_key lower.key page_size) lower below empty

-- The loop goes on below a node; the pages of this edge were redundant or not.
pub below_node : List ℕ → RadixNode → Children → List ℕ → Grown → Grown
below_node slot node cs redundant rest = record rest {
  children = put_child slot node rest.children cs;
  redundant = redundant ++ rest.redundant;
}

-- `if incoming != child.pages: redundant.extend(incoming)`.
pub duplicates : List ℕ → RadixNode → List ℕ
duplicates incoming child = if incoming =ₗ child.pages then [] else incoming

-- The assertions of `_split_node` on the length; a node that is split has a parent.
pub splits_at : ℕ → ℕ → RadixNode → Bool
splits_at page_size split_at node =
    ltb 0 split_at && ltb split_at (length node.key) && (split_at % page_size) == 0

-- An assertion that fails ends the insertion.
pub asserted : Bool → Grown → Grown
asserted holds g = record g { sound = holds && g.sound }

module _ (page_size now made : ℕ) where
  -- The `while` loop from the node `at` with children `cs`: `tokens` are those from `idx` on,
  -- `pages` those from `page_idx` on, of which `room` are to be stored.
  pub grow : ℕ → (at fresh : ℕ) → Children → List ℕ → List ℕ → ℕ → Grown
  grow zero at fresh cs tokens pages room = record {
    children = cs;
    redundant = [];
    inserted = 0;
    last = at;
    next_id = fresh;
    sound = true;
  }
  grow (suc fuel) at fresh cs tokens pages room =
      let slot = child_key tokens page_size in
      let leaf = make_child made fresh slot tokens (take room pages) cs in
      elim (is_empty tokens) [
        | Bool.true ↦ record {
          children = cs;
          redundant = [];
          inserted = 0;
          last = at;
          next_id = fresh;
          sound = true;
        }
        | Bool.false ↦ elim (get_child slot cs) [
          | none ↦ leaf
          | some (node, below) ↦
              let child : RadixNode = record node { last_access = now } in
              let match_len = match_keys child.key tokens page_size in
              let split_at = page_align_len match_len page_size in
              let edge_npages = length child.pages in
              elim (ltb match_len (length child.key)) [
                | Bool.true ↦ elim (split_at == 0) [
                  | Bool.true ↦ leaf
                  | Bool.false ↦ asserted (splits_at page_size split_at child) (
                      below_node slot (split_upper page_size fresh split_at child) cs [] (
                        grow fuel fresh (suc fresh) (split_children page_size split_at child below)
                          (drop split_at tokens) (drop (split_at / page_size) pages)
                          (room - split_at / page_size)))
                ]
                | Bool.false ↦
                    below_node slot child cs (duplicates (take edge_npages pages) child) (
                      grow fuel child.id fresh below (drop (length child.key) tokens)
                        (drop edge_npages pages) (room - edge_npages))
              ]
        ]
      ]

abbrev pub inserted : RadixCache → ℕ → Grown → RadixCache × ℕ × List ℕ
inserted cache now g = (
  record cache {
    root_access = now;
    children = g.children;
    metrics = record (cache.metrics) {
      total_inserted_pages = cache.metrics.total_inserted_pages + g.inserted;
    };
    cached_page_count = cache.cached_page_count + g.inserted;
    next_id = g.next_id;
  },
  g.last,
  g.redundant,
)

abbrev pub unless_failed : RadixCache → ℕ → Grown → Result (RadixCache × ℕ × List ℕ)
unless_failed cache now g = if g.sound then ok (inserted cache now g) else err assertion_error

-- The node for the tokens, and the pages that the cache did not take.
unfoldable pub insert_and_return :
    RadixCache → (now made : ℕ) → List ℕ → List ℕ → Result (RadixCache × ℕ × List ℕ)
unfolding grow make_child split_upper split_lower split_children below_node duplicates asserted
    splits_at page_align_len
insert_and_return cache now made tokens pages =
    let aligned_len = page_align_len (length tokens) cache.page_size in
    let num_pages = aligned_len / cache.page_size in
    if aligned_len == 0
    then ok (cache, root_id, pages)
    else if ltb (length pages) num_pages
    then err value_error
    else unless_failed cache now (
        grow cache.page_size now made (suc aligned_len) root_id cache.next_id cache.children
          (take aligned_len tokens) pages num_pages)
