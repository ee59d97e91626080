-- ===== src/Pool.antt =====
-- miniengine/kv_memory_pool.py: the free list of the KV page pool, and its page arithmetic.
-- `allocate` as it is with a prefix cache attached is in Radix/Allocate.antt.
pub mod Laws
use cs349d_miniengine_sk_nc.Common.{
  ℕ, zero, suc, ◌+◌, ◌*◌, ◌/◌, ◌-◌, List, [], ◌∷◌, ◌++◌, reverse, ltb, if◌then◌else◌, length,
  Option, none, some,
}

-- `free_list` is the Python list `_free` from its end: its head is what `pop()` takes.
pub record KvMemoryPool : Type 0 where
  pub num_pages : ℕ
  pub page_size : ℕ
  pub free_list : List ℕ

-- `list(range(n))`, from its end.
unfoldable pub range_down : ℕ → List ℕ
range_down zero = []
range_down (suc n) = n ∷ range_down n

pub new_pool : ℕ → ℕ → KvMemoryPool
unfolding range_down
new_pool num_pages page_size = record {
  num_pages = num_pages;
  page_size = page_size;
  free_list = range_down num_pages;
}

abbrev pub num_free : KvMemoryPool → ℕ
num_free pool = length pool.free_list

-- `self._free.extend(page_indices)`.
unfoldable pub free : KvMemoryPool → List ℕ → KvMemoryPool
free pool page_indices = record pool { free_list = reverse page_indices ++ pool.free_list }

-- `[stack.pop() for _ in range(n)]`: the pages taken and what is left.
unfoldable pub pop_pages : ℕ → List ℕ → List ℕ × List ℕ
pop_pages zero stack = ([], stack)
pop_pages (suc n) [] = ([], [])
pop_pages (suc n) (x ∷ stack) = let (taken, left) = pop_pages n stack in (x ∷ taken, left)

-- The part of `allocate` behind the eviction: `none` is the RuntimeError.
unfoldable pub take_free : KvMemoryPool → ℕ → Option (List ℕ × KvMemoryPool)
unfolding pop_pages
take_free pool n =
    if ltb (num_free pool) n
    then none
    else (let (taken, left) = pop_pages n pool.free_list in
        some (taken, record pool { free_list = left }))

-- `math.ceil(seq_len / self.page_size)`, for a positive page size and a length of at most 2 ** 53,
-- where the quotient, a float, is not rounded to or past a whole number.
unfoldable pub pages_needed : ℕ → ℕ → ℕ
pages_needed page_size seq_len = (seq_len + page_size - 1) / page_size

-- The number of pages that `from_budget` derives; `none` is the ValueError.
pub budget_pages : ℕ → ℕ → ℕ → ℕ → ℕ → ℕ → Option ℕ
budget_pages num_layers num_kv_heads head_dim page_size element_size bytes_budget =
    let bytes_one_kv_plane = page_size * num_kv_heads * head_dim * element_size in
    let num_pages = bytes_budget / (num_layers * 2 * bytes_one_kv_plane) in
    if ltb num_pages 1 then none else some num_pages
