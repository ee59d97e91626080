-- ===== src/Radix/Keys.antt =====
-- Keys: page-aligned lengths, child keys and the comparison of two keys by pages.
pub mod Laws
use cs349d_miniengine_sk_nc.Common.{
  ℕ, zero, suc, ◌+◌, ◌*◌, ◌/◌, List, Bool, not, ◌&&◌, ◌=ₗ◌, is_empty, length, take, drop,
  if◌then◌else◌,
}

unfoldable pub page_align_len : ℕ → ℕ → ℕ
page_align_len n page_size = (n / page_size) * page_size

unfoldable pub child_key : List ℕ → ℕ → List ℕ
child_key tokens page_size = take page_size tokens

-- The loop of `_match_keys` over what is left of the two lists from index `i` on: it goes on while
-- `i < min_len` and the two slices of a page agree.
unfoldable pub pages_agree : List ℕ → List ℕ → ℕ → Bool
pages_agree stored query page_size =
    not (is_empty stored) && not (is_empty query) && take page_size stored =ₗ take page_size query

match_loop : ℕ → List ℕ → List ℕ → ℕ → ℕ
match_loop zero stored query page_size = 0
match_loop (suc fuel) stored query page_size =
    let rest = match_loop fuel (drop page_size stored) (drop page_size query) page_size in
    if pages_agree stored query page_size then page_size + rest else 0

unfoldable pub match_keys : List ℕ → List ℕ → ℕ → ℕ
unfolding match_loop pages_agree
match_keys stored query page_size = match_loop (length stored) stored query page_size
