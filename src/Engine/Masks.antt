-- ===== src/Engine/Masks.antt =====
-- The attention masks, as rows of Booleans: `true` is the 0.0 that lets a query attend, `false` the
-- minus infinity.
pub mod Entries
use cs349d_miniengine_sk_nc.Common.{ℕ, zero, suc, ◌+◌, List, [], ◌∷◌, ◌++◌, Bool, ◌&&◌, ltb, leb}

-- A row of `n` entries from column `j` on, by a test of the column.
unfoldable pub row : (ℕ → Bool) → ℕ → ℕ → List Bool
row test j zero = []
row test j (suc n) = test j ∷ row test (suc j) n

-- `_build_continuation_attention_mask`: row `i` is open on `[: cache_len + i + 1]`.
unfoldable pub continuation_rows : ℕ → ℕ → ℕ → ℕ → List (List Bool)
continuation_rows cache_len kv_len i zero = []
continuation_rows cache_len kv_len i (suc n) =
    row (λ j. ltb j (cache_len + i + 1)) 0 kv_len ∷ continuation_rows cache_len kv_len (suc i) n

unfoldable pub continuation_mask : (cache_len chunk_len : ℕ) → List (List Bool)
unfolding continuation_rows row
continuation_mask cache_len chunk_len =
    continuation_rows cache_len (cache_len + chunk_len) 0 chunk_len

-- The rows of one block of `_build_packed_prefill_attention_mask`: `tril` from column `start` on.
unfoldable pub block_rows : ℕ → ℕ → ℕ → ℕ → List (List Bool)
block_rows start total_len i zero = []
block_rows start total_len i (suc n) =
    row (λ j. leb start j && leb j (start + i)) 0 total_len ∷ block_rows start total_len (suc i) n

-- One block for each length, each below and to the right of the one before.
unfoldable pub packed_rows : ℕ → ℕ → List ℕ → List (List Bool)
packed_rows start total_len [] = []
packed_rows start total_len (length ∷ lengths) =
    block_rows start total_len 0 length ++ packed_rows (start + length) total_len lengths

unfoldable pub packed_mask : List ℕ → ℕ → List (List Bool)
unfolding packed_rows block_rows row
packed_mask input_lens total_len = packed_rows 0 total_len input_lens
