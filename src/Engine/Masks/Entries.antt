-- ===== src/Engine/Masks/Entries.antt =====
-- Which tokens a query attends to.
use cs349d_miniengine_sk_nc.Common.{
  ℕ, zero, suc, ◌+◌, ◌-◌, ◌≤◌, ◌<◌, ◌≡◌, refl, ap, ◌∙◌, List, [], ◌∷◌, ◌++◌, Option, none, some,
  Bool, ◌&&◌, ltb, leb, ltb→lt, ltb→le, if◌then◌else◌, length, get_elem?, arith, Bool-cases, inl,
  inr,
}
use cs349d_miniengine_sk_nc.Engine.Masks.{
  row, continuation_rows, continuation_mask, block_rows, packed_rows, packed_mask,
}

-- The entry for a query and a key.
abbrev pub entry_at : List (List Bool) → ℕ → ℕ → Option Bool
entry_at mask query key = elim (get_elem? mask query) [ none ↦ none | some r ↦ get_elem? r key ]

-- The first token of the sequence that a token of a packed batch belongs to.
unfoldable pub seq_start : ℕ → List ℕ → ℕ → ℕ
seq_start start [] t = start
seq_start start (len ∷ lens) t = if ltb t len then start else seq_start (start + len) lens (t - len)

unfoldable pub total_of : List ℕ → ℕ
total_of [] = 0
total_of (len ∷ lens) = len + total_of lens

get_elem?-row :
    (test : ℕ → Bool) (j n k : ℕ) → k < n → get_elem? (row test j n) k ≡ some (test (j + k))
unfolding row
get_elem?-row test j zero k h = absurd (omega arith)
get_elem?-row test j (suc n) zero h = ap (λ z. some (test z)) (omega arith)
get_elem?-row test j (suc n) (suc k) h =
    get_elem?-row test (suc j) n k (omega arith) ∙ ap (λ z. some (test z)) (omega arith)

get_elem?-continuation_rows :
    (cache_len kv_len i n k : ℕ)
    → k < n
    → get_elem? (continuation_rows cache_len kv_len i n) k
      ≡ some (row (λ j. ltb j (cache_len + (i + k) + 1)) 0 kv_len)
unfolding continuation_rows
get_elem?-continuation_rows cache_len kv_len i zero k h = absurd (omega arith)
get_elem?-continuation_rows cache_len kv_len i (suc n) zero h =
    ap (λ z. some (row (λ j. ltb j (cache_len + z + 1)) 0 kv_len)) (omega arith)
get_elem?-continuation_rows cache_len kv_len i (suc n) (suc k) h =
    get_elem?-continuation_rows cache_len kv_len (suc i) n k (omega arith)
    ∙ ap (λ z. some (row (λ j. ltb j (cache_len + z + 1)) 0 kv_len)) (omega arith)

-- The `i`-th query of a chunk attends to just the cached tokens and the chunk's own up to itself.
pub continuation_mask_entry :
    (cache_len chunk_len i j : ℕ)
    → i < chunk_len
    → j < cache_len + chunk_len
    → entry_at (continuation_mask cache_len chunk_len) i j ≡ some (leb j (cache_len + i))
unfolding continuation_mask
continuation_mask_entry cache_len chunk_len i j hi hj =
    rw (get_elem?-continuation_rows cache_len (cache_len + chunk_len) 0 chunk_len i hi, entry_at)
      (get_elem?-row (λ z. ltb z (cache_len + (0 + i) + 1)) 0 (cache_len + chunk_len) j hj
        ∙ ap some (ground arith))

get_elem?-block_rows :
    (start total i n k : ℕ)
    → k < n
    → get_elem? (block_rows start total i n) k
      ≡ some (row (λ j. leb start j && leb j (start + (i + k))) 0 total)
unfolding block_rows
get_elem?-block_rows start total i zero k h = absurd (omega arith)
get_elem?-block_rows start total i (suc n) zero h =
    ap (λ z. some (row (λ j. leb start j && leb j (start + z)) 0 total)) (omega arith)
get_elem?-block_rows start total i (suc n) (suc k) h =
    get_elem?-block_rows start total (suc i) n k (omega arith)
    ∙ ap (λ z. some (row (λ j. leb start j && leb j (start + z)) 0 total)) (omega arith)

length-block_rows : (start total i n : ℕ) → length (block_rows start total i n) ≡ n
unfolding block_rows
length-block_rows start total i zero = refl
length-block_rows start total i (suc n) = ap suc (length-block_rows start total (suc i) n)

get_elem?-append_left :
    {A : Type 0} (xs ys : List A) (k : ℕ) → k < length xs → get_elem? (xs ++ ys) k ≡ get_elem? xs k
get_elem?-append_left [] ys k h = absurd (omega arith)
get_elem?-append_left (x ∷ xs) ys zero h = refl
get_elem?-append_left (x ∷ xs) ys (suc k) h = get_elem?-append_left xs ys k (omega arith)

get_elem?-append_right :
    {A : Type 0} (xs ys : List A) (k : ℕ)
    → length xs ≤ k
    → get_elem? (xs ++ ys) k ≡ get_elem? ys (k - length xs)
get_elem?-append_right [] ys k h = ap (get_elem? ys) (omega arith)
get_elem?-append_right (x ∷ xs) ys zero h = absurd (omega arith)
get_elem?-append_right (x ∷ xs) ys (suc k) h =
    get_elem?-append_right xs ys k (omega arith) ∙ ap (get_elem? ys) (omega arith)

get_elem?-packed_rows :
    (start total : ℕ) (lens : List ℕ) (k : ℕ)
    → k < total_of lens
    → get_elem? (packed_rows start total lens) k
      ≡ some (row (λ j. leb (seq_start start lens k) j && leb j (start + k)) 0 total)
unfolding packed_rows total_of seq_start
get_elem?-packed_rows start total [] k h = absurd (omega arith)
get_elem?-packed_rows start total (len ∷ lens) k h =
    let own = length-block_rows start total 0 len in
    elim (Bool-cases (ltb k len)) [
      | inl inside ↦
          get_elem?-append_left (block_rows start total 0 len) _ k
            (omega (arith, own, ltb→lt _ _ inside))
          ∙ get_elem?-block_rows start total 0 len k (ltb→lt _ _ inside)
          ∙ rw inside
              (ap (λ z. some (row (λ j. leb start j && leb j (start + z)) 0 total)) (omega arith))
      | inr behind ↦
          get_elem?-append_right (block_rows start total 0 len)
            (packed_rows (start + len) total lens) k (omega (arith, own, ltb→le _ _ behind))
          ∙ ap (λ z. get_elem? (packed_rows (start + len) total lens) (k - z)) own
          ∙ get_elem?-packed_rows (start + len) total lens (k - len)
              (omega (arith, h, ltb→le _ _ behind))
          ∙ rw behind (
              ap
                (λ z.
                  some
                    (row (λ j. leb (seq_start (start + len) lens (k - len)) j && leb j z) 0 total))
                (omega (arith, ltb→le _ _ behind)))
    ]

-- A query of a packed batch attends to just the tokens of its own sequence up to itself.
pub packed_mask_entry :
    (lens : List ℕ) (query key : ℕ)
    → query < total_of lens
    → key < total_of lens
    → entry_at (packed_mask lens (total_of lens)) query key
      ≡ some (leb (seq_start 0 lens query) key && leb key query)
unfolding packed_mask
packed_mask_entry lens query key hq hk =
    let plain : 0 + query ≡ query = omega arith in
    rw (get_elem?-packed_rows 0 (total_of lens) lens query hq, entry_at)
      (get_elem?-row (λ j. leb (seq_start 0 lens query) j && leb j (0 + query)) 0 (total_of lens)
          key hk
        ∙ ground (arith, plain))
