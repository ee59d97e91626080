-- ===== src/Engine/Store/Writes.antt =====
-- What a slice leaves in the pages.
use cs349d_miniengine_sk_nc.Common.{
  ℕ, zero, suc, ◌+◌, ◌-◌, ◌*◌, ◌/◌, ◌%◌, ◌≤◌, ◌<◌, min, ◌≡◌, refl, sym, ap, ◌∙◌, ◌⊎◌, inl, inr,
  List, [], ◌∷◌, Option, some, false, ◌==◌, ==_iff, ltb, ltb→le, ltb→lt, length, take, drop,
  get_elem?, arith, Bool-cases, ◌≢◌, length-take, length-drop, some_elem, get_elem?-take,
  get_elem?-drop,
}
use native.Mathlib.Nat.{div-add-mod, mod-lt}
use cs349d_miniengine_sk_nc.Engine.State.{KvStore}
use cs349d_miniengine_sk_nc.Engine.Store.{write, write_slice, store_loop, store_prefill_slice}

-- Within a page the quotient stays and the remainder counts.
same_page : (p w j : ℕ) → w % p + j < p → ((w + j) / p ≡ w / p) × ((w + j) % p ≡ w % p + j)
same_page p w j h = (grind arith, grind arith)

-- No page stands twice in a page table.
abbrev pub AreApart : List ℕ → Type 0
AreApart pages = (i j q : ℕ) → get_elem? pages i ≡ some q → get_elem? pages j ≡ some q → i ≡ j

module _ {V : Type 0} where
  pub write_other :
      (s : KvStore V) (page slot q r : ℕ) (v : V)
      → ((page == q) ≡ false) ⊎ ((slot == r) ≡ false)
      → write s page slot v q r ≡ s q r
  unfolding write
  write_other s page slot q r v h = ground (arith, h)

  write_slice_page :
      (s : KvStore V) (page slot : ℕ) (vs : List V) (q r : ℕ)
      → (page == q) ≡ false
      → write_slice s page slot vs q r ≡ s q r
  unfolding write_slice
  write_slice_page s page slot [] q r h = refl
  write_slice_page s page slot (v ∷ vs) q r h =
      write_slice_page (write s page slot v) page (suc slot) vs q r h
      ∙ write_other s page slot q r v (inl h)

  write_slice_before :
      (s : KvStore V) (page slot : ℕ) (vs : List V) (q r : ℕ)
      → r < slot
      → write_slice s page slot vs q r ≡ s q r
  unfolding write_slice
  write_slice_before s page slot [] q r h = refl
  write_slice_before s page slot (v ∷ vs) q r h =
      write_slice_before (write s page slot v) page (suc slot) vs q r (omega arith)
      ∙ write_other s page slot q r v (inr (ground (arith, h)))

  write_slice_behind :
      (s : KvStore V) (page slot : ℕ) (vs : List V) (q r : ℕ)
      → slot + length vs ≤ r
      → write_slice s page slot vs q r ≡ s q r
  unfolding write_slice
  write_slice_behind s page slot [] q r h = refl
  write_slice_behind s page slot (v ∷ vs) q r h =
      write_slice_behind (write s page slot v) page (suc slot) vs q r (omega arith)
      ∙ write_other s page slot q r v (inr (ground (arith, h)))

  write_slice_inside :
      (s : KvStore V) (page slot : ℕ) (vs : List V) (j : ℕ) (v : V)
      → get_elem? vs j ≡ some v
      → write_slice s page slot vs page (slot + j) ≡ v
  unfolding write_slice
  write_slice_inside s page slot [] j v h = cc
  write_slice_inside s page slot (x ∷ vs) zero v h =
      write_slice_before (write s page slot x) page (suc slot) vs page (slot + 0) (omega arith)
      ∙ (unfold write in ground (arith, h))
  write_slice_inside s page slot (x ∷ vs) (suc j) v h =
      let e : slot + suc j ≡ suc slot + j = omega arith in
      ap (write_slice (write s page slot x) page (suc slot) vs page) e
      ∙ write_slice_inside (write s page slot x) page (suc slot) vs j v h

  -- Tokens `w` to `n` of `kv`, counted from `src`, stand in the pages; nothing else has changed.
  pub record Stored (p : ℕ) (pages : List ℕ) (kv : List V) (src w n : ℕ) (s s' : KvStore V)
      : Type 0 where
    pub written :
        (t q : ℕ) (v : V)
        → w ≤ t
        → t < n
        → get_elem? pages (t / p) ≡ some q
        → get_elem? kv (src + t) ≡ some v
        → s' q (t % p) ≡ v
    pub others :
        (q r : ℕ)
        → ((t : ℕ) → w ≤ t → t < n → get_elem? pages (t / p) ≡ some q → t % p ≢ r)
        → s' q r ≡ s q r

  module _ (p : ℕ) (hp : 0 < p) (pages : List ℕ) (apart : AreApart pages) (kv : List V) (src n : ℕ)
      (enough : src + n ≤ length kv) where
    -- One round, which writes what fits into the page of token `w`.
    module _ (w c q₀ : ℕ) (s s' : KvStore V) (at : get_elem? pages (w / p) ≡ some q₀)
        (fits : w % p + c ≤ p) (some_left : w + c ≤ n)
        (k : Stored p pages kv src
          (w + c)
          n
          (write_slice s q₀ (w % p) (take c (drop (src + w) kv)))
          s') where
      abbrev s₁ : KvStore V
      s₁ = write_slice s q₀ (w % p) (take c (drop (src + w) kv))

      chunk_length : length (take c (drop (src + w) kv)) ≡ c
      chunk_length =
          omega
            (arith, length-take c (drop (src + w) kv), length-drop (src + w) kv, enough, some_left)

      place : (j : ℕ) → j < c → ((w + j) / p ≡ w / p) × ((w + j) % p ≡ w % p + j)
      place j h = same_page p w j (omega (arith, fits, h))

      in_round :
          (j q : ℕ) (v : V)
          → j < c
          → get_elem? pages ((w + j) / p) ≡ some q
          → get_elem? kv (src + (w + j)) ≡ some v
          → s' q ((w + j) % p) ≡ v
      in_round j q v h e f =
          let (quot, rem) = place j h in
          let both : ◌≡◌ {A = Option ℕ} (some q) (some q₀) =
            sym e ∙ ap (get_elem? pages) quot ∙ at in
          let same : q ≡ q₀ = cc in
          k.others q ((w + j) % p) (λ t low high f' r.
            let i : t / p ≡ (w + j) / p = apart (t / p) ((w + j) / p) q f' e in
            let a = div-add-mod t p in
            let b = div-add-mod (w + j) p in omega (arith, low, h, a, b, r, ap (λ z. p * z) i))
          ∙ ap (λ z. s₁ z ((w + j) % p)) same
          ∙ ap (s₁ q₀) rem
          ∙ write_slice_inside s q₀ (w % p) (take c (drop (src + w) kv)) j v (
              get_elem?-take c j (drop (src + w) kv) h
              ∙ get_elem?-drop (src + w) j kv
              ∙ ap (get_elem? kv) (omega arith)
              ∙ f)

      outside :
          (q r : ℕ)
          → ((t : ℕ) → w ≤ t → t < n → get_elem? pages (t / p) ≡ some q → t % p ≢ r)
          → s₁ q r ≡ s q r
      outside q r h = elim (Bool-cases (q₀ == q)) [
        | inr other ↦ write_slice_page s q₀ (w % p) _ q r other
        | inl same ↦ elim (Bool-cases (ltb r (w % p))) [
          | inl before ↦ write_slice_before s q₀ (w % p) _ q r (ltb→lt _ _ before)
          | inr not_before ↦ elim (Bool-cases (ltb r (w % p + c))) [
            | inr behind ↦
                write_slice_behind s q₀ (w % p) _ q r
                  (omega (arith, chunk_length, ltb→le _ _ behind))
            | inl inside ↦
                let j : ℕ = r - w % p in
                let small : j < c = omega (arith, ltb→lt _ _ inside, ltb→le _ _ not_before) in
                let (quot, rem) = place j small in
                absurd (
                  h (w + j) (omega arith) (omega (arith, small, some_left))
                    (ap (get_elem? pages) quot ∙ at ∙ ap some ((==_iff q₀ q).0 same))
                    (rem ∙ omega (arith, ltb→le _ _ not_before)))
          ]
        ]
      ]

      pub round-Stored : Stored p pages kv src w n s s'
      round-Stored = record {
        written = λ t q v low high e f. elim (Bool-cases (ltb t (w + c))) [
          | inr later ↦ k.written t q v (ltb→le _ _ later) high e f
          | inl now ↦
              let j : ℕ = t - w in
              let back : w + j ≡ t = omega (arith, low) in
              ap (λ z. s' q (z % p)) (sym back)
              ∙ in_round j q v (omega (arith, ltb→lt _ _ now, low))
                  (ap (λ z. get_elem? pages (z / p)) back ∙ e)
                  (ap (λ z. get_elem? kv (src + z)) back ∙ f)
        ];
        others =
            λ q r h. k.others q r (λ t low high. h t (omega (arith, low)) high) ∙ outside q r h;
      }

    pub page_there : (t : ℕ) → t < length pages * p → (q : ℕ) × (get_elem? pages (t / p) ≡ some q)
    page_there t h = some_elem (t / p) pages (div_lt t (length pages) h)
      where
        div_lt : (a b : ℕ) → a < b * p → a / p < b
        div_lt a b q = grind (arith, div-add-mod a p)

    -- With enough fuel the loop ends without an exception and has written every token.
    loop-Stored :
        (fuel w : ℕ) (s : KvStore V)
        → n ≤ length pages * p
        → n - w < fuel
        → w ≤ n
        → ((store_loop fuel p s pages kv src n w).1 ≡ false)
          × Stored p pages kv src w n s (store_loop fuel p s pages kv src n w).0
    unfolding store_loop
    loop-Stored zero w s room h low = absurd (omega arith)
    loop-Stored (suc fuel) w s room h low = elim (Bool-cases (ltb w n)) [
      | inr done ↦
          rw (done, store_loop)
            (
              refl,
              record {
                written = λ t q v a b e f. absurd (omega (arith, a, b, ltb→le _ _ done));
                others = λ q r f. refl;
              },
            )
      | inl more ↦
          let left = ltb→lt _ _ more in
          let (q₀, at) = page_there w (omega (arith, left, room)) in
          let c : ℕ = min (n - w) (p - w % p) in
          let small : w % p < p = mod-lt w hp in
          let later =
            loop-Stored fuel (w + c) (write_slice s q₀ (w % p) (take c (drop (src + w) kv))) room
              (omega (arith, left, small, h)) (omega (arith, left)) in
          rw (more, store_loop)
            (rw (at, store_loop)
              (
                later.0,
                round-Stored w c q₀ s _ at (omega (arith, small)) (omega (arith, left)) later.1,
              ))
    ]

pub store_prefill_slice-Stored :
    {V : Type 0} (p : ℕ) (s : KvStore V) (pages : List ℕ) (kv : List V) (src_start src_len : ℕ)
    → 0 < p
    → AreApart pages
    → src_start + src_len ≤ length kv
    → src_len ≤ length pages * p
    → let r = store_prefill_slice p s pages kv src_start src_len in
      (r.1 ≡ false) × Stored p pages kv src_start 0 src_len s r.0
unfolding store_prefill_slice
store_prefill_slice-Stored p s pages kv src_start src_len hp apart enough room =
    loop-Stored p hp pages apart kv src_start src_len enough (suc src_len) 0 s room (omega arith)
      (omega arith)
