-- ===== src/Engine/Init/Outcomes.antt =====
-- The two outcomes of `_paged_prefill_init`.
use mathlib.Core.Path.{ap₂}
use cs349d_miniengine_sk_nc.Common.{
  ℕ, ◌+◌, ◌-◌, ◌*◌, ◌≤◌, ◌<◌, ◌≡◌, refl, sym, ap, ◌∙◌, ◌⊎◌, inl, inr, List, [], ◌++◌, Option, none,
  some, Bool, true, false, length, length-append, count, arith, subst,
}
use cs349d_miniengine_sk_nc.Core.{Request, num_input_tokens}
use cs349d_miniengine_sk_nc.Pool.{pages_needed}
use cs349d_miniengine_sk_nc.Pool.Laws.{pages_needed-ceil}
use cs349d_miniengine_sk_nc.Radix.Cache.{RadixCache, ok, err, runtime_error}
use cs349d_miniengine_sk_nc.Radix.Match.{match_prefix}
use cs349d_miniengine_sk_nc.Radix.Match.Locks.{match_prefix-Touched}
use cs349d_miniengine_sk_nc.Radix.Contract.Outcomes.{match_prefix-Matches}
use cs349d_miniengine_sk_nc.Radix.Lock.Serving.{
  IsServingMemory, with_lock, serving_live, inc_lock_ref-IsServing, dec_lock_ref-IsServing,
  match_prefix-IsServing,
}
use cs349d_miniengine_sk_nc.Radix.Allocate.{Memory, allocate}
use cs349d_miniengine_sk_nc.Radix.Allocate.Exact.{held, Hands, Refuses, allocate_exact}
use cs349d_miniengine_sk_nc.Radix.Allocate.Locks.{allocate-IsServing}
use cs349d_miniengine_sk_nc.Engine.State.{Engine, page_size}
use cs349d_miniengine_sk_nc.Engine.Admission.{peak_pages}
use cs349d_miniengine_sk_nc.Engine.Init.{
  lock_of, unlock_prefix, rollback_prefill_init, lookup_prefix, reserve_pages, paged_prefill_init,
}

-- The pages that no request holds: the free and the cached ones.
abbrev pub unclaimed : {V : Type 0} → ℕ → Engine V → ℕ
unclaimed a e = count a e.memory.pool.free_list + count a (held e.memory.cache)

module _ {V : Type 0} where
  record LookedUp (e : Engine V) (req : Request) (locks : List ℕ)
      (out : Engine V × Request × List ℕ) : Type 0 where
    pub serving :
        IsServingMemory (page_size e) (with_lock out.1.radix_lock_node locks) out.0.memory.cache
    pub pool : out.0.memory.pool ≡ e.memory.pool
    pub kept : held out.0.memory.cache ≡ held e.memory.cache
    pub offset : out.1.prefill_offset ≡ length out.2 * page_size e
    pub inside : out.1.prefill_offset ≤ num_input_tokens req
    pub request : out.1 ≡ record req {
      cache_hit_tokens = out.1.prefill_offset;
      prefill_offset = out.1.prefill_offset;
      radix_lock_node = out.1.radix_lock_node;
    }

  -- The request has all the pages of its worst case: those of the cached prefix and new ones.
  pub record Prepared (e : Engine V) (req : Request) (locks : List ℕ) (e' : Engine V)
      (req' : Request) : Type 0 where
    pub borrowed : List ℕ
    pub new : List ℕ
    pub stored :
        req'.kv_cache
        ≡ some (record { page_indices = borrowed ++ new; kv_len = req'.prefill_offset })
    pub peak : length (borrowed ++ new) ≡ peak_pages e req
    pub offset : req'.prefill_offset ≡ length borrowed * page_size e
    pub inside : req'.prefill_offset ≤ num_input_tokens req
    pub pages : (a : ℕ) → count a new + unclaimed a e' ≡ unclaimed a e
    pub serving :
        IsServingMemory (page_size e) (with_lock req'.radix_lock_node locks) e'.memory.cache

  -- Nothing is left of the attempt.
  pub record Undone (e : Engine V) (req : Request) (locks : List ℕ) (e' : Engine V) (req' : Request)
      : Type 0 where
    pub request : req' ≡ record req {
      radix_lock_node = none;
      kv_cache = none;
      prefill_offset = 0;
      cache_hit_tokens = 0;
    }
    pub pages : (a : ℕ) → unclaimed a e' ≡ unclaimed a e
    pub serving : IsServingMemory (page_size e) locks e'.memory.cache

  -- The outcomes, by the flag of the exception.
  abbrev pub Inits : Engine V → Request → List ℕ → Engine V × Request × Bool → Type 0
  Inits e req locks out =
      ((out.2 ≡ false) × Prepared e req locks out.0 out.1)
      ⊎ ((out.2 ≡ true) × Undone e req locks out.0 out.1)

-- A prefix of the prompt has no more pages than the worst case.
prefix_le : (p n m b : ℕ) → 0 < p → b * p ≤ n → b ≤ pages_needed p (n + m)
prefix_le p n m b hp h = grind (arith, pages_needed-ceil p (n + m) hp, h)

module _ {V : Type 0} (clock addr : ℕ → ℕ) where
  lookup_prefix-LookedUp :
      (e : Engine V) (req : Request) (locks : List ℕ) (c : Option RadixCache)
      → e.memory.cache ≡ c
      → IsServingMemory (page_size e) locks c
      → LookedUp e req locks (lookup_prefix clock addr e req)
  unfolding lookup_prefix
  lookup_prefix-LookedUp e req locks none q v = rw q (record {
    serving = tt;
    pool = refl;
    kept = refl;
    offset = omega arith;
    inside = omega arith;
    request = refl;
  })
  lookup_prefix-LookedUp e req locks (some cache) q v =
      let now : ℕ = clock e.readings in
      let m =
        match_prefix-Matches cache now req.input_ids
          (record { paged = v.locked.paged; wf = v.locked.wf }) in
      let looked : RadixCache = (match_prefix cache now req.input_ids).0 in
      let lock : Option ℕ = lock_of (match_prefix cache now req.input_ids).1.last_node in
      let served =
        inc_lock_ref-IsServing (page_size e) lock locks looked
          (match_prefix-IsServing (page_size e) locks cache now req.input_ids v) in
      rw q (record {
        serving = served.0;
        pool = refl;
        kept = served.1 ∙ (match_prefix-Touched cache now req.input_ids).pages;
        offset =
            m.aligned
            ∙ ap (λ z. length (match_prefix cache now req.input_ids).1.matched_pages * z) v.size;
        inside = m.within;
        request = refl;
      })

  unlock_prefix-IsServing :
      (e : Engine V) (p : ℕ) (lock : Option ℕ) (locks : List ℕ) (c : Option RadixCache)
      → e.memory.cache ≡ c
      → IsServingMemory p (with_lock lock locks) c
      → IsServingMemory p locks (unlock_prefix clock addr e lock).memory.cache
        × (held (unlock_prefix clock addr e lock).memory.cache ≡ held c)
        × ((unlock_prefix clock addr e lock).memory.pool ≡ e.memory.pool)
  unfolding unlock_prefix
  unlock_prefix-IsServing e p none locks c q v =
      (subst (IsServingMemory p locks) (sym q) v, ap held q, refl)
  unlock_prefix-IsServing e p (some i) locks none q v = rw q (tt, refl, refl)
  unlock_prefix-IsServing e p (some i) locks (some cache) q v =
      let (served, pages) = dec_lock_ref-IsServing p (clock e.readings) (some i) locks cache v in
      rw q (served, pages, refl)

  module _ (e e₁ : Engine V) (req req₁ : Request) (matched : List ℕ) (locks : List ℕ)
      (hp : 0 < page_size e) (k : LookedUp e req locks (e₁, req₁, matched)) where
    abbrev extra : ℕ
    extra = peak_pages e₁ req₁ - length matched

    inputs : req₁.input_ids ≡ req.input_ids
    inputs = ap (λ r. r.input_ids) k.request

    same_peak : peak_pages e₁ req₁ ≡ peak_pages e req
    unfolding peak_pages
    same_peak =
        ap₂ pages_needed (ap (λ z. z.page_size) k.pool)
          (ap₂ ◌+◌ (ap length inputs) (ap (λ r. r.max_new_tokens) k.request))

    prefix_fits : length matched ≤ peak_pages e req
    unfolding peak_pages
    prefix_fits =
        prefix_le (page_size e) (length req.input_ids) req.max_new_tokens (length matched) hp
          (omega (arith, k.inside, k.offset))

    kept :
        IsServingMemory
          (page_size e)
          (with_lock req₁.radix_lock_node locks)
          (allocate addr e₁.memory extra).1.cache
    kept =
        allocate-IsServing addr (page_size e) (with_lock req₁.radix_lock_node locks) e₁.memory extra
          k.serving

    before : (a : ℕ) → unclaimed a e₁ ≡ unclaimed a e
    before a = omega (arith, ap (λ z. count a z.free_list) k.pool, ap (count a) k.kept)

    granted :
        (new : List ℕ) (after : Memory)
        → allocate addr e₁.memory extra ≡ (ok new, after)
        → Hands e₁.memory extra new after
        → Inits e req locks (reserve_pages clock addr e₁ req₁ matched)
    granted new after q hands =
        let whole : reserve_pages clock addr e₁ req₁ matched ≡ (
          record e₁ { memory = after },
          record req₁ {
            kv_cache =
                some (record { page_indices = matched ++ new; kv_len = req₁.prefill_offset });
          },
          false,
        ) =
          unfold reserve_pages in
          rw (ap (λ z. z.0) q, reserve_pages)
            (ap
              (λ (m : Memory). (
                record e₁ { memory = m },
                record req₁ {
                  kv_cache =
                      some (record { page_indices = matched ++ new; kv_len = req₁.prefill_offset });
                },
                false,
              ))
              (ap (λ z. z.1) q)) in
        subst (Inits e req locks) (sym whole) (
          inl (
            refl,
            record {
              borrowed = matched;
              new = new;
              stored = refl;
              peak = omega (arith, length-append matched new, hands.amount, same_peak, prefix_fits);
              offset = k.offset;
              inside = k.inside;
              pages = λ a. omega (arith, hands.same a, before a);
              serving =
                  subst
                    (λ z.
                      IsServingMemory (page_size e) (with_lock req₁.radix_lock_node locks)
                        z.1.cache)
                    q kept;
            },
          ))

    refused :
        (after : Memory)
        → allocate addr e₁.memory extra ≡ (err runtime_error, after)
        → Refuses e₁.memory after
        → Inits e req locks (reserve_pages clock addr e₁ req₁ matched)
    refused after q refuses =
        let e₂ : Engine V = record e₁ { memory = after } in
        let undone = rollback_prefill_init clock addr e₂ req₁ [] in
        let whole : reserve_pages clock addr e₁ req₁ matched ≡ (undone.0, undone.1, true) =
          unfold reserve_pages in
          rw (ap (λ z. z.0) q, reserve_pages)
            (ap
              (λ (m : Memory).
                let u = rollback_prefill_init clock addr (record e₁ { memory = m }) req₁ [] in
                (u.0, u.1, true))
              (ap (λ z. z.1) q)) in
        let serving : IsServingMemory (page_size e) (with_lock req₁.radix_lock_node locks)
            after.cache =
          subst
            (λ z. IsServingMemory (page_size e) (with_lock req₁.radix_lock_node locks) z.1.cache) q
            kept in
        let (served, same_pages, same_pool) =
          unlock_prefix-IsServing e₂ (page_size e) req₁.radix_lock_node locks after.cache refl
            serving in
        subst (Inits e req locks) (sym whole) (
          inr (
            refl,
            unfold rollback_prefill_init in
                record {
                  request =
                      ap
                        (λ (r : Request). record r {
                          radix_lock_node = none;
                          kv_cache = none;
                          prefill_offset = 0;
                          cache_hit_tokens = 0;
                        })
                        k.request;
                  pages = λ a. omega (
                    arith,
                    refuses.same a,
                    before a,
                    ap (count a) same_pages,
                    ap (λ z. count a z.free_list) same_pool,
                  );
                  serving = served;
                },
          ))

    reserve_pages-Inits : Inits e req locks (reserve_pages clock addr e₁ req₁ matched)
    reserve_pages-Inits =
        elim (allocate_exact addr e₁.memory extra (serving_live _ _ e₁.memory.cache k.serving)) [
          | inl (new, after, _, q, hands) ↦ granted new after q hands
          | inr (after, _, q, refuses) ↦ refused after q refuses
        ]

  -- With the locks `locks` held, setting up a request has one of two outcomes. Either it gets the pages
  -- of its worst case: those of a cached prefix of its prompt and new ones, which were free or cached
  -- before, and its lock is added to those held. Or the RuntimeError is raised and nothing is left of
  -- the attempt: the request is as if untouched, the locks are those held before, and each page is
  -- still free or cached.
  pub paged_prefill_init-Inits :
      (e : Engine V) (req : Request) (locks : List ℕ)
      → 0 < page_size e
      → IsServingMemory (page_size e) locks e.memory.cache
      → Inits e req locks (paged_prefill_init clock addr e req)
  unfolding paged_prefill_init
  paged_prefill_init-Inits e req locks hp v =
      let out = lookup_prefix clock addr e req in
      reserve_pages-Inits e out.0 req out.1 out.2 locks hp
        (lookup_prefix-LookedUp e req locks e.memory.cache refl v)
