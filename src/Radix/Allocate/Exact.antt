-- ===== src/Radix/Allocate/Exact.antt =====
-- When an allocation succeeds, and what it hands out.
use cs349d_miniengine_sk_nc.Common.{
  ℕ, ◌+◌, ◌-◌, ◌≤◌, ◌<◌, ◌≡◌, refl, sym, List, [], Option, none, some, ◌==◌, ==_iff, count, length,
  arith, Bool-cases, inl, inr, ◌⊎◌, ltb, ltb→le, lt→ltb, le→ltb, ltb→lt,
}
use cs349d_miniengine_sk_nc.Pool.{KvMemoryPool, num_free, take_free, pop_pages}
use cs349d_miniengine_sk_nc.Pool.Laws.{pop_pages-Pops}
use cs349d_miniengine_sk_nc.Radix.Node.{pages_of}
use cs349d_miniengine_sk_nc.Radix.Cache.{RadixCache, ok, err, runtime_error}
use cs349d_miniengine_sk_nc.Radix.Evict.Contract.{IsLive, evict_enough, evict_keeps}
use cs349d_miniengine_sk_nc.Radix.Allocate.{Memory, num_evictable, make_room, reserve, allocate}

-- The cache, if there is one, is as the engine keeps it.
abbrev pub IsLiveMemory : Option RadixCache → Type 0
IsLiveMemory none = Unit {0}
IsLiveMemory (some cache) = IsLive cache

-- The pages that the cache holds.
abbrev pub held : Option RadixCache → List ℕ
held none = []
held (some cache) = pages_of cache.children

-- What making room does: the free pages grow to what was asked for if they can.
pub record Roomy (m : Memory) (n : ℕ) (after : Memory) : Type 0 where
  pub live : IsLiveMemory after.cache
  pub pages :
      (a : ℕ)
      → count a after.pool.free_list + count a (held after.cache)
        ≡ count a m.pool.free_list + count a (held m.cache)
  pub total : num_free after.pool + num_evictable after ≡ num_free m.pool + num_evictable m
  pub enough : n ≤ num_free m.pool + num_evictable m → n ≤ num_free after.pool
  pub grows : num_free m.pool ≤ num_free after.pool

stay :
    (m : Memory) (n : ℕ)
    → IsLiveMemory m.cache
    → (n ≤ num_free m.pool + num_evictable m → n ≤ num_free m.pool)
    → Roomy m n m
stay m n v h = record { live = v; pages = λ a. refl; total = refl; enough = h; grows = omega arith }

make_room-Roomy :
    (addr : ℕ → ℕ) (pool : KvMemoryPool) (cache : Option RadixCache) (n : ℕ)
    → IsLiveMemory cache
    → Roomy
        (record { pool = pool; cache = cache })
        n
        (make_room addr (record { pool = pool; cache = cache }) n)
unfolding make_room
make_room-Roomy addr pool none n v = stay _ n v (λ h. unfold num_evictable in omega arith)
make_room-Roomy addr pool (some cache) n v = elim (Bool-cases (ltb (num_free pool) n)) [
  | inr fits ↦ rw fits (stay _ n v (λ h. ltb→le _ _ fits))
  | inl short ↦
      let (enough, evictable, free_pages) = evict_enough addr cache pool (n - num_free pool) v in
      let (pages, locked, live) = evict_keeps addr cache pool (n - num_free pool) v in
      rw short (record {
        live = live;
        pages = pages;
        total = unfold num_evictable in omega (arith, evictable, free_pages);
        enough = λ h. unfold num_evictable in omega (arith, enough, free_pages);
        grows = omega (arith, free_pages);
      })
]

-- What a successful allocation hands out: `n` pages, taken from the free and the evictable ones.
pub record Hands (m : Memory) (n : ℕ) (pages : List ℕ) (after : Memory) : Type 0 where
  pub amount : length pages ≡ n
  pub same :
      (a : ℕ)
      → count a pages + (count a after.pool.free_list + count a (held after.cache))
        ≡ count a m.pool.free_list + count a (held m.cache)
  pub total : num_free after.pool + num_evictable after + n ≡ num_free m.pool + num_evictable m
  pub live : IsLiveMemory after.cache

take_free-some :
    (pool : KvMemoryPool) (n : ℕ)
    → n ≤ num_free pool
    → take_free pool n
      ≡ some (
        (pop_pages n pool.free_list).0,
        record pool { free_list = (pop_pages n pool.free_list).1 },
      )
unfolding take_free
take_free-some pool n h = rw (le→ltb (num_free pool) n h) refl

take_free-none : (pool : KvMemoryPool) (n : ℕ) → num_free pool < n → take_free pool n ≡ none
unfolding take_free
take_free-none pool n h = rw (lt→ltb (num_free pool) n h) refl

reserve-Hands :
    (m room : Memory) (n : ℕ)
    → Roomy m n room
    → n ≤ num_free room.pool
    → (pages : List ℕ) × (after : Memory) × (reserve room n ≡ (ok pages, after))
      × Hands m n pages after
unfolding reserve
reserve-Hands m room n r h =
    let popped = pop_pages-Pops n room.pool.free_list h in
    (
      (pop_pages n room.pool.free_list).0,
      record room { pool = record (room.pool) { free_list = (pop_pages n room.pool.free_list).1 } },
      rw (take_free-some room.pool n h, reserve) refl,
      record {
        amount = popped.amount;
        same = λ a. omega (arith, popped.same a, r.pages a);
        total =
            omega (
              arith,
              popped.remaining,
              r.total,
              same_evictable (pop_pages n room.pool.free_list).1,
            );
        live = r.live;
      },
    )
  where
    same_evictable :
        (left : List ℕ)
        → num_evictable (record room { pool = record (room.pool) { free_list = left } })
          ≡ num_evictable room
    same_evictable left = unfold num_evictable in refl

reserve_fails :
    (room : Memory) (n : ℕ) → num_free room.pool < n → reserve room n ≡ (err runtime_error, room)
unfolding reserve
reserve_fails room n h = rw (take_free-none room.pool n h, reserve) refl

-- What a refused allocation leaves: every page, free or cached, is still there.
pub record Refuses (m : Memory) (after : Memory) : Type 0 where
  pub same :
      (a : ℕ)
      → count a after.pool.free_list + count a (held after.cache)
        ≡ count a m.pool.free_list + count a (held m.cache)
  pub total : num_free after.pool + num_evictable after ≡ num_free m.pool + num_evictable m
  pub live : IsLiveMemory after.cache

room_cases :
    (addr : ℕ → ℕ) (m : Memory) (n : ℕ)
    → Roomy m n (make_room addr m n)
    → ((pages : List ℕ) × (after : Memory) × (n ≤ num_free m.pool + num_evictable m)
        × (reserve (make_room addr m n) n ≡ (ok pages, after))
        × Hands m n pages after)
      ⊎ ((after : Memory) × (num_free m.pool + num_evictable m < n)
          × (reserve (make_room addr m n) n ≡ (err runtime_error, after))
          × Refuses m after)
room_cases addr m n r = elim (Bool-cases (ltb (num_free m.pool + num_evictable m) n)) [
  | inr fits ↦
      let h = ltb→le _ _ fits in
      let (pages, after, e, k) = reserve-Hands m (make_room addr m n) n r (r.enough h) in
      inl (pages, after, h, e, k)
  | inl short ↦
      let h = ltb→lt _ _ short in
      inr (
        make_room addr m n,
        h,
        reserve_fails (make_room addr m n) n (omega (arith, h, r.total)),
        record { same = r.pages; total = r.total; live = r.live },
      )
]

-- For a cache as the engine keeps it, an allocation has one of two outcomes. If the free and the
-- evictable pages suffice, it hands out that many pages of theirs; if they do not, it is the
-- RuntimeError, and every page is still free or cached.
pub allocate_exact :
    (addr : ℕ → ℕ) (m : Memory) (n : ℕ)
    → IsLiveMemory m.cache
    → ((pages : List ℕ) × (after : Memory) × (n ≤ num_free m.pool + num_evictable m)
        × (allocate addr m n ≡ (ok pages, after))
        × Hands m n pages after)
      ⊎ ((after : Memory) × (num_free m.pool + num_evictable m < n)
          × (allocate addr m n ≡ (err runtime_error, after))
          × Refuses m after)
unfolding allocate
allocate_exact addr m n v = elim (Bool-cases (n == 0)) [
  | inl e ↦ rw e (
      inl (
        [],
        m,
        omega (arith, (==_iff n 0).0 e),
        refl,
        record {
          amount = sym ((==_iff n 0).0 e);
          same = λ a. unfold count in omega arith;
          total = omega (arith, (==_iff n 0).0 e);
          live = v;
        },
      ))
  | inr e ↦ rw e (room_cases addr m n (make_room-Roomy addr m.pool m.cache n v))
]
