-- ===== src/Radix/Lock/Serving.antt =====
-- A cache that serves requests, with the locks they hold, under every call of the engine but commits,
-- for which see Inserted.antt.
use cs349d_miniengine_sk_nc.Common.{
  ℕ, ℤ, ◌≡◌, refl, sym, ap, ◌∙◌, List, ◌∷◌, Option, none, some, ◌==◌, count, arith, Bool-cases,
  Option-cases, inl, inr, decr, incr, subst,
}
use cs349d_miniengine_sk_nc.Pool.{KvMemoryPool}
use cs349d_miniengine_sk_nc.Radix.Node.{pages_of}
use cs349d_miniengine_sk_nc.Radix.Cache.{RadixCache, root_id}
use cs349d_miniengine_sk_nc.Radix.Match.{match_prefix}
use cs349d_miniengine_sk_nc.Radix.Match.Locks.{match_prefix-Touched}
use cs349d_miniengine_sk_nc.Radix.Contract.Outcomes.{match_prefix-Matches}
use cs349d_miniengine_sk_nc.Radix.Evict.{evict}
use cs349d_miniengine_sk_nc.Radix.Evict.Contract.{IsLive, evict-Evicts}
use cs349d_miniengine_sk_nc.Radix.WellFormed.{IsWf}
use cs349d_miniengine_sk_nc.Radix.Allocate.Exact.{IsLiveMemory}
use cs349d_miniengine_sk_nc.Radix.Lock.{walk_up, inc_lock_ref, dec_lock_ref, on_path}
use cs349d_miniengine_sk_nc.Radix.Lock.Counts.{LockedBy-IsGuarded}
use cs349d_miniengine_sk_nc.Radix.Lock.Held.{retouch, step-pages}
use cs349d_miniengine_sk_nc.Radix.Lock.Paths.{
  IsLocked, inc_lock_ref-IsLocked, dec_lock_ref-IsLocked,
}

-- The cache keys pages of the pool's size, and counts these locks.
pub record IsServing (p : ℕ) (locks : List ℕ) (cache : RadixCache) : Type 0 where
  pub size : cache.page_size ≡ p
  pub locked : IsLocked locks cache

abbrev pub IsServingMemory : ℕ → List ℕ → Option RadixCache → Type 0
IsServingMemory p locks none = Unit {0}
IsServingMemory p locks (some cache) = IsServing p locks cache

pub IsLocked-IsLive : (locks : List ℕ) (cache : RadixCache) → IsLocked locks cache → IsLive cache
IsLocked-IsLive locks cache v = record {
  paged = v.paged;
  wf = v.wf;
  distinct = v.distinct;
  guarded = LockedBy-IsGuarded locks cache.children v.counts;
}

pub serving_live :
    (p : ℕ) (locks : List ℕ) (c : Option RadixCache) → IsServingMemory p locks c → IsLiveMemory c
serving_live p locks none v = tt
serving_live p locks (some cache) v = IsLocked-IsLive locks cache v.locked

walk_up_pages :
    (f : ℤ → ℤ) (g : ℕ → ℕ) (cache : RadixCache) (i : ℕ)
    → pages_of (walk_up (retouch f g) cache (some i)).children ≡ pages_of cache.children
unfolding walk_up
walk_up_pages f g cache i = elim (Bool-cases (i == root_id)) [
  | inl root ↦ rw root refl
  | inr other ↦ elim (Option-cases (on_path (retouch f g) i cache.children)) [
    | inl gone ↦ rw (other, gone) refl
    | inr (cs, e) ↦ rw (other, e) (step-pages f g i cache.children cs e)
  ]
]

walk_up_size :
    (f : ℤ → ℤ) (g : ℕ → ℕ) (cache : RadixCache) (i : ℕ)
    → (walk_up (retouch f g) cache (some i)).page_size ≡ cache.page_size
unfolding walk_up
walk_up_size f g cache i = ground arith

-- The locks with one more, if there is one.
abbrev pub with_lock : Option ℕ → List ℕ → List ℕ
with_lock none locks = locks
with_lock (some i) locks = i ∷ locks

pub inc_lock_ref-IsServing :
    (p : ℕ) (lock : Option ℕ) (locks : List ℕ) (cache : RadixCache)
    → IsServing p locks cache
    → IsServing p (with_lock lock locks) (inc_lock_ref cache lock)
      × (pages_of (inc_lock_ref cache lock).children ≡ pages_of cache.children)
unfolding inc_lock_ref
inc_lock_ref-IsServing p none locks cache v = unfold walk_up in (v, refl)
inc_lock_ref-IsServing p (some i) locks cache v = (
  record {
    size = walk_up_size incr (λ z. z) cache i ∙ v.size;
    locked = inc_lock_ref-IsLocked i locks cache v.locked;
  },
  walk_up_pages incr (λ z. z) cache i,
)

pub dec_lock_ref-IsServing :
    (p now : ℕ) (lock : Option ℕ) (locks : List ℕ) (cache : RadixCache)
    → IsServing p (with_lock lock locks) cache
    → IsServing p locks (dec_lock_ref now cache lock)
      × (pages_of (dec_lock_ref now cache lock).children ≡ pages_of cache.children)
unfolding dec_lock_ref
dec_lock_ref-IsServing p now none locks cache v = unfold walk_up in (v, refl)
dec_lock_ref-IsServing p now (some i) locks cache v = (
  record {
    size = walk_up_size decr (λ z. now) cache i ∙ v.size;
    locked = dec_lock_ref-IsLocked now i locks cache v.locked;
  },
  walk_up_pages decr (λ z. now) cache i,
)

pub match_prefix-IsServing :
    (p : ℕ) (locks : List ℕ) (cache : RadixCache) (now : ℕ) (tokens : List ℕ)
    → IsServing p locks cache
    → IsServing p locks (match_prefix cache now tokens).0
match_prefix-IsServing p locks cache now tokens v =
    let m =
      match_prefix-Matches cache now tokens (record { paged = v.locked.paged; wf = v.locked.wf }) in
    let t = match_prefix-Touched cache now tokens in
    record {
      size = m.size ∙ v.size;
      locked = record {
        paged = omega (arith, m.size, v.locked.paged);
        wf = subst (λ z. IsWf z (match_prefix cache now tokens).0.children) (sym m.size) m.wf;
        distinct = λ j. omega (arith, ap (count j) t.ids, v.locked.distinct j);
        rooted = ap (count root_id) t.ids ∙ v.locked.rooted;
        counts = t.counts locks v.locked.counts;
      };
    }

module _ (addr : ℕ → ℕ) (p : ℕ) (locks : List ℕ) where
  pub evict-IsServing :
      (cache : RadixCache) (pool : KvMemoryPool) (n : ℕ)
      → IsServing p locks cache
      → IsServing p locks (evict addr cache pool n).0
  evict-IsServing cache pool n v =
      let k = evict-Evicts addr cache pool (IsLocked-IsLive locks cache v.locked) n in
      record {
        size = k.size ∙ v.size;
        locked = record {
          paged = omega (arith, k.size, v.locked.paged);
          wf = subst (λ z. IsWf z (evict addr cache pool n).0.children) (sym k.size) k.wf;
          distinct = k.distinct;
          rooted = omega (arith, k.fewer root_id, v.locked.rooted);
          counts = k.counted locks v.locked.counts;
        };
      }
