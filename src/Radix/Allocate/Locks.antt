-- ===== src/Radix/Allocate/Locks.antt =====
-- An allocation, evictions included, takes away no lock.
use cs349d_miniengine_sk_nc.Common.{
  ℕ, ◌-◌, ◌≡◌, sym, List, Option, none, some, ◌==◌, ltb, arith, Bool-cases, inl, inr, subst,
}
use cs349d_miniengine_sk_nc.Pool.{KvMemoryPool, num_free}
use cs349d_miniengine_sk_nc.Radix.Cache.{RadixCache}
use cs349d_miniengine_sk_nc.Radix.Allocate.{Memory, allocate, make_room, reserve}
use cs349d_miniengine_sk_nc.Radix.Lock.Serving.{IsServingMemory, evict-IsServing}

module _ (addr : ℕ → ℕ) (p : ℕ) (locks : List ℕ) where
  make_room-IsServing :
      (pool : KvMemoryPool) (cache : Option RadixCache) (n : ℕ)
      → IsServingMemory p locks cache
      → IsServingMemory p locks (make_room addr (record { pool = pool; cache = cache }) n).cache
  unfolding make_room
  make_room-IsServing pool none n v = tt
  make_room-IsServing pool (some cache) n v = elim (Bool-cases (ltb (num_free pool) n)) [
    | inr fits ↦ rw fits v
    | inl short ↦ rw short (evict-IsServing addr p locks cache pool (n - num_free pool) v)
  ]

  reserve_cache : (m : Memory) (n : ℕ) → (reserve m n).1.cache ≡ m.cache
  unfolding reserve
  reserve_cache m n = ground arith

  -- An allocation takes away no lock.
  pub allocate-IsServing :
      (m : Memory) (n : ℕ)
      → IsServingMemory p locks m.cache
      → IsServingMemory p locks (allocate addr m n).1.cache
  unfolding allocate
  allocate-IsServing m n v = elim (Bool-cases (n == 0)) [
    | inl none_asked ↦ rw none_asked v
    | inr asked ↦ rw asked (
        subst (IsServingMemory p locks) (sym (reserve_cache (make_room addr m n) n))
          (make_room-IsServing m.pool m.cache n v))
  ]
