-- ===== src/Pool/Laws.antt =====
-- What the pool's operations do to the bag of free pages, and the page arithmetic.
use cs349d_miniengine_sk_nc.Common.{
  ℕ, zero, suc, ◌+◌, ◌*◌, ◌≤◌, ◌<◌, ◌≡◌, refl, List, [], ◌∷◌, arith, length, count, count-append,
  count-reverse, length-append, length-reverse, reverse,
}
use cs349d_miniengine_sk_nc.Pool.{KvMemoryPool, num_free, free, pop_pages, pages_needed}

pub count-free :
    (a : ℕ) (pool : KvMemoryPool) (pages : List ℕ)
    → count a (free pool pages).free_list ≡ count a pages + count a pool.free_list
unfolding free
count-free a pool pages =
    omega (arith, count-append a (reverse pages) pool.free_list, count-reverse a pages)

pub num_free-free :
    (pool : KvMemoryPool) (pages : List ℕ)
    → num_free (free pool pages) ≡ length pages + num_free pool
unfolding free
num_free-free pool pages =
    omega (arith, length-append (reverse pages) pool.free_list, length-reverse pages)

-- Popping takes the first `n` pages of the stack and loses none.
pub record Pops (n : ℕ) (stack taken left : List ℕ) : Type 0 where
  pub amount : length taken ≡ n
  pub same : (a : ℕ) → count a taken + count a left ≡ count a stack
  pub remaining : length left + n ≡ length stack

pub pop_pages-Pops :
    (n : ℕ) (stack : List ℕ)
    → n ≤ length stack
    → Pops n stack (pop_pages n stack).0 (pop_pages n stack).1
unfolding pop_pages count
pop_pages-Pops zero stack h = record {
  amount = refl;
  same = λ a. omega arith;
  remaining = omega arith;
}
pop_pages-Pops (suc n) [] h = absurd (omega arith)
pop_pages-Pops (suc n) (x ∷ stack) h =
    let rest = pop_pages-Pops n stack (omega arith) in
    record {
      amount = omega (arith, rest.amount);
      same = λ a. omega (arith, rest.same a);
      remaining = omega (arith, rest.remaining);
    }

-- For a positive page size the page count is the ceiling of the division: that many pages hold the
-- tokens, and one page less does not.
pub pages_needed-ceil :
    (page_size seq_len : ℕ)
    → 0 < page_size
    → (seq_len ≤ pages_needed page_size seq_len * page_size)
      × (pages_needed page_size seq_len * page_size < seq_len + page_size)
unfolding pages_needed
pages_needed-ceil page_size seq_len h = grind arith
