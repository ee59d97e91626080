-- ===== src/HiCache/Promote/Kept.antt =====
-- What a promotion keeps, and how its steps compose.
use cs349d_miniengine_sk_nc.Common.{arith, count, none, some, ℕ, ◌+◌, ◌∙◌, ◌≡◌, ◌≤◌}
use cs349d_miniengine_sk_nc.HiCache.{tier_pages}
use cs349d_miniengine_sk_nc.HiCache.Demote.{Tiers}
use cs349d_miniengine_sk_nc.HiCache.Demote.Contents.{reading}
use cs349d_miniengine_sk_nc.HiCache.Demote.Tiered.{IsExclusive, Stands, Tiered}
use cs349d_miniengine_sk_nc.Radix.Evict.{Place, locate}
use cs349d_miniengine_sk_nc.Radix.Node.{CacheTier}

module _ {ℓ} {V : Type ℓ} where
  -- No page of either tier is both free and in use, or in use twice.
  abbrev pub IsExact : Tiers V → Type 0
  IsExact t =
      IsExclusive t
      × ((a : ℕ) → count a t.pool.free_list + count a (tier_pages CacheTier.gpu t.children) ≤ 1)

  pub record Kept (p : ℕ) (t t' : Tiers V) : Type ℓ where
    pub stands : Stands p t'.children
    pub gpu_pages :
        (a : ℕ)
        → count a t'.pool.free_list + count a (tier_pages CacheTier.gpu t'.children)
          ≡ count a t.pool.free_list + count a (tier_pages CacheTier.gpu t.children)
    pub cpu_pages :
        (a : ℕ)
        → count a t'.cpu_pool.free_list + count a (tier_pages CacheTier.cpu t'.children)
          ≡ count a t.cpu_pool.free_list + count a (tier_pages CacheTier.cpu t.children)
    pub left :
        (j : ℕ) (new : Place)
        → locate j none t'.children ≡ some new
        → (old : Place) × (locate j none t.children ≡ some old)
          × (new.node.key ≡ old.node.key)
          × (IsExact t → reading t' new.node ≡ reading t old.node)

  pub Tiered-Kept : {p : ℕ} {t t' : Tiers V} {freed : ℕ} → Tiered p t t' freed → Kept p t t'
  Tiered-Kept k = record {
    stands = k.stands;
    gpu_pages = k.gpu_pages;
    cpu_pages = k.cpu_pages;
    left = λ j new e. let (old, q, same, keeps) = k.left j new e in (old, q, same, λ x. keeps x.0);
  }

  Kept-IsExact : {p : ℕ} {t t' : Tiers V} → Kept p t t' → IsExact t → IsExact t'
  Kept-IsExact k x =
      ((λ a. omega (arith, k.cpu_pages a, x.0 a)), (λ a. omega (arith, k.gpu_pages a, x.1 a)))

  pub then-Kept : {p : ℕ} {t t' t'' : Tiers V} → Kept p t t' → Kept p t' t'' → Kept p t t''
  then-Kept k l = record {
    stands = l.stands;
    gpu_pages = λ a. l.gpu_pages a ∙ k.gpu_pages a;
    cpu_pages = λ a. l.cpu_pages a ∙ k.cpu_pages a;
    left = λ j new e.
        let (mid, e', same, keeps) = l.left j new e in
        let (old, e'', same', keeps') = k.left j mid e' in
        (old, e'', same ∙ same', λ x. keeps (Kept-IsExact k x) ∙ keeps' x);
  }
