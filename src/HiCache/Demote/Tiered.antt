-- ===== src/HiCache/Demote/Tiered.antt =====
-- What every change of the two tiers keeps, and how changes compose.
use cs349d_miniengine_sk_nc.Common.{
  List, ap, arith, count, false, is_pos, is_zero, length, none, refl, some, true, ℕ, ◌+◌, ◌∙◌, ◌≡◌,
  ◌≤◌,
}
use cs349d_miniengine_sk_nc.HiCache.{count_unlocked, stands_on, tier_pages}
use cs349d_miniengine_sk_nc.HiCache.Demote.{Tiers}
use cs349d_miniengine_sk_nc.HiCache.Demote.Contents.{reading}
use cs349d_miniengine_sk_nc.HiCache.Demote.CpuHeap.{CpuSweeps}
use cs349d_miniengine_sk_nc.HiCache.Demote.Measures.{
  gpu_not_cpu, own_pages, own_unlocked, tier_none, tier_sums, unlocked_none, unlocked_sums,
}
use cs349d_miniengine_sk_nc.Pool.{free, num_free}
use cs349d_miniengine_sk_nc.Pool.Laws.{count-free, num_free-free}
use cs349d_miniengine_sk_nc.Radix.Evict.{Place, Sweep, detach, locate}
use cs349d_miniengine_sk_nc.Radix.Evict.Drop.{survivor, detach-stays}
use cs349d_miniengine_sk_nc.Radix.Evict.Guarded.{
  IsGuarded, IsGuarded-detach, IsSettled, IsSettled-detach, locate-IsSettled,
}
use cs349d_miniengine_sk_nc.Radix.Evict.Places.{
  AreDistinct, detach-AreDistinct, detach-IsWf, measure-detach,
}
use cs349d_miniengine_sk_nc.Radix.Evict.Sweeps.{locked_nodes, locked_nodes-detach}
use cs349d_miniengine_sk_nc.Radix.Node.{CacheTier, Children, RadixNode, empty, entry, has_none}
use cs349d_miniengine_sk_nc.Radix.WellFormed.{IsWf}

-- A tree as the cache keeps it: in shape, its nodes distinct objects and no reference count below
-- zero.
pub record Stands (p : ℕ) (cs : Children) : Type 0 where
  pub wf : IsWf p cs
  pub distinct : AreDistinct cs
  pub settled : IsSettled cs

module _ {ℓ} {V : Type ℓ} where
  -- No CPU page is both free and in use, or in use twice.
  abbrev pub IsExclusive : Tiers V → Type 0
  IsExclusive t =
      (a : ℕ) → count a t.cpu_pool.free_list + count a (tier_pages CacheTier.cpu t.children) ≤ 1

  -- From `t` to `t'`, with `freed` pages more in the GPU pool.
  pub record Tiered (p : ℕ) (t t' : Tiers V) (freed : ℕ) : Type ℓ where
    pub stands : Stands p t'.children
    pub guarded : IsGuarded t.children → IsGuarded t'.children
    pub gpu_pages :
        (a : ℕ)
        → count a t'.pool.free_list + count a (tier_pages CacheTier.gpu t'.children)
          ≡ count a t.pool.free_list + count a (tier_pages CacheTier.gpu t.children)
    pub cpu_pages :
        (a : ℕ)
        → count a t'.cpu_pool.free_list + count a (tier_pages CacheTier.cpu t'.children)
          ≡ count a t.cpu_pool.free_list + count a (tier_pages CacheTier.cpu t.children)
    pub free_pages : num_free t'.pool ≡ num_free t.pool + freed
    pub evictable :
        freed + count_unlocked CacheTier.gpu t'.children ≡ count_unlocked CacheTier.gpu t.children
    pub locked : locked_nodes t'.children ≡ locked_nodes t.children
    -- Locked nodes stay where and as they are.
    pub stays :
        (j : ℕ) (old : Place)
        → locate j none t.children ≡ some old
        → is_pos old.node.ref_count ≡ true
        → (new : Place) × (locate j none t'.children ≡ some new) × (new.node ≡ old.node)
    pub left :
        (j : ℕ) (new : Place)
        → locate j none t'.children ≡ some new
        → (old : Place) × (locate j none t.children ≡ some old)
          × (new.node.key ≡ old.node.key)
          × (IsExclusive t → reading t' new.node ≡ reading t old.node)

  Tiered-IsExclusive :
      {p : ℕ} {t t' : Tiers V} {freed : ℕ} → Tiered p t t' freed → IsExclusive t → IsExclusive t'
  Tiered-IsExclusive k x a = omega (arith, k.cpu_pages a, x a)

  pub none-Tiered : (p : ℕ) (t : Tiers V) → Stands p t.children → Tiered p t t 0
  none-Tiered p t v = record {
    stands = v;
    guarded = λ g. g;
    gpu_pages = λ a. refl;
    cpu_pages = λ a. refl;
    free_pages = omega arith;
    evictable = omega arith;
    locked = refl;
    stays = λ j old e u. (old, e, refl);
    left = λ j new e. (new, e, refl, λ _. refl);
  }

  pub then-Tiered :
      {p : ℕ} {t t' t'' : Tiers V} {n m : ℕ}
      → Tiered p t t' n
      → Tiered p t' t'' m
      → Tiered p t t'' (n + m)
  then-Tiered k l = record {
    stands = l.stands;
    guarded = λ g. l.guarded (k.guarded g);
    gpu_pages = λ a. l.gpu_pages a ∙ k.gpu_pages a;
    cpu_pages = λ a. l.cpu_pages a ∙ k.cpu_pages a;
    free_pages = omega (arith, k.free_pages, l.free_pages);
    evictable = omega (arith, k.evictable, l.evictable);
    locked = l.locked ∙ k.locked;
    stays = λ j old e u.
        let (mid, e', same) = k.stays j old e u in
        let (new, e'', same') =
          l.stays j mid e' (ap (λ (n : RadixNode). is_pos n.ref_count) same ∙ u) in
        (new, e'', same' ∙ same);
    left = λ j new e.
        let (mid, e', same, keeps) = l.left j new e in
        let (old, e'', same', keeps') = k.left j mid e' in
        (old, e'', same ∙ same', λ x. keeps (Tiered-IsExclusive k x) ∙ keeps' x);
  }

  -- After `_evict_cpu_lru`.
  pub evicted-Tiered :
      (p : ℕ) (t : Tiers V) (s : Sweep)
      → CpuSweeps p t.cpu_pool t.children s
      → Tiered p t (record t { cpu_pool = s.pool; children = s.children }) 0
  evicted-Tiered p t s k = record {
    stands = record { wf = k.wf; distinct = k.distinct; settled = k.settled };
    guarded = k.guarded;
    gpu_pages = λ a. omega (arith, k.gpu_pages a);
    cpu_pages = k.cpu_pages;
    free_pages = omega arith;
    evictable = omega (arith, k.evictable);
    locked = k.locked;
    stays = λ j old e u. k.stays j old e (rw u refl);
    left = λ j new e.
        let (old, e', same) = k.left j new e in
        (old, e', ap (λ (n : RadixNode). n.key) same, λ _. ap (reading t) same);
  }

  -- A leaf of the GPU tier leaves the tree.
  pub dropped-Tiered :
      (p : ℕ) (t : Tiers V) (place : Place)
      → Stands p t.children
      → locate place.node.id none t.children ≡ some place
      → has_none place.children ≡ true
      → is_pos place.node.ref_count ≡ false
      → stands_on CacheTier.gpu place.node ≡ true
      → Tiered p t
          (record t {
            pool = free t.pool place.node.pages;
            children = detach place.node.id t.children;
          })
          (length place.node.pages)
  dropped-Tiered p t place v at leaf unlocked on = record {
    stands = record {
      wf = detach-IsWf p i t.children v.wf;
      distinct = detach-AreDistinct i t.children v.distinct;
      settled = IsSettled-detach i t.children v.settled;
    };
    guarded = IsGuarded-detach i t.children;
    gpu_pages = λ a. omega (
      arith,
      loses (λ cs. count a (tier_pages CacheTier.gpu cs)) (λ n. count a (own_pages CacheTier.gpu n))
          (tier_none CacheTier.gpu a) (tier_sums CacheTier.gpu a),
      all_here a,
      count-free a t.pool place.node.pages,
    );
    cpu_pages = λ a. omega (
      arith,
      loses (λ cs. count a (tier_pages CacheTier.cpu cs)) (λ n. count a (own_pages CacheTier.cpu n))
          (tier_none CacheTier.cpu a) (tier_sums CacheTier.cpu a),
      none_here a,
    );
    free_pages = omega (arith, num_free-free t.pool place.node.pages);
    evictable = omega (
      arith,
      loses (count_unlocked CacheTier.gpu) (own_unlocked CacheTier.gpu)
          (unlocked_none CacheTier.gpu) (unlocked_sums CacheTier.gpu),
      own_all,
    );
    locked = locked_nodes-detach i none t.children place v.distinct at leaf unlocked;
    stays = λ j old e u. (
      record old { children = detach i old.children },
      detach-stays (λ n. is_pos n.ref_count) j t.children place old v.distinct at leaf unlocked e u,
      refl,
    );
    left = λ j new e.
        let (old, other, q, r) = survivor i j t.children place v.distinct at leaf new e in
        (old, q, ap (λ (z : Place). z.node.key) r, λ _. ap (λ (z : Place). reading t z.node) r);
  }
    where
      i : ℕ
      i = place.node.id

      loses :
          (measure : Children → ℕ) (own : RadixNode → ℕ)
          → measure empty ≡ 0
          → ((slot : List ℕ) (node : RadixNode) (below rest : Children)
              → measure (entry slot node below rest) ≡ own node + (measure below + measure rest))
          → measure (detach i t.children) + own place.node ≡ measure t.children
      loses measure own nothing sums =
          measure-detach measure own nothing sums i none t.children place v.distinct at leaf

      zero_refs : is_zero place.node.ref_count ≡ true
      zero_refs = locate-IsSettled i none t.children place v.settled at unlocked

      none_here : (a : ℕ) → count a (own_pages CacheTier.cpu place.node) ≡ 0
      none_here a = rw (gpu_not_cpu place.node on) (unfold count in refl)

      all_here : (a : ℕ) → count a (own_pages CacheTier.gpu place.node) ≡ count a place.node.pages
      all_here a = rw on refl

      own_all : own_unlocked CacheTier.gpu place.node ≡ length place.node.pages
      own_all = rw (on, zero_refs) refl
