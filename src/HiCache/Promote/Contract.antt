-- ===== src/HiCache/Promote/Contract.antt =====
-- What `_promote_node` does, when its allocation succeeds and when it raises.
use mathlib.Core.Option
use cs349d_miniengine_sk_nc.Common.{
  ==_self, Bool-cases, List, ap, decr, decr-incr, false, incr, inl, inr, is_pos, length, ltb,
  ltb→le, ltb→lt, none, refl, some, true, ℕ, ◌-◌, ◌<◌, ◌∙◌, ◌≡◌, ◌⊎◌, subst, sym, ◌≤◌, arith,
}
use cs349d_miniengine_sk_nc.HiCache.{stands_on}
use cs349d_miniengine_sk_nc.HiCache.Demote.{Tiers, repaged}
use cs349d_miniengine_sk_nc.HiCache.Demote.Tiered.{Stands, Tiered, none-Tiered}
use cs349d_miniengine_sk_nc.HiCache.Evict.{HiSweep}
use cs349d_miniengine_sk_nc.HiCache.Promote.{
  Promotion, hi_make_room, promoted, recounted, with_ref, promote_node, to_gpu,
}
use cs349d_miniengine_sk_nc.HiCache.Promote.Kept.{Kept, Tiered-Kept, then-Kept}
use cs349d_miniengine_sk_nc.HiCache.Promote.Refs.{
  decr_fine, incr_pos, locate-set_ref, recounted_place, with_ref-Kept,
}
use cs349d_miniengine_sk_nc.Pool.{KvMemoryPool, num_free, pop_pages, take_free}
use cs349d_miniengine_sk_nc.Pool.Laws.{Pops, pop_pages-Pops}
use cs349d_miniengine_sk_nc.Radix.Evict.{Place, locate}
use cs349d_miniengine_sk_nc.Radix.Evict.Guarded.{locate-IsSettled}
use cs349d_miniengine_sk_nc.Radix.Node.{CacheTier, RadixNode}
use cs349d_miniengine_sk_nc.HiCache.Demote.Moves.{place_repaged}
use cs349d_miniengine_sk_nc.HiCache.Evict.Contract.{evict_tiers-Tiered}
use cs349d_miniengine_sk_nc.HiCache.Promote.Fetches.{to_gpu-Kept, to_gpu_there}

take_free-cases :
    (pool : KvMemoryPool) (n : ℕ)
    → ((taken : List ℕ) × (left : KvMemoryPool) × (take_free pool n ≡ some (taken, left))
        × Pops n pool.free_list taken left.free_list)
      ⊎ ((take_free pool n ≡ none) × (num_free pool < n))
unfolding take_free
take_free-cases pool n = elim (Bool-cases (ltb (num_free pool) n)) [
  | inl short ↦ inr (rw short refl, ltb→lt _ _ short)
  | inr fits ↦ inl (
    (pop_pages n pool.free_list).0,
    record pool { free_list = (pop_pages n pool.free_list).1 },
    rw fits refl,
    pop_pages-Pops n pool.free_list (ltb→le _ _ fits),
  )
]

module _ {ℓ} {V : Type ℓ} where
  -- Where the node is after the call, and on which tier.
  abbrev pub Ends : RadixNode → Promotion V → Type 0
  Ends node r =
      (new : Place) × (locate node.id none r.tiers.children ≡ some new)
      × (((r.done ≡ true)
            × (stands_on CacheTier.gpu new.node ≡ true)
            × (length new.node.pages ≡ length node.pages)
            × (new.node.ref_count ≡ node.ref_count))
          ⊎ ((r.done ≡ false) × (num_free r.tiers.pool < length node.pages) × (new.node ≡ node)))

module _ {ℓ} {V : Type ℓ} (addr : ℕ → ℕ) (p : ℕ) where
  make_room-Tiered :
      (t : Tiers V) (n : ℕ)
      → Stands p t.children
      → Tiered p t (hi_make_room addr p t n).tiers (hi_make_room addr p t n).freed
  unfolding hi_make_room
  make_room-Tiered t n v = elim (Bool-cases (ltb (num_free t.pool) n)) [
    | inl short ↦ rw short (evict_tiers-Tiered addr p t v (n - num_free t.pool)).0
    | inr fits ↦ rw fits (none-Tiered p t v)
  ]

  module _ (t : Tiers V) (place : Place) (v : Stands p t.children)
      (at : locate place.node.id none t.children ≡ some place)
      (on : stands_on CacheTier.cpu place.node ≡ true) where
    abbrev i : ℕ
    i = place.node.id

    abbrev n : ℕ
    n = length place.node.pages

    abbrev locked : Tiers V
    locked = with_ref incr i t

    abbrev roomy : HiSweep V
    roomy = hi_make_room addr p locked n

    abbrev released : Tiers V
    released = with_ref decr i roomy.tiers

    locked_place : Place
    locked_place = recounted_place incr i place

    positive : is_pos (incr place.node.ref_count) ≡ true
    positive = incr_pos place.node.ref_count (locate-IsSettled i none t.children place v.settled at)

    locked-Kept : Kept p t locked
    locked-Kept = with_ref-Kept incr i p t place v at (λ e. cc positive)

    locked_at : locate i none locked.children ≡ some locked_place
    unfolding with_ref locked_place
    locked_at = locate-set_ref incr i i t.children ∙ ap (Option.map (recounted_place incr i)) at

    locked_node : locked_place.node ≡ record (place.node) { ref_count = incr place.node.ref_count }
    unfolding locked_place
    locked_node = rw (==_self i) refl

    kept_in_room : Tiered p locked roomy.tiers roomy.freed
    kept_in_room = make_room-Tiered locked n locked-Kept.stands

    -- The lock keeps the node where and as it is while room is made.
    held :
        (new : Place) × (locate i none roomy.tiers.children ≡ some new)
        × (new.node ≡ locked_place.node)
    held =
        kept_in_room.stays i locked_place locked_at
          (ap (λ (m : RadixNode). is_pos m.ref_count) locked_node ∙ positive)

    released_place : Place
    released_place = recounted_place decr i held.0

    released-Kept : Kept p t released
    released-Kept = then-Kept locked-Kept (
        then-Kept (Tiered-Kept kept_in_room) (
          with_ref-Kept decr i p roomy.tiers held.0 kept_in_room.stands held.1 (
            decr_fine held.0.node.ref_count
              (ap (λ (m : RadixNode). is_pos m.ref_count) (held.2 ∙ locked_node) ∙ positive))))

    released_at : locate i none released.children ≡ some released_place
    unfolding with_ref released_place
    released_at =
        locate-set_ref decr i i roomy.tiers.children
        ∙ ap (Option.map (recounted_place decr i)) held.1

    released_node : released_place.node ≡ place.node
    unfolding released_place
    released_node =
        ap (recounted decr i) (held.2 ∙ locked_node)
        ∙ (rw (==_self i)
            (ap (λ z. record (place.node) { ref_count = z }) (decr-incr place.node.ref_count)))

    abbrev brought : List ℕ → KvMemoryPool → RadixNode → Promotion V
    brought taken left m = record {
      done = true;
      freed = roomy.freed;
      lost = roomy.lost;
      tiers = to_gpu m taken left released;
    }

    brought_back :
        (taken : List ℕ) (left : KvMemoryPool)
        → Pops n roomy.tiers.pool.free_list taken left.free_list
        → Kept p t (brought taken left place.node).tiers
          × Ends place.node (brought taken left place.node)
    unfolding to_gpu with_ref
    brought_back taken left pops =
        let m = released_place.node in
        let m_at : locate m.id none released.children ≡ some released_place =
          ap (λ (k : RadixNode). locate k.id none released.children) released_node ∙ released_at in
        let m_on : stands_on CacheTier.cpu m ≡ true =
          ap (stands_on CacheTier.cpu) released_node ∙ on in
        let m_pops : Pops (length m.pages) released.pool.free_list taken left.free_list =
          subst
            (λ (k : RadixNode).
              Pops (length k.pages) roomy.tiers.pool.free_list taken left.free_list)
            (sym released_node) pops in
        let m_there : repaged m.id taken CacheTier.gpu m
            ≡ record m { pages = taken; tier = CacheTier.gpu } =
          rw (==_self m.id) refl in
        subst
          (λ (k : RadixNode). Kept p t (brought taken left k).tiers × Ends k (brought taken left k))
          released_node
          (
            then-Kept released-Kept (
                to_gpu-Kept p released released_place taken left released-Kept.stands m_at m_on
                  m_pops),
            (
              place_repaged m.id taken CacheTier.gpu released_place,
              to_gpu_there p released released_place taken left released-Kept.stands m_at m_on
                  m_pops,
              inl (
                refl,
                ap (stands_on CacheTier.gpu) m_there ∙ (unfold stands_on in refl),
                ap (λ (k : RadixNode). length k.pages) m_there ∙ m_pops.amount,
                ap (λ (k : RadixNode). k.ref_count) m_there,
              ),
            ),
          )

    short_of_pages : num_free roomy.tiers.pool < n → num_free released.pool < n
    unfolding with_ref
    short_of_pages h = h

    promoted-Ends :
        Kept p t (promoted place.node roomy (take_free roomy.tiers.pool n)).tiers
        × Ends place.node (promoted place.node roomy (take_free roomy.tiers.pool n))
    unfolding promoted
    promoted-Ends = elim (take_free-cases roomy.tiers.pool n) [
      | inr (none_taken, short) ↦
          rw (none_taken, promoted)
            (
              released-Kept,
              (released_place, released_at, inr (refl, short_of_pages short, released_node)),
            )
      | inl (taken, left, e, pops) ↦ rw (e, promoted) (brought_back taken left pops)
    ]

    promoted_enough :
        n ≤ num_free t.pool → (promoted place.node roomy (take_free roomy.tiers.pool n)).done ≡ true
    unfolding promoted
    promoted_enough h = elim (take_free-cases roomy.tiers.pool n) [
      | inl (taken, left, e, pops) ↦ rw (e, promoted) refl
      | inr (none_taken, short) ↦
          absurd (omega (arith, h, short, kept_in_room.free_pages, same_pool))
    ]
      where
        same_pool : num_free locked.pool ≡ num_free t.pool
        same_pool = unfold with_ref in refl

  -- In two tiers whose tree is well-formed, with distinct nodes and no negative reference count,
  -- promoting a node of the CPU tier loses no page of either tier and makes up none, also when its
  -- allocation raises. Every node left in the tree stood there before under the same key, and holds
  -- what it held then, when no page was both free and in use or in use twice. The node itself stays:
  -- on the GPU tier with as many pages and the same reference count; or, if too few pages are free,
  -- as it was. If enough pages were free before, it is on the GPU tier.
  pub promote_node_lem :
      (t : Tiers V) (place : Place)
      → Stands p t.children
      → locate place.node.id none t.children ≡ some place
      → stands_on CacheTier.cpu place.node ≡ true
      → let r = promote_node addr p place.node t in
        Kept p t r.tiers
        × Ends place.node r
        × (length place.node.pages ≤ num_free t.pool → r.done ≡ true)
  unfolding promote_node
  promote_node_lem t place v at on =
      let both = promoted-Ends t place v at on in (both.0, both.1, promoted_enough t place v at on)
