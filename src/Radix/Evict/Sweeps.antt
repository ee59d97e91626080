-- ===== src/Radix/Evict/Sweeps.antt =====
-- The sweep as a whole: what it keeps, and when it ends.
use cs349d_miniengine_sk_nc.Common.{
  ℕ, zero, suc, ◌+◌, ◌≤◌, ◌<◌, ◌≡◌, refl, sym, ap, ◌∙◌, subst, List, [], ◌∷◌, ◌++◌, Option, none,
  some, Bool, true, false, ◌==◌, ==_iff, ==_self, if◌then◌else◌, count, count-append, length,
  length-append, arith, Bool-cases, Option-cases, inl, inr, is_zero, is_pos, ◌=ₗ◌, =ₗ-self, ◌⊎◌,
  is_empty, ltb, ltb→le, take,
}
use cs349d_miniengine_sk_nc.Pool.{KvMemoryPool, num_free}
use cs349d_miniengine_sk_nc.Pool.Laws.{count-free, num_free-free}
use cs349d_miniengine_sk_nc.Radix.Node.{
  RadixNode, Children, empty, entry, has_none, ids_of, pages_of,
}
use cs349d_miniengine_sk_nc.Radix.Keys.{child_key}
use cs349d_miniengine_sk_nc.Radix.WellFormed.{IsFit, IsWf}
use cs349d_miniengine_sk_nc.Radix.Evict.{
  Place, Sweep, HeapItem, locate, detach, count_pages, drop_leaf, visit, sweep, rounds, pop_min,
}
use cs349d_miniengine_sk_nc.Radix.Evict.Places.{
  AreDistinct, here, under, beside, found, AreDistinct-below, has_none→empty, detach_absent,
  locate_counts, locate-IsFit, detach-AreDistinct, detach-IsWf, measure-detach, count-detach,
}
use cs349d_miniengine_sk_nc.Radix.Evict.Leaves.{goes}
use cs349d_miniengine_sk_nc.Radix.Evict.Heap.{heap_ids, pop_min-none, count-pop_min, length-pop_min}
use cs349d_miniengine_sk_nc.Radix.Evict.Push.{length-pushed}
use cs349d_miniengine_sk_nc.Radix.Evict.Drop.{Heaped, nobody, only, drop-Heaped}
use cs349d_miniengine_sk_nc.Radix.Evict.Guarded.{IsGuarded, IsGuarded-detach}
use cs349d_miniengine_sk_nc.Radix.Lock.Counts.{LockedBy}
use cs349d_miniengine_sk_nc.Radix.Evict.Unlocked.{LockedBy-detach}

-- The locked nodes of a tree.
unfoldable pub locked_nodes : Children → List RadixNode
locked_nodes empty = []
locked_nodes (entry slot node below rest) =
    let more = locked_nodes below ++ locked_nodes rest in
    if is_pos node.ref_count then node ∷ more else more

pub zero_not_pos : (n : RadixNode) → is_zero n.ref_count ≡ true → is_pos n.ref_count ≡ false
unfolding is_zero is_pos
zero_not_pos n h = ground arith

pub locked_nodes-detach :
    (i : ℕ) (up : Option RadixNode) (cs : Children) (place : Place)
    → AreDistinct cs
    → locate i up cs ≡ some place
    → has_none place.children ≡ true
    → is_pos place.node.ref_count ≡ false
    → locked_nodes (detach i cs) ≡ locked_nodes cs
unfolding locked_nodes detach
locked_nodes-detach i up empty place d h e u = refl
locked_nodes-detach i up (entry slot node below rest) place d h e u =
    let parts = AreDistinct-below slot node below rest d in
    elim (found i up slot node below rest place d h) [
      | here hit q zb zr ↦
          let none_below : below ≡ empty = has_none→empty below (ground (arith, q, e)) in
          let unlocked : is_pos node.ref_count ≡ false = ground (arith, q, u) in
          rw (hit, unlocked, none_below) (ap locked_nodes (detach_absent i rest zr))
      | under miss q zr ↦
          rw
            (
              miss,
              detach_absent i rest zr,
              locked_nodes-detach i (some node) below place parts.0 q e u,
            )
            refl
      | beside miss zb q ↦
          rw (miss, detach_absent i below zb, locked_nodes-detach i up rest place parts.1 q e u)
            refl
    ]

page_sums :
    (a : ℕ) (slot : List ℕ) (node : RadixNode) (below rest : Children)
    → count a (pages_of (entry slot node below rest))
      ≡ count a node.pages + (count a (pages_of below) + count a (pages_of rest))
unfolding pages_of
page_sums a slot node below rest = omega (
  arith,
  count-append a node.pages (pages_of below ++ pages_of rest),
  count-append a (pages_of below) (pages_of rest),
)

pub id_sums :
    (slot : List ℕ) (node : RadixNode) (below rest : Children)
    → length (ids_of (entry slot node below rest))
      ≡ 1 + (length (ids_of below) + length (ids_of rest))
unfolding ids_of
id_sums slot node below rest = omega (arith, length-append (ids_of below) (ids_of rest))

abbrev own_evictable : RadixNode → ℕ
own_evictable node = if is_zero node.ref_count then length node.pages else 0

-- What is so at every point of a sweep that began with the pool `pool₀` and the tree `cs₀`.
pub record Sweeps (p : ℕ) (pool₀ : KvMemoryPool) (cs₀ : Children) (s : Sweep) : Type 0 where
  pub wf : IsWf p s.children
  pub distinct : AreDistinct s.children
  pub guarded : IsGuarded s.children
  pub heaped : Heaped nobody s.children s.heap
  pub pages :
      (a : ℕ)
      → count a s.pool.free_list + count a (pages_of s.children)
        ≡ count a pool₀.free_list + count a (pages_of cs₀)
  pub free_pages : num_free s.pool ≡ num_free pool₀ + s.freed
  pub evictable : s.freed + count_pages Bool.false s.children ≡ count_pages Bool.false cs₀
  pub locked : locked_nodes s.children ≡ locked_nodes cs₀
  pub counted : (locks : List ℕ) → LockedBy locks cs₀ → LockedBy locks s.children
  pub fewer : (i : ℕ) → count i (ids_of s.children) ≤ count i (ids_of cs₀)

pub has_pages : (pages : List ℕ) → 0 < length pages → is_empty pages ≡ false
has_pages [] h = absurd (omega (arith, h))
has_pages (x ∷ xs) h = refl

pub no_items : (heap : List HeapItem) → length heap ≤ 0 → heap ≡ []
no_items [] h = refl
no_items (a ∷ heap) h = absurd (omega (arith, h))

module _ (addr : ℕ → ℕ) (p : ℕ) (pool₀ : KvMemoryPool) (cs₀ : Children) where
  abbrev Keeps : Sweep → Type 0
  Keeps = Sweeps p pool₀ cs₀

  -- The place of a popped item.
  module _ (s : Sweep) (it : HeapItem) (others : List HeapItem) (k : Keeps s)
      (popped : pop_min s.heap ≡ some (it, others)) where
    abbrev rest : Sweep
    rest = record s { heap = others }

    same_count :
        (j : ℕ) → (j == it.node) ≡ false → count j (heap_ids s.heap) ≡ count j (heap_ids others)
    same_count j h = ground (arith, count-pop_min j s.heap others it popped)

    rest-Heaped : Heaped (only it.node) s.children others
    rest-Heaped = record {
      sound = λ j place e h.
          k.heaped.sound j place e (omega (arith, count-pop_min j s.heap others it popped, h));
      complete = λ j place other e go.
          omega (arith, same_count j other, k.heaped.complete j place refl e go);
    }

    module _ (place : Place) (at : locate it.node none s.children ≡ some place)
        (go : goes place ≡ true) where
      named : it.node ≡ place.node.id
      named = sym (locate_counts it.node none s.children place at).1

      at_id : locate place.node.id none s.children ≡ some place
      at_id = subst (λ z. locate z none s.children ≡ some place) named at

      is_leaf : has_none place.children ≡ true
      is_leaf = ground (arith, go)

      drop-Keeps : Keeps (drop_leaf addr p place rest)
      unfolding drop_leaf
      drop-Keeps = record {
        wf = detach-IsWf p place.node.id s.children k.wf;
        distinct = detach-AreDistinct place.node.id s.children k.distinct;
        guarded = IsGuarded-detach place.node.id s.children k.guarded;
        heaped =
            drop-Heaped addr p place.node.id s.children others place k.wf k.distinct at_id go
              (subst (λ z. Heaped (only z) s.children others) named rest-Heaped);
        pages = λ a. omega (
          arith,
          k.pages a,
          count-free a s.pool place.node.pages,
          measure-detach (λ cs. count a (pages_of cs)) (λ n. count a n.pages)
              (unfold pages_of count in refl) (page_sums a) place.node.id none s.children place
              k.distinct at_id is_leaf,
        );
        free_pages = omega (arith, k.free_pages, num_free-free s.pool place.node.pages);
        evictable = omega (
          arith,
          k.evictable,
          measure-detach (count_pages Bool.false) own_evictable (unfold count_pages in refl)
              (λ slot node below rest'. unfold count_pages in refl) place.node.id none s.children
              place k.distinct at_id is_leaf,
          unlocked,
        );
        locked =
            locked_nodes-detach place.node.id none s.children place k.distinct at_id is_leaf
              (zero_not_pos place.node (ground (arith, go)))
            ∙ k.locked;
        counted = λ locks h.
            LockedBy-detach place.node.id locks none s.children place k.distinct at_id go
              (k.counted locks h);
        fewer = λ i. omega (arith, k.fewer i, count-detach place.node.id i s.children);
      }
        where
          unlocked : own_evictable place.node ≡ length place.node.pages
          unlocked = ground (arith, go)

      drop_shrinks : rounds addr p (drop_leaf addr p place rest) < rounds addr p s
      unfolding drop_leaf
      drop_shrinks = omega (
        arith,
        length-pop_min s.heap others it popped,
        length-pushed addr p place.parent (detach place.node.id s.children) others,
        measure-detach (λ cs. length (ids_of cs)) (λ n. 1) (unfold ids_of in refl) id_sums
            place.node.id none s.children place k.distinct at_id is_leaf,
      )

      -- A place that may go passes all the tests of the loop's body.
      visit_drops : visit addr p it.node rest ≡ drop_leaf addr p place rest
      unfolding visit child_key
      visit_drops =
          let f : IsFit p place.slot place.node =
            locate-IsFit p it.node none s.children place k.wf at in
          let slotted : (place.slot =ₗ take p place.node.key) ≡ true =
            ap (λ z. z =ₗ take p place.node.key) f.slotted ∙ =ₗ-self (take p place.node.key) in
          let unlocked : is_pos place.node.ref_count ≡ false =
            zero_not_pos place.node (ground (arith, go)) in
          rw (at, visit) (rw (unlocked, slotted, has_pages place.node.pages f.some_pages) refl)

    rest-Keeps : locate it.node none s.children ≡ none → Keeps rest
    rest-Keeps gone = record {
      wf = k.wf;
      distinct = k.distinct;
      guarded = k.guarded;
      heaped = record {
        sound = rest-Heaped.sound;
        complete = λ j place _ e go. elim (Bool-cases (j == it.node)) [
          | inl same ↦
              let absent : locate j none s.children ≡ none =
                ap (λ z. locate z none s.children) ((==_iff j it.node).0 same) ∙ gone in
              cc
          | inr other ↦ rest-Heaped.complete j place other e go
        ];
      };
      pages = k.pages;
      free_pages = k.free_pages;
      evictable = k.evictable;
      locked = k.locked;
      counted = k.counted;
      fewer = k.fewer;
    }

    visit_misses : locate it.node none s.children ≡ none → visit addr p it.node rest ≡ rest
    unfolding visit
    visit_misses gone = rw (gone, visit) refl

    -- One round keeps the books and takes one of the rounds that are left.
    round :
        Keeps (visit addr p it.node rest)
        × (rounds addr p (visit addr p it.node rest) < rounds addr p s)
    round = elim (Option-cases (locate it.node none s.children)) [
      | inl gone ↦ (
        subst Keeps (sym (visit_misses gone)) (rest-Keeps gone),
        subst (λ z. rounds addr p z < rounds addr p s) (sym (visit_misses gone))
            (omega (arith, length-pop_min s.heap others it popped)),
      )
      | inr (place, at) ↦
          let go =
            k.heaped.sound it.node place at
              (omega (arith, count-pop_min it.node s.heap others it popped, hit)) in
          (
            subst Keeps (sym (visit_drops place at go)) (drop-Keeps place at go),
            subst (λ z. rounds addr p z < rounds addr p s) (sym (visit_drops place at go))
                (drop_shrinks place at go),
          )
    ]
      where
        hit : ◌≡◌ {A = ℕ} (if it.node == it.node then 1 else 0) 1
        hit = rw (==_self it.node) refl

  -- With fuel for the rounds the sweep ends because enough is freed or no item is left.
  pub sweep-Sweeps :
      (fuel needed : ℕ) (s : Sweep)
      → Keeps s
      → rounds addr p s ≤ fuel
      → Keeps (sweep addr p fuel needed s)
        × ((needed ≤ (sweep addr p fuel needed s).freed) ⊎ ((sweep addr p fuel needed s).heap ≡ []))
  unfolding sweep
  sweep-Sweeps zero needed s k h = (k, inr (no_items s.heap (omega arith)))
  sweep-Sweeps (suc fuel) needed s k h = elim (Bool-cases (ltb s.freed needed)) [
    | inr enough ↦ rw (enough, sweep) (k, inl (ltb→le _ _ enough))
    | inl more ↦ elim (Option-cases (pop_min s.heap)) [
      | inl e ↦ rw (more, sweep) (rw (e, sweep) (k, inr (pop_min-none s.heap e)))
      | inr ((it, others), e) ↦
          let (k', shrinks) = round s it others k e in
          rw (more, sweep)
            (rw (e, sweep) (sweep-Sweeps fuel needed _ k' (omega (arith, shrinks, h))))
    ]
  ]
