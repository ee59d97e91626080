-- ===== src/Radix/Lock/Paths.antt =====
-- `inc_lock_ref` and `dec_lock_ref` keep the reference counts equal to the locks held.
use cs349d_miniengine_sk_nc.Common.{
  ℕ, ◌≡◌, sym, ap, ◌∙◌, List, ◌∷◌, some, pos, incr, decr, ℤ, ◌==◌, count, arith, Bool-cases,
  Option-cases, inl, inr, subst, ==_iff, ◌<◌,
}
use cs349d_miniengine_sk_nc.Radix.Node.{Children, empty, entry, ids_of}
use cs349d_miniengine_sk_nc.Radix.WellFormed.{IsWf}
use cs349d_miniengine_sk_nc.Radix.Cache.{RadixCache, root_id}
use cs349d_miniengine_sk_nc.Radix.Lock.{on_path, inc_lock_ref, dec_lock_ref, walk_up}
use cs349d_miniengine_sk_nc.Radix.Lock.Counts.{locks_on, LockedBy}
use cs349d_miniengine_sk_nc.Radix.Evict.Places.{AreDistinct, AreDistinct-below, count_ids}
use cs349d_miniengine_sk_nc.Radix.Lock.Held.{
  own, retouch, LockedBy_absent, here, under, beside, stepped, step-ids, step-some, step-none,
  step-IsWf, held_once, held_never, counted_in,
}

-- Taking a lock adds one to every count on the path, and to no other.
pub inc-LockedBy :
    (g : ℕ → ℕ) (i : ℕ) (locks : List ℕ) (cs after : Children)
    → on_path (retouch incr g) i cs ≡ some after
    → AreDistinct cs
    → LockedBy locks cs
    → LockedBy (i ∷ locks) after
unfolding incr
inc-LockedBy g i locks empty after h d k = unfold on_path in cc
inc-LockedBy g i locks (entry slot node below rest) after h d k =
    let parts = AreDistinct-below slot node below rest d in
    let mine = own i locks slot node below rest d in
    elim (stepped incr g i slot node below rest after h) [
      | here hit q ↦
          let (zb, zr) = counted_in i locks slot node below rest d hit in
          subst (LockedBy (i ∷ locks)) (sym q) (
            ap incr k.0
                ∙ ap pos
                    (sym (held_once i locks slot node below rest d (ground (arith, mine, hit)))),
            (LockedBy_absent i locks below zb).0 k.1,
            (LockedBy_absent i locks rest zr).0 k.2,
          )
      | under below' r q ↦
          let inside = step-some incr g i below below' r in
          let ids = step-ids incr g i below below' r in
          let zr : count i (ids_of rest) ≡ 0 =
            omega (arith, inside, d i, count_ids i slot node below rest) in
          subst (LockedBy (i ∷ locks)) (sym q) (
            ap incr k.0
                ∙ ap pos (
                    sym (held_once i locks slot node below rest d (omega (arith, mine, inside)))
                    ∙ ap (λ z. locks_on (i ∷ locks) (node.id ∷ z)) (sym ids)),
            inc-LockedBy g i locks below below' r parts.0 k.1,
            (LockedBy_absent i locks rest zr).0 k.2,
          )
      | beside rest' miss r t q ↦
          let zb = step-none incr g i below r in
          subst (LockedBy (i ∷ locks)) (sym q) (
            k.0
                ∙ ap pos (
                    sym
                      (held_never i locks slot node below rest d (ground (arith, mine, miss, zb)))),
            (LockedBy_absent i locks below zb).0 k.1,
            inc-LockedBy g i locks rest rest' t parts.1 k.2,
          )
    ]

-- Releasing a lock that is held takes one off every count on the path.
pub dec-LockedBy :
    (g : ℕ → ℕ) (i : ℕ) (locks : List ℕ) (cs after : Children)
    → on_path (retouch decr g) i cs ≡ some after
    → AreDistinct cs
    → LockedBy (i ∷ locks) cs
    → LockedBy locks after
unfolding decr
dec-LockedBy g i locks empty after h d k = unfold on_path in cc
dec-LockedBy g i locks (entry slot node below rest) after h d k =
    let parts = AreDistinct-below slot node below rest d in
    let mine = own i locks slot node below rest d in
    elim (stepped decr g i slot node below rest after h) [
      | here hit q ↦
          let (zb, zr) = counted_in i locks slot node below rest d hit in
          subst (LockedBy locks) (sym q) (
            ap decr (
                k.0
                ∙ ap pos (held_once i locks slot node below rest d (ground (arith, mine, hit)))),
            (LockedBy_absent i locks below zb).1 k.1,
            (LockedBy_absent i locks rest zr).1 k.2,
          )
      | under below' r q ↦
          let inside = step-some decr g i below below' r in
          let ids = step-ids decr g i below below' r in
          let zr : count i (ids_of rest) ≡ 0 =
            omega (arith, inside, d i, count_ids i slot node below rest) in
          subst (LockedBy locks) (sym q) (
            ap decr (
                  k.0
                  ∙ ap pos (held_once i locks slot node below rest d (omega (arith, mine, inside))))
                ∙ ap (λ z. pos (locks_on locks (node.id ∷ z))) (sym ids),
            dec-LockedBy g i locks below below' r parts.0 k.1,
            (LockedBy_absent i locks rest zr).1 k.2,
          )
      | beside rest' miss r t q ↦
          let zb = step-none decr g i below r in
          subst (LockedBy locks) (sym q) (
            k.0
                ∙ ap pos
                    (held_never i locks slot node below rest d (ground (arith, mine, miss, zb))),
            (LockedBy_absent i locks below zb).1 k.1,
            dec-LockedBy g i locks rest rest' t parts.1 k.2,
          )
    ]

-- A cache with these locks on its nodes: paged, in shape, its nodes distinct objects and none of
-- them the root, each counting the locks on it and below it.
pub record IsLocked (locks : List ℕ) (cache : RadixCache) : Type 0 where
  pub paged : 0 < cache.page_size
  pub wf : IsWf cache.page_size cache.children
  pub distinct : AreDistinct cache.children
  pub rooted : count root_id (ids_of cache.children) ≡ 0
  pub counts : LockedBy locks cache.children

module _ (f : ℤ → ℤ) (g : ℕ → ℕ) (i : ℕ) (before after : List ℕ) (cache : RadixCache)
    (v : IsLocked before cache)
    (found : (cs : Children) → on_path (retouch f g) i cache.children ≡ some cs → LockedBy after cs)
    (missed : count i (ids_of cache.children) ≡ 0 → LockedBy after cache.children) where
  walk_up-IsLocked : IsLocked after (walk_up (retouch f g) cache (some i))
  unfolding walk_up
  walk_up-IsLocked = elim (Bool-cases (i == root_id)) [
    | inl root ↦ rw root (record {
      paged = v.paged;
      wf = v.wf;
      distinct = v.distinct;
      rooted = v.rooted;
      counts =
          missed (ap (λ z. count z (ids_of cache.children)) ((==_iff i root_id).0 root) ∙ v.rooted);
    })
    | inr other ↦ elim (Option-cases (on_path (retouch f g) i cache.children)) [
      | inl gone ↦
          rw (other, gone)
            (record {
              paged = v.paged;
              wf = v.wf;
              distinct = v.distinct;
              rooted = v.rooted;
              counts = missed (step-none f g i cache.children gone);
            })
      | inr (cs, e) ↦
          let ids = step-ids f g i cache.children cs e in
          rw (other, e)
            (record {
              paged = v.paged;
              wf = step-IsWf f g i cache.page_size cache.children cs e v.wf;
              distinct = λ j. omega (arith, v.distinct j, ap (count j) ids);
              rooted = ap (count root_id) ids ∙ v.rooted;
              counts = found cs e;
            })
    ]
  ]

-- With the locks `locks` held, locking a node leaves each node with the count of the locks on it and
-- below it, the new one included; the tree stays in shape.
pub inc_lock_ref-IsLocked :
    (i : ℕ) (locks : List ℕ) (cache : RadixCache)
    → IsLocked locks cache
    → IsLocked (i ∷ locks) (inc_lock_ref cache (some i))
unfolding inc_lock_ref
inc_lock_ref-IsLocked i locks cache v =
    walk_up-IsLocked incr (λ z. z) i locks (i ∷ locks) cache v
      (λ cs e. inc-LockedBy (λ z. z) i locks cache.children cs e v.distinct v.counts)
      (λ z. (LockedBy_absent i locks cache.children z).0 v.counts)

-- Releasing a lock that is held leaves each node with the count of the others.
pub dec_lock_ref-IsLocked :
    (now i : ℕ) (locks : List ℕ) (cache : RadixCache)
    → IsLocked (i ∷ locks) cache
    → IsLocked locks (dec_lock_ref now cache (some i))
unfolding dec_lock_ref
dec_lock_ref-IsLocked now i locks cache v =
    walk_up-IsLocked decr (λ z. now) i (i ∷ locks) locks cache v
      (λ cs e. dec-LockedBy (λ z. now) i locks cache.children cs e v.distinct v.counts)
      (λ z. (LockedBy_absent i locks cache.children z).1 v.counts)
