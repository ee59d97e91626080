-- ===== src/Radix/Lock/Inserted.antt =====
-- An insertion, splits included, keeps the reference counts equal to the locks held.
use cs349d_miniengine_sk_nc.Radix.Insert.Held.{Held, IsOlder}
use cs349d_miniengine_sk_nc.Common.{
  List, ap, arith, count, inl, inr, subst, sym, ℕ, ◌<◌, ◌≡◌, ◌≤◌, Bool-cases, ltb, ltb→le, ltb→lt,
  Option-cases, decr, some, ◌==◌, ◌∙◌, ◌∷◌,
}
use cs349d_miniengine_sk_nc.Radix.Cache.{RadixCache, ok, root_id}
use cs349d_miniengine_sk_nc.Radix.Contract.{IsCache}
use cs349d_miniengine_sk_nc.Radix.Contract.Lookups.{insert-IsCache, insert_and_return-Inserts}
use cs349d_miniengine_sk_nc.Radix.Insert.{Grown, insert_and_return}
use cs349d_miniengine_sk_nc.Radix.Lock.Counts.{LockedBy}
use cs349d_miniengine_sk_nc.Radix.Lock.Paths.{IsLocked}
use cs349d_miniengine_sk_nc.Radix.Node.{ids_of}
use cs349d_miniengine_sk_nc.Radix.WellFormed.{IsWf}
use cs349d_miniengine_sk_nc.Radix.Lock.{dec_lock_ref, on_path, walk_up}
use cs349d_miniengine_sk_nc.Radix.Lock.Held.{retouch, step-ids}

-- Identities are handed out in order: the root, the nodes and the locks have earlier ones.
pub record IsIssued (locks : List ℕ) (cache : RadixCache) : Type 0 where
  pub started : root_id < cache.next_id
  pub nodes : (j : ℕ) → cache.next_id ≤ j → count j (ids_of cache.children) ≡ 0
  pub holds : IsOlder cache.next_id locks

grown-IsLocked :
    (locks : List ℕ) (cache after : RadixCache) (g : Grown)
    → IsLocked locks cache
    → IsIssued locks cache
    → Held cache.next_id cache.children g
    → IsWf after.page_size after.children
    → after.page_size ≡ cache.page_size
    → after.children ≡ g.children
    → IsLocked locks after
grown-IsLocked locks cache after g v o h w size same =
    let ids : (j : ℕ) → count j (ids_of after.children) ≡ count j (ids_of g.children) =
      λ j. ap (λ z. count j (ids_of z)) same in
    record {
      paged = omega (arith, v.paged, size);
      wf = w;
      distinct = λ j. elim (Bool-cases (ltb j cache.next_id)) [
        | inl old ↦ omega (arith, ids j, h.before j (ltb→lt _ _ old), v.distinct j)
        | inr new ↦ omega (arith, ids j, h.once j, o.nodes j (ltb→le _ _ new))
      ];
      rooted = omega (arith, ids root_id, h.before root_id o.started, v.rooted);
      counts = subst (LockedBy locks) (sym same) (h.locked locks o.holds v.counts).0;
    }

-- After a successful insertion every node counts the locks on it and below it, as before.
pub insert-IsLocked :
    (locks : List ℕ) (cache : RadixCache) (now made : ℕ) (tokens pages : List ℕ)
    (r : RadixCache × ℕ × List ℕ)
    → IsLocked locks cache
    → IsIssued locks cache
    → insert_and_return cache now made tokens pages ≡ ok r
    → IsLocked locks r.0
insert-IsLocked locks cache now made tokens pages r v o e =
    let valid : IsCache cache = record { paged = v.paged; wf = v.wf } in
    let k = insert_and_return-Inserts cache now made tokens pages r valid e in
    grown-IsLocked locks cache r.0 k.grown.0 v o k.grown.3
      (insert-IsCache cache now made tokens pages r valid e).wf k.size k.grown.1

-- The identities stay in order through an insertion.
pub insert-IsIssued :
    (locks : List ℕ) (cache : RadixCache) (now made : ℕ) (tokens pages : List ℕ)
    (r : RadixCache × ℕ × List ℕ)
    → IsCache cache
    → IsIssued locks cache
    → insert_and_return cache now made tokens pages ≡ ok r
    → IsIssued locks r.0
insert-IsIssued locks cache now made tokens pages r v o e =
    let k = insert_and_return-Inserts cache now made tokens pages r v e in
    let (g, same, next, h) = k.grown in
    record {
      started = omega (arith, o.started, h.later, next);
      nodes = λ j q.
          let past : cache.next_id ≤ j = omega (arith, h.later, next, q) in
          ap (λ z. count j (ids_of z)) same ∙ (h.after j (omega (arith, next, q)) ∙ o.nodes j past);
      holds = λ j q. o.holds j (omega (arith, h.later, next, q));
    }

pub dec_lock_ref-IsIssued :
    (now i : ℕ) (locks : List ℕ) (cache : RadixCache)
    → IsIssued (i ∷ locks) cache
    → IsIssued locks (dec_lock_ref now cache (some i))
unfolding dec_lock_ref walk_up
dec_lock_ref-IsIssued now i locks cache o =
    let fewer : IsOlder cache.next_id locks = λ j q. unfold count in ground (arith, o.holds j q) in
    elim (Bool-cases (i == root_id)) [
      | inl root ↦ rw root (record { started = o.started; nodes = o.nodes; holds = fewer })
      | inr other ↦ elim (Option-cases (on_path (retouch decr (λ z. now)) i cache.children)) [
        | inl gone ↦
            rw (other, gone) (record { started = o.started; nodes = o.nodes; holds = fewer })
        | inr (cs, e) ↦
            let ids = step-ids decr (λ z. now) i cache.children cs e in
            rw (other, e)
              (record {
                started = o.started;
                nodes = λ j q. ap (count j) ids ∙ o.nodes j q;
                holds = fewer;
              })
      ]
    ]
