-- ===== src/Radix/Evict/Drop.antt =====
-- Dropping one evictable leaf: what the sweep relies on stays, and the books balance.
use cs349d_miniengine_sk_nc.Common.{
  ℕ, ◌≤◌, ◌<◌, ◌≡◌, refl, sym, ap, ◌∙◌, subst, List, [], ◌∷◌, Option, none, some, Bool, true, false,
  ◌==◌, ==_iff, count, length, arith, Bool-cases, inl, inr, is_empty,
}
use cs349d_miniengine_sk_nc.Radix.Node.{Children, has_none, RadixNode}
use cs349d_miniengine_sk_nc.Radix.WellFormed.{IsFit, IsWf}
use cs349d_miniengine_sk_nc.Radix.Evict.{Place, HeapItem, locate, detach, push_parent, before}
use cs349d_miniengine_sk_nc.Radix.Evict.Places.{
  AreDistinct, has_none→empty, locate_counts, locate-IsFit, locate-detach, locate-detach_self,
  locate-LeafAt, on_children,
}
use cs349d_miniengine_sk_nc.Radix.Evict.Leaves.{goes, becomes_leaf}
use cs349d_miniengine_sk_nc.Radix.Evict.Heap.{heap_ids}
use cs349d_miniengine_sk_nc.Radix.Evict.Push.{pushed_more, pushed_origin, pushed_parent}

-- A heap item stands for a node that may go, and every node that may go, but for `i`, has one.
pub record Heaped (exempt : ℕ → Bool) (cs : Children) (heap : List HeapItem) : Type 0 where
  pub sound :
      (j : ℕ) (place : Place)
      → locate j none cs ≡ some place
      → 1 ≤ count j (heap_ids heap)
      → goes place ≡ true
  pub complete :
      (j : ℕ) (place : Place)
      → exempt j ≡ false
      → locate j none cs ≡ some place
      → goes place ≡ true
      → 1 ≤ count j (heap_ids heap)

abbrev pub nobody : ℕ → Bool
nobody j = false

abbrev pub only : ℕ → ℕ → Bool
only i j = j == i

pub detach-has_none : (i : ℕ) (cs : Children) → has_none cs ≡ true → has_none (detach i cs) ≡ true
detach-has_none i cs h =
    ap (λ z. has_none (detach i z)) (has_none→empty cs h) ∙ (unfold detach in refl)

on_children-some :
    (f : Children → Children) (o : Option Place) (place : Place)
    → on_children f o ≡ some place
    → (old : Place) × (o ≡ some old) × (place ≡ record old { children = f old.children })
on_children-some f none place h = cc
on_children-some f (some old) place h = (old, refl, ground (arith, h))

-- A node that is left stood there before, with the dropped leaf among its children or not.
pub survivor :
    (i j : ℕ) (cs : Children) (place : Place)
    → AreDistinct cs
    → locate i none cs ≡ some place
    → has_none place.children ≡ true
    → (new : Place) → locate j none (detach i cs) ≡ some new
    → (old : Place) × ((j == i) ≡ false)
      × (locate j none cs ≡ some old)
      × (new ≡ record old { children = detach i old.children })
survivor i j cs place d at leaf new e = elim (Bool-cases (j == i)) [
  | inl same ↦
      let gone : locate j none (detach i cs) ≡ none =
        ap (λ z. locate z none (detach i cs)) ((==_iff j i).0 same)
        ∙ locate-detach_self i none cs in
      cc
  | inr other ↦
      let (old, q, r) =
        on_children-some (detach i) (locate j none cs) new
          (sym (locate-detach i j none cs (locate-LeafAt i none cs place d at leaf) other) ∙ e) in
      (old, other, q, r)
]

-- A node that a test tells from the dropped leaf stays.
pub detach-stays :
    (chosen : RadixNode → Bool) (j : ℕ) (cs : Children) (place old : Place)
    → AreDistinct cs
    → locate place.node.id none cs ≡ some place
    → has_none place.children ≡ true
    → chosen place.node ≡ false
    → locate j none cs ≡ some old
    → chosen old.node ≡ true
    → locate j none (detach place.node.id cs)
      ≡ some (record old { children = detach place.node.id old.children })
detach-stays chosen j cs place old d at leaf unchosen e is_safe =
    elim (Bool-cases (j == place.node.id)) [
      | inl same ↦
          let again : locate j none cs ≡ some place =
            subst (λ z. locate z none cs ≡ some place) (sym ((==_iff j place.node.id).0 same)) at in
          let twice : old ≡ place = ground (arith, again, e) in
          let safe_too : chosen place.node ≡ true =
            ap (λ (z : Place). chosen z.node) (sym twice) ∙ is_safe in
          cc unchosen
      | inr other ↦
          locate-detach place.node.id j none cs
            (locate-LeafAt place.node.id none cs place d at leaf) other
          ∙ ap (on_children (detach place.node.id)) e
    ]

module _ (addr : ℕ → ℕ) (p : ℕ) (i : ℕ) (cs : Children) (heap : List HeapItem) (place : Place)
    (w : IsWf p cs) (d : AreDistinct cs) (at : locate i none cs ≡ some place)
    (go : goes place ≡ true) (ready : Heaped (only i) cs heap) where
  abbrev after : Children
  after = detach i cs

  is_leaf : has_none place.children ≡ true
  is_leaf = ground (arith, go)

  pub drop-Heaped : Heaped nobody after (push_parent addr p place.parent after heap)
  drop-Heaped = record {
    sound = λ j new e counted. elim (pushed_origin addr p j place.parent after heap counted) [
      | inr (pl, q, goes_pl) ↦
          let same : pl ≡ new = ground (arith, q, e) in ap goes (sym same) ∙ goes_pl
      | inl before ↦
          let (old, other, q, r) = survivor i j cs place d at is_leaf new e in
          let went : goes old ≡ true = ready.sound j old q before in
          ground (arith, went, r, detach-has_none i old.children)
    ];
    complete = λ j new _ e new_goes.
        let (old, other, q, r) = survivor i j cs place d at is_leaf new e in
        elim (Bool-cases (has_none old.children)) [
          | inl was_leaf ↦
              let counted : 1 ≤ count j (heap_ids heap) =
                ready.complete j old other q (ground (arith, new_goes, r, was_leaf)) in
              omega (arith, counted, pushed_more addr p j place.parent after heap)
          | inr had_children ↦
              let o =
                becomes_leaf i j none cs old d other q had_children (ground (arith, new_goes, r)) in
              let same : o.place ≡ place = ground (arith, at, o.found_at) in
              let up : place.parent ≡ some old.node =
                ap (λ (z : Place). z.parent) (sym same) ∙ o.under_parent in
              let f : IsFit p old.slot old.node = locate-IsFit p j none cs old w q in
              subst (λ z. 1 ≤ count j (heap_ids (push_parent addr p z after heap))) (sym up)
                (pushed_parent addr p j old.node after heap new e new_goes
                  (ap (λ (z : Place). is_empty z.node.pages) r ∙ paged old.node.pages f.some_pages)
                  (locate_counts j none cs old q).1)
        ];
  }
    where
      paged : (pages : List ℕ) → 0 < length pages → is_empty pages ≡ false
      paged [] h = absurd (omega (arith, h))
      paged (x ∷ xs) h = refl
