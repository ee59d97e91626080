-- ===== src/Radix/Insert/Grew.antt =====
-- The insertion loop as a whole: by induction on its rounds.
use cs349d_miniengine_sk_nc.Common.{
  ℕ, zero, suc, ◌+◌, ◌*◌, ◌-◌, ◌/◌, ◌<◌, ◌≤◌, ◌≡◌, refl, List, [], ◌∷◌, ◌++◌, some, length, take,
  drop, arith, Option-cases, inl, inr, sym, ap, ◌∙◌, false, ltb, lt→ltb, le→ltb, length-append,
  length-take, length-drop, subst, take-append-drop, ◌%◌, ◌==◌, true,
}
use cs349d_miniengine_sk_nc.Radix.Node.{RadixNode, Children, get_child}
use cs349d_miniengine_sk_nc.Radix.Keys.{match_keys, pages_agree, child_key, page_align_len}
use cs349d_miniengine_sk_nc.Radix.Keys.Laws.{match_keys-append}
use cs349d_miniengine_sk_nc.Radix.WellFormed.{IsFit, IsWf, get_child-IsWf}
use cs349d_miniengine_sk_nc.Radix.Look.{edge, look, look_hit}
use cs349d_miniengine_sk_nc.Radix.Look.Merge.{
  merge, merge_short, parts, covers, meets, div_mul, mul_room,
}
use cs349d_miniengine_sk_nc.Radix.Insert.Lookup.{Grew, leaf-Grew, through-Grew, le_of_mul}
use cs349d_miniengine_sk_nc.Radix.Look.Grow.{drop_key}
use cs349d_miniengine_sk_nc.Radix.Look.Split.{edge-split, take_left}
use cs349d_miniengine_sk_nc.Radix.Insert.{
  Grown, grow, below_node, split_upper, split_lower, split_children, asserted, splits_at,
}
use cs349d_miniengine_sk_nc.Radix.Insert.Steps.{grow_leaf, grow_whole, grow_split, touched}
use native.Mathlib.Nat.{div-add-mod}
use cs349d_miniengine_sk_nc.Radix.Insert.Held.{Held, leaf-Held, same-Held, split-Held, whole-Held}
use cs349d_miniengine_sk_nc.Radix.Insert.Fits.{
  sub_mul, pos_of_mul, mul_pos, first_page, positive, touched-IsFit, has_key, nonzero, upper-IsFit,
  lower-IsFit,
}

-- A split in the middle of a key, after whole pages, passes the assertions.
may_split :
    (p k : ℕ) (node : RadixNode)
    → 0 < p
    → 0 < k
    → k * p < length node.key
    → splits_at p (k * p) node ≡ true
unfolding splits_at
may_split p k node hp positive_k inner =
    let start : ltb 0 (k * p) ≡ true =
      lt→ltb 0 (k * p) (omega (arith, mul_pos k p positive_k, hp)) in
    let end : ltb (k * p) (length node.key) ≡ true = lt→ltb _ _ inner in
    let aligned : ((k * p) % p == 0) ≡ true =
      ground (arith, div-add-mod (k * p) p, div_mul k p hp, ap (λ z. z * p) (div_mul k p hp)) in
    rw (start, end, aligned) refl

module _ (p now made : ℕ) (hp : 0 < p) where
  -- What the loop leaves: the lookups, and the identities and locks.
  abbrev pub Leaves : ℕ → Children → Grown → List ℕ → List ℕ → Type 0
  Leaves fresh cs g tokens pages = Grew p cs g.children tokens pages × Held fresh cs g

  -- What one level of the loop has to show of the levels below it.
  abbrev pub Grows : ℕ → Type 0
  Grows fuel =
      (at fresh : ℕ) (cs : Children) (tokens pages : List ℕ) (room : ℕ)
      → length tokens ≤ fuel
      → IsWf p cs
      → length tokens ≡ room * p
      → room ≤ length pages
      → Leaves fresh cs (grow p now made fuel at fresh cs tokens pages room) tokens pages

  module _ (fuel at fresh : ℕ) (cs : Children) (tok : ℕ) (toks pages : List ℕ) (room : ℕ)
      (ih : Grows fuel) (enough : length (tok ∷ toks) ≤ suc fuel) (w : IsWf p cs)
      (len : length (tok ∷ toks) ≡ room * p) (stored : room ≤ length pages) (node : RadixNode)
      (below : Children) (e : get_child (take p (tok ∷ toks)) cs ≡ some (node, below))
      (f : IsFit p (take p (tok ∷ toks)) node) (wb : IsWf p below) where
    abbrev tokens : List ℕ
    tokens = tok ∷ toks

    whole-Grew :
        (y : List ℕ)
        → tokens ≡ node.key ++ y
        → match_keys node.key tokens p ≡ length node.key
        → Leaves fresh cs (grow p now made (suc fuel) at fresh cs tokens pages room) tokens pages
    unfolding child_key below_node edge
    whole-Grew y q m =
        subst (λ (g : Grown). Leaves fresh cs g tokens pages)
          (sym (
            grow_whole p now made fuel at fresh cs tok toks pages room node below e
              (ap (λ z. ltb z (length node.key)) m ∙ le→ltb _ _ (omega arith))))
          (
            through-Grew p hp (take p tokens) (touched now node) below _ cs tokens rest pages
                (touched-IsFit p now (take p tokens) node f) w refl tokens_eq
                (room - edge_pages, rest_len) deeper.0
                (λ t h. look_hit p (take p tokens) cs node below t e h),
            whole-Held now fresh (take p tokens) node below cs _ _ e deeper.1,
          )
      where
        edge_pages : ℕ
        edge_pages = length node.pages

        rest : List ℕ
        rest = drop (length node.key) tokens

        long : length tokens ≡ length node.key + length y
        long = ap length q ∙ length-append node.key y

        fits : edge_pages ≤ room
        fits = le_of_mul edge_pages room p hp (omega (arith, long, f.aligned, len))

        rest_len : length rest ≡ (room - edge_pages) * p
        rest_len = omega (
          arith,
          length-drop (length node.key) tokens,
          sub_mul room edge_pages p fits,
          f.aligned,
          len,
        )

        deeper :
            Leaves fresh below
              (grow p now made fuel node.id fresh below rest
                (drop edge_pages pages)
                (room - edge_pages))
              rest
              (drop edge_pages pages)
        deeper =
            ih node.id fresh below rest (drop edge_pages pages) (room - edge_pages)
              (omega (
                arith,
                rest_len,
                sub_mul room edge_pages p fits,
                f.aligned,
                mul_pos edge_pages p f.some_pages,
              ))
              wb rest_len (omega (arith, length-drop edge_pages pages))

        tokens_eq : tokens ≡ node.key ++ rest
        tokens_eq =
            q
            ∙ ap (◌++◌ node.key) (sym (ap (drop (length node.key)) q ∙ drop_key node.key y _ refl))

    split-Grew :
        (u x y : List ℕ) (k : ℕ)
        → node.key ≡ u ++ x
        → tokens ≡ u ++ y
        → length u ≡ k * p
        → k < length node.pages
        → pages_agree x y p ≡ false
        → match_keys node.key tokens p ≡ k * p
        → Leaves fresh cs (grow p now made (suc fuel) at fresh cs tokens pages room) tokens pages
    unfolding child_key below_node edge split_children split_upper split_lower get_child asserted
    split-Grew u x y k key q ulen fewer apart m =
        subst (λ (g : Grown). Leaves fresh cs g tokens pages)
          (sym (
            grow_split p now made fuel at fresh cs tok toks pages room node below (k * p) e
              (ap (λ z. ltb z (length node.key)) m
                ∙ lt→ltb _ _ (omega (arith, f.aligned, mul_room k (length node.pages) p fewer)))
              (ap (λ z. page_align_len z p) m ∙ aligned_again)
              (nonzero (k * p) (omega (arith, mul_pos k p some)))))
          (
            through-Grew p hp (take p tokens) (split_upper p fresh (k * p) child)
                (split_children p (k * p) child below) _ cs tokens rest pages upper_fit w refl
                tokens_eq (room - k, rest_len)
                (subst
                  (λ z.
                    Grew p (split_children p (k * p) child below) after.children rest
                      (drop z pages))
                  amount deeper.0)
                (λ t h.
                  look_hit p (take p tokens) cs node below t e h
                  ∙ sym (
                      edge-split p hp (take p tokens) _ (take p tokens) child _ _ below child_fit
                        upper_fit lower_fit (sym (take-append-drop (k * p) node.key))
                        (sym (take-append-drop ((k * p) / p) node.pages)) t)),
            split-Held p now fresh (k * p) (take p tokens) node below cs after e
                (may_split p k (touched now node) hp some (omega (arith, inner_end))) deeper.1,
          )
      where
        child : RadixNode
        child = touched now node

        child_fit : IsFit p (take p tokens) child
        child_fit = touched-IsFit p now (take p tokens) node f

        rest : List ℕ
        rest = drop (k * p) tokens

        long : length tokens ≡ k * p + length y
        long = omega (arith, ap length q, length-append u y, ulen)

        fits : k ≤ room
        fits = le_of_mul k room p hp (omega (arith, long, len))

        rest_len : length rest ≡ (room - k) * p
        rest_len = omega (arith, length-drop (k * p) tokens, sub_mul room k p fits, len)

        some : 0 < k
        some = positive p k u x y node.key tokens key q ulen apart (
            first_page p (take p tokens) node.key tokens f.slotted refl
              (has_key node.key
                (omega (arith, f.aligned, mul_pos (length node.pages) p f.some_pages)))
              refl)

        upper_fit : IsFit p (take p tokens) (split_upper p fresh (k * p) child)
        upper_fit = upper-IsFit p fresh k hp (take p tokens) child child_fit some fewer

        lower_fit :
            IsFit p (child_key (split_lower p (k * p) child).key p) (split_lower p (k * p) child)
        lower_fit = lower-IsFit p fresh k hp (take p tokens) child child_fit some fewer

        tokens_eq : tokens ≡ take (k * p) node.key ++ rest
        tokens_eq =
            sym (take-append-drop (k * p) tokens)
            ∙ ap (λ z. z ++ rest)
                (ap (take (k * p)) q
                  ∙ take_left u y (k * p) (sym ulen)
                  ∙ sym (ap (take (k * p)) key ∙ take_left u x (k * p) (sym ulen)))

        inner_end : k * p < length node.key
        inner_end = omega (arith, f.aligned, mul_room k (length node.pages) p fewer, hp)

        after : Grown
        after =
            grow p now made fuel fresh (suc fresh) (split_children p (k * p) child below) rest
              (drop ((k * p) / p) pages) (room - (k * p) / p)

        deeper :
            Leaves
              (suc fresh)
              (split_children p (k * p) child below)
              after
              rest
              (drop ((k * p) / p) pages)
        deeper =
            ih fresh (suc fresh) (split_children p (k * p) child below) rest
              (drop ((k * p) / p) pages) (room - (k * p) / p)
              (omega (arith, rest_len, sub_mul room k p fits, mul_pos k p some, len, long))
              (lower_fit, refl, wb, tt) (rest_len ∙ ap (λ z. (room - z) * p) (sym (div_mul k p hp)))
              (omega (arith, length-drop ((k * p) / p) pages, div_mul k p hp))

        amount : (k * p) / p ≡ length (take ((k * p) / p) node.pages)
        amount = omega (arith, length-take ((k * p) / p) node.pages, div_mul k p hp)

        aligned_again : page_align_len (k * p) p ≡ k * p
        aligned_again = unfold page_align_len in ap (λ z. z * p) (div_mul k p hp)

  unchanged : (cs : Children) (pages : List ℕ) → IsWf p cs → Grew p cs cs [] pages
  unchanged cs pages w = record {
    wf = w;
    looks = λ t. sym (
        ap (λ z. merge (look p cs t) pages (z / p))
          (match_keys-append p hp [] [] t (0, omega arith) (unfold pages_agree in refl))
        ∙ merge_short (look p cs t) pages (0 / p) (omega arith));
  }

  grow_nil :
      (fuel at fresh : ℕ) (cs : Children) (pages : List ℕ) (room : ℕ)
      → IsWf p cs
      → Leaves fresh cs (grow p now made fuel at fresh cs [] pages room) [] pages
  unfolding grow
  grow_nil zero at fresh cs pages room w =
      (unchanged cs pages w, same-Held fresh cs _ refl refl refl)
  grow_nil (suc fuel) at fresh cs pages room w =
      (unchanged cs pages w, same-Held fresh cs _ refl refl refl)

  grow_round :
      (fuel at fresh : ℕ) (cs : Children) (tok : ℕ) (toks pages : List ℕ) (room : ℕ)
      → Grows fuel
      → length (tok ∷ toks) ≤ suc fuel
      → IsWf p cs
      → length (tok ∷ toks) ≡ room * p
      → room ≤ length pages
      → Leaves fresh cs
          (grow p now made (suc fuel) at fresh cs (tok ∷ toks) pages room)
          (tok ∷ toks)
          pages
  unfolding child_key
  grow_round fuel at fresh cs tok toks pages room ih h w len stored =
      elim (Option-cases (get_child (take p (tok ∷ toks)) cs)) [
        | inl e ↦
            subst (λ (g : Grown). Leaves fresh cs g (tok ∷ toks) pages)
              (sym (grow_leaf p now made fuel at fresh cs tok toks pages room e))
              (
                leaf-Grew p now made hp fresh room (tok ∷ toks) pages cs w
                    (pos_of_mul room p (length toks) len) len stored e,
                leaf-Held made fresh (take p (tok ∷ toks)) (tok ∷ toks) (take room pages) cs e,
              )
        | inr ((node, below), e) ↦
            let (f, wb) = get_child-IsWf p (take p (tok ∷ toks)) cs node below w e in
            elim (meets p (take p (tok ∷ toks)) node (tok ∷ toks) hp f) [
              | parts u x y k key q ulen fewer long apart m ↦
                  split-Grew fuel at fresh cs tok toks pages room ih h w len stored node below e f
                    wb u x y k key q ulen fewer apart m
              | covers y q m ↦
                  whole-Grew fuel at fresh cs tok toks pages room ih h w len stored node below e f
                    wb y q m
            ]
      ]

  -- Enough fuel for the tokens is enough for the loop.
  pub grow-Grows : (fuel : ℕ) → Grows fuel
  grow-Grows fuel at fresh cs [] pages room h w len stored = grow_nil fuel at fresh cs pages room w
  grow-Grows zero at fresh cs (tok ∷ toks) pages room h w len stored = absurd (omega arith)
  grow-Grows (suc fuel) at fresh cs (tok ∷ toks) pages room h w len stored =
      grow_round fuel at fresh cs tok toks pages room (grow-Grows fuel) h w len stored
