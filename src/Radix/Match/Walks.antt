-- ===== src/Radix/Match/Walks.antt =====
-- The walk of `match_prefix` finds what the reference lookup finds, and changes only times.
use cs349d_miniengine_sk_nc.Common.{
  ℕ, zero, suc, ◌*◌, ◌<◌, ◌≤◌, ◌≡◌, refl, List, [], ◌∷◌, ◌++◌, none, some, length, take, drop,
  arith, Bool-cases, Option-cases, inl, inr, sym, ap, ◌∙◌, true, false, ltb, lt→ltb, le→ltb,
  length-append, length-take, length-drop, ◌==◌, subst, =ₗ-self,
}
use cs349d_miniengine_sk_nc.Radix.Node.{RadixNode, Children, get_child, put_child}
use cs349d_miniengine_sk_nc.Radix.Keys.{match_keys, child_key, page_align_len}
use cs349d_miniengine_sk_nc.Radix.WellFormed.{IsFit, IsWf, get_child-IsWf, put_child-IsWf}
use cs349d_miniengine_sk_nc.Radix.Look.{
  edge, look, shares, look_hit, look_miss, look-put_child, look_nil,
}
use cs349d_miniengine_sk_nc.Radix.Look.Merge.{
  parts, covers, meets, edge-parts, edge-covers, div_mul, mul_room,
}
use cs349d_miniengine_sk_nc.Radix.Insert.Fits.{mul_pos, nonzero}
use cs349d_miniengine_sk_nc.Radix.Match.{Walk, walk, stop, partial, whole}

pub record Walks (p : ℕ) (cs : Children) (tokens : List ℕ) (w : Walk) : Type 0 where
  pub wf : IsWf p w.children
  pub same : (t : List ℕ) → look p w.children t ≡ look p cs t
  pub found : w.pages ≡ look p cs tokens
  pub aligned : w.tokens ≡ length w.pages * p
  pub within : w.tokens ≤ length tokens

abbrev touched : ℕ → RadixNode → RadixNode
touched now node = record node { last_access = now }

zero_mul : (p : ℕ) → (0 * p == 0) ≡ true
zero_mul p = ground arith

aligned_again : (p k : ℕ) → 0 < p → page_align_len (k * p) p ≡ k * p
unfolding page_align_len
aligned_again p k hp = ap (λ z. z * p) (div_mul k p hp)

module _ (p now fuel at : ℕ) (cs : Children) (tok : ℕ) (toks : List ℕ) where
  abbrev slot : List ℕ
  slot = child_key (tok ∷ toks) p

  abbrev walked : Walk
  walked = walk p now (suc fuel) at cs (tok ∷ toks)

  walk_miss : get_child slot cs ≡ none → walked ≡ stop at cs
  unfolding walk
  walk_miss e = rw (e, walk) refl

  walk_whole :
      (node : RadixNode) (below : Children)
      → get_child slot cs ≡ some (node, below)
      → ltb (match_keys node.key (tok ∷ toks) p) (length node.key) ≡ false
      → walked
        ≡ whole slot
            (touched now node)
            cs
            (match_keys node.key (tok ∷ toks) p)
            (walk p now fuel node.id below (drop (match_keys node.key (tok ∷ toks) p) (tok ∷ toks)))
  unfolding walk
  walk_whole node below e full = rw (e, walk) (rw (full, walk) refl)

  walk_partly :
      (node : RadixNode) (below : Children)
      → get_child slot cs ≡ some (node, below)
      → ltb (match_keys node.key (tok ∷ toks) p) (length node.key) ≡ true
      → walked
        ≡ partial p at slot
            (touched now node)
            below
            cs
            (page_align_len (match_keys node.key (tok ∷ toks) p) p)
  unfolding walk
  walk_partly node below e part = rw (e, walk) (rw (part, walk) refl)

module _ (p now : ℕ) (hp : 0 < p) where
  -- The lookup does not see that a child was touched.
  same-touched :
      (slot : List ℕ) (node : RadixNode) (below after cs : Children)
      → get_child slot cs ≡ some (node, below)
      → ((t : List ℕ) → look p after t ≡ look p below t)
      → (t : List ℕ) → look p (put_child slot (touched now node) after cs) t ≡ look p cs t
  unfolding edge
  same-touched slot node below after cs e ih t =
      look-put_child p slot (touched now node) after cs t ∙ elim (Bool-cases (shares p slot t)) [
        | inl hit ↦ rw hit (ap (edge p node t) (ih _) ∙ sym (look_hit p slot cs node below t e hit))
        | inr miss ↦ rw miss refl
      ]

  touched-IsFit : (s : List ℕ) (n : RadixNode) → IsFit p s n → IsFit p s (touched now n)
  touched-IsFit s n f = record {
    aligned = f.aligned;
    some_pages = f.some_pages;
    slotted = f.slotted;
  }

  stop-Walks :
      (at : ℕ) (cs : Children) (tokens : List ℕ)
      → IsWf p cs
      → look p cs tokens ≡ []
      → Walks p cs tokens (stop at cs)
  stop-Walks at cs tokens w e = record {
    wf = w;
    same = λ t. refl;
    found = sym e;
    aligned = omega arith;
    within = omega arith;
  }

  module _ (fuel at : ℕ) (cs : Children) (tok : ℕ) (toks : List ℕ) (w : IsWf p cs)
      (node : RadixNode) (below : Children)
      (e : get_child (take p (tok ∷ toks)) cs ≡ some (node, below))
      (f : IsFit p (take p (tok ∷ toks)) node) (wb : IsWf p below) where
    abbrev tokens : List ℕ
    tokens = tok ∷ toks

    hit : shares p (take p tokens) tokens ≡ true
    hit = unfold shares in =ₗ-self (take p tokens)

    borrowed :
        (k : ℕ)
        → k < length node.pages
        → match_keys node.key tokens p ≡ k * p
        → look p cs tokens ≡ take k node.pages
    borrowed k fewer m =
        look_hit p (take p tokens) cs node below tokens e hit
        ∙ edge-parts p k (take p tokens) node tokens _ hp f fewer m

    put-IsWf : IsWf p (put_child (take p tokens) (touched now node) below cs)
    put-IsWf =
        put_child-IsWf p (take p tokens) (touched now node) below cs (touched-IsFit _ node f) wb w

    partly-Walks :
        (k : ℕ)
        → k < length node.pages
        → k * p ≤ length tokens
        → match_keys node.key tokens p ≡ k * p
        → Walks p cs tokens (partial p at (take p tokens) (touched now node) below cs (k * p))
    unfolding partial
    partly-Walks zero fewer within m = rw (zero_mul p) record {
      wf = put-IsWf;
      same = same-touched _ node below below cs e (λ t. refl);
      found = sym (borrowed 0 fewer m);
      aligned = omega arith;
      within = omega arith;
    }
    partly-Walks (suc k) fewer within m =
        rw (nonzero (suc k * p) (omega (arith, mul_pos (suc k) p (omega arith)))) record {
          wf = put-IsWf;
          same = same-touched _ node below below cs e (λ t. refl);
          found =
              ap (λ z. take z node.pages) (div_mul (suc k) p hp) ∙ sym (borrowed (suc k) fewer m);
          aligned =
              ap (λ z. z * p)
                (sym (
                  ap (λ z. length (take z node.pages)) (div_mul (suc k) p hp)
                  ∙ omega (arith, length-take (suc k) node.pages)));
          within = within;
        }

    whole-Walks :
        (y : List ℕ) (rest : Walk)
        → tokens ≡ node.key ++ y
        → match_keys node.key tokens p ≡ length node.key
        → Walks p below (drop (match_keys node.key tokens p) tokens) rest
        → Walks p cs tokens
            (whole (take p tokens) (touched now node) cs (match_keys node.key tokens p) rest)
    unfolding whole
    whole-Walks y rest q m g = record {
      wf = put_child-IsWf p _ _ _ cs (touched-IsFit _ node f) g.wf w;
      same = same-touched _ node below rest.children cs e g.same;
      found =
          ap (◌++◌ node.pages) g.found
          ∙ sym (
              look_hit p (take p tokens) cs node below tokens e hit
              ∙ edge-covers p node tokens _ m);
      aligned =
          omega
            (arith, m, f.aligned, g.aligned, ap (λ z. z * p) (length-append node.pages rest.pages));
      within = omega (
        arith,
        m,
        ap length q,
        length-append node.key y,
        length-drop (match_keys node.key tokens p) tokens,
        g.within,
      );
    }

  abbrev pub Walked : ℕ → Type 0
  Walked fuel =
      (at : ℕ) (cs : Children) (tokens : List ℕ)
      → length tokens ≤ fuel
      → IsWf p cs
      → Walks p cs tokens (walk p now fuel at cs tokens)

  walk_nil : (fuel at : ℕ) (cs : Children) → IsWf p cs → Walks p cs [] (walk p now fuel at cs [])
  unfolding walk
  walk_nil zero at cs w = stop-Walks at cs [] w (look_nil p cs)
  walk_nil (suc fuel) at cs w = stop-Walks at cs [] w (look_nil p cs)

  walk_round :
      (fuel at : ℕ) (cs : Children) (tok : ℕ) (toks : List ℕ)
      → Walked fuel
      → length (tok ∷ toks) ≤ suc fuel
      → IsWf p cs
      → Walks p cs (tok ∷ toks) (walk p now (suc fuel) at cs (tok ∷ toks))
  unfolding child_key
  walk_round fuel at cs tok toks ih h w = elim (Option-cases (get_child (take p (tok ∷ toks)) cs)) [
    | inl e ↦
        subst (Walks p cs (tok ∷ toks)) (sym (walk_miss p now fuel at cs tok toks e)) (
          stop-Walks at cs (tok ∷ toks) w
            (look_miss p (take p (tok ∷ toks)) cs (tok ∷ toks) e refl))
    | inr ((node, below), e) ↦
        let (f, wb) = get_child-IsWf p (take p (tok ∷ toks)) cs node below w e in
        elim (meets p (take p (tok ∷ toks)) node (tok ∷ toks) hp f) [
          | parts u x y k key q ulen fewer long apart m ↦
              subst (Walks p cs (tok ∷ toks))
                (sym (
                  walk_partly p now fuel at cs tok toks node below e (
                    ap (λ z. ltb z (length node.key)) m
                    ∙ lt→ltb _ _ (omega (arith, f.aligned, mul_room k (length node.pages) p fewer)))
                  ∙ ap (partial p at (take p (tok ∷ toks)) (touched now node) below cs)
                      (ap (λ z. page_align_len z p) m ∙ aligned_again p k hp)))
                (partly-Walks fuel at cs tok toks w node below e f wb k fewer
                  (omega (arith, ap length q, length-append u y)) m)
          | covers y q m ↦
              subst (Walks p cs (tok ∷ toks))
                (sym (
                  walk_whole p now fuel at cs tok toks node below e
                    (ap (λ z. ltb z (length node.key)) m ∙ le→ltb _ _ (omega arith))))
                (whole-Walks fuel at cs tok toks w node below e f wb y _ q m (
                  ih node.id below _
                    (omega (
                      arith,
                      length-drop (match_keys node.key (tok ∷ toks) p) (tok ∷ toks),
                      m,
                      f.aligned,
                      mul_pos (length node.pages) p f.some_pages,
                    ))
                    wb))
        ]
  ]

  -- Enough fuel for the tokens is enough for the walk.
  pub walk-Walks : (fuel : ℕ) → Walked fuel
  walk-Walks fuel at cs [] h w = walk_nil fuel at cs w
  walk-Walks zero at cs (tok ∷ toks) h w = absurd (omega arith)
  walk-Walks (suc fuel) at cs (tok ∷ toks) h w =
      walk_round fuel at cs tok toks (walk-Walks fuel) h w
