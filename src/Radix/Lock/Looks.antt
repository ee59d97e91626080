-- ===== src/Radix/Lock/Looks.antt =====
-- Taking or releasing a lock changes no answer of the cache.
use cs349d_miniengine_sk_nc.Common.{
  ℕ, ℤ, ◌*◌, ◌≡◌, refl, sym, ap, ◌∙◌, List, Option, none, some, ◌==◌, if◌then◌else◌, drop, length,
  take, Bool-cases, Option-cases, inl, inr, decr,
}
use cs349d_miniengine_sk_nc.Radix.Node.{RadixNode, Children, empty, entry}
use cs349d_miniengine_sk_nc.Radix.Keys.{match_keys, page_align_len}
use cs349d_miniengine_sk_nc.Radix.Cache.{RadixCache, root_id}
use cs349d_miniengine_sk_nc.Radix.Look.{look, edge, shares}
use cs349d_miniengine_sk_nc.Radix.Match.{match_prefix}
use cs349d_miniengine_sk_nc.Radix.Contract.{IsCache}
use cs349d_miniengine_sk_nc.Radix.Contract.Outcomes.{match_prefix-Matches}
use cs349d_miniengine_sk_nc.Radix.Lock.{walk_up, dec_lock_ref, on_path}
use cs349d_miniengine_sk_nc.Radix.Lock.Held.{retouch, stepped, step-IsWf, here, under, beside}

module _ (f : ℤ → ℤ) (g : ℕ → ℕ) (i : ℕ) where
  step-look :
      (p : ℕ) (cs after : Children) (t : List ℕ)
      → on_path (retouch f g) i cs ≡ some after
      → look p after t ≡ look p cs t
  step-look p empty after t h = unfold on_path in cc
  step-look p (entry slot node below rest) after t h =
      elim (stepped f g i slot node below rest after h) [
        | here hit q ↦ ap (λ z. look p z t) q ∙ same_edge p slot node below rest t
        | under below' r q ↦
            ap (λ z. look p z t) q
            ∙ new_below p slot node below below' rest t
                (step-look p below below' (drop (match_keys node.key t p) t) r)
        | beside rest' miss r s q ↦
            ap (λ z. look p z t) q
            ∙ new_rest p slot node below rest rest' t (step-look p rest rest' t s)
      ]
    where
      same_edge :
          (p : ℕ) (slot : List ℕ) (node : RadixNode) (below rest : Children) (t : List ℕ)
          → look p (entry slot (retouch f g node) below rest) t
            ≡ look p (entry slot node below rest) t
      same_edge p slot node below rest t = unfold look edge in refl

      new_below :
          (p : ℕ) (slot : List ℕ) (node : RadixNode) (below below' rest : Children) (t : List ℕ)
          → look p below' (drop (match_keys node.key t p) t)
            ≡ look p below (drop (match_keys node.key t p) t)
          → look p (entry slot (retouch f g node) below' rest) t
            ≡ look p (entry slot node below rest) t
      new_below p slot node below below' rest t e =
          unfold look edge in ap (λ z. if shares p slot t then edge p node t z else look p rest t) e

      new_rest :
          (p : ℕ) (slot : List ℕ) (node : RadixNode) (below rest rest' : Children) (t : List ℕ)
          → look p rest' t ≡ look p rest t
          → look p (entry slot node below rest') t ≡ look p (entry slot node below rest) t
      new_rest p slot node below rest rest' t e =
          unfold look in
          ap
            (λ z.
              if shares p slot t
              then edge p node t (look p below (drop (match_keys node.key t p) t))
              else z)
            e

-- What releasing a lock leaves.
pub record Answers (cache after : RadixCache) : Type 0 where
  pub size : after.page_size ≡ cache.page_size
  pub valid : IsCache after
  pub looks :
      (t : List ℕ) → look cache.page_size after.children t ≡ look cache.page_size cache.children t

pub Answers-refl : (cache : RadixCache) → IsCache cache → Answers cache cache
Answers-refl cache v = record { size = refl; valid = v; looks = λ t. refl }

dec_found :
    (now i : ℕ) (cache : RadixCache)
    → IsCache cache
    → Answers cache (dec_lock_ref now cache (some i))
unfolding dec_lock_ref walk_up
dec_found now i cache v = elim (Bool-cases (i == root_id)) [
  | inl root ↦ rw root (Answers-refl cache v)
  | inr other ↦ elim (Option-cases (on_path (retouch decr (λ z. now)) i cache.children)) [
    | inl gone ↦ rw (other, gone) (Answers-refl cache v)
    | inr (cs, e) ↦
        rw (other, e)
          (record {
            size = refl;
            valid = record {
              paged = v.paged;
              wf = step-IsWf decr (λ z. now) i cache.page_size cache.children cs e v.wf;
            };
            looks = λ t. step-look decr (λ z. now) i cache.page_size cache.children cs t e;
          })
  ]
]

pub dec_lock_ref-Answers :
    (now : ℕ) (lock : Option ℕ) (cache : RadixCache)
    → IsCache cache
    → Answers cache (dec_lock_ref now cache lock)
dec_lock_ref-Answers now none cache v = unfold dec_lock_ref walk_up in Answers-refl cache v
dec_lock_ref-Answers now (some i) cache v = dec_found now i cache v

-- Caches that give the same answers match as many tokens.
pub Answers-matched :
    (cache after : RadixCache) (later : ℕ) (t : List ℕ)
    → IsCache cache
    → Answers cache after
    → (match_prefix after later t).1.matched_tokens ≡ (match_prefix cache later t).1.matched_tokens
Answers-matched cache after later t v a =
    let m = match_prefix-Matches cache later t v in
    let m' = match_prefix-Matches after later t a.valid in
    let whole : List ℕ = take (page_align_len (length t) cache.page_size) t in
    let found : (match_prefix after later t).1.matched_pages
        ≡ (match_prefix cache later t).1.matched_pages =
      m'.found
      ∙ ap (λ z. look z after.children (take (page_align_len (length t) z) t)) a.size
      ∙ a.looks whole
      ∙ sym m.found in
    m'.aligned
    ∙ ap (λ z. length z * after.page_size) found
    ∙ ap (λ z. length (match_prefix cache later t).1.matched_pages * z) a.size
    ∙ sym m.aligned
