-- ===== src/HiCache/Demote/Contents.antt =====
-- What the pages of a node hold, and what `_copy_kv` does to it.
use cs349d_miniengine_sk_nc.Common.{
  ==_self, List, Option, [], ap, arith, count, if◌then◌else◌, length, map, refl, some, true, ℕ, ◌+◌,
  ◌==◌, ◌∙◌, ◌∷◌, ◌≡◌, ◌≤◌,
}
use cs349d_miniengine_sk_nc.HiCache.{stands_on, tier_pages}
use cs349d_miniengine_sk_nc.HiCache.Demote.{Tiers, copy_kv}
use cs349d_miniengine_sk_nc.HiCache.Demote.Measures.{tier_sums}
use cs349d_miniengine_sk_nc.Radix.Evict.{Place, locate}
use cs349d_miniengine_sk_nc.Radix.Node.{CacheTier, Children, RadixNode, empty, entry}

module _ {ℓ} {V : Type ℓ} where
  -- What a node's pages hold, on the tier where they are.
  abbrev pub reading : Tiers V → RadixNode → List V
  reading t node = map (if stands_on CacheTier.cpu node then t.cpu_kv else t.gpu_kv) node.pages

  map_agree :
      (f g : ℕ → V) (xs : List ℕ) → ((q : ℕ) → 1 ≤ count q xs → f q ≡ g q) → map f xs ≡ map g xs
  unfolding count
  map_agree f g [] h = refl
  map_agree f g (x ∷ xs) h =
      ap (λ v. v ∷ map f xs) (h x (ground (arith, ==_self x)))
      ∙ ap (◌∷◌ (g x)) (map_agree f g xs (λ q k. h q (omega (arith, k))))

  copy_kv-miss :
      (src_pages dst_pages : List ℕ) (src dst : ℕ → V) (q : ℕ)
      → count q dst_pages ≡ 0
      → copy_kv src_pages dst_pages src dst q ≡ dst q
  unfolding copy_kv count
  copy_kv-miss [] ds src dst q h = refl
  copy_kv-miss (s ∷ ss) [] src dst q h = refl
  copy_kv-miss (s ∷ ss) (d ∷ ds) src dst q h =
      copy_kv-miss ss ds src (λ q. if q == d then src s else dst q) q (omega (arith, h))
      ∙ ground (arith, h)

  -- Copied pages hold what the originals hold, when no page is written twice.
  pub copy_kv-hit :
      (src_pages dst_pages : List ℕ) (src dst : ℕ → V)
      → length src_pages ≡ length dst_pages
      → ((a : ℕ) → count a dst_pages ≤ 1)
      → map (copy_kv src_pages dst_pages src dst) dst_pages ≡ map src src_pages
  unfolding copy_kv count
  copy_kv-hit [] [] src dst e h = refl
  copy_kv-hit [] (d ∷ ds) src dst e h = absurd (omega (arith, e))
  copy_kv-hit (s ∷ ss) [] src dst e h = absurd (omega (arith, e))
  copy_kv-hit (s ∷ ss) (d ∷ ds) src dst e h =
      ap (λ v. v ∷ map (copy_kv ss ds src dst') ds)
        (copy_kv-miss ss ds src dst' d (ground (arith, h d, ==_self d)) ∙ rw (==_self d) refl)
      ∙ ap (◌∷◌ (src s)) (copy_kv-hit ss ds src dst' (omega (arith, e)) (λ a. omega (arith, h a)))
    where
      dst' : ℕ → V
      dst' q = if q == d then src s else dst q

  -- Pages that are not written keep what they hold.
  pub copy_kv-apart :
      (src_pages dst_pages : List ℕ) (src dst : ℕ → V) (xs : List ℕ)
      → ((a : ℕ) → count a dst_pages + count a xs ≤ 1)
      → map (copy_kv src_pages dst_pages src dst) xs ≡ map dst xs
  copy_kv-apart src_pages dst_pages src dst xs h =
      map_agree _ dst xs (λ q k. copy_kv-miss src_pages dst_pages src dst q (omega (arith, h q, k)))

-- The pages of a node on a tier are among the pages of that tier.
pub locate-tier_pages :
    (tier : CacheTier) (i : ℕ) (up : Option RadixNode) (cs : Children) (place : Place)
    → locate i up cs ≡ some place
    → stands_on tier place.node ≡ true
    → (a : ℕ) → count a place.node.pages ≤ count a (tier_pages tier cs)
unfolding locate
locate-tier_pages tier i up empty place h on a = cc
locate-tier_pages tier i up (entry slot node below rest) place h on a = ground (
  arith,
  tier_sums tier a slot node below rest,
  ap (λ (z : Option Place). z) h,
  λ (e : locate i (some node) below ≡ some place).
      locate-tier_pages tier i (some node) below place e on a,
  λ (e : locate i up rest ≡ some place). locate-tier_pages tier i up rest place e on a,
)
