-- ===== src/Radix/Insert/Steps.antt =====
-- One round of the insertion loop on each of its branches.
use cs349d_miniengine_sk_nc.Common.{
  ℕ, suc, ◌-◌, ◌/◌, ◌≡◌, refl, List, [], ◌∷◌, none, some, true, false, ltb, ◌==◌, length, take,
  drop, subst,
}
use cs349d_miniengine_sk_nc.Radix.Node.{RadixNode, Children, get_child}
use cs349d_miniengine_sk_nc.Radix.Keys.{page_align_len, child_key, match_keys}
use cs349d_miniengine_sk_nc.Radix.Insert.{
  Grown, grow, make_child, below_node, split_upper, split_children, duplicates, asserted, splits_at,
}

abbrev pub touched : ℕ → RadixNode → RadixNode
touched now node = record node { last_access = now }

module _ (p now made fuel at fresh : ℕ) (cs : Children) (tok : ℕ) (toks pages : List ℕ)
    (room : ℕ) where
  abbrev pub grown : Grown
  grown = grow p now made (suc fuel) at fresh cs (tok ∷ toks) pages room

  abbrev pub slot : List ℕ
  slot = child_key (tok ∷ toks) p

  pub grow_leaf :
      get_child slot cs ≡ none
      → grown ≡ make_child made fresh slot (tok ∷ toks) (take room pages) cs
  unfolding grow
  grow_leaf e = rw (e, grow) refl

  pub grow_whole :
      (node : RadixNode) (below : Children)
      → get_child slot cs ≡ some (node, below)
      → ltb (match_keys node.key (tok ∷ toks) p) (length node.key) ≡ false
      → grown
        ≡ below_node slot
            (touched now node)
            cs
            (duplicates (take (length node.pages) pages) (touched now node))
            (grow p now made fuel node.id fresh below
              (drop (length node.key) (tok ∷ toks))
              (drop (length node.pages) pages)
              (room - length node.pages))
  unfolding grow
  grow_whole node below e full = rw (e, grow) (rw (full, grow) refl)

  abbrev pub split_grown : RadixNode → Children → ℕ → Grown
  split_grown node below split_at = asserted (splits_at p split_at (touched now node)) (
      below_node slot (split_upper p fresh split_at (touched now node)) cs [] (
        grow p now made fuel fresh (suc fresh) (split_children p split_at (touched now node) below)
          (drop split_at (tok ∷ toks)) (drop (split_at / p) pages) (room - split_at / p)))

  grow_aligned :
      (node : RadixNode) (below : Children)
      → get_child slot cs ≡ some (node, below)
      → ltb (match_keys node.key (tok ∷ toks) p) (length node.key) ≡ true
      → (page_align_len (match_keys node.key (tok ∷ toks) p) p == 0) ≡ false
      → grown ≡ split_grown node below (page_align_len (match_keys node.key (tok ∷ toks) p) p)
  unfolding grow
  grow_aligned node below e partly some_pages =
      rw (e, grow) (rw (partly, grow) (rw (some_pages, grow) refl))

  pub grow_split :
      (node : RadixNode) (below : Children) (split_at : ℕ)
      → get_child slot cs ≡ some (node, below)
      → ltb (match_keys node.key (tok ∷ toks) p) (length node.key) ≡ true
      → page_align_len (match_keys node.key (tok ∷ toks) p) p ≡ split_at
      → (split_at == 0) ≡ false
      → grown ≡ split_grown node below split_at
  grow_split node below split_at e partly at_eq =
      subst (λ z. (z == 0) ≡ false → grown ≡ split_grown node below z) at_eq
        (grow_aligned node below e partly)
