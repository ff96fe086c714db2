-- ===== src/Treap/Augment.antt =====
-- lib/treap/augment.hpp: the cached sums of counters.
use contreap.Prelude.{ℕ, ◌+◌, ◌≡◌, ◌⊎◌, inr, refl, arith, true, false, ◌==◌, wrap}
use contreap.Tree.{Tree, null, node, total}
use contreap.Tree.Canonical.{shape}
use contreap.Treap.Node.{Cell, cell_keyed, aug_uninitialized}

-- The tree with the sums that the call writes, and the sum that it returns.
unfoldable pub augment : Tree Cell → Tree Cell × ℕ
augment null = (null, 0)
augment (node t lch rch) = elim (t.aug == aug_uninitialized) [
  | false ↦ (node t lch rch, t.aug)
  | true ↦
      let left = augment lch in
      let right = augment rch in
      let aug = wrap (wrap (left.1 + t.val) + right.1) in
      (node (record t { aug = aug }) left.0 right.0, aug)
]

-- The two calls run in parallel, on disjoint trees.
unfoldable pub augment_parallel : Tree Cell → Tree Cell × ℕ
augment_parallel null = (null, 0)
augment_parallel (node t lch rch) = elim (t.aug == aug_uninitialized) [
  | false ↦ (node t lch rch, t.aug)
  | true ↦
      let left = augment_parallel lch in
      let right = augment_parallel rch in
      let aug = wrap (wrap (left.1 + t.val) + right.1) in
      (node (record t { aug = aug }) left.0 right.0, aug)
]

-- Every node holds the sum of the counters of its subtree.
abbrev pub IsAugmented : Tree Cell → Type 0
IsAugmented null = Unit
IsAugmented (node t l r) = (t.aug ≡ wrap (total (node t l r))) × IsAugmented l × IsAugmented r

-- Some nodes at the top have no sum yet; what is below a sum is complete.
abbrev pub IsCached : Tree Cell → Type 0
IsCached null = Unit
IsCached (node t l r) = ((t.aug ≡ 0) × IsCached l × IsCached r) ⊎ IsAugmented (node t l r)

pub IsAugmented-IsCached : (t : Tree Cell) → IsAugmented t → IsCached t
IsAugmented-IsCached null a = tt
IsAugmented-IsCached (node t l r) a = inr a

pub shape-augment : (t : Tree Cell) → shape (augment t).0 ≡ shape t
unfolding augment
shape-augment null = refl
shape-augment (node t l r) = ground (arith, shape-augment l, shape-augment r)

pub total-augment : (t : Tree Cell) → total (augment t).0 ≡ total t
unfolding augment
total-augment null = refl
total-augment (node t l r) = ground (arith, total-augment l, total-augment r)

-- Where the nodes without a sum lie above those with one, `augment` returns the sum of all counters
-- of the tree modulo 2^64, and leaves every node with the sum of its subtree.
pub augment_lem :
    (t : Tree Cell) → IsCached t → ((augment t).1 ≡ wrap (total t)) × IsAugmented (augment t).0
unfolding augment
augment_lem null c = (refl, tt)
augment_lem (node t l r) c = ground (
  arith,
  augment_lem l,
  augment_lem r,
  total-augment l,
  total-augment r,
  IsAugmented-IsCached l,
  IsAugmented-IsCached r,
)
