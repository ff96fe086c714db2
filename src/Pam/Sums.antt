-- ===== src/Pam/Sums.antt =====
-- lib/pam: the cached sums of a version, and the versions of its entries.
pub mod Kept
pub mod Older
use contreap.Prelude.{
  ℕ, suc, ◌+◌, ◌≡◌, ◌≤◌, ◌<◌, ◌⊎◌, inl, inr, refl, arith, true, false, ◌==◌, wrap, Bool-cases,
}
use contreap.Tree.{Tree, null, node, total}
use contreap.Tree.Order.{All}
use contreap.Pam.Node.{Cell, cell_keyed, vstat_uninitialized, last, subtree_vstat}
use contreap.Pam.Augment.{augment_parallel}
use contreap.Pam.Augment.Kept.{total-augment_parallel}

-- Every node holds the sum of the newest counters of its subtree.
abbrev pub IsAugmented : Tree Cell → Type 0
IsAugmented null = Unit
IsAugmented (node t l r) = (t.aug ≡ wrap (total (node t l r))) × IsAugmented l × IsAugmented r

-- A node whose sum has not been written.
abbrev pub Fresh : Cell → Type 0
Fresh c = c.vstat ≡ vstat_uninitialized

-- What is below a sum is complete.
abbrev pub IsCached : Tree Cell → Type 0
IsCached null = Unit
IsCached (node t l r) = (Fresh t ⊎ IsAugmented (node t l r)) × IsCached l × IsCached r

pub IsAugmented-IsCached : (t : Tree Cell) → IsAugmented t → IsCached t
IsAugmented-IsCached null a = tt
IsAugmented-IsCached (node t l r) a =
    (inr a, IsAugmented-IsCached l a.1, IsAugmented-IsCached r a.2)

pub Fresh-IsCached : (t : Tree Cell) → All Fresh t → IsCached t
Fresh-IsCached null a = tt
Fresh-IsCached (node t l r) a = (inl a.0, Fresh-IsCached l a.1, Fresh-IsCached r a.2)

-- `augment_parallel` returns the sum of the newest counters modulo 2^64, and leaves every node with the
-- sum of its subtree.
pub augment_parallel_lem :
    (t : Tree Cell)
    → IsCached t
    → ((augment_parallel t).1 ≡ wrap (total t)) × IsAugmented (augment_parallel t).0
unfolding augment_parallel
augment_parallel_lem null c = (refl, tt)
augment_parallel_lem (node t l r) c = ground (
  arith,
  augment_parallel_lem l,
  augment_parallel_lem r,
  total-augment_parallel l,
  total-augment_parallel r,
  IsAugmented-IsCached l,
  IsAugmented-IsCached r,
)
