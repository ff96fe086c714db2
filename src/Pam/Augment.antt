-- ===== src/Pam/Augment.antt =====
-- lib/pam/augment.hpp: the cached sums, and the newest version in each subtree.
pub mod Kept
use Prim.Native.Nat.{max}
use contreap.Prelude.{ℕ, ◌+◌, true, false, ◌==◌, wrap}
use contreap.Tree.{Tree, null, node}
use contreap.Pam.Node.{Cell, last, vstat_uninitialized, subtree_vstat}

-- The tree with what the call writes, and the sum that it returns.
unfoldable pub augment_parallel : Tree Cell → Tree Cell × ℕ
unfolding subtree_vstat
augment_parallel null = (null, 0)
augment_parallel (node t lch rch) = elim (t.vstat == vstat_uninitialized) [
  | false ↦ (node t lch rch, t.aug)
  | true ↦
      let left = augment_parallel lch in
      let right = augment_parallel rch in
      let aug = wrap (wrap (left.1 + (last t).val) + right.1) in
      let vstat = max (last t).ver (max (subtree_vstat left.0) (subtree_vstat right.0)) in
      (node (record t { aug = aug; vstat = vstat }) left.0 right.0, aug)
]
