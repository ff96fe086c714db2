-- ===== src/Pam/Interface.antt =====
-- lib/pam/interface.hpp: the operations that the batch backend calls. Each gives a new version of
-- the tree, with its sums.
pub mod Updates
use contreap.Prelude.{ℕ, List}
use contreap.Tree.{Tree}
use contreap.Pam.Node.{Cell, make_node_hashed}
use contreap.Pam.Augment.{augment_parallel}
use contreap.Pam.Build
use contreap.Pam.BuildVersioned.{build_versioned}
use contreap.Pam.Query
use contreap.Pam.CopyMerge.{copy_merge}
use contreap.Pam.CopySubtract.{copy_subtract}

module _ (hash : ℕ → ℕ) where
  unfoldable pub build : List ℕ → Tree Cell
  build elems = (augment_parallel (Build.build hash elems)).0

  unfoldable pub inserted_one : Tree Cell → ℕ → ℕ → Tree Cell
  inserted_one t_old ver elem =
      (augment_parallel (copy_merge t_old (make_node_hashed hash ver elem))).0

  unfoldable pub inserted : Tree Cell → ℕ → List ℕ → Tree Cell
  inserted t_old ver elems =
      (augment_parallel (copy_merge t_old (build_versioned hash ver elems))).0

  unfoldable pub deleted_one : Tree Cell → ℕ → ℕ → Tree Cell
  deleted_one t_old ver elem =
      (augment_parallel (copy_subtract t_old (make_node_hashed hash ver elem))).0

  unfoldable pub deleted : Tree Cell → ℕ → List ℕ → Tree Cell
  deleted t_old ver elems =
      (augment_parallel (copy_subtract t_old (build_versioned hash ver elems))).0

abbrev pub find : Tree Cell → ℕ → ℕ → ℕ
find t v k = Query.find t v k

abbrev pub range_estimate : Tree Cell → ℕ → ℕ → ℕ → ℕ
range_estimate t v l r = Query.range_query t v l r
