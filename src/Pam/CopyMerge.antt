-- ===== src/Pam/CopyMerge.antt =====
-- lib/pam/copy_merge.hpp: a batch of insertions into a persistent tree.
pub mod Invariant
pub mod Contents
use contreap.Prelude.{ℕ, zero, suc, ◌+◌, true, false, ltb, ◌==◌, map}
use contreap.Tree.{Tree, null, node, size, split_with}
use contreap.Pam.Node.{Cell, cell_keyed, last, make_weak_copy}
use contreap.Pam.Build.{split}
use contreap.Pam.BuildVersioned.{raise}

unfoldable pub update_values : Cell → ℕ → Cell
update_values t val_base = record t {
  first = raise val_base t.first;
  later = map (raise val_base) t.later;
}

unfoldable pub copy_split : Tree Cell → ℕ → Tree Cell × Tree Cell
copy_split t key = split_with make_weak_copy t key

-- `expose` takes the batch's node from its children: they are the two trees of its pattern here.
unfoldable pub copy_merge_fuel : ℕ → Tree Cell → Tree Cell → Tree Cell
copy_merge_fuel zero t_old t_ins = null
copy_merge_fuel (suc f) null t_ins = t_ins
copy_merge_fuel (suc f) (node o l r) null = node o l r
copy_merge_fuel (suc f) (node o l r) (node i m s) = elim (ltb i.pry o.pry) [
  | true ↦
      let parts = split (node i m s) o.key in
      node (make_weak_copy o) (copy_merge_fuel f l parts.0) (copy_merge_fuel f r parts.1)
  | false ↦ elim (o.key == i.key) [
    | true ↦ node (update_values i (last o).val) (copy_merge_fuel f l m) (copy_merge_fuel f r s)
    | false ↦
        let parts = copy_split (node o l r) i.key in
        node i (copy_merge_fuel f parts.0 m) (copy_merge_fuel f parts.1 s)
  ]
]

unfoldable pub copy_merge : Tree Cell → Tree Cell → Tree Cell
copy_merge t_old t_ins = copy_merge_fuel (suc (size t_old + size t_ins)) t_old t_ins
