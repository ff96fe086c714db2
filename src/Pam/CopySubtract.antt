-- ===== src/Pam/CopySubtract.antt =====
-- lib/pam/copy_subtract.hpp: a batch of deletions from a persistent tree.
pub mod Invariant
pub mod Contents
use contreap.Prelude.{ℕ, zero, suc, ◌+◌, true, false, ltb, ◌==◌, if◌then◌else◌}
use contreap.Tree.{Tree, null, node, size, concat_with}
use contreap.Pam.Node.{Cell, cell_keyed, make_weak_copy, vstat_uninitialized}
use contreap.Pam.Build.{split}

-- A node whose sum is not computed yet belongs to no version, and is used again.
unfoldable pub make_copy_if_need : Cell → Cell
make_copy_if_need t = if t.vstat == vstat_uninitialized then t else make_weak_copy t

unfoldable pub copy_concat : Tree Cell → Tree Cell → Tree Cell
copy_concat t_l t_r = concat_with make_copy_if_need t_l t_r

unfoldable pub copy_subtract_fuel : ℕ → Tree Cell → Tree Cell → Tree Cell
copy_subtract_fuel zero t_old t_det = null
copy_subtract_fuel (suc f) null t_det = null
copy_subtract_fuel (suc f) (node o l r) null = node o l r
copy_subtract_fuel (suc f) (node o l r) (node d m s) = elim (o.key == d.key) [
  | true ↦ copy_concat (copy_subtract_fuel f l m) (copy_subtract_fuel f r s)
  | false ↦ elim (ltb d.pry o.pry) [
    | true ↦
        let parts = split (node d m s) o.key in
        node (make_weak_copy o) (copy_subtract_fuel f l parts.0) (copy_subtract_fuel f r parts.1)
    | false ↦ copy_subtract_fuel f (node o l r) (copy_concat m s)
  ]
]

unfoldable pub copy_subtract : Tree Cell → Tree Cell → Tree Cell
copy_subtract t_old t_det = copy_subtract_fuel (suc (size t_old + size t_det)) t_old t_det
