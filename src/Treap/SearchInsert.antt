-- ===== src/Treap/SearchInsert.antt =====
-- lib/treap/search_insert.hpp: insertion that copies the path it changes.
pub mod Invariant
pub mod Contents
pub mod Sums
use contreap.Prelude.{ℕ, ◌+◌, true, false, ltb, ◌==◌, wrap}
use contreap.Tree.{Tree, null, node, split_with}
use contreap.Treap.Node.{Cell, cell_keyed, make_cell, make_node, make_weak_copy}

-- `split_copy` splits with copies of the version `ver`.
unfoldable pub split_copy : ℕ → Tree Cell → ℕ → Tree Cell × Tree Cell
unfolding split_with make_weak_copy
split_copy ver t key = split_with (make_weak_copy ver) t key

-- The new node over the two parts of the tree.
unfoldable pub process_deploy : ℕ → Tree Cell → ℕ → ℕ → Tree Cell
unfolding split_copy
process_deploy ver t_past pry key =
    let parts = split_copy ver t_past key in node (make_cell ver pry key) parts.0 parts.1

unfoldable pub search_insert : ℕ → Tree Cell → ℕ → ℕ → Tree Cell
unfolding make_node make_weak_copy
search_insert ver null pry key = make_node ver pry key
search_insert ver (node t lch rch) pry key = elim (ltb pry t.pry) [
  | true ↦ elim (ltb key t.key) [
    | true ↦ node (make_weak_copy ver t) (search_insert ver lch pry key) rch
    | false ↦ node (make_weak_copy ver t) lch (search_insert ver rch pry key)
  ]
  | false ↦ elim (t.key == key) [
    | true ↦ node (record (make_weak_copy ver t) { val = wrap (t.val + 1) }) lch rch
    | false ↦ process_deploy ver (node t lch rch) pry key
  ]
]
