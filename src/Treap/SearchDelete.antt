-- ===== src/Treap/SearchDelete.antt =====
-- lib/treap/search_delete.hpp: deletion that copies the path it changes.
pub mod Invariant
pub mod Contents
pub mod Sums
use contreap.Prelude.{ℕ, ◌+◌, ◌-◌, true, false, ltb, ◌==◌, wrap, u64_mod}
use contreap.Tree.{Tree, null, node, concat_with}
use contreap.Treap.Node.{Cell, cell_keyed, make_weak_copy}

-- `process_concat` joins two trees, with copies of the version `ver`.
unfoldable pub process_concat : ℕ → Tree Cell → Tree Cell → Tree Cell
unfolding concat_with make_weak_copy
process_concat ver t_l t_r = concat_with (make_weak_copy ver) t_l t_r

unfoldable pub search_delete : ℕ → Tree Cell → ℕ → ℕ → Tree Cell
unfolding process_concat
search_delete ver null pry key = null
search_delete ver (node t lch rch) pry key = elim (ltb pry t.pry) [
  | true ↦ elim (ltb key t.key) [
    | true ↦ node (make_weak_copy ver t) (search_delete ver lch pry key) rch
    | false ↦ node (make_weak_copy ver t) lch (search_delete ver rch pry key)
  ]
  | false ↦ elim (t.key == key) [
    | true ↦ elim (t.val == 1) [
      | true ↦ process_concat ver lch rch
      | false ↦ node (record (make_weak_copy ver t) { val = wrap (t.val + u64_mod - 1) }) lch rch
    ]
    | false ↦ node t lch rch
  ]
]
