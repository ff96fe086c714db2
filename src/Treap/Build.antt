-- ===== src/Treap/Build.antt =====
-- lib/treap/build.hpp: a treap of an array of keys, by halves.
pub mod Merge
pub mod Contents
use contreap.Prelude.{ℕ, zero, suc, ◌+◌, ◌/◌, List, [], ◌∷◌, length, take, drop, wrap}
use contreap.Tree.{Tree, null, node, split_with, merge_with}
use contreap.Treap.Node.{Cell, cell_keyed, make_node_hashed}
use contreap.Treap.Augment.{augment_parallel}

-- `split` moves the nodes themselves.
unfoldable pub split : Tree Cell → ℕ → Tree Cell × Tree Cell
split t key = split_with (λ c. c) t key

-- Where both trees have a key, the second one's node stays and counts both.
unfoldable pub merge_cells : Cell → Cell → Cell
merge_cells t_0 t_1 = record t_1 { val = wrap (t_1.val + t_0.val) }

-- The two recursive calls run in parallel, on disjoint trees.
unfoldable pub merge : Tree Cell → Tree Cell → Tree Cell
merge t_0 t_1 = merge_with merge_cells t_0 t_1

unfoldable pub build_fuel : (ℕ → ℕ) → ℕ → List ℕ → Tree Cell
unfolding make_node_hashed
build_fuel hash zero elems = null
build_fuel hash (suc f) [] = null
build_fuel hash (suc f) (x ∷ []) = make_node_hashed hash 0 x
build_fuel hash (suc f) (x ∷ y ∷ rest) =
    let elems = x ∷ y ∷ rest in
    let half = length elems / 2 in
    merge (build_fuel hash f (take half elems)) (build_fuel hash f (drop half elems))

-- The halves of an array of two keys or more are shorter, so its length is fuel enough.
unfoldable pub build : (ℕ → ℕ) → List ℕ → Tree Cell
build hash elems = build_fuel hash (length elems) elems

unfoldable pub build_parallel : (ℕ → ℕ) → List ℕ → Tree Cell
build_parallel hash elems = (augment_parallel (build hash elems)).0
