-- ===== src/Pam/Build.antt =====
-- lib/pam/build.hpp: the tree of the initial keys.
pub mod Contents
use contreap.Prelude.{ℕ, zero, suc, ◌+◌, ◌/◌, List, [], ◌∷◌, length, take, drop, wrap}
use contreap.Tree.{Tree, null, split_with, merge_with}
use contreap.Pam.Node.{Cell, cell_keyed, make_node_hashed}

-- `split` moves the nodes themselves.
unfoldable pub split : Tree Cell → ℕ → Tree Cell × Tree Cell
split t key = split_with (λ c. c) t key

-- Where both trees have a key, the first one's node stays, and its first value counts both.
unfoldable pub merge_cells : Cell → Cell → Cell
merge_cells t_0 t_1 = record t_0 {
  first = record t_0.first { val = wrap (t_0.first.val + t_1.first.val) };
}

unfoldable pub merge : Tree Cell → Tree Cell → Tree Cell
merge t_0 t_1 = merge_with merge_cells t_0 t_1

unfoldable pub build_fuel : (ℕ → ℕ) → ℕ → List ℕ → Tree Cell
unfolding make_node_hashed
build_fuel hash zero elems = null
build_fuel hash (suc f) [] = null
build_fuel hash (suc f) (x ∷ []) = make_node_hashed hash 0 x
build_fuel hash (suc f) (x ∷ y ∷ rest) =
    let elems = x ∷ y ∷ rest in
    let half = length elems / 2 in
    merge (build_fuel hash f (take half elems)) (build_fuel hash f (drop half elems))

unfoldable pub build : (ℕ → ℕ) → List ℕ → Tree Cell
build hash elems = build_fuel hash (length elems) elems
