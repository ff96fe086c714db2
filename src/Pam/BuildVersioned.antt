-- ===== src/Pam/BuildVersioned.antt =====
-- lib/pam/build_versioned.hpp: the tree of a batch, whose keys have consecutive versions.
pub mod Versions
pub mod Find
pub mod Contents
use contreap.Prelude.{ℕ, zero, suc, ◌+◌, ◌/◌, List, [], ◌∷◌, ◌++◌, map, length, take, drop, wrap}
use contreap.Tree.{Tree, null, merge_with}
use contreap.Pam.Node.{ValVer, Cell, cell_keyed, last, make_node_hashed}

-- A value on top of an earlier count.
abbrev pub raise : ℕ → ValVer → ValVer
raise val_base v = record v { val = wrap (val_base + v.val) }

-- The values of the first node, then those of the second on top of the last of them.
unfoldable pub merge_values : Cell → Cell → Cell
merge_values t_0 t_1 =
    let val_base = (last t_0).val in
    record t_0 { later = t_0.later ++ raise val_base t_1.first ∷ map (raise val_base) t_1.later }

unfoldable pub merge_versioned : Tree Cell → Tree Cell → Tree Cell
merge_versioned t_0 t_1 = merge_with merge_values t_0 t_1

unfoldable pub build_versioned_fuel : (ℕ → ℕ) → ℕ → ℕ → List ℕ → Tree Cell
unfolding make_node_hashed
build_versioned_fuel hash zero ver elems = null
build_versioned_fuel hash (suc f) ver [] = null
build_versioned_fuel hash (suc f) ver (x ∷ []) = make_node_hashed hash ver x
build_versioned_fuel hash (suc f) ver (x ∷ y ∷ rest) =
    let elems = x ∷ y ∷ rest in
    let half = length elems / 2 in
    merge_versioned (build_versioned_fuel hash f ver (take half elems))
      (build_versioned_fuel hash f (wrap (ver + half)) (drop half elems))

unfoldable pub build_versioned : (ℕ → ℕ) → ℕ → List ℕ → Tree Cell
build_versioned hash ver elems = build_versioned_fuel hash (length elems) ver elems
