-- ===== src/Examples/Releases.antt =====
-- Tests of `release_tree`: a node with two children, and one whose children are the same node.
use contreap.Prelude.{ℕ, ◌≡◌, ◌≤◌, refl, arith, true, Option, none, some, ◌==◌, if◌then◌else◌}
use contreap.Tree.{Tree, null, node}
use contreap.Tree.Release.{Memory, array, release_tree, release_node}
use contreap.Tree.Release.Safe.{times, Released, release_tree-Safe}

abbrev left : ℕ → Option ℕ
left a = if a == 1 then some 2 else none

abbrev right : ℕ → Option ℕ
right a = if a == 1 then some 3 else none

abbrev memory : Memory
memory = record { lch = left; rch = right; vals = λ a. array; live = λ a. true }

abbrev three : Tree ℕ
three = node 1 (node 2 null null) (node 3 null null)

three_once : (b : ℕ) → times b three ≤ 1
three_once b = ground arith

-- A node that two pointers lead to is read after it is gone.
shared : release_tree release_node 3 (some 1) (record memory { rch = left }) ≡ none
unfolding release_tree release_node
shared = refl

release_tree-Safe_example :
    (m' : Memory) × (release_tree release_node 3 (some 1) memory ≡ some m')
    × Released memory m' (λ b. times b three)
release_tree-Safe_example =
    release_tree-Safe three 3 (some 1) memory (omega arith) three_once
      (refl, refl, (refl, refl, refl, refl), (refl, refl, refl, refl))
