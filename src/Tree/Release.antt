-- ===== src/Tree/Release.antt =====
-- `release_node` and `release_tree` of lib/treap/node.hpp and lib/pam/node.hpp, on nodes at addresses.
-- A read or a deletion of memory that is not allocated has no result, nor has any other deletion that
-- the language leaves undefined.
pub mod Safe
use contreap.Prelude.{
  ℕ, zero, suc, ◌+◌, ◌==◌, Bool, true, false, Option, none, some, ◌>>=◌, if◌then◌else◌,
}

-- What the pointer `vals` of a node of lib/pam leads to: nothing where it is null, memory that was given
-- back, memory of `new`, or memory of `new[]`.
pub data Block : Type 0 where
  nothing released object array : Block

-- The nodes, each with its two pointers and, for lib/pam, its own `vals`; and which nodes are allocated.
pub record Memory : Type 0 where
  pub lch : ℕ → Option ℕ
  pub rch : ℕ → Option ℕ
  pub vals : ℕ → Block
  pub live : ℕ → Bool

abbrev pub clear : (ℕ → Bool) → ℕ → ℕ → Bool
clear live a = λ b. if b == a then false else live b

-- `delete t`
abbrev pub delete_node : ℕ → Memory → Option Memory
delete_node a m = elim (m.live a) [
  | false ↦ none
  | true ↦ some (record m { live = clear m.live a })
]

-- `delete` on memory of `new[]`, or on memory that was given back, is undefined.
abbrev pub deleted : Block → Option Block
deleted nothing = some nothing
deleted released = none
deleted object = some released
deleted array = none

-- `delete t->vals`
abbrev pub delete_vals : ℕ → Memory → Option Memory
delete_vals a m = do
  block ← deleted (m.vals a)
  some (record m { vals = λ b. if b == a then block else m.vals b })

-- `if (t->vals != nullptr) { delete t->vals; }`
abbrev pub delete_vals_of : Block → ℕ → Memory → Option Memory
delete_vals_of nothing a m = some m
delete_vals_of released a m = delete_vals a m
delete_vals_of object a m = delete_vals a m
delete_vals_of array a m = delete_vals a m

-- `release_node` of lib/treap
unfoldable pub release_node : ℕ → Memory → Option Memory
release_node a m = delete_node a m

-- `release_node` of lib/pam
unfoldable pub release_node_vals : ℕ → Memory → Option Memory
release_node_vals a m = elim (m.live a) [
  | false ↦ none
  | true ↦ do m' ← delete_vals_of (m.vals a) a m; delete_node a m'
]

-- `t->lch` and `t->rch`
abbrev pub read_child : (ℕ → Option ℕ) → ℕ → Memory → Option (Option ℕ)
read_child child a m = elim (m.live a) [ false ↦ none | true ↦ some (child a) ]

-- `release_tree`, which both libraries write in the same way, on fuel.
unfoldable pub release_tree : (ℕ → Memory → Option Memory) → ℕ → Option ℕ → Memory → Option Memory
release_tree release fuel none m = some m
release_tree release zero (some a) m = none
release_tree release (suc fuel) (some a) m = do
  l ← read_child m.lch a m
  m1 ← release_tree release fuel l m
  r ← read_child m1.rch a m1
  m2 ← release_tree release fuel r m1
  release a m2
