-- ===== src/Db/Contreap/Points.antt =====
-- db/contreap.hpp: `processor_function_` where both ends of the range are one key, with `find` of
-- lib/treap/query.hpp on the nodes of the scheduler.
pub mod Answers
use contreap.Prelude.{ℕ, zero, suc, ltb, ◌==◌, true, false}
use contreap.Treap.Query.{find}
use contreap.Treap.Scheduler.Store.{Ptr, tree, at, Store, View, look, Result, ok, fault, ◌>>=◌}
use contreap.Treap.Scheduler.Machine.{Machine, get_snapshot}

-- The loop on nodes with addresses; the fuel bounds its rounds.
unfoldable pub find_node : ℕ → Store → Ptr → ℕ → Result Ptr
find_node fuel s (tree t) key = ok (tree (find t key))
find_node zero s (at a) key = fault
find_node (suc fuel) s (at a) key = elim (key == (s.nodes a).cell.key) [
  | true ↦ ok (at a)
  | false ↦ elim (ltb key (s.nodes a).cell.key) [
    | true ↦ find_node fuel s (s.nodes a).lch key
    | false ↦ find_node fuel s (s.nodes a).rch key
  ]
]

-- `->val`
abbrev pub val_of : View → Result ℕ
val_of View.void = fault
val_of (View.fields c l r) = ok c.val

-- `find(t, key)->val`
abbrev pub lookup : ℕ → Store → Ptr → ℕ → Result ℕ
lookup fuel s t key = find_node fuel s t key >>= λ q. val_of (look s q)

unfoldable pub point_query : ℕ → Machine → ℕ → ℕ → Result ℕ
point_query fuel m ver key = do t ← get_snapshot m ver; lookup fuel m.store t key
