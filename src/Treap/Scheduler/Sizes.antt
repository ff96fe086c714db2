-- ===== src/Treap/Scheduler/Sizes.antt =====
-- An update makes a tree at most one node larger.
use contreap.Prelude.{ℕ, zero, suc, ◌+◌, ◌≡◌, ◌≤◌, arith}
use contreap.Tree.{Tree, null, node, size}
use contreap.Tree.Split.{size-split}
use contreap.Tree.Concat.{size-concat}
use contreap.Treap.Node.{Cell, make_weak_copy, make_node, cell_keyed}
use contreap.Treap.SearchInsert.{search_insert, process_deploy, split_copy}
use contreap.Treap.SearchDelete.{search_delete, process_concat}
use contreap.Treap.Scheduler.Task.{Operation, op_none, op_insert, op_delete}
use contreap.Treap.Scheduler.Machine.{Request}
use contreap.Treap.Scheduler.Protocol.{perform, version_of}

size-process_deploy :
    (ver : ℕ) (t : Tree Cell) (pry key : ℕ) → size (process_deploy ver t pry key) ≡ size t + 1
unfolding process_deploy split_copy
size-process_deploy ver t pry key = omega (arith, size-split (make_weak_copy ver) t key)

size-process_concat : (ver : ℕ) (t u : Tree Cell) → size (process_concat ver t u) ≡ size t + size u
unfolding process_concat
size-process_concat ver t u = size-concat (make_weak_copy ver) t u

size-search_insert :
    (ver : ℕ) (t : Tree Cell) (pry key : ℕ) → size (search_insert ver t pry key) ≤ size t + 1
unfolding search_insert make_node
size-search_insert ver null pry key = omega arith
size-search_insert ver (node c l r) pry key = ground (
  arith,
  size-process_deploy ver (node c l r) pry key,
  size-search_insert ver l pry key,
  size-search_insert ver r pry key,
)

size-search_delete :
    (ver : ℕ) (t : Tree Cell) (pry key : ℕ) → size (search_delete ver t pry key) ≤ size t
unfolding search_delete
size-search_delete ver null pry key = omega arith
size-search_delete ver (node c l r) pry key = ground (
  arith,
  size-process_concat ver l r,
  size-search_delete ver l pry key,
  size-search_delete ver r pry key,
)

size-perform :
    (hash : ℕ → ℕ) (op : Operation) (elem ver : ℕ) (t : Tree Cell)
    → size (perform hash op elem ver t) ≤ size t + 1
size-perform hash op_none elem ver t = omega arith
size-perform hash op_insert elem ver t = size-search_insert ver t (hash elem) elem
size-perform hash op_delete elem ver t = omega (arith, size-search_delete ver t (hash elem) elem)

pub size-version_of :
    (hash : ℕ → ℕ) (program : ℕ → Request) (t0 : Tree Cell) (i : ℕ)
    → size (version_of hash program t0 i) ≤ size t0 + i
unfolding version_of
size-version_of hash program t0 zero = omega arith
size-version_of hash program t0 (suc i) =
    let before = size-version_of hash program t0 i in
    let step =
      size-perform hash (program (suc i)).op (program (suc i)).elem (suc i)
        (version_of hash program t0 i) in
    omega arith
