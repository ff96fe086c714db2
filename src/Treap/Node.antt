-- ===== src/Treap/Node.antt =====
-- lib/treap/node.hpp: the nodes of the treap. A pointer is the tree that it leads to; a node that a
-- routine builds and then fills by assignments to `lch` and `rch` is built with its children.
use contreap.Prelude.{ℕ, refl}
use contreap.Tree.{Tree, null, node, Keyed}
use contreap.Tree.Split.{IsCopy}

-- The fields of `node_t` but for its two pointers.
pub record Cell : Type 0 where
  pub ver : ℕ
  pub pry : ℕ
  pub key : ℕ
  pub val : ℕ
  pub aug : ℕ

instance abbrev pub cell_keyed : Keyed Cell
cell_keyed = record { key = λ c. c.key; pry = λ c. c.pry; weight = λ c. c.val }

abbrev pub aug_uninitialized : ℕ
aug_uninitialized = 0

-- A new node's cell: one copy of the key, and no sum yet.
abbrev pub make_cell : ℕ → ℕ → ℕ → Cell
make_cell ver pry key = record { ver = ver; pry = pry; key = key; val = 1; aug = aug_uninitialized }

unfoldable pub make_node : ℕ → ℕ → ℕ → Tree Cell
make_node ver pry key = node (make_cell ver pry key) null null

-- The overload that hashes the key for its priority.
unfoldable pub make_node_hashed : (ℕ → ℕ) → ℕ → ℕ → Tree Cell
unfolding make_node
make_node_hashed hash ver key = make_node ver (hash key) key

-- The copy at the version `ver`, whose children its caller sets.
unfoldable pub make_weak_copy : ℕ → Cell → Cell
make_weak_copy ver t = record {
  ver = ver;
  pry = t.pry;
  key = t.key;
  val = t.val;
  aug = aug_uninitialized;
}

pub make_weak_copy-IsCopy : (ver : ℕ) → IsCopy (make_weak_copy ver)
unfolding make_weak_copy
make_weak_copy-IsCopy ver = record { key = λ c. refl; pry = λ c. refl; weight = λ c. refl }
