-- ===== src/Pam/Node.antt =====
-- lib/pam/node.hpp: the nodes of the batch tree.
use contreap.Prelude.{ℕ, ◌-◌, List, [], ◌∷◌, refl, u64_mod}
use contreap.Tree.{Tree, null, node, Keyed}
use contreap.Tree.Split.{IsCopy}

pub record ValVer : Type 0 where
  pub val : ℕ
  pub ver : ℕ

-- The fields of `node_t` but for its two pointers. The array `vals` of `nvals` entries is never
-- empty: it is its first entry and the list of the others.
pub record Cell : Type 0 where
  pub vstat : ℕ
  pub pry : ℕ
  pub key : ℕ
  pub first : ValVer
  pub later : List ValVer
  pub aug : ℕ

-- `vals[nvals-1]`
abbrev pub last_of : ValVer → List ValVer → ValVer
last_of v [] = v
last_of v (w ∷ vs) = last_of w vs

abbrev pub last : Cell → ValVer
last t = last_of t.first t.later

-- A node counts its newest value.
instance abbrev pub cell_keyed : Keyed Cell
cell_keyed = record { key = λ c. c.key; pry = λ c. c.pry; weight = λ c. (last c).val }

abbrev pub vstat_uninitialized : ℕ
vstat_uninitialized = u64_mod - 1

abbrev pub aug_uninitialized : ℕ
aug_uninitialized = 0

-- The cell of a node with one value.
abbrev pub make_cell : ℕ → ℕ → ℕ → ℕ → Cell
make_cell ver pry key val = record {
  vstat = vstat_uninitialized;
  pry = pry;
  key = key;
  first = record { val = val; ver = ver };
  later = [];
  aug = aug_uninitialized;
}

unfoldable pub make_node : ℕ → ℕ → ℕ → ℕ → Tree Cell
make_node ver pry key val = node (make_cell ver pry key val) null null

-- The overload that hashes the key for its priority, with the default value.
unfoldable pub make_node_hashed : (ℕ → ℕ) → ℕ → ℕ → Tree Cell
unfolding make_node
make_node_hashed hash ver key = make_node ver (hash key) key 1

-- Only the last value is copied.
unfoldable pub make_weak_copy : Cell → Cell
make_weak_copy t = make_cell (last t).ver t.pry t.key (last t).val

unfoldable pub subtree_vstat : Tree Cell → ℕ
subtree_vstat null = 0
subtree_vstat (node t lch rch) = t.vstat

pub make_weak_copy-IsCopy : IsCopy make_weak_copy
unfolding make_weak_copy
make_weak_copy-IsCopy = record { key = λ c. refl; pry = λ c. refl; weight = λ c. refl }
